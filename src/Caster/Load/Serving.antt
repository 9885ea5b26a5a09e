-- ===== src/Caster/Load/Serving.antt =====
-- The configuration that is served, over the requests of the admin API.
use babilcors.Prelude.{◌≡◌, refl, ◌∙◌, true, Option, none, some, List, [], ◌∷◌, arith}
use babilcors.Json.{codes, Value, object, or_empty, as_object}
use babilcors.Config.{is_empty, validate_config, Error}
use babilcors.Config.Valid.{IsValid, validate_config-IsValid}
use babilcors.Caster.Routes.{Host, State}
use babilcors.Caster.Routes.Dispatch.{Request}
use babilcors.Caster.Routes.Answers.{run, IsSound, run-IsSound}
use babilcors.Caster.Load.{
  Site, Sections, Loaded, sections, load_checked, assemble, load_sections, load_fields, load_config,
  is_accepted, loads,
}

is_empty-nil : (es : List Error) → is_empty es ≡ true → es ≡ []
unfolding is_empty
is_empty-nil [] h = refl
is_empty-nil (e ∷ es) h = cc

module _ (H : Host) (site : Site) where
  -- The file is read, the configuration is valid, and the `security` in use is its own.
  pub record IsServed (s : State) : Type 0 where
    pub loaded : Loaded
    pub reads : load_config H site (object s.raw) ≡ some loaded
    pub valid : IsValid loaded.config
    pub in_use : s.security ≡ loaded.security

  -- A file that is accepted was read, and its configuration is valid.
  abbrev Found : Value → Option Loaded → Type 0
  Found security r =
      is_accepted H site r ≡ true
      → (l : Loaded) × (r ≡ some l) × IsValid l.config × (security ≡ l.security)

  load_sections-Found :
      (security : Value) (s : Option Sections) → Found security (load_sections H site security s)
  unfolding load_sections assemble is_accepted
  load_sections-Found security none h = absurd (ground (arith, h))
  load_sections-Found security (some s) h =
      elim (load_checked H site security s)
          as (λ c. Found security (assemble H site security s c)) [
            | none ↦ λ h'. absurd (ground (arith, h'))
            | some c ↦ λ h'.
                (_, refl, validate_config-IsValid c (is_empty-nil (validate_config c) h'), refl)
          ]
        h

  -- Over any requests to the admin API, from a file that is accepted, the file stays one that
  -- `load_config` reads, the configuration that it reads is valid, and the `security` that is in
  -- use is the one of that configuration.
  pub run-IsServed :
      (rs : List Request) (s : State)
      → IsSound H (loads H site) s
      → IsServed (run H (loads H site) rs s)
  unfolding loads load_config load_fields as_object
  run-IsServed rs s h =
      let s' = run H (loads H site) rs s in
      let sound = run-IsSound H (loads H site) rs s h in
      let found =
        load_sections-Found (or_empty (codes "security") s'.raw) (sections s'.raw) sound.valid in
      record { loaded = found.0; reads = found.1; valid = found.2; in_use = sound.in_use ∙ found.3 }
