-- ===== src/Caster/Load/Posting.antt =====
-- A POST of a tier to the admin API, and what `load_config` reads afterwards.
use babilcors.Prelude.{
  ◌≡◌, ◌≢◌, refl, ap, ◌∙◌, inl, inr, Bool, true, false, not, Option, none, some, List, [], ◌∷◌,
  ◌++◌, if◌then◌else◌, ◌>>=◌, arith, Bool-cases,
}
use babilcors.Prelude.Int.{ℤ}
use babilcors.Tiers.{Tier}
use babilcors.Json.{
  Text, codes, Value, int, object, Fields, put, get_or_null, as_object, or_empty, or_default,
  has_key, same_text,
}
use babilcors.Json.Laws.{get-put}
use babilcors.Config.{Listen}
use babilcors.Caster.Routes.{
  Host, str, State, Updated, done, refused, denied, Result, updated, failed, forbidden,
  update_config, write, Answer, status, error, answer_by, new_tier,
}
use babilcors.Caster.Routes.Resources.{create_in, create_tier, post_tier}
use babilcors.Caster.Load.{
  Site, Sections, Loaded, sections, build_tier, load_tiers, load_listen, load_limits, load_checked,
  checked, assemble, load_sections, load_fields, load_config, loads,
}
use babilcors.Caster.Load.Adding.{
  tier_fields, new_tier_entry-built, load_tiers-put, sections-put, sections-tiers, section-default,
}

other_result : failed ≢ updated
other_result e = cc

write-done :
    (check : Value → Bool) (v : Updated) (s : State)
    → (write check v s).1 ≡ updated
    → (raw : Fields) × (v ≡ done raw) × ((write check v s).0.raw ≡ raw)
unfolding write
write-done check refused s e = absurd (other_result e)
write-done check denied s e = cc
write-done check (done raw) s e = elim (Bool-cases (check (object raw))) [
  | inl fine ↦ (raw, refl, rw fine refl)
  | inr bad ↦ absurd (other_result (rw bad at e))
]

update-at :
    (check : Value → Bool) (path : Bool) (v : Updated) (s : State)
    → (if not path then (s, failed) else write check v s).1 ≡ updated
    → (raw : Fields) × (v ≡ done raw)
      × ((if not path then (s, failed) else write check v s).0.raw ≡ raw)
update-at check false v s e = absurd (other_result e)
update-at check true v s e = write-done check v s e

-- An update that is done has written what the updater has made.
pub update_config-done :
    (check : Value → Bool) (u : Fields → Updated) (s : State)
    → (update_config check u s).1 ≡ updated
    → (raw : Fields) × (u s.raw ≡ done raw) × ((update_config check u s).0.raw ≡ raw)
unfolding update_config
update_config-done check u s e = update-at check s.has_path (u s.raw) s e

created :
    (key name : Text) (v : Value) (raw raw' : Fields) (o : Option Fields)
    → elim o [
      | none ↦ refused
      | some es ↦ if has_key name es then refused else done (put key (object (put name v es)) raw)
    ]
      ≡ done raw'
    → (es : Fields) × (o ≡ some es)
      × (has_key name es ≡ false)
      × (raw' ≡ put key (object (put name v es)) raw)
created key name v raw raw' none e = cc
created key name v raw raw' (some es) e = elim (Bool-cases (has_key name es)) [
  | inl taken ↦ absurd (ground (arith, taken, e))
  | inr fresh ↦ (es, refl, fresh, ground (arith, fresh, e))
]

-- The answer 201 is that of an update that is done.
answer-created :
    (r : State × Result)
    → (answer_by (status 201) (status 400) (error 409) r).1 ≡ status 201
    → (r.1 ≡ updated) × ((answer_by (status 201) (status 400) (error 409) r).0 ≡ r.0)
unfolding answer_by
answer-created (s, updated) e = (refl, refl)
answer-created (s, failed) e = absurd (ground (arith, e))
answer-created (s, forbidden) e = absurd (ground (arith, e))

-- The configuration with one tier more at the end of its tiers.
abbrev pub with_tier : Text × Tier → Loaded → Loaded
with_tier p l = record l { config = record l.config { tiers = l.config.tiers ++ p ∷ [] } }

module _ (H : Host) (site : Site) where
  assembled :
      (sec : Value) (s : Sections) (ts : Fields) (p : Text × Tier) (l : Loaded) (a : Option Listen)
      (b b' : Option (List (Text × Tier))) (c : Option (List (Text × ℤ)))
      → ((ks : List (Text × Tier)) → b ≡ some ks → b' ≡ some (ks ++ p ∷ []))
      → assemble H site sec s (checked H site sec s a b c) ≡ some l
      → assemble H site sec (record s { tiers = ts }) (checked H site sec s a b' c)
        ≡ some (with_tier p l)
  unfolding assemble checked
  assembled sec s ts p l none b b' c grown h = absurd (ground (arith, h))
  assembled sec s ts p l (some x) none b' c grown h = absurd (ground (arith, h))
  assembled sec s ts p l (some x) (some ks) b' none grown h = absurd (ground (arith, h))
  assembled sec s ts p l (some x) (some ks) b' (some z) grown h =
      rw (grown ks refl) (ap (λ o. o >>= λ l. some (with_tier p l)) h)

  loaded-put :
      (sec : Value) (o o' : Option Sections) (ts : Fields) (p : Text × Tier) (l : Loaded)
      → ((s : Sections) → o ≡ some s → o' ≡ some (record s { tiers = ts }))
      → ((s : Sections) (ks : List (Text × Tier))
          → o ≡ some s
          → load_tiers H s.tiers ≡ some ks
          → load_tiers H ts ≡ some (ks ++ p ∷ []))
      → load_sections H site sec o ≡ some l
      → load_sections H site sec o' ≡ some (with_tier p l)
  unfolding load_sections load_checked checked
  loaded-put sec none o' ts p l moved grown h = absurd (ground (arith, h))
  loaded-put sec (some s) o' ts p l moved grown h = rw (moved s refl) (
      assembled sec s ts p l (load_listen H s.listen) (load_tiers H s.tiers) (load_tiers H ts)
        (load_limits H s.limits) (λ ks. grown s ks refl) h)

  security-put :
      (v : Value) (raw : Fields)
      → or_empty (codes "security") (put (codes "tiers") v raw) ≡ or_empty (codes "security") raw
  unfolding or_empty get_or_null same_text
  security-put v raw = rw (get-put (codes "tiers") (codes "security") v raw) refl

  put-loads :
      (reads_int : (n : ℤ) → H.to_int (int n) ≡ some n) (name : Text) (t : Tier) (es raw : Fields)
      (l : Loaded)
      → as_object (or_default (codes "tiers") raw) ≡ some es
      → has_key name es ≡ false
      → load_fields H site raw ≡ some l
      → load_fields H site (put (codes "tiers") (object (put name (object (tier_fields t)) es)) raw)
        ≡ some (with_tier (name, t) l)
  unfolding load_fields
  put-loads reads_int name t es raw l found fresh h =
      let ts = put name (object (tier_fields t)) es in
      rw (security-put (object ts) raw) (
        loaded-put (or_empty (codes "security") raw) (sections raw)
          (sections (put (codes "tiers") (object ts) raw)) ts (name, t) l
          (λ s e. sections-put ts raw s e)
          (λ s ks e k. load_tiers-put H reads_int name t es ks fresh (
            ap (load_tiers H)
              (sections-tiers raw es s (section-default (codes "tiers") es raw found) e)
            ∙ k))
          h)

  create_tier-loads :
      (reads_int : (n : ℤ) → H.to_int (int n) ≡ some n) (name : Text) (t : Tier)
      (body raw raw' : Fields) (l : Loaded)
      → load_fields H site raw ≡ some l
      → build_tier H body ≡ some t
      → create_tier H (loads H site) name body raw ≡ done raw'
      → load_fields H site raw' ≡ some (with_tier (name, t) l)
  unfolding create_tier create_in
  create_tier-loads reads_int name t body raw raw' l h built made =
      let (es, found, fresh, same) =
        created (codes "tiers") name (object (tier_fields t)) raw raw'
          (as_object (or_default (codes "tiers") raw))
          (rw (create_tier, new_tier_entry-built H reads_int (loads H site) body t built, create_in)
            at made) in
      rw same (put-loads reads_int name t es raw l found fresh h)

  -- When a POST of a tier is answered with 201, `load_config` reads from the new file just what it
  -- read from the old one, with the tier of the body at the end of the tiers. Asked of `int` is
  -- that it leaves an integer as it is.
  pub post_tier-adds :
      (reads_int : (n : ℤ) → H.to_int (int n) ≡ some n) (body : Fields) (s : State) (l : Loaded)
      (t : Tier)
      → load_config H site (object s.raw) ≡ some l
      → build_tier H body ≡ some t
      → (post_tier H (loads H site) body s).1 ≡ status 201
      → load_config H site (object (post_tier H (loads H site) body s).0.raw)
        ≡ some (with_tier (str H (get_or_null (codes "name") body), t) l)
  unfolding post_tier load_config as_object
  post_tier-adds reads_int body s l t h built = fitting (H.conforms new_tier body)
    where
      name : Text
      name = str H (get_or_null (codes "name") body)

      result : State × Result
      result = update_config (loads H site) (create_tier H (loads H site) name body) s

      posted : Bool → State × Answer
      posted b =
          if not b then (s, error 400) else answer_by (status 201) (status 400) (error 409) result

      fitting :
          (b : Bool)
          → (posted b).1 ≡ status 201
          → load_fields H site (posted b).0.raw ≡ some (with_tier (name, t) l)
      fitting false e = absurd (ground (arith, e))
      fitting true e =
          let (fine, same) = answer-created result e in
          let (raw', made, written) =
            update_config-done (loads H site) (create_tier H (loads H site) name body) s fine in
          ap (λ u. load_fields H site u.raw) same
          ∙ (ap (load_fields H site) written
              ∙ create_tier-loads reads_int name t body s.raw raw' l h built made)
