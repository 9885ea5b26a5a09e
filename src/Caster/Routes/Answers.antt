-- ===== src/Caster/Routes/Answers.antt =====
-- What the admin API of src/caster.py makes of the configuration file, and what it answers.
use babilcors.Prelude.{
  ◌≡◌, refl, ap, ◌∙◌, inl, inr, Bool, true, false, not, some, List, [], ◌∷◌, if◌then◌else◌,
  Bool-cases,
}
use babilcors.Json.{
  Text, codes, Value, object, Fields, has_key, as_object, get_or_null, or_default, or_empty,
}
use babilcors.Caster.Routes.{
  Host, str, State, Updated, done, refused, denied, failed, write, update_config, status, error,
  answer_by, new_user,
}
use babilcors.Caster.Routes.Resources.{
  create_in, delete_in, picked, user_fields, post_user, delete_entry,
}
use babilcors.Caster.Routes.Dispatch.{Request, dispatch}
use babilcors.Caster.Routes.Updates.{dispatch-keeps}

module _ (H : Host) (check : Value → Bool) where
  -- The requests one after the other.
  pub run : List Request → State → State
  run [] s = s
  run (r ∷ rs) s = run rs (dispatch H check r s).0

  run-keeps :
      (P : State → Type 0)
      → ((u : Fields → Updated) (s : State) → P s → P (update_config check u s).0)
      → (rs : List Request) (s : State) → P s
      → P (run rs s)
  unfolding run
  run-keeps P keeps [] s h = h
  run-keeps P keeps (r ∷ rs) s h =
      run-keeps P keeps rs (dispatch H check r s).0 (dispatch-keeps H check P keeps r s h)

  -- The file can be loaded and is valid, and the `security` that is in use is that of the file.
  pub record IsSound (s : State) : Type 0 where
    pub valid : check (object s.raw) ≡ true
    pub in_use : s.security ≡ or_empty (codes "security") s.raw

  update-IsSound :
      (u : Fields → Updated) (s : State) → IsSound s → IsSound (update_config check u s).0
  unfolding update_config write
  update-IsSound u s h =
      elim s.has_path as (λ b. IsSound (if not b then (s, failed) else write check (u s.raw) s).0) [
        | false ↦ h
        | true ↦ written (u s.raw)
      ]
    where
      written : (v : Updated) → IsSound (write check v s).0
      written refused = h
      written denied = h
      written (done raw) = elim (Bool-cases (check (object raw))) [
        | inl fine ↦ rw fine (record { valid = fine; in_use = refl })
        | inr bad ↦ rw bad h
      ]

  -- Over any requests, the configuration file stays one that can be loaded and is valid, and the
  -- `security` in use stays that of the file.
  pub run-IsSound : (rs : List Request) (s : State) → IsSound s → IsSound (run rs s)
  run-IsSound = run-keeps IsSound update-IsSound

  -- Without the path of a configuration file no request changes anything.
  pub run-no_path : (rs : List Request) (s : State) → s.has_path ≡ false → run rs s ≡ s
  run-no_path rs s missing = run-keeps (λ u. u ≡ s) stays rs s refl
    where
      stays : (u : Fields → Updated) (s' : State) → s' ≡ s → (update_config check u s').0 ≡ s
      stays u s' same = ap (λ v. (update_config check u v).0) same ∙ fails u
        where
          fails : (u : Fields → Updated) → (update_config check u s).0 ≡ s
          fails u = unfold update_config in rw missing

  update-refused :
      (change : Fields → Updated) (s : State)
      → change s.raw ≡ refused
      → update_config check change s ≡ (s, failed)
  unfolding update_config write
  update-refused change s e =
      elim s.has_path
        as (λ b. (if not b then (s, failed) else write check (change s.raw) s) ≡ (s, failed)) [
          | false ↦ refl
          | true ↦ ap (λ u. write check u s) e
        ]

  -- The deletion of a user or a tier that is not there is answered with 204, like one that is
  -- done, and changes nothing.
  pub delete_entry-absent :
      (key ident : Text) (es : Fields) (s : State)
      → as_object (or_empty key s.raw) ≡ some es
      → has_key ident es ≡ false
      → delete_entry H check key ident s ≡ (s, status 204)
  unfolding delete_entry answer_by
  delete_entry-absent key ident es s section absent =
      ap (answer_by (status 204) (status 204) (error 404)) (
        update-refused (delete_in key ident) s
          (unfold delete_in in rw (section, absent, delete_in)))

  -- A new user under a name that is taken is answered with 400, and changes nothing.
  pub post_user-taken :
      (body es : Fields) (s : State)
      → H.conforms new_user body ≡ true
      → as_object (or_default (codes "users") s.raw) ≡ some es
      → has_key (str H (get_or_null (codes "username") body)) es ≡ true
      → post_user H check body s ≡ (s, status 400)
  unfolding post_user answer_by
  post_user-taken body es s fits section taken = rw fits (
      ap (answer_by (status 201) (status 400) (error 409)) (
        update-refused
          (create_in (codes "users") (str H (get_or_null (codes "username") body))
            (object (picked user_fields body)))
          s (unfold create_in in rw (section, taken, create_in))))
