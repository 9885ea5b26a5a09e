-- ===== src/Caster/Routes/Owners/Taking.antt =====
-- What a POST of an editor of geofences does.
use babilcors.Prelude.{
  ◌≡◌, refl, sym, ap, subst, ◌∙◌, inl, inr, Bool, true, false, not, Option, none, some, [], ◌∷◌,
  if◌then◌else◌, Bool-cases,
}
use babilcors.Json.{
  Text, codes, Value, object, text, Fields, end, field, get, put, same_text, as_object, get_or_null,
  truthy,
}
use babilcors.Json.Laws.{get-put, same_text_refl}
use babilcors.Caster.Routes.{
  Host, State, Updated, done, refused, denied, failed, write, str, update_config, Answer, status,
  error, breaks, answer_by,
}
use babilcors.Caster.Routes.Geofences.{
  owner_of, within_geofences, set_geofence, new_owner, put_if, id_of, mode_of, polygon_of,
  is_polygon, save_geofence, post_geofence, post_in_mode, not_empty,
}
use babilcors.Caster.Routes.Geojson.{bbox_of, or_nil}
use babilcors.Caster.Routes.Owners.{
  geofence_in, done-injective, object-as_object, other_status, other_answer, other_error, editor,
  geofence_in-within, within-Changed,
}

module _ (H : Host) (check : Value → Bool) where
  -- The owner of an entry that is made for an editor.
  owner-made : (sub : Text) (fs : Fields) → owner_of H (put (codes "owner") (text sub) fs) ≡ sub
  unfolding owner_of get_or_null str truthy
  owner-made [] fs =
      rw (get-put (codes "owner") (codes "owner") (text []) fs, same_text_refl (codes "owner"))
  owner-made (c ∷ s) fs =
      rw (get-put (codes "owner") (codes "owner") (text (c ∷ s)) fs, same_text_refl (codes "owner"))

  -- The file has the geofence, and the owner is this one.
  abbrev pub IsOwnedBy : Text → Text → Fields → Type 0
  IsOwnedBy sub gid raw = (cur : Fields) × (geofence_in gid raw ≡ some cur) × (owner_of H cur ≡ sub)

  set-owned :
      (sub gid : Text) (poly : Value) (mode : Text) (gj : Option Value) (body raw raw' : Fields)
      → within_geofences (set_geofence H (editor sub) gid poly mode gj body) raw ≡ done raw'
      → IsOwnedBy sub gid raw'
  unfolding set_geofence new_owner put_if
  set-owned sub gid poly mode gj body raw raw' e =
      let c = within-Changed (set_geofence H (editor sub) gid poly mode gj body) raw raw' e in
      let rest = put_if (codes "geojson") gj (
        put_if (codes "bbox") (bbox_of H poly)
          (field (codes "polygon") poly (field (codes "mode") (text mode) end))) in
      let rec = put (codes "owner") (text sub) rest in
      let here : get gid c.gf' ≡ some (object rec) =
        ap (get gid) (sym (done-injective c.by_change))
        ∙ rw (get-put gid gid (object rec) c.gf, same_text_refl gid) in
      (
        rec,
        subst (λ u. geofence_in gid u ≡ some rec) c.is
            (geofence_in-within gid c.sec c.gf' raw (some (object rec)) here
              ∙ object-as_object rec),
        owner-made sub rest,
      )

  answered :
      (u : Updated) (s : State) (P : Fields → Type 0)
      → ((raw' : Fields) → u ≡ done raw' → P raw')
      → (answer_by (status 201) (status 400) breaks (write check u s)).1 ≡ status 201
      → P (answer_by (status 201) (status 400) breaks (write check u s)).0.raw
  unfolding answer_by write
  answered refused s P made e = absurd (other_status e)
  answered denied s P made e = absurd (other_answer e)
  answered (done raw') s P made e = elim (Bool-cases (check (object raw'))) [
    | inl fine ↦ rw fine (made raw' refl)
    | inr bad ↦ absurd (other_status (rw bad at e))
  ]

  save-owned :
      (sub gid : Text) (poly : Option Value) (mode : Text) (gj : Option Fields) (body : Fields)
      (s : State)
      → (save_geofence H check (editor sub) gid poly mode gj body s).1 ≡ status 201
      → IsOwnedBy sub gid (save_geofence H check (editor sub) gid poly mode gj body s).0.raw
  unfolding save_geofence update_config answer_by
  save-owned sub gid none mode gj body s e = absurd (other_answer e)
  save-owned sub gid (some poly) mode gj body s e =
      elim (is_polygon poly)
          as (λ b. Posted b s.has_path → IsOwnedBy sub gid (posted b s.has_path).0.raw) [
            | false ↦ λ p. absurd (other_error p)
            | true ↦
                elim s.has_path as (λ b. Posted true b → IsOwnedBy sub gid (posted true b).0.raw) [
                  | false ↦ λ p. absurd (other_status p)
                  | true ↦ λ p.
                      answered
                        (within_geofences
                          (set_geofence H (editor sub) gid poly mode (not_empty gj) body) s.raw)
                        s (IsOwnedBy sub gid)
                        (λ raw' made.
                          set-owned sub gid poly mode (not_empty gj) body s.raw raw' made)
                        p
                ]
          ]
        e
    where
      posted : Bool → Bool → State × Answer
      posted is known =
          if not is
          then (s, error 400)
          else answer_by (status 201) (status 400) breaks (
              if not known
              then (s, failed)
              else write check
                  (within_geofences (set_geofence H (editor sub) gid poly mode (not_empty gj) body)
                    s.raw)
                  s)

      Posted : Bool → Bool → Type 0
      Posted is known = (posted is known).1 ≡ status 201

  -- When an editor's POST is answered with 201, the geofence under the name that he has sent is
  -- his, whoever the owner of a geofence of that name was before.
  pub post-takes_over :
      (sub : Text) (body : Fields) (s : State)
      → (post_geofence H check (editor sub) body s).1 ≡ status 201
      → IsOwnedBy sub (id_of H body) (post_geofence H check (editor sub) body s).0.raw
  unfolding post_geofence post_in_mode
  post-takes_over sub body s = in_mode (mode_of (get_or_null (codes "mode") body))
    where
      in_mode :
          (mode : Option Text)
          → (post_in_mode H check (editor sub) body s mode).1 ≡ status 201
          → IsOwnedBy sub (id_of H body) (post_in_mode H check (editor sub) body s mode).0.raw
      in_mode none e = absurd (other_answer e)
      in_mode (some mode) e =
          let gj = as_object (get_or_null (codes "geojson") body) in
          elim (Bool-cases (same_text (id_of H body) [])) [
            | inl empty ↦ absurd (other_error (rw empty at e))
            | inr given ↦ rw given (
                save-owned sub (id_of H body)
                  (polygon_of H (or_nil (get_or_null (codes "polygon") body)) gj) mode gj body s
                  (rw given at e))
          ]
