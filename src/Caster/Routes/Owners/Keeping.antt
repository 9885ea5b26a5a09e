-- ===== src/Caster/Routes/Owners/Keeping.antt =====
-- What an editor of geofences cannot change by PATCH and DELETE in `_handle_http` of src/caster.py.
use babilcors.Prelude.{
  ◌≡◌, ◌≢◌, refl, sym, ap, subst, ◌∙◌, inl, inr, Bool, true, false, not, ◌&&◌, Option, none, some,
  some-injective, if◌then◌else◌, arith, Bool-cases, Option-cases,
}
use babilcors.Json.{
  Text, codes, Value, object, Fields, get, put, same_text, as_object, get_or_null, truthy,
}
use babilcors.Json.Laws.{get-put, get-del, same_text-eq, same_text_iff}
use babilcors.Caster.Routes.{
  Host, State, Updated, done, refused, denied, failed, write, update_config, Answer, status, error,
  answer_by,
}
use babilcors.Caster.Routes.Geofences.{
  owner_of, not_owner, within_geofences, change_geofence, delete_found, delete_geofence_in,
  is_given, patched, patch_geofence, delete_geofence,
}
use babilcors.Caster.Routes.Owners.{
  geofence_in, refused_done, denied_done, true-false, done-injective, object-as_object, editor,
  Located, located, geofence_in-within,
}

-- Every entry of some owner stays as it is.
abbrev Keeps : Host → Text → (Fields → Updated) → Fields → Type 0
Keeps H sub change gf =
    (gf' : Fields)
    → change gf ≡ done gf'
    → (gid : Text) (cur : Fields) → get gid gf ≡ some (object cur)
    → owner_of H cur ≢ sub
    → get gid gf' ≡ some (object cur)

found_object :
    (ident gid : Text) (gf cur : Fields)
    → same_text ident gid ≡ true
    → get gid gf ≡ some (object cur)
    → as_object (get_or_null ident gf) ≡ some cur
unfolding get_or_null as_object
found_object ident gid gf cur same found = rw (same_text-eq ident gid same, found)

module _ (H : Host) (check : Value → Bool) where
  not_owner-other :
      (sub : Text) (cur : Fields) → owner_of H cur ≢ sub → not_owner H (editor sub) cur ≡ true
  unfolding not_owner
  not_owner-other sub cur other = elim (Bool-cases (same_text (owner_of H cur) sub)) [
    | inl e ↦ absurd (other (same_text-eq (owner_of H cur) sub e))
    | inr e ↦ rw e
  ]

  delete-Keeps :
      (sub ident : Text) (gf : Fields) → Keeps H sub (delete_geofence_in H (editor sub) ident) gf
  unfolding delete_geofence_in delete_found is_given get_or_null as_object
  delete-Keeps sub ident gf gf' e gid cur found other = ground (
    arith,
    e,
    found,
    not_owner-other sub cur other,
    same_text_iff ident gid,
    get-del ident gid gf,
  )

  saved :
      (ident gid : Text) (gf gf' : Fields) (o : Option Fields)
      → elim o as (λ _. Updated) [ none ↦ refused | some c ↦ done (put ident (object c) gf) ]
        ≡ done gf'
      → same_text ident gid ≡ false
      → get gid gf' ≡ get gid gf
  saved ident gid gf gf' none e apart = absurd (refused_done gf' e)
  saved ident gid gf gf' (some c) e apart =
      ground (arith, e, apart, get-put ident gid (object c) gf)

  change-Keeps :
      (sub ident : Text) (poly mode : Value) (gj : Option Fields) (body gf : Fields)
      → Keeps H sub (change_geofence H (editor sub) ident poly mode gj body) gf
  unfolding change_geofence
  change-Keeps sub ident poly mode gj body gf gf' e gid cur found other =
      elim (Bool-cases (truthy (get_or_null ident gf))) [
        | inr falsy ↦ absurd (refused_done gf' (rw falsy at e))
        | inl there ↦ elim (Option-cases (as_object (get_or_null ident gf))) [
          | inl none_ ↦ absurd (refused_done gf' (rw (there, none_) at e))
          | inr (cur0, is) ↦ elim (Bool-cases (not_owner H (editor sub) cur0)) [
            | inl foreign ↦ absurd (denied_done gf' (rw (there, is, foreign) at e))
            | inr own ↦ elim (Bool-cases (same_text ident gid)) [
              | inr apart ↦
                  saved ident gid gf gf' (patched H (editor sub) poly mode gj body cur0)
                    (rw (there, is, own) at e) apart
                  ∙ found
              | inl same ↦ absurd (
                  true-false (
                    sym (not_owner-other sub cur other)
                    ∙ ap (not_owner H (editor sub)) (
                        some-injective cur cur0
                          (sym (found_object ident gid gf cur same found) ∙ is))
                    ∙ own))
            ]
          ]
        ]
      ]

  within-Keeps :
      (sub : Text) (change : Fields → Updated) (raw raw' : Fields)
      → ((gf : Fields) → Keeps H sub change gf)
      → within_geofences change raw ≡ done raw'
      → (gid : Text) (cur : Fields) → geofence_in gid raw ≡ some cur
      → owner_of H cur ≢ sub
      → geofence_in gid raw' ≡ some cur
  unfolding within_geofences
  within-Keeps sub change raw raw' keeps e gid cur found other =
      let l = located gid raw cur found in
      let e' = rw (l.in_raw, l.in_sec, within_geofences) at e in written (change l.gf) refl e'
    where
      l' : Located gid raw cur
      l' = located gid raw cur found

      written :
          (u : Updated)
          → change l'.gf ≡ u
          → elim u as (λ _. Updated) [
            | done gf' ↦ done (
                put
                  (codes "security")
                  (object (put (codes "geofence_polygons") (object gf') l'.sec))
                  raw)
            | refused ↦ refused
            | denied ↦ denied
          ]
            ≡ done raw'
          → geofence_in gid raw' ≡ some cur
      written refused c w = absurd (refused_done raw' w)
      written denied c w = absurd (denied_done raw' w)
      written (done gf') c w =
          subst (λ u. geofence_in gid u ≡ some cur) (done-injective w)
            (geofence_in-within gid l'.sec gf' raw (some (object cur))
                (keeps l'.gf gf' c gid cur l'.in_gf other)
              ∙ object-as_object cur)

  -- Whatever becomes of an update by which the entry stays.
  update-keeps :
      (change : Fields → Updated) (a b c : Answer) (s : State) (gid : Text) (cur : Fields)
      → ((raw' : Fields) → change s.raw ≡ done raw' → geofence_in gid raw' ≡ some cur)
      → geofence_in gid s.raw ≡ some cur
      → geofence_in gid (answer_by a b c (update_config check change s)).0.raw ≡ some cur
  unfolding answer_by update_config write
  update-keeps change a b c s gid cur keeps found =
      elim s.has_path
        as (λ known.
          geofence_in gid
            (answer_by a b c
              (if not known then (s, failed) else write check (change s.raw) s)).0.raw
          ≡ some cur) [ true ↦ written (change s.raw) refl | false ↦ found ]
    where
      written :
          (u : Updated)
          → change s.raw ≡ u
          → geofence_in gid (answer_by a b c (write check u s)).0.raw ≡ some cur
      written refused e = found
      written denied e = found
      written (done raw') e = elim (Bool-cases (check (object raw'))) [
        | inl fine ↦ rw fine (keeps raw' e)
        | inr bad ↦ rw bad found
      ]

  -- By a PATCH or a DELETE, whatever the name and the body, an editor of geofences who is no
  -- administrator leaves every geofence of another owner in the file as it is. (A POST is not
  -- among them.)
  pub editor-keeps_others :
      (sub ident gid : Text) (body cur : Fields) (s : State)
      → geofence_in gid s.raw ≡ some cur
      → owner_of H cur ≢ sub
      → (geofence_in gid (patch_geofence H check (editor sub) ident body s).0.raw ≡ some cur)
        × (geofence_in gid (delete_geofence H check (editor sub) ident s).0.raw ≡ some cur)
  unfolding patch_geofence delete_geofence
  editor-keeps_others sub ident gid body cur s found other = (
    elim (Bool-cases (
        not (is_given (get_or_null (codes "polygon") body))
        && not (is_given (get_or_null (codes "mode") body)))) [
          | inl neither ↦ rw neither found
          | inr given ↦ rw given (
              update-keeps
                (within_geofences (
                  change_geofence H (editor sub) ident (get_or_null (codes "polygon") body)
                    (get_or_null (codes "mode") body)
                    (as_object (get_or_null (codes "geojson") body)) body))
                (status 200) (status 400) (error 403) s gid cur
                (λ raw' e.
                  within-Keeps sub _ s.raw raw'
                    (λ gf.
                      change-Keeps sub ident (get_or_null (codes "polygon") body)
                        (get_or_null (codes "mode") body)
                        (as_object (get_or_null (codes "geojson") body)) body gf)
                    e gid cur found other)
                found)
        ],
    update-keeps (within_geofences (delete_geofence_in H (editor sub) ident)) (status 204)
        (error 400) (error 403) s gid cur
        (λ raw' e.
          within-Keeps sub _ s.raw raw' (λ gf. delete-Keeps sub ident gf) e gid cur found other)
        found,
  )
