-- ===== src/Caster/Routes/Owners.antt =====
-- Geofences and their owners, in the admin API of src/caster.py: where the file has a geofence.
pub mod Keeping
pub mod Taking
use babilcors.Prelude.{
  ℕ, ◌≡◌, ◌≢◌, ◌⊎◌, refl, sym, ap, subst, ◌∙◌, inl, inr, Bool, true, false, not, ◌&&◌, ◌||◌, Option,
  none, some, some-injective, String, List, [], ◌∷◌, if◌then◌else◌, or_else, ◌>>=◌, arith,
  Bool-cases, Option-cases,
}
use mathlib.Core.Option.{none-ne-some}
use babilcors.Json.{
  Text, codes, Value, null, object, text, Fields, end, field, get, put, del, same_text, as_object,
  or_default, get_or_null, truthy,
}
use babilcors.Json.Laws.{get-put, get-del, same_text-eq, same_text_refl, same_text_iff}
use babilcors.Caster.Routes.{
  Host, State, Updated, done, refused, denied, Result, updated, failed, forbidden, write, str,
  update_config, Answer, status, error, breaks, answer_by,
}
use babilcors.Caster.Routes.Geofences.{
  Caller, owner_of, not_owner, within_geofences, change_geofence, delete_found, set_geofence,
  new_owner, put_if, id_of, mode_of, polygon_of, is_polygon, save_geofence, post_geofence,
  post_in_mode, not_empty, delete_geofence_in, is_given, patched, patch_geofence, delete_geofence,
}
use babilcors.Caster.Routes.Geojson.{bbox_of, or_nil}

-- The geofence with a name in the file, if it is a dictionary.
unfoldable pub geofence_in : Text → Fields → Option Fields
geofence_in gid raw = as_object (or_default (codes "security") raw) >>= λ sec.
    as_object (or_default (codes "geofence_polygons") sec) >>= λ gf. get gid gf >>= as_object

refused_done : (gf : Fields) → refused ≢ done gf
refused_done gf e = cc

denied_done : (gf : Fields) → denied ≢ done gf
denied_done gf e = cc

true-false : true ≢ false
true-false e = cc

done-injective : {a b : Fields} → done a ≡ done b → a ≡ b
done-injective e = cc

object-as_object : (cur : Fields) → (some (object cur) >>= as_object) ≡ some cur
unfolding as_object
object-as_object cur = refl

other_status : status 400 ≢ status 201
other_status e = ground (arith, e)

other_answer : breaks ≢ status 201
other_answer e = cc

other_error : error 400 ≢ status 201
other_error e = cc

-- An editor who is no administrator.
abbrev pub editor : Text → Caller
editor sub = record { is_admin = false; is_editor = true; sub_user = sub }

-- What `geofence_in` gives comes from the two sections.
record Located (gid : Text) (raw cur : Fields) : Type 0 where
  sec : Fields
  gf : Fields
  in_raw : as_object (or_default (codes "security") raw) ≡ some sec
  in_sec : as_object (or_default (codes "geofence_polygons") sec) ≡ some gf
  in_gf : get gid gf ≡ some (object cur)

as_object-some : (v : Value) (fs : Fields) → as_object v ≡ some fs → v ≡ object fs
unfolding as_object
as_object-some (object fs') fs e = ap object (some-injective fs' fs e)
as_object-some null fs e = cc
as_object-some (Value.bool b) fs e = cc
as_object-some (Value.int n) fs e = cc
as_object-some (Value.float t) fs e = cc
as_object-some (Value.text t) fs e = cc
as_object-some (Value.array vs) fs e = cc

bind-some :
    {A : Type 0} {B : Type 0} (m : Option A) (f : A → Option B) (b : B)
    → (m >>= f) ≡ some b
    → (a : A) × (m ≡ some a) × (f a ≡ some b)
bind-some none f b e = absurd (none-ne-some b e)
bind-some (some a) f b e = (a, refl, e)

located : (gid : Text) (raw cur : Fields) → geofence_in gid raw ≡ some cur → Located gid raw cur
unfolding geofence_in
located gid raw cur e =
    let (sec, h1, e1) = bind-some (as_object (or_default (codes "security") raw)) _ cur e in
    let (gf, h2, e2) =
      bind-some (as_object (or_default (codes "geofence_polygons") sec)) _ cur e1 in
    let (v, h3, e3) = bind-some (get gid gf) as_object cur e2 in
    record {
      sec = sec;
      gf = gf;
      in_raw = h1;
      in_sec = h2;
      in_gf = h3 ∙ ap some (as_object-some v cur e3);
    }

default-put :
    (k : Text) (fs raw : Fields) → as_object (or_default k (put k (object fs) raw)) ≡ some fs
unfolding or_default as_object
default-put k fs raw = rw (get-put k k (object fs) raw, same_text_refl k)

-- The file that an updater of the geofences writes has its entries.
geofence_in-within :
    (gid : Text) (sec gf' raw : Fields) (o : Option Value)
    → get gid gf' ≡ o
    → geofence_in gid
        (put (codes "security") (object (put (codes "geofence_polygons") (object gf') sec)) raw)
      ≡ (o >>= as_object)
unfolding geofence_in
geofence_in-within gid sec gf' raw o e =
    let sec' = put (codes "geofence_polygons") (object gf') sec in
    rw (default-put (codes "security") sec' raw, default-put (codes "geofence_polygons") gf' sec, e)

record Changed (change : Fields → Updated) (raw raw' : Fields) : Type 0 where
  sec : Fields
  gf : Fields
  gf' : Fields
  by_change : change gf ≡ done gf'
  is : put (codes "security") (object (put (codes "geofence_polygons") (object gf') sec)) raw ≡ raw'

within-Changed :
    (change : Fields → Updated) (raw raw' : Fields)
    → within_geofences change raw ≡ done raw'
    → Changed change raw raw'
unfolding within_geofences
within-Changed change raw raw' e =
    elim (Option-cases (as_object (or_default (codes "security") raw))) [
      | inl none_ ↦ absurd (refused_done raw' (rw (none_, within_geofences) at e))
      | inr (sec, h1) ↦
          elim (Option-cases (as_object (or_default (codes "geofence_polygons") sec))) [
            | inl none_ ↦ absurd (refused_done raw' (rw (h1, none_, within_geofences) at e))
            | inr (gf, h2) ↦ written sec gf (change gf) refl (rw (h1, h2, within_geofences) at e)
          ]
    ]
  where
    written :
        (sec gf : Fields) (u : Updated)
        → change gf ≡ u
        → elim u as (λ _. Updated) [
          | done gf' ↦ done (
              put
                (codes "security")
                (object (put (codes "geofence_polygons") (object gf') sec))
                raw)
          | refused ↦ refused
          | denied ↦ denied
        ]
          ≡ done raw'
        → Changed change raw raw'
    written sec gf refused c w = absurd (refused_done raw' w)
    written sec gf denied c w = absurd (denied_done raw' w)
    written sec gf (done gf') c w = record {
      sec = sec;
      gf = gf;
      gf' = gf';
      by_change = c;
      is = done-injective w;
    }
