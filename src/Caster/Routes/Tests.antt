-- ===== src/Caster/Routes/Tests.antt =====
-- The theorems on the admin API at concrete requests. Whole numbers stand for floats, every body
-- fits its schema, and every file is valid.
use babilcors.Prelude.{ℕ, ◌≡◌, ◌≢◌, refl, Bool, true, false, Option, none, some, [], ◌∷◌, arith}
use babilcors.Prelude.Int.{ℤ, pos}
use babilcors.Jwt.{role_allows}
use babilcors.Json.{
  Text, codes, Value, int, text, array, object, nil, cons, Fields, end, field, get, as_object,
  or_default, or_empty, has_key, same_text, truthy, get_or_null,
}
use babilcors.Geodesy.Whole.{whole_floats}
use babilcors.Caster.Routes.{Host, str, State, status, post, update_config, write, answer_by}
use babilcors.Caster.Routes.Resources.{post_user, delete_entry}
use babilcors.Caster.Routes.Geofences.{
  owner_of, id_of, patch_geofence, post_geofence, delete_geofence, post_in_mode, save_geofence,
  mode_of, polygon_of, is_polygon, within_geofences, set_geofence,
}
use babilcors.Caster.Routes.Geojson.{or_nil}
use babilcors.Caster.Routes.Dispatch.{Request, may_edit, is_operation, dispatch}
use babilcors.Net.{starts_with}
use babilcors.Caster.Routes.Rights.{IsPlain, dispatch-reads, dispatch-any_role}
use babilcors.Caster.Routes.Owners.{geofence_in, editor}
use babilcors.Caster.Routes.Owners.Keeping.{editor-keeps_others}
use babilcors.Caster.Routes.Owners.Taking.{IsOwnedBy, post-takes_over}
use babilcors.Caster.Routes.Answers.{
  run, IsSound, run-IsSound, run-no_path, delete_entry-absent, post_user-taken,
}

abbrev number : Value → Option ℕ
number (int (pos n)) = some n
number _ = none

abbrev whole_number : Value → Option ℤ
whole_number (int n) = some n
whole_number _ = none

abbrev host : Host
host = record {
  floats = whole_floats;
  to_float = number;
  of_float = λ x. int (pos x);
  to_int = whole_number;
  repr = λ v. [];
  conforms = λ schema body. true;
}

abbrev accept : Value → Bool
accept v = true

abbrev corner : ℕ → ℕ → Value
corner a b = array (cons (int (pos a)) (cons (int (pos b)) nil))

abbrev triangle : Value
triangle = array (cons (corner 0 0) (cons (corner 0 4) (cons (corner 4 4) nil)))

-- A geofence of alice.
abbrev field_a : Fields
field_a = field (codes "polygon") triangle (field (codes "owner") (text (codes "alice")) end)

abbrev security : Value
security =
    object
      (field (codes "geofence_polygons") (object (field (codes "A1") (object field_a) end)) end)

abbrev raw : Fields
raw =
    field (codes "users") (object (field (codes "alice") (object end) end))
      (field (codes "security") security end)

abbrev state : State
state = record { has_path = true; raw = raw; security = security }

abbrev request : Text → Request
request path = record {
  method = post;
  path = path;
  has_query = false;
  body = field (codes "mountpoint") (text (codes "RTCM3")) end;
  role = "admin_ro";
  sub = codes "carol";
}

reader : role_allows "admin_ro" true ≡ false
unfolding role_allows
reader = refl

no_editor : may_edit "admin_ro" ≡ false
unfolding may_edit
no_editor = refl

disable-IsPlain : IsPlain (codes "/admin/disable")
unfolding is_operation same_text starts_with
disable-IsPlain = record { disables = λ e. refl; enables = λ e. refl }

dispatch-reads_example : (dispatch host accept (request (codes "/admin/disable")) state).0 ≡ state
dispatch-reads_example =
    dispatch-reads host accept (request (codes "/admin/disable")) reader state no_editor
      disable-IsPlain

writer : role_allows "admin" true ≡ true
unfolding role_allows
writer = refl

dispatch-any_role_example :
    dispatch host accept (request (codes "/admin/disableX")) state
    ≡ dispatch host accept (record (request (codes "/admin/disable")) { role = "admin" }) state
dispatch-any_role_example =
    dispatch-any_role host accept (request (codes "/admin/disableX")) "admin" b'X' [] state
      (omega arith) refl refl refl writer

alice-owns : geofence_in (codes "A1") raw ≡ some field_a
unfolding geofence_in as_object or_default get same_text
alice-owns = refl

alice-other : owner_of host field_a ≢ codes "bob"
unfolding owner_of get_or_null get same_text truthy str
alice-other e = cc

-- Bob tries the mode of the geofence of alice.
editor-keeps_others_example :
    (geofence_in
        (codes "A1")
        (patch_geofence host accept
          (editor (codes "bob"))
          (codes "A1")
          (field (codes "mode") (text (codes "block")) end)
          state).0.raw
      ≡ some field_a)
    × (geofence_in
          (codes "A1")
          (delete_geofence host accept (editor (codes "bob")) (codes "A1") state).0.raw
        ≡ some field_a)
editor-keeps_others_example =
    editor-keeps_others host accept (codes "bob") (codes "A1") (codes "A1")
      (field (codes "mode") (text (codes "block")) end) field_a state alice-owns alice-other

abbrev new_field : Fields
new_field = field (codes "id") (text (codes "A1")) (field (codes "polygon") triangle end)

posted : (post_geofence host accept (editor (codes "bob")) new_field state).1 ≡ status 201
unfolding post_geofence post_in_mode save_geofence mode_of polygon_of is_polygon or_nil id_of
    get_or_null get same_text truthy str as_object or_default update_config write answer_by
    within_geofences set_geofence
posted = refl

-- Bob posts a geofence under the name of that of alice.
post-takes_over_example :
    IsOwnedBy host accept
      (codes "bob")
      (id_of host new_field)
      (post_geofence host accept (editor (codes "bob")) new_field state).0.raw
post-takes_over_example = post-takes_over host accept (codes "bob") new_field state posted

state-IsSound : IsSound host accept state
unfolding or_empty get_or_null get same_text truthy
state-IsSound = record { valid = refl; in_use = refl }

run-IsSound_case : IsSound host accept (
    run host accept (request (codes "/admin/disable") ∷ request (codes "/admin/enable") ∷ []) state)
run-IsSound_case =
    run-IsSound host accept
      (request (codes "/admin/disable") ∷ request (codes "/admin/enable") ∷ []) state state-IsSound

run-no_path_case :
    run host accept (request (codes "/admin/disable") ∷ []) (record state { has_path = false })
    ≡ record state { has_path = false }
run-no_path_case =
    run-no_path host accept (request (codes "/admin/disable") ∷ [])
      (record state { has_path = false }) refl

users-found :
    as_object (or_empty (codes "users") raw) ≡ some (field (codes "alice") (object end) end)
unfolding as_object or_empty get_or_null get same_text truthy
users-found = refl

bob-absent : has_key (codes "bob") (field (codes "alice") (object end) end) ≡ false
unfolding has_key same_text
bob-absent = refl

delete_entry-absent_case :
    delete_entry host accept (codes "users") (codes "bob") state ≡ (state, status 204)
delete_entry-absent_case =
    delete_entry-absent host accept (codes "users") (codes "bob")
      (field (codes "alice") (object end) end) state users-found bob-absent

users-there :
    as_object (or_default (codes "users") raw) ≡ some (field (codes "alice") (object end) end)
unfolding as_object or_default get same_text
users-there = refl

abbrev alice : Fields
alice = field (codes "username") (text (codes "alice")) end

alice-taken :
    has_key
      (str host (get_or_null (codes "username") alice))
      (field (codes "alice") (object end) end)
    ≡ true
unfolding has_key same_text str get_or_null get
alice-taken = refl

post_user-taken_case : post_user host accept alice state ≡ (state, status 400)
post_user-taken_case =
    post_user-taken host accept alice (field (codes "alice") (object end) end) state refl
      users-there alice-taken
