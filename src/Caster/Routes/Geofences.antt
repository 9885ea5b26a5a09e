-- ===== src/Caster/Routes/Geofences.antt =====
-- Geofences in `_handle_http` of src/caster.py: who may change them, the updaters, the answers.
use babilcors.Prelude.{
  Bool, true, false, not, ◌&&◌, Option, none, some, List, [], ◌∷◌, if◌then◌else◌, ◌>>=◌,
}
use babilcors.Prelude.Dict.{string_eq}
use babilcors.Net.{lower}
use babilcors.Json.{
  Text, codes, Value, null, text, array, object, nil, cons, Fields, end, field, put, del, has_key,
  truthy, as_object, get_or_null, or_default, same_text,
}
use babilcors.Caster.Routes.{
  Host, str, State, Updated, done, refused, denied, update_config, Answer, status, error, breaks,
  answer_by,
}
use babilcors.Caster.Routes.Geojson.{or_nil, Ring, geojson_to_rings, ring_value, bbox_of}

-- `is not None`.
unfoldable pub is_given : Value → Bool
is_given null = false
is_given v = true

-- `if gj`.
unfoldable pub not_empty : Option Fields → Option Value
not_empty none = none
not_empty (some end) = none
not_empty (some (field k v fs)) = some (object (field k v fs))

-- Who asks: an administrator who may write, or an editor of geofences, under the subject of the
-- token.
pub record Caller : Type 0 where
  pub is_admin : Bool
  pub is_editor : Bool
  pub sub_user : Text

unfoldable pub put_if : Text → Option Value → Fields → Fields
put_if k none fs = fs
put_if k (some v) fs = put k v fs

-- The updaters work on `security` and, in it, on `geofence_polygons`.
unfoldable pub within_geofences : (Fields → Updated) → Fields → Updated
within_geofences change raw = elim (as_object (or_default (codes "security") raw)) [
  | none ↦ refused
  | some sec ↦ elim (as_object (or_default (codes "geofence_polygons") sec)) [
    | none ↦ refused
    | some gf ↦ elim (change gf) [
      | done gf' ↦
          done
            (put (codes "security") (object (put (codes "geofence_polygons") (object gf') sec)) raw)
      | refused ↦ refused
      | denied ↦ denied
    ]
  ]
]

-- `(body_json.get("mode") or "alert").lower()`.
unfoldable pub mode_of : Value → Option Text
mode_of v =
    if not (truthy v) then some (codes "alert") else elim v [ text s ↦ some (lower s) | _ ↦ none ]

unfoldable pub is_polygon : Value → Bool
is_polygon (array nil) = false
is_polygon (array (cons v vs)) = true
is_polygon _ = false

module _ (H : Host) where
  -- The first ring replaces the polygon, and the GeoJSON is kept.
  unfoldable pub from_rings : Value → List (Ring H) → Fields → Fields
  from_rings gj [] cur = cur
  from_rings gj (r ∷ rs) cur =
      put (codes "geojson") gj (put (codes "polygon") (array (ring_value H r)) cur)

  unfoldable pub ring_or_nil : List (Ring H) → Value
  ring_or_nil [] = array nil
  ring_or_nil (r ∷ rs) = array (ring_value H r)

  -- `str(cur.get("owner") or "")`.
  unfoldable pub owner_of : Fields → Text
  owner_of cur =
      if truthy (get_or_null (codes "owner") cur)
      then str H (get_or_null (codes "owner") cur)
      else []

  unfoldable pub not_owner : Caller → Fields → Bool
  not_owner who cur =
      who.is_editor && not who.is_admin && not (same_text (owner_of cur) who.sub_user)

  unfoldable pub new_owner : Caller → Fields → Option Value
  new_owner who body =
      if who.is_admin && truthy (get_or_null (codes "owner") body)
      then some (text (str H (get_or_null (codes "owner") body)))
      else if who.is_editor
      then some (text who.sub_user)
      else none

  unfoldable pub set_geofence :
      Caller → Text → Value → Text → Option Value → Fields → Fields → Updated
  set_geofence who gid poly mode gj body gf = done (
      put gid
        (object (
          put_if (codes "owner") (new_owner who body) (
            put_if (codes "geojson") gj (
              put_if (codes "bbox") (bbox_of H poly)
                (field (codes "polygon") poly (field (codes "mode") (text mode) end))))))
        gf)

  unfoldable pub patched : Caller → Value → Value → Option Fields → Fields → Fields → Option Fields
  patched who poly mode gj body cur =
      elim gj [
        | none ↦ some cur
        | some g ↦ (geojson_to_rings H g >>= λ rs. some (from_rings (object g) rs cur))
      ]
      >>= λ c1.
          let c2 = if is_given poly then put (codes "polygon") poly c1 else c1 in
          let c3 = if is_given mode then put (codes "mode") (text (str H mode)) c2 else c2 in
          let c4 =
            if who.is_admin && has_key (codes "owner") body
            then put (codes "owner") (text (owner_of body)) c3
            else c3 in
          some (put_if (codes "bbox") (bbox_of H (or_nil (get_or_null (codes "polygon") c4))) c4)

  unfoldable pub change_geofence :
      Caller → Text → Value → Value → Option Fields → Fields → Fields → Updated
  change_geofence who ident poly mode gj body gf =
      if not (truthy (get_or_null ident gf))
      then refused
      else elim (as_object (get_or_null ident gf)) [
        | none ↦ refused
        | some cur ↦
            if not_owner who cur then denied else elim (patched who poly mode gj body cur) [
              | none ↦ refused
              | some cur' ↦ done (put ident (object cur') gf)
            ]
      ]

  -- Only the owner's name is looked up in the entry.
  unfoldable pub delete_found : Caller → Text → Option Fields → Fields → Updated
  delete_found who ident none gf =
      if who.is_editor && not who.is_admin then refused else done (del ident gf)
  delete_found who ident (some cur) gf = if not_owner who cur then denied else done (del ident gf)

  unfoldable pub delete_geofence_in : Caller → Text → Fields → Updated
  delete_geofence_in who ident gf =
      if is_given (get_or_null ident gf)
      then delete_found who ident (as_object (get_or_null ident gf)) gf
      else refused

  -- The polygon of the body, or the first ring of its GeoJSON.
  unfoldable pub polygon_of : Value → Option Fields → Option Value
  polygon_of poly none = some poly
  polygon_of poly (some gj) =
      if truthy poly
      then some poly
      else (geojson_to_rings H gj >>= λ rs.
          some (elim rs [ [] ↦ poly | r ∷ _ ↦ array (ring_value H r) ]))

  -- `str(body_json.get("id") or "")`.
  unfoldable pub id_of : Fields → Text
  id_of body =
      if truthy (get_or_null (codes "id") body) then str H (get_or_null (codes "id") body) else []

  module _ (check : Value → Bool) where
    unfoldable pub save_geofence :
        Caller → Text → Option Value → Text → Option Fields → Fields → State → State × Answer
    save_geofence who gid none mode gj body s = (s, breaks)
    save_geofence who gid (some poly) mode gj body s =
        if not (is_polygon poly)
        then (s, error 400)
        else answer_by (status 201) (status 400) breaks (
            update_config check
              (within_geofences (set_geofence who gid poly mode (not_empty gj) body)) s)

    unfoldable pub post_in_mode : Caller → Fields → State → Option Text → State × Answer
    post_in_mode who body s none = (s, breaks)
    post_in_mode who body s (some mode) =
        let gj = as_object (get_or_null (codes "geojson") body) in
        if same_text (id_of body) []
        then (s, error 400)
        else save_geofence who (id_of body)
            (polygon_of (or_nil (get_or_null (codes "polygon") body)) gj) mode gj body s

    unfoldable pub post_geofence : Caller → Fields → State → State × Answer
    post_geofence who body s = post_in_mode who body s (mode_of (get_or_null (codes "mode") body))

    unfoldable pub patch_geofence : Caller → Text → Fields → State → State × Answer
    patch_geofence who ident body s =
        let poly = get_or_null (codes "polygon") body in
        let mode = get_or_null (codes "mode") body in
        if not (is_given poly) && not (is_given mode)
        then (s, error 400)
        else answer_by (status 200) (status 400) (error 403) (
            update_config check
              (within_geofences (
                change_geofence who ident poly mode (as_object (get_or_null (codes "geojson") body))
                  body))
              s)

    unfoldable pub delete_geofence : Caller → Text → State → State × Answer
    delete_geofence who ident s =
        answer_by (status 204) (error 400) (error 403)
          (update_config check (within_geofences (delete_geofence_in who ident)) s)
