-- ===== src/Caster/Routes/Listing.antt =====
-- GET of the geofences in `_handle_http` of src/caster.py: those of the owner, in a box, and as
-- GeoJSON. An exception is `none`.
pub mod Shown
mod Tests
use babilcors.Prelude.{
  ℕ, Bool, true, false, not, ◌&&◌, Option, none, some, List, [], ◌∷◌, length, map, if◌then◌else◌,
  or_else, ◌>>=◌, ◌==◌,
}
use babilcors.Rtcm.Messages.{strip}
use babilcors.Text.{split}
use babilcors.Geofence.{Point, Box, polygon_bbox, bbox_intersects, closed_ring}
use babilcors.Json.{
  Text, codes, Value, text, array, object, Items, nil, cons, Fields, end, field, get, get_or_null,
  truthy, as_object, as_array, list_of, same_text,
}
use babilcors.Caster.Routes.{Host}
use babilcors.Caster.Routes.Geojson.{or_nil, points_of}
use babilcors.Caster.Routes.Geofences.{Caller, owner_of}

-- The entries that pass a test, which may raise an exception.
unfoldable pub select : (Value → Option Bool) → Fields → Option Fields
select keep end = some end
select keep (field gid g gf) =
    keep g >>= λ kept. select keep gf >>= λ rest. some (if kept then field gid g rest else rest)

-- `g or {}`, on which `get` is called.
unfoldable pub or_dict : Value → Option Fields
or_dict g = if truthy g then as_object g else some end

-- What is asked for by `bbox` and `format` of the query.
pub record Query : Type 0 where
  pub bbox : Option Text
  pub format : Option Text

unfoldable pub wants_geojson : Query → Bool
wants_geojson q = same_text (or_else q.format []) (codes "geojson")

module _ (H : Host) where
  unfoldable pub four_floats : List Value → Option (Box H.floats)
  four_floats (a ∷ b ∷ c ∷ d ∷ []) = H.to_float a >>= λ x. H.to_float b >>= λ y.
      H.to_float c >>= λ z.
      H.to_float d >>= λ w. some (record { min_lon = x; min_lat = y; max_lon = z; max_lat = w })
  four_floats _ = none

  -- The box of the query; what cannot be read asks for nothing.
  unfoldable pub query_box : Option Text → Option (Box H.floats)
  query_box none = none
  query_box (some s) = four_floats (map (λ p. text (strip p)) (split 44 s))

  unfoldable pub values : Items → List Value
  values nil = []
  values (cons v vs) = v ∷ values vs

  -- The box that an entry carries.
  unfoldable pub stored_box : Fields → Option (Box H.floats)
  stored_box g = as_array (get_or_null (codes "bbox") g) >>= λ vs. four_floats (values vs)

  unfoldable pub ring_box : List (Point H.floats) → Option (Box H.floats)
  ring_box [] = none
  ring_box (v ∷ vs) = some (polygon_bbox H.floats v vs)

  -- The box of the polygon, `some none` if there is no polygon.
  unfoldable pub computed_box : Fields → Option (Option (Box H.floats))
  computed_box g =
      let poly = or_nil (get_or_null (codes "polygon") g) in
      if truthy poly
      then (list_of poly >>= points_of H >>= λ ring. ring_box ring >>= λ b. some (some b))
      else some none

  unfoldable pub box_of_entry : Fields → Option (Option (Box H.floats))
  box_of_entry g = elim (stored_box g) [ none ↦ computed_box g | some b ↦ some (some b) ]

  unfoldable pub meets : Box H.floats → Option (Box H.floats) → Bool
  meets q none = false
  meets q (some b) = bbox_intersects H.floats b q

  unfoldable pub is_within : Box H.floats → Value → Option Bool
  is_within q g = as_object g >>= box_of_entry >>= λ b. some (meets q b)

  unfoldable pub is_own : Text → Value → Option Bool
  is_own sub g = or_dict g >>= λ cur. some (same_text (owner_of H cur) sub)

  unfoldable pub visible : Caller → Fields → Option Fields
  visible who gf =
      if who.is_editor && not who.is_admin then select (is_own who.sub_user) gf else some gf

  unfoldable pub in_box : Option (Box H.floats) → Fields → Option Fields
  in_box none gf = some gf
  in_box (some q) gf = select (is_within q) gf

  -- The entries that are answered, under `geofences`.
  unfoldable pub list_geofences : Caller → Query → Fields → Option Fields
  list_geofences who q gf = visible who gf >>= in_box (query_box q.bbox)

  unfoldable pub lon_lats : List (Point H.floats) → Items
  lon_lats [] = nil
  lon_lats (p ∷ ps) =
      cons (array (cons (H.of_float p.lon) (cons (H.of_float p.lat) nil))) (lon_lats ps)

  unfoldable pub rings_to_geojson_polygon : List (Point H.floats) → Value
  rings_to_geojson_polygon ring = object (
      field (codes "type") (text (codes "Polygon")) (
        field (codes "coordinates")
          (array (cons (array (lon_lats (closed_ring H.floats ring))) nil)) end))

  -- The GeoJSON of an entry, or that of its polygon, or what stands there if there is neither.
  unfoldable pub geometry : Fields → Option Value
  geometry g =
      let gj = get_or_null (codes "geojson") g in
      let poly = or_nil (get_or_null (codes "polygon") g) in
      elim (as_object gj) [
        | some fs ↦ some gj
        | none ↦
            if truthy poly
            then (list_of poly >>= points_of H >>= λ ring. some (rings_to_geojson_polygon ring))
            else some gj
      ]

  unfoldable pub feature : Text → Fields → Option Value
  feature gid g = geometry g >>= λ gj. some (
      object (
        field (codes "type") (text (codes "Feature")) (
          field (codes "properties")
            (object (
              field (codes "id") (text gid)
                (field (codes "mode") (get_or_null (codes "mode") g) end)))
            (field (codes "geometry") gj end))))

  unfoldable pub features : Fields → Option Items
  features end = some nil
  features (field gid g gf) =
      as_object g >>= feature gid >>= λ f. features gf >>= λ fs. some (cons f fs)

  -- The body of the answer.
  unfoldable pub get_geofences : Caller → Query → Fields → Option Value
  get_geofences who q gf = list_geofences who q gf >>= λ out.
      if wants_geojson q
      then (features out >>= λ fs. some (
          object (
            field (codes "type") (text (codes "FeatureCollection"))
              (field (codes "features") (array fs) end))))
      else some (object (field (codes "geofences") (object out) end))
