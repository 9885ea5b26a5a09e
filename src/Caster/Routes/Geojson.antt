-- ===== src/Caster/Routes/Geojson.antt =====
-- Polygons as JSON values: `geojson_to_rings` of src/geofence.py, and the boxes in `_handle_http`
-- of src/caster.py. A point is a latitude and a longitude.
use babilcors.Prelude.{not, Option, none, some, List, [], ◌∷◌, if◌then◌else◌, or_else, ◌>>=◌}
use babilcors.Prelude.Dict.{string_eq}
use babilcors.Geofence.{Point, Box, polygon_bbox}
use babilcors.Json.{
  codes, Value, text, array, Items, nil, cons, Fields, get, truthy, get_or_null, list_of, same_text,
}
use babilcors.Caster.Routes.{Host, str}

-- `for a, b in …`.
unfoldable pub two_of : Items → Option (Value × Value)
two_of (cons a (cons b nil)) = some (a, b)
two_of _ = none

-- `v[0]`.
unfoldable pub first_of : Value → Option Value
first_of (array (cons v vs)) = some v
first_of (text (c ∷ s)) = some (text (c ∷ []))
first_of _ = none

-- `v or []`.
unfoldable pub or_nil : Value → Value
or_nil v = if truthy v then v else array nil

module _ (H : Host) where
  abbrev pub Ring : Type 0
  Ring = List (Point H.floats)

  unfoldable pub point_of : Value → Value → Option (Point H.floats)
  point_of lat lon =
      H.to_float lat >>= λ x. H.to_float lon >>= λ y. some (record { lat = x; lon = y })

  -- `[(float(a), float(b)) for a, b in poly]`.
  unfoldable pub points_of : Items → Option Ring
  points_of nil = some []
  points_of (cons v vs) =
      list_of v >>= two_of >>= λ p. point_of p.0 p.1 >>= λ q. points_of vs >>= λ qs. some (q ∷ qs)

  -- `[(float(lat), float(lon)) for lon, lat in outer]`.
  unfoldable pub ring_of : Items → Option Ring
  ring_of nil = some []
  ring_of (cons v vs) =
      list_of v >>= two_of >>= λ p. point_of p.1 p.0 >>= λ q. ring_of vs >>= λ qs. some (q ∷ qs)

  unfoldable pub outer_ring : Value → Option Ring
  outer_ring coords = first_of coords >>= list_of >>= ring_of

  unfoldable pub outer_rings : Items → Option (List Ring)
  outer_rings nil = some []
  outer_rings (cons poly rest) =
      if not (truthy poly)
      then outer_rings rest
      else (outer_ring poly >>= λ r. outer_rings rest >>= λ rs. some (r ∷ rs))

  -- `none` for an exception.
  unfoldable pub geojson_to_rings : Fields → Option (List Ring)
  geojson_to_rings geojson =
      let t = str H (or_else (get (codes "type") geojson) (text [])) in
      let coords = or_nil (get_or_null (codes "coordinates") geojson) in
      if same_text t (codes "Polygon")
      then if truthy coords then (outer_ring coords >>= λ r. some (r ∷ [])) else some []
      else if same_text t (codes "MultiPolygon")
      then (list_of coords >>= outer_rings)
      else some []

  -- `[[float(a), float(b)] for a, b in ring]`.
  unfoldable pub ring_value : Ring → Items
  ring_value [] = nil
  ring_value (p ∷ ps) =
      cons (array (cons (H.of_float p.lat) (cons (H.of_float p.lon) nil))) (ring_value ps)

  unfoldable pub box_value : Box H.floats → Value
  box_value b = array (
      cons (H.of_float b.min_lon) (
        cons (H.of_float b.min_lat)
          (cons (H.of_float b.max_lon) (cons (H.of_float b.max_lat) nil))))

  -- `polygon_bbox` has no minimum of an empty list.
  unfoldable pub box_of : Ring → Option Value
  box_of [] = none
  box_of (v ∷ vs) = some (box_value (polygon_bbox H.floats v vs))

  unfoldable pub bbox_of : Value → Option Value
  bbox_of poly = list_of poly >>= points_of >>= box_of
