-- ===== src/Geofence/Tests.antt =====
-- The theorems on polygons at concrete ones, with whole numbers for floats.
use babilcors.Prelude.{ℕ, ◌+◌, ◌-◌, ◌*◌, ◌/◌, ◌≡◌, List, [], ◌∷◌, ltb, ◌==◌}
use babilcors.Geofence.{Floats, Point, Box, bbox_intersects, point_in_polygon, closed_ring}
use babilcors.Geofence.Rings.{bbox_intersects_comm, point_in_polygon-closed}

abbrev whole : Floats
whole = record {
  Carrier = ℕ;
  less = ltb;
  equal = ◌==◌;
  add = ◌+◌;
  sub = ◌-◌;
  mul = ◌*◌;
  div = ◌/◌;
  epsilon = 1;
}

abbrev at : ℕ → ℕ → Point whole
at lat lon = record { lat = lat; lon = lon }

abbrev square : List (Point whole)
square = at 0 0 ∷ at 0 4 ∷ at 4 4 ∷ at 4 0 ∷ []

abbrev box : ℕ → ℕ → Box whole
box low high = record { min_lon = low; min_lat = low; max_lon = high; max_lat = high }

bbox_intersects_comm_case :
    bbox_intersects whole (box 0 4) (box 2 9) ≡ bbox_intersects whole (box 2 9) (box 0 4)
bbox_intersects_comm_case = bbox_intersects_comm whole (box 0 4) (box 2 9)

point_in_polygon-closed_example :
    point_in_polygon whole (at 1 2) (closed_ring whole square)
    ≡ point_in_polygon whole (at 1 2) square
point_in_polygon-closed_example = point_in_polygon-closed whole (at 1 2) square
