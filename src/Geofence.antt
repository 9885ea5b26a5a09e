-- ===== src/Geofence.antt =====
-- src/geofence.py. A float is an element of any type with the operations that the source uses;
-- nothing is asked of them but where a theorem says so.
pub mod Rings
mod Tests
use babilcors.Prelude.{
  ℕ, ◌≡◌, Bool, true, false, not, ◌&&◌, ◌||◌, List, [], ◌∷◌, ◌++◌, map, if◌then◌else◌,
}

pub record Floats : Type 1 where
  pub Carrier : Type 0
  pub less : Carrier → Carrier → Bool
  pub equal : Carrier → Carrier → Bool
  pub add : Carrier → Carrier → Carrier
  pub sub : Carrier → Carrier → Carrier
  pub mul : Carrier → Carrier → Carrier
  pub div : Carrier → Carrier → Carrier
  pub epsilon : Carrier

unfoldable pub differ : Bool → Bool → Bool
differ true b = not b
differ false b = b

module _ (F : Floats) where
  pub record Point : Type 0 where
    pub lat : F.Carrier
    pub lon : F.Carrier

  -- `intersect`: the edge from `pj` to `pi` crosses the ray from the point.
  unfoldable pub crosses : Point → Point → Point → Bool
  crosses p pi pj =
      differ (F.less p.lon pi.lon) (F.less p.lon pj.lon)
      && F.less p.lat (
          F.add
            (F.div (F.mul (F.sub pj.lat pi.lat) (F.sub p.lon pi.lon))
              (F.add (F.sub pj.lon pi.lon) F.epsilon))
            pi.lat)

  -- The loop, from a previous vertex.
  unfoldable pub walk : Point → Point → List Point → Bool → Bool
  walk p pj [] inside = inside
  walk p pj (pi ∷ rest) inside = walk p pi rest (if crosses p pi pj then not inside else inside)

  unfoldable pub last_from : Point → List Point → Point
  last_from v [] = v
  last_from v (w ∷ ws) = last_from w ws

  unfoldable pub point_in_polygon : Point → List Point → Bool
  point_in_polygon p [] = false
  point_in_polygon p (v ∷ vs) = walk p (last_from v vs) (v ∷ vs) false

  pub record Box : Type 0 where
    pub min_lon : F.Carrier
    pub min_lat : F.Carrier
    pub max_lon : F.Carrier
    pub max_lat : F.Carrier

  unfoldable pub bbox_intersects : Box → Box → Bool
  bbox_intersects a b = not (
      F.less a.max_lon b.min_lon
      || F.less b.max_lon a.min_lon
      || F.less a.max_lat b.min_lat
      || F.less b.max_lat a.min_lat)

  -- `min` and `max` of Python: the first of equals.
  unfoldable pub min_of : F.Carrier → List F.Carrier → F.Carrier
  min_of x [] = x
  min_of x (y ∷ ys) = min_of (if F.less y x then y else x) ys

  unfoldable pub max_of : F.Carrier → List F.Carrier → F.Carrier
  max_of x [] = x
  max_of x (y ∷ ys) = max_of (if F.less x y then y else x) ys

  -- Of a polygon with a first vertex.
  unfoldable pub polygon_bbox : Point → List Point → Box
  polygon_bbox v vs =
      let lats = map (λ q. q.lat) vs in
      let lons = map (λ q. q.lon) vs in
      record {
        min_lon = min_of v.lon lons;
        min_lat = min_of v.lat lats;
        max_lon = max_of v.lon lons;
        max_lat = max_of v.lat lats;
      }

  unfoldable pub same_point : Point → Point → Bool
  same_point a b = F.equal a.lon b.lon && F.equal a.lat b.lat

  -- The ring of `rings_to_geojson_polygon`: closed, if it is not.
  unfoldable pub closed_ring : List Point → List Point
  closed_ring [] = []
  closed_ring (v ∷ vs) = if not (same_point v (last_from v vs)) then v ∷ (vs ++ v ∷ []) else v ∷ vs
