-- ===== src/Geodesy.antt =====
-- The coordinates of src/utils.py: `ecef_to_geodetic` and `haversine_m`, over floats with what
-- they use of the library `math`. `sin`, `cos` and `sqrt` raise an exception outside their
-- domain, which is `none`; the divisors are not 0.
pub mod Whole
use babilcors.Prelude.{
  ℕ, ◌≡◌, Bool, true, false, Option, none, some, List, [], ◌∷◌, if◌then◌else◌, ◌>>=◌,
}
use babilcors.Prelude.Int.{ℤ, pos, negsuc}
use babilcors.Geofence.{Floats}
use babilcors.Nmea.{Numbers}

pub record Maths : Type 1 where
  pub numbers : Numbers
  pub sin : numbers.floats.Carrier → Option numbers.floats.Carrier
  pub cos : numbers.floats.Carrier → Option numbers.floats.Carrier
  pub sqrt : numbers.floats.Carrier → Option numbers.floats.Carrier
  pub atan2 : numbers.floats.Carrier → numbers.floats.Carrier → numbers.floats.Carrier
  pub radians : numbers.floats.Carrier → numbers.floats.Carrier
  pub degrees : numbers.floats.Carrier → numbers.floats.Carrier
  -- `x ** n`, and `x ** 0.5`.
  pub power : numbers.floats.Carrier → ℕ → numbers.floats.Carrier
  pub root : numbers.floats.Carrier → numbers.floats.Carrier
  -- 298.257223563 and 0.001.
  pub inverse_flattening : numbers.floats.Carrier
  pub thousandth : numbers.floats.Carrier

module _ (M : Maths) where
  abbrev pub Float : Type 0
  Float = M.numbers.floats.Carrier

  abbrev pub whole : ℕ → Float
  whole n = M.numbers.of_int (pos n)

  infixl 65 ◌+f◌ ◌-f◌
  infixl 70 ◌*f◌ ◌/f◌
  abbrev pub ◌+f◌ : Float → Float → Float
  x +f y = M.numbers.floats.add x y

  abbrev pub ◌-f◌ : Float → Float → Float
  x -f y = M.numbers.floats.sub x y

  abbrev pub ◌*f◌ : Float → Float → Float
  x *f y = M.numbers.floats.mul x y

  abbrev pub ◌/f◌ : Float → Float → Float
  x /f y = M.numbers.floats.div x y

  unfoldable pub haversine_m : Float → Float → Float → Float → Option Float
  haversine_m lat1 lon1 lat2 lon2 = do
    let p1 = M.radians lat1
    let p2 = M.radians lat2
    let dphi = p2 -f p1
    let dl = M.radians (lon2 -f lon1)
    s1 ← M.sin (dphi /f whole 2)
    c1 ← M.cos p1
    c2 ← M.cos p2
    s2 ← M.sin (dl /f whole 2)
    let a = M.power s1 2 +f c1 *f c2 *f M.power s2 2
    r1 ← M.sqrt a
    r2 ← M.sqrt (whole 1 -f a)
    some (whole 2 *f whole 6_371_000 *f M.atan2 r1 r2)

  abbrev wgs84_a : Float
  wgs84_a = whole 6_378_137

  abbrev wgs84_f : Float
  wgs84_f = whole 1 /f M.inverse_flattening

  abbrev wgs84_e2 : Float
  wgs84_e2 = whole 2 *f wgs84_f -f wgs84_f *f wgs84_f

  -- Latitude, longitude and height at a point that is not over a pole; `p` is its distance from
  -- the axis.
  unfoldable pub geodetic_at : Float → Float → Float → Float → Option (Float × Float × Float)
  geodetic_at p x y z = do
    let b = wgs84_a *f (whole 1 -f wgs84_f)
    let ep2 = (wgs84_a *f wgs84_a -f b *f b) /f (b *f b)
    let th = M.atan2 (z *f wgs84_a) (p *f b)
    let lon = M.atan2 y x
    sin_th ← M.sin th
    cos_th ← M.cos th
    let lat =
        M.atan2 (z +f ep2 *f b *f M.power sin_th 3) (p -f wgs84_e2 *f wgs84_a *f M.power cos_th 3)
    sin_lat ← M.sin lat
    d ← M.sqrt (whole 1 -f wgs84_e2 *f sin_lat *f sin_lat)
    cos_lat ← M.cos lat
    some (M.degrees lat, M.degrees lon, p /f cos_lat -f wgs84_a /f d)

  unfoldable pub at_pole : Float → Float × Float × Float
  at_pole z = (
    if M.numbers.floats.less (whole 0) z then whole 90 else M.numbers.of_int (negsuc 89),
    whole 0,
    M.numbers.absolute z -f wgs84_a *f (whole 1 -f wgs84_f),
  )

  unfoldable pub ecef_to_geodetic : Float → Float → Float → Option (Float × Float × Float)
  ecef_to_geodetic x y z =
      let p = M.root (x *f x +f y *f y) in
      if M.numbers.floats.equal p (whole 0) then some (at_pole z) else geodetic_at p x y z
