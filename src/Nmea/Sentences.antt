-- ===== src/Nmea/Sentences.antt =====
-- The sentences of src/nmea.py that hold floats: GGA, GSA, RMC and VTG.
use babilcors.Prelude.{
  ℕ, suc, ◌*◌, not, Option, none, some, List, ltb, length, take, drop, if◌then◌else◌, or_else,
  ◌>>=◌,
}
use babilcors.Prelude.Int.{ℤ, pos, negsuc}
use babilcors.Net.{is_empty}
use babilcors.Text.{split, before, read_int, negate}
use babilcors.Nmea.{
  Numbers, is_sentence, part, int_or_0, int_if_any, is_letter, is_letter_upper, used_sats,
}

unfoldable pub hundred_times : ℤ → ℤ
hundred_times (pos n) = pos (n * 100)
hundred_times (negsuc n) = negate (suc n * 100)

module _ (N : Numbers) where
  abbrev pub Float : Type 0
  Float = N.floats.Carrier

  abbrev pub float_zero : Float
  float_zero = N.of_int (pos 0)

  pub record Gga : Type 0 where
    pub lat : Float
    pub lon : Float
    pub fix_q : ℤ
    pub nsat : ℤ
    pub hdop : Float

  pub record Gsa : Type 0 where
    pub mode : List ℕ
    pub fix_type : ℤ
    pub sats : List ℤ
    pub pdop : Float
    pub hdop : Float
    pub vdop : Float

  pub record Rmc : Type 0 where
    pub status : List ℕ
    pub lat : Float
    pub lon : Float
    pub speed : Float
    pub course : Float
    pub date : List ℕ

  pub record Vtg : Type 0 where
    pub course : Float
    pub speed_kmh : Float

  -- Degrees of some digits, and minutes; the sign by the hemisphere.
  unfoldable pub parse_angle : ℕ → ℕ → List ℕ → List ℕ → Option Float
  parse_angle digits negative_letter val hemi =
      if is_empty val
      then none
      else read_int 10 (take digits val) >>= λ deg. N.of_text (drop digits val) >>= λ minutes.
          some (
            N.floats.mul (N.of_int (if is_letter negative_letter hemi then negsuc 0 else pos 1))
              (N.floats.add (N.of_int deg) (N.floats.div minutes (N.of_int (pos 60)))))

  unfoldable pub parse_lat : List ℕ → List ℕ → Option Float
  parse_lat val hemi = parse_angle 2 83 val hemi

  unfoldable pub parse_lon : List ℕ → List ℕ → Option Float
  parse_lon val hemi = parse_angle 3 87 val hemi

  -- `float(x)`, or 0.0 if it cannot be read; an empty text cannot.
  unfoldable pub float_or_0 : List ℕ → Float
  float_or_0 x = or_else (if is_empty x then none else N.of_text x) float_zero

  unfoldable pub gga_fields : List (List ℕ) → Option Gga
  gga_fields parts = read_int 10 (part parts 6) >>= λ fix_q.
      parse_lat (part parts 2) (part parts 3) >>= λ lat.
      parse_lon (part parts 4) (part parts 5) >>= λ lon. some (record {
        lat = lat;
        lon = lon;
        fix_q = fix_q;
        nsat = int_or_0 (part parts 7);
        hdop = float_or_0 (part parts 8);
      })

  unfoldable pub parse_gga : List ℕ → Option Gga
  parse_gga line =
      if not (is_sentence line)
      then none
      else if ltb (length (split 44 line)) 15
      then none
      else gga_fields (split 44 line)

  unfoldable pub gsa_fields : List (List ℕ) → Gsa
  gsa_fields parts = record {
    mode = part parts 1;
    fix_type = or_else (int_if_any (part parts 2)) (pos 0);
    sats = used_sats (take 12 (drop 3 parts));
    pdop = float_or_0 (part parts 15);
    hdop = float_or_0 (part parts 16);
    vdop = float_or_0 (before 42 (part parts 17));
  }

  unfoldable pub parse_gsa : List ℕ → Option Gsa
  parse_gsa line =
      if not (is_sentence line)
      then none
      else if ltb (length (split 44 line)) 18
      then none
      else some (gsa_fields (split 44 line))

  -- `conv`; the exception of `int` for what is not finite goes on to the caller.
  unfoldable pub degrees : Float → Option Float
  degrees x = N.hundreds x >>= λ deg. some (
      N.floats.add (N.of_int deg)
        (N.floats.div (N.floats.sub x (N.of_int (hundred_times deg))) (N.of_int (pos 60))))

  unfoldable pub conv : List ℕ → Option Float
  conv v =
      if is_empty v
      then some float_zero
      else elim (N.of_text v) [ none ↦ some float_zero | some x ↦ degrees x ]

  unfoldable pub southern : ℕ → List ℕ → Float → Float
  southern letter hemi x = if is_letter_upper letter hemi then N.minus (N.absolute x) else x

  unfoldable pub parse_lat_lon : List ℕ → List ℕ → List ℕ → List ℕ → Option (Float × Float)
  parse_lat_lon lat_str ns lon_str ew =
      conv lat_str >>= λ lat. conv lon_str >>= λ lon. some (southern 83 ns lat, southern 87 ew lon)

  unfoldable pub rmc_at : Float × Float → List (List ℕ) → Rmc
  rmc_at (lat, lon) parts = record {
    status = part parts 2;
    lat = lat;
    lon = lon;
    speed = float_or_0 (part parts 7);
    course = float_or_0 (part parts 8);
    date = part parts 9;
  }

  unfoldable pub parse_rmc : List ℕ → Option Rmc
  parse_rmc line =
      let parts = split 44 line in
      if not (is_sentence line)
      then none
      else if ltb (length parts) 12
      then none
      else some (
          rmc_at
            (or_else (parse_lat_lon (part parts 3) (part parts 4) (part parts 5) (part parts 6))
              (float_zero, float_zero))
            parts)

  unfoldable pub parse_vtg : List ℕ → Option Vtg
  parse_vtg line =
      let parts = split 44 line in
      if not (is_sentence line)
      then none
      else if ltb (length parts) 9
      then none
      else some
          (record { course = float_or_0 (part parts 1); speed_kmh = float_or_0 (part parts 7) })
