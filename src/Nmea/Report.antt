-- ===== src/Nmea/Report.antt =====
-- The GGA sentence of a receiver's report, and what `parse_gga` of src/nmea.py reads from it.
use babilcors.Prelude.{
  ℕ, ◌+◌, ◌/◌, ◌%◌, ◌≤◌, ◌<◌, ◌≡◌, refl, ◌∙◌, Bool, true, false, some, List, [], ◌∷◌, ◌++◌, length,
  if◌then◌else◌, arith,
}
use babilcors.Prelude.Int.{pos, negsuc}
use babilcors.Rtcm.Messages.{strip, lstrip}
use babilcors.Net.{is_empty}
use babilcors.Text.{join, read_int, read_signed, read_unsigned, read_digits, digit_value, positive}
use babilcors.Nmea.{Numbers, int_or_0}
use babilcors.Nmea.Sentences.{gga_fields, parse_gga, parse_lat, parse_lon, parse_angle, float_or_0}
use babilcors.Nmea.Checksum.{seal}
use babilcors.Nmea.Fields.{AreFields, parse_gga-fields}

abbrev pub digit : ℕ → ℕ
digit n = 48 + n % 10

abbrev pub two_digits : ℕ → List ℕ
two_digits n = digit (n / 10) ∷ digit n ∷ []

abbrev pub three_digits : ℕ → List ℕ
three_digits n = digit (n / 100) ∷ digit (n / 10) ∷ digit n ∷ []

read_one : (n : ℕ) → n < 10 → read_int 10 (digit n ∷ []) ≡ some (pos n)
unfolding read_int read_signed read_unsigned read_digits digit_value positive strip lstrip
read_one n h = ground arith

read_two : (n : ℕ) → n < 100 → read_int 10 (two_digits n) ≡ some (pos n)
unfolding read_int read_signed read_unsigned read_digits digit_value positive strip lstrip
read_two n h = ground arith

read_three : (n : ℕ) → n < 1000 → read_int 10 (three_digits n) ≡ some (pos n)
unfolding read_int read_signed read_unsigned read_digits digit_value positive strip lstrip
read_three n h = ground arith

-- What a receiver reports: degrees and the text of the minutes, the hemispheres, the fix, the
-- satellites, the text of the HDOP, and the fields around these.
pub record Report : Type 0 where
  pub talker : List ℕ
  pub time : List ℕ
  pub lat_degrees : ℕ
  pub lat_minutes : List ℕ
  pub is_south : Bool
  pub lon_degrees : ℕ
  pub lon_minutes : List ℕ
  pub is_west : Bool
  pub fix : ℕ
  pub satellites : ℕ
  pub hdop : List ℕ
  pub others : List (List ℕ)

-- The fields behind the talker, in the order of the NMEA standard.
abbrev pub reported : Report → List (List ℕ)
reported r =
    r.time
    ∷ (two_digits r.lat_degrees ++ r.lat_minutes)
    ∷ (if r.is_south then b'S' ∷ [] else b'N' ∷ [])
    ∷ (three_digits r.lon_degrees ++ r.lon_minutes)
    ∷ (if r.is_west then b'W' ∷ [] else b'E' ∷ [])
    ∷ (digit r.fix ∷ [])
    ∷ two_digits r.satellites
    ∷ r.hdop
    ∷ r.others

abbrev pub gga_sentence : Report → List ℕ
gga_sentence r = seal (join 44 (r.talker ∷ reported r))

module _ (N : Numbers) where
  -- The numbers have the digits that the sentence has for them, and the texts are those of floats.
  pub record IsReport (r : Report) (lat lon dilution : N.floats.Carrier) : Type 0 where
    pub fields : AreFields (r.talker ∷ reported r)
    pub long : 6 ≤ length r.others
    pub lat_degrees : r.lat_degrees < 100
    pub lon_degrees : r.lon_degrees < 1000
    pub fix : r.fix < 10
    pub satellites : r.satellites < 100
    pub lat_minutes : N.of_text r.lat_minutes ≡ some lat
    pub lon_minutes : N.of_text r.lon_minutes ≡ some lon
    pub hdop : N.of_text r.hdop ≡ some dilution
    pub has_hdop : is_empty r.hdop ≡ false

  -- Degrees and minutes in degrees, negative if `back` is true.
  abbrev pub angle : Bool → ℕ → N.floats.Carrier → N.floats.Carrier
  angle back degrees minutes =
      N.floats.mul (N.of_int (if back then negsuc 0 else pos 1))
        (N.floats.add (N.of_int (pos degrees)) (N.floats.div minutes (N.of_int (pos 60))))

  parse_lat-digits :
      (south : Bool) (d : ℕ) (text : List ℕ) (m : N.floats.Carrier)
      → d < 100
      → N.of_text text ≡ some m
      → parse_lat N (two_digits d ++ text) (if south then b'S' ∷ [] else b'N' ∷ [])
        ≡ some (angle south d m)
  unfolding parse_lat parse_angle is_empty
  parse_lat-digits true d text m h e = rw (read_two d h, e) refl
  parse_lat-digits false d text m h e = rw (read_two d h, e) refl

  parse_lon-digits :
      (west : Bool) (d : ℕ) (text : List ℕ) (m : N.floats.Carrier)
      → d < 1000
      → N.of_text text ≡ some m
      → parse_lon N (three_digits d ++ text) (if west then b'W' ∷ [] else b'E' ∷ [])
        ≡ some (angle west d m)
  unfolding parse_lon parse_angle is_empty
  parse_lon-digits true d text m h e = rw (read_three d h, e) refl
  parse_lon-digits false d text m h e = rw (read_three d h, e) refl

  float_or_0-read :
      (text : List ℕ) (x : N.floats.Carrier)
      → is_empty text ≡ false
      → N.of_text text ≡ some x
      → float_or_0 N text ≡ x
  unfolding float_or_0
  float_or_0-read text x h e = rw (h, e) refl

  int_or_0-read : (n : ℕ) → n < 100 → int_or_0 (two_digits n) ≡ pos n
  unfolding int_or_0
  int_or_0-read n h = rw (read_two n h) refl

  -- The GGA sentence of a report, with its checksum, is read back: the latitude and longitude are
  -- the degrees and a sixtieth of the minutes, negative in the south and in the west, and the
  -- fix, the satellites and the HDOP are those of the report.
  pub parse_gga-seal :
      (r : Report) (lat lon hdop : N.floats.Carrier)
      → IsReport r lat lon hdop
      → parse_gga N (gga_sentence r)
        ≡ some (record {
          lat = angle r.is_south r.lat_degrees lat;
          lon = angle r.is_west r.lon_degrees lon;
          fix_q = pos r.fix;
          nsat = pos r.satellites;
          hdop = hdop;
        })
  unfolding gga_fields
  parse_gga-seal r lat lon hdop h =
      parse_gga-fields N r.talker (reported r) h.fields (omega (arith, h.long))
      ∙ rw
          (
            read_one r.fix h.fix,
            parse_lat-digits r.is_south r.lat_degrees r.lat_minutes lat h.lat_degrees h.lat_minutes,
            parse_lon-digits r.is_west r.lon_degrees r.lon_minutes lon h.lon_degrees h.lon_minutes,
            int_or_0-read r.satellites h.satellites,
            float_or_0-read r.hdop hdop h.has_hdop h.hdop,
          )
          refl
