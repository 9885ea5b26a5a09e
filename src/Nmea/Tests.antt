-- ===== src/Nmea/Tests.antt =====
-- The theorems on sentences at concrete ones, with whole numbers for floats.
use babilcors.Prelude.{◌≡◌, refl, true, false, some, [], ◌∷◌, ◌++◌, arith}
use babilcors.Prelude.Int.{pos}
use babilcors.Rtcm.Messages.{strip, lstrip}
use babilcors.Net.{is_empty}
use babilcors.Text.{read_int, read_signed, read_unsigned, read_digits, digit_value, positive}
use babilcors.Nmea.{xor_from}
use babilcors.Nmea.Sentences.{parse_gga}
use babilcors.Nmea.Checksum.{hex2}
use babilcors.Nmea.Report.{Report, IsReport, angle, gga_sentence, parse_gga-seal}
use babilcors.Nmea.Fields.{IsRefused, changed-IsRefused}
use babilcors.Geodesy.Whole.{whole_numbers}

abbrev report : Report
report = record {
  talker = b'G' ∷ b'N' ∷ b'G' ∷ b'G' ∷ b'A' ∷ [];
  time = b'1' ∷ [];
  lat_degrees = 41;
  lat_minutes = b'3' ∷ b'0' ∷ [];
  is_south = false;
  lon_degrees = 29;
  lon_minutes = b'0' ∷ b'0' ∷ [];
  is_west = true;
  fix = 4;
  satellites = 12;
  hdop = b'1' ∷ [];
  others = (b'9' ∷ b'0' ∷ []) ∷ (b'M' ∷ []) ∷ [] ∷ [] ∷ [] ∷ [] ∷ [];
}

report-IsReport : IsReport whole_numbers report 30 0 1
unfolding read_int read_signed read_unsigned read_digits digit_value positive strip lstrip is_empty
report-IsReport = record {
  fields = record { bytes = omega arith; no_comma = omega arith };
  long = omega arith;
  lat_degrees = omega arith;
  lon_degrees = omega arith;
  fix = omega arith;
  satellites = omega arith;
  lat_minutes = refl;
  lon_minutes = refl;
  hdop = refl;
  has_hdop = refl;
}

-- The whole numbers have no sign.
parse_gga-seal_example :
    parse_gga whole_numbers (gga_sentence report)
    ≡ some (record {
      lat = angle whole_numbers false 41 30;
      lon = angle whole_numbers true 29 0;
      fix_q = pos 4;
      nsat = pos 12;
      hdop = 1;
    })
parse_gga-seal_example = parse_gga-seal whole_numbers report 30 0 1 report-IsReport

changed-IsRefused_example : IsRefused whole_numbers (
    36
    ∷ (((b'G' ∷ b'P' ∷ []) ++ b'Z' ∷ b'D' ∷ b'A' ∷ [])
        ++ 42 ∷ hex2 (xor_from 0 ((b'G' ∷ b'P' ∷ []) ++ b'G' ∷ b'D' ∷ b'A' ∷ []))))
changed-IsRefused_example =
    changed-IsRefused whole_numbers (b'G' ∷ b'P' ∷ []) (b'D' ∷ b'A' ∷ []) b'G' b'Z' (omega arith)
      (omega arith) (omega arith) (omega arith) (omega arith)
