-- ===== src/Geodesy/Whole.antt =====
-- Whole numbers in the place of floats, for the theorems at concrete inputs.
use babilcors.Prelude.{ℕ, ◌+◌, ◌-◌, ◌*◌, ◌/◌, ◌^◌, Option, none, some, ltb, ◌==◌}
use babilcors.Prelude.Int.{ℤ, pos, pos_part}
use babilcors.Geofence.{Floats}
use babilcors.Text.{read_int}
use babilcors.Nmea.{Numbers}
use babilcors.Geodesy.{Maths}

abbrev pub whole_floats : Floats
whole_floats = record {
  Carrier = ℕ;
  less = ltb;
  equal = ◌==◌;
  add = ◌+◌;
  sub = ◌-◌;
  mul = ◌*◌;
  div = ◌/◌;
  epsilon = 1;
}

abbrev natural : Option ℤ → Option ℕ
natural none = none
natural (some z) = some (pos_part z)

abbrev pub whole_numbers : Numbers
whole_numbers = record {
  floats = whole_floats;
  of_int = pos_part;
  of_text = λ s. natural (read_int 10 s);
  absolute = λ x. x;
  minus = λ x. x;
  hundreds = λ x. some (pos (x / 100));
}

abbrev pub whole_maths : Maths
whole_maths = record {
  numbers = whole_numbers;
  sin = λ x. some x;
  cos = λ x. some x;
  sqrt = λ x. some x;
  atan2 = ◌+◌;
  radians = λ x. x;
  degrees = λ x. x;
  power = ◌^◌;
  root = λ x. x;
  inverse_flattening = 298;
  thousandth = 1;
}
