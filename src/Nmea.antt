-- ===== src/Nmea.antt =====
-- src/nmea.py. A sentence is a text of ASCII characters. Floats are any type with the operations
-- that the source uses; what can raise an exception gives an option.
pub mod Sentences
pub mod Checksum
pub mod Fields
pub mod Report
mod Tests
use babilcors.Prelude.{
  ℕ, zero, suc, ◌+◌, ◌-◌, ◌≡◌, Bool, true, false, not, ◌&&◌, ◌||◌, Option, none, some, List, [],
  ◌∷◌, ◌==◌, ltb, leb, length, get_or, take, drop, bit_xor, if◌then◌else◌, or_else, ◌>>=◌,
}
use babilcors.Prelude.Int.{ℤ, pos, negsuc}
use babilcors.Rtcm.Messages.{strip}
use babilcors.Net.{is_empty, starts_with}
use babilcors.Geofence.{Floats}
use babilcors.Text.{has_char, split, before, rpartition, read_int}

-- Floats with what the parsers need of Python: `float` of an integer and of a text, `abs`, and
-- `int(x // 100)`, which raises an exception for what is not finite.
pub record Numbers : Type 1 where
  pub floats : Floats
  pub of_int : ℤ → floats.Carrier
  pub of_text : List ℕ → Option floats.Carrier
  pub absolute : floats.Carrier → floats.Carrier
  pub minus : floats.Carrier → floats.Carrier
  pub hundreds : floats.Carrier → Option ℤ

-- `x ^= ord(ch)` over the characters.
unfoldable pub xor_from : ℕ → List ℕ → ℕ
xor_from x [] = x
xor_from x (c ∷ s) = xor_from (bit_xor x c) s

unfoldable pub is_nat : ℕ → ℤ → Bool
is_nat x (pos n) = x == n
is_nat x (negsuc n) = false

unfoldable pub checksum_matches : List ℕ → Option ℤ → Bool
checksum_matches body none = false
checksum_matches body (some val) = is_nat (xor_from 0 (drop 1 body)) val

unfoldable pub check_halves : Option (List ℕ × List ℕ) → Bool
check_halves none = false
check_halves (some (body, cs)) = checksum_matches body (read_int 16 (strip cs))

unfoldable pub checksum_ok : List ℕ → Bool
checksum_ok sentence = check_halves (rpartition 42 sentence)

-- The tests that each parser begins with: `$`, a star, and the checksum.
unfoldable pub is_sentence : List ℕ → Bool
is_sentence line =
    if not (starts_with (36 ∷ []) line) || not (has_char 42 line) then false else checksum_ok line

abbrev pub part : List (List ℕ) → ℕ → List ℕ
part parts i = get_or parts i []

-- `int(x)`, or 0 if it cannot be read.
unfoldable pub int_or_0 : List ℕ → ℤ
int_or_0 x = or_else (read_int 10 x) (pos 0)

-- `int(x or "0")`.
unfoldable pub int_if_any : List ℕ → Option ℤ
int_if_any x = if is_empty x then some (pos 0) else read_int 10 x

abbrev pub is_letter : ℕ → List ℕ → Bool
is_letter c [] = false
is_letter c (b ∷ []) = b == c
is_letter c (b ∷ _ ∷ _) = false

-- The two cases of a letter.
abbrev pub is_letter_upper : ℕ → List ℕ → Bool
is_letter_upper c s = is_letter c s || is_letter (c + 32) s

-- PRN, elevation, azimuth and SNR.
pub record Satellite : Type 0 where
  pub prn : ℤ
  pub elevation : ℤ
  pub azimuth : ℤ
  pub snr : ℤ

pub record Gsv : Type 0 where
  pub total_sent : ℤ
  pub sent_num : ℤ
  pub total_sv : ℤ
  pub sats : List Satellite

pub record Zda : Type 0 where
  pub time : List ℕ
  pub day : ℤ
  pub month : ℤ
  pub year : ℤ

unfoldable pub is_zero : ℤ → Bool
is_zero (pos n) = n == 0
is_zero (negsuc n) = false

-- One group of four fields, `none` for an exception or a PRN of 0.
unfoldable pub satellite : List ℕ → List ℕ → List ℕ → List ℕ → Option Satellite
satellite a b c d = int_if_any a >>= λ prn. int_if_any b >>= λ elevation.
    int_if_any c >>= λ azimuth. int_if_any (before 42 d) >>= λ snr.
    if is_zero prn
    then none
    else some (record { prn = prn; elevation = elevation; azimuth = azimuth; snr = snr })

abbrev pub and_first {ℓ} : {A : Type ℓ} → Option A → List A → List A
and_first none xs = xs
and_first (some x) xs = x ∷ xs

-- `while i + 3 < len(parts)`.
unfoldable pub satellites : List (List ℕ) → List Satellite
satellites (a ∷ b ∷ c ∷ d ∷ rest) = and_first (satellite a b c d) (satellites rest)
satellites _ = []

unfoldable pub gsv_fields : List (List ℕ) → Option Gsv
gsv_fields parts = read_int 10 (part parts 1) >>= λ total_sent.
    read_int 10 (part parts 2) >>= λ sent_num. read_int 10 (part parts 3) >>= λ total_sv.
    some (record {
      total_sent = total_sent;
      sent_num = sent_num;
      total_sv = total_sv;
      sats = satellites (drop 4 parts);
    })

unfoldable pub parse_gsv : List ℕ → Option Gsv
parse_gsv line =
    if not (is_sentence line)
    then none
    else if ltb (length (split 44 line)) 4
    then none
    else gsv_fields (split 44 line)

unfoldable pub zda_fields : List (List ℕ) → Option Zda
zda_fields parts = int_if_any (part parts 2) >>= λ day. int_if_any (part parts 3) >>= λ month.
    int_if_any (part parts 4) >>= λ year.
    some (record { time = part parts 1; day = day; month = month; year = year })

unfoldable pub parse_zda : List ℕ → Option Zda
parse_zda line =
    if not (is_sentence line)
    then none
    else if ltb (length (split 44 line)) 5
    then none
    else zda_fields (split 44 line)

-- The satellites in use: what cannot be read is passed over.
unfoldable pub used_sats : List (List ℕ) → List ℤ
used_sats [] = []
used_sats (p ∷ ps) = and_first (read_int 10 (strip p)) (used_sats ps)
