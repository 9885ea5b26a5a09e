-- ===== src/Nmea/Checksum.antt =====
-- The checksum that stands in front of all parsers of src/nmea.py: what is sealed with it is
-- read field by field, and a sentence with a changed character is not.
use babilcors.Prelude.{
  ℕ, ◌+◌, ◌/◌, ◌%◌, ◌<◌, ◌≡◌, ◌≢◌, refl, sym, ap, ◌∙◌, inl, inr, Bool, true, false, Option, none,
  some, List, [], ◌∷◌, ◌++◌, ltb, bit_xor, All, if◌then◌else◌, arith, Bool-cases,
}
use babilcors.Prelude.Bits.{bit_xor-lt, bit_xor-cancel, bit_xor_comm}
use babilcors.Prelude.Tables.{passes_under, passes_under_lem}
use babilcors.Prelude.Int.{ℤ, pos, negsuc}
use babilcors.Rtcm.Messages.{strip, lstrip}
use babilcors.Net.{starts_with}
use babilcors.Text.{
  has_char, read_int, read_signed, read_unsigned, read_digits, digit_value, positive,
}
use babilcors.Text.Laws.{Lacks, rpartition-append}
use babilcors.Nmea.{xor_from, is_nat, checksum_matches, check_halves, checksum_ok, is_sentence}

abbrev pub AreBytes : List ℕ → Type 0
AreBytes s = All (λ b. b < 256) s

pub xor_from-lt : (x : ℕ) (s : List ℕ) → x < 256 → AreBytes s → xor_from x s < 256
unfolding xor_from
xor_from-lt x [] h hs = h
xor_from-lt x (c ∷ s) h (hc, hs) = xor_from-lt (bit_xor x c) s (bit_xor-lt 8 x c h hc) hs

pub xor_from-append : (x : ℕ) (s t : List ℕ) → xor_from x (s ++ t) ≡ xor_from (xor_from x s) t
unfolding xor_from
xor_from-append x [] t = refl
xor_from-append x (c ∷ s) t = xor_from-append (bit_xor x c) s t

bit_xor-injective : (a b c : ℕ) → a < 256 → b < 256 → c < 256 → bit_xor a c ≡ bit_xor b c → a ≡ b
bit_xor-injective a b c ha hb hc e =
    sym (bit_xor-cancel 8 a c ha hc) ∙ ap (λ t. bit_xor t c) e ∙ bit_xor-cancel 8 b c hb hc

xor_from-injective :
    (x y : ℕ) (s : List ℕ) → x < 256 → y < 256 → AreBytes s → xor_from x s ≡ xor_from y s → x ≡ y
unfolding xor_from
xor_from-injective x y [] hx hy hs e = e
xor_from-injective x y (c ∷ s) hx hy (hc, hs) e = bit_xor-injective x y c hx hy hc (
    xor_from-injective (bit_xor x c) (bit_xor y c) s (bit_xor-lt 8 x c hx hc)
      (bit_xor-lt 8 y c hy hc) hs e)

-- One changed character changes the exclusive or of all.
xor_from-changed :
    (s t : List ℕ) (a b : ℕ)
    → AreBytes s
    → AreBytes t
    → a < 256
    → b < 256
    → xor_from 0 (s ++ a ∷ t) ≡ xor_from 0 (s ++ b ∷ t)
    → a ≡ b
unfolding xor_from
xor_from-changed s t a b hs ht ha hb e =
    let x = xor_from 0 s in
    let hx = xor_from-lt 0 s (omega arith) hs in
    let both : xor_from (bit_xor x a) t ≡ xor_from (bit_xor x b) t =
      sym (xor_from-append 0 s (a ∷ t)) ∙ e ∙ xor_from-append 0 s (b ∷ t) in
    let same : bit_xor x a ≡ bit_xor x b =
      xor_from-injective (bit_xor x a) (bit_xor x b) t (bit_xor-lt 8 x a hx ha)
        (bit_xor-lt 8 x b hx hb) ht both in
    bit_xor-injective a b x ha hb hx (bit_xor_comm 8 a x ha hx ∙ same ∙ bit_xor_comm 8 x b hx hb)

value_is : ℕ → Option ℤ → Bool
value_is v none = false
value_is v (some val) = is_nat v val

halves-value :
    (c : ℕ) (s : List ℕ) (o : Option ℤ) → checksum_matches (c ∷ s) o ≡ value_is (xor_from 0 s) o
unfolding checksum_matches value_is
halves-value c s none = refl
halves-value c s (some val) = refl

-- What the checksum test is of a sentence with its star.
checksum_ok-star :
    (c : ℕ) (s cs : List ℕ)
    → Lacks 42 cs
    → checksum_ok (c ∷ (s ++ 42 ∷ cs)) ≡ value_is (xor_from 0 s) (read_int 16 (strip cs))
unfolding checksum_ok
checksum_ok-star c s cs h =
    ap check_halves (rpartition-append 42 (c ∷ s) cs h)
    ∙ unfold check_halves in (halves-value c s (read_int 16 (strip cs)))

value_is_unique : (v w : ℕ) (o : Option ℤ) → value_is v o ≡ true → value_is w o ≡ true → v ≡ w
unfolding value_is is_nat
value_is_unique v w none h k = cc
value_is_unique v w (some (pos n)) h k = ground (arith, h, k)
value_is_unique v w (some (negsuc n)) h k = cc

-- A sentence that passes the test fails it when one character between its first and its last
-- star is changed.
pub checksum_ok-changed :
    (dollar : ℕ) (s t cs : List ℕ) (a b : ℕ)
    → AreBytes s
    → AreBytes t
    → a < 256
    → b < 256
    → Lacks 42 cs
    → a ≢ b
    → checksum_ok (dollar ∷ ((s ++ a ∷ t) ++ 42 ∷ cs)) ≡ true
    → checksum_ok (dollar ∷ ((s ++ b ∷ t) ++ 42 ∷ cs)) ≡ false
checksum_ok-changed dollar s t cs a b hs ht ha hb hcs differ good =
    let o = read_int 16 (strip cs) in
    elim (Bool-cases (checksum_ok (dollar ∷ ((s ++ b ∷ t) ++ 42 ∷ cs)))) [
      | inr e ↦ e
      | inl e ↦ absurd (
          differ (
            xor_from-changed s t a b hs ht ha hb (
              value_is_unique (xor_from 0 (s ++ a ∷ t)) (xor_from 0 (s ++ b ∷ t)) o
                (sym (checksum_ok-star dollar (s ++ a ∷ t) cs hcs) ∙ good)
                (sym (checksum_ok-star dollar (s ++ b ∷ t) cs hcs) ∙ e))))
    ]

abbrev hex_digit : ℕ → ℕ
hex_digit n = if ltb n 10 then 48 + n else 55 + n

abbrev pub hex2 : ℕ → List ℕ
hex2 v = hex_digit (v / 16) ∷ hex_digit (v % 16) ∷ []

hex2_table : passes_under (λ v. value_is v (read_int 16 (strip (hex2 v)))) 256 ≡ true
unfolding passes_under value_is is_nat read_int read_signed read_unsigned read_digits digit_value
    positive strip lstrip
hex2_table = refl

pub hex2-Lacks : (v : ℕ) → v < 256 → Lacks 42 (hex2 v)
hex2-Lacks v h = (ground arith, (ground arith, tt))

-- A sentence: the dollar, a text, the star and the checksum of the text in hexadecimal.
abbrev pub seal : List ℕ → List ℕ
seal s = 36 ∷ (s ++ 42 ∷ hex2 (xor_from 0 s))

has_char-append : (c : ℕ) (s t : List ℕ) → has_char c (s ++ c ∷ t) ≡ true
unfolding has_char
has_char-append c [] t = ground arith
has_char-append c (b ∷ s) t = rw (has_char-append c s t) (ground arith)

-- Every sealed text passes the tests that all parsers begin with.
pub is_sentence-seal : (s : List ℕ) → AreBytes s → is_sentence (seal s) ≡ true
unfolding is_sentence starts_with has_char
is_sentence-seal s hs =
    let v = xor_from 0 s in
    let hv = xor_from-lt 0 s (omega arith) hs in
    rw (has_char-append 42 s (hex2 v)) (
      checksum_ok-star 36 s (hex2 v) (hex2-Lacks v hv)
      ∙ passes_under_lem (λ x. value_is x (read_int 16 (strip (hex2 x)))) 256 v hv hex2_table)
