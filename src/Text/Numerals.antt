-- ===== src/Text/Numerals.antt =====
-- `int(text, base)`: blanks around it, a sign, and digits with single underscores between them;
-- in base 16 the digits may come after `0x`.
use babilcors.Prelude.{
  ℕ, zero, suc, ◌+◌, ◌-◌, ◌*◌, Bool, true, false, ◌&&◌, ◌||◌, Option, none, some, List, [], ◌∷◌,
  ◌==◌, leb, ltb, if◌then◌else◌,
}
use babilcors.Prelude.Int.{ℤ, pos, negsuc}
use babilcors.Rtcm.Messages.{strip}

-- The value of a character as a digit, 36 for none.
unfoldable pub digit_value : ℕ → ℕ
digit_value c =
    if leb 48 c && leb c 57
    then c - 48
    else if leb 97 c && leb c 122
    then c - 87
    else if leb 65 c && leb c 90
    then c - 55
    else 36

-- The digits, of which the value so far is given; `needed` at the start and after an underscore.
unfoldable pub read_digits : ℕ → ℕ → Bool → List ℕ → Option ℕ
read_digits base n needed [] = if needed then none else some n
read_digits base n needed (c ∷ s) = elim (c == 95) [
  | true ↦ if needed then none else read_digits base n true s
  | false ↦ elim (ltb (digit_value c) base) [
    | true ↦ read_digits base (n * base + digit_value c) false s
    | false ↦ none
  ]
]

-- Behind `0x` one underscore may stand.
unfoldable pub read_unsigned : ℕ → List ℕ → Option ℕ
read_unsigned base (c ∷ x ∷ s) =
    if base == 16 && c == 48 && (x == 120 || x == 88)
    then read_digits base 0 (elim s [ [] ↦ true | u ∷ _ ↦ if u == 95 then false else true ]) s
    else read_digits base 0 true (c ∷ x ∷ s)
read_unsigned base s = read_digits base 0 true s

unfoldable pub negate : ℕ → ℤ
negate zero = pos zero
negate (suc n) = negsuc n

unfoldable pub positive : Option ℕ → Option ℤ
positive none = none
positive (some n) = some (pos n)

unfoldable pub negative : Option ℕ → Option ℤ
negative none = none
negative (some n) = some (negate n)

unfoldable pub read_signed : ℕ → List ℕ → Option ℤ
read_signed base [] = none
read_signed base (c ∷ s) =
    if c == 45
    then negative (read_unsigned base s)
    else if c == 43
    then positive (read_unsigned base s)
    else positive (read_unsigned base (c ∷ s))

-- `none` is the `ValueError`.
unfoldable pub read_int : ℕ → List ℕ → Option ℤ
read_int base s = read_signed base (strip s)
