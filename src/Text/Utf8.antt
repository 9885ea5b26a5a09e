-- ===== src/Text/Utf8.antt =====
-- `safe_decode` of src/utils.py: UTF-8 with `errors="replace"`, as Python's decoder reads it. A
-- text is its list of code points; each longest start of a sequence that is not one becomes
-- U+FFFD.
use babilcors.Prelude.{
  ℕ, zero, suc, ◌+◌, ◌-◌, ◌*◌, ◌/◌, ◌%◌, ◌≤◌, ◌<◌, ◌≡◌, refl, ap, ◌∙◌, ◌⊎◌, inl, inr, ◌&&◌, List,
  [], ◌∷◌, ◌++◌, All, All-append, ltb, leb, ◌==◌, if◌then◌else◌, arith, Bool-cases, ltb→lt,
}

-- Between two sequences, or in one: the bytes that follow the next one, the bounds of the next
-- one, and the value so far.
pub data Pending : Type 0 where
  idle : Pending
  more : ℕ → ℕ → ℕ → ℕ → Pending

-- The first byte of a sequence. Overlong forms, surrogates and values above U+10FFFF are refused
-- at the second byte, as its bounds are narrower.
unfoldable pub first_byte : ℕ → List ℕ × Pending
first_byte b =
    if ltb b 0x80
    then (b ∷ [], idle)
    else if leb 0xc2 b && leb b 0xdf
    then ([], more 0 0x80 0xbf (b - 0xc0))
    else if leb 0xe0 b && leb b 0xef
    then (
      [],
      more 1 (if b == 0xe0 then 0xa0 else 0x80) (if b == 0xed then 0x9f else 0xbf) (b - 0xe0),
    )
    else if leb 0xf0 b && leb b 0xf4
    then (
      [],
      more 2 (if b == 0xf0 then 0x90 else 0x80) (if b == 0xf4 then 0x8f else 0xbf) (b - 0xf0),
    )
    else (0xfffd ∷ [], idle)

unfoldable pub further_byte : ℕ → ℕ → List ℕ × Pending
further_byte zero v = (v ∷ [], idle)
further_byte (suc n) v = ([], more n 0x80 0xbf v)

-- A byte that does not continue the sequence ends it, and begins another one.
unfoldable pub next_byte : Pending → ℕ → List ℕ × Pending
next_byte idle b = first_byte b
next_byte (more n lo hi v) b =
    if leb lo b && leb b hi
    then further_byte n (v * 64 + (b - 0x80))
    else (0xfffd ∷ (first_byte b).0, (first_byte b).1)

unfoldable pub decode_from : Pending → List ℕ → List ℕ
decode_from idle [] = []
decode_from (more n lo hi v) [] = 0xfffd ∷ []
decode_from p (b ∷ bs) = let (text, q) = next_byte p b in text ++ decode_from q bs

unfoldable pub safe_decode : List ℕ → List ℕ
safe_decode bs = decode_from idle bs

-- Code points that are not surrogates.
abbrev pub IsScalar : ℕ → Type 0
IsScalar c = (c < 0xd800) ⊎ ((0xe000 ≤ c) × (c < 0x110000))

abbrev pub utf8_char : ℕ → List ℕ
utf8_char c =
    if ltb c 0x80
    then c ∷ []
    else if ltb c 0x800
    then (0xc0 + c / 64) ∷ (0x80 + c % 64) ∷ []
    else if ltb c 0x10000
    then (0xe0 + c / 4096) ∷ (0x80 + c / 64 % 64) ∷ (0x80 + c % 64) ∷ []
    else (0xf0 + c / 262144) ∷ (0x80 + c / 4096 % 64) ∷ (0x80 + c / 64 % 64) ∷ (0x80 + c % 64) ∷ []

-- The bytes of a text.
abbrev pub utf8 : List ℕ → List ℕ
utf8 [] = []
utf8 (c ∷ t) = utf8_char c ++ utf8 t

one_byte :
    (c : ℕ) (rest : List ℕ) → c < 0x80 → decode_from idle (c ∷ rest) ≡ c ∷ decode_from idle rest
unfolding decode_from next_byte first_byte
one_byte c rest h = ground (arith, h)

-- The last byte, and one that is not the last.
last_byte :
    (lo hi v b : ℕ) (rest : List ℕ)
    → lo ≤ b
    → b ≤ hi
    → decode_from (more 0 lo hi v) (b ∷ rest) ≡ (v * 64 + (b - 0x80)) ∷ decode_from idle rest
unfolding decode_from next_byte further_byte
last_byte lo hi v b rest h k = ground (arith, h, k)

inner_byte :
    (n lo hi v b : ℕ) (rest : List ℕ)
    → lo ≤ b
    → b ≤ hi
    → decode_from (more (suc n) lo hi v) (b ∷ rest)
      ≡ decode_from (more n 0x80 0xbf (v * 64 + (b - 0x80))) rest
unfolding decode_from next_byte further_byte
inner_byte n lo hi v b rest h k = ground (arith, h, k)

first_of_two :
    (b : ℕ) (rest : List ℕ)
    → 0xc2 ≤ b
    → b ≤ 0xdf
    → decode_from idle (b ∷ rest) ≡ decode_from (more 0 0x80 0xbf (b - 0xc0)) rest
unfolding decode_from next_byte first_byte
first_of_two b rest h k = ground (arith, h, k)

abbrev low_of : ℕ → ℕ → ℕ → ℕ
low_of b least v = if b == least then v else 0x80

abbrev high_of : ℕ → ℕ → ℕ → ℕ
high_of b most v = if b == most then v else 0xbf

first_of_three :
    (b : ℕ) (rest : List ℕ)
    → 0xe0 ≤ b
    → b ≤ 0xef
    → decode_from idle (b ∷ rest)
      ≡ decode_from (more 1 (low_of b 0xe0 0xa0) (high_of b 0xed 0x9f) (b - 0xe0)) rest
unfolding decode_from next_byte first_byte
first_of_three b rest h k = ground (arith, h, k)

first_of_four :
    (b : ℕ) (rest : List ℕ)
    → 0xf0 ≤ b
    → b ≤ 0xf4
    → decode_from idle (b ∷ rest)
      ≡ decode_from (more 2 (low_of b 0xf0 0x90) (high_of b 0xf4 0x8f) (b - 0xf0)) rest
unfolding decode_from next_byte first_byte
first_of_four b rest h k = ground (arith, h, k)

two_bytes :
    (c : ℕ) (rest : List ℕ)
    → 0x80 ≤ c
    → c < 0x800
    → decode_from idle ((0xc0 + c / 64) ∷ (0x80 + c % 64) ∷ rest) ≡ c ∷ decode_from idle rest
two_bytes c rest h k =
    let v : (0xc0 + c / 64 - 0xc0) * 64 + (0x80 + c % 64 - 0x80) ≡ c = omega arith in
    first_of_two (0xc0 + c / 64) ((0x80 + c % 64) ∷ rest) (omega arith) (omega arith)
    ∙ last_byte 0x80 0xbf (0xc0 + c / 64 - 0xc0) (0x80 + c % 64) rest (omega arith) (omega arith)
    ∙ ap (λ x. x ∷ decode_from idle rest) v

low-le : (b least v n : ℕ) → 0x80 ≤ n → (b ≡ least → v ≤ n) → low_of b least v ≤ n
low-le b least v n h k = ground (arith, h, k)

high-ge : (b most v n : ℕ) → n ≤ 0xbf → (b ≡ most → n ≤ v) → n ≤ high_of b most v
high-ge b most v n h k = ground (arith, h, k)

three_bytes :
    (c : ℕ) (rest : List ℕ)
    → 0x800 ≤ c
    → c < 0x10000
    → IsScalar c
    → decode_from idle ((0xe0 + c / 4096) ∷ (0x80 + c / 64 % 64) ∷ (0x80 + c % 64) ∷ rest)
      ≡ c ∷ decode_from idle rest
three_bytes c rest h k scalar =
    let b = 0xe0 + c / 4096 in
    let b' = 0x80 + c / 64 % 64 in
    let v = (b - 0xe0) * 64 + (b' - 0x80) in
    let whole : v * 64 + (0x80 + c % 64 - 0x80) ≡ c = omega arith in
    first_of_three b (b' ∷ (0x80 + c % 64) ∷ rest) (omega arith) (omega arith)
    ∙ inner_byte 0 (low_of b 0xe0 0xa0) (high_of b 0xed 0x9f) (b - 0xe0) b' ((0x80 + c % 64) ∷ rest)
        (low-le b 0xe0 0xa0 b' (omega arith) (λ e. omega arith))
        (high-ge b 0xed 0x9f b' (omega arith)
          (λ e. elim scalar [ inl low ↦ omega arith | inr (high, top) ↦ omega arith ]))
    ∙ last_byte 0x80 0xbf v (0x80 + c % 64) rest (omega arith) (omega arith)
    ∙ ap (λ x. x ∷ decode_from idle rest) whole

four_bytes :
    (c : ℕ) (rest : List ℕ)
    → 0x10000 ≤ c
    → c < 0x110000
    → decode_from idle (
        (0xf0 + c / 262144)
        ∷ (0x80 + c / 4096 % 64)
        ∷ (0x80 + c / 64 % 64)
        ∷ (0x80 + c % 64)
        ∷ rest)
      ≡ c ∷ decode_from idle rest
four_bytes c rest h k =
    let b = 0xf0 + c / 262144 in
    let b' = 0x80 + c / 4096 % 64 in
    let b'' = 0x80 + c / 64 % 64 in
    let b''' = 0x80 + c % 64 in
    let v = (b - 0xf0) * 64 + (b' - 0x80) in
    let v' = v * 64 + (b'' - 0x80) in
    let whole : v' * 64 + (b''' - 0x80) ≡ c = omega arith in
    first_of_four b (b' ∷ b'' ∷ b''' ∷ rest) (omega arith) (omega arith)
    ∙ inner_byte 1 (low_of b 0xf0 0x90) (high_of b 0xf4 0x8f) (b - 0xf0) b' (b'' ∷ b''' ∷ rest)
        (low-le b 0xf0 0x90 b' (omega arith) (λ e. omega arith))
        (high-ge b 0xf4 0x8f b' (omega arith) (λ e. omega arith))
    ∙ inner_byte 0 0x80 0xbf v b'' (b''' ∷ rest) (omega arith) (omega arith)
    ∙ last_byte 0x80 0xbf v' b''' rest (omega arith) (omega arith)
    ∙ ap (λ x. x ∷ decode_from idle rest) whole

decode_from-char :
    (c : ℕ) (rest : List ℕ)
    → IsScalar c
    → decode_from idle (utf8_char c ++ rest) ≡ c ∷ decode_from idle rest
decode_from-char c rest scalar = elim (Bool-cases (ltb c 0x80)) [
  | inl e ↦ rw e (one_byte c rest (ltb→lt c 0x80 e))
  | inr e ↦ elim (Bool-cases (ltb c 0x800)) [
    | inl e' ↦ rw (e, e') (two_bytes c rest (ground arith) (ground arith))
    | inr e' ↦ elim (Bool-cases (ltb c 0x10000)) [
      | inl e'' ↦ rw (e, e', e'') (three_bytes c rest (ground arith) (ground arith) scalar)
      | inr e'' ↦
          rw (e, e', e'')
            (four_bytes c rest (ground arith)
              (elim scalar [ inl low ↦ omega arith | inr (high, top) ↦ omega arith ]))
    ]
  ]
]

-- Text that is written as UTF-8 is read back.
pub safe_decode-utf8 : (t : List ℕ) → All IsScalar t → safe_decode (utf8 t) ≡ t
unfolding safe_decode decode_from
safe_decode-utf8 [] h = refl
safe_decode-utf8 (c ∷ t) (h, hs) =
    decode_from-char c (utf8 t) h ∙ ap (◌∷◌ c) (safe_decode-utf8 t hs)

utf8_char-AreBytes : (c : ℕ) → IsScalar c → All (λ b. b < 256) (utf8_char c)
utf8_char-AreBytes c scalar = elim (Bool-cases (ltb c 0x80)) [
  | inl e ↦ rw e (ground arith, tt)
  | inr e ↦ elim (Bool-cases (ltb c 0x800)) [
    | inl e' ↦ rw (e, e') (ground arith, (omega arith, tt))
    | inr e' ↦ elim (Bool-cases (ltb c 0x10000)) [
      | inl e'' ↦ rw (e, e', e'') (ground arith, (omega arith, (omega arith, tt)))
      | inr e'' ↦
          rw (e, e', e'')
            (
              elim scalar [ inl low ↦ omega arith | inr (high, top) ↦ omega arith ],
              (omega arith, (omega arith, (omega arith, tt))),
            )
    ]
  ]
]

pub utf8-AreBytes : (t : List ℕ) → All IsScalar t → All (λ b. b < 256) (utf8 t)
utf8-AreBytes [] h = tt
utf8-AreBytes (c ∷ t) (h, hs) =
    All-append (λ b. b < 256) (utf8_char c) (utf8 t) (utf8_char-AreBytes c h) (utf8-AreBytes t hs)
