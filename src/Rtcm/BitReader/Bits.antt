-- ===== src/Rtcm/BitReader/Bits.antt =====
-- What `read_bits` reads, as numbers over the sequence of all bits.
use babilcors.Prelude.{
  ℕ, zero, suc, ◌+◌, ◌-◌, ◌*◌, ◌/◌, ◌%◌, ◌^◌, ◌<◌, ◌≡◌, refl, ◌∙◌, ap, subst, none, some, List, [],
  ◌∷◌, ◌++◌, append_assoc, append-nil, arith, length, get_or, drop,
}
use native.Mathlib.Nat.{pow-suc, mod-eq_of_lt}
use native.Mathlib.Numerals.{add-one}
use babilcors.Prelude.Bits.{◌>>>◌, bit_or-sum, bit_and-mask, mod-pow-suc}
use babilcors.Rtcm.BitReader.{BitReader, Reader, ◌>>=◌, pure, read_bit, read_bits_from, read_bits}

-- The bits of a byte, the highest first.
abbrev pub byte_bits : ℕ → List ℕ
byte_bits b =
    (b / 128 % 2)
    ∷ (b / 64 % 2)
    ∷ (b / 32 % 2)
    ∷ (b / 16 % 2)
    ∷ (b / 8 % 2)
    ∷ (b / 4 % 2)
    ∷ (b / 2 % 2)
    ∷ (b % 2)
    ∷ []

abbrev pub bits_of : List ℕ → List ℕ
bits_of [] = []
bits_of (b ∷ bytes) = byte_bits b ++ bits_of bytes

-- `n` bits of a number, the highest first.
abbrev pub to_bits : ℕ → ℕ → List ℕ
to_bits zero v = []
to_bits (suc n) v = (v / 2 ^ n % 2) ∷ to_bits n v

-- What is still to be read.
pub bits_left : BitReader → List ℕ
bits_left br = drop br.bitpos (bits_of br.bytes)

-- `m` takes `bits` off the front and returns `a`.
pub record Takes {A : Type 0} (m : Reader A) (a : A) (bits : List ℕ) : Type 0 where
  pub at :
      (br : BitReader) (more : List ℕ)
      → bits_left br ≡ bits ++ more
      → (br' : BitReader) × (m br ≡ some (a, br')) × (bits_left br' ≡ more)

pub Takes-pure : {A : Type 0} (a : A) → Takes (pure a) a []
Takes-pure a = record { at = λ br more e. (br, refl, e) }

pub Takes-bind :
    {A B : Type 0} (m : Reader A) (f : A → Reader B) (a : A) (b : B) (xs ys : List ℕ)
    → Takes m a xs
    → Takes (f a) b ys
    → Takes (m >>= f) b (xs ++ ys)
Takes-bind m f a b xs ys tm tf = record {
  at = λ br more e.
      let (br', e', left) = tm.at br (ys ++ more) (e ∙ append_assoc xs ys more) in
      let (br'', e'', left') = tf.at br' more left in
      (br'', ap (λ o. elim o [ none ↦ none | some (a', s) ↦ f a' s ]) e' ∙ e'', left');
}

length-bits_of : (bytes : List ℕ) → length (bits_of bytes) ≡ 8 * length bytes
length-bits_of [] = refl
length-bits_of (b ∷ bytes) = omega (arith, length-bits_of bytes)

get_bit :
    (bytes : List ℕ) (i : ℕ)
    → i < 8 * length bytes
    → get_or (bits_of bytes) i 0 ≡ get_or bytes (i / 8) 0 / 2 ^ (7 - i % 8) % 2
get_bit [] i h = absurd (omega arith)
get_bit (b ∷ bytes) zero h = refl
get_bit (b ∷ bytes) (suc zero) h = refl
get_bit (b ∷ bytes) (suc (suc zero)) h = refl
get_bit (b ∷ bytes) (suc (suc (suc zero))) h = refl
get_bit (b ∷ bytes) (suc (suc (suc (suc zero)))) h = refl
get_bit (b ∷ bytes) (suc (suc (suc (suc (suc zero))))) h = refl
get_bit (b ∷ bytes) (suc (suc (suc (suc (suc (suc zero)))))) h = refl
get_bit (b ∷ bytes) (suc (suc (suc (suc (suc (suc (suc zero))))))) h = omega arith
get_bit (b ∷ bytes) (suc (suc (suc (suc (suc (suc (suc (suc i)))))))) h =
    let next : suc (suc (suc (suc (suc (suc (suc (suc i))))))) / 8 ≡ suc (i / 8) = omega arith in
    let off : suc (suc (suc (suc (suc (suc (suc (suc i))))))) % 8 ≡ i % 8 = omega arith in
    rw (next, off) (get_bit bytes i (omega arith))

read_bit-eq :
    (val : ℕ) (br : BitReader)
    → br.bitpos < 8 * length br.bytes
    → read_bit val br
      ≡ some (val * 2 + get_or (bits_of br.bytes) br.bitpos 0, record br { bitpos = br.bitpos + 1 })
unfolding read_bit
read_bit-eq val br h =
    let byte = get_or br.bytes (br.bitpos / 8) 0 in
    ground (
      arith,
      get_bit br.bytes br.bitpos,
      bit_and-mask 1 (byte >>> (7 - br.bitpos % 8)),
      bit_or-sum 1 val (byte / 2 ^ (7 - br.bitpos % 8) % 2),
    )

-- A front element of what is left after `n`.
drop_front {ℓ} :
    {A : Type ℓ} (n : ℕ) (xs ys : List A) (x d : A)
    → drop n xs ≡ x ∷ ys
    → (n < length xs) × (get_or xs n d ≡ x) × (drop (suc n) xs ≡ ys)
drop_front zero [] ys x d e = cc
drop_front zero (z ∷ xs) ys x d e = (omega arith, ground (arith, e), ground (arith, e))
drop_front (suc n) [] ys x d e = cc
drop_front (suc n) (z ∷ xs) ys x d e =
    let (h, e', e'') = drop_front n xs ys x d e in (omega arith, e', e'')

read_bit-Takes : (val b : ℕ) → Takes (read_bit val) (val * 2 + b) (b ∷ [])
unfolding bits_left
read_bit-Takes val b = record {
  at = λ br more e.
      let (h, e', e'') = drop_front br.bitpos (bits_of br.bytes) more b 0 e in
      (
        record br { bitpos = br.bitpos + 1 },
        read_bit-eq val br (omega (arith, h, length-bits_of br.bytes)) ∙ rw e',
        rw add-one e'',
      );
}

shift_in :
    (n val v : ℕ) → (val * 2 + v / 2 ^ n % 2) * 2 ^ n + v % 2 ^ n ≡ val * 2 ^ suc n + v % 2 ^ suc n
shift_in n val v = omega (arith, mod-pow-suc n v, ap (λ (t : ℕ). val * t) (pow-suc 2 n))

read_bits_from-Takes :
    (n val v : ℕ) → Takes (read_bits_from n val) (val * 2 ^ n + v % 2 ^ n) (to_bits n v)
unfolding read_bits_from
read_bits_from-Takes zero val v =
    let same : val ≡ val * 2 ^ 0 + v % 2 ^ 0 = omega arith in
    subst (λ w. Takes (pure val) w []) same (Takes-pure val)
read_bits_from-Takes (suc n) val v =
    let b = v / 2 ^ n % 2 in
    subst (λ w. Takes (read_bit val >>= read_bits_from n) w (to_bits (suc n) v)) (shift_in n val v)
      (Takes-bind (read_bit val) (read_bits_from n) (val * 2 + b)
        ((val * 2 + b) * 2 ^ n + v % 2 ^ n) (b ∷ []) (to_bits n v) (read_bit-Takes val b)
        (read_bits_from-Takes n (val * 2 + b) v))

-- `read_bits` reads the number whose bits come next.
pub read_bits-Takes : (n v : ℕ) → v < 2 ^ n → Takes (read_bits n) v (to_bits n v)
unfolding read_bits
read_bits-Takes n v h =
    let same : 0 * 2 ^ n + v % 2 ^ n ≡ v = omega (arith, mod-eq_of_lt h) in
    subst (λ w. Takes (read_bits_from n 0) w (to_bits n v)) same (read_bits_from-Takes n 0 v)

-- A field of `n` bits, and then the rest.
pub Takes-field :
    {A : Type 0} (n v : ℕ) (f : ℕ → Reader A) (a : A) (more : List ℕ)
    → v < 2 ^ n
    → Takes (f v) a more
    → Takes (read_bits n >>= f) a (to_bits n v ++ more)
Takes-field n v f a more h t =
    Takes-bind (read_bits n) f v a (to_bits n v) more (read_bits-Takes n v h) t

-- One field, and what is made of it.
pub Takes-last :
    {A : Type 0} (n v : ℕ) (g : ℕ → A)
    → v < 2 ^ n
    → Takes (read_bits n >>= λ w. pure (g w)) (g v) (to_bits n v)
Takes-last n v g h =
    subst (Takes (read_bits n >>= λ w. pure (g w)) (g v)) (append-nil (to_bits n v))
      (Takes-field n v (λ w. pure (g w)) (g v) [] h (Takes-pure (g v)))

-- A reader that takes the bits of a whole buffer, from its start.
pub Takes-start :
    {A : Type 0} {m : Reader A} {a : A} (bytes bits padding : List ℕ)
    → Takes m a bits
    → bits_of bytes ≡ bits ++ padding
    → (br : BitReader) × (m (record { bytes = bytes; bitpos = 0 }) ≡ some (a, br))
unfolding bits_left
Takes-start bytes bits padding t e =
    let (br, found, left) = t.at (record { bytes = bytes; bitpos = 0 }) padding e in (br, found)
