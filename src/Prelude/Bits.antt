-- ===== src/Prelude/Bits.antt =====
-- Shifts, and the laws of the native bit operations that the checksums need, at every width.
use mathlib.Core.Path.{◌≡◌, refl, ap, sym, ◌∙◌}
use Prim.Native.Nat.{
  ℕ, zero, suc, ◌+◌, ◌-◌, ◌*◌, ◌/◌, ◌%◌, ◌^◌, ◌≤◌, ◌<◌, min, max, bit_and, bit_or, bit_xor, differ,
  digits, bit_and-bitwise, bit_or-bitwise, bit_xor-bitwise,
}
use native.Mathlib.Nat.{
  pow-suc, one-le-pow, mod-add-div, mod-lt, add-mul-mod_self_left, mod-eq_of_lt, div-div-eq-div-mul,
}
use native.Mathlib.Omega.{arith}

infixl 75 ◌<<<◌ ◌>>>◌
abbrev pub ◌<<<◌ : ℕ → ℕ → ℕ
x <<< k = x * 2 ^ k

abbrev pub ◌>>>◌ : ℕ → ℕ → ℕ
x >>> k = x / 2 ^ k

-- Any fuel that is at least the first number gives the same digits.
module _ (z : ℕ → ℕ) (f : ℕ → ℕ → ℕ) where
  digits_enough : (n m a b : ℕ) → a ≤ n → a ≤ m → digits z f n a b ≡ digits z f m a b
  digits_enough zero zero a b p q = refl
  digits_enough zero (suc m) zero b p q = refl
  digits_enough zero (suc m) (suc a) b p q = absurd (omega arith)
  digits_enough (suc n) zero zero b p q = refl
  digits_enough (suc n) zero (suc a) b p q = absurd (omega arith)
  digits_enough (suc n) (suc m) zero b p q = refl
  digits_enough (suc n) (suc m) (suc a) b p q =
      omega (arith, digits_enough n m (suc a / 2) (b / 2) (omega arith) (omega arith))

-- One step for the lowest digit.
pub bit_xor_low : (a b : ℕ) → bit_xor a b ≡ bit_xor (a / 2) (b / 2) * 2 + differ (a % 2) (b % 2)
bit_xor_low zero b = ground (arith, bit_xor-bitwise 0 b, bit_xor-bitwise 0 (b / 2))
bit_xor_low (suc a) b = omega (
  arith,
  bit_xor-bitwise (suc a) b,
  bit_xor-bitwise (suc a / 2) (b / 2),
  digits_enough (λ y. y) differ a (suc a / 2) (suc a / 2) (b / 2) (omega arith) (omega arith),
)

pub bit_and_low : (a b : ℕ) → bit_and a b ≡ bit_and (a / 2) (b / 2) * 2 + min (a % 2) (b % 2)
bit_and_low zero b = omega (arith, bit_and-bitwise 0 b, bit_and-bitwise 0 (b / 2))
bit_and_low (suc a) b = omega (
  arith,
  bit_and-bitwise (suc a) b,
  bit_and-bitwise (suc a / 2) (b / 2),
  digits_enough (λ y. 0) min a (suc a / 2) (suc a / 2) (b / 2) (omega arith) (omega arith),
)

pub bit_or_low : (a b : ℕ) → bit_or a b ≡ bit_or (a / 2) (b / 2) * 2 + max (a % 2) (b % 2)
bit_or_low zero b = omega (arith, bit_or-bitwise 0 b, bit_or-bitwise 0 (b / 2))
bit_or_low (suc a) b = omega (
  arith,
  bit_or-bitwise (suc a) b,
  bit_or-bitwise (suc a / 2) (b / 2),
  digits_enough (λ y. y) max a (suc a / 2) (suc a / 2) (b / 2) (omega arith) (omega arith),
)

differ-lt : (x y : ℕ) → x < 2 → y < 2 → differ x y < 2
differ-lt zero y p q = q
differ-lt (suc x) zero p q = p
differ-lt (suc x) (suc y) p q = differ-lt x y (omega arith) (omega arith)

differ_twice : (x y : ℕ) → x < 2 → y < 2 → differ (differ x y) y ≡ x
differ_twice zero zero p q = refl
differ_twice zero (suc zero) p q = refl
differ_twice zero (suc (suc y)) p q = absurd (omega arith)
differ_twice (suc zero) zero p q = refl
differ_twice (suc zero) (suc zero) p q = refl
differ_twice (suc zero) (suc (suc y)) p q = absurd (omega arith)
differ_twice (suc (suc x)) y p q = absurd (omega arith)

differ-low : (a b : ℕ) → differ (a % 2) (b % 2) < 2
differ-low a b = differ-lt (a % 2) (b % 2) (omega arith) (omega arith)

-- The exclusive or of two words of `k` bits has `k` bits.
pub bit_xor-lt : (k a b : ℕ) → a < 2 ^ k → b < 2 ^ k → bit_xor a b < 2 ^ k
bit_xor-lt zero zero zero p q = omega arith
bit_xor-lt zero zero (suc b) p q = absurd (omega arith)
bit_xor-lt zero (suc a) b p q = absurd (omega arith)
bit_xor-lt (suc k) a b p q =
    let e = pow-suc 2 k in
    omega (
      arith,
      e,
      bit_xor_low a b,
      differ-low a b,
      bit_xor-lt k (a / 2) (b / 2) (omega (arith, e)) (omega (arith, e)),
    )

-- A second exclusive or with the same word undoes the first.
pub bit_xor-cancel : (k a b : ℕ) → a < 2 ^ k → b < 2 ^ k → bit_xor (bit_xor a b) b ≡ a
bit_xor-cancel zero zero zero p q = refl
bit_xor-cancel zero zero (suc b) p q = absurd (omega arith)
bit_xor-cancel zero (suc a) b p q = absurd (omega arith)
bit_xor-cancel (suc k) a b p q =
    let e = pow-suc 2 k in
    let half : bit_xor a b / 2 ≡ bit_xor (a / 2) (b / 2) =
      omega (arith, bit_xor_low a b, differ-low a b) in
    let low : bit_xor a b % 2 ≡ differ (a % 2) (b % 2) =
      omega (arith, bit_xor_low a b, differ-low a b) in
    rw (bit_xor_low (bit_xor a b) b, half, low)
      (omega (
        arith,
        differ_twice (a % 2) (b % 2) (omega arith) (omega arith),
        bit_xor-cancel k (a / 2) (b / 2) (omega (arith, e)) (omega (arith, e)),
      ))

-- Two words whose top bits are set have an exclusive or without it.
pub bit_xor-top :
    (k a b : ℕ) → 2 ^ k ≤ a → a < 2 ^ suc k → 2 ^ k ≤ b → b < 2 ^ suc k → bit_xor a b < 2 ^ k
bit_xor-top zero (suc zero) (suc zero) p p' q q' = omega arith
bit_xor-top zero zero b p p' q q' = absurd (omega arith)
bit_xor-top zero (suc a) zero p p' q q' = absurd (omega arith)
bit_xor-top zero (suc (suc a)) b p p' q q' = absurd (omega arith)
bit_xor-top zero (suc a) (suc (suc b)) p p' q q' = absurd (omega arith)
bit_xor-top (suc k) a b p p' q q' =
    let e = pow-suc 2 k in
    let e' = pow-suc 2 (suc k) in
    omega (
      arith,
      e,
      bit_xor_low a b,
      differ-low a b,
      bit_xor-top k (a / 2) (b / 2) (omega (arith, e)) (omega (arith, e, e')) (omega (arith, e))
          (omega (arith, e, e')),
    )

differ-parity : (x y : ℕ) → x < 2 → y < 2 → differ x y ≡ (x + y) % 2
differ-parity zero zero p q = refl
differ-parity zero (suc zero) p q = refl
differ-parity zero (suc (suc y)) p q = absurd (omega arith)
differ-parity (suc zero) zero p q = refl
differ-parity (suc zero) (suc zero) p q = refl
differ-parity (suc zero) (suc (suc y)) p q = absurd (omega arith)
differ-parity (suc (suc x)) y p q = absurd (omega arith)

pub bit_xor-parity : (a b : ℕ) → bit_xor a b % 2 ≡ (a + b) % 2
bit_xor-parity a b = omega (
  arith,
  bit_xor_low a b,
  differ-low a b,
  differ-parity (a % 2) (b % 2) (omega arith) (omega arith),
)

bit_or-zero_below : (n a : ℕ) → a ≤ n → bit_or a 0 ≡ a
bit_or-zero_below n zero h = refl
bit_or-zero_below zero (suc a) h = absurd (omega arith)
bit_or-zero_below (suc n) (suc a) h =
    omega (arith, bit_or_low (suc a) 0, bit_or-zero_below n (suc a / 2) (omega arith))

bit_and-zero_below : (n a : ℕ) → a ≤ n → bit_and a 0 ≡ 0
bit_and-zero_below n zero h = refl
bit_and-zero_below zero (suc a) h = absurd (omega arith)
bit_and-zero_below (suc n) (suc a) h =
    omega (arith, bit_and_low (suc a) 0, bit_and-zero_below n (suc a / 2) (omega arith))

double_shift : (k q : ℕ) → q * 2 ^ suc k ≡ q * 2 ^ k * 2
double_shift k q = omega (arith, ap (λ (t : ℕ). q * t) (pow-suc 2 k))

-- `(q <<< k) | r` is a sum when `r` fits `k` bits.
pub bit_or-sum : (k q r : ℕ) → r < 2 ^ k → bit_or (q <<< k) r ≡ q * 2 ^ k + r
bit_or-sum zero q zero h = omega (arith, bit_or-zero_below (q * 1) (q * 1) (omega arith))
bit_or-sum zero q (suc r) h = absurd (omega arith)
bit_or-sum (suc k) q r h =
    let half : q * 2 ^ suc k / 2 ≡ q * 2 ^ k = omega (arith, double_shift k q) in
    let low : bit_or (q * 2 ^ suc k) r
        ≡ bit_or (q * 2 ^ k) (r / 2) * 2 + max (q * 2 ^ suc k % 2) (r % 2) =
      rw (← half) (bit_or_low (q * 2 ^ suc k) r) in
    omega (arith, low, double_shift k q, bit_or-sum k q (r / 2) (omega (arith, pow-suc 2 k)))

mod_double : (m b : ℕ) → 0 < m → b % (m * 2) ≡ b / 2 % m * 2 + b % 2
mod_double m b pos =
    let h : b ≡ b / 2 % m * 2 + b % 2 + m * 2 * (b / 2 / m) =
      omega (arith, mod-add-div (b / 2) m) in
    let small : b / 2 % m * 2 + b % 2 < m * 2 = omega (arith, mod-lt (b / 2) pos) in
    ap (λ (t : ℕ). t % (m * 2)) h
    ∙ add-mul-mod_self_left (b / 2 % m * 2 + b % 2) (m * 2) (b / 2 / m)
    ∙ mod-eq_of_lt small

-- The mask `2 ^ k - 1` keeps the remainder by `2 ^ k`.
pub bit_and-mask : (k a : ℕ) → bit_and a (2 ^ k - 1) ≡ a % 2 ^ k
bit_and-mask zero a = omega (arith, bit_and-zero_below a a (omega arith))
bit_and-mask (suc k) a =
    let e = pow-suc 2 k in
    let pos = one-le-pow k 2 (omega arith) in
    let half : (2 ^ suc k - 1) / 2 ≡ 2 ^ k - 1 = omega (arith, e, pos) in
    let low : bit_and a (2 ^ suc k - 1) ≡ bit_and (a / 2) (2 ^ k - 1) * 2 + a % 2 =
      rw (← half) (omega (arith, bit_and_low a (2 ^ suc k - 1), e, pos)) in
    rw (low, bit_and-mask k (a / 2), e) (sym (mod_double (2 ^ k) a pos))

-- A test of bit `k`.
pub bit_and-bit : (k a : ℕ) → bit_and a (2 ^ k) ≡ a / 2 ^ k % 2 * 2 ^ k
bit_and-bit zero a =
    omega (arith, bit_and_low a 1, bit_and-zero_below (a / 2) (a / 2) (omega arith))
bit_and-bit (suc k) a =
    let e = pow-suc 2 k in
    let half : 2 ^ suc k / 2 ≡ 2 ^ k = omega (arith, e) in
    let low : bit_and a (2 ^ suc k) ≡ bit_and (a / 2) (2 ^ k) * 2 =
      rw (← half) (omega (arith, bit_and_low a (2 ^ suc k), e)) in
    let div : a / 2 / 2 ^ k ≡ a / 2 ^ suc k =
      div-div-eq-div-mul a 2 (2 ^ k) ∙ ap (λ (t : ℕ). a / t) (omega (arith, e)) in
    rw (low, bit_and-bit k (a / 2), div) (sym (double_shift k (a / 2 ^ suc k % 2)))

differ_comm : (x y : ℕ) → differ x y ≡ differ y x
differ_comm zero zero = refl
differ_comm zero (suc y) = refl
differ_comm (suc x) zero = refl
differ_comm (suc x) (suc y) = differ_comm x y

pub bit_xor_comm : (k a b : ℕ) → a < 2 ^ k → b < 2 ^ k → bit_xor a b ≡ bit_xor b a
bit_xor_comm zero zero zero p q = refl
bit_xor_comm zero zero (suc b) p q = absurd (omega arith)
bit_xor_comm zero (suc a) b p q = absurd (omega arith)
bit_xor_comm (suc k) a b p q =
    let e = pow-suc 2 k in
    omega (
      arith,
      bit_xor_low a b,
      bit_xor_low b a,
      differ_comm (a % 2) (b % 2),
      bit_xor_comm k (a / 2) (b / 2) (omega (arith, e)) (omega (arith, e)),
    )

bit_mul-le : (b m : ℕ) → b < 2 → b * m ≤ m
bit_mul-le zero m h = omega arith
bit_mul-le (suc zero) m h = omega arith
bit_mul-le (suc (suc b)) m h = absurd (omega arith)

mod_split : (m v : ℕ) → 0 < m → v % (m * 2) ≡ v / m % 2 * m + v % m
mod_split m v pos =
    let q = v / m in
    let whole : v ≡ q % 2 * m + v % m + m * 2 * (q / 2) =
      omega (arith, mod-add-div v m, ap (λ (t : ℕ). m * t) (mod-add-div q 2)) in
    let small : q % 2 * m + v % m < m * 2 =
      omega (arith, mod-lt v pos, bit_mul-le (q % 2) m (omega arith)) in
    ap (λ (t : ℕ). t % (m * 2)) whole
    ∙ add-mul-mod_self_left (q % 2 * m + v % m) (m * 2) (q / 2)
    ∙ mod-eq_of_lt small

-- The highest of `n + 1` low bits, and the others.
pub mod-pow-suc : (n v : ℕ) → v % 2 ^ suc n ≡ v / 2 ^ n % 2 * 2 ^ n + v % 2 ^ n
mod-pow-suc n v = rw (pow-suc 2 n) (mod_split (2 ^ n) v (one-le-pow n 2 (omega arith)))
