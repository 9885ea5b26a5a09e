-- ===== src/Auth/Hashes.antt =====
-- A password hash that `make_password_hash` writes is one that `verify_password` reads.
use babilcors.Prelude.{
  ℕ, zero, suc, ◌+◌, ◌-◌, ◌*◌, ◌/◌, ◌%◌, ◌<◌, ◌≤◌, ◌≡◌, refl, ap, ◌∙◌, inl, inr, Bool, true, false,
  not, ◌&&◌, some, List, [], ◌∷◌, ◌==◌, ltb, length, get_or, All, if◌then◌else◌, arith, Bool-cases,
}
use babilcors.Prelude.Int.{pos}
use mathlib.Core.List.{reverse}
use babilcors.Rtcm.Messages.{is_space, strip, lstrip}
use babilcors.Net.{is_empty, same_bytes, starts_with}
use babilcors.Text.{
  split, join, read_int, read_signed, read_unsigned, read_digits, digit_value, positive,
}
use babilcors.Text.Laws.{Lacks, split-join}
use babilcors.Auth.{
  Text, User, hex_char, hex_value, unhexlify, hexlify, digits, decimal, scheme_name, derive,
  compare_derived, read_hash, verify_plain, verify_parts, verify_password, make_password_hash,
}
use babilcors.Auth.Credentials.{strip-unspaced, lstrip-start, IsUnspaced}

-- A decimal digit.
abbrev IsDigit : ℕ → Type 0
IsDigit c = (48 ≤ c) × (c ≤ 57)

digits-AreDigits : (f n : ℕ) (out : Text) → All IsDigit out → All IsDigit (digits f n out)
unfolding digits
digits-AreDigits zero n out h = h
digits-AreDigits (suc f) n out h = elim (Bool-cases (ltb n 10)) [
  | inl small ↦ rw small ((omega arith, ground (arith, small)), h)
  | inr large ↦
      rw large (digits-AreDigits f (n / 10) ((48 + n % 10) ∷ out) ((omega arith, omega arith), h))
]

read_digit :
    (n c : ℕ) (need : Bool) (s : Text)
    → IsDigit c
    → read_digits 10 n need (c ∷ s) ≡ read_digits 10 (n * 10 + (c - 48)) false s
unfolding read_digits digit_value
read_digit n c need s (low, high) = ground (arith, low, high)

read_digits-digits :
    (f n : ℕ) (out : Text)
    → n < f
    → read_digits 10 0 true (digits f n out) ≡ read_digits 10 n false out
unfolding digits
read_digits-digits zero n out h = absurd (omega arith)
read_digits-digits (suc f) n out h = elim (Bool-cases (ltb n 10)) [
  | inl small ↦ rw small (
      read_digit 0 (48 + n) true out (omega arith, ground (arith, small))
      ∙ ap (λ k. read_digits 10 k false out) (omega arith))
  | inr large ↦ rw large (
      read_digits-digits f (n / 10) ((48 + n % 10) ∷ out) (ground (arith, large))
      ∙ read_digit (n / 10) (48 + n % 10) false out (omega arith, omega arith)
      ∙ ap (λ k. read_digits 10 k false out) (omega arith))
]

digit-unspaced : (c : ℕ) → IsDigit c → is_space c ≡ false
digit-unspaced c (low, high) = ground (arith, low, high)

digits-IsUnspaced : (s : Text) → All IsDigit s → IsUnspaced s
digits-IsUnspaced [] h = tt
digits-IsUnspaced (c ∷ s) (h, hs) = (digit-unspaced c h, digits-IsUnspaced s hs)

strip-digits : (s : Text) → All IsDigit s → strip s ≡ s
strip-digits [] h = unfold strip lstrip in refl
strip-digits (c ∷ []) (h, hs) =
    unfold strip in
    (ap (λ u. reverse (lstrip (reverse u))) (lstrip-start c [] (digit-unspaced c h))
      ∙ ap reverse (lstrip-start c [] (digit-unspaced c h)))
strip-digits (c ∷ d ∷ s) (h, hs) =
    strip-unspaced c [] d s (digit-unspaced c h) (digits-IsUnspaced (d ∷ s) hs)

read_signed-digits :
    (s : Text) (n : ℕ)
    → All IsDigit s
    → read_digits 10 0 true s ≡ some n
    → read_signed 10 s ≡ some (pos n)
unfolding read_signed read_unsigned positive
read_signed-digits [] n h e = unfold read_digits in cc
read_signed-digits (c ∷ []) n ((low, high), hs) e = ground (arith, low, high, e)
read_signed-digits (c ∷ d ∷ s) n ((low, high), hs) e = ground (arith, low, high, e)

-- The decimal print of a number is read back.
pub read_int-decimal : (n : ℕ) → read_int 10 (decimal n) ≡ some (pos n)
unfolding read_int decimal
read_int-decimal n =
    let all = digits-AreDigits (suc n) n [] tt in
    ap (read_signed 10) (strip-digits (digits (suc n) n []) all)
    ∙ read_signed-digits (digits (suc n) n []) n all
        (read_digits-digits (suc n) n [] (omega arith) ∙ unfold read_digits in refl)

hex_value-char : (v : ℕ) → v < 16 → hex_value (hex_char v) ≡ some v
unfolding hex_value digit_value
hex_value-char v h = ground arith

pub unhexlify-hexlify : (bs : List ℕ) → All (λ b. b < 256) bs → unhexlify (hexlify bs) ≡ some bs
unfolding unhexlify hexlify
unhexlify-hexlify [] h = refl
unhexlify-hexlify (b ∷ bs) (h, hs) =
    rw
      (
        hex_value-char (b / 16) (omega arith),
        hex_value-char (b % 16) (omega arith),
        unhexlify-hexlify bs hs,
      )
      (ground arith)

hexlify-Lacks : (bs : List ℕ) → All (λ b. b < 256) bs → Lacks 36 (hexlify bs)
unfolding hexlify
hexlify-Lacks [] h = tt
hexlify-Lacks (b ∷ bs) (h, hs) = (ground (arith, h), (ground (arith, h), hexlify-Lacks bs hs))

digits-Lacks : (s : Text) → All IsDigit s → Lacks 36 s
digits-Lacks [] h = tt
digits-Lacks (c ∷ s) ((low, high), hs) = (omega (arith, low, high), digits-Lacks s hs)

skipped : {A : Type 0} (a b c : Bool) (x y : A) → c ≡ false → (if a && b && c then x else y) ≡ y
skipped a b c x y h = ground (arith, h)

unset :
    (empty same other : Bool)
    → empty ≡ true
    → same ≡ true
    → (if not empty then other else same) ≡ true
unset empty same other h k = ground (arith, h, k)

module _ (pbkdf2 : Text → List ℕ → ℕ → List ℕ) (sha256 : Text → Text) where
  split-hash :
      (password : Text) (n : ℕ) (salt : List ℕ)
      → All (λ b. b < 256) salt
      → All (λ b. b < 256) (pbkdf2 password salt n)
      → split 36 (make_password_hash pbkdf2 sha256 password n salt)
        ≡ scheme_name ∷ decimal n ∷ hexlify salt ∷ hexlify (pbkdf2 password salt n) ∷ []
  unfolding make_password_hash decimal
  split-hash password n salt hs hd =
      split-join 36 scheme_name
        (digits (suc n) n [] ∷ hexlify salt ∷ hexlify (pbkdf2 password salt n) ∷ [])
        (
          omega arith,
          (
            digits-Lacks (digits (suc n) n []) (digits-AreDigits (suc n) n [] tt),
            (hexlify-Lacks salt hs, (hexlify-Lacks (pbkdf2 password salt n) hd, tt)),
          ),
        )

  read_hash-made :
      (password : Text) (n : ℕ) (salt derived : List ℕ)
      → All (λ b. b < 256) salt
      → All (λ b. b < 256) derived
      → read_hash pbkdf2 sha256 (scheme_name ∷ decimal n ∷ hexlify salt ∷ hexlify derived ∷ [])
        ≡ some (pos n, salt, derived)
  unfolding read_hash
  read_hash-made password n salt derived hs hd =
      rw (read_int-decimal n, unhexlify-hexlify salt hs, unhexlify-hexlify derived hd)

  hash-nonempty :
      (password : Text) (n : ℕ) (salt : List ℕ)
      → is_empty (make_password_hash pbkdf2 sha256 password n salt) ≡ false
  unfolding make_password_hash join is_empty
  hash-nonempty password n salt = refl

  verified :
      (user : User) (provided d s h : Text)
      → is_empty user.password_hash ≡ false
      → verify_parts pbkdf2 sha256 user provided (scheme_name ∷ d ∷ s ∷ h ∷ [])
        ≡ compare_derived pbkdf2 sha256 provided
            (read_hash pbkdf2 sha256 (scheme_name ∷ d ∷ s ∷ h ∷ []))
  unfolding verify_parts same_bytes starts_with
  verified user provided d s h there = ground (arith, there)

  -- If a user has the hash that `make_password_hash` writes of a password, with at least one
  -- round, `verify_password` says of another one whether the derived bytes are the same.
  pub verify_password-made :
      (user : User) (password provided : Text) (n : ℕ) (salt : List ℕ)
      → All (λ b. b < 256) salt
      → All (λ b. b < 256) (pbkdf2 password salt (suc n))
      → user.password_hash ≡ make_password_hash pbkdf2 sha256 password (suc n) salt
      → verify_password pbkdf2 sha256 user provided
        ≡ some (same_bytes (pbkdf2 provided salt (suc n)) (pbkdf2 password salt (suc n)))
  unfolding verify_password
  verify_password-made user password provided n salt hs hd made =
      ap (verify_parts pbkdf2 sha256 user provided)
        (ap (split 36) made ∙ split-hash password (suc n) salt hs hd)
      ∙ verified user provided (decimal (suc n)) (hexlify salt)
          (hexlify (pbkdf2 password salt (suc n)))
          (ap is_empty made ∙ hash-nonempty password (suc n) salt)
      ∙ ap (compare_derived pbkdf2 sha256 provided)
          (read_hash-made password (suc n) salt (pbkdf2 password salt (suc n)) hs hd)
      ∙ unfold compare_derived derive in refl

  -- A user who has nothing but a hash in another scheme is let in with the empty password.
  pub verify_password-other_scheme :
      (user : User)
      → user.password ≡ []
      → user.password_sha256 ≡ []
      → same_bytes scheme_name (get_or (split 36 user.password_hash) 0 []) ≡ false
      → verify_password pbkdf2 sha256 user [] ≡ some true
  unfolding verify_password verify_parts verify_plain is_empty same_bytes starts_with
  verify_password-other_scheme user no_password no_sha other =
      skipped (not (is_empty user.password_hash)) (length (split 36 user.password_hash) == 4)
        (same_bytes scheme_name (get_or (split 36 user.password_hash) 0 [])) _ _ other
      ∙ ap some (
          unset (is_empty user.password_sha256) (same_bytes user.password []) _ (ap is_empty no_sha)
            (ap (λ p. same_bytes p []) no_password))
