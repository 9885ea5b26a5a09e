-- ===== src/Auth.antt =====
-- src/auth.py, and `b64decode_str` of src/utils.py: the credentials of a request, and passwords.
-- The pair of name and password is decoded from UTF-8; other texts are ASCII. The hashes of
-- `hashlib` are parameters, applied to the text that the source encodes; an exception is `none`.
pub mod Base64
pub mod Hashes
pub mod Credentials
mod Tests
use babilcors.Prelude.{
  ℕ, zero, suc, ◌+◌, ◌-◌, ◌*◌, ◌/◌, ◌%◌, ◌≡◌, Bool, true, false, not, ◌&&◌, ◌||◌, Option, none,
  some, List, [], ◌∷◌, ◌++◌, ◌==◌, leb, ltb, length, get_or, if◌then◌else◌, or_else, ◌>>=◌,
}
use babilcors.Prelude.Int.{ℤ, pos, negsuc}
use babilcors.Rtcm.Messages.{is_space, strip, lstrip}
use babilcors.Net.{is_empty, same_bytes, lower, split_colon}
use babilcors.Text.Utf8.{safe_decode}
use babilcors.Text.{split, join, read_int, digit_value}

abbrev pub Text : Type 0
Text = List ℕ

-- The value of a character of base 64.
unfoldable pub sextet : ℕ → Option ℕ
sextet c =
    if leb b'A' c && leb c b'Z'
    then some (c - 65)
    else if leb b'a' c && leb c b'z'
    then some (c - 71)
    else if leb b'0' c && leb c b'9'
    then some (c + 4)
    else if c == b'+'
    then some 62
    else if c == b'/'
    then some 63
    else none

unfoldable pub three_bytes : ℕ → ℕ → ℕ → ℕ → List ℕ
three_bytes a b c d = (a * 4 + b / 16) ∷ (b % 16 * 16 + c / 4) ∷ (c % 4 * 64 + d) ∷ []

unfoldable pub two_bytes : ℕ → ℕ → ℕ → List ℕ
two_bytes a b c = (a * 4 + b / 16) ∷ (b % 16 * 16 + c / 4) ∷ []

unfoldable pub one_byte : ℕ → ℕ → List ℕ
one_byte a b = (a * 4 + b / 16) ∷ []

-- Four characters without padding.
unfoldable pub quad : ℕ → ℕ → ℕ → ℕ → Option (List ℕ)
quad a b c d = sextet a >>= λ x.
    sextet b >>= λ y. sextet c >>= λ z. sextet d >>= λ w. some (three_bytes x y z w)

-- The last four, of which the fourth is `=`.
unfoldable pub padded : ℕ → ℕ → ℕ → Option (List ℕ)
padded a b c =
    if c == b'='
    then (sextet a >>= λ x. sextet b >>= λ y. some (one_byte x y))
    else (sextet a >>= λ x. sextet b >>= λ y. sextet c >>= λ z. some (two_bytes x y z))

unfoldable pub behind : Option (List ℕ) → Option (List ℕ) → Option (List ℕ)
behind first rest = first >>= λ x. rest >>= λ xs. some (x ++ xs)

-- `base64.b64decode(s, validate=True)`; `none` is `binascii.Error`.
unfoldable pub b64decode : Text → Option (List ℕ)
b64decode [] = some []
b64decode (a ∷ b ∷ c ∷ d ∷ rest) =
    let more = b64decode rest in
    if (d == b'=') && is_empty rest then padded a b c else behind (quad a b c d) more
b64decode _ = none

unfoldable pub b64decode_str : Text → List ℕ
b64decode_str s = or_else (b64decode s) []

-- `s.split(None, 1)` of a stripped text, if there are two parts: the first word and the rest.
unfoldable pub first_word : Text → Text × Text
first_word [] = ([], [])
first_word (c ∷ s) =
    let later = first_word s in if is_space c then ([], lstrip s) else (c ∷ later.0, later.1)

unfoldable pub user_and_password : Option (Text × Text) → Option (Text × Text)
user_and_password none = none
user_and_password (some (user, password)) = if is_empty user then none else some (user, password)

abbrev basic : Text
basic = b'b' ∷ b'a' ∷ b's' ∷ b'i' ∷ b'c' ∷ []

-- Of no bytes `safe_decode` makes a text without a colon, which gives `none` as in the source.
unfoldable pub decode_basic : Text × Text → Option (Text × Text)
decode_basic (scheme, b64) =
    if is_empty b64
    then none
    else if not (same_bytes basic (lower scheme))
    then none
    else user_and_password (split_colon (safe_decode (b64decode_str b64)))

unfoldable pub parse_basic_auth : Text → Option (Text × Text)
parse_basic_auth header_value = decode_basic (first_word (strip header_value))

-- `UserRecord`, of which `None` and the empty text are not told apart here.
pub record User : Type 0 where
  pub password : Text
  pub password_sha256 : Text
  pub password_hash : Text

-- `binascii.unhexlify`.
unfoldable pub hex_value : ℕ → Option ℕ
hex_value c = if ltb (digit_value c) 16 then some (digit_value c) else none

unfoldable pub unhexlify : Text → Option (List ℕ)
unhexlify [] = some []
unhexlify (c ∷ []) = none
unhexlify (c ∷ d ∷ s) =
    let rest = unhexlify s in
    hex_value c >>= λ x. hex_value d >>= λ y. rest >>= λ xs. some ((x * 16 + y) ∷ xs)

abbrev pub hex_char : ℕ → ℕ
hex_char n = if ltb n 10 then 48 + n else 87 + n

unfoldable pub hexlify : List ℕ → Text
hexlify [] = []
hexlify (b ∷ bs) = hex_char (b / 16) ∷ hex_char (b % 16) ∷ hexlify bs

-- The decimal digits of a number, with as much fuel as the number is large.
unfoldable pub digits : ℕ → ℕ → Text → Text
digits zero n out = out
digits (suc f) n out =
    let rest = digits f (n / 10) ((48 + n % 10) ∷ out) in if ltb n 10 then (48 + n) ∷ out else rest

unfoldable pub decimal : ℕ → Text
decimal n = digits (suc n) n []

abbrev pub scheme_name : Text
scheme_name =
    b'p' ∷ b'b' ∷ b'k' ∷ b'd' ∷ b'f' ∷ b'2' ∷ b'_' ∷ b's' ∷ b'h' ∷ b'a' ∷ b'2' ∷ b'5' ∷ b'6' ∷ []

-- `pbkdf2_hmac("sha256", …)` refuses a number of rounds below 1.
module _ (pbkdf2 : Text → List ℕ → ℕ → List ℕ) (sha256 : Text → Text) where
  unfoldable pub derive : Text → List ℕ → ℤ → Option (List ℕ)
  derive provided salt (pos zero) = none
  derive provided salt (pos (suc n)) = some (pbkdf2 provided salt (suc n))
  derive provided salt (negsuc n) = none

  unfoldable pub compare_derived : Text → Option (ℤ × List ℕ × List ℕ) → Option Bool
  compare_derived provided none = some false
  compare_derived provided (some (iterations, salt, expected)) =
      derive provided salt iterations >>= λ derived. some (same_bytes derived expected)

  -- The three parts after the scheme, if all of them can be read.
  unfoldable pub read_hash : List Text → Option (ℤ × List ℕ × List ℕ)
  read_hash parts = read_int 10 (get_or parts 1 []) >>= λ iterations.
      unhexlify (get_or parts 2 []) >>= λ salt.
      unhexlify (get_or parts 3 []) >>= λ expected. some (iterations, salt, expected)

  -- Without a hash in the known scheme.
  unfoldable pub verify_plain : User → Text → Bool
  verify_plain user provided =
      if not (is_empty user.password_sha256)
      then same_bytes (lower (sha256 provided)) (lower user.password_sha256)
      else same_bytes user.password provided

  -- By the parts of the hash between the dollars.
  unfoldable pub verify_parts : User → Text → List Text → Option Bool
  verify_parts user provided parts =
      if not (is_empty user.password_hash)
        && (length parts == 4)
        && same_bytes scheme_name (get_or parts 0 [])
      then compare_derived provided (read_hash parts)
      else some (verify_plain user provided)

  unfoldable pub verify_password : User → Text → Option Bool
  verify_password user provided = verify_parts user provided (split b'$' user.password_hash)

  -- With the salt that `secrets` has given.
  unfoldable pub make_password_hash : Text → ℕ → List ℕ → Text
  make_password_hash password iterations salt = join b'$' (
      scheme_name
      ∷ decimal iterations
      ∷ hexlify salt
      ∷ hexlify (pbkdf2 password salt iterations)
      ∷ [])
