-- ===== src/Auth/Tests.antt =====
-- The theorems on credentials and passwords at concrete ones. A hash is the text itself.
use babilcors.Prelude.{
  ℕ, ◌≡◌, refl, inl, inr, true, false, some, List, [], ◌∷◌, ◌++◌, get_or, arith,
}
use babilcors.Net.{same_bytes}
use babilcors.Text.{split}
use babilcors.Text.Utf8.{safe_decode, decode_from, next_byte, first_byte, further_byte, utf8}
use babilcors.Auth.{Text, User, parse_basic_auth, scheme_name, verify_password, make_password_hash}
use babilcors.Auth.Base64.{b64encode}
use babilcors.Auth.Credentials.{basic_blank, parse_basic_auth-encode}
use babilcors.Auth.Hashes.{verify_password-made, verify_password-other_scheme}

-- A name with U+00E9, and a password with U+20AC and U+1F511.
parse_basic_auth-encode_example :
    parse_basic_auth (
      basic_blank
      ++ b64encode
          (utf8 (b'd' ∷ ((0xe9 ∷ b'm' ∷ b'o' ∷ []) ++ b':' ∷ 0x20ac ∷ b':' ∷ 0x1f511 ∷ []))))
    ≡ some (b'd' ∷ 0xe9 ∷ b'm' ∷ b'o' ∷ [], 0x20ac ∷ b':' ∷ 0x1f511 ∷ [])
parse_basic_auth-encode_example =
    parse_basic_auth-encode b'd' (0xe9 ∷ b'm' ∷ b'o' ∷ []) (0x20ac ∷ b':' ∷ 0x1f511 ∷ [])
      (inl (omega arith), (inl (omega arith), (inl (omega arith), (inl (omega arith), tt))))
      (inl (omega arith), (inl (omega arith), (inr (omega arith, omega arith), tt))) (omega arith)

-- A byte that begins no sequence, and a sequence that is cut off.
safe_decode_replaces : safe_decode (0xff ∷ b'a' ∷ 0xf0 ∷ 0x9f ∷ []) ≡ 0xfffd ∷ b'a' ∷ 0xfffd ∷ []
unfolding safe_decode decode_from next_byte first_byte further_byte
safe_decode_replaces = refl

abbrev reveal : Text → List ℕ → ℕ → List ℕ
reveal password salt n = password

abbrev same : Text → Text
same password = password

abbrev made : User
made = record {
  password = [];
  password_sha256 = [];
  password_hash = make_password_hash reveal same (b'x' ∷ []) 210_000 (1 ∷ 255 ∷ []);
}

verify_password-made_example :
    verify_password reveal same made (b'y' ∷ []) ≡ some (same_bytes (b'y' ∷ []) (b'x' ∷ []))
verify_password-made_example =
    verify_password-made reveal same made (b'x' ∷ []) (b'y' ∷ []) 209_999 (1 ∷ 255 ∷ [])
      (omega arith) (omega arith) refl

-- A hash that begins with `bcrypt`.
abbrev other : User
other = record {
  password = [];
  password_sha256 = [];
  password_hash = b'b' ∷ b'c' ∷ b'r' ∷ b'y' ∷ b'p' ∷ b't' ∷ b'$' ∷ b'1' ∷ [];
}

other-scheme : same_bytes scheme_name (get_or (split 36 other.password_hash) 0 []) ≡ false
unfolding split same_bytes
other-scheme = refl

verify_password-other_scheme_example : verify_password reveal same other [] ≡ some true
verify_password-other_scheme_example =
    verify_password-other_scheme reveal same other refl refl other-scheme
