-- ===== src/Auth/Base64.antt =====
-- Base 64, and the credentials of a request.
use babilcors.Prelude.{
  ℕ, ◌+◌, ◌-◌, ◌*◌, ◌/◌, ◌%◌, ◌<◌, ◌≡◌, refl, ap, ◌∙◌, Bool, true, false, not, ◌&&◌, Option, none,
  some, List, [], ◌∷◌, ◌==◌, ==_iff, ltb, All, if◌then◌else◌, arith,
}
use babilcors.Net.{is_empty}
use babilcors.Auth.{Text, sextet, three_bytes, two_bytes, one_byte, quad, padded, behind, b64decode}
use babilcors.Prelude.Tables.{passes_under, passes_under_lem}

-- The character of a value below 64.
abbrev pub sextet_char : ℕ → ℕ
sextet_char v =
    if ltb v 26
    then 65 + v
    else if ltb v 52
    then 71 + v
    else if ltb v 62
    then v - 4
    else if v == 62
    then b'+'
    else b'/'

-- `base64.b64encode`.
unfoldable pub b64encode : List ℕ → Text
b64encode [] = []
b64encode (x ∷ []) = sextet_char (x / 4) ∷ sextet_char (x % 4 * 16) ∷ b'=' ∷ b'=' ∷ []
b64encode (x ∷ y ∷ []) =
    sextet_char (x / 4) ∷ sextet_char (x % 4 * 16 + y / 16) ∷ sextet_char (y % 16 * 4) ∷ b'=' ∷ []
b64encode (x ∷ y ∷ z ∷ rest) =
    sextet_char (x / 4)
    ∷ sextet_char (x % 4 * 16 + y / 16)
    ∷ sextet_char (y % 16 * 4 + z / 64)
    ∷ sextet_char (z % 64)
    ∷ b64encode rest

is_value : ℕ → Option ℕ → Bool
is_value v none = false
is_value v (some w) = w == v

is_value-some : (v : ℕ) (o : Option ℕ) → is_value v o ≡ true → o ≡ some v
unfolding is_value
is_value-some v none h = cc
is_value-some v (some w) h = ap some ((==_iff w v).0 h)

sextet_table :
    passes_under (λ v. is_value v (sextet (sextet_char v)) && not (sextet_char v == b'=')) 64 ≡ true
unfolding passes_under is_value sextet
sextet_table = refl

both : (a b : Bool) → a && b ≡ true → (a ≡ true) × (b ≡ true)
both true true h = (refl, refl)
both true false h = cc
both false b h = cc

sextet-char : (v : ℕ) → v < 64 → sextet (sextet_char v) ≡ some v
sextet-char v h =
    is_value-some v (sextet (sextet_char v))
      (both (is_value v (sextet (sextet_char v))) (not (sextet_char v == b'=')) (
        passes_under_lem (λ w. is_value w (sextet (sextet_char w)) && not (sextet_char w == b'='))
          64 v h sextet_table)).0

not_padding : (v : ℕ) → v < 64 → (sextet_char v == b'=') ≡ false
not_padding v h = ground arith

quad-chars :
    (a b c d : ℕ)
    → a < 64
    → b < 64
    → c < 64
    → d < 64
    → quad (sextet_char a) (sextet_char b) (sextet_char c) (sextet_char d)
      ≡ some (three_bytes a b c d)
unfolding quad
quad-chars a b c d ha hb hc hd =
    rw (sextet-char a ha, sextet-char b hb, sextet-char c hc, sextet-char d hd)

three_bytes-lem :
    (x y z : ℕ)
    → x < 256
    → y < 256
    → z < 256
    → three_bytes (x / 4) (x % 4 * 16 + y / 16) (y % 16 * 4 + z / 64) (z % 64) ≡ x ∷ y ∷ z ∷ []
unfolding three_bytes
three_bytes-lem x y z hx hy hz = ground arith

padded-one :
    (a b : ℕ) → a < 64 → b < 64 → padded (sextet_char a) (sextet_char b) b'=' ≡ some (one_byte a b)
unfolding padded
padded-one a b ha hb = rw (sextet-char a ha, sextet-char b hb)

padded-two :
    (a b c : ℕ)
    → a < 64
    → b < 64
    → c < 64
    → padded (sextet_char a) (sextet_char b) (sextet_char c) ≡ some (two_bytes a b c)
unfolding padded
padded-two a b c ha hb hc =
    rw (not_padding c hc) (rw (sextet-char a ha, sextet-char b hb, sextet-char c hc))

decode-padded : (a b c : ℕ) → b64decode (a ∷ b ∷ c ∷ b'=' ∷ []) ≡ padded a b c
unfolding b64decode is_empty
decode-padded a b c = refl

decode-quad :
    (a b c d : ℕ) (rest : Text)
    → (d == b'=') ≡ false
    → b64decode (a ∷ b ∷ c ∷ d ∷ rest) ≡ behind (quad a b c d) (b64decode rest)
unfolding b64decode
decode-quad a b c d rest h = ground (arith, h)

one_byte-lem : (x : ℕ) → x < 256 → one_byte (x / 4) (x % 4 * 16) ≡ x ∷ []
unfolding one_byte
one_byte-lem x h = ground arith

two_bytes-lem :
    (x y : ℕ)
    → x < 256
    → y < 256
    → two_bytes (x / 4) (x % 4 * 16 + y / 16) (y % 16 * 4) ≡ x ∷ y ∷ []
unfolding two_bytes
two_bytes-lem x y hx hy = ground arith

-- Decoding gives the encoded bytes back.
pub b64decode-encode : (bs : List ℕ) → All (λ b. b < 256) bs → b64decode (b64encode bs) ≡ some bs
unfolding b64encode
b64decode-encode [] h = unfold b64decode in refl
b64decode-encode (x ∷ []) (hx, h) =
    decode-padded (sextet_char (x / 4)) (sextet_char (x % 4 * 16)) b'='
    ∙ padded-one (x / 4) (x % 4 * 16) (omega arith) (omega arith)
    ∙ ap some (one_byte-lem x hx)
b64decode-encode (x ∷ y ∷ []) (hx, (hy, h)) =
    decode-padded (sextet_char (x / 4)) (sextet_char (x % 4 * 16 + y / 16))
      (sextet_char (y % 16 * 4))
    ∙ padded-two (x / 4) (x % 4 * 16 + y / 16) (y % 16 * 4) (omega arith) (omega arith)
        (omega arith)
    ∙ ap some (two_bytes-lem x y hx hy)
b64decode-encode (x ∷ y ∷ z ∷ rest) (hx, (hy, (hz, h))) =
    decode-quad (sextet_char (x / 4)) (sextet_char (x % 4 * 16 + y / 16))
      (sextet_char (y % 16 * 4 + z / 64)) (sextet_char (z % 64)) (b64encode rest)
      (not_padding (z % 64) (omega arith))
    ∙ ap (λ u. behind u (b64decode (b64encode rest)))
        (quad-chars (x / 4) (x % 4 * 16 + y / 16) (y % 16 * 4 + z / 64) (z % 64) (omega arith)
            (omega arith) (omega arith) (omega arith)
          ∙ ap some (three_bytes-lem x y z hx hy hz))
    ∙ ap (behind (some (x ∷ y ∷ z ∷ []))) (b64decode-encode rest h)
    ∙ unfold behind in refl
