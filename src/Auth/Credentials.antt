-- ===== src/Auth/Credentials.antt =====
-- The header `Authorization` as a client writes it is read back.
use babilcors.Prelude.{
  ℕ, ◌+◌, ◌*◌, ◌/◌, ◌%◌, ◌<◌, ◌≡◌, ◌≢◌, refl, sym, ap, subst, ◌∙◌, inl, false, some, some-injective,
  List, [], ◌∷◌, ◌++◌, append_assoc, All, All-append, or_else, arith,
}
use mathlib.Core.List.{reverse, reverse-append, reverse-reverse}
use babilcors.Rtcm.Messages.{is_space, strip, lstrip}
use babilcors.Net.{is_empty, same_bytes, starts_with, lower, split_colon}
use babilcors.Text.Laws.{Lacks}
use babilcors.Text.Utf8.{decode_from, safe_decode, IsScalar, utf8, safe_decode-utf8, utf8-AreBytes}
use babilcors.Auth.{
  Text, b64decode, b64decode_str, first_word, user_and_password, decode_basic, parse_basic_auth,
}
use babilcors.Auth.Base64.{sextet_char, b64encode, b64decode-encode}

abbrev pub IsUnspaced : Text → Type 0
IsUnspaced s = All (λ c. is_space c ≡ false) s

-- The last character.
record HasLast (s : Text) : Type 0 where
  front : Text
  last : ℕ
  splits : s ≡ front ++ last ∷ []
  no_space : is_space last ≡ false

has_last : (c : ℕ) (s : Text) → IsUnspaced (c ∷ s) → HasLast (c ∷ s)
has_last c [] (h, hs) = record { front = []; last = c; splits = refl; no_space = h }
has_last c (d ∷ s) (h, hs) =
    let l = has_last d s hs in
    record {
      front = c ∷ l.front;
      last = l.last;
      splits = ap (◌∷◌ c) l.splits;
      no_space = l.no_space;
    }

pub lstrip-start : (c : ℕ) (s : Text) → is_space c ≡ false → lstrip (c ∷ s) ≡ c ∷ s
unfolding lstrip
lstrip-start c s h = ground (arith, h)

strip-last :
    (c : ℕ) (s : Text) (e : ℕ)
    → is_space c ≡ false
    → is_space e ≡ false
    → strip (c ∷ (s ++ e ∷ [])) ≡ c ∷ (s ++ e ∷ [])
unfolding strip
strip-last c s e hc he =
    ap (λ u. reverse (lstrip (reverse u))) (lstrip-start c (s ++ e ∷ []) hc)
    ∙ ap (λ u. reverse (lstrip u)) (reverse-append (c ∷ s) (e ∷ []))
    ∙ ap reverse (lstrip-start e (reverse (c ∷ s)) he)
    ∙ ap reverse (sym (reverse-append (c ∷ s) (e ∷ [])))
    ∙ reverse-reverse (c ∷ (s ++ e ∷ []))

-- Nothing is stripped off a text that has no blank at its ends.
pub strip-unspaced :
    (c : ℕ) (s : Text) (d : ℕ) (t : Text)
    → is_space c ≡ false
    → IsUnspaced (d ∷ t)
    → strip (c ∷ (s ++ d ∷ t)) ≡ c ∷ (s ++ d ∷ t)
strip-unspaced c s d t hc ht =
    let l = has_last d t ht in
    let e : c ∷ (s ++ d ∷ t) ≡ c ∷ ((s ++ l.front) ++ l.last ∷ []) =
      ap (λ u. c ∷ (s ++ u)) l.splits ∙ ap (◌∷◌ c) (sym (append_assoc s l.front (l.last ∷ []))) in
    subst (λ u. strip u ≡ u) (sym e) (strip-last c (s ++ l.front) l.last hc l.no_space)

char-unspaced : (v : ℕ) → v < 64 → is_space (sextet_char v) ≡ false
char-unspaced v h = ground arith

b64encode-IsUnspaced : (bs : List ℕ) → All (λ b. b < 256) bs → IsUnspaced (b64encode bs)
unfolding b64encode
b64encode-IsUnspaced [] h = tt
b64encode-IsUnspaced (x ∷ []) (hx, h) = (
  char-unspaced (x / 4) (omega arith),
  (char-unspaced (x % 4 * 16) (omega arith), (refl, (refl, tt))),
)
b64encode-IsUnspaced (x ∷ y ∷ []) (hx, (hy, h)) = (
  char-unspaced (x / 4) (omega arith),
  (
    char-unspaced (x % 4 * 16 + y / 16) (omega arith),
    (char-unspaced (y % 16 * 4) (omega arith), (refl, tt)),
  ),
)
b64encode-IsUnspaced (x ∷ y ∷ z ∷ rest) (hx, (hy, (hz, h))) = (
  char-unspaced (x / 4) (omega arith),
  (
    char-unspaced (x % 4 * 16 + y / 16) (omega arith),
    (
      char-unspaced (y % 16 * 4 + z / 64) (omega arith),
      (char-unspaced (z % 64) (omega arith), b64encode-IsUnspaced rest h),
    ),
  ),
)

split_colon-append : (s t : Text) → Lacks 58 s → split_colon (s ++ 58 ∷ t) ≡ some (s, t)
unfolding split_colon
split_colon-append [] t h = ground arith
split_colon-append (c ∷ s) t (h, hs) = rw (split_colon-append s t hs) (ground arith)

abbrev pub basic_blank : Text
basic_blank = b'B' ∷ b'a' ∷ b's' ∷ b'i' ∷ b'c' ∷ b' ' ∷ []

-- The scheme and the encoded pair, as the two words of the header.
words :
    (c : ℕ) (s : Text)
    → IsUnspaced (c ∷ s)
    → first_word (strip (basic_blank ++ c ∷ s)) ≡ (b'B' ∷ b'a' ∷ b's' ∷ b'i' ∷ b'c' ∷ [], c ∷ s)
words c s h =
    ap first_word (strip-unspaced b'B' (b'a' ∷ b's' ∷ b'i' ∷ b'c' ∷ b' ' ∷ []) c s refl h)
    ∙ (unfold first_word in
        ap (λ (u : Text). (b'B' ∷ b'a' ∷ b's' ∷ b'i' ∷ b'c' ∷ [], u)) (lstrip-start c s h.0))

safe_decode-nil : safe_decode [] ≡ []
unfolding safe_decode decode_from
safe_decode-nil = refl

-- The bytes of a text that is not empty are not what no characters decode to.
decode-nil : (c : ℕ) (t : Text) → All IsScalar (c ∷ t) → b64decode [] ≢ some (utf8 (c ∷ t))
unfolding b64decode
decode-nil c t h e =
    let bytes : [] ≡ utf8 (c ∷ t) = some-injective [] (utf8 (c ∷ t)) e in
    let text : [] ≡ c ∷ t =
      sym safe_decode-nil ∙ ap safe_decode bytes ∙ safe_decode-utf8 (c ∷ t) h in
    cc

decode_basic-word :
    (c : ℕ) (s : Text)
    → decode_basic (b'B' ∷ b'a' ∷ b's' ∷ b'i' ∷ b'c' ∷ [], c ∷ s)
      ≡ user_and_password (split_colon (safe_decode (or_else (b64decode (c ∷ s)) [])))
unfolding decode_basic is_empty same_bytes starts_with lower b64decode_str
decode_basic-word c s = refl

-- A user with a name that has no colon, and any password, both of any code points but surrogates:
-- what a client writes into the header, base 64 of the UTF-8 of the pair, is read back as the
-- name and the password.
pub parse_basic_auth-encode :
    (u : ℕ) (user password : Text)
    → All IsScalar (u ∷ user)
    → All IsScalar password
    → Lacks 58 (u ∷ user)
    → parse_basic_auth (basic_blank ++ b64encode (utf8 (u ∷ (user ++ 58 ∷ password))))
      ≡ some (u ∷ user, password)
unfolding parse_basic_auth
parse_basic_auth-encode u user password hu hp lacks =
    let pair = u ∷ (user ++ 58 ∷ password) in
    let h = All-append IsScalar (u ∷ user) (58 ∷ password) hu (inl (omega arith), hp) in
    let hb = utf8-AreBytes pair h in
    encoded h (b64encode (utf8 pair)) (b64encode-IsUnspaced (utf8 pair) hb)
      (b64decode-encode (utf8 pair) hb)
  where
    encoded :
        All IsScalar (u ∷ (user ++ 58 ∷ password))
        → (e : Text) → IsUnspaced e
        → b64decode e ≡ some (utf8 (u ∷ (user ++ 58 ∷ password)))
        → decode_basic (first_word (strip (basic_blank ++ e))) ≡ some (u ∷ user, password)
    encoded h [] bare d = absurd (decode-nil u (user ++ 58 ∷ password) h d)
    encoded h (c ∷ s) bare d =
        ap decode_basic (words c s bare)
        ∙ decode_basic-word c s
        ∙ ap (λ o. user_and_password (split_colon (safe_decode (or_else o [])))) d
        ∙ ap (λ t. user_and_password (split_colon t))
            (safe_decode-utf8 (u ∷ (user ++ 58 ∷ password)) h)
        ∙ ap user_and_password (split_colon-append (u ∷ user) password lacks)
        ∙ unfold user_and_password is_empty in refl
