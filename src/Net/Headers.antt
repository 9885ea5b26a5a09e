-- ===== src/Net/Headers.antt =====
-- The reading of headers ends, and is bounded.
use babilcors.Prelude.{
  ℕ, ◌+◌, ◌≤◌, ◌<◌, ◌≡◌, ap, ◌∙◌, ◌⊎◌, inl, inr, Bool, true, false, Option, none, some,
  some-injective, List, [], ◌∷◌, ◌++◌, length, length-append, ltb, if◌then◌else◌, arith, Bool-cases,
  Option-cases,
}
use mathlib.Core.Option.{none-ne-some}
use babilcors.Net.{read_line, ends_headers, Reading, fails, done, read_headers}

-- A line that is given has at least one byte.
read_line-size :
    (limit : ℕ) (l : Option (List ℕ)) (line : List ℕ)
    → read_line limit l ≡ some line
    → 0 < length line
unfolding read_line
read_line-size limit none line e = ground (arith, e)
read_line-size limit (some []) line e = ground (arith, e)
read_line-size limit (some (b ∷ rest)) line e = elim (Bool-cases (ltb limit (length (b ∷ rest)))) [
  | inl over ↦ absurd (none-ne-some line (rw over at e))
  | inr within ↦
      let given : (b ∷ rest) ≡ line = some-injective (b ∷ rest) line (rw within at e) in
      omega (arith, ap length given)
]

read_headers-fails :
    (m limit : ℕ) (l : Option (List ℕ)) (ls : List (Option (List ℕ))) (buf : List ℕ)
    → read_line limit l ≡ none
    → read_headers m limit (l ∷ ls) buf ≡ fails
unfolding read_headers
read_headers-fails m limit l ls buf e = ground (arith, e)

read_headers-line :
    (m limit : ℕ) (l : Option (List ℕ)) (ls : List (Option (List ℕ))) (buf line : List ℕ)
    → read_line limit l ≡ some line
    → read_headers m limit (l ∷ ls) buf ≡ (
        if ltb m (length (buf ++ line))
        then fails
        else if ends_headers line
        then done (buf ++ line)
        else read_headers m limit ls (buf ++ line))
unfolding read_headers
read_headers-line m limit l ls buf line e = ground (arith, e)

given_up : (over : Bool) (y : Reading) → over ≡ true → (if over then fails else y) ≡ fails
given_up over y e = ground (arith, e)

go_on :
    (over last : Bool) (x y : Reading)
    → over ≡ false
    → last ≡ false
    → (if over then fails else if last then x else y) ≡ y
go_on over last x y e f = ground (arith, e, f)

stop :
    (over last : Bool) (x y : Reading)
    → over ≡ false
    → last ≡ true
    → (if over then fails else if last then x else y) ≡ x
stop over last x y e f = ground (arith, e, f)

-- Whatever a client sends, and however slowly, the reading of its headers is over after at most
-- one line more than there are bytes allowed, and what it then gives is within that bound.
pub read_headers_ends :
    (m limit : ℕ) (ls : List (Option (List ℕ))) (buf : List ℕ)
    → m < length ls + length buf
    → 0 < length ls
    → (read_headers m limit ls buf ≡ fails)
      ⊎ ((r : List ℕ) × (read_headers m limit ls buf ≡ done r) × (length r ≤ m))
read_headers_ends m limit [] buf h k = ground (arith, k)
read_headers_ends m limit (l ∷ ls) buf h k = elim (Option-cases (read_line limit l)) [
  | inl e ↦ inl (read_headers-fails m limit l ls buf e)
  | inr (line, e) ↦
      let step = read_headers-line m limit l ls buf line e in
      elim (Bool-cases (ltb m (length (buf ++ line)))) [
        | inl over ↦ inl (
            step
            ∙ given_up (ltb m (length (buf ++ line)))
                (if ends_headers line
                  then done (buf ++ line)
                  else read_headers m limit ls (buf ++ line))
                over)
        | inr within ↦ elim (Bool-cases (ends_headers line)) [
          | inl last ↦ inr (
            buf ++ line,
            step
                ∙ stop (ltb m (length (buf ++ line))) (ends_headers line) (done (buf ++ line))
                    (read_headers m limit ls (buf ++ line)) within last,
            ground (arith, within),
          )
          | inr more ↦
              let on : read_headers m limit (l ∷ ls) buf ≡ read_headers m limit ls (buf ++ line) =
                step
                ∙ go_on (ltb m (length (buf ++ line))) (ends_headers line) (done (buf ++ line))
                    (read_headers m limit ls (buf ++ line)) within more in
              let size = read_line-size limit l line e in
              let bound : length (buf ++ line) ≤ m = ground (arith, within) in
              let sum = length-append buf line in
              elim (read_headers_ends m limit ls (buf ++ line) (omega (arith, h, size, sum))
                (omega (arith, h, size, sum, bound))) [
                  | inl f ↦ inl (on ∙ f)
                  | inr (r, found, small) ↦ inr (r, on ∙ found, small)
                ]
        ]
      ]
]
