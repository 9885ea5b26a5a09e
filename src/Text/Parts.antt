-- ===== src/Text/Parts.antt =====
-- Searching and splitting of texts.
use babilcors.Prelude.{
  ℕ, Bool, false, ◌||◌, Option, none, some, List, [], ◌∷◌, ◌++◌, ◌==◌, if◌then◌else◌,
}
use babilcors.Net.{starts_with}

-- `c in text`.
unfoldable pub has_char : ℕ → List ℕ → Bool
has_char c [] = false
has_char c (b ∷ s) = b == c || has_char c s

-- `word in text`.
unfoldable pub has_word : List ℕ → List ℕ → Bool
has_word w [] = starts_with w []
has_word w (b ∷ s) = starts_with w (b ∷ s) || has_word w s

-- A first part that goes on with a character.
abbrev pub in_front : ℕ → List (List ℕ) → List (List ℕ)
in_front b [] = (b ∷ []) ∷ []
in_front b (p ∷ ps) = (b ∷ p) ∷ ps

-- `text.split(sep)`: there is always a part.
unfoldable pub split : ℕ → List ℕ → List (List ℕ)
split sep [] = [] ∷ []
split sep (b ∷ s) = let rest = split sep s in if b == sep then [] ∷ rest else in_front b rest

-- `text.split(sep)[0]`.
unfoldable pub before : ℕ → List ℕ → List ℕ
before sep [] = []
before sep (b ∷ s) = let rest = before sep s in if b == sep then [] else b ∷ rest

-- What stands before and behind the last separator, if there is one: `text.rpartition(sep)`.
unfoldable pub rpartition : ℕ → List ℕ → Option (List ℕ × List ℕ)
rpartition sep [] = none
rpartition sep (b ∷ s) = elim (rpartition sep s) [
  | some (body, last) ↦ some (b ∷ body, last)
  | none ↦ if b == sep then some ([], s) else none
]

-- `sep.join(parts)`.
unfoldable pub join : ℕ → List (List ℕ) → List ℕ
join sep [] = []
join sep (p ∷ []) = p
join sep (p ∷ q ∷ ps) = p ++ sep ∷ join sep (q ∷ ps)

-- `text.strip(c)`, from the left and from the right.
unfoldable pub lstrip_char : ℕ → List ℕ → List ℕ
lstrip_char c [] = []
lstrip_char c (b ∷ s) = if b == c then lstrip_char c s else b ∷ s

abbrev unless_last : ℕ → ℕ → List ℕ → List ℕ
unless_last c b [] = if b == c then [] else b ∷ []
unless_last c b (d ∷ s) = b ∷ d ∷ s

unfoldable pub rstrip_char : ℕ → List ℕ → List ℕ
rstrip_char c [] = []
rstrip_char c (b ∷ s) = unless_last c b (rstrip_char c s)
