-- ===== src/Text/Laws.antt =====
-- The laws of splitting.
use babilcors.Prelude.{ℕ, ◌≡◌, ◌≢◌, refl, ap, ◌∙◌, none, some, List, [], ◌∷◌, ◌++◌, All, arith}
use babilcors.Text.Parts.{split, join, rpartition, rstrip_char}

-- The text has no such character.
abbrev pub Lacks : ℕ → List ℕ → Type 0
Lacks c s = All (λ b. b ≢ c) s

pub split-Lacks : (c : ℕ) (s : List ℕ) → Lacks c s → split c s ≡ s ∷ []
unfolding split
split-Lacks c [] h = refl
split-Lacks c (b ∷ s) (h, hs) = rw (split-Lacks c s hs) (ground arith)

pub split-append : (c : ℕ) (s t : List ℕ) → Lacks c s → split c (s ++ c ∷ t) ≡ s ∷ split c t
unfolding split
split-append c [] t h = ground arith
split-append c (b ∷ s) t (h, hs) = rw (split-append c s t hs) (ground arith)

-- Splitting a join gives the parts back.
pub split-join :
    (c : ℕ) (p : List ℕ) (ps : List (List ℕ))
    → All (Lacks c) (p ∷ ps)
    → split c (join c (p ∷ ps)) ≡ p ∷ ps
unfolding join
split-join c p [] (h, hs) = split-Lacks c p h
split-join c p (q ∷ ps) (h, hs) =
    split-append c p (join c (q ∷ ps)) h ∙ ap (◌∷◌ p) (split-join c q ps hs)

rpartition-none : (c : ℕ) (s : List ℕ) → Lacks c s → rpartition c s ≡ none
unfolding rpartition
rpartition-none c [] h = refl
rpartition-none c (b ∷ s) (h, hs) = rw (rpartition-none c s hs) (ground arith)

pub rpartition-append :
    (c : ℕ) (s cs : List ℕ) → Lacks c cs → rpartition c (s ++ c ∷ cs) ≡ some (s, cs)
unfolding rpartition
rpartition-append c [] cs h = rw (rpartition-none c cs h) (ground arith)
rpartition-append c (b ∷ s) cs h = rw (rpartition-append c s cs h)

-- Nothing is taken off a text with another end.
pub rstrip_char-append :
    (c : ℕ) (s : List ℕ) (d : ℕ) (t : List ℕ)
    → Lacks c (d ∷ t)
    → rstrip_char c (s ++ d ∷ t) ≡ s ++ d ∷ t
unfolding rstrip_char
rstrip_char-append c [] d [] (h, hs) = ground arith
rstrip_char-append c [] d (e ∷ t) (h, hs) = rw (rstrip_char-append c [] e t hs)
rstrip_char-append c (b ∷ []) d t h = rw (rstrip_char-append c [] d t h)
rstrip_char-append c (b ∷ b' ∷ s) d t h = rw (rstrip_char-append c (b' ∷ s) d t h)
