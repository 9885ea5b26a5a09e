-- ===== src/Nmea/Fields.antt =====
-- The fields of a sealed sentence are what the parsers of src/nmea.py read.
use babilcors.Prelude.{
  ℕ, zero, suc, ◌+◌, ◌≤◌, ◌<◌, ◌≡◌, ◌≢◌, refl, ap, ◌∙◌, true, false, none, List, [], ◌∷◌, ◌++◌,
  append_assoc, ge→ltb, length, get_or, All, All-append, arith,
}
use babilcors.Text.{split, join, in_front}
use babilcors.Text.Laws.{Lacks, split-join}
use babilcors.Nmea.{Numbers, xor_from, checksum_ok, is_sentence, part, parse_gsv, parse_zda}
use babilcors.Nmea.Sentences.{gga_fields, parse_gga, parse_gsa, parse_rmc, parse_vtg}
use babilcors.Nmea.Checksum.{
  AreBytes, xor_from-lt, hex2, hex2-Lacks, seal, is_sentence-seal, checksum_ok-changed,
}

-- The parts with a text behind the last of them.
abbrev ending : List (List ℕ) → List ℕ → List (List ℕ)
ending [] t = []
ending (p ∷ []) t = (p ++ t) ∷ []
ending (p ∷ q ∷ ps) t = p ∷ ending (q ∷ ps) t

join-ending :
    (c : ℕ) (p : List ℕ) (ps : List (List ℕ)) (t : List ℕ)
    → join c (p ∷ ps) ++ t ≡ join c (ending (p ∷ ps) t)
unfolding join
join-ending c p [] t = refl
join-ending c p (q ∷ []) t = append_assoc p (c ∷ q) t
join-ending c p (q ∷ r ∷ ps) t =
    append_assoc p (c ∷ join c (q ∷ r ∷ ps)) t ∙ ap (λ u. p ++ c ∷ u) (join-ending c q (r ∷ ps) t)

ending-Lacks :
    (c : ℕ) (ps : List (List ℕ)) (t : List ℕ)
    → All (Lacks c) ps
    → Lacks c t
    → All (Lacks c) (ending ps t)
ending-Lacks c [] t h k = tt
ending-Lacks c (p ∷ []) t (h, hs) k = (All-append (λ b. b ≢ c) p t h k, tt)
ending-Lacks c (p ∷ q ∷ ps) t (h, hs) k = (h, ending-Lacks c (q ∷ ps) t hs k)

get_or-ending :
    (i : ℕ) (ps : List (List ℕ)) (t : List ℕ)
    → suc i < length ps
    → get_or (ending ps t) i [] ≡ get_or ps i []
get_or-ending i [] t h = absurd (omega arith)
get_or-ending i (p ∷ []) t h = absurd (omega arith)
get_or-ending zero (p ∷ q ∷ ps) t h = refl
get_or-ending (suc i) (p ∷ q ∷ ps) t h = get_or-ending i (q ∷ ps) t (omega arith)

length-ending : (ps : List (List ℕ)) (t : List ℕ) → length (ending ps t) ≡ length ps
length-ending [] t = refl
length-ending (p ∷ []) t = refl
length-ending (p ∷ q ∷ ps) t = ap suc (length-ending (q ∷ ps) t)

split-ending :
    (c : ℕ) (p : List ℕ) (ps : List (List ℕ)) (t : List ℕ)
    → All (Lacks c) (ending (p ∷ ps) t)
    → split c (join c (ending (p ∷ ps) t)) ≡ ending (p ∷ ps) t
split-ending c p [] t h = split-join c (p ++ t) [] h
split-ending c p (q ∷ ps) t h = split-join c p (ending (q ∷ ps) t) h

in_front-get :
    (b i : ℕ) (ps : List (List ℕ)) → get_or (in_front b ps) (suc i) [] ≡ get_or ps (suc i) []
in_front-get b i [] = refl
in_front-get b i (p ∷ ps) = refl

length-in_front : (b : ℕ) (ps : List (List ℕ)) → length ps ≤ length (in_front b ps)
length-in_front b [] = omega arith
length-in_front b (p ∷ ps) = omega arith

hex2-no_comma : (v : ℕ) → v < 256 → Lacks 44 (42 ∷ hex2 v)
hex2-no_comma v h = (omega arith, (ground arith, (ground arith, tt)))

join-AreBytes : (ps : List (List ℕ)) → All AreBytes ps → AreBytes (join 44 ps)
unfolding join
join-AreBytes [] h = tt
join-AreBytes (p ∷ []) (h, hs) = h
join-AreBytes (p ∷ q ∷ ps) (h, hs) =
    All-append (λ b. b < 256) p (44 ∷ join 44 (q ∷ ps)) h (omega arith, join-AreBytes (q ∷ ps) hs)

-- The fields of a sentence: texts of bytes without a comma.
pub record AreFields (ps : List (List ℕ)) : Type 0 where
  pub bytes : All AreBytes ps
  pub no_comma : All (Lacks 44) ps

abbrev checksum_of : List (List ℕ) → List ℕ
checksum_of ps = 42 ∷ hex2 (xor_from 0 (join 44 ps))

split-dollar : (s : List ℕ) → split 44 (36 ∷ s) ≡ in_front 36 (split 44 s)
unfolding split
split-dollar s = ground arith

split-seal :
    (p : List ℕ) (ps : List (List ℕ))
    → AreFields (p ∷ ps)
    → split 44 (seal (join 44 (p ∷ ps))) ≡ in_front 36 (ending (p ∷ ps) (checksum_of (p ∷ ps)))
split-seal p ps h =
    let v = xor_from 0 (join 44 (p ∷ ps)) in
    let small = xor_from-lt 0 (join 44 (p ∷ ps)) (omega arith) (join-AreBytes (p ∷ ps) h.bytes) in
    split-dollar (join 44 (p ∷ ps) ++ checksum_of (p ∷ ps))
    ∙ ap (λ u. in_front 36 (split 44 u)) (join-ending 44 p ps (checksum_of (p ∷ ps)))
    ∙ ap (in_front 36) (
        split-ending 44 p ps (checksum_of (p ∷ ps))
          (ending-Lacks 44 (p ∷ ps) (checksum_of (p ∷ ps)) h.no_comma (hex2-no_comma v small)))

-- Neither the first part nor the last: the part of the sentence is the field.
part-seal :
    (p : List ℕ) (ps : List (List ℕ)) (i : ℕ)
    → AreFields (p ∷ ps)
    → i + 2 < length (p ∷ ps)
    → part (split 44 (seal (join 44 (p ∷ ps)))) (suc i) ≡ part (p ∷ ps) (suc i)
part-seal p ps i h k =
    ap (λ u. part u (suc i)) (split-seal p ps h)
    ∙ in_front-get 36 i (ending (p ∷ ps) (checksum_of (p ∷ ps)))
    ∙ get_or-ending (suc i) (p ∷ ps) (checksum_of (p ∷ ps)) (omega arith)

length-seal :
    (p : List ℕ) (ps : List (List ℕ))
    → AreFields (p ∷ ps)
    → length (p ∷ ps) ≤ length (split 44 (seal (join 44 (p ∷ ps))))
length-seal p ps h =
    let same = ap (length {A = List ℕ}) (split-seal p ps h) in
    omega (
      arith,
      same,
      length-in_front 36 (ending (p ∷ ps) (checksum_of (p ∷ ps))),
      length-ending (p ∷ ps) (checksum_of (p ∷ ps)),
    )

not_sentence : (line : List ℕ) → checksum_ok line ≡ false → is_sentence line ≡ false
unfolding is_sentence
not_sentence line e = ground (arith, e)

is_sentence-checksum_ok : (line : List ℕ) → is_sentence line ≡ true → checksum_ok line ≡ true
unfolding is_sentence
is_sentence-checksum_ok line e = ground (arith, e)

module _ (N : Numbers) where
  Agree : List (List ℕ) → List (List ℕ) → Type 0
  Agree ps qs = (i : ℕ) → i < 9 → part ps (suc i) ≡ part qs (suc i)

  gga_fields-Agree : (ps qs : List (List ℕ)) → Agree ps qs → gga_fields N ps ≡ gga_fields N qs
  unfolding gga_fields Agree
  gga_fields-Agree ps qs h = rw (
    h 1 (omega arith),
    h 2 (omega arith),
    h 3 (omega arith),
    h 4 (omega arith),
    h 5 (omega arith),
    h 6 (omega arith),
    h 7 (omega arith),
  )

  -- The dollar and the checksum do not change what is read from the fields between.
  pub parse_gga-fields :
      (p : List ℕ) (ps : List (List ℕ))
      → AreFields (p ∷ ps)
      → 15 ≤ length (p ∷ ps)
      → parse_gga N (seal (join 44 (p ∷ ps))) ≡ gga_fields N (p ∷ ps)
  unfolding parse_gga Agree
  parse_gga-fields p ps h long =
      let line = seal (join 44 (p ∷ ps)) in
      let enough = ge→ltb (length (split 44 line)) 15 (omega (arith, length-seal p ps h)) in
      rw (is_sentence-seal (join 44 (p ∷ ps)) (join-AreBytes (p ∷ ps) h.bytes), enough)
        (gga_fields-Agree (split 44 line) (p ∷ ps) (λ i k. part-seal p ps i h (omega arith)))

  -- No parser takes the text.
  abbrev pub IsRefused : List ℕ → Type 0
  IsRefused line =
      (parse_gga N line ≡ none)
      × (parse_gsa N line ≡ none)
      × (parse_rmc N line ≡ none)
      × (parse_vtg N line ≡ none)
      × (parse_gsv line ≡ none)
      × (parse_zda line ≡ none)

  unchecked : (line : List ℕ) → is_sentence line ≡ false → IsRefused line
  unfolding parse_gga parse_gsa parse_rmc parse_vtg parse_gsv parse_zda
  unchecked line e = (rw e, rw e, rw e, rw e, rw e, rw e)

  -- A sealed sentence is refused by every parser when one character between the dollar and the
  -- star of its checksum is replaced by another one.
  pub changed-IsRefused :
      (s t : List ℕ) (a b : ℕ)
      → AreBytes s
      → AreBytes t
      → a < 256
      → b < 256
      → a ≢ b
      → IsRefused (36 ∷ ((s ++ b ∷ t) ++ 42 ∷ hex2 (xor_from 0 (s ++ a ∷ t))))
  changed-IsRefused s t a b hs ht ha hb differ =
      let whole = All-append (λ c. c < 256) s (a ∷ t) hs (ha, ht) in
      let cs = hex2 (xor_from 0 (s ++ a ∷ t)) in
      let no_star =
        hex2-Lacks (xor_from 0 (s ++ a ∷ t)) (xor_from-lt 0 (s ++ a ∷ t) (omega arith) whole) in
      unchecked (36 ∷ ((s ++ b ∷ t) ++ 42 ∷ cs)) (
        not_sentence (36 ∷ ((s ++ b ∷ t) ++ 42 ∷ cs)) (
          checksum_ok-changed 36 s t cs a b hs ht ha hb no_star differ
            (is_sentence-checksum_ok (seal (s ++ a ∷ t)) (is_sentence-seal (s ++ a ∷ t) whole))))
