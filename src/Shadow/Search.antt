-- ===== src/Shadow/Search.antt =====
-- `search` of src/shadow.py, on the memory store.
use babilcors.Prelude.{
  ℕ, zero, suc, sym, append_assoc, append-nil, ◌+◌, ◌≤◌, ◌≡◌, refl, ap, ◌∙◌, Bool, false, not, ◌&&◌,
  ◌||◌, String, List, [], ◌∷◌, ◌++◌, ltb, min, max, length, length-append, take-length, take,
  keep_if, if◌then◌else◌, arith, Bool-cases, inl, inr,
}
use babilcors.Prelude.Int.{ℤ, pos_part}
use babilcors.Prelude.Dict.{Dict, string_eq}
use babilcors.Net.{starts_with}
use babilcors.Json.{codes}
use babilcors.Shadow.{Doc, Store}

-- The items that are found and their number, which counts those that are left out as well.
pub record Search : Type 0 where
  pub items : List (String × Doc)
  pub total : ℕ

unfoldable pub is_passed_over : String → String → Bool
is_passed_over query k = not (string_eq.beq query "") && not (starts_with (codes query) (codes k))

-- `max(1, min(limit, 1000))`.
unfoldable pub search_limit : ℤ → ℕ
search_limit limit = max 1 (min (pos_part limit) 1000)

unfoldable pub search_in : String → ℕ → Dict String Doc → Search → Search
search_in query n [] r = r
search_in query n ((k, v) ∷ rest) r =
    let skipped = search_in query n rest r in
    let found = search_in query n rest (record {
      items = if ltb (length r.items) n then r.items ++ (k, v) ∷ [] else r.items;
      total = suc r.total;
    }) in
    if is_passed_over query k then skipped else found

unfoldable pub search : String → ℤ → Store → Search
search query limit s = search_in query (search_limit limit) s.mem (record { items = []; total = 0 })

-- Every key is asked for by an empty query, and by another one the keys that begin with it.
abbrev pub is_asked_for : String → String → Bool
is_asked_for query k = string_eq.beq query "" || starts_with (codes query) (codes k)

-- The documents that are asked for, in the order of the store.
abbrev pub matches : String → Dict String Doc → List (String × Doc)
matches query mem = keep_if (λ e. is_asked_for query e.0) mem

asked_for-not : (query k : String) → is_asked_for query k ≡ not (is_passed_over query k)
unfolding is_passed_over
asked_for-not query k = elim (Bool-cases (string_eq.beq query "")) [
  | inl e ↦ rw e refl
  | inr e ↦ elim (Bool-cases (starts_with (codes query) (codes k))) [
    | inl e' ↦ rw (e, e') refl
    | inr e' ↦ rw (e, e') refl
  ]
]

is_at_limit : (n m : ℕ) → m ≤ n → ltb m n ≡ false → n ≡ m
is_at_limit n m h full = ground (arith, full)

take_short : (n : ℕ) (xs : List (String × Doc)) → length xs ≤ n → take n xs ≡ xs
take_short zero [] h = refl
take_short (suc n) [] h = refl
take_short zero (x ∷ xs) h = absurd (omega arith)
take_short (suc n) (x ∷ xs) h = ap (◌∷◌ x) (take_short n xs (omega arith))

search_in-matches :
    (query : String) (n : ℕ) (mem : Dict String Doc) (r : Search)
    → length r.items ≤ n
    → ((search_in query n mem r).items ≡ take n (r.items ++ matches query mem))
      × ((search_in query n mem r).total ≡ r.total + length (matches query mem))
unfolding search_in
search_in-matches query n [] r h =
    (sym (ap (take n) (append-nil r.items) ∙ take_short n r.items h), omega arith)
search_in-matches query n ((k, v) ∷ rest) r h = elim (Bool-cases (is_passed_over query k)) [
  | inl passed ↦ rw (asked_for-not query k, passed) (search_in-matches query n rest r h)
  | inr matched ↦
      rw (asked_for-not query k, matched)
        (elim (Bool-cases (ltb (length r.items) n)) [
          | inl room ↦ rw room (
              let grown : Search = record { items = r.items ++ (k, v) ∷ []; total = suc r.total } in
              let ih =
                search_in-matches query n rest grown
                  (ground (arith, room, length-append r.items ((k, v) ∷ []))) in
              (
                ih.0 ∙ ap (take n) (append_assoc r.items ((k, v) ∷ []) (matches query rest)),
                ih.1 ∙ omega arith,
              ))
          | inr full ↦ rw full (
              let ih =
                search_in-matches query n rest (record { items = r.items; total = suc r.total })
                  h in
              let is_full = is_at_limit n (length r.items) h full in
              (
                ih.0
                    ∙ take-length r.items (matches query rest) n is_full
                    ∙ sym (take-length r.items ((k, v) ∷ matches query rest) n is_full),
                ih.1 ∙ omega arith,
              ))
        ])
]

-- What is answered are the first documents whose keys begin with the query, in the order of the
-- store, up to the limit within 1 and 1000, and the number of all such documents; with an empty
-- query they are all.
pub search-matches :
    (query : String) (limit : ℤ) (s : Store)
    → ((search query limit s).items ≡ take (search_limit limit) (matches query s.mem))
      × ((search query limit s).total ≡ length (matches query s.mem))
unfolding search
search-matches query limit s =
    let (items, total) =
      search_in-matches query (search_limit limit) s.mem (record { items = []; total = 0 })
        (omega arith) in
    (items, total ∙ omega arith)
