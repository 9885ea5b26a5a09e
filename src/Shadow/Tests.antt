-- ===== src/Shadow/Tests.antt =====
-- The theorems on the memory store at concrete inputs.
use babilcors.Prelude.{
  ◌≤◌, ◌≡◌, true, false, none, some, [], ◌∷◌, take, refl, length, or_else, if◌then◌else◌, arith,
}
use babilcors.Prelude.Dict.{string_eq, lookup}
use babilcors.Prelude.Int.{pos}
use babilcors.Net.{starts_with}
use babilcors.Shadow.Search.{
  search, search_in, search_limit, is_passed_over, matches, search-matches,
}
use babilcors.Shadow.{Store, Doc, upsert, history}
use babilcors.Shadow.History.{upserts, run, IsBounded, run-IsBounded, last_of, upsert-lookup}

abbrev empty : Store
empty = record { mem = []; hist = [] }

abbrev position : Doc
position = ("lat", 41) ∷ ("lon", 29) ∷ []

empty-IsBounded : IsBounded empty
unfolding lookup
empty-IsBounded id = omega arith

run-IsBounded_case :
    IsBounded (run (upserts "rover" position 5 ∷ []) empty)
    × (length (history "rover" none (some 9) 0 true (run (upserts "rover" position 5 ∷ []) empty)).0
        ≤ 5000)
run-IsBounded_case =
    run-IsBounded (upserts "rover" position 5 ∷ []) empty "rover" none (some 9) 0 true
      empty-IsBounded

upsert-lookup_case :
    (lookup "lat" (or_else (lookup "rover" (upsert "rover" position 5 empty).mem) []) ≡ (
      if string_eq.beq "updated_unix_ms" "lat"
      then some 5
      else last_of "lat" position (lookup "lat" (or_else (lookup "rover" empty.mem) []))))
    × (string_eq.beq "rover" "base" ≡ false
        → lookup "base" (upsert "rover" position 5 empty).mem ≡ lookup "base" empty.mem)
upsert-lookup_case = upsert-lookup "rover" "base" "lat" position 5 empty

-- Two rovers and a base, of which one rover is asked for.
abbrev three : Store
three = record { mem = ("rover2", position) ∷ ("base", []) ∷ ("rover1", []) ∷ []; hist = [] }

search-matches_example :
    ((search "rover" (pos 1) three).items ≡ take (search_limit (pos 1)) (matches "rover" three.mem))
    × ((search "rover" (pos 1) three).total ≡ length (matches "rover" three.mem))
search-matches_example = search-matches "rover" (pos 1) three

search_counts : (search "rover" (pos 1) three).total ≡ 2
unfolding search search_in is_passed_over starts_with
search_counts = refl
