-- ===== src/Shadow/History.antt =====
-- What a device's document and its history hold.
use babilcors.Prelude.{
  ℕ, ◌-◌, ◌≤◌, ◌≡◌, refl, ap, ◌∙◌, Bool, false, Option, none, some, String, List, [], ◌∷◌, ◌++◌,
  length, length-drop, length-take, if◌then◌else◌, or_else, arith,
}
use mathlib.Core.List.{reverse}
use babilcors.Prelude.Dict.{string_eq, lookup, insert, lookup-insert, beq_refl}
use babilcors.Shadow.{
  Doc, Row, Store, hist_maxlen, update, trim, add_row, record_position, upsert, from_ms, until_ms,
  clamp_limit, history,
}

pub data Upsert : Type 0 where
  upserts : String → Doc → ℕ → Upsert

pub run : List Upsert → Store → Store
run [] s = s
run (upserts id payload ts ∷ us) s = run us (upsert id payload ts s)

-- Every history is within its bound.
abbrev pub IsBounded : Store → Type 0
IsBounded s = (id : String) → length (or_else (lookup id s.hist) []) ≤ hist_maxlen

trim-le : (h : List Row) → length (trim h) ≤ hist_maxlen
unfolding trim
trim-le h = ground (arith, length-drop (length h - hist_maxlen) h)

add_row-IsBounded :
    (id : String) (row : Row) (s : Store) → IsBounded s → IsBounded (add_row id row s)
unfolding add_row
add_row-IsBounded id row s h j =
    let trimmed = trim (or_else (lookup id s.hist) [] ++ row ∷ []) in
    rw (lookup-insert id j trimmed s.hist)
      (ground (arith, trim-le (or_else (lookup id s.hist) [] ++ row ∷ []), h j))

record_position-IsBounded :
    (id : String) (ts : ℕ) (lat lon : Option ℕ) (cur : Doc) (s : Store)
    → IsBounded s
    → IsBounded (record_position id ts lat lon cur s)
unfolding record_position
record_position-IsBounded id ts (some lat) (some lon) cur s h =
    add_row-IsBounded id (record { ts_unix_ms = ts; lat = lat; lon = lon; shadow = cur }) s h
record_position-IsBounded id ts (some lat) none cur s h = h
record_position-IsBounded id ts none lon cur s h = h

upsert-IsBounded :
    (id : String) (p : Doc) (ts : ℕ) (s : Store) → IsBounded s → IsBounded (upsert id p ts s)
unfolding upsert
upsert-IsBounded id p ts s h =
    let cur = insert "updated_unix_ms" ts (update p (or_else (lookup id s.mem) [])) in
    record_position-IsBounded id ts (lookup "lat" p) (lookup "lon" p) cur
      (record s { mem = insert id cur s.mem }) h

-- After any updates, no device's history has more than 10,000 rows, and a request for a history
-- gives at least no more rows than 5000.
pub run-IsBounded :
    (us : List Upsert) (s : Store) (id : String) (start stop : Option ℕ) (limit : ℕ)
    (newest_first : Bool)
    → IsBounded s
    → IsBounded (run us s) × (length (history id start stop limit newest_first (run us s)).0 ≤ 5000)
unfolding run history clamp_limit
run-IsBounded [] s id start stop limit newest_first h =
    let rows = until_ms stop (from_ms start (or_else (lookup id s.hist) [])) in
    (
      h,
      omega (arith, length-take (clamp_limit limit) (if newest_first then reverse rows else rows)),
    )
run-IsBounded (upserts d p ts ∷ us) s id start stop limit newest_first h =
    run-IsBounded us (upsert d p ts s) id start stop limit newest_first
      (upsert-IsBounded d p ts s h)

-- The document that `update` leaves: the last value of the payload for a key, or the old one.
abbrev pub last_of : String → Doc → Option ℕ → Option ℕ
last_of k [] o = o
last_of k ((j, v) ∷ rest) o = last_of k rest (if string_eq.beq j k then some v else o)

update-lookup : (k : String) (p doc : Doc) → lookup k (update p doc) ≡ last_of k p (lookup k doc)
unfolding update
update-lookup k [] doc = refl
update-lookup k ((j, v) ∷ rest) doc =
    update-lookup k rest (insert j v doc) ∙ ap (last_of k rest) (lookup-insert j k v doc)

record_position-mem :
    (id : String) (ts : ℕ) (lat lon : Option ℕ) (cur : Doc) (s : Store)
    → (record_position id ts lat lon cur s).mem ≡ s.mem
unfolding record_position add_row
record_position-mem id ts (some lat) (some lon) cur s = refl
record_position-mem id ts (some lat) none cur s = refl
record_position-mem id ts none lon cur s = refl

-- An update of a device merges the payload into its document, the last value of a key first,
-- stamps it with the time, and leaves the documents of other devices as they are.
pub upsert-lookup :
    (id j k : String) (p : Doc) (ts : ℕ) (s : Store)
    → (lookup k (or_else (lookup id (upsert id p ts s).mem) []) ≡ (
        if string_eq.beq "updated_unix_ms" k
        then some ts
        else last_of k p (lookup k (or_else (lookup id s.mem) []))))
      × (string_eq.beq id j ≡ false → lookup j (upsert id p ts s).mem ≡ lookup j s.mem)
unfolding upsert
upsert-lookup id j k p ts s =
    let old = or_else (lookup id s.mem) [] in
    let cur = insert "updated_unix_ms" ts (update p old) in
    let s₁ : Store = record s { mem = insert id cur s.mem } in
    let mem_is = record_position-mem id ts (lookup "lat" p) (lookup "lon" p) cur s₁ in
    let found : lookup id (insert id cur s.mem) ≡ some cur =
      lookup-insert id id cur s.mem
      ∙ ap (λ b. if b then some cur else lookup id s.mem) (beq_refl id) in
    (
      ap (λ d. lookup k (or_else (lookup id d) [])) mem_is
          ∙ ap (λ o. lookup k (or_else o [])) found
          ∙ lookup-insert "updated_unix_ms" k ts (update p old)
          ∙ ap (λ o. if string_eq.beq "updated_unix_ms" k then some ts else o)
              (update-lookup k p old),
      λ other.
          ap (lookup j) mem_is
          ∙ lookup-insert id j cur s.mem
          ∙ ap (λ b. if b then some cur else lookup j s.mem) other,
    )
