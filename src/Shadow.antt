-- ===== src/Shadow.antt =====
-- The memory store of src/shadow.py. A document is a dictionary of values of any type, here
-- numbers, as those of a position are. Times are in milliseconds.
pub mod History
pub mod Search
mod Tests
use babilcors.Prelude.{
  ℕ, suc, ◌+◌, ◌-◌, min, max, ◌≡◌, Bool, true, false, not, ◌&&◌, ◌||◌, Option, none, some, String,
  List, [], ◌∷◌, ◌++◌, ◌==◌, leb, ltb, length, take, drop, keep_if, if◌then◌else◌, or_else,
}
use mathlib.Core.List.{reverse}
use babilcors.Prelude.Dict.{string_eq, Dict, lookup, insert}

abbrev pub Doc : Type 0
Doc = Dict String ℕ

pub record Row : Type 0 where
  pub ts_unix_ms : ℕ
  pub lat : ℕ
  pub lon : ℕ
  pub shadow : Doc

pub record Store : Type 0 where
  pub mem : Dict String Doc
  pub hist : Dict String (List Row)

abbrev pub hist_maxlen : ℕ
hist_maxlen = 10_000

-- `dict.update`.
unfoldable pub update : Doc → Doc → Doc
update [] doc = doc
update ((k, v) ∷ rest) doc = update rest (insert k v doc)

-- `del h[: len(h) - maxlen]`, if it is longer.
unfoldable pub trim : List Row → List Row
trim h = if ltb hist_maxlen (length h) then drop (length h - hist_maxlen) h else h

unfoldable pub add_row : String → Row → Store → Store
add_row id row s = record s {
  hist = insert id (trim (or_else (lookup id s.hist) [] ++ row ∷ [])) s.hist;
}

-- A position is a payload with both coordinates.
unfoldable pub record_position : String → ℕ → Option ℕ → Option ℕ → Doc → Store → Store
record_position id ts (some lat) (some lon) cur s =
    add_row id (record { ts_unix_ms = ts; lat = lat; lon = lon; shadow = cur }) s
record_position id ts (some lat) none cur s = s
record_position id ts none lon cur s = s

unfoldable pub upsert : String → Doc → ℕ → Store → Store
upsert id payload ts s =
    let cur = insert "updated_unix_ms" ts (update payload (or_else (lookup id s.mem) [])) in
    record_position id ts (lookup "lat" payload) (lookup "lon" payload) cur
      (record s { mem = insert id cur s.mem })

-- `dict(...) or None`: an empty document is `None`.
unfoldable pub as_result : Doc → Option Doc
as_result [] = none
as_result (x ∷ doc) = some (x ∷ doc)

unfoldable pub get : String → Store → Option Doc
get id s = as_result (or_else (lookup id s.mem) [])

unfoldable pub from_ms : Option ℕ → List Row → List Row
from_ms none h = h
from_ms (some start) h = keep_if (λ x. leb start x.ts_unix_ms) h

unfoldable pub until_ms : Option ℕ → List Row → List Row
until_ms none h = h
until_ms (some stop) h = keep_if (λ x. leb x.ts_unix_ms stop) h

-- `max(1, min(int(limit or 100), 5000))`.
unfoldable pub clamp_limit : ℕ → ℕ
clamp_limit limit = max 1 (min (if limit == 0 then 100 else limit) 5000)

-- The items and the total.
unfoldable pub history : String → Option ℕ → Option ℕ → ℕ → Bool → Store → List Row × ℕ
history id start stop limit newest_first s =
    let h = until_ms stop (from_ms start (or_else (lookup id s.hist) [])) in
    (take (clamp_limit limit) (if newest_first then reverse h else h), length h)
