-- ===== src/Net.antt =====
-- Connections: `ip_allowed`, `read_line` and `read_http_headers` of src/utils.py, and
-- `_handle_conn` of src/caster.py up to the handler that it calls. A line is a list of bytes;
-- what `readline` gives is an input, `none` for a timeout. Addresses and networks are those of
-- the library `ipaddress`: any types, with the parsing of an address and membership.
pub mod Headers
pub mod Access
mod Tests
use babilcors.Prelude.{
  ℕ, ◌+◌, ◌≡◌, Bool, true, false, not, ◌&&◌, ◌||◌, Option, none, some, List, [], ◌∷◌, ◌++◌, ◌==◌,
  leb, ltb, length, if◌then◌else◌,
}
use babilcors.Rtcm.Messages.{strip}

unfoldable pub is_empty {ℓ} : {A : Type ℓ} → List A → Bool
is_empty [] = true
is_empty (x ∷ xs) = false

module _ {Ip Network : Type 0} (contains : Network → Ip → Bool) where
  unfoldable pub is_in : Ip → List Network → Bool
  is_in ip [] = false
  is_in ip (n ∷ ns) = if contains n ip then true else is_in ip ns

  -- The address as `ipaddress` reads it, `none` for an exception.
  unfoldable pub ip_allowed : Option Ip → List Network → List Network → Bool
  ip_allowed none allow deny = is_empty allow
  ip_allowed (some ip) allow deny =
      if is_in ip deny then false else if is_empty allow then true else is_in ip allow

-- No line for a timeout, at the end of the stream, and over the limit.
unfoldable pub read_line : ℕ → Option (List ℕ) → Option (List ℕ)
read_line limit none = none
read_line limit (some []) = none
read_line limit (some (b ∷ rest)) = if ltb limit (length (b ∷ rest)) then none else some (b ∷ rest)

unfoldable pub starts_with : List ℕ → List ℕ → Bool
starts_with [] line = true
starts_with (c ∷ cs) [] = false
starts_with (c ∷ cs) (b ∷ line) = (b == c) && starts_with cs line

unfoldable pub same_bytes : List ℕ → List ℕ → Bool
same_bytes a b = (length a == length b) && starts_with a b

-- An empty line: CR LF or LF.
unfoldable pub ends_headers : List ℕ → Bool
ends_headers line = same_bytes (13 ∷ 10 ∷ []) line || same_bytes (10 ∷ []) line

-- What the reading of headers comes to: it waits for a line, it gives up, or it has them all.
pub data Reading : Type 0 where
  waits : Reading
  fails : Reading
  done : List ℕ → Reading

-- The loop of `read_http_headers` over what `readline` gives; `total` is the length of `buf`.
unfoldable pub read_headers : ℕ → ℕ → List (Option (List ℕ)) → List ℕ → Reading
read_headers max_total line_limit [] buf = waits
read_headers max_total line_limit (l ∷ ls) buf = elim (read_line line_limit l) [
  | none ↦ fails
  | some line ↦
      let later = read_headers max_total line_limit ls (buf ++ line) in
      if ltb max_total (length (buf ++ line))
      then fails
      else if ends_headers line
      then done (buf ++ line)
      else later
]

abbrev pub source_prefix : List ℕ
source_prefix = 83 ∷ 79 ∷ 85 ∷ 82 ∷ 67 ∷ 69 ∷ 32 ∷ []

-- GET, POST, PATCH, DELETE, PUT, OPTIONS, each with a blank.
abbrev pub http_prefixes : List (List ℕ)
http_prefixes =
    (71 ∷ 69 ∷ 84 ∷ 32 ∷ [])
    ∷ (80 ∷ 79 ∷ 83 ∷ 84 ∷ 32 ∷ [])
    ∷ (80 ∷ 65 ∷ 84 ∷ 67 ∷ 72 ∷ 32 ∷ [])
    ∷ (68 ∷ 69 ∷ 76 ∷ 69 ∷ 84 ∷ 69 ∷ 32 ∷ [])
    ∷ (80 ∷ 85 ∷ 84 ∷ 32 ∷ [])
    ∷ (79 ∷ 80 ∷ 84 ∷ 73 ∷ 79 ∷ 78 ∷ 83 ∷ 32 ∷ [])
    ∷ []

unfoldable pub starts_with_any : List (List ℕ) → List ℕ → Bool
starts_with_any [] line = false
starts_with_any (p ∷ ps) line = starts_with p line || starts_with_any ps line

-- What becomes of a connection: refused for its address, closed for want of a line, or handed
-- on with its first line.
pub data Handler : Type 0 where
  refused closed unknown : Handler
  source http : List ℕ → Handler

unfoldable pub route : Option (List ℕ) → Handler
route none = closed
route (some line) =
    if starts_with source_prefix line
    then source line
    else if starts_with_any http_prefixes line
    then http line
    else unknown

module _ {Ip Network : Type 0} (contains : Network → Ip → Bool) where
  unfoldable pub handle_conn : Option Ip → List Network → List Network → Option (List ℕ) → Handler
  handle_conn ip allow deny first =
      if not (ip_allowed contains ip allow deny) then refused else route (read_line 8192 first)

-- `ln.split(":", 1)`, `none` without a colon.
unfoldable pub split_colon : List ℕ → Option (List ℕ × List ℕ)
split_colon [] = none
split_colon (c ∷ rest) =
    let later = split_colon rest in
    if c == 58 then some ([], rest) else elim later [ none ↦ none | some (k, v) ↦ some (c ∷ k, v) ]

-- `lower` on ASCII.
unfoldable pub lower : List ℕ → List ℕ
lower [] = []
lower (c ∷ rest) = (if leb 65 c && leb c 90 then c + 32 else c) ∷ lower rest

unfoldable pub set_header : List ℕ → List ℕ → List (List ℕ × List ℕ) → List (List ℕ × List ℕ)
set_header k v [] = (k, v) ∷ []
set_header k v ((j, w) ∷ hs) = if same_bytes j k then (j, v) ∷ hs else (j, w) ∷ set_header k v hs

unfoldable pub add_header :
    Option (List ℕ × List ℕ) → List (List ℕ × List ℕ) → List (List ℕ × List ℕ)
add_header none hs = hs
add_header (some (k, v)) hs = set_header (lower (strip k)) (strip v) hs

-- The loop over the header lines in `_handle_http`, up to a blank line.
unfoldable pub parse_headers : List (List ℕ) → List (List ℕ × List ℕ) → List (List ℕ × List ℕ)
parse_headers [] hs = hs
parse_headers (ln ∷ lines) hs =
    let rest = parse_headers lines (add_header (split_colon ln) hs) in
    if is_empty (strip ln) then hs else rest
