-- ===== src/Json.antt =====
-- JSON values as Python's `json` reads them, and what the program does with them. Texts and keys
-- are lists of code points; a number with a point or an exponent is kept as its text.
pub mod Laws
use Prim.Native.Char.{code}
use Prim.Native.String.{String}
use babilcors.Prelude.{
  ℕ, zero, suc, ◌≡◌, refl, Bool, true, false, not, ◌&&◌, ◌||◌, Option, none, some, List, [], ◌∷◌,
  ◌++◌, ◌==◌, leb, ltb, if◌then◌else◌, or_else,
}
use babilcors.Prelude.Int.{ℤ, pos, negsuc}
use babilcors.Text.{before, read_int}

abbrev pub Text : Type 0
Text = List ℕ

-- The code points of a literal.
abbrev pub codes : String → Text
codes String.[] = []
codes (String.◌∷◌ c s) = code c ∷ codes s

mutual
  pub data Value : Type 0 where
    null : Value
    bool : Bool → Value
    int : ℤ → Value
    float : Text → Value
    text : Text → Value
    array : Items → Value
    object : Fields → Value

  pub data Items : Type 0 where
    nil : Items
    cons : Value → Items → Items

  pub data Fields : Type 0 where
    end : Fields
    field : Text → Value → Fields → Fields

unfoldable pub same_text : Text → Text → Bool
same_text [] [] = true
same_text [] (d ∷ u) = false
same_text (c ∷ t) [] = false
same_text (c ∷ t) (d ∷ u) = (c == d) && same_text t u

-- `d.get(k)`, `d[k] = v`, `del d[k]`, on a dictionary.
unfoldable pub get : Text → Fields → Option Value
get k end = none
get k (field j v fs) = if same_text j k then some v else get k fs

unfoldable pub put : Text → Value → Fields → Fields
put k v end = field k v end
put k v (field j w fs) = if same_text j k then field j v fs else field j w (put k v fs)

unfoldable pub del : Text → Fields → Fields
del k end = end
del k (field j w fs) = let rest = del k fs in if same_text j k then rest else field j w rest

unfoldable pub has_key : Text → Fields → Bool
has_key k end = false
has_key k (field j v fs) = same_text j k || has_key k fs

-- Only zeros in front of the exponent.
unfoldable pub is_zero_text : Text → Bool
is_zero_text [] = true
is_zero_text (c ∷ s) =
    let rest = is_zero_text s in
    if c == 101 || c == 69 then true else if leb 49 c && leb c 57 then false else rest

-- What counts as true.
unfoldable pub truthy : Value → Bool
truthy null = false
truthy (bool b) = b
truthy (int (pos zero)) = false
truthy (int (pos (suc n))) = true
truthy (int (negsuc n)) = true
truthy (float s) = not (is_zero_text s)
truthy (text []) = false
truthy (text (c ∷ s)) = true
truthy (array nil) = false
truthy (array (cons v vs)) = true
truthy (object end) = false
truthy (object (field k v fs)) = true

-- The dictionary, `none` for another value, of which an operation raises an exception.
unfoldable pub as_object : Value → Option Fields
as_object (object fs) = some fs
as_object _ = none

unfoldable pub as_array : Value → Option Items
as_array (array vs) = some vs
as_array _ = none

-- `d.get(k)`, which is `None` for a missing key.
unfoldable pub get_or_null : Text → Fields → Value
get_or_null k fs = or_else (get k fs) null

unfoldable pub same_value : Text → Value → Bool
same_value t (text s) = same_text s t
same_value t _ = false

-- `t in values`, `values.append(t)` and `values.remove(t)` for a text.
unfoldable pub has_item : Text → Items → Bool
has_item t nil = false
has_item t (cons v vs) = same_value t v || has_item t vs

unfoldable pub append : Items → Value → Items
append nil v = cons v nil
append (cons w vs) v = cons w (append vs v)

unfoldable pub remove_item : Text → Items → Items
remove_item t nil = nil
remove_item t (cons v vs) = if same_value t v then vs else cons v (remove_item t vs)

abbrev one_by_one : Text → Items
one_by_one [] = nil
one_by_one (c ∷ s) = cons (text (c ∷ [])) (one_by_one s)

abbrev keys : Fields → Items
keys end = nil
keys (field k v fs) = cons (text k) (keys fs)

-- `list(v)`.
unfoldable pub list_of : Value → Option Items
list_of (array vs) = some vs
list_of (text s) = some (one_by_one s)
list_of (object fs) = some (keys fs)
list_of _ = none

-- `d.setdefault(k, {})`, and `d.get(k) or {}`.
unfoldable pub or_default : Text → Fields → Value
or_default k fs = or_else (get k fs) (object end)

unfoldable pub or_empty : Text → Fields → Value
or_empty k fs = if truthy (get_or_null k fs) then get_or_null k fs else object end
