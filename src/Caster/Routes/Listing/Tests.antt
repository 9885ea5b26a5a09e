-- ===== src/Caster/Routes/Listing/Tests.antt =====
-- The listing of geofences at a concrete request: alice, an editor, asks for those in a box. Whole
-- numbers stand for floats.
use babilcors.Prelude.{ℕ, true, false, Option, none, some, []}
use babilcors.Prelude.Int.{ℤ, pos}
use babilcors.Text.{read_int}
use babilcors.Geodesy.Whole.{whole_floats}
use babilcors.Json.{Text, codes, Value, int, text, array, object, nil, cons, Fields, end, field}
use babilcors.Caster.Routes.{Host}
use babilcors.Caster.Routes.Geofences.{Caller}
use babilcors.Caster.Routes.Listing.{Query}

abbrev natural : Option ℤ → Option ℕ
natural (some (pos n)) = some n
natural _ = none

abbrev number : Value → Option ℕ
number (int n) = natural (some n)
number (text s) = natural (read_int 10 s)
number _ = none

abbrev host : Host
host = record {
  floats = whole_floats;
  to_float = number;
  of_float = λ x. int (pos x);
  to_int = λ v. none;
  repr = λ v. [];
  conforms = λ schema body. true;
}

abbrev corner : ℕ → ℕ → Value
corner a b = array (cons (int (pos a)) (cons (int (pos b)) nil))

-- A triangle of the owner.
abbrev entry_of : Text → Value
entry_of owner = object (
    field (codes "polygon") (array (cons (corner 0 0) (cons (corner 0 4) (cons (corner 4 4) nil))))
      (field (codes "owner") (text owner) end))

abbrev kept : Fields
kept = field (codes "A1") (entry_of (codes "alice")) end

abbrev all_entries : Fields
all_entries = field (codes "B1") (entry_of (codes "bob")) kept

abbrev alice : Caller
alice = record { is_admin = false; is_editor = true; sub_user = codes "alice" }

abbrev query : Query
query = record { bbox = some (codes "1,1,2,2"); format = none }
