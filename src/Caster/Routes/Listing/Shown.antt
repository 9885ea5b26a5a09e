-- ===== src/Caster/Routes/Listing/Shown.antt =====
-- Which geofences a GET answers.
use babilcors.Prelude.{◌≡◌, ◌↔◌, ◌⊎◌, Bool, true, false, Option, none, some}
use babilcors.Geofence.{Box}
use babilcors.Json.{Text, Value, Fields, end, field}
use babilcors.Caster.Routes.{Host}
use babilcors.Caster.Routes.Listing.{is_within, is_own}

-- An entry of a dictionary.
pub IsIn : Text → Value → Fields → Type 0
IsIn gid g end = ⊥
IsIn gid g (field j v gf) = ((j ≡ gid) × (v ≡ g)) ⊎ IsIn gid g gf

module _ (keep : Value → Option Bool) (gid : Text) (g : Value) where
  abbrev Selects : Fields → Fields → Type 0
  Selects gf out = IsIn gid g out ↔ (IsIn gid g gf × (keep g ≡ some true))

-- What a stage of the selection leaves in.
abbrev Stage : (Value → Type 0) → Fields → Fields → Type 0
Stage P gf out = (gid : Text) (g : Value) → IsIn gid g out ↔ (IsIn gid g gf × P g)

module _ (H : Host) where
  -- Whether a geofence is the caller's, if he is shown only his own.
  pub IsFor : Bool → Text → Value → Type 0
  IsFor false sub g = Unit
  IsFor true sub g = is_own H sub g ≡ some true

  -- Whether it is in the box that is asked for, if there is one.
  pub IsInBox : Option (Box H.floats) → Value → Type 0
  IsInBox none g = Unit
  IsInBox (some q) g = is_within H q g ≡ some true
