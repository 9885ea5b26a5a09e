-- ===== src/Caster/Reading/Position.antt =====
-- GGA in `_rover_read_loop` of src/caster.py: the jump of a position, and the geofence.
use babilcors.Prelude.{
  ℕ, Bool, true, false, not, ◌&&◌, Option, none, some, String, List, [], ◌∷◌, ◌++◌, if◌then◌else◌,
  or_else, ◌>>=◌,
}
use babilcors.Prelude.Int.{pos}
use babilcors.Prelude.Dict.{string_eq, lookup}
use babilcors.Net.{same_bytes, lower}
use babilcors.Nmea.{is_zero}
use babilcors.Nmea.Sentences.{Gga}
use babilcors.Geofence.{Point, point_in_polygon}
use babilcors.Geodesy.{Maths, haversine_m}
use babilcors.Caster.Reading.{
  Float, Rover, Clock, go_on, device, with_effects, Entry, null, blank, fence, Config, position,
  Effect, event, upsert, ends, Turn,
}

abbrev block : List ℕ
block = b'b' ∷ b'l' ∷ b'o' ∷ b'c' ∷ b'k' ∷ []

unfoldable pub is_block : List ℕ → Bool
is_block mode = same_bytes block (lower mode)

unfoldable pub is_suspect : Option Bool → Bool
is_suspect none = false
is_suspect (some suspect) = suspect

module _ (M : Maths) where
  -- `max(now - last, 0.001)`.
  unfoldable pub elapsed : Float M → Float M → Float M
  elapsed last now =
      let dt = M.numbers.floats.sub now last in
      if M.numbers.floats.less dt M.thousandth then M.thousandth else dt

  unfoldable pub is_far : Config M → Float M → Float M → Option Bool
  is_far c dist dt = c.jump_distance >>= λ far. c.jump_speed >>= λ fast.
      some (
        M.numbers.floats.less far dist && M.numbers.floats.less fast (M.numbers.floats.div dist dt))

  -- Whether the position has jumped; `none` for an exception.
  unfoldable pub jumped :
      Config M
      → Float M
      → Option (Float M)
      → Option (Float M)
      → Float M
      → Gga M.numbers
      → Option Bool
  jumped c now none last_lon ts g = some false
  jumped c now (some lat) none ts g = some false
  jumped c now (some lat) (some lon) ts g =
      if M.numbers.floats.equal ts (M.numbers.of_int (pos 0))
      then some false
      else haversine_m M lat lon g.lat g.lon >>= λ dist. is_far c dist (elapsed ts now)

  unfoldable pub jump_events : Bool → List (Effect M)
  jump_events true = event "SPOOFING_SUSPECT" "warning" 30 ∷ []
  jump_events false = []

  unfoldable pub after_jump : Clock M → Gga M.numbers → Rover M → Option Bool → Rover M
  after_jump now g s none = s
  after_jump now g s (some suspect) = record s {
    last_lat = some g.lat;
    last_lon = some g.lon;
    last_pos_ts = now 3;
    spoofing_suspect_ts = if suspect then now 2 else s.spoofing_suspect_ts;
  }

  unfoldable pub is_null : Entry M → Bool
  is_null null = true
  is_null _ = false

  unfoldable pub is_falsy : Entry M → Bool
  is_falsy null = true
  is_falsy blank = true
  is_falsy _ = false

  unfoldable pub entry : Config M → String → Entry M
  entry c k = or_else (lookup k c.geofence_polygons) null

  unfoldable pub entry_of_user : Config M → String → Entry M
  entry_of_user c name = elim (or_else (lookup name c.user_geofences) none) [
    | none ↦ null
    | some gid ↦ entry c gid
  ]

  -- The user's geofence, or that of the mountpoint, or that for all.
  unfoldable pub entry_for : Config M → String → String → Entry M
  entry_for c name mountpoint =
      if is_null (entry_of_user c name)
      then if is_falsy (entry c mountpoint) then entry c "*" else entry c mountpoint
      else entry_of_user c name

  unfoldable pub is_outside : List (Point M.numbers.floats) → Gga M.numbers → Bool
  is_outside [] g = false
  is_outside (v ∷ vs) g =
      not (point_in_polygon M.numbers.floats (record { lat = g.lat; lon = g.lon }) (v ∷ vs))

  -- Outside a fence: the rover is hung up on if the mode says so.
  unfoldable pub violate : Clock M → Rover M → Bool → Turn M
  violate now s blocks =
      let marked = record s { geofence_violation_ts = now 4 } in
      if blocks
      then record {
        rover = record marked { is_closing = true };
        effects = event "GEOFENCE_VIOLATION" "warning" 10 ∷ [];
        outcome = ends;
      }
      else go_on M marked (event "GEOFENCE_VIOLATION" "info" 10 ∷ [])

  unfoldable pub check_mode :
      Clock M → Gga M.numbers → Rover M → Option (List ℕ) → List (Point M.numbers.floats) → Turn M
  check_mode now g s none poly = go_on M s []
  check_mode now g s (some mode) poly =
      if is_outside poly g then violate now s (is_block mode) else go_on M s []

  unfoldable pub check_polygon :
      Clock M
      → Gga M.numbers
      → Rover M
      → Option (List ℕ)
      → Option (List (Point M.numbers.floats))
      → Turn M
  check_polygon now g s mode none = go_on M s []
  check_polygon now g s mode (some poly) = check_mode now g s mode poly

  unfoldable pub check_fence : Clock M → Gga M.numbers → Rover M → Entry M → Turn M
  check_fence now g s (fence f) = check_polygon now g s f.mode f.polygon
  check_fence now g s _ = go_on M s []

  unfoldable pub fix_events : Gga M.numbers → List (Effect M)
  fix_events g = if is_zero g.fix_q then event "NO_FIX" "warning" 10 ∷ [] else []

  unfoldable pub on_gga : Config M → Clock M → Rover M → Option (Gga M.numbers) → Turn M
  on_gga c now s none = go_on M s []
  on_gga c now s (some g) =
      let jump = jumped c (now 1) s.last_lat s.last_lon s.last_pos_ts g in
      let s' = after_jump now g (record s { last_nmea_ts = now 0; last_gga = some g }) jump in
      with_effects M
        (fix_events g ++ jump_events (is_suspect jump) ++ upsert (device M s) (position g) ∷ [])
        (check_fence now g s' (entry_for c s.username s.mountpoint))
