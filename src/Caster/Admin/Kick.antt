-- ===== src/Caster/Admin/Kick.antt =====
-- Which rover is kicked.
use babilcors.Prelude.{
  ℕ, ◌≡◌, refl, sym, ap, inl, inr, false, List, [], ◌∷◌, ◌==◌, ==_iff, if◌then◌else◌, map, arith,
  Bool-cases,
}
use babilcors.Caster.Hub.{Session, has_rover, hang_up}
use babilcors.Caster.Hub.Totals.{AreDistinct}
use babilcors.Caster.Admin.{kick_in}

abbrev pub hung_up_if : ℕ → Session → Session
hung_up_if conn_id s = if s.id == conn_id then hang_up s else s

absent-same :
    (conn_id i : ℕ) (ss : List Session)
    → i ≡ conn_id
    → has_rover i ss ≡ false
    → map (hung_up_if conn_id) ss ≡ ss
unfolding has_rover
absent-same conn_id i [] e h = refl
absent-same conn_id i (s ∷ ss) e h =
    let other : s.id == conn_id ≡ false = ground (arith, e, h) in
    rw (other, absent-same conn_id i ss e (ground (arith, h))) refl

-- In a hub where no rover is twice, a kick hangs up the rover with the number, and no other; it
-- says whether there is one.
pub kick_in-hung_up_if :
    (conn_id : ℕ) (ss : List Session)
    → AreDistinct ss
    → ((kick_in conn_id ss).0 ≡ map (hung_up_if conn_id) ss)
      × ((kick_in conn_id ss).1 ≡ has_rover conn_id ss)
unfolding kick_in has_rover
kick_in-hung_up_if conn_id [] d = (refl, refl)
kick_in-hung_up_if conn_id (s ∷ ss) (d, ds) =
    let (rest, found) = kick_in-hung_up_if conn_id ss ds in
    elim (Bool-cases (s.id == conn_id)) [
      | inl here ↦ rw here (
        ap (λ l. hang_up s ∷ l)
            (sym (absent-same conn_id s.id ss ((==_iff s.id conn_id).0 here) d)),
        refl,
      )
      | inr elsewhere ↦ rw elsewhere (ap (λ l. s ∷ l) rest, found)
    ]
