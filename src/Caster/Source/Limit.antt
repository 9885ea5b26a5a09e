-- ===== src/Caster/Source/Limit.antt =====
-- The number of sources at once stays within its limit.
use babilcors.Prelude.{
  ℕ, ◌+◌, ◌≤◌, ◌<◌, ◌≡◌, refl, ap, ◌∙◌, ◌⊎◌, inl, inr, Bool, true, false, not, ◌&&◌, Option, none,
  some, String, List, [], ◌∷◌, if◌then◌else◌, arith, Bool-cases, Option-cases,
}
use babilcors.Prelude.Int.{pos_part}
use babilcors.Prelude.Dict.{string_eq, Dict, lookup, insert, lookup-insert, beq_refl}
use babilcors.Caster.Hub.{Hub, new_hub, attach_source, detach_source}
use babilcors.Caster.Server.{Server, has, fresh_hub, get_or_create_hub}
use babilcors.Caster.Source.{
  Config, Offer, has_source, active, put_hub, answer_attach, is_crowded, try_attach, is_empty,
  accept_source, end_source,
}

abbrev weight : Option Hub → ℕ
weight none = 0
weight (some h) = has_source h

active-insert :
    (m : String) (h : Hub) (d : Dict String Hub)
    → active (insert m h d) + weight (lookup m d) ≡ active d + has_source h
unfolding active insert lookup
active-insert m h [] = omega arith
active-insert m h ((k, g) ∷ d) = ground (arith, active-insert m h d)

-- A replaced hub.
active-put :
    (m : String) (h g : Hub) (d : Dict String Hub)
    → lookup m d ≡ some g
    → active (insert m h d) + has_source g ≡ active d + has_source h
active-put m h g d e = omega (arith, active-insert m h d, ap weight e)

get_or_create_hub-new :
    (m : String) (s : Server)
    → lookup m s.mountpoints ≡ none
    → get_or_create_hub m s
      ≡ (fresh_hub, record s { mountpoints = insert m fresh_hub s.mountpoints })
unfolding get_or_create_hub
get_or_create_hub-new m s e = ground (arith, e)

get_or_create_hub-found :
    (m : String) (hub : Hub) (s : Server)
    → lookup m s.mountpoints ≡ some hub
    → get_or_create_hub m s ≡ (hub, s)
unfolding get_or_create_hub
get_or_create_hub-found m hub s e = ground (arith, e)

fresh_hub-inactive : has_source fresh_hub ≡ 0
unfolding has_source new_hub
fresh_hub-inactive = refl

get_or_create_hub-active :
    (m : String) (s : Server)
    → (lookup m (get_or_create_hub m s).1.mountpoints ≡ some (get_or_create_hub m s).0)
      × (active (get_or_create_hub m s).1.mountpoints ≡ active s.mountpoints)
get_or_create_hub-active m s = elim (Option-cases (lookup m s.mountpoints)) [
  | inl e ↦ rw (get_or_create_hub-new m s e) (
    lookup-insert m m fresh_hub s.mountpoints
        ∙ ap (λ b. if b then some fresh_hub else lookup m s.mountpoints) (beq_refl m),
    omega (arith, active-insert m fresh_hub s.mountpoints, ap weight e, fresh_hub-inactive),
  )
  | inr (h, e) ↦ rw (get_or_create_hub-found m h s e) (e, refl)
]

abbrev IsWithin : Config → Server → Type 0
IsWithin c s =
    0 < pos_part c.max_sources_total → active s.mountpoints ≤ pos_part c.max_sources_total

answer_attach-puts :
    (m : String) (s : Server) (p : Hub × Bool)
    → (answer_attach m s p).0.mountpoints ≡ insert m p.0 s.mountpoints
unfolding answer_attach put_hub
answer_attach-puts m s (h, true) = refl
answer_attach-puts m s (h, false) = refl

has_source-le : (h : Hub) → has_source h ≤ 1
unfolding has_source
has_source-le h = ground arith

attached-active :
    (o : Offer) (hub : Hub) (s : Server)
    → lookup o.mountpoint s.mountpoints ≡ some hub
    → active (answer_attach o.mountpoint s (attach_source o.addr hub)).0.mountpoints
        + has_source hub
      ≤ active s.mountpoints + 1
attached-active o hub s e =
    let p = attach_source o.addr hub in
    omega (
      arith,
      ap active (answer_attach-puts o.mountpoint s p),
      active-put o.mountpoint p.0 hub s.mountpoints e,
      has_source-le p.0,
    )

room_left :
    (c : Config) (hub : Hub) (s : Server)
    → is_crowded c hub s ≡ false
    → 0 < pos_part c.max_sources_total
    → (0 < has_source hub) ⊎ (active s.mountpoints < pos_part c.max_sources_total)
unfolding is_crowded
room_left c hub s e on = ground arith

try_attach-IsWithin :
    (c : Config) (o : Offer) (hub : Hub) (s : Server)
    → lookup o.mountpoint s.mountpoints ≡ some hub
    → IsWithin c s
    → IsWithin c (try_attach c o (hub, s)).0
unfolding try_attach
try_attach-IsWithin c o hub s e h on = elim (Bool-cases (c.requires_cert && not o.has_cert)) [
  | inl lacking ↦ rw lacking (h on)
  | inr fine ↦ elim (Bool-cases (is_crowded c hub s)) [
    | inl crowded ↦ rw (fine, crowded) (h on)
    | inr free ↦
        rw (fine, free) (omega (arith, attached-active o hub s e, h on, room_left c hub s free on))
  ]
]

accept_source-IsWithin :
    (c : Config) (o : Offer) (s : Server) → IsWithin c s → IsWithin c (accept_source c o s).0
unfolding accept_source
accept_source-IsWithin c o s h on = elim (Bool-cases (string_eq.beq o.password c.password)) [
  | inr wrong ↦ rw wrong (h on)
  | inl right ↦
      elim (Bool-cases (not (is_empty c.mountpoints) && not (has o.mountpoint c.mountpoints))) [
        | inl elsewhere ↦ rw (right, elsewhere) (h on)
        | inr served ↦
            let (found, same) = get_or_create_hub-active o.mountpoint s in
            let p = get_or_create_hub o.mountpoint s in
            rw (right, served)
              (try_attach-IsWithin c o p.0 p.1 found (λ on'. omega (arith, same, h on')) on)
      ]
]

end_source-detaches :
    (m : String) (h : Hub) (s : Server)
    → lookup m s.mountpoints ≡ some h
    → end_source m s ≡ put_hub m (detach_source h) s
unfolding end_source
end_source-detaches m h s e = ground (arith, e)

end_source-nothing : (m : String) (s : Server) → lookup m s.mountpoints ≡ none → end_source m s ≡ s
unfolding end_source
end_source-nothing m s e = ground (arith, e)

detached-inactive : (h : Hub) → has_source (detach_source h) ≡ 0
unfolding has_source detach_source
detached-inactive h = refl

end_source-le :
    (m : String) (s : Server) → active (end_source m s).mountpoints ≤ active s.mountpoints
unfolding put_hub
end_source-le m s = elim (Option-cases (lookup m s.mountpoints)) [
  | inl e ↦ rw (end_source-nothing m s e) (omega arith)
  | inr (h, e) ↦
      rw (end_source-detaches m h s e)
        (omega (arith, active-put m (detach_source h) h s.mountpoints e, detached-inactive h))
]

pub data Event : Type 0 where
  offers : Offer → Event
  ends : String → Event

pub run : Config → List Event → Server → Server
run c [] s = s
run c (offers o ∷ es) s = run c es (accept_source c o s).0
run c (ends m ∷ es) s = run c es (end_source m s)

-- Over any offers and ends of sources, with a limit that is not 0, no more mountpoints have a
-- source than the limit says, if that was so at first.
pub run-active :
    (c : Config) (es : List Event) (s : Server)
    → (0 < pos_part c.max_sources_total → active s.mountpoints ≤ pos_part c.max_sources_total)
    → 0 < pos_part c.max_sources_total
    → active (run c es s).mountpoints ≤ pos_part c.max_sources_total
unfolding run
run-active c [] s h on = h on
run-active c (offers o ∷ es) s h on =
    run-active c es (accept_source c o s).0 (accept_source-IsWithin c o s h) on
run-active c (ends m ∷ es) s h on =
    run-active c es (end_source m s) (λ on'. omega (arith, end_source-le m s, h on')) on
