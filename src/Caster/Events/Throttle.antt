-- ===== src/Caster/Events/Throttle.antt =====
-- Events of one key are recorded at most once in the time of the throttle, and the store is bounded.
use babilcors.Prelude.{
  ℕ, ◌+◌, ◌-◌, ◌*◌, ◌≤◌, ◌≡◌, sym, ap, ◌∙◌, inl, inr, Bool, true, false, not, ◌&&◌, none, some,
  String, List, [], ◌∷◌, ◌++◌, ◌==◌, length, length-drop, min, max, if◌then◌else◌, arith,
  Bool-cases,
}
use babilcors.Prelude.Dict.{string_eq, lookup, lookup-insert}
use babilcors.Caster.Audit.{append_bounded}
use babilcors.Caster.Events.{Event, Events, max_events, is_throttled, event_add, get_events}

-- Events, each with the throttle that its caller asks for.
pub run : List (ℕ × Event) → Events → Events
run [] s = s
run ((throttle, e) ∷ es) s = run es (event_add throttle e s)

append_bounded-le : (n : ℕ) (e : Event) (es : List Event) → length (append_bounded n e es) ≤ n
unfolding append_bounded
append_bounded-le n e es = omega (arith, length-drop (length (es ++ e ∷ []) - n) (es ++ e ∷ []))

event_add-le :
    (throttle : ℕ) (e : Event) (s : Events)
    → length s.events ≤ max_events
    → length (event_add throttle e s).events ≤ max_events
unfolding event_add
event_add-le throttle e s h = ground (arith, append_bounded-le max_events e s.events)

-- After any events, no more than 5000 are stored, and `get_events` gives at most 2000 of them.
pub run-le :
    (es : List (ℕ × Event)) (s : Events) (limit : ℕ)
    → length s.events ≤ max_events
    → (length (run es s).events ≤ max_events) × (length (get_events limit (run es s)) ≤ 2000)
unfolding run get_events
run-le [] s limit h = (
  h,
  omega (
    arith,
    length-drop (length s.events - max 1 (min (if limit == 0 then 200 else limit) 2000)) s.events,
  ),
)
run-le ((throttle, e) ∷ es) s limit h =
    run-le es (event_add throttle e s) limit (event_add-le throttle e s h)

-- Whether an event is of this key and is let through.
abbrev pub counts : String → ℕ → Event → Events → Bool
counts key throttle e s =
    string_eq.beq e.key key && not (is_throttled (lookup e.key s.throttle) e.ts throttle)

-- How many events of a key are let through.
pub recorded : String → ℕ → List Event → Events → ℕ
recorded key throttle [] s = 0
recorded key throttle (e ∷ es) s =
    (if counts key throttle e s then 1 else 0) + recorded key throttle es (event_add throttle e s)

abbrev pub Sorted : ℕ → List Event → Type 0
Sorted t [] = Unit
Sorted t (e ∷ es) = (t ≤ e.ts) × Sorted e.ts es

abbrev pub end_of : ℕ → List Event → ℕ
end_of t [] = t
end_of t (e ∷ es) = end_of e.ts es

end_of-le : (t : ℕ) (es : List Event) → Sorted t es → t ≤ end_of t es
end_of-le t [] h = omega arith
end_of-le t (e ∷ es) (h, hs) = omega (arith, end_of-le e.ts es hs)

event_add-throttle :
    (key : String) (throttle : ℕ) (e : Event) (s : Events)
    → lookup key (event_add throttle e s).throttle
      ≡ (if counts key throttle e s then some e.ts else lookup key s.throttle)
unfolding event_add
event_add-throttle key throttle e s = ground (arith, lookup-insert e.key key e.ts s.throttle)

counts-late :
    (key : String) (throttle last : ℕ) (e : Event) (s : Events)
    → lookup key s.throttle ≡ some last
    → counts key throttle e s ≡ true
    → throttle ≤ e.ts - last
unfolding is_throttled
counts-late key throttle last e s h c =
    let parts : (string_eq.beq e.key key ≡ true)
        × (is_throttled (lookup e.key s.throttle) e.ts throttle ≡ false) =
      ground (arith, c) in
    let found : lookup e.key s.throttle ≡ some last =
      ap (λ k. lookup k s.throttle) ((string_eq.beq_iff e.key key).0 parts.0) ∙ h in
    ground (arith, ap (λ o. is_throttled o e.ts throttle) (sym found) ∙ parts.1)

recorded_after :
    (key : String) (throttle last now : ℕ) (es : List Event) (s : Events)
    → lookup key s.throttle ≡ some last
    → last ≤ now
    → Sorted now es
    → recorded key throttle es s * throttle ≤ end_of now es - last
unfolding recorded
recorded_after key throttle last now [] s h l o = omega arith
recorded_after key throttle last now (e ∷ es) s h l (o, os) =
    let after = event_add-throttle key throttle e s in
    elim (Bool-cases (counts key throttle e s)) [
      | inl passes ↦
          let rest =
            recorded_after key throttle e.ts e.ts es (event_add throttle e s)
              (after ∙ ap (λ b. if b then some e.ts else lookup key s.throttle) passes)
              (omega arith) os in
          rw passes
            (omega (arith, counts-late key throttle last e s h passes, rest, end_of-le e.ts es os))
      | inr skipped ↦
          let rest =
            recorded_after key throttle last e.ts es (event_add throttle e s)
              (after ∙ ap (λ b. if b then some e.ts else lookup key s.throttle) skipped ∙ h)
              (omega arith) os in
          rw skipped (omega (arith, rest))
    ]

-- Of events of one key that come one after the other, those that are recorded are as far apart
-- as the throttle says: there is at most one, and one more for each time of the throttle.
pub recorded_bound :
    (key : String) (throttle now : ℕ) (es : List Event) (s : Events)
    → lookup key s.throttle ≡ none
    → Sorted now es
    → recorded key throttle es s * throttle ≤ throttle + (end_of now es - now)
unfolding recorded
recorded_bound key throttle now [] s h o = omega arith
recorded_bound key throttle now (e ∷ es) s h (o, os) =
    let after = event_add-throttle key throttle e s in
    elim (Bool-cases (counts key throttle e s)) [
      | inl passes ↦
          let rest =
            recorded_after key throttle e.ts e.ts es (event_add throttle e s)
              (after ∙ ap (λ b. if b then some e.ts else lookup key s.throttle) passes)
              (omega arith) os in
          rw passes (omega (arith, rest, end_of-le e.ts es os))
      | inr skipped ↦
          let rest =
            recorded_bound key throttle e.ts es (event_add throttle e s)
              (after ∙ ap (λ b. if b then some e.ts else lookup key s.throttle) skipped ∙ h) os in
          rw skipped (omega (arith, rest, end_of-le e.ts es os))
    ]
