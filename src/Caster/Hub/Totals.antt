-- ===== src/Caster/Hub/Totals.antt =====
-- A hub over any sequence of its operations: one source, distinct rovers, totals that add up.
use babilcors.Prelude.{
  ℕ, ◌+◌, ◌≡◌, refl, sym, ap, ◌∙◌, subst, inl, inr, Bool, true, false, not, ◌||◌, String, List, [],
  ◌∷◌, ◌++◌, ◌==◌, map, sum, if◌then◌else◌, keep_if, All, All-append, All-keep_if, arith,
  Bool-cases,
}
use native.Mathlib.Nat.{add-zero}
use babilcors.Prelude.Dict.{string_eq}
use babilcors.Caster.ByteQueue.{close}
use babilcors.Caster.ByteQueue.Fifo.{IsSound, put_nowait-IsSound}
use babilcors.Caster.Hub.{
  Session, Hub, put_chunk, offer, on_source_data, attach_source, detach_source, hang_up, add_rover,
  remove_rover, has_rover,
}
use babilcors.Caster.Hub.Fanout.{on_source_data-Offered}

pub data Event : Type 0 where
  attaches : String → Event
  detaches : Event
  joins : Session → Event
  leaves : ℕ → Event
  receives : List ℕ → ℕ → Event

unfoldable pub apply : Event → Hub → Hub
apply (attaches addr) h = (attach_source addr h).0
apply detaches h = detach_source h
apply (joins s) h = add_rover s h
apply (leaves i) h = remove_rover i h
apply (receives chunk now) h = on_source_data chunk now h

abbrev pub dropped_by : List Session → ℕ
dropped_by ss = sum (map (λ s. s.dropped_bytes) ss)

-- What the sessions that an event removes had dropped.
abbrev pub left_behind : Event → Hub → ℕ
left_behind (leaves i) h = dropped_by (keep_if (λ s. s.id == i) h.rovers)
left_behind (attaches addr) h = 0
left_behind detaches h = 0
left_behind (joins s) h = 0
left_behind (receives chunk now) h = 0

-- The bytes that sessions had dropped when they left, and the hub.
unfoldable pub run : List Event → ℕ → Hub → ℕ × Hub
run [] gone h = (gone, h)
run (e ∷ es) gone h = run es (gone + left_behind e h) (apply e h)

-- A session that joins is new.
abbrev pub IsFresh : Event → Type 0
IsFresh (joins s) = (s.dropped_bytes ≡ 0) × IsSound s.queue
IsFresh (attaches addr) = Unit
IsFresh detaches = Unit
IsFresh (leaves i) = Unit
IsFresh (receives chunk now) = Unit

abbrev pub AreDistinct : List Session → Type 0
AreDistinct [] = Unit
AreDistinct (s ∷ ss) = (has_rover s.id ss ≡ false) × AreDistinct ss

pub record IsConsistent (gone : ℕ) (h : Hub) : Type 0 where
  pub accounted : h.dropped_bytes_total ≡ gone + dropped_by h.rovers
  pub sound : All (λ s. IsSound s.queue) h.rovers
  pub distinct : AreDistinct h.rovers

-- One offer: identity, soundness, and the two counts of dropped bytes.
offer-keeps :
    (chunk : List ℕ) (now : ℕ) (s : Session)
    → IsSound s.queue
    → ((offer chunk now s).0.id ≡ s.id)
      × ((offer chunk now s).0.dropped_bytes ≡ s.dropped_bytes + (offer chunk now s).1)
      × IsSound (offer chunk now s).0.queue
unfolding offer put_chunk
offer-keeps chunk now s h = ground (arith, put_nowait-IsSound chunk s.queue h)

-- The loop over the rovers.
offers-keep :
    (chunk : List ℕ) (now : ℕ) (ss : List Session)
    → All (λ s. IsSound s.queue) ss
    → AreDistinct ss
    → (dropped_by (map (λ s. (offer chunk now s).0) ss)
        ≡ dropped_by ss + sum (map (λ s. (offer chunk now s).1) ss))
      × All (λ s. IsSound s.queue) (map (λ s. (offer chunk now s).0) ss)
      × AreDistinct (map (λ s. (offer chunk now s).0) ss)
      × ((i : ℕ) → has_rover i (map (λ s. (offer chunk now s).0) ss) ≡ has_rover i ss)
unfolding has_rover
offers-keep chunk now [] a d = (refl, tt, tt, λ i. refl)
offers-keep chunk now (s ∷ ss) (a, as') (d, ds) =
    let (same, count, ok) = offer-keeps chunk now s a in
    let (total, all, apart, has) = offers-keep chunk now ss as' ds in
    (
      omega (arith, total, count),
      (ok, all),
      (ap (λ i. has_rover i (map (λ r. (offer chunk now r).0) ss)) same ∙ has s.id ∙ d, apart),
      λ i. rw (same, has i) refl,
    )

receives-IsConsistent :
    (chunk : List ℕ) (now gone : ℕ) (h : Hub)
    → IsConsistent gone h
    → IsConsistent gone (on_source_data chunk now h)
receives-IsConsistent [] now gone h c = unfold on_source_data in c
receives-IsConsistent (b ∷ rest) now gone h c =
    let (rovers, total, rx, src) = on_source_data-Offered b rest now h in
    let (sums, all, apart, has) = offers-keep (b ∷ rest) now h.rovers c.sound c.distinct in
    record {
      accounted = omega (arith, total, sums, c.accounted, ap dropped_by rovers);
      sound = subst (All (λ s. IsSound s.queue)) (sym rovers) all;
      distinct = subst AreDistinct (sym rovers) apart;
    }

hang_ups-keep :
    (ss : List Session)
    → (dropped_by (map hang_up ss) ≡ dropped_by ss)
      × (All (λ s. IsSound s.queue) ss → All (λ s. IsSound s.queue) (map hang_up ss))
      × ((i : ℕ) → has_rover i (map hang_up ss) ≡ has_rover i ss)
unfolding hang_up close has_rover
hang_ups-keep [] = (refl, λ a. a, λ i. refl)
hang_ups-keep (s ∷ ss) =
    let (total, sound, has) = hang_ups-keep ss in
    (
      ap (λ n. s.dropped_bytes + n) total,
      λ a. (record { counted = a.0.counted; bounded = a.0.bounded }, sound a.1),
      λ i. ap (λ b. (s.id == i) || b) (has i),
    )

hang_ups-distinct : (ss : List Session) → AreDistinct ss → AreDistinct (map hang_up ss)
unfolding hang_up
hang_ups-distinct [] d = tt
hang_ups-distinct (s ∷ ss) (d, ds) = ((hang_ups-keep ss).2 s.id ∙ d, hang_ups-distinct ss ds)

-- What `remove_rover` takes out and what it leaves.
removal_splits :
    (i : ℕ) (ss : List Session)
    → dropped_by (keep_if (λ s. s.id == i) ss) + dropped_by (keep_if (λ s. not (s.id == i)) ss)
      ≡ dropped_by ss
removal_splits i [] = refl
removal_splits i (s ∷ ss) = ground (arith, removal_splits i ss)

has-keep_if :
    (i : ℕ) (p : Session → Bool) (ss : List Session)
    → has_rover i ss ≡ false
    → has_rover i (keep_if p ss) ≡ false
unfolding has_rover
has-keep_if i p [] h = refl
has-keep_if i p (s ∷ ss) h = ground (arith, has-keep_if i p ss)

kept-distinct :
    (p : Session → Bool) (ss : List Session) → AreDistinct ss → AreDistinct (keep_if p ss)
kept-distinct p [] d = tt
kept-distinct p (s ∷ ss) (d, ds) =
    elim (p s) as (λ b. AreDistinct (if b then s ∷ keep_if p ss else keep_if p ss)) [
      | true ↦ (has-keep_if s.id p ss d, kept-distinct p ss ds)
      | false ↦ kept-distinct p ss ds
    ]

has-append :
    (i : ℕ) (ss : List Session) (s : Session)
    → has_rover i (ss ++ s ∷ []) ≡ (has_rover i ss || (s.id == i))
unfolding has_rover
has-append i [] s = ground arith
has-append i (r ∷ ss) s = ground (arith, has-append i ss s)

append-distinct :
    (ss : List Session) (s : Session)
    → AreDistinct ss
    → has_rover s.id ss ≡ false
    → AreDistinct (ss ++ s ∷ [])
unfolding has_rover
append-distinct [] s d h = (refl, tt)
append-distinct (r ∷ ss) s (d, ds) h =
    (rw (has-append r.id ss s, d) (ground (arith, h)), append-distinct ss s ds (ground (arith, h)))

dropped_by-append :
    (ss : List Session) (s : Session) → dropped_by (ss ++ s ∷ []) ≡ dropped_by ss + s.dropped_bytes
dropped_by-append [] s = omega arith
dropped_by-append (r ∷ ss) s = omega (arith, dropped_by-append ss s)

joins-IsConsistent :
    (s : Session) (gone : ℕ) (h : Hub)
    → IsFresh (joins s)
    → IsConsistent gone h
    → IsConsistent gone (add_rover s h)
unfolding add_rover
joins-IsConsistent s gone h (none_dropped, ok) c = elim (Bool-cases (has_rover s.id h.rovers)) [
  | inl there ↦ rw there c
  | inr new ↦ rw new (record {
    accounted = omega (arith, c.accounted, dropped_by-append h.rovers s, none_dropped);
    sound = All-append (λ r. IsSound r.queue) h.rovers (s ∷ []) c.sound (ok, tt);
    distinct = append-distinct h.rovers s c.distinct new;
  })
]

attach_source-keeps :
    (addr : String) (h : Hub)
    → ((attach_source addr h).0.rovers ≡ h.rovers)
      × ((attach_source addr h).0.dropped_bytes_total ≡ h.dropped_bytes_total)
unfolding attach_source
attach_source-keeps addr h = ground arith

apply-IsConsistent :
    (e : Event) (gone : ℕ) (h : Hub)
    → IsFresh e
    → IsConsistent gone h
    → IsConsistent (gone + left_behind e h) (apply e h)
unfolding apply
apply-IsConsistent (attaches addr) gone h f c =
    let (rovers, total) = attach_source-keeps addr h in
    record {
      accounted = omega (arith, total, ap dropped_by rovers, c.accounted);
      sound = subst (All (λ s. IsSound s.queue)) (sym rovers) c.sound;
      distinct = subst AreDistinct (sym rovers) c.distinct;
    }
apply-IsConsistent detaches gone h f c =
    let (total, sound, has) = hang_ups-keep h.rovers in
    unfold detach_source in
    record {
      accounted = omega (arith, c.accounted, total);
      sound = sound c.sound;
      distinct = hang_ups-distinct h.rovers c.distinct;
    }
apply-IsConsistent (joins s) gone h f c = rw (add-zero gone) (joins-IsConsistent s gone h f c)
apply-IsConsistent (leaves i) gone h f c =
    unfold remove_rover in
    record {
      accounted = omega (arith, c.accounted, removal_splits i h.rovers);
      sound = All-keep_if (λ s. IsSound s.queue) (λ s. not (s.id == i)) h.rovers c.sound;
      distinct = kept-distinct (λ s. not (s.id == i)) h.rovers c.distinct;
    }
apply-IsConsistent (receives chunk now) gone h f c =
    rw (add-zero gone) (receives-IsConsistent chunk now gone h c)

-- Over any operations in which only fresh sessions join: the hub's total of dropped bytes is
-- what its rovers have dropped and what those that left had dropped; no rover is in the hub
-- twice; and each queue's count is the size of what it holds, within its bound.
pub run-IsConsistent :
    (es : List Event) (gone : ℕ) (h : Hub)
    → All IsFresh es
    → IsConsistent gone h
    → IsConsistent (run es gone h).0 (run es gone h).1
unfolding run
run-IsConsistent [] gone h f c = c
run-IsConsistent (e ∷ es) gone h (f, fs) c =
    run-IsConsistent es (gone + left_behind e h) (apply e h) fs (apply-IsConsistent e gone h f c)
