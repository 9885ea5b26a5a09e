-- ===== src/Caster/ByteQueue/Fifo.antt =====
-- The queue keeps its byte count and its bound, and refines a first-in first-out list.
use babilcors.Prelude.{
  ℕ, ◌+◌, ◌≤◌, ◌<◌, ◌≡◌, ◌≢◌, ◌↔◌, refl, sym, ◌∙◌, ap, true, false, List, [], ◌∷◌, ◌++◌,
  append_assoc, append-nil, ◌==◌, length, if◌then◌else◌, sum, map, arith, ◌⊎◌,
}
use babilcors.Caster.ByteQueue.{
  ByteQueue, Put, full, stored, Got, blocked, ended, item, close, put_nowait, pop_front, get,
}

abbrev pub size_of : List (List ℕ) → ℕ
size_of buf = sum (map length buf)

-- The count is the size of what is held, and stays within the bound.
pub record IsSound (q : ByteQueue) : Type 0 where
  pub counted : q.bytes ≡ size_of q.buf
  pub bounded : q.bytes ≤ q.max

abbrev pub AfterPut : (ByteQueue → Type 0) → Put → Type 0
AfterPut P full = Unit
AfterPut P (stored q) = P q

abbrev pub AfterGet : (ByteQueue → Type 0) → Got → Type 0
AfterGet P blocked = Unit
AfterGet P ended = Unit
AfterGet P (item b q) = P q

size_of-append : (xs : List (List ℕ)) (b : List ℕ) → size_of (xs ++ b ∷ []) ≡ size_of xs + length b
size_of-append [] b = omega arith
size_of-append (x ∷ xs) b = omega (arith, size_of-append xs b)

pub put_nowait-IsSound :
    (b : List ℕ) (q : ByteQueue) → IsSound q → AfterPut IsSound (put_nowait b q)
unfolding put_nowait
put_nowait-IsSound b q h = ground (arith, size_of-append q.buf b)

pop_front-IsSound :
    (l : List (List ℕ)) (q : ByteQueue) → q.buf ≡ l → IsSound q → AfterGet IsSound (pop_front l q)
unfolding pop_front
pop_front-IsSound [] q e h = ground arith
pop_front-IsSound (b ∷ rest) q e h =
    let counted : q.bytes ≡ length b + size_of rest = h.counted ∙ ap size_of e in
    record { counted = omega arith; bounded = omega (arith, h.bounded) }

pub get-IsSound : (q : ByteQueue) → IsSound q → AfterGet IsSound (get q)
unfolding get
get-IsSound q h = pop_front-IsSound q.buf q refl h

-- Calls on a queue, and what they let through: the chunks that were stored, and those that
-- came out, in order.
pub data Call : Type 0 where
  puts : List ℕ → Call
  gets closes : Call

pub record Trace : Type 0 where
  pub queue : ByteQueue
  pub accepted : List (List ℕ)
  pub delivered : List (List ℕ)

abbrev kept_by : ByteQueue → List ℕ → List (List ℕ)
kept_by q b = if q.max == 0 then [] else b ∷ []

after_put : List ℕ → Trace → Put → Trace
after_put b s full = s
after_put b s (stored q) = record s { queue = q; accepted = s.accepted ++ kept_by q b }

after_get : Trace → Got → Trace
after_get s blocked = s
after_get s ended = s
after_get s (item b q) = record s { queue = q; delivered = s.delivered ++ b ∷ [] }

pub step : Trace → Call → Trace
step s (puts b) = after_put b s (put_nowait b s.queue)
step s gets = after_get s (get s.queue)
step s closes = record s { queue = close s.queue }

pub run : Trace → List Call → Trace
run s [] = s
run s (c ∷ cs) = run (step s c) cs

-- Everything that was accepted has come out or is held, in the order of acceptance.
pub record IsFifo (s : Trace) : Type 0 where
  pub sound : IsSound s.queue
  pub in_order : s.accepted ≡ s.delivered ++ s.queue.buf

after_put-IsFifo :
    (b : List ℕ) (s : Trace) → IsFifo s → IsFifo (after_put b s (put_nowait b s.queue))
unfolding after_put put_nowait
after_put-IsFifo b s h = record {
  sound = ground (arith, size_of-append s.queue.buf b);
  in_order =
      ground
        (arith, h.in_order, append_assoc s.delivered s.queue.buf (b ∷ []), append-nil s.accepted);
}

after_get-IsFifo :
    (l : List (List ℕ)) (s : Trace)
    → s.queue.buf ≡ l
    → IsFifo s
    → IsFifo (after_get s (pop_front l s.queue))
unfolding after_get pop_front
after_get-IsFifo [] s e h =
    elim s.queue.closed as (λ b. IsFifo (after_get s (if b then ended else blocked))) [
      | true ↦ h
      | false ↦ h
    ]
after_get-IsFifo (b ∷ rest) s e h = record {
  sound = pop_front-IsSound (b ∷ rest) s.queue e h.sound;
  in_order = h.in_order ∙ ap (◌++◌ s.delivered) e ∙ sym (append_assoc s.delivered (b ∷ []) rest);
}

step-IsFifo : (s : Trace) (c : Call) → IsFifo s → IsFifo (step s c)
unfolding step
step-IsFifo s (puts b) h = after_put-IsFifo b s h
step-IsFifo s gets h = unfold get in after_get-IsFifo s.queue.buf s refl h
step-IsFifo s closes h =
    unfold close in
    record {
      sound = record { counted = h.sound.counted; bounded = h.sound.bounded };
      in_order = h.in_order;
    }

-- After any calls, the chunks that came out, and then those that are held, are the chunks that
-- were accepted, in that order; the byte count is the size of what is held, within the bound.
pub run-IsFifo : (s : Trace) (cs : List Call) → IsFifo s → IsFifo (run s cs)
unfolding run
run-IsFifo s [] h = h
run-IsFifo s (c ∷ cs) h = run-IsFifo (step s c) cs (step-IsFifo s c h)

-- A chunk is refused exactly when the queue is closed, or has a bound that the chunk would pass.
pub put_nowait-full_iff :
    (b : List ℕ) (q : ByteQueue)
    → (put_nowait b q ≡ full) ↔ ((q.closed ≡ true) ⊎ ((0 < q.max) × (q.max < q.bytes + length b)))
unfolding put_nowait
put_nowait-full_iff b q = ground arith

closed-ne-blocked : (l : List (List ℕ)) (q : ByteQueue) → q.closed ≡ true → pop_front l q ≢ blocked
unfolding pop_front
closed-ne-blocked [] q h = ground arith
closed-ne-blocked (b ∷ rest) q h = ground arith

pop_front-closed :
    (l : List (List ℕ)) (s : Trace)
    → s.queue.closed ≡ true
    → ((after_get s (pop_front l s.queue)).queue.closed ≡ true)
      × ((after_get s (pop_front l s.queue)).accepted ≡ s.accepted)
unfolding after_get pop_front
pop_front-closed [] s h = ground arith
pop_front-closed (b ∷ rest) s h = ground arith

step-closed :
    (s : Trace) (c : Call)
    → s.queue.closed ≡ true
    → ((step s c).queue.closed ≡ true) × ((step s c).accepted ≡ s.accepted)
unfolding step
step-closed s (puts b) h = unfold put_nowait after_put in ground arith
step-closed s gets h = unfold get in pop_front-closed s.queue.buf s h
step-closed s closes h = unfold close in (refl, refl)

-- Once closed, a queue accepts no chunk, whatever is called, and no `get` on it waits.
pub closed_drains :
    (s : Trace) (cs : List Call)
    → s.queue.closed ≡ true
    → ((run s cs).accepted ≡ s.accepted) × (get (run s cs).queue ≢ blocked)
unfolding run get
closed_drains s [] h = (refl, closed-ne-blocked s.queue.buf s.queue h)
closed_drains s (c ∷ cs) h =
    let (still, same) = step-closed s c h in
    let (kept, flows) = closed_drains (step s c) cs still in (kept ∙ same, flows)
