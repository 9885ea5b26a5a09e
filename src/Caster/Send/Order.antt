-- ===== src/Caster/Send/Order.antt =====
-- What a rover is sent: a subsequence of the chunks that came for it, in their order.
use babilcors.Prelude.{
  ℕ, ◌-◌, ◌≡◌, refl, sym, ap, subst, ◌⊎◌, inl, inr, Bool, true, false, Option, none, some, List, [],
  ◌∷◌, ◌++◌, append_assoc, append-nil, length, if◌then◌else◌, arith,
}
use mathlib.Core.List.{Sublist}
use mathlib.Core.List.Sublist
use babilcors.Tiers.{TokenBucket}
use babilcors.Caster.ByteQueue.{ByteQueue, blocked, ended, close, put_nowait, pop_front, get}
use babilcors.Caster.Hub.{Session, Hub, offer, put_chunk, hang_up}
use babilcors.Caster.Send.{
  Delay, Sent, waits, ends, throttled, breaks, sends, take_turn, write_chunk, send_chunk, send_got,
  send_next,
}

-- What happens to a rover: a chunk comes from the source, its send loop goes round, or its
-- queue and socket are closed.
pub data Step : Type 0 where
  arrives : List ℕ → ℕ → Step
  turns : Bool → List Delay → ℕ → Step
  hangs_up : Step

after_sent : Sent → Session → Hub → Session × Hub
after_sent waits s h = (s, h)
after_sent ends s h = (s, h)
after_sent (throttled s') s h = (s', h)
after_sent (breaks now s') s h = (s', h)
after_sent (sends now s' h') s h = (s', h')

pub step : Step → Session → Hub → Session × Hub
step (arrives chunk now) s h = ((offer chunk now s).0, h)
step (turns writable delays now) s h = after_sent (send_next writable delays now s h) s h
step hangs_up s h = (hang_up s, h)

pub run : List Step → Session → Hub → Session × Hub
run [] s h = (s, h)
run (e ∷ es) s h = let (s', h') = step e s h in run es s' h'

abbrev pub arrived : List Step → List (List ℕ)
arrived [] = []
arrived (arrives chunk now ∷ es) = chunk ∷ arrived es
arrived (turns writable delays now ∷ es) = arrived es
arrived (hangs_up ∷ es) = arrived es

-- What the rover has been sent, and then what it is still to be sent.
abbrev pub stream_of : Session → List (List ℕ)
stream_of s = s.written ++ s.queue.buf

offer-stream :
    (chunk : List ℕ) (now : ℕ) (s : Session)
    → (stream_of (offer chunk now s).0 ≡ stream_of s)
      ⊎ (stream_of (offer chunk now s).0 ≡ stream_of s ++ chunk ∷ [])
unfolding offer put_chunk put_nowait
offer-stream chunk now s = ground (arith, append_assoc s.written s.queue.buf (chunk ∷ []))

one_out : (xs : List (List ℕ)) (y : List ℕ) (ys : List (List ℕ)) → Sublist (xs ++ ys) (xs ++ y ∷ ys)
one_out xs y ys = Sublist.append (Sublist.refl xs) (Sublist.cons y (Sublist.refl ys))

send_chunk-stream :
    (writable : Bool) (chunk : List ℕ) (turn : Option (ℕ × Option TokenBucket)) (s s₀ : Session)
    (h : Hub)
    → stream_of s₀ ≡ s.written ++ chunk ∷ s.queue.buf
    → Sublist (stream_of (after_sent (send_chunk writable chunk turn s h) s₀ h).0) (stream_of s₀)
unfolding send_chunk write_chunk after_sent
send_chunk-stream writable chunk none s s₀ h e = rw e (one_out s.written chunk s.queue.buf)
send_chunk-stream true chunk (some (now, bucket)) s s₀ h e =
    rw (e, append_assoc s.written (chunk ∷ []) s.queue.buf)
      (Sublist.refl (s.written ++ chunk ∷ s.queue.buf))
send_chunk-stream false chunk (some (now, bucket)) s s₀ h e =
    rw e (one_out s.written chunk s.queue.buf)

turn-stream :
    (writable : Bool) (delays : List Delay) (now : ℕ) (l : List (List ℕ)) (s : Session) (h : Hub)
    → s.queue.buf ≡ l
    → Sublist
        (stream_of (after_sent (send_got writable delays now s h (pop_front l s.queue)) s h).0)
        (stream_of s)
unfolding send_got pop_front after_sent
turn-stream writable delays now [] s h e =
    elim s.queue.closed
      as (λ b.
        Sublist
          (stream_of
            (after_sent (send_got writable delays now s h (if b then ended else blocked)) s h).0)
          (stream_of s)) [ true ↦ Sublist.refl (stream_of s) | false ↦ Sublist.refl (stream_of s) ]
turn-stream writable delays now (chunk ∷ rest) s h e =
    let q : ByteQueue = record s.queue { buf = rest; bytes = s.queue.bytes - length chunk } in
    send_chunk-stream writable chunk (take_turn delays now (length chunk) s.bucket)
      (record s { queue = q }) s h (ap (λ (m : List (List ℕ)). s.written ++ m) e)

send_next-stream :
    (writable : Bool) (delays : List Delay) (now : ℕ) (s : Session) (h : Hub)
    → Sublist (stream_of (after_sent (send_next writable delays now s h) s h).0) (stream_of s)
unfolding send_next get
send_next-stream writable delays now s h = turn-stream writable delays now s.queue.buf s h refl

-- Whatever happens to a rover, what it has been sent and is still to be sent is a subsequence
-- of what that was before and of the chunks that have come since: no chunk is sent twice, out
-- of order or in part.
pub run-Sublist :
    (es : List Step) (s : Session) (h : Hub)
    → Sublist (stream_of (run es s h).0) (stream_of s ++ arrived es)
unfolding run step hang_up close
run-Sublist [] s h = rw (append-nil (stream_of s)) (Sublist.refl (stream_of s))
run-Sublist (arrives chunk now ∷ es) s h =
    let rest = run-Sublist es (offer chunk now s).0 h in
    elim (offer-stream chunk now s) [
      | inl e ↦
          Sublist.trans
            (subst (λ m. Sublist (stream_of (run es (offer chunk now s).0 h).0) (m ++ arrived es)) e
              rest)
            (one_out (stream_of s) chunk (arrived es))
      | inr e ↦ rw (sym (append_assoc (stream_of s) (chunk ∷ []) (arrived es))) (
          subst (λ m. Sublist (stream_of (run es (offer chunk now s).0 h).0) (m ++ arrived es)) e
            rest)
    ]
run-Sublist (turns writable delays now ∷ es) s h =
    let (s', h') = after_sent (send_next writable delays now s h) s h in
    Sublist.trans (run-Sublist es s' h')
      (Sublist.append (send_next-stream writable delays now s h) (Sublist.refl (arrived es)))
run-Sublist (hangs_up ∷ es) s h = run-Sublist es (hang_up s) h
