-- ===== src/Caster/ByteQueue/Tests.antt =====
-- The theorems on `ByteQueue` at concrete inputs, and runs of the model.
use babilcors.Prelude.{◌≡◌, ◌≢◌, ◌↔◌, ◌⊎◌, refl, ◌<◌, ◌+◌, true, false, List, [], ◌∷◌, arith}
use babilcors.Prelude.Int.{pos}
use babilcors.Caster.ByteQueue.{blocked, full, new_queue, close, put_nowait, get}
use babilcors.Caster.ByteQueue.Fifo.{
  Trace, Call, puts, gets, closes, run, IsFifo, run-IsFifo, put_nowait-full_iff, closed_drains,
}

abbrev fresh : Trace
fresh = record {
  queue = record { max = 4; buf = []; bytes = 0; closed = false };
  accepted = [];
  delivered = [];
}

fresh-IsFifo : IsFifo fresh
fresh-IsFifo = record { sound = record { counted = refl; bounded = omega arith }; in_order = refl }

abbrev calls : List Call
calls = puts (1 ∷ 2 ∷ []) ∷ puts (3 ∷ []) ∷ gets ∷ puts (4 ∷ 5 ∷ 6 ∷ 7 ∷ []) ∷ closes ∷ gets ∷ []

run-IsFifo_example : IsFifo (run fresh calls)
run-IsFifo_example = run-IsFifo fresh calls fresh-IsFifo

put_nowait-full_iff_case :
    (put_nowait (1 ∷ 2 ∷ []) (record { max = 4; buf = []; bytes = 3; closed = false }) ≡ full)
    ↔ ((false ≡ true) ⊎ ((0 < 4) × (4 < 3 + 2)))
put_nowait-full_iff_case =
    put_nowait-full_iff (1 ∷ 2 ∷ []) (record { max = 4; buf = []; bytes = 3; closed = false })

abbrev shut : Trace
shut = record {
  queue = record { max = 4; buf = (1 ∷ []) ∷ []; bytes = 1; closed = true };
  accepted = (1 ∷ []) ∷ [];
  delivered = [];
}

closed_drains_case :
    ((run shut calls).accepted ≡ shut.accepted) × (get (run shut calls).queue ≢ blocked)
closed_drains_case = closed_drains shut calls refl

closed_is_full : put_nowait (9 ∷ []) (close (new_queue (pos 4))) ≡ full
unfolding put_nowait close new_queue
closed_is_full = refl
