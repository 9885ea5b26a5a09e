-- ===== src/Iot/Tests.antt =====
-- The theorem on subscribers at a concrete one.
use babilcors.Prelude.{ℕ, ◌≡◌, [], ◌∷◌, arith}
use babilcors.Iot.{Subscriber}
use babilcors.Iot.Newest.{run, run-newest}

abbrev subscriber : Subscriber ℕ
subscriber = record { id = 1; maxsize = 2; queue = 10 ∷ [] }

run-newest_example : (run (11 ∷ 12 ∷ 13 ∷ []) subscriber).queue ≡ 12 ∷ 13 ∷ []
run-newest_example = run-newest (11 ∷ 12 ∷ 13 ∷ []) subscriber (omega arith) (omega arith)
