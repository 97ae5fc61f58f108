-- ===== src/Cpal/Adaptive/Tests.antt =====
-- Runs of the sizer of the source's example.
use oxisound.Common.{◌≡◌, refl, arith, [], ◌∷◌}
use oxisound.Cpal.Adaptive.{new, underrun, stable_period, restart, run}
use oxisound.Cpal.Adaptive.Bounds.{IsSizer, run-new}

run-new_example : IsSizer (run (new 256 128 2048 4) (underrun ∷ stable_period ∷ restart ∷ []))
run-new_example =
    run-new 256 128 2048 4 (underrun ∷ stable_period ∷ restart ∷ []) (omega arith) (omega arith)
      (omega arith) (omega arith)

-- Two underruns double the size twice, and four stable periods halve it.
grown_and_shrunk :
    (run (new 256 128 2048 4) (
      underrun ∷ underrun ∷ stable_period ∷ stable_period ∷ stable_period ∷ stable_period
      ∷ [])).current
    ≡ 512
unfolding run new
grown_and_shrunk = refl
