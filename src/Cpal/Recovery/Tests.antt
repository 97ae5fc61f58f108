-- ===== src/Cpal/Recovery/Tests.antt =====
-- Two attempts fail, and the third opens a device.
use oxisound.Common.{ℕ, ◌≡◌, refl, true, false, none, some, [], ◌∷◌, ◌++◌, replicate, ok}
use oxisound.Common.Slices.{index}
use oxisound.Cpal.Recovery.{Recovery, opened, failed, rounds}
use oxisound.Cpal.Recovery.Backoff.{rounds-recovers}

abbrev lost : Recovery ℕ ℕ
lost = record {
  stop = false;
  disconnected = true;
  producer = 1;
  producer_poisoned = false;
  stream = none;
  stream_poisoned = false;
  backoff_idx = 0;
  slept = [];
}

-- With a poisoned lock the stream stays disconnected.
poisoned_run :
    rounds (record lost { producer_poisoned = true }) (opened 2 3 ∷ [])
    ≡ ok (record lost { producer_poisoned = true; backoff_idx = 1; slept = 100 ∷ 10 ∷ [] })
unfolding rounds index
poisoned_run = refl

rounds-recovers_example :
    rounds lost (replicate 2 failed ++ (opened 7 8 ∷ []))
    ≡ ok (record lost {
      disconnected = false;
      producer = 7;
      stream = some 8;
      backoff_idx = 0;
      slept = 100 ∷ 10 ∷ 100 ∷ 50 ∷ 100 ∷ 200 ∷ [];
    })
rounds-recovers_example = rounds-recovers 2 lost 7 8 refl refl refl refl refl

-- With the stop flag set, nothing is tried.
stopped_run :
    rounds (record lost { stop = true }) (opened 2 3 ∷ []) ≡ ok (record lost { stop = true })
unfolding rounds index
stopped_run = refl
