-- ===== src/Queue/Batch/Cleaned.antt =====
-- toro/queue.py, `Queue.clean`: which jobs a clean removes.
use toro.Prelude.{ℕ, ◌≡◌, ◌⊎◌, List, [], ◌∷◌, true, false, some, ltb, if◌then◌else◌}
use toro.Redis.{Redis}
use toro.Job.{JobState, is_finished}
use toro.Store.{Store, state_of}
use toro.Scripts.Retention.{live_score}
use toro.Scripts.Remove.{remove_job}
use toro.Scripts.Roots.{members}
use toro.Queue.Listing.{settled, state_zset}

module _ {R : Redis} where
  -- A job that has settled: not one of a flow that still runs.
  abbrev pub IsSettled : Store R → JobState → ℕ → Type 0
  IsSettled s state id =
      (k : ℕ) × (R.zscore (state_zset s state) id ≡ some k) × (ltb k live_score ≡ true)

  -- A job that a clean of its state may take: finished ones only once they have settled.
  abbrev pub IsCleanable : Store R → JobState → ℕ → Type 0
  IsCleanable s state id =
      (state_of s id ≡ some state) × ((is_finished (some state) ≡ false) ⊎ IsSettled s state id)

  -- REMOVE_JOB for each of the ids, in their order.
  unfoldable pub IsRemoved : ℕ → List ℕ → Store R → Store R → Type 0
  IsRemoved now [] s t = t ≡ s
  IsRemoved now (id ∷ ids) s t = IsRemoved now ids (remove_job s id now).0 t

  -- All that a clean may take of a state, in its order.
  oldest : Store R → JobState → List ℕ
  oldest s JobState.active = s.active
  oldest s state =
      if is_finished (some state)
      then settled (R.zrange (state_zset s state))
      else members (R.zrange (state_zset s state))
