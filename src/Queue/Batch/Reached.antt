-- ===== src/Queue/Batch/Reached.antt =====
-- toro/queue.py: a batch call is a run of the scripts' steps.
use toro.Prelude.{ℕ, List, [], ◌∷◌, false}
use toro.Redis.{Redis}
use toro.Job.{JobState}
use toro.Store.{Store}
use toro.Scripts.Remove.{remove_job}
use toro.Placement.Reach.{Step, Reachable}
use toro.Queue.Listing.{ids_of}
use toro.Queue.Batch.{remove_each, clean}

module _ {R : Redis} where
  remove_each-Reachable :
      (ids : List ℕ) (now : ℕ) (s : Store R) → Reachable s → Reachable (remove_each ids now s)
  unfolding remove_each
  remove_each-Reachable [] now s h = h
  remove_each-Reachable (id ∷ ids) now s h =
      remove_each-Reachable ids now (remove_job s id now).0
        (Reachable.step s (remove_job s id now).0 h (Step.removes id now))

  -- A clean leads from a reachable store to one: every job that it leaves is in the one collection that
  -- its state names, and each key is with its holder.
  pub clean-Reachable :
      (s : Store R) (state : JobState) (limit now : ℕ)
      → Reachable s
      → Reachable (clean s state limit now).0
  unfolding clean
  clean-Reachable s state limit now h = remove_each-Reachable (ids_of s state limit false) now s h
