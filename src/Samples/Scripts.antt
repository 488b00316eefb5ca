-- ===== src/Samples/Scripts.antt =====
-- The scripts' theorems at those queues.
use toro.Prelude.{arith, some-inj, ℕ, ◌≡◌, refl, true, none, some, Option, is_some, get_or_else}
use toro.Redis.Backed.{listing}
use toro.Scripts.Order.{due_ids}
use toro.Job.{Reason}
use toro.Scripts.Run.{lock_lost, recall_finish}
use toro.Scripts.Claim.{acquire_next}
use toro.Scripts.Enqueue.{add_job}
use toro.Scripts.Finish.{
  Finish, outcome_of, move_to_completed, move_to_failed, move_to_cancelled, release_job,
}
use toro.Scripts.Admin.{retry_job}
use toro.Scripts.Cancel.{cancel_job}
use toro.Scripts.Stalled.{move_stalled}
use toro.Placement.{IsPlaced}
use toro.Placement.Reach.{Reachable-exclusive, Reachable-IsPlaced}
use toro.Placement.Retries.{retry_job-IsPlaced}
use toro.Placement.Stops.{cancel_job-IsPlaced}
use toro.Placement.Recovery.{move_stalled-IsPlaced}
use toro.Runs.Foreign.{IsForeign, IsUntouched, finish-foreign}
use toro.Runs.{move_to_completed-once, move_to_failed-once, AnsweredAgain}
use toro.Samples.Queues.{
  one_waits, one_waits-IsPlaced, one_runs, one_runs-Reachable, one_runs-IsPlaced, its_run,
  completed_run, failed_run, one_failed, one_failed-IsForest, one_failed-IsPlaced,
}

abbrev the_job : ℕ
the_job = 1

given {ℓ} : {A : Type ℓ} (o : Option A) (d : A) → is_some o ≡ true → o ≡ some (get_or_else o d)
given none d e = cc
given (some a) d e = refl

Reachable-exclusive_example : the_job ≡ the_job
unfolding acquire_next add_job due_ids listing
Reachable-exclusive_example =
    Reachable-exclusive one_runs the_job the_job 7 one_runs-Reachable refl refl refl refl

Reachable-IsPlaced_example : IsPlaced one_runs
Reachable-IsPlaced_example = Reachable-IsPlaced one_runs one_runs-Reachable

cancel_job-IsPlaced_example :
    IsPlaced (cancel_job one_waits the_job (some (Reason.text "no longer wanted")) 3000).0
cancel_job-IsPlaced_example =
    cancel_job-IsPlaced one_waits the_job (some (Reason.text "no longer wanted")) 3000
      one_waits-IsPlaced

move_stalled-IsPlaced_example : IsPlaced (move_stalled one_runs 1 40000 0).0
move_stalled-IsPlaced_example = move_stalled-IsPlaced one_runs 1 40000 0 one_runs-IsPlaced

-- The run of an earlier claim by the same worker.
abbrev earlier_run : Finish
earlier_run = record its_run { claim = some 1500 }

finish-foreign_example :
    IsUntouched one_runs earlier_run (move_to_completed one_runs earlier_run "3" true)
    × IsUntouched one_runs earlier_run
        (move_to_failed one_runs earlier_run (Reason.text "boom") none 3 500)
    × (move_to_cancelled one_runs the_job 50 (some 1500) 3000 30000 ≡ (
      one_runs,
      outcome_of (get_or_else (recall_finish one_runs 50 the_job (some 1500)) lock_lost),
    ))
    × (release_job one_runs the_job 50 (some 1500) 3000 ≡ (one_runs, lock_lost))
unfolding acquire_next add_job due_ids listing
finish-foreign_example =
    finish-foreign one_runs earlier_run "3" true (Reason.text "boom") none 3 500
      (IsForeign.other_claim 1500 refl (λ e. omega (arith, some-inj e)))

move_to_completed-once_example : AnsweredAgain its_run completed_run
unfolding acquire_next add_job move_to_completed due_ids listing
move_to_completed-once_example =
    move_to_completed-once one_runs its_run "3" true completed_run refl
      (given (move_to_completed one_runs its_run "3" true) (one_runs, lock_lost) refl) refl

move_to_failed-once_example : AnsweredAgain its_run failed_run
unfolding acquire_next add_job move_to_failed due_ids listing
move_to_failed-once_example =
    move_to_failed-once one_runs its_run (Reason.text "boom") none 3 500 failed_run refl
      (given (move_to_failed one_runs its_run (Reason.text "boom") none 3 500) (one_runs, lock_lost)
        refl)
      refl

retry_job-IsPlaced_example : IsPlaced (retry_job one_failed the_job 4000).0
retry_job-IsPlaced_example =
    retry_job-IsPlaced one_failed the_job 4000 one_failed-IsForest one_failed-IsPlaced
