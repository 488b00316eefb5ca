-- ===== src/Samples/Rest.antt =====
-- The other theorems at concrete inputs.
use toro.Prelude.{
  inr, Bool-cases, update, ℕ, suc, ◌+◌, ◌*◌, ◌%◌, ◌≤◌, ◌<◌, ◌≡◌, ◌⊎◌, inl, refl, true, false, none,
  some, arith, is_some, eq_option, count, length, ◌==◌, if◌then◌else◌, remove_all,
}
use toro.Redis.{lookup}
use toro.Redis.Backed.{backed, listing}
use toro.Job.{JobState, blank}
use toro.Store.{Store, Bucket, Outcome, Field, hget, state_of}
use toro.Scripts.Order.{priority_score, promote_due, due_ids}
use toro.Scripts.Claim.{Renewal, acquire_next, activate, extend_lock, take_token}
use toro.Scripts.Metrics.{counter, record_metrics, eq_outcome}
use toro.Scripts.Flow.{settle_child_completed}
use toro.Scripts.Enqueue.{add_job, already_there, add_flow, create_node, create_each, count_nodes}
use toro.Ordering.{promote_due_complete}
use toro.Claiming.{acquire_next-cap, activate-stamp, extend_lock-owner}
use toro.Limiting.{take_token-IsBucket, IsBucket}
use toro.Counting.{record_metrics-totals}
use toro.Barrier.{IsLetGo, settle_child_completed-barrier}
use toro.Scripts.Retention.{walk_up}
use toro.Keeping.{walk_up-root}
use toro.Adding.{add_job-once, add_flow-ids}
use toro.Client.{
  next_slot, next_slot-least, clamp_priority, clamp_priority-order, Backoff, compute_backoff,
  compute_backoff-bounded,
}
use toro.Samples.Queues.{empty_store, keyed_add, one_waits, one_runs, one_delayed, unlimited, tree}

clamp_priority-order_example :
    priority_score (clamp_priority 5) 10 < priority_score (clamp_priority 3) 2
unfolding clamp_priority
clamp_priority-order_example = clamp_priority-order 3 5 2 10 (ground arith) (inl (ground arith))

abbrev the_job : ℕ
the_job = 1

promote_due_complete_example : 1200 < 1500
unfolding add_job promote_due due_ids listing lookup
promote_due_complete_example =
    promote_due_complete one_delayed 1200 the_job 1500 (ground arith) refl

acquire_next-cap_example :
    (length (acquire_next one_waits 50 unlimited 2000).0.active ≤ unlimited.cap)
    ⊎ (length (acquire_next one_waits 50 unlimited 2000).0.active ≡ length one_waits.active)
acquire_next-cap_example = acquire_next-cap one_waits 50 unlimited 2000 (ground arith)

activate-stamp_example :
    (state_of (activate one_runs the_job 52 2 1500) the_job ≡ some JobState.active)
    × ((activate one_runs the_job 52 2 1500).lock the_job ≡ some 52)
    × (count the_job (activate one_runs the_job 52 2 1500).stalled ≡ 0)
    × ((stamp : ℕ) × (hget (activate one_runs the_job 52 2 1500) the_job (λ j. j.processed_on)
          ≡ some stamp)
        × (1500 ≤ stamp)
        × ((p : ℕ) → hget one_runs the_job (λ j. j.processed_on) ≡ some p → p < stamp))
activate-stamp_example = activate-stamp one_runs the_job 52 2 1500

extend_lock-owner_example :
    (((extend_lock one_runs the_job 50).0 ≡ one_runs)
      × (eq_option (one_runs.lock the_job) (some 50) ≡ false)
      × ((extend_lock one_runs the_job 50).1
          ≡ (if is_some (one_runs.jobs the_job) then Renewal.lost_lock else Renewal.job_gone)))
    ⊎ ((eq_option (one_runs.lock the_job) (some 50) ≡ true)
        × ((extend_lock one_runs the_job 50).0.lock the_job ≡ some 50)
        × (count the_job (extend_lock one_runs the_job 50).0.stalled ≡ 0)
        × ((extend_lock one_runs the_job 50).1 ≡ (
            if hget one_runs the_job (λ j. j.cancel)
            then Renewal.cancel_requested
            else Renewal.renewed)))
extend_lock-owner_example = extend_lock-owner one_runs the_job 50

abbrev spent : Bucket
spent = record { num = 1; den = 3; ts = 1000 }

take_token-IsBucket_example : IsBucket 2 (take_token (some spent) 2 1000 1100).0
take_token-IsBucket_example =
    take_token-IsBucket (some spent) 2 1000 1100 (ground arith) (ground arith, ground arith)

record_metrics-totals_example :
    ((p : Outcome)
      → counter (record_metrics one_waits Outcome.added 1000 0 none 2).totals (Field.of p)
        ≡ counter one_waits.totals (Field.of p) + (if eq_outcome Outcome.added p then 2 else 0))
    × (counter (record_metrics one_waits Outcome.added 1000 0 none 2).totals Field.ms
        ≡ counter one_waits.totals Field.ms + 0)
record_metrics-totals_example = record_metrics-totals one_waits Outcome.added 1000 0 none 2

add_job-once_example :
    add_job one_waits keyed_add ≡ already_there one_waits (add_job empty_store keyed_add).1.0
add_job-once_example = add_job-once empty_store keyed_add 90 refl

-- The flow, added to the empty queue.
abbrev with_flow : Store backed
with_flow = (add_flow empty_store none tree 1000).0

add_flow-ids_example :
    ((add_flow empty_store none tree 1000).1 ≡ suc 0) × (with_flow.next_id ≡ 0 + count_nodes tree)
add_flow-ids_example = add_flow-ids empty_store none tree 1000 refl

next_slot-least_example :
    (1234 < next_slot 1234 500)
    × (next_slot 1234 500 % 500 ≡ 0)
    × (1234 < 4 * 500 → next_slot 1234 500 ≤ 4 * 500)
next_slot-least_example = next_slot-least 1234 500 4 (ground arith)

compute_backoff-bounded_example :
    (compute_backoff (Backoff.exponential 100 1000) 6 0 10 ≤ 1000)
    × (compute_backoff (Backoff.exponential 100 1000) 6 5 10 ≤ 2 * 1000)
compute_backoff-bounded_example =
    compute_backoff-bounded 100 1000 6 5 10 (ground arith) (ground arith) (ground arith)

abbrev settled : Store backed
settled = settle_child_completed with_flow 2 the_job "8" 3000

settle_child_completed-barrier_example :
    (settled.results the_job 2 ≡ some "8")
    × (settled.deps the_job ≡ remove_all 2 (with_flow.deps the_job))
    × (((length (remove_all 2 (with_flow.deps the_job)) == 0) ≡ false
          × (state_of settled the_job ≡ state_of with_flow the_job)
          × (backed.zscore settled.waiting_children the_job
              ≡ backed.zscore with_flow.waiting_children the_job))
        ⊎ ((length (remove_all 2 (with_flow.deps the_job)) == 0) ≡ true
            × (backed.zscore settled.waiting_children the_job ≡ none)
            × IsLetGo settled the_job (hget with_flow the_job (λ j. j.ckey))))
unfolding add_flow create_node create_each lookup
settle_child_completed-barrier_example =
    settle_child_completed-barrier with_flow 2 the_job "8" 3000 refl refl

-- A parent and its child.
abbrev family : Store backed
family = record empty_store {
  jobs = update (update (λ _. none) 1 (some blank)) 2 (some (record blank { parent_id = some 1 }));
}

walk_up-root_example : hget family (walk_up 2 family 2) (λ j. j.parent_id) ≡ none
walk_up-root_example =
    walk_up-root 2 family 2
      (λ i p e. elim (Bool-cases (2 == i)) [
        | inl child ↦ ground (arith, e)
        | inr other ↦ elim (Bool-cases (1 == i)) [
          | inl up ↦ ground (arith, e)
          | inr past ↦ ground (arith, e)
        ]
      ])
      (ground arith)
