-- ===== src/Placement/Finishes.antt =====
-- The placement of jobs through a finish: `MOVE_TO_COMPLETED`, `MOVE_TO_FAILED`, `MOVE_TO_CANCELLED`
-- and `RELEASE_JOB` of toro/scripts.py.
use toro.Prelude.{
  ℕ, suc, ◌+◌, refl, Bool, true, false, inl, inr, Option, none, some, String, ◌==◌, Bool-cases,
  Option-cases, arith, is_some, if◌then◌else◌, update, remove_all, count, ltb,
}
use toro.Redis.{Redis}
use toro.Job.{JobState, Reason}
use toro.Store.{Store, Outcome, hget, hset}
use toro.Scripts.Order.{promote_due}
use toro.Scripts.Run.{Reply, owns, release_run, recall_finish, remember_finish, done}
use toro.Scripts.Claim.{Limits}
use toro.Scripts.Retention.{trim_budget}
use toro.Scripts.Metrics.{record_flow}
use toro.Scripts.Flow.{settle_child_completed}
use toro.Scripts.Finish.{
  Finish, set_failure, wake_if_waiting, finish_answer, count_attempt, commit_completed,
  move_to_completed, retry_later, commit_failed, move_to_failed, commit_cancelled,
  move_to_cancelled, release_job,
}
use toro.Placement.{InHand, IsPlaced, Returned}
use toro.Placement.Moves.{enqueue-IsPlaced, delay-IsPlaced}
use toro.Placement.Hands.{from_active}
use toro.Placement.Claims.{promote_due-IsPlaced}
use toro.Placement.Record.{record_finished-IsPlaced}
use toro.Placement.Flows.{
  settle_child_completed-IsPlaced, settle_child_gone-IsPlaced, record_metrics-IsPlaced,
  record_flow-IsPlaced, told-IsPlaced,
}
use toro.Placement.Guards.{
  write-InHand, wake_if_waiting-IsPlaced, remember_finish-IsPlaced, finish_answer-IsPlaced,
  RunReleased, unlock-IsPlaced, release_run-Released, guarded-Returned,
}

module _ {R : Redis} where
  counted_flow :
      (s : Store R) (done_flow : Bool) (up : Option ℕ) (is_parent : Bool) (now dur : ℕ)
      → IsPlaced s
      → IsPlaced
          (if is_parent then if is_some up then s else record_flow s done_flow now dur else s)
  counted_flow s done_flow (some p) true now dur h = h
  counted_flow s done_flow none true now dur h = record_flow-IsPlaced s done_flow now dur h
  counted_flow s done_flow up false now dur h = h

  settled_parent :
      (s : Store R) (id : ℕ) (up : Option ℕ) (value : String) (now : ℕ)
      → IsPlaced s
      → IsPlaced (elim up as (λ _. Store R) [
        | none ↦ s
        | some p ↦ settle_child_completed s id p value now
      ])
  settled_parent s id none value now h = h
  settled_parent s id (some p) value now h = settle_child_completed-IsPlaced s id p value now h

  count_attempt-InHand :
      {b : Bool} {was : Option JobState} (s : Store R) (id : ℕ)
      → InHand b was s id
      → InHand b was (count_attempt s id) id
  count_attempt-InHand s id h =
      write-InHand s id (λ j. record j { attempts_made = suc j.attempts_made }) (λ j. refl)
        (λ j. refl) h

  commit_completed-IsPlaced :
      (s : Store R) (a : Finish) (value : String) (inline : Bool)
      → InHand true (some JobState.active) s a.job_id
      → IsPlaced (commit_completed s a value inline)
  unfolding commit_completed
  commit_completed-IsPlaced s a value inline h = told-IsPlaced _ _ (
      settled_parent _ a.job_id (hget s a.job_id (λ j. j.parent_id)) value a.now (
        counted_flow _ true (hget s a.job_id (λ j. j.parent_id))
          (is_some (hget s a.job_id (λ j. j.children))) a.now _
          (record_metrics-IsPlaced _ Outcome.completed a.now _ _ 1 (
            record_finished-IsPlaced (count_attempt s a.job_id) trim_budget a.job_id a.now
              (λ j. record j { returnvalue = some value }) JobState.completed refl refl (λ j. refl)
              (count_attempt-InHand s a.job_id h)))))

  -- From a store with every job in place, MOVE_TO_COMPLETED leaves every job in place again: each job is in the one collection that its state
  -- names, and each key with its holder.
  -- It raises, and changes nothing, where the limits of a claim are refused.
  pub move_to_completed-IsPlaced :
      (s : Store R) (a : Finish) (value : String) (inline : Bool)
      → IsPlaced s
      → Returned (move_to_completed s a value inline)
  unfolding move_to_completed
  move_to_completed-IsPlaced s a value inline h =
      guarded-Returned s a (λ t l. finish_answer (commit_completed t a value inline) a l 1)
        (λ t l k. finish_answer-IsPlaced _ a l 1 (commit_completed-IsPlaced t a value inline k)) h

  retry_later-IsPlaced :
      (s : Store R) (a : Finish) (backoff : ℕ)
      → InHand true (some JobState.active) s a.job_id
      → IsPlaced (retry_later s a backoff)
  unfolding retry_later
  retry_later-IsPlaced s a backoff h = elim (Bool-cases (ltb 0 backoff)) [
    | inl later ↦
        rw (later, retry_later)
          (delay-IsPlaced s a.job_id (a.now + backoff)
            (λ j. record j { state = some JobState.delayed }) (λ j. refl) (λ j. refl) h)
    | inr at_once ↦
        rw (at_once, retry_later)
          (enqueue-IsPlaced s a.job_id _ a.now (λ j. record j { state = some JobState.wait })
            (λ j. refl) (λ j. refl) h)
  ]

  commit_failed-IsPlaced :
      (s : Store R) (a : Finish) (reason : Reason)
      → InHand true (some JobState.active) s a.job_id
      → IsPlaced (commit_failed s a reason)
  unfolding commit_failed
  commit_failed-IsPlaced s a reason h =
      settle_child_gone-IsPlaced (suc a.job_id) _ _ a.job_id _ _ reason a.now false (
        counted_flow _ false (hget s a.job_id (λ j. j.parent_id))
          (is_some (hget s a.job_id (λ j. j.children))) a.now 0
          (told-IsPlaced _ _ (
            record_metrics-IsPlaced _ Outcome.failed a.now _ _ 1 (
              record_finished-IsPlaced s trim_budget a.job_id a.now
                (λ j. record j { failed_reason = some reason }) JobState.failed refl refl
                (λ j. refl) h))))

  set_failure-InHand :
      {b : Bool} {was : Option JobState} (s : Store R) (id : ℕ) (reason : Reason)
      (trace : Option String)
      → InHand b was s id
      → InHand b was (hset s id (set_failure reason trace)) id
  set_failure-InHand s id reason none h =
      write-InHand s id (set_failure reason none) (λ j. refl) (λ j. refl) h
  set_failure-InHand s id reason (some t) h =
      write-InHand s id (set_failure reason (some t)) (λ j. refl) (λ j. refl) h

  -- From a store with every job in place, MOVE_TO_FAILED leaves every job in place again: each job is in the one collection that its state
  -- names, and each key with its holder.
  -- It raises, and changes nothing, where the limits of a claim are refused.
  pub move_to_failed-IsPlaced :
      (s : Store R) (a : Finish) (reason : Reason) (trace : Option String)
      (max_attempts backoff : ℕ)
      → IsPlaced s
      → Returned (move_to_failed s a reason trace max_attempts backoff)
  unfolding move_to_failed
  move_to_failed-IsPlaced s a reason trace max_attempts backoff h =
      guarded-Returned s a
        (λ t l.
          let s2 = hset t a.job_id (set_failure reason trace) in
          if ltb (hget s2 a.job_id (λ j. j.attempts_made)) max_attempts
          then finish_answer (retry_later s2 a backoff) a l 0
          else finish_answer (commit_failed s2 a reason) a l 1)
        (λ t l k.
          branch (hset t a.job_id (set_failure reason trace)) l
            (set_failure-InHand t a.job_id reason trace k))
        h
    where
      branch :
          (t : Store R) (l : Limits)
          → InHand true (some JobState.active) t a.job_id
          → (let answer : Store R × Reply =
                if ltb (hget t a.job_id (λ j. j.attempts_made)) max_attempts
                then finish_answer (retry_later t a backoff) a l 0
                else finish_answer (commit_failed t a reason) a l 1 in
              IsPlaced answer.0)
      branch t l k = elim (Bool-cases (ltb (hget t a.job_id (λ j. j.attempts_made)) max_attempts)) [
        | inl left ↦ rw left (finish_answer-IsPlaced _ a l 0 (retry_later-IsPlaced t a backoff k))
        | inr last ↦ rw last (finish_answer-IsPlaced _ a l 1 (commit_failed-IsPlaced t a reason k))
      ]

  pub commit_cancelled-IsPlaced :
      (s : Store R) (id now : ℕ)
      → InHand true (some JobState.active) s id
      → IsPlaced (commit_cancelled s id now)
  unfolding commit_cancelled
  commit_cancelled-IsPlaced s id now h = settle_child_gone-IsPlaced (suc id) _ _ id _ _ _ now true (
      told-IsPlaced _ _ (
        record_metrics-IsPlaced _ Outcome.cancelled now 0 none 1 (
          record_finished-IsPlaced (count_attempt s id) trim_budget id now
            (λ j. record j { cancel = true }) JobState.cancelled refl refl (λ j. refl)
            (count_attempt-InHand s id h))))

  -- From a store with every job in place, MOVE_TO_CANCELLED leaves every job in place again: each job is in the one collection that its state
  -- names, and each key with its holder.
  pub move_to_cancelled-IsPlaced :
      (s : Store R) (id token : ℕ) (claim : Option ℕ) (now lock_ms : ℕ)
      → IsPlaced s
      → IsPlaced (move_to_cancelled s id token claim now lock_ms).0
  unfolding move_to_cancelled
  move_to_cancelled-IsPlaced s id token claim now lock_ms h =
      elim (Option-cases (recall_finish s token id claim)) [
        | inr (seen, e) ↦ rw (e, move_to_cancelled) h
        | inl e ↦
            rw (e, move_to_cancelled)
              (past (release_run s token id claim) (release_run-Released s token id claim h))
      ]
    where
      past :
          (r : Store R × Option Reply)
          → RunReleased id r
          → (let answer : Store R × Reply = elim r.1 as (λ _. Store R × Reply) [
            | some refused ↦ (r.0, refused)
            | none ↦ (
              remember_finish
                  (wake_if_waiting (promote_due (commit_cancelled r.0 id now) now))
                  token
                  id
                  claim
                  1
                  none
                  lock_ms,
              done 1,
            )
          ] in
              IsPlaced answer.0)
      past (t, none) k = remember_finish-IsPlaced _ token id claim 1 none lock_ms (
          wake_if_waiting-IsPlaced _
            (promote_due-IsPlaced _ now (commit_cancelled-IsPlaced t id now k)))
      past (t, some refused) k = k

  -- From a store with every job in place, RELEASE_JOB leaves every job in place again: each job is in the one collection that its state
  -- names, and each key with its holder.
  pub release_job-IsPlaced :
      (s : Store R) (id token : ℕ) (claim : Option ℕ) (now : ℕ)
      → IsPlaced s
      → IsPlaced (release_job s id token claim now).0
  unfolding release_job
  release_job-IsPlaced s id token claim now h = elim (Bool-cases (owns s token id claim)) [
    | inr other ↦ rw (other, release_job) h
    | inl own ↦
        rw (own, release_job)
          (elim (Bool-cases (count id s.active == 0)) [
            | inl out ↦ rw out h
            | inr in_list ↦ rw in_list (
                enqueue-IsPlaced
                  (record s { active = remove_all id s.active; lock = update s.lock id none }) id _
                  now (λ j. record j { state = some JobState.wait }) (λ j. refl) (λ j. refl)
                  (from_active (record s { lock = update s.lock id none }) id
                    (unlock-IsPlaced s id h) (ground (arith, h.placed id))))
          ])
  ]
