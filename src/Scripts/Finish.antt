-- ===== src/Scripts/Finish.antt =====
-- toro/scripts.py: the finish scripts `MOVE_TO_COMPLETED`, `MOVE_TO_FAILED`, `MOVE_TO_CANCELLED` and
-- `RELEASE_JOB`, with `finishAnswer` and `wakeIfWaiting`.
use toro.Prelude.{
  ℕ, suc, ◌+◌, ◌-◌, Bool, true, false, not, ◌||◌, Option, none, some, String, ltb, ◌==◌,
  if◌then◌else◌, is_some, update, get_or_else, remove_all, count,
}
use toro.Redis.{Redis}
use toro.Job.{Job, JobState, Reason}
use toro.Store.{Store, Outcome, Event, hget, hset, publish}
use toro.Scripts.Order.{promote_due, wake, wake_at, enqueue}
use toro.Scripts.Run.{
  Reply, lock_lost, not_active, done, done_job, done_due, owns, release_run, recall_finish,
  remember_finish,
}
use toro.Scripts.Claim.{
  Limits, Claim, nothing, rate_limited, due_at, claimed, require_cap, own_limits, acquire_next,
  is_empty,
}
use toro.Scripts.Metrics.{record_metrics, record_flow}
use toro.Scripts.Retention.{record_finished, trim_budget}
use toro.Scripts.Flow.{settle_child_completed, settle_child_gone}

-- Whose run a finish is, and what it asks for. `fetch`: the next job is claimed in the same call.
pub record Finish : Type 0 where
  pub job_id : ℕ
  pub token : ℕ
  pub claim : Option ℕ
  pub now : ℕ
  pub fetch : Bool
  pub lock_ms : ℕ
  pub raw_cap : Option ℕ
  pub rl_max : ℕ
  pub rl_duration : ℕ

-- The limits, read before the first write, and only to fetch.
unfoldable pub finish_limits : {R : Redis} → Store R → Finish → Option Limits
unfolding require_cap own_limits
finish_limits s a =
    if a.fetch
    then elim (require_cap a.raw_cap) [
      | none ↦ none
      | some c ↦
          own_limits s.limits (record { cap = c; rl_max = a.rl_max; rl_duration = a.rl_duration })
    ]
    else some (record { cap = 0; rl_max = a.rl_max; rl_duration = a.rl_duration })

-- A rate limit put the job back: nothing was fetched.
abbrev pub reply_of : ℕ → Claim → Reply
reply_of outcome nothing = done outcome
reply_of outcome (rate_limited retry) = done outcome
reply_of outcome (due_at due) = done_due outcome due
reply_of outcome (claimed job id) = done_job outcome job id

abbrev pub fetched : Claim → Option ℕ
fetched (claimed job id) = some id
fetched _ = none

abbrev pub is_rate_limited : Claim → Bool
is_rate_limited (rate_limited retry) = true
is_rate_limited _ = false

abbrev pub set_failure : Reason → Option String → Job → Job
set_failure reason none j = record j {
  attempts_made = suc j.attempts_made;
  failed_reason = some reason;
}
set_failure reason (some trace) j = record j {
  attempts_made = suc j.attempts_made;
  failed_reason = some reason;
  stacktrace = some trace;
}

abbrev pub outcome_of : Reply → Reply
outcome_of (done_job outcome job id) = done outcome
outcome_of (done_due outcome due) = done outcome
outcome_of r = r

module _ {R : Redis} where
  unfoldable pub wake_if_waiting : Store R → Store R
  unfolding wake
  wake_if_waiting s = if is_empty (R.zrange s.prioritized) then s else wake s

  -- The claim of a finish that fetches, or what is due moved and a worker woken.
  unfoldable pub fetch_next : Store R → Finish → Limits → Store R × Claim
  unfolding acquire_next promote_due wake_if_waiting wake
  fetch_next s a l =
      if a.fetch
      then (let (s1, c) = acquire_next s a.token l a.now in
          (if is_rate_limited c then wake s1 else s1, c))
      else (wake_if_waiting (promote_due s a.now), nothing)

  unfoldable pub finish_answer : Store R → Finish → Limits → ℕ → Store R × Reply
  unfolding fetch_next remember_finish
  finish_answer s a l outcome =
      let (s1, c) = fetch_next s a l in
      (
        remember_finish s1 a.token a.job_id a.claim outcome (fetched c) a.lock_ms,
        reply_of outcome c,
      )

  abbrev pub count_attempt : Store R → ℕ → Store R
  count_attempt s id = hset s id (λ j. record j { attempts_made = suc j.attempts_made })

  -- The event carries a small result, or one that the hash no longer holds.
  abbrev pub inlined : Bool → Store R → ℕ → String → Option String
  inlined inline s id value = if inline || not (is_some (s.jobs id)) then some value else none

  -- Past the guards of MOVE_TO_COMPLETED: the commit itself.
  unfoldable pub commit_completed : Store R → Finish → String → Bool → Store R
  unfolding record_finished record_metrics record_flow settle_child_completed
  commit_completed s a value inline =
      let id = a.job_id in
      let started = get_or_else (hget s id (λ j. j.processed_on)) a.now in
      let name = hget s id (λ j. j.name) in
      let parent = hget s id (λ j. j.parent_id) in
      let is_parent = is_some (hget s id (λ j. j.children)) in
      let added_on = get_or_else (hget s id (λ j. j.timestamp)) a.now in
      let s1 = count_attempt s id in
      let s2 =
        (record_finished s1 trim_budget id a.now (λ j. record j { returnvalue = some value })
          JobState.completed).0 in
      let s3 = record_metrics s2 Outcome.completed a.now (a.now - started) name 1 in
      let s4 =
        if is_parent
        then if is_some parent then s3 else record_flow s3 true a.now (a.now - added_on)
        else s3 in
      let s5 = elim parent as (λ _. Store R) [
        | none ↦ s4
        | some p ↦ settle_child_completed s4 id p value a.now
      ] in
      publish s5 (Event.job_completed id (inlined inline s5 id value))

  -- What the guards of a finish let through: `none` raises, a reply refuses or replays.
  unfoldable pub guarded :
      Store R → Finish → (Store R → Limits → Store R × Reply) → Option (Store R × Reply)
  unfolding recall_finish finish_limits release_run
  guarded s a commit = elim (recall_finish s a.token a.job_id a.claim) [
    | some seen ↦ some (s, seen)
    | none ↦ elim (finish_limits s a) [
      | none ↦ none
      | some l ↦
          let (s1, refused) = release_run s a.token a.job_id a.claim in
          elim refused as (λ _. Option (Store R × Reply)) [
            | some r ↦ some (s1, r)
            | none ↦ some (commit s1 l)
          ]
    ]
  ]

  unfoldable pub move_to_completed : Store R → Finish → String → Bool → Option (Store R × Reply)
  unfolding guarded commit_completed finish_answer
  move_to_completed s a value inline =
      guarded s a (λ s1 l. finish_answer (commit_completed s1 a value inline) a l 1)

  -- An attempt is left: back to the queue, or to `delayed` for its backoff.
  unfoldable pub retry_later : Store R → Finish → ℕ → Store R
  unfolding wake_at enqueue
  retry_later s a backoff =
      let id = a.job_id in
      if ltb 0 backoff
      then (let s1 = hset s id (λ j. record j { state = some JobState.delayed }) in
          wake_at (record s1 { delayed = R.zadd s1.delayed (a.now + backoff) id })
            (a.now + backoff))
      else (let s1 = hset s id (λ j. record j { state = some JobState.wait }) in
          enqueue s1 id (hget s1 id (λ j. j.priority)) a.now)

  -- No attempt is left.
  unfoldable pub commit_failed : Store R → Finish → Reason → Store R
  unfolding record_finished record_metrics record_flow settle_child_gone
  commit_failed s a reason =
      let id = a.job_id in
      let started = get_or_else (hget s id (λ j. j.processed_on)) a.now in
      let name = hget s id (λ j. j.name) in
      let parent = hget s id (λ j. j.parent_id) in
      let on_fail = hget s id (λ j. j.on_fail) in
      let is_parent = is_some (hget s id (λ j. j.children)) in
      let (s1, b) =
        record_finished s trim_budget id a.now (λ j. record j { failed_reason = some reason })
          JobState.failed in
      let s2 = record_metrics s1 Outcome.failed a.now (a.now - started) name 1 in
      let s3 = publish s2 (Event.job_failed id reason) in
      let s4 =
        if is_parent then if is_some parent then s3 else record_flow s3 false a.now 0 else s3 in
      (settle_child_gone (suc id) s4 b id parent on_fail reason a.now false).0

  unfoldable pub move_to_failed :
      Store R → Finish → Reason → Option String → ℕ → ℕ → Option (Store R × Reply)
  unfolding guarded retry_later commit_failed finish_answer
  move_to_failed s a reason trace max_attempts backoff = guarded s a λ s1 l.
      let s2 = hset s1 a.job_id (set_failure reason trace) in
      if ltb (hget s2 a.job_id (λ j. j.attempts_made)) max_attempts
      then finish_answer (retry_later s2 a backoff) a l 0
      else finish_answer (commit_failed s2 a reason) a l 1

  -- Past the guards of MOVE_TO_CANCELLED.
  unfoldable pub commit_cancelled : Store R → ℕ → ℕ → Store R
  unfolding record_finished record_metrics settle_child_gone
  commit_cancelled s id now =
      let parent = hget s id (λ j. j.parent_id) in
      let on_fail = hget s id (λ j. j.on_fail) in
      let why = hget s id (λ j. j.cancel_reason) in
      let (s1, b) =
        record_finished (count_attempt s id) trim_budget id now (λ j. record j { cancel = true })
          JobState.cancelled in
      let s2 = record_metrics s1 Outcome.cancelled now 0 none 1 in
      let s3 = publish s2 (Event.job_cancelled id why) in
      (settle_child_gone (suc id) s3 b id parent on_fail (get_or_else why (Reason.text "cancelled"))
        now true).0

  unfoldable pub move_to_cancelled : Store R → ℕ → ℕ → Option ℕ → ℕ → ℕ → Store R × Reply
  unfolding recall_finish release_run commit_cancelled promote_due wake_if_waiting remember_finish
  move_to_cancelled s id token claim now lock_ms = elim (recall_finish s token id claim) [
    | some seen ↦ (s, outcome_of seen)
    | none ↦
        let (s1, refused) = release_run s token id claim in
        elim refused as (λ _. Store R × Reply) [
          | some r ↦ (s1, r)
          | none ↦ (
            remember_finish (wake_if_waiting (promote_due (commit_cancelled s1 id now) now)) token
                id claim 1 none lock_ms,
            done 1,
          )
        ]
  ]

  -- A job that its worker had to abandon goes back to the queue, and nothing is counted.
  unfoldable pub release_job : Store R → ℕ → ℕ → Option ℕ → ℕ → Store R × Reply
  unfolding owns enqueue count remove_all
  release_job s id token claim now =
      if owns s token id claim
      then if count id s.active == 0
        then (s, not_active)
        else (let s1 = record s { active = remove_all id s.active; lock = update s.lock id none } in
            let s2 = hset s1 id (λ j. record j { state = some JobState.wait }) in
            (enqueue s2 id (hget s2 id (λ j. j.priority)) now, done 1))
      else (s, lock_lost)
