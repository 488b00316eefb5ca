-- ===== src/Scripts/Cancel.antt =====
-- toro/scripts.py: `CANCEL_JOB`. The walk down a flow takes fuel, as those of `Retention` do.
use toro.Prelude.{
  ℕ, zero, suc, List, [], ◌∷◌, true, not, ◌||◌, Option, none, some, ◌==◌, if◌then◌else◌, is_some,
  get_or_else,
}
use toro.Redis.{Redis}
use toro.Job.{Job, JobState, Reason, is_finished, is_state}
use toro.Store.{Store, Outcome, Event, hget, hset, state_of, publish}
use toro.Scripts.Keyed.{unkey}
use toro.Scripts.Metrics.{record_metrics}
use toro.Scripts.Retention.{record_finished, children_of, trim_budget}
use toro.Scripts.Flow.{settle_child_gone}
use toro.Scripts.Remove.{ask_to_stop}

-- `saveReason`
abbrev pub save_reason : Option Reason → Job → Job
save_reason none j = j
save_reason (some why) j = record j { cancel_reason = some why }

-- What `cancelOne` threads: the store, the budget and how many jobs were stopped.
abbrev pub Stopping : Redis → Type 0
Stopping R = Store R × ℕ × ℕ

module _ {R : Redis} where
  -- A job that has not started leaves the place that its state names.
  unfoldable pub leave_waiting : Store R → ℕ → Option JobState → Store R
  leave_waiting s id (some JobState.wait) = record s { prioritized = R.zrem s.prioritized id }
  leave_waiting s id (some JobState.delayed) = record s { delayed = R.zrem s.delayed id }
  leave_waiting s id (some JobState.held) = record s { held = R.zrem s.held id }
  leave_waiting s id (some JobState.waiting_children) = record s {
    waiting_children = R.zrem s.waiting_children id;
  }
  leave_waiting s id _ = s

  -- A waiting job is ended here.
  unfoldable pub end_waiting : Store R → ℕ → ℕ → Option Reason → ℕ → Store R × ℕ
  unfolding leave_waiting unkey record_finished record_metrics
  end_waiting s budget id why now =
      let state = state_of s id in
      let s1 = unkey (leave_waiting s id state) id state (hget s id (λ j. j.ckey)) now in
      let (s2, b) =
        record_finished (hset s1 id (save_reason why)) budget id now
          (λ j. record j { cancel = true }) JobState.cancelled in
      (publish (record_metrics s2 Outcome.cancelled now 0 none 1) (Event.job_cancelled id why), b)

  unfoldable pub cancel_one : Stopping R → ℕ → Option Reason → ℕ → Stopping R
  unfolding end_waiting
  cancel_one (s, budget, stopped) id why now =
      let state = state_of s id in
      let asked = ask_to_stop (hset s id (λ j. save_reason why (record j { cancel = true }))) id in
      let (s1, b) = end_waiting s budget id why now in
      if not (is_some state) || is_finished state
      then (s, budget, stopped)
      else if is_state JobState.active state
      then (asked, budget, suc stopped)
      else (s1, b, suc stopped)

  unfoldable pub cancel_each : (Stopping R → ℕ → Stopping R) → Stopping R → List ℕ → Stopping R
  cancel_each cancel st [] = st
  cancel_each cancel st (cid ∷ cids) = cancel_each cancel (cancel st cid) cids

  unfoldable pub cancel_tree : ℕ → Option Reason → ℕ → Stopping R → ℕ → Stopping R
  unfolding cancel_one cancel_each
  cancel_tree zero why now st id = st
  cancel_tree (suc f) why now st id =
      cancel_each (cancel_tree f why now) (cancel_one st id why now)
        (children_of (hget st.0 id (λ j. j.children)))

  -- 0: nothing to cancel; 1: cancelled here; 2: a running job was asked.
  unfoldable pub cancel_job : Store R → ℕ → Option Reason → ℕ → Store R × ℕ
  unfolding cancel_tree settle_child_gone
  cancel_job s id why now =
      let state = state_of s id in
      let (s1, b, stopped) = cancel_tree (suc s.next_id) why now (s, trim_budget, 0) id in
      let settled =
        (settle_child_gone (suc id) s1 b id (hget s id (λ j. j.parent_id))
          (hget s id (λ j. j.on_fail)) (get_or_else why (Reason.text "cancelled")) now true).0 in
      if not (is_some state)
      then (s, 0)
      else if stopped == 0
      then (s1, 0)
      else if is_finished state
      then (s1, 1)
      else if is_state JobState.active state
      then (s1, 2)
      else (settled, 1)
