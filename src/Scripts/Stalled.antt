-- ===== src/Scripts/Stalled.antt =====
-- toro/scripts.py: `MOVE_STALLED`, the mark-and-sweep recovery of jobs whose worker died.
use toro.Prelude.{
  ℕ, suc, List, [], ◌∷◌, true, false, not, ◌&&◌, some, ltb, if◌then◌else◌, is_some, remove_one,
  count,
}
use toro.Redis.{Redis}
use toro.Job.{JobState, Reason}
use toro.Store.{Store, Outcome, Event, hget, hset, publish}
use toro.Scripts.Order.{enqueue}
use toro.Scripts.Metrics.{record_metrics, record_flow}
use toro.Scripts.Retention.{record_finished, trim_budget}
use toro.Scripts.Flow.{sadd, settle_child_gone}
use toro.Scripts.Finish.{wake_if_waiting}

abbrev pub stall_reason : Reason
stall_reason = Reason.text "job stalled more than allowable limit"

-- What the sweep threads: the store, the budget, and the ids failed and recovered.
abbrev pub Sweep : Redis → Type 0
Sweep R = Store R × ℕ × List ℕ × List ℕ

-- SADD of the whole active list.
unfoldable pub mark : List ℕ → List ℕ → List ℕ
unfolding sadd
mark [] marked = marked
mark (id ∷ ids) marked = mark ids (sadd id marked)

module _ {R : Redis} where
  unfoldable pub fail_stalled : Store R → ℕ → ℕ → ℕ → Store R × ℕ
  unfolding record_finished record_metrics record_flow settle_child_gone
  fail_stalled s budget id now =
      let name = hget s id (λ j. j.name) in
      let parent = hget s id (λ j. j.parent_id) in
      let on_fail = hget s id (λ j. j.on_fail) in
      let is_parent = is_some (hget s id (λ j. j.children)) in
      let (s1, b) =
        record_finished s budget id now (λ j. record j { failed_reason = some stall_reason })
          JobState.failed in
      let s2 =
        publish (record_metrics s1 Outcome.failed now 0 name 1)
          (Event.job_failed id stall_reason) in
      let up = settle_child_gone (suc id) s2 b id parent on_fail stall_reason now false in
      if is_some parent then up else (if is_parent then record_flow s2 false now 0 else s2, b)

  -- Out of `active`, and one stall counted.
  abbrev pub take_back : Store R → ℕ → Store R
  take_back s id =
      hset (record s { active = remove_one id s.active }) id
        (λ j. record j { stalled_counter = suc j.stalled_counter })

  unfoldable pub sweep_one : Sweep R → ℕ → ℕ → ℕ → Sweep R
  unfolding fail_stalled enqueue
  sweep_one (s, budget, failed, recovered) id max_stalled now =
      let s1 = take_back s id in
      let (s2, b) = fail_stalled s1 budget id now in
      let s3 = hset s1 id (λ j. record j { state = some JobState.wait }) in
      if not (is_some (s.lock id)) && ltb 0 (count id s.active)
      then if ltb max_stalled (hget s1 id (λ j. j.stalled_counter))
        then (s2, b, id ∷ failed, recovered)
        else (enqueue s3 id (hget s1 id (λ j. j.priority)) now, budget, failed, id ∷ recovered)
      else (s, budget, failed, recovered)

  unfoldable pub sweep_each : Sweep R → List ℕ → ℕ → ℕ → Sweep R
  unfolding sweep_one
  sweep_each w [] max_stalled now = w
  sweep_each w (id ∷ ids) max_stalled now =
      sweep_each (sweep_one w id max_stalled now) ids max_stalled now

  -- The ids failed and recovered, newest first.
  unfoldable pub sweep_marked : Store R → ℕ → ℕ → Store R × List ℕ × List ℕ
  unfolding sweep_each wake_if_waiting mark
  sweep_marked s max_stalled now =
      let (s1, b, failed, recovered) =
        sweep_each (record s { stalled = [] }, trim_budget, [], []) s.stalled max_stalled now in
      let s2 = elim failed as (λ _. Store R) [ [] ↦ s1 | _ ∷ _ ↦ wake_if_waiting s1 ] in
      (record s2 { stalled = mark s2.active s2.stalled }, failed, recovered)

  unfoldable pub move_stalled : Store R → ℕ → ℕ → ℕ → Store R × List ℕ × List ℕ
  unfolding sweep_marked
  move_stalled s max_stalled now throttle =
      if ltb 0 throttle
      then if s.stalled_check
        then (s, [], [])
        else sweep_marked (record s { stalled_check = true }) max_stalled now
      else sweep_marked s max_stalled now
