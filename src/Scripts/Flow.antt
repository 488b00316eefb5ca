-- ===== src/Scripts/Flow.antt =====
-- toro/scripts.py, `_LIB`: how a child settles into its parent (`releaseParent`,
-- `settleChildCompleted`, `settleChildGone`). The walk up takes fuel: an ancestor's id is below its
-- child's.
use toro.Prelude.{
  ℕ, zero, suc, List, ◌∷◌, Bool, true, false, Option, none, some, String, ◌==◌, if◌then◌else◌,
  is_some, update, remove_all, length, count,
}
use toro.Redis.{Redis}
use toro.Job.{JobState, OnFail, Reason}
use toro.Store.{Store, Outcome, Event, hget, hset, publish}
use toro.Scripts.Order.{enqueue}
use toro.Scripts.Keyed.{take_key}
use toro.Scripts.Metrics.{record_metrics, record_flow}
use toro.Scripts.Retention.{record_finished}

-- SADD
unfoldable pub sadd : ℕ → List ℕ → List ℕ
unfolding count
sadd id xs = if count id xs == 0 then id ∷ xs else xs

abbrev pub continues : Option OnFail → Bool
continues (some OnFail.continue) = true
continues _ = false

module _ {R : Redis} where
  -- A job that may run now if it gets its key: `takeKey`, then `wait` and `enqueue`.
  unfoldable pub take_and_enqueue : Store R → ℕ → Option ℕ → ℕ → ℕ → Store R
  unfolding take_key enqueue
  take_and_enqueue s id key priority now =
      let (s1, mine) = take_key s id key priority now in
      if mine
      then enqueue (hset s1 id (λ j. record j { state = some JobState.wait })) id priority now
      else s1

  unfoldable pub release_parent : Store R → ℕ → ℕ → Store R
  unfolding take_and_enqueue
  release_parent s parent now =
      if is_some (R.zscore s.waiting_children parent)
      then (let s1 = record s { waiting_children = R.zrem s.waiting_children parent } in
          take_and_enqueue s1 parent (hget s1 parent (λ j. j.ckey))
            (hget s1 parent (λ j. j.priority)) now)
      else s

  -- The child leaves the barrier, and the last one releases the parent.
  unfoldable pub leave_barrier : Store R → ℕ → ℕ → ℕ → Store R
  unfolding release_parent
  leave_barrier s parent id now =
      let s1 = record s { deps = update s.deps parent (remove_all id (s.deps parent)) } in
      if length (s1.deps parent) == 0 then release_parent s1 parent now else s1

  unfoldable pub settle_child_completed : Store R → ℕ → ℕ → String → ℕ → Store R
  unfolding leave_barrier
  settle_child_completed s id parent value now =
      if is_some (s.jobs parent)
      then leave_barrier
          (record s {
            results = update s.results parent (update (s.results parent) id (some value));
          })
          parent id now
      else s

  -- Under `continue` the parent keeps a record of the child, apart for a cancelled one.
  unfoldable pub record_child_gone : Store R → ℕ → ℕ → Reason → Bool → Store R
  record_child_gone s parent id reason cancelled =
      if cancelled
      then record s {
        ccancel = update s.ccancel parent (update (s.ccancel parent) id (some reason));
      }
      else record s { cfail = update s.cfail parent (update (s.cfail parent) id (some reason)) }

  -- The parent is failed, or cancelled, with its child.
  unfoldable pub end_parent : Store R → ℕ → ℕ → Reason → ℕ → Bool → Store R × ℕ
  unfolding record_finished record_metrics record_flow
  end_parent s budget parent reason now cancelled =
      let name = hget s parent (λ j. j.name) in
      let is_root = hget s parent (λ j. j.parent_id) in
      if cancelled
      then (let (s1, b) =
            record_finished s budget parent now (λ j. record j { cancel = true })
              JobState.cancelled in
          let s2 = record_metrics s1 Outcome.cancelled now 0 none 1 in
          (publish s2 (Event.job_cancelled parent none), b))
      else (let (s1, b) =
            record_finished s budget parent now (λ j. record j { failed_reason = some reason })
              JobState.failed in
          let s2 = record_metrics s1 Outcome.failed now 0 name 1 in
          let s3 = if is_some is_root then s2 else record_flow s2 false now 0 in
          (publish s3 (Event.job_failed parent reason), b))

  unfoldable pub settle_child_gone :
      ℕ → Store R → ℕ → ℕ → Option ℕ → Option OnFail → Reason → ℕ → Bool → Store R × ℕ
  unfolding record_child_gone leave_barrier end_parent
  settle_child_gone zero s budget id parent on_fail reason now cancelled = (s, budget)
  settle_child_gone (suc f) s budget id none on_fail reason now cancelled = (s, budget)
  settle_child_gone (suc f) s budget id (some parent) on_fail reason now cancelled =
      let s1 = record s {
        waiting_children = R.zrem s.waiting_children parent;
        deps = update s.deps parent (remove_all id (s.deps parent));
      } in
      let why = if cancelled then reason else Reason.of_child id reason in
      let grandparent = hget s1 parent (λ j. j.parent_id) in
      let parent_on_fail = hget s1 parent (λ j. j.on_fail) in
      let (s2, b) = end_parent s1 budget parent why now cancelled in
      let upward = settle_child_gone f s2 b parent grandparent parent_on_fail why now cancelled in
      if continues on_fail
      then (
        if is_some (s.jobs parent)
            then leave_barrier (record_child_gone s parent id reason cancelled) parent id now
            else s,
        budget,
      )
      else if is_some (R.zscore s.waiting_children parent)
      then upward
      else (s, budget)
