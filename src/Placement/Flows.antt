-- ===== src/Placement/Flows.antt =====
-- The placement of jobs where a child settles into its parent: `releaseParent`,
-- `settleChildCompleted` and `settleChildGone` of toro/scripts.py.
use toro.Prelude.{
  ℕ, zero, suc, ◌≡◌, refl, Bool, true, false, inl, inr, Option, none, some, String, ◌==◌, ◌∷◌,
  Bool-cases, arith, is_some, if◌then◌else◌, update, remove_all, length,
}
use toro.Redis.{Redis}
use toro.Job.{JobState, OnFail, Reason}
use toro.Store.{Store, Outcome, Event, hget, hset}
use toro.Scripts.Order.{enqueue}
use toro.Scripts.Keyed.{take_key}
use toro.Scripts.Metrics.{record_metrics, record_flow}
use toro.Scripts.Flow.{
  take_and_enqueue, release_parent, leave_barrier, settle_child_completed, record_child_gone,
  end_parent, settle_child_gone, continues,
}
use toro.Placement.{InHand, IsPlaced, ckey_of}
use toro.Placement.Moves.{enqueue-IsPlaced}
use toro.Placement.Keys.{Taken, take_key-Taken}
use toro.Placement.Hands.{from_parked}
use toro.Placement.Record.{record_finished-IsPlaced}

module _ {R : Redis} where
  enqueue-Taken :
      (was : Option JobState) (id priority now : ℕ) (r : Store R × Bool)
      → Taken was id r
      → IsPlaced (
          if r.1
          then enqueue (hset r.0 id (λ j. record j { state = some JobState.wait })) id priority now
          else r.0)
  enqueue-Taken was id priority now (t, true) h =
      enqueue-IsPlaced t id priority now (λ j. record j { state = some JobState.wait }) (λ j. refl)
        (λ j. refl) h
  enqueue-Taken was id priority now (t, false) h = h

  -- The job in hand is queued, or held behind its key.
  pub take_and_enqueue-IsPlaced :
      {was : Option JobState} (s : Store R) (id : ℕ) (key : Option ℕ) (priority now : ℕ)
      → (key ≡ none → ckey_of s id ≡ none)
      → InHand false was s id
      → IsPlaced (take_and_enqueue s id key priority now)
  unfolding take_and_enqueue
  take_and_enqueue-IsPlaced s id key priority now e h =
      enqueue-Taken _ id priority now (take_key s id key priority now)
        (take_key-Taken s id key priority now e h)

  release_parent-IsPlaced :
      (s : Store R) (parent now : ℕ) → IsPlaced s → IsPlaced (release_parent s parent now)
  unfolding release_parent
  release_parent-IsPlaced s parent now h =
      elim (Bool-cases (is_some (R.zscore s.waiting_children parent))) [
        | inr free ↦ rw (free, release_parent) h
        | inl parked ↦
            rw (parked, release_parent)
              (take_and_enqueue-IsPlaced
                (record s { waiting_children = R.zrem s.waiting_children parent }) parent _ _ now
                (λ e. e) (from_parked s parent h (ground (arith, h.placed parent))))
      ]

  pub leave_barrier-IsPlaced :
      (s : Store R) (parent id now : ℕ) → IsPlaced s → IsPlaced (leave_barrier s parent id now)
  unfolding leave_barrier
  leave_barrier-IsPlaced s parent id now h =
      let t : Store R = record s { deps = update s.deps parent (remove_all id (s.deps parent)) } in
      let p : IsPlaced t = record { placed = h.placed; keyed = h.keyed } in
      elim (Bool-cases (length (t.deps parent) == 0)) [
        | inl last ↦ rw (last, leave_barrier) (release_parent-IsPlaced t parent now p)
        | inr more ↦ rw (more, leave_barrier) p
      ]

  pub settle_child_completed-IsPlaced :
      (s : Store R) (id parent : ℕ) (value : String) (now : ℕ)
      → IsPlaced s
      → IsPlaced (settle_child_completed s id parent value now)
  unfolding settle_child_completed
  settle_child_completed-IsPlaced s id parent value now h =
      elim (Bool-cases (is_some (s.jobs parent))) [
        | inl here ↦
            rw (here, settle_child_completed)
              (leave_barrier-IsPlaced
                (record s {
                  results = update s.results parent (update (s.results parent) id (some value));
                })
                parent id now (record { placed = h.placed; keyed = h.keyed }))
        | inr gone ↦ rw (gone, settle_child_completed) h
      ]

  -- The counters and the channel stand apart from the places.
  pub record_metrics-IsPlaced :
      (s : Store R) (o : Outcome) (now dur : ℕ) (name : Option ℕ) (n : ℕ)
      → IsPlaced s
      → IsPlaced (record_metrics s o now dur name n)
  unfolding record_metrics
  record_metrics-IsPlaced s o now dur name n h = record { placed = h.placed; keyed = h.keyed }

  pub record_flow-IsPlaced :
      (s : Store R) (completed : Bool) (now dur : ℕ)
      → IsPlaced s
      → IsPlaced (record_flow s completed now dur)
  unfolding record_flow
  record_flow-IsPlaced s completed now dur h = record { placed = h.placed; keyed = h.keyed }

  pub told-IsPlaced :
      (s : Store R) (e : Event) → IsPlaced s → IsPlaced (record s { events = e ∷ s.events })
  told-IsPlaced s e h = record { placed = h.placed; keyed = h.keyed }

  end_parent-IsPlaced :
      (s : Store R) (budget parent : ℕ) (reason : Reason) (now : ℕ) (cancelled : Bool)
      → InHand false (some JobState.waiting_children) s parent
      → IsPlaced (end_parent s budget parent reason now cancelled).0
  unfolding end_parent
  end_parent-IsPlaced s budget parent reason now true h =
      told-IsPlaced _ (Event.job_cancelled parent none) (
        record_metrics-IsPlaced _ Outcome.cancelled now 0 none 1 (
          record_finished-IsPlaced s budget parent now (λ j. record j { cancel = true })
            JobState.cancelled refl refl (λ j. refl) h))
  end_parent-IsPlaced s budget parent reason now false h =
      told-IsPlaced _ (Event.job_failed parent reason) (
        counted (hget s parent (λ j. j.parent_id)) _ (
          record_metrics-IsPlaced _ Outcome.failed now 0 _ 1 (
            record_finished-IsPlaced s budget parent now
              (λ j. record j { failed_reason = some reason }) JobState.failed refl refl (λ j. refl)
              h)))
    where
      counted :
          (up : Option ℕ) (t : Store R)
          → IsPlaced t
          → IsPlaced (if is_some up then t else record_flow t false now 0)
      counted (some p) t k = k
      counted none t k = record_flow-IsPlaced t false now 0 k

  record_child_gone-IsPlaced :
      (s : Store R) (parent id : ℕ) (reason : Reason) (cancelled : Bool)
      → IsPlaced s
      → IsPlaced (record_child_gone s parent id reason cancelled)
  unfolding record_child_gone
  record_child_gone-IsPlaced s parent id reason true h = record {
    placed = h.placed;
    keyed = h.keyed;
  }
  record_child_gone-IsPlaced s parent id reason false h = record {
    placed = h.placed;
    keyed = h.keyed;
  }

  pub settle_child_gone-IsPlaced :
      (fuel : ℕ) (s : Store R) (budget id : ℕ) (parent : Option ℕ) (on_fail : Option OnFail)
      (reason : Reason) (now : ℕ) (cancelled : Bool)
      → IsPlaced s
      → IsPlaced (settle_child_gone fuel s budget id parent on_fail reason now cancelled).0
  unfolding settle_child_gone
  settle_child_gone-IsPlaced zero s budget id parent on_fail reason now cancelled h = h
  settle_child_gone-IsPlaced (suc f) s budget id none on_fail reason now cancelled h = h
  settle_child_gone-IsPlaced (suc f) s budget id (some parent) on_fail reason now cancelled h =
      elim (Bool-cases (continues on_fail)) [
        | inl on ↦
            rw (on, settle_child_gone)
              (elim (Bool-cases (is_some (s.jobs parent))) [
                | inl here ↦ rw here (
                    leave_barrier-IsPlaced _ parent id now
                      (record_child_gone-IsPlaced s parent id reason cancelled h))
                | inr gone ↦ rw gone h
              ])
        | inr off ↦
            rw (off, settle_child_gone)
              (elim (Bool-cases (is_some (R.zscore s.waiting_children parent))) [
                | inr free ↦ rw free h
                | inl parked ↦ rw parked (
                    let p = from_parked s parent h (ground (arith, h.placed parent)) in
                    settle_child_gone-IsPlaced f _ _ parent _ _ _ now cancelled (
                      end_parent-IsPlaced
                        (record s {
                          waiting_children = R.zrem s.waiting_children parent;
                          deps = update s.deps parent (remove_all id (s.deps parent));
                        })
                        budget parent _ now cancelled
                        (record {
                          state = p.state;
                          placed = p.placed;
                          keyed = p.keyed;
                          nowhere = p.nowhere;
                          key = p.key;
                        })))
              ])
      ]
