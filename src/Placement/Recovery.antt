-- ===== src/Placement/Recovery.antt =====
-- The placement of jobs through the recovery of stalled ones: `MOVE_STALLED` of toro/scripts.py.
use toro.Prelude.{
  ℕ, suc, ◌≡◌, refl, Bool, true, false, not, inl, inr, Option, none, some, List, [], ◌∷◌,
  Bool-cases, arith, is_some, if◌then◌else◌, ltb, count,
}
use toro.Redis.{Redis}
use toro.Job.{JobState}
use toro.Store.{Store, Outcome, Event, hget}
use toro.Scripts.Retention.{trim_budget}
use toro.Scripts.Metrics.{record_flow}
use toro.Scripts.Finish.{wake_if_waiting}
use toro.Scripts.Stalled.{
  Sweep, fail_stalled, take_back, sweep_one, sweep_each, sweep_marked, move_stalled, stall_reason,
}
use toro.Placement.{InHand, IsPlaced}
use toro.Placement.Moves.{enqueue-IsPlaced}
use toro.Placement.Hands.{from_active_one}
use toro.Placement.Record.{record_finished-IsPlaced}
use toro.Placement.Flows.{
  settle_child_gone-IsPlaced, record_metrics-IsPlaced, record_flow-IsPlaced, told-IsPlaced,
}
use toro.Placement.Guards.{write-InHand, wake_if_waiting-IsPlaced}

module _ {R : Redis} where
  settled_or_not :
      (up : Option ℕ) (is_parent : Bool) (now b : ℕ) (s : Store R) (r : Store R × ℕ)
      → IsPlaced s
      → IsPlaced r.0
      → (let answer : Store R × ℕ =
            if is_some up then r else (if is_parent then record_flow s false now 0 else s, b) in
          IsPlaced answer.0)
  settled_or_not (some p) is_parent now b s r h k = k
  settled_or_not none true now b s r h k = record_flow-IsPlaced s false now 0 h
  settled_or_not none false now b s r h k = h

  fail_stalled-IsPlaced :
      (s : Store R) (budget id now : ℕ)
      → InHand true (some JobState.active) s id
      → IsPlaced (fail_stalled s budget id now).0
  unfolding fail_stalled
  fail_stalled-IsPlaced s budget id now h =
      let p = told-IsPlaced _ (Event.job_failed id stall_reason) (
        record_metrics-IsPlaced _ Outcome.failed now 0 (hget s id (λ j. j.name)) 1 (
          record_finished-IsPlaced s budget id now
            (λ j. record j { failed_reason = some stall_reason }) JobState.failed refl refl
            (λ j. refl) h)) in
      settled_or_not (hget s id (λ j. j.parent_id)) (is_some (hget s id (λ j. j.children))) now _ _
        _ p (settle_child_gone-IsPlaced (suc id) _ _ id _ _ stall_reason now false p)

  take_back-InHand :
      (s : Store R) (id : ℕ)
      → ltb 0 (count id s.active) ≡ true
      → IsPlaced s
      → InHand true (some JobState.active) (take_back s id) id
  take_back-InHand s id on h =
      write-InHand (record s { active = _ }) id
        (λ j. record j { stalled_counter = suc j.stalled_counter }) (λ j. refl) (λ j. refl)
        (from_active_one s id h (ground (arith, h.placed id)))

  sweep_one-IsPlaced :
      (w : Sweep R) (id max_stalled now : ℕ)
      → IsPlaced w.0
      → IsPlaced (sweep_one w id max_stalled now).0
  unfolding sweep_one
  sweep_one-IsPlaced (s, budget, failed, recovered) id max_stalled now h =
      elim (Bool-cases (ltb 0 (count id s.active))) [
        | inr out ↦ elim (Bool-cases (not (is_some (s.lock id)))) [
          | inl unlocked ↦ rw (unlocked, out, sweep_one) h
          | inr locked ↦ rw (locked, sweep_one) h
        ]
        | inl on ↦ elim (Bool-cases (not (is_some (s.lock id)))) [
          | inr locked ↦ rw (locked, sweep_one) h
          | inl unlocked ↦
              let p = take_back-InHand s id on h in
              rw (unlocked, on, sweep_one)
                (elim (Bool-cases
                  (ltb max_stalled (hget (take_back s id) id (λ j. j.stalled_counter)))) [
                    | inl over ↦ rw over (fail_stalled-IsPlaced (take_back s id) budget id now p)
                    | inr under ↦ rw under (
                        enqueue-IsPlaced (take_back s id) id _ now
                          (λ j. record j { state = some JobState.wait }) (λ j. refl) (λ j. refl) p)
                  ])
        ]
      ]

  sweep_each-IsPlaced :
      (ids : List ℕ) (w : Sweep R) (max_stalled now : ℕ)
      → IsPlaced w.0
      → IsPlaced (sweep_each w ids max_stalled now).0
  unfolding sweep_each
  sweep_each-IsPlaced [] w max_stalled now h = h
  sweep_each-IsPlaced (id ∷ ids) w max_stalled now h =
      sweep_each-IsPlaced ids (sweep_one w id max_stalled now) max_stalled now
        (sweep_one-IsPlaced w id max_stalled now h)

  woken_after :
      (failed : List ℕ) (s : Store R)
      → IsPlaced s
      → IsPlaced (elim failed as (λ _. Store R) [ [] ↦ s | _ ∷ _ ↦ wake_if_waiting s ])
  woken_after [] s h = h
  woken_after (_ ∷ _) s h = wake_if_waiting-IsPlaced s h

  sweep_marked-IsPlaced :
      (s : Store R) (max_stalled now : ℕ) → IsPlaced s → IsPlaced (sweep_marked s max_stalled now).0
  unfolding sweep_marked
  sweep_marked-IsPlaced s max_stalled now h =
      let w : Sweep R =
        sweep_each (record s { stalled = [] }, trim_budget, [], []) s.stalled max_stalled now in
      let p = woken_after w.2 w.0 (
        sweep_each-IsPlaced s.stalled (record s { stalled = [] }, trim_budget, [], []) max_stalled
          now (record { placed = h.placed; keyed = h.keyed })) in
      record { placed = p.placed; keyed = p.keyed }

  throttled :
      (checked : Bool) (s : Store R) (r : Store R × List ℕ × List ℕ)
      → IsPlaced s
      → IsPlaced r.0
      → (let answer : Store R × List ℕ × List ℕ = if checked then (s, [], []) else r in
          IsPlaced answer.0)
  throttled true s r h k = h
  throttled false s r h k = k

  -- From a store with every job in place, MOVE_STALLED leaves every job in place again: each job is in the one collection that its state
  -- names, and each key with its holder.
  pub move_stalled-IsPlaced :
      (s : Store R) (max_stalled now throttle : ℕ)
      → IsPlaced s
      → IsPlaced (move_stalled s max_stalled now throttle).0
  unfolding move_stalled
  move_stalled-IsPlaced s max_stalled now throttle h = elim (Bool-cases (ltb 0 throttle)) [
    | inr free ↦ rw (free, move_stalled) (sweep_marked-IsPlaced s max_stalled now h)
    | inl often ↦
        rw (often, move_stalled)
          (throttled s.stalled_check s _ h (
            sweep_marked-IsPlaced (record s { stalled_check = true }) max_stalled now
              (record { placed = h.placed; keyed = h.keyed })))
  ]
