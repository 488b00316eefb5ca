-- ===== src/Placement/Stops.antt =====
-- The placement of jobs through a cancellation: `CANCEL_JOB` of toro/scripts.py.
use toro.Prelude.{
  ℕ, zero, suc, ◌≡◌, refl, Bool, true, false, not, ◌||◌, inl, inr, Option, none, some, List, [],
  ◌∷◌, Bool-cases, arith, is_some, if◌then◌else◌, ◌==◌, get_or_else,
}
use toro.Redis.{Redis}
use toro.Job.{Job, JobState, Reason, is_state, is_finished}
use toro.Store.{Store, Outcome, Event, hget, hset, state_of}
use toro.Scripts.Keyed.{unkey}
use toro.Scripts.Retention.{trim_budget, children_of}
use toro.Scripts.Flow.{settle_child_gone}
use toro.Scripts.Remove.{remove_from_state, ask_to_stop}
use toro.Scripts.Cancel.{
  Stopping, save_reason, leave_waiting, end_waiting, cancel_one, cancel_each, cancel_tree,
  cancel_job,
}
use toro.Placement.{InHand, IsPlaced, ckey_of}
use toro.Placement.Record.{record_finished-IsPlaced}
use toro.Placement.Flows.{settle_child_gone-IsPlaced, record_metrics-IsPlaced, told-IsPlaced}
use toro.Placement.Guards.{write-InHand}
use toro.Placement.Actions.{unkey_held-InHand, unkey-InHand, remove_from_state-InHand}

unfinished :
    (st : Option JobState) → (not (is_some st) || is_finished st) ≡ false → is_finished st ≡ false
unfinished st e = ground arith

module _ {R : Redis} where
  -- A job that has not started, out of its place and its key.
  left_and_unkeyed :
      (s : Store R) (id : ℕ) (st : Option JobState) (now : ℕ)
      → state_of s id ≡ st
      → (not (is_some st) || is_finished st) ≡ false
      → is_state JobState.active st ≡ false
      → IsPlaced s
      → InHand false st (unkey (leave_waiting s id st) id st (ckey_of s id) now) id
  unfolding leave_waiting remove_from_state
  left_and_unkeyed s id (some JobState.held) now e w a h =
      unkey_held-InHand s id (ckey_of s id) now refl e h
  left_and_unkeyed s id (some JobState.wait) now e w a h =
      unkey-InHand _ id _ (ckey_of s id) now refl refl
        (remove_from_state-InHand s id (some JobState.wait) e h refl)
  left_and_unkeyed s id (some JobState.delayed) now e w a h =
      unkey-InHand _ id _ (ckey_of s id) now refl refl
        (remove_from_state-InHand s id (some JobState.delayed) e h refl)
  left_and_unkeyed s id (some JobState.waiting_children) now e w a h =
      unkey-InHand _ id _ (ckey_of s id) now refl refl
        (remove_from_state-InHand s id (some JobState.waiting_children) e h refl)
  left_and_unkeyed s id _ now e w a h = cc

  saved_reason-InHand :
      {b : Bool} {was : Option JobState} (s : Store R) (id : ℕ) (why : Option Reason)
      → InHand b was s id
      → InHand b was (hset s id (save_reason why)) id
  saved_reason-InHand s id none h = write-InHand s id (save_reason none) (λ j. refl) (λ j. refl) h
  saved_reason-InHand s id (some w) h =
      write-InHand s id (save_reason (some w)) (λ j. refl) (λ j. refl) h

  end_waiting-IsPlaced :
      (s : Store R) (budget id : ℕ) (why : Option Reason) (now : ℕ)
      → (not (is_some (state_of s id)) || is_finished (state_of s id)) ≡ false
      → is_state JobState.active (state_of s id) ≡ false
      → IsPlaced s
      → IsPlaced (end_waiting s budget id why now).0
  unfolding end_waiting
  end_waiting-IsPlaced s budget id why now w a h = told-IsPlaced _ (Event.job_cancelled id why) (
      record_metrics-IsPlaced _ Outcome.cancelled now 0 none 1 (
        record_finished-IsPlaced _ budget id now (λ j. record j { cancel = true })
          JobState.cancelled refl (unfinished (state_of s id) w) (λ j. refl)
          (saved_reason-InHand _ id why (left_and_unkeyed s id (state_of s id) now refl w a h))))

  -- A write into a job's hash that leaves its state and its key.
  pub write-IsPlaced :
      (s : Store R) (id : ℕ) (f : Job → Job)
      → ((j : Job) → (f j).state ≡ j.state)
      → ((j : Job) → (f j).ckey ≡ j.ckey)
      → IsPlaced s
      → IsPlaced (hset s id f)
  write-IsPlaced s id f fs fk h = record {
    placed = λ j. ground (arith, h.placed j, fs (hget s id (λ x. x)));
    keyed = λ j k. ground (arith, h.keyed j k, fs (hget s id (λ x. x)), fk (hget s id (λ x. x)));
  }

  asked-IsPlaced :
      (s : Store R) (id : ℕ) (why : Option Reason)
      → IsPlaced s
      → IsPlaced (ask_to_stop (hset s id (λ j. save_reason why (record j { cancel = true }))) id)
  asked-IsPlaced s id none h =
      let p = write-IsPlaced s id (λ j. record j { cancel = true }) (λ j. refl) (λ j. refl) h in
      record { placed = p.placed; keyed = p.keyed }
  asked-IsPlaced s id (some w) h =
      let p =
        write-IsPlaced s id (λ j. record j { cancel = true; cancel_reason = some w }) (λ j. refl)
          (λ j. refl) h in
      record { placed = p.placed; keyed = p.keyed }

  cancel_one-IsPlaced :
      (st : Stopping R) (id : ℕ) (why : Option Reason) (now : ℕ)
      → IsPlaced st.0
      → IsPlaced (cancel_one st id why now).0
  unfolding cancel_one
  cancel_one-IsPlaced (s, budget, stopped) id why now h =
      elim (Bool-cases (not (is_some (state_of s id)) || is_finished (state_of s id))) [
        | inl over ↦ rw (over, cancel_one) h
        | inr going ↦
            rw (going, cancel_one)
              (elim (Bool-cases (is_state JobState.active (state_of s id))) [
                | inl running ↦ rw running (asked-IsPlaced s id why h)
                | inr waits ↦ rw waits (end_waiting-IsPlaced s budget id why now going waits h)
              ])
      ]

  cancel_each-IsPlaced :
      (ids : List ℕ) (cancel : Stopping R → ℕ → Stopping R) (st : Stopping R)
      → ((t : Stopping R) (id : ℕ) → IsPlaced t.0 → IsPlaced (cancel t id).0)
      → IsPlaced st.0
      → IsPlaced (cancel_each cancel st ids).0
  unfolding cancel_each
  cancel_each-IsPlaced [] cancel st k h = h
  cancel_each-IsPlaced (id ∷ ids) cancel st k h =
      cancel_each-IsPlaced ids cancel (cancel st id) k (k st id h)

  cancel_tree-IsPlaced :
      (fuel : ℕ) (why : Option Reason) (now : ℕ) (st : Stopping R) (id : ℕ)
      → IsPlaced st.0
      → IsPlaced (cancel_tree fuel why now st id).0
  unfolding cancel_tree
  cancel_tree-IsPlaced zero why now st id h = h
  cancel_tree-IsPlaced (suc f) why now st id h =
      cancel_each-IsPlaced (children_of (hget st.0 id (λ j. j.children))) (cancel_tree f why now)
        (cancel_one st id why now) (λ t i k. cancel_tree-IsPlaced f why now t i k)
        (cancel_one-IsPlaced st id why now h)

  -- However the walk is answered.
  answered :
      (s : Store R) (w : Stopping R) (state : Option JobState) (settled : Store R × ℕ)
      → IsPlaced s
      → IsPlaced w.0
      → IsPlaced settled.0
      → (let answer : Store R × ℕ =
            if not (is_some state)
            then (s, 0)
            else if w.2 == 0
            then (w.0, 0)
            else if is_finished state
            then (w.0, 1)
            else if is_state JobState.active state
            then (w.0, 2)
            else (settled.0, 1) in
          IsPlaced answer.0)
  answered s w state settled h p q = elim (Bool-cases (not (is_some state))) [
    | inl gone ↦ rw gone h
    | inr there ↦ rw there (elim (Bool-cases (w.2 == 0)) [
      | inl idle ↦ rw idle p
      | inr stopped ↦ rw stopped (elim (Bool-cases (is_finished state)) [
        | inl over ↦ rw over p
        | inr waits ↦ rw waits (elim (Bool-cases (is_state JobState.active state)) [
          | inl running ↦ rw running p
          | inr ended ↦ rw ended q
        ])
      ])
    ])
  ]

  -- From a store with every job in place, CANCEL_JOB leaves every job in place again: each job is in the one collection that its state
  -- names, and each key with its holder.
  pub cancel_job-IsPlaced :
      (s : Store R) (id : ℕ) (why : Option Reason) (now : ℕ)
      → IsPlaced s
      → IsPlaced (cancel_job s id why now).0
  unfolding cancel_job
  cancel_job-IsPlaced s id why now h =
      let w : Stopping R = cancel_tree (suc s.next_id) why now (s, trim_budget, 0) id in
      let p = cancel_tree-IsPlaced (suc s.next_id) why now (s, trim_budget, 0) id h in
      answered s w (state_of s id)
        (settle_child_gone (suc id) w.0 w.1 id (hget s id (λ j. j.parent_id))
          (hget s id (λ j. j.on_fail)) (get_or_else why (Reason.text "cancelled")) now true)
        h p
        (settle_child_gone-IsPlaced (suc id) w.0 w.1 id (hget s id (λ j. j.parent_id))
          (hget s id (λ j. j.on_fail)) (get_or_else why (Reason.text "cancelled")) now true p)
