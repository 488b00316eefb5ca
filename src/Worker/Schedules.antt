-- ===== src/Worker/Schedules.antt =====
-- toro/worker.py, `Worker._schedule_next` and `Worker._resume_orphaned_schedules`: a schedule moves to
-- its next slot when an occurrence is picked up, or when its queued one is gone. `occurrence` gives the
-- id `repeat:<scheduler>:<slot>`, and `get_next` is croniter's next date.
pub mod Advance
use toro.Prelude.{
  ℕ, ◌+◌, max, Bool, true, false, not, ◌||◌, Option, none, some, List, [], ◌∷◌, ◌==◌, leb,
  if◌then◌else◌, is_some, eq_option, ◌>>=◌,
}
use toro.Redis.{Redis}
use toro.Job.{JobState, is_finished}
use toro.Store.{Store, Template, state_of}
use toro.Scripts.Enqueue.{add_scheduled}
use toro.Client.{next_run}

-- ZRANGEBYSCORE repeat -inf now
unfoldable pub overdue : ℕ → List (ℕ × ℕ) → List (ℕ × ℕ)
overdue now [] = []
overdue now ((scheduler, slot) ∷ rest) =
    let r = overdue now rest in if leb slot now then (scheduler, slot) ∷ r else r

-- The occurrence is gone, or ended without a successor.
abbrev pub is_orphaned : Option JobState → Bool
is_orphaned none = true
is_orphaned (some state) = is_finished (some state)

module _ {R : Redis} where
  -- ZADD XX CH: only a schedule that is registered moves, and only to another slot.
  unfoldable pub advance : Store R → ℕ → ℕ → Store R × Bool
  advance s scheduler when = elim (R.zscore s.repeat scheduler) [
    | none ↦ (s, false)
    | some slot ↦
        if slot == when
        then (s, false)
        else (record s { repeat = R.zadd s.repeat when scheduler }, true)
  ]

  -- What is left of `_schedule_next` once the slot is known.
  unfoldable pub mint : (ℕ → ℕ → ℕ) → Store R → ℕ → Template → ℕ → ℕ → Store R
  mint occurrence s scheduler t now when =
      let (s1, moved) = advance s scheduler when in
      if moved then (add_scheduled s1 (occurrence scheduler when) t now when scheduler).0 else s

  -- `_schedule_next`, for the occurrence of `slot`; none is the ValueError of a schedule without a
  -- cadence.
  unfoldable pub schedule_next : (ℕ → ℕ → ℕ) → (ℕ → ℕ → ℕ) → Store R → ℕ → ℕ → ℕ → Option (Store R)
  unfolding next_run
  schedule_next get_next occurrence s scheduler slot now = elim (s.scheduler scheduler) [
    | none ↦ some s
    | some t ↦
        if eq_option (R.zscore s.repeat scheduler) (some slot)
        then (do
          when ← next_run get_next (max now slot) t.every t.cron
          some (mint occurrence s scheduler t now when))
        else some s
  ]

  unfoldable pub resume_each :
      (ℕ → ℕ → ℕ) → (ℕ → ℕ → ℕ) → List (ℕ × ℕ) → ℕ → Store R → Option (Store R)
  resume_each get_next occurrence [] now s = some s
  resume_each get_next occurrence ((scheduler, slot) ∷ rest) now s =
      if is_orphaned (state_of s (occurrence scheduler slot))
      then (do
        s1 ← schedule_next get_next occurrence s scheduler slot now
        resume_each get_next occurrence rest now s1)
      else resume_each get_next occurrence rest now s

  -- `_resume_orphaned_schedules`
  unfoldable pub resume_orphaned : (ℕ → ℕ → ℕ) → (ℕ → ℕ → ℕ) → Store R → ℕ → Option (Store R)
  unfolding resume_each overdue
  resume_orphaned get_next occurrence s now =
      resume_each get_next occurrence (overdue now (R.zrange s.repeat)) now s
