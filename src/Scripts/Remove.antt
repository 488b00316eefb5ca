-- ===== src/Scripts/Remove.antt =====
-- toro/scripts.py: `REMOVE_JOB`.
use toro.Prelude.{
  ℕ, zero, suc, List, [], ◌∷◌, Bool, true, false, Option, none, some, if◌then◌else◌, remove_all,
}
use toro.Redis.{Redis}
use toro.Job.{JobState, is_state}
use toro.Store.{Store, hget, state_of}
use toro.Scripts.Keyed.{unkey}
use toro.Scripts.Retention.{del_job, children_of}
use toro.Scripts.Flow.{leave_barrier}
use toro.Scripts.Admin.{is_job}

module _ {R : Redis} where
  -- The one collection that the state names; an unreadable state pays for all.
  unfoldable pub remove_from_state : Store R → ℕ → Option JobState → Store R
  remove_from_state s id (some JobState.wait) = record s { prioritized = R.zrem s.prioritized id }
  remove_from_state s id (some JobState.active) = record s { active = remove_all id s.active }
  remove_from_state s id (some JobState.delayed) = record s { delayed = R.zrem s.delayed id }
  remove_from_state s id (some JobState.completed) = record s { completed = R.zrem s.completed id }
  remove_from_state s id (some JobState.failed) = record s { failed = R.zrem s.failed id }
  remove_from_state s id (some JobState.cancelled) = record s { cancelled = R.zrem s.cancelled id }
  remove_from_state s id (some JobState.waiting_children) = record s {
    waiting_children = R.zrem s.waiting_children id;
  }
  remove_from_state s id (some JobState.held) = record s { held = R.zrem s.held id }
  remove_from_state s id none = record s {
    prioritized = R.zrem s.prioritized id;
    active = remove_all id s.active;
    delayed = R.zrem s.delayed id;
    completed = R.zrem s.completed id;
    failed = R.zrem s.failed id;
    waiting_children = R.zrem s.waiting_children id;
    held = R.zrem s.held id;
    cancelled = R.zrem s.cancelled id;
  }

  -- `cancelMessage`: the job and the claim that is meant.
  abbrev pub ask_to_stop : Store R → ℕ → Store R
  ask_to_stop s id = record s {
    cancel_requests = (id, hget s id (λ j. j.processed_on)) ∷ s.cancel_requests;
  }

  unfoldable pub for_each : (Store R → ℕ → Store R) → Store R → List ℕ → Store R
  for_each f s [] = s
  for_each f s (id ∷ ids) = for_each f (f s id) ids

  -- One node: out of its collection and its key, and deleted.
  unfoldable pub remove_one_job : Store R → ℕ → ℕ → Store R
  unfolding remove_from_state unkey del_job
  remove_one_job s id now =
      let state = state_of s id in
      let s1 = remove_from_state s id state in
      let s2 = if is_state JobState.active state then ask_to_stop s1 id else s1 in
      del_job (unkey s2 id state (hget s id (λ j. j.ckey)) now) id

  unfoldable pub remove_tree : ℕ → ℕ → Store R → ℕ → Store R
  unfolding remove_one_job for_each
  remove_tree zero now s id = s
  remove_tree (suc f) now s id =
      for_each (remove_tree f now) (remove_one_job s id now)
        (children_of (hget s id (λ j. j.children)))

  unfoldable pub remove_job : Store R → ℕ → ℕ → Store R × Bool
  unfolding remove_tree leave_barrier
  remove_job s id now =
      if is_job s id
      then (let s1 = remove_tree (suc s.next_id) now s id in
          (
            elim (hget s id (λ j. j.parent_id)) as (λ _. Store R) [
              | none ↦ s1
              | some parent ↦ leave_barrier s1 parent id now
            ],
            true,
          ))
      else (s, false)
