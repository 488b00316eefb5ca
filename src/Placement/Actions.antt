-- ===== src/Placement/Actions.antt =====
-- The placement of jobs through the actions on one job: `PROMOTE_JOB` and `REMOVE_JOB` of
-- toro/scripts.py.
use toro.Prelude.{
  ℕ, zero, suc, ◌≡◌, refl, Bool, false, inl, inr, Option, none, some, List, [], ◌∷◌, Bool-cases,
  arith, is_some, if◌then◌else◌, count-remove_all,
}
use toro.Redis.{Redis}
use toro.Job.{JobState, is_state}
use toro.Store.{Store, hget, state_of}
use toro.Scripts.Keyed.{unkey}
use toro.Scripts.Retention.{children_of}
use toro.Scripts.Flow.{leave_barrier}
use toro.Scripts.Admin.{promote_job, is_job}
use toro.Scripts.Remove.{
  remove_from_state, ask_to_stop, for_each, remove_one_job, remove_tree, remove_job,
}
use toro.Placement.{InHand, IsPlaced, runs, ckey_of}
use toro.Placement.Moves.{enqueue-IsPlaced}
use toro.Placement.Hands.{from_delayed}
use toro.Placement.Keys.{release_key-InHand}
use toro.Placement.Removal.{del_job-IsPlaced}
use toro.Placement.Flows.{leave_barrier-IsPlaced}

module _ {R : Redis} where
  -- From a store with every job in place, PROMOTE_JOB leaves every job in place again: each job is in the one collection that its state
  -- names, and each key with its holder.
  pub promote_job-IsPlaced :
      (s : Store R) (id now : ℕ) → IsPlaced s → IsPlaced (promote_job s id now).0
  unfolding promote_job
  promote_job-IsPlaced s id now h = elim (Bool-cases (is_some (R.zscore s.delayed id))) [
    | inr out ↦ rw (out, promote_job) h
    | inl waits ↦
        rw (waits, promote_job)
          (enqueue-IsPlaced (record s { delayed = R.zrem s.delayed id }) id _ now
            (λ j. record j { state = some JobState.wait; delay = 0 }) (λ j. refl) (λ j. refl)
            (from_delayed s id h (ground (arith, h.placed id))))
  ]

  -- Out of its collection by its state, a job that is not held is in hand.
  pub remove_from_state-InHand :
      (s : Store R) (id : ℕ) (st : Option JobState)
      → state_of s id ≡ st
      → IsPlaced s
      → is_state JobState.held st ≡ false
      → InHand (runs st) st (remove_from_state s id st) id
  unfolding remove_from_state
  remove_from_state-InHand s id (some JobState.wait) e h o = record {
    state = e;
    placed = λ j n. simp R.zscore-zrem (ground (arith, h.placed j));
    keyed = λ j k n. h.keyed j k;
    nowhere = simp R.zscore-zrem (ground (arith, h.placed id));
    key = λ k. ground (arith, h.keyed id k);
  }
  remove_from_state-InHand s id (some JobState.active) e h o = record {
    state = e;
    placed = λ j n. ground (arith, h.placed j, count-remove_all id j s.active);
    keyed = λ j k n. h.keyed j k;
    nowhere = ground (arith, h.placed id, count-remove_all id id s.active);
    key = λ k. ground (arith, h.keyed id k);
  }
  remove_from_state-InHand s id (some JobState.delayed) e h o = record {
    state = e;
    placed = λ j n. simp R.zscore-zrem (ground (arith, h.placed j));
    keyed = λ j k n. h.keyed j k;
    nowhere = simp R.zscore-zrem (ground (arith, h.placed id));
    key = λ k. ground (arith, h.keyed id k);
  }
  remove_from_state-InHand s id (some JobState.completed) e h o = record {
    state = e;
    placed = λ j n. simp R.zscore-zrem (ground (arith, h.placed j));
    keyed = λ j k n. h.keyed j k;
    nowhere = simp R.zscore-zrem (ground (arith, h.placed id));
    key = λ k. ground (arith, h.keyed id k);
  }
  remove_from_state-InHand s id (some JobState.failed) e h o = record {
    state = e;
    placed = λ j n. simp R.zscore-zrem (ground (arith, h.placed j));
    keyed = λ j k n. h.keyed j k;
    nowhere = simp R.zscore-zrem (ground (arith, h.placed id));
    key = λ k. ground (arith, h.keyed id k);
  }
  remove_from_state-InHand s id (some JobState.cancelled) e h o = record {
    state = e;
    placed = λ j n. simp R.zscore-zrem (ground (arith, h.placed j));
    keyed = λ j k n. h.keyed j k;
    nowhere = simp R.zscore-zrem (ground (arith, h.placed id));
    key = λ k. ground (arith, h.keyed id k);
  }
  remove_from_state-InHand s id (some JobState.waiting_children) e h o = record {
    state = e;
    placed = λ j n. simp R.zscore-zrem (ground (arith, h.placed j));
    keyed = λ j k n. h.keyed j k;
    nowhere = simp R.zscore-zrem (ground (arith, h.placed id));
    key = λ k. ground (arith, h.keyed id k);
  }
  remove_from_state-InHand s id (some JobState.held) e h o = cc
  remove_from_state-InHand s id none e h o = record {
    state = e;
    placed = λ j n. simp R.zscore-zrem (ground (arith, h.placed j, count-remove_all id j s.active));
    keyed = λ j k n. h.keyed j k;
    nowhere = simp R.zscore-zrem (ground (arith, h.placed id, count-remove_all id id s.active));
    key = λ k. ground (arith, h.keyed id k);
  }

  ask_to_stop-InHand :
      {b : Bool} {was : Option JobState} (s : Store R) (id : ℕ)
      → InHand b was s id
      → InHand b was (ask_to_stop s id) id
  ask_to_stop-InHand s id h = record {
    state = h.state;
    placed = h.placed;
    keyed = h.keyed;
    nowhere = h.nowhere;
    key = h.key;
  }

  -- A job that is not held gives its key up.
  pub unkey-InHand :
      {b : Bool} {was : Option JobState} (s : Store R) (id : ℕ) (st : Option JobState)
      (key : Option ℕ) (now : ℕ)
      → ckey_of s id ≡ key
      → is_state JobState.held st ≡ false
      → InHand b was s id
      → InHand false was (unkey s id st key now) id
  unfolding unkey
  unkey-InHand s id st none now e o h = record {
    state = h.state;
    placed = h.placed;
    keyed = h.keyed;
    nowhere = h.nowhere;
    key = λ k. ground (arith, h.key k);
  }
  unkey-InHand s id st (some key) now e o h = rw (o, unkey) (release_key-InHand s id now h)

  -- A held job leaves the queue behind its key.
  pub unkey_held-InHand :
      (s : Store R) (id : ℕ) (key : Option ℕ) (now : ℕ)
      → ckey_of s id ≡ key
      → state_of s id ≡ some JobState.held
      → IsPlaced s
      → InHand false
          (some JobState.held)
          (unkey (record s { held = R.zrem s.held id }) id (some JobState.held) key now)
          id
  unfolding unkey
  unkey_held-InHand s id none now c e h = record {
    state = e;
    placed = λ j n. simp R.zscore-zrem (ground (arith, h.placed j));
    keyed = λ j k n. h.keyed j k;
    nowhere = simp R.zscore-zrem (ground (arith, h.placed id));
    key = λ k. ground (arith, h.keyed id k);
  }
  unkey_held-InHand s id (some key) now c e h = record {
    state = e;
    placed = λ j n. simp R.zscore-zrem (ground (arith, h.placed j));
    keyed = λ j k n. ground (arith, h.keyed j k, R.zscore-zrem (s.held_for key) id j);
    nowhere = simp R.zscore-zrem (ground (arith, h.placed id));
    key = λ k. ground (arith, h.keyed id k, R.zscore-zrem (s.held_for key) id id);
  }

  -- A job of any state, out of its collection and its key.
  pub removed_and_unkeyed :
      (s : Store R) (id : ℕ) (st : Option JobState) (now : ℕ)
      → state_of s id ≡ st
      → IsPlaced s
      → (let s1 = remove_from_state s id st in
          InHand false st
            (unkey
              (if is_state JobState.active st then ask_to_stop s1 id else s1)
              id
              st
              (ckey_of s id)
              now)
            id)
  unfolding remove_from_state
  removed_and_unkeyed s id (some JobState.held) now e h =
      unkey_held-InHand s id (ckey_of s id) now refl e h
  removed_and_unkeyed s id (some JobState.active) now e h =
      unkey-InHand _ id _ (ckey_of s id) now refl refl
        (ask_to_stop-InHand _ id (remove_from_state-InHand s id (some JobState.active) e h refl))
  removed_and_unkeyed s id (some JobState.wait) now e h =
      unkey-InHand _ id _ (ckey_of s id) now refl refl
        (remove_from_state-InHand s id (some JobState.wait) e h refl)
  removed_and_unkeyed s id (some JobState.delayed) now e h =
      unkey-InHand _ id _ (ckey_of s id) now refl refl
        (remove_from_state-InHand s id (some JobState.delayed) e h refl)
  removed_and_unkeyed s id (some JobState.completed) now e h =
      unkey-InHand _ id _ (ckey_of s id) now refl refl
        (remove_from_state-InHand s id (some JobState.completed) e h refl)
  removed_and_unkeyed s id (some JobState.failed) now e h =
      unkey-InHand _ id _ (ckey_of s id) now refl refl
        (remove_from_state-InHand s id (some JobState.failed) e h refl)
  removed_and_unkeyed s id (some JobState.cancelled) now e h =
      unkey-InHand _ id _ (ckey_of s id) now refl refl
        (remove_from_state-InHand s id (some JobState.cancelled) e h refl)
  removed_and_unkeyed s id (some JobState.waiting_children) now e h =
      unkey-InHand _ id _ (ckey_of s id) now refl refl
        (remove_from_state-InHand s id (some JobState.waiting_children) e h refl)
  removed_and_unkeyed s id none now e h =
      unkey-InHand _ id _ (ckey_of s id) now refl refl (remove_from_state-InHand s id none e h refl)

  remove_one_job-IsPlaced :
      (s : Store R) (id now : ℕ) → IsPlaced s → IsPlaced (remove_one_job s id now)
  unfolding remove_one_job
  remove_one_job-IsPlaced s id now h =
      del_job-IsPlaced _ id (removed_and_unkeyed s id (state_of s id) now refl h)

  for_each-IsPlaced :
      (ids : List ℕ) (f : Store R → ℕ → Store R) (s : Store R)
      → ((t : Store R) (id : ℕ) → IsPlaced t → IsPlaced (f t id))
      → IsPlaced s
      → IsPlaced (for_each f s ids)
  unfolding for_each
  for_each-IsPlaced [] f s k h = h
  for_each-IsPlaced (id ∷ ids) f s k h = for_each-IsPlaced ids f (f s id) k (k s id h)

  remove_tree-IsPlaced :
      (fuel now : ℕ) (s : Store R) (id : ℕ) → IsPlaced s → IsPlaced (remove_tree fuel now s id)
  unfolding remove_tree
  remove_tree-IsPlaced zero now s id h = h
  remove_tree-IsPlaced (suc f) now s id h =
      for_each-IsPlaced (children_of (hget s id (λ j. j.children))) (remove_tree f now)
        (remove_one_job s id now) (λ t i k. remove_tree-IsPlaced f now t i k)
        (remove_one_job-IsPlaced s id now h)

  out_of_barrier :
      (up : Option ℕ) (s : Store R) (id now : ℕ)
      → IsPlaced s
      → IsPlaced
          (elim up as (λ _. Store R) [ none ↦ s | some parent ↦ leave_barrier s parent id now ])
  out_of_barrier none s id now h = h
  out_of_barrier (some parent) s id now h = leave_barrier-IsPlaced s parent id now h

  -- From a store with every job in place, REMOVE_JOB leaves every job in place again: each job is in the one collection that its state
  -- names, and each key with its holder.
  pub remove_job-IsPlaced :
      (s : Store R) (id now : ℕ) → IsPlaced s → IsPlaced (remove_job s id now).0
  unfolding remove_job
  remove_job-IsPlaced s id now h = elim (Bool-cases (is_job s id)) [
    | inr none_such ↦ rw (none_such, remove_job) h
    | inl there ↦
        rw (there, remove_job)
          (out_of_barrier (hget s id (λ j. j.parent_id)) (remove_tree (suc s.next_id) now s id) id
            now (remove_tree-IsPlaced (suc s.next_id) now s id h))
  ]
