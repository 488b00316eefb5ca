-- ===== src/Barrier.antt =====
-- A flow's barrier: `settleChildCompleted` and `releaseParent` of toro/scripts.py.
use toro.Prelude.{
  ℕ, suc, ◌==◌, ◌≡◌, refl, sym, subst, ◌∙◌, true, false, inl, inr, ◌⊎◌, Option, none, some, ap,
  String, ◌==◌, Bool-cases, Option-cases, arith, is_some, length, remove_all, update,
}
use toro.Redis.{Redis}
use toro.Job.{JobState}
use toro.Store.{Store, hget, state_of}
use toro.Scripts.Order.{priority_score, enqueue, queue_up, wake}
use toro.Scripts.Keyed.{take_key, take_free, hold}
use toro.Scripts.Flow.{take_and_enqueue, release_parent, leave_barrier, settle_child_completed}

added : (R : Redis) (z : R.ZSet) (score m : ℕ) → is_some (R.zscore (R.zadd z score m) m) ≡ true
added R z score m = ground (arith, R.zscore-zadd z score m m)

removed : (R : Redis) (z : R.ZSet) (m : ℕ) → R.zscore (R.zrem z m) m ≡ none
removed R z m = ground (arith, R.zscore-zrem z m m)

module _ {R : Redis} where
  -- A job that is let go: it waits among the prioritized, or is held, in `held` and behind its key.
  abbrev pub IsLetGo : Store R → ℕ → Option ℕ → Type 0
  IsLetGo t id key =
      ((state_of t id ≡ some JobState.wait) × (is_some (R.zscore t.prioritized id) ≡ true))
      ⊎ ((state_of t id ≡ some JobState.held)
          × (is_some (R.zscore t.held id) ≡ true)
          × ((k : ℕ) × (key ≡ some k) × (is_some (R.zscore (t.held_for k) id) ≡ true)))

  -- A job that asks for its key is queued or held.
  take_and_enqueue-IsLetGo :
      (s : Store R) (id : ℕ) (key : Option ℕ) (priority now : ℕ)
      → IsLetGo (take_and_enqueue s id key priority now) id key
  unfolding take_and_enqueue take_key enqueue queue_up wake take_free hold
  take_and_enqueue-IsLetGo s id none priority now = inl (ground arith, added R _ _ _)
  take_and_enqueue-IsLetGo s id (some key) priority now = elim (Option-cases (s.ck key)) [
    | inl free ↦ inl (
      rw (free, take_and_enqueue, take_key, take_free) (ground arith),
      rw (free, take_and_enqueue, take_key, take_free) (added R _ _ _),
    )
    | inr (h, taken) ↦ inr (
      rw (taken, take_and_enqueue, take_key, take_free) (ground arith),
      rw (taken, take_and_enqueue, take_key, take_free) (added R _ _ _),
      (
        key,
        refl,
        rw (taken, take_and_enqueue, take_key, take_free)
            (ground (arith, added R (s.held_for key) (priority_score priority (suc s.pc)) id)),
      ),
    )
  ]

  -- Being queued or held writes neither the results nor the barriers nor the parked jobs.
  take_and_enqueue-keeps :
      (s : Store R) (id : ℕ) (key : Option ℕ) (priority now : ℕ)
      → ((take_and_enqueue s id key priority now).results ≡ s.results)
        × ((take_and_enqueue s id key priority now).deps ≡ s.deps)
        × ((take_and_enqueue s id key priority now).waiting_children ≡ s.waiting_children)
  unfolding take_and_enqueue take_key enqueue queue_up wake take_free hold
  take_and_enqueue-keeps s id none priority now = (refl, refl, refl)
  take_and_enqueue-keeps s id (some key) priority now = elim (Option-cases (s.ck key)) [
    | inl free ↦ rw (free, take_and_enqueue, take_key, take_free) (refl, refl, refl)
    | inr (h, taken) ↦ rw (taken, take_and_enqueue, take_key, take_free) (refl, refl, refl)
  ]

  -- A child's result is kept under its parent and the child leaves the barrier. While another child
  -- is in the barrier the parent keeps its state and its place; with the last one gone a parked
  -- parent leaves the parked ones: it waits among the prioritized, or is held behind its key.
  pub settle_child_completed-barrier :
      (s : Store R) (id parent : ℕ) (value : String) (now : ℕ)
      → is_some (s.jobs parent) ≡ true
      → is_some (R.zscore s.waiting_children parent) ≡ true
      → (let t = settle_child_completed s id parent value now in
          (t.results parent id ≡ some value)
          × (t.deps parent ≡ remove_all id (s.deps parent))
          × (((length (remove_all id (s.deps parent)) == 0) ≡ false
                × (state_of t parent ≡ state_of s parent)
                × (R.zscore t.waiting_children parent ≡ R.zscore s.waiting_children parent))
              ⊎ ((length (remove_all id (s.deps parent)) == 0) ≡ true
                  × (R.zscore t.waiting_children parent ≡ none)
                  × IsLetGo t parent (hget s parent (λ j. j.ckey)))))
  unfolding settle_child_completed leave_barrier release_parent
  settle_child_completed-barrier s id parent value now here parked =
      elim (Bool-cases (length (remove_all id (s.deps parent)) == 0)) [
        | inr more ↦ (
          rw (here, settle_child_completed) (ground arith),
          rw (here, settle_child_completed) (ground arith),
          inl (
            more,
            rw (here, settle_child_completed) (ground arith),
            rw (here, settle_child_completed) (ground arith),
          ),
        )
        | inl last ↦
            let (results, deps, off) = take_and_enqueue-keeps out parent _ _ now in
            subst
              (λ t.
                (t.results parent id ≡ some value)
                × (t.deps parent ≡ remove_all id (s.deps parent))
                × (((length (remove_all id (s.deps parent)) == 0) ≡ false
                      × (state_of t parent ≡ state_of s parent)
                      × (R.zscore t.waiting_children parent ≡ R.zscore s.waiting_children parent))
                    ⊎ ((length (remove_all id (s.deps parent)) == 0) ≡ true
                        × (R.zscore t.waiting_children parent ≡ none)
                        × IsLetGo t parent (hget s parent (λ j. j.ckey)))))
              (sym (same last))
              (
                ap (λ f. f parent id) results ∙ (ground arith),
                ap (λ f. f parent) deps ∙ (ground arith),
                inr (
                  last,
                  ap (λ z. R.zscore z parent) off ∙ removed R _ _,
                  take_and_enqueue-IsLetGo out parent _ _ now,
                ),
              )
      ]
    where
      kept : Store R
      kept = record s {
        results = update s.results parent (update (s.results parent) id (some value));
      }

      left : Store R
      left = record kept { deps = update kept.deps parent (remove_all id (kept.deps parent)) }

      out : Store R
      out = record left { waiting_children = R.zrem left.waiting_children parent }

      queued : Store R
      queued =
          take_and_enqueue out parent (hget out parent (λ j. j.ckey))
            (hget out parent (λ j. j.priority)) now

      same :
          (length (remove_all id (s.deps parent)) == 0) ≡ true
          → settle_child_completed s id parent value now ≡ queued
      same last =
          (let e : settle_child_completed s id parent value now ≡ leave_barrier kept parent id now =
              rw (here, settle_child_completed) refl in
            e)
          ∙ (let e : leave_barrier kept parent id now ≡ release_parent left parent now =
                (let l : (length (left.deps parent) == 0) ≡ true = ground (arith, last) in
                  rw l refl) in
              e)
          ∙ (let e : release_parent left parent now ≡ queued = rw (parked, release_parent) refl in
              e)
