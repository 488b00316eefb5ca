-- ===== src/Keeping.antt =====
-- Retention at the end of a job, and the walk up a flow: `recordFinished` and `runningRoot` of
-- toro/scripts.py.
use toro.Prelude.{
  ℕ, zero, suc, ◌+◌, ◌≤◌, ◌<◌, ◌≡◌, refl, ap, ◌∙◌, true, inl, inr, Option, none, some, List, [],
  ◌∷◌, Bool-cases, Option-cases, arith, is_some, ltb, get_or_else, ◌==◌,
}
use toro.Redis.{Redis}
use toro.Job.{Job, JobState, is_state}
use toro.Store.{Store, hget, state_of}
use toro.Scripts.Order.{wake, wake_at}
use toro.Scripts.Keyed.{hand_key, pop_held, next_holder, release_held_key, release_key}
use toro.Scripts.Retention.{keep_for, removes_at_once, record_finished, del_job, del_keys, walk_up}

module _ {R : Redis} where
  -- Handing a key on writes no job's options.
  hand_key-opts :
      (s : Store R) (key id score now j : ℕ)
      → hget (hand_key s key id score now) j (λ x. x.opts) ≡ hget s j (λ x. x.opts)
  unfolding hand_key wake_at wake
  hand_key-opts s key id score now j =
      elim (Bool-cases
        (ltb now (get_or_else (hget s id (λ x. x.timestamp)) now + hget s id (λ x. x.delay)))) [
          | inl later ↦ rw (later, hand_key) (ground arith)
          | inr due ↦ rw (due, hand_key) (ground arith)
        ]

  next_holder-opts :
      (l : List (ℕ × ℕ)) (s : Store R) (key now j : ℕ)
      → hget (next_holder s key now l) j (λ x. x.opts) ≡ hget s j (λ x. x.opts)
  unfolding next_holder pop_held
  next_holder-opts [] s key now j = refl
  next_holder-opts ((id, score) ∷ rest) s key now j =
      elim (Bool-cases (is_some (state_of (pop_held s key id) id))) [
        | inl there ↦ rw (there, next_holder) (hand_key-opts (pop_held s key id) key id score now j)
        | inr gone ↦ rw (gone, next_holder) (next_holder-opts rest (pop_held s key id) key now j)
      ]

  release_held_key-opts :
      (key : Option ℕ) (s : Store R) (id now j : ℕ)
      → hget (release_held_key key s id now) j (λ x. x.opts) ≡ hget s j (λ x. x.opts)
  unfolding release_held_key
  release_held_key-opts none s id now j = refl
  release_held_key-opts (some key) s id now j = elim (Option-cases (s.ck key)) [
    | inl free ↦ rw (free, release_held_key) refl
    | inr (holder, taken) ↦
        rw (taken, release_held_key)
          (elim (Bool-cases (holder == id)) [
            | inl own ↦ rw own (next_holder-opts (R.zrange (s.held_for key)) s key now j)
            | inr other ↦ rw other refl
          ])
  ]

  -- A job whose option keeps none, and sets no age, leaves no hash behind when it finishes, whatever
  -- the state it finishes in, and spends nothing of the budget of the trims.
  pub record_finished-removed :
      (s : Store R) (budget id now : ℕ) (f : Job → Job) (st : JobState)
      → removes_at_once (keep_for (hget s id (λ j. j.opts)) (is_state JobState.completed (some st)))
        ≡ true
      → ((record_finished s budget id now f st).0.jobs id ≡ none)
        × ((record_finished s budget id now f st).1 ≡ budget)
  unfolding record_finished del_job del_keys release_key
  record_finished-removed s budget id now f st at_once =
      let e = release_held_key-opts (hget s id (λ j. j.ckey)) s id now id in
      let gone : removes_at_once (
            keep_for (hget (release_key s id now) id (λ j. j.opts))
              (is_state JobState.completed (some st)))
          ≡ true =
        ap (λ o. removes_at_once (keep_for o (is_state JobState.completed (some st)))) e
        ∙ at_once in
      (rw (gone, record_finished) (ground arith), rw (gone, record_finished) refl)

  -- The walk up from a job ends at a job without a parent: the fuel is enough, where each job's parent
  -- has an id below its own.
  pub walk_up-root :
      (fuel : ℕ) (s : Store R) (id : ℕ)
      → ((i p : ℕ) → hget s i (λ j. j.parent_id) ≡ some p → p < i)
      → id ≤ fuel
      → hget s (walk_up fuel s id) (λ j. j.parent_id) ≡ none
  unfolding walk_up
  walk_up-root zero s id below enough = elim (Option-cases (hget s id (λ j. j.parent_id))) [
    | inl root ↦ root
    | inr (p, e) ↦ absurd (omega (arith, below id p e))
  ]
  walk_up-root (suc f) s id below enough = elim (Option-cases (hget s id (λ j. j.parent_id))) [
    | inl root ↦ rw (root, walk_up) root
    | inr (p, e) ↦ rw (e, walk_up) (walk_up-root f s p below (omega (arith, below id p e, enough)))
  ]
