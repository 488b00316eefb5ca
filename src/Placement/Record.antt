-- ===== src/Placement/Record.antt =====
-- The placement of jobs where a finished one is recorded or removed at once: `recordFinished` of
-- toro/scripts.py.
use toro.Prelude.{
  ℕ, ◌≡◌, ◌≢◌, refl, Bool, true, false, inl, inr, Option, none, some, List, [], ◌∷◌, ◌==◌,
  Bool-cases, arith, get_or_else, is_some,
}
use toro.Redis.{Redis}
use toro.Job.{Job, JobState, is_finished, is_state, blank}
use toro.Store.{Store, hget, hset, state_of}
use toro.Scripts.Keyed.{release_key}
use toro.Scripts.Retention.{
  zadd_finished, settle_each, settle_live, ids_of, removes_at_once, keep_for, running_root,
  record_finished, finished_score, index_finished,
}
use toro.Placement.{InHand, IsPlaced}
use toro.Placement.Keys.{release_key-InHand}
use toro.Placement.Removal.{del_job-IsPlaced}
use toro.Placement.Trim.{trim-IsPlaced}

module _ {R : Redis} where
  -- A score is written again for a job that is in the set.
  zadd_finished-IsPlaced :
      (s : Store R) (st : Option JobState) (score id : ℕ)
      → state_of s id ≡ st
      → IsPlaced s
      → IsPlaced (zadd_finished s st score id)
  unfolding zadd_finished
  zadd_finished-IsPlaced s (some JobState.completed) score id e h = record {
    placed = λ j. simp R.zscore-zadd (ground (arith, h.placed j, h.placed id));
    keyed = h.keyed;
  }
  zadd_finished-IsPlaced s (some JobState.failed) score id e h = record {
    placed = λ j. simp R.zscore-zadd (ground (arith, h.placed j, h.placed id));
    keyed = h.keyed;
  }
  zadd_finished-IsPlaced s (some JobState.cancelled) score id e h = record {
    placed = λ j. simp R.zscore-zadd (ground (arith, h.placed j, h.placed id));
    keyed = h.keyed;
  }
  zadd_finished-IsPlaced s _ score id e h = h

  settle_each-IsPlaced :
      (cids : List ℕ) (now : ℕ) (s : Store R) → IsPlaced s → IsPlaced (settle_each s now cids)
  unfolding settle_each
  settle_each-IsPlaced [] now s h = h
  settle_each-IsPlaced (cid ∷ cids) now s h =
      settle_each-IsPlaced cids now _ (zadd_finished-IsPlaced s (state_of s cid) _ cid refl h)

  pub settle_live-IsPlaced :
      (s : Store R) (root now : ℕ) → IsPlaced s → IsPlaced (settle_live s root now)
  unfolding settle_live
  settle_live-IsPlaced s root now h =
      let r = settle_each-IsPlaced (ids_of (R.zrange (s.live root))) now s h in
      record { placed = r.placed; keyed = r.keyed }

  -- The same beside a job in hand, which is another.
  pub zadd_finished-InHand :
      {b : Bool} {was : Option JobState} (s : Store R) (id : ℕ) (st : Option JobState)
      (score cid : ℕ)
      → (is_finished st ≡ true → id ≢ cid)
      → state_of s cid ≡ st
      → InHand b was s id
      → InHand b was (zadd_finished s st score cid) id
  unfolding zadd_finished
  zadd_finished-InHand s id (some JobState.completed) score cid other c h = record {
    state = h.state;
    placed = λ j n. simp R.zscore-zadd (ground (arith, h.placed j n, h.placed cid (other refl)));
    keyed = h.keyed;
    nowhere = simp R.zscore-zadd (ground (arith, h.nowhere, other refl));
    key = h.key;
  }
  zadd_finished-InHand s id (some JobState.failed) score cid other c h = record {
    state = h.state;
    placed = λ j n. simp R.zscore-zadd (ground (arith, h.placed j n, h.placed cid (other refl)));
    keyed = h.keyed;
    nowhere = simp R.zscore-zadd (ground (arith, h.nowhere, other refl));
    key = h.key;
  }
  zadd_finished-InHand s id (some JobState.cancelled) score cid other c h = record {
    state = h.state;
    placed = λ j n. simp R.zscore-zadd (ground (arith, h.placed j n, h.placed cid (other refl)));
    keyed = h.keyed;
    nowhere = simp R.zscore-zadd (ground (arith, h.nowhere, other refl));
    key = h.key;
  }
  zadd_finished-InHand s id _ score cid other c h = h

  -- A job in hand that was not finished is not one that is.
  unfinished-apart :
      {b : Bool} {was : Option JobState} (s : Store R) (id cid : ℕ)
      → is_finished was ≡ false
      → InHand b was s id
      → is_finished (state_of s cid) ≡ true
      → id ≢ cid
  unfinished-apart s id cid e h f i = ground (arith, h.state)

  settle_each-InHand :
      {b : Bool} {was : Option JobState} (cids : List ℕ) (now id : ℕ) (s : Store R)
      → is_finished was ≡ false
      → InHand b was s id
      → InHand b was (settle_each s now cids) id
  unfolding settle_each
  settle_each-InHand [] now id s e h = h
  settle_each-InHand (cid ∷ cids) now id s e h =
      settle_each-InHand cids now id _ e
        (zadd_finished-InHand s id (state_of s cid) _ cid (unfinished-apart s id cid e h) refl h)

  settle_live-InHand :
      {b : Bool} {was : Option JobState} (s : Store R) (id root now : ℕ)
      → is_finished was ≡ false
      → InHand b was s id
      → InHand b was (settle_live s root now) id
  unfolding settle_live
  settle_live-InHand s id root now e h =
      let r = settle_each-InHand (ids_of (R.zrange (s.live root))) now id s e h in
      record {
        state = r.state;
        placed = r.placed;
        keyed = r.keyed;
        nowhere = r.nowhere;
        key = r.key;
      }

  -- A job in hand that holds no key goes to the set of a finished state.
  finish-IsPlaced :
      {was : Option JobState} (s : Store R) (id score : ℕ) (st : JobState) (f : Job → Job)
      → is_finished (some st) ≡ true
      → ((j : Job) → (f j).state ≡ some st)
      → ((j : Job) → (f j).ckey ≡ j.ckey)
      → InHand false was s id
      → IsPlaced (hset (zadd_finished s (some st) score id) id f)
  unfolding zadd_finished
  finish-IsPlaced s id score JobState.completed f e fs fk h = record {
    placed = λ j. simp R.zscore-zadd (elim (Bool-cases (id == j)) [
      | inl i ↦ ground (arith, h.nowhere, fs (get_or_else (s.jobs id) blank))
      | inr i ↦ ground (arith, h.placed j)
    ]);
    keyed = λ j k. elim (Bool-cases (id == j)) [
      | inl i ↦
          ground
            (arith, h.key k, fs (get_or_else (s.jobs id) blank), fk (get_or_else (s.jobs id) blank))
      | inr i ↦ ground (arith, h.keyed j k)
    ];
  }
  finish-IsPlaced s id score JobState.failed f e fs fk h = record {
    placed = λ j. simp R.zscore-zadd (elim (Bool-cases (id == j)) [
      | inl i ↦ ground (arith, h.nowhere, fs (get_or_else (s.jobs id) blank))
      | inr i ↦ ground (arith, h.placed j)
    ]);
    keyed = λ j k. elim (Bool-cases (id == j)) [
      | inl i ↦
          ground
            (arith, h.key k, fs (get_or_else (s.jobs id) blank), fk (get_or_else (s.jobs id) blank))
      | inr i ↦ ground (arith, h.keyed j k)
    ];
  }
  finish-IsPlaced s id score JobState.cancelled f e fs fk h = record {
    placed = λ j. simp R.zscore-zadd (elim (Bool-cases (id == j)) [
      | inl i ↦ ground (arith, h.nowhere, fs (get_or_else (s.jobs id) blank))
      | inr i ↦ ground (arith, h.placed j)
    ]);
    keyed = λ j k. elim (Bool-cases (id == j)) [
      | inl i ↦
          ground
            (arith, h.key k, fs (get_or_else (s.jobs id) blank), fk (get_or_else (s.jobs id) blank))
      | inr i ↦ ground (arith, h.keyed j k)
    ];
  }
  finish-IsPlaced s id score _ f e fs fk h = cc

  -- The live index of a running root, or a settling root's own.
  index_finished-IsPlaced :
      (s : Store R) (id now : ℕ) (root : Option ℕ) (is_parent : Bool)
      → IsPlaced s
      → IsPlaced (index_finished s id now root is_parent)
  unfolding index_finished
  index_finished-IsPlaced s id now (some r) is_parent h = record {
    placed = h.placed;
    keyed = h.keyed;
  }
  index_finished-IsPlaced s id now none true h = settle_live-IsPlaced s id now h
  index_finished-IsPlaced s id now none false h = h

  -- However a job in hand finishes, every job is in place again, and its key was handed on.
  pub record_finished-IsPlaced :
      {b : Bool} {was : Option JobState} (s : Store R) (budget id now : ℕ) (f : Job → Job)
      (st : JobState)
      → is_finished (some st) ≡ true
      → is_finished was ≡ false
      → ((j : Job) → (f j).ckey ≡ j.ckey)
      → InHand b was s id
      → IsPlaced (record_finished s budget id now f st).0
  unfolding record_finished
  record_finished-IsPlaced s budget id now f st e w fk h =
      let s1 = release_key s id now in
      let free = release_key-InHand s id now h in
      let keep = keep_for (hget s1 id (λ j. j.opts)) (is_state JobState.completed (some st)) in
      let parent = hget s1 id (λ j. j.parent_id) in
      let root = running_root s1 parent (hget s1 id (λ j. j.root_id)) in
      elim (Bool-cases (removes_at_once keep)) [
        | inl at_once ↦ rw at_once (elim (Bool-cases (is_some (hget s1 id (λ j. j.children)))) [
          | inl parent ↦ rw parent (del_job-IsPlaced _ id (settle_live-InHand s1 id id now w free))
          | inr leaf ↦ rw leaf (del_job-IsPlaced s1 id free)
        ])
        | inr recorded ↦ rw recorded (
            trim-IsPlaced _ (some st) budget now keep e (
              index_finished-IsPlaced _ id now root (is_some (hget s1 id (λ j. j.children))) (
                finish-IsPlaced s1 id (finished_score root parent now) st
                  (λ j. record (f j) { finished_on = some now; state = some st }) e (λ j. refl) fk
                  free)))
      ]
