-- ===== src/Placement/Retries.antt =====
-- The placement of jobs through a retry: `RETRY_JOB`, with `reviveSubtree`, of toro/scripts.py.
use toro.Prelude.{
  ℕ, zero, suc, ◌+◌, ◌≤◌, ◌<◌, ◌≡◌, refl, sym, subst, Bool, false, inl, inr, Option, none, some,
  List, [], ◌∷◌, Bool-cases, arith, if◌then◌else◌, update, ltb, get_or_else, is_some, length, ◌==◌,
}
use toro.Redis.{Redis}
use toro.Job.{Job, JobState, is_finished, blank}
use toro.Store.{Store, hget, hset, state_of}
use toro.Scripts.Retention.{
  zadd_finished, revive_one, revive_each, revive_subtree, children_of, live_score,
}
use toro.Scripts.Flow.{take_and_enqueue, sadd}
use toro.Scripts.Admin.{clear_failure, rejoin_parent, rearm, retry_job, waits_again}
use toro.Placement.{InHand, IsPlaced}
use toro.Placement.Trim.{All, All-map}
use toro.Placement.Hands.{from_failed}
use toro.Placement.Record.{zadd_finished-InHand}
use toro.Placement.Flows.{take_and_enqueue-IsPlaced}
use toro.Placement.Guards.{write-InHand}

-- A job's children have ids above its own: they were minted after it.
pub record IsForest (jobs : ℕ → Option Job) : Type 0 where
  pub above : (i : ℕ) → All (λ c. i < c) (children_of (get_or_else (jobs i) blank).children)

module _ {R : Redis} where
  -- A job in hand, in a store whose flows are trees.
  record InForest (b : Bool) (was : Option JobState) (s : Store R) (id : ℕ) : Type 0 where
    hand : InHand b was s id
    forest : IsForest s.jobs

  zadd_finished-jobs :
      (s : Store R) (st : Option JobState) (score id : ℕ)
      → (zadd_finished s st score id).jobs ≡ s.jobs
  unfolding zadd_finished
  zadd_finished-jobs s (some JobState.completed) score id = refl
  zadd_finished-jobs s (some JobState.failed) score id = refl
  zadd_finished-jobs s (some JobState.cancelled) score id = refl
  zadd_finished-jobs s _ score id = refl

  revive_one-InForest :
      {b : Bool} {was : Option JobState} (s : Store R) (id root cid now : ℕ)
      → id < cid
      → InForest b was s id
      → InForest b was (revive_one s root cid now) id
  unfolding revive_one
  revive_one-InForest s id root cid now below h = elim (Bool-cases (is_finished (state_of s cid))) [
    | inr moving ↦ rw (moving, revive_one) h
    | inl over ↦
        rw (over, revive_one)
          (let p =
              zadd_finished-InHand s id (state_of s cid) (live_score + now) cid (λ _ i. omega arith)
                refl h.hand in
            record {
              hand = record {
                state = p.state;
                placed = p.placed;
                keyed = p.keyed;
                nowhere = p.nowhere;
                key = p.key;
              };
              forest =
                  subst IsForest
                    (sym (zadd_finished-jobs s (state_of s cid) (live_score + now) cid)) h.forest;
            })
  ]

  revive_each-InForest :
      {b : Bool} {was : Option JobState} (cids : List ℕ) (revive : Store R → ℕ → Store R)
      (s : Store R) (id root now : ℕ)
      → ((t : Store R) (cid : ℕ)
          → id < cid
          → InForest b was t id
          → InForest b was (revive t cid) id)
      → All (λ c. id < c) cids
      → InForest b was s id
      → InForest b was (revive_each revive s root now cids) id
  unfolding revive_each
  revive_each-InForest [] revive s id root now k a h = h
  revive_each-InForest (cid ∷ cids) revive s id root now k a h =
      revive_each-InForest cids revive (revive (revive_one s root cid now) cid) id root now k a.1
        (k (revive_one s root cid now) cid a.0 (revive_one-InForest s id root cid now a.0 h))

  revive_subtree-InForest :
      {b : Bool} {was : Option JobState} (fuel root now id : ℕ) (s : Store R) (i : ℕ)
      → id ≤ i
      → InForest b was s id
      → InForest b was (revive_subtree fuel root now s i) id
  unfolding revive_subtree
  revive_subtree-InForest zero root now id s i le h = h
  revive_subtree-InForest (suc f) root now id s i le h =
      revive_each-InForest (children_of (hget s i (λ j. j.children))) (revive_subtree f root now) s
        id root now (λ t cid below k. revive_subtree-InForest f root now id t cid (omega arith) k)
        (All-map (λ c. i < c) (λ c. id < c) (children_of (hget s i (λ j. j.children)))
          (λ c below. omega arith) (h.forest.above i))
        h

  rejoin_parent-InHand :
      {b : Bool} {was : Option JobState} (s : Store R) (id : ℕ) (up : Option ℕ)
      → InHand b was s id
      → InHand b was (rejoin_parent up s id) id
  unfolding rejoin_parent
  rejoin_parent-InHand s id none h = h
  rejoin_parent-InHand s id (some parent) h =
      elim (Bool-cases (is_some (R.zscore s.waiting_children parent))) [
        | inl parked ↦
            rw (parked, rejoin_parent)
              (record {
                state = h.state;
                placed = h.placed;
                keyed = h.keyed;
                nowhere = h.nowhere;
                key = h.key;
              })
        | inr free ↦
            rw (free, rejoin_parent)
              (record {
                state = h.state;
                placed = h.placed;
                keyed = h.keyed;
                nowhere = h.nowhere;
                key = h.key;
              })
      ]

  rearm-InHand :
      {b : Bool} {was : Option JobState} (cids : List ℕ) (s : Store R) (id : ℕ)
      → InHand b was s id
      → InHand b was (rearm s id cids) id
  unfolding rearm
  rearm-InHand [] s id h = h
  rearm-InHand (cid ∷ cids) s id h = elim (Bool-cases (waits_again (state_of s cid))) [
    | inr settled ↦ rw (settled, rearm) (rearm-InHand cids s id h)
    | inl again ↦
        rw (again, rearm)
          (rearm-InHand cids (record s { deps = update s.deps id (sadd cid (s.deps id)) }) id
            (record {
              state = h.state;
              placed = h.placed;
              keyed = h.keyed;
              nowhere = h.nowhere;
              key = h.key;
            }))
  ]

  parked_again-IsPlaced :
      {was : Option JobState} (s : Store R) (id now : ℕ) (f : Job → Job)
      → ((j : Job) → (f j).state ≡ some JobState.waiting_children)
      → InHand false was s id
      → IsPlaced (record (hset s id f) { waiting_children = R.zadd s.waiting_children now id })
  parked_again-IsPlaced s id now f fs h = record {
    placed = λ j. simp R.zscore-zadd (elim (Bool-cases (id == j)) [
      | inl e ↦ ground (arith, h.nowhere, fs (get_or_else (s.jobs id) blank))
      | inr e ↦ ground (arith, h.placed j)
    ]);
    keyed = λ j k. elim (Bool-cases (id == j)) [
      | inl e ↦ ground (arith, h.key k, fs (get_or_else (s.jobs id) blank))
      | inr e ↦ ground (arith, h.keyed j k)
    ];
  }

  cleared-IsForest :
      (s : Store R) (id : ℕ) → IsForest s.jobs → IsForest (hset s id clear_failure).jobs
  cleared-IsForest s id f = record {
    above = λ i.
        let e : hget (hset s id clear_failure) i (λ j. j.children) ≡ hget s i (λ j. j.children) =
          ground arith in
        subst (λ c. All (λ x. i < x) (children_of c)) (sym e) (f.above i);
  }

  revived_or_not :
      (up : Option ℕ) (fuel now : ℕ) (s : Store R) (id : ℕ)
      → InForest false (some JobState.failed) s id
      → InHand false
          (some JobState.failed)
          (if is_some up then s else revive_subtree fuel id now s id)
          id
  revived_or_not (some p) fuel now s id h = h.hand
  revived_or_not none fuel now s id h =
      (revive_subtree-InForest fuel id now id s id (omega arith) h).hand

  queued_or_parked-IsPlaced :
      (s : Store R) (id now : ℕ)
      → InHand false (some JobState.failed) s id
      → IsPlaced (
          if ltb 0 (length (s.deps id))
          then record (hset s id (λ j. record j { state = some JobState.waiting_children })) {
            waiting_children = R.zadd s.waiting_children now id;
          }
          else take_and_enqueue s id (hget s id (λ j. j.ckey)) (hget s id (λ j. j.priority)) now)
  queued_or_parked-IsPlaced s id now h = elim (Bool-cases (ltb 0 (length (s.deps id)))) [
    | inl waits ↦ rw waits (
        parked_again-IsPlaced s id now (λ j. record j { state = some JobState.waiting_children })
          (λ j. refl) h)
    | inr ready ↦ rw ready (take_and_enqueue-IsPlaced s id _ _ now (λ e. e) h)
  ]

  -- From a store with every job in place, in which a job's children have ids above its own, RETRY_JOB
  -- leaves every job in place: the retried job waits, is held behind its key, or waits for its
  -- children, and each key is with its holder.
  pub retry_job-IsPlaced :
      (s : Store R) (id now : ℕ) → IsForest s.jobs → IsPlaced s → IsPlaced (retry_job s id now).0
  unfolding retry_job
  retry_job-IsPlaced s id now f h = elim (Bool-cases (is_some (R.zscore s.failed id))) [
    | inr other ↦ rw (other, retry_job) h
    | inl failed ↦
        rw (failed, retry_job)
          (let s0 : Store R = record s { failed = R.zrem s.failed id } in
            let s1 = hset s0 id clear_failure in
            let up = hget s1 id (λ j. j.parent_id) in
            let p =
              write-InHand s0 id clear_failure (λ j. refl) (λ j. refl)
                (from_failed s id h (ground (arith, h.placed id))) in
            let q =
              revived_or_not up (suc s1.next_id) now s1 id
                (record { hand = p; forest = cleared-IsForest s0 id f }) in
            let s2 = if is_some up then s1 else revive_subtree (suc s1.next_id) id now s1 id in
            let s3 = rejoin_parent up s2 id in
            let cids = children_of (hget s3 id (λ j. j.children)) in
            queued_or_parked-IsPlaced (rearm s3 id cids) id now
              (rearm-InHand cids s3 id (rejoin_parent-InHand s2 id up q)))
  ]
