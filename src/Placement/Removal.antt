-- ===== src/Placement/Removal.antt =====
-- The placement of jobs where finished ones are removed: `delJobs` and `removeFinished` of
-- toro/scripts.py.
use toro.Prelude.{
  ℕ, zero, suc, ◌≡◌, ◌≢◌, refl, ap, ◌∙◌, subst, true, false, not, ◌&&◌, ◌⊎◌, inl, inr, Option, none,
  some, List, [], ◌∷◌, ◌==◌, Bool-cases, arith, is_some, ==_iff,
}
use toro.Redis.{Redis}
use toro.Job.{JobState, is_finished}
use toro.Store.{Store, hget, state_of}
use toro.Scripts.Retention.{
  zrem_finished, del_keys, del_settled, del_job, kept_forever, remove_each, remove_finished, ids_of,
  children_of,
}
use toro.Placement.{InHand, IsPlaced}

-- A finished job has a state.
finished-some : (st : Option JobState) → is_finished st ≡ true → is_some st ≡ true
finished-some none e = cc
finished-some (some st) e = refl

module _ {R : Redis} where
  -- A job out of every collection is deleted.
  pub del_keys-IsPlaced :
      {was : Option JobState} (s : Store R) (id : ℕ)
      → InHand false was s id
      → IsPlaced (del_keys s id)
  unfolding del_keys
  del_keys-IsPlaced s id h = record {
    placed = λ j. elim (Bool-cases (id == j)) [
      | inl e ↦ ground (arith, h.nowhere)
      | inr e ↦ ground (arith, h.placed j)
    ];
    keyed = λ j k. elim (Bool-cases (id == j)) [
      | inl e ↦ ground (arith, h.key k)
      | inr e ↦ ground (arith, h.keyed j k)
    ];
  }

  -- A finished job is taken out of the set of its state.
  pub zrem_finished-InHand :
      (s : Store R) (id : ℕ) (st : Option JobState)
      → state_of s id ≡ st
      → is_finished st ≡ true
      → IsPlaced s
      → InHand false st (zrem_finished s st id) id
  unfolding zrem_finished
  zrem_finished-InHand s id (some JobState.completed) e f h = record {
    state = e;
    placed = λ j n. simp R.zscore-zrem (ground (arith, h.placed j));
    keyed = λ j k n. h.keyed j k;
    nowhere = simp R.zscore-zrem (ground (arith, h.placed id));
    key = λ k. ground (arith, h.keyed id k);
  }
  zrem_finished-InHand s id (some JobState.failed) e f h = record {
    state = e;
    placed = λ j n. simp R.zscore-zrem (ground (arith, h.placed j));
    keyed = λ j k n. h.keyed j k;
    nowhere = simp R.zscore-zrem (ground (arith, h.placed id));
    key = λ k. ground (arith, h.keyed id k);
  }
  zrem_finished-InHand s id (some JobState.cancelled) e f h = record {
    state = e;
    placed = λ j n. simp R.zscore-zrem (ground (arith, h.placed j));
    keyed = λ j k n. h.keyed j k;
    nowhere = simp R.zscore-zrem (ground (arith, h.placed id));
    key = λ k. ground (arith, h.keyed id k);
  }
  zrem_finished-InHand s id _ e f h = cc

  -- An id that is not a job leaves nothing to take out.
  zrem_finished-IsPlaced :
      (s : Store R) (id : ℕ) (st : Option JobState)
      → state_of s id ≡ none
      → IsPlaced s
      → IsPlaced (zrem_finished s st id)
  unfolding zrem_finished
  zrem_finished-IsPlaced s id (some JobState.completed) e h = record {
    placed = λ j. simp R.zscore-zrem (ground (arith, h.placed j, h.placed id));
    keyed = h.keyed;
  }
  zrem_finished-IsPlaced s id (some JobState.failed) e h = record {
    placed = λ j. simp R.zscore-zrem (ground (arith, h.placed j, h.placed id));
    keyed = h.keyed;
  }
  zrem_finished-IsPlaced s id (some JobState.cancelled) e h = record {
    placed = λ j. simp R.zscore-zrem (ground (arith, h.placed j, h.placed id));
    keyed = h.keyed;
  }
  zrem_finished-IsPlaced s id none e h = h
  zrem_finished-IsPlaced s id _ e h = h

  -- The keys of a job that is finished, gone with its place.
  drop-InHand :
      {was : Option JobState} (s : Store R) (id cid : ℕ) (st : Option JobState)
      → id ≢ cid
      → state_of s cid ≡ st
      → is_finished st ≡ true
      → InHand false was s id
      → InHand false was (del_keys (zrem_finished s st cid) cid) id
  unfolding zrem_finished del_keys
  drop-InHand s id cid (some JobState.completed) n e f h = record {
    state = ground (arith, h.state);
    placed = λ j m. simp R.zscore-zrem (ground (arith, h.placed j, h.placed cid n));
    keyed = λ j k m. ground (arith, h.keyed j k m);
    nowhere = simp R.zscore-zrem (ground (arith, h.nowhere));
    key = λ k. ground (arith, h.key k);
  }
  drop-InHand s id cid (some JobState.failed) n e f h = record {
    state = ground (arith, h.state);
    placed = λ j m. simp R.zscore-zrem (ground (arith, h.placed j, h.placed cid n));
    keyed = λ j k m. ground (arith, h.keyed j k m);
    nowhere = simp R.zscore-zrem (ground (arith, h.nowhere));
    key = λ k. ground (arith, h.key k);
  }
  drop-InHand s id cid (some JobState.cancelled) n e f h = record {
    state = ground (arith, h.state);
    placed = λ j m. simp R.zscore-zrem (ground (arith, h.placed j, h.placed cid n));
    keyed = λ j k m. ground (arith, h.keyed j k m);
    nowhere = simp R.zscore-zrem (ground (arith, h.nowhere));
    key = λ k. ground (arith, h.key k);
  }
  drop-InHand s id cid _ n e f h = cc

  -- The job in hand itself, listed under its own key.
  drop_self-InHand :
      {was : Option JobState} (s : Store R) (id : ℕ) (st : Option JobState)
      → InHand false was s id
      → InHand false none (del_keys (zrem_finished s st id) id) id
  unfolding zrem_finished del_keys
  drop_self-InHand s id (some JobState.completed) h = record {
    state = ground arith;
    placed = λ j m. simp R.zscore-zrem (ground (arith, h.placed j m));
    keyed = λ j k m. ground (arith, h.keyed j k m);
    nowhere = simp R.zscore-zrem (ground (arith, h.nowhere));
    key = λ k. ground (arith, h.key k);
  }
  drop_self-InHand s id (some JobState.failed) h = record {
    state = ground arith;
    placed = λ j m. simp R.zscore-zrem (ground (arith, h.placed j m));
    keyed = λ j k m. ground (arith, h.keyed j k m);
    nowhere = simp R.zscore-zrem (ground (arith, h.nowhere));
    key = λ k. ground (arith, h.key k);
  }
  drop_self-InHand s id (some JobState.cancelled) h = record {
    state = ground arith;
    placed = λ j m. simp R.zscore-zrem (ground (arith, h.placed j m));
    keyed = λ j k m. ground (arith, h.keyed j k m);
    nowhere = simp R.zscore-zrem (ground (arith, h.nowhere));
    key = λ k. ground (arith, h.key k);
  }
  drop_self-InHand s id _ h = record {
    state = ground arith;
    placed = λ j m. ground (arith, h.placed j m);
    keyed = λ j k m. ground (arith, h.keyed j k m);
    nowhere = h.nowhere;
    key = λ k. ground (arith, h.key k);
  }

  del_settled-InHand :
      (cids : List ℕ) (id : ℕ) (s : Store R) {was : Option JobState}
      → InHand false was s id
      → (w : Option JobState) × InHand false w (del_settled s cids) id
  unfolding del_settled
  del_settled-InHand [] id s {was} h = (was, h)
  del_settled-InHand (cid ∷ cids) id s h = elim (Bool-cases (is_finished (state_of s cid))) [
    | inr moving ↦ rw (moving, del_settled) (del_settled-InHand cids id s h)
    | inl settled ↦
        rw (settled, del_settled)
          (elim (Bool-cases (id == cid)) [
            | inl e ↦ del_settled-InHand cids id _ (
                subst (λ c. InHand false none (del_keys (zrem_finished s (state_of s c) c) c) id)
                  ((==_iff id cid).0 e) (drop_self-InHand s id (state_of s id) h))
            | inr e ↦
                del_settled-InHand cids id _
                  (drop-InHand s id cid (state_of s cid) (ground arith) refl settled h)
          ])
  ]

  -- A job in hand is deleted, with what its live index holds.
  pub del_job-IsPlaced :
      {was : Option JobState} (s : Store R) (id : ℕ)
      → InHand false was s id
      → IsPlaced (del_job s id)
  unfolding del_job
  del_job-IsPlaced s id h =
      del_keys-IsPlaced (del_settled s (ids_of (R.zrange (s.live id)))) id
        (del_settled-InHand (ids_of (R.zrange (s.live id))) id s h).1

  remove_each-IsPlaced :
      (remove : Store R → Option JobState → ℕ → Store R × ℕ) (cids : List ℕ) (s : Store R)
      (gone : ℕ)
      → ((t : Store R) (cid : ℕ)
          → is_finished (state_of t cid) ≡ true
          → IsPlaced t
          → IsPlaced (remove t (state_of t cid) cid).0)
      → IsPlaced s
      → IsPlaced (remove_each remove s gone cids).0
  unfolding remove_each
  remove_each-IsPlaced remove [] s gone keeps h = h
  remove_each-IsPlaced remove (cid ∷ cids) s gone keeps h =
      elim (Bool-cases
        (is_finished (state_of s cid) && not (kept_forever s cid (state_of s cid)))) [
          | inl goes ↦
              rw (goes, remove_each)
                (remove_each-IsPlaced remove cids _ _ keeps (keeps s cid (ground (arith, goes)) h))
          | inr stays ↦ rw (stays, remove_each) (remove_each-IsPlaced remove cids s _ keeps h)
        ]

  -- What a removal may ask of an id: finished in the set it is taken from, or no job.
  abbrev pub Removable : Store R → Option JobState → ℕ → Type 0
  Removable s st id = (state_of s id ≡ st) ⊎ (state_of s id ≡ none)

  pub remove_finished-IsPlaced :
      (f : ℕ) (s : Store R) (st : Option JobState) (id : ℕ)
      → is_finished st ≡ true
      → Removable s st id
      → IsPlaced s
      → IsPlaced (remove_finished f s st id).0
  unfolding remove_finished
  remove_finished-IsPlaced zero s st id e r h = h
  remove_finished-IsPlaced (suc f) s st id e (inr gone) h =
      rw (gone, remove_finished) (zrem_finished-IsPlaced s id st gone h)
  remove_finished-IsPlaced (suc f) s st id e (inl own) h =
      rw (ap is_some own ∙ finished-some st e, remove_finished)
        (remove_each-IsPlaced (remove_finished f) (children_of (hget s id (λ j. j.children))) _ 1
          (λ t cid fin p. remove_finished-IsPlaced f t (state_of t cid) cid fin (inl refl) p)
          (del_job-IsPlaced (zrem_finished s st id) id (zrem_finished-InHand s id st own e h)))
