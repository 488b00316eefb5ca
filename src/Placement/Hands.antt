-- ===== src/Placement/Hands.antt =====
-- Taking a job out of the collection of its state puts it in hand, with its key if it may run.
use toro.Prelude.{
  ℕ, ◌≡◌, true, false, some, arith, update, remove_all, remove_one, count-remove_all,
  count-remove_one,
}
use toro.Redis.{Redis}
use toro.Job.{JobState}
use toro.Store.{Store, state_of}
use toro.Placement.{InHand, IsPlaced, ckey_of}

module _ {R : Redis} (s : Store R) (id : ℕ) (h : IsPlaced s) where
  pub from_wait :
      state_of s id ≡ some JobState.wait
      → InHand true (some JobState.wait) (record s { prioritized = R.zrem s.prioritized id }) id
  from_wait e = record {
    state = e;
    placed = λ j n. simp R.zscore-zrem (ground (arith, h.placed j));
    keyed = λ j k n. h.keyed j k;
    nowhere = simp R.zscore-zrem (ground (arith, h.placed id));
    key = λ k. ground (arith, h.keyed id k);
  }

  pub from_delayed :
      state_of s id ≡ some JobState.delayed
      → InHand true (some JobState.delayed) (record s { delayed = R.zrem s.delayed id }) id
  from_delayed e = record {
    state = e;
    placed = λ j n. simp R.zscore-zrem (ground (arith, h.placed j));
    keyed = λ j k n. h.keyed j k;
    nowhere = simp R.zscore-zrem (ground (arith, h.placed id));
    key = λ k. ground (arith, h.keyed id k);
  }

  pub from_parked :
      state_of s id ≡ some JobState.waiting_children
      → InHand false
          (some JobState.waiting_children)
          (record s { waiting_children = R.zrem s.waiting_children id })
          id
  from_parked e = record {
    state = e;
    placed = λ j n. simp R.zscore-zrem (ground (arith, h.placed j));
    keyed = λ j k n. h.keyed j k;
    nowhere = simp R.zscore-zrem (ground (arith, h.placed id));
    key = λ k. ground (arith, h.keyed id k);
  }

  pub from_failed :
      state_of s id ≡ some JobState.failed
      → InHand false (some JobState.failed) (record s { failed = R.zrem s.failed id }) id
  from_failed e = record {
    state = e;
    placed = λ j n. simp R.zscore-zrem (ground (arith, h.placed j));
    keyed = λ j k n. h.keyed j k;
    nowhere = simp R.zscore-zrem (ground (arith, h.placed id));
    key = λ k. ground (arith, h.keyed id k);
  }

  -- A held job leaves the listing of held jobs and the queue behind its key.
  pub from_held :
      (key : ℕ)
      → state_of s id ≡ some JobState.held
      → ckey_of s id ≡ some key
      → InHand false
          (some JobState.held)
          (record s {
            held = R.zrem s.held id;
            held_for = update s.held_for key (R.zrem (s.held_for key) id);
          })
          id
  from_held key e own = record {
    state = e;
    placed = λ j n. simp R.zscore-zrem (ground (arith, h.placed j));
    keyed = λ j k n. ground (arith, h.keyed j k, R.zscore-zrem (s.held_for key) id j);
    nowhere = simp R.zscore-zrem (ground (arith, h.placed id));
    key = λ k. ground (arith, h.keyed id k, R.zscore-zrem (s.held_for key) id id);
  }

  pub from_active :
      state_of s id ≡ some JobState.active
      → InHand true (some JobState.active) (record s { active = remove_all id s.active }) id
  from_active e = record {
    state = e;
    placed = λ j n. ground (arith, h.placed j, count-remove_all id j s.active);
    keyed = λ j k n. h.keyed j k;
    nowhere = ground (arith, h.placed id, count-remove_all id id s.active);
    key = λ k. ground (arith, h.keyed id k);
  }

  -- An active job is in the list once, so that LREM with a count of 1 takes it out.
  pub from_active_one :
      state_of s id ≡ some JobState.active
      → InHand true (some JobState.active) (record s { active = remove_one id s.active }) id
  from_active_one e = record {
    state = e;
    placed = λ j n. ground (arith, h.placed j, count-remove_one id j s.active);
    keyed = λ j k n. h.keyed j k;
    nowhere = ground (arith, h.placed id, count-remove_one id id s.active);
    key = λ k. ground (arith, h.keyed id k);
  }
