-- ===== src/Placement/Moves.antt =====
-- A job in hand goes to `prioritized` or `delayed`.
use toro.Prelude.{ℕ, ◌≡◌, Bool, Option, true, inl, inr, some, ◌==◌, Bool-cases, arith, get_or_else}
use toro.Redis.{Redis}
use toro.Job.{Job, JobState, blank}
use toro.Store.{Store, hset}
use toro.Scripts.Order.{enqueue, wake_at}
use toro.Placement.{InHand, IsPlaced}

module _ {R : Redis} where
  pub wake_at-IsPlaced : (s : Store R) (due : ℕ) → IsPlaced s → IsPlaced (wake_at s due)
  unfolding wake_at
  wake_at-IsPlaced s due h = record {
    placed = λ j. ground (arith, h.placed j);
    keyed = λ j k. ground (arith, h.keyed j k);
  }

  -- A job that holds its key goes back to the queue, whatever else of its hash is written.
  pub enqueue-IsPlaced :
      {was : Option JobState} (s : Store R) (id priority now : ℕ) (f : Job → Job)
      → ((j : Job) → (f j).state ≡ some JobState.wait)
      → ((j : Job) → (f j).ckey ≡ j.ckey)
      → InHand true was s id
      → IsPlaced (enqueue (hset s id f) id priority now)
  unfolding enqueue
  enqueue-IsPlaced s id priority now f fs fk h = record {
    placed = λ j. simp R.zscore-zadd (elim (Bool-cases (id == j)) [
      | inl e ↦ ground (arith, h.nowhere, fs (get_or_else (s.jobs id) blank))
      | inr e ↦ ground (arith, h.placed j)
    ]);
    keyed = λ j k. elim (Bool-cases (id == j)) [
      | inl e ↦
          ground
            (arith, h.key k, fs (get_or_else (s.jobs id) blank), fk (get_or_else (s.jobs id) blank))
      | inr e ↦ ground (arith, h.keyed j k)
    ];
  }

  pub delay-IsPlaced :
      {was : Option JobState} (s : Store R) (id due : ℕ) (f : Job → Job)
      → ((j : Job) → (f j).state ≡ some JobState.delayed)
      → ((j : Job) → (f j).ckey ≡ j.ckey)
      → InHand true was s id
      → IsPlaced
          (wake_at (record (hset s id f) { delayed = R.zadd (hset s id f).delayed due id }) due)
  delay-IsPlaced s id due f fs fk h =
      wake_at-IsPlaced (record (hset s id f) { delayed = R.zadd (hset s id f).delayed due id }) due
        (record {
          placed = λ j. simp R.zscore-zadd (elim (Bool-cases (id == j)) [
            | inl e ↦ ground (arith, h.nowhere, fs (get_or_else (s.jobs id) blank))
            | inr e ↦ ground (arith, h.placed j)
          ]);
          keyed = λ j k. elim (Bool-cases (id == j)) [
            | inl e ↦ ground (
              arith,
              h.key k,
              fs (get_or_else (s.jobs id) blank),
              fk (get_or_else (s.jobs id) blank),
            )
            | inr e ↦ ground (arith, h.keyed j k)
          ];
        })

  -- Out of its collection, a job is in hand.
  pub wake_at-InHand :
      {b : Bool} {was : Option JobState} (s : Store R) (due id : ℕ)
      → InHand b was s id
      → InHand b was (wake_at s due) id
  unfolding wake_at
  wake_at-InHand s due id h = record {
    state = ground (arith, h.state);
    placed = λ j n. ground (arith, h.placed j n);
    keyed = λ j k n. ground (arith, h.keyed j k n);
    nowhere = ground (arith, h.nowhere);
    key = λ k. ground (arith, h.key k);
  }
