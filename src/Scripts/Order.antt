-- ===== src/Scripts/Order.antt =====
-- toro/scripts.py, `_LIB`: how a job is ordered, woken and moved when it is due.
use toro.Prelude.{
  ℕ, zero, suc, ◌+◌, ◌-◌, ◌*◌, ◌%◌, List, [], ◌∷◌, none, some, ltb, leb, if◌then◌else◌, is_some,
}
use toro.Redis.{Redis}
use toro.Job.{JobState}
use toro.Store.{Store, hget, hset}

abbrev pub priority_offset : ℕ
priority_offset = 1048576

abbrev pub seq_mod : ℕ
seq_mod = 4294967296

abbrev pub promote_batch : ℕ
promote_batch = 1000

-- The score of a job that draws the given number from the counter. A priority lies between 0 and
-- `priority_offset` (`clamp_priority`), so that the subtraction is exact.
unfoldable pub priority_score : ℕ → ℕ → ℕ
priority_score priority seq = (priority_offset - priority) * seq_mod + seq % seq_mod

-- ZRANGEBYSCORE key -inf now LIMIT 0 n, of a listing.
unfoldable pub due_ids : ℕ → ℕ → List (ℕ × ℕ) → List ℕ
due_ids now zero l = []
due_ids now (suc n) [] = []
due_ids now (suc n) ((id, s) ∷ l) = if leb s now then id ∷ due_ids now n l else []

module _ {R : Redis} where
  -- `priorityScore(priority, pcKey)`, with the member it scores: INCR, then ZADD `prioritized`.
  unfoldable pub queue_up : Store R → ℕ → ℕ → Store R
  unfolding priority_score
  queue_up s id priority = record s {
    pc = suc s.pc;
    prioritized = R.zadd s.prioritized (priority_score priority (suc s.pc)) id;
  }

  -- ZADD marker 0 "0"
  unfoldable pub wake : Store R → Store R
  wake s = record s { marker = R.zadd s.marker 0 0 }

  -- The member "1" of the marker is written as 1; LT keeps the earlier of two times.
  unfoldable pub wake_at : Store R → ℕ → Store R
  wake_at s due =
      let marked = record s { marker = R.zadd s.marker due 1 } in
      elim (R.zscore s.marker 1) [ none ↦ marked | some t ↦ if ltb due t then marked else s ]

  unfoldable pub enqueue : Store R → ℕ → ℕ → ℕ → Store R
  unfolding queue_up wake
  enqueue s id priority now =
      wake (queue_up (hset s id (λ j. record j { enqueued_on = some now })) id priority)

  -- A new job with its key in hand.
  unfoldable pub park : Store R → ℕ → ℕ → ℕ → ℕ → Store R × JobState
  unfolding enqueue wake_at
  park s id priority delay now =
      if ltb 0 delay
      then (let s1 = hset s id (λ j. record j { state = some JobState.delayed }) in
          (
            wake_at (record s1 { delayed = R.zadd s1.delayed (now + delay) id }) (now + delay),
            JobState.delayed,
          ))
      else (let s1 = hset s id (λ j. record j { state = some JobState.wait }) in
          (enqueue s1 id priority now, JobState.wait))

  -- The body of the loop of `promoteDue`.
  unfoldable pub promote_one : Store R → ℕ → ℕ → Store R
  unfolding queue_up
  promote_one s id now =
      let s1 = record s { delayed = R.zrem s.delayed id } in
      if is_some (s1.jobs id)
      then queue_up
          (hset s1 id
            (λ j. record j { state = some JobState.wait; delay = 0; enqueued_on = some now }))
          id (hget s1 id (λ j. j.priority))
      else s1

  unfoldable pub promote_each : Store R → ℕ → List ℕ → Store R
  promote_each s now [] = s
  promote_each s now (id ∷ ids) = promote_each (promote_one s id now) now ids

  unfoldable pub promote_due : Store R → ℕ → Store R
  unfolding promote_each
  promote_due s now = promote_each s now (due_ids now promote_batch (R.zrange s.delayed))
