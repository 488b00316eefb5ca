-- ===== src/Scripts/Keyed.antt =====
-- toro/scripts.py, `_LIB`: concurrency keys (`takeKey`, `releaseKey`, `unkey`).
use toro.Prelude.{
  ℕ, suc, ◌+◌, List, [], ◌∷◌, Bool, true, false, Option, none, some, ltb, ◌==◌, if◌then◌else◌,
  is_some, update, get_or_else,
}
use toro.Redis.{Redis}
use toro.Job.{JobState, is_state}
use toro.Store.{Store, hget, hset, state_of}
use toro.Scripts.Order.{priority_score, wake, wake_at}

module _ {R : Redis} where
  -- The key is taken: the job waits behind its holder.
  unfoldable pub hold : Store R → ℕ → ℕ → ℕ → ℕ → Store R
  unfolding priority_score
  hold s id key priority now =
      let s1 = hset s id (λ j. record j { state = some JobState.held }) in
      record s1 {
        pc = suc s1.pc;
        held_for =
            update s1.held_for key
              (R.zadd (s1.held_for key) (priority_score priority (suc s1.pc)) id);
        held = R.zadd s1.held now id;
      }

  -- SET ck:<key> id NX, on what the key holds now.
  unfoldable pub take_free : Option ℕ → Store R → ℕ → ℕ → ℕ → ℕ → Store R × Bool
  unfolding hold
  take_free none s id key priority now = (record s { ck = update s.ck key (some id) }, true)
  take_free (some holder) s id key priority now = (hold s id key priority now, false)

  unfoldable pub take_key : Store R → ℕ → Option ℕ → ℕ → ℕ → Store R × Bool
  unfolding take_free
  take_key s id none priority now = (s, true)
  take_key s id (some key) priority now =
      take_free (s.ck key) (hset s id (λ j. record j { ckey = some key })) id key priority now

  -- The next job behind a key takes it: back to `delayed` if its delay still runs, else queued.
  unfoldable pub hand_key : Store R → ℕ → ℕ → ℕ → ℕ → Store R
  unfolding wake_at wake
  hand_key s key id score now =
      let due = get_or_else (hget s id (λ j. j.timestamp)) now + hget s id (λ j. j.delay) in
      let s1 = record s { ck = update s.ck key (some id) } in
      if ltb now due
      then (let s2 = hset s1 id (λ j. record j { state = some JobState.delayed }) in
          wake_at (record s2 { delayed = R.zadd s2.delayed due id }) due)
      else (let s2 =
            hset s1 id (λ j. record j { state = some JobState.wait; enqueued_on = some now }) in
          wake (record s2 { prioritized = R.zadd s2.prioritized score id }))

  -- ZPOPMIN held:<key>, and ZREM held.
  unfoldable pub pop_held : Store R → ℕ → ℕ → Store R
  pop_held s key id = record s {
    held_for = update s.held_for key (R.zrem (s.held_for key) id);
    held = R.zrem s.held id;
  }

  -- The `while` loop of `releaseKey`, over the jobs behind the key in their order: an id whose
  -- hash is gone is skipped, and with none left the key is given up.
  unfoldable pub next_holder : Store R → ℕ → ℕ → List (ℕ × ℕ) → Store R
  unfolding hand_key pop_held
  next_holder s key now [] = record s { ck = update s.ck key none }
  next_holder s key now ((id, score) ∷ rest) =
      let s1 = pop_held s key id in
      let skipped = next_holder s1 key now rest in
      if is_some (state_of s1 id) then hand_key s1 key id score now else skipped

  unfoldable pub release_held_key : Option ℕ → Store R → ℕ → ℕ → Store R
  unfolding next_holder
  release_held_key none s id now = s
  release_held_key (some key) s id now = elim (s.ck key) [
    | none ↦ s
    | some holder ↦ if holder == id then next_holder s key now (R.zrange (s.held_for key)) else s
  ]

  unfoldable pub release_key : Store R → ℕ → ℕ → Store R
  unfolding release_held_key
  release_key s id now = release_held_key (hget s id (λ j. j.ckey)) s id now

  unfoldable pub unkey : Store R → ℕ → Option JobState → Option ℕ → ℕ → Store R
  unfolding release_key
  unkey s id state none now = s
  unkey s id state (some key) now =
      if is_state JobState.held state
      then record s { held_for = update s.held_for key (R.zrem (s.held_for key) id) }
      else release_key s id now
