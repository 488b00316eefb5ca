-- ===== src/Placement/Keys.antt =====
-- The placement of jobs where concurrency keys are taken and handed on: `takeKey` and `releaseKey` of
-- toro/scripts.py.
use toro.Prelude.{
  ℕ, suc, ◌+◌, ◌≡◌, ◌≢◌, refl, sym, ap, ◌∙◌, subst, Bool, true, false, inl, inr, Option, none, some,
  List, [], ◌∷◌, ◌==◌, Bool-cases, Option-cases, arith, get_or_else, is_some, ==_refl, update, ltb,
}
use toro.Redis.{Redis, lookup}
use toro.Job.{Job, JobState, blank, is_state}
use toro.Store.{Store, hset, hget, state_of}
use toro.Scripts.Order.{wake, priority_score}
use toro.Scripts.Keyed.{
  take_key, take_free, hold, hand_key, pop_held, next_holder, release_key, release_held_key,
}
use toro.Placement.{KeyedAt, KeyInHand, InHand, IsPlaced, ckey_of, runs}
use toro.Placement.Moves.{wake_at-InHand}

-- The first entry of a listing has its score.
pub zscore_first :
    (R : Redis) (z : R.ZSet) (id score : ℕ) (rest : List (ℕ × ℕ))
    → R.zrange z ≡ (id, score) ∷ rest
    → R.zscore z id ≡ some score
unfolding lookup
zscore_first R z id score rest e = sym (R.lookup-zrange z id) ∙ rw e (rw (==_refl id))

module _ {R : Redis} where
  hold-IsPlaced :
      {was : Option JobState} (s : Store R) (id key priority now : ℕ)
      → ckey_of s id ≡ some key
      → InHand false was s id
      → IsPlaced (hold s id key priority now)
  unfolding hold
  hold-IsPlaced s id key priority now e h = record {
    placed = λ j. simp R.zscore-zadd (elim (Bool-cases (id == j)) [
      | inl e ↦ ground (arith, h.nowhere)
      | inr e ↦ ground (arith, h.placed j)
    ]);
    keyed = λ j k. elim (Bool-cases (id == j)) [
      | inl i ↦
          ground (
            arith,
            h.key k,
            R.zscore-zadd (s.held_for key) (priority_score priority (suc s.pc)) id j,
          )
      | inr i ↦ ground (
        arith,
        h.keyed j k,
        R.zscore-zadd (s.held_for key) (priority_score priority (suc s.pc)) id j,
      )
    ];
  }

  set_ckey-InHand :
      {was : Option JobState} (s : Store R) (id key : ℕ)
      → InHand false was s id
      → InHand false was (hset s id (λ j. record j { ckey = some key })) id
  set_ckey-InHand s id key h = record {
    state = ground (arith, h.state);
    placed = λ j n. ground (arith, h.placed j n);
    keyed = λ j k n. ground (arith, h.keyed j k n);
    nowhere = h.nowhere;
    key = λ k. ground (arith, h.key k);
  }

  -- A job that asked for its key has it, or is held in its place.
  abbrev pub Taken : Option JobState → ℕ → Store R × Bool → Type 0
  Taken was id (t, true) = InHand true was t id
  Taken was id (t, false) = IsPlaced t

  take_free-Taken :
      {was : Option JobState} (holder : Option ℕ) (s : Store R) (id key priority now : ℕ)
      → s.ck key ≡ holder
      → ckey_of s id ≡ some key
      → InHand false was s id
      → Taken was id (take_free holder s id key priority now)
  unfolding take_free
  take_free-Taken none s id key priority now free e h = record {
    state = h.state;
    placed = λ j n. h.placed j n;
    keyed = λ j k n. ground (arith, h.keyed j k n);
    nowhere = h.nowhere;
    key = λ k. ground (arith, h.key k);
  }
  take_free-Taken (some holder) s id key priority now taken e h =
      hold-IsPlaced s id key priority now e h

  pub take_key-Taken :
      {was : Option JobState} (s : Store R) (id : ℕ) (key : Option ℕ) (priority now : ℕ)
      → (key ≡ none → ckey_of s id ≡ none)
      → InHand false was s id
      → Taken was id (take_key s id key priority now)
  unfolding take_key
  take_key-Taken s id none priority now e h = record {
    state = h.state;
    placed = h.placed;
    keyed = h.keyed;
    nowhere = h.nowhere;
    key = λ k. ground (arith, h.key k, e refl);
  }
  take_key-Taken s id (some key) priority now e h =
      take_free-Taken (s.ck key) (hset s id (λ j. record j { ckey = some key })) id key priority now
        refl (ground arith) (set_ckey-InHand s id key h)

  held-apart :
      (s : Store R) (id key nid score : ℕ)
      → is_some (R.zscore (s.held_for key) id) ≡ false
      → R.zscore (s.held_for key) nid ≡ some score
      → id ≢ nid
  held-apart s id key nid score out waits e =
      cc (subst (λ n. is_some (R.zscore (s.held_for key) n) ≡ false) e out, waits)

  -- A job in the queue behind a key is held, and the key is its own.
  pub held_job :
      (s : Store R) (key nid score : ℕ)
      → KeyedAt s nid key
      → R.zscore (s.held_for key) nid ≡ some score
      → (state_of s nid ≡ some JobState.held) × (ckey_of s nid ≡ some key)
  held_job s key nid score at waits = ground arith

  -- The next job behind a key, popped, takes it.
  module _ {was : Option JobState} (s : Store R) (id key nid score : ℕ) (h : InHand true was s id)
      (mine : ckey_of s id ≡ some key) (apart : id ≢ nid)
      (is_held : state_of s nid ≡ some JobState.held) (behind : ckey_of s nid ≡ some key) where
    handed : (Job → Job) → Store R
    unfolding pop_held
    handed f = hset (record (pop_held s key nid) { ck = update s.ck key (some nid) }) nid f

    module _ (f : Job → Job) (fk : (j : Job) → (f j).ckey ≡ j.ckey) where
      handed-keyed :
          ((j : Job) → runs (f j).state ≡ true)
          → ((j : Job) → is_state JobState.held (f j).state ≡ false)
          → (j k : ℕ) → id ≢ j
          → KeyedAt (handed f) j k
      unfolding handed pop_held
      handed-keyed fr fh j k n = elim (Bool-cases (nid == j)) [
        | inl e ↦ ground (
          arith,
          h.keyed j k n,
          R.zscore-zrem (s.held_for key) nid j,
          fk (get_or_else (s.jobs nid) blank),
          fr (get_or_else (s.jobs nid) blank),
          fh (get_or_else (s.jobs nid) blank),
        )
        | inr e ↦ ground (arith, h.keyed j k n, h.key k, R.zscore-zrem (s.held_for key) nid j)
      ]

      handed-key : (k : ℕ) → KeyInHand false (handed f) id k
      unfolding handed pop_held
      handed-key k = ground (arith, h.key k, R.zscore-zrem (s.held_for key) nid id)

      handed_delayed :
          (due : ℕ)
          → ((j : Job) → (f j).state ≡ some JobState.delayed)
          → InHand false was (record (handed f) { delayed = R.zadd (handed f).delayed due nid }) id
      unfolding handed pop_held
      handed_delayed due fs = record {
        state = ground (arith, h.state);
        placed = λ j n.
            simp (R.zscore-zadd, R.zscore-zrem)
              (elim (Bool-cases (nid == j)) [
                | inl e ↦ ground (arith, h.placed j n, fs (get_or_else (s.jobs nid) blank))
                | inr e ↦ ground (arith, h.placed j n)
              ]);
        keyed = handed-keyed (λ j. ground (arith, fs j)) (λ j. ground (arith, fs j));
        nowhere = simp (R.zscore-zadd, R.zscore-zrem) (ground (arith, h.nowhere));
        key = handed-key;
      }

      handed_waiting :
          ((j : Job) → (f j).state ≡ some JobState.wait)
          → InHand false was
              (wake (record (handed f) { prioritized = R.zadd (handed f).prioritized score nid }))
              id
      unfolding handed pop_held wake
      handed_waiting fs = record {
        state = ground (arith, h.state);
        placed = λ j n.
            simp (R.zscore-zadd, R.zscore-zrem)
              (elim (Bool-cases (nid == j)) [
                | inl e ↦ ground (arith, h.placed j n, fs (get_or_else (s.jobs nid) blank))
                | inr e ↦ ground (arith, h.placed j n)
              ]);
        keyed = handed-keyed (λ j. ground (arith, fs j)) (λ j. ground (arith, fs j));
        nowhere = simp (R.zscore-zadd, R.zscore-zrem) (ground (arith, h.nowhere));
        key = handed-key;
      }

    hand_key-InHand :
        (now : ℕ) → InHand false was (hand_key (pop_held s key nid) key nid score now) id
    unfolding hand_key pop_held handed
    hand_key-InHand now =
        elim (Bool-cases
          (ltb now (get_or_else (hget s nid (λ j. j.timestamp)) now + hget s nid (λ j. j.delay)))) [
            | inl later ↦ rw later (
                wake_at-InHand _ _ id (
                  handed_delayed (λ j. record j { state = some JobState.delayed }) (λ j. refl) _
                    (λ j. refl)))
            | inr due ↦ rw due (
                handed_waiting
                  (λ j. record j { state = some JobState.wait; enqueued_on = some now }) (λ j. refl)
                  (λ j. refl))
          ]

  -- The key of a job in hand goes to the next job, or nobody holds it.
  next_holder-InHand :
      {was : Option JobState} (s : Store R) (id key now : ℕ) (l : List (ℕ × ℕ))
      → R.zrange (s.held_for key) ≡ l
      → ckey_of s id ≡ some key
      → InHand true was s id
      → InHand false was (next_holder s key now l) id
  unfolding next_holder
  next_holder-InHand s id key now [] e mine h = record {
    state = h.state;
    placed = h.placed;
    keyed = λ j k n. ground (arith, h.keyed j k n, h.key k, h.key key);
    nowhere = h.nowhere;
    key = λ k. ground (arith, h.key k);
  }
  next_holder-InHand s id key now ((nid, score) ∷ rest) e mine h =
      let waits = zscore_first R (s.held_for key) nid score rest e in
      let apart = held-apart s id key nid score (h.key key).0 waits in
      let job = held_job s key nid score (h.keyed nid key apart) waits in
      rw (ap is_some job.0) (hand_key-InHand s id key nid score h mine apart job.0 job.1 now)

  release_held_key-InHand :
      {b : Bool} {was : Option JobState} (s : Store R) (id now : ℕ) (key : Option ℕ)
      → ckey_of s id ≡ key
      → InHand b was s id
      → InHand false was (release_held_key key s id now) id
  unfolding release_held_key
  release_held_key-InHand s id now none e h = record {
    state = h.state;
    placed = h.placed;
    keyed = h.keyed;
    nowhere = h.nowhere;
    key = λ k. ground (arith, h.key k);
  }
  release_held_key-InHand s id now (some key) e h = elim (Option-cases (s.ck key)) [
    | inl free ↦
        rw (free, release_held_key)
          (record {
            state = h.state;
            placed = h.placed;
            keyed = h.keyed;
            nowhere = h.nowhere;
            key = λ k. ground (arith, h.key k);
          })
    | inr (holder, taken) ↦
        rw (taken, release_held_key)
          (elim (Bool-cases (holder == id)) [
            | inl own ↦ rw own (
                next_holder-InHand s id key now (R.zrange (s.held_for key)) refl e (record {
                  state = h.state;
                  placed = h.placed;
                  keyed = h.keyed;
                  nowhere = h.nowhere;
                  key = λ k. ground (arith, h.key k, h.key key);
                }))
            | inr other ↦ rw other (record {
              state = h.state;
              placed = h.placed;
              keyed = h.keyed;
              nowhere = h.nowhere;
              key = λ k. ground (arith, h.key k);
            })
          ])
  ]

  -- A job in hand that gives its key up is still in hand, and every other job in place.
  pub release_key-InHand :
      {b : Bool} {was : Option JobState} (s : Store R) (id now : ℕ)
      → InHand b was s id
      → InHand false was (release_key s id now) id
  unfolding release_key
  release_key-InHand s id now h = release_held_key-InHand s id now (ckey_of s id) refl h
