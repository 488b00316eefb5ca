-- ===== src/Placement/Claims.antt =====
-- The placement of jobs through a claim: `promoteDue`, `acquireNext` and `MOVE_TO_ACTIVE` of
-- toro/scripts.py.
use toro.Prelude.{
  ℕ, zero, suc, ◌≡◌, ◌≢◌, refl, ◌∙◌, subst, Bool, true, ◌||◌, inl, inr, Option, none, some, List,
  [], ◌∷◌, ◌==◌, Bool-cases, Option-cases, arith, get_or_else, is_some, if◌then◌else◌, leb, ltb,
  count-cons,
}
use toro.Redis.{Redis, IsListing, lookup}
use toro.Job.{JobState, blank}
use toro.Store.{Store, state_of}
use toro.Scripts.Order.{promote_one, promote_each, promote_due, promote_batch, due_ids}
use toro.Scripts.Run.{lock_and_load}
use toro.Scripts.Claim.{
  Limits, Claim, try_rate_limit, claim_none, activate, claim_popped, claim_first, is_capped,
  acquire_next, move_to_active, is_empty, require_cap, own_limits,
}
use toro.Placement.{InHand, IsPlaced, Returned}
use toro.Placement.Hands.{from_wait}
use toro.Placement.Keys.{zscore_first}
use toro.Placement.Trim.{All, All-map, All-zip, Listed, Listed-head, Listed-tail}

-- The ids of a list differ.
abbrev Distinct : List ℕ → Type 0
Distinct [] = Unit {0}
Distinct (x ∷ xs) = All (λ y. x ≢ y) xs × Distinct xs

due_ids-Listed : (now n : ℕ) (l : List (ℕ × ℕ)) → All (Listed l) (due_ids now n l)
unfolding due_ids
due_ids-Listed now zero l = tt
due_ids-Listed now (suc n) [] = tt
due_ids-Listed now (suc n) ((id, s) ∷ l) = elim (Bool-cases (leb s now)) [
  | inl due ↦ rw due (
    Listed-head id s l,
    All-map (Listed l) (Listed ((id, s) ∷ l)) (due_ids now n l) (Listed-tail id s l)
        (due_ids-Listed now n l),
  )
  | inr later ↦ rw later tt
]

due_ids-Distinct : (now n : ℕ) (l : List (ℕ × ℕ)) → IsListing l → Distinct (due_ids now n l)
unfolding due_ids
due_ids-Distinct now zero l h = tt
due_ids-Distinct now (suc n) [] h = tt
due_ids-Distinct now (suc n) ((id, s) ∷ l) h = elim (Bool-cases (leb s now)) [
  | inl due ↦ rw due (
    All-map (Listed l) (λ y. id ≢ y) (due_ids now n l) (λ y i e. unlisted y i e)
        (due_ids-Listed now n l),
    due_ids-Distinct now n l h.2,
  )
  | inr later ↦ rw later tt
]
  where
    unlisted : (y : ℕ) → Listed l y → id ≢ y
    unlisted y i e = cc (subst (λ x. lookup x l ≡ none) e h.1, i)

module _ {R : Redis} where
  promote_one-IsPlaced :
      (s : Store R) (id now : ℕ)
      → state_of s id ≡ some JobState.delayed
      → IsPlaced s
      → IsPlaced (promote_one s id now)
  unfolding promote_one
  promote_one-IsPlaced s id now e h = elim (Bool-cases (is_some (s.jobs id))) [
    | inr gone ↦ absurd (ground arith)
    | inl here ↦
        rw (here, promote_one)
          (record {
            placed = λ j.
                simp (R.zscore-zadd, R.zscore-zrem)
                  (elim (Bool-cases (id == j)) [
                    | inl i ↦ ground (arith, h.placed id)
                    | inr i ↦ ground (arith, h.placed j)
                  ]);
            keyed = λ j k. elim (Bool-cases (id == j)) [
              | inl i ↦ ground (arith, h.keyed id k)
              | inr i ↦ ground (arith, h.keyed j k)
            ];
          })
  ]

  promote_one-state :
      (s : Store R) (id now j : ℕ) → id ≢ j → state_of (promote_one s id now) j ≡ state_of s j
  unfolding promote_one
  promote_one-state s id now j n = ground arith

  promote_each-IsPlaced :
      (ids : List ℕ) (s : Store R) (now : ℕ)
      → Distinct ids
      → All (λ x. state_of s x ≡ some JobState.delayed) ids
      → IsPlaced s
      → IsPlaced (promote_each s now ids)
  unfolding promote_each
  promote_each-IsPlaced [] s now d a h = h
  promote_each-IsPlaced (id ∷ ids) s now d a h =
      promote_each-IsPlaced ids (promote_one s id now) now d.1
        (All-zip (λ x. id ≢ x) (λ x. state_of s x ≡ some JobState.delayed)
          (λ x. state_of (promote_one s id now) x ≡ some JobState.delayed) ids
          (λ x n e. promote_one-state s id now x n ∙ e) d.0 a.1)
        (promote_one-IsPlaced s id now a.0 h)

  Listed-delayed :
      (s : Store R) (id : ℕ)
      → IsPlaced s
      → Listed (R.zrange s.delayed) id
      → state_of s id ≡ some JobState.delayed
  Listed-delayed s id h l = ground (arith, h.placed id, R.lookup-zrange s.delayed id)

  pub promote_due-IsPlaced : (s : Store R) (now : ℕ) → IsPlaced s → IsPlaced (promote_due s now)
  unfolding promote_due
  promote_due-IsPlaced s now h =
      promote_each-IsPlaced (due_ids now promote_batch (R.zrange s.delayed)) s now
        (due_ids-Distinct now promote_batch (R.zrange s.delayed) (R.zrange-IsListing s.delayed))
        (All-map (Listed (R.zrange s.delayed)) (λ x. state_of s x ≡ some JobState.delayed)
          (due_ids now promote_batch (R.zrange s.delayed)) (λ x. Listed-delayed s x h)
          (due_ids-Listed now promote_batch (R.zrange s.delayed)))
        h

  claim_none-IsPlaced : (s : Store R) → IsPlaced s → IsPlaced (claim_none s).0
  unfolding claim_none
  claim_none-IsPlaced s h = elim (Bool-cases (is_empty (R.zrange s.held))) [
    | inl e ↦ rw e (record { placed = h.placed; keyed = h.keyed })
    | inr e ↦ rw e h
  ]

  -- The job in hand is active, locked and stamped.
  pub activate-IsPlaced :
      {was : Option JobState} (s : Store R) (id token slots now : ℕ)
      → InHand true was s id
      → IsPlaced (activate s id token slots now)
  unfolding activate lock_and_load
  activate-IsPlaced s id token slots now h = record {
    placed = λ j. elim (Bool-cases (id == j)) [
      | inl i ↦ ground (arith, h.nowhere, count-cons id j s.active)
      | inr i ↦ ground (arith, h.placed j, count-cons id j s.active)
    ];
    keyed = λ j k. elim (Bool-cases (id == j)) [
      | inl i ↦ ground (arith, h.key k)
      | inr i ↦ ground (arith, h.keyed j k)
    ];
  }

  -- The limiter stands apart from the places.
  limited-InHand :
      {b : Bool} {was : Option JobState} (s : Store R) (id : ℕ) (l : Limits) (now : ℕ)
      → InHand b was s id
      → InHand b was (try_rate_limit s l now).0 id
  unfolding try_rate_limit
  limited-InHand s id l now h = elim (Bool-cases (l.rl_max == 0)) [
    | inl free ↦ rw free h
    | inr limited ↦ rw limited (record {
      state = h.state;
      placed = h.placed;
      keyed = h.keyed;
      nowhere = h.nowhere;
      key = h.key;
    })
  ]

  -- A waiting job that was popped is put back.
  put_back-IsPlaced :
      (s : Store R) (id score : ℕ)
      → InHand true (some JobState.wait) s id
      → IsPlaced (record s { prioritized = R.zadd s.prioritized score id })
  put_back-IsPlaced s id score h = record {
    placed = λ j. simp R.zscore-zadd (elim (Bool-cases (id == j)) [
      | inl i ↦ ground (arith, h.nowhere, h.state)
      | inr i ↦ ground (arith, h.placed j)
    ]);
    keyed = λ j k. elim (Bool-cases (id == j)) [
      | inl i ↦ ground (arith, h.key k, h.state)
      | inr i ↦ ground (arith, h.keyed j k)
    ];
  }

  popped-IsPlaced :
      (id score token : ℕ) (l : Limits) (now : ℕ) (r : Store R × ℕ)
      → InHand true (some JobState.wait) r.0 id
      → (let answer : Store R × Claim =
            if ltb 0 r.1
            then (
              record r.0 { prioritized = R.zadd r.0.prioritized score id },
              Claim.rate_limited r.1,
            )
            else (let s2 = activate r.0 id token l.cap now in
                (s2, Claim.claimed (get_or_else (s2.jobs id) blank) id)) in
          IsPlaced answer.0)
  popped-IsPlaced id score token l now (s, retry) h = elim (Bool-cases (ltb 0 retry)) [
    | inl over ↦ rw over (put_back-IsPlaced s id score h)
    | inr under ↦ rw under (activate-IsPlaced s id token l.cap now h)
  ]

  -- The first of the queue, popped, is claimed or put back.
  claim_popped-IsPlaced :
      (s : Store R) (id score token : ℕ) (l : Limits) (now : ℕ)
      → InHand true (some JobState.wait) s id
      → IsPlaced (claim_popped s id score token l now).0
  unfolding claim_popped
  claim_popped-IsPlaced s id score token l now h =
      popped-IsPlaced id score token l now (try_rate_limit s l now) (limited-InHand s id l now h)

  claim_first-IsPlaced :
      (q : List (ℕ × ℕ)) (s : Store R) (token : ℕ) (l : Limits) (now : ℕ)
      → R.zrange s.prioritized ≡ q
      → IsPlaced s
      → IsPlaced (claim_first q s token l now).0
  unfolding claim_first
  claim_first-IsPlaced [] s token l now e h = claim_none-IsPlaced s h
  claim_first-IsPlaced ((id, score) ∷ rest) s token l now e h =
      let waits = zscore_first R s.prioritized id score rest e in
      claim_popped-IsPlaced _ id score token l now (from_wait s id h (ground (arith, h.placed id)))

  pub acquire_next-IsPlaced :
      (s : Store R) (token : ℕ) (l : Limits) (now : ℕ)
      → IsPlaced s
      → IsPlaced (acquire_next s token l now).0
  unfolding acquire_next
  acquire_next-IsPlaced s token l now h =
      let t = promote_due s now in
      let p = promote_due-IsPlaced s now h in
      elim (Bool-cases (t.paused || is_capped t l.cap)) [
        | inl stop ↦ rw (stop, acquire_next) p
        | inr go ↦
            rw (go, acquire_next)
              (claim_first-IsPlaced (R.zrange t.prioritized) t token l now refl p)
      ]

  -- From a store with every job in place, MOVE_TO_ACTIVE leaves every job in place again: each job is in the one collection that its state
  -- names, and each key with its holder.
  -- It raises, and changes nothing, where the limits are refused.
  pub move_to_active-IsPlaced :
      (s : Store R) (token : ℕ) (raw_cap : Option ℕ) (rl_max rl_duration now : ℕ)
      → IsPlaced s
      → Returned (move_to_active s token raw_cap rl_max rl_duration now)
  unfolding move_to_active require_cap
  move_to_active-IsPlaced s token none rl_max rl_duration now h = tt
  move_to_active-IsPlaced s token (some cap) rl_max rl_duration now h =
      elim (Option-cases
        (own_limits s.limits (record { cap = cap; rl_max = rl_max; rl_duration = rl_duration }))) [
          | inl bad ↦ rw (bad, Returned, move_to_active) tt
          | inr (l, good) ↦
              rw (good, Returned, move_to_active) (acquire_next-IsPlaced s token l now h)
        ]
