-- ===== src/Scripts/Claim.antt =====
-- toro/scripts.py, `_LIB`: the token bucket (`tryRateLimit`), the claim (`acquireNext`) and the
-- limits it reads (`requireCap`, `ownLimits`); and the scripts `MOVE_TO_ACTIVE`, `EXTEND_LOCK`.
-- The bucket's doubles are exact fractions here.
use toro.Prelude.{
  ℕ, zero, suc, ◌+◌, ◌-◌, ◌*◌, ◌/◌, List, [], ◌∷◌, Bool, true, false, not, ◌&&◌, ◌||◌, Option, none,
  some, ltb, leb, ◌==◌, if◌then◌else◌, is_some, update, get_or_else, eq_option, remove_all, length,
}
use toro.Redis.{Redis}
use toro.Job.{Job, Meta, blank}
use toro.Store.{Store, Bucket, OwnLimits, hget}
use toro.Scripts.Order.{promote_due, wake}
use toro.Scripts.Run.{lock_and_load}

-- The bucket as it is read: full, where there is none.
unfoldable pub read_bucket : Option Bucket → ℕ → ℕ → Bucket
read_bucket none max_jobs now = record { num = max_jobs; den = 1; ts = now }
read_bucket (some b) max_jobs now = b

-- `tokens + (now - ts) * maxJobs / durationMs` over the denominator `den * duration`, in two parts:
-- what it is, and what is to be taken off. A clock behind `ts` takes tokens away.
unfoldable pub gained : Bucket → ℕ → ℕ → ℕ → ℕ
gained b max_jobs duration now = b.num * duration + (now - b.ts) * max_jobs * b.den

unfoldable pub lost : Bucket → ℕ → ℕ → ℕ
lost b max_jobs now = (b.ts - now) * max_jobs * b.den

unfoldable pub refilled : Bucket → ℕ → ℕ → ℕ → ℕ
unfolding gained lost
refilled b max_jobs duration now =
    let full = max_jobs * (b.den * duration) in
    let have = gained b max_jobs duration now - lost b max_jobs now in
    if leb full have then full else have

-- ceil(a / b)
abbrev pub ceil_div : ℕ → ℕ → ℕ
ceil_div a b = (a + (b - 1)) / b

-- The bucket that is left and 0 where a token was taken; else the bucket as it was and the
-- milliseconds until one token frees up.
unfoldable pub take_token : Option Bucket → ℕ → ℕ → ℕ → Option Bucket × ℕ
unfolding read_bucket refilled
take_token cur max_jobs duration now =
    let b = read_bucket cur max_jobs now in
    let one = b.den * duration in
    let have = refilled b max_jobs duration now in
    if leb one have then (some (record { num = have - one; den = one; ts = now }), 0) else (
      cur,
      ceil_div ((one + lost b max_jobs now) - gained b max_jobs duration now) (max_jobs * b.den),
    )

-- The limits of a claim: 0 for none.
pub record Limits : Type 0 where
  pub cap : ℕ
  pub rl_max : ℕ
  pub rl_duration : ℕ

-- What a claim answers.
pub data Claim : Type 0 where
  nothing : Claim
  rate_limited : ℕ → Claim
  due_at : ℕ → Claim
  claimed : Job → ℕ → Claim

-- A missing cap argument raises (`none`).
unfoldable pub require_cap : Option ℕ → Option ℕ
require_cap raw = raw

-- `own[1]`: the queue's own cap replaces the worker's. A NaN passes the test, and caps nothing.
unfoldable pub own_cap : Option Meta → ℕ → Option ℕ
own_cap none cap = some cap
own_cap (some Meta.not_a_number) cap = none
own_cap (some Meta.negative) cap = none
own_cap (some Meta.nan) cap = some 0
own_cap (some (Meta.whole n)) cap = some n

-- `rlDuration`, checked only where there is a rate.
unfoldable pub own_duration : Option Meta → ℕ → Option (ℕ × ℕ)
own_duration (some (Meta.whole (suc d))) rl_max = some (rl_max, suc d)
own_duration (some (Meta.whole zero)) zero = some (0, 0)
own_duration (some Meta.negative) zero = some (0, 0)
own_duration (some Meta.not_a_number) zero = some (0, 0)
own_duration none zero = some (0, 0)
own_duration (some Meta.nan) rl_max = some (rl_max, 0)
own_duration _ rl_max = none

unfoldable pub own_rate : Option Meta → Option Meta → ℕ → ℕ → Option (ℕ × ℕ)
unfolding own_duration
own_rate none duration rl_max rl_duration = some (rl_max, rl_duration)
own_rate (some Meta.not_a_number) duration rl_max rl_duration = none
own_rate (some Meta.negative) duration rl_max rl_duration = none
own_rate (some Meta.nan) duration rl_max rl_duration = some (0, 0)
own_rate (some (Meta.whole n)) duration rl_max rl_duration = own_duration duration n

unfoldable pub own_limits : OwnLimits → Limits → Option Limits
unfolding own_cap own_rate
own_limits own l = elim (own_cap own.global_concurrency l.cap) [
  | none ↦ none
  | some cap ↦ elim (own_rate own.rl_max own.rl_duration l.rl_max l.rl_duration) [
    | none ↦ none
    | some (m, d) ↦ some (record { cap = cap; rl_max = m; rl_duration = d })
  ]
]

-- EXTEND_LOCK answers 0, `LOCK_JOB_GONE`, 1 or `LOCK_CANCEL_REQUESTED`.
pub data Renewal : Type 0 where
  lost_lock job_gone renewed cancel_requested : Renewal

abbrev pub is_empty {ℓ} : {A : Type ℓ} → List A → Bool
is_empty [] = true
is_empty (_ ∷ _) = false

unfoldable pub next_due : List (ℕ × ℕ) → Claim
next_due [] = nothing
next_due ((_, due) ∷ _) = due_at due

module _ {R : Redis} where
  -- 0: a token was taken, or there is no limit.
  unfoldable pub try_rate_limit : Store R → Limits → ℕ → Store R × ℕ
  unfolding take_token
  try_rate_limit s l now =
      if l.rl_max == 0
      then (s, 0)
      else (let (b, retry) = take_token s.limiter l.rl_max l.rl_duration now in
          (record s { limiter = b }, retry))

  -- Nothing waits: the counter starts over if nothing is held either.
  unfoldable pub claim_none : Store R → Store R × Claim
  unfolding next_due
  claim_none s =
      let s1 = if is_empty (R.zrange s.held) then record s { pc = 0 } else s in
      (s1, next_due (R.zrange s1.delayed))

  -- The job in hand goes to `active`, and another idle worker is woken unless this was the last
  -- slot.
  unfoldable pub activate : Store R → ℕ → ℕ → ℕ → ℕ → Store R
  unfolding wake lock_and_load
  activate s id token slots now =
      let s1 = record s { active = id ∷ s.active } in
      let s2 =
        if not (is_empty (R.zrange s1.prioritized)) && (slots == 0 || ltb (length s1.active) slots)
        then wake s1
        else s1 in
      lock_and_load s2 id token now

  -- After ZPOPMIN: a token is spent only with a job in hand, and a rate limit puts it back.
  unfoldable pub claim_popped : Store R → ℕ → ℕ → ℕ → Limits → ℕ → Store R × Claim
  unfolding activate try_rate_limit
  claim_popped s id score token l now =
      let (s1, retry) = try_rate_limit s l now in
      if ltb 0 retry
      then (record s1 { prioritized = R.zadd s1.prioritized score id }, rate_limited retry)
      else (let s2 = activate s1 id token l.cap now in
          (s2, claimed (get_or_else (s2.jobs id) blank) id))

  unfoldable pub claim_first : List (ℕ × ℕ) → Store R → ℕ → Limits → ℕ → Store R × Claim
  unfolding claim_none claim_popped
  claim_first [] s token l now = claim_none s
  claim_first ((id, score) ∷ _) s token l now =
      claim_popped (record s { prioritized = R.zrem s.prioritized id }) id score token l now

  -- The cap's test, before the pop.
  unfoldable pub is_capped : Store R → ℕ → Bool
  is_capped s slots = ltb 0 slots && leb slots (length s.active)

  unfoldable pub acquire_next : Store R → ℕ → Limits → ℕ → Store R × Claim
  unfolding promote_due is_capped claim_first
  acquire_next s token l now =
      let s1 = promote_due s now in
      if s1.paused || is_capped s1 l.cap
      then (s1, nothing)
      else claim_first (R.zrange s1.prioritized) s1 token l now

  -- `none`: the script raised before its first write.
  unfoldable pub move_to_active : Store R → ℕ → Option ℕ → ℕ → ℕ → ℕ → Option (Store R × Claim)
  unfolding require_cap own_limits acquire_next
  move_to_active s token raw_cap rl_max rl_duration now = elim (require_cap raw_cap) [
    | none ↦ none
    | some cap ↦
        elim (own_limits s.limits
          (record { cap = cap; rl_max = rl_max; rl_duration = rl_duration })) [
            | none ↦ none
            | some l ↦ some (acquire_next s token l now)
          ]
  ]

  -- Renewed only where the lock is still this worker's.
  unfoldable pub extend_lock : Store R → ℕ → ℕ → Store R × Renewal
  extend_lock s id token =
      if eq_option (s.lock id) (some token)
      then (
        record s { lock = update s.lock id (some token); stalled = remove_all id s.stalled },
        if hget s id (λ j. j.cancel) then cancel_requested else renewed,
      )
      else (s, if is_some (s.jobs id) then lost_lock else job_gone)
