-- ===== src/Limiting.antt =====
-- The limits: the token bucket (`tryRateLimit`) and the queue's own limits (`ownLimits` of
-- toro/scripts.py).
use toro.Prelude.{
  ℕ, ◌-◌, ◌*◌, ◌≤◌, ◌<◌, ◌≡◌, refl, inl, inr, Option, none, some, leb, Bool-cases, arith,
}
use native.Mathlib.Nat.{mul-pos}
use toro.Store.{Bucket}
use toro.Job.{Meta}
use toro.Scripts.Claim.{
  read_bucket, gained, lost, refilled, take_token, Limits, own_cap, own_rate, own_limits,
}

-- A bucket with a real denominator, that holds at most `max_jobs` tokens.
abbrev pub IsBucket : ℕ → Option Bucket → Type 0
IsBucket max_jobs none = Unit {0}
IsBucket max_jobs (some b) = (0 < b.den) × (b.num ≤ max_jobs * b.den)

refilled-full : (b : Bucket) (m d now : ℕ) → refilled b m d now ≤ m * (b.den * d)
unfolding refilled
refilled-full b m d now =
    elim (Bool-cases (leb (m * (b.den * d)) (gained b m d now - lost b m now))) [
      | inl full ↦ rw (full, refilled) (omega arith)
      | inr below ↦ rw (below, refilled) (ground arith)
    ]

full-IsBucket : (m now : ℕ) → IsBucket m (some (read_bucket none m now))
unfolding read_bucket
full-IsBucket m now = (omega arith, omega arith)

read-IsBucket :
    (cur : Option Bucket) (m now : ℕ) → IsBucket m cur → IsBucket m (some (read_bucket cur m now))
unfolding read_bucket
read-IsBucket none m now h = (omega arith, omega arith)
read-IsBucket (some b) m now h = h

-- A bucket never holds more tokens than the limit's maximum, whether a token was given or not.
pub take_token-IsBucket :
    (cur : Option Bucket) (max_jobs duration now : ℕ)
    → 0 < duration
    → IsBucket max_jobs cur
    → IsBucket max_jobs (take_token cur max_jobs duration now).0
unfolding take_token
take_token-IsBucket cur max_jobs duration now d h =
    let b = read_bucket cur max_jobs now in
    let k = read-IsBucket cur max_jobs now h in
    let full = refilled-full b max_jobs duration now in
    elim (Bool-cases (leb (b.den * duration) (refilled b max_jobs duration now))) [
      | inr few ↦ rw (few, take_token) h
      | inl there ↦ rw (there, take_token) (mul-pos k.0 d, omega (arith, full))
    ]

-- Once a queue's own cap and rate were set, what a worker was started with plays no part: two
-- workers claim under the same limits, or both are refused.
pub own_limits-replace :
    (cap rate : Meta) (duration : Option Meta) (l m : Limits)
    → own_limits
        (record { global_concurrency = some cap; rl_max = some rate; rl_duration = duration })
        l
      ≡ own_limits
          (record { global_concurrency = some cap; rl_max = some rate; rl_duration = duration })
          m
unfolding own_limits own_cap own_rate
own_limits-replace (Meta.whole c) (Meta.whole r) duration l m = refl
own_limits-replace (Meta.whole c) Meta.nan duration l m = refl
own_limits-replace (Meta.whole c) Meta.negative duration l m = refl
own_limits-replace (Meta.whole c) Meta.not_a_number duration l m = refl
own_limits-replace Meta.nan (Meta.whole r) duration l m = refl
own_limits-replace Meta.nan Meta.nan duration l m = refl
own_limits-replace Meta.nan Meta.negative duration l m = refl
own_limits-replace Meta.nan Meta.not_a_number duration l m = refl
own_limits-replace Meta.negative rate duration l m = refl
own_limits-replace Meta.not_a_number rate duration l m = refl
