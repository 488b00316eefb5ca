-- ===== src/Client.antt =====
-- The pure functions of the client: `next_run` (toro/scheduler.py), `compute_backoff` and
-- `block_for` (toro/worker.py), `clamp_priority` (toro/flow.py). Milliseconds are whole numbers, and
-- the seconds of `block_for` are milliseconds here.
use toro.Prelude.{
  ℕ, zero, suc, ◌+◌, ◌-◌, ◌*◌, ◌/◌, ◌%◌, ◌^◌, min, max, ◌≤◌, ◌<◌, ◌≡◌, ◌⊎◌, Option, none, some,
  arith, some-inj,
}
use native.Mathlib.Nat.{
  lt-div-mul-add, mul-le-mul_left, zero-div, mul-le-mul_right, mul-mod_left, div-lt_iff_lt-mul,
}
use toro.Ordering.{priority_score-order}
use toro.Scripts.Order.{priority_offset, priority_score, seq_mod}

-- `now_ms // every + 1) * every`
unfoldable pub next_slot : ℕ → ℕ → ℕ
next_slot now every = (now / every + 1) * every

-- The next occurrence in ms, or `none` for the ValueError. An `every` of 0 and a cron of "" are as
-- if they were missing. `get_next` stands for croniter's next date of an expression, in microseconds
-- as a datetime has them: the clock's milliseconds are made one, and the date is cut to milliseconds.
unfoldable pub next_run : (ℕ → ℕ → ℕ) → ℕ → Option ℕ → Option ℕ → Option ℕ
unfolding next_slot
next_run get_next now (some (suc e)) cron = some (next_slot now (suc e))
next_run get_next now (some zero) (some c) = some (get_next c (now * 1000) / 1000)
next_run get_next now none (some c) = some (get_next c (now * 1000) / 1000)
next_run get_next now _ none = none

-- A fixed schedule's next slot is on the grid of its interval, after the clock, and no slot of the
-- grid lies between: a late tick goes to the next slot, and no backlog fires.
pub next_slot-least :
    (now every k : ℕ)
    → 0 < every
    → (now < next_slot now every)
      × (next_slot now every % every ≡ 0)
      × (now < k * every → next_slot now every ≤ k * every)
unfolding next_slot
next_slot-least now every k pos = (
  omega (arith, lt-div-mul-add {a = now} {b = every} pos),
  mul-mod_left (now / every + 1) every,
  λ before.
      mul-le-mul_right every
        (ground (arith, (div-lt_iff_lt-mul {k = every} {x = now} {y = k} pos).1 before)),
)

-- The cron library's dates lie after the given one, and on a whole second.
abbrev pub IsCron : (ℕ → ℕ → ℕ) → Type 0
IsCron get_next = (c t : ℕ) → (t < get_next c t) × (get_next c t % 1000000 ≡ 0)

-- Whatever the schedule, its next run lies strictly after the clock.
pub next_run-later :
    (get_next : ℕ → ℕ → ℕ) (now : ℕ) (every cron : Option ℕ) (run : ℕ)
    → IsCron get_next
    → next_run get_next now every cron ≡ some run
    → now < run
unfolding next_run next_slot
next_run-later get_next now (some (suc e)) cron run later eq =
    ground (arith, lt-div-mul-add {a = now} {b = suc e} (ground arith))
next_run-later get_next now (some zero) (some c) run later eq =
    omega (arith, later c (now * 1000), some-inj eq)
next_run-later get_next now none (some c) run later eq =
    omega (arith, later c (now * 1000), some-inj eq)
next_run-later get_next now (some zero) none run later eq = cc
next_run-later get_next now none none run later eq = cc

-- `clamp_priority`, of a priority that is at least 0 (`_whole` refuses any other).
unfoldable pub clamp_priority : ℕ → ℕ
clamp_priority p = max 0 (min p priority_offset)

-- Whatever two priorities the callers ask for, a clamped one that is higher comes first, and of two
-- that are the same the one that was queued first, as long as the counter has not wrapped.
pub clamp_priority-order :
    (p q m n : ℕ)
    → m < seq_mod
    → (clamp_priority p < clamp_priority q) ⊎ ((clamp_priority p ≡ clamp_priority q) × (n < m))
    → priority_score (clamp_priority q) n < priority_score (clamp_priority p) m
unfolding clamp_priority
clamp_priority-order p q m n wrap before =
    priority_score-order (clamp_priority p) (clamp_priority q) m n (omega arith) wrap before

-- The `backoff` option: nothing, fixed ms, or a dict. A missing `max` is 0, as is one of 0.
pub data Backoff : Type 0 where
  nothing : Backoff
  ms : ℕ → Backoff
  fixed : ℕ → ℕ → Backoff
  exponential : ℕ → ℕ → Backoff

-- `if cap: delay = min(delay, float(cap))`
unfoldable pub capped : ℕ → ℕ → ℕ
capped zero delay = delay
capped (suc c) delay = min delay (suc c)

-- The delay in ms before the next attempt, of an attempt that was counted (`attempts_made` is at
-- least 1), with `share` of `den` for `jitter * rand()`; without a jitter the share is 0.
unfoldable pub compute_backoff : Backoff → ℕ → ℕ → ℕ → ℕ
unfolding capped
compute_backoff Backoff.nothing attempts share den = 0
compute_backoff (Backoff.ms n) attempts share den = n
compute_backoff (Backoff.fixed delay cap) attempts share den =
    let d = capped cap delay in d + d * share / den
compute_backoff (Backoff.exponential delay cap) attempts share den =
    let d = capped cap (delay * 2 ^ min (attempts - 1) 62) in d + d * share / den

capped-le : (cap delay : ℕ) → 0 < cap → capped cap delay ≤ cap
unfolding capped
capped-le zero delay pos = absurd (omega arith)
capped-le (suc c) delay pos = omega arith

share-le : (d share den : ℕ) → 0 < den → share ≤ den → d * share / den ≤ d
share-le d share den pos h =
    let up : d * share ≤ d * den = mul-le-mul_left d h in
    let w = div-lt_iff_lt-mul {k = den} {x = d * share} {y = suc d} pos in
    ground (arith, w.1 (omega (arith, up)))

-- With a cap, an exponential delay is at most the cap, and at most twice that with its jitter.
pub compute_backoff-bounded :
    (delay cap attempts share den : ℕ)
    → 0 < cap
    → 0 < den
    → share ≤ den
    → (compute_backoff (Backoff.exponential delay cap) attempts 0 den ≤ cap)
      × (compute_backoff (Backoff.exponential delay cap) attempts share den ≤ 2 * cap)
unfolding compute_backoff
compute_backoff-bounded delay cap attempts share den cap_pos den_pos h =
    let d = capped cap (delay * 2 ^ min (attempts - 1) 62) in
    let top = capped-le cap (delay * 2 ^ min (attempts - 1) 62) cap_pos in
    (
      omega (arith, top, share-le d 0 den den_pos (omega arith), zero-div den),
      omega (arith, top, share-le d share den den_pos h),
    )

-- `block_for`: the poll, cut short at the next due time, never below 10 ms.
unfoldable pub block_for : ℕ → Option ℕ → ℕ → ℕ
block_for pop_timeout none now = pop_timeout
block_for pop_timeout (some due) now = min pop_timeout (max (due - now) 10)

-- An idle slot blocks no longer than its poll and no longer than until the next due time or 10 ms,
-- and never for 0, which would be for good.
pub block_for-bounded :
    (pop_timeout due now : ℕ)
    → 0 < pop_timeout
    → (block_for pop_timeout (some due) now ≤ pop_timeout)
      × (now + block_for pop_timeout (some due) now ≤ max due (now + 10))
      × (0 < block_for pop_timeout (some due) now)
unfolding block_for
block_for-bounded pop_timeout due now pos = (omega arith, omega arith, omega arith)
