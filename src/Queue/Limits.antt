-- ===== src/Queue/Limits.antt =====
-- A queue's own limits: `limit_fields` of toro/limits.py, `Queue.set_limits` and `Queue.limits` of
-- toro/queue.py, and the claims that read them, `ownLimits` of toro/scripts.py.
use toro.Prelude.{
  ℕ, zero, suc, ◌≡◌, refl, subst, sym, ◌≤◌, ◌⊎◌, inl, inr, Option, none, some, arith, ◌>>=◌,
  bind-some, some-inj,
}
use toro.Redis.{Redis}
use toro.Job.{Meta}
use toro.Store.{Store, OwnLimits}
use toro.Scripts.Claim.{Limits, own_limits, own_cap, own_rate, own_duration}
use toro.Options.Values.{Value, null, Dict, get}
use toro.Options.Checks.{whole}
use toro.Options.Whole.{Means, whole_iff}

-- `0 if global_concurrency is None else _whole(global_concurrency, minimum=1)`
unfoldable pub cap_field : Value → Option ℕ
unfolding whole
cap_field null = some 0
cap_field v = whole v 1

-- `limit_fields`: the cap, the rate's max and its duration, 0 for one that is not set.
unfoldable pub limit_fields : Value → Option Dict → Option Limits
unfolding cap_field whole get
limit_fields cap none = do c ← cap_field cap; some (record { cap = c; rl_max = 0; rl_duration = 0 })
limit_fields cap (some rate) = do
  c ← cap_field cap
  m ← whole (get "max" null rate) 1
  d ← whole (get "duration" null rate) 1
  some (record { cap = c; rl_max = m; rl_duration = d })

-- The three fields, as HSET writes them into `meta`.
abbrev pub written : Limits → OwnLimits
written l = record {
  global_concurrency = some (Meta.whole l.cap);
  rl_max = some (Meta.whole l.rl_max);
  rl_duration = some (Meta.whole l.rl_duration);
}

-- `Queue.set_limits`: a refusal writes nothing.
unfoldable pub set_limits : {R : Redis} → Store R → Value → Option Dict → Option (Store R)
unfolding limit_fields
set_limits {R} s cap rate = do
  l ← limit_fields cap rate
  some (record s { limits = written l; marker = R.zadd s.marker 0 0 })

-- What `Queue.limits` returns: a limit that is not set is `none`.
pub record View : Type 0 where
  pub global_concurrency : Option Meta
  pub rate_limit : Option (Meta × Meta)

-- `int(text)`, or the ValueError.
unfoldable pub read_int : Meta → Option Meta
read_int (Meta.whole n) = some (Meta.whole n)
read_int Meta.negative = some Meta.negative
read_int Meta.nan = none
read_int Meta.not_a_number = none

-- `int(text or 0)`
unfoldable pub read_or_zero : Option Meta → Option Meta
unfolding read_int
read_or_zero none = some (Meta.whole 0)
read_or_zero (some m) = read_int m

-- `int(cap) or None`
unfoldable pub set_or_none : Meta → Option Meta
set_or_none (Meta.whole zero) = none
set_or_none m = some m

unfoldable pub read_rate : OwnLimits → Meta → Option (Option (Meta × Meta))
unfolding read_or_zero
read_rate own (Meta.whole (suc n)) = do
  d ← read_or_zero own.rl_duration
  some (some (Meta.whole (suc n), d))
read_rate own _ = some none

-- `Queue.limits`: `some none` for a queue without limits of its own.
unfoldable pub limits_under : OwnLimits → Option Meta → Option (Option View)
unfolding read_int read_or_zero read_rate set_or_none
limits_under own none = some none
limits_under own (some cap) = do
  rl_max ← read_or_zero own.rl_max
  rate ← read_rate own rl_max
  n ← read_int cap
  some (some (record { global_concurrency = set_or_none n; rate_limit = rate }))

unfoldable pub limits : OwnLimits → Option (Option View)
unfolding limits_under
limits own = limits_under own own.global_concurrency

unfoldable pub shown_rate : ℕ → ℕ → Option (Meta × Meta)
shown_rate zero d = none
shown_rate (suc m) d = some (Meta.whole (suc m), Meta.whole d)

-- How `limits` shows three fields.
unfoldable pub shown : Limits → View
unfolding set_or_none shown_rate
shown l = record {
  global_concurrency = set_or_none (Meta.whole l.cap);
  rate_limit = shown_rate l.rl_max l.rl_duration;
}

-- The field is 0 for a limit that the caller left out, and else the number that was asked for.
unfoldable pub Asked : Value → ℕ → Type 0
unfolding Means
Asked v n = ((v ≡ null) × (n ≡ 0)) ⊎ (Means v n × (1 ≤ n))

unfoldable pub AskedRate : Option Dict → Limits → Type 0
unfolding Means get
AskedRate none l = (l.rl_max ≡ 0) × (l.rl_duration ≡ 0)
AskedRate (some rate) l =
    (Means (get "max" null rate) l.rl_max × (1 ≤ l.rl_max))
    × (Means (get "duration" null rate) l.rl_duration × (1 ≤ l.rl_duration))

cap_field-Asked : (v : Value) (n : ℕ) → cap_field v ≡ some n → Asked v n
unfolding cap_field Asked
cap_field-Asked null n h = inl (refl, sym (some-inj h))
cap_field-Asked v n h = inr ((whole_iff v 1 n).0 h)

limit_fields-Asked :
    (cap : Value) (rate : Option Dict) (l : Limits)
    → limit_fields cap rate ≡ some l
    → Asked cap l.cap × AskedRate rate l
unfolding limit_fields AskedRate
limit_fields-Asked cap none l h =
    let (c, ok, is) = bind-some (cap_field cap) _ l h in
    subst (λ x. Asked cap x.cap × AskedRate none x) (some-inj is)
      (cap_field-Asked cap c ok, (refl, refl))
limit_fields-Asked cap (some rate) l h =
    let (c, ok, h1) = bind-some (cap_field cap) _ l h in
    let (m, max_ok, h2) = bind-some (whole (get "max" null rate) 1) _ l h1 in
    let (d, duration_ok, is) = bind-some (whole (get "duration" null rate) 1) _ l h2 in
    subst (λ x. Asked cap x.cap × AskedRate (some rate) x) (some-inj is)
      (
        cap_field-Asked cap c ok,
        (
          (whole_iff (get "max" null rate) 1 m).0 max_ok,
          (whole_iff (get "duration" null rate) 1 d).0 duration_ok,
        ),
      )

limits-written :
    (c m d : ℕ)
    → limits (written (record { cap = c; rl_max = m; rl_duration = d }))
      ≡ some (some (shown (record { cap = c; rl_max = m; rl_duration = d })))
unfolding limits limits_under read_or_zero read_int read_rate shown shown_rate
limits-written c zero d = refl
limits-written c (suc m) d = refl

-- A rate that was checked has a duration.
own_limits-written :
    (c m d : ℕ) (w : Limits)
    → (m ≡ 0) ⊎ (1 ≤ d)
    → (m ≡ 0 → d ≡ 0)
    → own_limits (written (record { cap = c; rl_max = m; rl_duration = d })) w
      ≡ some (record { cap = c; rl_max = m; rl_duration = d })
unfolding own_limits own_cap own_rate own_duration
own_limits-written c zero zero w h off = refl
own_limits-written c m (suc d) w h off = refl
own_limits-written c (suc m) zero w h off = absurd (ground arith)

AskedRate-rate :
    (rate : Option Dict) (l : Limits)
    → AskedRate rate l
    → ((l.rl_max ≡ 0) ⊎ (1 ≤ l.rl_duration)) × (l.rl_max ≡ 0 → l.rl_duration ≡ 0)
unfolding AskedRate
AskedRate-rate none l (a, b) = (inl a, λ _. b)
AskedRate-rate (some rate) l ((_, a), (_, b)) = (inr b, λ z. absurd (omega arith))

-- The limits that a producer sets are the whole numbers it asked for, or none; `limits()` reads the
-- same ones back, and every claim runs under them, whatever its worker was started with.
pub set_limits-limits :
    {R : Redis} (s t : Store R) (cap : Value) (rate : Option Dict)
    → set_limits s cap rate ≡ some t
    → (l : Limits) × Asked cap l.cap
      × AskedRate rate l
      × (limits t.limits ≡ some (some (shown l)))
      × ((w : Limits) → own_limits t.limits w ≡ some l)
unfolding set_limits
set_limits-limits s t cap rate h =
    let (l, ok, is) = bind-some (limit_fields cap rate) _ t h in
    let (c, r) = limit_fields-Asked cap rate l ok in
    let (some_d, none_d) = AskedRate-rate rate l r in
    subst
      (λ x.
        (l : Limits) × Asked cap l.cap
        × AskedRate rate l
        × (limits x.limits ≡ some (some (shown l)))
        × ((w : Limits) → own_limits x.limits w ≡ some l))
      (some-inj is)
      (
        l,
        c,
        r,
        limits-written l.cap l.rl_max l.rl_duration,
        λ w. own_limits-written l.cap l.rl_max l.rl_duration w some_d none_d,
      )
