-- ===== src/Queue/Percentile.antt =====
-- toro/queue.py, `_percentile`: a quantile of a histogram by the nearest rank. The quantile is a whole
-- number of hundredths, as the three that the code asks for; `estimate` stands for
-- `bucket_estimate_ms`, which is arithmetic on doubles.
use toro.Prelude.{
  ℕ, suc, ◌+◌, ◌-◌, ◌*◌, ◌≤◌, ◌<◌, ◌≡◌, ap, max, List, [], ◌∷◌, false, leb, ◌==◌, if◌then◌else◌,
  length, take, arith, Bool-cases, inl, inr,
}
use native.Mathlib.Nat.{lt-div-mul-add, div-mul-le_self, mul-le-mul_left, mul-le-mul}
use toro.Scripts.Claim.{ceil_div}

unfoldable pub sum : List ℕ → ℕ
sum [] = 0
sum (n ∷ ns) = n + sum ns

-- `max(1, math.ceil(total * q - 1e-9))`: the epsilon takes the doubles' error off, and there is none
-- here.
unfoldable pub rank : ℕ → ℕ → ℕ
rank total percent = max 1 (ceil_div (total * percent) 100)

-- The first index at which the counts so far reach the target; past the end, the last one.
unfoldable pub reach : List ℕ → ℕ → ℕ → ℕ → ℕ
reach [] target idx cum = idx
reach (n ∷ []) target idx cum = idx
reach (n ∷ m ∷ ns) target idx cum =
    let rest = reach (m ∷ ns) target (suc idx) (cum + n) in
    if leb target (cum + n) then idx else rest

unfoldable pub percentile : (ℕ → ℕ) → List ℕ → ℕ → ℕ
unfolding sum rank reach
percentile estimate buckets percent =
    if sum buckets == 0 then 0 else estimate (reach buckets (rank (sum buckets) percent) 0 0)

-- The bucket found holds the target: the counts before it do not reach it, and with its own they do.
reach-lem :
    (ns : List ℕ) (target idx cum : ℕ)
    → cum < target
    → target ≤ cum + sum ns
    → (k : ℕ) × (reach ns target idx cum ≡ idx + k)
      × (k < length ns)
      × (cum + sum (take k ns) < target)
      × (target ≤ cum + sum (take (suc k) ns))
unfolding reach sum
reach-lem [] target idx cum below enough = absurd (omega arith)
reach-lem (n ∷ []) target idx cum below enough =
    (0, omega arith, omega arith, omega arith, omega arith)
reach-lem (n ∷ m ∷ ns) target idx cum below enough = elim (Bool-cases (leb target (cum + n))) [
  | inl here ↦ (0, rw here (omega arith), omega arith, omega arith, ground (arith, here))
  | inr on ↦
      let (k, is, within, before, reached) =
        reach-lem (m ∷ ns) target (suc idx) (cum + n) (ground (arith, on))
          (omega (arith, enough)) in
      (
        suc k,
        rw on (omega (arith, is)),
        omega (arith, within),
        omega (arith, before),
        omega (arith, reached),
      )
]

rank-bounds :
    (total percent : ℕ)
    → 0 < total
    → 0 < percent
    → percent ≤ 100
    → (0 < rank total percent)
      × (rank total percent ≤ total)
      × (total * percent ≤ 100 * rank total percent)
      × ((n : ℕ) → n < rank total percent → 100 * n < total * percent)
unfolding rank
rank-bounds total percent some_total some_percent few =
    let x = total * percent in
    let c = ceil_div x 100 in
    let up : x ≤ total * 100 = mul-le-mul_left total few in
    let low : 1 * 1 ≤ x = mul-le-mul some_total some_percent in
    let above = lt-div-mul-add {a = x + (100 - 1)} {b = 100} (omega arith) in
    let below = div-mul-le_self (x + (100 - 1)) 100 in
    (
      omega arith,
      omega (arith, up, above, below, low),
      omega (arith, up, above, below, low),
      λ n h. omega (arith, up, above, below, low, h),
    )

-- Of a histogram that holds anything, a quantile of 1 to 100 hundredths is read from the bucket at
-- which the counts first reach it: the buckets before hold less than that share of the whole, and with it at least that.
pub percentile-rank :
    (estimate : ℕ → ℕ) (buckets : List ℕ) (percent : ℕ)
    → 0 < sum buckets
    → 0 < percent
    → percent ≤ 100
    → (k : ℕ) × (percentile estimate buckets percent ≡ estimate k)
      × (k < length buckets)
      × (100 * sum (take k buckets) < sum buckets * percent)
      × (sum buckets * percent ≤ 100 * sum (take (suc k) buckets))
unfolding percentile
percentile-rank estimate buckets percent some_there some_percent few =
    let total = sum buckets in
    let target = rank total percent in
    let (pos, fits, up, low) = rank-bounds total percent some_there some_percent few in
    let (k, is, within, before, reached) = reach-lem buckets target 0 0 pos (omega (arith, fits)) in
    let same : reach buckets target 0 0 ≡ k = omega (arith, is) in
    let there : (total == 0) ≡ false = ground (arith, some_there) in
    (
      k,
      rw there (ap estimate same),
      within,
      low (sum (take k buckets)) (omega (arith, before)),
      omega (arith, up, reached),
    )
