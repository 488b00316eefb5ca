-- ===== src/Ordering.antt =====
-- The order of the queue and of its timers: `priorityScore`, `wakeAt` and `promoteDue` of
-- toro/scripts.py.
use toro.Prelude.{
  ℕ, zero, suc, ◌≤◌, ◌<◌, min, ◌≡◌, refl, ◌∙◌, true, false, ◌⊎◌, inl, inr, Option, none, some, List,
  [], ◌∷◌, ◌==◌, ltb, Bool-cases, arith, if◌then◌else◌, count, length,
}
use toro.Redis.{Redis, IsListing, AllAbove, lookup}
use toro.Store.{Store}
use toro.Scripts.Order.{
  priority_score, priority_offset, seq_mod, wake_at, promote_one, promote_each, promote_due,
  promote_batch, due_ids,
}

-- Of two jobs, the one with the higher priority scores below the other, and so comes first; of two
-- with one priority, the one that was queued first, as long as the counter has not wrapped.
-- A priority is at most `priority_offset`.
pub priority_score-order :
    (p q m n : ℕ)
    → q ≤ priority_offset
    → m < seq_mod
    → (p < q) ⊎ ((p ≡ q) × (n < m))
    → priority_score q n < priority_score p m
unfolding priority_score
priority_score-order p q m n q_max m_max (inl above) = omega arith
priority_score-order p q m n q_max m_max (inr (same, before)) = omega arith

-- The earlier of a time, if there is one, and another.
abbrev pub earlier : Option ℕ → ℕ → ℕ
earlier none due = due
earlier (some t) due = min t due

AllAbove-lookup : (l : List (ℕ × ℕ)) (s j t : ℕ) → AllAbove s l → lookup j l ≡ some t → s ≤ t
unfolding lookup
AllAbove-lookup [] s j t a e = cc
AllAbove-lookup ((m, u) ∷ l) s j t a e = elim (Bool-cases (m == j)) [
  | inl here ↦ ground (arith, a.0)
  | inr there ↦ AllAbove-lookup l s j t a.1 (ground arith)
]

due_ids_complete :
    (n : ℕ) (l : List (ℕ × ℕ)) (now j t : ℕ)
    → IsListing l
    → length l ≤ n
    → lookup j l ≡ some t
    → t ≤ now
    → ltb 0 (count j (due_ids now n l)) ≡ true
unfolding due_ids lookup count
due_ids_complete n [] now j t h fits e due = cc
due_ids_complete zero ((m, u) ∷ l) now j t h fits e due = absurd (omega arith)
due_ids_complete (suc n) ((m, u) ∷ l) now j t h fits e due = elim (Bool-cases (m == j)) [
  | inl here ↦ ground arith
  | inr there ↦
      let below = AllAbove-lookup l u j t h.0 (ground arith) in
      let rest = due_ids_complete n l now j t h.2 (omega arith) (ground arith) due in
      ground (arith, below, rest)
]

module _ {R : Redis} where
  -- A worker that sleeps on the marker wakes at the earliest time asked for: the member 1 holds the
  -- earlier of its own time and the new one, and every other member keeps its score.
  pub wake_at-earliest :
      (s : Store R) (due : ℕ)
      → (R.zscore (wake_at s due).marker 1 ≡ some (earlier (R.zscore s.marker 1) due))
        × ((m : ℕ) → (m == 1) ≡ false → R.zscore (wake_at s due).marker m ≡ R.zscore s.marker m)
  unfolding wake_at
  wake_at-earliest s due = (
    ground (arith, R.zscore-zadd s.marker due 1 1),
    λ m other. ground (arith, R.zscore-zadd s.marker due 1 m),
  )

  promote_one-delayed :
      (s : Store R) (id now j : ℕ)
      → R.zscore (promote_one s id now).delayed j ≡ (if id == j then none else R.zscore s.delayed j)
  unfolding promote_one
  promote_one-delayed s id now j = ground (arith, R.zscore-zrem s.delayed id j)

  promote_each-delayed :
      (ids : List ℕ) (s : Store R) (now j : ℕ)
      → R.zscore (promote_each s now ids).delayed j
        ≡ (if ltb 0 (count j ids) then none else R.zscore s.delayed j)
  unfolding promote_each count
  promote_each-delayed [] s now j = refl
  promote_each-delayed (id ∷ ids) s now j =
      ground (
        arith,
        promote_each-delayed ids (promote_one s id now) now j,
        promote_one-delayed s id now j,
      )

  -- Where at most `promote_batch` jobs are delayed, a claim or a finish leaves no job delayed whose
  -- time has come.
  pub promote_due_complete :
      (s : Store R) (now j t : ℕ)
      → length (R.zrange s.delayed) ≤ promote_batch
      → R.zscore (promote_due s now).delayed j ≡ some t
      → now < t
  unfolding promote_due
  promote_due_complete s now j t fits e = elim (Bool-cases (ltb now t)) [
    | inl later ↦ ground arith
    | inr due ↦
        let ids = due_ids now promote_batch (R.zrange s.delayed) in
        let after = promote_each-delayed ids s now j in
        absurd (elim (Bool-cases (ltb 0 (count j ids))) [
          | inl gone ↦ ground (arith, after)
          | inr kept ↦
              let there : R.zscore s.delayed j ≡ some t = ground (arith, after) in
              let found =
                due_ids_complete promote_batch (R.zrange s.delayed) now j t
                  (R.zrange-IsListing s.delayed) fits (R.lookup-zrange s.delayed j ∙ there)
                  (ground arith) in
              ground (arith, found)
        ])
  ]
