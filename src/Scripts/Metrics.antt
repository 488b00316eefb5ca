-- ===== src/Scripts/Metrics.antt =====
-- toro/scripts.py, `_LIB`: the counters (`histIdx`, `recordMetrics`, `recordFlow`). A bucket's
-- expiry is not kept.
use toro.Prelude.{
  ℕ, ◌+◌, ◌*◌, ◌/◌, List, [], ◌∷◌, Bool, true, false, ◌&&◌, Option, none, some, ltb, min, ◌==◌,
  if◌then◌else◌, update, length,
}
use toro.Redis.{Redis}
use toro.Store.{Store, Outcome, Field}

unfoldable pub eq_outcome : Outcome → Outcome → Bool
eq_outcome Outcome.added Outcome.added = true
eq_outcome Outcome.completed Outcome.completed = true
eq_outcome Outcome.failed Outcome.failed = true
eq_outcome Outcome.cancelled Outcome.cancelled = true
eq_outcome _ _ = false

unfoldable pub eq_field : Field → Field → Bool
unfolding eq_outcome
eq_field (Field.of a) (Field.of b) = eq_outcome a b
eq_field Field.ms Field.ms = true
eq_field (Field.named a m) (Field.named b n) = eq_outcome a b && (m == n)
eq_field (Field.ms_named m) (Field.ms_named n) = m == n
eq_field (Field.hist m i) (Field.hist n j) = (m == n) && (i == j)
eq_field Field.flows_completed Field.flows_completed = true
eq_field Field.flows_failed Field.flows_failed = true
eq_field (Field.flow_hist i) (Field.flow_hist j) = i == j
eq_field _ _ = false

-- HGET, with 0 for a missing field.
unfoldable pub counter : List (Field × ℕ) → Field → ℕ
unfolding eq_field
counter [] f = 0
counter ((g, n) ∷ h) f = if eq_field g f then n else counter h f

unfoldable pub hincrby : List (Field × ℕ) → Field → ℕ → List (Field × ℕ)
unfolding eq_field
hincrby [] f by = (f, by) ∷ []
hincrby ((g, n) ∷ h) f by = if eq_field g f then (g, n + by) ∷ h else (g, n) ∷ hincrby h f by

-- An increment made only for a duration above 0.
unfoldable pub hincr_ms : List (Field × ℕ) → Field → ℕ → List (Field × ℕ)
unfolding hincrby
hincr_ms h f dur = if ltb 0 dur then hincrby h f dur else h

module _ (R : Redis) where
  unfoldable pub hist_idx : ℕ → ℕ
  hist_idx dur = if ltb dur 20 then 0 else min 25 (R.log_ratio dur + 1)

  -- The fields of a job's name: past 1024 fields the breakdown stops.
  unfoldable pub by_name : List (Field × ℕ) → Outcome → ℕ → Option ℕ → List (Field × ℕ)
  unfolding hincrby hincr_ms hist_idx eq_outcome
  by_name h o dur none = h
  by_name h o dur (some name) =
      if ltb (length h) 1024
      then (let h1 = hincr_ms (hincrby h (Field.named o name) 1) (Field.ms_named name) dur in
          if eq_outcome o Outcome.completed
          then hincrby h1 (Field.hist name (hist_idx dur)) 1
          else h1)
      else h

unfoldable pub minute_of : ℕ → ℕ
minute_of now = now / 60000 * 60000

module _ {R : Redis} where
  unfoldable pub record_metrics : Store R → Outcome → ℕ → ℕ → Option ℕ → ℕ → Store R
  unfolding hincrby hincr_ms by_name minute_of
  record_metrics s o now dur name n =
      let bucket = minute_of now in
      let h = hincr_ms (hincrby (s.buckets bucket) (Field.of o) n) Field.ms dur in
      record s {
        buckets = update s.buckets bucket (by_name R h o dur name);
        totals = hincr_ms (hincrby s.totals (Field.of o) n) Field.ms dur;
      }

  unfoldable pub record_flow : Store R → Bool → ℕ → ℕ → Store R
  unfolding hincrby hist_idx minute_of
  record_flow s completed now dur =
      let bucket = minute_of now in
      let h = s.buckets bucket in
      record s {
        buckets = update s.buckets bucket (
            if completed
            then hincrby (hincrby h Field.flows_completed 1) (Field.flow_hist (hist_idx R dur)) 1
            else hincrby h Field.flows_failed 1);
      }
