-- ===== src/Counting.antt =====
-- The counters: `recordMetrics` of toro/scripts.py.
use toro.Prelude.{
  ℕ, ◌+◌, ◌≡◌, refl, sym, ◌∙◌, ap, true, false, inl, inr, Option, List, [], ◌∷◌, Bool-cases, arith,
  if◌then◌else◌,
}
use toro.Redis.{Redis}
use toro.Store.{Store, Outcome, Field}
use toro.Scripts.Metrics.{eq_outcome, eq_field, counter, hincrby, hincr_ms, record_metrics}

eq_outcome_sound : (a b : Outcome) → eq_outcome a b ≡ true → a ≡ b
unfolding eq_outcome
eq_outcome_sound Outcome.added Outcome.added e = refl
eq_outcome_sound Outcome.completed Outcome.completed e = refl
eq_outcome_sound Outcome.failed Outcome.failed e = refl
eq_outcome_sound Outcome.cancelled Outcome.cancelled e = refl
eq_outcome_sound _ _ e = cc

eq_field_sound : (a b : Field) → eq_field a b ≡ true → a ≡ b
unfolding eq_field
eq_field_sound (Field.of a) (Field.of b) e = ap Field.of (eq_outcome_sound a b e)
eq_field_sound Field.ms Field.ms e = refl
eq_field_sound (Field.named a m) (Field.named b n) e =
    let o : a ≡ b = eq_outcome_sound a b (ground arith) in
    let i : m ≡ n = ground arith in ap (λ x. Field.named x m) o ∙ ap (λ x. Field.named b x) i
eq_field_sound (Field.ms_named m) (Field.ms_named n) e =
    let i : m ≡ n = ground arith in ap Field.ms_named i
eq_field_sound (Field.hist m i) (Field.hist n j) e =
    let a : m ≡ n = ground arith in
    let b : i ≡ j = ground arith in ap (λ x. Field.hist x i) a ∙ ap (λ x. Field.hist n x) b
eq_field_sound Field.flows_completed Field.flows_completed e = refl
eq_field_sound Field.flows_failed Field.flows_failed e = refl
eq_field_sound (Field.flow_hist m) (Field.flow_hist n) e =
    let i : m ≡ n = ground arith in ap Field.flow_hist i
eq_field_sound _ _ e = cc

-- HINCRBY adds to the one counter it names, and to no other.
counter-hincrby :
    (h : List (Field × ℕ)) (f g : Field) (by : ℕ)
    → counter (hincrby h f by) g ≡ counter h g + (if eq_field f g then by else 0)
unfolding counter hincrby
counter-hincrby [] f g by = ground arith
counter-hincrby ((k, n) ∷ h) f g by = elim (Bool-cases (eq_field k f)) [
  | inl same ↦
      rw (same, hincrby)
        (let e : eq_field k g ≡ eq_field f g = ap (λ x. eq_field x g) (eq_field_sound k f same) in
          ground (arith, e))
  | inr other ↦
      rw (other, hincrby)
        (elim (Bool-cases (eq_field k g)) [
          | inl here ↦
              let e : eq_field f g ≡ false = elim (Bool-cases (eq_field f g)) [
                | inr apart ↦ apart
                | inl there ↦
                    ap (λ x. eq_field f x) (sym (eq_field_sound k g here))
                    ∙ flipped k f g here there other
              ] in
              rw (here, e) (omega arith)
          | inr past ↦ rw past (counter-hincrby h f g by)
        ])
]
  where
    flipped :
        (k f g : Field)
        → eq_field k g ≡ true
        → eq_field f g ≡ true
        → eq_field k f ≡ false
        → eq_field f k ≡ false
    flipped k f g a b c = absurd (cc (ap (λ x. eq_field k x) (eq_field_sound f g b), a, c))

counter-hincr_ms :
    (h : List (Field × ℕ)) (f g : Field) (dur : ℕ)
    → counter (hincr_ms h f dur) g ≡ counter h g + (if eq_field f g then dur else 0)
unfolding hincr_ms
counter-hincr_ms h f g dur = ground (arith, counter-hincrby h f g dur)

module _ {R : Redis} where
  -- A recorded outcome adds its number to its own lifetime total and its duration to the total of
  -- milliseconds, and leaves every other total as it was.
  pub record_metrics-totals :
      (s : Store R) (o : Outcome) (now dur : ℕ) (name : Option ℕ) (n : ℕ)
      → ((p : Outcome)
          → counter (record_metrics s o now dur name n).totals (Field.of p)
            ≡ counter s.totals (Field.of p) + (if eq_outcome o p then n else 0))
        × (counter (record_metrics s o now dur name n).totals Field.ms
            ≡ counter s.totals Field.ms + dur)
  unfolding record_metrics eq_field
  record_metrics-totals s o now dur name n = (
    λ p. ground (
      arith,
      counter-hincr_ms (hincrby s.totals (Field.of o) n) Field.ms (Field.of p) dur,
      counter-hincrby s.totals (Field.of o) (Field.of p) n,
    ),
    ground (
      arith,
      counter-hincr_ms (hincrby s.totals (Field.of o) n) Field.ms Field.ms dur,
      counter-hincrby s.totals (Field.of o) Field.ms n,
    ),
  )
