-- ===== src/Options/Whole.antt =====
-- toro/job.py, `_whole`: which values it takes.
use native.Mathlib.Nat.{
  mul-div_cancel, mod-eq-sub-div-mul, div-mul-le_self, mul-mod_left, zero-mod, zero-div,
}
use toro.Prelude.{
  ℕ, zero, suc, ◌*◌, ◌/◌, ◌%◌, ◌^◌, ◌≤◌, ◌<◌, ◌≡◌, ◌↔◌, inl, inr, subst, sym, true, false, some,
  arith, ◌==◌, Bool-cases,
}
use toro.Options.Values.{pos, finite, Value, int, float, is_integer, negate, truncate}
use toro.Options.Checks.{as_int, at_least, whole}

-- The value is the number `n`: an int, or a float that equals it.
unfoldable pub Means : Value → ℕ → Type 0
Means (int (pos k)) n = k ≡ n
Means (float (finite false m e)) n = m ≡ n * 2 ^ e
Means (float (finite true m e)) n = (m ≡ 0) × (n ≡ 0)
Means _ n = ⊥

pow_pos : (e : ℕ) → 0 < 2 ^ e
pow_pos zero = omega arith
pow_pos (suc e) = omega (arith, pow_pos e)

at_least-nat : (m k n : ℕ) → (at_least m (int (pos k)) ≡ some n) ↔ ((k ≡ n) × (m ≤ n))
unfolding at_least
at_least-nat m k n = ground arith

at_least-negate :
    (m q n : ℕ) → (at_least m (int (negate true q)) ≡ some n) ↔ ((q ≡ 0) × (n ≡ 0) × (m ≤ n))
unfolding at_least negate
at_least-negate m zero n = ground arith
at_least-negate m (suc q) n = ground arith

exact : (k p : ℕ) → k % p ≡ 0 → k ≡ k / p * p
exact k p h = omega (arith, mod-eq-sub-div-mul k p, div-mul-le_self k p)

-- A float that is not negative.
whole-float :
    (k e m n : ℕ) → (whole (float (finite false k e)) m ≡ some n) ↔ ((k ≡ n * 2 ^ e) × (m ≤ n))
unfolding whole as_int is_integer truncate negate
whole-float k e m n = elim (Bool-cases (k % 2 ^ e == 0)) [
  | inl even ↦ rw even (
    λ h.
        let (q, le) = (at_least-nat m (k / 2 ^ e) n).0 h in
        (subst (λ x. k ≡ x * 2 ^ e) q (exact k (2 ^ e) (ground arith)), le),
    λ (is, le).
        (at_least-nat m (k / 2 ^ e) n).1
          (subst (λ x. x / 2 ^ e ≡ n) (sym is) (mul-div_cancel n (pow_pos e)), le),
  )
  | inr odd ↦ rw odd (
    λ h. cc h,
    λ (is, le).
        absurd (ground (arith, subst (λ x. x % 2 ^ e ≡ 0) (sym is) (mul-mod_left n (2 ^ e)))),
  )
]

whole-float_negative :
    (k e m n : ℕ) → (whole (float (finite true k e)) m ≡ some n) ↔ ((k ≡ 0) × (n ≡ 0) × (m ≤ n))
unfolding whole as_int is_integer truncate
whole-float_negative k e m n = elim (Bool-cases (k % 2 ^ e == 0)) [
  | inl even ↦ rw even (
    λ h.
        let (q, none_left, le) = (at_least-negate m (k / 2 ^ e) n).0 h in
        let back : k ≡ 0 * 2 ^ e = subst (λ x. k ≡ x * 2 ^ e) q (exact k (2 ^ e) (ground arith)) in
        (omega (arith, back), none_left, le),
    λ (is, none_left, le).
        (at_least-negate m (k / 2 ^ e) n).1
          (subst (λ x. x / 2 ^ e ≡ 0) (sym is) (zero-div (2 ^ e)), none_left, le),
  )
  | inr odd ↦ rw odd (
    λ h. cc h,
    λ (is, none_left, le).
        absurd (ground (arith, subst (λ x. x % 2 ^ e ≡ 0) (sym is) (zero-mod (2 ^ e)))),
  )
]

-- `_whole` takes exactly the ints, and the floats that equal an int, of at least the minimum, and
-- returns that int: a bool, a fraction, an infinity, a NaN, a text, a dict and `None` are refused.
pub whole_iff : (v : Value) (m n : ℕ) → (whole v m ≡ some n) ↔ (Means v n × (m ≤ n))
unfolding Means
whole_iff (int (pos k)) m n = unfold whole as_int in at_least-nat m k n
whole_iff (float (finite false k e)) m n = whole-float k e m n
whole_iff (float (finite true k e)) m n =
    let w = whole-float_negative k e m n in
    (λ h. let (a, b, c) = w.0 h in ((a, b), c), λ ((a, b), c). w.1 (a, b, c))
whole_iff v m n = unfold whole as_int at_least is_integer in (λ h. cc h, λ h. absurd h.0)
