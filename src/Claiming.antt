-- ===== src/Claiming.antt =====
-- Claims and renewals: `acquireNext`, `lockAndLoad` and `EXTEND_LOCK` of toro/scripts.py.
use toro.Prelude.{
  ℕ, suc, ◌≤◌, ◌<◌, ◌≡◌, refl, ◌∙◌, ap, true, false, ◌||◌, ◌⊎◌, subst, inl, inr, Option, none, some,
  List, [], ◌∷◌, ◌==◌, ltb, Bool-cases, arith, if◌then◌else◌, is_some, length, count, get_or_else,
  eq_option, count-remove_all,
}
use toro.Redis.{Redis}
use toro.Job.{JobState, blank}
use toro.Store.{Store, hget, state_of}
use toro.Scripts.Order.{promote_one, promote_each, promote_due, due_ids, promote_batch, wake}
use toro.Scripts.Run.{run_stamp, lock_and_load}
use toro.Scripts.Claim.{
  Limits, Claim, Renewal, try_rate_limit, claim_none, activate, claim_popped, claim_first,
  is_capped, acquire_next, is_empty, extend_lock,
}

-- A stamp is not before the clock, and after the stamp of the claim before it.
run_stamp-later :
    (last : Option ℕ) (now : ℕ)
    → (now ≤ run_stamp last now) × ((p : ℕ) → last ≡ some p → p < run_stamp last now)
unfolding run_stamp
run_stamp-later none now = (ground arith, λ p e. cc)
run_stamp-later (some last) now = (ground arith, λ p e. ground arith)

no_longer : (n : ℕ) (xs ys : List ℕ) → xs ≡ ys → n ≤ suc (length xs) → n ≤ suc (length ys)
no_longer n xs ys e h = subst (λ l. n ≤ suc (length l)) e h

module _ {R : Redis} where
  promote_each-active :
      (ids : List ℕ) (s : Store R) (now : ℕ) → (promote_each s now ids).active ≡ s.active
  unfolding promote_each promote_one
  promote_each-active [] s now = refl
  promote_each-active (id ∷ ids) s now =
      promote_each-active ids (promote_one s id now) now ∙ ground arith

  promote_due-active : (s : Store R) (now : ℕ) → (promote_due s now).active ≡ s.active
  unfolding promote_due
  promote_due-active s now =
      promote_each-active (due_ids now promote_batch (R.zrange s.delayed)) s now

  activate-active :
      (s : Store R) (id token slots now : ℕ)
      → (activate s id token slots now).active ≡ id ∷ s.active
  unfolding activate lock_and_load wake
  activate-active s id token slots now = ground arith

  limited-active :
      (s : Store R) (l : Limits) (now : ℕ) → (try_rate_limit s l now).0.active ≡ s.active
  unfolding try_rate_limit
  limited-active s l now = elim (Bool-cases (l.rl_max == 0)) [
    | inl e ↦ rw e refl
    | inr e ↦ rw e refl
  ]

  popped-active :
      (id score token : ℕ) (l : Limits) (now : ℕ) (r : Store R × ℕ)
      → (let answer : Store R × Claim =
            if ltb 0 r.1
            then (
              record r.0 { prioritized = R.zadd r.0.prioritized score id },
              Claim.rate_limited r.1,
            )
            else (let s2 = activate r.0 id token l.cap now in
                (s2, Claim.claimed (get_or_else (s2.jobs id) blank) id)) in
          length answer.0.active ≤ suc (length r.0.active))
  popped-active id score token l now (s, retry) = elim (Bool-cases (ltb 0 retry)) [
    | inl over ↦ rw over (omega arith)
    | inr under ↦ rw (under, activate-active s id token l.cap now) (omega arith)
  ]

  claim_first-active :
      (q : List (ℕ × ℕ)) (s : Store R) (token : ℕ) (l : Limits) (now : ℕ)
      → length (claim_first q s token l now).0.active ≤ suc (length s.active)
  unfolding claim_first claim_popped claim_none
  claim_first-active [] s token l now = elim (Bool-cases (is_empty (R.zrange s.held))) [
    | inl e ↦ rw e (omega arith)
    | inr e ↦ rw e (omega arith)
  ]
  claim_first-active ((id, score) ∷ rest) s token l now =
      let t : Store R = record s { prioritized = R.zrem s.prioritized id } in
      let p = popped-active id score token l now (try_rate_limit t l now) in
      no_longer _ _ _ (limited-active t l now) p

  -- A cap of 0 caps nothing. Under any other, a claim never lets more jobs be active than the cap,
  -- or than there were already where a lower cap was set since.
  pub acquire_next-cap :
      (s : Store R) (token : ℕ) (l : Limits) (now : ℕ)
      → 0 < l.cap
      → (length (acquire_next s token l now).0.active ≤ l.cap)
        ⊎ (length (acquire_next s token l now).0.active ≡ length s.active)
  unfolding acquire_next is_capped
  acquire_next-cap s token l now capped =
      let t = promote_due s now in
      elim (Bool-cases (t.paused || is_capped t l.cap)) [
        | inl stop ↦ rw (stop, acquire_next) (inr (ap length (promote_due-active s now)))
        | inr go ↦
            rw (go, acquire_next)
              (inl (ground (arith, claim_first-active (R.zrange t.prioritized) t token l now)))
      ]

  -- A renewal never gives a lock away: it answers that the lock is lost, or the job gone, and then
  -- changes nothing; or the lock was this worker's, is still its own, and no recovery is marked.
  pub extend_lock-owner :
      (s : Store R) (id token : ℕ)
      → (((extend_lock s id token).0 ≡ s)
          × (eq_option (s.lock id) (some token) ≡ false)
          × ((extend_lock s id token).1
              ≡ (if is_some (s.jobs id) then Renewal.lost_lock else Renewal.job_gone)))
        ⊎ ((eq_option (s.lock id) (some token) ≡ true)
            × ((extend_lock s id token).0.lock id ≡ some token)
            × (count id (extend_lock s id token).0.stalled ≡ 0)
            × ((extend_lock s id token).1 ≡ (
                if hget s id (λ j. j.cancel) then Renewal.cancel_requested else Renewal.renewed)))
  unfolding extend_lock
  extend_lock-owner s id token = elim (Bool-cases (eq_option (s.lock id) (some token))) [
    | inr other ↦ inl (rw (other, extend_lock) refl, other, rw (other, extend_lock) refl)
    | inl own ↦ inr (
      own,
      rw (own, extend_lock) (ground arith),
      rw (own, extend_lock) (ground (arith, count-remove_all id id s.stalled)),
      rw (own, extend_lock) refl,
    )
  ]

  -- What a claim stamps: the claimed job is active, locked by the worker, off the recovery's mark,
  -- and its stamp is not before the clock and after that of the claim before it. So a claim's stamp
  -- tells its run from every earlier run of the job.
  pub activate-stamp :
      (s : Store R) (id token slots now : ℕ)
      → (let t = activate s id token slots now in
          (state_of t id ≡ some JobState.active)
          × (t.lock id ≡ some token)
          × (count id t.stalled ≡ 0)
          × ((stamp : ℕ) × (hget t id (λ j. j.processed_on) ≡ some stamp)
              × (now ≤ stamp)
              × ((p : ℕ) → hget s id (λ j. j.processed_on) ≡ some p → p < stamp)))
  unfolding activate lock_and_load wake
  activate-stamp s id token slots now = (
    ground arith,
    ground arith,
    ground (arith, count-remove_all id id s.stalled),
    (
      run_stamp (hget s id (λ j. j.processed_on)) now,
      ground arith,
      (run_stamp-later (hget s id (λ j. j.processed_on)) now).0,
      (run_stamp-later (hget s id (λ j. j.processed_on)) now).1,
    ),
  )
