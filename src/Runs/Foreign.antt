-- ===== src/Runs/Foreign.antt =====
-- A finish of a run that is not the job's any more: `claimedBy`, `releaseRun` and the guards of the
-- four finish scripts of toro/scripts.py.
use toro.Prelude.{
  ℕ, ◌≡◌, ◌≢◌, ◌⊎◌, refl, ap, Bool, false, inl, inr, Option, none, some, String, Option-cases,
  arith, get_or_else, eq_option-other,
}
use toro.Redis.{Redis}
use toro.Job.{Reason}
use toro.Store.{Store, hget}
use toro.Scripts.Run.{Reply, owns, claimed_by, claim_matches, recall_finish, lock_lost}
use toro.Scripts.Claim.{Limits}
use toro.Scripts.Finish.{
  Finish, finish_limits, guarded, outcome_of, move_to_completed, move_to_failed, move_to_cancelled,
  release_job,
}
use toro.Runs.{foreign, completion, failure}

module _ {R : Redis} where
  -- A run that is not the job's any more: its lock is not the worker's, or the job was claimed again,
  -- be it by the same worker.
  pub data IsForeign (s : Store R) (token id : ℕ) (claim : Option ℕ) : Type 0 where
    other_lock : s.lock id ≢ some token → IsForeign s token id claim
    other_claim :
        (c : ℕ)
        → claim ≡ some c
        → hget s id (λ j. j.processed_on) ≢ some c
        → IsForeign s token id claim

  IsForeign-owns :
      (s : Store R) (token id : ℕ) (claim : Option ℕ)
      → IsForeign s token id claim
      → owns s token id claim ≡ false
  unfolding owns claimed_by claim_matches
  IsForeign-owns s token id claim (IsForeign.other_lock off) =
      rw (eq_option-other (s.lock id) token off) refl
  IsForeign-owns s token id claim (IsForeign.other_claim c is off) =
      rw is (ground (arith, eq_option-other (hget s id (λ j. j.processed_on)) c off))

  -- The store as it was, with the answer that is remembered of the run, or that the lock is lost; or
  -- no answer was remembered and the limits are refused.
  abbrev pub IsUntouched : Store R → Finish → Option (Store R × Reply) → Type 0
  IsUntouched s a o =
      let seen = recall_finish s a.token a.job_id a.claim in
      (o ≡ some (s, get_or_else seen lock_lost))
      ⊎ ((o ≡ none) × (seen ≡ none) × (finish_limits s a ≡ none))

  pub guarded-IsUntouched :
      (s : Store R) (a : Finish) (commit : Store R → Limits → Store R × Reply)
      → owns s a.token a.job_id a.claim ≡ false
      → IsUntouched s a (guarded s a commit)
  unfolding guarded
  guarded-IsUntouched s a commit other =
      elim (Option-cases (recall_finish s a.token a.job_id a.claim)) [
        | inr (seen, e) ↦ inl (rw (e, guarded) refl)
        | inl e ↦ elim (Option-cases (finish_limits s a)) [
          | inl bad ↦ inr (rw (e, guarded) (rw bad refl), e, bad)
          | inr (l, good) ↦ inl (
              rw (e, guarded)
                (rw good (
                  rw (foreign s a.token a.job_id a.claim other)
                    (ap (λ x. some (x.0, lock_lost)) (foreign s a.token a.job_id a.claim other)))))
        ]
      ]

  move_to_cancelled-foreign :
      (s : Store R) (id token : ℕ) (claim : Option ℕ) (now lock_ms : ℕ)
      → owns s token id claim ≡ false
      → move_to_cancelled s id token claim now lock_ms
        ≡ (s, outcome_of (get_or_else (recall_finish s token id claim) lock_lost))
  unfolding move_to_cancelled
  move_to_cancelled-foreign s id token claim now lock_ms other =
      elim (Option-cases (recall_finish s token id claim)) [
        | inr (seen, e) ↦ rw (e, move_to_cancelled) refl
        | inl e ↦
            rw (e, move_to_cancelled)
              (rw (foreign s token id claim other)
                (ap (λ x. (x.0, lock_lost)) (foreign s token id claim other)))
      ]

  -- A finish of a run that is not the job's any more, its lock lost or the job claimed again, be it by
  -- the same worker, changes nothing: all four finish scripts, whatever they were to write. It answers
  -- as the run was answered before, where that is remembered, and else that the lock is lost.
  pub finish-foreign :
      (s : Store R) (a : Finish) (value : String) (inline : Bool) (why : Reason)
      (trace : Option String) (max_attempts backoff : ℕ)
      → IsForeign s a.token a.job_id a.claim
      → IsUntouched s a (move_to_completed s a value inline)
        × IsUntouched s a (move_to_failed s a why trace max_attempts backoff)
        × (move_to_cancelled s a.job_id a.token a.claim a.now a.lock_ms
            ≡ (s, outcome_of (get_or_else (recall_finish s a.token a.job_id a.claim) lock_lost)))
        × (release_job s a.job_id a.token a.claim a.now ≡ (s, lock_lost))
  unfolding move_to_completed move_to_failed release_job
  finish-foreign s a value inline why trace max_attempts backoff gone =
      let other = IsForeign-owns s a.token a.job_id a.claim gone in
      (
        guarded-IsUntouched s a (completion a value inline) other,
        guarded-IsUntouched s a (failure a why trace max_attempts backoff) other,
        move_to_cancelled-foreign s a.job_id a.token a.claim a.now a.lock_ms other,
        rw (other, release_job) refl,
      )
