-- ===== src/Placement/Guards.antt =====
-- The placement of jobs through the guards and the answer of a finish: `releaseRun` and
-- `finishAnswer` of toro/scripts.py.
use toro.Prelude.{
  ℕ, ◌≡◌, Bool, true, inl, inr, Option, none, some, ◌==◌, Bool-cases, Option-cases, arith,
  if◌then◌else◌, update, count, get_or_else,
}
use toro.Redis.{Redis}
use toro.Job.{Job, JobState, blank}
use toro.Store.{Store, hset}
use toro.Scripts.Order.{promote_due, wake}
use toro.Scripts.Run.{Reply, owns, release_run, recall_finish, remember_finish}
use toro.Scripts.Claim.{Limits, Claim, acquire_next, is_empty}
use toro.Scripts.Finish.{
  Finish, finish_limits, fetched, is_rate_limited, wake_if_waiting, fetch_next, finish_answer,
  guarded,
}
use toro.Placement.{InHand, IsPlaced, Returned}
use toro.Placement.Hands.{from_active}
use toro.Placement.Claims.{acquire_next-IsPlaced, promote_due-IsPlaced}

module _ {R : Redis} where
  -- A write into the hash of a job in hand that leaves its state and its key.
  pub write-InHand :
      {b : Bool} {was : Option JobState} (s : Store R) (id : ℕ) (f : Job → Job)
      → ((j : Job) → (f j).state ≡ j.state)
      → ((j : Job) → (f j).ckey ≡ j.ckey)
      → InHand b was s id
      → InHand b was (hset s id f) id
  write-InHand s id f fs fk h =
      let j0 = get_or_else (s.jobs id) blank in
      record {
        state = ground (arith, h.state, fs j0);
        placed = λ j n. ground (arith, h.placed j n);
        keyed = λ j k n. ground (arith, h.keyed j k n);
        nowhere = h.nowhere;
        key = λ k. ground (arith, h.key k, fk j0);
      }

  pub wake-IsPlaced : (s : Store R) → IsPlaced s → IsPlaced (wake s)
  unfolding wake
  wake-IsPlaced s h = record { placed = h.placed; keyed = h.keyed }

  pub wake_if_waiting-IsPlaced : (s : Store R) → IsPlaced s → IsPlaced (wake_if_waiting s)
  unfolding wake_if_waiting
  wake_if_waiting-IsPlaced s h = elim (Bool-cases (is_empty (R.zrange s.prioritized))) [
    | inl e ↦ rw e h
    | inr e ↦ rw e (wake-IsPlaced s h)
  ]

  pub woken_or_not :
      (r : Store R × Claim)
      → IsPlaced r.0
      → IsPlaced (if is_rate_limited r.1 then wake r.0 else r.0)
  woken_or_not (s, c) h = elim (Bool-cases (is_rate_limited c)) [
    | inl e ↦ rw e (wake-IsPlaced s h)
    | inr e ↦ rw e h
  ]

  pub fetch_next-IsPlaced :
      (s : Store R) (a : Finish) (l : Limits) → IsPlaced s → IsPlaced (fetch_next s a l).0
  unfolding fetch_next
  fetch_next-IsPlaced s a l h = elim (Bool-cases a.fetch) [
    | inl e ↦
        rw (e, fetch_next)
          (woken_or_not (acquire_next s a.token l a.now)
            (acquire_next-IsPlaced s a.token l a.now h))
    | inr e ↦
        rw (e, fetch_next)
          (wake_if_waiting-IsPlaced (promote_due s a.now) (promote_due-IsPlaced s a.now h))
  ]

  pub remember_finish-IsPlaced :
      (s : Store R) (token id : ℕ) (claim : Option ℕ) (outcome : ℕ) (next : Option ℕ) (ttl : ℕ)
      → IsPlaced s
      → IsPlaced (remember_finish s token id claim outcome next ttl)
  unfolding remember_finish
  remember_finish-IsPlaced s token id claim outcome next ttl h = elim (Bool-cases (ttl == 0)) [
    | inl e ↦ rw e h
    | inr e ↦ rw e (record { placed = h.placed; keyed = h.keyed })
  ]

  pub finish_answer-IsPlaced :
      (s : Store R) (a : Finish) (l : Limits) (outcome : ℕ)
      → IsPlaced s
      → IsPlaced (finish_answer s a l outcome).0
  unfolding finish_answer
  finish_answer-IsPlaced s a l outcome h =
      remember_finish-IsPlaced (fetch_next s a l).0 a.token a.job_id a.claim outcome
        (fetched (fetch_next s a l).1) a.lock_ms (fetch_next-IsPlaced s a l h)

  -- What `releaseRun` leaves: a refusal keeps every job in place, and past it the job is in hand.
  abbrev pub RunReleased : ℕ → Store R × Option Reply → Type 0
  RunReleased id (t, none) = InHand true (some JobState.active) t id
  RunReleased id (t, some _) = IsPlaced t

  pub unlock-IsPlaced :
      (s : Store R) (id : ℕ) → IsPlaced s → IsPlaced (record s { lock = update s.lock id none })
  unlock-IsPlaced s id h = record { placed = h.placed; keyed = h.keyed }

  pub release_run-Released :
      (s : Store R) (token id : ℕ) (claim : Option ℕ)
      → IsPlaced s
      → RunReleased id (release_run s token id claim)
  unfolding release_run
  release_run-Released s token id claim h = elim (Bool-cases (owns s token id claim)) [
    | inr other ↦ rw (other, release_run) h
    | inl own ↦
        rw (own, release_run)
          (elim (Bool-cases (count id s.active == 0)) [
            | inl out ↦ rw out (unlock-IsPlaced s id h)
            | inr in_list ↦ rw in_list (
                from_active (record s { lock = update s.lock id none }) id (unlock-IsPlaced s id h)
                  (ground (arith, h.placed id)))
          ])
  ]

  -- Past the guards the job is in hand, and the commit puts every job in place.
  pub guarded-Returned :
      (s : Store R) (a : Finish) (commit : Store R → Limits → Store R × Reply)
      → ((t : Store R) (l : Limits)
          → InHand true (some JobState.active) t a.job_id
          → IsPlaced (commit t l).0)
      → IsPlaced s
      → Returned (guarded s a commit)
  unfolding guarded
  guarded-Returned s a commit c h = elim (Option-cases (recall_finish s a.token a.job_id a.claim)) [
    | inr (seen, e) ↦ rw (e, Returned, guarded) h
    | inl e ↦
        rw (e, Returned, guarded)
          (elim (Option-cases (finish_limits s a)) [
            | inl bad ↦ rw (bad, Returned) tt
            | inr (l, good) ↦
                rw (good, Returned)
                  (past l (release_run s a.token a.job_id a.claim)
                    (release_run-Released s a.token a.job_id a.claim h))
          ])
  ]
    where
      past :
          (l : Limits) (r : Store R × Option Reply)
          → RunReleased a.job_id r
          → Returned (elim r.1 as (λ _. Option (Store R × Reply)) [
            | some refused ↦ some (r.0, refused)
            | none ↦ some (commit r.0 l)
          ])
      past l (t, none) k = c t l k
      past l (t, some refused) k = k
