-- ===== src/Runs/Again.antt =====
-- A finish script of toro/scripts.py that is sent again for the same run, whatever it answered.
use toro.Prelude.{
  ℕ, ◌≡◌, refl, sym, ◌∙◌, ap, subst, Bool, true, false, inl, inr, Option, none, some, String, ◌==◌,
  Bool-cases, Option-cases, some-inj, arith, ltb, count, update, remove_all,
}
use toro.Redis.{Redis}
use toro.Job.{Reason}
use toro.Store.{Store, Memo, hget, hset}
use toro.Scripts.Run.{
  Reply, owns, release_run, recall_memo, recall_finish, lock_lost, done, done_job, done_due,
  not_active,
}
use toro.Scripts.Claim.{Limits}
use toro.Scripts.Finish.{
  Finish, finish_limits, guarded, outcome_of, move_to_completed, move_to_failed, reply_of,
  finish_answer, fetch_next, commit_completed, retry_later, commit_failed, set_failure,
}
use toro.Runs.{
  commits, completion, failure, guarded-foreign, outcome_recalled, Recalls, recalled, once,
  guarded-Once, finish_answer-Recalls, failed-Recalls, reply_of-outcome,
}

-- The same run's finish, at another time, fetching or not.
abbrev pub sent : Finish → Bool → ℕ → Finish
sent a fetch now = record a { fetch = fetch; now = now }

-- The verdict of a finish, as the worker reads it: the outcome, or none where the run was lost.
abbrev pub verdict : Reply → Option ℕ
verdict lock_lost = none
verdict not_active = none
verdict (done n) = some n
verdict (done_job n job id) = some n
verdict (done_due n due) = some n

done-commits : (r : Reply) (n : ℕ) → outcome_of r ≡ done n → commits r ≡ true
done-commits lock_lost n e = cc e
done-commits not_active n e = cc e
done-commits r n e = refl

verdict_of : (r q : Reply) → outcome_of r ≡ outcome_of q → verdict r ≡ verdict q
verdict_of r q e = sym (same r) ∙ ap verdict e ∙ same q
  where
    same : (r : Reply) → verdict (outcome_of r) ≡ verdict r
    same lock_lost = refl
    same not_active = refl
    same (done n) = refl
    same (done_job n job id) = refl
    same (done_due n due) = refl

lost : (r : Reply) → commits r ≡ false → none ≡ verdict r
lost lock_lost c = refl
lost not_active c = refl
lost (done n) c = cc c
lost (done_job n job id) c = cc c
lost (done_due n due) c = cc c

module _ {R : Redis} where
  recall_none :
      (m : Option Memo) (s t : Store R) (token : ℕ)
      → recall_memo m s token ≡ none
      → recall_memo m t token ≡ none
  recall_none none s t token e = unfold recall_memo in refl
  recall_none (some m) s t token e =
      let (r, is, o) = outcome_recalled m s token in absurd (cc (is, e))

  recall-commits :
      (m : Option Memo) (s : Store R) (token : ℕ) (r : Reply)
      → recall_memo m s token ≡ some r
      → commits r ≡ true
  recall-commits none s token r e = unfold recall_memo in cc e
  recall-commits (some m) s token r e =
      let (x, is, o) = outcome_recalled m s token in
      subst (λ y. commits y ≡ true) (some-inj (sym is ∙ e)) (done-commits x m.outcome o)

  pair-path : {x y : Store R × Reply} → some x ≡ some y → (x.0 ≡ y.0) × (x.1 ≡ y.1)
  pair-path e = let p = some-inj e in (ap (λ x. x.0) p, ap (λ x. x.1) p)

  -- What `guarded` answers past its recall, by what releasing the run did.
  abbrev after :
      (Store R → Limits → Store R × Reply)
      → Limits
      → Store R × Option Reply
      → Option (Store R × Reply)
  after commit l (s1, some r) = some (s1, r)
  after commit l (s1, none) = some (commit s1 l)

  guarded-released :
      (s : Store R) (a : Finish) (commit : Store R → Limits → Store R × Reply) (l : Limits)
      (gone : Store R × Option Reply)
      → recall_finish s a.token a.job_id a.claim ≡ none
      → finish_limits s a ≡ some l
      → release_run s a.token a.job_id a.claim ≡ gone
      → guarded s a commit ≡ after commit l gone
  unfolding guarded
  guarded-released s a commit l gone new good is =
      rw (new, guarded) (rw good (by_run (release_run s a.token a.job_id a.claim) gone is))
    where
      by_run :
          (x y : Store R × Option Reply)
          → x ≡ y
          → (elim x.1 as (λ _. Option (Store R × Reply)) [
            | some r ↦ some (x.0, r)
            | none ↦ some (commit x.0 l)
          ])
            ≡ after commit l y
      by_run (t, none) y e = ap (after commit l) e
      by_run (t, some r) y e = ap (after commit l) e

  guarded-unlimited :
      (s : Store R) (a : Finish) (commit : Store R → Limits → Store R × Reply)
      → recall_finish s a.token a.job_id a.claim ≡ none
      → finish_limits s a ≡ none
      → guarded s a commit ≡ none
  unfolding guarded
  guarded-unlimited s a commit new bad = rw (new, guarded) (rw bad refl)

  abbrev unlocked : Store R → ℕ → Store R
  unlocked s id = record s { lock = update s.lock id none }

  -- Without the lock, a finish that does not fetch is refused.
  unlocked-refused :
      (s : Store R) (a : Finish) (now : ℕ) (other : Store R → Limits → Store R × Reply)
      → recall_finish s a.token a.job_id a.claim ≡ none
      → guarded (unlocked s a.job_id) (sent a false now) other
        ≡ some (unlocked s a.job_id, lock_lost)
  unfolding owns finish_limits recall_finish
  unlocked-refused s a now other new =
      guarded-foreign (unlocked s a.job_id) (sent a false now) other
        (record { cap = 0; rl_max = a.rl_max; rl_duration = a.rl_duration })
        (recall_none (s.fin a.token a.job_id a.claim) s (unlocked s a.job_id) a.token new) refl
        (ground arith)

  -- A refused finish is refused again, as one whose lock is lost, and changes nothing the second time.
  pub guarded-refused :
      (s t : Store R) (a : Finish) (now : ℕ) (commit other : Store R → Limits → Store R × Reply)
      (r : Reply)
      → ((u : Store R) (m : Limits) → commits (commit u m).1 ≡ true)
      → guarded s a commit ≡ some (t, r)
      → commits r ≡ false
      → guarded t (sent a false now) other ≡ some (t, lock_lost)
  unfolding finish_limits release_run recall_finish
  guarded-refused s t a now commit other r all e c =
      let P : Store R → Type 0 = λ u. guarded u (sent a false now) other ≡ some (u, lock_lost) in
      elim (Option-cases (recall_finish s a.token a.job_id a.claim)) [
        | inr (seen, k) ↦
            let (_, is) = pair-path (sym (recalled s a commit seen k) ∙ e) in
            absurd (cc (recall-commits (s.fin a.token a.job_id a.claim) s a.token seen k, is, c))
        | inl new ↦ elim (Option-cases (finish_limits s a)) [
          | inl bad ↦ absurd (cc (guarded-unlimited s a commit new bad, e))
          | inr (l, good) ↦ elim (Bool-cases (owns s a.token a.job_id a.claim)) [
            | inr foreign_run ↦
                let (same, _) =
                  pair-path (sym (guarded-foreign s a commit l new good foreign_run) ∙ e) in
                subst P same (
                  guarded-foreign s (sent a false now) other
                    (record { cap = 0; rl_max = a.rl_max; rl_duration = a.rl_duration }) new refl
                    foreign_run)
            | inl own ↦ elim (Bool-cases (count a.job_id s.active == 0)) [
              | inl out ↦
                  let gone : release_run s a.token a.job_id a.claim
                      ≡ (unlocked s a.job_id, some not_active) =
                    rw (own, release_run) (rw out refl) in
                  let (same, _) = pair-path (
                    sym (
                      guarded-released s a commit l (unlocked s a.job_id, some not_active) new good
                        gone)
                    ∙ e) in
                  subst P same (unlocked-refused s a now other new)
              | inr on ↦
                  let s1 : Store R = record (unlocked s a.job_id) {
                    active = remove_all a.job_id s.active;
                  } in
                  let gone : release_run s a.token a.job_id a.claim ≡ (s1, none) =
                    rw (own, release_run) (rw on refl) in
                  let (_, is) =
                    pair-path (sym (guarded-released s a commit l (s1, none) new good gone) ∙ e) in
                  absurd (cc (all s1 l, is, c))
            ]
          ]
        ]
      ]

  -- The second answer to a run, without a fetch.
  abbrev pub Resent : Finish → (Store R → Limits → Store R × Reply) → Store R × Reply → Type 0
  Resent a other r =
      (again : Reply) × (guarded r.0 a other ≡ some (r.0, again)) × (verdict again ≡ verdict r.1)

  guarded-Resent :
      (s : Store R) (a : Finish) (now : ℕ) (commit other : Store R → Limits → Store R × Reply)
      (r : Store R × Reply)
      → ((u : Store R) (m : Limits) → Recalls a.token a.job_id a.claim (commit u m))
      → ((u : Store R) (m : Limits) → commits (commit u m).1 ≡ true)
      → guarded s a commit ≡ some r
      → Resent (sent a false now) other r
  guarded-Resent s a now commit other r recall all e = elim (Bool-cases (commits r.1)) [
    | inl c ↦
        let (again, seen, o) = once a (guarded s a commit) r e c (guarded-Once s a commit recall) in
        (again, recalled r.0 (sent a false now) other again seen, verdict_of again r.1 o)
    | inr c ↦ (lock_lost, guarded-refused s r.0 a now commit other r.1 all e c, lost r.1 c)
  ]

  answer-commits :
      (s : Store R) (a : Finish) (l : Limits) (outcome : ℕ)
      → commits (finish_answer s a l outcome).1 ≡ true
  unfolding finish_answer
  answer-commits s a l outcome =
      let c = (fetch_next s a l).1 in
      done-commits (reply_of outcome c) outcome (reply_of-outcome outcome c)

  -- A completion, whatever it answered, that is sent again without a fetch changes nothing and is
  -- answered with the same verdict.
  pub move_to_completed-Resent :
      (s : Store R) (a : Finish) (now : ℕ) (value : String) (inline : Bool) (r : Store R × Reply)
      → (a.lock_ms == 0) ≡ false
      → move_to_completed s a value inline ≡ some r
      → Resent (sent a false now) (completion (sent a false now) value inline) r
  unfolding move_to_completed
  move_to_completed-Resent s a now value inline r kept e =
      guarded-Resent s a now (completion a value inline)
        (completion (sent a false now) value inline) r
        (λ t l. finish_answer-Recalls (commit_completed t a value inline) a l 1 kept)
        (λ t l. answer-commits (commit_completed t a value inline) a l 1) e

  failure-commits :
      (t : Store R) (a : Finish) (l : Limits) (why : Reason) (trace : Option String)
      (max_attempts backoff : ℕ)
      → commits (failure a why trace max_attempts backoff t l).1 ≡ true
  failure-commits t a l why trace max_attempts backoff =
      let s2 = hset t a.job_id (set_failure why trace) in
      elim (Bool-cases (ltb (hget s2 a.job_id (λ j. j.attempts_made)) max_attempts)) [
        | inl left ↦ rw left (answer-commits (retry_later s2 a backoff) a l 0)
        | inr last ↦ rw last (answer-commits (commit_failed s2 a why) a l 1)
      ]

  -- The same of a failure, whether it is tried again or not.
  pub move_to_failed-Resent :
      (s : Store R) (a : Finish) (now : ℕ) (why : Reason) (trace : Option String)
      (max_attempts backoff : ℕ) (r : Store R × Reply)
      → (a.lock_ms == 0) ≡ false
      → move_to_failed s a why trace max_attempts backoff ≡ some r
      → Resent (sent a false now) (failure (sent a false now) why trace max_attempts backoff) r
  unfolding move_to_failed
  move_to_failed-Resent s a now why trace max_attempts backoff r kept e =
      guarded-Resent s a now (failure a why trace max_attempts backoff)
        (failure (sent a false now) why trace max_attempts backoff) r
        (λ t l.
          failed-Recalls (hset t a.job_id (set_failure why trace)) a l why max_attempts backoff
            kept)
        (λ t l. failure-commits t a l why trace max_attempts backoff) e
