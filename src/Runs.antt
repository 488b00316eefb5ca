-- ===== src/Runs.antt =====
-- A finish and its run: `releaseRun`, `rememberFinish`, `recallFinish` and `finishAnswer` of
-- toro/scripts.py.
pub mod Foreign
pub mod Again
use toro.Prelude.{
  ℕ, ◌≡◌, refl, sym, ◌∙◌, ap, subst, Bool, true, false, inl, inr, Option, none, some, String, ◌==◌,
  Bool-cases, Option-cases, arith, if◌then◌else◌, get_or_else, eq_option, ltb, ==_refl, count,
}
use toro.Redis.{Redis}
use toro.Job.{Reason, blank}
use toro.Store.{Store, Memo, hget, hset}
use toro.Scripts.Run.{
  Reply, owns, release_run, recall_memo, recall_finish, remember_finish, lock_lost, done, done_job,
  not_active,
}
use toro.Scripts.Claim.{Limits, Claim}
use toro.Scripts.Finish.{
  Finish, finish_limits, reply_of, fetched, fetch_next, finish_answer, guarded, outcome_of,
  move_to_completed, move_to_failed, move_to_cancelled, release_job, commit_completed, retry_later,
  commit_failed, set_failure,
}

eq_option_refl : (o : Option ℕ) → eq_option o o ≡ true
eq_option_refl none = refl
eq_option_refl (some n) = ==_refl n

-- An answer of a run that was committed: `done` with or without a next job.
abbrev pub commits : Reply → Bool
commits lock_lost = false
commits not_active = false
commits _ = true

pub reply_of-outcome : (outcome : ℕ) (c : Claim) → outcome_of (reply_of outcome c) ≡ done outcome
reply_of-outcome outcome Claim.nothing = refl
reply_of-outcome outcome (Claim.rate_limited n) = refl
reply_of-outcome outcome (Claim.due_at n) = refl
reply_of-outcome outcome (Claim.claimed j n) = refl

module _ {R : Redis} where
  -- What each finish does past its guards.
  abbrev pub completion : Finish → String → Bool → Store R → Limits → Store R × Reply
  completion a value inline t l = finish_answer (commit_completed t a value inline) a l 1

  abbrev pub failure : Finish → Reason → Option String → ℕ → ℕ → Store R → Limits → Store R × Reply
  failure a why trace max_attempts backoff t l =
      let s2 = hset t a.job_id (set_failure why trace) in
      if ltb (hget s2 a.job_id (λ j. j.attempts_made)) max_attempts
      then finish_answer (retry_later s2 a backoff) a l 0
      else finish_answer (commit_failed s2 a why) a l 1

  pub foreign :
      (s : Store R) (token id : ℕ) (claim : Option ℕ)
      → owns s token id claim ≡ false
      → release_run s token id claim ≡ (s, some lock_lost)
  unfolding release_run
  foreign s token id claim other = rw (other, release_run) refl

  pub guarded-foreign :
      (s : Store R) (a : Finish) (commit : Store R → Limits → Store R × Reply) (l : Limits)
      → recall_finish s a.token a.job_id a.claim ≡ none
      → finish_limits s a ≡ some l
      → owns s a.token a.job_id a.claim ≡ false
      → guarded s a commit ≡ some (s, lock_lost)
  unfolding guarded
  guarded-foreign s a commit l new good other =
      rw (new, guarded)
        (rw good (
          rw (foreign s a.token a.job_id a.claim other)
            (ap (λ x. some (x.0, lock_lost)) (foreign s a.token a.job_id a.claim other))))

  pub outcome_recalled :
      (m : Memo) (s : Store R) (token : ℕ)
      → (r : Reply) × (recall_memo (some m) s token ≡ some r) × (outcome_of r ≡ done m.outcome)
  unfolding recall_memo
  outcome_recalled m s token = elim (Option-cases m.next_id) [
    | inl e ↦ (done m.outcome, rw (e, recall_memo) refl, refl)
    | inr (n, e) ↦ elim (Bool-cases (eq_option (s.lock n) (some token))) [
      | inl own ↦ (
        done_job m.outcome (get_or_else (s.jobs n) blank) n,
        rw (e, recall_memo) (rw own refl),
        refl,
      )
      | inr other ↦ (done m.outcome, rw (e, recall_memo) (rw other refl), refl)
    ]
  ]

  remembered :
      (s : Store R) (token id : ℕ) (claim : Option ℕ) (outcome : ℕ) (next : Option ℕ) (ttl : ℕ)
      → (ttl == 0) ≡ false
      → (remember_finish s token id claim outcome next ttl).fin token id claim
        ≡ some (record { outcome = outcome; next_id = next })
  unfolding remember_finish
  remembered s token id claim outcome next ttl kept =
      rw (kept, remember_finish) (ground (arith, eq_option_refl claim))

  -- The same run's finish, recalled.
  abbrev pub Recalls : ℕ → ℕ → Option ℕ → Store R × Reply → Type 0
  Recalls token id claim r =
      (again : Reply) × (recall_finish r.0 token id claim ≡ some again)
      × (outcome_of again ≡ outcome_of r.1)

  pub finish_answer-Recalls :
      (s : Store R) (a : Finish) (l : Limits) (outcome : ℕ)
      → (a.lock_ms == 0) ≡ false
      → Recalls a.token a.job_id a.claim (finish_answer s a l outcome)
  unfolding finish_answer recall_finish
  finish_answer-Recalls s a l outcome kept =
      let (t, c) = fetch_next s a l in
      let u = remember_finish t a.token a.job_id a.claim outcome (fetched c) a.lock_ms in
      let (r, e, o) =
        outcome_recalled (record { outcome = outcome; next_id = fetched c }) u a.token in
      (
        r,
        ap (λ m. recall_memo m u a.token)
              (remembered t a.token a.job_id a.claim outcome (fetched c) a.lock_ms kept)
            ∙ e,
        o ∙ sym (reply_of-outcome outcome c),
      )

  -- Whatever a result is, if it was committed it is recalled.
  abbrev pub Once : ℕ → ℕ → Option ℕ → Option (Store R × Reply) → Type 0
  Once token id claim none = Unit {0}
  Once token id claim (some r) = commits r.1 ≡ true → Recalls token id claim r

  refused_or_not :
      (s : Store R) (token id : ℕ) (claim : Option ℕ) (t : Store R) (answer : Reply)
      → release_run s token id claim ≡ (t, some answer)
      → commits answer ≡ false
  unfolding release_run
  refused_or_not s token id claim t answer e = elim (Bool-cases (owns s token id claim)) [
    | inr other ↦ ground (arith, foreign s token id claim other)
    | inl own ↦ elim (Bool-cases (count id s.active == 0)) [
      | inl out ↦ ground arith
      | inr on ↦ ground arith
    ]
  ]

  pub guarded-Once :
      (s : Store R) (a : Finish) (commit : Store R → Limits → Store R × Reply)
      → ((t : Store R) (l : Limits) → Recalls a.token a.job_id a.claim (commit t l))
      → Once a.token a.job_id a.claim (guarded s a commit)
  unfolding guarded
  guarded-Once s a commit k = elim (Option-cases (recall_finish s a.token a.job_id a.claim)) [
    | inr (seen, e) ↦ rw (e, Once, guarded) (λ _. (seen, e, refl))
    | inl e ↦
        rw (e, Once, guarded)
          (elim (Option-cases (finish_limits s a)) [
            | inl bad ↦ rw (bad, Once) tt
            | inr (l, good) ↦ rw (good, Once) (past l (release_run s a.token a.job_id a.claim) refl)
          ])
  ]
    where
      past :
          (l : Limits) (x : Store R × Option Reply)
          → release_run s a.token a.job_id a.claim ≡ x
          → Once a.token a.job_id a.claim (elim x.1 as (λ _. Option (Store R × Reply)) [
            | some refused ↦ some (x.0, refused)
            | none ↦ some (commit x.0 l)
          ])
      past l (t, none) e = λ _. k t l
      past l (t, some answer) e =
          λ c. absurd (cc (c, refused_or_not s a.token a.job_id a.claim t answer e))

  pub recalled :
      (t : Store R) (a : Finish) (commit : Store R → Limits → Store R × Reply) (again : Reply)
      → recall_finish t a.token a.job_id a.claim ≡ some again
      → guarded t a commit ≡ some (t, again)
  unfolding guarded
  recalled t a commit again e = rw (e, guarded) refl

  -- The second answer to a run.
  abbrev pub AnsweredAgain : Finish → Store R × Reply → Type 0
  AnsweredAgain a r =
      (value : String) (inline : Bool) (why : Reason) (trace : Option String)
      (max_attempts backoff : ℕ)
      → (again : Reply) × (move_to_completed r.0 a value inline ≡ some (r.0, again))
        × (move_to_failed r.0 a why trace max_attempts backoff ≡ some (r.0, again))
        × (outcome_of again ≡ outcome_of r.1)

  answered_again :
      (a : Finish) (r : Store R × Reply) → Recalls a.token a.job_id a.claim r → AnsweredAgain a r
  unfolding move_to_completed move_to_failed
  answered_again a r (again, e, o) value inline why trace max_attempts backoff = (
    again,
    recalled r.0 a (completion a value inline) again e,
    recalled r.0 a (failure a why trace max_attempts backoff) again e,
    o,
  )

  pub once :
      (a : Finish) (o : Option (Store R × Reply)) (r : Store R × Reply)
      → o ≡ some r
      → commits r.1 ≡ true
      → Once a.token a.job_id a.claim o
      → Recalls a.token a.job_id a.claim r
  once a o r e c h = (subst (λ x. Once a.token a.job_id a.claim x) e h) c

  -- A run that was completed commits once: while the answer is kept, a finish of the same run that
  -- is sent again, as a completion or as a failure, changes nothing and answers the same outcome.
  pub move_to_completed-once :
      (s : Store R) (a : Finish) (value : String) (inline : Bool) (r : Store R × Reply)
      → (a.lock_ms == 0) ≡ false
      → move_to_completed s a value inline ≡ some r
      → commits r.1 ≡ true
      → AnsweredAgain a r
  unfolding move_to_completed
  move_to_completed-once s a value inline r kept e c = answered_again a r (
      once a _ r e c (
        guarded-Once s a (completion a value inline)
          (λ t l. finish_answer-Recalls (commit_completed t a value inline) a l 1 kept)))

  pub failed-Recalls :
      (t : Store R) (a : Finish) (l : Limits) (why : Reason) (max_attempts backoff : ℕ)
      → (a.lock_ms == 0) ≡ false
      → (let answer : Store R × Reply =
            if ltb (hget t a.job_id (λ j. j.attempts_made)) max_attempts
            then finish_answer (retry_later t a backoff) a l 0
            else finish_answer (commit_failed t a why) a l 1 in
          Recalls a.token a.job_id a.claim answer)
  failed-Recalls t a l why max_attempts backoff kept =
      elim (Bool-cases (ltb (hget t a.job_id (λ j. j.attempts_made)) max_attempts)) [
        | inl left ↦ rw left (finish_answer-Recalls _ a l 0 kept)
        | inr last ↦ rw last (finish_answer-Recalls _ a l 1 kept)
      ]

  -- A run that failed commits once, whether it was to be tried again or not: while the answer is kept,
  -- a finish of the same run that is sent again, as a completion or as a failure, changes nothing and
  -- answers the same outcome.
  pub move_to_failed-once :
      (s : Store R) (a : Finish) (why : Reason) (trace : Option String) (max_attempts backoff : ℕ)
      (r : Store R × Reply)
      → (a.lock_ms == 0) ≡ false
      → move_to_failed s a why trace max_attempts backoff ≡ some r
      → commits r.1 ≡ true
      → AnsweredAgain a r
  unfolding move_to_failed
  move_to_failed-once s a why trace max_attempts backoff r kept e c = answered_again a r (
      once a _ r e c (
        guarded-Once s a (failure a why trace max_attempts backoff) (λ t l.
          failed-Recalls (hset t a.job_id (set_failure why trace)) a l why max_attempts backoff
            kept)))
