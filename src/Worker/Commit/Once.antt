-- ===== src/Worker/Commit/Once.antt =====
-- toro/worker.py, `Worker._committed`: through any failures of the connection, one run of the script.
use toro.Prelude.{
  ℕ, ◌+◌, ◌≡◌, refl, inl, inr, ◌⊎◌, Bool, false, Option, some, String, List, [], ◌∷◌, ltb, ◌==◌,
  if◌then◌else◌, Bool-cases, Option-cases,
}
use toro.Redis.{Redis}
use toro.Job.{Reason}
use toro.Store.{Store}
use toro.Scripts.Run.{Reply}
use toro.Scripts.Finish.{Finish, move_to_completed, move_to_failed}
use toro.Runs.Again.{sent, verdict, move_to_completed-Resent, move_to_failed-Resent}
use toro.Worker.Commit.{
  Attempt, Result, answered, raised, refused, waiting, Script, longer, attempts, committed,
}

-- A reply that was heard gives the verdict; any other end says nothing.
abbrev pub Fits : Option ℕ → Result → Type 0
Fits v (answered r) = verdict r ≡ v
Fits v raised = Unit {0}
Fits v refused = Unit {0}
Fits v waiting = Unit {0}

-- Nothing was heard.
abbrev pub Unheard : Result → Type 0
Unheard (answered r) = ⊥
Unheard raised = Unit {0}
Unheard refused = Unit {0}
Unheard waiting = Unit {0}

module _ {R : Redis} where
  -- A re-send without a fetch leaves the store and gives the verdict of the first run.
  abbrev pub Settled : Script R → Store R → Option ℕ → Type 0
  Settled script t v =
      (now : ℕ) → (again : Reply) × (script false now t ≡ some (t, again)) × (verdict again ≡ v)

  abbrev pub IsReplayed : Script R → Type 0
  IsReplayed script =
      (fetch : Bool) (now : ℕ) (s : Store R) (r : Store R × Reply)
      → script fetch now s ≡ some r
      → Settled script r.0 (verdict r.1)

  -- Past the run: the store stays, and what is heard fits it.
  resent :
      (script : Script R) (until pause : ℕ) (xs : List Attempt) (t : Store R) (v : Option ℕ)
      → Settled script t v
      → ((attempts script until pause false xs t).0 ≡ t)
        × Fits v (attempts script until pause false xs t).1
  unfolding attempts
  resent script until pause [] t v h = (refl, tt)
  resent script until pause (x ∷ xs) t v h =
      let rest = resent script until (longer pause) xs t v h in
      let (again, ran, same) = h x.now in
      elim (Bool-cases x.ran) [
        | inl on ↦ elim (Bool-cases x.heard) [
          | inl got ↦ rw (on, attempts) (rw (ran, got) (refl, same))
          | inr lost ↦ elim (Bool-cases (ltb until (x.clock + pause))) [
            | inl over ↦ rw (on, attempts) (rw (ran, lost, over) (refl, tt))
            | inr early ↦ rw (on, attempts) (rw (ran, lost, early) rest)
          ]
        ]
        | inr off ↦ elim (Bool-cases (ltb until (x.clock + pause))) [
          | inl over ↦ rw (off, attempts) (rw over (refl, tt))
          | inr early ↦ rw (off, attempts) (rw early rest)
        ]
      ]

  -- What the loop did: nothing, or one run of the script, at the store that it began with.
  abbrev pub RunsOnce : Script R → Store R → Store R × Result → Type 0
  RunsOnce script s x =
      ((x.0 ≡ s) × Unheard x.1)
      ⊎ ((fetch : Bool) × (now : ℕ) × (r : Store R × Reply) × (script fetch now s ≡ some r)
          × (x.0 ≡ r.0)
          × Fits (verdict r.1) x.1)

  ran_now :
      (script : Script R) (until pause : ℕ) (fetch : Bool) (x : Attempt) (xs : List Attempt)
      (s t : Store R) (r : Reply)
      → IsReplayed script
      → script fetch x.now s ≡ some (t, r)
      → RunsOnce script s (
          if x.heard
          then (t, answered r)
          else (if ltb until (x.clock + pause)
              then (t, raised)
              else attempts script until (longer pause) false xs t))
  ran_now script until pause fetch x xs s t r h ran = inr (
    fetch,
    x.now,
    (t, r),
    ran,
    elim (Bool-cases x.heard) [
      | inl got ↦ rw got refl
      | inr lost ↦ elim (Bool-cases (ltb until (x.clock + pause))) [
        | inl over ↦ rw (lost, over) refl
        | inr early ↦
            rw (lost, early)
              (resent script until (longer pause) xs t (verdict r) (h fetch x.now s (t, r) ran)).0
      ]
    ],
    elim (Bool-cases x.heard) [
      | inl got ↦ rw got refl
      | inr lost ↦ elim (Bool-cases (ltb until (x.clock + pause))) [
        | inl over ↦ rw (lost, over) tt
        | inr early ↦
            rw (lost, early)
              (resent script until (longer pause) xs t (verdict r) (h fetch x.now s (t, r) ran)).1
      ]
    ],
  )

  attempts-once :
      (script : Script R) (until pause : ℕ) (fetch : Bool) (xs : List Attempt) (s : Store R)
      → IsReplayed script
      → RunsOnce script s (attempts script until pause fetch xs s)
  unfolding attempts
  attempts-once script until pause fetch [] s h = inl (refl, tt)
  attempts-once script until pause fetch (x ∷ xs) s h = elim (Bool-cases x.ran) [
    | inl on ↦ elim (Option-cases (script fetch x.now s)) [
      | inl error ↦ elim (Bool-cases x.heard) [
        | inl got ↦ rw (on, attempts) (rw (error, got) (inl (refl, tt)))
        | inr lost ↦ elim (Bool-cases (ltb until (x.clock + pause))) [
          | inl over ↦ rw (on, attempts) (rw (error, lost, over) (inl (refl, tt)))
          | inr early ↦
              rw (on, attempts)
                (rw (error, lost, early) (attempts-once script until (longer pause) false xs s h))
        ]
      ]
      | inr ((t, r), ran) ↦
          rw (on, attempts) (rw ran (ran_now script until pause fetch x xs s t r h ran))
    ]
    | inr off ↦ elim (Bool-cases (ltb until (x.clock + pause))) [
      | inl over ↦ rw (off, attempts) (rw over (inl (refl, tt)))
      | inr early ↦
          rw (off, attempts) (rw early (attempts-once script until (longer pause) false xs s h))
    ]
  ]

  -- The two finishes that the worker commits with a fetch.
  unfoldable pub completing : Finish → String → Bool → Script R
  completing a value inline fetch now s = move_to_completed s (sent a fetch now) value inline

  unfoldable pub failing : Finish → Reason → Option String → ℕ → ℕ → Script R
  failing a why trace max_attempts backoff fetch now s =
      move_to_failed s (sent a fetch now) why trace max_attempts backoff

  completing-IsReplayed :
      (a : Finish) (value : String) (inline : Bool)
      → (a.lock_ms == 0) ≡ false
      → IsReplayed (completing a value inline)
  unfolding completing move_to_completed
  completing-IsReplayed a value inline kept fetch now s r e later =
      move_to_completed-Resent s (sent a fetch now) later value inline r kept e

  failing-IsReplayed :
      (a : Finish) (why : Reason) (trace : Option String) (max_attempts backoff : ℕ)
      → (a.lock_ms == 0) ≡ false
      → IsReplayed (failing a why trace max_attempts backoff)
  unfolding failing move_to_failed
  failing-IsReplayed a why trace max_attempts backoff kept fetch now s r e later =
      move_to_failed-Resent s (sent a fetch now) later why trace max_attempts backoff r kept e

  -- However often the connection fails, before a script is run or after, and whenever the worker
  -- gives up: a completion, or a failure, is committed by one run of its script or not at all, and a
  -- reply that is heard gives the verdict of that run. This where the answers are kept for a re-send
  -- and no other script runs in between.
  pub committed-once :
      (a : Finish) (value : String) (inline : Bool) (why : Reason) (trace : Option String)
      (max_attempts backoff until : ℕ) (fetch : Bool) (xs : List Attempt) (s : Store R)
      → (a.lock_ms == 0) ≡ false
      → RunsOnce
          (completing a value inline)
          s
          (committed (completing a value inline) until fetch xs s)
        × RunsOnce
            (failing a why trace max_attempts backoff)
            s
            (committed (failing a why trace max_attempts backoff) until fetch xs s)
  unfolding committed
  committed-once a value inline why trace max_attempts backoff until fetch xs s kept = (
    attempts-once (completing a value inline) until 200 fetch xs s
        (completing-IsReplayed a value inline kept),
    attempts-once (failing a why trace max_attempts backoff) until 200 fetch xs s
        (failing-IsReplayed a why trace max_attempts backoff kept),
  )
