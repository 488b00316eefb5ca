-- ===== src/Worker/Signals/History.antt =====
-- toro/worker.py: what may happen to the runs of a worker, with the first signal that each task is
-- given, by the requests and the timers alone; and what stays true of each run.
use toro.Prelude.{
  ℕ, ◌≤◌, ◌≡◌, ◌≢◌, refl, sym, ap, ◌∙◌, subst, Bool, true, false, not, ◌||◌, Option, none, some,
  some-inj, update, get_or_else, if◌then◌else◌, ◌==◌, Bool-cases, inl, inr, arith,
}
use toro.Worker.Signals.{Runs, is_other, request_cancel, expire, begin_run, end_processor, end_run}

pub data Signal : Type 0 where
  asks times_out : Signal

abbrev pub is_late : Signal → Bool
is_late asks = false
is_late times_out = true

-- A signal to a task: it counts if it is the first one.
unfoldable pub note : (ℕ → Option Signal) → ℕ → Signal → ℕ → Option Signal
note f task x = update f task (some (get_or_else (f task) x))

abbrev pub is_meant : Option ℕ → ℕ → Bool
is_meant none mine = true
is_meant (some claim) mine = claim == mine

pub is_other-meant : (claim : Option ℕ) (mine : ℕ) → is_other claim mine ≡ not (is_meant claim mine)
is_other-meant none mine = refl
is_other-meant (some claim) mine = refl

-- A request reaches the run of its job, if that is still on and is the one that is meant.
unfoldable pub hears : Runs → (ℕ → Option Signal) → ℕ → Option ℕ → ℕ → Option Signal
unfolding note
hears w f job claim = elim (w.processors job) as (λ _. ℕ → Option Signal) [
  | none ↦ f
  | some (task, mine) ↦ if w.done task || not (is_meant claim mine) then f else note f task asks
]

-- A task that no run of the worker has, and that nothing was done to.
pub record IsNew (w : Runs) (f : ℕ → Option Signal) (task : ℕ) : Type 0 where
  pub unsent : w.cancels task ≡ 0
  pub in_time : w.expired task ≡ false
  pub free : (job claim : ℕ) → w.processors job ≢ some (task, claim)
  pub unasked : (job : ℕ) → w.cancelling job ≢ some task
  pub unsignalled : f task ≡ none

-- What may happen: a run of a job that the worker does not run begins; a request comes, at any time,
-- for any job; a timer, which only an async processor has, fires while its run is on; a processor ends;
-- a run is taken off.
pub data Happens (is_async : Bool) (w : Runs) (f : ℕ → Option Signal)
    : Runs → (ℕ → Option Signal) → Type 0 where
  begins :
      (job task claim : ℕ)
      → w.processors job ≡ none
      → IsNew w f task
      → Happens is_async w f (begin_run w job task claim) f
  requests :
      (job : ℕ) (claim : Option ℕ)
      → Happens is_async w f (request_cancel is_async w job claim) (hears w f job claim)
  expires :
      (job task claim : ℕ)
      → is_async ≡ true
      → w.processors job ≡ some (task, claim)
      → Happens is_async w f (expire w job task) (note f task times_out)
  processed : (task : ℕ) → Happens is_async w f (end_processor w task) f
  ends :
      (job task claim : ℕ)
      → w.processors job ≡ some (task, claim)
      → Happens is_async w f (end_run w job task) f

-- From a worker without runs on, with the first signal that each task was given.
pub data History (is_async : Bool) : Runs → (ℕ → Option Signal) → Type 0 where
  start :
      (w : Runs)
      → ((job : ℕ) → w.processors job ≡ none)
      → ((task : ℕ) → w.cancels task ≡ 0)
      → History is_async w (λ _. none)
  next :
      (w v : Runs) (f g : ℕ → Option Signal)
      → History is_async w f
      → Happens is_async w f v g
      → History is_async v g

-- The state of one run's task: not signalled, and not sent anything; or signalled, and sent at most one.
pub data IsOnce (w : Runs) (f : ℕ → Option Signal) (job task : ℕ) : Type 0 where
  untouched :
      w.cancelling job ≢ some task
      → w.cancels task ≡ 0
      → w.expired task ≡ false
      → f task ≡ none
      → IsOnce w f job task
  signalled :
      (x : Signal)
      → w.cancelling job ≡ some task
      → w.cancels task ≤ 1
      → w.expired task ≡ is_late x
      → f task ≡ some x
      → IsOnce w f job task

pub record IsSingle (w : Runs) (f : ℕ → Option Signal) : Type 0 where
  pub once : (job task claim : ℕ) → w.processors job ≡ some (task, claim) → IsOnce w f job task
  pub bounded : (task : ℕ) → w.cancels task ≤ 1
  pub alone :
      (job other task claim second : ℕ)
      → w.processors job ≡ some (task, claim)
      → w.processors other ≡ some (task, second)
      → job ≡ other

-- The same of another state that agrees on the job and the task.
pub IsOnce-same :
    (w v : Runs) (f g : ℕ → Option Signal) (job task : ℕ)
    → v.cancelling job ≡ w.cancelling job
    → v.cancels task ≡ w.cancels task
    → v.expired task ≡ w.expired task
    → g task ≡ f task
    → IsOnce w f job task
    → IsOnce v g job task
IsOnce-same w v f g job task c n x y (IsOnce.untouched off zero_sent on_time unheard) =
    IsOnce.untouched (λ e. off (sym c ∙ e)) (n ∙ zero_sent) (x ∙ on_time) (y ∙ unheard)
IsOnce-same w v f g job task c n x y (IsOnce.signalled s on few late first) =
    IsOnce.signalled s (c ∙ on) (subst (λ k. k ≤ 1) (sym n) few) (x ∙ late) (y ∙ first)

-- A signal to a task that has one changes nothing.
pub note-known :
    (w : Runs) (f : ℕ → Option Signal) (task : ℕ) (x y : Signal)
    → f task ≡ some y
    → IsSingle w f
    → IsSingle w (note f task x)
unfolding note
note-known w f task x y is h = record {
  once = λ j t c e.
      IsOnce-same w w f (note f task x) j t refl refl refl
        (elim (Bool-cases (task == t)) [
          | inl here ↦
              let t_is : task ≡ t = ground arith in
              ap (λ b. if b then some (get_or_else (f task) x) else f t) here
              ∙ ap (λ o. some (get_or_else o x)) is
              ∙ sym is
              ∙ ap f t_is
          | inr other ↦ ap (λ b. if b then some (get_or_else (f task) x) else f t) other
        ])
        (h.once j t c e);
  bounded = h.bounded;
  alone = h.alone;
}

pub pair-left : {x y : ℕ × ℕ} → some x ≡ some y → x.0 ≡ y.0
pair-left e = ap (λ p. p.0) (some-inj e)
