-- ===== src/Worker/Signals/Single.antt =====
-- toro/worker.py: whatever order requests, timeouts and ends come in, a run is sent one cancellation.
use toro.Prelude.{
  ℕ, ◌≤◌, ◌≡◌, refl, sym, Option, none, ap, ◌∙◌, Bool, true, false, some, eq_option,
  eq_option-other, arith, ==_refl,
}
use toro.Worker.Signals.{
  Runs, Ended, returned, error, interrupted, own, timed_out, stray, unstorable, Commit, completes,
  cancels_job, fails, outcome, run_outcome,
}
use toro.Worker.Signals.History.{Signal, is_late, Happens, History, IsOnce, IsSingle}
use toro.Worker.Signals.Asked.{request_cancel-IsSingle, expire-IsSingle}
use toro.Worker.Signals.Turns.{begin_run-IsSingle, end_run-IsSingle, end_processor-IsSingle}

Happens-IsSingle :
    (is_async : Bool) (w v : Runs) (f g : ℕ → Option Signal)
    → Happens is_async w f v g
    → IsSingle w f
    → IsSingle v g
Happens-IsSingle is_async w v f g (Happens.begins job task claim off new) h =
    begin_run-IsSingle w f job task claim off new h
Happens-IsSingle is_async w v f g (Happens.requests job claim) h =
    request_cancel-IsSingle is_async w f job claim h
Happens-IsSingle is_async w v f g (Happens.expires job task claim timed at) h =
    expire-IsSingle w f job task claim at h
Happens-IsSingle is_async w v f g (Happens.processed task) h = end_processor-IsSingle w f task h
Happens-IsSingle is_async w v f g (Happens.ends job task claim at) h =
    end_run-IsSingle w f job task claim at h

History-IsSingle :
    (is_async : Bool) (w : Runs) (f : ℕ → Option Signal) → History is_async w f → IsSingle w f
History-IsSingle is_async _ _ (History.start w none_on none_sent) = record {
  once = λ j t c e. absurd (cc (none_on j, e));
  bounded = λ t. omega (arith, none_sent t);
  alone = λ j other t c second e f. absurd (cc (none_on j, e));
}
History-IsSingle is_async _ _ (History.next w v f g past here) =
    Happens-IsSingle is_async w v f g here (History-IsSingle is_async w f past)

-- What a run without any signal commits.
abbrev pub unsignalled : Ended → Commit
unsignalled (returned true) = completes
unsignalled (returned false) = fails unstorable
unsignalled error = fails own
unsignalled interrupted = fails stray

outcome-expired : (e : Ended) (a : Bool) → outcome e false a true true ≡ fails timed_out
unfolding outcome
outcome-expired (returned storable) a = refl
outcome-expired error a = refl
outcome-expired interrupted a = refl

outcome-asked : (e : Ended) (a : Bool) → outcome e false a false true ≡ cancels_job
unfolding outcome
outcome-asked (returned storable) a = refl
outcome-asked error a = refl
outcome-asked interrupted a = refl

outcome-unsignalled : (e : Ended) (a : Bool) → outcome e false a false false ≡ unsignalled e
unfolding outcome
outcome-unsignalled (returned true) a = refl
outcome-unsignalled (returned false) a = refl
outcome-unsignalled error a = refl
outcome-unsignalled interrupted a = refl

-- How a run ends by its first signal, in a worker that is not stopping.
abbrev pub decided : Option Signal → Ended → Commit
decided none e = unsignalled e
decided (some Signal.asks) e = cancels_job
decided (some Signal.times_out) e = fails timed_out

outcome-decided :
    (x : Signal) (e : Ended) (a : Bool) → outcome e false a (is_late x) true ≡ decided (some x) e
outcome-decided Signal.asks e a = outcome-asked e a
outcome-decided Signal.times_out e a = outcome-expired e a

-- In a worker that begins no run of a job while it still has one of it, whatever requests, timeouts
-- and ends came before, in any order: the task of a run that is on was sent at most one cancellation.
-- And if the worker is not stopping, the first signal that the run was given decides how it ends,
-- whatever its processor makes of it: a run that was out of time first fails as timed out, one that a
-- request reached first ends cancelled, and one with no signal completes or fails as its processor did.
pub run_outcome-signal :
    (is_async : Bool) (w : Runs) (first : ℕ → Option Signal) (job task claim : ℕ) (e : Ended)
    → History is_async w first
    → w.processors job ≡ some (task, claim)
    → (w.cancels task ≤ 1) × (run_outcome w job task e false is_async ≡ decided (first task) e)
unfolding run_outcome
run_outcome-signal is_async w first job task claim e past at =
    let h = History-IsSingle is_async w first past in
    (h.bounded task, by_state (h.once job task claim at))
  where
    by_state :
        IsOnce w first job task → run_outcome w job task e false is_async ≡ decided (first task) e
    by_state (IsOnce.signalled x on few late is) =
        let mine : eq_option (w.cancelling job) (some task) ≡ true = rw on (==_refl task) in
        ap (λ b. outcome e false is_async b (eq_option (w.cancelling job) (some task))) late
        ∙ ap (λ b. outcome e false is_async (is_late x) b) mine
        ∙ outcome-decided x e is_async
        ∙ ap (λ o. decided o e) (sym is)
    by_state (IsOnce.untouched off none_sent early unheard) =
        ap (λ b. outcome e false is_async b (eq_option (w.cancelling job) (some task))) early
        ∙ ap (λ b. outcome e false is_async false b) (eq_option-other (w.cancelling job) task off)
        ∙ outcome-unsignalled e is_async
        ∙ ap (λ o. decided o e) (sym unheard)
