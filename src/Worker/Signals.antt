-- ===== src/Worker/Signals.antt =====
-- toro/worker.py: the one cancellation of a run, by its timeout or by a request (`_arm_timeout`,
-- `_request_cancel`), and how the run ends (`_outcome`, `_cancelled_outcome`). Jobs, tasks and claims
-- are numbers; a claim of a request that is not given is `none`.
pub mod History
mod Asked
mod Turns
pub mod Single
use toro.Prelude.{
  ℕ, suc, Bool, true, false, not, ◌&&◌, ◌||◌, Option, none, some, ◌==◌, if◌then◌else◌, is_some,
  eq_option, update,
}

-- What the worker keeps of its runs, and of each task what was done to it.
pub record Runs : Type 0 where
  pub processors : ℕ → Option (ℕ × ℕ)  -- job: its task and its claim
  pub cancelling : ℕ → Option ℕ  -- job: the task that was asked to stop
  pub expired : ℕ → Bool  -- task: its timeout fired
  pub done : ℕ → Bool
  pub cancels : ℕ → ℕ  -- task: the cancellations that it was sent while it ran

-- `task.cancel()`: nothing, if the task is done.
unfoldable pub cancel : Runs → ℕ → Runs
cancel w task =
    if w.done task then w else record w { cancels = update w.cancels task (suc (w.cancels task)) }

-- `claim is not None and claim != mine`
abbrev pub is_other : Option ℕ → ℕ → Bool
is_other none mine = false
is_other (some claim) mine = not (claim == mine)

-- Past the look-up of the run.
unfoldable pub ask : Bool → Runs → ℕ → Option ℕ → ℕ → ℕ → Runs
unfolding cancel
ask is_async w job claim task mine =
    if eq_option (w.cancelling job) (some task)
    then w
    else if w.done task || is_other claim mine
    then w
    else let w1 = record w { cancelling = update w.cancelling job (some task) } in
      if is_async then cancel w1 task else w1

-- `_request_cancel`
unfoldable pub request_cancel : Bool → Runs → ℕ → Option ℕ → Runs
request_cancel is_async w job claim = elim (w.processors job) [
  | none ↦ w
  | some (task, mine) ↦ ask is_async w job claim task mine
]

-- `expire`, the timer of a run.
unfoldable pub expire : Runs → ℕ → ℕ → Runs
unfolding cancel
expire w job task =
    if eq_option (w.cancelling job) (some task)
    then w
    else cancel
        (record w {
          expired = update w.expired task true;
          cancelling = update w.cancelling job (some task);
        })
        task

-- A run begins, its processor ends, and `_handle` takes the run off.
unfoldable pub begin_run : Runs → ℕ → ℕ → ℕ → Runs
begin_run w job task claim = record w { processors = update w.processors job (some (task, claim)) }

unfoldable pub end_processor : Runs → ℕ → Runs
end_processor w task = record w { done = update w.done task true }

abbrev pub is_task : Option (ℕ × ℕ) → ℕ → Bool
is_task none task = false
is_task (some (t, claim)) task = t == task

unfoldable pub end_run : Runs → ℕ → ℕ → Runs
end_run w job task = record w {
  processors =
      if is_task (w.processors job) task then update w.processors job none else w.processors;
  cancelling =
      if eq_option (w.cancelling job) (some task)
      then update w.cancelling job none
      else w.cancelling;
}

-- What the processor's task came back with.
pub data Ended : Type 0 where
  returned : Bool → Ended  -- whether the result can be stored
  error : Ended
  interrupted : Ended  -- CancelledError

pub data Cause : Type 0 where
  own timed_out stray unstorable : Cause

-- What the worker commits.
pub data Commit : Type 0 where
  completes cancels_job : Commit
  fails : Cause → Commit
  gives_back : Commit  -- stopping: the job goes back to the queue
  keeps : Commit  -- stopping, with a thread that runs on

-- `_cancelled_outcome`
unfoldable pub cancelled_outcome : Bool → Bool → Bool → Bool → Commit
cancelled_outcome stopping is_async is_expired mine =
    if stopping
    then (if is_async then gives_back else keeps)
    else if is_expired
    then fails timed_out
    else if mine
    then cancels_job
    else fails stray

-- `_outcome` past an exception of the processor that a cancellation explains.
unfoldable pub commit_of : Bool → Bool → Bool → Commit
commit_of storable is_expired mine =
    if is_expired
    then fails timed_out
    else if mine
    then cancels_job
    else if storable
    then completes
    else fails unstorable

-- `_outcome`
unfoldable pub outcome : Ended → Bool → Bool → Bool → Bool → Commit
unfolding cancelled_outcome commit_of
outcome interrupted stopping is_async is_expired mine =
    cancelled_outcome stopping is_async is_expired mine
outcome error stopping is_async is_expired mine =
    if mine then commit_of true is_expired mine else fails own
outcome (returned storable) stopping is_async is_expired mine = commit_of storable is_expired mine

-- How the run of a job ends, by what the worker keeps of it.
unfoldable pub run_outcome : Runs → ℕ → ℕ → Ended → Bool → Bool → Commit
unfolding outcome
run_outcome w job task e stopping is_async =
    outcome e stopping is_async (w.expired task) (eq_option (w.cancelling job) (some task))
