-- ===== src/Samples/Queues.antt =====
-- A queue from empty: jobs that share a key, one that is claimed, and what leads there.
use toro.Prelude.{
  count, update, Bool-cases, inl, inr, ◌==◌, arith, refl, true, false, none, some, [], ◌∷◌,
  get_or_else,
}
use toro.Redis.Backed.{backed}
use toro.Job.{JobState, OnFail, Opts, RemoveOption, Reason, blank}
use toro.Store.{Store, OwnLimits, Template}
use toro.Scripts.Enqueue.{AddArgs, add_job, Node, node, nil, cons}
use toro.Scripts.Claim.{move_to_active, Limits, acquire_next}
use toro.Scripts.Finish.{Finish, move_to_completed, move_to_failed}
use toro.Scripts.Run.{Reply}
use toro.Placement.{IsPlaced}
use toro.Placement.Trees.{IsFresh}
use toro.Placement.Retries.{IsForest}
use toro.Redis.{lookup}
use toro.Placement.Reach.{Step, IsEmpty, Reachable, Reachable-IsPlaced}

abbrev pub no_limits : OwnLimits
no_limits = record { global_concurrency = none; rl_max = none; rl_duration = none }

abbrev pub empty_store : Store backed
empty_store = record {
  jobs = λ _. none;
  lock = λ _. none;
  active = [];
  prioritized = [];
  delayed = [];
  completed = [];
  failed = [];
  cancelled = [];
  waiting_children = [];
  held = [];
  held_for = λ _. [];
  ck = λ _. none;
  children = [];
  stalled = [];
  stalled_check = false;
  marker = [];
  pc = 0;
  next_id = 0;
  paused = false;
  limits = no_limits;
  limiter = none;
  deps = λ _. [];
  results = λ _ _. none;
  cfail = λ _ _. none;
  ccancel = λ _ _. none;
  live = λ _. [];
  logs = λ _. [];
  fin = λ _ _ _. none;
  dedup = λ _. none;
  add_token = λ _. none;
  model = none;
  repeat = [];
  scheduler = λ _. none;
  totals = [];
  buckets = λ _. [];
  events = [];
  cancel_requests = [];
}

abbrev pub opts : Opts
opts = record { remove_on_complete = RemoveOption.unset; remove_on_fail = RemoveOption.unset }

-- An add with the key 7.
abbrev pub keyed_add : AddArgs
keyed_add = record {
  name = 1;
  data_text = "null";
  opts = opts;
  now = 1000;
  delay = 0;
  priority = 3;
  job_id = none;
  dedup_id = none;
  concurrency_key = some 7;
  token = some 90;
}

-- One job waits with the key 7.
abbrev pub one_waits : Store backed
one_waits = (add_job empty_store keyed_add).0

pub empty_store-IsEmpty : IsEmpty empty_store
empty_store-IsEmpty = record {
  no_job = λ _. refl;
  no_key = λ _. refl;
  nobody_behind = λ _. refl;
  none_active = refl;
  none_waiting = refl;
  none_delayed = refl;
  none_held = refl;
  none_completed = refl;
  none_failed = refl;
  none_cancelled = refl;
  none_parked = refl;
}

pub one_waits-Reachable : Reachable one_waits
one_waits-Reachable =
    Reachable.step empty_store one_waits (Reachable.start empty_store empty_store-IsEmpty)
      (Step.adds keyed_add (λ _. refl))

pub one_waits-IsPlaced : IsPlaced one_waits
one_waits-IsPlaced = Reachable-IsPlaced one_waits one_waits-Reachable

abbrev pub unlimited : Limits
unlimited = record { cap = 2; rl_max = 0; rl_duration = 0 }

-- The job is active, claimed by the worker whose token is 50.
abbrev pub one_runs : Store backed
one_runs = (acquire_next one_waits 50 unlimited 2000).0

pub one_runs-Reachable : Reachable one_runs
unfolding move_to_active add_job
one_runs-Reachable =
    Reachable.step one_waits one_runs one_waits-Reachable
      (Step.claims 50 (some 2) 0 0 2000 (acquire_next one_waits 50 unlimited 2000) refl)

pub one_runs-IsPlaced : IsPlaced one_runs
one_runs-IsPlaced = Reachable-IsPlaced one_runs one_runs-Reachable

-- The run of that claim, which asks for no next job.
abbrev pub its_run : Finish
its_run = record {
  job_id = 1;
  token = 50;
  claim = some 2000;
  now = 3000;
  fetch = false;
  lock_ms = 30000;
  raw_cap = none;
  rl_max = 0;
  rl_duration = 0;
}

-- The same run, as a worker that lost its lock sends it.
abbrev pub lost_run : Finish
lost_run = record {
  job_id = 1;
  token = 51;
  claim = some 2000;
  now = 3000;
  fetch = false;
  lock_ms = 30000;
  raw_cap = none;
  rl_max = 0;
  rl_duration = 0;
}

-- An add that waits half a second.
abbrev pub later_add : AddArgs
later_add = record {
  name = 1;
  data_text = "null";
  opts = opts;
  now = 1000;
  delay = 500;
  priority = 0;
  job_id = none;
  dedup_id = none;
  concurrency_key = none;
  token = none;
}

abbrev pub one_delayed : Store backed
one_delayed = (add_job empty_store later_add).0

pub one_delayed-IsPlaced : IsPlaced one_delayed
one_delayed-IsPlaced = Reachable-IsPlaced one_delayed (
    Reachable.step empty_store one_delayed (Reachable.start empty_store empty_store-IsEmpty)
      (Step.adds later_add (λ _. refl)))

-- A schedule that points at 4000.
abbrev pub scheduled : Store backed
scheduled = record one_waits { repeat = (5, 4000) ∷ [] }

pub scheduled-IsPlaced : IsPlaced scheduled
scheduled-IsPlaced = record { placed = one_waits-IsPlaced.placed; keyed = one_waits-IsPlaced.keyed }

abbrev pub template : Template
template = record {
  name = 2;
  data_text = "null";
  opts = opts;
  priority = 0;
  concurrency_key = some 7;
  every = some 60000;
  cron = none;
}

-- What the run answers when it completes and when it fails.
abbrev pub completed_run : Store backed × Reply
completed_run =
    get_or_else (move_to_completed one_runs its_run "3" true) (one_runs, Reply.lock_lost)

abbrev pub failed_run : Store backed × Reply
failed_run =
    get_or_else (move_to_failed one_runs its_run (Reason.text "boom") none 3 500)
      (one_runs, Reply.lock_lost)

-- A parent with two children of one key.
abbrev pub tree : Node
tree =
    node later_add OnFail.fail_parent
      (cons (node keyed_add OnFail.continue nil) (cons (node keyed_add OnFail.fail_parent nil) nil))

-- A job that failed, alone in its queue.
abbrev pub one_failed : Store backed
one_failed = record empty_store {
  jobs = update (λ _. none) 1 (some (record blank { state = some JobState.failed }));
  failed = (1, 3000) ∷ [];
}

pub one_failed-IsPlaced : IsPlaced one_failed
unfolding lookup count
one_failed-IsPlaced = record {
  placed = λ j. elim (Bool-cases (1 == j)) [ inl e ↦ ground arith | inr e ↦ ground arith ];
  keyed = λ j k. elim (Bool-cases (1 == j)) [ inl e ↦ ground arith | inr e ↦ ground arith ];
}

pub one_failed-IsForest : IsForest one_failed.jobs
one_failed-IsForest = record {
  above = λ i. elim (Bool-cases (1 == i)) [ inl e ↦ rw e tt | inr e ↦ rw e tt ];
}

pub empty_store-IsPlaced : IsPlaced empty_store
empty_store-IsPlaced =
    Reachable-IsPlaced empty_store (Reachable.start empty_store empty_store-IsEmpty)

pub empty_store-IsFresh : IsFresh empty_store
empty_store-IsFresh = record { free = λ n above. refl }
