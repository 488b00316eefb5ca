-- ===== src/Job.antt =====
-- toro/job.py and the fields that the scripts of toro/scripts.py keep in a job's hash. Ids, tokens,
-- names and concurrency keys are texts that the program only compares, and stand here as numbers.
use toro.Prelude.{ℕ, Bool, true, false, Option, none, some, List, String}

pub data JobState : Type 0 where
  wait active delayed held completed failed cancelled waiting_children : JobState

pub data OnFail : Type 0 where
  fail_parent continue : OnFail

-- What Lua's `tonumber` makes of a value: a double, or nil. The scripts tell apart only these.
pub data Number : Type 0 where
  not_a_number nan infinite negative : Number
  finite : ℕ → Number  -- the whole part of a finite double that is not negative

-- What `tonumber` makes of a field of the queue's `meta` hash. An infinity or a fraction, which no
-- call of the library writes there, is not modelled.
pub data Meta : Type 0 where
  not_a_number nan negative : Meta
  whole : ℕ → Meta

-- A decoded JSON value of `removeOnComplete` or `removeOnFail`.
pub data RemoveOption : Type 0 where
  unset : RemoveOption  -- missing, or null
  bool : Bool → RemoveOption
  number : Number → RemoveOption
  table : Number → Number → RemoveOption  -- `count` and `age`
  other : RemoveOption

pub record Opts : Type 0 where
  pub remove_on_complete : RemoveOption
  pub remove_on_fail : RemoveOption

-- Why a job failed or was stopped: a text, or "child <id> failed: " before a reason.
pub data Reason : Type 0 where
  text : String → Reason
  of_child : ℕ → Reason → Reason

-- The hash at `<base><id>`. A field that is missing is `none`; a counter that is missing reads 0.
pub record Job : Type 0 where
  pub name : Option ℕ
  pub data_text : Option String
  pub opts : Option Opts  -- none: unreadable
  pub timestamp : Option ℕ
  pub attempts_made : ℕ
  pub priority : ℕ
  pub delay : ℕ
  pub state : Option JobState
  pub deid : Option ℕ
  pub ckey : Option ℕ
  pub enqueued_on : Option ℕ
  pub processed_on : Option ℕ
  pub finished_on : Option ℕ
  pub returnvalue : Option String
  pub failed_reason : Option Reason
  pub stacktrace : Option String
  pub cancel : Bool
  pub cancel_reason : Option Reason
  pub stalled_counter : ℕ
  pub progress : Option String
  pub parent_id : Option ℕ
  pub on_fail : Option OnFail
  pub root_id : Option ℕ
  pub children : Option (List ℕ)
  pub scheduler_id : Option ℕ

-- What HSET writes into when there is no hash.
abbrev pub blank : Job
blank = record {
  name = none;
  data_text = none;
  opts = none;
  timestamp = none;
  attempts_made = 0;
  priority = 0;
  delay = 0;
  state = none;
  deid = none;
  ckey = none;
  enqueued_on = none;
  processed_on = none;
  finished_on = none;
  returnvalue = none;
  failed_reason = none;
  stacktrace = none;
  cancel = false;
  cancel_reason = none;
  stalled_counter = 0;
  progress = none;
  parent_id = none;
  on_fail = none;
  root_id = none;
  children = none;
  scheduler_id = none;
}

-- Lua `isFinished(state)`, and `FINISHED_STATES`.
abbrev pub is_finished : Option JobState → Bool
is_finished (some JobState.completed) = true
is_finished (some JobState.failed) = true
is_finished (some JobState.cancelled) = true
is_finished _ = false

abbrev pub is_state : JobState → Option JobState → Bool
is_state JobState.wait (some JobState.wait) = true
is_state JobState.active (some JobState.active) = true
is_state JobState.delayed (some JobState.delayed) = true
is_state JobState.held (some JobState.held) = true
is_state JobState.completed (some JobState.completed) = true
is_state JobState.failed (some JobState.failed) = true
is_state JobState.cancelled (some JobState.cancelled) = true
is_state JobState.waiting_children (some JobState.waiting_children) = true
is_state _ _ = false
