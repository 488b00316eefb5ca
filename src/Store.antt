-- ===== src/Store.antt =====
-- One queue's keys (toro/keys.py), as the scripts of toro/scripts.py read and write them. The
-- sorted sets are those of the interface `Redis`; a list is a list, a set of ids a list without
-- order, a hash or a family of keys a function. Times to live are not kept: a key that has one may
-- go at any moment, which is a step of the environment.
use toro.Prelude.{ℕ, Bool, Option, some, List, ◌∷◌, String, update, get_or_else}
use toro.Redis.{Redis}
use toro.Job.{Job, JobState, Meta, Opts, Reason, blank}

-- The outcomes that `totals` and the metrics buckets count.
pub data Outcome : Type 0 where
  added completed failed cancelled : Outcome

-- A field of a metrics bucket.
pub data Field : Type 0 where
  of : Outcome → Field
  ms : Field
  named : Outcome → ℕ → Field
  ms_named : ℕ → Field
  hist : ℕ → ℕ → Field
  flows_completed flows_failed : Field
  flow_hist : ℕ → Field

-- A message on the `events` channel.
pub data Event : Type 0 where
  job_added : ℕ → Event
  job_completed : ℕ → Option String → Event
  job_failed : ℕ → Reason → Event
  job_cancelled : ℕ → Option Reason → Event
  job_progress : ℕ → Event

-- What `rememberFinish` records under a run.
pub record Memo : Type 0 where
  pub outcome : ℕ
  pub next_id : Option ℕ

-- The token bucket's hash: `tokens` as an exact fraction, and `ts`.
pub record Bucket : Type 0 where
  pub num : ℕ
  pub den : ℕ
  pub ts : ℕ

-- A scheduler's template: what an occurrence is made from, and its cadence.
pub record Template : Type 0 where
  pub name : ℕ
  pub data_text : String
  pub opts : Opts
  pub priority : ℕ
  pub concurrency_key : Option ℕ
  pub every : Option ℕ
  pub cron : Option ℕ

-- The limits in the queue's `meta` hash.
pub record OwnLimits : Type 0 where
  pub global_concurrency : Option Meta
  pub rl_max : Option Meta
  pub rl_duration : Option Meta

pub record Store (R : Redis) : Type 0 where
  pub jobs : ℕ → Option Job  -- <id>
  pub lock : ℕ → Option ℕ  -- <id>:lock
  pub active : List ℕ
  pub prioritized : R.ZSet
  pub delayed : R.ZSet
  pub completed : R.ZSet
  pub failed : R.ZSet
  pub cancelled : R.ZSet
  pub waiting_children : R.ZSet
  pub held : R.ZSet
  pub held_for : ℕ → R.ZSet  -- held:<key>
  pub ck : ℕ → Option ℕ  -- ck:<key>
  pub children : R.ZSet
  pub stalled : List ℕ
  pub stalled_check : Bool
  pub marker : R.ZSet  -- the members "0" and "1"
  pub pc : ℕ
  pub next_id : ℕ  -- id
  pub paused : Bool  -- meta-paused
  pub limits : OwnLimits  -- in meta
  pub limiter : Option Bucket
  pub deps : ℕ → List ℕ  -- <id>:deps
  pub results : ℕ → ℕ → Option String  -- <id>:results
  pub cfail : ℕ → ℕ → Option Reason  -- <id>:cfail
  pub ccancel : ℕ → ℕ → Option Reason  -- <id>:ccancel
  pub live : ℕ → R.ZSet  -- <id>:live
  pub logs : ℕ → List String  -- <id>:logs
  pub fin : ℕ → ℕ → Option ℕ → Option Memo  -- fin:<token>:<job>:<claim>
  pub dedup : ℕ → Option ℕ  -- de:<id>
  pub add_token : ℕ → Option ℕ  -- add:<token>
  pub model : Option ℕ  -- in meta
  pub repeat : R.ZSet
  pub scheduler : ℕ → Option Template  -- repeat:<id>
  pub totals : List (Field × ℕ)
  pub buckets : ℕ → List (Field × ℕ)  -- metrics:<minute>
  pub events : List Event  -- what was published, newest first
  pub cancel_requests : List (ℕ × Option ℕ)  -- what was published on `cancel`

module _ {R : Redis} where
  -- A field of a job's hash, read: HGET.
  abbrev pub hget {ℓ} : {A : Type ℓ} → Store R → ℕ → (Job → A) → A
  hget s id f = f (get_or_else (s.jobs id) blank)

  -- HSET on a job's hash, which makes the hash where there is none.
  abbrev pub hset : Store R → ℕ → (Job → Job) → Store R
  hset s id f = record s { jobs = update s.jobs id (some (f (get_or_else (s.jobs id) blank))) }

  abbrev pub state_of : Store R → ℕ → Option JobState
  state_of s id = hget s id (λ j. j.state)

  abbrev pub publish : Store R → Event → Store R
  publish s e = record s { events = e ∷ s.events }
