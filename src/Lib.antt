-- ===== src/Lib.antt =====
-- toro, a job queue on Redis, with asyncio workers in Python.
-- The queue's state lives in Redis and moves only by the Lua scripts of toro/scripts.py, which Redis
-- runs one at a time; the client (toro/queue.py), the workers (toro/worker.py) and the schedules
-- (toro/scheduler.py) call them. This library models those scripts, routine by routine, over a record
-- of one queue's keys; of the client, what it takes in (options, names, limits, flows), its batches,
-- listings and schedules; of a worker, how a run is signalled, ends and is committed. Nothing is proved
-- of what runs between two scripts but what the steps of Placement/Reach.antt name.
--
-- The parts:
-- - Redis.antt: sorted sets, as an interface of operations with their documented laws, and the
--   logarithm that the histograms ask for; Redis/Backed.antt fills it with lists, for the examples.
-- - Job.antt and Store.antt: a job's hash (toro/job.py) and one queue's keys (toro/keys.py), one field
--   for each key or family of keys.
-- - Scripts: one file for each group of routines of toro/scripts.py, one definition for each routine
--   and script, named after it in snake case (`moveToActive` is `move_to_active`). A loop's body and a
--   branch that is long have a definition of their own. Scripts/Order: priorityScore, enqueue, wakeAt,
--   park, promoteDue. Scripts/Keyed: takeKey, releaseKey, unkey. Scripts/Run: recallFinish,
--   rememberFinish, claimedBy, releaseRun, lockAndLoad. Scripts/Claim: tryRateLimit, acquireNext,
--   requireCap, ownLimits, MOVE_TO_ACTIVE, EXTEND_LOCK. Scripts/Metrics: histIdx, recordMetrics,
--   recordFlow. Scripts/Retention: keepFor, delJobs, removeFinished, the trims, recordFinished.
--   Scripts/Flow: releaseParent, settleChildCompleted, settleChildGone. Scripts/Enqueue: ADD_JOB,
--   ADD_FLOW, ADD_SCHEDULED, REMOVE_SCHEDULER. Scripts/Finish: MOVE_TO_COMPLETED, MOVE_TO_FAILED,
--   MOVE_TO_CANCELLED, RELEASE_JOB. Scripts/Admin, Remove, Cancel, Stalled: the scripts of the
--   dashboard, CANCEL_JOB and MOVE_STALLED. Scripts/Roots: walk, present, countRoots, LIST_ROOTS,
--   ROOTS_COUNTS.
-- - Placement: the invariant that a job stands in the one collection that its state names and a
--   concurrency key with its holder, kept by one operation after another; Placement/Reach has the
--   steps from an empty queue, one for each script that writes, the writes of the client to a queue's
--   schedules, and what happens between two.
-- - Ordering, Claiming, Runs, Limiting, Counting, Adding, Barrier, Keeping: what single scripts promise.
-- - Listing: the roots' scripts against one listing of the jobs that are no children.
-- - Client.antt: next_run, compute_backoff, block_for and clamp_priority.
-- - Options: the options of a job (toro/job.py). Options/Values has the Python values that a caller may
--   pass, Options/Checks `key_segment`, `_whole`, `_job_name`, `_backoff`, `_share` and `_retention`,
--   Options/Record `JobOptions` with `to_dict` and `from_dict`, and `Queue._job_options`.
-- - Queue: toro/queue.py and what it calls. Queue/Limits: `limit_fields` (toro/limits.py), `set_limits`
--   and `limits`. Queue/Names: `Keys._check`, the base and `job_id_conflict` (toro/keys.py),
--   `_custom_job_id`. Queue/Tree: `FlowChild`, `node_options`, `to_tree` (toro/flow.py), `_stage_flow`.
--   Queue/Pending: `PendingJobs.flush`. Queue/Listing: `get_jobs`, `_newest_finished`, `_ids`.
--   Queue/Batch: `clean`, `retry_all_failed`, `retry_flow`, `pause`, `resume`. Queue/Schedules:
--   `add_scheduler`, `remove_scheduler`. Queue/Percentile: `_percentile`.
-- - Worker: toro/worker.py. Worker/Commit: `_committed`, which re-sends a finish script through a failing
--   connection. Worker/Schedules: `_schedule_next`, `_resume_orphaned_schedules`. Worker/Signals:
--   `_request_cancel`, the timer of `_arm_timeout`, and how a run ends, `_outcome`.
-- - Samples: a queue in a few states, and each theorem at one of them.
--
-- How the code is read: ids, tokens, names and concurrency keys, which the program only compares, are
-- numbers, and so are milliseconds; a missing field is `none`. The doubles of the token bucket are
-- exact fractions, so that nothing is stated of how long a worker is to wait for a token: in doubles it
-- may be told to wait once more. An error that a script raises before its first write is `none`. Times to live are
-- not kept: a key that has one may go between two scripts. The walks over a flow take fuel: a minted
-- id is above its parent's, so a walk up from an id has no more steps than the id, and a walk down no
-- more levels than ids were minted; that the fuel is enough is proved of the walk up to the root,
-- of the client's walk down a flow (`_subtree_ids`) and of the walks of LIST_ROOTS and ROOTS_COUNTS, which
-- go by chunks, and of no other. Custom ids are
-- numbers of the same kind, and where an add mints an id the theorems ask for it to be free
-- (`Queue._custom_job_id` refuses a custom id made of digits). That a child's id is above its parent's,
-- which holds as ADD_FLOW mints them, is a hypothesis where RETRY_JOB walks down a flow.
--
-- In Options, Queue/Names and Queue/Tree texts are texts, a refusal is `none`, whatever its exception
-- and message, and a float is a whole number over a power of two, an infinity or a NaN. What is not of
-- this repository is an argument: croniter's test and next date, Unicode's test of a digit, the reading
-- of a text of digits. So are the ids of a schedule's occurrences, the calls of a batch and the replies
-- to it, and `bucket_estimate_ms`, which is arithmetic on doubles. A call of the client that runs several
-- scripts runs them one after another, with nothing of another client between. An
-- attempt of a worker's finish runs its script at most once, and no other script between two attempts:
-- what the connection re-sends by itself (toro/connection.py) is not an attempt of its own. A worker's
-- runs are those of a worker that begins no run of a job while it still has one of it.
--
-- Not modelled: the round trips, pub/sub and futures of toro/queue.py and toro/worker.py, the loops and
-- heartbeats of a worker, toro/connection.py and toro/_replies.py, which are I/O; the hydration of jobs,
-- the readers of counters, of workers and of flows, and the arguments that `_stage_add` makes for its script; the rendering of toro/openmetrics.py; the dashboard, the bench and the examples.
pub mod Prelude
pub mod Redis
pub mod Job
pub mod Store
pub mod Scripts
pub mod Placement
pub mod Ordering
pub mod Claiming
pub mod Runs
pub mod Limiting
pub mod Counting
pub mod Adding
pub mod Barrier
pub mod Keeping
pub mod Listing
pub mod Client
pub mod Options
pub mod Queue
pub mod Worker
pub mod Samples
