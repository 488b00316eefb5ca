-- ===== src/Queue/Names/Keys.antt =====
-- The keys of a queue, less its base, as toro/keys.py and toro/scripts.py build them: the properties of
-- `Keys`, the namespaces, and the hash and the other keys of each job.
use toro.Prelude.{ℕ, List, ◌++◌}
use toro.Options.Values.{codes}

-- The properties of `Keys`.
pub data Own : Type 0 where
  id prioritized marker pc active delayed completed failed waiting_children children roots_scratch
        meta_paused :
      Own
  events limiter cancel cancelled held stalled stalled_check repeat workers departed meta totals :
      Own

unfoldable pub own_name : Own → List ℕ
own_name Own.id = codes "id"
own_name Own.prioritized = codes "prioritized"
own_name Own.marker = codes "marker"
own_name Own.pc = codes "pc"
own_name Own.active = codes "active"
own_name Own.delayed = codes "delayed"
own_name Own.completed = codes "completed"
own_name Own.failed = codes "failed"
own_name Own.waiting_children = codes "waiting-children"
own_name Own.children = codes "children"
own_name Own.roots_scratch = codes "roots-scratch"
own_name Own.meta_paused = codes "meta-paused"
own_name Own.events = codes "events"
own_name Own.limiter = codes "limiter"
own_name Own.cancel = codes "cancel"
own_name Own.cancelled = codes "cancelled"
own_name Own.held = codes "held"
own_name Own.stalled = codes "stalled"
own_name Own.stalled_check = codes "stalled-check"
own_name Own.repeat = codes "repeat"
own_name Own.workers = codes "workers"
own_name Own.departed = codes "departed"
own_name Own.meta = codes "meta"
own_name Own.totals = codes "totals"

-- What is built under the base for each schedule, worker, minute, deduplication, concurrency key (its
-- holder and the queue behind it), call of an add, and finish.
pub data Space : Type 0 where
  scheduler worker metrics_bucket dedup holder behind add_token finish : Space

unfoldable pub space_prefix : Space → List ℕ
space_prefix Space.scheduler = codes "repeat:"
space_prefix Space.worker = codes "worker:"
space_prefix Space.metrics_bucket = codes "metrics:"
space_prefix Space.dedup = codes "de:"
space_prefix Space.holder = codes "ck:"
space_prefix Space.behind = codes "held:"
space_prefix Space.add_token = codes "add:"
space_prefix Space.finish = codes "fin:"

-- The keys of a job beside its hash.
pub data Aux : Type 0 where
  lock logs deps results cfail ccancel live : Aux

unfoldable pub aux_suffix : Aux → List ℕ
aux_suffix Aux.lock = codes ":lock"
aux_suffix Aux.logs = codes ":logs"
aux_suffix Aux.deps = codes ":deps"
aux_suffix Aux.results = codes ":results"
aux_suffix Aux.cfail = codes ":cfail"
aux_suffix Aux.ccancel = codes ":ccancel"
aux_suffix Aux.live = codes ":live"

pub data QueueKey : Type 0 where
  own_key : Own → QueueKey
  spaced : Space → List ℕ → QueueKey
  hash_of : List ℕ → QueueKey
  aux_of : List ℕ → Aux → QueueKey

unfoldable pub key_name : QueueKey → List ℕ
unfolding own_name space_prefix aux_suffix
key_name (QueueKey.own_key k) = own_name k
key_name (QueueKey.spaced space x) = space_prefix space ++ x
key_name (QueueKey.hash_of job) = job
key_name (QueueKey.aux_of job a) = job ++ aux_suffix a
