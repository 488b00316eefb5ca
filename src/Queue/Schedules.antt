-- ===== src/Queue/Schedules.antt =====
-- toro/queue.py: `_interval_ms`, and the schedules of a queue (`add_scheduler`,
-- `_drop_pending_occurrence`, `_enqueue_occurrence`, `remove_scheduler`). `occurrence` gives the id
-- `repeat:<scheduler>:<slot>`, `read_digits` the number of a text of digits, and `valid_cron` is
-- croniter's test.
pub mod Registered
use toro.Prelude.{
  ℕ, zero, suc, Bool, true, false, not, ◌||◌, String, Option, none, some, update, if◌then◌else◌,
  guard, ◌>>=◌, ◌>>◌,
}
use toro.Redis.{Redis}
use toro.Job.{JobState, is_state}
use toro.Store.{Store, Template, state_of}
use toro.Scripts.Enqueue.{add_scheduled, remove_scheduler}
use toro.Scripts.Remove.{remove_job}
use toro.Client.{next_run}
use toro.Options.Values.{pos, Value, null, int, str}
use toro.Options.Checks.{whole}

-- `_interval_ms`: a text of digits, an int or a whole float, of at least 1.
unfoldable pub interval_ms : (String → Option ℕ) → Value → Option ℕ
unfolding whole
interval_ms read_digits (str s) = do n ← read_digits s; whole (int (pos n)) 1
interval_ms read_digits v = whole v 1

-- The cadence that `add_scheduler` takes: exactly one of an interval and a cron expression.
unfoldable pub check_cadence :
    (String → Option ℕ) → (ℕ → Bool) → Value → Option ℕ → Option (Option ℕ × Option ℕ)
unfolding interval_ms
check_cadence read_digits valid_cron null none = none
check_cadence read_digits valid_cron null (some c) = do guard (valid_cron c); some (none, some c)
check_cadence read_digits valid_cron every none = do
  e ← interval_ms read_digits every
  some (some e, none)
check_cadence read_digits valid_cron every (some c) = none

module _ {R : Redis} where
  -- `_drop_pending_occurrence`: one that has not started.
  unfoldable pub drop_pending : Store R → ℕ → ℕ → Store R
  drop_pending s id now =
      if is_state JobState.delayed (state_of s id) || is_state JobState.held (state_of s id)
      then (remove_job s id now).0
      else s

  abbrev pub drop_previous : (ℕ → ℕ → ℕ) → Store R → ℕ → Option ℕ → ℕ → Store R
  drop_previous occurrence s scheduler none now = s
  drop_previous occurrence s scheduler (some slot) now =
      drop_pending s (occurrence scheduler slot) now

  -- `add_scheduler`, past its checks; none is `next_run`'s ValueError.
  unfoldable pub add_scheduler :
      (ℕ → ℕ → ℕ) → (ℕ → ℕ → ℕ) → Store R → ℕ → Template → ℕ → Option (Store R)
  unfolding next_run drop_pending add_scheduled
  add_scheduler get_next occurrence s scheduler t now = do
    when ← next_run get_next now t.every t.cron
    let previous = R.zscore s.repeat scheduler
    let s1 : Store R = record s {
      scheduler = update s.scheduler scheduler (some t);
      repeat = R.zadd s.repeat when scheduler;
    }
    let s2 = drop_previous occurrence s1 scheduler previous now
    some (add_scheduled s2 (occurrence scheduler when) t now when scheduler).0

  abbrev pub remove_occurrence : (ℕ → ℕ → ℕ) → Store R → ℕ → Option ℕ → ℕ → Store R
  remove_occurrence occurrence s scheduler none now = s
  remove_occurrence occurrence s scheduler (some slot) now =
      (remove_job s (occurrence scheduler slot) now).0

  -- `Queue.remove_scheduler`
  unfoldable pub stop_scheduler : (ℕ → ℕ → ℕ) → Store R → ℕ → ℕ → Store R
  unfolding remove_scheduler
  stop_scheduler occurrence s scheduler now =
      let (s1, slot) = remove_scheduler s scheduler in
      remove_occurrence occurrence s1 scheduler slot now
