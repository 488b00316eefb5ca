-- ===== src/Options/Record.antt =====
-- `JobOptions` of toro/job.py: `__post_init__`, `to_dict` and `from_dict`; the merge of a call's
-- options over the queue's defaults, `Queue._job_options` of toro/queue.py.
use text.Mathlib.Text.{◌==◌}
use toro.Prelude.{ℕ, String, Bool, ◌||◌, Option, none, some, guard, ◌>>=◌, ◌>>◌}
use toro.Client.{clamp_priority}
use toro.Options.Values.{pos, Value, null, int, str, Dict, empty, entry, get, merge, all_keys}
use toro.Options.Checks.{key_segment, whole, backoff, retention}

pub record JobOptions : Type 0 where
  pub delay : ℕ
  pub attempts : ℕ
  pub backoff : Value
  pub priority : ℕ
  pub remove_on_complete : Value
  pub remove_on_fail : Value
  pub concurrency_key : Option String
  pub timeout : Option ℕ

-- The fields as a caller gives them, with the defaults of the class filled in.
pub record Given : Type 0 where
  pub delay : Value
  pub attempts : Value
  pub backoff : Value
  pub priority : Value
  pub remove_on_complete : Value
  pub remove_on_fail : Value
  pub concurrency_key : Value
  pub timeout : Value

-- `if self.timeout is not None: ...`
unfoldable pub check_timeout : Value → Option (Option ℕ)
unfolding whole
check_timeout null = some none
check_timeout v = do n ← whole v 1; some (some n)

-- `__post_init__`
unfoldable pub post_init : Given → Option JobOptions
unfolding key_segment whole backoff retention check_timeout
post_init g = do
  key ← key_segment g.concurrency_key
  wait ← whole g.delay 0
  tries ← whole g.attempts 1
  rank ← whole g.priority 0
  again ← backoff g.backoff
  completed ← retention g.remove_on_complete
  failed ← retention g.remove_on_fail
  limit ← check_timeout g.timeout
  some (record {
    delay = wait;
    attempts = tries;
    backoff = again;
    priority = rank;
    remove_on_complete = completed;
    remove_on_fail = failed;
    concurrency_key = key;
    timeout = limit;
  })

abbrev pub text_or_null : Option String → Value
text_or_null none = null
text_or_null (some s) = str s

abbrev pub int_or_null : Option ℕ → Value
int_or_null none = null
int_or_null (some n) = int (pos n)

unfoldable pub to_dict : JobOptions → Dict
to_dict o = entry "delay" (int (pos o.delay)) (
    entry "attempts" (int (pos o.attempts)) (
      entry "backoff" o.backoff (
        entry "priority" (int (pos o.priority)) (
          entry "removeOnComplete" o.remove_on_complete (
            entry "removeOnFail" o.remove_on_fail (
              entry "concurrencyKey" (text_or_null o.concurrency_key)
                (entry "timeout" (int_or_null o.timeout) empty)))))))

unfoldable pub given_of_dict : Dict → Given
unfolding get
given_of_dict d = record {
  delay = get "delay" (int (pos 0)) d;
  attempts = get "attempts" (int (pos 1)) d;
  backoff = get "backoff" null d;
  priority = get "priority" (int (pos 0)) d;
  remove_on_complete = get "removeOnComplete" null d;
  remove_on_fail = get "removeOnFail" null d;
  concurrency_key = get "concurrencyKey" null d;
  timeout = get "timeout" null d;
}

unfoldable pub from_dict : Dict → Option JobOptions
unfolding given_of_dict post_init
from_dict d = post_init (given_of_dict d)

-- The names that `JobOptions(**opts)` takes; any other is a TypeError.
abbrev pub is_option : String → Bool
is_option k =
    (k == "delay" || k == "attempts" || k == "backoff" || k == "priority")
    || (k == "remove_on_complete"
        || k == "remove_on_fail"
        || k == "concurrency_key"
        || k == "timeout")

unfoldable pub given_of_keywords : Dict → Given
unfolding get
given_of_keywords d = record {
  delay = get "delay" (int (pos 0)) d;
  attempts = get "attempts" (int (pos 1)) d;
  backoff = get "backoff" null d;
  priority = get "priority" (int (pos 0)) d;
  remove_on_complete = get "remove_on_complete" null d;
  remove_on_fail = get "remove_on_fail" null d;
  concurrency_key = get "concurrency_key" null d;
  timeout = get "timeout" null d;
}

-- `JobOptions(**opts)`
unfoldable pub of_keywords : Dict → Option JobOptions
unfolding all_keys post_init given_of_keywords
of_keywords d = do guard (all_keys is_option d); post_init (given_of_keywords d)

-- `Queue._job_options`, over the queue's defaults.
unfoldable pub job_options : Dict → Dict → Option JobOptions
unfolding merge of_keywords clamp_priority
job_options defaults opts = do
  o ← of_keywords (merge defaults opts)
  some (record o { priority = clamp_priority o.priority })
