-- ===== src/Samples/Checks.antt =====
-- The theorems on what a caller passes in, at concrete inputs: options, names, limits and flows.
use toro.Prelude.{◌+◌, ◌≡◌, ◌≤◌, ◌↔◌, refl, true, false, is_some, none, some, Option}
use toro.Redis.Backed.{backed}
use toro.Store.{Store}
use toro.Job.{OnFail}
use toro.Scripts.Claim.{Limits, own_limits}
use toro.Options.Values.{pos, null, int, float, finite, str, dict, Dict, empty, entry, codes}
use toro.Options.Checks.{whole}
use toro.Options.Record.{JobOptions, to_dict, from_dict, job_options}
use toro.Options.RoundTrip.{from_dict-to_dict}
use toro.Options.Whole.{Means, whole_iff}
use toro.Queue.Limits.{set_limits, limits, shown, Asked, AskedRate, set_limits-limits}
use toro.Queue.Names.{
  custom_job_id, job_id_conflict, among, namespace_conflict, suffix_conflict, base,
}
use toro.Queue.Names.Keys.{QueueKey, Aux, key_name}
use toro.Queue.Names.Clear.{is_decimal}
use toro.Queue.Names.Free.{IsKey, custom_job_id-IsFree}
use toro.Queue.Names.Bases.{base-inj}
use toro.Queue.Tree.{
  Flows, child, with, none_more, Payload, payload, end, stage_flow, count_flows, has_children,
  max_flow_nodes,
}
use toro.Queue.Tree.Staged.{IsRunnable, size, stage_flow-IsRunnable}
use toro.Samples.Queues.{empty_store, one_waits}

abbrev or_else {ℓ} : {A : Type ℓ} → Option A → A → A
or_else none d = d
or_else (some a) d = a

given {ℓ} : {A : Type ℓ} (o : Option A) (d : A) → is_some o ≡ true → o ≡ some (or_else o d)
given none d e = cc e
given (some a) d e = refl

-- A queue whose jobs have three attempts, and a call with an exponential backoff.
abbrev defaults : Dict
defaults = entry "attempts" (int (pos 3)) (entry "remove_on_fail" (int (pos 100)) empty)

abbrev asked_for : Dict
asked_for =
    entry "backoff"
      (dict (entry "type" (str "exponential") (entry "delay" (float (finite false 500 0)) empty)))
      (entry "concurrency_key" (str "tenant-7") (entry "timeout" (int (pos 60000)) empty))

abbrev no_options : JobOptions
no_options = record {
  delay = 0;
  attempts = 0;
  backoff = null;
  priority = 0;
  remove_on_complete = null;
  remove_on_fail = null;
  concurrency_key = none;
  timeout = none;
}

abbrev accepted : JobOptions
accepted = or_else (job_options defaults asked_for) no_options

from_dict-to_dict_example : from_dict (to_dict accepted) ≡ some accepted
unfolding job_options
from_dict-to_dict_example =
    from_dict-to_dict defaults asked_for accepted
      (given (job_options defaults asked_for) no_options refl)

-- 2.0 is a float that equals an int.
whole_iff_example :
    (whole (float (finite false 4 1)) 1 ≡ some 2) ↔ (Means (float (finite false 4 1)) 2 × (1 ≤ 2))
whole_iff_example = whole_iff (float (finite false 4 1)) 1 2

abbrev two_a_second : Dict
two_a_second = entry "max" (int (pos 2)) (entry "duration" (int (pos 1000)) empty)

abbrev limited : Store backed
limited = or_else (set_limits empty_store (int (pos 4)) (some two_a_second)) one_waits

set_limits-limits_example :
    (l : Limits) × Asked (int (pos 4)) l.cap
    × AskedRate (some two_a_second) l
    × (limits limited.limits ≡ some (some (shown l)))
    × ((w : Limits) → own_limits limited.limits w ≡ some l)
unfolding set_limits
set_limits-limits_example =
    set_limits-limits empty_store limited (int (pos 4)) (some two_a_second)
      (given (set_limits empty_store (int (pos 4)) (some two_a_second)) one_waits refl)

custom_job_id-IsFree_example :
    (codes "order-7" ≡ codes "order-7")
    × ((k : QueueKey)
        → IsKey is_decimal k
        → key_name k ≡ key_name (QueueKey.hash_of (codes "order-7"))
        → k ≡ QueueKey.hash_of (codes "order-7"))
    × ((k : QueueKey) (a : Aux)
        → IsKey is_decimal k
        → key_name k ≡ key_name (QueueKey.aux_of (codes "order-7") a)
        → k ≡ QueueKey.aux_of (codes "order-7") a)
unfolding custom_job_id job_id_conflict among namespace_conflict suffix_conflict
custom_job_id-IsFree_example =
    custom_job_id-IsFree is_decimal (codes "order-7") (codes "order-7") (λ c d. d) refl

base-inj_example : (codes "mail" ≡ codes "mail") × (codes "app:eu" ≡ codes "app:eu")
unfolding base
base-inj_example =
    base-inj (codes "mail") (codes "mail") (codes "app:eu") (codes "app:eu") (codes "app:eu:mail:")
      refl refl

-- A flow of two steps; the second one is delayed.
abbrev steps : Flows
steps = with (child (str "fetch") empty OnFail.fail_parent none_more) (
    with (child (str "render") (entry "delay" (int (pos 50)) empty) OnFail.continue none_more)
      none_more)

abbrev no_payload : Payload
no_payload = payload no_options OnFail.fail_parent end

abbrev staged : Payload
staged = or_else (stage_flow defaults (str "report") empty steps) no_payload

stage_flow-IsRunnable_example :
    IsRunnable staged
    × (size staged ≡ 1 + count_flows steps)
    × (size staged ≤ max_flow_nodes)
    × (has_children steps ≡ true)
unfolding stage_flow
stage_flow-IsRunnable_example =
    stage_flow-IsRunnable defaults empty (str "report") steps staged
      (given (stage_flow defaults (str "report") empty steps) no_payload refl)
