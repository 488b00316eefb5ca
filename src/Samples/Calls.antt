-- ===== src/Samples/Calls.antt =====
-- The theorems on the queue's and the worker's calls at concrete inputs: batches, finishes through a
-- failing connection, schedules, listings and the end of a run.
use toro.Prelude.{
  ◌/◌, ◌↔◌, Bool-cases, inl, inr, ◌==◌, ℕ, suc, ◌+◌, ◌≡◌, ◌≤◌, ◌<◌, refl, ap, some-inj, ◌⊎◌, true,
  false, none, some, Option, is_some, List, [], ◌∷◌, ◌++◌, arith, length, take, max, update, ◌*◌,
}
use toro.Redis.Backed.{backed}
use toro.Redis.{lookup}
use toro.Job.{blank, JobState, Reason}
use toro.Store.{Store}
use toro.Scripts.Enqueue.{AddArgs}
use toro.Scripts.Roots.{list_roots, roots_counts, range}
use toro.Listing.Count.{roots}
use toro.Listing.Roots.{list_roots-roots, roots_counts-roots, ordered_roots, roots_in}
use toro.Options.Values.{pos, negsuc}
use toro.Queue.Listing.{get_jobs}
use toro.Queue.Listing.Page.{listed, get_jobs-listed}
use toro.Queue.Batch.{subtree_ids}
use toro.Queue.Batch.Walk.{IsMinted, Within, Has, IsBelow, subtree_ids-whole}
use toro.Queue.Pending.{Answer, built, error, flush, deliver, stage_all}
use toro.Queue.Pending.Resend.{IsQuiet, deliver-again}
use toro.Queue.Pending.Unsent.{Sorted, told, flush-unsent}
use toro.Queue.Percentile.{percentile, percentile-rank, sum}
use toro.Worker.Commit.{Attempt, committed}
use toro.Worker.Commit.Once.{RunsOnce, completing, failing, committed-once}
use toro.Worker.Schedules.{schedule_next}
use toro.Worker.Schedules.Advance.{HasCadence, schedule_next-advances}
use toro.Worker.Signals.{
  Runs, request_cancel, ask, cancel, expire, begin_run, run_outcome, returned,
}
use toro.Worker.Signals.History.{Signal, hears, note, IsNew, Happens, History}
use toro.Worker.Signals.Single.{decided, run_outcome-signal}
use toro.Samples.Queues.{empty_store, keyed_add, one_runs, its_run, scheduled, template, one_waits}

abbrev the_job : ℕ
the_job = 1

-- Three jobs of a state, of which the second is a flow's child.
abbrev three : backed.ZSet
three = (1, 10) ∷ (2, 20) ∷ (3, 30) ∷ []

abbrev child_ids : backed.ZSet
child_ids = (2, 0) ∷ []

list_roots-roots_example : list_roots backed three child_ids (pos 0) (negsuc 0) true 2 1000 ≡ (
  length (ordered_roots backed three child_ids true),
  range (ordered_roots backed three child_ids true) (pos 0) (negsuc 0),
)
list_roots-roots_example =
    list_roots-roots backed three child_ids (pos 0) (negsuc 0) true 2 1000 (ground arith)

roots_counts-roots_example :
    roots_counts backed one_runs 500
    ≡ roots_in backed one_runs one_runs.prioritized
      ∷ roots_in backed one_runs one_runs.delayed
      ∷ roots_in backed one_runs one_runs.completed
      ∷ roots_in backed one_runs one_runs.failed
      ∷ roots_in backed one_runs one_runs.waiting_children
      ∷ roots_in backed one_runs one_runs.held
      ∷ roots_in backed one_runs one_runs.cancelled
      ∷ length (roots (backed.zscore one_runs.children) one_runs.active)
      ∷ []
roots_counts-roots_example = roots_counts-roots backed one_runs 500 (ground arith)

get_jobs-listed_example :
    get_jobs one_waits JobState.wait (pos 0) (negsuc 0)
    ≡ range (listed backed one_waits JobState.wait) (pos 0) (negsuc 0)
get_jobs-listed_example = get_jobs-listed backed one_waits JobState.wait (pos 0) (negsuc 0)

-- A parent and its two children.
abbrev two_below : Store backed
two_below = record empty_store {
  jobs = update (λ _. none) 1 (some (record blank { children = some (2 ∷ 3 ∷ []) }));
  next_id = 3;
}

two_below-IsMinted : IsMinted two_below
unfolding Within
two_below-IsMinted id = elim (Bool-cases (1 == id)) [
  | inl e ↦
      let same : 1 ≡ id = ground arith in
      rw (e, Within) (omega (arith, same), omega arith, (omega (arith, same), omega arith, tt))
  | inr e ↦ rw (e, Within) tt
]

subtree_ids-whole_example : Has 3 (subtree_ids 4 two_below (1 ∷ [])) ↔ IsBelow two_below 1 3
subtree_ids-whole_example = subtree_ids-whole two_below 1 3 two_below-IsMinted (omega arith)

-- Two adds, each with a token.
abbrev two_adds : List AddArgs
two_adds = keyed_add ∷ record keyed_add { token = some 91 } ∷ []

deliver-again_example :
    IsQuiet (deliver empty_store two_adds).0 (deliver (deliver empty_store two_adds).0 two_adds).0
deliver-again_example =
    deliver-again empty_store two_adds
      ((90, refl, ((λ e. omega (arith, some-inj e)), tt)), ((91, refl, tt), tt))

-- Three calls, of which the second one's script fails.
abbrev stage : ℕ → Option ℕ
stage n = some n

abbrev send : List ℕ → Option (List (Answer ℕ))
send staged = some (built 10 ∷ error 5 ∷ built 12 ∷ [])

abbrev batch : List ℕ
batch = 0 ∷ 1 ∷ 2 ∷ []

flush-unsent_example :
    (((flush stage true batch (3 ∷ []) send).0 ≡ batch ++ (3 ∷ []))
      × (told (flush stage true batch (3 ∷ []) send).1 ≡ [])
      × ((stage_all stage batch ≡ none)
          ⊎ ((true ≡ false)
              ⊎ ((staged : List ℕ) × (stage_all stage batch ≡ some staged)
                  × (send staged ≡ none)))))
    ⊎ ((staged : List ℕ) × (replies : List (Answer ℕ)) × (kept : List ℕ) × (send staged
          ≡ some replies)
        × Sorted batch replies kept (told (flush stage true batch (3 ∷ []) send).1)
        × ((flush stage true batch (3 ∷ []) send).0 ≡ kept ++ (3 ∷ [])))
flush-unsent_example =
    flush-unsent stage true 0 (1 ∷ 2 ∷ []) (3 ∷ []) send
      (λ staged replies e. ap length (some-inj e))

abbrev histogram : List ℕ
histogram = 1 ∷ 2 ∷ 1 ∷ []

percentile-rank_example :
    (k : ℕ) × (percentile (λ b. b * 100) histogram 50 ≡ k * 100)
    × (k < length histogram)
    × (100 * sum (take k histogram) < sum histogram * 50)
    × (sum histogram * 50 ≤ 100 * sum (take (suc k) histogram))
unfolding sum
percentile-rank_example =
    percentile-rank (λ b. b * 100) histogram 50 (ground arith) (ground arith) (ground arith)

-- The script runs, its reply is lost, and the second attempt is answered.
abbrev lost_reply : List Attempt
lost_reply =
    record { ran = true; heard = false; now = 3000; clock = 100 }
    ∷ record { ran = true; heard = true; now = 3400; clock = 500 }
    ∷ []

committed-once_example :
    RunsOnce
      (completing its_run "3" true)
      one_runs
      (committed (completing its_run "3" true) 15000 true lost_reply one_runs)
    × RunsOnce
        (failing its_run (Reason.text "boom") none 3 500)
        one_runs
        (committed (failing its_run (Reason.text "boom") none 3 500) 15000 true lost_reply one_runs)
committed-once_example =
    committed-once its_run "3" true (Reason.text "boom") none 3 500 15000 true lost_reply one_runs
      refl

-- The schedule 5 with its template, whose occurrence of 4000 was queued.
abbrev with_template : Store backed
with_template = record scheduled { scheduler = update (λ _. none) 5 (some template) }

abbrev occurrence : ℕ → ℕ → ℕ
occurrence scheduler slot = 100000 + slot

abbrev next_date : ℕ → ℕ → ℕ
next_date pattern time = (time / 1000000 + 1) * 1000000

schedule_next-advances_example :
    (u : Store backed) × (when : ℕ) × (schedule_next next_date occurrence with_template 5 4000 4100
      ≡ some u)
    × (max 4100 4000 < when)
    × (backed.zscore u.repeat 5 ≡ some when)
    × (is_some (u.jobs (occurrence 5 when)) ≡ true)
    × ((later : ℕ) → schedule_next next_date occurrence u 5 4000 later ≡ some u)
unfolding lookup
schedule_next-advances_example =
    schedule_next-advances next_date occurrence with_template 5 4000 4100 template
      (λ pattern time. (omega arith, omega arith)) refl refl (HasCadence.interval 59999 refl)

-- A worker before its first run.
abbrev idle : Runs
idle = record {
  processors = λ _. none;
  cancelling = λ _. none;
  expired = λ _. false;
  done = λ _. false;
  cancels = λ _. 0;
}

-- One run of the job 1, by the task 7 under the claim 2000; a request for it, then its timeout.
abbrev running : Runs
running = begin_run idle 1 7 2000

abbrev asked_then_late : Runs
asked_then_late = expire (request_cancel true running 1 (some 2000)) 1 7

-- What each task was given first.
abbrev nobody : ℕ → Option Signal
nobody _ = none

abbrev its_first : ℕ → Option Signal
its_first = note (hears running nobody 1 (some 2000)) 7 Signal.times_out

idle-IsNew : IsNew idle nobody 7
idle-IsNew = record {
  unsent = refl;
  in_time = refl;
  free = λ job claim e. cc e;
  unasked = λ job e. cc e;
  unsignalled = refl;
}

asked_then_late-History : History true asked_then_late its_first
unfolding request_cancel ask begin_run cancel
asked_then_late-History =
    History.next (request_cancel true running 1 (some 2000)) asked_then_late
      (hears running nobody 1 (some 2000)) its_first
      (History.next running (request_cancel true running 1 (some 2000)) nobody
        (hears running nobody 1 (some 2000))
        (History.next idle running nobody nobody (History.start idle (λ _. refl) (λ _. refl))
          (Happens.begins 1 7 2000 refl idle-IsNew))
        (Happens.requests 1 (some 2000)))
      (Happens.expires 1 7 2000 refl refl)

run_outcome-signal_example :
    (asked_then_late.cancels 7 ≤ 1)
    × (run_outcome asked_then_late 1 7 (returned true) false true
        ≡ decided (its_first 7) (returned true))
unfolding request_cancel ask begin_run cancel expire
run_outcome-signal_example =
    run_outcome-signal true asked_then_late its_first 1 7 2000 (returned true)
      asked_then_late-History refl
