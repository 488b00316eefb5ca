-- ===== src/Queue/Schedules/Registered.antt =====
-- toro/queue.py: what a schedule that was accepted is, and what registering one keeps.
use toro.Prelude.{
  ℕ, zero, suc, ◌≤◌, ◌≡◌, sym, ap, subst, inl, inr, Bool, ◌||◌, String, Option, none, some, update,
  bind-some, guard-some, some-inj, arith, Bool-cases,
}
use toro.Redis.{Redis}
use toro.Job.{JobState, is_state}
use toro.Store.{Store, Template, state_of}
use toro.Scripts.Enqueue.{remove_scheduler}
use toro.Placement.{IsPlaced}
use toro.Placement.Adds.{add_scheduled-IsPlaced}
use toro.Placement.Actions.{remove_job-IsPlaced}
use toro.Client.{next_run}
use toro.Options.Values.{Value, null, int, str, pos}
use toro.Options.Checks.{whole}
use toro.Options.Whole.{whole_iff}
use toro.Worker.Schedules.Advance.{HasCadence}
use toro.Queue.Schedules.{
  interval_ms, check_cadence, drop_pending, drop_previous, add_scheduler, remove_occurrence,
  stop_scheduler,
}

module _ {R : Redis} where
  drop_pending-IsPlaced : (s : Store R) (id now : ℕ) → IsPlaced s → IsPlaced (drop_pending s id now)
  unfolding drop_pending
  drop_pending-IsPlaced s id now h =
      elim (Bool-cases
        (is_state JobState.delayed (state_of s id) || is_state JobState.held (state_of s id))) [
          | inl waits ↦ rw waits (remove_job-IsPlaced s id now h)
          | inr other_state ↦ rw other_state h
        ]

  drop_previous-IsPlaced :
      (occurrence : ℕ → ℕ → ℕ) (s : Store R) (scheduler : ℕ) (slot : Option ℕ) (now : ℕ)
      → IsPlaced s
      → IsPlaced (drop_previous occurrence s scheduler slot now)
  drop_previous-IsPlaced occurrence s scheduler none now h = h
  drop_previous-IsPlaced occurrence s scheduler (some slot) now h =
      drop_pending-IsPlaced s (occurrence scheduler slot) now h

  remove_occurrence-IsPlaced :
      (occurrence : ℕ → ℕ → ℕ) (s : Store R) (scheduler : ℕ) (slot : Option ℕ) (now : ℕ)
      → IsPlaced s
      → IsPlaced (remove_occurrence occurrence s scheduler slot now)
  remove_occurrence-IsPlaced occurrence s scheduler none now h = h
  remove_occurrence-IsPlaced occurrence s scheduler (some slot) now h =
      remove_job-IsPlaced s (occurrence scheduler slot) now h

  -- Registering a schedule, anew or over one with a queued occurrence, and stopping one, leave each job
  -- in the one collection that its state names and each concurrency key with its holder.
  pub add_scheduler-IsPlaced :
      (get_next occurrence : ℕ → ℕ → ℕ) (s u : Store R) (scheduler : ℕ) (t : Template) (now : ℕ)
      → IsPlaced s
      → add_scheduler get_next occurrence s scheduler t now ≡ some u
      → IsPlaced u × IsPlaced (stop_scheduler occurrence u scheduler now)
  unfolding add_scheduler stop_scheduler remove_scheduler
  add_scheduler-IsPlaced get_next occurrence s u scheduler t now h e =
      let (when, runs, is) = bind-some (next_run get_next now t.every t.cron) _ u e in
      let s1 : Store R = record s {
        scheduler = update s.scheduler scheduler (some t);
        repeat = R.zadd s.repeat when scheduler;
      } in
      let s2 = drop_previous occurrence s1 scheduler (R.zscore s.repeat scheduler) now in
      let h2 =
        drop_previous-IsPlaced occurrence s1 scheduler (R.zscore s.repeat scheduler) now
          (record { placed = h.placed; keyed = h.keyed }) in
      let hu : IsPlaced u =
        subst IsPlaced (some-inj is)
          (add_scheduled-IsPlaced s2 (occurrence scheduler when) t now when scheduler h2) in
      (
        hu,
        remove_occurrence-IsPlaced occurrence (remove_scheduler u scheduler).0 scheduler
            (R.zscore u.repeat scheduler) now (record { placed = hu.placed; keyed = hu.keyed }),
      )

positive : (v : Value) (n : ℕ) → whole v 1 ≡ some n → 1 ≤ n
positive v n h = ((whole_iff v 1 n).0 h).1

interval_ms-positive :
    (read_digits : String → Option ℕ) (v : Value) (n : ℕ)
    → interval_ms read_digits v ≡ some n
    → 1 ≤ n
unfolding interval_ms
interval_ms-positive read_digits (str s) n h =
    let (k, ok, h1) = bind-some (read_digits s) _ n h in positive (int (pos k)) n h1
interval_ms-positive read_digits v n h = positive v n h

by_interval : (t : Template) (n : ℕ) → 1 ≤ n → some n ≡ t.every → HasCadence t
by_interval t zero p e = absurd (omega arith)
by_interval t (suc n) p e = HasCadence.interval n (sym e)

pair-parts : {x y : Option ℕ × Option ℕ} → some x ≡ some y → (x.0 ≡ y.0) × (x.1 ≡ y.1)
pair-parts e = let p = some-inj e in (ap (λ x. x.0) p, ap (λ x. x.1) p)

-- A cadence that `add_scheduler` accepts is one that every later occurrence can follow: an interval of
-- at least a millisecond, or a cron expression that croniter takes.
pub check_cadence-HasCadence :
    (read_digits : String → Option ℕ) (valid_cron : ℕ → Bool) (every : Value) (cron : Option ℕ)
    (t : Template)
    → check_cadence read_digits valid_cron every cron ≡ some (t.every, t.cron)
    → HasCadence t
unfolding check_cadence
check_cadence-HasCadence read_digits valid_cron null none t h = cc h
check_cadence-HasCadence read_digits valid_cron null (some c) t h =
    let (good, is) = guard-some (valid_cron c) _ (t.every, t.cron) h in
    let (no_every, at) = pair-parts is in HasCadence.calendar c (sym no_every) (sym at)
check_cadence-HasCadence read_digits valid_cron every none t h =
    let step : ℕ → Option (Option ℕ × Option ℕ) = λ e. some (some e, none) in
    let (e, ok, is) = bind-some (interval_ms read_digits every) step (t.every, t.cron) h in
    by_interval t e (interval_ms-positive read_digits every e ok) (pair-parts is).0
check_cadence-HasCadence read_digits valid_cron every (some c) t h = cc h
