-- ===== src/Worker/Schedules/Advance.antt =====
-- toro/worker.py, `Worker._schedule_next`: a schedule moves on, once for each slot.
use toro.Prelude.{
  ℕ, ◌*◌, ◌/◌, suc, ◌-◌, ◌<◌, max, ◌≡◌, refl, sym, ap, ◌∙◌, subst, inl, inr, true, false, Option,
  none, some, ◌==◌, if◌then◌else◌, is_some, eq_option, arith, Bool-cases, Option-cases, ==_refl,
}
use toro.Redis.{Redis}
use toro.Job.{Job, JobState}
use toro.Store.{Store, Template, hset}
use toro.Scripts.Order.{wake_at}
use toro.Scripts.Keyed.{take_key, take_free, hold}
use toro.Scripts.Metrics.{record_metrics}
use toro.Scripts.Enqueue.{add_scheduled}
use toro.Client.{next_slot, IsCron, next_run, next_run-later}
use toro.Worker.Schedules.{advance, mint, schedule_next}

module _ {R : Redis} where
  -- The schedules are as they were, and no job went.
  record Same (s t : Store R) : Type 0 where
    slots : t.repeat ≡ s.repeat
    templates : t.scheduler ≡ s.scheduler
    there : (i : ℕ) → is_some (s.jobs i) ≡ true → is_some (t.jobs i) ≡ true

  wake_at-Same : (s : Store R) (due : ℕ) → Same s (wake_at s due)
  unfolding wake_at
  wake_at-Same s due = record {
    slots = ground arith;
    templates = ground arith;
    there = λ i h. ground (arith, h);
  }

  take_key-Same :
      (s : Store R) (id : ℕ) (key : Option ℕ) (priority now : ℕ)
      → Same s (take_key s id key priority now).0
  unfolding take_key take_free hold
  take_key-Same s id none priority now = record { slots = refl; templates = refl; there = λ i h. h }
  take_key-Same s id (some key) priority now = elim (Option-cases (s.ck key)) [
    | inl free ↦
        rw (free, take_key, take_free)
          (record { slots = refl; templates = refl; there = λ i h. ground (arith, h) })
    | inr (holder, held) ↦
        rw (held, take_key, take_free)
          (record { slots = refl; templates = refl; there = λ i h. ground (arith, h) })
  ]

  hset-there : (s : Store R) (id : ℕ) (f : Job → Job) → is_some ((hset s id f).jobs id) ≡ true
  hset-there s id f = ground arith

  -- The job that is made, past the guards of ADD_SCHEDULED.
  made :
      (s : Store R) (id when : ℕ) (key : Option ℕ) (priority now : ℕ) (f : Job → Job)
      → (let (s2, mine) = take_key (hset s id f) id key priority now in
          let s3 = hset s2 id (λ j. record j { state = some JobState.delayed }) in
          let s4 : Store R =
            if mine then wake_at (record s3 { delayed = R.zadd s3.delayed when id }) when else s2 in
          (is_some (s4.jobs id) ≡ true) × (s4.repeat ≡ s.repeat) × (s4.scheduler ≡ s.scheduler))
  made s id when key priority now f =
      let k = take_key-Same (hset s id f) id key priority now in
      let s2 = (take_key (hset s id f) id key priority now).0 in
      let s3 = hset s2 id (λ j. record j { state = some JobState.delayed }) in
      let w = wake_at-Same (record s3 { delayed = R.zadd s3.delayed when id }) when in
      elim (Bool-cases (take_key (hset s id f) id key priority now).1) [
        | inl mine ↦ rw mine (
          w.there id (hset-there s2 id (λ j. record j { state = some JobState.delayed })),
          w.slots ∙ k.slots,
          w.templates ∙ k.templates,
        )
        | inr held ↦ rw held (k.there id (hset-there s id f), k.slots, k.templates)
      ]

  -- An occurrence of the slot that its schedule points at is there afterwards.
  add_scheduled-there :
      (s : Store R) (id : ℕ) (t : Template) (now when scheduler : ℕ)
      → R.zscore s.repeat scheduler ≡ some when
      → (is_some ((add_scheduled s id t now when scheduler).0.jobs id) ≡ true)
        × ((add_scheduled s id t now when scheduler).0.repeat ≡ s.repeat)
        × ((add_scheduled s id t now when scheduler).0.scheduler ≡ s.scheduler)
  unfolding add_scheduled record_metrics
  add_scheduled-there s id t now when scheduler at =
      let due : eq_option (R.zscore s.repeat scheduler) (some when) ≡ true = rw at (==_refl when) in
      elim (Bool-cases (is_some (s.jobs id))) [
        | inl old ↦ rw (due, add_scheduled) (rw old (old, refl, refl))
        | inr new ↦
            rw (due, add_scheduled)
              (rw new (
                made s id when t.concurrency_key t.priority now (λ j. record j {
                  name = some t.name;
                  data_text = some t.data_text;
                  opts = some t.opts;
                  timestamp = some now;
                  attempts_made = 0;
                  priority = t.priority;
                  delay = when - now;
                  scheduler_id = some scheduler;
                })))
      ]

  -- The slot that follows, and the occurrence of it.
  mint-there :
      (occurrence : ℕ → ℕ → ℕ) (s : Store R) (scheduler : ℕ) (t : Template) (now when slot : ℕ)
      → R.zscore s.repeat scheduler ≡ some slot
      → slot < when
      → (is_some ((mint occurrence s scheduler t now when).jobs (occurrence scheduler when)) ≡ true)
        × (R.zscore (mint occurrence s scheduler t now when).repeat scheduler ≡ some when)
        × ((mint occurrence s scheduler t now when).scheduler ≡ s.scheduler)
  unfolding mint
  mint-there occurrence s scheduler t now when slot at after =
      let other : (slot == when) ≡ false = ground arith in
      let s1 : Store R = record s { repeat = R.zadd s.repeat when scheduler } in
      let set : R.zscore s1.repeat scheduler ≡ some when =
        R.zscore-zadd s.repeat when scheduler scheduler
        ∙ ap (λ b. if b then some when else R.zscore s.repeat scheduler) (==_refl scheduler) in
      let (there, slots, templates) =
        add_scheduled-there s1 (occurrence scheduler when) t now when scheduler set in
      let moves : advance s scheduler when ≡ (s1, true) =
        unfold advance in rw (at, advance) (rw other refl) in
      let to : mint occurrence s scheduler t now when
          ≡ (add_scheduled s1 (occurrence scheduler when) t now when scheduler).0 =
        ap
          (λ x.
            if x.1
            then (add_scheduled x.0 (occurrence scheduler when) t now when scheduler).0
            else s)
          moves in
      subst
        (λ u.
          (is_some (u.jobs (occurrence scheduler when)) ≡ true)
          × (R.zscore u.repeat scheduler ≡ some when)
          × (u.scheduler ≡ s.scheduler))
        (sym to) (there, ap (λ z. R.zscore z scheduler) slots ∙ set, templates)

  -- An occurrence whose slot the schedule has left does nothing.
  left_behind :
      (get_next occurrence : ℕ → ℕ → ℕ) (s : Store R) (scheduler slot when now : ℕ) (t : Template)
      → s.scheduler scheduler ≡ some t
      → R.zscore s.repeat scheduler ≡ some when
      → slot < when
      → schedule_next get_next occurrence s scheduler slot now ≡ some s
  unfolding schedule_next
  left_behind get_next occurrence s scheduler slot when now t is at after =
      let other : eq_option (R.zscore s.repeat scheduler) (some slot) ≡ false =
        rw at (ground arith) in
      rw (is, schedule_next) (rw other refl)

-- A cadence: an interval, or else a cron expression.
pub data HasCadence (t : Template) : Type 0 where
  interval : (e : ℕ) → t.every ≡ some (suc e) → HasCadence t
  calendar : (c : ℕ) → t.every ≡ none → t.cron ≡ some c → HasCadence t

next_run-some :
    (get_next : ℕ → ℕ → ℕ) (now : ℕ) (t : Template)
    → HasCadence t
    → (when : ℕ) × (next_run get_next now t.every t.cron ≡ some when)
unfolding next_run
next_run-some get_next now t (HasCadence.interval e is) = (next_slot now (suc e), rw is refl)
next_run-some get_next now t (HasCadence.calendar c none_set is) =
    (get_next c (now * 1000) / 1000, rw (none_set, is) refl)

module _ {R : Redis} where
  -- An occurrence that is picked up, of a schedule that has a cadence and stands at its slot, moves
  -- the schedule on: to a slot after the clock and after its own, whose occurrence is there
  -- afterwards; and once only, since a later attempt at the same occurrence changes nothing. This
  -- where the cron library's next date lies after the given one, on a whole second.
  pub schedule_next-advances :
      (get_next occurrence : ℕ → ℕ → ℕ) (s : Store R) (scheduler slot now : ℕ) (t : Template)
      → IsCron get_next
      → s.scheduler scheduler ≡ some t
      → R.zscore s.repeat scheduler ≡ some slot
      → HasCadence t
      → (u : Store R) × (when : ℕ) × (schedule_next get_next occurrence s scheduler slot now
          ≡ some u)
        × (max now slot < when)
        × (R.zscore u.repeat scheduler ≡ some when)
        × (is_some (u.jobs (occurrence scheduler when)) ≡ true)
        × ((later : ℕ) → schedule_next get_next occurrence u scheduler slot later ≡ some u)
  unfolding schedule_next
  schedule_next-advances get_next occurrence s scheduler slot now t later is at cadence =
      let (when, runs) = next_run-some get_next (max now slot) t cadence in
      let after = next_run-later get_next (max now slot) t.every t.cron when later runs in
      let beyond : slot < when = omega (arith, after) in
      let (there, set, templates) = mint-there occurrence s scheduler t now when slot at beyond in
      let u = mint occurrence s scheduler t now when in
      let here : eq_option (R.zscore s.repeat scheduler) (some slot) ≡ true =
        rw at (==_refl slot) in
      (
        u,
        when,
        rw (is, schedule_next) (rw here (rw runs refl)),
        after,
        set,
        there,
        λ n.
            left_behind get_next occurrence u scheduler slot when n t
              (ap (λ f. f scheduler) templates ∙ is) set beyond,
      )
