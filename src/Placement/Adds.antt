-- ===== src/Placement/Adds.antt =====
-- The placement of jobs through an add: `ADD_JOB` and `ADD_SCHEDULED` of toro/scripts.py.
use toro.Prelude.{
  ℕ, suc, ◌+◌, ◌-◌, ◌≡◌, refl, ap, Bool, true, false, inl, inr, Option, none, some, Bool-cases,
  Option-cases, arith, is_some, if◌then◌else◌, ltb, eq_option, get_or_else,
}
use toro.Redis.{Redis}
use toro.Job.{Job, JobState, blank}
use toro.Store.{Store, Outcome, Event, Template, hset, state_of}
use toro.Scripts.Order.{park, wake_at}
use toro.Scripts.Keyed.{take_key}
use toro.Scripts.Enqueue.{
  AddArgs, find, put, new_fields, set_deid, set_delay, already_there, take_and_park, create_job,
  add_with_id, add_job, add_scheduled,
}
use toro.Placement.{InHand, IsPlaced, ckey_of}
use toro.Placement.Moves.{enqueue-IsPlaced, delay-IsPlaced}
use toro.Placement.Keys.{Taken, take_key-Taken}
use toro.Placement.Flows.{record_metrics-IsPlaced, told-IsPlaced}
use toro.Placement.Guards.{write-InHand}

fields_state :
    (a : AddArgs) (delay : ℕ) (d : Option ℕ) (j : Job)
    → (set_delay delay (set_deid d (new_fields a j))).state ≡ j.state
fields_state a delay none j = ground arith
fields_state a delay (some d) j = ground arith

fields_ckey :
    (a : AddArgs) (delay : ℕ) (d : Option ℕ) (j : Job)
    → (set_delay delay (set_deid d (new_fields a j))).ckey ≡ j.ckey
fields_ckey a delay none j = ground arith
fields_ckey a delay (some d) j = ground arith

gone : (x : Option Job) → is_some x ≡ false → x ≡ none
gone none e = refl
gone (some j) e = cc

fresh_state : (x : Option Job) → x ≡ none → (get_or_else x blank).state ≡ none
fresh_state x e = ap (λ y. (get_or_else y blank).state) e

module _ {R : Redis} where
  -- A job without a state is in no collection.
  pub from_nowhere :
      (s : Store R) (id : ℕ) → state_of s id ≡ none → IsPlaced s → InHand false none s id
  from_nowhere s id e h = record {
    state = e;
    placed = λ j n. h.placed j;
    keyed = λ j k n. h.keyed j k;
    nowhere = ground (arith, h.placed id);
    key = λ k. ground (arith, h.keyed id k);
  }

  park-IsPlaced :
      {was : Option JobState} (s : Store R) (id priority delay now : ℕ)
      → InHand true was s id
      → IsPlaced (park s id priority delay now).0
  unfolding park
  park-IsPlaced s id priority delay now h = elim (Bool-cases (ltb 0 delay)) [
    | inl later ↦
        rw (later, park)
          (delay-IsPlaced s id (now + delay) (λ j. record j { state = some JobState.delayed })
            (λ j. refl) (λ j. refl) h)
    | inr at_once ↦
        rw (at_once, park)
          (enqueue-IsPlaced s id priority now (λ j. record j { state = some JobState.wait })
            (λ j. refl) (λ j. refl) h)
  ]

  park-Taken :
      (was : Option JobState) (id priority delay now : ℕ) (r : Store R × Bool)
      → Taken was id r
      → (let answer : Store R × JobState =
            if r.1 then park r.0 id priority delay now else (r.0, JobState.held) in
          IsPlaced answer.0)
  park-Taken was id priority delay now (t, true) h = park-IsPlaced t id priority delay now h
  park-Taken was id priority delay now (t, false) h = h

  pub take_and_park-IsPlaced :
      {was : Option JobState} (s : Store R) (id : ℕ) (key : Option ℕ) (priority delay now : ℕ)
      → (key ≡ none → ckey_of s id ≡ none)
      → InHand false was s id
      → IsPlaced (take_and_park s id key priority delay now).0
  unfolding take_and_park
  take_and_park-IsPlaced s id key priority delay now e h =
      park-Taken _ id priority delay now (take_key s id key priority now)
        (take_key-Taken s id key priority now e h)

  create_job-IsPlaced :
      (s : Store R) (id : ℕ) (a : AddArgs)
      → s.jobs id ≡ none
      → IsPlaced s
      → IsPlaced (create_job s id a).0
  unfolding create_job
  create_job-IsPlaced s id a fresh h =
      let f : Job → Job = λ j. set_delay a.delay (set_deid a.dedup_id (new_fields a j)) in
      let p =
        write-InHand s id f (fields_state a a.delay a.dedup_id) (fields_ckey a a.delay a.dedup_id)
          (from_nowhere s id (fresh_state (s.jobs id) fresh) h) in
      told-IsPlaced _ (Event.job_added id) (
        record_metrics-IsPlaced _ Outcome.added a.now 0 none 1 (
          take_and_park-IsPlaced
            (record (hset s id f) {
              add_token = put a.token s.add_token id;
              dedup = put a.dedup_id s.dedup id;
            })
            id a.concurrency_key a.priority a.delay a.now
            (λ _. ground (arith, fields_ckey a a.delay a.dedup_id blank, fresh))
            (record {
              state = p.state;
              placed = p.placed;
              keyed = p.keyed;
              nowhere = p.nowhere;
              key = p.key;
            })))

  add_with_id-IsPlaced :
      (given : Option ℕ) (s : Store R) (a : AddArgs)
      → (given ≡ none → s.jobs (suc s.next_id) ≡ none)
      → IsPlaced s
      → IsPlaced (add_with_id given s a).0
  unfolding add_with_id already_there
  add_with_id-IsPlaced none s a fresh h =
      create_job-IsPlaced (record s { next_id = suc s.next_id }) (suc s.next_id) a (fresh refl)
        (record { placed = h.placed; keyed = h.keyed })
  add_with_id-IsPlaced (some id) s a fresh h = elim (Bool-cases (is_some (s.jobs id))) [
    | inr free ↦ rw (free, add_with_id) (create_job-IsPlaced s id a (gone (s.jobs id) free) h)
    | inl there ↦ rw (there, add_with_id) (told-IsPlaced s (Event.job_added id) h)
  ]

  -- From a store with every job in place, ADD_JOB leaves every job in place again: each job is in the one collection that its state
  -- names, and each key with its holder.
  -- An add without an id of its own needs the counter's next id to be free.
  pub add_job-IsPlaced :
      (s : Store R) (a : AddArgs)
      → (a.job_id ≡ none → s.jobs (suc s.next_id) ≡ none)
      → IsPlaced s
      → IsPlaced (add_job s a).0
  unfolding add_job already_there
  add_job-IsPlaced s a fresh h = elim (Option-cases (find a.token s.add_token)) [
    | inr (made, e) ↦ rw (e, add_job) (told-IsPlaced s (Event.job_added made) h)
    | inl e ↦
        rw (e, add_job)
          (elim (Option-cases (find a.dedup_id s.dedup)) [
            | inr (existing, d) ↦ rw d (told-IsPlaced s (Event.job_added existing) h)
            | inl d ↦ rw d (add_with_id-IsPlaced a.job_id s a fresh h)
          ])
  ]

  scheduled-Taken :
      (id due : ℕ) (r : Store R × Bool)
      → Taken none id r
      → (let s3 = hset r.0 id (λ j. record j { state = some JobState.delayed }) in
          IsPlaced
            (if r.1 then wake_at (record s3 { delayed = R.zadd s3.delayed due id }) due else r.0))
  scheduled-Taken id due (t, true) h =
      delay-IsPlaced t id due (λ j. record j { state = some JobState.delayed }) (λ j. refl)
        (λ j. refl) h
  scheduled-Taken id due (t, false) h = h

  -- From a store with every job in place, ADD_SCHEDULED leaves every job in place again: each job is in the one collection that its state
  -- names, and each key with its holder.
  pub add_scheduled-IsPlaced :
      (s : Store R) (id : ℕ) (t : Template) (now due scheduler : ℕ)
      → IsPlaced s
      → IsPlaced (add_scheduled s id t now due scheduler).0
  unfolding add_scheduled
  add_scheduled-IsPlaced s id t now due scheduler h =
      elim (Bool-cases (eq_option (R.zscore s.repeat scheduler) (some due))) [
        | inr moved ↦ rw (moved, add_scheduled) h
        | inl there ↦
            rw (there, add_scheduled)
              (elim (Bool-cases (is_some (s.jobs id))) [
                | inl made ↦ rw (made, add_scheduled) h
                | inr free ↦
                    let f : Job → Job = λ j. record j {
                      name = some t.name;
                      data_text = some t.data_text;
                      opts = some t.opts;
                      timestamp = some now;
                      attempts_made = 0;
                      priority = t.priority;
                      delay = due - now;
                      scheduler_id = some scheduler;
                    } in
                    rw free (
                      record_metrics-IsPlaced _ Outcome.added now 0 none 1 (
                        scheduled-Taken id due
                          (take_key (hset s id f) id t.concurrency_key t.priority now)
                          (take_key-Taken (hset s id f) id t.concurrency_key t.priority now
                            (λ _. ground (arith, gone (s.jobs id) free))
                            (write-InHand s id f (λ j. refl) (λ j. refl)
                              (from_nowhere s id (fresh_state (s.jobs id) (gone (s.jobs id) free))
                                h)))))
              ])
      ]
