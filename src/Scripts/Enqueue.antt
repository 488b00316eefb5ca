-- ===== src/Scripts/Enqueue.antt =====
-- toro/scripts.py: `ADD_JOB`, `ADD_FLOW`, `ADD_SCHEDULED`, `REMOVE_SCHEDULER`.
use toro.Prelude.{
  ℕ, suc, ◌+◌, ◌-◌, List, [], ◌∷◌, Bool, true, false, Option, none, some, String, ltb,
  if◌then◌else◌, is_some, update, eq_option,
}
use toro.Redis.{Redis}
use toro.Job.{Job, JobState, Opts, OnFail}
use toro.Store.{Store, Outcome, Event, Template, hset, state_of, publish}
use toro.Scripts.Order.{park, wake_at}
use toro.Scripts.Keyed.{take_key}
use toro.Scripts.Metrics.{record_metrics}

-- The arguments of ADD_JOB. An id, a dedup id, a key or a token that is "" is `none`.
pub record AddArgs : Type 0 where
  pub name : ℕ
  pub data_text : String
  pub opts : Opts
  pub now : ℕ
  pub delay : ℕ
  pub priority : ℕ
  pub job_id : Option ℕ
  pub dedup_id : Option ℕ
  pub concurrency_key : Option ℕ
  pub token : Option ℕ

-- The id and the state that an add answers.
abbrev pub Added : Type 0
Added = ℕ × Option JobState

-- A key that may not be asked for.
abbrev pub find {ℓ} : {A : Type ℓ} → Option ℕ → (ℕ → Option A) → Option A
find none f = none
find (some k) f = f k

abbrev pub put : Option ℕ → (ℕ → Option ℕ) → ℕ → ℕ → Option ℕ
put none f id = f
put (some k) f id = update f k (some id)

-- The fields that an add writes.
abbrev pub new_fields : AddArgs → Job → Job
new_fields a j = record j {
  name = some a.name;
  data_text = some a.data_text;
  opts = some a.opts;
  timestamp = some a.now;
  attempts_made = 0;
  priority = a.priority;
}

abbrev pub set_deid : Option ℕ → Job → Job
set_deid none j = j
set_deid (some d) j = record j { deid = some d }

abbrev pub set_delay : ℕ → Job → Job
set_delay delay j = if ltb 0 delay then record j { delay = delay } else j

-- `rootId or jobId`
abbrev pub root_of : Option (ℕ × ℕ) → ℕ → ℕ
root_of none id = id
root_of (some (parent, root)) id = root

module _ {R : Redis} where
  unfoldable pub already_there : Store R → ℕ → Store R × Added
  already_there s id = (publish s (Event.job_added id), (id, state_of s id))

  -- The key, then the place: `takeKey` and `park`.
  unfoldable pub take_and_park : Store R → ℕ → Option ℕ → ℕ → ℕ → ℕ → Store R × JobState
  unfolding take_key park
  take_and_park s id key priority delay now =
      let (s1, mine) = take_key s id key priority now in
      if mine then park s1 id priority delay now else (s1, JobState.held)

  -- Past the replays: a job is made under an id that is free.
  unfoldable pub create_job : Store R → ℕ → AddArgs → Store R × Added
  unfolding take_and_park record_metrics
  create_job s id a =
      let s1 = hset s id (λ j. set_delay a.delay (set_deid a.dedup_id (new_fields a j))) in
      let s2 = record s1 {
        add_token = put a.token s1.add_token id;
        dedup = put a.dedup_id s1.dedup id;
      } in
      let (s3, state) = take_and_park s2 id a.concurrency_key a.priority a.delay a.now in
      let s4 = record_metrics s3 Outcome.added a.now 0 none 1 in
      (publish s4 (Event.job_added id), (id, some state))

  unfoldable pub add_with_id : Option ℕ → Store R → AddArgs → Store R × Added
  unfolding create_job already_there
  add_with_id none s a = create_job (record s { next_id = suc s.next_id }) (suc s.next_id) a
  add_with_id (some id) s a = if is_some (s.jobs id) then already_there s id else create_job s id a

  unfoldable pub add_job : Store R → AddArgs → Store R × Added
  unfolding add_with_id already_there
  add_job s a = elim (find a.token s.add_token) [
    | some made ↦ already_there s made
    | none ↦ elim (find a.dedup_id s.dedup) [
      | some existing ↦ already_there s existing
      | none ↦ add_with_id a.job_id s a
    ]
  ]

-- A flow's tree, as `to_tree` makes it (toro/flow.py).
mutual
  pub data Node : Type 0 where
    node : AddArgs → OnFail → Nodes → Node

  pub data Nodes : Type 0 where
    nil : Nodes
    cons : Node → Nodes → Nodes

unfoldable mutual
  pub count_nodes : Node → ℕ
  count_nodes (node a o cs) = suc (count_each cs)

  pub count_each : Nodes → ℕ
  count_each nil = 0
  count_each (cons n ns) = count_nodes n + count_each ns

module _ {R : Redis} where
  -- A child's fields, and its place in the index of flow children.
  unfoldable pub link_child : Store R → ℕ → Option (ℕ × ℕ) → OnFail → ℕ → Store R
  link_child s id none on_fail now = s
  link_child s id (some (parent, root)) on_fail now =
      let s1 =
        hset s id (λ j. record j {
          parent_id = some parent;
          on_fail = some on_fail;
          root_id = some root;
        }) in
      record s1 { children = R.zadd s1.children now id }

  -- A node whose children were made waits for them.
  unfoldable pub park_parent : Store R → ℕ → Option ℕ → List ℕ → ℕ → Store R
  park_parent s id key cids now =
      let s1 =
        hset s id
          (λ j. record j { children = some cids; state = some JobState.waiting_children }) in
      let s2 = elim key as (λ _. Store R) [
        | none ↦ s1
        | some k ↦ hset s1 id (λ j. record j { ckey = some k })
      ] in
      record s2 {
        deps = update s2.deps id cids;
        waiting_children = R.zadd s2.waiting_children now id;
      }

  -- A leaf is parked like a job of its own.
  unfoldable pub place_node : Store R → ℕ → AddArgs → List ℕ → ℕ → Store R
  unfolding park_parent take_and_park
  place_node s id a [] now =
      (take_and_park (hset s id (set_delay a.delay)) id a.concurrency_key a.priority a.delay now).0
  place_node s id a (c ∷ cids) now = park_parent s id a.concurrency_key (c ∷ cids) now

  -- The part of `createNode` before its children.
  unfoldable pub mint_node : Store R → AddArgs → OnFail → Option (ℕ × ℕ) → ℕ → Store R
  unfolding link_child
  mint_node s a on_fail up now =
      let id = suc s.next_id in
      link_child
        (hset (record s { next_id = id }) id
          (λ j. record (new_fields a j) { timestamp = some now }))
        id up on_fail now

unfoldable mutual
  unfolding mint_node place_node

  pub create_node : {R : Redis} → Node → Store R → Option (ℕ × ℕ) → ℕ → Store R × ℕ
  create_node (node a on_fail cs) s up now =
      let id = suc s.next_id in
      let (s1, cids) = create_each cs (mint_node s a on_fail up now) (id, root_of up id) now in
      (place_node s1 id a cids now, id)

  pub create_each : {R : Redis} → Nodes → Store R → ℕ × ℕ → ℕ → Store R × List ℕ
  create_each nil s up now = (s, [])
  create_each (cons n ns) s up now =
      let (s1, id) = create_node n s (some up) now in
      let (s2, ids) = create_each ns s1 up now in (s2, id ∷ ids)

module _ {R : Redis} where
  -- The root's id; for a re-sent call the root that the first one made.
  unfoldable pub add_flow : Store R → Option ℕ → Node → ℕ → Store R × ℕ
  unfolding create_node create_each record_metrics count_nodes
  add_flow s token tree now = elim (find token s.add_token) [
    | some made ↦ (s, made)
    | none ↦
        let (s1, root) = create_node tree s none now in
        let s2 = record_metrics s1 Outcome.added now 0 none (count_nodes tree) in
        let s3 = publish s2 (Event.job_added root) in
        (record s3 { add_token = put token s3.add_token root }, root)
  ]

  -- Only a schedule still at this slot gets its occurrence. A slot in the past leaves the delay at
  -- 0 here; the script writes a negative one, which is due at once too.
  unfoldable pub add_scheduled : Store R → ℕ → Template → ℕ → ℕ → ℕ → Store R × Bool
  unfolding take_key wake_at record_metrics
  add_scheduled s id t now when scheduler =
      if eq_option (R.zscore s.repeat scheduler) (some when)
      then if is_some (s.jobs id)
        then (s, false)
        else (let s1 = hset s id (λ j. record j {
          name = some t.name;
          data_text = some t.data_text;
          opts = some t.opts;
          timestamp = some now;
          attempts_made = 0;
          priority = t.priority;
          delay = when - now;
          scheduler_id = some scheduler;
        }) in
            let (s2, mine) = take_key s1 id t.concurrency_key t.priority now in
            let s3 = hset s2 id (λ j. record j { state = some JobState.delayed }) in
            let s4 =
              if mine
              then wake_at (record s3 { delayed = R.zadd s3.delayed when id }) when
              else s2 in
            (record_metrics s4 Outcome.added now 0 none 1, true))
      else (s, false)

  -- The slot that the schedule pointed at.
  unfoldable pub remove_scheduler : Store R → ℕ → Store R × Option ℕ
  remove_scheduler s scheduler = (
    record s { repeat = R.zrem s.repeat scheduler; scheduler = update s.scheduler scheduler none },
    R.zscore s.repeat scheduler,
  )
