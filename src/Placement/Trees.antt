-- ===== src/Placement/Trees.antt =====
-- The placement of jobs where a flow is added, node by node: `ADD_FLOW` of toro/scripts.py.
use toro.Prelude.{
  ℕ, suc, ◌+◌, ◌≤◌, ◌<◌, ◌≡◌, ◌≢◌, refl, ap, ◌∙◌, false, inl, inr, Option, none, some, List, [],
  ◌∷◌, ◌==◌, Bool-cases, Option-cases, arith, update, ltb, get_or_else,
}
use toro.Redis.{Redis}
use toro.Job.{Job, JobState, OnFail, blank}
use toro.Store.{Store, Outcome, hset, state_of}
use toro.Scripts.Order.{park, enqueue, queue_up, wake, wake_at}
use toro.Scripts.Keyed.{take_key, take_free, hold}
use toro.Scripts.Enqueue.{
  AddArgs, find, new_fields, set_delay, take_and_park, Node, Nodes, node, nil, cons, count_nodes,
  count_each, link_child, mint_node, park_parent, place_node, create_node, create_each, add_flow,
  root_of,
}
use toro.Placement.{InHand, IsPlaced, ckey_of}
use toro.Placement.Adds.{from_nowhere, take_and_park-IsPlaced}
use toro.Placement.Flows.{record_metrics-IsPlaced}
use toro.Placement.Guards.{write-InHand}
use toro.Placement.Stops.{write-IsPlaced}
use toro.Adding.{create_node-next_id, create_each-next_id, place_node-next_id, mint_node-next_id}

delay_state : (delay : ℕ) (j : Job) → (set_delay delay j).state ≡ j.state
delay_state delay j = ground arith

delay_ckey : (delay : ℕ) (j : Job) → (set_delay delay j).ckey ≡ j.ckey
delay_ckey delay j = ground arith

module _ {R : Redis} where
  -- No id above the counter is taken.
  pub record IsFresh (s : Store R) : Type 0 where
    pub free : (n : ℕ) → s.next_id < n → s.jobs n ≡ none

  -- Parking a job writes no other job's hash.
  wake_at-jobs : (s : Store R) (due j : ℕ) → (wake_at s due).jobs j ≡ s.jobs j
  unfolding wake_at
  wake_at-jobs s due j = ground arith

  park-jobs :
      (s : Store R) (id priority delay now j : ℕ)
      → id ≢ j
      → (park s id priority delay now).0.jobs j ≡ s.jobs j
  unfolding park enqueue queue_up wake
  park-jobs s id priority delay now j n = elim (Bool-cases (ltb 0 delay)) [
    | inl later ↦
        rw (later, park)
          (wake_at-jobs
              (record (hset s id (λ j. record j { state = some JobState.delayed })) {
                delayed = R.zadd s.delayed (now + delay) id;
              })
              (now + delay) j
            ∙ ground arith)
    | inr at_once ↦ rw (at_once, park) (ground arith)
  ]

  take_and_park-jobs :
      (s : Store R) (id : ℕ) (key : Option ℕ) (priority delay now j : ℕ)
      → id ≢ j
      → (take_and_park s id key priority delay now).0.jobs j ≡ s.jobs j
  unfolding take_and_park take_key take_free hold
  take_and_park-jobs s id none priority delay now j n = park-jobs s id priority delay now j n
  take_and_park-jobs s id (some key) priority delay now j n = elim (Option-cases (s.ck key)) [
    | inl free ↦
        rw (free, take_and_park, take_key, take_free)
          (park-jobs
              (record (hset s id (λ j. record j { ckey = some key })) {
                ck = update s.ck key (some id);
              })
              id priority delay now j n
            ∙ ground arith)
    | inr (h, taken) ↦ rw (taken, take_and_park, take_key, take_free) (ground arith)
  ]

  place_node-jobs :
      (s : Store R) (id : ℕ) (a : AddArgs) (cids : List ℕ) (now j : ℕ)
      → id ≢ j
      → (place_node s id a cids now).jobs j ≡ s.jobs j
  unfolding place_node park_parent
  place_node-jobs s id a [] now j n =
      take_and_park-jobs (hset s id (set_delay a.delay)) id a.concurrency_key a.priority a.delay now
        j n
      ∙ ground arith
  place_node-jobs s id a (c ∷ cids) now j n = elim (Option-cases a.concurrency_key) [
    | inl e ↦ rw (e, place_node, park_parent) (ground arith)
    | inr (k, e) ↦ rw (e, place_node, park_parent) (ground arith)
  ]

  -- A parent that is parked holds no key yet.
  park_parent-IsPlaced :
      {was : Option JobState} (s : Store R) (id : ℕ) (key : Option ℕ) (cids : List ℕ) (now : ℕ)
      → InHand false was s id
      → IsPlaced (park_parent s id key cids now)
  unfolding park_parent
  park_parent-IsPlaced s id none cids now h = record {
    placed = λ j. simp R.zscore-zadd (elim (Bool-cases (id == j)) [
      | inl e ↦ ground (arith, h.nowhere)
      | inr e ↦ ground (arith, h.placed j)
    ]);
    keyed = λ j k. elim (Bool-cases (id == j)) [
      | inl e ↦ ground (arith, h.key k)
      | inr e ↦ ground (arith, h.keyed j k)
    ];
  }
  park_parent-IsPlaced s id (some key) cids now h = record {
    placed = λ j. simp R.zscore-zadd (elim (Bool-cases (id == j)) [
      | inl e ↦ ground (arith, h.nowhere)
      | inr e ↦ ground (arith, h.placed j)
    ]);
    keyed = λ j k. elim (Bool-cases (id == j)) [
      | inl e ↦ ground (arith, h.key k)
      | inr e ↦ ground (arith, h.keyed j k)
    ];
  }

  place_node-IsPlaced :
      (s : Store R) (id : ℕ) (a : AddArgs) (cids : List ℕ) (now : ℕ)
      → state_of s id ≡ none
      → ckey_of s id ≡ none
      → IsPlaced s
      → IsPlaced (place_node s id a cids now)
  unfolding place_node
  place_node-IsPlaced s id a [] now e k h =
      take_and_park-IsPlaced (hset s id (set_delay a.delay)) id a.concurrency_key a.priority a.delay
        now (λ _. ground (arith, k, delay_ckey a.delay (get_or_else (s.jobs id) blank)))
        (write-InHand s id (set_delay a.delay) (delay_state a.delay) (delay_ckey a.delay)
          (from_nowhere s id e h))
  place_node-IsPlaced s id a (c ∷ cids) now e k h =
      park_parent-IsPlaced s id a.concurrency_key (c ∷ cids) now (from_nowhere s id e h)

  -- What the creation of a part of a tree leaves.
  record Grown (s t : Store R) : Type 0 where
    placed : IsPlaced t
    fresh : IsFresh t
    kept : (j : ℕ) → j ≤ s.next_id → t.jobs j ≡ s.jobs j

  mint_node-IsPlaced :
      (s : Store R) (a : AddArgs) (on_fail : OnFail) (up : Option (ℕ × ℕ)) (now : ℕ)
      → IsPlaced s
      → IsPlaced (mint_node s a on_fail up now)
  unfolding mint_node link_child
  mint_node-IsPlaced s a on_fail none now h =
      write-IsPlaced (record s { next_id = suc s.next_id }) (suc s.next_id)
        (λ j. record (new_fields a j) { timestamp = some now }) (λ j. refl) (λ j. refl)
        (record { placed = h.placed; keyed = h.keyed })
  mint_node-IsPlaced s a on_fail (some (parent, root)) now h =
      let p =
        write-IsPlaced
          (hset (record s { next_id = suc s.next_id }) (suc s.next_id)
            (λ j. record (new_fields a j) { timestamp = some now }))
          (suc s.next_id)
          (λ j. record j { parent_id = some parent; on_fail = some on_fail; root_id = some root })
          (λ j. refl) (λ j. refl)
          (write-IsPlaced (record s { next_id = suc s.next_id }) (suc s.next_id)
            (λ j. record (new_fields a j) { timestamp = some now }) (λ j. refl) (λ j. refl)
            (record { placed = h.placed; keyed = h.keyed })) in
      record { placed = p.placed; keyed = p.keyed }

  mint_node-jobs :
      (s : Store R) (a : AddArgs) (on_fail : OnFail) (up : Option (ℕ × ℕ)) (now j : ℕ)
      → suc s.next_id ≢ j
      → (mint_node s a on_fail up now).jobs j ≡ s.jobs j
  unfolding mint_node link_child
  mint_node-jobs s a on_fail none now j n = ground arith
  mint_node-jobs s a on_fail (some (parent, root)) now j n = ground arith

  -- The hash of a minted node has neither a state nor a key.
  mint_node-blank :
      (s : Store R) (a : AddArgs) (on_fail : OnFail) (up : Option (ℕ × ℕ)) (now : ℕ)
      → s.jobs (suc s.next_id) ≡ none
      → (state_of (mint_node s a on_fail up now) (suc s.next_id) ≡ none)
        × (ckey_of (mint_node s a on_fail up now) (suc s.next_id) ≡ none)
  unfolding mint_node link_child
  mint_node-blank s a on_fail none now e = (ground (arith, e), ground (arith, e))
  mint_node-blank s a on_fail (some (parent, root)) now e = (ground (arith, e), ground (arith, e))

  mint_node-IsFresh :
      (s : Store R) (a : AddArgs) (on_fail : OnFail) (up : Option (ℕ × ℕ)) (now : ℕ)
      → IsFresh s
      → IsFresh (mint_node s a on_fail up now)
  mint_node-IsFresh s a on_fail up now f = record {
    free = λ n above.
        let i = mint_node-next_id s a on_fail up now in
        mint_node-jobs s a on_fail up now n (omega (arith, i)) ∙ f.free n (omega (arith, i));
  }

  -- A node's own place, once its children were made.
  node-Grown :
      (s c : Store R) (a : AddArgs) (on_fail : OnFail) (up : Option (ℕ × ℕ)) (cids : List ℕ)
      (now : ℕ)
      → (mint_node s a on_fail up now).next_id ≤ c.next_id
      → IsFresh s
      → Grown (mint_node s a on_fail up now) c
      → Grown s (place_node c (suc s.next_id) a cids now)
  node-Grown s c a on_fail up cids now more f g =
      let id = suc s.next_id in
      let i = mint_node-next_id s a on_fail up now in
      let own = g.kept id (omega (arith, i)) in
      let b = mint_node-blank s a on_fail up now (f.free id (omega arith)) in
      record {
        placed =
            place_node-IsPlaced c id a cids now (ap (λ x. (get_or_else x blank).state) own ∙ b.0)
              (ap (λ x. (get_or_else x blank).ckey) own ∙ b.1) g.placed;
        fresh = record {
          free = λ n above.
              let e = place_node-next_id c id a cids now in
              place_node-jobs c id a cids now n (omega (arith, i, e, more))
              ∙ g.fresh.free n (omega (arith, e));
        };
        kept = λ j below.
            place_node-jobs c id a cids now j (omega arith)
            ∙ g.kept j (omega (arith, i))
            ∙ mint_node-jobs s a on_fail up now j (omega arith);
      }

mutual
  unfolding create_node create_each count_each count_nodes

  create_node-Grown :
      (R : Redis) (n : Node) (s : Store R) (up : Option (ℕ × ℕ)) (now : ℕ)
      → IsFresh s
      → IsPlaced s
      → Grown s (create_node n s up now).0
  create_node-Grown R (node a on_fail cs) s up now f h =
      let m = mint_node s a on_fail up now in
      let id = suc s.next_id in
      node-Grown s (create_each cs m (id, root_of up id) now).0 a on_fail up
        (create_each cs m (id, root_of up id) now).1 now
        (omega (arith, create_each-next_id R cs m (id, root_of up id) now)) f
        (create_each-Grown R cs m (id, root_of up id) now (mint_node-IsFresh s a on_fail up now f)
          (mint_node-IsPlaced s a on_fail up now h))

  create_each-Grown :
      (R : Redis) (ns : Nodes) (s : Store R) (up : ℕ × ℕ) (now : ℕ)
      → IsFresh s
      → IsPlaced s
      → Grown s (create_each ns s up now).0
  create_each-Grown R nil s up now f h = record { placed = h; fresh = f; kept = λ j below. refl }
  create_each-Grown R (cons n ns) s up now f h =
      let g = create_node-Grown R n s (some up) now f h in
      let k = create_each-Grown R ns (create_node n s (some up) now).0 up now g.fresh g.placed in
      record {
        placed = k.placed;
        fresh = k.fresh;
        kept = λ j below.
            k.kept j (omega (arith, create_node-next_id R n s (some up) now)) ∙ g.kept j below;
      }

module _ {R : Redis} where
  -- From a store with every job in place and no id above the counter taken, ADD_FLOW leaves every job
  -- in place: each node stands in the one collection that its state names, and each key with its
  -- holder.
  pub add_flow-IsPlaced :
      (s : Store R) (token : Option ℕ) (tree : Node) (now : ℕ)
      → IsFresh s
      → IsPlaced s
      → IsPlaced (add_flow s token tree now).0
  unfolding add_flow
  add_flow-IsPlaced s token tree now f h = elim (Option-cases (find token s.add_token)) [
    | inr (made, e) ↦ rw (e, add_flow) h
    | inl new ↦
        rw (new, add_flow)
          (let p =
              record_metrics-IsPlaced (create_node tree s none now).0 Outcome.added now 0 none
                (count_nodes tree) (create_node-Grown R tree s none now f h).placed in
            record { placed = p.placed; keyed = p.keyed })
  ]
