-- ===== src/Adding.antt =====
-- Adds that are sent again (`ADD_JOB`) and the ids of a flow's nodes (`ADD_FLOW` of
-- toro/scripts.py).
use toro.Prelude.{
  ℕ, suc, ◌+◌, ◌≡◌, refl, sym, subst, ◌∙◌, ap, true, inl, inr, Option, none, some, List, [], ◌∷◌,
  ltb, Bool-cases, Option-cases, arith, is_some, update,
}
use toro.Redis.{Redis}
use toro.Job.{Job, JobState, OnFail}
use toro.Store.{Store, hset}
use toro.Scripts.Order.{park, enqueue, queue_up, wake, wake_at}
use toro.Scripts.Keyed.{take_key, take_free, hold}
use toro.Scripts.Metrics.{record_metrics}
use toro.Scripts.Enqueue.{
  AddArgs, Added, new_fields, set_deid, set_delay, find, put, already_there, take_and_park,
  create_job, add_with_id, add_job, Node, Nodes, node, nil, cons, count_nodes, count_each,
  mint_node, link_child, place_node, park_parent, create_node, create_each, add_flow, root_of,
}

module _ {R : Redis} where
  -- The tokens, the windows and the counter of ids are as they were, and no job went.
  pub record Kept (s t : Store R) : Type 0 where
    pub tokens : t.add_token ≡ s.add_token
    pub ids : t.next_id ≡ s.next_id
    pub windows : t.dedup ≡ s.dedup
    pub there : (i : ℕ) → is_some (s.jobs i) ≡ true → is_some (t.jobs i) ≡ true

  wake_at-Kept : (s : Store R) (due : ℕ) → Kept s (wake_at s due)
  unfolding wake_at
  wake_at-Kept s due = record {
    tokens = ground arith;
    ids = ground arith;
    windows = ground arith;
    there = λ i h. ground (arith, h);
  }

  park-Kept : (s : Store R) (id priority delay now : ℕ) → Kept s (park s id priority delay now).0
  unfolding park enqueue queue_up wake
  park-Kept s id priority delay now = elim (Bool-cases (ltb 0 delay)) [
    | inl later ↦
        rw (later, park)
          (let k =
              wake_at-Kept
                (record (hset s id (λ j. record j { state = some JobState.delayed })) {
                  delayed = R.zadd s.delayed (now + delay) id;
                })
                (now + delay) in
            record {
              tokens = k.tokens;
              ids = k.ids;
              windows = k.windows;
              there = λ i h. k.there i (ground (arith, h));
            })
    | inr at_once ↦
        rw (at_once, park)
          (record { tokens = refl; ids = refl; windows = refl; there = λ i h. ground (arith, h) })
  ]

  -- Taking a key and a place writes no token and mints no id.
  pub taken_and_parked :
      (s : Store R) (id : ℕ) (key : Option ℕ) (priority delay now : ℕ)
      → Kept s (take_and_park s id key priority delay now).0
  unfolding take_and_park take_key take_free hold
  taken_and_parked s id none priority delay now = park-Kept s id priority delay now
  taken_and_parked s id (some key) priority delay now = elim (Option-cases (s.ck key)) [
    | inl free ↦
        rw (free, take_and_park, take_key, take_free)
          (let k =
              park-Kept
                (record (hset s id (λ j. record j { ckey = some key })) {
                  ck = update s.ck key (some id);
                })
                id priority delay now in
            record {
              tokens = k.tokens;
              ids = k.ids;
              windows = k.windows;
              there = λ i h. k.there i (ground (arith, h));
            })
    | inr (h, taken) ↦
        rw (taken, take_and_park, take_key, take_free)
          (record { tokens = refl; ids = refl; windows = refl; there = λ i h. ground (arith, h) })
  ]

  pub created :
      (s : Store R) (id token : ℕ) (a : AddArgs)
      → a.token ≡ some token
      → ((create_job s id a).0.add_token token ≡ some id) × ((create_job s id a).1.0 ≡ id)
  unfolding create_job record_metrics
  created s id token a e =
      let f : Job → Job = λ j. set_delay a.delay (set_deid a.dedup_id (new_fields a j)) in
      let s2 : Store R = record (hset s id f) {
        add_token = put a.token s.add_token id;
        dedup = put a.dedup_id s.dedup id;
      } in
      (
        ap (λ g. g token) (taken_and_parked s2 id a.concurrency_key a.priority a.delay a.now).tokens
            ∙ written a.token e,
        refl,
      )
    where
      written : (o : Option ℕ) → o ≡ some token → put o s.add_token id token ≡ some id
      written none e = cc
      written (some k) e = ground arith

  pub known :
      (s : Store R) (a : AddArgs) (id : ℕ)
      → find a.token s.add_token ≡ some id
      → add_job s a ≡ already_there s id
  unfolding add_job
  known s a id k = rw (k, add_job) refl

  pub in_window :
      (s : Store R) (a : AddArgs) (id : ℕ)
      → find a.token s.add_token ≡ none
      → find a.dedup_id s.dedup ≡ some id
      → add_job s a ≡ already_there s id
  unfolding add_job
  in_window s a id n k = rw (n, add_job) (rw k refl)

  pub past_windows :
      (s : Store R) (a : AddArgs)
      → find a.token s.add_token ≡ none
      → find a.dedup_id s.dedup ≡ none
      → add_job s a ≡ add_with_id a.job_id s a
  unfolding add_job
  past_windows s a n d = rw (n, add_job) (rw d refl)

  -- The answer of an add, and of the same add sent again after it.
  abbrev pub Replays : AddArgs → Store R × Added → Type 0
  Replays a r = add_job r.0 a ≡ already_there r.0 r.1.0

  created_once :
      (s : Store R) (id token : ℕ) (a : AddArgs)
      → a.token ≡ some token
      → Replays a (create_job s id a)
  created_once s id token a e =
      let t = (create_job s id a).0 in
      let c = created s id token a e in
      known t a (create_job s id a).1.0 (ap (λ o. find o t.add_token) e ∙ c.0 ∙ ap some (sym c.1))

  pub taken :
      (t : Store R) (a : AddArgs) (id : ℕ)
      → is_some (t.jobs id) ≡ true
      → add_with_id (some id) t a ≡ already_there t id
  unfolding add_with_id
  taken t a id there = rw (there, add_with_id) refl

  with_id_once :
      (s : Store R) (given : Option ℕ) (token : ℕ) (a : AddArgs)
      → a.job_id ≡ given
      → a.token ≡ some token
      → find a.token s.add_token ≡ none
      → find a.dedup_id s.dedup ≡ none
      → Replays a (add_with_id given s a)
  unfolding add_with_id already_there
  with_id_once s none token a g e n d =
      created_once (record s { next_id = suc s.next_id }) (suc s.next_id) token a e
  with_id_once s (some id) token a g e n d = elim (Bool-cases (is_some (s.jobs id))) [
    | inr free ↦ rw (free, add_with_id) (created_once s id token a e)
    | inl there ↦
        subst (λ r. Replays a r) (sym (taken s a id there))
          (past_windows (already_there s id).0 a n d
            ∙ ap (λ o. add_with_id o (already_there s id).0 a) g
            ∙ taken (already_there s id).0 a id there)
  ]

  -- An add that is sent again with its token, after whatever the first one answered, makes no job:
  -- it changes nothing but that the job is announced again, and answers the same id.
  pub add_job-once :
      (s : Store R) (a : AddArgs) (token : ℕ)
      → a.token ≡ some token
      → add_job (add_job s a).0 a ≡ already_there (add_job s a).0 (add_job s a).1.0
  unfolding already_there
  add_job-once s a token e = elim (Option-cases (find a.token s.add_token)) [
    | inr (made, k) ↦
        subst (λ r. Replays a r) (sym (known s a made k)) (known (already_there s made).0 a made k)
    | inl n ↦ elim (Option-cases (find a.dedup_id s.dedup)) [
      | inr (old, k) ↦
          subst (λ r. Replays a r) (sym (in_window s a old n k))
            (in_window (already_there s old).0 a old n k)
      | inl d ↦
          subst (λ r. Replays a r) (sym (past_windows s a n d))
            (with_id_once s a.job_id token a refl e n d)
    ]
  ]

  -- The counter of ids moves by the number of nodes.
  pub place_node-next_id :
      (s : Store R) (id : ℕ) (a : AddArgs) (cids : List ℕ) (now : ℕ)
      → (place_node s id a cids now).next_id ≡ s.next_id
  unfolding place_node park_parent
  place_node-next_id s id a [] now =
      (taken_and_parked _ id a.concurrency_key a.priority a.delay now).ids
  place_node-next_id s id a (c ∷ cids) now = elim (Option-cases a.concurrency_key) [
    | inl e ↦ rw (e, place_node, park_parent) refl
    | inr (k, e) ↦ rw (e, place_node, park_parent) refl
  ]

  pub mint_node-next_id :
      (s : Store R) (a : AddArgs) (on_fail : OnFail) (up : Option (ℕ × ℕ)) (now : ℕ)
      → (mint_node s a on_fail up now).next_id ≡ suc s.next_id
  unfolding mint_node link_child
  mint_node-next_id s a on_fail none now = refl
  mint_node-next_id s a on_fail (some (parent, root)) now = refl

mutual
  unfolding create_node create_each count_nodes count_each

  pub create_node-next_id :
      (R : Redis) (n : Node) (s : Store R) (up : Option (ℕ × ℕ)) (now : ℕ)
      → (create_node n s up now).0.next_id ≡ s.next_id + count_nodes n
  create_node-next_id R (node a on_fail cs) s up now =
      let m = mint_node s a on_fail up now in
      omega (
        arith,
        create_each-next_id R cs m (suc s.next_id, root_of up (suc s.next_id)) now,
        mint_node-next_id s a on_fail up now,
        place_node-next_id (create_each cs m (suc s.next_id, root_of up (suc s.next_id)) now).0
            (suc s.next_id) a (create_each cs m (suc s.next_id, root_of up (suc s.next_id)) now).1
            now,
      )

  pub create_each-next_id :
      (R : Redis) (ns : Nodes) (s : Store R) (up : ℕ × ℕ) (now : ℕ)
      → (create_each ns s up now).0.next_id ≡ s.next_id + count_each ns
  create_each-next_id R nil s up now = omega arith
  create_each-next_id R (cons n ns) s up now = omega (
    arith,
    create_node-next_id R n s (some up) now,
    create_each-next_id R ns (create_node n s (some up) now).0 up now,
  )

module _ {R : Redis} where
  -- A flow that is added anew mints an id for each of its nodes, the root's first, and no other.
  pub add_flow-ids :
      (s : Store R) (token : Option ℕ) (tree : Node) (now : ℕ)
      → find token s.add_token ≡ none
      → ((add_flow s token tree now).1 ≡ suc s.next_id)
        × ((add_flow s token tree now).0.next_id ≡ s.next_id + count_nodes tree)
  unfolding add_flow record_metrics create_node
  add_flow-ids s token (node a on_fail cs) now new = (
    rw (new, add_flow) refl,
    rw (new, add_flow) (create_node-next_id R (node a on_fail cs) s none now),
  )
