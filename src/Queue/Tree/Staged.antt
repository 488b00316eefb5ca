-- ===== src/Queue/Tree/Staged.antt =====
-- toro/flow.py: what a flow that was staged is.
use toro.Prelude.{
  ℕ, ◌+◌, ◌≤◌, ◌≡◌, refl, ap, subst, Bool, true, false, not, ◌&&◌, some, ltb, leb, arith, bind-some,
  guard-some, some-inj, inl, inr, ◌⊎◌,
}
use toro.Job.{OnFail}
use toro.Client.{clamp_priority}
use toro.Scripts.Order.{priority_offset}
use toro.Options.Values.{Value, Dict, merge}
use toro.Options.Checks.{job_name}
use toro.Options.Record.{JobOptions, of_keywords}
use toro.Queue.Tree.{
  Flow, Flows, child, none_more, with, Payload, Payloads, payload, end, and, has_children,
  node_options, built, count_flow, count_flows, to_tree, to_trees, max_flow_nodes, stage_flow,
}

unfoldable mutual
  pub size : Payload → ℕ
  size (payload o on_fail ps) = 1 + sizes ps

  pub sizes : Payloads → ℕ
  sizes end = 0
  sizes (and p ps) = size p + sizes ps

abbrev pub is_leaf : Payloads → Bool
is_leaf end = true
is_leaf (and p ps) = false

-- Each node's priority can be packed, and a node with children starts without a delay.
mutual
  pub IsRunnable : Payload → Type 0
  IsRunnable (payload o on_fail ps) =
      (o.priority ≤ priority_offset) × ((is_leaf ps ≡ true) ⊎ (o.delay ≡ 0)) × AllRunnable ps

  pub AllRunnable : Payloads → Type 0
  AllRunnable end = Unit {0}
  AllRunnable (and p ps) = IsRunnable p × AllRunnable ps

clamp_priority-le : (p : ℕ) → clamp_priority p ≤ priority_offset
unfolding clamp_priority
clamp_priority-le p = omega arith

undelayed : (parent : Bool) (d : ℕ) → not (parent && ltb 0 d) ≡ true → (parent ≡ false) ⊎ (d ≡ 0)
undelayed false d h = inl refl
undelayed true d h = inr (ground arith)

node_options-lem :
    (defaults opts : Dict) (parent : Bool) (o : JobOptions)
    → node_options defaults opts parent ≡ some o
    → (o.priority ≤ priority_offset) × ((parent ≡ false) ⊎ (o.delay ≡ 0))
unfolding node_options
node_options-lem defaults opts parent o h =
    let (x, ok, h1) = bind-some (of_keywords (merge defaults opts)) _ o h in
    let (no_delay, is) = guard-some (not (parent && ltb 0 x.delay)) _ o h1 in
    subst (λ y. (y.priority ≤ priority_offset) × ((parent ≡ false) ⊎ (y.delay ≡ 0))) (some-inj is)
      (clamp_priority-le x.priority, undelayed parent x.delay no_delay)

mutual
  unfolding to_tree to_trees count_flow count_flows size sizes IsRunnable AllRunnable

  to_tree-lem :
      (defaults : Dict) (f : Flow) (p : Payload)
      → to_tree defaults f ≡ some p
      → (size p ≡ count_flow f) × IsRunnable p
  to_tree-lem defaults (child name opts on_fail fs) p h =
      let (o, ok, h1) = bind-some (node_options defaults opts (has_children fs)) _ p h in
      let (ps, each, is) =
        bind-some (to_trees defaults fs) (λ ps. some (payload o on_fail ps)) p h1 in
      let (many, all, leaf) = to_trees-lem defaults fs ps each in
      let (fits, early) = node_options-lem defaults opts (has_children fs) o ok in
      subst (λ q. (size q ≡ 1 + count_flows fs) × IsRunnable q) (some-inj is)
        (
          ap (λ n. 1 + n) many,
          (
            fits,
            elim early [
              | inl none_there ↦ inl (ground (arith, leaf, none_there))
              | inr none_left ↦ inr none_left
            ],
            all,
          ),
        )

  to_trees-lem :
      (defaults : Dict) (fs : Flows) (ps : Payloads)
      → to_trees defaults fs ≡ some ps
      → (sizes ps ≡ count_flows fs) × AllRunnable ps × (is_leaf ps ≡ not (has_children fs))
  to_trees-lem defaults none_more ps h =
      subst (λ q. (sizes q ≡ 0) × AllRunnable q × (is_leaf q ≡ true)) (some-inj h) (refl, tt, refl)
  to_trees-lem defaults (with f fs) ps h =
      let (p, one, h1) = bind-some (to_tree defaults f) _ ps h in
      let (rest, more, is) = bind-some (to_trees defaults fs) (λ r. some (and p r)) ps h1 in
      let (count, runnable) = to_tree-lem defaults f p one in
      let (counts, all, leaf) = to_trees-lem defaults fs rest more in
      subst (λ q. (sizes q ≡ count_flow f + count_flows fs) × AllRunnable q × (is_leaf q ≡ false))
        (some-inj is) (omega (arith, count, counts), (runnable, all), refl)

-- A flow that is staged has a node for each node of the caller's tree, at most the cap's number, and
-- at least one child; whatever the defaults of the queue, each node's priority can be packed, and a
-- node with children starts without a delay.
pub stage_flow-IsRunnable :
    (defaults opts : Dict) (name : Value) (fs : Flows) (p : Payload)
    → stage_flow defaults name opts fs ≡ some p
    → IsRunnable p
      × (size p ≡ 1 + count_flows fs)
      × (size p ≤ max_flow_nodes)
      × (has_children fs ≡ true)
unfolding stage_flow count_flow
stage_flow-IsRunnable defaults opts name fs p h =
    let (n, named, h1) = bind-some (job_name name) _ p h in
    let (some_child, h2) = guard-some (has_children fs) _ p h1 in
    let (good, h3) = guard-some (built (child name opts OnFail.fail_parent fs)) _ p h2 in
    let (few, h4) =
      guard-some (leb (count_flow (child name opts OnFail.fail_parent fs)) max_flow_nodes) _ p h3 in
    let (count, runnable) = to_tree-lem defaults (child name opts OnFail.fail_parent fs) p h4 in
    (runnable, count, ground (arith, few, count), some_child)
