-- ===== src/Queue/Tree.antt =====
-- toro/flow.py and `Queue._stage_flow` of toro/queue.py: a flow's tree as a caller builds it
-- (`FlowChild`), and as ADD_FLOW takes it (`to_tree`). A refusal is `none`. The names and the data,
-- which the script stores as they are, are left out but for the check of the name.
pub mod Staged
use text.Mathlib.Text.{◌==◌}
use toro.Prelude.{
  ℕ, zero, suc, ◌+◌, Bool, true, false, not, ◌||◌, ◌&&◌, String, Option, none, some, ltb, leb,
  guard, ◌>>=◌, ◌>>◌, is_some,
}
use toro.Job.{OnFail}
use toro.Client.{clamp_priority}
use toro.Options.Values.{Value, Dict, find, merge}
use toro.Options.Checks.{job_name}
use toro.Options.Record.{JobOptions, of_keywords}

-- A node: its name, its options, what its failure does to its parent, and its children.
mutual
  pub data Flow : Type 0 where
    child : Value → Dict → OnFail → Flows → Flow

  pub data Flows : Type 0 where
    none_more : Flows
    with : Flow → Flows → Flows

-- What `to_tree` makes of a node: its validated options and its children.
mutual
  pub data Payload : Type 0 where
    payload : JobOptions → OnFail → Payloads → Payload

  pub data Payloads : Type 0 where
    end : Payloads
    and : Payload → Payloads → Payloads

abbrev pub has_children : Flows → Bool
has_children none_more = false
has_children (with f fs) = true

-- `FlowChild.__init__`, of one node.
unfoldable pub check_child : Value → Dict → Bool → Option JobOptions
unfolding job_name of_keywords find
check_child name opts parent = do
  n ← job_name name
  guard (not (is_some (find "job_id" opts)))
  guard (not (is_some (find "deduplication" opts)))
  o ← of_keywords opts
  guard (not (parent && ltb 0 o.delay))
  some o

-- `node_options`: the queue's defaults under the node's own options.
unfoldable pub node_options : Dict → Dict → Bool → Option JobOptions
unfolding merge of_keywords clamp_priority
node_options defaults opts parent = do
  o ← of_keywords (merge defaults opts)
  guard (not (parent && ltb 0 o.delay))
  some (record o { priority = clamp_priority o.priority })

unfoldable mutual
  unfolding check_child

  -- Every node of the tree was built by its constructor.
  pub built : Flow → Bool
  built (child name opts on_fail fs) =
      is_some (check_child name opts (has_children fs)) && built_each fs

  pub built_each : Flows → Bool
  built_each none_more = true
  built_each (with f fs) = built f && built_each fs

unfoldable mutual
  -- `count_nodes`
  pub count_flow : Flow → ℕ
  count_flow (child name opts on_fail fs) = 1 + count_flows fs

  pub count_flows : Flows → ℕ
  count_flows none_more = 0
  count_flows (with f fs) = count_flow f + count_flows fs

unfoldable mutual
  unfolding node_options

  -- `to_tree`
  pub to_tree : Dict → Flow → Option Payload
  to_tree defaults (child name opts on_fail fs) = do
    o ← node_options defaults opts (has_children fs)
    ps ← to_trees defaults fs
    some (payload o on_fail ps)

  pub to_trees : Dict → Flows → Option Payloads
  to_trees defaults none_more = some end
  to_trees defaults (with f fs) = do
    p ← to_tree defaults f
    ps ← to_trees defaults fs
    some (and p ps)

abbrev pub max_flow_nodes : ℕ
max_flow_nodes = 1000

-- `_stage_flow`, of the root that `add_flow` builds of its arguments.
unfoldable pub stage_flow : Dict → Value → Dict → Flows → Option Payload
unfolding job_name built count_flow to_tree
stage_flow defaults name opts fs = do
  n ← job_name name
  guard (has_children fs)
  guard (built (child name opts OnFail.fail_parent fs))
  guard (leb (count_flow (child name opts OnFail.fail_parent fs)) max_flow_nodes)
  to_tree defaults (child name opts OnFail.fail_parent fs)
