-- ===== src/BehaviorTree/Construction.antt =====
-- include/osp/bt.hpp: the build phase of the behavior tree, `AddNode` and its callers.
use Prim.Native.String.{String}
use newosp.Base.{
  replicate, ℕ, List, [], ◌∷◌, ◌++◌, Option, none, some, ltb, leb, if◌then◌else◌, length, get_elem?,
  set,
}
use newosp.BehaviorTree.{
  idle, NodeType, action, condition, sequence, selector, parallel, inverter, repeat, TickFn, BtNode,
  BehaviorTree, max_children,
}

module _ {ℓ} {C : Type ℓ} where
  -- `parent_node.children[child_count++] = idx`
  abbrev pub adopt : BtNode C → ℕ → BtNode C
  adopt parent idx = record parent { children = parent.children ++ (idx ∷ []) }

  abbrev pub link_to : List (BtNode C) → ℕ → ℕ → Option (List (BtNode C))
  link_to nodes parent idx = elim (get_elem? nodes parent) [
    | none ↦ some nodes
    | some p ↦
        if ltb (length p.children) max_children then some (set nodes parent (adopt p idx)) else none
  ]

  -- The link to the parent. `nodes` has the new node already, as `node_count_` counts it.
  unfoldable pub link : List (BtNode C) → Option ℕ → ℕ → Option (List (BtNode C))
  link nodes none idx = some nodes
  link nodes (some parent) idx = link_to nodes parent idx

  abbrev pub new_node : NodeType → String → Option (TickFn C) → Option ℕ → BtNode C
  new_node type name fn parent = record {
    node_type = type;
    name = name;
    tick_fn = fn;
    parent_index = parent;
    children = [];
    success_threshold = 0;
    repeat_count = 0;
  }

  -- `AddNode`: the index (`none` for -1, when the tree is full) and the tree.
  unfoldable pub add_node :
      ℕ
      → NodeType
      → String
      → Option (TickFn C)
      → Option ℕ
      → BehaviorTree C
      → Option (Option ℕ × BehaviorTree C)
  unfolding link
  add_node max_nodes type name fn parent t =
      if leb max_nodes (length t.nodes)
      then some (none, t)
      else (elim (link (t.nodes ++ (new_node type name fn parent ∷ [])) parent (length t.nodes)) [
        | none ↦ none
        | some nodes ↦ some (some (length t.nodes), record t { nodes = nodes })
      ])

  -- `nodes_[idx].field = …` after a successful `AddNode`
  abbrev amend :
      (BtNode C → BtNode C)
      → Option (Option ℕ × BehaviorTree C)
      → Option (Option ℕ × BehaviorTree C)
  amend change none = none
  amend change (some (none, t)) = some (none, t)
  amend change (some (some idx, t)) = elim (get_elem? t.nodes idx) [
    | none ↦ none
    | some node ↦ some (some idx, record t { nodes = set t.nodes idx (change node) })
  ]

  module _ (max_nodes : ℕ) where
    unfoldable pub add_action :
        String → TickFn C → Option ℕ → BehaviorTree C → Option (Option ℕ × BehaviorTree C)
    add_action name fn parent t = add_node max_nodes action name (some fn) parent t

    unfoldable pub add_condition :
        String → TickFn C → Option ℕ → BehaviorTree C → Option (Option ℕ × BehaviorTree C)
    add_condition name fn parent t = add_node max_nodes condition name (some fn) parent t

    unfoldable pub add_sequence :
        String → Option ℕ → BehaviorTree C → Option (Option ℕ × BehaviorTree C)
    add_sequence name parent t = add_node max_nodes sequence name none parent t

    unfoldable pub add_selector :
        String → Option ℕ → BehaviorTree C → Option (Option ℕ × BehaviorTree C)
    add_selector name parent t = add_node max_nodes selector name none parent t

    unfoldable pub add_parallel :
        String → ℕ → Option ℕ → BehaviorTree C → Option (Option ℕ × BehaviorTree C)
    add_parallel name threshold parent t =
        amend (λ node. record node { success_threshold = threshold })
          (add_node max_nodes parallel name none parent t)

    unfoldable pub add_inverter :
        String → Option ℕ → BehaviorTree C → Option (Option ℕ × BehaviorTree C)
    add_inverter name parent t = add_node max_nodes inverter name none parent t

    unfoldable pub add_repeat :
        String → ℕ → Option ℕ → BehaviorTree C → Option (Option ℕ × BehaviorTree C)
    add_repeat name count parent t =
        amend (λ node. record node { repeat_count = count })
          (add_node max_nodes repeat name none parent t)

  -- `SetRoot`, with its assertion
  unfoldable pub set_root : ℕ → BehaviorTree C → Option (BehaviorTree C)
  set_root index t =
      if ltb index (length t.nodes) then some (record t { root_index = some index }) else none

-- The constructor.
abbrev pub new_tree {ℓ} : {C : Type ℓ} → ℕ → C → String → BehaviorTree C
new_tree max_nodes ctx name = record {
  name = name;
  nodes = [];
  root_index = none;
  last_status = idle;
  memory = record { ctx = ctx; repeat_counters = replicate max_nodes 0 };
}
