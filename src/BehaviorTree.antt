-- ===== src/BehaviorTree.antt =====
-- include/osp/bt.hpp: the behavior tree in a flat array, and `Tick`.
-- A debug build is modelled: a failed `OSP_ASSERT` is the fault `none`. An index is `none` where the
-- source has a negative one. `children` holds the first `child_count` entries of the array.
pub mod Spec
pub mod Refine
pub mod Construction
pub mod Order
pub mod Termination
pub mod Laws
mod Tests
use Prim.Native.String.{String}
use newosp.Base.{
  ℕ, zero, suc, ◌+◌, ◌-◌, ◌%◌, ◌^◌, Bool, true, false, List, [], ◌∷◌, ◌++◌, Option, none, some, ltb,
  leb, ◌==◌, if◌then◌else◌, length, get_elem?, get_or, set,
}

pub data NodeStatus : Type 0 where
  success failure running idle : NodeStatus

pub data NodeType : Type 0 where
  action condition sequence selector parallel inverter repeat : NodeType

-- `NodeStatusToString`, `NodeTypeToString`
unfoldable pub node_status_to_string : NodeStatus → String
node_status_to_string success = "SUCCESS"
node_status_to_string failure = "FAILURE"
node_status_to_string running = "RUNNING"
node_status_to_string idle = "IDLE"

unfoldable pub node_type_to_string : NodeType → String
node_type_to_string action = "ACTION"
node_type_to_string condition = "CONDITION"
node_type_to_string sequence = "SEQUENCE"
node_type_to_string selector = "SELECTOR"
node_type_to_string parallel = "PARALLEL"
node_type_to_string inverter = "INVERTER"
node_type_to_string repeat = "REPEAT"

-- `OSP_BT_MAX_CHILDREN`
abbrev pub max_children : ℕ
max_children = 8

-- A tick function reads and writes the context.
abbrev pub TickFn {ℓ} : Type ℓ → Type ℓ
TickFn C = C → NodeStatus × C

pub record BtNode {ℓ} (C : Type ℓ) : Type ℓ where
  pub node_type : NodeType
  pub name : String
  pub tick_fn : Option (TickFn C)
  pub parent_index : Option ℕ
  pub children : List ℕ
  pub success_threshold : ℕ  -- uint32_t
  pub repeat_count : ℕ  -- uint32_t

-- What a tick changes: the context, and the counters of the repeat nodes.
pub record Memory {ℓ} (C : Type ℓ) : Type ℓ where
  pub ctx : C
  pub repeat_counters : List ℕ

pub record BehaviorTree {ℓ} (C : Type ℓ) : Type ℓ where
  pub name : String
  pub nodes : List (BtNode C)
  pub root_index : Option ℕ
  pub last_status : NodeStatus
  pub memory : Memory C

-- A tick that can fault.
abbrev pub Ticked {ℓ} : Type ℓ → Type ℓ
Ticked C = Option (NodeStatus × Memory C)

-- The test after the loop of `TickParallel`. The subtraction of two `uint32_t` wraps.
abbrev pub parallel_status : ℕ → ℕ → ℕ → ℕ → NodeStatus
parallel_status threshold child_count successes failures =
    if leb threshold successes
    then success
    else if ltb ((child_count + 2 ^ 32 - threshold) % 2 ^ 32) failures
    then failure
    else running

abbrev pub invert : NodeStatus → NodeStatus
invert success = failure
invert failure = success
invert running = running
invert idle = idle

module _ {ℓ} {C : Type ℓ} where
  abbrev after : Ticked C → (NodeStatus → Memory C → Ticked C) → Ticked C
  after none next = none
  after (some (status, m)) next = next status m

  -- `TickSequence`: the loop over the children; `tick` is `TickNode`.
  pub tick_sequence : (ℕ → Memory C → Ticked C) → List ℕ → Memory C → Ticked C
  tick_sequence tick [] m = some (success, m)
  tick_sequence tick (child ∷ rest) m = after (tick child m) λ status m'. elim status [
    | failure ↦ some (failure, m')
    | running ↦ some (running, m')
    | _ ↦ tick_sequence tick rest m'
  ]

  -- `TickSelector`
  pub tick_selector : (ℕ → Memory C → Ticked C) → List ℕ → Memory C → Ticked C
  tick_selector tick [] m = some (failure, m)
  tick_selector tick (child ∷ rest) m = after (tick child m) λ status m'. elim status [
    | success ↦ some (success, m')
    | running ↦ some (running, m')
    | _ ↦ tick_selector tick rest m'
  ]

  -- `TickParallel`: all children are ticked, and successes and failures counted.
  pub tick_parallel : (ℕ → Memory C → Ticked C) → ℕ → ℕ → ℕ → ℕ → List ℕ → Memory C → Ticked C
  tick_parallel tick threshold count successes failures [] m =
      some (parallel_status threshold count successes failures, m)
  tick_parallel tick threshold count successes failures (child ∷ rest) m =
      after (tick child m) λ status m'. elim status [
        | success ↦ tick_parallel tick threshold count (successes + 1) failures rest m'
        | failure ↦ tick_parallel tick threshold count successes (failures + 1) rest m'
        | _ ↦ tick_parallel tick threshold count successes failures rest m'
      ]

  -- The only child of a decorator: `OSP_ASSERT(node.child_count == 1)`.
  abbrev tick_only : (ℕ → Memory C → Ticked C) → List ℕ → Memory C → Ticked C
  tick_only tick [] m = none
  tick_only tick (child ∷ []) m = tick child m
  tick_only tick (child ∷ other ∷ rest) m = none

  -- `TickInverter`
  pub tick_inverter : (ℕ → Memory C → Ticked C) → List ℕ → Memory C → Ticked C
  tick_inverter tick children m =
      after (tick_only tick children m) λ status m'. some (invert status, m')

  abbrev set_counter : ℕ → ℕ → Memory C → Memory C
  set_counter index n m = record m { repeat_counters = set m.repeat_counters index n }

  -- What `TickRepeat` does with a child that has neither failed nor is running.
  abbrev count_repeat : ℕ → ℕ → Memory C → NodeStatus × Memory C
  count_repeat index repeat_count m =
      let n = (get_or m.repeat_counters index 0 + 1) % 2 ^ 32 in
      if repeat_count == 0
      then (running, m)
      else if leb repeat_count n
      then (success, set_counter index 0 m)
      else (running, set_counter index n m)

  abbrev pub repeat_status : ℕ → ℕ → NodeStatus → Memory C → NodeStatus × Memory C
  repeat_status index repeat_count failure m = (failure, set_counter index 0 m)
  repeat_status index repeat_count running m = (running, m)
  repeat_status index repeat_count success m = count_repeat index repeat_count m
  repeat_status index repeat_count idle m = count_repeat index repeat_count m

  -- `TickRepeat`
  pub tick_repeat : (ℕ → Memory C → Ticked C) → ℕ → ℕ → List ℕ → Memory C → Ticked C
  tick_repeat tick index repeat_count children m =
      after (tick_only tick children m)
        λ status m'. some (repeat_status index repeat_count status m')

  -- A leaf: `OSP_ASSERT(node.tick_fn != nullptr)`.
  abbrev tick_leaf : Option (TickFn C) → Memory C → Ticked C
  tick_leaf none m = none
  tick_leaf (some fn) m = let (status, ctx') = fn m.ctx in some (status, record m { ctx = ctx' })

  -- The `switch` of `TickNode`. Its `default` is not reached: `AddNode` writes only enumerators.
  tick_switch : (ℕ → Memory C → Ticked C) → ℕ → BtNode C → NodeType → Memory C → Ticked C
  unfolding tick_sequence tick_selector tick_parallel tick_inverter tick_repeat
  tick_switch tick index node action m = tick_leaf node.tick_fn m
  tick_switch tick index node condition m = tick_leaf node.tick_fn m
  tick_switch tick index node sequence m = tick_sequence tick node.children m
  tick_switch tick index node selector m = tick_selector tick node.children m
  tick_switch tick index node parallel m =
      tick_parallel tick node.success_threshold (length node.children) 0 0 node.children m
  tick_switch tick index node inverter m = tick_inverter tick node.children m
  tick_switch tick index node repeat m = tick_repeat tick index node.repeat_count node.children m

  -- `TickNode` with fuel for the depth of the recursion; `none` also when it runs out.
  unfoldable pub tick_node : ℕ → List (BtNode C) → ℕ → Memory C → Ticked C
  unfolding tick_switch
  tick_node zero nodes index m = none
  tick_node (suc fuel) nodes index m = elim (get_elem? nodes index) [
    | none ↦ none
    | some node ↦ tick_switch (tick_node fuel nodes) index node node.node_type m
  ]

  -- `Tick`
  unfoldable pub tick : ℕ → BehaviorTree C → Option (NodeStatus × BehaviorTree C)
  tick fuel t = elim t.root_index [
    | none ↦ some (failure, record t { last_status = failure })
    | some root ↦ elim (tick_node fuel t.nodes root t.memory) [
      | none ↦ none
      | some (status, m) ↦ some (status, record t { last_status = status; memory = m })
    ]
  ]
