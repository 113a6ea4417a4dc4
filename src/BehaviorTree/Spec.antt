-- ===== src/BehaviorTree/Spec.antt =====
-- What a behavior tree means: trees as data, their evaluation, and which tree a flat array holds.
use Prim.Native.Nat.{max}
use newosp.Base.{◌⊎◌, ℕ, suc, ◌+◌, List, [], ◌∷◌, some, ◌≡◌, get_elem?}
use newosp.BehaviorTree.{
  NodeStatus, success, failure, running, idle, action, condition, sequence, selector, parallel,
  inverter, repeat, TickFn, BtNode, Memory, parallel_status, invert, repeat_status,
}

-- `loop index count child` is a repeat node: its counter is the one at its index.
mutual
  pub data Bt {ℓ} (C : Type ℓ) : Type ℓ where
    leaf : TickFn C → Bt C
    all_of : Forest C → Bt C
    any_of : Forest C → Bt C
    at_least : ℕ → Forest C → Bt C
    negate : Bt C → Bt C
    loop : ℕ → ℕ → Bt C → Bt C

  pub data Forest {ℓ} (C : Type ℓ) : Type ℓ where
    nil : Forest C
    cons : Bt C → Forest C → Forest C

unfoldable pub size {ℓ} : {C : Type ℓ} → Forest C → ℕ
size nil = 0
size (cons t f) = suc (size f)

-- The successes and failures among the children, and the memory behind them.
pub record Counts {ℓ} (C : Type ℓ) : Type ℓ where
  pub successes : ℕ
  pub failures : ℕ
  pub memory : Memory C

abbrev pub tally {ℓ} : {C : Type ℓ} → NodeStatus → Counts C → Counts C
tally success c = record c { successes = c.successes + 1 }
tally failure c = record c { failures = c.failures + 1 }
tally running c = c
tally idle c = c

unfoldable mutual
  pub eval {ℓ} : {C : Type ℓ} → Bt C → Memory C → NodeStatus × Memory C
  eval (leaf fn) m = let (status, ctx') = fn m.ctx in (status, record m { ctx = ctx' })
  eval (all_of f) m = eval_all f m
  eval (any_of f) m = eval_any f m
  eval (at_least threshold f) m =
      let c = eval_each f (record { successes = 0; failures = 0; memory = m }) in
      (parallel_status threshold (size f) c.successes c.failures, c.memory)
  eval (negate t) m = let (status, m') = eval t m in (invert status, m')
  eval (loop index count t) m = let (status, m') = eval t m in repeat_status index count status m'

  pub eval_all {ℓ} : {C : Type ℓ} → Forest C → Memory C → NodeStatus × Memory C
  eval_all nil m = (success, m)
  eval_all (cons t f) m =
      let (status, m') = eval t m in
      let rest = eval_all f m' in
      elim status [ failure ↦ (failure, m') | running ↦ (running, m') | _ ↦ rest ]

  pub eval_any {ℓ} : {C : Type ℓ} → Forest C → Memory C → NodeStatus × Memory C
  eval_any nil m = (failure, m)
  eval_any (cons t f) m =
      let (status, m') = eval t m in
      let rest = eval_any f m' in
      elim status [ success ↦ (success, m') | running ↦ (running, m') | _ ↦ rest ]

  pub eval_each {ℓ} : {C : Type ℓ} → Forest C → Counts C → Counts C
  eval_each nil c = c
  eval_each (cons t f) c =
      let (status, m') = eval t c.memory in eval_each f (tally status (record c { memory = m' }))

unfoldable mutual
  pub depth {ℓ} : {C : Type ℓ} → Bt C → ℕ
  depth (leaf fn) = 1
  depth (all_of f) = suc (depth_each f)
  depth (any_of f) = suc (depth_each f)
  depth (at_least threshold f) = suc (depth_each f)
  depth (negate t) = suc (depth t)
  depth (loop index count t) = suc (depth t)

  pub depth_each {ℓ} : {C : Type ℓ} → Forest C → ℕ
  depth_each nil = 0
  depth_each (cons t f) = max (depth t) (depth_each f)

-- The tree that the node at an index is the root of.
unfoldable mutual
  pub Represents {ℓ} : {C : Type ℓ} → List (BtNode C) → ℕ → Bt C → Type ℓ
  Represents {C} nodes i (leaf fn) =
      (node : BtNode C) × (get_elem? nodes i ≡ some node)
      × ((node.node_type ≡ action) ⊎ (node.node_type ≡ condition))
      × (node.tick_fn ≡ some fn)
  Represents {C} nodes i (all_of f) =
      (node : BtNode C) × (get_elem? nodes i ≡ some node)
      × (node.node_type ≡ sequence)
      × RepresentEach nodes node.children f
  Represents {C} nodes i (any_of f) =
      (node : BtNode C) × (get_elem? nodes i ≡ some node)
      × (node.node_type ≡ selector)
      × RepresentEach nodes node.children f
  Represents {C} nodes i (at_least threshold f) =
      (node : BtNode C) × (get_elem? nodes i ≡ some node)
      × (node.node_type ≡ parallel)
      × (node.success_threshold ≡ threshold)
      × RepresentEach nodes node.children f
  Represents {C} nodes i (negate t) =
      (node : BtNode C) × (child : ℕ) × (get_elem? nodes i ≡ some node)
      × (node.node_type ≡ inverter)
      × (node.children ≡ child ∷ [])
      × Represents nodes child t
  Represents {C} nodes i (loop index count t) =
      (node : BtNode C) × (child : ℕ) × (get_elem? nodes i ≡ some node)
      × (node.node_type ≡ repeat)
      × (index ≡ i)
      × (node.repeat_count ≡ count)
      × (node.children ≡ child ∷ [])
      × Represents nodes child t

  pub RepresentEach {ℓ} : {C : Type ℓ} → List (BtNode C) → List ℕ → Forest C → Type ℓ
  RepresentEach nodes children nil = Unit {ℓ} × (children ≡ [])
  RepresentEach nodes children (cons t f) =
      (child : ℕ) × (rest : List ℕ) × (children ≡ child ∷ rest)
      × Represents nodes child t
      × RepresentEach nodes rest f
