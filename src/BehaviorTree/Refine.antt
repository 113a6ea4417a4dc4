-- ===== src/BehaviorTree/Refine.antt =====
-- `Tick` on the flat array computes the meaning of the tree that the array holds.
use newosp.Base.{◌∙◌, ◌<◌, ap, ℕ, zero, suc, ◌≤◌, List, ◌∷◌, some, ◌≡◌, length, arith}
use newosp.BehaviorTree.{
  Ticked, NodeStatus, success, failure, running, idle, BtNode, Memory, parallel_status, tick_node,
  tick, tick_sequence, tick_selector, tick_parallel, tick_switch,
}
use newosp.BehaviorTree.Spec.{
  Bt, leaf, all_of, any_of, at_least, negate, loop, Forest, nil, cons, Counts, tally, eval,
  eval_all, eval_any, eval_each, size, depth, depth_each, Represents, RepresentEach,
}

size-children {ℓ} :
    {C : Type ℓ} (nodes : List (BtNode C)) (children : List ℕ) (f : Forest C)
    → RepresentEach nodes children f
    → size f ≡ length children
unfolding Represents size
size-children nodes children nil (u, e) = rw e
size-children nodes children (cons t f) (child, rest, e, first, others) =
    rw e (ap suc (size-children nodes rest f others))

depth-pos {ℓ} : {C : Type ℓ} (t : Bt C) → 0 < depth t
unfolding depth
depth-pos (leaf fn) = omega arith
depth-pos (all_of f) = omega arith
depth-pos (any_of f) = omega arith
depth-pos (at_least threshold f) = omega arith
depth-pos (negate t) = omega arith
depth-pos (loop index count t) = omega arith

-- What `TickParallel` returns for the counts of its children.
abbrev parallel_result {ℓ} : {C : Type ℓ} → ℕ → ℕ → Counts C → NodeStatus × Memory C
parallel_result threshold count c =
    (parallel_status threshold count c.successes c.failures, c.memory)

-- One child of a parallel node.
tick_parallel-tally {ℓ} :
    {C : Type ℓ} (tick : ℕ → Memory C → Ticked C) (threshold count child : ℕ) (rest : List ℕ)
    (c : Counts C) (status : NodeStatus) (m : Memory C)
    → tick child c.memory ≡ some (status, m)
    → let c' = tally status (record c { memory = m }) in
      tick_parallel tick threshold count c.successes c.failures (child ∷ rest) c.memory
      ≡ tick_parallel tick threshold count c'.successes c'.failures rest c'.memory
unfolding tick_parallel
tick_parallel-tally tick threshold count child rest c success m e = rw e
tick_parallel-tally tick threshold count child rest c failure m e = rw e
tick_parallel-tally tick threshold count child rest c running m e = rw e
tick_parallel-tally tick threshold count child rest c idle m e = rw e

mutual
  unfolding tick_node tick_switch eval depth Represents

  node_eval {ℓ} :
      {C : Type ℓ} (nodes : List (BtNode C)) (t : Bt C) (fuel i : ℕ) (m : Memory C)
      → depth t ≤ fuel
      → Represents nodes i t
      → tick_node fuel nodes i m ≡ some (eval t m)
  node_eval nodes t zero i m h r = absurd (omega (arith, depth-pos t))
  node_eval nodes (leaf fn) (suc fuel) i m h (node, at, kind, fn_is) = ground arith
  node_eval nodes (all_of f) (suc fuel) i m h (node, at, kind, each) =
      ground (arith, children_all nodes f fuel node.children m (omega arith) each)
  node_eval nodes (any_of f) (suc fuel) i m h (node, at, kind, each) =
      ground (arith, children_any nodes f fuel node.children m (omega arith) each)
  node_eval nodes (at_least threshold f) (suc fuel) i m h (node, at, kind, least, each) = ground (
    arith,
    size-children nodes node.children f each,
    children_each nodes f fuel node.children node.success_threshold (length node.children)
        (record { successes = 0; failures = 0; memory = m }) (omega arith) each,
  )
  node_eval nodes (negate t) (suc fuel) i m h (node, child, at, kind, only, below) =
      ground (arith, node_eval nodes t fuel child m (omega arith) below)
  node_eval nodes (loop index count t) (suc fuel) i m h
        (node, child, at, kind, own, n, only, below) =
      ground (arith, node_eval nodes t fuel child m (omega arith) below)

  children_all {ℓ} :
      {C : Type ℓ} (nodes : List (BtNode C)) (f : Forest C) (fuel : ℕ) (children : List ℕ)
      (m : Memory C)
      → depth_each f ≤ fuel
      → RepresentEach nodes children f
      → tick_sequence (tick_node fuel nodes) children m ≡ some (eval_all f m)
  children_all nodes nil fuel children m h (u, e) = rw e
  children_all nodes (cons t f) fuel children m h (child, rest, e, first, others) =
      rw (e, tick_sequence, node_eval nodes t fuel child m (omega arith) first)
        (ground (arith, children_all nodes f fuel rest (eval t m).1 (omega arith) others))

  children_any {ℓ} :
      {C : Type ℓ} (nodes : List (BtNode C)) (f : Forest C) (fuel : ℕ) (children : List ℕ)
      (m : Memory C)
      → depth_each f ≤ fuel
      → RepresentEach nodes children f
      → tick_selector (tick_node fuel nodes) children m ≡ some (eval_any f m)
  children_any nodes nil fuel children m h (u, e) = rw e
  children_any nodes (cons t f) fuel children m h (child, rest, e, first, others) =
      rw (e, tick_selector, node_eval nodes t fuel child m (omega arith) first)
        (ground (arith, children_any nodes f fuel rest (eval t m).1 (omega arith) others))

  children_each {ℓ} :
      {C : Type ℓ} (nodes : List (BtNode C)) (f : Forest C) (fuel : ℕ) (children : List ℕ)
      (threshold count : ℕ) (c : Counts C)
      → depth_each f ≤ fuel
      → RepresentEach nodes children f
      → tick_parallel
          (tick_node fuel nodes)
          threshold
          count
          c.successes
          c.failures
          children
          c.memory
        ≡ some (parallel_result threshold count (eval_each f c))
  children_each nodes nil fuel children threshold count c h (u, e) = rw e
  children_each nodes (cons t f) fuel children threshold count c h (child, rest, e, first, others) =
      let (status, m) = eval t c.memory in
      rw e (
        tick_parallel-tally (tick_node fuel nodes) threshold count child rest c status m
          (node_eval nodes t fuel child c.memory (omega arith) first)
        ∙ children_each nodes f fuel rest threshold count (tally status (record c { memory = m }))
            (omega arith) others)

-- For the tree that the array holds under a node, `TickNode` at that node returns the status and
-- leaves the memory that the tree's meaning gives: with enough fuel for the depth of the tree it
-- returns, and it meets no failed assertion and no index out of range.
pub tick_node-eval {ℓ} :
    {C : Type ℓ} (nodes : List (BtNode C)) (t : Bt C) (fuel i : ℕ) (m : Memory C)
    → depth t ≤ fuel
    → Represents nodes i t
    → tick_node fuel nodes i m ≡ some (eval t m)
tick_node-eval nodes t fuel i m h r = node_eval nodes t fuel i m h r
