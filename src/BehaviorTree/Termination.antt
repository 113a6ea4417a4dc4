-- ===== src/BehaviorTree/Termination.antt =====
-- A tick of a built tree ends: the array holds a tree whose depth is at most the number of nodes.
-- A node that is given its own index as its parent is its own child, and its tick never ends.
use Prim.Native.String.{String}
use newosp.Base.{
  get_elem?-ne-none, inr, inl, Option-cases, ℕ, zero, suc, ◌+◌, ◌≤◌, ◌<◌, List, [], ◌∷◌, ◌++◌,
  Option, none, some, ◌≡◌, refl, arith, length, get_elem?, get_elem?-append_end, get_elem?-set_self,
  length-append,
}
use newosp.BehaviorTree.{
  tick_repeat, tick_inverter, tick_parallel, tick_selector, tick_sequence, NodeStatus, NodeType,
  action, condition, sequence, selector, parallel, inverter, repeat, TickFn, BtNode, BehaviorTree,
  Memory, tick_node, tick,
}
use newosp.BehaviorTree.Construction.{adopt, new_node, add_node}
use newosp.BehaviorTree.Spec.{
  Bt, leaf, all_of, any_of, at_least, negate, loop, Forest, nil, cons, depth, depth_each,
  Represents, RepresentEach, eval,
}
use newosp.BehaviorTree.Refine.{tick_node-eval}
use newosp.BehaviorTree.Order.{Behind, IsOrdered}

-- A leaf has a tick function, and a decorator has one child: the assertions of `TickNode`.
abbrev pub HasParts {ℓ} : {C : Type ℓ} → NodeType → BtNode C → Type ℓ
HasParts {C} action node = (fn : TickFn C) × (node.tick_fn ≡ some fn)
HasParts {C} condition node = (fn : TickFn C) × (node.tick_fn ≡ some fn)
HasParts {C} inverter node = Unit {ℓ} × ((child : ℕ) × (node.children ≡ child ∷ []))
HasParts {C} repeat node = Unit {ℓ} × ((child : ℕ) × (node.children ≡ child ∷ []))
HasParts {C} _ node = Unit

abbrev pub IsComplete {ℓ} : {C : Type ℓ} → List (BtNode C) → Type ℓ
IsComplete {C} nodes =
    (i : ℕ) (node : BtNode C) → get_elem? nodes i ≡ some node → HasParts node.node_type node

module _ {ℓ} {C : Type ℓ} (nodes : List (BtNode C)) where
  -- The tree under a node, with its depth at most `k`.
  abbrev Subtree : ℕ → ℕ → Type ℓ
  Subtree k i = (t : Bt C) × Represents nodes i t × (depth t ≤ k)

  abbrev Subtrees : ℕ → List ℕ → Type ℓ
  Subtrees k children = (f : Forest C) × RepresentEach nodes children f × (depth_each f ≤ k)

  subtrees :
      (k i : ℕ) (children : List ℕ)
      → ((c : ℕ) → i < c → c < length nodes → Subtree k c)
      → Behind (length nodes) i children
      → Subtrees k children
  unfolding Represents depth
  subtrees k i [] below b = (nil, (tt, refl), omega arith)
  subtrees k i (c ∷ cs) below b =
      let (t, first, d) = below c b.0.0 b.0.1 in
      let (f, others, d') = subtrees k i cs below b.1 in
      (cons t f, (c, cs, refl, first, others), omega arith)

  node-Subtree :
      (k i : ℕ) (type : NodeType) (node : BtNode C)
      → ((c : ℕ) → i < c → c < length nodes → Subtree k c)
      → get_elem? nodes i ≡ some node
      → node.node_type ≡ type
      → HasParts type node
      → Behind (length nodes) i node.children
      → Subtree (suc k) i
  unfolding Represents depth
  node-Subtree k i action node below at e (fn, is) b = (leaf fn, (node, at, inl e, is), omega arith)
  node-Subtree k i condition node below at e (fn, is) b =
      (leaf fn, (node, at, inr e, is), omega arith)
  node-Subtree k i sequence node below at e h b =
      let (f, each, d) = subtrees k i node.children below b in
      (all_of f, (node, at, e, each), omega arith)
  node-Subtree k i selector node below at e h b =
      let (f, each, d) = subtrees k i node.children below b in
      (any_of f, (node, at, e, each), omega arith)
  node-Subtree k i parallel node below at e h b =
      let (f, each, d) = subtrees k i node.children below b in
      (at_least node.success_threshold f, (node, at, e, refl, each), omega arith)
  node-Subtree k i inverter node below at e (u, (child, only)) b =
      let only_behind : Behind (length nodes) i (child ∷ []) = rw only at b in
      let (t, r, d) = below child only_behind.0.0 only_behind.0.1 in
      (negate t, (node, child, at, e, only, r), omega arith)
  node-Subtree k i repeat node below at e (u, (child, only)) b =
      let only_behind : Behind (length nodes) i (child ∷ []) = rw only at b in
      let (t, r, d) = below child only_behind.0.0 only_behind.0.1 in
      (loop i node.repeat_count t, (node, child, at, e, refl, refl, only, r), omega arith)

  subtree :
      IsOrdered nodes
      → IsComplete nodes
      → (k i : ℕ) → length nodes ≤ k + i
      → i < length nodes
      → Subtree k i
  subtree o c zero i h fits = absurd (omega arith)
  subtree o c (suc k) i h fits = elim (Option-cases (get_elem? nodes i)) [
    | inl missing ↦ absurd (get_elem?-ne-none nodes i fits missing)
    | inr (node, at) ↦
        node-Subtree k i node.node_type node
          (λ child lt inside. subtree o c k child (omega arith) inside) at refl (c i node at)
          (o i node at)
  ]

tick_at_root {ℓ} :
    {C : Type ℓ} (fuel root : ℕ) (t : BehaviorTree C) (status : NodeStatus) (m : Memory C)
    → t.root_index ≡ some root
    → tick_node fuel t.nodes root t.memory ≡ some (status, m)
    → tick fuel t ≡ some (status, record t { last_status = status; memory = m })
unfolding tick
tick_at_root fuel root t status m e h = ground arith

-- `Tick` of a tree with a root that is a node, whose children come behind their parents, whose leaves have a tick function and
-- whose decorators have one child always returns, within a recursion as deep as there are nodes,
-- and returns and leaves what the tree under the root means.
pub tick_total {ℓ} :
    {C : Type ℓ} (t : BehaviorTree C) (root : ℕ)
    → IsOrdered t.nodes
    → IsComplete t.nodes
    → t.root_index ≡ some root
    → root < length t.nodes
    → (meaning : Bt C) × Represents t.nodes root meaning
      × (tick (length t.nodes) t
          ≡ some (
            (eval meaning t.memory).0,
            record t {
              last_status = (eval meaning t.memory).0;
              memory = (eval meaning t.memory).1;
            },
          ))
tick_total t root o c e fits =
    let (b, r, d) = subtree t.nodes o c (length t.nodes) root (omega arith) fits in
    (
      b,
      r,
      tick_at_root (length t.nodes) root t _ _ e
          (tick_node-eval t.nodes b (length t.nodes) root t.memory d r),
    )

-- A node that ticks children.
abbrev pub IsInner : NodeType → Type 0
IsInner action = ⊥
IsInner condition = ⊥
IsInner _ = Unit

tick_own_child {ℓ} :
    {C : Type ℓ} (nodes : List (BtNode C)) (i : ℕ) (type : NodeType) (node : BtNode C) (fuel : ℕ)
    (m : Memory C)
    → get_elem? nodes i ≡ some node
    → node.node_type ≡ type
    → IsInner type
    → node.children ≡ i ∷ []
    → tick_node fuel nodes i m ≡ none
unfolding tick_node tick_sequence tick_selector tick_parallel tick_inverter tick_repeat
tick_own_child nodes i type node zero m at e inner own = refl
tick_own_child nodes i action node (suc fuel) m at e inner own = absurd inner
tick_own_child nodes i condition node (suc fuel) m at e inner own = absurd inner
tick_own_child nodes i sequence node (suc fuel) m at e inner own =
    ground (arith, tick_own_child nodes i sequence node fuel m at e inner own)
tick_own_child nodes i selector node (suc fuel) m at e inner own =
    ground (arith, tick_own_child nodes i selector node fuel m at e inner own)
tick_own_child nodes i parallel node (suc fuel) m at e inner own =
    ground (arith, tick_own_child nodes i parallel node fuel m at e inner own)
tick_own_child nodes i inverter node (suc fuel) m at e inner own =
    ground (arith, tick_own_child nodes i inverter node fuel m at e inner own)
tick_own_child nodes i repeat node (suc fuel) m at e inner own =
    ground (arith, tick_own_child nodes i repeat node fuel m at e inner own)

-- `AddNode` counts the new node before it tests the parent's index, so it takes the new node's own
-- index for a parent. A composite or decorator that it adds so, where there is room and it returns, is in
-- the tree with itself as its only child, so that no assertion on the number of children fails, and
-- `TickNode` at it returns for no depth of recursion.
pub own_parent_never_returns {ℓ} :
    {C : Type ℓ} (max_nodes : ℕ) (type : NodeType) (name : String) (fn : Option (TickFn C))
    (t t' : BehaviorTree C) {index : Option ℕ} (fuel : ℕ) (m : Memory C)
    → IsInner type
    → length t.nodes < max_nodes
    → add_node max_nodes type name fn (some (length t.nodes)) t ≡ some (index, t')
    → (get_elem? t'.nodes (length t.nodes)
        ≡ some (record (new_node type name fn (some (length t.nodes))) {
          children = length t.nodes ∷ [];
        }))
      × (tick_node fuel t'.nodes (length t.nodes) m ≡ none)
unfolding add_node
own_parent_never_returns {C} max_nodes type name fn t t' fuel m inner room e =
    (at, tick_own_child t'.nodes n type (adopt new n) fuel m at refl inner refl)
  where
    n : ℕ
    n = length t.nodes

    new : BtNode C
    new = new_node type name fn (some n)

    at : get_elem? t'.nodes n ≡ some (adopt new n)
    at = ground (
      arith,
      get_elem?-append_end t.nodes new n refl,
      get_elem?-set_self (t.nodes ++ (new ∷ [])) n (adopt new n)
          (omega (arith, length-append t.nodes (new ∷ []))),
    )
