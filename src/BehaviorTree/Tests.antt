-- ===== src/BehaviorTree/Tests.antt =====
-- The behavior tree at concrete inputs: a patrol of one action under a sequence.
use newosp.Base.{
  get_elem?, List, inl, ℕ, zero, suc, ◌+◌, ◌≤◌, ◌<◌, some, none, [], ◌∷◌, ◌≡◌, ◌↔◌, refl, arith,
  subst, some-injective,
}
use newosp.BehaviorTree.{
  NodeStatus, Memory, BtNode, parallel, tick_node, success, failure, running, action, sequence,
  TickFn, BehaviorTree, tick,
}
use newosp.BehaviorTree.Construction.{new_node, add_node, add_action, new_tree}
use newosp.BehaviorTree.Spec.{
  Bt, leaf, all_of, at_least, Forest, nil, cons, Represents, eval, eval_each, depth, size,
}
use newosp.BehaviorTree.Refine.{tick_node-eval}
use newosp.BehaviorTree.Order.{Behind, IsOrdered, add_node-IsOrdered}
use newosp.BehaviorTree.Termination.{HasParts, IsComplete, tick_total, own_parent_never_returns}
use newosp.BehaviorTree.Laws.{no_counts, parallel_exact, parallel_unreachable}

-- A step of the patrol counts in the context and succeeds.
abbrev patrol : TickFn ℕ
patrol n = (success, n + 1)

abbrev root_alone : BehaviorTree ℕ
root_alone = record (new_tree 4 0 "bot") { nodes = new_node sequence "root" none none ∷ [] }

abbrev bot : BehaviorTree ℕ
bot = record (new_tree 4 0 "bot") {
  nodes =
      record (new_node sequence "root" none none) { children = 1 ∷ [] }
      ∷ new_node action "patrol" (some patrol) (some 0)
      ∷ [];
  root_index = some 0;
}

built :
    add_action 4 "patrol" patrol (some 0) (record root_alone { root_index = some 0 })
    ≡ some (some 1, bot)
unfolding add_action add_node
built = refl

ticked :
    tick 2 bot
    ≡ some (success, record bot { last_status = success; memory = record bot.memory { ctx = 1 } })
unfolding tick tick_node
ticked = refl

abbrev bot_meaning : Bt ℕ
bot_meaning = all_of (cons (leaf patrol) nil)

bot-Represents : Represents bot.nodes 0 bot_meaning
unfolding Represents
bot-Represents = (_, refl, refl, (1, [], refl, (_, refl, inl refl, refl), (tt, refl)))

tick_node-eval_example : tick_node 2 bot.nodes 0 bot.memory ≡ some (eval bot_meaning bot.memory)
unfolding depth
tick_node-eval_example =
    tick_node-eval bot.nodes bot_meaning 2 0 bot.memory (omega arith) bot-Represents

root-IsOrdered : IsOrdered root_alone.nodes
root-IsOrdered zero node e =
    subst (λ (n : BtNode ℕ). Behind 1 0 n.children)
      (some-injective (new_node sequence "root" none none) node e) tt
root-IsOrdered (suc i) node e = cc

bot-IsOrdered : IsOrdered bot.nodes
unfolding add_node
bot-IsOrdered =
    add_node-IsOrdered 4 action "patrol" (some patrol) (some 0)
      (record root_alone { root_index = some 0 }) bot root-IsOrdered
      (λ e. absurd (omega (arith, some-injective 0 1 e))) refl

add_node-IsOrdered_example : IsOrdered bot.nodes
unfolding add_node
add_node-IsOrdered_example =
    add_node-IsOrdered 4 action "patrol" (some patrol) (some 0)
      (record root_alone { root_index = some 0 }) bot root-IsOrdered
      (λ e. absurd (omega (arith, some-injective 0 1 e))) refl

bot-IsComplete : IsComplete bot.nodes
bot-IsComplete zero node e =
    subst (λ (n : BtNode ℕ). HasParts n.node_type n)
      (some-injective (record (new_node sequence "root" none none) { children = 1 ∷ [] }) node e) tt
bot-IsComplete (suc zero) node e =
    subst (λ (n : BtNode ℕ). HasParts n.node_type n)
      (some-injective (new_node action "patrol" (some patrol) (some 0)) node e) (patrol, refl)
bot-IsComplete (suc (suc i)) node e = cc

tick_total_example :
    (meaning : Bt ℕ) × Represents bot.nodes 0 meaning
    × (tick 2 bot
        ≡ some (
          (eval meaning bot.memory).0,
          record bot {
            last_status = (eval meaning bot.memory).0;
            memory = (eval meaning bot.memory).1;
          },
        ))
tick_total_example = tick_total bot 0 bot-IsOrdered bot-IsComplete refl (omega arith)

abbrev own_child : BehaviorTree ℕ
own_child = record (new_tree 4 0 "bot") {
  nodes = record (new_node sequence "root" none (some 0)) { children = 0 ∷ [] } ∷ [];
}

own_parent_never_returns_example :
    (get_elem? own_child.nodes 0
      ≡ some (record (new_node sequence "root" none (some 0)) { children = 0 ∷ [] }))
    × (tick_node 1000 own_child.nodes 0 own_child.memory ≡ none)
unfolding add_node
own_parent_never_returns_example =
    own_parent_never_returns 4 sequence "root" none (new_tree 4 0 "bot") own_child 1000
      own_child.memory tt (omega arith) refl

abbrev pair_of_steps : Forest ℕ
pair_of_steps = cons (leaf patrol) (cons (leaf (λ n. (failure, n))) nil)

-- A parallel node over the two, with a threshold.
abbrev two_steps : ℕ → List (BtNode ℕ)
two_steps threshold =
    record (new_node parallel "both" none none) {
      children = 1 ∷ 2 ∷ [];
      success_threshold = threshold;
    }
    ∷ new_node action "patrol" (some patrol) (some 0)
    ∷ new_node action "fail" (some (λ n. (failure, n))) (some 0)
    ∷ []

two_steps-Represents :
    (threshold : ℕ) → Represents (two_steps threshold) 0 (at_least threshold pair_of_steps)
unfolding Represents
two_steps-Represents threshold = (
  _,
  refl,
  refl,
  refl,
  (1, _, refl, (_, refl, inl refl, refl), (2, _, refl, (_, refl, inl refl, refl), (tt, refl))),
)

parallel_exact_example :
    let c = eval_each pair_of_steps (no_counts bot.memory) in
    (status : NodeStatus) × (m' : Memory ℕ) × (tick_node 2 (two_steps 1) 0 bot.memory
      ≡ some (status, m'))
    × ((status ≡ success) ↔ (1 ≤ c.successes))
    × ((status ≡ failure) ↔ ((c.successes < 1) × (size pair_of_steps < 1 + c.failures)))
unfolding size depth
parallel_exact_example =
    parallel_exact (two_steps 1) 1 pair_of_steps 2 0 bot.memory (omega arith)
      (two_steps-Represents 1) (omega arith) (omega arith)

parallel_unreachable_example :
    (m' : Memory ℕ) × (tick_node 2 (two_steps 3) 0 bot.memory ≡ some (running, m'))
unfolding size depth
parallel_unreachable_example =
    parallel_unreachable (two_steps 3) 3 pair_of_steps 2 0 bot.memory (omega arith)
      (two_steps-Represents 3) (omega arith) (omega arith)
