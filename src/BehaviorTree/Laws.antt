-- ===== src/BehaviorTree/Laws.antt =====
-- What the parallel and the repeat nodes do, counted.
use native.Mathlib.Nat.{mod_self, mod-eq_of_lt, mod-lt, mod-add-mod}
use newosp.Base.{
  List, some, ◌∙◌, ap, dec_lt, ℕ, zero, suc, ◌+◌, ◌%◌, ◌^◌, ◌≤◌, ◌<◌, ◌≡◌, ◌↔◌, arith, length,
  get_or, if◌then◌else◌, ◌==◌, get_or-set_self, length-set,
}
use newosp.BehaviorTree.{
  tick_node, BtNode, NodeStatus, success, failure, running, idle, TickFn, Memory, repeat_status,
}
use newosp.BehaviorTree.Refine.{tick_node-eval}
use newosp.BehaviorTree.Spec.{
  Represents, depth, Bt, leaf, at_least, loop, Forest, nil, cons, Counts, tally, eval, eval_each,
  size,
}

tally_grows {ℓ} :
    {C : Type ℓ} (status : NodeStatus) (c : Counts C)
    → (tally status c).successes + (tally status c).failures ≤ c.successes + c.failures + 1
tally_grows success c = omega arith
tally_grows failure c = omega arith
tally_grows running c = omega arith
tally_grows idle c = omega arith

eval_each-le {ℓ} :
    {C : Type ℓ} (f : Forest C) (c : Counts C)
    → (eval_each f c).successes + (eval_each f c).failures ≤ c.successes + c.failures + size f
unfolding eval size
eval_each-le nil c = omega arith
eval_each-le (cons t f) c =
    let (status, m) = eval t c.memory in
    let c' = record c { memory = m } in
    omega (arith, tally_grows status c', eval_each-le f (tally status c'))

abbrev pub no_counts {ℓ} : {C : Type ℓ} → Memory C → Counts C
no_counts m = record { successes = 0; failures = 0; memory = m }

at_least_exact {ℓ} :
    {C : Type ℓ} (threshold : ℕ) (f : Forest C) (m : Memory C)
    → threshold ≤ size f
    → size f < 2 ^ 32
    → let c = eval_each f (no_counts m) in
      let status = (eval (at_least threshold f) m).0 in
      ((status ≡ success) ↔ (threshold ≤ c.successes))
      × ((status ≡ failure) ↔ ((c.successes < threshold) × (size f < threshold + c.failures)))
unfolding eval
at_least_exact threshold f m h small =
    ((λ e. ground (arith), λ e. ground (arith)), (λ e. ground (arith), λ e. ground arith))

at_least_unreachable {ℓ} :
    {C : Type ℓ} (threshold : ℕ) (f : Forest C) (m : Memory C)
    → size f < threshold
    → threshold < 2 ^ 32
    → (eval (at_least threshold f) m).0 ≡ running
unfolding eval
at_least_unreachable threshold f m h small = ground (arith, eval_each-le f (no_counts m))

-- `TickNode` at a parallel node whose threshold is at most the number of its children, a 32-bit number,
-- succeeds exactly when that many children succeed, and otherwise fails exactly when so many fail that
-- the threshold is out of reach; it returns, for fuel that is enough for the tree under the node.
pub parallel_exact {ℓ} :
    {C : Type ℓ} (nodes : List (BtNode C)) (threshold : ℕ) (f : Forest C) (fuel i : ℕ)
    (m : Memory C)
    → depth (at_least threshold f) ≤ fuel
    → Represents nodes i (at_least threshold f)
    → threshold ≤ size f
    → size f < 2 ^ 32
    → let c = eval_each f (no_counts m) in
      (status : NodeStatus) × (m' : Memory C) × (tick_node fuel nodes i m ≡ some (status, m'))
      × ((status ≡ success) ↔ (threshold ≤ c.successes))
      × ((status ≡ failure) ↔ ((c.successes < threshold) × (size f < threshold + c.failures)))
parallel_exact nodes threshold f fuel i m deep r h small =
    let (wins, loses) = at_least_exact threshold f m h small in
    (_, _, tick_node-eval nodes (at_least threshold f) fuel i m deep r, wins, loses)

-- `TickNode` at a parallel node with a 32-bit threshold above the number of its children returns
-- kRunning: the node neither succeeds nor, since the subtraction of the two wraps, fails. The fuel is
-- enough for the tree under the node.
pub parallel_unreachable {ℓ} :
    {C : Type ℓ} (nodes : List (BtNode C)) (threshold : ℕ) (f : Forest C) (fuel i : ℕ)
    (m : Memory C)
    → depth (at_least threshold f) ≤ fuel
    → Represents nodes i (at_least threshold f)
    → size f < threshold
    → threshold < 2 ^ 32
    → (m' : Memory C) × (tick_node fuel nodes i m ≡ some (running, m'))
parallel_unreachable nodes threshold f fuel i m deep r h small = (
  (eval (at_least threshold f) m).1,
  tick_node-eval nodes (at_least threshold f) fuel i m deep r
      ∙ ap (λ s. some (s, (eval (at_least threshold f) m).1))
          (at_least_unreachable threshold f m h small),
)

-- The memory after `k` ticks.
abbrev pub after_ticks {ℓ} : {C : Type ℓ} → ℕ → Bt C → Memory C → Memory C
after_ticks zero t m = m
after_ticks (suc k) t m = (eval t (after_ticks k t m)).1

mod-next : (k n : ℕ) → 0 < n → suc k % n ≡ (if suc (k % n) == n then 0 else suc (k % n))
mod-next k n h = elim (dec_lt (suc (k % n)) n) [
  | yes below ↦ ground (arith, step, mod-eq_of_lt below)
  | no above ↦
      let last : k % n + 1 ≡ n = omega arith in
      ground (arith, step, ap (λ (t : ℕ). t % n) last, mod_self n)
]
  where
    step : (k % n + 1) % n ≡ (k + 1) % n
    step = mod-add-mod k n 1

-- One tick of a repeat node over a child that succeeds.
record Counted {ℓ} {C : Type ℓ} (i n r : ℕ) (out : NodeStatus × Memory C) : Type ℓ where
  status_is : out.0 ≡ (if suc r == n then success else running)
  counter_is : get_or out.1.repeat_counters i 0 ≡ (if suc r == n then 0 else suc r)
  fits : i < length out.1.repeat_counters

count_success {ℓ} :
    {C : Type ℓ} (i n r : ℕ) (status : NodeStatus) (m : Memory C)
    → status ≡ success
    → r < n
    → n < 2 ^ 32
    → i < length m.repeat_counters
    → get_or m.repeat_counters i 0 ≡ r
    → Counted i n r (repeat_status i n status m)
count_success i n r status m e below small fits at = ground (
  arith,
  get_or-set_self m.repeat_counters i 0 0 fits,
  get_or-set_self m.repeat_counters i (r + 1) 0 fits,
  length-set m.repeat_counters i 0,
  length-set m.repeat_counters i (r + 1),
)

module _ {ℓ} {C : Type ℓ} (i n : ℕ) (fn : TickFn C)
    (succeeds : (ctx : C) → (fn ctx).0 ≡ success) where
  tick_counts :
      (r : ℕ) (m : Memory C)
      → r < n
      → n < 2 ^ 32
      → i < length m.repeat_counters
      → get_or m.repeat_counters i 0 ≡ r
      → Counted i n r (eval (loop i n (leaf fn)) m)
  unfolding eval
  tick_counts r m below small fits at =
      count_success i n r (fn m.ctx).0 (record m { ctx = (fn m.ctx).1 }) (succeeds m.ctx) below
        small fits at

  counter_after :
      (k : ℕ) (m : Memory C)
      → 0 < n
      → n < 2 ^ 32
      → i < length m.repeat_counters
      → get_or m.repeat_counters i 0 ≡ 0
      → let m' = after_ticks k (loop i n (leaf fn)) m in
        (get_or m'.repeat_counters i 0 ≡ k % n) × (i < length m'.repeat_counters)
  counter_after zero m pos small fits start = ground (arith, mod-eq_of_lt pos)
  counter_after (suc k) m pos small fits start =
      let (at, room) = counter_after k m pos small fits start in
      ground (
        arith,
        mod-next k n pos,
        tick_counts (k % n) (after_ticks k (loop i n (leaf fn)) m) (mod-lt k pos) small room at,
      )

  -- A repeat node of `n` rounds, more than 0 and in 32 bits, over a child that always succeeds, with its
  -- counter at 0, succeeds at every `n`-th tick, and is running at the others.
  pub repeat_period :
      (k : ℕ) (m : Memory C)
      → 0 < n
      → n < 2 ^ 32
      → i < length m.repeat_counters
      → get_or m.repeat_counters i 0 ≡ 0
      → (eval (loop i n (leaf fn)) (after_ticks k (loop i n (leaf fn)) m)).0
        ≡ (if suc k % n == 0 then success else running)
  repeat_period k m pos small fits start =
      let (at, room) = counter_after k m pos small fits start in
      ground (
        arith,
        mod-next k n pos,
        tick_counts (k % n) (after_ticks k (loop i n (leaf fn)) m) (mod-lt k pos) small room at,
      )
