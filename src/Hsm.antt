-- ===== src/Hsm.antt =====
-- The hierarchical state machine, include/osp/hsm.hpp. An index is `some i`, and a negative one, which
-- the source tests by `< 0` and `>= 0`, is `none`. The context is passed along: guards read it, handlers
-- and actions change it. A handler also takes the number of states and the pending target, which are
-- what RequestTransition reads and writes. `none` as a result of a step is a failed OSP_ASSERT, or a
-- loop that uses up its fuel.
use Prim.Native.String.{String}
use newosp.Base.{
  zero, suc, ℕ, List, [], ◌∷◌, Option, none, some, ◌>>=◌, Bool, true, false, leb, length, get_elem?,
  if◌then◌else◌, ◌==◌, ◌+◌, ◌-◌, ◌++◌, not,
}
mod Total
mod Dispatch
mod Tests

pub data TransitionResult : Type 0 where
  handled unhandled transition : TransitionResult

-- StateConfig; E is the type of events.
pub record StateConfig {ℓ κ} (C : Type ℓ) (E : Type κ) : Type (ℓ ⊔ κ) where
  pub name : String
  pub parent_index : Option ℕ
  pub handler : Option (ℕ → Option ℕ → C → E → TransitionResult × Option ℕ × C)
  pub on_entry : Option (C → C)
  pub on_exit : Option (C → C)
  pub guard : Option (C → E → Bool)

-- OSP_HSM_MAX_DEPTH.
abbrev pub max_depth : ℕ
max_depth = 32

abbrev pub same_index : Option ℕ → Option ℕ → Bool
same_index none none = true
same_index (some i) (some j) = i == j
same_index _ _ = false

-- An action of a state, if it has it.
abbrev pub act {ℓ} : {C : Type ℓ} → Option (C → C) → C → C
act none c = c
act (some f) c = f c

-- RequestTransition: its result and the pending target after.
unfoldable pub request_transition : ℕ → Option ℕ → Option ℕ → TransitionResult × Option ℕ
request_transition state_count pending none = (unhandled, pending)
request_transition state_count pending (some target) =
    if leb state_count target then (unhandled, pending) else (transition, some target)

-- StateMachine without its context; the array of states up to the number of them.
pub record StateMachine {ℓ κ} (C : Type ℓ) (E : Type κ) : Type (ℓ ⊔ κ) where
  pub states : List (StateConfig C E)
  pub current_state : Option ℕ
  pub initial_state : Option ℕ
  pub started : Bool
  pub pending_target : Option ℕ

abbrev pub new_machine {ℓ κ} : {C : Type ℓ} {E : Type κ} → StateMachine C E
new_machine = record {
  states = [];
  current_state = none;
  initial_state = none;
  started = false;
  pending_target = none;
}

module _ {ℓ κ} {C : Type ℓ} {E : Type κ} where
  -- `states_[i].parent_index`; an entry that was not added is not read in a well-formed machine.
  abbrev pub parent_of : List (StateConfig C E) → ℕ → Option ℕ
  parent_of states i = elim (get_elem? states i) [ none ↦ none | some sc ↦ sc.parent_index ]

  -- The parent of `p`, and -1 for -1.
  abbrev pub parent : List (StateConfig C E) → Option ℕ → Option ℕ
  parent states none = none
  parent states (some i) = parent_of states i

  -- Depth.
  unfoldable pub depth : ℕ → List (StateConfig C E) → Option ℕ → Option ℕ
  depth fuel states none = some 0
  depth zero states (some i) = none
  depth (suc fuel) states (some i) = depth fuel states (parent_of states i) >>= λ d. some (d + 1)

  -- BuildExitPath and BuildEntryPath, whose loops are the same. The fuel is OSP_HSM_MAX_DEPTH: the
  -- loop asserts that the path has room.
  unfoldable pub build_path : ℕ → List (StateConfig C E) → Option ℕ → Option ℕ → Option (List ℕ)
  build_path fuel states lca none = some []
  build_path zero states lca (some i) = if same_index (some i) lca then some [] else none
  build_path (suc fuel) states lca (some i) =
      let rest = build_path fuel states lca (parent_of states i) in
      if same_index (some i) lca then some [] else (rest >>= λ path. some (i ∷ path))

  -- The loops of FindLCA that walk the deeper state up.
  unfoldable pub rise : ℕ → List (StateConfig C E) → Option ℕ → Option ℕ
  rise zero states p = p
  rise (suc n) states p = rise n states (parent states p)

  -- The loop of FindLCA that walks both up until they meet.
  unfoldable pub meet : ℕ → List (StateConfig C E) → Option ℕ → Option ℕ → Option (Option ℕ)
  meet zero states p q = if same_index p q then some p else none
  meet (suc fuel) states p q =
      let rest = meet fuel states (parent states p) (parent states q) in
      if same_index p q then some p else rest

  unfoldable pub find_lca : List (StateConfig C E) → Option ℕ → Option ℕ → Option (Option ℕ)
  find_lca states s1 s2 = do
    let fuel = length states
    d1 ← depth fuel states s1
    d2 ← depth fuel states s2
    meet fuel states (rise (d1 - d2) states s1) (rise (d2 - d1) states s2)

  -- The exit actions along a path, in its order, and the entry actions, from its end.
  unfoldable pub run_exits : List (StateConfig C E) → List ℕ → C → C
  run_exits states [] c = c
  run_exits states (i ∷ path) c =
      run_exits states path (elim (get_elem? states i) [ none ↦ c | some sc ↦ act sc.on_exit c ])

  unfoldable pub run_entries : List (StateConfig C E) → List ℕ → C → C
  run_entries states [] c = c
  run_entries states (i ∷ path) c =
      let c' = run_entries states path c in
      elim (get_elem? states i) [ none ↦ c' | some sc ↦ act sc.on_entry c' ]

  -- TransitionTo.
  unfoldable pub transition_to : StateMachine C E → ℕ → C → Option (StateMachine C E × C)
  transition_to m target c =
      if same_index m.current_state (some target)
      then (let sc = get_elem? m.states target in
          some (m, elim sc [ none ↦ c | some s ↦ act s.on_entry (act s.on_exit c) ]))
      else (do
        lca ← find_lca m.states m.current_state (some target)
        exits ← build_path max_depth m.states lca m.current_state
        entries ← build_path max_depth m.states lca (some target)
        some (
          record m { current_state = some target },
          run_entries m.states entries (run_exits m.states exits c),
        ))

  -- AddState: the index of the state, or -1 if there is no room.
  unfoldable pub add_state :
      ℕ → StateConfig C E → StateMachine C E → Option (Option ℕ × StateMachine C E)
  add_state max_states config m =
      if m.started
      then none
      else if leb max_states (length m.states)
      then some (none, m)
      else some (some (length m.states), record m { states = m.states ++ config ∷ [] })

  unfoldable pub set_initial_state : Option ℕ → StateMachine C E → Option (StateMachine C E)
  set_initial_state none m = none
  set_initial_state (some i) m =
      if m.started
      then none
      else if leb (length m.states) i
      then none
      else some (record m { initial_state = some i })

  unfoldable pub start : StateMachine C E → C → Option (StateMachine C E × C)
  start m c = if m.started then none else (do
    initial ← m.initial_state
    entries ← build_path max_depth m.states none (some initial)
    some
        (record m { started = true; current_state = some initial }, run_entries m.states entries c))

  -- What Dispatch does with the result of a handler of the state `i`; `rest` is the next turn of the loop.
  unfoldable pub handle_result :
      StateMachine C E
      → TransitionResult × Option ℕ × C
      → (StateMachine C E → C → Option (StateMachine C E × C))
      → Option (StateMachine C E × C)
  handle_result m (handled, pending, c) rest = some (record m { pending_target = pending }, c)
  handle_result m (unhandled, pending, c) rest = rest (record m { pending_target = pending }) c
  handle_result m (transition, none, c) rest = none
  handle_result m (transition, some target, c) rest =
      transition_to (record m { pending_target = none }) target c

  abbrev passes : Option (C → E → Bool) → C → E → Bool
  passes none c e = true
  passes (some guard) c e = guard c e

  -- The loop of Dispatch, from a state on.
  unfoldable pub dispatch_from :
      ℕ → StateMachine C E → E → Option ℕ → C → Option (StateMachine C E × C)
  dispatch_from fuel m e none c = some (m, c)
  dispatch_from zero m e (some i) c = none
  dispatch_from (suc fuel) m e (some i) c = elim (get_elem? m.states i) [
    | none ↦ none
    | some sc ↦
        let up = λ (m' : StateMachine C E) (c' : C). dispatch_from fuel m' e sc.parent_index c' in
        if not (passes sc.guard c e) then up m c else elim sc.handler [
          | none ↦ up m c
          | some f ↦ handle_result m (f (length m.states) m.pending_target c e) up
        ]
  ]

  unfoldable pub dispatch : StateMachine C E → E → C → Option (StateMachine C E × C)
  dispatch m e c = if m.started then dispatch_from (length m.states) m e m.current_state c else none

  unfoldable pub force_transition :
      StateMachine C E → Option ℕ → C → Option (Bool × StateMachine C E × C)
  force_transition m none c = some (false, m, c)
  force_transition m (some target) c =
      if not m.started
      then some (false, m, c)
      else if leb (length m.states) target
      then some (false, m, c)
      else (transition_to m target c >>= λ p. some (true, p.0, p.1))

  unfoldable pub current_state_name : StateMachine C E → String
  current_state_name m = elim m.current_state [
    | none ↦ ""
    | some i ↦ elim (get_elem? m.states i) [ none ↦ "" | some sc ↦ sc.name ]
  ]

  -- The loop of IsInState, from a state on.
  unfoldable pub is_in_state_from : ℕ → List (StateConfig C E) → Option ℕ → Option ℕ → Option Bool
  is_in_state_from fuel states state_index none = some false
  is_in_state_from zero states state_index (some s) = none
  is_in_state_from (suc fuel) states state_index (some s) =
      let rest = is_in_state_from fuel states state_index (parent_of states s) in
      if same_index (some s) state_index then some true else rest

  unfoldable pub is_in_state : StateMachine C E → Option ℕ → Option Bool
  is_in_state m state_index =
      is_in_state_from (length m.states) m.states state_index m.current_state
