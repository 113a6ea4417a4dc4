-- ===== src/Hsm/Total.antt =====
-- The walks of the state machine end: every path to the root is shorter than the number of states, if
-- each state's parent was added before it.
use newosp.Base.{
  not, ==_iff, zero, suc, ℕ, List, [], ◌∷◌, Option, none, some, ◌>>=◌, Bool, true, false, leb,
  length, get_elem?, if◌then◌else◌, ◌+◌, ◌-◌, ◌≡◌, refl, ap, arith, ◌<◌, ◌≤◌, Bool-cases, inl, inr,
  ◌∙◌,
}
use newosp.Hsm.{
  run_exits, force_transition, act, run_entries, max_depth, transition_to, find_lca, meet, rise,
  same_index, StateConfig, StateMachine, parent_of, parent, depth, build_path,
}

-- An index that is -1 or below `n`.
abbrev pub Below : ℕ → Option ℕ → Type 0
Below n none = Unit
Below n (some i) = i < n

pub Below-mono : (n k : ℕ) (p : Option ℕ) → n ≤ k → Below n p → Below k p
Below-mono n k none h b = tt
Below-mono n k (some i) h b = omega arith

same_index-eq : (p : Option ℕ) (i : ℕ) → same_index p (some i) ≡ true → p ≡ some i
same_index-eq (some j) i e = ap some ((==_iff j i).0 e)
same_index-eq none i e = ground arith

module _ {ℓ κ} {C : Type ℓ} {E : Type κ} where
  -- Each state's parent stands before it.
  abbrev pub IsTree : List (StateConfig C E) → Type 0
  IsTree states = (i : ℕ) → Below i (parent_of states i)

  module _ (states : List (StateConfig C E)) (tree : IsTree states) where
    parent-Below : (n : ℕ) (p : Option ℕ) → Below (suc n) p → Below n (parent states p)
    parent-Below n none b = tt
    parent-Below n (some i) b = Below-mono i n (parent_of states i) (omega arith) (tree i)

    depth_total : (n : ℕ) (p : Option ℕ) → Below n p → (d : ℕ) × (depth n states p ≡ some d)
    unfolding depth
    depth_total n none b = (0, refl)
    depth_total zero (some i) b = absurd (omega arith)
    depth_total (suc n) (some i) b =
        let (d, e) = depth_total n (parent_of states i) (parent-Below n (some i) (omega arith)) in
        (d + 1, rw e refl)

    if_total :
        {A : Type 0} (b : Bool) (x : A) (o : Option A) (y : A)
        → o ≡ some y
        → (z : A) × ((if b then some x else o) ≡ some z)
    if_total true x o y e = (x, refl)
    if_total false x o y e = (y, e)

    build_path_total :
        (n : ℕ) (lca p : Option ℕ)
        → Below n p
        → (path : List ℕ) × (build_path n states lca p ≡ some path)
    unfolding build_path
    build_path_total n lca none b = ([], refl)
    build_path_total zero lca (some i) b = absurd (omega arith)
    build_path_total (suc n) lca (some i) b =
        let (path, e) =
          build_path_total n lca (parent_of states i) (parent-Below n (some i) (omega arith)) in
        if_total (same_index (some i) lca) [] _ (i ∷ path) (rw e refl)

    rise-Below : (n k : ℕ) (p : Option ℕ) → Below k p → Below k (rise n states p)
    unfolding rise
    rise-Below zero k p b = b
    rise-Below (suc n) k p b =
        rise-Below n k (parent states p) (parent-Below k p (Below-mono k (suc k) p (omega arith) b))

    meet_total :
        (n : ℕ) (p q : Option ℕ)
        → Below n p
        → Below n q
        → (lca : Option ℕ) × (meet n states p q ≡ some lca)
    unfolding meet
    meet_total zero none none b b' = (none, refl)
    meet_total zero (some i) q b b' = absurd (omega arith)
    meet_total zero none (some i) b b' = absurd (omega arith)
    meet_total (suc n) p q b b' =
        let (lca, e) =
          meet_total n (parent states p) (parent states q) (parent-Below n p b)
            (parent-Below n q b') in
        if_total (same_index p q) p _ lca e

    lca_total :
        (p q : Option ℕ)
        → Below (length states) p
        → Below (length states) q
        → (lca : Option ℕ) × (find_lca states p q ≡ some lca)
    unfolding find_lca
    lca_total p q b b' =
        let n = length states in
        let (d1, e1) = depth_total n p b in
        let (d2, e2) = depth_total n q b' in
        let (lca, e) =
          meet_total n (rise (d1 - d2) states p) (rise (d2 - d1) states q)
            (rise-Below (d1 - d2) n p b) (rise-Below (d2 - d1) n q b') in
        (lca, rw (e1, e2) e)

  -- A machine whose states form a tree, at most as many as a path can hold, and whose current state is
  -- one of them.
  pub record IsValid (m : StateMachine C E) : Type (ℓ ⊔ κ) where
    pub tree : IsTree m.states
    pub small : length m.states ≤ max_depth
    pub current : Below (length m.states) m.current_state

  pub moved-IsValid :
      (m : StateMachine C E) (target : ℕ)
      → target < length m.states
      → IsValid m
      → IsValid (record m { current_state = some target })
  moved-IsValid m target t v = record { tree = v.tree; small = v.small; current = t }

  -- The actions of a transition to the same state.
  abbrev again : StateMachine C E → ℕ → C → C
  again m target c = elim (get_elem? m.states target) [
    | none ↦ c
    | some s ↦ act s.on_entry (act s.on_exit c)
  ]

  pub transition_to_total :
      (m : StateMachine C E) (target : ℕ) (c : C)
      → IsValid m
      → target < length m.states
      → (c' : C) × (transition_to m target c ≡ some (record m { current_state = some target }, c'))
  unfolding transition_to
  transition_to_total m target c v t =
      elim (Bool-cases (same_index m.current_state (some target))) [
        | inl e ↦ (
          again m target c,
          rw e (
              ap (λ p. some (record m { current_state = p }, again m target c))
                (same_index-eq m.current_state target e)),
        )
        | inr e ↦
            let (lca, e1) = lca_total m.states v.tree m.current_state (some target) v.current t in
            let (exits, e2) =
              build_path_total m.states v.tree max_depth lca m.current_state
                (Below-mono (length m.states) max_depth m.current_state v.small v.current) in
            let (entries, e3) =
              build_path_total m.states v.tree max_depth lca (some target)
                (Below-mono (length m.states) max_depth (some target) v.small t) in
            (run_entries m.states entries (run_exits m.states exits c), rw (e, e1, e2, e3) refl)
      ]

  -- ForceTransition to a state of a started machine, whose states are at most 32 and stand behind their
  -- parents and whose current state is one of them or none, returns true and leaves the machine, valid
  -- still, in that state: no loop of it runs forever, and no path overflows its array.
  pub force_transition_arrives :
      (m : StateMachine C E) (target : ℕ) (c : C)
      → IsValid m
      → m.started ≡ true
      → target < length m.states
      → (c' : C) × (force_transition m (some target) c
          ≡ some (true, record m { current_state = some target }, c'))
        × IsValid (record m { current_state = some target })
  unfolding force_transition
  force_transition_arrives m target c v on t =
      let (c', e) = transition_to_total m target c v t in
      let inside : leb (length m.states) target ≡ false = ground arith in
      let refused : Option (Bool × StateMachine C E × C) = some (false, m, c) in
      let moved = λ (o : Option (StateMachine C E × C)). o >>= λ p. some (true, p.0, p.1) in
      (
        c',
        ap
              (λ b.
                if not b
                then refused
                else if leb (length m.states) target
                then refused
                else moved (transition_to m target c))
              on
            ∙ ap (λ b. if b then refused else moved (transition_to m target c)) inside
            ∙ ap moved e,
        moved-IsValid m target t v,
      )
