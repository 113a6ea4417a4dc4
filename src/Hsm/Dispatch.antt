-- ===== src/Hsm/Dispatch.antt =====
-- Dispatch returns: the event bubbles up a finite line of parents, and at most one transition is made.
use newosp.Base.{
  List, ℕ, zero, suc, Option, none, some, Option-cases, true, Bool-cases, inl, inr, ◌≡◌, refl, sym,
  arith, ◌<◌, get_elem?, get_elem?-ne-none, length, if◌then◌else◌, not, subst,
}
use newosp.Hsm.{
  StateConfig, StateMachine, TransitionResult, handled, unhandled, transition, handle_result,
  dispatch_from, dispatch, passes,
}
use newosp.Hsm.Total.{Below, Below-mono, IsValid, transition_to_total, moved-IsValid}

-- A handler's answer: a transition comes with a pending target that is a state.
abbrev pub Answers {ℓ} : {C : Type ℓ} → ℕ → TransitionResult × Option ℕ × C → Type 0
Answers n (handled, pending, c) = Unit
Answers n (unhandled, pending, c) = Unit
Answers n (transition, none, c) = ⊥
Answers n (transition, some target, c) = target < n

module _ {ℓ κ} {C : Type ℓ} {E : Type κ} where
  -- Every handler answers so, in every context and for every event.
  abbrev pub HasAnswers : List (StateConfig C E) → Type (ℓ ⊔ κ)
  HasAnswers states =
      (i : ℕ) (sc : StateConfig C E) (f : ℕ → Option ℕ → C → E → TransitionResult × Option ℕ × C)
      → get_elem? states i ≡ some sc
      → sc.handler ≡ some f
      → (pending : Option ℕ) (c : C) (e : E)
      → Answers (length states) (f (length states) pending c e)

  -- A step that returns a valid machine with the same states.
  pub record Returned (m : StateMachine C E) (o : Option (StateMachine C E × C))
      : Type (ℓ ⊔ κ) where
    pub machine : StateMachine C E
    pub context : C
    pub returned : o ≡ some (machine, context)
    pub valid : IsValid machine
    pub kept : machine.states ≡ m.states

  with_pending :
      (m : StateMachine C E) (p : Option ℕ) → IsValid m → IsValid (record m { pending_target = p })
  with_pending m p v = record { tree = v.tree; small = v.small; current = v.current }

  handle_result-Returned :
      (m : StateMachine C E) (r : TransitionResult × Option ℕ × C)
      → (up : StateMachine C E → C → Option (StateMachine C E × C)) → IsValid m
      → Answers (length m.states) r
      → ((p : Option ℕ) (c : C) → Returned m (up (record m { pending_target = p }) c))
      → Returned m (handle_result m r up)
  unfolding handle_result
  handle_result-Returned m (handled, p, c) up v a next = record {
    machine = _;
    context = _;
    returned = refl;
    valid = with_pending m p v;
    kept = refl;
  }
  handle_result-Returned m (unhandled, p, c) up v a next = next p c
  handle_result-Returned m (transition, none, c) up v a next = absurd a
  handle_result-Returned m (transition, some target, c) up v a next =
      let free = with_pending m none v in
      let (c', e) = transition_to_total (record m { pending_target = none }) target c free a in
      record {
        machine = _;
        context = c';
        returned = e;
        valid = moved-IsValid (record m { pending_target = none }) target a free;
        kept = refl;
      }

  -- One turn of the loop of Dispatch, at a state.
  abbrev turn :
      StateMachine C E
      → StateConfig C E
      → E
      → C
      → (StateMachine C E → C → Option (StateMachine C E × C))
      → Option (StateMachine C E × C)
  turn m sc e c up = if not (passes sc.guard c e) then up m c else elim sc.handler [
    | none ↦ up m c
    | some f ↦ handle_result m (f (length m.states) m.pending_target c e) up
  ]

  turn-Returned :
      (m : StateMachine C E) (sc : StateConfig C E) (i : ℕ) (e : E) (c : C)
      → (up : StateMachine C E → C → Option (StateMachine C E × C)) → IsValid m
      → HasAnswers m.states
      → get_elem? m.states i ≡ some sc
      → ((p : Option ℕ) (c : C) → Returned m (up (record m { pending_target = p }) c))
      → Returned m (turn m sc e c up)
  turn-Returned m sc i e c up v h found next =
      let here = next m.pending_target c in
      elim (Bool-cases (passes sc.guard c e)) [
        | inr off ↦
            subst (λ b. Returned m (if not b then up m c else handled_by sc.handler)) (sym off) here
        | inl on ↦
            subst (λ b. Returned m (if not b then up m c else handled_by sc.handler)) (sym on)
              (by_handler sc.handler refl)
      ]
    where
      handled_by :
          Option (ℕ → Option ℕ → C → E → TransitionResult × Option ℕ × C)
          → Option (StateMachine C E × C)
      handled_by none = up m c
      handled_by (some f) = handle_result m (f (length m.states) m.pending_target c e) up

      by_handler :
          (o : Option (ℕ → Option ℕ → C → E → TransitionResult × Option ℕ × C))
          → sc.handler ≡ o
          → Returned m (handled_by o)
      by_handler none eq = next m.pending_target c
      by_handler (some f) eq =
          handle_result-Returned m _ up v (h i sc f found eq m.pending_target c e) next

  dispatch_from-Returned :
      (n : ℕ) (m : StateMachine C E) (e : E) (p : Option ℕ) (c : C)
      → IsValid m
      → HasAnswers m.states
      → Below n p
      → Below (length m.states) p
      → Returned m (dispatch_from n m e p c)
  unfolding dispatch_from
  dispatch_from-Returned n m e none c v h b inside = record {
    machine = m;
    context = c;
    returned = refl;
    valid = v;
    kept = refl;
  }
  dispatch_from-Returned zero m e (some i) c v h b inside = absurd (omega arith)
  dispatch_from-Returned (suc n) m e (some i) c v h b inside =
      elim (Option-cases (get_elem? m.states i)) [
        | inl missing ↦ absurd (get_elem?-ne-none m.states i inside missing)
        | inr (sc, found) ↦
            let lower : Below i sc.parent_index =
              subst
                (λ (o : Option (StateConfig C E)).
                  Below i (elim o [ none ↦ none | some k ↦ k.parent_index ]))
                found (v.tree i) in
            rw (found, dispatch_from)
              (turn-Returned m sc i e c (λ m' c'. dispatch_from n m' e sc.parent_index c') v h found
                (λ q c'.
                  let r =
                    dispatch_from-Returned n (record m { pending_target = q }) e sc.parent_index c'
                      (with_pending m q v) h (Below-mono i n sc.parent_index (omega arith) lower)
                      (Below-mono i (length m.states) sc.parent_index (omega arith) lower) in
                  record {
                    machine = r.machine;
                    context = r.context;
                    returned = r.returned;
                    valid = r.valid;
                    kept = r.kept;
                  }))
      ]

  -- Dispatch on a started machine, whose states are at most 32 and stand behind their parents and whose
  -- current state is one of them or none, returns for every event, if each handler answers with a
  -- transition only when the pending target is a state. It leaves a valid machine with the same states.
  pub dispatch_returns :
      (m : StateMachine C E) (e : E) (c : C)
      → IsValid m
      → m.started ≡ true
      → HasAnswers m.states
      → Returned m (dispatch m e c)
  unfolding dispatch
  dispatch_returns m e c v on h =
      subst
        (λ b.
          Returned m (if b then dispatch_from (length m.states) m e m.current_state c else none))
        (sym on)
        (dispatch_from-Returned (length m.states) m e m.current_state c v h v.current v.current)
