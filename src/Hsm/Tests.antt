-- ===== src/Hsm/Tests.antt =====
-- The state machine at concrete inputs: each theorem where its hypotheses hold.
use mathlib.Core.Option.{none-ne-some}
use newosp.Base.{
  some-injective, ap, ◌∙◌, subst, ℕ, ◌≡◌, ◌+◌, refl, arith, List, [], ◌∷◌, none, some, true, Option,
  zero, suc,
}
use newosp.Hsm.{
  handle_result, dispatch_from, request_transition, dispatch, run_entries, run_exits, build_path,
  rise, meet, depth, find_lca, transition_to, StateConfig, StateMachine, force_transition,
}
use newosp.Hsm.Dispatch.{Answers, HasAnswers, Returned, dispatch_returns}
use newosp.Hsm.Total.{IsTree, IsValid, force_transition_arrives}

-- Actions log what they do.
abbrev logging : Option ℕ → ℕ → StateConfig (List ℕ) ℕ
logging up n = record {
  name = "";
  parent_index = up;
  handler = none;
  on_entry = some (λ log. (10 + n) ∷ log);
  on_exit = some (λ log. (20 + n) ∷ log);
  guard = none;
}

-- A root with two children, in the first of them.
abbrev two_children : StateMachine (List ℕ) ℕ
two_children = record {
  states = logging none 0 ∷ logging (some 0) 1 ∷ logging (some 0) 2 ∷ [];
  current_state = some 1;
  initial_state = some 1;
  started = true;
  pending_target = none;
}

two_children-IsTree : IsTree two_children.states
two_children-IsTree zero = tt
two_children-IsTree (suc zero) = omega arith
two_children-IsTree (suc (suc zero)) = omega arith
two_children-IsTree (suc (suc (suc i))) = tt

two_children-IsValid : IsValid two_children
two_children-IsValid = record {
  tree = two_children-IsTree;
  small = omega arith;
  current = omega arith;
}

force_transition_arrives_example :
    (c' : List ℕ) × (force_transition two_children (some 2) []
      ≡ some (true, record two_children { current_state = some 2 }, c'))
    × IsValid (record two_children { current_state = some 2 })
force_transition_arrives_example =
    force_transition_arrives two_children 2 [] two_children-IsValid refl (omega arith)

siblings_pass_by_the_root :
    force_transition two_children (some 2) []
    ≡ some (true, record two_children { current_state = some 2 }, 12 ∷ 21 ∷ [])
unfolding force_transition transition_to find_lca depth meet rise build_path run_exits run_entries
siblings_pass_by_the_root = refl

-- A root that asks for a transition to its second child, and two children that let events pass.
abbrev asking : StateConfig (List ℕ) ℕ
asking = record (logging none 0) {
  handler = some (λ n pending log event.
      let (result, target) = request_transition n pending (some 2) in (result, target, log));
}

abbrev asked : StateMachine (List ℕ) ℕ
asked = record two_children { states = asking ∷ logging (some 0) 1 ∷ logging (some 0) 2 ∷ [] }

asked-IsValid : IsValid asked
asked-IsValid = record { tree = tree; small = omega arith; current = omega arith }
  where
    tree : IsTree asked.states
    tree zero = tt
    tree (suc zero) = omega arith
    tree (suc (suc zero)) = omega arith
    tree (suc (suc (suc i))) = tt

asked-HasAnswers : HasAnswers asked.states
unfolding request_transition
asked-HasAnswers zero sc f found answers pending c e =
    subst (λ g. Answers 3 (g 3 pending c e))
      (some-injective _ _
        (ap (λ (k : StateConfig (List ℕ) ℕ). k.handler) (some-injective _ _ found) ∙ answers))
      (omega arith)
asked-HasAnswers (suc zero) sc f found answers pending c e = absurd (
    none-ne-some _
      (ap (λ (k : StateConfig (List ℕ) ℕ). k.handler) (some-injective _ _ found) ∙ answers))
asked-HasAnswers (suc (suc zero)) sc f found answers pending c e = absurd (
    none-ne-some _
      (ap (λ (k : StateConfig (List ℕ) ℕ). k.handler) (some-injective _ _ found) ∙ answers))
asked-HasAnswers (suc (suc (suc i))) sc f found answers pending c e = absurd (none-ne-some _ found)

dispatch_returns_example : Returned asked (dispatch asked 9 [])
dispatch_returns_example = dispatch_returns asked 9 [] asked-IsValid refl asked-HasAnswers

the_event_reaches_the_root :
    dispatch asked 9 [] ≡ some (record asked { current_state = some 2 }, 12 ∷ 21 ∷ [])
unfolding dispatch dispatch_from handle_result request_transition transition_to find_lca depth meet
    rise build_path run_exits run_entries
the_event_reaches_the_root = refl
