-- ===== src/Breaker/Levels.antt =====
-- The levels of the breaker: which level follows which, and what the queries answer.
use newosp.Base.{ℕ, ◌<◌, true, false, List, [], ◌∷◌, ◌≡◌, ◌≢◌, arith}
use newosp.Breaker.{
  level, pack, Input, on_direct_timeout, on_dispatch_cycle, on_external_safe_restore, transition,
  init_word, handle_all, direct_allowed, healthy_window_passed, drop_non_critical, safe_events_only,
}
use newosp.Breaker.Transitions.{
  BreakerLevel, normal, broken_l1, broken_l2, safe, recovering, State, fresh,
}
use newosp.Breaker.Packed.{Fits, run, unpack-handle_all, level-handle_all, fresh-Fits}

-- The edges of the degradation chain, with what each of them takes.
pub data Edge (input : Input) : BreakerLevel → BreakerLevel → Type 0 where
  stay : (l : BreakerLevel) → Edge input l l
  revoke_direct : input ≡ on_direct_timeout → Edge input normal broken_l1
  quarantine : (l : BreakerLevel) → l ≢ safe → Edge input l broken_l2
  shut_down : (l : BreakerLevel) → Edge input l safe
  cool_l1 : Edge input broken_l1 recovering
  cool_l2 : Edge input broken_l2 recovering
  restore : input ≡ on_external_safe_restore → Edge input safe recovering
  heal : input ≡ on_dispatch_cycle → Edge input recovering normal

-- Each event leaves the level where it is or moves it along an edge of the degradation chain: a direct
-- timeout from Normal to BrokenL1; any event from a level other than Safe to BrokenL2; any event to
-- Safe; from BrokenL1 and BrokenL2 to Recovering; from Safe to Recovering by the external restore
-- alone; from Recovering to Normal by a dispatch cycle alone.
pub transition-Edge :
    (cycles : ℕ) (input : Input) (s : State) → Edge input s.level (transition cycles input s).level
unfolding transition
transition-Edge cycles input s =
    grind (arith, stay, revoke_direct, quarantine, shut_down, cool_l1, cool_l2, restore, heal)

-- The healthy windows stay below the number that closes them, so no state in between shows it.
abbrev Counting : State → Type 0
Counting s = s.healthy_window_count < 3

transition-Counting :
    (cycles : ℕ) (input : Input) (s : State) → Counting s → Counting (transition cycles input s)
unfolding transition
transition-Counting cycles input s h = ground arith

run-Counting :
    (cycles : ℕ) (inputs : List Input) (s : State) → Counting s → Counting (run cycles s inputs)
unfolding run
run-Counting cycles [] s h = h
run-Counting cycles (input ∷ inputs) s h =
    run-Counting cycles inputs (transition cycles input s) (transition-Counting cycles input s h)

-- After any events on a new breaker with a 16-bit `CooldownCycles`, `HealthyWindowPassed` answers what `DirectAllowed` answers: the state that it
-- describes as "Recovering after enough healthy windows" does not occur.
pub healthy_window_passed-eq-direct_allowed :
    (cycles : ℕ) (inputs : List Input)
    → cycles < 65536
    → let word = handle_all cycles init_word inputs in
      healthy_window_passed word ≡ direct_allowed word
unfolding init_word healthy_window_passed direct_allowed level
healthy_window_passed-eq-direct_allowed cycles inputs h = ground (
  arith,
  unpack-handle_all cycles inputs h fresh-Fits,
  level-handle_all cycles inputs h fresh-Fits,
  run-Counting cycles inputs fresh (omega arith),
)

abbrev pub Unrestored : List Input → Type 0
Unrestored [] = Unit
Unrestored (input ∷ inputs) = (input ≢ on_external_safe_restore) × Unrestored inputs

transition_safe :
    (cycles : ℕ) (input : Input) (s : State)
    → s.level ≡ safe
    → input ≢ on_external_safe_restore
    → (transition cycles input s).level ≡ safe
unfolding transition
transition_safe cycles input s e h = ground arith

run_safe :
    (cycles : ℕ) (inputs : List Input) (s : State)
    → s.level ≡ safe
    → Unrestored inputs
    → (run cycles s inputs).level ≡ safe
unfolding run
run_safe cycles [] s e h = e
run_safe cycles (input ∷ inputs) s e h =
    run_safe cycles inputs (transition cycles input s) (transition_safe cycles input s e h.0) h.1

-- A breaker in the Safe level stays there, admits only safety events, drops what is not critical
-- and revokes the direct path, under any events but the external restore. Its state fits its bits, and
-- `CooldownCycles` is a 16-bit number.
pub safe_latched :
    (cycles : ℕ) (inputs : List Input) {s : State}
    → cycles < 65536
    → Fits s
    → s.level ≡ safe
    → Unrestored inputs
    → let word = handle_all cycles (pack s) inputs in
      (safe_events_only word ≡ true)
      × (drop_non_critical word ≡ true)
      × (direct_allowed word ≡ false)
unfolding safe_events_only drop_non_critical direct_allowed
safe_latched cycles inputs {s} h f e u =
    ground (arith, level-handle_all cycles inputs h f, run_safe cycles inputs s e u)
