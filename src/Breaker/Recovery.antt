-- ===== src/Breaker/Recovery.antt =====
-- How a broken breaker gets back to Normal: what it takes, and that it suffices.
use newosp.Base.{
  ◌∙◌, inr, inl, ap, ◌⊎◌, ℕ, zero, suc, ◌+◌, ◌-◌, ◌≤◌, ◌<◌, Bool, true, false, List, [], ◌∷◌, ◌++◌,
  ◌≡◌, refl, arith, replicate, if◌then◌else◌,
}
use newosp.Breaker.Transitions.{
  BreakerLevel, normal, broken_l1, broken_l2, recovering, is_normal, State,
}
use newosp.Breaker.{
  pack, Input, transition, handle_all, direct_allowed, on_dispatch_cycle, on_probe_success,
  on_watermark,
}
use newosp.Breaker.Packed.{Fits, run, level-handle_all}

-- How often the dispatch cycle, and a successful probe, stand in a list of events.
abbrev pub cycles_in : List Input → ℕ
cycles_in [] = 0
cycles_in (on_dispatch_cycle ∷ inputs) = suc (cycles_in inputs)
cycles_in (_ ∷ inputs) = cycles_in inputs

abbrev pub probes_in : List Input → ℕ
probes_in [] = 0
probes_in (on_probe_success ∷ inputs) = suc (probes_in inputs)
probes_in (_ ∷ inputs) = probes_in inputs

-- The dispatch cycles that are still to come before Normal: the last one of the cooldown may
-- already close a window.
abbrev pub cycles_needed : State → ℕ
cycles_needed s =
    if is_normal s.level then 0 else s.cooldown_remaining - 1 + (3 - s.healthy_window_count)

abbrev pub pending_probe : Bool → ℕ
pending_probe true = 1
pending_probe false = 0

abbrev pub probes_needed : State → ℕ
probes_needed s =
    if is_normal s.level then 0 else 3 - s.healthy_window_count - pending_probe s.probe_success

-- The invariant of the counters: the cooldown is at most `CooldownCycles`, and the healthy windows are
-- fewer than close.
pub record Gated (cycles : ℕ) (s : State) : Type 0 where
  pub cooldown : s.cooldown_remaining ≤ cycles
  pub healthy : s.healthy_window_count < 3

transition-Gated :
    (cycles : ℕ) (input : Input) {s : State}
    → Gated cycles s
    → Gated cycles (transition cycles input s)
unfolding transition
transition-Gated cycles input g = ground arith

transition_cycles :
    (cycles : ℕ) (input : Input) (inputs : List Input) {s : State}
    → Gated cycles s
    → cycles_needed s + cycles_in inputs
      ≤ cycles_needed (transition cycles input s) + cycles_in (input ∷ inputs)
unfolding transition
transition_cycles cycles input inputs g = ground arith

transition_probes :
    (cycles : ℕ) (input : Input) (inputs : List Input) {s : State}
    → Gated cycles s
    → probes_needed s + probes_in inputs
      ≤ probes_needed (transition cycles input s) + probes_in (input ∷ inputs)
unfolding transition
transition_probes cycles input inputs g = ground arith

run_needs :
    (cycles : ℕ) (inputs : List Input) {s : State}
    → Gated cycles s
    → let t = run cycles s inputs in
      (cycles_needed s ≤ cycles_needed t + cycles_in inputs)
      × (probes_needed s ≤ probes_needed t + probes_in inputs)
unfolding run
run_needs cycles [] g = omega arith
run_needs cycles (input ∷ inputs) g = omega (
  arith,
  transition_cycles cycles input inputs g,
  transition_probes cycles input inputs g,
  run_needs cycles inputs (transition-Gated cycles input g),
)

-- From a state that fits its bits, with a cooldown of at most `CooldownCycles`, a 16-bit number, and
-- fewer than three healthy windows: if the direct path is allowed after some events, these have the
-- dispatch cycles that the cooldown and the missing healthy windows need (one each, where the cycle
-- that ends the cooldown may count twice) and a successful probe for each missing window but one that
-- has its probe already.
pub recovery_lower_bound :
    (cycles : ℕ) (inputs : List Input) {s : State}
    → cycles < 65536
    → Fits s
    → Gated cycles s
    → direct_allowed (handle_all cycles (pack s) inputs) ≡ true
    → (cycles_needed s ≤ cycles_in inputs) × (probes_needed s ≤ probes_in inputs)
unfolding direct_allowed
recovery_lower_bound cycles inputs h f g e =
    ground (arith, level-handle_all cycles inputs h f, run_needs cycles inputs g)

-- What heals a breaker in BrokenL1 or BrokenL2: the cooldown, three low watermarks, and three
-- windows of a probe and a cycle.
abbrev pub healing : ℕ → ℕ → List Input
healing cooldown percent =
    replicate cooldown on_dispatch_cycle
    ++ (on_watermark percent
        ∷ on_watermark percent
        ∷ on_watermark percent
        ∷ on_probe_success
        ∷ on_dispatch_cycle
        ∷ on_probe_success
        ∷ on_dispatch_cycle
        ∷ on_probe_success
        ∷ on_dispatch_cycle
        ∷ [])

abbrev pub IsBroken : BreakerLevel → Type 0
IsBroken broken_l1 = Unit
IsBroken broken_l2 = Unit
IsBroken _ = ⊥

cycle_of_broken :
    (cycles : ℕ) (s : State)
    → IsBroken s.level
    → transition cycles on_dispatch_cycle s
      ≡ record s { cooldown_remaining = s.cooldown_remaining - 1 }
unfolding transition
cycle_of_broken cycles s b = ground arith

cool_down :
    (cycles n : ℕ) (inputs : List Input) (s : State)
    → IsBroken s.level
    → s.cooldown_remaining ≡ n
    → run cycles s (replicate n on_dispatch_cycle ++ inputs)
      ≡ run cycles (record s { cooldown_remaining = 0 }) inputs
unfolding run
cool_down cycles zero inputs s b e = ground (arith)
cool_down cycles (suc n) inputs s b e =
    ap (λ t. run cycles t (replicate n on_dispatch_cycle ++ inputs)) (cycle_of_broken cycles s b)
    ∙ cool_down cycles n inputs (record s { cooldown_remaining = s.cooldown_remaining - 1 }) b
        (omega arith)

-- Recovering, cooled down, with `n` healthy windows.
record Healing (n : ℕ) (s : State) : Type 0 where
  level_is : s.level ≡ recovering
  cooled : s.cooldown_remaining ≡ 0
  windows : s.healthy_window_count ≡ n

-- Broken and cooled down, with `n` low watermarks or more.
record Cooled (n : ℕ) (s : State) : Type 0 where
  broken : IsBroken s.level
  cooled : s.cooldown_remaining ≡ 0
  low : n ≤ s.low_watermark_consec

module _ (cycles : ℕ) where
  low_watermark :
      (n percent : ℕ) (s : State)
      → n < 3
      → percent < 50
      → Cooled n s ⊎ Healing 0 s
      → let t = transition cycles (on_watermark percent) s in Cooled (suc n) t ⊎ Healing 0 t
  unfolding transition
  low_watermark n percent s small h (inl c) = ground (arith)
  low_watermark n percent s small h (inr r) = ground (arith)

  third_low_watermark :
      (percent : ℕ) (s : State)
      → percent < 50
      → Cooled 2 s ⊎ Healing 0 s
      → Healing 0 (transition cycles (on_watermark percent) s)
  unfolding transition
  third_low_watermark percent s h (inl c) = ground arith
  third_low_watermark percent s h (inr r) = ground arith

  healthy_window :
      (n : ℕ) (s : State)
      → n < 2
      → Healing n s
      → Healing (suc n) (transition cycles on_dispatch_cycle (transition cycles on_probe_success s))
  unfolding transition
  healthy_window n s small r = ground arith

  last_window :
      (s : State)
      → Healing 2 s
      → (transition cycles on_dispatch_cycle (transition cycles on_probe_success s)).level ≡ normal
  unfolding transition
  last_window s r = ground arith

  heal-Cooled :
      (percent : ℕ) (s : State)
      → percent < 50
      → Cooled 0 s
      → (run cycles s (healing 0 percent)).level ≡ normal
  unfolding run
  heal-Cooled percent s h c = last_window _ (
      healthy_window 1 _ (omega arith) (
        healthy_window 0 _ (omega arith) (
          third_low_watermark percent _ h (
            low_watermark 1 percent _ (omega arith) h
              (low_watermark 0 percent _ (omega arith) h (inl c))))))

  -- A breaker in BrokenL1 or BrokenL2 is back in Normal, with the direct path, after one dispatch
  -- cycle for each that its cooldown has left, three watermarks below 50, and three rounds of a
  -- successful probe and a dispatch cycle, if its state fits its bits and `CooldownCycles` is a 16-bit
  -- number.
  pub healing_heals :
      (percent : ℕ) {s : State}
      → cycles < 65536
      → Fits s
      → IsBroken s.level
      → percent < 50
      → direct_allowed (handle_all cycles (pack s) (healing s.cooldown_remaining percent)) ≡ true
  unfolding direct_allowed
  healing_heals percent {s} small f b h = ground (
    arith,
    level-handle_all cycles (healing s.cooldown_remaining percent) small f,
    cool_down cycles s.cooldown_remaining (healing 0 percent) s b refl,
    heal-Cooled percent (record s { cooldown_remaining = 0 }) h
        (record { broken = b; cooled = refl; low = omega arith }),
  )
