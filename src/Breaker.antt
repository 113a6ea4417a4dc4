-- ===== src/Breaker.antt =====
-- include/osp/breaker.hpp: the circuit breaker's packed word, its event handlers and its queries.
-- A handler is a transition (`Transitions`) run by `Update` on the word.
pub mod Transitions
pub mod Packed
pub mod Linear
pub mod Levels
pub mod Recovery
mod Tests
use mathlib.Core.Option
use newosp.Base.{
  ℕ, ◌+◌, ◌*◌, ◌%◌, ◌^◌, bit_and, bit_or, shr, Bool, true, false, ◌||◌, ◌&&◌, not, List, [], ◌∷◌,
  Option, none, some, leb, ◌==◌, if◌then◌else◌,
}
use Transitions.{
  BreakerLevel, level_code, level_of, is_normal, is_broken_l2, is_safe, is_recovering, State,
  counter_mask, healthy_windows_required, watermark_violation_pct, fresh, direct_timeout_transition,
  rtc_timeout_transition, watermark_transition, overflow_transition, key_reserve_transition,
  probe_failure_transition, dispatch_cycle_transition, probe_success_transition,
  safe_restore_transition, rtc_ok_transition,
}

abbrev pub level_mask : ℕ
level_mask = 0x7

abbrev pub cooldown_mask : ℕ
cooldown_mask = 0xffff

-- `static_cast<uint32_t>(x) << k`
abbrev pub shl32 : ℕ → ℕ → ℕ
shl32 x k = x * 2 ^ k % 2 ^ 32

abbrev pub bit_of : Bool → ℕ
bit_of true = 1
bit_of false = 0

-- `Pack`
unfoldable pub pack : State → ℕ
pack s =
    bit_or
      (bit_or
        (bit_or
          (bit_or
            (bit_or
              (bit_or (bit_or (shl32 (level_code s.level) 0) (shl32 s.cooldown_remaining 3))
                (shl32 s.direct_timeout_consec 19))
              (shl32 s.rtc_timeout_consec 21))
            (shl32 s.high_watermark_consec 23))
          (shl32 s.low_watermark_consec 25))
        (shl32 s.healthy_window_count 27))
      (shl32 (bit_of s.probe_success) 29)

-- `Unpack`
unfoldable pub unpack : ℕ → State
unpack packed = record {
  level = level_of (bit_and (shr packed 0) level_mask);
  cooldown_remaining = bit_and (shr packed 3) cooldown_mask;
  direct_timeout_consec = bit_and (shr packed 19) counter_mask;
  rtc_timeout_consec = bit_and (shr packed 21) counter_mask;
  high_watermark_consec = bit_and (shr packed 23) counter_mask;
  low_watermark_consec = bit_and (shr packed 25) counter_mask;
  healthy_window_count = bit_and (shr packed 27) counter_mask;
  probe_success = not (bit_and (shr packed 29) 0x1 == 0);
}

-- One `compare_exchange_weak`: the word that other threads have left in memory before it, and whether it
-- fails for no reason.
pub record Attempt : Type 0 where
  pub memory : ℕ
  pub spurious : Bool

-- What an access of `Update` to the word finds, and what it leaves.
pub record Access : Type 0 where
  pub before : ℕ
  pub after : ℕ

-- The loop of `Update` from the word that the load or the last exchange has read: its exchanges. `none` is
-- no end within the attempts.
unfoldable pub update_loop : (State → State) → ℕ → List Attempt → Option (List Access)
update_loop transition observed [] =
    let desired = pack (transition (unpack observed)) in
    if desired == observed then some [] else none
update_loop transition observed (a ∷ later) =
    let desired = pack (transition (unpack observed)) in
    let failed : Access = record { before = a.memory; after = a.memory } in
    let retry = Option.map (λ l. failed ∷ l) (update_loop transition a.memory later) in
    if desired == observed
    then some []
    else if (a.memory == observed) && not a.spurious
    then some (record { before = a.memory; after = desired } ∷ [])
    else retry

-- `Update` on a word in memory: its accesses, the load first.
unfoldable pub update_accesses : (State → State) → ℕ → List Attempt → Option (List Access)
unfolding update_loop
update_accesses transition word attempts =
    Option.map (λ l. record { before = word; after = word } ∷ l)
      (update_loop transition word attempts)

-- What an access leaves, the last of some.
abbrev pub left_by : ℕ → List Access → ℕ
left_by word [] = word
left_by word (a ∷ accesses) = left_by a.after accesses

-- `Update` with no interference.
unfoldable pub update : (State → State) → ℕ → ℕ
unfolding update_accesses
update transition word =
    elim (update_accesses transition word (record { memory = word; spurious = false } ∷ [])) [
      | none ↦ word
      | some accesses ↦ left_by word accesses
    ]

-- The public event inputs. `OnWatermark` takes a percentage.
pub data Input : Type 0 where
  on_direct_timeout on_rtc_timeout on_watermark_violation on_overflow : Input
  on_key_reserve_exhausted on_watchdog on_dispatch_cycle : Input
  on_probe_success on_probe_failure on_external_safe_restore on_rtc_ok : Input
  on_watermark : ℕ → Input

-- The transition of each handler. `OnWatermarkViolation` is `OnWatermark(81)`, and `OnWatchdog` is
-- `OnKeyReserveExhausted`.
unfoldable pub transition : ℕ → Input → State → State
unfolding direct_timeout_transition rtc_timeout_transition watermark_transition overflow_transition
    key_reserve_transition probe_failure_transition dispatch_cycle_transition
    probe_success_transition safe_restore_transition rtc_ok_transition
transition cycles on_direct_timeout s = direct_timeout_transition cycles s
transition cycles on_rtc_timeout s = rtc_timeout_transition cycles s
transition cycles on_watermark_violation s =
    watermark_transition cycles ((watermark_violation_pct + 1) % 256) s
transition cycles on_overflow s = overflow_transition cycles s
transition cycles on_key_reserve_exhausted s = key_reserve_transition cycles s
transition cycles on_watchdog s = key_reserve_transition cycles s
transition cycles on_dispatch_cycle s = dispatch_cycle_transition s
transition cycles on_probe_success s = probe_success_transition s
transition cycles on_probe_failure s = probe_failure_transition cycles s
transition cycles on_external_safe_restore s = safe_restore_transition s
transition cycles on_rtc_ok s = rtc_ok_transition s
transition cycles (on_watermark percent) s = watermark_transition cycles percent s

-- The breaker object: its word, and one handler call.
unfoldable pub init_word : ℕ
unfolding pack
init_word = pack fresh

unfoldable pub handle : ℕ → ℕ → Input → ℕ
unfolding update transition
handle cycles word input = update (transition cycles input) word

unfoldable pub handle_all : ℕ → ℕ → List Input → ℕ
handle_all cycles word [] = word
handle_all cycles word (input ∷ inputs) = handle_all cycles (handle cycles word input) inputs

-- The queries.
unfoldable pub level : ℕ → BreakerLevel
level word = (unpack word).level

unfoldable pub direct_allowed : ℕ → Bool
unfolding level
direct_allowed word = is_normal (level word)

healthy_window_passed_state : State → Bool
healthy_window_passed_state s =
    if is_normal s.level
    then true
    else if is_recovering s.level
    then leb healthy_windows_required s.healthy_window_count
    else false

unfoldable pub healthy_window_passed : ℕ → Bool
unfolding healthy_window_passed_state
healthy_window_passed word = healthy_window_passed_state (unpack word)

unfoldable pub drop_non_critical : ℕ → Bool
unfolding level
drop_non_critical word = is_broken_l2 (level word) || is_safe (level word)

unfoldable pub safe_events_only : ℕ → Bool
unfolding level
safe_events_only word = is_safe (level word)
