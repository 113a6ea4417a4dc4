-- ===== src/Breaker/Transitions.antt =====
-- include/osp/breaker.hpp: the breaker's state and the transitions that its handlers hand to
-- `Update`. `CooldownCycles` is the argument `cycles`.
use newosp.Base.{ℕ, ◌+◌, ◌-◌, Bool, true, false, ◌&&◌, not, ltb, leb, ◌==◌, if◌then◌else◌}

-- `enum class BreakerLevel : uint8_t`. A cast can give a value that no enumerator has.
pub data BreakerLevel : Type 0 where
  normal broken_l1 broken_l2 safe recovering : BreakerLevel
  unnamed : ℕ → BreakerLevel

abbrev pub level_code : BreakerLevel → ℕ
level_code normal = 0
level_code broken_l1 = 1
level_code broken_l2 = 2
level_code safe = 3
level_code recovering = 4
level_code (unnamed n) = n

-- `static_cast<BreakerLevel>`
abbrev pub level_of : ℕ → BreakerLevel
level_of n =
    if n == 0
    then normal
    else if n == 1
    then broken_l1
    else if n == 2
    then broken_l2
    else if n == 3
    then safe
    else if n == 4
    then recovering
    else unnamed n

abbrev pub is_normal : BreakerLevel → Bool
is_normal normal = true
is_normal _ = false

abbrev pub is_broken_l2 : BreakerLevel → Bool
is_broken_l2 broken_l2 = true
is_broken_l2 _ = false

abbrev pub is_safe : BreakerLevel → Bool
is_safe safe = true
is_safe _ = false

abbrev pub is_recovering : BreakerLevel → Bool
is_recovering recovering = true
is_recovering _ = false

pub record State : Type 0 where
  pub level : BreakerLevel
  pub cooldown_remaining : ℕ  -- uint16_t
  pub direct_timeout_consec : ℕ  -- uint8_t, as all below
  pub rtc_timeout_consec : ℕ
  pub high_watermark_consec : ℕ
  pub low_watermark_consec : ℕ
  pub healthy_window_count : ℕ
  pub probe_success : Bool

abbrev pub direct_timeout_threshold : ℕ
direct_timeout_threshold = 3

abbrev pub rtc_timeout_threshold : ℕ
rtc_timeout_threshold = 3

abbrev pub watermark_violation_pct : ℕ
watermark_violation_pct = 80

abbrev pub low_watermark_pct : ℕ
low_watermark_pct = 50

abbrev pub high_watermark_persist : ℕ
high_watermark_persist = 3

abbrev pub low_watermark_persist : ℕ
low_watermark_persist = 3

abbrev pub healthy_windows_required : ℕ
healthy_windows_required = 3

abbrev pub counter_mask : ℕ
counter_mask = 0x3

-- `Increment`
abbrev pub increment : ℕ → ℕ
increment counter = if ltb counter counter_mask then counter + 1 else counter

-- `ResetMetrics`
abbrev pub reset_metrics : State → State
reset_metrics s = record s {
  direct_timeout_consec = 0;
  rtc_timeout_consec = 0;
  high_watermark_consec = 0;
  low_watermark_consec = 0;
  healthy_window_count = 0;
  probe_success = false;
}

-- The breaker as it is constructed.
abbrev pub fresh : State
fresh = record {
  level = normal;
  cooldown_remaining = 0;
  direct_timeout_consec = 0;
  rtc_timeout_consec = 0;
  high_watermark_consec = 0;
  low_watermark_consec = 0;
  healthy_window_count = 0;
  probe_success = false;
}

-- `EnterRecovering`
abbrev pub enter_recovering : State → State
enter_recovering s = reset_metrics (record s { level = recovering })

module _ (cycles : ℕ) where
  -- `EnterL1`, `EnterL2`, `EnterSafe`
  abbrev pub enter_l1 : State → State
  enter_l1 s = reset_metrics (record s { level = broken_l1; cooldown_remaining = cycles })

  abbrev pub enter_l2 : State → State
  enter_l2 s = reset_metrics (record s { level = broken_l2; cooldown_remaining = cycles })

  abbrev pub enter_safe : State → State
  enter_safe s = reset_metrics (record s { level = safe; cooldown_remaining = cycles })

  abbrev direct_timeout_switch : BreakerLevel → State → State
  direct_timeout_switch normal s =
      if leb direct_timeout_threshold s.direct_timeout_consec then enter_l1 s else s
  direct_timeout_switch recovering s = enter_l2 s
  direct_timeout_switch _ s = s

  unfoldable pub direct_timeout_transition : State → State
  direct_timeout_transition s =
      direct_timeout_switch s.level
        (record s { direct_timeout_consec = increment s.direct_timeout_consec })

  abbrev rtc_timeout_switch : BreakerLevel → State → State
  rtc_timeout_switch normal s =
      if leb rtc_timeout_threshold s.rtc_timeout_consec then enter_l2 s else s
  rtc_timeout_switch broken_l1 s =
      if leb rtc_timeout_threshold s.rtc_timeout_consec then enter_l2 s else s
  rtc_timeout_switch recovering s = enter_l2 s
  rtc_timeout_switch _ s = s

  unfoldable pub rtc_timeout_transition : State → State
  rtc_timeout_transition s =
      rtc_timeout_switch s.level (record s { rtc_timeout_consec = increment s.rtc_timeout_consec })

  -- The first `if` of `OnWatermark`: the two counters.
  abbrev pub count_watermark : ℕ → State → State
  count_watermark percent s =
      if ltb watermark_violation_pct percent
      then record s {
        high_watermark_consec = increment s.high_watermark_consec;
        low_watermark_consec = 0;
      }
      else if ltb percent low_watermark_pct
      then record s {
        low_watermark_consec = increment s.low_watermark_consec;
        high_watermark_consec = 0;
      }
      else record s { high_watermark_consec = 0; low_watermark_consec = 0 }

  abbrev recover_if_cool : State → State
  recover_if_cool s =
      if s.cooldown_remaining == 0 && leb low_watermark_persist s.low_watermark_consec
      then enter_recovering s
      else s

  abbrev watermark_switch : ℕ → BreakerLevel → State → State
  watermark_switch percent normal s =
      if leb high_watermark_persist s.high_watermark_consec then enter_l2 s else s
  watermark_switch percent broken_l1 s =
      if leb high_watermark_persist s.high_watermark_consec then enter_l2 s else recover_if_cool s
  watermark_switch percent broken_l2 s = recover_if_cool s
  watermark_switch percent recovering s = if leb low_watermark_pct percent then enter_l2 s else s
  watermark_switch percent _ s = s

  unfoldable pub watermark_transition : ℕ → State → State
  watermark_transition percent s = watermark_switch percent s.level (count_watermark percent s)

  abbrev overflow_switch : BreakerLevel → State → State
  overflow_switch normal s = enter_l2 s
  overflow_switch broken_l1 s = enter_l2 s
  overflow_switch recovering s = enter_l2 s
  overflow_switch _ s = s

  unfoldable pub overflow_transition : State → State
  overflow_transition s = overflow_switch s.level s

  unfoldable pub key_reserve_transition : State → State
  key_reserve_transition s = if not (is_safe s.level) then enter_safe s else s

  unfoldable pub probe_failure_transition : State → State
  probe_failure_transition s = if is_recovering s.level then enter_l2 s else s

abbrev close_window : State → State
close_window s =
    if leb healthy_windows_required s.healthy_window_count
    then record s { level = normal; healthy_window_count = 0 }
    else s

abbrev open_window : State → State
open_window s =
    if is_recovering s.level && s.cooldown_remaining == 0 && s.probe_success
    then close_window (record s {
      healthy_window_count = increment s.healthy_window_count;
      probe_success = false;
    })
    else s

-- `--state.cooldown_remaining` runs only above 0, so the truncated `-` is exact.
unfoldable pub dispatch_cycle_transition : State → State
dispatch_cycle_transition s = open_window (
    if ltb 0 s.cooldown_remaining
    then record s { cooldown_remaining = s.cooldown_remaining - 1 }
    else s)

unfoldable pub probe_success_transition : State → State
probe_success_transition s = if is_recovering s.level then record s { probe_success = true } else s

unfoldable pub safe_restore_transition : State → State
safe_restore_transition s = if is_safe s.level then enter_recovering s else s

unfoldable pub rtc_ok_transition : State → State
rtc_ok_transition s = record s { direct_timeout_consec = 0; rtc_timeout_consec = 0 }
