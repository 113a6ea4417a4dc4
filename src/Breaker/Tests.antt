-- ===== src/Breaker/Tests.antt =====
-- The breaker at concrete inputs: runs of the code, and each theorem where its hypotheses hold.
use newosp.Base.{List, ◌≤◌, true, false, [], ◌∷◌, ◌≡◌, refl, arith}
use newosp.Breaker.Transitions.{broken_l1, broken_l2, safe, State}
use newosp.Breaker.{
  handle, pack, unpack, on_direct_timeout, on_dispatch_cycle, on_rtc_timeout, on_watchdog,
  on_watermark, on_overflow, transition, init_word, handle_all, level, direct_allowed,
  drop_non_critical, safe_events_only, Attempt, update_accesses,
}
use newosp.Breaker.Packed.{run, handle_all-pack}
use newosp.Breaker.Linear.{Linearizes, update-Linearizes}
use newosp.Breaker.Levels.{safe_latched}
use newosp.Breaker.Recovery.{
  healing, cycles_in, probes_in, cycles_needed, probes_needed, recovery_lower_bound, healing_heals,
}

abbrev quarantined : State
quarantined = record {
  level = broken_l2;
  cooldown_remaining = 2;
  direct_timeout_consec = 0;
  rtc_timeout_consec = 0;
  high_watermark_consec = 0;
  low_watermark_consec = 1;
  healthy_window_count = 0;
  probe_success = false;
}

abbrev shut : State
shut = record quarantined { level = safe; rtc_timeout_consec = 3; probe_success = true }

three_timeouts_break :
    level
      (handle_all 100 init_word (on_direct_timeout ∷ on_direct_timeout ∷ on_direct_timeout ∷ []))
    ≡ broken_l1
unfolding level handle_all init_word unpack handle
three_timeouts_break = refl

handle_all-pack_example :
    handle_all 2 (pack quarantined) (on_watermark 90 ∷ on_watchdog ∷ [])
    ≡ pack (run 2 quarantined (on_watermark 90 ∷ on_watchdog ∷ []))
handle_all-pack_example =
    handle_all-pack 2 (on_watermark 90 ∷ on_watchdog ∷ []) {s = quarantined} (omega arith)
      (omega arith)

-- Another thread quarantines between the load and the first exchange, which fails; the second one is made.
abbrev attempts : List Attempt
attempts =
    record { memory = pack quarantined; spurious = false }
    ∷ record { memory = pack quarantined; spurious = false }
    ∷ []

update-Linearizes_example :
    Linearizes
      (transition 2 on_overflow)
      (init_word ∷ pack quarantined ∷ pack quarantined ∷ [])
      (update_accesses (transition 2 on_overflow) init_word attempts)
update-Linearizes_example =
    update-Linearizes (transition 2 on_overflow) init_word
      (record { memory = pack quarantined; spurious = false } ∷ []) []

safe_latched_example :
    let word = handle_all 2 (pack shut) (on_dispatch_cycle ∷ on_rtc_timeout ∷ []) in
    (safe_events_only word ≡ true) × (drop_non_critical word ≡ true) × (direct_allowed word ≡ false)
safe_latched_example =
    safe_latched 2 (on_dispatch_cycle ∷ on_rtc_timeout ∷ []) {s = shut} (omega arith) (omega arith)
      refl (ground arith)

healed : direct_allowed (handle_all 2 (pack quarantined) (healing 2 10)) ≡ true
unfolding direct_allowed handle_all unpack handle pack
healed = refl

recovery_lower_bound_example :
    (cycles_needed quarantined ≤ cycles_in (healing 2 10))
    × (probes_needed quarantined ≤ probes_in (healing 2 10))
recovery_lower_bound_example =
    recovery_lower_bound 2 (healing 2 10) {s = quarantined} (omega arith) (omega arith)
      (omega arith) healed

healing_heals_example : direct_allowed (handle_all 2 (pack quarantined) (healing 2 10)) ≡ true
healing_heals_example =
    healing_heals 2 10 {s = quarantined} (omega arith) (omega arith) tt (omega arith)
