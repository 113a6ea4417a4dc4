-- ===== src/Watchdog/Tests.antt =====
-- The watchdog at concrete inputs: each theorem where its hypotheses hold.
use newosp.Base.{
  ◌-◌, if◌then◌else◌, ltb, set, ℕ, ◌≡◌, ◌+◌, ◌^◌, refl, arith, List, [], ◌∷◌, none, some, true,
  false,
}
use newosp.Watchdog.{
  is_timed_out, owned, feed, not_registered, success, error, unregister, occupy, encoded_id,
  slot_bits, timed_out_count, Slot, ThreadWatchdog, check, register,
}
use newosp.Watchdog.Edges.{late_count, settle_all, check_settles}
use newosp.Watchdog.Stale.{Use, use_all, registers, feeds, checks, stale_id_refused}
use newosp.Watchdog.Ids.{first_free, unregister-register}

-- A slot that beat at 1000 and may be silent for 5000 microseconds, and a free one.
abbrev busy : Slot
busy = record {
  active = true;
  generation = 1;
  last_beat_us = 1000;
  timeout_us = 5000;
  timed_out = false;
  name = 65 ∷ [];
}

abbrev free_slot : ℕ → Slot
free_slot g = record {
  active = false;
  generation = g;
  last_beat_us = 0;
  timeout_us = 0;
  timed_out = false;
  name = [];
}

abbrev watched : ThreadWatchdog ℕ
watched = record { slots = busy ∷ free_slot 3 ∷ []; on_timeout = some 7; on_recovered = none }

check_settles_example :
    let (n, calls, w') = check 2 9000 watched in
    (n ≡ late_count 9000 watched.slots)
    × (w' ≡ record watched { slots = settle_all 9000 watched.slots })
    × (timed_out_count w'.slots ≡ n)
    × (check 2 9000 w' ≡ (n, [], w'))
check_settles_example = check_settles 2 9000 watched

abbrev spent : List Slot
spent = busy ∷ free_slot 2147483648 ∷ []

spent-first_free : first_free spent ≡ some (1, free_slot 2147483648)
unfolding first_free
spent-first_free = refl

-- A generation that the 31 bits of the id cannot hold.
unregister-register_example :
    let slots = spent in
    let t = occupy 50 none 10 (free_slot 2147483648) in
    let id = encoded_id (slot_bits 2) (2147483648 + 1) 1 in
    let slots' = set slots 1 t in
    (register 2 50 none 10 slots ≡ (success id, slots'))
    × (unregister 2 id slots' ≡ (
        if ltb (2147483648 + 1) (2 ^ (32 - slot_bits 2))
        then (success tt, set slots 1 (record t { active = false }))
        else (error not_registered, slots')))
unregister-register_example =
    unregister-register 2 50 none 10 spent 1 (free_slot 2147483648) spent-first_free refl
      (omega arith) (omega arith) (omega arith)

-- The id of the busy slot: generation 1, index 0. It is given back, and the slot is taken again.
abbrev given_back : List Slot
given_back = record busy { active = false } ∷ free_slot 3 ∷ []

abbrev reuse : List Use
reuse = registers 60 none 5 ∷ checks 9000 ∷ feeds 70 2 ∷ []

busy_unregistered : unregister 2 2 watched.slots ≡ (success tt, given_back)
unfolding unregister owned
busy_unregistered = refl

stale_id_refused_example :
    let later = use_all 2 reuse given_back in
    (unregister 2 2 later ≡ (error not_registered, later))
    × ((now : ℕ) → feed 2 now 2 later ≡ later)
    × (is_timed_out 2 later 2 ≡ false)
stale_id_refused_example = stale_id_refused 2 2 reuse watched.slots busy_unregistered (omega arith)
