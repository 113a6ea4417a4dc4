-- ===== src/Watchdog/Edges.antt =====
-- ThreadWatchdog::Check against its specification: it counts the late slots, and calls back only where
-- a slot's state changes.
use newosp.Base.{
  none, some, Option, sym, ℕ, List, [], ◌∷◌, if◌then◌else◌, refl, ap, ◌∙◌, arith, ◌≡◌, ◌+◌, ◌&&◌,
}
use newosp.Watchdog.{
  slot_bits, ThreadWatchdog, calls_of, check, Slot, is_late, check_from, check_slot, Collected,
  timed_out_count,
}

-- The slot with its flag as the clock says.
abbrev settle : ℕ → Slot → Slot
settle now s = if s.active then record s { timed_out = is_late now s } else s

abbrev pub settle_all : ℕ → List Slot → List Slot
settle_all now [] = []
settle_all now (s ∷ rest) = settle now s ∷ settle_all now rest

-- The number of active slots that are late.
unfoldable pub late_count : ℕ → List Slot → ℕ
late_count now [] = 0
late_count now (s ∷ rest) = (if s.active && is_late now s then 1 else 0) + late_count now rest

-- What Check collects if no flag has to change.
abbrev quiet : List Slot → ℕ → Collected
quiet slots n = record {
  slots_after = slots;
  timeout_pending = [];
  recover_pending = [];
  total_timed_out = n;
}

module _ (bits now : ℕ) where
  abbrev turn : ℕ → Slot → Collected → Collected
  turn i s c =
      if s.active then check_slot bits now i s c else record c { slots_after = s ∷ c.slots_after }

  slot_after :
      (i : ℕ) (s : Slot) (c : Collected) → (turn i s c).slots_after ≡ settle now s ∷ c.slots_after
  slot_after i s c = ground arith

  pub slots_after-settle_all :
      (i : ℕ) (slots : List Slot) → (check_from bits now i slots).slots_after ≡ settle_all now slots
  unfolding check_from
  slots_after-settle_all i [] = refl
  slots_after-settle_all i (s ∷ rest) =
      slot_after i s (check_from bits now (i + 1) rest)
      ∙ ap (λ l. settle now s ∷ l) (slots_after-settle_all (i + 1) rest)

  total-late_count :
      (i : ℕ) (slots : List Slot)
      → (check_from bits now i slots).total_timed_out ≡ late_count now slots
  unfolding check_from late_count
  total-late_count i [] = refl
  total-late_count i (s ∷ rest) = ground (arith, total-late_count (i + 1) rest)

  timed_out_count-settle :
      (slots : List Slot) → timed_out_count (settle_all now slots) ≡ late_count now slots
  unfolding timed_out_count late_count
  timed_out_count-settle [] = refl
  timed_out_count-settle (s ∷ rest) = ground (arith, timed_out_count-settle rest)

  turn_settled :
      (i : ℕ) (s : Slot) (slots : List Slot) (n : ℕ)
      → turn i (settle now s) (quiet slots n)
        ≡ quiet (settle now s ∷ slots) ((if s.active && is_late now s then 1 else 0) + n)
  turn_settled i s slots n = ground arith

  check_from-settled :
      (i : ℕ) (slots : List Slot)
      → check_from bits now i (settle_all now slots)
        ≡ quiet (settle_all now slots) (late_count now slots)
  unfolding check_from late_count
  check_from-settled i [] = refl
  check_from-settled i (s ∷ rest) =
      ap (turn i (settle now s)) (check_from-settled (i + 1) rest)
      ∙ turn_settled i s (settle_all now rest) (late_count now rest)

module _ {ℓ} {F : Type ℓ} (max_threads : ℕ) where
  no_calls : (fn : Option F) → calls_of max_threads fn [] ≡ []
  unfolding calls_of
  no_calls none = refl
  no_calls (some fn) = refl

  -- Check returns the number of active slots that are late, sets the flag of each active slot to
  -- whether it is late, and changes nothing else; TimedOutCount then gives the number that Check
  -- returned, and a second Check at the same time returns it again, calls no callback and changes
  -- nothing.
  pub check_settles :
      (now : ℕ) (w : ThreadWatchdog F)
      → let (n, calls, w') = check max_threads now w in
        (n ≡ late_count now w.slots)
        × (w' ≡ record w { slots = settle_all now w.slots })
        × (timed_out_count w'.slots ≡ n)
        × (check max_threads now w' ≡ (n, [], w'))
  unfolding check
  check_settles now w =
      let bits = slot_bits max_threads in
      let same = slots_after-settle_all bits now 0 w.slots in
      let total = total-late_count bits now 0 w.slots in
      (
        total,
        ap (λ l. record w { slots = l }) same,
        ap timed_out_count same ∙ timed_out_count-settle bits now w.slots ∙ sym total,
        rw
            (
              same,
              total,
              check_from-settled bits now 0 w.slots,
              no_calls w.on_timeout,
              no_calls w.on_recovered,
            )
            refl,
      )
