-- ===== src/TimerScheduler/Rounds.antt =====
-- What a round of ScheduleLoop does to the table of tasks, and how long it sleeps.
use newosp.Base.{
  ◌+◌, ◌^◌, ◌≤◌, ◌<◌, if◌then◌else◌, Bool, true, false, ◌&&◌, not, Option, none, some, List, [],
  ◌∷◌, ◌++◌, ◌≡◌, refl, leb, arith, inl, inr, Bool-cases, ℕ, All,
}
use newosp.TimerScheduler.{
  TimerScheduler, TaskSlot, PendingTask, collect, least, scan, sleep_time, round, uint64_max,
}
use newosp.TimerScheduler.Rearm.{rearmed, advance-rearmed, rearmed-gt}

-- A slot that is free, or whose task the loop can put off without a wrap of the 64 bits of the time.
pub record IsSane (now : ℕ) (slot : TaskSlot) : Type 0 where
  pub pos : slot.active ≡ true → 0 < slot.period_ns
  pub word : slot.active ≡ true → now + slot.period_ns < 2 ^ 64

abbrev pub is_due : ℕ → TaskSlot → Bool
is_due now slot = slot.active && leb slot.next_fire_ns now

-- The callbacks of a slot that is due, and the slot after the round.
abbrev pub fired : ℕ → TaskSlot → List PendingTask
fired now slot = if is_due now slot then record { fn = slot.fn; ctx = slot.ctx } ∷ [] else []

abbrev pub settled : ℕ → TaskSlot → TaskSlot
settled now slot =
    if not (is_due now slot)
    then slot
    else (if slot.one_shot
        then record slot { active = false }
        else record slot { next_fire_ns = rearmed slot.period_ns now slot.next_fire_ns })

abbrev pub fired_all : ℕ → List TaskSlot → List PendingTask
fired_all now [] = []
fired_all now (slot ∷ slots) = fired now slot ++ fired_all now slots

abbrev pub settle_all : ℕ → List TaskSlot → List TaskSlot
settle_all now [] = []
settle_all now (slot ∷ slots) = settled now slot ∷ settle_all now slots

abbrev pub least_all : ℕ → ℕ → List TaskSlot → ℕ
least_all now m [] = m
least_all now m (slot ∷ slots) = least_all now (least now slot m) slots

collect_lem :
    (fuel now : ℕ) (slot : TaskSlot)
    → now < fuel
    → IsSane now slot
    → collect fuel now slot ≡ some (fired now slot, settled now slot)
unfolding collect
collect_lem fuel now slot enough sane = elim (Bool-cases (is_due now slot)) [
  | inr not_due ↦ ground arith
  | inl due ↦
      let le : slot.next_fire_ns ≤ now = ground arith in
      let on : slot.active ≡ true = ground arith in
      let at : leb slot.next_fire_ns now ≡ true = ground arith in
      let next =
        advance-rearmed fuel slot.period_ns now slot.next_fire_ns (sane.pos on) (sane.word on) le
          enough in
      (elim (Bool-cases slot.one_shot) [
        | inl once ↦ ground arith
        | inr again ↦ ground (arith, next)
      ])
]

scan_lem :
    (fuel now m : ℕ) (slots : List TaskSlot)
    → now < fuel
    → All (IsSane now) slots
    → scan fuel now m slots
      ≡ some (fired_all now slots, (settle_all now slots, least_all now m (settle_all now slots)))
unfolding scan
scan_lem fuel now m [] enough sane = refl
scan_lem fuel now m (slot ∷ slots) enough sane =
    let one = collect_lem fuel now slot enough sane.0 in
    let rest = scan_lem fuel now (least now (settled now slot) m) slots enough sane.1 in
    rw (one, rest) refl

settled_not_due :
    (now : ℕ) (slot : TaskSlot) → IsSane now slot → is_due now (settled now slot) ≡ false
settled_not_due now slot sane = elim (Bool-cases (is_due now slot)) [
  | inr not_due ↦ ground arith
  | inl due ↦
      let on : slot.active ≡ true = ground arith in
      let after = rearmed-gt slot.period_ns now slot.next_fire_ns (sane.pos on) (ground arith) in
      ground arith
]

settle_all_not_due :
    (now : ℕ) (slots : List TaskSlot)
    → All (IsSane now) slots
    → All (λ slot. is_due now slot ≡ false) (settle_all now slots)
settle_all_not_due now [] sane = tt
settle_all_not_due now (slot ∷ slots) sane =
    (settled_not_due now slot sane.0, settle_all_not_due now slots sane.1)

-- A round of the loop, with fuel for the nanoseconds since the clock's start, ends: it calls the
-- callbacks of the tasks that are due, each once and in the order of the slots; it makes their one-shot
-- slots free and puts the periodic ones off by whole periods to the first time after the present, and
-- leaves the other slots as they were. No task is due then. The periods of the active slots are of one
-- nanosecond at least, and the time stays within 64 bits for such a period; of a free slot nothing is asked.
pub round_lem :
    (fuel now : ℕ) (s : TimerScheduler)
    → now < fuel
    → All (IsSane now) s.slots
    → (round fuel now s
        ≡ some (
          fired_all now s.slots,
          (
            record s { slots = settle_all now s.slots },
            sleep_time (least_all now uint64_max (settle_all now s.slots)),
          ),
        ))
      × All (λ slot. is_due now slot ≡ false) (settle_all now s.slots)
unfolding round
round_lem fuel now s enough sane = (
  rw (scan_lem fuel now uint64_max s.slots enough sane) refl,
  settle_all_not_due now s.slots sane,
)

abbrev slots_of :
    TimerScheduler → Option (List PendingTask × (TimerScheduler × Option ℕ)) → List TaskSlot
slots_of s none = s.slots
slots_of s (some (calls, (t, d))) = t.slots

abbrev sleep_of : Option (List PendingTask × (TimerScheduler × Option ℕ)) → Option ℕ
sleep_of none = none
sleep_of (some (calls, (t, d))) = d
