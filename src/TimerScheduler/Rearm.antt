-- ===== src/TimerScheduler/Rearm.antt =====
-- The inner loop of ScheduleLoop advances a task by whole periods, past the present.
use native.Mathlib.Nat.{
  add-div_right, div-eq_of_lt, lt-div-mul-add, div-mul-le_self, suc-mul, zero-mul,
}
use newosp.Base.{
  zero, suc, ◌+◌, ◌-◌, ◌*◌, ◌/◌, ◌%◌, ◌^◌, ◌≤◌, ◌<◌, some, ◌≡◌, arith, ap, sym, ◌∙◌, dec_lt, ℕ,
}
use newosp.TimerScheduler.{advance}

-- The first time after `now` that is a whole number of periods, one at least, after `next`.
abbrev pub rearmed : ℕ → ℕ → ℕ → ℕ
rearmed period now next = next + (now - next) / period * period + period

advance_ahead : (fuel period now next : ℕ) → now < next → advance fuel period now next ≡ some next
unfolding advance
advance_ahead zero period now next lt = ground arith
advance_ahead (suc fuel) period now next lt = ground arith

advance_due :
    (fuel period now next : ℕ)
    → next ≤ now
    → advance (suc fuel) period now next ≡ advance fuel period now ((next + period) % 2 ^ 64)
unfolding advance
advance_due fuel period now next le = ground arith

-- As many periods as bring the time past the present.
abbrev pub past : ℕ → ℕ → ℕ → ℕ
past period now next = next + (now + period - next) / period * period

past_ahead : (period now next : ℕ) → 0 < period → now < next → past period now next ≡ next
past_ahead period now next pos lt =
    let none_missed : (now + period - next) / period ≡ 0 = div-eq_of_lt (omega arith) in
    rw none_missed (omega (arith, zero-mul period))

past_due :
    (period now next : ℕ) → 0 < period → next ≤ now → past period now next ≡ rearmed period now next
past_due period now next pos le =
    let more : (now + period - next) / period ≡ (now - next) / period + 1 =
      ap (λ n. n / period) {x = now + period - next} {y = (now - next) + period} (omega arith)
      ∙ add-div_right (now - next) pos in
    rw more (omega (arith, suc-mul ((now - next) / period) period))

past_step :
    (period now next : ℕ)
    → 0 < period
    → next ≤ now
    → past period now (next + period) ≡ rearmed period now next
past_step period now next pos le =
    let same : now + period - (next + period) ≡ now - next = omega arith in rw same (omega arith)

advance_lem :
    (fuel period now next : ℕ)
    → 0 < period
    → now + period < 2 ^ 64
    → now < next + fuel
    → advance fuel period now next ≡ some (past period now next)
advance_lem zero period now next pos word enough =
    advance_ahead zero period now next (omega arith)
    ∙ ap some (sym (past_ahead period now next pos (omega arith)))
advance_lem (suc fuel) period now next pos word enough = elim (dec_lt now next) [
  | yes lt ↦
      advance_ahead (suc fuel) period now next lt
      ∙ ap some (sym (past_ahead period now next pos lt))
  | no ge ↦
      let le : next ≤ now = omega arith in
      let small : (next + period) % 2 ^ 64 ≡ next + period = omega arith in
      advance_due fuel period now next le
      ∙ ap (advance fuel period now) small
      ∙ advance_lem fuel period now (next + period) pos word (omega arith)
      ∙ ap some (past_step period now next pos le ∙ sym (past_due period now next pos le))
]

-- A task that is due is put off by whole periods to the first such time after the present: the loop
-- ends, and the task keeps its phase however many periods were missed.
pub advance-rearmed :
    (fuel period now next : ℕ)
    → 0 < period
    → now + period < 2 ^ 64
    → next ≤ now
    → now < fuel
    → advance fuel period now ((next + period) % 2 ^ 64) ≡ some (rearmed period now next)
advance-rearmed fuel period now next pos word le enough =
    let small : (next + period) % 2 ^ 64 ≡ next + period = omega arith in
    ap (advance fuel period now) small
    ∙ advance_lem fuel period now (next + period) pos word (omega arith)
    ∙ ap some (past_step period now next pos le)

pub rearmed-gt : (period now next : ℕ) → 0 < period → next ≤ now → now < rearmed period now next
rearmed-gt period now next pos le =
    let bound = lt-div-mul-add {a = now - next} {b = period} pos in omega arith

pub rearmed-le : (period now next : ℕ) → next ≤ now → rearmed period now next ≤ now + period
rearmed-le period now next le = let bound = div-mul-le_self (now - next) period in omega arith
