-- ===== src/TimerScheduler/Tests.antt =====
-- The scheduler at concrete inputs.
use newosp.Base.{◌+◌, Bool, true, false, some, [], ◌∷◌, ◌≡◌, refl, arith, ℕ, All}
use newosp.TimerScheduler.{
  TimerScheduler, TaskSlot, blank_task, new_scheduler, add_task, advance, least, sleep_time, scan,
  collect, round, uint64_max,
}
use newosp.TimerScheduler.Rearm.{rearmed, advance-rearmed}
use newosp.TimerScheduler.Rounds.{IsSane, fired_all, settle_all, is_due, least_all, round_lem}
use newosp.TimerScheduler.Tasks.{Removable, remove-add_task}

abbrev task_at : ℕ → ℕ → ℕ → Bool → Bool → TaskSlot
task_at id period next active one_shot = record {
  fn = some (100 + id);
  ctx = id;
  period_ns = period;
  next_fire_ns = next;
  id = id;
  active = active;
  one_shot = one_shot;
}

-- A periodic task that has missed periods, a one-shot task that is due, a slot never used.
abbrev three_slots : TimerScheduler
three_slots = record {
  slots = task_at 1 2000000 1000000 true false ∷ task_at 2 500 7000000 true true ∷ blank_task ∷ [];
  next_id = 4;
}

three_slots-IsSane : All (IsSane 7000000) three_slots.slots
three_slots-IsSane = (
  record { pos = λ on. omega arith; word = λ on. omega arith },
  (
    record { pos = λ on. omega arith; word = λ on. omega arith },
    (record { pos = λ on. absurd cc; word = λ on. absurd cc }, tt),
  ),
)

advance-rearmed_example :
    advance 7000001 2000000 7000000 3000000 ≡ some (rearmed 2000000 7000000 1000000)
advance-rearmed_example =
    advance-rearmed 7000001 2000000 7000000 1000000 (omega arith) (omega arith) (omega arith)
      (omega arith)

round_lem_example :
    (round 7000001 7000000 three_slots
      ≡ some (
        fired_all 7000000 three_slots.slots,
        (
          record three_slots { slots = settle_all 7000000 three_slots.slots },
          sleep_time (least_all 7000000 uint64_max (settle_all 7000000 three_slots.slots)),
        ),
      ))
    × All (λ slot. is_due 7000000 slot ≡ false) (settle_all 7000000 three_slots.slots)
round_lem_example = round_lem 7000001 7000000 three_slots (omega arith) three_slots-IsSane

abbrev after_round : TimerScheduler
after_round = record three_slots { slots = settle_all 7000000 three_slots.slots }

remove-add_task_example : Removable three_slots (add_task 500 false 20 (some 9) 1 three_slots)
remove-add_task_example =
    remove-add_task 500 20 1 false (some 9) three_slots
      ((λ on e. omega arith), ((λ on e. omega arith), ((λ on e. omega arith), tt)))

-- A round where no slot was ever used calls nothing and sleeps longest.
new_scheduler-round : round 6 5 (new_scheduler 2) ≡ some ([], (new_scheduler 2, some 10000000))
unfolding round scan collect least sleep_time new_scheduler
new_scheduler-round = refl
