-- ===== src/TimerScheduler.antt =====
-- The timer scheduler, include/osp/timer.hpp: the table of tasks and a round of the scheduler's loop.
-- A callback and its context are numbers; `now` is what TickSource::NowNs() gives.
use newosp.Base.{
  ◌>>=◌, zero, suc, ◌+◌, ◌-◌, ◌*◌, ◌%◌, ◌^◌, ◌==◌, if◌then◌else◌, Bool, true, false, ◌&&◌, not,
  Option, none, some, List, [], ◌∷◌, ◌++◌, ltb, leb, ℕ, replicate,
}
use mathlib.Core.Option
pub mod Rearm
pub mod Rounds
pub mod Tasks
mod Tests

abbrev pub ns_per_ms : ℕ
ns_per_ms = 1000000

abbrev pub default_sleep_ns : ℕ
default_sleep_ns = 10000000

abbrev pub min_sleep_ns : ℕ
min_sleep_ns = 1000000

abbrev pub max_sleep_ns : ℕ
max_sleep_ns = 10000000

abbrev pub uint64_max : ℕ
uint64_max = 18446744073709551615

-- TimerError.
pub data TimerError : Type 0 where
  invalid_period slots_full not_running : TimerError

pub data Expected (A : Type 0) : Type 0 where
  success : A → Expected A
  error : TimerError → Expected A

pub record TaskSlot : Type 0 where
  pub fn : Option ℕ
  pub ctx : ℕ
  pub period_ns : ℕ
  pub next_fire_ns : ℕ
  pub id : ℕ
  pub active : Bool
  pub one_shot : Bool

pub record PendingTask : Type 0 where
  pub fn : Option ℕ
  pub ctx : ℕ

-- TimerScheduler: slots_ and next_id_.
pub record TimerScheduler : Type 0 where
  pub slots : List TaskSlot
  pub next_id : ℕ

-- A slot that was never used.
abbrev pub blank_task : TaskSlot
blank_task = record {
  fn = none;
  ctx = 0;
  period_ns = 0;
  next_fire_ns = 0;
  id = 0;
  active = false;
  one_shot = false;
}

-- The constructor, for so many slots.
unfoldable pub new_scheduler : ℕ → TimerScheduler
new_scheduler max_tasks = record { slots = replicate max_tasks blank_task; next_id = 1 }

-- The slot that Add or AddOneShot writes.
abbrev pub new_task : ℕ → ℕ → Bool → ℕ → ℕ → ℕ → TaskSlot
new_task now id one_shot period_ms fn ctx = record {
  fn = some fn;
  ctx = ctx;
  period_ns = period_ms * ns_per_ms;
  next_fire_ns = (now + period_ms * ns_per_ms) % 2 ^ 64;
  id = id;
  active = true;
  one_shot = one_shot;
}

-- The loop of Add: the first slot that is not active.
unfoldable pub place : TaskSlot → List TaskSlot → Option (List TaskSlot)
place task [] = none
place task (slot ∷ slots) =
    let rest = place task slots in
    if slot.active then Option.map (λ l. slot ∷ l) rest else some (task ∷ slots)

-- Add after its loop.
unfoldable pub added : TimerScheduler → Option (List TaskSlot) → Expected ℕ × TimerScheduler
added s none = (error slots_full, s)
added s (some slots) =
    (success s.next_id, record { slots = slots; next_id = (s.next_id + 1) % 2 ^ 32 })

-- Add and AddOneShot.
unfoldable pub add_task : ℕ → Bool → ℕ → Option ℕ → ℕ → TimerScheduler → Expected ℕ × TimerScheduler
add_task now one_shot period_ms none ctx s = (error invalid_period, s)
add_task now one_shot period_ms (some fn) ctx s =
    if period_ms == 0
    then (error invalid_period, s)
    else (added s (place (new_task now s.next_id one_shot period_ms fn ctx) s.slots))

-- Add.
abbrev pub add : ℕ → ℕ → Option ℕ → ℕ → TimerScheduler → Expected ℕ × TimerScheduler
add now period_ms fn ctx s = add_task now false period_ms fn ctx s

-- AddOneShot.
abbrev pub add_one_shot : ℕ → ℕ → Option ℕ → ℕ → TimerScheduler → Expected ℕ × TimerScheduler
add_one_shot now delay_ms fn ctx s = add_task now true delay_ms fn ctx s

-- The loop of Remove: the first active slot of the id.
unfoldable pub clear_task : ℕ → List TaskSlot → Option (List TaskSlot)
clear_task task_id [] = none
clear_task task_id (slot ∷ slots) =
    let rest = clear_task task_id slots in
    if slot.active && (slot.id == task_id)
    then some (record slot { active = false } ∷ slots)
    else Option.map (λ l. slot ∷ l) rest

-- Remove after its loop.
abbrev pub removed : TimerScheduler → Option (List TaskSlot) → Expected Unit × TimerScheduler
removed s none = (error not_running, s)
removed s (some slots) = (success tt, record s { slots = slots })

unfoldable pub remove : ℕ → TimerScheduler → Expected Unit × TimerScheduler
remove task_id s = removed s (clear_task task_id s.slots)

unfoldable pub task_count : List TaskSlot → ℕ
task_count [] = 0
task_count (slot ∷ slots) = let rest = task_count slots in if slot.active then suc rest else rest

-- NsToNextTask, with the least time so far.
unfoldable pub ns_to_next_task : ℕ → ℕ → List TaskSlot → ℕ
ns_to_next_task now min_remaining [] = min_remaining
ns_to_next_task now min_remaining (slot ∷ slots) =
    let remaining = slot.next_fire_ns - now in
    let rest =
      ns_to_next_task now
        (if not slot.active
          then min_remaining
          else (if ltb remaining min_remaining then remaining else min_remaining))
        slots in
    if slot.active && leb slot.next_fire_ns now then 0 else rest

-- The inner loop of ScheduleLoop: `none` is no end within the fuel.
unfoldable pub advance : ℕ → ℕ → ℕ → ℕ → Option ℕ
advance zero period now next = if leb next now then none else some next
advance (suc fuel) period now next =
    let rest = advance fuel period now ((next + period) % 2 ^ 64) in
    if leb next now then rest else some next

-- What the scan does with a slot.
unfoldable pub collect : ℕ → ℕ → TaskSlot → Option (List PendingTask × TaskSlot)
collect fuel now slot =
    if not slot.active
    then some ([], slot)
    else (if not (leb slot.next_fire_ns now)
        then some ([], slot)
        else (let pending : List PendingTask = record { fn = slot.fn; ctx = slot.ctx } ∷ [] in
            if slot.one_shot
            then some (pending, record slot { active = false })
            else Option.map (λ next. (pending, record slot { next_fire_ns = next }))
                (advance fuel slot.period_ns now ((slot.next_fire_ns + slot.period_ns) % 2 ^ 64))))

-- The time that a slot leaves for sleep.
unfoldable pub least : ℕ → TaskSlot → ℕ → ℕ
least now slot min_remaining =
    if not slot.active
    then min_remaining
    else (let remaining = if ltb now slot.next_fire_ns then slot.next_fire_ns - now else 0 in
        if ltb remaining min_remaining then remaining else min_remaining)

-- Phase 1 of ScheduleLoop: the pending callbacks, the slots and the least time to the next task.
unfoldable pub scan : ℕ → ℕ → ℕ → List TaskSlot → Option (List PendingTask × (List TaskSlot × ℕ))
scan fuel now min_remaining [] = some ([], ([], min_remaining))
scan fuel now min_remaining (slot ∷ slots) = do
  (pending, slot') ← collect fuel now slot
  (more, (slots', least_remaining)) ← scan fuel now (least now slot' min_remaining) slots
  some (pending ++ more, (slot' ∷ slots', least_remaining))

-- Phase 3: how long the thread sleeps, if it does.
unfoldable pub sleep_time : ℕ → Option ℕ
sleep_time min_remaining =
    let wished = if min_remaining == uint64_max then default_sleep_ns else min_remaining in
    let sleep_ns = if ltb max_sleep_ns wished then max_sleep_ns else wished in
    if leb min_sleep_ns sleep_ns then some sleep_ns else none

-- An iteration of ScheduleLoop: the callbacks that it calls, in order, and its sleep.
unfoldable pub round :
    ℕ → ℕ → TimerScheduler → Option (List PendingTask × (TimerScheduler × Option ℕ))
round fuel now s = do
  (pending, (slots, min_remaining)) ← scan fuel now uint64_max s.slots
  some (pending, (record s { slots = slots }, sleep_time min_remaining))
