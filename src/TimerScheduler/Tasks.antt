-- ===== src/TimerScheduler/Tasks.antt =====
-- Tasks that are added and removed.
use newosp.Base.{
  suc, ◌+◌, ◌%◌, ◌^◌, ◌==◌, if◌then◌else◌, Bool, true, false, ◌&&◌, Option, none, some, List, [],
  ◌∷◌, ◌≡◌, refl, arith, ap, sym, ◌∙◌, subst, inl, inr, Bool-cases, if_intro, ℕ, All, ◌≢◌,
}
use newosp.TimerScheduler.{
  added, removed, TimerScheduler, TaskSlot, not_running, Expected, success, error, new_task, place,
  add_task, clear_task, remove, task_count,
}
use mathlib.Core.Option

-- The slots' ids in use are not `id`.
abbrev pub Unused : ℕ → List TaskSlot → Type 0
Unused id slots = All (λ slot. slot.active ≡ true → slot.id ≢ id) slots

Unused-clear_task : (id : ℕ) (slots : List TaskSlot) → Unused id slots → clear_task id slots ≡ none
unfolding clear_task
Unused-clear_task id [] free = refl
Unused-clear_task id (slot ∷ slots) free =
    let rest = Unused-clear_task id slots free.1 in
    let other : (slot.active && (slot.id == id)) ≡ false = ground (arith, free.0) in
    rw (other, rest) refl

-- What a task's place among the slots comes to: the count goes up, and back when the task is removed.
abbrev Placed : TaskSlot → List TaskSlot → Option (List TaskSlot) → Type 0
Placed task slots none = Unit
Placed task slots (some placed) =
    (task_count placed ≡ suc (task_count slots))
    × (cleared : List TaskSlot) × (clear_task task.id placed ≡ some cleared)
    × (task_count cleared ≡ task_count slots)
    × (clear_task task.id cleared ≡ none)

-- One step of each loop.
module _ (slot : TaskSlot) (slots : List TaskSlot) where
  task_count_used : slot.active ≡ true → task_count (slot ∷ slots) ≡ suc (task_count slots)
  unfolding task_count
  task_count_used on = rw on refl

  task_count_free : slot.active ≡ false → task_count (slot ∷ slots) ≡ task_count slots
  unfolding task_count
  task_count_free off = rw off refl

  clear_task_hit :
      slot.active ≡ true
      → clear_task slot.id (slot ∷ slots) ≡ some (record slot { active = false } ∷ slots)
  unfolding clear_task
  clear_task_hit on = ground arith

  clear_task_skip :
      (id : ℕ)
      → (slot.active && (slot.id == id)) ≡ false
      → clear_task id (slot ∷ slots) ≡ Option.map (λ l. slot ∷ l) (clear_task id slots)
  unfolding clear_task
  clear_task_skip id other = rw other refl

  place_used :
      (task : TaskSlot)
      → slot.active ≡ true
      → place task (slot ∷ slots) ≡ Option.map (λ l. slot ∷ l) (place task slots)
  unfolding place
  place_used task on =
      ap (λ b. if b then Option.map (λ l. slot ∷ l) (place task slots) else some (task ∷ slots)) on

  place_free :
      (task : TaskSlot) → slot.active ≡ false → place task (slot ∷ slots) ≡ some (task ∷ slots)
  unfolding place
  place_free task off =
      ap (λ b. if b then Option.map (λ l. slot ∷ l) (place task slots) else some (task ∷ slots)) off

Placed-cons :
    (task slot : TaskSlot) (slots : List TaskSlot) (o : Option (List TaskSlot))
    → slot.active ≡ true
    → slot.id ≢ task.id
    → Placed task slots o
    → Placed task (slot ∷ slots) (Option.map (λ l. slot ∷ l) o)
Placed-cons task slot slots none on ne h = tt
Placed-cons task slot slots (some placed) on ne (more, cleared, clears, back, gone) =
    let other : (slot.active && (slot.id == task.id)) ≡ false = ground arith in
    let count = task_count_used slot slots on in
    (
      task_count_used slot placed on ∙ ap suc more ∙ ap suc (sym count),
      slot ∷ cleared,
      clear_task_skip slot placed task.id other ∙ ap (Option.map (λ l. slot ∷ l)) clears,
      task_count_used slot cleared on ∙ ap suc back ∙ sym count,
      clear_task_skip slot cleared task.id other ∙ ap (Option.map (λ l. slot ∷ l)) gone,
    )

place-Placed :
    (task : TaskSlot) (slots : List TaskSlot)
    → task.active ≡ true
    → Unused task.id slots
    → Placed task slots (place task slots)
unfolding place
place-Placed task [] on free = tt
place-Placed task (slot ∷ slots) on free = elim (Bool-cases slot.active) [
  | inl used ↦ subst (Placed task (slot ∷ slots)) (sym (place_used slot slots task used)) (
      Placed-cons task slot slots (place task slots) used (free.0 used)
        (place-Placed task slots on free.1))
  | inr idle ↦
      let off : TaskSlot = record task { active = false } in
      let count = task_count_free slot slots idle in
      subst (Placed task (slot ∷ slots)) (sym (place_free slot slots task idle)) (
        task_count_used task slots on ∙ ap suc (sym count),
        off ∷ slots,
        clear_task_hit task slots on,
        task_count_free off slots refl ∙ sym count,
        clear_task_skip off slots task.id refl
            ∙ ap (Option.map (λ l. off ∷ l)) (Unused-clear_task task.id slots free.1),
      )
]

-- What an Add comes to: the state of before, or a task that is counted and can be removed once.
abbrev pub Removable : TimerScheduler → Expected ℕ × TimerScheduler → Type 0
Removable s (error e, t) = t ≡ s
Removable s (success id, t) =
    (id ≡ s.next_id)
    × (task_count t.slots ≡ suc (task_count s.slots))
    × (u : TimerScheduler) × (remove id t ≡ (success tt, u))
    × (task_count u.slots ≡ task_count s.slots)
    × (remove id u ≡ (error not_running, u))

added-Removable :
    (task : TaskSlot) (s : TimerScheduler) (o : Option (List TaskSlot))
    → task.id ≡ s.next_id
    → Placed task s.slots o
    → Removable s (added s o)
unfolding added remove
added-Removable task s none same h = refl
added-Removable task s (some placed) same (more, cleared, clears, back, gone) =
    let t : TimerScheduler = record { slots = placed; next_id = (s.next_id + 1) % 2 ^ 32 } in
    let u : TimerScheduler = record t { slots = cleared } in
    (
      refl,
      more,
      u,
      ap (removed t) (ap (λ i. clear_task i placed) (sym same) ∙ clears),
      back,
      ap (removed u) (ap (λ i. clear_task i cleared) (sym same) ∙ gone),
    )

-- An Add or AddOneShot that fails changes nothing. A task that is added is counted, and Remove with the
-- id that Add gave makes the count as it was before; a second Remove of the id is an error. The next id
-- is one that no active task has.
pub remove-add_task :
    (now period_ms ctx : ℕ) (one_shot : Bool) (fn : Option ℕ) (s : TimerScheduler)
    → Unused s.next_id s.slots
    → Removable s (add_task now one_shot period_ms fn ctx s)
unfolding add_task
remove-add_task now period_ms ctx one_shot none s free = refl
remove-add_task now period_ms ctx one_shot (some fn) s free =
    let task = new_task now s.next_id one_shot period_ms fn ctx in
    if_intro (Removable s) (period_ms == 0) (λ e. refl)
      (λ e. added-Removable task s (place task s.slots) refl (place-Placed task s.slots refl free))
