-- ===== src/ConnectionPool/Counts.antt =====
-- The pool's count is the number of its active slots.
use newosp.Base.{
  zero, suc, ◌+◌, ◌≤◌, ◌==◌, if◌then◌else◌, true, ◌&&◌, Option, none, some, List, [], ◌∷◌, ◌≡◌,
  refl, length, arith, ap, if_intro, map, ℕ,
}
use newosp.ConnectionPool.{ConnectionPool, Slot, find_slot, free_slot, modify, deactivate}
use mathlib.Core.Option

abbrev pub active_count : List Slot → ℕ
active_count [] = 0
active_count (slot ∷ slots) = (if slot.active then 1 else 0) + active_count slots

pub record IsCounted (max_connections : ℕ) (p : ConnectionPool) : Type 0 where
  pub counted : p.count ≡ active_count p.slots
  pub sized : length p.slots ≡ max_connections

pub active_count-le : (slots : List Slot) → active_count slots ≤ length slots
active_count-le [] = omega arith
active_count-le (slot ∷ slots) = ground (arith, active_count-le slots)

pub length-modify :
    (slots : List Slot) (i : ℕ) (f : Slot → Slot) → length (modify slots i f) ≡ length slots
unfolding modify
length-modify [] i f = refl
length-modify (slot ∷ slots) zero f = refl
length-modify (slot ∷ slots) (suc i) f = ap suc (length-modify slots i f)

pub length-map : (f : Slot → Slot) (slots : List Slot) → length (map f slots) ≡ length slots
length-map f [] = refl
length-map f (slot ∷ slots) = ap suc (length-map f slots)

pub active_count-modify :
    (slots : List Slot) (i : ℕ) (f : Slot → Slot)
    → ((slot : Slot) → (f slot).active ≡ slot.active)
    → active_count (modify slots i f) ≡ active_count slots
unfolding modify
active_count-modify [] i f same = refl
active_count-modify (slot ∷ slots) zero f same =
    ap (λ b. (if b then 1 else 0) + active_count slots) (same slot)
active_count-modify (slot ∷ slots) (suc i) f same =
    ap (λ n. (if slot.active then 1 else 0) + n) (active_count-modify slots i f same)

pub active_count-deactivate : (slots : List Slot) → active_count (map deactivate slots) ≡ 0
active_count-deactivate [] = refl
active_count-deactivate (slot ∷ slots) = omega (arith, active_count-deactivate slots)

-- What the loop of Add finds, for the count.
abbrev pub IsFree : Slot → List Slot → Option ℕ → Type 0
IsFree new slots none = active_count slots ≡ length slots
IsFree new slots (some i) = active_count (modify slots i (λ old. new)) ≡ active_count slots + 1

IsFree-suc :
    (new slot : Slot) (slots : List Slot) (o : Option ℕ)
    → slot.active ≡ true
    → IsFree new slots o
    → IsFree new (slot ∷ slots) (Option.map suc o)
unfolding modify
IsFree-suc new slot slots none on h = ground arith
IsFree-suc new slot slots (some i) on h = ground arith

pub free_slot-IsFree :
    (new : Slot) (slots : List Slot) → new.active ≡ true → IsFree new slots (free_slot slots)
unfolding free_slot modify
free_slot-IsFree new [] on = refl
free_slot-IsFree new (slot ∷ slots) on =
    if_intro (IsFree new (slot ∷ slots)) slot.active
      (λ used. IsFree-suc new slot slots (free_slot slots) used (free_slot-IsFree new slots on))
      (λ free. ground arith)

-- What FindSlot finds, for the count.
abbrev pub IsTaken : List Slot → Option ℕ → Type 0
IsTaken slots none = Unit
IsTaken slots (some i) = active_count (modify slots i deactivate) + 1 ≡ active_count slots

IsTaken-suc :
    (slot : Slot) (slots : List Slot) (o : Option ℕ)
    → IsTaken slots o
    → IsTaken (slot ∷ slots) (Option.map suc o)
unfolding modify
IsTaken-suc slot slots none h = tt
IsTaken-suc slot slots (some i) h = ground arith

pub find_slot-IsTaken : (id : ℕ) (slots : List Slot) → IsTaken slots (find_slot id slots)
unfolding find_slot modify
find_slot-IsTaken id [] = tt
find_slot-IsTaken id (slot ∷ slots) =
    if_intro (IsTaken (slot ∷ slots)) (slot.active && (slot.info.id == id)) (λ hit. ground arith)
      (λ miss. IsTaken-suc slot slots (find_slot id slots) (find_slot-IsTaken id slots))
