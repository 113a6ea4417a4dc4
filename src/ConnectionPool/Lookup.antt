-- ===== src/ConnectionPool/Lookup.antt =====
-- Connections that are added, found and removed by their ids.
use newosp.Base.{
  suc, ◌+◌, ◌-◌, ◌%◌, ◌^◌, ◌==◌, if◌then◌else◌, true, false, ◌&&◌, Option, none, some, List, [],
  ◌∷◌, ◌≡◌, refl, leb, arith, ap, sym, ◌∙◌, subst, inl, inr, Bool-cases, if_intro, ℕ, All, ◌≢◌,
}
use newosp.ConnectionPool.{
  ConnectionPool, ConnectionInfo, Slot, Expected, success, error, invalid_connection_id, find_slot,
  free_slot, modify, id_after, new_slot, placed, add, deactivate, remove, info_at, find,
}
use mathlib.Core.Option

abbrev pub find_in : ℕ → List Slot → Option ConnectionInfo
find_in id slots = info_at slots (find_slot id slots)

info_at-suc :
    (slot : Slot) (slots : List Slot) (o : Option ℕ)
    → info_at (slot ∷ slots) (Option.map suc o) ≡ info_at slots o
unfolding info_at
info_at-suc slot [] none = refl
info_at-suc slot [] (some i) = refl
info_at-suc slot (s ∷ slots) none = refl
info_at-suc slot (s ∷ slots) (some i) = refl

module _ (id : ℕ) (slot : Slot) (slots : List Slot) where
  find_in_hit :
      (slot.active && (slot.info.id == id)) ≡ true → find_in id (slot ∷ slots) ≡ some slot.info
  unfolding find_slot info_at
  find_in_hit hit =
      ap (λ b. info_at (slot ∷ slots) (if b then some 0 else Option.map suc (find_slot id slots)))
        hit

  find_in_miss :
      (slot.active && (slot.info.id == id)) ≡ false → find_in id (slot ∷ slots) ≡ find_in id slots
  unfolding find_slot info_at
  find_in_miss miss =
      ap (λ b. info_at (slot ∷ slots) (if b then some 0 else Option.map suc (find_slot id slots)))
        miss
      ∙ info_at-suc slot slots (find_slot id slots)

module _ (id : ℕ) (slot : Slot) (slots : List Slot) where
  find_slot_hit :
      (slot.active && (slot.info.id == id)) ≡ true → find_slot id (slot ∷ slots) ≡ some 0
  unfolding find_slot
  find_slot_hit hit = ap (λ b. if b then some 0 else Option.map suc (find_slot id slots)) hit

  find_slot_miss :
      (slot.active && (slot.info.id == id)) ≡ false
      → find_slot id (slot ∷ slots) ≡ Option.map suc (find_slot id slots)
  unfolding find_slot
  find_slot_miss miss = ap (λ b. if b then some 0 else Option.map suc (find_slot id slots)) miss

-- A slot in front changes two lists' lookups alike.
find_in_cons :
    (id : ℕ) (slot : Slot) (slots slots' : List Slot)
    → find_in id slots ≡ find_in id slots'
    → find_in id (slot ∷ slots) ≡ find_in id (slot ∷ slots')
find_in_cons id slot slots slots' e = elim (Bool-cases (slot.active && (slot.info.id == id))) [
  | inl hit ↦ find_in_hit id slot slots hit ∙ sym (find_in_hit id slot slots' hit)
  | inr miss ↦ find_in_miss id slot slots miss ∙ e ∙ sym (find_in_miss id slot slots' miss)
]

abbrev pub Unused : ℕ → List Slot → Type 0
Unused id slots = All (λ slot. slot.active ≡ true → slot.info.id ≢ id) slots

Unused-find_in : (id : ℕ) (slots : List Slot) → Unused id slots → find_in id slots ≡ none
unfolding find_slot info_at
Unused-find_in id [] free = refl
Unused-find_in id (slot ∷ slots) free =
    find_in_miss id slot slots (ground (arith, free.0)) ∙ Unused-find_in id slots free.1

-- What a write of a new slot at the place that Add finds does to lookups.
abbrev Shows : Slot → List Slot → Option ℕ → Type 0
Shows new slots none = Unit
Shows new slots (some i) =
    let after = modify slots i (λ old. new) in
    (find_in new.info.id after ≡ some new.info)
    × ((id : ℕ) → id ≢ new.info.id → find_in id after ≡ find_in id slots)
    × (find_in new.info.id (modify after i deactivate) ≡ none)
    × (find_slot new.info.id after ≡ some i)

Shows-suc :
    (new slot : Slot) (slots : List Slot) (o : Option ℕ)
    → slot.info.id ≢ new.info.id
    → Shows new slots o
    → Shows new (slot ∷ slots) (Option.map suc o)
unfolding modify
Shows-suc new slot slots none ne h = tt
Shows-suc new slot slots (some i) ne (found, others, gone, at) =
    let miss : (slot.active && (slot.info.id == new.info.id)) ≡ false = ground arith in
    let after = modify slots i (λ old. new) in
    (
      find_in_miss new.info.id slot after miss ∙ found,
      λ id other. find_in_cons id slot after slots (others id other),
      find_in_miss new.info.id slot (modify after i deactivate) miss ∙ gone,
      find_slot_miss new.info.id slot after miss ∙ ap (Option.map suc) at,
    )

free_slot-Shows :
    (new : Slot) (slots : List Slot)
    → new.active ≡ true
    → Unused new.info.id slots
    → Shows new slots (free_slot slots)
unfolding free_slot modify
free_slot-Shows new [] on free = tt
free_slot-Shows new (slot ∷ slots) on free =
    if_intro (Shows new (slot ∷ slots)) slot.active
      (λ used.
        Shows-suc new slot slots (free_slot slots) (free.0 used)
          (free_slot-Shows new slots on free.1))
      (λ idle.
        let hit : (new.active && (new.info.id == new.info.id)) ≡ true = ground arith in
        (
          find_in_hit new.info.id new slots hit,
          λ id other.
              find_in_miss id new slots (ground arith)
              ∙ sym (find_in_miss id slot slots (ground arith)),
          find_in_miss new.info.id (deactivate new) slots refl
              ∙ Unused-find_in new.info.id slots free.1,
          find_slot_hit new.info.id new slots hit,
        ))

-- What an Add comes to, for lookups.
abbrev pub Found : ConnectionPool → ConnectionInfo → Expected ℕ × ConnectionPool → Type 0
Found p info (error e, q) = q ≡ p
Found p info (success id, q) =
    (id ≡ p.next_id)
    × (find id q ≡ some info)
    × ((other : ℕ) → other ≢ id → find other q ≡ find other p)
    × ((remove id q).0 ≡ success tt)
    × (find id (remove id q).1 ≡ none)

remove_found :
    (id i : ℕ) (q : ConnectionPool)
    → id ≢ invalid_connection_id
    → find_slot id q.slots ≡ some i
    → remove id q ≡ (
      success tt,
      record q { slots = modify q.slots i deactivate; count = (q.count + 2 ^ 32 - 1) % 2 ^ 32 },
    )
unfolding remove
remove_found id i q valid at =
    let test : (id == invalid_connection_id) ≡ false = ground arith in rw (test, at) refl

placed-Found :
    (new : Slot) (p : ConnectionPool) (o : Option ℕ)
    → new.info.id ≡ p.next_id
    → p.next_id ≢ invalid_connection_id
    → Shows new p.slots o
    → Found p new.info (placed new p o)
unfolding placed remove
placed-Found new p none same valid h = refl
placed-Found new p (some i) same valid (found, others, gone, at) =
    let q : ConnectionPool = record {
      slots = modify p.slots i (λ old. new);
      count = (p.count + 1) % 2 ^ 32;
      next_id = id_after p.next_id;
    } in
    let gone_from =
      remove_found p.next_id i q valid (subst (λ x. find_slot x q.slots ≡ some i) same at) in
    (
      refl,
      subst (λ x. find_in x q.slots ≡ some new.info) same found,
      λ other ne. others other (λ e. ne (e ∙ same)),
      ap (λ r. r.0) gone_from,
      ap (λ r. find p.next_id r.1) gone_from
          ∙ subst (λ x. find_in x (modify q.slots i deactivate) ≡ none) same gone,
    )

-- An Add that fails changes nothing. A connection that is added is found under the id that Add gave,
-- with its address, its port, its label cut to 31 characters and the times of now; every other id finds
-- what it found before; and Remove of the id succeeds, after which the id finds nothing. The pool's next
-- id is valid and no active slot has it.
pub find-add :
    (n now ip port : ℕ) (label : Option (List ℕ)) (p : ConnectionPool)
    → p.next_id ≢ invalid_connection_id
    → Unused p.next_id p.slots
    → Found p (new_slot now p.next_id ip port label).info (add n now ip port label p)
unfolding add
find-add n now ip port label p valid free =
    let new = new_slot now p.next_id ip port label in
    if_intro (Found p new.info) (leb n p.count) (λ full. refl)
      (λ room.
        placed-Found new p (free_slot p.slots) refl valid (free_slot-Shows new p.slots refl free))
