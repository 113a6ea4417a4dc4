-- ===== src/Watchdog/Stale.antt =====
-- Slot ids that were given back are dead, whatever happens to the slot afterwards, until the 32-bit
-- generation comes round again.
use mathlib.Core.Option.{none-ne-some}
use native.Mathlib.Nat.{mod-eq_of_lt}
use newosp.Base.{
  get_elem?-lt, get_elem?-set_self, ◌==◌, some-injective, ℕ, zero, suc, List, [], ◌∷◌, Option, none,
  some, Option-cases, true, false, Bool-cases, inl, inr, ◌⊎◌, ◌≡◌, refl, sym, ◌∙◌, arith, ◌+◌, ◌%◌,
  ◌^◌, ◌<◌, ◌≤◌, get_elem?, set, length, subst,
}
use newosp.Watchdog.{
  occupy, Expected, not_registered, error, beat, Slot, register, unregister, feed, owned,
  check_from, is_timed_out, generation_of, index_of, slot_bits, success,
}
use newosp.Watchdog.Ids.{first_free, taken, IsFree, register_from-taken, first_free-IsFree}
use newosp.Watchdog.Edges.{settle_all, slots_after-settle_all}

-- The calls of a watchdog's users.
pub data Use : Type 0 where
  registers : ℕ → Option (List ℕ) → ℕ → Use
  unregisters : ℕ → Use
  feeds : ℕ → ℕ → Use
  checks : ℕ → Use

unfoldable pub use_slots : ℕ → Use → List Slot → List Slot
use_slots max_threads (registers now name timeout_ms) slots =
    (register max_threads now name timeout_ms slots).1
use_slots max_threads (unregisters id) slots = (unregister max_threads id slots).1
use_slots max_threads (feeds now id) slots = feed max_threads now id slots
use_slots max_threads (checks now) slots =
    (check_from (slot_bits max_threads) now 0 slots).slots_after

unfoldable pub use_all : ℕ → List Use → List Slot → List Slot
use_all max_threads [] slots = slots
use_all max_threads (u ∷ later) slots = use_all max_threads later (use_slots max_threads u slots)

-- What a call does to one slot: it keeps the generation and does not make the slot active, or it moves
-- the generation on.
abbrev Evolves : Slot → Slot → Type 0
Evolves s t =
    ((t.generation ≡ s.generation) × (t.active ≡ true → s.active ≡ true))
    ⊎ (t.generation ≡ (s.generation + 1) % 2 ^ 32)

abbrev Each : List Slot → List Slot → Type 0
Each [] [] = Unit
Each [] (t ∷ ts) = ⊥
Each (s ∷ ss) [] = ⊥
Each (s ∷ ss) (t ∷ ts) = Evolves s t × Each ss ts

Evolves-same : (s : Slot) → Evolves s s
Evolves-same s = inl (refl, λ e. e)

Each-same : (slots : List Slot) → Each slots slots
Each-same [] = tt
Each-same (s ∷ slots) = (Evolves-same s, Each-same slots)

Each-set :
    (slots : List Slot) (i : ℕ) (s t : Slot)
    → get_elem? slots i ≡ some s
    → Evolves s t
    → Each slots (set slots i t)
Each-set [] i s t e h = tt
Each-set (u ∷ slots) zero s t e h =
    (subst (λ v. Evolves v t) (sym (some-injective _ _ e)) h, Each-same slots)
Each-set (u ∷ slots) (suc i) s t e h = (Evolves-same u, Each-set slots i s t e h)

Each-found :
    (slots slots' : List Slot) (i : ℕ) (t : Slot)
    → Each slots slots'
    → get_elem? slots' i ≡ some t
    → (s : Slot) × (get_elem? slots i ≡ some s) × Evolves s t
Each-found [] [] i t h e = absurd (none-ne-some _ e)
Each-found [] (u ∷ ts) i t h e = absurd h
Each-found (s ∷ ss) [] i t h e = absurd h
Each-found (s ∷ ss) (u ∷ ts) zero t h e =
    (s, refl, subst (λ v. Evolves s v) (some-injective _ _ e) h.0)
Each-found (s ∷ ss) (u ∷ ts) (suc i) t h e = Each-found ss ts i t h.1 e

settle_all-Each : (now : ℕ) (slots : List Slot) → Each slots (settle_all now slots)
settle_all-Each now [] = tt
settle_all-Each now (s ∷ slots) = (ground arith, settle_all-Each now slots)

module _ (max_threads : ℕ) where
  owned-found :
      (slots : List Slot) (raw : ℕ) (s : Slot)
      → owned max_threads slots raw ≡ some s
      → (get_elem? slots (index_of (slot_bits max_threads) raw) ≡ some s)
        × (s.active ≡ true)
        × (s.generation ≡ generation_of (slot_bits max_threads) raw)
  unfolding owned
  owned-found slots raw s e = ground arith

  taken-Each :
      (now : ℕ) (name : Option (List ℕ)) (timeout_ms : ℕ) (slots : List Slot)
      → (found : Option (ℕ × Slot)) → IsFree slots found
      → Each slots (taken max_threads now name timeout_ms 0 slots found).1
  taken-Each now name timeout_ms slots none free = Each-same slots
  taken-Each now name timeout_ms slots (some (j, s)) free =
      Each-set slots j s (occupy now name timeout_ms s) free.0 (inr refl)

  register-Each :
      (now : ℕ) (name : Option (List ℕ)) (timeout_ms : ℕ) (slots : List Slot)
      → Each slots (register max_threads now name timeout_ms slots).1
  unfolding register
  register-Each now name timeout_ms slots = elim (Bool-cases (timeout_ms == 0)) [
    | inl e ↦ rw e (Each-same slots)
    | inr e ↦ rw e (
        subst (λ (p : Expected ℕ × List Slot). Each slots p.1)
          (sym (register_from-taken max_threads now name timeout_ms 0 slots))
          (taken-Each now name timeout_ms slots (first_free slots) (first_free-IsFree slots)))
  ]

  use_slots-Each : (u : Use) (slots : List Slot) → Each slots (use_slots max_threads u slots)
  unfolding use_slots unregister feed
  use_slots-Each (registers now name timeout_ms) slots = register-Each now name timeout_ms slots
  use_slots-Each (unregisters id) slots = elim (Option-cases (owned max_threads slots id)) [
    | inl e ↦ rw (e, use_slots) (Each-same slots)
    | inr (s, e) ↦
        rw (e, use_slots)
          (Each-set slots _ s (record s { active = false }) (owned-found slots id s e).0
            (inl (refl, λ h. (owned-found slots id s e).1)))
  ]
  use_slots-Each (feeds now id) slots = elim (Option-cases (owned max_threads slots id)) [
    | inl e ↦ rw (e, feed, use_slots) (Each-same slots)
    | inr (s, e) ↦
        rw (e, feed, use_slots)
          (Each-set slots _ s (beat now s) (owned-found slots id s e).0 (inl (refl, λ h. h)))
  ]
  use_slots-Each (checks now) slots =
      subst (λ l. Each slots l) (sym (slots_after-settle_all (slot_bits max_threads) now 0 slots))
        (settle_all-Each now slots)

  -- The slot at an index is active only with a later generation than `g`, and its generation cannot wrap
  -- in the next `n` registrations.
  abbrev Past : ℕ → ℕ → ℕ → List Slot → Type 0
  Past i g n slots =
      (s : Slot)
      → get_elem? slots i ≡ some s
      → (g ≤ s.generation) × (s.generation + n < 2 ^ 32) × (s.active ≡ true → g < s.generation)

  Evolves-bounds :
      (g n : ℕ) (s t : Slot)
      → Evolves s t
      → (g ≤ s.generation) × (s.generation + suc n < 2 ^ 32) × (s.active ≡ true → g < s.generation)
      → (g ≤ t.generation) × (t.generation + n < 2 ^ 32) × (t.active ≡ true → g < t.generation)
  Evolves-bounds g n s t (inl (same, keeps)) (low, room, later) =
      (omega (arith, same), omega (arith, same), λ e. omega (arith, same, later (keeps e)))
  Evolves-bounds g n s t (inr next) (low, room, later) =
      let fits : (s.generation + 1) % 2 ^ 32 ≡ s.generation + 1 = mod-eq_of_lt (omega arith) in
      (omega (arith, next, fits), omega (arith, next, fits), λ e. omega (arith, next, fits))

  use_slots-Past :
      (u : Use) (slots : List Slot) (i g n : ℕ)
      → Past i g (suc n) slots
      → Past i g n (use_slots max_threads u slots)
  use_slots-Past u slots i g n past t e =
      let (s, found, h) = Each-found slots _ i t (use_slots-Each u slots) e in
      Evolves-bounds g n s t h (past s found)

  use_all-Past :
      (us : List Use) (slots : List Slot) (i g : ℕ)
      → Past i g (length us) slots
      → Past i g 0 (use_all max_threads us slots)
  unfolding use_all
  use_all-Past [] slots i g past = past
  use_all-Past (u ∷ us) slots i g past =
      use_all-Past us (use_slots max_threads u slots) i g
        (use_slots-Past u slots i g (length us) past)

  -- An id whose slot is past its generation owns nothing.
  owned-Past :
      (slots : List Slot) (raw : ℕ)
      → Past
          (index_of (slot_bits max_threads) raw)
          (generation_of (slot_bits max_threads) raw)
          0
          slots
      → owned max_threads slots raw ≡ none
  owned-Past slots raw past = elim (Option-cases (owned max_threads slots raw)) [
    | inl e ↦ e
    | inr (s, e) ↦
        let (found, active, same) = owned-found slots raw s e in
        let (low, room, later) = past s found in absurd (omega (arith, same, later active))
  ]

  freed-Past :
      (slots : List Slot) (i g n : ℕ) (s : Slot)
      → get_elem? slots i ≡ some s
      → s.generation ≡ g
      → g + n < 2 ^ 32
      → Past i g n (set slots i (record s { active = false }))
  freed-Past slots i g n s found same room t e =
      let freed : record s { active = false } ≡ t = some-injective _ _ (
        sym (get_elem?-set_self slots i (record s { active = false }) (get_elem?-lt slots i found))
        ∙ e) in
      subst
        (λ (v : Slot).
          (g ≤ v.generation) × (v.generation + n < 2 ^ 32) × (v.active ≡ true → g < v.generation))
        freed (omega (arith, same), omega (arith, same), λ a. absurd (ground arith))

  accepted_id :
      (slots : List Slot) (raw : ℕ) {slots' : List Slot}
      → unregister max_threads raw slots ≡ (success tt, slots')
      → (s : Slot) × (owned max_threads slots raw ≡ some s)
        × (slots' ≡ set slots (index_of (slot_bits max_threads) raw) (record s { active = false }))
  unfolding unregister
  accepted_id slots raw {slots'} e = elim (Option-cases (owned max_threads slots raw)) [
    | inl none_owned ↦ absurd (ground arith)
    | inr (s, o) ↦ (s, o, ground arith)
  ]

  -- Once Unregister has accepted an id, the watchdog refuses it: after any calls, with which the
  -- generation of the id and their number stay below 2 ^ 32, Unregister fails and changes nothing, Feed
  -- changes nothing and IsTimedOut is false.
  pub stale_id_refused :
      (raw : ℕ) (us : List Use) (slots : List Slot) {slots' : List Slot}
      → unregister max_threads raw slots ≡ (success tt, slots')
      → generation_of (slot_bits max_threads) raw + length us < 2 ^ 32
      → let later = use_all max_threads us slots' in
        (unregister max_threads raw later ≡ (error not_registered, later))
        × ((now : ℕ) → feed max_threads now raw later ≡ later)
        × (is_timed_out max_threads later raw ≡ false)
  unfolding unregister feed is_timed_out
  stale_id_refused raw us slots {slots'} e room =
      let (s, o, freed) = accepted_id slots raw e in
      let (found, active, same) = owned-found slots raw s o in
      let i = index_of (slot_bits max_threads) raw in
      let g = generation_of (slot_bits max_threads) raw in
      let start : Past i g (length us) slots' =
        subst (λ l. Past i g (length us) l) (sym freed)
          (freed-Past slots i g (length us) s found same room) in
      let gone =
        owned-Past (use_all max_threads us slots') raw (use_all-Past us slots' i g start) in
      (rw (gone, unregister) refl, λ now. rw (gone, feed) refl, rw (gone, is_timed_out) refl)
