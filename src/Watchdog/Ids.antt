-- ===== src/Watchdog/Ids.antt =====
-- The slot ids of the watchdog: what an id gives access to, and for how long.
use native.Mathlib.Numerals.{unary_clauses}
use native.Mathlib.Nat.{
  add-mul, mul_assoc, mod-add-div', add-mul-mod_self_right, mod-eq_of_lt, mul-lt-mul_of_pos_right,
  add-mul-div_right, div-eq_of_lt, mod-lt,
}
use newosp.Base.{
  zero, suc, get_elem?-set_self, dec_lt, leb, subst, ltb, ◌==◌, length, ap₂, none, set, some,
  get_elem?, Option, sym, ℕ, List, [], ◌∷◌, if◌then◌else◌, refl, ap, ◌∙◌, arith, Bool, true, false,
  ◌≡◌, ◌+◌, ◌&&◌, bit_or, ◌*◌, ◌^◌, ◌%◌, ◌/◌, ◌<◌, ◌≤◌, ◌-◌, pow-pos, bit_or-fields, bit_and-mask,
}
use newosp.Watchdog.{
  not_registered, owned, unregister, invalid_timeout, register, slots_full, error, Expected,
  success, register_from, occupy, slot_bits, index_of, generation_of, Slot, encoded_id,
}
use newosp.SpscRingbuffer.Wrap.{pow-add}

mul-mod_mul : (g m b : ℕ) → 0 < m → 0 < b → g * b % (m * b) ≡ g % m * b
mul-mod_mul g m b m_pos b_pos =
    ap (λ t. t * b % (m * b)) (sym (mod-add-div' g m))
    ∙ ap (λ t. t % (m * b)) (add-mul (g % m) (g / m * m) b)
    ∙ ap (λ t. (g % m * b + t) % (m * b)) (mul_assoc (g / m) m b)
    ∙ add-mul-mod_self_right (g % m * b) (g / m) (m * b)
    ∙ mod-eq_of_lt (mul-lt-mul_of_pos_right (mod-lt g m_pos) b_pos)

module _ (bits : ℕ) (small : bits ≤ 32) where
  pow-split : 2 ^ 32 ≡ 2 ^ (32 - bits) * 2 ^ bits
  pow-split =
      let e : 32 ≡ 32 - bits + bits = omega arith in ap (λ n. 2 ^ n) e ∙ pow-add (32 - bits) bits

  encoded_id-sum :
      (g i : ℕ) → i < 2 ^ bits → encoded_id bits g i ≡ i + g % 2 ^ (32 - bits) * 2 ^ bits
  encoded_id-sum g i h =
      ap (λ t. bit_or i (g * 2 ^ bits % t)) pow-split
      ∙ ap (bit_or i)
          (mul-mod_mul g (2 ^ (32 - bits)) (2 ^ bits) (pow-pos (32 - bits)) (pow-pos bits))
      ∙ bit_or-fields bits i (g % 2 ^ (32 - bits)) h

  index_of-encoded_id : (g i : ℕ) → i < 2 ^ bits → index_of bits (encoded_id bits g i) ≡ i
  index_of-encoded_id g i h =
      bit_and-mask bits _
      ∙ rw (encoded_id-sum g i h)
          (add-mul-mod_self_right i (g % 2 ^ (32 - bits)) (2 ^ bits) ∙ mod-eq_of_lt h)

  generation_of-encoded_id :
      (g i : ℕ) → i < 2 ^ bits → generation_of bits (encoded_id bits g i) ≡ g % 2 ^ (32 - bits)
  generation_of-encoded_id g i h =
      rw (encoded_id-sum g i h)
        (omega (arith, add-mul-div_right i (g % 2 ^ (32 - bits)) (pow-pos bits), div-eq_of_lt h))

slot_bits-fit : (n : ℕ) → n ≤ 256 → (n ≤ 2 ^ slot_bits n) × (slot_bits n ≤ 32)
slot_bits-fit n h = ground arith

-- The first slot that is free, with its index, from an index on.
abbrev found_after : ℕ → Option (ℕ × Slot) → Option (ℕ × Slot)
found_after n none = none
found_after n (some (j, s)) = some (j + n, s)

unfoldable pub first_free : List Slot → Option (ℕ × Slot)
first_free [] = none
first_free (s ∷ rest) =
    let found = first_free rest in if s.active then found_after 1 found else some (0, s)

set-suc :
    (s : Slot) (rest : List Slot) (j : ℕ) (t : Slot) → s ∷ set rest j t ≡ set (s ∷ rest) (j + 1) t
set-suc s rest j t = simp unary_clauses refl

abbrev pub IsFree : List Slot → Option (ℕ × Slot) → Type 0
IsFree slots none = Unit
IsFree slots (some (j, s)) = (get_elem? slots j ≡ some s) × (j < length slots)

IsFree-after :
    (t : Slot) (rest : List Slot) (found : Option (ℕ × Slot))
    → IsFree rest found
    → IsFree (t ∷ rest) (found_after 1 found)
IsFree-after t rest none free = tt
IsFree-after t rest (some (j, s)) free = simp unary_clauses (free.0, omega (arith, free.1))

by_test :
    (t : Slot) (rest : List Slot) (found : Option (ℕ × Slot)) (b : Bool)
    → IsFree rest found
    → IsFree (t ∷ rest) (if b then found_after 1 found else some (0, t))
by_test t rest found true free = IsFree-after t rest found free
by_test t rest found false free = (refl, omega arith)

pub first_free-IsFree : (slots : List Slot) → IsFree slots (first_free slots)
unfolding first_free
first_free-IsFree [] = tt
first_free-IsFree (t ∷ rest) = by_test t rest (first_free rest) t.active (first_free-IsFree rest)

set-set : (slots : List Slot) (j : ℕ) (t u : Slot) → set (set slots j t) j u ≡ set slots j u
set-set [] j t u = refl
set-set (s ∷ slots) zero t u = refl
set-set (s ∷ slots) (suc j) t u = ap (λ l. s ∷ l) (set-set slots j t u)

module _ (max_threads now : ℕ) (name : Option (List ℕ)) (timeout_ms : ℕ) where
  abbrev pub taken : ℕ → List Slot → Option (ℕ × Slot) → Expected ℕ × List Slot
  taken i slots none = (error slots_full, slots)
  taken i slots (some (j, s)) =
      let t = occupy now name timeout_ms s in
      (success (encoded_id (slot_bits max_threads) t.generation (i + j)), set slots j t)

  taken-found_after :
      (i : ℕ) (s : Slot) (rest : List Slot) (found : Option (ℕ × Slot))
      → ((taken (i + 1) rest found).0, s ∷ (taken (i + 1) rest found).1)
        ≡ taken i (s ∷ rest) (found_after 1 found)
  taken-found_after i s rest none = refl
  taken-found_after i s rest (some (j, t)) =
      ap₂ (λ m l. (success (encoded_id (slot_bits max_threads) ((t.generation + 1) % 2 ^ 32) m), l))
        {y = i + (j + 1)} (omega arith) (set-suc s rest j (occupy now name timeout_ms t))

  -- One turn of the loop of Register, by whether the slot is taken.
  by_active :
      (b : Bool) (i : ℕ) (s : Slot) (rest : List Slot) (r : Expected ℕ × List Slot)
      → (found : Option (ℕ × Slot)) → (r.0, s ∷ r.1) ≡ taken i (s ∷ rest) (found_after 1 found)
      → elim b [
        | false ↦
            let t = occupy now name timeout_ms s in
            (success (encoded_id (slot_bits max_threads) t.generation i), t ∷ rest)
        | true ↦ (r.0, s ∷ r.1)
      ]
        ≡ taken i (s ∷ rest) (if b then found_after 1 found else some (0, s))
  by_active true i s rest r found e = e
  by_active false i s rest r found e =
      ap
        (λ m. (
          success (encoded_id (slot_bits max_threads) ((s.generation + 1) % 2 ^ 32) m),
          occupy now name timeout_ms s ∷ rest,
        ))
        {y = i + 0} (omega arith)

  pub register_from-taken :
      (i : ℕ) (slots : List Slot)
      → register_from max_threads now name timeout_ms i slots ≡ taken i slots (first_free slots)
  unfolding register_from first_free
  register_from-taken i [] = refl
  register_from-taken i (s ∷ rest) =
      by_active s.active i s rest (register_from max_threads now name timeout_ms (i + 1) rest)
        (first_free rest)
        (ap (λ (p : Expected ℕ × List Slot). (p.0, s ∷ p.1)) (register_from-taken (i + 1) rest)
          ∙ taken-found_after i s rest (first_free rest))

  -- Register refuses a timeout of zero; else it takes the first free slot, if there is one, moves its
  -- generation on, stamps its heartbeat and gives its id, and it fails with kSlotsFull, changing
  -- nothing, if all the slots are active.
  pub register-first_free :
      (slots : List Slot)
      → register max_threads now name timeout_ms slots ≡ (
          if timeout_ms == 0
          then (error invalid_timeout, slots)
          else taken 0 slots (first_free slots))
  unfolding register
  register-first_free slots = rw (register_from-taken 0 slots) refl

  owned-set :
      (slots : List Slot) (j : ℕ) (t : Slot) (raw : ℕ)
      → index_of (slot_bits max_threads) raw ≡ j
      → j < max_threads
      → j < length slots
      → owned max_threads (set slots j t) raw ≡ (
          if t.active && t.generation == generation_of (slot_bits max_threads) raw
          then some t
          else none)
  unfolding owned
  owned-set slots j t raw e below inside =
      let test : leb max_threads j ≡ false = ground arith in
      rw (e, test, get_elem?-set_self slots j t inside) refl

  generation_fits :
      (g : ℕ)
      → g < 2 ^ 32
      → slot_bits max_threads ≤ 32
      → (g % 2 ^ 32 == g % 2 ^ (32 - slot_bits max_threads))
        ≡ ltb g (2 ^ (32 - slot_bits max_threads))
  generation_fits g h small =
      let m = 2 ^ (32 - slot_bits max_threads) in
      elim (dec_lt g m) [
        | yes lt ↦
            let low : g % m ≡ g = mod-eq_of_lt lt in
            let full : g % 2 ^ 32 ≡ g = mod-eq_of_lt h in rw (low, full) (ground arith)
        | no ge ↦
            let low = mod-lt g (pow-pos (32 - slot_bits max_threads)) in
            let full : g % 2 ^ 32 ≡ g = mod-eq_of_lt h in rw full (ground arith)
      ]

  abbrev outcome : List Slot → ℕ → Option Slot → Expected Unit × List Slot
  outcome slots i none = (error not_registered, slots)
  outcome slots i (some s) = (success tt, set slots i (record s { active = false }))

  freed_or_refused :
      (b : Bool) (slots : List Slot) (j i : ℕ) (t : Slot)
      → i ≡ j
      → outcome (set slots j t) i (if b then some t else none) ≡ (
          if b
          then (success tt, set slots j (record t { active = false }))
          else (error not_registered, set slots j t))
  freed_or_refused true slots j i t e =
      rw e (ap (λ l. (success tt, l)) (set-set slots j t (record t { active = false })))
  freed_or_refused false slots j i t e = refl

  -- A registration by the last theorem's rule gives an id that Unregister accepts, freeing the slot
  -- again, exactly if the slot's new generation fits in the bits that the id has for it; a larger one
  -- is cut off in the id and not in the slot, and Unregister refuses the id, so the slot stays taken.
  -- The capacity is at most 256, and the generation has not wrapped on its own 32 bits.
  pub unregister-register :
      (slots : List Slot) (j : ℕ) (s : Slot)
      → first_free slots ≡ some (j, s)
      → length slots ≡ max_threads
      → max_threads ≤ 256
      → s.generation + 1 < 2 ^ 32
      → 0 < timeout_ms
      → let t = occupy now name timeout_ms s in
        let id = encoded_id (slot_bits max_threads) (s.generation + 1) j in
        let slots' = set slots j t in
        (register max_threads now name timeout_ms slots ≡ (success id, slots'))
        × (unregister max_threads id slots' ≡ (
            if ltb (s.generation + 1) (2 ^ (32 - slot_bits max_threads))
            then (success tt, set slots j (record t { active = false }))
            else (error not_registered, slots')))
  unfolding unregister
  unregister-register slots j s e len limit room pos =
      let bits = slot_bits max_threads in
      let (fits, small) = slot_bits-fit max_threads limit in
      let free = subst (IsFree slots) e (first_free-IsFree slots) in
      let below : j < 2 ^ bits = omega (arith, free.1, fits) in
      let t = occupy now name timeout_ms s in
      let id = encoded_id bits (s.generation + 1) j in
      let index = index_of-encoded_id bits small (s.generation + 1) j below in
      let test : (timeout_ms == 0) ≡ false = ground arith in
      let wrap : (s.generation + 1) % 2 ^ 32 ≡ s.generation + 1 = mod-eq_of_lt room in
      let none_before : 0 + j ≡ j = omega arith in
      let same =
        ap (λ g. (s.generation + 1) % 2 ^ 32 == g)
          (generation_of-encoded_id bits small (s.generation + 1) j below)
        ∙ generation_fits (s.generation + 1) room small in
      (
        register-first_free slots ∙ rw (test, e, wrap, none_before) refl,
        ap (outcome (set slots j t) (index_of bits id)) (
              owned-set slots j t id index (omega (arith, free.1)) (free.1)
              ∙ ap (λ b. if b then some t else none) same)
            ∙ freed_or_refused _ slots j _ t index,
      )
