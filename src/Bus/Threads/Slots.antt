-- ===== src/Bus/Threads/Slots.antt =====
-- The slots of the positions in a window of `kQueueDepth`: each position has its own.
use native.Mathlib.Nat.{mod-add-div', add-mod_right, mul-le-mul_right, suc-mul}
use newosp.Base.{
  ℕ, zero, suc, ◌+◌, ◌/◌, ◌%◌, ◌^◌, ◌≤◌, ◌<◌, ◌≡◌, arith, bit_and-mask, pow-pos, sym, ◌∙◌, dec_lt,
}
use newosp.Bus.{slot_of}

pub slot_of-mod : (bits p : ℕ) → slot_of bits p ≡ p % 2 ^ bits
slot_of-mod bits p = bit_and-mask bits p

pub slot_of-add : (bits p : ℕ) → slot_of bits (p + 2 ^ bits) ≡ slot_of bits p
slot_of-add bits p =
    slot_of-mod bits (p + 2 ^ bits) ∙ add-mod_right p (2 ^ bits) ∙ sym (slot_of-mod bits p)

pub slot_of_injective :
    (bits p q : ℕ) → p ≤ q → q < p + 2 ^ bits → slot_of bits p ≡ slot_of bits q → p ≡ q
slot_of_injective bits p q le lt e =
    let k = 2 ^ bits in
    let same : p % k ≡ q % k = sym (slot_of-mod bits p) ∙ e ∙ slot_of-mod bits q in
    elim (dec_lt (p / k) (q / k)) [
      | yes further ↦ absurd (
          omega (
            arith,
            mod-add-div' p k,
            mod-add-div' q k,
            suc-mul (p / k) k,
            mul-le-mul_right {m = suc (p / k)} {n = q / k} k (omega arith),
          ))
      | no near ↦ omega (
        arith,
        mod-add-div' p k,
        mod-add-div' q k,
        mul-le-mul_right {m = q / k} {n = p / k} k (omega arith),
      )
    ]

-- The position of the window from `c` on that shares the slot of an earlier one.
pub later_position :
    (bits c d p : ℕ)
    → p < c
    → c ≤ p + d
    → (q : ℕ) × (c ≤ q)
      × (q < c + 2 ^ bits)
      × (p + 2 ^ bits ≤ q)
      × (slot_of bits q ≡ slot_of bits p)
later_position bits c zero p lt le = absurd (omega arith)
later_position bits c (suc d) p lt le = elim (dec_lt (p + 2 ^ bits) c) [
  | yes before ↦
      let next = later_position bits c d (p + 2 ^ bits) before (omega (arith, pow-pos bits)) in
      (next.0, next.1, next.2, omega (arith, next.3), next.4 ∙ slot_of-add bits p)
  | no after ↦ (p + 2 ^ bits, omega arith, omega arith, omega arith, slot_of-add bits p)
]

-- Two positions of one window that share a slot are one.
pub slot_of_unique :
    (bits c p q : ℕ)
    → c ≤ p
    → p < c + 2 ^ bits
    → c ≤ q
    → q < c + 2 ^ bits
    → slot_of bits p ≡ slot_of bits q
    → p ≡ q
slot_of_unique bits c p q lp hp lq hq e = elim (dec_lt p q) [
  | yes first ↦ slot_of_injective bits p q (omega arith) (omega arith) e
  | no second ↦ sym (slot_of_injective bits q p (omega arith) (omega arith) (sym e))
]
