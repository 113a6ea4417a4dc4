-- ===== src/SpscRingbuffer/Narrow.antt =====
-- An `IndexT` narrower than `int` is promoted where `Push` compares: a full ring whose head index has
-- wrapped is not seen to be full.
use native.Mathlib.Nat.{le-mul_of_pos_right, add-mod_right}
use newosp.Base.{
  ℕ, ◌+◌, ◌-◌, ◌*◌, ◌%◌, ◌^◌, ◌≤◌, ◌<◌, ◌≡◌, refl, ap, sym, ◌∙◌, arith, true, false, ◌==◌, pow-pos,
  set, bit_and-mask,
}
use newosp.SpscRingbuffer.{Ring, sub_index, sub_promoted, push, size}
use newosp.SpscRingbuffer.Wrap.{
  pow-add, mod_below, room, sub_index-head, slot_of_wrapped, tail-add-sub_index,
}
use newosp.SpscRingbuffer.Refine.{IsValid}

pow-le : (a b : ℕ) → a ≤ b → 2 ^ a ≤ 2 ^ b
pow-le a b h =
    let e : b ≡ a + (b - a) = omega arith in
    omega
      (arith, ap (λ n. 2 ^ n) e, pow-add a (b - a), le-mul_of_pos_right (2 ^ a) (pow-pos (b - a)))

module _ (width head tail : ℕ) (narrow : width < 32) where
  promoted-wrapped :
      head < tail → tail < 2 ^ width → sub_promoted width head tail ≡ head + 2 ^ 64 - tail
  promoted-wrapped wrapped t_in =
      ground (arith, mod_below (head + 2 ^ 64 - tail) (2 ^ 64) (omega arith))

  test-false :
      (bits : ℕ)
      → 4 * 2 ^ bits ≤ 2 ^ width
      → head < tail
      → tail < 2 ^ width
      → (sub_promoted width head tail == 2 ^ bits) ≡ false
  test-false bits big wrapped t_in =
      let small = pow-le width 32 (omega arith) in
      ground (arith, promoted-wrapped wrapped t_in, small, big)

same_slot :
    (width bits head tail : ℕ)
    → bits + 2 ≤ width
    → head < 2 ^ width
    → tail < 2 ^ width
    → sub_index width head tail ≡ 2 ^ bits
    → head % 2 ^ bits ≡ tail % 2 ^ bits
same_slot width bits head tail gap h_in t_in full =
    sym (ap (λ n. n % 2 ^ bits) (tail-add-sub_index width head tail h_in t_in))
    ∙ slot_of_wrapped width bits gap (tail + sub_index width head tail)
    ∙ ap (λ n. (tail + n) % 2 ^ bits) full
    ∙ add-mod_right tail (2 ^ bits)

module _ {ℓ} {A : Type ℓ} (width bits : ℕ) (r : Ring A) (x : A) where
  -- With an index type of fewer than 32 bits that counts at least four times the capacity, a push to a
  -- full, valid ring whose head index has wrapped below its tail index succeeds: it overwrites the slot of
  -- the oldest element, at the tail index, with the new one and no other slot, leaves the tail index, and
  -- the ring counts one element more than its capacity.
  pub narrow_push_overflows :
      width < 32
      → bits + 2 ≤ width
      → IsValid width bits r
      → sub_index width r.head r.tail ≡ 2 ^ bits
      → r.head < r.tail
      → ((push width bits r x).0 ≡ true)
        × (size width bits (push width bits r x).1 ≡ 2 ^ bits + 1)
        × ((push width bits r x).1.data_buff ≡ set r.data_buff (r.tail % 2 ^ bits) x)
        × ((push width bits r x).1.tail ≡ r.tail)
  unfolding push size
  narrow_push_overflows narrow gap v full wrapped =
      let big = room width bits gap in
      rw (test-false width r.head r.tail narrow bits big wrapped v.tail_in) (
        refl,
        sub_index-head width r.head r.tail v.head_in v.tail_in 1
              (omega (arith, full, big, pow-pos bits))
            ∙ ap (λ k. k + 1) full,
        ap (λ k. set r.data_buff k x)
            (bit_and-mask bits r.head
              ∙ same_slot width bits r.head r.tail gap v.head_in v.tail_in full),
        refl,
      )
