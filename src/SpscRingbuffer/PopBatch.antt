-- ===== src/SpscRingbuffer/PopBatch.antt =====
-- `PopBatch` returns, and takes off as many elements as are asked for and there, whether it copies
-- in two parts or one by one.
use mathlib.Core.List.{append-nil}
use native.Mathlib.Nat.{mod-lt, mod-add-mod}
use newosp.Base.{
  drop-drop, take-min, take_none, ℕ, zero, suc, ◌+◌, ◌-◌, ◌%◌, ◌^◌, ◌≤◌, ◌<◌, min, ◌≡◌, refl, ap,
  sym, ◌∙◌, arith, List, [], ◌++◌, Option, some, Bool, true, false, length, take, drop, length-drop,
  pow-pos, if◌then◌else◌, ◌==◌, ==_iff, ℕ_discrete,
}
use newosp.SpscRingbuffer.Contents.{take-slots, slots, slots_same_mod, contents}
use newosp.SpscRingbuffer.{Ring, sub_index, masked, pop_loop, pop_batch, read_each, read_parts}
use newosp.SpscRingbuffer.Wrap.{masked-mod, mod_below, sub_index-lt}
use newosp.SpscRingbuffer.Fifo.{call, pops_batch, elements}
use newosp.SpscRingbuffer.Copies.{read_each-eq-slots, read_parts-eq-slots}
use newosp.SpscRingbuffer.Refine.{IsValid, IsWide, contents-drop, tail-IsValid, length-contents}

module _ {ℓ} {A : Type ℓ} (width bits : ℕ) (wide : IsWide width bits) where
  module _ (blank : A) where
    masked_tail : (t : ℕ) → (masked bits t + 0) % 2 ^ bits ≡ t % 2 ^ bits
    masked_tail t =
        ap (λ k. (k + 0) % 2 ^ bits) (masked-mod bits t)
        ∙ mod-add-mod t (2 ^ bits) 0
        ∙ ap (λ k. k % 2 ^ bits) (omega arith)

    -- Both ways of copying read the oldest elements.
    abbrev items_read : Bool → Ring A → ℕ → List A
    items_read trivial r n =
        if trivial
        then read_parts blank bits (masked bits r.tail) r.data_buff n
        else read_each blank bits (masked bits r.tail) r.data_buff 0 n

    items_read-eq-take :
        (trivial : Bool) (r : Ring A) (n : ℕ)
        → IsValid width bits r
        → n ≤ sub_index width r.head r.tail
        → items_read trivial r n ≡ take n (contents blank width bits r)
    items_read-eq-take true r n v h =
        read_parts-eq-slots bits blank (masked bits r.tail) n r.data_buff
          (omega (arith, masked-mod bits r.tail, mod-lt r.tail (pow-pos bits)))
          (omega (arith, v.within))
        ∙ slots_same_mod blank bits r.data_buff (masked bits r.tail) r.tail n
            (ap (λ k. k % 2 ^ bits) (omega arith) ∙ masked_tail r.tail)
        ∙ sym (take-slots blank bits r.data_buff r.tail n (sub_index width r.head r.tail) h)
    items_read-eq-take false r n v h =
        read_each-eq-slots bits blank (masked bits r.tail) 0 n r.data_buff
        ∙ slots_same_mod blank bits r.data_buff (masked bits r.tail + 0) r.tail n
            (masked_tail r.tail)
        ∙ sym (take-slots blank bits r.data_buff r.tail n (sub_index width r.head r.tail) h)

    record Popped (r : Ring A) (out : List A) (count : ℕ) (result : Option (List A × Ring A))
        : Type ℓ where
      ring : Ring A
      valid : IsValid width bits ring
      returned : result ≡ some (out ++ take count (contents blank width bits r), ring)
      holds : contents blank width bits ring ≡ drop count (contents blank width bits r)

    pop_loop-Popped :
        (fuel : ℕ) (trivial : Bool) (r : Ring A) (out : List A) (count : ℕ)
        → count < fuel
        → IsValid width bits r
        → Popped r out count (pop_loop blank width bits fuel trivial r out count)
    unfolding pop_loop
    pop_loop-Popped zero trivial r out count enough v = absurd (omega arith)
    pop_loop-Popped (suc fuel) trivial r out zero enough v = record {
      ring = r;
      valid = v;
      returned = ap (λ l. some (l, r)) (sym (append-nil out));
      holds = refl;
    }
    pop_loop-Popped (suc fuel) trivial r out (suc left) enough v =
        let size = sub_index width r.head r.tail in
        let n = min (suc left) size in
        let r1 = record r { tail = (r.tail + n % 2 ^ width) % 2 ^ width } in
        let unwrapped : n % 2 ^ width ≡ n =
          mod_below n (2 ^ width) (omega (arith, sub_index-lt width r.head r.tail)) in
        let ih = pop_loop-Popped fuel trivial r1 (out ++ items_read trivial r n) (suc left - n) in
        let c0 : contents blank width bits r1 ≡ drop n (contents blank width bits r) =
          ap (λ t. contents blank width bits (record r { tail = (r.tail + t) % 2 ^ width }))
            unwrapped
          ∙ contents-drop width bits wide blank n r v (omega arith) in
        let exact : take n (contents blank width bits r)
            ≡ take (suc left) (contents blank width bits r) =
          ap (λ k. take k (contents blank width bits r))
            (omega (arith, length-contents width bits wide blank r))
          ∙ take-min (suc left) (contents blank width bits r) in
        elim (ℕ_discrete size 0) [
          | yes empty ↦
              let gone : contents blank width bits r ≡ [] =
                ap (slots blank bits r.data_buff r.tail) empty in
              record {
                ring = r;
                valid = v;
                returned = rw ((==_iff _ _).1 empty) (
                    ap (λ l. some (l, r))
                      (sym (append-nil out) ∙ ap (λ l. out ++ take (suc left) l) (sym gone)));
                holds = gone ∙ ap (drop (suc left)) (sym gone);
              }
          | no more ↦
              let test : (size == 0) ≡ false = ground (arith, more) in
              let popped =
                ih (omega (arith, more))
                  (rw unwrapped (tail-IsValid width bits wide blank n r v (omega arith))) in
              let rest_none : take (suc left - n) (contents blank width bits r1) ≡ [] =
                take_none (suc left - n) (contents blank width bits r1) (
                  omega (
                    arith,
                    ap length c0,
                    length-drop n (contents blank width bits r),
                    length-contents width bits wide blank r,
                  )) in
              record {
                ring = popped.ring;
                valid = popped.valid;
                returned = rw test (
                    popped.returned
                    ∙ ap (λ l. some (l, popped.ring))
                        (ap (λ l. (out ++ items_read trivial r n) ++ l) rest_none
                          ∙ append-nil _
                          ∙ ap (λ l. out ++ l)
                              (items_read-eq-take trivial r n v (omega arith) ∙ exact)));
                holds =
                    popped.holds
                    ∙ ap (drop (suc left - n)) c0
                    ∙ drop-drop (suc left - n) n (contents blank width bits r)
                    ∙ ap (λ k. drop k (contents blank width bits r)) {y = suc left} (omega arith);
              }
        ]

    -- On a valid ring whose `IndexT` has 32 bits or more and counts at least four times the capacity,
    -- `PopBatch` returns, with either way of copying, and leaves a valid ring. It is the batch pop of the bounded queue: it
    -- takes the oldest elements off, as many as asked for or as there are, in order.
    pub pop_batch_refines :
        (trivial : Bool) (r : Ring A) (count : ℕ)
        → IsValid width bits r
        → (out : List A) × (r' : Ring A) × (pop_batch blank width bits trivial r count
            ≡ some (out, r'))
          × IsValid width bits r'
          × ((elements out, contents blank width bits r')
              ≡ call (2 ^ bits) (contents blank width bits r) (pops_batch count))
    unfolding pop_batch call
    pop_batch_refines trivial r count v =
        let p = pop_loop-Popped (suc (suc count)) trivial r [] count (omega arith) v in
        (
          _,
          p.ring,
          p.returned,
          p.valid,
          ap (λ l. (elements (take count (contents blank width bits r)), l)) p.holds,
        )
