-- ===== src/SpscRingbuffer/Refine.antt =====
-- A valid ring behaves as the bounded queue of its elements, when `IndexT` is not promoted.
use native.Mathlib.Nat.{mod-lt}
use newosp.Base.{
  drop-min, lt→ltb, ==_iff, dec_lt, ℕ_discrete, ℕ, suc, ◌+◌, ◌-◌, ◌%◌, ◌^◌, ◌≤◌, ◌<◌, min, ◌≡◌, ◌≢◌,
  ap, sym, ◌∙◌, arith, [], ◌∷◌, ◌++◌, none, some, true, false, length, get_or, set, drop,
  length-set, length-replicate, ltb, pow-pos, if◌then◌else◌, ◌==◌,
}
use newosp.SpscRingbuffer.{
  sub_promoted, Ring, sub_index, masked, init, push, pop, peek, discard, consumer_clear,
}
use newosp.SpscRingbuffer.Contents.{
  head?-slots, drop-slots, slots, slots-set, slots_same_mod, length-slots, contents,
}
use newosp.SpscRingbuffer.Wrap.{
  masked-mod, mod_below, room, slot_of_wrapped, sub_index-head, sub_index-tail, tail-add-sub_index,
  sub_index-cases, sub_index-lt,
}
use newosp.SpscRingbuffer.Fifo.{
  head?, call, pushes, pops, peeks, clears, discards, accepted, element, counted,
}

-- The representation invariant.
pub record IsValid {ℓ} {A : Type ℓ} (width bits : ℕ) (r : Ring A) : Type ℓ where
  pub storage : length r.data_buff ≡ 2 ^ bits
  pub head_in : r.head < 2 ^ width
  pub tail_in : r.tail < 2 ^ width
  pub within : sub_index width r.head r.tail ≤ 2 ^ bits

-- The widths for which the comparisons are exact: `IndexT` is not narrower than `int`, and the
-- buffer is at most half of what it counts (a `static_assert` of the source).
pub record IsWide (width bits : ℕ) : Type 0 where
  pub unpromoted : 32 ≤ width
  pub gap : bits + 2 ≤ width

full_test :
    (width bits a b : ℕ)
    → IsWide width bits
    → (sub_promoted width a b == 2 ^ bits) ≡ (sub_index width a b == 2 ^ bits)
full_test width bits a b wide = ground (arith, wide.unpromoted)

module _ {ℓ} {A : Type ℓ} (width bits : ℕ) (wide : IsWide width bits) where
  push-full :
      (r : Ring A) (x : A)
      → sub_index width r.head r.tail ≡ 2 ^ bits
      → push width bits r x ≡ (false, r)
  unfolding push
  push-full r x e =
      let test : (sub_promoted width r.head r.tail == 2 ^ bits) ≡ true =
        full_test width bits r.head r.tail wide ∙ (==_iff _ _).1 e in
      rw test

  push-room :
      (r : Ring A) (x : A)
      → sub_index width r.head r.tail ≢ 2 ^ bits
      → push width bits r x ≡ (
        true,
        record r {
          data_buff = set r.data_buff (masked bits r.head) x;
          head = (r.head + 1) % 2 ^ width;
        },
      )
  unfolding push
  push-room r x ne =
      let test : (sub_promoted width r.head r.tail == 2 ^ bits) ≡ false =
        full_test width bits r.head r.tail wide ∙ ground (arith, ne) in
      rw test

  pub push-IsValid :
      (r : Ring A) (x : A) → IsValid width bits r → IsValid width bits (push width bits r x).1
  unfolding push
  push-IsValid r x v = ground (
    arith,
    room width bits wide.gap,
    length-set r.data_buff (masked bits r.head) x,
    sub_index-head width r.head r.tail v.head_in v.tail_in 1,
    mod-lt (r.head + 1) (pow-pos width),
  )

  pub head_slot :
      (r : Ring A)
      → IsValid width bits r
      → r.head % 2 ^ bits ≡ (r.tail + sub_index width r.head r.tail) % 2 ^ bits
  head_slot r v =
      ap (λ t. t % 2 ^ bits) (sym (tail-add-sub_index width r.head r.tail v.head_in v.tail_in))
      ∙ slot_of_wrapped width bits wide.gap (r.tail + sub_index width r.head r.tail)

  module _ (blank : A) where
    pub init-IsValid : IsValid width bits (init blank bits)
    unfolding init
    init-IsValid = ground (
      arith,
      length-replicate (2 ^ bits) blank,
      pow-pos width,
      mod_below 0 (2 ^ width),
      sub_index-cases width 0 0,
    )

    pub length-contents :
        (r : Ring A) → length (contents blank width bits r) ≡ sub_index width r.head r.tail
    length-contents r = length-slots blank bits r.data_buff r.tail (sub_index width r.head r.tail)

    contents-push :
        (r : Ring A) (x : A)
        → IsValid width bits r
        → sub_index width r.head r.tail < 2 ^ bits
        → contents blank width bits (record r {
          data_buff = set r.data_buff (masked bits r.head) x;
          head = (r.head + 1) % 2 ^ width;
        })
          ≡ contents blank width bits r ++ (x ∷ [])
    contents-push r x v h =
        let size = sub_index width r.head r.tail in
        let more : sub_index width ((r.head + 1) % 2 ^ width) r.tail ≡ suc size = omega (
          arith,
          sub_index-head width r.head r.tail v.head_in v.tail_in 1
              (omega (arith, room width bits wide.gap, h)),
        ) in
        ap (slots blank bits (set r.data_buff (masked bits r.head) x) r.tail) more
        ∙ slots-set blank bits r.data_buff (masked bits r.head) x r.tail size v.storage h
            (masked-mod bits r.head ∙ head_slot r v)

    -- `Push` is the push of the bounded queue: it is refused when the ring is full, and leaves it as it
    -- is, and else adds the element behind the others.
    pub push_refines :
        (r : Ring A) (x : A)
        → IsValid width bits r
        → let (done, r') = push width bits r x in
          (accepted done, contents blank width bits r')
          ≡ call (2 ^ bits) (contents blank width bits r) (pushes x)
    unfolding call
    push_refines r x v = elim (ℕ_discrete (sub_index width r.head r.tail) (2 ^ bits)) [
      | yes e ↦
          let test : (length (contents blank width bits r) == 2 ^ bits) ≡ true =
            (==_iff _ _).1 (length-contents r ∙ e) in
          rw (push-full r x e, test)
      | no ne ↦
          let test : (length (contents blank width bits r) == 2 ^ bits) ≡ false =
            ground (arith, length-contents r, ne) in
          rw (push-room r x ne, test)
            (ap (λ l. (accepted true, l)) (contents-push r x v (omega (arith, v.within, ne))))
    ]

    -- Taking `n` elements off is moving the tail on by `n`.
    pub contents-drop :
        (n : ℕ) (r : Ring A)
        → IsValid width bits r
        → n ≤ sub_index width r.head r.tail
        → contents blank width bits (record r { tail = (r.tail + n) % 2 ^ width })
          ≡ drop n (contents blank width bits r)
    contents-drop n r v h =
        ap (slots blank bits r.data_buff ((r.tail + n) % 2 ^ width))
          (sub_index-tail width r.head r.tail v.head_in v.tail_in n h)
        ∙ slots_same_mod blank bits r.data_buff ((r.tail + n) % 2 ^ width) (r.tail + n)
            (sub_index width r.head r.tail - n) (slot_of_wrapped width bits wide.gap (r.tail + n))
        ∙ sym (drop-slots blank bits r.data_buff r.tail n (sub_index width r.head r.tail) h)

    pub tail-IsValid :
        (n : ℕ) (r : Ring A)
        → IsValid width bits r
        → n ≤ sub_index width r.head r.tail
        → IsValid width bits (record r { tail = (r.tail + n) % 2 ^ width })
    tail-IsValid n r v h = ground (
      arith,
      sub_index-tail width r.head r.tail v.head_in v.tail_in n h,
      mod-lt (r.tail + n) (pow-pos width),
    )

    -- The ring is empty when the indices meet, and has a first element otherwise.
    same_index :
        (r : Ring A) → IsValid width bits r → r.tail ≡ r.head → sub_index width r.head r.tail ≡ 0
    same_index r v e = omega (arith, sub_index-cases width r.head r.tail v.head_in v.tail_in)

    other_index :
        (r : Ring A) → IsValid width bits r → r.tail ≢ r.head → 0 < sub_index width r.head r.tail
    other_index r v ne = omega (arith, sub_index-cases width r.head r.tail v.head_in v.tail_in)

    head?-contents :
        (r : Ring A)
        → IsValid width bits r
        → head? (contents blank width bits r) ≡ (
            if r.tail == r.head then none else some (get_or r.data_buff (masked bits r.tail) blank))
    head?-contents r v = elim (ℕ_discrete r.tail r.head) [
      | yes e ↦ ground (arith, same_index r v e)
      | no ne ↦ ground (
        arith,
        head?-slots blank bits r.data_buff r.tail (sub_index width r.head r.tail)
            (other_index r v ne),
        masked-mod bits r.tail,
      )
    ]

    -- `Pop` is the pop of the bounded queue: it fails on an empty ring, and else takes the oldest
    -- element off.
    pub pop_refines :
        (r : Ring A)
        → IsValid width bits r
        → let (out, r') = pop blank width bits r in
          (element out, contents blank width bits r')
          ≡ call (2 ^ bits) (contents blank width bits r) pops
    unfolding pop call
    pop_refines r v = elim (ℕ_discrete r.tail r.head) [
      | yes e ↦ ground (arith, head?-contents r v, same_index r v e)
      | no ne ↦ ground (arith, head?-contents r v, contents-drop 1 r v (other_index r v ne))
    ]

    pub pop-IsValid :
        (r : Ring A) → IsValid width bits r → IsValid width bits (pop blank width bits r).1
    unfolding pop
    pop-IsValid r v = elim (ℕ_discrete r.tail r.head) [
      | yes e ↦ ground arith
      | no ne ↦ ground (arith, tail-IsValid 1 r v (other_index r v ne))
    ]

    pub peek_refines :
        (r : Ring A)
        → IsValid width bits r
        → (element (peek blank width bits r), contents blank width bits r)
          ≡ call (2 ^ bits) (contents blank width bits r) peeks
    unfolding peek call
    peek_refines r v = ground (arith, head?-contents r v)

    -- `Discard` takes the oldest elements off, as many as there are at most, and counts them.
    pub discard_refines :
        (n : ℕ) (r : Ring A)
        → IsValid width bits r
        → let (count, r') = discard width bits n r in
          (counted count, contents blank width bits r')
          ≡ call (2 ^ bits) (contents blank width bits r) (discards n)
    unfolding discard call
    discard_refines n r v = elim (dec_lt 0 (min n (sub_index width r.head r.tail))) [
      | yes pos ↦
          let size = sub_index width r.head r.tail in
          let m = min n size in
          let unwrapped : m % 2 ^ width ≡ m =
            mod_below m (2 ^ width) (omega (arith, sub_index-lt width r.head r.tail)) in
          rw (lt→ltb 0 m pos, unwrapped, length-contents r)
            (ap (λ l. (counted m, l))
              (contents-drop m r v (omega arith)
                ∙ drop-min n (contents blank width bits r) size (length-contents r)))
      | no none_left ↦
          let m = min n (sub_index width r.head r.tail) in
          let zero_test : ltb 0 m ≡ false = ground (arith, none_left) in
          rw (zero_test, length-contents r)
            (ap (λ l. (counted m, l))
              (ap (λ k. drop k (contents blank width bits r)) {x = 0} (omega arith)
                ∙ drop-min n (contents blank width bits r) _ (length-contents r)))
    ]

    pub clear_refines :
        (r : Ring A)
        → IsValid width bits r
        → (counted 0, contents blank width bits (consumer_clear width bits r))
          ≡ call (2 ^ bits) (contents blank width bits r) clears
    unfolding consumer_clear call
    clear_refines r v =
        ap (λ n. (counted 0, slots blank bits r.data_buff r.head n)) {y = 0}
          (omega (arith, sub_index-cases width r.head r.head v.head_in v.head_in))

    pub clear-IsValid :
        (r : Ring A) → IsValid width bits r → IsValid width bits (consumer_clear width bits r)
    unfolding consumer_clear
    clear-IsValid r v = ground (arith, sub_index-cases width r.head r.head v.head_in v.head_in)

    pub discard-IsValid :
        (n : ℕ) (r : Ring A) → IsValid width bits r → IsValid width bits (discard width bits n r).1
    unfolding discard
    discard-IsValid n r v =
        let m = min n (sub_index width r.head r.tail) in
        ground (
          arith,
          tail-IsValid m r v (omega arith),
          mod_below m (2 ^ width) (omega (arith, sub_index-lt width r.head r.tail)),
        )
