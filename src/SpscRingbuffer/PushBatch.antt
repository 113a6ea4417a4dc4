-- ===== src/SpscRingbuffer/PushBatch.antt =====
-- `PushBatch` returns, and adds as many elements as fit, whether it copies in two parts or one by
-- one.
use mathlib.Core.List.{append-nil}
use native.Mathlib.Nat.{mod-lt, mod-add-mod}
use newosp.Base.{
  take-min, take_none, take-nil, ℕ, zero, suc, ◌+◌, ◌-◌, ◌%◌, ◌^◌, ◌≤◌, ◌<◌, min, ◌≡◌, refl, ap,
  ap₂, sym, ◌∙◌, arith, List, [], ◌∷◌, ◌++◌, Option, some, Bool, true, false, length, take, drop,
  length-take, length-drop, pow-pos, inl, ◌==◌, ==_iff, ℕ_discrete,
}
use newosp.SpscRingbuffer.{
  Ring, sub_index, masked, push_round, push_loop, push_batch, space, write_each,
}
use newosp.SpscRingbuffer.Wrap.{masked-mod, mod_below, mod_once, room, sub_index-head}
use newosp.SpscRingbuffer.Contents.{slots, contents}
use newosp.SpscRingbuffer.Fifo.{call, pushes_batch, counted}
use newosp.SpscRingbuffer.Copies.{write_parts-eq-write_each, slots-write_each, length-write_each}
use newosp.SpscRingbuffer.Refine.{IsValid, IsWide, head_slot, length-contents}

module _ {ℓ} {A : Type ℓ} (width bits : ℕ) (wide : IsWide width bits) where
  space-eq-sub :
      (r : Ring A)
      → IsValid width bits r
      → space width bits r ≡ 2 ^ bits - sub_index width r.head r.tail
  space-eq-sub r v =
      mod_once (2 ^ bits + 2 ^ width - sub_index width r.head r.tail) (2 ^ width)
        (omega (arith, v.within)) (omega (arith, room width bits wide.gap))
      ∙ omega (arith, v.within)

  round_buff :
      (trivial : Bool) (r : Ring A) (n : ℕ) (xs : List A)
      → n ≤ 2 ^ bits
      → (push_round width bits trivial r n xs).data_buff
        ≡ write_each bits (masked bits r.head) r.data_buff 0 (take n xs)
  unfolding push_round
  round_buff false r n xs h = refl
  round_buff true r n xs h =
      write_parts-eq-write_each bits (masked bits r.head) r.data_buff (take n xs)
        (omega (arith, masked-mod bits r.head, mod-lt r.head (pow-pos bits)))
        (omega (arith, length-take n xs))

  round_head :
      (trivial : Bool) (r : Ring A) (n : ℕ) (xs : List A)
      → n < 2 ^ width
      → (push_round width bits trivial r n xs).head ≡ (r.head + n) % 2 ^ width
  unfolding push_round
  round_head trivial r n xs h = ap (λ k. (r.head + k) % 2 ^ width) (mod_below n (2 ^ width) h)

  round_tail :
      (trivial : Bool) (r : Ring A) (n : ℕ) (xs : List A)
      → (push_round width bits trivial r n xs).tail ≡ r.tail
  unfolding push_round
  round_tail trivial r n xs = refl

  round_size :
      (trivial : Bool) (r : Ring A) (n : ℕ) (xs : List A)
      → IsValid width bits r
      → n ≤ 2 ^ bits - sub_index width r.head r.tail
      → let r' = push_round width bits trivial r n xs in
        sub_index width r'.head r'.tail ≡ sub_index width r.head r.tail + n
  round_size trivial r n xs v h =
      let big = room width bits wide.gap in
      rw (round_head trivial r n xs (omega (arith, v.within)), round_tail)
        (sub_index-head width r.head r.tail v.head_in v.tail_in n
          (omega (arith, v.within, pow-pos bits)))

  round-IsValid :
      (trivial : Bool) (r : Ring A) (n : ℕ) (xs : List A)
      → IsValid width bits r
      → n ≤ 2 ^ bits - sub_index width r.head r.tail
      → IsValid width bits (push_round width bits trivial r n xs)
  round-IsValid trivial r n xs v h =
      let big = room width bits wide.gap in
      record {
        storage =
            ap length (round_buff trivial r n xs (omega arith))
            ∙ length-write_each bits (masked bits r.head) 0 r.data_buff (take n xs)
            ∙ v.storage;
        head_in =
            rw (round_head trivial r n xs (omega (arith, v.within)))
              (mod-lt (r.head + n) (pow-pos width));
        tail_in = rw (round_tail trivial r n xs) v.tail_in;
        within = omega (arith, round_size trivial r n xs v h, v.within);
      }

  masked_slot :
      (r : Ring A)
      → IsValid width bits r
      → (masked bits r.head + 0) % 2 ^ bits ≡ (r.tail + sub_index width r.head r.tail) % 2 ^ bits
  masked_slot r v =
      ap (λ t. (t + 0) % 2 ^ bits) (masked-mod bits r.head)
      ∙ mod-add-mod r.head (2 ^ bits) 0
      ∙ ap (λ t. t % 2 ^ bits) (omega arith)
      ∙ head_slot width bits wide r v

  module _ (blank : A) where
    round_contents :
        (trivial : Bool) (r : Ring A) (n : ℕ) (xs : List A)
        → IsValid width bits r
        → n ≤ 2 ^ bits - sub_index width r.head r.tail
        → n ≤ length xs
        → contents blank width bits (push_round width bits trivial r n xs)
          ≡ contents blank width bits r ++ take n xs
    round_contents trivial r n xs v h enough =
        let size = sub_index width r.head r.tail in
        let taken : length (take n xs) ≡ n = omega (arith, length-take n xs) in
        let more : sub_index width (push_round width bits trivial r n xs).head
              (push_round width bits trivial r n xs).tail
            ≡ size + length (take n xs) =
          round_size trivial r n xs v h ∙ ap (λ k. size + k) (sym taken) in
        ap₂ (λ b k. slots blank bits b (push_round width bits trivial r n xs).tail k)
          (round_buff trivial r n xs (omega arith)) more
        ∙ ap
            (λ t.
              slots blank bits (write_each bits (masked bits r.head) r.data_buff 0 (take n xs)) t
                (size + length (take n xs)))
            (round_tail trivial r n xs)
        ∙ slots-write_each bits blank (masked bits r.head) 0 r.tail size r.data_buff (take n xs)
            v.storage (masked_slot r v) (omega (arith, v.within))

    -- What `PushBatch` returns: it moves `n` of the items, and the ring holds them behind its own.
    record Pushed (r : Ring A) (xs : List A) (written : ℕ) (out : Option (ℕ × Ring A))
        : Type ℓ where
      ring : Ring A
      valid : IsValid width bits ring
      returned :
          out ≡ some (written + min (length xs) (2 ^ bits - sub_index width r.head r.tail), ring)
      holds :
          contents blank width bits ring
          ≡ contents blank width bits r ++ take (2 ^ bits - sub_index width r.head r.tail) xs

    push_loop-Pushed :
        (fuel : ℕ) (trivial : Bool) (r : Ring A) (written : ℕ) (xs : List A)
        → length xs < fuel
        → IsValid width bits r
        → Pushed r xs written (push_loop width bits fuel trivial r written xs)
    unfolding push_loop
    push_loop-Pushed zero trivial r written xs enough v = absurd (omega arith)
    push_loop-Pushed (suc fuel) trivial r written [] enough v = record {
      ring = r;
      valid = v;
      returned = ap (λ n. some (n, r)) (omega arith);
      holds =
          sym (append-nil _)
          ∙ ap (λ l. contents blank width bits r ++ l)
              (sym (take-nil (2 ^ bits - sub_index width r.head r.tail)));
    }
    push_loop-Pushed (suc fuel) trivial r written (x ∷ xs) enough v =
        let size = sub_index width r.head r.tail in
        let l = x ∷ xs in
        let n = min (length l) (space width bits r) in
        let r1 = push_round width bits trivial r n l in
        let room_left = space-eq-sub r v in
        let h : n ≤ 2 ^ bits - size = omega arith in
        let ih = push_loop-Pushed fuel trivial r1 (written + n) (drop n l) in
        elim (ℕ_discrete (space width bits r) 0) [
          | yes full ↦ record {
            ring = r;
            valid = v;
            returned = rw ((==_iff _ _).1 full) (ap (λ k. some (k, r)) (omega arith));
            holds =
                sym (append-nil _)
                ∙ ap (λ k. contents blank width bits r ++ k)
                    (sym (take_none (2 ^ bits - size) l (inl (omega arith))));
          }
          | no more ↦
              let test : (space width bits r == 0) ≡ false = ground (arith, more) in
              let pushed = ih (omega (arith, length-drop n l)) (round-IsValid trivial r n l v h) in
              record {
                ring = pushed.ring;
                valid = pushed.valid;
                returned = rw test (
                    pushed.returned
                    ∙ ap (λ k. some (k, pushed.ring))
                        (omega (arith, length-drop n l, round_size trivial r n l v h)));
                holds =
                    pushed.holds
                    ∙ ap (λ k. contents blank width bits r1 ++ k)
                        (take_none (2 ^ bits - sub_index width r1.head r1.tail) (drop n l)
                          (omega (arith, length-drop n l, round_size trivial r n l v h)))
                    ∙ append-nil _
                    ∙ round_contents trivial r n l v h (omega arith)
                    ∙ ap (λ k. contents blank width bits r ++ k)
                        (ap (λ k. take (min (length l) k) l) room_left
                          ∙ take-min (2 ^ bits - size) l);
              }
        ]

    -- On a valid ring whose `IndexT` has 32 bits or more and counts at least four times the capacity,
    -- `PushBatch` returns, with either way of copying, and leaves a valid ring. It is the batch push of the bounded queue: as
    -- many of the items as there is room for stand behind the others, in order, and it returns their
    -- number.
    pub push_batch_refines :
        (trivial : Bool) (r : Ring A) (xs : List A)
        → IsValid width bits r
        → (n : ℕ) × (r' : Ring A) × (push_batch width bits trivial r xs ≡ some (n, r'))
          × IsValid width bits r'
          × ((counted n, contents blank width bits r')
              ≡ call (2 ^ bits) (contents blank width bits r) (pushes_batch xs))
    unfolding push_batch call
    push_batch_refines trivial r xs v =
        let p = push_loop-Pushed (suc (suc (length xs))) trivial r 0 xs (omega arith) v in
        let s = 2 ^ bits - sub_index width r.head r.tail in
        (
          _,
          p.ring,
          p.returned,
          p.valid,
          rw (length-contents width bits wide blank r) (
              ap₂ (λ k l. (counted k, l)) (omega arith)
                (p.holds ∙ ap (λ l. contents blank width bits r ++ l) (sym (take-min s xs)))),
        )
