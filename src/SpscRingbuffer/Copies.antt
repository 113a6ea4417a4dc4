-- ===== src/SpscRingbuffer/Copies.antt =====
-- The batch copies: the two `memcpy` parts do what the element-wise loops do, and both write and read
-- the elements of the ring.
use mathlib.Core.List.{append_assoc, append-nil}
use native.Mathlib.Nat.{mod_self}
use newosp.Base.{
  lt→ltb, take_all, dec_lt, ℕ, zero, suc, ◌+◌, ◌-◌, ◌%◌, ◌^◌, ◌≤◌, ◌<◌, min, ◌≡◌, refl, ap, ap₂,
  sym, ◌∙◌, arith, List, [], ◌∷◌, ◌++◌, length, get_or, set, take, drop, length-set, length-take,
  length-drop, take-append-drop,
}
use newosp.SpscRingbuffer.{
  masked, copy_to, copy_from, write_each, write_parts, read_each, read_parts,
}
use newosp.SpscRingbuffer.Wrap.{masked-mod, mod_below}
use newosp.SpscRingbuffer.Contents.{slots, slots-set, slots_same_mod, mod-step}

module _ {ℓ} {A : Type ℓ} (bits : ℕ) where
  write_each-append :
      (off i : ℕ) (buff xs ys : List A)
      → write_each bits off buff i (xs ++ ys)
        ≡ write_each bits off (write_each bits off buff i xs) (i + length xs) ys
  unfolding write_each
  write_each-append off i buff [] ys = ap (λ j. write_each bits off buff j ys) (omega arith)
  write_each-append off i buff (x ∷ xs) ys =
      write_each-append off (i + 1) (set buff (masked bits (off + i)) x) xs ys
      ∙ ap
          (λ j.
            write_each bits off
              (write_each bits off (set buff (masked bits (off + i)) x) (i + 1) xs) j ys)
          (omega arith)

  pub length-write_each :
      (off i : ℕ) (buff xs : List A) → length (write_each bits off buff i xs) ≡ length buff
  unfolding write_each
  length-write_each off i buff [] = refl
  length-write_each off i buff (x ∷ xs) =
      length-write_each off (i + 1) (set buff (masked bits (off + i)) x) xs
      ∙ length-set buff (masked bits (off + i)) x

  -- Where the slots do not wrap, the loop is one copy.
  write_each-eq-copy_to :
      (off i p : ℕ) (buff xs : List A)
      → p % 2 ^ bits ≡ (off + i) % 2 ^ bits
      → p + length xs ≤ 2 ^ bits
      → write_each bits off buff i xs ≡ copy_to buff p xs
  unfolding write_each copy_to
  write_each-eq-copy_to off i p buff [] e fits = refl
  write_each-eq-copy_to off i p buff (x ∷ xs) e fits =
      let here : masked bits (off + i) ≡ p =
        masked-mod bits (off + i) ∙ sym e ∙ mod_below p (2 ^ bits) (omega arith) in
      ap (λ j. write_each bits off (set buff j x) (i + 1) xs) here
      ∙ write_each-eq-copy_to off (i + 1) (p + 1) (set buff p x) xs
          (mod-step (2 ^ bits) p (off + i) e ∙ ap (λ t. t % 2 ^ bits) (omega arith)) (omega arith)

  write_split :
      (off n : ℕ) (buff xs : List A)
      → off < 2 ^ bits
      → off + n ≡ 2 ^ bits
      → n ≤ length xs
      → length xs ≤ 2 ^ bits
      → copy_to (copy_to buff off (take n xs)) 0 (drop n xs) ≡ write_each bits off buff 0 xs
  write_split off n buff xs lt end enough fits =
      let taken : length (take n xs) ≡ n = omega (arith, length-take n xs) in
      sym (
        ap (write_each bits off buff 0) (sym (take-append-drop n xs))
        ∙ write_each-append off 0 buff (take n xs) (drop n xs)
        ∙ ap (λ b. write_each bits off b (0 + length (take n xs)) (drop n xs))
            (write_each-eq-copy_to off 0 off buff (take n xs) (ap (λ t. t % 2 ^ bits) (omega arith))
              (omega arith))
        ∙ write_each-eq-copy_to off (0 + length (take n xs)) 0 (copy_to buff off (take n xs))
            (drop n xs)
            (mod_below 0 (2 ^ bits) (omega arith)
              ∙ sym (mod_self (2 ^ bits))
              ∙ ap (λ t. t % 2 ^ bits) (omega arith))
            (omega (arith, length-drop n xs)))

  write_whole :
      (off n : ℕ) (buff xs : List A)
      → length xs ≤ n
      → off + n ≤ 2 ^ bits
      → copy_to buff off (take n xs) ≡ write_each bits off buff 0 xs
  write_whole off n buff xs enough fits =
      ap (copy_to buff off) (take_all n xs enough)
      ∙ sym (
          write_each-eq-copy_to off 0 off buff xs (ap (λ t. t % 2 ^ bits) (omega arith))
            (omega arith))

  -- From an offset within the array, the two copies of `PushBatch` write what its element-wise loop
  -- writes, for at most as many items as the array has slots.
  pub write_parts-eq-write_each :
      (off : ℕ) (buff xs : List A)
      → off < 2 ^ bits
      → length xs ≤ 2 ^ bits
      → write_parts bits off buff xs ≡ write_each bits off buff 0 xs
  unfolding write_parts
  write_parts-eq-write_each off buff xs lt fits = elim (dec_lt (2 ^ bits - off) (length xs)) [
    | yes more ↦
        let n : min (length xs) (2 ^ bits - off) ≡ 2 ^ bits - off = omega arith in
        rw (n, lt→ltb _ _ more)
          (write_split off (2 ^ bits - off) buff xs lt (omega arith) (omega arith) fits)
    | no all ↦
        let n : min (length xs) (2 ^ bits - off) ≡ length xs = omega arith in
        rw n (ground (arith, write_whole off (length xs) buff xs (omega arith) (omega arith)))
  ]

  -- Writing just behind the elements appends what is written.
  pub slots-write_each :
      (blank : A) (off i t n : ℕ) (buff xs : List A)
      → length buff ≡ 2 ^ bits
      → (off + i) % 2 ^ bits ≡ (t + n) % 2 ^ bits
      → n + length xs ≤ 2 ^ bits
      → slots blank bits (write_each bits off buff i xs) t (n + length xs)
        ≡ slots blank bits buff t n ++ xs
  unfolding write_each
  slots-write_each blank off i t n buff [] full e fits =
      ap (slots blank bits buff t) (omega arith) ∙ sym (append-nil _)
  slots-write_each blank off i t n buff (x ∷ xs) full e fits =
      let here : masked bits (off + i) ≡ (t + n) % 2 ^ bits = masked-mod bits (off + i) ∙ e in
      let buff' = set buff (masked bits (off + i)) x in
      ap (slots blank bits (write_each bits off buff' (i + 1) xs) t) (omega arith)
      ∙ slots-write_each blank off (i + 1) t (suc n) buff' xs
          (length-set buff (masked bits (off + i)) x ∙ full)
          (ap (λ k. k % 2 ^ bits) (omega arith)
            ∙ mod-step (2 ^ bits) (off + i) (t + n) e
            ∙ ap (λ k. k % 2 ^ bits) (omega arith))
          (omega arith)
      ∙ ap (λ l. l ++ xs)
          (slots-set blank bits buff (masked bits (off + i)) x t n full (omega arith) here)
      ∙ append_assoc (slots blank bits buff t n) (x ∷ []) xs

  slots-append :
      (blank : A) (buff : List A) (t a b : ℕ)
      → slots blank bits buff t (a + b)
        ≡ slots blank bits buff t a ++ slots blank bits buff (t + a) b
  slots-append blank buff t zero b = ap₂ (slots blank bits buff) (omega arith) (omega arith)
  slots-append blank buff t (suc a) b =
      let total : suc a + b ≡ suc (a + b) = omega arith in
      let next : t + 1 + a ≡ t + suc a = omega arith in
      ap (slots blank bits buff t) total
      ∙ ap (λ l. get_or buff (t % 2 ^ bits) blank ∷ l)
          (slots-append blank buff (t + 1) a b
            ∙ ap (λ k. slots blank bits buff (t + 1) a ++ slots blank bits buff k b) next)

  -- The element-wise loop of `PopBatch` reads the elements.
  pub read_each-eq-slots :
      (blank : A) (off i n : ℕ) (buff : List A)
      → read_each blank bits off buff i n ≡ slots blank bits buff (off + i) n
  unfolding read_each
  read_each-eq-slots blank off i zero buff = refl
  read_each-eq-slots blank off i (suc n) buff =
      ap₂ ◌∷◌ (ap (λ k. get_or buff k blank) (masked-mod bits (off + i))) (
        read_each-eq-slots blank off (i + 1) n buff
        ∙ ap (λ k. slots blank bits buff k n) (omega arith))

  copy_from-eq-slots :
      (blank : A) (p n : ℕ) (buff : List A)
      → p + n ≤ 2 ^ bits
      → copy_from blank buff p n ≡ slots blank bits buff p n
  unfolding copy_from
  copy_from-eq-slots blank p zero buff h = refl
  copy_from-eq-slots blank p (suc n) buff h =
      ap₂ ◌∷◌ (ap (λ k. get_or buff k blank) (sym (mod_below p (2 ^ bits) (omega arith))))
        (copy_from-eq-slots blank (p + 1) n buff (omega arith))

  -- The two copies of `PopBatch` read them too.
  pub read_parts-eq-slots :
      (blank : A) (off n : ℕ) (buff : List A)
      → off < 2 ^ bits
      → n ≤ 2 ^ bits
      → read_parts blank bits off buff n ≡ slots blank bits buff off n
  unfolding read_parts
  read_parts-eq-slots blank off n buff lt fits = elim (dec_lt (2 ^ bits - off) n) [
    | yes more ↦
        let first : min n (2 ^ bits - off) ≡ 2 ^ bits - off = omega arith in
        rw (first, lt→ltb _ _ more)
          (ap₂ ◌++◌ (copy_from-eq-slots blank off (2 ^ bits - off) buff (omega arith)) (
              copy_from-eq-slots blank 0 (n - (2 ^ bits - off)) buff (omega arith)
              ∙ slots_same_mod blank bits buff 0 (off + (2 ^ bits - off)) (n - (2 ^ bits - off)) (
                  mod_below 0 (2 ^ bits) (omega arith)
                  ∙ sym (mod_self (2 ^ bits))
                  ∙ ap (λ k. k % 2 ^ bits) (omega arith)))
            ∙ sym (slots-append blank buff off (2 ^ bits - off) (n - (2 ^ bits - off)))
            ∙ ap (slots blank bits buff off) (omega arith))
    | no all ↦
        let first : min n (2 ^ bits - off) ≡ n = omega arith in
        rw first (ground (arith, copy_from-eq-slots blank off n buff (omega arith)))
  ]
