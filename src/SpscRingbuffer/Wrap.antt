-- ===== src/SpscRingbuffer/Wrap.antt =====
-- The index arithmetic of the ring: indices wrap at `2 ^ width`, slots at `2 ^ bits`, and the first
-- is a multiple of the second.
use native.Mathlib.Nat.{
  dvd-mul_right, mod-mod_of_dvd, le-mul_of_pos_right, mod-eq_of_lt, mod-eq-sub-mod, pow-suc, mod-lt,
  add-zero,
}
use newosp.Base.{
  ℕ, zero, suc, ◌+◌, ◌-◌, ◌*◌, ◌%◌, ◌^◌, ◌≤◌, ◌<◌, ◌≡◌, ◌⊎◌, inl, inr, arith, dec_lt, ap,
  bit_and-mask, pow-pos, ◌∙◌,
}
use newosp.SpscRingbuffer.{sub_index, masked}

pub pow-add : (a b : ℕ) → 2 ^ (a + b) ≡ 2 ^ a * 2 ^ b
pow-add a zero = ap (λ n. 2 ^ n) (add-zero a) ∙ omega arith
pow-add a (suc b) =
    let e : a + suc b ≡ suc (a + b) = omega arith in
    ap (λ n. 2 ^ n) e
    ∙ omega (
      arith,
      pow-suc 2 (a + b),
      pow-suc 2 b,
      pow-add a b,
      ap (λ (t : ℕ). 2 ^ a * t) (pow-suc 2 b),
    )

-- `x % m` where `x` passes `m` at most once.
pub mod_below : (x m : ℕ) → x < m → x % m ≡ x
mod_below x m h = mod-eq_of_lt h

pub mod_once : (x m : ℕ) → m ≤ x → x < m + m → x % m ≡ x - m
mod_once x m h lt = mod-eq-sub-mod h ∙ mod-eq_of_lt (omega arith)

module _ (width bits : ℕ) (wide : bits + 2 ≤ width) where
  split-pow : 2 ^ width ≡ 2 ^ bits * 2 ^ (width - bits)
  split-pow =
      let e : width ≡ bits + (width - bits) = omega arith in
      ap (λ n. 2 ^ n) e ∙ pow-add bits (width - bits)

  -- The index type holds four times the capacity.
  pub room : 4 * 2 ^ bits ≤ 2 ^ width
  room =
      let e : width ≡ bits + 2 + (width - (bits + 2)) = omega arith in
      let exact : 2 ^ width ≡ 2 ^ (bits + 2) * 2 ^ (width - (bits + 2)) =
        ap (λ n. 2 ^ n) e ∙ pow-add (bits + 2) (width - (bits + 2)) in
      omega (
        arith,
        exact,
        pow-add bits 2,
        le-mul_of_pos_right (2 ^ (bits + 2)) (pow-pos (width - (bits + 2))),
      )

  -- A slot does not depend on whether the index has wrapped.
  pub slot_of_wrapped : (x : ℕ) → x % 2 ^ width % 2 ^ bits ≡ x % 2 ^ bits
  slot_of_wrapped x = mod-mod_of_dvd (2 ^ bits) x (rw split-pow (dvd-mul_right _ _))

-- The difference of two indices, by which of them is ahead.
pub sub_index-cases :
    (width a b : ℕ)
    → a < 2 ^ width
    → b < 2 ^ width
    → ((b ≤ a) × (sub_index width a b ≡ a - b))
      ⊎ ((a < b) × (sub_index width a b ≡ a + 2 ^ width - b))
sub_index-cases width a b ha hb = elim (dec_lt a b) [
  | yes h ↦ inr (h, mod_below (a + 2 ^ width - b) (2 ^ width) (omega arith))
  | no h ↦ inl (
    omega arith,
    mod_once (a + 2 ^ width - b) (2 ^ width) (omega arith) (omega arith) ∙ omega arith,
  )
]

-- An index moved on by at most the modulus.
pub wrap-cases :
    (width a n : ℕ)
    → a < 2 ^ width
    → n ≤ 2 ^ width
    → (a + n < 2 ^ width) × ((a + n) % 2 ^ width ≡ a + n)
      ⊎ (2 ^ width ≤ a + n) × ((a + n) % 2 ^ width ≡ a + n - 2 ^ width)
wrap-cases width a n ha hn = elim (dec_lt (a + n) (2 ^ width)) [
  | yes h ↦ inl (h, mod_below (a + n) (2 ^ width) h)
  | no h ↦ inr (omega arith, mod_once (a + n) (2 ^ width) (omega arith) (omega arith))
]

pub masked-mod : (bits x : ℕ) → masked bits x ≡ x % 2 ^ bits
masked-mod bits x = bit_and-mask bits x

pub sub_index-lt : (width a b : ℕ) → sub_index width a b < 2 ^ width
sub_index-lt width a b = mod-lt (a + 2 ^ width - b) (pow-pos width)

module _ (width : ℕ) (head tail : ℕ) (h_in : head < 2 ^ width) (t_in : tail < 2 ^ width) where
  -- Moving the head on by `n` makes the difference larger by `n`.
  pub sub_index-head :
      (n : ℕ)
      → sub_index width head tail + n < 2 ^ width
      → sub_index width ((head + n) % 2 ^ width) tail ≡ sub_index width head tail + n
  sub_index-head n h = omega (
    arith,
    sub_index-cases width head tail h_in t_in,
    wrap-cases width head n h_in (omega arith),
    sub_index-cases width ((head + n) % 2 ^ width) tail (mod-lt (head + n) (pow-pos width)) t_in,
  )

  -- Moving the tail on by `n` makes it smaller by `n`.
  pub sub_index-tail :
      (n : ℕ)
      → n ≤ sub_index width head tail
      → sub_index width head ((tail + n) % 2 ^ width) ≡ sub_index width head tail - n
  sub_index-tail n h = omega (
    arith,
    sub_index-cases width head tail h_in t_in,
    sub_index-lt width head tail,
    wrap-cases width tail n t_in (omega (arith, sub_index-lt width head tail)),
    sub_index-cases width head ((tail + n) % 2 ^ width) h_in (mod-lt (tail + n) (pow-pos width)),
  )

  -- The head is the tail moved on by the difference.
  pub tail-add-sub_index : (tail + sub_index width head tail) % 2 ^ width ≡ head
  tail-add-sub_index = omega (
    arith,
    sub_index-cases width head tail h_in t_in,
    sub_index-lt width head tail,
    wrap-cases width tail (sub_index width head tail) t_in
        (omega (arith, sub_index-lt width head tail)),
  )
