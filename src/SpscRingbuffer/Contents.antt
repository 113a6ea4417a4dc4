-- ===== src/SpscRingbuffer/Contents.antt =====
-- The elements that a ring holds, oldest first, and what a write to a slot does to them.
use native.Mathlib.Nat.{mod-add-mod, mod-lt}
use newosp.Base.{
  take, some, drop, ℕ, zero, suc, ◌+◌, ◌-◌, ◌%◌, ◌^◌, ◌≤◌, ◌<◌, ◌≡◌, ◌≢◌, refl, ap, ap₂, sym, ◌∙◌,
  arith, List, [], ◌∷◌, ◌++◌, length, get_or, set, get_or-set_self, get_or-set_ne, dec_lt, pow-pos,
}
use newosp.SpscRingbuffer.{Ring, sub_index}
use newosp.SpscRingbuffer.Fifo.{head?}
use newosp.SpscRingbuffer.Wrap.{mod_below, mod_once}

-- Fewer than `m` steps do not come back to the same remainder.
pub mod-ne : (m a e : ℕ) → 0 < e → e < m → (a + e) % m ≢ a % m
mod-ne m a e pos lt = elim (dec_lt (a % m + e) m) [
  | yes h ↦ omega (arith, mod-add-mod a m e, mod_below (a % m + e) m h)
  | no h ↦ omega (
    arith,
    mod-add-mod a m e,
    mod-lt a {m = m} (omega arith),
    mod_once (a % m + e) m (omega arith) (omega (arith, mod-lt a {m = m} (omega arith))),
  )
]

pub mod-step : (m a b : ℕ) → a % m ≡ b % m → (a + 1) % m ≡ (b + 1) % m
mod-step m a b e = sym (mod-add-mod a m 1) ∙ ap (λ t. (t + 1) % m) e ∙ mod-add-mod b m 1

module _ {ℓ} {A : Type ℓ} (blank : A) (bits : ℕ) where
  -- The `n` elements from index `t` on.
  abbrev pub slots : List A → ℕ → ℕ → List A
  slots buff t zero = []
  slots buff t (suc n) = get_or buff (t % 2 ^ bits) blank ∷ slots buff (t + 1) n

  pub length-slots : (buff : List A) (t n : ℕ) → length (slots buff t n) ≡ n
  length-slots buff t zero = refl
  length-slots buff t (suc n) = ap suc (length-slots buff (t + 1) n)

  pub slots_same_mod :
      (buff : List A) (t t' n : ℕ) → t % 2 ^ bits ≡ t' % 2 ^ bits → slots buff t n ≡ slots buff t' n
  slots_same_mod buff t t' zero e = refl
  slots_same_mod buff t t' (suc n) e =
      ap₂ ◌∷◌ (ap (λ i. get_or buff i blank) e)
        (slots_same_mod buff (t + 1) (t' + 1) n (mod-step (2 ^ bits) t t' e))

  slots-set_other :
      (buff : List A) (i : ℕ) (x : A) (t n k : ℕ)
      → n ≤ k
      → k < 2 ^ bits
      → i ≡ (t + k) % 2 ^ bits
      → slots (set buff i x) t n ≡ slots buff t n
  slots-set_other buff i x t zero k h lt e = refl
  slots-set_other buff i x t (suc n) k h lt e =
      ap₂ ◌∷◌
        (get_or-set_ne buff i (t % 2 ^ bits) x blank
          (λ q. mod-ne (2 ^ bits) t k (omega arith) lt (sym e ∙ q)))
        (slots-set_other buff i x (t + 1) n (k - 1) (omega arith) (omega arith)
          (e ∙ ap (λ a. a % 2 ^ bits) (omega arith)))

  pub slots-snoc :
      (buff : List A) (t n : ℕ)
      → slots buff t (suc n) ≡ slots buff t n ++ (get_or buff ((t + n) % 2 ^ bits) blank ∷ [])
  slots-snoc buff t zero = ap (λ a. get_or buff (a % 2 ^ bits) blank ∷ []) (omega arith)
  slots-snoc buff t (suc n) =
      ap (λ l. get_or buff (t % 2 ^ bits) blank ∷ l)
        (slots-snoc buff (t + 1) n
          ∙ ap (λ a. slots buff (t + 1) n ++ (get_or buff (a % 2 ^ bits) blank ∷ [])) (omega arith))

  -- A write just behind the elements adds its value to them.
  pub slots-set :
      (buff : List A) (i : ℕ) (x : A) (t n : ℕ)
      → length buff ≡ 2 ^ bits
      → n < 2 ^ bits
      → i ≡ (t + n) % 2 ^ bits
      → slots (set buff i x) t (suc n) ≡ slots buff t n ++ (x ∷ [])
  slots-set buff i x t n full lt e =
      slots-snoc (set buff i x) t n
      ∙ ap₂ (λ l y. l ++ (y ∷ [])) (slots-set_other buff i x t n n (omega arith) lt e)
          (ap (λ j. get_or (set buff i x) j blank) (sym e)
            ∙ get_or-set_self buff i x blank (omega (arith, e, mod-lt (t + n) (pow-pos bits))))

  pub drop-slots :
      (buff : List A) (t k n : ℕ) → k ≤ n → drop k (slots buff t n) ≡ slots buff (t + k) (n - k)
  drop-slots buff t zero n h = ap₂ (slots buff) (omega arith) (omega arith)
  drop-slots buff t (suc k) zero h = absurd (omega arith)
  drop-slots buff t (suc k) (suc n) h =
      drop-slots buff (t + 1) k n (omega arith) ∙ ap₂ (slots buff) (omega arith) (omega arith)

  pub take-slots : (buff : List A) (t k n : ℕ) → k ≤ n → take k (slots buff t n) ≡ slots buff t k
  take-slots buff t zero n h = refl
  take-slots buff t (suc k) zero h = absurd (omega arith)
  take-slots buff t (suc k) (suc n) h =
      ap (λ l. get_or buff (t % 2 ^ bits) blank ∷ l) (take-slots buff (t + 1) k n (omega arith))

  pub head?-slots :
      (buff : List A) (t n : ℕ)
      → 0 < n
      → head? (slots buff t n) ≡ some (get_or buff (t % 2 ^ bits) blank)
  head?-slots buff t zero h = absurd (omega arith)
  head?-slots buff t (suc n) h = refl

-- The elements of a ring.
abbrev pub contents {ℓ} : {A : Type ℓ} → A → ℕ → ℕ → Ring A → List A
contents blank width bits r = slots blank bits r.data_buff r.tail (sub_index width r.head r.tail)
