-- ===== src/Base/Append.antt =====
-- Reading and cutting a list made of two.
use Prim.Native.Nat.{ℕ, zero, suc, ◌+◌, ◌<◌, ◌≤◌}
use mathlib.Core.Path.{◌≡◌, refl, ap}
use mathlib.Core.List.{List, [], ◌∷◌, ◌++◌}
use mathlib.Core.Logic.{◌⊎◌, inl, inr}
use mathlib.Core.Option.{some}
use native.Mathlib.Omega.{arith}
use newosp.Base.Lists.{get_elem?, length, take, drop, get_or}

module _ {ℓ} {A : Type ℓ} where
  pub take-append : (xs ys : List A) (n : ℕ) → n ≡ length xs → take n (xs ++ ys) ≡ xs
  take-append [] ys zero e = refl
  take-append [] ys (suc n) e = absurd (omega arith)
  take-append (x ∷ xs) ys zero e = absurd (omega arith)
  take-append (x ∷ xs) ys (suc n) e = ap (λ l. x ∷ l) (take-append xs ys n (omega arith))

  pub drop-append : (xs ys : List A) (n : ℕ) → n ≡ length xs → drop n (xs ++ ys) ≡ ys
  drop-append [] ys zero e = refl
  drop-append [] ys (suc n) e = absurd (omega arith)
  drop-append (x ∷ xs) ys zero e = absurd (omega arith)
  drop-append (x ∷ xs) ys (suc n) e = drop-append xs ys n (omega arith)

  pub get_or-append :
      (xs ys : List A) (i : ℕ) (d : A) → i < length xs → get_or (xs ++ ys) i d ≡ get_or xs i d
  get_or-append [] ys i d lt = absurd (omega arith)
  get_or-append (x ∷ xs) ys zero d lt = refl
  get_or-append (x ∷ xs) ys (suc i) d lt = get_or-append xs ys i d (omega arith)

  pub get_or-append_right :
      (xs ys : List A) (i j : ℕ) (d : A) → i ≡ length xs + j → get_or (xs ++ ys) i d ≡ get_or ys j d
  get_or-append_right [] ys i j d e = ap (λ n. get_or ys n d) {x = i} {y = j} (omega arith)
  get_or-append_right (x ∷ xs) ys zero j d e = absurd (omega arith)
  get_or-append_right (x ∷ xs) ys (suc i) j d e = get_or-append_right xs ys i j d (omega arith)

  -- The item at an index of a list with one more at the end.
  pub get_elem?-snoc :
      (xs : List A) (y x : A) (i : ℕ)
      → get_elem? (xs ++ (y ∷ [])) i ≡ some x
      → (get_elem? xs i ≡ some x) ⊎ ((i ≡ length xs) × (y ≡ x))
  get_elem?-snoc [] y x zero h = inr (refl, cc)
  get_elem?-snoc [] y x (suc i) h = absurd cc
  get_elem?-snoc (z ∷ xs) y x zero h = inl h
  get_elem?-snoc (z ∷ xs) y x (suc i) h = further (get_elem?-snoc xs y x i h)
    where
      further :
          (get_elem? xs i ≡ some x) ⊎ ((i ≡ length xs) × (y ≡ x))
          → (get_elem? xs i ≡ some x) ⊎ ((suc i ≡ suc (length xs)) × (y ≡ x))
      further (inl old) = inl old
      further (inr (last, new)) = inr (ap suc last, new)

  pub drop_elem :
      (xs : List A) (i : ℕ) (x : A) → get_elem? xs i ≡ some x → drop i xs ≡ x ∷ drop (suc i) xs
  drop_elem [] i x h = absurd cc
  drop_elem (y ∷ xs) zero x h = ap (λ z. z ∷ xs) cc
  drop_elem (y ∷ xs) (suc i) x h = drop_elem xs i x h

  pub drop_past : (xs : List A) (i : ℕ) → length xs ≤ i → drop i xs ≡ []
  drop_past [] zero h = refl
  drop_past [] (suc i) h = refl
  drop_past (x ∷ xs) zero h = absurd (omega arith)
  drop_past (x ∷ xs) (suc i) h = drop_past xs i (omega arith)

  pub get_elem?-total : (xs : List A) (i : ℕ) → i < length xs → (x : A) × (get_elem? xs i ≡ some x)
  get_elem?-total [] i h = absurd (omega arith)
  get_elem?-total (x ∷ xs) zero h = (x, refl)
  get_elem?-total (x ∷ xs) (suc i) h = get_elem?-total xs i (omega arith)
