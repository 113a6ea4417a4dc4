-- ===== src/SpscRingbuffer/Fifo.antt =====
-- What the ring promises: a first-in first-out queue of at most `cap` elements, oldest first.
use newosp.Base.{
  ℕ, ◌-◌, min, Bool, true, false, List, [], ◌∷◌, ◌++◌, Option, none, some, ◌==◌, if◌then◌else◌,
  length, take, drop,
}

pub data Call {ℓ} (A : Type ℓ) : Type ℓ where
  pushes : A → Call A
  pushes_batch : List A → Call A
  pops peeks clears : Call A
  pops_batch discards : ℕ → Call A

-- What a call returns: a Boolean, a number, an optional element or some elements.
pub data Reply {ℓ} (A : Type ℓ) : Type ℓ where
  accepted : Bool → Reply A
  counted : ℕ → Reply A
  element : Option A → Reply A
  elements : List A → Reply A

module _ {ℓ} {A : Type ℓ} where
  abbrev pub head? : List A → Option A
  head? [] = none
  head? (x ∷ q) = some x

  unfoldable pub call : ℕ → List A → Call A → Reply A × List A
  call cap q (pushes x) =
      if length q == cap then (accepted false, q) else (accepted true, q ++ (x ∷ []))
  call cap q (pushes_batch xs) =
      let n = min (length xs) (cap - length q) in (counted n, q ++ take n xs)
  call cap q pops = (element (head? q), drop 1 q)
  call cap q peeks = (element (head? q), q)
  call cap q clears = (counted 0, [])
  call cap q (pops_batch n) = (elements (take n q), drop n q)
  call cap q (discards n) = (counted (min n (length q)), drop n q)

  unfoldable pub run : ℕ → List A → List (Call A) → List (Reply A)
  run cap q [] = []
  run cap q (c ∷ cs) = let (r, q') = call cap q c in r ∷ run cap q' cs
