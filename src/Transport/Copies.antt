-- ===== src/Transport/Copies.antt =====
-- What a copy into a buffer leaves, and what a copy out of one made of parts gives.
use mathlib.Core.List.{append_assoc}
use native.Mathlib.Nat.{pow-suc}
use newosp.Base.{
  ℕ, zero, suc, ◌+◌, ◌/◌, ◌^◌, ◌≤◌, ◌<◌, ◌≡◌, refl, List, [], ◌∷◌, ◌++◌, length, set, drop, arith,
  length-append, length-drop, drop-drop, ap, ◌∙◌, sym,
}
use newosp.Transport.{bytes_of, number_of, copy_in}

pub number_of-bytes_of : (w v : ℕ) → v < 256 ^ w → number_of (bytes_of w v) ≡ v
number_of-bytes_of zero v h = omega arith
number_of-bytes_of (suc w) v h =
    omega (arith, number_of-bytes_of w (v / 256) (omega (arith, pow-suc 256 w)))

pub length-bytes_of : (w v : ℕ) → length (bytes_of w v) ≡ w
length-bytes_of zero v = refl
length-bytes_of (suc w) v = ap suc (length-bytes_of w (v / 256))

copy_in-cons : (x : ℕ) (xs bs : List ℕ) (i : ℕ) → copy_in (x ∷ xs) (suc i) bs ≡ x ∷ copy_in xs i bs
unfolding copy_in
copy_in-cons x xs [] i = refl
copy_in-cons x xs (b ∷ bs) i = copy_in-cons x (set xs i b) bs (suc i)

-- A copy behind `xs` leaves these, and what is behind the copy.
pub copy_in-append :
    (xs ys bs : List ℕ) (i : ℕ)
    → i ≡ length xs
    → length bs ≤ length ys
    → copy_in (xs ++ ys) i bs ≡ xs ++ (bs ++ drop (length bs) ys)
unfolding copy_in
copy_in-append [] ys [] zero e h = refl
copy_in-append [] [] (b ∷ bs) zero e h = absurd (omega arith)
copy_in-append [] (y ∷ ys) (b ∷ bs) zero e h =
    copy_in-cons b ys bs 0 ∙ ap (λ l. b ∷ l) (copy_in-append [] ys bs 0 refl (omega arith))
copy_in-append [] ys bs (suc i) e h = absurd (omega arith)
copy_in-append (x ∷ xs) ys bs zero e h = absurd (omega arith)
copy_in-append (x ∷ xs) ys bs (suc i) e h =
    copy_in-cons x (xs ++ ys) bs i ∙ ap (λ l. x ∷ l) (copy_in-append xs ys bs i (omega arith) h)

-- Parts copied one behind the other.
abbrev pub copy_parts : List ℕ → ℕ → List (List ℕ) → List ℕ
copy_parts buf i [] = buf
copy_parts buf i (p ∷ ps) = copy_parts (copy_in buf i p) (i + length p) ps

abbrev pub joined : List (List ℕ) → List ℕ
joined [] = []
joined (p ∷ ps) = p ++ joined ps

pub copy_parts-append :
    (ps : List (List ℕ)) (xs ys : List ℕ) (i : ℕ)
    → i ≡ length xs
    → length (joined ps) ≤ length ys
    → copy_parts (xs ++ ys) i ps ≡ xs ++ (joined ps ++ drop (length (joined ps)) ys)
copy_parts-append [] xs ys i e h = refl
copy_parts-append (p ∷ ps) xs ys i e h =
    let n = length-append p (joined ps) in
    let rest = drop (length p) ys in
    ap (λ l. copy_parts l (i + length p) ps)
      (copy_in-append xs ys p i e (omega (arith, n)) ∙ sym (append_assoc xs p rest))
    ∙ copy_parts-append ps (xs ++ p) rest (i + length p) (omega (arith, length-append xs p))
        (omega (arith, n, length-drop (length p) ys))
    ∙ append_assoc xs p (joined ps ++ drop (length (joined ps)) rest)
    ∙ ap (λ l. xs ++ l)
        (ap (λ l. p ++ (joined ps ++ l))
            (drop-drop (length (joined ps)) (length p) ys ∙ ap (λ k. drop k ys) (sym n))
          ∙ sym (append_assoc p (joined ps) (drop (length (joined (p ∷ ps))) ys)))
