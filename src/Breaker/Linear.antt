-- ===== src/Breaker/Linear.antt =====
-- `Update` of include/osp/breaker.hpp among other threads that change the word.
use newosp.Base.{
  ℕ, ◌≡◌, true, false, Option, none, some, List, [], ◌∷◌, ◌++◌, map, arith, refl, ◌==◌, ◌&&◌, not,
  ap, sym, if_intro,
}
use newosp.Breaker.{State, pack, unpack, Attempt, Access, update_loop, update_accesses}
use mathlib.Core.Option

-- The word that the last access has read.
abbrev pub last_read : ℕ → List Attempt → ℕ
last_read word [] = word
last_read word (a ∷ attempts) = last_read a.memory attempts

-- All accesses but the last leave the word as it was, and the last makes the transition of the word that it
-- finds.
abbrev pub TakesEffect : (State → State) → List Access → Type 0
TakesEffect step [] = ⊥
TakesEffect step (a ∷ []) = a.after ≡ pack (step (unpack a.before))
TakesEffect step (a ∷ b ∷ rest) = (a.after ≡ a.before) × TakesEffect step (b ∷ rest)

-- The accesses are to the words that are in memory, one after the other.
abbrev pub Finds : List ℕ → List Access → Type 0
Finds words [] = Unit
Finds [] (a ∷ rest) = ⊥
Finds (w ∷ words) (a ∷ rest) = (a.before ≡ w) × Finds words rest

abbrev pub Linearizes : (State → State) → List ℕ → Option (List Access) → Type 0
Linearizes step words none = ⊥
Linearizes step words (some accesses) = TakesEffect step accesses × Finds words accesses

==-eq : (a b : ℕ) → (a == b) ≡ true → a ≡ b
==-eq a b e = ground arith

-- An access that leaves the word as it was, before others.
Linearizes-cons :
    (step : State → State) (w : ℕ) (words : List ℕ) (o : Option (List Access))
    → Linearizes step words o
    → Linearizes step (w ∷ words) (Option.map (λ l. record { before = w; after = w } ∷ l) o)
Linearizes-cons step w words none h = absurd h
Linearizes-cons step w words (some []) h = absurd h.0
Linearizes-cons step w words (some (a ∷ rest)) h = ((refl, h.0), (refl, h.1))

-- The outcome of one turn of the loop, behind the access that has read the word.
turn-Linearizes :
    (step : State → State) (word : ℕ) (a : Attempt) (words : List ℕ) (later : List Attempt)
    → (((a.memory == word) && not a.spurious) ≡ false
        → Linearizes step (a.memory ∷ words) (
            Option.map
              (λ l. record { before = a.memory; after = a.memory } ∷ l)
              (update_loop step a.memory later)))
    → Linearizes step (word ∷ a.memory ∷ words) (
        Option.map
          (λ l. record { before = word; after = word } ∷ l)
          (update_loop step word (a ∷ later)))
unfolding update_loop
turn-Linearizes step word a words later again =
    let P : Option (List Access) → Type 0 = λ x.
      Linearizes step (word ∷ a.memory ∷ words)
        (Option.map (λ l. record { before = word; after = word } ∷ l) x) in
    let desired = pack (step (unpack word)) in
    if_intro P (desired == word) (λ e. (sym (==-eq desired word e), (refl, tt)))
      (λ e.
        if_intro P ((a.memory == word) && not a.spurious)
          (λ e'.
            let same : word ≡ a.memory = ground (arith, ==-eq a.memory word) in
            ((refl, ap (λ w. pack (step (unpack w))) same), (refl, (refl, tt))))
          (λ e'. Linearizes-cons step word (a.memory ∷ words) _ (again e')))

update_loop-Linearizes :
    (step : State → State) (word : ℕ) (before later : List Attempt)
    → let attempts =
        before ++ record { memory = last_read word before; spurious = false } ∷ later in
      Linearizes step (word ∷ map (λ a. a.memory) attempts) (
        Option.map
          (λ l. record { before = word; after = word } ∷ l)
          (update_loop step word attempts))
update_loop-Linearizes step word [] later =
    turn-Linearizes step word (record { memory = word; spurious = false }) _ later
      (λ e. absurd (ground arith))
update_loop-Linearizes step word (a ∷ before) later =
    turn-Linearizes step word a _ _ (λ e. update_loop-Linearizes step a.memory before later)

-- `Update`, whatever words other threads store between its accesses and whichever exchanges fail for no
-- reason, returns at the latest once an exchange that does not finds the word that the access before it has
-- read. Its accesses are to the words that are in memory, in their order; it takes effect at the last: that
-- one, a read if the transition changes nothing, leaves the transition of the word that is in memory then,
-- and the accesses before it leave the word that they find.
pub update-Linearizes :
    (step : State → State) (word : ℕ) (before later : List Attempt)
    → let attempts =
        before ++ record { memory = last_read word before; spurious = false } ∷ later in
      Linearizes step (word ∷ map (λ a. a.memory) attempts) (update_accesses step word attempts)
unfolding update_accesses
update-Linearizes step word before later = update_loop-Linearizes step word before later
