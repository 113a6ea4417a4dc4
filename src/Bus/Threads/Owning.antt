-- ===== src/Bus/Threads/Owning.antt =====
-- Each effect of a move keeps the owners of the slots apart, and the invariant.
use newosp.Base.{
  ℕ, ◌+◌, ◌^◌, ◌≤◌, ◌<◌, ◌≡◌, ◌≢◌, ◌⊎◌, inl, inr, some, arith, refl, pow-pos, ℕ_discrete, subst,
  if_intro, ◌==◌,
}
use newosp.Bus.{update}
use newosp.Bus.Threads.{Shared, Kind, Pc}
use newosp.Bus.Threads.Slots.{slot_of_injective}
use newosp.Bus.Threads.Owners.{owned, mark, node_at, Knows, Knows-mono, Inv}
use newosp.Bus.Threads.Effects.{
  Effect, quiet, claims, reserves, writes, ends, Effect-free, Effect-Live,
}

module _ {bits c : ℕ} {A : Type 0} {m : Shared A} {pcs : ℕ → Pc A} (inv : Inv bits m pcs c)
    (i : ℕ) where
  open inv use {free, live, owns, unique, knows, produced, behind, filled, room}

  Effect-owns :
      {m' : Shared A} {pc' : Pc A}
      → Effect bits c m (pcs i) m' pc'
      → (j p : ℕ) (k : Kind) → owned (update pcs i pc' j) ≡ some (k, p)
      → (c ≤ p) × (p < m'.claims) × ((node_at bits m' p).sequence ≡ mark bits k p)
  Effect-owns {pc'} (quiet x y o kn) j p k e = ground (arith, owns j p k)
  Effect-owns (claims r l') j p k e = ground (arith, owns j p k, free m.claims)
  Effect-owns (reserves r prod cons n q e' s b) j p k e =
      ground
        (arith, pow-pos bits, owns j p k, slot_of_injective bits q p, slot_of_injective bits p q)
  Effect-owns (writes kq q n o o' s kn) j p k e =
      let mine = owns i q kq o in
      ground (
        arith,
        owns j p k,
        unique i j p kq k,
        slot_of_injective bits q p,
        slot_of_injective bits p q,
      )
  Effect-owns (ends kq q st o o' s f kn) j p k e =
      let mine = owns i q kq o in
      ground (
        arith,
        owns j p k,
        unique i j p kq k,
        slot_of_injective bits q p,
        slot_of_injective bits p q,
      )

  -- Who owns a slot after the move owned it before, or is the mover with a slot that nobody owned.
  owned_before :
      {m' : Shared A} {pc' : Pc A}
      → Effect bits c m (pcs i) m' pc'
      → (j p : ℕ) (k : Kind) → owned (update pcs i pc' j) ≡ some (k, p)
      → (owned (pcs j) ≡ some (k, p))
        ⊎ ((i ≡ j) × ((l : ℕ) (k' : Kind) → owned (pcs l) ≢ some (k', p)))
  owned_before {pc'} (quiet x y o kn) j p k e = inl (ground arith)
  owned_before (claims r l') j p k e = elim (ℕ_discrete i j) [
    | yes mover ↦ inr (mover, λ l k' f. ground (arith, owns l p k'))
    | no other ↦ inl (ground arith)
  ]
  owned_before (reserves r prod cons n q e' s b) j p k e = elim (ℕ_discrete i j) [
    | yes mover ↦ inr (mover, λ l k' f. ground (arith, pow-pos bits, owns l p k'))
    | no other ↦ inl (ground arith)
  ]
  owned_before (writes kq q n o o' s kn) j p k e = inl (ground arith)
  owned_before (ends kq q st o o' s f kn) j p k e = inl (ground arith)

  Effect-unique :
      {m' : Shared A} {pc' : Pc A}
      → Effect bits c m (pcs i) m' pc'
      → (j l p : ℕ) (k k' : Kind) → owned (update pcs i pc' j) ≡ some (k, p)
      → owned (update pcs i pc' l) ≡ some (k', p)
      → j ≡ l
  Effect-unique f j l p k k' e e' = both (owned_before f j p k e) (owned_before f l p k' e')
    where
      both :
          (owned (pcs j) ≡ some (k, p))
            ⊎ ((i ≡ j) × ((l : ℕ) (k' : Kind) → owned (pcs l) ≢ some (k', p)))
          → (owned (pcs l) ≡ some (k', p))
            ⊎ ((i ≡ l) × ((l : ℕ) (k' : Kind) → owned (pcs l) ≢ some (k', p)))
          → j ≡ l
      both (inl a) (inl b) = unique j l p k k' a b
      both (inl a) (inr b) = absurd (b.1 j k a)
      both (inr a) (inl b) = absurd (a.1 l k' b)
      both (inr a) (inr b) = omega (arith, a.0, b.0)

  -- The slots of another thread are left alone.
  Effect-apart :
      {m' : Shared A} {pc' : Pc A}
      → Effect bits c m (pcs i) m' pc'
      → (j : ℕ) → i ≢ j
      → (k : Kind) (p : ℕ) → owned (pcs j) ≡ some (k, p)
      → ((node_at bits m' p).envelope ≡ (node_at bits m p).envelope) × (m'.stored p ≡ m.stored p)
  Effect-apart (quiet x y o kn) j ne k p e = (refl, refl)
  Effect-apart (claims r l') j ne k p e = (refl, refl)
  Effect-apart (reserves r prod cons n q e' s b) j ne k p e = ground arith
  Effect-apart (writes kq q n o o' s kn) j ne k p e =
      let mine = owns i q kq o in
      ground (
        arith,
        owns j p k,
        unique i j p kq k,
        slot_of_injective bits q p,
        slot_of_injective bits p q,
      )
  Effect-apart (ends kq q st o o' s f kn) j ne k p e =
      let mine = owns i q kq o in
      ground (
        arith,
        f p,
        owns j p k,
        unique i j p kq k,
        slot_of_injective bits q p,
        slot_of_injective bits p q,
      )

  pub Effect-claims :
      {m' : Shared A} {pc' : Pc A} → Effect bits c m (pcs i) m' pc' → m.claims ≤ m'.claims
  Effect-claims (quiet x y o kn) = omega arith
  Effect-claims (claims r l') = omega arith
  Effect-claims (reserves r prod cons n q e' s b) = omega arith
  Effect-claims (writes kq q n o o' s kn) = omega arith
  Effect-claims (ends kq q st o o' s f kn) = omega arith

  -- What the mover knows after its move.
  Effect-Knows_self :
      {m' : Shared A} {pc' : Pc A} → Effect bits c m (pcs i) m' pc' → Knows bits m' c pc'
  Effect-Knows_self {m'} {pc'} (quiet x y o kn) =
      Knows-mono bits m m' c c (omega arith) (omega arith) pc' (λ k p e. (refl, refl)) kn
  Effect-Knows_self (claims r l') = tt
  Effect-Knows_self (reserves r prod cons n q e' s b) =
      let was = (live q b.0 b.1).published s in
      (
        omega (arith, b.2),
        ground (arith, subst (λ x. m.stored x ≡ some (node_at bits m x).envelope) e' was),
      )
  Effect-Knows_self (writes kq q n o o' s kn) = kn
  Effect-Knows_self {m'} {pc'} (ends kq q st o o' s f kn) =
      Knows-mono bits m m' c c (omega arith) (omega arith) pc' (λ k p e. absurd cc) kn

  Effect-Knows :
      {m' : Shared A} {pc' : Pc A}
      → Effect bits c m (pcs i) m' pc'
      → (j : ℕ) → Knows bits m' c (update pcs i pc' j)
  Effect-Knows {m'} {pc'} f j =
      if_intro (Knows bits m' c) (i == j) (λ e. Effect-Knows_self f)
        (λ e.
          Knows-mono bits m m' c c (Effect-claims f) (omega arith) (pcs j)
            (Effect-apart f j (ground arith)) (knows j))

  -- Every effect keeps the invariant.
  pub Effect-Inv :
      {m' : Shared A} {pc' : Pc A}
      → Effect bits c m (pcs i) m' pc'
      → Inv bits m' (update pcs i pc') c
  Effect-Inv {m'} {pc'} f = record {
    produced = numbers.0;
    behind = numbers.1;
    filled = omega (arith, Effect-claims f);
    room = numbers.2;
    free = Effect-free inv i f;
    live = Effect-Live inv i f;
    owns = Effect-owns f;
    unique = Effect-unique f;
    knows = Effect-Knows f;
  }
    where
      count :
          {m' : Shared A} {pc' : Pc A}
          → Effect bits c m (pcs i) m' pc'
          → (m'.producer_pos ≡ m'.claims) × (m'.consumer_pos ≤ c) × (m'.claims ≤ c + 2 ^ bits)
      count (quiet x y o kn) = (produced, behind, room)
      count (claims r l') = (refl, behind, omega arith)
      count (reserves r prod cons n q e' s b) = (produced, behind, room)
      count (writes kq q n o o' s kn) = (produced, behind, room)
      count (ends kq q st o o' s f kn) = (produced, behind, room)

      numbers : (m'.producer_pos ≡ m'.claims) × (m'.consumer_pos ≤ c) × (m'.claims ≤ c + 2 ^ bits)
      numbers = count f
