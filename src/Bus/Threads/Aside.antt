-- ===== src/Bus/Threads/Aside.antt =====
-- What a move of a producer leaves alone: what the consumer has, and has passed.
use newosp.Base.{ℕ, ◌+◌, ◌^◌, ◌≤◌, ◌<◌, ◌≡◌, arith, refl, pow-pos}
use newosp.Bus.{batch_size}
use newosp.Bus.Threads.{Shared, Pc, ConsumerPc, outside, testing, dispatching, stopping}
use newosp.Bus.Threads.Slots.{slot_of_injective}
use newosp.Bus.Threads.Owners.{node_at, reached, Busy, Inv}
use newosp.Bus.Threads.Effects.{Effect, quiet, claims, reserves, writes, ends}

-- The consumer has passed one position in each round since it read the shared one.
abbrev pub Rounds : {A : Type 0} → Shared A → ConsumerPc → Type 0
Rounds m outside = Unit
Rounds m (testing cons i) = (cons ≡ m.consumer_pos + i) × (i ≤ batch_size)
Rounds m (dispatching cons i) = (cons ≡ m.consumer_pos + i) × (i < batch_size)
Rounds m (stopping cons i) = (cons ≡ m.consumer_pos + i) × (i ≤ batch_size)

-- What a producer's move leaves alone: the consumer's position and slot, and what it has dispatched.
pub record Aside (bits c : ℕ) {A : Type 0} (m m' : Shared A) : Type 0 where
  pub consumer : m'.consumer_pos ≡ m.consumer_pos
  pub delivered : m'.delivered ≡ m.delivered
  pub passed : (p : ℕ) → p < c → m'.stored p ≡ m.stored p
  pub slot :
      c < m.claims
      → (node_at bits m c).sequence ≡ c + 1 + 2 ^ bits
      → (node_at bits m' c).sequence ≡ c + 1 + 2 ^ bits

module _ {bits c : ℕ} {A : Type 0} {m : Shared A} {pcs : ℕ → Pc A} (inv : Inv bits m pcs c)
    (i : ℕ) where
  open inv use {owns, room}

  pub Effect-Aside :
      {m' : Shared A} {pc' : Pc A} → Effect bits c m (pcs i) m' pc' → Aside bits c m m'
  Effect-Aside (quiet x y o kn) = record {
    consumer = refl;
    delivered = refl;
    passed = λ p l. refl;
    slot = λ l e. e;
  }
  Effect-Aside (claims r l') = record {
    consumer = refl;
    delivered = refl;
    passed = λ p l. refl;
    slot = λ l e. e;
  }
  Effect-Aside (reserves r prod cons n q e' s b) = record {
    consumer = refl;
    delivered = refl;
    passed = λ p l. refl;
    slot = λ l e. ground (arith, pow-pos bits, slot_of_injective bits c q);
  }
  Effect-Aside (writes k q n o o' s kn) = record {
    consumer = refl;
    delivered = refl;
    passed = λ p l. refl;
    slot = λ l e. ground (arith, owns i q k o, slot_of_injective bits c q);
  }
  Effect-Aside (ends k q st o o' s f kn) = record {
    consumer = refl;
    delivered = refl;
    passed = λ p l. f p (λ e. absurd (omega (arith, owns i q k o)));
    slot = λ l e. ground (arith, pow-pos bits, owns i q k o, slot_of_injective bits c q);
  }

module _ {bits : ℕ} {A : Type 0} where
  pub reached-Aside :
      {c : ℕ} {m m' : Shared A} (pc : ConsumerPc) → Aside bits c m m' → reached m' pc ≡ reached m pc
  reached-Aside outside a = a.consumer
  reached-Aside (testing cons i) a = refl
  reached-Aside (dispatching cons i) a = refl
  reached-Aside (stopping cons i) a = refl

  pub Rounds-Aside :
      {c : ℕ} {m m' : Shared A} (pc : ConsumerPc) → Aside bits c m m' → Rounds m pc → Rounds m' pc
  Rounds-Aside outside a r = tt
  Rounds-Aside (testing cons i) a r = (omega (arith, a.consumer, r.0), r.1)
  Rounds-Aside (dispatching cons i) a r = (omega (arith, a.consumer, r.0), r.1)
  Rounds-Aside (stopping cons i) a r = (omega (arith, a.consumer, r.0), r.1)

  pub Busy-Aside :
      {m m' : Shared A} (pc : ConsumerPc)
      → m.claims ≤ m'.claims
      → Aside bits (reached m pc) m m'
      → Busy bits m pc
      → Busy bits m' pc
  Busy-Aside outside le a b = tt
  Busy-Aside (testing cons i) le a b = tt
  Busy-Aside (dispatching cons i) le a b = (omega (arith, b.0), a.slot b.0 b.1)
  Busy-Aside (stopping cons i) le a b = tt
