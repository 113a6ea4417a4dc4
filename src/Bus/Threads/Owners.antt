-- ===== src/Bus/Threads/Owners.antt =====
-- What every move of every thread keeps: whose each slot of the ring is, and what its sequence says.
-- A position counts the claims from the start; the words of the code are the positions while there are
-- fewer than 2^32 less three times the depth.
use newosp.Base.{
  ℕ, ◌+◌, ◌*◌, ◌^◌, ◌≤◌, ◌<◌, ◌≡◌, refl, arith, ◌⊎◌, Option, none, some, length, get_elem?,
}
use newosp.Bus.{RingBufferNode, slot_of}
use newosp.Bus.Threads.{
  Shared, Kind, fresh, evicting, headed, loaded, marked, Pc, aimed, mismatched, exchanging,
  scanning, peeked, reserving, held, restoring, owning, writing, scanned, ConsumerPc, outside,
  testing, dispatching, stopping,
}

-- The slot that a thread owns: no other may touch its envelope.
abbrev pub owned : {A : Type 0} → Pc A → Option (Kind × ℕ)
owned (held r prod cons i) = some (evicting, scanned cons i)
owned (restoring r prod cons i) = some (evicting, scanned cons i)
owned (owning k r p) = some (k, p)
owned (writing k s e p) = some (k, p)
owned _ = none

-- The sequence of a slot that is owned.
abbrev pub mark : ℕ → Kind → ℕ → ℕ
mark bits fresh p = p
mark bits evicting p = p + 1 + 2 * 2 ^ bits

-- The position that the consumer has reached.
abbrev pub reached : {A : Type 0} → Shared A → ConsumerPc → ℕ
reached m outside = m.consumer_pos
reached m (testing cons i) = cons
reached m (dispatching cons i) = cons
reached m (stopping cons i) = cons

module _ (bits : ℕ) {A : Type 0} (m : Shared A) where
  abbrev pub node_at : ℕ → RingBufferNode A
  node_at p = m.nodes (slot_of bits p)

  -- A pending position: free for its owner, reserved, published or being dispatched; the last two hold
  -- the message that was stored.
  pub record Live (p : ℕ) : Type 0 where
    pub phase :
        ((node_at p).sequence ≡ p)
        ⊎ ((node_at p).sequence ≡ p + 1 + 2 * 2 ^ bits)
        ⊎ ((node_at p).sequence ≡ p + 1)
        ⊎ ((node_at p).sequence ≡ p + 1 + 2 ^ bits)
    pub published : (node_at p).sequence ≡ p + 1 → m.stored p ≡ some (node_at p).envelope
    pub consuming : (node_at p).sequence ≡ p + 1 + 2 ^ bits → m.stored p ≡ some (node_at p).envelope

  -- What the locals of a producer say when the consumer has reached `c`.
  abbrev pub Knows : ℕ → Pc A → Type 0
  Knows c (aimed r p) = p ≤ m.claims
  Knows c (mismatched r p) = p ≤ m.claims
  Knows c (exchanging r p) = (p ≤ m.claims) × (p ≡ m.claims → p < c + 2 ^ bits)
  Knows c (scanning r prod cons i) = cons ≤ c
  Knows c (peeked r prod cons i) = (cons ≤ c) × (i < 2 ^ bits)
  Knows c (reserving r prod cons i) = (cons ≤ c) × (i < 2 ^ bits)
  Knows c (held r prod cons i) =
      (cons ≤ c) × (m.stored (scanned cons i) ≡ some (node_at (scanned cons i)).envelope)
  Knows c (restoring r prod cons i) =
      (cons ≤ c) × (m.stored (scanned cons i) ≡ some (node_at (scanned cons i)).envelope)
  Knows c (writing k headed e p) = (node_at p).envelope.header ≡ e.header
  Knows c (writing k loaded e p) = (node_at p).envelope ≡ e
  Knows c (writing k marked e p) = (node_at p).envelope ≡ e
  Knows c _ = Unit

  -- The slot that the consumer dispatches from.
  abbrev pub Busy : ConsumerPc → Type 0
  Busy (dispatching cons i) = (cons < m.claims) × ((node_at cons).sequence ≡ cons + 1 + 2 ^ bits)
  Busy _ = Unit

pub record Inv (bits : ℕ) {A : Type 0} (m : Shared A) (pcs : ℕ → Pc A) (c : ℕ) : Type 0 where
  pub produced : m.producer_pos ≡ m.claims
  pub behind : m.consumer_pos ≤ c
  pub filled : c ≤ m.claims
  pub room : m.claims ≤ c + 2 ^ bits
  pub free : (p : ℕ) → m.claims ≤ p → p < c + 2 ^ bits → (node_at bits m p).sequence ≡ p
  pub live : (p : ℕ) → c ≤ p → p < m.claims → Live bits m p
  pub owns :
      (i p : ℕ) (k : Kind)
      → owned (pcs i) ≡ some (k, p)
      → (c ≤ p) × (p < m.claims) × ((node_at bits m p).sequence ≡ mark bits k p)
  pub unique :
      (i j p : ℕ) (k l : Kind) → owned (pcs i) ≡ some (k, p) → owned (pcs j) ≡ some (l, p) → i ≡ j
  pub knows : (i : ℕ) → Knows bits m c (pcs i)

-- What was dispatched: at every position that the consumer has passed, the message stored there.
pub record Delivers {A : Type 0} (m : Shared A) (c : ℕ) : Type 0 where
  pub counted : length m.delivered ≡ c
  pub same : (p : ℕ) → p < c → get_elem? m.delivered p ≡ m.stored p

-- What a thread knows stays true while no claim is undone, the consumer does not go back, and the slot
-- that the thread owns is left alone.
pub Knows-mono :
    (bits : ℕ) {A : Type 0} (m m' : Shared A) (c c' : ℕ)
    → m.claims ≤ m'.claims
    → c ≤ c'
    → (pc : Pc A)
    → ((k : Kind) (p : ℕ)
        → owned pc ≡ some (k, p)
        → ((node_at bits m' p).envelope ≡ (node_at bits m p).envelope) × (m'.stored p ≡ m.stored p))
    → Knows bits m c pc
    → Knows bits m' c' pc
Knows-mono bits m m' c c' a b (aimed r p) f kn = omega arith
Knows-mono bits m m' c c' a b (mismatched r p) f kn = omega arith
Knows-mono bits m m' c c' a b (exchanging r p) f kn =
    (omega (arith, kn.0), λ e. omega (arith, kn.1 (omega (arith, kn.0))))
Knows-mono bits m m' c c' a b (scanning r prod cons i) f kn = omega arith
Knows-mono bits m m' c c' a b (peeked r prod cons i) f kn = (omega (arith, kn.0), kn.1)
Knows-mono bits m m' c c' a b (reserving r prod cons i) f kn = (omega (arith, kn.0), kn.1)
Knows-mono bits m m' c c' a b (held r prod cons i) f kn =
    let (e, s) = f evicting (scanned cons i) refl in (omega (arith, kn.0), cc)
Knows-mono bits m m' c c' a b (restoring r prod cons i) f kn =
    let (e, s) = f evicting (scanned cons i) refl in (omega (arith, kn.0), cc)
Knows-mono bits m m' c c' a b (writing k headed e p) f kn = let (e', s) = f k p refl in cc
Knows-mono bits m m' c c' a b (writing k loaded e p) f kn = let (e', s) = f k p refl in cc
Knows-mono bits m m' c c' a b (writing k marked e p) f kn = let (e', s) = f k p refl in cc
Knows-mono bits m m' c c' a b _ f kn = tt
