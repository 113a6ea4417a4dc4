-- ===== src/Bus/Threads/Consumer.antt =====
-- The moves of the consumer keep the invariant: a message taken is pending and nobody's, and a slot
-- released is free for the position a whole depth further.
use newosp.Base.{
  ℕ, ◌+◌, ◌*◌, ◌^◌, ◌≤◌, ◌<◌, ◌≡◌, ◌≢◌, some, arith, refl, pow-pos, ap, List, ℕ_discrete, subst,
}
use newosp.Bus.{slot_of, MessageEnvelope}
use newosp.Bus.Threads.{Shared, Kind, Pc, set_sequence}
use newosp.Bus.Threads.Slots.{slot_of_injective, slot_of-add}
use newosp.Bus.Threads.Owners.{owned, node_at, Live, Knows-mono, Inv}
use newosp.Bus.Threads.Kept.{pending_position}

-- The message at `c` claimed by the consumer; and its slot released.
abbrev pub taken : {A : Type 0} → ℕ → ℕ → Shared A → Shared A
taken bits c m = set_sequence bits m c (c + 1 + 2 ^ bits)

abbrev pub released : {A : Type 0} → ℕ → ℕ → Shared A → List (MessageEnvelope A) → Shared A
released bits c m d = record (set_sequence bits m c (c + 2 ^ bits)) { delivered = d }

module _ {bits c : ℕ} (wide : 1 ≤ bits) {A : Type 0} {m : Shared A} {pcs : ℕ → Pc A}
    (few : m.claims + 3 * 2 ^ bits < 2 ^ 32) (inv : Inv bits m pcs c) where
  open inv use {free, live, owns, unique, knows, produced, behind, filled, room}

  -- No thread owns a slot that is published.
  not_published :
      (i p : ℕ) (k : Kind) → owned (pcs i) ≡ some (k, p) → (node_at bits m p).sequence ≢ p + 1
  not_published i p k o e = ground (arith, pow-pos bits, owns i p k)

  module _ (e : (node_at bits m c).sequence ≡ c + 1) where
    taken-Live : (p : ℕ) → c ≤ p → p < m.claims → Live bits (taken bits c m) p
    taken-Live p h l =
        let old = live p h l in
        let same = slot_of_injective bits c p (omega arith) (omega arith) in
        record {
          phase = ground (arith, old.phase);
          published = λ eq. ground (arith, pow-pos bits, old.published);
          consuming = λ eq. ground (arith, old.published, old.consuming);
        }

    pub pending : c < m.claims
    pending = let both = pending_position wide few inv c (omega (arith, pow-pos bits)) e in both.1

    pub taken-Inv : Inv bits (taken bits c m) pcs c
    taken-Inv = record {
      produced = produced;
      behind = behind;
      filled = filled;
      room = room;
      free = λ p h l. ground (arith, pending, free p h l, slot_of_injective bits c p);
      live = taken-Live;
      owns =
          λ i p k o. ground (arith, owns i p k, not_published i p k o, slot_of_injective bits c p);
      unique = unique;
      knows = λ i.
          Knows-mono bits m (taken bits c m) c c (omega arith) (omega arith) (pcs i)
            (λ k p o. (ground arith, refl)) (knows i);
    }

  module _ (h : c < m.claims) (e : (node_at bits m c).sequence ≡ c + 1 + 2 ^ bits) where
    -- No thread owns the slot that is being dispatched.
    pub owned_later : (i p : ℕ) (k : Kind) → owned (pcs i) ≡ some (k, p) → c < p
    owned_later i p k o = elim (ℕ_discrete c p) [
      | yes same ↦
          let e' : (node_at bits m p).sequence ≡ p + 1 + 2 ^ bits =
            subst (λ x. (node_at bits m x).sequence ≡ x + 1 + 2 ^ bits) same e in
          ground (arith, pow-pos bits, owns i p k)
      | no other ↦ omega (arith, owns i p k o)
    ]

    released-free :
        (d : List (MessageEnvelope A)) (p : ℕ)
        → m.claims ≤ p
        → p < c + 1 + 2 ^ bits
        → (node_at bits (released bits c m d) p).sequence ≡ p
    released-free d p from to = elim (ℕ_discrete p (c + 2 ^ bits)) [
      | yes last ↦ ground (arith, ap (slot_of bits) last, slot_of-add bits c)
      | no before ↦ ground (arith, free p from (omega arith), slot_of_injective bits c p)
    ]

    released-Live :
        (d : List (MessageEnvelope A)) (p : ℕ)
        → c + 1 ≤ p
        → p < m.claims
        → Live bits (released bits c m d) p
    released-Live d p from to =
        let old = live p (omega arith) to in
        let other = slot_of_injective bits c p (omega arith) (omega arith) in
        record {
          phase = ground (arith, old.phase);
          published = λ eq. ground (arith, old.published);
          consuming = λ eq. ground (arith, old.consuming);
        }

    pub released-Inv : (d : List (MessageEnvelope A)) → Inv bits (released bits c m d) pcs (c + 1)
    released-Inv d = record {
      produced = produced;
      behind = omega arith;
      filled = omega arith;
      room = omega arith;
      free = released-free d;
      live = released-Live d;
      owns = λ i p k o. ground (arith, owned_later i p k o, owns i p k, slot_of_injective bits c p);
      unique = unique;
      knows = λ i.
          Knows-mono bits m (released bits c m d) c (c + 1) (omega arith) (omega arith) (pcs i)
            (λ k p o. (ground arith, refl)) (knows i);
    }

  -- The consumer's position made known.
  pub advanced-Inv : Inv bits (record m { consumer_pos = c }) pcs c
  advanced-Inv = record {
    produced = produced;
    behind = omega arith;
    filled = filled;
    room = room;
    free = free;
    live = λ p h l.
        let old = live p h l in
        record { phase = old.phase; published = old.published; consuming = old.consuming };
    owns = owns;
    unique = unique;
    knows = λ i.
        Knows-mono bits m (record m { consumer_pos = c }) c c (omega arith) (omega arith) (pcs i)
          (λ k p o. (refl, refl)) (knows i);
  }
