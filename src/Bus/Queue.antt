-- ===== src/Bus/Queue.antt =====
-- The bus of a lone thread as a queue: what PublishInternal, with its admission, and ProcessBatch do to
-- the list of pending messages. `c` is the consumer's position; positions fit their words.
use native.Mathlib.Nat.{mod-eq_of_lt}
use newosp.Base.{
  ℕ, ◌+◌, ◌*◌, ◌^◌, ◌≤◌, ◌<◌, ◌≡◌, Bool, true, List, [], ◌∷◌, ◌++◌, some, arith, refl, length, ap,
  sym, ◌∙◌, subst, get_elem?, get_elem?-snoc, get_elem?-lt, length-append, ◌⊎◌, inl, inr,
}
use newosp.Bus.{Bus, MessageEnvelope, Payload, slot_of, word, update}
use newosp.Bus.Ring.{Request, envelope_of, fill, claim_and_fill, new_bus}
use newosp.Bus.Threads.Slots.{slot_of_unique, slot_of-mod}

module _ {A F : Type 0} where
  -- The ring holds these messages, pending from position `c` on, and no other.
  pub record Window (bits c : ℕ) (b : Bus A F) (msgs : List (MessageEnvelope A)) : Type 0 where
    pub upto : b.producer_pos ≡ c + length msgs
    pub fits : length msgs ≤ 2 ^ bits
    pub pending :
        (i : ℕ) (e : MessageEnvelope A)
        → get_elem? msgs i ≡ some e
        → b.ring_buffer (slot_of bits (c + i))
          ≡ record { sequence = c + i + 1; slot_priority = e.header.priority; envelope = e }
    pub free :
        (i : ℕ)
        → length msgs ≤ i
        → i < 2 ^ bits
        → (b.ring_buffer (slot_of bits (c + i))).sequence ≡ c + i

  -- So between calls, when the consumer's position is known.
  pub record Holds (bits c : ℕ) (b : Bus A F) (msgs : List (MessageEnvelope A)) : Type 0 where
    pub window : Window bits c b msgs
    pub at : b.consumer_pos ≡ c
    pub cached : b.cached_consumer_pos ≤ c

  -- A message appended: the claim of the next position, and the slot filled.
  pub fill-Window :
      (bits c : ℕ) (b : Bus A F) (msgs : List (MessageEnvelope A)) (r : Request A)
      → c + 3 * 2 ^ bits < 2 ^ 32
      → length msgs < 2 ^ bits
      → Window bits c b msgs
      → let p = c + length msgs in
        Window bits c
          (fill bits r p (record b { producer_pos = word (p + 1) }))
          (msgs ++ envelope_of r b.next_msg_id ∷ [])
  unfolding fill
  fill-Window bits c b msgs r few room w =
      let e' = envelope_of r b.next_msg_id in
      let same = λ (i : ℕ) (l : i < 2 ^ bits).
        slot_of_unique bits c (c + length msgs) (c + i) (omega arith) (omega arith) (omega arith)
          (omega arith) in
      record {
        upto = omega (arith, length-append msgs (e' ∷ []));
        fits = omega (arith, length-append msgs (e' ∷ []));
        pending = λ i e h. pending i e (get_elem?-snoc msgs e' e i h);
        free = λ i from to. ground (arith, w.free i, length-append msgs (e' ∷ []), same i to);
      }
    where
      pending :
          (i : ℕ) (e : MessageEnvelope A)
          → (get_elem? msgs i ≡ some e) ⊎ ((i ≡ length msgs) × (envelope_of r b.next_msg_id ≡ e))
          → update b.ring_buffer
              (slot_of bits (c + length msgs))
              (record {
                sequence = word (c + length msgs + 1);
                slot_priority = r.priority;
                envelope = envelope_of r b.next_msg_id;
              })
              (slot_of bits (c + i))
            ≡ record { sequence = c + i + 1; slot_priority = e.header.priority; envelope = e }
      pending i e (inl old) =
          let l = get_elem?-lt msgs i old in
          ground (arith, w.pending i e old, slot_of_unique bits c (c + length msgs) (c + i))
      pending i e (inr (last, new)) =
          ground (arith, ap (λ x. slot_of bits (c + x)) last, ap (λ x. x.header.priority) new)

  -- The exchange succeeds while the ring has room.
  pub claim_and_fill-eq :
      (bits c id : ℕ) (b : Bus A F) (msgs : List (MessageEnvelope A)) (r : Request A)
      → length msgs < 2 ^ bits
      → Window bits c b msgs
      → claim_and_fill bits r id b
        ≡ (true, fill bits r b.producer_pos (record b { producer_pos = word (b.producer_pos + 1) }))
  unfolding claim_and_fill
  claim_and_fill-eq bits c id b msgs r room w =
      let at : (b.ring_buffer (slot_of bits b.producer_pos)).sequence ≡ b.producer_pos =
        subst (λ x. (b.ring_buffer (slot_of bits x)).sequence ≡ x) (sym w.upto)
          (w.free (length msgs) (omega arith) room) in
      ground arith

  pub claim_and_fill-Window :
      (bits c id : ℕ) (b : Bus A F) (msgs : List (MessageEnvelope A)) (r : Request A)
      → c + 3 * 2 ^ bits < 2 ^ 32
      → length msgs < 2 ^ bits
      → Window bits c b msgs
      → ((claim_and_fill bits r id b).0 ≡ true)
        × Window bits c (claim_and_fill bits r id b).1 (msgs ++ envelope_of r b.next_msg_id ∷ [])
        × ((claim_and_fill bits r id b).1.consumer_pos ≡ b.consumer_pos)
        × ((claim_and_fill bits r id b).1.cached_consumer_pos ≡ b.cached_consumer_pos)
  unfolding fill
  claim_and_fill-Window bits c id b msgs r few room w =
      let e = claim_and_fill-eq bits c id b msgs r room w in
      subst
        (λ (x : Bool × Bus A F).
          (x.0 ≡ true)
          × Window bits c x.1 (msgs ++ envelope_of r b.next_msg_id ∷ [])
          × (x.1.consumer_pos ≡ b.consumer_pos)
          × (x.1.cached_consumer_pos ≡ b.cached_consumer_pos))
        (sym e)
        (
          refl,
          subst
              (λ x.
                Window bits c (fill bits r x (record b { producer_pos = word (x + 1) }))
                  (msgs ++ envelope_of r b.next_msg_id ∷ []))
              (sym w.upto) (fill-Window bits c b msgs r few room w),
          refl,
          refl,
        )

  -- A bus just constructed holds no message.
  pub new_bus-Holds : (bits : ℕ) (payload : Payload A) → Holds bits 0 (new_bus payload) []
  unfolding new_bus
  new_bus-Holds bits payload = record {
    window = record {
      upto = refl;
      fits = omega arith;
      pending = λ i e h. absurd cc;
      free = λ i from to. slot_of-mod bits (0 + i) ∙ mod-eq_of_lt (omega arith) ∙ omega arith;
    };
    at = refl;
    cached = omega arith;
  }
