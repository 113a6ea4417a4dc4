-- ===== src/Bus/Process.antt =====
-- What ProcessBatch does to the queue of pending messages: it dispatches the oldest, a batch at most.
use newosp.Base.{
  ℕ, zero, suc, ◌+◌, ◌*◌, ◌^◌, ◌<◌, ◌≡◌, false, List, [], ◌∷◌, Option, arith, refl, length, ltb,
  ◌==◌, ap, sym, ap₂, ◌∙◌, drop, take, subst, ℕ_discrete, pow-pos, if_intro, map, get_elem?-lt, min,
  length-take,
}
use newosp.Bus.{Bus, MessageEnvelope, batch_size, word, slot_of, update, consumed_offset}
use newosp.Bus.Ring.{process_loop, process_batch}
use newosp.Bus.Table.{dispatch_message}
use newosp.Bus.Threads.Slots.{slot_of_injective, slot_of-add}
use newosp.Bus.Queue.{Window, Holds}

not_positive : (a : ℕ) → ltb 0 a ≡ false → a ≡ 0
not_positive a e = ground arith

module _ {A F : Type 0} where
  -- Each message with the callables that it is passed to.
  abbrev pub dispatched :
      Bus A F → List (MessageEnvelope A) → List (MessageEnvelope A × List (Option F))
  dispatched b msgs = map (λ e. (e, dispatch_message b e)) msgs

  -- The slot at `c` released.
  abbrev released : ℕ → ℕ → Bus A F → Bus A F
  released bits c b = record b {
    ring_buffer =
        update b.ring_buffer (slot_of bits c)
          (record (b.ring_buffer (slot_of bits c)) { sequence = word (c + consumed_offset bits) });
  }

  released-Window :
      (bits c : ℕ) (b : Bus A F) (m : MessageEnvelope A) (msgs : List (MessageEnvelope A))
      → c + 3 * 2 ^ bits < 2 ^ 32
      → Window bits c b (m ∷ msgs)
      → Window bits (c + 1) (released bits c b) msgs
  released-Window bits c b m msgs few w = record {
    upto = omega (arith, w.upto);
    fits = omega (arith, w.fits);
    pending = λ i e h.
        let l = get_elem?-lt msgs i h in
        subst
          (λ x.
            (released bits c b).ring_buffer (slot_of bits x)
            ≡ record { sequence = x + 1; slot_priority = e.header.priority; envelope = e })
          {x = c + suc i} {y = c + 1 + i} (omega arith)
          (ground (arith, w.pending (suc i) e h, w.fits, slot_of_injective bits c (c + suc i)));
    free = λ i from to. elim (ℕ_discrete (suc i) (2 ^ bits)) [
      | yes last ↦
          let wrap : slot_of bits (c + 1 + i) ≡ slot_of bits c =
            ap (slot_of bits) {x = c + 1 + i} {y = c + 2 ^ bits} (omega arith)
            ∙ slot_of-add bits c in
          ground arith
      | no before ↦
          subst (λ x. ((released bits c b).ring_buffer (slot_of bits x)).sequence ≡ x)
            {x = c + suc i} {y = c + 1 + i} (omega arith)
            (ground (arith, w.free (suc i), w.fits, slot_of_injective bits c (c + suc i)))
    ];
  }

  -- What the loop of ProcessBatch did from position `c` on, in `n` rounds.
  abbrev Processed :
      ℕ
      → ℕ
      → ℕ
      → Bus A F
      → List (MessageEnvelope A)
      → List (MessageEnvelope A × List (Option F)) × Bus A F × ℕ
      → Type 0
  Processed bits n c b msgs (out, b', reached) =
      (out ≡ dispatched b (take n msgs))
      × (reached ≡ c + length (take n msgs))
      × Window bits (c + length (take n msgs)) b' (drop n msgs)
      × (b'.consumer_pos ≡ b.consumer_pos)
      × (b'.cached_consumer_pos ≡ b.cached_consumer_pos)

  process_loop-Processed :
      (bits n c : ℕ) (b : Bus A F) (msgs : List (MessageEnvelope A))
      → c + length msgs + 3 * 2 ^ bits < 2 ^ 32
      → Window bits c b msgs
      → Processed bits n c b msgs (process_loop bits n c b)
  unfolding process_loop dispatch_message
  process_loop-Processed bits zero c b msgs few w = (
    refl,
    omega arith,
    subst (λ x. Window bits x b msgs) {x = c} {y = c + 0} (omega arith) w,
    refl,
    refl,
  )
  process_loop-Processed bits (suc n) c b [] few w =
      if_intro (Processed bits (suc n) c b [])
        ((b.ring_buffer (slot_of bits c)).sequence == word (c + 1))
        (λ e. absurd (
          ground (
            arith,
            ap (λ x. b.ring_buffer (slot_of bits x)) {x = c + 0} {y = c} (omega arith),
            w.free 0 (omega arith) (pow-pos bits),
          )))
        (λ e. (
          refl,
          omega arith,
          subst (λ x. Window bits x b []) {x = c} {y = c + 0} (omega arith) w,
          refl,
          refl,
        ))
  process_loop-Processed bits (suc n) c b (m ∷ msgs) few w =
      let here : b.ring_buffer (slot_of bits c)
          ≡ record { sequence = c + 1; slot_priority = m.header.priority; envelope = m } =
        subst
          (λ x.
            b.ring_buffer (slot_of bits x)
            ≡ record { sequence = x + 1; slot_priority = m.header.priority; envelope = m })
          {x = c + 0} {y = c} (omega arith) (w.pending 0 m refl) in
      let rec =
        process_loop-Processed bits n (c + 1) (released bits c b) msgs (omega arith)
          (released-Window bits c b m msgs (omega arith) w) in
      let rest : Bus A F = (process_loop bits n (word (c + 1)) (released bits c b)).1 in
      if_intro (Processed bits (suc n) c b (m ∷ msgs))
        ((b.ring_buffer (slot_of bits c)).sequence == word (c + 1))
        (λ e.
          let (out, at, window, pos, cached) =
            subst
              (λ x.
                Processed bits n (c + 1) (released bits c b) msgs
                  (process_loop bits n x (released bits c b)))
              {x = c + 1} {y = word (c + 1)} (omega arith) rec in
          (
            ap₂ (λ x l. (x.envelope, dispatch_message b x.envelope) ∷ l) here out,
            omega (arith, at),
            subst (λ x. Window bits x rest (drop n msgs)) {x = c + 1 + length (take n msgs)}
                {y = c + suc (length (take n msgs))} (omega arith) window,
            pos,
            cached,
          ))
        (λ e. absurd (ground (arith, here)))

  -- The number of messages processed, those dispatched and the bus, of one call.
  abbrev pub Batch :
      ℕ
      → ℕ
      → Bus A F
      → List (MessageEnvelope A)
      → ℕ × List (MessageEnvelope A × List (Option F)) × Bus A F
      → Type 0
  Batch bits c b msgs (processed, out, b') =
      (processed ≡ min batch_size (length msgs))
      × (out ≡ dispatched b (take batch_size msgs))
      × Holds bits (c + processed) b' (drop batch_size msgs)

  length-dispatched :
      (b : Bus A F) (msgs : List (MessageEnvelope A)) → length (dispatched b msgs) ≡ length msgs
  length-dispatched b [] = refl
  length-dispatched b (m ∷ msgs) = ap suc (length-dispatched b msgs)

  -- ProcessBatch on a bus that holds the pending messages `msgs`, with its positions in range, dispatches the
  -- oldest ones in order, up to a batch, each to the callables subscribed to its type, returns their number,
  -- and leaves the others pending.
  pub process_batch_refines :
      (bits c : ℕ) (b : Bus A F) (msgs : List (MessageEnvelope A))
      → c + 4 * 2 ^ bits < 2 ^ 32
      → Holds bits c b msgs
      → Batch bits c b msgs (process_batch bits b)
  unfolding process_batch
  process_batch_refines bits c b msgs few h =
      let w = h.window in
      let (outs, at, window, pos, cached) =
        subst (λ x. Processed bits batch_size c b msgs (process_loop bits batch_size x b))
          (sym h.at) (process_loop-Processed bits batch_size c b msgs (omega (arith, w.fits)) w) in
      let out = (process_loop bits batch_size b.consumer_pos b).0 in
      let b' : Bus A F = (process_loop bits batch_size b.consumer_pos b).1 in
      let n : length out ≡ length (take batch_size msgs) =
        ap length outs ∙ length-dispatched b (take batch_size msgs) in
      let count : length out ≡ min batch_size (length msgs) = n ∙ length-take batch_size msgs in
      let there : c + length (take batch_size msgs) ≡ c + length out = omega (arith, n) in
      let moved = subst (λ x. Window bits x b' (drop batch_size msgs)) there window in
      if_intro (Batch bits c b msgs) (ltb 0 (length out))
        (λ e. (
          count,
          outs,
          record {
            window = record {
              upto = moved.upto;
              fits = moved.fits;
              pending = moved.pending;
              free = moved.free;
            };
            at = at ∙ there;
            cached = omega (arith, cached, h.cached);
          },
        ))
        (λ e.
          let nothing : length out ≡ 0 = not_positive (length out) e in
          (
            count,
            outs,
            record {
              window = moved;
              at = omega (arith, pos, h.at);
              cached = omega (arith, cached, h.cached);
            },
          ))
