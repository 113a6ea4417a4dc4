-- ===== src/Bus/Visitor.antt =====
-- ProcessBatchWith, which passes each message to a visitor and not to the callback table. What the visitor
-- was called with is recorded.
use newosp.Base.{
  ℕ, zero, suc, ◌+◌, ◌%◌, ◌^◌, ◌≡◌, refl, ap, Bool, true, false, List, [], ◌∷◌, Option, length, map,
  ltb, ◌==◌, if◌then◌else◌,
}
use newosp.Bus.{Bus, MessageEnvelope, batch_size, word, queue_depth, slot_of, update}
use newosp.Bus.Ring.{process_loop, process_batch}
use newosp.Bus.Table.{dispatch_message}

module _ {A F : Type 0} where
  unfoldable pub visit_loop : ℕ → ℕ → ℕ → Bus A F → List (MessageEnvelope A) × Bus A F × ℕ
  visit_loop bits zero cons_pos b = ([], b, cons_pos)
  visit_loop bits (suc n) cons_pos b =
      let i = slot_of bits cons_pos in
      let node = b.ring_buffer i in
      let b' : Bus A F = record b {
        ring_buffer =
            update b.ring_buffer i (record node { sequence = word (cons_pos + queue_depth bits) });
      } in
      let (seen, rest, reached) = visit_loop bits n (word (cons_pos + 1)) b' in
      if node.sequence == word (cons_pos + 1)
      then (node.envelope ∷ seen, rest, reached)
      else ([], b, cons_pos)

  unfoldable pub process_batch_with : ℕ → Bus A F → ℕ × List (MessageEnvelope A) × Bus A F
  unfolding visit_loop
  process_batch_with bits b =
      let (seen, b', reached) = visit_loop bits batch_size b.consumer_pos b in
      let processed = length seen in
      if ltb 0 processed
      then (
        processed,
        seen,
        record b' {
          consumer_pos = reached;
          stats = record b'.stats {
            messages_processed = (b'.stats.messages_processed + processed) % 2 ^ 64;
          };
        },
      )
      else (processed, seen, b')

  -- What a visitor sees of what was dispatched.
  abbrev pub visited : List (MessageEnvelope A × List (Option F)) → List (MessageEnvelope A)
  visited out = map (λ x. x.0) out

  -- The outcome of the loop, without the callables.
  abbrev seen_of :
      List (MessageEnvelope A × List (Option F)) × Bus A F × ℕ
      → List (MessageEnvelope A) × Bus A F × ℕ
  seen_of (out, rest, reached) = (visited out, rest, reached)

  seen_of-if :
      (test : Bool) (e : MessageEnvelope A) (d : List (Option F))
      (v : List (MessageEnvelope A) × Bus A F × ℕ)
      (p stop : List (MessageEnvelope A × List (Option F)) × Bus A F × ℕ)
      → v ≡ seen_of p
      → (if test then (e ∷ v.0, v.1, v.2) else seen_of stop)
        ≡ seen_of (if test then ((e, d) ∷ p.0, p.1, p.2) else stop)
  seen_of-if true e d v p stop same = ap (λ x. (e ∷ x.0, x.1, x.2)) same
  seen_of-if false e d v p stop same = refl

  visit_loop-eq-process_loop :
      (bits n c : ℕ) (b : Bus A F) → visit_loop bits n c b ≡ seen_of (process_loop bits n c b)
  unfolding visit_loop process_loop
  visit_loop-eq-process_loop bits zero c b = refl
  visit_loop-eq-process_loop bits (suc n) c b =
      let node = b.ring_buffer (slot_of bits c) in
      seen_of-if (node.sequence == word (c + 1)) node.envelope (dispatch_message b node.envelope) _
        _ ([], b, c) (visit_loop-eq-process_loop bits n (word (c + 1)) _)

  length-visited :
      (out : List (MessageEnvelope A × List (Option F))) → length (visited out) ≡ length out
  length-visited [] = refl
  length-visited (x ∷ out) = ap suc (length-visited out)

  abbrev without_calls :
      ℕ × List (MessageEnvelope A × List (Option F)) × Bus A F
      → ℕ × List (MessageEnvelope A) × Bus A F
  without_calls (processed, out, b) = (processed, visited out, b)

  without_calls-if :
      (test : Bool) (x y : ℕ × List (MessageEnvelope A × List (Option F)) × Bus A F)
      → (if test then without_calls x else without_calls y) ≡ without_calls (if test then x else y)
  without_calls-if true x y = refl
  without_calls-if false x y = refl

  -- On every bus ProcessBatchWith returns the number that ProcessBatch returns, passes the visitor the messages
  -- that ProcessBatch dispatches, in the same order, and leaves the same bus.
  pub process_batch_with-eq-process_batch :
      (bits : ℕ) (b : Bus A F)
      → let (processed, out, b') = process_batch bits b in
        process_batch_with bits b ≡ (processed, visited out, b')
  unfolding process_batch_with process_batch
  process_batch_with-eq-process_batch bits b =
      let p = process_loop bits batch_size b.consumer_pos b in
      let after : Bus A F = p.1 in
      let n = length p.0 in
      let moved : Bus A F = record after {
        consumer_pos = p.2;
        stats = record after.stats {
          messages_processed = (after.stats.messages_processed + n) % 2 ^ 64;
        };
      } in
      rw (visit_loop-eq-process_loop bits batch_size b.consumer_pos b, length-visited p.0)
        (without_calls-if (ltb 0 n) (n, p.0, moved) (n, p.0, after))
