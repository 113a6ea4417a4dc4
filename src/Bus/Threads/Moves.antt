-- ===== src/Bus/Threads/Moves.antt =====
-- The moves of a producer: PublishInternal and TryEvictAndPublish, an atomic access at a time.
use newosp.Base.{ℕ, ◌+◌, ◌%◌, ◌^◌, ◌≤◌, ◌<◌, ◌≡◌, ◌≢◌, some}
use newosp.Bus.{
  high, rank, MessageEnvelope, word, sub_word, msg_id_wrap_threshold, queue_depth, evict_offset,
  slot_of, threshold_for_priority, update,
}
use newosp.Bus.Ring.{Request, envelope_of}
use newosp.Bus.Threads.{
  Shared, Kind, fresh, evicting, numbered, headed, loaded, marked, Pc, idle, called, measured,
  rechecking, recached, claiming, aimed, mismatched, exchanging, evictor, sized, scanning, peeked,
  reserving, held, restoring, owning, writing, set_node, set_sequence, put_header, put_payload,
  scanned,
}

-- A move of a producer. `r` is the call's request; TryEvictAndPublish is called for the highest priority.
pub data Move (bits : ℕ) {A : Type 0} : Shared A → Pc A → Shared A → Pc A → Type 0 where
  call :
      {m : Shared A} (r : Request A)
      → m.next_msg_id < msg_id_wrap_threshold
      → Move bits m idle m (called r)
  overflow_detected :
      {m : Shared A} → msg_id_wrap_threshold ≤ m.next_msg_id → Move bits m idle m idle
  measure : {m : Shared A} {r : Request A} → Move bits m (called r) m (measured r m.producer_pos)
  admit :
      {m : Shared A} {r : Request A} {prod : ℕ}
      → sub_word prod m.cached_consumer_pos < threshold_for_priority bits r.priority
      → Move bits m (measured r prod) m (claiming r)
  recheck :
      {m : Shared A} {r : Request A} {prod : ℕ}
      → threshold_for_priority bits r.priority ≤ sub_word prod m.cached_consumer_pos
      → Move bits m (measured r prod) m (rechecking r prod)
  load_real :
      {m : Shared A} {r : Request A} {prod : ℕ}
      → Move bits m (rechecking r prod) m (recached r prod m.consumer_pos)
  readmit :
      {m : Shared A} {r : Request A} {prod cons : ℕ}
      → sub_word prod cons < threshold_for_priority bits r.priority
      → Move bits m (recached r prod cons) (record m { cached_consumer_pos = cons }) (claiming r)
  refuse :
      {m : Shared A} {r : Request A} {prod cons : ℕ}
      → threshold_for_priority bits r.priority ≤ sub_word prod cons
      → r.priority ≢ high
      → Move bits m (recached r prod cons) (record m { cached_consumer_pos = cons }) idle
  try_evict :
      {m : Shared A} {r : Request A} {prod cons : ℕ}
      → threshold_for_priority bits r.priority ≤ sub_word prod cons
      → r.priority ≡ high
      → Move bits m (recached r prod cons) (record m { cached_consumer_pos = cons }) (evictor r)
  load_prod : {m : Shared A} {r : Request A} → Move bits m (claiming r) m (aimed r m.producer_pos)
  matches :
      {m : Shared A} {r : Request A} {p : ℕ}
      → (m.nodes (slot_of bits p)).sequence ≡ p
      → Move bits m (aimed r p) m (exchanging r p)
  differs :
      {m : Shared A} {r : Request A} {p : ℕ}
      → (m.nodes (slot_of bits p)).sequence ≢ p
      → Move bits m (aimed r p) m (mismatched r p)
  drop_full :
      {m : Shared A} {r : Request A} {p : ℕ}
      → queue_depth bits ≤ sub_word p m.consumer_pos
      → Move bits m (mismatched r p) m idle
  -- `continue`, which goes to the exchange.
  fall :
      {m : Shared A} {r : Request A} {p : ℕ}
      → sub_word p m.consumer_pos < queue_depth bits
      → Move bits m (mismatched r p) m (exchanging r p)
  claim :
      {m : Shared A} {r : Request A} {p : ℕ}
      → m.producer_pos ≡ p
      → Move bits m
          (exchanging r p)
          (record m { producer_pos = word (p + 1); claims = m.claims + 1 })
          (owning fresh r p)
  -- The weak exchange may fail for no reason.
  claim_fails : {m : Shared A} {r : Request A} {p : ℕ} → Move bits m (exchanging r p) m (claiming r)
  scan_to : {m : Shared A} {r : Request A} → Move bits m (evictor r) m (sized r m.producer_pos)
  scan_from :
      {m : Shared A} {r : Request A} {prod : ℕ}
      → Move bits m (sized r prod) m (scanning r prod m.consumer_pos 1)
  -- The caller drops its message.
  no_round :
      {m : Shared A} {r : Request A} {prod cons i : ℕ}
      → queue_depth bits ≤ i
      → Move bits m (scanning r prod cons i) m idle
  no_victim :
      {m : Shared A} {r : Request A} {prod cons i : ℕ}
      → scanned cons i ≡ prod
      → Move bits m (scanning r prod cons i) m idle
  peek :
      {m : Shared A} {r : Request A} {prod cons i : ℕ}
      → i < queue_depth bits
      → scanned cons i ≢ prod
      → (m.nodes (slot_of bits (scanned cons i))).sequence ≡ word (scanned cons i + 1)
      → Move bits m (scanning r prod cons i) m (peeked r prod cons i)
  not_pending :
      {m : Shared A} {r : Request A} {prod cons i : ℕ}
      → i < queue_depth bits
      → scanned cons i ≢ prod
      → (m.nodes (slot_of bits (scanned cons i))).sequence ≢ word (scanned cons i + 1)
      → Move bits m (scanning r prod cons i) m (scanning r prod cons (i + 1))
  already_high :
      {m : Shared A} {r : Request A} {prod cons i : ℕ}
      → rank high ≤ rank (m.nodes (slot_of bits (scanned cons i))).slot_priority
      → Move bits m (peeked r prod cons i) m (scanning r prod cons (i + 1))
  lower :
      {m : Shared A} {r : Request A} {prod cons i : ℕ}
      → rank (m.nodes (slot_of bits (scanned cons i))).slot_priority < rank high
      → Move bits m (peeked r prod cons i) m (reserving r prod cons i)
  reserve :
      {m : Shared A} {r : Request A} {prod cons i : ℕ}
      → (m.nodes (slot_of bits (scanned cons i))).sequence ≡ word (scanned cons i + 1)
      → Move bits m
          (reserving r prod cons i)
          (set_sequence bits m (scanned cons i) (word (scanned cons i + 1 + evict_offset bits)))
          (held r prod cons i)
  reserve_fails :
      {m : Shared A} {r : Request A} {prod cons i : ℕ}
      → (m.nodes (slot_of bits (scanned cons i))).sequence ≢ word (scanned cons i + 1)
      → Move bits m (reserving r prod cons i) m (scanning r prod cons (i + 1))
  became_high :
      {m : Shared A} {r : Request A} {prod cons i : ℕ}
      → rank high ≤ rank (m.nodes (slot_of bits (scanned cons i))).slot_priority
      → Move bits m (held r prod cons i) m (restoring r prod cons i)
  restore :
      {m : Shared A} {r : Request A} {prod cons i : ℕ}
      → Move bits m
          (restoring r prod cons i)
          (set_sequence bits m (scanned cons i) (word (scanned cons i + 1)))
          (scanning r prod cons (i + 1))
  confirm :
      {m : Shared A} {r : Request A} {prod cons i : ℕ}
      → rank (m.nodes (slot_of bits (scanned cons i))).slot_priority < rank high
      → Move bits m (held r prod cons i) m (owning evicting r (scanned cons i))
  fetch_id :
      {m : Shared A} {k : Kind} {r : Request A} {p : ℕ}
      → Move bits m
          (owning k r p)
          (record m { next_msg_id = (m.next_msg_id + 1) % 2 ^ 64 })
          (writing k numbered (envelope_of r m.next_msg_id) p)
  write_header :
      {m : Shared A} {k : Kind} {e : MessageEnvelope A} {p : ℕ}
      → Move bits m (writing k numbered e p) (put_header bits m p e) (writing k headed e p)
  write_payload :
      {m : Shared A} {k : Kind} {e : MessageEnvelope A} {p : ℕ}
      → Move bits m (writing k headed e p) (put_payload bits m p e) (writing k loaded e p)
  write_priority :
      {m : Shared A} {k : Kind} {e : MessageEnvelope A} {p : ℕ}
      → Move bits m
          (writing k loaded e p)
          (set_node bits m p
            (record (m.nodes (slot_of bits p)) { slot_priority = e.header.priority }))
          (writing k marked e p)
  publish :
      {m : Shared A} {k : Kind} {e : MessageEnvelope A} {p : ℕ}
      → Move bits m
          (writing k marked e p)
          (record (set_sequence bits m p (word (p + 1))) { stored = update m.stored p (some e) })
          idle
