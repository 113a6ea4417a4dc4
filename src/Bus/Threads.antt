-- ===== src/Bus/Threads.antt =====
-- Producers in PublishInternal and TryEvictAndPublish and the consumer in ProcessBatch, one atomic access
-- at a time, in any order. A write of the envelope, which is not atomic, takes several moves. Statistics
-- and reports, which no test reads, are left out.
pub mod Moves
pub mod Steps
pub mod Slots
pub mod Owners
pub mod Effects
pub mod Owning
pub mod Kept
pub mod Consumer
pub mod Aside
pub mod Sound
pub mod Safety
pub mod Depth
use newosp.Base.{
  ℕ, ◌+◌, ◌*◌, ◌/◌, ◌-◌, ◌%◌, ◌^◌, ◌≤◌, ◌<◌, ◌≡◌, ◌≢◌, List, [], ◌∷◌, ◌++◌, Option, none, some,
}
use newosp.Bus.{
  MessagePriority, low, medium, high, rank, MessageEnvelope, RingBufferNode, Payload, batch_size,
  word, sub_word, msg_id_wrap_threshold, queue_depth, consumed_offset, evict_offset, slot_of,
  threshold_for_priority, update,
}
use newosp.Bus.Ring.{Request, envelope_of, blank_header}

-- `nodes` to `next_msg_id` are the bus's. `claims`, `stored` and `delivered` are what the proof keeps and no
-- move depends on: how many slots were claimed, the last message published at each position, and what was
-- dispatched.
pub record Shared (A : Type 0) : Type 0 where
  pub nodes : ℕ → RingBufferNode A
  pub producer_pos : ℕ
  pub cached_consumer_pos : ℕ
  pub consumer_pos : ℕ
  pub next_msg_id : ℕ
  pub claims : ℕ
  pub stored : ℕ → Option (MessageEnvelope A)
  pub delivered : List (MessageEnvelope A)

-- How a thread came to own a position: it claimed the free slot, or reserved the pending message.
pub data Kind : Type 0 where
  fresh evicting : Kind

-- What of a slot is written: nothing yet, the header, the payload, the priority.
pub data Stage : Type 0 where
  numbered headed loaded marked : Stage

-- Where a producer is, with its locals. `prod`, `cons` and `p` are positions, `i` a round of the scan.
pub data Pc (A : Type 0) : Type 0 where
  idle : Pc A
  -- PublishInternal: the id checked; `producer_pos_` loaded; the estimate too large; the real position loaded.
  called : Request A → Pc A
  measured : Request A → (prod : ℕ) → Pc A
  rechecking : Request A → (prod : ℕ) → Pc A
  recached : Request A → (prod cons : ℕ) → Pc A
  -- The loop: at its head; `producer_pos_` loaded; the sequence is another; at the exchange.
  claiming : Request A → Pc A
  aimed : Request A → (p : ℕ) → Pc A
  mismatched : Request A → (p : ℕ) → Pc A
  exchanging : Request A → (p : ℕ) → Pc A
  -- TryEvictAndPublish: called; `producer_pos_` loaded; in the loop at round `i`; the slot is pending; at
  -- the exchange; the slot reserved; to be restored.
  evictor : Request A → Pc A
  sized : Request A → (prod : ℕ) → Pc A
  scanning : Request A → (prod cons i : ℕ) → Pc A
  peeked : Request A → (prod cons i : ℕ) → Pc A
  reserving : Request A → (prod cons i : ℕ) → Pc A
  held : Request A → (prod cons i : ℕ) → Pc A
  restoring : Request A → (prod cons i : ℕ) → Pc A
  -- Both: the slot at `p` owned, the id not fetched yet; then the envelope is written.
  owning : Kind → Request A → (p : ℕ) → Pc A
  writing : Kind → Stage → MessageEnvelope A → (p : ℕ) → Pc A

module _ {A : Type 0} where
  -- One slot changed.
  abbrev pub set_node : ℕ → Shared A → ℕ → RingBufferNode A → Shared A
  set_node bits m p n = record m { nodes = update m.nodes (slot_of bits p) n }

  abbrev pub set_sequence : ℕ → Shared A → ℕ → ℕ → Shared A
  set_sequence bits m p seq =
      set_node bits m p (record (m.nodes (slot_of bits p)) { sequence = seq })

  abbrev pub put_header : ℕ → Shared A → ℕ → MessageEnvelope A → Shared A
  put_header bits m p e =
      let n = m.nodes (slot_of bits p) in
      set_node bits m p (record n { envelope = record n.envelope { header = e.header } })

  abbrev pub put_payload : ℕ → Shared A → ℕ → MessageEnvelope A → Shared A
  put_payload bits m p e =
      let n = m.nodes (slot_of bits p) in
      set_node bits m p (record n { envelope = record n.envelope { payload = e.payload } })

-- The position of a round of the scan.
abbrev pub scanned : ℕ → ℕ → ℕ
scanned cons i = word (cons + i)

-- Where the consumer is, in round `i` of ProcessBatch at position `cons`.
pub data ConsumerPc : Type 0 where
  outside : ConsumerPc
  testing : (cons i : ℕ) → ConsumerPc
  dispatching : (cons i : ℕ) → ConsumerPc
  stopping : (cons i : ℕ) → ConsumerPc
