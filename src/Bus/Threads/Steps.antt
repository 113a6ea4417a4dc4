-- ===== src/Bus/Threads/Steps.antt =====
-- The moves of the consumer, the bus with its threads, and what they reach.
use newosp.Base.{ℕ, ◌+◌, ◌≤◌, ◌<◌, ◌≡◌, ◌≢◌, [], ◌∷◌, ◌++◌, none}
use newosp.Bus.{medium, Payload, batch_size, word, queue_depth, consumed_offset, slot_of, update}
use newosp.Bus.Ring.{blank_header}
use newosp.Bus.Threads.{
  Shared, Pc, idle, set_sequence, ConsumerPc, outside, testing, dispatching, stopping,
}
use newosp.Bus.Threads.Moves.{Move}

-- A move of the consumer. Every round that does not stop counts one message as processed.
pub data ConsumerMove (bits : ℕ) {A : Type 0}
    : Shared A → ConsumerPc → Shared A → ConsumerPc → Type 0 where
  begin : {m : Shared A} → ConsumerMove bits m outside m (testing m.consumer_pos 0)
  take :
      {m : Shared A} {cons i : ℕ}
      → i < batch_size
      → (m.nodes (slot_of bits cons)).sequence ≡ word (cons + 1)
      → ConsumerMove bits m
          (testing cons i)
          (set_sequence bits m cons (word (word (cons + 1) + consumed_offset bits)))
          (dispatching cons i)
  break_off :
      {m : Shared A} {cons i : ℕ}
      → (m.nodes (slot_of bits cons)).sequence ≢ word (cons + 1)
      → ConsumerMove bits m (testing cons i) m (stopping cons i)
  batch_done :
      {m : Shared A} {cons i : ℕ}
      → batch_size ≤ i
      → ConsumerMove bits m (testing cons i) m (stopping cons i)
  -- The message dispatched and the slot released, in one move: no other thread writes to that slot meanwhile.
  dispatch :
      {m : Shared A} {cons i : ℕ}
      → ConsumerMove bits m
          (dispatching cons i)
          (record (set_sequence bits m cons (word (cons + queue_depth bits))) {
            delivered = m.delivered ++ (m.nodes (slot_of bits cons)).envelope ∷ [];
          })
          (testing (word (cons + 1)) (i + 1))
  advance :
      {m : Shared A} {cons i : ℕ}
      → 0 < i
      → ConsumerMove bits m (stopping cons i) (record m { consumer_pos = cons }) outside
  nothing : {m : Shared A} {cons : ℕ} → ConsumerMove bits m (stopping cons 0) m outside

pub record System (A : Type 0) : Type 0 where
  pub shared : Shared A
  pub pcs : ℕ → Pc A
  pub consumer : ConsumerPc

-- Any number of producers and one consumer, one of which moves.
pub data Step (bits : ℕ) {A : Type 0} (s : System A) : System A → Type 0 where
  produce :
      (i : ℕ) {m : Shared A} {p : Pc A}
      → Move bits s.shared (s.pcs i) m p
      → Step bits s (record s { shared = m; pcs = update s.pcs i p })
  consume :
      {m : Shared A} {p : ConsumerPc}
      → ConsumerMove bits s.shared s.consumer m p
      → Step bits s (record s { shared = m; consumer = p })

-- The bus constructed, no thread in it.
abbrev pub start : {A : Type 0} → Payload A → System A
start payload = record {
  shared = record {
    nodes = λ i. record {
      sequence = i;
      slot_priority = medium;
      envelope = record { header = blank_header; payload = payload };
    };
    producer_pos = 0;
    cached_consumer_pos = 0;
    consumer_pos = 0;
    next_msg_id = 1;
    claims = 0;
    stored = λ _. none;
    delivered = [];
  };
  pcs = λ _. idle;
  consumer = outside;
}

pub data Reach (bits : ℕ) {A : Type 0} (payload : Payload A) : System A → Type 0 where
  started : Reach bits payload (start payload)
  later : {s t : System A} → Reach bits payload s → Step bits s t → Reach bits payload t
