-- ===== src/Bus/Ring.antt =====
-- PublishInternal, TryEvictAndPublish and ProcessBatch of AsyncBus, and its queries.
use newosp.Base.{
  length, ℕ, zero, suc, ◌+◌, ◌-◌, ◌%◌, ◌^◌, Bool, true, false, List, [], ◌∷◌, ◌++◌, Option, none,
  some, ltb, leb, ◌==◌, ◌&&◌, not, if◌then◌else◌, replicate,
}
use newosp.Bus.{
  MessagePriority, medium, high, rank, MessageHeader, Payload, MessageEnvelope, BusError,
  queue_full, overflow_detected, BusStatistics, Bus, batch_size, max_message_types,
  msg_id_wrap_threshold, word, sub_word, queue_depth, consumed_offset, slot_of,
  threshold_for_priority, update,
}
use newosp.Bus.Table.{blank_slot, dispatch_message}
use mathlib.Core.Option

abbrev pub zero_statistics : BusStatistics
zero_statistics = record {
  messages_published = 0;
  messages_dropped = 0;
  messages_processed = 0;
  admission_rechecks = 0;
}

abbrev pub blank_header : MessageHeader
blank_header = record {
  msg_id = 0;
  timestamp_us = 0;
  sender_id = 0;
  topic_hash = 0;
  priority = medium;
}

-- What a caller of the publish functions passes, and the time that they read.
pub record Request {ℓ} (A : Type ℓ) : Type ℓ where
  pub payload : Payload A
  pub sender_id : ℕ
  pub timestamp_us : ℕ
  pub priority : MessagePriority
  pub topic_hash : ℕ

-- The envelope of a request that was given this id.
abbrev pub envelope_of {ℓ} : {A : Type ℓ} → Request A → ℕ → MessageEnvelope A
envelope_of r msg_id = record {
  header = record {
    msg_id = msg_id;
    timestamp_us = r.timestamp_us;
    sender_id = r.sender_id;
    topic_hash = r.topic_hash;
    priority = r.priority;
  };
  payload = r.payload;
}

module _ {ℓ κ} {A : Type ℓ} {F : Type κ} where
  -- The constructor. `payload` is the payload variant's default value.
  unfoldable pub new_bus : Payload A → Bus A F
  unfolding blank_slot
  new_bus payload = record {
    ring_buffer = λ i. record {
      sequence = i;
      slot_priority = medium;
      envelope = record { header = blank_header; payload = payload };
    };
    producer_pos = 0;
    cached_consumer_pos = 0;
    consumer_pos = 0;
    next_msg_id = 1;
    next_callback_id = 1;
    stats = zero_statistics;
    callback_table = replicate max_message_types blank_slot;
    error_callback = false;
    reported = [];
  }

  unfoldable pub report_error : BusError → ℕ → Bus A F → Bus A F
  report_error error msg_id b = record b {
    reported = if b.error_callback then b.reported ++ (error, msg_id) ∷ [] else b.reported;
  }

  -- A message dropped: counted and reported.
  abbrev pub drop_message : ℕ → Bus A F → Bus A F
  drop_message msg_id b = report_error queue_full msg_id (record b {
    stats = record b.stats { messages_dropped = (b.stats.messages_dropped + 1) % 2 ^ 64 };
  })

  -- A claimed slot filled and made visible; its priority is written beside the envelope.
  unfoldable pub fill : ℕ → Request A → ℕ → Bus A F → Bus A F
  fill bits r p b = record b {
    next_msg_id = (b.next_msg_id + 1) % 2 ^ 64;
    ring_buffer = update b.ring_buffer (slot_of bits p) (record {
      sequence = word (p + 1);
      slot_priority = r.priority;
      envelope = envelope_of r b.next_msg_id;
    });
    stats = record b.stats { messages_published = (b.stats.messages_published + 1) % 2 ^ 64 };
  }

  -- The loop of TryEvictAndPublish from offset `i` on, with `n` rounds left: the position evicted.
  unfoldable pub find_victim : ℕ → Bus A F → (prod cons i n : ℕ) → Option ℕ
  find_victim bits b prod cons i zero = none
  find_victim bits b prod cons i (suc n) =
      let rest = find_victim bits b prod cons (i + 1) n in
      let p = word (cons + i) in
      let node = b.ring_buffer (slot_of bits p) in
      if p == prod
      then none
      else if not (node.sequence == word (p + 1))
      then rest
      else if leb (rank high) (rank node.slot_priority)
      then rest
      else some p

  -- The message at `p` overwritten, and counted as dropped.
  unfoldable pub evict_at : ℕ → Request A → Bus A F → ℕ → Bus A F
  unfolding fill
  evict_at bits r b p =
      let b' : Bus A F = fill bits (record r { priority = high }) p b in
      record b' {
        stats = record b'.stats { messages_dropped = (b'.stats.messages_dropped + 1) % 2 ^ 64 };
      }

  unfoldable pub try_evict_and_publish : ℕ → Request A → Bus A F → Option (Bus A F)
  unfolding find_victim evict_at
  try_evict_and_publish bits r b =
      Option.map (evict_at bits r b)
        (find_victim bits b b.producer_pos b.consumer_pos 1 (queue_depth bits - 1))

  -- The claim of a slot and what follows. `continue` in a `do` loop goes to its condition, so the exchange
  -- is tried after a mismatch too, unless the queue is full.
  unfoldable pub claim_and_fill : ℕ → Request A → ℕ → Bus A F → Bool × Bus A F
  unfolding fill report_error
  claim_and_fill bits r current_id b =
      let p = b.producer_pos in
      if not ((b.ring_buffer (slot_of bits p)).sequence == p)
        && leb (queue_depth bits) (sub_word p b.consumer_pos)
      then (false, drop_message current_id b)
      else (true, fill bits r p (record b { producer_pos = word (p + 1) }))

  -- The consumer's position loaded and cached.
  unfoldable pub recached : Bus A F → Bus A F
  recached b = record b {
    cached_consumer_pos = b.consumer_pos;
    stats = record b.stats { admission_rechecks = (b.stats.admission_rechecks + 1) % 2 ^ 64 };
  }

  unfoldable pub or_drop : ℕ → Bus A F → Option (Bus A F) → Bool × Bus A F
  unfolding report_error
  or_drop current_id b (some b') = (true, b')
  or_drop current_id b none = (false, drop_message current_id b)

  -- The queue is too full for the message's priority, given last.
  unfoldable pub refused : ℕ → Request A → ℕ → Bus A F → MessagePriority → Bool × Bus A F
  unfolding report_error try_evict_and_publish or_drop
  refused bits r current_id b high = or_drop current_id b (try_evict_and_publish bits r b)
  refused bits r current_id b _ = (false, drop_message current_id b)

  unfoldable pub publish_internal : ℕ → Request A → Bus A F → Bool × Bus A F
  unfolding report_error claim_and_fill recached refused
  publish_internal bits r b =
      let current_id = b.next_msg_id in
      let threshold = threshold_for_priority bits r.priority in
      if leb msg_id_wrap_threshold current_id
      then (false, report_error overflow_detected current_id b)
      else if ltb (sub_word b.producer_pos b.cached_consumer_pos) threshold
      then claim_and_fill bits r current_id b
      else if ltb (sub_word b.producer_pos b.consumer_pos) threshold
      then claim_and_fill bits r current_id (recached b)
      else refused bits r current_id (recached b) r.priority

  -- The loop of ProcessBatch at `cons_pos`, with `n` rounds left: what was dispatched, oldest first, with
  -- the callables called, the bus and the position reached.
  unfoldable pub process_loop :
      ℕ → ℕ → ℕ → Bus A F → List (MessageEnvelope A × List (Option F)) × Bus A F × ℕ
  unfolding dispatch_message
  process_loop bits zero cons_pos b = ([], b, cons_pos)
  process_loop bits (suc n) cons_pos b =
      let i = slot_of bits cons_pos in
      let node = b.ring_buffer i in
      let b' : Bus A F = record b {
        ring_buffer =
            update b.ring_buffer i
              (record node { sequence = word (cons_pos + consumed_offset bits) });
      } in
      let (out, rest, reached) = process_loop bits n (word (cons_pos + 1)) b' in
      if node.sequence == word (cons_pos + 1)
      then ((node.envelope, dispatch_message b node.envelope) ∷ out, rest, reached)
      else ([], b, cons_pos)

  unfoldable pub process_batch :
      ℕ → Bus A F → ℕ × List (MessageEnvelope A × List (Option F)) × Bus A F
  unfolding process_loop
  process_batch bits b =
      let (out, b', reached) = process_loop bits batch_size b.consumer_pos b in
      let processed = length out in
      if ltb 0 processed
      then (
        processed,
        out,
        record b' {
          consumer_pos = reached;
          stats = record b'.stats {
            messages_processed = (b'.stats.messages_processed + processed) % 2 ^ 64;
          };
        },
      )
      else (processed, out, b')
