-- ===== src/Bus/Api.antt =====
-- The publish functions of AsyncBus, which differ in what they fill in, its queries, SetErrorCallback and Reset.
use newosp.Base.{ℕ, ◌*◌, ◌/◌, Bool, false, List, Option, none, leb, if◌then◌else◌, map}
use newosp.Bus.{
  MessagePriority, medium, Bus, CallbackEntry, CallbackSlot, Payload, RingBufferNode, word,
  sub_word, queue_depth, fnv1a32,
}
use newosp.Bus.Ring.{publish_internal, zero_statistics}

-- `BackpressureLevel`
pub data BackpressureLevel : Type 0 where
  normal warning critical full : BackpressureLevel

-- The entry of the table that Reset leaves: the id stays.
unfoldable pub cleared_slot {ℓ} : {F : Type ℓ} → CallbackSlot F → CallbackSlot F
cleared_slot {F = F} s = record { entries = map cleared s.entries; count = 0 }
  where
    cleared : CallbackEntry F → CallbackEntry F
    cleared e = record e { active = false; callback = none }

module _ {ℓ κ} {A : Type ℓ} {F : Type κ} where
  -- `now` is what PublishTimestamp returns.
  unfoldable pub publish : ℕ → ℕ → Payload A → ℕ → Bus A F → Bool × Bus A F
  unfolding publish_internal
  publish bits now payload sender_id b =
      publish_internal bits
        (record {
          payload = payload;
          sender_id = sender_id;
          timestamp_us = now;
          priority = medium;
          topic_hash = 0;
        })
        b

  unfoldable pub publish_with_priority :
      ℕ → ℕ → Payload A → ℕ → MessagePriority → Bus A F → Bool × Bus A F
  unfolding publish_internal
  publish_with_priority bits now payload sender_id priority b =
      publish_internal bits
        (record {
          payload = payload;
          sender_id = sender_id;
          timestamp_us = now;
          priority = priority;
          topic_hash = 0;
        })
        b

  unfoldable pub publish_fast : ℕ → Payload A → ℕ → ℕ → Bus A F → Bool × Bus A F
  unfolding publish_internal
  publish_fast bits payload sender_id timestamp_us b =
      publish_internal bits
        (record {
          payload = payload;
          sender_id = sender_id;
          timestamp_us = timestamp_us;
          priority = medium;
          topic_hash = 0;
        })
        b

  unfoldable pub publish_topic : ℕ → ℕ → Payload A → ℕ → Option (List ℕ) → Bus A F → Bool × Bus A F
  unfolding publish_internal fnv1a32
  publish_topic bits now payload sender_id topic b =
      publish_internal bits
        (record {
          payload = payload;
          sender_id = sender_id;
          timestamp_us = now;
          priority = medium;
          topic_hash = fnv1a32 topic;
        })
        b

  unfoldable pub publish_topic_with_priority :
      ℕ → ℕ → Payload A → ℕ → Option (List ℕ) → MessagePriority → Bus A F → Bool × Bus A F
  unfolding publish_internal fnv1a32
  publish_topic_with_priority bits now payload sender_id topic priority b =
      publish_internal bits
        (record {
          payload = payload;
          sender_id = sender_id;
          timestamp_us = now;
          priority = priority;
          topic_hash = fnv1a32 topic;
        })
        b

  unfoldable pub depth : Bus A F → ℕ
  depth b = sub_word b.producer_pos b.consumer_pos

  -- `Depth() * 100` is a product of `uint32_t`.
  unfoldable pub utilization_percent : ℕ → Bus A F → ℕ
  unfolding depth
  utilization_percent bits b = word (depth b * 100) / queue_depth bits

  unfoldable pub get_backpressure_level : ℕ → Bus A F → BackpressureLevel
  unfolding depth
  get_backpressure_level bits b =
      if leb (queue_depth bits) (depth b)
      then full
      else if leb (word (queue_depth bits * 90) / 100) (depth b)
      then critical
      else if leb (word (queue_depth bits * 75) / 100) (depth b)
      then warning
      else normal

  unfoldable pub reset_statistics : Bus A F → Bus A F
  reset_statistics b = record b { stats = zero_statistics }

  unfoldable pub set_error_callback : Bool → Bus A F → Bus A F
  set_error_callback callback b = record b { error_callback = callback }

  unfoldable pub reset : ℕ → Bus A F → Bus A F
  unfolding cleared_slot
  reset bits b = record b {
    ring_buffer = λ i. reset_node i (b.ring_buffer i);
    producer_pos = 0;
    cached_consumer_pos = 0;
    consumer_pos = 0;
    next_msg_id = 1;
    next_callback_id = 1;
    stats = zero_statistics;
    callback_table = map cleared_slot b.callback_table;
    error_callback = false;
  }
    where
      reset_node : ℕ → RingBufferNode A → RingBufferNode A
      reset_node i n = record n { sequence = i; slot_priority = medium }
