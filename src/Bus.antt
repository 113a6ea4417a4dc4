-- ===== src/Bus.antt =====
-- include/osp/bus.hpp: `AsyncBus`, a ring that many producers fill and one consumer empties, with its
-- callbacks. `bits` is the logarithm of `kQueueDepth`. `A` is what the alternatives of the payload
-- variant hold, and `F` the callable that a subscriber passes; a callback is recorded, not run. The
-- functions are a call that no other thread interrupts; Bus/Threads.antt has the interleavings.
pub mod Table
pub mod Ring
pub mod Api
pub mod Threads
pub mod Entries
pub mod Callbacks
pub mod Queue
pub mod Evict
pub mod Publish
pub mod Process
pub mod Visitor
pub mod SpinLock
mod Tests
use newosp.Base.{
  ℕ, zero, suc, ◌+◌, ◌-◌, ◌*◌, ◌/◌, ◌%◌, ◌^◌, bit_and, Bool, true, false, List, [], ◌∷◌, ◌++◌,
  Option, none, some, ltb, leb, ◌==◌, ◌&&◌, not, if◌then◌else◌, get_or, set, replicate,
}

-- `Fnv1a32` of the characters of a string, each a `char` that is not negative; `none` is `nullptr`.
unfoldable pub fnv_loop : ℕ → List ℕ → ℕ
fnv_loop hash [] = hash
fnv_loop hash (c ∷ str) = fnv_loop (xor32 hash c * 16777619 % 2 ^ 32) str
  where
    xor32 : ℕ → ℕ → ℕ
    xor32 a b = a + b - 2 * bit_and a b

unfoldable pub fnv1a32 : Option (List ℕ) → ℕ
unfolding fnv_loop
fnv1a32 none = 0
fnv1a32 (some str) = fnv_loop 2166136261 str

pub data MessagePriority : Type 0 where
  low medium high : MessagePriority

-- The value of the enumerator.
abbrev pub rank : MessagePriority → ℕ
rank low = 0
rank medium = 1
rank high = 2

pub record MessageHeader : Type 0 where
  pub msg_id : ℕ
  pub timestamp_us : ℕ
  pub sender_id : ℕ
  pub topic_hash : ℕ
  pub priority : MessagePriority

-- A value of the payload variant: which alternative it is, and what it holds.
pub record Payload {ℓ} (A : Type ℓ) : Type ℓ where
  pub index : ℕ
  pub value : A

pub record MessageEnvelope {ℓ} (A : Type ℓ) : Type ℓ where
  pub header : MessageHeader
  pub payload : Payload A

pub data BusError : Type 0 where
  queue_full overflow_detected callbacks_full : BusError

pub record SubscriptionHandle : Type 0 where
  pub type_index : ℕ
  pub callback_id : ℕ

-- `UINT32_MAX`
abbrev pub invalid_id : ℕ
invalid_id = 4294967295

abbrev pub handle_invalid : SubscriptionHandle
handle_invalid = record { type_index = 0; callback_id = invalid_id }

abbrev pub handle_is_valid : SubscriptionHandle → Bool
handle_is_valid h = not (h.callback_id == invalid_id)

pub record BusStatistics : Type 0 where
  pub messages_published : ℕ
  pub messages_dropped : ℕ
  pub messages_processed : ℕ
  pub admission_rechecks : ℕ

pub record RingBufferNode {ℓ} (A : Type ℓ) : Type ℓ where
  pub sequence : ℕ
  pub slot_priority : MessagePriority
  pub envelope : MessageEnvelope A

pub record CallbackEntry {ℓ} (F : Type ℓ) : Type ℓ where
  pub id : ℕ
  pub callback : Option F
  pub active : Bool

pub record CallbackSlot {ℓ} (F : Type ℓ) : Type ℓ where
  pub entries : List (CallbackEntry F)
  pub count : ℕ

-- `error_callback` is whether one is set, and `reported` what it was called with.
pub record Bus {ℓ κ} (A : Type ℓ) (F : Type κ) : Type (ℓ ⊔ κ) where
  pub ring_buffer : ℕ → RingBufferNode A
  pub producer_pos : ℕ
  pub cached_consumer_pos : ℕ
  pub consumer_pos : ℕ
  pub next_msg_id : ℕ
  pub next_callback_id : ℕ
  pub stats : BusStatistics
  pub callback_table : List (CallbackSlot F)
  pub error_callback : Bool
  pub reported : List (BusError × ℕ)

-- `OSP_BUS_BATCH_SIZE`, `OSP_BUS_MAX_MESSAGE_TYPES`, `OSP_BUS_MAX_CALLBACKS_PER_TYPE`
abbrev pub batch_size : ℕ
batch_size = 256

abbrev pub max_message_types : ℕ
max_message_types = 8

abbrev pub max_callbacks_per_type : ℕ
max_callbacks_per_type = 16

-- `kMsgIdWrapThreshold`
abbrev pub msg_id_wrap_threshold : ℕ
msg_id_wrap_threshold = 2 ^ 64 - 1 - 10000

-- Arithmetic of `uint32_t`.
abbrev pub word : ℕ → ℕ
word x = x % 2 ^ 32

abbrev pub sub_word : ℕ → ℕ → ℕ
sub_word a b = (a + 2 ^ 32 - b) % 2 ^ 32

-- `kQueueDepth`, `kConsumedOffset`, `kEvictOffset`
abbrev pub queue_depth : ℕ → ℕ
queue_depth bits = 2 ^ bits

abbrev pub consumed_offset : ℕ → ℕ
consumed_offset bits = 2 ^ bits

abbrev pub evict_offset : ℕ → ℕ
evict_offset bits = word (2 ^ bits * 2)

-- `pos & kBufferMask`
abbrev pub slot_of : ℕ → ℕ → ℕ
slot_of bits pos = bit_and pos (2 ^ bits - 1)

-- The thresholds. `kQueueDepth * 60` is a product of `uint32_t`.
abbrev pub threshold_for_priority : ℕ → MessagePriority → ℕ
threshold_for_priority bits high = word (2 ^ bits * 99) / 100
threshold_for_priority bits medium = word (2 ^ bits * 80) / 100
threshold_for_priority bits low = word (2 ^ bits * 60) / 100

-- A write to one slot of the ring.
abbrev pub update {ℓ} : {A : Type ℓ} → (ℕ → A) → ℕ → A → ℕ → A
update f i a j = if i == j then a else f j
