-- ===== src/Transport.antt =====
-- include/osp/transport.hpp: FrameCodec, which writes frame headers into a buffer and reads them back, and
-- SequenceTracker. A number is copied as its bytes in the host's order, here the lowest first. The
-- transports over sockets are not modelled.
pub mod Copies
pub mod Codec
pub mod Tracker
mod Tests
use newosp.Base.{
  ℕ, zero, suc, ◌+◌, ◌-◌, ◌*◌, ◌/◌, ◌%◌, ◌^◌, Bool, true, false, List, [], ◌∷◌, ltb, leb, ◌==◌,
  if◌then◌else◌, set, get_or,
}

-- `kFrameMagicV0`, `kFrameMagicV1`
abbrev pub frame_magic_v0 : ℕ
frame_magic_v0 = 0x4F535000

abbrev pub frame_magic_v1 : ℕ
frame_magic_v1 = 0x4F535001

abbrev pub header_size : ℕ
header_size = 14

abbrev pub header_size_v1 : ℕ
header_size_v1 = 26

pub record FrameHeader : Type 0 where
  pub magic : ℕ
  pub length : ℕ
  pub type_index : ℕ
  pub sender_id : ℕ

pub record FrameHeaderV1 : Type 0 where
  pub magic : ℕ
  pub length : ℕ
  pub type_index : ℕ
  pub sender_id : ℕ
  pub seq_num : ℕ
  pub timestamp_ns : ℕ

-- The bytes of a number of a width, and the number of bytes.
abbrev pub bytes_of : ℕ → ℕ → List ℕ
bytes_of zero v = []
bytes_of (suc w) v = v % 256 ∷ bytes_of w (v / 256)

abbrev pub number_of : List ℕ → ℕ
number_of [] = 0
number_of (b ∷ bs) = b + 256 * number_of bs

-- `std::memcpy` into a buffer from an index on, and of some bytes out of it.
unfoldable pub copy_in : List ℕ → ℕ → List ℕ → List ℕ
copy_in buf i [] = buf
copy_in buf i (b ∷ bs) = copy_in (set buf i b) (suc i) bs

unfoldable pub copy_out : List ℕ → ℕ → ℕ → List ℕ
copy_out buf i zero = []
copy_out buf i (suc n) = get_or buf i 0 ∷ copy_out buf (suc i) n

-- `EncodeHeader`: the number of bytes written, and the buffer. `buf_size` is the caller's word for its size.
unfoldable pub encode_header : FrameHeader → List ℕ → ℕ → ℕ × List ℕ
unfolding copy_in
encode_header hdr buf buf_size =
    let b1 = copy_in buf 0 (bytes_of 4 hdr.magic) in
    let b2 = copy_in b1 4 (bytes_of 4 hdr.length) in
    let b3 = copy_in b2 8 (bytes_of 2 hdr.type_index) in
    let b4 = copy_in b3 10 (bytes_of 4 hdr.sender_id) in
    if ltb buf_size header_size then (0, buf) else (header_size, b4)

-- `DecodeHeader`, where a failure leaves the caller's header as it was.
unfoldable pub decode_header : List ℕ → ℕ → FrameHeader → Bool × FrameHeader
unfolding copy_out
decode_header buf buf_size hdr = if ltb buf_size header_size then (false, hdr) else (
  true,
  record {
    magic = number_of (copy_out buf 0 4);
    length = number_of (copy_out buf 4 4);
    type_index = number_of (copy_out buf 8 2);
    sender_id = number_of (copy_out buf 10 4);
  },
)

unfoldable pub encode_header_v1 : FrameHeaderV1 → List ℕ → ℕ → ℕ × List ℕ
unfolding copy_in
encode_header_v1 hdr buf buf_size =
    let b1 = copy_in buf 0 (bytes_of 4 hdr.magic) in
    let b2 = copy_in b1 4 (bytes_of 4 hdr.length) in
    let b3 = copy_in b2 8 (bytes_of 2 hdr.type_index) in
    let b4 = copy_in b3 10 (bytes_of 4 hdr.sender_id) in
    let b5 = copy_in b4 14 (bytes_of 4 hdr.seq_num) in
    let b6 = copy_in b5 18 (bytes_of 8 hdr.timestamp_ns) in
    if ltb buf_size header_size_v1 then (0, buf) else (header_size_v1, b6)

unfoldable pub decode_header_v1 : List ℕ → ℕ → FrameHeaderV1 → Bool × FrameHeaderV1
unfolding copy_out
decode_header_v1 buf buf_size hdr = if ltb buf_size header_size_v1 then (false, hdr) else (
  true,
  record {
    magic = number_of (copy_out buf 0 4);
    length = number_of (copy_out buf 4 4);
    type_index = number_of (copy_out buf 8 2);
    sender_id = number_of (copy_out buf 10 4);
    seq_num = number_of (copy_out buf 14 4);
    timestamp_ns = number_of (copy_out buf 18 8);
  },
)

-- `DetectVersion`: 255 is `UINT8_MAX`.
unfoldable pub detect_version : List ℕ → ℕ → ℕ
unfolding copy_out
detect_version buf buf_size =
    let magic = number_of (copy_out buf 0 4) in
    if ltb buf_size 4
    then 255
    else if magic == frame_magic_v0
    then 0
    else if magic == frame_magic_v1
    then 1
    else 255

pub record SequenceTracker : Type 0 where
  pub expected_seq : ℕ
  pub total_received : ℕ
  pub lost_count : ℕ
  pub reordered_count : ℕ
  pub duplicate_count : ℕ

unfoldable pub new_tracker : SequenceTracker
new_tracker = record {
  expected_seq = 0;
  total_received = 0;
  lost_count = 0;
  reordered_count = 0;
  duplicate_count = 0;
}

unfoldable pub track : ℕ → SequenceTracker → Bool × SequenceTracker
track seq_num t =
    let t' : SequenceTracker = record t { total_received = (t.total_received + 1) % 2 ^ 64 } in
    let diff = (seq_num + 2 ^ 32 - t.expected_seq) % 2 ^ 32 in
    let gap = (t.expected_seq + 2 ^ 32 - seq_num) % 2 ^ 32 in
    if diff == 0
    then (true, record t' { expected_seq = (t.expected_seq + 1) % 2 ^ 32 })
    else if ltb diff (2 ^ 31)
    then (
      true,
      record t' {
        lost_count = (t.lost_count + diff) % 2 ^ 64;
        expected_seq = (seq_num + 1) % 2 ^ 32;
      },
    )
    else if leb gap 1000
    then (false, record t' { reordered_count = (t.reordered_count + 1) % 2 ^ 64 })
    else (false, record t' { duplicate_count = (t.duplicate_count + 1) % 2 ^ 64 })

unfoldable pub reset : SequenceTracker → SequenceTracker
unfolding new_tracker
reset t = new_tracker

unfoldable pub set_expected : ℕ → SequenceTracker → SequenceTracker
set_expected seq t = record t { expected_seq = seq }
