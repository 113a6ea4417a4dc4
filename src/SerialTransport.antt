-- ===== src/SerialTransport.antt =====
-- The serial transport, include/osp/serial_transport.hpp: its frame constants, its configuration and its
-- state. The port behind the file descriptor is the parameter `write` of SerialTransport/Send.antt.
use newosp.Base.{
  ◌*◌, shr, false, get_or, ◌∷◌, ◌%◌, ◌-◌, leb, bit_and, ltb, bit_or, ◌^◌, true, Bool, List,
  if◌then◌else◌, [], ◌+◌, ℕ,
}
pub mod Crc
pub mod Send
pub mod Receive
pub mod Bytes
pub mod Writes
pub mod Bounds
pub mod Storing
pub mod Headers
pub mod Deliver
pub mod Frames
mod Tests
pub mod Noise
pub mod Stream
pub mod Timing
pub mod Reads
pub mod EndToEnd

abbrev pub serial_magic : ℕ
serial_magic = 20307

abbrev pub serial_ack_magic : ℕ
serial_ack_magic = 20289

abbrev pub serial_tail_byte : ℕ
serial_tail_byte = 13

abbrev pub serial_sync_byte1 : ℕ
serial_sync_byte1 = 170

abbrev pub serial_sync_byte2 : ℕ
serial_sync_byte2 = 85

abbrev pub serial_header_size : ℕ
serial_header_size = 10

abbrev pub serial_crc_size : ℕ
serial_crc_size = 2

abbrev pub serial_ack_frame_size : ℕ
serial_ack_frame_size = 8

-- OSP_SERIAL_MAX_FRAME_SIZE, the size of the buffers.
abbrev pub max_frame_size : ℕ
max_frame_size = 1024

-- The members of SerialError that the modelled operations return.
pub data SerialError : Type 0 where
  port_not_open rate_limit_exceeded frame_oversize send_failed : SerialError

pub data SerialPortHealth : Type 0 where
  healthy degraded failed : SerialPortHealth

-- SerialConfig with its ReliabilityConfig: the members that the modelled operations read.
pub record SerialConfig : Type 0 where
  pub inter_byte_timeout_ms : ℕ
  pub frame_max_size : ℕ
  pub enable_ack : Bool
  pub enable_seq_check : Bool
  pub watchdog_timeout_ms : ℕ
  pub degraded_error_threshold : ℕ
  pub failed_error_threshold : ℕ
  pub max_frames_per_second : ℕ
  pub write_retry_count : ℕ

pub record SerialStatistics : Type 0 where
  pub frames_sent : ℕ
  pub frames_received : ℕ
  pub bytes_sent : ℕ
  pub bytes_received : ℕ
  pub crc_errors : ℕ
  pub sync_errors : ℕ
  pub timeout_errors : ℕ
  pub oversize_errors : ℕ
  pub seq_gaps : ℕ
  pub retransmits : ℕ
  pub ack_timeouts : ℕ
  pub rate_limit_drops : ℕ
  pub write_retries : ℕ

pub data RxState : Type 0 where
  idle wait_sync2 wait_header wait_payload wait_crc : RxState

-- A call of the receive callback.
pub record Delivery : Type 0 where
  pub payload : List ℕ
  pub type_index : ℕ
  pub seq : ℕ

-- The members of SerialTransport. `rx_bytes` is rx_buf_ up to rx_pos_. `sent` is what the port took,
-- after `write_calls` calls of write, and `delivered` what the callback was called with, in order.
pub record SerialTransport : Type 0 where
  pub is_open : Bool
  pub tx_seq : ℕ
  pub rx_expected_seq : ℕ
  pub rx_state : RxState
  pub rx_bytes : List ℕ
  pub rx_msg_len : ℕ
  pub rx_payload_size : ℕ
  pub has_callback : Bool
  pub stats : SerialStatistics
  pub last_byte_time_ms : ℕ
  pub last_tx_time_ms : ℕ
  pub last_rx_time_ms : ℕ
  pub frame_count_window_start_ms : ℕ
  pub frames_sent_in_window : ℕ
  pub error_count_in_window : ℕ
  pub sent : List ℕ
  pub write_calls : ℕ
  pub delivered : List Delivery

-- What a call of write gives: how many bytes it took, or EAGAIN or EWOULDBLOCK, or another error.
pub data WriteResult : Type 0 where
  took : ℕ → WriteResult
  would_block broken : WriteResult

-- A difference of two 64-bit times.
abbrev pub elapsed : ℕ → ℕ → ℕ
elapsed now since = (now + 2 ^ 64 - since) % 2 ^ 64

-- WriteLE16, the two bytes.
unfoldable pub write_le16 : ℕ → List ℕ
write_le16 v = bit_and v 255 ∷ bit_and (shr v 8) 255 ∷ []

-- ReadLE16 of the two bytes at an offset.
unfoldable pub read_le16 : List ℕ → ℕ → ℕ
read_le16 p at =
    bit_or (get_or p at 0 % 2 ^ 16) (get_or p (at + 1) 0 % 2 ^ 16 * 2 ^ 8 % 2 ^ 16) % 2 ^ 16

abbrev pub reset_rx_state : SerialTransport → SerialTransport
reset_rx_state s = record s { rx_state = idle; rx_bytes = [] }

-- IncrementErrorCount. `now` is the reading of the clock for the bytes at hand, where the source reads the
-- clock once more.
unfoldable pub increment_error_count : ℕ → SerialTransport → SerialTransport
increment_error_count now s =
    if leb 10000 (elapsed now s.frame_count_window_start_ms)
    then record s { error_count_in_window = 1; frame_count_window_start_ms = now }
    else record s { error_count_in_window = (s.error_count_in_window + 1) % 2 ^ 32 }

unfoldable pub get_health : SerialConfig → ℕ → SerialTransport → SerialPortHealth
get_health cfg now s =
    let since_tx = elapsed now s.last_tx_time_ms in
    let since_rx = elapsed now s.last_rx_time_ms in
    let max_idle = if ltb since_rx since_tx then since_tx else since_rx in
    if ltb cfg.watchdog_timeout_ms max_idle
    then failed
    else (if leb cfg.failed_error_threshold s.error_count_in_window
        then failed
        else (if leb cfg.degraded_error_threshold s.error_count_in_window
            then degraded
            else healthy))

unfoldable pub is_healthy : SerialConfig → ℕ → SerialTransport → Bool
is_healthy cfg now s = elim (get_health cfg now s) [ healthy ↦ true | _ ↦ false ]
