-- ===== src/SerialTransport/Receive.antt =====
-- The receiving side of include/osp/serial_transport.hpp: Poll and the state machine of FeedByte.
use newosp.Base.{
  ◌+◌, ◌-◌, ◌%◌, ◌^◌, ◌==◌, if◌then◌else◌, Bool, true, false, ◌&&◌, ◌||◌, not, List, [], ◌∷◌, ◌++◌,
  ltb, leb, length, take, drop, get_or, ℕ,
}
use newosp.SerialTransport.{
  SerialTransport, SerialConfig, RxState, idle, wait_sync2, wait_header, wait_payload, wait_crc,
  Delivery, WriteResult, elapsed, read_le16, reset_rx_state, increment_error_count, serial_magic,
  serial_ack_magic, serial_tail_byte, serial_sync_byte1, serial_sync_byte2, serial_header_size,
  serial_crc_size, serial_ack_frame_size,
}
use newosp.SerialTransport.Crc.{calculate}
use newosp.SerialTransport.Send.{send_ack}

-- A count of the statistics, of 64 bits, one up.
abbrev pub up : ℕ → ℕ
up n = (n + 1) % 2 ^ 64

abbrev pub sync_error : ℕ → SerialTransport → SerialTransport
sync_error now s =
    increment_error_count now
      (record s { stats = record s.stats { sync_errors = up s.stats.sync_errors } })

abbrev pub crc_error : ℕ → SerialTransport → SerialTransport
crc_error now s =
    increment_error_count now
      (record s { stats = record s.stats { crc_errors = up s.stats.crc_errors } })

-- How far a sequence number is from the expected one.
unfoldable pub seq_gap : ℕ → ℕ → ℕ
seq_gap expected seq =
    if ltb expected seq then (seq - expected) % 2 ^ 16 else (65536 - expected + seq) % 2 ^ 16

-- The count of gaps of ValidateAndDeliver.
unfoldable pub check_seq : SerialConfig → ℕ → SerialTransport → SerialTransport
check_seq cfg seq s =
    if (cfg.enable_seq_check && ltb 0 s.stats.frames_received) && not (seq == s.rx_expected_seq)
    then record s {
      stats = record s.stats {
        seq_gaps = (s.stats.seq_gaps + seq_gap s.rx_expected_seq seq) % 2 ^ 64;
      };
    }
    else s

unfoldable pub handle_ack_frame : ℕ → SerialTransport → SerialTransport
handle_ack_frame now s =
    if calculate (take 6 s.rx_bytes) == read_le16 s.rx_bytes 6 then s else crc_error now s

-- The header is complete: its checks, and what comes next.
unfoldable pub check_header : SerialConfig → ℕ → SerialTransport → SerialTransport
check_header cfg now s =
    if not (read_le16 s.rx_bytes 2 == serial_magic)
    then reset_rx_state (sync_error now s)
    else (let msg_len = read_le16 s.rx_bytes 4 in
        let t = record s { rx_msg_len = msg_len } in
        if ltb cfg.frame_max_size (msg_len + 1)
          || ltb msg_len (serial_header_size + serial_crc_size)
        then reset_rx_state (
            increment_error_count now (record t {
              stats = record t.stats { oversize_errors = up t.stats.oversize_errors };
            }))
        else (let size = (msg_len - serial_header_size - serial_crc_size) % 2 ^ 16 in
            record t {
              rx_payload_size = size;
              rx_state = if ltb 0 size then wait_payload else wait_crc;
            }))

-- FeedByte in kWaitHeader, the byte stored.
unfoldable pub feed_header : SerialConfig → ℕ → SerialTransport → SerialTransport
feed_header cfg now s =
    if leb serial_ack_frame_size (length s.rx_bytes) && (read_le16 s.rx_bytes 2 == serial_ack_magic)
    then reset_rx_state (handle_ack_frame now s)
    else (if leb serial_header_size (length s.rx_bytes) then check_header cfg now s else s)

-- The count of ValidateAndDeliver.
unfoldable pub count_frame : SerialConfig → ℕ → SerialTransport → SerialTransport
count_frame cfg seq s =
    let checked = check_seq cfg seq s in
    record checked {
      rx_expected_seq = (seq + 1) % 2 ^ 16;
      stats = record checked.stats { frames_received = up checked.stats.frames_received };
    }

-- The call of the callback.
unfoldable pub call_back : Delivery → SerialTransport → SerialTransport
call_back message s =
    if s.has_callback then record s { delivered = s.delivered ++ (message ∷ []) } else s

-- The wait for the next byte was too long.
unfoldable pub expire : SerialConfig → ℕ → SerialTransport → SerialTransport
expire cfg now s = elim s.rx_state [
  | idle ↦ s
  | _ ↦
      if not (s.last_byte_time_ms == 0)
        && ltb cfg.inter_byte_timeout_ms (elapsed now s.last_byte_time_ms)
      then reset_rx_state (
          increment_error_count now
            (record s { stats = record s.stats { timeout_errors = up s.stats.timeout_errors } }))
      else s
]

module _ (write : ℕ → WriteResult) where
  -- The acknowledgement, when it is configured.
  unfoldable pub acknowledge : SerialConfig → ℕ → SerialTransport → SerialTransport
  acknowledge cfg seq s = if cfg.enable_ack then send_ack write seq s else s

  -- ValidateAndDeliver from the fields that it read on.
  abbrev pub accept : SerialConfig → Delivery → SerialTransport → SerialTransport
  accept cfg message s =
      call_back message (acknowledge cfg message.seq (count_frame cfg message.seq s))

  unfoldable pub deliver : SerialConfig → SerialTransport → SerialTransport
  deliver cfg s = reset_rx_state (
      accept cfg
        (record {
          payload = take s.rx_payload_size (drop serial_header_size s.rx_bytes);
          type_index = read_le16 s.rx_bytes 8;
          seq = read_le16 s.rx_bytes 6;
        })
        s)

  unfoldable pub validate_and_deliver : SerialConfig → ℕ → SerialTransport → Bool × SerialTransport
  validate_and_deliver cfg now s =
      if not (get_or s.rx_bytes s.rx_msg_len 0 == serial_tail_byte)
      then (false, reset_rx_state (sync_error now s))
      else (let crc_data_len = s.rx_msg_len - serial_crc_size in
          if not (calculate (take crc_data_len s.rx_bytes) == read_le16 s.rx_bytes crc_data_len)
          then (false, reset_rx_state (crc_error now s))
          else (true, deliver cfg s))

  -- FeedByte by the state before the byte.
  unfoldable pub feed_in : SerialConfig → ℕ → ℕ → RxState → SerialTransport → Bool × SerialTransport
  feed_in cfg now byte idle s =
      if byte == serial_sync_byte1
      then (false, record s { rx_bytes = byte ∷ []; rx_state = wait_sync2 })
      else (false, sync_error now s)
  feed_in cfg now byte wait_sync2 s =
      if byte == serial_sync_byte2
      then (false, record s { rx_bytes = s.rx_bytes ++ (byte ∷ []); rx_state = wait_header })
      else (let r = reset_rx_state (sync_error now s) in
          if byte == serial_sync_byte1
          then (false, record r { rx_bytes = byte ∷ []; rx_state = wait_sync2 })
          else (false, r))
  feed_in cfg now byte wait_header s =
      (false, feed_header cfg now (record s { rx_bytes = s.rx_bytes ++ (byte ∷ []) }))
  feed_in cfg now byte wait_payload s =
      let t = record s { rx_bytes = s.rx_bytes ++ (byte ∷ []) } in
      if leb s.rx_payload_size (length t.rx_bytes - serial_header_size)
      then (false, record t { rx_state = wait_crc })
      else (false, t)
  feed_in cfg now byte wait_crc s =
      let t = record s { rx_bytes = s.rx_bytes ++ (byte ∷ []) } in
      if leb (s.rx_msg_len + 1) (length t.rx_bytes)
      then validate_and_deliver cfg now t
      else (false, t)

  unfoldable pub feed_byte : SerialConfig → ℕ → ℕ → SerialTransport → Bool × SerialTransport
  feed_byte cfg now byte s = feed_in cfg now byte s.rx_state s

  -- The inner loop of Poll, and of ParseFromRing: the bytes of one read at the time `now`.
  unfoldable pub feed_all : SerialConfig → ℕ → List ℕ → ℕ × SerialTransport → ℕ × SerialTransport
  feed_all cfg now [] (frames, s) = (frames, s)
  feed_all cfg now (byte ∷ bytes) (frames, s) =
      let (done, t) =
        feed_byte cfg now byte (record (expire cfg now s) { last_byte_time_ms = now }) in
      feed_all cfg now bytes
        (if done then (frames + 1, record t { last_rx_time_ms = now }) else (frames, t))

  -- The loop of Poll, on what each read gives and when.
  unfoldable pub poll_loop :
      SerialConfig → List (ℕ × List ℕ) → ℕ × SerialTransport → ℕ × SerialTransport
  poll_loop cfg [] r = r
  poll_loop cfg ((now, bytes) ∷ reads) (frames, s) = poll_loop cfg reads (
      feed_all cfg now bytes (
        frames,
        record s {
          stats = record s.stats {
            bytes_received = (s.stats.bytes_received + length bytes) % 2 ^ 64;
          };
        },
      ))

  unfoldable pub poll : SerialConfig → List (ℕ × List ℕ) → SerialTransport → ℕ × SerialTransport
  poll cfg reads s = if not s.is_open then (0, s) else poll_loop cfg reads (0, s)
