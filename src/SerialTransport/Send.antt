-- ===== src/SerialTransport/Send.antt =====
-- The sending side of include/osp/serial_transport.hpp: Send, WriteAll and SendAck. `write` is the
-- port: what the k-th call of ::write gives, counted from the construction.
use newosp.Base.{
  zero, suc, ◌+◌, ◌%◌, ◌^◌, ◌==◌, if◌then◌else◌, true, false, not, Option, none, some, List, [],
  ◌∷◌, ◌++◌, ltb, leb, length, take, drop, ℕ,
}
use newosp.SerialTransport.{
  SerialTransport, SerialConfig, SerialError, port_not_open, rate_limit_exceeded, frame_oversize,
  send_failed, WriteResult, took, would_block, broken, elapsed, write_le16, serial_magic,
  serial_ack_magic, serial_tail_byte, serial_sync_byte1, serial_sync_byte2, serial_header_size,
  serial_crc_size,
}
use newosp.SerialTransport.Crc.{calculate}

-- The errors and the successes of expected<void, SerialError>.
pub data Expected : Type 0 where
  success : Expected
  error : SerialError → Expected

-- The frame of Send: the CRC is over all before it.
unfoldable pub frame_body : ℕ → ℕ → ℕ → List ℕ → List ℕ
frame_body msg_len seq type_index payload =
    (serial_sync_byte1 ∷ serial_sync_byte2 ∷ write_le16 serial_magic)
    ++ (write_le16 (msg_len % 2 ^ 16) ++ (write_le16 seq ++ (write_le16 type_index ++ payload)))

unfoldable pub build_frame : ℕ → ℕ → ℕ → List ℕ → List ℕ
build_frame msg_len seq type_index payload =
    let body = frame_body msg_len seq type_index payload in
    body ++ (write_le16 (calculate body) ++ (serial_tail_byte ∷ []))

-- What Send copies: nothing from a null pointer, whatever the size.
abbrev pub copied : Option (List ℕ) → ℕ → List ℕ
copied none size = []
copied (some payload) size = take size payload

-- The 8 bytes of SendAck.
unfoldable pub ack_frame : ℕ → List ℕ
ack_frame seq =
    let body =
      serial_sync_byte1 ∷ serial_sync_byte2 ∷ write_le16 serial_ack_magic ++ write_le16 seq in
    body ++ write_le16 (calculate body)

-- The counts of WriteAll, of so many bytes, after its loop.
abbrev pub count_write_of : ℕ → SerialTransport → SerialTransport
count_write_of len s = record s {
  stats = record s.stats {
    bytes_sent = (s.stats.bytes_sent + len) % 2 ^ 64;
    frames_sent = (s.stats.frames_sent + 1) % 2 ^ 64;
  };
}

unfoldable pub count_write :
    ℕ → Option (Expected × SerialTransport) → Option (Expected × SerialTransport)
count_write len none = none
count_write len (some (error e, s)) = some (error e, s)
count_write len (some (success, s)) = some (success, count_write_of len s)

-- The end of Send, at the time `sent_at`.
abbrev pub note_sent : ℕ → SerialTransport → SerialTransport
note_sent sent_at s = record s {
  frames_sent_in_window = (s.frames_sent_in_window + 1) % 2 ^ 32;
  last_tx_time_ms = sent_at;
}

unfoldable pub frame_sent :
    ℕ → Option (Expected × SerialTransport) → Option (Expected × SerialTransport)
frame_sent sent_at none = none
frame_sent sent_at (some (error e, s)) = some (error e, s)
frame_sent sent_at (some (success, s)) = some (success, note_sent sent_at s)

-- The start of Send: a new window when a second has passed.
abbrev pub open_window : ℕ → SerialTransport → SerialTransport
open_window now s =
    if leb 1000 (elapsed now s.frame_count_window_start_ms)
    then record s { frame_count_window_start_ms = now; frames_sent_in_window = 0 }
    else s

module _ (write : ℕ → WriteResult) where
  -- The loop of WriteAll: `rest` is data from `written` on, `none` is no end within the fuel.
  unfoldable pub write_loop :
      SerialConfig → ℕ → List ℕ → ℕ → SerialTransport → Option (Expected × SerialTransport)
  write_loop cfg fuel [] retry_count s = some (success, s)
  write_loop cfg zero (b ∷ rest) retry_count s = none
  write_loop cfg (suc fuel) (b ∷ rest) retry_count s =
      let called = record s { write_calls = s.write_calls + 1 } in
      elim (write s.write_calls) [
        | took n ↦
            write_loop cfg fuel (drop n (b ∷ rest)) 0
              (record called { sent = s.sent ++ take n (b ∷ rest) })
        | broken ↦ some (error send_failed, called)
        | would_block ↦ elim (leb cfg.write_retry_count retry_count) [
          | true ↦ some (error send_failed, called)
          | false ↦ write_loop cfg fuel (b ∷ rest) (retry_count + 1) (record called {
            stats = record s.stats { write_retries = (s.stats.write_retries + 1) % 2 ^ 64 };
          })
        ]
      ]

  -- WriteAll.
  unfoldable pub write_all :
      SerialConfig → ℕ → List ℕ → SerialTransport → Option (Expected × SerialTransport)
  write_all cfg fuel bytes s = count_write (length bytes) (write_loop cfg fuel bytes 0 s)

  -- Send after the limit of frames. The length's arithmetic is of 32 bits.
  unfoldable pub send_frame :
      SerialConfig
      → ℕ
      → ℕ
      → ℕ
      → Option (List ℕ)
      → ℕ
      → SerialTransport
      → Option (Expected × SerialTransport)
  send_frame cfg fuel sent_at type_index payload size s =
      let msg_len = (serial_header_size + size + serial_crc_size) % 2 ^ 32 in
      elim (ltb cfg.frame_max_size ((msg_len + 1) % 2 ^ 32)) [
        | true ↦ some (error frame_oversize, s)
        | false ↦ frame_sent sent_at (
            write_all cfg fuel (build_frame msg_len s.tx_seq type_index (copied payload size))
              (record s { tx_seq = (s.tx_seq + 1) % 2 ^ 16 }))
      ]

  -- Send. The clock reads `now` at the limit and `sent_at` at the end.
  unfoldable pub send :
      SerialConfig
      → ℕ
      → ℕ
      → ℕ
      → ℕ
      → Option (List ℕ)
      → ℕ
      → SerialTransport
      → Option (Expected × SerialTransport)
  send cfg fuel now sent_at type_index payload size s =
      if not s.is_open
      then some (error port_not_open, s)
      else (if cfg.max_frames_per_second == 0
          then send_frame cfg fuel sent_at type_index payload size s
          else (let w = open_window now s in
              if leb cfg.max_frames_per_second w.frames_sent_in_window
              then some (
                error rate_limit_exceeded,
                record w {
                  stats = record w.stats {
                    rate_limit_drops = (w.stats.rate_limit_drops + 1) % 2 ^ 64;
                  };
                },
              )
              else send_frame cfg fuel sent_at type_index payload size w))

  -- SendAck: one call of write, whose result is not looked at.
  unfoldable pub send_ack : ℕ → SerialTransport → SerialTransport
  send_ack seq s =
      if not s.is_open
      then s
      else (let called = record s { write_calls = s.write_calls + 1 } in
          elim (write s.write_calls) [
            | took n ↦ record called { sent = s.sent ++ take n (ack_frame seq) }
            | _ ↦ called
          ])
