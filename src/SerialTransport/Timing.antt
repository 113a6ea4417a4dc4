-- ===== src/SerialTransport/Timing.antt =====
-- The receiver does not depend on when the bytes come, but for its counts of errors and its time stamps.
use newosp.Base.{
  ℕ, ◌+◌, ◌-◌, ◌%◌, ◌^◌, ◌≡◌, ◌==◌, ◌&&◌, ◌||◌, refl, ap, Bool, true, false, not, if◌then◌else◌, [],
  ◌∷◌, ◌++◌, length, arith, if_intro, ltb, leb, get_or, take,
}
use newosp.SerialTransport.{
  SerialTransport, SerialConfig, RxState, idle, wait_sync2, wait_header, wait_payload, wait_crc,
  WriteResult, elapsed, increment_error_count, reset_rx_state, read_le16, serial_magic,
  serial_ack_magic,
}
use newosp.SerialTransport.Crc.{calculate}
use newosp.SerialTransport.Send.{send_ack}
use newosp.SerialTransport.Receive.{
  up, check_seq, count_frame, acknowledge, call_back, handle_ack_frame, check_header, feed_header,
  deliver, validate_and_deliver, feed_in, feed_byte,
}

-- What is not a time stamp, a count of errors of the last seconds or the count of received bytes.
abbrev pub erase : SerialTransport → SerialTransport
erase s = record s {
  stats = record s.stats { bytes_received = 0 };
  last_byte_time_ms = 0;
  last_rx_time_ms = 0;
  frame_count_window_start_ms = 0;
  error_count_in_window = 0;
}

-- The same but for those, with the time of the last byte and the count of bytes of a state before.
abbrev pub Alike : SerialTransport → SerialTransport → SerialTransport → Type 0
Alike s t t' =
    (erase t ≡ erase t')
    × (t.last_byte_time_ms ≡ s.last_byte_time_ms)
    × (t.stats.bytes_received ≡ s.stats.bytes_received)

abbrev pub Matches : SerialTransport → Bool × SerialTransport → Bool × SerialTransport → Type 0
Matches s (done, t) (done', t') = (done ≡ done') × Alike s t t'

both :
    {A : Type 0} (R : A → A → Type 0) (c : Bool) {x y x' y' : A}
    → R x x'
    → R y y'
    → R (if c then x else y) (if c then x' else y')
both R true h h' = h
both R false h h' = h'

increment_error_count-Alike :
    (now now' : ℕ) (s t t' : SerialTransport)
    → Alike s t t'
    → Alike s (increment_error_count now t) (increment_error_count now' t')
unfolding increment_error_count
increment_error_count-Alike now now' s t t' h =
    if_intro (λ x. Alike s x (increment_error_count now' t'))
      (leb 10000 (elapsed now t.frame_count_window_start_ms))
      (λ e.
        if_intro
          (λ x.
            Alike s (record t { error_count_in_window = 1; frame_count_window_start_ms = now }) x)
          (leb 10000 (elapsed now' t'.frame_count_window_start_ms)) (λ e'. h) (λ e'. h))
      (λ e.
        if_intro
          (λ x.
            Alike s (record t { error_count_in_window = (t.error_count_in_window + 1) % 2 ^ 32 }) x)
          (leb 10000 (elapsed now' t'.frame_count_window_start_ms)) (λ e'. h) (λ e'. h))

reset_rx_state-Alike :
    (s t t' : SerialTransport) → Alike s t t' → Alike s (reset_rx_state t) (reset_rx_state t')
reset_rx_state-Alike s t t' h = (ap reset_rx_state h.0, h.1, h.2)

-- A frame is given up.
failed-Alike :
    (now : ℕ) (s : SerialTransport)
    → Alike s
        (reset_rx_state (increment_error_count now s))
        (reset_rx_state (increment_error_count 0 (erase s)))
failed-Alike now s =
    reset_rx_state-Alike s (increment_error_count now s) (increment_error_count 0 (erase s))
      (increment_error_count-Alike now 0 s s (erase s) (refl, refl, refl))

abbrev with_crc_error : SerialTransport → SerialTransport
with_crc_error s = record s { stats = record s.stats { crc_errors = up s.stats.crc_errors } }

abbrev with_sync_error : SerialTransport → SerialTransport
with_sync_error s = record s { stats = record s.stats { sync_errors = up s.stats.sync_errors } }

abbrev with_oversize_error : SerialTransport → SerialTransport
with_oversize_error s = record s {
  stats = record s.stats { oversize_errors = up s.stats.oversize_errors };
}

module _ (write : ℕ → WriteResult) (cfg : SerialConfig) (now : ℕ) where
  handle_ack_frame-Alike :
      (s : SerialTransport) → Alike s (handle_ack_frame now s) (handle_ack_frame 0 (erase s))
  unfolding handle_ack_frame
  handle_ack_frame-Alike s =
      both (Alike s) (calculate (take 6 s.rx_bytes) == read_le16 s.rx_bytes 6) (refl, refl, refl)
        (increment_error_count-Alike now 0 s (with_crc_error s) (with_crc_error (erase s))
          (refl, refl, refl))

  check_header-Alike :
      (s : SerialTransport) → Alike s (check_header cfg now s) (check_header cfg 0 (erase s))
  unfolding check_header
  check_header-Alike s =
      let msg_len = read_le16 s.rx_bytes 4 in
      both (Alike s) (not (read_le16 s.rx_bytes 2 == serial_magic))
        (failed-Alike now (with_sync_error s))
        (both (Alike s) (ltb cfg.frame_max_size (msg_len + 1) || ltb msg_len 12)
          (failed-Alike now (with_oversize_error (record s { rx_msg_len = msg_len })))
          (refl, refl, refl))

  deliver-Alike :
      (s : SerialTransport) → Alike s (deliver write cfg s) (deliver write cfg (erase s))
  unfolding deliver call_back acknowledge send_ack count_frame check_seq
  deliver-Alike s = ground arith

  validate_and_deliver-Matches :
      (s : SerialTransport)
      → Matches s
          (validate_and_deliver write cfg now s)
          (validate_and_deliver write cfg 0 (erase s))
  unfolding validate_and_deliver
  validate_and_deliver-Matches s =
      both (Matches s) (not (get_or s.rx_bytes s.rx_msg_len 0 == 13))
        (refl, failed-Alike now (with_sync_error s))
        (both (Matches s)
          (not (
            calculate (take (s.rx_msg_len - 2) s.rx_bytes)
            == read_le16 s.rx_bytes (s.rx_msg_len - 2)))
          (refl, failed-Alike now (with_crc_error s)) (refl, deliver-Alike s))

  feed_in-Matches :
      (byte : ℕ) (st : RxState) (s : SerialTransport)
      → Matches s (feed_in write cfg now byte st s) (feed_in write cfg 0 byte st (erase s))
  unfolding feed_in feed_header
  feed_in-Matches byte idle s =
      both (Matches s) (byte == 170) (refl, (refl, refl, refl))
        (
          refl,
          increment_error_count-Alike now 0 s (with_sync_error s) (with_sync_error (erase s))
              (refl, refl, refl),
        )
  feed_in-Matches byte wait_sync2 s =
      let failed = failed-Alike now (with_sync_error s) in
      both (Matches s) (byte == 85) (refl, (refl, refl, refl))
        (both (Matches s) (byte == 170)
          (
            refl,
            (
              ap (λ (x : SerialTransport). record x { rx_bytes = byte ∷ []; rx_state = wait_sync2 })
                  failed.0,
              failed.1,
              failed.2,
            ),
          )
          (refl, failed))
  feed_in-Matches byte wait_header s =
      let t = record s { rx_bytes = s.rx_bytes ++ (byte ∷ []) } in
      (
        refl,
        both (Alike s) (leb 8 (length t.rx_bytes) && (read_le16 t.rx_bytes 2 == serial_ack_magic))
            (reset_rx_state-Alike s (handle_ack_frame now t) (handle_ack_frame 0 (erase t))
              (handle_ack_frame-Alike t))
            (both (Alike s) (leb 10 (length t.rx_bytes)) (check_header-Alike t) (refl, refl, refl)),
      )
  feed_in-Matches byte wait_payload s =
      both (Matches s) (leb s.rx_payload_size (length (s.rx_bytes ++ (byte ∷ [])) - 10))
        (refl, (refl, refl, refl)) (refl, (refl, refl, refl))
  feed_in-Matches byte wait_crc s =
      both (Matches s) (leb (s.rx_msg_len + 1) (length (s.rx_bytes ++ (byte ∷ []))))
        (validate_and_deliver-Matches (record s { rx_bytes = s.rx_bytes ++ (byte ∷ []) }))
        (refl, (refl, refl, refl))

  pub feed_byte-Matches :
      (byte : ℕ) (s : SerialTransport)
      → Matches s (feed_byte write cfg now byte s) (feed_byte write cfg 0 byte (erase s))
  unfolding feed_byte
  feed_byte-Matches byte s = feed_in-Matches byte s.rx_state s
