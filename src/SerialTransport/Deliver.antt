-- ===== src/SerialTransport/Deliver.antt =====
-- What the end of a frame that Send builds makes of the receiver.
use mathlib.Core.List.{append_assoc}
use newosp.Base.{
  ◌+◌, ◌-◌, ◌==◌, true, List, [], ◌∷◌, ◌++◌, ◌≡◌, refl, length, take, drop, get_or, arith, ap, sym,
  ◌∙◌, get_or-append_right, take-append, drop-append, ℕ,
}
use newosp.SerialTransport.Receive.{
  call_back, acknowledge, count_frame, accept, check_seq, deliver, validate_and_deliver, feed_byte,
  expire, feed_all,
}
use newosp.SerialTransport.{
  SerialTransport, SerialConfig, idle, wait_crc, Delivery, WriteResult, write_le16, read_le16,
  reset_rx_state, serial_tail_byte,
}
use newosp.SerialTransport.Send.{frame_body, build_frame, send_ack}
use newosp.SerialTransport.Bytes.{read_le16-write_le16, length-write_le16}
use newosp.SerialTransport.Crc.{calculate, calculate-lt}
use newosp.SerialTransport.Storing.{storing}
use newosp.SerialTransport.Headers.{
  IsMessage, header, frame_body-header, read_seq, read_type, sized,
}

-- The CRC and the tail byte.
abbrev pub trailer : ℕ → List ℕ
trailer crc = write_le16 crc ++ (serial_tail_byte ∷ [])

pub length-frame_body :
    (msg_len seq type_index : ℕ) (payload : List ℕ)
    → length (frame_body msg_len seq type_index payload) ≡ 10 + length payload
unfolding frame_body write_le16
length-frame_body msg_len seq type_index payload = omega arith

module _ (write : ℕ → WriteResult) (cfg : SerialConfig) (now : ℕ) where
  pub feed_all_done :
      (s t : SerialTransport) (k b : ℕ) (rest : List ℕ)
      → expire cfg now s ≡ s
      → feed_byte write cfg now b (record s { last_byte_time_ms = now }) ≡ (true, t)
      → feed_all write cfg now (b ∷ rest) (k, s)
        ≡ feed_all write cfg now rest (k + 1, record t { last_rx_time_ms = now })
  unfolding feed_all
  feed_all_done s t k b rest e f = rw (e, f) refl

  -- What a receiver does with a message, with no word of bytes.
  unfoldable pub receive : Delivery → SerialTransport → SerialTransport
  receive message s = record (accept write cfg message s) {
    rx_state = idle;
    rx_bytes = [];
    rx_msg_len = 12 + length message.payload;
    rx_payload_size = length message.payload;
    last_byte_time_ms = now;
    last_rx_time_ms = now;
  }

  count_frame-storing :
      (s : SerialTransport) (seq n : ℕ) (l : List ℕ)
      → count_frame cfg seq (storing (sized s n) now wait_crc l)
        ≡ storing (sized (count_frame cfg seq s) n) now wait_crc l
  unfolding count_frame check_seq
  count_frame-storing s seq n l = ground arith

  acknowledge-storing :
      (s : SerialTransport) (seq n : ℕ) (l : List ℕ)
      → acknowledge write cfg seq (storing (sized s n) now wait_crc l)
        ≡ storing (sized (acknowledge write cfg seq s) n) now wait_crc l
  unfolding acknowledge send_ack
  acknowledge-storing s seq n l = ground arith

  call_back-storing :
      (s : SerialTransport) (message : Delivery) (n : ℕ) (l : List ℕ)
      → call_back message (storing (sized s n) now wait_crc l)
        ≡ storing (sized (call_back message s) n) now wait_crc l
  unfolding call_back
  call_back-storing s message n l = ground arith

  accept-storing :
      (s : SerialTransport) (message : Delivery) (n : ℕ) (l : List ℕ)
      → accept write cfg message (storing (sized s n) now wait_crc l)
        ≡ storing (sized (accept write cfg message s) n) now wait_crc l
  accept-storing s message n l =
      let counted = count_frame cfg message.seq s in
      let acked = acknowledge write cfg message.seq counted in
      ap (λ x. call_back message (acknowledge write cfg message.seq x))
        (count_frame-storing s message.seq n l)
      ∙ ap (call_back message) (acknowledge-storing counted message.seq n l)
      ∙ call_back-storing acked message n l

  pub deliver_lem :
      (s : SerialTransport) (seq type_index : ℕ) (payload : List ℕ)
      → IsMessage cfg.frame_max_size seq type_index payload
      → let n = length payload in
        record (deliver write cfg
          (storing (sized s n) now wait_crc (build_frame (12 + n) seq type_index payload))) {
            last_rx_time_ms = now;
          }
        ≡ receive (record { payload = payload; type_index = type_index; seq = seq }) s
  unfolding deliver build_frame receive
  deliver_lem s seq type_index payload fits =
      let n = length payload in
      let body = frame_body (12 + n) seq type_index payload in
      let end = trailer (calculate body) in
      let a = read_seq (12 + n) seq type_index payload end fits.seq_fits in
      let b = read_type (12 + n) seq type_index payload end fits.type_fits in
      let split : body ++ end ≡ header (12 + n) seq type_index ++ (payload ++ end) =
        ap (λ x. x ++ end) (frame_body-header (12 + n) seq type_index payload)
        ∙ append_assoc (header (12 + n) seq type_index) payload end in
      let c : take n (drop 10 (body ++ end)) ≡ payload =
        ap (λ x. take n (drop 10 x)) split
        ∙ ap (take n) (
            drop-append (header (12 + n) seq type_index) (payload ++ end) 10
              (sym (length-frame_body (12 + n) seq type_index [])))
        ∙ take-append payload end n refl in
      let m : Delivery = record { payload = payload; type_index = type_index; seq = seq } in
      rw (a, b, c)
        (ap (λ t. record (reset_rx_state t) { last_rx_time_ms = now })
          (accept-storing s m n (body ++ end)))

  pub validate_and_deliver-frame :
      (s : SerialTransport) (seq type_index : ℕ) (payload : List ℕ)
      → IsMessage cfg.frame_max_size seq type_index payload
      → let n = length payload in
        let t = storing (sized s n) now wait_crc (build_frame (12 + n) seq type_index payload) in
        validate_and_deliver write cfg now t ≡ (true, deliver write cfg t)
  unfolding validate_and_deliver build_frame
  validate_and_deliver-frame s seq type_index payload fits =
      let n = length payload in
      let body = frame_body (12 + n) seq type_index payload in
      let crc = calculate body in
      let len = length-frame_body (12 + n) seq type_index payload in
      let two = length-write_le16 crc in
      let tail : get_or (body ++ trailer crc) (12 + n) 0 ≡ 13 =
        get_or-append_right body (trailer crc) (12 + n) 2 0 (omega arith)
        ∙ get_or-append_right (write_le16 crc) (13 ∷ []) 2 0 0 (omega arith) in
      let before : take (12 + n - 2) (body ++ trailer crc) ≡ body =
        take-append body (trailer crc) (12 + n - 2) (omega arith) in
      let crc_read : read_le16 (body ++ trailer crc) (12 + n - 2) ≡ crc =
        read_le16-write_le16 body (13 ∷ []) crc (12 + n - 2) (calculate-lt body) (omega arith) in
      let same : (crc == crc) ≡ true = ground arith in rw (tail, before, crc_read, same) refl
