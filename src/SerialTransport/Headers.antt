-- ===== src/SerialTransport/Headers.antt =====
-- The header of a frame that Send builds, as the receiver reads it.
use mathlib.Core.List.{append-nil}
use newosp.Base.{
  bit_and, ◌+◌, ◌-◌, ◌%◌, ◌^◌, ◌≤◌, ◌<◌, ◌==◌, if◌then◌else◌, false, List, [], ◌∷◌, ◌++◌, ◌≡◌, refl,
  ltb, length, shr, arith, ap, sym, ◌∙◌, ℕ,
}
use newosp.SerialTransport.{
  SerialTransport, SerialConfig, idle, wait_sync2, wait_header, wait_payload, wait_crc, WriteResult,
  write_le16, read_le16, serial_magic, serial_ack_magic,
}
use newosp.SerialTransport.Receive.{check_header, feed_header, feed_in, feed_byte, expire, feed_all}
use newosp.SerialTransport.Send.{frame_body}
use newosp.SerialTransport.Bytes.{read_le16-write_le16}
use newosp.SerialTransport.Storing.{storing, feed_all_cons, expire-storing}

-- What a message needs so that its frame has 16-bit fields and is taken by a receiver.
pub record IsMessage (frame_max_size seq type_index : ℕ) (payload : List ℕ) : Type 0 where
  pub seq_fits : seq < 2 ^ 16
  pub type_fits : type_index < 2 ^ 16
  pub length_fits : 12 + length payload < 2 ^ 16
  pub frame_fits : 13 + length payload ≤ frame_max_size

-- The ten bytes of a header.
abbrev pub header : ℕ → ℕ → ℕ → List ℕ
header msg_len seq type_index = frame_body msg_len seq type_index []

pub frame_body-header :
    (msg_len seq type_index : ℕ) (payload : List ℕ)
    → frame_body msg_len seq type_index payload ≡ header msg_len seq type_index ++ payload
unfolding frame_body write_le16
frame_body-header msg_len seq type_index payload = refl

-- The fields of a body, whatever follows it.
module _ (msg_len seq type_index : ℕ) (payload more : List ℕ) where
  pub read_magic : read_le16 (frame_body msg_len seq type_index payload ++ more) 2 ≡ serial_magic
  unfolding frame_body write_le16 read_le16
  read_magic = refl

  pub read_msg_len :
      msg_len < 2 ^ 16 → read_le16 (frame_body msg_len seq type_index payload ++ more) 4 ≡ msg_len
  unfolding frame_body write_le16
  read_msg_len lt =
      read_le16-write_le16 (170 ∷ 85 ∷ write_le16 serial_magic)
        ((write_le16 seq ++ (write_le16 type_index ++ payload)) ++ more) (msg_len % 2 ^ 16) 4
        (omega arith) refl
      ∙ omega arith

  pub read_seq :
      seq < 2 ^ 16 → read_le16 (frame_body msg_len seq type_index payload ++ more) 6 ≡ seq
  unfolding frame_body write_le16
  read_seq lt =
      read_le16-write_le16 (170 ∷ 85 ∷ write_le16 serial_magic ++ write_le16 (msg_len % 2 ^ 16))
        ((write_le16 type_index ++ payload) ++ more) seq 6 lt refl

  pub read_type :
      type_index < 2 ^ 16
      → read_le16 (frame_body msg_len seq type_index payload ++ more) 8 ≡ type_index
  unfolding frame_body write_le16
  read_type lt =
      read_le16-write_le16
        (170 ∷ 85 ∷ write_le16 serial_magic ++ (write_le16 (msg_len % 2 ^ 16) ++ write_le16 seq))
        (payload ++ more) type_index 8 lt refl

-- After the header.
abbrev pub sized : SerialTransport → ℕ → SerialTransport
sized s n = record s { rx_msg_len = 12 + n; rx_payload_size = n }

-- The bytes of a header between the first two and the last.
abbrev pub seven : ℕ → ℕ → ℕ → List ℕ
seven msg_len seq type_index =
    83 ∷ 79 ∷ (write_le16 (msg_len % 2 ^ 16) ++ (write_le16 seq ++ (bit_and type_index 255 ∷ [])))

pub length-seven : (msg_len seq type_index : ℕ) → length (seven msg_len seq type_index) ≡ 7
unfolding write_le16
length-seven msg_len seq type_index = omega arith

pub seven_magic :
    (msg_len seq type_index : ℕ)
    → (read_le16 (170 ∷ 85 ∷ seven msg_len seq type_index) 2 == serial_ack_magic) ≡ false
unfolding write_le16 read_le16
seven_magic msg_len seq type_index = refl

module _ (write : ℕ → WriteResult) (cfg : SerialConfig) (now : ℕ) where
  pub expire-idle : (s : SerialTransport) → s.rx_state ≡ idle → expire cfg now s ≡ s
  unfolding expire
  expire-idle s e = rw e refl

  feed_byte_sync :
      (s : SerialTransport)
      → s.rx_state ≡ idle
      → feed_byte write cfg now 170 (record s { last_byte_time_ms = now })
        ≡ (false, storing s now wait_sync2 (170 ∷ []))
  unfolding feed_byte feed_in
  feed_byte_sync s e = ground arith

  pub start :
      (s : SerialTransport) (k : ℕ) (rest : List ℕ)
      → s.rx_state ≡ idle
      → feed_all write cfg now (170 ∷ 85 ∷ rest) (k, s)
        ≡ feed_all write cfg now rest (k, storing s now wait_header (170 ∷ 85 ∷ []))
  unfolding feed_byte feed_in
  start s k rest e =
      feed_all_cons write cfg now s (storing s now wait_sync2 (170 ∷ [])) k 170 (85 ∷ rest)
        (expire-idle s e) (feed_byte_sync s e)
      ∙ feed_all_cons write cfg now (storing s now wait_sync2 (170 ∷ []))
          (storing s now wait_header (170 ∷ 85 ∷ [])) k 85 rest
          (expire-storing write cfg now s wait_sync2 (170 ∷ [])) refl

  check_header_lem :
      (s : SerialTransport) (n seq type_index : ℕ)
      → 12 + n < 2 ^ 16
      → 13 + n ≤ cfg.frame_max_size
      → check_header cfg now (storing s now wait_header (header (12 + n) seq type_index))
        ≡ storing
            (sized s n)
            now
            (if ltb 0 n then wait_payload else wait_crc)
            (header (12 + n) seq type_index)
  unfolding check_header
  check_header_lem s n seq type_index fits room =
      let same = append-nil (header (12 + n) seq type_index) in
      let magic = ap (λ x. read_le16 x 2) (sym same) ∙ read_magic (12 + n) seq type_index [] [] in
      let len =
        ap (λ x. read_le16 x 4) (sym same) ∙ read_msg_len (12 + n) seq type_index [] [] fits in
      let small : (12 + n - 10 - 2) % 2 ^ 16 ≡ n = omega arith in
      let a : ltb cfg.frame_max_size (12 + n + 1) ≡ false = ground arith in
      let b : ltb (12 + n) 12 ≡ false = ground arith in rw (magic, len, small, a, b) refl

  pub feed_byte_last :
      (s : SerialTransport) (n seq type_index : ℕ)
      → 12 + n < 2 ^ 16
      → 13 + n ≤ cfg.frame_max_size
      → feed_byte write cfg now
          (bit_and (shr type_index 8) 255)
          (storing s now wait_header (170 ∷ 85 ∷ seven (12 + n) seq type_index))
        ≡ (
          false,
          storing
              (sized s n)
              now
              (if ltb 0 n then wait_payload else wait_crc)
              (header (12 + n) seq type_index),
        )
  unfolding feed_byte feed_in feed_header write_le16 frame_body read_le16
  feed_byte_last s n seq type_index fits room =
      ap (λ x. (false, x)) (check_header_lem s n seq type_index fits room)
