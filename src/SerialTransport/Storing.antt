-- ===== src/SerialTransport/Storing.antt =====
-- How the bytes of a frame gather in the receiver's buffer.
use mathlib.Core.List.{append_assoc, append-nil}
use newosp.Base.{
  ◌+◌, ◌≤◌, ◌<◌, ◌==◌, false, List, [], ◌∷◌, ◌++◌, ◌≡◌, refl, length, arith, ap, ◌∙◌, length-append,
  ℕ,
}
use newosp.SerialTransport.{
  SerialTransport, SerialConfig, RxState, idle, wait_sync2, wait_header, wait_payload, wait_crc,
  WriteResult, elapsed, read_le16, serial_ack_magic,
}
use newosp.SerialTransport.Receive.{feed_header, feed_in, feed_byte, expire, feed_all}
use newosp.SerialTransport.Bytes.{read_le16-append}

-- The receiver `s` in a state with the bytes so far, the last of which came at `now`.
abbrev pub storing : SerialTransport → ℕ → RxState → List ℕ → SerialTransport
storing s now st l = record s { rx_state = st; rx_bytes = l; last_byte_time_ms = now }

pub elapsed_none : (now : ℕ) → elapsed now now ≡ 0
elapsed_none now = omega arith

module _ (write : ℕ → WriteResult) (cfg : SerialConfig) (now : ℕ) where
  -- A byte that does not come late.
  pub feed_all_cons :
      (s t : SerialTransport) (k b : ℕ) (rest : List ℕ)
      → expire cfg now s ≡ s
      → feed_byte write cfg now b (record s { last_byte_time_ms = now }) ≡ (false, t)
      → feed_all write cfg now (b ∷ rest) (k, s) ≡ feed_all write cfg now rest (k, t)
  unfolding feed_all
  feed_all_cons s t k b rest e f = rw (e, f) refl

  pub expire-storing :
      (s : SerialTransport) (st : RxState) (l : List ℕ)
      → expire cfg now (storing s now st l) ≡ storing s now st l
  unfolding expire
  expire-storing s idle l = refl
  expire-storing s wait_sync2 l = ground (arith, elapsed_none now)
  expire-storing s wait_header l = ground (arith, elapsed_none now)
  expire-storing s wait_payload l = ground (arith, elapsed_none now)
  expire-storing s wait_crc l = ground (arith, elapsed_none now)

  -- A byte of the header before the last, of a frame that is no acknowledgement.
  feed_byte-header :
      (s : SerialTransport) (l more : List ℕ) (b : ℕ)
      → length l < 9
      → (read_le16 ((l ++ (b ∷ [])) ++ more) 2 == serial_ack_magic) ≡ false
      → feed_byte write cfg now b (storing s now wait_header l)
        ≡ (false, storing s now wait_header (l ++ (b ∷ [])))
  unfolding feed_byte feed_in feed_header
  feed_byte-header s l more b lt plain =
      let same = read_le16-append (l ++ (b ∷ [])) more 2 in
      ground (arith, length-append l (b ∷ []), same)

  pub feed_all-header :
      (s : SerialTransport) (k : ℕ) (l bs rest : List ℕ)
      → length l + length bs < 10
      → (read_le16 (l ++ bs) 2 == serial_ack_magic) ≡ false
      → feed_all write cfg now (bs ++ rest) (k, storing s now wait_header l)
        ≡ feed_all write cfg now rest (k, storing s now wait_header (l ++ bs))
  feed_all-header s k l [] rest lt plain = rw (append-nil l) refl
  feed_all-header s k l (b ∷ bs) rest lt plain =
      let part = append_assoc l (b ∷ []) bs in
      let plain' : (read_le16 ((l ++ (b ∷ [])) ++ bs) 2 == serial_ack_magic) ≡ false =
        rw part plain in
      feed_all_cons (storing s now wait_header l) (storing s now wait_header (l ++ (b ∷ []))) k b
        (bs ++ rest) (expire-storing s wait_header l)
        (feed_byte-header s l bs b (omega arith) plain')
      ∙ feed_all-header s k (l ++ (b ∷ [])) bs rest (omega (arith, length-append l (b ∷ []))) plain'
      ∙ ap (λ x. feed_all write cfg now rest (k, storing s now wait_header x)) part

  -- The payload, the last byte of which ends the wait for it.
  pub feed_all-payload :
      (s : SerialTransport) (k : ℕ) (l : List ℕ) (b : ℕ) (bs rest : List ℕ)
      → 10 ≤ length l
      → length l + length (b ∷ bs) ≡ 10 + s.rx_payload_size
      → feed_all write cfg now ((b ∷ bs) ++ rest) (k, storing s now wait_payload l)
        ≡ feed_all write cfg now rest (k, storing s now wait_crc (l ++ (b ∷ bs)))
  unfolding feed_byte feed_in
  feed_all-payload s k l b [] rest ge e =
      feed_all_cons (storing s now wait_payload l) (storing s now wait_crc (l ++ (b ∷ []))) k b rest
        (expire-storing s wait_payload l) (ground (arith, length-append l (b ∷ [])))
  feed_all-payload s k l b (b' ∷ bs) rest ge e =
      feed_all_cons (storing s now wait_payload l) (storing s now wait_payload (l ++ (b ∷ []))) k b
        ((b' ∷ bs) ++ rest) (expire-storing s wait_payload l)
        (ground (arith, length-append l (b ∷ [])))
      ∙ feed_all-payload s k (l ++ (b ∷ [])) b' bs rest (omega (arith, length-append l (b ∷ [])))
          (omega (arith, length-append l (b ∷ [])))
      ∙ ap (λ x. feed_all write cfg now rest (k, storing s now wait_crc x))
          (append_assoc l (b ∷ []) (b' ∷ bs))

  -- The bytes after the payload but the last.
  pub feed_all_crc :
      (s : SerialTransport) (k : ℕ) (l bs rest : List ℕ)
      → length l + length bs ≤ s.rx_msg_len
      → feed_all write cfg now (bs ++ rest) (k, storing s now wait_crc l)
        ≡ feed_all write cfg now rest (k, storing s now wait_crc (l ++ bs))
  unfolding feed_byte feed_in
  feed_all_crc s k l [] rest le = rw (append-nil l) refl
  feed_all_crc s k l (b ∷ bs) rest le =
      feed_all_cons (storing s now wait_crc l) (storing s now wait_crc (l ++ (b ∷ []))) k b
        (bs ++ rest) (expire-storing s wait_crc l) (ground (arith, length-append l (b ∷ [])))
      ∙ feed_all_crc s k (l ++ (b ∷ [])) bs rest (omega (arith, length-append l (b ∷ [])))
      ∙ ap (λ x. feed_all write cfg now rest (k, storing s now wait_crc x))
          (append_assoc l (b ∷ []) bs)
