-- ===== src/SerialTransport/Bounds.antt =====
-- The receiver never writes outside its buffer.
use newosp.Base.{
  if_intro, ◌+◌, ◌-◌, ◌%◌, ◌^◌, ◌≤◌, ◌<◌, ◌==◌, Bool, ◌&&◌, ◌||◌, not, List, [], ◌∷◌, ◌++◌, ◌≡◌,
  refl, ltb, leb, length, take, get_or, arith, subst, length-append, ℕ,
}
use newosp.SerialTransport.{
  SerialTransport, SerialConfig, RxState, idle, wait_sync2, wait_header, wait_payload, wait_crc,
  WriteResult, read_le16, increment_error_count, serial_magic, serial_ack_magic, serial_tail_byte,
  max_frame_size,
}
use newosp.SerialTransport.Receive.{
  check_header, feed_header, deliver, validate_and_deliver, feed_in, feed_byte, expire, feed_all,
  poll_loop, poll,
}
use newosp.SerialTransport.Crc.{calculate}

-- How many bytes the receiver has in each state, by the length and the payload's size of the header.
abbrev pub Fits : ℕ → RxState → ℕ → ℕ → ℕ → Type 0
Fits frame_max_size idle pos msg_len size = pos ≡ 0
Fits frame_max_size wait_sync2 pos msg_len size = pos ≡ 1
Fits frame_max_size wait_header pos msg_len size = (2 ≤ pos) × (pos < 10)
Fits frame_max_size wait_payload pos msg_len size =
    (10 ≤ pos) × (pos < 10 + size) × (msg_len ≡ 12 + size) × (msg_len + 1 ≤ frame_max_size)
Fits frame_max_size wait_crc pos msg_len size =
    (10 + size ≤ pos) × (pos ≤ msg_len) × (msg_len ≡ 12 + size) × (msg_len + 1 ≤ frame_max_size)

abbrev pub RxFits : SerialConfig → SerialTransport → Type 0
RxFits cfg s = Fits cfg.frame_max_size s.rx_state (length s.rx_bytes) s.rx_msg_len s.rx_payload_size

read_le16-lt : (p : List ℕ) (at : ℕ) → read_le16 p at < 2 ^ 16
unfolding read_le16
read_le16-lt p at = omega arith

check_header-RxFits :
    (cfg : SerialConfig) (now : ℕ) (s : SerialTransport)
    → length s.rx_bytes ≡ 10
    → RxFits cfg (check_header cfg now s)
unfolding check_header
check_header-RxFits cfg now s ten =
    let small = read_le16-lt s.rx_bytes 4 in
    let msg_len = read_le16 s.rx_bytes 4 in
    let size = (msg_len - 10 - 2) % 2 ^ 16 in
    if_intro (RxFits cfg) (not (read_le16 s.rx_bytes 2 == serial_magic)) (λ e. refl)
      (λ e.
        if_intro (RxFits cfg) (ltb cfg.frame_max_size (msg_len + 1) || ltb msg_len 12) (λ e'. refl)
          (λ e'. ground arith))

module _ (write : ℕ → WriteResult) (cfg : SerialConfig) (now : ℕ) where
  validate_and_deliver-RxFits :
      (s : SerialTransport) → RxFits cfg (validate_and_deliver write cfg now s).1
  unfolding validate_and_deliver deliver
  validate_and_deliver-RxFits s =
      if_intro (λ (r : Bool × SerialTransport). RxFits cfg r.1)
        (not (get_or s.rx_bytes s.rx_msg_len 0 == serial_tail_byte)) (λ e. refl)
        (λ e.
          if_intro (λ (r : Bool × SerialTransport). RxFits cfg r.1)
            (not (
              calculate (take (s.rx_msg_len - 2) s.rx_bytes)
              == read_le16 s.rx_bytes (s.rx_msg_len - 2)))
            (λ e'. refl) (λ e'. refl))

  feed_in-RxFits :
      (s : SerialTransport) (byte : ℕ) (st : RxState)
      → s.rx_state ≡ st
      → RxFits cfg s
      → RxFits cfg (feed_in write cfg now byte st s).1
  unfolding feed_in feed_header increment_error_count
  feed_in-RxFits s byte idle e h = ground arith
  feed_in-RxFits s byte wait_sync2 e h = ground (arith, length-append s.rx_bytes (byte ∷ []))
  feed_in-RxFits s byte wait_header e h =
      let t = record s { rx_bytes = s.rx_bytes ++ (byte ∷ []) } in
      let one = length-append s.rx_bytes (byte ∷ []) in
      let was =
        subst (λ st. Fits cfg.frame_max_size st (length s.rx_bytes) s.rx_msg_len s.rx_payload_size)
          e h in
      if_intro (RxFits cfg)
        (leb 8 (length t.rx_bytes) && (read_le16 t.rx_bytes 2 == serial_ack_magic)) (λ e'. refl)
        (λ e'.
          if_intro (RxFits cfg) (leb 10 (length t.rx_bytes))
            (λ full. check_header-RxFits cfg now t (ground arith)) (λ part. ground arith))
  feed_in-RxFits s byte wait_payload e h = ground (arith, length-append s.rx_bytes (byte ∷ []))
  feed_in-RxFits s byte wait_crc e h =
      let t = record s { rx_bytes = s.rx_bytes ++ (byte ∷ []) } in
      if_intro (λ (r : Bool × SerialTransport). RxFits cfg r.1)
        (leb (s.rx_msg_len + 1) (length t.rx_bytes)) (λ full. validate_and_deliver-RxFits t)
        (λ part. ground (arith, length-append s.rx_bytes (byte ∷ [])))

  expire-RxFits : (s : SerialTransport) → RxFits cfg s → RxFits cfg (expire cfg now s)
  unfolding expire
  expire-RxFits s h = ground arith

  feed_all-RxFits :
      (bytes : List ℕ) (k : ℕ) (s : SerialTransport)
      → RxFits cfg s
      → RxFits cfg (feed_all write cfg now bytes (k, s)).1
  unfolding feed_all feed_byte
  feed_all-RxFits [] k s h = h
  feed_all-RxFits (byte ∷ bytes) k s h =
      let t = record (expire cfg now s) { last_byte_time_ms = now } in
      let fed = feed_in-RxFits t byte t.rx_state refl (expire-RxFits s h) in
      let (done, next) = feed_byte write cfg now byte t in
      if_intro (λ (r : ℕ × SerialTransport). RxFits cfg (feed_all write cfg now bytes r).1) done
        (λ e. feed_all-RxFits bytes (k + 1) (record next { last_rx_time_ms = now }) fed)
        (λ e. feed_all-RxFits bytes k next fed)

pub Fits-lt :
    (frame_max_size pos msg_len size : ℕ) (st : RxState)
    → Fits frame_max_size st pos msg_len size
    → frame_max_size ≤ max_frame_size
    → pos < max_frame_size
Fits-lt frame_max_size pos msg_len size idle h le = omega arith
Fits-lt frame_max_size pos msg_len size wait_sync2 h le = omega arith
Fits-lt frame_max_size pos msg_len size wait_header h le = omega arith
Fits-lt frame_max_size pos msg_len size wait_payload h le = omega arith
Fits-lt frame_max_size pos msg_len size wait_crc h le = omega arith

module _ (write : ℕ → WriteResult) (cfg : SerialConfig) where
  poll_loop-RxFits :
      (reads : List (ℕ × List ℕ)) (k : ℕ) (s : SerialTransport)
      → RxFits cfg s
      → RxFits cfg (poll_loop write cfg reads (k, s)).1
  unfolding poll_loop
  poll_loop-RxFits [] k s h = h
  poll_loop-RxFits ((now, bytes) ∷ reads) k s h =
      let t = record s {
        stats = record s.stats {
          bytes_received = (s.stats.bytes_received + length bytes) % 2 ^ 64;
        };
      } in
      let r = feed_all write cfg now bytes (k, t) in
      poll_loop-RxFits reads r.0 r.1 (feed_all-RxFits write cfg now bytes k t h)

  -- Whatever bytes arrive, in whatever reads: from a state that fits its buffer the receiver comes to a
  -- state that fits it, in which the next byte has a place, if the configured frames are not longer than
  -- the buffer.
  pub poll-RxFits :
      (reads : List (ℕ × List ℕ)) (s : SerialTransport)
      → cfg.frame_max_size ≤ max_frame_size
      → RxFits cfg s
      → let t = (poll write cfg reads s).1 in RxFits cfg t × (length t.rx_bytes < max_frame_size)
  unfolding poll
  poll-RxFits reads s le h =
      let fits : RxFits cfg (poll write cfg reads s).1 =
        if_intro (λ (r : ℕ × SerialTransport). RxFits cfg r.1) (not s.is_open) (λ e. h)
          (λ e. poll_loop-RxFits reads 0 s h) in
      let t = (poll write cfg reads s).1 in
      (
        fits,
        Fits-lt cfg.frame_max_size (length t.rx_bytes) t.rx_msg_len t.rx_payload_size t.rx_state
            fits le,
      )
