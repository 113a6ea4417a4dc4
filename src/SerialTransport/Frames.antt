-- ===== src/SerialTransport/Frames.antt =====
-- A frame that Send builds is what the receiver takes it for.
use mathlib.Core.List.{append_assoc, append-nil}
use newosp.Base.{
  bit_and, ◌+◌, if◌then◌else◌, true, List, [], ◌∷◌, ◌++◌, ◌≡◌, ltb, leb, length, shr, arith, ap,
  sym, ◌∙◌, length-append, ℕ,
}
use newosp.SerialTransport.{
  SerialTransport, SerialConfig, idle, wait_header, wait_payload, wait_crc, WriteResult, write_le16,
}
use newosp.SerialTransport.Receive.{deliver, feed_in, feed_byte, feed_all}
use newosp.SerialTransport.Send.{frame_body, build_frame}
use newosp.SerialTransport.Bytes.{length-write_le16}
use newosp.SerialTransport.Crc.{calculate}
use newosp.SerialTransport.Storing.{
  storing, feed_all_cons, expire-storing, feed_all-header, feed_all-payload, feed_all_crc,
}
use newosp.SerialTransport.Headers.{
  IsMessage, header, frame_body-header, start, sized, seven, length-seven, seven_magic,
  feed_byte_last,
}
use newosp.SerialTransport.Deliver.{
  trailer, receive, length-frame_body, feed_all_done, deliver_lem, validate_and_deliver-frame,
}

module _ (write : ℕ → WriteResult) (cfg : SerialConfig) (now : ℕ) where
  -- After the header: the payload, the CRC and the tail.
  feed_all_rest :
      (s : SerialTransport) (k seq type_index : ℕ) (payload rest : List ℕ)
      → IsMessage cfg.frame_max_size seq type_index payload
      → let n = length payload in
        let head = header (12 + n) seq type_index in
        let end = trailer (calculate (frame_body (12 + n) seq type_index payload)) in
        feed_all write cfg now
          (payload ++ (end ++ rest))
          (k, storing (sized s n) now (if ltb 0 n then wait_payload else wait_crc) head)
        ≡ feed_all write cfg now
            (end ++ rest)
            (k, storing (sized s n) now wait_crc (head ++ payload))
  feed_all_rest s k seq type_index [] rest fits =
      ap
        (λ x.
          feed_all write cfg now (trailer (calculate (frame_body 12 seq type_index [])) ++ rest)
            (k, storing (sized s 0) now wait_crc x))
        (sym (append-nil (header 12 seq type_index)))
  feed_all_rest s k seq type_index (b ∷ bs) rest fits =
      let n = length (b ∷ bs) in
      let head = header (12 + n) seq type_index in
      let end = trailer (calculate (frame_body (12 + n) seq type_index (b ∷ bs))) in
      let some_payload : ltb 0 n ≡ true = ground arith in
      let ten = length-frame_body (12 + n) seq type_index [] in
      rw some_payload (
        feed_all-payload write cfg now (sized s n) k head b bs (end ++ rest) (omega arith)
          (omega arith))

  feed_byte_tail :
      (s : SerialTransport) (seq type_index : ℕ) (payload : List ℕ)
      → IsMessage cfg.frame_max_size seq type_index payload
      → let n = length payload in
        let body = frame_body (12 + n) seq type_index payload in
        feed_byte write cfg now 13
          (storing (sized s n) now wait_crc (body ++ write_le16 (calculate body)))
        ≡ (
          true,
          deliver write cfg
              (storing (sized s n) now wait_crc (build_frame (12 + n) seq type_index payload)),
        )
  unfolding feed_byte feed_in build_frame
  feed_byte_tail s seq type_index payload fits =
      let n = length payload in
      let body = frame_body (12 + n) seq type_index payload in
      let crc = write_le16 (calculate body) in
      let two = length-write_le16 (calculate body) in
      let len = length-frame_body (12 + n) seq type_index payload in
      let all = append_assoc body crc (13 ∷ []) in
      let enough : leb (12 + n + 1) (length (body ++ (crc ++ (13 ∷ [])))) ≡ true =
        ground (arith, length-append body (crc ++ (13 ∷ [])), length-append crc (13 ∷ [])) in
      rw (all, enough) (validate_and_deliver-frame write cfg now s seq type_index payload fits)

  feed_all_end :
      (s : SerialTransport) (k seq type_index : ℕ) (payload rest : List ℕ)
      → IsMessage cfg.frame_max_size seq type_index payload
      → let n = length payload in
        let body = frame_body (12 + n) seq type_index payload in
        feed_all write cfg now
          (trailer (calculate body) ++ rest)
          (k, storing (sized s n) now wait_crc body)
        ≡ feed_all write cfg now rest (
          k + 1,
          receive write cfg now
              (record { payload = payload; type_index = type_index; seq = seq })
              s,
        )
  feed_all_end s k seq type_index payload rest fits =
      let n = length payload in
      let body = frame_body (12 + n) seq type_index payload in
      let crc = write_le16 (calculate body) in
      let two = length-write_le16 (calculate body) in
      let len = length-frame_body (12 + n) seq type_index payload in
      let full = storing (sized s n) now wait_crc (build_frame (12 + n) seq type_index payload) in
      ap (λ x. feed_all write cfg now x (k, storing (sized s n) now wait_crc body))
        (append_assoc crc (13 ∷ []) rest)
      ∙ feed_all_crc write cfg now (sized s n) k body crc (13 ∷ rest) (omega arith)
      ∙ feed_all_done write cfg now (storing (sized s n) now wait_crc (body ++ crc))
          (deliver write cfg full) k 13 rest
          (expire-storing write cfg now (sized s n) wait_crc (body ++ crc))
          (feed_byte_tail s seq type_index payload fits)
      ∙ ap (λ x. feed_all write cfg now rest (k + 1, x))
          (deliver_lem write cfg now s seq type_index payload fits)

  frame_split :
      (msg_len seq type_index : ℕ) (payload rest : List ℕ)
      → build_frame msg_len seq type_index payload ++ rest
        ≡ 170 ∷ 85 ∷ seven msg_len seq type_index
          ++ (bit_and (shr type_index 8) 255 ∷ payload
              ++ (trailer (calculate (frame_body msg_len seq type_index payload)) ++ rest))
  unfolding build_frame frame_body write_le16
  frame_split msg_len seq type_index payload rest =
      let end = trailer (calculate (frame_body msg_len seq type_index payload)) in
      ap (λ x. header msg_len seq type_index ++ x) (append_assoc payload end rest)

  -- A frame that Send builds, fed to a receiver that waits for one, is one frame for it: it gets the
  -- payload, the type and the number that were sent, and waits for the next with the bytes after it.
  pub feed_all-build_frame :
      (s : SerialTransport) (k seq type_index : ℕ) (payload rest : List ℕ)
      → s.rx_state ≡ idle
      → IsMessage cfg.frame_max_size seq type_index payload
      → feed_all write cfg now
          (build_frame (12 + length payload) seq type_index payload ++ rest)
          (k, s)
        ≡ feed_all write cfg now rest (
          k + 1,
          receive write cfg now
              (record { payload = payload; type_index = type_index; seq = seq })
              s,
        )
  feed_all-build_frame s k seq type_index payload rest waits fits =
      let n = length payload in
      let end = trailer (calculate (frame_body (12 + n) seq type_index payload)) in
      let last = bit_and (shr type_index 8) 255 in
      let next = payload ++ (end ++ rest) in
      let nine = 170 ∷ 85 ∷ seven (12 + n) seq type_index in
      ap (λ x. feed_all write cfg now x (k, s)) (frame_split (12 + n) seq type_index payload rest)
      ∙ start write cfg now s k (seven (12 + n) seq type_index ++ (last ∷ next)) waits
      ∙ feed_all-header write cfg now s k (170 ∷ 85 ∷ []) (seven (12 + n) seq type_index)
          (last ∷ next) (omega (arith, length-seven (12 + n) seq type_index))
          (seven_magic (12 + n) seq type_index)
      ∙ feed_all_cons write cfg now (storing s now wait_header nine)
          (storing (sized s n) now (if ltb 0 n then wait_payload else wait_crc)
            (header (12 + n) seq type_index))
          k last next (expire-storing write cfg now s wait_header nine)
          (feed_byte_last write cfg now s n seq type_index fits.length_fits fits.frame_fits)
      ∙ feed_all_rest s k seq type_index payload rest fits
      ∙ ap (λ x. feed_all write cfg now (end ++ rest) (k, storing (sized s n) now wait_crc x))
          (sym (frame_body-header (12 + n) seq type_index payload))
      ∙ feed_all_end s k seq type_index payload rest fits
