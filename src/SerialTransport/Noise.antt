-- ===== src/SerialTransport/Noise.antt =====
-- What is no frame: bytes before the first sync byte.
use newosp.Base.{
  ◌+◌, ◌%◌, ◌^◌, ◌<◌, false, List, [], ◌∷◌, ◌++◌, ◌≡◌, refl, length, arith, ◌∙◌, ℕ, All, ◌≢◌,
}
use newosp.SerialTransport.{SerialTransport, SerialConfig, idle, WriteResult, increment_error_count}
use newosp.SerialTransport.Receive.{up, sync_error, feed_in, feed_byte, feed_all}
use newosp.SerialTransport.Headers.{expire-idle}
use newosp.SerialTransport.Storing.{feed_all_cons}

module _ (write : ℕ → WriteResult) (cfg : SerialConfig) (now : ℕ) where
  feed_byte_noise :
      (s : SerialTransport) (b : ℕ)
      → s.rx_state ≡ idle
      → b ≢ 170
      → feed_byte write cfg now b s ≡ (false, sync_error now s)
  unfolding feed_byte feed_in
  feed_byte_noise s b waits ne = ground arith

  sync_error_keeps :
      (s : SerialTransport)
      → let t = sync_error now s in
        (t.rx_state ≡ s.rx_state)
        × (t.delivered ≡ s.delivered)
        × (t.rx_expected_seq ≡ s.rx_expected_seq)
        × (t.stats.sync_errors ≡ up s.stats.sync_errors)
  unfolding increment_error_count
  sync_error_keeps s = ground arith

  -- Bytes that are not the first sync byte, while the receiver waits for a frame, are skipped: each is
  -- counted as a sync error, on 64 bits, no frame is reported, and the receiver waits for a frame with the bytes
  -- that follow.
  pub noise_skipped :
      (noise rest : List ℕ) (k : ℕ) (s : SerialTransport)
      → All (λ b. b ≢ 170) noise
      → s.rx_state ≡ idle
      → s.stats.sync_errors < 2 ^ 64
      → (t : SerialTransport) × (feed_all write cfg now (noise ++ rest) (k, s)
          ≡ feed_all write cfg now rest (k, t))
        × (t.rx_state ≡ idle)
        × (t.delivered ≡ s.delivered)
        × (t.rx_expected_seq ≡ s.rx_expected_seq)
        × (t.stats.sync_errors ≡ (s.stats.sync_errors + length noise) % 2 ^ 64)
  noise_skipped [] rest k s clean waits word = (s, refl, waits, refl, refl, omega arith)
  noise_skipped (b ∷ noise) rest k s clean waits word =
      let late : SerialTransport = record s { last_byte_time_ms = now } in
      let (state, calls, next, errors) = sync_error_keeps late in
      let t = sync_error now late in
      let (u, fed, w, c, n, e) =
        noise_skipped noise rest k t clean.1 (state ∙ waits) (omega arith) in
      (
        u,
        feed_all_cons write cfg now s t k b (noise ++ rest) (expire-idle write cfg now s waits)
              (feed_byte_noise late b waits clean.0)
            ∙ fed,
        w,
        c ∙ calls,
        n ∙ next,
        omega arith,
      )
