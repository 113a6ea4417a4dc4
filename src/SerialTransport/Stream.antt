-- ===== src/SerialTransport/Stream.antt =====
-- Frames one after the other, from a sender's port to a receiver.
use mathlib.Core.List.{append_assoc, append-nil}
use newosp.Base.{
  suc, ◌+◌, ◌%◌, ◌^◌, ◌≤◌, ◌<◌, true, List, [], ◌∷◌, ◌++◌, ◌≡◌, refl, length, arith, ap, sym, ◌∙◌,
  subst, ℕ, All,
}
use newosp.SerialTransport.{
  SerialTransport, SerialConfig, SerialStatistics, idle, Delivery, WriteResult,
}
use newosp.SerialTransport.Send.{build_frame, send_ack}
use newosp.SerialTransport.Receive.{up, check_seq, count_frame, acknowledge, call_back, feed_all}
use newosp.SerialTransport.Deliver.{receive}
use newosp.SerialTransport.Headers.{IsMessage}
use newosp.SerialTransport.Frames.{feed_all-build_frame}

pub record Message : Type 0 where
  pub type_index : ℕ
  pub payload : List ℕ

-- The frames of messages, the first of which has the number `seq`.
abbrev pub frames : ℕ → List Message → List ℕ
frames seq [] = []
frames seq (m ∷ ms) =
    build_frame (12 + length m.payload) seq m.type_index m.payload ++ frames ((seq + 1) % 2 ^ 16) ms

-- The calls of the callback that they are for.
abbrev pub deliveries : ℕ → List Message → List Delivery
deliveries seq [] = []
deliveries seq (m ∷ ms) =
    record { payload = m.payload; type_index = m.type_index; seq = seq }
    ∷ deliveries ((seq + 1) % 2 ^ 16) ms

-- A message that fits a frame.
pub record FitsFrame (frame_max_size : ℕ) (m : Message) : Type 0 where
  pub type_fits : m.type_index < 2 ^ 16
  pub length_fits : 12 + length m.payload < 2 ^ 16
  pub frame_fits : 13 + length m.payload ≤ frame_max_size

-- The statistics with so many frames more.
abbrev pub with_frames : SerialStatistics → ℕ → SerialStatistics
with_frames stats n = record stats { frames_received = n }

-- What messages in order leave of a receiver.
pub record Received (s : SerialTransport) (count seq : ℕ) (calls : List Delivery)
    (t : SerialTransport) : Type 0 where
  pub waits : t.rx_state ≡ idle
  pub next : t.rx_expected_seq ≡ seq
  pub called : t.delivered ≡ s.delivered ++ calls
  pub listens : t.has_callback ≡ true
  pub counted : t.stats ≡ with_frames s.stats ((s.stats.frames_received + count) % 2 ^ 64)

count_frame_in_order :
    (cfg : SerialConfig) (seq : ℕ) (s : SerialTransport)
    → s.rx_expected_seq ≡ seq
    → count_frame cfg seq s ≡ record s {
      rx_expected_seq = (seq + 1) % 2 ^ 16;
      stats = record s.stats { frames_received = up s.stats.frames_received };
    }
unfolding count_frame check_seq
count_frame_in_order cfg seq s e = ground arith

call_back_lem :
    (d : Delivery) (s : SerialTransport)
    → s.has_callback ≡ true
    → call_back d s ≡ record s { delivered = s.delivered ++ (d ∷ []) }
unfolding call_back
call_back_lem d s e = rw e refl

module _ (write : ℕ → WriteResult) (cfg : SerialConfig) (now : ℕ) where
  acknowledge_keeps :
      (seq : ℕ) (s : SerialTransport)
      → let t = acknowledge write cfg seq s in
        (t.rx_expected_seq ≡ s.rx_expected_seq)
        × (t.delivered ≡ s.delivered)
        × (t.has_callback ≡ s.has_callback)
        × (t.stats ≡ s.stats)
  unfolding acknowledge send_ack
  acknowledge_keeps seq s = ground arith

  receive-Received :
      (s : SerialTransport) (seq : ℕ) (m : Message)
      → s.has_callback ≡ true
      → s.rx_expected_seq ≡ seq
      → let d : Delivery = record { payload = m.payload; type_index = m.type_index; seq = seq } in
        Received s 1 ((seq + 1) % 2 ^ 16) (d ∷ []) (receive write cfg now d s)
  unfolding receive
  receive-Received s seq m has next =
      let d : Delivery = record { payload = m.payload; type_index = m.type_index; seq = seq } in
      let c = count_frame cfg seq s in
      let a = acknowledge write cfg seq c in
      let counted = count_frame_in_order cfg seq s next in
      let (same_next, same_calls, same_callback, same_stats) = acknowledge_keeps seq c in
      let last = call_back_lem d a (same_callback ∙ ap (λ x. x.has_callback) counted ∙ has) in
      record {
        waits = refl;
        next = ap (λ x. x.rx_expected_seq) last ∙ same_next ∙ ap (λ x. x.rx_expected_seq) counted;
        called =
            ap (λ x. x.delivered) last
            ∙ ap (λ x. x ++ (d ∷ [])) (same_calls ∙ ap (λ x. x.delivered) counted);
        listens =
            ap (λ x. x.has_callback) last ∙ same_callback ∙ ap (λ x. x.has_callback) counted ∙ has;
        counted = ap (λ x. x.stats) last ∙ same_stats ∙ ap (λ x. x.stats) counted;
      }

Received-trans :
    {s t u : SerialTransport} {c c' seq seq' : ℕ} {calls calls' : List Delivery}
    → Received s c seq calls t
    → Received t c' seq' calls' u
    → Received s (c + c') seq' (calls ++ calls') u
Received-trans {s} {t} {u} {c} {c'} {seq} {seq'} {calls} {calls'} h h' = record {
  waits = h'.waits;
  next = h'.next;
  called = h'.called ∙ ap (λ x. x ++ calls') h.called ∙ append_assoc s.delivered calls calls';
  listens = h'.listens;
  counted =
      h'.counted
      ∙ ap (λ x. with_frames x ((x.frames_received + c') % 2 ^ 64)) h.counted
      ∙ ap (with_frames s.stats) {x = ((s.stats.frames_received + c) % 2 ^ 64 + c') % 2 ^ 64}
          {y = (s.stats.frames_received + (c + c')) % 2 ^ 64} (omega arith);
}

module _ (write : ℕ → WriteResult) (cfg : SerialConfig) (now : ℕ) where
  -- Frames that come one after the other to a receiver that waits for the first are all received: the
  -- callback gets the messages in order, no error and no gap is counted.
  pub feed_all-frames :
      (ms : List Message) (seq k : ℕ) (s : SerialTransport)
      → All (FitsFrame cfg.frame_max_size) ms
      → seq < 2 ^ 16
      → s.rx_state ≡ idle
      → s.has_callback ≡ true
      → s.rx_expected_seq ≡ seq
      → s.stats.frames_received < 2 ^ 64
      → (t : SerialTransport) × (feed_all write cfg now (frames seq ms) (k, s) ≡ (k + length ms, t))
        × Received s (length ms) ((seq + length ms) % 2 ^ 16) (deliveries seq ms) t
  unfolding feed_all
  feed_all-frames [] seq k s fits lt waits has next word = (
    s,
    ap (λ n. (n, s)) {x = k} (omega arith),
    record {
      waits = waits;
      next = next ∙ omega arith;
      called = sym (append-nil s.delivered);
      listens = has;
      counted =
          ap (with_frames s.stats) {x = s.stats.frames_received}
            {y = (s.stats.frames_received + 0) % 2 ^ 64} (omega arith);
    },
  )
  feed_all-frames (m ∷ ms) seq k s fits lt waits has next word =
      let d : Delivery = record { payload = m.payload; type_index = m.type_index; seq = seq } in
      let one = receive-Received write cfg now s seq m has next in
      let t = receive write cfg now d s in
      let (u, fed, more) =
        feed_all-frames ms ((seq + 1) % 2 ^ 16) (k + 1) t fits.1 (omega arith) one.waits one.listens
          one.next (omega (arith, ap (λ x. x.frames_received) one.counted)) in
      let message : IsMessage cfg.frame_max_size seq m.type_index m.payload = record {
        seq_fits = lt;
        type_fits = fits.0.type_fits;
        length_fits = fits.0.length_fits;
        frame_fits = fits.0.frame_fits;
      } in
      (
        u,
        feed_all-build_frame write cfg now s k seq m.type_index m.payload
              (frames ((seq + 1) % 2 ^ 16) ms) waits message
            ∙ fed
            ∙ ap (λ n. (n, u)) {x = k + 1 + length ms} (omega arith),
        subst (λ n. Received s (suc (length ms)) n (deliveries seq (m ∷ ms)) u)
            {x = ((seq + 1) % 2 ^ 16 + length ms) % 2 ^ 16} (omega arith)
            (subst
              (λ n.
                Received s n (((seq + 1) % 2 ^ 16 + length ms) % 2 ^ 16) (deliveries seq (m ∷ ms))
                  u)
              {x = 1 + length ms} (omega arith) (Received-trans one more)),
      )
