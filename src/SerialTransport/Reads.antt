-- ===== src/SerialTransport/Reads.antt =====
-- Poll on bytes that come in several reads, each with its reading of the clock.
use newosp.Base.{
  ℕ, suc, ◌+◌, ◌%◌, ◌^◌, ◌≤◌, ◌<◌, ◌≡◌, refl, sym, ap, ◌∙◌, Bool, true, false, if◌then◌else◌, List,
  [], ◌∷◌, ◌++◌, length, length-append, arith, subst, if_intro, not, inl, inr, ◌⊎◌,
}
use newosp.SerialTransport.{idle, SerialTransport, SerialConfig, WriteResult}
use newosp.SerialTransport.Receive.{feed_byte, expire, feed_all, poll_loop, poll}
use newosp.SerialTransport.Timing.{erase, Matches, feed_byte-Matches}

-- The bytes of some reads.
abbrev pub all_bytes : List (ℕ × List ℕ) → List ℕ
all_bytes [] = []
all_bytes ((now, bytes) ∷ reads) = bytes ++ all_bytes reads

-- Reads that give bytes, the first of them at most so much later than a time and each at most so much later than
-- the one before.
abbrev pub Timely : ℕ → ℕ → List (ℕ × List ℕ) → Type 0
Timely timeout last [] = Unit
Timely timeout last ((now, bytes) ∷ reads) =
    (0 < length bytes) × (last ≤ now) × (now ≤ last + timeout) × Timely timeout now reads

-- What a run leaves, from a count of frames `k` and of bytes `n`, and one from `j` that reads the clock as 0.
record Follows (k j n : ℕ) (r r' : ℕ × SerialTransport) : Type 0 where
  counts : r.0 + j ≡ r'.0 + k
  same : erase r.1 ≡ erase r'.1
  bytes : r.1.stats.bytes_received ≡ n
  untimed : r'.1.last_byte_time_ms ≡ 0

Follows-trans :
    {k j n : ℕ} {p p' r r' : ℕ × SerialTransport}
    → Follows k j n p p'
    → Follows p.0 p'.0 p.1.stats.bytes_received r r'
    → Follows k j n r r'
Follows-trans h h' = record {
  counts = omega (arith, h.counts, h'.counts);
  same = h'.same;
  bytes = h'.bytes ∙ h.bytes;
  untimed = h'.untimed;
}

abbrev count_done : ℕ → ℕ → Bool × SerialTransport → ℕ × SerialTransport
count_done now k (done, t) = if done then (k + 1, record t { last_rx_time_ms = now }) else (k, t)

-- The same where nothing is asked of the first read.
abbrev pub Spaced : ℕ → List (ℕ × List ℕ) → Type 0
Spaced timeout [] = Unit
Spaced timeout ((now, bytes) ∷ reads) = (0 < length bytes) × Timely timeout now reads

module _ (write : ℕ → WriteResult) (cfg : SerialConfig) where
  expire_within :
      (now : ℕ) (s : SerialTransport)
      → s.last_byte_time_ms ≤ now
      → now ≤ s.last_byte_time_ms + cfg.inter_byte_timeout_ms
      → expire cfg now s ≡ s
  unfolding expire
  expire_within now s from to = ground arith

  -- The receiver waits for a frame, or its wait for a byte is not too long.
  abbrev pub InTime : ℕ → SerialTransport → Type 0
  InTime now s =
      (s.rx_state ≡ idle)
      ⊎ ((s.last_byte_time_ms ≤ now) × (now ≤ s.last_byte_time_ms + cfg.inter_byte_timeout_ms))

  expire-InTime : (now : ℕ) (s : SerialTransport) → InTime now s → expire cfg now s ≡ s
  unfolding expire
  expire-InTime now s (inl waits) = ground arith
  expire-InTime now s (inr (from, to)) = expire_within now s from to

  expire_zero : (s : SerialTransport) → s.last_byte_time_ms ≡ 0 → expire cfg 0 s ≡ s
  unfolding expire
  expire_zero s e = ground arith

  count_done-Follows :
      (now k j : ℕ) (s : SerialTransport) (x x' : Bool × SerialTransport)
      → Matches s x x'
      → x'.1.last_byte_time_ms ≡ 0
      → Follows k j s.stats.bytes_received (count_done now k x) (count_done 0 j x')
        × ((count_done now k x).1.last_byte_time_ms ≡ s.last_byte_time_ms)
  count_done-Follows now k j s (true, t) (true, t') h z =
      (record { counts = omega arith; same = h.1.0; bytes = h.1.2; untimed = z }, h.1.1)
  count_done-Follows now k j s (false, t) (false, t') h z =
      (record { counts = omega arith; same = h.1.0; bytes = h.1.2; untimed = z }, h.1.1)
  count_done-Follows now k j s (true, t) (false, t') h z = absurd cc
  count_done-Follows now k j s (false, t) (true, t') h z = absurd cc

  -- The byte at hand, when the wait for it was not too long.
  abbrev fed : ℕ → ℕ → ℕ → SerialTransport → ℕ × SerialTransport
  fed now byte k s =
      count_done now k (feed_byte write cfg now byte (record s { last_byte_time_ms = now }))

  feed_all-cons :
      (now byte k : ℕ) (bytes : List ℕ) (s : SerialTransport)
      → expire cfg now s ≡ s
      → feed_all write cfg now (byte ∷ bytes) (k, s)
        ≡ feed_all write cfg now bytes (fed now byte k s)
  unfolding feed_all
  feed_all-cons now byte k bytes s e = rw e refl

  fed-Follows :
      (now byte k j : ℕ) (s s' : SerialTransport)
      → erase s ≡ erase s'
      → Follows k j s.stats.bytes_received (fed now byte k s) (fed 0 byte j s')
        × ((fed now byte k s).1.last_byte_time_ms ≡ now)
  fed-Follows now byte k j s s' e =
      let s1 : SerialTransport = record s { last_byte_time_ms = now } in
      let s1' : SerialTransport = record s' { last_byte_time_ms = 0 } in
      let (done, (alike, last, bytes)) = feed_byte-Matches write cfg now byte s1 in
      let (done', (alike', last', bytes')) = feed_byte-Matches write cfg 0 byte s1' in
      let mid = ap (feed_byte write cfg 0 byte) e in
      count_done-Follows now k j s1 (feed_byte write cfg now byte s1)
        (feed_byte write cfg 0 byte s1')
        (
          done ∙ ap (λ x. x.0) mid ∙ sym done',
          (alike ∙ ap (λ x. erase x.1) mid ∙ sym alike', last, bytes),
        )
        last'

  -- The bytes of one read, when the wait for the first was not too long.
  feed_all-Follows :
      (now k j byte : ℕ) (bytes : List ℕ) (s s' : SerialTransport)
      → erase s ≡ erase s'
      → expire cfg now s ≡ s
      → s'.last_byte_time_ms ≡ 0
      → Follows k j s.stats.bytes_received
          (feed_all write cfg now (byte ∷ bytes) (k, s))
          (feed_all write cfg 0 (byte ∷ bytes) (j, s'))
        × ((feed_all write cfg now (byte ∷ bytes) (k, s)).1.last_byte_time_ms ≡ now)
  unfolding feed_all feed_byte
  feed_all-Follows now k j byte [] s s' e in_time z =
      rw (feed_all-cons now byte k [] s in_time, feed_all-cons 0 byte j [] s' (expire_zero s' z))
        (fed-Follows now byte k j s s' e)
  feed_all-Follows now k j byte (b ∷ bytes) s s' e in_time z =
      let p = fed now byte k s in
      let p' = fed 0 byte j s' in
      let (one, last) = fed-Follows now byte k j s s' e in
      let (rest, last') =
        feed_all-Follows now p.0 p'.0 b bytes p.1 p'.1 one.same
          (expire_within now p.1 (omega (arith, last)) (omega (arith, last))) one.untimed in
      rw
        (
          feed_all-cons now byte k (b ∷ bytes) s in_time,
          feed_all-cons 0 byte j (b ∷ bytes) s' (expire_zero s' z),
        )
        (Follows-trans one rest, last')

  feed_all-append :
      (now : ℕ) (xs ys : List ℕ) (p : ℕ × SerialTransport)
      → feed_all write cfg now (xs ++ ys) p
        ≡ feed_all write cfg now ys (feed_all write cfg now xs p)
  unfolding feed_all
  feed_all-append now [] ys p = refl
  feed_all-append now (x ∷ xs) ys p = feed_all-append now xs ys _

  -- The first read finds the receiver ready, and the others come in time.
  abbrev pub Ready : List (ℕ × List ℕ) → SerialTransport → Type 0
  Ready [] s = Unit
  Ready ((now, bytes) ∷ reads) s =
      InTime now s × (0 < length bytes) × Timely cfg.inter_byte_timeout_ms now reads

  Timely-Ready :
      (reads : List (ℕ × List ℕ)) (s : SerialTransport)
      → Timely cfg.inter_byte_timeout_ms s.last_byte_time_ms reads
      → Ready reads s
  Timely-Ready [] s h = tt
  Timely-Ready ((now, bytes) ∷ reads) s (some_bytes, from, to, rest) =
      (inr (from, to), some_bytes, rest)

  -- What several reads leave, and all their bytes at once at time 0.
  abbrev pub Agrees : ℕ → ℕ → ℕ → ℕ × SerialTransport → ℕ × SerialTransport → Type 0
  Agrees k j n r r' =
      (r.0 + j ≡ r'.0 + k) × (erase r.1 ≡ erase r'.1) × (r.1.stats.bytes_received ≡ n % 2 ^ 64)

  pub poll_loop-feed_all :
      (reads : List (ℕ × List ℕ)) (k j n : ℕ) (s s' : SerialTransport)
      → erase s ≡ erase s'
      → s.stats.bytes_received ≡ n % 2 ^ 64
      → Ready reads s
      → s'.last_byte_time_ms ≡ 0
      → Agrees k j
          (n + length (all_bytes reads))
          (poll_loop write cfg reads (k, s))
          (feed_all write cfg 0 (all_bytes reads) (j, s'))
  unfolding poll_loop feed_all
  poll_loop-feed_all [] k j n s s' e b ready z = (omega arith, e, b ∙ omega arith)
  poll_loop-feed_all ((now, []) ∷ reads) k j n s s' e b ready z = absurd (omega (arith, ready.1))
  poll_loop-feed_all ((now, byte ∷ bytes) ∷ reads) k j n s s' e b ready z =
      let counted : SerialTransport = record s {
        stats = record s.stats {
          bytes_received = (s.stats.bytes_received + suc (length bytes)) % 2 ^ 64;
        };
      } in
      let r = feed_all write cfg now (byte ∷ bytes) (k, counted) in
      let r' = feed_all write cfg 0 (byte ∷ bytes) (j, s') in
      let (one, last) =
        feed_all-Follows now k j byte bytes counted s' e (expire-InTime now counted ready.0) z in
      let rest =
        poll_loop-feed_all reads r.0 r'.0 (n + suc (length bytes)) r.1 r'.1 one.same
          (one.bytes ∙ omega (arith, b))
          (Timely-Ready reads r.1
            (subst (λ x. Timely cfg.inter_byte_timeout_ms x reads) (sym last) ready.2))
          one.untimed in
      rw (feed_all-append 0 (byte ∷ bytes) (all_bytes reads) (j, s')) (
        omega (arith, rest.0, one.counts),
        rest.1,
        rest.2 ∙ omega (arith, length-append bytes (all_bytes reads)),
      )

  Spaced-Ready :
      (reads : List (ℕ × List ℕ)) (s : SerialTransport)
      → s.rx_state ≡ idle
      → Spaced cfg.inter_byte_timeout_ms reads
      → Ready reads s
  Spaced-Ready [] s waits h = tt
  Spaced-Ready ((now, bytes) ∷ reads) s waits (some_bytes, rest) = (inl waits, some_bytes, rest)

  -- Poll on reads in time, from a receiver that waits for a frame, counts the frames that all the bytes at
  -- once give and leaves what they leave.
  pub poll-feed_all :
      (reads : List (ℕ × List ℕ)) (s : SerialTransport)
      → s.is_open ≡ true
      → s.rx_state ≡ idle
      → s.stats.bytes_received < 2 ^ 64
      → Spaced cfg.inter_byte_timeout_ms reads
      → Agrees 0 0
          (s.stats.bytes_received + length (all_bytes reads))
          (poll write cfg reads s)
          (feed_all write cfg 0 (all_bytes reads) (0, erase s))
  unfolding poll
  poll-feed_all reads s opened waits small spaced =
      let all = feed_all write cfg 0 (all_bytes reads) (0, erase s) in
      if_intro (λ x. Agrees 0 0 (s.stats.bytes_received + length (all_bytes reads)) x all)
        (not s.is_open) (λ e. absurd (ground (arith, opened)))
        (λ e.
          poll_loop-feed_all reads 0 0 s.stats.bytes_received s (erase s) refl (omega arith)
            (Spaced-Ready reads s waits spaced) refl)
