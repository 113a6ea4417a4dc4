-- ===== src/Transport/Tracker.antt =====
-- The sequence numbers of a whole stream.
use newosp.Base.{
  ℕ, suc, ◌+◌, ◌*◌, ◌%◌, ◌^◌, ◌≤◌, ◌<◌, ◌≡◌, ◌-◌, Bool, List, [], ◌∷◌, true, false, length, All,
  arith, if◌then◌else◌,
}
use newosp.Transport.{SequenceTracker, track}

-- How many of the numbers were accepted, and the tracker after all of them.
unfoldable pub track_all : List ℕ → SequenceTracker → ℕ × SequenceTracker
unfolding track
track_all [] t = (0, t)
track_all (s ∷ seqs) t =
    let (ok, t') = track s t in let (n, last) = track_all seqs t' in (if ok then n + 1 else n, last)

-- The counters leave room for this many numbers.
abbrev pub HasRoom : ℕ → SequenceTracker → Type 0
HasRoom n t =
    (t.expected_seq < 2 ^ 32)
    × (t.total_received + n < 2 ^ 64)
    × (t.lost_count + n * 2 ^ 31 < 2 ^ 64)
    × (t.reordered_count + n < 2 ^ 64)
    × (t.duplicate_count + n < 2 ^ 64)

-- One number: it is counted once, and the expected number moves by those accepted and lost.
abbrev Counts : SequenceTracker → Bool × SequenceTracker → Type 0
Counts t (ok, t') =
    (t'.total_received ≡ t.total_received + 1)
    × (t'.reordered_count + t'.duplicate_count + (if ok then 1 else 0)
        ≡ t.reordered_count + t.duplicate_count + 1)
    × (t'.expected_seq
        ≡ (t.expected_seq + (if ok then 1 else 0) + (t'.lost_count - t.lost_count)) % 2 ^ 32)
    × (t.lost_count ≤ t'.lost_count)
    × (t'.lost_count < t.lost_count + 2 ^ 31)

track-Counts : (s : ℕ) (t : SequenceTracker) → s < 2 ^ 32 → HasRoom 1 t → Counts t (track s t)
unfolding track
track-Counts s t small (e, total, lost, re, dup) = ground arith

-- A whole stream: every number is counted once, and the expected number has moved by those accepted and lost.
abbrev pub Accounts : ℕ → SequenceTracker → ℕ × SequenceTracker → Type 0
Accounts n t (accepted, last) =
    (last.total_received ≡ t.total_received + n)
    × (last.reordered_count + last.duplicate_count + accepted
        ≡ t.reordered_count + t.duplicate_count + n)
    × (last.expected_seq ≡ (t.expected_seq + accepted + (last.lost_count - t.lost_count)) % 2 ^ 32)
    × (t.lost_count ≤ last.lost_count)

Accounts-∷ :
    (n : ℕ) (t : SequenceTracker) (first : Bool × SequenceTracker) (rest : ℕ × SequenceTracker)
    → Counts t first
    → Accounts n first.1 rest
    → Accounts (suc n) t (if first.0 then rest.0 + 1 else rest.0, rest.1)
Accounts-∷ n t (true, t') (k, last) one many = ground arith
Accounts-∷ n t (false, t') (k, last) one many = ground arith

room_after :
    (n : ℕ) (s : ℕ) (t : SequenceTracker) → s < 2 ^ 32 → HasRoom (suc n) t → HasRoom n (track s t).1
unfolding track
room_after n s t small room = ground arith

-- For a stream of 32-bit sequence numbers and a tracker whose counters have room for it, every number is
-- counted as received and as exactly one of accepted, reordered and duplicate, and the expected number is, in
-- 32 bits, the one before with those accepted and those counted as lost added.
pub track_all-Accounts :
    (seqs : List ℕ) (t : SequenceTracker)
    → All (λ s. s < 2 ^ 32) seqs
    → HasRoom (length seqs) t
    → Accounts (length seqs) t (track_all seqs t)
unfolding track_all
track_all-Accounts [] t small room = ground arith
track_all-Accounts (s ∷ seqs) t (b, small) room =
    let one = track-Counts s t b (ground arith) in
    Accounts-∷ (length seqs) t (track s t) (track_all seqs (track s t).1) one
      (track_all-Accounts seqs (track s t).1 small (room_after (length seqs) s t b room))
