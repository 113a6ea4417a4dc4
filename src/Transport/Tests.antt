-- ===== src/Transport/Tests.antt =====
-- Frames and sequence numbers at concrete inputs.
use newosp.Base.{ℕ, ◌≡◌, refl, false, List, [], ◌∷◌, arith}
use newosp.Transport.{
  FrameHeader, FrameHeaderV1, SequenceTracker, encode_header, encode_header_v1, decode_header,
  new_tracker, track, set_expected, copy_out,
}
use newosp.Transport.Codec.{
  Reads, ReadsV1, decode_header-encode_header, decode_header_v1-encode_header_v1,
}
use newosp.Transport.Tracker.{Accounts, track_all, track_all-Accounts}

abbrev zeros : List ℕ
zeros =
    0 ∷ 0 ∷ 0 ∷ 0 ∷ 0 ∷ 0 ∷ 0 ∷ 0 ∷ 0 ∷ 0 ∷ 0 ∷ 0 ∷ 0 ∷ 0 ∷ 0 ∷ 0 ∷ 0 ∷ 0 ∷ 0 ∷ 0 ∷ 0 ∷ 0 ∷ 0 ∷ 0
    ∷ 0 ∷ 0 ∷ 7 ∷ 8 ∷ []

abbrev header : FrameHeader
header = record { magic = 0x4F535000; length = 300; type_index = 2; sender_id = 70000 }

abbrev header_v1 : FrameHeaderV1
header_v1 = record {
  magic = 0x4F535001;
  length = 300;
  type_index = 2;
  sender_id = 70000;
  seq_num = 4294967295;
  timestamp_ns = 10000000000;
}

-- The first bytes on the wire, and a header that is cut short.
first_bytes : copy_out (encode_header header zeros 28).1 0 6 ≡ 0 ∷ 80 ∷ 83 ∷ 79 ∷ 44 ∷ 1 ∷ []
unfolding encode_header copy_out
first_bytes = refl

too_short : decode_header zeros 13 header ≡ (false, header)
unfolding decode_header
too_short = refl

-- The number behind the largest one is 0; a second copy of it is counted as reordered.
abbrev at_the_end : SequenceTracker
at_the_end = set_expected 4294967295 new_tracker

wraps : track_all (4294967295 ∷ 0 ∷ 0 ∷ 5 ∷ []) at_the_end ≡ (
  3,
  record {
    expected_seq = 6;
    total_received = 4;
    lost_count = 4;
    reordered_count = 1;
    duplicate_count = 0;
  },
)
unfolding track_all track set_expected new_tracker
wraps = refl

decode_header-encode_header_example : Reads header zeros 28 header (encode_header header zeros 28)
decode_header-encode_header_example =
    decode_header-encode_header header zeros 28 header
      (record {
        magic = omega arith;
        size = omega arith;
        type_index = omega arith;
        sender = omega arith;
      })
      (omega arith) (omega arith)

decode_header_v1-encode_header_v1_example :
    ReadsV1 header_v1 zeros 28 header_v1 (encode_header_v1 header_v1 zeros 28)
decode_header_v1-encode_header_v1_example =
    decode_header_v1-encode_header_v1 header_v1 zeros 28 header_v1
      (record {
        magic = omega arith;
        size = omega arith;
        type_index = omega arith;
        sender = omega arith;
        seq = omega arith;
        time = omega arith;
      })
      (omega arith) (omega arith)

track_all-Accounts_example :
    Accounts 4 at_the_end (track_all (4294967295 ∷ 0 ∷ 0 ∷ 5 ∷ []) at_the_end)
unfolding set_expected new_tracker
track_all-Accounts_example =
    track_all-Accounts (4294967295 ∷ 0 ∷ 0 ∷ 5 ∷ []) at_the_end
      (omega arith, (omega arith, (omega arith, (omega arith, tt))))
      (omega arith, omega arith, omega arith, omega arith, omega arith)
