-- ===== src/SerialTransport/Tests.antt =====
-- The serial transport at concrete inputs.
use newosp.Base.{
  ◌<◌, true, Option, none, some, List, [], ◌∷◌, refl, length, arith, ap, ℕ, take, drop,
}
use newosp.SerialTransport.{
  SerialTransport, SerialConfig, SerialStatistics, idle, WriteResult, took, max_frame_size,
}
use newosp.SerialTransport.Receive.{poll}
use newosp.SerialTransport.Send.{write_all}
use newosp.SerialTransport.Writes.{Progresses, Ends, write_all-Ends}
use newosp.SerialTransport.EndToEnd.{Call, send_each}
use newosp.SerialTransport.Bounds.{RxFits, poll-RxFits}

-- A port that takes all.
abbrev generous : ℕ → WriteResult
generous k = took 100

abbrev small_config : SerialConfig
small_config = record {
  inter_byte_timeout_ms = 50;
  frame_max_size = 64;
  enable_ack = true;
  enable_seq_check = true;
  watchdog_timeout_ms = 5000;
  degraded_error_threshold = 10;
  failed_error_threshold = 30;
  max_frames_per_second = 1000;
  write_retry_count = 3;
}

abbrev no_statistics : SerialStatistics
no_statistics = record {
  frames_sent = 0;
  frames_received = 0;
  bytes_sent = 0;
  bytes_received = 0;
  crc_errors = 0;
  sync_errors = 0;
  timeout_errors = 0;
  oversize_errors = 0;
  seq_gaps = 0;
  retransmits = 0;
  ack_timeouts = 0;
  rate_limit_drops = 0;
  write_retries = 0;
}

-- A transport that was opened at the time 100, with the next number 65535.
abbrev opened : SerialTransport
opened = record {
  is_open = true;
  tx_seq = 65535;
  rx_expected_seq = 65535;
  rx_state = idle;
  rx_bytes = [];
  rx_msg_len = 0;
  rx_payload_size = 0;
  has_callback = true;
  stats = no_statistics;
  last_byte_time_ms = 0;
  last_tx_time_ms = 100;
  last_rx_time_ms = 100;
  frame_count_window_start_ms = 100;
  frames_sent_in_window = 0;
  error_count_in_window = 0;
  sent = [];
  write_calls = 0;
  delivered = [];
}

count_of : WriteResult → ℕ
count_of (took n) = n
count_of _ = 0

generous-Progresses : Progresses generous
unfolding count_of
generous-Progresses k n e = omega (arith, ap count_of e)

abbrev two_calls : List Call
two_calls =
    record {
      now = 150;
      sent_at = 151;
      message = record { type_index = 7; payload = 170 ∷ 85 ∷ 13 ∷ [] };
    }
    ∷ record { now = 160; sent_at = 161; message = record { type_index = 513; payload = [] } }
    ∷ []

abbrev or_else : Option SerialTransport → SerialTransport
or_else none = opened
or_else (some t) = t

abbrev after_calls : SerialTransport
after_calls = or_else (send_each generous small_config 256 two_calls opened)

-- The first frame comes in two reads, the second of which has the second frame too.
abbrev two_reads : List (ℕ × List ℕ)
two_reads = (200, take 10 after_calls.sent) ∷ (240, drop 10 after_calls.sent) ∷ []

poll-RxFits_example :
    let t = (poll generous small_config ((200, 170 ∷ 85 ∷ []) ∷ []) opened).1 in
    RxFits small_config t × (length t.rx_bytes < max_frame_size)
poll-RxFits_example =
    poll-RxFits generous small_config ((200, 170 ∷ 85 ∷ []) ∷ []) opened (omega arith) refl

write_all-Ends_example :
    Ends opened (1 ∷ 2 ∷ []) (write_all generous small_config 8 (1 ∷ 2 ∷ []) opened)
write_all-Ends_example =
    write_all-Ends generous small_config generous-Progresses 8 (1 ∷ 2 ∷ []) opened (omega arith)
