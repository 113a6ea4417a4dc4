-- ===== src/SerialTransport/EndToEnd.antt =====
-- From the calls of Send on one side to the calls of the callback on the other.
use newosp.Base.{◌+◌, ◌*◌, ◌%◌, ◌^◌, Option, none, some, List, [], ◌∷◌, ◌++◌, ◌≡◌, length, ◌>>=◌, ℕ}
use newosp.SerialTransport.{SerialTransport, SerialConfig, WriteResult}
use newosp.SerialTransport.Send.{Expected, success, error, send}
use newosp.SerialTransport.Stream.{Message}
use newosp.SerialTransport.Writes.{Progresses}

-- A call of Send, with the clock's two readings.
pub record Call : Type 0 where
  pub now : ℕ
  pub sent_at : ℕ
  pub message : Message

-- What a call of Send that succeeds leaves.
abbrev succeeded : Option (Expected × SerialTransport) → Option SerialTransport
succeeded none = none
succeeded (some (error e, t)) = none
succeeded (some (success, t)) = some t

-- Calls of Send one after the other, if each succeeds.
unfoldable pub send_each :
    (ℕ → WriteResult) → SerialConfig → ℕ → List Call → SerialTransport → Option SerialTransport
send_each write cfg fuel [] s = some s
send_each write cfg fuel (c ∷ cs) s =
    (succeeded (
        send write cfg fuel c.now c.sent_at c.message.type_index (some c.message.payload)
          (length c.message.payload) s)
      >>= λ t. send_each write cfg fuel cs t)

abbrev pub messages : List Call → List Message
messages [] = []
messages (c ∷ cs) = c.message ∷ messages cs

-- What a Send that succeeds does.
abbrev Sends : SerialTransport → List ℕ → SerialTransport → Type 0
Sends s frame t = (t.sent ≡ s.sent ++ frame) × (t.tx_seq ≡ (s.tx_seq + 1) % 2 ^ 16)

abbrev state_of : SerialTransport → Option (Expected × SerialTransport) → SerialTransport
state_of s none = s
state_of s (some (e, t)) = t

module _ (write : ℕ → WriteResult) (cfg : SerialConfig) (progress : Progresses write) where
  -- Enough fuel for a frame of the configured size.
  abbrev enough : ℕ
  enough = cfg.frame_max_size * (cfg.write_retry_count + 1)

-- The receiver with so many bytes more.
abbrev pub with_bytes : ℕ → SerialTransport → SerialTransport
with_bytes n r = record r {
  stats = record r.stats { bytes_received = (r.stats.bytes_received + n) % 2 ^ 64 };
}
