-- ===== src/Multiplexer/Socket/Chunks.antt =====
-- src/lib/stream_multiplexer.rs: the bytes of the read task of `run_internal_stream`.
use mobiletunnel.Prelude.{
  ℕ, ◌≡◌, ◌≤◌, ◌<◌, ap, ◌∙◌, List, [], ◌++◌, map, flatten, length, All, ◌⊎◌, flatten-append,
  map-append,
}
use mobiletunnel.Multiplexer.Message.{ChannelMessage, data_msg}
use mobiletunnel.Multiplexer.Socket.{over, ReadTask, rx_bytes_len, body}

-- The bytes of a row of messages.
abbrev pub bytes_of : List ChannelMessage → List ℕ
bytes_of ms = flatten (map body ms)

-- A DATA message of the stream with a byte at least, and no more than the buffer holds.
abbrev pub IsChunk : ℕ → ChannelMessage → Type 0
IsChunk id m =
    (bytes : List ℕ) × (m ≡ data_msg id bytes) × (0 < length bytes) × (length bytes ≤ rx_bytes_len)

-- Of all that the socket yields, what was sent stands in front, what is still to be read behind, and
-- between them what was lost with a message that the channel did not take, after which the task is over.
pub record Reading (id : ℕ) (whole : List ℕ) (t : ReadTask) : Type 0 where
  pub lost : List ℕ
  pub split : whole ≡ bytes_of t.sent ++ (lost ++ t.incoming)
  pub ends : (t.place ≡ over) ⊎ (lost ≡ [])
  pub chunks : All (IsChunk id) t.sent

pub bytes_of-append :
    (ms ns : List ChannelMessage) → bytes_of (ms ++ ns) ≡ bytes_of ms ++ bytes_of ns
bytes_of-append ms ns =
    ap flatten (map-append body ms ns) ∙ flatten-append (map body ms) (map body ns)
