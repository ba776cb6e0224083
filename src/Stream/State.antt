-- ===== src/Stream/State.antt =====
-- src/lib/reconnecting_stream.rs: `StreamOptions`, `StreamState` and its methods that keep the queue
-- of messages that the peer has not acknowledged. A u64 counter wraps, as in a release build.
use mobiletunnel.Prelude.{
  ℕ, ◌+◌, ◌-◌, ◌*◌, ◌%◌, ◌^◌, List, [], ◌∷◌, ◌++◌, Bool, true, Option, none, ltb, leb,
  if◌then◌else◌, length, drop, Outcome, ok, err,
}
use mobiletunnel.Stream.Codec.{HelloMessage}

pub record StreamOptions : Type 0 where
  pub max_window : ℕ

pub default_options : StreamOptions
default_options = record { max_window = 1000 * 1000 * 30 }

-- `sender` lists all that was handed to the application so far, and `app_open` says whether the
-- application still holds the other end of that channel. What `receiver` yields comes with the events.
pub record StreamState : Type 0 where
  pub id : ℕ
  pub remote_id : Option ℕ
  pub options : StreamOptions
  pub sent_unacked : List (List ℕ)
  pub base_offset : ℕ
  pub sender : List (List ℕ)
  pub app_open : Bool
  pub received_seq : ℕ

-- `StreamState::new`, at the id that `rand::random` draws.
unfoldable pub new : ℕ → StreamOptions → StreamState
new id options = record {
  id = id;
  remote_id = none;
  options = options;
  sent_unacked = [];
  base_offset = 0;
  sender = [];
  app_open = true;
  received_seq = 0;
}

unfoldable pub enqueue : StreamState → List ℕ → StreamState
enqueue state payload = record state { sent_unacked = state.sent_unacked ++ (payload ∷ []) }

-- The counter goes up first, and its new value is the answer.
unfoldable pub received_one_message : StreamState → StreamState × ℕ
received_one_message state =
    let seq = (state.received_seq + 1) % 2 ^ 64 in (record state { received_seq = seq }, seq)

pub data AckError : Type 0 where
  already_acked : AckError
  beyond_unacked : AckError

unfoldable pub ack : StreamState → ℕ → Outcome AckError StreamState
ack state seq =
    if ltb seq state.base_offset
    then err already_acked
    else let to_drain = seq - state.base_offset in
      if ltb (length state.sent_unacked) to_drain
      then err beyond_unacked
      else ok (record state { sent_unacked = drop to_drain state.sent_unacked; base_offset = seq })

unfoldable pub make_hello : StreamState → HelloMessage
make_hello state = record { sender_id = state.id; sender_last_rx = state.received_seq }

-- The sum of the lengths.
unfoldable total_length : List (List ℕ) → ℕ
total_length [] = 0
total_length (x ∷ xs) = length x + total_length xs

unfoldable unacked_size : StreamState → ℕ
unfolding total_length
unacked_size state = total_length state.sent_unacked

unfoldable pub is_full : StreamState → Bool
unfolding unacked_size
is_full state = leb state.options.max_window (unacked_size state)
