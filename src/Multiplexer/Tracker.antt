-- ===== src/Multiplexer/Tracker.antt =====
-- src/lib/stream_multiplexer.rs: `OngoingStreamTracker`, the streams that one end of the multiplexer
-- has, by their ids. The map is an association list. A stream's task is `OngoingStreamState.alive`: what
-- it does to its socket is in Multiplexer/Socket.antt.
pub mod Streams
use mobiletunnel.Prelude.{
  ℕ, List, [], ◌∷◌, Option, none, some, Bool, true, false, ◌==◌, if◌then◌else◌, Outcome, ok, err,
  ◌++◌,
}
use mobiletunnel.Multiplexer.Message.{
  ChannelMessage, data_msg, pause, MultiplexerError, channel_closed, already_had_this_connection_id,
  encode,
}
use mobiletunnel.Multiplexer.Flow.{
  OngoingStreamState, TrySend, Counted, counted, pause_sent, pause_failed, count_in, new_flow,
  stop_reading, go_on_reading,
}

abbrev pub Streams : Type 0
Streams = List (ℕ × OngoingStreamState)

-- `HashMap::get`.
unfoldable pub get : ℕ → Streams → Option OngoingStreamState
get id [] = none
get id ((key, x) ∷ streams) = let rest = get id streams in if key == id then some x else rest

-- `HashMap::remove`; the stream's counters go with it.
pub remove : ℕ → Streams → Streams
remove id [] = []
remove id ((key, x) ∷ streams) =
    let rest = remove id streams in if key == id then rest else (key, x) ∷ rest

-- What `get_mut` changes in place, on a stream that is there.
pub update : ℕ → (OngoingStreamState → OngoingStreamState) → Streams → Streams
update id f [] = []
update id f ((key, x) ∷ streams) =
    let rest = update id f streams in if key == id then (key, f x) ∷ streams else (key, x) ∷ rest

-- What an operation leaves: the streams, the frames it put into the channel to the other end, what it
-- returns, and the streams whose tasks it aborted.
pub record Handled : Type 0 where
  pub streams : Streams
  pub frames : List (List ℕ)
  pub result : Outcome MultiplexerError (Unit {0})
  pub aborted : List ℕ

abbrev pub quietly : Streams → Handled
quietly streams = record { streams = streams; frames = []; result = ok tt; aborted = [] }

abbrev pub failing : Streams → MultiplexerError → Handled
failing streams e = record { streams = streams; frames = []; result = err e; aborted = [] }

-- `OngoingStreamTracker::remove`: the entry goes, and the task of the stream is aborted.
unfoldable pub removing : ℕ → Streams → Handled
removing id streams = record {
  streams = remove id streams;
  frames = [];
  result = ok tt;
  aborted = elim (get id streams) [ none ↦ [] | some x ↦ id ∷ [] ];
}

-- The message goes into the stream's own channel.
abbrev pub push : ChannelMessage → OngoingStreamState → OngoingStreamState
push message x = record x { into_stream = x.into_stream ++ (message ∷ []) }

-- What `data` leaves, by what counting the message in asks for.
abbrev pub answer_count : ℕ → Streams → Counted → Handled
answer_count id streams counted = quietly streams
answer_count id streams pause_sent = record {
  streams = streams;
  frames = encode (pause id) ∷ [];
  result = ok tt;
  aborted = [];
}
answer_count id streams pause_failed = failing streams channel_closed

-- The method on a stream that is there; `answer` is what `try_send` says if a PAUSE is due.
unfoldable pub data_to : ℕ → List ℕ → TrySend → OngoingStreamState → Streams → Handled
unfolding count_in removing
data_to id to_send answer x streams =
    if x.alive
    then (let (flow, result) = count_in x.flow answer in
        let x' = record (push (data_msg id to_send) x) { flow = flow } in
        answer_count id (update id (λ _. x') streams) result)
    else removing id streams

-- `OngoingStreamTracker::data`.
unfoldable pub stream_data : ℕ → List ℕ → TrySend → Streams → Handled
unfolding data_to
stream_data id to_send answer streams = elim (get id streams) [
  | none ↦ quietly streams
  | some x ↦ data_to id to_send answer x streams
]

unfoldable pub pause_read : ℕ → Streams → Streams
pause_read id streams = update id (λ x. record x { flow = stop_reading x.flow }) streams

unfoldable pub resume_read : ℕ → Streams → Streams
resume_read id streams = update id (λ x. record x { flow = go_on_reading x.flow }) streams

unfoldable pub fresh_stream : OngoingStreamState
fresh_stream = record { into_stream = []; alive = true; flow = new_flow }

-- The task that connects and runs the stream starts here: `alive`.
unfoldable pub new_stream : ℕ → Streams → Handled
unfolding fresh_stream
new_stream id streams = elim (get id streams) [
  | none ↦ quietly ((id, fresh_stream) ∷ streams)
  | some x ↦ failing streams already_had_this_connection_id
]
