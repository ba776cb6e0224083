-- ===== src/Multiplexer/Server/Sends/Runs.antt =====
-- src/lib/stream_multiplexer.rs: all messages that one end of the multiplexer puts into the channel to the
-- other end: those of its streams, CONNECT of its new connections, and PAUSE.
use mobiletunnel.Prelude.{
  ℕ, ◌+◌, ◌%◌, ◌^◌, ◌≡◌, refl, sym, ap, ◌∙◌, List, [], ◌∷◌, ◌++◌, none, some, Bool, true, false,
  ◌&&◌, if◌then◌else◌, map, map-append, append-nil, append_assoc, Outcome, ok, err, panic,
}
use mobiletunnel.Framing as Framing
use mobiletunnel.Framing.{Ended}
use mobiletunnel.Multiplexer.Message.{ChannelMessage, connect, MultiplexerError, parse, encode}
use mobiletunnel.Multiplexer.Flow.{TrySend}
use mobiletunnel.Multiplexer.Tracker.{Handled, new_stream}
use mobiletunnel.Multiplexer.Server.{
  Side, server, client, Multiplexer, Status, running, stopped_ok, stopped_err, crashed, out_of_fuel,
  Event, interrupted, accepted, from_channel, from_stream, on_accept, on_channel, opened, step_in,
  step_running, step, run, Processed,
}
use mobiletunnel.Multiplexer.Server.Delivery.{for_stream}
use mobiletunnel.Multiplexer.Server.Loop.{process-refines}
use mobiletunnel.Multiplexer.Server.Payloads.{for_stream-append}
use mobiletunnel.Multiplexer.Server.Sends.{replies, handle_all-frames, replies-own}

abbrev accept_sends : Side → Multiplexer → Bool → List ChannelMessage
accept_sends server m sends = []
accept_sends client m sends = if sends then connect m.stream_id ∷ [] else []

-- What one event makes an end send, while it runs.
abbrev pub sends_running : Side → Multiplexer → Event → List ChannelMessage
sends_running side m interrupted = []
sends_running side m (accepted accepts delivered) = accept_sends side m (accepts && delivered)
sends_running side m (from_channel none answer) = []
sends_running side m (from_channel (some bytes) answer) =
    replies side answer 0 (Framing.run parse (m.parser.buffer ++ bytes)).0 m.streams
sends_running side m (from_stream none delivered) = []
sends_running side m (from_stream (some message) delivered) = if delivered then message ∷ [] else []

-- The messages of the streams that an event forwards.
abbrev pub forwards_running : Event → List ChannelMessage
forwards_running interrupted = []
forwards_running (accepted accepts delivered) = []
forwards_running (from_channel bytes answer) = []
forwards_running (from_stream none delivered) = []
forwards_running (from_stream (some message) delivered) = if delivered then message ∷ [] else []

abbrev pub while_running : Status → List ChannelMessage → List ChannelMessage
while_running running ms = ms
while_running stopped_ok ms = []
while_running crashed ms = []
while_running out_of_fuel ms = []
while_running (stopped_err e) ms = []

-- All that `run` sends, and all that it forwards.
unfoldable pub sent_messages : Side → Multiplexer → List Event → List ChannelMessage
sent_messages side m [] = []
sent_messages side m (e ∷ es) =
    while_running m.status (sends_running side m e) ++ sent_messages side (step side m e) es

unfoldable pub forwarded : Side → Multiplexer → List Event → List ChannelMessage
forwarded side m [] = []
forwarded side m (e ∷ es) =
    while_running m.status (forwards_running e) ++ forwarded side (step side m e) es

opened-frames : (m : Multiplexer) (r : Handled) → (opened m r).frames ≡ m.frames
opened-frames m r = go r.result
  where
    go :
        (o : Outcome MultiplexerError (Unit {0}))
        → (opened m (record r { result = o })).frames ≡ m.frames
    go (ok done) = refl
    go (err e) = refl
    go panic = refl

on_accept-frames :
    (side : Side) (m : Multiplexer) (accepts delivered : Bool)
    → (on_accept side m accepts delivered).frames
      ≡ m.frames ++ map encode (accept_sends side m (accepts && delivered))
unfolding on_accept
on_accept-frames server m accepts delivered = sym (append-nil m.frames)
on_accept-frames client m true true =
    opened-frames
      (record m {
        stream_id = (m.stream_id + 1) % 2 ^ 64;
        frames = m.frames ++ (encode (connect m.stream_id) ∷ []);
      })
      (new_stream m.stream_id m.streams)
on_accept-frames client m true false = sym (append-nil m.frames)
on_accept-frames client m false delivered = sym (append-nil m.frames)

on_channel-frames :
    (side : Side) (m : Multiplexer) (bytes : List ℕ) (answer : ℕ → TrySend)
    → (on_channel side m bytes answer).frames
      ≡ m.frames ++ map encode (sends_running side m (from_channel (some bytes) answer))
unfolding on_channel
on_channel-frames side m bytes answer = ap (◌++◌ m.frames) (
    ap (λ (r : Processed). r.frames) (process-refines side answer m.parser bytes m.streams)
    ∙ handle_all-frames side answer 0 (Framing.run parse (m.parser.buffer ++ bytes)).0 m.streams)

step_running-frames :
    (side : Side) (m : Multiplexer) (e : Event)
    → (step_running side m e).frames ≡ m.frames ++ map encode (sends_running side m e)
unfolding step_running
step_running-frames side m interrupted = sym (append-nil m.frames)
step_running-frames side m (accepted accepts delivered) = on_accept-frames side m accepts delivered
step_running-frames side m (from_channel none answer) = sym (append-nil m.frames)
step_running-frames side m (from_channel (some bytes) answer) =
    on_channel-frames side m bytes answer
step_running-frames side m (from_stream none delivered) = sym (append-nil m.frames)
step_running-frames side m (from_stream (some message) true) = refl
step_running-frames side m (from_stream (some message) false) = sym (append-nil m.frames)

step_in-frames :
    (st : Status) (side : Side) (m : Multiplexer) (e : Event)
    → (step_in st side m e).frames
      ≡ m.frames ++ map encode (while_running st (sends_running side m e))
step_in-frames running side m e = step_running-frames side m e
step_in-frames stopped_ok side m e = sym (append-nil m.frames)
step_in-frames crashed side m e = sym (append-nil m.frames)
step_in-frames out_of_fuel side m e = sym (append-nil m.frames)
step_in-frames (stopped_err x) side m e = sym (append-nil m.frames)

-- What either end has put into the channel to the other end, behind what was there: the encoded messages
-- that `sent_messages` lists, each once and in their order, over any events.
pub run-frames :
    (side : Side) (m : Multiplexer) (es : List Event)
    → (run side m es).frames ≡ m.frames ++ map encode (sent_messages side m es)
unfolding run sent_messages step
run-frames side m [] = sym (append-nil m.frames)
run-frames side m (e ∷ es) =
    let now = while_running m.status (sends_running side m e) in
    let later = sent_messages side (step side m e) es in
    run-frames side (step side m e) es
    ∙ ap (◌++ map encode later) (step_in-frames m.status side m e)
    ∙ append_assoc m.frames (map encode now) (map encode later)
    ∙ ap (◌++◌ m.frames) (sym (map-append encode now later))

accept_sends-own :
    (id : ℕ) (side : Side) (m : Multiplexer) (sends : Bool)
    → for_stream id (accept_sends side m sends) ≡ []
accept_sends-own id server m sends = refl
accept_sends-own id client m true = refl
accept_sends-own id client m false = refl

sends_running-own :
    (id : ℕ) (side : Side) (m : Multiplexer) (e : Event)
    → for_stream id (sends_running side m e) ≡ for_stream id (forwards_running e)
sends_running-own id side m interrupted = refl
sends_running-own id side m (accepted accepts delivered) = accept_sends-own id side m _
sends_running-own id side m (from_channel none answer) = refl
sends_running-own id side m (from_channel (some bytes) answer) =
    replies-own side answer id 0 _ m.streams
sends_running-own id side m (from_stream none delivered) = refl
sends_running-own id side m (from_stream (some message) delivered) = refl

while_running-own :
    (id : ℕ) (st : Status) (ms ns : List ChannelMessage)
    → for_stream id ms ≡ for_stream id ns
    → for_stream id (while_running st ms) ≡ for_stream id (while_running st ns)
while_running-own id running ms ns e = e
while_running-own id stopped_ok ms ns e = refl
while_running-own id crashed ms ns e = refl
while_running-own id out_of_fuel ms ns e = refl
while_running-own id (stopped_err x) ms ns e = refl

-- The DATA of a stream among them is what was forwarded of it.
pub sent_messages-own :
    (id : ℕ) (side : Side) (m : Multiplexer) (es : List Event)
    → for_stream id (sent_messages side m es) ≡ for_stream id (forwarded side m es)
unfolding sent_messages forwarded
sent_messages-own id side m [] = refl
sent_messages-own id side m (e ∷ es) =
    let now = while_running m.status (sends_running side m e) in
    let now' = while_running m.status (forwards_running e) in
    let later = sent_messages side (step side m e) es in
    for_stream-append id now later
    ∙ ap (◌++ for_stream id later)
        (while_running-own id m.status _ _ (sends_running-own id side m e))
    ∙ ap (◌++◌ (for_stream id now')) (sent_messages-own id side (step side m e) es)
    ∙ sym (for_stream-append id now' (forwarded side (step side m e) es))
