-- ===== src/Tunnel/Bytes.antt =====
-- src/lib/reconnecting_stream.rs and src/lib/stream_multiplexer.rs: the task of a stream at one end, its
-- multiplexer, the two streams with the network between them, the multiplexer of the other end, and the
-- task of the stream there.
use mathlib.Core.Path.{subst}
use mobiletunnel.Prelude.{
  ℕ, ◌≡◌, sym, ap, ◌∙◌, List, [], ◌++◌, some, map, flatten, All, All-IsFront, IsFront,
  IsFront-trans, append_cancel, append_assoc,
}
use mobiletunnel.Stream.State.{StreamOptions}
use mobiletunnel.Stream.Delivery.{World, Reach}
use mobiletunnel.Stream.Delivery.Moves.{Bounded, initial}
use mobiletunnel.Stream.Delivery.Guarantees.{delivered_in_order}
use mobiletunnel.Multiplexer.Message.{ChannelMessage, encode}
use mobiletunnel.Multiplexer.Message.RoundTrip.{carried, IsTyped}
use mobiletunnel.Multiplexer.Flow.{OngoingStreamState}
use mobiletunnel.Multiplexer.Tracker.{get}
use mobiletunnel.Multiplexer.Server.{Side, Multiplexer, Event, run}
use mobiletunnel.Multiplexer.Server.Sends.Runs.{
  sent_messages, forwarded, run-frames, sent_messages-own,
}
use mobiletunnel.Multiplexer.Server.Delivery.{for_stream, Holds}
use mobiletunnel.Multiplexer.Server.Loop.{IsQuiet}
use mobiletunnel.Multiplexer.Server.Payloads.{Arrival, arrive, IsOpen, IsRunning}
use mobiletunnel.Multiplexer.Socket.Task.Writes.{taken_out, stream_task-written}
use mobiletunnel.Multiplexer.Socket.Chunks.{bytes_of, IsChunk}
use mobiletunnel.Multiplexer.Socket.Reader.{Reading-IsFront}
use mobiletunnel.Multiplexer.Socket.Task.{StreamTask, TaskEvent, new_task, stream_task}
use mobiletunnel.Multiplexer.Socket.Task.Steps.{stream_task-Speaks}
use mobiletunnel.Multiplexer.Socket.Task.Reads.{stream_task-Reading}
use mobiletunnel.Tunnel.Channel.{queue_of, bytes_of-IsFront, channel-IsFront}

module _ (id : ℕ) (incoming : List ℕ) (es : List TaskEvent) (near_side : Side) (near : Multiplexer)
    (ns : List Event) (earlier : List ChannelMessage)
    (sent_earlier : near.frames ≡ map encode earlier)
    (from_task : IsFront
      (for_stream id (forwarded near_side near ns))
      (for_stream id (stream_task id (new_task incoming) es).to_channel))
    (all_typed : All IsTyped (sent_messages near_side near ns)) (x y : ℕ)
    (options options' : StreamOptions) {w : World} (r : Reach (initial x y options options') w)
    (h : Bounded w) (sends : IsFront w.left.queued (run near_side near ns).frames)
    (later : List (List ℕ))
    (hands : IsFront (map encode earlier ++ later) w.right.session.state.sender) (side : Side)
    (far : Multiplexer) (arrivals : List Arrival) (running : IsRunning [] far)
    (cut : flatten (map (λ a. a.0) arrivals) ≡ flatten later) (open_channel : All IsOpen arrivals)
    (quiet : IsQuiet side id (map carried (sent_messages near_side near ns)))
    (fresh : Holds id [] far.streams) where
  abbrev ms : List ChannelMessage
  ms = sent_messages near_side near ns

  abbrev near_task : StreamTask
  near_task = stream_task id (new_task incoming) es

  own-IsFront : IsFront (for_stream id ms) near_task.read.sent
  own-IsFront = subst (IsFront (for_stream id ms)) (stream_task-Speaks id incoming es).data_sent (
      subst (λ (l : List ChannelMessage). IsFront l (for_stream id near_task.to_channel))
        (sym (sent_messages-own id near_side near ns)) from_task)

  near_chunks : All (IsChunk id) (for_stream id ms)
  near_chunks =
      All-IsFront (IsChunk id) (for_stream id ms) near_task.read.sent own-IsFront
        (stream_task-Reading id incoming es).chunks

  far-IsFront : IsFront later (map encode ms)
  far-IsFront =
      let delivered = (delivered_in_order x y options options' r h).0 in
      let all = run-frames near_side near ns ∙ ap (◌++ map encode ms) sent_earlier in
      let (back, e) =
        IsFront-trans (map encode earlier ++ later) w.left.queued _
          (IsFront-trans _ w.right.session.state.sender w.left.queued hands delivered)
          (subst (IsFront w.left.queued) all sends) in
      (
        back,
        append_cancel (map encode earlier) (map encode ms) (later ++ back)
            (e ∙ append_assoc (map encode earlier) later back),
      )

  -- One tcp connection through the tunnel.
  -- The near end: the stream's task from its start, with the two that it spawns, over any events; any
  -- events of the multiplexer there, of either side, which had sent `earlier` before; the DATA messages of
  -- the stream that it forwards are those that the task sent it, in their order, so far; and all that it
  -- sends, CONNECT and PAUSE included, goes to the reconnecting stream, which has accepted a front of it so
  -- far.
  -- Between: any steps of the two reconnecting streams, losses of the connection included, while fewer
  -- than 2 ^ 64 messages were accepted on either side; `later` is what the far multiplexer has taken so
  -- far of what was handed over behind `earlier`.
  -- The far end: the multiplexer of either side as `earlier` left it, which runs with no byte in its
  -- parser and the stream open and empty; then `later`, cut into chunks in any way, while the messages of
  -- the near multiplexer are well typed, those that the side expects, and none that closes the stream, and
  -- the channel to the other end is open.
  -- Then the stream is there; and when all that its write task has taken so far comes out of its channel, its
  -- own task, from its start and over any events, with the two tasks that it spawns, has given the socket a
  -- front of what the near socket yields: no byte is lost in between, doubled, changed, out of order, or of
  -- another stream.
  pub tunnel_bytes :
      (far_incoming : List ℕ) (fs : List TaskEvent)
      → IsFront
          (taken_out id (new_task far_incoming) fs)
          (queue_of (get id (run side far (map arrive arrivals)).streams))
      → ((stream : OngoingStreamState) × (get id (run side far (map arrive arrivals)).streams
            ≡ some stream))
        × IsFront (stream_task id (new_task far_incoming) fs).writing.outgoing incoming
  unfolding new_task
  tunnel_bytes far_incoming fs takes_queue =
      let (held, front, (stream, there, alive, e)) =
        channel-IsFront id ms later all_typed near_chunks far-IsFront side far arrivals running cut
          open_channel quiet fresh in
      let t = new_task far_incoming in
      let out : List ℕ = (stream_task id t fs).writing.outgoing in
      let taken : IsFront (taken_out id t fs) held =
        subst (IsFront (taken_out id t fs)) (ap queue_of there ∙ e) takes_queue in
      let written : IsFront out (bytes_of held) =
        IsFront-trans out (bytes_of (taken_out id t fs)) _ (stream_task-written id t fs)
          (bytes_of-IsFront (taken_out id t fs) held taken) in
      let sent : IsFront (bytes_of near_task.read.sent) incoming =
        Reading-IsFront id incoming near_task.read (stream_task-Reading id incoming es) in
      let kept : IsFront (bytes_of held) (bytes_of near_task.read.sent) =
        bytes_of-IsFront held _ (IsFront-trans held (for_stream id ms) _ front own-IsFront) in
      ((stream, there), IsFront-trans _ _ _ written (IsFront-trans _ _ _ kept sent))
