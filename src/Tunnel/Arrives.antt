-- ===== src/Tunnel/Arrives.antt =====
-- src/lib/reconnecting_stream.rs and src/lib/stream_multiplexer.rs: the task of a stream at one end, its
-- multiplexer, the two streams with the network between them, the multiplexer of the other end, and the
-- task of the stream there: what a connection that stays brings.
use mobiletunnel.Prelude.{ℕ, ◌≡◌, List, [], true, map, flatten, All}
use mobiletunnel.Multiplexer.Message.{ChannelMessage, encode}
use mobiletunnel.Multiplexer.Message.RoundTrip.{carried, IsTyped}
use mobiletunnel.Multiplexer.Server.{Side, Multiplexer, Event}
use mobiletunnel.Multiplexer.Server.Sends.Runs.{sent_messages, forwarded}
use mobiletunnel.Multiplexer.Server.Delivery.{for_stream, Holds}
use mobiletunnel.Multiplexer.Server.Loop.{IsQuiet}
use mobiletunnel.Multiplexer.Server.Payloads.{Arrival, IsOpen, IsRunning}
use mobiletunnel.Multiplexer.Socket.Chunks.{bytes_of}
use mobiletunnel.Multiplexer.Socket.Task.{StreamTask, TaskEvent, new_task, stream_task}

-- There are events, behind those that the task of the stream at the far end has met so far, after which it has
-- given its socket the bytes of `sent`, and its write task goes on.
abbrev pub Gives : ℕ → StreamTask → List ChannelMessage → Type 0
Gives id t sent =
    (more : List TaskEvent) × ((stream_task id t more).writing.outgoing ≡ bytes_of sent)
    × ((stream_task id t more).writing.running ≡ true)

-- What the far end makes of all bytes of `ms`.
module _ (id : ℕ) (incoming : List ℕ) (es : List TaskEvent) (near_side : Side) (near : Multiplexer)
    (ns : List Event) (all_typed : All IsTyped (sent_messages near_side near ns))
    (from_task : for_stream id (forwarded near_side near ns)
      ≡ for_stream id (stream_task id (new_task incoming) es).to_channel)
    (side : Side) (far : Multiplexer) (arrivals : List Arrival) (running : IsRunning [] far)
    (cut : flatten (map (λ a. a.0) arrivals)
      ≡ flatten (map encode (sent_messages near_side near ns)))
    (open_channel : All IsOpen arrivals)
    (quiet : IsQuiet side id (map carried (sent_messages near_side near ns)))
    (fresh : Holds id [] far.streams) where
  abbrev ms : List ChannelMessage
  ms = sent_messages near_side near ns

  abbrev near_task : StreamTask
  near_task = stream_task id (new_task incoming) es
