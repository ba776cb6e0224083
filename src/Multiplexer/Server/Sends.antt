-- ===== src/Multiplexer/Server/Sends.antt =====
-- src/lib/stream_multiplexer.rs: the messages that one end of the multiplexer puts into the channel to the
-- other end in answer to messages of that end: PAUSE.
pub mod Runs
use mobiletunnel.Prelude.{
  ℕ, suc, ◌≡◌, refl, sym, ap, ◌∙◌, List, [], ◌∷◌, ◌++◌, Option, none, some, Bool, true, false, ◌&&◌,
  if◌then◌else◌, map, map-append, append-nil, append_assoc, Outcome, ok, err, panic, Option-cases,
  Bool-cases, inl, inr,
}
use mobiletunnel.Framing as Framing
use mobiletunnel.Framing.{Ended}
use mobiletunnel.Multiplexer.Message.{
  ChannelMessage, connect, data_msg, disconnect, error_msg, pause, resume, MultiplexerError, parse,
  encode,
}
use mobiletunnel.Multiplexer.Flow.{
  OngoingStreamState, TrySend, Counted, counted, pause_sent, pause_failed, count_in,
}
use mobiletunnel.Multiplexer.Tracker.{
  Streams, Handled, get, answer_count, data_to, stream_data, new_stream,
}
use mobiletunnel.Multiplexer.Server.{
  Side, server, client, handle, on_connect, Multiplexer, Status, running, stopped_ok, stopped_err,
  crashed, out_of_fuel, Event, interrupted, accepted, from_channel, from_stream, on_accept,
  on_channel, opened, open_stream, step_in, step_running, step, run, swallow,
}
use mobiletunnel.Multiplexer.Server.Handling.{
  data_none, data_some, new_stream-none, new_stream-some,
}
use mobiletunnel.Multiplexer.Server.Delivery.{own, for_stream}
use mobiletunnel.Multiplexer.Server.Loop.{handle_all, process-refines, and_then}
use mobiletunnel.Multiplexer.Server.Payloads.{for_stream-append}

abbrev paused : ℕ → Counted → List ChannelMessage
paused id counted = []
paused id pause_sent = pause id ∷ []
paused id pause_failed = []

abbrev reply_of : ℕ → TrySend → Option OngoingStreamState → List ChannelMessage
reply_of id answer none = []
reply_of id answer (some x) = if x.alive then paused id (count_in x.flow answer).1 else []

-- The answer to one message: PAUSE, when DATA brings its stream to the high-water mark.
abbrev pub reply : ChannelMessage → TrySend → Streams → List ChannelMessage
reply (data_msg id to_send) answer s = reply_of id answer (get id s)
reply (connect id) answer s = []
reply (disconnect id) answer s = []
reply (error_msg id message) answer s = []
reply (pause id) answer s = []
reply (resume id) answer s = []

answer_count-frames :
    (id : ℕ) (s : Streams) (c : Counted) → (answer_count id s c).frames ≡ map encode (paused id c)
answer_count-frames id s counted = refl
answer_count-frames id s pause_sent = refl
answer_count-frames id s pause_failed = refl

data-frames :
    (id : ℕ) (to_send : List ℕ) (answer : TrySend) (s : Streams)
    → (stream_data id to_send answer s).frames ≡ map encode (reply_of id answer (get id s))
data-frames id to_send answer s = elim (Option-cases (get id s)) [
  | inl e ↦ rw (data_none id to_send answer s e, e) refl
  | inr (x, e) ↦ rw (data_some id to_send answer s x e, e) (there x)
]
  where
    there :
        (x : OngoingStreamState)
        → (data_to id to_send answer x s).frames ≡ map encode (reply_of id answer (some x))
    there x =
        unfold data_to in
        elim (Bool-cases x.alive) [ inl p ↦ rw p (answer_count-frames id _ _) | inr p ↦ rw p refl ]

swallow-frames : (r : Handled) → r.frames ≡ [] → (swallow r).frames ≡ []
swallow-frames r e = go r.result
  where
    go : (o : Outcome MultiplexerError (Unit {0})) → (swallow (record r { result = o })).frames ≡ []
    go (ok done) = e
    go (err x) = refl
    go panic = e

new_stream-frames : (id : ℕ) (s : Streams) → (new_stream id s).frames ≡ []
new_stream-frames id s = elim (Option-cases (get id s)) [
  | inl e ↦ rw (new_stream-none id s e) refl
  | inr (x, e) ↦ rw (new_stream-some id s x e) refl
]

on_connect-frames : (side : Side) (id : ℕ) (s : Streams) → (on_connect side id s).frames ≡ []
unfolding on_connect
on_connect-frames server id s = swallow-frames (new_stream id s) (new_stream-frames id s)
on_connect-frames client id s = refl

handle-frames :
    (side : Side) (m : ChannelMessage) (answer : TrySend) (s : Streams)
    → (handle side m answer s).frames ≡ map encode (reply m answer s)
unfolding handle
handle-frames side (connect id) answer s = on_connect-frames side id s
handle-frames side (data_msg id to_send) answer s = data-frames id to_send answer s
handle-frames side (disconnect id) answer s = refl
handle-frames side (error_msg id message) answer s = refl
handle-frames side (pause id) answer s = refl
handle-frames side (resume id) answer s = refl

module _ (side : Side) (answer : ℕ → TrySend) where
  abbrev if_ok : Outcome MultiplexerError (Unit {0}) → List ChannelMessage → List ChannelMessage
  if_ok (ok done) ms = ms
  if_ok (err e) ms = []
  if_ok panic ms = []

  -- The answers to a row of messages, until one fails.
  unfoldable pub replies : ℕ → List ChannelMessage → Streams → List ChannelMessage
  replies n [] s = []
  replies n (m ∷ ms) s =
      let r = handle side m (answer n) s in
      reply m (answer n) s ++ if_ok r.result (replies (suc n) ms r.streams)

  and_then-frames :
      (r rest : Handled) (ms more : List ChannelMessage)
      → r.frames ≡ map encode ms
      → rest.frames ≡ map encode more
      → (and_then r rest).frames ≡ map encode (ms ++ if_ok r.result more)
  and_then-frames r rest ms more e e' = go r.result
    where
      go :
          (o : Outcome MultiplexerError (Unit {0}))
          → (and_then (record r { result = o }) rest).frames ≡ map encode (ms ++ if_ok o more)
      go (ok done) =
          ap (◌++ rest.frames) e ∙ ap (◌++◌ (map encode ms)) e' ∙ sym (map-append encode ms more)
      go (err x) = e ∙ ap (map encode) (sym (append-nil ms))
      go panic = e ∙ ap (map encode) (sym (append-nil ms))

  handle_all-frames :
      (n : ℕ) (ms : List ChannelMessage) (s : Streams)
      → (handle_all side answer n ms s).frames ≡ map encode (replies n ms s)
  unfolding handle_all replies
  handle_all-frames n [] s = refl
  handle_all-frames n (m ∷ ms) s =
      let r = handle side m (answer n) s in
      and_then-frames r _ _ _ (handle-frames side m (answer n) s)
        (handle_all-frames (suc n) ms r.streams)

  reply-own :
      (id : ℕ) (m : ChannelMessage) (a : TrySend) (s : Streams) → for_stream id (reply m a s) ≡ []
  reply-own id (connect key) a s = refl
  reply-own id (data_msg key to_send) a s = go (get key s)
    where
      none_of : (c : Counted) → for_stream id (paused key c) ≡ []
      none_of counted = refl
      none_of pause_sent = refl
      none_of pause_failed = refl

      go : (o : Option OngoingStreamState) → for_stream id (reply_of key a o) ≡ []
      go none = refl
      go (some x) = elim (Bool-cases x.alive) [ inl p ↦ rw p (none_of _) | inr p ↦ rw p refl ]
  reply-own id (disconnect key) a s = refl
  reply-own id (error_msg key message) a s = refl
  reply-own id (pause key) a s = refl
  reply-own id (resume key) a s = refl

  -- None of the answers is DATA.
  replies-own :
      (id n : ℕ) (ms : List ChannelMessage) (s : Streams) → for_stream id (replies n ms s) ≡ []
  unfolding replies
  replies-own id n [] s = refl
  replies-own id n (m ∷ ms) s =
      let r = handle side m (answer n) s in
      for_stream-append id (reply m (answer n) s) _
      ∙ ap (◌++ for_stream id (if_ok r.result (replies (suc n) ms r.streams)))
          (reply-own id m (answer n) s)
      ∙ go r.result _ (replies-own id (suc n) ms r.streams)
    where
      go :
          (o : Outcome MultiplexerError (Unit {0})) (more : List ChannelMessage)
          → for_stream id more ≡ []
          → for_stream id (if_ok o more) ≡ []
      go (ok done) more e = e
      go (err x) more e = refl
      go panic more e = refl
