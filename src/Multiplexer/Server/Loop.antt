-- ===== src/Multiplexer/Server/Loop.antt =====
-- src/lib/stream_multiplexer.rs: the loop of `process_channel_rx`, which takes a frame and handles its
-- message in turn, against taking all frames first and handling their messages then.
use mobiletunnel.Prelude.{
  ℕ, zero, suc, ◌≡◌, ◌≢◌, refl, sym, ◌∙◌, ap, inl, inr, List, [], ◌∷◌, ◌++◌, none, some, true, ok,
  err, panic, append-nil, append_assoc, All, Outcome, length, drop,
}
use mobiletunnel.Framing as Framing
use mobiletunnel.Framing.{Ended, waits, spent}
use mobiletunnel.Framing.Chunks.{answers, drain-none, drain-some, drain_err}
use mobiletunnel.Multiplexer.Message.{ChannelMessage, MultiplexerError, parse}
use mobiletunnel.Multiplexer.Message.Laws.{parse_message-IsFraming}
use mobiletunnel.Multiplexer.Flow.{TrySend, closed}
use mobiletunnel.Multiplexer.Tracker.{Streams, Handled, quietly}
use mobiletunnel.Multiplexer.Server.{
  Side, handle, ChannelMessageParser, add, next, Left, waiting, failed, panicked, Processed,
  stopped, with_earlier, halted, process_loop, process_channel_rx,
}
use mobiletunnel.Multiplexer.Server.Delivery.{
  expected, keeps, own, for_stream, Holds, handle-ok, handle-Holds,
}

-- What an earlier message sent and aborted stands before that of a later one.
abbrev pub behind : Handled → Handled → Handled
behind r rest = record rest {
  frames = r.frames ++ rest.frames;
  aborted = r.aborted ++ rest.aborted;
}

abbrev pub left_of : Ended MultiplexerError → Left
left_of (Framing.waits buffer) = waiting (record { buffer = buffer })
left_of (Framing.failed e) = failed e
left_of Framing.panicked = panicked
left_of Framing.spent = Left.spent

-- What is left when the messages were handled and the parser then ended so.
abbrev pub finish : Handled → Ended MultiplexerError → Processed
finish r end = record {
  streams = r.streams;
  frames = r.frames;
  aborted = r.aborted;
  left = elim r.result [ ok done ↦ left_of end | err e ↦ failed e | panic ↦ panicked ];
}

-- A message's handler, and the rest of the loop if it returns `Ok`.
abbrev after : Handled → Processed → Processed
after r rest = elim r.result [
  | ok done ↦ with_earlier r rest
  | err e ↦ halted r (failed e)
  | panic ↦ halted r panicked
]

abbrev pub and_then : Handled → Handled → Handled
and_then r rest = elim r.result [ ok done ↦ behind r rest | err e ↦ r | panic ↦ r ]

after-finish :
    (s : Streams) (frames : List (List ℕ)) (result : Outcome MultiplexerError (Unit {0}))
    (aborted : List ℕ) (rest : Handled) (end : Ended MultiplexerError)
    → after
        (record { streams = s; frames = frames; result = result; aborted = aborted })
        (finish rest end)
      ≡ finish
          (and_then
            (record { streams = s; frames = frames; result = result; aborted = aborted })
            rest)
          end
after-finish s frames (ok done) aborted rest end = refl
after-finish s frames (err e) aborted rest end = refl
after-finish s frames panic aborted rest end = refl

module _ (side : Side) (answer : ℕ → TrySend) where
  -- The messages in their order, until one fails.
  unfoldable pub handle_all : ℕ → List ChannelMessage → Streams → Handled
  handle_all n [] s = quietly s
  handle_all n (m ∷ ms) s =
      let r = handle side m (answer n) s in and_then r (handle_all (suc n) ms r.streams)

  -- One round of the loop, by the parser's answer.
  loop_some :
      (fuel n : ℕ) (buffer : List ℕ) (s : Streams) (m : ChannelMessage) (size : ℕ)
      → parse buffer ≡ ok (some (m, size))
      → process_loop side answer (suc fuel) n (record { buffer = buffer }) s
        ≡ after (handle side m (answer n) s) (
            process_loop side answer fuel
              (suc n)
              (record { buffer = drop size buffer })
              (handle side m (answer n) s).streams)
  unfolding process_loop next Framing.next
  loop_some fuel n buffer s m size e = rw (e, process_loop, next, Framing.next)

  loop_none :
      (fuel n : ℕ) (buffer : List ℕ) (s : Streams)
      → parse buffer ≡ ok none
      → process_loop side answer (suc fuel) n (record { buffer = buffer }) s
        ≡ stopped s (waiting (record { buffer = buffer }))
  unfolding process_loop next Framing.next
  loop_none fuel n buffer s e = rw (e, process_loop, next, Framing.next)

  loop_err :
      (fuel n : ℕ) (buffer : List ℕ) (s : Streams) (x : MultiplexerError)
      → parse buffer ≡ err x
      → process_loop side answer (suc fuel) n (record { buffer = buffer }) s ≡ stopped s (failed x)
  unfolding process_loop next Framing.next
  loop_err fuel n buffer s x e = rw (e, process_loop, next, Framing.next)

  process_loop-handle_all :
      (fuel n : ℕ) (buffer : List ℕ) (s : Streams)
      → process_loop side answer fuel n (record { buffer = buffer }) s
        ≡ finish
            (handle_all n (Framing.drain parse fuel buffer).0 s)
            (Framing.drain parse fuel buffer).1
  unfolding handle_all
  process_loop-handle_all zero n buffer s = unfold process_loop Framing.drain in refl
  process_loop-handle_all (suc fuel) n buffer s = elim (answers (parse buffer)) [
    | inl e ↦ loop_none fuel n buffer s e ∙ sym (ap done (drain-none parse fuel buffer e))
    | inr (inl (m, size, e)) ↦
        let r = handle side m (answer n) s in
        loop_some fuel n buffer s m size e
        ∙ ap (after r) (process_loop-handle_all fuel (suc n) (drop size buffer) r.streams)
        ∙ after-finish r.streams r.frames r.result r.aborted _ _
        ∙ sym (ap done (drain-some parse fuel buffer m size e))
    | inr (inr (inl (x, e))) ↦
        loop_err fuel n buffer s x e ∙ sym (ap done (drain_err parse fuel buffer x e))
    | inr (inr (inr e)) ↦ absurd (parse_message-IsFraming.safe buffer e)
  ]
    where
      done : List ChannelMessage × Ended MultiplexerError → Processed
      done d = finish (handle_all n d.0 s) d.1

  -- One call of `process_channel_rx` is the same as taking all frames of the buffer first and handling
  -- their messages then, in their order, until one fails.
  pub process-refines :
      (p : ChannelMessageParser) (bytes : List ℕ) (s : Streams)
      → process_channel_rx side answer p bytes s
        ≡ finish
            (handle_all 0 (Framing.run parse (p.buffer ++ bytes)).0 s)
            (Framing.run parse (p.buffer ++ bytes)).1
  unfolding process_channel_rx Framing.run add
  process-refines p bytes s =
      process_loop-handle_all (suc (length (p.buffer ++ bytes))) 0 (p.buffer ++ bytes) s

-- The messages are all expected, and none closes the stream.
abbrev pub IsQuiet : Side → ℕ → List ChannelMessage → Type 0
IsQuiet side id ms = All (λ m. (keeps id m ≡ true) × (expected side m ≡ true)) ms

module _ (side : Side) (answer : ℕ → TrySend) (open_channel : (n : ℕ) → answer n ≢ closed) where
  pub handle_all-Holds :
      (id n : ℕ) (ms : List ChannelMessage) (s : Streams) (queued : List ChannelMessage)
      → IsQuiet side id ms
      → Holds id queued s
      → let r = handle_all side answer n ms s in
        Holds id (queued ++ for_stream id ms) r.streams × (r.result ≡ ok tt)
  unfolding handle_all
  handle_all-Holds id n [] s queued h v = (rw append-nil v, refl)
  handle_all-Holds id n (m ∷ ms) s queued ((k, w), h) v =
      let r = handle side m (answer n) s in
      let e : r.result ≡ ok tt = handle-ok side m (answer n) s (open_channel n) w in
      let v' = handle-Holds side m (answer n) s id queued k w v in
      let (v'', e'') = handle_all-Holds id (suc n) ms r.streams (queued ++ own id m) h v' in
      rw e (rw (← append_assoc queued (own id m) (for_stream id ms)) v'', e'')
