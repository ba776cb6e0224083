-- ===== src/Multiplexer/Server/Payloads.antt =====
-- src/lib/stream_multiplexer.rs: a session's bytes, cut into chunks in any way, through `run` of either
-- side, and what one stream's own channel receives.
use mathlib.Core.Path.{subst}
use mobiletunnel.Prelude.{
  ℕ, ◌≡◌, ◌≢◌, refl, sym, ◌∙◌, ap, List, [], ◌∷◌, ◌++◌, some, append-nil, append_assoc, All, map,
  flatten,
}
use mobiletunnel.Framing as Framing
use mobiletunnel.Framing.{Ended, waits}
use mobiletunnel.Framing.Inversion.{feed-waits}
use mobiletunnel.Multiplexer.Message.{ChannelMessage, parse, encode}
use mobiletunnel.Multiplexer.Message.RoundTrip.{carried, IsTyped, feed-messages}
use mobiletunnel.Multiplexer.Flow.{TrySend, closed}
use mobiletunnel.Multiplexer.Server.{
  Side, Multiplexer, running, Event, from_channel, on_channel, step, step_running, run,
}
use mobiletunnel.Multiplexer.Server.Delivery.{own, for_stream, Holds}
use mobiletunnel.Multiplexer.Server.Loop.{process-refines, IsQuiet, handle_all-Holds}

-- A chunk that the stream below yields, with what `try_send` says while it is processed.
abbrev pub Arrival : Type 0
Arrival = List ℕ × (ℕ → TrySend)

abbrev pub arrive : Arrival → Event
arrive a = from_channel (some a.0) a.1

abbrev pub IsOpen : Arrival → Type 0
IsOpen a = (n : ℕ) → a.1 n ≢ closed

pub for_stream-append :
    (id : ℕ) (ms ns : List ChannelMessage)
    → for_stream id (ms ++ ns) ≡ for_stream id ms ++ for_stream id ns
for_stream-append id [] ns = refl
for_stream-append id (m ∷ ms) ns =
    ap (◌++◌ (own id m)) (for_stream-append id ms ns)
    ∙ sym (append_assoc (own id m) (for_stream id ms) _)

IsQuiet-append :
    (side : Side) (id : ℕ) (ms ns : List ChannelMessage)
    → IsQuiet side id (ms ++ ns)
    → IsQuiet side id ms × IsQuiet side id ns
IsQuiet-append side id [] ns h = (tt, h)
IsQuiet-append side id (m ∷ ms) ns (p, h) =
    let (l, r) = IsQuiet-append side id ms ns h in ((p, l), r)

-- The end runs, and its parser's buffer is `buffer`.
abbrev pub IsRunning : List ℕ → Multiplexer → Type 0
IsRunning buffer m = (m.status ≡ running) × (m.parser.buffer ≡ buffer)

module _ (side : Side) (id : ℕ) where
  one_chunk :
      (a : Arrival) (m : Multiplexer) (ms : List ChannelMessage) (rest : List ℕ)
      (queued : List ChannelMessage)
      → Framing.run parse (m.parser.buffer ++ a.0) ≡ (ms, Framing.waits rest)
      → IsOpen a
      → IsQuiet side id ms
      → Holds id queued m.streams
      → let m' = on_channel side m a.0 a.1 in
        IsRunning rest m' × Holds id (queued ++ for_stream id ms) m'.streams
  unfolding on_channel
  one_chunk a m ms rest queued e open_channel h v =
      let whole = process-refines side a.1 m.parser a.0 m.streams in
      let (v', ok') = handle_all-Holds side a.1 open_channel id 0 ms m.streams queued h v in
      rw (whole, e, ok') ((refl, refl), v')

  step-arrive :
      (a : Arrival) (m : Multiplexer)
      → m.status ≡ running
      → step side m (arrive a) ≡ on_channel side m a.0 a.1
  unfolding step step_running
  step-arrive a m now = rw now refl

  chunks_in_order :
      (arrivals : List Arrival) (m : Multiplexer) (ms : List ChannelMessage) (rest : List ℕ)
      (queued : List ChannelMessage)
      → m.status ≡ running
      → Framing.feed parse m.parser.buffer (map (λ a. a.0) arrivals) ≡ (ms, waits rest)
      → All IsOpen arrivals
      → IsQuiet side id ms
      → Holds id queued m.streams
      → let m' = run side m (map arrive arrivals) in
        IsRunning rest m' × Holds id (queued ++ for_stream id ms) m'.streams
  unfolding run Framing.feed
  chunks_in_order [] m ms rest queued now e o h v =
      let none_left : [] ≡ ms = ap (λ r. r.0) e in
      (
        (now, cc),
        subst (λ (k : List ChannelMessage). Holds id (queued ++ for_stream id k) m.streams)
            none_left (rw append-nil v),
      )
  chunks_in_order (a ∷ arrivals) m ms rest queued now e (o, os) h v =
      let (early, middle, late, e1, e2, e3) =
        feed-waits parse m.parser.buffer a.0 (map (λ a. a.0) arrivals) ms rest e in
      let (h1, h2) = IsQuiet-append side id early late (subst (IsQuiet side id) (sym e3) h) in
      let ((now', buffer'), v') = one_chunk a m early middle queued e1 o h1 v in
      let whole =
        chunks_in_order arrivals (on_channel side m a.0 a.1) late rest
          (queued ++ for_stream id early) now' (rw buffer' e2) os h2 v' in
      let joined : (queued ++ for_stream id early) ++ for_stream id late
          ≡ queued ++ for_stream id ms =
        append_assoc queued (for_stream id early) (for_stream id late)
        ∙ ap (◌++◌ queued) (sym (for_stream-append id early late) ∙ ap (for_stream id) e3) in
      subst
        (λ (m' : Multiplexer).
          let r = run side m' (map arrive arrivals) in
          IsRunning rest r × Holds id (queued ++ for_stream id ms) r.streams)
        (sym (step-arrive a m now)) (rw (← joined) whole)

-- Chunks that are cut in any way from a row of encoded messages, through `run` of either side: if the
-- channel to the other end stays open, the messages are all expected, and none closes the stream, then
-- the side still runs, its parser has no byte left, and the stream's own channel has received, behind
-- what it held, exactly the stream's DATA messages, in the order they were sent. What is said of a
-- message is said of what the frame carries: one too long for a frame carries an error instead.
pub payloads_in_order :
    (side : Side) (id : ℕ) (m : Multiplexer) (ms : List ChannelMessage) (arrivals : List Arrival)
    (queued : List ChannelMessage)
    → IsRunning [] m
    → flatten (map (λ a. a.0) arrivals) ≡ flatten (map encode ms)
    → All IsTyped ms
    → All IsOpen arrivals
    → IsQuiet side id (map carried ms)
    → Holds id queued m.streams
    → let m' = run side m (map arrive arrivals) in
      IsRunning [] m' × Holds id (queued ++ for_stream id (map carried ms)) m'.streams
payloads_in_order side id m ms arrivals queued (now, e) cut typed open_channel quiet v =
    chunks_in_order side id arrivals m (map carried ms) [] queued now
      (rw e (feed-messages ms (map (λ a. a.0) arrivals) typed cut)) open_channel quiet v
