-- ===== src/Multiplexer/Server/Delivery.antt =====
-- src/lib/stream_multiplexer.rs: what a stream's own channel receives of the messages of the other end.
use mathlib.Core.Path.{subst}
use mobiletunnel.Prelude.{
  ℕ, ◌≡◌, ◌≢◌, refl, sym, ◌∙◌, ap, inl, inr, List, [], ◌∷◌, ◌++◌, some, Bool, true, false, ◌==◌,
  if◌then◌else◌, arith, ok, Option-cases, Bool-cases, ==_refl, append-nil,
}
use mobiletunnel.Multiplexer.Message.{
  ChannelMessage, connect, data_msg, disconnect, error_msg, pause, resume,
}
use mobiletunnel.Multiplexer.Flow.{
  OngoingStreamState, TrySend, taken, full, closed, count_in, StreamFlowControl,
}
use mobiletunnel.Multiplexer.Tracker.{
  Streams, get, answer_count, data_to, stream_data, pause_read, resume_read, push,
}
use mobiletunnel.Multiplexer.Tracker.Streams.{get-update}
use mobiletunnel.Multiplexer.Server.{Side, server, client, handle, on_connect}
use mobiletunnel.Multiplexer.Server.Handling.{
  stream_of, handle_others, with_data, data-get, data_none, data_some, connected, on_connect-get,
  new_stream-none, new_stream-some,
}

-- A message that does not close the stream `id`.
abbrev pub keeps : ℕ → ChannelMessage → Bool
keeps id (disconnect key) = if key == id then false else true
keeps id (error_msg key message) = if key == id then false else true
keeps id (connect key) = true
keeps id (data_msg key to_send) = true
keeps id (pause key) = true
keeps id (resume key) = true

-- A client is not sent CONNECT.
abbrev pub expected : Side → ChannelMessage → Bool
expected client (connect id) = false
expected client (data_msg id to_send) = true
expected client (disconnect id) = true
expected client (error_msg id message) = true
expected client (pause id) = true
expected client (resume id) = true
expected server m = true

-- What of a message, and of a row of messages, is for the stream's own channel.
abbrev pub own : ℕ → ChannelMessage → List ChannelMessage
own id (data_msg key to_send) = if key == id then data_msg key to_send ∷ [] else []
own id (connect key) = []
own id (disconnect key) = []
own id (error_msg key message) = []
own id (pause key) = []
own id (resume key) = []

abbrev pub for_stream : ℕ → List ChannelMessage → List ChannelMessage
for_stream id [] = []
for_stream id (m ∷ ms) = own id m ++ for_stream id ms

-- The stream is there, its task runs, and its channel holds `queued`.
abbrev pub Holds : ℕ → List ChannelMessage → Streams → Type 0
Holds id queued s =
    (x : OngoingStreamState) × (get id s ≡ some x) × (x.alive ≡ true) × (x.into_stream ≡ queued)

count_in-open :
    (flow : StreamFlowControl) (answer : TrySend)
    → answer ≢ closed
    → (id : ℕ) (s : Streams) → (answer_count id s (count_in flow answer).1).result ≡ ok tt
unfolding count_in
count_in-open flow taken h id s = ground arith
count_in-open flow full h id s = ground arith
count_in-open flow closed h id s = absurd (h refl)

data_to-ok :
    (id : ℕ) (to_send : List ℕ) (answer : TrySend) (x : OngoingStreamState) (s : Streams)
    → answer ≢ closed
    → (data_to id to_send answer x s).result ≡ ok tt
unfolding data_to
data_to-ok id to_send answer x s h = elim (Bool-cases x.alive) [
  | inl p ↦ rw p (count_in-open x.flow answer h id _)
  | inr p ↦ rw p refl
]

data-ok :
    (id : ℕ) (to_send : List ℕ) (answer : TrySend) (s : Streams)
    → answer ≢ closed
    → (stream_data id to_send answer s).result ≡ ok tt
data-ok id to_send answer s h = elim (Option-cases (get id s)) [
  | inl e ↦ rw (data_none id to_send answer s e) refl
  | inr (x, e) ↦ rw (data_some id to_send answer s x e) (data_to-ok id to_send answer x s h)
]

pub connect-ok : (id : ℕ) (s : Streams) → (on_connect server id s).result ≡ ok tt
unfolding on_connect
connect-ok id s = elim (Option-cases (get id s)) [
  | inl e ↦ rw (new_stream-none id s e) refl
  | inr (x, e) ↦ rw (new_stream-some id s x e) refl
]

-- With the channel to the other end open, no message that is expected fails.
pub handle-ok :
    (side : Side) (m : ChannelMessage) (answer : TrySend) (s : Streams)
    → answer ≢ closed
    → expected side m ≡ true
    → (handle side m answer s).result ≡ ok tt
unfolding handle
handle-ok side (data_msg id to_send) answer s h k = data-ok id to_send answer s h
handle-ok side (disconnect id) answer s h k = refl
handle-ok side (error_msg id message) answer s h k = refl
handle-ok side (pause id) answer s h k = refl
handle-ok side (resume id) answer s h k = refl
handle-ok server (connect id) answer s h k = connect-ok id s
handle-ok client (connect id) answer s h k = absurd (ground arith)

-- The message that names the stream: what it leaves in the stream's own channel.
handle-Holds-own :
    (side : Side) (m : ChannelMessage) (answer : TrySend) (s : Streams)
    (queued : List ChannelMessage)
    → keeps (stream_of m) m ≡ true
    → expected side m ≡ true
    → Holds (stream_of m) queued s
    → Holds (stream_of m) (queued ++ own (stream_of m) m) (handle side m answer s).streams
unfolding handle pause_read resume_read
handle-Holds-own side (disconnect id) answer s q k w h = absurd (ground (arith, ==_refl id))
handle-Holds-own side (error_msg id message) answer s q k w h = absurd (ground (arith, ==_refl id))
handle-Holds-own client (connect id) answer s q k w h = absurd (ground arith)
handle-Holds-own server (connect id) answer s q k w (x, e, p, f) =
    (x, on_connect-get id s ∙ ap connected e, p, f ∙ sym (append-nil q))
handle-Holds-own side (pause id) answer s q k w (x, e, p, f) =
    (_, get-update id _ s x e, p, f ∙ sym (append-nil q))
handle-Holds-own side (resume id) answer s q k w (x, e, p, f) =
    (_, get-update id _ s x e, p, f ∙ sym (append-nil q))
handle-Holds-own side (data_msg id to_send) answer s q k w (x, e, p, f) = (
  record (push (data_msg id to_send) x) { flow = (count_in x.flow answer).0 },
  data-get id to_send answer s ∙ ap (with_data id to_send answer) e ∙ rw p refl,
  p,
  rw (==_refl id) (ap (λ ms. ms ++ (data_msg id to_send ∷ [])) f),
)

own_other : (id : ℕ) (m : ChannelMessage) → (stream_of m == id) ≡ false → own id m ≡ []
own_other id (data_msg key to_send) h = rw h refl
own_other id (connect key) h = refl
own_other id (disconnect key) h = refl
own_other id (error_msg key message) h = refl
own_other id (pause key) h = refl
own_other id (resume key) h = refl

-- Any message that keeps the stream.
pub handle-Holds :
    (side : Side) (m : ChannelMessage) (answer : TrySend) (s : Streams) (id : ℕ)
    (queued : List ChannelMessage)
    → keeps id m ≡ true
    → expected side m ≡ true
    → Holds id queued s
    → Holds id (queued ++ own id m) (handle side m answer s).streams
handle-Holds side m answer s id q k w h = elim (Bool-cases (stream_of m == id)) [
  | inl same ↦
      let e : stream_of m ≡ id = ground arith in
      subst
        (λ (i : ℕ).
          keeps i m ≡ true → Holds i q s → Holds i (q ++ own i m) (handle side m answer s).streams)
        e (λ k'. λ h'. handle-Holds-own side m answer s q k' w h') k h
  | inr other ↦
      let (x, e, p, f) = h in
      (
        x,
        handle_others side m answer s id (λ c. absurd (ground arith)) ∙ e,
        p,
        f ∙ sym (ap (◌++◌ q) (own_other id m other) ∙ append-nil q),
      )
]
