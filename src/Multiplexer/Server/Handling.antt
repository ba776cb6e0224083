-- ===== src/Multiplexer/Server/Handling.antt =====
-- src/lib/stream_multiplexer.rs: what a message of the other end does to the stream that it names, and
-- to all others.
use mobiletunnel.Prelude.{
  ℕ, ◌≡◌, ◌≢◌, refl, sym, ◌∙◌, ap, inl, inr, List, ◌∷◌, Option, none, some, if◌then◌else◌, arith,
  ==_refl, Option-cases, Bool-cases,
}
use mobiletunnel.Multiplexer.Message.{
  ChannelMessage, connect, data_msg, disconnect, error_msg, pause, resume,
  already_had_this_connection_id,
}
use mobiletunnel.Multiplexer.Flow.{
  OngoingStreamState, TrySend, Counted, counted, pause_sent, pause_failed, count_in,
}
use mobiletunnel.Multiplexer.Tracker.{
  Streams, get, quietly, failing, answer_count, data_to, stream_data, pause_read, resume_read,
  new_stream, fresh_stream, push,
}
use mobiletunnel.Multiplexer.Tracker.Streams.{
  get-remove, get-remove_other, get-update, get-update_other,
}
use mobiletunnel.Multiplexer.Server.{Side, server, client, handle, on_connect}

-- The stream that a message names.
abbrev pub stream_of : ChannelMessage → ℕ
stream_of (connect id) = id
stream_of (data_msg id to_send) = id
stream_of (disconnect id) = id
stream_of (error_msg id message) = id
stream_of (pause id) = id
stream_of (resume id) = id

answer_count-streams : (id : ℕ) (s : Streams) (c : Counted) → (answer_count id s c).streams ≡ s
answer_count-streams id s counted = refl
answer_count-streams id s pause_sent = refl
answer_count-streams id s pause_failed = refl

-- What DATA leaves of a stream: gone when its task has ended, and else with the message queued and
-- counted.
abbrev pub with_data : ℕ → List ℕ → TrySend → Option OngoingStreamState → Option OngoingStreamState
with_data id to_send answer none = none
with_data id to_send answer (some x) =
    if x.alive
    then some (record (push (data_msg id to_send) x) { flow = (count_in x.flow answer).0 })
    else none

data_to-get :
    (id : ℕ) (to_send : List ℕ) (answer : TrySend) (x : OngoingStreamState) (s : Streams)
    → get id s ≡ some x
    → get id (data_to id to_send answer x s).streams ≡ with_data id to_send answer (some x)
unfolding data_to
data_to-get id to_send answer x s e = elim (Bool-cases x.alive) [
  | inl p ↦ rw p (ap (get id) (answer_count-streams id _ _) ∙ get-update id _ s x e)
  | inr p ↦ rw p (get-remove id s)
]

data_to-get_other :
    (id : ℕ) (to_send : List ℕ) (answer : TrySend) (x : OngoingStreamState) (s : Streams) (key : ℕ)
    → key ≢ id
    → get key (data_to id to_send answer x s).streams ≡ get key s
unfolding data_to
data_to-get_other id to_send answer x s key h = elim (Bool-cases x.alive) [
  | inl p ↦ rw p (ap (get key) (answer_count-streams id _ _) ∙ get-update_other id key _ s h)
  | inr p ↦ rw p (get-remove_other id key s h)
]

pub data_none :
    (id : ℕ) (to_send : List ℕ) (answer : TrySend) (s : Streams)
    → get id s ≡ none
    → stream_data id to_send answer s ≡ quietly s
unfolding stream_data
data_none id to_send answer s e = rw (e, stream_data) refl

pub data_some :
    (id : ℕ) (to_send : List ℕ) (answer : TrySend) (s : Streams) (x : OngoingStreamState)
    → get id s ≡ some x
    → stream_data id to_send answer s ≡ data_to id to_send answer x s
unfolding stream_data
data_some id to_send answer s x e =
    ap
      (λ (o : Option OngoingStreamState). elim o [
        | none ↦ quietly s
        | some y ↦ data_to id to_send answer y s
      ])
      e

pub data-get :
    (id : ℕ) (to_send : List ℕ) (answer : TrySend) (s : Streams)
    → get id (stream_data id to_send answer s).streams ≡ with_data id to_send answer (get id s)
data-get id to_send answer s = elim (Option-cases (get id s)) [
  | inl e ↦ rw (data_none id to_send answer s e) (rw e refl)
  | inr (x, e) ↦
      rw (data_some id to_send answer s x e)
        (data_to-get id to_send answer x s e ∙ ap (with_data id to_send answer) (sym e))
]

data-get_other :
    (id : ℕ) (to_send : List ℕ) (answer : TrySend) (s : Streams) (key : ℕ)
    → key ≢ id
    → get key (stream_data id to_send answer s).streams ≡ get key s
data-get_other id to_send answer s key h = elim (Option-cases (get id s)) [
  | inl e ↦ rw (data_none id to_send answer s e) refl
  | inr (x, e) ↦
      rw (data_some id to_send answer s x e) (data_to-get_other id to_send answer x s key h)
]

-- `new_stream` on an id that is free, and on one that is taken.
pub new_stream-none :
    (id : ℕ) (s : Streams) → get id s ≡ none → new_stream id s ≡ quietly ((id, fresh_stream) ∷ s)
unfolding new_stream
new_stream-none id s e = rw (e, new_stream) refl

pub new_stream-some :
    (id : ℕ) (s : Streams) (x : OngoingStreamState)
    → get id s ≡ some x
    → new_stream id s ≡ failing s already_had_this_connection_id
unfolding new_stream
new_stream-some id s x e = rw (e, new_stream) refl

pub get-fresh : (id : ℕ) (s : Streams) → get id ((id, fresh_stream) ∷ s) ≡ some fresh_stream
unfolding get
get-fresh id s = rw (==_refl id) refl

pub get-fresh_other :
    (id key : ℕ) (s : Streams) → key ≢ id → get key ((id, fresh_stream) ∷ s) ≡ get key s
unfolding get
get-fresh_other id key s h = ground arith

-- CONNECT at the server opens a stream unless there is one.
abbrev pub connected : Option OngoingStreamState → Option OngoingStreamState
connected none = some fresh_stream
connected (some x) = some x

pub on_connect-get :
    (id : ℕ) (s : Streams) → get id (on_connect server id s).streams ≡ connected (get id s)
unfolding on_connect
on_connect-get id s = elim (Option-cases (get id s)) [
  | inl e ↦ rw (new_stream-none id s e) (get-fresh id s ∙ sym (ap connected e))
  | inr (x, e) ↦ rw (new_stream-some id s x e) (e ∙ sym (ap connected e))
]

on_connect-get_other :
    (side : Side) (id : ℕ) (s : Streams) (key : ℕ)
    → key ≢ id
    → get key (on_connect side id s).streams ≡ get key s
unfolding on_connect
on_connect-get_other client id s key h = refl
on_connect-get_other server id s key h = elim (Option-cases (get id s)) [
  | inl e ↦ rw (new_stream-none id s e) (get-fresh_other id key s h)
  | inr (x, e) ↦ rw (new_stream-some id s x e) refl
]

-- A message of the other end changes no stream but the one that it names, whichever message it is,
-- whichever side receives it, and whether it fails or not.
pub handle_others :
    (side : Side) (m : ChannelMessage) (answer : TrySend) (s : Streams) (key : ℕ)
    → key ≢ stream_of m
    → get key (handle side m answer s).streams ≡ get key s
unfolding handle pause_read resume_read
handle_others side (connect id) answer s key h = on_connect-get_other side id s key h
handle_others side (data_msg id to_send) answer s key h = data-get_other id to_send answer s key h
handle_others side (disconnect id) answer s key h = get-remove_other id key s h
handle_others side (error_msg id message) answer s key h = get-remove_other id key s h
handle_others side (pause id) answer s key h = get-update_other id key _ s h
handle_others side (resume id) answer s key h = get-update_other id key _ s h
