-- ===== src/Tunnel/Loss.antt =====
-- src/lib/stream_multiplexer.rs: DATA that is followed by DISCONNECT, at the end that receives both. The
-- task of a stream sends DISCONNECT when its socket has no more to read, and `remove` aborts the task at
-- the other end, which cancels the token that its write task looks at.
use mathlib.Core.Path.{subst}
use mobiletunnel.Prelude.{
  ℕ, ◌≡◌, refl, sym, ap, ◌∙◌, List, [], ◌∷◌, ◌++◌, Bool, Option, none, some, true, false, ◌||◌,
  ◌==◌, take, ==_refl, if◌then◌else◌,
}
use mobiletunnel.Multiplexer.Message.{ChannelMessage, data_msg, disconnect}
use mobiletunnel.Multiplexer.Flow.{
  OngoingStreamState, TrySend, Counted, counted, pause_sent, pause_failed, write_message,
}
use mobiletunnel.Multiplexer.Tracker.{Streams, Handled, get, removing, answer_count, data_to}
use mobiletunnel.Multiplexer.Tracker.Streams.{get-remove}
use mobiletunnel.Multiplexer.Server.{Side, server, client, handle}
use mobiletunnel.Multiplexer.Server.Handling.{data_some}
use mobiletunnel.Multiplexer.Server.Delivery.{Holds, handle-Holds, own, expected}
use mobiletunnel.Multiplexer.Socket.{on_wrote, write_step}
use mobiletunnel.Multiplexer.Socket.Task.{
  StreamTask, TaskEvent, aborts, write_cancelled, on_write, task_step, stream_task,
}
use mobiletunnel.Multiplexer.Socket.Task.Writes.{stream_task-Stays}

abbrev is_aborted : ℕ → List ℕ → Bool
is_aborted id [] = false
is_aborted id (key ∷ keys) = (key == id) || is_aborted id keys

-- What handling a message does to the task of a stream: nothing, unless the tracker aborts it.
unfoldable pub task_behind : ℕ → Handled → StreamTask → StreamTask
unfolding task_step
task_behind id r t = if is_aborted id r.aborted then task_step id t aborts else t

expected_data : (side : Side) (id : ℕ) (bytes : List ℕ) → expected side (data_msg id bytes) ≡ true
expected_data server id bytes = refl
expected_data client id bytes = refl

answer_count-aborted : (id : ℕ) (s : Streams) (c : Counted) → (answer_count id s c).aborted ≡ []
answer_count-aborted id s counted = refl
answer_count-aborted id s pause_sent = refl
answer_count-aborted id s pause_failed = refl

-- DATA of an open stream aborts no task, and DISCONNECT the one of the stream.
data-aborted :
    (side : Side) (id : ℕ) (bytes : List ℕ) (answer : TrySend) (s : Streams)
    (queued : List ChannelMessage)
    → Holds id queued s
    → (handle side (data_msg id bytes) answer s).aborted ≡ []
unfolding handle data_to
data-aborted side id bytes answer s queued (x, e, alive, f) =
    ap (λ (r : Handled). r.aborted) (data_some id bytes answer s x e)
    ∙ rw alive (answer_count-aborted id _ _)

disconnect-aborted :
    (side : Side) (id : ℕ) (answer : TrySend) (s : Streams) (queued : List ChannelMessage)
    → Holds id queued s
    → (handle side (disconnect id) answer s).aborted ≡ id ∷ []
unfolding handle removing
disconnect-aborted side id answer s queued (x, e, alive, f) =
    ap (λ (o : Option OngoingStreamState). elim o [ none ↦ [] | some y ↦ id ∷ [] ]) e

task_behind-same : (id : ℕ) (r : Handled) (t : StreamTask) → r.aborted ≡ [] → task_behind id r t ≡ t
unfolding task_behind
task_behind-same id r t e = rw e refl

task_behind-aborts :
    (id : ℕ) (r : Handled) (t : StreamTask)
    → r.aborted ≡ id ∷ []
    → task_behind id r t ≡ task_step id t aborts
unfolding task_behind
task_behind-aborts id r t e = rw (e, ==_refl id) refl

disconnect-get :
    (side : Side) (id : ℕ) (answer : TrySend) (s : Streams)
    → get id (handle side (disconnect id) answer s).streams ≡ none
unfolding handle removing
disconnect-get side id answer s = get-remove id s

-- Without a cancelled token, no write is cut off by it.
not_cancelled :
    (id : ℕ) (t : StreamTask) (m : ChannelMessage) (n : ℕ)
    → t.spawned ≡ true
    → t.cancelled ≡ false
    → task_step id t (write_cancelled m n) ≡ t
unfolding task_step
not_cancelled id t m n spawned free = rw (spawned, free) refl

cut_short :
    (id : ℕ) (t : StreamTask) (bytes : List ℕ) (n : ℕ)
    → t.spawned ≡ true
    → t.writing.running ≡ true
    → let cut = task_step id (task_step id t aborts) (write_cancelled (data_msg id bytes) n) in
      (cut.writing.outgoing ≡ t.writing.outgoing ++ take n bytes) × (cut.writing.running ≡ false)
unfolding task_step on_write write_step on_wrote write_message
cut_short id t bytes n spawned on = (rw (spawned, on) refl, rw (spawned, on) refl)

-- DATA and then DISCONNECT of an open stream are handled, on either side, while the tasks of the stream run.
-- The DATA is put into the stream's channel, and its task is left alone: its token is not cancelled, so it
-- cannot cut off a write. The DISCONNECT removes the stream and aborts its task, which cancels the token. The
-- write task may then have written any number of the bytes when it meets that, and whatever its task meets
-- later, the socket is given no more: the rest, which was sent before the DISCONNECT, is lost.
pub bytes_can_be_lost :
    (side : Side) (id : ℕ) (bytes : List ℕ) (answer later : TrySend) (s : Streams)
    (queued : List ChannelMessage) (t : StreamTask) (n : ℕ) (es : List TaskEvent)
    → Holds id queued s
    → t.spawned ≡ true
    → t.writing.running ≡ true
    → t.cancelled ≡ false
    → let m = data_msg id bytes in
      let held = handle side m answer s in
      let told = task_behind id held t in
      let left = handle side (disconnect id) later held.streams in
      let cut = task_step id (task_behind id left told) (write_cancelled m n) in
      Holds id (queued ++ (m ∷ [])) held.streams
      × (task_step id told (write_cancelled m n) ≡ told)
      × (get id left.streams ≡ none)
      × (cut.writing.outgoing ≡ t.writing.outgoing ++ take n bytes)
      × ((stream_task id cut es).writing.outgoing ≡ cut.writing.outgoing)
bytes_can_be_lost side id bytes answer later s queued t n es here spawned on free =
    let m : ChannelMessage = data_msg id bytes in
    let held = handle side m answer s in
    let left = handle side (disconnect id) later held.streams in
    let kept = handle-Holds side m answer s id queued refl (expected_data side id bytes) here in
    let mine : own id m ≡ m ∷ [] = rw (==_refl id) refl in
    let there : Holds id (queued ++ (m ∷ [])) held.streams =
      subst (λ (l : List ChannelMessage). Holds id (queued ++ l) held.streams) mine kept in
    let same = task_behind-same id held t (data-aborted side id bytes answer s queued here) in
    let aborted =
      task_behind-aborts id left (task_behind id held t)
        (disconnect-aborted side id later held.streams _ there)
      ∙ ap (λ (u : StreamTask). task_step id u aborts) same in
    let cut = ap (λ (u : StreamTask). task_step id u (write_cancelled m n)) aborted in
    let (out, off) = cut_short id t bytes n spawned on in
    (
      there,
      ap (λ (u : StreamTask). task_step id u (write_cancelled m n)) same
          ∙ not_cancelled id t m n spawned free
          ∙ sym same,
      disconnect-get side id later held.streams,
      ap (λ (u : StreamTask). u.writing.outgoing) cut ∙ out,
      (stream_task-Stays id _ es (ap (λ (u : StreamTask). u.writing.running) cut ∙ off)).1,
    )
