-- ===== src/Stream/Runner/Client.antt =====
-- src/lib/reconnecting_stream.rs: what a client keeps over all its connections, whatever the other ends send.
use mobiletunnel.Prelude.{
  ℕ, ◌≡◌, refl, List, [], ◌∷◌, ◌++◌, none, some, Bool, true, false, not, ◌||◌, if◌then◌else◌,
}
use mobiletunnel.Stream.Codec.{StreamCodecMessage}
use mobiletunnel.Stream.State.{StreamState, enqueue, is_full}
use mobiletunnel.Stream.Session.{
  Phase, awaiting_hello, looping, returned, crashed, start, run_stream,
}
use mobiletunnel.Stream.Runner.{
  WaitEvent, cancelled, slept, app_waits, on_waiting_app, wait_step, run_unconnected_stream, served,
  has_broken, ClientRound, connection, client_round, run_client,
}
use mobiletunnel.Stream.Runner.Peer.{
  Later, Later-refl, Later-trans, by_eq, unchanged, run_stream-Later,
}

start-state : (wrote : Bool) (x : StreamState) → (start wrote x).state ≡ x
unfolding start
start-state true x = refl
start-state false x = refl

-- Whichever way a test goes, on a state and whether to go on.
choice_Later :
    (x : StreamState) (b : Bool) (p q : StreamState × Bool)
    → Later x p.0
    → Later x q.0
    → Later x (if b then p else q).0
choice_Later x true p q h k = h
choice_Later x false p q h k = k

last_Later :
    (x : StreamState) (b : Bool) (y z : StreamState)
    → Later x y
    → Later x z
    → Later x (if b then y else z)
last_Later x true y z h k = h
last_Later x false y z h k = k

wait_step-Later : (x : StreamState) (e : WaitEvent) → Later x (wait_step x e).0
unfolding wait_step on_waiting_app enqueue
wait_step-Later x cancelled = Later-refl x
wait_step-Later x slept = Later-refl x
wait_step-Later x (app_waits none) = choice_Later x (is_full x) _ _ (Later-refl x) (Later-refl x)
wait_step-Later x (app_waits (some payload)) =
    choice_Later x (is_full x) _ _ (Later-refl x) (unchanged x (enqueue x payload) refl refl refl)

wait-Later : (x : StreamState) (es : List WaitEvent) → Later x (run_unconnected_stream x es)
unfolding run_unconnected_stream
wait-Later x [] = Later-refl x
wait-Later x (e ∷ es) =
    let now = wait_step-Later x e in
    last_Later x (wait_step x e).1 _ _ now
      (Later-trans x (wait_step x e).0 _ now (wait-Later (wait_step x e).0 es))

served-state :
    (ph : Phase) (x : StreamState) (written : List StreamCodecMessage) (o b : Bool)
    → (served (record { state = x; phase = ph; written = written; writer_open = o }) b).0 ≡ x
served-state awaiting_hello x written o b = refl
served-state looping x written o b = refl
served-state returned x written o b = refl
served-state crashed x written o b = refl

connection-Later : (x : StreamState) (r : ClientRound) → Later x (connection x r).0
unfolding connection
connection-Later x r =
    let s = run_stream (start r.wrote x) r.events in
    let through = not (has_broken (start r.wrote x) r.events) || r.joined in
    choice_Later x r.connects _ _
      (Later-trans x s.state _
        (Later-trans x (start r.wrote x).state s.state (by_eq x _ (start-state r.wrote x))
          (run_stream-Later (start r.wrote x) r.events))
        (by_eq s.state _ (served-state s.phase s.state s.written s.writer_open through)))
      (Later-refl x)

round-Later : (x : StreamState) (r : ClientRound) → Later x (client_round x r).0
unfolding client_round
round-Later x r =
    let c = connection x r in
    let now = connection-Later x r in
    choice_Later x r.is_cancelled _ _ (Later-refl x)
      (choice_Later x c.1 _ _ (Later-trans x c.0 _ now (wait-Later c.0 r.waits)) now)

run_client-Later : (x : StreamState) (rs : List ClientRound) → Later x (run_client x rs)
unfolding run_client
run_client-Later x [] = Later-refl x
run_client-Later x (r ∷ rs) =
    let now = round-Later x r in
    let y = (client_round x r).0 in
    last_Later x (client_round x r).1 _ _ (Later-trans x y _ now (run_client-Later y rs)) now

-- Over any rounds of the client's loop, whatever the other ends of its connections send and however they
-- end: the client keeps its own id, and what its application was given stays, with more behind it.
pub client_only_adds :
    (x : StreamState) (rs : List ClientRound)
    → ((run_client x rs).id ≡ x.id)
      × ((more : List (List ℕ)) × ((run_client x rs).sender ≡ x.sender ++ more))
client_only_adds x rs = let l = run_client-Later x rs in (l.same_id, l.grown)

-- Once a client knows the id of its peer, no round changes it, whatever the other ends send.
pub peer_is_pinned :
    (x : StreamState) (rs : List ClientRound) (k : ℕ)
    → x.remote_id ≡ some k
    → (run_client x rs).remote_id ≡ some k
peer_is_pinned x rs k h = (run_client-Later x rs).pinned k h
