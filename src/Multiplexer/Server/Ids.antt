-- ===== src/Multiplexer/Server/Ids.antt =====
-- src/lib/stream_multiplexer.rs: the stream ids of `StreamMultiplexerClient::run`.
use mathlib.Core.Path.{subst}
use mobiletunnel.Prelude.{
  ℕ, suc, ◌+◌, ◌%◌, ◌^◌, ◌<◌, ◌≤◌, ◌≡◌, refl, ◌∙◌, ap, inl, inr, List, [], ◌∷◌, ◌++◌, none, some,
  Bool, true, false, ◌==◌, arith, ok, err, panic, Bool-cases, length, Outcome,
}
use mobiletunnel.Multiplexer.Message.{
  ChannelMessage, connect, data_msg, disconnect, error_msg, pause, resume, MultiplexerError, encode,
}
use mobiletunnel.Multiplexer.Flow.{TrySend}
use mobiletunnel.Multiplexer.Tracker.{
  Streams, get, Handled, pause_read, resume_read, new_stream, fresh_stream,
}
use mobiletunnel.Multiplexer.Tracker.Streams.{get-remove, get-update-none}
use mobiletunnel.Multiplexer.Server.{
  client, handle, on_connect, Multiplexer, new_multiplexer, Status, running, Event, interrupted,
  accepted, from_channel, from_stream, opened, on_accept, on_channel, step_running, step_in, step,
  run,
}
use mobiletunnel.Multiplexer.Server.Handling.{
  stream_of, handle_others, with_data, data-get, new_stream-none, get-fresh, get-fresh_other,
}
use mobiletunnel.Multiplexer.Server.Loop.{handle_all, and_then, process-refines}

-- A message of the other end opens no stream at the client.
handle-none_own :
    (m : ChannelMessage) (answer : TrySend) (s : Streams)
    → get (stream_of m) s ≡ none
    → get (stream_of m) (handle client m answer s).streams ≡ none
unfolding handle on_connect pause_read resume_read
handle-none_own (connect id) answer s h = h
handle-none_own (data_msg id to_send) answer s h =
    data-get id to_send answer s ∙ ap (with_data id to_send answer) h
handle-none_own (disconnect id) answer s h = get-remove id s
handle-none_own (error_msg id message) answer s h = get-remove id s
handle-none_own (pause id) answer s h = get-update-none id _ s h
handle-none_own (resume id) answer s h = get-update-none id _ s h

handle-none :
    (m : ChannelMessage) (answer : TrySend) (s : Streams) (key : ℕ)
    → get key s ≡ none
    → get key (handle client m answer s).streams ≡ none
handle-none m answer s key h = elim (Bool-cases (stream_of m == key)) [
  | inl same ↦
      let e : stream_of m ≡ key = ground arith in
      subst (λ (k : ℕ). get k s ≡ none → get k (handle client m answer s).streams ≡ none) e
        (handle-none_own m answer s) h
  | inr other ↦ handle_others client m answer s key (λ c. absurd (ground arith)) ∙ h
]

and_then-none :
    (key : ℕ) (s : Streams) (frames : List (List ℕ)) (result : Outcome MultiplexerError (Unit {0}))
    (aborted : List ℕ) (rest : Handled)
    → get key s ≡ none
    → get key rest.streams ≡ none
    → get key
        (and_then
          (record { streams = s; frames = frames; result = result; aborted = aborted })
          rest).streams
      ≡ none
and_then-none key s frames (ok done) aborted rest h k = k
and_then-none key s frames (err e) aborted rest h k = h
and_then-none key s frames panic aborted rest h k = h

handle_all-none :
    (answer : ℕ → TrySend) (n : ℕ) (ms : List ChannelMessage) (s : Streams) (key : ℕ)
    → get key s ≡ none
    → get key (handle_all client answer n ms s).streams ≡ none
unfolding handle_all
handle_all-none answer n [] s key h = h
handle_all-none answer n (m ∷ ms) s key h =
    let r = handle client m (answer n) s in
    let now = handle-none m (answer n) s key h in
    and_then-none key r.streams r.frames r.result r.aborted _ now
      (handle_all-none answer (suc n) ms r.streams key now)

-- No stream has an id that the client has not given out yet.
abbrev pub Below : ℕ → Streams → Type 0
Below n s = (key : ℕ) → n ≤ key → get key s ≡ none

record IdInv (bound : ℕ) (m : Multiplexer) : Type 0 where
  below : Below m.stream_id m.streams
  few : m.stream_id ≤ bound

channel-IdInv :
    (bound : ℕ) (m : Multiplexer) (bytes : List ℕ) (answer : ℕ → TrySend)
    → IdInv bound m
    → IdInv bound (on_channel client m bytes answer)
unfolding on_channel
channel-IdInv bound m bytes answer v = record {
  below = λ key. λ h.
      ap (λ r. get key r.streams) (process-refines client answer m.parser bytes m.streams)
      ∙ handle_all-none answer 0 _ m.streams key (v.below key h);
  few = v.few;
}

new_stream-Below : (n : ℕ) (s : Streams) → Below n s → Below (n + 1) (new_stream n s).streams
new_stream-Below n s h =
    rw (new_stream-none n s (h n (omega arith)))
      (λ key. λ le. get-fresh_other n key s (omega arith) ∙ h key (omega arith))

accept-eq :
    (m : Multiplexer)
    → get m.stream_id m.streams ≡ none
    → on_accept client m true true ≡ record m {
      streams = (m.stream_id, fresh_stream) ∷ m.streams;
      frames = m.frames ++ (encode (connect m.stream_id) ∷ []);
      stream_id = (m.stream_id + 1) % 2 ^ 64;
    }
unfolding on_accept
accept-eq m h =
    ap
      (opened (record m {
        frames = m.frames ++ (encode (connect m.stream_id) ∷ []);
        stream_id = (m.stream_id + 1) % 2 ^ 64;
      }))
      (new_stream-none m.stream_id m.streams h)

wide : (n : ℕ) → n + 1 < 2 ^ 64 → (n + 1) % 2 ^ 64 ≡ n + 1
wide n h = omega arith

accept-IdInv :
    (bound : ℕ) (m : Multiplexer) (accepts delivered : Bool)
    → bound + 1 < 2 ^ 64
    → IdInv bound m
    → IdInv (bound + 1) (on_accept client m accepts delivered)
accept-IdInv bound m false delivered h v =
    unfold on_accept in record { below = v.below; few = let few = v.few in omega arith }
accept-IdInv bound m true false h v =
    let few = v.few in
    let e = wide m.stream_id (omega arith) in
    unfold on_accept in
    record { below = rw e (λ key. λ le. v.below key (omega arith)); few = rw e (omega arith) }
accept-IdInv bound m true true h v =
    let few = v.few in
    let e = wide m.stream_id (omega arith) in
    rw (accept-eq m (v.below m.stream_id (omega arith))) (record {
      below = rw e (λ key. λ le.
          get-fresh_other m.stream_id key m.streams (omega arith) ∙ v.below key (omega arith));
      few = rw e (omega arith);
    })

IdInv-suc : (bound : ℕ) (m : Multiplexer) → IdInv bound m → IdInv (bound + 1) m
IdInv-suc bound m v = record { below = v.below; few = let few = v.few in omega arith }

running-IdInv :
    (bound : ℕ) (m : Multiplexer) (e : Event)
    → bound + 1 < 2 ^ 64
    → IdInv bound m
    → IdInv (bound + 1) (step_running client m e)
unfolding step_running
running-IdInv bound m interrupted h v = IdInv-suc bound _ (record { below = v.below; few = v.few })
running-IdInv bound m (accepted accepts delivered) h v = accept-IdInv bound m accepts delivered h v
running-IdInv bound m (from_channel none answer) h v =
    IdInv-suc bound _ (record { below = v.below; few = v.few })
running-IdInv bound m (from_channel (some bytes) answer) h v =
    IdInv-suc bound _ (channel-IdInv bound m bytes answer v)
running-IdInv bound m (from_stream none delivered) h v =
    IdInv-suc bound _ (record { below = v.below; few = v.few })
running-IdInv bound m (from_stream (some message) true) h v =
    IdInv-suc bound _ (record { below = v.below; few = v.few })
running-IdInv bound m (from_stream (some message) false) h v =
    IdInv-suc bound _ (record { below = v.below; few = v.few })

step_in-IdInv :
    (bound : ℕ) (status : Status) (m : Multiplexer) (e : Event)
    → bound + 1 < 2 ^ 64
    → IdInv bound m
    → IdInv (bound + 1) (step_in status client m e)
step_in-IdInv bound running m e h v = running-IdInv bound m e h v
step_in-IdInv bound Status.stopped_ok m e h v = IdInv-suc bound m v
step_in-IdInv bound Status.crashed m e h v = IdInv-suc bound m v
step_in-IdInv bound Status.out_of_fuel m e h v = IdInv-suc bound m v
step_in-IdInv bound (Status.stopped_err x) m e h v = IdInv-suc bound m v

run-IdInv :
    (bound : ℕ) (m : Multiplexer) (es : List Event)
    → bound + length es < 2 ^ 64
    → IdInv bound m
    → IdInv (bound + length es) (run client m es)
unfolding run step
run-IdInv bound m [] h v = let e : bound + 0 ≡ bound = omega arith in rw e v
run-IdInv bound m (e ∷ es) h v =
    let v' = step_in-IdInv bound m.status m e (omega arith) v in
    let e' : bound + 1 + length es ≡ bound + suc (length es) = omega arith in
    subst (λ (b : ℕ). IdInv b (run client (step client m e) es)) e'
      (run-IdInv (bound + 1) (step client m e) es (omega arith) v')

step-accept :
    (m : Multiplexer)
    → m.status ≡ running
    → step client m (accepted true true) ≡ on_accept client m true true
unfolding step step_running
step-accept m now = ap (λ (status : Status). step_in status client m (accepted true true)) now

start-IdInv : IdInv 1 new_multiplexer
unfolding new_multiplexer get
start-IdInv = record { below = λ key. λ le. refl; few = omega arith }

-- Whatever happened to the client before, within 2^64 - 2 events and with its loop still running: the
-- next connection gets an id that no stream has, so `new_stream` does not refuse it, and what is left
-- is a fresh stream under that id, CONNECT for it written to the other end, and the loop running.
pub accepts_fresh_id :
    (es : List Event)
    → suc (length es) < 2 ^ 64
    → (run client new_multiplexer es).status ≡ running
    → let m = run client new_multiplexer es in
      let m' = step client m (accepted true true) in
      (get m.stream_id m.streams ≡ none)
      × (get m.stream_id m'.streams ≡ some fresh_stream)
      × (m'.frames ≡ m.frames ++ (encode (connect m.stream_id) ∷ []))
      × (m'.status ≡ running)
accepts_fresh_id es h now =
    let m = run client new_multiplexer es in
    let v = run-IdInv 1 new_multiplexer es (omega arith) start-IdInv in
    let free = v.below m.stream_id (omega arith) in
    rw (step-accept m now ∙ accept-eq m free) (free, get-fresh m.stream_id m.streams, refl, now)
