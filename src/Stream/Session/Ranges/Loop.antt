-- ===== src/Stream/Session/Ranges/Loop.antt =====
-- src/lib/reconnecting_stream.rs: the machine ranges, over the loop of `run_stream`.
use mobiletunnel.Prelude.{
  ℕ, ◌+◌, ◌%◌, ◌^◌, ◌<◌, List, [], ◌∷◌, Bool, Option, none, some, Outcome, ok, err, panic, All,
  All-append, arith,
}
use mobiletunnel.Stream.Codec.{StreamCodecMessage, hello, data_msg, ack_msg}
use mobiletunnel.Stream.Codec.RoundTrip.{Fits}
use mobiletunnel.Stream.State.{StreamState, AckError, enqueue, ack, received_one_message, is_full}
use mobiletunnel.Stream.Session.{
  write, Phase, awaiting_hello, looping, returned, crashed, Session, Event, killed, app_rx, tcp_rx,
  writer_died, leave, start, on_app, on_data, on_ack, on_tcp, step_waiting, step_looping, step_in,
  step, run_stream,
}
use mobiletunnel.Stream.Session.Ranges.{
  behind_write, InTypes, IsSound, IsTypedEvent, choice, leave-IsSound, write-Goes, wrote-IsSound,
  write-IsSound, start-IsSound, AckFits, ack-AckFits, with_state, on_first-IsSound,
}

on_ack-IsSound : (s : Session) (seq : ℕ) → seq < 2 ^ 64 → IsSound s → IsSound (on_ack s seq)
unfolding on_ack
on_ack-IsSound s seq r h = go (ack s.state seq) (ack-AckFits s.state seq h.types r)
  where
    go :
        (r : Outcome AckError StreamState)
        → AckFits r
        → IsSound
            (elim r [ ok state ↦ record s { state = state } | err e ↦ leave s | panic ↦ leave s ])
    go (ok state) f = with_state s state (unfold AckFits in f) h
    go (err e) f = leave-IsSound s h
    go panic f = leave-IsSound s h

on_data-IsSound : (s : Session) (payload : List ℕ) → IsSound s → IsSound (on_data s payload)
unfolding on_data received_one_message
on_data-IsSound s payload h =
    let seq : (s.state.received_seq + 1) % 2 ^ 64 < 2 ^ 64 = omega arith in
    choice s.state.app_open _ _
      (write-IsSound _ (ack_msg ((s.state.received_seq + 1) % 2 ^ 64)) seq (
        with_state s _
          (record {
            id = h.types.id;
            remote = h.types.remote;
            queue = h.types.queue;
            base = h.types.base;
            seq = seq;
          })
          h))
      (leave-IsSound s h)

on_tcp-IsSound :
    (s : Session) (m : Option StreamCodecMessage)
    → IsTypedEvent (tcp_rx m)
    → IsSound s
    → IsSound (on_tcp s m)
unfolding on_tcp
on_tcp-IsSound s none r h = leave-IsSound s h
on_tcp-IsSound s (some (hello hm)) r h = leave-IsSound s h
on_tcp-IsSound s (some (ack_msg k)) r h = on_ack-IsSound s k r h
on_tcp-IsSound s (some (data_msg p)) r h = on_data-IsSound s p h

enqueue-InTypes :
    (state : StreamState) (p : List ℕ) → Fits p → InTypes state → InTypes (enqueue state p)
unfolding enqueue
enqueue-InTypes state p f h = record {
  id = h.id;
  remote = h.remote;
  queue = All-append Fits state.sent_unacked (p ∷ []) h.queue (f, tt);
  base = h.base;
  seq = h.seq;
}

on_app-IsSound :
    (s : Session) (m : Option (List ℕ)) → IsTypedEvent (app_rx m) → IsSound s → IsSound (on_app s m)
unfolding on_app
on_app-IsSound s none f h = leave-IsSound s h
on_app-IsSound s (some p) f h =
    let s' : Session = record s { state = enqueue s.state p } in
    let h' : IsSound s' = with_state s _ (enqueue-InTypes s.state p f h.types) h in
    behind_write (write s' (data_msg p)) s' _ (λ t. t) (write-Goes s' (data_msg p) f)
      (wrote-IsSound s' (data_msg p) f h') h'

step_looping-IsSound :
    (s : Session) (e : Event) → IsTypedEvent e → IsSound s → IsSound (step_looping s e)
unfolding step_looping
step_looping-IsSound s killed f h = leave-IsSound s h
step_looping-IsSound s (app_rx m) f h = choice (is_full s.state) _ _ h (on_app-IsSound s m f h)
step_looping-IsSound s (tcp_rx m) f h = on_tcp-IsSound s m f h
step_looping-IsSound s writer_died f h = record {
  types = h.types;
  messages = h.messages;
  alive = h.alive;
}

step_waiting-IsSound :
    (s : Session) (e : Event) → IsTypedEvent e → IsSound s → IsSound (step_waiting s e)
unfolding step_waiting
step_waiting-IsSound s killed f h = leave-IsSound s h
step_waiting-IsSound s (app_rx m) f h = h
step_waiting-IsSound s (tcp_rx m) f h = on_first-IsSound s m f h
step_waiting-IsSound s writer_died f h = record {
  types = h.types;
  messages = h.messages;
  alive = h.alive;
}

step_in-IsSound :
    (ph : Phase) (s : Session) (e : Event) → IsTypedEvent e → IsSound s → IsSound (step_in ph s e)
unfolding step_in
step_in-IsSound awaiting_hello s e f h = step_waiting-IsSound s e f h
step_in-IsSound looping s e f h = step_looping-IsSound s e f h
step_in-IsSound returned s e f h = h
step_in-IsSound crashed s e f h = h

run_stream_on :
    (s : Session) (es : List Event) → All IsTypedEvent es → IsSound s → IsSound (run_stream s es)
unfolding run_stream step
run_stream_on s [] f h = h
run_stream_on s (e ∷ es) (f, fs) h =
    run_stream_on (step s e) es fs (step_in-IsSound s.phase s e f h)

-- A connection that starts with a state whose fields are in the ranges of their types and whose queued
-- messages are below 4 GB, over any events that bring messages of the peer within the ranges of their
-- fields and messages of the application below 4 GB: at every moment the state is in these ranges again,
-- so is every message that was handed to the writer task, and `run_stream` has not panicked in `encode`.
pub run_stream-IsSound :
    (wrote : Bool) (state : StreamState) (es : List Event)
    → InTypes state
    → All IsTypedEvent es
    → IsSound (run_stream (start wrote state) es)
run_stream-IsSound wrote state es h f = run_stream_on _ es f (start-IsSound wrote state h)
