-- ===== src/Multiplexer/Flow/Reads.antt =====
-- src/lib/stream_multiplexer.rs: the read task of `run_internal_stream` beside PAUSE and RESUME messages
-- for its stream.
use mobiletunnel.Prelude.{◌≡◌, refl, ap, ◌∙◌, List, [], ◌∷◌, Bool, true, false, not, arith}
use mobiletunnel.Multiplexer.Flow.{
  StreamFlowControl, new_flow, stop_reading, go_on_reading, read_round, Reading, reads_socket,
  looks_again, blocked,
}

-- What can happen: the peer's PAUSE or RESUME, or the read task at the top of its loop.
pub data ReadEvent : Type 0 where
  told_pause told_resume looks : ReadEvent

unfoldable read_step : StreamFlowControl → ReadEvent → StreamFlowControl
unfolding read_round stop_reading go_on_reading
read_step flow told_pause = stop_reading flow
read_step flow told_resume = go_on_reading flow
read_step flow looks = (read_round flow).0

pub read_run : StreamFlowControl → List ReadEvent → StreamFlowControl
unfolding read_step
read_run flow [] = flow
read_run flow (e ∷ es) = read_run (read_step flow e) es

-- Whether the last thing that the peer said is PAUSE.
abbrev pub paused_last : Bool → List ReadEvent → Bool
paused_last paused [] = paused
paused_last paused (told_pause ∷ es) = paused_last true es
paused_last paused (told_resume ∷ es) = paused_last false es
paused_last paused (looks ∷ es) = paused_last paused es

abbrev pub is_reading : Reading → Bool
is_reading reads_socket = true
is_reading looks_again = false
is_reading blocked = false

looks-paused : (flow : StreamFlowControl) → (read_round flow).0.read_paused ≡ flow.read_paused
unfolding read_round
looks-paused flow = ground arith

run-paused :
    (flow : StreamFlowControl) (es : List ReadEvent)
    → (read_run flow es).read_paused ≡ paused_last flow.read_paused es
unfolding read_run read_step stop_reading go_on_reading
run-paused flow [] = refl
run-paused flow (told_pause ∷ es) = run-paused (stop_reading flow) es
run-paused flow (told_resume ∷ es) = run-paused (go_on_reading flow) es
run-paused flow (looks ∷ es) =
    run-paused (read_round flow).0 es ∙ ap (λ paused. paused_last paused es) (looks-paused flow)

reading-round : (flow : StreamFlowControl) → is_reading (read_round flow).1 ≡ not flow.read_paused
unfolding read_round
reading-round flow = ground arith

-- After any PAUSE and RESUME messages, and any rounds of the read task between them, notifications that
-- were left over included: the next round reads from the socket exactly when the last of the messages,
-- if any, is not PAUSE.
pub reads_as_told :
    (es : List ReadEvent)
    → is_reading (read_round (read_run new_flow es)).1 ≡ not (paused_last false es)
unfolding new_flow
reads_as_told es = rw (reading-round (read_run new_flow es), run-paused new_flow es) refl
