-- ===== src/Multiplexer/Flow/Races.antt =====
-- src/lib/stream_multiplexer.rs: `OngoingStreamTracker::data` counts a message in by several atomic
-- operations, between which the write task may count messages out.
use mobiletunnel.Prelude.{
  ℕ, zero, suc, ◌+◌, ◌%◌, ◌^◌, ◌≡◌, refl, Bool, true, false, ◌&&◌, ◌||◌, not, leb, if◌then◌else◌,
}
use mobiletunnel.Multiplexer.Flow.{
  StreamFlowControl, TrySend, taken, full, closed, Counted, counted, pause_sent, pause_failed,
  count_in, count_out, backpressure_high_water,
}

-- `fetch_add`.
pub add_pending : StreamFlowControl → StreamFlowControl
add_pending flow = record flow { pending = (flow.pending + 1) % 2 ^ 64 }

-- What follows it, with the count that `fetch_add` gave.
pub raise_pause : ℕ → TrySend → StreamFlowControl → StreamFlowControl × Counted
raise_pause pending answer flow =
    if leb backpressure_high_water pending && not flow.sent_pause
    then elim answer [
      | taken ↦ (record flow { sent_pause = true }, pause_sent)
      | full ↦ (record flow { sent_pause = false }, counted)
      | closed ↦ (record flow { sent_pause = true }, pause_failed)
    ]
    else (flow, counted)

-- Without an overlap, the two parts are what counting in is.
pub count_in-raise_pause :
    (flow : StreamFlowControl) (answer : TrySend)
    → count_in flow answer ≡ raise_pause (add_pending flow).pending answer (add_pending flow)
unfolding count_in add_pending raise_pause
count_in-raise_pause flow answer = refl

-- Messages that come in when the channel has no room for a PAUSE.
pub many_in : ℕ → StreamFlowControl → StreamFlowControl
many_in zero flow = flow
many_in (suc n) flow = (count_in (many_in n flow) full).0

-- Messages that the write task takes out, with whether it sent any RESUME.
pub many_out : ℕ → StreamFlowControl → StreamFlowControl × Bool
many_out zero flow = (flow, false)
many_out (suc n) flow =
    let (less, resuming) = count_out flow in
    let (least, resumed) = many_out n less in (least, resuming || resumed)

abbrev quiet : ℕ → StreamFlowControl
quiet n = record { pending = n; sent_pause = false; read_paused = false; resume_permit = false }
