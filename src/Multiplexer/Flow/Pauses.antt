-- ===== src/Multiplexer/Flow/Pauses.antt =====
-- src/lib/stream_multiplexer.rs: PAUSE and RESUME of one stream, as long as counting a message in and taking it
-- out do not overlap. A PAUSE goes straight into the channel to the other end, and a RESUME through the
-- tracker's channel, from which `run` sends it on.
use mobiletunnel.Prelude.{
  ℕ, zero, suc, ◌+◌, ◌^◌, ◌≡◌, ◌≤◌, ◌<◌, inl, inr, refl, ap, List, [], ◌∷◌, Bool, true, false,
  arith, Bool-cases, length, if◌then◌else◌,
}
use mobiletunnel.Multiplexer.Flow.{
  StreamFlowControl, new_flow, taken, full, Counted, counted, pause_sent, pause_failed, count_in,
  count_out, backpressure_low_water, backpressure_high_water,
}

-- What happens: the multiplexer counts a message in, with or without room in its channel for a PAUSE; the
-- write task counts one out; or `run` takes a RESUME from the tracker's channel and sends it on.
pub data FlowEvent : Type 0 where
  arrives : Bool → FlowEvent
  leaves forwards : FlowEvent

-- The flow control; the messages that were counted in and not yet out; the RESUMEs in the tracker's channel,
-- or on their way into it; and what went to the other end: `true` for a PAUSE, `false` for a RESUME, the
-- newest first.
pub record FlowRun : Type 0 where
  pub flow : StreamFlowControl
  pub waiting : ℕ
  pub resumes : ℕ
  pub told : List Bool

abbrev pub tell : Counted → List Bool → List Bool
tell pause_sent told = true ∷ told
tell counted told = told
tell pause_failed told = told

unfoldable pub leave_step : ℕ → FlowRun → FlowRun
unfolding count_out
leave_step zero r = r
leave_step (suc n) r =
    let (flow, resuming) = count_out r.flow in
    record r { flow = flow; waiting = n; resumes = if resuming then suc r.resumes else r.resumes }

unfoldable pub forward_step : ℕ → FlowRun → FlowRun
forward_step zero r = r
forward_step (suc n) r = record r { resumes = n; told = false ∷ r.told }

unfoldable pub flow_step : FlowRun → FlowEvent → FlowRun
unfolding count_in leave_step forward_step
flow_step r (arrives room) =
    let (flow, result) = count_in r.flow (if room then taken else full) in
    record r { flow = flow; waiting = r.waiting + 1; told = tell result r.told }
flow_step r leaves = leave_step r.waiting r
flow_step r forwards = forward_step r.resumes r

unfoldable pub flow_run : FlowRun → List FlowEvent → FlowRun
unfolding flow_step
flow_run r [] = r
flow_run r (e ∷ es) = flow_run (flow_step r e) es

abbrev pub flow_start : FlowRun
flow_start = record { flow = new_flow; waiting = 0; resumes = 0; told = [] }

-- How many PAUSEs went out, and how many RESUMEs.
abbrev pub pauses : List Bool → ℕ
pauses [] = 0
pauses (true ∷ told) = suc (pauses told)
pauses (false ∷ told) = pauses told

abbrev pub resumings : List Bool → ℕ
resumings [] = 0
resumings (true ∷ told) = resumings told
resumings (false ∷ told) = suc (resumings told)

abbrev pub one_if : Bool → ℕ
one_if true = 1
one_if false = 0

-- The last of what went out is no PAUSE.
abbrev pub may_send : List Bool → Bool
may_send [] = true
may_send (true ∷ told) = false
may_send (false ∷ told) = true

record FlowInv (r : FlowRun) : Type 0 where
  exact : r.flow.pending ≡ r.waiting
  draining : (r.flow.sent_pause ≡ true) → backpressure_low_water ≤ r.waiting
  counts_match : pauses r.told ≡ (resumings r.told + r.resumes) + one_if r.flow.sent_pause
  last : (r.flow.sent_pause ≡ false) → (r.resumes ≡ 0) → may_send r.told ≡ true

arrives-FlowInv :
    (r : FlowRun) (room : Bool)
    → r.waiting + 1 < 2 ^ 64
    → FlowInv r
    → FlowInv (flow_step r (arrives room))
unfolding flow_step
arrives-FlowInv r true h v = ground arith
arrives-FlowInv r false h v = ground arith

leave-FlowInv :
    (n : ℕ) (r : FlowRun) → r.waiting ≡ n → n < 2 ^ 64 → FlowInv r → FlowInv (leave_step n r)
unfolding leave_step
leave-FlowInv zero r e h v = v
leave-FlowInv (suc n) r e h v = ground arith

forward-FlowInv : (n : ℕ) (r : FlowRun) → r.resumes ≡ n → FlowInv r → FlowInv (forward_step n r)
unfolding forward_step
forward-FlowInv zero r e v = v
forward-FlowInv (suc n) r e v = record {
  exact = v.exact;
  draining = v.draining;
  counts_match = let m = v.counts_match in omega (arith, e);
  last = λ down. λ none_left. refl;
}

forward-waiting : (n : ℕ) (r : FlowRun) → (forward_step n r).waiting ≡ r.waiting
unfolding forward_step
forward-waiting zero r = refl
forward-waiting (suc n) r = refl

leaves-waiting : (n : ℕ) (r : FlowRun) → r.waiting ≡ n → (leave_step n r).waiting ≤ n
unfolding leave_step
leaves-waiting zero r e = ground arith
leaves-waiting (suc n) r e = ground arith

step-waiting : (r : FlowRun) (e : FlowEvent) → (flow_step r e).waiting ≤ r.waiting + 1
unfolding flow_step
step-waiting r (arrives room) = omega arith
step-waiting r leaves = let few = leaves-waiting r.waiting r refl in omega arith
step-waiting r forwards = let same = forward-waiting r.resumes r in omega arith

step-FlowInv :
    (r : FlowRun) (e : FlowEvent) → r.waiting + 1 < 2 ^ 64 → FlowInv r → FlowInv (flow_step r e)
unfolding flow_step
step-FlowInv r (arrives room) h v = arrives-FlowInv r room h v
step-FlowInv r leaves h v = leave-FlowInv r.waiting r refl (omega arith) v
step-FlowInv r forwards h v = forward-FlowInv r.resumes r refl v

run-FlowInv :
    (r : FlowRun) (es : List FlowEvent)
    → r.waiting + length es < 2 ^ 64
    → FlowInv r
    → FlowInv (flow_run r es)
unfolding flow_run
run-FlowInv r [] h v = v
run-FlowInv r (e ∷ es) h v =
    let few = step-waiting r e in
    run-FlowInv (flow_step r e) es (omega arith) (step-FlowInv r e (omega arith) v)

run-waiting : (r : FlowRun) (es : List FlowEvent) → (flow_run r es).waiting ≤ r.waiting + length es
unfolding flow_run
run-waiting r [] = omega arith
run-waiting r (e ∷ es) =
    let now = step-waiting r e in let later = run-waiting (flow_step r e) es in omega arith

start-FlowInv : FlowInv flow_start
unfolding new_flow
start-FlowInv = record {
  exact = refl;
  draining = λ h. ground arith;
  counts_match = refl;
  last = λ down. λ none_left. refl;
}

events-FlowInv : (es : List FlowEvent) → length es < 2 ^ 64 → FlowInv (flow_run flow_start es)
events-FlowInv es h = run-FlowInv flow_start es (omega arith) start-FlowInv

-- When counting a message in and counting one out do not overlap, and there are fewer than 2^64 events: the
-- counter is the number of messages that wait; and as many PAUSEs went out as RESUMEs went out or wait in the
-- tracker's channel, and one more while the flag is up.
pub pauses_match :
    (es : List FlowEvent)
    → length es < 2 ^ 64
    → let r = flow_run flow_start es in
      (r.flow.pending ≡ r.waiting)
      × (pauses r.told ≡ (resumings r.told + r.resumes) + one_if r.flow.sent_pause)
pauses_match es h = let v = events-FlowInv es h in (v.exact, v.counts_match)

-- When counting in and counting out do not overlap, with fewer than 2^64 events: once fewer messages wait
-- than the low-water mark, the flag is down; and when no RESUME is left in the tracker's channel either, the
-- last that went out is no PAUSE, and as many RESUMEs as PAUSEs went out.
pub resumed_when_drained :
    (es : List FlowEvent)
    → length es < 2 ^ 64
    → let r = flow_run flow_start es in
      r.waiting < backpressure_low_water
      → r.resumes ≡ 0
      → (r.flow.sent_pause ≡ false) × (may_send r.told ≡ true) × (pauses r.told ≡ resumings r.told)
resumed_when_drained es h low none_left =
    let v = events-FlowInv es h in
    elim (Bool-cases (flow_run flow_start es).flow.sent_pause) [
      | inl p ↦ absurd (omega (arith, v.draining p))
      | inr p ↦ let m = v.counts_match in (p, v.last p none_left, omega (arith, ap one_if p))
    ]

overtakes :
    (r : FlowRun)
    → r.flow.pending ≡ r.waiting
    → r.waiting + 1 < 2 ^ 64
    → r.flow.sent_pause ≡ false
    → r.resumes ≡ 1
    → backpressure_high_water ≤ r.waiting + 1
    → let after = flow_run r (arrives true ∷ forwards ∷ []) in
      (after.told ≡ false ∷ true ∷ r.told)
      × (after.flow.sent_pause ≡ true)
      × (after.waiting ≡ r.waiting + 1)
      × (after.resumes ≡ 0)
unfolding flow_run flow_step count_in forward_step
overtakes r exact few down one high = rw one (ground arith)

-- When counting in and counting out do not overlap, with fewer than 2^64 events: if a RESUME still waits in
-- the tracker's channel when the high-water mark is crossed again, the PAUSE that is due goes out before it.
-- The last that went out is then the RESUME, with the high-water mark or more messages waiting and the flag
-- up, so that no other PAUSE is due.
pub pause_can_be_overtaken :
    (es : List FlowEvent)
    → suc (length es) < 2 ^ 64
    → (flow_run flow_start es).flow.sent_pause ≡ false
    → (flow_run flow_start es).resumes ≡ 1
    → backpressure_high_water ≤ (flow_run flow_start es).waiting + 1
    → let r = flow_run flow_start es in
      let after = flow_run r (arrives true ∷ forwards ∷ []) in
      (after.told ≡ false ∷ true ∷ r.told)
      × (after.flow.sent_pause ≡ true)
      × (after.waiting ≡ r.waiting + 1)
      × (after.resumes ≡ 0)
pause_can_be_overtaken es h down one high =
    let few = run-waiting flow_start es in
    overtakes (flow_run flow_start es) (events-FlowInv es (omega arith)).exact (omega arith) down
      one high

counts-pause :
    (flow : StreamFlowControl)
    → flow.pending + 1 < 2 ^ 64
    → backpressure_high_water ≤ flow.pending + 1
    → (count_in flow taken).0.sent_pause ≡ true
unfolding count_in
counts-pause flow h high = ground arith

-- When counting in and counting out do not overlap, with fewer than 2^64 of them: a message that
-- arrives when there is room for a PAUSE, and leaves the high-water mark or more waiting, leaves the
-- flag up.
pub paused_at_high_water :
    (es : List FlowEvent)
    → suc (length es) < 2 ^ 64
    → backpressure_high_water ≤ (flow_run flow_start es).waiting + 1
    → (flow_step (flow_run flow_start es) (arrives true)).flow.sent_pause ≡ true
unfolding flow_step
paused_at_high_water es h high =
    let exact = (events-FlowInv es (omega arith)).exact in
    let few = run-waiting flow_start es in
    counts-pause (flow_run flow_start es).flow (omega arith) (omega arith)
