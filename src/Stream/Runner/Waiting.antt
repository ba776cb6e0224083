-- ===== src/Stream/Runner/Waiting.antt =====
-- src/lib/reconnecting_stream.rs: the wait between connections against the step relation of
-- Stream/Delivery.antt.
use mobiletunnel.Prelude.{
  sym, ◌∙◌, append-nil, append_assoc, if◌then◌else◌, ℕ, ◌≡◌, refl, inl, inr, List, [], ◌∷◌, ◌++◌,
  none, some, Bool, Bool-cases,
}
use mobiletunnel.Stream.State.{StreamState, enqueue, is_full}
use mobiletunnel.Stream.Session.{returned}
use mobiletunnel.Stream.Delivery.{Node, World, Reach, here, next, left_moves, queues}
use mobiletunnel.Stream.Runner.{
  WaitEvent, cancelled, slept, app_waits, on_waiting_app, wait_step, run_unconnected_stream,
}

-- The endpoint, while it waits in this state with these messages accepted.
abbrev pub waits_in : Node → StreamState → List (List ℕ) → Node
waits_in a state queued = record a {
  session = record (a.session) { state = state };
  queued = queued;
}

-- The messages that the application hands over while the window has room, before the wait ends.
abbrev pub polled : StreamState → List WaitEvent → List (List ℕ)
polled state [] = []
polled state (cancelled ∷ es) = []
polled state (slept ∷ es) = []
polled state (app_waits none ∷ es) =
    let rest = polled state es in if is_full state then rest else []
polled state (app_waits (some payload) ∷ es) =
    let later = polled state es in
    let behind = polled (enqueue state payload) es in
    if is_full state then later else payload ∷ behind

module _ (w0 : World) (b : Node) (j : Bool) where
  -- Where the wait may leave the endpoint.
  abbrev Waited : StreamState → List (List ℕ) → List (List ℕ) → Type 0
  Waited state queued unacked =
      (w : World) × Reach w0 w
      × (w.left.session.state ≡ state)
      × (w.left.session.phase ≡ returned)
      × (w.right ≡ b)
      × (w.joined ≡ j)
      × (w.left.queued ≡ queued)
      × (state.sent_unacked ≡ unacked)

  nothing_polled :
      (a : Node)
      → Reach w0 (record { left = a; right = b; joined = j })
      → a.session.phase ≡ returned
      → Waited a.session.state (a.queued ++ []) (a.session.state.sent_unacked ++ [])
  nothing_polled a r p = (
    record { left = a; right = b; joined = j },
    r,
    refl,
    p,
    refl,
    refl,
    sym (append-nil a.queued),
    sym (append-nil a.session.state.sent_unacked),
  )

  waits :
      (a : Node) (es : List WaitEvent)
      → Reach w0 (record { left = a; right = b; joined = j })
      → a.session.phase ≡ returned
      → Waited
          (run_unconnected_stream a.session.state es)
          (a.queued ++ polled a.session.state es)
          (a.session.state.sent_unacked ++ polled a.session.state es)
  unfolding run_unconnected_stream wait_step on_waiting_app enqueue
  waits a [] r p = nothing_polled a r p
  waits a (cancelled ∷ es) r p = nothing_polled a r p
  waits a (slept ∷ es) r p = nothing_polled a r p
  waits a (app_waits none ∷ es) r p = elim (Bool-cases (is_full a.session.state)) [
    | inl no_room ↦ rw no_room (waits a es r p)
    | inr room ↦ rw room (nothing_polled a r p)
  ]
  waits a (app_waits (some payload) ∷ es) r p = elim (Bool-cases (is_full a.session.state)) [
    | inl no_room ↦ rw no_room (waits a es r p)
    | inr room ↦
        let more = polled (enqueue a.session.state payload) es in
        let (w, reach, state, phase, right, joined, queued, unacked) =
          waits (waits_in a (enqueue a.session.state payload) (a.queued ++ (payload ∷ []))) es
            (next r (left_moves (queues payload p room))) p in
        rw room (
          w,
          reach,
          state,
          phase,
          right,
          joined,
          queued ∙ append_assoc a.queued (payload ∷ []) more,
          unacked ∙ append_assoc a.session.state.sent_unacked (payload ∷ []) more,
        )
  ]

-- From any two endpoints of which the left one has no connection, whatever happens while it waits in
-- `run_unconnected_stream`: the endpoints can reach, by steps of the relation between them, the state
-- that the wait leaves, with the left one still without a connection and the right one as it was. What it
-- accepted on the way, and what came into its queue, are exactly the messages that the application handed
-- over while the window had room, before the wait ended, in their order.
pub wait_reaches :
    (a b : Node) (j : Bool) (es : List WaitEvent)
    → a.session.phase ≡ returned
    → (w : World) × Reach (record { left = a; right = b; joined = j }) w
      × (w.left.session.state ≡ run_unconnected_stream a.session.state es)
      × (w.left.session.phase ≡ returned)
      × (w.right ≡ b)
      × (w.joined ≡ j)
      × (w.left.queued ≡ a.queued ++ polled a.session.state es)
      × ((run_unconnected_stream a.session.state es).sent_unacked
          ≡ a.session.state.sent_unacked ++ polled a.session.state es)
wait_reaches a b j es p = waits (record { left = a; right = b; joined = j }) b j a es here p
