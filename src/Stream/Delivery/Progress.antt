-- ===== src/Stream/Delivery/Progress.antt =====
-- A connection that both endpoints of src/lib/reconnecting_stream.rs join, and that lasts.
use mathlib.Core.Path.{subst}
use mobiletunnel.Prelude.{
  All-drop, ◌-◌, ◌≡◌, refl, sym, ap, ◌∙◌, List, [], ◌∷◌, ◌++◌, Bool, true, some, All, ok, map,
  append-nil,
}
use mobiletunnel.Stream.Codec.{StreamCodecMessage, HelloMessage, hello, data_msg}
use mobiletunnel.Stream.State.{StreamState, ack, make_hello}
use mobiletunnel.Stream.Session.{Session, awaiting_hello, looping, returned, start, tcp_rx}
use mobiletunnel.Stream.Session.Effects.{known, active}
use mobiletunnel.Stream.Delivery.Sender.{ack-eq_ok}
use mobiletunnel.Stream.Delivery.Steps.{NodeLink}
use mobiletunnel.Stream.Delivery.Moves.{Bounded, Linked, Reach-Linked}
use mobiletunnel.Stream.Delivery.Guarantees.{hello_link}
use mobiletunnel.Stream.Delivery.{
  Node, World, Reach, here, next, left_moves, right_moves, reads, joins, flushed, acted, after,
  hear, begin, greeting,
}
use mobiletunnel.Stream.Delivery.Lists.{payloads, payloads-data}
use mobiletunnel.Stream.Codec.RoundTrip.{Fits}
use mobiletunnel.Stream.Delivery.Reading.{greeted_step, All-back, read_all}

-- What a hello leaves in the queue fits, if all that was accepted does.
queue-Fits :
    (a b : Node) (j : Bool) (hm : HelloMessage) (state : StreamState)
    → NodeLink a b j
    → All Fits a.queued
    → ack (known a.session.state hm) hm.sender_last_rx ≡ ok state
    → All Fits state.sent_unacked
queue-Fits a b j hm state l f e =
    let (_, _, same) = ack-eq_ok (known a.session.state hm) hm.sender_last_rx state e in
    let (front, split, _) = l.unacked in
    rw same (
      All-drop Fits (hm.sender_last_rx - a.session.state.base_offset) a.session.state.sent_unacked
        (All-back front a.session.state.sent_unacked (subst (All Fits) split f)))

-- On one connection an endpoint answers the hello that it reads with its whole queue.
Answers : Node → HelloMessage → StreamState → Type 0
Answers a hm state =
    (acted a (tcp_rx (some (hello hm))) ≡ record {
      state = state;
      phase = looping;
      written = map data_msg state.sent_unacked;
      writer_open = true;
    })
    × (state.app_open ≡ a.session.state.app_open)

reads_hello :
    (a b : Node) (hm : HelloMessage) (rest : List StreamCodecMessage)
    → NodeLink a b true
    → a.inbox ≡ hello hm ∷ rest
    → a.session.phase ≡ awaiting_hello
    → a.session.writer_open ≡ true
    → All Fits a.queued
    → (state : StreamState) × Answers a hm state
unfolding Answers
reads_hello a b hm rest l i p o f =
    let (friend, (state, e)) = hello_link a b l hm rest i in
    (
      state,
      (
        greeted_step (flushed a.session) hm state p o refl friend e
            (queue-Fits a b true hm state l f e),
        ap (λ (t : StreamState). t.app_open)
            (ack-eq_ok (known a.session.state hm) hm.sender_last_rx state e).2,
      ),
    )

-- Two endpoints that wait for a connection.
module _ (a b : Node) (j : Bool) (l : Linked (record { left = a; right = b; joined = j }))
    (h : Bounded (record { left = a; right = b; joined = j })) (p : a.session.phase ≡ returned)
    (q : b.session.phase ≡ returned) (o : b.session.state.app_open ≡ true) (fa : All Fits a.queued)
    (fb : All Fits b.queued) where
  abbrev a_new : Node
  a_new = begin a (greeting b)

  abbrev b_new : Node
  b_new = begin b (greeting a)

  reach_new :
      Reach
        (record { left = a; right = b; joined = j })
        (record { left = a_new; right = b_new; joined = true })
  reach_new = next here (left_moves (joins p q))

  links_new : Linked (record { left = a_new; right = b_new; joined = true })
  unfolding start
  links_new = Reach-Linked reach_new l (record { left = h.left; right = h.right })

  -- `a` reads the hello of `b`, and `b` that of `a`; each has the other's queue in flight then.
  abbrev hello_a : HelloMessage
  hello_a = make_hello a.session.state

  abbrev hello_b : HelloMessage
  hello_b = make_hello b.session.state

  abbrev out_a : List StreamCodecMessage
  out_a = (acted a_new (tcp_rx (some (hello hello_b)))).written

  abbrev a_greeted : Node
  a_greeted = after a_new (tcp_rx (some (hello hello_b))) []

  abbrev b_hears : Node
  b_hears = hear true b_new out_a

  reach_greeted :
      Reach
        (record { left = a; right = b; joined = j })
        (record { left = a_greeted; right = b_hears; joined = true })
  unfolding start
  reach_greeted = next reach_new (left_moves (reads (hello hello_b) [] refl refl))

  abbrev b_greeted : Node
  b_greeted = after b_hears (tcp_rx (some (hello hello_a))) out_a

  abbrev a_hears : Node
  a_hears = hear true a_greeted (acted b_hears (tcp_rx (some (hello hello_a)))).written

  reach_both :
      Reach
        (record { left = a; right = b; joined = j })
        (record { left = a_hears; right = b_greeted; joined = true })
  unfolding start
  reach_both = next reach_greeted (right_moves (reads (hello hello_a) out_a refl refl))

  Bounded-greeted : Bounded (record { left = a_greeted; right = b_hears; joined = true })
  Bounded-greeted = record { left = rw append-nil h.left; right = h.right }

  Bounded-both : Bounded (record { left = a_hears; right = b_greeted; joined = true })
  Bounded-both = record { left = rw append-nil h.left; right = rw append-nil h.right }

  a-Answers : (state : StreamState) × Answers a_new hello_b state
  unfolding start
  a-Answers = reads_hello a_new b_new hello_b [] links_new.forth refl refl refl fa

  b-Answers : (state : StreamState) × Answers b_hears hello_a state
  unfolding start
  b-Answers =
      reads_hello b_hears a_greeted hello_a out_a
        (Reach-Linked reach_greeted l Bounded-greeted).back refl refl refl fb

  -- All that `b` lacks is in flight.
  in_flight : a.queued ≡ b_greeted.session.state.sender ++ payloads out_a
  unfolding Answers
  in_flight =
      let (_, (ea, _)) = a-Answers in
      let (_, (eb, _)) = b-Answers in
      sym (append-nil a.queued)
      ∙ (Reach-Linked reach_both l Bounded-both).forth.complete refl
          (ap (λ (t : Session). t.phase) ea) (ap (λ (t : Session). active t.phase) eb)

  pub catches_up_linked :
      (w : World) × Reach (record { left = a; right = b; joined = j }) w
      × (w.right.session.state.sender ≡ a.queued)
      × (w.left.queued ≡ a.queued)
  unfolding Answers start
  catches_up_linked =
      let (sa, (ea, _)) = a-Answers in
      let (sb, (eb, kept)) = b-Answers in
      let out : out_a ≡ map data_msg sa.sent_unacked = ap (λ (t : Session). t.written) ea in
      let (w, reach, got, same) =
        read_all sa.sent_unacked a_hears b_greeted reach_both out (ap (λ (t : Session). t.phase) eb)
          (ap (λ (t : Session). t.state.app_open) eb ∙ kept ∙ o) in
      (
        w,
        reach,
        got
            ∙ ap (λ x. b_greeted.session.state.sender ++ x)
                (sym (payloads-data sa.sent_unacked) ∙ sym (ap payloads out))
            ∙ sym in_flight,
        same ∙ append-nil a.queued,
      )
