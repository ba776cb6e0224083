-- ===== src/Stream/Delivery/Reading.antt =====
-- One session at work: what it reads after its hello, and what it writes.
use mobiletunnel.Prelude.{
  ℕ, ◌≡◌, inl, inr, refl, sym, ap, ◌∙◌, List, [], ◌∷◌, ◌++◌, true, false, some, All, arith, ok, map,
  append-nil, append_assoc, Bool-cases,
}
use mobiletunnel.Stream.Codec.{StreamCodecMessage, HelloMessage, hello, data_msg}
use mobiletunnel.Stream.Codec.RoundTrip.{Fits, encode-InRange, encode-ack}
use mobiletunnel.Stream.State.{StreamState, ack, received_one_message}
use mobiletunnel.Stream.Session.{
  Session, awaiting_hello, looping, is_stranger, tcp_rx, resend, step, step_in, step_waiting,
  on_first, on_hello, step_looping, on_tcp, on_data, write,
}
use mobiletunnel.Stream.Session.Effects.{known, handed, active}
use mobiletunnel.Stream.Session.Resend.{resend_sent}
use mobiletunnel.Stream.Delivery.{
  Node, World, Reach, next, right_moves, reads, flushed, acted, after, hear,
}

pub resend-All :
    (s : Session) (ps : List (List ℕ))
    → s.writer_open ≡ true
    → All Fits ps
    → resend s ps ≡ record s { phase = looping; written = s.written ++ map data_msg ps }
resend-All s [] o f =
    unfold resend in
    ap (λ (l : List StreamCodecMessage). record s { phase = looping; written = l })
      (sym (append-nil s.written))
resend-All s (p ∷ ps) o (f, fs) =
    let (bytes, e) = encode-InRange (data_msg p) f in
    let s' : Session = record s { written = s.written ++ (data_msg p ∷ []) } in
    resend_sent s p ps bytes e o
    ∙ resend-All s' ps o fs
    ∙ ap (λ (l : List StreamCodecMessage). record s { phase = looping; written = l })
        (append_assoc s.written (data_msg p ∷ []) (map data_msg ps))

pub hello_read :
    (s : Session) (hm : HelloMessage) (state : StreamState)
    → is_stranger s.state.remote_id hm.sender_id ≡ false
    → ack (known s.state hm) hm.sender_last_rx ≡ ok state
    → on_hello s hm ≡ resend (record s { state = state }) state.sent_unacked
unfolding on_hello
hello_read s hm state friend a = rw (friend, a)

-- A session whose hello is answered well enters the loop with its whole queue written.
pub greeted_step :
    (s : Session) (hm : HelloMessage) (state : StreamState)
    → s.phase ≡ awaiting_hello
    → s.writer_open ≡ true
    → s.written ≡ []
    → is_stranger s.state.remote_id hm.sender_id ≡ false
    → ack (known s.state hm) hm.sender_last_rx ≡ ok state
    → All Fits state.sent_unacked
    → step s (tcp_rx (some (hello hm))) ≡ record {
      state = state;
      phase = looping;
      written = map data_msg state.sent_unacked;
      writer_open = true;
    }
unfolding step step_waiting on_first
greeted_step s hm state p o w friend a f =
    ap (λ ph. step_in ph s (tcp_rx (some (hello hm)))) p
    ∙ hello_read s hm state friend a
    ∙ resend-All (record s { state = state }) state.sent_unacked o f
    ∙ λ i. record {
      state = state;
      phase = looping;
      written = w i ++ map data_msg state.sent_unacked;
      writer_open = o i;
    }

pub data_read :
    (s : Session) (payload : List ℕ)
    → s.state.app_open ≡ true
    → ((on_data s payload).phase ≡ s.phase)
      × ((on_data s payload).state ≡ (received_one_message (handed s.state payload)).0)
unfolding on_data write
data_read s payload o = elim (Bool-cases s.writer_open) [
  | inl w ↦ ground (arith, encode-ack (received_one_message (handed s.state payload)).1)
  | inr w ↦ ground (arith, encode-ack (received_one_message (handed s.state payload)).1)
]

-- A data message in the loop is handed on, and the loop goes on.
pub data_step :
    (s : Session) (payload : List ℕ)
    → s.phase ≡ looping
    → s.state.app_open ≡ true
    → ((step s (tcp_rx (some (data_msg payload)))).phase ≡ looping)
      × ((step s (tcp_rx (some (data_msg payload)))).state
          ≡ (received_one_message (handed s.state payload)).0)
unfolding step step_looping on_tcp
data_step s payload p o =
    let e : step s (tcp_rx (some (data_msg payload))) ≡ on_data s payload =
      ap (λ ph. step_in ph s (tcp_rx (some (data_msg payload)))) p in
    let (a, b) = data_read s payload o in
    (ap (λ (t : Session). t.phase) e ∙ a ∙ p, ap (λ (t : Session). t.state) e ∙ b)

pub All-back : (xs ys : List (List ℕ)) → All Fits (xs ++ ys) → All Fits ys
All-back [] ys f = f
All-back (x ∷ xs) ys f = All-back xs ys f.1

-- The right side reads data messages until its inbox is empty.
pub read_all :
    (ds : List (List ℕ)) {w : World} (a b : Node)
    → Reach w (record { left = a; right = b; joined = true })
    → b.inbox ≡ map data_msg ds
    → b.session.phase ≡ looping
    → b.session.state.app_open ≡ true
    → (w' : World) × Reach w w'
      × (w'.right.session.state.sender ≡ b.session.state.sender ++ ds)
      × (w'.left.queued ≡ a.queued)
unfolding received_one_message
read_all [] a b r i p o = (
  record { left = a; right = b; joined = true },
  r,
  sym (append-nil b.session.state.sender),
  refl,
)
read_all (d ∷ ds) {w} a b r i p o =
    let (ph, st) = data_step (flushed b.session) d p o in
    let b' : Node = after b (tcp_rx (some (data_msg d))) (map data_msg ds) in
    let a' : Node = hear true a (acted b (tcp_rx (some (data_msg d)))).written in
    let r' : Reach w (record { left = a'; right = b'; joined = true }) =
      next r (right_moves (reads (data_msg d) (map data_msg ds) i (ap active p))) in
    let (w', reach, got, kept) =
      read_all ds a' b' r' refl ph (ap (λ (t : StreamState). t.app_open) st ∙ o) in
    (
      w',
      reach,
      got
          ∙ ap (λ (t : StreamState). t.sender ++ ds) st
          ∙ append_assoc b.session.state.sender (d ∷ []) ds,
      kept,
    )
