-- ===== src/Stream/Delivery/Guarantees.antt =====
-- src/lib/reconnecting_stream.rs: what the two applications at the ends of a stream can rely on.
use mathlib.Core.Path.{subst}
use mobiletunnel.Prelude.{
  ℕ, ◌+◌, ◌-◌, ◌≡◌, ◌≤◌, ◌⊎◌, inl, inr, refl, sym, ap, ◌∙◌, List, ◌∷◌, ◌++◌, Bool, true, false,
  some, none, Option, length, All, arith, length-append, ok, le→ltb, ==_refl, drop,
}
use mobiletunnel.Stream.Codec.{StreamCodecMessage, HelloMessage, hello, ack_msg, data_msg}
use mobiletunnel.Stream.State.{StreamState, StreamOptions, ack}
use mobiletunnel.Stream.Session.{is_stranger}
use mobiletunnel.Stream.Session.Effects.{known}
use mobiletunnel.Stream.Delivery.{Node, World, Reach}
use mobiletunnel.Stream.Delivery.Lists.{front_of_front}
use mobiletunnel.Stream.Delivery.Link.{Claim, Ascends}
use mobiletunnel.Stream.Delivery.Steps.{NodeLink}
use mobiletunnel.Stream.Delivery.Moves.{Bounded, Linked, Reach-Linked, initial, initial-Linked}

-- The receiving application has a front of what the sending application handed over.
abbrev pub FrontOf : List (List ℕ) → List (List ℕ) → Type 0
FrontOf got all = (back : List (List ℕ)) × (all ≡ got ++ back)

-- All that the receiver lacks is still in the sender's queue, at its end.
abbrev pub Kept : Node → Node → Type 0
Kept a b =
    (lacks : List (List ℕ)) × (known_there : List (List ℕ)) × (a.queued
      ≡ b.session.state.sender ++ lacks)
    × (a.session.state.sent_unacked ≡ known_there ++ lacks)

Kept-link : (a b : Node) (j : Bool) → NodeLink a b j → Kept a b
Kept-link a b j l =
    let (front, split, len) = l.unacked in
    let (back, got) = l.delivered in
    let (mid, e, f) =
      front_of_front front b.session.state.sender (sym split ∙ got)
        (omega (arith, len, l.behind, l.counted)) in
    (back, mid, got, f)

module _ (x y : ℕ) (options options' : StreamOptions) {w : World}
    (r : Reach (initial x y options options') w) (h : Bounded w) where
  links : Linked w
  links = Reach-Linked r (initial-Linked x y options options') h

  -- After any steps of two fresh endpoints (messages handed over, frames read, connections started and
  -- lost at any moment, on both sides or on one), while fewer than 2 ^ 64 messages were accepted on
  -- either side: what each application has been given is a front of what the other handed over. So no
  -- message is lost, doubled, changed or out of order.
  pub delivered_in_order :
      FrontOf w.right.session.state.sender w.left.queued
      × FrontOf w.left.session.state.sender w.right.queued
  delivered_in_order = (links.forth.delivered, links.back.delivered)

  -- After any steps of two fresh endpoints, while fewer than 2 ^ 64 messages were accepted on either
  -- side: every message that the other application still lacks is at the end of the queue of the side
  -- that accepted it, in order.
  pub nothing_dropped : Kept w.left w.right × Kept w.right w.left
  nothing_dropped =
      (Kept-link w.left w.right w.joined links.forth, Kept-link w.right w.left w.joined links.back)

pub ack_accepted :
    (state : StreamState) (seq : ℕ)
    → state.base_offset ≤ seq
    → seq ≤ state.base_offset + length state.sent_unacked
    → (state' : StreamState) × (ack state seq ≡ ok state')
unfolding ack
ack_accepted state seq lo hi = (
  record state {
    sent_unacked = drop (seq - state.base_offset) state.sent_unacked;
    base_offset = seq;
  },
  rw (
    le→ltb seq state.base_offset lo,
    le→ltb (length state.sent_unacked) (seq - state.base_offset) (omega arith),
  ),
)

-- The queue reaches to the last message that the peer can have.
pub queue_reaches :
    (a b : Node) (j : Bool)
    → NodeLink a b j
    → b.session.state.received_seq
      ≤ a.session.state.base_offset + length a.session.state.sent_unacked
queue_reaches a b j l =
    let (front, split, len) = l.unacked in
    let (back, got) = l.delivered in
    omega (
      arith,
      ap length (sym split ∙ got),
      length-append front a.session.state.sent_unacked,
      length-append b.session.state.sender back,
      len,
      l.counted,
    )

pub friend_known : (o : Option ℕ) (id : ℕ) → (o ≡ none) ⊎ (o ≡ some id) → is_stranger o id ≡ false
unfolding is_stranger
friend_known none id h = refl
friend_known (some other) id (inl e) = cc
friend_known (some other) id (inr e) = let same : other ≡ id = cc in rw (same, ==_refl id)

-- The same of one direction, from what its link says.
ack_link :
    (a b : Node)
    → NodeLink a b true
    → (seq : ℕ) (rest : List StreamCodecMessage) → a.inbox ≡ ack_msg seq ∷ rest
    → (state : StreamState) × (ack a.session.state seq ≡ ok state)
ack_link a b l seq rest i =
    let claim : (seq ≤ b.session.state.received_seq)
        × All (Claim b.session.state.id b.session.state.received_seq) rest =
      subst (All (Claim b.session.state.id b.session.state.received_seq)) i l.claims in
    let up : (a.session.state.base_offset ≤ seq) × Ascends seq rest =
      subst (Ascends a.session.state.base_offset) i (l.ascends refl) in
    ack_accepted a.session.state seq up.0 (omega (arith, claim.0, queue_reaches a b true l))

pub hello_link :
    (a b : Node)
    → NodeLink a b true
    → (hm : HelloMessage) (rest : List StreamCodecMessage) → a.inbox ≡ hello hm ∷ rest
    → (is_stranger a.session.state.remote_id hm.sender_id ≡ false)
      × ((state : StreamState) × (ack (known a.session.state hm) hm.sender_last_rx ≡ ok state))
hello_link a b l hm rest i =
    let claim : ((hm.sender_id ≡ b.session.state.id)
          × (hm.sender_last_rx ≤ b.session.state.received_seq))
        × All (Claim b.session.state.id b.session.state.received_seq) rest =
      subst (All (Claim b.session.state.id b.session.state.received_seq)) i l.claims in
    let up : (a.session.state.base_offset ≤ hm.sender_last_rx) × Ascends hm.sender_last_rx rest =
      subst (Ascends a.session.state.base_offset) i (l.ascends refl) in
    (
      friend_known a.session.state.remote_id hm.sender_id (rw claim.0.0 l.known),
      ack_accepted (known a.session.state hm) hm.sender_last_rx up.0
          (omega (arith, claim.0.1, queue_reaches a b true l)),
    )

-- The session does not refuse the message: an acknowledgement is neither of a count that it had before nor
-- of one that it has not reached, and a hello is not a stranger's either.
abbrev pub IsAccepted : StreamState → StreamCodecMessage → Type 0
IsAccepted s (hello hm) =
    (is_stranger s.remote_id hm.sender_id ≡ false)
    × ((state : StreamState) × (ack (known s hm) hm.sender_last_rx ≡ ok state))
IsAccepted s (data_msg payload) = Unit {0}
IsAccepted s (ack_msg seq) = (state : StreamState) × (ack s seq ≡ ok state)

-- From two fresh endpoints, after any steps that leave both on one connection, while fewer than 2 ^ 64
-- messages were accepted on either side: the message that the left one reads next, if it is an
-- acknowledgement, is not refused, and if it is a hello, it is neither taken for a stranger's nor refused
-- for its count.
pub reads-IsAccepted :
    (x y : ℕ) (options options' : StreamOptions) {a b : Node}
    → Reach (initial x y options options') (record { left = a; right = b; joined = true })
    → Bounded (record { left = a; right = b; joined = true })
    → (m : StreamCodecMessage) (rest : List StreamCodecMessage) → a.inbox ≡ m ∷ rest
    → IsAccepted a.session.state m
reads-IsAccepted x y options options' {a} {b} r h (ack_msg seq) rest e =
    ack_link a b (Reach-Linked r (initial-Linked x y options options') h).forth seq rest e
reads-IsAccepted x y options options' {a} {b} r h (hello hm) rest e =
    hello_link a b (Reach-Linked r (initial-Linked x y options options') h).forth hm rest e
reads-IsAccepted x y options options' {a} {b} r h (data_msg payload) rest e = tt
