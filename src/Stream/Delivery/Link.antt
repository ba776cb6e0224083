-- ===== src/Stream/Delivery/Link.antt =====
-- The link of one direction, from a sender A to a receiver B.
use mobiletunnel.Prelude.{
  ℕ, ◌≡◌, ◌≤◌, ◌⊎◌, List, [], ◌∷◌, ◌++◌, Bool, true, none, some, length, All,
}
use mobiletunnel.Stream.Codec.{StreamCodecMessage, hello, data_msg, ack_msg}
use mobiletunnel.Stream.State.{StreamState}
use mobiletunnel.Stream.Session.{Phase, awaiting_hello, looping}
use mobiletunnel.Stream.Session.Effects.{active}
use mobiletunnel.Stream.Delivery.Lists.{payloads}

-- What the receiver B has written towards A never claims more than B has received.
abbrev pub Claim : ℕ → ℕ → StreamCodecMessage → Type 0
Claim id count (hello hm) = (hm.sender_id ≡ id) × (hm.sender_last_rx ≤ count)
Claim id count (data_msg d) = Unit {0}
Claim id count (ack_msg k) = k ≤ count

-- The counts that A will read never fall, and start at `base`.
abbrev pub Ascends : ℕ → List StreamCodecMessage → Type 0
Ascends base [] = Unit {0}
Ascends base (hello hm ∷ ms) = (base ≤ hm.sender_last_rx) × Ascends hm.sender_last_rx ms
Ascends base (data_msg d ∷ ms) = Ascends base ms
Ascends base (ack_msg k ∷ ms) = (base ≤ k) × Ascends k ms

-- The first message to be read is a hello with this count.
abbrev pub Greets : ℕ → List StreamCodecMessage → Type 0
Greets count [] = ⊥
Greets count (hello hm ∷ ms) = hm.sender_last_rx ≡ count
Greets count (data_msg d ∷ ms) = ⊥
Greets count (ack_msg k ∷ ms) = ⊥

pub record Link (queued : List (List ℕ)) (A : StreamState) (pa : Phase)
    (ia : List StreamCodecMessage) (B : StreamState) (pb : Phase) (ib : List StreamCodecMessage)
    (joined : Bool) : Type 0 where
  -- A's queue is what comes after the acknowledged messages.
  pub unacked :
      (front : List (List ℕ)) × (queued ≡ front ++ A.sent_unacked) × (length front ≡ A.base_offset)
  -- B has handed on a front of what A accepted, and counts it.
  pub delivered : (back : List (List ℕ)) × (queued ≡ B.sender ++ back)
  pub counted : length B.sender ≡ B.received_seq
  pub behind : A.base_offset ≤ B.received_seq
  pub claims : All (Claim B.id B.received_seq) ia
  pub ascends : joined ≡ true → Ascends A.base_offset ia
  pub known : (A.remote_id ≡ none) ⊎ (A.remote_id ≡ some B.id)
  -- What is in flight to B continues what B has.
  pub flow :
      active pb ≡ true → (back : List (List ℕ)) × (queued ≡ (B.sender ++ payloads ib) ++ back)
  -- Past the hello nothing is missing in flight.
  pub complete : joined ≡ true → pa ≡ looping → active pb ≡ true → queued ≡ B.sender ++ payloads ib
  -- Before it, A has sent nothing, and will learn exactly how much B has.
  pub greets : joined ≡ true → pa ≡ awaiting_hello → (payloads ib ≡ []) × Greets B.received_seq ia
