-- ===== src/Stream/Delivery/Sender.antt =====
-- The link from A to B under the moves of A, its sender.
use mathlib.Core.Path.{subst}
use mobiletunnel.Prelude.{
  ℕ, ◌-◌, ◌≡◌, ◌≤◌, ◌⊎◌, inl, inr, sym, ap, ◌∙◌, List, [], ◌∷◌, ◌++◌, Bool, true, false, none, some,
  length, drop, take, All, append_assoc, append-nil, arith, ok, length-append, length-take,
  take-append-drop, Bool-cases,
}
use mobiletunnel.Stream.Codec.{StreamCodecMessage, hello, data_msg, ack_msg}
use mobiletunnel.Stream.State.{StreamState, enqueue, ack}
use mobiletunnel.Stream.Session.{Phase, awaiting_hello, looping}
use mobiletunnel.Stream.Session.Effects.{active}
use mobiletunnel.Stream.Delivery.Lists.{
  carry, payloads, payloads-append, payloads-carry_nothing, append_behind,
}
use mobiletunnel.Stream.Delivery.Link.{Link, Claim, Ascends, Greets}

-- A successful `ack` drops from the front of the queue as many messages as it moves the offset on.
pub ack-eq_ok :
    (state : StreamState) (seq : ℕ) (state' : StreamState)
    → ack state seq ≡ ok state'
    → (state.base_offset ≤ seq)
      × (seq - state.base_offset ≤ length state.sent_unacked)
      × (state' ≡ record state {
        sent_unacked = drop (seq - state.base_offset) state.sent_unacked;
        base_offset = seq;
      })
unfolding ack
ack-eq_ok state seq state' e = ground arith

Ascends-weaken :
    (low base : ℕ) (ms : List StreamCodecMessage) → low ≤ base → Ascends base ms → Ascends low ms
Ascends-weaken low base [] h a = tt
Ascends-weaken low base (hello hm ∷ ms) h a = (omega arith, a.1)
Ascends-weaken low base (data_msg d ∷ ms) h a = Ascends-weaken low base ms h a
Ascends-weaken low base (ack_msg k ∷ ms) h a = (omega arith, a.1)

Ascends-tail :
    (base : ℕ) (m : StreamCodecMessage) (ms : List StreamCodecMessage)
    → Ascends base (m ∷ ms)
    → Ascends base ms
Ascends-tail base (hello hm) ms a = Ascends-weaken base hm.sender_last_rx ms a.0 a.1
Ascends-tail base (data_msg d) ms a = a
Ascends-tail base (ack_msg k) ms a = Ascends-weaken base k ms a.0 a.1

-- What is left of an inbox: all of it, or all but its first message.
abbrev pub Leaves : List StreamCodecMessage → List StreamCodecMessage → Type 0
Leaves ia ia' = (ia ≡ ia') ⊎ ((m : StreamCodecMessage) × (ia ≡ m ∷ ia'))

Leaves-claims :
    (id count : ℕ) (ia ia' : List StreamCodecMessage)
    → Leaves ia ia'
    → All (Claim id count) ia
    → All (Claim id count) ia'
Leaves-claims id count ia ia' (inl e) c = subst (All (Claim id count)) e c
Leaves-claims id count ia ia' (inr (m, e)) c = (subst (All (Claim id count)) e c).1

Leaves-Ascends :
    (base : ℕ) (ia ia' : List StreamCodecMessage)
    → Leaves ia ia'
    → Ascends base ia
    → Ascends base ia'
Leaves-Ascends base ia ia' (inl e) a = subst (Ascends base) e a
Leaves-Ascends base ia ia' (inr (m, e)) a = Ascends-tail base m ia' (subst (Ascends base) e a)

module _ {q : List (List ℕ)} {A : StreamState} {pa : Phase} {ia : List StreamCodecMessage}
    {B : StreamState} {pb : Phase} {ib : List StreamCodecMessage} {j : Bool}
    (l : Link q A pa ia B pb ib j) where
  -- A keeps its queue, and writes no data.
  pub sender_keeps :
      (A' : StreamState) (pa' : Phase) (ia' out : List StreamCodecMessage)
      → A'.sent_unacked ≡ A.sent_unacked
      → A'.base_offset ≡ A.base_offset
      → (A'.remote_id ≡ none) ⊎ (A'.remote_id ≡ some B.id)
      → Leaves ia ia'
      → (pa' ≡ looping → pa ≡ looping)
      → (pa' ≡ awaiting_hello → (pa ≡ awaiting_hello) × (ia ≡ ia'))
      → payloads out ≡ []
      → Link q A' pa' ia' B pb (carry j ib out) j
  sender_keeps A' pa' ia' out eu eb er left loops waits o = record {
    unacked = (l.unacked.0, l.unacked.1 ∙ ap (◌++◌ l.unacked.0) (sym eu), l.unacked.2 ∙ sym eb);
    delivered = l.delivered;
    counted = l.counted;
    behind = omega (arith, l.behind, eb);
    claims = Leaves-claims B.id B.received_seq ia ia' left l.claims;
    ascends = λ h. rw eb (Leaves-Ascends A.base_offset ia ia' left (l.ascends h));
    known = er;
    flow = λ h. rw (payloads-carry_nothing j ib out o) (l.flow h);
    complete = λ h p b. rw (payloads-carry_nothing j ib out o) (l.complete h (loops p) b);
    greets = λ h p.
        let (w, e) = waits p in
        let g = l.greets h w in
        (payloads-carry_nothing j ib out o ∙ g.0, subst (Greets B.received_seq) e g.1);
  }

  -- A queues a message without writing it, outside the loop.
  pub sender_queues :
      (payload : List ℕ) (pa' : Phase)
      → active pa' ≡ false
      → Link (q ++ (payload ∷ [])) (enqueue A payload) pa' ia B pb ib j
  unfolding enqueue
  sender_queues payload pa' off = record {
    unacked = (
      l.unacked.0,
      append_behind l.unacked.0 A.sent_unacked (payload ∷ []) l.unacked.1,
      l.unacked.2,
    );
    delivered = (
      l.delivered.0 ++ (payload ∷ []),
      append_behind B.sender l.delivered.0 (payload ∷ []) l.delivered.1,
    );
    counted = l.counted;
    behind = l.behind;
    claims = l.claims;
    ascends = l.ascends;
    known = l.known;
    flow = λ h.
        let f = l.flow h in
        (f.0 ++ (payload ∷ []), append_behind (B.sender ++ payloads ib) f.0 (payload ∷ []) f.1);
    complete = λ h p b. cc;
    greets = λ h p. cc;
  }

  -- A queues a message in the loop, and writes it.
  pub sender_sends :
      (payload : List ℕ)
      → pa ≡ looping
      → Link
          (q ++ (payload ∷ []))
          (enqueue A payload)
          looping
          ia
          B
          pb
          (carry j ib (data_msg payload ∷ []))
          j
  unfolding enqueue
  sender_sends payload p = record {
    unacked = (
      l.unacked.0,
      append_behind l.unacked.0 A.sent_unacked (payload ∷ []) l.unacked.1,
      l.unacked.2,
    );
    delivered = (
      l.delivered.0 ++ (payload ∷ []),
      append_behind B.sender l.delivered.0 (payload ∷ []) l.delivered.1,
    );
    counted = l.counted;
    behind = l.behind;
    claims = l.claims;
    ascends = l.ascends;
    known = l.known;
    flow = λ h. elim (Bool-cases j) [
      | inl on ↦ rw on ([], sent_whole on h ∙ sym (append-nil _))
      | inr off ↦
          let f = l.flow h in
          rw off
            (f.0 ++ (payload ∷ []), append_behind (B.sender ++ payloads ib) f.0 (payload ∷ []) f.1)
    ];
    complete = λ on _ h. rw on (sent_whole on h);
    greets = λ h e. cc;
  }
    where
      sent_whole :
          j ≡ true
          → active pb ≡ true
          → q ++ (payload ∷ []) ≡ B.sender ++ payloads (ib ++ (data_msg payload ∷ []))
      sent_whole on h =
          append_behind B.sender (payloads ib) (payload ∷ []) (l.complete on p h)
          ∙ ap (◌++◌ B.sender) (sym (payloads-append ib (data_msg payload ∷ [])))

  -- An acknowledged front leaves the queue.
  pub unacked_after :
      (seq : ℕ)
      → A.base_offset ≤ seq
      → seq - A.base_offset ≤ length A.sent_unacked
      → (front : List (List ℕ)) × (q ≡ front ++ drop (seq - A.base_offset) A.sent_unacked)
        × (length front ≡ seq)
  unacked_after seq lo hi =
      let n : ℕ = seq - A.base_offset in
      let (front, e, len) = l.unacked in
      (
        front ++ take n A.sent_unacked,
        e
            ∙ ap (◌++◌ front) (sym (take-append-drop n A.sent_unacked))
            ∙ sym (append_assoc front (take n A.sent_unacked) (drop n A.sent_unacked)),
        omega
            (arith, length-append front (take n A.sent_unacked), length-take n A.sent_unacked, len),
      )

  -- A reads an acknowledgement in the loop.
  pub sender_acked :
      (seq : ℕ) (rest : List StreamCodecMessage) (A' : StreamState)
      → pa ≡ looping
      → ia ≡ ack_msg seq ∷ rest
      → ack A seq ≡ ok A'
      → Link q A' looping rest B pb ib j
  sender_acked seq rest A' p e r =
      let (lo, hi, same) = ack-eq_ok A seq A' r in
      let claim : (seq ≤ B.received_seq) × All (Claim B.id B.received_seq) rest =
        subst (All (Claim B.id B.received_seq)) e l.claims in
      rw same (record {
        unacked = unacked_after seq lo hi;
        delivered = l.delivered;
        counted = l.counted;
        behind = claim.0;
        claims = claim.1;
        ascends = λ h. (subst (Ascends A.base_offset) e (l.ascends h)).1;
        known = l.known;
        flow = l.flow;
        complete = λ h _ b. l.complete h p b;
        greets = λ h x. cc;
      })
