-- ===== src/Stream/Delivery/Greeting.antt =====
-- The link from A to B when a connection starts: the hellos, and the queue that A sends again.
use mathlib.Core.Path.{subst}
use mobiletunnel.Prelude.{
  ℕ, ◌-◌, ◌≡◌, ◌≤◌, ◌⊎◌, inl, inr, refl, sym, ap, ◌∙◌, List, [], ◌∷◌, ◌++◌, Bool, true, false, some,
  length, drop, map, All, append_assoc, append-nil, arith, ok, Bool-cases,
}
use mobiletunnel.Stream.Codec.{HelloMessage, StreamCodecMessage, hello, data_msg}
use mobiletunnel.Stream.State.{StreamState, ack, make_hello}
use mobiletunnel.Stream.Session.{Phase, awaiting_hello, looping}
use mobiletunnel.Stream.Session.Effects.{active, known}
use mobiletunnel.Stream.Delivery.Lists.{
  carry, payloads, payloads-append, payloads-data, front_unique,
}
use mobiletunnel.Stream.Delivery.Link.{Link, Claim, Ascends, Greets}
use mobiletunnel.Stream.Delivery.Sender.{ack-eq_ok, unacked_after}

-- What A has in its queue after an exact count of what B has is what B lacks.
rest_is_missing :
    {q : List (List ℕ)} (front got lacks missing : List (List ℕ))
    → q ≡ front ++ missing
    → q ≡ got ++ lacks
    → length front ≡ length got
    → q ≡ got ++ missing
rest_is_missing front got lacks missing e f h =
    let (same, _) = front_unique front got (sym e ∙ f) h in e ∙ ap (λ x. x ++ missing) same

module _ {q : List (List ℕ)} {A : StreamState} {pa : Phase} {ia : List StreamCodecMessage}
    {B : StreamState} {pb : Phase} {ib : List StreamCodecMessage} {j : Bool}
    (l : Link q A pa ia B pb ib j) where
  -- A reads the hello, and writes its queue from the front on.
  pub sender_greeted :
      (hm : HelloMessage) (rest : List StreamCodecMessage) (A' : StreamState)
      (resent left : List (List ℕ)) (pa' : Phase)
      → pa ≡ awaiting_hello
      → ia ≡ hello hm ∷ rest
      → ack (known A hm) hm.sender_last_rx ≡ ok A'
      → A'.sent_unacked ≡ resent ++ left
      → ((pa' ≡ looping) × (left ≡ [])) ⊎ (active pa' ≡ false)
      → Link q A' pa' rest B pb (carry j ib (map data_msg resent)) j
  sender_greeted hm rest A' resent left pa' p e r u goes =
      let (lo, hi, same) = ack-eq_ok (known A hm) hm.sender_last_rx A' r in
      let claim : ((hm.sender_id ≡ B.id) × (hm.sender_last_rx ≤ B.received_seq))
          × All (Claim B.id B.received_seq) rest =
        subst (All (Claim B.id B.received_seq)) e l.claims in
      rw same (record {
        unacked = unacked_after l hm.sender_last_rx lo hi;
        delivered = l.delivered;
        counted = l.counted;
        behind = claim.0.1;
        claims = claim.1;
        ascends = λ h. (subst (Ascends A.base_offset) e (l.ascends h)).1;
        known = inr (ap some claim.0.0);
        flow = λ h. elim (Bool-cases j) [
          | inl on ↦
              rw on (left, whole on lo hi (ap (λ (t : StreamState). t.sent_unacked) (sym same) ∙ u))
          | inr off ↦ rw off (l.flow h)
        ];
        complete = λ on go h. rw on (
            all_sent on go
              (whole on lo hi (ap (λ (t : StreamState). t.sent_unacked) (sym same) ∙ u)));
        greets = λ h x. elim goes [ inl (y, _) ↦ cc | inr off ↦ cc ];
      })
    where
      whole :
          j ≡ true
          → A.base_offset ≤ hm.sender_last_rx
          → hm.sender_last_rx - A.base_offset ≤ length A.sent_unacked
          → drop (hm.sender_last_rx - A.base_offset) A.sent_unacked ≡ resent ++ left
          → q ≡ (B.sender ++ payloads (ib ++ map data_msg resent)) ++ left
      whole on lo hi d =
          let (none_sent, greet) = l.greets on p in
          let exact : hm.sender_last_rx ≡ B.received_seq = subst (Greets B.received_seq) e greet in
          let (front, split, len) = unacked_after l hm.sender_last_rx lo hi in
          let (back, got) = l.delivered in
          let flight : payloads (ib ++ map data_msg resent) ≡ resent =
            payloads-append ib (map data_msg resent)
            ∙ ap (λ x. x ++ payloads (map data_msg resent)) none_sent
            ∙ payloads-data resent in
          rest_is_missing front B.sender back (resent ++ left) (split ∙ ap (◌++◌ front) d) got
            (omega (arith, len, exact, l.counted))
          ∙ sym (append_assoc B.sender resent left)
          ∙ ap (λ x. (B.sender ++ x) ++ left) (sym flight)

      all_sent :
          j ≡ true
          → pa' ≡ looping
          → q ≡ (B.sender ++ payloads (ib ++ map data_msg resent)) ++ left
          → q ≡ B.sender ++ payloads (ib ++ map data_msg resent)
      all_sent on go w = elim goes [
        | inl (_, nothing) ↦
            w
            ∙ ap (λ x. (B.sender ++ payloads (ib ++ map data_msg resent)) ++ x) nothing
            ∙ append-nil _
        | inr off ↦ cc
      ]

  -- Both start on one connection.
  pub Link-joins :
      Link q A awaiting_hello
        (hello (make_hello B) ∷ [])
        B
        awaiting_hello
        (hello (make_hello A) ∷ [])
        true
  unfolding make_hello
  Link-joins = record {
    unacked = l.unacked;
    delivered = l.delivered;
    counted = l.counted;
    behind = l.behind;
    claims = ((refl, omega arith), tt);
    ascends = λ _. (l.behind, tt);
    known = l.known;
    flow = λ _.
        (l.delivered.0, l.delivered.1 ∙ ap (λ x. x ++ l.delivered.0) (sym (append-nil B.sender)));
    complete = λ _ x. cc;
    greets = λ _ _. (refl, refl);
  }

  -- A starts on a connection that leads nowhere, with at most an old hello of B in it.
  pub sender_alone :
      (ia' : List StreamCodecMessage)
      → All (Claim B.id B.received_seq) ia'
      → Link q A awaiting_hello ia' B pb ib false
  sender_alone ia' c = record {
    unacked = l.unacked;
    delivered = l.delivered;
    counted = l.counted;
    behind = l.behind;
    claims = c;
    ascends = λ h. cc;
    known = l.known;
    flow = l.flow;
    complete = λ h. cc;
    greets = λ h. cc;
  }

  -- B does so.
  pub receiver_alone :
      (ib' : List StreamCodecMessage)
      → payloads ib' ≡ []
      → Link q A pa ia B awaiting_hello ib' false
  receiver_alone ib' c = record {
    unacked = l.unacked;
    delivered = l.delivered;
    counted = l.counted;
    behind = l.behind;
    claims = l.claims;
    ascends = λ h. cc;
    known = l.known;
    flow = λ _. (
      l.delivered.0,
      l.delivered.1
          ∙ ap (λ x. x ++ l.delivered.0) (sym (append-nil B.sender) ∙ ap (◌++◌ B.sender) (sym c)),
    );
    complete = λ h. cc;
    greets = λ h. cc;
  }
