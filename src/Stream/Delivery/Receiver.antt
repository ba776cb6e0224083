-- ===== src/Stream/Delivery/Receiver.antt =====
-- The link from A to B under the moves of B, its receiver.
use mobiletunnel.Prelude.{
  All-append, ℕ, ◌+◌, ◌^◌, ◌≡◌, ◌≤◌, ◌<◌, ◌⊎◌, inl, inr, sym, ap, ◌∙◌, List, [], ◌∷◌, ◌++◌, Bool,
  true, false, length, map, All, append_assoc, arith, length-append,
}
use mobiletunnel.Stream.Codec.{StreamCodecMessage, hello, data_msg, ack_msg}
use mobiletunnel.Stream.State.{StreamState, received_one_message}
use mobiletunnel.Stream.Session.{Phase, looping}
use mobiletunnel.Stream.Session.Effects.{active, handed}
use mobiletunnel.Stream.Delivery.Lists.{carry, payloads}
use mobiletunnel.Stream.Delivery.Link.{Link, Claim, Ascends, Greets}

-- Claims stay true as the count grows, and what is written without a count adds none.
Claim-mono :
    (id low high : ℕ) (ms : List StreamCodecMessage)
    → low ≤ high
    → All (Claim id low) ms
    → All (Claim id high) ms
Claim-mono id low high [] h c = tt
Claim-mono id low high (hello hm ∷ ms) h ((a, b), c) =
    ((a, omega arith), Claim-mono id low high ms h c)
Claim-mono id low high (data_msg d ∷ ms) h (a, c) = (tt, Claim-mono id low high ms h c)
Claim-mono id low high (ack_msg k ∷ ms) h (a, c) = (omega arith, Claim-mono id low high ms h c)

All-carry :
    (P : StreamCodecMessage → Type 0) (j : Bool) (ms ns : List StreamCodecMessage)
    → All P ms
    → All P ns
    → All P (carry j ms ns)
All-carry P true ms ns a b = All-append P ms ns a b
All-carry P false ms ns a b = a

Claim-data : (id count : ℕ) (ds : List (List ℕ)) → All (Claim id count) (map data_msg ds)
Claim-data id count [] = tt
Claim-data id count (d ∷ ds) = (tt, Claim-data id count ds)

-- Behind counts that are at most `top`, counts that start at `top` ascend.
Ascends-append :
    (id base top : ℕ) (ms ns : List StreamCodecMessage)
    → base ≤ top
    → Ascends base ms
    → All (Claim id top) ms
    → ((low : ℕ) → low ≤ top → Ascends low ns)
    → Ascends base (ms ++ ns)
Ascends-append id base top [] ns h a c n = n base h
Ascends-append id base top (hello hm ∷ ms) ns h a c n =
    (a.0, Ascends-append id hm.sender_last_rx top ms ns c.0.1 a.1 c.1 n)
Ascends-append id base top (data_msg d ∷ ms) ns h a c n = Ascends-append id base top ms ns h a c.1 n
Ascends-append id base top (ack_msg k ∷ ms) ns h a c n =
    (a.0, Ascends-append id k top ms ns c.0 a.1 c.1 n)

Ascends-data : (low : ℕ) (ds : List (List ℕ)) → Ascends low (map data_msg ds)
Ascends-data low [] = tt
Ascends-data low (d ∷ ds) = Ascends-data low ds

Greets-append :
    (count : ℕ) (ms ns : List StreamCodecMessage) → Greets count ms → Greets count (ms ++ ns)
Greets-append count [] ns g = absurd g
Greets-append count (hello hm ∷ ms) ns g = g
Greets-append count (data_msg d ∷ ms) ns g = absurd g
Greets-append count (ack_msg k ∷ ms) ns g = absurd g

Greets-carry :
    (count : ℕ) (j : Bool) (ms ns : List StreamCodecMessage)
    → Greets count ms
    → Greets count (carry j ms ns)
Greets-carry count true ms ns g = Greets-append count ms ns g
Greets-carry count false ms ns g = g

module _ {q : List (List ℕ)} {A : StreamState} {pa : Phase} {ia : List StreamCodecMessage}
    {B : StreamState} {pb : Phase} {ib : List StreamCodecMessage} {j : Bool}
    (l : Link q A pa ia B pb ib j) where
  -- B hands nothing on, and writes data messages at most.
  pub receiver_keeps :
      (B' : StreamState) (pb' : Phase) (ib' : List StreamCodecMessage) (out : List (List ℕ))
      → B'.sender ≡ B.sender
      → B'.received_seq ≡ B.received_seq
      → B'.id ≡ B.id
      → (active pb' ≡ true → (active pb ≡ true) × (payloads ib' ≡ payloads ib))
      → (payloads ib ≡ [] → payloads ib' ≡ [])
      → Link q A pa (carry j ia (map data_msg out)) B' pb' ib' j
  receiver_keeps B' pb' ib' out es er ei goes none_left = record {
    unacked = l.unacked;
    delivered = (l.delivered.0, l.delivered.1 ∙ ap (λ x. x ++ l.delivered.0) (sym es));
    counted = ap length es ∙ l.counted ∙ sym er;
    behind = omega (arith, l.behind, er);
    claims =
        rw (er, ei)
          (All-carry (Claim B.id B.received_seq) j ia (map data_msg out) l.claims
            (Claim-data B.id B.received_seq out));
    ascends = λ on. rw on (
        Ascends-append B.id A.base_offset B.received_seq ia (map data_msg out) l.behind
          (l.ascends on) l.claims (λ low _. Ascends-data low out));
    known = rw ei l.known;
    flow = λ h. let (was, same) = goes h in rw (es, same) (l.flow was);
    complete = λ on p h. let (was, same) = goes h in rw (es, same) (l.complete on p was);
    greets = λ on p.
        let g = l.greets on p in
        (none_left g.0, rw er (Greets-carry B.received_seq j ia (map data_msg out) g.1));
  }

  -- B hands a message on, counts it, and writes the count at most.
  pub receiver_receives :
      (payload : List ℕ) (rest : List StreamCodecMessage) (B' : StreamState) (pb' : Phase)
      (out : List StreamCodecMessage)
      → length q < 2 ^ 64
      → pb ≡ looping
      → ib ≡ data_msg payload ∷ rest
      → B' ≡ (received_one_message (handed B payload)).0
      → (out ≡ ack_msg B'.received_seq ∷ []) ⊎ (out ≡ [])
      → Link q A pa (carry j ia out) B' pb' rest j
  unfolding received_one_message
  receiver_receives payload rest B' pb' out bound p e same wrote = record {
    unacked = l.unacked;
    delivered = (
      payloads rest ++ back,
      split
          ∙ ap (λ x. x ++ back) regroup
          ∙ append_assoc (B.sender ++ (payload ∷ [])) (payloads rest) back
          ∙ ap (λ (t : StreamState). t.sender ++ (payloads rest ++ back)) (sym same),
    );
    counted = rw same (omega (arith, length-append B.sender (payload ∷ []), l.counted, room));
    behind = omega (arith, l.behind, count);
    claims = rw id_kept (
        All-carry (Claim B.id B'.received_seq) j ia out
          (Claim-mono B.id B.received_seq B'.received_seq ia (omega (arith, count)) l.claims)
          (written_claims wrote));
    ascends = λ on. rw on (
        Ascends-append B.id A.base_offset B.received_seq ia out l.behind (l.ascends on) l.claims
          (λ low h. written_ascends low h wrote));
    known = rw id_kept l.known;
    flow = λ _. (
      back,
      split
          ∙ ap (λ x. x ++ back) regroup
          ∙ ap (λ (t : StreamState). (t.sender ++ payloads rest) ++ back) (sym same),
    );
    complete = λ on a _.
        l.complete on a was_active
        ∙ ap (λ x. B.sender ++ payloads x) e
        ∙ sym (append_assoc B.sender (payload ∷ []) (payloads rest))
        ∙ ap (λ (t : StreamState). t.sender ++ payloads rest) (sym same);
    greets = λ on a.
        let nothing : payload ∷ payloads rest ≡ [] = ap payloads (sym e) ∙ (l.greets on a).0 in cc;
  }
    where
      was_active : active pb ≡ true
      was_active = ap active p

      back : List (List ℕ)
      back = (l.flow was_active).0

      split : q ≡ (B.sender ++ payloads ib) ++ back
      split = (l.flow was_active).1

      regroup : B.sender ++ payloads ib ≡ (B.sender ++ (payload ∷ [])) ++ payloads rest
      regroup =
          ap (λ x. B.sender ++ payloads x) e
          ∙ sym (append_assoc B.sender (payload ∷ []) (payloads rest))

      -- The counter does not wrap: there are fewer than 2 ^ 64 messages.
      room : B.received_seq + 1 < 2 ^ 64
      room = omega (
        arith,
        bound,
        ap length (split ∙ ap (λ x. x ++ back) regroup),
        length-append ((B.sender ++ (payload ∷ [])) ++ payloads rest) back,
        length-append (B.sender ++ (payload ∷ [])) (payloads rest),
        length-append B.sender (payload ∷ []),
        l.counted,
      )

      count : B'.received_seq ≡ B.received_seq + 1
      count = ap (λ (t : StreamState). t.received_seq) same ∙ omega (arith, room)

      id_kept : B'.id ≡ B.id
      id_kept = ap (λ (t : StreamState). t.id) same

      written_claims :
          (out ≡ ack_msg B'.received_seq ∷ []) ⊎ (out ≡ []) → All (Claim B.id B'.received_seq) out
      written_claims (inl w) = rw w (omega arith)
      written_claims (inr w) = rw w tt

      written_ascends :
          (low : ℕ)
          → low ≤ B.received_seq
          → (out ≡ ack_msg B'.received_seq ∷ []) ⊎ (out ≡ [])
          → Ascends low out
      written_ascends low h (inl w) = rw w (omega (arith, count), tt)
      written_ascends low h (inr w) = rw w tt
