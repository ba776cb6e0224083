-- ===== src/Stream/Delivery/Steps.antt =====
-- The link from A to B under what one event does to either.
use mathlib.Core.Path.{subst}
use mobiletunnel.Prelude.{
  ℕ, ◌^◌, ◌≡◌, ◌<◌, inl, inr, refl, sym, ap, ◌∙◌, List, [], ◌∷◌, ◌++◌, Bool, false, some, none,
  length, All, append-nil,
}
use mobiletunnel.Stream.Codec.{StreamCodecMessage, hello, data_msg}
use mobiletunnel.Stream.State.{StreamState, enqueue, received_one_message}
use mobiletunnel.Stream.Session.{Session, Phase, Event, killed, app_rx, tcp_rx, writer_died}
use mobiletunnel.Stream.Session.Effects.{
  Effect, stays, ends, took, acked, received, refused_hello, greeted, active, is_message, accepted,
  known,
}
use mobiletunnel.Stream.Delivery.{Node, flushed}
use mobiletunnel.Stream.Delivery.Lists.{carry, carry_nothing, payloads-tail, payloads}
use mobiletunnel.Stream.Delivery.Link.{Link, Claim}
use mobiletunnel.Stream.Delivery.Sender.{
  sender_keeps, sender_queues, sender_sends, sender_acked, ack-eq_ok, Leaves,
}
use mobiletunnel.Stream.Delivery.Greeting.{sender_greeted}
use mobiletunnel.Stream.Delivery.Receiver.{receiver_keeps, receiver_receives}

-- The link between two endpoints.
abbrev pub NodeLink : Node → Node → Bool → Type 0
NodeLink a b j =
    Link a.queued a.session.state a.session.phase a.inbox b.session.state b.session.phase b.inbox j

-- What an event leaves of the inbox: a message of the peer is its first message.
abbrev pub Taken : Event → List StreamCodecMessage → List StreamCodecMessage → Type 0
Taken (tcp_rx (some m)) ia ia' = ia ≡ m ∷ ia'
Taken (tcp_rx none) ia ia' = ia ≡ ia'
Taken killed ia ia' = ia ≡ ia'
Taken (app_rx m) ia ia' = ia ≡ ia'
Taken writer_died ia ia' = ia ≡ ia'

Taken-Leaves : (e : Event) (ia ia' : List StreamCodecMessage) → Taken e ia ia' → Leaves ia ia'
Taken-Leaves (tcp_rx (some m)) ia ia' t = inr (m, t)
Taken-Leaves (tcp_rx none) ia ia' t = inl t
Taken-Leaves killed ia ia' t = inl t
Taken-Leaves (app_rx m) ia ia' t = inl t
Taken-Leaves writer_died ia ia' t = inl t

Taken-same :
    (e : Event) (ia ia' : List StreamCodecMessage)
    → is_message e ≡ false
    → Taken e ia ia'
    → ia ≡ ia'
Taken-same (tcp_rx (some m)) ia ia' h t = cc
Taken-same (tcp_rx none) ia ia' h t = t
Taken-same killed ia ia' h t = t
Taken-same (app_rx m) ia ia' h t = t
Taken-same writer_died ia ia' h t = t

-- The sender has an event.
module _ (a b : Node) (j : Bool) (s' : Session) (ia' : List StreamCodecMessage)
    (l : NodeLink a b j) where
  abbrev pub Sent : Event → Type 0
  Sent e =
      Link (a.queued ++ accepted a.session e) s'.state s'.phase ia' b.session.state b.session.phase
        (carry j b.inbox s'.written) j

  nothing_written :
      {q : List (List ℕ)} {A : StreamState} {pa : Phase} {ia : List StreamCodecMessage}
      → Link q A pa ia b.session.state b.session.phase b.inbox j
      → Link q A pa ia b.session.state b.session.phase (carry j b.inbox []) j
  nothing_written {q} {A} {pa} {ia} m =
      subst (λ ib. Link q A pa ia b.session.state b.session.phase ib j)
        (sym (carry_nothing j b.inbox)) m

  pub sender_effect : (e : Event) → Effect (flushed a.session) s' e → Taken e a.inbox ia' → Sent e
  unfolding received_one_message
  sender_effect e (stays _ local nothing st w ph) t =
      rw (nothing, append-nil a.queued, w)
        (sender_keeps l s'.state s'.phase ia' [] (ap (λ (x : StreamState). x.sent_unacked) st)
          (ap (λ (x : StreamState). x.base_offset) st) (rw st l.known)
          (Taken-Leaves e a.inbox ia' t) (λ x. sym ph ∙ x)
          (λ x. (sym ph ∙ x, Taken-same e a.inbox ia' local t)) refl)
  sender_effect e (ends _ nothing st w off) t =
      rw (nothing, append-nil a.queued, w)
        (sender_keeps l s'.state s'.phase ia' [] (ap (λ (x : StreamState). x.sent_unacked) st)
          (ap (λ (x : StreamState). x.base_offset) st) (rw st l.known)
          (Taken-Leaves e a.inbox ia' t) (λ x. cc) (λ x. cc) refl)
  sender_effect e (took payload p room st (inl (w, ph))) t =
      rw (p, room, st, ph, w, ← t) (sender_sends l payload p)
  sender_effect e (took payload p room st (inr (w, off))) t =
      rw (p, room, st, w, ← t) (nothing_written (sender_queues l payload s'.phase off))
  sender_effect e (acked seq p r w ph) t =
      rw (append-nil a.queued, ph, w) (nothing_written (sender_acked l seq ia' s'.state p t r))
  sender_effect e (received payload p st w ph) t = rw (append-nil a.queued) (
      sender_keeps l s'.state s'.phase ia' s'.written (ap (λ (x : StreamState). x.sent_unacked) st)
        (ap (λ (x : StreamState). x.base_offset) st) (rw st l.known) (inr (data_msg payload, t))
        (λ x. p) (λ x. elim ph [ inl y ↦ cc | inr off ↦ cc ])
        (elim w [ inl y ↦ rw y refl | inr y ↦ rw y refl ]))
  sender_effect e (refused_hello hm p st w off) t =
      rw (append-nil a.queued, w)
        (sender_keeps l s'.state s'.phase ia' [] (ap (λ (x : StreamState). x.sent_unacked) st)
          (ap (λ (x : StreamState). x.base_offset) st)
          (rw st (
            inr (
              ap some
                (subst (All (Claim b.session.state.id b.session.state.received_seq)) t
                  l.claims).0.0)))
          (inr (hello hm, t)) (λ x. cc) (λ x. cc) refl)
  sender_effect e (greeted hm resent rest p friend r split w goes) t =
      rw (append-nil a.queued, w)
        (sender_greeted l hm ia' s'.state resent rest s'.phase p t r split goes)

Leaves-payloads :
    (ib ib' : List StreamCodecMessage) → Leaves ib ib' → payloads ib ≡ [] → payloads ib' ≡ []
Leaves-payloads ib ib' (inl e) h = ap payloads (sym e) ∙ h
Leaves-payloads ib ib' (inr (m, e)) h = payloads-tail m ib' (ap payloads (sym e) ∙ h)

-- The receiver has an event.
module _ (a b : Node) (j : Bool) (s' : Session) (ib' : List StreamCodecMessage)
    (bound : length a.queued < 2 ^ 64) (l : NodeLink a b j) where
  abbrev pub Heard : List StreamCodecMessage → Type 0
  Heard out =
      Link a.queued a.session.state a.session.phase (carry j a.inbox out) s'.state s'.phase ib' j

  -- It is over, or it only writes.
  Heard-end :
      (e : Event)
      → s'.state.sender ≡ b.session.state.sender
      → s'.state.received_seq ≡ b.session.state.received_seq
      → s'.state.id ≡ b.session.state.id
      → Leaves b.inbox ib'
      → active s'.phase ≡ false
      → Heard []
  Heard-end e es er ei left off =
      receiver_keeps l s'.state s'.phase ib' [] es er ei (λ h. cc)
        (Leaves-payloads b.inbox ib' left)

  pub receiver-Effect :
      (e : Event) → Effect (flushed b.session) s' e → Taken e b.inbox ib' → Heard s'.written
  unfolding received_one_message enqueue
  receiver-Effect e (stays _ local nothing st w ph) t =
      let same = Taken-same e b.inbox ib' local t in
      rw w (
        receiver_keeps l s'.state s'.phase ib' [] (ap (λ (x : StreamState). x.sender) st)
          (ap (λ (x : StreamState). x.received_seq) st) (ap (λ (x : StreamState). x.id) st)
          (λ h. (ap active (sym ph) ∙ h, ap payloads (sym same))) (λ h. ap payloads (sym same) ∙ h))
  receiver-Effect e (ends _ nothing st w off) t = rw w (
      Heard-end e (ap (λ (x : StreamState). x.sender) st)
        (ap (λ (x : StreamState). x.received_seq) st) (ap (λ (x : StreamState). x.id) st)
        (Taken-Leaves e b.inbox ib' t) off)
  receiver-Effect e (took payload p room st (inl (w, ph))) t = rw w (
      receiver_keeps l s'.state s'.phase ib' (payload ∷ []) (ap (λ (x : StreamState). x.sender) st)
        (ap (λ (x : StreamState). x.received_seq) st) (ap (λ (x : StreamState). x.id) st)
        (λ h. (ap active p, ap payloads (sym t))) (λ h. ap payloads (sym t) ∙ h))
  receiver-Effect e (took payload p room st (inr (w, off))) t = rw w (
      Heard-end e (ap (λ (x : StreamState). x.sender) st)
        (ap (λ (x : StreamState). x.received_seq) st) (ap (λ (x : StreamState). x.id) st) (inl t)
        off)
  receiver-Effect e (acked seq p r w ph) t =
      let (_, _, st) = ack-eq_ok b.session.state seq s'.state r in
      rw w (
        receiver_keeps l s'.state s'.phase ib' [] (ap (λ (x : StreamState). x.sender) st)
          (ap (λ (x : StreamState). x.received_seq) st) (ap (λ (x : StreamState). x.id) st)
          (λ h. (ap active p, ap payloads (sym t))) (λ h. ap payloads (sym t) ∙ h))
  receiver-Effect e (received payload p st w ph) t =
      receiver_receives l payload ib' s'.state s'.phase s'.written bound p t st w
  receiver-Effect e (refused_hello hm p st w off) t = rw w (
      Heard-end e (ap (λ (x : StreamState). x.sender) st)
        (ap (λ (x : StreamState). x.received_seq) st) (ap (λ (x : StreamState). x.id) st)
        (inr (hello hm, t)) off)
  receiver-Effect e (greeted hm resent rest p friend r split w goes) t =
      let (_, _, st) = ack-eq_ok (known b.session.state hm) hm.sender_last_rx s'.state r in
      rw w (
        receiver_keeps l s'.state s'.phase ib' resent (ap (λ (x : StreamState). x.sender) st)
          (ap (λ (x : StreamState). x.received_seq) st) (ap (λ (x : StreamState). x.id) st)
          (λ h. (ap active p, ap payloads (sym t))) (λ h. ap payloads (sym t) ∙ h))
