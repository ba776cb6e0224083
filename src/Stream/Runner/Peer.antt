-- ===== src/Stream/Runner/Peer.antt =====
-- src/lib/reconnecting_stream.rs: what a session keeps of the state it started in, whatever the peer sends.
use mobiletunnel.Prelude.{
  ℕ, ◌≡◌, refl, sym, ap, ◌∙◌, inl, inr, List, [], ◌∷◌, ◌++◌, Option, none, some, Bool, true, false,
  if◌then◌else◌, Bool-cases, append-nil, append_assoc, arith, ok, err, panic, Outcome,
}
use mobiletunnel.Stream.Codec.{HelloMessage, StreamCodecMessage, hello, data_msg, ack_msg}
use mobiletunnel.Stream.State.{StreamState, enqueue, ack, AckError, is_full, received_one_message}
use mobiletunnel.Stream.Session.{
  Session, Sent, sent, refused, panicked, Event, killed, app_rx, tcp_rx, writer_died, Phase,
  awaiting_hello, looping, returned, crashed, leave, write, resend, is_stranger, on_hello, on_first,
  on_app, on_data, on_ack, on_tcp, step_waiting, step_looping, step_in, step, run_stream,
}
use mobiletunnel.Stream.Session.Effects.{known, handed}
use mobiletunnel.Stream.Session.Resend.{resend-Resent}
use mobiletunnel.Stream.Delivery.Sender.{ack-eq_ok}

-- What a later state keeps of an earlier one.
pub record Later (x y : StreamState) : Type 0 where
  pub same_id : y.id ≡ x.id
  pub pinned : (k : ℕ) → x.remote_id ≡ some k → y.remote_id ≡ some k
  pub grown : (more : List (List ℕ)) × (y.sender ≡ x.sender ++ more)

pub unchanged :
    (x y : StreamState) → y.id ≡ x.id → y.remote_id ≡ x.remote_id → y.sender ≡ x.sender → Later x y
unchanged x y i r s = record {
  same_id = i;
  pinned = λ k. λ h. r ∙ h;
  grown = ([], s ∙ sym (append-nil x.sender));
}

pub Later-refl : (x : StreamState) → Later x x
Later-refl x = unchanged x x refl refl refl

pub Later-trans : (x y z : StreamState) → Later x y → Later y z → Later x z
Later-trans x y z p q =
    let (m, e) = p.grown in
    let (n, f) = q.grown in
    record {
      same_id = q.same_id ∙ p.same_id;
      pinned = λ k. λ h. q.pinned k (p.pinned k h);
      grown = (m ++ n, f ∙ ap (λ l. l ++ n) e ∙ append_assoc x.sender m n);
    }

pub by_eq : (x y : StreamState) → y ≡ x → Later x y
by_eq x y e = unchanged x y (ap (λ t. t.id) e) (ap (λ t. t.remote_id) e) (ap (λ t. t.sender) e)

write-state : (s : Session) (m : StreamCodecMessage) → (write s m).0.state ≡ s.state
unfolding write
write-state s m = ground arith

ack-Later : (x : StreamState) (seq : ℕ) (y : StreamState) → ack x seq ≡ ok y → Later x y
ack-Later x seq y e =
    let (_, _, same) = ack-eq_ok x seq y e in
    unchanged x y (ap (λ t. t.id) same) (ap (λ t. t.remote_id) same) (ap (λ t. t.sender) same)

-- A hello that is not a stranger's leaves the known id as it is.
known-Later :
    (x : StreamState) (hm : HelloMessage)
    → is_stranger x.remote_id hm.sender_id ≡ false
    → Later x (known x hm)
unfolding is_stranger
known-Later x hm friend = record {
  same_id = refl;
  pinned = λ k. λ h. let same : k ≡ hm.sender_id = ground (arith, h, friend) in ap some (sym same);
  grown = ([], sym (append-nil x.sender));
}

abbrev Leads : StreamState → Session → Type 0
Leads x s = Later x s.state

on_hello-Later : (s : Session) (hm : HelloMessage) → Later s.state (on_hello s hm).state
unfolding on_hello
on_hello-Later s hm = elim (Bool-cases (is_stranger s.state.remote_id hm.sender_id)) [
  | inl stranger ↦ rw stranger (unfold leave in Later-refl s.state)
  | inr friend ↦ rw friend (go friend (ack (known s.state hm) hm.sender_last_rx) refl)
]
  where
    go :
        is_stranger s.state.remote_id hm.sender_id ≡ false
        → (r : Outcome AckError StreamState) → ack (known s.state hm) hm.sender_last_rx ≡ r
        → Leads s.state (elim r [
          | ok state ↦ resend (record s { state = state }) state.sent_unacked
          | err e ↦ leave (record s { state = known s.state hm })
          | panic ↦ leave (record s { state = known s.state hm })
        ])
    go friend (ok state) e =
        let r = resend-Resent (record s { state = state }) state.sent_unacked in
        Later-trans s.state state _
          (Later-trans s.state (known s.state hm) state (known-Later s.state hm friend)
            (ack-Later (known s.state hm) hm.sender_last_rx state e))
          (by_eq state _ r.same)
    go friend (err x) e = unfold leave in known-Later s.state hm friend
    go friend panic e = unfold leave in known-Later s.state hm friend

on_first-Later : (s : Session) (m : Option StreamCodecMessage) → Later s.state (on_first s m).state
unfolding on_first leave
on_first-Later s none = Later-refl s.state
on_first-Later s (some (hello hm)) = on_hello-Later s hm
on_first-Later s (some (data_msg d)) = Later-refl s.state
on_first-Later s (some (ack_msg k)) = Later-refl s.state

on_ack-Later : (s : Session) (seq : ℕ) → Later s.state (on_ack s seq).state
unfolding on_ack
on_ack-Later s seq = go (ack s.state seq) refl
  where
    go :
        (r : Outcome AckError StreamState)
        → ack s.state seq ≡ r
        → Later s.state (on_ack s seq).state
    go (ok state) e = rw (e, on_ack) (ack-Later s.state seq state e)
    go (err x) e = rw (e, on_ack) (unfold leave in Later-refl s.state)
    go panic e = rw (e, on_ack) (unfold leave in Later-refl s.state)

received-Later :
    (x : StreamState) (payload : List ℕ) → Later x (received_one_message (handed x payload)).0
unfolding received_one_message
received-Later x payload = record {
  same_id = refl;
  pinned = λ k. λ h. h;
  grown = (payload ∷ [], refl);
}

-- Whichever way a test goes.
either_way :
    (x : StreamState) (b : Bool) (s t : Session)
    → Later x s.state
    → Later x t.state
    → Later x (if b then s else t).state
either_way x true s t p q = p
either_way x false s t p q = q

on_data-Later : (s : Session) (payload : List ℕ) → Later s.state (on_data s payload).state
unfolding on_data leave
on_data-Later s payload =
    let got = received_one_message (handed s.state payload) in
    either_way s.state s.state.app_open _ _
      (Later-trans s.state got.0 _ (received-Later s.state payload)
        (by_eq got.0 _ (write-state (record s { state = got.0 }) (ack_msg got.1))))
      (Later-refl s.state)

after_write :
    (x : StreamState) (s : Session) (result : Sent)
    → Later x s.state
    → Leads x (elim result [ sent ↦ s | refused ↦ leave s | panicked ↦ s ])
unfolding leave
after_write x s sent p = p
after_write x s refused p = p
after_write x s panicked p = p

on_app-Later : (s : Session) (m : Option (List ℕ)) → Later s.state (on_app s m).state
unfolding on_app
on_app-Later s none = unfold leave in Later-refl s.state
on_app-Later s (some payload) =
    let queued : Session = record s { state = enqueue s.state payload } in
    let kept : Later s.state queued.state =
      unfold enqueue in unchanged s.state (enqueue s.state payload) refl refl refl in
    after_write s.state (write queued (data_msg payload)).0 (write queued (data_msg payload)).1 (
      Later-trans s.state queued.state _ kept
        (by_eq queued.state _ (write-state queued (data_msg payload))))

on_tcp-Later : (s : Session) (m : Option StreamCodecMessage) → Later s.state (on_tcp s m).state
unfolding on_tcp leave
on_tcp-Later s none = Later-refl s.state
on_tcp-Later s (some (hello hm)) = Later-refl s.state
on_tcp-Later s (some (ack_msg seq)) = on_ack-Later s seq
on_tcp-Later s (some (data_msg payload)) = on_data-Later s payload

waiting-Later : (s : Session) (e : Event) → Later s.state (step_waiting s e).state
unfolding step_waiting leave
waiting-Later s killed = Later-refl s.state
waiting-Later s (app_rx m) = Later-refl s.state
waiting-Later s (tcp_rx m) = on_first-Later s m
waiting-Later s writer_died = Later-refl s.state

looping-Later : (s : Session) (e : Event) → Later s.state (step_looping s e).state
unfolding step_looping leave
looping-Later s killed = Later-refl s.state
looping-Later s (app_rx m) =
    either_way s.state (is_full s.state) s (on_app s m) (Later-refl s.state) (on_app-Later s m)
looping-Later s (tcp_rx m) = on_tcp-Later s m
looping-Later s writer_died = Later-refl s.state

step_in-Later : (ph : Phase) (s : Session) (e : Event) → Later s.state (step_in ph s e).state
unfolding step_in
step_in-Later awaiting_hello s e = waiting-Later s e
step_in-Later looping s e = looping-Later s e
step_in-Later returned s e = Later-refl s.state
step_in-Later crashed s e = Later-refl s.state

pub run_stream-Later : (s : Session) (es : List Event) → Later s.state (run_stream s es).state
unfolding run_stream step
run_stream-Later s [] = Later-refl s.state
run_stream-Later s (e ∷ es) =
    Later-trans s.state (step s e).state _ (step_in-Later s.phase s e)
      (run_stream-Later (step s e) es)
