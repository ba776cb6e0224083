-- ===== src/Stream/Session/Cases.antt =====
-- src/lib/reconnecting_stream.rs: the cases of one event of `run_stream`.
use mobiletunnel.Prelude.{
  ℕ, ◌≡◌, refl, inl, inr, List, [], ◌++◌, map, arith, Bool, false, Option, none, some, Outcome, ok,
  err, panic, Bool-cases, ap, sym, ◌∙◌,
}
use mobiletunnel.Stream.Codec.{HelloMessage, StreamCodecMessage, hello, data_msg, ack_msg}
use mobiletunnel.Stream.State.{AckError, StreamState, received_one_message, ack, is_full}
use mobiletunnel.Stream.Session.{
  Phase, awaiting_hello, looping, returned, crashed, Session, Event, killed, app_rx, tcp_rx,
  writer_died, leave, write, resend, is_stranger, on_hello, on_first, on_app, on_data, on_ack,
  on_tcp, step_waiting, step_looping, step_in, step,
}
use mobiletunnel.Stream.Session.Effects.{
  active, accepted_in, accepted, known, Effect, stays, ends, took, acked, received, refused_hello,
  greeted,
}
use mobiletunnel.Stream.Session.Resend.{resend-Resent}

ends_leave : (s : Session) (e : Event) → accepted s e ≡ [] → s.written ≡ [] → Effect s (leave s) e
unfolding leave
ends_leave s e none_taken w = ends e none_taken refl w refl

took_app :
    (s : Session) (payload : List ℕ)
    → s.written ≡ []
    → s.phase ≡ looping
    → is_full s.state ≡ false
    → Effect s (on_app s (some payload)) (app_rx (some payload))
unfolding on_app write leave
took_app s payload w p f = took payload p f (ground arith) (ground arith)

received_data :
    (s : Session) (payload : List ℕ)
    → s.written ≡ []
    → s.phase ≡ looping
    → Effect s (on_data s payload) (tcp_rx (some (data_msg payload)))
unfolding on_data write leave received_one_message
received_data s payload w p = elim (Bool-cases s.state.app_open) [
  | inl open_end ↦ received payload p (ground arith) (ground arith) (ground arith)
  | inr gone ↦ ends _ refl (ground arith) (ground arith) (ground arith)
]

acked_ack :
    (s : Session) (seq : ℕ)
    → s.written ≡ []
    → s.phase ≡ looping
    → Effect s (on_ack s seq) (tcp_rx (some (ack_msg seq)))
unfolding on_ack leave
acked_ack s seq w p = go (ack s.state seq) refl
  where
    go :
        (r : Outcome AckError StreamState)
        → ack s.state seq ≡ r
        → Effect s (on_ack s seq) (tcp_rx (some (ack_msg seq)))
    go (ok state) e = rw (e, on_ack) (acked seq p e w p)
    go (err x) e = rw (e, on_ack) (ends_leave s _ refl w)
    go panic e = rw (e, on_ack) (ends_leave s _ refl w)

greeted_hello :
    (s : Session) (hm : HelloMessage)
    → s.written ≡ []
    → s.phase ≡ awaiting_hello
    → Effect s (on_hello s hm) (tcp_rx (some (hello hm)))
unfolding on_hello
greeted_hello s hm w p = elim (Bool-cases (is_stranger s.state.remote_id hm.sender_id)) [
  | inl stranger ↦ rw stranger (ends_leave s _ refl w)
  | inr friend ↦ rw friend (go friend (ack (known s.state hm) hm.sender_last_rx) refl)
]
  where
    go :
        is_stranger s.state.remote_id hm.sender_id ≡ false
        → (r : Outcome AckError StreamState) → ack (known s.state hm) hm.sender_last_rx ≡ r
        → Effect s
            (elim r [
              | ok state ↦ resend (record s { state = state }) state.sent_unacked
              | err e ↦ leave (record s { state = known s.state hm })
              | panic ↦ leave (record s { state = known s.state hm })
            ])
            (tcp_rx (some (hello hm)))
    go friend (ok state) e =
        let r = resend-Resent (record s { state = state }) state.sent_unacked in
        greeted hm r.front r.rest p friend (e ∙ ap ok (sym r.same))
          (ap (λ (t : StreamState). t.sent_unacked) r.same ∙ r.split)
          (r.wrote ∙ ap (λ l. l ++ map data_msg r.front) w) r.stands
    go friend (err x) e = unfold leave in (refused_hello hm p refl w refl)
    go friend panic e = unfold leave in (refused_hello hm p refl w refl)

first-Effect :
    (s : Session) (m : Option StreamCodecMessage)
    → s.written ≡ []
    → s.phase ≡ awaiting_hello
    → Effect s (on_first s m) (tcp_rx m)
unfolding on_first
first-Effect s none w p = ends_leave s _ refl w
first-Effect s (some (hello hm)) w p = greeted_hello s hm w p
first-Effect s (some (data_msg d)) w p = ends_leave s _ refl w
first-Effect s (some (ack_msg k)) w p = ends_leave s _ refl w

tcp-Effect :
    (s : Session) (m : Option StreamCodecMessage)
    → s.written ≡ []
    → s.phase ≡ looping
    → Effect s (on_tcp s m) (tcp_rx m)
unfolding on_tcp
tcp-Effect s none w p = ends_leave s _ refl w
tcp-Effect s (some (hello hm)) w p = ends_leave s _ refl w
tcp-Effect s (some (data_msg d)) w p = received_data s d w p
tcp-Effect s (some (ack_msg k)) w p = acked_ack s k w p

looping-Effect :
    (s : Session) (e : Event) → s.written ≡ [] → s.phase ≡ looping → Effect s (step_looping s e) e
unfolding step_looping
looping-Effect s killed w p = ends_leave s _ refl w
looping-Effect s (tcp_rx m) w p = tcp-Effect s m w p
looping-Effect s writer_died w p = stays _ refl refl refl w refl
looping-Effect s (app_rx none) w p = elim (Bool-cases (is_full s.state)) [
  | inl full ↦ rw full (stays _ refl refl refl w refl)
  | inr room ↦ rw room (unfold on_app in (ends_leave s _ refl w))
]
looping-Effect s (app_rx (some payload)) w p = elim (Bool-cases (is_full s.state)) [
  | inl full ↦ rw full (stays _ refl (rw (p, full)) refl w refl)
  | inr room ↦ rw room (took_app s payload w p room)
]

waiting-Effect :
    (s : Session) (e : Event)
    → s.written ≡ []
    → s.phase ≡ awaiting_hello
    → Effect s (step_waiting s e) e
unfolding step_waiting
waiting-Effect s killed w p = ends_leave s _ refl w
waiting-Effect s (tcp_rx m) w p = first-Effect s m w p
waiting-Effect s writer_died w p = stays _ refl refl refl w refl
waiting-Effect s (app_rx none) w p = stays _ refl refl refl w refl
waiting-Effect s (app_rx (some payload)) w p = stays _ refl (rw p) refl w refl

none_accepted :
    (e : Event) (ph : Phase) (full : Bool) → active ph ≡ false → accepted_in e ph full ≡ []
none_accepted (app_rx (some payload)) awaiting_hello full h = refl
none_accepted (app_rx (some payload)) looping full h = cc
none_accepted (app_rx (some payload)) returned full h = refl
none_accepted (app_rx (some payload)) crashed full h = refl
none_accepted (app_rx none) ph full h = refl
none_accepted killed ph full h = refl
none_accepted (tcp_rx m) ph full h = refl
none_accepted writer_died ph full h = refl

in-Effect :
    (ph : Phase) (s : Session) (e : Event)
    → s.written ≡ []
    → s.phase ≡ ph
    → Effect s (step_in ph s e) e
unfolding step_in
in-Effect awaiting_hello s e w p = waiting-Effect s e w p
in-Effect looping s e w p = looping-Effect s e w p
in-Effect returned s e w p = ends e (none_accepted e s.phase (is_full s.state) (rw p)) refl w (rw p)
in-Effect crashed s e w p = ends e (none_accepted e s.phase (is_full s.state) (rw p)) refl w (rw p)

-- From a session with nothing left to write, every event in every phase has one of the effects that
-- `Effect` lists.
pub step-Effect : (s : Session) (e : Event) → s.written ≡ [] → Effect s (step s e) e
unfolding step
step-Effect s e w = in-Effect s.phase s e w refl
