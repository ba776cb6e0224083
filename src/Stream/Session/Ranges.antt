-- ===== src/Stream/Session/Ranges.antt =====
-- src/lib/reconnecting_stream.rs: the machine ranges of what `run_stream` keeps and writes.
pub mod Loop
use mathlib.Core.Path.{subst}
use mobiletunnel.Prelude.{
  sym, ap, ℕ, ◌+◌, ◌%◌, ◌^◌, ◌<◌, ◌≡◌, ◌≢◌, refl, ap, ◌⊎◌, inl, inr, List, [], ◌∷◌, ◌++◌, Bool,
  true, false, Option, none, some, Outcome, ok, err, panic, length, drop, All, All-append, All-drop,
  if◌then◌else◌, ◌-◌, Bool-cases, arith,
}
use mobiletunnel.Stream.Codec.{StreamCodecMessage, HelloMessage, hello, data_msg, ack_msg}
use mobiletunnel.Stream.Codec.RoundTrip.{InRange, Fits, encode-InRange}
use mobiletunnel.Stream.State.{
  StreamState, AckError, already_acked, beyond_unacked, enqueue, ack, received_one_message,
  make_hello, is_full,
}
use mobiletunnel.Stream.Session.{
  Phase, awaiting_hello, looping, returned, crashed, Session, Event, killed, app_rx, tcp_rx,
  writer_died, Sent, sent, refused, panicked, leave, start, write, resend, is_stranger, on_hello,
  on_first, on_app, on_data, on_ack, on_tcp, step_waiting, step_looping, step_in, step, run_stream,
}
use mobiletunnel.Stream.Session.Effects.{known, handed}

abbrev IsId : Option ℕ → Type 0
IsId none = Unit {0}
IsId (some id) = id < 2 ^ 64

-- Every field is in the range of its type, and no queued message is too long for a frame.
pub record InTypes (s : StreamState) : Type 0 where
  pub id : s.id < 2 ^ 64
  pub remote : IsId s.remote_id
  pub queue : All Fits s.sent_unacked
  pub base : s.base_offset < 2 ^ 64
  pub seq : s.received_seq < 2 ^ 64

-- So are all messages that were written, and `encode` did not panic.
pub record IsSound (s : Session) : Type 0 where
  pub types : InTypes s.state
  pub messages : All InRange s.written
  pub alive : s.phase ≢ crashed

-- What an event brings is of the types that the channels have.
abbrev pub IsTypedEvent : Event → Type 0
IsTypedEvent killed = Unit {0}
IsTypedEvent (app_rx none) = Unit {0}
IsTypedEvent (app_rx (some payload)) = Fits payload
IsTypedEvent (tcp_rx none) = Unit {0}
IsTypedEvent (tcp_rx (some m)) = InRange m
IsTypedEvent writer_died = Unit {0}

pub leave-IsSound : (s : Session) → IsSound s → IsSound (leave s)
unfolding leave
leave-IsSound s h = record { types = h.types; messages = h.messages; alive = λ e. cc }

-- With a message in range `write` does not panic.
abbrev pub Goes : Session → StreamCodecMessage → Type 0
Goes s m =
    (write s m ≡ (record s { written = s.written ++ (m ∷ []) }, sent)) ⊎ (write s m ≡ (s, refused))

pub write-Goes : (s : Session) (m : StreamCodecMessage) → InRange m → Goes s m
unfolding write
write-Goes s m h =
    let (bytes, e) = encode-InRange m h in
    elim (Bool-cases s.writer_open) [ inl o ↦ inl (ground arith) | inr o ↦ inr (ground arith) ]

pub wrote-IsSound :
    (s : Session) (m : StreamCodecMessage)
    → InRange m
    → IsSound s
    → IsSound (record s { written = s.written ++ (m ∷ []) })
wrote-IsSound s m r h = record {
  types = h.types;
  messages = All-append InRange s.written (m ∷ []) h.messages (r, tt);
  alive = h.alive;
}

pub write-IsSound :
    (s : Session) (m : StreamCodecMessage) → InRange m → IsSound s → IsSound (write s m).0
write-IsSound s m r h = elim (write-Goes s m r) [
  | inl e ↦ rw e (wrote-IsSound s m r h)
  | inr e ↦ rw e h
]

sent_refused : sent ≢ refused
sent_refused = λ e. cc

sent_panicked : sent ≢ panicked
sent_panicked = λ e. cc

-- What is done behind a `write`: on, or out of the session.
pub behind_write :
    (r : Session × Sent) (s s' : Session) (f : Session → Session)
    → (r ≡ (s', sent)) ⊎ (r ≡ (s, refused))
    → IsSound (f s')
    → IsSound s
    → IsSound (elim r.1 [ sent ↦ f r.0 | refused ↦ leave r.0 | panicked ↦ r.0 ])
behind_write (u, sent) s s' f (inl e) h k =
    subst (λ (t : Session). IsSound (f t)) (sym (ap (λ (r : Session × Sent). r.0) e)) h
behind_write (u, refused) s s' f (inl e) h k =
    absurd (sent_refused (sym (ap (λ (r : Session × Sent). r.1) e)))
behind_write (u, panicked) s s' f (inl e) h k =
    absurd (sent_panicked (sym (ap (λ (r : Session × Sent). r.1) e)))
behind_write (u, sent) s s' f (inr e) h k =
    absurd (sent_refused (ap (λ (r : Session × Sent). r.1) e))
behind_write (u, refused) s s' f (inr e) h k =
    leave-IsSound u (subst IsSound (sym (ap (λ (r : Session × Sent). r.0) e)) k)
behind_write (u, panicked) s s' f (inr e) h k =
    subst IsSound (sym (ap (λ (r : Session × Sent). r.0) e)) k

resend-IsSound :
    (s : Session) (ps : List (List ℕ)) → All Fits ps → IsSound s → IsSound (resend s ps)
unfolding resend
resend-IsSound s [] f h = record { types = h.types; messages = h.messages; alive = λ e. cc }
resend-IsSound s (p ∷ ps) (f, fs) h =
    let next = resend-IsSound _ ps fs (wrote-IsSound s (data_msg p) f h) in
    behind_write (write s (data_msg p)) s _ (λ t. resend t ps) (write-Goes s (data_msg p) f) next h

-- Either branch of an `if`.
pub choice : (b : Bool) (x y : Session) → IsSound x → IsSound y → IsSound (if b then x else y)
choice true x y h k = h
choice false x y h k = k

pub start-IsSound :
    (wrote : Bool) (state : StreamState) → InTypes state → IsSound (start wrote state)
unfolding start make_hello
start-IsSound true state h = record { types = h; messages = ((h.id, h.seq), tt); alive = λ e. cc }
start-IsSound false state h = record { types = h; messages = tt; alive = λ e. cc }

-- What `ack` makes of a state is in range.
unfoldable pub AckFits : Outcome AckError StreamState → Type 0
AckFits (ok state) = InTypes state
AckFits (err e) = Unit {0}
AckFits panic = Unit {0}

pick-AckFits :
    (b c : Bool) (state : StreamState) (seq : ℕ)
    → InTypes state
    → seq < 2 ^ 64
    → AckFits (
        if b
        then err already_acked
        else if c
        then err beyond_unacked
        else ok (record state {
          sent_unacked = drop (seq - state.base_offset) state.sent_unacked;
          base_offset = seq;
        }))
unfolding AckFits
pick-AckFits true c state seq h r = tt
pick-AckFits false true state seq h r = tt
pick-AckFits false false state seq h r = record {
  id = h.id;
  remote = h.remote;
  queue = All-drop Fits (seq - state.base_offset) state.sent_unacked h.queue;
  base = r;
  seq = h.seq;
}

pub ack-AckFits :
    (state : StreamState) (seq : ℕ) → InTypes state → seq < 2 ^ 64 → AckFits (ack state seq)
unfolding ack
ack-AckFits state seq h r = pick-AckFits _ _ state seq h r

pub with_state :
    (s : Session) (state : StreamState)
    → InTypes state
    → IsSound s
    → IsSound (record s { state = state })
with_state s state t h = record { types = t; messages = h.messages; alive = h.alive }

-- The hello of the peer.
greet :
    (s : Session) (state : StreamState) (r : Outcome AckError StreamState)
    → InTypes state
    → AckFits r
    → IsSound s
    → IsSound (elim r [
      | ok state' ↦ resend (record s { state = state' }) state'.sent_unacked
      | err e ↦ leave (record s { state = state })
      | panic ↦ leave (record s { state = state })
    ])
unfolding AckFits
greet s state (ok state') t f h = resend-IsSound _ _ f.queue (with_state s state' f h)
greet s state (err e) t f h = leave-IsSound _ (with_state s state t h)
greet s state panic t f h = leave-IsSound _ (with_state s state t h)

InTypes-known :
    (state : StreamState) (hm : HelloMessage)
    → hm.sender_id < 2 ^ 64
    → InTypes state
    → InTypes (known state hm)
InTypes-known state hm r h = record {
  id = h.id;
  remote = r;
  queue = h.queue;
  base = h.base;
  seq = h.seq;
}

on_hello-IsSound :
    (s : Session) (hm : HelloMessage) → InRange (hello hm) → IsSound s → IsSound (on_hello s hm)
unfolding on_hello
on_hello-IsSound s hm (r, r') h =
    choice (is_stranger s.state.remote_id hm.sender_id) _ _ (leave-IsSound s h) (
      greet s (known s.state hm) _ (InTypes-known s.state hm r h.types)
        (ack-AckFits (known s.state hm) hm.sender_last_rx (InTypes-known s.state hm r h.types) r')
        h)

pub on_first-IsSound :
    (s : Session) (m : Option StreamCodecMessage)
    → IsTypedEvent (tcp_rx m)
    → IsSound s
    → IsSound (on_first s m)
unfolding on_first
on_first-IsSound s none r h = leave-IsSound s h
on_first-IsSound s (some (hello hm)) r h = on_hello-IsSound s hm r h
on_first-IsSound s (some (data_msg p)) r h = leave-IsSound s h
on_first-IsSound s (some (ack_msg k)) r h = leave-IsSound s h
