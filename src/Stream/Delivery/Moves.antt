-- ===== src/Stream/Delivery/Moves.antt =====
-- The links of both directions, over the steps of the two endpoints.
use mathlib.Core.Path.{subst}
use mobiletunnel.Prelude.{
  ℕ, ◌^◌, ◌≡◌, ◌≤◌, ◌<◌, inl, refl, List, [], ◌∷◌, Bool, false, some, none, length, arith,
  length-append,
}
use mobiletunnel.Stream.Codec.{StreamCodecMessage, hello}
use mobiletunnel.Stream.State.{StreamOptions, new, enqueue}
use mobiletunnel.Stream.Session.{returned, Event, killed, app_rx, tcp_rx, writer_died, start}
use mobiletunnel.Stream.Session.Effects.{is_message, accepted}
use mobiletunnel.Stream.Session.Cases.{step-Effect}
use mobiletunnel.Stream.Delivery.{
  Node, Move, acts, reads, queues, joins, dangles, stale, flushed, acted, World, Step, left_moves,
  right_moves, Reach, here, next,
}
use mobiletunnel.Stream.Delivery.Lists.{carry_nothing}
use mobiletunnel.Stream.Delivery.Link.{Link}
use mobiletunnel.Stream.Delivery.Sender.{sender_queues}
use mobiletunnel.Stream.Delivery.Greeting.{Link-joins, sender_alone, receiver_alone}
use mobiletunnel.Stream.Delivery.Receiver.{receiver_keeps}
use mobiletunnel.Stream.Delivery.Steps.{NodeLink, Taken, sender_effect, receiver-Effect}

Taken-refl : (e : Event) (ia : List StreamCodecMessage) → is_message e ≡ false → Taken e ia ia
Taken-refl (tcp_rx (some m)) ia h = cc
Taken-refl (tcp_rx none) ia h = refl
Taken-refl killed ia h = refl
Taken-refl (app_rx m) ia h = refl
Taken-refl writer_died ia h = refl

-- A move of the sender keeps the link.
pub sender_moves :
    {a b a' b' : Node} {j j' : Bool} → Move a b j a' b' j' → NodeLink a b j → NodeLink a' b' j'
unfolding start
sender_moves {a} {b} {j = j} (acts e local) l =
    sender_effect a b j (acted a e) a.inbox l e (step-Effect (flushed a.session) e refl)
      (Taken-refl e a.inbox local)
sender_moves {a} {b} {j = j} (reads m rest i on) l =
    sender_effect a b j _ rest l (tcp_rx (some m))
      (step-Effect (flushed a.session) (tcp_rx (some m)) refl) i
sender_moves {a} (queues payload p room) l = sender_queues l payload a.session.phase (rw p)
sender_moves (joins p q) l = Link-joins l
sender_moves (dangles p) l = sender_alone l [] tt
sender_moves (stale hm p same most) l = sender_alone l (hello hm ∷ []) ((same, most), tt)

-- A move of the receiver keeps the link.
pub receiver_moves :
    {a b a' b' : Node} {j j' : Bool}
    → Move b a j b' a' j'
    → length a.queued < 2 ^ 64
    → NodeLink a b j
    → NodeLink a' b' j'
unfolding start enqueue
receiver_moves {a} {b} {j = j} (acts e local) h l =
    receiver-Effect a b j _ b.inbox h l e (step-Effect (flushed b.session) e refl)
      (Taken-refl e b.inbox local)
receiver_moves {a} {b} {j = j} (reads m rest i on) h l =
    receiver-Effect a b j _ rest h l (tcp_rx (some m))
      (step-Effect (flushed b.session) (tcp_rx (some m)) refl) i
receiver_moves {a} {b} {j = j} (queues payload p room) h l =
    subst
      (λ ia.
        Link a.queued a.session.state a.session.phase ia (enqueue b.session.state payload)
          b.session.phase b.inbox j)
      (carry_nothing j a.inbox)
      (receiver_keeps l (enqueue b.session.state payload) b.session.phase b.inbox [] refl refl refl
        (λ x. (x, refl)) (λ x. x))
receiver_moves (joins p q) h l = Link-joins l
receiver_moves (dangles p) h l = receiver_alone l [] refl
receiver_moves (stale hm p same most) h l = receiver_alone l (hello hm ∷ []) refl

Move-queued :
    {a b a' b' : Node} {j j' : Bool}
    → Move a b j a' b' j'
    → (length a.queued ≤ length a'.queued) × (length b.queued ≤ length b'.queued)
Move-queued {a} (acts e local) =
    (omega (arith, length-append a.queued (accepted a.session e)), omega arith)
Move-queued {a} (reads m rest i on) = (omega (arith, length-append a.queued []), omega arith)
Move-queued {a} (queues payload p room) =
    (omega (arith, length-append a.queued (payload ∷ [])), omega arith)
Move-queued (joins p q) = omega arith
Move-queued (dangles p) = omega arith
Move-queued (stale hm p same most) = omega arith

-- No counter of messages has wrapped: each side accepted fewer than 2 ^ 64 messages.
pub record Bounded (w : World) : Type 0 where
  pub left : length w.left.queued < 2 ^ 64
  pub right : length w.right.queued < 2 ^ 64

-- Both directions.
pub record Linked (w : World) : Type 0 where
  pub forth : NodeLink w.left w.right w.joined
  pub back : NodeLink w.right w.left w.joined

Step-Bounded : {w w' : World} → Step w w' → Bounded w' → Bounded w
Step-Bounded (left_moves m) h = omega (arith, Move-queued m, h.left, h.right)
Step-Bounded (right_moves m) h = omega (arith, Move-queued m, h.left, h.right)

Step-Linked : {w w' : World} → Step w w' → Bounded w → Linked w → Linked w'
Step-Linked (left_moves m) h l = record {
  forth = sender_moves m l.forth;
  back = receiver_moves m h.right l.back;
}
Step-Linked (right_moves m) h l = record {
  forth = receiver_moves m h.left l.forth;
  back = sender_moves m l.back;
}

pub Reach-Linked : {w w' : World} → Reach w w' → Linked w → Bounded w' → Linked w'
Reach-Linked here l h = l
Reach-Linked (next r s) l h = Step-Linked s (Step-Bounded s h) (Reach-Linked r l (Step-Bounded s h))

-- An endpoint before its first connection.
abbrev pub unconnected : ℕ → StreamOptions → Node
unconnected id options = record {
  session = record { state = new id options; phase = returned; written = []; writer_open = false };
  inbox = [];
  queued = [];
}

-- Two endpoints before their first connection.
abbrev pub initial : ℕ → ℕ → StreamOptions → StreamOptions → World
initial x y options options' = record {
  left = unconnected x options;
  right = unconnected y options';
  joined = false;
}

initial_link :
    (x y : ℕ) (options options' : StreamOptions)
    → NodeLink (unconnected x options) (unconnected y options') false
unfolding new
initial_link x y options options' = record {
  unacked = ([], refl, refl);
  delivered = ([], refl);
  counted = refl;
  behind = omega arith;
  claims = tt;
  ascends = λ h. tt;
  known = inl refl;
  flow = λ h. cc;
  complete = λ h. cc;
  greets = λ h. cc;
}

pub initial-Linked :
    (x y : ℕ) (options options' : StreamOptions) → Linked (initial x y options options')
initial-Linked x y options options' = record {
  forth = initial_link x y options options';
  back = initial_link y x options' options;
}
