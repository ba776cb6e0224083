-- ===== src/Stream/Wire/Sessions.antt =====
-- src/lib/reconnecting_stream.rs: two runs of `run_stream` at the ends of one connection, with the tasks
-- and the bytes between them.
use mathlib.Core.Path.{subst}
use mobiletunnel.Prelude.{
  ℕ, ◌≡◌, refl, sym, ap, ◌∙◌, inl, inr, List, [], ◌∷◌, ◌++◌, Bool, Option, none, some, map, flatten,
  All, All-IsFront, IsFront, append-nil, IsFront-trans,
}
use mobiletunnel.Stream.Codec.{StreamCodecMessage}
use mobiletunnel.Stream.Codec.RoundTrip.{InRange, Fits, frame}
use mobiletunnel.Stream.State.{StreamState}
use mobiletunnel.Stream.Session.{Event, killed, app_rx, tcp_rx, writer_died, start, run_stream}
use mobiletunnel.Stream.Session.Ranges.{InTypes, IsSound, IsTypedEvent}
use mobiletunnel.Stream.Session.Ranges.Loop.{run_stream-IsSound}
use mobiletunnel.Stream.Wire.{
  Handed, writer_task, new_writer, Item, Standing, ReaderTask, reader_task, IsFramedRead,
}
use mobiletunnel.Stream.Wire.Writing.{handed_messages}
use mobiletunnel.Stream.Wire.Reading.{Tells, wire_in_order}

-- The messages of the peer that a session read.
abbrev pub messages_read : List Event → List StreamCodecMessage
messages_read [] = []
messages_read (killed ∷ es) = messages_read es
messages_read (app_rx m ∷ es) = messages_read es
messages_read (tcp_rx none ∷ es) = messages_read es
messages_read (tcp_rx (some m) ∷ es) = m ∷ messages_read es
messages_read (writer_died ∷ es) = messages_read es

-- The messages of the application are below 4 GB.
abbrev pub IsTypedApp : Event → Type 0
IsTypedApp killed = Unit {0}
IsTypedApp (app_rx none) = Unit {0}
IsTypedApp (app_rx (some payload)) = Fits payload
IsTypedApp (tcp_rx m) = Unit {0}
IsTypedApp writer_died = Unit {0}

typed_events :
    (es : List Event) → All IsTypedApp es → All InRange (messages_read es) → All IsTypedEvent es
typed_events [] a m = tt
typed_events (killed ∷ es) (a, rest) m = (tt, typed_events es rest m)
typed_events (app_rx none ∷ es) (a, rest) m = (tt, typed_events es rest m)
typed_events (app_rx (some p) ∷ es) (a, rest) m = (a, typed_events es rest m)
typed_events (tcp_rx none ∷ es) (a, rest) m = (tt, typed_events es rest m)
typed_events (tcp_rx (some k) ∷ es) (a, rest) (m, ms) = (m, typed_events es rest ms)
typed_events (writer_died ∷ es) (a, rest) m = (tt, typed_events es rest m)

module _ {ℓ} {A : Type ℓ} where
  -- Before the word that the session is over there are only messages.
  some-IsFront :
      (xs got : List A) (end : List (Option A))
      → All (λ o. o ≡ none) end
      → IsFront (map some xs) (map some got ++ end)
      → IsFront xs got
  some-IsFront [] got end h f = (got, refl)
  some-IsFront (x ∷ xs) [] [] h (back, e) = absurd cc
  some-IsFront (x ∷ xs) [] (o ∷ end) (p, h) (back, e) = absurd cc
  some-IsFront (x ∷ xs) (y ∷ got) end h (back, e) =
      let heads : some y ≡ some x = cc in
      let same : y ≡ x = cc in
      let tails : map some got ++ end ≡ map some xs ++ back = cc in
      let (more, q) = some-IsFront xs got end h (back, tails) in
      (more, ap (◌∷◌ y) q ∙ ap (◌∷ (xs ++ more)) same)

told-IsFront :
    (xs ms : List StreamCodecMessage) (r : ReaderTask)
    → Tells ms r
    → IsFront (map some xs) r.told
    → IsFront xs ms
told-IsFront xs ms r (got, f, inl e) h =
    IsFront-trans xs got ms
      (some-IsFront xs got [] tt
        (subst (IsFront (map some xs)) (e ∙ sym (append-nil (map some got))) h))
      f
told-IsFront xs ms r (got, f, inr (e, stopped)) h =
    IsFront-trans xs got ms
      (some-IsFront xs got (none ∷ []) (refl, tt) (subst (IsFront (map some xs)) e h)) f

-- A session at each end of one connection, both from states in the ranges of their types, the near one
-- over any typed events, the far one over events whose messages of the peer are the ones that its reader
-- task told it, so far. The near writer task has been handed what the near session wrote, so far, and its
-- writes may fail; the bytes that its socket took travel in order, arrive so far, and are cut in any way.
-- Then what the far session read is a front of what the near session wrote, message by message; and,
-- whatever its application adds below 4 GB, the far session's state and all that it writes in turn are
-- in the ranges of their types, and it has not panicked in `encode`.
pub sessions_on_the_wire :
    (framed_rx : List (List ℕ) → Standing → List Item)
    → IsFramedRead framed_rx
    → (wrote wrote' : Bool) (near far : StreamState) (es es' : List Event) → InTypes near
    → InTypes far
    → All IsTypedEvent es
    → All IsTypedApp es'
    → (hs : List Handed) (chunks : List (List ℕ)) (s : Standing) (takes : ℕ → Bool)
    → IsFront (handed_messages hs) (map frame (run_stream (start wrote near) es).written)
    → IsFront (flatten chunks) (writer_task new_writer hs).out
    → IsFront (map some (messages_read es')) (reader_task takes 0 (framed_rx chunks s)).told
    → IsFront (messages_read es') (run_stream (start wrote near) es).written
      × IsSound (run_stream (start wrote' far) es')
sessions_on_the_wire framed_rx promised wrote wrote' near far es es' h h' f f' hs chunks s takes
      handed arrived read =
    let written = (run_stream (start wrote near) es).written in
    let typed = (run_stream-IsSound wrote near es h f).messages in
    let front =
      told-IsFront (messages_read es') written _
        (wire_in_order framed_rx promised written hs chunks s takes typed handed arrived) read in
    (
      front,
      run_stream-IsSound wrote' far es' h'
          (typed_events es' f' (All-IsFront InRange (messages_read es') written front typed)),
    )
