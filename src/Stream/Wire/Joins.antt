-- ===== src/Stream/Wire/Joins.antt =====
-- src/lib/reconnecting_stream.rs: the two ways out of `run_stream`. A `return` leaves its tasks alone; a `break`
-- waits for both of them, and no longer looks at `kill_stream_rx`.
use mobiletunnel.Prelude.{
  ℕ, ◌≡◌, refl, ap, ◌∙◌, List, Bool, true, false, ◌&&◌, not, none, some, map, flatten, [],
  if◌then◌else◌, All, IsFront,
}
use mobiletunnel.Framing.Chunks.{feed-run}
use mobiletunnel.Framing.Cut.{run-front}
use mobiletunnel.Stream.Codec.{HelloMessage, StreamCodecMessage, hello, data_msg, ack_msg, parse}
use mobiletunnel.Stream.Codec.Laws.{parse-IsFraming}
use mobiletunnel.Stream.Codec.RoundTrip.{InRange, frame, parse-encode}
use mobiletunnel.Stream.State.{enqueue, is_full}
use mobiletunnel.Stream.Session.{
  Session, looping, returned, Event, killed, app_rx, tcp_rx, writer_died, Sent, sent, refused,
  panicked, write, step, step_in, step_looping, on_tcp, leave,
}
use mobiletunnel.Stream.Wire.{
  Item, Standing, still_open, reader_task, ReaderTask, WriterTask, IsFramedRead,
}
use mobiletunnel.Stream.Wire.Reading.{whole, reader_task-all}

abbrev is_refused : Sent → Bool
is_refused sent = false
is_refused refused = true
is_refused panicked = false

-- Whether an event takes the loop to a `break`.
unfoldable pub breaks : Session → Event → Bool
breaks s killed = false
breaks s (app_rx none) = not (is_full s.state)
breaks s (app_rx (some payload)) =
    not (is_full s.state)
    && is_refused (write (record s { state = enqueue s.state payload }) (data_msg payload)).1
breaks s (tcp_rx none) = true
breaks s (tcp_rx (some (hello hm))) = true
breaks s (tcp_rx (some (ack_msg seq))) = false
breaks s (tcp_rx (some (data_msg payload))) = not s.state.app_open
breaks s writer_died = false

-- Behind a `break`, both joins; behind a `return`, nothing.
unfoldable pub joins_return : Session → Event → ReaderTask → WriterTask → Bool
unfolding breaks
joins_return s e reader writer =
    if breaks s e then not reader.running && not writer.running else true

no_end : (w : Bool) → (not true && w) ≡ false
no_end w = refl

-- A peer that sends a second hello, and then keeps its connection open, over any FramedRead that keeps its
-- promise: whatever messages in range it has written, however far their bytes have come, cut in any way, and
-- however the writer task stands, the session is over, and `run_stream` has not returned; and no
-- cancellation is looked at.
pub second_hello-joins_return :
    (framed_rx : List (List ℕ) → Standing → List Item)
    → IsFramedRead framed_rx
    → (s : Session) (hm : HelloMessage) → s.phase ≡ looping
    → (ms : List StreamCodecMessage) (chunks : List (List ℕ)) (takes : ℕ → Bool) → All InRange ms
    → IsFront (flatten chunks) (flatten (map frame ms))
    → ((k : ℕ) → takes k ≡ true)
    → (writer : WriterTask)
    → let e = tcp_rx (some (hello hm)) in
      ((step s e).phase ≡ returned)
      × (joins_return s e (reader_task takes 0 (framed_rx chunks still_open)) writer ≡ false)
unfolding step step_in step_looping on_tcp leave joins_return breaks
second_hello-joins_return framed_rx promised s hm here ms chunks takes g front listens writer =
    let (got, rest, taken, f) =
      run-front parse parse-IsFraming InRange frame parse-encode whole ms (flatten chunks) g
        front in
    let read = feed-run parse parse-IsFraming chunks [] parse-IsFraming.empty ∙ taken in
    let reader =
      ap (reader_task takes 0) (promised.on_open chunks got rest read)
      ∙ reader_task-all takes 0 got listens in
    (rw here refl, ap (λ (r : ReaderTask). not r.running && not writer.running) reader)
