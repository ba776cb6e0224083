-- ===== src/Stream/Wire/Tests.antt =====
-- src/lib/reconnecting_stream.rs: the tasks of a connection, and `run_stream`, at concrete inputs.
use mathlib.Core.Path.{subst}
use mobiletunnel.Prelude.{
  ℕ, ◌≡◌, refl, sym, ap, ◌∙◌, List, [], ◌∷◌, ◌++◌, Bool, true, false, none, some, map, take, drop,
  flatten, append-nil, All, arith, IsFront, IsFront-refl,
}
use mobiletunnel.Framing.{Ended, waits, feed, failed, panicked, spent}
use mobiletunnel.Bytes.{to_le_bytes}
use mobiletunnel.Stream.Codec.{StreamCodecMessage, hello, data_msg, ParseError, parse, encode}
use mobiletunnel.Stream.Codec.RoundTrip.{frame}
use mobiletunnel.Stream.State.{StreamState, new, enqueue, is_full, make_hello, ack}
use mobiletunnel.Stream.Session.{
  Session, looping, returned, Event, app_rx, tcp_rx, start, run_stream, step, step_in, step_waiting,
  step_looping, on_first, on_hello, on_app, is_stranger, resend, write,
}
use mobiletunnel.Stream.Session.Ranges.{InTypes, IsSound, IsTypedEvent}
use mobiletunnel.Stream.Wire.{
  Handed, writer_task, new_writer, Item, decoded, broken, ended, Standing, still_open, eof,
  io_error, reader_task, IsFramedRead,
}
use mobiletunnel.Stream.Wire.Reading.{wire_brings_all}
use mobiletunnel.Stream.Wire.Joins.{joins_return, second_hello-joins_return}
use mobiletunnel.Stream.Wire.Sessions.{messages_read, sessions_on_the_wire}

-- A reader that keeps the promise.
abbrev items : List StreamCodecMessage × Ended ParseError → Standing → List Item
items (ms, waits rest) still_open = map decoded ms
items (ms, waits []) eof = map decoded ms ++ (ended ∷ [])
items (ms, waits (x ∷ rest)) eof = map decoded ms ++ (broken ∷ [])
items (ms, waits rest) io_error = map decoded ms ++ (broken ∷ [])
items (ms, failed e) s = map decoded ms ++ (broken ∷ [])
items (ms, panicked) s = map decoded ms
items (ms, spent) s = map decoded ms

abbrev framed_rx : List (List ℕ) → Standing → List Item
framed_rx chunks s = items (feed parse [] chunks) s

same-IsFront : (xs ys : List Item) → ys ≡ xs → IsFront xs ys
same-IsFront xs ys e = ([], e ∙ sym (append-nil xs))

framed_rx-IsFramedRead : IsFramedRead framed_rx
framed_rx-IsFramedRead = record {
  on_open = λ chunks. λ ms. λ rest. λ e. ap (λ r. items r still_open) e;
  on_eof = λ chunks. λ ms. λ e. ap (λ r. items r eof) e;
  on_cut = λ chunks. λ ms. λ x. λ rest. λ e. same-IsFront _ _ (ap (λ r. items r eof) e);
  on_io_error = λ chunks. λ ms. λ rest. λ e. same-IsFront _ _ (ap (λ r. items r io_error) e);
  on_failed = λ chunks. λ s. λ ms. λ x. λ e. same-IsFront _ _ (ap (λ r. items r s) e);
}

-- The near session reads the far one's hello, and takes a message of its application.
abbrev near : StreamState
near = new 1 (record { max_window = 100 })

abbrev far : StreamState
far = new 2 (record { max_window = 100 })

abbrev hi : List ℕ
hi = b'h' ∷ b'i' ∷ []

abbrev far_hello : StreamCodecMessage
far_hello = hello (record { sender_id = 2; sender_last_rx = 0 })

abbrev near_hello : StreamCodecMessage
near_hello = hello (record { sender_id = 1; sender_last_rx = 0 })

abbrev near_events : List Event
near_events = tcp_rx (some far_hello) ∷ app_rx (some hi) ∷ []

abbrev wrote : List StreamCodecMessage
wrote = near_hello ∷ data_msg hi ∷ []

near_written : (run_stream (start true near) near_events).written ≡ wrote
unfolding new start run_stream step step_in step_waiting step_looping on_first on_hello on_app
    is_stranger ack resend write make_hello enqueue is_full encode
near_written = refl

near-InTypes : InTypes near
unfolding new
near-InTypes = record {
  id = omega arith;
  remote = tt;
  queue = tt;
  base = omega arith;
  seq = omega arith;
}

far-InTypes : InTypes far
unfolding new
far-InTypes = record {
  id = omega arith;
  remote = tt;
  queue = tt;
  base = omega arith;
  seq = omega arith;
}

near_typed : All IsTypedEvent near_events
near_typed = ((omega arith, omega arith), (omega arith, tt))

-- Both frames are written as a whole, and arrive in two chunks.
abbrev handed : List Handed
handed = (some (frame near_hello), none) ∷ (some (frame (data_msg hi)), none) ∷ []

abbrev bytes : List ℕ
bytes = frame near_hello ++ frame (data_msg hi)

abbrev chunks : List (List ℕ)
chunks = take 5 bytes ∷ drop 5 bytes ∷ []

abbrev always : ℕ → Bool
always n = true

all_arrived : flatten chunks ≡ (writer_task new_writer handed).out
unfolding encode to_le_bytes writer_task new_writer
all_arrived = refl

wire_brings_all_example :
    reader_task always 0 (framed_rx chunks still_open)
    ≡ record { told = map some wrote; running = true }
wire_brings_all_example =
    wire_brings_all framed_rx framed_rx-IsFramedRead wrote handed chunks always
      ((omega arith, omega arith), (omega arith, tt)) refl (refl, (refl, tt)) all_arrived
      (λ k. refl)

-- The far session has read the hello so far.
abbrev far_events : List Event
far_events = tcp_rx (some near_hello) ∷ app_rx (some hi) ∷ []

told_so_far :
    IsFront
      (map some (messages_read far_events))
      (reader_task always 0 (framed_rx chunks still_open)).told
told_so_far = (
  some (data_msg hi) ∷ [],
  ap (λ r. r.told)
      (wire_brings_all framed_rx framed_rx-IsFramedRead wrote handed chunks always
        ((omega arith, omega arith), (omega arith, tt)) refl (refl, (refl, tt)) all_arrived
        (λ k. refl)),
)

sessions_on_the_wire_example :
    IsFront (near_hello ∷ []) (run_stream (start true near) near_events).written
    × IsSound (run_stream (start true far) far_events)
sessions_on_the_wire_example =
    sessions_on_the_wire framed_rx framed_rx-IsFramedRead true true near far near_events far_events
      near-InTypes far-InTypes near_typed (tt, (omega arith, tt)) handed chunks still_open always
      ([], ap (map frame) near_written)
      (subst (IsFront (flatten chunks)) all_arrived (IsFront-refl (flatten chunks))) told_so_far

-- A peer that says hello twice, and then nothing.
abbrev hello_twice : Session
hello_twice = record { state = near; phase = looping; written = []; writer_open = true }

second_hello-joins_return_example :
    let e = tcp_rx (some far_hello) in
    ((step hello_twice e).phase ≡ returned)
    × (joins_return hello_twice e (reader_task always 0 (framed_rx chunks still_open)) new_writer
        ≡ false)
unfolding encode to_le_bytes
second_hello-joins_return_example =
    second_hello-joins_return framed_rx framed_rx-IsFramedRead hello_twice
      (record { sender_id = 2; sender_last_rx = 0 }) refl wrote chunks always
      ((omega arith, omega arith), (omega arith, tt)) ([], refl) (λ k. refl) new_writer
