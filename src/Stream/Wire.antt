-- ===== src/Stream/Wire.antt =====
-- src/lib/reconnecting_stream.rs: the two tasks that `run_stream` spawns on a tcp connection, the writer
-- task and the framed reader task, with the bytes between the two ends. `FramedRead` of tokio_util is a
-- parameter; what is relied on is `IsFramedRead`.
pub mod Writing
pub mod Reading
pub mod Sessions
pub mod Joins
mod Tests
use mobiletunnel.Prelude.{
  ℕ, suc, ◌≡◌, List, [], ◌∷◌, ◌++◌, Bool, true, false, Option, none, some, if◌then◌else◌, take, map,
  IsFront,
}
use mobiletunnel.Framing.{waits, feed}
use mobiletunnel.Framing as Framing
use mobiletunnel.Stream.Codec.{StreamCodecMessage, ParseError, parse}

-- What `writer_rx.recv()` yields, a closed channel being `none` as well, and how `write_all` ends: `none`
-- if it writes all, and else the number of bytes that the socket took before the error.
abbrev pub Handed : Type 0
Handed = Option (List ℕ) × Option ℕ

-- The writer task: the bytes that the socket took, how often it told `run_stream` that the session is
-- over, and whether it runs.
pub record WriterTask : Type 0 where
  pub out : List ℕ
  pub told : List (Option StreamCodecMessage)
  pub running : Bool

abbrev pub tells : WriterTask → WriterTask
tells w = record w { told = w.told ++ (none ∷ []); running = false }

abbrev pub writes : WriterTask → List ℕ → WriterTask
writes w bytes = record w { out = w.out ++ bytes }

-- One round of its loop.
unfoldable pub writer_step : WriterTask → Handed → WriterTask
writer_step w (none, result) = tells w
writer_step w (some msg, none) = writes w msg
writer_step w (some msg, some written) = tells (writes w (take written msg))

unfoldable pub writer_task : WriterTask → List Handed → WriterTask
unfolding writer_step
writer_task w [] = w
writer_task w (h ∷ hs) =
    let rest = writer_task (writer_step w h) hs in if w.running then rest else w

unfoldable pub new_writer : WriterTask
new_writer = record { out = []; told = []; running = true }

-- What `framed_rx.next()` yields: a message, an error, or the end.
pub data Item : Type 0 where
  decoded : StreamCodecMessage → Item
  broken ended : Item

-- How the socket stands behind the chunks that were read.
pub data Standing : Type 0 where
  still_open eof io_error : Standing

-- What the framed reader task told `run_stream`, and whether it runs.
pub record ReaderTask : Type 0 where
  pub told : List (Option StreamCodecMessage)
  pub running : Bool

abbrev pub last_word : Bool → ReaderTask
last_word takes = record { told = if takes then none ∷ [] else []; running = false }

-- The loop of the framed reader task over what `framed_rx.next()` yields; `takes n` says whether the
-- channel to `run_stream` is open at the n-th message.
unfoldable pub reader_task : (ℕ → Bool) → ℕ → List Item → ReaderTask
reader_task takes n [] = record { told = []; running = true }
reader_task takes n (decoded msg ∷ items) =
    let rest = reader_task takes (suc n) items in
    if takes n
    then record rest { told = some msg ∷ rest.told }
    else record { told = []; running = false }
reader_task takes n (broken ∷ items) = last_word (takes n)
reader_task takes n (ended ∷ items) = last_word (takes n)

-- What `FramedRead` promises of a decoder: it calls `decode` on the buffer until that wants more bytes,
-- and reads then. At the end of the transport a buffer that is not empty is an error, and so are an error
-- of the transport and one of `decode`.
pub record IsFramedRead (framed_rx : List (List ℕ) → Standing → List Item) : Type 0 where
  pub on_open :
      (chunks : List (List ℕ)) (ms : List StreamCodecMessage) (rest : List ℕ)
      → feed parse [] chunks ≡ (ms, waits rest)
      → framed_rx chunks still_open ≡ map decoded ms
  pub on_eof :
      (chunks : List (List ℕ)) (ms : List StreamCodecMessage)
      → feed parse [] chunks ≡ (ms, waits [])
      → framed_rx chunks eof ≡ map decoded ms ++ (ended ∷ [])
  pub on_cut :
      (chunks : List (List ℕ)) (ms : List StreamCodecMessage) (x : ℕ) (rest : List ℕ)
      → feed parse [] chunks ≡ (ms, waits (x ∷ rest))
      → IsFront (map decoded ms ++ (broken ∷ [])) (framed_rx chunks eof)
  pub on_io_error :
      (chunks : List (List ℕ)) (ms : List StreamCodecMessage) (rest : List ℕ)
      → feed parse [] chunks ≡ (ms, waits rest)
      → IsFront (map decoded ms ++ (broken ∷ [])) (framed_rx chunks io_error)
  pub on_failed :
      (chunks : List (List ℕ)) (s : Standing) (ms : List StreamCodecMessage) (e : ParseError)
      → feed parse [] chunks ≡ (ms, Framing.failed e)
      → IsFront (map decoded ms ++ (broken ∷ [])) (framed_rx chunks s)
