-- ===== src/Stream/Wire/Reading.antt =====
-- src/lib/reconnecting_stream.rs: what the framed reader task tells `run_stream`, whatever the other end's
-- writer task wrote and however the network cuts it.
use mathlib.Core.Path.{subst}
use mobiletunnel.Prelude.{
  ℕ, suc, ◌≡◌, refl, sym, ap, ◌∙◌, ◌⊎◌, inl, inr, List, [], ◌∷◌, ◌++◌, Bool, true, false, none,
  some, ok, length, map, flatten, All, append-nil, append_assoc, IsFront, IsFront-trans,
  IsFront-prepend, flatten-IsFront, if◌then◌else◌,
}
use mobiletunnel.Framing.{waits, feed}
use mobiletunnel.Framing.Chunks.{feed-run}
use mobiletunnel.Framing.Cut.{run-front}
use mobiletunnel.Stream.Codec.{StreamCodecMessage, parse}
use mobiletunnel.Stream.Codec.Laws.{parse-IsFraming}
use mobiletunnel.Stream.Codec.RoundTrip.{InRange, frame, parse-encode, feed-frames}
use mobiletunnel.Stream.Wire.{
  last_word, Handed, writer_task, new_writer, Item, decoded, broken, ended, Standing, still_open,
  eof, io_error, ReaderTask, reader_task, IsFramedRead,
}
use mobiletunnel.Stream.Wire.Writing.{
  handed_messages, AllWritten, writer_task-Written, writer_task-AllWritten,
}

-- The messages, and behind them at most the one word that the session is over; with that word the task
-- has ended.
abbrev pub Tells : List StreamCodecMessage → ReaderTask → Type 0
Tells ms r =
    (got : List StreamCodecMessage) × IsFront got ms
    × ((r.told ≡ map some got) ⊎ ((r.told ≡ map some got ++ (none ∷ [])) × (r.running ≡ false)))

abbrev IsEnd : List Item → Type 0
IsEnd [] = Unit {0}
IsEnd (decoded m ∷ items) = ⊥
IsEnd (broken ∷ items) = Unit {0}
IsEnd (ended ∷ items) = Unit {0}

Tells-last_word : (b : Bool) (ms : List StreamCodecMessage) → Tells ms (last_word b)
Tells-last_word true ms = ([], (ms, refl), inr (refl, refl))
Tells-last_word false ms = ([], (ms, refl), inl refl)

Tells-put :
    (m : StreamCodecMessage) (ms : List StreamCodecMessage) (r : ReaderTask)
    → Tells ms r
    → Tells (m ∷ ms) (record r { told = some m ∷ r.told })
Tells-put m ms r (got, f, inl e) =
    (m ∷ got, IsFront-prepend (m ∷ []) got ms f, inl (ap (◌∷◌ (some m)) e))
Tells-put m ms r (got, f, inr (e, stopped)) =
    (m ∷ got, IsFront-prepend (m ∷ []) got ms f, inr (ap (◌∷◌ (some m)) e, stopped))

Tells-choice :
    (b : Bool) (m : StreamCodecMessage) (ms : List StreamCodecMessage) (r : ReaderTask)
    → Tells ms r
    → Tells
        (m ∷ ms)
        (if b then record r { told = some m ∷ r.told } else record { told = []; running = false })
Tells-choice true m ms r h = Tells-put m ms r h
Tells-choice false m ms r h = ([], (m ∷ ms, refl), inl refl)

reader_task-Tells :
    (takes : ℕ → Bool) (n : ℕ) (ms : List StreamCodecMessage) (tail : List Item)
    → IsEnd tail
    → Tells ms (reader_task takes n (map decoded ms ++ tail))
unfolding reader_task
reader_task-Tells takes n [] [] h = ([], ([], refl), inl refl)
reader_task-Tells takes n [] (decoded m ∷ tail) h = absurd h
reader_task-Tells takes n [] (broken ∷ tail) h = Tells-last_word (takes n) []
reader_task-Tells takes n [] (ended ∷ tail) h = Tells-last_word (takes n) []
reader_task-Tells takes n (m ∷ ms) tail h =
    Tells-choice (takes n) m ms _ (reader_task-Tells takes (suc n) ms tail h)

Tells-IsFront :
    (ms all : List StreamCodecMessage) (r : ReaderTask) → IsFront ms all → Tells ms r → Tells all r
Tells-IsFront ms all r f (got, g, e) = (got, IsFront-trans got ms all g f, e)

pub reader_task-all :
    (takes : ℕ → Bool) (n : ℕ) (ms : List StreamCodecMessage)
    → ((k : ℕ) → takes k ≡ true)
    → reader_task takes n (map decoded ms) ≡ record { told = map some ms; running = true }
unfolding reader_task
reader_task-all takes n [] h = refl
reader_task-all takes n (m ∷ ms) h = rw (h n) (
    ap (λ (r : ReaderTask). record r { told = some m ∷ r.told })
      (reader_task-all takes (suc n) ms h))

pub whole : (m : StreamCodecMessage) → InRange m → parse (frame m) ≡ ok (some (m, length (frame m)))
whole m h = rw append-nil at (parse-encode m [] h)

module _ (framed_rx : List (List ℕ) → Standing → List Item)
    (promised : IsFramedRead framed_rx) where
  -- What is behind the messages that are there as a whole.
  abbrev Behind : List (List ℕ) → Standing → List StreamCodecMessage → Type 0
  Behind chunks s ms =
      (tail : List Item) × IsEnd tail × (framed_rx chunks s ≡ map decoded ms ++ tail)

  on_broken :
      (chunks : List (List ℕ)) (s : Standing) (ms : List StreamCodecMessage)
      → IsFront (map decoded ms ++ (broken ∷ [])) (framed_rx chunks s)
      → Behind chunks s ms
  on_broken chunks s ms (back, e) = (broken ∷ back, tt, e ∙ append_assoc (map decoded ms) _ back)

  behind :
      (chunks : List (List ℕ)) (s : Standing) (ms : List StreamCodecMessage) (rest : List ℕ)
      → feed parse [] chunks ≡ (ms, waits rest)
      → Behind chunks s ms
  behind chunks still_open ms rest e =
      ([], tt, promised.on_open chunks ms rest e ∙ sym (append-nil (map decoded ms)))
  behind chunks eof ms [] e = (ended ∷ [], tt, promised.on_eof chunks ms e)
  behind chunks eof ms (x ∷ rest) e = on_broken chunks eof ms (promised.on_cut chunks ms x rest e)
  behind chunks io_error ms rest e =
      on_broken chunks io_error ms (promised.on_io_error chunks ms rest e)

  -- The bytes of messages in range, handed to the writer task of one end, whatever its writes do; any
  -- front of what its socket took, cut in any way, at the reader task of the other end, however the
  -- transport then stands and whenever `run_stream` stops listening: what `run_stream` is told there are
  -- the messages, a front of them in their order, each one as it was written, and behind them at most
  -- once, as the last thing that the task says, that the session is over.
  pub wire_in_order :
      (ms : List StreamCodecMessage) (hs : List Handed) (chunks : List (List ℕ)) (s : Standing)
      (takes : ℕ → Bool)
      → All InRange ms
      → IsFront (handed_messages hs) (map frame ms)
      → IsFront (flatten chunks) (writer_task new_writer hs).out
      → Tells ms (reader_task takes 0 (framed_rx chunks s))
  unfolding new_writer
  wire_in_order ms hs chunks s takes g handed arrived =
      let (more, out, front) = writer_task-Written new_writer hs refl in
      let got_front =
        IsFront-trans (flatten chunks) _ (flatten (map frame ms))
          (subst (IsFront (flatten chunks)) out arrived)
          (IsFront-trans more _ _ front (flatten-IsFront _ _ handed)) in
      let (got, rest, taken, f) =
        run-front parse parse-IsFraming InRange frame parse-encode whole ms (flatten chunks) g
          got_front in
      let (tail, last, e) =
        behind chunks s got rest
          (feed-run parse parse-IsFraming chunks [] parse-IsFraming.empty ∙ taken) in
      Tells-IsFront got ms _ f (
        subst (λ (items : List Item). Tells got (reader_task takes 0 items)) (sym e)
          (reader_task-Tells takes 0 got tail last))

  -- If every write succeeds, all bytes arrive, cut in any way, the transport stays open, and `run_stream`
  -- listens, then it is told every message, and nothing else, and the reader task runs on.
  pub wire_brings_all :
      (ms : List StreamCodecMessage) (hs : List Handed) (chunks : List (List ℕ)) (takes : ℕ → Bool)
      → All InRange ms
      → handed_messages hs ≡ map frame ms
      → AllWritten hs
      → flatten chunks ≡ (writer_task new_writer hs).out
      → ((k : ℕ) → takes k ≡ true)
      → reader_task takes 0 (framed_rx chunks still_open)
        ≡ record { told = map some ms; running = true }
  unfolding new_writer
  wire_brings_all ms hs chunks takes g handed written arrived listens =
      let out = writer_task-AllWritten new_writer hs refl written in
      let all = feed-frames ms chunks g (arrived ∙ out ∙ ap flatten handed) in
      ap (reader_task takes 0) (promised.on_open chunks ms [] all)
      ∙ reader_task-all takes 0 ms listens
