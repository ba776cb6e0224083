-- ===== src/Framing.antt =====
-- The buffer loop that both codecs share: bytes arrive in chunks of any size, a parser takes frames
-- off the front, and what it cannot use yet waits in the buffer. src/lib/stream_multiplexer.rs has
-- the loop in `ChannelMessageParser` and `process_channel_rx`, and src/lib/reconnecting_stream.rs has
-- it in `StreamCodec::decode` under `FramedRead`.
pub mod Chunks
pub mod Messages
pub mod Inversion
pub mod Cut
use mobiletunnel.Prelude.{
  ℕ, zero, suc, ◌≤◌, ◌<◌, ◌≡◌, ◌≢◌, ◌⊎◌, List, [], ◌∷◌, ◌++◌, Option, none, some, length, drop,
  Outcome, ok, err, panic, ◌>>=◌,
}

-- A parser answers with a frame's message and size, or that it wants more bytes.
abbrev pub Parse {ℓ κ} : Type ℓ → Type κ → Type (ℓ ⊔ κ)
Parse E M = List ℕ → Outcome E (Option (M × ℕ))

-- What the loop needs of its parser: a frame takes a byte at least and no more than there are, and an
-- answer that is not "more bytes" stays the same when bytes are added behind.
pub record IsFraming {ℓ κ} {E : Type ℓ} {M : Type κ} (parse : Parse E M) : Type (ℓ ⊔ κ) where
  pub takes :
      (xs : List ℕ) (m : M) (n : ℕ) → parse xs ≡ ok (some (m, n)) → (0 < n) × (n ≤ length xs)
  pub steady : (xs more : List ℕ) → (parse xs ≡ ok none) ⊎ (parse (xs ++ more) ≡ parse xs)
  pub safe : (xs : List ℕ) → parse xs ≢ panic
  pub empty : parse [] ≡ ok none

-- How the loop stops: it waits for more bytes with a buffer, or an error or a panic ends the session.
-- `spent` is no state of the program: the loop ran out of fuel.
pub data Ended {ℓ} (E : Type ℓ) : Type ℓ where
  waits : List ℕ → Ended E
  failed : E → Ended E
  panicked : Ended E
  spent : Ended E

module _ {ℓ κ} {E : Type ℓ} {M : Type κ} (parse : Parse E M) where
  -- One call of `next` or `decode`: the message and the buffer that is left.
  unfoldable pub next : List ℕ → Outcome E (Option (M × List ℕ))
  next buffer = do
    found ← parse buffer
    elim found [ none ↦ ok none | some (m, n) ↦ ok (some (m, drop n buffer)) ]

  -- Calls of `next` until it finds no frame: the messages, and how the loop stops.
  unfoldable pub drain : ℕ → List ℕ → List M × Ended E
  unfolding next
  drain zero buffer = ([], spent)
  drain (suc fuel) buffer = elim (next buffer) [
    | ok none ↦ ([], waits buffer)
    | ok (some (m, rest)) ↦ let (ms, end) = drain fuel rest in (m ∷ ms, end)
    | err e ↦ ([], failed e)
    | panic ↦ ([], panicked)
  ]

  -- Each round takes a byte at least, so this fuel is enough.
  unfoldable pub run : List ℕ → List M × Ended E
  unfolding drain
  run buffer = drain (suc (length buffer)) buffer

  -- The messages of an earlier round stand before those of a later one.
  abbrev pub before : List M → List M × Ended E → List M × Ended E
  before ms r = (ms ++ r.0, r.1)

  -- The reader's loop: `add` a chunk, take all frames, and go on with the next chunk.
  unfoldable pub feed : List ℕ → List (List ℕ) → List M × Ended E
  feed buffer [] = ([], waits buffer)
  feed buffer (chunk ∷ chunks) =
      let (ms, end) = run (buffer ++ chunk) in
      elim end [ waits rest ↦ before ms (feed rest chunks) | other ↦ (ms, other) ]

  -- The loop goes on with more bytes behind what it left.
  pub go_on : List M × Ended E → List ℕ → List M × Ended E
  go_on (ms, end) more = elim end [
    | waits rest ↦ before ms (run (rest ++ more))
    | other ↦ (ms, other)
  ]
