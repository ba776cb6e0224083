-- ===== src/Tunnel/Channel.antt =====
-- src/lib/reconnecting_stream.rs and src/lib/stream_multiplexer.rs: what a
-- front of a multiplexer's frames leaves in a stream's own channel at the other end.
use mathlib.Core.Path.{subst}
use mobiletunnel.Prelude.{
  ℕ, ◌+◌, ◌^◌, ◌≡◌, refl, sym, ap, ◌∙◌, inl, inr, List, [], ◌∷◌, ◌++◌, Bool, true, false, Option,
  none, some, ◌==◌, ltb, if◌then◌else◌, map, flatten, length, arith, All, IsFront, map-IsFront,
  All-IsFront, Bool-cases, lt→ltb,
}
use mobiletunnel.Multiplexer.Message.{
  ChannelMessage, connect, data_msg, disconnect, error_msg, pause, resume, encode,
}
use mobiletunnel.Multiplexer.Message.RoundTrip.{carried, IsTyped}
use mobiletunnel.Multiplexer.Flow.{OngoingStreamState}
use mobiletunnel.Multiplexer.Server.{Side, Multiplexer, run}
use mobiletunnel.Multiplexer.Server.Delivery.{own, for_stream, Holds}
use mobiletunnel.Multiplexer.Server.Loop.{IsQuiet}
use mobiletunnel.Multiplexer.Server.Payloads.{
  Arrival, arrive, IsOpen, IsRunning, for_stream-append, payloads_in_order,
}
use mobiletunnel.Multiplexer.Socket.Chunks.{bytes_of, bytes_of-append, IsChunk}
use mobiletunnel.Multiplexer.Socket.Writer.{IsData}

-- A front of a mapped list is the mapped list of a front.
split_map {ℓ κ} :
    {A : Type ℓ} {B : Type κ} (f : A → B) (xs : List A) (ys : List B)
    → IsFront ys (map f xs)
    → (zs : List A) × IsFront zs xs × (map f zs ≡ ys)
split_map f xs [] (a, e) = ([], (xs, refl), refl)
split_map f [] (y ∷ ys) (a, e) = absurd cc
split_map {B = B} f (x ∷ xs) (y ∷ ys) (a, e) =
    let rest : map f xs ≡ ys ++ a = cc in
    let heads : f x ≡ y = cc in
    let (zs, (b, p), q) = split_map f xs ys (a, rest) in
    (x ∷ zs, (b, ap (◌∷◌ x) p), ap (λ (l : List B). f x ∷ l) q ∙ ap (λ (y' : B). y' ∷ ys) heads)

for_stream-IsFront :
    (id : ℕ) (ms ns : List ChannelMessage)
    → IsFront ms ns
    → IsFront (for_stream id ms) (for_stream id ns)
for_stream-IsFront id ms ns (a, e) =
    (for_stream id a, ap (for_stream id) e ∙ for_stream-append id ms a)

pub bytes_of-IsFront :
    (ms ns : List ChannelMessage) → IsFront ms ns → IsFront (bytes_of ms) (bytes_of ns)
bytes_of-IsFront ms ns (a, e) = (bytes_of a, ap bytes_of e ∙ bytes_of-append ms a)

own_error :
    (id key : ℕ) (b : Bool) (message other : List ℕ)
    → own id (if b then error_msg key message else error_msg key other) ≡ []
own_error id key true message other = refl
own_error id key false message other = refl

-- A chunk of the buffer's size fits a frame.
own_chunk :
    (id key : ℕ) (bytes : List ℕ)
    → (key == id) ≡ true
    → All (IsChunk id) (own id (data_msg key bytes))
    → ltb (13 + length bytes) (2 ^ 32) ≡ true
own_chunk id key bytes same h =
    let ((bytes', e, some_bytes, short), rest) =
      subst (λ (b : Bool). All (IsChunk id) (if b then data_msg key bytes ∷ [] else [])) same h in
    let le : bytes ≡ bytes' = cc in
    lt→ltb (13 + length bytes) (2 ^ 32) (omega (arith, ap length le))

-- What a frame carries of the stream's own chunks is those chunks.
own-carried :
    (id : ℕ) (m : ChannelMessage) → All (IsChunk id) (own id m) → own id (carried m) ≡ own id m
own-carried id (connect key) h = refl
own-carried id (data_msg key bytes) h = elim (Bool-cases (ltb (13 + length bytes) (2 ^ 32))) [
  | inl fits ↦ rw fits refl
  | inr long ↦ elim (Bool-cases (key == id)) [
    | inl same ↦ absurd (let fits = own_chunk id key bytes same h in cc)
    | inr other ↦ rw (long, other) refl
  ]
]
own-carried id (disconnect key) h = refl
own-carried id (error_msg key message) h = own_error id key _ message _
own-carried id (pause key) h = refl
own-carried id (resume key) h = refl

pub All-front {ℓ κ} :
    {A : Type ℓ} (P : A → Type κ) (xs ys : List A) → All P (xs ++ ys) → All P xs × All P ys
All-front P [] ys h = (tt, h)
All-front P (x ∷ xs) ys (p, h) = let (l, r) = All-front P xs ys h in ((p, l), r)

pub for_stream-carried :
    (id : ℕ) (ms : List ChannelMessage)
    → All (IsChunk id) (for_stream id ms)
    → for_stream id (map carried ms) ≡ for_stream id ms
for_stream-carried id [] h = refl
for_stream-carried id (m ∷ ms) h =
    let (l, r) = All-front (IsChunk id) (own id m) (for_stream id ms) h in
    ap (◌++ for_stream id (map carried ms)) (own-carried id m l)
    ∙ ap (◌++◌ (own id m)) (for_stream-carried id ms r)

pub chunks-IsData : (id : ℕ) (ms : List ChannelMessage) → All (IsChunk id) ms → All IsData ms
chunks-IsData id [] h = tt
chunks-IsData id (m ∷ ms) ((bytes, e, some_bytes, short), h) =
    ((id, bytes, e), chunks-IsData id ms h)

-- What the multiplexer has put into the channel of a stream.
abbrev pub queue_of : Option OngoingStreamState → List ChannelMessage
queue_of none = []
queue_of (some stream) = stream.into_stream

-- The far multiplexer, over chunks that hold what its session received.
module _ (id : ℕ) (ms : List ChannelMessage) (got : List (List ℕ)) (typed : All IsTyped ms)
    (chunks : All (IsChunk id) (for_stream id ms)) (front : IsFront got (map encode ms))
    (side : Side) (far : Multiplexer) (arrivals : List Arrival) (running : IsRunning [] far)
    (cut : flatten (map (λ a. a.0) arrivals) ≡ flatten got) (open_channel : All IsOpen arrivals)
    (quiet : IsQuiet side id (map carried ms)) (fresh : Holds id [] far.streams) where
  -- It still runs, and the stream's channel holds a front of the messages that are for the stream.
  pub channel-IsFront :
      (held : List ChannelMessage) × IsFront held (for_stream id ms)
      × Holds id held (run side far (map arrive arrivals)).streams
  channel-IsFront =
      let (some_of, front', e) = split_map encode ms got front in
      let chunks' = All-IsFront (IsChunk id) _ _ (for_stream-IsFront id some_of ms front') chunks in
      let (run_on, v) =
        payloads_in_order side id far some_of arrivals [] running (cut ∙ ap flatten (sym e))
          (All-IsFront IsTyped some_of ms front' typed) open_channel
          (All-IsFront _ (map carried some_of) (map carried ms) (map-IsFront carried _ _ front')
            quiet)
          fresh in
      (
        for_stream id some_of,
        for_stream-IsFront id some_of ms front',
        subst (λ (l : List ChannelMessage). Holds id l (run side far (map arrive arrivals)).streams)
            (for_stream-carried id some_of chunks') v,
      )
