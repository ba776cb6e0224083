-- ===== src/Multiplexer/Tracker/Streams.antt =====
-- src/lib/stream_multiplexer.rs: `OngoingStreamTracker` as a map: what its operations do to the stream
-- that they name, and to all others.
use mobiletunnel.Prelude.{ℕ, ◌≡◌, ◌≢◌, refl, [], ◌∷◌, none, some, arith}
use mobiletunnel.Multiplexer.Flow.{OngoingStreamState}
use mobiletunnel.Multiplexer.Tracker.{Streams, get, remove, update}

pub get-remove : (id : ℕ) (s : Streams) → get id (remove id s) ≡ none
unfolding get remove
get-remove id [] = refl
get-remove id ((key, x) ∷ s) = let ih = get-remove id s in ground arith

pub get-remove_other : (id key : ℕ) (s : Streams) → key ≢ id → get key (remove id s) ≡ get key s
unfolding get remove
get-remove_other id key [] h = refl
get-remove_other id key ((k, x) ∷ s) h = let ih = get-remove_other id key s h in ground arith

pub get-update_other :
    (id key : ℕ) (f : OngoingStreamState → OngoingStreamState) (s : Streams)
    → key ≢ id
    → get key (update id f s) ≡ get key s
unfolding get update
get-update_other id key f [] h = refl
get-update_other id key f ((k, x) ∷ s) h = let ih = get-update_other id key f s h in ground arith

pub get-update :
    (id : ℕ) (f : OngoingStreamState → OngoingStreamState) (s : Streams) (x : OngoingStreamState)
    → get id s ≡ some x
    → get id (update id f s) ≡ some (f x)
unfolding get update
get-update id f [] x h = absurd (cc)
get-update id f ((k, y) ∷ s) x h = let ih = get-update id f s x in ground arith

pub get-update-none :
    (id : ℕ) (f : OngoingStreamState → OngoingStreamState) (s : Streams)
    → get id s ≡ none
    → get id (update id f s) ≡ none
unfolding get update
get-update-none id f [] h = refl
get-update-none id f ((k, y) ∷ s) h = let ih = get-update-none id f s in ground arith
