-- ===== src/Stream/Delivery/Lists.antt =====
-- Fronts of one list, and the messages in a row of frames.
use mobiletunnel.Prelude.{
  ℕ, ◌≤◌, ◌≡◌, refl, ap, ◌∙◌, List, [], ◌∷◌, ◌++◌, map, length, arith, append_assoc, append-nil,
  Bool, true, false, if◌then◌else◌,
}
use mobiletunnel.Stream.Codec.{StreamCodecMessage, hello, data_msg, ack_msg}

pub front_unique {ℓ} :
    {A : Type ℓ} (xs zs : List A) {ys ws : List A}
    → xs ++ ys ≡ zs ++ ws
    → length xs ≡ length zs
    → (xs ≡ zs) × (ys ≡ ws)
front_unique [] [] e h = (refl, e)
front_unique [] (z ∷ zs) e h = absurd (omega arith)
front_unique (x ∷ xs) [] e h = absurd (omega arith)
front_unique (x ∷ xs) (z ∷ zs) {ys} {ws} e h =
    let tails : xs ++ ys ≡ zs ++ ws = cc in
    let heads : x ≡ z = cc in let (a, b) = front_unique xs zs tails (omega arith) in (cc, b)

-- A shorter front of a list is a front of a longer one.
pub front_of_front {ℓ} :
    {A : Type ℓ} (xs zs : List A) {ys ws : List A}
    → xs ++ ys ≡ zs ++ ws
    → length xs ≤ length zs
    → (mid : List A) × (zs ≡ xs ++ mid) × (ys ≡ mid ++ ws)
front_of_front [] zs e h = (zs, refl, e)
front_of_front (x ∷ xs) [] e h = absurd (omega arith)
front_of_front (x ∷ xs) (z ∷ zs) {ys} {ws} e h =
    let tails : xs ++ ys ≡ zs ++ ws = cc in
    let heads : x ≡ z = cc in
    let (mid, a, b) = front_of_front xs zs tails (omega arith) in (mid, cc, b)

-- What one endpoint writes reaches the other if both are on one connection.
abbrev pub carry :
    Bool → List StreamCodecMessage → List StreamCodecMessage → List StreamCodecMessage
carry joined inbox out = if joined then inbox ++ out else inbox

-- The data messages in flight.
abbrev pub payloads : List StreamCodecMessage → List (List ℕ)
payloads [] = []
payloads (hello hm ∷ ms) = payloads ms
payloads (data_msg d ∷ ms) = d ∷ payloads ms
payloads (ack_msg k ∷ ms) = payloads ms

pub payloads-append :
    (ms ns : List StreamCodecMessage) → payloads (ms ++ ns) ≡ payloads ms ++ payloads ns
payloads-append [] ns = refl
payloads-append (hello hm ∷ ms) ns = payloads-append ms ns
payloads-append (data_msg d ∷ ms) ns = ap (◌∷◌ d) (payloads-append ms ns)
payloads-append (ack_msg k ∷ ms) ns = payloads-append ms ns

pub payloads-data : (ds : List (List ℕ)) → payloads (map data_msg ds) ≡ ds
payloads-data [] = refl
payloads-data (d ∷ ds) = ap (◌∷◌ d) (payloads-data ds)

pub payloads-carry_nothing :
    (j : Bool) (inbox out : List StreamCodecMessage)
    → payloads out ≡ []
    → payloads (carry j inbox out) ≡ payloads inbox
payloads-carry_nothing true inbox out e =
    payloads-append inbox out ∙ ap (◌++◌ (payloads inbox)) e ∙ append-nil (payloads inbox)
payloads-carry_nothing false inbox out e = refl

-- More at the end of a list is more at the end of its second part.
pub append_behind {ℓ} :
    {A : Type ℓ} (xs ys zs : List A) {q : List A} → q ≡ xs ++ ys → q ++ zs ≡ xs ++ (ys ++ zs)
append_behind xs ys zs e = ap (λ l. l ++ zs) e ∙ append_assoc xs ys zs

pub carry_nothing : (j : Bool) (inbox : List StreamCodecMessage) → carry j inbox [] ≡ inbox
carry_nothing true inbox = append-nil inbox
carry_nothing false inbox = refl

pub payloads-tail :
    (m : StreamCodecMessage) (ms : List StreamCodecMessage)
    → payloads (m ∷ ms) ≡ []
    → payloads ms ≡ []
payloads-tail (hello hm) ms e = e
payloads-tail (data_msg d) ms e = cc
payloads-tail (ack_msg k) ms e = e
