-- ===== src/Multiplexer/Message/Utf8.antt =====
-- What `str::from_utf8` accepts: the well-formed UTF-8 byte sequences of the Unicode standard.
use mobiletunnel.Prelude.{
  ℕ, ◌-◌, ◌&&◌, List, [], ◌∷◌, Bool, false, Option, none, some, ltb, leb, ◌==◌, if◌then◌else◌,
}

-- How many continuation bytes are still to come, and the range of the next one.
pub record Pending : Type 0 where
  pub need : ℕ
  pub low : ℕ
  pub high : ℕ

abbrev pending : ℕ → ℕ → ℕ → Option Pending
pending need low high = some (record { need = need; low = low; high = high })

unfoldable utf8_lead : ℕ → Option Pending
utf8_lead b =
    if ltb b 0x80
    then pending 0 0x80 0xbf
    else if ltb b 0xc2
    then none
    else if ltb b 0xe0
    then pending 1 0x80 0xbf
    else if b == 0xe0
    then pending 2 0xa0 0xbf
    else if b == 0xed
    then pending 2 0x80 0x9f
    else if ltb b 0xf0
    then pending 2 0x80 0xbf
    else if b == 0xf0
    then pending 3 0x90 0xbf
    else if ltb b 0xf4
    then pending 3 0x80 0xbf
    else if b == 0xf4
    then pending 3 0x80 0x8f
    else none

unfoldable utf8_next : Pending → ℕ → Option Pending
unfolding utf8_lead
utf8_next p b =
    if p.need == 0
    then utf8_lead b
    else if leb p.low b && leb b p.high
    then pending (p.need - 1) 0x80 0xbf
    else none

unfoldable utf8_from : Pending → List ℕ → Bool
unfolding utf8_next
utf8_from p [] = p.need == 0
utf8_from p (b ∷ bs) = elim (utf8_next p b) [ none ↦ false | some q ↦ utf8_from q bs ]

unfoldable pub is_utf8 : List ℕ → Bool
unfolding utf8_from
is_utf8 bytes = utf8_from (record { need = 0; low = 0x80; high = 0xbf }) bytes
