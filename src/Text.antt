-- ===== src/Text.antt =====
-- Texts: what the programs use of Rust's `str` and `Path`. A text is the list of its chars.
pub mod Decimal
pub mod Laws
pub mod Paths
use Prim.Native.Char.{code}
use Prim.Native.String as Native
use mobiletunnel.Prelude.{
  ℕ, zero, suc, ◌+◌, ◌-◌, List, [], ◌∷◌, ◌++◌, Bool, true, false, ◌&&◌, ◌||◌, Option, none, some,
  ltb, leb, ◌==◌, if◌then◌else◌, length,
}

abbrev pub Text : Type 0
Text = List ℕ

-- The chars of a literal.
abbrev pub codes : Native.String → Text
codes Native.String.[] = []
codes (Native.String.◌∷◌ c s) = code c ∷ codes s

-- `==`.
abbrev pub equal : Text → Text → Bool
equal [] [] = true
equal [] (d ∷ t) = false
equal (c ∷ s) [] = false
equal (c ∷ s) (d ∷ t) = (c == d) && equal s t

-- `strip_prefix`: what is behind the prefix.
abbrev pub strip_prefix : Text → Text → Option Text
strip_prefix s [] = some s
strip_prefix [] (p ∷ pattern) = none
strip_prefix (c ∷ s) (p ∷ pattern) =
    let rest = strip_prefix s pattern in if c == p then rest else none

abbrev pub is_some {ℓ} : {A : Type ℓ} → Option A → Bool
is_some none = false
is_some (some x) = true

abbrev pub starts_with : Text → Text → Bool
starts_with s pattern = is_some (strip_prefix s pattern)

-- The first char behind a text that a suffix starts with, put in front.
abbrev pub cons_some : ℕ → Option Text → Option Text
cons_some c none = none
cons_some c (some s) = some (c ∷ s)

-- `strip_suffix`: what is before the suffix.
abbrev pub strip_suffix : Text → Text → Option Text
strip_suffix [] pattern = if equal [] pattern then some [] else none
strip_suffix (c ∷ s) pattern =
    let rest = strip_suffix s pattern in if equal (c ∷ s) pattern then some [] else cons_some c rest

-- `replace` of a pattern that is not empty by nothing: from the left, with no overlap. The number is what
-- is still to be left out of the match that was found last.
abbrev pub leave_out : Text → ℕ → Text → Text
leave_out pattern skip [] = []
leave_out pattern (suc skip) (c ∷ s) = leave_out pattern skip s
leave_out pattern zero (c ∷ s) =
    let without = leave_out pattern (length pattern - 1) s in
    let kept = c ∷ leave_out pattern 0 s in if starts_with (c ∷ s) pattern then without else kept

abbrev pub remove_all : Text → Text → Text
remove_all s pattern = leave_out pattern 0 s

-- The char at the front of the first part.
abbrev pub onto_first : ℕ → List Text → List Text
onto_first c [] = (c ∷ []) ∷ []
onto_first c (p ∷ ps) = (c ∷ p) ∷ ps

-- `split` at a char: one part more than there are separators.
abbrev pub split : Text → ℕ → List Text
split [] sep = [] ∷ []
split (c ∷ s) sep = let rest = split s sep in if c == sep then [] ∷ rest else onto_first c rest

-- `join`.
abbrev pub join : List Text → Text → Text
join [] sep = []
join (p ∷ []) sep = p
join (p ∷ q ∷ ps) sep = p ++ (sep ++ join (q ∷ ps) sep)

-- `char::is_whitespace`.
abbrev pub is_whitespace : ℕ → Bool
is_whitespace c =
    (leb 9 c && leb c 13)
    || ((c == 32)
        || ((c == 133)
            || ((c == 160)
                || ((c == 5760)
                    || ((leb 8192 c && leb c 8202)
                        || ((c == 8232)
                            || ((c == 8233) || ((c == 8239) || ((c == 8287) || (c == 12288))))))))))

abbrev pub trim_start : Text → Text
trim_start [] = []
trim_start (c ∷ s) = let rest = trim_start s in if is_whitespace c then rest else c ∷ s

-- The char in front of what `trim_end` leaves behind it.
abbrev pub keep_char : ℕ → Text → Text
keep_char c [] = if is_whitespace c then [] else c ∷ []
keep_char c (d ∷ s) = c ∷ d ∷ s

abbrev pub trim_end : Text → Text
trim_end [] = []
trim_end (c ∷ s) = keep_char c (trim_end s)

-- `trim`.
abbrev pub trim : Text → Text
trim s = trim_start (trim_end s)
