-- ===== src/Programs/Launch/Locations.antt =====
-- src/bin/mobiletunnel.rs and src/lib/server.rs: the copies of the program that one run leaves behind, and
-- the servers that the next one kills.
use mathlib.Core.List.{Memᴰ}
use mobiletunnel.Prelude.{
  ℕ, ◌≡◌, ◌≢◌, ◌∙◌, inl, inr, refl, ap, List, [], ◌∷◌, ◌++◌, Bool, true, false, not, ◌&&◌, ◌==◌,
  Bool-cases, arith, Option, some, ok, All, All-append, All-map,
}
use mobiletunnel.Text.{Text, codes, remove_all, is_some}
use mobiletunnel.Text.Laws.{strip_prefix-append, remove_all-append, remove_all_same}
use mobiletunnel.Text.Paths.{file_name, IsName, file_name-join_path}
use mobiletunnel.Programs.Processes.{Process}
use mobiletunnel.Programs.KillOld.{Match, find_match, is_match, kill_old}
use mobiletunnel.Programs.KillOld.Victims.{IsVictim, kill_old-IsVictim}
use mobiletunnel.Programs.Launch.{user_name, make_location, make_self_location}

-- A char that is no separator of a path and no blank.
abbrev pub IsPlain : ℕ → Type 0
IsPlain c = (c ≢ b'/') × (c ≢ b' ')

-- The test of plain chars.
abbrev pub all_plain : Text → Bool
all_plain [] = true
all_plain (c ∷ s) = not (c == b'/') && (not (c == b' ') && all_plain s)

pub IsPlain-All : (s : Text) → all_plain s ≡ true → All IsPlain s
IsPlain-All [] h = tt
IsPlain-All (c ∷ s) h = elim (Bool-cases (c == b'/')) [
  | inl e ↦ absurd (let no_more : false ≡ true = rw e at h in cc)
  | inr e ↦ elim (Bool-cases (c == b' ')) [
    | inl e' ↦ absurd (let no_more : false ≡ true = rw (e, e') at h in cc)
    | inr e' ↦ (
      ((λ same. absurd (ground arith)), (λ same. absurd (ground arith))),
      IsPlain-All s (rw (e, e') at h),
    )
  ]
]

-- The front of the name of a copy, and the name.
abbrev named : Option Text → Text
named user = codes "mobiletunnel" ++ (codes "_" ++ user_name user)

abbrev copy_name : Option Text → Text → Text
copy_name user sample = named user ++ (codes "_" ++ sample)

named-All : (user : Option Text) → All IsPlain (user_name user) → All IsPlain (named user)
named-All user h =
    All-append IsPlain (codes "mobiletunnel") (codes "_" ++ user_name user)
      (IsPlain-All (codes "mobiletunnel") refl)
      (All-append IsPlain (codes "_") (user_name user) (IsPlain-All (codes "_") refl) h)

copy_name-All :
    (user : Option Text) (sample : Text)
    → All IsPlain (user_name user)
    → All IsPlain sample
    → All IsPlain (copy_name user sample)
copy_name-All user sample h k =
    All-append IsPlain (named user) (codes "_" ++ sample) (named-All user h)
      (All-append IsPlain (codes "_") sample (IsPlain-All (codes "_") refl) k)

copy_name-IsName :
    (user : Option Text) (sample : Text)
    → All IsPlain (user_name user)
    → All IsPlain sample
    → IsName (copy_name user sample)
copy_name-IsName user sample h k = record {
  no_slash =
      All-map IsPlain (λ c. c ≢ b'/') (copy_name user sample) (λ c. λ p. p.0)
        (copy_name-All user sample h k);
  speaks = refl;
  not_up = refl;
}

-- The name of the program of a copy, with its file in place or deleted.
pub data Runs (prog : Text) (exe : Option (Option Text)) : Type 0 where
  in_place : (name : Text) → file_name prog ≡ some name → exe ≡ some (some name) → Runs prog exe
  deleted :
      (name : Text)
      → file_name prog ≡ some name
      → exe ≡ some (some (name ++ codes " (deleted)"))
      → Runs prog exe

-- The name that is shown, without the mark.
shown :
    (prog name : Text) (exe : Option (Option Text))
    → file_name prog ≡ some name
    → All IsPlain name
    → Runs prog exe
    → (text : Text) × (exe ≡ some (some text)) × (remove_all text (codes " (deleted)") ≡ name)
shown prog name exe e plain (in_place other f g) =
    let same : other ≡ name = cc in
    let no_blank = All-map IsPlain (λ c. c ≢ b' ') name (λ c. λ p. p.1) plain in
    (
      other,
      g,
      ap (λ (t : Text). remove_all t (codes " (deleted)")) same
          ∙ remove_all_same b' ' (codes "(deleted)") name no_blank,
    )
shown prog name exe e plain (deleted other f g) =
    let same : other ≡ name = cc in
    let no_blank = All-map IsPlain (λ c. c ≢ b' ') name (λ c. λ p. p.1) plain in
    (
      other ++ codes " (deleted)",
      g,
      ap (λ (t : Text). remove_all (t ++ codes " (deleted)") (codes " (deleted)")) same
          ∙ remove_all-append b' ' (codes "(deleted)") name no_blank,
    )

copy_matches :
    (user : Option Text) (sample : Text)
    → is_match (record { match_str = named user; match_whole = false }) (copy_name user sample)
      ≡ true
unfolding is_match
copy_matches user sample = ap is_some (strip_prefix-append (named user) (codes "_" ++ sample))

-- A server that an earlier run of the same user started from its own copy of the program, in any
-- directory, is killed by a server that a later run starts from its copy, whether the earlier file was
-- deleted or not, when neither the user's name nor the random chars have a slash or a blank.
pub make_self_location-IsVictim :
    (user : Option Text) (sample base later_sample later_base : Text) (args : List Text)
    (our_pid our_uid : ℕ) (p : Process) (ps : List Process)
    → All IsPlain (user_name user)
    → All IsPlain sample
    → Runs (make_self_location user sample base).0 p.exe
    → p.pid ≢ our_pid
    → p.thread_kind ≡ false
    → p.user_id ≡ some our_uid
    → Memᴰ p ps
    → (m : Match) × (find_match (some (make_self_location user later_sample later_base).1) args
        ≡ ok m)
      × Memᴰ p.pid (kill_old m our_pid our_uid ps)
unfolding find_match make_self_location make_location
make_self_location-IsVictim user sample base later_sample later_base args our_pid our_uid p ps plain
      random runs other process ours there =
    let m : Match = record { match_str = named user; match_whole = false } in
    let name = copy_name user sample in
    let e = file_name-join_path base name (copy_name-IsName user sample plain random) in
    let (text, exe, same) = shown _ name p.exe e (copy_name-All user sample plain random) runs in
    let victim : IsVictim m our_pid our_uid p = record {
      other = other;
      process = process;
      exe = (text, exe, ap (is_match m) same ∙ copy_matches user sample);
      ours = ours;
    } in
    (m, refl, (kill_old-IsVictim m our_pid our_uid p.pid ps).1 (p, there, refl, victim))
