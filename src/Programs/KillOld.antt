-- ===== src/Programs/KillOld.antt =====
-- src/lib/server.rs: the servers that `run_server` kills before it starts, with `--kill-old`.
pub mod Victims
use mobiletunnel.Prelude.{
  ℕ, ◌≡◌, ◌≢◌, ◌∙◌, refl, sym, ap, List, [], ◌∷◌, ◌++◌, Bool, true, false, Option, none, some, not,
  ◌==◌, if◌then◌else◌, Outcome, ok, err, arith,
}
use mobiletunnel.Text.{Text, codes, equal, starts_with, remove_all}
use mobiletunnel.Text.Paths.{file_name}
use mobiletunnel.Programs.Processes.{Process}

pub data MatchError : Type 0 where
  no_process_name no_file_name : MatchError

-- The text to match, and whether the whole name must be it.
pub record Match : Type 0 where
  pub match_str : Text
  pub match_whole : Bool

unfoldable pub own_name : Option Text → Outcome MatchError Match
own_name none = err no_file_name
own_name (some name) = ok (record { match_str = name; match_whole = true })

-- `kill_old_base`, and the arguments of this program.
unfoldable pub find_match : Option Text → List Text → Outcome MatchError Match
unfolding own_name
find_match (some base) args = ok (record { match_str = base; match_whole = false })
find_match none [] = err no_process_name
find_match none (process_name ∷ args) = own_name (file_name process_name)

unfoldable pub is_match : Match → Text → Bool
is_match m x = if m.match_whole then equal x m.match_str else starts_with x m.match_str

-- The name of the program without the mark of a deleted file.
unfoldable pub exe_matches : Match → Option (Option Text) → Bool
unfolding is_match
exe_matches m none = false
exe_matches m (some none) = false
exe_matches m (some (some exe)) = is_match m (remove_all exe (codes " (deleted)"))

unfoldable pub is_user : ℕ → Option ℕ → Bool
is_user our_uid none = false
is_user our_uid (some uid) = uid == our_uid

-- One round of the loop: the tests, in their order.
unfoldable pub is_killed : Match → ℕ → ℕ → Process → Bool
unfolding exe_matches is_user
is_killed m our_pid our_uid p =
    if p.pid == our_pid
    then false
    else if p.thread_kind
    then false
    else if not (exe_matches m p.exe)
    then false
    else is_user our_uid p.user_id

-- The pids that are killed, in order.
unfoldable pub kill_old : Match → ℕ → ℕ → List Process → List ℕ
unfolding is_killed
kill_old m our_pid our_uid [] = []
kill_old m our_pid our_uid (p ∷ ps) =
    let rest = kill_old m our_pid our_uid ps in
    if is_killed m our_pid our_uid p then p.pid ∷ rest else rest
