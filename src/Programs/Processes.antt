-- ===== src/Programs/Processes.antt =====
-- What the programs see of a process of the system, through `sysinfo`.
use mobiletunnel.Prelude.{ℕ, Bool, Option}
use mobiletunnel.Text.{Text}

-- `thread_kind` is whether the process is a thread of another one, and `exe` the file name of its program,
-- if it is known, with its text, if it is UTF-8.
pub record Process : Type 0 where
  pub pid : ℕ
  pub thread_kind : Bool
  pub exe : Option (Option Text)
  pub user_id : Option ℕ
