-- ===== src/Programs/Halves/Tests.antt =====
-- src/bin/mobiletunnel.rs and src/lib/client.rs: the two halves of `main` at concrete inputs.
use mobiletunnel.Prelude.{
  ℕ, ◌≡◌, refl, List, [], ◌∷◌, ◌++◌, ◌⊎◌, ◌||◌, true, Option, some, Outcome, ok,
}
use mobiletunnel.Text.{Text, codes}
use mobiletunnel.Multiplexer.Server.{new_multiplexer}
use mobiletunnel.Programs.Host.{parse_ip_from_uri_host}
use mobiletunnel.Programs.Ssh.{line, exited, run_ssh, on_ssh_end}
use mobiletunnel.Programs.Client.{Args, ClientError, ClientMain, start_client, client_result}
use mobiletunnel.Programs.Halves.{
  starts, meets, ssh_begins, ssh_meets, ssh_task_step, HalfEvent, of_ssh, client_returned,
  ssh_ended, tell_other, halves_step, start_halves, halves, join_returns, mk_ssh,
}
use mobiletunnel.Programs.Halves.Stops.{halves-join_returns}

abbrev args : Args
args = record { bind_ip = codes "::1"; port = 25000; listen_port = 80; window = 1000 }

abbrev any_ip : Text → Option ℕ
any_ip text = some 1

abbrev client : Outcome ClientError ClientMain
client = start_client any_ip args 7 true

-- The first ssh dies and is started again, and then the check says that the server has died.
abbrev ssh_dies : List HalfEvent
ssh_dies =
    of_ssh (starts true)
    ∷ of_ssh (meets (line (codes "GOOD 1")) true)
    ∷ of_ssh (meets exited true)
    ∷ of_ssh (meets (line (codes "BAD 1")) true)
    ∷ []

dead :
    (client_returned (halves (start_halves client) ssh_dies).client
      || ssh_ended (halves (start_halves client) ssh_dies).ssh)
    ≡ true
unfolding start_client parse_ip_from_uri_host new_multiplexer client_result start_halves halves
    halves_step tell_other ssh_task_step ssh_begins ssh_meets run_ssh on_ssh_end
dead = refl

halves-join_returns_example :
    let s = halves (start_halves client) ssh_dies in
    (((client_returned s.client ≡ true) × (s.ssh_cancel ≡ true))
      ⊎ ((ssh_ended s.ssh ≡ true) × (s.client_cancel ≡ true)))
    × ((later : List HalfEvent) × (join_returns (halves (start_halves client) (ssh_dies ++ later))
          ≡ true))
halves-join_returns_example = halves-join_returns client ssh_dies dead

spawned : mk_ssh (codes "ssh" ∷ codes "host" ∷ []) true true ≡ ok (codes "ssh", codes "host" ∷ [])
unfolding mk_ssh
spawned = refl
