-- ===== src/Programs/Join/Held.antt =====
-- src/lib/server.rs and src/lib/reconnecting_stream.rs: a connection whose tasks do not end holds the server.
use mobiletunnel.Prelude.{
  ℕ, ◌≡◌, ◌≢◌, ◌∙◌, refl, ap, List, [], ◌∷◌, Bool, true, false, ◌&&◌, not, Option, none, some, All,
  if◌then◌else◌, ltb, length,
}
use mobiletunnel.Stream.Session.{Session}
use mobiletunnel.Stream.Runner.Tasks.{
  ServerEvent, listen_cancelled, accept_failed, can_send, runner_cancelled, tasks_end, accepts,
  serves, in_stream, Place, joins, is_gone, ServerTasks, selecting, send_socket, on_serves,
  on_stream, on_cancel, socket_room, server_step,
}
use mobiletunnel.Programs.Join.{
  ServerMain, has_ended, MainEvent, of_multiplexer, of_tasks, cancel_on_end, main_step, tokio_main,
  join_returns, is_cancel, is_interrupt,
}

either_place :
    (b : Bool) (t u : ServerTasks) (p : Place)
    → t.runner ≡ p
    → u.runner ≡ p
    → (if b then t else u).runner ≡ p
either_place true t u p h k = h
either_place false t u p h k = k

selecting-runner :
    (sending : Option ℕ) (t t' : ServerTasks)
    → t'.runner ≡ t.runner
    → (selecting sending t t').runner ≡ t.runner
selecting-runner none t t' h = either_place t.listening t' t t.runner h refl
selecting-runner (some socket) t t' h = refl

send_socket-runner :
    (t : ServerTasks) (sending : Option ℕ) → (send_socket t sending).runner ≡ t.runner
unfolding send_socket
send_socket-runner t none = refl
send_socket-runner t (some socket) =
    either_place (is_gone t.runner) _ _ t.runner refl
      (either_place (ltb (length t.queue) socket_room) _ t t.runner refl refl)

module _ (s : Session) where
  server_step-joins :
      (t : ServerTasks) (e : ServerEvent)
      → t.runner ≡ joins s
      → e ≢ tasks_end
      → (server_step t e).runner ≡ joins s
  unfolding server_step on_stream
  server_step-joins t listen_cancelled h other = selecting-runner t.sending t _ refl ∙ h
  server_step-joins t accept_failed h other = selecting-runner t.sending t _ refl ∙ h
  server_step-joins t (accepts socket) h other = selecting-runner t.sending t _ refl ∙ h
  server_step-joins t can_send h other = send_socket-runner t t.sending ∙ h
  server_step-joins t runner_cancelled h other = ap (λ (p : Place). (on_cancel t p).runner) h ∙ h
  server_step-joins t (serves wrote) h other =
      ap (λ (p : Place). (on_serves t p wrote).runner) h ∙ h
  server_step-joins t (in_stream e) h other = ap (λ (p : Place). (on_stream t p e).runner) h ∙ h
  server_step-joins t tasks_end h other = absurd (other refl)

  either_main :
      (b : Bool) (m n : ServerMain)
      → m.tasks.runner ≡ joins s
      → n.tasks.runner ≡ joins s
      → (if b then m else n).tasks.runner ≡ joins s
  either_main true m n h k = h
  either_main false m n h k = k

  main_step-joins :
      (m : ServerMain) (e : MainEvent)
      → m.tasks.runner ≡ joins s
      → e ≢ of_tasks tasks_end
      → (main_step m e).tasks.runner ≡ joins s
  unfolding main_step cancel_on_end
  main_step-joins m (of_multiplexer e) h other =
      either_main (is_interrupt e && not m.interrupt) m _ h h
  main_step-joins m (of_tasks e) h other =
      either_main (is_cancel e && not m.interrupt) m _ h
        (server_step-joins m.tasks e h (λ same. other (ap of_tasks same)))

  tokio_main-joins :
      (m : ServerMain) (es : List MainEvent)
      → m.tasks.runner ≡ joins s
      → All (λ (e : MainEvent). e ≢ of_tasks tasks_end) es
      → (tokio_main m es).tasks.runner ≡ joins s
  unfolding tokio_main
  tokio_main-joins m [] h others = h
  tokio_main-joins m (e ∷ es) h (other, others) =
      tokio_main-joins (main_step m e) es (main_step-joins m e h other) others

  no_join : (a b : Bool) (p : Place) → p ≡ joins s → (a && (b && is_gone p)) ≡ false
  no_join true true p h = ap is_gone h
  no_join true false p h = refl
  no_join false b p h = refl

  -- A server whose runner waits in the joins of `run_stream`, behind a `break`: whatever happens but the end
  -- of the two tasks of that connection, also when the token is cancelled and the multiplexer has ended, the
  -- runner stays where it is, and the join of `tokio_main` does not return.
  pub tokio_main_held :
      (m : ServerMain) (es : List MainEvent)
      → m.tasks.runner ≡ joins s
      → All (λ (e : MainEvent). e ≢ of_tasks tasks_end) es
      → ((tokio_main m es).tasks.runner ≡ joins s) × (join_returns (tokio_main m es) ≡ false)
  tokio_main_held m es h others =
      let held = tokio_main-joins m es h others in
      let n = tokio_main m es in
      (held, no_join (has_ended n.multiplexer.status) (not n.tasks.listening) n.tasks.runner held)
