-- ===== src/Stream/Runner/Tasks/Sockets.antt =====
-- src/lib/reconnecting_stream.rs: which of the accepted sockets `run_server` serves.
use mathlib.Core.Path.{subst}
use mathlib.Core.List.{Sublistᴰ}
use mathlib.Core.List.Sublistᴰ
use mobiletunnel.Prelude.{
  ℕ, ◌≡◌, ◌≤◌, ◌∙◌, refl, sym, ap, List, [], ◌∷◌, ◌++◌, append_assoc, append-nil, Option, none,
  some, Bool, true, false, ltb, ltb→lt, if◌then◌else◌, length, length-append, arith,
}
use mobiletunnel.Stream.State.{StreamState}
use mobiletunnel.Stream.Session.{Event, killed}
use mobiletunnel.Stream.Runner.{Call, inside, in_joins, left, panicked, call, call_step, newest}
use mobiletunnel.Stream.Runner.Tasks.{
  socket_room, Place, waits, gone, serving, joins, is_gone, ServerEvent, listen_cancelled,
  accept_failed, can_send, runner_cancelled, accepts, serves, in_stream, tasks_end, ServerTasks,
  start_server, selecting, send_socket, listed, runner_to, on_recv, on_serves, on_stream, on_cancel,
  on_tasks_end, server_step, server_tasks,
}

-- The sockets that were served, those in the channel, and the one that is sent are among those that were
-- accepted, in their order, and each once; and the channel keeps its room.
pub record InOrder (t : ServerTasks) : Type 0 where
  pub sub : Sublistᴰ (t.given ++ (t.queue ++ listed t.sending)) t.accepted
  pub room : length t.queue ≤ socket_room

append-Sublist :
    {ws xs ys zs : List ℕ} → Sublistᴰ ws xs → Sublistᴰ ys zs → Sublistᴰ (ws ++ ys) (xs ++ zs)
append-Sublist Sublistᴰ.slnil q = q
append-Sublist (Sublistᴰ.cons p) q = Sublistᴰ.cons (append-Sublist p q)
append-Sublist (Sublistᴰ.cons-cons e p) q = Sublistᴰ.cons-cons e (append-Sublist p q)

-- The newest socket is one of those that wait, and the others are dropped.
newest-Sublist :
    (socket : ℕ) (sockets : List ℕ)
    → Sublistᴰ (listed (newest (some socket) sockets)) (socket ∷ sockets)
unfolding newest
newest-Sublist socket [] = Sublistᴰ.refl (socket ∷ [])
newest-Sublist socket (s ∷ sockets) = Sublistᴰ.cons (newest-Sublist s sockets)

-- What is dropped from the middle.
drop_middle :
    (xs ys zs : List ℕ) {ws : List ℕ} → Sublistᴰ (xs ++ (ys ++ zs)) ws → Sublistᴰ (xs ++ zs) ws
drop_middle xs ys zs p =
    Sublistᴰ.trans
      (append-Sublist (Sublistᴰ.refl xs)
        (append-Sublist (Sublistᴰ.nil-sublist ys) (Sublistᴰ.refl zs)))
      p

either_task :
    (b : Bool) (t u : ServerTasks)
    → (b ≡ true → InOrder t)
    → (b ≡ false → InOrder u)
    → InOrder (if b then t else u)
either_task true t u p q = p refl
either_task false t u p q = q refl

selecting-InOrder :
    (sending : Option ℕ) (t t' : ServerTasks)
    → InOrder t
    → (sending ≡ none → InOrder t')
    → InOrder (selecting sending t t')
selecting-InOrder none t t' p q = either_task t.listening t' t (λ e. q refl) (λ e. p)
selecting-InOrder (some socket) t t' p q = p

-- The socket that was accepted last.
accepts-InOrder :
    (t : ServerTasks) (socket : ℕ)
    → InOrder t
    → t.sending ≡ none
    → InOrder (record t { sending = some socket; accepted = t.accepted ++ (socket ∷ []) })
accepts-InOrder t socket v e = record {
  sub =
      let before : Sublistᴰ (t.given ++ t.queue) t.accepted =
        subst (λ (l : List ℕ). Sublistᴰ (t.given ++ l) t.accepted)
          (ap (λ (o : Option ℕ). t.queue ++ listed o) e ∙ append-nil t.queue) v.sub in
      subst (λ (l : List ℕ). Sublistᴰ l (t.accepted ++ (socket ∷ [])))
        (append_assoc t.given t.queue (socket ∷ []))
        (append-Sublist before (Sublistᴰ.refl (socket ∷ [])));
  room = v.room;
}

send_socket-InOrder :
    (t : ServerTasks) (sending : Option ℕ)
    → t.sending ≡ sending
    → InOrder t
    → InOrder (send_socket t sending)
unfolding send_socket
send_socket-InOrder t none e v = v
send_socket-InOrder t (some socket) e v =
    let listed_now : Sublistᴰ (t.given ++ (t.queue ++ (socket ∷ []))) t.accepted =
      subst (λ (o : Option ℕ). Sublistᴰ (t.given ++ (t.queue ++ listed o)) t.accepted) e v.sub in
    either_task (is_gone t.runner) _ _
      (λ off. record {
        sub =
            subst (λ (l : List ℕ). Sublistᴰ (t.given ++ l) t.accepted) (sym (append-nil t.queue))
              (Sublistᴰ.trans
                (append-Sublist (Sublistᴰ.refl t.given) (
                  subst (λ (l : List ℕ). Sublistᴰ l (t.queue ++ (socket ∷ []))) (append-nil t.queue)
                    (append-Sublist (Sublistᴰ.refl t.queue) (Sublistᴰ.nil-sublist (socket ∷ [])))))
                listed_now);
        room = v.room;
      })
      (λ on.
        either_task (ltb (length t.queue) socket_room) _ t
          (λ small. record {
            sub =
                subst (λ (l : List ℕ). Sublistᴰ (t.given ++ l) t.accepted)
                  (sym (append-nil (t.queue ++ (socket ∷ [])))) listed_now;
            room = omega (
              arith,
              length-append t.queue (socket ∷ []),
              ltb→lt (length t.queue) socket_room small,
            );
          })
          (λ full. v))

-- The runner moves, or ends, and the channel drops what is in it.
runner_to-InOrder : (t : ServerTasks) (c : Call) → InOrder t → InOrder (runner_to t c)
runner_to-InOrder t (inside s) v = record { sub = v.sub; room = v.room }
runner_to-InOrder t (in_joins s) v = record { sub = v.sub; room = v.room }
runner_to-InOrder t (left state) v = record { sub = v.sub; room = v.room }
runner_to-InOrder t panicked v = record {
  sub = drop_middle t.given t.queue (listed t.sending) v.sub;
  room = omega arith;
}

-- A socket of the channel is served, and the others are dropped.
given-InOrder :
    (t : ServerTasks) (socket : Option ℕ)
    → Sublistᴰ (listed socket) t.queue
    → InOrder t
    → InOrder (record t { queue = []; given = t.given ++ listed socket })
given-InOrder t socket p v = record {
  sub =
      subst (λ (l : List ℕ). Sublistᴰ l t.accepted)
        (sym (append_assoc t.given (listed socket) (listed t.sending)))
        (Sublistᴰ.trans
          (append-Sublist (Sublistᴰ.refl t.given)
            (append-Sublist p (Sublistᴰ.refl (listed t.sending))))
          v.sub);
  room = omega arith;
}

on_recv-InOrder :
    (t : ServerTasks) (queue : List ℕ) (wrote : Bool)
    → t.queue ≡ queue
    → InOrder t
    → InOrder (on_recv t queue wrote)
unfolding on_recv
on_recv-InOrder t [] wrote e v =
    either_task t.listening t _ (λ on. v) (λ off. record { sub = v.sub; room = v.room })
on_recv-InOrder t (socket ∷ sockets) wrote e v = runner_to-InOrder _ (call wrote t.state) (
    given-InOrder t (newest (some socket) sockets)
      (subst (λ (q : List ℕ). Sublistᴰ (listed (newest (some socket) sockets)) q) (sym e)
        (newest-Sublist socket sockets))
      v)

on_serves-InOrder :
    (t : ServerTasks) (place : Place) (wrote : Bool) → InOrder t → InOrder (on_serves t place wrote)
on_serves-InOrder t waits wrote v = on_recv-InOrder t t.queue wrote refl v
on_serves-InOrder t gone wrote v = v
on_serves-InOrder t (serving s) wrote v = v
on_serves-InOrder t (joins s) wrote v = v

on_stream-InOrder :
    (t : ServerTasks) (place : Place) (e : Event) → InOrder t → InOrder (on_stream t place e)
unfolding on_stream
on_stream-InOrder t (serving s) e v = runner_to-InOrder t (call_step s e) v
on_stream-InOrder t waits e v = v
on_stream-InOrder t gone e v = v
on_stream-InOrder t (joins s) e v = v

on_cancel-InOrder : (t : ServerTasks) (place : Place) → InOrder t → InOrder (on_cancel t place)
on_cancel-InOrder t waits v = record {
  sub = drop_middle t.given t.queue (listed t.sending) v.sub;
  room = omega arith;
}
on_cancel-InOrder t gone v = v
on_cancel-InOrder t (serving s) v = on_stream-InOrder t (serving s) killed v
on_cancel-InOrder t (joins s) v = v

on_tasks_end-InOrder :
    (t : ServerTasks) (place : Place) → InOrder t → InOrder (on_tasks_end t place)
on_tasks_end-InOrder t waits v = v
on_tasks_end-InOrder t gone v = v
on_tasks_end-InOrder t (serving s) v = v
on_tasks_end-InOrder t (joins s) v = record { sub = v.sub; room = v.room }

server_step-InOrder : (t : ServerTasks) (e : ServerEvent) → InOrder t → InOrder (server_step t e)
unfolding server_step
server_step-InOrder t listen_cancelled v =
    selecting-InOrder t.sending t _ v (λ e. record { sub = v.sub; room = v.room })
server_step-InOrder t accept_failed v =
    selecting-InOrder t.sending t _ v (λ e. record { sub = v.sub; room = v.room })
server_step-InOrder t (accepts socket) v =
    selecting-InOrder t.sending t _ v (accepts-InOrder t socket v)
server_step-InOrder t can_send v = send_socket-InOrder t t.sending refl v
server_step-InOrder t runner_cancelled v = on_cancel-InOrder t t.runner v
server_step-InOrder t (serves wrote) v = on_serves-InOrder t t.runner wrote v
server_step-InOrder t (in_stream e) v = on_stream-InOrder t t.runner e v
server_step-InOrder t tasks_end v = on_tasks_end-InOrder t t.runner v

server_tasks-kept :
    (t : ServerTasks) (es : List ServerEvent) → InOrder t → InOrder (server_tasks t es)
unfolding server_tasks
server_tasks-kept t [] v = v
server_tasks-kept t (e ∷ es) v = server_tasks-kept (server_step t e) es (server_step-InOrder t e v)

-- Over any events of the two tasks of `run_server`, from their start: the sockets that were served, then
-- those in the channel, then the one that the listener sends are among those that were accepted, in their
-- order, each once at most; and the channel never holds more than 32.
pub server_tasks-InOrder :
    (state : StreamState) (es : List ServerEvent) → InOrder (server_tasks (start_server state) es)
unfolding start_server
server_tasks-InOrder state es =
    server_tasks-kept (start_server state) es (record { sub = Sublistᴰ.slnil; room = omega arith })
