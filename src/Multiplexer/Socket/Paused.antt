-- ===== src/Multiplexer/Socket/Paused.antt =====
-- src/lib/stream_multiplexer.rs: the read task of `run_internal_stream` behind a PAUSE of the peer.
use mobiletunnel.Prelude.{
  ℕ, ◌+◌, ◌≡◌, ◌≢◌, ◌≤◌, refl, ap, List, [], ◌∷◌, Bool, true, false, length, length-append, All,
  arith, if◌then◌else◌,
}
use mobiletunnel.Multiplexer.Message.{data_msg}
use mobiletunnel.Multiplexer.Flow.{stop_reading}
use mobiletunnel.Multiplexer.Socket.{
  Place, at_top, waits_resume, reads, over, ReadTask, SocketEvent, turn, stopped, notified,
  told_pause, told_resume, ready, failed, on_bytes, on_ready, on_notified, step_top, step_waits,
  step_reads, step_at, read_task_step, read_task,
}

-- The messages that a paused task can still send from where it stands.
abbrev pub left_to_send : Place → ℕ
left_to_send at_top = 0
left_to_send waits_resume = 0
left_to_send reads = 1
left_to_send over = 0

-- The flag is up, and the messages that were sent and can still be sent are no more than before.
record Holding (t u : ReadTask) : Type 0 where
  paused : u.flow.read_paused ≡ true
  bound : length u.sent + left_to_send u.place ≤ length t.sent + left_to_send t.place

module _ (id : ℕ) where
  placed :
      (t : ReadTask) (place : Place)
      → t.flow.read_paused ≡ true
      → left_to_send place ≡ 0
      → Holding t (record t { place = place })
  placed t place p none_left = record { paused = p; bound = omega arith }

  choice-Holding :
      (b : Bool) (t u v : ReadTask) → Holding t u → Holding t v → Holding t (if b then u else v)
  choice-Holding true t u v p q = p
  choice-Holding false t u v p q = q

  on_bytes-Holding :
      (t : ReadTask) (bytes rest : List ℕ) (delivered : Bool)
      → t.place ≡ reads
      → t.flow.read_paused ≡ true
      → Holding t (on_bytes id t bytes rest delivered)
  unfolding on_bytes
  on_bytes-Holding t [] rest delivered here p = placed t over p refl
  on_bytes-Holding t (x ∷ xs) rest delivered here p =
      choice-Holding delivered t _ _
        (record {
          paused = p;
          bound =
              omega (arith, length-append t.sent (data_msg id (x ∷ xs) ∷ []), ap left_to_send here);
        })
        (record { paused = p; bound = omega arith })

  still : (t : ReadTask) → t.flow.read_paused ≡ true → Holding t t
  still t p = record { paused = p; bound = omega arith }

  ended_or_again : (b : Bool) → left_to_send (if b then at_top else over) ≡ 0
  ended_or_again true = refl
  ended_or_again false = refl

  step_at-Holding :
      (place : Place) (t : ReadTask) (e : SocketEvent)
      → t.place ≡ place
      → t.flow.read_paused ≡ true
      → Holding t (step_at id place t e)
  unfolding step_at step_top step_waits step_reads on_notified on_ready
  step_at-Holding at_top t turn here p =
      placed t (if t.flow.read_paused then waits_resume else reads) p (rw p refl)
  step_at-Holding at_top t e here p = still t p
  step_at-Holding waits_resume t stopped here p = placed t over p refl
  step_at-Holding waits_resume t notified here p =
      choice-Holding t.flow.resume_permit t _ t (record { paused = p; bound = omega arith })
        (still t p)
  step_at-Holding waits_resume t e here p = still t p
  step_at-Holding reads t stopped here p = placed t over p refl
  step_at-Holding reads t (ready n delivered) here p = on_bytes-Holding t _ _ delivered here p
  step_at-Holding reads t (failed interrupted) here p =
      placed t (if interrupted then at_top else over) p (ended_or_again interrupted)
  step_at-Holding reads t e here p = still t p
  step_at-Holding over t e here p = still t p

  read_task_step-Holding :
      (t : ReadTask) (e : SocketEvent)
      → e ≢ told_resume
      → t.flow.read_paused ≡ true
      → Holding t (read_task_step id t e)
  unfolding read_task_step stop_reading
  read_task_step-Holding t told_pause other p = record { paused = refl; bound = omega arith }
  read_task_step-Holding t told_resume other p = absurd (other refl)
  read_task_step-Holding t turn other p = step_at-Holding t.place t turn refl p
  read_task_step-Holding t stopped other p = step_at-Holding t.place t stopped refl p
  read_task_step-Holding t notified other p = step_at-Holding t.place t notified refl p
  read_task_step-Holding t (ready n delivered) other p =
      step_at-Holding t.place t (ready n delivered) refl p
  read_task_step-Holding t (failed interrupted) other p =
      step_at-Holding t.place t (failed interrupted) refl p

  read_task-Holding :
      (t : ReadTask) (es : List SocketEvent)
      → All (λ (e : SocketEvent). e ≢ told_resume) es
      → t.flow.read_paused ≡ true
      → Holding t (read_task id t es)
  unfolding read_task
  read_task-Holding t [] others p = still t p
  read_task-Holding t (e ∷ es) (other, others) p =
      let first = read_task_step-Holding t e other p in
      let rest = read_task-Holding (read_task_step id t e) es others first.paused in
      record { paused = rest.paused; bound = omega (arith, first.bound, rest.bound) }

-- Behind a PAUSE of the peer, wherever the read task stands, and whatever it meets but a RESUME, a
-- notification that was left over included: it sends one more message at most, and that one only if it
-- was reading already.
pub read_task-paused :
    (id : ℕ) (t : ReadTask) (es : List SocketEvent)
    → All (λ (e : SocketEvent). e ≢ told_resume) es
    → length (read_task id t (told_pause ∷ es)).sent ≤ length t.sent + left_to_send t.place
unfolding read_task read_task_step stop_reading
read_task-paused id t es others =
    let held = read_task-Holding id (record t { flow = stop_reading t.flow }) es others refl in
    omega (arith, held.bound)
