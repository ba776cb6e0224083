-- ===== src/Multiplexer/Socket/Reader.antt =====
-- src/lib/stream_multiplexer.rs: the read task of `run_internal_stream`, and what becomes of the bytes
-- of its socket.
use mathlib.Core.Path.{subst}
use mobiletunnel.Prelude.{
  ℕ, ◌≡◌, ◌≤◌, refl, sym, ap, ◌∙◌, List, [], ◌∷◌, ◌++◌, Bool, true, false, take, drop, length, All,
  All-append, IsFront, IsFront-trans, take-IsFront, IsFront-drop, length-take, append-nil,
  append_assoc, arith, inl, inr, if◌then◌else◌,
}
use mobiletunnel.Multiplexer.Message.{ChannelMessage, data_msg}
use mobiletunnel.Multiplexer.Flow.{StreamFlowControl}
use mobiletunnel.Multiplexer.Socket.{
  Place, at_top, waits_resume, reads, over, ReadTask, SocketEvent, turn, stopped, notified,
  told_pause, told_resume, ready, failed, rx_bytes_len, on_bytes, on_ready, on_notified, step_top,
  step_waits, step_reads, step_at, read_task_step, read_task,
}
use mobiletunnel.Multiplexer.Socket.Chunks.{bytes_of, bytes_of-append, IsChunk, Reading}

module _ (id : ℕ) (whole : List ℕ) where
  -- The same bytes and messages at another place, which is the end if the task was over.
  pub moved :
      (t : ReadTask) (place : Place) (flow : StreamFlowControl)
      → (t.place ≡ over → place ≡ over)
      → Reading id whole t
      → Reading id whole (record t { place = place; flow = flow })
  moved t place flow stays r = record {
    lost = r.lost;
    split = r.split;
    ends = elim r.ends [ inl o ↦ inl (stays o) | inr e ↦ inr e ];
    chunks = r.chunks;
  }

  -- A task that reads has lost nothing.
  nothing_lost :
      (t : ReadTask) → t.place ≡ reads → Reading id whole t → whole ≡ bytes_of t.sent ++ t.incoming
  nothing_lost t here r = elim r.ends [
    | inl o ↦ absurd cc
    | inr e ↦ r.split ∙ ap (λ (l : List ℕ). bytes_of t.sent ++ (l ++ t.incoming)) e
  ]

  bytes_of-append_one :
      (ms : List ChannelMessage) (bytes rest : List ℕ)
      → bytes_of (ms ++ (data_msg id bytes ∷ [])) ++ rest ≡ bytes_of ms ++ (bytes ++ rest)
  bytes_of-append_one ms bytes rest =
      ap (◌++ rest) (bytes_of-append ms (data_msg id bytes ∷ []))
      ∙ append_assoc (bytes_of ms) (bytes ++ []) rest
      ∙ ap (λ (l : List ℕ). bytes_of ms ++ (l ++ rest)) (append-nil bytes)

  -- Bytes that were read, and taken or lost.
  on_bytes-Reading :
      (t : ReadTask) (bytes rest : List ℕ) (delivered : Bool)
      → t.place ≡ reads
      → t.incoming ≡ bytes ++ rest
      → length bytes ≤ rx_bytes_len
      → Reading id whole t
      → Reading id whole (on_bytes id t bytes rest delivered)
  unfolding on_bytes
  on_bytes-Reading t [] rest delivered here whole_of short r = moved t over t.flow (λ o. refl) r
  on_bytes-Reading t (x ∷ xs) rest true here whole_of short r = record {
    lost = [];
    split =
        nothing_lost t here r
        ∙ ap (◌++◌ (bytes_of t.sent)) whole_of
        ∙ sym (bytes_of-append_one t.sent (x ∷ xs) rest);
    ends = inr refl;
    chunks = All-append (IsChunk id) t.sent _ r.chunks ((x ∷ xs, refl, omega arith, short), tt);
  }
  on_bytes-Reading t (x ∷ xs) rest false here whole_of short r = record {
    lost = x ∷ xs;
    split = nothing_lost t here r ∙ ap (◌++◌ (bytes_of t.sent)) whole_of;
    ends = inl refl;
    chunks = r.chunks;
  }

  on_ready-Reading :
      (t : ReadTask) (n : ℕ) (delivered : Bool)
      → t.place ≡ reads
      → Reading id whole t
      → Reading id whole (on_ready id t n delivered)
  unfolding on_ready
  on_ready-Reading t n delivered here r =
      let room = take rx_bytes_len (take n t.incoming) in
      let front =
        IsFront-trans room (take n t.incoming) t.incoming (take-IsFront rx_bytes_len _)
          (take-IsFront n t.incoming) in
      on_bytes-Reading t room (drop (length room) t.incoming) delivered here
        (IsFront-drop room t.incoming front)
        (omega (arith, length-take rx_bytes_len (take n t.incoming))) r

  choice :
      (b : Bool) (t u : ReadTask)
      → Reading id whole t
      → Reading id whole u
      → Reading id whole (if b then t else u)
  choice true t u p q = p
  choice false t u p q = q

  on_notified-Reading :
      (t : ReadTask)
      → t.place ≡ waits_resume
      → Reading id whole t
      → Reading id whole (on_notified t)
  unfolding on_notified
  on_notified-Reading t here r =
      choice t.flow.resume_permit _ t (moved t at_top _ (λ o. absurd cc) r) r

  step_top-Reading :
      (t : ReadTask) (e : SocketEvent)
      → t.place ≡ at_top
      → Reading id whole t
      → Reading id whole (step_top t e)
  unfolding step_top
  step_top-Reading t turn here r = moved t _ t.flow (λ o. absurd cc) r
  step_top-Reading t stopped here r = r
  step_top-Reading t notified here r = r
  step_top-Reading t told_pause here r = r
  step_top-Reading t told_resume here r = r
  step_top-Reading t (ready n delivered) here r = r
  step_top-Reading t (failed interrupted) here r = r

  step_waits-Reading :
      (t : ReadTask) (e : SocketEvent)
      → t.place ≡ waits_resume
      → Reading id whole t
      → Reading id whole (step_waits t e)
  unfolding step_waits
  step_waits-Reading t turn here r = r
  step_waits-Reading t stopped here r = moved t over t.flow (λ o. refl) r
  step_waits-Reading t notified here r = on_notified-Reading t here r
  step_waits-Reading t told_pause here r = r
  step_waits-Reading t told_resume here r = r
  step_waits-Reading t (ready n delivered) here r = r
  step_waits-Reading t (failed interrupted) here r = r

  step_reads-Reading :
      (t : ReadTask) (e : SocketEvent)
      → t.place ≡ reads
      → Reading id whole t
      → Reading id whole (step_reads id t e)
  unfolding step_reads
  step_reads-Reading t turn here r = r
  step_reads-Reading t stopped here r = moved t over t.flow (λ o. refl) r
  step_reads-Reading t notified here r = r
  step_reads-Reading t told_pause here r = r
  step_reads-Reading t told_resume here r = r
  step_reads-Reading t (ready n delivered) here r = on_ready-Reading t n delivered here r
  step_reads-Reading t (failed interrupted) here r = moved t _ t.flow (λ o. absurd cc) r

  step_at-Reading :
      (place : Place) (t : ReadTask) (e : SocketEvent)
      → t.place ≡ place
      → Reading id whole t
      → Reading id whole (step_at id place t e)
  unfolding step_at
  step_at-Reading at_top t e here r = step_top-Reading t e here r
  step_at-Reading waits_resume t e here r = step_waits-Reading t e here r
  step_at-Reading reads t e here r = step_reads-Reading t e here r
  step_at-Reading over t e here r = r

  pub read_task_step-Reading :
      (t : ReadTask) (e : SocketEvent)
      → Reading id whole t
      → Reading id whole (read_task_step id t e)
  unfolding read_task_step
  read_task_step-Reading t turn r = step_at-Reading t.place t turn refl r
  read_task_step-Reading t stopped r = step_at-Reading t.place t stopped refl r
  read_task_step-Reading t notified r = step_at-Reading t.place t notified refl r
  read_task_step-Reading t told_pause r = moved t t.place _ (λ o. o) r
  read_task_step-Reading t told_resume r = moved t t.place _ (λ o. o) r
  read_task_step-Reading t (ready n delivered) r =
      step_at-Reading t.place t (ready n delivered) refl r
  read_task_step-Reading t (failed interrupted) r =
      step_at-Reading t.place t (failed interrupted) refl r

  read_task-Reading :
      (t : ReadTask) (es : List SocketEvent)
      → Reading id whole t
      → Reading id whole (read_task id t es)
  unfolding read_task
  read_task-Reading t [] r = r
  read_task-Reading t (e ∷ es) r =
      read_task-Reading (read_task_step id t e) es (read_task_step-Reading t e r)

-- A task that starts has lost and sent nothing.
fresh_task : (id : ℕ) (t : ReadTask) → t.sent ≡ [] → Reading id t.incoming t
fresh_task id t fresh = record {
  lost = [];
  split = ap (λ (ms : List ChannelMessage). bytes_of ms ++ t.incoming) (sym fresh);
  ends = inr refl;
  chunks = subst (All (IsChunk id)) (sym fresh) tt;
}

-- Whatever the events: the bytes that the read task has sent, the bytes of a message that the channel
-- did not take, and the bytes that it has not read are together those that the socket yields, in
-- order. Every message is DATA of the stream, of 1 to 4096 bytes. Bytes are lost at the end of the
-- task only.
pub read_task-Reading_start :
    (id : ℕ) (t : ReadTask) (es : List SocketEvent)
    → t.sent ≡ []
    → Reading id t.incoming (read_task id t es)
read_task-Reading_start id t es fresh = read_task-Reading id t.incoming t es (fresh_task id t fresh)

-- What was sent is a front of what the socket yields.
pub Reading-IsFront :
    (id : ℕ) (whole : List ℕ) (t : ReadTask) → Reading id whole t → IsFront (bytes_of t.sent) whole
Reading-IsFront id whole t r = (r.lost ++ t.incoming, r.split)
