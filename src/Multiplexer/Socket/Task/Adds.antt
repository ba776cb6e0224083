-- ===== src/Multiplexer/Socket/Task/Adds.antt =====
-- src/lib/stream_multiplexer.rs: what one event of the read task sends to the multiplexer.
use mobiletunnel.Prelude.{
  ℕ, ◌≡◌, refl, sym, ap, ◌∙◌, List, [], ◌∷◌, ◌++◌, Bool, true, false, if◌then◌else◌, append-nil,
  append_assoc, ==_refl,
}
use mobiletunnel.Multiplexer.Message.{
  ChannelMessage, connect, data_msg, disconnect, error_msg, pause, resume,
}
use mobiletunnel.Multiplexer.Server.Delivery.{for_stream}
use mobiletunnel.Multiplexer.Socket.{
  Place, at_top, waits_resume, reads, over, ReadTask, SocketEvent, turn, stopped, notified,
  told_pause, told_resume, ready, failed, on_bytes, on_ready, on_notified, step_top, step_waits,
  step_reads, step_at, read_task_step,
}

-- The messages by which a stream says that it is over.
abbrev pub closing : ChannelMessage → List ChannelMessage
closing (disconnect id) = disconnect id ∷ []
closing (connect id) = []
closing (data_msg id to_send) = []
closing (error_msg id message) = []
closing (pause id) = []
closing (resume id) = []

abbrev pub closings : List ChannelMessage → List ChannelMessage
closings [] = []
closings (m ∷ ms) = closing m ++ closings ms

pub closings-append :
    (ms ns : List ChannelMessage) → closings (ms ++ ns) ≡ closings ms ++ closings ns
closings-append [] ns = refl
closings-append (m ∷ ms) ns =
    ap (◌++◌ (closing m)) (closings-append ms ns) ∙ sym (append_assoc (closing m) (closings ms) _)

module _ (id : ℕ) where
  -- What a step of the read task adds: DATA of the stream, or nothing.
  abbrev pub Adds : List ChannelMessage → List ChannelMessage → Type 0
  Adds before after =
      (new : List ChannelMessage) × (after ≡ before ++ new)
      × (for_stream id new ≡ new)
      × (closings new ≡ [])

  Adds-nothing : (ms : List ChannelMessage) → Adds ms ms
  Adds-nothing ms = ([], sym (append-nil ms), refl, refl)

  on_bytes-Adds :
      (t : ReadTask) (bytes rest : List ℕ) (delivered : Bool)
      → Adds t.sent (on_bytes id t bytes rest delivered).sent
  unfolding on_bytes
  on_bytes-Adds t [] rest delivered = Adds-nothing t.sent
  on_bytes-Adds t (x ∷ xs) rest true = (data_msg id (x ∷ xs) ∷ [], refl, rw (==_refl id) refl, refl)
  on_bytes-Adds t (x ∷ xs) rest false = Adds-nothing t.sent

  either-Adds :
      (b : Bool) (t u v : ReadTask)
      → Adds t.sent u.sent
      → Adds t.sent v.sent
      → Adds t.sent (if b then u else v).sent
  either-Adds true t u v p q = p
  either-Adds false t u v p q = q

  step_top-Adds : (t : ReadTask) (e : SocketEvent) → Adds t.sent (step_top t e).sent
  unfolding step_top
  step_top-Adds t turn = Adds-nothing t.sent
  step_top-Adds t stopped = Adds-nothing t.sent
  step_top-Adds t notified = Adds-nothing t.sent
  step_top-Adds t told_pause = Adds-nothing t.sent
  step_top-Adds t told_resume = Adds-nothing t.sent
  step_top-Adds t (ready n delivered) = Adds-nothing t.sent
  step_top-Adds t (failed interrupted) = Adds-nothing t.sent

  step_waits-Adds : (t : ReadTask) (e : SocketEvent) → Adds t.sent (step_waits t e).sent
  unfolding step_waits on_notified
  step_waits-Adds t turn = Adds-nothing t.sent
  step_waits-Adds t stopped = Adds-nothing t.sent
  step_waits-Adds t notified =
      either-Adds t.flow.resume_permit t
        (record t { place = at_top; flow = record (t.flow) { resume_permit = false } }) t
        (Adds-nothing t.sent) (Adds-nothing t.sent)
  step_waits-Adds t told_pause = Adds-nothing t.sent
  step_waits-Adds t told_resume = Adds-nothing t.sent
  step_waits-Adds t (ready n delivered) = Adds-nothing t.sent
  step_waits-Adds t (failed interrupted) = Adds-nothing t.sent

  step_reads-Adds : (t : ReadTask) (e : SocketEvent) → Adds t.sent (step_reads id t e).sent
  unfolding step_reads on_ready
  step_reads-Adds t turn = Adds-nothing t.sent
  step_reads-Adds t stopped = Adds-nothing t.sent
  step_reads-Adds t notified = Adds-nothing t.sent
  step_reads-Adds t told_pause = Adds-nothing t.sent
  step_reads-Adds t told_resume = Adds-nothing t.sent
  step_reads-Adds t (ready n delivered) = on_bytes-Adds t _ _ delivered
  step_reads-Adds t (failed interrupted) = Adds-nothing t.sent

  step_at-Adds : (p : Place) (t : ReadTask) (e : SocketEvent) → Adds t.sent (step_at id p t e).sent
  unfolding step_at
  step_at-Adds at_top t e = step_top-Adds t e
  step_at-Adds waits_resume t e = step_waits-Adds t e
  step_at-Adds reads t e = step_reads-Adds t e
  step_at-Adds over t e = Adds-nothing t.sent

  pub read_task_step-Adds :
      (t : ReadTask) (e : SocketEvent) → Adds t.sent (read_task_step id t e).sent
  unfolding read_task_step
  read_task_step-Adds t told_pause = Adds-nothing t.sent
  read_task_step-Adds t told_resume = Adds-nothing t.sent
  read_task_step-Adds t turn = step_at-Adds t.place t turn
  read_task_step-Adds t stopped = step_at-Adds t.place t stopped
  read_task_step-Adds t notified = step_at-Adds t.place t notified
  read_task_step-Adds t (ready n delivered) = step_at-Adds t.place t (ready n delivered)
  read_task_step-Adds t (failed interrupted) = step_at-Adds t.place t (failed interrupted)
