-- ===== src/Multiplexer/Socket/Task/Speaks.antt =====
-- src/lib/stream_multiplexer.rs: what a stream's three tasks send to the multiplexer.
use mobiletunnel.Prelude.{
  ◌⊎◌, inl, inr, ℕ, ◌≡◌, refl, sym, ap, ◌∙◌, List, [], ◌∷◌, ◌++◌, Bool, true, false, ◌&&◌,
  if◌then◌else◌, drop, length, drop-append_eq, append-nil,
}
use mobiletunnel.Multiplexer.Message.{ChannelMessage, disconnect}
use mobiletunnel.Multiplexer.Flow.{StreamFlowControl, Wrote, went_on, resumed, ended, write_message}
use mobiletunnel.Multiplexer.Server.Delivery.{for_stream}
use mobiletunnel.Multiplexer.Server.Payloads.{for_stream-append}
use mobiletunnel.Multiplexer.Socket.{
  ReadTask, SocketEvent, read_task_step, WriteAnswer, all_written, cut_off,
}
use mobiletunnel.Multiplexer.Socket.Task.{
  Stage, connecting, inside, leaving, gone, StreamTask, on_read, resume_of, said, on_write,
}
use mobiletunnel.Multiplexer.Socket.Task.Adds.{closings, closings-append, read_task_step-Adds}

-- What the tasks have sent so far: its DATA is what the read task sent, in order; DISCONNECT at most once, by
-- a task that is over; and before DISCONNECT, the token of the two tasks is cancelled, if they were spawned.
abbrev pub is_ending : Stage → Bool
is_ending connecting = false
is_ending inside = false
is_ending leaving = true
is_ending gone = true

pub record Speaks (id : ℕ) (t : StreamTask) : Type 0 where
  pub data_sent : for_stream id t.to_channel ≡ t.read.sent
  pub says :
      (closings t.to_channel ≡ [])
      ⊎ ((closings t.to_channel ≡ disconnect id ∷ []) × (t.stage ≡ gone))
  pub told : (is_ending t.stage && t.spawned) ≡ true → t.cancelled ≡ true
  pub alone : t.stage ≡ connecting → t.spawned ≡ false

module _ (id : ℕ) where
  pub either-Speaks :
      (b : Bool) (t u : StreamTask) → Speaks id t → Speaks id u → Speaks id (if b then t else u)
  either-Speaks true t u p q = p
  either-Speaks false t u p q = q

  -- More in the channel, of which what is DATA is what the read task adds.
  adds :
      (t : StreamTask) (read : ReadTask) (new more : List ChannelMessage)
      → read.sent ≡ t.read.sent ++ new
      → for_stream id more ≡ new
      → closings more ≡ []
      → Speaks id t
      → Speaks id (record t { read = read; to_channel = t.to_channel ++ more })
  adds t read new more grown mine quiet s =
      let same =
        closings-append t.to_channel more
        ∙ ap (◌++◌ (closings t.to_channel)) quiet
        ∙ append-nil _ in
      record {
        data_sent =
            for_stream-append id t.to_channel more
            ∙ ap (◌++ for_stream id more) s.data_sent
            ∙ ap (◌++◌ t.read.sent) mine
            ∙ sym grown;
        says = elim s.says [ inl e ↦ inl (same ∙ e) | inr (e, g) ↦ inr (same ∙ e, g) ];
        told = s.told;
        alone = s.alone;
      }

  pub on_read-Speaks : (t : StreamTask) (e : SocketEvent) → Speaks id t → Speaks id (on_read id t e)
  unfolding on_read
  on_read-Speaks t e s =
      let (new, grown, mine, quiet) = read_task_step-Adds id t.read e in
      let read = read_task_step id t.read e in
      let rest =
        ap (drop (length t.read.sent)) grown
        ∙ drop-append_eq (length t.read.sent) t.read.sent new refl in
      adds t read new (drop (length t.read.sent) read.sent) grown (ap (for_stream id) rest ∙ mine)
        (ap closings rest ∙ quiet) s

  resume_of-own :
      (w : Wrote) → (for_stream id (resume_of id w) ≡ []) × (closings (resume_of id w) ≡ [])
  resume_of-own went_on = (refl, refl)
  resume_of-own resumed = (refl, refl)
  resume_of-own ended = (refl, refl)

  said-own :
      (m : ChannelMessage) (answer : WriteAnswer) (flow : StreamFlowControl)
      → (for_stream id (said id m answer flow) ≡ []) × (closings (said id m answer flow) ≡ [])
  said-own m (all_written delivered) flow = resume_of-own (write_message m true delivered flow).1
  said-own m (cut_off n) flow = (refl, refl)

  pub on_write-Speaks :
      (t : StreamTask) (m : ChannelMessage) (answer : WriteAnswer)
      → Speaks id t
      → Speaks id (on_write id t m answer)
  unfolding on_write
  on_write-Speaks t m answer s =
      let (mine, quiet) = said-own m answer t.read.flow in
      let u =
        adds t t.read [] (said id m answer t.read.flow) (sym (append-nil t.read.sent)) mine quiet
          s in
      record { data_sent = u.data_sent; says = u.says; told = u.told; alone = u.alone }

  -- A task that has only moved.
  pub moves :
      (t u : StreamTask)
      → u.to_channel ≡ t.to_channel
      → u.read.sent ≡ t.read.sent
      → (t.stage ≡ gone → u.stage ≡ gone)
      → ((is_ending u.stage && u.spawned) ≡ true → u.cancelled ≡ true)
      → (u.stage ≡ connecting → u.spawned ≡ false)
      → Speaks id t
      → Speaks id u
  moves t u c r going told alone s = record {
    data_sent = ap (for_stream id) c ∙ s.data_sent ∙ sym r;
    says = elim s.says [
      | inl e ↦ inl (ap closings c ∙ e)
      | inr (e, g) ↦ inr (ap closings c ∙ e, going g)
    ];
    told = told;
    alone = alone;
  }
