-- ===== src/Stream/Wire/Writing.antt =====
-- src/lib/reconnecting_stream.rs: what the writer task gives the socket.
use mathlib.Core.Path.{subst}
use mobiletunnel.Prelude.{
  ℕ, ◌≡◌, refl, sym, ap, ◌∙◌, List, [], ◌∷◌, ◌++◌, true, false, none, some, take, flatten, IsFront,
  IsFront-trans, IsFront-prepend, take-IsFront, append-nil, append_assoc,
}
use mobiletunnel.Stream.Wire.{Handed, WriterTask, writes, tells, writer_step, writer_task}

-- The messages that the task is handed.
abbrev pub handed_messages : List Handed → List (List ℕ)
handed_messages [] = []
handed_messages ((none, result) ∷ hs) = handed_messages hs
handed_messages ((some msg, result) ∷ hs) = msg ∷ handed_messages hs

-- Every message is written as a whole.
abbrev pub AllWritten : List Handed → Type 0
AllWritten [] = Unit {0}
AllWritten ((none, result) ∷ hs) = ⊥
AllWritten ((some msg, result) ∷ hs) = (result ≡ none) × AllWritten hs

abbrev Written : WriterTask → List ℕ → List ℕ → Type 0
Written w out all = (more : List ℕ) × (out ≡ w.out ++ more) × IsFront more all

stays : (w : WriterTask) (all : List ℕ) → Written w w.out all
stays w all = ([], sym (append-nil w.out), (all, refl))

writer-stopped : (w : WriterTask) (hs : List Handed) → w.running ≡ false → writer_task w hs ≡ w
unfolding writer_task
writer-stopped w [] e = refl
writer-stopped w (h ∷ hs) e = rw e refl

writer-running :
    (w : WriterTask) (h : Handed) (hs : List Handed)
    → w.running ≡ true
    → writer_task w (h ∷ hs) ≡ writer_task (writer_step w h) hs
unfolding writer_task
writer-running w h hs e = rw e refl

-- The socket gets a front of the messages' bytes, in their order.
pub writer_task-Written :
    (w : WriterTask) (hs : List Handed)
    → w.running ≡ true
    → Written w (writer_task w hs).out (flatten (handed_messages hs))
unfolding writer_step
writer_task-Written w [] e = unfold writer_task in stays w []
writer_task-Written w ((none, r) ∷ hs) e =
    rw (writer-running w (none, r) hs e, writer-stopped (tells w) hs refl) (stays w _)
writer_task-Written w ((some msg, none) ∷ hs) e =
    let (more, p, f) = writer_task-Written (writes w msg) hs e in
    subst (λ (u : WriterTask). Written w u.out (msg ++ flatten (handed_messages hs)))
      (sym (writer-running w (some msg, none) hs e))
      (msg ++ more, p ∙ append_assoc w.out msg more, IsFront-prepend msg more _ f)
writer_task-Written w ((some msg, some n) ∷ hs) e =
    rw
      (
        writer-running w (some msg, some n) hs e,
        writer-stopped (tells (writes w (take n msg))) hs refl,
      )
      (
        take n msg,
        refl,
        IsFront-trans (take n msg) msg _ (take-IsFront n msg) (flatten (handed_messages hs), refl),
      )

pub writer_task-AllWritten :
    (w : WriterTask) (hs : List Handed)
    → w.running ≡ true
    → AllWritten hs
    → (writer_task w hs).out ≡ w.out ++ flatten (handed_messages hs)
unfolding writer_step
writer_task-AllWritten w [] e h = unfold writer_task in sym (append-nil w.out)
writer_task-AllWritten w ((none, r) ∷ hs) e h = absurd h
writer_task-AllWritten w ((some msg, none) ∷ hs) e (p, h) =
    ap (λ (u : WriterTask). u.out) (writer-running w (some msg, none) hs e)
    ∙ writer_task-AllWritten (writes w msg) hs e h
    ∙ append_assoc w.out msg (flatten (handed_messages hs))
writer_task-AllWritten w ((some msg, some n) ∷ hs) e (p, h) = absurd cc
