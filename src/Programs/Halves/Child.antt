-- ===== src/Programs/Halves/Child.antt =====
-- src/bin/mobiletunnel.rs: the loop of ssh, event by event, and how it ends.
use mobiletunnel.Prelude.{
  ap, ◌+◌, ◌≡◌, inl, inr, refl, ◌∙◌, List, [], ◌∷◌, ◌++◌, Bool, true, false, ◌&&◌, if◌then◌else◌,
  Bool-cases,
}
use mobiletunnel.Text.{codes, starts_with}
use mobiletunnel.Programs.Ssh.{
  SshEvent, exited, wait_failed, end_of_output, read_failed, timed_out, cancelled, line, SshRun,
  SshEnd, still, failed, returned, ssh_died, server_died, run_ssh, LoopEnd, running, finished,
  broken, on_ssh_end, ends,
}
use mobiletunnel.Programs.Halves.{
  SshTask, SshTaskEvent, starts, meets, at_top, rest_of, ssh_begins, ssh_meets, is_running,
  ssh_task_step, ssh_ended,
}

line_still :
    (b : Bool) (r r' : SshRun)
    → (if b then ends (returned server_died) else r).end ≡ still
    → (r.end ≡ still → r'.end ≡ r'.end)
    → (b ≡ false) × (r.end ≡ still)
line_still true r r' e f = cc
line_still false r r' e f = (refl, e)

-- A child that runs meets more.
pub run_ssh-append :
    (es fs : List SshEvent) → (run_ssh es).end ≡ still → (run_ssh (es ++ fs)).end ≡ (run_ssh fs).end
unfolding run_ssh
run_ssh-append [] fs e = refl
run_ssh-append (exited ∷ es) fs e = cc
run_ssh-append (wait_failed ∷ es) fs e = cc
run_ssh-append (end_of_output ∷ es) fs e = run_ssh-append es fs e
run_ssh-append (read_failed ∷ es) fs e = cc
run_ssh-append (timed_out ∷ es) fs e = run_ssh-append es fs e
run_ssh-append (cancelled ∷ es) fs e = run_ssh-append es fs e
run_ssh-append (line text ∷ es) fs e =
    let (good, on) =
      line_still (starts_with text (codes "BAD")) (run_ssh es) (run_ssh fs) e (λ h. refl) in
    rw good (run_ssh-append es fs on)

-- While the loop runs, so does its child.
abbrev pub IsBetween : SshTask → Type 0
IsBetween t = t.loop.loop_end ≡ running → (run_ssh t.events).end ≡ still

ssh_begins-IsBetween : (c b : Bool) → IsBetween (ssh_begins c b)
unfolding ssh_begins run_ssh
ssh_begins-IsBetween c b e = refl

ssh_meets-IsBetween :
    (c : Bool) (t : SshTask) (e : SshEvent) (respawn : Bool) → IsBetween (ssh_meets c t e respawn)
unfolding ssh_meets
ssh_meets-IsBetween c t e respawn = by_end (run_ssh (t.events ++ (e ∷ []))).end refl
  where
    by_end :
        (end : SshEnd)
        → (run_ssh (t.events ++ (e ∷ []))).end ≡ end
        → (on_ssh_end t.loop.spawned end respawn (at_top c (t.loop.spawned + 1))).loop_end ≡ running
        → (run_ssh (rest_of end (t.events ++ (e ∷ [])))).end ≡ still
    by_end still p h = p
    by_end failed p h = unfold run_ssh in refl
    by_end (returned r) p h = unfold run_ssh in refl

either_task :
    (b : Bool) (s t : SshTask) → IsBetween s → IsBetween t → IsBetween (if b then s else t)
either_task true s t p q = p
either_task false s t p q = q

pub ssh_task_step-IsBetween :
    (c : Bool) (t : SshTask) (e : SshTaskEvent) → IsBetween t → IsBetween (ssh_task_step c t e)
unfolding ssh_task_step
ssh_task_step-IsBetween c t (starts b) p =
    either_task t.begun t (ssh_begins c b) p (ssh_begins-IsBetween c b)
ssh_task_step-IsBetween c t (meets e respawn) p =
    either_task (t.begun && is_running t.loop.loop_end) _ t (ssh_meets-IsBetween c t e respawn) p

-- With the token cancelled: the loop sees it before its first child, or behind the end of the one that runs.
abbrev pub ssh_stops : List SshTaskEvent
ssh_stops = starts true ∷ meets exited true ∷ []

abbrev pub ssh_stopped : SshTask → SshTask
ssh_stopped t = ssh_task_step true (ssh_task_step true t (starts true)) (meets exited true)

either_way : (b : Bool) (s t : SshTask) → b ≡ true → (if b then s else t) ≡ s
either_way true s t e = refl
either_way false s t e = absurd cc

neither_way : (b : Bool) (s t : SshTask) → b ≡ false → (if b then s else t) ≡ t
neither_way true s t e = absurd cc
neither_way false s t e = refl

-- The end of a child, when the token is cancelled, is the end of the loop.
last_exit :
    (t : SshTask) → (run_ssh t.events).end ≡ still → ssh_ended (ssh_meets true t exited true) ≡ true
unfolding ssh_meets on_ssh_end
last_exit t p =
    let over : (run_ssh (t.events ++ (exited ∷ []))).end ≡ returned ssh_died =
      run_ssh-append t.events (exited ∷ []) p ∙ unfold run_ssh in refl in
    rw over refl

exited-ended :
    (t : SshTask)
    → IsBetween t
    → t.begun ≡ true
    → ssh_ended (ssh_task_step true t (meets exited true)) ≡ true
unfolding ssh_task_step
exited-ended t p b = by_loop t.loop.loop_end refl
  where
    by_loop :
        (l : LoopEnd)
        → t.loop.loop_end ≡ l
        → ssh_ended
            (if t.begun && is_running t.loop.loop_end then ssh_meets true t exited true else t)
          ≡ true
    by_loop running e =
        ap ssh_ended (
          either_way (t.begun && is_running t.loop.loop_end) (ssh_meets true t exited true) t
            (rw (b, e) refl))
        ∙ last_exit t (p e)
    by_loop finished e =
        ap ssh_ended (
          neither_way (t.begun && is_running t.loop.loop_end) (ssh_meets true t exited true) t
            (rw (b, e) refl))
        ∙ rw e refl
    by_loop broken e =
        ap ssh_ended (
          neither_way (t.begun && is_running t.loop.loop_end) (ssh_meets true t exited true) t
            (rw (b, e) refl))
        ∙ rw e refl

task_starts :
    (t : SshTask)
    → ssh_task_step true t (starts true) ≡ (if t.begun then t else ssh_begins true true)
unfolding ssh_task_step
task_starts t = refl

pub ssh_stopped-ended : (t : SshTask) → IsBetween t → ssh_ended (ssh_stopped t) ≡ true
ssh_stopped-ended t p = elim (Bool-cases t.begun) [
  | inl b ↦
      ap (λ (u : SshTask). ssh_ended (ssh_task_step true u (meets exited true)))
        (task_starts t ∙ either_way t.begun t (ssh_begins true true) b)
      ∙ exited-ended t p b
  | inr b ↦
      ap (λ (u : SshTask). ssh_ended (ssh_task_step true u (meets exited true)))
        (task_starts t ∙ neither_way t.begun t (ssh_begins true true) b)
      ∙ exited-ended (ssh_begins true true) (ssh_begins-IsBetween true true)
          (unfold ssh_begins in refl)
]
