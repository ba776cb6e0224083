-- ===== src/Programs/Halves/Stops.antt =====
-- src/bin/mobiletunnel.rs, src/lib/client.rs: when the client or the loop of ssh ends, both do.
use mobiletunnel.Prelude.{
  Option, ◌≡◌, ◌⊎◌, inl, inr, refl, ap, ◌∙◌, List, [], ◌∷◌, ◌++◌, map, Bool, true, false, ◌&&◌,
  ◌||◌, not, none, some, Outcome, ok, err, panic, if◌then◌else◌,
}
use mobiletunnel.Programs.Ssh.{run_ssh}
use mobiletunnel.Programs.Client.{ClientError, ClientMain, ClientEvent, client_result}
use mobiletunnel.Programs.Halves.{
  fresh_halves, SshTask, SshTaskEvent, ssh_task_step, Halves, client_ended, client_returned,
  has_returned, is_some, ssh_ended, HalfEvent, of_client, of_ssh, is_cancel, is_told, tell_other,
  on_client, halves_step, start_halves, halves, join_returns,
}
use mobiletunnel.Programs.Halves.Child.{
  IsBetween, ssh_task_step-IsBetween, ssh_stops, ssh_stopped-ended,
}
use mobiletunnel.Programs.Halves.Ending.{client_stops, client_stopped-ended}

allowed : (c i : Bool) (s t : Halves) → i ≡ true → (if c && not i then s else t) ≡ t
allowed true true s t e = refl
allowed false true s t e = refl
allowed c false s t e = absurd cc

or_left : (b c : Bool) → b ≡ true → (b || c) ≡ true
or_left true c e = refl
or_left false c e = absurd cc

or_right : (b c : Bool) → c ≡ true → (b || c) ≡ true
or_right true c e = refl
or_right false c e = e

-- Behind the end of a task the other one's token is cancelled, and a loop that runs has a child that runs.
record IsTold (s : Halves) : Type 0 where
  ssh : client_returned s.client ≡ true → s.ssh_cancel ≡ true
  client : ssh_ended s.ssh ≡ true → s.client_cancel ≡ true
  between : IsBetween s.ssh

tell_other-IsTold : (s : Halves) → IsBetween s.ssh → IsTold (tell_other s)
unfolding tell_other
tell_other-IsTold s p = record {
  ssh = λ h. or_right s.ssh_cancel (client_returned s.client) h;
  client = λ h. or_right s.client_cancel (ssh_ended s.ssh) h;
  between = p;
}

either_halves : (b : Bool) (s t : Halves) → IsTold s → IsTold t → IsTold (if b then s else t)
either_halves true s t p q = p
either_halves false s t p q = q

halves_step-IsTold : (s : Halves) (e : HalfEvent) → IsTold s → IsTold (halves_step s e)
unfolding halves_step
halves_step-IsTold s (of_client e) p =
    either_halves (is_cancel e && not s.client_cancel) s _ p
      (tell_other-IsTold (record s { client = on_client s.client e }) p.between)
halves_step-IsTold s (of_ssh e) p = either_halves (is_told e && not s.ssh_cancel) s _ p (
    tell_other-IsTold (record s { ssh = ssh_task_step s.ssh_cancel s.ssh e })
      (ssh_task_step-IsBetween s.ssh_cancel s.ssh e p.between))

halves-IsTold : (s : Halves) (es : List HalfEvent) → IsTold s → IsTold (halves s es)
unfolding halves
halves-IsTold s [] p = p
halves-IsTold s (e ∷ es) p = halves-IsTold (halves_step s e) es (halves_step-IsTold s e p)

start_halves-IsTold : (c : Outcome ClientError ClientMain) → IsTold (start_halves c)
unfolding start_halves
start_halves-IsTold c = tell_other-IsTold (fresh_halves c) (λ e. unfold run_ssh in refl)

halves-append :
    (s : Halves) (es fs : List HalfEvent) → halves s (es ++ fs) ≡ halves (halves s es) fs
unfolding halves
halves-append s [] fs = refl
halves-append s (e ∷ es) fs = halves-append (halves_step s e) es fs

-- With its token cancelled, a task meets what it meets alone, and the other stays as it is.
client_alone :
    (s : Halves) (e : ClientEvent)
    → s.client_cancel ≡ true
    → halves_step s (of_client e) ≡ tell_other (record s { client = on_client s.client e })
unfolding halves_step
client_alone s e now = allowed (is_cancel e) s.client_cancel s _ now

ssh_alone :
    (s : Halves) (e : SshTaskEvent)
    → s.ssh_cancel ≡ true
    → halves_step s (of_ssh e) ≡ tell_other (record s { ssh = ssh_task_step true s.ssh e })
unfolding halves_step
ssh_alone s e now =
    allowed (is_told e) s.ssh_cancel s _ now
    ∙ ap (λ (c : Bool). tell_other (record s { ssh = ssh_task_step c s.ssh e })) now

abbrev client_run :
    Outcome ClientError ClientMain → List ClientEvent → Outcome ClientError ClientMain
client_run c [] = c
client_run c (e ∷ es) = client_run (on_client c e) es

abbrev ssh_run : SshTask → List SshTaskEvent → SshTask
ssh_run t [] = t
ssh_run t (e ∷ es) = ssh_run (ssh_task_step true t e) es

halves-client :
    (s : Halves) (es : List ClientEvent)
    → s.client_cancel ≡ true
    → ((halves s (map of_client es)).client ≡ client_run s.client es)
      × ((halves s (map of_client es)).ssh ≡ s.ssh)
unfolding halves tell_other
halves-client s [] now = (refl, refl)
halves-client s (e ∷ es) now =
    let next : Halves = tell_other (record s { client = on_client s.client e }) in
    let (c, t) = halves-client next es (or_left s.client_cancel _ now) in
    let run = ap (λ (u : Halves). halves u (map of_client es)) (client_alone s e now) in
    (ap (λ (u : Halves). u.client) run ∙ c, ap (λ (u : Halves). u.ssh) run ∙ t)

halves-ssh :
    (s : Halves) (es : List SshTaskEvent)
    → s.ssh_cancel ≡ true
    → ((halves s (map of_ssh es)).client ≡ s.client)
      × ((halves s (map of_ssh es)).ssh ≡ ssh_run s.ssh es)
unfolding halves tell_other
halves-ssh s [] now = (refl, refl)
halves-ssh s (e ∷ es) now =
    let next : Halves = tell_other (record s { ssh = ssh_task_step true s.ssh e }) in
    let (c, t) = halves-ssh next es (or_left s.ssh_cancel _ now) in
    let run = ap (λ (u : Halves). halves u (map of_ssh es)) (ssh_alone s e now) in
    (ap (λ (u : Halves). u.client) run ∙ c, ap (λ (u : Halves). u.ssh) run ∙ t)

client_run-ended :
    (c : Outcome ClientError ClientMain) → client_ended (client_run c client_stops) ≡ true
client_run-ended (ok c) = client_stopped-ended c
client_run-ended (err e) = refl
client_run-ended panic = refl

returned-ended :
    (c : Outcome ClientError ClientMain) → client_returned c ≡ true → client_ended c ≡ true
returned-ended (err e) h = refl
returned-ended panic h = cc
returned-ended (ok c) h = go (client_result c.multiplexer.status c.task) h
  where
    go : (o : Option (Outcome ClientError (Unit {0}))) → has_returned o ≡ true → is_some o ≡ true
    go none h = cc
    go (some r) h = refl

both : (a b : Bool) → a ≡ true → b ≡ true → (a && b) ≡ true
both true b p q = q
both false b p q = absurd cc

one_of : (a b : Bool) → (a || b) ≡ true → (a ≡ true) ⊎ (b ≡ true)
one_of true b e = inl refl
one_of false b e = inr e

-- Whatever the client and the loop of ssh meet, from the start, also when the client cannot start: once the
-- client has returned, well or with an error, the loop's token is cancelled, and once the loop has ended, for
-- whatever reason, the client's token is; and from there, there are events after which both have ended and
-- `join!` returns.
pub halves-join_returns :
    (start : Outcome ClientError ClientMain) (es : List HalfEvent)
    → (client_returned (halves (start_halves start) es).client
        || ssh_ended (halves (start_halves start) es).ssh)
      ≡ true
    → let s = halves (start_halves start) es in
      (((client_returned s.client ≡ true) × (s.ssh_cancel ≡ true))
        ⊎ ((ssh_ended s.ssh ≡ true) × (s.client_cancel ≡ true)))
      × ((later : List HalfEvent) × (join_returns (halves (start_halves start) (es ++ later))
            ≡ true))
halves-join_returns start es h =
    let s = halves (start_halves start) es in
    let told = halves-IsTold (start_halves start) es (start_halves-IsTold start) in
    let after =
      λ (later : List HalfEvent). ap join_returns (halves-append (start_halves start) es later) in
    elim (one_of (client_returned s.client) (ssh_ended s.ssh) h) [
      | inl over ↦
          let now = told.ssh over in
          let (c, t) = halves-ssh s ssh_stops now in
          (
            inl (over, now),
            (
              map of_ssh ssh_stops,
              after (map of_ssh ssh_stops)
                  ∙ both _ _ (ap client_ended c ∙ returned-ended s.client over)
                      (ap ssh_ended t ∙ ssh_stopped-ended s.ssh told.between),
            ),
          )
      | inr over ↦
          let now = told.client over in
          let (c, t) = halves-client s client_stops now in
          (
            inr (over, now),
            (
              map of_client client_stops,
              after (map of_client client_stops)
                  ∙ both _ _ (ap client_ended c ∙ client_run-ended s.client)
                      (ap ssh_ended t ∙ over),
            ),
          )
    ]
