-- ===== src/Programs/KillOld/Victims.antt =====
-- src/lib/server.rs: which processes `run_server` kills before it starts.
use mathlib.Core.List.{Memᴰ}
use mathlib.Core.List.Memᴰ
use mobiletunnel.Prelude.{
  ℕ, ◌≡◌, ◌≢◌, ◌∙◌, refl, sym, ap, List, [], ◌∷◌, true, false, Option, none, some, ◌==◌, inl, inr,
  ◌↔◌, Bool-cases, arith, ==_refl,
}
use mobiletunnel.Text.{Text, codes, remove_all}
use mobiletunnel.Programs.Processes.{Process}
use mobiletunnel.Programs.KillOld.{Match, is_match, exe_matches, is_user, is_killed, kill_old}

-- A process to kill: not this one, no thread, of this user, and with a program whose name matches, a mark
-- of a deleted file left aside.
pub record IsVictim (m : Match) (our_pid our_uid : ℕ) (p : Process) : Type 0 where
  pub other : p.pid ≢ our_pid
  pub process : p.thread_kind ≡ false
  pub exe :
      (name : Text) × (p.exe ≡ some (some name))
      × (is_match m (remove_all name (codes " (deleted)")) ≡ true)
  pub ours : p.user_id ≡ some our_uid

module _ (m : Match) (our_pid our_uid : ℕ) where
  exe_matches-some :
      (exe : Option (Option Text))
      → exe_matches m exe ≡ true
      → (name : Text) × (exe ≡ some (some name))
        × (is_match m (remove_all name (codes " (deleted)")) ≡ true)
  unfolding exe_matches
  exe_matches-some none h = absurd cc
  exe_matches-some (some none) h = absurd cc
  exe_matches-some (some (some name)) h = (name, refl, h)

  is_user-some : (user : Option ℕ) → is_user our_uid user ≡ true → user ≡ some our_uid
  unfolding is_user
  is_user-some none h = absurd cc
  is_user-some (some uid) h = let same : uid ≡ our_uid = ground arith in ap some same

  is_killed-IsVictim :
      (p : Process) → is_killed m our_pid our_uid p ≡ true → IsVictim m our_pid our_uid p
  unfolding is_killed
  is_killed-IsVictim p h = elim (Bool-cases (p.pid == our_pid)) [
    | inl e ↦ absurd (let no_more : false ≡ true = rw e at h in cc)
    | inr e ↦ elim (Bool-cases p.thread_kind) [
      | inl e' ↦ absurd (let no_more : false ≡ true = rw (e, e') at h in cc)
      | inr e' ↦ elim (Bool-cases (exe_matches m p.exe)) [
        | inr e'' ↦ absurd (let no_more : false ≡ true = rw (e, e', e'') at h in cc)
        | inl e'' ↦ record {
          other = λ same. absurd (ground arith);
          process = e';
          exe = exe_matches-some p.exe e'';
          ours = is_user-some p.user_id (rw (e, e', e'') at h);
        }
      ]
    ]
  ]

  IsVictim-killed :
      (p : Process) → IsVictim m our_pid our_uid p → is_killed m our_pid our_uid p ≡ true
  unfolding is_killed exe_matches is_user
  IsVictim-killed p v =
      let (name, shown, matches) = v.exe in
      let e : (p.pid == our_pid) ≡ false = let no = v.other in ground arith in
      rw (e, v.process, shown, matches, v.ours) (==_refl our_uid)

  -- The process with a pid that was killed.
  abbrev pub Chosen : ℕ → List Process → Type 0
  Chosen pid ps = (p : Process) × Memᴰ p ps × (p.pid ≡ pid) × IsVictim m our_pid our_uid p

  later : {pid : ℕ} {p : Process} {ps : List Process} → Chosen pid ps → Chosen pid (p ∷ ps)
  later (q, there, e, v) = (q, Memᴰ.tail there, e, v)

  kill_old-Chosen :
      (pid : ℕ) (ps : List Process) → Memᴰ pid (kill_old m our_pid our_uid ps) → Chosen pid ps
  unfolding kill_old
  kill_old-Chosen pid [] h = absurd (Memᴰ.not-nil h)
  kill_old-Chosen pid (p ∷ ps) h = elim (Bool-cases (is_killed m our_pid our_uid p)) [
    | inl e ↦ elim (Memᴰ.cases_cons (rw e at h)) [
      | inl same ↦ (p, Memᴰ.head refl, sym same, is_killed-IsVictim p e)
      | inr rest ↦ later (kill_old-Chosen pid ps rest)
    ]
    | inr e ↦ later (kill_old-Chosen pid ps (rw e at h))
  ]

  Chosen-killed :
      (pid : ℕ) (p : Process) (ps : List Process)
      → Memᴰ p ps
      → p.pid ≡ pid
      → IsVictim m our_pid our_uid p
      → Memᴰ pid (kill_old m our_pid our_uid ps)
  unfolding kill_old
  Chosen-killed pid p [] there e v = elim there [ ]
  Chosen-killed pid p (q ∷ ps) (Memᴰ.head same) e v =
      let killed : is_killed m our_pid our_uid q ≡ true =
        ap (is_killed m our_pid our_uid) (sym same) ∙ IsVictim-killed p v in
      rw killed (Memᴰ.head (sym e ∙ ap (λ (r : Process). r.pid) same))
  Chosen-killed pid p (q ∷ ps) (Memᴰ.tail there) e v =
      elim (Bool-cases (is_killed m our_pid our_uid q)) [
        | inl on ↦ rw on (Memᴰ.tail (Chosen-killed pid p ps there e v))
        | inr off ↦ rw off (Chosen-killed pid p ps there e v)
      ]

  -- Among any processes, a pid is killed exactly when it is that of a process that is not this program, is
  -- no thread, belongs to this user, and runs a program whose name matches when the mark of a deleted file
  -- is left out.
  pub kill_old-IsVictim :
      (pid : ℕ) (ps : List Process)
      → Memᴰ pid (kill_old m our_pid our_uid ps)
        ↔ ((p : Process) × Memᴰ p ps × (p.pid ≡ pid) × IsVictim m our_pid our_uid p)
  kill_old-IsVictim pid ps =
      (kill_old-Chosen pid ps, λ (p, there, e, v). Chosen-killed pid p ps there e v)
