-- ===== src/Pm/ExitReport.antt =====
-- What PM tells VFS and the server of mutexes when a process ends: `exit_proc` of
-- projekt/servers/pm/forkexit.c.
use minix_server_of_mutex_an.Base.{
  ℕ, zero, suc, ◌≡◌, ◌≢◌, refl, ap, ap₂, ◌∙◌, Bool, true, false, Option, some, List, [], ◌∷◌, ◌++◌,
  ℤ, ◌==◌, ◌>>=◌, if◌then◌else◌, Bool-cases, Option-cases, inl, inr, ==_ne, append_assoc,
}
use minix_server_of_mutex_an.Pm.{
  Mproc, cs_exit, Call, asynsend3, sys_times, sys_stop, vm_willexit, Pm, Kernel, modify_proc,
  set_flags,
}
use minix_server_of_mutex_an.Pm.Utility.{szukaj, jest_uslugi, cv_name, ipc_name}
use minix_server_of_mutex_an.Pm.Signal.{Other}
use minix_server_of_mutex_an.Pm.Exit.{
  dolicz, wiadomosc_vfs, zrzut, grupa, exit_zatrzymaj, exit_powiadom, exit_oznacz, osieroc_od,
  rozlacz, exit_dalej, exit_proc,
}
use minix_server_of_mutex_an.Pm.Report.{
  do_vm, szukaj-flags, endpoint-flags, flags-flags, must_ok, tell_vfs_lem, tell_cv_lem,
  vm_notify_sig_wrapper_lem,
}

-- A change of one process that a function of processes does not see.
pub field-modify :
    {A : Type 0} (g : Mproc → A) (rmp i : ℕ) (f : Mproc → Mproc) (s : Pm)
    → ((p : Mproc) → g (f p) ≡ g p)
    → g ((modify_proc rmp f s).mproc i) ≡ g (s.mproc i)
unfolding modify_proc
field-modify g rmp i f s same = elim (Bool-cases (i == rmp)) [
  | inl e ↦ rw e (same (s.mproc i))
  | inr e ↦ rw e
]

pub szukaj-modify :
    (test : Mproc → Bool) (rmp r i : ℕ) (f : Mproc → Mproc) (s : Pm)
    → ((p : Mproc) → test (f p) ≡ test p)
    → szukaj test r i (modify_proc rmp f s).mproc ≡ szukaj test r i s.mproc
szukaj-modify test rmp zero i f s same = refl
szukaj-modify test rmp (suc r) i f s same =
    ap₂ (λ b rest. if b then some i else rest) (field-modify test rmp i f s same)
      (szukaj-modify test rmp r (suc i) f s same)

module _ (k : Kernel) (o : Other)
    (answers : (cs : List Call) (c : Call) → k.answer cs c ≡ k.ok) where
  -- The parent is charged with the times of the process.
  abbrev pub charge : ℕ → Pm → Mproc → Mproc
  charge rmp s = dolicz (k.times s.calls (s.mproc rmp).endpoint) (s.mproc rmp)

  -- The calls of `exit_proc` up to its messages, and the state behind them.
  abbrev pub stops : ℕ → Pm → List Call
  stops rmp s =
      let ep = (s.mproc rmp).endpoint in
      sys_times ep ∷ sys_stop ep ∷ vm_willexit ep ∷ do_vm k ep s.mproc

  abbrev pub stopped : ℕ → Pm → Pm
  stopped rmp s = record (modify_proc (s.mproc rmp).parent (charge rmp s) s) {
    calls = s.calls ++ stops rmp s;
  }

  do_vm-charge :
      (ep r rmp : ℕ) (s : Pm)
      → do_vm k ep (modify_proc r (charge rmp s) s).mproc ≡ do_vm k ep s.mproc
  do_vm-charge ep r rmp s =
      let same = szukaj-modify (jest_uslugi ipc_name) r k.nr_procs 0 (charge rmp s) s (λ p. refl) in
      elim (Option-cases (szukaj (jest_uslugi ipc_name) k.nr_procs 0 s.mproc)) [
        | inl e ↦ rw (do_vm, same, e)
        | inr (j, e) ↦
            rw (do_vm, same, e, field-modify (λ p. p.endpoint) r j (charge rmp s) s (λ p. refl))
      ]

  append_calls :
      (s : List Call) (a b c : Call) (ds : List Call)
      → (((s ++ a ∷ []) ++ b ∷ []) ++ c ∷ []) ++ ds ≡ s ++ a ∷ b ∷ c ∷ ds
  append_calls s a b c ds = rw (append_assoc, append_assoc, append_assoc)

  exit_zatrzymaj_lem :
      (rmp : ℕ) (s : Pm)
      → (s.mproc rmp).flags.alarm_on ≡ false
      → exit_zatrzymaj k o rmp s ≡ some (stopped rmp s)
  unfolding exit_zatrzymaj modify_proc
  exit_zatrzymaj_lem rmp s quiet =
      let ep = (s.mproc rmp).endpoint in
      let charged = modify_proc (s.mproc rmp).parent (charge rmp s) s in
      let last : Pm = record charged {
        calls = ((s.calls ++ sys_times ep ∷ []) ++ sys_stop ep ∷ []) ++ vm_willexit ep ∷ [];
      } in
      rw
        (
          exit_zatrzymaj,
          quiet,
          must_ok k answers,
          must_ok k answers,
          must_ok k answers,
          field-modify (λ p. p.endpoint) (s.mproc rmp).parent rmp (charge rmp s) s (λ p. refl),
          vm_notify_sig_wrapper_lem k answers ep last,
          do_vm-charge ep (s.mproc rmp).parent rmp s,
          append_calls s.calls (sys_times ep) (sys_stop ep) (vm_willexit ep) (do_vm k ep s.mproc),
        )
        refl

  abbrev pub czeka : ℕ → Pm → Pm
  czeka rmp = set_flags rmp (λ f. record f { vfs_call = true })

  -- The messages to VFS and to the server in the slot `i`.
  abbrev pub exit_reports : ℕ → ℕ → Bool → Pm → List Call
  exit_reports rmp i dump_core s =
      asynsend3 k.vfs_proc_nr (wiadomosc_vfs dump_core (s.mproc rmp))
      ∷ asynsend3 (s.mproc i).endpoint (cs_exit (s.mproc rmp).endpoint)
      ∷ []

  join :
      (rmp : ℕ) (s : Pm) (c d : Call)
      → let t = czeka rmp (record s { calls = s.calls ++ c ∷ [] }) in
        record t { calls = t.calls ++ d ∷ [] }
        ≡ record (czeka rmp s) { calls = s.calls ++ c ∷ d ∷ [] }
  unfolding set_flags modify_proc
  join rmp s c d = rw append_assoc

  exit_powiadom_lem :
      (rmp i : ℕ) (dump_core : Bool) (s : Pm)
      → szukaj (jest_uslugi cv_name) k.nr_procs 0 s.mproc ≡ some i
      → (s.mproc rmp).flags.vfs_call ≡ false
      → (s.mproc rmp).flags.priv_proc ≡ false
      → exit_powiadom k o rmp dump_core s
        ≡ some (record (czeka rmp s) { calls = s.calls ++ exit_reports rmp i dump_core s })
  unfolding exit_powiadom
  exit_powiadom_lem rmp i dump_core s found idle user =
      let m = wiadomosc_vfs dump_core (s.mproc rmp) in
      let t : Pm = record s { calls = s.calls ++ asynsend3 k.vfs_proc_nr m ∷ [] } in
      let here : szukaj (jest_uslugi cv_name) k.nr_procs 0 (czeka rmp t).mproc ≡ some i =
        szukaj-flags cv_name rmp k.nr_procs 0 t _ (λ g. refl) ∙ found in
      let is_user : ((czeka rmp t).mproc rmp).flags.priv_proc ≡ false =
        ap (λ f. f.priv_proc) (flags-flags rmp t (λ f. record f { vfs_call = true })) ∙ user in
      rw
        (
          exit_powiadom,
          tell_vfs_lem k answers rmp m s idle,
          tell_cv_lem k answers i (cs_exit (s.mproc rmp).endpoint) (czeka rmp t) here,
          is_user,
          endpoint-flags rmp i t (λ f. record f { vfs_call = true }),
        )
        (ap some (join rmp s (asynsend3 k.vfs_proc_nr m) _))

  stopped-field :
      {A : Type 0} (g : Mproc → A) (rmp i : ℕ) (s : Pm)
      → ((p : Mproc) → g (charge rmp s p) ≡ g p)
      → g ((stopped rmp s).mproc i) ≡ g (s.mproc i)
  stopped-field g rmp i s same = field-modify g (s.mproc rmp).parent i (charge rmp s) s same

  stopped-message :
      (rmp : ℕ) (dump_core : Bool) (s : Pm)
      → wiadomosc_vfs dump_core ((stopped rmp s).mproc rmp) ≡ wiadomosc_vfs dump_core (s.mproc rmp)
  stopped-message rmp dump_core s = stopped-field (wiadomosc_vfs dump_core) rmp rmp s λ p. refl

  -- The state once VFS and the server know.
  abbrev reported : ℕ → ℕ → Bool → Pm → Pm
  reported rmp i dump_core s = record (czeka rmp (stopped rmp s)) {
    calls = (stopped rmp s).calls ++ exit_reports rmp i dump_core (stopped rmp s);
  }

  exit_reports-stopped :
      (rmp i : ℕ) (dump_core : Bool) (s : Pm)
      → exit_reports rmp i dump_core (stopped rmp s) ≡ exit_reports rmp i dump_core s
  exit_reports-stopped rmp i dump_core s = rw (
    stopped-message rmp dump_core s,
    stopped-field (λ p. p.endpoint) rmp rmp s (λ p. refl),
    stopped-field (λ p. p.endpoint) rmp i s (λ p. refl),
  )

  -- What follows in `exit_proc` once VFS and the server know.
  abbrev pub the_rest : ℕ → ℤ → Bool → ℕ → Pm → Option Pm
  the_rest rmp status dump_core procgrp s = do
    s1 ← exit_oznacz k o rmp status dump_core s
    s2 ← osieroc_od k o rmp k.nr_procs 0 s1
    rozlacz k o procgrp s2

  -- How `exit_proc` begins.
  pub record ExitReported (rmp i : ℕ) (status : ℤ) (dump_core : Bool) (s : Pm) (r : Option Pm)
      : Type 0 where
    pub between : Pm
    pub goes_on : r ≡ the_rest rmp status (zrzut dump_core (s.mproc rmp)) (grupa k o rmp s) between
    pub sends :
        between.calls
        ≡ s.calls ++ (stops rmp s ++ exit_reports rmp i (zrzut dump_core (s.mproc rmp)) s)
    pub waits : (between.mproc rmp).flags.vfs_call ≡ true

  -- Before anything else is done about a user process that ends, before its parent is told and its
  -- children pass to INIT, PM has asked for its times, stopped it, told VM, and sent two messages in
  -- this order: to VFS that the process ended, or that a core is to be dumped, and to the server
  -- `cv` CS_EXIT with the endpoint of the process, which then waits for VFS. The conditions: the
  -- kernel takes every call, `cv` is the first process of that name, the process is neither INIT
  -- nor VFS, has no alarm, and waits for no reply of VFS.
  pub exit_proc-ExitReported :
      (rmp i : ℕ) (status : ℤ) (dump_core : Bool) (s : Pm)
      → szukaj (jest_uslugi cv_name) k.nr_procs 0 s.mproc ≡ some i
      → (s.mproc rmp).flags.alarm_on ≡ false
      → (s.mproc rmp).flags.vfs_call ≡ false
      → (s.mproc rmp).flags.priv_proc ≡ false
      → (s.mproc rmp).endpoint ≢ k.init_proc_nr
      → (s.mproc rmp).endpoint ≢ k.vfs_proc_nr
      → ExitReported rmp i status dump_core s (exit_proc k o rmp status dump_core s)
  unfolding exit_proc exit_dalej
  exit_proc-ExitReported rmp i status dump_core s found quiet idle user not_init not_vfs =
      let dump = zrzut dump_core (s.mproc rmp) in
      let t = stopped rmp s in
      let sent =
        exit_powiadom_lem rmp i dump t
          (szukaj-modify (jest_uslugi cv_name) (s.mproc rmp).parent k.nr_procs 0 (charge rmp s) s
              (λ p. refl)
            ∙ found)
          (stopped-field (λ p. p.flags.vfs_call) rmp rmp s (λ p. refl) ∙ idle)
          (stopped-field (λ p. p.flags.priv_proc) rmp rmp s (λ p. refl) ∙ user) in
      record {
        between = reported rmp i dump s;
        goes_on = rw (
          exit_proc,
          exit_zatrzymaj_lem rmp s quiet,
          ==_ne (s.mproc rmp).endpoint k.init_proc_nr not_init,
          ==_ne (s.mproc rmp).endpoint k.vfs_proc_nr not_vfs,
          exit_dalej,
          sent,
        );
        sends =
            ap (λ cs. (s.calls ++ stops rmp s) ++ cs) (exit_reports-stopped rmp i dump s)
            ∙ append_assoc s.calls (stops rmp s) (exit_reports rmp i dump s);
        waits = ap (λ f. f.vfs_call) (flags-flags rmp t (λ f. record f { vfs_call = true }));
      }
