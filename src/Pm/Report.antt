-- ===== src/Pm/Report.antt =====
-- How the process manager tells the server of mutexes that a signal interrupts a process:
-- `unpause` of projekt/servers/pm/signal.c and `tell_cv` of projekt/servers/pm/utility.c.
use minix_server_of_mutex_an.Base.{
  ℕ, zero, suc, ◌≡◌, ◌≢◌, refl, ap, ◌∙◌, true, false, Option, none, some, List, [], ◌∷◌, ◌++◌,
  equals_refl, equals_ne, ◌==◌, if◌then◌else◌, Bool-cases, Option-cases, inl, inr, ==_refl,
  append_assoc, append-nil,
}
use minix_server_of_mutex_an.Pm.{
  Flags, Mproc, Call, sys_delay_stop, asynsend3, vm_notify_sig, pm_unpause, cs_eintr, Notice, Pm,
  Kernel, modify_proc, set_flags, must,
}
use minix_server_of_mutex_an.Pm.Utility.{
  szukaj, jest_uslugi, cv_name, ipc_name, tell_vfs, tell_cv, vm_notify_sig_wrapper,
}
use minix_server_of_mutex_an.Pm.Signal.{ma_czekac, unpause_vfs, unpause_stop, unpause}

-- The notice to VM, if there is a server of that name.
abbrev pub do_vm : Kernel → ℕ → (ℕ → Mproc) → List Call
do_vm k ep table = elim (szukaj (jest_uslugi ipc_name) k.nr_procs 0 table) [
  | none ↦ []
  | some i ↦ vm_notify_sig ep (table i).endpoint ∷ []
]

-- The search for a server does not look at flags other than `in_use`.
pub szukaj-flags :
    (name : List ℕ) (rmp r i : ℕ) (s : Pm) (f : Flags → Flags)
    → ((g : Flags) → (f g).in_use ≡ g.in_use)
    → szukaj (jest_uslugi name) r i (set_flags rmp f s).mproc
      ≡ szukaj (jest_uslugi name) r i s.mproc
unfolding set_flags modify_proc
szukaj-flags name rmp zero i s f same = refl
szukaj-flags name rmp (suc r) i s f same = elim (Bool-cases (i == rmp)) [
  | inl e ↦ simp (e, same (s.mproc i).flags, szukaj-flags name rmp r (suc i) s f same)
  | inr e ↦ simp (e, szukaj-flags name rmp r (suc i) s f same)
]

pub endpoint-flags :
    (rmp i : ℕ) (s : Pm) (f : Flags → Flags)
    → ((set_flags rmp f s).mproc i).endpoint ≡ (s.mproc i).endpoint
unfolding set_flags modify_proc
endpoint-flags rmp i s f = elim (Bool-cases (i == rmp)) [ inl e ↦ simp e | inr e ↦ simp e ]

pub flags-flags :
    (rmp : ℕ) (s : Pm) (f : Flags → Flags)
    → ((set_flags rmp f s).mproc rmp).flags ≡ f (s.mproc rmp).flags
unfolding set_flags modify_proc
flags-flags rmp s f = simp (==_refl rmp)

calls-flags : (rmp : ℕ) (s : Pm) (f : Flags → Flags) → (set_flags rmp f s).calls ≡ s.calls
unfolding set_flags modify_proc
calls-flags rmp s f = refl

module _ (k : Kernel) (answers : (cs : List Call) (c : Call) → k.answer cs c ≡ k.ok) where
  pub must_ok : (c : Call) (s : Pm) → must k c s ≡ some (record s { calls = s.calls ++ c ∷ [] })
  unfolding must
  must_ok c s = simp (answers s.calls c, equals_refl k.ok)

  pub tell_vfs_lem :
      (rmp : ℕ) (m : Notice) (s : Pm)
      → (s.mproc rmp).flags.vfs_call ≡ false
      → tell_vfs k rmp m s
        ≡ some (
            set_flags rmp
              (λ f. record f { vfs_call = true })
              (record s { calls = s.calls ++ asynsend3 k.vfs_proc_nr m ∷ [] }))
  unfolding tell_vfs
  tell_vfs_lem rmp m s idle = simp (idle, must_ok)

  pub tell_cv_lem :
      (i : ℕ) (m : Notice) (s : Pm)
      → szukaj (jest_uslugi cv_name) k.nr_procs 0 s.mproc ≡ some i
      → tell_cv k m s ≡ some (record s { calls = s.calls ++ asynsend3 (s.mproc i).endpoint m ∷ [] })
  unfolding tell_cv
  tell_cv_lem i m s found = rw (found, tell_cv) (must_ok (asynsend3 (s.mproc i).endpoint m) s)

  pub vm_notify_sig_wrapper_lem :
      (ep : ℕ) (s : Pm)
      → vm_notify_sig_wrapper k ep s ≡ record s { calls = s.calls ++ do_vm k ep s.mproc }
  unfolding vm_notify_sig_wrapper
  vm_notify_sig_wrapper_lem ep s =
      elim (Option-cases (szukaj (jest_uslugi ipc_name) k.nr_procs 0 s.mproc)) [
        | inl absent ↦ rw (absent, vm_notify_sig_wrapper, do_vm, append-nil)
        | inr (j, found) ↦ rw (found, vm_notify_sig_wrapper, do_vm)
      ]

  pub do_vm-flags :
      (ep rmp : ℕ) (s : Pm) (f : Flags → Flags)
      → ((g : Flags) → (f g).in_use ≡ g.in_use)
      → do_vm k ep (set_flags rmp f s).mproc ≡ do_vm k ep s.mproc
  do_vm-flags ep rmp s f same =
      elim (Option-cases (szukaj (jest_uslugi ipc_name) k.nr_procs 0 s.mproc)) [
        | inl absent ↦ rw (szukaj-flags ipc_name rmp k.nr_procs 0 s f same, do_vm, absent)
        | inr (j, found) ↦ rw (
          szukaj-flags ipc_name rmp k.nr_procs 0 s f same,
          do_vm,
          found,
          endpoint-flags rmp j s f,
        )
      ]

  -- What PM sends about a process that a signal interrupts, where the server is in the slot `i`.
  abbrev pub reports : ℕ → ℕ → Pm → List Call
  reports rmp i s =
      asynsend3 k.vfs_proc_nr (pm_unpause (s.mproc rmp).endpoint)
      ∷ asynsend3 (s.mproc i).endpoint (cs_eintr (s.mproc rmp).endpoint)
      ∷ do_vm k (s.mproc rmp).endpoint s.mproc

  abbrev pub czeka_na_vfs : ℕ → Pm → Pm
  czeka_na_vfs rmp = set_flags rmp (λ f. record f { vfs_call = true })

  flatten :
      (rmp : ℕ) (s : Pm) (c d : Call) (ds : List Call)
      → let t = czeka_na_vfs rmp (record s { calls = s.calls ++ c ∷ [] }) in
        record t { calls = (t.calls ++ d ∷ []) ++ ds }
        ≡ record (czeka_na_vfs rmp s) { calls = s.calls ++ c ∷ d ∷ ds }
  unfolding set_flags modify_proc
  flatten rmp s c d ds = rw (append_assoc, append_assoc)

  unpause_vfs_lem :
      (rmp i : ℕ) (s : Pm)
      → szukaj (jest_uslugi cv_name) k.nr_procs 0 s.mproc ≡ some i
      → (s.mproc rmp).flags.vfs_call ≡ false
      → unpause_vfs k rmp s
        ≡ some (record (czeka_na_vfs rmp s) { calls = s.calls ++ reports rmp i s })
  unfolding unpause_vfs
  unpause_vfs_lem rmp i s found idle =
      let c = asynsend3 k.vfs_proc_nr (pm_unpause (s.mproc rmp).endpoint) in
      let t = record s { calls = s.calls ++ c ∷ [] } in
      let here : szukaj (jest_uslugi cv_name) k.nr_procs 0 (czeka_na_vfs rmp t).mproc ≡ some i =
        szukaj-flags cv_name rmp k.nr_procs 0 t _ (λ g. refl) ∙ found in
      rw
        (
          tell_vfs_lem rmp (pm_unpause (s.mproc rmp).endpoint) s idle,
          tell_cv_lem i (cs_eintr (s.mproc rmp).endpoint) (czeka_na_vfs rmp t) here,
          endpoint-flags rmp i t (λ f. record f { vfs_call = true }),
          vm_notify_sig_wrapper_lem,
          do_vm-flags (s.mproc rmp).endpoint rmp t (λ f. record f { vfs_call = true }) (λ g. refl),
        )
        (ap some (flatten rmp s _ _ _))

  reports-flags :
      (rmp i : ℕ) (s : Pm) (f : Flags → Flags)
      → ((g : Flags) → (f g).in_use ≡ g.in_use)
      → reports rmp i (set_flags rmp f s) ≡ reports rmp i s
  reports-flags rmp i s f same = rw (
    endpoint-flags rmp rmp s f,
    endpoint-flags rmp i s f,
    do_vm-flags (s.mproc rmp).endpoint rmp s f same,
  )

  -- The call that stops the process, unless it is stopped already.
  abbrev pub stops : ℕ → Pm → List Call
  stops rmp s =
      if (s.mproc rmp).flags.pm_sig_pending then [] else sys_delay_stop (s.mproc rmp).endpoint ∷ []

  -- The state once the kernel was asked to stop the process, and once that is noted.
  abbrev delayed : ℕ → Pm → Pm
  delayed rmp s = record s { calls = s.calls ++ sys_delay_stop (s.mproc rmp).endpoint ∷ [] }

  abbrev stopped_state : ℕ → Pm → Pm
  stopped_state rmp s = set_flags rmp (λ f. record f { pm_sig_pending = true }) (delayed rmp s)

  -- What `unpause` leaves behind: the calls it made, and the state of the process.
  pub record Reported (rmp i : ℕ) (s : Pm) (r : Option Pm) : Type 0 where
    pub after : Pm
    pub returns : r ≡ some after
    pub sends : after.calls ≡ s.calls ++ (stops rmp s ++ reports rmp i s)
    pub waits : (after.mproc rmp).flags.vfs_call ≡ true
    pub stopped : (after.mproc rmp).flags.pm_sig_pending ≡ true

  -- A signal for a process that waits neither in PM nor for VFS makes PM stop the process, unless
  -- it is stopped, and send three messages in this order: to VFS that the call is interrupted, to
  -- the server `cv` CS_EINTR with the endpoint of the process, and to VM if the server `ipc` runs.
  -- The process then waits for VFS. The conditions: the kernel takes every call, `cv` is the first
  -- process of that name, and no delayed stop is under way.
  pub unpause-Reported :
      (rmp i : ℕ) (s : Pm)
      → k.ok ≢ k.ebusy
      → szukaj (jest_uslugi cv_name) k.nr_procs 0 s.mproc ≡ some i
      → (s.mproc rmp).flags.delay_call ≡ false
      → ma_czekac (s.mproc rmp).flags ≡ false
      → (s.mproc rmp).flags.vfs_call ≡ false
      → Reported rmp i s (unpause k rmp s)
  unfolding unpause unpause_stop
  unpause-Reported rmp i s apart found prompt runs idle =
      elim (Bool-cases (s.mproc rmp).flags.pm_sig_pending) [
        | inl is_stopped ↦ record {
          after = record (czeka_na_vfs rmp s) { calls = s.calls ++ reports rmp i s };
          returns = simp (prompt, runs, is_stopped) (unpause_vfs_lem rmp i s found idle);
          sends = rw is_stopped;
          waits = ap (λ f. f.vfs_call) (flags-flags rmp s _);
          stopped = ap (λ f. f.pm_sig_pending) (flags-flags rmp s _) ∙ is_stopped;
        }
        | inr is_running ↦
            let sent =
              unpause_vfs_lem rmp i (stopped_state rmp s)
                (szukaj-flags cv_name rmp k.nr_procs 0 (delayed rmp s) _ (λ g. refl) ∙ found)
                (ap (λ f. f.vfs_call) (flags-flags rmp (delayed rmp s) _) ∙ idle) in
            record {
              after = record (czeka_na_vfs rmp (stopped_state rmp s)) {
                calls = (stopped_state rmp s).calls ++ reports rmp i (stopped_state rmp s);
              };
              returns =
                  simp
                    (
                      prompt,
                      runs,
                      is_running,
                      answers,
                      equals_ne k.ok k.ebusy apart,
                      equals_refl k.ok,
                    )
                    sent;
              sends = rw (
                is_running,
                calls-flags rmp (delayed rmp s) (λ f. record f { pm_sig_pending = true }),
                reports-flags rmp i (delayed rmp s) (λ f. record f { pm_sig_pending = true })
                    (λ g. refl),
                append_assoc,
              );
              waits = ap (λ f. f.vfs_call) (flags-flags rmp (stopped_state rmp s) _);
              stopped =
                  ap (λ f. f.pm_sig_pending) (flags-flags rmp (stopped_state rmp s) _)
                  ∙ ap (λ f. f.pm_sig_pending) (flags-flags rmp (delayed rmp s) _);
            }
      ]
