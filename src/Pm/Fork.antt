-- ===== src/Pm/Fork.antt =====
-- projekt/servers/pm/forkexit.c: how a process is made, by `do_fork` and by `do_srv_fork`.
use minix_server_of_mutex_an.Base.{
  ℕ, zero, suc, ◌+◌, ◌-◌, ◌%◌, Bool, true, false, not, ◌&&◌, ◌||◌, Option, none, some, ℤ, pos,
  equals, leb, ◌==◌, if◌then◌else◌, ◌>>=◌,
}
use minix_server_of_mutex_an.Pm.{
  Flags, Mproc, Notice, pm_fork, pm_srv_fork, vm_fork, Pm, Kernel, modify_proc, call,
}
use minix_server_of_mutex_an.Pm.Utility.{get_free_pid, tell_vfs}
use minix_server_of_mutex_an.Pm.Signal.{Other, setreply, sig_proc}
use minix_server_of_mutex_an.Pm.Children.{no_flags}

-- Slots that only the superuser gets.
abbrev pub last_few : ℕ
last_few = 2

-- The test for a full table.
abbrev pub pelna : Kernel → Pm → Bool
pelna k s =
    s.procs_in_use == k.nr_procs
    || (leb (k.nr_procs - last_few) s.procs_in_use && not ((s.mproc s.mp).effuid == 0))

-- The loop for a slot behind `next_child`, with the rounds that are left: `none` is the panic behind
-- the loop, once `n` exceeds the `nr_procs` rounds that it begins with.
unfoldable pub szukaj_slotu : ℕ → ℕ → ℕ → (ℕ → Mproc) → Option ℕ
szukaj_slotu zero nr_procs next_child table = none
szukaj_slotu (suc r) nr_procs next_child table =
    let again = szukaj_slotu r nr_procs ((next_child + 1) % nr_procs) table in
    if (table ((next_child + 1) % nr_procs)).flags.in_use
    then again
    else some ((next_child + 1) % nr_procs)

-- The loop, and the test of its result.
unfoldable pub wolny_slot : Kernel → ℕ → Pm → Option ℕ
unfolding szukaj_slotu
wolny_slot k next_child s = do
  c ← szukaj_slotu k.nr_procs k.nr_procs next_child s.mproc
  if leb k.nr_procs c || (s.mproc c).flags.in_use then none else some c

-- The child that is not traced has no tracer and no signals for one.
abbrev pub bez_sladu : Kernel → Mproc → Mproc
bez_sladu k p =
    if p.to_tracefork then p else record p { tracer = k.no_tracer; sigtrace = λ _. false }

-- A copy of the parent, with the parent's slot.
abbrev pub kopia : Kernel → ℕ → Mproc → Mproc
kopia k who_p p = bez_sladu k (record p { parent = who_p })

-- PM schedules what a system process forks: `none` is the assertion that it has no scheduler.
abbrev pub przydziel : Kernel → Mproc → Option Mproc
przydziel k p =
    if p.flags.priv_proc
    then (if p.scheduler == k.none_ep
        then some (record p { scheduler = k.sched_proc_nr })
        else none)
    else some p

-- `mp_flags &= (IN_USE|DELAY_CALL|TAINTED)`
abbrev pub dziedziczone : Flags → Flags
dziedziczone f = record no_flags {
  in_use = f.in_use;
  delay_call = f.delay_call;
  tainted = f.tainted;
}

-- `mp_flags &= (IN_USE|PRIV_PROC|DELAY_CALL)`
abbrev pub dziedziczone_srv : Flags → Flags
dziedziczone_srv f = record no_flags {
  in_use = f.in_use;
  priv_proc = f.priv_proc;
  delay_call = f.delay_call;
}

-- What is reset in the child; `mp_interval` has no other timers than the `NR_ITIMERS` of the loop.
abbrev pub wyzeruj : (Flags → Flags) → ℕ → Mproc → Mproc
wyzeruj keep child_ep p = record p {
  flags = keep p.flags;
  child_utime = 0;
  child_stime = 0;
  exitstatus = pos 0;
  sigstatus = 0;
  endpoint = child_ep;
  interval = λ _. 0;
}

-- The user and the group that RS gives a service.
abbrev pub ustaw_ids : ℕ → ℕ → Mproc → Mproc
ustaw_ids uid gid p = record p { realuid = uid; effuid = uid; realgid = gid; effgid = gid }

module _ (k : Kernel) (o : Other) where
  -- The slot `c` becomes the process `child`.
  abbrev pub zajmij : ℕ → Mproc → Pm → Pm
  zajmij c child s =
      let s1 = modify_proc c (λ _. child) s in record s1 { procs_in_use = s.procs_in_use + 1 }

  -- A number for the child in the slot `c`: `next_pid` keeps it.
  unfoldable pub nadaj_pid : ℕ → Pm → Option Pm
  unfolding get_free_pid modify_proc
  nadaj_pid c s = do
    n ← get_free_pid k.nr_pids k k.nr_pids s.next_pid s
    some (let s1 = modify_proc c (λ p. record p { pid = n }) s in record s1 { next_pid = n })

  -- The tracer, if any, learns of the child.
  unfoldable pub powiadom_sledzacego : ℕ → Pm → Option Pm
  unfolding sig_proc
  powiadom_sledzacego c s =
      if not ((s.mproc c).tracer == k.no_tracer)
      then sig_proc k o c k.sigstop true false s
      else some s

  -- From the number on: VFS and the tracer are told, by a notice on the parent and the child.
  unfoldable pub ozyw : (Mproc → Mproc → Notice) → ℕ → Pm → Option Pm
  unfolding nadaj_pid tell_vfs powiadom_sledzacego
  ozyw notice c s = do
    s1 ← nadaj_pid c s
    s2 ← tell_vfs k c (notice (s1.mproc s1.mp) (s1.mproc c)) s1
    powiadom_sledzacego c s2

  abbrev pub wiadomosc_fork : Mproc → Mproc → Notice
  wiadomosc_fork p child = pm_fork child.endpoint p.endpoint child.pid

  abbrev pub wiadomosc_srv_fork : ℕ → ℕ → Mproc → Mproc → Notice
  wiadomosc_srv_fork uid gid p child = pm_srv_fork child.endpoint p.endpoint child.pid uid gid

  -- `do_fork` once VM made the child in the slot `c`.
  unfoldable pub fork_dalej : ℕ → ℕ → Pm → Option (ℤ × Pm)
  unfolding modify_proc ozyw
  fork_dalej child_ep c s = do
    child ← przydziel k (kopia k s.who_p (s.mproc s.mp))
    s1 ← ozyw wiadomosc_fork c (zajmij c (wyzeruj dziedziczone child_ep child) s)
    some (k.suspend, s1)

  -- `do_fork` with its slot.
  unfoldable pub fork_slot : ℕ → Pm → Option (ℤ × Pm)
  unfolding fork_dalej
  fork_slot c s =
      let parent_ep = (s.mproc s.mp).endpoint in
      let (r, s1) = call k (vm_fork parent_ep c) s in
      if equals r k.ok then fork_dalej (k.child_ep s.calls parent_ep c) c s1 else some (r, s1)

  -- `do_fork`
  unfoldable pub do_fork : Pm → Option (ℤ × Pm)
  unfolding wolny_slot fork_slot
  do_fork s =
      if pelna k s
      then some (k.eagain, s)
      else do c ← wolny_slot k s.next_child s; fork_slot c (record s { next_child = c })

  -- `do_srv_fork` once VM made the child in the slot `c`: the process begins at once.
  unfoldable pub srv_fork_dalej : ℕ → ℕ → ℕ → ℕ → Pm → Option (ℤ × Pm)
  unfolding modify_proc ozyw setreply
  srv_fork_dalej uid gid child_ep c s = do
    s1 ← ozyw (wiadomosc_srv_fork uid gid) c (
        zajmij c
          (ustaw_ids uid gid (wyzeruj dziedziczone_srv child_ep (kopia k s.who_p (s.mproc s.mp))))
          s)
    s2 ← setreply k c k.ok s1
    some (pos (s2.mproc c).pid, s2)

  -- `do_srv_fork` with its slot.
  unfoldable pub srv_fork_slot : ℕ → ℕ → ℕ → Pm → Option (ℤ × Pm)
  unfolding srv_fork_dalej
  srv_fork_slot uid gid c s =
      let parent_ep = (s.mproc s.mp).endpoint in
      let (r, s1) = call k (vm_fork parent_ep c) s in
      if equals r k.ok
      then srv_fork_dalej uid gid (k.child_ep s.calls parent_ep c) c s1
      else some (r, s1)

  -- `do_srv_fork`, with the user and the group of the message.
  unfoldable pub do_srv_fork : ℕ → ℕ → Pm → Option (ℤ × Pm)
  unfolding wolny_slot srv_fork_slot
  do_srv_fork uid gid s =
      if not ((s.mproc s.mp).endpoint == k.rs_proc_nr)
      then some (k.eperm, s)
      else if pelna k s
      then some (k.eagain, s)
      else (do
        c ← wolny_slot k s.srv_next_child s
        srv_fork_slot uid gid c (record s { srv_next_child = c }))
