-- ===== src/Pm/Vfs.antt =====
-- `handle_vfs_reply` of projekt/servers/pm/main.c: VFS has done what PM asked it to do for a process.
use minix_server_of_mutex_an.Base.{
  ℕ, true, false, not, ◌&&◌, Option, none, some, ℤ, pos, negsuc, equals, ◌==◌, if◌then◌else◌, ◌>>=◌,
}
use Prim.Native.Nat.{bit_or}
use minix_server_of_mutex_an.Pm.{sys_abort, Pm, Kernel, modify_proc, set_flags, call, is_alive}
use minix_server_of_mutex_an.Pm.Utility.{pm_isokendpt}
use minix_server_of_mutex_an.Pm.Signal.{Other, setreply}
use minix_server_of_mutex_an.Pm.Check.{restart_sigs}
use minix_server_of_mutex_an.Pm.Exit.{exit_restart}

-- The replies of VFS that are about a process, with what their messages hold besides it.
pub data VfsReply : Type 0 where
  setuid_reply setgid_reply setgroups_reply setsid_reply exit_reply fork_reply : VfsReply
  srv_fork_reply unpause_reply : VfsReply
  -- `PM_STATUS`, `PM_PC` and `PM_NEWSP`
  exec_reply : ℤ → ℕ → ℕ → VfsReply
  -- `PM_STATUS` and `PM_TRACED_PROC`
  core_reply : ℤ → ℕ → VfsReply

-- The functions of MINIX that the main loop calls.
pub record System : Type 0 where
  -- `exec_restart(rmp, result, pc, sp)` of exec.c
  pub exec_restart : ℕ → ℤ → ℕ → ℕ → Pm → Option Pm
  -- `sched_start_user(ep, rmp)` of schedule.c
  pub sched_start_user : ℕ → ℕ → Pm → ℤ × Pm
  -- `expire_timers(now)` of the timers' library
  pub expire_timers : ℕ → Pm → Option Pm
  -- `do_getsysinfo` of misc.c
  pub do_getsysinfo : Pm → Option (ℤ × Pm)

module _ (k : Kernel) (y : System) (o : Other) where
  -- A fork whose child the scheduler does not take.
  unfoldable pub fork_nieudany : ℕ → Pm → Option Pm
  unfolding modify_proc setreply
  fork_nieudany rmp s = do
    s1 ←
        o.exit_proc rmp (negsuc 0) false
          (modify_proc rmp (λ p. record p { scheduler = k.none_ep }) s)
    setreply k (s1.mproc rmp).parent (negsuc 0) s1

  -- A fork that is done: the child and the parent go on.
  unfoldable pub fork_udany : ℕ → Pm → Option Pm
  unfolding setreply
  fork_udany rmp s = do
    s1 ← setreply k rmp k.ok s
    setreply k (s1.mproc rmp).parent (pos (s1.mproc rmp).pid) s1

  -- The scheduler's answer, and the state behind it.
  abbrev pub uruchom : ℕ → Pm → ℤ × Pm
  uruchom rmp s =
      if not ((s.mproc rmp).scheduler == k.kernel) && not ((s.mproc rmp).scheduler == k.none_ep)
      then y.sched_start_user (s.mproc rmp).scheduler rmp s
      else (k.ok, s)

  unfoldable pub fork_gotowy : ℕ → Pm → Option Pm
  unfolding fork_nieudany fork_udany
  fork_gotowy rmp s =
      let (r, s1) = uruchom rmp s in
      if not (equals r k.ok) then fork_nieudany rmp s1 else fork_udany rmp s1

  -- A core was dumped: of the process that ends, or for its tracer.
  unfoldable pub zrzucony : ℕ → ℕ → ℤ → ℕ → Pm → Option Pm
  unfolding modify_proc exit_restart setreply
  zrzucony rmp proc_e status traced s =
      let s1 =
        if equals status k.ok
        then modify_proc rmp (λ p. record p { sigstatus = bit_or p.sigstatus k.dumped }) s
        else s in
      if proc_e == traced
      then exit_restart k o rmp true s1
      else setreply k rmp (pos (s1.mproc rmp).procgrp) s1

  -- The switch over the kind of the reply.
  unfoldable pub po_odpowiedzi : ℕ → ℕ → VfsReply → Pm → Option Pm
  unfolding setreply exit_restart zrzucony fork_gotowy set_flags
  po_odpowiedzi rmp proc_e setuid_reply s = setreply k rmp k.ok s
  po_odpowiedzi rmp proc_e setgid_reply s = setreply k rmp k.ok s
  po_odpowiedzi rmp proc_e setgroups_reply s = setreply k rmp k.ok s
  po_odpowiedzi rmp proc_e setsid_reply s = setreply k rmp (pos (s.mproc rmp).procgrp) s
  po_odpowiedzi rmp proc_e (exec_reply status pc sp) s = y.exec_restart rmp status pc sp s
  po_odpowiedzi rmp proc_e exit_reply s = exit_restart k o rmp false s
  po_odpowiedzi rmp proc_e (core_reply status traced) s = zrzucony rmp proc_e status traced s
  po_odpowiedzi rmp proc_e fork_reply s = fork_gotowy rmp s
  po_odpowiedzi rmp proc_e srv_fork_reply s = some s
  po_odpowiedzi rmp proc_e unpause_reply s =
      some (set_flags rmp (λ f. record f { unpaused = true }) s)

  -- `handle_vfs_reply` from the slot of the process on.
  unfoldable pub vfs_reply_slot : ℕ → ℕ → VfsReply → Pm → Option Pm
  unfolding set_flags po_odpowiedzi restart_sigs
  vfs_reply_slot rmp proc_e reply s =
      if not (s.mproc rmp).flags.vfs_call
      then none
      else if (s.mproc rmp).flags.unpaused
      then none
      else (do
        s1 ← po_odpowiedzi rmp proc_e reply (set_flags rmp (λ f. record f { vfs_call = false }) s)
        if is_alive (s1.mproc rmp) then restart_sigs k o rmp s1 else some s1)

  -- The slot that `pm_isokendpt` gives; a task is not a process in the table.
  unfoldable pub vfs_reply_numer : ℕ → VfsReply → Pm → ℤ × ℤ → Option Pm
  unfolding vfs_reply_slot
  vfs_reply_numer proc_e reply s (r, negsuc n) = none
  vfs_reply_numer proc_e reply s (r, pos proc_n) =
      if not (equals r k.ok) then none else vfs_reply_slot proc_n proc_e reply s

  -- `handle_vfs_reply`: a reply about the process `proc_e`, or to the request to reboot.
  unfoldable pub handle_vfs_reply : Option (ℕ × VfsReply) → Pm → Option Pm
  unfolding vfs_reply_numer
  handle_vfs_reply none s = some (call k sys_abort s).1
  handle_vfs_reply (some (proc_e, reply)) s =
      vfs_reply_numer proc_e reply s (pm_isokendpt k proc_e s)
