-- ===== src/Pm/Exit.antt =====
-- projekt/servers/pm/forkexit.c: how a process ends.
use minix_server_of_mutex_an.Base.{
  ℕ, zero, suc, ◌+◌, ◌%◌, ◌-◌, Bool, true, false, not, ◌&&◌, Option, none, some, ℤ, pos, negsuc,
  ltb, ◌==◌, if◌then◌else◌, ◌>>=◌,
}
use minix_server_of_mutex_an.Pm.{
  Flags, Mproc, Notice, pm_exit, pm_dumpcore, cs_exit, sys_stop, sys_times, sys_clear, sys_kill,
  vm_willexit, vm_exit, sched_stop, Pm, Kernel, modify_proc, call, must,
}
use minix_server_of_mutex_an.Pm.Utility.{tell_vfs, tell_cv, vm_notify_sig_wrapper}
use minix_server_of_mutex_an.Pm.Signal.{Other, setreply}
use minix_server_of_mutex_an.Pm.Check.{check_sig}
use minix_server_of_mutex_an.Pm.Children.{no_flags, check_parent, zombify, tracer_died, cleanup}

-- `(char) n`, for a `char` of eight bits with a sign.
abbrev pub bajt_ze_znakiem : ℕ → ℤ
bajt_ze_znakiem n = if ltb n 128 then pos n else negsuc (255 - n)

abbrev pub char : ℤ → ℤ
char (pos n) = bajt_ze_znakiem (n % 256)
char (negsuc n) = bajt_ze_znakiem (255 - n % 256)

-- `mp_flags &= (IN_USE|VFS_CALL|PRIV_PROC|TRACE_EXIT); mp_flags |= EXITING;`
abbrev pub konczy : Flags → Flags
konczy f = record no_flags {
  in_use = f.in_use;
  vfs_call = f.vfs_call;
  priv_proc = f.priv_proc;
  trace_exit = f.trace_exit;
  exiting = true;
}

-- The times of a process, for its parent's account.
abbrev pub dolicz : ℕ × ℕ → Mproc → Mproc → Mproc
dolicz (user, sys) p q = record q {
  child_utime = q.child_utime + (user + p.child_utime);
  child_stime = q.child_stime + (sys + p.child_stime);
}

-- What VFS is told of the end.
abbrev pub wiadomosc_vfs : Bool → Mproc → Notice
wiadomosc_vfs dump_core p =
    if dump_core then pm_dumpcore p.endpoint p.sigstatus p.name else pm_exit p.endpoint

-- Whether a core is dumped: not for set-uid programs, nor for system processes.
abbrev pub zrzut : Bool → Mproc → Bool
zrzut dump_core p = dump_core && (p.realuid == p.effuid && not p.flags.priv_proc)

module _ (k : Kernel) (o : Other) where
  -- `exit_proc` up to the notice to VM: the alarm, the account, and the kernel.
  unfoldable pub exit_zatrzymaj : ℕ → Pm → Option Pm
  unfolding modify_proc must vm_notify_sig_wrapper
  exit_zatrzymaj rmp s = do
    s1 ← if (s.mproc rmp).flags.alarm_on then o.set_alarm rmp 0 s else some s
    s2 ← must k (sys_times (s.mproc rmp).endpoint) s1
    s3 ← must k (sys_stop (s.mproc rmp).endpoint) (
        modify_proc (s2.mproc rmp).parent
          (dolicz (k.times s1.calls (s.mproc rmp).endpoint) (s2.mproc rmp)) s2)
    s4 ← must k (vm_willexit (s.mproc rmp).endpoint) s3
    some (vm_notify_sig_wrapper k (s4.mproc rmp).endpoint s4)

  -- The messages to VFS and to the server of mutexes, and the end of a system process.
  unfoldable pub exit_powiadom : ℕ → Bool → Pm → Option Pm
  unfolding tell_vfs tell_cv must
  exit_powiadom rmp dump_core s = do
    s1 ← tell_vfs k rmp (wiadomosc_vfs dump_core (s.mproc rmp)) s
    s2 ← tell_cv k (cs_exit (s.mproc rmp).endpoint) s1
    if (s2.mproc rmp).flags.priv_proc
        then must k (sys_clear (s2.mproc rmp).endpoint) s2
        else some s2

  -- The slot is marked, and the parent is told unless a core is to be dumped first.
  unfoldable pub exit_oznacz : ℕ → ℤ → Bool → Pm → Option Pm
  unfolding modify_proc zombify
  exit_oznacz rmp exit_status dump_core s =
      let s1 =
        modify_proc rmp (λ p. record p { flags = konczy p.flags; exitstatus = char exit_status })
          s in
      if dump_core then some s1 else zombify k o rmp s1

  -- A child of the process that ended goes to INIT.
  unfoldable pub przygarnij : ℕ → ℕ → Pm → Option Pm
  unfolding modify_proc check_parent
  przygarnij proc_nr i s =
      if (s.mproc i).parent == proc_nr
      then (let s1 = modify_proc i (λ p. record p { parent = k.init_proc_nr }) s in
          if (s1.mproc i).flags.zombie then check_parent k o i true s1 else some s1)
      else some s

  -- One round of the loop over the children of the process in the slot `proc_nr`.
  unfoldable pub osieroc : ℕ → ℕ → Pm → Option Pm
  unfolding tracer_died przygarnij
  osieroc proc_nr i s = if not (s.mproc i).flags.in_use then some s else do
    s1 ← if (s.mproc i).tracer == proc_nr then tracer_died k o i s else some s
    przygarnij proc_nr i s1

  -- The loop from the slot `i` on, with the rounds that are left.
  unfoldable pub osieroc_od : ℕ → ℕ → ℕ → Pm → Option Pm
  unfolding osieroc
  osieroc_od proc_nr zero i s = some s
  osieroc_od proc_nr (suc r) i s = do s1 ← osieroc proc_nr i s; osieroc_od proc_nr r (suc i) s1

  -- A hangup to the process group `procgrp`, unless that is 0.
  unfoldable pub rozlacz : ℕ → Pm → Option Pm
  unfolding check_sig
  rozlacz zero s = some s
  rozlacz (suc n) s = do (r, s1) ← check_sig k o (negsuc n) (pos k.sighup) false s; some s1

  -- `exit_proc` from the message to VFS on.
  unfoldable pub exit_dalej : ℕ → ℤ → Bool → ℕ → Pm → Option Pm
  unfolding exit_powiadom exit_oznacz osieroc_od rozlacz
  exit_dalej rmp exit_status dump_core procgrp s = do
    s1 ← exit_powiadom rmp dump_core s
    s2 ← exit_oznacz rmp exit_status dump_core s1
    s3 ← osieroc_od rmp k.nr_procs 0 s2
    rozlacz procgrp s3

  -- `procgrp` of `exit_proc`
  abbrev pub grupa : ℕ → Pm → ℕ
  grupa rmp s = if (s.mproc rmp).pid == (s.mproc s.mp).procgrp then (s.mproc s.mp).procgrp else 0

  -- `exit_proc`
  unfoldable pub exit_proc : ℕ → ℤ → Bool → Pm → Option Pm
  unfolding exit_zatrzymaj exit_dalej
  exit_proc rmp exit_status dump_core s = do
    s1 ← exit_zatrzymaj rmp s
    if (s.mproc rmp).endpoint == k.init_proc_nr
        then some s1
        else if (s.mproc rmp).endpoint == k.vfs_proc_nr
        then none
        else exit_dalej rmp exit_status (zrzut dump_core (s.mproc rmp)) (grupa rmp s) s1

  -- `do_exit`
  unfoldable pub do_exit : ℤ → Pm → Option (ℤ × Pm)
  unfolding exit_proc
  do_exit status s =
      if (s.mproc s.mp).flags.priv_proc
      then some (k.suspend, (call k (sys_kill (s.mproc s.mp).endpoint k.sigkill) s).1)
      else (do s1 ← exit_proc s.mp status false s; some (k.suspend, s1))

  -- `exit_restart` after the notice to the parent: the process is destroyed.
  unfoldable pub exit_zniszcz : ℕ → Pm → Option Pm
  unfolding must setreply modify_proc cleanup
  exit_zniszcz rmp s = do
    s1 ←
        if (s.mproc rmp).flags.priv_proc
        then some s
        else must k (sys_clear (s.mproc rmp).endpoint) s
    s2 ← must k (vm_exit (s1.mproc rmp).endpoint) s1
    s3 ←
        if (s2.mproc rmp).flags.trace_exit
        then setreply k (s2.mproc rmp).tracer k.ok
            (modify_proc (s2.mproc rmp).tracer (λ q. record q { reply_trace = pos 0 }) s2)
        else some s2
    some (if (s3.mproc rmp).flags.told_parent then cleanup rmp s3 else s3)

  -- `exit_restart`
  unfoldable pub exit_restart : ℕ → Bool → Pm → Option Pm
  unfolding modify_proc zombify exit_zniszcz
  exit_restart rmp dump_core s =
      let s1 = (call k (sched_stop (s.mproc rmp).scheduler (s.mproc rmp).endpoint) s).1 in
      let s2 = modify_proc rmp (λ p. record p { scheduler = k.none_ep }) s1 in
      do s3 ← if dump_core then zombify k o rmp s2 else some s2; exit_zniszcz rmp s3

-- The functions that belong to MINIX.
pub record Minix : Type 0 where
  pub set_alarm : ℕ → ℕ → Pm → Option Pm
  pub stop_proc : ℕ → ℕ → Pm → Option Pm
  pub check_vtimer : ℕ → ℕ → Pm → Option Pm

-- `exit_proc` and `sig_proc` call each other: a process that ends may end others. `other` lets
-- `fuel` ends of processes stand within each other.
unfoldable pub other : Kernel → Minix → ℕ → Other
unfolding exit_proc
other k x zero = record {
  exit_proc = λ rmp exit_status dump_core s. none;
  set_alarm = x.set_alarm;
  stop_proc = x.stop_proc;
  check_vtimer = x.check_vtimer;
}
other k x (suc fuel) = record {
  exit_proc = exit_proc k (other k x fuel);
  set_alarm = x.set_alarm;
  stop_proc = x.stop_proc;
  check_vtimer = x.check_vtimer;
}
