-- ===== src/Pm/Signal.antt =====
-- projekt/servers/pm/signal.c: how a signal reaches a process. The functions of other files that
-- these call are the parameter `o`, which `other` of Pm/Exit.antt fills.
use minix_server_of_mutex_an.Base.{
  ℕ, zero, suc, Bool, true, false, not, ◌&&◌, ◌||◌, Option, none, some, ◌==◌, leb, equals,
  if◌then◌else◌, ◌>>=◌, ◌-◌, ℤ, pos,
}
use minix_server_of_mutex_an.Pm.{
  Sigset, sigismember, sigaddset, sigdelset, sig_dfl, Sigmsg, Flags, Mproc, pm_unpause, cs_eintr,
  sigs_signal_received, sys_stop, sys_delay_stop, sys_resume, sys_kill, sys_sysctl_stacktrace,
  sys_sigsend, asynsend3, Pm, Kernel, modify_proc, set_flags, call, must, is_alive,
}
use minix_server_of_mutex_an.Pm.Utility.{tell_vfs, tell_cv, vm_notify_sig_wrapper}

pub record Other : Type 0 where
  -- `exit_proc(rmp, exit_status, dump_core)` of forkexit.c
  pub exit_proc : ℕ → ℤ → Bool → Pm → Option Pm
  -- `set_alarm(rmp, ticks)` of alarm.c
  pub set_alarm : ℕ → ℕ → Pm → Option Pm
  -- `stop_proc(rmp, signo)` of trace.c
  pub stop_proc : ℕ → ℕ → Pm → Option Pm
  -- `check_vtimer(proc_nr, signo)` of alarm.c
  pub check_vtimer : ℕ → ℕ → Pm → Option Pm

abbrev pub ma_czekac : Flags → Bool
ma_czekac f = f.paused || (f.waiting || f.sigsuspended)

-- `unpause` from `sys_delay_stop` on, where that succeeded or was not needed.
unfoldable pub unpause_vfs : Kernel → ℕ → Pm → Option Pm
unfolding tell_vfs tell_cv vm_notify_sig_wrapper
unpause_vfs k rmp s = do
  s1 ← tell_vfs k rmp (pm_unpause (s.mproc rmp).endpoint) s
  s2 ← tell_cv k (cs_eintr (s.mproc rmp).endpoint) s1
  some (vm_notify_sig_wrapper k (s.mproc rmp).endpoint s2)

-- `unpause` for a process that does not wait in PM and is not stopped yet.
unfoldable pub unpause_stop : Kernel → ℕ → Pm → Option Pm
unfolding unpause_vfs
unpause_stop k rmp s =
    let (r, s1) = call k (sys_delay_stop (s.mproc rmp).endpoint) s in
    if equals r k.ebusy
    then some (set_flags rmp (λ f. record f { delay_call = true }) s1)
    else if equals r k.ok
    then unpause_vfs k rmp (set_flags rmp (λ f. record f { pm_sig_pending = true }) s1)
    else none

unfoldable pub unpause : Kernel → ℕ → Pm → Option Pm
unfolding unpause_stop unpause_vfs
unpause k rmp s =
    if (s.mproc rmp).flags.delay_call
    then some s
    else if ma_czekac (s.mproc rmp).flags
    then (do
      s1 ← must k (sys_stop (s.mproc rmp).endpoint) s
      some (set_flags rmp (λ f. record f { unpaused = true }) s1))
    else if (s.mproc rmp).flags.pm_sig_pending
    then unpause_vfs k rmp s
    else unpause_stop k rmp s

-- The changes of `sig_send` to the masks of the process, before the kernel is asked.
abbrev pub sig_send_mask : ℕ → Mproc → Sigset
sig_send_mask signo p i =
    if (p.sigact signo).sa_nodefer
    then sigdelset signo (λ j. p.sigmask j || (p.sigact signo).sa_mask j) i
    else sigaddset signo (λ j. p.sigmask j || (p.sigact signo).sa_mask j) i

abbrev pub resethand : ℕ → Mproc → Mproc
resethand signo p =
    if (p.sigact signo).sa_resethand
    then record p {
      catch = sigdelset signo p.catch;
      sigact =
          λ i. if i == signo then record (p.sigact signo) { sa_handler = sig_dfl } else p.sigact i;
    }
    else p

unfoldable pub sig_send_prepare : ℕ → Mproc → Mproc
sig_send_prepare signo p = record (resethand signo p) {
  sigmask = sig_send_mask signo p;
  sigpending = sigdelset signo p.sigpending;
  ksigpending = sigdelset signo p.ksigpending;
}

abbrev pub sig_send_message : ℕ → Mproc → Sigmsg
sig_send_message signo p = record {
  sm_signo = signo;
  sm_mask = if p.flags.sigsuspended then p.sigmask2 else p.sigmask;
  sm_sighandler = (p.sigact signo).sa_handler;
  sm_sigreturn = p.sigreturn;
}

-- `setreply` of projekt/servers/pm/main.c
unfoldable pub setreply : Kernel → ℕ → ℤ → Pm → Option Pm
setreply k proc_nr result s =
    if leb k.nr_procs proc_nr
    then none
    else some (
        modify_proc proc_nr
          (λ p. record p { reply_res = result; flags = record p.flags { reply = true } }) s)

-- `sig_send` once the kernel has taken the signal: the end of a call that the process waits in.
unfoldable pub sig_send_interrupt : Kernel → ℕ → Pm → Option Pm
unfolding setreply
sig_send_interrupt k rmp s =
    if ma_czekac (s.mproc rmp).flags
    then setreply k rmp k.eintr
        (set_flags rmp (λ f. record f { paused = false; waiting = false; sigsuspended = false }) s)
    else some s

-- `sig_send` at its end: a process that was stopped just for the signal goes on.
unfoldable pub sig_send_resume : Kernel → ℕ → Pm → Option Pm
sig_send_resume k rmp s =
    if not (s.mproc rmp).flags.pm_sig_pending && (s.mproc rmp).flags.unpaused
    then must k (sys_resume (s.mproc rmp).endpoint)
        (set_flags rmp (λ f. record f { unpaused = false }) s)
    else some s

-- `sig_send`: whether the kernel could set up the handler.
unfoldable pub sig_send : Kernel → ℕ → ℕ → Pm → Option (Bool × Pm)
unfolding sig_send_prepare sig_send_interrupt sig_send_resume
sig_send k rmp signo s =
    if not (s.mproc rmp).flags.unpaused
    then none
    else let (r, s1) =
        call k (sys_sigsend (s.mproc rmp).endpoint (sig_send_message signo (s.mproc rmp)))
          (modify_proc rmp (sig_send_prepare signo) s) in
      if equals r k.efault || equals r k.enomem
      then some (false, s1)
      else if equals r k.ok
      then (do s2 ← sig_send_interrupt k rmp s1; s3 ← sig_send_resume k rmp s2; some (true, s3))
      else none

-- The process keeps the signal for later.
unfoldable pub zapamietaj : ℕ → Bool → Mproc → Mproc
zapamietaj signo ksig p = record p {
  sigpending = sigaddset signo p.sigpending;
  ksigpending = if ksig then sigaddset signo p.ksigpending else p.ksigpending;
}

module _ (k : Kernel) (o : Other) where
  unfoldable pub sig_proc_exit : ℕ → ℕ → Pm → Option Pm
  sig_proc_exit rmp signo s =
      let s1 = modify_proc rmp (λ p. record p { sigstatus = signo }) s in
      if sigismember k.core_sset signo
      then o.exit_proc rmp (pos 0) true (
          if (s.mproc rmp).flags.priv_proc
          then s1
          else (call k (sys_sysctl_stacktrace (s.mproc rmp).endpoint) s1).1)
      else o.exit_proc rmp (pos 0) false s1

  -- `sig_proc` for a process that waits for VFS.
  unfoldable pub sig_proc_vfs : ℕ → ℕ → Bool → Pm → Option Pm
  unfolding zapamietaj
  sig_proc_vfs rmp signo ksig s =
      let s1 = modify_proc rmp (zapamietaj signo ksig) s in
      if (s.mproc rmp).flags.pm_sig_pending then some s1 else (do
        s2 ← must k (sys_stop (s.mproc rmp).endpoint) s1
        some (set_flags rmp (λ f. record f { pm_sig_pending = true }) s2))

  -- `sig_proc` for a system process.
  unfoldable pub sig_proc_priv : ℕ → ℕ → Bool → Pm → Option Pm
  unfolding sig_proc_exit
  sig_proc_priv rmp signo ksig s =
      if (s.mproc rmp).endpoint == k.pm_proc_nr
      then some s
      else if not ksig
      then some (call k (sys_kill (s.mproc rmp).endpoint signo) s).1
      else let s1 =
          if k.is_stacktrace signo
          then (call k (sys_sysctl_stacktrace (s.mproc rmp).endpoint) s).1
          else s in
        if not (k.is_termination signo)
        then some (call k (asynsend3 (s.mproc rmp).endpoint (sigs_signal_received signo)) s1).1
        else sig_proc_exit rmp signo s1

  -- `sig_proc` for a user process that catches the signal, once its call is interrupted.
  unfoldable pub sig_proc_send : ℕ → ℕ → Pm → Option Pm
  unfolding sig_send sig_proc_exit
  sig_proc_send rmp signo s = do
    (sent, s1) ← sig_send k rmp signo s
    if sent then some s1 else sig_proc_exit rmp signo s1

  -- `sig_proc` for a user process that catches the signal.
  unfoldable pub sig_proc_catch : ℕ → ℕ → Bool → Pm → Option Pm
  unfolding sig_proc_send unpause zapamietaj
  sig_proc_catch rmp signo ksig s =
      if (s.mproc rmp).flags.unpaused then sig_proc_send rmp signo s else do
        s1 ← unpause k rmp s
        if (s1.mproc rmp).flags.unpaused
            then sig_proc_send rmp signo s1
            else some (modify_proc rmp (zapamietaj signo ksig) s1)

  abbrev pub badignore : ℕ → Bool → Mproc → Bool
  badignore signo ksig p =
      ksig
      && (sigismember k.noign_sset signo
          && (sigismember p.ignore signo || sigismember p.sigmask signo))

  -- `sig_proc` for a user process.
  unfoldable pub sig_proc_user : ℕ → ℕ → Bool → Pm → Option Pm
  unfolding sig_proc_catch sig_proc_exit zapamietaj
  sig_proc_user rmp signo ksig s =
      let p = s.mproc rmp in
      let bad = badignore signo ksig p in
      if not bad && sigismember p.ignore signo
      then some s
      else if not bad && sigismember p.sigmask signo
      then some (modify_proc rmp (zapamietaj signo ksig) s)
      else if p.flags.stopped && not (signo == k.sigkill)
      then some (modify_proc rmp (zapamietaj signo ksig) s)
      else if not bad && sigismember p.catch signo
      then sig_proc_catch rmp signo ksig s
      else if not bad && sigismember k.ign_sset signo
      then some s
      else sig_proc_exit rmp signo s

  abbrev pub ma_debugger : ℕ → Bool → Mproc → Bool
  ma_debugger signo trace p = trace && (not (p.tracer == k.no_tracer) && not (signo == k.sigkill))

  unfoldable pub sig_proc : ℕ → ℕ → Bool → Bool → Pm → Option Pm
  unfolding sig_proc_vfs sig_proc_priv sig_proc_user
  sig_proc rmp signo trace ksig s =
      if not (is_alive (s.mproc rmp))
      then none
      else if ma_debugger signo trace (s.mproc rmp)
      then (let s1 = modify_proc rmp (λ p. record p { sigtrace = sigaddset signo p.sigtrace }) s in
          if (s.mproc rmp).flags.stopped then some s1 else o.stop_proc rmp signo s1)
      else if (s.mproc rmp).flags.vfs_call
      then sig_proc_vfs rmp signo ksig s
      else if (s.mproc rmp).flags.priv_proc
      then sig_proc_priv rmp signo ksig s
      else sig_proc_user rmp signo ksig s

  -- One round of `check_pending` that delivers.
  unfoldable pub dostarcz : ℕ → ℕ → Pm → Option Pm
  unfolding sig_proc
  dostarcz rmp i s = sig_proc rmp i false (sigismember (s.mproc rmp).ksigpending i) (
      modify_proc rmp
        (λ p. record p {
          sigpending = sigdelset i p.sigpending;
          ksigpending = sigdelset i p.ksigpending;
        })
        s)

  -- The loop of `check_pending` from the signal `i` on, with the rounds that are left.
  unfoldable pub check_pending_od : ℕ → ℕ → ℕ → Pm → Option Pm
  unfolding dostarcz
  check_pending_od rmp zero i s = some s
  check_pending_od rmp (suc r) i s =
      let rest = check_pending_od rmp r (suc i) in
      if sigismember (s.mproc rmp).sigpending i && not (sigismember (s.mproc rmp).sigmask i)
      then (do s1 ← dostarcz rmp i s; if (s1.mproc rmp).flags.vfs_call then some s1 else rest s1)
      else rest s

  unfoldable pub check_pending : ℕ → Pm → Option Pm
  unfolding check_pending_od
  check_pending rmp s = check_pending_od rmp (k.nsig - 1) 1 s
