-- ===== src/Pm.antt =====
-- The process table of the process manager (projekt/servers/pm), as far as the modelled files use
-- it. The fields of `struct mproc` are those of MINIX's mproc.h.
-- What the kernel and the other servers answer is a parameter, and so are MINIX's constants.
-- `panic` is `none`. What `printf` writes is left out.
pub mod Answers
pub mod Booted
pub mod Check
pub mod Children
pub mod Exit
pub mod ExitReport
pub mod Fork
pub mod Forked
pub mod Wait
pub mod Waited
pub mod Kill
pub mod Init
pub mod Killable
pub mod Masks
pub mod Numbers
pub mod Parameters
pub mod Reply
pub mod Pids
pub mod Report
pub mod Signal
pub mod Status
pub mod Utility
pub mod Vfs
pub mod Loop
use minix_server_of_mutex_an.Base.{
  ℕ, Bool, true, false, ◌&&◌, Option, none, some, List, [], ◌∷◌, ◌++◌, ℤ, equals, ◌==◌,
  if◌then◌else◌, ◌>>=◌,
}

-- `sigset_t`
abbrev pub Sigset : Type 0
Sigset = ℕ → Bool

abbrev pub sigismember : Sigset → ℕ → Bool
sigismember set signo = set signo

abbrev pub sigaddset : ℕ → Sigset → Sigset
sigaddset signo set i = if i == signo then true else set i

abbrev pub sigdelset : ℕ → Sigset → Sigset
sigdelset signo set i = if i == signo then false else set i

pub data Handler : Type 0 where
  sig_dfl sig_ign : Handler
  function : ℕ → Handler

pub record Sigaction : Type 0 where
  pub sa_handler : Handler
  pub sa_mask : Sigset
  pub sa_nodefer : Bool
  pub sa_resethand : Bool

pub record Sigmsg : Type 0 where
  pub sm_signo : ℕ
  pub sm_mask : Sigset
  pub sm_sighandler : Handler
  pub sm_sigreturn : ℕ

-- The bits of `mp_flags`.
pub record Flags : Type 0 where
  pub in_use : Bool
  pub waiting : Bool
  pub paused : Bool
  pub exiting : Bool
  pub stopped : Bool
  pub sigsuspended : Bool
  pub reply : Bool
  pub vfs_call : Bool
  pub pm_sig_pending : Bool
  pub unpaused : Bool
  pub delay_call : Bool
  pub priv_proc : Bool
  pub trace_exit : Bool
  pub zombie : Bool
  pub trace_zombie : Bool
  pub told_parent : Bool
  pub alarm_on : Bool
  pub tainted : Bool

pub record Mproc : Type 0 where
  pub flags : Flags
  pub pid : ℕ
  pub procgrp : ℕ
  pub endpoint : ℕ
  pub name : List ℕ
  pub parent : ℕ
  pub tracer : ℕ
  -- `mp_trace_flags & TO_TRACEFORK`
  pub to_tracefork : Bool
  pub scheduler : ℕ
  pub wpid : ℤ
  pub child_utime : ℕ
  pub child_stime : ℕ
  pub interval : ℕ → ℕ
  pub realuid : ℕ
  pub effuid : ℕ
  pub realgid : ℕ
  pub effgid : ℕ
  pub exitstatus : ℤ
  pub sigstatus : ℕ
  pub ignore : Sigset
  pub catch : Sigset
  pub sigmask : Sigset
  pub sigmask2 : Sigset
  pub sigpending : Sigset
  pub ksigpending : Sigset
  pub sigtrace : Sigset
  pub sigact : ℕ → Sigaction
  pub sigreturn : ℕ
  pub reply_res : ℤ
  pub reply_res2 : ℤ
  pub reply_trace : ℤ
  pub reply_mask : Sigset

-- A message that PM sends without waiting: its `m_type`, and what stands in it, an endpoint or a
-- signal unless said otherwise.
pub data Notice : Type 0 where
  pm_unpause pm_exit cs_eintr cs_exit sigs_signal_received : ℕ → Notice
  -- The process, the signal that ended it, and its name.
  pm_dumpcore : ℕ → ℕ → List ℕ → Notice
  -- The child, its parent, and its process number.
  pm_fork : ℕ → ℕ → ℕ → Notice
  -- The same, with a user and a group.
  pm_srv_fork : ℕ → ℕ → ℕ → ℕ → ℕ → Notice
  -- The slot, the process number and the endpoint of a process of the boot image; and the end.
  pm_init : ℕ → ℕ → ℕ → Notice
  pm_init_end : ℕ → Notice

-- What PM asks of the kernel and sends to other servers.
pub data Call : Type 0 where
  sys_stop sys_delay_stop sys_resume sys_clear sys_times sys_sysctl_stacktrace : ℕ → Call
  vm_willexit vm_exit : ℕ → Call
  vm_fork sched_stop : ℕ → ℕ → Call
  sys_abort : Call
  sys_kill : ℕ → ℕ → Call
  sys_sigsend : ℕ → Sigmsg → Call
  sys_sigreturn : ℕ → ℕ → Call
  copy_out : ℕ → ℕ → Sigaction → Call
  copy_in : ℕ → ℕ → Call
  asynsend3 send sendrec : ℕ → Notice → Call
  sys_getmonparams sys_getkinfo sys_getimage : Call
  vm_notify_sig : ℕ → ℕ → Call
  -- The endpoint, and `mp_reply`: its result, second result, trace result and mask.
  sendnb : ℕ → ℤ → ℤ → ℤ → Sigset → Call

-- The table, the slot of the caller, and the calls made; the slot that sent the message, the number
-- of slots in use, and where the searches for a slot and a number go on.
pub record Pm : Type 0 where
  pub mproc : ℕ → Mproc
  pub mp : ℕ
  pub calls : List Call
  pub who_p : ℕ
  pub procs_in_use : ℕ
  -- `next_child` of `do_fork` and of `do_srv_fork`, and `next_pid` of `get_free_pid`.
  pub next_child : ℕ
  pub srv_next_child : ℕ
  pub next_pid : ℕ

pub record Kernel : Type 0 where
  pub answer : List Call → Call → ℤ
  -- What `copy_in` finds at an address of a process.
  pub user_sigaction : List Call → ℕ → ℕ → Sigaction
  -- The times that `sys_times` gives of a process, and the endpoint of the child that `vm_fork`
  -- makes.
  pub times : List Call → ℕ → ℕ × ℕ
  pub child_ep : List Call → ℕ → ℕ → ℕ
  -- `_ENDPOINT_P`
  pub endpoint_p : ℕ → ℤ
  pub nr_procs : ℕ
  pub nr_tasks : ℕ
  pub nsig : ℕ
  pub init_pid : ℕ
  pub pm_proc_nr : ℕ
  pub rs_proc_nr : ℕ
  pub vfs_proc_nr : ℕ
  pub vm_proc_nr : ℕ
  pub super_user : ℕ
  pub init_proc_nr : ℕ
  pub sched_proc_nr : ℕ
  pub kernel : ℕ
  pub none_ep : ℕ
  pub no_tracer : ℕ
  pub nr_pids : ℕ
  pub dumped : ℕ
  pub sigkill : ℕ
  pub sigstop : ℕ
  pub sigterm : ℕ
  pub sigint : ℕ
  pub sigquit : ℕ
  pub sigwinch : ℕ
  pub sigvtalrm : ℕ
  pub sigprof : ℕ
  pub sigsndelay : ℕ
  pub sigchld : ℕ
  pub sighup : ℕ
  pub is_stacktrace : ℕ → Bool
  pub is_termination : ℕ → Bool
  pub is_lethal : ℕ → Bool
  -- `core_sset`, `ign_sset` and `noign_sset`
  pub core_sset : Sigset
  pub ign_sset : Sigset
  pub noign_sset : Sigset
  pub ok : ℤ
  pub eintr : ℤ
  pub einval : ℤ
  pub eperm : ℤ
  pub esrch : ℤ
  pub ebusy : ℤ
  pub efault : ℤ
  pub enomem : ℤ
  pub edeadept : ℤ
  pub suspend : ℤ
  pub eagain : ℤ
  pub echild : ℤ
  pub enosys : ℤ

unfoldable pub modify_proc : ℕ → (Mproc → Mproc) → Pm → Pm
modify_proc rmp f s = record s { mproc = λ i. if i == rmp then f (s.mproc i) else s.mproc i }

unfoldable pub set_flags : ℕ → (Flags → Flags) → Pm → Pm
unfolding modify_proc
set_flags rmp f = modify_proc rmp λ p. record p { flags = f p.flags }

-- A call whose answer the caller looks at.
abbrev pub call : Kernel → Call → Pm → ℤ × Pm
call k c s = (k.answer s.calls c, record s { calls = s.calls ++ c ∷ [] })

-- A call that must succeed: `if ((r = …) != OK) panic(…)`.
unfoldable pub must : Kernel → Call → Pm → Option Pm
must k c s = let (r, s1) = call k c s in if equals r k.ok then some s1 else none

-- `(mp_flags & (IN_USE | EXITING)) == IN_USE`
abbrev pub is_alive : Mproc → Bool
is_alive p = if p.flags.in_use then (if p.flags.exiting then false else true) else false

-- `!strcmp(a, b)`
abbrev pub same_name : List ℕ → List ℕ → Bool
same_name [] [] = true
same_name [] (y ∷ ys) = false
same_name (x ∷ xs) [] = false
same_name (x ∷ xs) (y ∷ ys) = x == y && same_name xs ys
