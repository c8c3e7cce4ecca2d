-- ===== src/Tests/Pm.antt =====
-- A process manager with three processes, on which the theorems on signals are applied.
use minix_server_of_mutex_an.Base.{
  ℕ, ◌<◌, ◌≤◌, ◌∷◌, arith, ◌≡◌, refl, true, false, some, List, [], pos, negsuc, ◌==◌, if◌then◌else◌,
}
use minix_server_of_mutex_an.Pm.{Sigset, sig_dfl, Sigaction, Flags, Mproc, Call, sendnb, Pm, Kernel}
use minix_server_of_mutex_an.Pm.Utility.{cv_name, get_free_pid, Priorities, wzor, nice_to_priority}
use minix_server_of_mutex_an.Pm.Parameters.{Parameter, params, find_param, find_param-lookup}
use minix_server_of_mutex_an.Pm.Numbers.{get_free_pid-kandydat, nice_to_priority-wzor}
use minix_server_of_mutex_an.Tests.Client.{below_one}
use minix_server_of_mutex_an.Pm.Signal.{unpause, Other}
use minix_server_of_mutex_an.Pm.Masks.{Request, sig_setmask}
use minix_server_of_mutex_an.Pm.Killable.{AllKillable, SafeResult, IsLawful, Safe-some}
use minix_server_of_mutex_an.Pm.Reply.{due, sendreply, sendreply-due}
use minix_server_of_mutex_an.Pm.Report.{Reported, unpause-Reported}
use minix_server_of_mutex_an.Pm.Killable.Calls.{sigprocmask, wykonaj, wykonaj-AllKillable}

abbrev no_signals : Sigset
no_signals _ = false

abbrev all_signals : Sigset
all_signals _ = true

abbrev default : Sigaction
default = record {
  sa_handler = sig_dfl;
  sa_mask = no_signals;
  sa_nodefer = false;
  sa_resethand = false;
}

abbrev pub running : Flags
running = record {
  in_use = true;
  waiting = false;
  paused = false;
  exiting = false;
  stopped = false;
  sigsuspended = false;
  reply = false;
  vfs_call = false;
  pm_sig_pending = false;
  unpaused = false;
  delay_call = false;
  priv_proc = false;
  trace_exit = false;
  zombie = false;
  trace_zombie = false;
  told_parent = false;
  alarm_on = false;
  tainted = false;
}

-- The slot 2 is the server of mutexes.
abbrev pub process : ℕ → Mproc
process i = record {
  flags = running;
  pid = i;
  procgrp = 0;
  endpoint = i;
  name = if i == 2 then cv_name else [];
  parent = 1;
  tracer = 0;
  to_tracefork = false;
  scheduler = 0;
  wpid = pos 0;
  child_utime = 0;
  child_stime = 0;
  interval = λ _. 0;
  realuid = 0;
  effuid = 0;
  realgid = 0;
  effgid = 0;
  exitstatus = pos 0;
  sigstatus = 0;
  ignore = no_signals;
  catch = no_signals;
  sigmask = no_signals;
  sigmask2 = no_signals;
  sigpending = no_signals;
  ksigpending = no_signals;
  sigtrace = no_signals;
  sigact = λ _. default;
  sigreturn = 0;
  reply_res = pos 0;
  reply_res2 = pos 0;
  reply_trace = pos 0;
  reply_mask = no_signals;
}

abbrev pub pm : Pm
pm = record {
  mproc = process;
  mp = 1;
  calls = [];
  who_p = 1;
  procs_in_use = 3;
  next_child = 0;
  srv_next_child = 0;
  next_pid = 1;
}

abbrev pub kernel : Kernel
kernel = record {
  answer = λ _ _. pos 0;
  user_sigaction = λ _ _ _. default;
  endpoint_p = λ e. pos e;
  nr_procs = 3;
  nr_tasks = 5;
  nsig = 26;
  init_pid = 1;
  pm_proc_nr = 0;
  rs_proc_nr = 100;
  vfs_proc_nr = 101;
  vm_proc_nr = 102;
  super_user = 0;
  init_proc_nr = 1;
  sched_proc_nr = 103;
  kernel = 104;
  none_ep = 105;
  no_tracer = 0;
  nr_pids = 10;
  dumped = 128;
  times = λ _ _. (0, 0);
  child_ep = λ _ _ slot. slot;
  sigkill = 9;
  sigstop = 17;
  sigterm = 15;
  sigint = 2;
  sigquit = 3;
  sigwinch = 21;
  sigvtalrm = 24;
  sigprof = 25;
  sigsndelay = 30;
  sigchld = 20;
  sighup = 1;
  is_stacktrace = no_signals;
  is_termination = no_signals;
  is_lethal = no_signals;
  core_sset = no_signals;
  ign_sset = no_signals;
  noign_sset = no_signals;
  ok = pos 0;
  eintr = negsuc 3;
  einval = negsuc 21;
  eperm = negsuc 0;
  esrch = negsuc 2;
  ebusy = negsuc 15;
  efault = negsuc 13;
  enomem = negsuc 11;
  edeadept = negsuc 214;
  suspend = negsuc 997;
  eagain = negsuc 10;
  echild = negsuc 9;
  enosys = negsuc 70;
}

abbrev pub others : Other
others = record {
  set_alarm = λ _ _ s. some s;
  exit_proc = λ _ _ _ s. some s;
  stop_proc = λ _ _ s. some s;
  check_vtimer = λ _ _ s. some s;
}

others-IsLawful : IsLawful kernel others
others-IsLawful = record {
  set_alarm = λ _ _ s all. Safe-some kernel all;
  exit_proc = λ _ _ _ s all. Safe-some kernel all;
  stop_proc = λ _ _ s all. Safe-some kernel all;
  check_vtimer = λ _ _ s all. Safe-some kernel all;
}

pub pm-AllKillable : AllKillable kernel pm
pm-AllKillable = record {
  at = λ i. record { mask = refl; mask2 = refl; catch = refl; ignore = refl; sa_mask = λ n. refl };
}

-- A request to block every signal.
abbrev pub block_all : Request
block_all = record {
  who_e = 1;
  sig_nr = pos 0;
  sig_nsa = 0;
  sig_osa = 0;
  sig_ret = 0;
  sig_set = all_signals;
  sig_context = 0;
}

pub answers : (cs : List Call) (c : Call) → kernel.answer cs c ≡ kernel.ok
answers cs c = refl

wykonaj-AllKillable_example :
    SafeResult kernel (wykonaj kernel others (sigprocmask block_all sig_setmask) pm)
wykonaj-AllKillable_example =
    wykonaj-AllKillable kernel others others-IsLawful (sigprocmask block_all sig_setmask) pm
      pm-AllKillable

unpause-Reported_example : Reported kernel answers 1 2 pm (unpause kernel 1 pm)
unpause-Reported_example = unpause-Reported kernel answers 1 2 pm (λ e. cc) refl refl refl refl

-- After 1, the numbers 2 and 0 to 2 of the processes are taken, so 3 is next.
get_free_pid-kandydat_example : (get_free_pid 2 kernel 10 1 pm ≡ some 3) × (1 < 3) × (3 ≤ 10)
get_free_pid-kandydat_example =
    get_free_pid-kandydat kernel 10 (omega arith) 1 2 1 pm (omega arith) (below_one _ refl) refl
      (omega arith)

abbrev priorities : Priorities
priorities = record { prio_min_neg = 20; prio_max = 20; max_user_q = 0; min_user_q = 14 }

nice_to_priority-wzor_example :
    (nice_to_priority priorities (pos 5) ≡ some (wzor priorities 25))
    × (0 ≤ wzor priorities 25)
    × (wzor priorities 25 ≤ 14)
nice_to_priority-wzor_example =
    nice_to_priority-wzor priorities (pos 5) 25 (omega arith) refl (omega arith)

-- "a=x" and "cv=1".
abbrev parameters : List Parameter
parameters =
    record { name = 97 ∷ []; value = 120 ∷ [] }
    ∷ record { name = 99 ∷ 118 ∷ []; value = 49 ∷ [] }
    ∷ []

find_param-lookup_example :
    find_param 3 (99 ∷ 118 ∷ []) (params parameters) ≡ some (some (49 ∷ 0 ∷ 0 ∷ []))
find_param-lookup_example =
    find_param-lookup 3 (99 ∷ 118 ∷ []) parameters ((refl, refl), ((refl, refl), tt))
      ((((refl, refl), tt), (refl, tt)), ((((refl, refl), ((refl, refl), tt)), (refl, tt)), tt))
      (omega arith)

-- An answer 5 is due to the process 1.
abbrev answered : Pm
answered = record pm {
  mproc = λ i.
      if i == 1
      then record (process 1) { reply_res = pos 5; flags = record running { reply = true } }
      else process i;
}

sendreply-due_example :
    ((sendreply kernel answered).calls ≡ sendnb 1 (pos 5) (pos 0) (pos 0) no_signals ∷ [])
    × (due 3 0 (sendreply kernel answered).mproc ≡ [])
sendreply-due_example = sendreply-due kernel answered
