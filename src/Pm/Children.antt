-- ===== src/Pm/Children.antt =====
-- projekt/servers/pm/forkexit.c: what a parent and a tracer learn of the end of a process. `o` has
-- the functions that `sig_proc` takes as a parameter.
use minix_server_of_mutex_an.Base.{
  ℕ, suc, ◌+◌, ◌-◌, ◌*◌, ◌%◌, Bool, true, false, not, ◌&&◌, ◌||◌, Option, none, some, ℤ, pos,
  negsuc, neg, equals, ◌==◌, if◌then◌else◌, ◌>>=◌,
}
use minix_server_of_mutex_an.Pm.{Flags, Mproc, Pm, Kernel, modify_proc, set_flags}
use minix_server_of_mutex_an.Pm.Signal.{Other, setreply, sig_proc}

-- `wait_test`, on the waiting process and the child.
abbrev pub wait_test : Mproc → Mproc → Bool
wait_test rmp child =
    rmp.flags.waiting
    && (equals rmp.wpid (negsuc 0)
        || (equals rmp.wpid (pos child.pid) || equals (neg rmp.wpid) (pos child.procgrp)))

-- `(exitstatus << 8) | low`, for a `low` below 256.
abbrev pub z_bajtem : ℤ → ℕ → ℤ
z_bajtem (pos n) low = pos (n * 256 + low)
z_bajtem (negsuc n) low = negsuc (suc n * 256 - low - 1)

-- `(mp_exitstatus << 8) | (mp_sigstatus & 0377)`
abbrev pub status_wyjscia : Mproc → ℤ
status_wyjscia p = z_bajtem p.exitstatus (p.sigstatus % 256)

-- The end of `tell_parent`: the parent does not wait any more, and knows.
abbrev pub zgloszony : Flags → Flags
zgloszony f = record f { zombie = false; told_parent = true }

-- `tell_parent`
unfoldable pub tell_parent : Kernel → ℕ → Pm → Option Pm
unfolding setreply set_flags modify_proc
tell_parent k child s =
    let p = s.mproc child in
    if p.parent == 0
    then none
    else if not p.flags.zombie
    then none
    else if p.flags.told_parent
    then none
    else (do
      s1 ←
          setreply k p.parent (pos p.pid)
            (modify_proc p.parent (λ q. record q { reply_res2 = status_wyjscia p }) s)
      some (set_flags child zgloszony (set_flags p.parent (λ f. record f { waiting = false }) s1)))

-- `tell_tracer`, where `mp_tracer <= 0` is a slot 0.
unfoldable pub tell_tracer : Kernel → ℕ → Pm → Option Pm
unfolding setreply set_flags modify_proc
tell_tracer k child s =
    let p = s.mproc child in
    if p.tracer == 0 then none else if not p.flags.trace_zombie then none else (do
      s1 ←
          setreply k p.tracer (pos p.pid)
            (modify_proc p.tracer (λ q. record q { reply_res2 = status_wyjscia p }) s)
      some (
          set_flags child (λ f. record f { trace_zombie = false; zombie = true })
            (set_flags p.tracer (λ f. record f { waiting = false }) s1)))

abbrev pub no_flags : Flags
no_flags = record {
  in_use = false;
  waiting = false;
  paused = false;
  exiting = false;
  stopped = false;
  sigsuspended = false;
  reply = false;
  vfs_call = false;
  pm_sig_pending = false;
  unpaused = false;
  delay_call = false;
  priv_proc = false;
  trace_exit = false;
  zombie = false;
  trace_zombie = false;
  told_parent = false;
  alarm_on = false;
  tainted = false;
}

abbrev pub zwolniony : Mproc → Mproc
zwolniony p = record p { pid = 0; flags = no_flags; child_utime = 0; child_stime = 0 }

-- `cleanup`
unfoldable pub cleanup : ℕ → Pm → Pm
unfolding modify_proc
cleanup rmp s =
    let s1 = modify_proc rmp zwolniony s in record s1 { procs_in_use = s.procs_in_use - 1 }

module _ (k : Kernel) (o : Other) where
  -- `check_parent` where the parent waits for the child.
  unfoldable pub check_parent_czeka : ℕ → Bool → Pm → Option Pm
  unfolding tell_parent cleanup
  check_parent_czeka child try_cleanup s = do
    s1 ← tell_parent k child s
    some (if try_cleanup && not (s1.mproc child).flags.vfs_call then cleanup child s1 else s1)

  -- `check_parent`
  unfoldable pub check_parent : ℕ → Bool → Pm → Option Pm
  unfolding check_parent_czeka sig_proc
  check_parent child try_cleanup s =
      let parent = (s.mproc child).parent in
      if (s.mproc parent).flags.exiting
      then some s
      else if wait_test (s.mproc parent) (s.mproc child)
      then check_parent_czeka child try_cleanup s
      else sig_proc k o parent k.sigchld true false s

  -- `zombify` of a process whose tracer is not its parent.
  unfoldable pub zombify_sledzony : ℕ → Pm → Option Pm
  unfolding set_flags tell_tracer check_parent
  zombify_sledzony rmp s =
      let s1 = set_flags rmp (λ f. record f { trace_zombie = true }) s in
      if not (wait_test (s1.mproc (s1.mproc rmp).tracer) (s1.mproc rmp))
      then some s1
      else (do s2 ← tell_tracer k rmp s1; check_parent rmp false s2)

  -- `zombify`
  unfoldable pub zombify : ℕ → Pm → Option Pm
  unfolding zombify_sledzony set_flags check_parent
  zombify rmp s =
      let p = s.mproc rmp in
      if p.flags.trace_zombie || p.flags.zombie
      then none
      else if not (p.tracer == k.no_tracer) && not (p.tracer == p.parent)
      then zombify_sledzony rmp s
      else check_parent rmp false (set_flags rmp (λ f. record f { zombie = true }) s)

  -- `tracer_died` for a child that was telling its tracer of its end.
  unfoldable pub tracer_died_zombie : ℕ → Pm → Option Pm
  unfolding set_flags check_parent
  tracer_died_zombie child s =
      if (s.mproc child).flags.trace_zombie
      then check_parent child true
          (set_flags child (λ f. record f { trace_zombie = false; zombie = true }) s)
      else some s

  abbrev pub bez_sledzacego : Mproc → Mproc
  bez_sledzacego p = record p {
    tracer = k.no_tracer;
    flags = record p.flags { trace_exit = false };
  }

  -- `tracer_died`
  unfoldable pub tracer_died : ℕ → Pm → Option Pm
  unfolding modify_proc tracer_died_zombie sig_proc
  tracer_died child s =
      let s1 = modify_proc child bez_sledzacego s in
      if not (s1.mproc child).flags.exiting
      then sig_proc k o child k.sigkill true false s1
      else tracer_died_zombie child s1
