-- ===== src/Pm/Check.antt =====
-- projekt/servers/pm/signal.c: which processes a signal goes to, the signals of the kernel, and the
-- signals that waited for a reply of VFS.
use minix_server_of_mutex_an.Base.{
  ℕ, zero, suc, Bool, true, false, not, ◌&&◌, ◌||◌, Option, none, some, ℤ, pos, negsuc, equals,
  ◌==◌, ltb, leb, if◌then◌else◌, ◌>>=◌, ◌+◌,
}
use minix_server_of_mutex_an.Pm.{
  Mproc, sys_kill, sys_resume, Pm, Kernel, modify_proc, set_flags, call, must, is_alive,
}
use minix_server_of_mutex_an.Pm.Utility.{pm_isokendpt}
use minix_server_of_mutex_an.Pm.Signal.{Other, sig_proc, check_pending}

-- The tests of `check_sig` on `proc_id`.
abbrev pub wybrany : Kernel → ℤ → ℕ → Pm → Mproc → Bool
wybrany k (pos zero) signo s p = (s.mproc s.mp).procgrp == p.procgrp
wybrany k (pos (suc n)) signo s p = suc n == p.pid
wybrany k (negsuc zero) signo s p =
    ltb k.init_pid p.pid && not (signo == k.sigkill && p.flags.priv_proc)
wybrany k (negsuc (suc n)) signo s p = p.procgrp == suc (suc n)

-- The permission to signal, from the identities of the caller and the process.
abbrev pub wolno : Kernel → Mproc → Mproc → Bool
wolno k mp p =
    mp.effuid == k.super_user
    || (mp.realuid == p.realuid
        || (mp.effuid == p.realuid || (mp.realuid == p.effuid || mp.effuid == p.effuid)))

abbrev pub is_positive : ℤ → Bool
is_positive (pos zero) = false
is_positive (pos (suc n)) = true
is_positive (negsuc n) = false

module _ (k : Kernel) (o : Other) where
  -- The loop of `check_sig`, which goes down from the slot under `r`: `count`, `error_code`.
  unfoldable pub check_sig_od : ℕ → ℤ → ℕ → Bool → ℕ → ℤ → Pm → Option ((ℕ × ℤ) × Pm)
  unfolding sig_proc
  check_sig_od zero proc_id signo ksig count error_code s = some ((count, error_code), s)
  check_sig_od (suc r) proc_id signo ksig count error_code s =
      let next = check_sig_od r proc_id signo ksig in
      let p = s.mproc r in
      if not p.flags.in_use
      then next count error_code s
      else if not (wybrany k proc_id signo s p)
      then next count error_code s
      else if p.endpoint == k.vm_proc_nr
      then next count error_code s
      else if not ksig && (k.is_lethal signo && p.flags.priv_proc)
      then next count k.eperm s
      else if not (wolno k (s.mproc s.mp) p)
      then next count k.eperm s
      else if signo == 0 || p.flags.exiting
      then next (count + 1) error_code s
      else (do
        s1 ← sig_proc k o r signo true ksig s
        if is_positive proc_id
            then some ((count + 1, error_code), s1)
            else next (count + 1) error_code s1)

  -- `check_sig` for a signal number that is in range.
  unfoldable pub check_sig_numer : ℤ → ℕ → Bool → Pm → Option (ℤ × Pm)
  unfolding check_sig_od
  check_sig_numer proc_id signo ksig s =
      if equals proc_id (pos k.init_pid) && signo == k.sigkill then some (k.einval, s) else do
        ((count, error_code), s1) ← check_sig_od k.nr_procs proc_id signo ksig 0 k.esrch (
            if equals proc_id (negsuc 0) && signo == k.sigterm
            then (call k (sys_kill k.rs_proc_nr signo) s).1
            else s)
        if not (is_alive (s1.mproc s1.mp))
            then some (k.suspend, s1)
            else some (if ltb 0 count then k.ok else error_code, s1)

  unfoldable pub check_sig : ℤ → ℤ → Bool → Pm → Option (ℤ × Pm)
  unfolding check_sig_numer
  check_sig proc_id (negsuc n) ksig s = some (k.einval, s)
  check_sig proc_id (pos signo) ksig s =
      if leb k.nsig signo then some (k.einval, s) else check_sig_numer proc_id signo ksig s

  -- `do_kill`
  unfoldable pub do_kill : ℤ → ℤ → Pm → Option (ℤ × Pm)
  unfolding check_sig
  do_kill pid sig_nr s = check_sig pid sig_nr false s

  -- `do_srv_kill`
  unfoldable pub do_srv_kill : ℤ → ℤ → Pm → Option (ℤ × Pm)
  unfolding check_sig
  do_srv_kill pid sig_nr s =
      if not ((s.mproc s.mp).endpoint == k.rs_proc_nr)
      then some (k.eperm, s)
      else check_sig pid sig_nr true s

  abbrev do_grupy : ℕ → Bool
  do_grupy signo = signo == k.sigint || (signo == k.sigquit || signo == k.sigwinch)

  -- `process_ksig` where the process has sent its message and does not wait for VFS.
  unfoldable pub po_wyslaniu : ℕ → Pm → Option Pm
  unfolding check_pending
  po_wyslaniu rmp s =
      let s1 = set_flags rmp (λ f. record f { delay_call = false }) s in
      if (s1.mproc rmp).flags.pm_sig_pending then none else (do
        s2 ← check_pending k o rmp s1
        if (s2.mproc rmp).flags.delay_call then none else some s2)

  -- `process_ksig` for a process that is alive.
  unfoldable pub process_ksig_slot : ℕ → ℕ → Pm → Option (ℤ × Pm)
  unfolding po_wyslaniu check_sig
  process_ksig_slot rmp signo s =
      let s1 =
        modify_proc 0 (λ p. record p { procgrp = (s.mproc rmp).procgrp }) (record s { mp = 0 }) in
      do
        s2 ←
            if signo == k.sigvtalrm || signo == k.sigprof
            then o.check_vtimer rmp signo s1
            else some s1
        (_, s3) ←
            check_sig (if do_grupy signo then pos 0 else pos (s.mproc rmp).pid) (pos signo) true s2
        if signo == k.sigsndelay && (s3.mproc rmp).flags.delay_call
            then if (s3.mproc rmp).flags.vfs_call
              then some (k.ok, set_flags rmp (λ f. record f { delay_call = false }) s3)
              else (do
                s4 ← po_wyslaniu rmp s3
                some (if is_alive (s4.mproc rmp) then k.ok else k.edeadept, s4))
            else some (if is_alive (s3.mproc rmp) then k.ok else k.edeadept, s3)

  abbrev pub process_ksig_numer : ℕ → Pm → ℤ × ℤ → Option (ℤ × Pm)
  process_ksig_numer signo s (r, negsuc n) = some (k.edeadept, s)
  process_ksig_numer signo s (r, pos proc_nr) =
      if not (equals r k.ok)
      then some (k.edeadept, s)
      else if not (is_alive (s.mproc proc_nr))
      then some (k.edeadept, s)
      else process_ksig_slot proc_nr signo s

  unfoldable pub process_ksig : ℕ → ℕ → Pm → Option (ℤ × Pm)
  process_ksig proc_nr_e signo s = process_ksig_numer signo s (pm_isokendpt k proc_nr_e s)

  -- `restart_sigs`
  unfoldable pub restart_sigs : ℕ → Pm → Option Pm
  unfolding check_pending
  restart_sigs rmp s =
      if (s.mproc rmp).flags.vfs_call || (s.mproc rmp).flags.exiting
      then some s
      else if (s.mproc rmp).flags.trace_exit
      then o.exit_proc rmp (s.mproc rmp).exitstatus false s
      else if (s.mproc rmp).flags.pm_sig_pending
      then (do
        s1 ← check_pending k o rmp s
        if (s1.mproc rmp).flags.vfs_call
            then some s1
            else must k (sys_resume (s1.mproc rmp).endpoint)
                (set_flags rmp (λ f. record f { pm_sig_pending = false; unpaused = false }) s1))
      else some s
