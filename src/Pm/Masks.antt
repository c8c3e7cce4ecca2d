-- ===== src/Pm/Masks.antt =====
-- projekt/servers/pm/signal.c: the system calls by which a process sets its signal masks and
-- handlers, and waits for a signal.
use minix_server_of_mutex_an.Base.{
  ℕ, true, false, ◌||◌, Option, some, ℤ, pos, negsuc, equals, ◌==◌, leb, if◌then◌else◌, ◌>>=◌,
}
use minix_server_of_mutex_an.Pm.{
  Sigset, sigaddset, sigdelset, Handler, sig_dfl, sig_ign, Sigaction, Mproc, copy_in, copy_out,
  sys_sigreturn, Pm, Kernel, modify_proc, set_flags, call,
}
use minix_server_of_mutex_an.Pm.Signal.{Other, check_pending}

-- The fields of a request, with 0 for `NULL`.
pub record Request : Type 0 where
  pub who_e : ℕ
  pub sig_nr : ℤ
  pub sig_nsa : ℕ
  pub sig_osa : ℕ
  pub sig_ret : ℕ
  pub sig_set : Sigset
  pub sig_context : ℕ

-- The values of `sig_how`.
pub data How : Type 0 where
  sig_block sig_unblock sig_setmask sig_inquire other : How

-- The sets of a process, as the kind of the new handler asks.
abbrev pub ustaw_zbiory : ℕ → Handler → Mproc → Mproc
ustaw_zbiory n sig_ign p = record p {
  ignore = sigaddset n p.ignore;
  sigpending = sigdelset n p.sigpending;
  ksigpending = sigdelset n p.ksigpending;
  catch = sigdelset n p.catch;
}
ustaw_zbiory n sig_dfl p = record p { ignore = sigdelset n p.ignore; catch = sigdelset n p.catch }
ustaw_zbiory n (Handler.function a) p = record p {
  ignore = sigdelset n p.ignore;
  catch = sigaddset n p.catch;
}

-- A mask without the signals that cannot be blocked.
abbrev pub bez_kill : Kernel → Sigset → Sigset
bez_kill k set = sigdelset k.sigstop (sigdelset k.sigkill set)

-- `sa_handler`, `sa_mask` and `sa_flags` of the signal, and `mp_sigreturn`.
abbrev pub ustaw_handler : Kernel → ℕ → Sigaction → ℕ → Mproc → Mproc
ustaw_handler k n svec sig_ret p = record (ustaw_zbiory n svec.sa_handler p) {
  sigact = λ i. if i == n then record svec { sa_mask = bez_kill k svec.sa_mask } else p.sigact i;
  sigreturn = sig_ret;
}

-- `do_sigaction` from the test of `sig_nsa` on.
unfoldable pub sigaction_nowy : Kernel → Request → ℕ → Pm → ℤ × Pm
sigaction_nowy k m n s =
    if m.sig_nsa == 0
    then (k.ok, s)
    else let (r, s1) = call k (copy_in m.who_e m.sig_nsa) s in
      if equals r k.ok
      then (
        k.ok,
        modify_proc s.mp (ustaw_handler k n (k.user_sigaction s.calls m.who_e m.sig_nsa) m.sig_ret)
            s1,
      )
      else (r, s1)

-- `do_sigaction` for a signal number that is in range.
unfoldable pub sigaction_stary : Kernel → Request → ℕ → Pm → ℤ × Pm
unfolding sigaction_nowy
sigaction_stary k m n s =
    if m.sig_osa == 0
    then sigaction_nowy k m n s
    else let (r, s1) = call k (copy_out m.who_e m.sig_osa ((s.mproc s.mp).sigact n)) s in
      if equals r k.ok then sigaction_nowy k m n s1 else (r, s1)

abbrev pub sigaction_numer : Kernel → Request → ℤ → Pm → ℤ × Pm
sigaction_numer k m (negsuc n) s = (k.einval, s)
sigaction_numer k m (pos n) s =
    if n == k.sigkill
    then (k.ok, s)
    else if n == 0 || leb k.nsig n
    then (k.einval, s)
    else sigaction_stary k m n s

unfoldable pub do_sigaction : Kernel → Request → Pm → ℤ × Pm
do_sigaction k m s = sigaction_numer k m m.sig_nr s

unfoldable pub do_sigpending : Kernel → Pm → ℤ × Pm
do_sigpending k s = (k.ok, modify_proc s.mp (λ p. record p { reply_mask = p.sigpending }) s)

-- `for (i = 1; i < _NSIG; i++) if (sigismember(set, i)) …`, as it changes the entry of each signal.
abbrev pub w_zakresie : Kernel → Sigset → Sigset
w_zakresie k set i = if i == 0 || leb k.nsig i then false else set i

unfoldable pub blokuj : Kernel → Sigset → Mproc → Mproc
blokuj k set p = record p {
  sigmask = λ i. if w_zakresie k (bez_kill k set) i then true else p.sigmask i;
}

unfoldable pub odblokuj : Kernel → Sigset → Mproc → Mproc
odblokuj k set p = record p { sigmask = λ i. if w_zakresie k set i then false else p.sigmask i }

module _ (k : Kernel) (o : Other) where
  -- `check_pending(mp); return r`
  abbrev pub potem : ℤ → Pm → Option (ℤ × Pm)
  potem r s = do s1 ← check_pending k o s.mp s; some (r, s1)

  abbrev pub sigprocmask_how : Request → Pm → How → Option (ℤ × Pm)
  sigprocmask_how m s sig_block = some (k.ok, modify_proc s.mp (blokuj k m.sig_set) s)
  sigprocmask_how m s sig_unblock = potem k.ok (modify_proc s.mp (odblokuj k m.sig_set) s)
  sigprocmask_how m s sig_setmask =
      potem k.ok (modify_proc s.mp (λ p. record p { sigmask = bez_kill k m.sig_set }) s)
  sigprocmask_how m s sig_inquire = some (k.ok, s)
  sigprocmask_how m s other = some (k.einval, s)

  unfoldable pub do_sigprocmask : Request → How → Pm → Option (ℤ × Pm)
  do_sigprocmask m how s =
      sigprocmask_how m (modify_proc s.mp (λ p. record p { reply_mask = p.sigmask }) s) how

  unfoldable pub do_sigsuspend : Request → Pm → Option (ℤ × Pm)
  do_sigsuspend m s = potem k.suspend (
      modify_proc s.mp
        (λ p. record p {
          sigmask2 = p.sigmask;
          sigmask = bez_kill k m.sig_set;
          flags = record p.flags { sigsuspended = true };
        })
        s)

  unfoldable pub do_sigreturn : Request → Pm → Option (ℤ × Pm)
  do_sigreturn m s =
      let (r, s1) =
        call k (sys_sigreturn m.who_e m.sig_context)
          (modify_proc s.mp (λ p. record p { sigmask = bez_kill k m.sig_set }) s) in
      potem r s1

unfoldable pub do_pause : Kernel → Pm → ℤ × Pm
do_pause k s = (k.suspend, set_flags s.mp (λ f. record f { paused = true }) s)
