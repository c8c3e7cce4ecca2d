-- ===== src/Pm/Killable/Calls.antt =====
-- The calls of projekt/servers/pm/signal.c keep SIGKILL deliverable, and what SIGKILL does.
use minix_server_of_mutex_an.Base.{
  ℕ, zero, suc, Bool, true, false, not, ◌&&◌, ◌||◌, Option, some, ℤ, pos, negsuc, equals, ◌==◌, ◌+◌,
  ltb, leb, if◌then◌else◌,
}
use minix_server_of_mutex_an.Pm.{Sigset, sys_kill, sys_sigreturn, Pm, Kernel, modify_proc, is_alive}
use minix_server_of_mutex_an.Pm.Signal.{Other}
use minix_server_of_mutex_an.Pm.Masks.{
  Request, How, sig_block, sig_unblock, sig_setmask, sig_inquire, other, bez_kill, potem,
  sigprocmask_how, do_sigaction, do_sigpending, do_sigprocmask, do_sigsuspend, do_sigreturn,
  do_pause,
}
use minix_server_of_mutex_an.Pm.Check.{
  wybrany, wolno, is_positive, check_sig_od, check_sig_numer, check_sig, do_kill, do_srv_kill,
}
use minix_server_of_mutex_an.Pm.Killable.{
  AllKillable, SafeResult, IsLawful, AllKillable-modify, AllKillable-if, AllKillable-flags,
  SafeResult-some, SafeResult-if, SafeResult-bind, SafeResult-then,
}
use minix_server_of_mutex_an.Pm.Killable.Deliver.{Safe-sig_proc, Safe-check_pending}
use minix_server_of_mutex_an.Pm.Killable.Masks.{
  bez_kill-kill, AllKillable-call, AllKillable-numer, IsKillable-blokuj, IsKillable-odblokuj,
}

-- What a process can ask of `PM` about its signals.
pub data Ask : Type 0 where
  sigaction sigsuspend sigreturn : Request → Ask
  sigprocmask : Request → How → Ask
  sigpending pause : Ask
  kill srv_kill : ℤ → ℤ → Ask

unfoldable pub wykonaj : Kernel → Other → Ask → Pm → Option (ℤ × Pm)
unfolding do_sigaction do_sigpending do_sigprocmask do_sigsuspend do_sigreturn do_pause do_kill
    do_srv_kill
wykonaj k o (sigaction m) s = some (do_sigaction k m s)
wykonaj k o (sigsuspend m) s = do_sigsuspend k o m s
wykonaj k o (sigreturn m) s = do_sigreturn k o m s
wykonaj k o (sigprocmask m how) s = do_sigprocmask k o m how s
wykonaj k o sigpending s = some (do_sigpending k s)
wykonaj k o pause s = some (do_pause k s)
wykonaj k o (kill pid sig_nr) s = do_kill k o pid sig_nr s
wykonaj k o (srv_kill pid sig_nr) s = do_srv_kill k o pid sig_nr s

module _ (k : Kernel) where
  module _ (o : Other) (lawful : IsLawful k o) where
    Safe-check_sig_od :
        (r : ℕ) (proc_id : ℤ) (signo : ℕ) (ksig : Bool) (count : ℕ) (err : ℤ) (s : Pm)
        → AllKillable k s
        → SafeResult k (check_sig_od k o r proc_id signo ksig count err s)
    unfolding check_sig_od
    Safe-check_sig_od zero proc_id signo ksig count err s all = SafeResult-some k (count, err) all
    Safe-check_sig_od (suc r) proc_id signo ksig count err s all =
        let next = λ (c : ℕ) (e : ℤ). Safe-check_sig_od r proc_id signo ksig c e s all in
        SafeResult-if k (not (s.mproc r).flags.in_use) _ _ (next count err) (
          SafeResult-if k (not (wybrany k proc_id signo s (s.mproc r))) _ _ (next count err) (
            SafeResult-if k _ _ _ (next count err) (
              SafeResult-if k (not ksig && (k.is_lethal signo && (s.mproc r).flags.priv_proc)) _ _
                (next count k.eperm)
                (SafeResult-if k (not (wolno k (s.mproc s.mp) (s.mproc r))) _ _ (next count k.eperm)
                  (SafeResult-if k (signo == 0 || (s.mproc r).flags.exiting) _ _
                    (next (count + 1) err)
                    (SafeResult-bind k _ _ (Safe-sig_proc k o lawful r signo true ksig s all)
                      λ s1 all1.
                        SafeResult-if k (is_positive proc_id) _ _
                          (SafeResult-some k (count + 1, err) all1)
                          (Safe-check_sig_od r proc_id signo ksig (count + 1) err s1 all1)))))))

    Safe-check_sig_numer :
        (proc_id : ℤ) (signo : ℕ) (ksig : Bool) (s : Pm)
        → AllKillable k s
        → SafeResult k (check_sig_numer k o proc_id signo ksig s)
    unfolding check_sig_numer
    Safe-check_sig_numer proc_id signo ksig s all =
        SafeResult-if k (equals proc_id (pos k.init_pid) && signo == k.sigkill) _ _
          (SafeResult-some k k.einval all)
          (SafeResult-then k _ _
            (Safe-check_sig_od k.nr_procs proc_id signo ksig 0 k.esrch _ (
              AllKillable-if k (equals proc_id (negsuc 0) && signo == k.sigterm) _ s
                (AllKillable-call k (sys_kill k.rs_proc_nr signo) s all) all))
            λ r s1 all1.
              SafeResult-if k (not (is_alive (s1.mproc s1.mp))) _ _
                (SafeResult-some k k.suspend all1)
                (SafeResult-some k (if ltb 0 r.0 then k.ok else r.1) all1))

    pub Safe-check_sig :
        (proc_id signo : ℤ) (ksig : Bool) (s : Pm)
        → AllKillable k s
        → SafeResult k (check_sig k o proc_id signo ksig s)
    unfolding check_sig
    Safe-check_sig proc_id (negsuc n) ksig s all = SafeResult-some k k.einval all
    Safe-check_sig proc_id (pos signo) ksig s all =
        SafeResult-if k (leb k.nsig signo) _ _ (SafeResult-some k k.einval all)
          (Safe-check_sig_numer proc_id signo ksig s all)

    Safe-potem : (r : ℤ) (s : Pm) → AllKillable k s → SafeResult k (potem k o r s)
    Safe-potem r s all =
        SafeResult-bind k _ _ (Safe-check_pending k o lawful s.mp s all)
          λ s1 all1. SafeResult-some k r all1

    -- The mask of the caller is replaced by one that a request gives.
    AllKillable-set :
        (set : Sigset) (s : Pm)
        → AllKillable k s
        → AllKillable k (modify_proc s.mp (λ p. record p { sigmask = bez_kill k set }) s)
    AllKillable-set set s = AllKillable-modify k s.mp _ s λ p h. record {
      mask = bez_kill-kill k set;
      mask2 = h.mask2;
      catch = h.catch;
      ignore = h.ignore;
      sa_mask = h.sa_mask;
    }

    Safe-how :
        (m : Request) (s : Pm) (how : How)
        → AllKillable k s
        → SafeResult k (sigprocmask_how k o m s how)
    Safe-how m s sig_block all =
        SafeResult-some k _ (AllKillable-modify k s.mp _ s (IsKillable-blokuj k m.sig_set) all)
    Safe-how m s sig_unblock all =
        Safe-potem k.ok _ (AllKillable-modify k s.mp _ s (IsKillable-odblokuj k m.sig_set) all)
    Safe-how m s sig_setmask all = Safe-potem k.ok _ (AllKillable-set m.sig_set s all)
    Safe-how m s sig_inquire all = SafeResult-some k _ all
    Safe-how m s other all = SafeResult-some k _ all

    -- No request about signals, by any process, lets a process block, catch or ignore SIGKILL: if
    -- that holds of all processes before the request, then also after it, where PM does not panic.
    -- The condition: the functions of other files keep it.
    pub wykonaj-AllKillable :
        (ask : Ask) (s : Pm) → AllKillable k s → SafeResult k (wykonaj k o ask s)
    unfolding wykonaj
    wykonaj-AllKillable (sigaction m) s all =
        SafeResult-some k _ (AllKillable-numer k m m.sig_nr s all).all
    wykonaj-AllKillable (sigsuspend m) s all = Safe-potem k.suspend _ (
        AllKillable-modify k s.mp _ s
          (λ p h. record {
            mask = bez_kill-kill k m.sig_set;
            mask2 = h.mask;
            catch = h.catch;
            ignore = h.ignore;
            sa_mask = h.sa_mask;
          })
          all)
    wykonaj-AllKillable (sigreturn m) s all = Safe-potem _ _ (
        AllKillable-call k (sys_sigreturn m.who_e m.sig_context) _
          (AllKillable-set m.sig_set s all))
    wykonaj-AllKillable (sigprocmask m how) s all = Safe-how m _ how (
        AllKillable-modify k s.mp _ s
          (λ p h. record {
            mask = h.mask;
            mask2 = h.mask2;
            catch = h.catch;
            ignore = h.ignore;
            sa_mask = h.sa_mask;
          })
          all)
    wykonaj-AllKillable sigpending s all = SafeResult-some k _ (
        AllKillable-modify k s.mp _ s
          (λ p h. record {
            mask = h.mask;
            mask2 = h.mask2;
            catch = h.catch;
            ignore = h.ignore;
            sa_mask = h.sa_mask;
          })
          all)
    wykonaj-AllKillable pause s all = SafeResult-some k _ (AllKillable-flags k s.mp _ s all)
    wykonaj-AllKillable (kill pid sig_nr) s all = Safe-check_sig pid sig_nr false s all
    wykonaj-AllKillable (srv_kill pid sig_nr) s all =
        SafeResult-if k _ _ _ (SafeResult-some k _ all) (Safe-check_sig pid sig_nr true s all)
