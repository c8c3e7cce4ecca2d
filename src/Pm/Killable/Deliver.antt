-- ===== src/Pm/Killable/Deliver.antt =====
-- `sig_proc` and `check_pending` of projekt/servers/pm/signal.c keep SIGKILL deliverable.
use minix_server_of_mutex_an.Base.{
  ℕ, zero, suc, ◌≡◌, ◌≢◌, ap, Bool, true, false, not, ◌&&◌, none, some, pos, ◌==◌, ◌-◌,
  if◌then◌else◌, Bool-cases, inl, inr, arith,
}
use minix_server_of_mutex_an.Pm.{
  sigaddset, Mproc, Call, sys_kill, asynsend3, sigs_signal_received, sys_sysctl_stacktrace, Pm,
  Kernel, call,
}
use minix_server_of_mutex_an.Pm.Signal.{
  Other, sig_proc_exit, sig_proc_vfs, sig_proc_priv, sig_proc_send, sig_proc_catch, sig_proc_user,
  badignore, ma_debugger, sig_proc, dostarcz, check_pending_od, check_pending,
}
use minix_server_of_mutex_an.Pm.Killable.{
  IsKillable, AllKillable, Safe, IsLawful, Safe-none, Safe-some, Safe-bind, Safe-if, Safe-branch,
  AllKillable-if, Safe-must, AllKillable-modify, AllKillable-flags, Safe-unpause, Safe-result,
}
use minix_server_of_mutex_an.Pm.Killable.Send.{AllKillable-zapamietaj, Safe-sig_send}

module _ (k : Kernel) where
  module _ (o : Other) (lawful : IsLawful k o) where
    Safe-exit : (rmp signo : ℕ) (s : Pm) → AllKillable k s → Safe k (sig_proc_exit k o rmp signo s)
    unfolding sig_proc_exit
    Safe-exit rmp signo s all =
        let marked =
          AllKillable-modify k rmp (λ p. record p { sigstatus = signo }) s
            (λ p h. record {
              mask = h.mask;
              mask2 = h.mask2;
              catch = h.catch;
              ignore = h.ignore;
              sa_mask = h.sa_mask;
            })
            all in
        elim (Bool-cases (s.mproc rmp).flags.priv_proc) [
          | inl p ↦ rw p (
              Safe-if k _ _ _ (lawful.exit_proc rmp (pos 0) true _ marked)
                (lawful.exit_proc rmp (pos 0) false _ marked))
          | inr p ↦ rw p (
              Safe-if k _ _ _ (lawful.exit_proc rmp (pos 0) true _ (record { at = marked.at }))
                (lawful.exit_proc rmp (pos 0) false _ marked))
        ]

    Safe-vfs :
        (rmp signo : ℕ) (ksig : Bool) (s : Pm)
        → AllKillable k s
        → Safe k (sig_proc_vfs k o rmp signo ksig s)
    unfolding sig_proc_vfs
    Safe-vfs rmp signo ksig s all =
        let kept = AllKillable-zapamietaj k rmp signo ksig s all in
        Safe-if k _ _ _ (Safe-some k kept) (
          Safe-bind k _ _ (Safe-must k _ _ kept)
            λ s2 all2. Safe-some k (AllKillable-flags k rmp _ s2 all2))

    Safe-priv :
        (rmp signo : ℕ) (ksig : Bool) (s : Pm)
        → AllKillable k s
        → Safe k (sig_proc_priv k o rmp signo ksig s)
    unfolding sig_proc_priv
    Safe-priv rmp signo ksig s all =
        Safe-if k ((s.mproc rmp).endpoint == k.pm_proc_nr) _ _ (Safe-some k all) (
          Safe-if k (not ksig) _ _ (called (sys_kill (s.mproc rmp).endpoint signo) s all) (
            Safe-if k (not (k.is_termination signo)) _ _
              (called (asynsend3 (s.mproc rmp).endpoint (sigs_signal_received signo)) _ traced)
              (Safe-exit rmp signo _ traced)))
      where
        called : (c : Call) (t : Pm) → AllKillable k t → Safe k (some (call k c t).1)
        called c t all = Safe-some k {s = (call k c t).1} (record { at = all.at })

        traced : AllKillable k (
            if k.is_stacktrace signo
            then (call k (sys_sysctl_stacktrace (s.mproc rmp).endpoint) s).1
            else s)
        traced = AllKillable-if k (k.is_stacktrace signo) _ s (record { at = all.at }) all

    Safe-send :
        (rmp signo : ℕ) (s : Pm)
        → signo ≢ k.sigkill
        → AllKillable k s
        → Safe k (sig_proc_send k o rmp signo s)
    unfolding sig_proc_send
    Safe-send rmp signo s other all =
        Safe-result k _ _ (Safe-sig_send k rmp signo s other all)
          λ sent s1 all1. Safe-if k _ _ _ (Safe-some k all1) (Safe-exit rmp signo s1 all1)

    Safe-catch :
        (rmp signo : ℕ) (ksig : Bool) (s : Pm)
        → signo ≢ k.sigkill
        → AllKillable k s
        → Safe k (sig_proc_catch k o rmp signo ksig s)
    unfolding sig_proc_catch
    Safe-catch rmp signo ksig s other all = Safe-if k _ _ _ (Safe-send rmp signo s other all) (
        Safe-bind k _ _ (Safe-unpause k rmp s all) λ s1 all1.
          Safe-if k _ _ _ (Safe-send rmp signo s1 other all1)
            (Safe-some k (AllKillable-zapamietaj k rmp signo ksig s1 all1)))

    caught :
        (signo : ℕ) (p : Mproc) (b : Bool)
        → IsKillable k p
        → (b && p.catch signo) ≡ true
        → signo ≢ k.sigkill
    caught signo p b h takes e = ground (arith, ap p.catch e, h.catch)

    Safe-user :
        (rmp signo : ℕ) (ksig : Bool) (s : Pm)
        → AllKillable k s
        → Safe k (sig_proc_user k o rmp signo ksig s)
    unfolding sig_proc_user
    Safe-user rmp signo ksig s all =
        let later = Safe-some k (AllKillable-zapamietaj k rmp signo ksig s all) in
        let ends = Safe-exit rmp signo s all in
        let bad = badignore k o signo ksig (s.mproc rmp) in
        Safe-if k _ _ _ (Safe-some k all) (
          Safe-if k _ _ _ later (
            Safe-if k _ _ _ later (
              Safe-branch k (not bad && (s.mproc rmp).catch signo) _ _
                (λ c.
                  Safe-catch rmp signo ksig s (caught signo (s.mproc rmp) (not bad) (all.at rmp) c)
                    all)
                (λ c. Safe-if k _ _ _ (Safe-some k all) ends))))

    pub Safe-sig_proc :
        (rmp signo : ℕ) (trace ksig : Bool) (s : Pm)
        → AllKillable k s
        → Safe k (sig_proc k o rmp signo trace ksig s)
    unfolding sig_proc
    Safe-sig_proc rmp signo trace ksig s all =
        let marked =
          AllKillable-modify k rmp (λ p. record p { sigtrace = sigaddset signo p.sigtrace }) s
            (λ p h. record {
              mask = h.mask;
              mask2 = h.mask2;
              catch = h.catch;
              ignore = h.ignore;
              sa_mask = h.sa_mask;
            })
            all in
        Safe-if k _ none _ (Safe-none k) (
          Safe-if k (ma_debugger k o signo trace (s.mproc rmp)) _ _
            (Safe-if k _ _ _ (Safe-some k marked) (lawful.stop_proc rmp signo _ marked))
            (Safe-if k _ _ _ (Safe-vfs rmp signo ksig s all)
              (Safe-if k _ _ _ (Safe-priv rmp signo ksig s all) (Safe-user rmp signo ksig s all))))

    Safe-dostarcz : (rmp i : ℕ) (s : Pm) → AllKillable k s → Safe k (dostarcz k o rmp i s)
    unfolding dostarcz
    Safe-dostarcz rmp i s all = Safe-sig_proc rmp i false _ _ (
        AllKillable-modify k rmp _ s
          (λ p h. record {
            mask = h.mask;
            mask2 = h.mask2;
            catch = h.catch;
            ignore = h.ignore;
            sa_mask = h.sa_mask;
          })
          all)

    Safe-check_pending_od :
        (rmp r i : ℕ) (s : Pm) → AllKillable k s → Safe k (check_pending_od k o rmp r i s)
    unfolding check_pending_od
    Safe-check_pending_od rmp zero i s all = Safe-some k all
    Safe-check_pending_od rmp (suc r) i s all =
        Safe-if k _ _ _
          (Safe-bind k _ _ (Safe-dostarcz rmp i s all) λ s1 all1.
            Safe-if k _ _ _ (Safe-some k all1) (Safe-check_pending_od rmp r (suc i) s1 all1))
          (Safe-check_pending_od rmp r (suc i) s all)

    pub Safe-check_pending : (rmp : ℕ) (s : Pm) → AllKillable k s → Safe k (check_pending k o rmp s)
    unfolding check_pending
    Safe-check_pending rmp s all = Safe-check_pending_od rmp (k.nsig - 1) 1 s all
