-- ===== src/Pm/Killable/Ksig.antt =====
-- A signal of the kernel keeps SIGKILL deliverable: process_ksig of projekt/servers/pm/signal.c and
-- sef_cb_signal_manager of projekt/servers/pm/main.c.
use minix_server_of_mutex_an.Base.{
  ℕ, true, false, not, ◌||◌, none, some, ℤ, pos, negsuc, equals, ◌==◌,
}
use minix_server_of_mutex_an.Pm.{Mproc, Pm, Kernel, modify_proc, set_flags, is_alive}
use minix_server_of_mutex_an.Pm.Utility.{pm_isokendpt}
use minix_server_of_mutex_an.Pm.Signal.{Other, check_pending}
use minix_server_of_mutex_an.Pm.Check.{
  po_wyslaniu, process_ksig_slot, process_ksig_numer, process_ksig,
}
use minix_server_of_mutex_an.Pm.Init.{sef_cb_signal_manager}
use minix_server_of_mutex_an.Pm.Killable.{
  AllKillable, Safe, SafeResult, IsLawful, Safe-none, Safe-some, Safe-bind, Safe-if,
  SafeResult-some, SafeResult-if, SafeResult-bind, SafeResult-then, AllKillable-modify,
  AllKillable-flags,
}
use minix_server_of_mutex_an.Pm.Killable.Deliver.{Safe-check_pending}
use minix_server_of_mutex_an.Pm.Killable.Calls.{Safe-check_sig}
use minix_server_of_mutex_an.Pm.Killable.Loop.{AllKillable-sendreply}

module _ (k : Kernel) (o : Other) (lawful : IsLawful k o) where
  Safe-po_wyslaniu : (rmp : ℕ) (s : Pm) → AllKillable k s → Safe k (po_wyslaniu k o rmp s)
  unfolding po_wyslaniu
  Safe-po_wyslaniu rmp s all =
      let s1 = set_flags rmp (λ f. record f { delay_call = false }) s in
      Safe-if k (s1.mproc rmp).flags.pm_sig_pending none _ (Safe-none k) (
        Safe-bind k (check_pending k o rmp s1) _
          (Safe-check_pending k o lawful rmp s1 (AllKillable-flags k rmp _ s all))
          λ s2 all2.
            Safe-if k (s2.mproc rmp).flags.delay_call none _ (Safe-none k) (Safe-some k all2))

  SafeResult-slot :
      (rmp signo : ℕ) (s : Pm) → AllKillable k s → SafeResult k (process_ksig_slot k o rmp signo s)
  unfolding process_ksig_slot
  SafeResult-slot rmp signo s all =
      let as_pm = λ (p : Mproc). record p { procgrp = (s.mproc rmp).procgrp } in
      let s1 = modify_proc 0 as_pm (record s { mp = 0 }) in
      let all1 =
        AllKillable-modify k 0 as_pm (record s { mp = 0 })
          (λ p h. record {
            mask = h.mask;
            mask2 = h.mask2;
            catch = h.catch;
            ignore = h.ignore;
            sa_mask = h.sa_mask;
          })
          (record { at = all.at }) in
      SafeResult-bind k _ _
        (Safe-if k (signo == k.sigvtalrm || signo == k.sigprof) _ (some s1)
          (lawful.check_vtimer rmp signo s1 all1) (Safe-some k all1))
        λ s2 all2.
          SafeResult-then k _ _ (Safe-check_sig k o lawful _ (pos signo) true s2 all2) λ _ s3 all3.
            SafeResult-if k _ _ _
              (SafeResult-if k _ _ _ (SafeResult-some k _ (AllKillable-flags k rmp _ s3 all3)) (
                SafeResult-bind k _ _ (Safe-po_wyslaniu rmp s3 all3)
                  λ s4 all4. SafeResult-some k _ all4))
              (SafeResult-some k _ all3)

  SafeResult-numer :
      (signo : ℕ) (s : Pm) (r n : ℤ)
      → AllKillable k s
      → SafeResult k (process_ksig_numer k o signo s (r, n))
  SafeResult-numer signo s r (negsuc n) all = SafeResult-some k _ all
  SafeResult-numer signo s r (pos n) all =
      SafeResult-if k (not (equals r k.ok)) _ _ (SafeResult-some k k.edeadept all) (
        SafeResult-if k (not (is_alive (s.mproc n))) _ _ (SafeResult-some k k.edeadept all)
          (SafeResult-slot n signo s all))

  pub SafeResult-manager :
      (target signo : ℕ) (s : Pm)
      → AllKillable k s
      → SafeResult k (sef_cb_signal_manager k o target signo s)
  unfolding sef_cb_signal_manager process_ksig
  SafeResult-manager target signo s all =
      let r = pm_isokendpt k target s in
      SafeResult-then k _ _ (SafeResult-numer signo s r.0 r.1 all)
        λ a s1 all1. SafeResult-some k a (AllKillable-sendreply k s1 all1)
