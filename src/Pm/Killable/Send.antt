-- ===== src/Pm/Killable/Send.antt =====
-- `sig_send` of projekt/servers/pm/signal.c keeps SIGKILL deliverable.
use minix_server_of_mutex_an.Base.{
  ℕ, ◌≡◌, ◌≢◌, sym, Bool, true, false, none, ◌==◌, Bool-cases, inl, inr, ==_ne,
}
use minix_server_of_mutex_an.Pm.{Mproc, Pm, Kernel, modify_proc}
use minix_server_of_mutex_an.Pm.Signal.{
  sig_send_prepare, sig_send_mask, sig_send_interrupt, sig_send_resume, sig_send, setreply,
  zapamietaj,
}
use minix_server_of_mutex_an.Pm.Killable.{
  IsKillable, AllKillable, Safe, SafeResult, Safe-none, Safe-some, Safe-if, Safe-must,
  AllKillable-modify, AllKillable-flags, SafeResult-none, SafeResult-some, SafeResult-if,
  SafeResult-bind,
}

module _ (k : Kernel) where
  IsKillable-zapamietaj :
      (signo : ℕ) (ksig : Bool) (p : Mproc)
      → IsKillable k p
      → IsKillable k (zapamietaj signo ksig p)
  unfolding zapamietaj
  IsKillable-zapamietaj signo ksig p h = record {
    mask = h.mask;
    mask2 = h.mask2;
    catch = h.catch;
    ignore = h.ignore;
    sa_mask = h.sa_mask;
  }

  pub AllKillable-zapamietaj :
      (rmp signo : ℕ) (ksig : Bool) (s : Pm)
      → AllKillable k s
      → AllKillable k (modify_proc rmp (zapamietaj signo ksig) s)
  AllKillable-zapamietaj rmp signo ksig s =
      AllKillable-modify k rmp (zapamietaj signo ksig) s (IsKillable-zapamietaj signo ksig)

  mask_prepare :
      (signo : ℕ) (p : Mproc)
      → signo ≢ k.sigkill
      → IsKillable k p
      → sig_send_mask signo p k.sigkill ≡ false
  mask_prepare signo p other h =
      let apart = ==_ne k.sigkill signo λ e. other (sym e) in
      elim (Bool-cases (p.sigact signo).sa_nodefer) [
        | inl r ↦ simp (r, apart, h.mask, h.sa_mask signo)
        | inr r ↦ simp (r, apart, h.mask, h.sa_mask signo)
      ]

  -- The handler of another signal does not block SIGKILL.
  IsKillable-prepare :
      (signo : ℕ) (p : Mproc)
      → signo ≢ k.sigkill
      → IsKillable k p
      → IsKillable k (sig_send_prepare signo p)
  unfolding sig_send_prepare
  IsKillable-prepare signo p other h =
      let apart = ==_ne k.sigkill signo λ e. other (sym e) in
      elim (Bool-cases (p.sigact signo).sa_resethand) [
        | inl r ↦ rw r (record {
          mask = mask_prepare signo p other h;
          mask2 = h.mask2;
          catch = rw apart h.catch;
          ignore = h.ignore;
          sa_mask = λ n. elim (Bool-cases (n == signo)) [
            | inl e ↦ rw e (h.sa_mask signo)
            | inr e ↦ rw e (h.sa_mask n)
          ];
        })
        | inr r ↦ rw r (record {
          mask = mask_prepare signo p other h;
          mask2 = h.mask2;
          catch = h.catch;
          ignore = h.ignore;
          sa_mask = h.sa_mask;
        })
      ]

  Safe-interrupt : (rmp : ℕ) (s : Pm) → AllKillable k s → Safe k (sig_send_interrupt k rmp s)
  unfolding sig_send_interrupt setreply
  Safe-interrupt rmp s all =
      Safe-if k _ _ _
        (Safe-if k _ none _ (Safe-none k) (
          Safe-some k (
            AllKillable-modify k rmp _ _
              (λ p h. record {
                mask = h.mask;
                mask2 = h.mask2;
                catch = h.catch;
                ignore = h.ignore;
                sa_mask = h.sa_mask;
              })
              (AllKillable-flags k rmp _ s all))))
        (Safe-some k all)

  Safe-resume : (rmp : ℕ) (s : Pm) → AllKillable k s → Safe k (sig_send_resume k rmp s)
  unfolding sig_send_resume
  Safe-resume rmp s all =
      Safe-if k _ _ _ (Safe-must k _ _ (AllKillable-flags k rmp _ s all)) (Safe-some k all)

  pub Safe-sig_send :
      (rmp signo : ℕ) (s : Pm)
      → signo ≢ k.sigkill
      → AllKillable k s
      → SafeResult k (sig_send k rmp signo s)
  unfolding sig_send
  Safe-sig_send rmp signo s other all =
      let ready =
        AllKillable-modify k rmp (sig_send_prepare signo) s (λ p. IsKillable-prepare signo p other)
          all in
      SafeResult-if k _ none _ (SafeResult-none k) (
        SafeResult-if k _ _ _ (SafeResult-some k false (record { at = ready.at })) (
          SafeResult-if k _ _ none
            (SafeResult-bind k _ _ (Safe-interrupt rmp _ (record { at = ready.at })) λ s2 all2.
              SafeResult-bind k _ _ (Safe-resume rmp s2 all2)
                λ s3 all3. SafeResult-some k true all3)
            (SafeResult-none k)))
