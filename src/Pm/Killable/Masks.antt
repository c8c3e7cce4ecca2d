-- ===== src/Pm/Killable/Masks.antt =====
-- The changes of projekt/servers/pm/signal.c to masks and handlers keep SIGKILL deliverable.
use minix_server_of_mutex_an.Base.{
  ℕ, ◌≡◌, ◌≢◌, Bool, true, false, ℤ, pos, negsuc, ◌==◌, if◌then◌else◌, Bool-cases, inl, inr, arith,
}
use minix_server_of_mutex_an.Pm.{
  Sigset, sig_dfl, sig_ign, Handler, Sigaction, Mproc, Call, copy_in, copy_out, Pm, Kernel, call,
}
use minix_server_of_mutex_an.Pm.Masks.{
  Request, bez_kill, blokuj, odblokuj, ustaw_zbiory, ustaw_handler, sigaction_nowy, sigaction_stary,
  sigaction_numer,
}
use minix_server_of_mutex_an.Pm.Killable.{IsKillable, AllKillable, AllKillable-modify}

pub bez_kill-kill : (k : Kernel) (set : Sigset) → bez_kill k set k.sigkill ≡ false
bez_kill-kill k set = ground arith

module _ (k : Kernel) where
  IsKillable-zbiory :
      (n : ℕ) (handler : Handler) (p : Mproc)
      → n ≢ k.sigkill
      → IsKillable k p
      → IsKillable k (ustaw_zbiory n handler p)
  IsKillable-zbiory n sig_ign p apart h = record {
    mask = h.mask;
    mask2 = h.mask2;
    catch = ground (arith, h.catch);
    ignore = ground (arith, h.ignore);
    sa_mask = h.sa_mask;
  }
  IsKillable-zbiory n sig_dfl p apart h = record {
    mask = h.mask;
    mask2 = h.mask2;
    catch = ground (arith, h.catch);
    ignore = ground (arith, h.ignore);
    sa_mask = h.sa_mask;
  }
  IsKillable-zbiory n (Handler.function a) p apart h = record {
    mask = h.mask;
    mask2 = h.mask2;
    catch = ground (arith, h.catch);
    ignore = ground (arith, h.ignore);
    sa_mask = h.sa_mask;
  }

  IsKillable-handler :
      (n : ℕ) (svec : Sigaction) (ret : ℕ) (p : Mproc)
      → n ≢ k.sigkill
      → IsKillable k p
      → IsKillable k (ustaw_handler k n svec ret p)
  IsKillable-handler n svec ret p apart h =
      let z = IsKillable-zbiory n svec.sa_handler p apart h in
      record {
        mask = z.mask;
        mask2 = z.mask2;
        catch = z.catch;
        ignore = z.ignore;
        sa_mask = λ i. elim (Bool-cases (i == n)) [
          | inl e ↦ rw e (bez_kill-kill k svec.sa_mask)
          | inr e ↦ rw e (h.sa_mask i)
        ];
      }

  pub IsKillable-blokuj :
      (set : Sigset) (p : Mproc) → IsKillable k p → IsKillable k (blokuj k set p)
  unfolding blokuj
  IsKillable-blokuj set p h = record {
    mask = ground (arith, h.mask, bez_kill-kill k set);
    mask2 = h.mask2;
    catch = h.catch;
    ignore = h.ignore;
    sa_mask = h.sa_mask;
  }

  pub IsKillable-odblokuj :
      (set : Sigset) (p : Mproc) → IsKillable k p → IsKillable k (odblokuj k set p)
  unfolding odblokuj
  IsKillable-odblokuj set p h = record {
    mask = ground (arith, h.mask, bez_kill-kill k set);
    mask2 = h.mask2;
    catch = h.catch;
    ignore = h.ignore;
    sa_mask = h.sa_mask;
  }

  pub AllKillable-call : (c : Call) (s : Pm) → AllKillable k s → AllKillable k (call k c s).1
  AllKillable-call c s all = record { at = all.at }

  pub record Kept (r : ℤ × Pm) : Type 0 where
    pub all : AllKillable k r.1

  kept : (r : ℤ) {t : Pm} → AllKillable k t → Kept (r, t)
  kept r all = record { all = all }

  Result-if : (b : Bool) (x y : ℤ × Pm) → Kept x → Kept y → Kept (if b then x else y)
  Result-if true x y a b = a
  Result-if false x y a b = b

  AllKillable-nowy :
      (m : Request) (n : ℕ) (s : Pm)
      → n ≢ k.sigkill
      → AllKillable k s
      → Kept (sigaction_nowy k m n s)
  unfolding sigaction_nowy
  AllKillable-nowy m n s apart all =
      let copied = AllKillable-call (copy_in m.who_e m.sig_nsa) s all in
      Result-if (m.sig_nsa == 0) _ _ (kept k.ok all) (
        Result-if _ _ _
          (kept k.ok (
            AllKillable-modify k s.mp _ _
              (λ p.
                IsKillable-handler n (k.user_sigaction s.calls m.who_e m.sig_nsa) m.sig_ret p apart)
              copied))
          (kept (k.answer s.calls (copy_in m.who_e m.sig_nsa)) copied))

  AllKillable-stary :
      (m : Request) (n : ℕ) (s : Pm)
      → n ≢ k.sigkill
      → AllKillable k s
      → Kept (sigaction_stary k m n s)
  unfolding sigaction_stary
  AllKillable-stary m n s apart all =
      let copied = AllKillable-call (copy_out m.who_e m.sig_osa ((s.mproc s.mp).sigact n)) s all in
      Result-if _ _ _ (AllKillable-nowy m n s apart all) (
        Result-if _ _ _ (AllKillable-nowy m n _ apart copied)
          (kept (k.answer s.calls (copy_out m.who_e m.sig_osa ((s.mproc s.mp).sigact n))) copied))

  pub AllKillable-numer :
      (m : Request) (n : ℤ) (s : Pm) → AllKillable k s → Kept (sigaction_numer k m n s)
  AllKillable-numer m (negsuc n) s all = kept k.einval all
  AllKillable-numer m (pos n) s all = elim (Bool-cases (n == k.sigkill)) [
    | inl e ↦ rw e (kept k.ok all)
    | inr e ↦
        rw e
          (Result-if _ _ _ (kept k.einval all) (AllKillable-stary m n s (λ same. ground arith) all))
  ]
