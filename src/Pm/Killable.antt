-- ===== src/Pm/Killable.antt =====
-- SIGKILL in projekt/servers/pm/signal.c: no process blocks, catches or ignores it.
pub mod Calls
pub mod Children
pub mod Deliver
pub mod Exit
pub mod Fork
pub mod Init
pub mod Ksig
pub mod Loop
pub mod Masks
pub mod Send
pub mod Vfs
pub mod Wait
use minix_server_of_mutex_an.Base.{
  ℕ, zero, suc, ◌≡◌, ◌≢◌, refl, ap, subst, Bool, true, false, not, ◌&&◌, ◌||◌, Option, none, some,
  ℤ, pos, negsuc, equals, ◌==◌, ◌-◌, if◌then◌else◌, ◌>>=◌, Bool-cases, inl, inr, ==_refl, ==_ne,
  ==_iff, arith,
}
use minix_server_of_mutex_an.Pm.{
  Sigset, sigaddset, sigdelset, sig_dfl, Sigaction, Flags, Mproc, Notice, Call, asynsend3,
  vm_notify_sig, Pm, Kernel, modify_proc, set_flags, call, must, is_alive,
}
use minix_server_of_mutex_an.Pm.Utility.{
  szukaj, jest_uslugi, cv_name, ipc_name, tell_vfs, tell_cv, vm_notify_sig_wrapper,
}
use minix_server_of_mutex_an.Pm.Signal.{
  Other, unpause_vfs, unpause_stop, unpause, sig_send_prepare, sig_send_interrupt, sig_send_resume,
  sig_send, setreply, zapamietaj, sig_proc_exit, sig_proc_vfs, sig_proc_priv, sig_proc_send,
  sig_proc_catch, sig_proc_user, sig_proc, dostarcz, check_pending_od, check_pending,
}

pub record IsKillable (k : Kernel) (p : Mproc) : Type 0 where
  pub mask : p.sigmask k.sigkill ≡ false
  pub mask2 : p.sigmask2 k.sigkill ≡ false
  pub catch : p.catch k.sigkill ≡ false
  pub ignore : p.ignore k.sigkill ≡ false
  pub sa_mask : (n : ℕ) → (p.sigact n).sa_mask k.sigkill ≡ false

pub record AllKillable (k : Kernel) (s : Pm) : Type 0 where
  pub at : (i : ℕ) → IsKillable k (s.mproc i)

-- If a step returns, every process is killable after it.
pub record Safe (k : Kernel) (r : Option Pm) : Type 0 where
  pub keeps : (s : Pm) → r ≡ some s → AllKillable k s

-- The same for a step with a result.
pub record SafeResult {A : Type 0} (k : Kernel) (r : Option (A × Pm)) : Type 0 where
  pub keeps : (a : A) (s : Pm) → r ≡ some (a, s) → AllKillable k s

-- What the functions of other files have to keep.
pub record IsLawful (k : Kernel) (o : Other) : Type 0 where
  pub exit_proc :
      (rmp : ℕ) (status : ℤ) (dump : Bool) (s : Pm)
      → AllKillable k s
      → Safe k (o.exit_proc rmp status dump s)
  pub set_alarm : (rmp ticks : ℕ) (s : Pm) → AllKillable k s → Safe k (o.set_alarm rmp ticks s)
  pub stop_proc : (rmp signo : ℕ) (s : Pm) → AllKillable k s → Safe k (o.stop_proc rmp signo s)
  pub check_vtimer :
      (rmp signo : ℕ) (s : Pm) → AllKillable k s → Safe k (o.check_vtimer rmp signo s)

module _ (k : Kernel) where
  pub Safe-none : Safe k none
  Safe-none = record { keeps = λ s e. cc }

  pub Safe-some : {s : Pm} → AllKillable k s → Safe k (some s)
  Safe-some {s} all = record {
    keeps = λ t e. let same : s ≡ t = cc e in subst (AllKillable k) same all;
  }

  pub Safe-bind :
      (r : Option Pm) (g : Pm → Option Pm)
      → Safe k r
      → ((s : Pm) → AllKillable k s → Safe k (g s))
      → Safe k (r >>= g)
  Safe-bind none g safe next = Safe-none
  Safe-bind (some s) g safe next = next s (safe.keeps s refl)

  pub Safe-if : (b : Bool) (x y : Option Pm) → Safe k x → Safe k y → Safe k (if b then x else y)
  Safe-if true x y a b = a
  Safe-if false x y a b = b

  -- The same where the branch that is taken matters.
  pub Safe-branch :
      (b : Bool) (x y : Option Pm)
      → (b ≡ true → Safe k x)
      → (b ≡ false → Safe k y)
      → Safe k (if b then x else y)
  Safe-branch true x y a b = a refl
  Safe-branch false x y a b = b refl

  pub AllKillable-if :
      (b : Bool) (x y : Pm) → AllKillable k x → AllKillable k y → AllKillable k (if b then x else y)
  AllKillable-if true x y a b = a
  AllKillable-if false x y a b = b

  pub AllKillable-modify :
      (rmp : ℕ) (f : Mproc → Mproc) (s : Pm)
      → ((p : Mproc) → IsKillable k p → IsKillable k (f p))
      → AllKillable k s
      → AllKillable k (modify_proc rmp f s)
  unfolding modify_proc
  AllKillable-modify rmp f s keeps all = record {
    at = λ i. elim (Bool-cases (i == rmp)) [
      | inl e ↦ rw e (keeps (s.mproc i) (all.at i))
      | inr e ↦ rw e (all.at i)
    ];
  }

  -- A change of the flags.
  pub AllKillable-flags :
      (rmp : ℕ) (f : Flags → Flags) (s : Pm) → AllKillable k s → AllKillable k (set_flags rmp f s)
  unfolding set_flags
  AllKillable-flags rmp f s =
      AllKillable-modify rmp (λ p. record p { flags = f p.flags }) s
        λ p h. record {
          mask = h.mask;
          mask2 = h.mask2;
          catch = h.catch;
          ignore = h.ignore;
          sa_mask = h.sa_mask;
        }

  pub Safe-must : (c : Call) (s : Pm) → AllKillable k s → Safe k (must k c s)
  unfolding must
  Safe-must c s all =
      Safe-if (equals (k.answer s.calls c) k.ok) _ none (Safe-some (record { at = all.at }))
        Safe-none

  pub Safe-tell_vfs :
      (rmp : ℕ) (m : Notice) (s : Pm) → AllKillable k s → Safe k (tell_vfs k rmp m s)
  unfolding tell_vfs
  Safe-tell_vfs rmp m s all =
      Safe-if _ none _ Safe-none
        (Safe-bind _ _ (Safe-must _ s all) λ s1 all1. Safe-some (AllKillable-flags rmp _ s1 all1))

  pub Safe-tell_cv : (m : Notice) (s : Pm) → AllKillable k s → Safe k (tell_cv k m s)
  unfolding tell_cv
  Safe-tell_cv m s all =
      elim (szukaj (jest_uslugi cv_name) k.nr_procs 0 s.mproc)
        as (λ r.
          Safe k
            (elim r [ none ↦ some s | some i ↦ must k (asynsend3 (s.mproc i).endpoint m) s ])) [
              | none ↦ Safe-some all
              | some i ↦ Safe-must _ s all
            ]

  pub AllKillable-vm :
      (ep : ℕ) (s : Pm) → AllKillable k s → AllKillable k (vm_notify_sig_wrapper k ep s)
  unfolding vm_notify_sig_wrapper
  AllKillable-vm ep s all =
      elim (szukaj (jest_uslugi ipc_name) k.nr_procs 0 s.mproc)
        as (λ r.
          AllKillable k
            (elim r [ none ↦ s | some i ↦ (call k (vm_notify_sig ep (s.mproc i).endpoint) s).1 ])) [
              | none ↦ all
              | some i ↦ record { at = all.at }
            ]

  Safe-unpause_vfs : (rmp : ℕ) (s : Pm) → AllKillable k s → Safe k (unpause_vfs k rmp s)
  unfolding unpause_vfs
  Safe-unpause_vfs rmp s all = Safe-bind _ _ (Safe-tell_vfs rmp _ s all) λ s1 all1.
      Safe-bind _ _ (Safe-tell_cv _ s1 all1) λ s2 all2. Safe-some (AllKillable-vm _ s2 all2)

  pub Safe-unpause : (rmp : ℕ) (s : Pm) → AllKillable k s → Safe k (unpause k rmp s)
  unfolding unpause unpause_stop
  Safe-unpause rmp s all = Safe-if _ _ _ (Safe-some all) (
      Safe-if _ _ _
        (Safe-bind _ _ (Safe-must _ s all) λ s1 all1. Safe-some (AllKillable-flags rmp _ s1 all1))
        (Safe-if _ _ _ (Safe-unpause_vfs rmp s all) (
          Safe-if _ _ _ (Safe-some (AllKillable-flags rmp _ _ (record { at = all.at }))) (
            Safe-if _ _ none
              (Safe-unpause_vfs rmp _ (AllKillable-flags rmp _ _ (record { at = all.at })))
              Safe-none))))

module _ (k : Kernel) {A : Type 0} where
  pub SafeResult-none : SafeResult {A = A} k none
  SafeResult-none = record { keeps = λ a s e. cc }

  pub SafeResult-some : (a : A) {s : Pm} → AllKillable k s → SafeResult k (some (a, s))
  SafeResult-some a {s} all = record {
    keeps = λ b t e.
        let same : s ≡ t = ap (λ x. elim x [ none ↦ s | some (c, u) ↦ u ]) e in
        subst (AllKillable k) same all;
  }

  pub SafeResult-if :
      (b : Bool) (x y : Option (A × Pm))
      → SafeResult k x
      → SafeResult k y
      → SafeResult k (if b then x else y)
  SafeResult-if true x y a b = a
  SafeResult-if false x y a b = b

  pub SafeResult-bind :
      (r : Option Pm) (g : Pm → Option (A × Pm))
      → Safe k r
      → ((s : Pm) → AllKillable k s → SafeResult k (g s))
      → SafeResult k (r >>= g)
  SafeResult-bind none g safe next = SafeResult-none
  SafeResult-bind (some s) g safe next = next s (safe.keeps s refl)

  pub Safe-result :
      (r : Option (A × Pm)) (g : A × Pm → Option Pm)
      → SafeResult k r
      → ((a : A) (s : Pm) → AllKillable k s → Safe k (g (a, s)))
      → Safe k (r >>= g)
  Safe-result none g safe next = Safe-none k
  Safe-result (some (a, s)) g safe next = next a s (safe.keeps a s refl)

  -- A result, and what follows it.
  pub SafeResult-then :
      {B : Type 0} (r : Option (B × Pm)) (g : B × Pm → Option (A × Pm))
      → SafeResult k r
      → ((b : B) (s : Pm) → AllKillable k s → SafeResult k (g (b, s)))
      → SafeResult k (r >>= g)
  SafeResult-then none g safe next = SafeResult-none
  SafeResult-then (some (b, s)) g safe next = next b s (safe.keeps b s refl)
