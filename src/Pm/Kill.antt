-- ===== src/Pm/Kill.antt =====
-- SIGKILL ends a process: `sig_proc` of projekt/servers/pm/signal.c.
use minix_server_of_mutex_an.Base.{
  ℕ, ◌≡◌, ap, ◌∙◌, Bool, true, false, not, if◌then◌else◌, ==_refl, and_false, arith,
}
use minix_server_of_mutex_an.Pm.{Pm, Kernel, is_alive, modify_proc}
use minix_server_of_mutex_an.Pm.Signal.{Other, ma_debugger, sig_proc_user, sig_proc_exit, sig_proc}
use minix_server_of_mutex_an.Pm.Killable.{IsKillable}

last_branch :
    {A : Type 0} (v w x y z : A) (a b c d : Bool)
    → a ≡ false
    → b ≡ false
    → c ≡ false
    → d ≡ false
    → (if a then v else if b then w else if c then x else if d then y else z) ≡ z
last_branch v w x y z a b c d ea eb ec ed = simp (ea, eb, ec, ed)

module _ (k : Kernel) (o : Other) (rmp : ℕ) (s : Pm) (h : IsKillable k (s.mproc rmp)) where
  no_debugger : (trace : Bool) → ma_debugger k o k.sigkill trace (s.mproc rmp) ≡ false
  no_debugger trace = ground arith

  kill_user :
      (ksig : Bool)
      → k.ign_sset k.sigkill ≡ false
      → sig_proc_user k o rmp k.sigkill ksig s ≡ sig_proc_exit k o rmp k.sigkill s
  unfolding sig_proc_user
  kill_user ksig ends = simp (h.ignore, h.mask, h.catch, ends, ==_refl k.sigkill, and_false)

  -- A SIGKILL reaches the end of `sig_proc`.
  pub kill_ends :
      (trace ksig : Bool)
      → is_alive (s.mproc rmp) ≡ true
      → (s.mproc rmp).flags.vfs_call ≡ false
      → (s.mproc rmp).flags.priv_proc ≡ false
      → k.ign_sset k.sigkill ≡ false
      → sig_proc k o rmp k.sigkill trace ksig s ≡ sig_proc_exit k o rmp k.sigkill s
  unfolding sig_proc
  kill_ends trace ksig alive idle user ends =
      last_branch _ _ _ _ _ (not (is_alive (s.mproc rmp)))
        (ma_debugger k o k.sigkill trace (s.mproc rmp)) (s.mproc rmp).flags.vfs_call
        (s.mproc rmp).flags.priv_proc (ap not alive) (no_debugger trace) idle user
      ∙ kill_user ksig ends

-- The process, with the signal that ends it.
abbrev pub killed : Kernel → ℕ → Pm → Pm
killed k rmp s = modify_proc rmp (λ p. record p { sigstatus = k.sigkill }) s
