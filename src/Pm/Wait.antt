-- ===== src/Pm/Wait.antt =====
-- `do_waitpid` of projekt/servers/pm/forkexit.c.
use minix_server_of_mutex_an.Base.{
  ℕ, zero, suc, ◌+◌, ◌*◌, ◌-◌, Bool, true, not, ◌&&◌, ◌||◌, Option, none, some, ℤ, pos, negsuc, neg,
  ◌==◌, if◌then◌else◌, ◌>>=◌,
}
use minix_server_of_mutex_an.Pm.{Sigset, sigismember, sigdelset, Mproc, Pm, Kernel, modify_proc}
use minix_server_of_mutex_an.Pm.Signal.{Other}
use minix_server_of_mutex_an.Pm.Children.{tell_parent, tell_tracer, check_parent, cleanup}

-- The tests of the loop that do not look at `pidarg`: a child, or a process that `who_p` traces.
abbrev pub dziecko : ℕ → Mproc → Bool
dziecko who_p p =
    p.flags.in_use
    && (not p.flags.told_parent
        && ((p.parent == who_p || p.tracer == who_p) && (p.parent == who_p || not p.flags.zombie)))

-- The tests on `pidarg`.
abbrev pub pasuje_pid : ℤ → Mproc → Bool
pasuje_pid (pos zero) p = true
pasuje_pid (pos (suc n)) p = suc n == p.pid
pasuje_pid (negsuc zero) p = true
pasuje_pid (negsuc (suc n)) p = suc (suc n) == p.procgrp

-- The first signal from `i` on that is in the set, with the rounds that are left.
abbrev pub pierwszy_sygnal : ℕ → ℕ → Sigset → Option ℕ
pierwszy_sygnal zero i set = none
pierwszy_sygnal (suc r) i set = if sigismember set i then some i else pierwszy_sygnal r (suc i) set

-- What a round of the loop, or all of it, comes to: no child to report and so many that qualify, or
-- a result.
pub data Przeglad : Type 0 where
  dalej : ℕ → Przeglad
  wynik : ℤ → Pm → Przeglad

module _ (k : Kernel) (o : Other) where
  -- A traced process that stopped: its signal is the result, if there is one.
  abbrev pub zatrzymany : ℕ → Pm → Option (ℤ × Pm)
  zatrzymany i s = elim (pierwszy_sygnal (k.nsig - 1) 1 (s.mproc i).sigtrace) [
    | none ↦ none
    | some n ↦ some (
      pos (s.mproc i).pid,
      modify_proc s.mp (λ p. record p { reply_res2 = pos (127 + n * 256) })
          (modify_proc i (λ p. record p { sigtrace = sigdelset n p.sigtrace }) s),
    )
  ]

  -- A child that ended and was not reported.
  unfoldable pub zgloszenie : ℕ → Pm → Option Przeglad
  unfolding tell_parent cleanup
  zgloszenie i s = do
    s1 ← tell_parent k i s
    some (wynik k.suspend (if (s1.mproc i).flags.vfs_call then s1 else cleanup i s1))

  -- The rest of a round for a process that qualifies, behind the part for tracers.
  unfoldable pub runda_rodzica : ℕ → ℕ → Pm → Option Przeglad
  unfolding zgloszenie
  runda_rodzica i children s =
      if (s.mproc i).parent == s.who_p && (s.mproc i).flags.zombie
      then zgloszenie i s
      else some (dalej children)

  -- The part for a traced process that stopped.
  abbrev pub runda_stopu : ℕ → ℕ → Pm → Option Przeglad
  runda_stopu i children s = elim (zatrzymany i s) [
    | none ↦ runda_rodzica i children s
    | some (r, s1) ↦ some (wynik r s1)
  ]

  -- A traced process that ended.
  unfoldable pub zgloszenie_sledzacemu : ℕ → Pm → Option Przeglad
  unfolding tell_tracer check_parent
  zgloszenie_sledzacemu i s = do
    s1 ← tell_tracer k i s
    s2 ← check_parent k o i true s1
    some (wynik k.suspend s2)

  -- A round for a process that qualifies.
  unfoldable pub runda : ℕ → ℕ → Pm → Option Przeglad
  unfolding zgloszenie_sledzacemu runda_rodzica
  runda i children s =
      if (s.mproc i).tracer == s.who_p && (s.mproc i).flags.trace_zombie
      then zgloszenie_sledzacemu i s
      else if (s.mproc i).tracer == s.who_p && (s.mproc i).flags.stopped
      then runda_stopu i children s
      else runda_rodzica i children s

  abbrev pub po_rundzie : (ℕ → Option Przeglad) → Przeglad → Option Przeglad
  po_rundzie rest (dalej children) = rest children
  po_rundzie rest (wynik r s) = some (wynik r s)

  -- The loop from the slot `i` on, with the rounds that are left.
  unfoldable pub przeglad : ℕ → ℕ → ℤ → ℕ → Pm → Option Przeglad
  unfolding runda
  przeglad zero i pidarg children s = some (dalej children)
  przeglad (suc r) i pidarg children s =
      let rest = λ (c : ℕ). przeglad r (suc i) pidarg c s in
      if dziecko s.who_p (s.mproc i) && pasuje_pid pidarg (s.mproc i)
      then runda i (children + 1) s >>= po_rundzie rest
      else rest children

  -- Behind the loop.
  unfoldable pub czekaj_na_dziecko : ℤ → Bool → Pm → Przeglad → ℤ × Pm
  unfolding modify_proc
  czekaj_na_dziecko pidarg wnohang s (wynik r s1) = (r, s1)
  czekaj_na_dziecko pidarg wnohang s (dalej zero) = (k.echild, s)
  czekaj_na_dziecko pidarg wnohang s (dalej (suc n)) = if wnohang then (pos 0, s) else (
    k.suspend,
    modify_proc s.mp (λ p. record p { flags = record p.flags { waiting = true }; wpid = pidarg }) s,
  )

  -- `if (pidarg == 0) pidarg = -mp->mp_procgrp;`
  abbrev pub pidarg_grupy : ℤ → Pm → ℤ
  pidarg_grupy (pos zero) s = neg (pos (s.mproc s.mp).procgrp)
  pidarg_grupy (pos (suc n)) s = pos (suc n)
  pidarg_grupy (negsuc n) s = negsuc n

  -- `do_waitpid`; `WAIT` is the call with -1 and without `WNOHANG`.
  unfoldable pub do_waitpid : ℤ → Bool → Pm → Option (ℤ × Pm)
  unfolding przeglad czekaj_na_dziecko
  do_waitpid pid wnohang s = do
    r ← przeglad k.nr_procs 0 (pidarg_grupy pid s) 0 s
    some (czekaj_na_dziecko (pidarg_grupy pid s) wnohang s r)
