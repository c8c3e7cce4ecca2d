-- ===== src/Pm/Killable/Wait.antt =====
-- `do_waitpid` of projekt/servers/pm/forkexit.c keeps SIGKILL deliverable.
use minix_server_of_mutex_an.Base.{
  ℕ, zero, suc, ◌≡◌, refl, subst, ◌+◌, ◌-◌, ◌*◌, Bool, true, false, ◌&&◌, Option, none, some, ℤ,
  pos, ◌==◌, ◌>>=◌, if◌then◌else◌, Option-cases, inl, inr,
}
use minix_server_of_mutex_an.Pm.{sigdelset, Mproc, Pm, Kernel, modify_proc}
use minix_server_of_mutex_an.Pm.Signal.{Other}
use minix_server_of_mutex_an.Pm.Children.{cleanup, tell_parent, tell_tracer}
use minix_server_of_mutex_an.Pm.Wait.{
  dziecko, pasuje_pid, pierwszy_sygnal, Przeglad, dalej, wynik, zatrzymany, zgloszenie,
  runda_rodzica, runda_stopu, zgloszenie_sledzacemu, runda, po_rundzie, przeglad, czekaj_na_dziecko,
  pidarg_grupy, do_waitpid,
}
use minix_server_of_mutex_an.Pm.Killable.{
  AllKillable, Safe, SafeResult, IsLawful, AllKillable-if, SafeResult-some,
}
use minix_server_of_mutex_an.Pm.Killable.Children.{
  AllKillable-fields, AllKillable-cleanup, Safe-tell_parent, Safe-tell_tracer, Safe-check_parent,
}

-- If the loop comes to a result, every process is killable.
record SafeRound (k : Kernel) (r : Option Przeglad) : Type 0 where
  pub keeps : (z : ℤ) (s : Pm) → r ≡ some (wynik z s) → AllKillable k s

module _ (k : Kernel) where
  round_none : SafeRound k none
  round_none = record { keeps = λ z s e. cc }

  round_dalej : (c : ℕ) → SafeRound k (some (dalej c))
  round_dalej c = record { keeps = λ z s e. cc }

  round_wynik : (r : ℤ) {s : Pm} → AllKillable k s → SafeRound k (some (wynik r s))
  round_wynik r {s} all = record {
    keeps = λ z t e. let same : s ≡ t = cc e in subst (AllKillable k) same all;
  }

  round_if :
      (b : Bool) (x y : Option Przeglad)
      → SafeRound k x
      → SafeRound k y
      → SafeRound k (if b then x else y)
  round_if true x y a b = a
  round_if false x y a b = b

  round_bind :
      (r : Option Pm) (g : Pm → Option Przeglad)
      → Safe k r
      → ((s : Pm) → AllKillable k s → SafeRound k (g s))
      → SafeRound k (r >>= g)
  round_bind none g safe next = round_none
  round_bind (some s) g safe next = next s (safe.keeps s refl)

  -- A round, and the next ones.
  round_next :
      (r : Option Przeglad) (rest : ℕ → Option Przeglad)
      → SafeRound k r
      → ((c : ℕ) → SafeRound k (rest c))
      → (o : Other) → SafeRound k (r >>= po_rundzie k o rest)
  round_next none rest safe next o = round_none
  round_next (some (dalej c)) rest safe next o = next c
  round_next (some (wynik z s)) rest safe next o = safe

  module _ (o : Other) (lawful : IsLawful k o) where
    Safe-zgloszenie : (i : ℕ) (s : Pm) → AllKillable k s → SafeRound k (zgloszenie k o i s)
    unfolding zgloszenie
    Safe-zgloszenie i s all =
        round_bind (tell_parent k i s) _ (Safe-tell_parent k i s all) λ s1 all1.
          round_wynik k.suspend (
            AllKillable-if k (s1.mproc i).flags.vfs_call s1 (cleanup i s1) all1
              (AllKillable-cleanup k i s1 all1))

    Safe-rodzica : (i c : ℕ) (s : Pm) → AllKillable k s → SafeRound k (runda_rodzica k o i c s)
    unfolding runda_rodzica
    Safe-rodzica i c s all =
        round_if ((s.mproc i).parent == s.who_p && (s.mproc i).flags.zombie) _ _
          (Safe-zgloszenie i s all) (round_dalej c)

    Safe-stopu : (i c : ℕ) (s : Pm) → AllKillable k s → SafeRound k (runda_stopu k o i c s)
    Safe-stopu i c s all =
        elim (Option-cases (pierwszy_sygnal (k.nsig - 1) 1 (s.mproc i).sigtrace)) [
          | inl e ↦ rw (runda_stopu, zatrzymany, e) (Safe-rodzica i c s all)
          | inr (n, e) ↦
              rw (runda_stopu, zatrzymany, e)
                (let f = λ (p : Mproc). record p { sigtrace = sigdelset n p.sigtrace } in
                  let g = λ (p : Mproc). record p { reply_res2 = pos (127 + n * 256) } in
                  round_wynik (pos (s.mproc i).pid) (
                    AllKillable-fields k s.mp g (modify_proc i f s) (λ p. refl)
                      (AllKillable-fields k i f s (λ p. refl) all)))
        ]

    Safe-runda : (i c : ℕ) (s : Pm) → AllKillable k s → SafeRound k (runda k o i c s)
    unfolding runda zgloszenie_sledzacemu
    Safe-runda i c s all =
        round_if ((s.mproc i).tracer == s.who_p && (s.mproc i).flags.trace_zombie) _ _
          (round_bind (tell_tracer k i s) _ (Safe-tell_tracer k i s all) λ s1 all1.
            round_bind _ _ (Safe-check_parent k o lawful i true s1 all1)
              λ s2 all2. round_wynik k.suspend all2)
          (round_if ((s.mproc i).tracer == s.who_p && (s.mproc i).flags.stopped) _ _
            (Safe-stopu i c s all) (Safe-rodzica i c s all))

    Safe-przeglad :
        (r i : ℕ) (pidarg : ℤ) (c : ℕ) (s : Pm)
        → AllKillable k s
        → SafeRound k (przeglad k o r i pidarg c s)
    unfolding przeglad
    Safe-przeglad zero i pidarg c s all = round_dalej c
    Safe-przeglad (suc r) i pidarg c s all =
        let rest = λ (d : ℕ). Safe-przeglad r (suc i) pidarg d s all in
        round_if (dziecko s.who_p (s.mproc i) && pasuje_pid pidarg (s.mproc i)) _ _
          (round_next (runda k o i (c + 1) s) _ (Safe-runda i (c + 1) s all) rest o) (rest c)

    Safe-czekaj :
        (pidarg : ℤ) (wnohang : Bool) (s : Pm) (r : Option Przeglad)
        → AllKillable k s
        → SafeRound k r
        → SafeResult k (do x ← r; some (czekaj_na_dziecko k o pidarg wnohang s x))
    unfolding czekaj_na_dziecko
    Safe-czekaj pidarg wnohang s none all safe = record { keeps = λ a t e. cc }
    Safe-czekaj pidarg wnohang s (some (wynik z t)) all safe =
        SafeResult-some k z (safe.keeps z t refl)
    Safe-czekaj pidarg wnohang s (some (dalej zero)) all safe = SafeResult-some k k.echild all
    Safe-czekaj pidarg true s (some (dalej (suc n))) all safe = SafeResult-some k (pos 0) all
    Safe-czekaj pidarg false s (some (dalej (suc n))) all safe =
        let f =
          λ (p : Mproc). record p { flags = record p.flags { waiting = true }; wpid = pidarg } in
        SafeResult-some k k.suspend (AllKillable-fields k s.mp f s (λ p. refl) all)

    pub Safe-do_waitpid :
        (pid : ℤ) (wnohang : Bool) (s : Pm)
        → AllKillable k s
        → SafeResult k (do_waitpid k o pid wnohang s)
    unfolding do_waitpid
    Safe-do_waitpid pid wnohang s all =
        Safe-czekaj (pidarg_grupy k o pid s) wnohang s _ all
          (Safe-przeglad k.nr_procs 0 (pidarg_grupy k o pid s) 0 s all)
