-- ===== src/Pm/Waited.antt =====
-- Which child `do_waitpid` of projekt/servers/pm/forkexit.c reports, and what it does otherwise.
use minix_server_of_mutex_an.Base.{
  ℕ, zero, suc, ◌+◌, ◌-◌, ◌*◌, ◌≡◌, refl, ap, ◌∙◌, Bool, true, false, ◌&&◌, ◌||◌, Option, none,
  some, ℤ, pos, ◌==◌, ◌>>=◌, if◌then◌else◌, Option-cases, inl, inr, arith,
}
use minix_server_of_mutex_an.Pm.{sigdelset, Mproc, Pm, Kernel, modify_proc}
use minix_server_of_mutex_an.Pm.Utility.{szukaj}
use minix_server_of_mutex_an.Pm.Signal.{Other}
use minix_server_of_mutex_an.Pm.Children.{cleanup, tell_parent, tell_tracer, check_parent}
use minix_server_of_mutex_an.Pm.Wait.{
  dziecko, pasuje_pid, pierwszy_sygnal, Przeglad, dalej, wynik, zatrzymany, zgloszenie,
  runda_rodzica, runda_stopu, zgloszenie_sledzacemu, runda, po_rundzie, przeglad, czekaj_na_dziecko,
  pidarg_grupy, do_waitpid,
}

-- A process that the caller asks for.
abbrev pub matches : ℤ → ℕ → Mproc → Bool
matches pidarg who_p p = dziecko who_p p && pasuje_pid pidarg p

abbrev pub has_signal : Kernel → Mproc → Bool
has_signal k p = elim (pierwszy_sygnal (k.nsig - 1) 1 p.sigtrace) [ none ↦ false | some n ↦ true ]

-- A process that has something to report: to the tracer its end or a signal, or to the parent its
-- end.
abbrev pub ready : Kernel → ℕ → Mproc → Bool
ready k who_p p =
    (p.tracer == who_p && p.flags.trace_zombie)
    || (((p.tracer == who_p && p.flags.stopped) && has_signal k p)
        || (p.parent == who_p && p.flags.zombie))

abbrev pub count : (Mproc → Bool) → ℕ → ℕ → (ℕ → Mproc) → ℕ
count test zero i table = 0
count test (suc r) i table = (if test (table i) then 1 else 0) + count test r (suc i) table

module _ (k : Kernel) (o : Other) where
  -- The report to the tracer that a process ended.
  abbrev pub tracer_report : ℕ → Pm → Option (ℤ × Pm)
  tracer_report i s = do
    s1 ← tell_tracer k i s
    s2 ← check_parent k o i true s1
    some (k.suspend, s2)

  -- The report to the parent that a process ended: its slot is free unless VFS still works for it.
  abbrev pub parent_report : ℕ → Pm → Option (ℤ × Pm)
  parent_report i s = do
    s1 ← tell_parent k i s
    some (k.suspend, if (s1.mproc i).flags.vfs_call then s1 else cleanup i s1)

  -- The report to the tracer that a process got the signal `n`.
  abbrev pub signal_report : ℕ → ℕ → Pm → ℤ × Pm
  signal_report n i s = (
    pos (s.mproc i).pid,
    modify_proc s.mp (λ p. record p { reply_res2 = pos (127 + n * 256) })
        (modify_proc i (λ p. record p { sigtrace = sigdelset n p.sigtrace }) s),
  )

  -- The report of a process that is ready.
  abbrev pub report : ℕ → Pm → Option (ℤ × Pm)
  report i s =
      let p = s.mproc i in
      if p.tracer == s.who_p && p.flags.trace_zombie
      then tracer_report i s
      else if p.tracer == s.who_p && p.flags.stopped
      then elim (pierwszy_sygnal (k.nsig - 1) 1 p.sigtrace) [
        | none ↦ parent_report i s
        | some n ↦ some (signal_report n i s)
      ]
      else parent_report i s

  abbrev as_result : ℤ × Pm → Option Przeglad
  as_result r = some (wynik r.0 r.1)

  parent_round :
      (i c : ℕ) (s : Pm)
      → runda_rodzica k o i c s ≡ (
          if (s.mproc i).parent == s.who_p && (s.mproc i).flags.zombie
          then parent_report i s >>= as_result
          else some (dalej c))
  unfolding runda_rodzica zgloszenie
  parent_round i c s = elim (Option-cases (tell_parent k i s)) [
    | inl e ↦ rw (runda_rodzica, zgloszenie, e)
    | inr (t, e) ↦ rw (runda_rodzica, zgloszenie, e)
  ]

  tracer_round :
      (i : ℕ) (s : Pm) → zgloszenie_sledzacemu k o i s ≡ (tracer_report i s >>= as_result)
  unfolding zgloszenie_sledzacemu
  tracer_round i s = elim (Option-cases (tell_tracer k i s)) [
    | inl e ↦ rw (zgloszenie_sledzacemu, e)
    | inr (t, e) ↦ elim (Option-cases (check_parent k o i true t)) [
      | inl f ↦ rw (zgloszenie_sledzacemu, e, f)
      | inr (u, f) ↦ rw (zgloszenie_sledzacemu, e, f)
    ]
  ]

  choice :
      (a b z : Bool) (m : Option ℕ) (t p : Option (ℤ × Pm)) (g : ℕ → ℤ × Pm) (c : ℕ)
      → (if a
          then t >>= as_result
          else if b
          then elim m [
            | none ↦ if z then p >>= as_result else some (dalej c)
            | some n ↦ as_result (g n)
          ]
          else if z
          then p >>= as_result
          else some (dalej c))
        ≡ (if a || ((b && elim m [ none ↦ false | some n ↦ true ]) || z)
            then (if a then t else if b then elim m [ none ↦ p | some n ↦ some (g n) ] else p)
              >>= as_result
            else some (dalej c))
  choice true b z m t p g c = refl
  choice false true true none t p g c = refl
  choice false true false none t p g c = refl
  choice false true z (some n) t p g c = refl
  choice false false true m t p g c = refl
  choice false false false m t p g c = refl

  stop_round :
      (i c : ℕ) (s : Pm)
      → runda_stopu k o i c s ≡ elim (pierwszy_sygnal (k.nsig - 1) 1 (s.mproc i).sigtrace) [
        | none ↦
            if (s.mproc i).parent == s.who_p && (s.mproc i).flags.zombie
            then parent_report i s >>= as_result
            else some (dalej c)
        | some n ↦ as_result (signal_report n i s)
      ]
  stop_round i c s = elim (Option-cases (pierwszy_sygnal (k.nsig - 1) 1 (s.mproc i).sigtrace)) [
    | inl e ↦ rw (runda_stopu, zatrzymany, e) (parent_round i c s)
    | inr (n, e) ↦ rw (runda_stopu, zatrzymany, e)
  ]

  -- A round reports, if there is something to report.
  round :
      (i c : ℕ) (s : Pm)
      → runda k o i c s
        ≡ (if ready k s.who_p (s.mproc i) then report i s >>= as_result else some (dalej c))
  unfolding runda
  round i c s =
      rw (runda, tracer_round i s, stop_round i c s, parent_round i c s)
        (choice ((s.mproc i).tracer == s.who_p && (s.mproc i).flags.trace_zombie)
          ((s.mproc i).tracer == s.who_p && (s.mproc i).flags.stopped)
          ((s.mproc i).parent == s.who_p && (s.mproc i).flags.zombie)
          (pierwszy_sygnal (k.nsig - 1) 1 (s.mproc i).sigtrace) (tracer_report i s)
          (parent_report i s) (λ n. signal_report n i s) c)

  -- A result ends the loop.
  stays :
      (r : Option (ℤ × Pm)) (rest : ℕ → Option Przeglad)
      → ((r >>= as_result) >>= po_rundzie k o rest) ≡ (r >>= as_result)
  stays none rest = refl
  stays (some r) rest = refl

  abbrev pub waits_for : ℤ → ℕ → Mproc → Bool
  waits_for pidarg who_p p = matches pidarg who_p p && ready k who_p p

  -- A round of the loop and the next ones, by whether the process is asked for and is ready.
  loop_step :
      (m z : Bool) (i c n : ℕ) (s : Pm) (rest : ℕ → Option Przeglad) (found : Option ℕ)
      → ((d : ℕ)
          → rest d ≡ elim found [ none ↦ some (dalej (d + n)) | some j ↦ report j s >>= as_result ])
      → (if m
          then (if z then report i s >>= as_result else some (dalej (c + 1)))
            >>= po_rundzie k o rest
          else rest c)
        ≡ elim (if m && z then some i else found) [
          | none ↦ some (dalej (c + ((if m then 1 else 0) + n)))
          | some j ↦ report j s >>= as_result
        ]
  loop_step true true i c n s rest found h = stays (report i s) rest
  loop_step true false i c n s rest none h = h (c + 1) ∙ ap (λ d. some (dalej d)) (omega arith)
  loop_step true false i c n s rest (some j) h = h (c + 1)
  loop_step false z i c n s rest none h = h c ∙ ap (λ d. some (dalej d)) (omega arith)
  loop_step false z i c n s rest (some j) h = h c

  -- The loop from the slot `i` on.
  loop :
      (r i c : ℕ) (pidarg : ℤ) (s : Pm)
      → przeglad k o r i pidarg c s ≡ elim (szukaj (waits_for pidarg s.who_p) r i s.mproc) [
        | none ↦ some (dalej (c + count (matches pidarg s.who_p) r i s.mproc))
        | some j ↦ report j s >>= as_result
      ]
  unfolding przeglad
  loop zero i c pidarg s = ap (λ n. some (dalej n)) (omega arith)
  loop (suc r) i c pidarg s =
      let p = s.mproc i in
      let rest = λ (d : ℕ). przeglad k o r (suc i) pidarg d s in
      ap
        (λ (x : Option Przeglad).
          if matches pidarg s.who_p p then x >>= po_rundzie k o rest else rest c)
        (round i (c + 1) s)
      ∙ loop_step (matches pidarg s.who_p p) (ready k s.who_p p) i c
          (count (matches pidarg s.who_p) r (suc i) s.mproc) s rest
          (szukaj (waits_for pidarg s.who_p) r (suc i) s.mproc) λ d. loop r (suc i) d pidarg s

  -- Without a report: an error if there is nobody to wait for, 0 if the caller does not want to
  -- wait, and else the caller waits.
  abbrev pub no_report : ℤ → Bool → Pm → ℕ → ℤ × Pm
  no_report pidarg wnohang s n = if n == 0 then (k.echild, s) else if wnohang then (pos 0, s) else (
    k.suspend,
    modify_proc s.mp (λ p. record p { flags = record p.flags { waiting = true }; wpid = pidarg }) s,
  )

  abbrev pub outcome : ℤ → Bool → Pm → Option (ℤ × Pm)
  outcome pidarg wnohang s = elim (szukaj (waits_for pidarg s.who_p) k.nr_procs 0 s.mproc) [
    | none ↦ some (no_report pidarg wnohang s (count (matches pidarg s.who_p) k.nr_procs 0 s.mproc))
    | some j ↦ report j s
  ]

  behind :
      (pidarg : ℤ) (wnohang : Bool) (s : Pm) (n : ℕ)
      → czekaj_na_dziecko k o pidarg wnohang s (dalej n) ≡ no_report pidarg wnohang s n
  unfolding czekaj_na_dziecko
  behind pidarg wnohang s zero = refl
  behind pidarg true s (suc n) = ground arith
  behind pidarg false s (suc n) = ground arith

  taken :
      (pidarg : ℤ) (wnohang : Bool) (s : Pm) (r : Option (ℤ × Pm))
      → (do x ← r >>= as_result; some (czekaj_na_dziecko k o pidarg wnohang s x)) ≡ r
  unfolding czekaj_na_dziecko
  taken pidarg wnohang s none = refl
  taken pidarg wnohang s (some r) = refl

  -- `do_waitpid` reports exactly the first process, in the order of the slots, that the caller asks
  -- for as its parent or tracer and that has something to report: to its tracer an end or a signal,
  -- to its parent an end. Without one it fails with ECHILD if the caller asks for no process of the
  -- table, returns 0 if the caller does not want to wait, and else marks the caller as waiting.
  pub do_waitpid-outcome :
      (pid : ℤ) (wnohang : Bool) (s : Pm)
      → do_waitpid k o pid wnohang s ≡ outcome (pidarg_grupy k o pid s) wnohang s
  unfolding do_waitpid
  do_waitpid-outcome pid wnohang s =
      let pidarg = pidarg_grupy k o pid s in
      let test = waits_for pidarg s.who_p in
      let whole = loop k.nr_procs 0 0 pidarg s in
      elim (Option-cases (szukaj test k.nr_procs 0 s.mproc)) [
        | inl e ↦
            rw (do_waitpid, whole, outcome, e)
              (ap some (
                behind pidarg wnohang s (0 + count (matches pidarg s.who_p) k.nr_procs 0 s.mproc)
                ∙ ap (no_report pidarg wnohang s) (omega arith)))
        | inr (j, e) ↦ rw (do_waitpid, whole, outcome, e) (taken pidarg wnohang s (report j s))
      ]
