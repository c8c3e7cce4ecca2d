-- ===== src/Pm/Forked/Child.antt =====
-- What `do_fork` of projekt/servers/pm/forkexit.c makes.
use minix_server_of_mutex_an.Base.{
  ℕ, ◌+◌, ◌*◌, ◌-◌, ◌<◌, ◌≤◌, ◌≡◌, ◌≢◌, refl, sym, ap, ap₂, ◌∙◌, true, false, Option, some, List,
  [], ◌∷◌, ◌++◌, ℤ, equals_refl, Bool-cases, inl, inr, ==_refl, ==_ne, append_assoc, arith,
}
use minix_server_of_mutex_an.Pm.{Mproc, pm_fork, Call, asynsend3, vm_fork, Pm, Kernel, modify_proc}
use minix_server_of_mutex_an.Pm.Utility.{pid_zajety, get_free_pid}
use minix_server_of_mutex_an.Pm.Signal.{Other}
use minix_server_of_mutex_an.Pm.Fork.{
  pelna, wolny_slot, kopia, przydziel, dziedziczone, wyzeruj, zajmij, wiadomosc_fork, fork_dalej,
  fork_slot, do_fork,
}
use minix_server_of_mutex_an.Pm.Forked.{slot_after, FreeSlot, wolny_slot_lem}
use minix_server_of_mutex_an.Pm.Pids.{true-false, has_number, pid_zajety-is_some, get_free_pid_lem}
use minix_server_of_mutex_an.Pm.Forked.Steps.{
  szukaj-none, numbered, told, ozyw_lem, numbered-at, numbered-other, told-at, told-other,
  told-calls, told-count, numbered-count,
}

module _ (k : Kernel) (o : Other)
    (answers : (cs : List Call) (c : Call) → k.answer cs c ≡ k.ok) where
  -- The endpoint that VM gives the child in the slot `c`, and the child before it has its number.
  abbrev pub new_endpoint : ℕ → Pm → ℕ
  new_endpoint c s = k.child_ep s.calls (s.mproc s.mp).endpoint c

  abbrev newborn : ℕ → Pm → Mproc
  newborn c s = wyzeruj dziedziczone (new_endpoint c s) (kopia k s.who_p (s.mproc s.mp))

  -- The state once VM made the child.
  abbrev occupied : ℕ → Pm → Pm
  occupied c s =
      zajmij k o c (newborn c s)
        (record s { next_child = c; calls = s.calls ++ vm_fork (s.mproc s.mp).endpoint c ∷ [] })

  -- What `do_fork` leaves behind, with the child in the slot `c`.
  pub record Forked (c : ℕ) (s : Pm) (r : Option (ℤ × Pm)) : Type 0 where
    pub pid : ℕ
    pub after : Pm
    pub returns : r ≡ some (k.suspend, after)
    pub in_use : (after.mproc c).flags.in_use ≡ true
    pub parent : (after.mproc c).parent ≡ s.who_p
    pub endpoint : (after.mproc c).endpoint ≡ new_endpoint c s
    pub has_pid : (after.mproc c).pid ≡ pid
    pub fresh : (i : ℕ) → i < k.nr_procs → i ≢ c → has_number pid (s.mproc i) ≡ false
    pub waits : (after.mproc c).flags.vfs_call ≡ true
    pub sends :
        after.calls
        ≡ s.calls
          ++ vm_fork (s.mproc s.mp).endpoint c
            ∷ asynsend3 k.vfs_proc_nr (pm_fork (new_endpoint c s) (s.mproc s.mp).endpoint pid)
            ∷ []
    pub counts : after.procs_in_use ≡ s.procs_in_use + 1
    pub others : (i : ℕ) → i ≢ c → after.mproc i ≡ s.mproc i

  newborn_tracer :
      (c : ℕ) (s : Pm) → (s.mproc s.mp).to_tracefork ≡ false → (newborn c s).tracer ≡ k.no_tracer
  newborn_tracer c s e = rw e

  newborn-fields :
      (c : ℕ) (s : Pm)
      → ((newborn c s).parent ≡ s.who_p)
        × ((newborn c s).flags.in_use ≡ (s.mproc s.mp).flags.in_use)
  newborn-fields c s = elim (Bool-cases (s.mproc s.mp).to_tracefork) [
    | inl e ↦ (rw e, rw e)
    | inr e ↦ (rw e, rw e)
  ]

  newborn-endpoint : (c : ℕ) (s : Pm) → (newborn c s).endpoint ≡ new_endpoint c s
  newborn-endpoint c s = refl

  newborn-at : (c : ℕ) (s : Pm) → (occupied c s).mproc c ≡ newborn c s
  unfolding modify_proc
  newborn-at c s = rw (==_refl c)

  occupied-other : (c i : ℕ) (s : Pm) → i ≢ c → (occupied c s).mproc i ≡ s.mproc i
  unfolding modify_proc
  occupied-other c i s ne = rw (==_ne i c ne)

  przydziel_user :
      (who_p : ℕ) (p : Mproc)
      → p.flags.priv_proc ≡ false
      → przydziel k (kopia k who_p p) ≡ some (kopia k who_p p)
  przydziel_user who_p p user = elim (Bool-cases p.to_tracefork) [
    | inl e ↦ rw (przydziel, e, user)
    | inr e ↦ rw (przydziel, e, user)
  ]

  fork_dalej_lem :
      (c pid : ℕ) (s : Pm)
      → (s.mproc s.mp).flags.priv_proc ≡ false
      → (s.mproc s.mp).to_tracefork ≡ false
      → c ≢ s.mp
      → get_free_pid k.nr_pids k k.nr_pids s.next_pid (occupied c s) ≡ some pid
      → fork_dalej k o
          (new_endpoint c s)
          c
          (record s { next_child = c; calls = s.calls ++ vm_fork (s.mproc s.mp).endpoint c ∷ [] })
        ≡ some (
          k.suspend,
          told k o answers
              (pm_fork (new_endpoint c s) (s.mproc s.mp).endpoint pid)
              c
              (numbered k o answers c pid (occupied c s)),
        )
  unfolding fork_dalej
  fork_dalej_lem c pid s user untraced apart e =
      let t = occupied c s in
      let u = numbered k o answers c pid t in
      let name : Mproc → Mproc = λ p. record p { pid = pid } in
      let at_child = numbered-at k o answers c pid t ∙ ap name (newborn-at c s) in
      let at_parent : u.mproc s.mp ≡ s.mproc s.mp =
        numbered-other k o answers c s.mp pid t (λ x. apart (sym x))
        ∙ occupied-other c s.mp s (λ x. apart (sym x)) in
      let ready =
        ozyw_lem k o answers (wiadomosc_fork k o) c pid t e (ap (λ p. p.flags.vfs_call) at_child)
          (ap (λ p. p.tracer) at_child ∙ newborn_tracer c s untraced) in
      rw (fork_dalej, przydziel_user s.who_p (s.mproc s.mp) user, ready)
        (ap₂ (λ p q. some (k.suspend, told k o answers (wiadomosc_fork k o p q) c u)) at_parent
          at_child)

  -- The whole call, once the slot and the number are found.
  do_fork_lem :
      (c pid : ℕ) (s : Pm)
      → pelna k s ≡ false
      → wolny_slot k s.next_child s ≡ some c
      → (s.mproc s.mp).flags.priv_proc ≡ false
      → (s.mproc s.mp).to_tracefork ≡ false
      → c ≢ s.mp
      → get_free_pid k.nr_pids k k.nr_pids s.next_pid (occupied c s) ≡ some pid
      → do_fork k o s
        ≡ some (
          k.suspend,
          told k o answers
              (pm_fork (new_endpoint c s) (s.mproc s.mp).endpoint pid)
              c
              (numbered k o answers c pid (occupied c s)),
        )
  unfolding do_fork fork_slot
  do_fork_lem c pid s room slot user untraced apart e =
      rw
        (
          do_fork,
          room,
          slot,
          fork_slot,
          answers s.calls (vm_fork (s.mproc s.mp).endpoint c),
          equals_refl k.ok,
        )
        (fork_dalej_lem c pid s user untraced apart e)

  occupied-count : (c : ℕ) (s : Pm) → (occupied c s).procs_in_use ≡ s.procs_in_use + 1
  unfolding modify_proc
  occupied-count c s = refl

  occupied-calls :
      (c pid : ℕ) (s : Pm)
      → (numbered k o answers c pid (occupied c s)).calls
        ≡ s.calls ++ vm_fork (s.mproc s.mp).endpoint c ∷ []
  unfolding modify_proc
  occupied-calls c pid s = refl

  -- What the call leaves behind, once the slot and the number are found.
  made :
      (c pid : ℕ) (s : Pm)
      → (s.mproc s.mp).flags.in_use ≡ true
      → pid_zajety k pid (occupied c s) ≡ false
      → do_fork k o s
        ≡ some (
          k.suspend,
          told k o answers
              (pm_fork (new_endpoint c s) (s.mproc s.mp).endpoint pid)
              c
              (numbered k o answers c pid (occupied c s)),
        )
      → Forked c s (do_fork k o s)
  made c pid s used free returns =
      let t = occupied c s in
      let u = numbered k o answers c pid t in
      let m = pm_fork (new_endpoint c s) (s.mproc s.mp).endpoint pid in
      let name : Mproc → Mproc = λ p. record p { pid = pid } in
      let at = numbered-at k o answers c pid t ∙ ap name (newborn-at c s) in
      let last = told-at k o answers m c u in
      record {
        pid = pid;
        after = told k o answers m c u;
        returns = returns;
        in_use =
            ap (λ p. p.flags.in_use) last
            ∙ (ap (λ p. p.flags.in_use) at ∙ ((newborn-fields c s).1 ∙ used));
        parent = ap (λ p. p.parent) last ∙ (ap (λ p. p.parent) at ∙ (newborn-fields c s).0);
        endpoint = ap (λ p. p.endpoint) last ∙ (ap (λ p. p.endpoint) at ∙ newborn-endpoint c s);
        has_pid = ap (λ p. p.pid) last ∙ ap (λ p. p.pid) at;
        fresh = λ j inside ne.
            sym (ap (has_number pid) (occupied-other c j s ne))
            ∙ szukaj-none (has_number pid) k.nr_procs 0 t.mproc
                (sym (pid_zajety-is_some k k.nr_pids pid t) ∙ free) j (omega arith) (omega arith);
        waits = ap (λ p. p.flags.vfs_call) last;
        sends =
            told-calls k o answers m c u
            ∙ (ap (λ cs. cs ++ asynsend3 k.vfs_proc_nr m ∷ []) (occupied-calls c pid s)
                ∙ append_assoc s.calls (vm_fork (s.mproc s.mp).endpoint c ∷ [])
                    (asynsend3 k.vfs_proc_nr m ∷ []));
        counts =
            told-count k o answers m c u
            ∙ (numbered-count k o answers c pid t ∙ occupied-count c s);
        others = λ j ne.
            told-other k o answers m c j u ne
            ∙ (numbered-other k o answers c j pid t ne ∙ occupied-other c j s ne);
      }

  -- `do_fork` makes a process: it takes the first free slot `c` behind `next_child`, and a number
  -- that no other process has as its number or group; the child has the caller's slot as its
  -- parent and the endpoint that VM gave it. PM asks VM for the child and then tells VFS, and the
  -- caller waits for VFS, as does the child; no other process changes. The conditions: the table is
  -- not full, some slot is free, the caller is a user process that is in use and does not hand its
  -- tracer on, there are more than two numbers for each slot, and the other servers take every call.
  pub do_fork-Forked :
      (i : ℕ) (s : Pm)
      → pelna k s ≡ false
      → s.next_child < k.nr_procs
      → i < k.nr_procs
      → (s.mproc i).flags.in_use ≡ false
      → (s.mproc s.mp).flags.in_use ≡ true
      → (s.mproc s.mp).flags.priv_proc ≡ false
      → (s.mproc s.mp).to_tracefork ≡ false
      → 2 * k.nr_procs < k.nr_pids - k.init_pid
      → k.init_pid ≤ s.next_pid
      → s.next_pid ≤ k.nr_pids
      → (slot : FreeSlot k s.next_child s) × Forked
          (slot_after k.nr_procs s.next_child slot.rounds)
          s
          (do_fork k o s)
  do_fork-Forked i s room low less free used user untraced enough from to =
      let slot = wolny_slot_lem k s.next_child i s low less free in
      let c = slot_after k.nr_procs s.next_child slot.rounds in
      let found =
        get_free_pid_lem k k.nr_pids k.nr_pids s.next_pid (occupied c s) enough from to
          (omega arith) in
      let apart : c ≢ s.mp =
        λ e. true-false (sym used ∙ (ap (λ j. (s.mproc j).flags.in_use) (sym e) ∙ slot.free)) in
      (
        slot,
        made c found.pid s used found.free
            (do_fork_lem c found.pid s room slot.returns user untraced apart found.returns),
      )
