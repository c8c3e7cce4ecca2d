-- ===== src/Pm/Killable/Fork.antt =====
-- How a process is made keeps SIGKILL deliverable: projekt/servers/pm/forkexit.c.
use minix_server_of_mutex_an.Base.{
  ℕ, ◌≡◌, refl, Bool, true, false, not, Option, none, some, ℤ, pos, ◌==◌, ◌>>=◌, if◌then◌else◌,
  Option-cases, Bool-cases, inl, inr,
}
use minix_server_of_mutex_an.Pm.{Mproc, Notice, Pm, Kernel}
use minix_server_of_mutex_an.Pm.Utility.{get_free_pid, tell_vfs}
use minix_server_of_mutex_an.Pm.Signal.{Other, setreply}
use minix_server_of_mutex_an.Pm.Fork.{
  pelna, wolny_slot, kopia, przydziel, dziedziczone, dziedziczone_srv, wyzeruj, ustaw_ids, zajmij,
  nadaj_pid, powiadom_sledzacego, ozyw, wiadomosc_fork, wiadomosc_srv_fork, fork_dalej, fork_slot,
  do_fork, srv_fork_dalej, srv_fork_slot, do_srv_fork,
}
use minix_server_of_mutex_an.Pm.Killable.{
  IsKillable, AllKillable, Safe, SafeResult, IsLawful, Safe-none, Safe-some, Safe-if, Safe-bind,
  Safe-tell_vfs, AllKillable-modify, SafeResult-none, SafeResult-bind, SafeResult-some,
  SafeResult-if,
}
use minix_server_of_mutex_an.Pm.Killable.Deliver.{Safe-sig_proc}
use minix_server_of_mutex_an.Pm.Killable.Children.{
  signals, IsKillable-same, AllKillable-fields, Safe-setreply,
}

module _ (k : Kernel) where
  -- A result of a call that has none yet.
  slot_bind :
      {A : Type 0} (r : Option A) (g : A → Option (ℤ × Pm))
      → ((a : A) → SafeResult k (g a))
      → SafeResult k (r >>= g)
  slot_bind none g next = SafeResult-none k
  slot_bind (some a) g next = next a

  slot_choice :
      {A : Type 0} (b c : Bool) (q p : A) (g : A → Option (ℤ × Pm))
      → SafeResult k (g q)
      → SafeResult k (g p)
      → SafeResult k ((if b then (if c then some q else none) else some p) >>= g)
  slot_choice true true q p g x y = x
  slot_choice true false q p g x y = SafeResult-none k
  slot_choice false c q p g x y = y

  signals-kopia : (who_p : ℕ) (p : Mproc) → signals (kopia k who_p p) ≡ signals p
  signals-kopia who_p p = elim (Bool-cases p.to_tracefork) [ inl e ↦ rw e | inr e ↦ rw e ]

  module _ (o : Other) where
    AllKillable-zajmij :
        (c : ℕ) (child : Mproc) (s : Pm)
        → IsKillable k child
        → AllKillable k s
        → AllKillable k (zajmij k o c child s)
    AllKillable-zajmij c child s h all = record {
      at = (AllKillable-modify k c (λ _. child) s (λ p _. h) all).at;
    }

    module _ (lawful : IsLawful k o) where
      Safe-nadaj_pid : (c : ℕ) (s : Pm) → AllKillable k s → Safe k (nadaj_pid k o c s)
      unfolding nadaj_pid
      Safe-nadaj_pid c s all =
          elim (Option-cases (get_free_pid k.nr_pids k k.nr_pids s.next_pid s)) [
            | inl e ↦ rw e (Safe-none k)
            | inr (n, e) ↦ rw e (
                let f = λ (p : Mproc). record p { pid = n } in
                Safe-some k (record { at = (AllKillable-fields k c f s (λ p. refl) all).at }))
          ]

      Safe-ozyw :
          (notice : Mproc → Mproc → Notice) (c : ℕ) (s : Pm)
          → AllKillable k s
          → Safe k (ozyw k o notice c s)
      unfolding ozyw powiadom_sledzacego
      Safe-ozyw notice c s all =
          Safe-bind k (nadaj_pid k o c s) _ (Safe-nadaj_pid c s all) λ s1 all1.
            Safe-bind k (tell_vfs k c (notice (s1.mproc s1.mp) (s1.mproc c)) s1) _
              (Safe-tell_vfs k c _ s1 all1)
              λ s2 all2.
                Safe-if k (not ((s2.mproc c).tracer == k.no_tracer)) _ _
                  (Safe-sig_proc k o lawful c k.sigstop true false s2 all2) (Safe-some k all2)

      Safe-przydziel :
          (p : Mproc) (g : Mproc → Option (ℤ × Pm))
          → IsKillable k p
          → ((q : Mproc) → IsKillable k q → SafeResult k (g q))
          → SafeResult k (przydziel k p >>= g)
      Safe-przydziel p g h next =
          let q = record p { scheduler = k.sched_proc_nr } in
          slot_choice p.flags.priv_proc (p.scheduler == k.none_ep) q p g
            (next q (IsKillable-same k p q refl h)) (next p h)

      Safe-fork_dalej :
          (child_ep c : ℕ) (s : Pm) → AllKillable k s → SafeResult k (fork_dalej k o child_ep c s)
      unfolding fork_dalej
      Safe-fork_dalej child_ep c s all =
          let p = kopia k s.who_p (s.mproc s.mp) in
          Safe-przydziel p _
            (IsKillable-same k (s.mproc s.mp) p (signals-kopia s.who_p (s.mproc s.mp))
              (all.at s.mp))
            λ q h.
              let child = wyzeruj dziedziczone child_ep q in
              SafeResult-bind k (ozyw k o (wiadomosc_fork k o) c (zajmij k o c child s)) _
                (Safe-ozyw (wiadomosc_fork k o) c (zajmij k o c child s)
                  (AllKillable-zajmij c child s (IsKillable-same k q child refl h) all))
                λ s1 all1. SafeResult-some k k.suspend all1

      Safe-srv_fork_dalej :
          (uid gid child_ep c : ℕ) (s : Pm)
          → AllKillable k s
          → SafeResult k (srv_fork_dalej k o uid gid child_ep c s)
      unfolding srv_fork_dalej
      Safe-srv_fork_dalej uid gid child_ep c s all =
          let child =
            ustaw_ids uid gid
              (wyzeruj dziedziczone_srv child_ep (kopia k s.who_p (s.mproc s.mp))) in
          let h =
            IsKillable-same k (s.mproc s.mp) child (signals-kopia s.who_p (s.mproc s.mp))
              (all.at s.mp) in
          SafeResult-bind k (ozyw k o (wiadomosc_srv_fork k o uid gid) c (zajmij k o c child s)) _
            (Safe-ozyw (wiadomosc_srv_fork k o uid gid) c (zajmij k o c child s)
              (AllKillable-zajmij c child s h all))
            λ s1 all1.
              SafeResult-bind k (setreply k c k.ok s1) _ (Safe-setreply k c k.ok s1 all1)
                λ s2 all2. SafeResult-some k (pos (s2.mproc c).pid) all2

      pub Safe-do_fork : (s : Pm) → AllKillable k s → SafeResult k (do_fork k o s)
      unfolding do_fork fork_slot
      Safe-do_fork s all = SafeResult-if k (pelna k s) _ _ (SafeResult-some k k.eagain all) (
          slot_bind (wolny_slot k s.next_child s) _ λ c.
            SafeResult-if k _ _ _ (Safe-fork_dalej _ c _ (record { at = all.at }))
              (SafeResult-some k _ (record { at = all.at })))

      pub Safe-do_srv_fork :
          (uid gid : ℕ) (s : Pm) → AllKillable k s → SafeResult k (do_srv_fork k o uid gid s)
      unfolding do_srv_fork srv_fork_slot
      Safe-do_srv_fork uid gid s all =
          SafeResult-if k (not ((s.mproc s.mp).endpoint == k.rs_proc_nr)) _ _
            (SafeResult-some k k.eperm all)
            (SafeResult-if k (pelna k s) _ _ (SafeResult-some k k.eagain all) (
              slot_bind (wolny_slot k s.srv_next_child s) _ λ c.
                SafeResult-if k _ _ _ (Safe-srv_fork_dalej uid gid _ c _ (record { at = all.at }))
                  (SafeResult-some k _ (record { at = all.at }))))
