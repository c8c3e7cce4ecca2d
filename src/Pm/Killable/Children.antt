-- ===== src/Pm/Killable/Children.antt =====
-- What a parent and a tracer learn keeps SIGKILL deliverable: projekt/servers/pm/forkexit.c.
use minix_server_of_mutex_an.Base.{
  ℕ, ◌≡◌, refl, ap, ◌∙◌, Bool, true, false, not, ◌&&◌, ◌||◌, none, some, ℤ, pos, ◌==◌, ◌>>=◌,
}
use minix_server_of_mutex_an.Pm.{
  Sigset, Sigaction, Mproc, Flags, Pm, Kernel, modify_proc, set_flags,
}
use minix_server_of_mutex_an.Pm.Signal.{Other, setreply}
use minix_server_of_mutex_an.Pm.Children.{
  wait_test, tell_parent, tell_tracer, cleanup, zwolniony, zgloszony, status_wyjscia,
  bez_sledzacego, check_parent_czeka, check_parent, zombify_sledzony, zombify, tracer_died_zombie,
  tracer_died,
}
use minix_server_of_mutex_an.Pm.Killable.{
  IsKillable, AllKillable, Safe, IsLawful, Safe-none, Safe-some, Safe-if, Safe-bind,
  AllKillable-modify, AllKillable-flags, AllKillable-if,
}
use minix_server_of_mutex_an.Pm.Killable.Deliver.{Safe-sig_proc}

-- What the property is about, of a process.
abbrev pub signals : Mproc → (Sigset × Sigset) × ((Sigset × Sigset) × (ℕ → Sigaction))
signals p = ((p.sigmask, p.sigmask2), ((p.catch, p.ignore), p.sigact))

module _ (k : Kernel) where
  pub IsKillable-same : (p q : Mproc) → signals q ≡ signals p → IsKillable k p → IsKillable k q
  IsKillable-same p q same h = record {
    mask = ap (λ t. t.0.0 k.sigkill) same ∙ h.mask;
    mask2 = ap (λ t. t.0.1 k.sigkill) same ∙ h.mask2;
    catch = ap (λ t. t.1.0.0 k.sigkill) same ∙ h.catch;
    ignore = ap (λ t. t.1.0.1 k.sigkill) same ∙ h.ignore;
    sa_mask = λ n. ap (λ t. (t.1.1 n).sa_mask k.sigkill) same ∙ h.sa_mask n;
  }

  -- A change of other fields.
  pub AllKillable-fields :
      (rmp : ℕ) (f : Mproc → Mproc) (s : Pm)
      → ((p : Mproc) → signals (f p) ≡ signals p)
      → AllKillable k s
      → AllKillable k (modify_proc rmp f s)
  AllKillable-fields rmp f s same =
      AllKillable-modify k rmp f s λ p. IsKillable-same p (f p) (same p)

  pub Safe-setreply : (i : ℕ) (r : ℤ) (s : Pm) → AllKillable k s → Safe k (setreply k i r s)
  unfolding setreply
  Safe-setreply i r s all =
      Safe-if k _ none _ (Safe-none k) (Safe-some k (AllKillable-fields i _ s (λ p. refl) all))

  -- The reply with the status, and what is noted behind it.
  Safe-status :
      (i child n : ℕ) (status : ℤ) (f : Flags → Flags) (s : Pm)
      → AllKillable k s
      → Safe k (do
        s1 ← setreply k i (pos n) (modify_proc i (λ q. record q { reply_res2 = status }) s)
        some (set_flags child f (set_flags i (λ g. record g { waiting = false }) s1)))
  Safe-status i child n status f s all =
      let answered =
        AllKillable-fields i (λ q. record q { reply_res2 = status }) s (λ p. refl) all in
      Safe-bind k (setreply k i (pos n) (modify_proc i (λ q. record q { reply_res2 = status }) s)) _
        (Safe-setreply i (pos n) _ answered)
        λ s1 all1. Safe-some k (
          AllKillable-flags k child f _
            (AllKillable-flags k i (λ g. record g { waiting = false }) s1 all1))

  pub Safe-tell_parent : (child : ℕ) (s : Pm) → AllKillable k s → Safe k (tell_parent k child s)
  unfolding tell_parent
  Safe-tell_parent child s all =
      let p = s.mproc child in
      Safe-if k (p.parent == 0) none _ (Safe-none k) (
        Safe-if k (not p.flags.zombie) none _ (Safe-none k) (
          Safe-if k p.flags.told_parent none _ (Safe-none k)
            (Safe-status p.parent child p.pid (status_wyjscia p) zgloszony s all)))

  pub Safe-tell_tracer : (child : ℕ) (s : Pm) → AllKillable k s → Safe k (tell_tracer k child s)
  unfolding tell_tracer
  Safe-tell_tracer child s all =
      let p = s.mproc child in
      Safe-if k (p.tracer == 0) none _ (Safe-none k) (
        Safe-if k (not p.flags.trace_zombie) none _ (Safe-none k) (
          Safe-status p.tracer child p.pid (status_wyjscia p)
            (λ f. record f { trace_zombie = false; zombie = true }) s all))

  pub AllKillable-cleanup : (rmp : ℕ) (s : Pm) → AllKillable k s → AllKillable k (cleanup rmp s)
  unfolding cleanup
  AllKillable-cleanup rmp s all = record {
    at = (AllKillable-fields rmp zwolniony s (λ p. refl) all).at;
  }

  module _ (o : Other) (lawful : IsLawful k o) where
    pub Safe-check_parent :
        (child : ℕ) (try_cleanup : Bool) (s : Pm)
        → AllKillable k s
        → Safe k (check_parent k o child try_cleanup s)
    unfolding check_parent check_parent_czeka
    Safe-check_parent child try_cleanup s all = Safe-if k _ _ _ (Safe-some k all) (
        Safe-if k _ _ _
          (Safe-bind k _ _ (Safe-tell_parent child s all) λ s1 all1.
            Safe-some k (AllKillable-if k _ _ _ (AllKillable-cleanup child s1 all1) all1))
          (Safe-sig_proc k o lawful _ k.sigchld true false s all))

    Safe-zombify_sledzony :
        (rmp : ℕ) (s : Pm) → AllKillable k s → Safe k (zombify_sledzony k o rmp s)
    unfolding zombify_sledzony
    Safe-zombify_sledzony rmp s all =
        let s1 = set_flags rmp (λ f. record f { trace_zombie = true }) s in
        let all1 = AllKillable-flags k rmp (λ f. record f { trace_zombie = true }) s all in
        Safe-if k (not (wait_test (s1.mproc (s1.mproc rmp).tracer) (s1.mproc rmp))) (some s1) _
          (Safe-some k all1)
          (Safe-bind k (tell_tracer k rmp s1) _ (Safe-tell_tracer rmp s1 all1)
            λ s2 all2. Safe-check_parent rmp false s2 all2)

    pub Safe-zombify : (rmp : ℕ) (s : Pm) → AllKillable k s → Safe k (zombify k o rmp s)
    unfolding zombify
    Safe-zombify rmp s all =
        let p = s.mproc rmp in
        let marked = AllKillable-flags k rmp (λ f. record f { zombie = true }) s all in
        Safe-if k (p.flags.trace_zombie || p.flags.zombie) none _ (Safe-none k) (
          Safe-if k (not (p.tracer == k.no_tracer) && not (p.tracer == p.parent)) _ _
            (Safe-zombify_sledzony rmp s all) (Safe-check_parent rmp false _ marked))

    pub Safe-tracer_died : (child : ℕ) (s : Pm) → AllKillable k s → Safe k (tracer_died k o child s)
    unfolding tracer_died tracer_died_zombie
    Safe-tracer_died child s all =
        let s1 = modify_proc child (bez_sledzacego k o) s in
        let all1 = AllKillable-fields child (bez_sledzacego k o) s (λ p. refl) all in
        let marked =
          AllKillable-flags k child (λ f. record f { trace_zombie = false; zombie = true }) s1
            all1 in
        Safe-if k (not (s1.mproc child).flags.exiting) _ _
          (Safe-sig_proc k o lawful child k.sigkill true false s1 all1)
          (Safe-if k (s1.mproc child).flags.trace_zombie _ _ (Safe-check_parent child true _ marked)
            (Safe-some k all1))
