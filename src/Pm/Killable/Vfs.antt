-- ===== src/Pm/Killable/Vfs.antt =====
-- `handle_vfs_reply` of projekt/servers/pm/main.c keeps SIGKILL deliverable.
use minix_server_of_mutex_an.Base.{
  ℕ, refl, Bool, true, false, not, Option, none, some, ℤ, pos, negsuc, equals, ◌==◌, if◌then◌else◌,
}
use Prim.Native.Nat.{bit_or}
use minix_server_of_mutex_an.Pm.{
  Mproc, sys_abort, sys_resume, Pm, Kernel, modify_proc, set_flags, is_alive,
}
use minix_server_of_mutex_an.Pm.Utility.{pm_isokendpt}
use minix_server_of_mutex_an.Pm.Signal.{Other, setreply, check_pending}
use minix_server_of_mutex_an.Pm.Check.{restart_sigs}
use minix_server_of_mutex_an.Pm.Vfs.{
  VfsReply, setuid_reply, setgid_reply, setgroups_reply, setsid_reply, exit_reply, fork_reply,
  srv_fork_reply, unpause_reply, exec_reply, core_reply, System, fork_nieudany, fork_udany, uruchom,
  fork_gotowy, zrzucony, po_odpowiedzi, vfs_reply_slot, vfs_reply_numer, handle_vfs_reply,
}
use minix_server_of_mutex_an.Pm.Killable.{
  AllKillable, Safe, SafeResult, IsLawful, Safe-none, Safe-some, Safe-if, Safe-bind, Safe-must,
  AllKillable-flags, AllKillable-if,
}
use minix_server_of_mutex_an.Pm.Killable.Masks.{AllKillable-call}
use minix_server_of_mutex_an.Pm.Killable.Deliver.{Safe-check_pending}
use minix_server_of_mutex_an.Pm.Killable.Children.{AllKillable-fields, Safe-setreply}
use minix_server_of_mutex_an.Pm.Killable.Exit.{Safe-exit_restart}

-- What the functions of MINIX have to keep that the main loop calls.
pub record IsLawfulSystem (k : Kernel) (y : System) : Type 0 where
  pub exec_restart :
      (rmp : ℕ) (result : ℤ) (pc sp : ℕ) (s : Pm)
      → AllKillable k s
      → Safe k (y.exec_restart rmp result pc sp s)
  pub sched_start_user :
      (ep rmp : ℕ) (s : Pm) → AllKillable k s → AllKillable k (y.sched_start_user ep rmp s).1
  pub expire_timers : (now : ℕ) (s : Pm) → AllKillable k s → Safe k (y.expire_timers now s)
  pub do_getsysinfo : (s : Pm) → AllKillable k s → SafeResult k (y.do_getsysinfo s)

module _ (k : Kernel) where
  module _ (o : Other) (lawful : IsLawful k o) where
    Safe-restart_sigs : (rmp : ℕ) (s : Pm) → AllKillable k s → Safe k (restart_sigs k o rmp s)
    unfolding restart_sigs
    Safe-restart_sigs rmp s all = Safe-if k _ _ _ (Safe-some k all) (
        Safe-if k (s.mproc rmp).flags.trace_exit _ _ (lawful.exit_proc rmp _ false s all) (
          Safe-if k (s.mproc rmp).flags.pm_sig_pending _ _
            (Safe-bind k (check_pending k o rmp s) _ (Safe-check_pending k o lawful rmp s all)
              λ s1 all1. Safe-if k (s1.mproc rmp).flags.vfs_call _ _ (Safe-some k all1) (
                Safe-must k (sys_resume (s1.mproc rmp).endpoint) _ (
                  AllKillable-flags k rmp
                    (λ f. record f { pm_sig_pending = false; unpaused = false }) s1 all1)))
            (Safe-some k all)))

    module _ (y : System) (system : IsLawfulSystem k y) where
      Safe-fork_nieudany : (rmp : ℕ) (s : Pm) → AllKillable k s → Safe k (fork_nieudany k y o rmp s)
      unfolding fork_nieudany
      Safe-fork_nieudany rmp s all =
          let f = λ (p : Mproc). record p { scheduler = k.none_ep } in
          Safe-bind k (o.exit_proc rmp (negsuc 0) false (modify_proc rmp f s)) _
            (lawful.exit_proc rmp (negsuc 0) false _ (AllKillable-fields k rmp f s (λ p. refl) all))
            λ s1 all1. Safe-setreply k (s1.mproc rmp).parent (negsuc 0) s1 all1

      Safe-fork_udany : (rmp : ℕ) (s : Pm) → AllKillable k s → Safe k (fork_udany k y o rmp s)
      unfolding fork_udany
      Safe-fork_udany rmp s all =
          Safe-bind k (setreply k rmp k.ok s) _ (Safe-setreply k rmp k.ok s all)
            λ s1 all1. Safe-setreply k (s1.mproc rmp).parent (pos (s1.mproc rmp).pid) s1 all1

      -- Whether the scheduler is asked, and what it says.
      AllKillable-uruchom :
          (b : Bool) (rmp : ℕ) (s : Pm)
          → AllKillable k s
          → AllKillable k
              (if b then y.sched_start_user (s.mproc rmp).scheduler rmp s else (k.ok, s)).1
      AllKillable-uruchom true rmp s all = system.sched_start_user _ rmp s all
      AllKillable-uruchom false rmp s all = all

      Safe-fork_gotowy : (rmp : ℕ) (s : Pm) → AllKillable k s → Safe k (fork_gotowy k y o rmp s)
      unfolding fork_gotowy
      Safe-fork_gotowy rmp s all =
          let (r, s1) = uruchom k y o rmp s in
          let all1 = AllKillable-uruchom _ rmp s all in
          Safe-if k (not (equals r k.ok)) _ _ (Safe-fork_nieudany rmp s1 all1)
            (Safe-fork_udany rmp s1 all1)

      Safe-zrzucony :
          (rmp proc_e : ℕ) (status : ℤ) (traced : ℕ) (s : Pm)
          → AllKillable k s
          → Safe k (zrzucony k y o rmp proc_e status traced s)
      unfolding zrzucony
      Safe-zrzucony rmp proc_e status traced s all =
          let f = λ (p : Mproc). record p { sigstatus = bit_or p.sigstatus k.dumped } in
          let all1 =
            AllKillable-if k (equals status k.ok) (modify_proc rmp f s) s
              (AllKillable-fields k rmp f s (λ p. refl) all) all in
          Safe-if k (proc_e == traced) _ _ (Safe-exit_restart k o lawful rmp true _ all1)
            (Safe-setreply k rmp _ _ all1)

      Safe-po_odpowiedzi :
          (rmp proc_e : ℕ) (reply : VfsReply) (s : Pm)
          → AllKillable k s
          → Safe k (po_odpowiedzi k y o rmp proc_e reply s)
      unfolding po_odpowiedzi
      Safe-po_odpowiedzi rmp proc_e setuid_reply s all = Safe-setreply k rmp k.ok s all
      Safe-po_odpowiedzi rmp proc_e setgid_reply s all = Safe-setreply k rmp k.ok s all
      Safe-po_odpowiedzi rmp proc_e setgroups_reply s all = Safe-setreply k rmp k.ok s all
      Safe-po_odpowiedzi rmp proc_e setsid_reply s all = Safe-setreply k rmp _ s all
      Safe-po_odpowiedzi rmp proc_e (exec_reply status pc sp) s all =
          system.exec_restart rmp status pc sp s all
      Safe-po_odpowiedzi rmp proc_e exit_reply s all = Safe-exit_restart k o lawful rmp false s all
      Safe-po_odpowiedzi rmp proc_e (core_reply status traced) s all =
          Safe-zrzucony rmp proc_e status traced s all
      Safe-po_odpowiedzi rmp proc_e fork_reply s all = Safe-fork_gotowy rmp s all
      Safe-po_odpowiedzi rmp proc_e srv_fork_reply s all = Safe-some k all
      Safe-po_odpowiedzi rmp proc_e unpause_reply s all =
          Safe-some k (AllKillable-flags k rmp (λ f. record f { unpaused = true }) s all)

      Safe-slot :
          (rmp proc_e : ℕ) (reply : VfsReply) (s : Pm)
          → AllKillable k s
          → Safe k (vfs_reply_slot k y o rmp proc_e reply s)
      unfolding vfs_reply_slot
      Safe-slot rmp proc_e reply s all =
          let s1 = set_flags rmp (λ f. record f { vfs_call = false }) s in
          Safe-if k (not (s.mproc rmp).flags.vfs_call) none _ (Safe-none k) (
            Safe-if k (s.mproc rmp).flags.unpaused none _ (Safe-none k) (
              Safe-bind k (po_odpowiedzi k y o rmp proc_e reply s1) _
                (Safe-po_odpowiedzi rmp proc_e reply s1
                  (AllKillable-flags k rmp (λ f. record f { vfs_call = false }) s all))
                λ s2 all2.
                  Safe-if k (is_alive (s2.mproc rmp)) _ _ (Safe-restart_sigs rmp s2 all2)
                    (Safe-some k all2)))

      Safe-numer :
          (proc_e : ℕ) (reply : VfsReply) (s : Pm) (r : ℤ × ℤ)
          → AllKillable k s
          → Safe k (vfs_reply_numer k y o proc_e reply s r)
      unfolding vfs_reply_numer
      Safe-numer proc_e reply s (r, negsuc n) all = Safe-none k
      Safe-numer proc_e reply s (r, pos proc_n) all =
          Safe-if k (not (equals r k.ok)) none _ (Safe-none k) (Safe-slot proc_n proc_e reply s all)

      pub Safe-handle_vfs_reply :
          (r : Option (ℕ × VfsReply)) (s : Pm)
          → AllKillable k s
          → Safe k (handle_vfs_reply k y o r s)
      unfolding handle_vfs_reply
      Safe-handle_vfs_reply none s all = Safe-some k (AllKillable-call k sys_abort s all)
      Safe-handle_vfs_reply (some (proc_e, reply)) s all =
          Safe-numer proc_e reply s (pm_isokendpt k proc_e s) all
