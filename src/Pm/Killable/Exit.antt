-- ===== src/Pm/Killable/Exit.antt =====
-- How a process ends keeps SIGKILL deliverable: projekt/servers/pm/forkexit.c.
use minix_server_of_mutex_an.Base.{
  ℕ, zero, suc, refl, Bool, true, false, not, none, some, ℤ, pos, negsuc, ◌==◌, if◌then◌else◌,
}
use minix_server_of_mutex_an.Pm.{
  Mproc, sys_times, sys_stop, sys_clear, sys_kill, vm_willexit, vm_exit, sched_stop, cs_exit, Pm,
  Kernel, modify_proc, call, must,
}
use minix_server_of_mutex_an.Pm.Utility.{tell_vfs, tell_cv}
use minix_server_of_mutex_an.Pm.Signal.{Other, setreply}
use minix_server_of_mutex_an.Pm.Children.{cleanup, zombify, tracer_died}
use minix_server_of_mutex_an.Pm.Exit.{
  char, konczy, dolicz, wiadomosc_vfs, zrzut, exit_zatrzymaj, exit_powiadom, exit_oznacz,
  przygarnij, osieroc, osieroc_od, rozlacz, exit_dalej, grupa, exit_proc, do_exit, exit_zniszcz,
  exit_restart, Minix, other,
}
use minix_server_of_mutex_an.Pm.Killable.{
  AllKillable, Safe, SafeResult, IsLawful, Safe-none, Safe-some, Safe-if, Safe-bind, Safe-must,
  Safe-tell_vfs, Safe-tell_cv, AllKillable-vm, AllKillable-if, Safe-result, SafeResult-bind,
  SafeResult-some, SafeResult-if,
}
use minix_server_of_mutex_an.Pm.Killable.Masks.{AllKillable-call}
use minix_server_of_mutex_an.Pm.Killable.Calls.{Safe-check_sig}
use minix_server_of_mutex_an.Pm.Killable.Children.{
  AllKillable-fields, Safe-setreply, AllKillable-cleanup, Safe-check_parent, Safe-zombify,
  Safe-tracer_died,
}

module _ (k : Kernel) where
  Safe-exit_powiadom :
      (o : Other) (rmp : ℕ) (dump_core : Bool) (s : Pm)
      → AllKillable k s
      → Safe k (exit_powiadom k o rmp dump_core s)
  unfolding exit_powiadom
  Safe-exit_powiadom o rmp dump_core s all =
      Safe-bind k (tell_vfs k rmp (wiadomosc_vfs dump_core (s.mproc rmp)) s) _
        (Safe-tell_vfs k rmp _ s all)
        λ s1 all1.
          Safe-bind k (tell_cv k (cs_exit (s.mproc rmp).endpoint) s1) _ (Safe-tell_cv k _ s1 all1)
            λ s2 all2.
              Safe-if k (s2.mproc rmp).flags.priv_proc _ _
                (Safe-must k (sys_clear (s2.mproc rmp).endpoint) s2 all2) (Safe-some k all2)

  -- The end of `exit_restart`.
  Safe-exit_zniszcz :
      (o : Other) (rmp : ℕ) (s : Pm) → AllKillable k s → Safe k (exit_zniszcz k o rmp s)
  unfolding exit_zniszcz
  Safe-exit_zniszcz o rmp s all =
      Safe-bind k
        (if (s.mproc rmp).flags.priv_proc
          then some s
          else must k (sys_clear (s.mproc rmp).endpoint) s)
        _ (Safe-if k _ _ _ (Safe-some k all) (Safe-must k _ s all))
        λ s1 all1.
          Safe-bind k (must k (vm_exit (s1.mproc rmp).endpoint) s1) _ (Safe-must k _ s1 all1)
            λ s2 all2.
              let answered =
                AllKillable-fields k (s2.mproc rmp).tracer (λ q. record q { reply_trace = pos 0 })
                  s2 (λ p. refl) all2 in
              Safe-bind k
                (if (s2.mproc rmp).flags.trace_exit
                  then setreply k (s2.mproc rmp).tracer k.ok
                      (modify_proc (s2.mproc rmp).tracer (λ q. record q { reply_trace = pos 0 }) s2)
                  else some s2)
                _ (Safe-if k _ _ _ (Safe-setreply k _ k.ok _ answered) (Safe-some k all2))
                λ s3 all3. Safe-some k (
                  AllKillable-if k (s3.mproc rmp).flags.told_parent (cleanup rmp s3) s3
                    (AllKillable-cleanup k rmp s3 all3) all3)

  module _ (o : Other) (lawful : IsLawful k o) where
    Safe-exit_zatrzymaj : (rmp : ℕ) (s : Pm) → AllKillable k s → Safe k (exit_zatrzymaj k o rmp s)
    unfolding exit_zatrzymaj
    Safe-exit_zatrzymaj rmp s all =
        Safe-bind k (if (s.mproc rmp).flags.alarm_on then o.set_alarm rmp 0 s else some s) _
          (Safe-if k _ _ _ (lawful.set_alarm rmp 0 s all) (Safe-some k all))
          λ s1 all1.
            Safe-bind k (must k (sys_times (s.mproc rmp).endpoint) s1) _ (Safe-must k _ s1 all1)
              λ s2 all2.
                let f = dolicz (k.times s1.calls (s.mproc rmp).endpoint) (s2.mproc rmp) in
                let counted = AllKillable-fields k (s2.mproc rmp).parent f s2 (λ p. refl) all2 in
                Safe-bind k
                  (must k (sys_stop (s.mproc rmp).endpoint)
                    (modify_proc (s2.mproc rmp).parent f s2))
                  _ (Safe-must k _ _ counted)
                  λ s3 all3.
                    Safe-bind k (must k (vm_willexit (s.mproc rmp).endpoint) s3) _
                      (Safe-must k _ s3 all3)
                      λ s4 all4. Safe-some k (AllKillable-vm k (s4.mproc rmp).endpoint s4 all4)

    Safe-exit_oznacz :
        (rmp : ℕ) (status : ℤ) (dump_core : Bool) (s : Pm)
        → AllKillable k s
        → Safe k (exit_oznacz k o rmp status dump_core s)
    unfolding exit_oznacz
    Safe-exit_oznacz rmp status dump_core s all =
        let f = λ (p : Mproc). record p { flags = konczy p.flags; exitstatus = char status } in
        let all1 = AllKillable-fields k rmp f s (λ p. refl) all in
        Safe-if k dump_core _ _ (Safe-some k all1)
          (Safe-zombify k o lawful rmp (modify_proc rmp f s) all1)

    Safe-przygarnij :
        (proc_nr i : ℕ) (s : Pm) → AllKillable k s → Safe k (przygarnij k o proc_nr i s)
    unfolding przygarnij
    Safe-przygarnij proc_nr i s all =
        let f = λ (p : Mproc). record p { parent = k.init_proc_nr } in
        let s1 = modify_proc i f s in
        let all1 = AllKillable-fields k i f s (λ p. refl) all in
        Safe-if k ((s.mproc i).parent == proc_nr) _ _
          (Safe-if k (s1.mproc i).flags.zombie _ _ (Safe-check_parent k o lawful i true s1 all1)
            (Safe-some k all1))
          (Safe-some k all)

    Safe-osieroc_od :
        (proc_nr r i : ℕ) (s : Pm) → AllKillable k s → Safe k (osieroc_od k o proc_nr r i s)
    unfolding osieroc_od osieroc
    Safe-osieroc_od proc_nr zero i s all = Safe-some k all
    Safe-osieroc_od proc_nr (suc r) i s all =
        Safe-bind k (osieroc k o proc_nr i s) _
          (Safe-if k (not (s.mproc i).flags.in_use) _ _ (Safe-some k all) (
            Safe-bind k (if (s.mproc i).tracer == proc_nr then tracer_died k o i s else some s) _
              (Safe-if k _ _ _ (Safe-tracer_died k o lawful i s all) (Safe-some k all))
              (Safe-przygarnij proc_nr i)))
          (Safe-osieroc_od proc_nr r (suc i))

    Safe-rozlacz : (procgrp : ℕ) (s : Pm) → AllKillable k s → Safe k (rozlacz k o procgrp s)
    unfolding rozlacz
    Safe-rozlacz zero s all = Safe-some k all
    Safe-rozlacz (suc n) s all =
        Safe-result k _ _ (Safe-check_sig k o lawful (negsuc n) (pos k.sighup) false s all)
          λ r s1 all1. Safe-some k all1

    pub Safe-exit_proc :
        (rmp : ℕ) (status : ℤ) (dump_core : Bool) (s : Pm)
        → AllKillable k s
        → Safe k (exit_proc k o rmp status dump_core s)
    unfolding exit_proc exit_dalej
    Safe-exit_proc rmp status dump_core s all =
        Safe-bind k (exit_zatrzymaj k o rmp s) _ (Safe-exit_zatrzymaj rmp s all) λ s1 all1.
          Safe-if k ((s.mproc rmp).endpoint == k.init_proc_nr) _ _ (Safe-some k all1) (
            Safe-if k ((s.mproc rmp).endpoint == k.vfs_proc_nr) none _ (Safe-none k) (
              let dump = zrzut dump_core (s.mproc rmp) in
              Safe-bind k (exit_powiadom k o rmp dump s1) _ (Safe-exit_powiadom o rmp dump s1 all1)
                λ s2 all2.
                  Safe-bind k (exit_oznacz k o rmp status dump s2) _
                    (Safe-exit_oznacz rmp status dump s2 all2)
                    λ s3 all3.
                      Safe-bind k (osieroc_od k o rmp k.nr_procs 0 s3) _
                        (Safe-osieroc_od rmp k.nr_procs 0 s3 all3)
                        (Safe-rozlacz (grupa k o rmp s))))

    pub Safe-do_exit : (status : ℤ) (s : Pm) → AllKillable k s → SafeResult k (do_exit k o status s)
    unfolding do_exit
    Safe-do_exit status s all =
        SafeResult-if k (s.mproc s.mp).flags.priv_proc _ _
          (SafeResult-some k k.suspend
            (AllKillable-call k (sys_kill (s.mproc s.mp).endpoint k.sigkill) s all))
          (SafeResult-bind k _ _ (Safe-exit_proc s.mp status false s all)
            λ s1 all1. SafeResult-some k k.suspend all1)

    pub Safe-exit_restart :
        (rmp : ℕ) (dump_core : Bool) (s : Pm)
        → AllKillable k s
        → Safe k (exit_restart k o rmp dump_core s)
    unfolding exit_restart
    Safe-exit_restart rmp dump_core s all =
        let s1 = (call k (sched_stop (s.mproc rmp).scheduler (s.mproc rmp).endpoint) s).1 in
        let f = λ (p : Mproc). record p { scheduler = k.none_ep } in
        let stopped =
          AllKillable-fields k rmp f s1 (λ p. refl)
            (AllKillable-call k (sched_stop (s.mproc rmp).scheduler (s.mproc rmp).endpoint) s
              all) in
        Safe-bind k
          (if dump_core
            then zombify k o rmp (modify_proc rmp f s1)
            else some (modify_proc rmp f s1))
          _
          (Safe-if k dump_core _ _ (Safe-zombify k o lawful rmp (modify_proc rmp f s1) stopped)
            (Safe-some k stopped))
          (Safe-exit_zniszcz o rmp)

-- What MINIX's own functions have to keep.
pub record IsLawfulMinix (k : Kernel) (x : Minix) : Type 0 where
  pub set_alarm : (rmp ticks : ℕ) (s : Pm) → AllKillable k s → Safe k (x.set_alarm rmp ticks s)
  pub stop_proc : (rmp signo : ℕ) (s : Pm) → AllKillable k s → Safe k (x.stop_proc rmp signo s)
  pub check_vtimer :
      (rmp signo : ℕ) (s : Pm) → AllKillable k s → Safe k (x.check_vtimer rmp signo s)

-- The ends of processes that follow from one another keep it, however many they are.
pub other-IsLawful :
    (k : Kernel) (x : Minix) → IsLawfulMinix k x → (fuel : ℕ) → IsLawful k (other k x fuel)
unfolding other
other-IsLawful k x lawful zero = record {
  exit_proc = λ rmp status dump s all. Safe-none k;
  set_alarm = lawful.set_alarm;
  stop_proc = lawful.stop_proc;
  check_vtimer = lawful.check_vtimer;
}
other-IsLawful k x lawful (suc fuel) = record {
  exit_proc = Safe-exit_proc k (other k x fuel) (other-IsLawful k x lawful fuel);
  set_alarm = lawful.set_alarm;
  stop_proc = lawful.stop_proc;
  check_vtimer = lawful.check_vtimer;
}
