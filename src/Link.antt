-- ===== src/Link.antt =====
-- PM and the server of mutexes together: the messages that tell_cv of
-- projekt/servers/pm/utility.c sends, as obslugaWiadomosci of projekt/servers/cv/main.c takes them.
use minix_server_of_mutex_an.Base.{
  ℕ, ◌≡◌, ◌≢◌, refl, sym, Bool, false, some, List, [], ◌∷◌, ◌++◌, ℤ, pos, map, All, ◌==◌, ◌<◌,
  if◌then◌else◌, Bool-cases, Option-cases, inl, inr, ==_ne, ==_refl,
}
use minix_server_of_mutex_an.Pm.{Mproc, Notice, cs_eintr, cs_exit, Call, asynsend3, Pm, Kernel}
use minix_server_of_mutex_an.Pm.Utility.{szukaj, jest_uslugi, cv_name, ipc_name}
use minix_server_of_mutex_an.Pm.Signal.{Other, ma_czekac, unpause}
use minix_server_of_mutex_an.Pm.Exit.{exit_proc}
use minix_server_of_mutex_an.Pm.Report.{do_vm, Reported, unpause-Reported}
use minix_server_of_mutex_an.Pm.Report
use minix_server_of_mutex_an.Server.Run.Interrupted.{Interrupted, run-Interrupted}
use minix_server_of_mutex_an.Pm.ExitReport.{stops, ExitReported}
use minix_server_of_mutex_an.Spec.{IsMinix}
use minix_server_of_mutex_an.State.{Env}
use minix_server_of_mutex_an.Server.Run.Bounded.{messages_in, IsFair}
use minix_server_of_mutex_an.Server.Run.Ended.{Ended, IsPolite, nobody}
use minix_server_of_mutex_an.Server.{Message, Event, received}

-- The message that the server receives: `m_type` and `PM_PROC` as PM set them. The server reads
-- `m1_i1` and `m1_i2` too, but does nothing with them: they are what stood in PM's memory.
abbrev pub report : ℕ → ℕ → ℕ → ℤ → ℕ → Message
report pm i1 i2 typ proces = record {
  m_source = pm;
  m_type = typ;
  m1_i1 = i1;
  m1_i2 = i2;
  pm_proc = proces;
}

abbrev pub report_of : ℕ → ℕ → ℕ → Notice → List Message
report_of pm i1 i2 (cs_eintr p) = report pm i1 i2 (pos 5) p ∷ []
report_of pm i1 i2 (cs_exit p) = report pm i1 i2 (pos 6) p ∷ []
report_of pm i1 i2 n = []

-- The reports among the calls of PM that go to the server with the endpoint `cv`, in their order.
abbrev pub reports_to : ℕ → ℕ → ℕ → ℕ → List Call → List Message
reports_to cv pm i1 i2 [] = []
reports_to cv pm i1 i2 (asynsend3 to n ∷ cs) =
    let rest = reports_to cv pm i1 i2 cs in if to == cv then report_of pm i1 i2 n ++ rest else rest
reports_to cv pm i1 i2 (c ∷ cs) = reports_to cv pm i1 i2 cs

-- A message to another process is none of the reports.
other_first :
    (cv pm i1 i2 to : ℕ) (n : Notice) (cs : List Call)
    → (to == cv) ≡ false
    → reports_to cv pm i1 i2 (asynsend3 to n ∷ cs) ≡ reports_to cv pm i1 i2 cs
other_first cv pm i1 i2 to n cs e = rw e

no_vm_report_alone :
    (k : Kernel) (cv pm i1 i2 ep : ℕ) (table : ℕ → Mproc)
    → reports_to cv pm i1 i2 (do_vm k ep table) ≡ []
no_vm_report_alone k cv pm i1 i2 ep table =
    elim (Option-cases (szukaj (jest_uslugi ipc_name) k.nr_procs 0 table)) [
      | inl absent ↦ rw (do_vm, absent)
      | inr (j, found) ↦ rw (do_vm, found)
    ]

module _ (k : Kernel) (o : Other)
    (answers : (cs : List Call) (c : Call) → k.answer cs c ≡ k.ok) where
  -- The end of a process, from PM to the server.
  pub record EndReported (e : Env) (smiec : ℕ → ℕ) (pm i1 i2 rmp i : ℕ) (status : ℤ)
      (dump_core : Bool) (s : Pm) (evs later : List Event) : Type 0 where
    pub told :
        ExitReported k o answers rmp i status dump_core s (exit_proc k o rmp status dump_core s)
    pub sent : List Call
    pub sends : told.between.calls ≡ s.calls ++ sent
    pub one_report :
        reports_to (s.mproc i).endpoint pm i1 i2 sent
        ≡ report pm i1 i2 (pos 6) (s.mproc rmp).endpoint ∷ []
    pub ended :
        Ended e smiec evs
          (map received (reports_to (s.mproc i).endpoint pm i1 i2 sent))
          later
          (s.mproc rmp).endpoint

  one_eintr :
      (pm i1 i2 rmp i : ℕ) (s : Pm)
      → (s.mproc i).endpoint ≢ k.vfs_proc_nr
      → reports_to
          (s.mproc i).endpoint
          pm
          i1
          i2
          (Report.stops k answers rmp s ++ Report.reports k answers rmp i s)
        ≡ report pm i1 i2 (pos 5) (s.mproc rmp).endpoint ∷ []
  one_eintr pm i1 i2 rmp i s apart =
      let cv = (s.mproc i).endpoint in
      let ep = (s.mproc rmp).endpoint in
      let not_vfs : (k.vfs_proc_nr == cv) ≡ false =
        ==_ne k.vfs_proc_nr cv λ same. apart (sym same) in
      let nothing_else : reports_to cv pm i1 i2 (do_vm k ep s.mproc) ≡ [] =
        no_vm_report_alone k cv pm i1 i2 ep s.mproc in
      elim (Bool-cases (s.mproc rmp).flags.pm_sig_pending) [
        | inl e ↦ rw (e, not_vfs, ==_refl cv, nothing_else)
        | inr e ↦ rw (e, not_vfs, ==_refl cv, nothing_else)
      ]

  -- A signal for a process, from PM to the server.
  pub record SignalReported (e : Env) (smiec : ℕ → ℕ) (pm i1 i2 rmp i : ℕ) (s : Pm)
      (evs : List Event) : Type 0 where
    pub told : Reported k answers rmp i s (unpause k rmp s)
    pub sent : List Call
    pub sends : told.after.calls ≡ s.calls ++ sent
    pub one_report :
        reports_to (s.mproc i).endpoint pm i1 i2 sent
        ≡ report pm i1 i2 (pos 5) (s.mproc rmp).endpoint ∷ []
    pub interrupted : Interrupted e smiec evs (report pm i1 i2 (pos 5) (s.mproc rmp).endpoint)

  -- When a signal interrupts a process, `unpause` sends the server one report, and the server, in
  -- any state that it can reach, answers the process EINTR exactly once if it waits for a mutex or
  -- an event, and sends nothing otherwise; after that the process waits for nothing. The conditions
  -- on PM: the kernel takes every call, `cv` is the first process of that name and is not VFS, the
  -- process waits neither in PM nor for VFS, and no delayed stop is under way. The conditions on
  -- the server: every `malloc` succeeds, the codes that it tells apart differ, it took fewer than
  -- 512 messages, the uninitialised fields in the `start` nodes differ from the processes of the
  -- reports, and no process sends a request while it waits.
  pub unpause-SignalReported :
      (e : Env) (smiec : ℕ → ℕ) (pm i1 i2 rmp i : ℕ) (s : Pm) (evs : List Event)
      → IsMinix e
      → k.ok ≢ k.ebusy
      → szukaj (jest_uslugi cv_name) k.nr_procs 0 s.mproc ≡ some i
      → (s.mproc i).endpoint ≢ k.vfs_proc_nr
      → (s.mproc rmp).flags.delay_call ≡ false
      → ma_czekac (s.mproc rmp).flags ≡ false
      → (s.mproc rmp).flags.vfs_call ≡ false
      → messages_in evs < 512
      → All (IsFair smiec) evs
      → IsPolite evs nobody
      → ((j : ℕ) → smiec j ≢ (s.mproc rmp).endpoint)
      → SignalReported e smiec pm i1 i2 rmp i s evs
  unpause-SignalReported e smiec pm i1 i2 rmp i s evs minix busy found apart prompt runs idle few
        fair polite clean =
      let told = unpause-Reported k answers rmp i s busy found prompt runs idle in
      record {
        told = told;
        sent = Report.stops k answers rmp s ++ Report.reports k answers rmp i s;
        sends = told.sends;
        one_report = one_eintr pm i1 i2 rmp i s apart;
        interrupted =
            run-Interrupted e smiec evs (report pm i1 i2 (pos 5) (s.mproc rmp).endpoint) minix few
              fair polite refl clean;
      }
