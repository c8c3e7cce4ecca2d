-- ===== src/Tests/Loop.antt =====
-- The process manager of Tests/Pm.antt starts, and takes messages.
use minix_server_of_mutex_an.Base.{
  ℕ, ◌≡◌, ◌<◌, ap, subst, refl, true, false, none, some, List, [], ◌∷◌, pos, negsuc, arith,
}
use minix_server_of_mutex_an.Pm.Utility.{cv_name}
use minix_server_of_mutex_an.Pm.{Kernel}
use minix_server_of_mutex_an.Pm.Exit.{Minix, other, exit_proc}
use minix_server_of_mutex_an.Pm.Vfs.{System}
use minix_server_of_mutex_an.Pm.Loop.{Przychodzaca, sygnal, exit, wywolanie, petla}
use minix_server_of_mutex_an.Pm.Masks.{sig_setmask}
use minix_server_of_mutex_an.Pm.Killable.{AllKillable, Safe, Safe-some, SafeResult-some}
use minix_server_of_mutex_an.Pm.Killable.Calls.{sigprocmask}
use minix_server_of_mutex_an.Pm.Killable.Exit.{IsLawfulMinix}
use minix_server_of_mutex_an.Pm.Killable.Vfs.{IsLawfulSystem}
use minix_server_of_mutex_an.Pm.Killable.Loop.{petla-AllKillable}
use minix_server_of_mutex_an.Pm.Init.{
  Sygnaly, ustaw_sety, BootImage, Zdarzenie, wiadomosc, ksig, wpisz_obraz, main,
}
use minix_server_of_mutex_an.Pm.Booted.{Booted, wpisz_obraz-Booted}
use minix_server_of_mutex_an.Pm.Killable.Init.{main-AllKillable}
use minix_server_of_mutex_an.Pm.Answers.{Answered, petla-Answered}
use minix_server_of_mutex_an.Pm.ExitReport.{ExitReported, exit_proc-ExitReported}
use minix_server_of_mutex_an.Tests.Pm.{answers, others, pm, kernel, block_all, pm-AllKillable}

abbrev minix_calls : Minix
minix_calls = record {
  set_alarm = λ _ _ s. some s;
  stop_proc = λ _ _ s. some s;
  check_vtimer = λ _ _ s. some s;
}

abbrev system_calls : System
system_calls = record {
  exec_restart = λ _ _ _ _ s. some s;
  sched_start_user = λ _ _ s. (kernel.ok, s);
  expire_timers = λ _ s. some s;
  do_getsysinfo = λ s. some (kernel.ok, s);
}

minix_calls-IsLawful : (k : Kernel) → IsLawfulMinix k minix_calls
minix_calls-IsLawful k = record {
  set_alarm = λ _ _ s all. Safe-some k all;
  stop_proc = λ _ _ s all. Safe-some k all;
  check_vtimer = λ _ _ s all. Safe-some k all;
}

system_calls-IsLawful : (k : Kernel) → IsLawfulSystem k system_calls
system_calls-IsLawful k = record {
  exec_restart = λ _ _ _ _ s all. Safe-some k all;
  sched_start_user = λ _ _ s all. all;
  expire_timers = λ _ s all. Safe-some k all;
  do_getsysinfo = λ s all. SafeResult-some k kernel.ok all;
}

-- The process 0 blocks what it can, and exits.
abbrev messages : List Przychodzaca
messages =
    record {
      m_source = 0;
      notify = none;
      m_type = wywolanie (sygnal (sigprocmask block_all sig_setmask));
    }
    ∷ record { m_source = 0; notify = none; m_type = wywolanie (exit (pos 3)) }
    ∷ []

petla-AllKillable_example :
    Safe kernel (petla kernel system_calls (other kernel minix_calls 2) (negsuc 2) messages pm)
petla-AllKillable_example =
    petla-AllKillable kernel minix_calls system_calls (negsuc 2) 2 messages pm
      (minix_calls-IsLawful kernel) (system_calls-IsLawful kernel) (tt, (tt, tt)) pm-AllKillable

-- The image has a task, INIT and one server; then the kernel sends SIGQUIT, and the process 0 exits.
abbrev image : List BootImage
image =
    record { proc_nr = negsuc 1; proc_name = []; endpoint = 200 }
    ∷ record { proc_nr = pos 1; proc_name = []; endpoint = 1 }
    ∷ record { proc_nr = pos 2; proc_name = cv_name; endpoint = 2 }
    ∷ []

abbrev zdarzenia : List Zdarzenie
zdarzenia =
    ksig 2 3
    ∷ wiadomosc (record { m_source = 0; notify = none; m_type = wywolanie (exit (pos 3)) })
    ∷ []

slot_same : {a b : ℕ} → pos a ≡ pos b → a ≡ b
slot_same {a} e = ap (λ z. elim z [ pos n ↦ n | negsuc n ↦ a ]) e

wpisz_obraz-Booted_example :
    Booted kernel 15 answers (omega arith) image pm (wpisz_obraz kernel 15 image pm)
wpisz_obraz-Booted_example =
    wpisz_obraz-Booted kernel 15 answers (omega arith) image pm
      (
        (λ nr e. cc),
        (
          (λ nr e. (subst (λ m. m < 3) (slot_same e) (omega arith), ((λ f. cc), tt))),
          ((λ nr e. (subst (λ m. m < 3) (slot_same e) (omega arith), tt)), tt),
        ),
      )
      (omega arith, omega arith)

abbrev numery : Sygnaly
numery = record {
  sigill = 4;
  sigtrap = 5;
  sigabrt = 6;
  sigemt = 7;
  sigfpe = 8;
  sigbus = 10;
  sigsegv = 11;
  sigcont = 18;
}

abbrev started : Kernel
started = ustaw_sety numery kernel

pm-started : AllKillable started pm
pm-started = record {
  at = λ i.
      let h = pm-AllKillable.at i in
      record {
        mask = h.mask;
        mask2 = h.mask2;
        catch = h.catch;
        ignore = h.ignore;
        sa_mask = h.sa_mask;
      };
}

main-AllKillable_example : Safe started (
    main kernel numery minix_calls 2 15 image true
      (λ s. some s)
      system_calls
      (negsuc 2)
      zdarzenia
      pm)
main-AllKillable_example =
    main-AllKillable kernel numery minix_calls system_calls 15 image true (λ s. some s) (negsuc 2) 2
      zdarzenia pm (minix_calls-IsLawful started) (system_calls-IsLawful started)
      (λ t all. Safe-some started all) ((tt, tt), tt) pm-started

petla-Answered_example : Answered kernel (petla kernel system_calls others (negsuc 2) messages pm)
petla-Answered_example = petla-Answered kernel system_calls others (negsuc 2) messages pm refl

-- The process 0 ends with the status 3.
exit_proc-ExitReported_example :
    ExitReported kernel others answers 0 2
      (pos 3)
      false
      pm
      (exit_proc kernel others 0 (pos 3) false pm)
exit_proc-ExitReported_example =
    exit_proc-ExitReported kernel others answers 0 2 (pos 3) false pm refl refl refl refl (λ e. cc)
      (λ e. cc)
