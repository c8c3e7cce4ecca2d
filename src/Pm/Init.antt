-- ===== src/Pm/Init.antt =====
-- projekt/servers/pm/main.c: the initialisation of PM from the boot image, and the signals that the
-- kernel sends to it. Timers, the magic number, the priority and the copies of the kernel's data are
-- not part of the table of Pm.antt.
use mathlib.Core.Option
use minix_server_of_mutex_an.Base.{
  ℕ, zero, suc, ◌+◌, Bool, true, false, Option, none, some, List, [], ◌∷◌, ℤ, pos, negsuc, ◌==◌,
  leb, if◌then◌else◌, ◌>>=◌,
}
use minix_server_of_mutex_an.Pm.{
  Sigset, sigaddset, Mproc, pm_init, pm_init_end, send, sendrec, sys_getmonparams, sys_getkinfo,
  sys_getimage, Pm, Kernel, modify_proc, must,
}
use minix_server_of_mutex_an.Pm.Utility.{get_free_pid}
use minix_server_of_mutex_an.Pm.Exit.{Minix, other}
use minix_server_of_mutex_an.Pm.Loop.{Przychodzaca, petla}
use minix_server_of_mutex_an.Pm.Vfs.{System}
use minix_server_of_mutex_an.Pm.Signal.{Other}
use minix_server_of_mutex_an.Pm.Check.{process_ksig}
use minix_server_of_mutex_an.Pm.Reply.{sendreply}

-- `sigemptyset(set); for (…) sigaddset(set, *sig_ptr)`
abbrev pub zbior_od : List ℕ → Sigset → Sigset
zbior_od [] set = set
zbior_od (n ∷ ns) set = zbior_od ns (sigaddset n set)

abbrev pub zbior : List ℕ → Sigset
zbior ns = zbior_od ns λ i. false

-- The numbers of the signals that only the sets name.
pub record Sygnaly : Type 0 where
  pub sigill : ℕ
  pub sigtrap : ℕ
  pub sigabrt : ℕ
  pub sigemt : ℕ
  pub sigfpe : ℕ
  pub sigbus : ℕ
  pub sigsegv : ℕ
  pub sigcont : ℕ

abbrev pub core_sigs : Kernel → Sygnaly → List ℕ
core_sigs k n =
    k.sigquit ∷ n.sigill ∷ n.sigtrap ∷ n.sigabrt ∷ n.sigemt ∷ n.sigfpe ∷ n.sigbus ∷ n.sigsegv ∷ []

abbrev pub ign_sigs : Kernel → Sygnaly → List ℕ
ign_sigs k n = k.sigchld ∷ k.sigwinch ∷ n.sigcont ∷ []

abbrev pub noign_sigs : Sygnaly → List ℕ
noign_sigs n = n.sigill ∷ n.sigtrap ∷ n.sigemt ∷ n.sigfpe ∷ n.sigbus ∷ n.sigsegv ∷ []

-- The sets that the rest of PM reads.
abbrev pub ustaw_sety : Sygnaly → Kernel → Kernel
ustaw_sety n k = record k {
  core_sset = zbior (core_sigs k n);
  ign_sset = zbior (ign_sigs k n);
  noign_sset = zbior (noign_sigs n);
}

-- An entry of the boot image.
pub record BootImage : Type 0 where
  pub proc_nr : ℤ
  pub proc_name : List ℕ
  pub endpoint : ℕ

-- `strlcpy`, without the zero at the end: `room` characters at most.
abbrev pub strlcpy : ℕ → List ℕ → List ℕ
strlcpy zero xs = []
strlcpy (suc room) [] = []
strlcpy (suc room) (x ∷ xs) = x ∷ strlcpy room xs

-- The name, and the sets of a process that handles no signal.
abbrev pub nowy_wpis : ℕ → BootImage → Mproc → Mproc
nowy_wpis room ip p = record p {
  name = strlcpy room ip.proc_name;
  ignore = λ i. false;
  sigmask = λ i. false;
  catch = λ i. false;
}

module _ (k : Kernel) (room : ℕ) where
  -- INIT is its own parent.
  abbrev pub wpis_init : Mproc → Mproc
  wpis_init p = record p {
    parent = k.init_proc_nr;
    procgrp = k.init_pid;
    pid = k.init_pid;
    flags = record p.flags { in_use = true };
    scheduler = k.kernel;
  }

  abbrev pub rodzic : ℕ → Mproc → Mproc
  rodzic nr p = record p { parent = if nr == k.rs_proc_nr then k.init_proc_nr else k.rs_proc_nr }

  abbrev pub uslugowy : ℕ → Mproc → Mproc
  uslugowy n p = record p {
    pid = n;
    flags = record p.flags { in_use = true; priv_proc = true };
    scheduler = k.none_ep;
  }

  -- A system process gets a number from the table as it is by then.
  unfoldable pub wpis_uslugi : ℕ → Pm → Option Pm
  unfolding modify_proc get_free_pid
  wpis_uslugi nr s = do
    let s1 = modify_proc nr (rodzic nr) s
    n ← get_free_pid k.nr_pids k k.nr_pids s1.next_pid s1
    some (modify_proc nr (uslugowy n) (record s1 { next_pid = n }))

  abbrev pub koniec : ℕ → Mproc → Mproc
  koniec endpoint p = record p { endpoint = endpoint }

  -- A round of the loop over the image, for a process that is no task. A slot behind the table is an
  -- access outside an array.
  unfoldable pub wpisz : ℕ → BootImage → Pm → Option Pm
  unfolding modify_proc wpis_uslugi must
  wpisz nr ip s = if leb k.nr_procs nr then none else do
    let s1 : Pm =
        modify_proc nr (nowy_wpis room ip) (record s { procs_in_use = s.procs_in_use + 1 })
    s2 ← if nr == k.init_proc_nr then some (modify_proc nr wpis_init s1) else wpis_uslugi nr s1
    let s3 = modify_proc nr (koniec ip.endpoint) s2
    must k (send k.vfs_proc_nr (pm_init nr (s3.mproc nr).pid (s3.mproc nr).endpoint)) s3

  abbrev pub wpisz_numer : ℤ → BootImage → Pm → Option Pm
  wpisz_numer (pos nr) ip s = wpisz nr ip s
  wpisz_numer (negsuc nr) ip s = some s

  unfoldable pub wpisz_obraz : List BootImage → Pm → Option Pm
  unfolding wpisz
  wpisz_obraz [] s = some s
  wpisz_obraz (ip ∷ image) s = do s1 ← wpisz_numer ip.proc_nr ip s; wpisz_obraz image s1

  -- `sef_cb_init_fresh`. `ready` tells whether VFS answers the last message with OK; `sched_init`
  -- is a function of another file.
  unfoldable pub sef_cb_init_fresh : (List BootImage) → Bool → (Pm → Option Pm) → Pm → Option Pm
  unfolding must wpisz_obraz
  sef_cb_init_fresh image ready sched_init s = do
    s1 ← must k sys_getmonparams s
    s2 ← must k sys_getkinfo s1
    s3 ← must k sys_getimage s2
    s4 ← wpisz_obraz image (record s3 { procs_in_use = 0 })
    s5 ← must k (sendrec k.vfs_proc_nr (pm_init_end k.none_ep)) s4
    if ready then sched_init s5 else none

-- What PM receives: a message, or a signal of the kernel, with its target.
pub data Zdarzenie : Type 0 where
  wiadomosc : Przychodzaca → Zdarzenie
  ksig : ℕ → ℕ → Zdarzenie

module _ (k : Kernel) (o : Other) where
  -- `sef_cb_signal_manager`
  unfoldable pub sef_cb_signal_manager : ℕ → ℕ → Pm → Option (ℤ × Pm)
  unfolding process_ksig sendreply
  sef_cb_signal_manager target signo s = do
    (r, s1) ← process_ksig k o target signo s
    some (r, sendreply k s1)

  -- A round of the loop of `main`: the receive hands a signal of the kernel to the callback.
  unfoldable pub zdarzenie : System → ℤ → Zdarzenie → Pm → Option Pm
  unfolding petla sef_cb_signal_manager
  zdarzenie y clock (wiadomosc m) s = petla k y o clock (m ∷ []) s
  zdarzenie y clock (ksig target signo) s =
      Option.map (λ (_, t). t) (sef_cb_signal_manager target signo s)

  unfoldable pub zdarzenia : System → ℤ → List Zdarzenie → Pm → Option Pm
  unfolding zdarzenie
  zdarzenia y clock [] s = some s
  zdarzenia y clock (z ∷ zs) s = do s1 ← zdarzenie y clock z s; zdarzenia y clock zs s1

-- `main`: the initialisation by `sef_local_startup`, which sets up the sets of signals, and the loop.
unfoldable pub main :
    Kernel
    → Sygnaly
    → Minix
    → ℕ
    → ℕ
    → List BootImage
    → Bool
    → (Pm → Option Pm)
    → System
    → ℤ
    → List Zdarzenie
    → Pm
    → Option Pm
unfolding sef_cb_init_fresh zdarzenia
main k n x fuel room image ready sched_init y clock zs s =
    let k1 = ustaw_sety n k in
    do
      s1 ← sef_cb_init_fresh k1 room image ready sched_init s
      zdarzenia k1 (other k1 x fuel) y clock zs s1
