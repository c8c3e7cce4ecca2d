-- ===== src/Pm/Utility.antt =====
-- projekt/servers/pm/utility.c: the search of the process table, and the messages to VFS and to
-- the cv server.
use minix_server_of_mutex_an.Base.{
  ℕ, zero, suc, Bool, true, false, ◌&&◌, ◌||◌, Option, none, some, List, [], ◌∷◌, ◌==◌, ltb, leb,
  pos, negsuc, not, if◌then◌else◌, ◌>>=◌, ◌+◌, ◌-◌, ◌*◌, ◌/◌, ℤ,
}
use minix_server_of_mutex_an.Pm.{
  Mproc, Notice, asynsend3, vm_notify_sig, Pm, Kernel, set_flags, call, must, same_name,
}

-- `for (rmp = &mproc[0]; rmp < &mproc[NR_PROCS]; rmp++) if (…)`: the first such slot from `i` on,
-- with the rounds that are left.
abbrev pub szukaj : (Mproc → Bool) → ℕ → ℕ → (ℕ → Mproc) → Option ℕ
szukaj test zero i table = none
szukaj test (suc r) i table = if test (table i) then some i else szukaj test r (suc i) table

-- `find_proc`
abbrev pub find_proc : Kernel → ℕ → Pm → Option ℕ
find_proc k lpid s = szukaj (λ p. p.flags.in_use && p.pid == lpid) k.nr_procs 0 s.mproc

abbrev pub pid_zajety : Kernel → ℕ → Pm → Bool
pid_zajety k pid s = elim (szukaj (λ p. p.pid == pid || p.procgrp == pid) k.nr_procs 0 s.mproc) [
  | none ↦ false
  | some i ↦ true
]

-- `next_pid < NR_PIDS ? next_pid + 1 : INIT_PID + 1`
abbrev pub nastepny_pid : Kernel → ℕ → ℕ → ℕ
nastepny_pid k nr_pids pid = if ltb pid nr_pids then pid + 1 else k.init_pid + 1

-- `get_free_pid`, from `next_pid` on: `none` is a loop that is not done when its fuel is.
unfoldable pub get_free_pid : ℕ → Kernel → ℕ → ℕ → Pm → Option ℕ
get_free_pid zero k nr_pids next_pid s = none
get_free_pid (suc f) k nr_pids next_pid s =
    let again = get_free_pid f k nr_pids (nastepny_pid k nr_pids next_pid) s in
    if pid_zajety k (nastepny_pid k nr_pids next_pid) s
    then again
    else some (nastepny_pid k nr_pids next_pid)

-- `tell_vfs`
unfoldable pub tell_vfs : Kernel → ℕ → Notice → Pm → Option Pm
tell_vfs k rmp m s = if (s.mproc rmp).flags.vfs_call then none else do
  s1 ← must k (asynsend3 k.vfs_proc_nr m) s
  some (set_flags rmp (λ f. record f { vfs_call = true }) s1)

abbrev pub cv_name : List ℕ
cv_name = 99 ∷ 118 ∷ []

abbrev pub ipc_name : List ℕ
ipc_name = 105 ∷ 112 ∷ 99 ∷ []

abbrev pub jest_uslugi : List ℕ → Mproc → Bool
jest_uslugi name p = p.flags.in_use && same_name p.name name

-- `tell_cv`. The message names the process, from the fields that its caller set.
unfoldable pub tell_cv : Kernel → Notice → Pm → Option Pm
tell_cv k m s = elim (szukaj (jest_uslugi cv_name) k.nr_procs 0 s.mproc) [
  | none ↦ some s
  | some i ↦ must k (asynsend3 (s.mproc i).endpoint m) s
]

-- `vm_notify_sig_wrapper` of projekt/servers/pm/signal.c, which does not look at the answer.
unfoldable pub vm_notify_sig_wrapper : Kernel → ℕ → Pm → Pm
vm_notify_sig_wrapper k ep s = elim (szukaj (jest_uslugi ipc_name) k.nr_procs 0 s.mproc) [
  | none ↦ s
  | some i ↦ (call k (vm_notify_sig ep (s.mproc i).endpoint) s).1
]

abbrev sprawdz_slot : Kernel → ℕ → Pm → ℕ → ℤ
sprawdz_slot k endpoint s n =
    if leb k.nr_procs n
    then k.einval
    else if not (endpoint == (s.mproc n).endpoint)
    then k.edeadept
    else if not (s.mproc n).flags.in_use
    then k.edeadept
    else k.ok

abbrev sprawdz_numer : Kernel → ℕ → Pm → ℤ → ℤ
sprawdz_numer k endpoint s (pos n) = sprawdz_slot k endpoint s n
sprawdz_numer k endpoint s (negsuc n) = if leb k.nr_tasks n then k.einval else k.ok

-- `pm_isokendpt`: its result, and `*proc`
abbrev pub pm_isokendpt : Kernel → ℕ → Pm → ℤ × ℤ
pm_isokendpt k endpoint s =
    (sprawdz_numer k endpoint s (k.endpoint_p endpoint), k.endpoint_p endpoint)

-- MINIX's constants of priorities: `PRIO_MIN` is `- prio_min_neg`.
pub record Priorities : Type 0 where
  pub prio_min_neg : ℕ
  pub prio_max : ℕ
  pub max_user_q : ℕ
  pub min_user_q : ℕ

-- `nice - PRIO_MIN`, unless `nice < PRIO_MIN`
abbrev pub nad_minimum : Priorities → ℤ → Option ℕ
nad_minimum c (pos n) = some (n + c.prio_min_neg)
nad_minimum c (negsuc n) =
    if ltb c.prio_min_neg (n + 1) then none else some (c.prio_min_neg - (n + 1))

abbrev pub wzor : Priorities → ℕ → ℕ
wzor c a = c.max_user_q + a * (c.min_user_q - c.max_user_q + 1) / (c.prio_max + c.prio_min_neg + 1)

abbrev pub przytnij : Priorities → ℕ → ℕ
przytnij c q =
    let q1 = if ltb q c.max_user_q then c.max_user_q else q in
    if ltb c.min_user_q q1 then c.min_user_q else q1

-- `nice_to_priority`: `none` for `EINVAL`.
unfoldable pub nice_to_priority : Priorities → ℤ → Option ℕ
nice_to_priority c nice = do
  a ← nad_minimum c nice
  if ltb (c.prio_max + c.prio_min_neg) a then none else some (przytnij c (wzor c a))
