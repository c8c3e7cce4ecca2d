-- ===== src/Pm/Forked.antt =====
-- The slot that a fork takes: projekt/servers/pm/forkexit.c.
pub mod Child
pub mod Steps
use minix_server_of_mutex_an.Base.{
  ℕ, zero, suc, ◌+◌, ◌*◌, ◌-◌, ◌%◌, ◌<◌, ◌≤◌, ◌≡◌, ◌≢◌, refl, sym, ap, ◌∙◌, subst, Bool, true,
  false, not, ◌&&◌, ◌||◌, Option, none, some, List, [], ◌∷◌, ◌++◌, ℤ, pos, equals, equals_refl, leb,
  ltb, ◌==◌, ◌>>=◌, if◌then◌else◌, is_some, Bool-cases, Option-cases, inl, inr, ==_refl, ==_ne,
  append_assoc, arith,
}
use native.Mathlib.Nat.{mod-lt, mod-eq_of_lt, mod-add-mod, mod-eq-sub-mod}
use minix_server_of_mutex_an.Pm.{
  Mproc, Flags, Notice, pm_fork, Call, asynsend3, vm_fork, Pm, Kernel, modify_proc, set_flags,
}
use minix_server_of_mutex_an.Pm.Utility.{szukaj, pid_zajety, get_free_pid, tell_vfs}
use minix_server_of_mutex_an.Pm.Signal.{Other}
use minix_server_of_mutex_an.Pm.Fork.{
  pelna, szukaj_slotu, wolny_slot, kopia, przydziel, dziedziczone, wyzeruj, zajmij, nadaj_pid,
  powiadom_sledzacego, ozyw, wiadomosc_fork, fork_dalej, fork_slot, do_fork,
}
use minix_server_of_mutex_an.Pm.Pids.{
  true-false, has_number, pid_zajety-is_some, FreePid, get_free_pid_lem,
}
use minix_server_of_mutex_an.Pm.Report.{tell_vfs_lem}

-- The slot that is tried after `n` others.
abbrev pub slot_after : ℕ → ℕ → ℕ → ℕ
slot_after nr_procs next_child n = (next_child + 1 + n) % nr_procs

module _ (nr_procs : ℕ) (table : ℕ → Mproc) where
  -- The search ends at the first slot that is free, or all of them are in use.
  data Search (r next_child : ℕ) : Type 0 where
    found :
        (n : ℕ)
        → szukaj_slotu r nr_procs next_child table ≡ some (slot_after nr_procs next_child n)
        → (table (slot_after nr_procs next_child n)).flags.in_use ≡ false
        → ((m : ℕ) → m < n → (table (slot_after nr_procs next_child m)).flags.in_use ≡ true)
        → Search r next_child
    all_used :
        ((n : ℕ) → n < r → (table (slot_after nr_procs next_child n)).flags.in_use ≡ true)
        → Search r next_child

  first_slot : (next_child : ℕ) → slot_after nr_procs next_child 0 ≡ (next_child + 1) % nr_procs
  first_slot next_child = ap (λ n. n % nr_procs) (omega arith)

  next_slot :
      (next_child n : ℕ)
      → slot_after nr_procs ((next_child + 1) % nr_procs) n ≡ slot_after nr_procs next_child (suc n)
  next_slot next_child n =
      ap (λ m. m % nr_procs) (omega arith)
      ∙ (mod-add-mod (next_child + 1) nr_procs (1 + n) ∙ ap (λ m. m % nr_procs) (omega arith))

  used_more :
      (f next_child : ℕ)
      → (table ((next_child + 1) % nr_procs)).flags.in_use ≡ true
      → ((n : ℕ)
          → n < f
          → (table (slot_after nr_procs ((next_child + 1) % nr_procs) n)).flags.in_use ≡ true)
      → (n : ℕ) → n < suc f
      → (table (slot_after nr_procs next_child n)).flags.in_use ≡ true
  used_more f next_child used h zero less =
      ap (λ i. (table i).flags.in_use) (first_slot next_child) ∙ used
  used_more f next_child used h (suc n) less =
      ap (λ i. (table i).flags.in_use) (sym (next_slot next_child n)) ∙ h n (omega arith)

  tried_more :
      (f next_child : ℕ)
      → (table ((next_child + 1) % nr_procs)).flags.in_use ≡ true
      → Search f ((next_child + 1) % nr_procs)
      → Search (suc f) next_child
  unfolding szukaj_slotu
  tried_more f next_child used (found n e free before) =
      found (suc n) (rw (szukaj_slotu, used) (e ∙ ap some (next_slot next_child n)))
        (ap (λ i. (table i).flags.in_use) (sym (next_slot next_child n)) ∙ free)
        (used_more n next_child used before)
  tried_more f next_child used (all_used h) = all_used (used_more f next_child used h)

  tried_all : (r next_child : ℕ) → Search r next_child
  unfolding szukaj_slotu
  tried_all zero next_child = all_used λ n less. absurd (omega arith)
  tried_all (suc r) next_child =
      elim (Bool-cases (table ((next_child + 1) % nr_procs)).flags.in_use) [
        | inl e ↦ tried_more r next_child e (tried_all r ((next_child + 1) % nr_procs))
        | inr e ↦
            found 0 (rw (szukaj_slotu, e) (ap some (sym (first_slot next_child))))
              (ap (λ i. (table i).flags.in_use) (first_slot next_child) ∙ e)
              (λ m less. absurd (omega arith))
      ]

-- Every slot is tried.
slot_after-every :
    (nr_procs next_child i : ℕ)
    → next_child < nr_procs
    → i < nr_procs
    → (n : ℕ) × ((n < nr_procs) × (slot_after nr_procs next_child n ≡ i))
slot_after-every nr_procs next_child i low less = elim (Bool-cases (ltb next_child i)) [
  | inl e ↦
      let above : next_child < i = ground arith in
      (
        i - (next_child + 1),
        (omega arith, ap (λ m. m % nr_procs) (omega arith) ∙ mod-eq_of_lt less),
      )
  | inr e ↦
      let under : i ≤ next_child = ground arith in
      (
        nr_procs + i - (next_child + 1),
        (
          omega arith,
          ap (λ m. m % nr_procs) (omega arith)
              ∙ (mod-eq-sub-mod {n = nr_procs + i} {m = nr_procs} (omega arith)
                  ∙ (ap (λ m. m % nr_procs) (omega arith) ∙ mod-eq_of_lt less)),
        ),
      )
]

-- The slot that a fork takes: the first free one behind `next_child`.
pub record FreeSlot (k : Kernel) (next_child : ℕ) (s : Pm) : Type 0 where
  pub rounds : ℕ
  pub returns : wolny_slot k next_child s ≡ some (slot_after k.nr_procs next_child rounds)
  pub free : (s.mproc (slot_after k.nr_procs next_child rounds)).flags.in_use ≡ false
  pub first :
      (m : ℕ) → m < rounds → (s.mproc (slot_after k.nr_procs next_child m)).flags.in_use ≡ true

-- The search of a fork for a slot does not panic, and gives the first free slot behind `next_child`,
-- where the slot 0 follows the last one. The conditions: `next_child` is in the table and some slot
-- is free.
pub wolny_slot_lem :
    (k : Kernel) (next_child i : ℕ) (s : Pm)
    → next_child < k.nr_procs
    → i < k.nr_procs
    → (s.mproc i).flags.in_use ≡ false
    → FreeSlot k next_child s
unfolding wolny_slot
wolny_slot_lem k next_child i s low less free =
    elim (tried_all k.nr_procs s.mproc k.nr_procs next_child) [
      | found n e is_free before ↦
          let inside : slot_after k.nr_procs next_child n < k.nr_procs =
            mod-lt (next_child + 1 + n) (omega arith) in
          let fits : leb k.nr_procs (slot_after k.nr_procs next_child n) ≡ false = ground arith in
          record {
            rounds = n;
            returns = rw (wolny_slot, e, fits, is_free);
            free = is_free;
            first = before;
          }
      | all_used h ↦
          let (n, (small, is_i)) = slot_after-every k.nr_procs next_child i low less in
          absurd (true-false (sym (h n small) ∙ (ap (λ j. (s.mproc j).flags.in_use) is_i ∙ free)))
    ]
