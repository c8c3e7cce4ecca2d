-- ===== src/Pm/Forked/Steps.antt =====
-- The steps of a fork, from the number of the child on: projekt/servers/pm/forkexit.c.
use minix_server_of_mutex_an.Base.{
  ℕ, zero, suc, ◌+◌, ◌<◌, ◌≤◌, ◌≡◌, ◌≢◌, refl, ◌∙◌, subst, Bool, true, false, Option, some, List,
  [], ◌∷◌, ◌++◌, ◌==◌, if◌then◌else◌, is_some, Bool-cases, inl, inr, ==_refl, ==_ne, arith,
}
use minix_server_of_mutex_an.Pm.{Mproc, Notice, Call, asynsend3, Pm, Kernel, modify_proc, set_flags}
use minix_server_of_mutex_an.Pm.Utility.{szukaj, get_free_pid}
use minix_server_of_mutex_an.Pm.Signal.{Other}
use minix_server_of_mutex_an.Pm.Fork.{nadaj_pid, powiadom_sledzacego, ozyw}
use minix_server_of_mutex_an.Pm.Pids.{true-false}
use minix_server_of_mutex_an.Pm.Report.{tell_vfs_lem}

both_none :
    (b : Bool) (i : ℕ) (x : Option ℕ)
    → is_some (if b then some i else x) ≡ false
    → (b ≡ false) × (is_some x ≡ false)
both_none true i x e = absurd (true-false e)
both_none false i x e = (refl, e)

-- A search that finds nothing: no slot passes the test.
pub szukaj-none :
    (test : Mproc → Bool) (r i : ℕ) (table : ℕ → Mproc)
    → is_some (szukaj test r i table) ≡ false
    → (j : ℕ) → i ≤ j
    → j < i + r
    → test (table j) ≡ false
szukaj-none test zero i table e j low high = absurd (omega arith)
szukaj-none test (suc r) i table e j low high =
    let (here, rest) = both_none (test (table i)) i (szukaj test r (suc i) table) e in
    elim (Bool-cases (i == j)) [
      | inl same ↦ let is_j : i ≡ j = ground arith in subst (λ n. test (table n) ≡ false) is_j here
      | inr apart ↦ szukaj-none test r (suc i) table rest j (ground arith) (omega arith)
    ]

module _ (k : Kernel) (o : Other)
    (answers : (cs : List Call) (c : Call) → k.answer cs c ≡ k.ok) where
  -- The state once the process in the slot `c` has its number.
  abbrev pub numbered : ℕ → ℕ → Pm → Pm
  numbered c pid s =
      let s1 = modify_proc c (λ p. record p { pid = pid }) s in record s1 { next_pid = pid }

  -- The state once VFS was told.
  abbrev pub told : Notice → ℕ → Pm → Pm
  told m c s =
      set_flags c (λ f. record f { vfs_call = true })
        (record s { calls = s.calls ++ asynsend3 k.vfs_proc_nr m ∷ [] })

  tracer-told : (m : Notice) (c : ℕ) (s : Pm) → ((told m c s).mproc c).tracer ≡ (s.mproc c).tracer
  unfolding set_flags modify_proc
  tracer-told m c s = simp (==_refl c)

  not_traced :
      (c : ℕ) (s : Pm) → (s.mproc c).tracer ≡ k.no_tracer → powiadom_sledzacego k o c s ≡ some s
  unfolding powiadom_sledzacego
  not_traced c s e = rw (powiadom_sledzacego, e, ==_refl k.no_tracer)

  nadaj_pid_lem :
      (c pid : ℕ) (s : Pm)
      → get_free_pid k.nr_pids k k.nr_pids s.next_pid s ≡ some pid
      → nadaj_pid k o c s ≡ some (numbered c pid s)
  unfolding nadaj_pid
  nadaj_pid_lem c pid s e = rw (nadaj_pid, e)

  pub ozyw_lem :
      (notice : Mproc → Mproc → Notice) (c pid : ℕ) (s : Pm)
      → get_free_pid k.nr_pids k k.nr_pids s.next_pid s ≡ some pid
      → ((numbered c pid s).mproc c).flags.vfs_call ≡ false
      → ((numbered c pid s).mproc c).tracer ≡ k.no_tracer
      → ozyw k o notice c s
        ≡ some (
            told
              (notice ((numbered c pid s).mproc s.mp) ((numbered c pid s).mproc c))
              c
              (numbered c pid s))
  unfolding ozyw
  ozyw_lem notice c pid s e idle free =
      let s1 = numbered c pid s in
      let m = notice (s1.mproc s.mp) (s1.mproc c) in
      rw (ozyw, nadaj_pid_lem c pid s e, tell_vfs_lem k answers c m s1 idle)
        (not_traced c (told m c s1) (tracer-told m c s1 ∙ free))

  pub numbered-at :
      (c pid : ℕ) (s : Pm) → (numbered c pid s).mproc c ≡ record (s.mproc c) { pid = pid }
  unfolding modify_proc
  numbered-at c pid s = rw (==_refl c)

  pub numbered-other : (c i pid : ℕ) (s : Pm) → i ≢ c → (numbered c pid s).mproc i ≡ s.mproc i
  unfolding modify_proc
  numbered-other c i pid s ne = rw (==_ne i c ne)

  pub told-at :
      (m : Notice) (c : ℕ) (s : Pm)
      → (told m c s).mproc c
        ≡ record (s.mproc c) { flags = record (s.mproc c).flags { vfs_call = true } }
  unfolding set_flags modify_proc
  told-at m c s = rw (==_refl c)

  pub told-other : (m : Notice) (c i : ℕ) (s : Pm) → i ≢ c → (told m c s).mproc i ≡ s.mproc i
  unfolding set_flags modify_proc
  told-other m c i s ne = rw (==_ne i c ne)

  pub told-calls :
      (m : Notice) (c : ℕ) (s : Pm) → (told m c s).calls ≡ s.calls ++ asynsend3 k.vfs_proc_nr m ∷ []
  unfolding set_flags modify_proc
  told-calls m c s = refl

  pub told-count : (m : Notice) (c : ℕ) (s : Pm) → (told m c s).procs_in_use ≡ s.procs_in_use
  unfolding set_flags modify_proc
  told-count m c s = refl

  pub numbered-count : (c pid : ℕ) (s : Pm) → (numbered c pid s).procs_in_use ≡ s.procs_in_use
  unfolding modify_proc
  numbered-count c pid s = refl
