-- ===== src/Pm/Pids.antt =====
-- `get_free_pid` of projekt/servers/pm/utility.c always finds a number, if there are enough.
use minix_server_of_mutex_an.Base.{
  ℕ, zero, suc, ◌+◌, ◌*◌, ◌-◌, ◌<◌, ◌≤◌, ◌≡◌, refl, sym, ap, ◌∙◌, Bool, true, false, ◌||◌, Option,
  some, ◌==◌, if◌then◌else◌, Bool-cases, Option-cases, is_some, inl, inr, ltb, arith,
}
use minix_server_of_mutex_an.Pm.{Mproc, Pm, Kernel}
use minix_server_of_mutex_an.Pm.Utility.{szukaj, pid_zajety, nastepny_pid, get_free_pid}
use minix_server_of_mutex_an.Pm.Numbers.{kandydat, nastepny_range}

pub true-false : true ≡ false → ⊥
true-false e = cc

-- How many of the numbers from `i` on pass a test.
abbrev number : Bool → ℕ
number b = if b then 1 else 0

abbrev how_many : (ℕ → Bool) → ℕ → ℕ → ℕ
how_many test zero i = 0
how_many test (suc r) i = number (test i) + how_many test r (suc i)

how_many-le :
    (p a b c : ℕ → Bool) (r i : ℕ)
    → ((v : ℕ) → number (p v) ≤ number (a v) + number (b v) + number (c v))
    → how_many p r i ≤ how_many a r i + how_many b r i + how_many c r i
how_many-le p a b c zero i h = omega arith
how_many-le p a b c (suc r) i h = omega (arith, h i, how_many-le p a b c r (suc i) h)

none_behind : (a r i : ℕ) → a < i → how_many (λ v. a == v) r i ≡ 0
none_behind a zero i less = refl
none_behind a (suc r) i less =
    let rest = none_behind a r (suc i) (omega arith) in ground (arith, rest)

-- A number equals one number.
how_many-one : (a r i : ℕ) → how_many (λ v. a == v) r i ≤ 1
how_many-one a zero i = omega arith
how_many-one a (suc r) i = elim (Bool-cases (a == i)) [
  | inl e ↦ let rest = none_behind a r (suc i) (ground arith) in ground (arith, rest)
  | inr e ↦ let rest = how_many-one a r (suc i) in ground (arith, rest)
]

abbrev pub has_number : ℕ → Mproc → Bool
has_number v p = p.pid == v || p.procgrp == v

slot_number :
    (a b v : ℕ) (rest : Option ℕ) (i : ℕ)
    → number (is_some (if a == v || b == v then some i else rest))
      ≤ number (a == v) + number (b == v) + number (is_some rest)
slot_number a b v rest i = elim (Bool-cases (a == v)) [
  | inl e ↦ rw e (omega arith)
  | inr e ↦ elim (Bool-cases (b == v)) [
    | inl f ↦ rw (e, f) (omega arith)
    | inr f ↦ rw (e, f) (omega arith)
  ]
]

-- The processes of `r` slots have at most two numbers each.
how_many-table :
    (r j : ℕ) (table : ℕ → Mproc) (n i : ℕ)
    → how_many (λ v. is_some (szukaj (has_number v) r j table)) n i ≤ 2 * r
how_many-table zero j table n i = nobody n i
  where
    nobody : (n i : ℕ) → how_many (λ v. false) n i ≤ 2 * 0
    nobody zero i = omega arith
    nobody (suc n) i = omega (arith, nobody n (suc i))
how_many-table (suc r) j table n i =
    let rest = how_many-table r (suc j) table n i in
    let p = how_many-one (table j).pid n i in
    let q = how_many-one (table j).procgrp n i in
    omega (
      arith,
      rest,
      p,
      q,
      how_many-le (λ v. is_some (szukaj (has_number v) (suc r) j table)) (λ v. (table j).pid == v)
          (λ v. (table j).procgrp == v) (λ v. is_some (szukaj (has_number v) r (suc j) table)) n i
          λ v.
            slot_number (table j).pid (table j).procgrp v (szukaj (has_number v) r (suc j) table) j,
    )

-- A test that not all of `r` numbers pass is failed by one of them.
fails :
    (test : ℕ → Bool) (r i : ℕ)
    → how_many test r i < r
    → (v : ℕ) × ((i ≤ v) × ((v < i + r) × (test v ≡ false)))
fails test zero i less = absurd (omega arith)
fails test (suc r) i less = elim (Bool-cases (test i)) [
  | inl e ↦
      let few : how_many test r (suc i) < r = ground (arith, less) in
      let (v, (low, (high, failed))) = fails test r (suc i) few in
      (v, (omega (arith, low), (omega (arith, high), failed)))
  | inr e ↦ (i, (omega arith, (omega arith, e)))
]

module _ (k : Kernel) (nr_pids : ℕ) where
  -- The numbers behind `pid`, up to the last one.
  kandydat-up : (n pid : ℕ) → pid + 1 + n ≤ nr_pids → kandydat k nr_pids pid n ≡ pid + 1 + n
  kandydat-up zero pid le =
      let here : nastepny_pid k nr_pids pid ≡ pid + 1 = ground arith in here ∙ omega arith
  kandydat-up (suc n) pid le =
      let here : nastepny_pid k nr_pids pid ≡ pid + 1 = ground arith in
      ap (λ p. kandydat k nr_pids p n) here ∙ (kandydat-up n (pid + 1) (omega arith) ∙ omega arith)

  -- The numbers behind the last one.
  kandydat-last :
      (m : ℕ) → k.init_pid + 1 + m ≤ nr_pids → kandydat k nr_pids nr_pids m ≡ k.init_pid + 1 + m
  kandydat-last zero le =
      let here : nastepny_pid k nr_pids nr_pids ≡ k.init_pid + 1 = ground arith in
      here ∙ omega arith
  kandydat-last (suc m) le =
      let here : nastepny_pid k nr_pids nr_pids ≡ k.init_pid + 1 = ground arith in
      ap (λ p. kandydat k nr_pids p m) here
      ∙ (kandydat-up m (k.init_pid + 1) (omega arith) ∙ omega arith)

  kandydat-wrap :
      (d m pid : ℕ)
      → pid + d ≡ nr_pids
      → k.init_pid + 1 + m ≤ nr_pids
      → kandydat k nr_pids pid (d + m) ≡ k.init_pid + 1 + m
  kandydat-wrap zero m pid e le =
      let same : pid ≡ nr_pids = omega arith in
      let start : 0 + m ≡ m = omega arith in rw (same, start) (kandydat-last m le)
  kandydat-wrap (suc d) m pid e le =
      let here : nastepny_pid k nr_pids pid ≡ pid + 1 = ground arith in
      let next : suc d + m ≡ suc (d + m) = omega arith in
      rw next
        (ap (λ p. kandydat k nr_pids p (d + m)) here ∙ kandydat-wrap d m (pid + 1) (omega arith) le)

  -- Every number is tried.
  kandydat-every :
      (pid v : ℕ)
      → k.init_pid ≤ pid
      → pid ≤ nr_pids
      → k.init_pid < v
      → v ≤ nr_pids
      → (n : ℕ) × ((n < nr_pids - k.init_pid) × (kandydat k nr_pids pid n ≡ v))
  kandydat-every pid v low high above below = elim (Bool-cases (ltb pid v)) [
    | inl e ↦
        let less : pid < v = ground arith in
        (v - (pid + 1), (omega arith, kandydat-up (v - (pid + 1)) pid (omega arith) ∙ omega arith))
    | inr e ↦
        let le : v ≤ pid = ground arith in
        let d = nr_pids - pid in
        let m = v - (k.init_pid + 1) in
        (d + m, (omega arith, kandydat-wrap d m pid (omega arith) (omega arith) ∙ omega arith))
  ]

  -- The search ends at the first number that is free, or all of them are taken.
  data Search (fuel pid : ℕ) (s : Pm) : Type 0 where
    found :
        (n : ℕ)
        → get_free_pid fuel k nr_pids pid s ≡ some (kandydat k nr_pids pid n)
        → pid_zajety k (kandydat k nr_pids pid n) s ≡ false
        → Search fuel pid s
    all_taken :
        ((n : ℕ) → n < fuel → pid_zajety k (kandydat k nr_pids pid n) s ≡ true) → Search fuel pid s

  taken_more :
      (f pid : ℕ) (s : Pm)
      → pid_zajety k (nastepny_pid k nr_pids pid) s ≡ true
      → ((n : ℕ)
          → n < f
          → pid_zajety k (kandydat k nr_pids (nastepny_pid k nr_pids pid) n) s ≡ true)
      → (n : ℕ) → n < suc f
      → pid_zajety k (kandydat k nr_pids pid n) s ≡ true
  taken_more f pid s taken h zero less = taken
  taken_more f pid s taken h (suc n) less = h n (omega arith)

  tried_more :
      (f pid : ℕ) (s : Pm)
      → pid_zajety k (nastepny_pid k nr_pids pid) s ≡ true
      → Search f (nastepny_pid k nr_pids pid) s
      → Search (suc f) pid s
  unfolding get_free_pid
  tried_more f pid s taken (found n e free) = found (suc n) (rw (get_free_pid, taken) e) free
  tried_more f pid s taken (all_taken h) = all_taken (taken_more f pid s taken h)

  tried_all : (fuel pid : ℕ) (s : Pm) → Search fuel pid s
  unfolding get_free_pid
  tried_all zero pid s = all_taken λ n less. absurd (omega arith)
  tried_all (suc f) pid s = elim (Bool-cases (pid_zajety k (nastepny_pid k nr_pids pid) s)) [
    | inl e ↦ tried_more f pid s e (tried_all f (nastepny_pid k nr_pids pid) s)
    | inr e ↦ found 0 (rw (get_free_pid, e)) e
  ]

  pub pid_zajety-is_some :
      (v : ℕ) (s : Pm) → pid_zajety k v s ≡ is_some (szukaj (has_number v) k.nr_procs 0 s.mproc)
  pid_zajety-is_some v s = elim (Option-cases (szukaj (has_number v) k.nr_procs 0 s.mproc)) [
    | inl e ↦ rw (pid_zajety, e)
    | inr (i, e) ↦ rw (pid_zajety, e)
  ]

  module _ (room : k.init_pid < nr_pids) where
    kandydat_range :
        (n pid : ℕ)
        → k.init_pid ≤ pid
        → (k.init_pid < kandydat k nr_pids pid n) × (kandydat k nr_pids pid n ≤ nr_pids)
    kandydat_range zero pid low = nastepny_range k nr_pids room pid low
    kandydat_range (suc n) pid low =
        kandydat_range n (nastepny_pid k nr_pids pid)
          (omega (arith, (nastepny_range k nr_pids room pid low).0))

  -- What the search gives: a number in the range that no process has.
  pub record FreePid (fuel next_pid : ℕ) (s : Pm) : Type 0 where
    pub pid : ℕ
    pub returns : get_free_pid fuel k nr_pids next_pid s ≡ some pid
    pub above : k.init_pid < pid
    pub below : pid ≤ nr_pids
    pub free : pid_zajety k pid s ≡ false

  -- `get_free_pid` always returns, with a number from INIT_PID + 1 to NR_PIDS that no process has
  -- as its `mp_pid` or `mp_procgrp`. The conditions: the range has more than two numbers for each
  -- slot of the table, `next_pid` lies between INIT_PID and NR_PIDS, and the fuel is the size of the
  -- range at least.
  pub get_free_pid_lem :
      (fuel next_pid : ℕ) (s : Pm)
      → 2 * k.nr_procs < nr_pids - k.init_pid
      → k.init_pid ≤ next_pid
      → next_pid ≤ nr_pids
      → nr_pids - k.init_pid ≤ fuel
      → FreePid fuel next_pid s
  get_free_pid_lem fuel next_pid s room low high enough = elim (tried_all fuel next_pid s) [
    | found n returns free ↦
        let range = kandydat_range (omega arith) n next_pid low in
        record {
          pid = kandydat k nr_pids next_pid n;
          returns = returns;
          above = range.0;
          below = range.1;
          free = free;
        }
    | all_taken taken ↦
        let (v, (from, (to, free))) =
          fails (λ v. is_some (szukaj (has_number v) k.nr_procs 0 s.mproc)) (nr_pids - k.init_pid)
            (k.init_pid + 1)
            (omega (
              arith,
              how_many-table k.nr_procs 0 s.mproc (nr_pids - k.init_pid) (k.init_pid + 1),
            )) in
        let (n, (less, is_v)) =
          kandydat-every next_pid v low high (omega (arith, from)) (omega (arith, to)) in
        let occupied : pid_zajety k v s ≡ true =
          sym (ap (λ u. pid_zajety k u s) is_v) ∙ taken n (omega (arith, less)) in
        absurd (true-false (sym occupied ∙ (pid_zajety-is_some v s ∙ free)))
  ]
