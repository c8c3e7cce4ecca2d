-- ===== src/Pm/Numbers.antt =====
-- `get_free_pid` and `nice_to_priority` of projekt/servers/pm/utility.c.
use minix_server_of_mutex_an.Base.{
  ℕ, zero, suc, ◌+◌, ◌-◌, ◌*◌, ◌/◌, ◌<◌, ◌≤◌, ◌≡◌, true, false, some, ℤ, ltb, arith,
}
use native.Mathlib.Nat.{mul_comm, mul-lt-mul_of_pos_right, div-lt_iff_lt-mul}
use minix_server_of_mutex_an.Pm.{Pm, Kernel}
use minix_server_of_mutex_an.Pm.Utility.{
  pid_zajety, nastepny_pid, get_free_pid, Priorities, nad_minimum, wzor, nice_to_priority,
}

-- The number that is tried after `n` others.
abbrev pub kandydat : Kernel → ℕ → ℕ → ℕ → ℕ
kandydat k nr_pids pid zero = nastepny_pid k nr_pids pid
kandydat k nr_pids pid (suc n) = kandydat k nr_pids (nastepny_pid k nr_pids pid) n

module _ (k : Kernel) (nr_pids : ℕ) (room : k.init_pid < nr_pids) where
  pub nastepny_range :
      (pid : ℕ)
      → k.init_pid ≤ pid
      → (k.init_pid < nastepny_pid k nr_pids pid) × (nastepny_pid k nr_pids pid ≤ nr_pids)
  nastepny_range pid above = ground arith

  -- `get_free_pid` returns the first number that no process has as its `mp_pid` or `mp_procgrp`,
  -- in the order that begins behind `next_pid` and goes from NR_PIDS back to INIT_PID + 1, and that
  -- number lies in this range. The conditions: `n` numbers are taken before one that is free, the
  -- fuel exceeds `n`, and the range is not empty.
  pub get_free_pid-kandydat :
      (n fuel next_pid : ℕ) (s : Pm)
      → k.init_pid ≤ next_pid
      → ((i : ℕ) → i < n → pid_zajety k (kandydat k nr_pids next_pid i) s ≡ true)
      → pid_zajety k (kandydat k nr_pids next_pid n) s ≡ false
      → n < fuel
      → (get_free_pid fuel k nr_pids next_pid s ≡ some (kandydat k nr_pids next_pid n))
        × (k.init_pid < kandydat k nr_pids next_pid n)
        × (kandydat k nr_pids next_pid n ≤ nr_pids)
  unfolding get_free_pid
  get_free_pid-kandydat n zero next_pid s above taken free enough = absurd (omega arith)
  get_free_pid-kandydat zero (suc f) next_pid s above taken free enough = (
    rw (get_free_pid, free),
    (nastepny_range next_pid above).0,
    (nastepny_range next_pid above).1,
  )
  get_free_pid-kandydat (suc n) (suc f) next_pid s above taken free enough =
      let r = nastepny_range next_pid above in
      let rest =
        get_free_pid-kandydat n f (nastepny_pid k nr_pids next_pid) s (omega (arith, r.0))
          (λ i less. taken (suc i) (omega arith)) free (omega arith) in
      (rw (get_free_pid, taken 0 (omega arith)) rest.0, rest.1, rest.2)

ge→ltb : {a b : ℕ} → b ≤ a → ltb a b ≡ false
ge→ltb le = ground arith

-- `nice_to_priority` takes every `nice` from PRIO_MIN to PRIO_MAX to a queue from MAX_USER_Q to
-- MIN_USER_Q by its formula alone, whose result the two corrections behind it never change.
pub nice_to_priority-wzor :
    (c : Priorities) (nice : ℤ) (a : ℕ)
    → c.max_user_q ≤ c.min_user_q
    → nad_minimum c nice ≡ some a
    → a ≤ c.prio_max + c.prio_min_neg
    → (nice_to_priority c nice ≡ some (wzor c a))
      × (c.max_user_q ≤ wzor c a)
      × (wzor c a ≤ c.min_user_q)
unfolding nice_to_priority
nice_to_priority-wzor c nice a order offset in_range =
    let w = c.min_user_q - c.max_user_q + 1 in
    let r = c.prio_max + c.prio_min_neg + 1 in
    let below : a * w < w * r =
      rw (mul_comm w r)
        (mul-lt-mul_of_pos_right {m = a} {n = r} {k = w} (omega arith) (omega arith)) in
    let small : a * w / r < w =
      (div-lt_iff_lt-mul {k = r} {x = a * w} {y = w} (omega arith)).1 below in
    let low : c.max_user_q ≤ wzor c a = omega arith in
    let high : wzor c a ≤ c.min_user_q = omega (arith, small) in
    (simp (offset, ge→ltb in_range, ge→ltb low, ge→ltb high), low, high)
