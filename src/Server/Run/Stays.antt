-- ===== src/Server/Run/Stays.antt =====
-- A process that is gone stays gone, whatever the others ask the server of
-- projekt/servers/cv/main.c for.
use minix_server_of_mutex_an.Base.{
  ℕ, ◌≤◌, ◌≡◌, ◌≢◌, refl, ap, ◌∙◌, true, false, Option, none, some, List, [], ◌∷◌, ◌++◌, ◌==◌,
  Bool-cases, inl, inr, ==_refl, ==_ne, arith,
}
use minix_server_of_mutex_an.Queue.{erase}
use minix_server_of_mutex_an.Spec.{
  Held, held, Locks, put, lock_held, lock, pass, unlock_held, Waiter, waiter, Events, put_events,
  wait_held, wake, erase_waiter, leave_held, next_owner, release_held,
}
use minix_server_of_mutex_an.Server.{Message, Typ}
use minix_server_of_mutex_an.Server.Run.Counts.{times}
use minix_server_of_mutex_an.Server.Run.Steps.{View, view, step}
use minix_server_of_mutex_an.Server.Run.Places.{processes, times-append}
use minix_server_of_mutex_an.Server.Run.Wakes.{processes-append}
use minix_server_of_mutex_an.Server.Run.Ends.{processes-erase_waiter}

-- A process neither has a mutex nor waits for it.
abbrev pub IsAbsent : ℕ → Option Held → Type 0
IsAbsent p none = Unit
IsAbsent p (some h) = ((h.owner == p) ≡ false) × (times p h.waiting ≡ 0)

-- A process that is gone: it has no mutex, waits for none, and waits for no event.
pub record IsGone (p : ℕ) (v : View) : Type 0 where
  pub mutexes : (n : ℕ) → IsAbsent p (v.locks n)
  pub events : (ev : ℕ) → times p (processes (v.events ev)) ≡ 0

module _ (p : ℕ) where
  abbrev Free : Locks → Type 0
  Free locks = (n : ℕ) → IsAbsent p (locks n)

  abbrev Quiet : Events → Type 0
  Quiet events = (ev : ℕ) → times p (processes (events ev)) ≡ 0

  Free-put :
      (n : ℕ) (x : Option Held) (locks : Locks) → IsAbsent p x → Free locks → Free (put n x locks)
  Free-put n x locks here h m = elim (Bool-cases (m == n)) [
    | inl e ↦ rw e here
    | inr e ↦ rw e (h m)
  ]

  times-other : (q : ℕ) (xs : List ℕ) → q ≢ p → times p xs ≡ 0 → times p (xs ++ q ∷ []) ≡ 0
  times-other q xs ne h = times-append p xs q ∙ rw (==_ne q p ne, h)

  Free-lock :
      (q n : ℕ) (locks : Locks) (x : Option Held)
      → q ≢ p
      → IsAbsent p x
      → Free locks
      → Free (lock_held q n locks x).1
  Free-lock q n locks none ne here h = Free-put n _ locks (==_ne q p ne, refl) h
  Free-lock q n locks (some w) ne (other, absent) h = elim (Bool-cases (w.owner == q)) [
    | inl e ↦ rw e h
    | inr e ↦ rw e (Free-put n _ locks (other, times-other q w.waiting ne absent) h)
  ]

  -- Whoever is in a list without the process is another one.
  first_apart : (q : ℕ) (qs : List ℕ) → times p (q ∷ qs) ≡ 0 → (q == p) ≡ false
  first_apart q qs h = ==_ne q p λ same.
      let first : (q == p) ≡ true = ap (λ r. r == p) same ∙ ==_refl p in
      absurd (ground (arith, h, first))

  rest_absent : (q : ℕ) (qs : List ℕ) → times p (q ∷ qs) ≡ 0 → times p qs ≡ 0
  rest_absent q qs h = omega (arith, h)

  Free-pass :
      (n : ℕ) (qs : List ℕ) (locks : Locks) → times p qs ≡ 0 → Free locks → Free (pass n qs locks)
  Free-pass n [] locks absent h = Free-put n none locks tt h
  Free-pass n (q ∷ qs) locks absent h =
      Free-put n (some (held q qs)) locks (first_apart q qs absent, rest_absent q qs absent) h

  Free-unlock :
      (q n : ℕ) (locks : Locks) (x : Option Held)
      → IsAbsent p x
      → Free locks
      → Free (unlock_held q n locks x).locks
  Free-unlock q n locks none here h = h
  Free-unlock q n locks (some w) (other, absent) h = elim (Bool-cases (w.owner == q)) [
    | inl e ↦ rw e (Free-pass n w.waiting locks absent h)
    | inr e ↦ rw e h
  ]

  Quiet-put :
      (ev : ℕ) (ws : List Waiter) (events : Events)
      → times p (processes ws) ≡ 0
      → Quiet events
      → Quiet (put_events ev ws events)
  Quiet-put ev ws events here h v = elim (Bool-cases (v == ev)) [
    | inl e ↦ rw e here
    | inr e ↦ rw e (h v)
  ]

  IsGone-wait :
      (q ev n : ℕ) (locks : Locks) (events : Events) (x : Option Held)
      → q ≢ p
      → IsAbsent p x
      → Free locks
      → Quiet events
      → let w = wait_held q ev n locks events x in IsGone p (view w.locks w.events)
  IsGone-wait q ev n locks events none ne here h quiet = record { mutexes = h; events = quiet }
  IsGone-wait q ev n locks events (some w) ne (other, absent) h quiet =
      elim (Bool-cases (w.owner == q)) [
        | inl e ↦ rw e (record {
          mutexes = Free-pass n w.waiting locks absent h;
          events =
              Quiet-put ev (events ev ++ waiter q n ∷ []) events
                (ap (times p) (processes-append (events ev) (waiter q n))
                  ∙ times-other q (processes (events ev)) ne (quiet ev))
                quiet;
        })
        | inr e ↦ rw e (record { mutexes = h; events = quiet })
      ]

  Free-wake :
      (ws : List Waiter) (locks : Locks)
      → times p (processes ws) ≡ 0
      → Free locks
      → Free (wake ws locks)
  Free-wake [] locks absent h = h
  Free-wake (w ∷ ws) locks absent h =
      let apart = first_apart w.proces (processes ws) absent in
      let ne : w.proces ≢ p = λ same. ground arith in
      Free-wake ws (lock w.proces w.mutex locks).1 (rest_absent w.proces (processes ws) absent)
        (Free-lock w.proces w.mutex locks (locks w.mutex) ne (h w.mutex) h)

  times-erase_le : (q : ℕ) (xs : List ℕ) → times p (erase q xs) ≤ times p xs
  times-erase_le q [] = omega arith
  times-erase_le q (x ∷ xs) = elim (Bool-cases (x == q)) [
    | inl e ↦ rw e (omega arith)
    | inr e ↦ rw e (omega (arith, times-erase_le q xs))
  ]

  IsAbsent-leave : (q : ℕ) (x : Option Held) → IsAbsent p x → IsAbsent p (leave_held q x)
  IsAbsent-leave q none h = tt
  IsAbsent-leave q (some w) (other, absent) =
      (other, omega (arith, absent, times-erase_le q w.waiting))

  IsAbsent-next : (qs : List ℕ) → times p qs ≡ 0 → IsAbsent p (next_owner qs)
  IsAbsent-next [] h = tt
  IsAbsent-next (q ∷ qs) h = (first_apart q qs h, rest_absent q qs h)

  IsAbsent-release : (q : ℕ) (x : Option Held) → IsAbsent p x → IsAbsent p (release_held q x)
  IsAbsent-release q none h = tt
  IsAbsent-release q (some w) (other, absent) = elim (Bool-cases (w.owner == q)) [
    | inl e ↦ rw e (IsAbsent-next w.waiting absent)
    | inr e ↦ rw e (other, absent)
  ]

  times-erase_waiter :
      (q : ℕ) (ws : List Waiter)
      → times p (processes ws) ≡ 0
      → times p (processes (erase_waiter q ws)) ≡ 0
  times-erase_waiter q ws h =
      ap (times p) (processes-erase_waiter q ws) ∙ omega (arith, h, times-erase_le q (processes ws))

  -- A message that is not a request of the process.
  pub step-IsGone :
      (msg : Message) (t : Typ) (v : View) → msg.m_source ≢ p → IsGone p v → IsGone p (step msg t v)
  step-IsGone msg Typ.lock v ne h = record {
    mutexes = Free-lock msg.m_source msg.m1_i1 v.locks _ ne (h.mutexes msg.m1_i1) h.mutexes;
    events = h.events;
  }
  step-IsGone msg Typ.unlock v ne h = record {
    mutexes = Free-unlock msg.m_source msg.m1_i1 v.locks _ (h.mutexes msg.m1_i1) h.mutexes;
    events = h.events;
  }
  step-IsGone msg Typ.wait v ne h =
      IsGone-wait msg.m_source msg.m1_i2 msg.m1_i1 v.locks v.events _ ne (h.mutexes msg.m1_i1)
        h.mutexes h.events
  step-IsGone msg Typ.broadcast v ne h = record {
    mutexes = Free-wake (v.events msg.m1_i2) v.locks (h.events msg.m1_i2) h.mutexes;
    events = Quiet-put msg.m1_i2 [] v.events refl h.events;
  }
  step-IsGone msg Typ.eintr v ne h = record {
    mutexes = λ n. IsAbsent-leave msg.pm_proc (v.locks n) (h.mutexes n);
    events = λ ev. times-erase_waiter msg.pm_proc (v.events ev) (h.events ev);
  }
  step-IsGone msg Typ.exit v ne h = record {
    mutexes =
        λ n. IsAbsent-leave msg.pm_proc _ (IsAbsent-release msg.pm_proc (v.locks n) (h.mutexes n));
    events = λ ev. times-erase_waiter msg.pm_proc (v.events ev) (h.events ev);
  }
  step-IsGone msg Typ.bad v ne h = h
