-- ===== src/Server/Run/Steps.antt =====
-- The specification of Spec.antt for a sequence of messages, and how many mutexes and waits there
-- are after so many messages.
use minix_server_of_mutex_an.Base.{
  ℕ, suc, ◌+◌, ◌<◌, ◌≤◌, ◌≡◌, ◌≢◌, refl, sym, ◌∙◌, subst, false, Option, none, some, List, [], ◌∷◌,
  ◌++◌, ◌==◌, length, length-append, Bool-cases, inl, inr, ==_refl, arith,
}
use minix_server_of_mutex_an.Spec.{
  Held, held, Locks, put, lock_held, lock, pass, unlock_held, unlock, Waiter, waiter, Events,
  put_events, wait_held, wait, wake, broadcast, erase_waiter, leave_held, leave_locks, leave_events,
  release_held, exit_locks,
}
use minix_server_of_mutex_an.Server.{Message, Typ}
use minix_server_of_mutex_an.Server.Run.Counts.{times, without, length-without, times-without}

-- Who holds and waits for what.
pub record View : Type 0 where
  pub locks : Locks
  pub events : Events

abbrev pub view : Locks → Events → View
view locks events = record { locks = locks; events = events }

-- What a message does.
abbrev pub step : Message → Typ → View → View
step msg Typ.lock v = view (lock msg.m_source msg.m1_i1 v.locks).1 v.events
step msg Typ.unlock v = view (unlock msg.m_source msg.m1_i1 v.locks).locks v.events
step msg Typ.wait v =
    let w = wait msg.m_source msg.m1_i2 msg.m1_i1 v.locks v.events in view w.locks w.events
step msg Typ.broadcast v = let w = broadcast msg.m1_i2 v.locks v.events in view w.locks w.events
step msg Typ.eintr v = view (leave_locks msg.pm_proc v.locks) (leave_events msg.pm_proc v.events)
step msg Typ.exit v = view (exit_locks msg.pm_proc v.locks) (leave_events msg.pm_proc v.events)
step msg Typ.bad v = v

-- Every mutex that is taken is in the list, and every event as often as processes wait for it.
abbrev pub Holds : List ℕ → Locks → Type 0
Holds ns locks = (n : ℕ) (h : Held) → locks n ≡ some h → 0 < times n ns

abbrev pub Awaits : List ℕ → Events → Type 0
Awaits evs events = (ev : ℕ) → length (events ev) ≤ times ev evs

pub record Few (messages : ℕ) (v : View) : Type 0 where
  pub mutexes : List ℕ
  pub waits : List ℕ
  pub total : length mutexes + length waits ≤ messages
  pub holds : Holds mutexes v.locks
  pub awaits : Awaits waits v.events

times-cons : (n : ℕ) (ns : List ℕ) → 0 < times n (n ∷ ns)
times-cons n ns = rw (==_refl n) (omega arith)

Holds-cons : (n : ℕ) (ns : List ℕ) (locks : Locks) → Holds ns locks → Holds (n ∷ ns) locks
Holds-cons n ns locks h m v e = omega (arith, h m v e)

Holds-put :
    (n : ℕ) (v : Option Held) (ns : List ℕ) (locks : Locks)
    → 0 < times n ns
    → Holds ns locks
    → Holds ns (put n v locks)
Holds-put n v ns locks here h m w e = elim (Bool-cases (m == n)) [
  | inl same ↦ let is_n : n ≡ m = ground arith in subst (λ x. 0 < times x ns) is_n here
  | inr other ↦ h m w (sym (unput m n v locks other) ∙ e)
]
  where
    unput :
        (m n : ℕ) (v : Option Held) (locks : Locks) → (m == n) ≡ false → put n v locks m ≡ locks m
    unput m n v locks other = rw other

Holds-lock :
    (p n : ℕ) (ns : List ℕ) (locks : Locks) (v : Option Held)
    → Holds ns locks
    → Holds (n ∷ ns) (lock_held p n locks v).1
Holds-lock p n ns locks none h =
    Holds-put n _ (n ∷ ns) locks (times-cons n ns) (Holds-cons n ns locks h)
Holds-lock p n ns locks (some w) h = elim (Bool-cases (w.owner == p)) [
  | inl e ↦ rw e (Holds-cons n ns locks h)
  | inr e ↦ rw e (Holds-put n _ (n ∷ ns) locks (times-cons n ns) (Holds-cons n ns locks h))
]

Holds-pass :
    (n : ℕ) (qs ns : List ℕ) (locks : Locks)
    → 0 < times n ns
    → Holds ns locks
    → Holds ns (pass n qs locks)
Holds-pass n [] ns locks here h = Holds-put n none ns locks here h
Holds-pass n (q ∷ qs) ns locks here h = Holds-put n (some (held q qs)) ns locks here h

Holds-unlock :
    (p n : ℕ) (ns : List ℕ) (locks : Locks) (v : Option Held)
    → locks n ≡ v
    → Holds ns locks
    → Holds ns (unlock_held p n locks v).locks
Holds-unlock p n ns locks none e h = h
Holds-unlock p n ns locks (some w) e h = elim (Bool-cases (w.owner == p)) [
  | inl own ↦ rw own (Holds-pass n w.waiting ns locks (h n w e) h)
  | inr other ↦ rw other h
]

Awaits-cons :
    (ev : ℕ) (evs : List ℕ) (events : Events) → Awaits evs events → Awaits (ev ∷ evs) events
Awaits-cons ev evs events h n = omega (arith, h n)

Awaits-add :
    (ev : ℕ) (w : Waiter) (evs : List ℕ) (events : Events)
    → Awaits evs events
    → Awaits (ev ∷ evs) (put_events ev (events ev ++ w ∷ []) events)
Awaits-add ev w evs events h n = elim (Bool-cases (n == ev)) [
  | inl same ↦
      let is_ev : ev ≡ n = ground arith in
      rw (same, is_ev, ==_refl n) (omega (arith, h n, length-append (events n) (w ∷ [])))
  | inr other ↦ rw other (omega (arith, h n))
]

-- A mutex that a request to wait gives back, and the new wait.
Few-wait :
    (k p ev n : ℕ) (locks : Locks) (events : Events) (v : Option Held)
    → locks n ≡ v
    → Few k (view locks events)
    → let w = wait_held p ev n locks events v in Few (suc k) (view w.locks w.events)
Few-wait k p ev n locks events none e f = record {
  mutexes = f.mutexes;
  waits = f.waits;
  total = omega (arith, f.total);
  holds = f.holds;
  awaits = f.awaits;
}
Few-wait k p ev n locks events (some w) e f = elim (Bool-cases (w.owner == p)) [
  | inl own ↦ rw own (record {
    mutexes = f.mutexes;
    waits = ev ∷ f.waits;
    total = omega (arith, f.total);
    holds = Holds-pass n w.waiting f.mutexes locks (f.holds n w e) f.holds;
    awaits = Awaits-add ev (waiter p n) f.waits events f.awaits;
  })
  | inr other ↦ rw other (record {
    mutexes = f.mutexes;
    waits = f.waits;
    total = omega (arith, f.total);
    holds = f.holds;
    awaits = f.awaits;
  })
]

-- The mutexes that woken processes ask for.
abbrev asked : List Waiter → List ℕ → List ℕ
asked [] ns = ns
asked (w ∷ ws) ns = asked ws (w.mutex ∷ ns)

length-asked : (ws : List Waiter) (ns : List ℕ) → length (asked ws ns) ≡ length ws + length ns
length-asked [] ns = omega arith
length-asked (w ∷ ws) ns = omega (arith, length-asked ws (w.mutex ∷ ns))

Holds-wake :
    (ws : List Waiter) (ns : List ℕ) (locks : Locks)
    → Holds ns locks
    → Holds (asked ws ns) (wake ws locks)
Holds-wake [] ns locks h = h
Holds-wake (w ∷ ws) ns locks h =
    Holds-wake ws (w.mutex ∷ ns) (lock w.proces w.mutex locks).1
      (Holds-lock w.proces w.mutex ns locks (locks w.mutex) h)

Awaits-broadcast :
    (ev : ℕ) (evs : List ℕ) (events : Events)
    → Awaits evs events
    → Awaits (without ev evs) (put_events ev [] events)
Awaits-broadcast ev evs events h n = elim (Bool-cases (n == ev)) [
  | inl same ↦ rw same (omega arith)
  | inr other ↦
      let ne : n ≢ ev = λ is_ev. ground arith in rw (other, times-without ev n evs ne) (h n)
]

length-erase_waiter : (p : ℕ) (ws : List Waiter) → length (erase_waiter p ws) ≤ length ws
length-erase_waiter p [] = omega arith
length-erase_waiter p (w ∷ ws) = elim (Bool-cases (w.proces == p)) [
  | inl e ↦ rw e (omega arith)
  | inr e ↦ rw e (omega (arith, length-erase_waiter p ws))
]

Awaits-leave :
    (p : ℕ) (evs : List ℕ) (events : Events)
    → Awaits evs events
    → Awaits evs (leave_events p events)
Awaits-leave p evs events h ev = omega (arith, length-erase_waiter p (events ev), h ev)

taken_before :
    (p : ℕ) (v : Option Held) {h : Held} → leave_held p v ≡ some h → (g : Held) × (v ≡ some g)
taken_before p none e = cc
taken_before p (some g) e = (g, refl)

released_before :
    (p : ℕ) (v : Option Held) {h : Held} → release_held p v ≡ some h → (g : Held) × (v ≡ some g)
released_before p none e = cc
released_before p (some g) e = (g, refl)

Holds-leave :
    (p : ℕ) (ns : List ℕ) (locks : Locks) → Holds ns locks → Holds ns (leave_locks p locks)
Holds-leave p ns locks h n w e = let (g, f) = taken_before p (locks n) e in h n g f

Holds-exit : (p : ℕ) (ns : List ℕ) (locks : Locks) → Holds ns locks → Holds ns (exit_locks p locks)
Holds-exit p ns locks h n w e =
    let (g, f) = taken_before p (release_held p (locks n)) e in
    let (i, j) = released_before p (locks n) f in h n i j

-- A message adds one mutex or one wait at most.
pub Few-step : (k : ℕ) (msg : Message) (t : Typ) (v : View) → Few k v → Few (suc k) (step msg t v)
Few-step k msg Typ.lock v f = record {
  mutexes = msg.m1_i1 ∷ f.mutexes;
  waits = f.waits;
  total = omega (arith, f.total);
  holds = Holds-lock msg.m_source msg.m1_i1 f.mutexes v.locks (v.locks msg.m1_i1) f.holds;
  awaits = f.awaits;
}
Few-step k msg Typ.unlock v f = record {
  mutexes = f.mutexes;
  waits = f.waits;
  total = omega (arith, f.total);
  holds = Holds-unlock msg.m_source msg.m1_i1 f.mutexes v.locks (v.locks msg.m1_i1) refl f.holds;
  awaits = f.awaits;
}
Few-step k msg Typ.wait v f =
    Few-wait k msg.m_source msg.m1_i2 msg.m1_i1 v.locks v.events (v.locks msg.m1_i1) refl f
Few-step k msg Typ.broadcast v f = record {
  mutexes = asked (v.events msg.m1_i2) f.mutexes;
  waits = without msg.m1_i2 f.waits;
  total = omega (
    arith,
    f.total,
    f.awaits msg.m1_i2,
    length-asked (v.events msg.m1_i2) f.mutexes,
    length-without msg.m1_i2 f.waits,
  );
  holds = Holds-wake (v.events msg.m1_i2) f.mutexes v.locks f.holds;
  awaits = Awaits-broadcast msg.m1_i2 f.waits v.events f.awaits;
}
Few-step k msg Typ.eintr v f = record {
  mutexes = f.mutexes;
  waits = f.waits;
  total = omega (arith, f.total);
  holds = Holds-leave msg.pm_proc f.mutexes v.locks f.holds;
  awaits = Awaits-leave msg.pm_proc f.waits v.events f.awaits;
}
Few-step k msg Typ.exit v f = record {
  mutexes = f.mutexes;
  waits = f.waits;
  total = omega (arith, f.total);
  holds = Holds-exit msg.pm_proc f.mutexes v.locks f.holds;
  awaits = Awaits-leave msg.pm_proc f.waits v.events f.awaits;
}
Few-step k msg Typ.bad v f = record {
  mutexes = f.mutexes;
  waits = f.waits;
  total = omega (arith, f.total);
  holds = f.holds;
  awaits = f.awaits;
}
