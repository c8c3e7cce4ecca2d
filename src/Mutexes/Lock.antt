-- ===== src/Mutexes/Lock.antt =====
-- `cs_lock` of projekt/servers/cv/main.c implements the specification.
use minix_server_of_mutex_an.Base.{
  ℕ, ◌<◌, ◌≤◌, ◌≡◌, refl, fun_ext, inl, inr, true, Option, none, some, [], ◌∷◌, ◌++◌, ◌>>=◌, ℤ,
  ◌==◌, if◌then◌else◌, Bool-cases, modify, length, length-modify, suc, arith,
}
use minix_server_of_mutex_an.Queue.{Kolejka, wstaw}
use minix_server_of_mutex_an.State.{Mutex, Server, Env}
use minix_server_of_mutex_an.Spec.{held, Locks, put, Answer, code, granted, lock, lock_held}
use minix_server_of_mutex_an.Mutexes.{mutex_slotted, cs_lock, zajmij, doloz}
use minix_server_of_mutex_an.Slots.Table
use minix_server_of_mutex_an.Slots.Write
use minix_server_of_mutex_an.Slots.Table.{szukaj, uzywane, Slot, Free, szukanie, brak, jest}
use minix_server_of_mutex_an.Mutexes.View.{IsTable, IsIdle, locks_of, held_by}

-- The outcome of a request that changes nothing but the mutexes.
pub record Locked (e : Env) (s : Server) (spec : Answer × Locks) (r : Option (ℤ × Server))
    : Type 0 where
  pub after : Server
  pub returns : r ≡ some (code e spec.0, after)
  pub locks : locks_of after.m ≡ spec.1
  pub valid : IsTable after.m
  pub kept : after ≡ record s { m = after.m }
  pub grows : uzywane after.m ≤ suc (uzywane s.m)
  pub slots : length after.m ≡ length s.m

module _ (e : Env) (n : ℕ) (s : Server) (v : IsTable s.m) where
  lock_new :
      {i : ℕ} {x : Mutex}
      → Free s.m i x
      → szukaj s.m n ≡ none
      → Locked e s
          (granted, put n (some (held s.aktualny_proces [])) (locks_of s.m))
          (some (e.ok, record s { m = modify s.m i (zajmij n s.aktualny_proces) }))
  lock_new {i} {x} free absent = record {
    after = record s { m = modify s.m i (zajmij n s.aktualny_proces) };
    returns = refl;
    locks = fun_ext λ k. ground (
      arith,
      Write.szukaj-take (zajmij n s.aktualny_proces) refl refl k free absent,
      Table.Free-All IsIdle free v.idle (Table.uzywany-Free free),
    );
    valid = record {
      distinct = Write.Distinct-take _ refl refl free absent v.distinct;
      idle = Write.All-modify IsIdle _ s.m i (λ y h u. cc) v.idle;
    };
    kept = refl;
    grows = omega (arith, Write.uzywane-take (zajmij n s.aktualny_proces) free refl);
    slots = length-modify s.m i _;
  }

  lock_busy :
      {i : ℕ} {x : Mutex}
      → e.malloc s ≡ true
      → Slot n s.m i x
      → Locked e s (lock_held s.aktualny_proces n (locks_of s.m) (some (held_by x))) (
          if x.wlasciciel == s.aktualny_proces then some (e.eperm, s) else (do
            q ← wstaw (e.malloc s) x.kolejka s.aktualny_proces
            some (e.edontreply, record s { m = modify s.m i (doloz q) })))
  unfolding wstaw
  lock_busy {i} {x} memory slot = elim (Bool-cases (x.wlasciciel == s.aktualny_proces)) [
    | inl own ↦ rw own (record {
      after = s;
      returns = refl;
      locks = refl;
      valid = v;
      kept = refl;
      grows = omega arith;
      slots = refl;
    })
    | inr other ↦
        rw (other, wstaw, memory)
          (record {
            after = record s { m = modify s.m i (doloz longer) };
            returns = refl;
            locks =
                fun_ext
                  λ k. ground (arith, Write.szukaj-modify (doloz longer) k slot used.0 used.1);
            valid = record {
              distinct = Write.Distinct-modify _ slot used.0 used.1 v.distinct;
              idle = Write.All-modify-Slot IsIdle _ slot (λ u. ground (arith, used.0)) v.idle;
            };
            kept = refl;
            grows = omega (arith, Write.uzywane-modify (doloz longer) slot used.0);
            slots = length-modify s.m i _;
          })
  ]
    where
      longer : Kolejka
      longer = record x.kolejka { elementy = x.kolejka.elementy ++ s.aktualny_proces ∷ [] }

      used : (x.uzywany ≡ true) × (x.numer ≡ n)
      used = Table.used-Slot slot

  -- `cs_lock` gives its caller a mutex that nobody has, refuses one that it has already, and puts
  -- it last among those that wait for a mutex of another process. Nothing but the mutexes changes,
  -- and the table stays well formed. The conditions: there is memory for a node of the queue, and a slot
  -- is free, if the mutex needs one.
  pub cs_lock-lock :
      e.malloc s ≡ true
      → (locks_of s.m n ≡ none → uzywane s.m < length s.m)
      → Locked e s (lock s.aktualny_proces n (locks_of s.m)) (cs_lock e n s)
  unfolding cs_lock
  cs_lock-lock memory room = elim (szukanie n s.m) [
    | brak unknown absent ↦
        let (i, x, free) = Table.Free-exists s.m (room (rw absent)) in
        rw (unknown, absent, cs_lock, Table.wolny-Free free) (lock_new free absent)
    | jest slot ↦
        rw (Table.indeks-Slot slot, cs_lock, Table.get_elem?-Slot slot, Table.szukaj-Slot slot)
          (lock_busy memory slot)
  ]

-- Where every slot is used, `cs_lock` of a number that no slot has writes behind the table.
pub cs_lock_full :
    (e : Env) (n : ℕ) (s : Server)
    → locks_of s.m n ≡ none
    → length s.m ≤ uzywane s.m
    → cs_lock e n s ≡ none
unfolding cs_lock
cs_lock_full e n s absent full = elim (szukanie n s.m) [
  | brak unknown _ ↦ rw (unknown, cs_lock, Table.wolny-full s.m full)
  | jest slot ↦ ground (arith, Table.szukaj-Slot slot)
]
