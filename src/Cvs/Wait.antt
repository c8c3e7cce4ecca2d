-- ===== src/Cvs/Wait.antt =====
-- `cs_wait` of projekt/servers/cv/main.c implements the specification.
use native.Mathlib.Numerals.{add-one}
use minix_server_of_mutex_an.Base.{
  ℕ, ◌+◌, ◌<◌, ◌≡◌, refl, ap, neg, ◌∙◌, fun_ext, inl, inr, Option, none, some, List, [], ◌∷◌, ◌++◌,
  ℤ, ◌==◌, if◌then◌else◌, Bool-cases, modify, modify-modify, set, length, length-set, arith,
  append-nil,
}
use minix_server_of_mutex_an.State.{Mutex, ConditionVariable, Server, Env}
use minix_server_of_mutex_an.Spec.{
  code, pass, told, waiter, put_events, Waited, wait, wait_held, no_reply, not_valid, Locks,
  granted,
}
use minix_server_of_mutex_an.Slots.{indeks}
use minix_server_of_mutex_an.Slots.Table
use minix_server_of_mutex_an.Slots.Write
use minix_server_of_mutex_an.Slots.Table.{
  szukaj, uzywane, Slot, Free, szukanie, brak, jest, Distinct,
}
use minix_server_of_mutex_an.Mutexes.{mutex_slotted, cs_unlock}
use minix_server_of_mutex_an.Mutexes.View.{IsTable, locks_of, held_by}
use minix_server_of_mutex_an.Mutexes.Unlock.{Released, cs_unlock-unlock}
use minix_server_of_mutex_an.Cvs.{cv_slotted, zajmij_cv, dopisz, slot_cv, zapisz, czekaj, cs_wait}
use minix_server_of_mutex_an.Cvs.Arrays.{zip_take, zip_take-set}
use minix_server_of_mutex_an.Cvs.View.{czekajacy, czekajacy-length, events_of, IsSized, IsCvTable}

-- The slot with one more waiter.
abbrev dopisane : ℕ → ℕ → ConditionVariable → ConditionVariable
dopisane p n c = record c {
  procesy = set c.procesy c.size p;
  muteksy = set c.muteksy c.size n;
  size = c.size + 1;
}

module _ {limit : ℕ} (p n : ℕ) (c : ConditionVariable) (z : IsSized limit c)
    (room : c.size < limit) where
  dopisz-dopisane : dopisz p n c ≡ some (dopisane p n c)
  unfolding dopisz
  dopisz-dopisane = ground (arith, z.procesy, z.muteksy)

  dopisane-IsSized : IsSized limit (dopisane p n c)
  dopisane-IsSized = record {
    procesy = length-set c.procesy c.size p ∙ z.procesy;
    muteksy = length-set c.muteksy c.size n ∙ z.muteksy;
    size = omega arith;
  }

  czekajacy-dopisane : czekajacy (dopisane p n c) ≡ czekajacy c ++ waiter p n ∷ []
  czekajacy-dopisane = rw add-one (
      zip_take-set c.size c.procesy c.muteksy p n (omega (arith, z.procesy))
        (omega (arith, z.muteksy)))

-- The table with one more waiter for the event `ev`.
pub record Registered (limit ev p n : ℕ) (cs : List ConditionVariable)
    (r : Option (List ConditionVariable)) : Type 0 where
  pub after : List ConditionVariable
  pub returns : r ≡ some after
  pub events : events_of after ≡ put_events ev (events_of cs ev ++ waiter p n ∷ []) (events_of cs)
  pub valid : IsCvTable limit after

module _ {limit : ℕ} (ev p n : ℕ) (cs : List ConditionVariable) (v : IsCvTable limit cs) where
  zapisz_known :
      {i : ℕ} {c : ConditionVariable}
      → Slot ev cs i c
      → length (events_of cs ev) < limit
      → Registered limit ev p n cs (zapisz ev p n cs)
  unfolding zapisz slot_cv
  zapisz_known {i} {c} slot fits =
      let z = Table.Slot-All (IsSized limit) slot v.sized in
      let used = Table.used-Slot slot in
      let here : events_of cs ev ≡ czekajacy c = rw (Table.szukaj-Slot slot) in
      let few : c.size < limit = omega (arith, ap length here, czekajacy-length c z) in
      rw (Table.indeks-Slot slot, slot_cv, Table.get_elem?-Slot slot, dopisz-dopisane p n c z few)
        (record {
          after = modify cs i (λ _. dopisane p n c);
          returns = refl;
          events = fun_ext λ k. ground (
            arith,
            Write.szukaj-modify (λ _. dopisane p n c) k slot used.0 used.1,
            here,
            czekajacy-dopisane p n c z few,
          );
          valid = record {
            distinct = Write.Distinct-modify _ slot used.0 used.1 v.distinct;
            sized = Write.All-modify-Slot _ _ slot (dopisane-IsSized p n c z few) v.sized;
            busy = Write.All-modify-Slot _ _ slot (λ _. omega arith) v.busy;
          };
        })

  zapisz_new :
      {i : ℕ} {c : ConditionVariable}
      → Free cs i c
      → indeks cs ev ≡ none
      → szukaj cs ev ≡ none
      → 0 < limit
      → Registered limit ev p n cs (zapisz ev p n cs)
  unfolding zapisz slot_cv zip_take
  zapisz_new {i} {c} free unknown absent pos =
      let z = Table.Free-All (IsSized limit) free v.sized in
      let c0 = zajmij_cv ev c in
      let z0 : IsSized limit c0 = record {
        procesy = z.procesy;
        muteksy = z.muteksy;
        size = omega arith;
      } in
      let f = λ (_ : ConditionVariable). dopisane p n c0 in
      rw
        (
          unknown,
          slot_cv,
          Table.wolny-Free free,
          Write.get_elem?-modify-Free (zajmij_cv ev) free,
          dopisz-dopisane p n c0 z0 pos,
        )
        (record {
          after = modify (modify cs i (zajmij_cv ev)) i f;
          returns = refl;
          events = rw (modify-modify cs i (zajmij_cv ev) f) (
              fun_ext λ k. ground (
                arith,
                Write.szukaj-take f refl refl k free absent,
                czekajacy-dopisane p n c0 z0 pos,
              ));
          valid = rw (modify-modify cs i (zajmij_cv ev) f) (record {
            distinct = Write.Distinct-take f refl refl free absent v.distinct;
            sized =
                Write.All-modify-Free (IsSized limit) f free (dopisane-IsSized p n c0 z0 pos)
                  v.sized;
            busy = Write.All-modify-Free _ f free (λ _. omega arith) v.busy;
          });
        })

  -- The process is entered at the end of those who wait for the event, if the event has a slot or
  -- one is free, and if its arrays have room.
  pub zapisz_lem :
      (events_of cs ev ≡ [] → uzywane cs < length cs)
      → length (events_of cs ev) < limit
      → Registered limit ev p n cs (zapisz ev p n cs)
  zapisz_lem room fits = elim (szukanie ev cs) [
    | jest slot ↦ zapisz_known slot fits
    | brak unknown absent ↦
        let (i, c, free) = Table.Free-exists cs (room (rw absent)) in
        zapisz_new free unknown absent (omega arith)
  ]

-- The outcome of a request that changes both tables and sends messages.
pub record Changed (limit : ℕ) (e : Env) (s : Server) (spec : Waited) (r : Option (ℤ × Server))
    : Type 0 where
  pub after : Server
  pub returns : r ≡ some (code e spec.answer, after)
  pub locks : locks_of after.m ≡ spec.locks
  pub events : events_of after.cv ≡ spec.events
  pub table : IsTable after.m
  pub cv_table : IsCvTable limit after.cv
  pub sends : after.sent ≡ s.sent ++ spec.replies
  pub caller : after.aktualny_proces ≡ s.aktualny_proces

module _ {limit : ℕ} (e : Env) (ev n : ℕ) (s : Server) (v : IsTable s.m) (w : IsCvTable limit s.cv)
    (room : events_of s.cv ev ≡ [] → uzywane s.cv < length s.cv)
    (fits : length (events_of s.cv ev) < limit) where
  refused :
      (locks : Locks)
      → locks_of s.m ≡ locks
      → Changed limit e s
          (record { answer = not_valid; locks = locks; events = events_of s.cv; replies = [] })
          (some (neg e.einval, s))
  refused locks same = record {
    after = s;
    returns = refl;
    locks = same;
    events = refl;
    table = v;
    cv_table = w;
    sends = rw append-nil;
    caller = refl;
  }

  czekaj-wait :
      (qs : List ℕ)
      → Released e s
          (record { answer = granted; locks = pass n qs (locks_of s.m); replies = told qs })
          (cs_unlock e n s)
      → Changed limit e s
          (record {
            answer = no_reply;
            locks = pass n qs (locks_of s.m);
            events =
                put_events ev
                  (events_of s.cv ev ++ waiter s.aktualny_proces n ∷ [])
                  (events_of s.cv);
            replies = told qs;
          })
          (czekaj e ev n s)
  unfolding czekaj
  czekaj-wait qs u =
      let same_cv : u.after.cv ≡ s.cv = ap (λ t. t.cv) u.kept in
      let same_caller : u.after.aktualny_proces ≡ s.aktualny_proces =
        ap (λ t. t.aktualny_proces) u.kept in
      let r = zapisz_lem ev s.aktualny_proces n s.cv w room fits in
      rw (u.returns, czekaj, same_cv, same_caller, r.returns)
        (record {
          after = record u.after { cv = r.after; aktualny_proces = s.aktualny_proces };
          returns = refl;
          locks = u.locks;
          events = r.events;
          table = u.valid;
          cv_table = r.valid;
          sends = u.sends;
          caller = refl;
        })

  wait_owner :
      {i : ℕ} {x : Mutex}
      → Slot n s.m i x
      → Changed limit e s
          (wait_held s.aktualny_proces ev n (locks_of s.m) (events_of s.cv) (some (held_by x)))
          (if x.wlasciciel == s.aktualny_proces then czekaj e ev n s else some (neg e.einval, s))
  wait_owner {x} slot = elim (Bool-cases (x.wlasciciel == s.aktualny_proces)) [
    | inr other ↦ rw other (refused (locks_of s.m) refl)
    | inl own ↦ rw own (
        czekaj-wait x.kolejka.elementy
          (rw (Table.szukaj-Slot slot, own) at (cs_unlock-unlock e n s v)))
  ]

  -- `cs_wait` refuses a caller that does not have the mutex. From its owner the mutex passes on as
  -- in `cs_unlock`, and the caller is entered last among those that wait for the event, with the
  -- number of its mutex and with no answer. The condition: the event has a slot or one is free, and
  -- its arrays have room. Both tables stay well formed.
  pub cs_wait-wait :
      Changed limit e s
        (wait s.aktualny_proces ev n (locks_of s.m) (events_of s.cv))
        (cs_wait e ev n s)
  unfolding cs_wait
  cs_wait-wait = elim (szukanie n s.m) [
    | brak unknown absent ↦ rw (unknown, absent, cs_wait) (refused (locks_of s.m) refl)
    | jest slot ↦
        rw (Table.indeks-Slot slot, cs_wait, Table.get_elem?-Slot slot, Table.szukaj-Slot slot)
          (wait_owner slot)
  ]
