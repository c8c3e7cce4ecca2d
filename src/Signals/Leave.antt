-- ===== src/Signals/Leave.antt =====
-- The first entry of a process leaves every queue and every event: the second and third loops of
-- `usunZakonczonyProces`, whose effect on the tables `wyslijEINTR` shares.
use minix_server_of_mutex_an.Base.{
  ℕ, ◌<◌, ◌≡◌, ◌≢◌, refl, fun_ext, true, false, List, All, Bool-cases, inl, inr, arith,
}
use minix_server_of_mutex_an.Queue.{erase, usun_proces, czy_pusto}
use minix_server_of_mutex_an.State.{Mutex, ConditionVariable}
use minix_server_of_mutex_an.Spec.{leave_locks, leave_events}
use minix_server_of_mutex_an.Slots.Table
use minix_server_of_mutex_an.Slots.Table.{szukaj, szukanie, brak, jest, Distinct}
use minix_server_of_mutex_an.Slots.Map.{Keeps, szukaj-map, Distinct-map, All-map, All-mono, All-zip}
use minix_server_of_mutex_an.Mutexes.{mutex_slotted}
use minix_server_of_mutex_an.Mutexes.View.{IsTable, IsIdle, locks_of}
use minix_server_of_mutex_an.Cvs.{cv_slotted}
use minix_server_of_mutex_an.Cvs.View.{events_of, IsSized, IsCvTable}
use minix_server_of_mutex_an.Signals.{opusc_jedna_kolejke, opusc_kolejki}
use minix_server_of_mutex_an.Signals.Plain.{leave_event, leave_all_events}
use minix_server_of_mutex_an.Signals.Remove.{leave_event-Left}

-- What lies in the `start` nodes is not the number of the process.
abbrev pub IsClean : ℕ → List Mutex → Type 0
IsClean p ms = All (λ x. x.kolejka.straznik ≢ p) ms

-- One queue, walked by the loop.
pub opusc_jedna_kolejke_lem :
    (p : ℕ) (x : Mutex)
    → x.kolejka.straznik ≢ p
    → opusc_jedna_kolejke p x
      ≡ record x { kolejka = record x.kolejka { elementy = erase p x.kolejka.elementy } }
unfolding opusc_jedna_kolejke usun_proces czy_pusto
opusc_jedna_kolejke_lem p x clean = ground arith

Keeps-kolejka : (p : ℕ) (x : Mutex) → x.kolejka.straznik ≢ p → Keeps x (opusc_jedna_kolejke p x)
Keeps-kolejka p x clean =
    rw (opusc_jedna_kolejke_lem p x clean) (record { numer = refl; used = λ u. u })

IsIdle-kolejka :
    (p : ℕ) (x : Mutex) → (x.kolejka.straznik ≢ p) × IsIdle x → IsIdle (opusc_jedna_kolejke p x)
IsIdle-kolejka p x (clean, idle) = rw (opusc_jedna_kolejke_lem p x clean) λ u. rw (idle u)

module _ (p : ℕ) (ms : List Mutex) (v : IsTable ms) (clean : IsClean p ms) where
  Keeps-kolejki : All (λ x. Keeps x (opusc_jedna_kolejke p x)) ms
  Keeps-kolejki =
      All-mono (λ x. x.kolejka.straznik ≢ p) (λ x. Keeps x (opusc_jedna_kolejke p x)) ms
        (Keeps-kolejka p) clean

  -- The first entry of the process is gone from every queue, and no other entry is.
  pub opusc_kolejki-locks : locks_of (opusc_kolejki p ms) ≡ leave_locks p (locks_of ms)
  unfolding opusc_kolejki
  opusc_kolejki-locks = fun_ext λ n.
      rw (szukaj-map (opusc_jedna_kolejke p) ms n v.distinct Keeps-kolejki) (elim (szukanie n ms) [
        | brak _ absent ↦ rw absent
        | jest {x} slot ↦
            rw
              (
                Table.szukaj-Slot slot,
                opusc_jedna_kolejke_lem p x
                    (Table.Slot-All (λ y. y.kolejka.straznik ≢ p) slot clean),
              )
              (simp (Table.used-Slot slot).0)
      ])

  pub opusc_kolejki-IsTable : IsTable (opusc_kolejki p ms)
  unfolding opusc_kolejki
  opusc_kolejki-IsTable = record {
    distinct = Distinct-map (opusc_jedna_kolejke p) ms v.distinct Keeps-kolejki;
    idle =
        All-map _ IsIdle (opusc_jedna_kolejke p) ms (IsIdle-kolejka p)
          (All-zip (λ x. x.kolejka.straznik ≢ p) IsIdle ms clean v.idle);
  }

-- What the invariant says of one slot.
abbrev IsGood : ℕ → ConditionVariable → Type 0
IsGood limit c = IsSized limit c × (c.uzywany ≡ true → 0 < c.size)

module _ {limit : ℕ} (p : ℕ) (c : ConditionVariable) (g : IsGood limit c) where
  unused : c.uzywany ≡ false → leave_event p c ≡ c
  unfolding leave_event
  unused u = simp u

  Keeps-cv : Keeps c (leave_event p c)
  Keeps-cv = elim (Bool-cases c.uzywany) [
    | inl u ↦ record { numer = (leave_event-Left c g.0 u p (g.1 u)).numer; used = λ _. u }
    | inr u ↦ rw (unused u) (record { numer = refl; used = λ h. h })
  ]

  IsGood-cv : IsGood limit (leave_event p c)
  IsGood-cv = elim (Bool-cases c.uzywany) [
    | inl u ↦ let l = leave_event-Left c g.0 u p (g.1 u) in (l.sized, l.busy)
    | inr u ↦ rw (unused u) g
  ]

module _ {limit : ℕ} (p : ℕ) (cs : List ConditionVariable) (w : IsCvTable limit cs) where
  good : All (IsGood limit) cs
  good = All-zip (IsSized limit) (λ c. c.uzywany ≡ true → 0 < c.size) cs w.sized w.busy

  Keeps-wszystkie_cv : All (λ c. Keeps c (leave_event p c)) cs
  Keeps-wszystkie_cv = All-mono (IsGood limit) (λ c. Keeps c (leave_event p c)) cs (Keeps-cv p) good

  -- The first entry of the process is gone from every event, and no other entry is.
  pub leave_all_events-events : events_of (leave_all_events p cs) ≡ leave_events p (events_of cs)
  unfolding leave_all_events
  leave_all_events-events = fun_ext λ n.
      rw (szukaj-map (leave_event p) cs n w.distinct Keeps-wszystkie_cv) (elim (szukanie n cs) [
        | brak _ absent ↦ rw absent
        | jest {x} slot ↦
            let u = (Table.used-Slot slot).0 in
            rw (Table.szukaj-Slot slot)
              (leave_event-Left x (Table.Slot-All (IsSized limit) slot w.sized) u p
                (Table.Slot-All (λ c. c.uzywany ≡ true → 0 < c.size) slot w.busy u)).waiters
      ])

  pub leave_all_events-IsCvTable : IsCvTable limit (leave_all_events p cs)
  unfolding leave_all_events
  leave_all_events-IsCvTable =
      let g = All-map (IsGood limit) (IsGood limit) (leave_event p) cs (IsGood-cv p) good in
      record {
        distinct = Distinct-map (leave_event p) cs w.distinct Keeps-wszystkie_cv;
        sized = All-mono (IsGood limit) (IsSized limit) _ (λ c h. h.0) g;
        busy = All-mono (IsGood limit) (λ c. c.uzywany ≡ true → 0 < c.size) _ (λ c h. h.1) g;
      }
