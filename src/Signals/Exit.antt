-- ===== src/Signals/Exit.antt =====
-- `usunZakonczonyProces` of projekt/servers/cv/main.c implements the specification.
use mathlib.Core.Option
use minix_server_of_mutex_an.Base.{
  ℕ, ◌≡◌, ◌≢◌, refl, ap, ◌∙◌, fun_ext, true, Option, none, some, List, [], ◌∷◌, ◌++◌, map, ◌==◌,
  if◌then◌else◌, Bool-cases, inl, inr, All, arith,
}
use minix_server_of_mutex_an.State.{Mutex, Server, Env}
use minix_server_of_mutex_an.Spec.{next_owner, release_held, leave_held, exit_locks, leave_events}
use minix_server_of_mutex_an.Slots.Table
use minix_server_of_mutex_an.Slots.Table.{szukaj, szukanie, brak, jest, Distinct}
use minix_server_of_mutex_an.Slots.Map.{Keeps, through, szukaj-map, Distinct-map, All-map}
use minix_server_of_mutex_an.Mutexes.{mutex_slotted}
use minix_server_of_mutex_an.Mutexes.View.{IsTable, IsIdle, locks_of, held_by}
use minix_server_of_mutex_an.Cvs.View.{events_of, IsCvTable}
use minix_server_of_mutex_an.Signals.{opusc_kolejki, opusc_cv, usun_zakonczony_proces}
use minix_server_of_mutex_an.Signals.Plain.{leave_all_events}
use minix_server_of_mutex_an.Signals.Reach.{opusc_cv-leave_all_events}
use minix_server_of_mutex_an.Signals.Handover.{
  nastepny, nalezy, oddany, powiadomienia, oddaj_mutexy_lem,
}
use minix_server_of_mutex_an.Signals.Leave.{
  IsClean, opusc_kolejki-locks, opusc_kolejki-IsTable, leave_all_events-events,
  leave_all_events-IsCvTable,
}

Keeps-nastepny : (ps : List ℕ) (x : Mutex) → Keeps x (nastepny ps x)
Keeps-nastepny [] x = record { numer = refl; used = λ u. cc }
Keeps-nastepny (q ∷ qs) x = record { numer = refl; used = λ u. u }

Keeps-oddany : (p : ℕ) (x : Mutex) → Keeps x (oddany p x)
Keeps-oddany p x = elim (Bool-cases (nalezy p x)) [
  | inl own ↦ simp own (Keeps-nastepny x.kolejka.elementy x)
  | inr other ↦ simp other (record { numer = refl; used = λ u. u })
]

All-Keeps : (p : ℕ) (ms : List Mutex) → All (λ x. Keeps x (oddany p x)) ms
All-Keeps p [] = tt
All-Keeps p (x ∷ ms) = (Keeps-oddany p x, All-Keeps p ms)

IsIdle-nastepny :
    (ps : List ℕ) (x : Mutex) → x.kolejka.elementy ≡ ps → x.uzywany ≡ true → IsIdle (nastepny ps x)
IsIdle-nastepny [] x e h u = e
IsIdle-nastepny (q ∷ qs) x e h u = cc

IsIdle-oddany : (p : ℕ) (x : Mutex) → IsIdle x → IsIdle (oddany p x)
IsIdle-oddany p x idle = elim (Bool-cases (nalezy p x)) [
  | inl own ↦ simp own (IsIdle-nastepny x.kolejka.elementy x refl (ground arith))
  | inr other ↦ simp other idle
]

clean_nastepny :
    (p : ℕ) (ps : List ℕ) (x : Mutex)
    → x.kolejka.straznik ≢ p
    → (nastepny ps x).kolejka.straznik ≢ p
clean_nastepny p [] x h = h
clean_nastepny p (q ∷ qs) x h = h

clean_oddany : (p : ℕ) (x : Mutex) → x.kolejka.straznik ≢ p → (oddany p x).kolejka.straznik ≢ p
clean_oddany p x h = elim (Bool-cases (nalezy p x)) [
  | inl own ↦ simp own (clean_nastepny p x.kolejka.elementy x h)
  | inr other ↦ simp other h
]

gdy_nastepny :
    (ps : List ℕ) (x : Mutex)
    → x.uzywany ≡ true
    → Option.map held_by (if (nastepny ps x).uzywany then some (nastepny ps x) else none)
      ≡ next_owner ps
gdy_nastepny [] x u = refl
gdy_nastepny (q ∷ qs) x u = simp u

-- What is found where a slot was found, after it was given back.
through-oddany :
    (p : ℕ) (x : Mutex)
    → x.uzywany ≡ true
    → Option.map held_by (through (oddany p) (some x)) ≡ release_held p (some (held_by x))
through-oddany p x u = elim (Bool-cases (x.wlasciciel == p)) [
  | inl own ↦ simp (own, u) (gdy_nastepny x.kolejka.elementy x u)
  | inr other ↦ simp (other, u)
]

module _ (p : ℕ) (ms : List Mutex) (v : IsTable ms) where
  oddany-locks : (n : ℕ) → locks_of (map (oddany p) ms) n ≡ release_held p (locks_of ms n)
  oddany-locks n =
      rw (szukaj-map (oddany p) ms n v.distinct (All-Keeps p ms)) (elim (szukanie n ms) [
        | brak _ absent ↦ rw absent
        | jest {x} slot ↦ rw (Table.szukaj-Slot slot) (through-oddany p x (Table.used-Slot slot).0)
      ])

  oddany-IsTable : IsTable (map (oddany p) ms)
  oddany-IsTable = record {
    distinct = Distinct-map (oddany p) ms v.distinct (All-Keeps p ms);
    idle = All-map IsIdle IsIdle (oddany p) ms (IsIdle-oddany p) v.idle;
  }

-- What `usunZakonczonyProces` makes of the server.
pub record Ended (limit p : ℕ) (s : Server) (r : Option Server) : Type 0 where
  pub after : Server
  pub returns : r ≡ some after
  pub locks : locks_of after.m ≡ exit_locks p (locks_of s.m)
  pub events : events_of after.cv ≡ leave_events p (events_of s.cv)
  pub table : IsTable after.m
  pub cv_table : IsCvTable limit after.cv
  pub sends : after.sent ≡ s.sent ++ powiadomienia p s.m
  pub caller : after.aktualny_proces ≡ s.aktualny_proces

-- When a process ends, each of its mutexes goes to the first that waits for it, which is sent 0,
-- or becomes free. Then the first entry of the process in each queue and in each event is taken
-- out (a process that is in each at most once waits nowhere then), and all other entries stay in
-- their order. The handler returns, and both tables stay well formed. The condition: the uninitialised
-- fields in the `start` nodes differ from the process.
pub usun_zakonczony_proces-exit :
    (limit : ℕ) (e : Env) (p : ℕ) (s : Server)
    → IsTable s.m
    → IsCvTable limit s.cv
    → IsClean p s.m
    → Ended limit p s (usun_zakonczony_proces e p s)
unfolding usun_zakonczony_proces
usun_zakonczony_proces-exit limit e p s v w clean =
    let h = oddaj_mutexy_lem e p [] s.m (record s { aktualny_proces = p }) refl v.distinct refl in
    let v' = oddany-IsTable p s.m v in
    let clean' : IsClean p (map (oddany p) s.m) =
      All-map (λ x. x.kolejka.straznik ≢ p) (λ x. x.kolejka.straznik ≢ p) (oddany p) s.m
        (clean_oddany p) clean in
    let plain : opusc_cv p h.after.cv ≡ some (leave_all_events p s.cv) =
      ap (opusc_cv p) h.events ∙ opusc_cv-leave_all_events limit p s.cv w.sized in
    rw (h.returns, plain)
      (record {
        after = record h.after {
          m = opusc_kolejki p h.after.m;
          cv = leave_all_events p s.cv;
          aktualny_proces = s.aktualny_proces;
        };
        returns = refl;
        locks = rw h.table (
            opusc_kolejki-locks p _ v' clean'
            ∙ fun_ext λ n. ap (leave_held p) (oddany-locks p s.m v n));
        events = leave_all_events-events p s.cv w;
        table = rw h.table (opusc_kolejki-IsTable p _ v' clean');
        cv_table = leave_all_events-IsCvTable p s.cv w;
        sends = h.sends;
        caller = refl;
      })
