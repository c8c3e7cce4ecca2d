-- ===== src/Server/Run/Woken.antt =====
-- What the server of projekt/servers/cv/main.c answers a process that a signal interrupts.
use mathlib.Core.Option
use minix_server_of_mutex_an.Base.{
  ℕ, ◌+◌, ◌<◌, ◌≡◌, refl, ap, ap₂, sym, ◌∙◌, Bool, true, false, ◌||◌, Option, none, some, List, [],
  ◌∷◌, All, ◌==◌, if◌then◌else◌, Bool-cases, inl, inr, arith,
}
use minix_server_of_mutex_an.Queue.{contains}
use minix_server_of_mutex_an.State.{Mutex, ConditionVariable, Server}
use minix_server_of_mutex_an.Spec.{Waiter, waits_in}
use minix_server_of_mutex_an.Mutexes.{mutex_slotted}
use minix_server_of_mutex_an.Mutexes.View.{held_by, IsIdle, IsTable, locks_of}
use minix_server_of_mutex_an.Cvs.{cv_slotted}
use minix_server_of_mutex_an.Cvs.View.{czekajacy, waiters_in, events_of, IsCvTable}
use minix_server_of_mutex_an.Slots.Table.{szukaj}
use minix_server_of_mutex_an.Signals.Eintr.{kolejki_procesu, cv_procesu, waits_at}
use minix_server_of_mutex_an.Server.Run.Counts.{times}
use minix_server_of_mutex_an.Server.Run.Steps.{view}
use minix_server_of_mutex_an.Server.Run.Places.{
  Place, nowhere, at_mutex, at_event, is_mutex, is_event, number, waiting_of, processes, IsPlaced,
}
use minix_server_of_mutex_an.Server.Run.Once.{hits, is_some, total, occurs_in, Fits, total-once}

contains-times : (p : ℕ) (xs : List ℕ) (b : Bool) → times p xs ≡ number b → contains xs p ≡ b
contains-times p [] true e = absurd (omega (arith, e))
contains-times p [] false e = refl
contains-times p (x ∷ xs) b e = elim (Bool-cases (x == p)) [
  | inl f ↦ rw f (first b (ground (arith, e, f)))
  | inr f ↦
      let later : times p xs ≡ number b = omega (arith, rw f at e) in
      rw f (contains-times p xs b later)
]
  where
    first : (b : Bool) → 0 < number b → true ≡ b
    first true h = refl
    first false h = absurd (omega (arith, h))

waits_in-contains : (p : ℕ) (ws : List Waiter) → waits_in p ws ≡ contains (processes ws) p
waits_in-contains p [] = refl
waits_in-contains p (w ∷ ws) = ap (λ b. w.proces == p || b) (waits_in-contains p ws)

module _ (p : ℕ) where
  queued : Mutex → ℕ
  queued x = times p x.kolejka.elementy

  is_queued : Mutex → Bool
  is_queued x = contains x.kolejka.elementy p

  waits : ConditionVariable → ℕ
  waits c = times p (processes (czekajacy c))

  total-kolejki : (ms : List Mutex) → kolejki_procesu p ms ≡ total queued is_queued ms
  unfolding kolejki_procesu queued is_queued
  total-kolejki [] = refl
  total-kolejki (x ∷ xs) = ap (λ n. (if is_queued x then 1 else 0) + n) (total-kolejki xs)

  total-cv : (cs : List ConditionVariable) → cv_procesu p cs ≡ total waits (waits_at p) cs
  unfolding cv_procesu
  total-cv [] = refl
  total-cv (c ∷ cs) = ap (λ n. (if waits_at p c then 1 else 0) + n) (total-cv cs)

  queued-Fits : (x : Mutex) → IsIdle x → Fits queued is_queued x
  unfolding queued is_queued
  queued-Fits x idle = record {
    unused = λ u. ap (λ l. contains l p) (idle u);
    used = λ b u e. contains-times p x.kolejka.elementy b e;
  }

  waits-Fits : (c : ConditionVariable) → Fits waits (waits_at p) c
  unfolding waits
  waits-Fits c = record {
    unused = λ u. rw u;
    used = λ b u e.
        rw u (waits_in-contains p (czekajacy c) ∙ contains-times p (processes (czekajacy c)) b e);
  }

  All-queued : (ms : List Mutex) → All IsIdle ms → All (Fits queued is_queued) ms
  All-queued [] h = tt
  All-queued (x ∷ xs) (h, hs) = (queued-Fits x h, All-queued xs hs)

  All-waits : (cs : List ConditionVariable) → All (Fits waits (waits_at p)) cs
  All-waits [] = tt
  All-waits (c ∷ cs) = (waits-Fits c, All-waits cs)

abbrev mutex_of : Place → Option ℕ
mutex_of nowhere = none
mutex_of (at_mutex n) = some n
mutex_of (at_event ev) = none

abbrev event_of : Place → Option ℕ
event_of nowhere = none
event_of (at_mutex n) = none
event_of (at_event ev) = some ev

hits-mutex_of : (x : Place) (n : ℕ) → hits (mutex_of x) n ≡ is_mutex x n
hits-mutex_of nowhere n = refl
hits-mutex_of (at_mutex m) n = refl
hits-mutex_of (at_event ev) n = refl

hits-event_of : (x : Place) (n : ℕ) → hits (event_of x) n ≡ is_event x n
hits-event_of nowhere n = refl
hits-event_of (at_mutex m) n = refl
hits-event_of (at_event ev) n = refl

-- Whether a process waits.
abbrev pub is_waiting : Place → Bool
is_waiting nowhere = false
is_waiting (at_mutex n) = true
is_waiting (at_event ev) = true

number-is_waiting :
    (x : Place)
    → number (is_some (mutex_of x)) + number (is_some (event_of x)) ≡ number (is_waiting x)
number-is_waiting nowhere = refl
number-is_waiting (at_mutex n) = refl
number-is_waiting (at_event ev) = refl

occurs-locks :
    (p : ℕ) (x : Option Mutex)
    → occurs_in (queued p) (is_queued p) x ≡ times p (waiting_of (Option.map held_by x))
unfolding queued
occurs-locks p none = refl
occurs-locks p (some x) = refl

occurs-events :
    (p : ℕ) (x : Option ConditionVariable)
    → occurs_in (waits p) (waits_at p) x ≡ times p (processes (waiters_in x))
unfolding waits
occurs-events p none = refl
occurs-events p (some c) = refl

-- The server finds a process once, if it waits, and not at all otherwise.
pub answers-once :
    (limit p : ℕ) (s : Server) (place : ℕ → Place)
    → IsTable s.m
    → IsCvTable limit s.cv
    → IsPlaced place (view (locks_of s.m) (events_of s.cv))
    → kolejki_procesu p s.m + cv_procesu p s.cv ≡ number (is_waiting (place p))
answers-once limit p s place v w h =
    let in_queues : kolejki_procesu p s.m ≡ number (is_some (mutex_of (place p))) =
      total-kolejki p s.m
      ∙ total-once (queued p) (is_queued p) (mutex_of (place p)) s.m v.distinct
          (All-queued p s.m v.idle)
          λ n.
            occurs-locks p (szukaj s.m n)
            ∙ (h.queues n p ∙ ap number (sym (hits-mutex_of (place p) n))) in
    let in_events : cv_procesu p s.cv ≡ number (is_some (event_of (place p))) =
      total-cv p s.cv
      ∙ total-once (waits p) (waits_at p) (event_of (place p)) s.cv w.distinct (All-waits p s.cv)
          λ n.
            occurs-events p (szukaj s.cv n)
            ∙ (h.events n p ∙ ap number (sym (hits-event_of (place p) n))) in
    ap₂ (λ a b. a + b) in_queues in_events ∙ number-is_waiting (place p)
