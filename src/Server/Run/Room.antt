-- ===== src/Server/Run/Room.antt =====
-- The tables of projekt/servers/cv/main.c have room for a message, if there were few before it.
use mathlib.Core.Option
use minix_server_of_mutex_an.Base.{
  ℕ, ◌<◌, ◌≤◌, ◌≡◌, ◌≢◌, refl, ap, sym, ◌∙◌, Bool, true, false, none, some, List, length, arith,
}
use minix_server_of_mutex_an.State.{
  Mutex, ConditionVariable, Server, Env, max_mutex, max_cv, max_procesy,
}
use minix_server_of_mutex_an.Slots.Table
use minix_server_of_mutex_an.Slots.Table.{szukaj, szukanie, brak, jest, uzywane}
use minix_server_of_mutex_an.Slots.Map.{All-mono}
use minix_server_of_mutex_an.Mutexes.{mutex_slotted}
use minix_server_of_mutex_an.Mutexes.View.{IsTable, locks_of, held_by}
use minix_server_of_mutex_an.Cvs.{cv_slotted}
use minix_server_of_mutex_an.Cvs.View.{IsCvTable, IsSized, events_of, waiters_in, czekajacy-length}
use minix_server_of_mutex_an.Server.{Message, Typ}
use minix_server_of_mutex_an.Server.Dispatch.{outcome, Room}
use minix_server_of_mutex_an.Server.Run.{IsSmiec, IsShaped}
use minix_server_of_mutex_an.Server.Run.Counts.{times-le, uzywane-IsListed}
use minix_server_of_mutex_an.Server.Run.Steps.{View, step, Few, Holds, Awaits}

abbrev pub view_of : Server → View
view_of s = record { locks = locks_of s.m; events = events_of s.cv }

-- The mutexes in use are those that somebody has.
mutexes-few :
    (ms : List Mutex) (ns : List ℕ) → IsTable ms → Holds ns (locks_of ms) → uzywane ms ≤ length ns
mutexes-few ms ns v h =
    uzywane-IsListed ms ns v.distinct λ n x e. h n (held_by x) (ap (Option.map held_by) e)

-- The events in use are those that somebody waits for.
events-few :
    (limit : ℕ) (cs : List ConditionVariable) (evs : List ℕ)
    → IsCvTable limit cs
    → Awaits evs (events_of cs)
    → uzywane cs ≤ length evs
events-few limit cs evs v h = uzywane-IsListed cs evs v.distinct λ n c e.
    let long = h n in
    elim (szukanie n cs) [
      | brak _ absent ↦ absurd (missing (sym absent ∙ e))
      | jest {x} slot ↦
          let here = Table.szukaj-Slot slot in
          let size =
            Table.Slot-All (λ (d : ConditionVariable). d.uzywany ≡ true → 0 < d.size) slot v.busy
              (Table.used-Slot slot).0 in
          let sized = Table.Slot-All (IsSized limit) slot v.sized in
          let waiting : length (events_of cs n) ≡ x.size =
            ap (λ r. length (waiters_in r)) here ∙ czekajacy-length x sized in
          omega (arith, long, waiting, size)
    ]
  where
    missing : {c : ConditionVariable} → none ≡ some c → ⊥
    missing e = cc

-- The state of a server that took so many messages.
pub record IsRunning (messages : ℕ) (smiec : ℕ → ℕ) (s : Server) : Type 0 where
  pub table : IsTable s.m
  pub cv_table : IsCvTable max_procesy s.cv
  pub few : Few messages (view_of s)
  pub shaped : IsShaped max_mutex max_cv smiec s

abbrev pub is_report : Typ → Bool
is_report Typ.eintr = true
is_report Typ.exit = true
is_report Typ.lock = false
is_report Typ.unlock = false
is_report Typ.wait = false
is_report Typ.broadcast = false
is_report Typ.bad = false

-- The tables have room for a message.
pub room :
    (k : ℕ) (smiec : ℕ → ℕ) (msg : Message) (t : Typ) (s : Server)
    → k < max_procesy
    → (is_report t ≡ true → (i : ℕ) → smiec i ≢ msg.pm_proc)
    → IsRunning k smiec s
    → Room max_procesy msg s t
room k smiec msg Typ.lock s less clean r = λ absent.
    omega (arith, less, r.few.total, r.shaped.m, mutexes-few s.m r.few.mutexes r.table r.few.holds)
room k smiec msg Typ.unlock s less clean r = tt
room k smiec msg Typ.wait s less clean r = (
  (λ absent. omega (
    arith,
    less,
    r.few.total,
    r.shaped.cv,
    events-few max_procesy s.cv r.few.waits r.cv_table r.few.awaits,
  )),
  omega (arith, less, r.few.total, r.few.awaits msg.m1_i2, times-le msg.m1_i2 r.few.waits),
)
room k smiec msg Typ.broadcast s less clean r = omega (
  arith,
  less,
  r.few.total,
  r.shaped.m,
  mutexes-few s.m r.few.mutexes r.table r.few.holds,
  r.few.awaits msg.m1_i2,
  times-le msg.m1_i2 r.few.waits,
)
room k smiec msg Typ.eintr s less clean r =
    All-mono (λ (x : Mutex). IsSmiec smiec x.kolejka.straznik)
      (λ (x : Mutex). x.kolejka.straznik ≢ msg.pm_proc) s.m
      (λ x (i, e) same. clean refl i (e ∙ same)) r.shaped.straznik
room k smiec msg Typ.exit s less clean r =
    All-mono (λ (x : Mutex). IsSmiec smiec x.kolejka.straznik)
      (λ (x : Mutex). x.kolejka.straznik ≢ msg.pm_proc) s.m
      (λ x (i, e) same. clean refl i (e ∙ same)) r.shaped.straznik
room k smiec msg Typ.bad s less clean r = tt

-- The specification of a message, as one of what everybody holds and waits for.
pub outcome-step :
    (e : Env) (msg : Message) (t : Typ) (s : Server)
    → ((outcome e msg msg.m_source s t).locks ≡ (step msg t (view_of s)).locks)
      × ((outcome e msg msg.m_source s t).events ≡ (step msg t (view_of s)).events)
outcome-step e msg Typ.lock s = (refl, refl)
outcome-step e msg Typ.unlock s = (refl, refl)
outcome-step e msg Typ.wait s = (refl, refl)
outcome-step e msg Typ.broadcast s = (refl, refl)
outcome-step e msg Typ.eintr s = (refl, refl)
outcome-step e msg Typ.exit s = (refl, refl)
outcome-step e msg Typ.bad s = (refl, refl)
