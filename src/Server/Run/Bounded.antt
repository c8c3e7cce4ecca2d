-- ===== src/Server/Run/Bounded.antt =====
-- A run of the server of projekt/servers/cv/main.c from its start: no table is left, as long as
-- there are not more messages than entries in the smallest table.
use minix_server_of_mutex_an.Base.{
  ℕ, suc, ◌+◌, ◌<◌, ◌≤◌, ◌≡◌, ◌≢◌, refl, ap, ap₂, fun_ext, sym, ◌∙◌, subst, true, Option, none,
  some, List, [], ◌∷◌, ◌++◌, ◌>>=◌, length, All, arith,
}
use minix_server_of_mutex_an.State.{
  Server, Env, init, przydzielone, max_mutex, max_cv, max_procesy, receive_failed,
}
use minix_server_of_mutex_an.Spec.{IsMinix, Held}
use minix_server_of_mutex_an.Mutexes.{mutex_slotted}
use minix_server_of_mutex_an.Cvs.{cv_slotted}
use minix_server_of_mutex_an.Server.{Message, typ_of, Event, received, failed, krok, run, main}
use minix_server_of_mutex_an.Server.Dispatch.{obsluga_wiadomosci-outcome}
use minix_server_of_mutex_an.Server.Start.{IsStart, init-IsStart}
use minix_server_of_mutex_an.Server.Run.{IsShaped-same}
use minix_server_of_mutex_an.Server.Run.Reports.{Shaped-obsluga}
use minix_server_of_mutex_an.Server.Run.Steps.{View, step, Few, Few-step}
use minix_server_of_mutex_an.Server.Run.Room.{view_of, IsRunning, is_report, room, outcome-step}

-- What a run does to what everybody holds and waits for; a failure of the receive does nothing.
abbrev pub steps : List Event → View → View
steps [] v = v
steps (failed ∷ evs) v = steps evs v
steps (received msg ∷ evs) v = steps evs (step msg (typ_of msg.m_type) v)

-- The reports of PM are about processes whose number is not in the `start` nodes.
abbrev pub IsFair : (ℕ → ℕ) → Event → Type 0
IsFair smiec failed = Unit
IsFair smiec (received msg) = is_report (typ_of msg.m_type) ≡ true → (i : ℕ) → smiec i ≢ msg.pm_proc

-- What a step or a run leaves behind.
pub record Runs (messages : ℕ) (smiec : ℕ → ℕ) (v : View) (r : Option Server) : Type 0 where
  pub after : Server
  pub returns : r ≡ some after
  pub view : view_of after ≡ v
  pub running : IsRunning messages smiec after

krok_message :
    (e : Env) (minix : IsMinix e) (k : ℕ) (smiec : ℕ → ℕ) (msg : Message) (s : Server)
    → k < max_procesy
    → IsFair smiec (received msg)
    → IsRunning k smiec s
    → Runs (suc k) smiec (step msg (typ_of msg.m_type) (view_of s)) (krok e (received msg) s)
unfolding krok
krok_message e minix k smiec msg s less fair r =
    let t = typ_of msg.m_type in
    let served =
      obsluga_wiadomosci-outcome max_procesy e minix msg s r.table r.cv_table
        (room k smiec msg t s less fair r) in
    let (locks, events) = outcome-step e msg t s in
    let same : view_of served.after ≡ step msg t (view_of s) =
      ap₂ (λ l w. record { locks = l; events = w }) (served.locks ∙ locks)
        (served.events ∙ events) in
    record {
      after = served.after;
      returns = served.returns;
      view = same;
      running = record {
        table = served.table;
        cv_table = served.cv_table;
        few = subst (Few (suc k)) (sym same) (Few-step k msg t (view_of s) r.few);
        shaped =
            (Shaped-obsluga max_mutex max_cv smiec e msg s r.shaped).keeps served.after
              served.returns;
      };
    }

krok_failed :
    (e : Env) (k : ℕ) (smiec : ℕ → ℕ) (s : Server)
    → IsRunning k smiec s
    → Runs k smiec (view_of s) (krok e failed s)
unfolding krok
krok_failed e k smiec s r = record {
  after = record s { printed = s.printed ++ receive_failed ∷ [] };
  returns = refl;
  view = refl;
  running = record {
    table = r.table;
    cv_table = r.cv_table;
    few = r.few;
    shaped = IsShaped-same max_mutex max_cv smiec s _ refl refl r.shaped;
  };
}

-- The number of messages among the events.
abbrev pub messages_in : List Event → ℕ
messages_in [] = 0
messages_in (failed ∷ evs) = messages_in evs
messages_in (received msg ∷ evs) = suc (messages_in evs)

go_on :
    (e : Env) (minix : IsMinix e) (k : ℕ) (smiec : ℕ → ℕ) (evs : List Event) (s : Server)
    → k + messages_in evs ≤ max_procesy
    → All (IsFair smiec) evs
    → IsRunning k smiec s
    → Runs (k + messages_in evs) smiec (steps evs (view_of s)) (run e evs s)
unfolding run
go_on e minix k smiec [] s less fair r =
    let stay : k + 0 ≡ k = omega arith in
    record {
      after = s;
      returns = refl;
      view = refl;
      running = subst (λ n. IsRunning n smiec s) (sym stay) r;
    }
go_on e minix k smiec (failed ∷ evs) s less (f, fair) r =
    let one = krok_failed e k smiec s r in
    let rest = go_on e minix k smiec evs one.after less fair one.running in
    record {
      after = rest.after;
      returns = ap (λ x. x >>= run e evs) one.returns ∙ rest.returns;
      view = rest.view ∙ ap (steps evs) one.view;
      running = rest.running;
    }
go_on e minix k smiec (received msg ∷ evs) s less (f, fair) r =
    let one = krok_message e minix k smiec msg s (omega (arith, less)) f r in
    let rest = go_on e minix (suc k) smiec evs one.after (omega (arith, less)) fair one.running in
    let more : suc k + messages_in evs ≡ k + suc (messages_in evs) = omega arith in
    record {
      after = rest.after;
      returns = ap (λ x. x >>= run e evs) one.returns ∙ rest.returns;
      view = rest.view ∙ ap (steps evs) one.view;
      running = subst (λ n. IsRunning n smiec rest.after) more rest.running;
    }

at_start :
    (smiec : ℕ → ℕ) (start : IsStart smiec (init (przydzielone smiec)))
    → IsRunning 0 smiec start.after
at_start smiec start = record {
  table = start.table;
  cv_table = start.cv_table;
  few = record {
    mutexes = [];
    waits = [];
    total = omega arith;
    holds = λ n h e. absurd (no_lock (sym (start.locks n) ∙ e));
    awaits = λ ev. subst (λ ws. length ws ≤ 0) (sym (start.events ev)) (omega arith);
  };
  shaped = record { m = start.slots; cv = start.cv_slots; straznik = start.nodes };
}
  where
    no_lock : {h : Held} → none ≡ some h → ⊥
    no_lock e = cc

-- From its start the server takes any sequence of 512 messages or fewer without a fault: no access
-- outside an array, and no walk through a pointer to nothing. After them, who holds which mutex and
-- who waits for what is as the specification of each message, one after the other, says, and both
-- tables are well formed. Failures of the receive may stand between the messages. The conditions:
-- every `malloc` succeeds, the codes that the server tells apart differ, and for each report of PM
-- the uninitialised fields in the `start` nodes differ from the process.
pub run-steps :
    (e : Env) (smiec : ℕ → ℕ) (evs : List Event)
    → IsMinix e
    → messages_in evs ≤ 512
    → All (IsFair smiec) evs
    → Runs
        (messages_in evs)
        smiec
        (steps evs (record { locks = λ n. none; events = λ n. [] }))
        (main e (przydzielone smiec) evs)
unfolding main
run-steps e smiec evs minix less fair =
    let start = init-IsStart smiec in
    let r =
      go_on e minix 0 smiec evs start.after (omega (arith, less)) fair (at_start smiec start) in
    let nobody : view_of start.after ≡ record { locks = λ n. none; events = λ n. [] } =
      ap₂ (λ l w. record { locks = l; events = w }) (fun_ext start.locks) (fun_ext start.events) in
    let count : 0 + messages_in evs ≡ messages_in evs = omega arith in
    record {
      after = r.after;
      returns = ap (λ x. x >>= run e evs) start.returns ∙ r.returns;
      view = r.view ∙ ap (steps evs) nobody;
      running = subst (λ n. IsRunning n smiec r.after) count r.running;
    }
