-- ===== src/Server/Run/Ended.antt =====
-- What the server of projekt/servers/cv/main.c leaves of a process that PM reports as ended.
use minix_server_of_mutex_an.Base.{
  ℕ, ◌≤◌, ◌≡◌, ◌≢◌, refl, ap, sym, ◌∙◌, subst, false, Option, none, some, List, [], ◌∷◌, ◌++◌, All,
  append_assoc, ◌==◌, ==_refl, arith,
}
use minix_server_of_mutex_an.State.{Server, Env, przydzielone}
use minix_server_of_mutex_an.Spec.{Held, exit_locks, next_owner, IsMinix}
use minix_server_of_mutex_an.Mutexes.View.{locks_of}
use minix_server_of_mutex_an.Server.{Message, Typ, typ_of, Event, received, failed, main}
use minix_server_of_mutex_an.Server.Run.Counts.{times}
use minix_server_of_mutex_an.Server.Run.Steps.{View, view, step}
use minix_server_of_mutex_an.Server.Run.Places.{
  Place, nowhere, at_mutex, at_event, is_mutex, is_event, number, waiting_of, processes, IsPlaced,
  move, moved,
}
use minix_server_of_mutex_an.Server.Run.Sound.{Placed, Placed-lock_held}
use minix_server_of_mutex_an.Server.Run.Wakes.{
  OnePlace, Placed-unlock_held, Placed-wait_held, OnePlace-broadcast,
}
use minix_server_of_mutex_an.Server.Run.Ends.{IsPlaced-leave}
use minix_server_of_mutex_an.Server.Run.Stays.{IsAbsent, IsGone, step-IsGone}
use minix_server_of_mutex_an.Server.Run.Gone.{
  after_release, IsPlaced-exit, not_owner, exit_hands_on,
}
use minix_server_of_mutex_an.Server.Run.Room.{view_of, is_report}
use minix_server_of_mutex_an.Server.Run.Bounded.{steps, IsFair, messages_in, run-steps}

-- A process that is in no queue and waits for no event.
pub record IsIdle (p : ℕ) (v : View) : Type 0 where
  pub no_mutex : (n : ℕ) → times p (waiting_of (v.locks n)) ≡ 0
  pub no_event : (ev : ℕ) → times p (processes (v.events ev)) ≡ 0

-- A process that waits is blocked in its call: it sends no request before its answer.
abbrev pub IsPolite : List Event → View → Type 0
IsPolite [] v = Unit
IsPolite (failed ∷ evs) v = IsPolite evs v
IsPolite (received msg ∷ evs) v =
    let t = typ_of msg.m_type in
    (is_report t ≡ false → IsIdle msg.m_source v) × IsPolite evs (step msg t v)

at_nowhere :
    (p : ℕ) (v : View) (place : ℕ → Place) (x : Place)
    → place p ≡ x
    → IsPlaced place v
    → IsIdle p v
    → x ≡ nowhere
at_nowhere p v place nowhere e h idle = refl
at_nowhere p v place (at_mutex n) e h idle =
    let one : 0 ≡ number (n == n) =
      sym (idle.no_mutex n) ∙ (h.queues n p ∙ ap (λ y. number (is_mutex y n)) e) in
    absurd (ground (arith, one, ==_refl n))
at_nowhere p v place (at_event ev) e h idle =
    let one : 0 ≡ number (ev == ev) =
      sym (idle.no_event ev) ∙ (h.events ev p ∙ ap (λ y. number (is_event y ev)) e) in
    absurd (ground (arith, one, ==_refl ev))

Placed-OnePlace : (p : ℕ) (place : ℕ → Place) (v : View) → Placed p place v → OnePlace v
Placed-OnePlace p place v r = record { after = r.after; sound = r.sound }

step-OnePlace :
    (msg : Message) (t : Typ) (v : View)
    → (is_report t ≡ false → IsIdle msg.m_source v)
    → OnePlace v
    → OnePlace (step msg t v)
step-OnePlace msg Typ.lock v idle h =
    let here = at_nowhere msg.m_source v h.after _ refl h.sound (idle refl) in
    Placed-OnePlace msg.m_source h.after _
      (Placed-lock_held v.locks v.events h.after h.sound msg.m_source msg.m1_i1 _ here refl)
step-OnePlace msg Typ.unlock v idle h =
    Placed-OnePlace msg.m_source h.after _
      (Placed-unlock_held v.locks v.events h.after msg.m_source msg.m1_i1 _ h.sound refl)
step-OnePlace msg Typ.wait v idle h =
    let here = at_nowhere msg.m_source v h.after _ refl h.sound (idle refl) in
    Placed-OnePlace msg.m_source h.after _ (
      Placed-wait_held v.locks v.events h.after msg.m_source msg.m1_i2 msg.m1_i1 _ h.sound here
        refl)
step-OnePlace msg Typ.broadcast v idle h =
    OnePlace-broadcast msg.m1_i2 v.locks v.events h.after h.sound
step-OnePlace msg Typ.eintr v idle h = record {
  after = move msg.pm_proc nowhere h.after;
  sound = IsPlaced-leave msg.pm_proc v.locks v.events h.after h.sound;
}
step-OnePlace msg Typ.exit v idle h = record {
  after = _;
  sound = IsPlaced-exit msg.pm_proc v.locks v.events h.after h.sound;
}
step-OnePlace msg Typ.bad v idle h = h

pub steps-OnePlace :
    (evs : List Event) (v : View) → IsPolite evs v → OnePlace v → OnePlace (steps evs v)
steps-OnePlace [] v polite h = h
steps-OnePlace (failed ∷ evs) v polite h = steps-OnePlace evs v polite h
steps-OnePlace (received msg ∷ evs) v (idle, polite) h =
    steps-OnePlace evs _ polite (step-OnePlace msg (typ_of msg.m_type) v idle h)

exit-IsGone : (msg : Message) (v : View) → OnePlace v → IsGone msg.pm_proc (step msg Typ.exit v)
exit-IsGone msg v h =
    let p = msg.pm_proc in
    let sound = IsPlaced-exit p v.locks v.events h.after h.sound in
    let off = moved p p nowhere (after_release p v.locks h.after) (==_refl p) in
    let off_queue : (n : ℕ) → times p (waiting_of (exit_locks p v.locks n)) ≡ 0 =
      λ n. sound.queues n p ∙ ap (λ x. number (is_mutex x n)) off in
    record {
      mutexes = λ n.
          absent p (exit_locks p v.locks n)
            (λ w e. not_owner p v.locks v.events h.after h.sound n w (v.locks n) refl e)
            (off_queue n);
      events = λ ev. sound.events ev p ∙ ap (λ x. number (is_event x ev)) off;
    }
  where
    absent :
        (p : ℕ) (x : Option Held)
        → ((w : Held) → x ≡ some w → (w.owner == p) ≡ false)
        → times p (waiting_of x) ≡ 0
        → IsAbsent p x
    absent p none f e = tt
    absent p (some w) f e = (f w refl, e)

abbrev pub nobody : View
nobody = view (λ n. none) (λ ev. [])

pub at_start : OnePlace nobody
at_start = record {
  after = λ p. nowhere;
  sound = record { queues = λ n p. refl; events = λ ev p. refl; owners = λ n h e. refl };
}

steps-append : (evs more : List Event) (v : View) → steps (evs ++ more) v ≡ steps more (steps evs v)
steps-append [] more v = refl
steps-append (failed ∷ evs) more v = steps-append evs more v
steps-append (received msg ∷ evs) more v = steps-append evs more (step msg (typ_of msg.m_type) v)

-- The process sends nothing.
abbrev pub IsSilent : ℕ → Event → Type 0
IsSilent p failed = Unit
IsSilent p (received msg) = msg.m_source ≢ p

steps-IsGone :
    (p : ℕ) (evs : List Event) (v : View)
    → All (IsSilent p) evs
    → IsGone p v
    → IsGone p (steps evs v)
steps-IsGone p [] v silent h = h
steps-IsGone p (failed ∷ evs) v (one, silent) h = steps-IsGone p evs v silent h
steps-IsGone p (received msg ∷ evs) v (one, silent) h =
    steps-IsGone p evs _ silent (step-IsGone p msg (typ_of msg.m_type) v one h)

messages_in-prefix : (evs more : List Event) → messages_in evs ≤ messages_in (evs ++ more)
messages_in-prefix [] more = omega arith
messages_in-prefix (failed ∷ evs) more = messages_in-prefix evs more
messages_in-prefix (received msg ∷ evs) more = omega (arith, messages_in-prefix evs more)

All-prefix : (P : Event → Type 0) (evs more : List Event) → All P (evs ++ more) → All P evs
All-prefix P [] more all = tt
All-prefix P (ev ∷ evs) more (one, all) = (one, All-prefix P evs more all)

-- The end of the process `p`: the server before PM reports it, right after the report, and at the
-- end of the run.
pub record Ended (e : Env) (smiec : ℕ → ℕ) (evs reported later : List Event) (p : ℕ) : Type 0 where
  pub before : Server
  pub begins : main e (przydzielone smiec) evs ≡ some before
  pub informed : Server
  pub takes : main e (przydzielone smiec) (evs ++ reported) ≡ some informed
  pub hands_on :
      (n : ℕ) (h : Held)
      → locks_of before.m n ≡ some h
      → h.owner ≡ p
      → locks_of informed.m n ≡ next_owner h.waiting
  pub after : Server
  pub returns : main e (przydzielone smiec) (evs ++ (reported ++ later)) ≡ some after
  pub gone : IsGone p (view_of after)

-- When PM reports the end of a process, each mutex that the process had goes to the first that
-- waits for it, or to nobody if none waits. After that report, and after any messages that follow
-- it, the server still runs, the process has no mutex, is in no queue and waits for no event. The
-- conditions: every `malloc` succeeds, the codes that the server tells apart differ, there are 512
-- messages or fewer in all, the uninitialised fields in the `start` nodes differ from the processes
-- of the reports, no process sends a request before the report while it waits, and the process that
-- ended sends nothing after it.
pub run-Ended :
    (e : Env) (smiec : ℕ → ℕ) (evs later : List Event) (msg : Message)
    → IsMinix e
    → messages_in (evs ++ received msg ∷ later) ≤ 512
    → All (IsFair smiec) (evs ++ received msg ∷ later)
    → IsPolite evs nobody
    → typ_of msg.m_type ≡ Typ.exit
    → All (IsSilent msg.pm_proc) later
    → Ended e smiec evs (received msg ∷ []) later msg.pm_proc
run-Ended e smiec evs later msg minix few fair polite is_exit silent =
    let p = msg.pm_proc in
    let one = received msg ∷ [] in
    let all = evs ++ received msg ∷ later in
    let parts : all ≡ (evs ++ one) ++ later = sym (append_assoc evs one later) in
    let r = run-steps e smiec all minix few fair in
    let few_one : messages_in (evs ++ one) ≤ 512 =
      omega (
        arith,
        subst (λ x. messages_in x ≤ 512) parts few,
        messages_in-prefix (evs ++ one) later,
      ) in
    let few_evs : messages_in evs ≤ 512 = omega (arith, few_one, messages_in-prefix evs one) in
    let fair_one : All (IsFair smiec) (evs ++ one) =
      All-prefix (IsFair smiec) (evs ++ one) later (subst (All (IsFair smiec)) parts fair) in
    let i = run-steps e smiec (evs ++ one) minix few_one fair_one in
    let b = run-steps e smiec evs minix few_evs (All-prefix (IsFair smiec) evs one fair_one) in
    let v = steps evs nobody in
    let before = steps-OnePlace evs nobody polite at_start in
    let informed : view_of i.after ≡ step msg Typ.exit v =
      i.view ∙ (steps-append evs one nobody ∙ ap (λ t. step msg t v) is_exit) in
    let ended : IsGone p (step msg (typ_of msg.m_type) v) = rw is_exit (exit-IsGone msg v before) in
    let still : IsGone p (steps all nobody) =
      subst (IsGone p) (sym (steps-append evs (received msg ∷ later) nobody))
        (steps-IsGone p later _ silent ended) in
    record {
      before = b.after;
      begins = b.returns;
      informed = i.after;
      takes = i.returns;
      hands_on = λ n h has own.
          ap (λ x. x.locks n) informed
          ∙ exit_hands_on p v.locks v.events before.after before.sound n h
              (sym (ap (λ x. x.locks n) b.view) ∙ has) own;
      after = r.after;
      returns = r.returns;
      gone = subst (IsGone p) (sym r.view) still;
    }

-- Where everybody waits after a run.
pub record Ordered (r : Option Server) : Type 0 where
  pub after : Server
  pub returns : r ≡ some after
  pub one_place : OnePlace (view_of after)

-- After any run of 512 messages or fewer there is one place at most where a process waits: it is
-- once in one queue, or once among those that wait for one event, or nowhere. The owner of a mutex
-- does not wait for that mutex. The conditions: every `malloc` succeeds, the codes that the server
-- tells apart differ, the uninitialised fields in the `start` nodes differ from the processes of
-- the reports, and no process sends a request while it waits.
pub run-Ordered :
    (e : Env) (smiec : ℕ → ℕ) (evs : List Event)
    → IsMinix e
    → messages_in evs ≤ 512
    → All (IsFair smiec) evs
    → IsPolite evs nobody
    → Ordered (main e (przydzielone smiec) evs)
run-Ordered e smiec evs minix few fair polite =
    let r = run-steps e smiec evs minix few fair in
    record {
      after = r.after;
      returns = r.returns;
      one_place = subst OnePlace (sym r.view) (steps-OnePlace evs nobody polite at_start);
    }
