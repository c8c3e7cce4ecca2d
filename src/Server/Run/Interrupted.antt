-- ===== src/Server/Run/Interrupted.antt =====
-- A process that a signal interrupts, in a run of the server of projekt/servers/cv/main.c.
use minix_server_of_mutex_an.Base.{
  ℕ, ◌<◌, ◌≡◌, ◌≢◌, refl, ap, sym, ◌∙◌, subst, Bool, true, false, Option, none, some, List, [], ◌∷◌,
  ◌++◌, All, replicate, ◌>>=◌, if◌then◌else◌, ==_refl, arith,
}
use minix_server_of_mutex_an.State.{Server, Env, init, przydzielone, Reply, reply, max_procesy}
use minix_server_of_mutex_an.Spec.{IsMinix}
use minix_server_of_mutex_an.Server.{Message, Typ, typ_of, Event, received, krok, run, main}
use minix_server_of_mutex_an.Server.Dispatch.{Served, Room, outcome, obsluga_wiadomosci-outcome}
use minix_server_of_mutex_an.Server.Run.Counts.{times}
use minix_server_of_mutex_an.Server.Run.Places.{
  Place, nowhere, is_mutex, is_event, number, waiting_of, processes, IsPlaced, moved,
}
use minix_server_of_mutex_an.Server.Run.Ends.{IsPlaced-leave}
use minix_server_of_mutex_an.Server.Run.Woken.{is_waiting, answers-once}
use minix_server_of_mutex_an.Server.Run.Room.{view_of, room}
use minix_server_of_mutex_an.Server.Run.Bounded.{IsFair, messages_in, run-steps}
use minix_server_of_mutex_an.Server.Run.Ended.{IsIdle, IsPolite, nobody, at_start, steps-OnePlace}

bind_after :
    (r : Option Server) (f g h : Server → Option Server)
    → ((t : Server) → h t ≡ (f t >>= g))
    → (r >>= h) ≡ ((r >>= f) >>= g)
bind_after none f g h same = refl
bind_after (some t) f g h same = same t

run-append :
    (e : Env) (evs more : List Event) (s : Server)
    → run e (evs ++ more) s ≡ (run e evs s >>= run e more)
unfolding run
run-append e [] more s = refl
run-append e (ev ∷ evs) more s =
    bind_after (krok e ev s) (run e evs) (run e more) (run e (evs ++ more))
      λ t. run-append e evs more t

main-append :
    (e : Env) (malloc : ℕ → Option ℕ) (evs more : List Event)
    → main e malloc (evs ++ more) ≡ (main e malloc evs >>= run e more)
unfolding main
main-append e malloc evs more =
    bind_after (init malloc) (run e evs) (run e more) (run e (evs ++ more))
      λ s. run-append e evs more s

run-one :
    (e : Env) (ev : Event) (s : Server) {t : Server}
    → krok e ev s ≡ some t
    → run e (ev ∷ []) s ≡ some t
unfolding run
run-one e ev s f = rw f

-- What the signal does: `before` is the server just before PM's report of it.
pub record Interrupted (e : Env) (smiec : ℕ → ℕ) (evs : List Event) (msg : Message) : Type 0 where
  pub before : Server
  pub after : Server
  pub place : ℕ → Place
  pub reached : main e (przydzielone smiec) evs ≡ some before
  pub sound : IsPlaced place (view_of before)
  pub returns : main e (przydzielone smiec) (evs ++ received msg ∷ []) ≡ some after
  pub sends :
      after.sent
      ≡ before.sent
        ++ (if is_waiting (place msg.pm_proc) then reply msg.pm_proc e.eintr ∷ [] else [])
  pub idle : IsIdle msg.pm_proc (view_of after)

replicate-number : (b : Bool) (r : Reply) → replicate (number b) r ≡ (if b then r ∷ [] else [])
replicate-number true r = refl
replicate-number false r = refl

-- When PM reports a signal to a process, the server answers that process EINTR exactly once if it
-- waits for a mutex or an event, and sends nothing otherwise; after that it waits for nothing.
-- `place` tells where each process waits. The conditions: every `malloc` succeeds, the codes that
-- the server tells apart differ, fewer than 512 messages came before, the uninitialised fields in
-- the `start` nodes differ from the processes of the reports, and no process sends a request while
-- it waits.
pub run-Interrupted :
    (e : Env) (smiec : ℕ → ℕ) (evs : List Event) (msg : Message)
    → IsMinix e
    → messages_in evs < 512
    → All (IsFair smiec) evs
    → IsPolite evs nobody
    → typ_of msg.m_type ≡ Typ.eintr
    → ((i : ℕ) → smiec i ≢ msg.pm_proc)
    → Interrupted e smiec evs msg
unfolding krok
run-Interrupted e smiec evs msg minix few fair polite is_eintr apart =
    let r = run-steps e smiec evs minix (omega (arith, few)) fair in
    let s = r.after in
    let p = msg.pm_proc in
    let one = steps-OnePlace evs nobody polite at_start in
    let sound : IsPlaced one.after (view_of s) =
      subst (IsPlaced one.after) (sym r.view) one.sound in
    let clean = room (messages_in evs) smiec msg Typ.eintr s few (λ x. apart) r.running in
    let served =
      subst
        (λ t.
          Served max_procesy s.sent (outcome e msg msg.m_source s t) msg.m_source
            (krok e (received msg) s))
        is_eintr
        (obsluga_wiadomosci-outcome max_procesy e minix msg s r.running.table r.running.cv_table
          (subst (Room max_procesy msg s) (sym is_eintr) clean)) in
    let gone = IsPlaced-leave p (view_of s).locks (view_of s).events one.after sound in
    let off = moved p p nowhere one.after (==_refl p) in
    let count = answers-once max_procesy p s one.after r.running.table r.running.cv_table sound in
    record {
      before = s;
      after = served.after;
      place = one.after;
      reached = r.returns;
      sound = sound;
      returns =
          main-append e (przydzielone smiec) evs (received msg ∷ [])
          ∙ (ap (λ x. x >>= run e (received msg ∷ [])) r.returns
              ∙ run-one e (received msg) s served.returns);
      sends =
          served.sends
          ∙ ap (λ l. s.sent ++ l)
              (ap (λ n. replicate n (reply p e.eintr)) count
                ∙ replicate-number (is_waiting (one.after p)) (reply p e.eintr));
      idle = record {
        no_mutex = λ n.
            ap (λ l. times p (waiting_of (l n))) served.locks
            ∙ (gone.queues n p ∙ ap (λ x. number (is_mutex x n)) off);
        no_event = λ ev.
            ap (λ l. times p (processes (l ev))) served.events
            ∙ (gone.events ev p ∙ ap (λ x. number (is_event x ev)) off);
      };
    }
