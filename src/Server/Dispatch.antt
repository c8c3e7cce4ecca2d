-- ===== src/Server/Dispatch.antt =====
-- `obslugaWiadomosci` of projekt/servers/cv/main.c answers each kind of message as the
-- specification says.
use mathlib.Core.Option
use minix_server_of_mutex_an.Base.{
  ℕ, ◌+◌, ◌<◌, ◌≤◌, ◌≡◌, refl, ap, sym, ◌∙◌, inl, inr, Option, none, some, List, [], ◌∷◌, ◌++◌, ℤ,
  if◌then◌else◌, length, replicate, append_assoc, append-nil, Bool-cases,
}
use minix_server_of_mutex_an.State.{Server, Env, Reply, reply, wyslij_wiadomosc}
use minix_server_of_mutex_an.Spec.{
  Locks, Events, Answer, code, code-no_reply, is_no_reply, IsMinix, lock, unlock, wait, broadcast,
  Waited, Unlocked, leave_locks, leave_events, exit_locks,
}
use minix_server_of_mutex_an.Slots.Table.{uzywane}
use minix_server_of_mutex_an.Mutexes.{mutex_slotted}
use minix_server_of_mutex_an.Mutexes.View.{IsTable, locks_of}
use minix_server_of_mutex_an.Mutexes.Lock.{Locked, cs_lock-lock}
use minix_server_of_mutex_an.Mutexes.Unlock.{Released, cs_unlock-unlock}
use minix_server_of_mutex_an.Cvs.{cv_slotted}
use minix_server_of_mutex_an.Cvs.View.{IsCvTable, events_of}
use minix_server_of_mutex_an.Cvs.Wait.{Changed, cs_wait-wait}
use minix_server_of_mutex_an.Cvs.Broadcast.{cs_broadcast-broadcast}
use minix_server_of_mutex_an.Signals.Leave.{IsClean}
use minix_server_of_mutex_an.Signals.Eintr.{kolejki_procesu, cv_procesu, wyslij_eintr-leave}
use minix_server_of_mutex_an.Signals.Handover.{powiadomienia}
use minix_server_of_mutex_an.Signals.Exit.{usun_zakonczony_proces-exit}
use minix_server_of_mutex_an.Server.{Message, Typ, typ_of, odpowiedz, obsluz, obsluga_wiadomosci}

-- The answer to the sender of a request, if there is one.
abbrev answer_to : Env → ℕ → Answer → List Reply
answer_to e p a = if is_no_reply a then [] else reply p (code e a) ∷ []

-- What a message does to the mutexes and the events, and whom the server writes to.
pub record Outcome : Type 0 where
  pub locks : Locks
  pub events : Events
  pub replies : List Reply

abbrev answered : Env → ℕ → Waited → Outcome
answered e p w = record {
  locks = w.locks;
  events = w.events;
  replies = w.replies ++ answer_to e p w.answer;
}

abbrev pub outcome : Env → Message → ℕ → Server → Typ → Outcome
outcome e msg p s Typ.lock =
    let r = lock p msg.m1_i1 (locks_of s.m) in
    record { locks = r.1; events = events_of s.cv; replies = answer_to e p r.0 }
outcome e msg p s Typ.unlock =
    let r = unlock p msg.m1_i1 (locks_of s.m) in
    record {
      locks = r.locks;
      events = events_of s.cv;
      replies = r.replies ++ answer_to e p r.answer;
    }
outcome e msg p s Typ.wait =
    answered e p (wait p msg.m1_i2 msg.m1_i1 (locks_of s.m) (events_of s.cv))
outcome e msg p s Typ.broadcast = answered e p (broadcast msg.m1_i2 (locks_of s.m) (events_of s.cv))
outcome e msg p s Typ.eintr = record {
  locks = leave_locks msg.pm_proc (locks_of s.m);
  events = leave_events msg.pm_proc (events_of s.cv);
  replies =
      replicate (kolejki_procesu msg.pm_proc s.m + cv_procesu msg.pm_proc s.cv)
        (reply msg.pm_proc e.eintr);
}
outcome e msg p s Typ.exit = record {
  locks = exit_locks msg.pm_proc (locks_of s.m);
  events = leave_events msg.pm_proc (events_of s.cv);
  replies = powiadomienia msg.pm_proc s.m;
}
outcome e msg p s Typ.bad = record {
  locks = locks_of s.m;
  events = events_of s.cv;
  replies = reply p e.einval ∷ [];
}

-- The room that a message needs in the tables, and the condition on the `start` nodes.
abbrev pub Room : ℕ → Message → Server → Typ → Type 0
Room limit msg s Typ.lock = locks_of s.m msg.m1_i1 ≡ none → uzywane s.m < length s.m
Room limit msg s Typ.unlock = Unit
Room limit msg s Typ.wait =
    (events_of s.cv msg.m1_i2 ≡ [] → uzywane s.cv < length s.cv)
    × (length (events_of s.cv msg.m1_i2) < limit)
Room limit msg s Typ.broadcast = uzywane s.m + length (events_of s.cv msg.m1_i2) ≤ length s.m
Room limit msg s Typ.eintr = IsClean msg.pm_proc s.m
Room limit msg s Typ.exit = IsClean msg.pm_proc s.m
Room limit msg s Typ.bad = Unit

pub record Served (limit : ℕ) (sent : List Reply) (spec : Outcome) (p : ℕ) (r : Option Server)
    : Type 0 where
  pub after : Server
  pub returns : r ≡ some after
  pub locks : locks_of after.m ≡ spec.locks
  pub events : events_of after.cv ≡ spec.events
  pub table : IsTable after.m
  pub cv_table : IsCvTable limit after.cv
  pub sends : after.sent ≡ sent ++ spec.replies
  pub caller : after.aktualny_proces ≡ p

module _ (limit : ℕ) (e : Env) (minix : IsMinix e) where
  odpowiedz_lem :
      (s : Server) (w : Waited) {r : Option (ℤ × Server)}
      → Changed limit e s w r
      → Served limit s.sent
          (answered e s.aktualny_proces w)
          s.aktualny_proces
          (Option.map (odpowiedz e) r)
  unfolding wyslij_wiadomosc
  odpowiedz_lem s w {r} c = elim (Bool-cases (is_no_reply w.answer)) [
    | inl silent ↦
        rw (c.returns, code-no_reply minix w.answer, silent)
          (record {
            after = c.after;
            returns = refl;
            locks = c.locks;
            events = c.events;
            table = c.table;
            cv_table = c.cv_table;
            sends = rw append-nil c.sends;
            caller = c.caller;
          })
    | inr speaks ↦
        rw (c.returns, code-no_reply minix w.answer, speaks)
          (record {
            after = wyslij_wiadomosc e (code e w.answer) c.after.aktualny_proces c.after;
            returns = refl;
            locks = c.locks;
            events = c.events;
            table = c.table;
            cv_table = c.cv_table;
            sends = rw (c.sends, c.caller, append_assoc);
            caller = c.caller;
          })
  ]

  module _ (s : Server) (w : IsCvTable limit s.cv) where
    Locked-Changed :
        (spec : Answer × Locks) {r : Option (ℤ × Server)}
        → Locked e s spec r
        → Changed limit e s
            (record { answer = spec.0; locks = spec.1; events = events_of s.cv; replies = [] })
            r
    Locked-Changed spec l =
        let cv : l.after.cv ≡ s.cv = ap (λ t. t.cv) l.kept in
        record {
          after = l.after;
          returns = l.returns;
          locks = l.locks;
          events = ap events_of cv;
          table = l.valid;
          cv_table = rw cv w;
          sends = ap (λ t. t.sent) l.kept ∙ sym (append-nil s.sent);
          caller = ap (λ t. t.aktualny_proces) l.kept;
        }

    Released-Changed :
        (spec : Unlocked) {r : Option (ℤ × Server)}
        → Released e s spec r
        → Changed limit e s
            (record {
              answer = spec.answer;
              locks = spec.locks;
              events = events_of s.cv;
              replies = spec.replies;
            })
            r
    Released-Changed spec l =
        let cv : l.after.cv ≡ s.cv = ap (λ t. t.cv) l.kept in
        record {
          after = l.after;
          returns = l.returns;
          locks = l.locks;
          events = ap events_of cv;
          table = l.valid;
          cv_table = rw cv w;
          sends = l.sends;
          caller = ap (λ t. t.aktualny_proces) l.kept;
        }

  module _ (msg : Message) (s : Server) (v : IsTable s.m) (w : IsCvTable limit s.cv) where
    obsluz_lem :
        (t : Typ)
        → Room limit msg s t
        → Served limit s.sent
            (outcome e msg s.aktualny_proces s t)
            s.aktualny_proces
            (obsluz e msg s t)
    unfolding wyslij_wiadomosc
    obsluz_lem Typ.lock room =
        odpowiedz_lem s _
          (Locked-Changed s w _ (cs_lock-lock e msg.m1_i1 s v (minix.memory s) room))
    obsluz_lem Typ.unlock room =
        odpowiedz_lem s _ (Released-Changed s w _ (cs_unlock-unlock e msg.m1_i1 s v))
    obsluz_lem Typ.wait room =
        odpowiedz_lem s _ (cs_wait-wait e msg.m1_i2 msg.m1_i1 s v w room.0 room.1)
    obsluz_lem Typ.broadcast room =
        odpowiedz_lem s _ (cs_broadcast-broadcast e minix limit msg.m1_i2 s v w room)
    obsluz_lem Typ.eintr clean =
        let r = wyslij_eintr-leave limit e msg.pm_proc s v w clean in
        record {
          after = r.after;
          returns = r.returns;
          locks = r.locks;
          events = r.events;
          table = r.table;
          cv_table = r.cv_table;
          sends = r.sends;
          caller = r.caller;
        }
    obsluz_lem Typ.exit clean =
        let r = usun_zakonczony_proces-exit limit e msg.pm_proc s v w clean in
        record {
          after = r.after;
          returns = r.returns;
          locks = r.locks;
          events = r.events;
          table = r.table;
          cv_table = r.cv_table;
          sends = r.sends;
          caller = r.caller;
        }
    obsluz_lem Typ.bad room = record {
      after = _;
      returns = refl;
      locks = refl;
      events = refl;
      table = v;
      cv_table = w;
      sends = refl;
      caller = refl;
    }

  -- A message of any type is handled to its end. A request changes the mutexes and the events as
  -- specified, and its sender is answered unless it has to wait; a report of PM passes the mutexes
  -- of the process on if it ended, and takes the first entry of the process out of each queue and
  -- each event (a process that is in each at most once waits nowhere then); a message of no known
  -- type is answered with EINVAL and changes no mutex and no event. The messages sent are the
  -- specified ones, in their order, and both tables stay well formed. The conditions: both are well
  -- formed before, every `malloc` succeeds, the codes that the server tells apart differ, the
  -- tables have the room that the request needs, and for a report the uninitialised fields in the
  -- `start` nodes differ from the process.
  pub obsluga_wiadomosci-outcome :
      (msg : Message) (s : Server)
      → IsTable s.m
      → IsCvTable limit s.cv
      → Room limit msg s (typ_of msg.m_type)
      → Served limit s.sent
          (outcome e msg msg.m_source s (typ_of msg.m_type))
          msg.m_source
          (obsluga_wiadomosci e msg s)
  unfolding obsluga_wiadomosci
  obsluga_wiadomosci-outcome msg s v w room =
      obsluz_lem msg (record s { aktualny_proces = msg.m_source }) v w (typ_of msg.m_type) room
