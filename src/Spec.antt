-- ===== src/Spec.antt =====
-- What the server promises, with no tables: who holds which mutex, who waits for it, and who waits
-- for which event. The refinement theorems of the components relate the code to these functions.
use minix_server_of_mutex_an.Base.{
  ℕ, ◌≡◌, ◌≢◌, Bool, true, false, ◌||◌, Option, none, some, List, [], ◌∷◌, ◌++◌, ℤ, pos, neg,
  equals, equals_refl, equals_ne, ◌==◌, if◌then◌else◌,
}
use minix_server_of_mutex_an.Queue.{erase}
use minix_server_of_mutex_an.State.{Server, Env, Reply, reply}

-- A mutex that is taken: its owner, and the processes that wait for it, oldest first.
pub record Held : Type 0 where
  pub owner : ℕ
  pub waiting : List ℕ

abbrev pub held : ℕ → List ℕ → Held
held owner waiting = record { owner = owner; waiting = waiting }

-- The mutexes by number; `none` is a mutex that nobody has.
abbrev pub Locks : Type 0
Locks = ℕ → Option Held

abbrev pub put : ℕ → Option Held → Locks → Locks
put n v locks k = if k == n then v else locks k

-- The answers of the server, and their codes.
pub data Answer : Type 0 where
  granted not_permitted not_valid no_reply : Answer

abbrev pub code : Env → Answer → ℤ
code e granted = e.ok
code e not_permitted = e.eperm
code e not_valid = neg e.einval
code e no_reply = e.edontreply

-- A process asks for a mutex.
abbrev pub lock_held : ℕ → ℕ → Locks → Option Held → Answer × Locks
lock_held p n locks none = (granted, put n (some (held p [])) locks)
lock_held p n locks (some h) =
    if h.owner == p
    then (not_permitted, locks)
    else (no_reply, put n (some (held h.owner (h.waiting ++ p ∷ []))) locks)

abbrev pub lock : ℕ → ℕ → Locks → Answer × Locks
lock p n locks = lock_held p n locks (locks n)

-- The codes that the server tells apart differ, and there is memory for every node of a queue.
pub record IsMinix (e : Env) : Type 0 where
  pub ok : e.ok ≡ pos 0
  pub ok_ne : e.ok ≢ e.edontreply
  pub eperm_ne : e.eperm ≢ e.edontreply
  pub einval_ne : neg e.einval ≢ e.edontreply
  pub memory : (s : Server) → e.malloc s ≡ true

abbrev pub is_no_reply : Answer → Bool
is_no_reply no_reply = true
is_no_reply granted = false
is_no_reply not_permitted = false
is_no_reply not_valid = false

pub code-no_reply :
    {e : Env} → IsMinix e → (a : Answer) → equals (code e a) e.edontreply ≡ is_no_reply a
code-no_reply {e} h no_reply = equals_refl e.edontreply
code-no_reply {e} h granted = equals_ne e.ok e.edontreply h.ok_ne
code-no_reply {e} h not_permitted = equals_ne e.eperm e.edontreply h.eperm_ne
code-no_reply {e} h not_valid = equals_ne (neg e.einval) e.edontreply h.einval_ne

-- A mutex passes from its owner to the first that waits for it, who is told so.
abbrev pub pass : ℕ → List ℕ → Locks → Locks
pass n [] locks = put n none locks
pass n (q ∷ qs) locks = put n (some (held q qs)) locks

abbrev pub told : List ℕ → List Reply
told [] = []
told (q ∷ qs) = reply q (pos 0) ∷ []

pub record Unlocked : Type 0 where
  pub answer : Answer
  pub locks : Locks
  pub replies : List Reply

abbrev pub unlock_held : ℕ → ℕ → Locks → Option Held → Unlocked
unlock_held p n locks none = record { answer = not_permitted; locks = locks; replies = [] }
unlock_held p n locks (some h) =
    if h.owner == p
    then record { answer = granted; locks = pass n h.waiting locks; replies = told h.waiting }
    else record { answer = not_permitted; locks = locks; replies = [] }

-- A process gives a mutex back.
abbrev pub unlock : ℕ → ℕ → Locks → Unlocked
unlock p n locks = unlock_held p n locks (locks n)

-- A process that waits for an event, and the mutex that it gets back then.
pub record Waiter : Type 0 where
  pub proces : ℕ
  pub mutex : ℕ

abbrev pub waiter : ℕ → ℕ → Waiter
waiter p n = record { proces = p; mutex = n }

-- Who waits for which event, in the order of arrival.
abbrev pub Events : Type 0
Events = ℕ → List Waiter

abbrev pub put_events : ℕ → List Waiter → Events → Events
put_events n ws events k = if k == n then ws else events k

pub record Waited : Type 0 where
  pub answer : Answer
  pub locks : Locks
  pub events : Events
  pub replies : List Reply

abbrev pub wait_held : ℕ → ℕ → ℕ → Locks → Events → Option Held → Waited
wait_held p ev n locks events none = record {
  answer = not_valid;
  locks = locks;
  events = events;
  replies = [];
}
wait_held p ev n locks events (some h) =
    if h.owner == p
    then record {
      answer = no_reply;
      locks = pass n h.waiting locks;
      events = put_events ev (events ev ++ waiter p n ∷ []) events;
      replies = told h.waiting;
    }
    else record { answer = not_valid; locks = locks; events = events; replies = [] }

-- The owner of the mutex `n` gives it back and waits for the event `ev`.
abbrev pub wait : ℕ → ℕ → ℕ → Locks → Events → Waited
wait p ev n locks events = wait_held p ev n locks events (locks n)

-- The answer to a process that an event wakes: 0, unless it now waits for its mutex.
abbrev pub woken : Answer → ℕ → List Reply
woken a p = if is_no_reply a then [] else reply p (pos 0) ∷ []

-- The processes that waited for an event ask for their mutexes, in the order of arrival.
abbrev pub wake : List Waiter → Locks → Locks
wake [] locks = locks
wake (w ∷ ws) locks = wake ws (lock w.proces w.mutex locks).1

abbrev pub wake_replies : List Waiter → Locks → List Reply
wake_replies [] locks = []
wake_replies (w ∷ ws) locks =
    woken (lock w.proces w.mutex locks).0 w.proces
    ++ wake_replies ws (lock w.proces w.mutex locks).1

abbrev pub broadcast : ℕ → Locks → Events → Waited
broadcast ev locks events = record {
  answer = granted;
  locks = wake (events ev) locks;
  events = put_events ev [] events;
  replies = wake_replies (events ev) locks;
}

-- The waiters without the first entry of the process.
abbrev pub erase_waiter : ℕ → List Waiter → List Waiter
erase_waiter p [] = []
erase_waiter p (w ∷ ws) = if w.proces == p then ws else w ∷ erase_waiter p ws

abbrev pub waits_in : ℕ → List Waiter → Bool
waits_in p [] = false
waits_in p (w ∷ ws) = w.proces == p || waits_in p ws

-- The first entry of a process leaves the queue of every mutex, and every event. A process that is
-- in each at most once waits for nothing then.
abbrev pub leave_held : ℕ → Option Held → Option Held
leave_held p none = none
leave_held p (some h) = some (held h.owner (erase p h.waiting))

abbrev pub leave_locks : ℕ → Locks → Locks
leave_locks p locks n = leave_held p (locks n)

abbrev pub leave_events : ℕ → Events → Events
leave_events p events ev = erase_waiter p (events ev)

-- A process ends: its mutexes pass on, and then its first entries leave as above.
abbrev pub next_owner : List ℕ → Option Held
next_owner [] = none
next_owner (q ∷ qs) = some (held q qs)

abbrev pub release_held : ℕ → Option Held → Option Held
release_held p none = none
release_held p (some h) = if h.owner == p then next_owner h.waiting else some h

abbrev pub exit_locks : ℕ → Locks → Locks
exit_locks p locks n = leave_held p (release_held p (locks n))
