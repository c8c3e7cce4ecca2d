-- ===== src/Pm/Loop.antt =====
-- The main loop of PM, and `get_nice_value`: projekt/servers/pm/main.c.
use minix_server_of_mutex_an.Base.{
  ℕ, ◌+◌, ◌-◌, ◌*◌, ◌/◌, Bool, not, Option, none, some, List, [], ◌∷◌, ℤ, pos, negsuc, neg, equals,
  ltb, leb, ◌==◌, if◌then◌else◌, ◌>>=◌,
}
use minix_server_of_mutex_an.Pm.{Pm, Kernel}
use minix_server_of_mutex_an.Pm.Utility.{pm_isokendpt, Priorities}
use minix_server_of_mutex_an.Pm.Signal.{Other, setreply}
use minix_server_of_mutex_an.Pm.Killable.Calls.{Ask, wykonaj}
use minix_server_of_mutex_an.Pm.Exit.{do_exit}
use minix_server_of_mutex_an.Pm.Wait.{do_waitpid}
use minix_server_of_mutex_an.Pm.Fork.{do_fork, do_srv_fork}
use minix_server_of_mutex_an.Pm.Vfs.{VfsReply, System, handle_vfs_reply}
use minix_server_of_mutex_an.Pm.Reply.{sendreply}

-- What `call_vec` has at the number of a call, with what the message holds.
pub data Wywolanie : Type 0 where
  sygnal : Ask → Wywolanie
  exit : ℤ → Wywolanie
  waitpid : ℤ → Bool → Wywolanie
  fork : Wywolanie
  srv_fork : ℕ → ℕ → Wywolanie
  -- A call that another file of MINIX has.
  minix : (Pm → Option (ℤ × Pm)) → Wywolanie

-- The kinds of messages, by `call_nr`.
pub data Wiadomosc : Type 0 where
  -- A reply of VFS, as `handle_vfs_reply` takes it.
  vfs_reply : Option (ℕ × VfsReply) → Wiadomosc
  getsysinfo : Wiadomosc
  -- A number under `NCALLS`, and one that is not.
  wywolanie : Wywolanie → Wiadomosc
  nieznane : Wiadomosc

-- A message: who sent it, and a notification with its time, or one that asks for something.
pub record Przychodzaca : Type 0 where
  pub m_source : ℕ
  pub notify : Option ℕ
  pub m_type : Wiadomosc

module _ (k : Kernel) (y : System) (o : Other) (clock : ℤ) where
  -- `(*call_vec[call_nr])()`
  unfoldable pub call_vec : Wywolanie → Pm → Option (ℤ × Pm)
  unfolding wykonaj do_exit do_waitpid do_fork do_srv_fork
  call_vec (sygnal ask) s = wykonaj k o ask s
  call_vec (exit status) s = do_exit k o status s
  call_vec (waitpid pid wnohang) s = do_waitpid k o pid wnohang s
  call_vec fork s = do_fork k o s
  call_vec (srv_fork uid gid) s = do_srv_fork k o uid gid s
  call_vec (minix f) s = f s

  -- The switch over `call_nr`.
  unfoldable pub wynik_wiadomosci : ℕ → Wiadomosc → Pm → Option (ℤ × Pm)
  unfolding handle_vfs_reply call_vec
  wynik_wiadomosci who_e (vfs_reply r) s =
      if who_e == k.vfs_proc_nr
      then (do s1 ← handle_vfs_reply k y o r s; some (k.suspend, s1))
      else some (k.enosys, s)
  wynik_wiadomosci who_e getsysinfo s = y.do_getsysinfo s
  wynik_wiadomosci who_e (wywolanie w) s = call_vec w s
  wynik_wiadomosci who_e nieznane s = some (k.enosys, s)

  -- `if (result != SUSPEND) setreply(who_p, result);`
  abbrev pub odpowiedz_wywolujacemu : ℕ → ℤ × Pm → Option Pm
  odpowiedz_wywolujacemu who_p (result, s) =
      if not (equals result k.suspend) then setreply k who_p result s else some s

  -- A notification.
  unfoldable pub powiadomienie : ℤ → ℕ → Pm → Option Pm
  unfolding sendreply
  powiadomienie who_p timestamp s = do
    s1 ← if equals who_p clock then y.expire_timers timestamp s else some s
    some (sendreply k s1)

  -- A message that asks for something, of the process in the slot `who_p`.
  unfoldable pub zadanie : ℕ → ℕ → Wiadomosc → Pm → Option Pm
  unfolding wynik_wiadomosci sendreply setreply
  zadanie who_p who_e m s = do
    r ← wynik_wiadomosci who_e m s
    s1 ← odpowiedz_wywolujacemu who_p r
    some (sendreply k s1)

  -- A round for a process of the table, once `mp` is set.
  unfoldable pub runda_procesu : ℕ → Przychodzaca → Pm → Option Pm
  unfolding powiadomienie zadanie
  runda_procesu who_p m s =
      if not ((s.mproc who_p).endpoint == m.m_source)
      then none
      else if (s.mproc who_p).flags.exiting
      then some s
      else elim m.notify [
        | none ↦ zadanie who_p m.m_source m.m_type s
        | some timestamp ↦ powiadomienie (pos who_p) timestamp s
      ]

  -- A round for a task of the kernel, which sends notifications only: `none` for anything else.
  unfoldable pub runda_zadania : ℤ → Przychodzaca → Pm → Option Pm
  unfolding powiadomienie
  runda_zadania who_p m s =
      if (s.mproc s.mp).flags.exiting
      then some s
      else elim m.notify [ none ↦ none | some timestamp ↦ powiadomienie who_p timestamp s ]

  -- A round, with what `pm_isokendpt` says of the source.
  unfoldable pub runda_petli : Przychodzaca → Pm → ℤ × ℤ → Option Pm
  unfolding runda_procesu runda_zadania
  runda_petli m s (r, pos who_p) =
      if not (equals r k.ok)
      then none
      else runda_procesu who_p m (record s { mp = who_p; who_p = who_p })
  runda_petli m s (r, negsuc n) =
      if not (equals r k.ok)
      then none
      else runda_zadania (negsuc n) m (record s { mp = k.pm_proc_nr })

  -- The loop of `main`, for the messages that come.
  unfoldable pub petla : List Przychodzaca → Pm → Option Pm
  unfolding runda_petli
  petla [] s = some s
  petla (m ∷ ms) s = do s1 ← runda_petli m s (pm_isokendpt k m.m_source s); petla ms s1

-- `get_nice_value` before the corrections; the division of C goes towards 0.
abbrev pub przeskaluj : Priorities → ℕ → ℕ → ℤ
przeskaluj c user_q queue =
    if leb user_q queue
    then pos
        ((queue - user_q) * (c.prio_max + c.prio_min_neg + 1) / (c.min_user_q - c.max_user_q + 1))
    else neg (
        pos (
          (user_q - queue) * (c.prio_max + c.prio_min_neg + 1) / (c.min_user_q - c.max_user_q + 1)))

abbrev pub ogranicz : Priorities → ℤ → ℤ
ogranicz c (pos n) = if ltb c.prio_max n then pos c.prio_max else pos n
ogranicz c (negsuc n) = if ltb c.prio_min_neg (n + 1) then neg (pos c.prio_min_neg) else negsuc n

-- `get_nice_value`
unfoldable pub get_nice_value : Priorities → ℕ → ℕ → ℤ
get_nice_value c user_q queue = ogranicz c (przeskaluj c user_q queue)
