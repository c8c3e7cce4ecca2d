-- ===== src/Pm/Killable/Loop.antt =====
-- The main loop of PM keeps SIGKILL deliverable: projekt/servers/pm/main.c.
use minix_server_of_mutex_an.Base.{
  ℕ, zero, suc, not, Option, none, some, List, [], ◌∷◌, ℤ, pos, negsuc, equals, ◌==◌, if◌then◌else◌,
}
use minix_server_of_mutex_an.Pm.{Pm, Kernel}
use minix_server_of_mutex_an.Pm.Utility.{pm_isokendpt}
use minix_server_of_mutex_an.Pm.Signal.{Other}
use minix_server_of_mutex_an.Pm.Exit.{Minix, other}
use minix_server_of_mutex_an.Pm.Reply.{
  bez_odpowiedzi, czeka_na_odpowiedz, odpowiedz, odpowiedz_jednemu, sendreply_od, sendreply,
}
use minix_server_of_mutex_an.Pm.Vfs.{System, handle_vfs_reply}
use minix_server_of_mutex_an.Pm.Loop.{
  Wywolanie, sygnal, exit, waitpid, fork, srv_fork, minix, Wiadomosc, vfs_reply, getsysinfo,
  wywolanie, nieznane, Przychodzaca, call_vec, wynik_wiadomosci, odpowiedz_wywolujacemu,
  powiadomienie, zadanie, runda_procesu, runda_zadania, runda_petli, petla,
}
use minix_server_of_mutex_an.Pm.Killable.{
  AllKillable, Safe, SafeResult, IsLawful, Safe-none, Safe-some, Safe-if, Safe-bind,
  AllKillable-flags, AllKillable-if, Safe-result, SafeResult-bind, SafeResult-some, SafeResult-if,
}
use minix_server_of_mutex_an.Pm.Killable.Masks.{AllKillable-call}
use minix_server_of_mutex_an.Pm.Killable.Calls.{wykonaj-AllKillable}
use minix_server_of_mutex_an.Pm.Killable.Children.{Safe-setreply}
use minix_server_of_mutex_an.Pm.Killable.Exit.{Safe-do_exit, IsLawfulMinix, other-IsLawful}
use minix_server_of_mutex_an.Pm.Killable.Wait.{Safe-do_waitpid}
use minix_server_of_mutex_an.Pm.Killable.Fork.{Safe-do_fork, Safe-do_srv_fork}
use minix_server_of_mutex_an.Pm.Killable.Vfs.{IsLawfulSystem, Safe-handle_vfs_reply}

-- A message whose call, if another file of MINIX has it, keeps SIGKILL deliverable.
abbrev pub IsLawfulCall : Kernel → Wiadomosc → Type 0
IsLawfulCall k (vfs_reply r) = Unit
IsLawfulCall k getsysinfo = Unit
IsLawfulCall k nieznane = Unit
IsLawfulCall k (wywolanie (sygnal ask)) = Unit
IsLawfulCall k (wywolanie (exit status)) = Unit
IsLawfulCall k (wywolanie (waitpid pid wnohang)) = Unit
IsLawfulCall k (wywolanie fork) = Unit
IsLawfulCall k (wywolanie (srv_fork uid gid)) = Unit
IsLawfulCall k (wywolanie (minix f)) = (s : Pm) → AllKillable k s → SafeResult k (f s)

abbrev pub AllLawful : Kernel → List Przychodzaca → Type 0
AllLawful k [] = Unit
AllLawful k (m ∷ ms) = IsLawfulCall k m.m_type × AllLawful k ms

module _ (k : Kernel) where
  AllKillable-sendreply_od :
      (r i : ℕ) (s : Pm) → AllKillable k s → AllKillable k (sendreply_od k r i s)
  unfolding sendreply_od odpowiedz_jednemu
  AllKillable-sendreply_od zero i s all = all
  AllKillable-sendreply_od (suc r) i s all =
      AllKillable-sendreply_od r (suc i) (odpowiedz_jednemu k i s) (
        AllKillable-if k (czeka_na_odpowiedz (s.mproc i)) _ s
          (AllKillable-flags k i bez_odpowiedzi _
            (AllKillable-call k (odpowiedz (s.mproc i)) s all))
          all)

  pub AllKillable-sendreply : (s : Pm) → AllKillable k s → AllKillable k (sendreply k s)
  unfolding sendreply
  AllKillable-sendreply s all = AllKillable-sendreply_od k.nr_procs 0 s all

  module _ (o : Other) (lawful : IsLawful k o) (y : System) (system : IsLawfulSystem k y)
      (clock : ℤ) where
    Safe-call_vec :
        (w : Wywolanie) (s : Pm)
        → IsLawfulCall k (wywolanie w)
        → AllKillable k s
        → SafeResult k (call_vec k y o clock w s)
    unfolding call_vec
    Safe-call_vec (sygnal ask) s fine all = wykonaj-AllKillable k o lawful ask s all
    Safe-call_vec (exit status) s fine all = Safe-do_exit k o lawful status s all
    Safe-call_vec (waitpid pid wnohang) s fine all = Safe-do_waitpid k o lawful pid wnohang s all
    Safe-call_vec fork s fine all = Safe-do_fork k o lawful s all
    Safe-call_vec (srv_fork uid gid) s fine all = Safe-do_srv_fork k o lawful uid gid s all
    Safe-call_vec (minix f) s fine all = fine s all

    Safe-wynik :
        (who_e : ℕ) (m : Wiadomosc) (s : Pm)
        → IsLawfulCall k m
        → AllKillable k s
        → SafeResult k (wynik_wiadomosci k y o clock who_e m s)
    unfolding wynik_wiadomosci
    Safe-wynik who_e (vfs_reply r) s fine all =
        SafeResult-if k (who_e == k.vfs_proc_nr) _ _
          (SafeResult-bind k (handle_vfs_reply k y o r s) _
            (Safe-handle_vfs_reply k o lawful y system r s all)
            λ s1 all1. SafeResult-some k k.suspend all1)
          (SafeResult-some k k.enosys all)
    Safe-wynik who_e getsysinfo s fine all = system.do_getsysinfo s all
    Safe-wynik who_e (wywolanie w) s fine all = Safe-call_vec w s fine all
    Safe-wynik who_e nieznane s fine all = SafeResult-some k k.enosys all

    Safe-powiadomienie :
        (who_p : ℤ) (timestamp : ℕ) (s : Pm)
        → AllKillable k s
        → Safe k (powiadomienie k y o clock who_p timestamp s)
    unfolding powiadomienie
    Safe-powiadomienie who_p timestamp s all =
        Safe-bind k (if equals who_p clock then y.expire_timers timestamp s else some s) _
          (Safe-if k _ _ _ (system.expire_timers timestamp s all) (Safe-some k all))
          λ s1 all1. Safe-some k (AllKillable-sendreply s1 all1)

    Safe-zadanie :
        (who_p who_e : ℕ) (m : Wiadomosc) (s : Pm)
        → IsLawfulCall k m
        → AllKillable k s
        → Safe k (zadanie k y o clock who_p who_e m s)
    unfolding zadanie
    Safe-zadanie who_p who_e m s fine all =
        Safe-result k (wynik_wiadomosci k y o clock who_e m s) _ (Safe-wynik who_e m s fine all)
          λ r s1 all1.
            Safe-bind k (odpowiedz_wywolujacemu k y o clock who_p (r, s1)) _
              (Safe-if k (not (equals r k.suspend)) _ _ (Safe-setreply k who_p r s1 all1)
                (Safe-some k all1))
              λ s2 all2. Safe-some k (AllKillable-sendreply s2 all2)

    -- The end of a round, by the kind of the message.
    Safe-rodzaj :
        (f : ℕ → Option Pm) (g : Option Pm) (m : Option ℕ)
        → ((t : ℕ) → Safe k (f t))
        → Safe k g
        → Safe k (elim m [ none ↦ g | some t ↦ f t ])
    Safe-rodzaj f g none a b = b
    Safe-rodzaj f g (some t) a b = a t

    Safe-runda_petli :
        (m : Przychodzaca) (s : Pm) (r : ℤ × ℤ)
        → IsLawfulCall k m.m_type
        → AllKillable k s
        → Safe k (runda_petli k y o clock m s r)
    unfolding runda_petli runda_procesu runda_zadania
    Safe-runda_petli m s (r, pos who_p) fine all =
        let s1 = record s { mp = who_p; who_p = who_p } in
        let all1 : AllKillable k s1 = record { at = all.at } in
        Safe-if k (not (equals r k.ok)) none _ (Safe-none k) (
          Safe-if k (not ((s.mproc who_p).endpoint == m.m_source)) none _ (Safe-none k) (
            Safe-if k (s.mproc who_p).flags.exiting (some s1) _ (Safe-some k all1) (
              Safe-rodzaj (λ t. powiadomienie k y o clock (pos who_p) t s1) _ m.notify
                (λ t. Safe-powiadomienie (pos who_p) t s1 all1)
                (Safe-zadanie who_p m.m_source m.m_type s1 fine all1))))
    Safe-runda_petli m s (r, negsuc n) fine all =
        let s1 = record s { mp = k.pm_proc_nr } in
        let all1 : AllKillable k s1 = record { at = all.at } in
        Safe-if k (not (equals r k.ok)) none _ (Safe-none k) (
          Safe-if k (s.mproc k.pm_proc_nr).flags.exiting (some s1) _ (Safe-some k all1) (
            Safe-rodzaj (λ t. powiadomienie k y o clock (negsuc n) t s1) none m.notify
              (λ t. Safe-powiadomienie (negsuc n) t s1 all1) (Safe-none k)))

    Safe-petla :
        (ms : List Przychodzaca) (s : Pm)
        → AllLawful k ms
        → AllKillable k s
        → Safe k (petla k y o clock ms s)
    unfolding petla
    Safe-petla [] s fine all = Safe-some k all
    Safe-petla (m ∷ ms) s (fine, rest) all =
        Safe-bind k (runda_petli k y o clock m s (pm_isokendpt k m.m_source s)) _
          (Safe-runda_petli m s (pm_isokendpt k m.m_source s) fine all)
          λ s1 all1. Safe-petla ms s1 rest all1

-- No sequence of messages to PM lets a process block, catch or ignore SIGKILL: if no process does
-- before the messages, none does after them, where PM does not panic. The messages are the requests
-- about signals, forks, exits, waits, the replies of VFS and the notifications, in any order and
-- from any process; the ends of processes that follow from one another are all included, to any
-- depth `fuel`. The condition: the functions of other files of MINIX keep it.
pub petla-AllKillable :
    (k : Kernel) (x : Minix) (y : System) (clock : ℤ) (fuel : ℕ) (ms : List Przychodzaca) (s : Pm)
    → IsLawfulMinix k x
    → IsLawfulSystem k y
    → AllLawful k ms
    → AllKillable k s
    → Safe k (petla k y (other k x fuel) clock ms s)
petla-AllKillable k x y clock fuel ms s lawful system fine all =
    Safe-petla k (other k x fuel) (other-IsLawful k x lawful fuel) y system clock ms s fine all
