-- ===== src/Pm/Answers.antt =====
-- Between two messages PM owes no answer: the loop of projekt/servers/pm/main.c.
use minix_server_of_mutex_an.Base.{
  ℕ, ◌≡◌, refl, ap, sym, ◌∙◌, Bool, true, false, not, Option, none, some, List, [], ◌∷◌, ℤ, pos,
  negsuc, equals, ◌==◌, ◌>>=◌, if◌then◌else◌,
}
use minix_server_of_mutex_an.Pm.{Pm, Kernel}
use minix_server_of_mutex_an.Pm.Utility.{pm_isokendpt}
use minix_server_of_mutex_an.Pm.Signal.{Other}
use minix_server_of_mutex_an.Pm.Reply.{due, sendreply, sendreply-due}
use minix_server_of_mutex_an.Pm.Vfs.{System}
use minix_server_of_mutex_an.Pm.Loop.{
  Wiadomosc, Przychodzaca, wynik_wiadomosci, odpowiedz_wywolujacemu, powiadomienie, zadanie,
  runda_procesu, runda_zadania, runda_petli, petla,
}

-- If a step returns, no answer is due after it.
pub record Answered (k : Kernel) (r : Option Pm) : Type 0 where
  pub nothing_due : (t : Pm) → r ≡ some t → due k.nr_procs 0 t.mproc ≡ []

module _ (k : Kernel) where
  Answered-none : Answered k none
  Answered-none = record { nothing_due = λ t e. cc }

  Answered-some : (s : Pm) → due k.nr_procs 0 s.mproc ≡ [] → Answered k (some s)
  Answered-some s e = record {
    nothing_due = λ t is_t.
        let same : s ≡ t = cc is_t in ap (λ (u : Pm). due k.nr_procs 0 u.mproc) (sym same) ∙ e;
  }

  Answered-sent : (s : Pm) → Answered k (some (sendreply k s))
  Answered-sent s = Answered-some (sendreply k s) (sendreply-due k s).1

  Answered-if :
      (b : Bool) (x y : Option Pm) → Answered k x → Answered k y → Answered k (if b then x else y)
  Answered-if true x y a b = a
  Answered-if false x y a b = b

  -- Whatever stands before it, a step that always answers.
  Answered-bind :
      {A : Type 0} (r : Option A) (g : A → Option Pm)
      → ((a : A) → Answered k (g a))
      → Answered k (r >>= g)
  Answered-bind none g next = Answered-none
  Answered-bind (some a) g next = next a

  Answered-kind :
      (f : ℕ → Option Pm) (g : Option Pm) (m : Option ℕ)
      → ((t : ℕ) → Answered k (f t))
      → Answered k g
      → Answered k (elim m [ none ↦ g | some t ↦ f t ])
  Answered-kind f g none a b = b
  Answered-kind f g (some t) a b = a t

  module _ (y : System) (o : Other) (clock : ℤ) where
    Answered-notice :
        (who_p : ℤ) (timestamp : ℕ) (s : Pm)
        → Answered k (powiadomienie k y o clock who_p timestamp s)
    unfolding powiadomienie
    Answered-notice who_p timestamp s =
        Answered-bind (if equals who_p clock then y.expire_timers timestamp s else some s) _
          Answered-sent

    Answered-request :
        (who_p who_e : ℕ) (m : Wiadomosc) (s : Pm)
        → Answered k (zadanie k y o clock who_p who_e m s)
    unfolding zadanie
    Answered-request who_p who_e m s =
        Answered-bind (wynik_wiadomosci k y o clock who_e m s) _
          λ r. Answered-bind (odpowiedz_wywolujacemu k y o clock who_p r) _ Answered-sent

    Answered-round :
        (m : Przychodzaca) (s : Pm) (r : ℤ × ℤ)
        → due k.nr_procs 0 s.mproc ≡ []
        → Answered k (runda_petli k y o clock m s r)
    unfolding runda_petli runda_procesu runda_zadania
    Answered-round m s (r, pos who_p) e =
        let s1 = record s { mp = who_p; who_p = who_p } in
        Answered-if (not (equals r k.ok)) none _ Answered-none (
          Answered-if (not ((s.mproc who_p).endpoint == m.m_source)) none _ Answered-none (
            Answered-if (s.mproc who_p).flags.exiting (some s1) _ (Answered-some s1 e) (
              Answered-kind (λ t. powiadomienie k y o clock (pos who_p) t s1) _ m.notify
                (λ t. Answered-notice (pos who_p) t s1)
                (Answered-request who_p m.m_source m.m_type s1))))
    Answered-round m s (r, negsuc n) e =
        let s1 = record s { mp = k.pm_proc_nr } in
        Answered-if (not (equals r k.ok)) none _ Answered-none (
          Answered-if (s.mproc k.pm_proc_nr).flags.exiting (some s1) _ (Answered-some s1 e) (
            Answered-kind (λ t. powiadomienie k y o clock (negsuc n) t s1) none m.notify
              (λ t. Answered-notice (negsuc n) t s1) Answered-none))

    Answered-then :
        (r : Option Pm) (g : Pm → Option Pm)
        → Answered k r
        → ((t : Pm) → due k.nr_procs 0 t.mproc ≡ [] → Answered k (g t))
        → Answered k (r >>= g)
    Answered-then none g a next = Answered-none
    Answered-then (some t) g a next = next t (a.nothing_due t refl)

    -- After any sequence of messages, where PM does not panic, no answer is left due: no process that
    -- is in use and not exiting has its REPLY flag set, whatever the handling of the messages
    -- prepared for it. The condition: none was due before the messages.
    pub petla-Answered :
        (ms : List Przychodzaca) (s : Pm)
        → due k.nr_procs 0 s.mproc ≡ []
        → Answered k (petla k y o clock ms s)
    unfolding petla
    petla-Answered [] s e = Answered-some s e
    petla-Answered (m ∷ ms) s e =
        Answered-then (runda_petli k y o clock m s (pm_isokendpt k m.m_source s)) _
          (Answered-round m s (pm_isokendpt k m.m_source s) e) λ t due_t. petla-Answered ms t due_t
