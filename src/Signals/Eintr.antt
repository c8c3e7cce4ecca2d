-- ===== src/Signals/Eintr.antt =====
-- `wyslijEINTR` of projekt/servers/cv/main.c implements the specification.
use minix_server_of_mutex_an.Base.{
  ℕ, zero, suc, ◌+◌, ◌≡◌, ◌≢◌, refl, ap, sym, ◌∙◌, Bool, true, false, ◌&&◌, Option, none, some,
  List, [], ◌∷◌, ◌++◌, append_assoc, append-nil, if◌then◌else◌, replicate, replicate-add, All,
  Bool-cases, inl, inr, arith,
}
use minix_server_of_mutex_an.Queue.{contains, usun_proces, czy_pusto}
use minix_server_of_mutex_an.State.{Mutex, ConditionVariable, Server, Env, reply, wyslij_wiadomosc}
use minix_server_of_mutex_an.Spec.{waits_in, leave_locks, leave_events}
use minix_server_of_mutex_an.Mutexes.View.{IsTable, locks_of}
use minix_server_of_mutex_an.Cvs.View.{events_of, czekajacy, IsSized, IsCvTable}
use minix_server_of_mutex_an.Signals.{
  opusc_jedna_kolejke, opusc_kolejki, eintr_mutex, eintr_mutexy, wyslij_eintr,
}
use minix_server_of_mutex_an.Signals.Plain.{
  without_process, leave_event, leave_all_events, eintr_event, eintr_events,
}
use minix_server_of_mutex_an.Signals.Reach.{eintr_wszystkie_cv-eintr_events}
use minix_server_of_mutex_an.Signals.Shift.{Removal, index_of-Removal}
use minix_server_of_mutex_an.Signals.Leave.{
  IsClean, opusc_kolejki-locks, opusc_kolejki-IsTable, leave_all_events-events,
  leave_all_events-IsCvTable,
}

-- The queues in which the process waits, and the events that it waits for.
unfoldable pub kolejki_procesu : ℕ → List Mutex → ℕ
kolejki_procesu p [] = 0
kolejki_procesu p (x ∷ xs) = (if contains x.kolejka.elementy p then 1 else 0) + kolejki_procesu p xs

abbrev pub waits_at : ℕ → ConditionVariable → Bool
waits_at p c = c.uzywany && waits_in p (czekajacy c)

unfoldable pub cv_procesu : ℕ → List ConditionVariable → ℕ
cv_procesu p [] = 0
cv_procesu p (c ∷ cs) = (if waits_at p c then 1 else 0) + cv_procesu p cs

module _ (e : Env) (p : ℕ) where
  -- EINTR, sent to the process a number of times.
  wyslij_razy : ℕ → Server → Server
  wyslij_razy zero s = s
  wyslij_razy (suc k) s = wyslij_razy k (wyslij_wiadomosc e e.eintr p s)

  wyslij_razy-sent :
      (k : ℕ) (s : Server) → (wyslij_razy k s).sent ≡ s.sent ++ replicate k (reply p e.eintr)
  unfolding wyslij_razy wyslij_wiadomosc
  wyslij_razy-sent zero s = sym (append-nil s.sent)
  wyslij_razy-sent (suc k) s =
      wyslij_razy-sent k (wyslij_wiadomosc e e.eintr p s) ∙ append_assoc s.sent _ _

  wyslij_razy-kept :
      (k : ℕ) (s : Server)
      → ((wyslij_razy k s).cv ≡ s.cv) × ((wyslij_razy k s).aktualny_proces ≡ s.aktualny_proces)
  unfolding wyslij_razy wyslij_wiadomosc
  wyslij_razy-kept zero s = (refl, refl)
  wyslij_razy-kept (suc k) s = wyslij_razy-kept k (wyslij_wiadomosc e e.eintr p s)

  -- One more message, if a test holds.
  wyslij_razy-if :
      (b : Bool) (k : ℕ) (s : Server)
      → wyslij_razy ((if b then 1 else 0) + k) s
        ≡ wyslij_razy k (if b then wyslij_wiadomosc e e.eintr p s else s)
  unfolding wyslij_razy
  wyslij_razy-if true k s = let h : 1 + k ≡ suc k = omega arith in rw h
  wyslij_razy-if false k s = let h : 0 + k ≡ k = omega arith in rw h

  eintr_mutex_lem :
      (x : Mutex) (s : Server)
      → x.kolejka.straznik ≢ p
      → eintr_mutex e p x s ≡ (
        opusc_jedna_kolejke p x,
        if contains x.kolejka.elementy p then wyslij_wiadomosc e e.eintr p s else s,
      )
  unfolding eintr_mutex opusc_jedna_kolejke usun_proces czy_pusto
  eintr_mutex_lem x s clean = ground arith

  eintr_event_lem :
      {limit : ℕ} (c : ConditionVariable) (s : Server)
      → IsSized limit c
      → eintr_event e p c s
        ≡ (leave_event p c, if waits_at p c then wyslij_wiadomosc e e.eintr p s else s)
  unfolding eintr_event leave_event
  eintr_event_lem c s z = elim (Bool-cases c.uzywany) [
    | inl u ↦ simp u (
        found _ (
          index_of-Removal c.size p c.procesy c.muteksy (omega (arith, z.procesy, z.size))
            (omega (arith, z.muteksy, z.size))))
    | inr u ↦ simp u
  ]
    where
      found :
          (o : Option ℕ)
          → Removal c.size p (czekajacy c) o
          → let next : Server = wyslij_wiadomosc e e.eintr p s in
            let old : ConditionVariable × Server = elim o [
              | none ↦ (c, s)
              | some j ↦ (without_process c j, next)
            ] in
            old ≡ (
              elim o [ none ↦ c | some j ↦ without_process c j ],
              if waits_in p (czekajacy c) then next else s,
            )
      found none h = rw h.1
      found (some j) h = rw h.2

  eintr_mutexy_lem :
      (xs : List Mutex) (s : Server)
      → IsClean p xs
      → eintr_mutexy e p xs s ≡ (opusc_kolejki p xs, wyslij_razy (kolejki_procesu p xs) s)
  unfolding eintr_mutexy opusc_kolejki kolejki_procesu wyslij_razy
  eintr_mutexy_lem [] s clean = refl
  eintr_mutexy_lem (x ∷ xs) s clean = rw (
    wyslij_razy-if (contains x.kolejka.elementy p) (kolejki_procesu p xs) s,
    eintr_mutex_lem x s clean.0,
    eintr_mutexy_lem xs _ clean.1,
  )

  eintr_events_lem :
      (limit : ℕ) (cs : List ConditionVariable) (s : Server)
      → All (IsSized limit) cs
      → eintr_events e p cs s ≡ (leave_all_events p cs, wyslij_razy (cv_procesu p cs) s)
  unfolding eintr_events leave_all_events cv_procesu wyslij_razy
  eintr_events_lem limit [] s z = refl
  eintr_events_lem limit (c ∷ cs) s z = rw (
    wyslij_razy-if (waits_at p c) (cv_procesu p cs) s,
    eintr_event_lem c s z.0,
    eintr_events_lem limit cs _ z.1,
  )

-- What `wyslijEINTR` makes of the server.
pub record Interrupted (limit : ℕ) (e : Env) (p : ℕ) (s : Server) (r : Option Server) : Type 0 where
  pub after : Server
  pub returns : r ≡ some after
  pub locks : locks_of after.m ≡ leave_locks p (locks_of s.m)
  pub events : events_of after.cv ≡ leave_events p (events_of s.cv)
  pub table : IsTable after.m
  pub cv_table : IsCvTable limit after.cv
  pub sends :
      after.sent ≡ s.sent ++ replicate (kolejki_procesu p s.m + cv_procesu p s.cv) (reply p e.eintr)
  pub caller : after.aktualny_proces ≡ s.aktualny_proces

-- `wyslijEINTR` takes the first entry of the process out of every queue and every event in which it
-- waits, and sends it EINTR once for each queue and each event (a process that is in each at most
-- once waits nowhere then). All other entries stay in their order, the handler returns, and both tables stay well
-- formed. The condition: the uninitialised fields in the `start` nodes differ from the process.
pub wyslij_eintr-leave :
    (limit : ℕ) (e : Env) (p : ℕ) (s : Server)
    → IsTable s.m
    → IsCvTable limit s.cv
    → IsClean p s.m
    → Interrupted limit e p s (wyslij_eintr e p s)
unfolding wyslij_eintr opusc_kolejki wyslij_razy
wyslij_eintr-leave limit e p s v w clean =
    let k = kolejki_procesu p s.m in
    let j = cv_procesu p s.cv in
    let s1 = wyslij_razy e p k s in
    let kept = wyslij_razy-kept e p k s in
    let plain = eintr_wszystkie_cv-eintr_events limit e p s.cv s1 w.sized in
    let all = eintr_events_lem e p limit s.cv s1 w.sized in
    rw (eintr_mutexy_lem e p s.m s clean, kept.0, plain, all)
      (record {
        after = record (wyslij_razy e p j s1) {
          m = opusc_kolejki p s.m;
          cv = leave_all_events p s.cv;
        };
        returns = refl;
        locks = opusc_kolejki-locks p s.m v clean;
        events = leave_all_events-events p s.cv w;
        table = opusc_kolejki-IsTable p s.m v clean;
        cv_table = leave_all_events-IsCvTable p s.cv w;
        sends =
            wyslij_razy-sent e p j s1
            ∙ ap (λ l. l ++ replicate j (reply p e.eintr)) (wyslij_razy-sent e p k s)
            ∙ append_assoc s.sent _ _
            ∙ ap (λ l. s.sent ++ l) (sym (replicate-add k j (reply p e.eintr)));
        caller = (wyslij_razy-kept e p j s1).1 ∙ kept.1;
      })
