-- ===== src/Server/Run/Reports.antt =====
-- The reports of PM keep the sizes of the tables and the `start` nodes, and so does every message.
use mathlib.Core.Option
use minix_server_of_mutex_an.Base.{
  ℕ, zero, suc, ◌≡◌, refl, ap, ◌∙◌, sym, subst, ◌&&◌, Option, none, some, List, [], ◌∷◌, map, ℤ,
  equals, ◌==◌, length, ◌>>=◌, get_elem?, All, Bool-cases, inl, inr,
}
use minix_server_of_mutex_an.Queue.{Kolejka, usun_proces, czy_pusto}
use minix_server_of_mutex_an.State.{Mutex, ConditionVariable, Server, Env, wyslij_wiadomosc}
use minix_server_of_mutex_an.Slots.Map.{All-map}
use minix_server_of_mutex_an.Mutexes.{cs_unlock}
use minix_server_of_mutex_an.Signals.{
  eintr_mutex, eintr_mutexy, eintr_cv, eintr_wszystkie_cv, wyslij_eintr, oddaj_mutex, oddaj_mutexy,
  opusc_jedna_kolejke, opusc_kolejki, opusc_jedno_cv, opusc_cv, usun_zakonczony_proces,
}
use minix_server_of_mutex_an.Server.{Message, Typ, typ_of, odpowiedz, obsluz, obsluga_wiadomosci}
use minix_server_of_mutex_an.Server.Run.{
  IsSmiec, IsShaped, Shaped, ShapedResult, Shaped-none, Shaped-some, Shaped-bind, Shaped-if,
  Shaped-lookup, IsShaped-same, IsShaped-send,
}
use minix_server_of_mutex_an.Server.Run.Requests.{
  Shaped-cs_lock, Shaped-cs_unlock, Shaped-cs_wait, Shaped-cs_broadcast,
}

usun_proces-straznik : (q : Kolejka) (p : ℕ) → (usun_proces q p).1.straznik ≡ q.straznik
unfolding usun_proces
usun_proces-straznik q p = elim (Bool-cases (q.straznik == p)) [ inl e ↦ rw e | inr e ↦ rw e ]

length-map : {A B : Type 0} (f : A → B) (xs : List A) → length (map f xs) ≡ length xs
length-map f [] = refl
length-map f (x ∷ xs) = ap suc (length-map f xs)

module _ (slots cv_slots : ℕ) (smiec : ℕ → ℕ) where
  abbrev Starts : List Mutex → Type 0
  Starts = All (λ (x : Mutex). IsSmiec smiec x.kolejka.straznik)

  eintr_mutex_start :
      (e : Env) (p : ℕ) (x : Mutex) (s : Server)
      → IsSmiec smiec x.kolejka.straznik
      → IsSmiec smiec (eintr_mutex e p x s).0.kolejka.straznik
  unfolding eintr_mutex
  eintr_mutex_start e p x s h = elim (Bool-cases (czy_pusto x.kolejka)) [
    | inl f ↦ rw (eintr_mutex, f) h
    | inr f ↦ rw (eintr_mutex, f) (subst (IsSmiec smiec) (sym (usun_proces-straznik x.kolejka p)) h)
  ]

  length-eintr_mutexy :
      (e : Env) (p : ℕ) (xs : List Mutex) (s : Server)
      → length (eintr_mutexy e p xs s).0 ≡ length xs
  unfolding eintr_mutexy
  length-eintr_mutexy e p [] s = refl
  length-eintr_mutexy e p (x ∷ xs) s = ap suc (length-eintr_mutexy e p xs (eintr_mutex e p x s).1)

  eintr_mutexy-Starts :
      (e : Env) (p : ℕ) (xs : List Mutex) (s : Server)
      → Starts xs
      → Starts (eintr_mutexy e p xs s).0
  unfolding eintr_mutexy
  eintr_mutexy-Starts e p [] s h = tt
  eintr_mutexy-Starts e p (x ∷ xs) s (h, rest) =
      (eintr_mutex_start e p x s h, eintr_mutexy-Starts e p xs (eintr_mutex e p x s).1 rest)

  eintr_mutex-cv : (e : Env) (p : ℕ) (x : Mutex) (s : Server) → (eintr_mutex e p x s).1.cv ≡ s.cv
  unfolding eintr_mutex wyslij_wiadomosc
  eintr_mutex-cv e p x s = elim (Bool-cases (czy_pusto x.kolejka)) [
    | inl f ↦ rw (eintr_mutex, f)
    | inr f ↦ elim (Bool-cases (usun_proces x.kolejka p).0) [
      | inl g ↦ rw (eintr_mutex, f, g)
      | inr g ↦ rw (eintr_mutex, f, g)
    ]
  ]

  eintr_mutexy-cv :
      (e : Env) (p : ℕ) (xs : List Mutex) (s : Server) → (eintr_mutexy e p xs s).1.cv ≡ s.cv
  unfolding eintr_mutexy
  eintr_mutexy-cv e p [] s = refl
  eintr_mutexy-cv e p (x ∷ xs) s =
      eintr_mutexy-cv e p xs (eintr_mutex e p x s).1 ∙ eintr_mutex-cv e p x s

  -- If a removal from the events returns, there are as many as before.
  abbrev Keeps : {A : Type 0} → ℕ → (A → List ConditionVariable) → Option A → Type 0
  Keeps {A} n events r = (a : A) → r ≡ some a → length (events a) ≡ n

  Keeps-bind :
      {A B : Type 0} (n : ℕ) (events : B → List ConditionVariable) (r : Option A) (g : A → Option B)
      → ((a : A) → r ≡ some a → Keeps n events (g a))
      → Keeps n events (r >>= g)
  Keeps-bind n events none g next = λ b e. cc
  Keeps-bind n events (some a) g next = next a refl

  Keeps-some :
      {A : Type 0} (n : ℕ) (events : A → List ConditionVariable) (a : A)
      → length (events a) ≡ n
      → Keeps n events (some a)
  Keeps-some n events a h =
      λ b e. sym (ap (λ r. elim r [ none ↦ length (events a) | some x ↦ length (events x) ]) e) ∙ h

  length-eintr_cv :
      (e : Env) (p : ℕ) (cs : List ConditionVariable) (s : Server)
      → Keeps (length cs) (λ x. x.0) (eintr_wszystkie_cv e p cs s)
  unfolding eintr_wszystkie_cv
  length-eintr_cv e p [] s = Keeps-some 0 (λ x. x.0) ([], s) refl
  length-eintr_cv e p (c ∷ cs) s =
      Keeps-bind (suc (length cs)) (λ x. x.0) (eintr_cv e p c s) _
        λ (d, s1) f.
          Keeps-bind (suc (length cs)) (λ x. x.0) (eintr_wszystkie_cv e p cs s1) _
            λ (ds, s2) g.
              Keeps-some (suc (length cs)) (λ x. x.0) (d ∷ ds, s2)
                (ap suc (length-eintr_cv e p cs s1 (ds, s2) g))

  length-opusc_cv :
      (p : ℕ) (cs : List ConditionVariable) → Keeps (length cs) (λ ds. ds) (opusc_cv p cs)
  unfolding opusc_cv
  length-opusc_cv p [] = Keeps-some 0 (λ ds. ds) [] refl
  length-opusc_cv p (c ∷ cs) =
      Keeps-bind (suc (length cs)) (λ ds. ds) (opusc_jedno_cv p c) _
        λ d f.
          Keeps-bind (suc (length cs)) (λ ds. ds) (opusc_cv p cs) _
            λ ds g.
              Keeps-some (suc (length cs)) (λ xs. xs) (d ∷ ds) (ap suc (length-opusc_cv p cs ds g))

  Shaped-wyslij_eintr :
      (e : Env) (p : ℕ) (s : Server)
      → IsShaped slots cv_slots smiec s
      → Shaped slots cv_slots smiec (wyslij_eintr e p s)
  unfolding wyslij_eintr
  Shaped-wyslij_eintr e p s h =
      let s1 = (eintr_mutexy e p s.m s).1 in
      Shaped-lookup slots cv_slots smiec (eintr_wszystkie_cv e p s1.cv s1) _ λ (cs, s2) found.
        Shaped-some slots cv_slots smiec (record {
          m = length-eintr_mutexy e p s.m s ∙ h.m;
          cv =
              length-eintr_cv e p s1.cv s1 (cs, s2) found
              ∙ (ap length (eintr_mutexy-cv e p s.m s) ∙ h.cv);
          straznik = eintr_mutexy-Starts e p s.m s h.straznik;
        })

  Shaped-snd :
      (r : Option (ℤ × Server))
      → ShapedResult slots cv_slots smiec r
      → Shaped slots cv_slots smiec (Option.map (λ (_, t). t) r)
  Shaped-snd none h = Shaped-none slots cv_slots smiec
  Shaped-snd (some (a, t)) h = Shaped-some slots cv_slots smiec (h.keeps a t refl)

  Shaped-oddaj_mutex :
      (e : Env) (p : ℕ) (x : Mutex) (s : Server)
      → IsShaped slots cv_slots smiec s
      → Shaped slots cv_slots smiec (oddaj_mutex e p x s)
  unfolding oddaj_mutex
  Shaped-oddaj_mutex e p x s h =
      Shaped-if slots cv_slots smiec (x.uzywany && x.wlasciciel == p) _ _
        (Shaped-snd (cs_unlock e x.numer s) (Shaped-cs_unlock slots cv_slots smiec e x.numer s h))
        (Shaped-some slots cv_slots smiec h)

  Shaped-oddaj_mutexy :
      (e : Env) (p r i : ℕ) (s : Server)
      → IsShaped slots cv_slots smiec s
      → Shaped slots cv_slots smiec (oddaj_mutexy e p r i s)
  unfolding oddaj_mutexy
  Shaped-oddaj_mutexy e p zero i s h = Shaped-some slots cv_slots smiec h
  Shaped-oddaj_mutexy e p (suc r) i s h =
      Shaped-lookup slots cv_slots smiec (get_elem? s.m i) _ λ x found.
        Shaped-bind slots cv_slots smiec (oddaj_mutex e p x s) _ (Shaped-oddaj_mutex e p x s h)
          (Shaped-oddaj_mutexy e p r (suc i))

  opusc_start :
      (p : ℕ) (x : Mutex)
      → IsSmiec smiec x.kolejka.straznik
      → IsSmiec smiec (opusc_jedna_kolejke p x).kolejka.straznik
  unfolding opusc_jedna_kolejke
  opusc_start p x h = elim (Bool-cases (czy_pusto x.kolejka)) [
    | inl f ↦ rw (opusc_jedna_kolejke, f) h
    | inr f ↦
        rw (opusc_jedna_kolejke, f)
          (subst (IsSmiec smiec) (sym (usun_proces-straznik x.kolejka p)) h)
  ]

  Shaped-usun :
      (e : Env) (p : ℕ) (s : Server)
      → IsShaped slots cv_slots smiec s
      → Shaped slots cv_slots smiec (usun_zakonczony_proces e p s)
  unfolding usun_zakonczony_proces opusc_kolejki
  Shaped-usun e p s h =
      let t : Server = record s { aktualny_proces = p } in
      Shaped-bind slots cv_slots smiec (oddaj_mutexy e p (length s.m) 0 t) _
        (Shaped-oddaj_mutexy e p (length s.m) 0 t
          (IsShaped-same slots cv_slots smiec s t refl refl h))
        λ s1 h1. Shaped-lookup slots cv_slots smiec (opusc_cv p s1.cv) _ λ cs found.
          Shaped-some slots cv_slots smiec (record {
            m = length-map (opusc_jedna_kolejke p) s1.m ∙ h1.m;
            cv = length-opusc_cv p s1.cv cs found ∙ h1.cv;
            straznik =
                All-map (λ (x : Mutex). IsSmiec smiec x.kolejka.straznik)
                  (λ (x : Mutex). IsSmiec smiec x.kolejka.straznik) (opusc_jedna_kolejke p) s1.m
                  (opusc_start p) h1.straznik;
          })

  Shaped-odpowiedz :
      (e : Env) (r : Option (ℤ × Server))
      → ShapedResult slots cv_slots smiec r
      → Shaped slots cv_slots smiec (Option.map (odpowiedz e) r)
  Shaped-odpowiedz e none h = Shaped-none slots cv_slots smiec
  Shaped-odpowiedz e (some (a, t)) h = elim (Bool-cases (equals a e.edontreply)) [
    | inl f ↦ rw (odpowiedz, f) (Shaped-some slots cv_slots smiec (h.keeps a t refl))
    | inr f ↦
        rw (odpowiedz, f)
          (Shaped-some slots cv_slots smiec
            (IsShaped-send slots cv_slots smiec e a t.aktualny_proces t (h.keeps a t refl)))
  ]

  Shaped-obsluz :
      (e : Env) (msg : Message) (s : Server) (t : Typ)
      → IsShaped slots cv_slots smiec s
      → Shaped slots cv_slots smiec (obsluz e msg s t)
  Shaped-obsluz e msg s Typ.lock h =
      Shaped-odpowiedz e _ (Shaped-cs_lock slots cv_slots smiec e msg.m1_i1 s h)
  Shaped-obsluz e msg s Typ.unlock h =
      Shaped-odpowiedz e _ (Shaped-cs_unlock slots cv_slots smiec e msg.m1_i1 s h)
  Shaped-obsluz e msg s Typ.wait h =
      Shaped-odpowiedz e _ (Shaped-cs_wait slots cv_slots smiec e msg.m1_i2 msg.m1_i1 s h)
  Shaped-obsluz e msg s Typ.broadcast h =
      Shaped-odpowiedz e _ (Shaped-cs_broadcast slots cv_slots smiec e msg.m1_i2 s h)
  Shaped-obsluz e msg s Typ.eintr h = Shaped-wyslij_eintr e msg.pm_proc s h
  Shaped-obsluz e msg s Typ.exit h = Shaped-usun e msg.pm_proc s h
  Shaped-obsluz e msg s Typ.bad h = Shaped-some slots cv_slots smiec (
      IsShaped-send slots cv_slots smiec e e.einval s.aktualny_proces _
        (IsShaped-same slots cv_slots smiec s _ refl refl h))

  pub Shaped-obsluga :
      (e : Env) (msg : Message) (s : Server)
      → IsShaped slots cv_slots smiec s
      → Shaped slots cv_slots smiec (obsluga_wiadomosci e msg s)
  unfolding obsluga_wiadomosci
  Shaped-obsluga e msg s h =
      let t : Server = record s { aktualny_proces = msg.m_source } in
      Shaped-obsluz e msg t (typ_of msg.m_type) (IsShaped-same slots cv_slots smiec s t refl refl h)
