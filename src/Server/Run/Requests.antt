-- ===== src/Server/Run/Requests.antt =====
-- The requests of processes keep the sizes of the tables and the `start` nodes.
use mathlib.Core.Option
use minix_server_of_mutex_an.Base.{
  ℕ, zero, suc, ◌≡◌, refl, ap, sym, ◌∙◌, subst, Bool, true, false, Option, none, some, List, [],
  ◌∷◌, ℤ, pos, neg, equals, ◌==◌, ◌>>=◌, if◌then◌else◌, length, get_elem?, modify, length-modify,
  Option-cases, inl, inr,
}
use minix_server_of_mutex_an.Queue.{Kolejka, wstaw, pierwszy_kolejka, czy_pusto}
use minix_server_of_mutex_an.State.{Mutex, ConditionVariable, Server, Env, wyslij_wiadomosc}
use minix_server_of_mutex_an.Slots.{wolny}
use minix_server_of_mutex_an.Mutexes.{
  mutex_slotted, indeks_uzywanego_mutexa, zajmij, doloz, oznacz_wolny, przekaz, cs_lock_nowy,
  cs_lock_zajety, cs_lock, zwolnij, cs_unlock_zajety, cs_unlock,
}
use minix_server_of_mutex_an.Cvs.{
  cv_slotted, indeks_uzywanego_cv, zajmij_cv, dopisz, slot_cv, zapisz, czekaj, cs_wait, obudz,
  wyzeruj, obudz_wszystkie, zwolnij_cv, cs_broadcast,
}
use minix_server_of_mutex_an.Server.Run.{
  IsSmiec, IsShaped, All-get_elem?, Shaped, ShapedResult, Shaped-some, Shaped-bind, Shaped-lookup,
  ShapedResult-none, ShapedResult-some, ShapedResult-if, ShapedResult-lookup, Shaped-result,
  ShapedResult-then, ShapedResult-bind, IsShaped-m, IsShaped-cv, IsShaped-same, IsShaped-send,
}

-- The queue without its first process has its `start` node.
pierwszy_kolejka-straznik :
    (q : Kolejka) (nowy : ℕ) (q1 : Kolejka)
    → pierwszy_kolejka q ≡ some (nowy, q1)
    → q1.straznik ≡ q.straznik
unfolding pierwszy_kolejka
pierwszy_kolejka-straznik q nowy q1 e = rest q.elementy e
  where
    rest :
        (ps : List ℕ)
        → pierwszy_kolejka (record { straznik = q.straznik; elementy = ps }) ≡ some (nowy, q1)
        → q1.straznik ≡ q.straznik
    rest [] f = cc
    rest (p ∷ ps) f = sym (ap (λ r. elim r [ none ↦ q.straznik | some (n, q2) ↦ q2.straznik ]) f)

-- The extended queue has its `start` node.
wstaw-straznik :
    (malloc : Bool) (q : Kolejka) (p : ℕ) (q1 : Kolejka)
    → wstaw malloc q p ≡ some q1
    → q1.straznik ≡ q.straznik
unfolding wstaw
wstaw-straznik true q p q1 e =
    sym (ap (λ r. elim r [ none ↦ q.straznik | some q2 ↦ q2.straznik ]) e)
wstaw-straznik false q p q1 e = cc

module _ (slots cv_slots : ℕ) (smiec : ℕ → ℕ) where
  -- A case that depends on the index a search gives.
  Shaped-index :
      (r : Option ℕ) (x : Option (ℤ × Server)) (f : ℕ → Option (ℤ × Server))
      → ShapedResult slots cv_slots smiec x
      → ((i : ℕ) → ShapedResult slots cv_slots smiec (f i))
      → ShapedResult slots cv_slots smiec (elim r [ none ↦ x | some i ↦ f i ])
  Shaped-index none x f a b = a
  Shaped-index (some i) x f a b = b i

  pub Shaped-cs_lock :
      (e : Env) (n : ℕ) (s : Server)
      → IsShaped slots cv_slots smiec s
      → ShapedResult slots cv_slots smiec (cs_lock e n s)
  unfolding cs_lock cs_lock_nowy cs_lock_zajety
  Shaped-cs_lock e n s h =
      Shaped-index (indeks_uzywanego_mutexa s.m n) _ _
        (ShapedResult-lookup slots cv_slots smiec (wolny s.m) _ λ i found.
          ShapedResult-some slots cv_slots smiec e.ok
            (IsShaped-m slots cv_slots smiec i (zajmij n s.aktualny_proces) s (λ x g. g) h))
        λ i. ShapedResult-lookup slots cv_slots smiec (get_elem? s.m i) _ λ x found.
          ShapedResult-if slots cv_slots smiec (x.wlasciciel == s.aktualny_proces) _ _
            (ShapedResult-some slots cv_slots smiec e.eperm h)
            (ShapedResult-lookup slots cv_slots smiec
              (wstaw (e.malloc s) x.kolejka s.aktualny_proces) _
              λ q put.
                let same = wstaw-straznik (e.malloc s) x.kolejka s.aktualny_proces q put in
                ShapedResult-some slots cv_slots smiec e.edontreply (
                  IsShaped-m slots cv_slots smiec i (doloz q) s (λ y g. kept i x q s found same h)
                    h))
    where
      kept :
          (i : ℕ) (x : Mutex) (q : Kolejka) (s : Server)
          → get_elem? s.m i ≡ some x
          → q.straznik ≡ x.kolejka.straznik
          → IsShaped slots cv_slots smiec s
          → IsSmiec smiec q.straznik
      kept i x q s found same h =
          subst (IsSmiec smiec) (sym same)
            (All-get_elem? (λ (y : Mutex). IsSmiec smiec y.kolejka.straznik) s.m i h.straznik found)

  Shaped-zwolnij :
      (e : Env) (i : ℕ) (x : Mutex) (s : Server)
      → get_elem? s.m i ≡ some x
      → IsShaped slots cv_slots smiec s
      → ShapedResult slots cv_slots smiec (zwolnij e i x s)
  unfolding zwolnij
  Shaped-zwolnij e i x s found h =
      ShapedResult-if slots cv_slots smiec (czy_pusto x.kolejka) _ _
        (ShapedResult-some slots cv_slots smiec e.ok
          (IsShaped-m slots cv_slots smiec i oznacz_wolny s (λ x g. g) h))
        (ShapedResult-lookup slots cv_slots smiec (pierwszy_kolejka x.kolejka) _ λ (nowy, q) first.
          let here =
            subst (IsSmiec smiec) (sym (pierwszy_kolejka-straznik x.kolejka nowy q first)) (
              All-get_elem? (λ (y : Mutex). IsSmiec smiec y.kolejka.straznik) s.m i h.straznik
                found) in
          ShapedResult-some slots cv_slots smiec e.ok (
            IsShaped-send slots cv_slots smiec e (pos 0) nowy _
              (IsShaped-m slots cv_slots smiec i (przekaz nowy q) s (λ y g. here) h)))

  pub Shaped-cs_unlock :
      (e : Env) (n : ℕ) (s : Server)
      → IsShaped slots cv_slots smiec s
      → ShapedResult slots cv_slots smiec (cs_unlock e n s)
  unfolding cs_unlock cs_unlock_zajety
  Shaped-cs_unlock e n s h =
      Shaped-index (indeks_uzywanego_mutexa s.m n) _ _
        (ShapedResult-some slots cv_slots smiec e.eperm h)
        λ i. ShapedResult-lookup slots cv_slots smiec (get_elem? s.m i) _ λ x found.
          ShapedResult-if slots cv_slots smiec (x.wlasciciel == s.aktualny_proces) _ _
            (Shaped-zwolnij e i x s found h) (ShapedResult-some slots cv_slots smiec e.eperm h)

  -- The table of events keeps its size.
  abbrev size_of : ℕ → Option (ℕ × List ConditionVariable) → ℕ
  size_of d none = d
  size_of d (some (j, cs)) = length cs

  -- The slot, by what the two searches give.
  abbrev slot :
      ℕ → List ConditionVariable → Option ℕ → Option ℕ → Option (ℕ × List ConditionVariable)
  slot n cs a b = elim a [
    | some j ↦ some (j, cs)
    | none ↦ Option.map (λ j. (j, modify cs j (zajmij_cv n))) b
  ]

  length-slot :
      (n i : ℕ) (cs ds : List ConditionVariable) (a b : Option ℕ)
      → slot n cs a b ≡ some (i, ds)
      → length ds ≡ length cs
  length-slot n i cs ds (some j) b e = sym (ap (size_of 0) e)
  length-slot n i cs ds none (some j) e = sym (ap (size_of 0) e) ∙ length-modify cs j (zajmij_cv n)
  length-slot n i cs ds none none e = cc

  length-slot_cv :
      (n i : ℕ) (cs ds : List ConditionVariable)
      → slot_cv n cs ≡ some (i, ds)
      → length ds ≡ length cs
  unfolding slot_cv
  length-slot_cv n i cs ds e = length-slot n i cs ds (indeks_uzywanego_cv cs n) (wolny cs) e

  Shaped-zapisz :
      (n p m : ℕ) (s : Server) (a : ℤ)
      → IsShaped slots cv_slots smiec s
      → ShapedResult slots cv_slots smiec
          (do cs ← zapisz n p m s.cv; some (a, record s { cv = cs }))
  unfolding zapisz
  Shaped-zapisz n p m s a h = elim (Option-cases (slot_cv n s.cv)) [
    | inl e ↦ rw (zapisz, e) (ShapedResult-none slots cv_slots smiec)
    | inr ((i, ds), e) ↦ elim (Option-cases (get_elem? ds i)) [
      | inl f ↦ rw (zapisz, e, f) (ShapedResult-none slots cv_slots smiec)
      | inr (c, f) ↦ elim (Option-cases (dopisz p m c)) [
        | inl g ↦ rw (zapisz, e, f, g) (ShapedResult-none slots cv_slots smiec)
        | inr (d, g) ↦
            rw (zapisz, e, f, g)
              (ShapedResult-some slots cv_slots smiec a (
                IsShaped-cv slots cv_slots smiec i (λ _. d) (record s { cv = ds })
                  (record {
                    m = h.m;
                    cv = length-slot_cv n i s.cv ds e ∙ h.cv;
                    straznik = h.straznik;
                  })))
      ]
    ]
  ]

  pub Shaped-cs_wait :
      (e : Env) (n m : ℕ) (s : Server)
      → IsShaped slots cv_slots smiec s
      → ShapedResult slots cv_slots smiec (cs_wait e n m s)
  unfolding cs_wait czekaj
  Shaped-cs_wait e n m s h =
      Shaped-index (indeks_uzywanego_mutexa s.m m) _ _
        (ShapedResult-some slots cv_slots smiec (neg e.einval) h)
        λ i. ShapedResult-lookup slots cv_slots smiec (get_elem? s.m i) _ λ x found.
          ShapedResult-if slots cv_slots smiec (x.wlasciciel == s.aktualny_proces) _ _
            (ShapedResult-then slots cv_slots smiec (cs_unlock e m s) _ (Shaped-cs_unlock e m s h)
              λ a s1 h1. Shaped-zapisz n s1.aktualny_proces m s1 e.edontreply h1)
            (ShapedResult-some slots cv_slots smiec (neg e.einval) h)

  Shaped-obudz :
      (e : Env) (p n : ℕ) (s : Server)
      → IsShaped slots cv_slots smiec s
      → Shaped slots cv_slots smiec (obudz e p n s)
  unfolding obudz
  Shaped-obudz e p n s h =
      let t : Server = record s { aktualny_proces = p } in
      Shaped-result slots cv_slots smiec (cs_lock e n t) _
        (Shaped-cs_lock e n t (IsShaped-same slots cv_slots smiec s t refl refl h))
        λ a s1 h1. Shaped-some slots cv_slots smiec (
          answered (equals a e.edontreply) s1 (wyslij_wiadomosc e (pos 0) p s1) h1
            (IsShaped-send slots cv_slots smiec e (pos 0) p s1 h1))
    where
      answered :
          (b : Bool) (s t : Server)
          → IsShaped slots cv_slots smiec s
          → IsShaped slots cv_slots smiec t
          → IsShaped slots cv_slots smiec (if b then s else t)
      answered true s t a b = a
      answered false s t a b = b

  Shaped-obudz_wszystkie :
      (e : Env) (r i j : ℕ) (s : Server)
      → IsShaped slots cv_slots smiec s
      → Shaped slots cv_slots smiec (obudz_wszystkie e r i j s)
  unfolding obudz_wszystkie
  Shaped-obudz_wszystkie e zero i j s h = Shaped-some slots cv_slots smiec h
  Shaped-obudz_wszystkie e (suc r) i j s h =
      Shaped-lookup slots cv_slots smiec (get_elem? s.cv i) _ λ c found.
        Shaped-lookup slots cv_slots smiec (get_elem? c.procesy j) _ λ p at_p.
          Shaped-lookup slots cv_slots smiec (get_elem? c.muteksy j) _ λ n at_n.
            Shaped-bind slots cv_slots smiec (obudz e p n s) _ (Shaped-obudz e p n s h) λ s1 h1.
              Shaped-obudz_wszystkie e r i (suc j) _
                (IsShaped-cv slots cv_slots smiec i (wyzeruj j) s1 h1)

  pub Shaped-cs_broadcast :
      (e : Env) (n : ℕ) (s : Server)
      → IsShaped slots cv_slots smiec s
      → ShapedResult slots cv_slots smiec (cs_broadcast e n s)
  unfolding cs_broadcast
  Shaped-cs_broadcast e n s h =
      Shaped-index (indeks_uzywanego_cv s.cv n) _ _ (ShapedResult-some slots cv_slots smiec e.ok h)
        λ i. ShapedResult-lookup slots cv_slots smiec (get_elem? s.cv i) _ λ c found.
          ShapedResult-bind slots cv_slots smiec (obudz_wszystkie e c.size i 0 s) _
            (Shaped-obudz_wszystkie e c.size i 0 s h)
            λ s1 h1. ShapedResult-some slots cv_slots smiec e.ok (
              IsShaped-same slots cv_slots smiec (record s1 { cv = modify s1.cv i zwolnij_cv })
                (record s1 { aktualny_proces = s.aktualny_proces; cv = modify s1.cv i zwolnij_cv })
                refl refl (IsShaped-cv slots cv_slots smiec i zwolnij_cv s1 h1))
