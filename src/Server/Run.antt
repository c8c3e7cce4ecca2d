-- ===== src/Server/Run.antt =====
-- What the handlers of projekt/servers/cv/main.c leave alone: the sizes of the tables, and the
-- `start` nodes of the queues.
pub mod Bounded
pub mod Counts
pub mod Requests
pub mod Room
pub mod Sound
pub mod Places
pub mod Reports
pub mod Steps
pub mod Wakes
pub mod Ends
pub mod Ended
pub mod Stays
pub mod Gone
pub mod Once
pub mod Interrupted
pub mod Woken
use mathlib.Core.Option
use minix_server_of_mutex_an.Base.{
  ℕ, zero, suc, ◌≡◌, refl, ap, sym, ◌∙◌, subst, Bool, true, false, not, ◌&&◌, Option, none, some,
  List, [], ◌∷◌, ◌++◌, map, ℤ, pos, neg, equals, ltb, ◌==◌, ◌>>=◌, if◌then◌else◌, length, get_elem?,
  set, modify, length-modify, All, Option-cases, Bool-cases, inl, inr,
}
use minix_server_of_mutex_an.Queue.{Kolejka, wstaw, pierwszy_kolejka, czy_pusto, usun_proces}
use minix_server_of_mutex_an.State.{Mutex, ConditionVariable, Server, Env, wyslij_wiadomosc}
use minix_server_of_mutex_an.Slots.{wolny, indeks}
use minix_server_of_mutex_an.Slots.Write.{All-modify}
use minix_server_of_mutex_an.Mutexes.{
  mutex_slotted, indeks_uzywanego_mutexa, zajmij, doloz, oznacz_wolny, przekaz, cs_lock_nowy,
  cs_lock_zajety, cs_lock, zwolnij, cs_unlock_zajety, cs_unlock,
}
use minix_server_of_mutex_an.Cvs.{
  cv_slotted, indeks_uzywanego_cv, zajmij_cv, dopisz, slot_cv, zapisz, czekaj, cs_wait, obudz,
  wyzeruj, obudz_wszystkie, zwolnij_cv, cs_broadcast,
}

-- The values that `malloc` left in the `start` nodes are those of `smiec`.
abbrev pub IsSmiec : (ℕ → ℕ) → ℕ → Type 0
IsSmiec smiec v = (i : ℕ) × (smiec i ≡ v)

-- Tables of `slots` mutexes and `cv_slots` events, with values of `smiec` in the `start` nodes.
pub record IsShaped (slots cv_slots : ℕ) (smiec : ℕ → ℕ) (s : Server) : Type 0 where
  pub m : length s.m ≡ slots
  pub cv : length s.cv ≡ cv_slots
  pub straznik : All (λ (x : Mutex). IsSmiec smiec x.kolejka.straznik) s.m

get_same : {A : Type 0} {x y : A} → some y ≡ some x → y ≡ x
get_same e = cc e

pub All-get_elem? :
    {A : Type 0} (P : A → Type 0) (xs : List A) (i : ℕ) {x : A}
    → All P xs
    → get_elem? xs i ≡ some x
    → P x
All-get_elem? P [] i all e = cc
All-get_elem? P (y ∷ ys) zero (a, rest) e = subst P (get_same e) a
All-get_elem? P (y ∷ ys) (suc i) (a, rest) e = All-get_elem? P ys i rest e

module _ (slots cv_slots : ℕ) (smiec : ℕ → ℕ) where
  -- If a step returns, the tables are as they were.
  pub record Shaped (r : Option Server) : Type 0 where
    pub keeps : (t : Server) → r ≡ some t → IsShaped slots cv_slots smiec t

  pub record ShapedResult (r : Option (ℤ × Server)) : Type 0 where
    pub keeps : (a : ℤ) (t : Server) → r ≡ some (a, t) → IsShaped slots cv_slots smiec t

  pub Shaped-none : Shaped none
  Shaped-none = record { keeps = λ t e. cc }

  pub Shaped-some : {s : Server} → IsShaped slots cv_slots smiec s → Shaped (some s)
  Shaped-some {s} h = record {
    keeps = λ t e. let same : s ≡ t = cc e in subst (IsShaped slots cv_slots smiec) same h;
  }

  pub Shaped-bind :
      (r : Option Server) (g : Server → Option Server)
      → Shaped r
      → ((s : Server) → IsShaped slots cv_slots smiec s → Shaped (g s))
      → Shaped (r >>= g)
  Shaped-bind none g h next = Shaped-none
  Shaped-bind (some s) g h next = next s (h.keeps s refl)

  pub Shaped-if :
      (b : Bool) (x y : Option Server) → Shaped x → Shaped y → Shaped (if b then x else y)
  Shaped-if true x y a b = a
  Shaped-if false x y a b = b

  -- A lookup, and what follows where it finds something.
  pub Shaped-lookup :
      {A : Type 0} (r : Option A) (g : A → Option Server)
      → ((a : A) → r ≡ some a → Shaped (g a))
      → Shaped (r >>= g)
  Shaped-lookup none g next = Shaped-none
  Shaped-lookup (some a) g next = next a refl

  pub ShapedResult-none : ShapedResult none
  ShapedResult-none = record { keeps = λ a t e. cc }

  pub ShapedResult-some :
      (a : ℤ) {s : Server} → IsShaped slots cv_slots smiec s → ShapedResult (some (a, s))
  ShapedResult-some a {s} h = record {
    keeps = λ b t e.
        let same : s ≡ t = ap (λ x. elim x [ none ↦ s | some (c, u) ↦ u ]) e in
        subst (IsShaped slots cv_slots smiec) same h;
  }

  pub ShapedResult-if :
      (b : Bool) (x y : Option (ℤ × Server))
      → ShapedResult x
      → ShapedResult y
      → ShapedResult (if b then x else y)
  ShapedResult-if true x y a b = a
  ShapedResult-if false x y a b = b

  pub ShapedResult-lookup :
      {A : Type 0} (r : Option A) (g : A → Option (ℤ × Server))
      → ((a : A) → r ≡ some a → ShapedResult (g a))
      → ShapedResult (r >>= g)
  ShapedResult-lookup none g next = ShapedResult-none
  ShapedResult-lookup (some a) g next = next a refl

  -- A result, and what follows it.
  pub Shaped-result :
      (r : Option (ℤ × Server)) (g : ℤ × Server → Option Server)
      → ShapedResult r
      → ((a : ℤ) (s : Server) → IsShaped slots cv_slots smiec s → Shaped (g (a, s)))
      → Shaped (r >>= g)
  Shaped-result none g h next = Shaped-none
  Shaped-result (some (a, s)) g h next = next a s (h.keeps a s refl)

  pub ShapedResult-then :
      (r : Option (ℤ × Server)) (g : ℤ × Server → Option (ℤ × Server))
      → ShapedResult r
      → ((a : ℤ) (s : Server) → IsShaped slots cv_slots smiec s → ShapedResult (g (a, s)))
      → ShapedResult (r >>= g)
  ShapedResult-then none g h next = ShapedResult-none
  ShapedResult-then (some (a, s)) g h next = next a s (h.keeps a s refl)

  pub ShapedResult-bind :
      (r : Option Server) (g : Server → Option (ℤ × Server))
      → Shaped r
      → ((s : Server) → IsShaped slots cv_slots smiec s → ShapedResult (g s))
      → ShapedResult (r >>= g)
  ShapedResult-bind none g h next = ShapedResult-none
  ShapedResult-bind (some s) g h next = next s (h.keeps s refl)

  -- A write to a slot of the mutexes, and one to a slot of the events.
  pub IsShaped-m :
      (i : ℕ) (f : Mutex → Mutex) (s : Server)
      → ((x : Mutex) → IsSmiec smiec x.kolejka.straznik → IsSmiec smiec (f x).kolejka.straznik)
      → IsShaped slots cv_slots smiec s
      → IsShaped slots cv_slots smiec (record s { m = modify s.m i f })
  IsShaped-m i f s keeps h = record {
    m = length-modify s.m i f ∙ h.m;
    cv = h.cv;
    straznik =
        All-modify (λ (x : Mutex). IsSmiec smiec x.kolejka.straznik) f s.m i keeps h.straznik;
  }

  pub IsShaped-cv :
      (i : ℕ) (f : ConditionVariable → ConditionVariable) (s : Server)
      → IsShaped slots cv_slots smiec s
      → IsShaped slots cv_slots smiec (record s { cv = modify s.cv i f })
  IsShaped-cv i f s h = record {
    m = h.m;
    cv = length-modify s.cv i f ∙ h.cv;
    straznik = h.straznik;
  }

  -- A change of other fields.
  pub IsShaped-same :
      (s t : Server)
      → t.m ≡ s.m
      → t.cv ≡ s.cv
      → IsShaped slots cv_slots smiec s
      → IsShaped slots cv_slots smiec t
  IsShaped-same s t m cv h = record {
    m = ap length m ∙ h.m;
    cv = ap length cv ∙ h.cv;
    straznik = subst (All (λ (x : Mutex). IsSmiec smiec x.kolejka.straznik)) (sym m) h.straznik;
  }

  pub IsShaped-send :
      (e : Env) (typ : ℤ) (to : ℕ) (s : Server)
      → IsShaped slots cv_slots smiec s
      → IsShaped slots cv_slots smiec (wyslij_wiadomosc e typ to s)
  unfolding wyslij_wiadomosc
  IsShaped-send e typ to s = IsShaped-same s (wyslij_wiadomosc e typ to s) refl refl
