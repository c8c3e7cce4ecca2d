-- ===== src/Server/Start.antt =====
-- The tables as `main` of projekt/servers/cv/main.c leaves them before its loop.
use mathlib.Core.Option
use minix_server_of_mutex_an.Base.{
  ℕ, ◌<◌, zero, suc, ◌≡◌, refl, ap, sym, subst, true, false, Option, none, some, List, [], ◌∷◌,
  ◌>>=◌, map, All, replicate, length, All-replicate, length-replicate, arith,
}
use minix_server_of_mutex_an.Queue.{Kolejka}
use minix_server_of_mutex_an.State.{
  Mutex, ConditionVariable, Server, init, utworz_mutexy, przydzielone, pusty_mutex, zero_cv,
  oproznij_cv, max_mutex, max_cv, max_procesy,
}
use minix_server_of_mutex_an.Slots.{Slotted}
use minix_server_of_mutex_an.Slots.Table.{szukaj, Distinct, uzywane}
use minix_server_of_mutex_an.Mutexes.{mutex_slotted}
use minix_server_of_mutex_an.Mutexes.View.{IsTable, IsIdle, held_by, locks_of}
use minix_server_of_mutex_an.Cvs.{cv_slotted}
use minix_server_of_mutex_an.Cvs.View.{IsSized, waiters_in, IsCvTable, events_of}
use minix_server_of_mutex_an.Server.Run.{IsSmiec}

-- A table of free slots.
module _ {A : Type 0} ⦃t : Slotted A⦄ where
  abbrev IsFree : A → Type 0
  IsFree x = t.uzywany x ≡ false

  szukaj-free : (xs : List A) (n : ℕ) → All IsFree xs → szukaj xs n ≡ none
  unfolding szukaj
  szukaj-free [] n free = refl
  szukaj-free (x ∷ xs) n (one, free) = rw one (szukaj-free xs n free)

  Distinct-free : (xs : List A) → All IsFree xs → Distinct xs
  unfolding Distinct
  Distinct-free [] free = tt
  Distinct-free (x ∷ xs) (one, free) =
      ((λ u. szukaj-free xs (t.numer x) free), Distinct-free xs free)

  uzywane-free : (xs : List A) → All IsFree xs → uzywane xs ≡ 0
  unfolding uzywane
  uzywane-free [] free = refl
  uzywane-free (x ∷ xs) (one, free) = ground (arith, one, uzywane-free xs free)

-- The mutexes after the first loop.
record Ready (smiec : ℕ → ℕ) (r : ℕ) (result : Option (List Mutex)) : Type 0 where
  ms : List Mutex
  returns : result ≡ some ms
  slots : length ms ≡ r
  free : All (λ (x : Mutex). x.uzywany ≡ false) ms
  idle : All IsIdle ms
  nodes : All (λ (x : Mutex). IsSmiec smiec x.kolejka.straznik) ms

utworz_mutexy-Ready :
    (smiec : ℕ → ℕ) (r i : ℕ) → Ready smiec r (utworz_mutexy (przydzielone smiec) r i)
unfolding utworz_mutexy
utworz_mutexy-Ready smiec zero i = record {
  ms = [];
  returns = refl;
  slots = refl;
  free = tt;
  idle = tt;
  nodes = tt;
}
utworz_mutexy-Ready smiec (suc r) i =
    let rest = utworz_mutexy-Ready smiec r (suc i) in
    let q : Kolejka = record { straznik = smiec i; elementy = [] } in
    record {
      ms = pusty_mutex q ∷ rest.ms;
      returns = ap (λ x. x >>= λ ms. some (pusty_mutex q ∷ ms)) rest.returns;
      slots = ap suc rest.slots;
      free = (refl, rest.free);
      idle = ((λ u. refl), rest.idle);
      nodes = ((i, refl), rest.nodes);
    }

map-replicate :
    {A B : Type 0} (f : A → B) (n : ℕ) (a : A) → map f (replicate n a) ≡ replicate n (f a)
map-replicate f zero a = refl
map-replicate f (suc n) a = ap (λ xs. f a ∷ xs) (map-replicate f n a)

-- The events after the second loop.
record CvReady (cs : List ConditionVariable) : Type 0 where
  slots : length cs ≡ max_cv
  free : All (λ (c : ConditionVariable). c.uzywany ≡ false) cs
  sized : All (IsSized max_procesy) cs
  busy : All (λ (c : ConditionVariable). c.uzywany ≡ true → 0 < c.size) cs

cv_ready : CvReady (map oproznij_cv (replicate max_cv zero_cv))
cv_ready = subst CvReady (sym (map-replicate oproznij_cv max_cv zero_cv)) (record {
  slots = length-replicate max_cv zero_cv;
  free = All-replicate (λ (c : ConditionVariable). c.uzywany ≡ false) max_cv {a = zero_cv} refl;
  sized = All-replicate (IsSized max_procesy) max_cv {a = zero_cv} (record {
    procesy = length-replicate {A = ℕ} max_procesy 0;
    muteksy = length-replicate {A = ℕ} max_procesy 0;
    size = omega arith;
  });
  busy =
      All-replicate (λ (c : ConditionVariable). c.uzywany ≡ true → 0 < c.size) max_cv {a = zero_cv}
        (λ u. cc);
})

-- A server with all its slots, none of them used, where nobody has or waits for anything.
pub record IsStart (smiec : ℕ → ℕ) (r : Option Server) : Type 0 where
  pub after : Server
  pub returns : r ≡ some after
  pub locks : (n : ℕ) → locks_of after.m n ≡ none
  pub events : (n : ℕ) → events_of after.cv n ≡ []
  pub table : IsTable after.m
  pub cv_table : IsCvTable max_procesy after.cv
  pub slots : length after.m ≡ max_mutex
  pub cv_slots : length after.cv ≡ max_cv
  pub nodes : All (λ (x : Mutex). IsSmiec smiec x.kolejka.straznik) after.m

pub init-IsStart : (smiec : ℕ → ℕ) → IsStart smiec (init (przydzielone smiec))
unfolding init
init-IsStart smiec =
    let cs = map oproznij_cv (replicate max_cv zero_cv) in
    let c = cv_ready in
    let start : List Mutex → Server =
      λ ms. record { m = ms; cv = cs; aktualny_proces = 0; sent = []; printed = [] } in
    let r = utworz_mutexy-Ready smiec max_mutex 0 in
    record {
      after = start r.ms;
      returns = ap (λ x. x >>= λ ms. some (start ms)) r.returns;
      locks = λ n. ap (Option.map held_by) (szukaj-free r.ms n r.free);
      events = λ n. ap waiters_in (szukaj-free cs n c.free);
      table = record { distinct = Distinct-free r.ms r.free; idle = r.idle };
      cv_table = record { distinct = Distinct-free cs c.free; sized = c.sized; busy = c.busy };
      slots = r.slots;
      cv_slots = c.slots;
      nodes = r.nodes;
    }
