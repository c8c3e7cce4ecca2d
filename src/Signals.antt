-- ===== src/Signals.antt =====
-- projekt/servers/cv/main.c: what the server does when PM reports a signal or the end of a process.
pub mod Eintr
pub mod Exit
pub mod Handover
pub mod Leave
pub mod Plain
pub mod Reach
pub mod Shift
pub mod Remove
use mathlib.Core.Option
use minix_server_of_mutex_an.Base.{
  ℕ, zero, suc, ◌+◌, ◌-◌, Bool, true, false, not, ◌&&◌, Option, none, some, List, [], ◌∷◌, map,
  ◌==◌, if◌then◌else◌, ◌>>=◌, length, get_elem?, set,
}
use minix_server_of_mutex_an.Queue.{Kolejka, usun_proces, czy_pusto}
use minix_server_of_mutex_an.State.{Mutex, ConditionVariable, Server, Env, wyslij_wiadomosc}
use minix_server_of_mutex_an.Mutexes.{cs_unlock}

-- `FOR(j, 0, size - 1) if (procesy[j] == proces)`: the first such index, if there is one. A read past
-- the array is `none`.
unfoldable pub indeks_procesu : ℕ → List ℕ → ℕ → Option (Option ℕ)
indeks_procesu zero ps proces = some none
indeks_procesu (suc r) [] proces = none
indeks_procesu (suc r) (p ∷ ps) proces =
    let rest = indeks_procesu r ps proces in
    if p == proces then some (some 0) else Option.map (Option.map suc) rest

-- `a[d] = a[d + 1]`
unfoldable pub przenies : ℕ → List ℕ → Option (List ℕ)
przenies d xs = do v ← get_elem? xs (suc d); some (set xs d v)

-- `a[j - 1] = a[j]` for `j = d + 1` and on, with the rounds that are left.
unfoldable pub przesun : ℕ → ℕ → List ℕ → Option (List ℕ)
unfolding przenies
przesun zero d xs = some xs
przesun (suc r) d xs = do ys ← przenies d xs; przesun r (suc d) ys

unfoldable pub usun_zakonczony_proces_cv : ConditionVariable → ℕ → Option ConditionVariable
unfolding przesun
usun_zakonczony_proces_cv c i = if c.size == 1 then some (record c { uzywany = false }) else do
  procesy ← przesun (c.size - (i + 1)) i c.procesy
  muteksy ← przesun (c.size - (i + 1)) i c.muteksy
  some (record c { procesy = procesy; muteksy = muteksy; size = c.size - 1 })

-- One round of the first loop of `wyslijEINTR`.
unfoldable pub eintr_mutex : Env → ℕ → Mutex → Server → Mutex × Server
eintr_mutex e proces x s =
    if czy_pusto x.kolejka
    then (x, s)
    else let (jest, q) = usun_proces x.kolejka proces in
      (record x { kolejka = q }, if jest then wyslij_wiadomosc e e.eintr proces s else s)

unfoldable pub eintr_mutexy : Env → ℕ → List Mutex → Server → List Mutex × Server
unfolding eintr_mutex
eintr_mutexy e proces [] s = ([], s)
eintr_mutexy e proces (x ∷ xs) s =
    let (x', s1) = eintr_mutex e proces x s in
    let (xs', s2) = eintr_mutexy e proces xs s1 in (x' ∷ xs', s2)

-- What `wyslijEINTR` does where it found the process in an event, or did not.
unfoldable pub eintr_znaleziony :
    Env → ℕ → ConditionVariable → Server → Option ℕ → Option (ConditionVariable × Server)
unfolding usun_zakonczony_proces_cv
eintr_znaleziony e proces c s none = some (c, s)
eintr_znaleziony e proces c s (some j) = do
  d ← usun_zakonczony_proces_cv c j
  some (d, wyslij_wiadomosc e e.eintr proces s)

-- One round of the second loop of `wyslijEINTR`.
unfoldable pub eintr_cv : Env → ℕ → ConditionVariable → Server → Option (ConditionVariable × Server)
unfolding eintr_znaleziony indeks_procesu
eintr_cv e proces c s =
    if c.uzywany
    then (do found ← indeks_procesu c.size c.procesy proces; eintr_znaleziony e proces c s found)
    else some (c, s)

unfoldable pub eintr_wszystkie_cv :
    Env → ℕ → List ConditionVariable → Server → Option (List ConditionVariable × Server)
unfolding eintr_cv
eintr_wszystkie_cv e proces [] s = some ([], s)
eintr_wszystkie_cv e proces (c ∷ cs) s = do
  (d, s1) ← eintr_cv e proces c s
  (ds, s2) ← eintr_wszystkie_cv e proces cs s1
  some (d ∷ ds, s2)

-- `wyslijEINTR`
unfoldable pub wyslij_eintr : Env → ℕ → Server → Option Server
unfolding eintr_mutexy eintr_wszystkie_cv
wyslij_eintr e proces s =
    let (ms, s1) = eintr_mutexy e proces s.m s in
    do (cs, s2) ← eintr_wszystkie_cv e proces s1.cv s1; some (record s2 { m = ms; cv = cs })

-- One round of the first loop of `usunZakonczonyProces`, for the slot that holds `x`.
unfoldable pub oddaj_mutex : Env → ℕ → Mutex → Server → Option Server
oddaj_mutex e proces x s =
    if x.uzywany && x.wlasciciel == proces
    then Option.map (λ (_, t). t) (cs_unlock e x.numer s)
    else some s

-- The first loop of `usunZakonczonyProces`, with the rounds that are left.
unfoldable pub oddaj_mutexy : Env → ℕ → ℕ → ℕ → Server → Option Server
unfolding oddaj_mutex
oddaj_mutexy e proces zero i s = some s
oddaj_mutexy e proces (suc r) i s = do
  x ← get_elem? s.m i
  s1 ← oddaj_mutex e proces x s
  oddaj_mutexy e proces r (suc i) s1

-- One round of the second loop of `usunZakonczonyProces`.
unfoldable pub opusc_jedna_kolejke : ℕ → Mutex → Mutex
opusc_jedna_kolejke proces x =
    if czy_pusto x.kolejka then x else record x { kolejka = (usun_proces x.kolejka proces).1 }

-- The second loop of `usunZakonczonyProces`.
unfoldable pub opusc_kolejki : ℕ → List Mutex → List Mutex
unfolding opusc_jedna_kolejke
opusc_kolejki proces = map (opusc_jedna_kolejke proces)

-- What `usunZakonczonyProces` does where it found the process in an event, or did not.
unfoldable pub opusc_znaleziony : ConditionVariable → Option ℕ → Option ConditionVariable
unfolding usun_zakonczony_proces_cv
opusc_znaleziony c none = some c
opusc_znaleziony c (some j) = usun_zakonczony_proces_cv c j

-- One round of the third loop of `usunZakonczonyProces`.
unfoldable pub opusc_jedno_cv : ℕ → ConditionVariable → Option ConditionVariable
unfolding opusc_znaleziony indeks_procesu
opusc_jedno_cv proces c =
    if c.uzywany
    then (do found ← indeks_procesu c.size c.procesy proces; opusc_znaleziony c found)
    else some c

-- The third loop of `usunZakonczonyProces`.
unfoldable pub opusc_cv : ℕ → List ConditionVariable → Option (List ConditionVariable)
unfolding opusc_jedno_cv
opusc_cv proces [] = some []
opusc_cv proces (c ∷ cs) = do d ← opusc_jedno_cv proces c; ds ← opusc_cv proces cs; some (d ∷ ds)

-- `usunZakonczonyProces`
unfoldable pub usun_zakonczony_proces : Env → ℕ → Server → Option Server
unfolding oddaj_mutexy opusc_kolejki opusc_cv
usun_zakonczony_proces e proces s = do
  s1 ← oddaj_mutexy e proces (length s.m) 0 (record s { aktualny_proces = proces })
  cs ← opusc_cv proces s1.cv
  some (record s1 { m = opusc_kolejki proces s1.m; cv = cs; aktualny_proces = s.aktualny_proces })
