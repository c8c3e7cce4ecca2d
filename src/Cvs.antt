-- ===== src/Cvs.antt =====
-- projekt/servers/cv/main.c: the table of condition variables, `cs_wait` and `cs_broadcast`.
pub mod Arrays
pub mod Broadcast
pub mod View
pub mod Wait
use mathlib.Core.Option
use minix_server_of_mutex_an.Base.{
  ℕ, zero, suc, ◌+◌, ◌-◌, Bool, true, false, not, ◌&&◌, Option, none, some, List, [], ◌∷◌, ℤ, pos,
  neg, equals, ltb, ◌==◌, if◌then◌else◌, ◌>>=◌, length, get_elem?, set, modify,
}
use minix_server_of_mutex_an.Slots.{Slotted, indeks, wolny}
use minix_server_of_mutex_an.State.{ConditionVariable, Server, Env, wyslij_wiadomosc}
use minix_server_of_mutex_an.Mutexes.{indeks_uzywanego_mutexa, cs_lock, cs_unlock}

instance abbrev pub cv_slotted : Slotted ConditionVariable
cv_slotted = record { uzywany = λ c. c.uzywany; numer = λ c. c.numer }

-- `indeksUzywanegoCv`
abbrev pub indeks_uzywanego_cv : List ConditionVariable → ℕ → Option ℕ
indeks_uzywanego_cv = indeks

abbrev pub zajmij_cv : ℕ → ConditionVariable → ConditionVariable
zajmij_cv numer c = record c { size = 0; uzywany = true; numer = numer }

-- The writes to `procesy[size]` and `muteksy[size]`, and `size++`.
unfoldable pub dopisz : ℕ → ℕ → ConditionVariable → Option ConditionVariable
dopisz proces mutex c =
    if ltb c.size (length c.procesy) && ltb c.size (length c.muteksy)
    then some (record c {
      procesy = set c.procesy c.size proces;
      muteksy = set c.muteksy c.size mutex;
      size = c.size + 1;
    })
    else none

-- The part of `cs_wait` that finds the slot of the event, or makes one.
unfoldable pub slot_cv : ℕ → List ConditionVariable → Option (ℕ × List ConditionVariable)
slot_cv numer cs = elim (indeks_uzywanego_cv cs numer) [
  | some i ↦ some (i, cs)
  | none ↦ Option.map (λ i. (i, modify cs i (zajmij_cv numer))) (wolny cs)
]

-- The part of `cs_wait` that enters the process into the slot of the event.
unfoldable pub zapisz : ℕ → ℕ → ℕ → List ConditionVariable → Option (List ConditionVariable)
unfolding slot_cv dopisz
zapisz numer_cv proces mutex cs = do
  (i, cs1) ← slot_cv numer_cv cs
  c ← get_elem? cs1 i
  c' ← dopisz proces mutex c
  some (modify cs1 i (λ _. c'))

unfoldable pub czekaj : Env → ℕ → ℕ → Server → Option (ℤ × Server)
unfolding zapisz
czekaj e numer_cv numer_mutexu s = do
  (_, s1) ← cs_unlock e numer_mutexu s
  cs ← zapisz numer_cv s1.aktualny_proces numer_mutexu s1.cv
  some (e.edontreply, record s1 { cv = cs })

unfoldable pub cs_wait : Env → ℕ → ℕ → Server → Option (ℤ × Server)
unfolding czekaj
cs_wait e numer_cv numer_mutexu s = elim (indeks_uzywanego_mutexa s.m numer_mutexu) [
  | none ↦ some (neg e.einval, s)
  | some i ↦ do
    x ← get_elem? s.m i
    if x.wlasciciel == s.aktualny_proces
        then czekaj e numer_cv numer_mutexu s
        else some (neg e.einval, s)
]

-- One process that waits for the event asks for its mutex.
unfoldable pub obudz : Env → ℕ → ℕ → Server → Option Server
obudz e proces mutex s = do
  (response, s1) ← cs_lock e mutex (record s { aktualny_proces = proces })
  some (if equals response e.edontreply then s1 else wyslij_wiadomosc e (pos 0) proces s1)

abbrev pub wyzeruj : ℕ → ConditionVariable → ConditionVariable
wyzeruj j c = record c { procesy = set c.procesy j 0; muteksy = set c.muteksy j 0 }

-- `FOR(j, 0, CV[i].size - 1)` of `cs_broadcast`, with the rounds that are left.
unfoldable pub obudz_wszystkie : Env → ℕ → ℕ → ℕ → Server → Option Server
unfolding obudz
obudz_wszystkie e zero i j s = some s
obudz_wszystkie e (suc r) i j s = do
  c ← get_elem? s.cv i
  p ← get_elem? c.procesy j
  n ← get_elem? c.muteksy j
  s1 ← obudz e p n s
  obudz_wszystkie e r i (suc j) (record s1 { cv = modify s1.cv i (wyzeruj j) })

abbrev pub zwolnij_cv : ConditionVariable → ConditionVariable
zwolnij_cv c = record c { uzywany = false; size = 0; numer = 0 }

unfoldable pub cs_broadcast : Env → ℕ → Server → Option (ℤ × Server)
unfolding obudz_wszystkie
cs_broadcast e numer_cv s = elim (indeks_uzywanego_cv s.cv numer_cv) [
  | none ↦ some (e.ok, s)
  | some i ↦ do
    c ← get_elem? s.cv i
    s1 ← obudz_wszystkie e c.size i 0 s
    some (e.ok, record s1 { aktualny_proces = s.aktualny_proces; cv = modify s1.cv i zwolnij_cv })
]
