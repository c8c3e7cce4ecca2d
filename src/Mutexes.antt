-- ===== src/Mutexes.antt =====
-- projekt/servers/cv/main.c: the table of mutexes, `cs_lock` and `cs_unlock`. An access outside an
-- array, which has no defined behaviour in C, is `none`.
pub mod Lock
pub mod Unlock
pub mod View
use mathlib.Core.Option
use minix_server_of_mutex_an.Base.{
  ℕ, suc, ◌+◌, Bool, true, false, not, ◌&&◌, Option, none, some, List, [], ◌∷◌, ℤ, pos, ◌==◌,
  if◌then◌else◌, ◌>>=◌, get_elem?, modify,
}
use minix_server_of_mutex_an.Queue.{Kolejka, wstaw, pierwszy_kolejka, czy_pusto}
use minix_server_of_mutex_an.Slots.{Slotted, indeks, wolny}
use minix_server_of_mutex_an.State.{Mutex, Server, Env, wyslij_wiadomosc}

instance abbrev pub mutex_slotted : Slotted Mutex
mutex_slotted = record { uzywany = λ x. x.uzywany; numer = λ x. x.numer }

-- `indeksUzywanegoMutexa`
abbrev pub indeks_uzywanego_mutexa : List Mutex → ℕ → Option ℕ
indeks_uzywanego_mutexa = indeks

abbrev pub zajmij : ℕ → ℕ → Mutex → Mutex
zajmij numer proces x = record x { numer = numer; wlasciciel = proces; uzywany = true }

abbrev pub doloz : Kolejka → Mutex → Mutex
doloz q x = record x { kolejka = q }

abbrev pub oznacz_wolny : Mutex → Mutex
oznacz_wolny x = record x { uzywany = false }

abbrev pub przekaz : ℕ → Kolejka → Mutex → Mutex
przekaz nowy q x = record x { wlasciciel = nowy; kolejka = q }

unfoldable pub cs_lock_nowy : Env → ℕ → Server → Option (ℤ × Server)
cs_lock_nowy e numer s = do
  i ← wolny s.m
  some (e.ok, record s { m = modify s.m i (zajmij numer s.aktualny_proces) })

unfoldable pub cs_lock_zajety : Env → ℕ → Server → Option (ℤ × Server)
cs_lock_zajety e i s = do
  x ← get_elem? s.m i
  if x.wlasciciel == s.aktualny_proces then some (e.eperm, s) else do
    q ← wstaw (e.malloc s) x.kolejka s.aktualny_proces
    some (e.edontreply, record s { m = modify s.m i (doloz q) })

unfoldable pub cs_lock : Env → ℕ → Server → Option (ℤ × Server)
unfolding cs_lock_nowy cs_lock_zajety
cs_lock e numer s = elim (indeks_uzywanego_mutexa s.m numer) [
  | none ↦ cs_lock_nowy e numer s
  | some i ↦ cs_lock_zajety e i s
]

-- The second half of `cs_unlock`, for the slot `i` that holds `x`.
unfoldable pub zwolnij : Env → ℕ → Mutex → Server → Option (ℤ × Server)
zwolnij e i x s =
    if czy_pusto x.kolejka then some (e.ok, record s { m = modify s.m i oznacz_wolny }) else do
      (nowy, q) ← pierwszy_kolejka x.kolejka
      some (e.ok, wyslij_wiadomosc e (pos 0) nowy (record s { m = modify s.m i (przekaz nowy q) }))

unfoldable pub cs_unlock_zajety : Env → ℕ → Server → Option (ℤ × Server)
unfolding zwolnij
cs_unlock_zajety e i s = do
  x ← get_elem? s.m i
  if x.wlasciciel == s.aktualny_proces then zwolnij e i x s else some (e.eperm, s)

unfoldable pub cs_unlock : Env → ℕ → Server → Option (ℤ × Server)
unfolding cs_unlock_zajety
cs_unlock e numer s = elim (indeks_uzywanego_mutexa s.m numer) [
  | none ↦ some (e.eperm, s)
  | some i ↦ cs_unlock_zajety e i s
]
