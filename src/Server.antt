-- ===== src/Server.antt =====
-- projekt/servers/cv/main.c: the dispatch of a message, and the loop of `main`.
pub mod Dispatch
pub mod Run
pub mod Start
use mathlib.Core.Option
use minix_server_of_mutex_an.Base.{
  ℕ, Option, some, List, [], ◌∷◌, ◌++◌, ℤ, pos, negsuc, equals, ◌==◌, if◌then◌else◌, ◌>>=◌,
}
use minix_server_of_mutex_an.State.{
  Server, Env, init, bad_message_typ, receive_failed, wyslij_wiadomosc,
}
use minix_server_of_mutex_an.Mutexes.{cs_lock, cs_unlock}
use minix_server_of_mutex_an.Cvs.{cs_wait, cs_broadcast}
use minix_server_of_mutex_an.Signals.{wyslij_eintr, usun_zakonczony_proces}

-- The fields of a message that the server reads.
pub record Message : Type 0 where
  pub m_source : ℕ
  pub m_type : ℤ
  pub m1_i1 : ℕ
  pub m1_i2 : ℕ
  pub pm_proc : ℕ

-- The values of `m_type` that the dispatch tells apart.
pub data Typ : Type 0 where
  lock unlock wait broadcast eintr exit bad : Typ

-- `typ < 1 || typ > 6`, and the labels of the `switch`
abbrev pub typ_of : ℤ → Typ
typ_of (negsuc n) = bad
typ_of (pos n) =
    if n == 1
    then lock
    else if n == 2
    then unlock
    else if n == 3
    then wait
    else if n == 4
    then broadcast
    else if n == 5
    then eintr
    else if n == 6
    then exit
    else bad

-- `if (typ < 5 && result != EDONTREPLY) wyslijWiadomosc(result, aktualnyProces)`
abbrev pub odpowiedz : Env → ℤ × Server → Server
odpowiedz e (result, s) =
    if equals result e.edontreply then s else wyslij_wiadomosc e result s.aktualny_proces s

abbrev pub obsluz : Env → Message → Server → Typ → Option Server
obsluz e msg s lock = Option.map (odpowiedz e) (cs_lock e msg.m1_i1 s)
obsluz e msg s unlock = Option.map (odpowiedz e) (cs_unlock e msg.m1_i1 s)
obsluz e msg s wait = Option.map (odpowiedz e) (cs_wait e msg.m1_i2 msg.m1_i1 s)
obsluz e msg s broadcast = Option.map (odpowiedz e) (cs_broadcast e msg.m1_i2 s)
obsluz e msg s eintr = wyslij_eintr e msg.pm_proc s
obsluz e msg s exit = usun_zakonczony_proces e msg.pm_proc s
obsluz e msg s bad = some (
    wyslij_wiadomosc e e.einval s.aktualny_proces
      (record s { printed = s.printed ++ bad_message_typ s.aktualny_proces ∷ [] }))

-- `obslugaWiadomosci`
unfoldable pub obsluga_wiadomosci : Env → Message → Server → Option Server
obsluga_wiadomosci e msg s =
    obsluz e msg (record s { aktualny_proces = msg.m_source }) (typ_of msg.m_type)

-- What `sef_receive` gives: a message, or a failure.
pub data Event : Type 0 where
  received : Message → Event
  failed : Event

unfoldable pub krok : Env → Event → Server → Option Server
unfolding obsluga_wiadomosci
krok e (received msg) s = obsluga_wiadomosci e msg s
krok e failed s = some (record s { printed = s.printed ++ receive_failed ∷ [] })

-- The loop of `main` over the events of a run.
unfoldable pub run : Env → List Event → Server → Option Server
unfolding krok
run e [] s = some s
run e (ev ∷ evs) s = do s1 ← krok e ev s; run e evs s1

-- `main`, with what `malloc` gives to each `utworzKolejke`.
unfoldable pub main : Env → (ℕ → Option ℕ) → List Event → Option Server
main e malloc evs = do s ← init malloc; run e evs s
