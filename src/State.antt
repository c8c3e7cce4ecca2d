-- ===== src/State.antt =====
-- The state of projekt/servers/cv/main.c and of includes.h: the tables `M` and `CV`, the caller
-- `aktualnyProces`, the messages sent and the lines printed. An `int` that is only compared for
-- equality (numbers of mutexes and events, endpoints) is a natural number.
use minix_server_of_mutex_an.Base.{
  ℕ, zero, suc, Bool, false, Option, some, List, [], ◌∷◌, ◌++◌, map, ℤ, equals, if◌then◌else◌,
  ◌>>=◌, replicate,
}
use minix_server_of_mutex_an.Queue.{Kolejka, utworz_kolejke}

abbrev pub max_mutex : ℕ
max_mutex = 1024

abbrev pub max_cv : ℕ
max_cv = 512

-- The length of the arrays `procesy` and `muteksy`.
abbrev pub max_procesy : ℕ
max_procesy = 512

pub record Mutex : Type 0 where
  pub uzywany : Bool
  pub numer : ℕ
  pub wlasciciel : ℕ
  pub kolejka : Kolejka

pub record ConditionVariable : Type 0 where
  pub uzywany : Bool
  pub numer : ℕ
  pub procesy : List ℕ
  pub muteksy : List ℕ
  pub size : ℕ

-- A message as `wyslijWiadomosc` sends it.
pub record Reply : Type 0 where
  pub to : ℕ
  pub typ : ℤ

pub data Line : Type 0 where
  bad_message_typ couldnt_send : ℕ → Line
  receive_failed : Line

pub record Server : Type 0 where
  pub m : List Mutex
  pub cv : List ConditionVariable
  pub aktualny_proces : ℕ
  pub sent : List Reply
  pub printed : List Line

-- What the server takes from MINIX: the codes of <errno.h>, the answers of the kernel to `send`, and
-- whether `malloc` finds a node for the queue that the server extends.
pub record Env : Type 0 where
  pub ok : ℤ
  pub eperm : ℤ
  pub einval : ℤ
  pub eintr : ℤ
  pub edontreply : ℤ
  pub send : List Reply → Reply → ℤ
  pub malloc : Server → Bool

abbrev pub reply : ℕ → ℤ → Reply
reply to typ = record { to = to; typ = typ }

-- `wyslijWiadomosc`
unfoldable pub wyslij_wiadomosc : Env → ℤ → ℕ → Server → Server
wyslij_wiadomosc e typ to s =
    let response = e.send s.sent (reply to typ) in
    record s {
      sent = s.sent ++ reply to typ ∷ [];
      printed =
          if equals response e.ok
          then s.printed
          else s.printed ++ couldnt_send s.aktualny_proces ∷ [];
    }

-- The other fields of `M` are those of a variable outside the functions: 0.
abbrev pub pusty_mutex : Kolejka → Mutex
pusty_mutex q = record { uzywany = false; numer = 0; wlasciciel = 0; kolejka = q }

-- The first loop of `main`, from the slot `i`, with the rounds that are left. `malloc` gives what
-- each `utworzKolejke` finds.
unfoldable pub utworz_mutexy : (ℕ → Option ℕ) → ℕ → ℕ → Option (List Mutex)
utworz_mutexy malloc zero i = some []
utworz_mutexy malloc (suc r) i = do
  q ← utworz_kolejke (malloc i)
  ms ← utworz_mutexy malloc r (suc i)
  some (pusty_mutex q ∷ ms)

abbrev pub zero_cv : ConditionVariable
zero_cv = record {
  uzywany = false;
  numer = 0;
  procesy = replicate max_procesy 0;
  muteksy = replicate max_procesy 0;
  size = 0;
}

-- Every `utworzKolejke` gets its nodes, and `smiec i` lies in the `start` node of the slot `i`.
abbrev pub przydzielone : (ℕ → ℕ) → ℕ → Option ℕ
przydzielone smiec i = some (smiec i)

-- One round of the second loop of `main`.
abbrev pub oproznij_cv : ConditionVariable → ConditionVariable
oproznij_cv c = record c { uzywany = false; size = 0 }

-- The state as `main` leaves it before its loop.
unfoldable pub init : (ℕ → Option ℕ) → Option Server
init malloc = do
  m ← utworz_mutexy malloc max_mutex 0
  some (record {
    m = m;
    cv = map oproznij_cv (replicate max_cv zero_cv);
    aktualny_proces = 0;
    sent = [];
    printed = [];
  })
