-- ===== src/Tests.antt =====
-- A small server on which the theorems are applied: two mutex slots, two events, arrays of three.
mod Client
mod Fork
mod Link
mod Loop
mod Pm
mod Queue
mod Run
use minix_server_of_mutex_an.Server.{Message, typ_of, obsluga_wiadomosci}
use minix_server_of_mutex_an.Server.Dispatch.{outcome, Served, obsluga_wiadomosci-outcome}
use minix_server_of_mutex_an.Base.{◌≡◌, refl, true, false, none, [], ◌∷◌, pos, negsuc, arith}
use minix_server_of_mutex_an.State.{Mutex, ConditionVariable, Server, Env}
use minix_server_of_mutex_an.Spec.{IsMinix, lock, unlock, wait, broadcast}
use minix_server_of_mutex_an.Slots.Table.{szukaj, Distinct, uzywane}
use minix_server_of_mutex_an.Mutexes.{cs_lock, cs_unlock}
use minix_server_of_mutex_an.Mutexes.View.{IsTable, locks_of}
use minix_server_of_mutex_an.Mutexes.Lock.{Locked, cs_lock-lock, cs_lock_full}
use minix_server_of_mutex_an.Mutexes.Unlock.{Released, cs_unlock-unlock}
use minix_server_of_mutex_an.Cvs.{cs_wait, cs_broadcast}
use minix_server_of_mutex_an.Cvs.Arrays.{zip_take}
use minix_server_of_mutex_an.Cvs.View.{IsCvTable, events_of}
use minix_server_of_mutex_an.Cvs.Wait.{Changed, cs_wait-wait}
use minix_server_of_mutex_an.Cvs.Broadcast.{cs_broadcast-broadcast}
use minix_server_of_mutex_an.Signals.{wyslij_eintr, usun_zakonczony_proces}
use minix_server_of_mutex_an.Signals.Leave.{IsClean}
use minix_server_of_mutex_an.Signals.Eintr.{Interrupted, wyslij_eintr-leave}
use minix_server_of_mutex_an.Signals.Exit.{Ended, usun_zakonczony_proces-exit}

abbrev pub minix : Env
minix = record {
  ok = pos 0;
  eperm = negsuc 0;
  einval = negsuc 21;
  eintr = negsuc 3;
  edontreply = negsuc 200;
  send = λ _ _. pos 0;
  malloc = λ _. true;
}

pub minix-IsMinix : IsMinix minix
minix-IsMinix = record {
  ok = refl;
  ok_ne = λ h. cc;
  eperm_ne = λ h. ground arith;
  einval_ne = λ h. cc;
  memory = λ s. refl;
}

-- Process 1 has mutex 7, for which 2 and 3 wait; process 4 waits for event 5 with mutex 9.
abbrev taken : Mutex
taken = record {
  uzywany = true;
  numer = 7;
  wlasciciel = 1;
  kolejka = record { straznik = 0; elementy = 2 ∷ 3 ∷ [] };
}

abbrev free : Mutex
free = record {
  uzywany = false;
  numer = 0;
  wlasciciel = 0;
  kolejka = record { straznik = 0; elementy = [] };
}

abbrev awaited : ConditionVariable
awaited = record {
  uzywany = true;
  numer = 5;
  procesy = 4 ∷ 0 ∷ 0 ∷ [];
  muteksy = 9 ∷ 0 ∷ 0 ∷ [];
  size = 1;
}

abbrev spare : ConditionVariable
spare = record {
  uzywany = false;
  numer = 0;
  procesy = 0 ∷ 0 ∷ 0 ∷ [];
  muteksy = 0 ∷ 0 ∷ 0 ∷ [];
  size = 0;
}

abbrev server : Server
server = record {
  m = taken ∷ free ∷ [];
  cv = awaited ∷ spare ∷ [];
  aktualny_proces = 1;
  sent = [];
  printed = [];
}

table : IsTable server.m
unfolding Distinct szukaj
table = record { distinct = (λ _. refl, (λ _. refl, tt)); idle = (λ u. cc, (λ _. refl, tt)) }

cv_table : IsCvTable 3 server.cv
unfolding Distinct szukaj
cv_table = record {
  distinct = (λ _. refl, (λ _. refl, tt));
  sized = (
    record { procesy = refl; muteksy = refl; size = omega arith },
    (record { procesy = refl; muteksy = refl; size = omega arith }, tt),
  );
  busy = (λ _. omega arith, ((λ u. cc), tt));
}

clean : IsClean 3 server.m
clean = (λ e. omega arith, (λ e. omega arith, tt))

abbrev full : Server
full = record server { m = taken ∷ [] }

cs_lock-lock_example : Locked minix server (lock 1 9 (locks_of server.m)) (cs_lock minix 9 server)
unfolding uzywane
cs_lock-lock_example = cs_lock-lock minix 9 server table refl (λ _. omega arith)

cs_lock_full_example : cs_lock minix 9 full ≡ none
unfolding uzywane szukaj
cs_lock_full_example = cs_lock_full minix 9 full refl (omega arith)

cs_unlock-unlock_example :
    Released minix server (unlock 1 7 (locks_of server.m)) (cs_unlock minix 7 server)
cs_unlock-unlock_example = cs_unlock-unlock minix 7 server table

cs_wait-wait_example :
    Changed 3 minix server
      (wait 1 5 7 (locks_of server.m) (events_of server.cv))
      (cs_wait minix 5 7 server)
unfolding uzywane szukaj zip_take
cs_wait-wait_example = cs_wait-wait minix 5 7 server table cv_table (λ _. omega arith) (omega arith)

cs_broadcast-broadcast_example :
    Changed 3 minix server
      (broadcast 5 (locks_of server.m) (events_of server.cv))
      (cs_broadcast minix 5 server)
unfolding uzywane szukaj zip_take
cs_broadcast-broadcast_example =
    cs_broadcast-broadcast minix minix-IsMinix 3 5 server table cv_table (omega arith)

wyslij_eintr-leave_example : Interrupted 3 minix 3 server (wyslij_eintr minix 3 server)
wyslij_eintr-leave_example = wyslij_eintr-leave 3 minix 3 server table cv_table clean

usun_zakonczony_proces-exit_example : Ended 3 3 server (usun_zakonczony_proces minix 3 server)
usun_zakonczony_proces-exit_example =
    usun_zakonczony_proces-exit 3 minix 3 server table cv_table clean

abbrev wait_message : Message
wait_message = record { m_source = 1; m_type = pos 3; m1_i1 = 7; m1_i2 = 5; pm_proc = 0 }

obsluga_wiadomosci-outcome_example :
    Served 3 []
      (outcome minix wait_message 1 server (typ_of (pos 3)))
      1
      (obsluga_wiadomosci minix wait_message server)
unfolding uzywane szukaj zip_take
obsluga_wiadomosci-outcome_example =
    obsluga_wiadomosci-outcome 3 minix minix-IsMinix wait_message server table cv_table
      ((λ _. omega arith), omega arith)
