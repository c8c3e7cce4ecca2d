-- ===== src/Mutexes/View.antt =====
-- The table of mutexes as the specification sees it, and its well-formedness.
use mathlib.Core.Option
use minix_server_of_mutex_an.Base.{◌≡◌, false, List, [], All}
use minix_server_of_mutex_an.State.{Mutex}
use minix_server_of_mutex_an.Spec.{Held, held, Locks}
use minix_server_of_mutex_an.Mutexes.{mutex_slotted}
use minix_server_of_mutex_an.Slots.Table.{szukaj, Distinct}

abbrev pub held_by : Mutex → Held
held_by x = held x.wlasciciel x.kolejka.elementy

abbrev pub locks_of : List Mutex → Locks
locks_of ms n = Option.map held_by (szukaj ms n)

abbrev pub IsIdle : Mutex → Type 0
IsIdle x = x.uzywany ≡ false → x.kolejka.elementy ≡ []

-- No two used slots have one number, and nobody waits at a slot that is free.
pub record IsTable (ms : List Mutex) : Type 0 where
  pub distinct : Distinct ms
  pub idle : All IsIdle ms
