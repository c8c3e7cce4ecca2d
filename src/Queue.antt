-- ===== src/Queue.antt =====
-- projekt/servers/cv/queue.h as its clients see it: the queue of processes that wait for a mutex.
-- `straznik` is the `proces` field of the `start` node, which `utworzKolejke` leaves as `malloc`
-- returned it, and `elementy` lists the nodes between `start` and `koniec`, oldest first.
-- Queue/Heap.antt has the functions over pointers.
pub mod Heap
use minix_server_of_mutex_an.Base.{
  ℕ, Bool, true, false, ◌||◌, Option, none, some, List, [], ◌∷◌, ◌++◌, ◌==◌, if◌then◌else◌,
}

pub record Kolejka : Type 0 where
  pub straznik : ℕ
  pub elementy : List ℕ

-- The argument is what `malloc` leaves in the `proces` field of the `start` node, or `none` where it
-- returns NULL, which the source follows.
abbrev pub utworz_kolejke : Option ℕ → Option Kolejka
utworz_kolejke none = none
utworz_kolejke (some smiec) = some (record { straznik = smiec; elementy = [] })

-- `malloc` tells whether there is a node; the source follows its NULL too.
unfoldable pub wstaw : Bool → Kolejka → ℕ → Option Kolejka
wstaw malloc q proces =
    if malloc then some (record q { elementy = q.elementy ++ proces ∷ [] }) else none

abbrev pub bez_pierwszego : ℕ → List ℕ → Option (ℕ × Kolejka)
bez_pierwszego smiec [] = none
bez_pierwszego smiec (p ∷ ps) = some (p, record { straznik = smiec; elementy = ps })

-- On an empty queue the source frees the `koniec` node: `none`.
unfoldable pub pierwszy_kolejka : Kolejka → Option (ℕ × Kolejka)
pierwszy_kolejka q = bez_pierwszego q.straznik q.elementy

abbrev pub is_empty : List ℕ → Bool
is_empty [] = true
is_empty (p ∷ ps) = false

unfoldable pub czy_pusto : Kolejka → Bool
czy_pusto q = is_empty q.elementy

abbrev pub contains : List ℕ → ℕ → Bool
contains [] p = false
contains (x ∷ xs) p = x == p || contains xs p

-- The list without the first entry for `p`.
abbrev pub erase : ℕ → List ℕ → List ℕ
erase p [] = []
erase p (x ∷ xs) = if x == p then xs else x ∷ erase p xs

-- `FOR_EACH(item, q) if (item->proces == proces) { …; usunElement(q, item); break; }`. The walk
-- begins at the `start` node, which `usunElement` does not find behind any node and leaves.
unfoldable pub usun_proces : Kolejka → ℕ → Bool × Kolejka
usun_proces q proces =
    if q.straznik == proces
    then (true, q)
    else (contains q.elementy proces, record q { elementy = erase proces q.elementy })
