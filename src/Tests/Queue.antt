-- ===== src/Tests/Queue.antt =====
-- A heap with one queue, on which the theorems on the pointers are applied.
use minix_server_of_mutex_an.Base.{◌≡◌, refl, none, some, [], ◌∷◌, ◌==◌, if◌then◌else◌, arith}
use minix_server_of_mutex_an.Queue.{erase, contains}
use minix_server_of_mutex_an.Queue.Heap.{
  element, Heap, Wskazniki, wstaw, pierwszy_kolejka, usun_proces,
}
use minix_server_of_mutex_an.Queue.Heap.Chain.{cell, values}
use minix_server_of_mutex_an.Queue.Heap.Insert.{IsQueue, SameOutside, wstaw-append}
use minix_server_of_mutex_an.Queue.Heap.First.{pierwszy_kolejka_lem}
use minix_server_of_mutex_an.Queue.Heap.Remove.{erase_cell, usun_proces-erase}

-- Processes 4 and 6 wait, in the elements 12 and 13.
abbrev heap : Heap
heap a =
    if a == 10
    then some (element 12 0)
    else if a == 12
    then some (element 13 4)
    else if a == 13
    then some (element 11 6)
    else if a == 11
    then some (element 0 0)
    else none

abbrev wskazniki : Wskazniki
wskazniki = record { start = 10; koniec = 11 }

heap-IsQueue : IsQueue heap wskazniki 0 (cell 12 4 ∷ cell 13 6 ∷ [])
heap-IsQueue = record {
  chain = (
    refl,
    (λ e. omega arith),
    (λ e. omega arith),
    refl,
    12,
    refl,
    (
      refl,
      (λ e. omega arith),
      (λ e. omega arith),
      refl,
      13,
      refl,
      (refl, (λ e. omega arith), (λ e. omega arith), refl, 11, refl, refl),
    ),
  );
  allocated = (element 0 0, refl);
}

wstaw-append_example :
    (g : Heap) × (wstaw 3 wskazniki 8 14 (element 1 1) heap ≡ some g)
    × IsQueue g wskazniki 0 (cell 12 4 ∷ cell 13 6 ∷ cell 14 8 ∷ [])
    × SameOutside (cell 14 8 ∷ cell 10 0 ∷ cell 12 4 ∷ cell 13 6 ∷ []) heap g
wstaw-append_example =
    wstaw-append 3 heap wskazniki 0 (cell 12 4 ∷ cell 13 6 ∷ []) 8 14 (element 1 1) heap-IsQueue
      (omega arith) (λ e. omega arith) refl

pierwszy_kolejka_lem_example :
    (g : Heap) × (pierwszy_kolejka wskazniki heap ≡ some (4, g))
    × IsQueue g wskazniki 0 (cell 13 6 ∷ [])
    × (g 12 ≡ none)
    × SameOutside (cell 10 0 ∷ cell 12 4 ∷ []) heap g
pierwszy_kolejka_lem_example =
    pierwszy_kolejka_lem heap wskazniki 0 (cell 12 4) (cell 13 6 ∷ []) heap-IsQueue

usun_proces-erase_example :
    (g : Heap) × (usun_proces 4 wskazniki 6 heap ≡ some (contains (4 ∷ 6 ∷ []) 6, g))
    × IsQueue g wskazniki 0 (erase_cell 6 (cell 12 4 ∷ cell 13 6 ∷ []))
    × (values (erase_cell 6 (cell 12 4 ∷ cell 13 6 ∷ [])) ≡ erase 6 (4 ∷ 6 ∷ []))
    × SameOutside (cell 10 0 ∷ cell 12 4 ∷ cell 13 6 ∷ []) heap g
usun_proces-erase_example =
    usun_proces-erase 4 heap wskazniki 0 (cell 12 4 ∷ cell 13 6 ∷ []) 6 heap-IsQueue
      (λ e. omega arith) (omega arith)
