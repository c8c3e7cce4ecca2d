-- ===== src/Queue/Heap/Remove.antt =====
-- The removal of an element: `FOR_EACH` and `usunElement` of projekt/servers/cv/queue.h, as
-- `wyslijEINTR` and `usunZakonczonyProces` of projekt/servers/cv/main.c use them.
use minix_server_of_mutex_an.Base.{
  ℕ, zero, suc, ◌<◌, ◌≡◌, ◌≢◌, refl, ap, sym, ◌∙◌, true, false, Option, none, some, List, [], ◌∷◌,
  ◌==◌, if◌then◌else◌, length, Bool-cases, Option-cases, inl, inr, ==_ne, ==_refl, ==_iff, arith,
}
use minix_server_of_mutex_an.Queue.{erase, contains}
use minix_server_of_mutex_an.Queue.Heap.{
  Pointer, null, element, Heap, Wskazniki, write, load, set_nastepny, free, znajdz, odlacz,
  usun_element, usun_proces,
}
use minix_server_of_mutex_an.Queue.Heap.Chain.{Cell, cell, has, values, Chain, frame}
use minix_server_of_mutex_an.Queue.Heap.Insert.{IsQueue, SameOutside, beyond_lem}

abbrev address_of : ℕ → List Cell → Option Pointer
address_of v [] = none
address_of v (c ∷ cs) = if c.value == v then some c.address else address_of v cs

abbrev without : Pointer → List Cell → List Cell
without a [] = []
without a (c ∷ cs) = if c.address == a then cs else c ∷ without a cs

-- The cells without the first of the process.
abbrev pub erase_cell : ℕ → List Cell → List Cell
erase_cell v [] = []
erase_cell v (c ∷ cs) = if c.value == v then cs else c ∷ erase_cell v cs

pub values-erase_cell : (v : ℕ) (cs : List Cell) → values (erase_cell v cs) ≡ erase v (values cs)
values-erase_cell v [] = refl
values-erase_cell v (c ∷ cs) = elim (Bool-cases (c.value == v)) [
  | inl e ↦ simp e
  | inr e ↦ simp (e, values-erase_cell v cs)
]

znajdz_lem :
    (f : ℕ) (h : Heap) (koniec v p : ℕ) (cs : List Cell)
    → Chain h koniec p cs
    → length cs < f
    → znajdz f koniec v p h ≡ some (address_of v cs)
unfolding znajdz
znajdz_lem zero h koniec v p cs chain fuel = absurd (omega arith)
znajdz_lem (suc f) h koniec v p [] chain fuel = simp (chain, ==_refl koniec)
znajdz_lem (suc f) h koniec v p (c ∷ cs) (e, ne, nk, out, q, at, rest) fuel =
    let more = znajdz_lem f h koniec v q cs rest (omega arith) in
    elim (Bool-cases (c.value == v)) [
      | inl t ↦ simp (e, ==_ne c.address koniec nk, ==_ne c.address null ne, at, t)
      | inr t ↦ simp (e, ==_ne c.address koniec nk, ==_ne c.address null ne, at, t, more)
    ]

-- What a cell of the process is to the list of cells.
record Found (v : ℕ) (cs : List Cell) (a : Pointer) : Type 0 where
  inside : has a cs ≡ true
  leaves : without a cs ≡ erase_cell v cs

found_lem :
    (v : ℕ) (h : Heap) (koniec p : Pointer) (cs : List Cell) (a : Pointer)
    → Chain h koniec p cs
    → address_of v cs ≡ some a
    → Found v cs a
found_lem v h koniec p [] a chain e = cc
found_lem v h koniec p (c ∷ cs) a (e, ne, nk, out, q, at, rest) found =
    elim (Bool-cases (c.value == v)) [
      | inl t ↦ record { inside = ground arith; leaves = ground arith }
      | inr t ↦
          let l = found_lem v h koniec q cs a rest (ground arith) in
          record {
            inside = ground (arith, l.inside);
            leaves =
                ground (arith, l.inside, l.leaves, λ (x : c.address ≡ a). ap (λ b. has b cs) x);
          }
    ]

absent_lem : (v : ℕ) (cs : List Cell) → address_of v cs ≡ none → erase_cell v cs ≡ cs
absent_lem v [] e = refl
absent_lem v (c ∷ cs) e = ground (arith, absent_lem v cs)

has-without : (a b : Pointer) (cs : List Cell) → has a cs ≡ false → has a (without b cs) ≡ false
has-without a b [] out = refl
has-without a b (c ∷ cs) out = ground (arith, has-without a b cs)

contains-none : (v : ℕ) (cs : List Cell) → address_of v cs ≡ none → contains (values cs) v ≡ false
contains-none v [] e = refl
contains-none v (c ∷ cs) e = ground (arith, contains-none v cs)

contains-some :
    (v : ℕ) (cs : List Cell) (a : Pointer)
    → address_of v cs ≡ some a
    → contains (values cs) v ≡ true
contains-some v [] a e = cc
contains-some v (c ∷ cs) a e = ground (arith, contains-some v cs a)

-- `usunElement` from `i` on takes the element out of the chain and frees it.
record Removed (h : Heap) (koniec i : Pointer) (c : Cell) (cs : List Cell) (item : Pointer)
    (r : Option Heap) : Type 0 where
  heap : Heap
  returns : r ≡ some heap
  chain : Chain heap koniec i (c ∷ without item cs)
  freed : heap item ≡ none
  outside : SameOutside (c ∷ cs) h heap

usun_element_lem :
    (f : ℕ) (h : Heap) (koniec item i : Pointer) (c : Cell) (cs : List Cell)
    → Chain h koniec i (c ∷ cs)
    → has item cs ≡ true
    → length cs < f
    → Removed h koniec i c cs item (usun_element f koniec item i h)
unfolding usun_element odlacz load write set_nastepny free
usun_element_lem zero h koniec item i c cs chain inside fuel = absurd (omega arith)
usun_element_lem (suc f) h koniec item i c [] chain inside fuel = cc
usun_element_lem (suc f) h koniec item i c (d ∷ ds) (e, ne, nk, out, q, at, chain) inside fuel =
    let (e1, ne1, nk1, out1, q1, at1, rest) = chain in
    let at = at ∙ ap (λ x. some (element x c.value)) e1 in
    let start = ==_ne c.address koniec nk in
    elim (Bool-cases (d.address == item)) [
      | inl t ↦
          let same = (==_iff d.address item).0 t in
          let apart : item ≢ c.address = ground (arith, same) in
          record {
            heap = write (write h c.address (some (element q1 c.value))) item none;
            returns = simp (
              e,
              start,
              ==_ne c.address null ne,
              at,
              t,
              ==_ne item null (λ x. ne1 (same ∙ x)),
              ap h (sym same) ∙ at1,
              ==_ne item c.address apart,
            );
            chain = rw t (
              e,
              ne,
              nk,
              ground arith,
              q1,
              ground (arith, apart),
              frame koniec q1 ds rest λ a i. ground (arith, same),
            );
            freed = ground arith;
            outside = λ a i. ground arith;
          }
      | inr t ↦
          let l =
            usun_element_lem f h koniec item d.address d ds (refl, ne1, nk1, out1, q1, at1, rest)
              (ground arith) (omega arith) in
          record {
            heap = l.heap;
            returns = simp (e, start, ==_ne c.address null ne, at, t) l.returns;
            chain = rw t (
              e,
              ne,
              nk,
              ground (arith, has-without c.address item ds),
              d.address,
              l.outside c.address out ∙ at,
              l.chain,
            );
            freed = l.freed;
            outside = λ a i. l.outside a (ground arith);
          }
    ]

-- The search for a process, from the `start` node on, and the removal of what it finds return, with
-- the answer whether the process waits. Afterwards those who wait are the others, in order, and no
-- element outside the queue has changed. The conditions: the `proces` field of the `start` node,
-- which nothing initialises, is not the process, and the fuel exceeds the number of elements.
pub usun_proces-erase :
    (fuel : ℕ) (h : Heap) (q : Wskazniki) (straznik : ℕ) (cs : List Cell) (proces : ℕ)
    → IsQueue h q straznik cs
    → straznik ≢ proces
    → suc (length cs) < fuel
    → (g : Heap) × (usun_proces fuel q proces h ≡ some (contains (values cs) proces, g))
      × IsQueue g q straznik (erase_cell proces cs)
      × (values (erase_cell proces cs) ≡ erase proces (values cs))
      × SameOutside (cell q.start straznik ∷ cs) h g
unfolding usun_proces
usun_proces-erase fuel h q straznik cs proces is ne enough =
    let search =
      znajdz_lem fuel h q.koniec proces q.start (cell q.start straznik ∷ cs) is.chain enough in
    elim (Option-cases (address_of proces cs)) [
      | inl e ↦ (
        h,
        simp (search, ==_ne straznik proces ne, e, contains-none proces cs e),
        rw (absent_lem proces cs e) is,
        values-erase_cell proces cs,
        λ a i. refl,
      )
      | inr (a, e) ↦
          let (e0, ne0, nk0, out0, n, at, rest) = is.chain in
          let found = found_lem proces h q.koniec n cs a rest e in
          let l =
            usun_element_lem fuel h q.koniec a q.start (cell q.start straznik) cs is.chain
              found.inside (omega arith) in
          (
            l.heap,
            simp (search, ==_ne straznik proces ne, e, l.returns, contains-some proces cs a e),
            record {
              chain = rw (sym found.leaves) l.chain;
              allocated = (
                is.allocated.0,
                l.outside q.koniec
                      (beyond_lem h q.koniec q.start (cell q.start straznik ∷ cs) is.chain)
                    ∙ is.allocated.1,
              );
            },
            values-erase_cell proces cs,
            l.outside,
          )
    ]
