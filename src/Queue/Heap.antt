-- ===== src/Queue/Heap.antt =====
-- The functions of projekt/servers/cv/queue.h over an explicit heap. `none` is a read or write
-- through a pointer to no element, or a walk that runs out of its fuel. What `malloc` returns, the
-- pointer and what lies there, is an argument. A `kolejka_t` is its two pointers, which no function
-- changes.
pub mod Chain
pub mod First
pub mod Insert
pub mod Remove
use minix_server_of_mutex_an.Base.{
  ℕ, zero, suc, Bool, true, false, Option, none, some, ◌==◌, if◌then◌else◌, ◌>>=◌,
}

abbrev pub Pointer : Type 0
Pointer = ℕ

abbrev pub null : Pointer
null = 0

pub record Element : Type 0 where
  pub nastepny : Pointer
  pub proces : ℕ

abbrev pub element : Pointer → ℕ → Element
element nastepny proces = record { nastepny = nastepny; proces = proces }

abbrev pub Heap : Type 0
Heap = Pointer → Option Element

pub record Wskazniki : Type 0 where
  pub start : Pointer
  pub koniec : Pointer

unfoldable pub write : Heap → Pointer → Option Element → Heap
write h p c a = if a == p then c else h a

-- `*p`
unfoldable pub load : Pointer → Heap → Option Element
load p h = if p == null then none else h p

-- `p->nastepny = q`
unfoldable pub set_nastepny : Pointer → Pointer → Heap → Option Heap
unfolding load write
set_nastepny p q h = do n ← load p h; some (write h p (some (record n { nastepny = q })))

-- `p->proces = v`
unfoldable pub set_proces : Pointer → ℕ → Heap → Option Heap
unfolding load write
set_proces p v h = do n ← load p h; some (write h p (some (record n { proces = v })))

unfoldable pub free : Pointer → Heap → Option Heap
unfolding load write
free p h = do _ ← load p h; some (write h p none)

-- `start` and `koniec` are what `malloc` returned, with `smiec` in what it returned first.
pub utworz_kolejke : Pointer → Pointer → Heap → Option (Wskazniki × Heap)
unfolding set_nastepny
utworz_kolejke start koniec h = do
  h1 ← set_nastepny start koniec h
  h2 ← set_nastepny koniec null h1
  some (record { start = start; koniec = koniec }, h2)

-- The walk of `wstaw` to the last element.
pub ostatni : ℕ → Pointer → Pointer → Heap → Option Pointer
unfolding load
ostatni zero koniec last h = none
ostatni (suc f) koniec last h = do
  n ← load last h
  if n.nastepny == koniec then some last else ostatni f koniec n.nastepny h

-- `nowy` is what `malloc` returned, and `smiec` what lies there.
pub wstaw : ℕ → Wskazniki → ℕ → Pointer → Element → Heap → Option Heap
unfolding ostatni set_nastepny set_proces write
wstaw fuel q proces nowy smiec h = do
  last ← ostatni fuel q.koniec q.start h
  h1 ← set_proces nowy proces (write h nowy (some smiec))
  h2 ← set_nastepny last nowy h1
  set_nastepny nowy q.koniec h2

pub pierwszy_kolejka : Wskazniki → Heap → Option (ℕ × Heap)
unfolding load set_nastepny free
pierwszy_kolejka q h = do
  s ← load q.start h
  first ← load s.nastepny h
  h1 ← set_nastepny q.start first.nastepny h
  h2 ← free s.nastepny h1
  some (first.proces, h2)

pub czy_pusto : Wskazniki → Heap → Option Bool
unfolding load
czy_pusto q h = do s ← load q.start h; some (s.nastepny == q.koniec)

-- `FOR_EACH(item, q) if (item->proces == proces) …`: the first such element.
pub znajdz : ℕ → Pointer → ℕ → Pointer → Heap → Option (Option Pointer)
unfolding load
znajdz zero koniec proces item h = none
znajdz (suc f) koniec proces item h = if item == koniec then some none else do
  n ← load item h
  if n.proces == proces then some (some item) else znajdz f koniec proces n.nastepny h

-- `i->nastepny = item->nastepny; free(item);`
pub odlacz : Pointer → Pointer → Heap → Option Heap
unfolding load set_nastepny free
odlacz i item h = do n ← load item h; h1 ← set_nastepny i n.nastepny h; free item h1

-- `usunElement`, from the element `i` on
pub usun_element : ℕ → Pointer → Pointer → Pointer → Heap → Option Heap
unfolding odlacz load
usun_element zero koniec item i h = none
usun_element (suc f) koniec item i h = if i == koniec then some h else do
  n ← load i h
  if n.nastepny == item then odlacz i item h else usun_element f koniec item n.nastepny h

-- `FOR_EACH(item, q) if (item->proces == proces) { …; usunElement(q, item); break; }`: the body.
abbrev jezeli_jest : ℕ → Wskazniki → Heap → Option Pointer → Option (Bool × Heap)
jezeli_jest fuel q h none = some (false, h)
jezeli_jest fuel q h (some item) = do
  h1 ← usun_element fuel q.koniec item q.start h
  some (true, h1)

pub usun_proces : ℕ → Wskazniki → ℕ → Heap → Option (Bool × Heap)
unfolding znajdz usun_element
usun_proces fuel q proces h = do
  found ← znajdz fuel q.koniec proces q.start h
  jezeli_jest fuel q h found
