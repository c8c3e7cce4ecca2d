-- ===== src/Queue/Heap/Insert.antt =====
-- `wstaw` of projekt/servers/cv/queue.h puts an element behind the last one.
use minix_server_of_mutex_an.Base.{
  ℕ, zero, suc, ◌<◌, ◌≡◌, ◌≢◌, refl, ap, sym, ◌∙◌, true, false, ◌||◌, Option, none, some, List, [],
  ◌∷◌, ◌++◌, length, ==_ne, ==_refl, arith,
}
use minix_server_of_mutex_an.Queue.Heap.{
  Pointer, null, Element, element, Heap, Wskazniki, write, load, set_nastepny, set_proces, ostatni,
  wstaw,
}
use minix_server_of_mutex_an.Queue.Heap.Chain.{Cell, cell, has, Chain, load_lem}

-- The last element of a chain, and what a heap needs for the chain to go on behind it.
record Last (h : Heap) (koniec p : Pointer) (cs : List Cell) (r : Option Pointer) : Type 0 where
  address : Pointer
  value : ℕ
  returns : r ≡ some address
  ne_null : address ≢ null
  inside : has address cs ≡ true
  holds : h address ≡ some (element koniec value)
  goes_on :
      (g : Heap) (nowy : Pointer) (v : ℕ)
      → ((a : Pointer) → has a cs ≡ true → a ≢ address → g a ≡ h a)
      → g address ≡ some (element nowy value)
      → g nowy ≡ some (element koniec v)
      → nowy ≢ null
      → nowy ≢ koniec
      → has nowy cs ≡ false
      → Chain g koniec p (cs ++ cell nowy v ∷ [])

has-append : (a : Pointer) (cs ds : List Cell) → has a (cs ++ ds) ≡ (has a cs || has a ds)
has-append a [] ds = refl
has-append a (c ∷ cs) ds = ground (arith, has-append a cs ds)

ostatni_lem :
    (f : ℕ) (h : Heap) (koniec p : Pointer) (c : Cell) (cs : List Cell)
    → Chain h koniec p (c ∷ cs)
    → length cs < f
    → Last h koniec p (c ∷ cs) (ostatni f koniec p h)
unfolding ostatni
ostatni_lem zero h koniec p c cs chain fuel = absurd (omega arith)
ostatni_lem (suc f) h koniec p c [] (e, ne, nk, out, q, at, rest) fuel = record {
  address = c.address;
  value = c.value;
  returns = rw (e, load_lem h ne at, rest, ==_refl koniec);
  ne_null = ne;
  inside = ground arith;
  holds = rw at (rw rest);
  goes_on = λ g nowy v same here new n1 n2 fresh.
      (e, ne, nk, ground arith, nowy, here, (refl, n1, n2, refl, koniec, new, refl));
}
ostatni_lem (suc f) h koniec p c (d ∷ ds) (e, ne, nk, out, q, at, rest) fuel =
    let l = ostatni_lem f h koniec q d ds rest (omega arith) in
    record {
      address = l.address;
      value = l.value;
      returns = rw (e, load_lem h ne at, ==_ne q koniec (λ x. rest.2 (sym rest.0 ∙ x))) l.returns;
      ne_null = l.ne_null;
      inside = ground (arith, l.inside);
      holds = l.holds;
      goes_on = λ g nowy v same here new n1 n2 fresh. (
        e,
        ne,
        nk,
        ground (arith, has-append c.address (d ∷ ds) (cell nowy v ∷ [])),
        q,
        same c.address (ground arith) (λ n. cc (ap (λ a. has a (d ∷ ds)) n, l.inside)) ∙ at,
        l.goes_on g nowy v (λ a i n. same a (ground arith) n) here new n1 n2 (ground arith),
      );
    }

-- A queue in the heap: the `start` node, the cells of those who wait, and the `koniec` node apart.
pub record IsQueue (h : Heap) (q : Wskazniki) (straznik : ℕ) (cs : List Cell) : Type 0 where
  pub chain : Chain h q.koniec q.start (cell q.start straznik ∷ cs)
  pub allocated : (n : Element) × (h q.koniec ≡ some n)

-- What stays where nothing of the queue lies.
abbrev pub SameOutside : List Cell → Heap → Heap → Type 0
SameOutside cs h g = (a : Pointer) → has a cs ≡ false → g a ≡ h a

pub beyond_lem :
    (h : Heap) (koniec p : Pointer) (cs : List Cell) → Chain h koniec p cs → has koniec cs ≡ false
beyond_lem h koniec p [] chain = refl
beyond_lem h koniec p (c ∷ cs) (e, ne, nk, out, q, at, rest) =
    ground (arith, nk, beyond_lem h koniec q cs rest)

differ : (cs : List Cell) (a b : Pointer) → has a cs ≡ true → has b cs ≡ false → b ≢ a
differ cs a b i o e = cc (ap (λ x. has x cs) e, i, o)

fresh_lem :
    (h : Heap) (koniec p : Pointer) (cs : List Cell) (nowy : Pointer)
    → Chain h koniec p cs
    → h nowy ≡ none
    → has nowy cs ≡ false
fresh_lem h koniec p [] nowy chain unused = refl
fresh_lem h koniec p (c ∷ cs) nowy (e, ne, nk, out, q, at, rest) unused = ground (
  arith,
  ==_ne nowy c.address (λ e. cc (ap h e, at, unused)),
  fresh_lem h koniec q cs nowy rest unused,
)

-- The heap that `wstaw` leaves.
abbrev appended : Heap → Pointer → Pointer → ℕ → Pointer → ℕ → Element → Heap
unfolding write
appended h nowy last value koniec proces smiec =
    write
      (write (write (write h nowy (some smiec)) nowy (some (element smiec.nastepny proces))) last
        (some (element nowy value)))
      nowy (some (element koniec proces))

-- `wstaw` returns, with the new process behind all that wait, in the element that `malloc` gave.
-- It writes to no element but those of the queue and the new one. The conditions: `malloc` gave an
-- element that is not in use, and the fuel of the walk exceeds the number of those who wait.
pub wstaw-append :
    (fuel : ℕ) (h : Heap) (q : Wskazniki) (straznik : ℕ) (cs : List Cell) (proces : ℕ)
    (nowy : Pointer) (smiec : Element)
    → IsQueue h q straznik cs
    → length cs < fuel
    → nowy ≢ null
    → h nowy ≡ none
    → (g : Heap) × (wstaw fuel q proces nowy smiec h ≡ some g)
      × IsQueue g q straznik (cs ++ cell nowy proces ∷ [])
      × SameOutside (cell nowy proces ∷ cell q.start straznik ∷ cs) h g
unfolding wstaw write set_nastepny set_proces load
wstaw-append fuel h q straznik cs proces nowy smiec is enough ne unused =
    let l = ostatni_lem fuel h q.koniec q.start (cell q.start straznik) cs is.chain enough in
    let fresh = fresh_lem h q.koniec q.start (cell q.start straznik ∷ cs) nowy is.chain unused in
    let apart : nowy ≢ l.address =
      differ (cell q.start straznik ∷ cs) l.address nowy l.inside fresh in
    let beyond = beyond_lem h q.koniec q.start (cell q.start straznik ∷ cs) is.chain in
    let far : q.koniec ≢ l.address =
      differ (cell q.start straznik ∷ cs) l.address q.koniec l.inside beyond in
    let new : nowy ≢ q.koniec = λ e. cc (ap h e, is.allocated.1, unused) in
    let kept : appended h nowy l.address l.value q.koniec proces smiec q.koniec
        ≡ some is.allocated.0 =
      ground (arith, is.allocated.1, far, new) in
    (
      appended h nowy l.address l.value q.koniec proces smiec,
      simp (
        l.returns,
        ==_refl nowy,
        ==_ne nowy null ne,
        ==_ne l.address null l.ne_null,
        ==_ne l.address nowy (λ e. apart (sym e)),
        ==_ne nowy l.address apart,
        l.holds,
      ),
      record {
        chain =
            l.goes_on (appended h nowy l.address l.value q.koniec proces smiec) nowy proces
              (λ a i n. ground (arith, fresh)) (ground arith) (ground arith) ne new fresh;
        allocated = (is.allocated.0, kept);
      },
      λ a i. ground (arith, l.inside),
    )
