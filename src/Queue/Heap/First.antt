-- ===== src/Queue/Heap/First.antt =====
-- `czyPusto` and `pierwszyKolejka` of projekt/servers/cv/queue.h look at and take the oldest element.
use minix_server_of_mutex_an.Base.{
  ℕ, ◌≡◌, ◌≢◌, refl, ap, sym, ◌∙◌, none, some, List, [], ◌∷◌, ◌==◌, ==_ne, ==_refl, arith,
}
use minix_server_of_mutex_an.Queue.{is_empty}
use minix_server_of_mutex_an.Queue.Heap.{
  Pointer, null, Element, element, Heap, Wskazniki, write, load, set_nastepny, free,
  pierwszy_kolejka, czy_pusto, utworz_kolejke,
}
use minix_server_of_mutex_an.Queue.Heap.Chain.{Cell, cell, values, frame}
use minix_server_of_mutex_an.Queue.Heap.Insert.{IsQueue, SameOutside}

-- `czyPusto` answers whether nobody waits.
pub czy_pusto_lem :
    (h : Heap) (q : Wskazniki) (straznik : ℕ) (cs : List Cell)
    → IsQueue h q straznik cs
    → czy_pusto q h ≡ some (is_empty (values cs))
unfolding czy_pusto load
czy_pusto_lem h q straznik [] is =
    let (e, ne, nk, out, n, at, rest) = is.chain in
    simp (==_ne q.start null ne, at, ap (λ x. x == q.koniec) rest, ==_refl q.koniec)
czy_pusto_lem h q straznik (c ∷ cs) is =
    let (e, ne, nk, out, n, at, (e1, ne1, nk1, out1, n1, at1, rest)) = is.chain in
    simp (==_ne q.start null ne, at, ==_ne n q.koniec λ x. nk1 (sym e1 ∙ x))

-- `pierwszyKolejka` on a queue in which somebody waits returns the one who waits longest, leaves the
-- others in order and frees the element, and writes to no element but that one and `start`.
pub pierwszy_kolejka_lem :
    (h : Heap) (q : Wskazniki) (straznik : ℕ) (c : Cell) (cs : List Cell)
    → IsQueue h q straznik (c ∷ cs)
    → (g : Heap) × (pierwszy_kolejka q h ≡ some (c.value, g))
      × IsQueue g q straznik cs
      × (g c.address ≡ none)
      × SameOutside (cell q.start straznik ∷ c ∷ []) h g
unfolding pierwszy_kolejka load write set_nastepny free
pierwszy_kolejka_lem h q straznik c cs is =
    let (e, ne, nk, out, n, at, (e1, ne1, nk1, out1, n1, at1, rest)) = is.chain in
    let apart : q.start ≢ c.address = λ x. ground arith in
    let chain =
      frame {g = write (write h q.start (some (element n1 straznik))) c.address none} q.koniec n1 cs
        rest λ a i. ground (arith, out, out1) in
    (
      write (write h q.start (some (element n1 straznik))) c.address none,
      simp (
        ==_ne q.start null ne,
        at,
        ==_ne c.address null ne1,
        at1,
        e1,
        ==_ne c.address q.start (λ x. apart (sym x)),
      ),
      record {
        chain = (refl, ne, nk, ground arith, n1, ground arith, chain);
        allocated = (is.allocated.0, ground (arith, is.allocated.1));
      },
      ground arith,
      λ a i. ground arith,
    )

-- `utworzKolejke` makes an empty queue of the two elements that `malloc` gave.
pub utworz_kolejke_lem :
    (h : Heap) (start koniec : Pointer) (n m : Element)
    → start ≢ null
    → koniec ≢ null
    → start ≢ koniec
    → h start ≡ some n
    → h koniec ≡ some m
    → (q : Wskazniki) × (g : Heap) × (utworz_kolejke start koniec h ≡ some (q, g))
      × IsQueue g q n.proces []
unfolding utworz_kolejke set_nastepny load write
utworz_kolejke_lem h start koniec n m ns nk ne at at1 =
    let e = ==_ne koniec start λ x. ne (sym x) in
    let e1 = ==_ne start koniec ne in
    (
      record { start = start; koniec = koniec },
      write (write h start (some (element koniec n.proces))) koniec (some (element null m.proces)),
      simp (==_ne start null ns, ==_ne koniec null nk, at, at1, e),
      record {
        chain = (refl, ns, ne, refl, koniec, ground arith, refl);
        allocated = (element null m.proces, ground arith);
      },
    )
