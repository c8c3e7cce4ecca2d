-- ===== src/Queue/Heap/Chain.antt =====
-- Elements that follow one another in the heap, and what a write leaves of them.
use minix_server_of_mutex_an.Base.{
  ℕ, ◌≡◌, ◌≢◌, Bool, true, false, ◌||◌, some, List, [], ◌∷◌, ◌==◌, arith,
}
use minix_server_of_mutex_an.Queue.Heap.{Pointer, null, Element, element, Heap, load}

pub record Cell : Type 0 where
  pub address : Pointer
  pub value : ℕ

abbrev pub cell : Pointer → ℕ → Cell
cell a v = record { address = a; value = v }

abbrev pub has : Pointer → List Cell → Bool
has a [] = false
has a (c ∷ cs) = a == c.address || has a cs

abbrev pub values : List Cell → List ℕ
values [] = []
values (c ∷ cs) = c.value ∷ values cs

-- From `p` the pointers lead through the cells, which are all different, to `koniec`.
abbrev pub Chain : Heap → Pointer → Pointer → List Cell → Type 0
Chain h koniec p [] = p ≡ koniec
Chain h koniec p (c ∷ cs) =
    (p ≡ c.address)
    × (c.address ≢ null)
    × (c.address ≢ koniec)
    × (has c.address cs ≡ false)
    × (q : Pointer) × (h c.address ≡ some (element q c.value))
    × Chain h koniec q cs

-- A change elsewhere leaves a chain as it is.
pub frame :
    {h g : Heap} (koniec p : Pointer) (cs : List Cell)
    → Chain h koniec p cs
    → ((a : Pointer) → has a cs ≡ true → g a ≡ h a)
    → Chain g koniec p cs
frame koniec p [] e same = e
frame koniec p (c ∷ cs) (e, ne, nk, out, q, at, rest) same = (
  e,
  ne,
  nk,
  out,
  q,
  ground (arith, same c.address),
  frame koniec q cs rest λ a i. same a (ground arith),
)

pub load_lem : (h : Heap) {p : Pointer} {n : Element} → p ≢ null → h p ≡ some n → load p h ≡ some n
unfolding load
load_lem h ne at = ground arith
