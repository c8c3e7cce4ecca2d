-- ===== src/Slots/Write.antt =====
-- A table as a map from numbers: what a write to a slot does.
use minix_server_of_mutex_an.Base.{
  ℕ, zero, suc, ◌≡◌, refl, true, false, none, some, List, [], ◌∷◌, ◌==◌, if◌then◌else◌, get_elem?,
  modify, All, arith,
}
use minix_server_of_mutex_an.Slots.{Slotted}
use minix_server_of_mutex_an.Slots.Table.{szukaj, Distinct, uzywane, Slot, Free, here, there}

module _ {A : Type 0} ⦃t : Slotted A⦄ where
  pub All-modify :
      (P : A → Type 0) (f : A → A) (xs : List A) (i : ℕ)
      → ((x : A) → P x → P (f x))
      → All P xs
      → All P (modify xs i f)
  All-modify P f [] i g h = tt
  All-modify P f (x ∷ xs) zero g h = (g x h.0, h.1)
  All-modify P f (x ∷ xs) (suc i) g h = (h.0, All-modify P f xs i g h.1)

  -- The write to the slot that a search found.
  pub All-modify-Slot :
      {n : ℕ} (P : A → Type 0) (f : A → A) {xs : List A} {i : ℕ} {x : A}
      → Slot n xs i x
      → P (f x)
      → All P xs
      → All P (modify xs i f)
  All-modify-Slot P f (here e) p h = (p, h.1)
  All-modify-Slot P f (there e s) p h = (h.0, All-modify-Slot P f s p h.1)

  module _ {n : ℕ} where
    -- A write that keeps the number of a used slot.
    pub szukaj-modify :
        {xs : List A} {i : ℕ} {x : A} (f : A → A) (k : ℕ)
        → Slot n xs i x
        → t.uzywany (f x) ≡ true
        → t.numer (f x) ≡ n
        → szukaj (modify xs i f) k ≡ (if k == n then some (f x) else szukaj xs k)
    unfolding szukaj
    szukaj-modify f k (here e) u m = ground arith
    szukaj-modify f k (there e s) u m = ground (arith, szukaj-modify f k s u m)

    -- A write that frees the slot.
    pub szukaj-release :
        {xs : List A} {i : ℕ} {x : A} (f : A → A) (k : ℕ)
        → Slot n xs i x
        → Distinct xs
        → t.uzywany (f x) ≡ false
        → szukaj (modify xs i f) k ≡ (if k == n then none else szukaj xs k)
    unfolding szukaj Distinct
    szukaj-release f k (here e) d u = ground arith
    szukaj-release f k (there e s) d u = ground (arith, szukaj-release f k s d.1 u)

    pub Distinct-modify :
        {xs : List A} {i : ℕ} {x : A} (f : A → A)
        → Slot n xs i x
        → t.uzywany (f x) ≡ true
        → t.numer (f x) ≡ n
        → Distinct xs
        → Distinct (modify xs i f)
    unfolding Distinct szukaj
    Distinct-modify f (here e) u m d = ground arith
    Distinct-modify f (there {y} e s) u m d =
        (λ h. ground (arith, szukaj-modify f (t.numer y) s u m), Distinct-modify f s u m d.1)

    pub Distinct-release :
        {xs : List A} {i : ℕ} {x : A} (f : A → A)
        → Slot n xs i x
        → Distinct xs
        → t.uzywany (f x) ≡ false
        → Distinct (modify xs i f)
    unfolding Distinct szukaj
    Distinct-release f (here e) d u = ground arith
    Distinct-release f (there {y} e s) d u =
        (λ h. ground (arith, szukaj-release f (t.numer y) s d.1 u), Distinct-release f s d.1 u)

  module _ {n : ℕ} (f : A → A) {x : A} (used : t.uzywany (f x) ≡ true)
      (num : t.numer (f x) ≡ n) where
    -- A write that puts the number `n`, which no used slot has, into a free slot.
    pub szukaj-take :
        {xs : List A} {i : ℕ} (k : ℕ)
        → Free xs i x
        → szukaj xs n ≡ none
        → szukaj (modify xs i f) k ≡ (if k == n then some (f x) else szukaj xs k)
    unfolding szukaj
    szukaj-take k (here e) a = ground arith
    szukaj-take k (there e s) a = ground (arith, szukaj-take k s)

    pub Distinct-take :
        {xs : List A} {i : ℕ}
        → Free xs i x
        → szukaj xs n ≡ none
        → Distinct xs
        → Distinct (modify xs i f)
    unfolding Distinct szukaj
    Distinct-take (here e) a d = ground arith
    Distinct-take (there {y} e s) a d =
        (λ h. ground (arith, szukaj-take (t.numer y) s), Distinct-take s (ground arith) d.1)

  pub All-modify-Free :
      (P : A → Type 0) (f : A → A) {xs : List A} {i : ℕ} {x : A}
      → Free xs i x
      → P (f x)
      → All P xs
      → All P (modify xs i f)
  All-modify-Free P f (here e) p h = (p, h.1)
  All-modify-Free P f (there e s) p h = (h.0, All-modify-Free P f s p h.1)

  pub get_elem?-modify-Free :
      (f : A → A) {xs : List A} {i : ℕ} {x : A}
      → Free xs i x
      → get_elem? (modify xs i f) i ≡ some (f x)
  get_elem?-modify-Free f (here e) = refl
  get_elem?-modify-Free f (there e s) = get_elem?-modify-Free f s

  pub uzywane-modify :
      {n : ℕ} (f : A → A) {xs : List A} {i : ℕ} {x : A}
      → Slot n xs i x
      → t.uzywany (f x) ≡ true
      → uzywane (modify xs i f) ≡ uzywane xs
  unfolding uzywane
  uzywane-modify f (here e) u = ground arith
  uzywane-modify f (there e s) u = ground (arith, uzywane-modify f s u)

  pub uzywane-take :
      (f : A → A) {xs : List A} {i : ℕ} {x : A}
      → Free xs i x
      → t.uzywany (f x) ≡ true
      → uzywane (modify xs i f) ≡ suc (uzywane xs)
  unfolding uzywane
  uzywane-take f (here e) u = ground arith
  uzywane-take f (there e s) u = ground (arith, uzywane-take f s u)

  pub uzywane-release :
      {n : ℕ} (f : A → A) {xs : List A} {i : ℕ} {x : A}
      → Slot n xs i x
      → t.uzywany (f x) ≡ false
      → suc (uzywane (modify xs i f)) ≡ uzywane xs
  unfolding uzywane
  uzywane-release f (here e) u = ground arith
  uzywane-release f (there e s) u = ground (arith, uzywane-release f s u)
