-- ===== src/Slots/Table.antt =====
-- A table as a map from numbers: what the searches find.
use minix_server_of_mutex_an.Base.{
  ℕ, zero, suc, ◌+◌, ◌<◌, ◌≤◌, ◌≡◌, refl, sym, subst, ==_iff, inl, inr, true, false, Option, none,
  some, List, [], ◌∷◌, if◌then◌else◌, Bool-cases, get_elem?, length, All, arith,
}
use minix_server_of_mutex_an.Slots.{Slotted, pasuje, indeks, wolny}

module _ {A : Type 0} ⦃t : Slotted A⦄ where
  -- The first used slot with the number.
  unfoldable pub szukaj : List A → ℕ → Option A
  szukaj [] n = none
  szukaj (x ∷ xs) n = if pasuje x n then some x else szukaj xs n

  -- No two used slots have one number.
  unfoldable pub Distinct : List A → Type 0
  Distinct [] = Unit {0}
  Distinct (x ∷ xs) = (t.uzywany x ≡ true → szukaj xs (t.numer x) ≡ none) × Distinct xs

  unfoldable pub uzywane : List A → ℕ
  uzywane [] = 0
  uzywane (x ∷ xs) = (if t.uzywany x then 1 else 0) + uzywane xs

  pub uzywane-le : (xs : List A) → uzywane xs ≤ length xs
  unfolding uzywane
  uzywane-le [] = omega arith
  uzywane-le (x ∷ xs) = ground (arith, uzywane-le xs)

  -- Slot `i` is the first used one with the number `n`, and holds `x`.
  pub data Slot (n : ℕ) : List A → ℕ → A → Type 0 where
    here : {x : A} {xs : List A} → pasuje x n ≡ true → Slot n (x ∷ xs) 0 x
    there :
        {x y : A} {xs : List A} {i : ℕ}
        → pasuje y n ≡ false
        → Slot n xs i x
        → Slot n (y ∷ xs) (suc i) x

  -- Slot `i` is the first free one, and holds `x`.
  pub data Free : List A → ℕ → A → Type 0 where
    here : {x : A} {xs : List A} → t.uzywany x ≡ false → Free (x ∷ xs) 0 x
    there :
        {x y : A} {xs : List A} {i : ℕ} → t.uzywany y ≡ true → Free xs i x → Free (y ∷ xs) (suc i) x

  -- What a search for `n` gives.
  pub data Szukanie (n : ℕ) (xs : List A) : Type 0 where
    brak : indeks xs n ≡ none → szukaj xs n ≡ none → Szukanie n xs
    jest : {i : ℕ} {x : A} → Slot n xs i x → Szukanie n xs

  Szukanie-cons :
      {x : A} {xs : List A} {n : ℕ} → pasuje x n ≡ false → Szukanie n xs → Szukanie n (x ∷ xs)
  unfolding szukaj indeks
  Szukanie-cons e (brak p q) = brak (rw (e, p)) (rw (e, q))
  Szukanie-cons e (jest s) = jest (there e s)

  pub szukanie : (n : ℕ) (xs : List A) → Szukanie n xs
  unfolding szukaj indeks
  szukanie n [] = brak refl refl
  szukanie n (x ∷ xs) = elim (Bool-cases (pasuje x n)) [
    | inl e ↦ jest (here e)
    | inr e ↦ Szukanie-cons e (szukanie n xs)
  ]

  module _ {n : ℕ} where
    pub indeks-Slot : {xs : List A} {i : ℕ} {x : A} → Slot n xs i x → indeks xs n ≡ some i
    unfolding indeks
    indeks-Slot (here e) = rw e
    indeks-Slot (there e s) = rw (e, indeks-Slot s)

    pub get_elem?-Slot : {xs : List A} {i : ℕ} {x : A} → Slot n xs i x → get_elem? xs i ≡ some x
    get_elem?-Slot (here e) = refl
    get_elem?-Slot (there e s) = get_elem?-Slot s

    pub szukaj-Slot : {xs : List A} {i : ℕ} {x : A} → Slot n xs i x → szukaj xs n ≡ some x
    unfolding szukaj
    szukaj-Slot (here e) = rw e
    szukaj-Slot (there e s) = rw (e, szukaj-Slot s)

    pub pasuje-Slot : {xs : List A} {i : ℕ} {x : A} → Slot n xs i x → pasuje x n ≡ true
    pasuje-Slot (here e) = e
    pasuje-Slot (there e s) = pasuje-Slot s

    pub used-Slot :
        {xs : List A} {i : ℕ} {x : A} → Slot n xs i x → (t.uzywany x ≡ true) × (t.numer x ≡ n)
    used-Slot {x} s = ground (arith, pasuje-Slot s)

  pub wolny-Free : {xs : List A} {i : ℕ} {x : A} → Free xs i x → wolny xs ≡ some i
  unfolding wolny
  wolny-Free (here e) = rw e
  wolny-Free (there e s) = rw (e, wolny-Free s)

  -- A slot is free unless all are used.
  pub Free-exists : (xs : List A) → uzywane xs < length xs → (i : ℕ) × (x : A) × Free xs i x
  unfolding uzywane
  Free-exists [] h = absurd (omega arith)
  Free-exists (x ∷ xs) h = elim (Bool-cases (t.uzywany x)) [
    | inr e ↦ (0, x, here e)
    | inl e ↦ let (i, y, f) = Free-exists xs (ground arith) in (suc i, y, there e f)
  ]

  pub wolny-full : (xs : List A) → length xs ≤ uzywane xs → wolny xs ≡ none
  unfolding uzywane wolny
  wolny-full [] h = refl
  wolny-full (x ∷ xs) h = ground (arith, wolny-full xs, uzywane-le xs)

  pub uzywany-Free : {xs : List A} {i : ℕ} {x : A} → Free xs i x → t.uzywany x ≡ false
  uzywany-Free (here e) = e
  uzywany-Free (there e s) = uzywany-Free s

  pub Free-All : (P : A → Type 0) {xs : List A} {i : ℕ} {x : A} → Free xs i x → All P xs → P x
  Free-All P (here e) h = h.0
  Free-All P (there e s) h = Free-All P s h.1

  pub Slot-All :
      {n : ℕ} (P : A → Type 0) {xs : List A} {i : ℕ} {x : A} → Slot n xs i x → All P xs → P x
  Slot-All P (here e) h = h.0
  Slot-All P (there e s) h = Slot-All P s h.1

  -- The used slot at an index is the one that a search for its number finds.
  pub get_elem?→Slot :
      (xs : List A) (i : ℕ) {x : A}
      → Distinct xs
      → get_elem? xs i ≡ some x
      → t.uzywany x ≡ true
      → Slot (t.numer x) xs i x
  unfolding Distinct
  get_elem?→Slot [] i d e u = cc
  get_elem?→Slot (y ∷ ys) zero {x} d e u =
      let same : y ≡ x = ground arith in
      subst (λ z. Slot (t.numer x) (z ∷ ys) 0 x) (sym same) (here (ground arith))
  get_elem?→Slot (y ∷ ys) (suc i) {x} d e u =
      let s = get_elem?→Slot ys i d.1 e u in
      there (ground (arith, szukaj-Slot s, ==_iff (t.numer y) (t.numer x))) s
