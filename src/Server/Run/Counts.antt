-- ===== src/Server/Run/Counts.antt =====
-- How many slots of a table of projekt/servers/cv/main.c are in use: not more than there are names.
use minix_server_of_mutex_an.Base.{
  ℕ, suc, ◌+◌, ◌<◌, ◌≤◌, ◌≡◌, ◌≢◌, refl, ap, sym, ◌∙◌, subst, false, none, some, List, [], ◌∷◌,
  ◌==◌, if◌then◌else◌, length, Bool-cases, inl, inr, ==_refl, ==_ne, arith,
}
use minix_server_of_mutex_an.Queue.{erase}
use minix_server_of_mutex_an.Slots.{Slotted}
use minix_server_of_mutex_an.Slots.Table.{szukaj, Distinct, uzywane}

-- How often a number is in a list.
abbrev pub times : ℕ → List ℕ → ℕ
times n [] = 0
times n (x ∷ xs) = (if x == n then 1 else 0) + times n xs

pub times-le : (n : ℕ) (xs : List ℕ) → times n xs ≤ length xs
times-le n [] = omega arith
times-le n (x ∷ xs) = ground (arith, times-le n xs)

-- The list without a number.
abbrev pub without : ℕ → List ℕ → List ℕ
without n [] = []
without n (x ∷ xs) = if x == n then without n xs else x ∷ without n xs

pub length-without : (n : ℕ) (xs : List ℕ) → length (without n xs) + times n xs ≡ length xs
length-without n [] = omega arith
length-without n (x ∷ xs) = elim (Bool-cases (x == n)) [
  | inl e ↦ rw e (omega (arith, length-without n xs))
  | inr e ↦ rw e (omega (arith, length-without n xs))
]

pub times-without : (n m : ℕ) (xs : List ℕ) → m ≢ n → times m (without n xs) ≡ times m xs
times-without n m [] ne = refl
times-without n m (x ∷ xs) ne =
    let rest = times-without n m xs ne in
    elim (Bool-cases (x == n)) [
      | inl e ↦
          let is_n : x ≡ n = ground arith in
          let other : (x == m) ≡ false = ==_ne x m λ is_m. ne (sym is_m ∙ is_n) in
          rw (e, other) (omega (arith, rest))
      | inr e ↦ rw e (omega (arith, rest))
    ]

pub length-erase : (n : ℕ) (xs : List ℕ) → 0 < times n xs → length xs ≡ suc (length (erase n xs))
length-erase n [] h = absurd (omega arith)
length-erase n (x ∷ xs) h = elim (Bool-cases (x == n)) [
  | inl e ↦ rw e
  | inr e ↦ let rest = length-erase n xs (ground (arith, h)) in rw e (ap suc rest)
]

pub times-erase : (n m : ℕ) (xs : List ℕ) → m ≢ n → times m (erase n xs) ≡ times m xs
times-erase n m [] ne = refl
times-erase n m (x ∷ xs) ne = elim (Bool-cases (x == n)) [
  | inl e ↦
      let is_n : x ≡ n = ground arith in
      let other : (x == m) ≡ false = ==_ne x m λ is_m. ne (sym is_m ∙ is_n) in
      rw (e, other) (omega arith)
  | inr e ↦ rw e (omega (arith, times-erase n m xs ne))
]

module _ {A : Type 0} ⦃t : Slotted A⦄ where
  -- Every used slot has its number in the list.
  abbrev pub IsListed : List ℕ → List A → Type 0
  IsListed ns xs = (n : ℕ) (x : A) → szukaj xs n ≡ some x → 0 < times n ns

  pass_free :
      (x : A) (xs : List A) (ns : List ℕ)
      → t.uzywany x ≡ false
      → IsListed ns (x ∷ xs)
      → IsListed ns xs
  unfolding szukaj
  pass_free x xs ns free h n y e = h n y (rw free e)

  apart_numbers :
      (x y : A) (xs : List A) (n : ℕ)
      → szukaj xs (t.numer x) ≡ none
      → szukaj xs n ≡ some y
      → n ≢ t.numer x
  apart_numbers x y xs n absent found same =
      let both : none ≡ some y = sym absent ∙ (sym (ap (szukaj xs) same) ∙ found) in cc

  pass_used :
      (x : A) (xs : List A) (ns : List ℕ)
      → szukaj xs (t.numer x) ≡ none
      → IsListed ns (x ∷ xs)
      → IsListed (erase (t.numer x) ns) xs
  unfolding szukaj
  pass_used x xs ns absent h n y e =
      let ne = apart_numbers x y xs n absent e in
      let other : (t.numer x == n) ≡ false = ==_ne (t.numer x) n λ same. ne (sym same) in
      subst (λ c. 0 < c) (sym (times-erase (t.numer x) n ns ne)) (h n y (passed x xs n other e))
    where
      passed :
          (x : A) (xs : List A) (n : ℕ) {y : A}
          → (t.numer x == n) ≡ false
          → szukaj xs n ≡ some y
          → szukaj (x ∷ xs) n ≡ some y
      passed x xs n other e = elim (Bool-cases (t.uzywany x)) [
        | inl u ↦ rw (u, other) e
        | inr u ↦ rw u e
      ]

  pub uzywane-IsListed :
      (xs : List A) (ns : List ℕ) → Distinct xs → IsListed ns xs → uzywane xs ≤ length ns
  unfolding uzywane Distinct szukaj
  uzywane-IsListed [] ns d h = omega arith
  uzywane-IsListed (x ∷ xs) ns d h = elim (Bool-cases (t.uzywany x)) [
    | inl u ↦
        let here = h (t.numer x) x (rw (u, ==_refl (t.numer x))) in
        let rest = uzywane-IsListed xs (erase (t.numer x) ns) d.1 (pass_used x xs ns (d.0 u) h) in
        rw u (omega (arith, length-erase (t.numer x) ns here, rest))
    | inr u ↦
        let rest = uzywane-IsListed xs ns d.1 (pass_free x xs ns u h) in rw u (omega (arith, rest))
  ]
