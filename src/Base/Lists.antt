-- ===== src/Base/Lists.antt =====
-- Arrays and sequences as lists, indexed by native numbers.
use Prim.Native.Nat.{ℕ, zero, suc, ◌+◌}
use mathlib.Core.Path.{◌≡◌, refl, ap}
use mathlib.Core.List.{List, [], ◌∷◌, ◌++◌}
use mathlib.Core.Option.{Option, none, some}
use native.Mathlib.Omega.{arith}

module _ {ℓ} {A : Type ℓ} where
  abbrev pub length : List A → ℕ
  length [] = 0
  length (x ∷ xs) = suc (length xs)

  abbrev pub get_elem? : List A → ℕ → Option A
  get_elem? [] i = none
  get_elem? (x ∷ xs) zero = some x
  get_elem? (x ∷ xs) (suc i) = get_elem? xs i

  -- A write, `none` out of bounds.
  abbrev pub set : List A → ℕ → A → List A
  set [] i v = []
  set (x ∷ xs) zero v = v ∷ xs
  set (x ∷ xs) (suc i) v = x ∷ set xs i v

  abbrev pub modify : List A → ℕ → (A → A) → List A
  modify [] i f = []
  modify (x ∷ xs) zero f = f x ∷ xs
  modify (x ∷ xs) (suc i) f = x ∷ modify xs i f

  abbrev pub drop : ℕ → List A → List A
  drop zero xs = xs
  drop (suc n) [] = []
  drop (suc n) (x ∷ xs) = drop n xs

  abbrev pub replicate : ℕ → A → List A
  replicate zero a = []
  replicate (suc n) a = a ∷ replicate n a

  abbrev pub All {κ} : (A → Type κ) → List A → Type κ
  All P [] = Unit
  All P (x ∷ xs) = P x × All P xs

  pub length-append : (xs ys : List A) → length (xs ++ ys) ≡ length xs + length ys
  length-append [] ys = omega arith
  length-append (x ∷ xs) ys = omega (arith, length-append xs ys)

module _ {ℓ} {A : Type ℓ} where
  pub length-set : (xs : List A) (i : ℕ) (v : A) → length (set xs i v) ≡ length xs
  length-set [] i v = refl
  length-set (x ∷ xs) zero v = refl
  length-set (x ∷ xs) (suc i) v = ap suc (length-set xs i v)

  pub length-modify : (xs : List A) (i : ℕ) (f : A → A) → length (modify xs i f) ≡ length xs
  length-modify [] i f = refl
  length-modify (x ∷ xs) zero f = refl
  length-modify (x ∷ xs) (suc i) f = ap suc (length-modify xs i f)

  -- The entry at the head of a suffix, and the suffix behind it, which a write there leaves.
  pub get_elem?-drop :
      (xs : List A) (j : ℕ) {y : A} {ys : List A} → drop j xs ≡ y ∷ ys → get_elem? xs j ≡ some y
  get_elem?-drop [] zero h = cc
  get_elem?-drop [] (suc j) h = cc
  get_elem?-drop (x ∷ xs) zero h = ground arith
  get_elem?-drop (x ∷ xs) (suc j) h = get_elem?-drop xs j h

  pub drop-set :
      (xs : List A) (j : ℕ) (v : A) {y : A} {ys : List A}
      → drop j xs ≡ y ∷ ys
      → drop (suc j) (set xs j v) ≡ ys
  drop-set [] zero v h = cc
  drop-set [] (suc j) v h = cc
  drop-set (x ∷ xs) zero v h = ground arith
  drop-set (x ∷ xs) (suc j) v h = drop-set xs j v h

  pub modify_id : (xs : List A) (i : ℕ) → modify xs i (λ x. x) ≡ xs
  modify_id [] i = refl
  modify_id (x ∷ xs) zero = refl
  modify_id (x ∷ xs) (suc i) = ap (λ ys. x ∷ ys) (modify_id xs i)

  pub get_elem?-modify :
      (xs : List A) (i : ℕ) (f : A → A) {x : A}
      → get_elem? xs i ≡ some x
      → get_elem? (modify xs i f) i ≡ some (f x)
  get_elem?-modify [] i f h = cc
  get_elem?-modify (x ∷ xs) zero f h = ground arith
  get_elem?-modify (x ∷ xs) (suc i) f h = get_elem?-modify xs i f h

  pub modify-modify :
      (xs : List A) (i : ℕ) (f g : A → A) → modify (modify xs i f) i g ≡ modify xs i (λ x. g (f x))
  modify-modify [] i f g = refl
  modify-modify (x ∷ xs) zero f g = refl
  modify-modify (x ∷ xs) (suc i) f g = ap (λ ys. x ∷ ys) (modify-modify xs i f g)

  pub length-replicate : (n : ℕ) (a : A) → length (replicate n a) ≡ n
  length-replicate zero a = refl
  length-replicate (suc n) a = ap suc (length-replicate n a)

  pub replicate-add : (n m : ℕ) (a : A) → replicate (n + m) a ≡ replicate n a ++ replicate m a
  replicate-add zero m a = let e : 0 + m ≡ m = omega arith in rw e
  replicate-add (suc n) m a =
      let e : suc n + m ≡ suc (n + m) = omega arith in rw (e, replicate-add n m a)

  pub All-replicate {κ} : (P : A → Type κ) (n : ℕ) {a : A} → P a → All P (replicate n a)
  All-replicate P zero h = tt
  All-replicate P (suc n) h = (h, All-replicate P n h)

  -- Reads and writes behind a prefix.
  pub get_elem?-append :
      (pre : List A) (x : A) (rest : List A) → get_elem? (pre ++ x ∷ rest) (length pre) ≡ some x
  get_elem?-append [] x rest = refl
  get_elem?-append (y ∷ pre) x rest = get_elem?-append pre x rest

  pub modify-append :
      (pre : List A) (x : A) (rest : List A) (f : A → A)
      → modify (pre ++ x ∷ rest) (length pre) f ≡ pre ++ f x ∷ rest
  modify-append [] x rest f = refl
  modify-append (y ∷ pre) x rest f = ap (λ l. y ∷ l) (modify-append pre x rest f)
