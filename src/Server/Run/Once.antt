-- ===== src/Server/Run/Once.antt =====
-- A process that waits is in one slot of the tables of projekt/servers/cv/main.c: CS_EINTR makes
-- the server answer it once.
use minix_server_of_mutex_an.Base.{
  ℕ, ◌+◌, ◌≡◌, ◌⊎◌, refl, ap, sym, ◌∙◌, subst, Bool, true, false, Option, none, some, List, [], ◌∷◌,
  All, ◌==◌, if◌then◌else◌, Bool-cases, inl, inr, ==_refl, ==_ne, arith,
}
use minix_server_of_mutex_an.Slots.{Slotted}
use minix_server_of_mutex_an.Slots.Table.{szukaj, Distinct}
use minix_server_of_mutex_an.Server.Run.Places.{number}

-- Whether a number is the one that is looked for.
abbrev pub hits : Option ℕ → ℕ → Bool
hits none n = false
hits (some m) n = m == n

abbrev pub is_some : Option ℕ → Bool
is_some none = false
is_some (some m) = true

module _ {A : Type 0} ⦃t : Slotted A⦄ (occurs : A → ℕ) (test : A → Bool) where
  abbrev pub total : List A → ℕ
  total [] = 0
  total (x ∷ xs) = (if test x then 1 else 0) + total xs

  abbrev pub occurs_in : Option A → ℕ
  occurs_in none = 0
  occurs_in (some x) = occurs x

  -- The test says whether the slot is used and something occurs in it.
  pub record Fits (x : A) : Type 0 where
    pub unused : t.uzywany x ≡ false → test x ≡ false
    pub used : (b : Bool) → t.uzywany x ≡ true → occurs x ≡ number b → test x ≡ b

  abbrev Hits : Option ℕ → List A → Type 0
  Hits target xs = (n : ℕ) → occurs_in (szukaj xs n) ≡ number (hits target n)

  Hits-nil : (target : Option ℕ) → Hits target [] → number (is_some target) ≡ 0
  unfolding szukaj
  Hits-nil none h = refl
  Hits-nil (some m) h = absurd (ground (arith, h m, ==_refl m))

  Hits-unused :
      (target : Option ℕ) (x : A) (xs : List A)
      → t.uzywany x ≡ false
      → Hits target (x ∷ xs)
      → Hits target xs
  unfolding szukaj
  Hits-unused target x xs u h n =
      let skip : szukaj (x ∷ xs) n ≡ szukaj xs n = rw u in ap occurs_in (sym skip) ∙ h n

  first_found : (x : A) (xs : List A) → t.uzywany x ≡ true → szukaj (x ∷ xs) (t.numer x) ≡ some x
  unfolding szukaj
  first_found x xs u = rw (u, ==_refl (t.numer x))

  later_found :
      (x : A) (xs : List A) (n : ℕ) → (t.numer x == n) ≡ false → szukaj (x ∷ xs) n ≡ szukaj xs n
  unfolding szukaj
  later_found x xs n other = elim (Bool-cases (t.uzywany x)) [
    | inl u ↦ rw (u, other)
    | inr u ↦ rw u
  ]

  -- The rest of the table, with what is still looked for.
  Hits-rest :
      (target rest : Option ℕ) (x : A) (xs : List A)
      → szukaj xs (t.numer x) ≡ none
      → hits rest (t.numer x) ≡ false
      → ((n : ℕ) → (t.numer x == n) ≡ false → hits rest n ≡ hits target n)
      → Hits target (x ∷ xs)
      → Hits rest xs
  Hits-rest target rest x xs absent gone same h n = elim (Bool-cases (t.numer x == n)) [
    | inl e ↦
        let is_n : t.numer x ≡ n = ground arith in
        subst (λ m. occurs_in (szukaj xs m) ≡ number (hits rest m)) is_n
          (ap occurs_in absent ∙ sym (ap number gone))
    | inr e ↦ ap occurs_in (sym (later_found x xs n e)) ∙ (h n ∙ ap number (sym (same n e)))
  ]

  pub total-once :
      (target : Option ℕ) (xs : List A)
      → Distinct xs
      → All Fits xs
      → Hits target xs
      → total xs ≡ number (is_some target)
  unfolding Distinct
  total-once target [] d f h = sym (Hits-nil target h)
  total-once target (x ∷ xs) d (f, fs) h = elim (Bool-cases (t.uzywany x)) [
    | inr u ↦
        rw (f.unused u) (omega (arith, total-once target xs d.1 fs (Hits-unused target x xs u h)))
    | inl u ↦
        let here : occurs x ≡ number (hits target (t.numer x)) =
          ap occurs_in (sym (first_found x xs u)) ∙ h (t.numer x) in
        used target (λ rest. total-once rest xs d.1 fs) u here
          (Bool-cases (hits target (t.numer x))) h
  ]
    where
      used :
          (target : Option ℕ)
          → ((rest : Option ℕ) → Hits rest xs → total xs ≡ number (is_some rest))
          → t.uzywany x ≡ true
          → occurs x ≡ number (hits target (t.numer x))
          → (hits target (t.numer x) ≡ true) ⊎ (hits target (t.numer x) ≡ false)
          → Hits target (x ∷ xs)
          → total (x ∷ xs) ≡ number (is_some target)
      used target next u here (inr e) h =
          let rest = Hits-rest target target x xs (d.0 u) e (λ n ne. refl) h in
          rw (f.used (hits target (t.numer x)) u here, e) (omega (arith, next target rest))
      used none next u here (inl e) h = cc
      used (some m) next u here (inl e) h =
          let rest =
            Hits-rest (some m) none x xs (d.0 u) refl (λ n ne. sym (==_ne m n λ same. ground arith))
              h in
          rw (f.used (m == t.numer x) u here, e) (omega (arith, next none rest))
