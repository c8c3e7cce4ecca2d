-- ===== src/Pm/Parameters.antt =====
-- `find_param` of projekt/servers/pm/utility.c: the boot parameters, a sequence of `name=value`
-- strings that each end with a 0, with one 0 more at the end. A read behind the parameters, or
-- a loop that is not done when its fuel is, is `none`.
use minix_server_of_mutex_an.Base.{
  ℕ, zero, suc, ◌<◌, ◌≡◌, refl, ◌∙◌, false, Option, none, some, List, [], ◌∷◌, ◌++◌, ◌==◌,
  if◌then◌else◌, ◌>>=◌, length, All, Bool-cases, inl, inr, arith,
}
use minix_server_of_mutex_an.Pm.{same_name}

-- The inner `for`: where `namep` and `envp` stop.
abbrev pub dopasuj : List ℕ → List ℕ → Option (List ℕ × List ℕ)
dopasuj [] env = some ([], env)
dopasuj (n ∷ ns) [] = none
dopasuj (n ∷ ns) (e ∷ es) = if n == e then dopasuj ns es else some (n ∷ ns, e ∷ es)

-- `while (*envp++ != 0)`
abbrev pub pomin : List ℕ → Option (List ℕ)
pomin [] = none
pomin (e ∷ es) = if e == 0 then some es else pomin es

abbrev pub rowna_sie : ℕ
rowna_sie = 61

-- A round after the inner `for`, with what the next rounds do.
abbrev pub sprawdz :
    (List ℕ → Option (Option (List ℕ))) → List ℕ × List ℕ → Option (Option (List ℕ))
sprawdz next (n ∷ ns, env) = pomin env >>= next
sprawdz next ([], []) = none
sprawdz next ([], e ∷ es) = if e == rowna_sie then some (some es) else pomin (e ∷ es) >>= next

unfoldable pub find_param : ℕ → List ℕ → List ℕ → Option (Option (List ℕ))
find_param zero name env = none
find_param (suc f) name [] = none
find_param (suc f) name (e ∷ es) =
    if e == 0 then some none else dopasuj name (e ∷ es) >>= sprawdz (find_param f name)

-- A parameter: its name and its value.
pub record Parameter : Type 0 where
  pub name : List ℕ
  pub value : List ℕ

-- The parameters as they lie in memory.
abbrev pub params : List Parameter → List ℕ
params [] = 0 ∷ []
params (p ∷ ps) = p.name ++ rowna_sie ∷ (p.value ++ 0 ∷ params ps)

-- Where the value of the first parameter of the name begins.
abbrev pub lookup : List ℕ → List Parameter → Option (List ℕ)
lookup name [] = none
lookup name (p ∷ ps) =
    if same_name name p.name then some (p.value ++ 0 ∷ params ps) else lookup name ps

-- Names have neither 0 nor `=` in them, and values no 0.
abbrev pub IsName : List ℕ → Type 0
IsName = All λ x. ((x == 0) ≡ false) × ((x == rowna_sie) ≡ false)

abbrev pub IsValue : List ℕ → Type 0
IsValue = All λ x. (x == 0) ≡ false

pomin-name : (n w : List ℕ) → IsName n → pomin (n ++ rowna_sie ∷ w) ≡ pomin w
pomin-name [] w ok = refl
pomin-name (e ∷ es) w (ok, oks) = rw ok.0 (pomin-name es w oks)

pomin-value : (v w : List ℕ) → IsValue v → pomin (v ++ 0 ∷ w) ≡ some w
pomin-value [] w ok = refl
pomin-value (e ∷ es) w (ok, oks) = rw ok (pomin-value es w oks)

-- One round on a parameter.
round :
    (next : List ℕ → Option (Option (List ℕ))) (name n w : List ℕ)
    → IsName name
    → IsName n
    → (dopasuj name (n ++ rowna_sie ∷ w) >>= sprawdz next)
      ≡ (if same_name name n then some (some w) else pomin w >>= next)
round next [] [] w a b = refl
round next [] (e ∷ es) w a (b, bs) = rw (b.1, b.0, pomin-name es w bs)
round next (m ∷ ms) [] w (a, aes) b = rw a.1
round next (m ∷ ms) (e ∷ es) w (a, aes) (b, bs) = elim (Bool-cases (m == e)) [
  | inl t ↦ rw t (round next ms es w aes bs)
  | inr t ↦ rw (t, b.0, pomin-name es w bs)
]

not_last :
    (f : ℕ) (name n w : List ℕ)
    → IsName n
    → find_param (suc f) name (n ++ rowna_sie ∷ w)
      ≡ (dopasuj name (n ++ rowna_sie ∷ w) >>= sprawdz (find_param f name))
unfolding find_param
not_last f name [] w ok = refl
not_last f name (e ∷ es) w (ok, oks) = rw (find_param, ok.0)

-- `find_param` returns, and finds where the value of the first parameter of the name begins, or
-- that there is none. The conditions: no name has a 0 or a `=` in it and no value a 0, and the fuel
-- exceeds the number of parameters.
pub find_param-lookup :
    (fuel : ℕ) (name : List ℕ) (ps : List Parameter)
    → IsName name
    → All (λ p. IsName p.name × IsValue p.value) ps
    → length ps < fuel
    → find_param fuel name (params ps) ≡ some (lookup name ps)
unfolding find_param
find_param-lookup zero name ps a b enough = absurd (omega arith)
find_param-lookup (suc f) name [] a b enough = refl
find_param-lookup (suc f) name (p ∷ ps) a ((n, v), bs) enough =
    let rest = find_param-lookup f name ps a bs (omega arith) in
    not_last f name p.name (p.value ++ 0 ∷ params ps) n
    ∙ round (find_param f name) name p.name (p.value ++ 0 ∷ params ps) a n
    ∙ elim (Bool-cases (same_name name p.name)) [
      | inl t ↦ rw t
      | inr t ↦ rw (t, pomin-value p.value (params ps) v) rest
    ]
