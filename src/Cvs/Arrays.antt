-- ===== src/Cvs/Arrays.antt =====
-- The arrays `procesy` and `muteksy` of a condition variable as one list of waiters.
use minix_server_of_mutex_an.Base.{
  ℕ, zero, suc, ◌≤◌, ◌<◌, ◌≡◌, refl, ap, List, [], ◌∷◌, ◌++◌, length, set, arith,
}
use minix_server_of_mutex_an.Spec.{Waiter, waiter}

-- The first `n` entries of both arrays.
unfoldable pub zip_take : ℕ → List ℕ → List ℕ → List Waiter
zip_take zero ps ns = []
zip_take (suc k) [] ns = []
zip_take (suc k) (p ∷ ps) [] = []
zip_take (suc k) (p ∷ ps) (n ∷ ns) = waiter p n ∷ zip_take k ps ns

pub length-zip_take :
    (k : ℕ) (ps ns : List ℕ) → k ≤ length ps → k ≤ length ns → length (zip_take k ps ns) ≡ k
unfolding zip_take
length-zip_take zero ps ns h g = refl
length-zip_take (suc k) [] ns h g = absurd (omega arith)
length-zip_take (suc k) (p ∷ ps) [] h g = absurd (omega arith)
length-zip_take (suc k) (p ∷ ps) (n ∷ ns) h g =
    ap suc (length-zip_take k ps ns (omega arith) (omega arith))

-- A write behind the first `k` entries adds one to them.
pub zip_take-set :
    (k : ℕ) (ps ns : List ℕ) (p n : ℕ)
    → k < length ps
    → k < length ns
    → zip_take (suc k) (set ps k p) (set ns k n) ≡ zip_take k ps ns ++ waiter p n ∷ []
unfolding zip_take
zip_take-set k [] ns p n h g = absurd (omega arith)
zip_take-set k (x ∷ ps) [] p n h g = absurd (omega arith)
zip_take-set zero (x ∷ ps) (y ∷ ns) p n h g = refl
zip_take-set (suc k) (x ∷ ps) (y ∷ ns) p n h g =
    ap (λ ws. waiter x y ∷ ws) (zip_take-set k ps ns p n (omega arith) (omega arith))
