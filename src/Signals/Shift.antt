-- ===== src/Signals/Shift.antt =====
-- Removal of one process from the arrays of a condition variable: the search and the shift of
-- projekt/servers/cv/main.c drop one entry of the list of waiters.
use mathlib.Core.Option
use native.Mathlib.Nat.{zero-add}
use minix_server_of_mutex_an.Base.{
  ℕ, zero, suc, ◌+◌, ◌<◌, ◌≤◌, ◌≡◌, refl, ap, ◌∙◌, true, false, Option, none, some, List, [], ◌∷◌,
  ◌==◌, length, length-set, Bool-cases, Option-cases, inl, inr, get_elem?, arith,
}
use minix_server_of_mutex_an.Spec.{Waiter, waiter, erase_waiter, waits_in}
use minix_server_of_mutex_an.Cvs.Arrays.{zip_take}
use minix_server_of_mutex_an.Signals.Plain.{index_of, shift_one, shift}

-- The list without the entry at an index.
unfoldable pub remove_nth : ℕ → List Waiter → List Waiter
remove_nth i [] = []
remove_nth zero (w ∷ ws) = ws
remove_nth (suc i) (w ∷ ws) = w ∷ remove_nth i ws

pub length-shift_one : (d : ℕ) (xs : List ℕ) → length (shift_one d xs) ≡ length xs
length-shift_one d xs = elim (Option-cases (get_elem? xs (suc d))) [
  | inl e ↦ rw (e, shift_one)
  | inr (v, e) ↦ rw (e, shift_one) (length-set xs d v)
]

pub length-shift : (r d : ℕ) (xs : List ℕ) → length (shift r d xs) ≡ length xs
unfolding shift
length-shift zero d xs = refl
length-shift (suc r) d xs = length-shift r (suc d) (shift_one d xs) ∙ length-shift_one d xs

shift_one-cons : (d x : ℕ) (xs : List ℕ) → shift_one (suc d) (x ∷ xs) ≡ x ∷ shift_one d xs
shift_one-cons d x xs = elim (Option-cases (get_elem? xs (suc d))) [
  | inl e ↦ rw (e, shift_one)
  | inr (v, e) ↦ rw (e, shift_one)
]

-- Behind the first entry the shift goes on as in the rest of the array.
shift-cons : (r d x : ℕ) (xs : List ℕ) → shift r (suc d) (x ∷ xs) ≡ x ∷ shift r d xs
unfolding shift
shift-cons zero d x xs = refl
shift-cons (suc r) d x xs =
    ap (shift r (suc (suc d))) (shift_one-cons d x xs) ∙ shift-cons r (suc d) x (shift_one d xs)

przesun_first :
    (r : ℕ) (p n : ℕ) (ps ns : List ℕ)
    → r ≤ length ps
    → r ≤ length ns
    → zip_take r (shift r 0 (p ∷ ps)) (shift r 0 (n ∷ ns)) ≡ zip_take r ps ns
unfolding shift zip_take
przesun_first zero p n ps ns hp hn = refl
przesun_first (suc r) p n [] ns hp hn = absurd (omega arith)
przesun_first (suc r) p n (x ∷ ps) [] hp hn = absurd (omega arith)
przesun_first (suc r) p n (x ∷ ps) (y ∷ ns) hp hn =
    rw (shift-cons r 0 x (x ∷ ps), shift-cons r 0 y (y ∷ ns))
      (ap (λ ws. waiter x y ∷ ws) (przesun_first r x y ps ns (omega arith) (omega arith)))

-- After the shift from `d` on, the first `d + r` entries are those of before without entry `d`.
pub zip_take-shift :
    (d r : ℕ) (ps ns : List ℕ)
    → d + r < length ps
    → d + r < length ns
    → zip_take (d + r) (shift r d ps) (shift r d ns) ≡ remove_nth d (zip_take (suc (d + r)) ps ns)
unfolding zip_take remove_nth
zip_take-shift d r [] ns hp hn = absurd (omega arith)
zip_take-shift d r (p ∷ ps) [] hp hn = absurd (omega arith)
zip_take-shift zero r (p ∷ ps) (n ∷ ns) hp hn =
    rw zero-add (przesun_first r p n ps ns (omega arith) (omega arith))
zip_take-shift (suc d) r (p ∷ ps) (n ∷ ns) hp hn =
    let e : suc d + r ≡ suc (d + r) = omega arith in
    rw (e, shift-cons r d p ps, shift-cons r d n ns)
      (ap (λ ws. waiter p n ∷ ws) (zip_take-shift d r ps ns (omega arith) (omega arith)))

-- What the search for a process among the first `k` entries says of the waiters.
abbrev pub Removal : ℕ → ℕ → List Waiter → Option ℕ → Type 0
Removal k p ws none = (erase_waiter p ws ≡ ws) × (waits_in p ws ≡ false)
Removal k p ws (some j) = (j < k) × (erase_waiter p ws ≡ remove_nth j ws) × (waits_in p ws ≡ true)

Removal-cons :
    (k p : ℕ) (w : Waiter) (ws : List Waiter) (o : Option ℕ)
    → (w.proces == p) ≡ false
    → Removal k p ws o
    → Removal (suc k) p (w ∷ ws) (Option.map suc o)
unfolding remove_nth
Removal-cons k p w ws none miss h = ground arith
Removal-cons k p w ws (some j) miss h = (omega arith, rw miss (ap (λ l. w ∷ l) h.1), rw miss h.2)

pub index_of-Removal :
    (k p : ℕ) (ps ns : List ℕ)
    → k ≤ length ps
    → k ≤ length ns
    → Removal k p (zip_take k ps ns) (index_of k ps p)
unfolding zip_take remove_nth index_of
index_of-Removal zero p ps ns hp hn = (refl, refl)
index_of-Removal (suc k) p [] ns hp hn = absurd (omega arith)
index_of-Removal (suc k) p (x ∷ ps) [] hp hn = absurd (omega arith)
index_of-Removal (suc k) p (x ∷ ps) (n ∷ ns) hp hn = elim (Bool-cases (x == p)) [
  | inl hit ↦ rw hit (omega arith, rw hit, rw hit)
  | inr miss ↦ rw miss (
      Removal-cons k p (waiter x n) (zip_take k ps ns) (index_of k ps p) miss
        (index_of-Removal k p ps ns (omega arith) (omega arith)))
]
