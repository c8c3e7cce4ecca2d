-- ===== src/Slots/Map.antt =====
-- A table as a map from numbers: what a pass over all slots does.
use minix_server_of_mutex_an.Base.{
  ℕ, ◌≡◌, refl, true, Option, none, some, List, [], ◌∷◌, map, if◌then◌else◌, All, arith,
}
use minix_server_of_mutex_an.Slots.{Slotted}
use minix_server_of_mutex_an.Slots.Table.{szukaj, Distinct}

module _ {A : Type 0} ⦃t : Slotted A⦄ where
  -- The pass keeps the number of a slot, and takes no free slot.
  pub record Keeps (x y : A) : Type 0 where
    pub numer : t.numer y ≡ t.numer x
    pub used : t.uzywany y ≡ true → t.uzywany x ≡ true

  -- A slot that was found, after the pass.
  abbrev pub through : (A → A) → Option A → Option A
  through f none = none
  through f (some x) = if t.uzywany (f x) then some (f x) else none

  module _ (f : A → A) where
    pub szukaj-map-none :
        (xs : List A) (n : ℕ)
        → All (λ x. Keeps x (f x)) xs
        → szukaj xs n ≡ none
        → szukaj (map f xs) n ≡ none
    unfolding szukaj
    szukaj-map-none [] n h e = refl
    szukaj-map-none (x ∷ xs) n h e = ground (arith, szukaj-map-none xs n h.1, h.0.numer, h.0.used)

    pub szukaj-map :
        (xs : List A) (n : ℕ)
        → Distinct xs
        → All (λ x. Keeps x (f x)) xs
        → szukaj (map f xs) n ≡ through f (szukaj xs n)
    unfolding szukaj Distinct
    szukaj-map [] n d h = refl
    szukaj-map (x ∷ xs) n d h =
        ground (arith, szukaj-map xs n d.1 h.1, szukaj-map-none xs n h.1, h.0.numer, h.0.used, d.0)

    pub Distinct-map :
        (xs : List A) → Distinct xs → All (λ x. Keeps x (f x)) xs → Distinct (map f xs)
    unfolding Distinct
    Distinct-map [] d h = tt
    Distinct-map (x ∷ xs) d h = (
      λ u. rw h.0.numer (szukaj-map-none xs (t.numer x) h.1 (d.0 (h.0.used u))),
      Distinct-map xs d.1 h.1,
    )

pub All-map :
    {A : Type 0} (P Q : A → Type 0) (f : A → A) (xs : List A)
    → ((x : A) → P x → Q (f x))
    → All P xs
    → All Q (map f xs)
All-map P Q f [] g h = tt
All-map P Q f (x ∷ xs) g h = (g x h.0, All-map P Q f xs g h.1)

pub All-mono :
    {A : Type 0} (P Q : A → Type 0) (xs : List A) → ((x : A) → P x → Q x) → All P xs → All Q xs
All-mono P Q [] g h = tt
All-mono P Q (x ∷ xs) g h = (g x h.0, All-mono P Q xs g h.1)

pub All-zip :
    {A : Type 0} (P Q : A → Type 0) (xs : List A) → All P xs → All Q xs → All (λ x. P x × Q x) xs
All-zip P Q [] h g = tt
All-zip P Q (x ∷ xs) h g = ((h.0, g.0), All-zip P Q xs h.1 g.1)
