-- ===== src/Slots.antt =====
-- The loops of projekt/servers/cv/main.c over `M` and `CV`, tables whose slots have a `uzywany`
-- flag and a `numer`: the search for a used slot, `indeksUzywanegoMutexa` and `indeksUzywanegoCv`,
-- and the search for a free one in `cs_lock` and `cs_wait`.
pub mod Map
pub mod Table
pub mod Write
use mathlib.Core.Option
use minix_server_of_mutex_an.Base.{
  ℕ, suc, ◌+◌, Bool, true, false, not, ◌&&◌, Option, none, some, List, [], ◌∷◌, ◌==◌, if◌then◌else◌,
}

pub record Slotted (A : Type 0) : Type 0 where
  pub uzywany : A → Bool
  pub numer : A → ℕ

module _ {A : Type 0} ⦃t : Slotted A⦄ where
  -- `M[i].uzywany && M[i].numer == numerMutexu`
  abbrev pub pasuje : A → ℕ → Bool
  pasuje x n = t.uzywany x && t.numer x == n

  -- The index of the first used slot with the number; `none` for -1.
  unfoldable pub indeks : List A → ℕ → Option ℕ
  indeks [] n = none
  indeks (x ∷ xs) n = if pasuje x n then some 0 else Option.map suc (indeks xs n)

  -- The index of the first free slot; `none` if the loop runs to its end.
  unfoldable pub wolny : List A → Option ℕ
  wolny [] = none
  wolny (x ∷ xs) = if not (t.uzywany x) then some 0 else Option.map suc (wolny xs)
