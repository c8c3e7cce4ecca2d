-- ===== src/Cvs/View.antt =====
-- The table of condition variables as the specification sees it, and its well-formedness.
use minix_server_of_mutex_an.Base.{
  ℕ, ◌≤◌, ◌<◌, ◌≡◌, true, Option, none, some, List, [], length, All, arith,
}
use minix_server_of_mutex_an.State.{ConditionVariable}
use minix_server_of_mutex_an.Spec.{Waiter, Events}
use minix_server_of_mutex_an.Cvs.{cv_slotted}
use minix_server_of_mutex_an.Cvs.Arrays.{zip_take, length-zip_take}
use minix_server_of_mutex_an.Slots.Table.{szukaj, Distinct}

abbrev pub czekajacy : ConditionVariable → List Waiter
czekajacy c = zip_take c.size c.procesy c.muteksy

abbrev pub waiters_in : Option ConditionVariable → List Waiter
waiters_in none = []
waiters_in (some c) = czekajacy c

abbrev pub events_of : List ConditionVariable → Events
events_of cs n = waiters_in (szukaj cs n)

-- Both arrays have `limit` entries, and `size` of them are in use.
pub record IsSized (limit : ℕ) (c : ConditionVariable) : Type 0 where
  pub procesy : length c.procesy ≡ limit
  pub muteksy : length c.muteksy ≡ limit
  pub size : c.size ≤ limit

-- No two used slots have one number, and at a used slot somebody waits.
pub record IsCvTable (limit : ℕ) (cs : List ConditionVariable) : Type 0 where
  pub distinct : Distinct cs
  pub sized : All (IsSized limit) cs
  pub busy : All (λ c. c.uzywany ≡ true → 0 < c.size) cs

pub czekajacy-length :
    {limit : ℕ} (c : ConditionVariable) → IsSized limit c → length (czekajacy c) ≡ c.size
czekajacy-length c z =
    length-zip_take c.size c.procesy c.muteksy (omega (arith, z.procesy, z.size))
      (omega (arith, z.muteksy, z.size))
