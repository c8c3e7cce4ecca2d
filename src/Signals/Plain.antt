-- ===== src/Signals/Plain.antt =====
-- The removal of a process from the events, as it is where the arrays are as long as they are said to
-- be. Signals/Reach.antt relates it to the code, which would go past shorter arrays.
use mathlib.Core.Option
use minix_server_of_mutex_an.Base.{
  ℕ, zero, suc, ◌+◌, ◌-◌, false, Option, none, some, List, [], ◌∷◌, map, ◌==◌, if◌then◌else◌,
  get_elem?, set,
}
use minix_server_of_mutex_an.State.{ConditionVariable, Server, Env, wyslij_wiadomosc}

unfoldable pub index_of : ℕ → List ℕ → ℕ → Option ℕ
index_of zero ps proces = none
index_of (suc r) [] proces = none
index_of (suc r) (p ∷ ps) proces =
    if p == proces then some 0 else Option.map suc (index_of r ps proces)

abbrev pub shift_one : ℕ → List ℕ → List ℕ
shift_one d xs = elim (get_elem? xs (suc d)) [ none ↦ xs | some v ↦ set xs d v ]

unfoldable pub shift : ℕ → ℕ → List ℕ → List ℕ
shift zero d xs = xs
shift (suc r) d xs = shift r (suc d) (shift_one d xs)

unfoldable pub without_process : ConditionVariable → ℕ → ConditionVariable
unfolding shift
without_process c i = if c.size == 1 then record c { uzywany = false } else record c {
  procesy = shift (c.size - (i + 1)) i c.procesy;
  muteksy = shift (c.size - (i + 1)) i c.muteksy;
  size = c.size - 1;
}

unfoldable pub eintr_event : Env → ℕ → ConditionVariable → Server → ConditionVariable × Server
unfolding without_process index_of
eintr_event e proces c s =
    if c.uzywany
    then elim (index_of c.size c.procesy proces) [
      | none ↦ (c, s)
      | some j ↦ (without_process c j, wyslij_wiadomosc e e.eintr proces s)
    ]
    else (c, s)

unfoldable pub eintr_events :
    Env → ℕ → List ConditionVariable → Server → List ConditionVariable × Server
unfolding eintr_event
eintr_events e proces [] s = ([], s)
eintr_events e proces (c ∷ cs) s =
    let (c', s1) = eintr_event e proces c s in
    let (cs', s2) = eintr_events e proces cs s1 in (c' ∷ cs', s2)

unfoldable pub leave_event : ℕ → ConditionVariable → ConditionVariable
unfolding without_process index_of
leave_event proces c =
    if c.uzywany
    then elim (index_of c.size c.procesy proces) [ none ↦ c | some j ↦ without_process c j ]
    else c

unfoldable pub leave_all_events : ℕ → List ConditionVariable → List ConditionVariable
unfolding leave_event
leave_all_events proces = map (leave_event proces)
