-- ===== src/Signals/Remove.antt =====
-- `usunZakonczonyProcesCV` of projekt/servers/cv/main.c on one condition variable.
use minix_server_of_mutex_an.Base.{
  ℕ, zero, suc, ◌+◌, ◌-◌, ◌<◌, ◌≡◌, refl, ap, sym, ◌∙◌, true, false, Option, none, some, List, [],
  ◌∷◌, ◌==◌, if◌then◌else◌, length, Bool-cases, ==_iff, inl, inr, arith,
}
use minix_server_of_mutex_an.State.{ConditionVariable}
use minix_server_of_mutex_an.Spec.{Waiter, erase_waiter}
use minix_server_of_mutex_an.Cvs.Arrays.{zip_take}
use minix_server_of_mutex_an.Cvs.View.{czekajacy, czekajacy-length, waiters_in, IsSized}
use minix_server_of_mutex_an.Signals.Plain.{without_process, leave_event}
use minix_server_of_mutex_an.Signals.Shift.{
  remove_nth, zip_take-shift, length-shift, Removal, index_of-Removal,
}

-- The condition variable where it is used.
abbrev pub gdy_uzywany : ConditionVariable → Option ConditionVariable
gdy_uzywany c = if c.uzywany then some c else none

-- What remains of a used condition variable `c` when one process leaves it.
pub record Left (limit p : ℕ) (c d : ConditionVariable) : Type 0 where
  pub numer : d.numer ≡ c.numer
  pub waiters : waiters_in (gdy_uzywany d) ≡ erase_waiter p (czekajacy c)
  pub sized : IsSized limit d
  pub busy : d.uzywany ≡ true → 0 < d.size

remove_nth_single : (j : ℕ) (ws : List Waiter) → length ws ≡ 1 → j < 1 → remove_nth j ws ≡ []
unfolding remove_nth
remove_nth_single zero (w ∷ []) h g = refl
remove_nth_single zero (w ∷ v ∷ ws) h g = absurd (omega arith)
remove_nth_single j [] h g = absurd (omega arith)
remove_nth_single (suc j) (w ∷ ws) h g = absurd (omega arith)

module _ {limit : ℕ} (c : ConditionVariable) (z : IsSized limit c) (u : c.uzywany ≡ true) where
  remove_last :
      (p j : ℕ)
      → c.size ≡ 1
      → j < c.size
      → erase_waiter p (czekajacy c) ≡ remove_nth j (czekajacy c)
      → Left limit p c (without_process c j)
  unfolding without_process remove_nth
  remove_last p j one h e =
      let hit : (c.size == 1) ≡ true = ground arith in
      rw hit (record {
        numer = refl;
        waiters =
            sym (e ∙ remove_nth_single j (czekajacy c) (czekajacy-length c z ∙ one) (omega arith));
        sized = record { procesy = z.procesy; muteksy = z.muteksy; size = z.size };
        busy = λ h. cc;
      })

  remove_one :
      (p j : ℕ)
      → (c.size == 1) ≡ false
      → j < c.size
      → erase_waiter p (czekajacy c) ≡ remove_nth j (czekajacy c)
      → Left limit p c (without_process c j)
  unfolding without_process remove_nth
  remove_one p j more h e =
      let r = c.size - (j + 1) in
      let total : c.size ≡ suc (j + r) = omega arith in
      let less : c.size - 1 ≡ j + r = omega arith in
      rw (more, less)
        (record {
          numer = refl;
          waiters = rw u (
              zip_take-shift j r c.procesy c.muteksy (omega (arith, z.procesy, z.size))
                (omega (arith, z.muteksy, z.size))
              ∙ ap (λ k. remove_nth j (zip_take k c.procesy c.muteksy)) (sym total)
              ∙ sym e);
          sized = record {
            procesy = length-shift r j c.procesy ∙ z.procesy;
            muteksy = length-shift r j c.muteksy ∙ z.muteksy;
            size = omega (arith, z.size);
          };
          busy = λ _. ground arith;
        })

  leave :
      (p : ℕ) (o : Option ℕ)
      → Removal c.size p (czekajacy c) o
      → 0 < c.size
      → Left limit p c (elim o [ none ↦ c | some j ↦ without_process c j ])
  leave p none h pos = record { numer = refl; waiters = rw u (sym h.0); sized = z; busy = λ _. pos }
  leave p (some j) h pos = elim (Bool-cases (c.size == 1)) [
    | inl one ↦ remove_last p j ((==_iff c.size 1).0 one) h.0 h.1
    | inr more ↦ remove_one p j more h.0 h.1
  ]

  -- When a process leaves a used condition variable, its first entry is gone from the waiters, and
  -- no other entry is. The slot is given up if nobody is left.
  pub leave_event-Left : (p : ℕ) → 0 < c.size → Left limit p c (leave_event p c)
  unfolding leave_event
  leave_event-Left p pos = simp u (
      leave p _
        (index_of-Removal c.size p c.procesy c.muteksy (omega (arith, z.procesy, z.size))
          (omega (arith, z.muteksy, z.size)))
        pos)
