-- ===== src/Signals/Reach.antt =====
-- No access outside the arrays of an event: where they have their length, the functions of
-- projekt/servers/cv/main.c that take a process out of the events return.
use mathlib.Core.Option
use minix_server_of_mutex_an.Base.{
  ℕ, zero, suc, ◌+◌, ◌-◌, ◌<◌, ◌≤◌, ◌≡◌, refl, ap, ◌∙◌, Option, none, some, List, [], ◌∷◌, ◌==◌,
  ◌>>=◌, length, All, Bool-cases, Option-cases, inl, inr, get_elem?, arith,
}
use minix_server_of_mutex_an.State.{ConditionVariable, Server, Env}
use minix_server_of_mutex_an.Cvs.View.{czekajacy, IsSized}
use minix_server_of_mutex_an.Signals.{
  indeks_procesu, przenies, przesun, usun_zakonczony_proces_cv, eintr_znaleziony, eintr_cv,
  eintr_wszystkie_cv, opusc_znaleziony, opusc_jedno_cv, opusc_cv,
}
use minix_server_of_mutex_an.Signals.Plain.{
  index_of, shift_one, shift, without_process, eintr_event, eintr_events, leave_event,
  leave_all_events,
}
use minix_server_of_mutex_an.Signals.Shift.{length-shift_one, Removal, index_of-Removal}

get_elem?-exists : (xs : List ℕ) (i : ℕ) → i < length xs → (v : ℕ) × (get_elem? xs i ≡ some v)
get_elem?-exists [] i less = absurd (omega arith)
get_elem?-exists (x ∷ xs) zero less = (x, refl)
get_elem?-exists (x ∷ xs) (suc i) less = get_elem?-exists xs i (omega arith)

przenies-shift_one :
    (d : ℕ) (xs : List ℕ) → suc d < length xs → przenies d xs ≡ some (shift_one d xs)
unfolding przenies
przenies-shift_one d xs less =
    let found = get_elem?-exists xs (suc d) less in rw (przenies, shift_one, found.1)

przesun-shift : (r d : ℕ) (xs : List ℕ) → d + r < length xs → przesun r d xs ≡ some (shift r d xs)
unfolding przesun shift
przesun-shift zero d xs less = refl
przesun-shift (suc r) d xs less =
    let one = przenies-shift_one d xs (omega (arith, less)) in
    ap (λ x. x >>= przesun r (suc d)) one
    ∙ przesun-shift r (suc d) (shift_one d xs) (omega (arith, less, length-shift_one d xs))

indeks_procesu-index_of :
    (k : ℕ) (ps : List ℕ) (p : ℕ) → k ≤ length ps → indeks_procesu k ps p ≡ some (index_of k ps p)
unfolding indeks_procesu index_of
indeks_procesu-index_of zero ps p less = refl
indeks_procesu-index_of (suc k) [] p less = absurd (omega arith)
indeks_procesu-index_of (suc k) (x ∷ ps) p less = elim (Bool-cases (x == p)) [
  | inl e ↦ rw e
  | inr e ↦ rw e (ap (Option.map (Option.map suc)) (indeks_procesu-index_of k ps p (omega arith)))
]

module _ {limit : ℕ} (c : ConditionVariable) (z : IsSized limit c) where
  usun-without_process :
      (j : ℕ) → j < c.size → usun_zakonczony_proces_cv c j ≡ some (without_process c j)
  unfolding usun_zakonczony_proces_cv without_process
  usun-without_process j less = elim (Bool-cases (c.size == 1)) [
    | inl one ↦ rw (usun_zakonczony_proces_cv, without_process, one)
    | inr more ↦
        let r = c.size - (j + 1) in
        rw (
          usun_zakonczony_proces_cv,
          without_process,
          more,
          przesun-shift r j c.procesy (omega (arith, less, z.procesy, z.size)),
          przesun-shift r j c.muteksy (omega (arith, less, z.muteksy, z.size)),
        )
  ]

  -- The index that the search gives is one of an entry.
  found_less :
      (p : ℕ) (o : Option ℕ) → Removal c.size p (czekajacy c) o → (j : ℕ) → o ≡ some j → j < c.size
  found_less p none h j e = cc
  found_less p (some i) h j e = let same : i ≡ j = cc e in omega (arith, h.0, same)

  index_less : (p j : ℕ) → index_of c.size c.procesy p ≡ some j → j < c.size
  index_less p j e =
      found_less p (index_of c.size c.procesy p)
        (index_of-Removal c.size p c.procesy c.muteksy (omega (arith, z.procesy, z.size))
          (omega (arith, z.muteksy, z.size)))
        j e

  search : (p : ℕ) → indeks_procesu c.size c.procesy p ≡ some (index_of c.size c.procesy p)
  search p = indeks_procesu-index_of c.size c.procesy p (omega (arith, z.procesy, z.size))

  opusc_jedno_cv-leave_event : (p : ℕ) → opusc_jedno_cv p c ≡ some (leave_event p c)
  unfolding opusc_jedno_cv leave_event
  opusc_jedno_cv-leave_event p = elim (Bool-cases c.uzywany) [
    | inr u ↦ rw (opusc_jedno_cv, leave_event, u)
    | inl u ↦ elim (Option-cases (index_of c.size c.procesy p)) [
      | inl f ↦ rw (opusc_jedno_cv, leave_event, u, search p, f, opusc_znaleziony)
      | inr (j, f) ↦
          let one = usun-without_process j (index_less p j f) in
          rw (opusc_jedno_cv, leave_event, u, search p, f, opusc_znaleziony, one)
    ]
  ]

  eintr_cv-eintr_event :
      (e : Env) (p : ℕ) (s : Server) → eintr_cv e p c s ≡ some (eintr_event e p c s)
  unfolding eintr_cv eintr_event
  eintr_cv-eintr_event e p s = elim (Bool-cases c.uzywany) [
    | inr u ↦ rw (eintr_cv, eintr_event, u)
    | inl u ↦ elim (Option-cases (index_of c.size c.procesy p)) [
      | inl f ↦ rw (eintr_cv, eintr_event, u, search p, f, eintr_znaleziony)
      | inr (j, f) ↦
          let one = usun-without_process j (index_less p j f) in
          rw (eintr_cv, eintr_event, u, search p, f, eintr_znaleziony, one)
    ]
  ]

pub opusc_cv-leave_all_events :
    (limit p : ℕ) (cs : List ConditionVariable)
    → All (IsSized limit) cs
    → opusc_cv p cs ≡ some (leave_all_events p cs)
unfolding opusc_cv leave_all_events
opusc_cv-leave_all_events limit p [] sized = refl
opusc_cv-leave_all_events limit p (c ∷ cs) (z, sized) =
    rw (opusc_jedno_cv-leave_event c z p, opusc_cv-leave_all_events limit p cs sized)

pub eintr_wszystkie_cv-eintr_events :
    (limit : ℕ) (e : Env) (p : ℕ) (cs : List ConditionVariable) (s : Server)
    → All (IsSized limit) cs
    → eintr_wszystkie_cv e p cs s ≡ some (eintr_events e p cs s)
unfolding eintr_wszystkie_cv eintr_events
eintr_wszystkie_cv-eintr_events limit e p [] s sized = refl
eintr_wszystkie_cv-eintr_events limit e p (c ∷ cs) s (z, sized) = rw (
  eintr_cv-eintr_event c z e p s,
  eintr_wszystkie_cv-eintr_events limit e p cs (eintr_event e p c s).1 sized,
)
