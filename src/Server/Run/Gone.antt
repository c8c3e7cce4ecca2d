-- ===== src/Server/Run/Gone.antt =====
-- A process that ended has no mutex, and waits for none and for no event: what the server of
-- projekt/servers/cv/main.c leaves of it.
use minix_server_of_mutex_an.Base.{
  ℕ, ◌≡◌, refl, ap, sym, ◌∙◌, subst, true, false, Option, none, some, List, [], ◌∷◌, ◌==◌,
  Bool-cases, inl, inr, ==_refl, ==_ne, arith,
}
use minix_server_of_mutex_an.Spec.{
  Held, held, Locks, Events, leave_held, leave_events, next_owner, release_held, exit_locks,
}
use minix_server_of_mutex_an.Queue.{erase}
use minix_server_of_mutex_an.Server.Run.Counts.{times}
use minix_server_of_mutex_an.Server.Run.Steps.{view}
use minix_server_of_mutex_an.Server.Run.Places.{
  Place, nowhere, is_mutex, number, waiting_of, IsPlaced, move,
}
use minix_server_of_mutex_an.Server.Run.Ends.{
  IsPlaced-leave, is_next, is_next-false, is_next-true, released, released-is_event, released-off,
  released-same, released-next, number_le,
}

-- The mutexes of `p` pass on.
abbrev pub release : ℕ → Locks → Locks
release p locks n = release_held p (locks n)

abbrev pub after_release : ℕ → Locks → (ℕ → Place) → ℕ → Place
after_release p locks place r = released p locks r (place r)

same_owner : {a b : Held} → some a ≡ some b → a.owner ≡ b.owner
same_owner {a} e = ap (λ x. elim x [ none ↦ a.owner | some c ↦ c.owner ]) e

erase-absent : (p : ℕ) (xs : List ℕ) → times p xs ≡ 0 → erase p xs ≡ xs
erase-absent p [] e = refl
erase-absent p (x ∷ xs) e = elim (Bool-cases (x == p)) [
  | inl same ↦ absurd (ground (arith, e, same))
  | inr other ↦ rw other (ap (λ ys. x ∷ ys) (erase-absent p xs (ground (arith, e, other))))
]

leave_next : (p : ℕ) (xs : List ℕ) → times p xs ≡ 0 → leave_held p (next_owner xs) ≡ next_owner xs
leave_next p [] e = refl
leave_next p (x ∷ xs) e =
    let absent : times p xs ≡ 0 = ground (arith, e) in
    ap (λ ys. some (held x ys)) (erase-absent p xs absent)

module _ (p : ℕ) (locks : Locks) (events : Events) (place : ℕ → Place)
    (h : IsPlaced place (view locks events)) where
  queue :
      (n r : ℕ)
      → times r (waiting_of (release p locks n))
        ≡ number (is_mutex (after_release p locks place r) n)
  queue n r = elim (Bool-cases (is_next p r (locks n))) [
    | inl e ↦ rw (released-next p locks r n (place r) e) (
        omega (arith, is_next-true p r (locks n) e, h.queues n r, number_le (is_mutex (place r) n)))
    | inr e ↦
        rw (released-same p locks r n (place r) e) (is_next-false p r (locks n) e ∙ h.queues n r)
  ]

  owner :
      (n : ℕ) (w : Held) (x : Option Held)
      → locks n ≡ x
      → release_held p x ≡ some w
      → is_mutex (after_release p locks place w.owner) n ≡ false
  owner n w none e f = cc
  owner n w (some g) e f = elim (Bool-cases (g.owner == p)) [
    | inl own ↦ first own g.waiting refl (sym (rw own) ∙ f)
    | inr other ↦
        let kept : some g ≡ some w = sym (rw other) ∙ f in
        subst (λ r. is_mutex (after_release p locks place r) n ≡ false) (same_owner kept)
          (released-off p locks g.owner n (place g.owner) (h.owners n g e))
  ]
    where
      first :
          (g.owner == p) ≡ true
          → (qs : List ℕ) → g.waiting ≡ qs
          → next_owner qs ≡ some w
          → is_mutex (after_release p locks place w.owner) n ≡ false
      first own [] is i = cc
      first own (q ∷ qs) is i =
          let next : is_next p q (some g) ≡ true = rw (own, is) (==_refl q) in
          subst (λ r. is_mutex (after_release p locks place r) n ≡ false) (same_owner i)
            (released-next p locks q n (place q) (ap (is_next p q) e ∙ next))

  IsPlaced-release : IsPlaced (after_release p locks place) (view (release p locks) events)
  IsPlaced-release = record {
    queues = queue;
    events = λ ev r. h.events ev r ∙ ap number (sym (released-is_event p locks r ev (place r)));
    owners = λ n w e. owner n w (locks n) refl e;
  }

  pub IsPlaced-exit :
      IsPlaced
        (move p nowhere (after_release p locks place))
        (view (exit_locks p locks) (leave_events p events))
  IsPlaced-exit =
      IsPlaced-leave p (release p locks) events (after_release p locks place) IsPlaced-release

  -- The next owner of a mutex of the process is another one.
  next_apart :
      (n : ℕ) (g : Held) (q : ℕ) (qs : List ℕ)
      → locks n ≡ some g
      → (g.owner == p) ≡ true
      → g.waiting ≡ q ∷ qs
      → (q == p) ≡ false
  next_apart n g q qs e own is = ==_ne q p λ same.
      let is_owner : g.owner ≡ p = ground arith in
      let off : is_mutex (place p) n ≡ false =
        subst (λ r. is_mutex (place r) n ≡ false) is_owner (h.owners n g e) in
      let absent : times p (q ∷ qs) ≡ 0 =
        sym (ap (λ x. times p (waiting_of x)) e ∙ ap (times p) is)
        ∙ (h.queues n p ∙ ap number off) in
      let first : (q == p) ≡ true = ap (λ r. r == p) same ∙ ==_refl p in
      absurd (ground (arith, absent, first))

  pub not_owner :
      (n : ℕ) (w : Held) (x : Option Held)
      → locks n ≡ x
      → leave_held p (release_held p x) ≡ some w
      → (w.owner == p) ≡ false
  not_owner n w none e f = cc
  not_owner n w (some g) e f = elim (Bool-cases (g.owner == p)) [
    | inl own ↦ first own g.waiting refl (sym (rw own) ∙ f)
    | inr other ↦
        let kept : leave_held p (some g) ≡ some w = sym (rw other) ∙ f in
        let is_owner : g.owner ≡ w.owner = same_owner kept in
        subst (λ r. (r == p) ≡ false) is_owner other
  ]
    where
      first :
          (g.owner == p) ≡ true
          → (qs : List ℕ) → g.waiting ≡ qs
          → leave_held p (next_owner qs) ≡ some w
          → (w.owner == p) ≡ false
      first own [] is i = cc
      first own (q ∷ qs) is i =
          let is_owner : q ≡ w.owner = same_owner i in
          subst (λ r. (r == p) ≡ false) is_owner (next_apart n g q qs e own is)

  -- A mutex of the process goes to the first that waits for it.
  pub exit_hands_on :
      (n : ℕ) (g : Held)
      → locks n ≡ some g
      → g.owner ≡ p
      → exit_locks p locks n ≡ next_owner g.waiting
  exit_hands_on n g e own =
      let off : is_mutex (place p) n ≡ false =
        subst (λ r. is_mutex (place r) n ≡ false) own (h.owners n g e) in
      let absent : times p g.waiting ≡ 0 =
        sym (ap (λ x. times p (waiting_of x)) e) ∙ (h.queues n p ∙ ap number off) in
      let is_p : (g.owner == p) ≡ true = ap (λ r. r == p) own ∙ ==_refl p in
      let released : release_held p (locks n) ≡ next_owner g.waiting =
        ap (release_held p) e ∙ rw is_p in
      ap (leave_held p) released ∙ leave_next p g.waiting absent
