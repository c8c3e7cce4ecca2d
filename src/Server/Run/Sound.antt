-- ===== src/Server/Run/Sound.antt =====
-- Requests keep every process in one place at most, if no process that waits sends one.
use minix_server_of_mutex_an.Base.{
  ℕ, ◌≡◌, ◌≢◌, refl, ap, sym, ◌∙◌, subst, Bool, true, false, Option, none, some, List, [], ◌∷◌,
  ◌++◌, ◌==◌, Bool-cases, inl, inr, ==_refl, ==_ne, arith,
}
use minix_server_of_mutex_an.Spec.{Held, held, Locks, put, lock_held, pass, Events}
use minix_server_of_mutex_an.Server.Run.Counts.{times}
use minix_server_of_mutex_an.Server.Run.Steps.{View, view}
use minix_server_of_mutex_an.Server.Run.Places.{
  Place, nowhere, at_mutex, is_mutex, is_event, number, waiting_of, IsPlaced, move, times-append,
  same_mutex, no_event, IsPlaced-put, moved, unmoved, move-test,
}

-- What a request of the process `p` leaves: everybody else waits where he waited, or nowhere now.
pub record Placed (p : ℕ) (place : ℕ → Place) (v : View) : Type 0 where
  pub after : ℕ → Place
  pub sound : IsPlaced after v
  pub same : (q : ℕ) → q ≢ p → place q ≡ nowhere → after q ≡ nowhere

-- What a step leaves by which no process begins to wait.
pub record Kept (place : ℕ → Place) (v : View) : Type 0 where
  pub after : ℕ → Place
  pub sound : IsPlaced after v
  pub idle : (q : ℕ) → place q ≡ nowhere → after q ≡ nowhere

pub Kept-Placed : (p : ℕ) (place : ℕ → Place) (v : View) → Kept place v → Placed p place v
Kept-Placed p place v r = record { after = r.after; sound = r.sound; same = λ q ne. r.idle q }

pub kept : (place : ℕ → Place) (v : View) → IsPlaced place v → Kept place v
kept place v h = record { after = place; sound = h; idle = λ q e. e }

pub stay : (p : ℕ) (place : ℕ → Place) (v : View) → IsPlaced place v → Placed p place v
stay p place v h = record { after = place; sound = h; same = λ q ne e. e }

module _ (locks : Locks) (events : Events) (place : ℕ → Place)
    (h : IsPlaced place (view locks events)) where
  -- A process that waits nowhere joins the queue of a mutex that another one has.
  join_queue :
      (p n : ℕ) (w : Held)
      → place p ≡ nowhere
      → locks n ≡ some w
      → (w.owner == p) ≡ false
      → IsPlaced
          (move p (at_mutex n) place)
          (view (put n (some (held w.owner (w.waiting ++ p ∷ []))) locks) events)
  join_queue p n w idle e other =
      let before = λ (q : ℕ). sym (ap (λ x. times q (waiting_of x)) e) ∙ h.queues n q in
      IsPlaced-put n (some (held w.owner (w.waiting ++ p ∷ []))) locks events place
        (move p (at_mutex n) place) h
        (λ q. elim (Bool-cases (q == p)) [
          | inl same ↦
              let is_p : q ≡ p = ground arith in
              let none_yet : times q w.waiting ≡ 0 =
                before q
                ∙ ap (λ r. number (is_mutex (place r) n)) is_p
                ∙ ap (λ x. number (is_mutex x n)) idle in
              times-append q w.waiting p
              ∙ rw (moved p q (at_mutex n) place same, none_yet, ==_refl n, sym is_p, ==_refl q)
                  (omega arith)
          | inr apart ↦
              let back : (p == q) ≡ false = ==_ne p q λ is_q. ground arith in
              times-append q w.waiting p
              ∙ rw (unmoved p q (at_mutex n) place apart, back) (omega (arith, before q))
        ])
        (λ q m ne.
          move-test (λ x. is_mutex x m) p (at_mutex n) place
            (==_ne n m (λ x. ne (sym x)) ∙ sym (ap (λ x. is_mutex x m) idle)) q)
        (λ q ev.
          move-test (λ x. is_event x ev) p (at_mutex n) place (sym (ap (λ x. is_event x ev) idle))
            q)
        λ g f.
          let is_owner : w.owner ≡ g.owner = ap owner_of f in
          subst (λ r. is_mutex (move p (at_mutex n) place r) n ≡ false) is_owner
            (ap (λ x. is_mutex x n) (unmoved p w.owner (at_mutex n) place other) ∙ h.owners n w e)
    where
      owner_of : Option Held → ℕ
      owner_of none = 0
      owner_of (some g) = g.owner

  -- A mutex that nobody has is taken.
  take_free :
      (p n : ℕ)
      → place p ≡ nowhere
      → locks n ≡ none
      → IsPlaced place (view (put n (some (held p [])) locks) events)
  take_free p n idle e =
      IsPlaced-put n (some (held p [])) locks events place place h
        (λ q. sym (ap (λ x. times q (waiting_of x)) e) ∙ h.queues n q) (λ q m ne. refl)
        (λ q ev. refl)
        λ g f.
          let is_p : p ≡ g.owner = ap owner_of f in
          subst (λ r. is_mutex (place r) n ≡ false) is_p (ap (λ x. is_mutex x n) idle)
    where
      owner_of : Option Held → ℕ
      owner_of none = 0
      owner_of (some g) = g.owner

  pub Placed-lock_held :
      (p n : ℕ) (x : Option Held)
      → place p ≡ nowhere
      → locks n ≡ x
      → Placed p place (view (lock_held p n locks x).1 events)
  Placed-lock_held p n none idle e = stay p place _ (take_free p n idle e)
  Placed-lock_held p n (some w) idle e = elim (Bool-cases (w.owner == p)) [
    | inl own ↦ rw own (stay p place (view locks events) h)
    | inr other ↦ rw other (record {
      after = move p (at_mutex n) place;
      sound = join_queue p n w idle e other;
      same = λ q ne f. unmoved p q (at_mutex n) place (==_ne q p ne) ∙ f;
    })
  ]

  -- A mutex passes to the first that waits for it.
  pub Kept-pass :
      (n : ℕ) (w : Held) (qs : List ℕ)
      → locks n ≡ some w
      → w.waiting ≡ qs
      → Kept place (view (pass n qs locks) events)
  Kept-pass n w [] e f = kept place _ (
      IsPlaced-put n none locks events place place h
        (λ q. sym (ap (times q) f) ∙ (sym (ap (λ x. times q (waiting_of x)) e) ∙ h.queues n q))
        (λ q m ne. refl) (λ q ev. refl) λ g no_one. cc)
  Kept-pass n w (q ∷ qs) e f =
      let before = λ (r : ℕ).
        sym (ap (times r) f) ∙ (sym (ap (λ x. times r (waiting_of x)) e) ∙ h.queues n r) in
      let waits : is_mutex (place q) n ≡ true =
        first_waits q qs (is_mutex (place q) n) (before q) in
      record {
        after = move q nowhere place;
        sound =
            IsPlaced-put n (some (held q qs)) locks events place (move q nowhere place) h
              (λ r. elim (Bool-cases (r == q)) [
                | inl same ↦
                    let is_q : r ≡ q = ground arith in
                    rw (moved q r nowhere place same) (
                      subst (λ x. times x qs ≡ 0) (sym is_q)
                        (none_left q qs (is_mutex (place q) n) (before q)))
                | inr apart ↦
                    let back : (q == r) ≡ false = ==_ne q r λ is_r. ground arith in
                    rw (unmoved q r nowhere place apart) (passed_over q r qs back ∙ before r)
              ])
              (λ r m ne.
                move-test (λ x. is_mutex x m) q nowhere place
                  (sym (same_mutex (place q) n m waits ne)) r)
              (λ r ev.
                move-test (λ x. is_event x ev) q nowhere place (sym (no_event (place q) n ev waits))
                  r)
              λ g is_g.
                let is_q : q ≡ g.owner = ap owner_of is_g in
                subst (λ r. is_mutex (move q nowhere place r) n ≡ false) is_q
                  (ap (λ x. is_mutex x n) (moved q q nowhere place (==_refl q)));
        idle = λ r idle. elim (Bool-cases (r == q)) [
          | inl same ↦ moved q r nowhere place same
          | inr apart ↦ unmoved q r nowhere place apart ∙ idle
        ];
      }
    where
      owner_of : Option Held → ℕ
      owner_of none = 0
      owner_of (some g) = g.owner

      first_waits : (q : ℕ) (qs : List ℕ) (b : Bool) → times q (q ∷ qs) ≡ number b → b ≡ true
      first_waits q qs true x = refl
      first_waits q qs false x = absurd (ground (arith, x, ==_refl q))

      none_left : (q : ℕ) (qs : List ℕ) (b : Bool) → times q (q ∷ qs) ≡ number b → times q qs ≡ 0
      none_left q qs true x = ground (arith, x, ==_refl q)
      none_left q qs false x = ground (arith, x, ==_refl q)

      passed_over : (q r : ℕ) (qs : List ℕ) → (q == r) ≡ false → times r qs ≡ times r (q ∷ qs)
      passed_over q r qs x = rw x (omega arith)
