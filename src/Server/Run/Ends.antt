-- ===== src/Server/Run/Ends.antt =====
-- A signal or the end of a process keeps every process in one place at most.
use minix_server_of_mutex_an.Base.{
  ℕ, suc, ◌≤◌, ◌≡◌, ◌≢◌, refl, ap, sym, ◌∙◌, subst, Bool, true, false, Option, none, some, List, [],
  ◌∷◌, ◌==◌, if◌then◌else◌, Bool-cases, inl, inr, ==_ne, arith,
}
use minix_server_of_mutex_an.Queue.{erase}
use minix_server_of_mutex_an.Spec.{
  Held, Locks, Waiter, Events, erase_waiter, leave_held, leave_locks, leave_events, next_owner,
  release_held,
}
use minix_server_of_mutex_an.Server.Run.Counts.{times, times-erase}
use minix_server_of_mutex_an.Server.Run.Steps.{view}
use minix_server_of_mutex_an.Server.Run.Places.{
  Place, nowhere, at_mutex, at_event, is_mutex, is_event, number, waiting_of, processes, IsPlaced,
  move, moved, unmoved,
}

-- A process leaves a list in which it is once at most.
times-erase_same : (p : ℕ) (xs : List ℕ) → times p xs ≤ 1 → times p (erase p xs) ≡ 0
times-erase_same p [] once = refl
times-erase_same p (x ∷ xs) once = elim (Bool-cases (x == p)) [
  | inl e ↦ rw e (ground (arith, e, once))
  | inr e ↦
      let rest : times p xs ≤ 1 = ground (arith, e, once) in
      rw (e, e) (omega (arith, times-erase_same p xs rest))
]

pub processes-erase_waiter :
    (p : ℕ) (ws : List Waiter) → processes (erase_waiter p ws) ≡ erase p (processes ws)
processes-erase_waiter p [] = refl
processes-erase_waiter p (w ∷ ws) = elim (Bool-cases (w.proces == p)) [
  | inl e ↦ rw e
  | inr e ↦ rw e (ap (λ ps. w.proces ∷ ps) (processes-erase_waiter p ws))
]

pub waiting_of-leave_held :
    (p : ℕ) (x : Option Held) → waiting_of (leave_held p x) ≡ erase p (waiting_of x)
waiting_of-leave_held p none = refl
waiting_of-leave_held p (some h) = refl

pub number_le : (b : Bool) → number b ≤ 1
number_le true = omega arith
number_le false = omega arith

-- A list that agrees with a test of the places still does without the process that is nowhere now.
left :
    (p q : ℕ) (xs : List ℕ) (test : Place → Bool) (place : ℕ → Place)
    → test nowhere ≡ false
    → ((r : ℕ) → times r xs ≡ number (test (place r)))
    → times q (erase p xs) ≡ number (test (move p nowhere place q))
left p q xs test place away h = elim (Bool-cases (q == p)) [
  | inl same ↦
      let is_p : q ≡ p = ground arith in
      let once : times p xs ≤ 1 = omega (arith, h p, number_le (test (place p))) in
      rw (moved p q nowhere place same, away)
        (subst (λ r. times r (erase p xs) ≡ 0) (sym is_p) (times-erase_same p xs once))
  | inr other ↦
      let ne : q ≢ p = λ is_p. ground arith in
      rw (unmoved p q nowhere place other) (times-erase p q xs ne ∙ h q)
]

stays_off :
    (p q : ℕ) (test : Place → Bool) (place : ℕ → Place)
    → test nowhere ≡ false
    → test (place q) ≡ false
    → test (move p nowhere place q) ≡ false
stays_off p q test place away h = elim (Bool-cases (q == p)) [
  | inl same ↦ ap test (moved p q nowhere place same) ∙ away
  | inr other ↦ ap test (unmoved p q nowhere place other) ∙ h
]

pub IsPlaced-leave :
    (p : ℕ) (locks : Locks) (events : Events) (place : ℕ → Place)
    → IsPlaced place (view locks events)
    → IsPlaced (move p nowhere place) (view (leave_locks p locks) (leave_events p events))
IsPlaced-leave p locks events place h = record {
  queues = λ n q.
      ap (times q) (waiting_of-leave_held p (locks n))
      ∙ left p q (waiting_of (locks n)) (λ x. is_mutex x n) place refl (h.queues n);
  events = λ ev q.
      ap (times q) (processes-erase_waiter p (events ev))
      ∙ left p q (processes (events ev)) (λ x. is_event x ev) place refl (h.events ev);
  owners = λ n w e. still n w (locks n) refl e;
}
  where
    same_owner : {a b : Held} → some a ≡ some b → a.owner ≡ b.owner
    same_owner {a} e = ap (λ x. elim x [ none ↦ a.owner | some c ↦ c.owner ]) e

    still :
        (n : ℕ) (w : Held) (x : Option Held)
        → locks n ≡ x
        → leave_held p x ≡ some w
        → is_mutex (move p nowhere place w.owner) n ≡ false
    still n w none e f = cc
    still n w (some g) e f =
        let is_owner : g.owner ≡ w.owner = same_owner f in
        subst (λ r. is_mutex (move p nowhere place r) n ≡ false) is_owner
          (stays_off p g.owner (λ x. is_mutex x n) place refl (h.owners n g e))

-- Whether a process is the first that waits for a mutex of the process `p`.
abbrev pub heads : ℕ → ℕ → List ℕ → Bool
heads r o [] = false
heads r o (q ∷ qs) = q == r

abbrev pub is_next : ℕ → ℕ → Option Held → Bool
is_next p r none = false
is_next p r (some h) = if h.owner == p then heads r p h.waiting else false

pub is_next-false :
    (p r : ℕ) (x : Option Held)
    → is_next p r x ≡ false
    → times r (waiting_of (release_held p x)) ≡ times r (waiting_of x)
is_next-false p r none e = refl
is_next-false p r (some h) e = elim (Bool-cases (h.owner == p)) [
  | inl own ↦ rw own (passed h.waiting (sym (rw own) ∙ e))
  | inr other ↦ rw other
]
  where
    passed :
        (qs : List ℕ) → heads r p qs ≡ false → times r (waiting_of (next_owner qs)) ≡ times r qs
    passed [] f = refl
    passed (q ∷ qs) f = rw f (omega arith)

pub is_next-true :
    (p r : ℕ) (x : Option Held)
    → is_next p r x ≡ true
    → suc (times r (waiting_of (release_held p x))) ≡ times r (waiting_of x)
is_next-true p r none e = cc
is_next-true p r (some h) e = elim (Bool-cases (h.owner == p)) [
  | inl own ↦ rw own (passed h.waiting (sym (rw own) ∙ e))
  | inr other ↦ absurd (not_next (sym (rw other) ∙ e))
]
  where
    passed :
        (qs : List ℕ)
        → heads r p qs ≡ true
        → suc (times r (waiting_of (next_owner qs))) ≡ times r qs
    passed [] f = cc
    passed (q ∷ qs) f = rw f (omega arith)

    not_next : false ≡ true → ⊥
    not_next f = cc

-- Where a process waits when the mutexes of `p` have passed on.
abbrev pub released : ℕ → Locks → ℕ → Place → Place
released p locks r nowhere = nowhere
released p locks r (at_mutex n) = if is_next p r (locks n) then nowhere else at_mutex n
released p locks r (at_event ev) = at_event ev

pub released-is_event :
    (p : ℕ) (locks : Locks) (r ev : ℕ) (x : Place)
    → is_event (released p locks r x) ev ≡ is_event x ev
released-is_event p locks r ev nowhere = refl
released-is_event p locks r ev (at_mutex n) = elim (Bool-cases (is_next p r (locks n))) [
  | inl e ↦ rw e
  | inr e ↦ rw e
]
released-is_event p locks r ev (at_event v) = refl

pub released-off :
    (p : ℕ) (locks : Locks) (r n : ℕ) (x : Place)
    → is_mutex x n ≡ false
    → is_mutex (released p locks r x) n ≡ false
released-off p locks r n nowhere h = refl
released-off p locks r n (at_mutex m) h = elim (Bool-cases (is_next p r (locks m))) [
  | inl e ↦ rw e
  | inr e ↦ rw e h
]
released-off p locks r n (at_event v) h = refl

pub released-same :
    (p : ℕ) (locks : Locks) (r n : ℕ) (x : Place)
    → is_next p r (locks n) ≡ false
    → is_mutex (released p locks r x) n ≡ is_mutex x n
released-same p locks r n nowhere h = refl
released-same p locks r n (at_mutex m) h = elim (Bool-cases (is_next p r (locks m))) [
  | inl e ↦
      let ne : m ≢ n = λ same. apart (sym e ∙ (ap (λ k. is_next p r (locks k)) same ∙ h)) in
      rw (e, ==_ne m n ne)
  | inr e ↦ rw e
]
  where
    apart : true ≡ false → ⊥
    apart e = cc
released-same p locks r n (at_event v) h = refl

pub released-next :
    (p : ℕ) (locks : Locks) (r n : ℕ) (x : Place)
    → is_next p r (locks n) ≡ true
    → is_mutex (released p locks r x) n ≡ false
released-next p locks r n nowhere h = refl
released-next p locks r n (at_mutex m) h = elim (Bool-cases (is_next p r (locks m))) [
  | inl e ↦ rw e
  | inr e ↦
      let ne : m ≢ n = λ same. apart (sym h ∙ (ap (λ k. is_next p r (locks k)) (sym same) ∙ e)) in
      rw (e, ==_ne m n ne)
]
  where
    apart : true ≡ false → ⊥
    apart e = cc
released-next p locks r n (at_event v) h = refl
