-- ===== src/Server/Run/Wakes.antt =====
-- Waiting for an event, and waking those that wait for it, keep every process in one place at most.
use minix_server_of_mutex_an.Base.{
  ℕ, ◌+◌, ◌<◌, ◌≤◌, ◌≡◌, ◌≢◌, refl, ap, sym, ◌∙◌, subst, Bool, true, false, Option, none, some,
  List, [], ◌∷◌, ◌++◌, ◌==◌, if◌then◌else◌, Bool-cases, inl, inr, ==_refl, ==_ne, arith,
}
use minix_server_of_mutex_an.Spec.{
  Held, Locks, lock, unlock_held, Waiter, waiter, Events, put_events, wait_held, wake,
}
use minix_server_of_mutex_an.Server.Run.Counts.{times}
use minix_server_of_mutex_an.Server.Run.Steps.{View, view}
use minix_server_of_mutex_an.Server.Run.Places.{
  Place, nowhere, at_mutex, at_event, is_mutex, is_event, number, processes, IsPlaced, move,
  times-append, moved, unmoved, move-test,
}
use minix_server_of_mutex_an.Server.Run.Sound.{
  Placed, Kept-Placed, stay, Placed-lock_held, Kept-pass,
}

pub processes-append :
    (ws : List Waiter) (w : Waiter) → processes (ws ++ w ∷ []) ≡ processes ws ++ w.proces ∷ []
processes-append [] w = refl
processes-append (x ∷ ws) w = ap (λ ps. x.proces ∷ ps) (processes-append ws w)

pub Placed-unlock_held :
    (locks : Locks) (events : Events) (place : ℕ → Place) (p n : ℕ) (x : Option Held)
    → IsPlaced place (view locks events)
    → locks n ≡ x
    → Placed p place (view (unlock_held p n locks x).locks events)
Placed-unlock_held locks events place p n none h e = stay p place _ h
Placed-unlock_held locks events place p n (some w) h e = elim (Bool-cases (w.owner == p)) [
  | inl own ↦ rw own (Kept-Placed p place _ (Kept-pass locks events place h n w w.waiting e refl))
  | inr other ↦ rw other (stay p place (view locks events) h)
]

-- A process that waits nowhere begins to wait for an event.
begin_wait :
    (locks : Locks) (events : Events) (place : ℕ → Place) (p ev n : ℕ)
    → IsPlaced place (view locks events)
    → place p ≡ nowhere
    → IsPlaced
        (move p (at_event ev) place)
        (view locks (put_events ev (events ev ++ waiter p n ∷ []) events))
begin_wait locks events place p ev n h idle = record {
  queues = λ m q.
      h.queues m q
      ∙ ap number (
          sym (
            move-test (λ x. is_mutex x m) p (at_event ev) place (sym (ap (λ x. is_mutex x m) idle))
              q));
  events = λ v q. elim (Bool-cases (v == ev)) [
    | inl e ↦
        let is_ev : v ≡ ev = ground arith in
        rw e (
          ap (times q) (processes-append (events ev) (waiter p n))
          ∙ (times-append q (processes (events ev)) p
              ∙ (arrives q
                  ∙ ap (λ w. number (is_event (move p (at_event ev) place q) w)) (sym is_ev))))
    | inr e ↦
        let back : (ev == v) ≡ false = ==_ne ev v λ same. ground arith in
        rw e (
          h.events v q
          ∙ ap number (
              sym (
                move-test (λ x. is_event x v) p (at_event ev) place
                  (back ∙ sym (ap (λ x. is_event x v) idle)) q)))
  ];
  owners = λ m w e.
      move-test (λ x. is_mutex x m) p (at_event ev) place (sym (ap (λ x. is_mutex x m) idle))
        w.owner
      ∙ h.owners m w e;
}
  where
    arrives :
        (q : ℕ)
        → times q (processes (events ev)) + number (p == q)
          ≡ number (is_event (move p (at_event ev) place q) ev)
    arrives q = elim (Bool-cases (q == p)) [
      | inl same ↦
          let is_p : q ≡ p = ground arith in
          let none_yet : times q (processes (events ev)) ≡ 0 =
            h.events ev q
            ∙ (ap (λ r. number (is_event (place r) ev)) is_p
                ∙ ap (λ x. number (is_event x ev)) idle) in
          rw (moved p q (at_event ev) place same, none_yet, ==_refl ev, sym is_p, ==_refl q)
            (omega arith)
      | inr apart ↦
          let back : (p == q) ≡ false = ==_ne p q λ is_q. ground arith in
          rw (unmoved p q (at_event ev) place apart, back) (omega (arith, h.events ev q))
    ]

pub Placed-wait_held :
    (locks : Locks) (events : Events) (place : ℕ → Place) (p ev n : ℕ) (x : Option Held)
    → IsPlaced place (view locks events)
    → place p ≡ nowhere
    → locks n ≡ x
    → let w = wait_held p ev n locks events x in Placed p place (view w.locks w.events)
Placed-wait_held locks events place p ev n none h idle e = stay p place _ h
Placed-wait_held locks events place p ev n (some w) h idle e = elim (Bool-cases (w.owner == p)) [
  | inl own ↦
      let one = Kept-pass locks events place h n w w.waiting e refl in
      rw own (record {
        after = move p (at_event ev) one.after;
        sound = begin_wait _ events one.after p ev n one.sound (one.idle p idle);
        same = λ q ne f. unmoved p q (at_event ev) one.after (==_ne q p ne) ∙ one.idle q f;
      })
  | inr other ↦ rw other (stay p place (view locks events) h)
]

-- Those that wait for an event stop waiting for it.
abbrev clear : ℕ → (ℕ → Place) → ℕ → Place
clear ev place q = if is_event (place q) ev then nowhere else place q

clear-test :
    (test : Place → Bool) (ev : ℕ) (place : ℕ → Place) (q : ℕ)
    → test nowhere ≡ false
    → (is_event (place q) ev ≡ true → test (place q) ≡ false)
    → test (clear ev place q) ≡ test (place q)
clear-test test ev place q here other = elim (Bool-cases (is_event (place q) ev)) [
  | inl e ↦ rw e (here ∙ sym (other e))
  | inr e ↦ rw e
]

not_mutex : (x : Place) (ev n : ℕ) → is_event x ev ≡ true → is_mutex x n ≡ false
not_mutex nowhere ev n e = cc
not_mutex (at_mutex k) ev n e = cc
not_mutex (at_event k) ev n e = refl

other_event :
    (x : Place) (ev v : ℕ) → is_event x ev ≡ true → (v == ev) ≡ false → is_event x v ≡ false
other_event nowhere ev v e ne = cc
other_event (at_mutex k) ev v e ne = cc
other_event (at_event k) ev v e ne = ground arith

cleared : (x : Place) (ev : ℕ) → is_event (if is_event x ev then nowhere else x) ev ≡ false
cleared nowhere ev = refl
cleared (at_mutex k) ev = refl
cleared (at_event k) ev = elim (Bool-cases (k == ev)) [ inl e ↦ rw e | inr e ↦ rw e e ]

IsPlaced-clear :
    (ev : ℕ) (locks : Locks) (events : Events) (place : ℕ → Place)
    → IsPlaced place (view locks events)
    → IsPlaced (clear ev place) (view locks (put_events ev [] events))
IsPlaced-clear ev locks events place h = record {
  queues = λ n q.
      h.queues n q
      ∙ ap number (sym (clear-test (λ x. is_mutex x n) ev place q refl (not_mutex (place q) ev n)));
  events = λ v q. elim (Bool-cases (v == ev)) [
    | inl e ↦
        let is_ev : v ≡ ev = ground arith in
        rw e (ap number (sym (ap (is_event (clear ev place q)) is_ev ∙ cleared (place q) ev)))
    | inr e ↦ rw e (
        h.events v q
        ∙ ap number (
            sym
              (clear-test (λ x. is_event x v) ev place q refl λ f. other_event (place q) ev v f e)))
  ];
  owners = λ n w e.
      clear-test (λ x. is_mutex x n) ev place w.owner refl (not_mutex (place w.owner) ev n)
      ∙ h.owners n w e;
}

-- Processes that wait nowhere, none of them twice, ask for their mutexes one after the other.
pub record OnePlace (v : View) : Type 0 where
  pub after : ℕ → Place
  pub sound : IsPlaced after v

IsPlaced-wake :
    (ws : List Waiter) (locks : Locks) (events : Events) (place : ℕ → Place)
    → IsPlaced place (view locks events)
    → ((q : ℕ) → 0 < times q (processes ws) → place q ≡ nowhere)
    → ((q : ℕ) → times q (processes ws) ≤ 1)
    → OnePlace (view (wake ws locks) events)
IsPlaced-wake [] locks events place h idle once = record { after = place; sound = h }
IsPlaced-wake (w ∷ ws) locks events place h idle once =
    let p = w.proces in
    let here : place p ≡ nowhere = idle p (rw (==_refl p) (omega arith)) in
    let one = Placed-lock_held locks events place h p w.mutex (locks w.mutex) here refl in
    IsPlaced-wake ws (lock p w.mutex locks).1 events one.after one.sound
      (λ q later. one.same q (apart q later) (idle q (omega (arith, later))))
      λ q. omega (arith, once q)
  where
    apart : (q : ℕ) → 0 < times q (processes ws) → q ≢ w.proces
    apart q later same =
        let twice : times q (processes (w ∷ ws)) ≤ 1 = once q in
        let first : (w.proces == q) ≡ true = subst (λ r. (r == q) ≡ true) same (==_refl q) in
        absurd (ground (arith, twice, first, later))

at_most_once : (b : Bool) → number b ≤ 1
at_most_once true = omega arith
at_most_once false = omega arith

is_there : (b : Bool) (n : ℕ) → n ≡ number b → 0 < n → b ≡ true
is_there true n e less = refl
is_there false n e less = absurd (omega (arith, e, less))

pub OnePlace-broadcast :
    (ev : ℕ) (locks : Locks) (events : Events) (place : ℕ → Place)
    → IsPlaced place (view locks events)
    → OnePlace (view (wake (events ev) locks) (put_events ev [] events))
OnePlace-broadcast ev locks events place h =
    IsPlaced-wake (events ev) locks (put_events ev [] events) (clear ev place)
      (IsPlaced-clear ev locks events place h)
      (λ q waits. let there = is_there (is_event (place q) ev) _ (h.events ev q) waits in rw there)
      λ q. omega (arith, h.events ev q, at_most_once (is_event (place q) ev))
