-- ===== src/Server/Run/Places.antt =====
-- Where each process waits: the specification of Spec.antt, one process in one place.
use minix_server_of_mutex_an.Base.{
  ℕ, ◌+◌, ◌≡◌, ◌≢◌, ◌⊎◌, refl, ap, sym, ◌∙◌, subst, Bool, true, false, Option, none, some, List, [],
  ◌∷◌, ◌++◌, ◌==◌, if◌then◌else◌, Bool-cases, inl, inr, arith,
}
use minix_server_of_mutex_an.Spec.{Held, Locks, put, Waiter, Events}
use minix_server_of_mutex_an.Server.Run.Counts.{times}
use minix_server_of_mutex_an.Server.Run.Steps.{View, view}

pub data Place : Type 0 where
  nowhere : Place
  at_mutex at_event : ℕ → Place

abbrev pub is_mutex : Place → ℕ → Bool
is_mutex nowhere n = false
is_mutex (at_mutex m) n = m == n
is_mutex (at_event ev) n = false

abbrev pub is_event : Place → ℕ → Bool
is_event nowhere n = false
is_event (at_mutex m) n = false
is_event (at_event ev) n = ev == n

-- The number of a test.
abbrev pub number : Bool → ℕ
number b = if b then 1 else 0

abbrev pub waiting_of : Option Held → List ℕ
waiting_of none = []
waiting_of (some h) = h.waiting

abbrev pub processes : List Waiter → List ℕ
processes [] = []
processes (w ∷ ws) = w.proces ∷ processes ws

-- Each process is once in the queue or the event where it waits, and nowhere else; the owner of
-- a mutex does not wait for it.
pub record IsPlaced (place : ℕ → Place) (v : View) : Type 0 where
  pub queues : (n p : ℕ) → times p (waiting_of (v.locks n)) ≡ number (is_mutex (place p) n)
  pub events : (ev p : ℕ) → times p (processes (v.events ev)) ≡ number (is_event (place p) ev)
  pub owners : (n : ℕ) (h : Held) → v.locks n ≡ some h → is_mutex (place h.owner) n ≡ false

abbrev pub move : ℕ → Place → (ℕ → Place) → ℕ → Place
move p x place q = if q == p then x else place q

pub times-append :
    (p : ℕ) (xs : List ℕ) (q : ℕ) → times p (xs ++ q ∷ []) ≡ times p xs + number (q == p)
times-append p [] q = omega arith
times-append p (x ∷ xs) q = omega (arith, times-append p xs q)

pub same_mutex : (x : Place) (n m : ℕ) → is_mutex x n ≡ true → m ≢ n → is_mutex x m ≡ false
same_mutex nowhere n m e ne = cc
same_mutex (at_mutex k) n m e ne = ground arith
same_mutex (at_event k) n m e ne = cc

pub no_event : (x : Place) (n ev : ℕ) → is_mutex x n ≡ true → is_event x ev ≡ false
no_event nowhere n ev e = cc
no_event (at_mutex k) n ev e = refl
no_event (at_event k) n ev e = cc

-- A mutex changes, and with it the places of those that wait for it.
pub IsPlaced-put :
    (n : ℕ) (x : Option Held) (locks : Locks) (events : Events) (place after : ℕ → Place)
    → IsPlaced place (view locks events)
    → ((p : ℕ) → times p (waiting_of x) ≡ number (is_mutex (after p) n))
    → ((p m : ℕ) → m ≢ n → is_mutex (after p) m ≡ is_mutex (place p) m)
    → ((p ev : ℕ) → is_event (after p) ev ≡ is_event (place p) ev)
    → ((h : Held) → x ≡ some h → is_mutex (after h.owner) n ≡ false)
    → IsPlaced after (view (put n x locks) events)
IsPlaced-put n x locks events place after sound here there evs owner = record {
  queues = λ m p. elim (Bool-cases (m == n)) [
    | inl e ↦
        let is_n : n ≡ m = ground arith in
        rw e (here p ∙ ap (λ k. number (is_mutex (after p) k)) is_n)
    | inr e ↦
        let ne : m ≢ n = λ same. ground arith in
        rw e (sound.queues m p ∙ ap number (sym (there p m ne)))
  ];
  events = λ ev p. sound.events ev p ∙ ap number (sym (evs p ev));
  owners = λ m h. owned m h (Bool-cases (m == n));
}
  where
    put_same : (m : ℕ) → (m == n) ≡ true → put n x locks m ≡ x
    put_same m e = rw e

    put_other : (m : ℕ) → (m == n) ≡ false → put n x locks m ≡ locks m
    put_other m e = rw e

    owned :
        (m : ℕ) (h : Held)
        → ((m == n) ≡ true) ⊎ ((m == n) ≡ false)
        → put n x locks m ≡ some h
        → is_mutex (after h.owner) m ≡ false
    owned m h (inl e) f =
        let is_n : n ≡ m = ground arith in
        subst (λ k. is_mutex (after h.owner) k ≡ false) is_n (owner h (sym (put_same m e) ∙ f))
    owned m h (inr e) f =
        let ne : m ≢ n = λ same. ground arith in
        there h.owner m ne ∙ sound.owners m h (sym (put_other m e) ∙ f)

-- A process that waited nowhere waits somewhere.
pub moved : (p q : ℕ) (x : Place) (place : ℕ → Place) → (q == p) ≡ true → move p x place q ≡ x
moved p q x place e = rw e

pub unmoved :
    (p q : ℕ) (x : Place) (place : ℕ → Place) → (q == p) ≡ false → move p x place q ≡ place q
unmoved p q x place e = rw e

-- A test that is false of the place that a process leaves and of the place that it comes to.
pub move-test :
    (test : Place → Bool) (p : ℕ) (x : Place) (place : ℕ → Place)
    → test x ≡ test (place p)
    → (q : ℕ) → test (move p x place q) ≡ test (place q)
move-test test p x place e q = elim (Bool-cases (q == p)) [
  | inl same ↦
      let is_p : q ≡ p = ground arith in
      ap test (moved p q x place same) ∙ (e ∙ ap (λ r. test (place r)) (sym is_p))
  | inr other ↦ ap test (unmoved p q x place other)
]
