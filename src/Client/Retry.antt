-- ===== src/Client/Retry.antt =====
-- `cs_lock` and `cs_wait` of projekt/lib/libc/sys-minix/cv.c repeat a call that a signal ends.
use minix_server_of_mutex_an.Base.{
  ℕ, zero, suc, ◌<◌, ◌≡◌, Bool, true, false, some, List, [], ◌∷◌, ◌++◌, ℤ, pos, negsuc, equals,
  equals→eq, if◌then◌else◌, Bool-cases, inl, inr, arith,
}
use minix_server_of_mutex_an.Client.{Call, Minix, Client, request, send_message, cs_lock, cs_wait}

-- The calls before and after `k` requests for the mutex.
abbrev pub requests : Minix → ℕ → ℕ → List Call → List Call
requests e mutex_id zero sent = sent
requests e mutex_id (suc k) sent = requests e mutex_id k (sent ++ request e 1 mutex_id 0 sent ∷ [])

-- The answer to the request after `k` others.
abbrev pub answer : Minix → ℕ → ℕ → List Call → ℤ × ℤ
answer e mutex_id k sent =
    e.syscall (requests e mutex_id k sent) (request e 1 mutex_id 0 (requests e mutex_id k sent))

-- `_syscall` was ended by a signal.
abbrev pub is_interrupted : Minix → ℤ × ℤ → Bool
is_interrupted e (r, errno) = if equals r (negsuc 0) then equals errno e.eintr else false

abbrev pub status : ℤ → ℤ
status r = if equals r (negsuc 0) then negsuc 0 else pos 0

abbrev pub client : List Call → ℤ → Client
client sent errno = record { sent = sent; errno = errno }

module _ (e : Minix) (mutex_id : ℕ) where
  cs_lock-step :
      (f : ℕ) (s : Client)
      → cs_lock (suc f) e mutex_id s ≡ (
          if is_interrupted e (answer e mutex_id 0 s.sent)
          then cs_lock f e mutex_id
              (client (requests e mutex_id 1 s.sent) (answer e mutex_id 0 s.sent).1)
          else some (
            (answer e mutex_id 0 s.sent).0,
            client (requests e mutex_id 1 s.sent) (answer e mutex_id 0 s.sent).1,
          ))
  unfolding cs_lock send_message
  cs_lock-step f s = elim (Bool-cases (equals (answer e mutex_id 0 s.sent).0 (negsuc 0))) [
    | inl t ↦ simp (equals→eq (answer e mutex_id 0 s.sent).0 (negsuc 0) t)
    | inr t ↦ simp t
  ]

  -- `cs_lock` asks again after each answer EINTR, and returns the first other answer, with the
  -- `errno` of that answer, after exactly so many requests. The conditions: `k` answers are EINTR
  -- before one that is not, and the fuel exceeds `k`.
  pub cs_lock-requests :
      (k fuel : ℕ) (s : Client)
      → ((i : ℕ) → i < k → is_interrupted e (answer e mutex_id i s.sent) ≡ true)
      → is_interrupted e (answer e mutex_id k s.sent) ≡ false
      → k < fuel
      → cs_lock fuel e mutex_id s
        ≡ some (
          (answer e mutex_id k s.sent).0,
          client (requests e mutex_id (suc k) s.sent) (answer e mutex_id k s.sent).1,
        )
  cs_lock-requests k zero s busy done enough = absurd (omega arith)
  cs_lock-requests zero (suc f) s busy done enough = simp (cs_lock-step f s, done)
  cs_lock-requests (suc k) (suc f) s busy done enough =
      simp (cs_lock-step f s, busy 0 (omega arith))
        (cs_lock-requests k f (client (requests e mutex_id 1 s.sent) (answer e mutex_id 0 s.sent).1)
          (λ i less. busy (suc i) (omega arith)) done (omega arith))

  -- The calls after the one of `cs_wait`, and the answer to it.
  abbrev pub waiting : ℕ → List Call → List Call
  waiting cv_id sent = sent ++ request e 3 mutex_id cv_id sent ∷ []

  abbrev pub wait_answer : ℕ → List Call → ℤ × ℤ
  wait_answer cv_id sent = e.syscall sent (request e 3 mutex_id cv_id sent)

  -- `cs_wait` returns the answer to its one call, unless a signal ended the call. Then it asks for
  -- the mutex until an answer is not EINTR, and returns 0, or -1 if that answer is -1. The
  -- conditions: `k` of these answers are EINTR before one that is not, and the fuel exceeds `k`.
  pub cs_wait-requests :
      (cv_id k fuel : ℕ) (s : Client)
      → ((i : ℕ) → i < k → is_interrupted e (answer e mutex_id i (waiting cv_id s.sent)) ≡ true)
      → is_interrupted e (answer e mutex_id k (waiting cv_id s.sent)) ≡ false
      → k < fuel
      → cs_wait fuel e cv_id mutex_id s
        ≡ some (
            if is_interrupted e (wait_answer cv_id s.sent)
            then (
              status (answer e mutex_id k (waiting cv_id s.sent)).0,
              client
                  (requests e mutex_id (suc k) (waiting cv_id s.sent))
                  (answer e mutex_id k (waiting cv_id s.sent)).1,
            )
            else (
              (wait_answer cv_id s.sent).0,
              client (waiting cv_id s.sent) (wait_answer cv_id s.sent).1,
            ))
  unfolding cs_wait send_message
  cs_wait-requests cv_id k fuel s busy done enough =
      let locked =
        cs_lock-requests k fuel (client (waiting cv_id s.sent) (wait_answer cv_id s.sent).1) busy
          done enough in
      elim (Bool-cases (equals (wait_answer cv_id s.sent).0 (negsuc 0))) [
        | inl t ↦ elim (Bool-cases (equals (wait_answer cv_id s.sent).1 e.eintr)) [
          | inl u ↦ simp (t, u, locked)
          | inr u ↦ simp (u, equals→eq (wait_answer cv_id s.sent).0 (negsuc 0) t)
        ]
        | inr t ↦ simp t
      ]
