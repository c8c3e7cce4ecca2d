-- ===== src/Tests/Run.antt =====
-- A run of the server: the process 1 takes the mutex 7, the process 2 asks for it, the process 1
-- waits for the event 5, and ends.
use minix_server_of_mutex_an.Base.{
  ℕ, ◌+◌, none, List, [], ◌∷◌, ◌==◌, Bool-cases, inl, inr, refl, ℤ, pos, arith,
}
use minix_server_of_mutex_an.State.{przydzielone}
use minix_server_of_mutex_an.Server.{Message, Event, received, failed, main}
use minix_server_of_mutex_an.Server.Run.Bounded.{Runs, steps, run-steps}
use minix_server_of_mutex_an.Server.Run.Ended.{
  IsPolite, Ended, Ordered, nobody, run-Ended, run-Ordered,
}
use minix_server_of_mutex_an.Server.Run.Interrupted.{Interrupted, run-Interrupted}
use minix_server_of_mutex_an.Tests.{minix, minix-IsMinix}

abbrev pub request : ℕ → ℤ → ℕ → ℕ → ℕ → Message
request p typ mutex event proces = record {
  m_source = p;
  m_type = typ;
  m1_i1 = mutex;
  m1_i2 = event;
  pm_proc = proces;
}

abbrev events : List Event
events =
    received (request 1 (pos 1) 7 0 0)
    ∷ received (request 2 (pos 1) 7 0 0)
    ∷ failed
    ∷ received (request 1 (pos 3) 7 5 0)
    ∷ received (request 0 (pos 6) 0 0 1)
    ∷ []

-- What lies in the `start` nodes.
abbrev pub smiec : ℕ → ℕ
smiec i = i + 9

run-steps_example :
    Runs 4 smiec
      (steps events (record { locks = λ n. none; events = λ n. [] }))
      (main minix (przydzielone smiec) events)
run-steps_example =
    run-steps minix smiec events minix-IsMinix (omega arith)
      ((λ e. cc), ((λ e. cc), (tt, ((λ e. cc), ((λ _ i e. omega arith), tt)))))

-- The processes 1 and 2 ask for the mutex 7, the process 1 ends, and the process 3 asks for it.
abbrev asked : List Event
asked = received (request 1 (pos 1) 7 0 0) ∷ received (request 2 (pos 1) 7 0 0) ∷ []

abbrev later : List Event
later = failed ∷ received (request 3 (pos 1) 7 0 0) ∷ []

asked-IsPolite : IsPolite asked nobody
asked-IsPolite = (
  (λ e. record { no_mutex = λ n. refl; no_event = λ ev. refl }),
  (
    (λ e. record {
      no_mutex = λ n. elim (Bool-cases (n == 7)) [ inl same ↦ rw same | inr other ↦ rw other ];
      no_event = λ ev. refl;
    }),
    tt,
  ),
)

run-Ended_example : Ended minix smiec asked (received (request 0 (pos 6) 0 0 1) ∷ []) later 1
run-Ended_example =
    run-Ended minix smiec asked later (request 0 (pos 6) 0 0 1) minix-IsMinix (omega arith)
      ((λ e. cc), ((λ e. cc), ((λ _ i e. omega arith), (tt, ((λ e. cc), tt))))) asked-IsPolite refl
      (tt, ((λ e. cc), tt))

run-Ordered_example : Ordered (main minix (przydzielone smiec) asked)
run-Ordered_example =
    run-Ordered minix smiec asked minix-IsMinix (omega arith) ((λ e. cc), ((λ e. cc), tt))
      asked-IsPolite

-- A signal interrupts the process 2, which waits for the mutex 7.
run-Interrupted_example : Interrupted minix smiec asked (request 0 (pos 5) 0 0 2)
run-Interrupted_example =
    run-Interrupted minix smiec asked (request 0 (pos 5) 0 0 2) minix-IsMinix (omega arith)
      ((λ e. cc), ((λ e. cc), tt)) asked-IsPolite refl λ i e. omega arith
