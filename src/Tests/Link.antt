-- ===== src/Tests/Link.antt =====
-- PM and the server: the process 0 has the mutex 7, the process 1 waits for it, and PM reports a
-- signal of the process 1 or the end of the process 0.
use minix_server_of_mutex_an.Base.{List, [], ◌∷◌, ◌==◌, Bool-cases, inl, inr, refl, pos, arith}
use minix_server_of_mutex_an.Server.{Event, received, failed}
use minix_server_of_mutex_an.Server.Run.Ended.{IsPolite, nobody}
use minix_server_of_mutex_an.Link.{SignalReported, unpause-SignalReported}
use minix_server_of_mutex_an.Tests.{minix, minix-IsMinix}
use minix_server_of_mutex_an.Tests.Pm.{answers, others, pm, kernel}
use minix_server_of_mutex_an.Tests.Run.{request, smiec}

abbrev asked : List Event
asked = received (request 0 (pos 1) 7 0 0) ∷ received (request 1 (pos 1) 7 0 0) ∷ []

abbrev later : List Event
later = failed ∷ received (request 1 (pos 2) 7 0 0) ∷ []

asked-IsPolite : IsPolite asked nobody
asked-IsPolite = (
  (λ e. record { no_mutex = λ n. refl; no_event = λ ev. refl }),
  (
    (λ e. record {
      no_mutex = λ n. elim (Bool-cases (n == 7)) [ inl same ↦ rw same | inr other ↦ rw other ];
      no_event = λ ev. refl;
    }),
    tt,
  ),
)

unpause-SignalReported_example :
    SignalReported kernel others answers minix smiec 50 0 0 1 2 pm asked
unpause-SignalReported_example =
    unpause-SignalReported kernel others answers minix smiec 50 0 0 1 2 pm asked minix-IsMinix
      (λ e. cc) refl (λ e. cc) refl refl refl (omega arith) ((λ e. cc), ((λ e. cc), tt))
      asked-IsPolite λ i e. omega arith
