-- ===== src/Tests/Client.antt =====
-- A client whose first two calls a signal ends.
use minix_server_of_mutex_an.Base.{
  ℕ, zero, suc, ◌≡◌, refl, ◌<◌, ltb, some, [], pos, negsuc, length, if◌then◌else◌, arith,
}
use minix_server_of_mutex_an.Client.{Minix, cs_lock, cs_wait}
use minix_server_of_mutex_an.Client.Retry.{
  requests, client, waiting, cs_lock-requests, cs_wait-requests,
}

abbrev minix : Minix
minix = record {
  lookup = λ _. 9;
  syscall = λ sent c. if ltb (length sent) 2 then (negsuc 0, pos 4) else (pos 0, pos 4);
  eintr = pos 4;
}

below_two : (P : ℕ → Type 0) → P 0 → P 1 → (i : ℕ) → i < 2 → P i
below_two P a b zero less = a
below_two P a b (suc zero) less = b
below_two P a b (suc (suc i)) less = absurd (omega arith)

cs_lock-requests_example :
    cs_lock 3 minix 7 (client [] (pos 0)) ≡ some (pos 0, client (requests minix 7 3 []) (pos 4))
cs_lock-requests_example =
    cs_lock-requests minix 7 2 3 (client [] (pos 0)) (below_two _ refl refl) refl (omega arith)

pub below_one : (P : ℕ → Type 0) → P 0 → (i : ℕ) → i < 1 → P i
below_one P a zero less = a
below_one P a (suc i) less = absurd (omega arith)

cs_wait-requests_example :
    cs_wait 2 minix 5 7 (client [] (pos 0))
    ≡ some (pos 0, client (requests minix 7 2 (waiting minix 7 5 [])) (pos 4))
cs_wait-requests_example =
    cs_wait-requests minix 7 5 1 2 (client [] (pos 0)) (below_one _ refl) refl (omega arith)
