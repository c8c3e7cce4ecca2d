-- ===== src/Mutexes/Unlock.antt =====
-- `cs_unlock` of projekt/servers/cv/main.c implements the specification.
use minix_server_of_mutex_an.Base.{
  ℕ, ◌≡◌, refl, fun_ext, inl, inr, true, Option, some, List, [], ◌∷◌, ◌++◌, ℤ, pos, ◌==◌,
  if◌then◌else◌, Bool-cases, modify, arith, append-nil,
}
use minix_server_of_mutex_an.Queue.{pierwszy_kolejka, czy_pusto}
use minix_server_of_mutex_an.State.{Mutex, Server, Env, wyslij_wiadomosc}
use minix_server_of_mutex_an.Spec.{code, granted, pass, told, Unlocked, unlock, unlock_held}
use minix_server_of_mutex_an.Mutexes.{mutex_slotted, cs_unlock, zwolnij, oznacz_wolny, przekaz}
use minix_server_of_mutex_an.Slots.Table
use minix_server_of_mutex_an.Slots.Write
use minix_server_of_mutex_an.Slots.Table.{szukaj, Slot, szukanie, brak, jest}
use minix_server_of_mutex_an.Mutexes.View.{IsTable, IsIdle, locks_of, held_by}

-- The outcome of a request that changes the mutexes and sends messages.
pub record Released (e : Env) (s : Server) (spec : Unlocked) (r : Option (ℤ × Server))
    : Type 0 where
  pub after : Server
  pub returns : r ≡ some (code e spec.answer, after)
  pub locks : locks_of after.m ≡ spec.locks
  pub valid : IsTable after.m
  pub sends : after.sent ≡ s.sent ++ spec.replies
  pub kept : after ≡ record s { m = after.m; sent = after.sent; printed = after.printed }

module _ (e : Env) (i : ℕ) (x : Mutex) (s : Server) where
  pub zwolnij_nobody :
      x.kolejka.elementy ≡ []
      → zwolnij e i x s ≡ some (e.ok, record s { m = modify s.m i oznacz_wolny })
  unfolding zwolnij czy_pusto
  zwolnij_nobody queue = rw queue

  pub zwolnij_next :
      (q : ℕ) (qs : List ℕ)
      → x.kolejka.elementy ≡ q ∷ qs
      → let rest = record x.kolejka { elementy = qs } in
        zwolnij e i x s
        ≡ some (e.ok, wyslij_wiadomosc e (pos 0) q (record s { m = modify s.m i (przekaz q rest) }))
  unfolding zwolnij czy_pusto pierwszy_kolejka
  zwolnij_next q qs queue = rw queue

  pub cs_unlock-zwolnij :
      {n : ℕ}
      → Slot n s.m i x
      → (x.wlasciciel == s.aktualny_proces) ≡ true
      → cs_unlock e n s ≡ zwolnij e i x s
  unfolding cs_unlock
  cs_unlock-zwolnij slot own =
      rw (Table.indeks-Slot slot, cs_unlock, Table.get_elem?-Slot slot, own)

module _ (e : Env) (n : ℕ) (s : Server) (v : IsTable s.m) where
  -- The owner of the mutex in slot `i` gives it back: the queue decides who has it next.
  zwolnij-pass :
      {i : ℕ} {x : Mutex} (ps : List ℕ)
      → Slot n s.m i x
      → x.kolejka.elementy ≡ ps
      → Released e s
          (record { answer = granted; locks = pass n ps (locks_of s.m); replies = told ps })
          (zwolnij e i x s)
  unfolding zwolnij czy_pusto pierwszy_kolejka wyslij_wiadomosc
  zwolnij-pass {i} {x} [] slot queue =
      rw (queue, zwolnij, czy_pusto)
        (record {
          after = record s { m = modify s.m i oznacz_wolny };
          returns = refl;
          locks =
              fun_ext λ k. ground (arith, Write.szukaj-release oznacz_wolny k slot v.distinct refl);
          valid = record {
            distinct = Write.Distinct-release _ slot v.distinct refl;
            idle = Write.All-modify-Slot IsIdle _ slot (λ _. queue) v.idle;
          };
          sends = rw append-nil;
          kept = refl;
        })
  zwolnij-pass {i} {x} (q ∷ qs) slot queue =
      let f = przekaz q (record { straznik = x.kolejka.straznik; elementy = qs }) in
      let used = Table.used-Slot slot in
      rw (queue, zwolnij, czy_pusto, pierwszy_kolejka)
        (record {
          after = wyslij_wiadomosc e (pos 0) q (record s { m = modify s.m i f });
          returns = refl;
          locks = fun_ext λ k. ground (arith, Write.szukaj-modify f k slot used.0 used.1);
          valid = record {
            distinct = Write.Distinct-modify f slot used.0 used.1 v.distinct;
            idle = Write.All-modify-Slot IsIdle f slot (λ h. ground arith) v.idle;
          };
          sends = refl;
          kept = refl;
        })

  unlock_busy :
      {i : ℕ} {x : Mutex}
      → Slot n s.m i x
      → Released e s
          (unlock_held s.aktualny_proces n (locks_of s.m) (some (held_by x)))
          (if x.wlasciciel == s.aktualny_proces then zwolnij e i x s else some (e.eperm, s))
  unlock_busy {i} {x} slot = elim (Bool-cases (x.wlasciciel == s.aktualny_proces)) [
    | inl own ↦ rw own (zwolnij-pass x.kolejka.elementy slot refl)
    | inr other ↦ rw other (record {
      after = s;
      returns = refl;
      locks = refl;
      valid = v;
      sends = rw append-nil;
      kept = refl;
    })
  ]

  -- `cs_unlock` refuses a caller that does not have the mutex. From its owner the mutex goes to the
  -- first process that waits for it, which is sent 0 and leaves the queue, and with an empty queue
  -- the mutex is free. Nothing else changes, and the table stays well formed.
  pub cs_unlock-unlock : Released e s (unlock s.aktualny_proces n (locks_of s.m)) (cs_unlock e n s)
  unfolding cs_unlock
  cs_unlock-unlock = elim (szukanie n s.m) [
    | brak unknown absent ↦
        rw (unknown, absent, cs_unlock)
          (record {
            after = s;
            returns = refl;
            locks = refl;
            valid = v;
            sends = rw append-nil;
            kept = refl;
          })
    | jest slot ↦
        rw (Table.indeks-Slot slot, cs_unlock, Table.get_elem?-Slot slot, Table.szukaj-Slot slot)
          (unlock_busy slot)
  ]
