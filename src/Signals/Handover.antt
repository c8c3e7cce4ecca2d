-- ===== src/Signals/Handover.antt =====
-- The first loop of `usunZakonczonyProces`: the mutexes of a process go to those that wait for them.
use mathlib.Core.Option
use minix_server_of_mutex_an.Base.{
  ℕ, ◌≡◌, refl, ap, sym, subst, ◌∙◌, Bool, true, ◌&&◌, Option, some, List, [], ◌∷◌, ◌++◌,
  append_assoc, append-nil, map, pos, ◌==◌, if◌then◌else◌, Bool-cases, inl, inr, get_elem?, modify,
  length, length-append, get_elem?-append, modify-append, arith,
}
use minix_server_of_mutex_an.State.{Mutex, Server, Env, Reply, wyslij_wiadomosc}
use minix_server_of_mutex_an.Spec.{told}
use minix_server_of_mutex_an.Slots.Table
use minix_server_of_mutex_an.Slots.Table.{Distinct, Slot}
use minix_server_of_mutex_an.Slots.Write
use minix_server_of_mutex_an.Mutexes.{mutex_slotted, zwolnij, oznacz_wolny, przekaz}
use minix_server_of_mutex_an.Mutexes.Unlock.{zwolnij_nobody, zwolnij_next, cs_unlock-zwolnij}
use minix_server_of_mutex_an.Signals.{oddaj_mutex, oddaj_mutexy}

-- The slot of a mutex that its owner gives back, by those who wait for it.
abbrev pub nastepny : List ℕ → Mutex → Mutex
nastepny [] x = oznacz_wolny x
nastepny (q ∷ qs) x = przekaz q (record { straznik = x.kolejka.straznik; elementy = qs }) x

abbrev pub nalezy : ℕ → Mutex → Bool
nalezy p x = x.uzywany && x.wlasciciel == p

abbrev pub oddany : ℕ → Mutex → Mutex
oddany p x = if nalezy p x then nastepny x.kolejka.elementy x else x

-- The messages for the new owners, in the order of the slots.
abbrev pub powiadomienia : ℕ → List Mutex → List Reply
powiadomienia p [] = []
powiadomienia p (x ∷ xs) =
    (if nalezy p x then told x.kolejka.elementy else []) ++ powiadomienia p xs

-- What a pass over the slots `rest` behind `pre` makes of the server.
pub record Handed (p : ℕ) (pre rest : List Mutex) (s : Server) (r : Option Server) : Type 0 where
  pub after : Server
  pub returns : r ≡ some after
  pub table : after.m ≡ pre ++ map (oddany p) rest
  pub distinct : Distinct after.m
  pub sends : after.sent ≡ s.sent ++ powiadomienia p rest
  pub events : after.cv ≡ s.cv
  pub caller : after.aktualny_proces ≡ s.aktualny_proces

module _ (e : Env) (p : ℕ) (pre rest : List Mutex) (x : Mutex) (s : Server)
    (at : s.m ≡ pre ++ x ∷ rest) (d : Distinct s.m) (caller : s.aktualny_proces ≡ p) where
  abbrev Passed : Option Server → Type 0
  Passed r =
      (t : Server) × (r ≡ some t)
      × (t.m ≡ pre ++ oddany p x ∷ rest)
      × Distinct t.m
      × (t.sent ≡ s.sent ++ (if nalezy p x then told x.kolejka.elementy else []))
      × (t.cv ≡ s.cv)
      × (t.aktualny_proces ≡ s.aktualny_proces)

  read : get_elem? s.m (length pre) ≡ some x
  read = rw at (get_elem?-append pre x rest)

  write : (f : Mutex → Mutex) → modify s.m (length pre) f ≡ pre ++ f x ∷ rest
  write f = rw at (modify-append pre x rest f)

  slot : nalezy p x ≡ true → Slot x.numer s.m (length pre) x
  slot own = Table.get_elem?→Slot s.m (length pre) d read (ground arith)

  pass_slot :
      (ps : List ℕ)
      → nalezy p x ≡ true
      → x.kolejka.elementy ≡ ps
      → Passed (Option.map (λ (_, t). t) (zwolnij e (length pre) x s))
  unfolding wyslij_wiadomosc
  pass_slot [] own queue = rw (zwolnij_nobody e (length pre) x s queue) (
    record s { m = modify s.m (length pre) oznacz_wolny },
    refl,
    simp (own, queue) (write oznacz_wolny),
    Write.Distinct-release oznacz_wolny (slot own) d refl,
    simp (own, queue) (sym (append-nil s.sent)),
    refl,
    refl,
  )
  pass_slot (q ∷ qs) own queue =
      let f = przekaz q (record x.kolejka { elementy = qs }) in
      rw (zwolnij_next e (length pre) x s q qs queue) (
        wyslij_wiadomosc e (pos 0) q (record s { m = modify s.m (length pre) f }),
        refl,
        simp (own, queue) (write f),
        Write.Distinct-modify f (slot own) (ground arith) refl d,
        simp (own, queue),
        refl,
        refl,
      )

  owned :
      nalezy p x ≡ true
      → oddaj_mutex e p x s ≡ Option.map (λ (_, t). t) (zwolnij e (length pre) x s)
  unfolding oddaj_mutex
  owned own = simp own (
      ap (Option.map (λ (_, t). t))
        (cs_unlock-zwolnij e (length pre) x s (slot own) (rw caller (ground arith))))

  pub oddaj_mutex_lem : Passed (oddaj_mutex e p x s)
  unfolding oddaj_mutex
  oddaj_mutex_lem = elim (Bool-cases (nalezy p x)) [
    | inl own ↦ subst Passed (sym (owned own)) (pass_slot x.kolejka.elementy own refl)
    | inr other ↦ simp other (s, refl, at, d, sym (append-nil s.sent), refl, refl)
  ]

-- Every mutex of the process goes to the first that waits for it, who is sent 0, or becomes free.
pub oddaj_mutexy_lem :
    (e : Env) (p : ℕ) (pre rest : List Mutex) (s : Server)
    → s.m ≡ pre ++ rest
    → Distinct s.m
    → s.aktualny_proces ≡ p
    → Handed p pre rest s (oddaj_mutexy e p (length rest) (length pre) s)
unfolding oddaj_mutexy
oddaj_mutexy_lem e p pre [] s at d caller = record {
  after = s;
  returns = refl;
  table = at;
  distinct = d;
  sends = sym (append-nil s.sent);
  events = refl;
  caller = refl;
}
oddaj_mutexy_lem e p pre (x ∷ rest) s at d caller =
    let (t, returns, table, distinct, sends, events, same) =
      oddaj_mutex_lem e p pre rest x s at d caller in
    let next =
      oddaj_mutexy_lem e p (pre ++ oddany p x ∷ []) rest t (table ∙ sym (append_assoc pre _ rest))
        distinct (same ∙ caller) in
    rw (read e p pre rest x s at d caller, returns)
      (record {
        after = next.after;
        returns =
            ap (λ i. oddaj_mutexy e p (length rest) i t)
              (omega (arith, length-append pre (oddany p x ∷ [])))
            ∙ next.returns;
        table = next.table ∙ append_assoc pre _ _;
        distinct = next.distinct;
        sends = next.sends ∙ ap (λ l. l ++ powiadomienia p rest) sends ∙ append_assoc s.sent _ _;
        events = next.events ∙ events;
        caller = next.caller ∙ same;
      })
