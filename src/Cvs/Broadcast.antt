-- ===== src/Cvs/Broadcast.antt =====
-- `cs_broadcast` of projekt/servers/cv/main.c implements the specification.
use minix_server_of_mutex_an.Base.{
  ℕ, zero, suc, ◌+◌, ◌<◌, ◌≤◌, ◌≡◌, refl, ap, sym, ap₂, ◌∙◌, fun_ext, Bool, true, false, Option,
  some, List, [], ◌∷◌, ◌++◌, pos, if◌then◌else◌, ==_iff, get_elem?, modify, modify-modify, length,
  length-set, drop, arith, append-nil, append_assoc, modify_id, get_elem?-drop, drop-set,
  get_elem?-modify,
}
use minix_server_of_mutex_an.State.{ConditionVariable, Server, Env, wyslij_wiadomosc, Reply, reply}
use minix_server_of_mutex_an.Spec.{
  IsMinix, code-no_reply, Answer, is_no_reply, Waiter, put_events, lock, woken, wake, wake_replies,
  broadcast, Locks, granted,
}
use minix_server_of_mutex_an.Slots.Table
use minix_server_of_mutex_an.Slots.Write
use minix_server_of_mutex_an.Slots.Table.{szukaj, uzywane, Slot, szukanie, brak, jest}
use minix_server_of_mutex_an.Mutexes.{mutex_slotted, cs_lock}
use minix_server_of_mutex_an.Mutexes.View.{IsTable, locks_of}
use minix_server_of_mutex_an.Mutexes.Lock.{Locked, cs_lock-lock}
use minix_server_of_mutex_an.Cvs.{
  cv_slotted, obudz, obudz_wszystkie, wyzeruj, zwolnij_cv, cs_broadcast,
}
use minix_server_of_mutex_an.Cvs.Arrays.{zip_take}
use minix_server_of_mutex_an.Cvs.Wait.{Changed}
use minix_server_of_mutex_an.Cvs.View.{
  czekajacy, czekajacy-length, waiters_in, events_of, IsSized, IsCvTable,
}

-- The outcome of waking processes, at most `n` of which take a free slot.
record Woken (s : Server) (ls : Locks) (rs : List Reply) (n : ℕ) (r : Option Server) : Type 0 where
  after : Server
  returns : r ≡ some after
  locks : locks_of after.m ≡ ls
  valid : IsTable after.m
  sends : after.sent ≡ s.sent ++ rs
  grows : uzywane after.m ≤ uzywane s.m + n
  slots : length after.m ≡ length s.m

module _ (e : Env) (mx : IsMinix e) where
  -- What follows the request of one process, by whether it was answered.
  answer_woken :
      (a : Answer) (ls : Locks) (p n : ℕ) (s : Server) (b : Bool)
      → Locked e
          (record s { aktualny_proces = p })
          (a, ls)
          (cs_lock e n (record s { aktualny_proces = p }))
      → is_no_reply a ≡ b
      → (w : Woken s ls (if b then [] else reply p (pos 0) ∷ []) 1 (obudz e p n s)) × (w.after.cv
          ≡ s.cv)
  unfolding obudz wyslij_wiadomosc
  answer_woken a ls p n s true l b = (
    record {
      after = l.after;
      returns = rw (l.returns, obudz, code-no_reply mx a, b);
      locks = l.locks;
      valid = l.valid;
      sends = ap (λ t. t.sent) l.kept ∙ sym (append-nil s.sent);
      grows = omega (arith, l.grows);
      slots = l.slots;
    },
    ap (λ t. t.cv) l.kept,
  )
  answer_woken a ls p n s false l b = (
    record {
      after = wyslij_wiadomosc e (pos 0) p l.after;
      returns = rw (l.returns, obudz, code-no_reply mx a, b);
      locks = l.locks;
      valid = l.valid;
      sends = ap (λ t. t.sent ++ reply p (pos 0) ∷ []) l.kept;
      grows = omega (arith, l.grows);
      slots = l.slots;
    },
    ap (λ t. t.cv) l.kept,
  )

  obudz_lem :
      (p n : ℕ) (s : Server)
      → IsTable s.m
      → uzywane s.m < length s.m
      → let spec = lock p n (locks_of s.m) in
        (w : Woken s spec.1 (woken spec.0 p) 1 (obudz e p n s)) × (w.after.cv ≡ s.cv)
  obudz_lem p n s v room =
      answer_woken _ _ p n s _
        (cs_lock-lock e n (record s { aktualny_proces = p }) v (mx.memory _) (λ _. room)) refl

-- The outcome of the loop, which also clears entries of slot `i`.
record Swept (limit i : ℕ) (s : Server) (ls : Locks) (rs : List Reply) (n : ℕ) (r : Option Server)
    : Type 0 where
  woken : Woken s ls rs n r
  change : ConditionVariable → ConditionVariable
  cvs : woken.after.cv ≡ modify s.cv i change
  sized : (x : ConditionVariable) → IsSized limit x → IsSized limit (change x)

wyzeruj-IsSized :
    {limit : ℕ} (j : ℕ) (c : ConditionVariable) → IsSized limit c → IsSized limit (wyzeruj j c)
wyzeruj-IsSized j c z = record {
  procesy = length-set c.procesy j 0 ∙ z.procesy;
  muteksy = length-set c.muteksy j 0 ∙ z.muteksy;
  size = z.size;
}

-- One round, then the others.
Swept-step :
    {limit i n : ℕ} (j : ℕ) {s : Server} {ls : Locks} {rs : List Reply} {o1 o2 : Option Server}
    (ws : List Waiter) (w : Woken s ls rs 1 o1)
    → w.after.cv ≡ s.cv
    → Swept limit i
        (record w.after { cv = modify w.after.cv i (wyzeruj j) })
        (wake ws (locks_of w.after.m))
        (wake_replies ws (locks_of w.after.m))
        n
        o2
    → Swept limit i s (wake ws ls) (rs ++ wake_replies ws ls) (suc n) o2
Swept-step {i} j {s} {rs} ws w same z = record {
  woken = record {
    after = z.woken.after;
    returns = z.woken.returns;
    locks = z.woken.locks ∙ ap (wake ws) w.locks;
    valid = z.woken.valid;
    sends =
        z.woken.sends ∙ ap₂ ◌++◌ w.sends (ap (wake_replies ws) w.locks) ∙ append_assoc s.sent rs _;
    grows = omega (arith, z.woken.grows, w.grows);
    slots = z.woken.slots ∙ w.slots;
  };
  change = λ x. z.change (wyzeruj j x);
  cvs =
      z.cvs
      ∙ modify-modify w.after.cv i (wyzeruj j) z.change
      ∙ ap (λ cs. modify cs i (λ x. z.change (wyzeruj j x))) same;
  sized = λ x h. z.sized _ (wyzeruj-IsSized j x h);
}

module _ (e : Env) (mx : IsMinix e) (limit : ℕ) where
  obudz_wszystkie_lem :
      (r i j : ℕ) (ps ns : List ℕ) (s : Server) (c : ConditionVariable)
      → get_elem? s.cv i ≡ some c
      → drop j c.procesy ≡ ps
      → drop j c.muteksy ≡ ns
      → r ≤ length ps
      → r ≤ length ns
      → IsTable s.m
      → uzywane s.m + r ≤ length s.m
      → Swept limit i s
          (wake (zip_take r ps ns) (locks_of s.m))
          (wake_replies (zip_take r ps ns) (locks_of s.m))
          r
          (obudz_wszystkie e r i j s)
  unfolding obudz_wszystkie zip_take
  obudz_wszystkie_lem zero i j ps ns s c at dp dn hp hn v room = record {
    woken = record {
      after = s;
      returns = refl;
      locks = refl;
      valid = v;
      sends = sym (append-nil s.sent);
      grows = omega arith;
      slots = refl;
    };
    change = λ x. x;
    cvs = sym (modify_id s.cv i);
    sized = λ x h. h;
  }
  obudz_wszystkie_lem (suc r) i j [] ns s c at dp dn hp hn v room = absurd (omega arith)
  obudz_wszystkie_lem (suc r) i j (p ∷ ps) [] s c at dp dn hp hn v room = absurd (omega arith)
  obudz_wszystkie_lem (suc r) i j (p ∷ ps) (n ∷ ns) s c at dp dn hp hn v room =
      let (w, same) = obudz_lem e mx p n s v (omega arith) in
      rw
        (
          at,
          obudz_wszystkie,
          get_elem?-drop c.procesy j dp,
          get_elem?-drop c.muteksy j dn,
          w.returns,
        )
        (Swept-step j (zip_take r ps ns) w same (
          obudz_wszystkie_lem r i (suc j) ps ns
            (record w.after { cv = modify w.after.cv i (wyzeruj j) }) (wyzeruj j c)
            (get_elem?-modify w.after.cv i (wyzeruj j) (rw same at)) (drop-set c.procesy j 0 dp)
            (drop-set c.muteksy j 0 dn) (omega arith) (omega arith) w.valid
            (omega (arith, w.grows, w.slots))))

  broadcast_known :
      {i ev : ℕ} {c : ConditionVariable} (s : Server)
      → Slot ev s.cv i c
      → IsTable s.m
      → IsCvTable limit s.cv
      → IsSized limit c
      → uzywane s.m + c.size ≤ length s.m
      → Changed limit e s
          (record {
            answer = granted;
            locks = wake (czekajacy c) (locks_of s.m);
            events = put_events ev [] (events_of s.cv);
            replies = wake_replies (czekajacy c) (locks_of s.m);
          })
          (cs_broadcast e ev s)
  unfolding cs_broadcast zip_take
  broadcast_known {i} {ev} {c} s slot v w z room =
      let p =
        obudz_wszystkie_lem c.size i 0 c.procesy c.muteksy s c (Table.get_elem?-Slot slot) refl refl
          (omega (arith, z.procesy, z.size)) (omega (arith, z.muteksy, z.size)) v room in
      let f = λ (x : ConditionVariable). zwolnij_cv (p.change x) in
      let cvs : modify p.woken.after.cv i zwolnij_cv ≡ modify s.cv i f =
        ap (λ cs. modify cs i zwolnij_cv) p.cvs ∙ modify-modify s.cv i p.change zwolnij_cv in
      let sized = p.sized c z in
      rw (Table.indeks-Slot slot, cs_broadcast, Table.get_elem?-Slot slot, p.woken.returns)
        (record {
          after = record p.woken.after {
            aktualny_proces = s.aktualny_proces;
            cv = modify p.woken.after.cv i zwolnij_cv;
          };
          returns = refl;
          locks = p.woken.locks;
          events =
              rw cvs (fun_ext λ k. ground (arith, Write.szukaj-release f k slot w.distinct refl));
          table = p.woken.valid;
          cv_table = rw cvs (record {
            distinct = Write.Distinct-release f slot w.distinct refl;
            sized =
                Write.All-modify-Slot (IsSized limit) f slot
                  (record { procesy = sized.procesy; muteksy = sized.muteksy; size = omega arith })
                  w.sized;
            busy = Write.All-modify-Slot _ f slot (λ u. cc) w.busy;
          });
          sends = p.woken.sends;
          caller = refl;
        })

  -- `cs_broadcast` lets every process that waits for the event ask for its mutex, in the order of
  -- arrival: one that gets the mutex, or has it already, is sent 0, and the others now wait for it.
  -- Nobody waits for the event any more, and the other events stay as they are. The
  -- conditions: every `malloc` succeeds, the codes that the server tells apart differ, and a mutex
  -- slot is free for each process that is woken. Both tables stay well formed.
  pub cs_broadcast-broadcast :
      (ev : ℕ) (s : Server)
      → IsTable s.m
      → IsCvTable limit s.cv
      → uzywane s.m + length (events_of s.cv ev) ≤ length s.m
      → Changed limit e s (broadcast ev (locks_of s.m) (events_of s.cv)) (cs_broadcast e ev s)
  unfolding cs_broadcast
  cs_broadcast-broadcast ev s v w room = elim (szukanie ev s.cv) [
    | brak unknown absent ↦
        rw (unknown, cs_broadcast)
          (record {
            after = s;
            returns = refl;
            locks = rw absent;
            events = fun_ext λ k. ground (arith, ==_iff k ev);
            table = v;
            cv_table = w;
            sends = rw absent (sym (append-nil s.sent));
            caller = refl;
          })
    | jest {x = c} slot ↦
        let z = Table.Slot-All (IsSized limit) slot w.sized in
        rw (Table.szukaj-Slot slot) (
          broadcast_known s slot v w z (
            omega (
              arith,
              czekajacy-length c z,
              ap (λ o. length (waiters_in o)) (Table.szukaj-Slot slot),
            )))
  ]
