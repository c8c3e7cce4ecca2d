-- ===== src/Pm/Reply.antt =====
-- `sendreply` of projekt/servers/pm/main.c, which sends the answers that `setreply` left.
use minix_server_of_mutex_an.Base.{
  ℕ, zero, suc, ◌+◌, ◌≤◌, ◌≡◌, ◌≢◌, refl, sym, ◌∙◌, Bool, false, not, ◌&&◌, List, [], ◌∷◌, ◌++◌,
  ◌==◌, if◌then◌else◌, Bool-cases, inl, inr, append_assoc, append-nil, ==_refl, ==_ne, arith,
}
use minix_server_of_mutex_an.Pm.{
  Flags, Mproc, Call, sendnb, Pm, Kernel, modify_proc, set_flags, call,
}

-- `(mp_flags & (REPLY | IN_USE | EXITING)) == (REPLY | IN_USE)`
abbrev pub czeka_na_odpowiedz : Mproc → Bool
czeka_na_odpowiedz p = p.flags.reply && (p.flags.in_use && not p.flags.exiting)

abbrev pub odpowiedz : Mproc → Call
odpowiedz p = sendnb p.endpoint p.reply_res p.reply_res2 p.reply_trace p.reply_mask

abbrev pub bez_odpowiedzi : Flags → Flags
bez_odpowiedzi f = record f { reply = false }

-- One round of the loop.
unfoldable pub odpowiedz_jednemu : Kernel → ℕ → Pm → Pm
unfolding set_flags
odpowiedz_jednemu k i s =
    if czeka_na_odpowiedz (s.mproc i)
    then set_flags i bez_odpowiedzi (call k (odpowiedz (s.mproc i)) s).1
    else s

-- The loop from the slot `i` on, with the rounds that are left.
unfoldable pub sendreply_od : Kernel → ℕ → ℕ → Pm → Pm
unfolding odpowiedz_jednemu
sendreply_od k zero i s = s
sendreply_od k (suc r) i s = sendreply_od k r (suc i) (odpowiedz_jednemu k i s)

unfoldable pub sendreply : Kernel → Pm → Pm
unfolding sendreply_od
sendreply k s = sendreply_od k k.nr_procs 0 s

-- The answers that are due in the slots from `i` on, in the order of the slots.
abbrev pub due : ℕ → ℕ → (ℕ → Mproc) → List Call
due zero i table = []
due (suc r) i table =
    (if czeka_na_odpowiedz (table i) then odpowiedz (table i) ∷ [] else []) ++ due r (suc i) table

due-same : (r i : ℕ) (t u : ℕ → Mproc) → ((j : ℕ) → i ≤ j → t j ≡ u j) → due r i t ≡ due r i u
due-same zero i t u same = refl
due-same (suc r) i t u same =
    rw (same i (omega arith), due-same r (suc i) t u (λ j le. same j (omega arith)))

round_other :
    (k : Kernel) (i j : ℕ) (s : Pm) → j ≢ i → (odpowiedz_jednemu k i s).mproc j ≡ s.mproc j
unfolding odpowiedz_jednemu set_flags modify_proc
round_other k i j s ne = elim (Bool-cases (czeka_na_odpowiedz (s.mproc i))) [
  | inl due ↦ rw (due, ==_ne j i ne)
  | inr none_due ↦ rw none_due
]

round_calls :
    (k : Kernel) (i : ℕ) (s : Pm)
    → (odpowiedz_jednemu k i s).calls
      ≡ s.calls ++ (if czeka_na_odpowiedz (s.mproc i) then odpowiedz (s.mproc i) ∷ [] else [])
unfolding odpowiedz_jednemu set_flags modify_proc
round_calls k i s = elim (Bool-cases (czeka_na_odpowiedz (s.mproc i))) [
  | inl due ↦ rw due
  | inr none_due ↦ rw (none_due, append-nil)
]

round_done :
    (k : Kernel) (i : ℕ) (s : Pm) → czeka_na_odpowiedz ((odpowiedz_jednemu k i s).mproc i) ≡ false
unfolding odpowiedz_jednemu set_flags modify_proc
round_done k i s = elim (Bool-cases (czeka_na_odpowiedz (s.mproc i))) [
  | inl due ↦ rw (due, ==_refl i)
  | inr none_due ↦ rw none_due none_due
]

sendreply_od-calls :
    (k : Kernel) (r i : ℕ) (s : Pm) → (sendreply_od k r i s).calls ≡ s.calls ++ due r i s.mproc
unfolding sendreply_od
sendreply_od-calls k zero i s = sym (append-nil s.calls)
sendreply_od-calls k (suc r) i s =
    let t = odpowiedz_jednemu k i s in
    let later = due-same r (suc i) t.mproc s.mproc λ j le. round_other k i j s λ e. omega arith in
    rw (sendreply_od-calls k r (suc i) t, round_calls k i s, later, append_assoc)

-- The slots that the loop has passed keep their state.
sendreply_od-passed :
    (k : Kernel) (r i j : ℕ) (s : Pm) → suc j ≤ i → (sendreply_od k r i s).mproc j ≡ s.mproc j
unfolding sendreply_od
sendreply_od-passed k zero i j s le = refl
sendreply_od-passed k (suc r) i j s le =
    sendreply_od-passed k r (suc i) j (odpowiedz_jednemu k i s) (omega arith)
    ∙ round_other k i j s λ e. omega arith

sendreply_od-done :
    (k : Kernel) (r i j : ℕ) (s : Pm)
    → i ≤ j
    → suc j ≤ i + r
    → czeka_na_odpowiedz ((sendreply_od k r i s).mproc j) ≡ false
unfolding sendreply_od
sendreply_od-done k zero i j s low high = absurd (omega arith)
sendreply_od-done k (suc r) i j s low high = elim (Bool-cases (j == i)) [
  | inl e ↦
      let same : j ≡ i = ground arith in
      rw (same, sendreply_od-passed k r (suc i) i (odpowiedz_jednemu k i s) (omega arith))
        (round_done k i s)
  | inr e ↦
      let apart : suc i ≤ j = ground arith in
      sendreply_od-done k r (suc i) j (odpowiedz_jednemu k i s) apart (omega arith)
]

due-none :
    (r i : ℕ) (t : ℕ → Mproc)
    → ((j : ℕ) → i ≤ j → suc j ≤ i + r → czeka_na_odpowiedz (t j) ≡ false)
    → due r i t ≡ []
due-none zero i t done = refl
due-none (suc r) i t done = rw (
  done i (omega arith) (omega arith),
  due-none r (suc i) t (λ j low high. done j (omega arith) (omega arith)),
)

-- `sendreply` sends each process that is in use, not exiting and due an answer what `mp_reply` holds
-- for it, the second result and the trace result included, once and in the order of the slots, and
-- sends nothing else; after it no answer is due.
pub sendreply-due :
    (k : Kernel) (s : Pm)
    → ((sendreply k s).calls ≡ s.calls ++ due k.nr_procs 0 s.mproc)
      × (due k.nr_procs 0 (sendreply k s).mproc ≡ [])
unfolding sendreply
sendreply-due k s = (
  sendreply_od-calls k k.nr_procs 0 s,
  due-none k.nr_procs 0 (sendreply_od k k.nr_procs 0 s).mproc
      (λ j low high. sendreply_od-done k k.nr_procs 0 j s low high),
)
