-- ===== src/Pm/Booted.antt =====
-- What the initialisation of projekt/servers/pm/main.c makes of the boot image.
use minix_server_of_mutex_an.Base.{
  ℕ, ◌+◌, ◌*◌, ◌-◌, ◌<◌, ◌≤◌, ◌≡◌, ◌≢◌, refl, ap, sym, ◌∙◌, subst, true, false, Option, some, List,
  [], ◌∷◌, ◌++◌, ℤ, pos, negsuc, ◌==◌, leb, ◌>>=◌, Bool-cases, inl, inr, ==_refl, ==_ne, arith,
}
use minix_server_of_mutex_an.Pm.{Mproc, Call, Pm, Kernel, modify_proc, must}
use minix_server_of_mutex_an.Pm.Report.{must_ok}
use minix_server_of_mutex_an.Pm.Pids.{get_free_pid_lem}
use minix_server_of_mutex_an.Pm.Init.{
  BootImage, strlcpy, nowy_wpis, wpis_init, rodzic, uslugowy, wpis_uslugi, koniec, wpisz,
  wpisz_numer, wpisz_obraz,
}

module _ (k : Kernel) (room : ℕ) (answers : (cs : List Call) (c : Call) → k.answer cs c ≡ k.ok)
    (numbers : 2 * k.nr_procs < k.nr_pids - k.init_pid) where
  -- The slot of a process of the image.
  pub record IsEntered (nr : ℕ) (ip : BootImage) (p : Mproc) : Type 0 where
    pub in_use : p.flags.in_use ≡ true
    pub endpoint : p.endpoint ≡ ip.endpoint
    pub name : p.name ≡ strlcpy room ip.proc_name

  abbrev pub InRange : Pm → Type 0
  InRange s = (k.init_pid ≤ s.next_pid) × (s.next_pid ≤ k.nr_pids)

  record Entered (nr : ℕ) (ip : BootImage) (s : Pm) (r : Option Pm) : Type 0 where
    after : Pm
    returns : r ≡ some after
    entered : IsEntered nr ip (after.mproc nr)
    others : (i : ℕ) → i ≢ nr → after.mproc i ≡ s.mproc i
    more : after.procs_in_use ≡ s.procs_in_use + 1
    in_range : InRange after

  modified : (nr : ℕ) (f : Mproc → Mproc) (s : Pm) → (modify_proc nr f s).mproc nr ≡ f (s.mproc nr)
  unfolding modify_proc
  modified nr f s = rw (==_refl nr)

  unmodified :
      (nr i : ℕ) (f : Mproc → Mproc) (s : Pm) → i ≢ nr → (modify_proc nr f s).mproc i ≡ s.mproc i
  unfolding modify_proc
  unmodified nr i f s ne = rw (==_ne i nr ne)

  -- The round from the kind of the process on.
  last_step :
      (nr : ℕ) (ip : BootImage) (s s2 : Pm) (f : Mproc → Mproc)
      → s2.mproc nr ≡ f (nowy_wpis room ip (s.mproc nr))
      → ((p : Mproc) → (f p).flags.in_use ≡ true)
      → ((p : Mproc) → (f p).name ≡ p.name)
      → ((i : ℕ) → i ≢ nr → s2.mproc i ≡ s.mproc i)
      → s2.procs_in_use ≡ s.procs_in_use + 1
      → InRange s2
      → (c : Call) → Entered nr ip s (must k c (modify_proc nr (koniec k room ip.endpoint) s2))
  unfolding modify_proc
  last_step nr ip s s2 f here used same others more range c =
      let s3 = modify_proc nr (koniec k room ip.endpoint) s2 in
      let slot : s3.mproc nr ≡ koniec k room ip.endpoint (f (nowy_wpis room ip (s.mproc nr))) =
        modified nr (koniec k room ip.endpoint) s2 ∙ ap (koniec k room ip.endpoint) here in
      record {
        after = record s3 { calls = s3.calls ++ c ∷ [] };
        returns = must_ok k answers c s3;
        entered = record {
          in_use = ap (λ p. p.flags.in_use) slot ∙ used _;
          endpoint = ap (λ p. p.endpoint) slot;
          name = ap (λ p. p.name) slot ∙ same _;
        };
        others = λ i ne. unmodified nr i (koniec k room ip.endpoint) s2 ne ∙ others i ne;
        more = more;
        in_range = range;
      }

  one_round :
      (nr : ℕ) (ip : BootImage) (s : Pm)
      → nr < k.nr_procs
      → InRange s
      → Entered nr ip s (wpisz k room nr ip s)
  unfolding wpisz wpis_uslugi modify_proc
  one_round nr ip s inside range =
      let in_table : leb k.nr_procs nr ≡ false = ground arith in
      let s1 =
        modify_proc nr (nowy_wpis room ip) (record s { procs_in_use = s.procs_in_use + 1 }) in
      let first : s1.mproc nr ≡ nowy_wpis room ip (s.mproc nr) =
        modified nr (nowy_wpis room ip) (record s { procs_in_use = s.procs_in_use + 1 }) in
      let apart = λ (i : ℕ) (ne : i ≢ nr).
        unmodified nr i (nowy_wpis room ip) (record s { procs_in_use = s.procs_in_use + 1 }) ne in
      elim (Bool-cases (nr == k.init_proc_nr)) [
        | inl e ↦
            rw (in_table, e)
              (last_step nr ip s (modify_proc nr (wpis_init k room) s1) (wpis_init k room)
                (modified nr (wpis_init k room) s1 ∙ ap (wpis_init k room) first) (λ p. refl)
                (λ p. refl) (λ i ne. unmodified nr i (wpis_init k room) s1 ne ∙ apart i ne) refl
                range _)
        | inr e ↦
            let s2 = modify_proc nr (rodzic k room nr) s1 in
            let found =
              get_free_pid_lem k k.nr_pids k.nr_pids s2.next_pid s2 numbers range.0 range.1
                (omega arith) in
            let s3 : Pm = record s2 { next_pid = found.pid } in
            let both = λ (p : Mproc). uslugowy k room found.pid (rodzic k room nr p) in
            rw (in_table, e, found.returns)
              (last_step nr ip s (modify_proc nr (uslugowy k room found.pid) s3) both
                (modified nr (uslugowy k room found.pid) s3
                  ∙ ap (uslugowy k room found.pid)
                      (modified nr (rodzic k room nr) s1 ∙ ap (rodzic k room nr) first))
                (λ p. refl) (λ p. refl)
                (λ i ne.
                  unmodified nr i (uslugowy k room found.pid) s3 ne
                  ∙ (unmodified nr i (rodzic k room nr) s1 ne ∙ apart i ne))
                refl (omega (arith, found.above), found.below) _)
      ]

  -- No process of the image has the slot.
  abbrev IsApart : ℕ → List BootImage → Type 0
  IsApart i [] = Unit
  IsApart i (ip ∷ image) = (ip.proc_nr ≢ pos i) × IsApart i image

  -- The processes of the image have slots of the table, no two of them the same.
  abbrev pub IsImage : List BootImage → Type 0
  IsImage [] = Unit
  IsImage (ip ∷ image) =
      ((nr : ℕ) → ip.proc_nr ≡ pos nr → (nr < k.nr_procs) × IsApart nr image) × IsImage image

  abbrev count : ℤ → ℕ
  count (pos nr) = 1
  count (negsuc nr) = 0

  -- How many of the image are no tasks.
  abbrev pub users : List BootImage → ℕ
  users [] = 0
  users (ip ∷ image) = count ip.proc_nr + users image

  abbrev pub AllEntered : List BootImage → Pm → Type 0
  AllEntered [] t = Unit
  AllEntered (ip ∷ image) t =
      ((nr : ℕ) → ip.proc_nr ≡ pos nr → IsEntered nr ip (t.mproc nr)) × AllEntered image t

  pub record Booted (image : List BootImage) (s : Pm) (r : Option Pm) : Type 0 where
    pub after : Pm
    pub returns : r ≡ some after
    pub entered : AllEntered image after
    pub others : (i : ℕ) → IsApart i image → after.mproc i ≡ s.mproc i
    pub more : after.procs_in_use ≡ s.procs_in_use + users image
    pub in_range : InRange after

  pos_same : {a b : ℕ} → pos a ≡ pos b → a ≡ b
  pos_same {a} e = ap (λ z. elim z [ pos n ↦ n | negsuc n ↦ a ]) e

  -- A round, and then the rest of the image.
  go_on :
      (n : ℤ) (ip : BootImage) (image : List BootImage) (s : Pm)
      → ip.proc_nr ≡ n
      → ((nr : ℕ) → ip.proc_nr ≡ pos nr → (nr < k.nr_procs) × IsApart nr image)
      → InRange s
      → ((t : Pm) → InRange t → Booted image t (wpisz_obraz k room image t))
      → Booted (ip ∷ image) s (wpisz_numer k room n ip s >>= wpisz_obraz k room image)
  go_on (negsuc nr) ip image s is apart range next =
      let rest = next s range in
      let skip : 0 ≡ count ip.proc_nr = ap count (sym is) in
      record {
        after = rest.after;
        returns = rest.returns;
        entered = ((λ m f. absurd (is_task (sym is ∙ f))), rest.entered);
        others = λ i a. rest.others i a.1;
        more = omega (arith, rest.more, skip);
        in_range = rest.in_range;
      }
    where
      is_task : {m : ℕ} → negsuc nr ≡ pos m → ⊥
      is_task e = cc
  go_on (pos nr) ip image s is apart range next =
      let one = one_round nr ip s (apart nr is).0 range in
      let rest = next one.after one.in_range in
      let counted : 1 ≡ count ip.proc_nr = ap count (sym is) in
      record {
        after = rest.after;
        returns = ap (λ r. r >>= wpisz_obraz k room image) one.returns ∙ rest.returns;
        entered = (
          (λ m f.
              let same : nr ≡ m = pos_same (sym is ∙ f) in
              subst (λ j. IsEntered j ip (rest.after.mproc j)) same
                (subst (IsEntered nr ip) (sym (rest.others nr (apart nr is).1)) one.entered)),
          rest.entered,
        );
        others = λ i a. rest.others i a.1 ∙ one.others i λ same. a.0 (is ∙ ap pos (sym same));
        more = omega (arith, rest.more, one.more, counted);
        in_range = rest.in_range;
      }

  -- The loop of the initialisation over the boot image ends without a fault: then the slot of each of its processes is in use, with the endpoint of the process and its name
  -- as far as there is room, all other slots are as they were, and the number of slots in use has
  -- grown by the number of processes that are no tasks. The conditions: the kernel takes every call,
  -- there are more than two numbers for each slot, `next_pid` lies in their range, and the
  -- processes of the image have slots below NR_PROCS, no two of them the same.
  pub wpisz_obraz-Booted :
      (image : List BootImage) (s : Pm)
      → IsImage image
      → InRange s
      → Booted image s (wpisz_obraz k room image s)
  unfolding wpisz_obraz
  wpisz_obraz-Booted [] s distinct range = record {
    after = s;
    returns = refl;
    entered = tt;
    others = λ i a. refl;
    more = omega arith;
    in_range = range;
  }
  wpisz_obraz-Booted (ip ∷ image) s (apart, distinct) range =
      go_on ip.proc_nr ip image s refl apart range
        λ t in_range. wpisz_obraz-Booted image t distinct in_range
