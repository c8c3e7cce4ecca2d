-- ===== src/Pm/Killable/Init.antt =====
-- SIGKILL from the start of PM: projekt/servers/pm/main.c.
use mathlib.Core.Option
use minix_server_of_mutex_an.Base.{
  ℕ, ◌+◌, ◌≡◌, refl, ap, ◌∙◌, Bool, Option, none, some, List, [], ◌∷◌, ℤ, pos, negsuc, ◌==◌, leb,
  ◌>>=◌,
}
use minix_server_of_mutex_an.Pm.{Mproc, Pm, Kernel, modify_proc}
use minix_server_of_mutex_an.Pm.Utility.{get_free_pid}
use minix_server_of_mutex_an.Pm.Exit.{Minix, other}
use minix_server_of_mutex_an.Pm.Vfs.{System}
use minix_server_of_mutex_an.Pm.Init.{
  Sygnaly, ustaw_sety, BootImage, nowy_wpis, wpis_init, rodzic, uslugowy, wpis_uslugi, koniec,
  wpisz, wpisz_numer, wpisz_obraz, sef_cb_init_fresh, Zdarzenie, wiadomosc, ksig, zdarzenie,
  zdarzenia, main,
}
use minix_server_of_mutex_an.Pm.Killable.{
  IsKillable, AllKillable, Safe, SafeResult, Safe-none, Safe-some, Safe-bind, Safe-if, Safe-must,
  AllKillable-modify,
}
use minix_server_of_mutex_an.Pm.Killable.Exit.{IsLawfulMinix, other-IsLawful}
use minix_server_of_mutex_an.Pm.Killable.Ksig.{SafeResult-manager}
use minix_server_of_mutex_an.Pm.Killable.Vfs.{IsLawfulSystem}
use minix_server_of_mutex_an.Pm.Killable.Loop.{AllLawful, petla-AllKillable}

module _ (k : Kernel) (room : ℕ) where
  -- A change of fields that the predicate does not read.
  same_sets :
      (p q : Mproc)
      → q.sigmask ≡ p.sigmask
      → q.sigmask2 ≡ p.sigmask2
      → q.catch ≡ p.catch
      → q.ignore ≡ p.ignore
      → q.sigact ≡ p.sigact
      → IsKillable k p
      → IsKillable k q
  same_sets p q a b c d e h = record {
    mask = ap (λ s. s k.sigkill) a ∙ h.mask;
    mask2 = ap (λ s. s k.sigkill) b ∙ h.mask2;
    catch = ap (λ s. s k.sigkill) c ∙ h.catch;
    ignore = ap (λ s. s k.sigkill) d ∙ h.ignore;
    sa_mask = λ n. ap (λ f. (f n).sa_mask k.sigkill) e ∙ h.sa_mask n;
  }

  IsKillable-nowy_wpis :
      (ip : BootImage) (p : Mproc) → IsKillable k p → IsKillable k (nowy_wpis room ip p)
  IsKillable-nowy_wpis ip p h = record {
    mask = refl;
    mask2 = h.mask2;
    catch = refl;
    ignore = refl;
    sa_mask = h.sa_mask;
  }

  Safe-wpis_uslugi : (nr : ℕ) (s : Pm) → AllKillable k s → Safe k (wpis_uslugi k room nr s)
  unfolding wpis_uslugi
  Safe-wpis_uslugi nr s all =
      let s1 = modify_proc nr (rodzic k room nr) s in
      let all1 =
        AllKillable-modify k nr (rodzic k room nr) s
          (λ p. same_sets p (rodzic k room nr p) refl refl refl refl refl) all in
      numbered s1 all1 (get_free_pid k.nr_pids k k.nr_pids s1.next_pid s1)
    where
      numbered :
          (s1 : Pm)
          → AllKillable k s1
          → (r : Option ℕ)
          → Safe k
              (r >>= λ n. some (modify_proc nr (uslugowy k room n) (record s1 { next_pid = n })))
      numbered s1 all1 none = Safe-none k
      numbered s1 all1 (some n) = Safe-some k (
          AllKillable-modify k nr (uslugowy k room n) (record s1 { next_pid = n })
            (λ p. same_sets p (uslugowy k room n p) refl refl refl refl refl)
            (record { at = all1.at }))

  Safe-wpisz : (nr : ℕ) (ip : BootImage) (s : Pm) → AllKillable k s → Safe k (wpisz k room nr ip s)
  unfolding wpisz
  Safe-wpisz nr ip s all =
      let all1 =
        AllKillable-modify k nr (nowy_wpis room ip) (record s { procs_in_use = s.procs_in_use + 1 })
          (IsKillable-nowy_wpis ip) (record { at = all.at }) in
      Safe-if k (leb k.nr_procs nr) none _ (Safe-none k) (
        Safe-bind k _ _
          (Safe-if k (nr == k.init_proc_nr) _ _
            (Safe-some k (
              AllKillable-modify k nr (wpis_init k room) _
                (λ p. same_sets p (wpis_init k room p) refl refl refl refl refl) all1))
            (Safe-wpis_uslugi nr _ all1))
          λ s2 all2. Safe-must k _ _ (
            AllKillable-modify k nr (koniec k room ip.endpoint) s2
              (λ p. same_sets p (koniec k room ip.endpoint p) refl refl refl refl refl) all2))

  Safe-wpisz_numer :
      (n : ℤ) (ip : BootImage) (s : Pm) → AllKillable k s → Safe k (wpisz_numer k room n ip s)
  Safe-wpisz_numer (pos nr) ip s all = Safe-wpisz nr ip s all
  Safe-wpisz_numer (negsuc nr) ip s all = Safe-some k all

  Safe-wpisz_obraz :
      (image : List BootImage) (s : Pm) → AllKillable k s → Safe k (wpisz_obraz k room image s)
  unfolding wpisz_obraz
  Safe-wpisz_obraz [] s all = Safe-some k all
  Safe-wpisz_obraz (ip ∷ image) s all =
      Safe-bind k _ _ (Safe-wpisz_numer ip.proc_nr ip s all)
        λ s1 all1. Safe-wpisz_obraz image s1 all1

  Safe-init :
      (image : List BootImage) (ready : Bool) (sched_init : Pm → Option Pm) (s : Pm)
      → ((t : Pm) → AllKillable k t → Safe k (sched_init t))
      → AllKillable k s
      → Safe k (sef_cb_init_fresh k room image ready sched_init s)
  unfolding sef_cb_init_fresh
  Safe-init image ready sched_init s lawful all = Safe-bind k _ _ (Safe-must k _ s all) λ s1 all1.
      Safe-bind k _ _ (Safe-must k _ s1 all1) λ s2 all2.
        Safe-bind k _ _ (Safe-must k _ s2 all2) λ s3 all3.
          Safe-bind k _ _
            (Safe-wpisz_obraz image (record s3 { procs_in_use = 0 }) (record { at = all3.at }))
            λ s4 all4.
              Safe-bind k _ _ (Safe-must k _ s4 all4)
                λ s5 all5. Safe-if k ready _ none (lawful s5 all5) (Safe-none k)

-- The requests among the messages are ones whose functions in other files keep the predicate.
abbrev pub AreLawful : Kernel → List Zdarzenie → Type 0
AreLawful k [] = Unit
AreLawful k (wiadomosc m ∷ zs) = AllLawful k (m ∷ []) × AreLawful k zs
AreLawful k (ksig target signo ∷ zs) = AreLawful k zs

Safe-state :
    (k : Kernel) (r : Option (ℤ × Pm)) → SafeResult k r → Safe k (Option.map (λ (_, t). t) r)
Safe-state k none h = Safe-none k
Safe-state k (some (a, s)) h = Safe-some k (h.keeps a s refl)

module _ (k : Kernel) (x : Minix) (y : System) (clock : ℤ) (fuel : ℕ) (lawful : IsLawfulMinix k x)
    (system : IsLawfulSystem k y) where
  Safe-zdarzenia :
      (zs : List Zdarzenie) (s : Pm)
      → AreLawful k zs
      → AllKillable k s
      → Safe k (zdarzenia k (other k x fuel) y clock zs s)
  unfolding zdarzenia zdarzenie
  Safe-zdarzenia [] s fine all = Safe-some k all
  Safe-zdarzenia (wiadomosc m ∷ zs) s (one, fine) all =
      Safe-bind k _ _ (petla-AllKillable k x y clock fuel (m ∷ []) s lawful system one all)
        λ s1 all1. Safe-zdarzenia zs s1 fine all1
  Safe-zdarzenia (ksig target signo ∷ zs) s fine all =
      Safe-bind k _ _
        (Safe-state k _ (
          SafeResult-manager k (other k x fuel) (other-IsLawful k x lawful fuel) target signo s
            all))
        λ s1 all1. Safe-zdarzenia zs s1 fine all1

-- From the start of PM, no boot image and no sequence of messages and of signals of the kernel
-- after the initialisation makes it reach a state in which a process blocks, catches or ignores
-- SIGKILL. The conditions: no slot of the table does before the start, and the functions of other
-- files of MINIX keep it.
pub main-AllKillable :
    (k : Kernel) (n : Sygnaly) (x : Minix) (y : System) (room : ℕ) (image : List BootImage)
    (ready : Bool) (sched_init : Pm → Option Pm) (clock : ℤ) (fuel : ℕ) (zs : List Zdarzenie)
    (s : Pm)
    → IsLawfulMinix (ustaw_sety n k) x
    → IsLawfulSystem (ustaw_sety n k) y
    → ((t : Pm) → AllKillable (ustaw_sety n k) t → Safe (ustaw_sety n k) (sched_init t))
    → AreLawful (ustaw_sety n k) zs
    → AllKillable (ustaw_sety n k) s
    → Safe (ustaw_sety n k) (main k n x fuel room image ready sched_init y clock zs s)
unfolding main
main-AllKillable k n x y room image ready sched_init clock fuel zs s lawful system sched fine all =
    let k1 = ustaw_sety n k in
    Safe-bind k1 _ _ (Safe-init k1 room image ready sched_init s sched all)
      λ s1 all1. Safe-zdarzenia k1 x y clock fuel lawful system zs s1 fine all1
