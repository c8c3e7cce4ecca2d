-- ===== src/Pm/Status.antt =====
-- What a parent reads of the end of its child: `tell_parent` of projekt/servers/pm/forkexit.c.
use minix_server_of_mutex_an.Base.{
  ℕ, ◌-◌, ◌/◌, ◌%◌, ◌<◌, ◌≡◌, ◌≢◌, ap, true, false, Option, some, ℤ, pos, negsuc, leb, ==_refl,
  ==_ne, arith,
}
use minix_server_of_mutex_an.Pm.{Pm, Kernel, modify_proc, set_flags}
use minix_server_of_mutex_an.Pm.Signal.{setreply}
use minix_server_of_mutex_an.Pm.Children.{z_bajtem, status_wyjscia, zgloszony, tell_parent}

-- `status & 0377`, and `status >> 8` where it keeps the sign.
abbrev pub low_byte : ℤ → ℕ
low_byte (pos n) = n % 256
low_byte (negsuc n) = 255 - n % 256

abbrev pub high_bytes : ℤ → ℤ
high_bytes (pos n) = pos (n / 256)
high_bytes (negsuc n) = negsuc (n / 256)

z_bajtem-bytes :
    (e : ℤ) (low : ℕ)
    → low < 256
    → (high_bytes (z_bajtem e low) ≡ e) × (low_byte (z_bajtem e low) ≡ low)
z_bajtem-bytes (pos n) low small = (ap pos (omega arith), omega arith)
z_bajtem-bytes (negsuc n) low small = (ap negsuc (omega arith), omega arith)

ge→no : (n i : ℕ) → i < n → leb n i ≡ false
ge→no n i less = ground arith

-- What `tell_parent` leaves behind, where `parent` is the slot of the child's parent.
pub record Told (k : Kernel) (child parent : ℕ) (s : Pm) (r : Option Pm) : Type 0 where
  pub after : Pm
  pub returns : r ≡ some after
  pub status : high_bytes (after.mproc parent).reply_res2 ≡ (s.mproc child).exitstatus
  pub signal : low_byte (after.mproc parent).reply_res2 ≡ (s.mproc child).sigstatus % 256
  pub result : (after.mproc parent).reply_res ≡ pos (s.mproc child).pid
  pub replies : (after.mproc parent).flags.reply ≡ true
  pub wakes : (after.mproc parent).flags.waiting ≡ false
  pub no_zombie : (after.mproc child).flags.zombie ≡ false
  pub once : (after.mproc child).flags.told_parent ≡ true
  pub others : (i : ℕ) → i ≢ parent → i ≢ child → after.mproc i ≡ s.mproc i

-- The parent of a child that ended learns its end once: the parent's call returns the number of the
-- child, and from the status that it gets the byte at the bottom gives back the signal that ended
-- the child and the rest its exit status. The parent does not wait any more, the child is no zombie
-- and is marked as told, and no other process changes. The conditions: the child is a zombie that
-- was not reported, and its parent is another process of the table and not in the slot 0.
pub tell_parent-Told :
    (k : Kernel) (child : ℕ) (s : Pm)
    → (s.mproc child).parent ≢ 0
    → (s.mproc child).parent < k.nr_procs
    → child ≢ (s.mproc child).parent
    → (s.mproc child).flags.zombie ≡ true
    → (s.mproc child).flags.told_parent ≡ false
    → Told k child (s.mproc child).parent s (tell_parent k child s)
unfolding tell_parent setreply set_flags modify_proc
tell_parent-Told k child s real inside apart zombie fresh =
    let p = s.mproc child in
    let back = ==_ne p.parent child λ e. apart (cc) in
    let bytes = z_bajtem-bytes p.exitstatus (p.sigstatus % 256) (omega arith) in
    let here = ==_refl p.parent in
    record {
      after = set_flags child zgloszony (
          set_flags p.parent (λ f. record f { waiting = false })
            (modify_proc p.parent
              (λ q. record q { reply_res = pos p.pid; flags = record q.flags { reply = true } })
              (modify_proc p.parent (λ q. record q { reply_res2 = status_wyjscia p }) s)));
      returns = simp (==_ne p.parent 0 real, zombie, fresh, ge→no k.nr_procs p.parent inside);
      status = simp (back, here) (bytes.0);
      signal = simp (back, here) (bytes.1);
      result = simp (back, here);
      replies = simp (back, here);
      wakes = simp (back, here);
      no_zombie = simp (==_refl child);
      once = simp (==_refl child);
      others = λ i a b. simp (==_ne i p.parent a, ==_ne i child b);
    }
