-- ===== src/Client.antt =====
-- projekt/lib/libc/sys-minix/cv.c: the functions that a program calls. `minix_rs_lookup` and
-- `_syscall` are parameters: what they return may depend on the calls made before.
pub mod Retry
use minix_server_of_mutex_an.Base.{
  ℕ, zero, suc, Option, none, some, List, [], ◌∷◌, ◌++◌, ℤ, pos, negsuc, equals, if◌then◌else◌,
  ◌>>=◌,
}

-- A message that the library sends: `m_type`, `m1_i1` and `m1_i2`.
pub record Call : Type 0 where
  pub to : ℕ
  pub typ : ℕ
  pub mutex_id : ℕ
  pub cv_id : ℕ

-- `lookup` is the endpoint of the server, and `syscall` the result of `_syscall` with the value of
-- `errno` behind it.
pub record Minix : Type 0 where
  pub lookup : List Call → ℕ
  pub syscall : List Call → Call → ℤ × ℤ
  pub eintr : ℤ

pub record Client : Type 0 where
  pub sent : List Call
  pub errno : ℤ

abbrev pub request : Minix → ℕ → ℕ → ℕ → List Call → Call
request e typ mutex_id cv_id sent = record {
  to = e.lookup sent;
  typ = typ;
  mutex_id = mutex_id;
  cv_id = cv_id;
}

unfoldable pub send_message : Minix → ℕ → ℕ → ℕ → Client → ℤ × Client
send_message e typ mutex_id cv_id s =
    let c = request e typ mutex_id cv_id s.sent in
    let (r, errno) = e.syscall s.sent c in (r, record { sent = s.sent ++ c ∷ []; errno = errno })

-- `none` is a loop that is not done when its fuel is.
unfoldable pub cs_lock : ℕ → Minix → ℕ → Client → Option (ℤ × Client)
unfolding send_message
cs_lock zero e mutex_id s = none
cs_lock (suc f) e mutex_id s =
    let (result, s1) = send_message e 1 mutex_id 0 s in
    let again = cs_lock f e mutex_id s1 in
    if equals result (negsuc 0)
    then if equals s1.errno e.eintr then again else some (negsuc 0, s1)
    else some (result, s1)

unfoldable pub cs_unlock : Minix → ℕ → Client → ℤ × Client
unfolding send_message
cs_unlock e mutex_id s = send_message e 2 mutex_id 0 s

-- `return (-1 == cs_lock(mutex_id)) ? -1 : 0`
abbrev pub odzyskaj : Option (ℤ × Client) → Option (ℤ × Client)
odzyskaj locked = do (r, s) ← locked; some (if equals r (negsuc 0) then negsuc 0 else pos 0, s)

unfoldable pub cs_wait : ℕ → Minix → ℕ → ℕ → Client → Option (ℤ × Client)
unfolding send_message cs_lock
cs_wait f e cv_id mutex_id s =
    let (result, s1) = send_message e 3 mutex_id cv_id s in
    if equals result (negsuc 0)
    then if equals s1.errno e.eintr then odzyskaj (cs_lock f e mutex_id s1) else some (negsuc 0, s1)
    else some (result, s1)

unfoldable pub cs_broadcast : Minix → ℕ → Client → ℤ × Client
unfolding send_message
cs_broadcast e cv_id s = send_message e 4 0 cv_id s
