-- ===== src/Tests/Fork.antt =====
-- The process manager of Tests/Pm.antt makes a process, and reports one that ended.
use minix_server_of_mutex_an.Base.{◌≡◌, refl, ◌==◌, true, false, pos, negsuc, if◌then◌else◌, arith}
use minix_server_of_mutex_an.Pm.{Pm, Kernel}
use minix_server_of_mutex_an.Pm.Children.{no_flags, tell_parent}
use minix_server_of_mutex_an.Pm.Fork.{do_fork}
use minix_server_of_mutex_an.Pm.Forked.{slot_after, FreeSlot}
use minix_server_of_mutex_an.Pm.Forked.Child.{Forked, do_fork-Forked}
use minix_server_of_mutex_an.Pm.Pids.{FreePid, get_free_pid_lem}
use minix_server_of_mutex_an.Pm.Status.{Told, tell_parent-Told}
use minix_server_of_mutex_an.Pm.Wait.{do_waitpid}
use minix_server_of_mutex_an.Pm.Waited.{outcome, do_waitpid-outcome}
use minix_server_of_mutex_an.Tests.Pm.{pm, kernel, others, process, running, answers}

-- A slot more, which is free.
abbrev larger : Kernel
larger = record kernel { nr_procs = 4 }

abbrev with_free_slot : Pm
with_free_slot = record pm {
  mproc = λ i. if i == 3 then record (process 3) { flags = no_flags } else process i;
}

do_fork-Forked_example :
    (slot : FreeSlot larger 0 with_free_slot) × Forked larger others answers
      (slot_after 4 0 slot.rounds)
      with_free_slot
      (do_fork larger others with_free_slot)
do_fork-Forked_example =
    do_fork-Forked larger others answers 3 with_free_slot refl (omega arith) (omega arith) refl refl
      refl refl (omega arith) (omega arith) (omega arith)

get_free_pid_lem_example : FreePid larger 10 9 1 with_free_slot
get_free_pid_lem_example =
    get_free_pid_lem larger 10 9 1 with_free_slot (omega arith) (omega arith) (omega arith)
      (omega arith)

-- The process 0 ended with the status 3.
abbrev with_zombie : Pm
with_zombie = record pm {
  mproc = λ i.
      if i == 0
      then record (process 0) { exitstatus = pos 3; flags = record running { zombie = true } }
      else process i;
}

tell_parent-Told_example : Told kernel 0 1 with_zombie (tell_parent kernel 0 with_zombie)
tell_parent-Told_example =
    tell_parent-Told kernel 0 with_zombie (λ e. cc) (omega arith) (λ e. cc) refl refl

-- The process 1 waits for any child.
do_waitpid-outcome_example :
    do_waitpid kernel others (negsuc 0) false with_zombie
    ≡ outcome kernel others (negsuc 0) false with_zombie
do_waitpid-outcome_example = do_waitpid-outcome kernel others (negsuc 0) false with_zombie
