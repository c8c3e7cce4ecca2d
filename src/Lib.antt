-- ===== src/Lib.antt =====
-- Verification of the mutex and condition-variable server for MINIX.
--
-- The program is a server process, `cv`, that gives user processes mutexes and events, the client
-- functions with which they ask for them, and the changes to the process manager (PM) by which
-- `cv` learns of signals and of the ends of processes. A client sends a request and waits for the
-- answer; a process that has to wait for a mutex or an event gets no answer until another process
-- releases the mutex or announces the event. PM sends CS_EINTR when a signal interrupts a process
-- and CS_EXIT when one ends.
--
-- The parts, and the files that model them:
--   projekt/servers/cv/queue.h: Queue.antt has the queue of a mutex as a list; Queue/Heap.antt has
--     utworzKolejke, wstaw, pierwszyKolejka, czyPusto and usunElement over an explicit heap, and
--     its children relate what they do to lists of cells.
--   projekt/servers/cv/main.c: State.antt has the tables M and CV and wyslijWiadomosc, Slots.antt
--     the searches of the tables, Mutexes.antt cs_lock and cs_unlock, Cvs.antt cs_wait and
--     cs_broadcast, Signals.antt wyslijEINTR, usunZakonczonyProcesCV and usunZakonczonyProces, and
--     Server.antt obslugaWiadomosci and the loop of main. The runs of the server from its start are
--     in Server/Run.antt and its children: Steps and Bounded (the tables are large enough), Places,
--     Sound, Wakes, Ends, Gone, Stays and Ended (where each process waits), Once, Woken and
--     Interrupted (the answers to a signal).
--   Link.antt joins PM and the server: the reports that tell_cv sends, as the server takes them.
--   projekt/lib/libc/sys-minix/cv.c: Client.antt.
--   projekt/servers/pm/utility.c: Pm/Utility.antt and Pm/Parameters.antt.
--   projekt/servers/pm/signal.c: Pm/Signal.antt (sig_proc, sig_send, unpause, check_pending),
--     Pm/Check.antt (check_sig, process_ksig, restart_sigs) and Pm/Masks.antt (the system calls
--     on masks and handlers). Pm.antt has the process table. The proofs are in Pm/Report.antt
--     (what PM tells the server), Pm/Killable.antt and Pm/Kill.antt (SIGKILL) and Pm/Numbers.antt
--     (process numbers and priorities).
--   projekt/servers/pm/forkexit.c: Pm/Fork.antt (do_fork, do_srv_fork), Pm/Exit.antt (do_exit,
--     exit_proc, exit_restart), Pm/Wait.antt (do_waitpid) and Pm/Children.antt (zombify,
--     check_parent, tell_parent, tell_tracer, tracer_died, wait_test, cleanup).
--   projekt/servers/pm/main.c: Pm/Loop.antt has the loop of main and get_nice_value, Pm/Init.antt
--     the initialisation and the signals of the kernel, Pm/Vfs.antt handle_vfs_reply,
--     Pm/Reply.antt sendreply, and Pm/Signal.antt setreply.
--   The proofs on these two files are in Pm/ExitReport.antt, Pm/Forked.antt and its children,
--     Pm/Pids.antt, Pm/Status.antt, Pm/Waited.antt, Pm/Booted.antt and Pm/Answers.antt.
--   Tests.antt and its children apply the theorems to concrete states.
--
-- Spec.antt says what the server promises without its tables: who holds which mutex and who waits
-- for what. An `int` that is only compared for equality is a natural number; codes of <errno.h>
-- are signed. What the kernel answers is a parameter everywhere, and the messages sent are a list
-- in the state. A walk through a pointer to nothing and `panic` are `none`, and so is an access
-- outside the tables M and CV and their arrays; Signals/Reach.antt shows that the removal from
-- the arrays, for which Signals/Plain.antt has functions without that test, stays inside them.
-- The process table of PM is a function of the slot, without a bound: the slots come from
-- searches that stop at NR_PROCS, from pm_isokendpt, from the links to parents and tracers and,
-- where main enters the boot image, from a number that is compared with NR_PROCS (`none`
-- otherwise). `malloc` is a parameter in cv: its failure is a NULL that the source follows,
-- `none`, in utworzKolejke and in wstaw, and what it leaves in the `start` node of each slot is a
-- value of its own. A loop over an array is recursion over its length, or over the rounds left;
-- the walks of queue.h and the retry loop of the client take fuel, and the theorems on them say
-- how much is enough. exit_proc and sig_proc call each other, since the end of a process may end
-- others: the functions of signal.c take exit_proc as a parameter, and `other` of Pm/Exit.antt
-- fills it, so many times within each other as its fuel says.
--
-- Not modelled: the registration of the server with MINIX (sef_local_startup and its callbacks,
-- which do nothing else), the lines that PM prints, and the fields for the timer, the magic number
-- and the priority of a process with the copies of the boot parameters, which no function here reads.
-- The functions of other files of MINIX that PM calls, such as `stop_proc` and `exec_restart`, are
-- parameters.
pub mod Base
pub mod Client
pub mod Link
pub mod Pm
pub mod Queue
pub mod State
pub mod Spec
pub mod Slots
pub mod Mutexes
pub mod Cvs
pub mod Signals
pub mod Server
mod Tests
