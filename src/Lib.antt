-- ===== src/Lib.antt =====
-- Verification of the thread synchronisation code of this repository: locks, monitors, wait queues
-- and queues written over POSIX mutexes and condition variables, and a table with subscribers.
--
-- The parts, and the files that model them:
--
-- - Common: the numbers, lists and options that the parts share. Numbers are the native ℕ; the
--   wrap-around of a machine-width integer is written out (`% 2 ^ 16` for uint16_t). Common/Lists has
--   `length`, `get_or` and `set` for arrays, Common/Sums adds a count over the threads.
-- - Sync: how code that blocks is read. Between pthread_mutex_lock, or the return of
--   pthread_cond_wait, and the next wait or pthread_mutex_unlock a function is one atomic section,
--   from the object's state and the thread to an outcome: it returns (`leaves`), waits on a condition
--   variable (`sleeps`) or fails an assert (`aborts`), and says whom it signals. `Api` has an object's
--   calls, `World` the object with the place of each thread, `Step` one section of one thread: any
--   interleaving, any choice of the thread that a signal wakes, and spurious wakeups. `Reach` is a
--   run from the start. Sync/Change says what a step does to sums over the threads, Sync/Wakeups
--   what a signal and a broadcast leave asleep.
-- - RecMutex: recursive_mutex/rec_mutex.c and rec_mutex.h. `RecMutex` is rec_mutex_t without the
--   inner mutex and the condition variable, which Sync stands for; `rec_mutex_lock` is the section
--   of that function from its head, `rec_mutex_relock` the one from the wait in its loop on.
--   Exclusion, Wakeups and Overflow (of the 16-bit depth) have the proofs.
-- - RwLock: rw_locks/rw_locks.c and rw_locks.h. `RwLock` is rw_lock_t; `rw_lock_rd_lock`,
--   `rw_lock_wr_lock` and `rw_lock_unlock` are its sections, `resume` the loops after a wait.
--   Exclusion (with Exclusion/Sections for one section at a time) and Wakeups have the proofs.
-- - Queues/Fifo: ThreadSyncAdv/threadlib/Fifo_Queue.c and Fifo_Queue.h, a queue in an array. Queues/
--   Cyclic is about going round an array, Queues/Spec is the bounded queue that it implements,
--   Fifo/Deque, Fifo/Refines and Fifo/Run prove that, and Fifo/Slots is about random access.
-- - Queues/Ring: ProducerConsumer/Queue.c and Queue.h, a queue of five cells that runs the other way.
--   Ring/Mirror relates its functions to those of Queues/Fifo, Ring/Run the runs.
-- - WaitQueue: the wait queues of ThreadSyncAdv/threadlib/threadlib.c, functions wait_queue_init to
--   wait_queue_broadcast. The list of gluethread/glthread.c, which the code only calls, is the
--   argument `Glthread`. WaitQueue/Waiting has wait_queue_test_and_wait for a condition of any
--   application, WaitQueue/Counted what holds of it.
-- - Monitor: the monitors of ThreadSyncAdv/threadlib/threadlib.c, functions init_monitor to
--   monitor_sanity_check, over the two wait queues. `ask` is a request up to its wait or its return,
--   `retest` the loop of the wait queue after a wakeup, `monitor_inform_resource_released` the release.
--   Monitor/Sections has what one section does, Limits the invariant of a run, Release what a release
--   leaves behind.
-- - BiasedLock: customizable_rw_locks/rw_locks.c and rw_locks.h, the read-write lock with limits and
--   a bias. `rw_lock_rd_lock` and `rw_lock_wr_lock` are a round of their loops, from the start or a
--   wakeup; `rw_lock_unlock` calls `rw_lock_signal`. Its clients are those of RwLock. Sections, Limits,
--   Wakeups and Biases have the proofs.
-- - TurnLock: rw_locks/monitor/rw_locks.c and rw_locks.h, the read-write lock that gives the turn to
--   the other kind. Its functions are read as those of BiasedLock. Turns (over Sections) and
--   Alternation have the proofs.
-- - Sema: Semaphores/sema.c and sema.h, a counting semaphore. `sema_wait` is the section up to the
--   wait, `sema_wake` the rest. Sema/Sleepers counts the threads that are asleep, Sema/Permits has the
--   proofs.
-- - Barrier: the thread barriers of ThreadSyncAdv/threadlib/threadlib.c. `thread_barrier_barricade` is
--   the section up to the wait at the barrier, `thread_barrier_leave` the rest. Barrier/Rounds has the
--   proofs.
-- - AssemblyLine: the assembly line of ThreadSyncAdv/threadlib/threadlib.c over the random-access queue
--   of Queues/Fifo, with a sequential one as its wait list. A pass of worker_thread_init through its
--   loop is `worker_visit`, `worker_move` and `worker_report`, the first pass `worker_thread_init`; a
--   round of asl_engine_fn is `asl_engine_begin`, the cycle of the workers, `asl_engine_wake`, which
--   is its test of n_workers_ready and `asl_engine_refill`, and `asl_engine_next`. Places is about the
--   slots, Setup about a new line, Cycle (with Cycle/Shift, Cycle/Ready for the engine's count and
--   Cycle/Progress) about one cycle, Refill and Rounds about many, Late about what goes wrong.
-- - ThreadPool: the thread pool of ThreadSyncAdv/threadlib/threadlib.c. thread_pool_thread_stage1_fn is
--   `stage1_take`, `stage1_fire`, `stage1_wake` and `stage1_clear`, from one point where other threads
--   can interfere to the next; thread_fn_execute_stage2_and_stage3 is `thread_stage2` and
--   `thread_pool_thread_stage3_fn`. A job stands for a function and its argument. `Step` is one of these
--   steps of one caller or thread. Ownership is about where a thread is, Jobs about the jobs,
--   Semaphores and Callers about callers that wait.
-- - EventPair: the event pair of ThreadSyncAdv/threadlib/threadlib.c, with the server and the client of
--   the example below it (server_fn; client_fn and main) as `server_step` and `client_step`, from one
--   call to the next. EventPair/Turns has the proofs.
-- - Nfc: the routing table of ThreadBasics/NFC/rt.c and rt.h, a doubly linked list on a heap whose
--   entries keep the chains of subscribers of notif.c and notif.h. Functions have the names of the
--   code; `link`, `set_data` and `tell` are parts of rt_add_or_update_rt_entry, `look` the loop of a
--   lookup. Nfc/Spec is the list of rows that the table implements. Links, Relink and Removal are about
--   the linked list, Refines to Delete about one operation each, Runs about sequences of calls, Found
--   about looking up what was added.
-- - Philosophers: DiningPhilosopherProblem/assignment_din_ph_soln.c and din_ph.h. A step runs one
--   philosopher from one lock, wait or call to the next (`take_left` to `release_right`);
--   `philosopher_fn` says which is next. Unlike the locks above, a philosopher waits for a mutex while it
--   holds another, so that the mutexes are part of the state. Spoons has the invariant, Edits, Taking and
--   Steps keep it, Blocking is about who waits for whom, and Progress has the results.
-- - Pause: ThreadPausing/thread_pause.c and thread_pause.h. `go_on` is the rest of a call after its wait;
--   `Step` runs one section of one thread, or wakes one. Pause/Stuck has the proofs.
-- - RefCount: CRUD/refcount.c and refcount.h, in RefCount/Users with the threads that use the object.
--
-- How the parts interact: each lock, the monitor, the wait queue, the semaphore and the barrier is
-- an `Api` for Sync, and the theorems on runs hold for every interleaving of its sections. A
-- monitor keeps two wait queues and uses their parts in the order in which wait_queue_test_and_wait
-- calls its condition. The assembly line uses the queues by what Queues/Fifo proves of them.
--
-- Bounds. A run has a number `n` of threads and, where a thread may lock again, a depth of nested
-- locks; theorems on 16-bit counters say how these are bounded, in their hypotheses. The loops of
-- the code that wait are resumed by a step each, all others recurse on a list but `look` of Nfc,
-- which follows pointers on fuel: the number of entries made so far, since the list has no more.
-- The counter of a semaphore is an int: where `++` or `--` overflows, which C leaves undefined, the
-- call does not proceed.
--
-- Not modelled. The attributes of pthreads objects and the results of pthread calls, which the code
-- asserts or ignores; the memory of an object that is freed, save that a monitor says that it is
-- deleted, which a thread in between does not test, and that the entries of the routing table have
-- a heap; weak memory: all accesses are read as those of one order, also the few that are not under
-- the object's mutex, such as those of sema_getvalue and phil_eat, of the callers and threads of
-- the pool (threadlib.c:231), of the workers at their slots (threadlib.c:1695) and of the monitor's
-- last thread (threadlib.c:1392); a change of the limits or the bias of a BiasedLock or a TurnLock
-- while threads use it; spurious wakeups of the threads of a pool, of the workers of an assembly
-- line, and of its engine while the line stands. Of the thread library the fork and map-reduce helpers; the other parts of the repository,
-- demonstrations above all, are not modelled either. The strings of the routing table are what
-- strncmp and strncpy make of them, two arguments; calloc is taken never to fail and always to give
-- a new address; the callbacks do not call the table.
pub mod Common
pub mod Sync
pub mod RecMutex
pub mod RwLock
pub mod BiasedLock
pub mod TurnLock
pub mod Queues
pub mod WaitQueue
pub mod Monitor
pub mod Barrier
pub mod Sema
pub mod AssemblyLine
pub mod ThreadPool
pub mod EventPair
pub mod Nfc
pub mod Philosophers
pub mod Pause
pub mod RefCount
