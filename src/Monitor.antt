-- ===== src/Monitor.antt =====
-- ThreadSyncAdv/threadlib/threadlib.c, monitors: a resource for up to so many readers, or up to so
-- many writers, with two priority wait queues.
pub mod Sections
pub mod Limits
pub mod Release
pub mod Tests
use multithreading_bible.Common.{
  ℕ, ◌+◌, ◌-◌, ◌%◌, ◌^◌, Bool, true, false, not, ◌&&◌, ◌||◌, Option, none, some, List, [], ◌∷◌, ltb,
  ◌==◌, if◌then◌else◌,
}
use multithreading_bible.Sync.{Wake, quiet, Outcome, leaves, sleeps, unlocks, aborts, require, Api}
use multithreading_bible.WaitQueue.{
  Glthread, WaitQueue, new_wait_queue, wait_queue_set_auto_unlock_appln_mutex, caught, wait_block,
  wait_unblock, wait_cv, wait_queue_signal, wait_queue_broadcast,
}

-- `thread_op_type_t`
pub data ThreadOp : Type 0 where
  reader writer any : ThreadOp

abbrev pub is_reader : ThreadOp → Bool
is_reader reader = true
is_reader writer = false
is_reader any = false

-- `resource_status_t`
pub data Status : Type 0 where
  available busy_by_reader busy_by_writer : Status

-- `monitor_t`; the counters are `uint16_t`.
pub record Monitor : Type 0 where
  pub writer_thread_wait_q : WaitQueue
  pub reader_thread_wait_q : WaitQueue
  pub active_threads_in_cs : List ℕ
  pub resource_status : Status
  pub n_readers_max_limit : ℕ
  pub n_writers_max_limit : ℕ
  pub n_curr_readers : ℕ
  pub n_curr_writers : ℕ
  pub switch_from_readers_to_writers : ℕ
  pub switch_from_writers_to_readers : ℕ
  pub strict_alternation : Bool
  pub who_accessed_cs_last : ThreadOp
  pub shutdown : Bool
  pub is_deleted : Bool

-- The wait queue of a monitor, which leaves it to the monitor to unlock the mutex.
monitor_wq : WaitQueue
unfolding wait_queue_set_auto_unlock_appln_mutex
monitor_wq = wait_queue_set_auto_unlock_appln_mutex (new_wait_queue true) false

-- `init_monitor` of a new monitor, from `calloc`.
pub init_monitor : ℕ → ℕ → Monitor
unfolding monitor_wq
init_monitor n_readers n_writers = record {
  writer_thread_wait_q = monitor_wq;
  reader_thread_wait_q = monitor_wq;
  active_threads_in_cs = [];
  resource_status = available;
  n_readers_max_limit = n_readers;
  n_writers_max_limit = n_writers;
  n_curr_readers = 0;
  n_curr_writers = 0;
  switch_from_readers_to_writers = 0;
  switch_from_writers_to_readers = 0;
  strict_alternation = false;
  who_accessed_cs_last = any;
  shutdown = false;
  is_deleted = false;
}

-- The alternation that `who_accessed_cs_last` asks of a thread.
alternates : ThreadOp → ThreadOp → Bool
alternates any op = true
alternates reader writer = true
alternates reader reader = false
alternates reader any = false
alternates writer reader = true
alternates writer writer = false
alternates writer any = false

-- The `switch` of `monitor_is_resource_available`, where `room` is the test of the limit.
status_allows : Monitor → Status → ThreadOp → Bool → Bool
unfolding alternates
status_allows m available op room =
    if m.strict_alternation && room then alternates m.who_accessed_cs_last op else room
status_allows m busy_by_reader reader room = room
status_allows m busy_by_reader writer room = false
status_allows m busy_by_reader any room = false
status_allows m busy_by_writer writer room = room
status_allows m busy_by_writer reader room = false
status_allows m busy_by_writer any room = false

pub monitor_is_resource_available : Monitor → ThreadOp → Bool
unfolding status_allows
monitor_is_resource_available m op = status_allows m m.resource_status op (
    if is_reader op
    then ltb m.n_curr_readers m.n_readers_max_limit
    else ltb m.n_curr_writers m.n_writers_max_limit)

is_available : Status → Bool
is_available available = true
is_available busy_by_reader = false
is_available busy_by_writer = false

pub monitor_check_and_delete_monitor : Monitor → Monitor
unfolding is_available
monitor_check_and_delete_monitor m =
    if not (m.writer_thread_wait_q.thread_wait_count == 0)
      || not (m.reader_thread_wait_q.thread_wait_count == 0)
      || not (is_available m.resource_status)
    then m
    else record m { is_deleted = true }

status_of : ThreadOp → Status → Status
status_of reader s = busy_by_reader
status_of writer s = busy_by_writer
status_of any s = s

-- `none` for no thread.
pub monitor_set_resource_status : Monitor → Option ThreadOp → Monitor
unfolding monitor_check_and_delete_monitor status_of
monitor_set_resource_status m none =
    monitor_check_and_delete_monitor (record m { resource_status = available })
monitor_set_resource_status m (some op) = record m {
  who_accessed_cs_last = op;
  resource_status = status_of op m.resource_status;
}

pub data Cv : Type 0 where
  readers_cv writers_cv : Cv
  thread_cv : ℕ → Cv

-- Where a request goes on: between the test of `shutdown` and the wait queue, and after a wait.
pub data Point : Type 0 where
  asking waiting : ThreadOp → Point

abbrev incr16 : ℕ → ℕ
incr16 a = (a + 1) % 2 ^ 16

-- Whether the thread's glue is in a list of the monitor.
is_linked : ℕ → List ℕ → Bool
is_linked t [] = false
is_linked t (u ∷ l) = t == u || is_linked t l

pub queue_of : ThreadOp → Monitor → WaitQueue
queue_of reader m = m.reader_thread_wait_q
queue_of writer m = m.writer_thread_wait_q
queue_of any m = m.writer_thread_wait_q

pub with_queue : ThreadOp → Monitor → WaitQueue → Monitor
with_queue reader m wq = record m { reader_thread_wait_q = wq }
with_queue writer m wq = record m { writer_thread_wait_q = wq }
with_queue any m wq = record m { writer_thread_wait_q = wq }

-- The counts of the accessors once a thread has been granted access.
counted : ThreadOp → Monitor → Monitor
counted reader m = record m {
  n_curr_readers = incr16 m.n_curr_readers;
  switch_from_writers_to_readers =
      if incr16 m.n_curr_readers == 1
      then incr16 m.switch_from_writers_to_readers
      else m.switch_from_writers_to_readers;
}
counted writer m = record m {
  n_curr_writers = incr16 m.n_curr_writers;
  switch_from_readers_to_writers =
      if incr16 m.n_curr_writers == 1
      then incr16 m.switch_from_readers_to_writers
      else m.switch_from_readers_to_writers;
}
counted any m = record m {
  n_curr_writers = incr16 m.n_curr_writers;
  switch_from_readers_to_writers =
      if incr16 m.n_curr_writers == 1
      then incr16 m.switch_from_readers_to_writers
      else m.switch_from_readers_to_writers;
}

-- `monitor_request_access_permission` once the wait queue has let the thread pass.
pub grant : Monitor → ℕ → ThreadOp → Monitor
unfolding counted monitor_set_resource_status
grant m t op =
    monitor_set_resource_status
      (counted op (record m { active_threads_in_cs = t ∷ m.active_threads_in_cs })) (some op)

pub data Call : Type 0 where
  request release : ThreadOp → Call
  shut_down : Call

pub monitor_shut_down : Monitor → Monitor
monitor_shut_down m = record m { shutdown = true }

-- The counter of the accessors of kind `op`, one down, and the resource available again at 0.
left : ThreadOp → Monitor → Monitor
unfolding monitor_set_resource_status
left reader m =
    let m' = record m { n_curr_readers = m.n_curr_readers - 1 } in
    if m.n_curr_readers - 1 == 0 then monitor_set_resource_status m' none else m'
left writer m =
    let m' = record m { n_curr_writers = m.n_curr_writers - 1 } in
    if m.n_curr_writers - 1 == 0 then monitor_set_resource_status m' none else m'
left any m = m

-- Whom a release wakes: one of its own kind, or all of the other kind.
pub wakes : ThreadOp → Monitor → Wake Cv
unfolding wait_queue_signal wait_queue_broadcast
wakes reader m =
    if not (m.reader_thread_wait_q.thread_wait_count == 0)
    then wait_queue_signal readers_cv thread_cv m.reader_thread_wait_q false
    else if m.n_curr_readers == 0 && not (m.writer_thread_wait_q.thread_wait_count == 0)
    then wait_queue_broadcast writers_cv thread_cv m.writer_thread_wait_q false
    else quiet
wakes writer m =
    if not (m.writer_thread_wait_q.thread_wait_count == 0)
    then wait_queue_signal writers_cv thread_cv m.writer_thread_wait_q false
    else if m.n_curr_writers == 0 && not (m.reader_thread_wait_q.thread_wait_count == 0)
    then wait_queue_broadcast readers_cv thread_cv m.reader_thread_wait_q false
    else quiet
wakes any m = quiet

pub accessors : ThreadOp → Monitor → ℕ
accessors reader m = m.n_curr_readers
accessors writer m = m.n_curr_writers
accessors any m = 1

module _ (gl : Glthread) where
  -- The loop of `wait_queue_test_and_wait` from its test on, and the grant.
  pub test_and_wait : Monitor → ℕ → ThreadOp → Outcome Cv Point Monitor
  unfolding monitor_is_resource_available grant queue_of with_queue wait_block
  test_and_wait m t op =
      if monitor_is_resource_available m op
      then leaves (grant m t op) quiet
      else sleeps (thread_cv t) (waiting op) (with_queue op m (wait_block gl (queue_of op m) t))

  -- The first section of `monitor_request_access_permission`: it returns, with no access and
  -- nothing said of it, if the monitor shuts down.
  pub monitor_request_access_permission : Monitor → ℕ → ThreadOp → Outcome Cv Point Monitor
  unfolding is_linked
  monitor_request_access_permission m t op =
      require
        (not (is_linked t m.active_threads_in_cs)
          && not (is_linked t m.reader_thread_wait_q.priority_wait_queue)
          && not (is_linked t m.writer_thread_wait_q.priority_wait_queue))
        (if m.shutdown then leaves m quiet else unlocks (asking op) m)

  -- The monitor once `t` has left.
  pub after_release : Monitor → ℕ → ThreadOp → Monitor
  unfolding left
  after_release m t op =
      left op (record m { active_threads_in_cs = gl.remove m.active_threads_in_cs t })

  -- After the section, where `is_deleted` is set, the releasing thread frees the monitor; until then
  -- other threads may still enter.
  pub monitor_inform_resource_released : Monitor → ℕ → ThreadOp → Outcome Cv Point Monitor
  unfolding after_release wakes accessors
  monitor_inform_resource_released m t op =
      require (not (accessors op m == 0))
        (leaves (after_release m t op) (wakes op (after_release m t op)))

  -- The start of `wait_queue_test_and_wait`: the application's mutex is cached.
  pub ask : Monitor → ℕ → ThreadOp → Outcome Cv Point Monitor
  unfolding test_and_wait queue_of with_queue
  ask m t op = test_and_wait (with_queue op m (caught (queue_of op m))) t op

  -- A woken thread leaves the queue and tests again.
  pub retest : Monitor → ℕ → ThreadOp → Outcome Cv Point Monitor
  unfolding test_and_wait queue_of with_queue wait_unblock
  retest m t op = test_and_wait (with_queue op m (wait_unblock gl (queue_of op m) t)) t op

  pub enter : Monitor → ℕ → Call → Outcome Cv Point Monitor
  unfolding monitor_request_access_permission monitor_inform_resource_released monitor_shut_down
  enter m t (request op) = monitor_request_access_permission m t op
  enter m t (release op) = monitor_inform_resource_released m t op
  enter m t shut_down = leaves (monitor_shut_down m) quiet

  pub resume : Monitor → ℕ → Point → Outcome Cv Point Monitor
  unfolding ask retest
  resume m t (asking op) = ask m t op
  resume m t (waiting op) = retest m t op

-- The accesses of a thread.
pub record Held : Type 0 where
  pub reads : ℕ
  pub writes : ℕ

-- A client asks only while it has no access, as a reader or a writer, and releases what it has.
abbrev pub may : Call → Held → Bool
may (request reader) h = h.reads + h.writes == 0
may (request writer) h = h.reads + h.writes == 0
may (request any) h = false
may (release reader) h = ltb 0 h.reads
may (release writer) h = ltb 0 h.writes
may (release any) h = false
may shut_down h = true

abbrev pub gains : ThreadOp → Held → Held
gains reader h = record h { reads = h.reads + 1 }
gains writer h = record h { writes = h.writes + 1 }
gains any h = h

-- A request that returns from its first section has gained no access.
abbrev pub credit : Call → Held → Held
credit (release reader) h = record h { reads = h.reads - 1 }
credit (release writer) h = record h { writes = h.writes - 1 }
credit (release any) h = h
credit (request op) h = h
credit shut_down h = h

abbrev pub granted : Point → Held → Held
granted (asking op) h = gains op h
granted (waiting op) h = gains op h

abbrev pub api : Glthread → Api Cv Point Monitor Call Held
api gl = record {
  enter = enter gl;
  resume = resume gl;
  may = may;
  credit = credit;
  granted = granted;
}

-- `none`: the limits are not both 1, and an `assert` fails.
pub monitor_set_strict_alternation_behavior : Monitor → Option Monitor
monitor_set_strict_alternation_behavior m =
    if m.n_readers_max_limit == 1 && m.n_writers_max_limit == 1
    then some (record m { strict_alternation = true })
    else none

-- `true`: the `assert` of `monitor_sanity_check` holds.
pub monitor_sanity_check : Monitor → Bool
monitor_sanity_check m =
    not (ltb m.n_readers_max_limit m.n_curr_readers || ltb m.n_writers_max_limit m.n_curr_writers)
