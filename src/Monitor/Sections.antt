-- ===== src/Monitor/Sections.antt =====
-- What one section does to the monitor and to the accesses of its caller.
use multithreading_bible.Common.{ℕ, ◌+◌, ◌%◌, ◌^◌, ◌≤◌, ◌<◌, ◌≡◌, ◌≢◌, refl, true, arith}
use multithreading_bible.Sync.{Wake, leaves, sleeps, unlocks}
use multithreading_bible.WaitQueue.{Glthread}
use multithreading_bible.Monitor.{
  ThreadOp, reader, writer, any, Status, available, busy_by_reader, busy_by_writer, Monitor, Cv,
  Point, asking, waiting, Call, request, release, shut_down, enter, resume, Held, may, credit,
  granted,
}

-- The status says who is inside.
abbrev pub Fits : Status → ℕ → ℕ → Type 0
Fits available readers writers = (readers ≡ 0) × (writers ≡ 0)
Fits busy_by_reader readers writers = (0 < readers) × (writers ≡ 0)
Fits busy_by_writer readers writers = (readers ≡ 0) × (0 < writers)

pub record IsValid (r w : ℕ) (m : Monitor) : Type 0 where
  pub limits : (m.n_readers_max_limit ≡ r) × (m.n_writers_max_limit ≡ w)
  pub narrow : (r < 2 ^ 16) × (w < 2 ^ 16)
  pub within : (m.n_curr_readers ≤ r) × (m.n_curr_writers ≤ w)
  pub fits : Fits m.resource_status m.n_curr_readers m.n_curr_writers
  pub counts :
      (m.reader_thread_wait_q.thread_wait_count < 2 ^ 32)
      × (m.writer_thread_wait_q.thread_wait_count < 2 ^ 32)

abbrev pub is_reading : Point → ℕ
is_reading (waiting reader) = 1
is_reading (waiting writer) = 0
is_reading (waiting any) = 0
is_reading (asking op) = 0

abbrev pub is_writing : Point → ℕ
is_writing (waiting reader) = 0
is_writing (waiting writer) = 1
is_writing (waiting any) = 0
is_writing (asking op) = 0

abbrev pub is_any : Point → ℕ
is_any (waiting reader) = 0
is_any (waiting writer) = 0
is_any (waiting any) = 1
is_any (asking reader) = 0
is_any (asking writer) = 0
is_any (asking any) = 1

pub record Did (r w : ℕ) (h h' : Held) (u v : (Point → ℕ) → ℕ) (m m' : Monitor) : Type 0 where
  pub valid : IsValid r w m'
  pub readers : m'.n_curr_readers + h.reads ≡ m.n_curr_readers + h'.reads
  pub writers : m'.n_curr_writers + h.writes ≡ m.n_curr_writers + h'.writes
  pub reading :
      (m'.reader_thread_wait_q.thread_wait_count + u is_reading) % 2 ^ 32
      ≡ (m.reader_thread_wait_q.thread_wait_count + v is_reading) % 2 ^ 32
  pub writing :
      (m'.writer_thread_wait_q.thread_wait_count + u is_writing) % 2 ^ 32
      ≡ (m.writer_thread_wait_q.thread_wait_count + v is_writing) % 2 ^ 32
  pub proper : v is_any ≡ 0

module _ (gl : Glthread) (t : ℕ) {r w : ℕ} {h : Held} {m m' : Monitor} (valid : IsValid r w m) where
  pub request_returns :
      {e : Wake Cv} (op : ThreadOp)
      → enter gl m t (request op) ≡ leaves m' e
      → Did r w h h (λ _. 0) (λ _. 0) m m'
  unfolding enter
  request_returns op e = ground arith

  pub request_passes :
      (op : ThreadOp) (k : Point)
      → may (request op) h ≡ true
      → enter gl m t (request op) ≡ unlocks k m'
      → Did r w h h (λ _. 0) (λ v. v k) m m'
  unfolding enter
  request_passes reader k ok e = ground arith
  request_passes writer k ok e = ground arith
  request_passes any k ok e = ground arith

  pub release-Did :
      {e : Wake Cv} (op : ThreadOp)
      → may (release op) h ≡ true
      → enter gl m t (release op) ≡ leaves m' e
      → Did r w h (credit (release op) h) (λ _. 0) (λ _. 0) m m'
  unfolding enter
  release-Did reader ok e = ground arith
  release-Did writer ok e = ground arith
  release-Did any ok e = ground arith

  pub ask-Did :
      {e : Wake Cv} (op : ThreadOp)
      → is_any (asking op) ≡ 0
      → resume gl m t (asking op) ≡ leaves m' e
      → Did r w h (granted (asking op) h) (λ v. v (asking op)) (λ _. 0) m m'
  unfolding resume
  ask-Did reader p e = ground arith
  ask-Did writer p e = ground arith
  ask-Did any p e = ground arith

  pub ask_blocks :
      {c : Cv} (op : ThreadOp) (k : Point)
      → is_any (asking op) ≡ 0
      → resume gl m t (asking op) ≡ sleeps c k m'
      → Did r w h h (λ v. v (asking op)) (λ v. v k) m m'
  unfolding resume
  ask_blocks reader k p e = ground arith
  ask_blocks writer k p e = ground arith
  ask_blocks any k p e = ground arith

  pub retest-Did :
      {e : Wake Cv} (op : ThreadOp)
      → is_any (waiting op) ≡ 0
      → resume gl m t (waiting op) ≡ leaves m' e
      → Did r w h (granted (waiting op) h) (λ v. v (waiting op)) (λ _. 0) m m'
  unfolding resume
  retest-Did reader p e = ground arith
  retest-Did writer p e = ground arith
  retest-Did any p e = ground arith

  pub retest_blocks :
      {c : Cv} (op : ThreadOp) (k : Point)
      → is_any (waiting op) ≡ 0
      → resume gl m t (waiting op) ≡ sleeps c k m'
      → Did r w h h (λ v. v (waiting op)) (λ v. v k) m m'
  unfolding resume
  retest_blocks reader k p e = ground arith
  retest_blocks writer k p e = ground arith
  retest_blocks any k p e = ground arith

  pub shut_down-Did :
      {e : Wake Cv} → enter gl m t shut_down ≡ leaves m' e → Did r w h h (λ _. 0) (λ _. 0) m m'
  unfolding enter
  shut_down-Did e = ground arith

pub no_section :
    {r w : ℕ} {h : Held} {m : Monitor} (k : Point)
    → IsValid r w m
    → is_any k ≡ 0
    → Did r w h h (λ v. v k) (λ v. v k) m m
no_section k valid p = record {
  valid = valid;
  readers = refl;
  writers = refl;
  reading = refl;
  writing = refl;
  proper = p;
}

module _ (gl : Glthread) (t : ℕ) (m : Monitor) {m' : Monitor} where
  pub enter_returns : {c : Cv} {k : Point} (o : Call) → enter gl m t o ≡ sleeps c k m' → ⊥
  unfolding enter
  enter_returns (request op) e = ground arith
  enter_returns (release op) e = ground arith
  enter_returns shut_down e = ground arith

  pub enter_passes :
      {k : Point} (o : Call)
      → ((op : ThreadOp) → o ≢ request op)
      → enter gl m t o ≡ unlocks k m'
      → ⊥
  unfolding enter
  enter_passes (request op) ne e = ne op refl
  enter_passes (release op) ne e = ground arith
  enter_passes shut_down ne e = ground arith
