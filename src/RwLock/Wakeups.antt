-- ===== src/RwLock/Wakeups.antt =====
-- A thread waits for the read-write lock only while it cannot have it.
use multithreading_bible.Common.{
  ℕ, ◌^◌, ◌*◌, ◌<◌, ◌≡◌, ◌≢◌, ◌⊎◌, inl, inr, refl, arith, ◌∙◌, sym, ap, true, false, ◌==◌, subst,
  ℕ_discrete,
}
use multithreading_bible.Common.Sums.{put}
use multithreading_bible.Sync.{
  Wake, broadcast, leaves, sleeps, asleep, World, Step, returns, blocks, resumes, reblocks, passes,
  spurious, Reach, here, next,
}
use multithreading_bible.Sync.Change.{weight, waits_pos, put_self, put_ne}
use multithreading_bible.Sync.Wakeups.{broadcast-Wakes, Wakes-asleep, put_asleep}
use multithreading_bible.RwLock.{
  RwLock, Cv, cv, Point, reading, writing, rw_lock_rd_lock, rw_lock_wr_lock, rw_lock_unlock, Call,
  rd_lock, wr_lock, unlock, enter, resume, Held, may, api,
}
use multithreading_bible.RwLock.Exclusion.{Inv, pre, fresh, Step-Inv, Reach-Inv}
use multithreading_bible.RwLock.Exclusion.Sections.{
  Pre, is_reading, is_writing, unlock_returns, enter_returns,
}

-- Why a thread waits at a point: a reader for a writer, a writer for anyone.
abbrev pub Reason : RwLock → Point → Type 0
Reason m reading = m.is_locked_by_writer ≡ true
Reason m writing = (m.n_locks == 0) ≡ false

-- The reasons to wait are still there.
abbrev Holds : RwLock → RwLock → Type 0
Holds m m' = (Reason m reading → Reason m' reading) × (Reason m writing → Reason m' writing)

at : (m m' : RwLock) (k : Point) → Holds m m' → Reason m k → Reason m' k
at m m' reading h = h.0
at m m' writing h = h.1

-- What a section that returned leaves to the threads that wait.
abbrev Leaves : RwLock → RwLock → Wake Cv → Type 0
Leaves m m' w =
    (w ≡ broadcast cv) ⊎ (m'.n_reader_waiting ≡ 0) × (m'.n_writer_waiting ≡ 0) ⊎ Holds m m'

module _ {depth t : ℕ} {h : Held} {m m' : RwLock} (p : Pre depth t h m) where
  enter-Leaves :
      {w : Wake Cv} (c : Call) → may depth c h ≡ true → enter m t c ≡ leaves m' w → Leaves m m' w
  unfolding enter rw_lock_rd_lock rw_lock_wr_lock rw_lock_unlock
  enter-Leaves rd_lock ok e = inr (inr (ground arith))
  enter-Leaves wr_lock ok e = inr (inr (ground arith))
  enter-Leaves unlock ok e = ground arith

  resume-Holds :
      {w : Wake Cv} (k : Point)
      → resume m t k ≡ leaves m' w
      → (k ≡ reading → h.reads < depth)
      → Holds m m'
  unfolding resume
  resume-Holds reading e room = ground arith
  resume-Holds writing e room = ground arith

  enter_blocks :
      {c : Cv} {k : Point} (o : Call) → enter m t o ≡ sleeps c k m' → Holds m m' × Reason m' k
  unfolding enter rw_lock_rd_lock rw_lock_wr_lock
  enter_blocks rd_lock e = ground arith
  enter_blocks wr_lock e = ground arith
  enter_blocks {k = k} unlock e = absurd (unlock_returns m t e)

  resume_blocks :
      {c : Cv} {k' : Point} (k : Point) → resume m t k ≡ sleeps c k' m' → Holds m m' × Reason m' k'
  unfolding resume
  resume_blocks reading e = ground arith
  resume_blocks writing e = ground arith

-- Every thread blocked in a `pthread_cond_wait` has its reason.
abbrev Reasons : ℕ → World Cv Point RwLock Held → Type 0
Reasons n x = (j : ℕ) (k : Point) → j < n → (x.threads j).pc ≡ asleep cv k → Reason x.state k

asleep-injective : {k k' : Point} → asleep cv k ≡ asleep cv k' → k ≡ k'
asleep-injective e = cc

module _ {n depth : ℕ} {x y : World Cv Point RwLock Held} (a : Inv n depth x) (b : Inv n depth y)
    (before : Reasons n x) where
  -- A thread that waited before still has its reason.
  kept :
      Holds x.state y.state
      → (j : ℕ) (k : Point) → j < n
      → (x.threads j).pc ≡ asleep cv k
      → Reason y.state k
  kept h j k lt q = at x.state y.state k h (before j k lt q)

  -- Where nobody is counted nobody waits.
  nobody :
      (y.state.n_reader_waiting ≡ 0) × (y.state.n_writer_waiting ≡ 0)
      → (j : ℕ) (k : Point) → j < n
      → (y.threads j).pc ≢ asleep cv k
  nobody z j reading lt q =
      omega (arith, b.readers_wait, waits_pos n is_reading y j cv reading lt q)
  nobody z j writing lt q =
      omega (arith, b.writers_wait, waits_pos n is_writing y j cv writing lt q)

  -- The thread that has just blocked, or one that waited before.
  still :
      (i : ℕ) (k' : Point) (h : Held)
      → Holds x.state y.state × Reason y.state k'
      → ((j : ℕ) → y.threads j ≡ put x.threads i (record { pc = asleep cv k'; held = h }) j)
      → Reasons n y
  still i k' h (hs, r) th j k below q = elim (ℕ_discrete j i) [
    | yes e ↦ subst (Reason y.state) (asleep-injective (same e)) r
    | no ne ↦ kept hs j k below (ap (λ u. u.pc) (sym (th j ∙ put_ne x.threads i _ j ne)) ∙ q)
  ]
    where
      same : j ≡ i → asleep cv k' ≡ asleep cv k
      same e =
          ap (λ u. u.pc) (sym (th i ∙ put_self x.threads i _))
          ∙ subst (λ m. (y.threads m).pc ≡ asleep cv k) e q

  Step-Reasons : Step (api depth) n x y → Reasons n y
  Step-Reasons (returns i op w lt p ok e wakes) j k below q =
      elim (enter-Leaves (pre a i lt) op ok e) [
        | inl all ↦ absurd (broadcast-Wakes cv j k wakes all q)
        | inr (inl z) ↦ absurd (nobody z j k below q)
        | inr (inr h) ↦
            kept h j k below
              (put_asleep x.threads _ i j (λ r. cc) (λ m. refl) (Wakes-asleep j wakes q))
      ]
  Step-Reasons (blocks i op cv k' lt p ok e th) j k below q =
      still i k' _ (enter_blocks (pre a i lt) op e) th j k below q
  Step-Reasons (resumes i k' w lt p e wakes) j k below q =
      kept (resume-Holds (pre a i lt) k' e room) j k below
        (put_asleep x.threads _ i j (λ r. cc) (λ m. refl) (Wakes-asleep j wakes q))
    where
      room : k' ≡ reading → (x.threads i).held.reads < depth
      room z = omega (arith, a.nested, a.no_reads i (ap (weight is_reading) p ∙ ap is_reading z))
  Step-Reasons (reblocks i k' cv k'' lt p e th) j k below q =
      still i k'' _ (resume_blocks (pre a i lt) k' e) th j k below q
  Step-Reasons (passes i op k' lt p ok e th) j k below q = absurd (enter_returns op i x.state e)
  Step-Reasons (spurious i cv k' lt p e th) j k below q =
      rw e (before j k below (put_asleep x.threads _ i j (λ r. cc) th q))

-- A thread blocked in `rw_lock_rd_lock` waits for a writer that has the lock, and one blocked in
-- `rw_lock_wr_lock` for some thread that has it: no wakeup is lost, since every thread that still
-- sleeps has something to wait for.
pub waiters_have_reason :
    {n depth : ℕ} (rw : RwLock) {x : World Cv Point RwLock Held}
    → n < 2 ^ 16
    → 0 < depth
    → n * depth < 2 ^ 16
    → rw.n_locks ≡ 0
    → Reach (api depth) n (fresh rw) x
    → (j : ℕ) (k : Point) → j < n
    → (x.threads j).pc ≡ asleep cv k
    → Reason x.state k
waiters_have_reason rw few nested shallow zeroed here j k below q = absurd (cc)
waiters_have_reason rw few nested shallow zeroed (next r st) j k below q =
    let inv = Reach-Inv rw few nested shallow zeroed r in
    Step-Reasons inv (Step-Inv st inv) (waiters_have_reason rw few nested shallow zeroed r) st j k
      below q
