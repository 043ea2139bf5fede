-- ===== src/BiasedLock/Wakeups.antt =====
-- Without a bias a thread waits for the lock only while it cannot have it.
use multithreading_bible.Common.{
  ℕ, ◌^◌, ◌<◌, ◌≡◌, ◌≢◌, ◌⊎◌, ◌||◌, inl, inr, refl, arith, ◌∙◌, sym, ap, true, ◌==◌, subst,
  ℕ_discrete,
}
use multithreading_bible.Common.Sums.{put}
use multithreading_bible.Sync.{
  Wake, broadcast, leaves, sleeps, asleep, World, Step, returns, blocks, resumes, reblocks, passes,
  spurious, Reach, here, next,
}
use multithreading_bible.Sync.Change.{waits_pos, put_self, put_ne}
use multithreading_bible.Sync.Wakeups.{broadcast-Wakes, Wakes-asleep, put_asleep}
use multithreading_bible.RwLock.{Held, Call, rd_lock, wr_lock, unlock}
use multithreading_bible.BiasedLock.{
  BiasedLock, Cv, cv, cv_readers, cv_writers, Point, reading, writing, writing_biased, neutral,
  rw_lock_rd_lock, rw_lock_wr_lock, rw_lock_unlock, signal_all, enter, resume, api,
}
use multithreading_bible.BiasedLock.Sections.{Pre, is_reading, is_writing, enter_returns}
use multithreading_bible.BiasedLock.Limits.{Inv, pre, fresh, Step-Inv, Reach-Inv}

-- Why a thread waits at a point: for the other kind, or for the limit of its own.
abbrev pub Reason : BiasedLock → Point → Type 0
Reason m reading = (m.is_locked_by_writer || m.n_locks == m.n_max_readers) ≡ true
Reason m writing = (m.is_locked_by_reader || m.n_locks == m.n_max_writers) ≡ true
Reason m writing_biased = ⊥

abbrev Holds : BiasedLock → BiasedLock → Type 0
Holds m m' = (Reason m reading → Reason m' reading) × (Reason m writing → Reason m' writing)

at : (m m' : BiasedLock) (k : Point) → Holds m m' → Reason m k → Reason m' k
at m m' reading h r = h.0 r
at m m' writing h r = h.1 r
at m m' writing_biased h r = absurd r

-- What a section that returned leaves to the threads that wait: a broadcast, or a reason for each
-- kind of which a thread waits.
abbrev Leaves : BiasedLock → BiasedLock → Wake Cv → Type 0
Leaves m m' w =
    (w ≡ broadcast cv)
    ⊎ ((m'.n_reader_waiting ≡ 0) ⊎ (Reason m reading → Reason m' reading))
      × ((m'.n_writer_waiting ≡ 0) ⊎ (Reason m writing → Reason m' writing))

module _ {r w : ℕ} (t : ℕ) {h : Held} {m m' : BiasedLock} (p : Pre r w neutral h m) where
  enter-Leaves : {v : Wake Cv} (c : Call) → enter m t c ≡ leaves m' v → Leaves m m' v
  unfolding enter rw_lock_rd_lock rw_lock_wr_lock rw_lock_unlock signal_all
  enter-Leaves rd_lock e = inr (inr (ground arith), inr (ground arith))
  enter-Leaves wr_lock e = inr (inr (ground arith), inr (ground arith))
  enter-Leaves unlock e = ground arith

  resume-Holds : {v : Wake Cv} (k : Point) → resume m t k ≡ leaves m' v → Holds m m'
  unfolding resume rw_lock_rd_lock rw_lock_wr_lock
  resume-Holds reading e = ground arith
  resume-Holds writing e = ground arith
  resume-Holds writing_biased e = absurd (cc)

  enter_blocks :
      {c : Cv} {k : Point} (o : Call)
      → enter m t o ≡ sleeps c k m'
      → (c ≡ cv) × Holds m m' × Reason m' k
  unfolding enter rw_lock_rd_lock rw_lock_wr_lock rw_lock_unlock signal_all
  enter_blocks rd_lock e = ground arith
  enter_blocks wr_lock e = ground arith
  enter_blocks unlock e = ground arith

  resume_blocks :
      {c : Cv} {k' : Point} (k : Point)
      → resume m t k ≡ sleeps c k' m'
      → (c ≡ cv) × Holds m m' × Reason m' k'
  unfolding resume rw_lock_rd_lock rw_lock_wr_lock
  resume_blocks reading e = ground arith
  resume_blocks writing e = ground arith
  resume_blocks writing_biased e = absurd (cc)

-- Every thread blocked in a `pthread_cond_wait` has its reason.
abbrev Reasons : ℕ → World Cv Point BiasedLock Held → Type 0
Reasons n x =
    (j : ℕ) (c : Cv) (k : Point)
    → j < n
    → (x.threads j).pc ≡ asleep c k
    → (c ≡ cv) × Reason x.state k

asleep-injective : {c c' : Cv} {k k' : Point} → asleep c k ≡ asleep c' k' → (c ≡ c') × (k ≡ k')
asleep-injective e = (cc, cc)

cv_readers-cv : cv_readers ≢ cv
cv_readers-cv e = cc

cv_writers-cv : cv_writers ≢ cv
cv_writers-cv e = cc

module _ {n r w : ℕ} {x y : World Cv Point BiasedLock Held} (a : Inv n r w neutral x)
    (b : Inv n r w neutral y) (before : Reasons n x) where
  -- A thread that waited before still has its reason.
  kept :
      Holds x.state y.state
      → (j : ℕ) (c : Cv) (k : Point) → j < n
      → (x.threads j).pc ≡ asleep c k
      → (c ≡ cv) × Reason y.state k
  kept h j c k lt q = ((before j c k lt q).0, at x.state y.state k h (before j c k lt q).1)

  -- The same after a section that returned without a broadcast.
  remains :
      ((y.state.n_reader_waiting ≡ 0) ⊎ (Reason x.state reading → Reason y.state reading))
        × ((y.state.n_writer_waiting ≡ 0) ⊎ (Reason x.state writing → Reason y.state writing))
      → (j : ℕ) (c : Cv) (k : Point) → j < n
      → (x.threads j).pc ≡ asleep c k
      → (y.threads j).pc ≡ asleep c k
      → (c ≡ cv) × Reason y.state k
  remains (inr h, s) j c reading lt q p =
      ((before j c reading lt q).0, h (before j c reading lt q).1)
  remains (inl z, s) j c reading lt q p =
      absurd (omega (arith, b.readers_wait, waits_pos n is_reading y j c reading lt p))
  remains (s, inr h) j c writing lt q p =
      ((before j c writing lt q).0, h (before j c writing lt q).1)
  remains (s, inl z) j c writing lt q p =
      absurd (omega (arith, b.writers_wait, waits_pos n is_writing y j c writing lt p))
  remains s j c writing_biased lt q p = absurd (before j c writing_biased lt q).1

  -- The thread that has just blocked, or one that waited before.
  still :
      (i : ℕ) (c' : Cv) (k' : Point) (h : Held)
      → (c' ≡ cv) × Holds x.state y.state × Reason y.state k'
      → ((j : ℕ) → y.threads j ≡ put x.threads i (record { pc = asleep c' k'; held = h }) j)
      → Reasons n y
  still i c' k' h (here_cv, hs, rs) th j c k below q = elim (ℕ_discrete j i) [
    | yes e ↦ (
      sym (asleep-injective (same e)).0 ∙ here_cv,
      subst (Reason y.state) (asleep-injective (same e)).1 rs,
    )
    | no ne ↦ kept hs j c k below (ap (λ u. u.pc) (sym (th j ∙ put_ne x.threads i _ j ne)) ∙ q)
  ]
    where
      same : j ≡ i → asleep c' k' ≡ asleep c k
      same e =
          ap (λ u. u.pc) (sym (th i ∙ put_self x.threads i _))
          ∙ subst (λ m. (y.threads m).pc ≡ asleep c k) e q

  Step-Reasons : Step api n x y → Reasons n y
  Step-Reasons (returns i op v lt p ok e wakes) j cv k below q =
      elim (enter-Leaves i (pre a i lt) op e) [
        | inl all ↦ absurd (broadcast-Wakes cv j k wakes all q)
        | inr h ↦
            remains h j cv k below
              (put_asleep x.threads _ i j (λ r. cc) (λ m. refl) (Wakes-asleep j wakes q)) q
      ]
  Step-Reasons (returns i op v lt p ok e wakes) j cv_readers k below q = absurd (
      cv_readers-cv
        (before j cv_readers k below
          (put_asleep x.threads _ i j (λ r. cc) (λ m. refl) (Wakes-asleep j wakes q))).0)
  Step-Reasons (returns i op v lt p ok e wakes) j cv_writers k below q = absurd (
      cv_writers-cv
        (before j cv_writers k below
          (put_asleep x.threads _ i j (λ r. cc) (λ m. refl) (Wakes-asleep j wakes q))).0)
  Step-Reasons (blocks i op c' k' lt p ok e th) j c k below q =
      still i c' k' _ (enter_blocks i (pre a i lt) op e) th j c k below q
  Step-Reasons (resumes i k' v lt p e wakes) j c k below q =
      kept (resume-Holds i (pre a i lt) k' e) j c k below
        (put_asleep x.threads _ i j (λ r. cc) (λ m. refl) (Wakes-asleep j wakes q))
  Step-Reasons (reblocks i k' c' k'' lt p e th) j c k below q =
      still i c' k'' _ (resume_blocks i (pre a i lt) k' e) th j c k below q
  Step-Reasons (passes i op k' lt p ok e th) j c k below q = absurd (enter_returns op i x.state e)
  Step-Reasons (spurious i c' k' lt p e th) j c k below q =
      rw e (before j c k below (put_asleep x.threads _ i j (λ r. cc) th q))

-- Without a bias a thread blocked in `rw_lock_rd_lock` waits for a writer inside or for the limit of
-- readers, and one blocked in `rw_lock_wr_lock` for a reader inside or for the limit of writers: no
-- wakeup is lost, under every interleaving.
pub neutral_waiters_have_reason :
    {n r w : ℕ} (m : BiasedLock) {x : World Cv Point BiasedLock Held}
    → n < 2 ^ 16
    → (r < 2 ^ 16) × (w < 2 ^ 16)
    → m.n_locks ≡ 0
    → Reach api n (fresh m r w neutral) x
    → (j : ℕ) (c : Cv) (k : Point) → j < n
    → (x.threads j).pc ≡ asleep c k
    → (c ≡ cv) × Reason x.state k
neutral_waiters_have_reason m few narrow zeroed here j c k below q = absurd (cc)
neutral_waiters_have_reason m few narrow zeroed (next p st) j c k below q =
    let inv = Reach-Inv m few narrow zeroed p in
    Step-Reasons inv (Step-Inv st inv) (neutral_waiters_have_reason m few narrow zeroed p) st j c k
      below q
