-- ===== src/TurnLock/Turns.antt =====
-- The turns and the limits of the read-write lock with turns, under every interleaving.
use multithreading_bible.Common.{ℕ, ◌^◌, ◌≤◌, ◌<◌, ◌≡◌, ◌⊎◌, refl, false, ◌&&◌, arith, sym, subst}
use multithreading_bible.Sync.{World, Step, Reach, here, next, start}
use multithreading_bible.Sync.Change.{
  Change, returned, blocked, resumed, reblocked, passed, roused, After, After-waits-le, waits,
  waits-le, waits-start, holds, le-holds, holds-start, Step-Change,
}
use multithreading_bible.RwLock.{Point, Held}
use multithreading_bible.RwLock.Exclusion.Sections.{
  is_reading, is_writing, is_reading-le, is_writing-le,
}
use multithreading_bible.TurnLock.{TurnLock, Cv, rw_lock_init, rw_lock_set_max_readers_writers, api}
use multithreading_bible.TurnLock.Sections.{
  readers_of, writers_of, IsValid, Did, Pre, enter-Did, enter_blocks-Did, resume-Did,
  resume_blocks-Did, enter_returns,
}

pub record Inv (n r w : ℕ) (x : World Cv Point TurnLock Held) : Type 0 where
  pub few : n < 2 ^ 16
  pub narrow_limits : (r < 2 ^ 16) × (w < 2 ^ 16)
  pub valid : IsValid r w x.state
  pub read : holds n (λ h. h.reads) x ≡ readers_of x.state
  pub written : holds n (λ h. h.writes) x ≡ writers_of x.state
  pub readers_wait : x.state.n_reader_waiting ≡ waits n is_reading x
  pub writers_wait : x.state.n_writer_waiting ≡ waits n is_writing x

module _ {n r w : ℕ} {x : World Cv Point TurnLock Held} (inv : Inv n r w x) where
  -- Thread `i` is ready for a section.
  pub pre : (i : ℕ) → i < n → Pre r w (x.threads i).held x.state
  pre i lt = record {
    narrow_limits = inv.narrow_limits;
    valid = inv.valid;
    read = omega (arith, inv.read, le-holds n (λ h. h.reads) x i lt);
    written = omega (arith, inv.written, le-holds n (λ h. h.writes) x i lt);
  }

  module _ {y : World Cv Point TurnLock Held} where
    -- A section with its effect on the threads keeps the invariant.
    Did-Inv :
        {i : ℕ} {h : Held} {u v : (Point → ℕ) → ℕ}
        → u is_reading ≤ 1
        → u is_writing ≤ 1
        → Did r w (x.threads i).held h u v x.state y.state
        → After n x y i h u v
        → Inv n r w y
    Did-Inv {i} ur uw did after = record {
      few = inv.few;
      narrow_limits = inv.narrow_limits;
      valid = did.valid;
      read = omega (arith, inv.read, did.read, after.holds_change (λ h. h.reads));
      written = omega (arith, inv.written, did.written, after.holds_change (λ h. h.writes));
      readers_wait = omega (
        arith,
        inv.readers_wait,
        after.waits_change is_reading,
        waits-le n is_reading y is_reading-le,
        waits-le n is_reading x is_reading-le,
        did.readers_wait,
        did.valid.narrow,
        inv.few,
      );
      writers_wait = omega (
        arith,
        inv.writers_wait,
        after.waits_change is_writing,
        waits-le n is_writing y is_writing-le,
        waits-le n is_writing x is_writing-le,
        did.writers_wait,
        did.valid.narrow,
        inv.few,
      );
    }

    Change-Inv : Change api n x y → Inv n r w y
    Change-Inv (returned i c _ ok e after) =
        Did-Inv (omega arith) (omega arith) (enter-Did i (pre i after.below) c ok e) after
    Change-Inv (blocked i c _ k ok e after) =
        Did-Inv (omega arith) (omega arith)
          (enter_blocks-Did i (pre i after.below) c
            (omega (
              arith,
              inv.few,
              inv.readers_wait,
              after.waits_change is_reading,
              waits-le n is_reading y is_reading-le,
            ))
            (omega (
              arith,
              inv.few,
              inv.writers_wait,
              after.waits_change is_writing,
              waits-le n is_writing y is_writing-le,
            ))
            e)
          after
    Change-Inv (resumed i k _ e after) =
        Did-Inv (is_reading-le k) (is_writing-le k)
          (resume-Did i (pre i after.below) k
            (omega (arith, inv.readers_wait, After-waits-le after is_reading))
            (omega (arith, inv.writers_wait, After-waits-le after is_writing)) e)
          after
    Change-Inv (reblocked i k _ k' e after) =
        Did-Inv (is_reading-le k) (is_writing-le k)
          (resume_blocks-Did i (pre i after.below) k
            (omega (arith, inv.readers_wait, After-waits-le after is_reading))
            (omega (arith, inv.writers_wait, After-waits-le after is_writing)) e)
          after
    Change-Inv (passed i c k ok e after) = absurd (enter_returns c i x.state e)
    Change-Inv (roused i k e after) =
        Did-Inv (is_reading-le k) (is_writing-le k)
          (subst (Did r w _ _ _ _ x.state) (sym e) (record {
            valid = inv.valid;
            read = refl;
            written = refl;
            readers_wait = refl;
            writers_wait = refl;
          }))
          after

pub Step-Inv :
    {n r w : ℕ} {x y : World Cv Point TurnLock Held} → Step api n x y → Inv n r w x → Inv n r w y
Step-Inv {n} st inv = Change-Inv inv (Step-Change api n st)

-- The lock of memory `rw`, initialised, with limits `r` and `w`, and no thread in it.
abbrev pub fresh : TurnLock → ℕ → ℕ → World Cv Point TurnLock Held
fresh rw r w =
    start (rw_lock_set_max_readers_writers (rw_lock_init rw) r w) (record { reads = 0; writes = 0 })

pub Reach-Inv :
    {n r w : ℕ} (rw : TurnLock) {x : World Cv Point TurnLock Held}
    → n < 2 ^ 16
    → (r < 2 ^ 16) × (w < 2 ^ 16)
    → rw.n_locks ≡ 0
    → Reach api n (fresh rw r w) x
    → Inv n r w x
unfolding rw_lock_init rw_lock_set_max_readers_writers
Reach-Inv {n} {r} {w} rw few narrow zeroed here = record {
  few = few;
  narrow_limits = narrow;
  valid = ground arith;
  read = holds-start _ _ n (λ h. h.reads) _ _ refl;
  written = holds-start _ _ n (λ h. h.writes) _ _ refl;
  readers_wait = sym (waits-start _ n is_reading _ _);
  writers_wait = sym (waits-start _ n is_writing _ _);
}
Reach-Inv rw few narrow zeroed (next p st) = Step-Inv st (Reach-Inv rw few narrow zeroed p)

-- The threads hold at most `r` read locks in all and at most `w` write locks in all, and never both
-- kinds at once; where a kind is kept out, no thread of it is inside, and one of the other kind is
-- inside or waits; never are both kept out. This holds under every
-- interleaving of up to 65535 threads with spurious wakeups, for clients that unlock what they
-- locked, if the memory of the lock had `n_locks` 0.
pub turns_held :
    {n r w : ℕ} (m : TurnLock) {x : World Cv Point TurnLock Held}
    → n < 2 ^ 16
    → (r < 2 ^ 16) × (w < 2 ^ 16)
    → m.n_locks ≡ 0
    → Reach api n (fresh m r w) x
    → (holds n (λ h. h.reads) x ≤ r)
      × (holds n (λ h. h.writes) x ≤ w)
      × ((holds n (λ h. h.reads) x ≡ 0) ⊎ (holds n (λ h. h.writes) x ≡ 0))
      × ((x.state.dont_allow_readers ≡ false)
          ⊎ (holds n (λ h. h.reads) x ≡ 0)
            × ((0 < holds n (λ h. h.writes) x) ⊎ (0 < waits n is_writing x)))
      × ((x.state.dont_allow_writers ≡ false)
          ⊎ (holds n (λ h. h.writes) x ≡ 0)
            × ((0 < holds n (λ h. h.reads) x) ⊎ (0 < waits n is_reading x)))
      × ((x.state.dont_allow_readers && x.state.dont_allow_writers) ≡ false)
turns_held m few narrow zeroed p =
    let inv = Reach-Inv m few narrow zeroed p in
    rw (inv.read, inv.written, sym inv.readers_wait, sym inv.writers_wait)
      (ground (arith, inv.valid))
