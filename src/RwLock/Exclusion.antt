-- ===== src/RwLock/Exclusion.antt =====
-- Exclusion of the read-write lock: writers against all, under every interleaving.
pub mod Sections
use multithreading_bible.Common.{
  ℕ, ◌+◌, ◌-◌, ◌*◌, ◌%◌, ◌^◌, ◌≤◌, ◌<◌, ◌≡◌, ◌≢◌, ◌∙◌, refl, Bool, true, false, not, Option, none,
  some, arith, ◌==◌, if◌then◌else◌, is_self, is_set, ℕ_discrete, sym, subst, ap,
}
use multithreading_bible.Sync.{
  Wake, Outcome, leaves, sleeps, aborts, World, Step, Reach, here, next, start, Proceeds,
}
use multithreading_bible.Sync.Change.{
  Change, returned, blocked, resumed, reblocked, passed, roused, After, waits, waits-le,
  waits-start, weight, holds, holds-le, holds-lt, le-holds, holds-start, Step-Change,
}
use multithreading_bible.RwLock.{
  RwLock, Cv, cv, Point, reading, writing, rw_lock_init, rw_lock_rd_lock, rw_lock_wr_lock, Call,
  rd_lock, wr_lock, unlock, enter, resume, Held, may, credit, granted, api,
}
use Sections.*

pub record Inv (n depth : ℕ) (x : World Cv Point RwLock Held) : Type 0 where
  pub few : n < 2 ^ 16
  pub nested : 0 < depth
  pub shallow : n * depth < 2 ^ 16
  pub valid : IsValid x.state
  pub small : (j : ℕ) → IsSmall depth (x.threads j).held
  pub written : (j : ℕ) → (x.threads j).held.writes ≡ writes_of x.state j
  pub read : holds n (λ h. h.reads) x ≡ readers_of x.state
  pub no_reads : (j : ℕ) → weight is_reading (x.threads j).pc ≡ 1 → (x.threads j).held.reads ≡ 0
  pub no_writes : (j : ℕ) → weight is_writing (x.threads j).pc ≡ 1 → (x.threads j).held.writes ≡ 0
  pub readers_wait : x.state.n_reader_waiting ≡ waits n is_reading x
  pub writers_wait : x.state.n_writer_waiting ≡ waits n is_writing x

module _ {n depth : ℕ} {x : World Cv Point RwLock Held} (inv : Inv n depth x) where
  -- Thread `i` is ready for a section.
  pub pre : (i : ℕ) → i < n → Pre depth i (x.threads i).held x.state
  pre i lt = record {
    valid = inv.valid;
    small = inv.small i;
    room = omega (arith, inv.shallow, inv.read, total);
    room1 = λ p. omega (
      arith,
      inv.shallow,
      inv.read,
      holds-lt n depth i (λ h. h.reads) x (λ j. (inv.small j).0) lt p,
    );
    shallow = grind (arith, inv.shallow);
    written = inv.written i;
    read = omega (arith, inv.read, le-holds n (λ h. h.reads) x i lt);
  }
    where
      total : holds n (λ h. h.reads) x ≤ n * depth
      total = holds-le n depth (λ h. h.reads) x (λ j. (inv.small j).0)

  module _ {y : World Cv Point RwLock Held} where
    -- A section with its effect on the threads keeps the invariant.
    Did-Inv :
        {i : ℕ} {h : Held} {u v : (Point → ℕ) → ℕ}
        → u is_reading ≤ 1
        → u is_writing ≤ 1
        → Did depth i (x.threads i).held h u v x.state y.state
        → After n x y i h u v
        → Inv n depth y
    Did-Inv {i} ur uw did after = record {
      few = inv.few;
      nested = inv.nested;
      shallow = inv.shallow;
      valid = did.valid;
      small = λ j. elim (ℕ_discrete j i) [
        | yes e ↦ rw (e, after.held_self) did.small
        | no ne ↦ rw (after.held_ne j ne) (inv.small j)
      ];
      written = λ j. elim (ℕ_discrete j i) [
        | yes e ↦ rw (e, after.held_self) did.written
        | no ne ↦ rw (after.held_ne j ne) (inv.written j ∙ sym (did.others j ne))
      ];
      read = omega (arith, inv.read, did.read, after.holds_change (λ h. h.reads));
      no_reads = λ j. elim (ℕ_discrete j i) [
        | yes e ↦
            rw (e, after.held_self) (λ w. did.no_reads (sym (after.weight_self is_reading) ∙ w))
        | no ne ↦
            rw (after.held_ne j ne)
              (λ w. inv.no_reads j (sym (after.weight_ne is_reading j ne) ∙ w))
      ];
      no_writes = λ j. elim (ℕ_discrete j i) [
        | yes e ↦
            rw (e, after.held_self) (λ w. did.no_writes (sym (after.weight_self is_writing) ∙ w))
        | no ne ↦
            rw (after.held_ne j ne)
              (λ w. inv.no_writes j (sym (after.weight_ne is_writing j ne) ∙ w))
      ];
      readers_wait = omega (
        arith,
        inv.readers_wait,
        after.waits_change is_reading,
        waits-le n is_reading y is_reading-le,
        waits-le n is_reading x is_reading-le,
        did.readers_wait,
        did.valid.narrow,
        inv.few,
      );
      writers_wait = omega (
        arith,
        inv.writers_wait,
        after.waits_change is_writing,
        waits-le n is_writing y is_writing-le,
        waits-le n is_writing x is_writing-le,
        did.writers_wait,
        did.valid.narrow,
        inv.few,
      );
    }

    Change-Inv : Change (api depth) n x y → Inv n depth y
    unfolding enter
    Change-Inv (returned i rd_lock w ok e after) =
        Did-Inv (omega arith) (omega arith) (rd_lock-Did (pre i after.below) ok e) after
    Change-Inv (returned i wr_lock w ok e after) =
        Did-Inv (omega arith) (omega arith) (wr_lock-Did (pre i after.below) ok e) after
    Change-Inv (returned i unlock w ok e after) =
        Did-Inv (omega arith) (omega arith) (unlock-Did (pre i after.below) ok e) after
    Change-Inv (blocked i rd_lock c k ok e after) =
        Did-Inv (omega arith) (omega arith) (rd_lock_blocks (pre i after.below) k e) after
    Change-Inv (blocked i wr_lock c k ok e after) =
        Did-Inv (omega arith) (omega arith) (wr_lock_blocks (pre i after.below) k e) after
    Change-Inv (blocked i unlock c k ok e after) = absurd (unlock_returns x.state i e)
    Change-Inv (resumed i reading w e after) =
        Did-Inv (omega arith) (omega arith)
          (relock_reading (pre i after.below) inv.nested
            (inv.no_reads i (after.weight_before is_reading)) e)
          after
    Change-Inv (resumed i writing w e after) =
        Did-Inv (omega arith) (omega arith)
          (relock_writing (pre i after.below) inv.nested
            (inv.no_writes i (after.weight_before is_writing)) e)
          after
    Change-Inv (reblocked i reading c k e after) =
        Did-Inv (omega arith) (omega arith)
          (reblock_reading (pre i after.below) k (inv.no_reads i (after.weight_before is_reading))
            e)
          after
    Change-Inv (reblocked i writing c k e after) =
        Did-Inv (omega arith) (omega arith)
          (reblock_writing (pre i after.below) k (inv.no_writes i (after.weight_before is_writing))
            e)
          after
    Change-Inv (passed i c k ok e after) = absurd (enter_returns c i x.state e)
    Change-Inv (roused i k e after) =
        Did-Inv (is_reading-le k) (is_writing-le k)
          (subst (Did depth i _ _ _ _ x.state) (sym e) (
            no_section k (pre i after.below)
              (λ q. inv.no_reads i (after.weight_before is_reading ∙ q))
              (λ q. inv.no_writes i (after.weight_before is_writing ∙ q))))
          after

-- Every step of up to 65535 threads with at most 65535 nested locks in all keeps the invariant.
pub Step-Inv :
    {n depth : ℕ} {x y : World Cv Point RwLock Held}
    → Step (api depth) n x y
    → Inv n depth x
    → Inv n depth y
Step-Inv {n} {depth} st inv = Change-Inv inv (Step-Change (api depth) n st)

-- The lock of memory `rw`, initialised, with no thread in it.
abbrev pub fresh : RwLock → World Cv Point RwLock Held
fresh rw = start (rw_lock_init rw) (record { reads = 0; writes = 0 })

init-Inv :
    (n depth : ℕ) (rw : RwLock)
    → n < 2 ^ 16
    → 0 < depth
    → n * depth < 2 ^ 16
    → rw.n_locks ≡ 0
    → Inv n depth (fresh rw)
unfolding rw_lock_init
init-Inv n depth rw few nested shallow zeroed = record {
  few = few;
  nested = nested;
  shallow = shallow;
  valid = ground arith;
  small = λ j. omega arith;
  written = λ j. refl;
  read = holds-start _ _ n (λ h. h.reads) _ _ refl;
  no_reads = λ j e. refl;
  no_writes = λ j e. refl;
  readers_wait = sym (waits-start _ n is_reading _ _);
  writers_wait = sym (waits-start _ n is_writing _ _);
}

pub Reach-Inv :
    {n depth : ℕ} (rw : RwLock) {x : World Cv Point RwLock Held}
    → n < 2 ^ 16
    → 0 < depth
    → n * depth < 2 ^ 16
    → rw.n_locks ≡ 0
    → Reach (api depth) n (fresh rw) x
    → Inv n depth x
Reach-Inv {n} {depth} rw few nested shallow zeroed here =
    init-Inv n depth rw few nested shallow zeroed
Reach-Inv rw few nested shallow zeroed (next r st) =
    Step-Inv st (Reach-Inv rw few nested shallow zeroed r)

-- While a thread has a write lock, no other thread has a read or a write lock, and it has no read
-- lock itself: under every interleaving of up to 65535 threads with spurious wakeups, for clients
-- that unlock what they locked, if the memory of the lock had `n_locks` 0.
pub writer_exclusion :
    {n depth : ℕ} (rw : RwLock) {x : World Cv Point RwLock Held} (i j : ℕ)
    → n < 2 ^ 16
    → 0 < depth
    → n * depth < 2 ^ 16
    → rw.n_locks ≡ 0
    → Reach (api depth) n (fresh rw) x
    → i < n
    → j < n
    → 0 < (x.threads i).held.writes
    → ((x.threads i).held.reads ≡ 0)
      × ((x.threads j).held.reads ≡ 0)
      × (i ≢ j → (x.threads j).held.writes ≡ 0)
writer_exclusion {n} rw {x} i j few nested shallow zeroed r lt lt' pos =
    let inv = Reach-Inv rw few nested shallow zeroed r in
    let li = le-holds n (λ h. h.reads) x i lt in
    let lj = le-holds n (λ h. h.reads) x j lt' in
    (
      ground (arith, inv.written i, inv.read, inv.valid, li),
      ground (arith, inv.written i, inv.read, inv.valid, lj),
      λ ne. ground (arith, inv.written i, inv.written j),
    )

-- No `assert` of `rw_lock_rd_lock`, `rw_lock_wr_lock` and `rw_lock_unlock` fails in such a run,
-- neither on a call nor when a waiting thread goes on.
pub rw_lock_asserts_hold :
    {n depth : ℕ} (rw : RwLock) {x : World Cv Point RwLock Held} (i : ℕ)
    → n < 2 ^ 16
    → 0 < depth
    → n * depth < 2 ^ 16
    → rw.n_locks ≡ 0
    → Reach (api depth) n (fresh rw) x
    → i < n
    → ((c : Call) → may depth c (x.threads i).held ≡ true → Proceeds (enter x.state i c))
      × ((k : Point) → Proceeds (resume x.state i k))
rw_lock_asserts_hold rw i few nested shallow zeroed r lt =
    let p = pre (Reach-Inv rw few nested shallow zeroed r) i lt in
    (λ c ok. enter-Proceeds c p ok, λ k. resume-Proceeds k p)

-- `rw_lock_init` does not set `n_locks`: where the memory held another value than 0, the first call
-- of `rw_lock_rd_lock` or `rw_lock_wr_lock` fails an `assert`.
pub init_needs_zeroed :
    (rw : RwLock) (t : ℕ)
    → rw.n_locks ≢ 0
    → (rw_lock_rd_lock (rw_lock_init rw) ≡ aborts) × (rw_lock_wr_lock (rw_lock_init rw) t ≡ aborts)
unfolding rw_lock_init rw_lock_rd_lock rw_lock_wr_lock
init_needs_zeroed rw t ne = (ground arith, ground arith)
