-- ===== src/Monitor/Limits.antt =====
-- The limits of the monitor, under every interleaving.
use multithreading_bible.Common.{
  ℕ, ◌^◌, ◌≤◌, ◌<◌, ◌≡◌, ◌∙◌, ◌⊎◌, refl, true, arith, ℕ_discrete, sym, subst,
}
use multithreading_bible.Sync.{World, Step, Reach, here, next, start}
use multithreading_bible.Sync.Change.{
  Change, returned, blocked, resumed, reblocked, passed, roused, After, waits, waits-le,
  waits-start, weight, holds, holds-start, Step-Change,
}
use multithreading_bible.WaitQueue.{Glthread}
use multithreading_bible.Monitor.{
  reader, writer, any, Monitor, Cv, Point, asking, waiting, init_monitor, monitor_sanity_check,
  request, release, shut_down, Held, api,
}
use multithreading_bible.Monitor.Sections.{
  IsValid, is_reading, is_writing, is_any, Did, request_returns, request_passes, release-Did,
  ask-Did, ask_blocks, retest-Did, retest_blocks, shut_down-Did, no_section, enter_returns,
  enter_passes,
}

pub record Inv (n r w : ℕ) (x : World Cv Point Monitor Held) : Type 0 where
  pub few : n < 2 ^ 32
  pub valid : IsValid r w x.state
  pub readers : holds n (λ h. h.reads) x ≡ x.state.n_curr_readers
  pub writers : holds n (λ h. h.writes) x ≡ x.state.n_curr_writers
  pub reading : x.state.reader_thread_wait_q.thread_wait_count ≡ waits n is_reading x
  pub writing : x.state.writer_thread_wait_q.thread_wait_count ≡ waits n is_writing x
  pub proper : (j : ℕ) → weight is_any (x.threads j).pc ≡ 0

is_reading-le : (k : Point) → is_reading k ≤ 1
is_reading-le (asking op) = omega arith
is_reading-le (waiting reader) = omega arith
is_reading-le (waiting writer) = omega arith
is_reading-le (waiting any) = omega arith

is_writing-le : (k : Point) → is_writing k ≤ 1
is_writing-le (asking op) = omega arith
is_writing-le (waiting reader) = omega arith
is_writing-le (waiting writer) = omega arith
is_writing-le (waiting any) = omega arith

module _ (gl : Glthread) {n r w : ℕ} {x y : World Cv Point Monitor Held} (inv : Inv n r w x) where
  -- A section with its effect on the threads keeps the invariant.
  Did-Inv :
      {i : ℕ} {h : Held} {u v : (Point → ℕ) → ℕ}
      → u is_reading ≤ 1
      → u is_writing ≤ 1
      → Did r w (x.threads i).held h u v x.state y.state
      → After n x y i h u v
      → Inv n r w y
  Did-Inv {i} ur uw did after = record {
    few = inv.few;
    valid = did.valid;
    readers = omega (arith, inv.readers, did.readers, after.holds_change (λ h. h.reads));
    writers = omega (arith, inv.writers, did.writers, after.holds_change (λ h. h.writes));
    reading = omega (
      arith,
      inv.reading,
      after.waits_change is_reading,
      waits-le n is_reading y is_reading-le,
      waits-le n is_reading x is_reading-le,
      did.reading,
      did.valid.counts,
    );
    writing = omega (
      arith,
      inv.writing,
      after.waits_change is_writing,
      waits-le n is_writing y is_writing-le,
      waits-le n is_writing x is_writing-le,
      did.writing,
      did.valid.counts,
    );
    proper = λ j. elim (ℕ_discrete j i) [
      | yes e ↦ rw e (after.weight_self is_any ∙ did.proper)
      | no ne ↦ after.weight_ne is_any j ne ∙ inv.proper j
    ];
  }

  proper_of :
      (i : ℕ) (k : Point) {h : Held} {v : (Point → ℕ) → ℕ}
      → After n x y i h (λ u. u k) v
      → is_any k ≡ 0
  proper_of i k after = sym (after.weight_before is_any) ∙ inv.proper i

  Change-Inv : Change (api gl) n x y → Inv n r w y
  Change-Inv (returned i (request op) e ok s after) =
      Did-Inv (omega arith) (omega arith) (request_returns gl i inv.valid op s) after
  Change-Inv (returned i (release op) e ok s after) =
      Did-Inv (omega arith) (omega arith) (release-Did gl i inv.valid op ok s) after
  Change-Inv (returned i shut_down e ok s after) =
      Did-Inv (omega arith) (omega arith) (shut_down-Did gl i inv.valid s) after
  Change-Inv (blocked i o c k ok s after) = absurd (enter_returns gl i x.state o s)
  Change-Inv (passed i (request op) k ok s after) =
      Did-Inv (omega arith) (omega arith) (request_passes gl i inv.valid op k ok s) after
  Change-Inv (passed i (release op) k ok s after) =
      absurd (enter_passes gl i x.state (release op) (λ o. cc) s)
  Change-Inv (passed i shut_down k ok s after) =
      absurd (enter_passes gl i x.state shut_down (λ o. cc) s)
  Change-Inv (resumed i (asking op) e s after) =
      Did-Inv (is_reading-le (asking op)) (is_writing-le (asking op))
        (ask-Did gl i inv.valid op (proper_of i (asking op) after) s) after
  Change-Inv (resumed i (waiting op) e s after) =
      Did-Inv (is_reading-le (waiting op)) (is_writing-le (waiting op))
        (retest-Did gl i inv.valid op (proper_of i (waiting op) after) s) after
  Change-Inv (reblocked i (asking op) c k s after) =
      Did-Inv (is_reading-le (asking op)) (is_writing-le (asking op))
        (ask_blocks gl i inv.valid op k (proper_of i (asking op) after) s) after
  Change-Inv (reblocked i (waiting op) c k s after) =
      Did-Inv (is_reading-le (waiting op)) (is_writing-le (waiting op))
        (retest_blocks gl i inv.valid op k (proper_of i (waiting op) after) s) after
  Change-Inv (roused i k e after) =
      Did-Inv (is_reading-le k) (is_writing-le k)
        (subst (Did r w _ _ _ _ x.state) (sym e) (no_section k inv.valid (proper_of i k after)))
        after

-- Every step keeps the invariant.
pub Step-Inv :
    (gl : Glthread) {n r w : ℕ} {x y : World Cv Point Monitor Held}
    → Step (api gl) n x y
    → Inv n r w x
    → Inv n r w y
Step-Inv gl {n} st inv = Change-Inv gl inv (Step-Change (api gl) n st)

-- A new monitor for `r` readers or `w` writers, with no thread inside.
abbrev pub fresh : ℕ → ℕ → World Cv Point Monitor Held
fresh r w = start (init_monitor r w) (record { reads = 0; writes = 0 })

init-Inv : (n r w : ℕ) → n < 2 ^ 32 → r < 2 ^ 16 → w < 2 ^ 16 → Inv n r w (fresh r w)
unfolding init_monitor
init-Inv n r w few hr hw = record {
  few = few;
  valid = ground arith;
  readers = holds-start _ _ n (λ h. h.reads) _ _ refl;
  writers = holds-start _ _ n (λ h. h.writes) _ _ refl;
  reading = sym (waits-start _ n is_reading _ _);
  writing = sym (waits-start _ n is_writing _ _);
  proper = λ j. refl;
}

pub Reach-Inv :
    (gl : Glthread) {n r w : ℕ} {x : World Cv Point Monitor Held}
    → n < 2 ^ 32
    → r < 2 ^ 16
    → w < 2 ^ 16
    → Reach (api gl) n (fresh r w) x
    → Inv n r w x
Reach-Inv gl {n} {r} {w} few hr hw here = init-Inv n r w few hr hw
Reach-Inv gl few hr hw (next p st) = Step-Inv gl st (Reach-Inv gl few hr hw p)

-- However requests, releases and the shutdown interleave, the threads inside are at most `r` readers
-- or at most `w` writers, never both kinds at once, the monitor's two counters are their numbers, and
-- `monitor_sanity_check` passes.
-- This holds for any order of the wait queues and with spurious wakeups.
pub limits_kept :
    (gl : Glthread) {n r w : ℕ} {x : World Cv Point Monitor Held}
    → n < 2 ^ 32
    → r < 2 ^ 16
    → w < 2 ^ 16
    → Reach (api gl) n (fresh r w) x
    → (holds n (λ h. h.reads) x ≤ r)
      × (holds n (λ h. h.writes) x ≤ w)
      × ((holds n (λ h. h.reads) x ≡ 0) ⊎ (holds n (λ h. h.writes) x ≡ 0))
      × (x.state.n_curr_readers ≡ holds n (λ h. h.reads) x)
      × (x.state.n_curr_writers ≡ holds n (λ h. h.writes) x)
      × (monitor_sanity_check x.state ≡ true)
unfolding monitor_sanity_check
limits_kept gl few hr hw p =
    let inv = Reach-Inv gl few hr hw p in ground (arith, inv.valid, inv.readers, inv.writers)
