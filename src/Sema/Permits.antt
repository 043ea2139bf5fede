-- ===== src/Sema/Permits.antt =====
-- The permits of the semaphore.
use multithreading_bible.Common.{ℕ, ◌+◌, ◌<◌, ◌≤◌, ◌≡◌, refl, arith, ◌∙◌, ap}
use multithreading_bible.Common.Sums.{put}
use multithreading_bible.Sync.{
  quiet, Thread, Wake, leaves, sleeps, asleep, woken, idle, World, spurious, resumes, silent, Reach,
  here, next, start,
}
use multithreading_bible.Sync.Change.{
  Change, returned, blocked, resumed, reblocked, passed, roused, After, waits, waits-start, holds,
  holds-start, Step-Change, put_self,
}
use multithreading_bible.Sema.Sleepers.{sleepers, enter_returns, spurious_wakeups, Reach-Slept}
use multithreading_bible.Sema.{
  ℤ, plus, minus, IsInt, Sema, Cv, cv, Point, waiting, sema_init, sema_wait, sema_wake, sema_post,
  sema_getvalue, Call, wait, post, enter, resume, Done, credit, api,
}

abbrev pub one_each : Point → ℕ
one_each waiting = 1

-- A section's part in the balance: `h` and `h'` are the calls done before and after, `u` and `v` say
-- whether the thread was and is in a wait.
abbrev Balanced : Sema → Sema → Done → Done → ℕ → ℕ → Type 0
Balanced m m' h h' u v =
    plus m'.permit_counter + h'.waits + v + h.posts + minus m.permit_counter
    ≡ plus m.permit_counter + h.waits + u + h'.posts + minus m'.permit_counter

enter-Balanced :
    (m : Sema) {m' : Sema} {w : Wake Cv} (t : ℕ) (c : Call) (h : Done)
    → enter m t c ≡ leaves m' w
    → Balanced m m' h (credit c h) 0 0
unfolding enter sema_wait sema_post
enter-Balanced m t wait h e = ground arith
enter-Balanced m t post h e = ground arith

enter_blocks-Balanced :
    (m : Sema) {m' : Sema} {c : Cv} (k : Point) (t : ℕ) (o : Call) (h : Done)
    → enter m t o ≡ sleeps c k m'
    → Balanced m m' h h 0 (one_each k)
unfolding enter sema_wait sema_post
enter_blocks-Balanced m k t wait h e = ground arith
enter_blocks-Balanced m k t post h e = ground arith

-- The balance of a run from the counter `p`.
abbrev pub Balance : ℤ → ℕ → World Cv Point Sema Done → Type 0
Balance p n x =
    plus x.state.permit_counter + holds n (λ h. h.waits) x + waits n one_each x + minus p
    ≡ plus p + holds n (λ h. h.posts) x + minus x.state.permit_counter

module _ (p : ℤ) {n : ℕ} {x y : World Cv Point Sema Done} (b : Balance p n x) where
  After-Balance :
      {i : ℕ} {h : Done} {u v : (Point → ℕ) → ℕ}
      → Balanced x.state y.state (x.threads i).held h (u one_each) (v one_each)
      → After n x y i h u v
      → Balance p n y
  After-Balance e after = omega (
    arith,
    b,
    e,
    after.holds_change (λ h. h.waits),
    after.holds_change (λ h. h.posts),
    after.waits_change one_each,
  )

  Change-Balance : Change api n x y → Balance p n y
  unfolding resume sema_wake
  Change-Balance (returned i c w ok e after) =
      After-Balance (enter-Balanced x.state i c (x.threads i).held e) after
  Change-Balance (blocked i c _ k ok e after) =
      After-Balance (enter_blocks-Balanced x.state k i c (x.threads i).held e) after
  Change-Balance (resumed i waiting w e after) = After-Balance (ground arith) after
  Change-Balance (reblocked i waiting c k e after) = absurd (cc)
  Change-Balance (passed i c k ok e after) = absurd (enter_returns c i x.state e)
  Change-Balance (roused i k e after) = After-Balance (ground arith) after

-- A semaphore initialised with `p`, no call made.
abbrev pub fresh : Sema → ℤ → World Cv Point Sema Done
fresh m p = start (sema_init m p) (record { waits = 0; posts = 0 })

-- The balance of a run holds at its end.
counted :
    {n : ℕ} (p : ℤ) (m : Sema) {x : World Cv Point Sema Done}
    → Reach api n (fresh m p) x
    → plus (sema_getvalue x.state) + holds n (λ h. h.waits) x + waits n one_each x + minus p
      ≡ plus p + holds n (λ h. h.posts) x + minus (sema_getvalue x.state)
unfolding sema_init sema_getvalue
counted {n} p m here = omega (
  arith,
  holds-start Cv Point n (λ (h : Done). h.waits) (sema_init m p) (record { waits = 0; posts = 0 })
      refl,
  holds-start Cv Point n (λ (h : Done). h.posts) (sema_init m p) (record { waits = 0; posts = 0 })
      refl,
  waits-start {K = Point} {H = Done} Cv n one_each (sema_init m p)
      (record { waits = 0; posts = 0 }),
)
counted {n} p m (next r st) = Change-Balance p (counted p m r) (Step-Change api n st)

-- For a semaphore initialised with an `int`, under every interleaving of any number of threads, as
-- long as no `++` or `--` overflows, and with spurious wakeups: its value is an `int`, namely the
-- initial one, plus the calls of `sema_post` that have returned, minus those of `sema_wait` that have
-- returned or are not through (an equation of numbers); no more threads are asleep than the value
-- lacks permits, none when it lacks none; and `sema_wait` has let through no more calls, those that
-- are about to return included, than the initial value (0 if it is negative) and the posts allow
-- for, but for one at each spurious wakeup.
pub permits_balance :
    {n : ℕ} (p : ℤ) (m : Sema) {x : World Cv Point Sema Done}
    → IsInt p
    → (r : Reach api n (fresh m p) x)
    → IsInt (sema_getvalue x.state)
      × (plus (sema_getvalue x.state) + holds n (λ h. h.waits) x + waits n one_each x + minus p
          ≡ plus p + holds n (λ h. h.posts) x + minus (sema_getvalue x.state))
      × (sleepers n x.threads ≤ minus (sema_getvalue x.state))
      × (plus (sema_getvalue x.state) + holds n (λ h. h.waits) x + waits n one_each x
          ≤ plus p + holds n (λ h. h.posts) x + sleepers n x.threads + spurious_wakeups r)
unfolding sema_getvalue
permits_balance p m b r =
    let slept = Reach-Slept p m b r in
    (
      slept.in_range,
      counted p m r,
      slept.not_too_many,
      omega (arith, counted p m r, slept.enough_asleep),
    )

-- The threads once `i` is woken, and a thread whose `sema_wait` has returned.
abbrev up : World Cv Point Sema Done → ℕ → ℕ → Thread Cv Point Done
up x i = put x.threads i (record { pc = woken waiting; held = (x.threads i).held })

abbrev through : Done → Thread Cv Point Done
through h = record { pc = idle; held = record h { waits = h.waits + 1 } }

-- A spurious wakeup lets a blocked thread through: in two steps its `sema_wait` has returned, with
-- nothing posted and the value unchanged.
pub spurious_permit :
    {n : ℕ} (x : World Cv Point Sema Done) (i : ℕ)
    → i < n
    → (x.threads i).pc ≡ asleep cv waiting
    → (y : World Cv Point Sema Done) × Reach api n x y
      × (sema_getvalue y.state ≡ sema_getvalue x.state)
      × ((y.threads i).held.waits ≡ (x.threads i).held.waits + 1)
unfolding resume sema_wake sema_getvalue
spurious_permit {n} x i lt e = (
  record { state = x.state; threads = put (up x i) i (through (up x i i).held) },
  next {y = record { state = x.state; threads = up x i }}
      (next here (spurious i cv waiting lt e refl (λ j. refl)))
      (resumes i waiting quiet lt (ap (λ t. t.pc) (put_self x.threads i _)) refl
        (silent refl (λ j. refl))),
  refl,
  ap (λ t. t.held.waits) (put_self (up x i) i _)
      ∙ ap (λ t. t.held.waits + 1) (put_self x.threads i _),
)
