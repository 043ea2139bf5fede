-- ===== src/Sync.antt =====
-- Threads that call into a monitor-style object: code that runs between `pthread_mutex_lock` and
-- `pthread_mutex_unlock` or `pthread_cond_wait` is one atomic section, a function from the object's
-- state to an outcome. Any interleaving of sections, any choice of the thread that a signal wakes
-- and spurious wakeups are steps of the system.

pub mod Change
pub mod Wakeups
use mathlib.Core.List.{Mem}
use multithreading_bible.Common.{
  ℕ, ◌<◌, ◌≡◌, ◌≢◌, Bool, true, false, ==_iff, if◌then◌else◌, ◌==◌, List,
}
use multithreading_bible.Common.Sums.{put, sum_below}

-- What a section does to the threads that wait on a condition variable.
pub data Wake (C : Type 0) : Type 0 where
  quiet : Wake C
  signal : C → Wake C
  broadcast : C → Wake C
  -- One signal on each, where no two threads wait on the same one.
  each : List C → Wake C

-- How a section ends: it unlocks the mutex and the call returns; it waits on a condition variable,
-- to go on at the point `k`; it unlocks the mutex and the call goes on at `k`; an `assert` fails; or the call returns with the mutex locked, and no
-- section runs any more.
pub data Outcome (C K S : Type 0) : Type 0 where
  leaves : S → Wake C → Outcome C K S
  sleeps : C → K → S → Outcome C K S
  unlocks : K → S → Outcome C K S
  aborts : Outcome C K S
  keeps_mutex : S → Outcome C K S

-- `assert (b)`, then the rest.
abbrev pub require : {C K S : Type 0} → Bool → Outcome C K S → Outcome C K S
require true o = o
require false o = aborts

-- No `assert` failed, and the mutex is free again.
abbrev pub Proceeds : {C K S : Type 0} → Outcome C K S → Type 0
Proceeds (leaves s w) = Unit
Proceeds (sleeps c k s) = Unit
Proceeds (unlocks k s) = Unit
Proceeds aborts = ⊥
Proceeds (keeps_mutex s) = ⊥

-- Where a thread is: outside the object, blocked, or woken and about to take the mutex again.
pub data Pc (C K : Type 0) : Type 0 where
  idle : Pc C K
  asleep : C → K → Pc C K
  woken : K → Pc C K

pub record Thread (C K H : Type 0) : Type 0 where
  pub pc : Pc C K
  pub held : H

-- The sections of an object: from a call, and from a return of `pthread_cond_wait`. `may` is what
-- the client promises of its calls, by what it holds; `credit` and `granted` are what it holds
-- once a call has returned.
pub record Api (C K S Op H : Type 0) : Type 0 where
  pub enter : S → ℕ → Op → Outcome C K S
  pub resume : S → ℕ → K → Outcome C K S
  pub may : Op → H → Bool
  pub credit : Op → H → H
  pub granted : K → H → H

pub record World (C K S H : Type 0) : Type 0 where
  pub state : S
  pub threads : ℕ → Thread C K H

-- A blocked thread's turn to go on, on the condition variable `c`.
pub data Roused {C K H : Type 0} (c : C) (t t' : Thread C K H) : Type 0 where
  waiting :
      (k : K) → t.pc ≡ asleep c k → t' ≡ record { pc = woken k; held = t.held } → Roused c t t'
  elsewhere : ((k : K) → t.pc ≢ asleep c k) → t' ≡ t → Roused c t t'

-- The same for a thread that waits on one of some condition variables.
pub data RousedAny {C K H : Type 0} (cs : List C) (t t' : Thread C K H) : Type 0 where
  among :
      (c : C) (k : K)
      → Mem c cs
      → t.pc ≡ asleep c k
      → t' ≡ record { pc = woken k; held = t.held }
      → RousedAny cs t t'
  apart : ((c : C) (k : K) → Mem c cs → t.pc ≢ asleep c k) → t' ≡ t → RousedAny cs t t'

-- The threads before and after a wakeup: a signal wakes one thread that waits, if there is one.
pub data Wakes {C K H : Type 0} (n : ℕ) (f g : ℕ → Thread C K H) (w : Wake C) : Type 0 where
  silent : w ≡ quiet → ((j : ℕ) → g j ≡ f j) → Wakes n f g w
  lost :
      (c : C)
      → w ≡ signal c
      → ((j : ℕ) (k : K) → j < n → (f j).pc ≢ asleep c k)
      → ((j : ℕ) → g j ≡ f j)
      → Wakes n f g w
  one :
      (c : C) (i : ℕ) (k : K)
      → w ≡ signal c
      → i < n
      → (f i).pc ≡ asleep c k
      → ((j : ℕ) → g j ≡ put f i (record { pc = woken k; held = (f i).held }) j)
      → Wakes n f g w
  all : (c : C) → w ≡ broadcast c → ((j : ℕ) → Roused c (f j) (g j)) → Wakes n f g w
  several : (cs : List C) → w ≡ each cs → ((j : ℕ) → RousedAny cs (f j) (g j)) → Wakes n f g w

module _ {C K S Op H : Type 0} (api : Api C K S Op H) (n : ℕ) where
  -- The threads `0 … n - 1` take turns.
  pub data Step (x y : World C K S H) : Type 0 where
    returns :
        (i : ℕ) (op : Op) (w : Wake C)
        → i < n
        → (x.threads i).pc ≡ idle
        → api.may op (x.threads i).held ≡ true
        → api.enter x.state i op ≡ leaves y.state w
        → Wakes n
            (put x.threads i (record { pc = idle; held = api.credit op (x.threads i).held }))
            y.threads
            w
        → Step x y
    blocks :
        (i : ℕ) (op : Op) (c : C) (k : K)
        → i < n
        → (x.threads i).pc ≡ idle
        → api.may op (x.threads i).held ≡ true
        → api.enter x.state i op ≡ sleeps c k y.state
        → ((j : ℕ)
            → y.threads j
              ≡ put x.threads i (record { pc = asleep c k; held = (x.threads i).held }) j)
        → Step x y
    resumes :
        (i : ℕ) (k : K) (w : Wake C)
        → i < n
        → (x.threads i).pc ≡ woken k
        → api.resume x.state i k ≡ leaves y.state w
        → Wakes n
            (put x.threads i (record { pc = idle; held = api.granted k (x.threads i).held }))
            y.threads
            w
        → Step x y
    reblocks :
        (i : ℕ) (k : K) (c : C) (k' : K)
        → i < n
        → (x.threads i).pc ≡ woken k
        → api.resume x.state i k ≡ sleeps c k' y.state
        → ((j : ℕ)
            → y.threads j
              ≡ put x.threads i (record { pc = asleep c k'; held = (x.threads i).held }) j)
        → Step x y
    passes :
        (i : ℕ) (op : Op) (k : K)
        → i < n
        → (x.threads i).pc ≡ idle
        → api.may op (x.threads i).held ≡ true
        → api.enter x.state i op ≡ unlocks k y.state
        → ((j : ℕ)
            → y.threads j ≡ put x.threads i (record { pc = woken k; held = (x.threads i).held }) j)
        → Step x y
    spurious :
        (i : ℕ) (c : C) (k : K)
        → i < n
        → (x.threads i).pc ≡ asleep c k
        → y.state ≡ x.state
        → ((j : ℕ)
            → y.threads j ≡ put x.threads i (record { pc = woken k; held = (x.threads i).held }) j)
        → Step x y

  pub data Reach (x : World C K S H) : World C K S H → Type 0 where
    here : Reach x x
    next : {y z : World C K S H} → Reach x y → Step y z → Reach x z

-- Every thread outside the object, holding `h`.
abbrev pub start : {C K S H : Type 0} → S → H → World C K S H
start s h = record { state = s; threads = λ _. record { pc = idle; held = h } }
