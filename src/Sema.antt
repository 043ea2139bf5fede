-- ===== src/Sema.antt =====
-- Semaphores/sema.c: a counting semaphore over a mutex and a condition variable.
pub mod Sleepers
pub mod Permits
pub mod Tests
use multithreading_bible.Common.{
  ℕ, zero, suc, ◌+◌, ◌^◌, ◌<◌, ◌≤◌, Bool, true, false, not, ◌==◌, if◌then◌else◌,
}
use multithreading_bible.Sync.{Wake, quiet, signal, Outcome, leaves, sleeps, require, Api}

-- The values of `int` and of those beyond its bounds.
pub data ℤ : Type 0 where
  pos negsuc : ℕ → ℤ

abbrev pub incr : ℤ → ℤ
incr (pos n) = pos (n + 1)
incr (negsuc zero) = pos 0
incr (negsuc (suc n)) = negsuc n

abbrev pub decr : ℤ → ℤ
decr (pos zero) = negsuc 0
decr (pos (suc n)) = pos n
decr (negsuc n) = negsuc (n + 1)

abbrev pub is_negative : ℤ → Bool
is_negative (pos n) = false
is_negative (negsuc n) = true

-- An `int` as a difference.
abbrev pub plus : ℤ → ℕ
plus (pos n) = n
plus (negsuc n) = 0

abbrev pub minus : ℤ → ℕ
minus (pos n) = 0
minus (negsuc n) = n + 1

-- `INT_MIN ≤ v ≤ INT_MAX`
abbrev pub IsInt : ℤ → Type 0
IsInt v = (plus v < 2 ^ 31) × (minus v ≤ 2 ^ 31)

-- `v == INT_MIN` and `v == INT_MAX`, which `--` and `++` leave undefined.
abbrev pub is_int_min : ℤ → Bool
is_int_min v = minus v == 2 ^ 31

abbrev pub is_int_max : ℤ → Bool
is_int_max v = plus v + 1 == 2 ^ 31

-- `sema_t`
pub record Sema : Type 0 where
  pub permit_counter : ℤ

pub data Cv : Type 0 where
  cv : Cv

pub data Point : Type 0 where
  waiting : Point

-- What `calloc` leaves.
pub sema_get_new_semaphore : Sema
sema_get_new_semaphore = record { permit_counter = pos 0 }

pub sema_init : Sema → ℤ → Sema
sema_init m permit_counter = record m { permit_counter = permit_counter }

-- `sema_wait` up to its wait or its return; it aborts where `--` is undefined.
pub sema_wait : Sema → Outcome Cv Point Sema
sema_wait m = require (not (is_int_min m.permit_counter)) (
    if is_negative (decr m.permit_counter)
    then sleeps cv waiting (record m { permit_counter = decr m.permit_counter })
    else leaves (record m { permit_counter = decr m.permit_counter }) quiet)

-- The rest of it after `pthread_cond_wait`, which is not in a loop.
pub sema_wake : Sema → Outcome Cv Point Sema
sema_wake m = leaves m quiet

-- It aborts where `++` is undefined.
pub sema_post : Sema → Outcome Cv Point Sema
sema_post m = require (not (is_int_max m.permit_counter)) (
    leaves (record m { permit_counter = incr m.permit_counter })
      (if is_negative m.permit_counter then signal cv else quiet))

pub sema_getvalue : Sema → ℤ
sema_getvalue m = m.permit_counter

-- What is left of the memory once the `pthread` objects are destroyed.
pub sema_destroy : Sema → Sema
sema_destroy m = record m { permit_counter = pos 0 }

pub data Call : Type 0 where
  wait post : Call

pub enter : Sema → ℕ → Call → Outcome Cv Point Sema
enter m t wait = sema_wait m
enter m t post = sema_post m

pub resume : Sema → ℕ → Point → Outcome Cv Point Sema
resume m t waiting = sema_wake m

-- The calls of a thread that have returned.
pub record Done : Type 0 where
  pub waits : ℕ
  pub posts : ℕ

abbrev pub credit : Call → Done → Done
credit wait h = record h { waits = h.waits + 1 }
credit post h = record h { posts = h.posts + 1 }

abbrev pub api : Api Cv Point Sema Call Done
api = record {
  enter = enter;
  resume = resume;
  may = λ _ _. true;
  credit = credit;
  granted = λ _ h. record h { waits = h.waits + 1 };
}
