-- ===== src/RefCount/Users.antt =====
-- The count is the number of uses.
use multithreading_bible.Common.{
  ℕ, ◌+◌, ◌-◌, ◌^◌, ◌≡◌, ◌<◌, none, some, ◌==◌, if◌then◌else◌, arith, refl, sym,
}
use multithreading_bible.Common.Sums.{
  put, sum_below, sum_below-change, sum_below_zero, le-sum_below,
}
use multithreading_bible.Sync.Change.{put_self, put_ne}
use multithreading_bible.RefCount.{
  RefCount, ref_count_inc, ref_count_dec, ref_count_destroy, thread_using_object_done, World, Step,
  begins, ends, Reach, here, next, start,
}

abbrev pub total : ℕ → World → ℕ
total n x = sum_below n x.uses

record Counted (n : ℕ) (x : World) : Type 0 where
  counts : x.state.ref_count ≡ total n x
  bounded : total n x < 2 ^ 32

pub total-put : (n i k : ℕ) (f : ℕ → ℕ) → i < n → sum_below n (put f i k) + f i ≡ sum_below n f + k
total-put n i k f lt =
    omega (arith, sum_below-change n i f (put f i k) lt (λ j ne. put_ne f i k j ne), put_self f i k)

Step-Counted : (n : ℕ) {x y : World} → Step n x y → Counted n x → Counted n y
unfolding ref_count_inc ref_count_dec
Step-Counted n {x} (begins i lt room e) c =
    let more = total-put n i (x.uses i + 1) x.uses lt in
    rw e
      (record { counts = omega (arith, more, room, c.counts); bounded = omega (arith, more, room) })
Step-Counted n {x} (ends i m last lt has done e) c =
    let fewer = total-put n i (x.uses i - 1) x.uses lt in
    rw e (record {
      counts = ground (arith, done, fewer, has, c.counts);
      bounded = omega (arith, fewer, has, c.bounded);
    })

Reach-Counted : (n : ℕ) (m : RefCount) {x : World} → Reach n (start m) x → Counted n x
unfolding start
Reach-Counted n m here =
    let none_yet = sum_below_zero n (λ i. 0) (λ j lt. refl) in
    record { counts = sym none_yet; bounded = omega (arith, none_yet) }
Reach-Counted n m (next reach step) = Step-Counted n step (Reach-Counted n m reach)

-- In every run of any threads with fewer than 2^32 uses at a time, a thread that is done with a use
-- fails no `assert`, and is told that it was the last one exactly if there is no other use.
pub last_use_told :
    {n : ℕ} (m : RefCount) {x : World} (i : ℕ)
    → i < n
    → 0 < x.uses i
    → Reach n (start m) x
    → thread_using_object_done x.state ≡ some (total n x == 1, record { ref_count = total n x - 1 })
unfolding ref_count_dec
last_use_told {n} m {x} i lt has reach =
    let c = Reach-Counted n m reach in ground (arith, c.counts, le-sum_below n i x.uses lt, has)

-- In such a run, the object can be destroyed without a failing `assert` exactly if there is no use.
pub destroyed_unused :
    {n : ℕ} (m : RefCount) {x : World}
    → Reach n (start m) x
    → ref_count_destroy x.state ≡ (if total n x == 0 then some x.state else none)
unfolding ref_count_destroy
destroyed_unused {n} m {x} reach = let c = Reach-Counted n m reach in ground (arith, c.counts)
