-- ===== src/AssemblyLine/Places.antt =====
-- The slots of the workers: worker `k` stands `k` slots beyond worker 0, round the line.
use multithreading_bible.Common.{
  ℕ, suc, ◌+◌, ◌-◌, ◌<◌, ◌≡◌, ◌≢◌, refl, arith, ltb, ◌==◌, if◌then◌else◌,
}

-- The slot of worker `k` of `n` where worker 0 stands at `s`.
unfoldable pub place : ℕ → ℕ → ℕ → ℕ
place n s k = if ltb (s + k) n then s + k else s + k - n

-- The slot before.
unfoldable pub back : ℕ → ℕ → ℕ
back n s = if s == 0 then n - 1 else s - 1

pub back_lem : (n s : ℕ) → back n s ≡ (if s == 0 then n - 1 else s - 1)
unfolding back
back_lem n s = refl

pub place-lt : (n s k : ℕ) → s < n → k < n → place n s k < n
unfolding place
place-lt n s k ls lk = ground arith

pub back-lt : (n s : ℕ) → s < n → back n s < n
unfolding back
back-lt n s ls = ground arith

pub place_apart : (n s i k : ℕ) → s < n → i < n → k < n → i ≢ k → place n s i ≢ place n s k
unfolding place
place_apart n s i k ls li lk ne e = ground arith

pub place-zero : (n s : ℕ) → s < n → place n s 0 ≡ s
unfolding place
place-zero n s ls = ground arith

-- A step back of all moves every worker to where the one before it stood, and worker 0 to where the
-- last one stood.
pub back-place : (n s k : ℕ) → s < n → k < n → back n (place n s k) ≡ place n (back n s) k
unfolding back place
back-place n s k ls lk = ground arith

pub place-back-suc : (n s k : ℕ) → s < n → suc k < n → place n (back n s) (suc k) ≡ place n s k
unfolding back place
place-back-suc n s k ls lk = ground arith

pub place-back-zero : (n s : ℕ) → s < n → place n (back n s) 0 ≡ place n s (n - 1)
unfolding back place
place-back-zero n s ls = ground arith

pub place_base : (n k : ℕ) → k < n → place n 0 k ≡ k
unfolding place
place_base n k lk = ground arith
