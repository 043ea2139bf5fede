-- ===== src/Queues/Cyclic.antt =====
-- Going round an array: the window of `n` cells that starts at a cell, by a step to the next cell.
use multithreading_bible.Common.{
  ℕ, zero, suc, ◌+◌, ◌-◌, ◌≤◌, ◌<◌, ◌≡◌, ◌≢◌, refl, ap, ap₂, ltb, leb, List, [], ◌∷◌, ◌++◌, arith,
  ◌==◌, if◌then◌else◌,
}
use multithreading_bible.Common.Lists.{length, get_or, set, get_or-set_self, get_or-set_ne}

module _ (next : ℕ → ℕ) where
  -- The cell `k` steps on from `h`.
  abbrev pub cell : ℕ → ℕ → ℕ
  cell h zero = h
  cell h (suc k) = cell (next h) k

  pub cell-suc : (h k : ℕ) → cell h (suc k) ≡ next (cell h k)
  cell-suc h zero = refl
  cell-suc h (suc k) = cell-suc (next h) k

  module _ {A : Type 0} (d : A) where
    abbrev pub window : List A → ℕ → ℕ → List A
    window buf h zero = []
    window buf h (suc n) = get_or buf h d ∷ window buf (next h) n

    pub length-window : (buf : List A) (h n : ℕ) → length (window buf h n) ≡ n
    length-window buf h zero = refl
    length-window buf h (suc n) = ap suc (length-window buf (next h) n)

    -- A round has `size` different cells.
    module _ (size : ℕ) (inside : (h : ℕ) → h < size → next h < size)
        (apart : (h k : ℕ) → h < size → suc k < size → cell h (suc k) ≢ h) where
      pub cell-lt : (h k : ℕ) → h < size → cell h k < size
      cell-lt h zero lt = lt
      cell-lt h (suc k) lt = cell-lt (next h) k (inside h lt)

      -- A write beyond the window does not show in it.
      pub window-set_beyond :
          (buf : List A) (v : A) (h n m : ℕ)
          → h < size
          → n ≤ m
          → m < size
          → window (set buf (cell h m) v) h n ≡ window buf h n
      window-set_beyond buf v h zero m lt le ms = refl
      window-set_beyond buf v h (suc n) zero lt le ms = absurd (omega arith)
      window-set_beyond buf v h (suc n) (suc m) lt le ms =
          ap₂ ◌∷◌ (get_or-set_ne buf (cell h (suc m)) h v d (apart h m lt ms))
            (window-set_beyond buf v (next h) n m (inside h lt) (omega arith) (omega arith))

      -- A write just past the window extends it.
      pub window-set_next :
          (buf : List A) (v : A) (h n : ℕ)
          → length buf ≡ size
          → h < size
          → n < size
          → window (set buf (cell h n) v) h (suc n) ≡ window buf h n ++ (v ∷ [])
      window-set_next buf v h zero len lt ns =
          ap (λ a. a ∷ []) (get_or-set_self buf h v d (omega arith))
      window-set_next buf v h (suc n) len lt ns =
          ap₂ ◌∷◌ (get_or-set_ne buf (cell h (suc n)) h v d (apart h n lt ns))
            (window-set_next buf v (next h) n len (inside h lt) (omega arith))

-- The two ways round an array of `size` cells.
unfoldable pub down : ℕ → ℕ → ℕ
down size h = if h == 0 then size - 1 else h - 1

unfoldable pub up : ℕ → ℕ → ℕ
up size h = if h == size - 1 then 0 else h + 1

pub down-lt : (size h : ℕ) → h < size → down size h < size
unfolding down
down-lt size h lt = ground arith

pub up-lt : (size h : ℕ) → h < size → up size h < size
unfolding up
up-lt size h lt = ground arith

cell-down :
    (size h k : ℕ)
    → h < size
    → k < size
    → cell (down size) h k ≡ (if leb k h then h - k else h + size - k)
unfolding down
cell-down size h zero lt ks = ground arith
cell-down size h (suc k) lt ks = ground (arith, cell-down size (down size h) k (down-lt size h lt))

cell-up :
    (size h k : ℕ)
    → h < size
    → k < size
    → cell (up size) h k ≡ (if ltb (h + k) size then h + k else h + k - size)
unfolding up
cell-up size h zero lt ks = ground arith
cell-up size h (suc k) lt ks = ground (arith, cell-up size (up size h) k (up-lt size h lt))

pub down_apart : (size h k : ℕ) → h < size → suc k < size → cell (down size) h (suc k) ≢ h
down_apart size h k lt ks = ground (arith, cell-down size h (suc k))

pub up_apart : (size h k : ℕ) → h < size → suc k < size → cell (up size) h (suc k) ≢ h
up_apart size h k lt ks = ground (arith, cell-up size h (suc k))

-- A whole round comes back to its start.
pub down_round : (size h : ℕ) → h < size → cell (down size) (down size h) (size - 1) ≡ h
unfolding down
down_round size h lt = ground (arith, cell-down size (down size h) (size - 1) (down-lt size h lt))

pub up_round : (size h : ℕ) → h < size → cell (up size) (up size h) (size - 1) ≡ h
unfolding up
up_round size h lt = ground (arith, cell-up size (up size h) (size - 1) (up-lt size h lt))
