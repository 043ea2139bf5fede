-- ===== src/Queues/Spec.antt =====
-- The promise of a bounded FIFO queue of pointers, `none` for NULL: oldest first.
use multithreading_bible.Common.{
  ℕ, Bool, true, false, Option, none, some, List, [], ◌∷◌, ◌++◌, ltb, if◌then◌else◌,
}
use multithreading_bible.Common.Lists.{length}

-- A client's call, and what it returns: `put` a Boolean, `get` a pointer.
pub data Op (A : Type 0) : Type 0 where
  put : Option A → Op A
  get : Op A

pub data Reply (A : Type 0) : Type 0 where
  stored : Bool → Reply A
  got : Option A → Reply A

-- NULL is refused, and so is anything beyond the capacity.
abbrev pub push : {A : Type 0} → ℕ → List A → Option A → Bool × List A
push cap xs none = (false, xs)
push cap xs (some a) = if ltb (length xs) cap then (true, xs ++ (a ∷ [])) else (false, xs)

abbrev pub pop : {A : Type 0} → List A → Option A × List A
pop [] = (none, [])
pop (a ∷ xs) = (some a, xs)

unfoldable pub run : {A : Type 0} → ℕ → List A → List (Op A) → List (Reply A)
run cap xs [] = []
run cap xs (put p ∷ ops) = let (b, ys) = push cap xs p in stored b ∷ run cap ys ops
run cap xs (get ∷ ops) = let (p, ys) = pop xs in got p ∷ run cap ys ops
