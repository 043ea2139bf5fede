-- ===== src/Nfc/Links.antt =====
-- The entries of the table as a doubly linked list, younger addresses first.
use multithreading_bible.Common.{
  ℕ, ◌+◌, ◌≡◌, ◌≤◌, ◌<◌, Option, none, some, List, [], ◌∷◌, ◌++◌, arith, refl, sym, ap, ◌∙◌,
}
use multithreading_bible.Common.Lists.{length}
use multithreading_bible.Common.Sums.{put}
use multithreading_bible.Sync.Change.{put_self, put_ne}
use multithreading_bible.Nfc.{Row, RtEntry}

-- The address of the first entry, and of the last, with what stands for none of the list.
abbrev pub first {ℓ} : {R : Type ℓ} → List (ℕ × R) → Option ℕ → Option ℕ
first [] after = after
first ((a, r) ∷ l) after = some a

abbrev pub last {ℓ} : {R : Type ℓ} → Option ℕ → List (ℕ × R) → Option ℕ
last before [] = before
last before ((a, r) ∷ l) = last (some a) l

-- Addresses fall along the list, from below `n`.
abbrev pub Falls {ℓ} : {R : Type ℓ} → ℕ → List (ℕ × R) → Type 0
Falls n [] = Unit
Falls n ((a, r) ∷ l) = (a < n) × Falls a l

-- Every address is above `n`.
abbrev pub Above {ℓ} : {R : Type ℓ} → ℕ → List (ℕ × R) → Type 0
Above n [] = Unit
Above n ((a, r) ∷ l) = (n < a) × Above n l

pub Falls-le {ℓ} : {R : Type ℓ} (n m : ℕ) (l : List (ℕ × R)) → n ≤ m → Falls n l → Falls m l
Falls-le n m [] le f = f
Falls-le n m ((a, r) ∷ l) le f = (omega arith, f.1)

pub Above-le {ℓ} : {R : Type ℓ} (n m : ℕ) (l : List (ℕ × R)) → m ≤ n → Above n l → Above m l
Above-le n m [] le f = f
Above-le n m ((a, r) ∷ l) le f = (omega arith, Above-le n m l le f.1)

-- The last address of a list above `n` is above `n`.
pub Above-last {ℓ} :
    {R : Type ℓ} (n b p : ℕ) (l : List (ℕ × R))
    → last (some b) l ≡ some p
    → n < b
    → Above n l
    → n < p
Above-last n b p [] e lt f = ground (arith, e)
Above-last n b p ((a, r) ∷ l) e lt f = Above-last n a p l e f.0 f.1

-- A list that falls, split at an entry.
pub Falls-split {ℓ} :
    {R : Type ℓ} (n a : ℕ) (r : R) (xs ys : List (ℕ × R))
    → Falls n (xs ++ ((a, r) ∷ ys))
    → (a < n) × Above a xs × Falls a ys
Falls-split n a r [] ys f = (f.0, tt, f.1)
Falls-split n a r ((b, s) ∷ xs) ys f =
    let (lt, above, falls) = Falls-split b a r xs ys f.1 in (omega arith, (lt, above), falls)

pub Falls-append_left {ℓ} :
    {R : Type ℓ} (n : ℕ) (xs ys : List (ℕ × R)) → Falls n (xs ++ ys) → Falls n xs
Falls-append_left n [] ys f = tt
Falls-append_left n ((b, s) ∷ xs) ys f = (f.0, Falls-append_left b xs ys f.1)

-- So many addresses stand before an entry.
pub Falls-length {ℓ} :
    {R : Type ℓ} (n a : ℕ) (r : R) (xs ys : List (ℕ × R))
    → Falls n (xs ++ ((a, r) ∷ ys))
    → length xs + a < n
Falls-length n a r [] ys f = omega (arith, f.0)
Falls-length n a r ((b, s) ∷ xs) ys f = omega (arith, f.0, Falls-length b a r xs ys f.1)

-- An entry's content does not matter to its address.
pub Falls-replace {ℓ} :
    {R : Type ℓ} (n a : ℕ) (r r' : R) (xs ys : List (ℕ × R))
    → Falls n (xs ++ ((a, r) ∷ ys))
    → Falls n (xs ++ ((a, r') ∷ ys))
Falls-replace n a r r' [] ys f = f
Falls-replace n a r r' ((b, s) ∷ xs) ys f = (f.0, Falls-replace b a r r' xs ys f.1)

pub first-replace {ℓ} :
    {R : Type ℓ} (a : ℕ) (r r' : R) (xs ys : List (ℕ × R)) (after : Option ℕ)
    → first (xs ++ ((a, r) ∷ ys)) after ≡ first (xs ++ ((a, r') ∷ ys)) after
first-replace a r r' [] ys after = refl
first-replace a r r' ((b, s) ∷ xs) ys after = refl

pub Falls-length_all {ℓ} : {R : Type ℓ} (n : ℕ) (l : List (ℕ × R)) → Falls n l → length l ≤ n
Falls-length_all n [] f = omega arith
Falls-length_all n ((b, s) ∷ l) f = omega (arith, f.0, Falls-length_all b l f.1)

pub Falls-drop {ℓ} :
    {R : Type ℓ} (n a : ℕ) (r : R) (xs ys : List (ℕ × R))
    → Falls n (xs ++ ((a, r) ∷ ys))
    → Falls n (xs ++ ys)
Falls-drop n a r [] ys f = Falls-le a n ys (omega arith) f.1
Falls-drop n a r ((b, s) ∷ xs) ys f = (f.0, Falls-drop b a r xs ys f.1)

abbrev pub Heap : Type 0 → Type 0
Heap K = ℕ → Option (RtEntry K)

abbrev pub Rows : Type 0 → Type 0
Rows K = List (ℕ × Row K)

module _ {K : Type 0} where
  abbrev pub entry : Row K → Option ℕ → Option ℕ → RtEntry K
  entry row prev next = record { row = row; prev = prev; next = next }

  abbrev pub Linked : Heap K → Option ℕ → Rows K → Option ℕ → Type 0
  Linked h before [] after = Unit
  Linked h before ((a, r) ∷ l) after =
      (h a ≡ some (entry r before (first l after))) × Linked h (some a) l after

  first-append :
      (xs ys : Rows K) (after : Option ℕ) → first (xs ++ ys) after ≡ first xs (first ys after)
  first-append [] ys after = refl
  first-append ((a, r) ∷ xs) ys after = refl

  pub Linked-split :
      (h : Heap K) (before after : Option ℕ) (xs ys : Rows K)
      → Linked h before (xs ++ ys) after
      → Linked h before xs (first ys after) × Linked h (last before xs) ys after
  Linked-split h before after [] ys k = (tt, k)
  Linked-split h before after ((a, r) ∷ xs) ys k =
      let (left, right) = Linked-split h (some a) after xs ys k.1 in
      ((k.0 ∙ ap (λ q. some (entry r before q)) (first-append xs ys after), left), right)

  pub Linked-join :
      (h : Heap K) (before after : Option ℕ) (xs ys : Rows K)
      → Linked h before xs (first ys after)
      → Linked h (last before xs) ys after
      → Linked h before (xs ++ ys) after
  Linked-join h before after [] ys left right = right
  Linked-join h before after ((a, r) ∷ xs) ys left right = (
    left.0 ∙ ap (λ q. some (entry r before q)) (sym (first-append xs ys after)),
    Linked-join h (some a) after xs ys left.1 right,
  )

  -- A write below or above all addresses of the list does not touch it.
  pub Linked-Above :
      (h : Heap K) (before after : Option ℕ) (b : ℕ) (c : Option (RtEntry K)) (l : Rows K)
      → Above b l
      → Linked h before l after
      → Linked (put h b c) before l after
  Linked-Above h before after b c [] f k = k
  Linked-Above h before after b c ((a, r) ∷ l) f k =
      (put_ne h b c a (omega arith) ∙ k.0, Linked-Above h (some a) after b c l f.1 k.1)

  pub Linked-Falls :
      (h : Heap K) (before after : Option ℕ) (b : ℕ) (c : Option (RtEntry K)) (l : Rows K)
      → Falls b l
      → Linked h before l after
      → Linked (put h b c) before l after
  Linked-Falls h before after b c [] f k = k
  Linked-Falls h before after b c ((a, r) ∷ l) f k = (
    put_ne h b c a (omega arith) ∙ k.0,
    Linked-Falls h (some a) after b c l (Falls-le a b l (omega arith) f.1) k.1,
  )

  -- The entry's content changes in place.
  pub Linked-update :
      (h : Heap K) (n a : ℕ) (r r' : Row K) (xs ys : Rows K)
      → Falls n (xs ++ ((a, r) ∷ ys))
      → Linked h none (xs ++ ((a, r) ∷ ys)) none
      → (h a ≡ some (entry r (last none xs) (first ys none)))
        × Linked
            (put h a (some (entry r' (last none xs) (first ys none))))
            none
            (xs ++ ((a, r') ∷ ys))
            none
  Linked-update h n a r r' xs ys falls k =
      let (lt, above, below) = Falls-split n a r xs ys falls in
      let (left, right) = Linked-split h none none xs ((a, r) ∷ ys) k in
      (
        right.0,
        Linked-join _ none none xs ((a, r') ∷ ys) (Linked-Above h none (some a) a _ xs above left)
            (put_self h a _, Linked-Falls h (some a) none a _ ys below right.1),
      )
