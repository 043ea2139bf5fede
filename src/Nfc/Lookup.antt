-- ===== src/Nfc/Lookup.antt =====
-- The loops over the linked list find what the rows hold.
use mathlib.Core.List.{map}
use multithreading_bible.Common.{
  ℕ, zero, suc, ◌≡◌, ◌≤◌, ◌<◌, ◌⊎◌, inl, inr, Bool, Bool-cases, true, Option, none, some, List, [],
  ◌∷◌, ◌++◌, arith, refl, ap,
}
use multithreading_bible.Common.Lists.{length}
use multithreading_bible.Nfc.{Row, look, matches}
use multithreading_bible.Nfc.Links.{first, Heap, Rows, Linked}
use multithreading_bible.Nfc.Spec.{find}

abbrev pub contents : {K : Type 0} → Rows K → List (Row K)
contents = map (λ p. p.1)

module _ {K : Type 0} (hits : Row K → Bool) where
  -- The linked entries, split at the first one that is looked for.
  pub record Hit (l : Rows K) : Type 0 where
    pub before : Rows K
    pub at : ℕ
    pub row : Row K
    pub after : Rows K
    pub splits : l ≡ before ++ ((at, row) ∷ after)
    pub misses : find hits (contents before) ≡ none
    pub hit : hits row ≡ true

  pub search_rows : (l : Rows K) → (find hits (contents l) ≡ none) ⊎ Hit l
  unfolding find
  search_rows [] = inl refl
  search_rows ((a, r) ∷ l) = elim (Bool-cases (hits r)) [
    | inl e ↦
        inr (record {
          before = [];
          at = a;
          row = r;
          after = l;
          splits = refl;
          misses = refl;
          hit = e;
        })
    | inr e ↦ elim (search_rows l) [
      | inl none_of ↦ inl (rw e none_of)
      | inr h ↦ inr (record {
        before = (a, r) ∷ h.before;
        at = h.at;
        row = h.row;
        after = h.after;
        splits = ap (λ q. (a, r) ∷ q) h.splits;
        misses = rw e h.misses;
        hit = h.hit;
      })
    ]
  ]

module _ {S K : Type 0} (strncmp : ℕ → K → S → Bool) (dest : S) (mask : ℕ) where
  abbrev pub hits : Row K → Bool
  hits = matches strncmp dest mask

  pub look-miss :
      (fuel : ℕ) (h : Heap K) (before : Option ℕ) (l : Rows K)
      → length l ≤ fuel
      → Linked h before l none
      → find hits (contents l) ≡ none
      → look strncmp fuel h (first l none) dest mask ≡ some none
  unfolding look find
  look-miss fuel h before [] le k miss = refl
  look-miss zero h before ((a, r) ∷ l) le k miss = absurd (omega arith)
  look-miss (suc fuel) h before ((a, r) ∷ l) le k miss =
      rw k.0 (ground (arith, look-miss fuel h (some a) l (omega arith) k.1))

  pub look-hit :
      (fuel : ℕ) (h : Heap K) (before : Option ℕ) (xs ys : Rows K) (a : ℕ) (r : Row K)
      → length xs < fuel
      → Linked h before (xs ++ ((a, r) ∷ ys)) none
      → find hits (contents xs) ≡ none
      → hits r ≡ true
      → look strncmp fuel h (first (xs ++ ((a, r) ∷ ys)) none) dest mask ≡ some (some a)
  unfolding look find
  look-hit zero h before xs ys a r lt k miss hit = absurd (omega arith)
  look-hit (suc fuel) h before [] ys a r lt k miss hit = rw k.0 (ground arith)
  look-hit (suc fuel) h before ((b, s) ∷ xs) ys a r lt k miss hit =
      rw k.0 (ground (arith, look-hit fuel h (some b) xs ys a r (omega arith) k.1))
