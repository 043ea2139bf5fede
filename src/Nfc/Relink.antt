-- ===== src/Nfc/Relink.antt =====
-- Writes to the links of the first or the last entry of a linked list.

use multithreading_bible.Common.{ℕ, ◌≡◌, ◌≤◌, Option, some, [], ◌∷◌, arith, refl, ap, ◌∙◌}
use multithreading_bible.Common.Options.{◌>>=◌}
use multithreading_bible.Common.Sums.{put}
use multithreading_bible.Sync.Change.{put_self, put_ne}
use multithreading_bible.Nfc.{Row, RtEntry, RtTable, store, set_prev, set_next}
use multithreading_bible.Nfc.Links.{first, last, Falls, Heap, Rows, entry, Linked, Linked-Falls}

-- The last entry of a list, and the list once its `next` is `q'`.
pub record Relinked {K : Type 0} (h : Heap K) (before q' : Option ℕ) (a : ℕ) (l : Rows K)
    (e : Option ℕ) : Type 0 where
  pub at : ℕ
  pub old : RtEntry K
  pub is_last : e ≡ some at
  pub found : h at ≡ some old
  pub bound : at ≤ a
  pub relinked : Linked (put h at (some (record old { next = q' }))) before l q'

module _ {K : Type 0} where
  pub relink_last :
      (h : Heap K) (before q q' : Option ℕ) (a : ℕ) (r : Row K) (l : Rows K)
      → Falls a l
      → Linked h before ((a, r) ∷ l) q
      → Relinked h before q' a ((a, r) ∷ l) (last (some a) l)
  relink_last h before q q' a r [] f k = record {
    at = a;
    old = entry r before q;
    is_last = refl;
    found = k.0;
    bound = omega arith;
    relinked = (put_self h a _, tt);
  }
  relink_last h before q q' a r ((c, s) ∷ l) f k =
      let rest = relink_last h (some a) q q' c s l f.1 k.1 in
      record {
        at = rest.at;
        old = rest.old;
        is_last = rest.is_last;
        found = rest.found;
        bound = omega (arith, rest.bound, f.0);
        relinked =
            (put_ne h rest.at _ a (λ e. omega (arith, rest.bound, f.0)) ∙ k.0, rest.relinked);
      }

  pub relink_first :
      (h : Heap K) (before before' q : Option ℕ) (a : ℕ) (r : Row K) (l : Rows K)
      → Falls a l
      → Linked h before ((a, r) ∷ l) q
      → Linked (put h a (some (entry r before' (first l q)))) before' ((a, r) ∷ l) q
  relink_first h before before' q a r l f k =
      (put_self h a _, Linked-Falls h (some a) q a _ l f k.1)

  -- `p->prev = q` and `p->next = q` of an entry that is there.
  pub set_prev_of :
      (t : RtTable K) (p : ℕ) (q : Option ℕ) (e : RtEntry K)
      → t.heap p ≡ some e
      → set_prev t p q ≡ some (store t p (record e { prev = q }))
  unfolding set_prev
  set_prev_of t p q e found = ap (λ o. o >>= λ e. some (store t p (record e { prev = q }))) found

  pub set_next_of :
      (t : RtTable K) (p : ℕ) (q : Option ℕ) (e : RtEntry K)
      → t.heap p ≡ some e
      → set_next t p q ≡ some (store t p (record e { next = q }))
  unfolding set_next
  set_next_of t p q e found = ap (λ o. o >>= λ e. some (store t p (record e { next = q }))) found
