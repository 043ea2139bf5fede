-- ===== src/Nfc/Removal.antt =====
-- `rt_entry_remove` takes one entry out of the doubly linked list.
use mathlib.Core.List.{append-nil}
use multithreading_bible.Common.{
  ℕ, ◌≡◌, ◌<◌, Option, none, some, [], ◌∷◌, ◌++◌, arith, refl, sym, ap, ◌∙◌, subst,
}
use multithreading_bible.Common.Options.{◌>>=◌}
use multithreading_bible.Common.Sums.{put}
use multithreading_bible.Sync.Change.{put_self, put_ne}
use multithreading_bible.Nfc.{Row, RtEntry, RtTable, store, set_prev, set_next, rt_entry_remove}
use multithreading_bible.Nfc.Links.{
  first, last, Falls, Above, Above-last, Falls-le, Above-le, Falls-split, Falls-append_left, Heap,
  Rows, entry, Linked, Linked-split, Linked-join, Linked-Above, Linked-Falls,
}
use multithreading_bible.Nfc.Relink.{relink_last, relink_first, set_prev_of, set_next_of}

-- The entry at `a` is out of the list `l`, and not freed yet.
pub record Removed {K : Type 0} (t u : RtTable K) (a : ℕ) (r : Row K) (l : Rows K) : Type 0 where
  pub headed : u.head ≡ first l none
  pub linked : Linked u.heap none l none
  pub old : RtEntry K
  pub found : u.heap a ≡ some old
  pub content : old.row ≡ r
  pub same_fresh : u.fresh ≡ t.fresh
  pub same_notified : u.notified ≡ t.notified

module _ {K : Type 0} where
  -- The code with the entry's links read.
  unlink : RtTable K → ℕ → Option ℕ → Option ℕ → Option (RtTable K)
  unlink t a prev next = elim prev [
    | none ↦ elim next [
      | none ↦ some (record t { head = none })
      | some n ↦ set_prev t n none >>= λ u. set_next (record u { head = some n }) a none
    ]
    | some p ↦ elim next [
      | none ↦ set_next t p none >>= λ u. set_prev u a none
      | some n ↦ set_next t p (some n) >>= λ u.
          set_prev u n (some p) >>= λ v. set_prev v a none >>= λ w. set_next w a none
    ]
  ]

  remove_unlinks :
      (t : RtTable K) (a : ℕ) (r : Row K) (prev next : Option ℕ)
      → t.heap a ≡ some (entry r prev next)
      → rt_entry_remove t a ≡ unlink t a prev next
  unfolding rt_entry_remove unlink
  remove_unlinks t a r prev next found = ap (λ o. o >>= λ e. unlink t a e.prev e.next) found

  -- Writes to the removed entry itself.
  pub beside :
      (h : Heap K) (before mid after : Option ℕ) (a : ℕ) (c : Option (RtEntry K)) (xs ys : Rows K)
      → Above a xs
      → Falls a ys
      → Linked h before xs after × Linked h mid ys none
      → Linked (put h a c) before xs after × Linked (put h a c) mid ys none
  beside h before mid after a c xs ys above falls k =
      (Linked-Above h before after a c xs above k.0, Linked-Falls h mid none a c ys falls k.1)

  module _ (t : RtTable K) (a : ℕ) (r : Row K) where
    unlink_first :
        (n : ℕ) (s : Row K) (ys : Rows K)
        → t.heap a ≡ some (entry r none (some n))
        → Falls a ((n, s) ∷ ys)
        → Linked t.heap (some a) ((n, s) ∷ ys) none
        → (u : RtTable K) × (unlink t a none (some n) ≡ some u) × Removed t u a r ((n, s) ∷ ys)
    unfolding unlink
    unlink_first n s ys found falls k =
        let u : RtTable K = store t n (entry s none (first ys none)) in
        let v : RtTable K = record u { head = some n } in
        let there : v.heap a ≡ some (entry r none (some n)) =
          put_ne t.heap n _ a (λ e. omega (arith, falls.0)) ∙ found in
        let linked : Linked u.heap none ((n, s) ∷ ys) none =
          relink_first t.heap (some a) none none n s ys falls.1 k in
        (
          store v a (entry r none none),
          ap (λ o. o >>= λ u. set_next (record u { head = some n }) a none)
                (set_prev_of t n none (entry s (some a) (first ys none)) k.0)
              ∙ set_next_of v a none (entry r none (some n)) there,
          record {
            headed = refl;
            linked = Linked-Falls u.heap none none a _ ((n, s) ∷ ys) falls linked;
            old = entry r none none;
            found = put_self u.heap a _;
            content = refl;
            same_fresh = refl;
            same_notified = refl;
          },
        )

    unlink_last :
        (b : ℕ) (s : Row K) (xs : Rows K)
        → t.head ≡ some b
        → t.heap a ≡ some (entry r (last (some b) xs) none)
        → Falls b xs
        → (a < b) × Above a xs
        → Linked t.heap none ((b, s) ∷ xs) (some a)
        → (u : RtTable K) × (unlink t a (last (some b) xs) none ≡ some u)
          × Removed t u a r ((b, s) ∷ xs)
    unfolding unlink
    unlink_last b s xs headed found falls above k =
        let p = relink_last t.heap none (some a) none b s xs falls k in
        let below : a < p.at = Above-last a b p.at xs p.is_last above.0 above.1 in
        let u : RtTable K = store t p.at (record p.old { next = none }) in
        let there : u.heap a ≡ some (entry r (last (some b) xs) none) =
          put_ne t.heap p.at _ a (λ e. omega (arith, below)) ∙ found in
        (
          store u a (entry r none none),
          ap (λ o. unlink t a o none) p.is_last
              ∙ ap (λ o. o >>= λ u. set_prev u a none) (set_next_of t p.at none p.old p.found)
              ∙ set_prev_of u a none (entry r (last (some b) xs) none) there,
          record {
            headed = headed;
            linked = Linked-Above u.heap none none a _ ((b, s) ∷ xs) above p.relinked;
            old = entry r none none;
            found = put_self u.heap a _;
            content = refl;
            same_fresh = refl;
            same_notified = refl;
          },
        )

    -- The writes after the first one, where the entry has neighbours `p` and `n`.
    unlink_rest :
        (u : RtTable K) (p n : ℕ) (s' : Row K) (xs ys : Rows K)
        → u.heap a ≡ some (entry r (some p) (some n))
        → Above a xs
        → Falls a ((n, s') ∷ ys)
        → last none xs ≡ some p
        → Linked u.heap none xs (some n)
        → Linked u.heap (some a) ((n, s') ∷ ys) none
        → let w =
            store
              (store (store u n (entry s' (some p) (first ys none))) a (entry r none (some n)))
              a
              (entry r none none) in
          ((set_prev u n (some p) >>= λ v. set_prev v a none >>= λ w. set_next w a none) ≡ some w)
          × Linked w.heap none (xs ++ ((n, s') ∷ ys)) none
    unlink_rest u p n s' xs ys found above below is_last left right =
        let v : RtTable K = store u n (entry s' (some p) (first ys none)) in
        let w : RtTable K = store v a (entry r none (some n)) in
        let above_n : Above n xs = Above-le a n xs (omega (arith, below.0)) above in
        let right_v : Linked v.heap (some p) ((n, s') ∷ ys) none =
          relink_first u.heap (some a) (some p) none n s' ys below.1 right in
        let left_v : Linked v.heap none xs (some n) =
          Linked-Above u.heap none (some n) n _ xs above_n left in
        let there : v.heap a ≡ some (entry r (some p) (some n)) =
          put_ne u.heap n _ a (λ e. omega (arith, below.0)) ∙ found in
        let both =
          beside v.heap none (some p) (some n) a (some (entry r none (some n))) xs ((n, s') ∷ ys)
            above below (left_v, right_v) in
        let both' =
          beside w.heap none (some p) (some n) a (some (entry r none none)) xs ((n, s') ∷ ys) above
            below both in
        (
          ap (λ o. o >>= λ v. set_prev v a none >>= λ w. set_next w a none)
                (set_prev_of u n (some p) (entry s' (some a) (first ys none)) right.0)
              ∙ ap (λ o. o >>= λ w. set_next w a none)
                  (set_prev_of v a none (entry r (some p) (some n)) there)
              ∙ set_next_of w a none (entry r none (some n)) (put_self v.heap a _),
          Linked-join _ none none xs ((n, s') ∷ ys) both'.0 (
              subst (λ q. Linked (put w.heap a (some (entry r none none))) q ((n, s') ∷ ys) none)
                (sym is_last) both'.1),
        )

    unlink_middle :
        (b : ℕ) (s : Row K) (xs : Rows K) (n : ℕ) (s' : Row K) (ys : Rows K)
        → t.head ≡ some b
        → t.heap a ≡ some (entry r (last (some b) xs) (some n))
        → Falls b xs
        → (a < b) × Above a xs
        → Falls a ((n, s') ∷ ys)
        → Linked t.heap none ((b, s) ∷ xs) (some a)
        → Linked t.heap (some a) ((n, s') ∷ ys) none
        → (u : RtTable K) × (unlink t a (last (some b) xs) (some n) ≡ some u)
          × Removed t u a r (((b, s) ∷ xs) ++ ((n, s') ∷ ys))
    unfolding unlink
    unlink_middle b s xs n s' ys headed found falls above below left right =
        let p = relink_last t.heap none (some a) (some n) b s xs falls left in
        let under : a < p.at = Above-last a b p.at xs p.is_last above.0 above.1 in
        let u : RtTable K = store t p.at (record p.old { next = some n }) in
        let right_u : Linked u.heap (some a) ((n, s') ∷ ys) none =
          Linked-Falls t.heap (some a) none p.at (some (record p.old { next = some n }))
            ((n, s') ∷ ys) (Falls-le a p.at ((n, s') ∷ ys) (omega arith) below) right in
        let there : u.heap a ≡ some (entry r (some p.at) (some n)) =
          put_ne t.heap p.at _ a (λ e. omega (arith, under))
          ∙ found
          ∙ ap (λ o. some (entry r o (some n))) p.is_last in
        let (writes, linked) =
          unlink_rest u p.at n s' ((b, s) ∷ xs) ys there above below p.is_last p.relinked right_u in
        let w : RtTable K =
          store (store u n (entry s' (some p.at) (first ys none))) a (entry r none (some n)) in
        (
          store w a (entry r none none),
          ap (λ o. unlink t a o (some n)) p.is_last
              ∙ ap
                  (λ o. o >>= λ u.
                    set_prev u n (some p.at) >>= λ v. set_prev v a none >>= λ w. set_next w a none)
                  (set_next_of t p.at (some n) p.old p.found)
              ∙ writes,
          record {
            headed = headed;
            linked = linked;
            old = entry r none none;
            found = put_self w.heap a _;
            content = refl;
            same_fresh = refl;
            same_notified = refl;
          },
        )

    -- Whatever neighbours it has, the entry is taken out, and the list of the others is linked.
    pub removal :
        (m : ℕ) (xs ys : Rows K)
        → t.head ≡ first (xs ++ ((a, r) ∷ ys)) none
        → Falls m (xs ++ ((a, r) ∷ ys))
        → Linked t.heap none (xs ++ ((a, r) ∷ ys)) none
        → (u : RtTable K) × (rt_entry_remove t a ≡ some u) × Removed t u a r (xs ++ ys)
    unfolding unlink
    removal m [] [] headed falls k = (
      record t { head = none },
      remove_unlinks t a r none none k.0,
      record {
        headed = refl;
        linked = tt;
        old = entry r none none;
        found = k.0;
        content = refl;
        same_fresh = refl;
        same_notified = refl;
      },
    )
    removal m [] ((n, s) ∷ ys) headed falls k =
        let (u, e, out) = unlink_first n s ys k.0 falls.1 k.1 in
        (u, remove_unlinks t a r none (some n) k.0 ∙ e, out)
    removal m ((b, s) ∷ xs) [] headed falls k =
        let (lt, above, below) = Falls-split m a r ((b, s) ∷ xs) [] falls in
        let (left, right) = Linked-split t.heap none none ((b, s) ∷ xs) ((a, r) ∷ []) k in
        let (u, e, out) =
          unlink_last b s xs headed right.0 (Falls-append_left b xs ((a, r) ∷ []) falls.1) above
            left in
        (
          u,
          remove_unlinks t a r (last (some b) xs) none right.0 ∙ e,
          subst (Removed t u a r) (sym (append-nil ((b, s) ∷ xs))) out,
        )
    removal m ((b, s) ∷ xs) ((n, s') ∷ ys) headed falls k =
        let (lt, above, below) = Falls-split m a r ((b, s) ∷ xs) ((n, s') ∷ ys) falls in
        let (left, right) = Linked-split t.heap none none ((b, s) ∷ xs) ((a, r) ∷ (n, s') ∷ ys) k in
        let (u, e, out) =
          unlink_middle b s xs n s' ys headed right.0
            (Falls-append_left b xs ((a, r) ∷ (n, s') ∷ ys) falls.1) above below left right.1 in
        (u, remove_unlinks t a r (last (some b) xs) (some n) right.0 ∙ e, out)
