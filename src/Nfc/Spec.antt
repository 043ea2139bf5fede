-- ===== src/Nfc/Spec.antt =====
-- What the routing table promises: rows, the last added first, and the callbacks made.
use mathlib.Core.List.{map}
use multithreading_bible.Common.{
  ℕ, ◌≡◌, Bool, true, false, ◌||◌, Option, none, some, List, [], ◌∷◌, ◌++◌, is_set, if◌then◌else◌,
  arith, refl,
}
use multithreading_bible.Nfc.{
  NfcOp, nfc_add, nfc_mod, nfc_del, Nfce, Notif, Row, matches, set_data, new_row,
}

pub record Table (K : Type 0) : Type 0 where
  pub rows : List (Row K)
  pub notified : List (Notif (Row K))

module _ {K : Type 0} where
  abbrev pub called : NfcOp → Row K → Nfce → Notif (Row K)
  called op row s = record { app_cb = s.app_cb; arg = row; nfc_op_code = op; subs_id = s.subs_id }

  -- Every subscriber of the row is called with it, the last to subscribe first.
  unfoldable pub calls : NfcOp → Row K → List (Notif (Row K))
  calls op row = map (called op row) row.nfc

  module _ (hits : Row K → Bool) where
    -- The first row that is looked for; what becomes of the rows when it changes or goes.
    unfoldable pub find : List (Row K) → Option (Row K)
    find [] = none
    find (r ∷ rows) = if hits r then some r else find rows

    unfoldable pub change : (Row K → Row K) → List (Row K) → List (Row K)
    change f [] = []
    change f (r ∷ rows) = if hits r then f r ∷ rows else r ∷ change f rows

    unfoldable pub delete : List (Row K) → List (Row K)
    delete [] = []
    delete (r ∷ rows) = if hits r then rows else r ∷ delete rows

    pub find-hit :
        (xs ys : List (Row K)) (r : Row K)
        → find xs ≡ none
        → hits r ≡ true
        → find (xs ++ (r ∷ ys)) ≡ some r
    unfolding find
    find-hit [] ys r miss hit = rw hit refl
    find-hit (x ∷ xs) ys r miss hit = ground (arith, find-hit xs ys r)

    pub change-hit :
        (f : Row K → Row K) (xs ys : List (Row K)) (r : Row K)
        → find xs ≡ none
        → hits r ≡ true
        → change f (xs ++ (r ∷ ys)) ≡ xs ++ (f r ∷ ys)
    unfolding find change
    change-hit f [] ys r miss hit = rw hit refl
    change-hit f (x ∷ xs) ys r miss hit = ground (arith, change-hit f xs ys r)

    pub delete-hit :
        (xs ys : List (Row K)) (r : Row K)
        → find xs ≡ none
        → hits r ≡ true
        → delete (xs ++ (r ∷ ys)) ≡ xs ++ ys
    unfolding find delete
    delete-hit [] ys r miss hit = rw hit refl
    delete-hit (x ∷ xs) ys r miss hit = ground (arith, delete-hit xs ys r)

    pub find-first : (rows : List (Row K)) (r : Row K) → hits r ≡ true → find (r ∷ rows) ≡ some r
    unfolding find
    find-first rows r hit = rw hit refl

    -- A change that does not touch what is looked for.
    pub find-change :
        (f : Row K → Row K) (rows : List (Row K)) (r : Row K)
        → ((q : Row K) → hits (f q) ≡ hits q)
        → find rows ≡ some r
        → find (change f rows) ≡ some (f r)
    unfolding find change
    find-change f [] r same e = cc
    find-change f (q ∷ rows) r same e = ground (arith, same q, find-change f rows r same)

-- What each operation does to the table.
module _ {S K : Type 0} (strncmp : ℕ → K → S → Bool) where
  unfoldable pub remove_row : Table K → S → ℕ → Bool × Table K
  remove_row tb dest mask = elim (find (matches strncmp dest mask) tb.rows) [
    | none ↦ (false, tb)
    | some row ↦ (
      true,
      record {
        rows = delete (matches strncmp dest mask) tb.rows;
        notified = tb.notified ++ calls nfc_del row;
      },
    )
  ]

  module _ (strncpy : ℕ → S → K) (zeroed : K) where
    -- A row changes where it stands, or a new one comes first; who gives data tells the subscribers.
    unfoldable pub add_or_update : Table K → S → ℕ → Option S → Option S → Table K
    add_or_update tb dest mask gw_ip oif =
        let set = λ (r : Row K). set_data strncmp strncpy zeroed r gw_ip oif in
        let tells = λ (r : Row K).
          if is_set gw_ip || is_set oif then tb.notified ++ calls nfc_mod r else tb.notified in
        elim (find (matches strncmp dest mask) tb.rows) [
          | none ↦
              let row = set (new_row strncmp strncpy zeroed dest mask) in
              record { rows = row ∷ tb.rows; notified = tells row }
          | some row ↦ record {
            rows = change (matches strncmp dest mask) set tb.rows;
            notified = tells (set row);
          }
        ]

    -- A subscriber to a row that is there is told at once; one to a new row is not.
    unfoldable pub subscribe : Table K → S → ℕ → Nfce → Table K
    subscribe tb dest mask s =
        let add = λ (r : Row K). record r { nfc = s ∷ r.nfc } in
        elim (find (matches strncmp dest mask) tb.rows) [
          | none ↦ record tb { rows = add (new_row strncmp strncpy zeroed dest mask) ∷ tb.rows }
          | some row ↦ record {
            rows = change (matches strncmp dest mask) add tb.rows;
            notified = tb.notified ++ (called nfc_add (add row) s ∷ []);
          }
        ]
