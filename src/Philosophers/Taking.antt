-- ===== src/Philosophers/Taking.antt =====
-- Taking spoons keeps them well.
use multithreading_bible.Common.{ℕ, ◌≡◌, ◌<◌, Bool, true, false, arith, refl, sym, subst}
use multithreading_bible.Philosophers.{
  n_philosopher, Place, waits, reaches, gives_back, eats, Table, Move, blocks, aborts, moves,
  phil_get_right_spoon, take_left, find_used, take_right,
}
use multithreading_bible.Philosophers.Spoons.{
  right_user, right_user-right, has_left, has_right, locks_left, locks_right, spoon_of, Inv,
  Edit-Inv,
}
use multithreading_bible.Philosophers.Edits.{
  Edit-place, Edit-left, Edit-right, keeps_right, right_other, right_user_other, Good-left,
  Good-right, left_is,
}

-- A move that fails no `assert`, and keeps the spoons well.
unfoldable pub Fine : Move → Type 0
Fine blocks = Unit
Fine aborts = true ≡ false
Fine (moves u) = Inv u

module _ (t : Table) (i : ℕ) (lt : i < n_philosopher) where
  abbrev right : ℕ
  right = phil_get_right_spoon i

  abbrev neighbour : Place
  neighbour = t.place (right_user i)

  -- The left spoon is free, or taken by the neighbour, who then has it.
  pub take_left-Fine :
      (p : Place)
      → Inv t
      → t.place i ≡ p
      → has_left p ≡ false
      → has_right p ≡ false
      → locks_left p ≡ false
      → locks_right p ≡ false
      → Fine (take_left t i (t.spoon i))
  unfolding Fine take_left
  take_left-Fine p inv at l r ll lr =
      subst (λ x. Fine (take_left t i x)) (sym (left_is t i lt inv at l ll)) (cases _ refl _ refl)
    where
      cases :
          (r' : Bool)
          → has_right neighbour ≡ r'
          → (lr' : Bool) → locks_right neighbour ≡ lr'
          → Fine (take_left t i (spoon_of i false r' false lr'))
      cases r' er true elr = tt
      cases true er false elr = rw ((right_user_other t i lt)) (
          Edit-Inv i lt inv (Edit-place t i lt (waits false))
            (record { spoon = left_is t i lt inv at l ll; apart = rw er refl })
            (keeps_right t i lt inv at (sym r) (sym lr)))
      cases false er false elr =
          Edit-Inv i lt inv (Edit-left t i lt _ reaches)
            (record { spoon = rw elr refl; apart = rw er refl })
            (keeps_right t i lt inv at (sym r) (sym lr))

  -- The right spoon is free, or the neighbour there has it as its left one.
  pub take_right-Fine : Inv t → t.place i ≡ reaches → Fine (take_right t i (t.spoon right))
  unfolding Fine take_right find_used
  take_right-Fine inv at =
      subst (λ x. Fine (take_right t i x)) (sym (Good-right t i lt inv at).spoon)
        (cases _ refl _ refl)
    where
      cases :
          (l' : Bool)
          → has_left (t.place right) ≡ l'
          → (ll' : Bool) → locks_left (t.place right) ≡ ll'
          → Fine (take_right t i (spoon_of right l' false ll' false))
      cases l' el true ell = tt
      cases true el false ell = rw (right_other t i lt) (
          Edit-Inv i lt inv (Edit-right t i lt _ gives_back)
            (record {
              spoon = (Good-left t i lt inv at).spoon;
              apart = (Good-left t i lt inv at).apart;
            })
            (record {
              spoon = rw (el, ell, right_user-right i lt) refl;
              apart = ground (arith, el, ell, (Good-right t i lt inv at).apart);
            }))
      cases false el false ell =
          Edit-Inv i lt inv (Edit-right t i lt _ eats)
            (record {
              spoon = (Good-left t i lt inv at).spoon;
              apart = (Good-left t i lt inv at).apart;
            })
            (record {
              spoon = rw (el, ell, right_user-right i lt) refl;
              apart = ground (arith, el, ell);
            })
