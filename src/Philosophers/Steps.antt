-- ===== src/Philosophers/Steps.antt =====
-- Each step of a philosopher keeps the spoons well, and fails no `assert`.
use multithreading_bible.Common.{
  ℕ, ◌+◌, ◌≡◌, ◌<◌, Bool, Bool-cases, inl, inr, true, false, none, is_set, arith, refl, sym, subst,
}
use multithreading_bible.Common.Sums.{put}
use multithreading_bible.Philosophers.{
  n_philosopher, is_held_by, Place, tries, waits, reaches, gives_back, eats, releases,
  releases_both, releases_right, Table, phil_get_right_spoon, wake, comes_to, give_left_back,
  phil_eat, lock_left, release_left, release_right, philosopher_fn, Step, acts, spurious, Reach,
  here, next, start,
}
use multithreading_bible.Philosophers.Spoons.{
  right_user, right_user-right, has_left, has_right, locks_left, locks_right, sleeps, fits,
  spoon_of, Good, Inv, start-Inv, Edit, Edit-Inv,
}
use multithreading_bible.Philosophers.Edits.{
  Edit-place, Edit-left, Edit-both, Edit-signalled, Edit-woken, self, Good-left, Good-right,
  left_is,
}
use multithreading_bible.Philosophers.Taking.{Fine, take_left-Fine, take_right-Fine}

module _ (t : Table) (i : ℕ) (lt : i < n_philosopher) where
  abbrev right : ℕ
  right = phil_get_right_spoon i

  abbrev neighbour : Place
  neighbour = t.place (right_user i)

  -- The neighbour whose right spoon it is does not have it.
  give_left_back-Fine :
      Inv t → t.place i ≡ gives_back → Fine (give_left_back t i (t.spoon i) (t.spoon right))
  unfolding Fine give_left_back
  give_left_back-Fine inv at =
      subst (λ x. Fine (give_left_back t i x (t.spoon right))) (sym (Good-left t i lt inv at).spoon)
        (cases _ refl)
    where
      cases :
          (lr' : Bool)
          → locks_right neighbour ≡ lr'
          → Fine
              (give_left_back t i (spoon_of i true (has_right neighbour) false lr') (t.spoon right))
      cases true elr = tt
      cases false elr = rw (self t i lt) (
          Edit-Inv i lt inv (Edit-both t i lt _ _ tries)
            (record {
              spoon = ground (arith, elr, (Good-left t i lt inv at).apart);
              apart = ground (arith, elr);
            })
            (record {
              spoon =
                  ground
                    (arith, (Good-right t i lt inv at).spoon, (Good-right t i lt inv at).apart);
              apart = ground (arith, (Good-right t i lt inv at).apart);
            }))

  -- Who has come to have both spoons holds them.
  pub holds_left :
      (inv : Inv t) {p : Place}
      → t.place i ≡ p
      → has_left p ≡ true
      → is_held_by (t.spoon i) i ≡ true
  holds_left inv at l = rw (left_is t i lt inv at l refl, (self t i lt)) refl

  pub holds_right :
      (inv : Inv t) {p : Place}
      → t.place i ≡ p
      → has_right p ≡ true
      → is_held_by (t.spoon right) i ≡ true
  holds_right inv at r =
      let good = Good-right t i lt inv at in
      let free : has_left (t.place right) ≡ false = ground (arith, good.apart, r) in
      rw (good.spoon, free, r, right_user-right i lt, (self t i lt)) refl

  phil_eat-Fine : Inv t → t.place i ≡ eats → Fine (phil_eat t i (t.spoon i) (t.spoon right))
  unfolding Fine phil_eat
  phil_eat-Fine inv at =
      rw (holds_left inv at refl, holds_right inv at refl)
        (Edit-Inv i lt inv (eats_place)
          (record {
            spoon = (Good-left t i lt inv at).spoon;
            apart = (Good-left t i lt inv at).apart;
          })
          (record {
            spoon = (Good-right t i lt inv at).spoon;
            apart = (Good-right t i lt inv at).apart;
          }))
    where
      eats_place :
          Edit t
            (record (comes_to t i releases) { eat_count = put t.eat_count i (t.eat_count i + 1) })
            i
            releases
            (t.place right)
            (t.spoon i)
            (t.spoon right)
      eats_place =
          let edit = Edit-place t i lt releases in
          record {
            left = refl;
            right = refl;
            spoons = edit.spoons;
            place = edit.place;
            waiter = edit.waiter;
            places = edit.places;
            same_right = refl;
            same_lock = refl;
          }

  lock_left-Fine : Inv t → t.place i ≡ releases → Fine (lock_left t i (t.spoon i))
  unfolding Fine lock_left
  lock_left-Fine inv at =
      subst (λ x. Fine (lock_left t i x)) (sym (Good-left t i lt inv at).spoon) (cases _ refl)
    where
      cases :
          (lr' : Bool)
          → locks_right neighbour ≡ lr'
          → Fine (lock_left t i (spoon_of i true (has_right neighbour) false lr'))
      cases true elr = tt
      cases false elr =
          Edit-Inv i lt inv (Edit-left t i lt _ releases_both)
            (record { spoon = refl; apart = ground (arith, elr, (Good-left t i lt inv at).apart) })
            (record {
              spoon = (Good-right t i lt inv at).spoon;
              apart = (Good-right t i lt inv at).apart;
            })

  -- Both spoons are its own, and the left one is free again.
  release_left-Fine :
      Inv t → t.place i ≡ releases_both → Fine (release_left t i (t.spoon i) (t.spoon right))
  unfolding Fine release_left
  release_left-Fine inv at = elim (Bool-cases (is_set (t.spoon right).mutex)) [
    | inl e ↦ rw e tt
    | inr e ↦
        rw (e, holds_left inv at refl, holds_right inv at refl)
          (Edit-Inv i lt inv (Edit-signalled t i lt _ _ releases_right)
            (record {
              spoon = ground (arith, (Good-left t i lt inv at).apart);
              apart = ground (arith, (Good-left t i lt inv at).apart);
            })
            (record {
              spoon = ground (
                arith,
                (Good-right t i lt inv at).spoon,
                (Good-right t i lt inv at).apart,
                e,
                right_user-right i lt,
              );
              apart =
                  ground
                    (arith, (Good-right t i lt inv at).spoon, (Good-right t i lt inv at).apart, e);
            }))
  ]

  release_right-Fine : Inv t → t.place i ≡ releases_right → Fine (release_right t i (t.spoon right))
  unfolding Fine release_right wake
  release_right-Fine inv at =
      Edit-Inv i lt inv (Edit-woken t i lt _ tries)
        (record {
          spoon = (Good-left t i lt inv at).spoon;
          apart = (Good-left t i lt inv at).apart;
        })
        (woken_free (t.place right) (Good-right t i lt inv at).apart)
    where
      woken_free :
          (p : Place)
          → fits (sleeps p) (has_left p) true (locks_left p) true ≡ true
          → Good right (record { is_used = false; phil = none; mutex = none }) (wake p) tries
      woken_free tries e = record { spoon = refl; apart = refl }
      woken_free (waits b) e = record { spoon = refl; apart = refl }
      woken_free releases_right e = record { spoon = refl; apart = refl }
      woken_free reaches e = cc
      woken_free gives_back e = cc
      woken_free eats e = cc
      woken_free releases e = cc
      woken_free releases_both e = cc

  pub philosopher_fn-Fine : Inv t → Fine (philosopher_fn t i)
  unfolding Fine philosopher_fn
  philosopher_fn-Fine inv = cases (t.place i) refl
    where
      cases : (p : Place) → t.place i ≡ p → Fine (philosopher_fn t i)
      cases tries at = rw (Fine, at) (take_left-Fine t i lt tries inv at refl refl refl refl)
      cases (waits true) at =
          rw (Fine, at) (take_left-Fine t i lt (waits true) inv at refl refl refl refl)
      cases (waits false) at = rw (Fine, at) tt
      cases reaches at = rw (Fine, at) (take_right-Fine t i lt inv at)
      cases gives_back at = rw (Fine, at) (give_left_back-Fine inv at)
      cases eats at = rw (Fine, at) (phil_eat-Fine inv at)
      cases releases at = rw (Fine, at) (lock_left-Fine inv at)
      cases releases_both at = rw (Fine, at) (release_left-Fine inv at)
      cases releases_right at = rw (Fine, at) (release_right-Fine inv at)

  spurious-Inv : Inv t → t.place i ≡ waits false → Inv (comes_to t i (waits true))
  spurious-Inv inv at =
      Edit-Inv i lt inv (Edit-place t i lt (waits true))
        (record {
          spoon = (Good-left t i lt inv at).spoon;
          apart = ground (arith, (Good-left t i lt inv at).apart);
        })
        (record {
          spoon = (Good-right t i lt inv at).spoon;
          apart = (Good-right t i lt inv at).apart;
        })

Step-Inv : {t u : Table} → Step t u → Inv t → Inv u
unfolding Fine Inv
Step-Inv {t = t} (acts i lt e) inv = subst Fine e (philosopher_fn-Fine t i lt inv)
Step-Inv {t = t} (spurious i lt at e) inv = subst Inv (sym e) (spurious-Inv t i lt inv at)

pub Reach-Inv : {t : Table} → Reach start t → Inv t
Reach-Inv here = start-Inv
Reach-Inv (next reach step) = Step-Inv step (Reach-Inv reach)
