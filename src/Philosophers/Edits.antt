-- ===== src/Philosophers/Edits.antt =====
-- What a step changes, and what the spoons were before it.
use multithreading_bible.Common.{
  ℕ, ◌≡◌, ◌≢◌, ◌<◌, Bool, true, false, ◌==◌, arith, refl, ap, sym, ◌∙◌, subst, ==_iff,
}
use multithreading_bible.Common.Sums.{put}
use multithreading_bible.Sync.Change.{put_self, put_ne}
use multithreading_bible.Philosophers.{
  n_philosopher, Spoon, Place, tries, waits, reaches, gives_back, eats, releases, releases_both,
  releases_right, Table, phil_get_right_spoon, wake, comes_to, set_spoon, cond_signal,
}
use multithreading_bible.Philosophers.Spoons.{
  right_user, right_user-right, right_lt, right_ne, right_user_ne, has_left, has_right, locks_left,
  locks_right, spoon_of, Good, Good-same, Inv, Edit,
}

has_right-wake : (p : Place) → has_right (wake p) ≡ has_right p
unfolding wake
has_right-wake tries = refl
has_right-wake (waits b) = refl
has_right-wake reaches = refl
has_right-wake gives_back = refl
has_right-wake eats = refl
has_right-wake releases = refl
has_right-wake releases_both = refl
has_right-wake releases_right = refl

locks_right-wake : (p : Place) → locks_right (wake p) ≡ locks_right p
unfolding wake
locks_right-wake tries = refl
locks_right-wake (waits b) = refl
locks_right-wake reaches = refl
locks_right-wake gives_back = refl
locks_right-wake eats = refl
locks_right-wake releases = refl
locks_right-wake releases_both = refl
locks_right-wake releases_right = refl

module _ (t : Table) (i : ℕ) (lt : i < n_philosopher) where
  abbrev pub right : ℕ
  right = phil_get_right_spoon i

  abbrev pub neighbour : Place
  neighbour = t.place (right_user i)

  pub left_ne : i ≢ right
  left_ne e = right_ne i lt (sym e)

  Edit-spoons :
      {a b : Spoon} (f : ℕ → Spoon) (p : Place)
      → f i ≡ a
      → f right ≡ b
      → ((s : ℕ) → s ≢ i → s ≢ right → f s ≡ t.spoon s)
      → Edit t (record (comes_to t i p) { spoon = f }) i p (t.place right) a b
  Edit-spoons f p ea eb same = record {
    left = ea;
    right = eb;
    spoons = same;
    place = put_self t.place i p;
    waiter = put_ne t.place i p right (right_ne i lt);
    places = λ j ne ne'. put_ne t.place i p j ne;
    same_right = refl;
    same_lock = refl;
  }

  -- The place alone changes, or the left spoon, the right one, or both.
  pub Edit-place :
      (p : Place) → Edit t (comes_to t i p) i p (t.place right) (t.spoon i) (t.spoon right)
  Edit-place p = Edit-spoons t.spoon p refl refl (λ s ne ne'. refl)

  pub Edit-left :
      (a : Spoon) (p : Place)
      → Edit t (comes_to (set_spoon t i a) i p) i p (t.place right) a (t.spoon right)
  Edit-left a p =
      Edit-spoons (put t.spoon i a) p (put_self t.spoon i a)
        (put_ne t.spoon i a right (right_ne i lt)) (λ s ne ne'. put_ne t.spoon i a s ne)

  pub Edit-right :
      (b : Spoon) (p : Place)
      → Edit t (comes_to (set_spoon t right b) i p) i p (t.place right) (t.spoon i) b
  Edit-right b p =
      Edit-spoons (put t.spoon right b) p (put_ne t.spoon right b i left_ne)
        (put_self t.spoon right b) (λ s ne ne'. put_ne t.spoon right b s ne')

  pub Edit-both :
      (a b : Spoon) (p : Place)
      → Edit t (comes_to (set_spoon (set_spoon t i a) right b) i p) i p (t.place right) a b
  Edit-both a b p =
      Edit-spoons (put (put t.spoon i a) right b) p
        (put_ne (put t.spoon i a) right b i left_ne ∙ put_self t.spoon i a)
        (put_self (put t.spoon i a) right b)
        (λ s ne ne'. put_ne (put t.spoon i a) right b s ne' ∙ put_ne t.spoon i a s ne)

  -- The signal for the left spoon wakes nobody but the philosopher itself.
  pub Edit-signalled :
      (a b : Spoon) (p : Place)
      → Edit t
          (comes_to (cond_signal (set_spoon (set_spoon t i a) right b) i) i p)
          i
          p
          (t.place right)
          a
          b
  Edit-signalled a b p =
      let edit = Edit-both a b p in
      let f : ℕ → Place = put t.place i (wake (t.place i)) in
      record {
        left = edit.left;
        right = edit.right;
        spoons = edit.spoons;
        place = put_self f i p;
        waiter = put_ne f i p right (right_ne i lt) ∙ put_ne t.place i _ right (right_ne i lt);
        places = λ j ne ne'. put_ne f i p j ne ∙ put_ne t.place i _ j ne;
        same_right = refl;
        same_lock = refl;
      }

  -- That for the right one wakes the neighbour.
  pub Edit-woken :
      (b : Spoon) (p : Place)
      → Edit t
          (comes_to (cond_signal (set_spoon t right b) right) i p)
          i
          p
          (wake (t.place right))
          (t.spoon i)
          b
  Edit-woken b p =
      let edit = Edit-right b p in
      let f : ℕ → Place = put t.place right (wake (t.place right)) in
      record {
        left = edit.left;
        right = edit.right;
        spoons = edit.spoons;
        place = put_self f i p;
        waiter = put_ne f i p right (right_ne i lt) ∙ put_self t.place right _;
        places = λ j ne ne'. put_ne f i p j ne ∙ put_ne t.place right _ j ne';
        same_right = has_right-wake (t.place right);
        same_lock = locks_right-wake (t.place right);
      }

  module _ (inv : Inv t) {p : Place} (at : t.place i ≡ p) where
    pub Good-left : Good i (t.spoon i) p neighbour
    unfolding Inv
    Good-left = subst (λ p. Good i (t.spoon i) p neighbour) at (inv i lt)

    pub Good-right : Good right (t.spoon right) (t.place right) p
    unfolding Inv
    Good-right =
        subst (λ p. Good right (t.spoon right) (t.place right) p)
          (ap t.place (right_user-right i lt) ∙ at) (inv right (right_lt i lt))

    pub left_is :
        {l ll : Bool}
        → has_left p ≡ l
        → locks_left p ≡ ll
        → t.spoon i ≡ spoon_of i l (has_right neighbour) ll (locks_right neighbour)
    left_is {l} el ell =
        Good-left.spoon
        ∙ ap (λ l. spoon_of i l (has_right neighbour) (locks_left p) (locks_right neighbour)) el
        ∙ ap (λ ll. spoon_of i l (has_right neighbour) ll (locks_right neighbour)) ell

    -- The right spoon and its mutex are as before for its other user.
    pub keeps_right :
        {p' : Place}
        → has_right p' ≡ has_right p
        → locks_right p' ≡ locks_right p
        → Good right (t.spoon right) (t.place right) p'
    keeps_right r l = Good-same right r l Good-right

  pub self : (i == i) ≡ true
  self = (==_iff i i).1 refl

  pub right_other : (right == i) ≡ false
  right_other = ground (arith, right_ne i lt)

  pub right_user_other : (right_user i == i) ≡ false
  right_user_other = ground (arith, right_user_ne i lt)
