-- ===== src/Philosophers/Spoons.antt =====
-- What the places of its two users say of a spoon, in every run.
use multithreading_bible.Common.{
  ℕ, ◌+◌, ◌≡◌, ◌≢◌, ◌<◌, Bool, true, false, not, ◌&&◌, ◌||◌, Option, none, some, ◌==◌,
  if◌then◌else◌, arith, refl, ap, sym, ◌∙◌, subst, ℕ_discrete,
}
use multithreading_bible.Philosophers.{
  n_philosopher, Spoon, Place, tries, waits, reaches, gives_back, eats, releases, releases_both,
  releases_right, Table, phil_get_right_spoon, start,
}

-- The philosopher whose right spoon it is.
unfoldable pub right_user : ℕ → ℕ
right_user s = if s == 4 then 0 else s + 1

pub right_user-right : (i : ℕ) → i < n_philosopher → right_user (phil_get_right_spoon i) ≡ i
unfolding right_user phil_get_right_spoon
right_user-right i lt = ground arith

pub right-right_user : (s : ℕ) → s < n_philosopher → phil_get_right_spoon (right_user s) ≡ s
unfolding right_user phil_get_right_spoon
right-right_user s lt = ground arith

pub right_lt : (i : ℕ) → i < n_philosopher → phil_get_right_spoon i < n_philosopher
unfolding phil_get_right_spoon
right_lt i lt = ground arith

pub right_user_lt : (s : ℕ) → s < n_philosopher → right_user s < n_philosopher
unfolding right_user
right_user_lt s lt = ground arith

pub right_ne : (i : ℕ) → i < n_philosopher → phil_get_right_spoon i ≢ i
unfolding phil_get_right_spoon
right_ne i lt = λ e. ground (arith, e)

pub right_user_ne : (s : ℕ) → s < n_philosopher → right_user s ≢ s
unfolding right_user
right_user_ne s lt = λ e. ground (arith, e)

pub right_user_apart : (i : ℕ) → i < n_philosopher → right_user i ≢ phil_get_right_spoon i
unfolding right_user phil_get_right_spoon
right_user_apart i lt = λ e. ground (arith, e)

-- What a philosopher has of its left and its right spoon, and the mutexes that it holds.
abbrev pub has_left : Place → Bool
has_left tries = false
has_left (waits b) = false
has_left reaches = true
has_left gives_back = true
has_left eats = true
has_left releases = true
has_left releases_both = true
has_left releases_right = false

abbrev pub has_right : Place → Bool
has_right tries = false
has_right (waits b) = false
has_right reaches = false
has_right gives_back = false
has_right eats = true
has_right releases = true
has_right releases_both = true
has_right releases_right = true

abbrev pub locks_left : Place → Bool
locks_left tries = false
locks_left (waits b) = false
locks_left reaches = false
locks_left gives_back = false
locks_left eats = false
locks_left releases = false
locks_left releases_both = true
locks_left releases_right = false

abbrev pub locks_right : Place → Bool
locks_right tries = false
locks_right (waits b) = false
locks_right reaches = false
locks_right gives_back = true
locks_right eats = false
locks_right releases = false
locks_right releases_both = false
locks_right releases_right = true

abbrev pub sleeps : Place → Bool
sleeps tries = false
sleeps (waits b) = not b
sleeps reaches = false
sleeps gives_back = false
sleeps eats = false
sleeps releases = false
sleeps releases_both = false
sleeps releases_right = false

abbrev pub user : Bool → Bool → ℕ → Option ℕ
user true r s = some s
user false true s = some (right_user s)
user false false s = none

-- Spoon `s`, from the flags of the philosopher on whose left it is and of the one on whose right.
abbrev pub spoon_of : ℕ → Bool → Bool → Bool → Bool → Spoon
spoon_of s l r ll lr = record { is_used = l || r; phil = user l r s; mutex = user ll lr s }

abbrev pub fits : Bool → Bool → Bool → Bool → Bool → Bool
fits asleep l r ll lr = not (l && r) && (not (ll && lr) && not (asleep && not r))

-- Not both have it, not both have its mutex, and who sleeps over it lets the other have it.
pub record Good (s : ℕ) (x : Spoon) (p q : Place) : Type 0 where
  pub spoon : x ≡ spoon_of s (has_left p) (has_right q) (locks_left p) (locks_right q)
  pub apart : fits (sleeps p) (has_left p) (has_right q) (locks_left p) (locks_right q) ≡ true

unfoldable pub Inv : Table → Type 0
Inv t = (s : ℕ) → s < n_philosopher → Good s (t.spoon s) (t.place s) (t.place (right_user s))

pub start-Inv : Inv start
unfolding start Inv
start-Inv s lt = record { spoon = refl; apart = refl }

-- A step of philosopher `i` changes its place and its two spoons, and may wake who waits for the
-- right one.
pub record Edit (t u : Table) (i : ℕ) (p p' : Place) (a b : Spoon) : Type 0 where
  pub left : u.spoon i ≡ a
  pub right : u.spoon (phil_get_right_spoon i) ≡ b
  pub spoons : (s : ℕ) → s ≢ i → s ≢ phil_get_right_spoon i → u.spoon s ≡ t.spoon s
  pub place : u.place i ≡ p
  pub waiter : u.place (phil_get_right_spoon i) ≡ p'
  pub places : (j : ℕ) → j ≢ i → j ≢ phil_get_right_spoon i → u.place j ≡ t.place j
  pub same_right : has_right p' ≡ has_right (t.place (phil_get_right_spoon i))
  pub same_lock : locks_right p' ≡ locks_right (t.place (phil_get_right_spoon i))

pub Good-same :
    (s : ℕ) {x : Spoon} {p q q' : Place}
    → has_right q' ≡ has_right q
    → locks_right q' ≡ locks_right q
    → Good s x p q
    → Good s x p q'
Good-same s {p = p} r l good = record { spoon = rw (r, l) good.spoon; apart = rw (r, l) good.apart }

pub Good-of_eq :
    (s : ℕ) {x x' : Spoon} {p p' q q' : Place}
    → x' ≡ x
    → p' ≡ p
    → q' ≡ q
    → Good s x p q
    → Good s x' p' q'
Good-of_eq s ex ep eq good = rw (ex, ep, eq) good

pub Edit-Inv :
    {t u : Table} (i : ℕ) {p p' : Place} {a b : Spoon}
    → i < n_philosopher
    → Inv t
    → Edit t u i p p' a b
    → Good i a p (t.place (right_user i))
    → Good (phil_get_right_spoon i) b p' p
    → Inv u
unfolding Inv
Edit-Inv {t = t} {u = u} i {p = p} {p' = p'} lt inv edit left_spoon right_spoon s sl =
    elim (ℕ_discrete s i) [
      | yes e ↦
          subst (λ s. Good s (u.spoon s) (u.place s) (u.place (right_user s))) (sym e)
            (Good-of_eq i edit.left edit.place
              (edit.places (right_user i) (right_user_ne i lt) (right_user_apart i lt)) left_spoon)
      | no ne ↦ elim (ℕ_discrete s (phil_get_right_spoon i)) [
        | yes e ↦
            subst (λ s. Good s (u.spoon s) (u.place s) (u.place (right_user s))) (sym e)
              (Good-of_eq (phil_get_right_spoon i) edit.right edit.waiter
                (ap u.place (right_user-right i lt) ∙ edit.place) right_spoon)
        | no ne' ↦
            let ne'' : right_user s ≢ i =
              λ e. ne' (sym (right-right_user s sl) ∙ ap phil_get_right_spoon e) in
            elim (ℕ_discrete (right_user s) (phil_get_right_spoon i)) [
              | yes e ↦
                  Good-same s
                    (ap has_right (ap u.place e ∙ edit.waiter)
                      ∙ edit.same_right
                      ∙ ap (λ j. has_right (t.place j)) (sym e))
                    (ap locks_right (ap u.place e ∙ edit.waiter)
                      ∙ edit.same_lock
                      ∙ ap (λ j. locks_right (t.place j)) (sym e))
                    (Good-of_eq s (edit.spoons s ne ne') (edit.places s ne ne') refl (inv s sl))
              | no ne''' ↦
                  Good-of_eq s (edit.spoons s ne ne') (edit.places s ne ne')
                    (edit.places (right_user s) ne'' ne''') (inv s sl)
            ]
      ]
    ]
