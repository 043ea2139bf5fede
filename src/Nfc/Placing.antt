-- ===== src/Nfc/Placing.antt =====
-- What becomes of the linked rows when one changes in place, or a new one comes to the head.
use mathlib.Core.List.{map-append}
use multithreading_bible.Common.{
  ℕ, ◌+◌, ◌≡◌, Bool, true, false, none, some, List, [], ◌∷◌, ◌++◌, arith, refl, sym, ap, ◌∙◌, subst,
  if◌then◌else◌,
}
use multithreading_bible.Common.Options.{◌>>=◌}
use multithreading_bible.Common.Sums.{put}
use multithreading_bible.Sync.Change.{put_self, put_ne}
use multithreading_bible.Nfc.{nfc_mod, Notif, Row, RtEntry, RtTable, tell, link, store, set_prev}
use multithreading_bible.Nfc.Links.{
  first, last, Rows, entry, Falls, Falls-replace, first-replace, Falls-le, Linked, Linked-Falls,
  Linked-update,
}
use multithreading_bible.Nfc.Spec.{Table, calls}
use multithreading_bible.Nfc.Lookup.{contents}
use multithreading_bible.Nfc.Refines.{Represents, notify-calls}

-- A table that represents rows, with one of its linked entries.
pub record Located {K : Type 0} (t : RtTable K) (tb : Table K) (a : ℕ) (r : Row K) (xs ys : Rows K)
    : Type 0 where
  pub rep : Represents t tb
  pub splits : rep.linked_rows ≡ xs ++ ((a, r) ∷ ys)

module _ {K : Type 0} where
  unfoldable pub at_place : Row K → Rows K → Rows K → RtEntry K
  at_place r xs ys = entry r (last none xs) (first ys none)

  pub Located-there :
      {t : RtTable K} {tb : Table K} {a : ℕ} {r : Row K} {xs ys : Rows K}
      → Located t tb a r xs ys
      → t.heap a ≡ some (at_place r xs ys)
  unfolding at_place
  Located-there {t} {a = a} {r = r} {xs = xs} {ys = ys} here =
      (Linked-update t.heap t.fresh a r r xs ys (subst (Falls t.fresh) here.splits here.rep.falls)
        (subst (λ l. Linked t.heap none l none) here.splits here.rep.linked)).0

  -- Its row changes in place.
  pub Located-update :
      {t : RtTable K} {tb : Table K} {a : ℕ} {r : Row K} {xs ys : Rows K} (r' : Row K)
      → Located t tb a r xs ys
      → Represents
          (store t a (at_place r' xs ys))
          (record tb { rows = contents xs ++ (r' ∷ contents ys) })
  unfolding at_place
  Located-update {t} {a = a} {r = r} {xs = xs} {ys = ys} r' here =
      let falls = subst (Falls t.fresh) here.splits here.rep.falls in
      let k = subst (λ l. Linked t.heap none l none) here.splits here.rep.linked in
      record {
        linked_rows = xs ++ ((a, r') ∷ ys);
        headed =
            here.rep.headed ∙ ap (λ l. first l none) here.splits ∙ first-replace a r r' xs ys none;
        falls = Falls-replace t.fresh a r r' xs ys falls;
        linked = (Linked-update t.heap t.fresh a r r' xs ys falls k).1;
        holds = map-append (λ p. p.1) xs ((a, r') ∷ ys);
        same_notified = here.rep.same_notified;
      }

  -- The callbacks of both grow alike.
  pub Represents-notified :
      {t : RtTable K} {tb : Table K} (l : List (Notif (Row K)))
      → Represents t tb
      → Represents
          (record t { notified = t.notified ++ l })
          (record tb { notified = tb.notified ++ l })
  Represents-notified l rep = record {
    linked_rows = rep.linked_rows;
    headed = rep.headed;
    falls = rep.falls;
    linked = rep.linked;
    holds = rep.holds;
    same_notified = ap (λ n. n ++ l) rep.same_notified;
  }

  -- A new entry at the head.
  placed : RtTable K → Row K → RtTable K
  placed t row = record t {
    heap = put t.heap t.fresh (some (entry row none t.head));
    head = some t.fresh;
    fresh = t.fresh + 1;
  }

  pub link-Represents :
      (t : RtTable K) {tb : Table K} (row : Row K) (l : Rows K) (rep : Represents t tb)
      → rep.linked_rows ≡ l
      → (u : RtTable K) × (link t row ≡ some (t.fresh, u))
        × Located u (record tb { rows = row ∷ tb.rows }) t.fresh row [] l
  unfolding link set_prev placed
  link-Represents t row [] rep e =
      let headed : t.head ≡ none = rep.headed ∙ ap (λ l. first l none) e in
      (
        placed t row,
        ap
            (λ o. elim o [
              | none ↦ some (t.fresh, placed t row)
              | some b ↦ set_prev (placed t row) b (some t.fresh) >>= λ v. some (t.fresh, v)
            ])
            headed,
        record {
          rep = record {
            linked_rows = (t.fresh, row) ∷ [];
            headed = refl;
            falls = (omega arith, tt);
            linked = (put_self t.heap t.fresh _ ∙ ap (λ p. some (entry row none p)) headed, tt);
            holds = ap (λ q. row ∷ q) (ap contents (sym e) ∙ rep.holds);
            same_notified = rep.same_notified;
          };
          splits = refl;
        },
      )
  link-Represents t row ((b, s) ∷ l) rep e =
      let headed : t.head ≡ some b = rep.headed ∙ ap (λ l. first l none) e in
      let falls : Falls t.fresh ((b, s) ∷ l) = subst (Falls t.fresh) e rep.falls in
      let k : Linked t.heap none ((b, s) ∷ l) none =
        subst (λ l. Linked t.heap none l none) e rep.linked in
      let there : (placed t row).heap b ≡ some (entry s none (first l none)) =
        put_ne t.heap t.fresh _ b (λ e. omega (arith, falls.0)) ∙ k.0 in
      let v : RtTable K = store (placed t row) b (entry s (some t.fresh) (first l none)) in
      (
        v,
        ap
              (λ o. elim o [
                | none ↦ some (t.fresh, placed t row)
                | some b ↦ set_prev (placed t row) b (some t.fresh) >>= λ v. some (t.fresh, v)
              ])
              headed
            ∙ ap
                (λ o.
                  (o >>= λ e. some (store (placed t row) b (record e { prev = some t.fresh })))
                  >>= λ v. some (t.fresh, v))
                there,
        record {
          rep = record {
            linked_rows = (t.fresh, row) ∷ (b, s) ∷ l;
            headed = refl;
            falls = (omega arith, falls);
            linked = (
              put_ne (placed t row).heap b _ t.fresh (λ e. omega (arith, falls.0))
                  ∙ put_self t.heap t.fresh _
                  ∙ ap (λ p. some (entry row none p)) headed,
              (
                put_self (placed t row).heap b _,
                Linked-Falls (placed t row).heap (some b) none b _ l falls.1 (
                    Linked-Falls t.heap (some b) none t.fresh _ l
                      (Falls-le b t.fresh l (omega (arith, falls.0)) falls.1) k.1),
              ),
            );
            holds = ap (λ q. row ∷ q) (ap contents (sym e) ∙ rep.holds);
            same_notified = rep.same_notified;
          };
          splits = refl;
        },
      )

  -- The subscribers are told, if there is data.
  unfoldable pub told : Bool → RtTable K → Row K → RtTable K
  told b u row = record u { notified = if b then u.notified ++ calls nfc_mod row else u.notified }

  pub tell-told :
      (b : Bool) (u : RtTable K) (a : ℕ) (e : RtEntry K)
      → u.heap a ≡ some e
      → tell b u a ≡ some (a, told b u e.row)
  unfolding tell told
  tell-told true u a e at = rw (at, notify-calls u e.row nfc_mod) refl
  tell-told false u a e at = refl

  pub Represents-told :
      (b : Bool) {u : RtTable K} {tb : Table K} (row : Row K)
      → Represents u tb
      → Represents
          (told b u row)
          (record tb { notified = if b then tb.notified ++ calls nfc_mod row else tb.notified })
  unfolding told
  Represents-told true row rep = Represents-notified (calls nfc_mod row) rep
  Represents-told false row rep = rep
