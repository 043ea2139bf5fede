-- ===== src/Nfc/Delete.antt =====
-- A deletion takes the entry out of the list, tells its subscribers, and frees it.
use mathlib.Core.List.{map-append}
use multithreading_bible.Common.{
  ℕ, ◌≡◌, inl, inr, Bool, true, none, some, ◌++◌, refl, sym, ap, ◌∙◌, subst,
}
use multithreading_bible.Common.Sums.{put}
use multithreading_bible.Nfc.{
  nfc_del, Row, RtTable, matches, release, rt_entry_remove, rt_delete_rt_entry,
}
use multithreading_bible.Nfc.Links.{
  first, last, Falls, Falls-split, Falls-drop, Linked-split, Linked-join,
}
use multithreading_bible.Nfc.Removal.{Removed, removal, beside}
use multithreading_bible.Nfc.Spec.{Table, calls, find, remove_row}
use multithreading_bible.Nfc.Lookup.{contents, Hit, search_rows}
use multithreading_bible.Nfc.Refines.{
  Represents, notify-calls, lookup_missed, lookup_hit, hit-Falls, hit-Linked, hit_found,
  hit_deleted,
}

module _ {S K : Type 0} (strncmp : ℕ → K → S → Bool) {t : RtTable K} {tb : Table K}
    (rep : Represents t tb) (dest : S) (mask : ℕ) where
  module _ (h : Hit (matches strncmp dest mask) rep.linked_rows) where
    taken :
        (u : RtTable K) × (rt_entry_remove t h.at ≡ some u)
        × Removed t u h.at h.row (h.before ++ h.after)
    taken =
        removal t h.at h.row t.fresh h.before h.after (rep.headed ∙ ap (λ l. first l none) h.splits)
          (hit-Falls strncmp rep dest mask h) (hit-Linked strncmp rep dest mask h)

    -- The entry's memory is given back once its subscribers have been told.
    freed : RtTable K → Row K → RtTable K
    freed u row = release (record u { notified = u.notified ++ calls nfc_del row }) h.at

    freed-Represents :
        (u : RtTable K)
        → Removed t u h.at h.row (h.before ++ h.after)
        → Represents (freed u h.row) (record {
          rows = contents h.before ++ contents h.after;
          notified = tb.notified ++ calls nfc_del h.row;
        })
    unfolding freed
    freed-Represents u out =
        let (lt, above, below) =
          Falls-split t.fresh h.at h.row h.before h.after (hit-Falls strncmp rep dest mask h) in
        let both =
          beside u.heap none (last none h.before) (first h.after none) h.at none h.before h.after
            above below (Linked-split u.heap none none h.before h.after out.linked) in
        record {
          linked_rows = h.before ++ h.after;
          headed = out.headed;
          falls =
              subst (λ n. Falls n (h.before ++ h.after)) (sym out.same_fresh)
                (Falls-drop t.fresh h.at h.row h.before h.after
                  (hit-Falls strncmp rep dest mask h));
          linked = Linked-join (put u.heap h.at none) none none h.before h.after both.0 both.1;
          holds = map-append (λ p. p.1) h.before h.after;
          same_notified =
              ap (λ n. n ++ calls nfc_del h.row) (out.same_notified ∙ rep.same_notified);
        }

    row_removed : remove_row strncmp tb dest mask ≡ (
      true,
      record {
        rows = contents h.before ++ contents h.after;
        notified = tb.notified ++ calls nfc_del h.row;
      },
    )
    unfolding remove_row
    row_removed =
        rw (remove_row, hit_found strncmp rep dest mask h, hit_deleted strncmp rep dest mask h) refl

    delete_hit :
        (u : RtTable K) × (rt_delete_rt_entry strncmp t dest mask
          ≡ some ((remove_row strncmp tb dest mask).0, u))
        × Represents u (remove_row strncmp tb dest mask).1
    unfolding rt_delete_rt_entry freed
    delete_hit =
        let (u, e, out) = taken in
        (
          freed u h.row,
          rw
              (
                rt_delete_rt_entry,
                lookup_hit strncmp rep dest mask h,
                e,
                out.found,
                notify-calls u out.old.row nfc_del,
                out.content,
                row_removed,
              )
              refl,
          subst (λ b. Represents (freed u h.row) b.1) (sym row_removed) (freed-Represents u out),
        )

  delete_missed :
      find (matches strncmp dest mask) (contents rep.linked_rows) ≡ none
      → (u : RtTable K) × (rt_delete_rt_entry strncmp t dest mask
          ≡ some ((remove_row strncmp tb dest mask).0, u))
        × Represents u (remove_row strncmp tb dest mask).1
  unfolding rt_delete_rt_entry remove_row
  delete_missed none_of =
      let miss = ap (find (matches strncmp dest mask)) (sym rep.holds) ∙ none_of in
      rw (remove_row, miss)
        (t, rw (rt_delete_rt_entry, lookup_missed strncmp rep dest mask none_of) refl, rep)

  -- `rt_delete_rt_entry` does to the table what `remove_row` does to the rows.
  pub delete_refines :
      (u : RtTable K) × (rt_delete_rt_entry strncmp t dest mask
        ≡ some ((remove_row strncmp tb dest mask).0, u))
      × Represents u (remove_row strncmp tb dest mask).1
  delete_refines = elim (search_rows (matches strncmp dest mask) rep.linked_rows) [
    | inl none_of ↦ delete_missed none_of
    | inr h ↦ delete_hit h
  ]
