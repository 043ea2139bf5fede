-- ===== src/Nfc/Adding.antt =====
-- Adding or updating an entry does to the list what it does to the rows.

use multithreading_bible.Common.{
  ℕ, ◌≡◌, inl, inr, Bool, ◌||◌, Option, none, some, [], ◌∷◌, ◌++◌, refl, sym, ap, ◌∙◌, subst,
  if◌then◌else◌, is_set,
}
use multithreading_bible.Sync.Change.{put_self}
use multithreading_bible.Nfc.{
  nfc_mod, Row, RtTable, matches, rt_add_or_update_rt_entry, set_data, new_row, store,
}
use multithreading_bible.Nfc.Spec.{Table, calls, find, add_or_update}
use multithreading_bible.Nfc.Lookup.{contents, Hit, search_rows}
use multithreading_bible.Nfc.Refines.{Represents, lookup_missed, lookup_hit, hit_found, hit_changed}
use multithreading_bible.Nfc.Placing.{
  Located, at_place, Located-there, Located-update, link-Represents, told, tell-told,
  Represents-told,
}

module _ {S K : Type 0} (strncmp : ℕ → K → S → Bool) (strncpy : ℕ → S → K) (zeroed : K)
    {t : RtTable K} {tb : Table K} (rep : Represents t tb) (dest : S) (mask : ℕ)
    (gw_ip oif : Option S) where
  abbrev given : Row K → Row K
  given r = set_data strncmp strncpy zeroed r gw_ip oif

  abbrev fresh_row : Row K
  fresh_row = given (new_row strncmp strncpy zeroed dest mask)

  pub add_missed :
      find (matches strncmp dest mask) tb.rows ≡ none
      → (u : RtTable K) × (rt_add_or_update_rt_entry strncmp strncpy zeroed t dest mask gw_ip oif
          ≡ some (t.fresh, told (is_set gw_ip || is_set oif) u fresh_row))
        × Located u (record tb { rows = fresh_row ∷ tb.rows }) t.fresh fresh_row [] rep.linked_rows
  unfolding rt_add_or_update_rt_entry at_place
  add_missed miss =
      let (u, e, here) = link-Represents t fresh_row rep.linked_rows rep refl in
      (
        u,
        rw
            (
              lookup_missed strncmp rep dest mask
                  (ap (find (matches strncmp dest mask)) rep.holds ∙ miss),
              e,
            )
            (tell-told (is_set gw_ip || is_set oif) u t.fresh
              (at_place fresh_row [] rep.linked_rows) (Located-there here)),
        here,
      )

  pub Hit-Located :
      (h : Hit (matches strncmp dest mask) rep.linked_rows)
      → Located t tb h.at h.row h.before h.after
  Hit-Located h = record { rep = rep; splits = h.splits }

  add-Hit :
      (h : Hit (matches strncmp dest mask) rep.linked_rows)
      → (u : RtTable K) × (rt_add_or_update_rt_entry strncmp strncpy zeroed t dest mask gw_ip oif
          ≡ some (h.at, told (is_set gw_ip || is_set oif) u (given h.row)))
        × Represents u (record tb { rows = contents h.before ++ (given h.row ∷ contents h.after) })
  unfolding rt_add_or_update_rt_entry at_place
  add-Hit h =
      let here = Hit-Located h in
      let e = at_place (given h.row) h.before h.after in
      let u : RtTable K = store t h.at e in
      (
        u,
        rw (lookup_hit strncmp rep dest mask h, Located-there here)
            (tell-told (is_set gw_ip || is_set oif) u h.at e (put_self t.heap h.at (some e))),
        Located-update (given h.row) here,
      )

  spec_missed :
      find (matches strncmp dest mask) tb.rows ≡ none
      → add_or_update strncmp strncpy zeroed tb dest mask gw_ip oif ≡ record {
        rows = fresh_row ∷ tb.rows;
        notified =
            if is_set gw_ip || is_set oif
            then tb.notified ++ calls nfc_mod fresh_row
            else tb.notified;
      }
  unfolding add_or_update
  spec_missed miss = rw (add_or_update, miss) refl

  spec-Hit :
      (h : Hit (matches strncmp dest mask) rep.linked_rows)
      → add_or_update strncmp strncpy zeroed tb dest mask gw_ip oif ≡ record {
        rows = contents h.before ++ (given h.row ∷ contents h.after);
        notified =
            if is_set gw_ip || is_set oif
            then tb.notified ++ calls nfc_mod (given h.row)
            else tb.notified;
      }
  unfolding add_or_update
  spec-Hit h =
      rw
        (
          add_or_update,
          hit_found strncmp rep dest mask h,
          hit_changed strncmp rep dest mask h given,
        )
        refl

  -- `rt_add_or_update_rt_entry` does to the table what `add_or_update` does to the rows.
  pub add_refines :
      (a : ℕ) × (u : RtTable K) × (rt_add_or_update_rt_entry strncmp strncpy zeroed t dest mask
          gw_ip oif
        ≡ some (a, u))
      × Represents u (add_or_update strncmp strncpy zeroed tb dest mask gw_ip oif)
  add_refines = elim (search_rows (matches strncmp dest mask) rep.linked_rows) [
    | inl none_of ↦
        let miss = ap (find (matches strncmp dest mask)) (sym rep.holds) ∙ none_of in
        let (u, e, here) = add_missed miss in
        (
          t.fresh,
          told (is_set gw_ip || is_set oif) u fresh_row,
          e,
          subst (Represents (told (is_set gw_ip || is_set oif) u fresh_row))
              (sym (spec_missed miss))
              (Represents-told (is_set gw_ip || is_set oif) fresh_row here.rep),
        )
    | inr h ↦
        let (u, e, there) = add-Hit h in
        (
          h.at,
          told (is_set gw_ip || is_set oif) u (given h.row),
          e,
          subst (Represents (told (is_set gw_ip || is_set oif) u (given h.row))) (sym (spec-Hit h))
              (Represents-told (is_set gw_ip || is_set oif) (given h.row) there),
        )
  ]
