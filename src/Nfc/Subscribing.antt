-- ===== src/Nfc/Subscribing.antt =====
-- A subscription does to the list what it does to the rows.

use multithreading_bible.Common.{
  ℕ, ◌≡◌, inl, inr, Bool, true, false, none, some, [], ◌∷◌, ◌++◌, refl, sym, ap, ◌∙◌, subst, leb,
}
use multithreading_bible.Nfc.{
  nfc_add, Nfce, Row, RtTable, matches, rt_table_register_for_notification, set_data, new_row,
  store, max_notif_key_size,
}
use multithreading_bible.Nfc.Spec.{Table, called, find, subscribe}
use multithreading_bible.Nfc.Lookup.{contents, Hit, search_rows}
use multithreading_bible.Nfc.Refines.{Represents, lookup_missed, lookup_hit, hit_found, hit_changed}
use multithreading_bible.Nfc.Adding.{Hit-Located, add_missed}
use multithreading_bible.Nfc.Placing.{
  at_place, Located-there, Located-update, told, Represents-notified,
}

module _ {S K : Type 0} (strncmp : ℕ → K → S → Bool) (strncpy : ℕ → S → K) (zeroed : K)
    {t : RtTable K} {tb : Table K} (rep : Represents t tb) (dest : S) (mask key_size app_cb : ℕ)
    (subs_id : ℕ) where
  -- The element that the table registers: it has no key.
  abbrev pub subscriber : Nfce
  subscriber = record { key = []; subs_id = subs_id; is_key_set = false; app_cb = app_cb }

  abbrev joined : Row K → Row K
  joined r = record r { nfc = subscriber ∷ r.nfc }

  abbrev blank_row : Row K
  blank_row = new_row strncmp strncpy zeroed dest mask

  spec_missed :
      find (matches strncmp dest mask) tb.rows ≡ none
      → subscribe strncmp strncpy zeroed tb dest mask subscriber
        ≡ record tb { rows = joined blank_row ∷ contents rep.linked_rows }
  unfolding subscribe
  spec_missed miss =
      rw (subscribe, miss) (ap (λ q. record tb { rows = joined blank_row ∷ q }) (sym rep.holds))

  spec-Hit :
      (h : Hit (matches strncmp dest mask) rep.linked_rows)
      → subscribe strncmp strncpy zeroed tb dest mask subscriber ≡ record {
        rows = contents h.before ++ (joined h.row ∷ contents h.after);
        notified = tb.notified ++ (called nfc_add (joined h.row) subscriber ∷ []);
      }
  unfolding subscribe
  spec-Hit h =
      rw (subscribe, hit_found strncmp rep dest mask h, hit_changed strncmp rep dest mask h joined)
        refl

  subscribe_missed :
      leb key_size max_notif_key_size ≡ true
      → find (matches strncmp dest mask) tb.rows ≡ none
      → (u : RtTable K) × (rt_table_register_for_notification strncmp strncpy zeroed t dest mask
            key_size app_cb subs_id
          ≡ some u)
        × Represents u (subscribe strncmp strncpy zeroed tb dest mask subscriber)
  unfolding rt_table_register_for_notification at_place told set_data
  subscribe_missed small miss =
      let (u, e, here) = add_missed strncmp strncpy zeroed rep dest mask none none miss in
      (
        store u t.fresh (at_place (joined blank_row) [] rep.linked_rows),
        rw
            (
              rt_table_register_for_notification,
              lookup_missed strncmp rep dest mask
                  (ap (find (matches strncmp dest mask)) rep.holds ∙ miss),
              e,
              small,
              Located-there here,
            )
            refl,
        subst (Represents (store u t.fresh (at_place (joined blank_row) [] rep.linked_rows)))
            (sym (spec_missed miss)) (Located-update (joined blank_row) here),
      )

  subscribe-Hit :
      leb key_size max_notif_key_size ≡ true
      → (h : Hit (matches strncmp dest mask) rep.linked_rows)
      → (u : RtTable K) × (rt_table_register_for_notification strncmp strncpy zeroed t dest mask
            key_size app_cb subs_id
          ≡ some u)
        × Represents u (subscribe strncmp strncpy zeroed tb dest mask subscriber)
  unfolding rt_table_register_for_notification at_place
  subscribe-Hit small h =
      let here = Hit-Located strncmp strncpy zeroed rep dest mask none none h in
      let u : RtTable K = store t h.at (at_place (joined h.row) h.before h.after) in
      (
        record u { notified = t.notified ++ (called nfc_add (joined h.row) subscriber ∷ []) },
        rw
            (
              rt_table_register_for_notification,
              lookup_hit strncmp rep dest mask h,
              small,
              Located-there here,
            )
            refl,
        subst
            (Represents (record u {
              notified = t.notified ++ (called nfc_add (joined h.row) subscriber ∷ []);
            }))
            (sym (spec-Hit h))
            (Represents-notified (called nfc_add (joined h.row) subscriber ∷ [])
              (Located-update (joined h.row) here)),
      )

  -- `rt_table_register_for_notification` does to the table what `subscribe` does to the rows.
  pub subscribe_refines :
      leb key_size max_notif_key_size ≡ true
      → (u : RtTable K) × (rt_table_register_for_notification strncmp strncpy zeroed t dest mask
            key_size app_cb subs_id
          ≡ some u)
        × Represents u (subscribe strncmp strncpy zeroed tb dest mask subscriber)
  subscribe_refines small = elim (search_rows (matches strncmp dest mask) rep.linked_rows) [
    | inl none_of ↦
        subscribe_missed small (ap (find (matches strncmp dest mask)) (sym rep.holds) ∙ none_of)
    | inr h ↦ subscribe-Hit small h
  ]
