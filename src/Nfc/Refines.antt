-- ===== src/Nfc/Refines.antt =====
-- What it means that a table represents rows: its lookups, its callbacks and its changes are theirs.
use mathlib.Core.List.{map, map-append}
use multithreading_bible.Common.{
  ℕ, ◌≡◌, Bool, none, some, List, [], ◌∷◌, ◌++◌, arith, refl, sym, ap, ◌∙◌, subst,
}
use multithreading_bible.Common.Options.{◌>>=◌}
use multithreading_bible.Nfc.{
  NfcOp, Nfce, Row, RtTable, look, matches, notify, nfc_invoke_notif_chain, invoke_all,
  rt_look_up_rt_entry,
}
use multithreading_bible.Nfc.Links.{first, Rows, Falls, Falls-length, Falls-length_all, Linked}
use multithreading_bible.Nfc.Spec.{
  Table, called, calls, find, change, change-hit, delete, delete-hit, find-hit,
}
use multithreading_bible.Nfc.Lookup.{contents, Hit, look-miss, look-hit}

-- The table holds the rows, linked in their order, and has made the callbacks.
pub record Represents {K : Type 0} (t : RtTable K) (tb : Table K) : Type 0 where
  pub linked_rows : Rows K
  pub headed : t.head ≡ first linked_rows none
  pub falls : Falls t.fresh linked_rows
  pub linked : Linked t.heap none linked_rows none
  pub holds : contents linked_rows ≡ tb.rows
  pub same_notified : t.notified ≡ tb.notified

module _ {K : Type 0} where
  invoke_all-calls :
      (row : Row K) (chain : List Nfce) (op : NfcOp)
      → invoke_all chain row [] op ≡ map (called op row) chain
  unfolding invoke_all
  invoke_all-calls row [] op = refl
  invoke_all-calls row (s ∷ chain) op =
      ap (λ l. called op row s ∷ l) (invoke_all-calls row chain op)

  invoke-calls :
      (row : Row K) (chain : List Nfce) (op : NfcOp)
      → nfc_invoke_notif_chain chain row [] op ≡ some (map (called op row) chain)
  unfolding nfc_invoke_notif_chain
  invoke-calls row [] op = refl
  invoke-calls row (s ∷ chain) op = ap some (invoke_all-calls row (s ∷ chain) op)

  -- No key is given, so that no `assert` fails and every subscriber is called.
  pub notify-calls :
      (t : RtTable K) (row : Row K) (op : NfcOp)
      → notify t row op ≡ some (record t { notified = t.notified ++ calls op row })
  unfolding notify calls
  notify-calls t row op =
      ap (λ o. o >>= λ calls. some (record t { notified = t.notified ++ calls }))
        (invoke-calls row row.nfc op)

module _ {S K : Type 0} (strncmp : ℕ → K → S → Bool) {t : RtTable K} {tb : Table K}
    (rep : Represents t tb) (dest : S) (mask : ℕ) where
  pub lookup_missed :
      find (matches strncmp dest mask) (contents rep.linked_rows) ≡ none
      → rt_look_up_rt_entry strncmp t dest mask ≡ some none
  unfolding rt_look_up_rt_entry
  lookup_missed miss =
      ap (λ p. look strncmp t.fresh t.heap p dest mask) rep.headed
      ∙ look-miss strncmp dest mask t.fresh t.heap none rep.linked_rows
          (Falls-length_all t.fresh rep.linked_rows rep.falls) rep.linked miss

  module _ (h : Hit (matches strncmp dest mask) rep.linked_rows) where
    pub hit-Falls : Falls t.fresh (h.before ++ ((h.at, h.row) ∷ h.after))
    hit-Falls = subst (Falls t.fresh) h.splits rep.falls

    pub hit-Linked : Linked t.heap none (h.before ++ ((h.at, h.row) ∷ h.after)) none
    hit-Linked = subst (λ l. Linked t.heap none l none) h.splits rep.linked

    pub hit_rows : tb.rows ≡ contents h.before ++ (h.row ∷ contents h.after)
    hit_rows =
        sym rep.holds
        ∙ ap contents h.splits
        ∙ map-append (λ p. p.1) h.before ((h.at, h.row) ∷ h.after)

    pub hit_found : find (matches strncmp dest mask) tb.rows ≡ some h.row
    hit_found =
        ap (find (matches strncmp dest mask)) hit_rows
        ∙ find-hit (matches strncmp dest mask) (contents h.before) (contents h.after) h.row h.misses
            h.hit

    pub hit_changed :
        (f : Row K → Row K)
        → change (matches strncmp dest mask) f tb.rows
          ≡ contents h.before ++ (f h.row ∷ contents h.after)
    hit_changed f =
        ap (change (matches strncmp dest mask) f) hit_rows
        ∙ change-hit (matches strncmp dest mask) f (contents h.before) (contents h.after) h.row
            h.misses h.hit

    pub hit_deleted :
        delete (matches strncmp dest mask) tb.rows ≡ contents h.before ++ contents h.after
    hit_deleted =
        ap (delete (matches strncmp dest mask)) hit_rows
        ∙ delete-hit (matches strncmp dest mask) (contents h.before) (contents h.after) h.row
            h.misses h.hit

    pub lookup_hit : rt_look_up_rt_entry strncmp t dest mask ≡ some (some h.at)
    unfolding rt_look_up_rt_entry
    lookup_hit =
        ap (λ p. look strncmp t.fresh t.heap p dest mask)
          (rep.headed ∙ ap (λ l. first l none) h.splits)
        ∙ look-hit strncmp dest mask t.fresh t.heap none h.before h.after h.at h.row
            (omega (arith, Falls-length t.fresh h.at h.row h.before h.after hit-Falls)) hit-Linked
            h.misses h.hit
