-- ===== src/Nfc/Runs.antt =====
-- Sequences of calls on the routing table.
use multithreading_bible.Common.{
  ℕ, ◌≡◌, ◌≤◌, inl, inr, Bool, false, Option, none, some, List, [], ◌∷◌, arith, refl, sym, ap, ◌∙◌,
}
use multithreading_bible.Common.Options.{◌>>=◌}
use multithreading_bible.Nfc.{
  Row, RtTable, matches, rt_init_rt_table, rt_look_up_rt_entry, rt_add_or_update_rt_entry,
  rt_delete_rt_entry, rt_table_register_for_notification, max_notif_key_size,
}
use multithreading_bible.Nfc.Spec.{Table, find, add_or_update, remove_row, subscribe}
use multithreading_bible.Nfc.Lookup.{search_rows}
use multithreading_bible.Nfc.Refines.{Represents, lookup_missed, lookup_hit, hit_found}
use multithreading_bible.Nfc.Adding.{add_refines, Hit-Located}
use multithreading_bible.Nfc.Placing.{Located-there, at_place}
use multithreading_bible.Nfc.Subscribing.{subscribe_refines}
use multithreading_bible.Nfc.Delete.{delete_refines}

pub data Call (S : Type 0) : Type 0 where
  add : S → ℕ → Option S → Option S → Call S
  del : S → ℕ → Call S
  sub : S → ℕ → ℕ → ℕ → ℕ → Call S
  get : S → ℕ → Call S

pub data Reply (K : Type 0) : Type 0 where
  done : Reply K
  deleted : Bool → Reply K
  got : Option (Row K) → Reply K

-- A registration keeps within `MAX_NOTIF_KEY_SIZE`.
abbrev pub IsKeyed : {S : Type 0} → List (Call S) → Type 0
IsKeyed [] = Unit
IsKeyed (add d m g o ∷ calls) = IsKeyed calls
IsKeyed (del d m ∷ calls) = IsKeyed calls
IsKeyed (sub d m k c i ∷ calls) = (k ≤ max_notif_key_size) × IsKeyed calls
IsKeyed (get d m ∷ calls) = IsKeyed calls

module _ {S K : Type 0} (strncmp : ℕ → K → S → Bool) (strncpy : ℕ → S → K) (zeroed : K) where
  -- The content of the entry that a lookup finds.
  unfoldable pub look_row : RtTable K → S → ℕ → Option (Option (Row K))
  look_row t dest mask = rt_look_up_rt_entry strncmp t dest mask >>= λ found. elim found [
    | none ↦ some none
    | some a ↦ t.heap a >>= λ e. some (some e.row)
  ]

  unfoldable pub call : RtTable K → Call S → Option (Reply K × RtTable K)
  call t (add d m g o) =
      rt_add_or_update_rt_entry strncmp strncpy zeroed t d m g o >>= λ r. some (done, r.1)
  call t (del d m) = rt_delete_rt_entry strncmp t d m >>= λ r. some (deleted r.0, r.1)
  call t (sub d m k c i) =
      rt_table_register_for_notification strncmp strncpy zeroed t d m k c i >>= λ u. some (done, u)
  call t (get d m) = look_row t d m >>= λ r. some (got r, t)

  unfoldable pub run : RtTable K → List (Call S) → Option (List (Reply K) × RtTable K)
  run t [] = some ([], t)
  run t (c ∷ calls) = call t c >>= λ r. run r.1 calls >>= λ rest. some (r.0 ∷ rest.0, rest.1)

  -- The same calls on the rows.
  unfoldable pub answer : Table K → Call S → Reply K × Table K
  answer tb (add d m g o) = (done, add_or_update strncmp strncpy zeroed tb d m g o)
  answer tb (del d m) = (deleted (remove_row strncmp tb d m).0, (remove_row strncmp tb d m).1)
  answer tb (sub d m k c i) = (
    done,
    subscribe strncmp strncpy zeroed tb d m
        (record { key = []; subs_id = i; is_key_set = false; app_cb = c }),
  )
  answer tb (get d m) = (got (find (matches strncmp d m) tb.rows), tb)

  unfoldable pub answers : Table K → List (Call S) → List (Reply K) × Table K
  answers tb [] = ([], tb)
  answers tb (c ∷ calls) =
      let (r, next) = answer tb c in let (rs, last) = answers next calls in (r ∷ rs, last)

  pub look_row-find :
      {t : RtTable K} {tb : Table K} (rep : Represents t tb) (dest : S) (mask : ℕ)
      → look_row t dest mask ≡ some (find (matches strncmp dest mask) tb.rows)
  unfolding look_row at_place
  look_row-find rep dest mask = elim (search_rows (matches strncmp dest mask) rep.linked_rows) [
    | inl none_of ↦
        rw (look_row, lookup_missed strncmp rep dest mask none_of)
          (ap some (sym (ap (find (matches strncmp dest mask)) (sym rep.holds) ∙ none_of)))
    | inr h ↦
        rw
          (
            look_row,
            lookup_hit strncmp rep dest mask h,
            Located-there (Hit-Located strncmp strncpy zeroed rep dest mask none none h),
          )
          (ap some (sym (hit_found strncmp rep dest mask h)))
  ]

  call_refines :
      {t : RtTable K} {tb : Table K} (c : Call S)
      → Represents t tb
      → IsKeyed (c ∷ [])
      → (u : RtTable K) × (call t c ≡ some ((answer tb c).0, u)) × Represents u (answer tb c).1
  unfolding call answer
  call_refines (add d m g o) rep small =
      let (a, u, e, rep') = add_refines strncmp strncpy zeroed rep d m g o in (u, rw e refl, rep')
  call_refines (del d m) rep small =
      let (u, e, rep') = delete_refines strncmp rep d m in (u, rw e refl, rep')
  call_refines (sub d m k c i) rep small =
      let (u, e, rep') = subscribe_refines strncmp strncpy zeroed rep d m k c i (ground arith) in
      (u, rw e refl, rep')
  call_refines {t} (get d m) rep small = (t, rw (look_row-find rep d m) refl, rep)

  IsKeyed-head : (c : Call S) (calls : List (Call S)) → IsKeyed (c ∷ calls) → IsKeyed (c ∷ [])
  IsKeyed-head (add d m g o) calls k = tt
  IsKeyed-head (del d m) calls k = tt
  IsKeyed-head (sub d m j c i) calls k = (k.0, tt)
  IsKeyed-head (get d m) calls k = tt

  IsKeyed-tail : (c : Call S) (calls : List (Call S)) → IsKeyed (c ∷ calls) → IsKeyed calls
  IsKeyed-tail (add d m g o) calls k = k
  IsKeyed-tail (del d m) calls k = k
  IsKeyed-tail (sub d m j c i) calls k = k.1
  IsKeyed-tail (get d m) calls k = k

  pub run_refines :
      (calls : List (Call S)) {t : RtTable K} {tb : Table K}
      → Represents t tb
      → IsKeyed calls
      → (u : RtTable K) × (run t calls ≡ some ((answers tb calls).0, u))
        × Represents u (answers tb calls).1
  unfolding run answers
  run_refines [] {t = t} rep keyed = (t, refl, rep)
  run_refines (c ∷ calls) rep keyed =
      let (v, e, rep') = call_refines c rep (IsKeyed-head c calls keyed) in
      let (u, e', rep'') = run_refines calls rep' (IsKeyed-tail c calls keyed) in
      (u, rw (e, run, e') refl, rep'')

abbrev pub empty : {K : Type 0} → Table K
empty = record { rows = []; notified = [] }

pub new-Represents : {K : Type 0} → Represents (rt_init_rt_table {K = K}) empty
unfolding rt_init_rt_table
new-Represents = record {
  linked_rows = [];
  headed = refl;
  falls = tt;
  linked = tt;
  holds = refl;
  same_notified = refl;
}

-- From a new table, every sequence of calls runs without a fault, as the same calls on a list of rows
-- do: it returns the same, and makes the same callbacks in the same order. Registrations keep within
-- the size of a key.
pub table_refines :
    {S K : Type 0} (strncmp : ℕ → K → S → Bool) (strncpy : ℕ → S → K) (zeroed : K)
    (calls : List (Call S))
    → IsKeyed calls
    → (t : RtTable K) × (run strncmp strncpy zeroed rt_init_rt_table calls
        ≡ some ((answers strncmp strncpy zeroed empty calls).0, t))
      × (t.notified ≡ (answers strncmp strncpy zeroed empty calls).1.notified)
table_refines strncmp strncpy zeroed calls keyed =
    let (t, e, rep) = run_refines strncmp strncpy zeroed calls new-Represents keyed in
    (t, e, rep.same_notified)
