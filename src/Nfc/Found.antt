-- ===== src/Nfc/Found.antt =====
-- What is put into the table is found there.
use multithreading_bible.Common.{
  ℕ, ◌≡◌, Bool, true, Option, none, some, List, [], ◌∷◌, arith, refl, sym, ap, ◌∙◌,
}
use multithreading_bible.Nfc.{
  Row, RtTable, matches, rt_init_rt_table, rt_add_or_update_rt_entry, set_data, new_row,
}
use multithreading_bible.Nfc.Spec.{Table, find, find-first, find-change, add_or_update}
use multithreading_bible.Nfc.Adding.{add_refines}
use multithreading_bible.Nfc.Runs.{
  Call, Reply, IsKeyed, look_row, run, answers, empty, run_refines, new-Represents, look_row-find,
}

module _ {S K : Type 0} (strncmp : ℕ → K → S → Bool) (strncpy : ℕ → S → K) where
  -- What a row shows of data that was put in under a key.
  pub record Shows (row : Row K) (dest : S) (mask : ℕ) (gw_ip oif : S) : Type 0 where
    pub hit : matches strncmp dest mask row ≡ true
    pub gateway : row.gw_ip ≡ strncpy 16 gw_ip
    pub interface : row.oif ≡ strncpy 32 oif

module _ {S K : Type 0} (strncmp : ℕ → K → S → Bool) (strncpy : ℕ → S → K) (zeroed : K)
    (copied : (n : ℕ) (s : S) → strncmp n (strncpy n s) s ≡ true) where
  given-Shows :
      (row : Row K) (dest : S) (mask : ℕ) (gw_ip oif : S)
      → matches strncmp dest mask row ≡ true
      → Shows strncmp strncpy
          (set_data strncmp strncpy zeroed row (some gw_ip) (some oif))
          dest
          mask
          gw_ip
          oif
  unfolding set_data
  given-Shows row dest mask gw_ip oif hit = record { hit = hit; gateway = refl; interface = refl }

  new_row-hit :
      (dest : S) (mask : ℕ)
      → matches strncmp dest mask (new_row strncmp strncpy zeroed dest mask) ≡ true
  new_row-hit dest mask = ground (arith, copied 16 dest)

  found_matches :
      (hits : Row K → Bool) (rows : List (Row K)) (r : Row K)
      → find hits rows ≡ some r
      → hits r ≡ true
  unfolding find
  found_matches hits [] r e = cc
  found_matches hits (q ∷ rows) r e = ground (arith, found_matches hits rows r)

  added_row :
      (tb : Table K) (dest : S) (mask : ℕ) (gw_ip oif : S) (o : Option (Row K))
      → find (matches strncmp dest mask) tb.rows ≡ o
      → (row : Row K) × (find
            (matches strncmp dest mask)
            (add_or_update strncmp strncpy zeroed tb dest mask (some gw_ip) (some oif)).rows
          ≡ some row)
        × Shows strncmp strncpy row dest mask gw_ip oif
  unfolding add_or_update set_data
  added_row tb dest mask gw_ip oif none e =
      let new = new_row strncmp strncpy zeroed dest mask in
      let shows = given-Shows new dest mask gw_ip oif (new_row-hit dest mask) in
      (
        set_data strncmp strncpy zeroed new (some gw_ip) (some oif),
        rw (add_or_update, e) (find-first (matches strncmp dest mask) tb.rows _ shows.hit),
        shows,
      )
  added_row tb dest mask gw_ip oif (some r) e = (
    set_data strncmp strncpy zeroed r (some gw_ip) (some oif),
    rw (add_or_update, e)
        (find-change (matches strncmp dest mask)
          (λ q. set_data strncmp strncpy zeroed q (some gw_ip) (some oif)) tb.rows r (λ q. refl) e),
    given-Shows r dest mask gw_ip oif (found_matches (matches strncmp dest mask) tb.rows r e),
  )

  -- After any calls, an entry that is added or updated is found by a lookup of its key, with the data
  -- given. This is for a `strncmp` that finds what `strncpy` has copied equal to its source;
  -- registrations keep within the size of a key.
  pub added_found :
      (calls : List (Call S)) {rs : List (Reply K)} {t : RtTable K} (dest : S) (mask : ℕ)
      (gw_ip oif : S)
      → IsKeyed calls
      → run strncmp strncpy zeroed rt_init_rt_table calls ≡ some (rs, t)
      → (a : ℕ) × (u : RtTable K) × (row : Row K) × (rt_add_or_update_rt_entry strncmp strncpy
            zeroed t dest mask
            (some gw_ip)
            (some oif)
          ≡ some (a, u))
        × (look_row strncmp strncpy zeroed u dest mask ≡ some (some row))
        × Shows strncmp strncpy row dest mask gw_ip oif
  added_found calls {t = t} dest mask gw_ip oif keyed ran =
      let (v, e, rep) = run_refines strncmp strncpy zeroed calls new-Represents keyed in
      let same : v ≡ t = cc (e, ran) in
      let (a, u, added, rep') =
        add_refines strncmp strncpy zeroed rep dest mask (some gw_ip) (some oif) in
      let (row, found, shows) =
        added_row (answers strncmp strncpy zeroed empty calls).1 dest mask gw_ip oif _ refl in
      (
        a,
        u,
        row,
        ap
              (λ t.
                rt_add_or_update_rt_entry strncmp strncpy zeroed t dest mask (some gw_ip)
                  (some oif))
              (sym same)
            ∙ added,
        look_row-find strncmp strncpy zeroed rep' dest mask ∙ ap some found,
        shows,
      )
