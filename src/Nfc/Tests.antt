-- ===== src/Nfc/Tests.antt =====
-- Runs of the routing table, with numbers for the strings.
use multithreading_bible.Common.{
  ℕ, ◌≡◌, Bool, true, false, none, some, List, [], ◌∷◌, ◌==◌, arith, refl, ==_iff,
}
use multithreading_bible.Nfc.{
  Nfce, nfc_add, nfc_mod, Row, RtTable, is_invoked, rt_init_rt_table, rt_add_or_update_rt_entry,
  rt_entry_remove, rt_look_up_rt_entry, look, link, notify, tell, set_prev, set_next,
  nfc_invoke_notif_chain, rt_delete_rt_entry, rt_table_register_for_notification, set_data,
}
use multithreading_bible.Nfc.Runs.{
  Call, add, del, sub, get, IsKeyed, look_row, run, call, answer, answers, empty, table_refines,
}
use multithreading_bible.Nfc.Found.{Shows, added_found}
use multithreading_bible.Nfc.Spec.{
  add_or_update, remove_row, subscribe, find, change, delete, calls,
}

abbrev copy : ℕ → ℕ → ℕ
copy n s = s

abbrev same : ℕ → ℕ → ℕ → Bool
same n b s = b == s

-- Two subscribers come before the publisher of key 10/24; another entry comes and goes.
abbrev script : List (Call ℕ)
script =
    sub 10 24 0 1 100
    ∷ sub 10 24 0 2 200
    ∷ add 11 24 (some 5) none
    ∷ add 10 24 (some 7) (some 8)
    ∷ get 11 24
    ∷ del 11 24
    ∷ get 11 24
    ∷ del 11 24
    ∷ []

script-IsKeyed : IsKeyed script
script-IsKeyed = omega arith

abbrev row_ten : ℕ → ℕ → List Nfce → Row ℕ
row_ten gw oif nfc = record { dest = 10; mask = 24; gw_ip = gw; oif = oif; nfc = nfc }

abbrev first_one : Nfce
first_one = record { key = []; subs_id = 100; is_key_set = false; app_cb = 1 }

abbrev second_one : Nfce
second_one = record { key = []; subs_id = 200; is_key_set = false; app_cb = 2 }

-- The second subscriber is told of an entry that nobody has published; at its publication both are
-- told that it is modified, the last to come first.
told_of_script :
    (answers same copy 0 empty script).1.notified
    ≡ record {
      app_cb = 2;
      arg = row_ten 0 0 (second_one ∷ first_one ∷ []);
      nfc_op_code = nfc_add;
      subs_id = 200;
    }
      ∷ record {
        app_cb = 2;
        arg = row_ten 7 8 (second_one ∷ first_one ∷ []);
        nfc_op_code = nfc_mod;
        subs_id = 200;
      }
      ∷ record {
        app_cb = 1;
        arg = row_ten 7 8 (second_one ∷ first_one ∷ []);
        nfc_op_code = nfc_mod;
        subs_id = 100;
      }
      ∷ []
unfolding answers answer add_or_update remove_row subscribe find change delete calls set_data
told_of_script = refl

table_refines_example :
    (t : RtTable ℕ) × (run same copy 0 rt_init_rt_table script
      ≡ some ((answers same copy 0 empty script).0, t))
    × (t.notified ≡ (answers same copy 0 empty script).1.notified)
table_refines_example = table_refines same copy 0 script script-IsKeyed

-- A subscriber with a key of another size is called whatever the keys.
other_size :
    is_invoked (1 ∷ 2 ∷ []) (record { key = 3 ∷ []; subs_id = 1; is_key_set = true; app_cb = 1 })
    ≡ true
unfolding is_invoked
other_size = refl

-- The table after the script.
abbrev after_script : RtTable ℕ
after_script = elim (run same copy 0 rt_init_rt_table script) [
  | none ↦ rt_init_rt_table
  | some r ↦ r.1
]

added_found_example :
    (a : ℕ) × (u : RtTable ℕ) × (row : Row ℕ) × (rt_add_or_update_rt_entry same copy 0 after_script
        10 24
        (some 3)
        (some 4)
      ≡ some (a, u))
    × (look_row same copy 0 u 10 24 ≡ some (some row))
    × Shows same copy row 10 24 3 4
unfolding run call look_row rt_init_rt_table rt_add_or_update_rt_entry rt_delete_rt_entry
    rt_table_register_for_notification rt_look_up_rt_entry look link notify tell set_data set_prev
    set_next rt_entry_remove nfc_invoke_notif_chain
added_found_example =
    added_found same copy 0 (λ n s. (==_iff s s).1 refl) script 10 24 3 4 script-IsKeyed refl
