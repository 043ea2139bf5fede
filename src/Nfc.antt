-- ===== src/Nfc.antt =====
-- ThreadBasics/NFC: a routing table (rt.c, rt.h) whose entries keep chains of subscribers (notif.c,
-- notif.h). The table is a doubly linked list on a heap. `none` is a fault: a failed `assert`, or the
-- use of a NULL or freed pointer. The C library's `strncpy` and `strncmp` are arguments: what a buffer
-- of some size holds of a string, and whether the two agree up to that size.
pub mod Links
pub mod Relink
pub mod Removal
pub mod Spec
pub mod Lookup
pub mod Refines
pub mod Placing
pub mod Adding
pub mod Subscribing
pub mod Delete
pub mod Runs
pub mod Found
pub mod Tests
use multithreading_bible.Common.{
  ℕ, zero, suc, ◌+◌, ◌≡◌, Bool, true, false, not, ◌&&◌, ◌||◌, Option, none, some, List, [], ◌∷◌,
  ◌++◌, ◌==◌, leb, is_set, if◌then◌else◌,
}
use multithreading_bible.Common.Lists.{length}
use multithreading_bible.Common.Options.{◌>>=◌}
use multithreading_bible.Common.Sums.{put}

pub data NfcOp : Type 0 where
  nfc_unknown nfc_sub nfc_add nfc_mod nfc_del : NfcOp

-- `notif_chain_elem_t`. A callback is known by a number; the key's size is the length of `key`.
pub record Nfce : Type 0 where
  pub key : List ℕ
  pub subs_id : ℕ
  pub is_key_set : Bool
  pub app_cb : ℕ

-- A call of a callback, with the entry that it was given.
pub record Notif (E : Type 0) : Type 0 where
  pub app_cb : ℕ
  pub arg : E
  pub nfc_op_code : NfcOp
  pub subs_id : ℕ

-- `MAX_NOTIF_KEY_SIZE`.
abbrev pub max_notif_key_size : ℕ
max_notif_key_size = 64

-- A chain is its elements from the head on.
abbrev pub nfc_create_new_notif_chain : List Nfce
nfc_create_new_notif_chain = []

abbrev pub nfc_register_notif_chain : List Nfce → Nfce → List Nfce
nfc_register_notif_chain nfc nfce = nfce ∷ nfc

-- `memcmp (a, b, n) == 0`, both of `n` bytes.
pub memcmp_equal : List ℕ → List ℕ → Bool
memcmp_equal [] [] = true
memcmp_equal [] (y ∷ ys) = false
memcmp_equal (x ∷ xs) [] = false
memcmp_equal (x ∷ xs) (y ∷ ys) = x == y && memcmp_equal xs ys

-- The test of `nfc_invoke_notif_chain` for one element; NULL is no bytes.
pub is_invoked : List ℕ → Nfce → Bool
unfolding memcmp_equal
is_invoked key nfce =
    if not (not (length key == 0) && nfce.is_key_set && length key == length nfce.key)
    then true
    else memcmp_equal key nfce.key

module _ {E : Type 0} where
  pub invoke_all : List Nfce → E → List ℕ → NfcOp → List (Notif E)
  unfolding is_invoked
  invoke_all [] arg key op = []
  invoke_all (nfce ∷ nfc) arg key op =
      let rest = invoke_all nfc arg key op in
      if is_invoked key nfce
      then record { app_cb = nfce.app_cb; arg = arg; nfc_op_code = op; subs_id = nfce.subs_id }
        ∷ rest
      else rest

  pub nfc_invoke_notif_chain : List Nfce → E → List ℕ → NfcOp → Option (List (Notif E))
  unfolding invoke_all
  nfc_invoke_notif_chain [] arg key op = some []
  nfc_invoke_notif_chain (nfce ∷ nfc) arg key op =
      if leb (length key) max_notif_key_size
      then some (invoke_all (nfce ∷ nfc) arg key op)
      else none

-- The content of an `rt_entry_t`: its keys, its data and its chain. `K` is what a buffer holds.
pub record Row (K : Type 0) : Type 0 where
  pub dest : K
  pub mask : ℕ
  pub gw_ip : K
  pub oif : K
  pub nfc : List Nfce

-- `rt_entry_t`.
pub record RtEntry (K : Type 0) : Type 0 where
  pub row : Row K
  pub prev : Option ℕ
  pub next : Option ℕ

-- `rt_table_t` with the heap of entries, the address that `calloc` gives next, which is always a new
-- one, and the callbacks made.
pub record RtTable (K : Type 0) : Type 0 where
  pub head : Option ℕ
  pub heap : ℕ → Option (RtEntry K)
  pub fresh : ℕ
  pub notified : List (Notif (Row K))

module _ {K : Type 0} where
  unfoldable pub rt_init_rt_table : RtTable K
  rt_init_rt_table = record { head = none; heap = λ _. none; fresh = 0; notified = [] }

  abbrev pub store : RtTable K → ℕ → RtEntry K → RtTable K
  store t a e = record t { heap = put t.heap a (some e) }

  -- `free` of an entry.
  abbrev pub release : RtTable K → ℕ → RtTable K
  release t a = record t { heap = put t.heap a none }

  -- `p->prev = q` and `p->next = q`.
  unfoldable pub set_prev : RtTable K → ℕ → Option ℕ → Option (RtTable K)
  set_prev t p q = t.heap p >>= λ e. some (store t p (record e { prev = q }))

  unfoldable pub set_next : RtTable K → ℕ → Option ℕ → Option (RtTable K)
  set_next t p q = t.heap p >>= λ e. some (store t p (record e { next = q }))

  unfoldable pub rt_entry_remove : RtTable K → ℕ → Option (RtTable K)
  rt_entry_remove t a = t.heap a >>= λ e. elim e.prev [
    | none ↦ elim e.next [
      | none ↦ some (record t { head = none })
      | some n ↦ set_prev t n none >>= λ u. set_next (record u { head = some n }) a none
    ]
    | some p ↦ elim e.next [
      | none ↦ set_next t p none >>= λ u. set_prev u a none
      | some n ↦ set_next t p (some n) >>= λ u.
          set_prev u n (some p) >>= λ v. set_prev v a none >>= λ w. set_next w a none
    ]
  ]

  -- The new entry goes to the head.
  unfoldable pub link : RtTable K → Row K → Option (ℕ × RtTable K)
  link t row =
      let a = t.fresh in
      let u : RtTable K = record t {
        heap = put t.heap a (some (record { row = row; prev = none; next = t.head }));
        head = some a;
        fresh = a + 1;
      } in
      elim t.head [ none ↦ some (a, u) | some b ↦ set_prev u b (some a) >>= λ v. some (a, v) ]

  -- The subscribers of the chain are called with the entry's content; no key is given.
  unfoldable pub notify : RtTable K → Row K → NfcOp → Option (RtTable K)
  notify t row op = nfc_invoke_notif_chain row.nfc row [] op >>= λ calls.
      some (record t { notified = t.notified ++ calls })

  -- `if (gw_ip || oif)`: the subscribers of a changed entry are called. The entry is returned.
  unfoldable pub tell : Bool → RtTable K → ℕ → Option (ℕ × RtTable K)
  tell false t a = some (a, t)
  tell true t a = do e ← t.heap a; u ← notify t e.row nfc_mod; some (a, u)

-- `strncmp n b s` says that a buffer and a string agree in the first `n` bytes; `strncpy n s` is
-- what a buffer of `n` bytes holds after the copy, and `zeroed` a buffer that `calloc` gives.
module _ {S K : Type 0} (strncmp : ℕ → K → S → Bool) where
  abbrev pub matches : S → ℕ → Row K → Bool
  matches dest mask row = strncmp 16 row.dest dest && row.mask == mask

  -- The loop of `rt_look_up_rt_entry` and of `rt_delete_rt_entry`.
  unfoldable pub look : ℕ → (ℕ → Option (RtEntry K)) → Option ℕ → S → ℕ → Option (Option ℕ)
  look fuel heap none dest mask = some none
  look zero heap (some a) dest mask = none
  look (suc fuel) heap (some a) dest mask = heap a >>= λ e.
      let rest = look fuel heap e.next dest mask in
      if matches dest mask e.row then some (some a) else rest

  unfoldable pub rt_look_up_rt_entry : RtTable K → S → ℕ → Option (Option ℕ)
  rt_look_up_rt_entry t dest mask = look t.fresh t.heap t.head dest mask

  unfoldable pub rt_delete_rt_entry : RtTable K → S → ℕ → Option (Bool × RtTable K)
  rt_delete_rt_entry t dest mask = do
    found ← rt_look_up_rt_entry t dest mask
    elim found [
      | none ↦ some (false, t)
      | some a ↦ do
        u ← rt_entry_remove t a
        e ← u.heap a
        v ← notify u e.row nfc_del
        some (true, release v a)
    ]

  module _ (strncpy : ℕ → S → K) (zeroed : K) where
    -- The data that the publisher gives; NULL leaves it.
    unfoldable pub set_data : Row K → Option S → Option S → Row K
    set_data row gw_ip oif = record row {
      gw_ip = elim gw_ip [ none ↦ row.gw_ip | some s ↦ strncpy 16 s ];
      oif = elim oif [ none ↦ row.oif | some s ↦ strncpy 32 s ];
    }

    abbrev pub new_row : S → ℕ → Row K
    new_row dest mask = record {
      dest = strncpy 16 dest;
      mask = mask;
      gw_ip = zeroed;
      oif = zeroed;
      nfc = nfc_create_new_notif_chain;
    }

    unfoldable pub rt_add_or_update_rt_entry :
        RtTable K → S → ℕ → Option S → Option S → Option (ℕ × RtTable K)
    rt_add_or_update_rt_entry t dest mask gw_ip oif = do
      found ← rt_look_up_rt_entry t dest mask
      (a, u) ← elim found [
        | none ↦ link t (set_data (new_row dest mask) gw_ip oif)
        | some a ↦
            t.heap a >>= λ e. some (a, store t a (record e { row = set_data e.row gw_ip oif }))
      ]
      tell (is_set gw_ip || is_set oif) u a

    -- A subscriber that comes to an entry that is there is called at once.
    unfoldable pub rt_table_register_for_notification :
        RtTable K → S → ℕ → ℕ → ℕ → ℕ → Option (RtTable K)
    rt_table_register_for_notification t dest mask key_size app_cb subs_id = do
      found ← rt_look_up_rt_entry t dest mask
      (a, u) ← elim found [
        | none ↦ rt_add_or_update_rt_entry t dest mask none none
        | some a ↦ some (a, t)
      ]
      e ← if leb key_size max_notif_key_size then u.heap a else none
      let nfce : Nfce = record { key = []; subs_id = subs_id; is_key_set = false; app_cb = app_cb }
      let row = record e.row { nfc = nfc_register_notif_chain e.row.nfc nfce }
      let v = store u a (record e { row = row })
      let call : Notif (Row K) = record {
        app_cb = app_cb;
        arg = row;
        nfc_op_code = nfc_add;
        subs_id = subs_id;
      }
      some (if is_set found then record v { notified = v.notified ++ (call ∷ []) } else v)
