-- ===== src/Tables.antt =====
-- odp_tables.c: the tables of the switch. A value in memory that nobody changes later is its bytes; NULL
-- is `none`. The result `none` of a step is the end of the process, by `exit` or by a fault.
pub mod Sockets
pub mod Replicas
pub mod Lookup
pub mod Create
pub mod Init
use macsad.Prelude.{
  ℕ, zero, suc, ◌+◌, ◌*◌, ◌/◌, ◌%◌, ◌^◌, Bool, true, false, Option, none, some, List, [], ◌∷◌, ◌++◌,
  ltb, ◌==◌, ◌&&◌, if◌then◌else◌, ◌and_then◌, take, get_or, map,
}
use macsad.Prelude.Int.{ℤ, pos, negsuc, is_negative}

-- TABLE_SIZE, NB_REPLICA, NB_SOCKETS, and the byte that is left of DEFAULT_ACTION_INDEX, -42
abbrev pub table_size : ℕ
table_size = 8192

abbrev pub nb_replica : ℕ
nb_replica = 2

abbrev pub nb_sockets : ℕ
nb_sockets = 8

abbrev pub default_action_index : ℕ
default_action_index = 214

-- The tables of the OpenDataPlane helper library, which is not in the repository: `E` and `L` stand
-- for the states of its hash tables and of its tables of IP prefixes. `create` is for a name, a
-- capacity, a key size and a value size, once a table of the same name has been destroyed, which is
-- not modelled; NULL is `none`. A prefix is an address and a length.
pub record Odph (E L : Type 0) : Type 0 where
  pub cuckoo_create : List ℕ → ℕ → ℕ → ℕ → Option E
  pub cuckoo_put : E → List ℕ → List ℕ → ℤ × E
  pub cuckoo_get : E → List ℕ → ℤ × List ℕ
  pub iplookup_create : List ℕ → ℕ → ℕ → ℕ → Option L
  pub iplookup_put : L → ℕ → ℕ → List ℕ → ℤ × L
  pub iplookup_get : L → ℕ → ℤ × List ℕ

-- LOOKUP_EXACT, LOOKUP_LPM, LOOKUP_TERNARY
pub data LookupType : Type 0 where
  lookup_exact : LookupType
  lookup_lpm : LookupType
  lookup_ternary : LookupType

pub data OdpTable (E L : Type 0) : Type 0 where
  cuckoo : E → OdpTable E L
  iplookup : L → OdpTable E L

-- `extended_table_t`
pub record ExtendedTable (E L : Type 0) : Type 0 where
  pub odp_table : OdpTable E L
  pub size : ℕ
  pub kv : List ℕ
  pub content : ℕ → Option (List ℕ)

-- `lookup_table_t`, without its number and sizes in the P4 program.
pub record LookupTable (E L : Type 0) : Type 0 where
  pub name : List ℕ
  pub type : LookupType
  pub key_size : ℕ
  pub val_size : ℕ
  pub counter : ℕ
  pub default_val : Option (List ℕ)
  pub table : Option (ExtendedTable E L)
  pub socketid : ℕ

-- `add_index`, and `copy_to_socket` of what it returns: one byte of the index; the other three bytes
-- are what the memory held.
abbrev pub add_index : List ℕ → List ℕ → ℕ → ℕ → List ℕ
add_index junk value val_size index = take val_size value ++ (index % 2 ^ 8) ∷ take 3 junk

abbrev pub zeros : ℕ → List ℕ
zeros zero = []
zeros (suc n) = 0 ∷ zeros n

-- `%d` for an `int` that is not negative, which has at most ten digits.
abbrev pub decimal_from : ℕ → ℕ → List ℕ
decimal_from zero n = []
decimal_from (suc fuel) n =
    let front = decimal_from fuel (n / 10) in
    if ltb n 10 then (48 + n) ∷ [] else front ++ (48 + n % 10) ∷ []

abbrev pub decimal : ℕ → List ℕ
decimal n = decimal_from 10 n

-- The name of a table in the library, "%s_exact_%d_%d" or "%s_lpm_%d_%d", which `snprintf` cuts to
-- MACS_TABLE_NAME_LEN, 64, with the 0 at its end.
abbrev pub exact_infix : List ℕ
exact_infix = 95 ∷ 101 ∷ 120 ∷ 97 ∷ 99 ∷ 116 ∷ 95 ∷ []

abbrev pub lpm_infix : List ℕ
lpm_infix = 95 ∷ 108 ∷ 112 ∷ 109 ∷ 95 ∷ []

abbrev pub library_name : List ℕ → List ℕ → ℕ → ℕ → List ℕ
library_name name kind socketid replica_id =
    take 63 (name ++ kind ++ decimal socketid ++ 95 ∷ decimal replica_id)

-- The address of a key of four bytes.
abbrev pub prefix_ip : List ℕ → ℕ
prefix_ip key =
    get_or key 0 0 * 2 ^ 24 + get_or key 1 0 * 2 ^ 16 + get_or key 2 0 * 2 ^ 8 + get_or key 3 0

module _ {E L : Type 0} where
  unfoldable pub create_ext_table : LookupTable E L → OdpTable E L → LookupTable E L
  create_ext_table t table = record t {
    table =
        some (record { odp_table = table; size = 0; kv = zeros t.val_size; content = λ i. none });
  }

  unfoldable pub table_setdefault : List ℕ → List ℕ → LookupTable E L → Option (LookupTable E L)
  table_setdefault junk value t =
      some (record t { default_val = some (add_index junk value t.val_size default_action_index) })

  unfoldable pub ternary_add : List ℕ → List ℕ → List ℕ → LookupTable E L → Option (LookupTable E L)
  ternary_add key mask value t = some t

  unfoldable pub ternary_lookup : LookupTable E L → List ℕ → Option (List ℕ)
  ternary_lookup t key = none

  module _ (odph : Odph E L) where
    unfoldable pub table_create : ℕ → ℕ → LookupTable E L → Option (LookupTable E L)
    unfolding create_ext_table
    table_create socketid replica_id t =
        let t' = record t { socketid = socketid } in
        if t.key_size == 0 then some t' else elim t.type [
          | lookup_exact ↦
              odph.cuckoo_create (library_name t.name exact_infix socketid replica_id) table_size
                t.key_size t.val_size
              and_then (λ tbl. some (create_ext_table t' (cuckoo tbl)))
          | lookup_lpm ↦
              odph.iplookup_create (library_name t.name lpm_infix socketid replica_id) 2 t.key_size
                t.val_size
              and_then (λ tbl. some (create_ext_table t' (iplookup tbl)))
          | lookup_ternary ↦ some t'
        ]

    -- The part of `exact_add` behind the test of the key size.
    unfoldable pub exact_put :
        List ℕ → List ℕ → LookupTable E L → Option (ExtendedTable E L) → Option (LookupTable E L)
    exact_put key value t none = none
    exact_put key value t (some ext) = elim ext.odp_table [
      | cuckoo tbl ↦
          let (ret, tbl') = odph.cuckoo_put tbl (take t.key_size key) (take t.val_size value) in
          if is_negative ret
          then none
          else some (record t { table = some (record ext { odp_table = cuckoo tbl' }) })
      | iplookup tbl ↦ none
    ]

    unfoldable pub exact_add : List ℕ → List ℕ → LookupTable E L → Option (LookupTable E L)
    unfolding exact_put
    exact_add key value t = if t.key_size == 0 then some t else exact_put key value t t.table

    -- The part of `lpm_add` behind the test of the key size, for the index of the value.
    unfoldable pub lpm_put :
        List ℕ
        → ℕ
        → ℕ
        → List ℕ
        → LookupTable E L
        → Option (ExtendedTable E L)
        → Option (LookupTable E L)
    lpm_put junk ip depth value t none = none
    lpm_put junk ip depth value t (some ext) = elim ext.odp_table [
      | cuckoo tbl ↦ none
      | iplookup tbl ↦
          let stored = add_index junk value t.val_size t.counter in
          let content : ℕ → Option (List ℕ) =
            λ i. if i == ext.size then some stored else ext.content i in
          let (ret, tbl') = odph.iplookup_put tbl ip depth (take t.val_size value) in
          let ext' = record ext {
            odp_table = iplookup tbl';
            size = (ext.size + 1) % 2 ^ 32;
            content = content;
          } in
          if ltb ext.size table_size && not_minus_one ret
          then some (record t { counter = (t.counter + 1) % 2 ^ 32; table = some ext' })
          else none
    ]
      where
        not_minus_one : ℤ → Bool
        not_minus_one (pos n) = true
        not_minus_one (negsuc n) = ltb 0 n

    -- The bytes of a `uint8_t` key are below 256; `key[4]` is set to the length.
    unfoldable pub lpm_add :
        List ℕ → List ℕ → ℕ → List ℕ → LookupTable E L → Option (LookupTable E L)
    unfolding lpm_put
    lpm_add junk key depth value t =
        if t.key_size == 0 then some t else lpm_put junk (prefix_ip key) depth value t t.table

    -- The result of a lookup and the table, in which the hash table's value has been copied to `kv`.
    unfoldable pub exact_get :
        List ℕ
        → LookupTable E L
        → Option (ExtendedTable E L)
        → Option (Option (List ℕ) × LookupTable E L)
    exact_get key t none = none
    exact_get key t (some ext) = elim ext.odp_table [
      | cuckoo tbl ↦
          let (ret, result) = odph.cuckoo_get tbl (take t.key_size key) in
          if is_negative ret
          then some (t.default_val, t)
          else some (some result, record t { table = some (record ext { kv = result }) })
      | iplookup tbl ↦ none
    ]

    unfoldable pub exact_lookup :
        LookupTable E L → List ℕ → Option (Option (List ℕ) × LookupTable E L)
    unfolding exact_get
    exact_lookup t key =
        if t.key_size == 0 then some (t.default_val, t) else exact_get key t t.table

    unfoldable pub lpm_get :
        ℕ → LookupTable E L → Option (ExtendedTable E L) → Option (Option (List ℕ))
    lpm_get ip t none = none
    lpm_get ip t (some ext) = elim ext.odp_table [
      | cuckoo tbl ↦ none
      | iplookup tbl ↦
          let (ret, result) = odph.iplookup_get tbl ip in
          if is_negative ret then some t.default_val else some (some result)
    ]

    unfoldable pub lpm_lookup : LookupTable E L → List ℕ → Option (Option (List ℕ))
    unfolding lpm_get
    lpm_lookup t key =
        if t.key_size == 0 then some t.default_val else lpm_get (prefix_ip key) t t.table
