-- ===== src/Tables/Sockets.antt =====
-- odp_tables.c and odp_lib.c: the tables on each socket in two replicas, and their changes.
use macsad.Prelude.{
  ℕ, zero, suc, ◌+◌, ◌%◌, Option, none, some, List, [], ◌∷◌, ◌==◌, ◌&&◌, if◌then◌else◌, ◌and_then◌,
}
use macsad.Tables.{
  nb_replica, nb_sockets, Odph, LookupTable, table_create, exact_add, lpm_add, ternary_add,
  table_setdefault,
}

-- `struct socket_state state[NB_SOCKETS]`: the table of a number by socket and replica, and the
-- active replica.
pub record SocketStates (T : Type 0) : Type 0 where
  pub tables : ℕ → ℕ → ℕ → Option T
  pub active_replica : ℕ → ℕ → ℕ

-- An assignment to `state[socketid].tables[tableid][replica]`
abbrev pub set_table : {T : Type 0} → SocketStates T → ℕ → ℕ → ℕ → T → SocketStates T
set_table st socketid tableid replica y = record st {
  tables = λ s t r.
      if (s == socketid) && ((t == tableid) && (r == replica)) then some y else st.tables s t r;
}

module _ {T : Type 0} (fun : T → Option T) where
  -- `fun(state[socketid].tables[tableid][replica], par)`, a fault on NULL
  unfoldable pub apply : SocketStates T → ℕ → ℕ → ℕ → Option (SocketStates T)
  apply st socketid tableid replica =
      st.tables socketid tableid replica
      and_then fun
      and_then (λ y. some (set_table st socketid tableid replica y))

  -- The loop over the other replicas, of which `n` are left.
  unfoldable pub other_replicas : SocketStates T → ℕ → ℕ → ℕ → ℕ → ℕ → Option (SocketStates T)
  unfolding apply
  other_replicas st socketid tableid next replica zero = some st
  other_replicas st socketid tableid next replica (suc n) =
      let skipped = other_replicas st socketid tableid next (replica + 1) n in
      if replica == next
      then skipped
      else apply st socketid tableid replica
        and_then (λ st'. other_replicas st' socketid tableid next (replica + 1) n)

  -- CHANGE_TABLE; `change_replica` has no code left, so the active replica stays.
  unfoldable pub change_table : SocketStates T → ℕ → ℕ → Option (SocketStates T)
  unfolding other_replicas
  change_table st socketid tableid =
      let next = (st.active_replica socketid tableid + 1) % nb_replica in
      apply st socketid tableid next
      and_then (λ st'. other_replicas st' socketid tableid next 0 nb_replica)

  -- FORALLNUMANODES(CHANGE_TABLE(...)), with `n` sockets left.
  unfoldable pub for_all_nodes : SocketStates T → ℕ → ℕ → ℕ → Option (SocketStates T)
  unfolding change_table
  for_all_nodes st tableid socketid zero = some st
  for_all_nodes st tableid socketid (suc n) = elim (st.tables socketid 0 0) [
    | none ↦ for_all_nodes st tableid (socketid + 1) n
    | some t ↦
        change_table st socketid tableid
        and_then (λ st'. for_all_nodes st' tableid (socketid + 1) n)
  ]

  abbrev pub promote : SocketStates T → ℕ → Option (SocketStates T)
  promote st tableid = for_all_nodes st tableid 0 nb_sockets

module _ {E L : Type 0} (odph : Odph E L) where
  unfoldable pub exact_add_promote :
      ℕ → List ℕ → List ℕ → SocketStates (LookupTable E L) → Option (SocketStates (LookupTable E L))
  exact_add_promote tableid key value st = promote (exact_add odph key value) st tableid

  unfoldable pub lpm_add_promote :
      List ℕ
      → ℕ
      → List ℕ
      → ℕ
      → List ℕ
      → SocketStates (LookupTable E L)
      → Option (SocketStates (LookupTable E L))
  lpm_add_promote junk tableid key depth value st =
      promote (lpm_add odph junk key depth value) st tableid

  unfoldable pub ternary_add_promote :
      ℕ
      → List ℕ
      → List ℕ
      → List ℕ
      → SocketStates (LookupTable E L)
      → Option (SocketStates (LookupTable E L))
  ternary_add_promote tableid key mask value st = promote (ternary_add key mask value) st tableid

  unfoldable pub table_setdefault_promote :
      List ℕ → ℕ → List ℕ → SocketStates (LookupTable E L) → Option (SocketStates (LookupTable E L))
  table_setdefault_promote junk tableid value st = promote (table_setdefault junk value) st tableid

  -- The loops of `create_tables_on_socket` over the replicas and the tables of the P4 program, of
  -- which `n` are left.
  unfoldable pub create_replicas :
      SocketStates (LookupTable E L)
      → ℕ
      → ℕ
      → LookupTable E L
      → ℕ
      → ℕ
      → Option (SocketStates (LookupTable E L))
  create_replicas st socketid i t j zero = some st
  create_replicas st socketid i t j (suc n) =
      table_create odph socketid j t
      and_then (λ t'. create_replicas (set_table st socketid i j t') socketid i t (j + 1) n)

  unfoldable pub create_tables :
      SocketStates (LookupTable E L)
      → ℕ
      → ℕ
      → List (LookupTable E L)
      → Option (SocketStates (LookupTable E L))
  unfolding create_replicas
  create_tables st socketid i [] = some st
  create_tables st socketid i (t ∷ table_config) =
      create_replicas st socketid i t 0 nb_replica and_then (λ st'.
        create_tables
          (record st' {
            active_replica =
                λ s k. if (s == socketid) && (k == i) then 0 else st'.active_replica s k;
          })
          socketid (i + 1) table_config)

  abbrev pub create_tables_on_socket :
      List (LookupTable E L)
      → ℕ
      → SocketStates (LookupTable E L)
      → Option (SocketStates (LookupTable E L))
  create_tables_on_socket table_config socketid st = create_tables st socketid 0 table_config

  -- The loop over the cores, all on SOCKET_DEF, 0, of which `n` are left.
  unfoldable pub init_cores :
      List (LookupTable E L)
      → ℕ
      → SocketStates (LookupTable E L)
      → Option (SocketStates (LookupTable E L))
  unfolding create_tables
  init_cores table_config zero st = some st
  init_cores table_config (suc n) st = elim (st.tables 0 0 0) [
    | none ↦ create_tables_on_socket table_config 0 st and_then (init_cores table_config n)
    | some t ↦ init_cores table_config n st
  ]

  -- MAC_MAX_LCORE is 32.
  unfoldable pub odpc_lookup_tbls_init :
      List (LookupTable E L)
      → SocketStates (LookupTable E L)
      → Option (SocketStates (LookupTable E L))
  unfolding init_cores
  odpc_lookup_tbls_init table_config st = init_cores table_config 32 st

-- `odpc_lcore_conf_init`: the tables that all workers look up in, `gconf->state.tables`, are the first
-- replicas on socket 0.
abbrev pub odpc_lcore_conf_init : {T : Type 0} → SocketStates T → ℕ → Option T
odpc_lcore_conf_init st i = st.tables 0 i 0
