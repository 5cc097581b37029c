-- ===== src/Tables/Init.antt =====
-- odp_tables.c: the tables of a switch that has been initialised, and what its workers find in them.
use macsad.Prelude.{ℕ, ◌≡◌, ◌<◌, none, some, List, ◌∷◌, refl, arith, Ends}
use macsad.Prelude.Int.{pos}
use macsad.Tables.{Odph, LookupTable}
use macsad.Tables.Sockets.{SocketStates, odpc_lookup_tbls_init}
use macsad.Tables.Lookup.{IsHashTable, Takes}
use macsad.Tables.Create.{AreCreated, AreMade, create_tables-AreCreated, init_cores_lem}

-- The library makes the tables of a P4 program, of which there is at least one, and no socket has
-- tables yet. odpc_lookup_tbls_init ends, and has created every table of the program once in each
-- of the two replicas on socket 0, and no table anywhere else; replica 0 is active everywhere if it
-- was.
pub odpc_lookup_tbls_init-AreCreated :
    {E L : Type 0} (odph : Odph E L) (t : LookupTable E L) (config : List (LookupTable E L))
    (st : SocketStates (LookupTable E L))
    → AreMade odph (t ∷ config)
    → st.tables 0 0 0 ≡ none
    → Ends (odpc_lookup_tbls_init odph (t ∷ config) st) (AreCreated odph st 0 (t ∷ config))
unfolding odpc_lookup_tbls_init
odpc_lookup_tbls_init-AreCreated odph t config st m z =
    let (st', r, f) = create_tables-AreCreated odph (t ∷ config) st 0 m in
    let (y, _, k) = f.each 0 0 t refl (omega arith) in
    (st', init_cores_lem odph 31 (t ∷ config) st st' y z r k, f)

-- What the helper library says of its new hash tables: with a capacity above 0 they take an entry.
pub record TakesFirst {E L : Type 0} (odph : Odph E L) : Type 0 where
  pub first :
      (name : List ℕ) (capacity key_size val_size : ℕ) (e : E)
      → odph.cuckoo_create name capacity key_size val_size ≡ some e
      → 0 < capacity
      → (k v : List ℕ) → (n : ℕ) × (e' : E) × (odph.cuckoo_put e k v ≡ (pos n, e'))

-- A new hash table with the sizes of `t`, which takes an entry.
IsNew : {E L : Type 0} → Odph E L → LookupTable E L → LookupTable E L → Type 0
IsNew odph t y =
    (y.val_size ≡ t.val_size)
    × (h : IsHashTable odph y) × ((key value : List ℕ) → Takes odph key value y h)
