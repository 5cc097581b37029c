-- ===== src/Tables/Lookup.antt =====
-- odp_tables.c: what a lookup in a hash table finds after an entry has been added.
use macsad.Prelude.{
  ℕ, ◌≡◌, ◌≢◌, ◌∙◌, ◌<◌, ◌==◌, Bool, true, false, none, some, Option, List, refl, sym, ap, arith,
  if◌then◌else◌, take, Ends,
}
use macsad.Prelude.Int.{ℤ, pos, is_negative}
use macsad.Tables.{
  Odph, cuckoo, ExtendedTable, LookupTable, exact_put, exact_add, exact_get, exact_lookup,
}
use macsad.Tables.Sockets.{SocketStates, exact_add_promote}
use macsad.Tables.Replicas.{IsInitial, IsEnabled, IsPromoted, promote-IsPromoted}

-- What the helper library says of its hash tables: a value that it took, which it need not, is got for
-- its key, and for the other keys nothing changes.
pub record IsMap {E L : Type 0} (odph : Odph E L) : Type 0 where
  pub got :
      (e e' : E) (k v : List ℕ) (n : ℕ)
      → odph.cuckoo_put e k v ≡ (pos n, e')
      → (m : ℕ) × (odph.cuckoo_get e' k ≡ (pos m, v))
  pub kept :
      (e e' : E) (k v k' : List ℕ) (n : ℕ)
      → odph.cuckoo_put e k v ≡ (pos n, e')
      → k' ≢ k
      → odph.cuckoo_get e' k' ≡ odph.cuckoo_get e k'

module _ {E L : Type 0} (odph : Odph E L) where
  -- The pointer that a lookup returns, as the bytes behind it.
  abbrev pub result_of : Option (Option (List ℕ) × LookupTable E L) → Option (Option (List ℕ))
  result_of none = none
  result_of (some (v, t)) = some v

  abbrev pub found : LookupTable E L → List ℕ → Option (Option (List ℕ))
  found t key = result_of (exact_lookup odph t key)

  -- A table of type LOOKUP_EXACT as `table_create` leaves it, with keys.
  pub record IsHashTable (t : LookupTable E L) : Type 0 where
    pub keyed : (t.key_size == 0) ≡ false
    pub ext : ExtendedTable E L
    pub tbl : E
    pub extended : t.table ≡ some ext
    pub hashed : ext.odp_table ≡ cuckoo tbl

  -- The hash table takes the entry.
  abbrev pub Takes : List ℕ → List ℕ → (x : LookupTable E L) → IsHashTable x → Type 0
  Takes key value x h =
      (n : ℕ) × (e : E) × (odph.cuckoo_put h.tbl (take x.key_size key) (take x.val_size value)
        ≡ (pos n, e))

  -- A lookup in a hash table by what the library returns.
  answer : LookupTable E L → ℤ × List ℕ → Option (Option (List ℕ))
  answer t (ret, result) = if is_negative ret then some t.default_val else some (some result)

  result_of-if :
      (b : Bool) (x y : Option (Option (List ℕ) × LookupTable E L))
      → result_of (if b then x else y) ≡ (if b then result_of x else result_of y)
  result_of-if true x y = refl
  result_of-if false x y = refl

  found-answer :
      (t : LookupTable E L) (h : IsHashTable t) (key : List ℕ)
      → found t key ≡ answer t (odph.cuckoo_get h.tbl (take t.key_size key))
  unfolding exact_lookup exact_get answer
  found-answer t h key =
      rw (h.keyed, h.extended, h.hashed)
        (result_of-if (is_negative (odph.cuckoo_get h.tbl (take t.key_size key)).0) _ _)

  -- What adding an entry to a hash table does to later lookups.
  pub record IsAdded (key value : List ℕ) (x y : LookupTable E L) : Type 0 where
    pub here : found y key ≡ some (some (take x.val_size value))
    pub others :
        (other : List ℕ)
        → take x.key_size other ≢ take x.key_size key
        → found y other ≡ found x other

  exact_add-IsAdded :
      (law : IsMap odph) (key value : List ℕ) (x : LookupTable E L)
      → (h : IsHashTable x) → Takes key value x h
      → Ends (exact_add odph key value x) (IsAdded key value x)
  unfolding exact_add exact_put answer
  exact_add-IsAdded law key value x h (n, tbl', e) =
      let k = take x.key_size key in
      let v = take x.val_size value in
      let ext' = record (h.ext) { odp_table = cuckoo tbl' } in
      let y : LookupTable E L = record x { table = some ext' } in
      let hy : IsHashTable y = record {
        keyed = h.keyed;
        ext = ext';
        tbl = tbl';
        extended = refl;
        hashed = refl;
      } in
      let (m, g) = law.got h.tbl tbl' k v n e in
      (
        y,
        rw (h.keyed, h.extended, h.hashed, e) refl,
        record {
          here = found-answer y hy key ∙ ap (answer y) g;
          others = λ other d.
              found-answer y hy other
              ∙ ap (answer y) (law.kept h.tbl tbl' k v (take x.key_size other) n e d)
              ∙ sym (found-answer x h other);
        },
      )

  same_result :
      (key value : List ℕ) {x x' y y' : LookupTable E L} {o : Option (LookupTable E L)}
      → o ≡ some x
      → o ≡ some x'
      → exact_add odph key value x ≡ some y
      → exact_add odph key value x' ≡ some y'
      → y' ≡ y
  same_result key value i i' a a' = cc (i, i', a, a')

-- Replica 0 of every table is active on every socket, on every socket that has tables both replicas
-- of a table with keys and of the type LOOKUP_EXACT have been created and their hash tables take the
-- entry, and the helper library keeps what its hash tables take: exact_add_promote ends, and then,
-- in each of them, a lookup of the key finds the value; a lookup of a key that differs in its first
-- key_size bytes finds what it found before, and every other table is as it was.
pub exact_add_promote-IsAdded :
    {E L : Type 0} (odph : Odph E L) (tableid : ℕ) (key value : List ℕ)
    (st : SocketStates (LookupTable E L))
    → IsMap odph
    → IsInitial st
    → ((s r : ℕ)
        → s < 8
        → IsEnabled (exact_add odph key value) tableid st s
        → r < 2
        → (x : LookupTable E L) × (st.tables s tableid r ≡ some x)
          × (h : IsHashTable odph x) × Takes odph key value x h)
    → Ends (exact_add_promote odph tableid key value st) (λ st'.
      IsPromoted (exact_add odph key value) tableid st 0 8 st'
      × ((s r : ℕ)
          → s < 8
          → IsEnabled (exact_add odph key value) tableid st s
          → r < 2
          → (x y : LookupTable E L) × (st.tables s tableid r ≡ some x)
            × (st'.tables s tableid r ≡ some y)
            × IsAdded odph key value x y))
unfolding exact_add_promote
exact_add_promote-IsAdded odph tableid key value st law z tables =
    let (st', e, p) = promote-IsPromoted (exact_add odph key value) tableid st z (λ s r h en m.
      let (x, i, t, room) = tables s r h en m in
      let (y, a, _) = exact_add-IsAdded odph law key value x t room in (x, y, i, a)) in
    (
      st',
      e,
      (
        p,
        λ s r h en m.
            let (x, i, t, room) = tables s r h en m in
            let (y, a, added) = exact_add-IsAdded odph law key value x t room in
            let (x', y', i', a', j) = p.each s r (omega arith) (omega arith) en m in
            (x, y, i, j ∙ ap some (same_result odph key value i i' a a'), added),
      ),
    )
