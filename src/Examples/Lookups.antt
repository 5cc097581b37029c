-- ===== src/Examples/Lookups.antt =====
-- A switch with one socket and two tables, on a library whose hash tables are functions with a bound
-- on their entries.
use macsad.Prelude.{
  ℕ, zero, suc, ◌≡◌, ◌≢◌, ◌<◌, ◌==◌, ◌&&◌, Bool, true, false, none, some, Option, List, [], ◌∷◌,
  refl, sym, ap, ap₂, arith, if◌then◌else◌, Ends, Bool-cases, inl, inr, ◌∙◌,
}
use macsad.Prelude.Int.{ℤ, pos, negsuc}
use macsad.Tables.{Odph, cuckoo, LookupTable, lookup_exact, exact_add, exact_put}
use macsad.Tables.Sockets.{SocketStates, promote, exact_add_promote}
use macsad.Tables.Replicas.{IsInitial, IsEnabled, IsPromoted, promote-IsPromoted}
use macsad.Tables.Lookup.{IsMap, IsHashTable, IsAdded, exact_add_promote-IsAdded}

abbrev same_key : List ℕ → List ℕ → Bool
same_key [] [] = true
same_key [] (y ∷ ys) = false
same_key (x ∷ xs) [] = false
same_key (x ∷ xs) (y ∷ ys) = (x == y) && same_key xs ys

abbrev Map : Type 0
Map = List ℕ → Option (List ℕ)

abbrev look : Option (List ℕ) → ℤ × List ℕ
look none = (negsuc 0, [])
look (some v) = (pos 0, v)

-- A hash table with room for as many entries as are left, and its entries.
abbrev Bounded : Type 0
Bounded = ℕ × Map

-- A table without room takes nothing.
abbrev put : Bounded → List ℕ → List ℕ → ℤ × Bounded
put (zero, e) k v = (negsuc 0, (0, e))
put (suc left, e) k v = (pos 0, (left, λ k'. if same_key k' k then some v else e k'))

abbrev odph : Odph Bounded Map
odph = record {
  cuckoo_create = λ name capacity key_size val_size. some (capacity, λ k. none);
  cuckoo_put = put;
  cuckoo_get = λ e k. look (e.1 k);
  iplookup_create = λ name capacity key_size val_size. some (λ k. none);
  iplookup_put = λ e ip depth v. (pos 0, e);
  iplookup_get = λ e ip. (negsuc 0, []);
}

not_taken : (n : ℕ) → negsuc 0 ≡ pos n → ⊥
not_taken n h = cc h

same_key_refl : (k : List ℕ) → same_key k k ≡ true
same_key_refl [] = refl
same_key_refl (x ∷ k) = let on : (x == x) ≡ true = ground arith in rw on (same_key_refl k)

same_key-eq : (k k' : List ℕ) → same_key k k' ≡ true → k ≡ k'
same_key-eq [] [] h = refl
same_key-eq [] (y ∷ ys) h = absurd (cc h)
same_key-eq (x ∷ xs) [] h = absurd (cc h)
same_key-eq (x ∷ xs) (y ∷ ys) h = ap₂ ◌∷◌ (ground arith) (same_key-eq xs ys (ground arith))

odph-IsMap : IsMap odph
odph-IsMap = record { got = got; kept = kept }
  where
    got :
        (e e' : Bounded) (k v : List ℕ) (n : ℕ)
        → put e k v ≡ (pos n, e')
        → (m : ℕ) × (look (e'.1 k) ≡ (pos m, v))
    got (zero, e) e' k v n h = absurd (not_taken n (ap (λ p. p.0) h))
    got (suc left, e) e' k v n h = (0, ap (λ p. look (p.1.1 k)) (sym h) ∙ rw (same_key_refl k) refl)

    kept :
        (e e' : Bounded) (k v k' : List ℕ) (n : ℕ)
        → put e k v ≡ (pos n, e')
        → k' ≢ k
        → look (e'.1 k') ≡ look (e.1 k')
    kept (zero, e) e' k v k' n h d = absurd (not_taken n (ap (λ p. p.0) h))
    kept (suc left, e) e' k v k' n h d =
        ap (λ p. look (p.1.1 k')) (sym h) ∙ elim (Bool-cases (same_key k' k)) [
          | inl q ↦ absurd (d (same_key-eq k' k q))
          | inr q ↦ rw q refl
        ]

abbrev dmac : LookupTable Bounded Map
dmac = record {
  type = lookup_exact;
  name = 100 ∷ 109 ∷ 97 ∷ 99 ∷ [];
  key_size = 2;
  val_size = 3;
  counter = 0;
  default_val = none;
  table =
      some (record { odp_table = cuckoo (1, λ k. none); size = 0; kv = []; content = λ i. none });
  socketid = 0;
}

abbrev dmac_hashed : IsHashTable odph dmac
dmac_hashed = record { keyed = refl; ext = _; tbl = _; extended = refl; hashed = refl }

-- Socket 0 only.
abbrev one_socket : SocketStates (LookupTable Bounded Map)
one_socket = record {
  tables = λ s t r. if s == 0 then some dmac else none;
  active_replica = λ s t. 0;
}

one_socket-IsInitial : IsInitial one_socket
one_socket-IsInitial s t = refl

only_zero :
    (s : ℕ) (x : LookupTable Bounded Map)
    → (if s == 0 then some dmac else none) ≡ some x
    → (if s == 0 then some dmac else none) ≡ some dmac
only_zero s x h = elim (Bool-cases (s == 0)) [
  | inl e ↦ rw e refl
  | inr e ↦ absurd (absent (s == 0) e h)
]
  where
    absent : (b : Bool) → b ≡ false → (if b then some dmac else none) ≡ some x → ⊥
    absent true e h = cc e
    absent false e h = cc h

abbrev entry : LookupTable Bounded Map → Option (LookupTable Bounded Map)
entry = exact_add odph (1 ∷ 2 ∷ 9 ∷ []) (7 ∷ 8 ∷ 9 ∷ [])

with_entry : (x : LookupTable Bounded Map) × (entry dmac ≡ some x)
unfolding exact_add exact_put
with_entry = (_, refl)

promote-IsPromoted_example : Ends (promote entry one_socket 1) (IsPromoted entry 1 one_socket 0 8)
promote-IsPromoted_example =
    promote-IsPromoted entry 1 one_socket one_socket-IsInitial
      (λ s r h (x, e) m. (dmac, with_entry.0, only_zero s x e, with_entry.1))

exact_add_promote-IsAdded_example :
    Ends (exact_add_promote odph 1 (1 ∷ 2 ∷ 9 ∷ []) (7 ∷ 8 ∷ 9 ∷ []) one_socket) (λ st'.
      IsPromoted entry 1 one_socket 0 8 st'
      × ((s r : ℕ)
          → s < 8
          → IsEnabled entry 1 one_socket s
          → r < 2
          → (x y : LookupTable Bounded Map) × (one_socket.tables s 1 r ≡ some x)
            × (st'.tables s 1 r ≡ some y)
            × IsAdded odph (1 ∷ 2 ∷ 9 ∷ []) (7 ∷ 8 ∷ 9 ∷ []) x y))
exact_add_promote-IsAdded_example =
    exact_add_promote-IsAdded odph 1 (1 ∷ 2 ∷ 9 ∷ []) (7 ∷ 8 ∷ 9 ∷ []) one_socket odph-IsMap
      one_socket-IsInitial (λ s r h (x, e) m. (dmac, only_zero s x e, dmac_hashed, (0, _, refl)))

-- The tables of a program before they are created, and the state before odpc_lookup_tbls_init.
abbrev program : List (LookupTable Bounded Map)
program = record dmac { table = none } ∷ record dmac { key_size = 6; table = none } ∷ []

abbrev cleared : SocketStates (LookupTable Bounded Map)
cleared = record { tables = λ s t r. none; active_replica = λ s t. 0 }
