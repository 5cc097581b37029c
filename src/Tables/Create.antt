-- ===== src/Tables/Create.antt =====
-- odp_tables.c: the loops of `create_tables_on_socket` and `odpc_lookup_tbls_init`.
use macsad.Prelude.{
  ℕ, zero, suc, ◌≡◌, ◌∙◌, ◌<◌, ◌≤◌, ◌+◌, ◌==◌, ◌&&◌, true, false, none, some, List, [], ◌∷◌, refl,
  arith, subst, if◌then◌else◌, get_elem?, length, Ends, Bool-cases, inl, inr,
}
use macsad.Tables.{Odph, LookupTable, table_create}
use macsad.Tables.Sockets.{SocketStates, set_table, create_replicas, create_tables, init_cores}
use macsad.Tables.Replicas.{IsInitial}

pub some_inj : {T : Type 0} {x y : T} → some x ≡ some y → x ≡ y
some_inj e = cc e

set_table-here :
    {T : Type 0} (st : SocketStates T) (s t r : ℕ) (y : T)
    → (set_table st s t r y).tables s t r ≡ some y
set_table-here st s t r y =
    let on : ((s == s) && ((t == t) && (r == r))) ≡ true = ground arith in rw on refl

set_table-other :
    {T : Type 0} (st : SocketStates T) (s t r : ℕ) (y : T) (a b c : ℕ)
    → (a ≡ s → b ≡ t → c ≡ r → ⊥)
    → (set_table st s t r y).tables a b c ≡ st.tables a b c
set_table-other st s t r y a b c d = elim (Bool-cases ((a == s) && ((b == t) && (c == r)))) [
  | inl e ↦ absurd (d (ground arith) (ground arith) (ground arith))
  | inr e ↦ rw e refl
]

module _ {E L : Type 0} (odph : Odph E L) where
  -- The tables of the P4 program from the `i`-th on have been created on socket 0, in both replicas.
  pub record AreCreated (st : SocketStates (LookupTable E L)) (i : ℕ)
      (config : List (LookupTable E L)) (st' : SocketStates (LookupTable E L)) : Type 0 where
    pub each :
        (j r : ℕ) (t : LookupTable E L)
        → get_elem? config j ≡ some t
        → r < 2
        → (y : LookupTable E L) × (table_create odph 0 r t ≡ some y)
          × (st'.tables 0 (i + j) r ≡ some y)
    pub others :
        (a b c : ℕ)
        → (a ≡ 0 → i ≤ b → b < i + length config → ⊥)
        → st'.tables a b c ≡ st.tables a b c
    pub initial : IsInitial st → IsInitial st'

  -- The library makes every table of the list, for both replicas.
  unfoldable pub AreMade : List (LookupTable E L) → Type 0
  AreMade [] = Unit {0}
  AreMade (t ∷ config) =
      ((r : ℕ) → r < 2 → (y : LookupTable E L) × (table_create odph 0 r t ≡ some y))
      × AreMade config

  create_replicas_lem :
      (st : SocketStates (LookupTable E L)) (i : ℕ) (t y z : LookupTable E L)
      → table_create odph 0 0 t ≡ some y
      → table_create odph 0 1 t ≡ some z
      → create_replicas odph st 0 i t 0 2 ≡ some (set_table (set_table st 0 i 0 y) 0 i 1 z)
  unfolding create_replicas
  create_replicas_lem st i t y z e d = rw (e, d) refl

  module _ (st : SocketStates (LookupTable E L)) (i : ℕ) (y z : LookupTable E L) where
    -- After both replicas of table `i` have been created.
    abbrev pub st1 : SocketStates (LookupTable E L)
    st1 = set_table (set_table st 0 i 0 y) 0 i 1 z

    old : (a b c : ℕ) → (a ≡ 0 → b ≡ i → ⊥) → st1.tables a b c ≡ st.tables a b c
    old a b c d =
        set_table-other (set_table st 0 i 0 y) 0 i 1 z a b c (λ h k _. d h k)
        ∙ set_table-other st 0 i 0 y a b c (λ h k _. d h k)

    zeroth : st1.tables 0 i 0 ≡ some y
    zeroth =
        set_table-other (set_table st 0 i 0 y) 0 i 1 z 0 i 0 (λ _ _ k. omega arith)
        ∙ set_table-here st 0 i 0 y

    -- What is said of both replicas holds of the one in each place.
    here :
        (P : ℕ → LookupTable E L → Type 0)
        → P 0 y
        → P 1 z
        → (r : ℕ) → r < 2
        → (x : LookupTable E L) × P r x × (st1.tables 0 i r ≡ some x)
    here P p q r l = elim (Bool-cases (r == 0)) [
      | inl h ↦
          subst (λ c. (x : LookupTable E L) × P c x × (st1.tables 0 i c ≡ some x)) (zero_is r h)
            (y, p, zeroth)
      | inr h ↦
          subst (λ c. (x : LookupTable E L) × P c x × (st1.tables 0 i c ≡ some x)) (one_is r h l)
            (z, q, set_table-here (set_table st 0 i 0 y) 0 i 1 z)
    ]
      where
        zero_is : (r : ℕ) → (r == 0) ≡ true → 0 ≡ r
        zero_is r h = ground arith

        one_is : (r : ℕ) → (r == 0) ≡ false → r < 2 → 1 ≡ r
        one_is r h l = ground arith

    -- The state in which the other tables are created.
    abbrev pub st2 : SocketStates (LookupTable E L)
    st2 = record st1 {
      active_replica = λ s k. if (s == 0) && (k == i) then 0 else st1.active_replica s k;
    }

    st2-IsInitial : IsInitial st → IsInitial st2
    st2-IsInitial a s k = elim (Bool-cases ((s == 0) && (k == i))) [
      | inl h ↦ rw h refl
      | inr h ↦ rw h (a s k)
    ]

    one-AreCreated :
        (t : LookupTable E L) (config : List (LookupTable E L))
        (st' : SocketStates (LookupTable E L))
        → table_create odph 0 0 t ≡ some y
        → table_create odph 0 1 t ≡ some z
        → AreCreated st2 (i + 1) config st'
        → AreCreated st i (t ∷ config) st'
    one-AreCreated t config st' e d f = record {
      each = by_index;
      others = λ a b c n.
          f.others a b c (λ h l k. n h (omega arith) (omega arith))
          ∙ old a b c (λ h k. n h (omega arith) (omega arith));
      initial = λ a. f.initial (st2-IsInitial a);
    }
      where
        by_index :
            (j r : ℕ) (u : LookupTable E L)
            → get_elem? (t ∷ config) j ≡ some u
            → r < 2
            → (v : LookupTable E L) × (table_create odph 0 r u ≡ some v)
              × (st'.tables 0 (i + j) r ≡ some v)
        by_index zero r u h l =
            let same : t ≡ u = cc h in
            let back : i ≡ i + 0 = omega arith in
            let (x, made, there) = here (λ r x. table_create odph 0 r t ≡ some x) e d r l in
            (
              x,
              subst (λ w. table_create odph 0 r w ≡ some x) same made,
              subst (λ k. st'.tables 0 k r ≡ some x) back
                  (f.others 0 i r (λ _ h _. omega arith) ∙ there),
            )
        by_index (suc j) r u h l =
            let (v, m, k) = f.each j r u h l in
            let there : (i + 1) + j ≡ i + suc j = omega arith in
            (v, m, subst (λ k. st'.tables 0 k r ≡ some v) there k)

  pub create_tables-AreCreated :
      (config : List (LookupTable E L)) (st : SocketStates (LookupTable E L)) (i : ℕ)
      → AreMade config
      → Ends (create_tables odph st 0 i config) (AreCreated st i config)
  unfolding create_tables AreMade
  create_tables-AreCreated [] st i m = (
    st,
    refl,
    record { each = λ j r t e l. absurd (cc e); others = λ a b c d. refl; initial = λ z. z },
  )
  create_tables-AreCreated (t ∷ config) st i (made, m) =
      let (y, e) = made 0 (omega arith) in
      let (z, d) = made 1 (omega arith) in
      let (st', r, f) = create_tables-AreCreated config (st2 st i y z) (i + 1) m in
      (st', rw (create_replicas_lem st i t y z e d) r, one-AreCreated st i y z t config st' e d f)

  -- The tables are created once, for the first of the cores.
  init_cores-done :
      (n : ℕ) (config : List (LookupTable E L)) (st : SocketStates (LookupTable E L))
      (x : LookupTable E L)
      → st.tables 0 0 0 ≡ some x
      → init_cores odph config n st ≡ some st
  unfolding init_cores
  init_cores-done zero config st x e = refl
  init_cores-done (suc n) config st x e = rw (e, init_cores) (init_cores-done n config st x e)

  pub init_cores_lem :
      (n : ℕ) (config : List (LookupTable E L)) (st st' : SocketStates (LookupTable E L))
      (x : LookupTable E L)
      → st.tables 0 0 0 ≡ none
      → create_tables odph st 0 0 config ≡ some st'
      → st'.tables 0 0 0 ≡ some x
      → init_cores odph config (suc n) st ≡ some st'
  unfolding init_cores
  init_cores_lem n config st st' x z r k = rw (z, init_cores, r) (init_cores-done n config st' x k)
