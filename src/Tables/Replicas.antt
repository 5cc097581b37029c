-- ===== src/Tables/Replicas.antt =====
-- odp_lib.c: a change of a table reaches both replicas on every socket that has tables.
use macsad.Prelude.{
  ℕ, zero, suc, ◌≡◌, ◌≢◌, ◌∙◌, ◌<◌, ◌≤◌, ◌+◌, ◌==◌, ◌&&◌, true, false, none, some, Option, refl,
  sym, ap, arith, subst, if◌then◌else◌, Ends, Ends-and_then, Bool-cases, Option-cases, inl, inr,
}
use macsad.Tables.Sockets.{
  SocketStates, apply, other_replicas, change_table, for_all_nodes, promote,
}

-- Each socket starts with replica 0 active, and no code changes that.
abbrev pub IsInitial : {T : Type 0} → SocketStates T → Type 0
IsInitial st = (s t : ℕ) → st.active_replica s t ≡ 0

module _ {T : Type 0} (fun : T → Option T) (tid : ℕ) where
  -- The replica has a table, on which `fun` succeeds.
  abbrev pub IsReady : SocketStates T → ℕ → ℕ → Type 0
  IsReady st s r = (x y : T) × (st.tables s tid r ≡ some x) × (fun x ≡ some y)

  -- The replica's table is now the result of `fun` on what it was.
  abbrev pub IsDone : SocketStates T → SocketStates T → ℕ → ℕ → Type 0
  IsDone st st' s r =
      (x y : T) × (st.tables s tid r ≡ some x) × (fun x ≡ some y) × (st'.tables s tid r ≡ some y)

  -- The socket has tables.
  abbrev pub IsEnabled : SocketStates T → ℕ → Type 0
  IsEnabled st s = (x : T) × (st.tables s 0 0 ≡ some x)

  record IsApplied (st : SocketStates T) (s r : ℕ) (st' : SocketStates T) : Type 0 where
    pub here : IsDone st st' s r
    pub others : (a b c : ℕ) → (a ≡ s → b ≡ tid → c ≡ r → ⊥) → st'.tables a b c ≡ st.tables a b c
    pub active : st'.active_replica ≡ st.active_replica

  apply-IsApplied :
      (st : SocketStates T) (s r : ℕ)
      → IsReady st s r
      → Ends (apply fun st s tid r) (IsApplied st s r)
  unfolding apply
  apply-IsApplied st s r (x, y, e, h) =
      let tables : ℕ → ℕ → ℕ → Option T =
        λ a b c. if (a == s) && ((b == tid) && (c == r)) then some y else st.tables a b c in
      let on : ((s == s) && ((tid == tid) && (r == r))) ≡ true = ground arith in
      (
        record st { tables = tables },
        rw (e, h) refl,
        record {
          here = (x, y, e, h, rw on refl);
          others = λ a b c d.
              let off : ((a == s) && ((b == tid) && (c == r))) ≡ false = apart a b c d in
              rw off refl;
          active = refl;
        },
      )
    where
      apart :
          (a b c : ℕ)
          → (a ≡ s → b ≡ tid → c ≡ r → ⊥)
          → ((a == s) && ((b == tid) && (c == r))) ≡ false
      apart a b c d = elim (Bool-cases ((a == s) && ((b == tid) && (c == r)))) [
        | inl e ↦ absurd (d (ground arith) (ground arith) (ground arith))
        | inr e ↦ e
      ]

  record IsChanged (st : SocketStates T) (s : ℕ) (st' : SocketStates T) : Type 0 where
    pub each : (r : ℕ) → r < 2 → IsDone st st' s r
    pub others : (a b c : ℕ) → (a ≡ s → b ≡ tid → c < 2 → ⊥) → st'.tables a b c ≡ st.tables a b c
    pub active : st'.active_replica ≡ st.active_replica

  -- Replica 1, then replica 0.
  both :
      (st st1 st2 : SocketStates T) (s : ℕ)
      → IsApplied st s 1 st1
      → IsApplied st1 s 0 st2
      → IsChanged st s st2
  both st st1 st2 s a b = record {
    each = λ r l. elim (Bool-cases (r == 0)) [
      | inl e ↦ subst (IsDone st st2 s) (sym (zeroth r e)) first
      | inr e ↦ subst (IsDone st st2 s) (sym (second r l e)) last
    ];
    others = λ x y z d.
        b.others x y z (λ h k l. d h k (omega arith))
        ∙ a.others x y z (λ h k l. d h k (omega arith));
    active = b.active ∙ a.active;
  }
    where
      zeroth : (r : ℕ) → (r == 0) ≡ true → r ≡ 0
      zeroth r e = ground arith

      second : (r : ℕ) → r < 2 → (r == 0) ≡ false → r ≡ 1
      second r l e = ground arith

      first : IsDone st st2 s 0
      first =
          let (x, y, e, h, k) = b.here in
          (x, y, sym (a.others s tid 0 (λ _ _ l. omega arith)) ∙ e, h, k)

      last : IsDone st st2 s 1
      last =
          let (x, y, e, h, k) = a.here in (x, y, e, h, b.others s tid 1 (λ _ _ l. omega arith) ∙ k)

  change_table-IsChanged :
      (st : SocketStates T) (s : ℕ)
      → st.active_replica s tid ≡ 0
      → ((r : ℕ) → r < 2 → IsReady st s r)
      → Ends (change_table fun st s tid) (IsChanged st s)
  unfolding change_table other_replicas
  change_table-IsChanged st s z ready = rw z (
      Ends-and_then (apply fun st s tid 1) _ (IsChanged st s)
        (apply-IsApplied st s 1 (ready 1 (omega arith)))
        (λ st1 a.
          Ends-and_then (apply fun st1 s tid 0) _ (IsChanged st s)
            (apply-IsApplied st1 s 0 (moved st1 a (ready 0 (omega arith))))
            (λ st2 b. (st2, refl, both st st1 st2 s a b))))
    where
      moved : (st1 : SocketStates T) → IsApplied st s 1 st1 → IsReady st s 0 → IsReady st1 s 0
      moved st1 a (x, y, e, h) = (x, y, a.others s tid 0 (λ _ _ l. omega arith) ∙ e, h)

  -- The replicas that a change on the `n` sockets from `sock` on is for.
  abbrev pub IsMeant : SocketStates T → ℕ → ℕ → ℕ → ℕ → ℕ → Type 0
  IsMeant st sock n a b c = (sock ≤ a) × (a < sock + n) × IsEnabled st a × (b ≡ tid) × (c < 2)

  pub record IsPromoted (st : SocketStates T) (sock n : ℕ) (st' : SocketStates T) : Type 0 where
    pub each : (s r : ℕ) → sock ≤ s → s < sock + n → IsEnabled st s → r < 2 → IsDone st st' s r
    pub others : (a b c : ℕ) → (IsMeant st sock n a b c → ⊥) → st'.tables a b c ≡ st.tables a b c
    pub active : st'.active_replica ≡ st.active_replica

  IsPromoted-none : (st : SocketStates T) (sock : ℕ) → IsPromoted st sock 0 st
  IsPromoted-none st sock = record {
    each = λ s r h l e m. absurd (omega arith);
    others = λ a b c d. refl;
    active = refl;
  }

  -- A socket without tables is passed over.
  IsPromoted-skip :
      (st : SocketStates T) (sock n : ℕ) (st' : SocketStates T)
      → st.tables sock 0 0 ≡ none
      → IsPromoted st (sock + 1) n st'
      → IsPromoted st sock (suc n) st'
  IsPromoted-skip st sock n st' z f = record {
    each = λ s r h l e m. f.each s r (later s h e) (omega arith) e m;
    others = λ a b c d. f.others a b c (λ (h, l, e, k, m). d (omega arith, omega arith, e, k, m));
    active = f.active;
  }
    where
      enabled_not : (s : ℕ) → s ≡ sock → IsEnabled st s → ⊥
      enabled_not s e (x, k) = let q = ap (λ i. st.tables i 0 0) e in cc (q, k, z)

      later : (s : ℕ) → sock ≤ s → IsEnabled st s → sock + 1 ≤ s
      later s h e = elim (Bool-cases (s == sock)) [
        | inl q ↦ absurd (enabled_not s (ground arith) e)
        | inr q ↦ ground arith
      ]

  module _ (st : SocketStates T) (sock n : ℕ) (st1 : SocketStates T)
      (ch : IsChanged st sock st1) where
    same_enabled : (s : ℕ) → s ≢ sock → st1.tables s 0 0 ≡ st.tables s 0 0
    same_enabled s d = ch.others s 0 0 (λ e _ _. d e)

    IsPromoted-one :
        (st' : SocketStates T)
        → IsEnabled st sock
        → IsPromoted st1 (sock + 1) n st'
        → IsPromoted st sock (suc n) st'
    IsPromoted-one st' en f = record {
      each = λ s r h l e m. elim (Bool-cases (s == sock)) [
        | inl q ↦ subst (λ i. IsDone st st' i r) (sym (same s q)) (here r m)
        | inr q ↦ there s r h l (apart s q) e m
      ];
      others = λ a b c d.
          f.others a b c (λ (h, l, (x, e), k, m).
            d (omega arith, omega arith, (x, sym (same_enabled a (λ q. omega arith)) ∙ e), k, m))
          ∙ ch.others a b c
              (λ q k m. d (omega arith, omega arith, subst (IsEnabled st) (sym q) en, k, m));
      active = f.active ∙ ch.active;
    }
      where
        same : (s : ℕ) → (s == sock) ≡ true → s ≡ sock
        same s q = ground arith

        apart : (s : ℕ) → (s == sock) ≡ false → s ≢ sock
        apart s q = ground arith

        here : (r : ℕ) → r < 2 → IsDone st st' sock r
        here r m =
            let (x, y, e, h, k) = ch.each r m in
            (x, y, e, h, f.others sock tid r (λ (p, _, _, _, _). omega arith) ∙ k)

        there :
            (s r : ℕ)
            → sock ≤ s
            → s < sock + suc n
            → s ≢ sock
            → IsEnabled st s
            → r < 2
            → IsDone st st' s r
        there s r h l d (x, e) m =
            let (a, b, i, j, k) =
              f.each s r (omega arith) (omega arith) (x, same_enabled s d ∙ e) m in
            (a, b, sym (ch.others s tid r (λ q _ _. d q)) ∙ i, j, k)

  for_all_nodes-IsPromoted :
      (n sock : ℕ) (st : SocketStates T)
      → IsInitial st
      → ((s r : ℕ) → sock ≤ s → s < sock + n → IsEnabled st s → r < 2 → IsReady st s r)
      → Ends (for_all_nodes fun st tid sock n) (IsPromoted st sock n)
  unfolding for_all_nodes
  for_all_nodes-IsPromoted zero sock st z ready = (st, refl, IsPromoted-none st sock)
  for_all_nodes-IsPromoted (suc n) sock st z ready = elim (Option-cases (st.tables sock 0 0)) [
    | inl e ↦
        let (st', r, f) =
          for_all_nodes-IsPromoted n (sock + 1) st z
            (λ s r h l. ready s r (omega arith) (omega arith)) in
        rw (e, for_all_nodes) (st', r, IsPromoted-skip st sock n st' e f)
    | inr (x, e) ↦
        rw (e, for_all_nodes)
          (Ends-and_then (change_table fun st sock tid) _ (IsPromoted st sock (suc n))
            (change_table-IsChanged st sock (z sock tid)
              (λ r m. ready sock r (omega arith) (omega arith) (x, e) m))
            (λ st1 ch.
              let (st', r, f) =
                for_all_nodes-IsPromoted n (sock + 1) st1 (λ s t. ap (λ g. g s t) ch.active ∙ z s t)
                  (λ s r h l (a, k) m.
                    let (b, c, i, j) =
                      ready s r (omega arith) (omega arith)
                        (a, sym (same_enabled st sock n st1 ch s (λ q. omega arith)) ∙ k) m in
                    (b, c, ch.others s tid r (λ q _ _. omega arith) ∙ i, j)) in
              (st', r, IsPromoted-one st sock n st1 ch st' (x, e) f)))
  ]

  -- If `fun` succeeds on both replicas of the table on every socket that has tables, its promotion
  -- ends, and has applied `fun` exactly once to each of them; no other table is changed, and the
  -- active replicas stay as they were.
  pub promote-IsPromoted :
      (st : SocketStates T)
      → IsInitial st
      → ((s r : ℕ) → s < 8 → IsEnabled st s → r < 2 → IsReady st s r)
      → Ends (promote fun st tid) (IsPromoted st 0 8)
  promote-IsPromoted st z ready = for_all_nodes-IsPromoted 8 0 st z (λ s r h l. ready s r l)
