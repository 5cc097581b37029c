-- ===== src/Handlers/Decoded.antt =====
-- handlers.c: what a table entry is decoded to.
use macsad.Prelude.{
  ℕ, ◌+◌, ◌*◌, ◌≤◌, ◌<◌, ◌≡◌, ◌^◌, refl, some, arith, if◌then◌else◌, Bool-cases, ap, ◌∙◌, ltb,
  Option, inl, inr, ltb→lt,
}
use macsad.Prelude.Int.{ℤ, pos, negsuc}
use macsad.Memory.{Mem, Ptr, load32}
use macsad.Handlers.{CtrlMsg, handle_action, handle_p4_add_table_entry}
use macsad.Memory.Confined.{Within}
use macsad.Handlers.Unpack.{Unpacked}
use macsad.Handlers.Confined.{handle_p4_add_table_entry-Within}
use macsad.Handlers.Matches.{match_offset, match_offset_le, Matched}
use macsad.Handlers.Entry.{
  unpacked_action, handle_action-refused, handle_action_lem, matches, action_offset, action_at,
  entry_rval, titled, matched, handle_p4_add_table_entry-refused, handle_p4_add_table_entry-matched,
}

-- The decoded message `c'` of the table entry at `p` in the memory `m`: the members are the
-- entry's, the i-th match is behind those in front of it, by the sizes of their types, the action
-- is behind the matches, and its parameters are one struct apart.
pub record EntryDecoded (m : Mem) (p : Ptr) (c' : CtrlMsg) : Type 0 where
  pub type_read : c'.type ≡ m (p + 1)
  pub xid_read : c'.xid ≡ load32 m (p + 4)
  pub table_at : c'.table_name ≡ p + 8
  pub matches_counted : c'.num_field_matches ≡ m (p + 136)
  pub matches_at :
      (k : ℕ) → k < m (p + 136) → c'.field_matches k ≡ p + 140 + match_offset m (p + 140) 0 k
  pub action_type_read : c'.action_type ≡ m (action_at m p)
  pub action_named : c'.action_name ≡ action_at m p + 1
  pub params_counted : c'.num_action_params ≡ m (action_at m p + 129)
  pub params_at :
      (k : ℕ) → k < m (action_at m p + 129) → c'.action_params k ≡ action_at m p + 130 + 260 * k

-- The result of the handler is `rval`, whatever else it is.
abbrev pub Returns : Option ((ℤ × CtrlMsg) × Mem) → ℤ → Type 0
Returns result rval = (c' : CtrlMsg) × (m' : Mem) × (result ≡ some ((rval, c'), m'))

-- The result of the handler is 0, with an entry that is decoded.
abbrev pub Decodes : Mem → Ptr → Option ((ℤ × CtrlMsg) × Mem) → Type 0
Decodes m p result =
    (c' : CtrlMsg) × (m' : Mem) × (result ≡ some ((pos 0, c'), m')) × EntryDecoded m p c'

module _ (m : Mem) (p : Ptr) (c : CtrlMsg) (found : ℕ → Ptr) (m1 : Mem)
    (u : Matched (matches m p) 0 (p + 140) 0 c.field_matches m found m1)
    (e : handle_p4_add_table_entry p c m
      ≡ handle_action (p + 140) (action_offset m p) (matched m p c found) m1)
    (few : matches m p ≤ 10) where
  fits : action_offset m p + 2730 < 2 ^ 16
  fits = let le = match_offset_le m (p + 140) 0 (matches m p) in omega arith

  same : (k : ℕ) → m1 (action_at m p + k) ≡ m (action_at m p + k)
  same k = u.behind (action_at m p + k) (omega arith)

  action_refused :
      10 < m (action_at m p + 129) → Returns (handle_p4_add_table_entry p c m) (negsuc 1)
  action_refused many =
      let seen = same 129 in
      (_, m1, e ∙ handle_action-refused (p + 140) (action_offset m p) _ m1 fits (omega arith))

  action_decoded : m (action_at m p + 129) ≤ 10 → Decodes m p (handle_p4_add_table_entry p c m)
  action_decoded less =
      let seen = same 129 in
      let (params, m', d, v) =
        handle_action_lem (p + 140) (action_offset m p) (matched m p c found) m1 fits
          (omega arith) in
      (_, m', e ∙ d, entry params m' v)
    where
      entry :
          (params : ℕ → Ptr) (m' : Mem)
          → Unpacked
              (m1 (action_at m p + 129))
              0
              (p + 140)
              (action_offset m p + 130)
              c.action_params
              m1
              params
              m'
          → EntryDecoded m p (unpacked_action m1 (action_at m p) (matched m p c found) params)
      entry params m' v = record {
        type_read = refl;
        xid_read = refl;
        table_at = refl;
        matches_counted = refl;
        matches_at = λ k h. ap found (omega arith) ∙ u.points k h;
        action_type_read = u.behind (action_at m p) (omega arith);
        action_named = refl;
        params_counted = same 129;
        params_at =
            λ k h. let seen = same 129 in v.points k (omega arith) (omega arith) ∙ omega arith;
      }

  few_Returns :
      Returns
        (handle_p4_add_table_entry p c m)
        (if ltb 10 (m (action_at m p + 129)) then negsuc 1 else pos 0)
  few_Returns = elim (Bool-cases (ltb 10 (m (action_at m p + 129)))) [
    | inl many ↦ let (c', m', d) = action_refused (ltb→lt _ _ many) in (c', m', d ∙ rw many)
    | inr less ↦ let (c', m', d, v) = action_decoded (ground arith) in (c', m', d ∙ rw less)
  ]

module _ (m : Mem) (p : Ptr) (c : CtrlMsg) where
  entry_Returns : Returns (handle_p4_add_table_entry p c m) (entry_rval m p)
  unfolding entry_rval
  entry_Returns = elim (Bool-cases (ltb 10 (matches m p))) [
    | inl many ↦
        (titled m p c, m, handle_p4_add_table_entry-refused m p c (ltb→lt _ _ many) ∙ rw many)
    | inr few ↦
        let (found, m1, e, u) = handle_p4_add_table_entry-matched m p c (ground arith) in
        let (c', m', d) = few_Returns m p c found m1 u e (ground arith) in (c', m', d ∙ rw few)
  ]

  -- In a memory without bounds, the handler of a table entry at `p` returns -1 with more than 10
  -- matches, else -2 with more than 10 parameters of the action behind them, else 0. What it does
  -- depends on the bytes from p to p + 9330 only, and it changes no other: a buffer with those bytes
  -- is large enough, whatever they hold.
  pub handle_p4_add_table_entry-Returns :
      Returns (handle_p4_add_table_entry p c m) (entry_rval m p)
      × Within p (p + 9330) (handle_p4_add_table_entry p c)
  handle_p4_add_table_entry-Returns =
      (entry_Returns, handle_p4_add_table_entry-Within p (p + 9330) p c (omega arith) (omega arith))

  -- With at most 10 matches and 10 parameters of the action behind them, the handler returns 0 and a
  -- message whose members are the entry's: each match pointer is behind those in front of it by
  -- the sizes of their types, the action is behind the matches, and its parameters behind it
  -- one struct apart.
  pub handle_p4_add_table_entry-Decodes :
      m (p + 136) ≤ 10
      → m (action_at m p + 129) ≤ 10
      → Decodes m p (handle_p4_add_table_entry p c m)
  handle_p4_add_table_entry-Decodes few less =
      let (found, m1, e, u) = handle_p4_add_table_entry-matched m p c few in
      action_decoded m p c found m1 u e few less
