-- ===== src/Handlers/Entry.antt =====
-- handlers.c, the handlers of a table entry and of its action: every path ends, and the pointers of
-- a decoded message are at the structs.
use macsad.Prelude.{
  ℕ, ◌+◌, ◌≤◌, ◌<◌, ◌≡◌, ◌^◌, some, arith, if◌then◌else◌, false, ap, ltb, Option, none, lt→ltb,
}
use macsad.Prelude.Int.{ℤ, pos, negsuc}
use macsad.Memory.{Mem, Ptr, load32}
use macsad.Handlers.{
  CtrlMsg, advance, unpack_params, unpack_matches, handle_action, handle_p4_add_table_entry,
}
use macsad.Handlers.Unpack.{Unpacked, unpack_params_lem}
use macsad.Handlers.Matches.{match_offset, Matched, unpack_matches_lem}

-- The members that name the action at `a`.
abbrev named : Mem → Ptr → CtrlMsg → CtrlMsg
named m a c = record c { action_type = m a; action_name = a + 1 }

abbrev pub unpacked_action : Mem → Ptr → CtrlMsg → (ℕ → Ptr) → CtrlMsg
unpacked_action m a c params = record (named m a c) {
  num_action_params = m (a + 129);
  action_params = params;
}

module _ (buffer : Ptr) (offset : ℕ) (c : CtrlMsg) (m : Mem) (fits : offset + 2730 < 2 ^ 16) where
  abbrev action : Ptr
  action = buffer + offset

  pub handle_action-refused :
      10 < m (action + 129)
      → handle_action buffer offset c m ≡ some ((negsuc 1, named m action c), m)
  unfolding handle_action
  handle_action-refused h = let e = lt→ltb _ _ h in rw e

  handle_action-unpacked :
      (params : ℕ → Ptr) (o : ℕ) (m' : Mem)
      → m (action + 129) ≤ 10
      → unpack_params (m (action + 129)) 0 buffer (offset + 130) c.action_params m
        ≡ some ((params, o), m')
      → handle_action buffer offset c m ≡ some ((pos 0, unpacked_action m action c params), m')
  unfolding handle_action
  handle_action-unpacked params o m' h e =
      let few : ltb 10 (m (action + 129)) ≡ false = ground arith in
      let straight : advance offset 130 ≡ offset + 130 = omega arith in
      rw (few, straight) (ap finish e)
    where
      finish : Option (((ℕ → Ptr) × ℕ) × Mem) → Option ((ℤ × CtrlMsg) × Mem)
      finish none = none
      finish (some (unpacked, m'')) = some ((pos 0, unpacked_action m action c unpacked.0), m'')

  pub handle_action_lem :
      m (action + 129) ≤ 10
      → (params : ℕ → Ptr) × (m' : Mem) × (handle_action buffer offset c m
          ≡ some ((pos 0, unpacked_action m action c params), m'))
        × Unpacked (m (action + 129)) 0 buffer (offset + 130) c.action_params m params m'
  handle_action_lem h =
      let (params, m', e, u) =
        unpack_params_lem (m (action + 129)) 0 buffer (offset + 130) c.action_params m
          (omega arith) in
      (params, m', handle_action-unpacked params _ m' h e, u)

module _ (m : Mem) (p : Ptr) where
  -- The number of matches of the table entry at `p`, and where its action is.
  abbrev pub matches : ℕ
  matches = m (p + 136)

  abbrev pub action_offset : ℕ
  action_offset = match_offset m (p + 140) 0 matches

  abbrev pub action_at : Ptr
  action_at = p + 140 + action_offset

  -- What the handler returns: too many matches, too many parameters, or 0.
  unfoldable pub entry_rval : ℤ
  entry_rval =
      if ltb 10 matches then negsuc 0 else if ltb 10 (m (action_at + 129)) then negsuc 1 else pos 0

  module _ (c : CtrlMsg) where
    abbrev pub titled : CtrlMsg
    titled = record c { type = m (p + 1); xid = load32 m (p + 4); table_name = p + 8 }

    abbrev pub matched : (ℕ → Ptr) → CtrlMsg
    matched found = record titled { num_field_matches = matches; field_matches = found }

    pub handle_p4_add_table_entry-refused :
        10 < matches → handle_p4_add_table_entry p c m ≡ some ((negsuc 0, titled), m)
    unfolding handle_p4_add_table_entry
    handle_p4_add_table_entry-refused h = let e = lt→ltb _ _ h in rw e

    handle_p4_add_table_entry-unpacked :
        (found : ℕ → Ptr) (o : ℕ) (m' : Mem)
        → matches ≤ 10
        → unpack_matches matches 0 (p + 140) 0 c.field_matches m ≡ some ((found, o), m')
        → handle_p4_add_table_entry p c m ≡ handle_action (p + 140) o (matched found) m'
    unfolding handle_p4_add_table_entry
    handle_p4_add_table_entry-unpacked found o m' h e =
        let few : ltb 10 matches ≡ false = ground arith in rw few (ap finish e)
      where
        finish : Option (((ℕ → Ptr) × ℕ) × Mem) → Option ((ℤ × CtrlMsg) × Mem)
        finish none = none
        finish (some (unpacked, m'')) = handle_action (p + 140) unpacked.1 (matched unpacked.0) m''

    -- Behind the loop over the matches, the action is handled where they end, and is as it was.
    pub handle_p4_add_table_entry-matched :
        matches ≤ 10
        → (found : ℕ → Ptr) × (m' : Mem) × (handle_p4_add_table_entry p c m
            ≡ handle_action (p + 140) action_offset (matched found) m')
          × Matched matches 0 (p + 140) 0 c.field_matches m found m'
    handle_p4_add_table_entry-matched h =
        let (found, m', e, u) =
          unpack_matches_lem matches 0 (p + 140) 0 c.field_matches m (omega arith) in
        (found, m', handle_p4_add_table_entry-unpacked found _ m' h e, u)
