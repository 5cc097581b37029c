-- ===== src/Handlers.antt =====
-- handlers.c: decoding a control message in place, in the switch's buffer, a cell of 2048 bytes whose
-- end the memory does not have: `Confined` is which bytes a handler accesses. `struct p4_ctrl_msg`
-- holds pointers into that buffer. It is a stack variable of `handle_p4_msg`, so its first value is
-- a parameter, and so are the entries of its arrays that are never written.
pub mod Unpack
pub mod Matches
pub mod Entry
pub mod Decoded
pub mod Default
pub mod Message
pub mod Accesses
pub mod Confined
use macsad.Prelude.{ℕ, zero, suc, ◌+◌, ◌%◌, ◌^◌, Option, none, some, ltb, ◌==◌, if◌then◌else◌}
use macsad.Prelude.Int.{ℤ, pos, negsuc, is_negative}
use macsad.Memory.{Ptr, Cmd, pure, ◌>>=◌, get8, get16, get32, write}
use macsad.Messages.Layout
use macsad.Messages.Layout.{p4t_set_default_action, p4t_add_table_entry}
use macsad.Messages.Netconv.{
  netconv_p4_header, netconv_p4_action_parameter, netconv_p4_field_match_complex,
  netconv_p4_set_default_action, netconv_p4_add_table_entry,
}

abbrev pub p4_max_number_of_action_parameters : ℕ
p4_max_number_of_action_parameters = 10

abbrev pub p4_max_number_of_field_matches : ℕ
p4_max_number_of_field_matches = 10

-- The arrays of pointers are functions of the index.
pub record CtrlMsg : Type 0 where
  pub type : ℕ
  pub xid : ℕ
  pub table_name : Ptr
  pub action_type : ℕ
  pub action_name : Ptr
  pub num_action_params : ℕ
  pub action_params : ℕ → Ptr
  pub num_field_matches : ℕ
  pub field_matches : ℕ → Ptr

-- `uint16_t offset` += size
abbrev pub advance : ℕ → ℕ → ℕ
advance offset size = (offset + size) % 2 ^ 16

-- The loop over the action parameters, with the rounds left, and `i` and `offset` as they stand.
unfoldable pub unpack_params : ℕ → ℕ → Ptr → ℕ → (ℕ → Ptr) → Cmd ((ℕ → Ptr) × ℕ)
unfolding write netconv_p4_action_parameter
unpack_params zero i buffer offset params = pure (params, offset)
unpack_params (suc n) i buffer offset params = do
  p ← netconv_p4_action_parameter (buffer + offset)
  unpack_params n (i + 1) buffer (advance offset Layout.Param.size) (write params i p)

-- The loop over the field matches.
unfoldable pub unpack_matches : ℕ → ℕ → Ptr → ℕ → (ℕ → Ptr) → Cmd ((ℕ → Ptr) × ℕ)
unfolding write netconv_p4_field_match_complex
unpack_matches zero i buffer offset matches = pure (matches, offset)
unpack_matches (suc n) i buffer offset matches = do
  p ← netconv_p4_field_match_complex (buffer + offset)
  unpack_matches n (i + 1) buffer (advance offset p.1) (write matches i p.0)

unfoldable pub handle_p4_set_default_action : Ptr → CtrlMsg → Cmd (ℤ × CtrlMsg)
unfolding unpack_params
handle_p4_set_default_action m ctrl_m = do
  type ← get8 (Layout.Header.type m)
  xid ← get32 (Layout.Header.xid m)
  let action = Layout.SetDefault.action m
  action_type ← get8 (Layout.Action.type action)
  num_params ← get8 (Layout.Action.param_size action)
  let named = record ctrl_m {
    type = type;
    xid = xid;
    table_name = Layout.SetDefault.table_name m;
    action_type = action_type;
    action_name = Layout.Action.name action;
  }
  let buffer = m + Layout.SetDefault.size
  if ltb p4_max_number_of_action_parameters num_params then pure (negsuc 0, named) else do
    unpacked ← unpack_params num_params 0 buffer 0 ctrl_m.action_params
    pure (pos 0, record named { num_action_params = num_params; action_params = unpacked.0 })

-- The action behind the field matches, and its parameters.
unfoldable pub handle_action : Ptr → ℕ → CtrlMsg → Cmd (ℤ × CtrlMsg)
unfolding unpack_params
handle_action buffer offset matched = do
  let action = buffer + offset
  action_type ← get8 (Layout.Action.type action)
  num_params ← get8 (Layout.Action.param_size action)
  let named = record matched { action_type = action_type; action_name = Layout.Action.name action }
  if ltb p4_max_number_of_action_parameters num_params then pure (negsuc 1, named) else do
    unpacked ←
        unpack_params num_params 0 buffer (advance offset Layout.Action.size) matched.action_params
    pure (pos 0, record named { num_action_params = num_params; action_params = unpacked.0 })

unfoldable pub handle_p4_add_table_entry : Ptr → CtrlMsg → Cmd (ℤ × CtrlMsg)
unfolding unpack_matches handle_action
handle_p4_add_table_entry m ctrl_m = do
  type ← get8 (Layout.Header.type m)
  xid ← get32 (Layout.Header.xid m)
  num_params ← get8 (Layout.AddEntry.read_size m)
  let named = record ctrl_m { type = type; xid = xid; table_name = Layout.AddEntry.table_name m }
  let buffer = m + Layout.AddEntry.size
  if ltb p4_max_number_of_field_matches num_params then pure (negsuc 0, named) else do
    unpacked ← unpack_matches num_params 0 buffer 0 ctrl_m.field_matches
    handle_action buffer unpacked.1
        (record named { num_field_matches = num_params; field_matches = unpacked.0 })

-- What follows a message's own handler: an error is returned, else the callback is called. The
-- second part of the result is the message that the callback `cb` is called with, if it is.
abbrev pub deliver : ℤ × CtrlMsg → Cmd (ℤ × Option CtrlMsg)
deliver (rval, ctrl_m) = if is_negative rval then pure (rval, none) else pure (pos 0, some ctrl_m)

-- `length` is the `uint16_t` of a memory cell, never negative.
unfoldable pub handle_p4_msg : Ptr → ℕ → CtrlMsg → Cmd (ℤ × Option CtrlMsg)
unfolding handle_p4_set_default_action handle_p4_add_table_entry netconv_p4_header
    netconv_p4_set_default_action netconv_p4_add_table_entry
handle_p4_msg buffer length ctrl_m =
    if ltb length Layout.Header.size then pure (negsuc 0, none) else do
      header ← netconv_p4_header buffer
      len ← get16 (Layout.Header.len header)
      type ← get8 (Layout.Header.type header)
      if ltb length len
          then pure (negsuc 0, none)
          else if type == p4t_set_default_action
          then (do
            m ← netconv_p4_set_default_action buffer
            handle_p4_set_default_action m ctrl_m >>= deliver)
          else if type == p4t_add_table_entry
          then (do
            m ← netconv_p4_add_table_entry buffer
            handle_p4_add_table_entry m ctrl_m >>= deliver)
          else pure (negsuc 99, some ctrl_m)
