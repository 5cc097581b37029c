-- ===== src/Examples/Decoding.antt =====
-- Messages in a memory cell at 0.
use macsad.Prelude.{◌==◌, if◌then◌else◌, arith}
use macsad.Memory.{Mem, load16}
use macsad.Memory.Confined.{Within}
use macsad.Handlers.{
  CtrlMsg, handle_p4_set_default_action, handle_p4_add_table_entry, handle_p4_msg,
}
use macsad.Handlers.Matches.{match_offset, match_size}
use macsad.Handlers.Entry.{entry_rval}
use macsad.Handlers.Decoded.{
  Returns, Decodes, handle_p4_add_table_entry-Returns, handle_p4_add_table_entry-Decodes,
}
use macsad.Handlers.Default.{
  default_rval, DecodesDefault, handle_p4_set_default_action-Returns,
  handle_p4_set_default_action-Decodes,
}
use macsad.Handlers.Message.{Outcome, received_rval, handle_p4_msg-Outcome}
use macsad.Messages.{
  add_p4_field_match_lpm, add_p4_field_match_exact, add_p4_field_match_range,
  add_p4_field_match_valid, add_p4_field_match_ternary, add_p4_action_parameter,
}
use macsad.Messages.Append.{Appends, add_p4_field_match-Appends, add_p4_action_parameter-Appends}

-- A table entry with a match of type lpm, and an action behind it with one parameter.
abbrev entry : Mem
entry a =
    if a == 1
    then 104
    else if a == 2
    then 150
    else if a == 136
    then 1
    else if a == 268
    then 2
    else if a == 657
    then 1
    else 0

-- A default action with two parameters.
abbrev default_message : Mem
default_message a = if a == 1 then 103 else if a == 265 then 2 else 0

abbrev old_msg : CtrlMsg
old_msg = record {
  type = 165;
  xid = 165;
  table_name = 165;
  action_type = 165;
  action_name = 165;
  num_action_params = 165;
  action_params = λ i. 165;
  num_field_matches = 165;
  field_matches = λ i. 165;
}

handle_p4_msg-Outcome_example :
    Outcome (handle_p4_msg 0 2048 old_msg entry) (received_rval entry 0 2048)
    × Within 0 9330 (handle_p4_msg 0 2048 old_msg)
handle_p4_msg-Outcome_example = handle_p4_msg-Outcome entry 0 2048 old_msg

handle_p4_add_table_entry-Returns_example :
    Returns (handle_p4_add_table_entry 0 old_msg entry) (entry_rval entry 0)
    × Within 0 9330 (handle_p4_add_table_entry 0 old_msg)
handle_p4_add_table_entry-Returns_example = handle_p4_add_table_entry-Returns entry 0 old_msg

handle_p4_add_table_entry-Decodes_example :
    Decodes entry 0 (handle_p4_add_table_entry 0 old_msg entry)
unfolding match_offset match_size
handle_p4_add_table_entry-Decodes_example =
    handle_p4_add_table_entry-Decodes entry 0 old_msg (omega arith) (omega arith)

handle_p4_set_default_action-Returns_example :
    Returns
      (handle_p4_set_default_action 0 old_msg default_message)
      (default_rval default_message 0)
    × Within 0 2868 (handle_p4_set_default_action 0 old_msg)
handle_p4_set_default_action-Returns_example =
    handle_p4_set_default_action-Returns default_message 0 old_msg

handle_p4_set_default_action-Decodes_example :
    DecodesDefault default_message 0 (handle_p4_set_default_action 0 old_msg default_message)
handle_p4_set_default_action-Decodes_example =
    handle_p4_set_default_action-Decodes default_message 0 old_msg (omega arith)

-- The entry is 150 bytes long.
add_p4_field_match-Appends_example :
    Appends 388 136 0 2048 entry (add_p4_field_match_exact 0 2048 entry)
    × Appends 646 136 0 2048 entry (add_p4_field_match_ternary 0 2048 entry)
    × Appends 388 136 0 2048 entry (add_p4_field_match_lpm 0 2048 entry)
    × Appends 646 136 0 2048 entry (add_p4_field_match_range 0 2048 entry)
    × Appends 390 136 0 2048 entry (add_p4_field_match_valid 0 2048 entry)
unfolding load16
add_p4_field_match-Appends_example =
    add_p4_field_match-Appends 0 2048 entry (omega arith) (omega arith)

add_p4_action_parameter-Appends_example :
    Appends 260 149 0 2048 entry (add_p4_action_parameter 0 20 2048 entry)
unfolding load16
add_p4_action_parameter-Appends_example =
    add_p4_action_parameter-Appends 0 2048 entry (omega arith) (omega arith) 20 (omega arith)
      (omega arith)
