-- ===== src/Apps/Build.antt =====
-- What the `fill_*` and `set_default_action_*` functions of the controller programs share: they
-- make the same calls in the same order on a stack buffer of 2048 bytes, and differ in the names,
-- the key and the parameters, which are arguments here. A pointer argument of theirs is the list of
-- the bytes from that address on.
use Prim.Native.String.{String}
use macsad.Prelude.{ℕ, ◌/◌, ◌%◌, List, [], ◌∷◌}
use macsad.Memory.{Ptr, Cmd, pure, ◌>>=◌, ◌>>◌, nonnull, store16, store32, memcpy, strcpy}
use macsad.Messages.{
  create_p4_header, create_p4_add_table_entry, add_p4_field_match_exact, add_p4_field_match_lpm,
  add_p4_action, add_p4_action_parameter, create_p4_set_default_action,
}
use macsad.Messages.Layout
use macsad.Messages.Netconv.{
  netconv_p4_header, netconv_p4_add_table_entry, netconv_p4_field_match_exact,
  netconv_p4_field_match_lpm, netconv_p4_action, netconv_p4_action_parameter,
  netconv_p4_set_default_action,
}

abbrev pub buffer_size : ℕ
buffer_size = 2048

-- An action parameter: its name, the bytes copied to its bitmap, its length in bits; or one of
-- which the program sets the bitmap only.
pub data Param : Type 0 where
  param : String → List ℕ → ℕ → Param
  bitmap_only : List ℕ → Param

set_param : Ptr → Param → Cmd (Unit {0})
set_param ap (param name bytes bits) = do
  strcpy (Layout.Param.name ap) name
  memcpy (Layout.Param.bitmap ap) bytes
  store32 (Layout.Param.len ap) bits
set_param ap (bitmap_only bytes) = memcpy (Layout.Param.bitmap ap) bytes

unfoldable pub add_params : Ptr → Ptr → List Param → Cmd (List Ptr)
unfolding add_p4_action_parameter set_param
add_params h a [] = pure []
add_params h a (p ∷ ps) = do
  ap ← add_p4_action_parameter h a buffer_size >>= nonnull
  set_param ap p
  aps ← add_params h a ps
  pure (ap ∷ aps)

unfoldable pub netconv_params : List Ptr → Cmd (Unit {0})
unfolding netconv_p4_action_parameter
netconv_params [] = pure tt
netconv_params (ap ∷ aps) = netconv_p4_action_parameter ap >> netconv_params aps

-- A table entry with one exact match.
unfoldable pub exact_entry : String → String → List ℕ → ℕ → String → List Param → Cmd (Unit {0})
unfolding create_p4_header create_p4_add_table_entry add_p4_field_match_exact add_p4_action
    netconv_p4_header netconv_p4_add_table_entry netconv_p4_field_match_exact netconv_p4_action
    add_params netconv_params
exact_entry table field key bits action params = do
  h ← create_p4_header 0 0 buffer_size >>= nonnull
  te ← create_p4_add_table_entry 0 0 buffer_size >>= nonnull
  strcpy (Layout.AddEntry.table_name te) table
  exact ← add_p4_field_match_exact te buffer_size >>= nonnull
  strcpy (Layout.Match.name exact) field
  memcpy (Layout.Match.bitmap exact) key
  store16 (Layout.Match.len exact) bits
  a ← add_p4_action h buffer_size >>= nonnull
  strcpy (Layout.Action.name a) action
  aps ← add_params h a params
  netconv_p4_header h
  netconv_p4_add_table_entry te
  netconv_p4_field_match_exact exact
  netconv_p4_action a
  netconv_params aps

-- A table entry with one longest prefix match.
unfoldable pub lpm_entry : String → String → List ℕ → ℕ → String → List Param → Cmd (Unit {0})
unfolding create_p4_header create_p4_add_table_entry add_p4_field_match_lpm add_p4_action
    netconv_p4_header netconv_p4_add_table_entry netconv_p4_field_match_lpm netconv_p4_action
    add_params netconv_params
lpm_entry table field key prefix_length action params = do
  h ← create_p4_header 0 0 buffer_size >>= nonnull
  te ← create_p4_add_table_entry 0 0 buffer_size >>= nonnull
  strcpy (Layout.AddEntry.table_name te) table
  lpm ← add_p4_field_match_lpm te buffer_size >>= nonnull
  strcpy (Layout.Match.name lpm) field
  memcpy (Layout.Match.bitmap lpm) key
  store16 (Layout.Match.len lpm) prefix_length
  a ← add_p4_action h buffer_size >>= nonnull
  strcpy (Layout.Action.name a) action
  aps ← add_params h a params
  netconv_p4_header h
  netconv_p4_add_table_entry te
  netconv_p4_field_match_lpm lpm
  netconv_p4_action a
  netconv_params aps

-- A message that sets the default action of a table.
unfoldable pub default_action : String → String → List Param → Cmd (Unit {0})
unfolding create_p4_header create_p4_set_default_action netconv_p4_header
    netconv_p4_set_default_action netconv_p4_action add_params netconv_params
default_action table action params = do
  h ← create_p4_header 0 0 buffer_size >>= nonnull
  sda ← create_p4_set_default_action 0 0 buffer_size >>= nonnull
  strcpy (Layout.SetDefault.table_name sda) table
  let a = Layout.SetDefault.action sda
  strcpy (Layout.Action.name a) action
  aps ← add_params h a params
  netconv_p4_header h
  netconv_p4_set_default_action sda
  netconv_p4_action a
  netconv_params aps

-- `&x` of a `uint32_t` x on a little-endian host
abbrev pub le32 : ℕ → List ℕ
le32 x = x % 256 ∷ x / 256 % 256 ∷ x / 65536 % 256 ∷ x / 16777216 % 256 ∷ []
