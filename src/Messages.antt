-- ===== src/Messages.antt =====
-- messages.c: building and converting the messages of the control protocol in a byte buffer.
-- A pointer result is an option, with `none` for the 0 of the overflow checks. `uint16_t` and
-- `uint8_t` counters wrap in the stores.
pub mod Layout
pub mod Netconv
pub mod Append
use macsad.Prelude.{ℕ, ◌+◌, Option, none, some, ltb, leb, if◌then◌else◌}
use macsad.Memory.{Ptr, Cmd, pure, ◌>>=◌, ◌>>◌, get8, get16, store8, store16, store32}
use macsad.Messages.Layout.{
  p4_version, p4t_set_default_action, p4t_add_table_entry, p4t_digest, p4_fmt_exact, p4_fmt_ternary,
  p4_fmt_lpm, p4_fmt_range, p4_fmt_valid, p4_at_action,
}
use macsad.Messages.Layout

unfoldable pub create_p4_header : Ptr → ℕ → ℕ → Cmd (Option Ptr)
create_p4_header buffer offset maxlength =
    if ltb maxlength (offset + Layout.Header.size) then pure none else do
      let header = buffer + offset
      store8 (Layout.Header.version header) p4_version
      store8 (Layout.Header.type header) 0
      store16 (Layout.Header.len header) Layout.Header.size
      store32 (Layout.Header.xid header) 0
      pure (some header)

unfoldable pub create_p4_add_table_entry : Ptr → ℕ → ℕ → Cmd (Option Ptr)
create_p4_add_table_entry buffer offset maxlength =
    if leb maxlength (offset + Layout.AddEntry.size) then pure none else do
      let entry = buffer + offset
      store16 (Layout.Header.len entry) Layout.AddEntry.size
      store8 (Layout.Header.type entry) p4t_add_table_entry
      store8 (Layout.AddEntry.read_size entry) 0
      store8 (Layout.AddEntry.table_name entry) 0
      pure (some entry)

-- What each `add_p4_*` starts with: the overflow check, the address behind the message, and the
-- new length of the message.
unfoldable pub reserve : Ptr → ℕ → ℕ → Cmd (Option Ptr)
reserve header size maxlength = do
  len ← get16 (Layout.Header.len header)
  if ltb maxlength (len + size)
      then pure none
      else (store16 (Layout.Header.len header) (len + size) >> pure (some (header + len)))

-- `x += 1` on a `uint8_t`
unfoldable pub increment : Ptr → Cmd (Unit {0})
increment p = do n ← get8 p; store8 p (n + 1)

-- The stores of an `add_p4_*` behind its overflow check.
abbrev pub if_reserved : (Ptr → Cmd (Unit {0})) → Option Ptr → Cmd (Option Ptr)
if_reserved fill none = pure none
if_reserved fill (some p) = fill p >> pure (some p)

unfoldable pub add_p4_field_match_lpm : Ptr → ℕ → Cmd (Option Ptr)
unfolding reserve increment
add_p4_field_match_lpm entry maxlength =
    reserve entry Layout.Match.size_lpm maxlength
    >>= if_reserved λ f. do
      increment (Layout.AddEntry.read_size entry)
      store8 (Layout.Match.type f) p4_fmt_lpm
      store16 (Layout.Match.len f) 0

unfoldable pub add_p4_field_match_exact : Ptr → ℕ → Cmd (Option Ptr)
unfolding reserve increment
add_p4_field_match_exact entry maxlength =
    reserve entry Layout.Match.size_exact maxlength
    >>= if_reserved λ f. do
      increment (Layout.AddEntry.read_size entry)
      store8 (Layout.Match.type f) p4_fmt_exact
      store16 (Layout.Match.len f) 0

unfoldable pub add_p4_field_match_range : Ptr → ℕ → Cmd (Option Ptr)
unfolding reserve increment
add_p4_field_match_range entry maxlength =
    reserve entry Layout.Match.size_range maxlength
    >>= if_reserved λ f. do
      increment (Layout.AddEntry.read_size entry)
      store8 (Layout.Match.type f) p4_fmt_range
      store16 (Layout.Match.len f) 0
      store8 (Layout.Match.flag f) 0

unfoldable pub add_p4_field_match_valid : Ptr → ℕ → Cmd (Option Ptr)
unfolding reserve increment
add_p4_field_match_valid entry maxlength =
    reserve entry Layout.Match.size_valid maxlength
    >>= if_reserved λ f. do
      increment (Layout.AddEntry.read_size entry)
      store8 (Layout.Match.type f) p4_fmt_valid
      store16 (Layout.Match.len f) 0
      store8 (Layout.Match.flag f) 0

unfoldable pub add_p4_field_match_ternary : Ptr → ℕ → Cmd (Option Ptr)
unfolding reserve increment
add_p4_field_match_ternary entry maxlength =
    reserve entry Layout.Match.size_ternary maxlength
    >>= if_reserved λ f. do
      increment (Layout.AddEntry.read_size entry)
      store8 (Layout.Match.type f) p4_fmt_ternary
      store16 (Layout.Match.len f) 0
      store8 (Layout.Match.flag f) 0

unfoldable pub add_p4_action : Ptr → ℕ → Cmd (Option Ptr)
unfolding reserve
add_p4_action header maxlength =
    reserve header Layout.Action.size maxlength
    >>= if_reserved λ a. do
      store8 (Layout.Action.type a) p4_at_action
      store8 (Layout.Action.name a) 0
      store8 (Layout.Action.param_size a) 0

unfoldable pub add_p4_action_parameter : Ptr → Ptr → ℕ → Cmd (Option Ptr)
unfolding reserve increment
add_p4_action_parameter header action maxlength =
    reserve header Layout.Param.size maxlength
    >>= if_reserved λ p. do
      increment (Layout.Action.param_size action)
      store8 (Layout.Param.name p) 0
      store32 (Layout.Param.len p) 0

unfoldable pub create_p4_set_default_action : Ptr → ℕ → ℕ → Cmd (Option Ptr)
create_p4_set_default_action buffer offset maxlength =
    if leb maxlength (offset + Layout.SetDefault.size) then pure none else do
      let message = buffer + offset
      let action = Layout.SetDefault.action message
      store16 (Layout.Header.len message) Layout.SetDefault.size
      store8 (Layout.Header.type message) p4t_set_default_action
      store8 (Layout.SetDefault.table_name message) 0
      store8 (Layout.Action.type action) p4_at_action
      store8 (Layout.Action.name action) 0
      store8 (Layout.Action.param_size action) 0
      pure (some message)

unfoldable pub create_p4_digest : Ptr → ℕ → ℕ → Cmd (Option Ptr)
create_p4_digest buffer offset maxlength =
    if leb maxlength (offset + Layout.Digest.size) then pure none else do
      let digest = buffer + offset
      store16 (Layout.Header.len digest) Layout.Digest.size
      store8 (Layout.Header.type digest) p4t_digest
      store8 (Layout.Digest.field_list_name digest) 0
      store8 (Layout.Digest.list_size digest) 0
      pure (some digest)

unfoldable pub add_p4_digest_field : Ptr → ℕ → Cmd (Option Ptr)
unfolding reserve increment
add_p4_digest_field digest maxlength =
    reserve digest Layout.DigestField.size maxlength
    >>= if_reserved λ f. do
      increment (Layout.Digest.list_size digest)
      store8 (Layout.DigestField.name f) 0
      store32 (Layout.DigestField.len f) 0
