-- ===== src/Messages/Netconv.antt =====
-- The `netconv_*` functions of messages.c, which turn the multi-byte members between the host's
-- order and network order in place. `unpack_*` are the struct addresses `buffer + offset`.
use macsad.Prelude.{ℕ, ◌==◌, if◌then◌else◌}
use macsad.Memory.{Ptr, Cmd, pure, ◌>>=◌, ◌>>◌, get8, get16, get32, store16, store32}
use macsad.Memory.ByteOrder.{htons, htonl}
use macsad.Messages.Layout
use macsad.Messages.Layout.{p4_fmt_exact, p4_fmt_ternary, p4_fmt_lpm, p4_fmt_range, p4_fmt_valid}

unfoldable pub netconv_p4_header : Ptr → Cmd Ptr
unfolding htons htonl
netconv_p4_header m = do
  len ← get16 (Layout.Header.len m)
  store16 (Layout.Header.len m) (htons len)
  xid ← get32 (Layout.Header.xid m)
  store32 (Layout.Header.xid m) (htonl xid)
  pure m

-- `m->length = htons(m->length)`; the lpm struct calls the same member `prefix_length`.
unfoldable pub convert_length : Ptr → Cmd Ptr
unfolding htons
convert_length m = do
  len ← get16 (Layout.Match.len m)
  store16 (Layout.Match.len m) (htons len)
  pure m

unfoldable pub netconv_p4_field_match_lpm : Ptr → Cmd Ptr
unfolding convert_length
netconv_p4_field_match_lpm m = convert_length m

unfoldable pub netconv_p4_field_match_exact : Ptr → Cmd Ptr
unfolding convert_length
netconv_p4_field_match_exact m = convert_length m

unfoldable pub netconv_p4_field_match_range : Ptr → Cmd Ptr
unfolding convert_length
netconv_p4_field_match_range m = convert_length m

unfoldable pub netconv_p4_field_match_ternary : Ptr → Cmd Ptr
unfolding convert_length
netconv_p4_field_match_ternary m = convert_length m

unfoldable pub netconv_p4_field_match_valid : Ptr → Cmd Ptr
unfolding convert_length
netconv_p4_field_match_valid m = convert_length m

-- The size goes through `*size`; an unknown type has size 0 and is left alone.
unfoldable pub netconv_p4_field_match_complex : Ptr → Cmd (Ptr × ℕ)
unfolding netconv_p4_field_match_lpm netconv_p4_field_match_exact netconv_p4_field_match_range
    netconv_p4_field_match_ternary netconv_p4_field_match_valid
netconv_p4_field_match_complex m = do
  type ← get8 (Layout.Match.type m)
  if type == p4_fmt_exact
      then netconv_p4_field_match_exact m >> pure (m, Layout.Match.size_exact)
      else if type == p4_fmt_ternary
      then netconv_p4_field_match_ternary m >> pure (m, Layout.Match.size_ternary)
      else if type == p4_fmt_lpm
      then netconv_p4_field_match_lpm m >> pure (m, Layout.Match.size_lpm)
      else if type == p4_fmt_range
      then netconv_p4_field_match_range m >> pure (m, Layout.Match.size_range)
      else if type == p4_fmt_valid
      then netconv_p4_field_match_valid m >> pure (m, Layout.Match.size_valid)
      else pure (m, 0)

unfoldable pub netconv_p4_digest_field : Ptr → Cmd Ptr
unfolding htonl
netconv_p4_digest_field m = do
  len ← get32 (Layout.DigestField.len m)
  store32 (Layout.DigestField.len m) (htonl len)
  pure m

unfoldable pub netconv_p4_action_parameter : Ptr → Cmd Ptr
unfolding htonl
netconv_p4_action_parameter m = do
  len ← get32 (Layout.Param.len m)
  store32 (Layout.Param.len m) (htonl len)
  pure m

-- Nothing to do: `netconv_p4_add_table_entry`, `netconv_p4_action`, `netconv_p4_set_default_action`.
unfoldable pub netconv_p4_add_table_entry : Ptr → Cmd Ptr
netconv_p4_add_table_entry m = pure m

unfoldable pub netconv_p4_action : Ptr → Cmd Ptr
netconv_p4_action m = pure m

unfoldable pub netconv_p4_set_default_action : Ptr → Cmd Ptr
netconv_p4_set_default_action m = pure m
