-- ===== src/Apps/L2/Learn.antt =====
-- mac_controller.c: what the controller does with a digest, and what it sends to a new switch.
use macsad.Prelude.{ℕ, ◌+◌, ◌*◌, ◌∷◌, [], List, Option, none, some, ◌==◌, if◌then◌else◌, get_or}
use macsad.Memory.{Mem, Ptr, Cmd, pure, ◌>>=◌, get8, read_bytes, string_at, codes}
use macsad.Messages.Layout
use macsad.Messages.Layout.{p4t_digest}
use macsad.Messages.Netconv.{netconv_p4_header, netconv_p4_digest_field}
use macsad.Controller.{Fill, Garbage, Controller, send_built, send_all}
use macsad.Apps.Build.{bitmap_only, lpm_entry}
use macsad.Apps.L2.{
  fill_smac_table, fill_dmac_table, set_default_action_smac, set_default_action_dmac,
}

-- The first bytes of the value of the digest field at `offset`, whose length is converted.
unfoldable pub digest_value : Ptr → ℕ → Cmd (List ℕ)
unfolding netconv_p4_digest_field read_bytes
digest_value p n = do
  df ← netconv_p4_digest_field p
  λ m. some (read_bytes m (Layout.DigestField.value df) n, m)

-- The values that `mac_learn_digest` takes from the digest at b: the MAC address and the port.
unfoldable pub learned_mac : Ptr → Cmd (List ℕ × ℕ)
unfolding digest_value
learned_mac b = do
  let offset = Layout.Digest.size
  mac ← digest_value (b + offset) 6
  port ← digest_value (b + (offset + Layout.DigestField.size)) 2
  pure (mac, get_or port 0 0)

unfoldable pub mac_learn_digest : Ptr → Mem → (ℕ → Garbage) → Controller → Option Controller
unfolding learned_mac send_all
mac_learn_digest b m g ct = elim (learned_mac b m) [
  | none ↦ none
  | some ((mac, port), _) ↦ send_all (fill_dmac_table port mac ∷ fill_smac_table port mac ∷ []) g ct
]

-- `memcpy(&pr, _, 2)` on a little-endian host
abbrev le16_value : List ℕ → ℕ
le16_value bs = get_or bs 0 0 + 256 * get_or bs 1 0

-- The values that `test_learn_ip` takes from the digest at b.
unfoldable pub learned_ip : Ptr → Cmd (List ℕ × List ℕ × List ℕ × List ℕ × List ℕ)
unfolding digest_value
learned_ip b = do
  let offset = Layout.Digest.size
  let size = Layout.DigestField.size
  ip ← digest_value (b + offset) 4
  pr ← digest_value (b + (offset + size)) 2
  i1 ← digest_value (b + (offset + 2 * size)) 4
  i2 ← digest_value (b + (offset + 3 * size)) 4
  i3 ← digest_value (b + (offset + 4 * size)) 4
  pure (ip, pr, i1, i2, i3)

unfoldable pub test_learn_ip : Ptr → Mem → (ℕ → Garbage) → Controller → Option Controller
unfolding learned_ip
test_learn_ip b m g ct = elim (learned_ip b m) [
  | none ↦ none
  | some ((ip, pr, i1, i2, i3), _) ↦
      send_built
        (lpm_entry "table1" "field1" ip (le16_value pr) "korte"
          (bitmap_only i1 ∷ bitmap_only i2 ∷ bitmap_only i3 ∷ []))
        (g 0) ct
]

-- `dhf`, called by the thread `input_processor` with a message at b.
unfoldable pub dhf : Ptr → Mem → (ℕ → Garbage) → Controller → Option Controller
unfolding netconv_p4_header string_at mac_learn_digest test_learn_ip
dhf b m g ct = elim ((netconv_p4_header b >>= λ h. get8 (Layout.Header.type h)) m) [
  | none ↦ none
  | some (type, m') ↦
      if type == p4t_digest
      then if string_at m' (Layout.Digest.field_list_name b) (codes "mac_learn_digest")
        then mac_learn_digest b m' g ct
        else if string_at m' (Layout.Digest.field_list_name b) (codes "test_learn_ip")
        then test_learn_ip b m' g ct
        else some ct
      else some ct
]

-- The messages for the entries of the file, in order: the MAC address and the port of each.
unfoldable pub entry_fills : List (List ℕ × ℕ) → List Fill
entry_fills [] = []
entry_fills ((mac, port) ∷ entries) =
    fill_dmac_table port mac ∷ fill_smac_table port mac ∷ entry_fills entries

unfoldable pub init : List (List ℕ × ℕ) → (ℕ → Garbage) → Controller → Option Controller
unfolding entry_fills send_all
init entries = send_all (set_default_action_smac ∷ set_default_action_dmac ∷ entry_fills entries)
