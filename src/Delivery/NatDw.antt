-- ===== src/Delivery/NatDw.antt =====
-- The messages of mac_nat_dw.c at the switch.
use macsad.Prelude.{ℕ, ◌≡◌, refl, some, [], ◌∷◌, ◌%◌}
use macsad.Memory.{Mem, write, write_bytes, load16, load32, put16, put32}
use macsad.Handlers.{CtrlMsg}
use macsad.Controller.{Controller, Garbage}
use macsad.View.{View}
use macsad.Delivery.{exact_bytes}
use macsad.Delivery.Views
use macsad.Delivery.Queued.{HasRoom, Delivers, received_built, Delivers-send_built}
use macsad.Apps.Build
use macsad.Apps.Build.{default_action, exact_entry, le32}
use macsad.Apps.NatDw.{
  fill_nat_dw, fill_ipv4_lpm, fill_if_info, fill_smac, fill_sendout_table,
  set_default_action_nat_up, set_default_action_nat_dw,
}

module _ (a0 a1 a2 a3 b0 b1 b2 b3 b4 b5 port dst_port : ℕ) (g : Garbage) (cell : Mem)
    (c : CtrlMsg) where
  abbrev pub nat_dw_view : View
  nat_dw_view =
      Views.entry "nat_dw" (Views.exact "tcp.dstPort" 16 (0 ∷ dst_port % 256 ∷ []))
        "nat_hit_ext_to_int" (Views.param "dstAddr" 32 (a0 ∷ a1 ∷ a2 ∷ a3 ∷ []) ∷ [])

  nat_dw_built :
      received_built exact_bytes cell c g.heap (
        exact_entry "nat_dw" "tcp.dstPort"
          (0 ∷ dst_port % 256 ∷ [])
          16
          "nat_hit_ext_to_int"
          (Build.param "dstAddr" (a0 ∷ a1 ∷ a2 ∷ a3 ∷ []) 32 ∷ [])
          g.stack)
      ≡ some nat_dw_view
  unfolding exact_entry received_built write write_bytes load16 load32 put16 put32
  nat_dw_built = refl

  pub fill_nat_dw-Delivers :
      {ct : Controller}
      → HasRoom ct
      → Delivers exact_bytes cell c ct
          (fill_nat_dw dst_port (a0 ∷ a1 ∷ a2 ∷ a3 ∷ []) g ct)
          nat_dw_view
  unfolding fill_nat_dw
  fill_nat_dw-Delivers h = Delivers-send_built exact_bytes g cell c _ _ nat_dw_built h

  abbrev pub ipv4_lpm_view : View
  ipv4_lpm_view =
      Views.entry "ipv4_lpm" (Views.exact "ipv4.dstAddr" 32 (a0 ∷ a1 ∷ a2 ∷ a3 ∷ [])) "set_nhop" (
        Views.param "port" 16 (port ∷ 0 ∷ [])
        ∷ Views.param "dstAddr" 48 (b0 ∷ b1 ∷ b2 ∷ b3 ∷ b4 ∷ b5 ∷ [])
        ∷ [])

  ipv4_lpm_built :
      received_built exact_bytes cell c g.heap (
        exact_entry "ipv4_lpm" "ipv4.dstAddr"
          (a0 ∷ a1 ∷ a2 ∷ a3 ∷ [])
          32
          "set_nhop"
          (Build.param "port" (port ∷ 0 ∷ []) 16
            ∷ Build.param "dstAddr" (b0 ∷ b1 ∷ b2 ∷ b3 ∷ b4 ∷ b5 ∷ []) 48
            ∷ [])
          g.stack)
      ≡ some ipv4_lpm_view
  unfolding exact_entry received_built write write_bytes load16 load32 put16 put32
  ipv4_lpm_built = refl

  pub fill_ipv4_lpm-Delivers :
      {ct : Controller}
      → HasRoom ct
      → Delivers exact_bytes cell c ct
          (fill_ipv4_lpm (a0 ∷ a1 ∷ a2 ∷ a3 ∷ []) port (b0 ∷ b1 ∷ b2 ∷ b3 ∷ b4 ∷ b5 ∷ []) g ct)
          ipv4_lpm_view
  unfolding fill_ipv4_lpm
  fill_ipv4_lpm-Delivers h = Delivers-send_built exact_bytes g cell c _ _ ipv4_lpm_built h

  abbrev pub if_info_view : View
  if_info_view =
      Views.entry "if_info" (Views.exact "standard_metadata.ingress_port" 16 (port ∷ 0 ∷ []))
        "set_if_info" (Views.param "is_int_if" 16 (port ∷ 0 ∷ []) ∷ [])

  if_info_built :
      received_built exact_bytes cell c g.heap (
        exact_entry "if_info" "standard_metadata.ingress_port"
          (port ∷ 0 ∷ [])
          16
          "set_if_info"
          (Build.param "is_int_if" (port ∷ 0 ∷ []) 16 ∷ [])
          g.stack)
      ≡ some if_info_view
  unfolding exact_entry received_built write write_bytes load16 load32 put16 put32
  if_info_built = refl

  pub fill_if_info-Delivers :
      {ct : Controller}
      → HasRoom ct
      → Delivers exact_bytes cell c ct (fill_if_info port g ct) if_info_view
  unfolding fill_if_info
  fill_if_info-Delivers h = Delivers-send_built exact_bytes g cell c _ _ if_info_built h

  abbrev pub smac_view : View
  smac_view =
      Views.entry "smac" (Views.exact "ethernet.srcAddr" 48 (b0 ∷ b1 ∷ b2 ∷ b3 ∷ b4 ∷ b5 ∷ []))
        "_nop" ([])

  smac_built :
      received_built exact_bytes cell c g.heap (
        exact_entry "smac" "ethernet.srcAddr"
          (b0 ∷ b1 ∷ b2 ∷ b3 ∷ b4 ∷ b5 ∷ [])
          48
          "_nop"
          ([])
          g.stack)
      ≡ some smac_view
  unfolding exact_entry received_built write write_bytes load16 load32 put16 put32
  smac_built = refl

  pub fill_smac-Delivers :
      {ct : Controller}
      → HasRoom ct
      → Delivers exact_bytes cell c ct (fill_smac (b0 ∷ b1 ∷ b2 ∷ b3 ∷ b4 ∷ b5 ∷ []) g ct) smac_view
  unfolding fill_smac
  fill_smac-Delivers h = Delivers-send_built exact_bytes g cell c _ _ smac_built h

  abbrev pub sendout_table_view : View
  sendout_table_view =
      Views.entry "sendout" (Views.exact "standard_metadata.egress_port" 16 (port ∷ 0 ∷ []))
        "rewrite_src_mac" (Views.param "srcAddr" 48 (b0 ∷ b1 ∷ b2 ∷ b3 ∷ b4 ∷ b5 ∷ []) ∷ [])

  sendout_table_built :
      received_built exact_bytes cell c g.heap (
        exact_entry "sendout" "standard_metadata.egress_port"
          (port ∷ 0 ∷ [])
          16
          "rewrite_src_mac"
          (Build.param "srcAddr" (b0 ∷ b1 ∷ b2 ∷ b3 ∷ b4 ∷ b5 ∷ []) 48 ∷ [])
          g.stack)
      ≡ some sendout_table_view
  unfolding exact_entry received_built write write_bytes load16 load32 put16 put32
  sendout_table_built = refl

  pub fill_sendout_table-Delivers :
      {ct : Controller}
      → HasRoom ct
      → Delivers exact_bytes cell c ct
          (fill_sendout_table port (b0 ∷ b1 ∷ b2 ∷ b3 ∷ b4 ∷ b5 ∷ []) g ct)
          sendout_table_view
  unfolding fill_sendout_table
  fill_sendout_table-Delivers h = Delivers-send_built exact_bytes g cell c _ _ sendout_table_built h

  abbrev pub default_nat_up_view : View
  default_nat_up_view = Views.default "nat_up" "natTcp_learn" ([])

  default_nat_up_built :
      received_built exact_bytes cell c g.heap (default_action "nat_up" "natTcp_learn" ([]) g.stack)
      ≡ some default_nat_up_view
  unfolding default_action received_built write write_bytes load16 load32 put16 put32
  default_nat_up_built = refl

  pub set_default_action_nat_up-Delivers :
      {ct : Controller}
      → HasRoom ct
      → Delivers exact_bytes cell c ct (set_default_action_nat_up g ct) default_nat_up_view
  unfolding set_default_action_nat_up
  set_default_action_nat_up-Delivers h =
      Delivers-send_built exact_bytes g cell c _ _ default_nat_up_built h

  abbrev pub default_nat_dw_view : View
  default_nat_dw_view = Views.default "nat_dw" "_drop" ([])

  default_nat_dw_built :
      received_built exact_bytes cell c g.heap (default_action "nat_dw" "_drop" ([]) g.stack)
      ≡ some default_nat_dw_view
  unfolding default_action received_built write write_bytes load16 load32 put16 put32
  default_nat_dw_built = refl

  pub set_default_action_nat_dw-Delivers :
      {ct : Controller}
      → HasRoom ct
      → Delivers exact_bytes cell c ct (set_default_action_nat_dw g ct) default_nat_dw_view
  unfolding set_default_action_nat_dw
  set_default_action_nat_dw-Delivers h =
      Delivers-send_built exact_bytes g cell c _ _ default_nat_dw_built h

  abbrev pub TablesDeliver : Controller → Type 0
  TablesDeliver ct =
      (Delivers exact_bytes cell c ct (fill_nat_dw dst_port (a0 ∷ a1 ∷ a2 ∷ a3 ∷ []) g ct)
        nat_dw_view)
      × (Delivers exact_bytes cell c ct
          (fill_ipv4_lpm (a0 ∷ a1 ∷ a2 ∷ a3 ∷ []) port (b0 ∷ b1 ∷ b2 ∷ b3 ∷ b4 ∷ b5 ∷ []) g ct)
          ipv4_lpm_view)
      × (Delivers exact_bytes cell c ct (fill_if_info port g ct) if_info_view)
      × (Delivers exact_bytes cell c ct (fill_smac (b0 ∷ b1 ∷ b2 ∷ b3 ∷ b4 ∷ b5 ∷ []) g ct)
          smac_view)
      × (Delivers exact_bytes cell c ct
          (fill_sendout_table port (b0 ∷ b1 ∷ b2 ∷ b3 ∷ b4 ∷ b5 ∷ []) g ct) sendout_table_view)
      × (Delivers exact_bytes cell c ct (set_default_action_nat_up g ct) default_nat_up_view)
      × (Delivers exact_bytes cell c ct (set_default_action_nat_dw g ct) default_nat_dw_view)

  -- For every address, port and group and whatever the stack, the heap and the switch's memory
  -- held: with room in the output queue, each function of mac_nat_dw.c that fills a table or sets
  -- a default action succeeds, puts one message behind those that were queued, and the switch
  -- decodes it to the table, the match, the action and the parameters that the function names, of
  -- a destination port its low byte only.
  pub mac_nat_dw-Delivers : {ct : Controller} → HasRoom ct → TablesDeliver ct
  mac_nat_dw-Delivers h = (
    fill_nat_dw-Delivers h,
    fill_ipv4_lpm-Delivers h,
    fill_if_info-Delivers h,
    fill_smac-Delivers h,
    fill_sendout_table-Delivers h,
    set_default_action_nat_up-Delivers h,
    set_default_action_nat_dw-Delivers h,
  )
