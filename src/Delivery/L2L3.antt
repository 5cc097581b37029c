-- ===== src/Delivery/L2L3.antt =====
-- The messages of mac_l2_l3_controller.c at the switch.
use macsad.Prelude.{ℕ, ◌≡◌, refl, some, [], ◌∷◌}
use macsad.Memory.{Mem, write, write_bytes, load16, load32, put16, put32}
use macsad.Handlers.{CtrlMsg}
use macsad.Controller.{Controller, Garbage}
use macsad.View.{View}
use macsad.Delivery.{exact_bytes, lpm_bytes}
use macsad.Delivery.Views
use macsad.Delivery.Queued.{HasRoom, Delivers, received_built, Delivers-send_built}
use macsad.Apps.Build
use macsad.Apps.Build.{default_action, exact_entry, lpm_entry, le32}
use macsad.Apps.L2L3.{
  fill_ipv4_lpm_table, fill_ipv4_forward_table, fill_send_frame_table, fill_dmac_classifier_table,
  set_default_action_dmac_classifier, set_default_action_send_frame, set_default_action_dmac,
  set_default_action_smac, fill_dmac_table, fill_smac_table,
}

module _ (a0 a1 a2 a3 b0 b1 b2 b3 b4 b5 nhgrp port : ℕ) (x1 x2 x3 x4 x5 x6 x7 : ℕ) (g : Garbage)
    (cell : Mem) (c : CtrlMsg) where
  abbrev pub ipv4_lpm_table_view : View
  ipv4_lpm_table_view =
      Views.entry "ipv4_lpm" (Views.lpm "ipv4.dstAddr" 16 (a0 ∷ a1 ∷ a2 ∷ a3 ∷ [])) "set_nhop"
        (Views.param "nhgroup" 32 (le32 nhgrp) ∷ [])

  ipv4_lpm_table_built :
      received_built lpm_bytes cell c g.heap (
        lpm_entry "ipv4_lpm" "ipv4.dstAddr"
          (a0 ∷ a1 ∷ a2 ∷ a3 ∷ [])
          16
          "set_nhop"
          (Build.param "nhgroup" (le32 nhgrp) 32 ∷ [])
          g.stack)
      ≡ some ipv4_lpm_table_view
  unfolding lpm_entry received_built write write_bytes load16 load32 put16 put32
  ipv4_lpm_table_built = refl

  pub fill_ipv4_lpm_table-Delivers :
      {ct : Controller}
      → HasRoom ct
      → Delivers lpm_bytes cell c ct
          (fill_ipv4_lpm_table (a0 ∷ a1 ∷ a2 ∷ a3 ∷ []) nhgrp g ct)
          ipv4_lpm_table_view
  unfolding fill_ipv4_lpm_table
  fill_ipv4_lpm_table-Delivers h = Delivers-send_built lpm_bytes g cell c _ _ ipv4_lpm_table_built h

  abbrev pub ipv4_forward_table_view : View
  ipv4_forward_table_view =
      Views.entry "ipv4_forward" (Views.exact "routing_metadata.nhgroup" 32 (le32 nhgrp))
        "l3forward" (Views.param "dmac" 48 (b0 ∷ b1 ∷ b2 ∷ b3 ∷ b4 ∷ b5 ∷ []) ∷ [])

  ipv4_forward_table_built :
      received_built exact_bytes cell c g.heap (
        exact_entry "ipv4_forward" "routing_metadata.nhgroup"
          (le32 nhgrp)
          32
          "l3forward"
          (Build.param "dmac" (b0 ∷ b1 ∷ b2 ∷ b3 ∷ b4 ∷ b5 ∷ []) 48 ∷ [])
          g.stack)
      ≡ some ipv4_forward_table_view
  unfolding exact_entry received_built write write_bytes load16 load32 put16 put32
  ipv4_forward_table_built = refl

  pub fill_ipv4_forward_table-Delivers :
      {ct : Controller}
      → HasRoom ct
      → Delivers exact_bytes cell c ct
          (fill_ipv4_forward_table nhgrp (b0 ∷ b1 ∷ b2 ∷ b3 ∷ b4 ∷ b5 ∷ []) g ct)
          ipv4_forward_table_view
  unfolding fill_ipv4_forward_table
  fill_ipv4_forward_table-Delivers h =
      Delivers-send_built exact_bytes g cell c _ _ ipv4_forward_table_built h

  abbrev pub send_frame_table_view : View
  send_frame_table_view =
      Views.entry "send_frame" (Views.exact "standard_metadata.egress_port" 8 (port ∷ []))
        "rewrite_mac" (Views.param "smac" 48 (b0 ∷ b1 ∷ b2 ∷ b3 ∷ b4 ∷ b5 ∷ []) ∷ [])

  send_frame_table_built :
      received_built exact_bytes cell c g.heap (
        exact_entry "send_frame" "standard_metadata.egress_port"
          (port ∷ x1 ∷ x2 ∷ x3 ∷ x4 ∷ x5 ∷ x6 ∷ x7 ∷ [])
          8
          "rewrite_mac"
          (Build.param "smac" (b0 ∷ b1 ∷ b2 ∷ b3 ∷ b4 ∷ b5 ∷ []) 48 ∷ [])
          g.stack)
      ≡ some send_frame_table_view
  unfolding exact_entry received_built write write_bytes load16 load32 put16 put32
  send_frame_table_built = refl

  pub fill_send_frame_table-Delivers :
      {ct : Controller}
      → HasRoom ct
      → Delivers exact_bytes cell c ct
          (fill_send_frame_table port
            (x1 ∷ x2 ∷ x3 ∷ x4 ∷ x5 ∷ x6 ∷ x7 ∷ [])
            (b0 ∷ b1 ∷ b2 ∷ b3 ∷ b4 ∷ b5 ∷ [])
            g
            ct)
          send_frame_table_view
  unfolding fill_send_frame_table
  fill_send_frame_table-Delivers h =
      Delivers-send_built exact_bytes g cell c _ _ send_frame_table_built h

  abbrev pub dmac_classifier_table_view : View
  dmac_classifier_table_view =
      Views.entry "dmac_classifier"
        (Views.exact "ethernet.dstAddr" 48 (b0 ∷ b1 ∷ b2 ∷ b3 ∷ b4 ∷ b5 ∷ [])) "set_fwd_mode"
        (Views.param "mode" 8 (port ∷ []) ∷ [])

  dmac_classifier_table_built :
      received_built exact_bytes cell c g.heap (
        exact_entry "dmac_classifier" "ethernet.dstAddr"
          (b0 ∷ b1 ∷ b2 ∷ b3 ∷ b4 ∷ b5 ∷ [])
          48
          "set_fwd_mode"
          (Build.param "mode" (port ∷ []) 8 ∷ [])
          g.stack)
      ≡ some dmac_classifier_table_view
  unfolding exact_entry received_built write write_bytes load16 load32 put16 put32
  dmac_classifier_table_built = refl

  pub fill_dmac_classifier_table-Delivers :
      {ct : Controller}
      → HasRoom ct
      → Delivers exact_bytes cell c ct
          (fill_dmac_classifier_table (b0 ∷ b1 ∷ b2 ∷ b3 ∷ b4 ∷ b5 ∷ []) port g ct)
          dmac_classifier_table_view
  unfolding fill_dmac_classifier_table
  fill_dmac_classifier_table-Delivers h =
      Delivers-send_built exact_bytes g cell c _ _ dmac_classifier_table_built h

  abbrev pub default_dmac_classifier_view : View
  default_dmac_classifier_view =
      Views.default "dmac_classifier" "set_fwd_mode" (Views.param "mode" 8 (0 ∷ []) ∷ [])

  default_dmac_classifier_built :
      received_built exact_bytes cell c g.heap (
        default_action "dmac_classifier" "set_fwd_mode"
          (Build.param "mode" (0 ∷ []) 8 ∷ [])
          g.stack)
      ≡ some default_dmac_classifier_view
  unfolding default_action received_built write write_bytes load16 load32 put16 put32
  default_dmac_classifier_built = refl

  pub set_default_action_dmac_classifier-Delivers :
      {ct : Controller}
      → HasRoom ct
      → Delivers exact_bytes cell c ct
          (set_default_action_dmac_classifier g ct)
          default_dmac_classifier_view
  unfolding set_default_action_dmac_classifier
  set_default_action_dmac_classifier-Delivers h =
      Delivers-send_built exact_bytes g cell c _ _ default_dmac_classifier_built h

  abbrev pub default_send_frame_view : View
  default_send_frame_view = Views.default "send_frame" "_nop" ([])

  default_send_frame_built :
      received_built exact_bytes cell c g.heap (default_action "send_frame" "_nop" ([]) g.stack)
      ≡ some default_send_frame_view
  unfolding default_action received_built write write_bytes load16 load32 put16 put32
  default_send_frame_built = refl

  pub set_default_action_send_frame-Delivers :
      {ct : Controller}
      → HasRoom ct
      → Delivers exact_bytes cell c ct (set_default_action_send_frame g ct) default_send_frame_view
  unfolding set_default_action_send_frame
  set_default_action_send_frame-Delivers h =
      Delivers-send_built exact_bytes g cell c _ _ default_send_frame_built h

  abbrev pub default_dmac_view : View
  default_dmac_view = Views.default "dmac" "broadcast" ([])

  default_dmac_built :
      received_built exact_bytes cell c g.heap (default_action "dmac" "broadcast" ([]) g.stack)
      ≡ some default_dmac_view
  unfolding default_action received_built write write_bytes load16 load32 put16 put32
  default_dmac_built = refl

  pub set_default_action_dmac-Delivers :
      {ct : Controller}
      → HasRoom ct
      → Delivers exact_bytes cell c ct (set_default_action_dmac g ct) default_dmac_view
  unfolding set_default_action_dmac
  set_default_action_dmac-Delivers h =
      Delivers-send_built exact_bytes g cell c _ _ default_dmac_built h

  abbrev pub default_smac_view : View
  default_smac_view = Views.default "smac" "mac_learn" ([])

  default_smac_built :
      received_built exact_bytes cell c g.heap (default_action "smac" "mac_learn" ([]) g.stack)
      ≡ some default_smac_view
  unfolding default_action received_built write write_bytes load16 load32 put16 put32
  default_smac_built = refl

  pub set_default_action_smac-Delivers :
      {ct : Controller}
      → HasRoom ct
      → Delivers exact_bytes cell c ct (set_default_action_smac g ct) default_smac_view
  unfolding set_default_action_smac
  set_default_action_smac-Delivers h =
      Delivers-send_built exact_bytes g cell c _ _ default_smac_built h

  abbrev pub dmac_table_view : View
  dmac_table_view =
      Views.entry "dmac" (Views.exact "ethernet.dstAddr" 48 (b0 ∷ b1 ∷ b2 ∷ b3 ∷ b4 ∷ b5 ∷ []))
        "forward" (Views.param "port" 8 (port ∷ []) ∷ [])

  dmac_table_built :
      received_built exact_bytes cell c g.heap (
        exact_entry "dmac" "ethernet.dstAddr"
          (b0 ∷ b1 ∷ b2 ∷ b3 ∷ b4 ∷ b5 ∷ [])
          48
          "forward"
          (Build.param "port" (port ∷ []) 8 ∷ [])
          g.stack)
      ≡ some dmac_table_view
  unfolding exact_entry received_built write write_bytes load16 load32 put16 put32
  dmac_table_built = refl

  pub fill_dmac_table-Delivers :
      {ct : Controller}
      → HasRoom ct
      → Delivers exact_bytes cell c ct
          (fill_dmac_table port (b0 ∷ b1 ∷ b2 ∷ b3 ∷ b4 ∷ b5 ∷ []) g ct)
          dmac_table_view
  unfolding fill_dmac_table
  fill_dmac_table-Delivers h = Delivers-send_built exact_bytes g cell c _ _ dmac_table_built h

  abbrev pub smac_table_view : View
  smac_table_view =
      Views.entry "smac" (Views.exact "ethernet.srcAddr" 48 (b0 ∷ b1 ∷ b2 ∷ b3 ∷ b4 ∷ b5 ∷ []))
        "_nop" ([])

  smac_table_built :
      received_built exact_bytes cell c g.heap (
        exact_entry "smac" "ethernet.srcAddr"
          (b0 ∷ b1 ∷ b2 ∷ b3 ∷ b4 ∷ b5 ∷ [])
          48
          "_nop"
          ([])
          g.stack)
      ≡ some smac_table_view
  unfolding exact_entry received_built write write_bytes load16 load32 put16 put32
  smac_table_built = refl

  pub fill_smac_table-Delivers :
      {ct : Controller}
      → HasRoom ct
      → Delivers exact_bytes cell c ct
          (fill_smac_table port (b0 ∷ b1 ∷ b2 ∷ b3 ∷ b4 ∷ b5 ∷ []) g ct)
          smac_table_view
  unfolding fill_smac_table
  fill_smac_table-Delivers h = Delivers-send_built exact_bytes g cell c _ _ smac_table_built h

  abbrev pub TablesDeliver : Controller → Type 0
  TablesDeliver ct =
      (Delivers lpm_bytes cell c ct (fill_ipv4_lpm_table (a0 ∷ a1 ∷ a2 ∷ a3 ∷ []) nhgrp g ct)
        ipv4_lpm_table_view)
      × (Delivers exact_bytes cell c ct
          (fill_ipv4_forward_table nhgrp (b0 ∷ b1 ∷ b2 ∷ b3 ∷ b4 ∷ b5 ∷ []) g ct)
          ipv4_forward_table_view)
      × (Delivers exact_bytes cell c ct
          (fill_send_frame_table port (x1 ∷ x2 ∷ x3 ∷ x4 ∷ x5 ∷ x6 ∷ x7 ∷ [])
            (b0 ∷ b1 ∷ b2 ∷ b3 ∷ b4 ∷ b5 ∷ []) g ct)
          send_frame_table_view)
      × (Delivers exact_bytes cell c ct
          (fill_dmac_classifier_table (b0 ∷ b1 ∷ b2 ∷ b3 ∷ b4 ∷ b5 ∷ []) port g ct)
          dmac_classifier_table_view)
      × (Delivers exact_bytes cell c ct (set_default_action_dmac_classifier g ct)
          default_dmac_classifier_view)
      × (Delivers exact_bytes cell c ct (set_default_action_send_frame g ct)
          default_send_frame_view)
      × (Delivers exact_bytes cell c ct (set_default_action_dmac g ct) default_dmac_view)
      × (Delivers exact_bytes cell c ct (set_default_action_smac g ct) default_smac_view)
      × (Delivers exact_bytes cell c ct
          (fill_dmac_table port (b0 ∷ b1 ∷ b2 ∷ b3 ∷ b4 ∷ b5 ∷ []) g ct) dmac_table_view)
      × (Delivers exact_bytes cell c ct
          (fill_smac_table port (b0 ∷ b1 ∷ b2 ∷ b3 ∷ b4 ∷ b5 ∷ []) g ct) smac_table_view)

  -- For every address, port and group and whatever the stack, the heap and the switch's memory
  -- held: with room in the output queue, each function of mac_l2_l3_controller.c that fills a
  -- table or sets a default action succeeds, puts one message behind those that were queued, and
  -- the switch decodes it to the table, the match (of a port its one byte, of a route a prefix
  -- length of 16), the action and the parameters that the function names.
  pub mac_l2_l3_controller-Delivers : {ct : Controller} → HasRoom ct → TablesDeliver ct
  mac_l2_l3_controller-Delivers h = (
    fill_ipv4_lpm_table-Delivers h,
    fill_ipv4_forward_table-Delivers h,
    fill_send_frame_table-Delivers h,
    fill_dmac_classifier_table-Delivers h,
    set_default_action_dmac_classifier-Delivers h,
    set_default_action_send_frame-Delivers h,
    set_default_action_dmac-Delivers h,
    set_default_action_smac-Delivers h,
    fill_dmac_table-Delivers h,
    fill_smac_table-Delivers h,
  )
