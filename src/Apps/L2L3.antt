-- ===== src/Apps/L2L3.antt =====
-- mac_l2_l3_controller.c: the controller of the switch that also routes.
pub mod Start
use macsad.Prelude.{ℕ, ◌∷◌, ◌++◌, [], List, take}
use macsad.Controller.{Fill, send_built}
use macsad.Apps.Build.{param, exact_entry, lpm_entry, default_action, le32}

unfoldable pub fill_smac_table : ℕ → List ℕ → Fill
fill_smac_table port mac =
    send_built (exact_entry "smac" "ethernet.srcAddr" (take 6 mac) 48 "_nop" [])

unfoldable pub fill_dmac_table : ℕ → List ℕ → Fill
fill_dmac_table port mac = send_built (
    exact_entry "dmac" "ethernet.dstAddr" (take 6 mac) 48 "forward"
      (param "port" (port ∷ []) 8 ∷ []))

unfoldable pub set_default_action_smac : Fill
set_default_action_smac = send_built (default_action "smac" "mac_learn" [])

unfoldable pub set_default_action_dmac : Fill
set_default_action_dmac = send_built (default_action "dmac" "broadcast" [])

unfoldable pub set_default_action_dmac_classifier : Fill
set_default_action_dmac_classifier =
    send_built (default_action "dmac_classifier" "set_fwd_mode" (param "mode" (0 ∷ []) 8 ∷ []))

unfoldable pub set_default_action_send_frame : Fill
set_default_action_send_frame = send_built (default_action "send_frame" "_nop" [])

unfoldable pub fill_ipv4_lpm_table : List ℕ → ℕ → Fill
fill_ipv4_lpm_table ip nhgrp = send_built (
    lpm_entry "ipv4_lpm" "ipv4.dstAddr" (take 4 ip) 16 "set_nhop"
      (param "nhgroup" (le32 nhgrp) 32 ∷ []))

unfoldable pub fill_ipv4_forward_table : ℕ → List ℕ → Fill
fill_ipv4_forward_table nhgroup dmac = send_built (
    exact_entry "ipv4_forward" "routing_metadata.nhgroup" (le32 nhgroup) 32 "l3forward"
      (param "dmac" (take 6 dmac) 48 ∷ []))

-- The key is copied with `memcpy(exact->bitmap, &port, 8)`: `beyond` is what lies behind the
-- one-byte variable.
unfoldable pub fill_send_frame_table : ℕ → List ℕ → List ℕ → Fill
fill_send_frame_table port beyond smac = send_built (
    exact_entry "send_frame" "standard_metadata.egress_port" (take 8 (port ∷ beyond)) 8
      "rewrite_mac" (param "smac" (take 6 smac) 48 ∷ []))

unfoldable pub fill_dmac_classifier_table : List ℕ → ℕ → Fill
fill_dmac_classifier_table dmac mode = send_built (
    exact_entry "dmac_classifier" "ethernet.dstAddr" (take 6 dmac) 48 "set_fwd_mode"
      (param "mode" (mode ∷ []) 8 ∷ []))
