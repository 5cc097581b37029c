-- ===== src/Apps/L2.antt =====
-- mac_controller.c: the controller of the layer 2 switch.
pub mod Learn
use macsad.Prelude.{ℕ, ◌∷◌, [], List, take}
use macsad.Controller.{Fill, send_built}
use macsad.Apps.Build.{param, exact_entry, default_action}

unfoldable pub fill_smac_table : ℕ → List ℕ → Fill
fill_smac_table port mac =
    send_built (exact_entry "smac" "ethernet.srcAddr" (take 6 mac) 48 "_nop" [])

unfoldable pub fill_dmac_table : ℕ → List ℕ → Fill
fill_dmac_table port mac = send_built (
    exact_entry "dmac" "ethernet.dstAddr" (take 6 mac) 48 "forward"
      (param "port" (port ∷ []) 8 ∷ []))

unfoldable pub set_default_action_smac : Fill
set_default_action_smac = send_built (default_action "smac" "mac_learn" [])

unfoldable pub set_default_action_dmac : Fill
set_default_action_dmac = send_built (default_action "dmac" "bcast" [])
