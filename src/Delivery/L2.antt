-- ===== src/Delivery/L2.antt =====
-- The messages of mac_controller.c at the switch.
use macsad.Prelude.{ℕ, ◌≡◌, refl, some, [], ◌∷◌}
use macsad.Memory.{Mem, write, write_bytes, load16, load32, put16, put32}
use macsad.Handlers.{CtrlMsg}
use macsad.Controller.{Controller, Garbage}
use macsad.View.{View}
use macsad.Delivery.{exact_bytes}
use macsad.Delivery.Views
use macsad.Delivery.Queued.{HasRoom, Delivers, received_built, Delivers-send_built}
use macsad.Apps.Build
use macsad.Apps.Build.{default_action, exact_entry, le32}
use macsad.Apps.L2.{
  fill_dmac_table, fill_smac_table, set_default_action_smac, set_default_action_dmac,
}

module _ (b0 b1 b2 b3 b4 b5 port : ℕ) (g : Garbage) (cell : Mem) (c : CtrlMsg) where
  abbrev pub dmac_table_view : View
  dmac_table_view =
      Views.entry "dmac" (Views.exact "ethernet.dstAddr" 48 (b0 ∷ b1 ∷ b2 ∷ b3 ∷ b4 ∷ b5 ∷ []))
        "forward" (Views.param "port" 8 (port ∷ []) ∷ [])

  dmac_table_built :
      received_built exact_bytes cell c g.heap (
        exact_entry "dmac" "ethernet.dstAddr"
          (b0 ∷ b1 ∷ b2 ∷ b3 ∷ b4 ∷ b5 ∷ [])
          48
          "forward"
          (Build.param "port" (port ∷ []) 8 ∷ [])
          g.stack)
      ≡ some dmac_table_view
  unfolding exact_entry received_built write write_bytes load16 load32 put16 put32
  dmac_table_built = refl

  pub fill_dmac_table-Delivers :
      {ct : Controller}
      → HasRoom ct
      → Delivers exact_bytes cell c ct
          (fill_dmac_table port (b0 ∷ b1 ∷ b2 ∷ b3 ∷ b4 ∷ b5 ∷ []) g ct)
          dmac_table_view
  unfolding fill_dmac_table
  fill_dmac_table-Delivers h = Delivers-send_built exact_bytes g cell c _ _ dmac_table_built h

  abbrev pub smac_table_view : View
  smac_table_view =
      Views.entry "smac" (Views.exact "ethernet.srcAddr" 48 (b0 ∷ b1 ∷ b2 ∷ b3 ∷ b4 ∷ b5 ∷ []))
        "_nop" ([])

  smac_table_built :
      received_built exact_bytes cell c g.heap (
        exact_entry "smac" "ethernet.srcAddr"
          (b0 ∷ b1 ∷ b2 ∷ b3 ∷ b4 ∷ b5 ∷ [])
          48
          "_nop"
          ([])
          g.stack)
      ≡ some smac_table_view
  unfolding exact_entry received_built write write_bytes load16 load32 put16 put32
  smac_table_built = refl

  pub fill_smac_table-Delivers :
      {ct : Controller}
      → HasRoom ct
      → Delivers exact_bytes cell c ct
          (fill_smac_table port (b0 ∷ b1 ∷ b2 ∷ b3 ∷ b4 ∷ b5 ∷ []) g ct)
          smac_table_view
  unfolding fill_smac_table
  fill_smac_table-Delivers h = Delivers-send_built exact_bytes g cell c _ _ smac_table_built h

  abbrev pub default_smac_view : View
  default_smac_view = Views.default "smac" "mac_learn" ([])

  default_smac_built :
      received_built exact_bytes cell c g.heap (default_action "smac" "mac_learn" ([]) g.stack)
      ≡ some default_smac_view
  unfolding default_action received_built write write_bytes load16 load32 put16 put32
  default_smac_built = refl

  pub set_default_action_smac-Delivers :
      {ct : Controller}
      → HasRoom ct
      → Delivers exact_bytes cell c ct (set_default_action_smac g ct) default_smac_view
  unfolding set_default_action_smac
  set_default_action_smac-Delivers h =
      Delivers-send_built exact_bytes g cell c _ _ default_smac_built h

  abbrev pub default_dmac_view : View
  default_dmac_view = Views.default "dmac" "bcast" ([])

  default_dmac_built :
      received_built exact_bytes cell c g.heap (default_action "dmac" "bcast" ([]) g.stack)
      ≡ some default_dmac_view
  unfolding default_action received_built write write_bytes load16 load32 put16 put32
  default_dmac_built = refl

  pub set_default_action_dmac-Delivers :
      {ct : Controller}
      → HasRoom ct
      → Delivers exact_bytes cell c ct (set_default_action_dmac g ct) default_dmac_view
  unfolding set_default_action_dmac
  set_default_action_dmac-Delivers h =
      Delivers-send_built exact_bytes g cell c _ _ default_dmac_built h

  abbrev pub TablesDeliver : Controller → Type 0
  TablesDeliver ct =
      (Delivers exact_bytes cell c ct (fill_dmac_table port (b0 ∷ b1 ∷ b2 ∷ b3 ∷ b4 ∷ b5 ∷ []) g ct)
        dmac_table_view)
      × (Delivers exact_bytes cell c ct
          (fill_smac_table port (b0 ∷ b1 ∷ b2 ∷ b3 ∷ b4 ∷ b5 ∷ []) g ct) smac_table_view)
      × (Delivers exact_bytes cell c ct (set_default_action_smac g ct) default_smac_view)
      × (Delivers exact_bytes cell c ct (set_default_action_dmac g ct) default_dmac_view)

  -- For every address, port and group and whatever the stack, the heap and the switch's memory
  -- held: with room in the output queue, each function of mac_controller.c that fills a table or
  -- sets a default action succeeds, puts one message behind those that were queued, and the switch
  -- decodes it to the table, the match with the whole address, the action and, for a destination,
  -- the port.
  pub mac_controller-Delivers : {ct : Controller} → HasRoom ct → TablesDeliver ct
  mac_controller-Delivers h = (
    fill_dmac_table-Delivers h,
    fill_smac_table-Delivers h,
    set_default_action_smac-Delivers h,
    set_default_action_dmac-Delivers h,
  )
