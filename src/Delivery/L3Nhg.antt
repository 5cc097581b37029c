-- ===== src/Delivery/L3Nhg.antt =====
-- The messages of mac_l3_nhg_controller.c at the switch.
use macsad.Prelude.{ℕ, ◌≡◌, refl, some, [], ◌∷◌}
use macsad.Memory.{Mem, write, write_bytes, load16, load32, put16, put32}
use macsad.Handlers.{CtrlMsg}
use macsad.Controller.{Controller, Garbage}
use macsad.View.{View}
use macsad.Delivery.{exact_bytes, lpm_bytes}
use macsad.Delivery.Views
use macsad.Delivery.Queued.{HasRoom, Delivers, received_built, Delivers-send_built}
use macsad.Apps.Build
use macsad.Apps.Build.{exact_entry, lpm_entry, le32}
use macsad.Apps.L3Nhg.{fill_nexthops_table, fill_ipv4_lpm_table}

module _ (a0 a1 a2 a3 b0 b1 b2 b3 b4 b5 d0 d1 d2 d3 d4 d5 nhgrp port : ℕ) (g : Garbage) (cell : Mem)
    (c : CtrlMsg) where
  abbrev pub nexthops_table_view : View
  nexthops_table_view =
      Views.entry "nexthops" (Views.exact "routing_metadata.nhgroup" 32 (le32 nhgrp)) "forward" (
        Views.param "dmac" 48 (b0 ∷ b1 ∷ b2 ∷ b3 ∷ b4 ∷ b5 ∷ [])
        ∷ Views.param "smac" 48 (d0 ∷ d1 ∷ d2 ∷ d3 ∷ d4 ∷ d5 ∷ [])
        ∷ Views.param "port" 16 (port ∷ 0 ∷ [])
        ∷ [])

  nexthops_table_built :
      received_built exact_bytes cell c g.heap (
        exact_entry "nexthops" "routing_metadata.nhgroup"
          (le32 nhgrp)
          32
          "forward"
          (Build.param "dmac" (b0 ∷ b1 ∷ b2 ∷ b3 ∷ b4 ∷ b5 ∷ []) 48
            ∷ Build.param "smac" (d0 ∷ d1 ∷ d2 ∷ d3 ∷ d4 ∷ d5 ∷ []) 48
            ∷ Build.param "port" (port ∷ 0 ∷ []) 16
            ∷ [])
          g.stack)
      ≡ some nexthops_table_view
  unfolding exact_entry received_built write write_bytes load16 load32 put16 put32
  nexthops_table_built = refl

  pub fill_nexthops_table-Delivers :
      {ct : Controller}
      → HasRoom ct
      → Delivers exact_bytes cell c ct
          (fill_nexthops_table nhgrp port
            (d0 ∷ d1 ∷ d2 ∷ d3 ∷ d4 ∷ d5 ∷ [])
            (b0 ∷ b1 ∷ b2 ∷ b3 ∷ b4 ∷ b5 ∷ [])
            g
            ct)
          nexthops_table_view
  unfolding fill_nexthops_table
  fill_nexthops_table-Delivers h =
      Delivers-send_built exact_bytes g cell c _ _ nexthops_table_built h

  abbrev pub ipv4_lpm_table_view : View
  ipv4_lpm_table_view =
      Views.entry "ipv4_lpm" (Views.lpm "ipv4.dstAddr" 16 (a0 ∷ a1 ∷ a2 ∷ a3 ∷ [])) "set_nhop"
        (Views.param "nhgroup" 32 (le32 nhgrp) ∷ [])

  ipv4_lpm_table_built :
      received_built lpm_bytes cell c g.heap (
        lpm_entry "ipv4_lpm" "ipv4.dstAddr"
          (a0 ∷ a1 ∷ a2 ∷ a3 ∷ [])
          16
          "set_nhop"
          (Build.param "nhgroup" (le32 nhgrp) 32 ∷ [])
          g.stack)
      ≡ some ipv4_lpm_table_view
  unfolding lpm_entry received_built write write_bytes load16 load32 put16 put32
  ipv4_lpm_table_built = refl

  pub fill_ipv4_lpm_table-Delivers :
      {ct : Controller}
      → HasRoom ct
      → Delivers lpm_bytes cell c ct
          (fill_ipv4_lpm_table (a0 ∷ a1 ∷ a2 ∷ a3 ∷ []) nhgrp g ct)
          ipv4_lpm_table_view
  unfolding fill_ipv4_lpm_table
  fill_ipv4_lpm_table-Delivers h = Delivers-send_built lpm_bytes g cell c _ _ ipv4_lpm_table_built h

  abbrev pub TablesDeliver : Controller → Type 0
  TablesDeliver ct =
      (Delivers exact_bytes cell c ct
        (fill_nexthops_table nhgrp port (d0 ∷ d1 ∷ d2 ∷ d3 ∷ d4 ∷ d5 ∷ [])
          (b0 ∷ b1 ∷ b2 ∷ b3 ∷ b4 ∷ b5 ∷ []) g ct)
        nexthops_table_view)
      × (Delivers lpm_bytes cell c ct (fill_ipv4_lpm_table (a0 ∷ a1 ∷ a2 ∷ a3 ∷ []) nhgrp g ct)
          ipv4_lpm_table_view)

  -- For every address, port and group and whatever the stack, the heap and the switch's memory
  -- held: with room in the output queue, each function of mac_l3_nhg_controller.c that fills a
  -- table or sets a default action succeeds, puts one message behind those that were queued, and
  -- the switch decodes it to the table, the match (of a route with a prefix length of 16), the
  -- action and the parameters that the function names.
  pub mac_l3_nhg_controller-Delivers : {ct : Controller} → HasRoom ct → TablesDeliver ct
  mac_l3_nhg_controller-Delivers h =
      (fill_nexthops_table-Delivers h, fill_ipv4_lpm_table-Delivers h)
