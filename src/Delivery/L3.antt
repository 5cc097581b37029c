-- ===== src/Delivery/L3.antt =====
-- The messages of mac_l3_controller.c at the switch.
use macsad.Prelude.{ℕ, ◌≡◌, refl, some, [], ◌∷◌}
use macsad.Memory.{Mem, write, write_bytes, load16, load32, put16, put32}
use macsad.Handlers.{CtrlMsg}
use macsad.Controller.{Controller, Garbage}
use macsad.View.{View}
use macsad.Delivery.{exact_bytes}
use macsad.Delivery.Views
use macsad.Delivery.Queued.{HasRoom, Delivers, received_built, Delivers-send_built}
use macsad.Apps.Build
use macsad.Apps.Build.{exact_entry, le32}
use macsad.Apps.L3.{fill_ipv4_fib_lpm_table, fill_sendout_table}

module _ (a0 a1 a2 a3 b0 b1 b2 b3 b4 b5 port : ℕ) (g : Garbage) (cell : Mem) (c : CtrlMsg) where
  abbrev pub ipv4_fib_lpm_table_view : View
  ipv4_fib_lpm_table_view =
      Views.entry "ipv4_fib_lpm" (Views.exact "ipv4.dstAddr" 32 (a0 ∷ a1 ∷ a2 ∷ a3 ∷ []))
        "fib_hit_nexthop"
        (Views.param "dmac" 48 (b0 ∷ b1 ∷ b2 ∷ b3 ∷ b4 ∷ b5 ∷ [])
          ∷ Views.param "port" 16 (port ∷ 0 ∷ [])
          ∷ [])

  ipv4_fib_lpm_table_built :
      received_built exact_bytes cell c g.heap (
        exact_entry "ipv4_fib_lpm" "ipv4.dstAddr"
          (a0 ∷ a1 ∷ a2 ∷ a3 ∷ [])
          32
          "fib_hit_nexthop"
          (Build.param "dmac" (b0 ∷ b1 ∷ b2 ∷ b3 ∷ b4 ∷ b5 ∷ []) 48
            ∷ Build.param "port" (port ∷ 0 ∷ []) 16
            ∷ [])
          g.stack)
      ≡ some ipv4_fib_lpm_table_view
  unfolding exact_entry received_built write write_bytes load16 load32 put16 put32
  ipv4_fib_lpm_table_built = refl

  pub fill_ipv4_fib_lpm_table-Delivers :
      {ct : Controller}
      → HasRoom ct
      → Delivers exact_bytes cell c ct
          (fill_ipv4_fib_lpm_table
            (a0 ∷ a1 ∷ a2 ∷ a3 ∷ [])
            port
            (b0 ∷ b1 ∷ b2 ∷ b3 ∷ b4 ∷ b5 ∷ [])
            g
            ct)
          ipv4_fib_lpm_table_view
  unfolding fill_ipv4_fib_lpm_table
  fill_ipv4_fib_lpm_table-Delivers h =
      Delivers-send_built exact_bytes g cell c _ _ ipv4_fib_lpm_table_built h

  abbrev pub sendout_table_view : View
  sendout_table_view =
      Views.entry "sendout" (Views.exact "standard_metadata.egress_port" 16 (port ∷ 0 ∷ []))
        "rewrite_src_mac" (Views.param "smac" 48 (b0 ∷ b1 ∷ b2 ∷ b3 ∷ b4 ∷ b5 ∷ []) ∷ [])

  sendout_table_built :
      received_built exact_bytes cell c g.heap (
        exact_entry "sendout" "standard_metadata.egress_port"
          (port ∷ 0 ∷ [])
          16
          "rewrite_src_mac"
          (Build.param "smac" (b0 ∷ b1 ∷ b2 ∷ b3 ∷ b4 ∷ b5 ∷ []) 48 ∷ [])
          g.stack)
      ≡ some sendout_table_view
  unfolding exact_entry received_built write write_bytes load16 load32 put16 put32
  sendout_table_built = refl

  pub fill_sendout_table-Delivers :
      {ct : Controller}
      → HasRoom ct
      → Delivers exact_bytes cell c ct
          (fill_sendout_table port (b0 ∷ b1 ∷ b2 ∷ b3 ∷ b4 ∷ b5 ∷ []) g ct)
          sendout_table_view
  unfolding fill_sendout_table
  fill_sendout_table-Delivers h = Delivers-send_built exact_bytes g cell c _ _ sendout_table_built h

  abbrev pub TablesDeliver : Controller → Type 0
  TablesDeliver ct =
      (Delivers exact_bytes cell c ct
        (fill_ipv4_fib_lpm_table (a0 ∷ a1 ∷ a2 ∷ a3 ∷ []) port (b0 ∷ b1 ∷ b2 ∷ b3 ∷ b4 ∷ b5 ∷ []) g
          ct)
        ipv4_fib_lpm_table_view)
      × (Delivers exact_bytes cell c ct
          (fill_sendout_table port (b0 ∷ b1 ∷ b2 ∷ b3 ∷ b4 ∷ b5 ∷ []) g ct) sendout_table_view)

  -- For every address, port and group and whatever the stack, the heap and the switch's memory
  -- held: with room in the output queue, each function of mac_l3_controller.c that fills a table
  -- or sets a default action succeeds, puts one message behind those that were queued, and the
  -- switch decodes it to the table, the match, the action and the parameters that the function
  -- names.
  pub mac_l3_controller-Delivers : {ct : Controller} → HasRoom ct → TablesDeliver ct
  mac_l3_controller-Delivers h = (fill_ipv4_fib_lpm_table-Delivers h, fill_sendout_table-Delivers h)
