-- ===== src/Apps/L3.antt =====
-- mac_l3_controller.c: the controller of the router.
use macsad.Prelude.{ℕ, ◌∷◌, [], List, Option, some, take}
use macsad.Memory.{Mem, Ptr}
use macsad.Controller.{Fill, Garbage, Controller, send_built, send_all}
use macsad.Apps.Build.{param, exact_entry}

unfoldable pub fill_ipv4_fib_lpm_table : List ℕ → ℕ → List ℕ → Fill
fill_ipv4_fib_lpm_table ip port mac = send_built (
    exact_entry "ipv4_fib_lpm" "ipv4.dstAddr" (take 4 ip) 32 "fib_hit_nexthop"
      (param "dmac" (take 6 mac) 48 ∷ param "port" (port ∷ 0 ∷ []) 16 ∷ []))

unfoldable pub fill_sendout_table : ℕ → List ℕ → Fill
fill_sendout_table port smac = send_built (
    exact_entry "sendout" "standard_metadata.egress_port" (port ∷ 0 ∷ []) 16 "rewrite_src_mac"
      (param "smac" (take 6 smac) 48 ∷ []))

-- No digest is known.
unfoldable pub dhf : Ptr → Mem → (ℕ → Garbage) → Controller → Option Controller
dhf b m g ct = some ct

abbrev smac : List ℕ
smac = 0xd0 ∷ 0x69 ∷ 0x0f ∷ 0xa8 ∷ 0x39 ∷ 0x90 ∷ []

-- The entries of the file, in order: the address, the MAC address and the port of each.
unfoldable pub entry_fills : List (List ℕ × List ℕ × ℕ) → List Fill
entry_fills [] = []
entry_fills ((ip, mac, port) ∷ entries) =
    fill_ipv4_fib_lpm_table ip port mac ∷ fill_sendout_table port smac ∷ entry_fills entries

unfoldable pub init : List (List ℕ × List ℕ × ℕ) → (ℕ → Garbage) → Controller → Option Controller
unfolding entry_fills send_all
init entries = send_all (entry_fills entries)
