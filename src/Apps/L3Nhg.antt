-- ===== src/Apps/L3Nhg.antt =====
-- mac_l3_nhg_controller.c: the controller of the router with next hop groups.
use macsad.Prelude.{ℕ, ◌∷◌, ◌++◌, [], List, Option, some, take, map}
use macsad.Memory.{Mem, Ptr}
use macsad.Controller.{Fill, Garbage, Controller, send_built, send_all}
use macsad.Apps.Build.{param, exact_entry, lpm_entry, le32}

unfoldable pub fill_ipv4_lpm_table : List ℕ → ℕ → Fill
fill_ipv4_lpm_table ip nhgrp = send_built (
    lpm_entry "ipv4_lpm" "ipv4.dstAddr" (take 4 ip) 16 "set_nhop"
      (param "nhgroup" (le32 nhgrp) 32 ∷ []))

unfoldable pub fill_nexthops_table : ℕ → ℕ → List ℕ → List ℕ → Fill
fill_nexthops_table nhgroup port smac dmac = send_built (
    exact_entry "nexthops" "routing_metadata.nhgroup" (le32 nhgroup) 32 "forward" (
      param "dmac" (take 6 dmac) 48
      ∷ param "smac" (take 6 smac) 48
      ∷ param "port" (port ∷ 0 ∷ []) 16
      ∷ []))

-- No digest is known.
unfoldable pub dhf : Ptr → Mem → (ℕ → Garbage) → Controller → Option Controller
dhf b m g ct = some ct

abbrev mac : List ℕ
mac = 0xd2 ∷ 0x69 ∷ 0x0f ∷ 0xa8 ∷ 0x39 ∷ 0x9c ∷ []

abbrev smac : List ℕ
smac = 0xd2 ∷ 0x69 ∷ 0x0f ∷ 0x00 ∷ 0x00 ∷ 0x9c ∷ []

unfoldable pub init_simple : (ℕ → Garbage) → Controller → Option Controller
unfolding send_all
init_simple =
    send_all
      (fill_ipv4_lpm_table (10 ∷ 0 ∷ 99 ∷ 99 ∷ []) 0 ∷ fill_nexthops_table 0 15 smac mac ∷ [])

-- The prefixes of the file, `ip_array`, in order.
unfoldable pub init_complex : List (List ℕ) → (ℕ → Garbage) → Controller → Option Controller
unfolding send_all
init_complex prefixes =
    send_all
      (map (λ ip. fill_ipv4_lpm_table ip 0) prefixes ++ fill_nexthops_table 0 1 smac mac ∷ [])
