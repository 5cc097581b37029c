-- ===== src/Apps/NatDw.antt =====
-- mac_nat_dw.c: the controller of the address translator, from outside to inside.
use macsad.Prelude.{ℕ, ◌%◌, ◌∷◌, ◌++◌, [], List, Option, some, take}
use macsad.Memory.{Mem, Ptr}
use macsad.Controller.{Fill, Garbage, Controller, send_built, send_all}
use macsad.Apps.Build.{param, exact_entry, default_action}

unfoldable pub set_default_action_nat_up : Fill
set_default_action_nat_up = send_built (default_action "nat_up" "natTcp_learn" [])

unfoldable pub set_default_action_nat_dw : Fill
set_default_action_nat_dw = send_built (default_action "nat_dw" "_drop" [])

unfoldable pub fill_if_info : ℕ → Fill
fill_if_info is_int_if = send_built (
    exact_entry "if_info" "standard_metadata.ingress_port" (is_int_if ∷ 0 ∷ []) 16 "set_if_info"
      (param "is_int_if" (is_int_if ∷ 0 ∷ []) 16 ∷ []))

unfoldable pub fill_smac : List ℕ → Fill
fill_smac mac = send_built (exact_entry "smac" "ethernet.srcAddr" (take 6 mac) 48 "_nop" [])

-- `exact->bitmap[1] = (uint8_t)dstPort; exact->bitmap[0] = 0`
unfoldable pub fill_nat_dw : ℕ → List ℕ → Fill
fill_nat_dw dst_port ip = send_built (
    exact_entry "nat_dw" "tcp.dstPort" (0 ∷ dst_port % 256 ∷ []) 16 "nat_hit_ext_to_int"
      (param "dstAddr" (take 4 ip) 32 ∷ []))

unfoldable pub fill_ipv4_lpm : List ℕ → ℕ → List ℕ → Fill
fill_ipv4_lpm dst_ip port dst_mac = send_built (
    exact_entry "ipv4_lpm" "ipv4.dstAddr" (take 4 dst_ip) 32 "set_nhop"
      (param "port" (port ∷ 0 ∷ []) 16 ∷ param "dstAddr" (take 6 dst_mac) 48 ∷ []))

unfoldable pub fill_sendout_table : ℕ → List ℕ → Fill
fill_sendout_table port src_mac = send_built (
    exact_entry "sendout" "standard_metadata.egress_port" (port ∷ 0 ∷ []) 16 "rewrite_src_mac"
      (param "srcAddr" (take 6 src_mac) 48 ∷ []))

-- No digest is known.
unfoldable pub dhf : Ptr → Mem → (ℕ → Garbage) → Controller → Option Controller
dhf b m g ct = some ct

abbrev ip_dst_dw : List ℕ
ip_dst_dw = 10 ∷ 0 ∷ 0 ∷ 10 ∷ []

-- An entry of the file: the MAC address, the IP address and what lies behind it in `ips`, the port.
unfoldable pub entry_fills : List (List ℕ × List ℕ × ℕ) → List Fill
entry_fills [] = []
entry_fills ((mac, ip, dtcp) ∷ entries) =
    fill_smac mac ∷ fill_nat_dw dtcp ip ∷ fill_ipv4_lpm ip 1 ip ∷ entry_fills entries

-- `ip_dst_dw` has four bytes and is also passed for a MAC address: `beyond` is what lies behind.
unfoldable pub init :
    List (List ℕ × List ℕ × ℕ) → List ℕ → (ℕ → Garbage) → Controller → Option Controller
unfolding entry_fills send_all
init entries beyond = send_all (
    set_default_action_nat_up
    ∷ set_default_action_nat_dw
    ∷ fill_smac (0 ∷ 0x55 ∷ 0 ∷ 0 ∷ 0 ∷ 0 ∷ [])
    ∷ fill_if_info 0
    ∷ fill_nat_dw 25 ip_dst_dw
    ∷ fill_ipv4_lpm ip_dst_dw 1 (ip_dst_dw ++ beyond)
    ∷ fill_sendout_table 1 (0xaa ∷ 0xbb ∷ 0xcc ∷ 0xaa ∷ 0xdd ∷ 0xee ∷ [])
    ∷ entry_fills entries)
