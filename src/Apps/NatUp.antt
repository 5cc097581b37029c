-- ===== src/Apps/NatUp.antt =====
-- mac_nat_up.c: the controller of the address translator, from inside to outside.
use macsad.Prelude.{ℕ, ◌∷◌, [], List, Option, some, take}
use macsad.Memory.{Mem, Ptr}
use macsad.Controller.{Fill, Garbage, Controller, send_built, send_all}
use macsad.Apps.Build.{param, exact_entry, default_action}

unfoldable pub set_default_action_ipv4_lpm : Fill
set_default_action_ipv4_lpm = send_built (default_action "ipv4_lpm" "_drop" [])

unfoldable pub set_default_action_nat_up : Fill
set_default_action_nat_up = send_built (default_action "nat_up" "natTcp_learn" [])

unfoldable pub set_default_action_nat_dw : Fill
set_default_action_nat_dw = send_built (default_action "nat_dw" "_drop" [])

unfoldable pub fill_if_info : ℕ → Fill
fill_if_info is_int_if = send_built (
    exact_entry "if_info" "standard_metadata.ingress_port" (0 ∷ 0 ∷ []) 16 "set_if_info"
      (param "is_int_if" (is_int_if ∷ 0 ∷ []) 16 ∷ []))

unfoldable pub fill_smac : List ℕ → Fill
fill_smac mac = send_built (exact_entry "smac" "ethernet.srcAddr" (take 6 mac) 48 "_nop" [])

unfoldable pub fill_nat_up : List ℕ → List ℕ → Fill
fill_nat_up ip ipn = send_built (
    exact_entry "nat_up" "ipv4.srcAddr" (take 4 ip) 32 "nat_hit_int_to_ext"
      (param "srcAddr" (take 4 ipn) 32 ∷ []))

unfoldable pub fill_ipv4_lpm : List ℕ → ℕ → List ℕ → Fill
fill_ipv4_lpm dst_ip port dst_mac = send_built (
    exact_entry "ipv4_lpm" "ipv4.dstAddr" (take 4 dst_ip) 32 "set_nhop"
      (param "port" (port ∷ 0 ∷ []) 16 ∷ param "dstAddr" (take 6 dst_mac) 48 ∷ []))

unfoldable pub fill_sendout_table : ℕ → List ℕ → Fill
fill_sendout_table port src_mac = send_built (
    exact_entry "sendout" "standard_metadata.egress_port" (port ∷ 0 ∷ []) 16 "rewrite_src_mac"
      (param "srcAddr" (take 6 src_mac) 48 ∷ []))

-- No digest is known.
unfoldable pub dhf : Ptr → Mem → (ℕ → Garbage) → Controller → Option Controller
dhf b m g ct = some ct

abbrev mac_if1 : List ℕ
mac_if1 = 0xaa ∷ 0xbb ∷ 0xcc ∷ 0xaa ∷ 0xdd ∷ 0xee ∷ []

-- An entry of the file.
pub record Entry : Type 0 where
  pub smac : List ℕ
  pub ip : List ℕ
  pub ipn : List ℕ
  pub ipd : List ℕ
  pub dmac : List ℕ
  pub port : ℕ

unfoldable pub entry_fills : List Entry → List Fill
entry_fills [] = []
entry_fills (e ∷ entries) =
    fill_smac e.smac
    ∷ fill_nat_up e.ip e.ipn
    ∷ fill_ipv4_lpm e.ipd e.port e.dmac
    ∷ fill_sendout_table e.port mac_if1
    ∷ entry_fills entries

unfoldable pub init : List Entry → (ℕ → Garbage) → Controller → Option Controller
unfolding entry_fills send_all
init entries = send_all (
    set_default_action_nat_up
    ∷ set_default_action_nat_dw
    ∷ set_default_action_ipv4_lpm
    ∷ fill_if_info 1
    ∷ entry_fills entries)
