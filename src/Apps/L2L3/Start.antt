-- ===== src/Apps/L2L3/Start.antt =====
-- mac_l2_l3_controller.c: digests, and what a new switch is sent.
use macsad.Prelude.{ℕ, ◌∷◌, ◌++◌, [], List, Option, none, some, ◌==◌, if◌then◌else◌}
use macsad.Memory.{Mem, Ptr, ◌>>=◌, get8, string_at, codes}
use macsad.Messages.Layout
use macsad.Messages.Layout.{p4t_digest}
use macsad.Messages.Netconv.{netconv_p4_header}
use macsad.Controller.{Fill, Garbage, Controller, send_all}
use macsad.Apps.L2.Learn.{learned_mac}
use macsad.Apps.L2L3.{
  fill_smac_table, fill_dmac_table, set_default_action_smac, set_default_action_dmac,
  set_default_action_dmac_classifier, set_default_action_send_frame, fill_ipv4_lpm_table,
  fill_ipv4_forward_table, fill_send_frame_table, fill_dmac_classifier_table,
}

unfoldable pub mac_learn_digest : Ptr → Mem → (ℕ → Garbage) → Controller → Option Controller
unfolding learned_mac send_all
mac_learn_digest b m g ct = elim (learned_mac b m) [
  | none ↦ none
  | some ((mac, port), _) ↦ send_all (fill_dmac_table port mac ∷ fill_smac_table port mac ∷ []) g ct
]

unfoldable pub dhf : Ptr → Mem → (ℕ → Garbage) → Controller → Option Controller
unfolding netconv_p4_header string_at mac_learn_digest
dhf b m g ct = elim ((netconv_p4_header b >>= λ h. get8 (Layout.Header.type h)) m) [
  | none ↦ none
  | some (type, m') ↦
      if type == p4t_digest
      then if string_at m' (Layout.Digest.field_list_name b) (codes "mac_learn_digest")
        then mac_learn_digest b m' g ct
        else some ct
      else some ct
]

abbrev defaults : List Fill
defaults =
    set_default_action_smac ∷ set_default_action_dmac ∷ set_default_action_dmac_classifier
    ∷ set_default_action_send_frame ∷ []

abbrev local_mac : ℕ → List ℕ
local_mac last = 0 ∷ 0 ∷ 0 ∷ 0 ∷ 0 ∷ last ∷ []

abbrev next_hop : ℕ → List ℕ
next_hop last = 0xd2 ∷ 0x69 ∷ 0x0f ∷ 0xa8 ∷ 0x39 ∷ last ∷ []

unfoldable pub init_simple : List ℕ → (ℕ → Garbage) → Controller → Option Controller
unfolding send_all
init_simple beyond = send_all (
    defaults
    ++ fill_dmac_classifier_table (local_mac 1) 1
      ∷ fill_send_frame_table 1 beyond (local_mac 1)
      ∷ fill_ipv4_lpm_table (10 ∷ 0 ∷ 99 ∷ 99 ∷ []) 0
      ∷ fill_ipv4_forward_table 0 (next_hop 0x9c)
      ∷ [])

-- The prefixes of the file, `ip_array` and `nhgrp_array`, in order.
abbrev prefix_fills : List (List ℕ × ℕ) → List Fill
prefix_fills [] = []
prefix_fills ((ip, nhgrp) ∷ prefixes) = fill_ipv4_lpm_table ip nhgrp ∷ prefix_fills prefixes

unfoldable pub init_complex :
    List (List ℕ × ℕ) → List ℕ → (ℕ → Garbage) → Controller → Option Controller
unfolding send_all
init_complex prefixes beyond = send_all (
    defaults
    ++ (prefix_fills prefixes
        ++ fill_ipv4_forward_table 0 (next_hop 0x01)
          ∷ fill_ipv4_forward_table 1 (next_hop 0x02)
          ∷ fill_dmac_classifier_table (local_mac 1) 1
          ∷ fill_send_frame_table 1 beyond (local_mac 1)
          ∷ fill_dmac_classifier_table (local_mac 2) 1
          ∷ fill_send_frame_table 2 beyond (local_mac 2)
          ∷ []))
