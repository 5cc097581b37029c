-- ===== src/Examples/Controllers.antt =====
-- The controllers' messages, from a controller just created.
use macsad.Prelude.{true, arith}
use macsad.Memory.{Mem}
use macsad.Handlers.{CtrlMsg}
use macsad.Controller.{Controller, Garbage, MsgBuf}
use macsad.Fifo.{Fifo, fifo_init}
use macsad.Fifo.Refine.{fifo_init_lem}
use macsad.Delivery.Queued.{HasRoom}
use macsad.Delivery.L2
use macsad.Delivery.L2.{mac_controller-Delivers}
use macsad.Delivery.L2L3
use macsad.Delivery.L2L3.{mac_l2_l3_controller-Delivers}
use macsad.Delivery.L3
use macsad.Delivery.L3.{mac_l3_controller-Delivers}
use macsad.Delivery.L3Nhg
use macsad.Delivery.L3Nhg.{mac_l3_nhg_controller-Delivers}
use macsad.Delivery.NatDw
use macsad.Delivery.NatDw.{mac_nat_dw-Delivers}
use macsad.Delivery.NatUp
use macsad.Delivery.NatUp.{mac_nat_up-Delivers}

-- Memory that holds some byte everywhere.
abbrev junk : Mem
junk a = 165

abbrev garbage : Garbage
garbage = record { stack = junk; heap = junk }

abbrev old_msg : CtrlMsg
old_msg = record {
  type = 165;
  xid = 165;
  table_name = 165;
  action_type = 165;
  action_name = 165;
  num_action_params = 165;
  action_params = λ i. 165;
  num_field_matches = 165;
  field_matches = λ i. 165;
}

abbrev old_queue : Fifo MsgBuf
old_queue = record {
  queue = λ i. record { data_bytes = junk; length = 165 };
  head = 165;
  size = 165;
  tail = 165;
}

abbrev started : Controller
started = record {
  input_queue = (fifo_init true true true old_queue).1;
  output_queue = (fifo_init true true true old_queue).1;
  port = 11111;
}

started-HasRoom : HasRoom started
unfolding fifo_init
started-HasRoom = record { valid = (fifo_init_lem true true true old_queue).1; room = omega arith }

mac_controller-Delivers_example : L2.TablesDeliver 160 54 159 1 2 3 7 garbage junk old_msg started
mac_controller-Delivers_example =
    mac_controller-Delivers 160 54 159 1 2 3 7 garbage junk old_msg started-HasRoom

mac_l2_l3_controller-Delivers_example :
    L2L3.TablesDeliver 10 0 1 99 160 54 159 1 2 3 161 55 160 2 3 4 7 80 9 garbage junk old_msg
      started
mac_l2_l3_controller-Delivers_example =
    mac_l2_l3_controller-Delivers 10 0 1 99 160 54 159 1 2 3 161 55 160 2 3 4 7 80 9 garbage junk
      old_msg started-HasRoom

mac_l3_controller-Delivers_example :
    L3.TablesDeliver 10 0 1 99 160 54 159 1 2 3 161 garbage junk old_msg started
mac_l3_controller-Delivers_example =
    mac_l3_controller-Delivers 10 0 1 99 160 54 159 1 2 3 161 garbage junk old_msg started-HasRoom

mac_l3_nhg_controller-Delivers_example :
    L3Nhg.TablesDeliver 10 0 1 99 160 54 159 1 2 3 161 55 160 2 3 4 7 80 garbage junk old_msg
      started
mac_l3_nhg_controller-Delivers_example =
    mac_l3_nhg_controller-Delivers 10 0 1 99 160 54 159 1 2 3 161 55 160 2 3 4 7 80 garbage junk
      old_msg started-HasRoom

mac_nat_dw-Delivers_example :
    NatDw.TablesDeliver 10 0 1 99 160 54 159 1 2 3 161 55 garbage junk old_msg started
mac_nat_dw-Delivers_example =
    mac_nat_dw-Delivers 10 0 1 99 160 54 159 1 2 3 161 55 garbage junk old_msg started-HasRoom

mac_nat_up-Delivers_example :
    NatUp.TablesDeliver 10 0 1 99 160 54 159 1 2 3 161 55 160 2 3 garbage junk old_msg started
mac_nat_up-Delivers_example =
    mac_nat_up-Delivers 10 0 1 99 160 54 159 1 2 3 161 55 160 2 3 garbage junk old_msg
      started-HasRoom
