-- ===== src/Examples/Digests.antt =====
-- A digest in a backend of two cells, none of which is in use.
use macsad.Prelude.{ℕ, ◌==◌, if◌then◌else◌, true, none, some, List, [], ◌∷◌, arith, refl}
use macsad.Memory.{Mem, codes}
use macsad.Memory.Copy.{copy}
use macsad.Sockets.Transfer.{msg_length}
use macsad.Fifo.{Fifo, fifo_init}
use macsad.Fifo.Refine.{IsValid, fifo_init_lem}
use macsad.Controller.{MsgBuf, Controller, Garbage, send_all}
use macsad.Apps.L2.{fill_dmac_table, fill_smac_table}
use macsad.Apps.L2.Learn.{dhf}
use macsad.Backend.{Backend, generate_digest}
use macsad.Backend.Learned.{Reports, generate_digest-dhf}

abbrev junk : Mem
junk a = 165

abbrev dirty {ℓ} : {A : Type ℓ} → A → Fifo A
dirty x = record { queue = λ i. x; head = 165; size = 165; tail = 165 }

abbrev two_cells : Backend
unfolding fifo_init
two_cells = record {
  cells = λ x. record {
    data_bytes = junk;
    size = 2048;
    next = if x == 1 then some 0 else none;
    prev = none;
  };
  unused_head = some 1;
  used_head = none;
  input_queue = (fifo_init true true true (dirty 165)).1;
  output_queue = (fifo_init true true true (dirty 165)).1;
}

abbrev ct : Controller
unfolding fifo_init
ct =
    let buf : MsgBuf = record { data_bytes = junk; length = 165 } in
    record {
      input_queue = (fifo_init true true true (dirty buf)).1;
      output_queue = (fifo_init true true true (dirty buf)).1;
      port = 11111;
    }

abbrev garbage : ℕ → Garbage
garbage i = record { stack = junk; heap = junk }

abbrev mac : List ℕ
mac = 160 ∷ 54 ∷ 159 ∷ 1 ∷ 2 ∷ 3 ∷ []

two_cells-IsValid : IsValid two_cells.output_queue
unfolding two_cells fifo_init
two_cells-IsValid = (fifo_init_lem true true true (dirty 165)).1

generate_digest-dhf_example :
    Reports 1 two_cells
      (generate_digest true (codes "mac_learn_digest") ((mac, 48) ∷ (7 ∷ 0 ∷ [], 9) ∷ []) two_cells)
      (λ data_bytes. dhf 0 (copy junk 0 data_bytes 0 (msg_length data_bytes)) garbage ct)
      (send_all (fill_dmac_table 7 mac ∷ fill_smac_table 7 mac ∷ []) garbage ct)
unfolding two_cells fifo_init
generate_digest-dhf_example =
    generate_digest-dhf 160 54 159 1 2 3 7 0 two_cells 1 refl refl two_cells-IsValid (omega arith)
      junk garbage ct
