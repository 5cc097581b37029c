-- ===== src/Controller.antt =====
-- controller.c: the controller's queues, and how a finished message enters the output queue.
-- The threads, the listening socket and the callbacks stay outside.
use macsad.Prelude.{◌+◌, ℕ, Bool, Option, none, some, List, [], ◌∷◌, ◌||◌, ltb, ◌==◌, if◌then◌else◌}
use macsad.Memory.{Mem, Cmd}
use macsad.Memory.Copy.{copy}
use macsad.Fifo.{Fifo, fifo_init, fifo_add_msg}

-- `msg_buf_t`: the bytes are addressed from `data`.
pub record MsgBuf : Type 0 where
  pub data_bytes : Mem
  pub length : ℕ

-- `controller_t` without the thread pool, the descriptor and the two callbacks
pub record Controller : Type 0 where
  pub input_queue : Fifo MsgBuf
  pub output_queue : Fifo MsgBuf
  pub port : ℕ

abbrev pub msg_buf_size : ℕ
msg_buf_size = 2048

-- The flags tell whether `malloc` returned memory, and what the initialisations of the locks gave;
-- their failure is not looked at here. `ct` is what the new memory holds.
unfoldable pub create_controller_with_init :
    ℕ → ℕ → Bool → (Bool × Bool × Bool) → (Bool × Bool × Bool) → Controller → Option Controller
create_controller_with_init port number_of_threads allocated i o ct =
    if port == 0 || number_of_threads == 0
    then none
    else if allocated
    then some (record {
      input_queue = (fifo_init i.0 i.1 i.2 ct.input_queue).1;
      output_queue = (fifo_init o.0 o.1 o.2 ct.output_queue).1;
      port = port;
    })
    else none

-- A message of at most 2048 bytes is copied to a new buffer, which enters the output queue. The
-- result is 0 in every case. `fresh` is what the memory from `malloc` holds.
unfoldable pub send_p4_msg : Controller → Mem → ℕ → Mem → Controller
send_p4_msg ct buffer length fresh = if ltb msg_buf_size length then ct else record ct {
  output_queue =
      fifo_add_msg ct.output_queue
        (record { data_bytes = copy fresh 0 buffer 0 length; length = length });
}

-- What a call that builds a message finds in the memory that it takes: the 2048 bytes of its stack
-- buffer, and the memory for the copy.
pub record Garbage : Type 0 where
  pub stack : Mem
  pub heap : Mem

-- A function that builds a message and sends it; `none` is a fault.
abbrev pub Fill : Type 0
Fill = Garbage → Controller → Option Controller

-- The commands on the stack buffer, then `send_p4_msg(c, buffer, 2048)`.
unfoldable pub send_built : Cmd (Unit {0}) → Fill
send_built build g ct = elim (build g.stack) [
  | none ↦ none
  | some (_, buffer) ↦ some (send_p4_msg ct buffer msg_buf_size g.heap)
]

-- Calls one after the other; the i-th finds the garbage `g i`.
unfoldable pub send_all : List Fill → (ℕ → Garbage) → Controller → Option Controller
send_all [] g ct = some ct
send_all (fill ∷ fills) g ct = elim (fill (g 0) ct) [
  | none ↦ none
  | some ct' ↦ send_all fills (λ i. g (i + 1)) ct'
]
