-- ===== src/Delivery.antt =====
-- From the controller to the switch: a message that a controller function queues, as the switch
-- decodes it. The sockets carry the first bytes of the buffer, as many as its header says
-- (Sockets/Transfer.antt); the rest of the memory cell that they reach is left as it was.
pub mod Queued
pub mod Views
pub mod L2
pub mod L2L3
pub mod L3
pub mod L3Nhg
pub mod NatDw
pub mod NatUp
use macsad.Prelude.{ℕ, ◌/◌, ◌==◌, if◌then◌else◌, Option, none, some}
use macsad.Memory.{Mem}
use macsad.Memory.Copy.{copy}
use macsad.Messages.Layout.{p4_fmt_lpm, p4t_add_table_entry}
use macsad.Handlers.{CtrlMsg, handle_p4_msg}
use macsad.Controller.{MsgBuf}
use macsad.Sockets.Transfer.{msg_length}
use macsad.View.{View, view}

-- What the callback is given, as values. `key_bytes` tells how many bytes of a match's bitmap to
-- read from the length in it, and `matches` how many matches.
unfoldable pub called_back : (ℕ → ℕ) → Option CtrlMsg → Mem → Option View
unfolding view
called_back key_bytes none m = none
called_back key_bytes (some c) m =
    some (view key_bytes (if c.type == p4t_add_table_entry then c.num_field_matches else 0) m c)

-- The switch's side: the message reaches a cell that held `cell`, and is handled there; `c` is what
-- the `struct p4_ctrl_msg` on the stack held.
unfoldable pub received : (ℕ → ℕ) → Mem → CtrlMsg → MsgBuf → Option View
unfolding called_back handle_p4_msg copy msg_length
received key_bytes cell c msg =
    elim (handle_p4_msg 0 2048 c (copy cell 0 msg.data_bytes 0 (msg_length msg.data_bytes))) [
      | none ↦ none
      | some ((_, called), m) ↦ called_back key_bytes called m
    ]

-- The key of an exact match fills whole bytes; the length of an lpm match is that of the prefix, of
-- a key of four bytes.
abbrev pub exact_bytes : ℕ → ℕ
exact_bytes bits = bits / 8

abbrev pub lpm_bytes : ℕ → ℕ
lpm_bytes prefix_length = 4
