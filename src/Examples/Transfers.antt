-- ===== src/Examples/Transfers.antt =====
-- A message of twelve bytes over sockets that stop short.
use macsad.Prelude.{ℕ, some, List, [], ◌∷◌, ◌++◌, ◌≡◌, arith, get_or, refl, drop, take}
use macsad.Prelude.Int.{pos}
use macsad.Memory.{Mem, read_bytes}
use macsad.Memory.Copy.{copy}
use macsad.Sockets.{Segment, bytes, accept, read_p4_msg, read_fix, write_fix, write_p4_msg}
use macsad.Sockets.Reading.{available, ReadAll, read_fix-ReadAll}
use macsad.Sockets.Writing.{Sent, capacity, write_fix-Sent}
use macsad.Sockets.Transfer.{msg_length, read_p4_msg-write_p4_msg, read_p4_msg-header_only}

abbrev old : Mem
old a = 165

abbrev twelve : List ℕ
twelve = 1 ∷ 110 ∷ 0 ∷ 12 ∷ 0 ∷ 0 ∷ 0 ∷ 1 ∷ 9 ∷ 8 ∷ 7 ∷ 6 ∷ []

abbrev message : Mem
message a = get_or twelve a 0

-- A message that is only a header.
abbrev hello : Mem
hello a = get_or (1 ∷ 0 ∷ 0 ∷ 8 ∷ 0 ∷ 0 ∷ 0 ∷ 1 ∷ []) a 0

abbrev arriving : List Segment
arriving = bytes (take 3 twelve) ∷ bytes (drop 3 twelve ++ 77 ∷ []) ∷ []

read_p4_msg-write_p4_msg_example :
    (s' : List Segment) × (pos 12 ≡ pos (msg_length message))
    × (read_p4_msg 0 2048 old arriving
        ≡ some (pos (msg_length message), copy old 0 message 0 (msg_length message), s'))
    × (available s' ≡ 77 ∷ [])
unfolding msg_length available read_bytes write_p4_msg write_fix capacity
read_p4_msg-write_p4_msg_example =
    read_p4_msg-write_p4_msg message old 2048 (accept 5 ∷ accept 2000 ∷ []) [] arriving twelve
      (77 ∷ []) (pos 12) (omega arith) (omega arith) (omega arith) refl refl

read_p4_msg-header_only_example :
    (s' : List Segment) × (read_p4_msg 0 2048 old
        (bytes (1 ∷ 0 ∷ 0 ∷ 8 ∷ 0 ∷ []) ∷ bytes (0 ∷ 0 ∷ 1 ∷ 5 ∷ []) ∷ [])
      ≡ some (pos 0, copy old 0 hello 0 8, s'))
    × (available s' ≡ 5 ∷ [])
unfolding msg_length available read_bytes
read_p4_msg-header_only_example =
    read_p4_msg-header_only hello 2048 (omega arith) old
      (bytes (1 ∷ 0 ∷ 0 ∷ 8 ∷ 0 ∷ []) ∷ bytes (0 ∷ 0 ∷ 1 ∷ 5 ∷ []) ∷ []) (5 ∷ []) (omega arith) refl

read_fix-ReadAll_example : ReadAll 40 6 old arriving (read_fix 40 (pos 6) old arriving) (pos 6)
unfolding available
read_fix-ReadAll_example = read_fix-ReadAll 40 6 old arriving (omega arith)

write_fix-Sent_example :
    Sent message 0 12 [] (write_fix message 0 12 [] (accept 5 ∷ accept 2000 ∷ [])) (pos 12)
unfolding capacity
write_fix-Sent_example = write_fix-Sent message 0 12 (accept 5 ∷ accept 2000 ∷ []) [] (omega arith)
