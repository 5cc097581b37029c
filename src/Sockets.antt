-- ===== src/Sockets.antt =====
-- sock_helpers.c: whole messages over a stream socket, whose `read` and `write` may stop short.
-- The other end is data: the segments that arrive, and how much each call of `write` takes.
pub mod Reading
pub mod Writing
pub mod Transfer
use macsad.Prelude.{
  ℕ, zero, suc, ◌+◌, ◌-◌, Bool, true, false, Option, none, some, List, [], ◌∷◌, ◌++◌, min, ltb,
  if◌then◌else◌, length, take, drop,
}
use macsad.Prelude.Int.{ℤ, pos, negsuc, pos_part, sub_ℕ}
use macsad.Memory.{Mem, Ptr, load16, write_bytes, read_bytes}
use macsad.Memory.ByteOrder.{ntohs}
use macsad.Messages.Layout

-- The bytes that arrive, in the pieces in which they arrive; a broken connection. Behind the last
-- piece the other end has closed.
pub data Segment : Type 0 where
  bytes : List ℕ → Segment
  broken : Segment

pub data Recv : Type 0 where
  eof : Recv
  failed : Recv
  got : List ℕ → List Segment → Recv

-- `read(sock, _, n)` for 0 < n: what is at hand, at most n bytes.
unfoldable pub recv : ℕ → List Segment → Recv
recv n [] = eof
recv n (broken ∷ s) = failed
recv n (bytes [] ∷ s) = recv n s
recv n (bytes (b ∷ bs) ∷ s) = got (take n (b ∷ bs)) (bytes (drop n (b ∷ bs)) ∷ s)

-- `x <= 0`
abbrev pub is_nonpositive : ℤ → Bool
is_nonpositive (pos zero) = true
is_nonpositive (pos (suc n)) = false
is_nonpositive (negsuc n) = true

-- The loop of `read_fix` with `rbytes` as it stands, on fuel; `none` would be fuel that ran out.
unfoldable pub read_loop : ℕ → Ptr → ℕ → ℕ → Mem → List Segment → Option (ℤ × Mem × List Segment)
unfolding write_bytes recv
read_loop zero buffer nbytes rbytes m s = none
read_loop (suc fuel) buffer nbytes rbytes m s = elim (ltb rbytes nbytes) [
  | false ↦ some (pos rbytes, m, s)
  | true ↦ elim (recv (nbytes - rbytes) s) [
    | eof ↦ some (pos 0, m, s)
    | failed ↦ some (negsuc 0, m, s)
    | got bs s' ↦
        read_loop fuel buffer nbytes (rbytes + length bs) (write_bytes m (buffer + rbytes) bs) s'
  ]
]

-- A negative `nbytes` is not above `rbytes`, so that nothing is read. Every round reads a byte.
unfoldable pub read_fix : Ptr → ℤ → Mem → List Segment → Option (ℤ × Mem × List Segment)
unfolding read_loop
read_fix buffer nbytes m s = read_loop (suc (pos_part nbytes)) buffer (pos_part nbytes) 0 m s

-- The part of `read_p4_msg` behind the header.
unfoldable pub read_body : Ptr → ℕ → Mem → List Segment → Option (ℤ × Mem × List Segment)
unfolding load16 ntohs
read_body buffer length m s =
    let msglen = ntohs (load16 m (Layout.Header.len buffer)) in
    if ltb length msglen
    then some (negsuc 99, m, s)
    else elim (read_fix (buffer + Layout.Header.size) (sub_ℕ msglen Layout.Header.size) m s) [
      | none ↦ none
      | some (rval, m', s') ↦
          if is_nonpositive rval then some (rval, m', s') else some (pos msglen, m', s')
    ]

unfoldable pub read_p4_msg : Ptr → ℕ → Mem → List Segment → Option (ℤ × Mem × List Segment)
read_p4_msg buffer length m s =
    if ltb length Layout.Header.size
    then some (negsuc 0, m, s)
    else elim (read_fix buffer (pos Layout.Header.size) m s) [
      | none ↦ none
      | some (rval, m', s') ↦
          if is_nonpositive rval then some (rval, m', s') else read_body buffer length m' s'
    ]

-- How many bytes the next call of `write` takes at most, or that it fails.
pub data Accept : Type 0 where
  accept : ℕ → Accept
  refuse : Accept

-- The loop of `write_fix` with `wbytes` as it stands and the bytes sent so far; the call that no
-- `Accept` answers blocks for ever, `none`.
unfoldable pub write_loop :
    Mem → Ptr → ℕ → ℕ → List ℕ → List Accept → Option (ℤ × List ℕ × List Accept)
unfolding read_bytes
write_loop m buffer nbytes wbytes sent [] =
    if ltb wbytes nbytes then none else some (pos wbytes, sent, [])
write_loop m buffer nbytes wbytes sent (refuse ∷ takes) =
    if ltb wbytes nbytes
    then some (negsuc 0, sent, takes)
    else some (pos wbytes, sent, refuse ∷ takes)
write_loop m buffer nbytes wbytes sent (accept k ∷ takes) = elim (ltb wbytes nbytes) [
  | false ↦ some (pos wbytes, sent, accept k ∷ takes)
  | true ↦
      let wval = min k (nbytes - wbytes) in
      write_loop m buffer nbytes (wbytes + wval) (sent ++ read_bytes m (buffer + wbytes) wval) takes
]

unfoldable pub write_fix : Mem → Ptr → ℕ → List ℕ → List Accept → Option (ℤ × List ℕ × List Accept)
unfolding write_loop
write_fix m buffer nbytes sent takes = write_loop m buffer nbytes 0 sent takes

unfoldable pub write_p4_msg :
    Mem → Ptr → ℕ → List ℕ → List Accept → Option (ℤ × List ℕ × List Accept)
unfolding load16 ntohs
write_p4_msg m buffer length sent takes =
    if ltb length Layout.Header.size
    then some (negsuc 0, sent, takes)
    else let msglen = ntohs (load16 m (Layout.Header.len buffer)) in
      if ltb length msglen
      then some (negsuc 0, sent, takes)
      else write_fix m buffer msglen sent takes
