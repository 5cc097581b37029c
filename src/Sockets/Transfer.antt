-- ===== src/Sockets/Transfer.antt =====
-- A message written by `write_p4_msg` at one end is the message that `read_p4_msg` reads at the
-- other.
use macsad.Prelude.{
  ℕ, zero, suc, ◌+◌, ◌-◌, ◌≤◌, ◌<◌, ◌≡◌, refl, ap, sym, ◌∙◌, some, List, [], ◌∷◌, ◌++◌, arith, ltb,
  false, take, drop, length, take-append, drop-append, length-append,
}
use macsad.Prelude.Int.{ℤ, pos, sub_ℕ, pos_part}
use macsad.Memory.{Mem, Ptr, load16, read_bytes, write_bytes}
use macsad.Memory.ByteOrder.{ntohs}
use macsad.Memory.Copy.{copy}
use macsad.Memory.Laws.{length-read_bytes}
use macsad.Sockets.{
  Segment, Accept, is_nonpositive, read_fix, read_loop, read_body, read_p4_msg, write_p4_msg,
}
use macsad.Sockets.Reading.{available, read_fix-ReadAll, write_bytes-append}
use macsad.Sockets.Writing.{
  capacity, read_bytes-append, write_bytes-read_bytes, Sent, write_fix-Sent,
}

-- The length that a message in network order gives in its header.
unfoldable pub msg_length : Mem → ℕ
unfolding load16 ntohs
msg_length m = ntohs (load16 m 2)

take-read_bytes :
    (m : Mem) (p : Ptr) (k n : ℕ) → k ≤ n → take k (read_bytes m p n) ≡ read_bytes m p k
unfolding read_bytes
take-read_bytes m p zero n h = refl
take-read_bytes m p (suc k) zero h = absurd (omega arith)
take-read_bytes m p (suc k) (suc n) h =
    ap (λ xs. m p ∷ xs) (take-read_bytes m (p + 1) k n (omega arith))

drop-read_bytes :
    (m : Mem) (p : Ptr) (k n : ℕ) → k ≤ n → drop k (read_bytes m p n) ≡ read_bytes m (p + k) (n - k)
unfolding read_bytes
drop-read_bytes m p zero n h =
    ap (λ q. read_bytes m q n) (omega arith) ∙ ap (read_bytes m (p + 0)) (omega arith)
drop-read_bytes m p (suc k) zero h = absurd (omega arith)
drop-read_bytes m p (suc k) (suc n) h =
    drop-read_bytes m (p + 1) k n (omega arith)
    ∙ ap (λ q. read_bytes m q (n - k)) (omega arith)
    ∙ ap (read_bytes m (p + suc k)) (omega arith)

-- Reading the next k bytes of a stream that goes on with n ≥ k bytes of m from address p.
read_stretch :
    (m g : Mem) (p : Ptr) (k n : ℕ) (s : List Segment) (rest : List ℕ)
    → k ≤ n
    → available s ≡ read_bytes m p n ++ rest
    → (s' : List Segment) × (read_fix p (pos k) g s
        ≡ some (pos k, write_bytes g p (read_bytes m p k), s'))
      × (available s' ≡ read_bytes m (p + k) (n - k) ++ rest)
read_stretch m g p k n s rest le av =
    let enough : k ≤ length (read_bytes m p n) = omega (arith, length-read_bytes m p n) in
    let there : k ≤ length (available s) =
      omega (arith, ap length av, length-append (read_bytes m p n) rest) in
    let (s', e, l) = read_fix-ReadAll p k g s there in
    (
      s',
      e
          ∙ ap (λ bs. some (pos k, write_bytes g p bs, s'))
              (ap (take k) av
                ∙ take-append k (read_bytes m p n) rest enough
                ∙ take-read_bytes m p k n le),
      l
          ∙ ap (drop k) av
          ∙ drop-append k (read_bytes m p n) rest enough
          ∙ ap (λ bs. bs ++ rest) (drop-read_bytes m p k n le),
    )

is_nonpositive_suc : (n : ℕ) → 0 < n → is_nonpositive (pos n) ≡ false
is_nonpositive_suc zero h = absurd (omega arith)
is_nonpositive_suc (suc n) h = refl

-- What the header that was read says of the length.
msg_length-copy : (g m : Mem) → msg_length (write_bytes g 0 (read_bytes m 0 8)) ≡ msg_length m
unfolding msg_length copy
msg_length-copy g m = rw write_bytes-read_bytes

-- The two reads of `read_p4_msg` put the whole message in place.
both_reads :
    (g m : Mem) (n : ℕ)
    → 8 ≤ n
    → write_bytes (write_bytes g 0 (read_bytes m 0 8)) 8 (read_bytes m 8 (n - 8)) ≡ copy g 0 m 0 n
both_reads g m n h =
    ap (λ q. write_bytes (write_bytes g 0 (read_bytes m 0 8)) q (read_bytes m 8 (n - 8)))
      (sym at_eight)
    ∙ write_bytes-append g 0 (read_bytes m 0 8) (read_bytes m 8 (n - 8))
    ∙ ap (write_bytes g 0) (read_bytes-append m 0 8 (n - 8) ∙ ap (read_bytes m 0) (omega arith))
    ∙ write_bytes-read_bytes g m n
  where
    at_eight : 0 + length (read_bytes m 0 8) ≡ 8
    at_eight = omega (arith, length-read_bytes m 0 8)

read_bytes-zero : (m : Mem) (p : Ptr) (k : ℕ) → k ≡ 0 → read_bytes m p k ≡ []
unfolding read_bytes
read_bytes-zero m p k e = rw e

read_body_lem :
    (room n : ℕ) (g g' : Mem) (s s' : List Segment)
    → msg_length g ≡ n
    → n ≤ room
    → 8 < n
    → read_fix 8 (pos (n - 8)) g s ≡ some (pos (n - 8), g', s')
    → read_body 0 room g s ≡ some (pos n, g', s')
unfolding read_body msg_length
read_body_lem room n g g' s s' e fits long r =
    let fit : ltb room n ≡ false = ground arith in
    let body : sub_ℕ n 8 ≡ pos (n - 8) = ground arith in
    let more : is_nonpositive (pos (n - 8)) ≡ false = is_nonpositive_suc (n - 8) (omega arith) in
    rw (e, fit, body, r, more) (ap (λ k. some (pos k, g', s')) e)

read_fix-empty :
    (p : Ptr) (z : ℤ) (g : Mem) (s : List Segment)
    → pos_part z ≡ 0
    → read_fix p z g s ≡ some (pos 0, g, s)
unfolding read_fix read_loop
read_fix-empty p z g s e = rw e

read_body-empty :
    (room n : ℕ) (g : Mem) (s : List Segment)
    → msg_length g ≡ n
    → n ≤ room
    → n ≤ 8
    → read_body 0 room g s ≡ some (pos 0, g, s)
unfolding read_body msg_length
read_body-empty room n g s e fits short =
    let fit : ltb room n ≡ false = ground arith in
    let nothing : pos_part (sub_ℕ n 8) ≡ 0 = ground arith in
    rw (e, fit, read_fix-empty 8 (sub_ℕ n 8) g s nothing)

read_p4_msg_lem :
    (room : ℕ) (g g' : Mem) (s s' : List Segment)
    → 8 ≤ room
    → read_fix 0 (pos 8) g s ≡ some (pos 8, g', s')
    → read_p4_msg 0 room g s ≡ read_body 0 room g' s'
unfolding read_p4_msg
read_p4_msg_lem room g g' s s' roomy r = let big : ltb room 8 ≡ false = ground arith in rw (big, r)

module _ (m : Mem) (room : ℕ) (roomy : 8 ≤ room) where
  -- A message that fits in its buffer is sent whole, and returns its length.
  write_p4_msg-Sent :
      (takes : List Accept) (sent : List ℕ)
      → msg_length m ≤ room
      → msg_length m ≤ capacity takes
      → Sent m 0 (msg_length m) sent (write_p4_msg m 0 room sent takes) (pos (msg_length m))
  unfolding write_p4_msg msg_length
  write_p4_msg-Sent takes sent fits space =
      let big : ltb room 8 ≡ false = ground arith in
      let fit : ltb room (msg_length m) ≡ false = ground arith in
      rw (big, fit) (write_fix-Sent m 0 (msg_length m) takes sent space)

  -- What `read_p4_msg` returns at the front of a stream that starts with a message longer than
  -- its header.
  read_p4_msg-message :
      (g : Mem) (s : List Segment) (rest : List ℕ)
      → msg_length m ≤ room
      → 8 < msg_length m
      → available s ≡ read_bytes m 0 (msg_length m) ++ rest
      → (s' : List Segment) × (read_p4_msg 0 room g s
          ≡ some (pos (msg_length m), copy g 0 m 0 (msg_length m), s'))
        × (available s' ≡ rest)
  read_p4_msg-message g s rest fits long av =
      let n = msg_length m in
      let g1 = write_bytes g 0 (read_bytes m 0 8) in
      let (s1, e1, l1) = read_stretch m g 0 8 n s rest (omega arith) av in
      let (s2, e2, l2) = read_stretch m g1 8 (n - 8) (n - 8) s1 rest (omega arith) l1 in
      (
        s2,
        read_p4_msg_lem room g g1 s s1 roomy e1
            ∙ read_body_lem room n g1 _ s1 s2 (msg_length-copy g m) fits long e2
            ∙ ap (λ h. some (pos n, h, s2)) (both_reads g m n (omega arith)),
        l2
            ∙ ap (λ bs. bs ++ rest)
                (read_bytes-zero m (8 + (n - 8)) (n - 8 - (n - 8)) (omega arith)),
      )

  -- A message no longer than its header is read as if the other end had closed: `read_p4_msg`
  -- takes its 8 bytes from the stream and returns 0.
  pub read_p4_msg-header_only :
      (g : Mem) (s : List Segment) (rest : List ℕ)
      → msg_length m ≤ 8
      → available s ≡ read_bytes m 0 8 ++ rest
      → (s' : List Segment) × (read_p4_msg 0 room g s ≡ some (pos 0, copy g 0 m 0 8, s'))
        × (available s' ≡ rest)
  read_p4_msg-header_only g s rest short av =
      let (s1, e1, l1) = read_stretch m g 0 8 8 s rest (omega arith) av in
      (
        s1,
        read_p4_msg_lem room g _ s s1 roomy e1
            ∙ read_body-empty room (msg_length m) _ s1 (msg_length-copy g m) (omega arith) short
            ∙ ap (λ h. some (pos 0, h, s1)) (write_bytes-read_bytes g m 8),
        l1 ∙ ap (λ bs. bs ++ rest) (read_bytes-zero m (0 + 8) (8 - 8) (omega arith)),
      )

-- The bytes that `write_p4_msg` sends of a message longer than its header, in a buffer with room
-- for it, to a socket that takes them all, are read back at the front of a stream by `read_p4_msg`
-- with a buffer of the same size: both return the length in the message's header, the message is
-- in the buffer, nothing else of the buffer is changed, and what follows stays in the stream.
pub read_p4_msg-write_p4_msg :
    (m g : Mem) (room : ℕ) (takes left : List Accept) (s : List Segment) (sent rest : List ℕ)
    (rval : ℤ)
    → 8 < msg_length m
    → msg_length m ≤ room
    → msg_length m ≤ capacity takes
    → write_p4_msg m 0 room [] takes ≡ some (rval, sent, left)
    → available s ≡ sent ++ rest
    → (s' : List Segment) × (rval ≡ pos (msg_length m))
      × (read_p4_msg 0 room g s ≡ some (pos (msg_length m), copy g 0 m 0 (msg_length m), s'))
      × (available s' ≡ rest)
read_p4_msg-write_p4_msg m g room takes left s sent rest rval long fits space wrote av =
    let (left', e) = write_p4_msg-Sent m room (omega arith) takes [] fits space in
    let all : sent ≡ read_bytes m 0 (msg_length m) = cc e in
    let (s', r, l) =
      read_p4_msg-message m room (omega arith) g s rest fits long
        (av ∙ ap (λ bs. bs ++ rest) all) in
    (s', cc e, r, l)
