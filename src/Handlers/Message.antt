-- ===== src/Handlers/Message.antt =====
-- handlers.c, `handle_p4_msg`: what it returns, whether it calls the callback, and which bytes it
-- accesses.
use macsad.Prelude.{
  ℕ, ◌+◌, ◌≡◌, some, arith, if◌then◌else◌, Bool, Bool-cases, true, false, ap, ◌∙◌, ltb, ◌==◌, ◌⊎◌,
  Option, none, inl, inr,
}
use macsad.Prelude.Int.{ℤ, pos, negsuc}
use macsad.Memory.{Mem, Ptr, load16, load32, put16, put32}
use macsad.Memory.ByteOrder.{htons, htonl}
use macsad.Messages.Netconv.{netconv_p4_header}
use macsad.Handlers.{
  CtrlMsg, deliver, handle_p4_msg, handle_p4_set_default_action, handle_p4_add_table_entry,
}
use macsad.Memory.Confined.{Within}
use macsad.Handlers.Confined.{handle_p4_msg-Within}
use macsad.Handlers.Entry.{entry_rval}
use macsad.Handlers.Decoded.{Returns, handle_p4_add_table_entry-Returns}
use macsad.Handlers.Default.{default_rval, handle_p4_set_default_action-Returns}

-- The memory once the header at `p` is converted.
unfoldable pub convert_header : Mem → Ptr → Mem
unfolding htons htonl
convert_header m p =
    let m' = put16 m (p + 2) (htons (load16 m (p + 2))) in
    put32 m' (p + 4) (htonl (load32 m' (p + 4)))

-- What `handle_p4_msg` returns for the message at `p` whose header is converted in `m`, and whether
-- it calls the callback.
unfoldable pub msg_rval : Mem → Ptr → ℕ → ℤ
msg_rval m p length =
    if ltb length (load16 m (p + 2))
    then negsuc 0
    else if m (p + 1) == 103
    then default_rval m p
    else if m (p + 1) == 104
    then entry_rval m p
    else negsuc 99

unfoldable pub calls_back : ℤ → Bool
calls_back (pos n) = true
calls_back (negsuc n) = n == 99

abbrev pub is_some : Option CtrlMsg → Bool
is_some none = false
is_some (some c) = true

-- The result is `rval`, with the callback called or not as `rval` tells.
abbrev pub Outcome : Option ((ℤ × Option CtrlMsg) × Mem) → ℤ → Type 0
Outcome result rval =
    (called : Option CtrlMsg) × (m' : Mem) × (result ≡ some ((rval, called), m'))
    × (is_some called ≡ calls_back rval)

-- What the handlers of the two known types return.
abbrev Handled : ℤ → Type 0
Handled r = (r ≡ negsuc 0) ⊎ ((r ≡ negsuc 1) ⊎ (r ≡ pos 0))

entry_rval-Handled : (m : Mem) (p : Ptr) → Handled (entry_rval m p)
unfolding entry_rval
entry_rval-Handled m p = ground arith

default_rval-Handled : (m : Mem) (p : Ptr) → Handled (default_rval m p)
unfolding default_rval
default_rval-Handled m p = ground arith

delivered : Option ((ℤ × CtrlMsg) × Mem) → Option ((ℤ × Option CtrlMsg) × Mem)
delivered none = none
delivered (some (r, m')) = deliver r m'

delivered-Outcome :
    (result : Option ((ℤ × CtrlMsg) × Mem)) (r : ℤ)
    → Returns result r
    → Handled r
    → Outcome (delivered result) r
unfolding delivered calls_back
delivered-Outcome result r (c', m', e) (inl er) = (none, m', ap delivered e ∙ rw er, rw er)
delivered-Outcome result r (c', m', e) (inr (inl er)) = (none, m', ap delivered e ∙ rw er, rw er)
delivered-Outcome result r (c', m', e) (inr (inr er)) = (some c', m', ap delivered e ∙ rw er, rw er)

-- The part of `handle_p4_msg` behind the header.
module _ (p : Ptr) (length : ℕ) (c : CtrlMsg) where
  dispatched : Mem → Option ((ℤ × Option CtrlMsg) × Mem)
  unfolding delivered
  dispatched m =
      if ltb length (load16 m (p + 2))
      then some ((negsuc 0, none), m)
      else if m (p + 1) == 103
      then delivered (handle_p4_set_default_action p c m)
      else if m (p + 1) == 104
      then delivered (handle_p4_add_table_entry p c m)
      else some ((negsuc 99, some c), m)

  dispatched-Outcome : (m : Mem) → Outcome (dispatched m) (msg_rval m p length)
  unfolding dispatched msg_rval calls_back
  dispatched-Outcome m = elim (Bool-cases (ltb length (load16 m (p + 2)))) [
    | inl e ↦ (none, m, rw e, rw e)
    | inr e ↦ elim (Bool-cases (m (p + 1) == 103)) [
      | inl d ↦
          rw (e, d)
            (delivered-Outcome (handle_p4_set_default_action p c m) (default_rval m p)
              (handle_p4_set_default_action-Returns m p c).0 (default_rval-Handled m p))
      | inr d ↦ elim (Bool-cases (m (p + 1) == 104)) [
        | inl a ↦
            rw (e, d, a)
              (delivered-Outcome (handle_p4_add_table_entry p c m) (entry_rval m p)
                (handle_p4_add_table_entry-Returns m p c).0 (entry_rval-Handled m p))
        | inr a ↦ (some c, m, rw (e, d, a), rw (e, d, a))
      ]
    ]
  ]

  handle_p4_msg-short :
      (m : Mem) → ltb length 8 ≡ true → handle_p4_msg p length c m ≡ some ((negsuc 0, none), m)
  unfolding handle_p4_msg
  handle_p4_msg-short m e = rw e

  handle_p4_msg-dispatched :
      (m : Mem)
      → ltb length 8 ≡ false
      → handle_p4_msg p length c m ≡ dispatched (convert_header m p)
  unfolding handle_p4_msg dispatched convert_header netconv_p4_header delivered
  handle_p4_msg-dispatched m e =
      let m1 = convert_header m p in
      elim (Bool-cases (ltb length (load16 m1 (p + 2)))) [
        | inl l ↦ rw (e, l)
        | inr l ↦ elim (Bool-cases (m1 (p + 1) == 103)) [
          | inl d ↦ rw (e, l, d)
          | inr d ↦ elim (Bool-cases (m1 (p + 1) == 104)) [
            | inl a ↦ rw (e, l, d, a)
            | inr a ↦ rw (e, l, d, a)
          ]
        ]
      ]

-- What `handle_p4_msg` returns for `length` bytes at `p`.
unfoldable pub received_rval : Mem → Ptr → ℕ → ℤ
received_rval m p length = if ltb length 8 then negsuc 0 else msg_rval (convert_header m p) p length

received-Outcome :
    (m : Mem) (p : Ptr) (length : ℕ) (c : CtrlMsg)
    → Outcome (handle_p4_msg p length c m) (received_rval m p length)
unfolding received_rval calls_back
received-Outcome m p length c = elim (Bool-cases (ltb length 8)) [
  | inl short ↦ (none, m, handle_p4_msg-short p length c m short ∙ rw short, rw short)
  | inr long ↦
      let (called, m', e, b) = dispatched-Outcome p length c (convert_header m p) in
      (called, m', handle_p4_msg-dispatched p length c m long ∙ e ∙ rw long, b ∙ rw long)
]

-- In a memory without bounds, `handle_p4_msg` of the message at `p` returns -1 for fewer bytes than a
-- header or fewer than the header says, the result of the handler for the two known types, and -100
-- for any other type; the callback is called exactly on the results 0 and -100. What it does
-- depends on the bytes from p to p + 9330 only, and it changes no other: a buffer with those bytes is
-- large enough, whatever they hold.
pub handle_p4_msg-Outcome :
    (m : Mem) (p : Ptr) (length : ℕ) (c : CtrlMsg)
    → Outcome (handle_p4_msg p length c m) (received_rval m p length)
      × Within p (p + 9330) (handle_p4_msg p length c)
handle_p4_msg-Outcome m p length c = (
  received-Outcome m p length c,
  handle_p4_msg-Within p (p + 9330) p length c (omega arith) (omega arith),
)
