-- ===== src/Messages/Append.antt =====
-- The `add_p4_*` functions of messages.c, which put a struct behind a message in its buffer.
use macsad.Prelude.{
  ℕ, ◌+◌, ◌%◌, ◌≤◌, ◌<◌, ◌≡◌, ◌≢◌, ◌⊎◌, ◌^◌, refl, some, none, arith, Bool-cases, true, false, ltb,
  Option, inl, inr, ap, ◌∙◌,
}
use macsad.Memory.{
  Mem, Ptr, Cmd, ◌>>=◌, ◌>>◌, store8, store16, store32, load16, put16, put32, write,
}
use macsad.Memory.Laws.{load16-put16, put16_outside, write_outside, put32_outside}
use macsad.Messages.{
  reserve, increment, if_reserved, add_p4_field_match_lpm, add_p4_field_match_exact,
  add_p4_field_match_range, add_p4_field_match_valid, add_p4_field_match_ternary,
  add_p4_action_parameter, add_p4_digest_field,
}

-- From `m` to `m'` the message at `h` grew by `size` bytes, the byte at `count` counts one more,
-- and nothing else in it or elsewhere changed, but what is in the new bytes.
pub record Appended (size : ℕ) (count h : Ptr) (m m' : Mem) : Type 0 where
  pub lengthened : load16 m' (h + 2) ≡ load16 m (h + 2) + size
  pub counted : m' count ≡ (m count + 1) % 256
  pub kept :
      (a : Ptr)
      → a ≢ h + 2
      → a ≢ h + 3
      → a ≢ count
      → (a < h + load16 m (h + 2)) ⊎ (h + load16 m (h + 2) + size ≤ a)
      → m' a ≡ m a

abbrev pub Appends : ℕ → Ptr → Ptr → ℕ → Mem → Option (Option Ptr × Mem) → Type 0
Appends size count h maxlength m result = elim (ltb maxlength (load16 m (h + 2) + size)) [
  | true ↦ result ≡ some (none, m)
  | false ↦
      (m' : Mem) × (result ≡ some (some (h + load16 m (h + 2)), m')) × Appended size count h m m'
]

load16-same :
    (m m' : Mem) (p : Ptr) → m' p ≡ m p → m' (p + 1) ≡ m (p + 1) → load16 m' p ≡ load16 m p
unfolding load16
load16-same m m' p lo hi = omega arith

write_here : (m : Mem) (p : Ptr) (v : ℕ) → write m p v p ≡ v
unfolding write
write_here m p v = ground arith

module _ (size : ℕ) (count h : Ptr) (maxlength : ℕ) (m : Mem) (narrow : maxlength < 2 ^ 16)
    (inside : h + 4 ≤ count) (below : count < h + load16 m (h + 2)) where
  abbrev f : Ptr
  f = h + load16 m (h + 2)

  abbrev longer : Mem
  longer = put16 m (h + 2) (load16 m (h + 2) + size)

  abbrev counted_up : Mem
  counted_up = write longer count ((longer count + 1) % 256)

  -- A memory that differs from the one with the new length and count in the new bytes only.
  Appended-of :
      (m' : Mem)
      → load16 m (h + 2) + size ≤ maxlength
      → ((a : Ptr) → (a < f) ⊎ (f + size ≤ a) → m' a ≡ counted_up a)
      → Appended size count h m m'
  Appended-of m' fits same = record {
    lengthened =
        load16-same longer m' (h + 2)
          (same (h + 2) (inl (omega arith)) ∙ write_outside longer count _ (h + 2) (omega arith))
          (same (h + 2 + 1) (inl (omega arith))
            ∙ write_outside longer count _ (h + 2 + 1) (omega arith))
        ∙ load16-put16 m (h + 2) _ (omega arith);
    counted =
        same count (inl below)
        ∙ write_here longer count _
        ∙ ap (λ n. (n + 1) % 256) (put16_outside m (h + 2) _ count (inr (omega arith)));
    kept = λ a n2 n3 nc out.
        same a out ∙ write_outside longer count _ a nc ∙ put16_outside m (h + 2) _ a (omega arith);
  }

  reserve-refuses :
      ltb maxlength (load16 m (h + 2) + size) ≡ true → reserve h size maxlength m ≡ some (none, m)
  unfolding reserve
  reserve-refuses e = rw (e, reserve)

  reserve-grants :
      ltb maxlength (load16 m (h + 2) + size) ≡ false
      → reserve h size maxlength m ≡ some (some f, longer)
  unfolding reserve
  reserve-grants e = rw (e, reserve)

  -- A command that counts, and fills only the new bytes, appends once they are reserved.
  Appends-of :
      (fill : Ptr → Cmd (Unit {0})) (filled : Mem)
      → fill f longer ≡ some (tt, filled)
      → ((a : Ptr) → (a < f) ⊎ (f + size ≤ a) → filled a ≡ counted_up a)
      → Appends size count h maxlength m ((reserve h size maxlength >>= if_reserved fill) m)
  Appends-of fill filled runs fills = elim (Bool-cases (ltb maxlength (load16 m (h + 2) + size))) [
    | inl e ↦ rw (e, Appends) (ap next (reserve-refuses e))
    | inr e ↦
        rw (e, Appends)
          (
            filled,
            ap next (reserve-grants e) ∙ ap done runs,
            Appended-of filled (ground arith) fills,
          )
  ]
    where
      next : Option (Option Ptr × Mem) → Option (Option Ptr × Mem)
      next none = none
      next (some (o, m')) = if_reserved fill o m'

      done : Option (Unit {0} × Mem) → Option (Option Ptr × Mem)
      done none = none
      done (some (u, m')) = some (some f, m')

-- The stores in the new bytes.
module _ (h : Ptr) (m : Mem) where
  abbrev new : Ptr
  new = h + load16 m (h + 2)

  fill_match : ℕ → Mem → Mem
  fill_match type m' = put16 (write m' (new + 128) type) (new + 130) 0

  fill_flagged : ℕ → Mem → Mem
  unfolding fill_match
  fill_flagged type m' = write (fill_match type m') (new + 132) 0

  fill_action : Mem → Mem
  fill_action m' = write (write (write m' new 0) (new + 1) 0) (new + 129) 0

  fill_named : Mem → Mem
  fill_named m' = put32 (write m' new 0) (new + 128) 0

  module _ (type size : ℕ) (m' : Mem) (big : 133 ≤ size) (a : Ptr)
      (out : (a < new) ⊎ (new + size ≤ a)) where
    fill_match_outside : fill_match type m' a ≡ m' a
    unfolding fill_match
    fill_match_outside = put16_outside _ _ 0 a (omega arith) ∙ write_outside m' _ _ a (omega arith)

    fill_flagged_outside : fill_flagged type m' a ≡ m' a
    unfolding fill_flagged
    fill_flagged_outside = write_outside _ _ _ a (omega arith) ∙ fill_match_outside

    fill_named_outside : fill_named m' a ≡ m' a
    unfolding fill_named
    fill_named_outside = put32_outside _ _ 0 a (omega arith) ∙ write_outside m' _ _ a (omega arith)

module _ (h : Ptr) (maxlength : ℕ) (m : Mem) (narrow : maxlength < 2 ^ 16)
    (begun : 137 ≤ load16 m (h + 2)) where
  add_p4_field_match_lpm-Appends :
      Appends 388 (h + 136) h maxlength m (add_p4_field_match_lpm h maxlength m)
  unfolding add_p4_field_match_lpm increment fill_match
  add_p4_field_match_lpm-Appends =
      Appends-of 388 (h + 136) h maxlength m narrow (omega arith) (omega arith)
        (λ p. do increment (h + 136); store8 (p + 128) 2; store16 (p + 130) 0) (fill_match h m 2 _)
        refl (fill_match_outside h m 2 388 _ (omega arith))

  add_p4_field_match_exact-Appends :
      Appends 388 (h + 136) h maxlength m (add_p4_field_match_exact h maxlength m)
  unfolding add_p4_field_match_exact increment fill_match
  add_p4_field_match_exact-Appends =
      Appends-of 388 (h + 136) h maxlength m narrow (omega arith) (omega arith)
        (λ p. do increment (h + 136); store8 (p + 128) 0; store16 (p + 130) 0) (fill_match h m 0 _)
        refl (fill_match_outside h m 0 388 _ (omega arith))

  add_p4_field_match_range-Appends :
      Appends 646 (h + 136) h maxlength m (add_p4_field_match_range h maxlength m)
  unfolding add_p4_field_match_range increment fill_flagged
  add_p4_field_match_range-Appends =
      Appends-of 646 (h + 136) h maxlength m narrow (omega arith) (omega arith)
        (λ p. do increment (h + 136); store8 (p + 128) 3; store16 (p + 130) 0; store8 (p + 132) 0)
        (fill_flagged h m 3 _) refl (fill_flagged_outside h m 3 646 _ (omega arith))

  add_p4_field_match_valid-Appends :
      Appends 390 (h + 136) h maxlength m (add_p4_field_match_valid h maxlength m)
  unfolding add_p4_field_match_valid increment fill_flagged
  add_p4_field_match_valid-Appends =
      Appends-of 390 (h + 136) h maxlength m narrow (omega arith) (omega arith)
        (λ p. do increment (h + 136); store8 (p + 128) 4; store16 (p + 130) 0; store8 (p + 132) 0)
        (fill_flagged h m 4 _) refl (fill_flagged_outside h m 4 390 _ (omega arith))

  add_p4_field_match_ternary-Appends :
      Appends 646 (h + 136) h maxlength m (add_p4_field_match_ternary h maxlength m)
  unfolding add_p4_field_match_ternary increment fill_flagged
  add_p4_field_match_ternary-Appends =
      Appends-of 646 (h + 136) h maxlength m narrow (omega arith) (omega arith)
        (λ p. do increment (h + 136); store8 (p + 128) 1; store16 (p + 130) 0; store8 (p + 132) 0)
        (fill_flagged h m 1 _) refl (fill_flagged_outside h m 1 646 _ (omega arith))

  -- Under the same conditions `add_p4_digest_field` appends a field of 164 bytes to the digest at
  -- `h` and counts it, or returns 0 and changes nothing if it does not fit in the room.
  add_p4_digest_field-Appends :
      Appends 164 (h + 136) h maxlength m (add_p4_digest_field h maxlength m)
  unfolding add_p4_digest_field increment fill_named
  add_p4_digest_field-Appends =
      Appends-of 164 (h + 136) h maxlength m narrow (omega arith) (omega arith)
        (λ p. do increment (h + 136); store8 p 0; store32 (p + 128) 0) (fill_named h m _) refl
        (fill_named_outside h m 0 164 _ (omega arith))

  -- For an action inside the message at `h`, behind its length, `add_p4_action_parameter` appends a
  -- parameter of 260 bytes to the message and counts it in the action, or returns 0 and changes
  -- nothing if it does not fit in the room.
  pub add_p4_action_parameter-Appends :
      (action : Ptr)
      → h + 4 ≤ action
      → action + 130 ≤ h + load16 m (h + 2)
      → Appends 260 (action + 129) h maxlength m (add_p4_action_parameter h action maxlength m)
  unfolding add_p4_action_parameter increment fill_named
  add_p4_action_parameter-Appends action behind inside =
      Appends-of 260 (action + 129) h maxlength m narrow (omega arith) (omega arith)
        (λ p. do increment (action + 129); store8 p 0; store32 (p + 128) 0) (fill_named h m _) refl
        (fill_named_outside h m 0 260 _ (omega arith))

  -- For a message begun at `h` (its length is at least that of the fixed part of a table entry) and
  -- a 16-bit room: each of the five functions that add a match returns 0 and changes nothing if the
  -- struct does not fit in the room. Else it returns the address behind the message, the length
  -- grows by the size of the struct, the number of matches by one, and no other byte in front of
  -- the struct or behind it changes.
  pub add_p4_field_match-Appends :
      Appends 388 (h + 136) h maxlength m (add_p4_field_match_exact h maxlength m)
      × Appends 646 (h + 136) h maxlength m (add_p4_field_match_ternary h maxlength m)
      × Appends 388 (h + 136) h maxlength m (add_p4_field_match_lpm h maxlength m)
      × Appends 646 (h + 136) h maxlength m (add_p4_field_match_range h maxlength m)
      × Appends 390 (h + 136) h maxlength m (add_p4_field_match_valid h maxlength m)
  add_p4_field_match-Appends = (
    add_p4_field_match_exact-Appends, add_p4_field_match_ternary-Appends,
    add_p4_field_match_lpm-Appends, add_p4_field_match_range-Appends,
    add_p4_field_match_valid-Appends,
  )
