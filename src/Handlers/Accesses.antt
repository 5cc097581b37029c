-- ===== src/Handlers/Accesses.antt =====
-- handlers.c and messages.c: which bytes the conversions and the loops over matches and parameters
-- read and write.
use macsad.Prelude.{
  ℕ, zero, suc, ◌+◌, ◌*◌, ◌^◌, ◌≤◌, ◌<◌, ◌≡◌, ◌==◌, refl, arith, ltb, if◌then◌else◌,
}
use macsad.Memory.{Ptr, pure, ◌>>=◌, ◌>>◌, write}
use macsad.Memory.ByteOrder.{htons, htonl}
use macsad.Memory.Confined.{
  Confined, Within, pure-Confined, then-Confined, weaker-Confined, if-Confined, get8-then,
  get16-then, get32-then, store16-then, store32-then,
}
use macsad.Messages.Netconv.{
  netconv_p4_header, convert_length, netconv_p4_action_parameter, netconv_p4_field_match_complex,
  netconv_p4_field_match_exact, netconv_p4_field_match_ternary, netconv_p4_field_match_lpm,
  netconv_p4_field_match_range, netconv_p4_field_match_valid,
}
use macsad.Handlers.{advance, unpack_params, unpack_matches}

module _ (lo hi : ℕ) where
  -- The conversions.
  pub header-Confined :
      (p : Ptr) → lo ≤ p → p + 8 ≤ hi → Confined lo hi (netconv_p4_header p) (λ h. h ≡ p)
  unfolding netconv_p4_header
  header-Confined p a b = get16-then lo hi (p + 2) (omega arith) (omega arith) (λ len.
      store16-then lo hi (p + 2) (htons len) (omega arith) (omega arith) (λ _.
        get32-then lo hi (p + 4) (omega arith) (omega arith) (λ xid.
          store32-then lo hi (p + 4) (htonl xid) (omega arith) (omega arith)
            (λ _. pure-Confined lo hi _ p refl))))

  length-Within : (p : Ptr) → lo ≤ p → p + 132 ≤ hi → Within lo hi (convert_length p)
  unfolding convert_length
  length-Within p a b = get16-then lo hi (p + 130) (omega arith) (omega arith) (λ len.
      store16-then lo hi (p + 130) (htons len) (omega arith) (omega arith)
        (λ _. pure-Confined lo hi _ p tt))

  parameter-Within :
      (p : Ptr) → lo ≤ p → p + 132 ≤ hi → Within lo hi (netconv_p4_action_parameter p)
  unfolding netconv_p4_action_parameter
  parameter-Within p a b = get32-then lo hi (p + 128) (omega arith) (omega arith) (λ len.
      store32-then lo hi (p + 128) (htonl len) (omega arith) (omega arith)
        (λ _. pure-Confined lo hi _ p tt))

  -- A match, whose struct has at most 646 bytes.
  abbrev IsSized : Ptr × ℕ → Type 0
  IsSized r = r.1 ≤ 646

  known-Confined :
      (p : Ptr) (size : ℕ)
      → lo ≤ p
      → p + 132 ≤ hi
      → size ≤ 646
      → Confined lo hi (convert_length p >> pure (p, size)) IsSized
  known-Confined p size a b s =
      then-Confined lo hi (convert_length p) _ _ IsSized (length-Within p a b)
        (λ _ _. pure-Confined lo hi IsSized (p, size) s)

  complex-Confined :
      (p : Ptr) → lo ≤ p → p + 132 ≤ hi → Confined lo hi (netconv_p4_field_match_complex p) IsSized
  unfolding netconv_p4_field_match_complex netconv_p4_field_match_exact
      netconv_p4_field_match_ternary netconv_p4_field_match_lpm netconv_p4_field_match_range
      netconv_p4_field_match_valid
  complex-Confined p a b = get8-then lo hi (p + 128) (omega arith) (omega arith) (λ type.
      if-Confined lo hi (type == 0) _ _ IsSized (λ _. known-Confined p 388 a b (omega arith))
        (λ _.
          if-Confined lo hi (type == 1) _ _ IsSized (λ _. known-Confined p 646 a b (omega arith))
            (λ _.
              if-Confined lo hi (type == 2) _ _ IsSized
                (λ _. known-Confined p 388 a b (omega arith))
                (λ _.
                  if-Confined lo hi (type == 3) _ _ IsSized
                    (λ _. known-Confined p 646 a b (omega arith))
                    (λ _.
                      if-Confined lo hi (type == 4) _ _ IsSized
                        (λ _. known-Confined p 390 a b (omega arith))
                        (λ _. pure-Confined lo hi IsSized (p, 0) (omega arith)))))))

  -- The loops.
  params-Within :
      (n i : ℕ) (buffer : Ptr) (offset : ℕ) (params : ℕ → Ptr)
      → lo ≤ buffer
      → buffer + offset + 260 * n ≤ hi
      → offset + 260 * n < 2 ^ 16
      → Within lo hi (unpack_params n i buffer offset params)
  unfolding unpack_params
  params-Within zero i buffer offset params a b s = pure-Confined lo hi _ (params, offset) tt
  params-Within (suc n) i buffer offset params a b s =
      then-Confined lo hi (netconv_p4_action_parameter (buffer + offset)) _ _ _
        (parameter-Within (buffer + offset) (omega arith) (omega arith))
        (λ p _.
          params-Within n (i + 1) buffer (advance offset 260) (write params i p) a (omega arith)
            (omega arith))

  pub matches-Confined :
      (n i : ℕ) (buffer : Ptr) (offset : ℕ) (matches : ℕ → Ptr)
      → lo ≤ buffer
      → buffer + offset + 646 * n ≤ hi
      → offset + 646 * n < 2 ^ 16
      → Confined lo hi (unpack_matches n i buffer offset matches) (λ r. r.1 ≤ offset + 646 * n)
  unfolding unpack_matches
  matches-Confined zero i buffer offset matches a b s =
      pure-Confined lo hi _ (matches, offset) (omega arith)
  matches-Confined (suc n) i buffer offset matches a b s =
      then-Confined lo hi (netconv_p4_field_match_complex (buffer + offset)) _ IsSized _
        (complex-Confined (buffer + offset) (omega arith) (omega arith))
        (λ p size.
          weaker-Confined lo hi _ _ (λ r. r.1 ≤ offset + 646 * suc n) (λ r l. omega arith)
            (matches-Confined n (i + 1) buffer (advance offset p.1) (write matches i p.0) a
              (omega arith) (omega arith)))

  -- The end of a handler of `n` parameters, with its result for too many of them and for the others.
  pub counted-Within :
      {A : Type 0} (n : ℕ) (buffer : Ptr) (offset : ℕ) (params : ℕ → Ptr) (refused : A)
      (made : (ℕ → Ptr) × ℕ → A)
      → lo ≤ buffer
      → buffer + offset + 2600 ≤ hi
      → offset + 2600 < 2 ^ 16
      → Within lo hi (
          if ltb 10 n
          then pure refused
          else (unpack_params n 0 buffer offset params >>= (λ u. pure (made u))))
  counted-Within n buffer offset params refused made a b s =
      if-Confined lo hi (ltb 10 n) (pure refused)
        (unpack_params n 0 buffer offset params >>= (λ u. pure (made u))) _
        (λ many. pure-Confined lo hi _ refused tt)
        (λ few.
          then-Confined lo hi (unpack_params n 0 buffer offset params) (λ u. pure (made u)) _ _
            (params-Within n 0 buffer offset params a (ground arith) (ground arith))
            (λ u _. pure-Confined lo hi _ (made u) tt))
