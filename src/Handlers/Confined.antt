-- ===== src/Handlers/Confined.antt =====
-- handlers.c: which bytes the handlers of the control messages read and write.
use macsad.Prelude.{
  ℕ, ◌+◌, ◌*◌, ◌^◌, ◌≤◌, ◌<◌, ◌≡◌, ◌==◌, Option, none, some, arith, ltb, if◌then◌else◌,
}
use macsad.Prelude.Int.{ℤ, pos, negsuc}
use macsad.Memory.{Ptr, Cmd, pure, ◌>>=◌, get8, get16}
use macsad.Memory.Confined.{
  Within, pure-Confined, then-Confined, if-Confined, get8-then, get16-then, get32-then,
}
use macsad.Messages.Netconv.{
  netconv_p4_header, netconv_p4_set_default_action, netconv_p4_add_table_entry,
}
use macsad.Handlers.{
  CtrlMsg, advance, unpack_matches, handle_action, handle_p4_set_default_action,
  handle_p4_add_table_entry, deliver, handle_p4_msg,
}
use macsad.Handlers.Accesses.{header-Confined, matches-Confined, counted-Within}

module _ (lo hi : ℕ) where
  pub handle_p4_set_default_action-Within :
      (p : Ptr) (c : CtrlMsg)
      → lo ≤ p
      → p + 2868 ≤ hi
      → Within lo hi (handle_p4_set_default_action p c)
  unfolding handle_p4_set_default_action
  handle_p4_set_default_action-Within p c a b =
      get8-then lo hi (p + 1) (omega arith) (omega arith) (λ type.
        get32-then lo hi (p + 4) (omega arith) (omega arith) (λ xid.
          get8-then lo hi (p + 136) (omega arith) (omega arith) (λ action_type.
            get8-then lo hi (p + 136 + 129) (omega arith) (omega arith) (λ n.
              let named : CtrlMsg = record c {
                type = type;
                xid = xid;
                table_name = p + 8;
                action_type = action_type;
                action_name = p + 136 + 1;
              } in
              counted-Within lo hi n (p + 268) 0 c.action_params (negsuc 0, named)
                (λ u. (pos 0, record named { num_action_params = n; action_params = u.0 }))
                (omega arith) (omega arith) (omega arith)))))

  action-Within :
      (buffer : Ptr) (offset : ℕ) (c : CtrlMsg)
      → lo ≤ buffer
      → buffer + offset + 2730 ≤ hi
      → offset + 2730 < 2 ^ 16
      → Within lo hi (handle_action buffer offset c)
  unfolding handle_action
  action-Within buffer offset c a b s =
      get8-then lo hi (buffer + offset) (omega arith) (omega arith) (λ action_type.
        get8-then lo hi (buffer + offset + 129) (omega arith) (omega arith) (λ n.
          let named : CtrlMsg = record c {
            action_type = action_type;
            action_name = buffer + offset + 1;
          } in
          counted-Within lo hi n buffer (advance offset 130) c.action_params (negsuc 1, named)
            (λ u. (pos 0, record named { num_action_params = n; action_params = u.0 })) a
            (omega arith) (omega arith)))

  pub handle_p4_add_table_entry-Within :
      (p : Ptr) (c : CtrlMsg)
      → lo ≤ p
      → p + 9330 ≤ hi
      → Within lo hi (handle_p4_add_table_entry p c)
  unfolding handle_p4_add_table_entry
  handle_p4_add_table_entry-Within p c a b =
      get8-then lo hi (p + 1) (omega arith) (omega arith) (λ type.
        get32-then lo hi (p + 4) (omega arith) (omega arith) (λ xid.
          get8-then lo hi (p + 136) (omega arith) (omega arith) (λ n.
            let named : CtrlMsg = record c { type = type; xid = xid; table_name = p + 8 } in
            let matched : (ℕ → Ptr) × ℕ → CtrlMsg =
              λ u. record named { num_field_matches = n; field_matches = u.0 } in
            if-Confined lo hi (ltb 10 n) (pure (negsuc 0, named))
              (unpack_matches n 0 (p + 140) 0 c.field_matches
                >>= (λ u. handle_action (p + 140) u.1 (matched u)))
              _ (λ many. pure-Confined lo hi _ (negsuc 0, named) tt)
              (λ few.
                let less : n ≤ 10 = ground arith in
                then-Confined lo hi (unpack_matches n 0 (p + 140) 0 c.field_matches)
                  (λ u. handle_action (p + 140) u.1 (matched u)) (λ r. r.1 ≤ 0 + 646 * n) _
                  (matches-Confined lo hi n 0 (p + 140) 0 c.field_matches (omega arith)
                    (omega arith) (omega arith))
                  (λ u l.
                    action-Within (p + 140) u.1 (matched u) (omega arith) (omega arith)
                      (omega arith))))))

  deliver-Within : (r : ℤ × CtrlMsg) → Within lo hi (deliver r)
  deliver-Within (pos n, c) = pure-Confined lo hi _ (pos 0, some c) tt
  deliver-Within (negsuc n, c) = pure-Confined lo hi _ (negsuc n, none) tt

  pub handle_p4_msg-Within :
      (p : Ptr) (length : ℕ) (c : CtrlMsg)
      → lo ≤ p
      → p + 9330 ≤ hi
      → Within lo hi (handle_p4_msg p length c)
  unfolding handle_p4_msg netconv_p4_set_default_action netconv_p4_add_table_entry
  handle_p4_msg-Within p length c a b =
      if-Confined lo hi (ltb length 8) (pure (negsuc 0, none))
        (netconv_p4_header p >>= (λ h. get16 (h + 2) >>= (λ len. get8 (h + 1) >>= known len))) _
        (λ short. pure-Confined lo hi _ (negsuc 0, none) tt)
        (λ long.
          then-Confined lo hi (netconv_p4_header p)
            (λ h. get16 (h + 2) >>= (λ len. get8 (h + 1) >>= known len)) (λ h. h ≡ p) _
            (header-Confined lo hi p a (omega arith))
            (λ h same. get16-then lo hi (h + 2) (omega arith) (omega arith) (λ len.
              get8-then lo hi (h + 1) (omega arith) (omega arith) (λ type.
                if-Confined lo hi (ltb length len) (pure (negsuc 0, none)) (of_type type) _
                  (λ _. pure-Confined lo hi _ (negsuc 0, none) tt) (λ _. of_type-Within type)))))
    where
      of_type : ℕ → Cmd (ℤ × Option CtrlMsg)
      of_type type =
          if type == 103
          then (handle_p4_set_default_action p c >>= deliver)
          else if type == 104
          then (handle_p4_add_table_entry p c >>= deliver)
          else pure (negsuc 99, some c)

      known : ℕ → ℕ → Cmd (ℤ × Option CtrlMsg)
      known len type = if ltb length len then pure (negsuc 0, none) else of_type type

      of_type-Within : (type : ℕ) → Within lo hi (of_type type)
      of_type-Within type =
          if-Confined lo hi (type == 103) (handle_p4_set_default_action p c >>= deliver)
            (if type == 104
              then (handle_p4_add_table_entry p c >>= deliver)
              else pure (negsuc 99, some c))
            _
            (λ _.
              then-Confined lo hi (handle_p4_set_default_action p c) deliver _ _
                (handle_p4_set_default_action-Within p c a (omega arith)) (λ r _. deliver-Within r))
            (λ _.
              if-Confined lo hi (type == 104) (handle_p4_add_table_entry p c >>= deliver)
                (pure (negsuc 99, some c)) _
                (λ _.
                  then-Confined lo hi (handle_p4_add_table_entry p c) deliver _ _
                    (handle_p4_add_table_entry-Within p c a b) (λ r _. deliver-Within r))
                (λ _. pure-Confined lo hi _ (negsuc 99, some c) tt))
