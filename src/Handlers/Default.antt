-- ===== src/Handlers/Default.antt =====
-- handlers.c: what a message that sets a default action is decoded to.
use macsad.Prelude.{
  ℕ, ◌+◌, ◌*◌, ◌≤◌, ◌<◌, ◌≡◌, refl, some, arith, if◌then◌else◌, Bool-cases, true, false, ap, ◌∙◌,
  ltb, Option, none, inl, inr,
}
use macsad.Prelude.Int.{ℤ, pos, negsuc}
use macsad.Memory.{Mem, Ptr, load32}
use macsad.Handlers.{CtrlMsg, unpack_params, handle_p4_set_default_action}
use macsad.Handlers.Unpack.{Unpacked, unpack_params_lem}
use macsad.Memory.Confined.{Within}
use macsad.Handlers.Decoded.{Returns}
use macsad.Handlers.Confined.{handle_p4_set_default_action-Within}

-- The decoded message `c'` of the message at `p` in the memory `m`.
pub record DefaultDecoded (m : Mem) (p : Ptr) (c' : CtrlMsg) : Type 0 where
  pub type_read : c'.type ≡ m (p + 1)
  pub xid_read : c'.xid ≡ load32 m (p + 4)
  pub table_at : c'.table_name ≡ p + 8
  pub action_type_read : c'.action_type ≡ m (p + 136)
  pub action_named : c'.action_name ≡ p + 137
  pub params_counted : c'.num_action_params ≡ m (p + 265)
  pub params_at : (k : ℕ) → k < m (p + 265) → c'.action_params k ≡ p + 268 + 260 * k

abbrev pub DecodesDefault : Mem → Ptr → Option ((ℤ × CtrlMsg) × Mem) → Type 0
DecodesDefault m p result =
    (c' : CtrlMsg) × (m' : Mem) × (result ≡ some ((pos 0, c'), m')) × DefaultDecoded m p c'

-- What the handler returns: too many parameters, or 0.
unfoldable pub default_rval : Mem → Ptr → ℤ
default_rval m p = if ltb 10 (m (p + 265)) then negsuc 0 else pos 0

module _ (m : Mem) (p : Ptr) (c : CtrlMsg) where
  abbrev named : CtrlMsg
  named = record c {
    type = m (p + 1);
    xid = load32 m (p + 4);
    table_name = p + 8;
    action_type = m (p + 136);
    action_name = p + 136 + 1;
  }

  abbrev unpacked : (ℕ → Ptr) → CtrlMsg
  unpacked params = record named { num_action_params = m (p + 136 + 129); action_params = params }

  default_refused :
      ltb 10 (m (p + 136 + 129)) ≡ true
      → handle_p4_set_default_action p c m ≡ some ((negsuc 0, named), m)
  unfolding handle_p4_set_default_action
  default_refused many = rw many

  default_unpacked :
      (params : ℕ → Ptr) (o : ℕ) (m' : Mem)
      → ltb 10 (m (p + 136 + 129)) ≡ false
      → unpack_params (m (p + 136 + 129)) 0 (p + 268) 0 c.action_params m ≡ some ((params, o), m')
      → handle_p4_set_default_action p c m ≡ some ((pos 0, unpacked params), m')
  unfolding handle_p4_set_default_action
  default_unpacked params o m' less e = rw less (ap finish e)
    where
      finish : Option (((ℕ → Ptr) × ℕ) × Mem) → Option ((ℤ × CtrlMsg) × Mem)
      finish none = none
      finish (some (found, m'')) = some ((pos 0, unpacked found.0), m'')

  default_DefaultDecoded :
      (params : ℕ → Ptr) (m' : Mem)
      → Unpacked (m (p + 136 + 129)) 0 (p + 268) 0 c.action_params m params m'
      → DefaultDecoded m p (unpacked params)
  default_DefaultDecoded params m' v =
      let at : m (p + 136 + 129) ≡ m (p + 265) = ap m (omega arith) in
      record {
        type_read = refl;
        xid_read = refl;
        table_at = refl;
        action_type_read = refl;
        action_named = omega arith;
        params_counted = at;
        params_at = λ k h. v.points k (omega arith) (omega arith) ∙ omega arith;
      }

  -- With at most 10 parameters the handler of a default action returns 0 and a message whose members
  -- are those of the message in memory, with the parameters behind it one struct apart.
  pub handle_p4_set_default_action-Decodes :
      m (p + 265) ≤ 10 → DecodesDefault m p (handle_p4_set_default_action p c m)
  handle_p4_set_default_action-Decodes h =
      let at : m (p + 136 + 129) ≡ m (p + 265) = ap m (omega arith) in
      let (params, m', e, v) =
        unpack_params_lem (m (p + 136 + 129)) 0 (p + 268) 0 c.action_params m (omega arith) in
      (
        unpacked params,
        m',
        default_unpacked params _ m' (ground arith) e,
        default_DefaultDecoded params m' v,
      )

  default_Returns : Returns (handle_p4_set_default_action p c m) (default_rval m p)
  unfolding default_rval
  default_Returns =
      let at : m (p + 136 + 129) ≡ m (p + 265) = ap m (omega arith) in
      elim (Bool-cases (ltb 10 (m (p + 265)))) [
        | inl many ↦ (named, m, default_refused (ap (ltb 10) at ∙ many) ∙ rw many)
        | inr less ↦
            let (c', m', d, v) = handle_p4_set_default_action-Decodes (ground arith) in
            (c', m', d ∙ rw less)
      ]

  -- In a memory without bounds, the handler of a default action at `p` returns -1 with more than 10
  -- parameters, else 0. What it does depends on the bytes from p to p + 2868 only, and it changes no
  -- other: a buffer with those bytes is large enough, whatever they hold.
  pub handle_p4_set_default_action-Returns :
      Returns (handle_p4_set_default_action p c m) (default_rval m p)
      × Within p (p + 2868) (handle_p4_set_default_action p c)
  handle_p4_set_default_action-Returns = (
    default_Returns,
    handle_p4_set_default_action-Within p (p + 2868) p c (omega arith) (omega arith),
  )
