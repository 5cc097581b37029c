-- ===== src/Handlers/Unpack.antt =====
-- The loops of handlers.c: where the pointers of `struct p4_ctrl_msg` point.
use macsad.Prelude.{
  ℕ, zero, suc, ◌+◌, ◌-◌, ◌*◌, ◌≤◌, ◌<◌, ◌≡◌, ◌≢◌, ◌^◌, refl, some, arith, ◌==◌, inl, inr,
  Bool-cases, false, ap, ◌∙◌,
}
use macsad.Memory.{Mem, Ptr, write, load32, put32}
use macsad.Memory.Laws.{put32_outside}
use macsad.Memory.ByteOrder.{htonl}
use macsad.Messages.Netconv.{netconv_p4_action_parameter}
use macsad.Handlers.{unpack_params, advance}

netconv_param_lem :
    (p : Ptr) (m : Mem)
    → netconv_p4_action_parameter p m ≡ some (p, put32 m (p + 128) (htonl (load32 m (p + 128))))
unfolding netconv_p4_action_parameter
netconv_param_lem p m = refl

-- What the loop over the parameters leaves: the pointers are one struct apart, entries before
-- index i are kept, and memory in front of the structs is not touched.
pub record Unpacked (n i : ℕ) (buffer : Ptr) (offset : ℕ) (params : ℕ → Ptr) (m : Mem)
    (params' : ℕ → Ptr) (m' : Mem) : Type 0 where
  pub points : (k : ℕ) → i ≤ k → k < i + n → params' k ≡ buffer + (offset + 260 * (k - i))
  pub kept : (k : ℕ) → k < i → params' k ≡ params k
  pub spared : (a : Ptr) → a < buffer + (offset + 128) → m' a ≡ m a

-- A round puts the pointer at index i and converts the length behind it.
module _ (n i : ℕ) (buffer : Ptr) (offset : ℕ) (params : ℕ → Ptr) (m : Mem)
    (fits : offset + 260 * suc n < 2 ^ 16) where
  abbrev here : Ptr
  here = buffer + offset

  abbrev converted : Mem
  converted = put32 m (here + 128) (htonl (load32 m (here + 128)))

  Unpacked-round :
      (params' : ℕ → Ptr) (m' : Mem)
      → Unpacked n (i + 1) buffer (advance offset 260) (write params i here) converted params' m'
      → Unpacked (suc n) i buffer offset params m params' m'
  unfolding write
  Unpacked-round params' m' u = record {
    points = λ k lo hi. elim (Bool-cases (k == i)) [
      | inl first ↦ let at : k ≡ i = ground arith in u.kept k (omega arith) ∙ rw first (omega arith)
      | inr later ↦
          let past : k ≢ i = ground arith in u.points k (omega arith) (omega arith) ∙ omega arith
    ];
    kept = λ k lo. let apart : (k == i) ≡ false = ground arith in u.kept k (omega arith) ∙ rw apart;
    spared =
        λ a lo. u.spared a (omega arith) ∙ put32_outside m (here + 128) _ a (inl (omega arith));
  }

-- The loop always ends with all n pointers, if the offset does not wrap.
pub unpack_params_lem :
    (n i : ℕ) (buffer : Ptr) (offset : ℕ) (params : ℕ → Ptr) (m : Mem)
    → offset + 260 * n < 2 ^ 16
    → (params' : ℕ → Ptr) × (m' : Mem) × (unpack_params n i buffer offset params m
        ≡ some ((params', offset + 260 * n), m'))
      × Unpacked n i buffer offset params m params' m'
unfolding unpack_params
unpack_params_lem zero i buffer offset params m fits = (
  params,
  m,
  ap (λ o. some ((params, o), m)) (omega arith),
  record { points = λ k lo hi. absurd (omega arith); kept = λ k lo. refl; spared = λ a h. refl },
)
unpack_params_lem (suc n) i buffer offset params m fits =
    let (params', m', e, u) =
      unpack_params_lem n (i + 1) buffer (advance offset 260) (write params i (buffer + offset))
        (converted n i buffer offset params m fits) (omega arith) in
    (
      params',
      m',
      e ∙ ap (λ o. some ((params', o), m')) (omega arith),
      Unpacked-round n i buffer offset params m fits params' m' u,
    )
