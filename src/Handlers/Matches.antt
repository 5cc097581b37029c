-- ===== src/Handlers/Matches.antt =====
-- The loop over the field matches of handlers.c: each pointer is as far behind the one before it as
-- the struct of that match's type is long.
use macsad.Prelude.{
  ℕ, zero, suc, ◌+◌, ◌*◌, ◌≤◌, ◌<◌, ◌≡◌, ◌^◌, refl, some, arith, ◌==◌, if◌then◌else◌, inl, inr,
  Bool-cases, Option, none, ==_refl, true, false, ap, ◌∙◌, ltb,
}
use macsad.Memory.{Mem, Ptr, write, put16, load16}
use macsad.Memory.Laws.{put16_outside}
use macsad.Memory.ByteOrder.{htons}
use macsad.Messages.Netconv.{netconv_p4_field_match_complex}
use macsad.Handlers.{unpack_matches, advance}

-- `sizeof` of the struct for a `p4_field_match_type`, and 0 for any other number.
unfoldable pub match_size : ℕ → ℕ
match_size type =
    if type == 0
    then 388
    else if type == 1
    then 646
    else if type == 2
    then 388
    else if type == 3
    then 646
    else if type == 4
    then 390
    else 0

pub match_size_le : (type : ℕ) → match_size type ≤ 646
unfolding match_size
match_size_le type = ground arith

-- The memory once the length of the match at p is converted.
convert_match : Mem → Ptr → Mem
convert_match m p =
    if ltb (m (p + 128)) 5 then put16 m (p + 130) (htons (load16 m (p + 130))) else m

convert_match_front : (m : Mem) (p a : Ptr) → a < p + 130 → convert_match m p a ≡ m a
unfolding convert_match
convert_match_front m p a h =
    ground (arith, put16_outside m (p + 130) (htons (load16 m (p + 130))) a (inl h))

convert_match_behind :
    (m : Mem) (p a : Ptr) → p + match_size (m (p + 128)) ≤ a → convert_match m p a ≡ m a
unfolding convert_match match_size
convert_match_behind m p a h =
    ground (arith, put16_outside m (p + 130) (htons (load16 m (p + 130))) a)

known : (type k : ℕ) → (type == k) ≡ true → k < 5 → ltb type 5 ≡ true
known type k e h = ground arith

netconv_complex_lem :
    (p : Ptr) (m : Mem)
    → netconv_p4_field_match_complex p m ≡ some ((p, match_size (m (p + 128))), convert_match m p)
unfolding netconv_p4_field_match_complex match_size convert_match
netconv_complex_lem p m = elim (Bool-cases (m (p + 128) == 0)) [
  | inl e ↦ rw (e, known (m (p + 128)) 0 e (omega arith))
  | inr e0 ↦ elim (Bool-cases (m (p + 128) == 1)) [
    | inl e ↦ rw (e0, e, known (m (p + 128)) 1 e (omega arith))
    | inr e1 ↦ elim (Bool-cases (m (p + 128) == 2)) [
      | inl e ↦ rw (e0, e1, e, known (m (p + 128)) 2 e (omega arith))
      | inr e2 ↦ elim (Bool-cases (m (p + 128) == 3)) [
        | inl e ↦ rw (e0, e1, e2, e, known (m (p + 128)) 3 e (omega arith))
        | inr e3 ↦ elim (Bool-cases (m (p + 128) == 4)) [
          | inl e ↦ rw (e0, e1, e2, e3, e, known (m (p + 128)) 4 e (omega arith))
          | inr e4 ↦
              let unknown : ltb (m (p + 128)) 5 ≡ false = ground arith in
              rw (e0, e1, e2, e3, e4, unknown)
        ]
      ]
    ]
  ]
]

-- Where the `n`-th struct from `offset` on begins, as an offset from `buffer`.
unfoldable pub match_offset : Mem → Ptr → ℕ → ℕ → ℕ
unfolding match_size
match_offset m buffer offset zero = offset
match_offset m buffer offset (suc n) =
    match_offset m buffer (offset + match_size (m (buffer + offset + 128))) n

pub match_offset_le :
    (m : Mem) (buffer : Ptr) (offset n : ℕ) → match_offset m buffer offset n ≤ offset + 646 * n
unfolding match_offset
match_offset_le m buffer offset zero = omega arith
match_offset_le m buffer offset (suc n) =
    let size = match_size (m (buffer + offset + 128)) in
    let le = match_size_le (m (buffer + offset + 128)) in
    let rest = match_offset_le m buffer (offset + size) n in omega arith

pub match_offset_ge :
    (m : Mem) (buffer : Ptr) (offset n : ℕ) → offset ≤ match_offset m buffer offset n
unfolding match_offset
match_offset_ge m buffer offset zero = omega arith
match_offset_ge m buffer offset (suc n) =
    let rest = match_offset_ge m buffer (offset + match_size (m (buffer + offset + 128))) n in
    omega arith

-- Only memory from the first struct on tells where the structs are.
match_offset-same :
    (m m' : Mem) (buffer : Ptr) (offset n : ℕ)
    → ((a : Ptr) → buffer + offset ≤ a → m' a ≡ m a)
    → match_offset m' buffer offset n ≡ match_offset m buffer offset n
unfolding match_offset
match_offset-same m m' buffer offset zero same = refl
match_offset-same m m' buffer offset (suc n) same =
    let at : m' (buffer + offset + 128) ≡ m (buffer + offset + 128) = same _ (omega arith) in
    ap (λ t. match_offset m' buffer (offset + match_size t) n) at
    ∙ match_offset-same m m' buffer (offset + match_size (m (buffer + offset + 128))) n
        (λ a h. same a (omega arith))

-- What the loop over the matches leaves: the pointers are at the structs, entries before index i
-- are kept, and memory in front of the structs' types and behind the structs is not touched.
pub record Matched (n i : ℕ) (buffer : Ptr) (offset : ℕ) (matches : ℕ → Ptr) (m : Mem)
    (matches' : ℕ → Ptr) (m' : Mem) : Type 0 where
  pub points : (k : ℕ) → k < n → matches' (i + k) ≡ buffer + match_offset m buffer offset k
  pub kept : (k : ℕ) → k < i → matches' k ≡ matches k
  pub spared : (a : Ptr) → a < buffer + (offset + 130) → m' a ≡ m a
  pub behind : (a : Ptr) → buffer + match_offset m buffer offset n ≤ a → m' a ≡ m a

module _ (n i : ℕ) (buffer : Ptr) (offset : ℕ) (matches : ℕ → Ptr) (m : Mem) where
  abbrev here : Ptr
  here = buffer + offset

  abbrev size : ℕ
  size = match_size (m (here + 128))

  abbrev converted : Mem
  converted = convert_match m here

  unpack_matches-round :
      advance offset size ≡ offset + size
      → unpack_matches (suc n) i buffer offset matches m
        ≡ unpack_matches n (i + 1) buffer (offset + size) (write matches i here) converted
  unfolding unpack_matches
  unpack_matches-round e =
      ap (λ r. next r) (netconv_complex_lem here m)
      ∙ ap (λ o. unpack_matches n (i + 1) buffer o (write matches i here) converted) e
    where
      next : Option ((Ptr × ℕ) × Mem) → Option (((ℕ → Ptr) × ℕ) × Mem)
      next none = none
      next (some ((p, k), m')) =
          unpack_matches n (i + 1) buffer (advance offset k) (write matches i p) m'

  later_same :
      (k : ℕ)
      → match_offset converted buffer (offset + size) k ≡ match_offset m buffer offset (suc k)
  unfolding match_offset
  later_same k =
      match_offset-same m converted buffer (offset + size) k
        (λ a h. convert_match_behind m here a (omega arith))

  points-round :
      (matches' : ℕ → Ptr) (m' : Mem)
      → Matched n (i + 1) buffer (offset + size) (write matches i here) converted matches' m'
      → (k : ℕ) → k < suc n
      → matches' (i + k) ≡ buffer + match_offset m buffer offset k
  unfolding write match_offset
  points-round matches' m' u zero h =
      ap matches' (omega arith) ∙ u.kept i (omega arith) ∙ rw (==_refl i)
  points-round matches' m' u (suc k) h =
      ap matches' (omega arith) ∙ u.points k (omega arith) ∙ ap (λ o. buffer + o) (later_same k)

  Matched-round :
      (matches' : ℕ → Ptr) (m' : Mem)
      → Matched n (i + 1) buffer (offset + size) (write matches i here) converted matches' m'
      → Matched (suc n) i buffer offset matches m matches' m'
  unfolding write match_offset
  Matched-round matches' m' u = record {
    points = points-round matches' m' u;
    kept = λ k h. let apart : (k == i) ≡ false = ground arith in u.kept k (omega arith) ∙ rw apart;
    spared = λ a h. u.spared a (omega arith) ∙ convert_match_front m here a (omega arith);
    behind = λ a h.
        let past = match_offset_ge m buffer (offset + size) n in
        u.behind a (rw (later_same n) h) ∙ convert_match_behind m here a (omega arith);
  }

-- The loop always ends with all n pointers, if the offset does not wrap.
pub unpack_matches_lem :
    (n i : ℕ) (buffer : Ptr) (offset : ℕ) (matches : ℕ → Ptr) (m : Mem)
    → offset + 646 * n < 2 ^ 16
    → (matches' : ℕ → Ptr) × (m' : Mem) × (unpack_matches n i buffer offset matches m
        ≡ some ((matches', match_offset m buffer offset n), m'))
      × Matched n i buffer offset matches m matches' m'
unfolding unpack_matches match_offset
unpack_matches_lem zero i buffer offset matches m fits = (
  matches,
  m,
  refl,
  record {
    points = λ k h. absurd (omega arith);
    kept = λ k h. refl;
    spared = λ a h. refl;
    behind = λ a h. refl;
  },
)
unpack_matches_lem (suc n) i buffer offset matches m fits =
    let small = match_size_le (m (buffer + offset + 128)) in
    let (matches', m', e, u) =
      unpack_matches_lem n (i + 1) buffer (offset + size n i buffer offset matches m)
        (write matches i (buffer + offset)) (converted n i buffer offset matches m) (omega arith) in
    (
      matches',
      m',
      unpack_matches-round n i buffer offset matches m (omega arith)
          ∙ e
          ∙ ap (λ o. some ((matches', o), m')) (later_same n i buffer offset matches m n),
      Matched-round n i buffer offset matches m matches' m' u,
    )
