-- ===== src/Vector/Set.antt =====
-- shared/data_plane/vector.c: `vector_set` and `vector_get`.
use macsad.Prelude.{
  ℕ, zero, suc, ◌≡◌, ◌≢◌, ◌∙◌, ◌<◌, ◌≤◌, ◌+◌, ◌^◌, ◌==◌, true, false, none, some, Option, refl, sym,
  ap, arith, subst, ltb, leb, if◌then◌else◌, Ends, Ends-and_then, Bool-cases, inl, inr,
}
use macsad.Prelude.Int.{pos}
use macsad.Vector.{Vector, vector_append, vector_get, fill_up, vector_set}
use macsad.Vector.Grow.{IsRoomy, IsAppended, vector_append-IsAppended, store_lem}

module _ {V : Type 0} (made junk : ℕ → Option V) where
  -- The vector has an element for the index; those that were added are NULL.
  record IsFilled (v : Vector V) (index : ℕ) (w : Vector V) : Type 0 where
    pub roomy : IsRoomy made junk w
    pub reaches : index < w.size
    pub grows : v.size ≤ w.size
    pub below : (j : ℕ) → j < v.size → w.elements j ≡ v.elements j
    pub added : (j : ℕ) → v.size ≤ j → j < w.size → w.elements j ≡ none

  fill_one :
      (v v1 w : Vector V) (index : ℕ)
      → IsAppended made junk v none v1
      → IsFilled v1 index w
      → IsFilled v index w
  fill_one v v1 w index a f =
      let n = a.size in
      let g = f.grows in
      record {
        roomy = f.roomy;
        reaches = f.reaches;
        grows = omega arith;
        below = λ j l. f.below j (omega arith) ∙ a.below j l;
        added = λ j h l. elim (Bool-cases (j == v.size)) [
          | inl e ↦
              let here : v.size ≡ j = ground arith in
              subst (λ i. w.elements i ≡ none) here (f.below v.size (omega arith) ∙ a.last)
          | inr e ↦ f.added j (ground arith) l
        ];
      }

  fill_up-IsFilled :
      (fuel : ℕ) (v : Vector V) (index : ℕ)
      → IsRoomy made junk v
      → index < v.size + fuel
      → index < 2 ^ 24
      → Ends (fill_up made junk fuel v index) (IsFilled v index)
  unfolding fill_up
  fill_up-IsFilled zero v index r enough b = (
    v,
    refl,
    record {
      roomy = r;
      reaches = omega arith;
      grows = omega arith;
      below = λ j l. refl;
      added = λ j h l. absurd (omega arith);
    },
  )
  fill_up-IsFilled (suc fuel) v index r enough b = elim (Bool-cases (leb v.size index)) [
    | inl h ↦ rw h (
        Ends-and_then (vector_append made junk v none) _ (IsFilled v index)
          (vector_append-IsAppended made junk v none r (ground arith))
          (λ v1 a.
            let n = a.size in
            let (w, e, f) = fill_up-IsFilled fuel v1 index a.roomy (omega arith) b in
            (w, e, fill_one v v1 w index a f)))
    | inr h ↦ rw h (
      v,
      refl,
      record {
        roomy = r;
        reaches = ground arith;
        grows = omega arith;
        below = λ j l. refl;
        added = λ j h l. absurd (omega arith);
      },
    )
  ]

  get-inside :
      (v : Vector V) (i : ℕ)
      → IsRoomy made junk v
      → i < v.size
      → vector_get v (pos i) ≡ some (v.elements i)
  unfolding vector_get
  get-inside v i r h =
      let fits = r.fits in
      let room = r.room in
      let short : leb v.size i ≡ false = ground arith in
      let inside : ltb i v.room ≡ true = ground arith in rw (short, inside) refl

  get-outside : (v : Vector V) (i : ℕ) → v.size ≤ i → vector_get v (pos i) ≡ some none
  unfolding vector_get
  get-outside v i h = let long : leb v.size i ≡ true = ground arith in rw long refl

  -- What `vector_set` leaves: the value at the index, and elsewhere what was there.
  pub record IsWritten (v : Vector V) (i : ℕ) (value : Option V) (w : Vector V) : Type 0 where
    pub roomy : IsRoomy made junk w
    pub here : vector_get w (pos i) ≡ some value
    pub others : (j : ℕ) → j ≢ i → vector_get w (pos j) ≡ vector_get v (pos j)

  same_get :
      (v w : Vector V) (i j : ℕ)
      → IsRoomy made junk v
      → IsFilled v i w
      → vector_get w (pos j) ≡ vector_get v (pos j)
  same_get v w i j r f = elim (Bool-cases (ltb j v.size)) [
    | inl h ↦
        let l : j < v.size = ground arith in
        let g = f.grows in
        get-inside w j f.roomy (omega arith) ∙ ap some (f.below j l) ∙ sym (get-inside v j r l)
    | inr h ↦
        let l : v.size ≤ j = ground arith in
        elim (Bool-cases (ltb j w.size)) [
          | inl k ↦
              let m : j < w.size = ground arith in
              get-inside w j f.roomy m ∙ ap some (f.added j l m) ∙ sym (get-outside v j l)
          | inr k ↦ get-outside w j (ground arith) ∙ sym (get-outside v j l)
        ]
  ]

  stored_get :
      (w : Vector V) (i j : ℕ) (value : Option V)
      → j ≢ i
      → vector_get (record w { elements = λ k. if k == i then value else w.elements k }) (pos j)
        ≡ vector_get w (pos j)
  unfolding vector_get
  stored_get w i j value d = let off : (j == i) ≡ false = ground arith in rw off refl

  -- For a vector of pointers (a data_size of 8) with a capacity above 0 and at most 2 ^ 25, a size of
  -- at most the capacity and memory for it, and an index below 2 ^ 24, `vector_set` ends, whether or
  -- not the vector has to grow; `vector_get` then returns the value at the index and at
  -- every other one what it returned before, NULL out of range.
  pub vector_set-IsWritten :
      (v : Vector V) (i : ℕ) (value : Option V)
      → IsRoomy made junk v
      → i < 2 ^ 24
      → Ends (vector_set made junk v (pos i) value) (IsWritten v i value)
  unfolding vector_set
  vector_set-IsWritten v i value r b =
      Ends-and_then (fill_up made junk (i + 1) v i) _ (IsWritten v i value)
        (fill_up-IsFilled (i + 1) v i r (omega arith) b)
        (λ w f.
          let roomy = f.roomy in
          let fits = roomy.fits in
          let room = roomy.room in
          let reaches = f.reaches in
          let w1 : Vector V = record w { elements = λ j. if j == i then value else w.elements j } in
          let roomy1 : IsRoomy made junk w1 = record {
            fits = fits;
            some_room = roomy.some_room;
            limit = roomy.limit;
            room = room;
            pointers = roomy.pointers;
          } in
          (
            w1,
            store_lem made junk w i value (omega arith),
            record {
              roomy = roomy1;
              here =
                  get-inside w1 i roomy1 reaches
                  ∙ (let on : (i == i) ≡ true = ground arith in rw on refl);
              others = λ j d. stored_get w i j value d ∙ same_get v w i j r f;
            },
          ))
