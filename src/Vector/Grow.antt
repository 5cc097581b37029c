-- ===== src/Vector/Grow.antt =====
-- shared/data_plane/vector.c: appending, with the memory that grows.
use macsad.Prelude.{
  ℕ, zero, suc, ◌≡◌, ◌≢◌, ◌∙◌, ◌<◌, ◌≤◌, ◌+◌, ◌-◌, ◌*◌, ◌/◌, ◌%◌, ◌^◌, ◌==◌, Bool, true, false,
  some, Option, refl, sym, ap, arith, subst, ltb, leb, if◌then◌else◌, Ends, Ends-and_then,
  ◌and_then◌, Bool-cases, inl, inr,
}
use macsad.Vector.{
  Vector, store, vector_init, vector_init_elements, vector_double_capacity_if_full, vector_append,
}

module _ {V : Type 0} (made junk : ℕ → Option V) where
  -- The memory has room for all elements, which are pointers of 8 bytes.
  pub record IsRoomy (v : Vector V) : Type 0 where
    pub fits : v.size ≤ v.capacity
    pub some_room : 0 < v.capacity
    pub limit : v.capacity ≤ 2 ^ 25
    pub room : v.capacity ≤ v.room
    pub pointers : v.data_size ≡ 8

  -- The same vector but for the elements from `from` on.
  record IsKept (v : Vector V) (from : ℕ) (v' : Vector V) : Type 0 where
    pub size : v'.size ≡ v.size
    pub capacity : v'.capacity ≡ v.capacity
    pub data_size : v'.data_size ≡ v.data_size
    pub room : v'.room ≡ v.room
    pub below : (j : ℕ) → j < from → v'.elements j ≡ v.elements j

  pub store_lem :
      (v : Vector V) (i : ℕ) (x : Option V)
      → i < v.room
      → store v i x ≡ some (record v { elements = λ j. if j == i then x else v.elements j })
  unfolding store
  store_lem v i x h = let inside : ltb i v.room ≡ true = ground arith in rw inside refl

  pub stored-other :
      (v : Vector V) (i j : ℕ) (x : Option V)
      → j ≢ i
      → (if j == i then x else v.elements j) ≡ v.elements j
  stored-other v i j x d = let off : (j == i) ≡ false = ground arith in rw off refl

  if_true : {A : Type 0} {b : Bool} {x : A} (y : A) → b ≡ true → (if b then x else y) ≡ x
  if_true y h = rw h refl

  init_elements-IsKept :
      (n : ℕ) (v : Vector V) (from : ℕ)
      → from + n ≤ v.room
      → Ends (vector_init_elements made junk v from n) (IsKept v from)
  unfolding vector_init_elements
  init_elements-IsKept zero v from h = (
    v,
    refl,
    record { size = refl; capacity = refl; data_size = refl; room = refl; below = λ j l. refl },
  )
  init_elements-IsKept (suc n) v from h =
      let v1 : Vector V = record v {
        elements = λ j. if j == from then made from else v.elements j;
      } in
      let (v', e, k) = init_elements-IsKept n v1 (from + 1) (omega arith) in
      (
        v',
        ap (λ o. o and_then (λ w. vector_init_elements made junk w (from + 1) n))
              (store_lem v from (made from) (omega arith))
            ∙ e,
        record {
          size = k.size;
          capacity = k.capacity;
          data_size = k.data_size;
          room = k.room;
          below =
              λ j l. k.below j (omega arith) ∙ stored-other v from j (made from) (λ q. omega arith);
        },
      )

  -- A vector with the elements of `v`, and room for one more.
  record IsGrown (v v' : Vector V) : Type 0 where
    pub roomy : IsRoomy v'
    pub size : v'.size ≡ v.size
    pub more : v'.size < v'.capacity
    pub below : (j : ℕ) → j < v.size → v'.elements j ≡ v.elements j

  double-IsGrown :
      (v : Vector V)
      → IsRoomy v
      → v.size ≤ 2 ^ 24
      → Ends (vector_double_capacity_if_full made junk v) (IsGrown v)
  unfolding vector_double_capacity_if_full
  double-IsGrown v r b = elim (Bool-cases (leb v.capacity v.size)) [
    | inr h ↦
        rw h (v, refl, record { roomy = r; size = refl; more = ground arith; below = λ j l. refl })
    | inl h ↦
        let capacity = (v.capacity * 2) % 2 ^ 32 in
        let d = r.pointers in
        let limit = r.limit in
        let filled = r.fits in
        let full : v.capacity ≡ v.size = ground arith in
        let positive = r.some_room in
        let double : capacity ≡ v.capacity * 2 = omega arith in
        let room : (v.data_size * capacity) % 2 ^ 32 / 8 ≡ capacity =
          subst (λ s. (s * capacity) % 2 ^ 32 / 8 ≡ capacity) (sym d) (omega arith) in
        let inside : v.capacity ≤ v.room = r.room in
        let v1 : Vector V = record v {
          capacity = capacity;
          room = (v.data_size * capacity) % 2 ^ 32 / 8;
          elements = λ j. if ltb j v.room then v.elements j else junk j;
        } in
        let (v', e, k) = init_elements-IsKept (capacity - v.capacity) v1 v.capacity (omega arith) in
        let new_size = k.size in
        let new_capacity = k.capacity in
        let new_room = k.room in
        (
          v',
          if_true _ h ∙ e,
          record {
            roomy = record {
              fits = omega arith;
              some_room = omega arith;
              limit = omega arith;
              room = omega arith;
              pointers = k.data_size ∙ d;
            };
            size = k.size;
            more = omega arith;
            below = λ j l. k.below j (omega arith) ∙ old j (omega arith);
          },
        )
  ]
    where
      old : (j : ℕ) → j < v.room → (if ltb j v.room then v.elements j else junk j) ≡ v.elements j
      old j l = let inside : ltb j v.room ≡ true = ground arith in rw inside refl

  -- `value` behind the other elements.
  pub record IsAppended (v : Vector V) (value : Option V) (v' : Vector V) : Type 0 where
    pub roomy : IsRoomy v'
    pub size : v'.size ≡ v.size + 1
    pub last : v'.elements v.size ≡ value
    pub below : (j : ℕ) → j < v.size → v'.elements j ≡ v.elements j

  pub vector_append-IsAppended :
      (v : Vector V) (value : Option V)
      → IsRoomy v
      → v.size ≤ 2 ^ 24
      → Ends (vector_append made junk v value) (IsAppended v value)
  unfolding vector_append
  vector_append-IsAppended v value r b =
      Ends-and_then (vector_double_capacity_if_full made junk v) _ (IsAppended v value)
        (double-IsGrown v r b)
        (λ w g.
          let same = g.size in
          let more = g.more in
          let roomy = g.roomy in
          let room = roomy.room in
          let next : (w.size + 1) % 2 ^ 32 ≡ w.size + 1 = omega arith in
          let w1 : Vector V = record w { size = (w.size + 1) % 2 ^ 32 } in
          (
            record w1 { elements = λ j. if j == w.size then value else w.elements j },
            store_lem w1 w.size value (omega arith),
            record {
              roomy = record {
                fits = omega arith;
                some_room = roomy.some_room;
                limit = roomy.limit;
                room = room;
                pointers = roomy.pointers;
              };
              size = omega arith;
              last = let here : (v.size == w.size) ≡ true = ground arith in rw here refl;
              below = λ j l. stored-other w w.size j value (λ q. omega arith) ∙ g.below j l;
            },
          ))

  -- A vector as `vector_init` leaves it.
  pub vector_init-IsRoomy :
      (size capacity : ℕ)
      → size ≤ capacity
      → 0 < capacity
      → capacity ≤ 2 ^ 25
      → Ends (vector_init made junk size capacity 8) (λ v. IsRoomy v × (v.size ≡ size))
  unfolding vector_init
  vector_init-IsRoomy size capacity h p l =
      let v0 : Vector V = record {
        size = size;
        capacity = capacity;
        data_size = 8;
        room = capacity;
        elements = junk;
      } in
      let (v, e, k) = init_elements-IsKept size v0 0 (omega arith) in
      let s = k.size in
      let c = k.capacity in
      let r = k.room in
      (
        v,
        e,
        (
          record {
            fits = omega arith;
            some_room = omega arith;
            limit = omega arith;
            room = omega arith;
            pointers = k.data_size;
          },
          s,
        ),
      )
