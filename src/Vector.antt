-- ===== src/Vector.antt =====
-- shared/data_plane/vector.c: an array of pointers that grows. `V` stands for the pointers that are not
-- NULL. `none` is the fault of an access behind the allocated memory. An `int` is its bit pattern;
-- an index is an integer.
pub mod Grow
pub mod Set
use macsad.Prelude.{
  ℕ, zero, suc, ◌+◌, ◌-◌, ◌*◌, ◌/◌, ◌%◌, ◌^◌, Bool, true, false, Option, none, some, ltb, leb, ◌==◌,
  if◌then◌else◌, ◌and_then◌,
}
use macsad.Prelude.Int.{ℤ, pos, negsuc}

-- `vector_t`; `room` is the number of pointers of 8 bytes that the memory behind `data` has.
pub record Vector (V : Type 0) : Type 0 where
  pub size : ℕ
  pub capacity : ℕ
  pub data_size : ℕ
  pub room : ℕ
  pub elements : ℕ → Option V

-- `elements` is the field `data`.
module _ {V : Type 0} where
  -- `vector->data[i] = value`
  unfoldable pub store : Vector V → ℕ → Option V → Option (Vector V)
  store v i value =
      if ltb i v.room
      then some (record v { elements = λ j. if j == i then value else v.elements j })
      else none

  -- The result is NULL for an index out of range.
  unfoldable pub vector_get : Vector V → ℤ → Option (Option V)
  vector_get v (negsuc i) = some none
  vector_get v (pos i) =
      if leb v.size i then some none else if ltb i v.room then some (v.elements i) else none

-- The element that is allocated and initialised for an index is a
-- parameter, as is what fresh memory holds.
module _ {V : Type 0} (made junk : ℕ → Option V) where
  -- The elements from `from` on, of which `n` are left.
  unfoldable pub vector_init_elements : Vector V → ℕ → ℕ → Option (Vector V)
  unfolding store
  vector_init_elements v from zero = some v
  vector_init_elements v from (suc n) =
      store v from (made from) and_then (λ v'. vector_init_elements v' (from + 1) n)

  unfoldable pub vector_init : ℕ → ℕ → ℕ → Option (Vector V)
  unfolding vector_init_elements
  vector_init size capacity data_size =
      vector_init_elements
        (record {
          size = size;
          capacity = capacity;
          data_size = data_size;
          room = capacity;
          elements = junk;
        })
        0 size

  -- The new memory is measured in elements of `data_size` bytes.
  unfoldable pub vector_double_capacity_if_full : Vector V → Option (Vector V)
  unfolding vector_init_elements
  vector_double_capacity_if_full v =
      if leb v.capacity v.size
      then (let capacity = (v.capacity * 2) % 2 ^ 32 in
          vector_init_elements
            (record v {
              capacity = capacity;
              room = (v.data_size * capacity) % 2 ^ 32 / 8;
              elements = λ j. if ltb j v.room then v.elements j else junk j;
            })
            v.capacity (capacity - v.capacity))
      else some v

  unfoldable pub vector_append : Vector V → Option V → Option (Vector V)
  unfolding vector_double_capacity_if_full store
  vector_append v value =
      vector_double_capacity_if_full v
      and_then (λ v'. store (record v' { size = (v'.size + 1) % 2 ^ 32 }) v'.size value)

  -- The loop of `vector_set`, on fuel.
  unfoldable pub fill_up : ℕ → Vector V → ℕ → Option (Vector V)
  unfolding vector_append
  fill_up zero v index = some v
  fill_up (suc fuel) v index =
      let rest = vector_append v none and_then (λ v'. fill_up fuel v' index) in
      if leb v.size index then rest else some v

  -- Each round of the loop makes `size` one larger, so that `index + 1` rounds are enough. A negative
  -- index is in front of the memory.
  unfoldable pub vector_set : Vector V → ℤ → Option V → Option (Vector V)
  unfolding fill_up store
  vector_set v (negsuc i) value = none
  vector_set v (pos i) value = fill_up (i + 1) v i and_then (λ v'. store v' i value)
