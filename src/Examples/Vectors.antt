-- ===== src/Examples/Vectors.antt =====
-- A vector of two pointers, of which one is used, that has to grow.
use macsad.Prelude.{ℕ, ◌+◌, some, Option, arith, Ends}
use macsad.Prelude.Int.{pos}
use macsad.Vector.{Vector, vector_set}
use macsad.Vector.Grow.{IsRoomy, vector_init-IsRoomy}
use macsad.Vector.Set.{IsWritten, vector_set-IsWritten}

abbrev counters : ℕ → Option ℕ
counters i = some (1000 + i)

abbrev junk : ℕ → Option ℕ
junk i = some 165

abbrev one_used : Vector ℕ
one_used = (vector_init-IsRoomy counters junk 1 2 (omega arith) (omega arith) (omega arith)).0

one_used-IsRoomy : IsRoomy counters junk one_used
one_used-IsRoomy =
    (vector_init-IsRoomy counters junk 1 2 (omega arith) (omega arith) (omega arith)).2.0

vector_set-IsWritten_example :
    Ends
      (vector_set counters junk one_used (pos 5) (some 7))
      (IsWritten counters junk one_used 5 (some 7))
vector_set-IsWritten_example =
    vector_set-IsWritten counters junk one_used 5 (some 7) one_used-IsRoomy (omega arith)
