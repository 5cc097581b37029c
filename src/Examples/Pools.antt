-- ===== src/Examples/Pools.antt =====
-- A backend of three cells, of which two have been taken.
use macsad.Prelude.{ℕ, ◌+◌, ◌≡◌, some, [], ◌∷◌, length, arith}
use macsad.Prelude.Int.{pos}
use macsad.Memory.{Mem}
use macsad.Fifo.{Fifo}
use macsad.Backend.{Backend, touch_mem_cell, detouch_mem_cell}
use macsad.Backend.Pool.{IsPool, touch_mem_cell-IsPool}
use macsad.Backend.Release.{detouch_mem_cell-IsPool}
use macsad.Backend.Create.{Started, create_backend, ready, countdown, create_backend-Started}
use macsad.Backend.Reach.{Reachable, created, touched, Reachable-IsPool}

abbrev junk : ℕ → Mem
junk i a = 165

abbrev dirty : Fifo ℕ
dirty = record { queue = λ i. 165; head = 165; size = 165; tail = 165 }

abbrev old : Backend
old = record {
  cells = λ x. record { data_bytes = junk 0; size = 165; next = some 165; prev = some 165 };
  unused_head = some 165;
  used_head = some 165;
  input_queue = dirty;
  output_queue = dirty;
}

create_backend-Started_example :
    (bg' : Backend) × (create_backend (ready junk) junk (pos 3) (pos 3) old ≡ some bg')
    × Started bg' 3
create_backend-Started_example = create_backend-Started junk 2 2 old (omega arith)

abbrev three_cells : Backend
three_cells = (create_backend-Started junk 2 2 old (omega arith)).0

abbrev two_taken : Backend
two_taken = (touch_mem_cell (touch_mem_cell three_cells).1).1

two_taken-Reachable : Reachable 3 two_taken (1 ∷ 2 ∷ []) (0 ∷ [])
unfolding countdown
two_taken-Reachable = touched (touch_mem_cell three_cells).1 (2 ∷ []) (1 ∷ 0 ∷ []) (
    touched three_cells [] (2 ∷ 1 ∷ 0 ∷ [])
      (created three_cells (create_backend-Started junk 2 2 old (omega arith)).2))

two_taken-IsPool : IsPool two_taken (1 ∷ 2 ∷ []) (0 ∷ [])
two_taken-IsPool = (Reachable-IsPool 3 two_taken (1 ∷ 2 ∷ []) (0 ∷ []) two_taken-Reachable).0

Reachable-IsPool_example :
    IsPool two_taken (1 ∷ 2 ∷ []) (0 ∷ [])
    × (length {A = ℕ} (1 ∷ 2 ∷ []) + length {A = ℕ} (0 ∷ []) ≡ 3)
Reachable-IsPool_example = Reachable-IsPool 3 two_taken (1 ∷ 2 ∷ []) (0 ∷ []) two_taken-Reachable

touch_mem_cell-IsPool_example :
    let (cell, bg') = touch_mem_cell two_taken in (cell ≡ some 0) × IsPool bg' (0 ∷ 1 ∷ 2 ∷ []) []
touch_mem_cell-IsPool_example =
    touch_mem_cell-IsPool two_taken (1 ∷ 2 ∷ []) (0 ∷ []) two_taken-IsPool

-- The cell that was taken first is behind the other one.
detouch_mem_cell-IsPool_example :
    (bg' : Backend) × (detouch_mem_cell two_taken 2 ≡ some bg') × IsPool bg' (1 ∷ []) (2 ∷ 0 ∷ [])
detouch_mem_cell-IsPool_example =
    detouch_mem_cell-IsPool two_taken 2 (1 ∷ []) [] (0 ∷ []) two_taken-IsPool
