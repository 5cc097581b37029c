-- ===== src/Memory/Copy.antt =====
-- `memcpy` between two objects.
use macsad.Prelude.{ℕ, ◌+◌, ◌-◌, ◌<◌, ◌≡◌, ◌&&◌, arith, ltb, leb, if◌then◌else◌}
use macsad.Memory.{Mem, Ptr}

-- `memcpy(g + p, m + q, n)`
unfoldable pub copy : Mem → Ptr → Mem → Ptr → ℕ → Mem
copy g p m q n a = if leb p a && ltb a (p + n) then m (q + (a - p)) else g a

pub copy_inside : (g m : Mem) (n : ℕ) (a : Ptr) → a < n → copy g 0 m 0 n a ≡ m (0 + (a - 0))
unfolding copy
copy_inside g m n a h = ground arith
