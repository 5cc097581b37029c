-- ===== src/Memory/Laws.antt =====
-- Loads after stores, and what a store leaves alone.
use macsad.Prelude.{
  ℕ, zero, suc, ◌+◌, ◌-◌, ◌^◌, ◌≤◌, ◌<◌, ◌≡◌, ◌≢◌, ◌⊎◌, refl, List, ◌∷◌, arith, length, get_or, ap₂,
  ap,
}
use macsad.Memory.{Mem, Ptr, write, write_bytes, read_bytes, load16, load32, put16, put32}

-- Every cell of the memory is a byte.
abbrev pub IsBytes : Mem → Type 0
IsBytes m = (a : Ptr) → m a < 256

pub load16-put16 : (m : Mem) (p : Ptr) (v : ℕ) → v < 2 ^ 16 → load16 (put16 m p v) p ≡ v
unfolding load16 put16
load16-put16 m p v h = ground arith

pub load16-put16_other :
    (m : Mem) (p q : Ptr) (v : ℕ) → (q + 2 ≤ p) ⊎ (p + 2 ≤ q) → load16 (put16 m p v) q ≡ load16 m q
unfolding load16 put16
load16-put16_other m p q v h = ground arith

pub load32-put32 : (m : Mem) (p : Ptr) (v : ℕ) → v < 2 ^ 32 → load32 (put32 m p v) p ≡ v
unfolding load32 put32
load32-put32 m p v h = ground arith

pub put16_outside :
    (m : Mem) (p : Ptr) (v : ℕ) (a : Ptr) → (a < p) ⊎ (p + 2 ≤ a) → put16 m p v a ≡ m a
unfolding put16
put16_outside m p v a h = ground arith

pub put32_outside :
    (m : Mem) (p : Ptr) (v : ℕ) (a : Ptr) → (a < p) ⊎ (p + 4 ≤ a) → put32 m p v a ≡ m a
unfolding put32
put32_outside m p v a h = ground arith

pub write_outside : (m : Mem) (p : Ptr) (v : ℕ) (a : Ptr) → a ≢ p → write m p v a ≡ m a
unfolding write
write_outside m p v a h = ground arith

pub write_bytes_inside :
    (m : Mem) (p : Ptr) (bs : List ℕ) (a : Ptr)
    → p ≤ a
    → a < p + length bs
    → write_bytes m p bs a ≡ get_or bs (a - p) 0
unfolding write_bytes
write_bytes_inside m p bs a lo hi = ground arith

pub write_bytes_outside :
    (m : Mem) (p : Ptr) (bs : List ℕ) (a : Ptr)
    → (a < p) ⊎ (p + length bs ≤ a)
    → write_bytes m p bs a ≡ m a
unfolding write_bytes
write_bytes_outside m p bs a h = ground arith

pub length-read_bytes : (m : Mem) (p : Ptr) (n : ℕ) → length (read_bytes m p n) ≡ n
unfolding read_bytes
length-read_bytes m p zero = refl
length-read_bytes m p (suc n) = ap suc (length-read_bytes m (p + 1) n)

-- Memories that agree on a range read the same bytes there.
pub read_bytes_cong :
    (m g : Mem) (p : Ptr) (n : ℕ)
    → ((a : Ptr) → p ≤ a → a < p + n → m a ≡ g a)
    → read_bytes m p n ≡ read_bytes g p n
unfolding read_bytes
read_bytes_cong m g p zero h = refl
read_bytes_cong m g p (suc n) h =
    ap₂ ◌∷◌ (h p (omega arith) (omega arith))
      (read_bytes_cong m g (p + 1) n λ a lo hi. h a (omega arith) (omega arith))
