-- ===== src/Memory.antt =====
-- Bytes behind `char*` and `void*`: a C object in memory is read and written through its offset.
-- A message buffer is a memory of its own, addressed from 0; a struct pointer into it is the
-- address of the struct's first byte. The host is little-endian. Values are kept as bytes below
-- 256, so a store of a wider value writes its bytes. An access through NULL is a fault, `none`.
pub mod Laws
pub mod Copy
pub mod ByteOrder
pub mod Confined
use Prim.Native.Char.{code}
use Prim.Native.String.{String}
use macsad.Prelude.{
  ℕ, zero, suc, ◌+◌, ◌-◌, ◌*◌, ◌/◌, ◌%◌, ◌^◌, Bool, true, ◌&&◌, Option, none, some, List, [], ◌∷◌,
  ◌++◌, ltb, leb, ◌==◌, if◌then◌else◌, length, get_or,
}

abbrev pub Mem : Type 0
Mem = ℕ → ℕ

abbrev pub Ptr : Type 0
Ptr = ℕ

-- A command on memory; `none` is a fault. The memory has no bounds: an access behind the end of a
-- buffer is none.
abbrev pub Cmd {ℓ} : Type ℓ → Type ℓ
Cmd A = Mem → Option (A × Mem)

infixl 5 ◌>>=◌ ◌>>◌
abbrev pub ◌>>=◌ {ℓ κ} : {A : Type ℓ} {B : Type κ} → Cmd A → (A → Cmd B) → Cmd B
◌>>=◌ c f m = elim (c m) [ none ↦ none | some (a, m') ↦ f a m' ]

abbrev pub ◌>>◌ {ℓ κ} : {A : Type ℓ} {B : Type κ} → Cmd A → Cmd B → Cmd B
c >> d = c >>= λ _. d

abbrev pub pure {ℓ} : {A : Type ℓ} → A → Cmd A
pure a m = some (a, m)

-- The first access through a pointer that may be NULL.
abbrev pub nonnull : Option Ptr → Cmd Ptr
nonnull none m = none
nonnull (some p) m = some (p, m)

unfoldable pub write : Mem → Ptr → ℕ → Mem
write m p v a = if a == p then v else m a

-- `memcpy(p, bs, sizeof bs)`
unfoldable pub write_bytes : Mem → Ptr → List ℕ → Mem
write_bytes m p bs a = if leb p a && ltb a (p + length bs) then get_or bs (a - p) 0 else m a

-- The `n` bytes from `p` on.
unfoldable pub read_bytes : Mem → Ptr → ℕ → List ℕ
read_bytes m p zero = []
read_bytes m p (suc n) = m p ∷ read_bytes m (p + 1) n

unfoldable pub load16 : Mem → Ptr → ℕ
load16 m p = m p + 256 * m (p + 1)

unfoldable pub load32 : Mem → Ptr → ℕ
load32 m p = m p + 256 * m (p + 1) + 65536 * m (p + 2) + 16777216 * m (p + 3)

unfoldable pub put16 : Mem → Ptr → ℕ → Mem
unfolding write
put16 m p v = write (write m p (v % 256)) (p + 1) (v / 256 % 256)

unfoldable pub put32 : Mem → Ptr → ℕ → Mem
unfolding write
put32 m p v =
    write (write (write (write m p (v % 256)) (p + 1) (v / 256 % 256)) (p + 2) (v / 65536 % 256))
      (p + 3) (v / 16777216 % 256)

abbrev pub get8 : Ptr → Cmd ℕ
get8 p m = some (m p, m)

abbrev pub get16 : Ptr → Cmd ℕ
get16 p m = some (load16 m p, m)

abbrev pub get32 : Ptr → Cmd ℕ
get32 p m = some (load32 m p, m)

abbrev pub store8 : Ptr → ℕ → Cmd (Unit {0})
store8 p v m = some (tt, write m p (v % 256))

abbrev pub store16 : Ptr → ℕ → Cmd (Unit {0})
store16 p v m = some (tt, put16 m p v)

abbrev pub store32 : Ptr → ℕ → Cmd (Unit {0})
store32 p v m = some (tt, put32 m p v)

abbrev pub memcpy : Ptr → List ℕ → Cmd (Unit {0})
memcpy p bs m = some (tt, write_bytes m p bs)

-- The bytes of a string literal, which is ASCII.
abbrev pub codes : String → List ℕ
codes String.[] = []
codes (String.◌∷◌ c s) = code c ∷ codes s

abbrev pub strcpy : Ptr → String → Cmd (Unit {0})
strcpy p s = memcpy p (codes s ++ 0 ∷ [])

-- `strcmp(p, s) == 0` for a literal `s`.
unfoldable pub string_at : Mem → Ptr → List ℕ → Bool
string_at m p [] = m p == 0
string_at m p (c ∷ cs) = m p == c && string_at m (p + 1) cs
