-- ===== src/Memory/ByteOrder.antt =====
-- `htons`, `ntohs`, `htonl` and `ntohl` on a little-endian host: the bytes in reverse order.
use macsad.Prelude.{ℕ, ◌+◌, ◌*◌, ◌/◌, ◌%◌, ◌^◌, ◌<◌, ◌≡◌, arith}

unfoldable pub htons : ℕ → ℕ
htons x = 256 * (x % 256) + x / 256 % 256

unfoldable pub htonl : ℕ → ℕ
htonl x =
    16777216 * (x % 256) + 65536 * (x / 256 % 256) + 256 * (x / 65536 % 256) + x / 16777216 % 256

unfoldable pub ntohs : ℕ → ℕ
unfolding htons
ntohs x = htons x

pub htons-htons : (x : ℕ) → x < 2 ^ 16 → htons (htons x) ≡ x
unfolding htons
htons-htons x h = omega arith

pub htonl-htonl : (x : ℕ) → x < 2 ^ 32 → htonl (htonl x) ≡ x
unfolding htonl
htonl-htonl x h = omega arith
