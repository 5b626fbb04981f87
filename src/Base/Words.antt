-- ===== src/Base/Words.antt =====
-- Machine words as native numbers, and the byte order of the network on a little-endian host.
use Prim.Native.Nat.{ℕ, ◌+◌, ◌*◌, ◌/◌, ◌%◌, ◌<◌}
use mathlib.Core.Path.{◌≡◌}
use native.Mathlib.Omega.{arith}

abbrev pub u8_mod : ℕ
u8_mod = 256

abbrev pub u16_mod : ℕ
u16_mod = 65536

abbrev pub u32_mod : ℕ
u32_mod = 4294967296

abbrev pub u64_mod : ℕ
u64_mod = 18446744073709551616

-- `htons` and `ntohs`: the two bytes change places.
unfoldable pub htons : ℕ → ℕ
htons x = x % 256 * 256 + x / 256 % 256

-- `htonl` and `ntohl`: the four bytes in reverse.
unfoldable pub htonl : ℕ → ℕ
htonl x = x % 256 * 16777216 + x / 256 % 256 * 65536 + x / 65536 % 256 * 256 + x / 16777216 % 256

pub htons_involutive : (x : ℕ) → x < u16_mod → htons (htons x) ≡ x
unfolding htons
htons_involutive x h = omega arith

pub htonl_involutive : (x : ℕ) → x < u32_mod → htonl (htonl x) ≡ x
unfolding htonl
htonl_involutive x h = omega arith

pub htonl-lt : (x : ℕ) → htonl x < u32_mod
unfolding htonl
htonl-lt x = omega arith

pub htons-lt : (x : ℕ) → htons x < u16_mod
unfolding htons
htons-lt x = omega arith
