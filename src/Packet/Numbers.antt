-- ===== src/Packet/Numbers.antt =====
-- src/intercom_srv.c: `assemble16` and `assemble32` against the reads.
use snapcastc.Base.{ℕ, ◌+◌, ◌*◌, ◌/◌, ◌%◌, ◌<◌, ◌≡◌, ◌↔◌, refl, arith}
use snapcastc.Packet.{get_nonce, nonce_max}
use snapcastc.Base.{some}

pub high_low16 : (x : ℕ) → x < 65536 → x / 256 % 256 * 256 + x % 256 ≡ x
high_low16 x h = omega arith

pub high_low32 :
    (x : ℕ)
    → x < 4294967296
    → x / 16777216 % 256 * 16777216 + x / 65536 % 256 * 65536 + x / 256 % 256 * 256 + x % 256 ≡ x
high_low32 x h = omega arith

-- The counter of a sender, after a call of `get_nonce`.
abbrev pub next_counter : ℕ → ℕ
next_counter n = (n + 1) % 4294967296

-- Of a 32-bit counter `get_nonce` makes the counter's own value, but for its last value, of which it
-- makes 0; two packets in a row have the same number exactly at that last value, since the counter
-- then goes on at 0.
pub get_nonce_numbers :
    (n : ℕ)
    → n < 4294967296
    → ((get_nonce (some n)).1 ≡ some (next_counter n))
      × (n < nonce_max → (get_nonce (some n)).0 ≡ n)
      × (((get_nonce (some n)).0 ≡ (get_nonce (some (next_counter n))).0) ↔ (n ≡ nonce_max))
unfolding get_nonce
get_nonce_numbers n h = (refl, λ k. omega arith, (λ e. omega arith, λ e. omega arith))
