-- ===== src/Intercom/Packets.antt =====
-- src/intercom_client.c and intercom_srv.c: searches by number.
use snapcastc.Base.{
  true, ◌≤◌, ℕ, ◌+◌, ◌-◌, ◌==◌, ◌≡◌, refl, false, List, [], ◌∷◌, ◌++◌, some, arith, if◌then◌else◌,
}
use snapcastc.Packet.{AudioPacket}
use snapcastc.Intercom.{is_found, find_packet, delete_packet}

-- How many of the packets have this number.
abbrev pub count : ℕ → List AudioPacket → ℕ
count n [] = 0
count n (ap ∷ aps) = (if ap.nonce == n then 1 else 0) + count n aps

pub found-count :
    (n : ℕ) (aps : List AudioPacket) → (is_found (find_packet n aps) ≡ false) → count n aps ≡ 0
unfolding find_packet
found-count n [] h = refl
found-count n (ap ∷ aps) h = ground (arith, found-count n aps)

pub find-nonce :
    (n : ℕ) (aps : List AudioPacket) (ap : AudioPacket) → find_packet n aps ≡ some ap → ap.nonce ≡ n
unfolding find_packet
find-nonce n [] ap h = cc
find-nonce n (x ∷ aps) ap h = ground (arith, find-nonce n aps ap)

-- Deleting a number takes one packet with it away, if there is one, and no other.
pub count-delete_packet :
    (n m : ℕ) (aps : List AudioPacket)
    → count m (delete_packet n aps) ≡ count m aps - (if n == m then 1 else 0)
unfolding delete_packet
count-delete_packet n m [] = omega arith
count-delete_packet n m (ap ∷ aps) = ground (arith, count-delete_packet n m aps)

pub count-append : (n : ℕ) (xs ys : List AudioPacket) → count n (xs ++ ys) ≡ count n xs + count n ys
count-append n [] ys = omega arith
count-append n (x ∷ xs) ys = omega (arith, count-append n xs ys)

pub found-present :
    (n : ℕ) (aps : List AudioPacket) → is_found (find_packet n aps) ≡ true → 1 ≤ count n aps
unfolding find_packet
found-present n [] h = ground arith
found-present n (ap ∷ aps) h = ground (arith, found-present n aps)
