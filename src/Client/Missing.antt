-- ===== src/Client/Missing.antt =====
-- src/intercom_client.c: the list of the packets that are missing.
use snapcastc.Base.{
  true, ℕ, ◌-◌, ◌==◌, ◌≤◌, ◌≡◌, refl, ap, false, List, [], ◌∷◌, arith, leb, if◌then◌else◌, length,
}
use snapcastc.Packet.{AudioPacket}
use snapcastc.Intercom.{delete_packet}
use snapcastc.Intercom.Packets.{count, found-count, found-present, count-delete_packet}
use snapcastc.Client.{
  limit_missing_packets, prune_missing_packets, already_requesting, remove_request,
}

pub limit-length : (n : ℕ) (aps : List AudioPacket) → length (limit_missing_packets n aps) ≤ n
unfolding limit_missing_packets
limit-length n [] = omega arith
limit-length n (ap ∷ aps) = ground (arith, limit-length n aps)

pub limit-count :
    (n m : ℕ) (aps : List AudioPacket) → count m (limit_missing_packets n aps) ≤ count m aps
unfolding limit_missing_packets
limit-count n m [] = omega arith
limit-count n m (ap ∷ aps) = ground (arith, limit-count n m aps)

pub limit-short :
    (n : ℕ) (aps : List AudioPacket) → length aps ≤ n → limit_missing_packets n aps ≡ aps
unfolding limit_missing_packets
limit-short n [] h = refl
limit-short n (ap ∷ aps) h = ground arith

-- Pruning keeps every packet above the number, and takes all others away.
pub prune-count :
    (aps : List AudioPacket) (oldest m : ℕ)
    → count m (prune_missing_packets aps oldest) ≡ (if leb m oldest then 0 else count m aps)
unfolding prune_missing_packets
prune-count [] oldest m = ground arith
prune-count (ap ∷ aps) oldest m = ground (arith, prune-count aps oldest m)

pub prune-length :
    (aps : List AudioPacket) (oldest : ℕ) → length (prune_missing_packets aps oldest) ≤ length aps
unfolding prune_missing_packets
prune-length [] oldest = omega arith
prune-length (ap ∷ aps) oldest = ground (arith, prune-length aps oldest)

pub delete-length : (n : ℕ) (aps : List AudioPacket) → length (delete_packet n aps) ≤ length aps
unfolding delete_packet
delete-length n [] = omega arith
delete-length n (ap ∷ aps) = ground (arith, delete-length n aps)

-- What is not being requested is not in the list.
pub absent-count :
    (n : ℕ) (aps : List AudioPacket) → already_requesting aps n ≡ false → count n aps ≡ 0
unfolding already_requesting
absent-count n aps h = found-count n aps h

pub present-count :
    (n : ℕ) (aps : List AudioPacket) → already_requesting aps n ≡ true → 1 ≤ count n aps
unfolding already_requesting
present-count n aps h = found-present n aps h

-- The request for a packet is removed, if there is one.
pub remove_request-count :
    (aps : List AudioPacket) (n m : ℕ)
    → count m (remove_request aps n).0 ≡ count m aps - (if n == m then 1 else 0)
unfolding remove_request
remove_request-count aps n m = ground (arith, found-count n aps, count-delete_packet n m aps)

pub remove_request-length :
    (aps : List AudioPacket) (n : ℕ) → length (remove_request aps n).0 ≤ length aps
unfolding remove_request
remove_request-length aps n = ground (arith, delete-length n aps)
