-- ===== src/Intercom.antt =====
-- src/intercom.c: what the client and the server share about packets they have seen, and the lists
-- of packets by their number, which both search with `cmp_audiopacket`.
pub mod Recent
pub mod Packets
use snapcastc.Base.{
  ℕ, zero, suc, ◌+◌, ◌-◌, ◌==◌, Bool, true, false, ◌&&◌, List, [], ◌∷◌, ◌++◌, Option, none, some,
  ltb, leb, if◌then◌else◌, length, get_elem?,
}
use snapcastc.Base.Int.{ℤ, pos, negsuc}
use snapcastc.Packet.{PacketHdr, AudioPacket}

abbrev pub intercom_max_recent : ℕ
intercom_max_recent = 1000

unfoldable pub cmp_audiopacket : ℕ → ℕ → ℤ
cmp_audiopacket n1 n2 = if ltb n2 n1 then pos 1 else if ltb n1 n2 then negsuc 0 else pos 0

unfoldable pub is_zero : ℤ → Bool
is_zero (pos zero) = true
is_zero (pos (suc n)) = false
is_zero (negsuc n) = false

-- `VECTOR_LSEARCH` of a packet with this number: the first that compares equal.
unfoldable pub find_packet : ℕ → List AudioPacket → Option AudioPacket
unfolding cmp_audiopacket is_zero
find_packet nonce [] = none
find_packet nonce (ap ∷ aps) =
    if is_zero (cmp_audiopacket nonce ap.nonce) then some ap else find_packet nonce aps

abbrev pub is_found : Option AudioPacket → Bool
is_found none = false
is_found (some ap) = true

-- The packet that the search finds is deleted.
unfoldable pub delete_packet : ℕ → List AudioPacket → List AudioPacket
unfolding cmp_audiopacket is_zero
delete_packet nonce [] = []
delete_packet nonce (ap ∷ aps) =
    if is_zero (cmp_audiopacket nonce ap.nonce) then aps else ap ∷ delete_packet nonce aps

-- The packet has the number and the type of the header.
pub same_packet : PacketHdr → Option PacketHdr → Bool
same_packet hdr none = false
same_packet hdr (some ref_hdr) =
    ref_hdr.nonce == hdr.nonce && ref_hdr.packet_type == hdr.packet_type

-- The loop begins at the last index (at the largest `size_t` if there is none) and counts upwards:
-- it has one round, or none.
unfoldable pub intercom_recently_seen : List PacketHdr → PacketHdr → Bool
unfolding same_packet
intercom_recently_seen recent hdr =
    if length recent == 0 then false else same_packet hdr (get_elem? recent (length recent - 1))

-- `while (len > INTERCOM_MAX_RECENT)` the first is deleted.
pub drop_oldest : ℕ → List PacketHdr → List PacketHdr
drop_oldest limit [] = []
drop_oldest limit (hdr ∷ recent) =
    if ltb limit (suc (length recent)) then drop_oldest limit recent else hdr ∷ recent

unfoldable pub intercom_recently_seen_add : List PacketHdr → PacketHdr → List PacketHdr
unfolding drop_oldest
intercom_recently_seen_add recent hdr = drop_oldest intercom_max_recent recent ++ hdr ∷ []
