-- ===== src/Intercom/Recent.antt =====
-- src/intercom.c: the packets seen recently.
use snapcastc.Base.{
  ℕ, suc, ◌-◌, ◌≤◌, ◌==◌, ◌≡◌, refl, ◌&&◌, List, [], ◌∷◌, ◌++◌, some, arith, length, length-append,
  get_elem?,
}
use snapcastc.Packet.{PacketHdr}
use snapcastc.Intercom.{intercom_recently_seen, intercom_recently_seen_add, drop_oldest}

drop_oldest-length :
    (limit : ℕ) (recent : List PacketHdr) → length (drop_oldest limit recent) ≤ limit
unfolding drop_oldest
drop_oldest-length limit [] = omega arith
drop_oldest-length limit (h ∷ recent) = ground (arith, drop_oldest-length limit recent)

-- Adding a packet leaves at most one more than `INTERCOM_MAX_RECENT`.
pub recently_seen_add-length :
    (recent : List PacketHdr) (hdr : PacketHdr)
    → length (intercom_recently_seen_add recent hdr) ≤ 1001
unfolding intercom_recently_seen_add
recently_seen_add-length recent hdr =
    omega
      (arith, drop_oldest-length 1000 recent, length-append (drop_oldest 1000 recent) (hdr ∷ []))

last_elem : (xs : List PacketHdr) (x : PacketHdr) → get_elem? (xs ++ x ∷ []) (length xs) ≡ some x
last_elem [] x = refl
last_elem (y ∷ xs) x = last_elem xs x

-- A packet counts as seen exactly where it has the number and the type of the one added last,
-- whatever has been added before that.
pub recently_seen-add :
    (recent : List PacketHdr) (hdr other : PacketHdr)
    → intercom_recently_seen (intercom_recently_seen_add recent hdr) other
      ≡ (hdr.nonce == other.nonce && hdr.packet_type == other.packet_type)
unfolding intercom_recently_seen intercom_recently_seen_add
recently_seen-add recent hdr other =
    let kept = drop_oldest 1000 recent in
    let size : length (kept ++ hdr ∷ []) ≡ suc (length kept) =
      omega (arith, length-append kept (hdr ∷ [])) in
    let last : suc (length kept) - 1 ≡ length kept = omega arith in
    rw (size, last, last_elem kept hdr) (ground arith)
