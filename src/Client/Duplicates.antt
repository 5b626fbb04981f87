-- ===== src/Client/Duplicates.antt =====
-- src/intercom_client.c: `intercom_handle_packet` and packets that arrive twice.
use snapcastc.Pcmchunk.{PcmChunk, Decoder}
use snapcastc.Base.{ℕ, ◌≡◌, refl, true, List, some, arith, ==_self}
use snapcastc.Timespec.{Timespec}
use snapcastc.Packet.{PacketHdr, parse_header}
use snapcastc.Intercom.{intercom_recently_seen, intercom_recently_seen_add}
use snapcastc.Intercom.Recent.{recently_seen-add}
use snapcastc.Client.{PcmChunk, ClientCtx}
use snapcastc.Client.Handled.{Handled}
use snapcastc.Client.Receive.{intercom_handle_packet}

-- The packet that was handled last is dropped when it arrives again, however the state has changed
-- in between, as long as no other packet has been handled.
pub handle_packet_again :
    (opus_decode : Decoder) (rate_near : ℕ → ℕ) (now later : Timespec) (ctx : ClientCtx)
    (recent : List PacketHdr) (packet : List ℕ)
    → ctx.recent_packets ≡ intercom_recently_seen_add recent (parse_header packet)
    → intercom_handle_packet opus_decode rate_near now later ctx packet ≡ some ctx
unfolding intercom_handle_packet
handle_packet_again opus_decode rate_near now later ctx recent packet e =
    let hdr = parse_header packet in
    let seen : intercom_recently_seen ctx.recent_packets hdr ≡ true =
      rw (e, recently_seen-add recent hdr hdr, ==_self hdr.nonce, ==_self hdr.packet_type) refl in
    ground (arith, seen)
