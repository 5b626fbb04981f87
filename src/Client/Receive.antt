-- ===== src/Client/Receive.antt =====
-- src/intercom_client.c: packets from the server, and the chunks that the player takes.
-- `none` is a loop that does not end, or a failure of `intercom_handle_audio`.
use snapcastc.Base.{
  not, ℕ, zero, suc, ◌+◌, ◌==◌, Bool, true, false, List, [], Option, none, some, ltb, if◌then◌else◌,
  length, ◌>>=◌,
}
use snapcastc.Timespec.{Timespec}
use snapcastc.Packet.{
  byte, tlv_get_length, parse_volume, parse_header, client_stop, client_volume, server_operation,
  audio_data, packet_format_version,
}
use snapcastc.Pcmchunk.{PcmChunk, Decoder, chunk_get_play_at}
use snapcastc.Pcmchunk.Laws.{by_play_at}
use snapcastc.Pqueue.{PQueue, pqueue_peek, pqueue_dequeue}
use snapcastc.Player.{adjust_volume}
use snapcastc.Intercom.{intercom_recently_seen, intercom_recently_seen_add}
use snapcastc.Client.{ClientCtx}
use snapcastc.Client.Audio.{intercom_handle_audio}

-- The server has stopped the stream.
pub client_stopped : ClientCtx → ClientCtx
client_stopped ctx = record ctx {
  missing_packets = [];
  receivebuffer = none;
  lastreceviedseqno = 0;
}

-- One round of the loop: the new state, and by how much the offset moves on. The length of an
-- unknown segment is read from its third byte.
unfoldable pub server_segment : ClientCtx → List ℕ → ℕ → ClientCtx × ℕ
unfolding byte tlv_get_length parse_volume client_stopped adjust_volume
server_segment ctx packet offset =
    let (volume, step) = parse_volume packet offset in
    if byte packet offset == client_stop
    then (client_stopped ctx, tlv_get_length packet offset)
    else if byte packet offset == client_volume
    then (record ctx { player = adjust_volume ctx.player volume }, step)
    else (ctx, byte packet (offset + 2))

unfoldable pub server_segments : ℕ → ClientCtx → List ℕ → ℕ → Option ClientCtx
unfolding server_segment
server_segments zero ctx packet offset = if ltb offset (length packet) then none else some ctx
server_segments (suc fuel) ctx packet offset =
    let (ctx', step) = server_segment ctx packet offset in
    let rest = server_segments fuel ctx' packet (offset + step) in
    if ltb offset (length packet) then rest else some ctx

-- Segments of positive length are at most as many as there are bytes.
unfoldable pub intercom_handle_server_operation : ClientCtx → List ℕ → Option ClientCtx
unfolding server_segments
intercom_handle_server_operation ctx packet = server_segments (length packet) ctx packet 8

-- `pqueue_peek` and `pqueue_dequeue` of the pointer to the receive buffer, which may be NULL.
pub peek_chunk : Option (PQueue PcmChunk) → Option PcmChunk
unfolding pqueue_peek
peek_chunk none = none
peek_chunk (some q) = pqueue_peek by_play_at q

pub dequeue_chunk : Option (PQueue PcmChunk) → Option PcmChunk × Option (PQueue PcmChunk)
unfolding pqueue_dequeue
dequeue_chunk none = (none, none)
dequeue_chunk (some q) = let (taken, q') = pqueue_dequeue by_play_at q in (taken, some q')

pub is_taken : Option PcmChunk → Bool
is_taken none = false
is_taken (some c) = true

-- The chunk that plays next, if there is one.
unfoldable pub intercom_getnextaudiochunk : ClientCtx → Option PcmChunk × ClientCtx
unfolding dequeue_chunk is_taken
intercom_getnextaudiochunk ctx =
    let (taken, buffer) = dequeue_chunk ctx.receivebuffer in
    (taken, record ctx { underrun = not (is_taken taken); receivebuffer = buffer })

pub intercom_peeknextaudiochunk : ClientCtx → Option PcmChunk × Bool
unfolding peek_chunk is_taken
intercom_peeknextaudiochunk ctx = let head = peek_chunk ctx.receivebuffer in (head, is_taken head)

unfoldable pub intercom_get_time_next_audiochunk : ClientCtx → Timespec
unfolding peek_chunk chunk_get_play_at
intercom_get_time_next_audiochunk ctx = chunk_get_play_at (peek_chunk ctx.receivebuffer)

-- What a packet of the format's version, not seen before, leads to.
unfoldable pub dispatch_packet :
    Decoder → (ℕ → ℕ) → Timespec → Timespec → ClientCtx → List ℕ → Option ClientCtx
dispatch_packet opus_decode rate_near now later ctx packet =
    if byte packet 1 == server_operation
    then intercom_handle_server_operation ctx packet
    else if byte packet 1 == audio_data
    then (do
      handled ← intercom_handle_audio opus_decode rate_near now later ctx packet
      some handled.0)
    else some ctx

unfoldable pub intercom_handle_packet :
    Decoder → (ℕ → ℕ) → Timespec → Timespec → ClientCtx → List ℕ → Option ClientCtx
intercom_handle_packet opus_decode rate_near now later ctx packet =
    let hdr = parse_header packet in
    let seen : ClientCtx = record ctx {
      recent_packets = intercom_recently_seen_add ctx.recent_packets hdr;
    } in
    if hdr.version == packet_format_version
    then (if intercom_recently_seen ctx.recent_packets hdr
        then some ctx
        else dispatch_packet opus_decode rate_near now later seen packet)
    else some ctx
