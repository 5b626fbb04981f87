-- ===== src/Server/Packets.antt =====
-- src/intercom_srv.c: chunks go out to the clients, and clients ask for them again.
-- `none` is a loop that does not end, or a failure of `clientmgr_refresh_client`.
use snapcastc.Base.{
  ◌>>=◌, ℕ, zero, suc, ◌+◌, ◌/◌, ◌%◌, ◌==◌, List, [], ◌∷◌, ◌++◌, Option, none, some, ltb,
  if◌then◌else◌, length, u32_mod,
}
use snapcastc.Base.Int.{is_pos}
use snapcastc.Timespec.{Timespec, timespec, timespec_cmp, time_sub_ms}
use snapcastc.Packet.{
  AudioPacket, Hello, get_nonce, audio_bytes, parse_audio, parse_header, parse_hello, parse_request,
  byte, hello_tlv, request_tlv, client_operation, packet_format_version,
}
use snapcastc.Intercom.{find_packet, intercom_recently_seen_add}
use snapcastc.Server.{ClientRecord, StreamRecord, removal_posted, ServerCtx}
use snapcastc.Server.Clients.{send, buffer_of, new_client, clientmgr_refresh_client}

-- From the last client to the first, those that are not muted.
unfoldable pub send_to_clients : ServerCtx → List ClientRecord → List ℕ → ServerCtx
send_to_clients srv [] packet = srv
send_to_clients srv (c ∷ clients) packet =
    let rest = send_to_clients srv clients packet in if c.muted then rest else send rest c packet

-- The packet of a stream's chunk, under the stream's next number.
unfoldable pub audio_packet_of : ℕ → StreamRecord → AudioPacket
unfolding get_nonce audio_bytes
audio_packet_of bufferms s =
    let number = (get_nonce (some s.seqno)).0 in
    record { bytes = audio_bytes number bufferms s.inputpipe.chunk; nonce = number }

-- The stream with what it keeps of the packet.
unfoldable pub keep_packet : ℕ → StreamRecord → StreamRecord
unfolding audio_packet_of
keep_packet bufferms s = record s {
  seqno = (s.seqno + 1) % u32_mod;
  packet_buffer = s.packet_buffer ++ audio_packet_of bufferms s ∷ [];
}

-- The stream between those before and after it.
unfoldable pub intercom_send_audio :
    ServerCtx → List StreamRecord → StreamRecord → List StreamRecord → ServerCtx
unfolding keep_packet send_to_clients
intercom_send_audio srv before s after =
    send_to_clients
      (record srv {
        streams = before ++ keep_packet srv.bufferms s ∷ after;
        tasks = srv.tasks ++ removal_posted (srv.bufferms / 1000) (srv.bufferms % 1000) ∷ [];
      })
      s.clients (audio_packet_of srv.bufferms s).bytes

-- The time at which the chunk of a packet plays.
unfoldable pub packet_play_at : AudioPacket → Timespec
unfolding parse_audio
packet_play_at ap =
    let chunk = (parse_audio ap.bytes).1 in timespec chunk.play_at_tv_sec chunk.play_at_tv_nsec

-- The `do` loop: the first packet goes in each round, and the loop goes on while there are more
-- and the packet that went has played before `age`.
unfoldable pub remove_old_audiodata : Timespec → List AudioPacket → List AudioPacket
unfolding packet_play_at
remove_old_audiodata age [] = []
remove_old_audiodata age (ap ∷ aps) =
    let rest = remove_old_audiodata age aps in
    if is_pos (timespec_cmp age (packet_play_at ap)) then rest else aps

unfoldable pub remove_old_audiodata_task : ℕ → Timespec → StreamRecord → StreamRecord
unfolding remove_old_audiodata
remove_old_audiodata_task bufferms ctime s = if length s.clients == 0 then s else record s {
  packet_buffer = remove_old_audiodata (time_sub_ms ctime bufferms) s.packet_buffer;
}

-- A client asks for a packet again: it is sent if the client's stream still keeps it.
unfoldable pub answer_request : ServerCtx → ℕ → ℕ → ℕ → ℕ → ServerCtx
unfolding buffer_of find_packet new_client
answer_request srv clientid ip port nonce =
    elim (find_packet nonce (buffer_of srv.streams clientid)) [
      | none ↦ srv
      | some ap ↦ send srv (new_client clientid ip port) ap.bytes
    ]

-- What a hello tells of a client.
unfoldable pub client_of : Hello → ℕ → ℕ → ClientRecord
unfolding new_client
client_of hello ip port = record (new_client hello.id ip port) {
  latency = hello.latency;
  volume_percent = hello.volume_percent;
}

-- One round of the loop: the new state, and by how much the offset moves on.
unfoldable pub client_segment : Timespec → ServerCtx → List ℕ → ℕ → ℕ → ℕ → Option (ServerCtx × ℕ)
client_segment ctime srv packet ip port offset =
    let (hello, hello_step) = parse_hello packet offset in
    let (nonce, request_step) = parse_request packet offset in
    if byte packet offset == hello_tlv
    then (clientmgr_refresh_client ctime srv (client_of hello ip port) >>= λ srv'.
        some (srv', hello_step))
    else if byte packet offset == request_tlv
    then some (answer_request srv (parse_header packet).clientid ip port nonce, request_step)
    else some (srv, byte packet (offset + 2))

unfoldable pub client_segments : ℕ → Timespec → ServerCtx → List ℕ → ℕ → ℕ → ℕ → Option ServerCtx
client_segments zero ctime srv packet ip port offset =
    if ltb offset (length packet) then none else some srv
client_segments (suc fuel) ctime srv packet ip port offset =
    if ltb offset (length packet)
    then (client_segment ctime srv packet ip port offset >>= λ r.
        client_segments fuel ctime r.0 packet ip port (offset + r.1))
    else some srv

unfoldable pub intercom_handle_client_operation :
    Timespec → ServerCtx → List ℕ → ℕ → ℕ → Option ServerCtx
intercom_handle_client_operation ctime srv packet ip port =
    client_segments (length packet) ctime srv packet ip port 8

unfoldable pub server_handle_packet : Timespec → ServerCtx → List ℕ → ℕ → ℕ → Option ServerCtx
server_handle_packet ctime srv packet ip port =
    let hdr = parse_header packet in
    let seen : ServerCtx = record srv {
      recent_packets = intercom_recently_seen_add srv.recent_packets hdr;
    } in
    if hdr.version == packet_format_version
    then (if byte packet 1 == client_operation
        then intercom_handle_client_operation ctime seen packet ip port
        else some seen)
    else some srv
