-- ===== src/Examples/Servers.antt =====
-- src/inputpipe.c, clientmgr.c and intercom_srv.c: one stream with two clients.
use snapcastc.Base.{
  ℕ, ◌+◌, ◌-◌, ◌*◌, ◌≡◌, ◌≤◌, ◌<◌, ◌==◌, refl, arith, true, false, List, [], ◌∷◌, ◌++◌, none, some,
  if◌then◌else◌, length, take, drop,
}
use snapcastc.Base.Int.{pos, is_pos}
use snapcastc.Text.{codes}
use snapcastc.Timespec.{timespec, timespec_cmp, time_add_ms}
use snapcastc.Packet.{AudioPacket, parse_audio, parse_header, audio_bytes}
use snapcastc.Pcmchunk.{PcmChunk, chunk_get_play_at}
use snapcastc.Pcmchunk.Laws.{IsWire}
use snapcastc.Pcmchunk.Playback.{play_ns}
use snapcastc.Intercom.{find_packet, is_zero, cmp_audiopacket}
use snapcastc.Inputpipe.{InputPipe, playing, bytes, inputpipe_handle, is_buffer_full}
use snapcastc.Inputpipe.Steps.{inputpipe_handle_complete, inputpipe_handle-room}
use snapcastc.Server.{ClientRecord, StreamRecord, ServerCtx, get_client, find_client, client_cmp}
use snapcastc.Server.Clients.{send, new_client, clientmgr_delete_client, clientmgr_refresh_client}
use snapcastc.Server.Packets.{intercom_send_audio, answer_request, remove_old_audiodata}
use snapcastc.Server.Registry.{total, IsStarted, delete_client_correct}
use snapcastc.Server.Refresh.{refresh_client_correct}
use snapcastc.Server.Resend.{resend_correct, old, remove_old_audiodata_correct}
use snapcastc.Packet.{Hello, header_bytes, client_operation}
use snapcastc.Player.{Player}
use snapcastc.Client.{ClientCtx, RequestTask, intercom_send_request}
use snapcastc.Server.Packets.{intercom_handle_client_operation}
use snapcastc.Server.Operations.{
  ClientOp, hello, request, encode_all, perform_all, client_operation_correct,
}
use snapcastc.Recovery.{recovery_correct}
use snapcastc.Client.{request_task, already_requesting}
use snapcastc.Packet.RoundTrip.{trimmed}

abbrev pub chunk : PcmChunk
chunk = record {
  play_at_tv_sec = 20;
  play_at_tv_nsec = 0;
  samples = 44100;
  frame_size = 2;
  channels = 2;
  size = 4;
  codec = 0;
  samples_data = 1 ∷ 2 ∷ 3 ∷ 4 ∷ [];
}

chunk-IsWire : IsWire chunk
chunk-IsWire = record {
  sec = omega arith;
  nsec = omega arith;
  rate = omega arith;
  bytes = omega arith;
}

abbrev pub pipe : InputPipe
pipe = record {
  chunk = chunk;
  state = playing;
  data_read = 2;
  read_ms = 5;
  samples = 44100;
  samplesize = 2;
  channels = 2;
  chunksize = 4;
  initialized = true;
  resume_task = false;
  idle_task = true;
  watched = true;
  fname = codes "/tmp/fifo";
}

abbrev byte_read : ℕ
byte_read = 9

abbrev more_read : List ℕ
more_read = 8 ∷ []

abbrev pub listener : ℕ → ClientRecord
listener id = record {
  id = id;
  ip = 100 + id;
  port = 5000;
  connected = true;
  lastseen = timespec 3 0;
  latency = 0;
  volume_percent = 50;
  muted = false;
}

abbrev pub stream : StreamRecord
stream = record {
  clients = listener 7 ∷ listener 8 ∷ [];
  packet_buffer = [];
  seqno = 41;
  initialized = true;
  inputpipe = pipe;
  name = codes "default";
  raw = codes "pipe:///tmp/fifo?name=default";
  codec = 2;
  protocol = 1;
}

abbrev pub server : ServerCtx
server = record {
  streams = stream ∷ [];
  bufferms = 1000;
  recent_packets = [];
  sent = [];
  tasks = [];
}

server_once : (m : ℕ) → total m server.streams ≤ 1
server_once m = ground arith

abbrev pub player : Player
player = record {
  rate = 44100;
  channels = 2;
  frame_size = 2;
  initialized = true;
  playing = false;
  empty_chunks_in_row = 0;
  close_task = true;
  is_softvol = false;
  softvol_level = 0;
  mixer_elem = true;
  mixer_max = 255;
  mixer_volume = 0;
  latency_ms = 0;
  overflow = none;
}

abbrev pub client : ClientCtx
client = record {
  recent_packets = [];
  missing_packets = [];
  lastreceviedseqno = 40;
  receivebuffer = none;
  bufferms = 1000;
  counter = 77;
  nodeid = 8;
  underrun = false;
  player = player;
  posted = [];
  sent = [];
}

abbrev lost : AudioPacket
lost = record { bytes = []; nonce = 41 }

abbrev missing : ClientCtx
missing = record client { missing_packets = lost ∷ [] }

abbrev greeting : Hello
greeting = record { id = 9; latency = 3; volume_percent = 40 }

abbrev operations : List ClientOp
operations = hello greeting ∷ request 41 ∷ []

abbrev stored : List AudioPacket
stored = record { bytes = audio_bytes 41 1000 chunk; nonce = 41 } ∷ []

inputpipe_handle_complete_example :
    let (ret, ctx') = inputpipe_handle 1000 (timespec 20 0) pipe (bytes (byte_read ∷ more_read)) in
    (ret ≡ pos 1)
    × (ctx'.data_read ≡ 0)
    × (play_ns ctx'.chunk ≡ play_ns pipe.chunk + pipe.read_ms * 1000000)
    × (ctx'.chunk.samples_data
        ≡ take pipe.data_read pipe.chunk.samples_data
          ++ (byte_read ∷ more_read
              ++ drop (pipe.data_read + length (byte_read ∷ more_read)) pipe.chunk.samples_data))
unfolding is_buffer_full timespec_cmp time_add_ms chunk_get_play_at
inputpipe_handle_complete_example =
    inputpipe_handle_complete 1000 (timespec 20 0) pipe byte_read more_read refl refl (omega arith)
      (omega arith) refl refl

inputpipe_handle-room_example :
    let (ret, ctx') = inputpipe_handle 1000 (timespec 20 0) pipe (bytes (9 ∷ [])) in
    (ctx'.data_read < ctx'.chunksize)
    × (ctx'.chunksize ≡ pipe.chunksize)
    × (is_pos ret ≡ true → ctx'.data_read ≡ 0)
inputpipe_handle-room_example =
    inputpipe_handle-room 1000 (timespec 20 0) pipe (bytes (9 ∷ [])) (omega arith, omega arith)
      (omega arith)

resend_correct_example :
    let srv' = intercom_send_audio server [] stream [] in
    (bytes : List ℕ) × (answer_request srv' 8 108 5000 stream.seqno
      ≡ send srv' (new_client 8 108 5000) bytes)
    × (parse_audio bytes ≡ (server.bufferms, trimmed stream.inputpipe.chunk))
    × (parse_header bytes
        ≡ record { version = 1; packet_type = 1; clientid = 0; nonce = stream.seqno })
unfolding find_client get_client client_cmp is_zero find_packet cmp_audiopacket
resend_correct_example =
    resend_correct server [] stream [] 8 108 5000 refl refl (omega arith) refl (omega arith)
      chunk-IsWire (omega arith)

remove_old_audiodata_correct_example :
    let kept = remove_old_audiodata (timespec 30 0) stored in
    (old (timespec 30 0) kept ≡ 0)
    × (length kept + old (timespec 30 0) stored ≤ length stored)
    × (length stored ≤ length kept + old (timespec 30 0) stored + 1)
remove_old_audiodata_correct_example = remove_old_audiodata_correct (timespec 30 0) stored (tt, tt)

delete_client_correct_example :
    (total 8 (clientmgr_delete_client server 7).streams
      ≡ total 8 server.streams - (if 7 == 8 then 1 else 0))
    × (IsStarted server.streams → IsStarted (clientmgr_delete_client server 7).streams)
delete_client_correct_example = delete_client_correct server 7 8

refresh_client_correct_example :
    (srv' : ServerCtx) × (clientmgr_refresh_client (timespec 30 0) server (listener 9) ≡ some srv')
    × ((m : ℕ)
        → total m srv'.streams ≡ (if (listener 9).id == m then 1 else total m server.streams))
refresh_client_correct_example =
    refresh_client_correct (timespec 30 0) server (listener 9) refl server_once

client_operation_correct_example :
    intercom_handle_client_operation
      (timespec 30 0)
      server
      (header_bytes client_operation 9 70 ++ encode_all operations)
      109
      5000
    ≡ perform_all (timespec 30 0) 9 109 5000 operations server
client_operation_correct_example =
    client_operation_correct (timespec 30 0) server 9 70 109 5000 operations (omega arith)
      (omega arith) ((omega arith, omega arith), (omega arith, tt))

recovery_correct_example :
    let srv' = intercom_send_audio server [] stream [] in
    (task : RequestTask) × (packet : List ℕ) × (bytes : List ℕ) × ((intercom_send_request client
        lost).posted
      ≡ client.posted ++ (0, task) ∷ [])
    × ((request_task missing task).sent ≡ missing.sent ++ packet ∷ [])
    × (intercom_handle_client_operation (timespec 15 0) srv' packet 108 5000
        ≡ some (send srv' (new_client client.nodeid 108 5000) bytes))
    × (parse_audio bytes ≡ (server.bufferms, trimmed stream.inputpipe.chunk))
    × ((parse_header bytes).nonce ≡ stream.seqno)
unfolding already_requesting find_client get_client client_cmp is_zero find_packet cmp_audiopacket
recovery_correct_example =
    recovery_correct client missing lost (timespec 15 0) server [] stream [] 108 5000 (omega arith)
      refl (omega arith) refl refl refl (omega arith) refl (omega arith) chunk-IsWire (omega arith)
