-- ===== src/Examples/Clients.antt =====
-- src/intercom_client.c and alsaplayer.c: a client that has played up to packet 5.
use snapcastc.Base.{
  ℕ, ◌+◌, ◌-◌, ◌≡◌, ◌&&◌, ◌==◌, refl, arith, true, false, List, [], ◌∷◌, ◌++◌, none, some, ltb,
  if◌then◌else◌, length,
}
use snapcastc.Timespec.{Timespec, timespec}
use snapcastc.Packet.{
  AudioPacket, audio_bytes, header_bytes, assemble_request, assemble16, assemble32, byte,
  get_nonce_from_tlv, server_operation,
}
use snapcastc.Pcmchunk.{PcmChunk}
use snapcastc.Pcmchunk.Laws.{by_play_at}
use snapcastc.Pqueue.{PQueue, pqueue_peek}
use snapcastc.Player.{Player}
use snapcastc.Intercom.{find_packet, cmp_audiopacket, is_zero}
use snapcastc.Intercom.Packets.{count}
use snapcastc.Client.{ClientCtx, RequestTask, already_requesting}
use snapcastc.Client.Audio.{handle_gap, remove_old_data_from_receivebuffer}
use snapcastc.Client.Receive.{intercom_handle_server_operation, server_segments}
use snapcastc.Client.Gap.{IsTracked, Requests}
use snapcastc.Client.Requests.{handle_gap_correct}
use snapcastc.Client.Handled.{Handled}
use snapcastc.Client.Segments.{
  stop, volume, encode_all, perform_all, server_operation_correct, server_segments_stuck,
}
use snapcastc.Client.Retries.{run_posted, run_posted_correct}
use snapcastc.Client.Late.{is_late, Dropped, remove_old_data_correct}

abbrev player : Player
player = record {
  rate = 44100;
  channels = 2;
  frame_size = 2;
  initialized = true;
  playing = false;
  empty_chunks_in_row = 0;
  close_task = true;
  is_softvol = false;
  softvol_level = 0;
  mixer_elem = true;
  mixer_max = 255;
  mixer_volume = 0;
  latency_ms = 0;
  overflow = none;
}

abbrev chunk_at : ℕ → PcmChunk
chunk_at sec = record {
  play_at_tv_sec = sec;
  play_at_tv_nsec = 0;
  samples = 44100;
  frame_size = 2;
  channels = 2;
  size = 4;
  codec = 0;
  samples_data = 1 ∷ 2 ∷ 3 ∷ 4 ∷ [];
}

abbrev buffer : PQueue PcmChunk
buffer = record { capacity = 10; elements = chunk_at 4 ∷ [] }

abbrev missing : AudioPacket
missing = record { bytes = []; nonce = 3 }

abbrev client : ClientCtx
client = record {
  recent_packets = [];
  missing_packets = missing ∷ [];
  lastreceviedseqno = 5;
  receivebuffer = some buffer;
  bufferms = 1000;
  counter = 77;
  nodeid = 9;
  underrun = false;
  player = player;
  posted = [];
  sent = [];
}

abbrev packet : List ℕ
packet = audio_bytes 8 1000 (chunk_at 20)

abbrev exact : ℕ → ℕ
exact rate = rate

abbrev early : Timespec
early = timespec 10 0

abbrev request : RequestTask
request = record { packet = header_bytes 0 9 70 ++ assemble_request 3; retries_left = 4 }

abbrev asking : ClientCtx
asking = record client { posted = (100, request) ∷ [] }

client-IsTracked : IsTracked 10 client.missing_packets
client-IsTracked = record { fits = omega arith; once = λ m. ground arith }

server_operation_correct_example :
    intercom_handle_server_operation client
      (header_bytes server_operation 9 70 ++ encode_all (volume 40 ∷ stop ∷ []))
    ≡ some (perform_all (volume 40 ∷ stop ∷ []) client)
server_operation_correct_example = server_operation_correct client 9 70 (volume 40 ∷ stop ∷ [])

server_segments_stuck_example : server_segments 1000 client (1 ∷ 0 ∷ 0 ∷ []) 0 ≡ none
unfolding byte
server_segments_stuck_example =
    server_segments_stuck 1000 client (1 ∷ 0 ∷ 0 ∷ []) 0 (omega arith) refl refl

handle_gap_correct_example :
    Requests client (handle_gap client buffer 8)
    × (count 7 (handle_gap client buffer 8).missing_packets
        ≡ (if ltb client.lastreceviedseqno 7 && ltb 7 8 then 1 else count 7 client.missing_packets))
handle_gap_correct_example =
    handle_gap_correct client buffer 8 7 (omega arith) (omega arith) (omega arith) (omega arith)
      client-IsTracked (omega arith)

run_posted_correct_example :
    let ctx' = run_posted 6 asking in
    (ctx'.posted ≡ [])
    × (length ctx'.sent ≡ length asking.sent + 4)
    × ((m : ℕ)
        → count m ctx'.missing_packets
          ≡ count m asking.missing_packets
            - (if get_nonce_from_tlv request.packet 8 == m then 1 else 0))
unfolding header_bytes assemble_request assemble16 assemble32 already_requesting get_nonce_from_tlv
    find_packet cmp_audiopacket is_zero
run_posted_correct_example =
    run_posted_correct 6 4 100 asking request refl (omega arith) refl (omega arith) refl

remove_old_data_correct_example :
    let q' = remove_old_data_from_receivebuffer early buffer in
    (is_late early (pqueue_peek by_play_at q') ≡ false) × Dropped early buffer q'
remove_old_data_correct_example = remove_old_data_correct early buffer
