-- ===== src/Recovery.antt =====
-- src/intercom_client.c and src/intercom_srv.c together: a lost packet is asked for and sent again.
use snapcastc.Base.{
  ◌≤◌, ℕ, ◌%◌, ◌/◌, ◌<◌, ◌≡◌, ◌∙◌, refl, ap, true, false, List, [], ◌∷◌, ◌++◌, some, arith, length,
  u8_mod,
}
use snapcastc.Packet.{
  read32, byte, get_nonce_from_tlv, AudioPacket, header_bytes, assemble_request, assemble_header,
  assemble16, assemble32, get_nonce, parse_audio, parse_header, client_operation,
}
use snapcastc.Packet.Numbers.{high_low32}
use snapcastc.Packet.RoundTrip.{trimmed}
use snapcastc.Client.{
  request_task, already_requesting, ClientCtx, RequestTask, intercom_send_request, renumber,
  request_retry_interval_ms,
}
use snapcastc.Client.Retries.{request_task-again, next_task}
use snapcastc.Timespec.{Timespec}
use snapcastc.Pcmchunk.Laws.{IsWire}
use snapcastc.Intercom.{is_found, find_packet}
use snapcastc.Server.{StreamRecord, ServerCtx, get_client, is_client, find_client}
use snapcastc.Server.Clients.{send, new_client}
use snapcastc.Server.Packets.{intercom_send_audio, answer_request, intercom_handle_client_operation}
use snapcastc.Server.Operations.{request, client_operation_correct}
use snapcastc.Server.Resend.{resend_correct}

-- The task that `intercom_send_request` posts.
request_for : ClientCtx → AudioPacket → RequestTask
unfolding get_nonce
request_for ctx mp = record {
  packet =
      header_bytes client_operation ctx.nodeid (get_nonce (some ctx.counter)).0
      ++ assemble_request mp.nonce;
  retries_left = ctx.bufferms / request_retry_interval_ms % u8_mod;
}

send_request-posted :
    (ctx : ClientCtx) (mp : AudioPacket)
    → (intercom_send_request ctx mp).posted ≡ ctx.posted ++ (0, request_for ctx mp) ∷ []
unfolding intercom_send_request assemble_header request_for
send_request-posted ctx mp = refl

-- The packet that a run of the task sends is a client operation under a new number.
renumber-header_bytes :
    (kind id old new n : ℕ)
    → renumber (header_bytes kind id old ++ assemble_request n) new
      ≡ header_bytes kind id new ++ (assemble_request n ++ [])
unfolding renumber header_bytes assemble_request assemble16 assemble32
renumber-header_bytes kind id old new n = refl

next_task-packet :
    (later ctx : ClientCtx) (mp : AudioPacket)
    → (next_task later (request_for ctx mp)).packet
      ≡ header_bytes client_operation ctx.nodeid (get_nonce (some later.counter)).0
        ++ (assemble_request mp.nonce ++ [])
unfolding request_for
next_task-packet later ctx mp =
    renumber-header_bytes client_operation ctx.nodeid (get_nonce (some ctx.counter)).0
      (get_nonce (some later.counter)).0 mp.nonce

nonce_fits : (later : ClientCtx) → (get_nonce (some later.counter)).0 < 4294967296
unfolding get_nonce
nonce_fits later = omega arith

request_for-nonce :
    (ctx : ClientCtx) (mp : AudioPacket)
    → mp.nonce < 4294967296
    → get_nonce_from_tlv (request_for ctx mp).packet 8 ≡ mp.nonce
unfolding request_for get_nonce_from_tlv header_bytes assemble_request assemble16 assemble32 read32
    byte
request_for-nonce ctx mp h = high_low32 mp.nonce h

request_for-long : (ctx : ClientCtx) (mp : AudioPacket) → 8 ≤ length (request_for ctx mp).packet
unfolding request_for header_bytes assemble_request assemble16 assemble32
request_for-long ctx mp = omega arith

-- A run of the task while the packet is still missing.
request_sent :
    (later ctx : ClientCtx) (mp : AudioPacket)
    → mp.nonce < 4294967296
    → 0 < ctx.bufferms / request_retry_interval_ms % u8_mod
    → already_requesting later.missing_packets mp.nonce ≡ true
    → (request_task later (request_for ctx mp)).sent
      ≡ later.sent ++ (next_task later (request_for ctx mp)).packet ∷ []
unfolding request_for
request_sent later ctx mp fits retries missing =
    let task = request_for ctx mp in
    let asked : already_requesting later.missing_packets (get_nonce_from_tlv task.packet 8) ≡ true =
      ap (already_requesting later.missing_packets) (request_for-nonce ctx mp fits) ∙ missing in
    ap (λ c. c.sent) (request_task-again later task (request_for-long ctx mp) retries asked)

-- A client with an id of 16 bits, of a stream and of none before it, misses the packet that the stream has just sent,
-- whose chunk fits its fields and has at least as much data as its size says, and whose number,
-- below the last one, the stream did not keep yet; the server's buffer length has 16 bits, and the
-- client's allows a retry. The client posts a task. Whatever the client's state is when this task
-- runs, if the packet is listed as missing the task sends one packet. The server answers it to the
-- address that it came from with a packet that holds the lost chunk, with as much data as its size
-- says, under its number.
pub recovery_correct :
    (ctx later : ClientCtx) (mp : AudioPacket) (ctime : Timespec) (srv : ServerCtx)
    (before : List StreamRecord) (s : StreamRecord) (after : List StreamRecord) (ip port : ℕ)
    → ctx.nodeid < 65536
    → mp.nonce ≡ s.seqno
    → 0 < ctx.bufferms / request_retry_interval_ms % u8_mod
    → already_requesting later.missing_packets mp.nonce ≡ true
    → is_client (find_client before ctx.nodeid) ≡ false
    → is_client (get_client s.clients ctx.nodeid) ≡ true
    → s.seqno < 4294967295
    → is_found (find_packet s.seqno s.packet_buffer) ≡ false
    → srv.bufferms < 65536
    → IsWire s.inputpipe.chunk
    → s.inputpipe.chunk.size ≤ length s.inputpipe.chunk.samples_data
    → let srv' = intercom_send_audio srv before s after in
      (task : RequestTask) × (packet : List ℕ) × (bytes : List ℕ) × ((intercom_send_request ctx
          mp).posted
        ≡ ctx.posted ++ (0, task) ∷ [])
      × ((request_task later task).sent ≡ later.sent ++ packet ∷ [])
      × (intercom_handle_client_operation ctime srv' packet ip port
          ≡ some (send srv' (new_client ctx.nodeid ip port) bytes))
      × (parse_audio bytes ≡ (srv.bufferms, trimmed s.inputpipe.chunk))
      × ((parse_header bytes).nonce ≡ s.seqno)
recovery_correct ctx later mp ctime srv before s after ip port small same retries missing absent
      here low fresh buffer wire full =
    let srv' = intercom_send_audio srv before s after in
    let (bytes, answered, chunk, header) =
      resend_correct srv before s after ctx.nodeid ip port absent here low fresh buffer wire full in
    let operation =
      client_operation_correct ctime srv' ctx.nodeid (get_nonce (some later.counter)).0 ip port
        (request mp.nonce ∷ []) small (nonce_fits later) (omega arith, tt) in
    (
      request_for ctx mp,
      (next_task later (request_for ctx mp)).packet,
      bytes,
      send_request-posted ctx mp,
      request_sent later ctx mp (omega (arith, same, low)) retries missing,
      ap (λ p. intercom_handle_client_operation ctime srv' p ip port)
            (next_task-packet later ctx mp)
          ∙ (operation
              ∙ (ap (λ n. some (answer_request srv' ctx.nodeid ip port n)) same
                  ∙ ap (λ x. some x) answered)),
      chunk,
      ap (λ h. h.nonce) header,
    )
