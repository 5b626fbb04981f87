-- ===== src/Client.antt =====
-- src/intercom_client.c: the client's state, the packets it misses, and its requests for them.
-- `snapctx` has one client context, so that the global and the argument `ctx` are the same record.
-- A request task is its packet and its retries; `posted` lists what has been handed to
-- the task queue, with the delay in milliseconds, and `sent` the datagrams, both oldest first.
pub mod Audio
pub mod Receive
pub mod Missing
pub mod Gap
pub mod Requests
pub mod Output
pub mod Handled
pub mod Stored
pub mod Segments
pub mod Duplicates
pub mod Retries
pub mod Late
pub mod Playing
pub mod Played
pub mod Chosen
use snapcastc.Base.{
  ℕ, suc, ◌+◌, ◌-◌, ◌/◌, ◌%◌, ◌==◌, Bool, true, false, not, ◌&&◌, ◌||◌, List, [], ◌∷◌, ◌++◌, Option,
  none, some, ltb, leb, if◌then◌else◌, length, take, drop, u8_mod, u32_mod,
}
use snapcastc.Packet.{
  PacketHdr, AudioPacket, nonce_max, client_operation, get_nonce, assemble_header, assemble_request,
  assemble32, get_nonce_from_tlv,
}
use snapcastc.Pcmchunk.{PcmChunk}
use snapcastc.Pqueue.{PQueue}
use snapcastc.Player.{Player}
use snapcastc.Intercom.{is_found, find_packet, delete_packet}

pub record RequestTask : Type 0 where
  pub packet : List ℕ
  pub retries_left : ℕ

-- `lastreceviedseqno` keeps the source's spelling; `counter` is the global `nonce`.
pub record ClientCtx : Type 0 where
  pub recent_packets : List PacketHdr
  pub missing_packets : List AudioPacket
  pub lastreceviedseqno : ℕ
  pub receivebuffer : Option (PQueue PcmChunk)
  pub bufferms : ℕ
  pub counter : ℕ
  pub nodeid : ℕ
  pub underrun : Bool
  pub player : Player
  pub posted : List (ℕ × RequestTask)
  pub sent : List (List ℕ)

abbrev pub request_retry_interval_ms : ℕ
request_retry_interval_ms = 100

pub limit_missing_packets : ℕ → List AudioPacket → List AudioPacket
limit_missing_packets maxsize [] = []
limit_missing_packets maxsize (ap ∷ aps) =
    if ltb maxsize (suc (length aps)) then limit_missing_packets maxsize aps else ap ∷ aps

-- From the last index down to the first.
pub prune_missing_packets : List AudioPacket → ℕ → List AudioPacket
prune_missing_packets [] oldestnonce = []
prune_missing_packets (ap ∷ aps) oldestnonce =
    let rest = prune_missing_packets aps oldestnonce in
    if leb ap.nonce oldestnonce then rest else ap ∷ rest

unfoldable pub already_requesting : List AudioPacket → ℕ → Bool
unfolding find_packet
already_requesting aps nonce = is_found (find_packet nonce aps)

pub remove_request : List AudioPacket → ℕ → List AudioPacket × Bool
unfolding find_packet delete_packet
remove_request aps nonce =
    if is_found (find_packet nonce aps) then (delete_packet nonce aps, true) else (aps, false)

-- `seq - 1` has 32 bits: for 0 it is `NONCE_MAX`, which the other test of the last number excludes.
pub is_next_chunk : ℕ → ℕ → Bool
is_next_chunk last seq =
    (seq == 0 && last == nonce_max) || (seq == last + 1 && not (last == nonce_max))

-- A new number for a packet that is put together already.
unfoldable pub renumber : List ℕ → ℕ → List ℕ
unfolding assemble32
renumber packet nonce = take 4 packet ++ (assemble32 nonce ++ drop 8 packet)

pub request_task : ClientCtx → RequestTask → ClientCtx
unfolding get_nonce renumber get_nonce_from_tlv already_requesting remove_request
request_task ctx task =
    let (nonce, _) = get_nonce (some ctx.counter) in
    let ctx' : ClientCtx = record ctx { counter = (ctx.counter + 1) % u32_mod } in
    let packet' = renumber task.packet nonce in
    let req_nonce = get_nonce_from_tlv packet' 8 in
    if ltb 0 task.retries_left
    then (if already_requesting ctx'.missing_packets req_nonce
        then record ctx' {
          sent = ctx'.sent ++ packet' ∷ [];
          posted =
              ctx'.posted
              ++ (
                request_retry_interval_ms,
                record { packet = packet'; retries_left = task.retries_left - 1 },
              )
                ∷ [];
        }
        else ctx')
    else record ctx' { missing_packets = (remove_request ctx'.missing_packets req_nonce).0 }

unfoldable pub intercom_send_request : ClientCtx → AudioPacket → ClientCtx
unfolding get_nonce assemble_header assemble_request
intercom_send_request ctx mp =
    let (header, _) = assemble_header client_operation (some ctx.counter) ctx.nodeid in
    record ctx {
      counter = (ctx.counter + 1) % u32_mod;
      posted =
          ctx.posted
          ++ (
            0,
            record {
              packet = header ++ assemble_request mp.nonce;
              retries_left = ctx.bufferms / request_retry_interval_ms % u8_mod;
            },
          )
            ∷ [];
    }
