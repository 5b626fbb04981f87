-- ===== src/Packet/RoundTrip.antt =====
-- src/intercom_client.c and intercom_srv.c: what one side reads against what the other wrote.
use snapcastc.Base.{
  take, ◌≤◌, refl, ap, ◌∙◌, arith, length-take, ℕ, ◌<◌, ◌≡◌, ◌++◌, List, length, take-all,
}
use snapcastc.Pcmchunk.{PcmChunk}
use snapcastc.Pcmchunk.Laws.{IsWire}
use snapcastc.Packet.{
  header_bytes, parse_header, assemble_hello, parse_hello, assemble_request, parse_request,
  audio_bytes, parse_audio,
}
use snapcastc.Packet.Numbers.{high_low16, high_low32}

-- `parse_header` of a packet that begins with a header gives the header's fields.
pub parse_header-header_bytes :
    (packet_type clientid nonce : ℕ) (rest : List ℕ)
    → clientid < 65536
    → nonce < 4294967296
    → parse_header (header_bytes packet_type clientid nonce ++ rest)
      ≡ record { version = 1; packet_type = packet_type; clientid = clientid; nonce = nonce }
unfolding parse_header header_bytes
parse_header-header_bytes packet_type clientid nonce rest h k =
    rw (high_low16 clientid h, high_low32 nonce k)

-- `parse_hello` behind a header reads what `assemble_hello` put there.
pub parse_hello-assemble_hello :
    (packet_type clientid nonce nodeid latency_ms volume : ℕ) (rest : List ℕ)
    → nodeid < 65536
    → latency_ms < 4294967296
    → parse_hello
        (header_bytes packet_type clientid nonce
          ++ (assemble_hello nodeid latency_ms volume ++ rest))
        8
      ≡ (record { id = nodeid; latency = latency_ms; volume_percent = volume }, 9)
unfolding parse_hello header_bytes assemble_hello
parse_hello-assemble_hello packet_type clientid nonce nodeid latency_ms volume rest h k =
    rw (high_low16 nodeid h, high_low32 latency_ms k)

-- `parse_request` behind a header reads the number that `assemble_request` put there.
pub parse_request-assemble_request :
    (packet_type clientid nonce missing : ℕ) (rest : List ℕ)
    → missing < 4294967296
    → parse_request
        (header_bytes packet_type clientid nonce ++ (assemble_request missing ++ rest))
        8
      ≡ (missing, 6)
unfolding parse_request header_bytes assemble_request
parse_request-assemble_request packet_type clientid nonce missing rest h = rw (high_low32 missing h)

-- For a chunk whose fields fit their widths and whose data is as long as it says, with a number
-- and a buffer length that fit theirs, `intercom_handle_audio` takes out of the packet the chunk
-- that `intercom_send_audio` put in, data and all, with the length of the server's buffer; the
-- header says which packet it is.
pub parse_audio-audio_bytes :
    (nonce bufferms : ℕ) (c : PcmChunk)
    → nonce < 4294967296
    → bufferms < 65536
    → IsWire c
    → length c.samples_data ≡ c.size
    → (parse_audio (audio_bytes nonce bufferms c) ≡ (bufferms, c))
      × (parse_header (audio_bytes nonce bufferms c)
          ≡ record { version = 1; packet_type = 1; clientid = 0; nonce = nonce })
unfolding parse_audio audio_bytes parse_header
parse_audio-audio_bytes nonce bufferms c hn hb w full =
    let all = take-all c.samples_data c.size full in
    (
      rw (
        high_low16 bufferms hb,
        high_low32 c.play_at_tv_sec w.sec,
        high_low32 c.play_at_tv_nsec w.nsec,
        high_low32 c.samples w.rate,
        high_low16 c.size w.bytes,
        all,
        all,
      ),
      rw (high_low32 nonce hn),
    )

-- The chunk without the data behind its size.
abbrev pub trimmed : PcmChunk → PcmChunk
trimmed c = record c { samples_data = take c.size c.samples_data }

length-trimmed :
    (c : PcmChunk) → c.size ≤ length c.samples_data → length (trimmed c).samples_data ≡ c.size
length-trimmed c h = omega (arith, length-take c.size c.samples_data)

audio_bytes-trimmed :
    (nonce bufferms : ℕ) (c : PcmChunk)
    → c.size ≤ length c.samples_data
    → audio_bytes nonce bufferms c ≡ audio_bytes nonce bufferms (trimmed c)
unfolding audio_bytes
audio_bytes-trimmed nonce bufferms c h =
    rw (take-all (take c.size c.samples_data) c.size (length-trimmed c h)) refl

-- The same for a chunk that has more data than its size says: the packet has as much as the size says.
pub parse_audio-trimmed :
    (nonce bufferms : ℕ) (c : PcmChunk)
    → nonce < 4294967296
    → bufferms < 65536
    → IsWire c
    → c.size ≤ length c.samples_data
    → (parse_audio (audio_bytes nonce bufferms c) ≡ (bufferms, trimmed c))
      × (parse_header (audio_bytes nonce bufferms c)
          ≡ record { version = 1; packet_type = 1; clientid = 0; nonce = nonce })
parse_audio-trimmed nonce bufferms c hn hb w h =
    let same = audio_bytes-trimmed nonce bufferms c h in
    let wire : IsWire (trimmed c) = record {
      sec = w.sec;
      nsec = w.nsec;
      rate = w.rate;
      bytes = w.bytes;
    } in
    let round =
      parse_audio-audio_bytes nonce bufferms (trimmed c) hn hb wire (length-trimmed c h) in
    (ap parse_audio same ∙ round.0, ap parse_header same ∙ round.1)
