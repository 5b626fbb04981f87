-- ===== src/Packet.antt =====
-- src/intercom_common.h, intercom.c, intercom_srv.c and intercom_client.c: the packets on the wire.
-- A packet is the list of its bytes. `memcpy` of a number in network order writes its bytes from the
-- highest to the lowest; a read behind the end of a packet gives 0 here and anything in C.
pub mod Bytes
pub mod Numbers
pub mod RoundTrip
use snapcastc.Base.{
  ℕ, zero, suc, ◌+◌, ◌-◌, ◌*◌, ◌/◌, ◌%◌, ◌==◌, Bool, true, false, List, [], ◌∷◌, ◌++◌, Option, none,
  some, if◌then◌else◌, get_or, take, drop, length, u32_mod, u16_mod, u8_mod,
}
use snapcastc.Pcmchunk.{PcmChunk}

abbrev pub packet_format_version : ℕ
packet_format_version = 1

abbrev pub nonce_max : ℕ
nonce_max = 4294967295

-- Packet types.
abbrev pub client_operation : ℕ
client_operation = 0

abbrev pub audio_data : ℕ
audio_data = 1

abbrev pub server_operation : ℕ
server_operation = 2

-- TLV types of client operations.
abbrev pub request_tlv : ℕ
request_tlv = 0

abbrev pub hello_tlv : ℕ
hello_tlv = 1

-- TLV types of server operations.
abbrev pub stream_info : ℕ
stream_info = 0

abbrev pub client_stop : ℕ
client_stop = 1

abbrev pub client_volume : ℕ
client_volume = 2

-- `intercom_packet_hdr`, its numbers in the host's order.
pub record PacketHdr : Type 0 where
  pub version : ℕ
  pub packet_type : ℕ
  pub clientid : ℕ
  pub nonce : ℕ

-- `audio_packet`; `len` is the length of `bytes`.
pub record AudioPacket : Type 0 where
  pub bytes : List ℕ
  pub nonce : ℕ

unfoldable pub byte : List ℕ → ℕ → ℕ
byte packet i = get_or packet i 0

unfoldable pub assemble16 : ℕ → List ℕ
assemble16 x = x / 256 % 256 ∷ x % 256 ∷ []

unfoldable pub assemble32 : ℕ → List ℕ
assemble32 x = x / 16777216 % 256 ∷ x / 65536 % 256 ∷ x / 256 % 256 ∷ x % 256 ∷ []

-- `memcpy` from the packet, and `ntohs`.
unfoldable pub read16 : List ℕ → ℕ → ℕ
unfolding byte
read16 packet i = byte packet i * 256 + byte packet (i + 1)

-- `memcpy` from the packet, and `ntohl`.
unfoldable pub read32 : List ℕ → ℕ → ℕ
unfolding byte
read32 packet i =
    byte packet i * 16777216
    + byte packet (i + 1) * 65536
    + byte packet (i + 2) * 256
    + byte packet (i + 3)

-- The number that goes into a packet, in the host's order, and the counter behind the pointer after
-- the call.
unfoldable pub get_nonce : Option ℕ → ℕ × Option ℕ
get_nonce none = (0, none)
get_nonce (some n) = (n % nonce_max, some ((n + 1) % u32_mod))

unfoldable pub header_bytes : ℕ → ℕ → ℕ → List ℕ
unfolding assemble16 assemble32
header_bytes packet_type clientid nonce =
    packet_format_version ∷ packet_type ∷ (assemble16 clientid ++ assemble32 nonce)

unfoldable pub assemble_header : ℕ → Option ℕ → ℕ → List ℕ × Option ℕ
unfolding get_nonce header_bytes
assemble_header packet_type counter clientid =
    let (nonce, counter') = get_nonce counter in (header_bytes packet_type clientid nonce, counter')

-- What a handler reads through the pointer to the header.
unfoldable pub parse_header : List ℕ → PacketHdr
unfolding byte read16 read32
parse_header packet = record {
  version = byte packet 0;
  packet_type = byte packet 1;
  clientid = read16 packet 2;
  nonce = read32 packet 4;
}

unfoldable pub tlv_get_length : List ℕ → ℕ → ℕ
unfolding byte
tlv_get_length packet offset = byte packet (offset + 1)

unfoldable pub assemble_volume : ℕ → List ℕ
assemble_volume volume = client_volume ∷ 3 ∷ volume ∷ []

unfoldable pub assemble_stop : List ℕ
assemble_stop = client_stop ∷ 2 ∷ []

unfoldable pub assemble_request : ℕ → List ℕ
unfolding assemble32
assemble_request nonce = request_tlv ∷ 6 ∷ assemble32 nonce

unfoldable pub assemble_hello : ℕ → ℕ → ℕ → List ℕ
unfolding assemble16 assemble32
assemble_hello nodeid latency_ms volume =
    hello_tlv ∷ 9 ∷ (assemble16 nodeid ++ (assemble32 latency_ms ++ volume ∷ []))

-- The volume, and the length by which the offset moves on.
unfoldable pub parse_volume : List ℕ → ℕ → ℕ × ℕ
unfolding byte
parse_volume packet offset = (byte packet (offset + 2), byte packet (offset + 1))

unfoldable pub get_nonce_from_tlv : List ℕ → ℕ → ℕ
unfolding read32
get_nonce_from_tlv packet offset = read32 packet (offset + 2)

unfoldable pub parse_request : List ℕ → ℕ → ℕ × ℕ
unfolding byte read32
parse_request packet offset = (read32 packet (offset + 2), byte packet (offset + 1))

-- The client id, the latency and the volume of a hello.
pub record Hello : Type 0 where
  pub id : ℕ
  pub latency : ℕ
  pub volume_percent : ℕ

unfoldable pub parse_hello : List ℕ → ℕ → Hello × ℕ
unfolding byte read16 read32
parse_hello packet offset = (
  record {
    id = read16 packet (offset + 2);
    latency = read32 packet (offset + 4);
    volume_percent = byte packet (offset + 8);
  },
  byte packet (offset + 1),
)

-- The packet that `intercom_send_audio` puts together: header, buffer length, the fields of the
-- chunk, its data.
unfoldable pub audio_bytes : ℕ → ℕ → PcmChunk → List ℕ
unfolding header_bytes assemble16 assemble32
audio_bytes nonce bufferms chunk =
    header_bytes audio_data 0 nonce
    ++ (assemble16 bufferms
        ++ (assemble32 chunk.play_at_tv_sec
            ++ (assemble32 chunk.play_at_tv_nsec
                ++ (assemble32 chunk.samples
                    ++ (chunk.frame_size ∷ chunk.channels ∷ assemble16 chunk.size
                        ++ (chunk.codec ∷ take chunk.size chunk.samples_data))))))

-- What `intercom_handle_audio` takes out of a packet: the length of the server's buffer and the chunk,
-- after `chunk_copy_meta`, `chunk_ntoh` and the copy of its data.
unfoldable pub parse_audio : List ℕ → ℕ × PcmChunk
unfolding byte read16 read32
parse_audio packet =
    let bytes = read16 packet 24 in
    (
      read16 packet 8,
      record {
        play_at_tv_sec = read32 packet 10;
        play_at_tv_nsec = read32 packet 14;
        samples = read32 packet 18;
        frame_size = byte packet 22;
        channels = byte packet 23;
        size = bytes;
        codec = byte packet 26;
        samples_data = take bytes (drop 27 packet);
      },
    )
