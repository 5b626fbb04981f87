-- ===== src/Examples/Packets.antt =====
-- src/intercom_common.h, intercom.c and intercom_srv.c: packets.
use snapcastc.Base.{ℕ, ◌≡◌, refl, arith, [], ◌∷◌}
use snapcastc.Pcmchunk.{PcmChunk}
use snapcastc.Pcmchunk.Laws.{IsWire}
use snapcastc.Packet.{PacketHdr, parse_header, parse_audio, audio_bytes}
use snapcastc.Packet.RoundTrip.{parse_audio-audio_bytes}

abbrev chunk : PcmChunk
chunk = record {
  play_at_tv_sec = 1000;
  play_at_tv_nsec = 5;
  samples = 44100;
  frame_size = 2;
  channels = 2;
  size = 4;
  codec = 0;
  samples_data = 1 ∷ 2 ∷ 3 ∷ 4 ∷ [];
}

chunk-IsWire : IsWire chunk
chunk-IsWire = record {
  sec = omega arith;
  nsec = omega arith;
  rate = omega arith;
  bytes = omega arith;
}

abbrev header : ℕ → PacketHdr
header n = record { version = 1; packet_type = 2; clientid = 3; nonce = n }

parse_audio-audio_bytes_example :
    (parse_audio (audio_bytes 70000 1000 chunk) ≡ (1000, chunk))
    × (parse_header (audio_bytes 70000 1000 chunk)
        ≡ record { version = 1; packet_type = 1; clientid = 0; nonce = 70000 })
parse_audio-audio_bytes_example =
    parse_audio-audio_bytes 70000 1000 chunk (omega arith) (omega arith) chunk-IsWire refl
