-- ===== src/Server/Loop/Pipe.antt =====
-- src/server.c, opuscodec.c, inputpipe.c and intercom_srv.c: a chunk on its way from the pipe to the
-- packets that a stream's clients get.
use snapcastc.Base.{
  ℕ, ◌++◌, suc, List, [], true, false, if◌then◌else◌, ◌≡◌, refl, ap, sym, ◌∙◌, Bool-cases, inl, inr,
  ◌<◌, ◌≤◌, ◌/◌, ◌%◌, length, drop, some, arith, ltb, ◌==◌, take-append, take-all, subst, ℕ,
}
use mathlib.Core.List.{append-nil}
use snapcastc.Base.Int.{ℤ, pos, is_pos}
use snapcastc.Timespec.{Timespec}
use snapcastc.Pcmchunk.{PcmChunk, codec_opus}
use snapcastc.Pcmchunk.Laws.{IsWire}
use snapcastc.Packet.{audio_bytes, parse_audio, parse_header}
use snapcastc.Packet.RoundTrip.{parse_audio-audio_bytes}
use snapcastc.Inputpipe.{
  InputPipe, Reading, inputpipe_handle, complete, finish_read, after_read, play_at, is_buffer_full,
  is_chunk_complete,
}
use snapcastc.Server.{StreamRecord, ServerCtx}
use snapcastc.Server.Clients.{clientmgr_stop_clients}
use snapcastc.Server.Packets.{intercom_send_audio}
use snapcastc.Server.Loop.{
  Encoder, put_encoded, encode_opus_handle, with_pipe, is_reset, send_chunk, after_handle,
  handle_pipe,
}
use snapcastc.Server.Resend.{audio_packet_of-number}
use snapcastc.Server.Loop.Sent.{
  send_audio-sent, stop_clients-bufferms, datagrams, stops, stop_clients-sent,
}

-- The chunk that the packet describes: the encoded bytes with the pipe's time and format.
abbrev pub encoded : PcmChunk → List ℕ → PcmChunk
encoded chunk out = record chunk { size = length out; samples_data = out; codec = codec_opus }

abbrev padded : PcmChunk → List ℕ → PcmChunk
padded chunk out = record chunk {
  size = length out;
  samples_data = out ++ drop (length out) chunk.samples_data;
  codec = codec_opus;
}

complete-IsWire : (ctime : Timespec) (ctx : InputPipe) → IsWire (complete ctime ctx).1.chunk
unfolding complete play_at
complete-IsWire ctime ctx = record {
  sec = omega arith;
  nsec = omega arith;
  rate = omega arith;
  bytes = omega arith;
}

finish-IsWire :
    (ctime : Timespec) (ctx ctx' : InputPipe) (n : ℕ)
    → finish_read ctime ctx ≡ (pos (suc n), ctx')
    → IsWire ctx'.chunk
unfolding finish_read
finish-IsWire ctime ctx ctx' n h = elim (Bool-cases (is_chunk_complete ctx)) [
  | inl e ↦ subst (λ r. IsWire r.1.chunk) (rw (finish_read, e) at h) (complete-IsWire ctime ctx)
  | inr e ↦ let no : false ≡ true = ap (λ r. is_pos r.0) (rw (finish_read, e) at h) in cc
]

handle-IsWire :
    (bufferms : ℕ) (ctime : Timespec) (ctx ctx' : InputPipe) (reading : Reading) (n : ℕ)
    → inputpipe_handle bufferms ctime ctx reading ≡ (pos (suc n), ctx')
    → IsWire ctx'.chunk
unfolding inputpipe_handle
handle-IsWire bufferms ctime ctx ctx' reading n h =
    elim (Bool-cases (is_buffer_full bufferms ctime ctx)) [
      | inl e ↦ let no : false ≡ true = ap (λ r. is_pos r.0) (rw (inputpipe_handle, e) at h) in cc
      | inr e ↦
          finish-IsWire ctime (after_read ctime ctx reading) ctx' n (rw (inputpipe_handle, e) at h)
    ]

encode_found :
    (opus_encode : Encoder) (mss : ℕ) (chunk : PcmChunk) (out : List ℕ)
    → 0 < chunk.frame_size
    → 0 < chunk.channels
    → opus_encode chunk.samples_data (chunk.size / chunk.frame_size / chunk.channels) mss ≡ some out
    → length out ≤ length chunk.samples_data
    → length out < 65536
    → encode_opus_handle opus_encode mss chunk ≡ some (padded chunk out)
unfolding encode_opus_handle put_encoded
encode_found opus_encode mss chunk out fs ch e room small =
    let sized : (chunk.frame_size == 0) ≡ false = ground arith in
    let voiced : (chunk.channels == 0) ≡ false = ground arith in
    let fits : ltb (length chunk.samples_data) (length out) ≡ false = ground arith in
    let number : length out % 65536 ≡ length out = omega arith in
    rw (encode_opus_handle, sized, voiced, e, put_encoded, fits, number) refl

audio_bytes-padded :
    (nonce bufferms : ℕ) (chunk : PcmChunk) (out : List ℕ)
    → audio_bytes nonce bufferms (padded chunk out) ≡ audio_bytes nonce bufferms (encoded chunk out)
unfolding audio_bytes
audio_bytes-padded nonce bufferms chunk out =
    let rest = drop (length out) chunk.samples_data in
    rw (take-append out rest (length out) refl, take-all out (length out) refl) refl

abbrev stopped : ServerCtx → StreamRecord → ℤ → ServerCtx
stopped srv s ret = if is_reset ret then clientmgr_stop_clients srv s.clients else srv

stopped-sent :
    (srv : ServerCtx) (s : StreamRecord) (ret : ℤ)
    → ((stopped srv s ret).sent ≡ srv.sent ++ (if is_reset ret then stops s.clients else []))
      × ((stopped srv s ret).bufferms ≡ srv.bufferms)
stopped-sent srv s ret = elim (Bool-cases (is_reset ret)) [
  | inl e ↦ rw e (stop_clients-sent srv s.clients, stop_clients-bufferms srv s.clients)
  | inr e ↦ rw e (sym (append-nil srv.sent), refl)
]

-- A stream's pipe reports a complete chunk, the encoder gives bytes that fit into the chunk's data,
-- and the stream's number is below the last one: the clients of the stream are stopped if the input
-- was reset, and then those that are not muted get one packet each, from the last to the first.
-- Out of it a client reads the encoded bytes, with the time and the format that the pipe gave the
-- chunk and the server's buffer length, and the stream's number.
pub handle_pipe_correct :
    (opus_encode : Encoder) (mss : ℕ) (ctime : Timespec) (srv : ServerCtx)
    (before : List StreamRecord) (s : StreamRecord) (after : List StreamRecord) (reading : Reading)
    (n : ℕ) (pipe : InputPipe) (out : List ℕ)
    → inputpipe_handle srv.bufferms ctime s.inputpipe reading ≡ (pos (suc n), pipe)
    → 0 < pipe.chunk.frame_size
    → 0 < pipe.chunk.channels
    → opus_encode pipe.chunk.samples_data
        (pipe.chunk.size / pipe.chunk.frame_size / pipe.chunk.channels)
        mss
      ≡ some out
    → length out ≤ length pipe.chunk.samples_data
    → length out < 65536
    → s.seqno < 4294967295
    → srv.bufferms < 65536
    → (srv' : ServerCtx) × (packet : List ℕ) × (handle_pipe opus_encode mss ctime srv before s after
          reading
        ≡ some srv')
      × (srv'.sent
          ≡ (srv.sent ++ (if suc n == 2 then stops s.clients else []))
            ++ datagrams s.clients packet)
      × (parse_audio packet ≡ (srv.bufferms, encoded pipe.chunk out))
      × (parse_header packet
          ≡ record { version = 1; packet_type = 1; clientid = 0; nonce = s.seqno })
unfolding handle_pipe after_handle send_chunk
handle_pipe_correct opus_encode mss ctime srv before s after reading n pipe out handled fs ch e room
      fits low buffer =
    let wire = handle-IsWire srv.bufferms ctime s.inputpipe pipe reading n handled in
    let found = encode_found opus_encode mss pipe.chunk out fs ch e room fits in
    let s' = with_pipe s (record pipe { chunk = padded pipe.chunk out }) in
    let base = stopped srv s (pos (suc n)) in
    let stop = stopped-sent srv s (pos (suc n)) in
    let number = audio_packet_of-number base.bufferms s' low in
    let round =
      parse_audio-audio_bytes s.seqno srv.bufferms (encoded pipe.chunk out) (omega arith) buffer
        (record { sec = wire.sec; nsec = wire.nsec; rate = wire.rate; bytes = fits }) refl in
    (
      intercom_send_audio base before s' after,
      audio_bytes s.seqno srv.bufferms (encoded pipe.chunk out),
      rw (handle_pipe, handled, found) refl,
      send_audio-sent base before s' after
          ∙ ap (λ p. base.sent ++ datagrams s.clients p.bytes) number
          ∙ ap
              (λ b.
                base.sent ++ datagrams s.clients (audio_bytes s.seqno b (padded pipe.chunk out)))
              stop.1
          ∙ ap (λ p. base.sent ++ datagrams s.clients p)
              (audio_bytes-padded s.seqno srv.bufferms pipe.chunk out)
          ∙ ap
              (λ t.
                t
                ++ datagrams s.clients (audio_bytes s.seqno srv.bufferms (encoded pipe.chunk out)))
              stop.0,
      round.0,
      round.1,
    )
