-- ===== src/Examples/Loops.antt =====
-- src/server.c: a stream with one client, and an encoder that writes two bytes.
use snapcastc.Base.{
  ℕ, suc, ◌≡◌, ◌==◌, refl, arith, true, false, List, [], ◌∷◌, ◌++◌, some, if◌then◌else◌,
}
use snapcastc.Timespec.{timespec, timespec_cmp, time_add_ms}
use snapcastc.Packet.{parse_audio, parse_header}
use snapcastc.Pcmchunk.{chunk_get_play_at}
use snapcastc.Inputpipe.{
  InputPipe, idle, Reading, failed, bytes, inputpipe_handle, is_buffer_full, finish_read,
  after_read, received, complete, fill, play_at, is_chunk_complete, inputpipe_hold, set_idle,
}
use snapcastc.Server.{ServerCtx, StreamRecord, stream_client_add, stream_client_remove}
use snapcastc.Server.Loop.{Encoder, handle_pipe, throttle_pipe, with_pipe}
use snapcastc.Server.Loop.Pipe.{encoded, handle_pipe_correct}
use snapcastc.Server.Loop.Sent.{stops, datagrams}
use snapcastc.Server.Loop.Reach.{Reach}
use snapcastc.Server.Loop.Stuck.{after_pause, after_pause_stuck}
use snapcastc.Examples.Servers.{server, stream, listener, pipe}

abbrev encoder : Encoder
encoder samples frames mss = some (7 ∷ 7 ∷ [])

abbrev last_bytes : Reading
last_bytes = bytes (9 ∷ 8 ∷ [])

abbrev filled : InputPipe
filled = record pipe {
  data_read = 0;
  chunk = record pipe.chunk { play_at_tv_nsec = 5000000; samples_data = 1 ∷ 2 ∷ 9 ∷ 8 ∷ [] };
}

-- No client has come yet.
abbrev quiet : StreamRecord
quiet = record stream { clients = []; inputpipe = record pipe { state = idle; watched = false } }

abbrev joined : StreamRecord
joined = stream_client_add quiet (listener 7)

abbrev paused : StreamRecord
paused = with_pipe joined (throttle_pipe joined.inputpipe)

-- The pipe has fallen idle while one client listens.
abbrev resting : StreamRecord
resting = record stream { clients = listener 7 ∷ []; inputpipe = record pipe { state = idle } }

abbrev abandoned : InputPipe
abandoned = (stream_client_remove resting 7).inputpipe

handle_pipe_correct_example :
    (srv' : ServerCtx) × (packet : List ℕ) × (handle_pipe encoder 1400
        (timespec 20 0)
        server
        []
        stream
        []
        last_bytes
      ≡ some srv')
    × (srv'.sent
        ≡ (server.sent ++ (if suc 0 == 2 then stops stream.clients else []))
          ++ datagrams stream.clients packet)
    × (parse_audio packet ≡ (server.bufferms, encoded filled.chunk (7 ∷ 7 ∷ [])))
    × (parse_header packet
        ≡ record { version = 1; packet_type = 1; clientid = 0; nonce = stream.seqno })
unfolding inputpipe_handle is_buffer_full timespec_cmp time_add_ms chunk_get_play_at finish_read
    after_read received complete fill play_at is_chunk_complete
handle_pipe_correct_example =
    handle_pipe_correct encoder 1400 (timespec 20 0) server [] stream [] last_bytes 0 filled
      (7 ∷ 7 ∷ []) refl (omega arith) (omega arith) refl (omega arith) (omega arith) (omega arith)
      (omega arith)

after_pause_stuck_example :
    let left = stream_client_remove resting (listener 7).id in
    let joined = after_pause left abandoned (listener 8) in
    (left.inputpipe.watched ≡ true)
    × (joined.clients ≡ (listener 8) ∷ [])
    × (joined.inputpipe.watched ≡ false)
unfolding stream_client_remove inputpipe_handle is_buffer_full timespec_cmp time_add_ms
    chunk_get_play_at inputpipe_hold set_idle
after_pause_stuck_example =
    after_pause_stuck 1000 (timespec 3 0) resting (listener 7) (listener 8) failed 0 abandoned refl
      refl refl refl
