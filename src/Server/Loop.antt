-- ===== src/Server/Loop.antt =====
-- src/server.c and opuscodec.c: what the loop of the server does when a stream's pipe can be read, and
-- when its other side is gone. What `opus_encode` gives is an argument: for the data, the number of
-- frames and the room in the buffer, the bytes it writes, or `none` where it fails.
pub mod Sent
pub mod Pipe
pub mod Reach
pub mod Fed
pub mod Served
pub mod Stuck
use snapcastc.Base.{
  ◌>>=◌, ℕ, ◌/◌, ◌%◌, ◌==◌, Bool, true, false, ◌||◌, List, [], ◌∷◌, ◌++◌, Option, none, some, ltb,
  if◌then◌else◌, length, drop, u16_mod,
}
use snapcastc.Base.Int.{ℤ, pos, negsuc, is_pos}
use snapcastc.Timespec.{Timespec}
use snapcastc.Pcmchunk.{PcmChunk, codec_opus}
use snapcastc.Inputpipe.{
  InputPipe, throttle, Reading, inputpipe_handle, inputpipe_uninit, inputpipe_resume_read,
}
use snapcastc.Server.{StreamRecord, resume_posted, ServerCtx}
use snapcastc.Server.Clients.{clientmgr_stop_clients}
use snapcastc.Server.Packets.{intercom_send_audio}

abbrev pub Encoder : Type 0
Encoder = List ℕ → ℕ → ℕ → Option (List ℕ)

-- The bytes replace the first ones of the chunk's data. `none` is a copy of more bytes than the data
-- has room for.
unfoldable pub put_encoded : PcmChunk → List ℕ → Option PcmChunk
put_encoded chunk out =
    if ltb (length chunk.samples_data) (length out)
    then none
    else some (record chunk {
      size = length out % u16_mod;
      samples_data = out ++ drop (length out) chunk.samples_data;
      codec = codec_opus;
    })

-- `none` is a division by zero, or the copy of a negative number of bytes after the encoder failed.
unfoldable pub encode_opus_handle : Encoder → ℕ → PcmChunk → Option PcmChunk
unfolding put_encoded
encode_opus_handle opus_encode mss chunk =
    if chunk.frame_size == 0 || chunk.channels == 0
    then none
    else opus_encode chunk.samples_data (chunk.size / chunk.frame_size / chunk.channels) mss
      >>= put_encoded chunk

-- The pipe is not read until the task runs.
unfoldable pub throttle_pipe : InputPipe → InputPipe
throttle_pipe pipe = record pipe { watched = false; state = throttle; resume_task = true }

abbrev pub is_reset : ℤ → Bool
is_reset (pos n) = n == 2
is_reset (negsuc n) = false

abbrev pub with_pipe : StreamRecord → InputPipe → StreamRecord
with_pipe s pipe = record s { inputpipe = pipe }

-- A chunk is complete: it is encoded and goes out, after the clients have been stopped if the input
-- was reset.
unfoldable pub send_chunk :
    Encoder
    → ℕ
    → ServerCtx
    → List StreamRecord
    → StreamRecord
    → List StreamRecord
    → ℤ
    → Option ServerCtx
unfolding encode_opus_handle intercom_send_audio clientmgr_stop_clients
send_chunk opus_encode mss srv before s after ret =
    encode_opus_handle opus_encode mss s.inputpipe.chunk >>= λ chunk. some (
      intercom_send_audio (if is_reset ret then clientmgr_stop_clients srv s.clients else srv)
        before (with_pipe s (record s.inputpipe { chunk = chunk })) after)

-- What follows a call of `inputpipe_handle`.
unfoldable pub after_handle :
    Encoder
    → ℕ
    → ServerCtx
    → List StreamRecord
    → StreamRecord
    → List StreamRecord
    → ℤ × InputPipe
    → Option ServerCtx
unfolding throttle_pipe send_chunk
after_handle opus_encode mss srv before s after (negsuc n, pipe) = some (record srv {
  streams = before ++ with_pipe s (throttle_pipe pipe) ∷ after;
  tasks = srv.tasks ++ resume_posted (pipe.read_ms / 1000) (pipe.read_ms % 1000) ∷ [];
})
after_handle opus_encode mss srv before s after (pos n, pipe) =
    if is_pos (pos n)
    then send_chunk opus_encode mss srv before (with_pipe s pipe) after (pos n)
    else some (record srv { streams = before ++ with_pipe s pipe ∷ after })

-- The branch of `loop` for a pipe that can be read, whose stream stands between these others.
unfoldable pub handle_pipe :
    Encoder
    → ℕ
    → Timespec
    → ServerCtx
    → List StreamRecord
    → StreamRecord
    → List StreamRecord
    → Reading
    → Option ServerCtx
unfolding after_handle
handle_pipe opus_encode mss ctime srv before s after reading =
    after_handle opus_encode mss srv before s after
      (inputpipe_handle srv.bufferms ctime s.inputpipe reading)

-- The branch of `loop` for an error on a pipe.
unfoldable pub reopen_pipe : ℕ → InputPipe → InputPipe
unfolding inputpipe_uninit inputpipe_resume_read
reopen_pipe clients pipe = inputpipe_resume_read clients (inputpipe_uninit pipe)
