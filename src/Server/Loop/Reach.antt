-- ===== src/Server/Loop/Reach.antt =====
-- src/server.c, stream.c and inputpipe.c: what can happen to a stream's pipe, one event after the other.
-- Beside the stream there is a flag that tells whether a task waits that lets the pipe be read again.
use snapcastc.Base.{
  ℕ, suc, ◌==◌, Bool, true, false, not, ◌&&◌, [], some, ◌≡◌, if◌then◌else◌, length, ◌++◌, ◌∷◌,
}
use snapcastc.Base.Int.{pos, negsuc}
use snapcastc.Timespec.{Timespec}
use snapcastc.Pcmchunk.{PcmChunk}
use snapcastc.Inputpipe.{
  InputPipe, idle, is_throttled, Reading, inputpipe_handle, inputpipe_resume_read, set_idle,
}
use snapcastc.Server.{
  ClientRecord, StreamRecord, is_idle, stream_client_add, stream_client_remove, remove_client,
}
use snapcastc.Server.Packets.{keep_packet}
use snapcastc.Server.Loop.{Encoder, encode_opus_handle, with_pipe, throttle_pipe, reopen_pipe}

-- `drop_task` in `stream_client_add` takes the task away if the pipe knows of one.
unfoldable pub pending_after_add : StreamRecord → ClientRecord → Bool → Bool
pending_after_add s c pending =
    if length (s.clients ++ c ∷ []) == 1 && is_idle s.inputpipe.state
    then pending && not s.inputpipe.resume_task
    else pending

-- `drop_task` in `inputpipe_hold`
unfoldable pub pending_after_hold : InputPipe → Bool → Bool
pending_after_hold pipe pending = if is_throttled pipe.state then false else pending

unfoldable pub pending_after_remove : StreamRecord → ℕ → Bool → Bool
unfolding pending_after_hold
pending_after_remove s id pending =
    if length (remove_client s.clients id) == 0
    then pending_after_hold s.inputpipe pending
    else pending

-- A pipe without clients that is still read when it is idle is left out by `leaves`.
pub data Reach (bufferms : ℕ) : StreamRecord → Bool → Type 0 where
  begins :
      (s : StreamRecord)
      → s.clients ≡ []
      → s.inputpipe.state ≡ idle
      → s.inputpipe.watched ≡ false
      → Reach bufferms s false
  reads :
      (s : StreamRecord) (pending : Bool) (ctime : Timespec) (reading : Reading) (pipe : InputPipe)
      → Reach bufferms s pending
      → s.inputpipe.watched ≡ true
      → inputpipe_handle bufferms ctime s.inputpipe reading ≡ (pos 0, pipe)
      → Reach bufferms (with_pipe s pipe) pending
  sends :
      (s : StreamRecord) (pending : Bool) (ctime : Timespec) (reading : Reading) (pipe : InputPipe)
      (n : ℕ) (opus_encode : Encoder) (mss : ℕ) (chunk : PcmChunk)
      → Reach bufferms s pending
      → s.inputpipe.watched ≡ true
      → inputpipe_handle bufferms ctime s.inputpipe reading ≡ (pos (suc n), pipe)
      → encode_opus_handle opus_encode mss pipe.chunk ≡ some chunk
      → Reach bufferms (keep_packet bufferms (with_pipe s (record pipe { chunk = chunk }))) pending
  throttles :
      (s : StreamRecord) (pending : Bool) (ctime : Timespec) (reading : Reading) (pipe : InputPipe)
      (n : ℕ)
      → Reach bufferms s pending
      → s.inputpipe.watched ≡ true
      → inputpipe_handle bufferms ctime s.inputpipe reading ≡ (negsuc n, pipe)
      → Reach bufferms (with_pipe s (throttle_pipe pipe)) true
  resumes :
      (s : StreamRecord)
      → Reach bufferms s true
      → Reach bufferms (with_pipe s (inputpipe_resume_read (length s.clients) s.inputpipe)) false
  underruns :
      (s : StreamRecord) (pending : Bool)
      → Reach bufferms s pending
      → s.inputpipe.idle_task ≡ true
      → Reach bufferms (with_pipe s (set_idle s.inputpipe)) pending
  fails :
      (s : StreamRecord) (pending : Bool)
      → Reach bufferms s pending
      → s.inputpipe.watched ≡ true
      → Reach bufferms
          (with_pipe s (reopen_pipe (length s.clients) s.inputpipe))
          (pending_after_hold s.inputpipe pending)
  joins :
      (s : StreamRecord) (pending : Bool) (c : ClientRecord)
      → Reach bufferms s pending
      → Reach bufferms (stream_client_add s c) (pending_after_add s c pending)
  leaves :
      (s : StreamRecord) (pending : Bool) (id : ℕ)
      → Reach bufferms s pending
      → is_idle s.inputpipe.state && s.inputpipe.watched && length (remove_client s.clients id) == 0
        ≡ false
      → Reach bufferms (stream_client_remove s id) (pending_after_remove s id pending)
