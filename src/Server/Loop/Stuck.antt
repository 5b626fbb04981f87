-- ===== src/Server/Loop/Stuck.antt =====
-- src/server.c, stream.c and inputpipe.c: the last client leaves while the pipe is idle and read.
use snapcastc.Base.{ℕ, true, false, ltb, [], ◌∷◌, ◌≡◌, refl, length, arith}
use snapcastc.Base.Int.{negsuc}
use snapcastc.Timespec.{Timespec}
use snapcastc.Inputpipe.{
  InputPipe, idle, Reading, inputpipe_handle, inputpipe_resume_read, inputpipe_hold, set_idle,
}
use snapcastc.Intercom.{is_zero}
use snapcastc.Server.{
  ClientRecord, StreamRecord, client_cmp, stream_client_add, stream_client_remove, remove_client,
}
use snapcastc.Server.Loop.{with_pipe, throttle_pipe}

-- What becomes of a stream when its pipe turned out to be full, the task that lets it be read again
-- runs, and a client comes.
abbrev pub after_pause : StreamRecord → InputPipe → ClientRecord → StreamRecord
after_pause s pipe c =
    let paused = with_pipe s (throttle_pipe pipe) in
    stream_client_add
      (with_pipe paused (inputpipe_resume_read (length paused.clients) paused.inputpipe)) c

remove_only : (c : ClientRecord) → remove_client (c ∷ []) c.id ≡ []
unfolding remove_client client_cmp is_zero
remove_only c =
    let same : ltb c.id c.id ≡ false = ground arith in rw (remove_client, client_cmp, same) refl

left_watched :
    (s : StreamRecord) (c : ClientRecord)
    → s.clients ≡ c ∷ []
    → s.inputpipe.state ≡ idle
    → s.inputpipe.watched ≡ true
    → let left = stream_client_remove s c.id in
      (left.clients ≡ []) × (left.inputpipe.watched ≡ true)
unfolding stream_client_remove inputpipe_hold set_idle
left_watched s c one rests read =
    rw (stream_client_remove, one, remove_only c, inputpipe_hold, rests) (refl, read)

after_pause-clients :
    (s : StreamRecord) (pipe : InputPipe) (c : ClientRecord)
    → s.clients ≡ []
    → ((after_pause s pipe c).clients ≡ c ∷ []) × ((after_pause s pipe c).inputpipe.watched ≡ false)
unfolding stream_client_add throttle_pipe inputpipe_resume_read
after_pause-clients s pipe c none_left = rw (none_left) (refl, refl)

-- The only client leaves a stream whose pipe is idle and read: the pipe is read still. When it then
-- turns out to be full, and the task that lets it be read again runs before a client comes, the next
-- client is alone with a pipe that is not read.
pub after_pause_stuck :
    (bufferms : ℕ) (ctime : Timespec) (s : StreamRecord) (c c' : ClientRecord) (reading : Reading)
    (n : ℕ) (pipe : InputPipe)
    → s.clients ≡ c ∷ []
    → s.inputpipe.state ≡ idle
    → s.inputpipe.watched ≡ true
    → inputpipe_handle bufferms ctime (stream_client_remove s c.id).inputpipe reading
      ≡ (negsuc n, pipe)
    → let left = stream_client_remove s c.id in
      let joined = after_pause left pipe c' in
      (left.inputpipe.watched ≡ true)
      × (joined.clients ≡ c' ∷ [])
      × (joined.inputpipe.watched ≡ false)
after_pause_stuck bufferms ctime s c c' reading n pipe one rests read full =
    let left = left_watched s c one rests read in
    let joined = after_pause-clients (stream_client_remove s c.id) pipe c' left.0 in
    (left.1, joined.0, joined.1)
