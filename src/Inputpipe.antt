-- ===== src/Inputpipe.antt =====
-- src/inputpipe.c and inputpipe.h: the pipe that a stream reads its audio from, as a state machine.
-- What `read` gives is an argument. The fields `resume_task` and `idle_task` tell whether these pointers
-- are set, and `watched` whether the file descriptor is among those that the server waits for.
-- Numbers of type `ssize_t` and `int` are non-negative.
pub mod Steps
use snapcastc.Base.{
  ℕ, ◌+◌, ◌-◌, ◌*◌, ◌/◌, ◌%◌, ◌==◌, Bool, true, false, not, ◌&&◌, List, [], ◌∷◌, ◌++◌,
  if◌then◌else◌, length, take, drop, replicate, u8_mod, u16_mod, u32_mod, some,
}
use snapcastc.Base.Int.{ℤ, pos, negsuc, is_pos}
use snapcastc.Text.{Text}
use snapcastc.Timespec.{Timespec, timespec, timespec_cmp, time_add_ms}
use snapcastc.Pcmchunk.{PcmChunk, codec_pcm, chunk_get_play_at, chunk_free_members}

pub data PipeState : Type 0 where
  idle : PipeState
  playing : PipeState
  throttle : PipeState

pub record InputPipe : Type 0 where
  pub chunk : PcmChunk
  pub state : PipeState
  pub data_read : ℕ
  pub read_ms : ℕ
  pub samples : ℕ
  pub samplesize : ℕ
  pub channels : ℕ
  pub chunksize : ℕ
  pub initialized : Bool
  pub resume_task : Bool
  pub idle_task : Bool
  pub watched : Bool
  pub fname : Text

-- What one `read` gives.
pub data Reading : Type 0 where
  failed : Reading
  bytes : List ℕ → Reading

pub cold_start_offset_ms : ℕ
cold_start_offset_ms = 100

abbrev pub is_playing : PipeState → Bool
is_playing idle = false
is_playing playing = true
is_playing throttle = false

abbrev pub is_throttled : PipeState → Bool
is_throttled idle = false
is_throttled playing = false
is_throttled throttle = true

unfoldable pub is_chunk_complete : InputPipe → Bool
is_chunk_complete ctx = ctx.chunksize == ctx.data_read

unfoldable pub set_idle : InputPipe → InputPipe
set_idle ctx = record ctx { state = idle; idle_task = false; data_read = 0 }

-- The fields of the chunk have 32 bits.
unfoldable pub play_at : PcmChunk → Timespec → PcmChunk
play_at chunk t = record chunk {
  play_at_tv_sec = t.tv_sec % u32_mod;
  play_at_tv_nsec = t.tv_nsec % u32_mod;
}

-- The bytes go into the chunk's memory behind those that have been read.
unfoldable pub fill : PcmChunk → ℕ → List ℕ → PcmChunk
fill chunk offset new = record chunk {
  samples_data =
      take offset chunk.samples_data ++ (new ++ drop (offset + length new) chunk.samples_data);
}

-- When a pipe that was idle starts to play.
pub start_playing_at : Timespec → InputPipe → Timespec
unfolding cold_start_offset_ms
start_playing_at ctime ctx =
    let last = chunk_get_play_at (some ctx.chunk) in
    if is_pos (timespec_cmp ctime last)
    then time_add_ms ctime cold_start_offset_ms
    else time_add_ms last ctx.read_ms

-- Bytes have been read, in each of the states.
unfoldable pub received : Timespec → PipeState → InputPipe → List ℕ → InputPipe
unfolding play_at fill start_playing_at
received ctime idle ctx new = record ctx {
  data_read = ctx.data_read + length new;
  state = playing;
  chunk = play_at (fill ctx.chunk ctx.data_read new) (start_playing_at ctime ctx);
  idle_task = true;
}
received ctime playing ctx new = record ctx {
  data_read = ctx.data_read + length new;
  chunk = fill ctx.chunk ctx.data_read new;
}
received ctime throttle ctx new = record ctx {
  data_read = ctx.data_read + length new;
  chunk = fill ctx.chunk ctx.data_read new;
}

unfoldable pub after_read : Timespec → InputPipe → Reading → InputPipe
unfolding received
after_read ctime ctx failed = ctx
after_read ctime ctx (bytes []) = record ctx { state = idle }
after_read ctime ctx (bytes (b ∷ new)) = received ctime ctx.state ctx (b ∷ new)

-- The chunk is complete: when it plays, and what the call returns.
unfoldable pub complete : Timespec → InputPipe → ℤ × InputPipe
unfolding play_at cold_start_offset_ms
complete ctime ctx =
    let old = chunk_get_play_at (some ctx.chunk) in
    let late = is_pos (timespec_cmp ctime old) in
    let t = if late then time_add_ms ctime cold_start_offset_ms else time_add_ms old ctx.read_ms in
    let timed = play_at ctx.chunk t in
    (
      (if late then pos 2 else pos 1),
      record ctx {
        data_read = 0;
        chunk = record timed {
          size = ctx.data_read % u16_mod;
          frame_size = ctx.samplesize % u8_mod;
          samples = ctx.samples % u32_mod;
          channels = ctx.channels % u8_mod;
          codec = codec_pcm;
        };
      },
    )

-- The end of the call: the chunk may be complete now.
unfoldable pub finish_read : Timespec → InputPipe → ℤ × InputPipe
finish_read ctime ctx = if is_chunk_complete ctx then complete ctime ctx else (pos 0, ctx)

unfoldable pub is_buffer_full : ℕ → Timespec → InputPipe → Bool
is_buffer_full bufferms ctime ctx =
    is_pos
      (timespec_cmp (chunk_get_play_at (some ctx.chunk)) (time_add_ms ctime (bufferms * 95 / 100)))

unfoldable pub inputpipe_handle : ℕ → Timespec → InputPipe → Reading → ℤ × InputPipe
inputpipe_handle bufferms ctime ctx reading =
    if is_buffer_full bufferms ctime ctx
    then (negsuc 0, ctx)
    else finish_read ctime (after_read ctime ctx reading)

unfoldable pub inputpipe_init : InputPipe → InputPipe
inputpipe_init ctx =
    let c = ctx.samples * ctx.channels * ctx.samplesize * ctx.read_ms / 1000 % u32_mod in
    record ctx {
      chunksize = c % u16_mod;
      data_read = 0;
      initialized = true;
      chunk = record ctx.chunk {
        size = c % u16_mod;
        samples = ctx.samples % u32_mod;
        frame_size = ctx.samplesize % u8_mod;
        channels = ctx.channels % u8_mod;
        samples_data = replicate (c % u16_mod) 0;
      };
    }

-- `clients` is the number of the stream's clients.
unfoldable pub inputpipe_resume_read : ℕ → InputPipe → InputPipe
unfolding inputpipe_init
inputpipe_resume_read clients ctx =
    let ready = if ctx.initialized then ctx else inputpipe_init ctx in
    if not (clients == 0) && not (is_playing ctx.state)
    then record ready { watched = true; state = playing; resume_task = false }
    else ctx

unfoldable pub inputpipe_hold : InputPipe → InputPipe
unfolding set_idle
inputpipe_hold ctx = set_idle (record ctx {
  watched = if is_playing ctx.state then false else ctx.watched;
  resume_task = if is_throttled ctx.state then false else ctx.resume_task;
})

-- A file descriptor that is closed is not waited for any more.
unfoldable pub inputpipe_uninit : InputPipe → InputPipe
unfolding inputpipe_hold
inputpipe_uninit ctx =
    let held = inputpipe_hold ctx in
    record held { chunk = chunk_free_members held.chunk; initialized = false; watched = false }
