-- ===== src/Inputpipe/Steps.antt =====
-- src/inputpipe.c: what one call of `inputpipe_handle` does.
use snapcastc.Base.{
  ◌∙◌, ℕ, ◌+◌, ◌*◌, ◌==◌, ◌≡◌, ◌≤◌, ◌<◌, refl, arith, true, false, List, [], ◌∷◌, ◌++◌, length,
  take, drop, some, Bool-cases, inl, inr,
}
use snapcastc.Base.Int.{ℤ, pos, is_pos}
use snapcastc.Timespec.{Timespec, timespec, timespec_cmp}
use snapcastc.Timespec.Laws.{time_add_ms_correct}
use snapcastc.Pcmchunk.{chunk_get_play_at}
use snapcastc.Pcmchunk.Playback.{play_ns}
use snapcastc.Inputpipe.{
  finish_read, is_buffer_full, InputPipe, PipeState, idle, playing, throttle, Reading, failed,
  bytes, is_chunk_complete, received, after_read, complete, fill, play_at, inputpipe_handle,
}

-- The chunk has room for what is read: `read` is asked for no more than is missing.
abbrev pub Fits : InputPipe → Reading → Type 0
Fits ctx failed = ctx.data_read < ctx.chunksize
Fits ctx (bytes new) =
    (ctx.data_read < ctx.chunksize) × (ctx.data_read + length new ≤ ctx.chunksize)

received-data_read :
    (ctime : Timespec) (s : PipeState) (ctx : InputPipe) (new : List ℕ)
    → ((received ctime s ctx new).data_read ≡ ctx.data_read + length new)
      × ((received ctime s ctx new).chunksize ≡ ctx.chunksize)
unfolding received
received-data_read ctime idle ctx new = (refl, refl)
received-data_read ctime playing ctx new = (refl, refl)
received-data_read ctime throttle ctx new = (refl, refl)

after_read-Fits :
    (ctime : Timespec) (ctx : InputPipe) (r : Reading)
    → Fits ctx r
    → ((after_read ctime ctx r).data_read ≤ ctx.chunksize)
      × ((after_read ctime ctx r).chunksize ≡ ctx.chunksize)
unfolding after_read
after_read-Fits ctime ctx failed h = (omega arith, refl)
after_read-Fits ctime ctx (bytes []) h = (omega arith, refl)
after_read-Fits ctime ctx (bytes (b ∷ new)) h =
    let r = received-data_read ctime ctx.state ctx (b ∷ new) in (omega (arith, r.0, h.1), r.1)

complete-data_read :
    (ctime : Timespec) (ctx : InputPipe)
    → ((complete ctime ctx).1.data_read ≡ 0) × ((complete ctime ctx).1.chunksize ≡ ctx.chunksize)
unfolding complete
complete-data_read ctime ctx = (refl, refl)

-- What a call keeps: room in the chunk, and a result that tells of a complete chunk.
abbrev Keeps : ℕ → ℤ × InputPipe → Type 0
Keeps size (ret, ctx') =
    (ctx'.data_read < ctx'.chunksize)
    × (ctx'.chunksize ≡ size)
    × (is_pos ret ≡ true → ctx'.data_read ≡ 0)

finish-Keeps :
    (ctime : Timespec) (ctx : InputPipe)
    → ctx.data_read ≤ ctx.chunksize
    → 0 < ctx.chunksize
    → Keeps ctx.chunksize (finish_read ctime ctx)
unfolding finish_read is_chunk_complete
finish-Keeps ctime ctx h some_room = elim (Bool-cases (ctx.chunksize == ctx.data_read)) [
  | inl e ↦
      let c = complete-data_read ctime ctx in
      rw (finish_read, e) (omega (arith, c.0, c.1), c.1, λ _. c.0)
  | inr e ↦ rw (finish_read, e) (ground arith, refl, λ p. cc)
]

-- From a chunk with room, and a read of no more bytes than are missing, there is room in the chunk
-- again after the call, and where the call returns 1 or 2 it has completed a chunk and begins the
-- next.
pub inputpipe_handle-room :
    (bufferms : ℕ) (ctime : Timespec) (ctx : InputPipe) (r : Reading)
    → Fits ctx r
    → ctx.data_read < ctx.chunksize
    → let (ret, ctx') = inputpipe_handle bufferms ctime ctx r in
      (ctx'.data_read < ctx'.chunksize)
      × (ctx'.chunksize ≡ ctx.chunksize)
      × (is_pos ret ≡ true → ctx'.data_read ≡ 0)
unfolding inputpipe_handle
inputpipe_handle-room bufferms ctime ctx r h room =
    let a = after_read-Fits ctime ctx r h in
    let f = finish-Keeps ctime (after_read ctime ctx r) (omega (arith, a)) (omega (arith, a)) in
    elim (Bool-cases (is_buffer_full bufferms ctime ctx)) [
      | inl full ↦ rw (inputpipe_handle, full) (room, refl, λ p. cc)
      | inr more ↦ rw (inputpipe_handle, more) (f.0, f.1 ∙ a.1, f.2)
    ]

-- The last bytes of a chunk whose times fit their fields, read in time and with the buffer not
-- full while the pipe plays: the chunk is complete, holds what was there and then these bytes, and
-- plays exactly `read_ms` milliseconds after the one before.
pub inputpipe_handle_complete :
    (bufferms : ℕ) (ctime : Timespec) (ctx : InputPipe) (b : ℕ) (new : List ℕ)
    → ctx.state ≡ playing
    → ctx.data_read + length (b ∷ new) ≡ ctx.chunksize
    → ctx.chunk.play_at_tv_nsec < 1000000000
    → ctx.chunk.play_at_tv_sec + ctx.read_ms + 1 < 4294967296
    → is_buffer_full bufferms ctime ctx ≡ false
    → is_pos (timespec_cmp ctime (chunk_get_play_at (some ctx.chunk))) ≡ false
    → let (ret, ctx') = inputpipe_handle bufferms ctime ctx (bytes (b ∷ new)) in
      (ret ≡ pos 1)
      × (ctx'.data_read ≡ 0)
      × (play_ns ctx'.chunk ≡ play_ns ctx.chunk + ctx.read_ms * 1000000)
      × (ctx'.chunk.samples_data
          ≡ take ctx.data_read ctx.chunk.samples_data
            ++ (b ∷ new ++ drop (ctx.data_read + length (b ∷ new)) ctx.chunk.samples_data))
unfolding inputpipe_handle finish_read after_read received complete fill play_at is_chunk_complete
    chunk_get_play_at
inputpipe_handle_complete bufferms ctime ctx b new s all normal early room in_time =
    let later =
      time_add_ms_correct (timespec ctx.chunk.play_at_tv_sec ctx.chunk.play_at_tv_nsec)
        ctx.read_ms in
    let now_complete : (ctx.chunksize == ctx.data_read + length (b ∷ new)) ≡ true = ground arith in
    rw (room, s, now_complete, in_time) (refl, refl, omega (arith, later), refl)
