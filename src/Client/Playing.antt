-- ===== src/Client/Playing.antt =====
-- src/alsaplayer.c: `getchunk` and `alsaplayer_handle`, from the receive buffer to the sound card.
-- What the card tells is an argument: the delay in frames, and what each attempt to write gives. `Speed` is `adjust_speed`, which
-- computes with floating-point numbers and calls soxr. `none` is a loop that does not end, a division by zero or a call of
-- `exit_error`.
use snapcastc.Base.{
  ℕ, zero, suc, ◌+◌, ◌-◌, ◌*◌, ◌/◌, ◌%◌, ◌==◌, Bool, true, false, not, ◌&&◌, ◌||◌, List, [], ◌∷◌,
  Option, none, some, ltb, if◌then◌else◌, take, u32_mod, ◌>>=◌,
}
use snapcastc.Base.Int.{ℤ, pos, negsuc, is_pos, is_neg}
use snapcastc.Timespec.{Timespec, Timediff, timespec_cmp, time_sub, time_add_ms, timespec_isnear}
use snapcastc.Pcmchunk.{
  PcmChunk, Decoder, codec_pcm, chunk_is_empty, chunk_free_members, get_emptychunk, chunk_decode,
  pcmchunk_shaveoff,
}
use snapcastc.Player.{Player}
use snapcastc.Client.{ClientCtx}
use snapcastc.Client.Receive.{intercom_getnextaudiochunk, intercom_get_time_next_audiochunk}

abbrev pub near_ms : ℕ
near_ms = 1

abbrev pub not_even_close_ms : ℕ
not_even_close_ms = 30

abbrev pub Speed : Type 0
Speed = ClientCtx → PcmChunk → Timespec → PcmChunk

-- What is asked of the task queue: the next chunk is decoded, the output is closed after these
-- milliseconds.
pub data PlayerCall : Type 0 where
  decode_first_input : PlayerCall
  close_moved : ℕ → PlayerCall

-- How the time at which the card is ready compares with that of the next chunk.
pub record Timing : Type 0 where
  pub tdiff : Timediff
  pub is_near : Bool
  pub is_close : Bool
  pub overshot : Bool
  pub in_past : Bool

unfoldable pub timing : Timespec → Bool → Timespec → Timing
timing ready is_playing next =
    let tdiff = time_sub ready next in
    let near = timespec_isnear ready next near_ms in
    let overshot = not is_playing && not (is_neg (timespec_cmp ready next)) in
    record {
      tdiff = tdiff;
      is_near = near;
      is_close = timespec_isnear ready next not_even_close_ms;
      overshot = overshot;
      in_past = is_pos tdiff.sign && (not near && not overshot);
    }

abbrev pub drops : Timing → PcmChunk → Bool
drops t p = t.in_past && (not t.is_close && not (chunk_is_empty p))

abbrev pub freed : Option PcmChunk → PcmChunk → PcmChunk
freed none p = p
freed (some c) p = chunk_free_members c

-- The loop that drops chunks that are late. Its condition is looked at again after the drop, with
-- the comparison from before it.
unfoldable pub drop_late :
    ℕ → Timespec → ClientCtx → PcmChunk → Option (ClientCtx × (PcmChunk × Timing))
drop_late zero ready ctx p = none
drop_late (suc fuel) ready ctx p =
    let t = timing ready ctx.player.playing (intercom_get_time_next_audiochunk ctx) in
    let (taken, ctx') = intercom_getnextaudiochunk ctx in
    let p' = freed taken p in
    let rest = drop_late fuel ready ctx' p' in
    if drops t p then (if drops t p' then rest else some (ctx', (p', t))) else some (ctx, (p, t))

-- How long the silence is where it is not yet time for the next chunk.
unfoldable pub sleep_ms : Timediff → ℕ
sleep_ms tdiff =
    if is_pos tdiff.sign
    then 0
    else if tdiff.time.tv_sec == 0
    then tdiff.time.tv_nsec / 1000000
    else not_even_close_ms

-- There is no chunk: silence, and after more than five times the output stops.
unfoldable pub missed : Player → Player
missed player =
    let row = player.empty_chunks_in_row + 1 in
    record player {
      empty_chunks_in_row = row;
      playing = if ltb 5 row then false else player.playing;
    }

-- The time at which the card will have played what it has.
unfoldable pub alsa_ready : Timespec → Player → ℕ → Timespec
alsa_ready ctime player delay_frames =
    time_add_ms ctime (delay_frames * 1000 / player.rate + player.latency_ms)

module _ (opus_decode : Decoder) (adjust_speed : Speed) where
  -- The chunk that has been taken, if there was one.
  unfoldable pub play_taken :
      Timespec
      → Timing
      → PcmChunk
      → ClientCtx
      → Option PcmChunk
      → Option (ClientCtx × (PcmChunk × List PlayerCall))
  play_taken ready t p ctx none =
      some (record ctx { player = missed ctx.player }, (get_emptychunk p 50, []))
  play_taken ready t p ctx (some c) = do
    d ← chunk_decode opus_decode c
    let ctx' : ClientCtx = record ctx {
      player = record ctx.player { playing = true; empty_chunks_in_row = 0 };
    }
    some (
      ctx',
      (
        (if t.is_near then d.0 else adjust_speed ctx' d.0 ready),
        decode_first_input ∷ close_moved (ctx.bufferms * 12 / 10) ∷ [],
      ),
    )

  -- What follows the loop.
  unfoldable pub choose_chunk :
      Timespec → ClientCtx → PcmChunk → Timing → Option (ClientCtx × (PcmChunk × List PlayerCall))
  choose_chunk ready ctx p t =
      let (taken, ctx') = intercom_getnextaudiochunk ctx in
      let played = play_taken ready t p ctx' taken in
      if ctx.player.playing || (t.overshot || t.is_near)
      then played
      else some (ctx, (get_emptychunk p (sleep_ms t.tdiff), []))

  -- Each round but the last takes a chunk out of the buffer.
  unfoldable pub getchunk :
      ℕ → Timespec → ClientCtx → PcmChunk → ℕ → Option (ClientCtx × (PcmChunk × List PlayerCall))
  getchunk fuel ctime ctx p delay_frames = if ctx.player.rate == 0 then none else (do
    r ← drop_late fuel (alsa_ready ctime ctx.player delay_frames) ctx p
    choose_chunk (alsa_ready ctime ctx.player delay_frames) r.0 r.1.0 r.1.1)

-- An `int` as an `unsigned int`.
unfoldable pub unsigned_of : ℤ → ℕ
unsigned_of (pos n) = n % u32_mod
unsigned_of (negsuc n) = u32_mod - 1 - n % u32_mod

abbrev pub epipe : ℤ
epipe = negsuc 31

abbrev pub is_epipe : ℤ → Bool
is_epipe (pos n) = false
is_epipe (negsuc n) = n == 31

-- What the last attempt to write has given: after a drained buffer there is a second one. `pcm` is unsigned, so
-- that the test for errors, `pcm < 0`, never holds.
unfoldable pub write_result : ℤ → ℤ → ℤ
write_result first again = if is_epipe first then again else first

unfoldable pub frames_of : PcmChunk → ℕ
frames_of chunk = chunk.size / chunk.channels / chunk.frame_size

-- The bytes that the card has taken.
unfoldable pub taken_bytes : PcmChunk → ℤ → List ℕ
taken_bytes chunk (pos n) = take (chunk.channels * chunk.frame_size * n) chunk.samples_data
taken_bytes chunk (negsuc n) = []

abbrev pub is_zero_chunk : PcmChunk → Bool
is_zero_chunk chunk = chunk.channels == 0 || (chunk.frame_size == 0 || chunk.size == 0)

-- What is left of the chunk becomes the overflow, which is the chunk itself where there is one.
unfoldable pub write_chunk : Player → PcmChunk → ℤ → ℤ → Option (Player × List ℕ)
write_chunk player chunk first again =
    let result = write_result first again in
    let pcm = unsigned_of result in
    if is_zero_chunk chunk
    then some (player, [])
    else if ltb pcm (frames_of chunk)
    then (pcmchunk_shaveoff chunk pcm >>= λ rest.
        some (record player { overflow = some rest }, taken_bytes chunk result))
    else if pcm == frames_of chunk
    then some (record player { overflow = none }, taken_bytes chunk result)
    else some (player, taken_bytes chunk result)

abbrev pub blank_chunk : Player → PcmChunk
blank_chunk player = record {
  play_at_tv_sec = 0;
  play_at_tv_nsec = 0;
  samples = player.rate;
  frame_size = player.frame_size;
  channels = player.channels;
  size = 0;
  codec = codec_pcm;
  samples_data = [];
}

module _ (opus_decode : Decoder) (adjust_speed : Speed) where
  abbrev pub next_chunk :
      ℕ
      → Timespec
      → ClientCtx
      → ℕ
      → Option PcmChunk
      → Option (ClientCtx × (PcmChunk × List PlayerCall))
  next_chunk fuel ctime ctx delay none =
      getchunk opus_decode adjust_speed fuel ctime ctx (blank_chunk ctx.player) delay
  next_chunk fuel ctime ctx delay (some chunk) = some (ctx, (chunk, []))

  abbrev pub finish_write :
      ℤ
      → ℤ
      → ClientCtx × (PcmChunk × List PlayerCall)
      → Option (ClientCtx × (List ℕ × List PlayerCall))
  finish_write first again (ctx, (chunk, calls)) = write_chunk ctx.player chunk first again >>= λ w.
      some (record ctx { player = w.0 }, (w.1, calls))

  -- The new state, the bytes that the card has taken, and what has been asked of the task queue. The
  -- delay is 0 where the card does not tell it.
  unfoldable pub alsaplayer_handle :
      ℕ → Timespec → ℕ → ℤ → ℤ → ClientCtx → Option (ClientCtx × (List ℕ × List PlayerCall))
  alsaplayer_handle fuel ctime delay first again ctx = do
    r ← next_chunk fuel ctime ctx delay ctx.player.overflow
    finish_write first again r
