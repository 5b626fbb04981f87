-- ===== src/Client/Played.antt =====
-- src/alsaplayer.c: `alsaplayer_handle`, what the card plays of a chunk.
use snapcastc.Pcmchunk.{shaved, Decoder, PcmChunk, pcmchunk_shaveoff}
use snapcastc.Base.{
  ◌==◌, refl, ◌>>=◌, subst, take-append-drop, ==_self, ltb, lt→ltb, take-all, take, List, [], ◌∷◌,
  ◌++◌, Option, some, none, true, ap, ◌∙◌, ◌*◌, ◌+◌, ◌-◌, ◌≤◌, ◌/◌, ◌%◌, length-drop, arith, false,
  ℕ, ◌<◌, ◌≡◌, length,
}
use snapcastc.Client.Playing.{
  next_chunk, Speed, write_chunk, write_result, unsigned_of, taken_bytes, alsaplayer_handle,
  finish_write, frames_of, is_zero_chunk,
}
use mathlib.Core.List.{append-nil}
use native.Mathlib.Nat.{div-le_self, mul_assoc, mul-add, mul-pos, mul-div_cancel_left}
use snapcastc.Base.Int.{ℤ, pos}
use snapcastc.Timespec.{Timespec}
use snapcastc.Player.{Player}
use snapcastc.Client.{ClientCtx}

-- A chunk of so many frames, with all their bytes.
pub record IsWhole (chunk : PcmChunk) (frames : ℕ) : Type 0 where
  pub channels : 0 < chunk.channels
  pub frame_size : 0 < chunk.frame_size
  pub some_frames : 0 < frames
  pub rate : 0 < chunk.samples
  pub size : chunk.size ≡ chunk.channels * chunk.frame_size * frames
  pub fits : chunk.size < 65536
  pub bytes : length chunk.samples_data ≡ chunk.size

frames_of-whole : (chunk : PcmChunk) (frames : ℕ) → IsWhole chunk frames → frames_of chunk ≡ frames
unfolding frames_of
frames_of-whole chunk frames h =
    let c = chunk.channels in
    let f = chunk.frame_size in
    ap (λ s. s / c / f) (h.size ∙ mul_assoc c f frames)
    ∙ (ap (λ s. s / f) (mul-div_cancel_left (f * frames) h.channels)
        ∙ mul-div_cancel_left frames h.frame_size)

-- The bytes of some of the frames, and of the others.
split_bytes : (unit frames k : ℕ) → k ≤ frames → unit * frames ≡ unit * k + unit * (frames - k)
split_bytes unit frames k h =
    let parts : frames ≡ k + (frames - k) = omega arith in
    ap (λ n. unit * n) parts ∙ mul-add unit k (frames - k)

is_zero_chunk-whole :
    (chunk : PcmChunk) (frames : ℕ) → IsWhole chunk frames → is_zero_chunk chunk ≡ false
is_zero_chunk-whole chunk frames h =
    let c = h.channels in
    let f = h.frame_size in
    let n = h.some_frames in
    let p : 0 < chunk.channels * chunk.frame_size * frames = mul-pos (mul-pos c f) n in
    let s : 0 < chunk.size = rw h.size p in ground arith

shaveoff-IsWhole :
    (chunk : PcmChunk) (frames k : ℕ)
    → IsWhole chunk frames
    → k < frames
    → IsWhole (shaved chunk k) (frames - k)
unfolding shaved
shaveoff-IsWhole chunk frames k h less =
    let unit = chunk.channels * chunk.frame_size in
    let parts = split_bytes unit frames k (omega arith) in
    let whole = h.size in
    let fits = h.fits in
    let left : (chunk.size + 65536 - unit * k % 65536) % 65536 ≡ unit * (frames - k) =
      omega arith in
    record {
      channels = h.channels;
      frame_size = h.frame_size;
      some_frames = omega arith;
      rate = h.rate;
      size = left;
      fits = omega arith;
      bytes = omega (arith, length-drop (unit * k) chunk.samples_data, h.bytes, left);
    }

frames-lt : (chunk : PcmChunk) (frames : ℕ) → IsWhole chunk frames → frames < 65536
unfolding frames_of
frames-lt chunk frames h =
    let counted = frames_of-whole chunk frames h in
    omega (
      arith,
      counted,
      h.fits,
      div-le_self chunk.size chunk.channels,
      div-le_self (chunk.size / chunk.channels) chunk.frame_size,
    )

write_chunk-partial :
    (player : Player) (chunk : PcmChunk) (frames k : ℕ)
    → IsWhole chunk frames
    → k < frames
    → write_chunk player chunk (pos k) (pos k)
      ≡ some (
        record player { overflow = some (shaved chunk k) },
        take (chunk.channels * chunk.frame_size * k) chunk.samples_data,
      )
unfolding write_chunk write_result unsigned_of taken_bytes pcmchunk_shaveoff
write_chunk-partial player chunk frames k h less =
    let small = frames-lt chunk frames h in
    let same : k % 4294967296 ≡ k = omega arith in
    let rate = h.rate in
    let some_rate : (chunk.samples == 0) ≡ false = ground arith in
    let test : ltb k frames ≡ true = lt→ltb k frames less in
    rw (is_zero_chunk-whole chunk frames h, same, frames_of-whole chunk frames h, test, some_rate)
      refl

write_chunk-rest :
    (player : Player) (chunk : PcmChunk) (frames : ℕ)
    → IsWhole chunk frames
    → write_chunk player chunk (pos frames) (pos frames)
      ≡ some (record player { overflow = none }, chunk.samples_data)
unfolding write_chunk write_result unsigned_of taken_bytes
write_chunk-rest player chunk frames h =
    let small = frames-lt chunk frames h in
    let same : frames % 4294967296 ≡ frames = omega arith in
    let no_less : ltb frames frames ≡ false = ground arith in
    let all : take (chunk.channels * chunk.frame_size * frames) chunk.samples_data
        ≡ chunk.samples_data =
      take-all chunk.samples_data (chunk.channels * chunk.frame_size * frames) (h.bytes ∙ h.size) in
    rw
      (
        is_zero_chunk-whole chunk frames h,
        same,
        frames_of-whole chunk frames h,
        no_less,
        ==_self frames,
        all,
      )
      refl

-- One call of the handler: when it is, the delay that the card tells, and how many frames it takes.
pub record Attempt : Type 0 where
  pub ctime : Timespec
  pub delay : ℕ
  pub frames : ℕ

abbrev pub total_frames : List Attempt → ℕ
total_frames [] = 0
total_frames (a ∷ attempts) = a.frames + total_frames attempts

module _ (opus_decode : Decoder) (adjust_speed : Speed) (fuel : ℕ) where
  -- Calls of the handler, one after the other, and the bytes that the card has taken in all.
  unfoldable pub play : List Attempt → ClientCtx → Option (ClientCtx × List ℕ)
  play [] ctx = some (ctx, [])
  play (a ∷ attempts) ctx = do
    r ←
        alsaplayer_handle opus_decode adjust_speed fuel a.ctime a.delay (pos a.frames)
          (pos a.frames) ctx
    q ← play attempts r.0
    some (q.0, r.1.0 ++ q.1)

  handle-overflow :
      (ctime : Timespec) (delay : ℕ) (first again : ℤ) (ctx : ClientCtx) (chunk : PcmChunk)
      → ctx.player.overflow ≡ some chunk
      → alsaplayer_handle opus_decode adjust_speed fuel ctime delay first again ctx
        ≡ finish_write opus_decode adjust_speed first again (ctx, (chunk, []))
  unfolding alsaplayer_handle
  handle-overflow ctime delay first again ctx chunk e =
      ap
        (λ o. next_chunk opus_decode adjust_speed fuel ctime ctx delay o >>= λ r.
          finish_write opus_decode adjust_speed first again r)
        e

  -- A chunk of whole frames and of a rate that is not 0, which is kept as the overflow and which the
  -- card takes in several goes, none of the first ones all that is left, and together
  -- all its frames, is played from its first byte to its last, none of them left out or played
  -- twice, and nothing is left of it.
  pub play_correct :
      (attempts : List Attempt) (last : Attempt) (ctx : ClientCtx) (chunk : PcmChunk) (frames : ℕ)
      → ctx.player.overflow ≡ some chunk
      → IsWhole chunk frames
      → total_frames attempts + last.frames ≡ frames
      → 0 < last.frames
      → play (attempts ++ last ∷ []) ctx
        ≡ some (record ctx { player = record ctx.player { overflow = none } }, chunk.samples_data)
  unfolding play shaved
  play_correct [] last ctx chunk frames e h all some_last =
      let same : frames ≡ last.frames = omega (arith, all) in
      let done = write_chunk-rest ctx.player chunk last.frames (subst (IsWhole chunk) same h) in
      rw
        (
          handle-overflow last.ctime last.delay (pos last.frames) (pos last.frames) ctx chunk e,
          done,
          append-nil chunk.samples_data,
        )
        refl
  play_correct (a ∷ attempts) last ctx chunk frames e h all some_last =
      let k = a.frames in
      let unit = chunk.channels * chunk.frame_size in
      let less : k < frames = omega (arith, all) in
      let more : total_frames attempts + last.frames ≡ frames - k = omega (arith, all) in
      let rest = shaved chunk k in
      let ctx' : ClientCtx = record ctx { player = record ctx.player { overflow = some rest } } in
      rw
        (
          handle-overflow a.ctime a.delay (pos k) (pos k) ctx chunk e,
          write_chunk-partial ctx.player chunk frames k h less,
          play_correct attempts last ctx' rest (frames - k) refl
              (shaveoff-IsWhole chunk frames k h less) more some_last,
        )
        (ap (λ bytes. some (record ctx { player = record ctx.player { overflow = none } }, bytes))
          (take-append-drop (unit * k) chunk.samples_data))
