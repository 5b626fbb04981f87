-- ===== src/Pcmchunk.antt =====
-- src/pcmchunk.c and pcmchunk.h: chunks of audio, and src/opuscodec.c: `decode_opus_handle`.
-- Fields hold their C widths; the bytes behind the pointer `data` are the list `samples_data`, and
-- the NULL pointer is the empty list. `frames` is non-negative.
pub mod Laws
pub mod Playback
use snapcastc.Base.{
  ◌==◌, some, none, Option, if◌then◌else◌, ℕ, ◌+◌, ◌-◌, ◌*◌, ◌/◌, ◌%◌, Bool, true, false, not, ◌&&◌,
  ◌||◌, List, [], ltb, htons, htonl, drop, replicate, u8_mod, u16_mod, u32_mod,
}
use snapcastc.Base.Int.{ℤ, pos, negsuc}
use snapcastc.Timespec.{Timespec, timespec, time_add_ms}

pub record PcmChunk : Type 0 where
  pub play_at_tv_sec : ℕ
  pub play_at_tv_nsec : ℕ
  pub samples : ℕ
  pub frame_size : ℕ
  pub channels : ℕ
  pub size : ℕ
  pub codec : ℕ
  pub samples_data : List ℕ

abbrev pub codec_pcm : ℕ
codec_pcm = 0

abbrev pub codec_opus : ℕ
codec_opus = 1

-- Unsigned 32-bit arithmetic, and a store into 16 bits.
pub get_emptychunk : PcmChunk → ℕ → PcmChunk
get_emptychunk ret length_ms =
    let bytes =
      ret.samples * length_ms * ret.channels * ret.frame_size % u32_mod / 1000 % u16_mod in
    record ret {
      size = bytes;
      play_at_tv_sec = 0;
      play_at_tv_nsec = 0;
      samples_data = replicate bytes 0;
      codec = codec_pcm;
    }

unfoldable pub chunk_get_play_at : Option PcmChunk → Timespec
chunk_get_play_at none = timespec 0 0
chunk_get_play_at (some chunk) = timespec chunk.play_at_tv_sec chunk.play_at_tv_nsec

unfoldable pub chunk_is_empty : PcmChunk → Bool
chunk_is_empty c = c.play_at_tv_sec == 0

pub chunk_ntoh : PcmChunk → PcmChunk
chunk_ntoh chunk = record chunk {
  play_at_tv_sec = htonl chunk.play_at_tv_sec;
  play_at_tv_nsec = htonl chunk.play_at_tv_nsec;
  samples = htonl chunk.samples;
  size = htons chunk.size;
}

pub chunk_hton : PcmChunk → PcmChunk
chunk_hton chunk = record chunk {
  play_at_tv_sec = htonl chunk.play_at_tv_sec;
  play_at_tv_nsec = htonl chunk.play_at_tv_nsec;
  samples = htonl chunk.samples;
  size = htons chunk.size;
}

pub chunk_free_members : PcmChunk → PcmChunk
chunk_free_members chunk = record chunk { play_at_tv_sec = 0; samples_data = []; size = 0 }

-- The chunk without its first frames, which plays that much later.
unfoldable pub shaved : PcmChunk → ℕ → PcmChunk
shaved chunk frames =
    let removebytes = chunk.channels * chunk.frame_size * frames in
    let play_at =
      time_add_ms (timespec chunk.play_at_tv_sec chunk.play_at_tv_nsec)
        (frames * 1000 % u32_mod / chunk.samples) in
    record chunk {
      samples_data = drop removebytes chunk.samples_data;
      size = (chunk.size + u16_mod - removebytes % u16_mod) % u16_mod;
      play_at_tv_sec = play_at.tv_sec % u32_mod;
      play_at_tv_nsec = play_at.tv_nsec % u32_mod;
    }

-- `none` is the division by a rate of 0.
unfoldable pub pcmchunk_shaveoff : PcmChunk → ℕ → Option PcmChunk
unfolding shaved
pcmchunk_shaveoff chunk frames = if chunk.samples == 0 then none else some (shaved chunk frames)

unfoldable pub chunk_cmp : PcmChunk → PcmChunk → ℤ
chunk_cmp c1 c2 =
    if ltb c2.play_at_tv_sec c1.play_at_tv_sec
    then pos 1
    else if ltb c1.play_at_tv_sec c2.play_at_tv_sec
    then negsuc 0
    else if ltb c2.play_at_tv_nsec c1.play_at_tv_nsec
    then pos 1
    else if ltb c1.play_at_tv_nsec c2.play_at_tv_nsec
    then negsuc 0
    else pos 0

-- All but the pointer to the data.
pub chunk_copy_meta : PcmChunk → PcmChunk → PcmChunk
chunk_copy_meta dest src = record src { samples_data = dest.samples_data }

-- The queue of the client holds the earliest chunk first.
unfoldable pub receivebuffer_cmp : PcmChunk → PcmChunk → ℤ
receivebuffer_cmp d1 d2 = chunk_cmp d2 d1

is_null : List ℕ → Bool
is_null [] = true
is_null _ = false

-- libopus: from the coded bytes and the room in frames, the number of frames and their bytes, or
-- nothing where the decoder fails or returns no frame.
abbrev pub Decoder : Type 0
Decoder = List ℕ → ℕ → Option (ℕ × List ℕ)

module _ (opus_decode : Decoder) where
  -- What the decoder's answer makes of the chunk.
  pub decoded : PcmChunk → Option (ℕ × List ℕ) → PcmChunk
  unfolding get_emptychunk
  decoded chunk none =
      let empty = get_emptychunk chunk 5 in
      record chunk { samples_data = empty.samples_data; size = empty.size; codec = codec_pcm }
  decoded chunk (some (frames, out)) = record chunk {
    samples_data = out;
    size = frames * chunk.channels * chunk.frame_size % u16_mod;
    codec = codec_pcm;
  }

  -- `none` is a call of `exit_error`.
  pub decode_opus_handle : PcmChunk → Option PcmChunk
  unfolding decoded is_null
  decode_opus_handle chunk =
      if (chunk.channels == 0 || chunk.frame_size == 0)
        || (chunk.size == 0 || is_null chunk.samples_data)
      then none
      else some
          (decoded chunk (opus_decode chunk.samples_data (chunk.samples * 120 % u32_mod / 1000)))

  -- The chunk after the call, and whether it was decoded.
  unfoldable pub chunk_decode : PcmChunk → Option (PcmChunk × Bool)
  unfolding decode_opus_handle
  chunk_decode c =
      if c.codec == codec_opus
      then (elim (decode_opus_handle c) [ none ↦ none | some d ↦ some (d, true) ])
      else some (c, false)

  pub duration_ms : PcmChunk → ℕ
  duration_ms chunk =
      if not (chunk.channels == 0) && (not (chunk.frame_size == 0) && not (chunk.samples == 0))
      then 1000 * chunk.size / chunk.channels / chunk.frame_size / chunk.samples
      else 0

  -- The chunk must be decoded before its length says how long it plays.
  unfoldable pub chunk_getduration_ms : PcmChunk → Option (PcmChunk × ℕ)
  unfolding chunk_decode duration_ms
  chunk_getduration_ms chunk = elim (chunk_decode chunk) [
    | none ↦ none
    | some (c, _) ↦ some (c, duration_ms c)
  ]
