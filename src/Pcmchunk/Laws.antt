-- ===== src/Pcmchunk/Laws.antt =====
-- src/pcmchunk.c: byte order, order in time, and lengths.
use snapcastc.Pcmchunk.{
  shaved, PcmChunk, chunk_ntoh, chunk_hton, chunk_cmp, receivebuffer_cmp, pcmchunk_shaveoff,
  chunk_get_play_at,
}
use snapcastc.Base.{
  ◌==◌, false, arith, [], ℕ, ◌+◌, ◌-◌, ◌*◌, ◌/◌, ◌%◌, ◌<◌, ◌≤◌, ◌≡◌, refl, true, drop,
  htonl_involutive, htons_involutive, some,
}
use snapcastc.Base.Int.{is_pos}
use snapcastc.Timespec.{timespec, time_add_ms}
use snapcastc.Timespec.Laws.{to_ns, time_add_ms_correct}
use snapcastc.Pqueue.{Comparator}

-- The numbers that go over the wire fit their fields.
pub record IsWire (c : PcmChunk) : Type 0 where
  pub sec : c.play_at_tv_sec < 4294967296
  pub nsec : c.play_at_tv_nsec < 4294967296
  pub rate : c.samples < 4294967296
  pub bytes : c.size < 65536

-- `chunk_ntoh` undoes `chunk_hton`.
pub chunk_ntoh-chunk_hton : (c : PcmChunk) → IsWire c → chunk_ntoh (chunk_hton c) ≡ c
unfolding chunk_ntoh chunk_hton
chunk_ntoh-chunk_hton c w = rw (
  htonl_involutive c.play_at_tv_sec w.sec,
  htonl_involutive c.play_at_tv_nsec w.nsec,
  htonl_involutive c.samples w.rate,
  htons_involutive c.size w.bytes,
)

pub receivebuffer_cmp_asym :
    (a b : PcmChunk)
    → is_pos (receivebuffer_cmp a b) ≡ true
    → is_pos (receivebuffer_cmp b a) ≡ false
unfolding receivebuffer_cmp chunk_cmp
receivebuffer_cmp_asym a b h = ground arith

pub receivebuffer_cmp_trans :
    (a b c : PcmChunk)
    → is_pos (receivebuffer_cmp a b) ≡ false
    → is_pos (receivebuffer_cmp b c) ≡ false
    → is_pos (receivebuffer_cmp a c) ≡ false
unfolding receivebuffer_cmp chunk_cmp
receivebuffer_cmp_trans a b c h k = ground arith

pub receivebuffer_cmp_earlier :
    (a b : PcmChunk)
    → is_pos (receivebuffer_cmp a b) ≡ false
    → b.play_at_tv_nsec < 1000000000
    → a.play_at_tv_nsec < 1000000000
    → to_ns (chunk_get_play_at (some b)) ≤ to_ns (chunk_get_play_at (some a))
unfolding receivebuffer_cmp chunk_cmp chunk_get_play_at
receivebuffer_cmp_earlier a b h n m = ground arith

-- The order of the receive buffer, as the queue wants it.
abbrev pub by_play_at : Comparator PcmChunk
by_play_at = record {
  null = record {
    play_at_tv_sec = 0;
    play_at_tv_nsec = 0;
    samples = 0;
    frame_size = 0;
    channels = 0;
    size = 0;
    codec = 0;
    samples_data = [];
  };
  cmp = receivebuffer_cmp;
  asym = receivebuffer_cmp_asym;
  trans = receivebuffer_cmp_trans;
}

later_play_at :
    (sec nsec ms : ℕ)
    → sec + 5000000 < 4294967296
    → nsec < 4294967296
    → ms < 4294967296
    → let t = time_add_ms (timespec sec nsec) ms in
      to_ns (timespec (t.tv_sec % 4294967296) (t.tv_nsec % 4294967296))
      ≡ sec * 1000000000 + nsec + ms * 1000000
later_play_at sec nsec ms h k l =
    let sum = time_add_ms_correct (timespec sec nsec) ms in omega (arith, sum.0, sum.1)

shorter :
    (size bytes : ℕ)
    → bytes ≤ size
    → size < 65536
    → (size + 65536 - bytes % 65536) % 65536 + bytes ≡ size
shorter size bytes h k = omega arith

-- `pcmchunk_shaveoff` of frames that are there, of a chunk whose rate is not 0 and whose time fits its fields: the bytes of
-- the frames are gone, the size says so, and the chunk plays later by the milliseconds that the
-- frames last, rounded down.
pub pcmchunk_shaveoff_correct :
    (c : PcmChunk) (frames : ℕ)
    → IsWire c
    → 0 < c.samples
    → c.channels * c.frame_size * frames ≤ c.size
    → frames * 1000 < 4294967296
    → c.play_at_tv_sec + 5000000 < 4294967296
    → let s = shaved c frames in
      (pcmchunk_shaveoff c frames ≡ some s)
      × (s.size + c.channels * c.frame_size * frames ≡ c.size)
      × (s.samples_data ≡ drop (c.channels * c.frame_size * frames) c.samples_data)
      × (to_ns (chunk_get_play_at (some s))
          ≡ to_ns (chunk_get_play_at (some c)) + frames * 1000 / c.samples * 1000000)
unfolding shaved pcmchunk_shaveoff chunk_get_play_at
pcmchunk_shaveoff_correct c frames w rate inside fit late =
    let whole : frames * 1000 % 4294967296 ≡ frames * 1000 = omega arith in
    let less : frames * 1000 / c.samples < 4294967296 = omega arith in
    let some_rate : (c.samples == 0) ≡ false = ground arith in
    (
      rw some_rate refl,
      shorter c.size (c.channels * c.frame_size * frames) inside w.bytes,
      refl,
      rw whole (
          later_play_at c.play_at_tv_sec c.play_at_tv_nsec (frames * 1000 / c.samples) late w.nsec
            less),
    )
