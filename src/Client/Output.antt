-- ===== src/Client/Output.antt =====
-- src/intercom_client.c with src/alsaplayer.c: the sound output that a chunk is played on.
use snapcastc.Base.{
  none, ℕ, ◌≡◌, inl, inr, true, false, some, refl, arith, if◌then◌else◌, Bool-cases, ==_self,
}
use snapcastc.Pcmchunk.{PcmChunk}
use snapcastc.Player.{
  Player, is_supported, alsaplayer_init, alsaplayer_uninit, alsaplayer_remove_task,
}
use snapcastc.Client.Audio.{fits_player, prepare_player}

-- The output before it is set up again.
closed_player : Player → PcmChunk → Player
unfolding fits_player alsaplayer_uninit alsaplayer_remove_task
closed_player player chunk =
    if fits_player player chunk then player else alsaplayer_uninit (alsaplayer_remove_task player)

opened : (ℕ → ℕ) → Player → PcmChunk → Player
opened rate_near player chunk = record player {
  frame_size = chunk.frame_size;
  channels = chunk.channels;
  rate = rate_near chunk.samples;
  empty_chunks_in_row = 0;
  playing = false;
  overflow = none;
  close_task = true;
  initialized = true;
}

prepare_closed :
    (rate_near : ℕ → ℕ) (player : Player) (chunk : PcmChunk)
    → is_supported chunk.frame_size ≡ true
    → (closed_player player chunk).initialized ≡ false
    → prepare_player rate_near player chunk
      ≡ some (opened rate_near (closed_player player chunk) chunk)
unfolding prepare_player closed_player alsaplayer_init opened
prepare_closed rate_near player chunk s h = rw (h, s) refl

closed_fits :
    (player : Player) (chunk : PcmChunk)
    → (closed_player player chunk).initialized ≡ true
    → (fits_player player chunk ≡ true) × (player.initialized ≡ true)
unfolding closed_player alsaplayer_uninit alsaplayer_remove_task
closed_fits player chunk h = ground arith

prepare_open :
    (rate_near : ℕ → ℕ) (player : Player) (chunk : PcmChunk)
    → fits_player player chunk ≡ true
    → player.initialized ≡ true
    → prepare_player rate_near player chunk ≡ some player
unfolding prepare_player
prepare_open rate_near player chunk f i = rw (f, i) refl

opened-fits :
    (rate_near : ℕ → ℕ) (player : Player) (chunk : PcmChunk)
    → rate_near chunk.samples ≡ chunk.samples
    → fits_player (opened rate_near player chunk) chunk ≡ true
unfolding fits_player opened
opened-fits rate_near player chunk h =
    rw (h, ==_self chunk.frame_size, ==_self chunk.channels, ==_self chunk.samples) refl

-- For a supported format the output is open afterwards. Where the card plays the chunk's rate exactly,
-- the output fits the chunk then, and another chunk of this format finds it ready.
pub prepare_player_correct :
    (rate_near : ℕ → ℕ) (player : Player) (chunk : PcmChunk)
    → is_supported chunk.frame_size ≡ true
    → (player' : Player) × (prepare_player rate_near player chunk ≡ some player')
      × (player'.initialized ≡ true)
      × (rate_near chunk.samples ≡ chunk.samples
          → (fits_player player' chunk ≡ true)
            × (prepare_player rate_near player' chunk ≡ some player'))
unfolding opened
prepare_player_correct rate_near player chunk s =
    let closed = closed_player player chunk in
    elim (Bool-cases closed.initialized) [
      | inl e ↦
          let (f, i) = closed_fits player chunk e in
          let ready = prepare_open rate_near player chunk f i in (player, ready, i, λ _. (f, ready))
      | inr e ↦
          let p = opened rate_near closed chunk in
          (
            p,
            prepare_closed rate_near player chunk s e,
            refl,
            λ h.
                let f = opened-fits rate_near closed chunk h in
                (f, prepare_open rate_near p chunk f refl),
          )
    ]
