-- ===== src/Client/Chosen.antt =====
-- src/alsaplayer.c: the chunk that `getchunk` chooses, and what an error of the card makes of it.
use snapcastc.Base.{
  ℕ, suc, ◌-◌, ◌%◌, ◌<◌, ◌≡◌, refl, sym, ap, ◌∙◌, inl, inr, Bool, true, false, not, ◌&&◌, ◌||◌,
  List, [], ◌==◌, Option, none, some, arith, ltb, ◌>>=◌, Option-cases, Bool-cases, some_inj,
}
use snapcastc.Base.Int.{ℤ, negsuc}
use snapcastc.Timespec.{Timespec}
use snapcastc.Pcmchunk.{PcmChunk, Decoder, chunk_is_empty, chunk_decode}
use snapcastc.Player.{Player}
use snapcastc.Client.{ClientCtx}
use snapcastc.Client.Receive.{intercom_get_time_next_audiochunk, intercom_getnextaudiochunk}
use snapcastc.Client.Playing.{
  Speed, Timing, PlayerCall, timing, drops, drop_late, play_taken, missed, choose_chunk, alsa_ready,
  getchunk, unsigned_of, write_result, frames_of, taken_bytes, is_zero_chunk, write_chunk,
  next_chunk, finish_write, alsaplayer_handle, blank_chunk,
}

nothing_drops : (a b : Bool) → (a && (b && not true)) ≡ false
nothing_drops true true = refl
nothing_drops true false = refl
nothing_drops false b = refl

-- An empty chunk ends the loop in its first round.
drop_late_empty :
    (fuel : ℕ) (ready : Timespec) (ctx : ClientCtx) (p : PcmChunk)
    → chunk_is_empty p ≡ true
    → drop_late (suc fuel) ready ctx p
      ≡ some (ctx, (p, timing ready ctx.player.playing (intercom_get_time_next_audiochunk ctx)))
unfolding drop_late
drop_late_empty fuel ready ctx p h =
    let t = timing ready ctx.player.playing (intercom_get_time_next_audiochunk ctx) in
    let stays : drops t p ≡ false = rw h (nothing_drops t.in_past (not t.is_close)) in
    rw (drop_late, stays) refl

module _ (opus_decode : Decoder) (adjust_speed : Speed) where
  -- On an empty chunk, as the handler passes it, the loop that is to drop late chunks drops none: the
  -- next chunk is chosen by its time, however late it is.
  pub getchunk_correct :
      (fuel : ℕ) (ctime : Timespec) (ctx : ClientCtx) (p : PcmChunk) (delay : ℕ)
      → chunk_is_empty p ≡ true
      → 0 < ctx.player.rate
      → let ready = alsa_ready ctime ctx.player delay in
        getchunk opus_decode adjust_speed (suc fuel) ctime ctx p delay
        ≡ choose_chunk opus_decode adjust_speed ready ctx p
            (timing ready ctx.player.playing (intercom_get_time_next_audiochunk ctx))
  unfolding getchunk
  getchunk_correct fuel ctime ctx p delay empty rate =
      let some_rate : (ctx.player.rate == 0) ≡ false = ground arith in
      rw (some_rate, drop_late_empty fuel (alsa_ready ctime ctx.player delay) ctx p empty) refl

  play_taken-overflow :
      (ready : Timespec) (t : Timing) (p : PcmChunk) (ctx : ClientCtx) (taken : Option PcmChunk)
      {r : ClientCtx × (PcmChunk × List PlayerCall)}
      → play_taken opus_decode adjust_speed ready t p ctx taken ≡ some r
      → r.0.player.overflow ≡ ctx.player.overflow
  unfolding play_taken missed
  play_taken-overflow ready t p ctx none e = ap (λ r. r.0.player.overflow) (sym (some_inj e))
  play_taken-overflow ready t p ctx (some c) e = elim (Option-cases (chunk_decode opus_decode c)) [
    | inl n ↦ cc (rw (play_taken, n) at e)
    | inr (d, n) ↦ ap (λ r. r.0.player.overflow) (sym (some_inj (rw (play_taken, n) at e)))
  ]

  choose_chunk-overflow :
      (ready : Timespec) (ctx : ClientCtx) (p : PcmChunk) (t : Timing)
      {r : ClientCtx × (PcmChunk × List PlayerCall)}
      → choose_chunk opus_decode adjust_speed ready ctx p t ≡ some r
      → r.0.player.overflow ≡ ctx.player.overflow
  unfolding choose_chunk intercom_getnextaudiochunk
  choose_chunk-overflow ready ctx p t e =
      let next = intercom_getnextaudiochunk ctx in
      elim (Bool-cases (ctx.player.playing || (t.overshot || t.is_near))) [
        | inl h ↦ play_taken-overflow ready t p next.1 next.0 (rw (choose_chunk, h) at e)
        | inr h ↦ ap (λ r. r.0.player.overflow) (sym (some_inj (rw (choose_chunk, h) at e)))
      ]

  write_chunk-failed :
      (player : Player) (chunk : PcmChunk) (n : ℕ) (again : ℤ)
      → frames_of chunk < 65536
      → n < 2147483648
      → (n == 31) ≡ false
      → write_chunk player chunk (negsuc n) again ≡ some (player, [])
  unfolding write_chunk write_result unsigned_of taken_bytes
  write_chunk-failed player chunk n again few small other =
      let large : 65536 < 4294967296 - 1 - n % 4294967296 = omega arith in
      let less : ltb (4294967296 - 1 - n % 4294967296) (frames_of chunk) ≡ false = ground arith in
      let same : (4294967296 - 1 - n % 4294967296 == frames_of chunk) ≡ false = ground arith in
      elim (Bool-cases (is_zero_chunk chunk)) [
        | inl z ↦ rw (write_chunk, other, z) refl
        | inr z ↦ rw (write_chunk, other, z, less, same) refl
      ]

  -- Where the card fails to take a chunk that has just been taken from the buffer, by any error
  -- but a drained buffer, the chunk is gone: no byte of it has been played, and none is kept.
  pub alsaplayer_handle_failed :
      (fuel : ℕ) (ctime : Timespec) (delay n : ℕ) (again : ℤ) (ctx ctx' : ClientCtx)
      (chunk : PcmChunk) (calls : List PlayerCall)
      → ctx.player.overflow ≡ none
      → 0 < ctx.player.rate
      → getchunk opus_decode adjust_speed (suc fuel) ctime ctx (blank_chunk ctx.player) delay
        ≡ some (ctx', (chunk, calls))
      → frames_of chunk < 65536
      → n < 2147483648
      → (n == 31) ≡ false
      → (alsaplayer_handle opus_decode adjust_speed (suc fuel) ctime delay (negsuc n) again ctx
          ≡ some (ctx', ([], calls)))
        × (ctx'.player.overflow ≡ none)
  unfolding alsaplayer_handle chunk_is_empty
  alsaplayer_handle_failed fuel ctime delay n again ctx ctx' chunk calls free rate chosen few small
        other =
      (
        ap
              (λ o. next_chunk opus_decode adjust_speed (suc fuel) ctime ctx delay o >>= λ r.
                finish_write opus_decode adjust_speed (negsuc n) again r)
              free
            ∙ rw (chosen, write_chunk-failed ctx'.player chunk n again few small other) refl,
        choose_chunk-overflow (alsa_ready ctime ctx.player delay) ctx (blank_chunk ctx.player)
              (timing (alsa_ready ctime ctx.player delay) ctx.player.playing
                (intercom_get_time_next_audiochunk ctx))
              (sym (getchunk_correct fuel ctime ctx (blank_chunk ctx.player) delay refl rate)
                ∙ chosen)
            ∙ free,
      )
