-- ===== src/Player.antt =====
-- src/alsaplayer.c: the state of the sound output, and the rest of a chunk that it could not play yet.
-- Of the sound card the state keeps whether it has the mixer element, the element's range and its
-- volume. What the card makes of a wanted rate is a parameter. `close_task` tells whether the pointer to
-- the task that closes the output is set; `alsaplayer_uninit` drops the task and leaves the pointer. `none` is a call of `exit_error`.
pub mod Volume
use snapcastc.Base.{
  ℕ, ◌+◌, ◌*◌, ◌/◌, ◌%◌, ◌==◌, Bool, true, false, ◌||◌, Option, none, some, ltb, if◌then◌else◌,
  u8_mod,
}
use snapcastc.Pcmchunk.{PcmChunk}

pub record Player : Type 0 where
  pub rate : ℕ
  pub channels : ℕ
  pub frame_size : ℕ
  pub initialized : Bool
  pub playing : Bool
  pub empty_chunks_in_row : ℕ
  pub close_task : Bool
  pub is_softvol : Bool
  pub softvol_level : ℕ
  pub mixer_elem : Bool
  pub mixer_max : ℕ
  pub mixer_volume : ℕ
  pub latency_ms : ℕ
  pub overflow : Option PcmChunk

-- Without the mixer element the player falls back to a volume of its own.
pub mixer_init : Player → Player
mixer_init ctx =
    if ctx.mixer_elem then ctx else record ctx { is_softvol = true; softvol_level = 100 }

-- `round` of a non-negative quotient.
pub round_div : ℕ → ℕ → ℕ
round_div a b = (2 * a + b) / (2 * b)

pub obtain_volume : Player → ℕ × Player
unfolding mixer_init round_div
obtain_volume ctx =
    if ctx.is_softvol
    then (ctx.softvol_level, ctx)
    else if ctx.mixer_elem
    then (round_div (ctx.mixer_volume * 100) ctx.mixer_max % u8_mod, mixer_init ctx)
    else (ctx.softvol_level, mixer_init ctx)

unfoldable pub adjust_volume : Player → ℕ → Player
unfolding mixer_init
adjust_volume ctx volume =
    if ctx.is_softvol
    then record ctx { softvol_level = volume }
    else if ctx.mixer_elem
    then record (mixer_init ctx) { mixer_volume = volume * ctx.mixer_max / 100 }
    else mixer_init ctx

unfoldable pub alsaplayer_remove_task : Player → Player
alsaplayer_remove_task ctx = record ctx { close_task = false }

unfoldable pub alsaplayer_uninit : Player → Player
alsaplayer_uninit ctx =
    if ctx.initialized then record ctx { initialized = false; playing = false } else ctx

-- The formats that the output knows.
unfoldable pub is_supported : ℕ → Bool
is_supported frame_size =
    ((frame_size == 1 || frame_size == 2) || frame_size == 3) || frame_size == 4

unfoldable pub alsaplayer_init : (ℕ → ℕ) → Player → Option Player
unfolding is_supported
alsaplayer_init rate_near ctx =
    let reset : Player = record ctx { empty_chunks_in_row = 0; playing = false; overflow = none } in
    if ctx.initialized
    then some reset
    else if is_supported ctx.frame_size
    then some (record reset { rate = rate_near ctx.rate; close_task = true; initialized = true })
    else none
