-- ===== src/Player/Volume.antt =====
-- src/alsaplayer.c: setting and reading the volume.
use snapcastc.Base.{ℕ, ◌+◌, ◌*◌, ◌/◌, ◌%◌, ◌≤◌, ◌<◌, ◌≡◌, true, false, arith}
use native.Mathlib.Nat.{div-eq_of_lt-le}
use snapcastc.Player.{Player, mixer_init, round_div, obtain_volume, adjust_volume}

-- Writing a percentage of a range of more than 200 steps and reading it back rounds to the same.
round_div-percent : (v m : ℕ) → 200 < m → round_div (v * m / 100 * 100) m ≡ v
unfolding round_div
round_div-percent v m h =
    let whole : v * m ≡ 100 * (v * m / 100) + v * m % 100 = omega arith in
    let rest : v * m % 100 < 100 = omega arith in
    let r = v * m % 100 in
    let double : v * (2 * m) ≡ 2 * (v * m) = omega arith in
    let step : (v + 1) * (2 * m) ≡ 2 * (v * m) + 2 * m = omega arith in
    div-eq_of_lt-le (2 * m) (omega arith) (omega arith)

-- A volume of at most 100 percent that has been set is read back, with the player's own volume and
-- with a mixer of more than 200 steps. Without a mixer element the player turns to its own volume,
-- and stays at 100 whatever was asked for.
pub obtain_volume-adjust_volume :
    (ctx : Player) (v : ℕ)
    → v ≤ 100
    → 200 < ctx.mixer_max
    → (ctx.is_softvol ≡ true → (obtain_volume (adjust_volume ctx v)).0 ≡ v)
      × (ctx.is_softvol ≡ false
          → ctx.mixer_elem ≡ true
          → (obtain_volume (adjust_volume ctx v)).0 ≡ v)
      × (ctx.is_softvol ≡ false
          → ctx.mixer_elem ≡ false
          → (obtain_volume (adjust_volume ctx v)).0 ≡ 100)
unfolding obtain_volume adjust_volume mixer_init
obtain_volume-adjust_volume ctx v small fine =
    let same = round_div-percent v ctx.mixer_max fine in (ground arith, ground arith, ground arith)
