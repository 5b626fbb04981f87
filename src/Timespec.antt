-- ===== src/Timespec.antt =====
-- src/timespec.c and timespec.h: points in time, their sums, differences and order.
-- Seconds and nanoseconds are non-negative (`time_t` and `long` are signed in C); the unsigned
-- subtraction of `timeSub` keeps its wrap-around.
pub mod Cmp
pub mod Laws
pub mod Near
use snapcastc.Base.{
  ℕ, zero, suc, ◌+◌, ◌-◌, ◌*◌, ◌/◌, ◌%◌, Bool, ◌&&◌, not, true, ltb, leb, if◌then◌else◌, u64_mod,
}
use snapcastc.Base.Int.{ℤ, pos, negsuc, is_neg, is_pos}

pub record Timespec : Type 0 where
  pub tv_sec : ℕ
  pub tv_nsec : ℕ

-- `struct timediff`: a distance and its sign.
pub record Timediff : Type 0 where
  pub time : Timespec
  pub sign : ℤ

abbrev pub billion : ℕ
billion = 1000000000

abbrev pub timespec : ℕ → ℕ → Timespec
timespec sec nsec = record { tv_sec = sec; tv_nsec = nsec }

-- The loop of `timeAdd`, over the fuel, the seconds and the nanoseconds.
pub carry : ℕ → ℕ → ℕ → Timespec
carry zero sec nsec = timespec sec nsec
carry (suc fuel) sec nsec =
    let rest = carry fuel (sec + 1) (nsec - billion) in
    if leb billion nsec then rest else timespec sec nsec

-- One round of the loop takes a second's worth off, so that many rounds are enough.
pub time_add : Timespec → Timespec → Timespec
unfolding carry
time_add t1 t2 =
    let nsec = t2.tv_nsec + t1.tv_nsec in carry (nsec / billion) (t2.tv_sec + t1.tv_sec) nsec

unfoldable pub timespec_cmp : Timespec → Timespec → ℤ
timespec_cmp a b =
    if ltb a.tv_sec b.tv_sec
    then negsuc 0
    else if ltb b.tv_sec a.tv_sec
    then pos 1
    else if ltb a.tv_nsec b.tv_nsec
    then negsuc 0
    else if ltb b.tv_nsec a.tv_nsec
    then pos 1
    else pos 0

-- The part of `timeSub` below the swap: `it1` is the later point.
pub distance : Timespec → Timespec → Timespec
distance it1 it2 =
    let tdiff_sec = it1.tv_sec - it2.tv_sec in
    if leb it2.tv_nsec it1.tv_nsec
    then timespec tdiff_sec (it1.tv_nsec - it2.tv_nsec)
    else timespec (tdiff_sec - 1) ((billion + u64_mod - it2.tv_nsec + it1.tv_nsec) % u64_mod)

unfoldable pub time_sub : Timespec → Timespec → Timediff
unfolding distance timespec_cmp
time_sub t1 t2 =
    if is_neg (timespec_cmp t1 t2)
    then record { time = distance t2 t1; sign = negsuc 0 }
    else record { time = distance t1 t2; sign = pos 1 }

pub of_ms : ℕ → Timespec
of_ms ms = timespec (ms / 1000) (ms % 1000 * 1000000)

pub time_sub_ms : Timespec → ℕ → Timespec
unfolding time_sub of_ms
time_sub_ms t1 ms = (time_sub t1 (of_ms ms)).time

unfoldable pub time_add_ms : Timespec → ℕ → Timespec
unfolding time_add of_ms
time_add_ms t1 ms = time_add t1 (of_ms ms)

unfoldable pub timespec_isnear : Timespec → Timespec → ℕ → Bool
unfolding timespec_cmp time_add_ms time_sub_ms
timespec_isnear t1 t2 chunkms =
    let later = time_add_ms t1 chunkms in
    let earlier = time_sub_ms t1 chunkms in
    if not (is_pos (timespec_cmp t2 later)) && not (is_neg (timespec_cmp t2 t1))
    then true
    else not (is_neg (timespec_cmp t2 earlier)) && not (is_pos (timespec_cmp t2 t1))
