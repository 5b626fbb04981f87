-- ===== src/Timespec/Laws.antt =====
-- src/timespec.c: the routines against plain arithmetic on nanoseconds.
use snapcastc.Base.{ℕ, zero, suc, ◌+◌, ◌-◌, ◌*◌, ◌/◌, ◌≤◌, ◌<◌, ◌≡◌, arith, ltb, if◌then◌else◌}
use snapcastc.Base.Int.{pos, negsuc, is_neg, is_pos}
use snapcastc.Timespec.{
  Timespec, carry, time_add, timespec_cmp, distance, time_sub, of_ms, time_sub_ms, time_add_ms,
}

-- The point in time as a number of nanoseconds.
abbrev pub to_ns : Timespec → ℕ
to_ns t = t.tv_sec * 1000000000 + t.tv_nsec

-- The nanoseconds make less than a second.
abbrev pub IsNormal : Timespec → Type 0
IsNormal t = t.tv_nsec < 1000000000

carry_correct :
    (fuel sec nsec : ℕ)
    → nsec < (fuel + 1) * 1000000000
    → (to_ns (carry fuel sec nsec) ≡ sec * 1000000000 + nsec) × IsNormal (carry fuel sec nsec)
unfolding carry
carry_correct zero sec nsec h = (omega arith, omega arith)
carry_correct (suc fuel) sec nsec h =
    ground (arith, carry_correct fuel (sec + 1) (nsec - 1000000000))

-- `timeAdd` adds the two points as numbers of nanoseconds, and its result is normal, also where
-- the arguments are not.
pub time_add_correct :
    (t1 t2 : Timespec) → (to_ns (time_add t1 t2) ≡ to_ns t1 + to_ns t2) × IsNormal (time_add t1 t2)
unfolding time_add
time_add_correct t1 t2 =
    let nsec = t2.tv_nsec + t1.tv_nsec in
    let loop = carry_correct (nsec / 1000000000) (t2.tv_sec + t1.tv_sec) nsec (omega arith) in
    (omega (arith, loop.0), loop.1)

-- `timespec_cmp` of two normal points is negative, positive or zero exactly when the first is
-- earlier, later, or the same.
pub timespec_cmp_correct :
    (a b : Timespec)
    → IsNormal a
    → IsNormal b
    → (is_neg (timespec_cmp a b) ≡ ltb (to_ns a) (to_ns b))
      × (is_pos (timespec_cmp a b) ≡ ltb (to_ns b) (to_ns a))
unfolding timespec_cmp
timespec_cmp_correct a b ha hb = ground arith

distance_correct :
    (a b : Timespec)
    → IsNormal a
    → IsNormal b
    → to_ns b ≤ to_ns a
    → (to_ns (distance a b) ≡ to_ns a - to_ns b) × IsNormal (distance a b)
unfolding distance
distance_correct a b ha hb h = ground arith

-- `timeSub` of two normal points: their distance in nanoseconds, normal, with the sign 1 where the
-- first is not earlier and -1 where it is.
pub time_sub_correct :
    (a b : Timespec)
    → IsNormal a
    → IsNormal b
    → (to_ns (time_sub a b).time ≡ (to_ns a - to_ns b) + (to_ns b - to_ns a))
      × IsNormal (time_sub a b).time
      × ((time_sub a b).sign ≡ (if ltb (to_ns a) (to_ns b) then negsuc 0 else pos 1))
unfolding time_sub
time_sub_correct a b ha hb =
    ground (
      arith,
      timespec_cmp_correct a b ha hb,
      distance_correct a b ha hb,
      distance_correct b a hb ha,
    )

pub of_ms_correct : (ms : ℕ) → (to_ns (of_ms ms) ≡ ms * 1000000) × IsNormal (of_ms ms)
unfolding of_ms
of_ms_correct ms = (omega arith, omega arith)

pub time_add_ms_correct :
    (t : Timespec) (ms : ℕ)
    → (to_ns (time_add_ms t ms) ≡ to_ns t + ms * 1000000) × IsNormal (time_add_ms t ms)
unfolding time_add_ms
time_add_ms_correct t ms =
    let sum = time_add_correct t (of_ms ms) in (omega (arith, sum.0, (of_ms_correct ms).0), sum.1)

-- `timeSubMs` drops the sign of the difference: before the epoch it comes back as a time after it.
pub time_sub_ms_correct :
    (t : Timespec) (ms : ℕ)
    → IsNormal t
    → (to_ns (time_sub_ms t ms) ≡ (to_ns t - ms * 1000000) + (ms * 1000000 - to_ns t))
      × IsNormal (time_sub_ms t ms)
unfolding time_sub_ms
time_sub_ms_correct t ms h =
    let ms_ns = of_ms_correct ms in
    let diff = time_sub_correct t (of_ms ms) h ms_ns.1 in (omega (arith, diff.0, ms_ns.0), diff.1)
