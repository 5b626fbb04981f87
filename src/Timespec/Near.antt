-- ===== src/Timespec/Near.antt =====
-- src/timespec.c: `timespec_isnear` against the distance of two points.
use snapcastc.Base.{ℕ, ◌+◌, ◌-◌, ◌*◌, ◌≤◌, ◌≡◌, ◌&&◌, not, true, arith, leb, ltb, if◌then◌else◌}
use snapcastc.Timespec.{Timespec, time_add_ms, time_sub_ms, timespec_isnear}
use snapcastc.Timespec.Laws.{
  to_ns, IsNormal, timespec_cmp_correct, time_add_ms_correct, time_sub_ms_correct,
}

near_by_order :
    (a b m : ℕ)
    → m ≤ a
    → (if not (ltb (a + m) b) && not (ltb b a)
        then true
        else not (ltb b (a - m + (m - a))) && not (ltb a b))
      ≡ (leb b (a + m) && leb a (b + m))
near_by_order a b m h = ground arith

-- `timespec_isnear` says of two normal points, the first at least `chunkms` after the epoch, whether
-- they are at most `chunkms` milliseconds apart.
pub timespec_isnear_correct :
    (t1 t2 : Timespec) (chunkms : ℕ)
    → IsNormal t1
    → IsNormal t2
    → chunkms * 1000000 ≤ to_ns t1
    → timespec_isnear t1 t2 chunkms ≡ (
        leb (to_ns t2) (to_ns t1 + chunkms * 1000000)
        && leb (to_ns t1) (to_ns t2 + chunkms * 1000000))
unfolding timespec_isnear
timespec_isnear_correct t1 t2 chunkms h1 h2 late =
    let after = time_add_ms_correct t1 chunkms in
    let before = time_sub_ms_correct t1 chunkms h1 in
    let to_later = timespec_cmp_correct t2 (time_add_ms t1 chunkms) h2 after.1 in
    let to_earlier = timespec_cmp_correct t2 (time_sub_ms t1 chunkms) h2 before.1 in
    let to_first = timespec_cmp_correct t2 t1 h2 h1 in
    rw (to_later.1, to_first.0, to_earlier.0, to_first.1, after.0, before.0)
      (near_by_order (to_ns t1) (to_ns t2) (chunkms * 1000000) late)
