-- ===== src/Client/Requests.antt =====
-- src/intercom_client.c: the requests that `intercom_handle_audio` makes for the packets in a gap.
use snapcastc.Base.{
  ◌∙◌, false, order_cases, ◌%◌, ℕ, zero, suc, ◌+◌, ◌-◌, ◌==◌, ◌≤◌, ◌<◌, ◌≡◌, inl, inr, List, [],
  ◌∷◌, ◌++◌, arith, ltb, leb, ◌&&◌, if◌then◌else◌, length, length-append, u64_mod,
}
use snapcastc.Base.Int.{pos, negsuc}
use snapcastc.Packet.{AudioPacket}
use snapcastc.Intercom.Packets.{count}
use snapcastc.Client.{PcmChunk, PQueue, ClientCtx}
use snapcastc.Client.Audio.{
  handle_gap, int_of, max, size_of_succ, max_requests, request_missing, request_range,
}
use snapcastc.Client.Missing.{limit-short}
use snapcastc.Client.Gap.{
  request_range-Requests, Requests, IsTracked, tracked, tracked-once, tracked-length, tracked-count,
  request_missing-tracked,
}

-- However many rounds the loop makes, no number is in the list twice, and the list stays
-- within the limit.
pub request_range-IsTracked :
    (n : ℕ) (ctx : ClientCtx) (i rounds : ℕ)
    → IsTracked n ctx.missing_packets
    → IsTracked n (request_range n ctx i rounds).missing_packets
unfolding request_range
request_range-IsTracked n ctx i zero h = h
request_range-IsTracked n ctx i (suc rounds) h =
    request_range-IsTracked n (request_missing n ctx i) (i + 1) rounds (
      rw (request_missing-tracked n ctx i) (record {
        fits = tracked-length n ctx.missing_packets i h.fits;
        once = tracked-once n ctx.missing_packets i h.once;
      }))

tracked_room :
    (n : ℕ) (aps : List AudioPacket) (i : ℕ)
    → length aps < n
    → length (tracked n aps i) ≤ suc (length aps)
unfolding tracked
tracked_room n aps i h =
    let ap : AudioPacket = record { bytes = []; nonce = i } in
    let size = length-append aps (ap ∷ []) in
    let short = limit-short n (aps ++ ap ∷ []) (omega arith) in rw short (ground arith)

-- While there is room, the numbers of the rounds are in the list afterwards, and all others
-- are where they were.
pub request_range_correct :
    (n : ℕ) (ctx : ClientCtx) (i rounds m : ℕ)
    → IsTracked n ctx.missing_packets
    → length ctx.missing_packets + rounds ≤ n
    → count m (request_range n ctx i rounds).missing_packets
      ≡ (if leb i m && ltb m (i + rounds) then 1 else count m ctx.missing_packets)
unfolding request_range
request_range_correct n ctx i zero m h room = ground arith
request_range_correct n ctx i (suc rounds) m h room =
    let aps = ctx.missing_packets in
    let next = request_missing n ctx i in
    let step : IsTracked n next.missing_packets =
      rw (request_missing-tracked n ctx i)
        (record { fits = tracked-length n aps i h.fits; once = tracked-once n aps i h.once }) in
    let longer : length next.missing_packets ≤ suc (length aps) =
      rw (request_missing-tracked n ctx i) (tracked_room n aps i (omega arith)) in
    let rest = request_range_correct n next (i + 1) rounds m step (omega arith) in
    let here : count m next.missing_packets ≡ (if m == i then 1 else count m aps) =
      rw (request_missing-tracked n ctx i) (tracked-count n aps i m (omega arith) h.once) in
    rw (rest, here) (ground arith)

int_low : (n : ℕ) → n < 2147483648 → int_of n ≡ pos n
unfolding int_of
int_low n h = ground arith

int_high : (n : ℕ) → 2147483648 ≤ n → n < 4294967296 → int_of n ≡ negsuc (4294967295 - n)
unfolding int_of
int_high n h k = ground arith

-- `this_seqno - capacity`, where it does not wrap around, and where it does.
no_wrap :
    (seq capacity : ℕ)
    → capacity ≤ seq
    → seq < 4294967296
    → (seq + u64_mod - capacity) % u64_mod ≡ seq - capacity
no_wrap seq capacity h wide = omega arith

wrap :
    (seq capacity : ℕ)
    → seq < capacity
    → capacity ≤ 65536
    → int_of ((seq + u64_mod - capacity) % u64_mod) ≡ negsuc (capacity - seq - 1)
unfolding int_of
wrap seq capacity h small = ground arith

-- For a gap that is shorter than a buffer of at most 65536 chunks: below `2 ^ 31` the loop begins
-- right behind the last number; from a last number of `2 ^ 31 + 65536` on, the arguments of `max`
-- are negative, and the loop has no round at all.
pub max_requests_correct :
    (last seq capacity : ℕ)
    → last < seq
    → seq < 4294967296
    → seq - last < capacity
    → capacity ≤ 65536
    → (seq < 2147483648 → max_requests last seq capacity ≡ last + 1)
      × (2147483648 + 65536 ≤ last → seq ≤ max_requests last seq capacity)
unfolding max_requests int_of max size_of_succ
max_requests_correct last seq capacity h wide near small = (
  λ low. elim (order_cases capacity seq) [
    | inl fits ↦
        rw
          (
            no_wrap seq capacity fits wide,
            int_low last (omega arith),
            int_low (seq - capacity) (omega arith),
          )
          (ground arith)
    | inr over ↦ rw (wrap seq capacity over small, int_low last (omega arith)) (ground arith)
  ],
  λ high.
      rw
        (
          no_wrap seq capacity (omega arith) wide,
          int_high last (omega arith) (omega arith),
          int_high (seq - capacity) (omega arith) (omega arith),
        )
        (ground arith),
)

-- A gap in front of a number below `2 ^ 31` that is shorter than the buffer of at most 65536
-- chunks, with an ordered list of missing packets that has room for it: exactly the numbers
-- between the last packet and this one are missing afterwards, besides what was missing before.
-- The number of the last packet and the buffer stay.
pub handle_gap_correct :
    (ctx : ClientCtx) (q : PQueue PcmChunk) (seq m : ℕ)
    → ctx.lastreceviedseqno < seq
    → seq < 2147483648
    → seq - ctx.lastreceviedseqno < q.capacity
    → q.capacity ≤ 65536
    → IsTracked q.capacity ctx.missing_packets
    → length ctx.missing_packets + (seq - ctx.lastreceviedseqno) ≤ q.capacity
    → Requests ctx (handle_gap ctx q seq)
      × (count m (handle_gap ctx q seq).missing_packets
          ≡ (if ltb ctx.lastreceviedseqno m && ltb m seq then 1 else count m ctx.missing_packets))
unfolding handle_gap
handle_gap_correct ctx q seq m behind low near small t room =
    let last = ctx.lastreceviedseqno in
    let first = (max_requests_correct last seq q.capacity behind (omega arith) near small).0 low in
    let rounds = seq - (last + 1) in
    let not_old : ltb seq last ≡ false = ground arith in
    let not_far : leb q.capacity (seq - last) ≡ false = ground arith in
    let range = request_range_correct q.capacity ctx (last + 1) rounds m t (omega arith) in
    rw (not_old, not_far, first)
      (request_range-Requests q.capacity ctx (last + 1) rounds, range ∙ ground arith)
