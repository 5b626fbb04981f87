-- ===== src/Client/Handled.antt =====
-- src/intercom_client.c: `intercom_handle_audio`, on each of its branches.
use snapcastc.Base.{
  ℕ, zero, suc, ◌+◌, ◌-◌, ◌≤◌, ◌<◌, ◌≡◌, ◌⊎◌, inl, inr, refl, ◌∙◌, List, [], ◌∷◌, ◌++◌, some, arith,
  ltb, leb, if◌then◌else◌, Bool-cases, order_cases,
}
use snapcastc.Packet.{AudioPacket}
use snapcastc.Pqueue.{PQueue, pqueue_new}
use snapcastc.Pcmchunk.{PcmChunk}
use snapcastc.Intercom.Packets.{count, count-append}
use snapcastc.Client.{ClientCtx}
use snapcastc.Client.Audio.{
  max_requests, request_missing, request_range, handle_gap, realloc_intercom_buffer,
}
use snapcastc.Client.Missing.{limit-count}
use snapcastc.Client.Gap.{IsTracked, tracked, request_missing-tracked, request_range-Requests}
use snapcastc.Client.Requests.{request_range-IsTracked}

tracked_other :
    (n : ℕ) (aps : List AudioPacket) (i m : ℕ) → i < m → count m (tracked n aps i) ≤ count m aps
unfolding tracked
tracked_other n aps i m h =
    let more = limit-count n m (aps ++ record { bytes = []; nonce = i } ∷ []) in
    let both = count-append m aps (record { bytes = []; nonce = i } ∷ []) in ground arith

-- Numbers behind the last round are not asked for.
request_range_behind :
    (n : ℕ) (ctx : ClientCtx) (i rounds m : ℕ)
    → i + rounds ≤ m
    → count m (request_range n ctx i rounds).missing_packets ≤ count m ctx.missing_packets
unfolding request_range
request_range_behind n ctx i zero m h = omega arith
request_range_behind n ctx i (suc rounds) m h =
    let rest = request_range_behind n (request_missing n ctx i) (i + 1) rounds m (omega arith) in
    let here : count m (request_missing n ctx i).missing_packets ≤ count m ctx.missing_packets =
      rw (request_missing-tracked n ctx i)
        (tracked_other n ctx.missing_packets i m (omega arith)) in
    omega arith

-- The numbers of a loop to `seq`, from wherever it begins.
request_range_to :
    (n : ℕ) (ctx : ClientCtx) (first seq : ℕ)
    → count seq (request_range n ctx first (seq - first)).missing_packets
      ≤ count seq ctx.missing_packets
unfolding request_range
request_range_to n ctx first seq = elim (order_cases first seq) [
  | inl h ↦ request_range_behind n ctx first (seq - first) seq (omega arith)
  | inr h ↦ let no_round : seq - first ≡ 0 = omega arith in rw no_round (omega arith)
]

-- What holds after a packet with number `seq` has been handled, in a client whose buffer has room
-- for `n` chunks.
pub record Handled (n : ℕ) (seq : ℕ) (ctx ctx' : ClientCtx) : Type 0 where
  pub recent : ctx'.recent_packets ≡ ctx.recent_packets
  pub last :
      ctx'.lastreceviedseqno
      ≡ (if ltb ctx.lastreceviedseqno seq then seq else ctx.lastreceviedseqno)
  pub tracked : IsTracked n ctx'.missing_packets
  pub served : count seq ctx'.missing_packets ≡ 0
  pub buffer : (q : PQueue PcmChunk) × (ctx'.receivebuffer ≡ some q) × (q.capacity ≡ n)

-- What holds when the gap in front of the chunk is dealt with.
pub record Prepared (n : ℕ) (seq : ℕ) (ctx ctx' : ClientCtx) : Type 0 where
  pub recent : ctx'.recent_packets ≡ ctx.recent_packets
  pub last :
      (ctx'.lastreceviedseqno ≡ ctx.lastreceviedseqno)
      ⊎ ((ctx'.lastreceviedseqno ≡ seq) × (ctx.lastreceviedseqno ≤ seq))
  pub tracked : IsTracked n ctx'.missing_packets
  pub served : count seq ctx'.missing_packets ≡ 0
  pub buffer : (q : PQueue PcmChunk) × (ctx'.receivebuffer ≡ some q) × (q.capacity ≡ n)

pub handle_gap_lem :
    (ctx : ClientCtx) (q : PQueue PcmChunk) (seq : ℕ)
    → ctx.receivebuffer ≡ some q
    → IsTracked q.capacity ctx.missing_packets
    → count seq ctx.missing_packets ≡ 0
    → Prepared q.capacity seq ctx (handle_gap ctx q seq)
unfolding handle_gap realloc_intercom_buffer pqueue_new
handle_gap_lem ctx q seq b t s =
    let last = ctx.lastreceviedseqno in
    let first = max_requests last seq q.capacity in
    let r = request_range-Requests q.capacity ctx first (seq - first) in
    let to = request_range_to q.capacity ctx first seq in
    elim (Bool-cases (ltb seq last)) [
      | inl e ↦ rw e (record {
        recent = refl;
        last = inl refl;
        tracked = t;
        served = s;
        buffer = (q, b, refl);
      })
      | inr e ↦ elim (Bool-cases (leb q.capacity (seq - last))) [
        | inl far ↦
            rw (e, far)
              (record {
                recent = refl;
                last = inr (refl, ground arith);
                tracked = t;
                served = s;
                buffer = (pqueue_new q.capacity, refl, refl);
              })
        | inr near ↦
            rw (e, near)
              (record {
                recent = r.recent;
                last = inl r.last;
                tracked = request_range-IsTracked q.capacity ctx first (seq - first) t;
                served = omega arith;
                buffer = (q, r.buffer ∙ b, refl);
              })
      ]
    ]
