-- ===== src/Client/Gap.antt =====
-- src/intercom_client.c: what a gap in the numbers leads to.
use snapcastc.Base.{
  ℕ, zero, suc, ◌+◌, ◌==◌, ◌≤◌, ◌<◌, ◌≡◌, ◌⊎◌, inl, inr, refl, ◌∙◌, false, List, [], ◌∷◌, ◌++◌,
  arith, if◌then◌else◌, length, length-append, Bool-cases,
}
use snapcastc.Packet.{AudioPacket}
use snapcastc.Intercom.Packets.{count, count-append}
use snapcastc.Client.{ClientCtx, limit_missing_packets, already_requesting, intercom_send_request}
use snapcastc.Client.Audio.{request_missing, request_range}
use snapcastc.Client.Missing.{limit-length, limit-count, limit-short, absent-count, present-count}

-- What a request does not touch is the same in both states.
pub record Requests (ctx ctx' : ClientCtx) : Type 0 where
  pub recent : ctx'.recent_packets ≡ ctx.recent_packets
  pub last : ctx'.lastreceviedseqno ≡ ctx.lastreceviedseqno
  pub buffer : ctx'.receivebuffer ≡ ctx.receivebuffer
  pub player : ctx'.player ≡ ctx.player

pub Requests-refl : (ctx : ClientCtx) → Requests ctx ctx
Requests-refl ctx = record { recent = refl; last = refl; buffer = refl; player = refl }

Requests-trans : (a b c : ClientCtx) → Requests a b → Requests b c → Requests a c
Requests-trans a b c p q = record {
  recent = q.recent ∙ p.recent;
  last = q.last ∙ p.last;
  buffer = q.buffer ∙ p.buffer;
  player = q.player ∙ p.player;
}

request_missing-Requests :
    (n : ℕ) (ctx : ClientCtx) (i : ℕ) → Requests ctx (request_missing n ctx i)
unfolding request_missing intercom_send_request
request_missing-Requests n ctx i = elim (Bool-cases (already_requesting ctx.missing_packets i)) [
  | inl e ↦ rw e (Requests-refl ctx)
  | inr e ↦ rw e (record { recent = refl; last = refl; buffer = refl; player = refl })
]

pub request_range-Requests :
    (n : ℕ) (ctx : ClientCtx) (i rounds : ℕ) → Requests ctx (request_range n ctx i rounds)
unfolding request_range
request_range-Requests n ctx i zero = Requests-refl ctx
request_range-Requests n ctx i (suc rounds) =
    Requests-trans ctx (request_missing n ctx i) (request_range n ctx i (suc rounds))
      (request_missing-Requests n ctx i)
      (request_range-Requests n (request_missing n ctx i) (i + 1) rounds)

-- The list after one round.
unfoldable pub tracked : ℕ → List AudioPacket → ℕ → List AudioPacket
tracked n aps i =
    if already_requesting aps i
    then aps
    else limit_missing_packets n (aps ++ record { bytes = []; nonce = i } ∷ [])

pub request_missing-tracked :
    (n : ℕ) (ctx : ClientCtx) (i : ℕ)
    → (request_missing n ctx i).missing_packets ≡ tracked n ctx.missing_packets i
unfolding request_missing intercom_send_request tracked
request_missing-tracked n ctx i = ground arith

-- No number stands in the list twice, and there are at most `n` of them.
pub record IsTracked (n : ℕ) (aps : List AudioPacket) : Type 0 where
  pub fits : length aps ≤ n
  pub once : (m : ℕ) → count m aps ≤ 1

pub tracked-once :
    (n : ℕ) (aps : List AudioPacket) (i : ℕ)
    → ((m : ℕ) → count m aps ≤ 1)
    → (m : ℕ) → count m (tracked n aps i) ≤ 1
unfolding tracked
tracked-once n aps i h m =
    let one = h m in
    let more = limit-count n m (aps ++ record { bytes = []; nonce = i } ∷ []) in
    let both = count-append m aps (record { bytes = []; nonce = i } ∷ []) in
    ground (arith, absent-count i aps)

pub tracked-length :
    (n : ℕ) (aps : List AudioPacket) (i : ℕ) → length aps ≤ n → length (tracked n aps i) ≤ n
unfolding tracked
tracked-length n aps i h =
    ground (arith, limit-length n (aps ++ record { bytes = []; nonce = i } ∷ []))

Nat_cases : (a b : ℕ) → (a ≡ b) ⊎ ((a == b) ≡ false)
Nat_cases a b = ground arith

-- A number is in the list after its round, and all others are where they were, while there is room.
pub tracked-count :
    (n : ℕ) (aps : List AudioPacket) (i m : ℕ)
    → length aps < n
    → ((k : ℕ) → count k aps ≤ 1)
    → count m (tracked n aps i) ≡ (if m == i then 1 else count m aps)
unfolding tracked
tracked-count n aps i m room h =
    let one = h m in
    let one_i = h i in
    let size = length-append aps (record { bytes = []; nonce = i } ∷ []) in
    let both = count-append m aps (record { bytes = []; nonce = i } ∷ []) in
    let both_i = count-append i aps (record { bytes = []; nonce = i } ∷ []) in
    let short = limit-short n (aps ++ record { bytes = []; nonce = i } ∷ []) (omega arith) in
    elim (Nat_cases m i) [
      | inl e ↦ rw (e, short) (ground (arith, absent-count i aps, present-count i aps))
      | inr e ↦ ground (arith, absent-count i aps, short)
    ]
