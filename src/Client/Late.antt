-- ===== src/Client/Late.antt =====
-- src/intercom_client.c: `remove_old_data_from_receivebuffer`.
use snapcastc.Base.Perms.{length-perm}
use snapcastc.Base.{
  order_cases, ℕ, zero, suc, ◌==◌, ◌≤◌, ◌<◌, ◌≡◌, inl, inr, refl, ap, Bool, true, false, not,
  Option, arith, ltb, ◌&&◌, length, Bool-cases,
}
use snapcastc.Base.Int.{is_pos}
use snapcastc.Timespec.{Timespec, timespec_cmp}
use snapcastc.Pqueue.{PQueue, pqueue_dequeue, pqueue_peek}
use snapcastc.Pqueue.Queue.{pqueue_dequeue_elements}
use snapcastc.Pcmchunk.{PcmChunk, chunk_get_play_at}
use snapcastc.Pcmchunk.Laws.{by_play_at}
use snapcastc.Client.Audio.{remove_old, remove_old_data_from_receivebuffer}

-- The head of the queue is due: it has a time, and that has passed.
abbrev pub is_late : Timespec → Option PcmChunk → Bool
is_late now chunk =
    not ((chunk_get_play_at chunk).tv_sec == 0)
    && is_pos (timespec_cmp now (chunk_get_play_at chunk))

-- From the queue only chunks are taken that were late at the head of the queue.
pub data Dropped (now : Timespec) : PQueue PcmChunk → PQueue PcmChunk → Type 0 where
  stop : (q : PQueue PcmChunk) → Dropped now q q
  drop_head :
      (q q' : PQueue PcmChunk)
      → is_late now (pqueue_peek by_play_at q) ≡ true
      → Dropped now (pqueue_dequeue by_play_at q).1 q'
      → Dropped now q q'

empty_lem :
    (now : Timespec) (q : PQueue PcmChunk)
    → length q.elements < 1
    → is_late now (pqueue_peek by_play_at q) ≡ false
unfolding pqueue_peek chunk_get_play_at
empty_lem now q h =
    let none_left : ltb (length q.elements) 1 ≡ true = ground arith in rw none_left refl

dequeue-length :
    (q : PQueue PcmChunk)
    → 0 < length q.elements
    → suc (length (pqueue_dequeue by_play_at q).1.elements) ≡ length q.elements
dequeue-length q h = elim (pqueue_dequeue_elements by_play_at q) [
  | inl (e, _) ↦ let size : length q.elements ≡ 0 = ap length e in ground arith
  | inr (x, _, _, same) ↦ length-perm same
]

remove_old_lem :
    (fuel : ℕ) (now : Timespec) (q : PQueue PcmChunk)
    → length q.elements ≤ fuel
    → (is_late now (pqueue_peek by_play_at (remove_old fuel now q)) ≡ false)
      × Dropped now q (remove_old fuel now q)
unfolding remove_old
remove_old_lem zero now q h = (empty_lem now q (omega arith), stop q)
remove_old_lem (suc fuel) now q h =
    let q' = (pqueue_dequeue by_play_at q).1 in
    elim (Bool-cases (is_late now (pqueue_peek by_play_at q))) [
      | inl late ↦ elim (order_cases 1 (length q.elements)) [
        | inl some_left ↦
            let rest = remove_old_lem fuel now q' (omega (arith, dequeue-length q some_left)) in
            rw late (rest.0, drop_head q (remove_old fuel now q') late rest.1)
        | inr none_left ↦ let early = empty_lem now q none_left in ground (arith, early, late)
      ]
      | inr early ↦ rw early (early, stop q)
    ]

-- The queue is left with a head that is not late, or empty, and it has lost late heads only: the
-- rounds of the loop are enough.
pub remove_old_data_correct :
    (now : Timespec) (q : PQueue PcmChunk)
    → let q' = remove_old_data_from_receivebuffer now q in
      (is_late now (pqueue_peek by_play_at q') ≡ false) × Dropped now q q'
unfolding remove_old_data_from_receivebuffer
remove_old_data_correct now q = remove_old_lem (length q.elements) now q (omega arith)
