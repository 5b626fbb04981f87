-- ===== src/Pcmchunk/Playback.antt =====
-- src/pqueue.c with src/intercom_client.c: `receivebuffer_cmp`: the queue of chunks, as the client
-- uses it.
use snapcastc.Base.{ℕ, ◌<◌, ◌≤◌, ◌≡◌, arith, some, length}
use snapcastc.Timespec.Laws.{to_ns}
use snapcastc.Pqueue.{PQueue, cell, pqueue_dequeue}
use snapcastc.Pqueue.Down.{IsHeap}
use snapcastc.Pqueue.Queue.{pqueue_dequeue_correct}
use snapcastc.Pcmchunk.{PcmChunk, chunk_get_play_at}
use snapcastc.Pcmchunk.Laws.{by_play_at, receivebuffer_cmp_earlier}

abbrev pub play_ns : PcmChunk → ℕ
play_ns c = to_ns (chunk_get_play_at (some c))

-- From a receive buffer that is a heap of chunks with normal times, the chunk that is taken plays no
-- later than any other.
pub dequeue_earliest :
    (q : PQueue PcmChunk) (i : ℕ)
    → IsHeap by_play_at q.elements
    → ((j : ℕ) → (cell by_play_at q.elements j).play_at_tv_nsec < 1000000000)
    → i < length q.elements
    → (c : PcmChunk) × ((pqueue_dequeue by_play_at q).0 ≡ some c)
      × (play_ns c ≤ play_ns (cell by_play_at q.elements i))
dequeue_earliest q i h n p =
    let d = pqueue_dequeue_correct by_play_at q h (omega arith) in
    let first = cell by_play_at q.elements 0 in
    (
      first,
      d.0,
      receivebuffer_cmp_earlier (cell by_play_at q.elements i) first (d.1 i p) (n 0) (n i),
    )
