-- ===== src/Examples/Queues.antt =====
-- src/pqueue.c and pcmchunk.c: queues of chunks.
use snapcastc.Base.{ℕ, zero, suc, ◌≡◌, ◌<◌, refl, arith, false, [], ◌∷◌, some, Perm, length}
use snapcastc.Base.Int.{is_pos}
use snapcastc.Pcmchunk.{PcmChunk, codec_pcm, receivebuffer_cmp, chunk_cmp}
use snapcastc.Pcmchunk.Laws.{by_play_at, IsWire}
use snapcastc.Pqueue.{PQueue, cell, higher, pqueue_enqueue, pqueue_dequeue}
use snapcastc.Pqueue.Up.{IsHalved}
use snapcastc.Pqueue.Down.{IsHeap}
use snapcastc.Pqueue.Queue.{Holds, pqueue_enqueue_correct, pqueue_dequeue_correct}
use snapcastc.Pqueue.Arrival.{pqueue_enqueue_breaks-IsHeap}

abbrev chunk_at : ℕ → PcmChunk
chunk_at sec = record {
  play_at_tv_sec = sec;
  play_at_tv_nsec = 5;
  samples = 44100;
  frame_size = 2;
  channels = 2;
  size = 8;
  codec = codec_pcm;
  samples_data = 1 ∷ 2 ∷ 3 ∷ 4 ∷ 5 ∷ 6 ∷ 7 ∷ 8 ∷ [];
}

abbrev two : PQueue PcmChunk
two = record { capacity = 10; elements = chunk_at 4 ∷ chunk_at 6 ∷ [] }

two-IsHeap : IsHeap by_play_at two.elements
unfolding receivebuffer_cmp chunk_cmp
two-IsHeap zero p q = absurd (omega arith)
two-IsHeap (suc zero) p q = refl
two-IsHeap (suc (suc c)) p q = absurd (omega arith)

two-IsHalved : IsHalved by_play_at two.elements
unfolding receivebuffer_cmp chunk_cmp
two-IsHalved zero p q = absurd (omega arith)
two-IsHalved (suc zero) p q = refl
two-IsHalved (suc (suc c)) p q = absurd (omega arith)

two_later :
    (i : ℕ)
    → i < 2
    → is_pos (receivebuffer_cmp (chunk_at 9) (cell by_play_at two.elements i)) ≡ false
unfolding receivebuffer_cmp chunk_cmp
two_later zero p = refl
two_later (suc zero) p = refl
two_later (suc (suc i)) p = absurd (omega arith)

two_normal : (j : ℕ) → (cell by_play_at two.elements j).play_at_tv_nsec < 1000000000
two_normal zero = omega arith
two_normal (suc zero) = omega arith
two_normal (suc (suc j)) = omega arith

four-IsWire : IsWire (chunk_at 4)
four-IsWire = record {
  sec = omega arith;
  nsec = omega arith;
  rate = omega arith;
  bytes = omega arith;
}

pqueue_enqueue_correct_example :
    Holds by_play_at (pqueue_enqueue by_play_at two (chunk_at 5)) ((chunk_at 5) ∷ two.elements)
    × IsHalved by_play_at (pqueue_enqueue by_play_at two (chunk_at 5)).elements
    × ((pqueue_enqueue by_play_at two (chunk_at 5)).capacity ≡ two.capacity)
pqueue_enqueue_correct_example =
    pqueue_enqueue_correct by_play_at two (chunk_at 5) two-IsHalved (omega arith)

pqueue_dequeue_correct_example :
    ((pqueue_dequeue by_play_at two).0 ≡ some (cell by_play_at two.elements 0))
    × ((i : ℕ) → i < length two.elements → higher by_play_at two.elements i 0 ≡ false)
    × IsHeap by_play_at (pqueue_dequeue by_play_at two).1.elements
    × Perm
        (cell by_play_at two.elements 0 ∷ (pqueue_dequeue by_play_at two).1.elements)
        two.elements
pqueue_dequeue_correct_example = pqueue_dequeue_correct by_play_at two two-IsHeap (omega arith)

pqueue_enqueue_breaks-IsHeap_example :
    let q : PQueue PcmChunk = record {
      capacity = 10;
      elements = (chunk_at 1) ∷ (chunk_at 8) ∷ (chunk_at 2) ∷ (chunk_at 9) ∷ [];
    } in
    ((pqueue_enqueue by_play_at q (chunk_at 3)).elements
      ≡ (chunk_at 1) ∷ (chunk_at 8) ∷ (chunk_at 2) ∷ (chunk_at 9) ∷ (chunk_at 3) ∷ [])
    × ¬ IsHeap by_play_at (pqueue_enqueue by_play_at q (chunk_at 3)).elements
unfolding receivebuffer_cmp chunk_cmp
pqueue_enqueue_breaks-IsHeap_example =
    pqueue_enqueue_breaks-IsHeap by_play_at (chunk_at 1) (chunk_at 8) (chunk_at 2) (chunk_at 9)
      (chunk_at 3) 10 (omega arith) refl refl
