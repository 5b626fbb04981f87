-- ===== src/Client/Audio.antt =====
-- src/intercom_client.c: `intercom_handle_audio` and the handling of the receive buffer.
-- `obtainsystime` is asked twice in one call: `now` and `later`. `none` is a call of `exit_error`, a
-- division by zero, or a read through the NULL pointer to the receive buffer.
use snapcastc.Base.{
  ℕ, zero, suc, ◌+◌, ◌-◌, ◌/◌, ◌%◌, ◌==◌, Bool, true, false, not, ◌&&◌, List, [], ◌∷◌, ◌++◌, Option,
  none, some, ltb, leb, if◌then◌else◌, length, u32_mod, u64_mod, ◌>>=◌,
}
use snapcastc.Base.Int.{ℤ, pos, negsuc, is_pos}
use snapcastc.Timespec.{Timespec, timespec_cmp}
use snapcastc.Packet.{AudioPacket, parse_audio, parse_header}
use snapcastc.Pcmchunk.{PcmChunk, Decoder, chunk_get_play_at, chunk_getduration_ms}
use snapcastc.Pcmchunk.Laws.{by_play_at}
use snapcastc.Pqueue.{PQueue, pqueue_new, pqueue_peek, pqueue_dequeue, pqueue_enqueue}
use snapcastc.Player.{Player, alsaplayer_remove_task, alsaplayer_uninit, alsaplayer_init}
use snapcastc.Client.{
  ClientCtx, limit_missing_packets, prune_missing_packets, already_requesting, remove_request,
  is_next_chunk, intercom_send_request,
}

-- A `size_t` as an argument of type `int`.
unfoldable pub int_of : ℕ → ℤ
int_of n =
    let low = n % u32_mod in if ltb low 2147483648 then pos low else negsuc (4294967295 - low)

-- src/util.c
unfoldable pub max : ℤ → ℤ → ℤ
max (pos a) (pos b) = pos (if ltb b a then a else b)
max (pos a) (negsuc b) = pos a
max (negsuc a) (pos b) = pos b
max (negsuc a) (negsuc b) = negsuc (if ltb a b then a else b)

-- An `int` plus one, as a `size_t`; the largest `int` wraps around to the smallest.
unfoldable pub size_of_succ : ℤ → ℕ
size_of_succ (pos n) = if n == 2147483647 then u64_mod - 2147483648 else n + 1
size_of_succ (negsuc n) = (u64_mod - n) % u64_mod

-- `max(lastreceviedseqno, this_seqno - capacity) + 1`: where the loop of requests begins.
unfoldable pub max_requests : ℕ → ℕ → ℕ → ℕ
unfolding int_of max size_of_succ
max_requests last seq capacity =
    size_of_succ (max (int_of last) (int_of ((seq + u64_mod - capacity) % u64_mod)))

unfoldable pub realloc_intercom_buffer : ClientCtx → ℕ → ClientCtx
unfolding pqueue_new
realloc_intercom_buffer ctx elements = record ctx { receivebuffer = some (pqueue_new elements) }

is_capacity : ℕ → Option (PQueue PcmChunk) → Bool
is_capacity n none = false
is_capacity n (some q) = q.capacity == n

pub realloc_intercom_buffer_when_required : ClientCtx → ℕ → ℕ → Option ClientCtx
unfolding realloc_intercom_buffer is_capacity
realloc_intercom_buffer_when_required ctx serverbufferms chunk_ms =
    let calculated_elements = serverbufferms / chunk_ms + 1 in
    if chunk_ms == 0
    then none
    else if is_capacity calculated_elements ctx.receivebuffer
    then some ctx
    else some
        (record (realloc_intercom_buffer ctx calculated_elements) { bufferms = serverbufferms })

-- The loop looks at the time of the current head. Its test of the head itself is always true, since
-- the loop's body sets a variable of its own; an empty queue has time 0.
unfoldable pub remove_old : ℕ → Timespec → PQueue PcmChunk → PQueue PcmChunk
unfolding pqueue_peek pqueue_dequeue chunk_get_play_at
remove_old zero ctime q = q
remove_old (suc fuel) ctime q =
    let oldest_play_at = chunk_get_play_at (pqueue_peek by_play_at q) in
    let rest = remove_old fuel ctime (pqueue_dequeue by_play_at q).1 in
    if not (oldest_play_at.tv_sec == 0) && is_pos (timespec_cmp ctime oldest_play_at)
    then rest
    else q

unfoldable pub remove_old_data_from_receivebuffer : Timespec → PQueue PcmChunk → PQueue PcmChunk
unfolding remove_old
remove_old_data_from_receivebuffer ctime q = remove_old (length q.elements) ctime q

unfoldable pub intercom_put_chunk : Timespec → ClientCtx → PQueue PcmChunk → PcmChunk → ClientCtx
unfolding remove_old_data_from_receivebuffer pqueue_enqueue
intercom_put_chunk ctime ctx q chunk = record ctx {
  receivebuffer =
      some (pqueue_enqueue by_play_at (remove_old_data_from_receivebuffer ctime q) chunk);
  underrun = false;
}

-- One round of the loop that requests what is missing.
unfoldable pub request_missing : ℕ → ClientCtx → ℕ → ClientCtx
unfolding already_requesting limit_missing_packets intercom_send_request
request_missing capacity ctx i =
    let ap : AudioPacket = record { bytes = []; nonce = i } in
    if already_requesting ctx.missing_packets i
    then ctx
    else intercom_send_request
        (record ctx {
          missing_packets = limit_missing_packets capacity (ctx.missing_packets ++ ap ∷ []);
        })
        ap

-- `for (size_t i = first; i < this_seqno; ++i)`, with the number of rounds.
unfoldable pub request_range : ℕ → ClientCtx → ℕ → ℕ → ClientCtx
unfolding request_missing
request_range capacity ctx i zero = ctx
request_range capacity ctx i (suc rounds) =
    request_range capacity (request_missing capacity ctx i) (i + 1) rounds

-- What a chunk that is not the next one leads to.
unfoldable pub handle_gap : ClientCtx → PQueue PcmChunk → ℕ → ClientCtx
unfolding request_range max_requests realloc_intercom_buffer
handle_gap ctx q this_seqno =
    let last = ctx.lastreceviedseqno in
    let first = max_requests last this_seqno q.capacity in
    if ltb this_seqno last
    then ctx
    else if leb q.capacity (this_seqno - last)
    then realloc_intercom_buffer (record ctx { lastreceviedseqno = this_seqno }) q.capacity
    else request_range q.capacity ctx first (this_seqno - first)

-- The number of the last packet never goes down.
unfoldable pub note_seqno : ClientCtx → ℕ → ClientCtx
note_seqno ctx this_seqno =
    if ltb ctx.lastreceviedseqno this_seqno
    then record ctx { lastreceviedseqno = this_seqno }
    else ctx

unfoldable pub fits_player : Player → PcmChunk → Bool
fits_player player chunk =
    chunk.frame_size == player.frame_size
    && (chunk.channels == player.channels && chunk.samples == player.rate)

-- The output is set up anew where it does not fit the chunk.
unfoldable pub prepare_player : (ℕ → ℕ) → Player → PcmChunk → Option Player
unfolding fits_player alsaplayer_remove_task alsaplayer_uninit alsaplayer_init
prepare_player rate_near player chunk =
    let closed =
      if fits_player player chunk
      then player
      else alsaplayer_uninit (alsaplayer_remove_task player) in
    if closed.initialized
    then some closed
    else alsaplayer_init rate_near (record closed {
      frame_size = chunk.frame_size;
      channels = chunk.channels;
      rate = chunk.samples;
    })

unfoldable pub is_initialized : Option (PQueue PcmChunk) → Bool
is_initialized none = false
is_initialized (some q) = not (q.capacity == 0)

-- The buffer, set up from this chunk where it is missing; that decodes the chunk.
unfoldable pub ensure_buffer : Decoder → ClientCtx → ℕ → PcmChunk → Option (ClientCtx × PcmChunk)
ensure_buffer opus_decode ctx serverbufferms chunk =
    if is_initialized ctx.receivebuffer then some (ctx, chunk) else (do
      measured ← chunk_getduration_ms opus_decode chunk
      ready ← realloc_intercom_buffer_when_required ctx serverbufferms measured.1
      some (ready, measured.0))

-- The chunk is put into the buffer, and the output made ready for it.
unfoldable pub keep_chunk : (ℕ → ℕ) → Timespec → ClientCtx → PcmChunk → ℕ → Option ClientCtx
keep_chunk rate_near later ctx chunk this_seqno = do
  q ← ctx.receivebuffer
  let put = note_seqno (intercom_put_chunk later ctx q chunk) this_seqno
  player' ← prepare_player rate_near put.player chunk
  some (record put { player = player' })

-- A chunk that is not late.
unfoldable pub store_chunk : (ℕ → ℕ) → Timespec → ClientCtx → PcmChunk → ℕ → Option ClientCtx
store_chunk rate_near later ctx chunk this_seqno = do
  q ← ctx.receivebuffer
  let gapped =
      if is_next_chunk ctx.lastreceviedseqno this_seqno then ctx else handle_gap ctx q this_seqno
  keep_chunk rate_near later gapped chunk this_seqno

-- A chunk that is late.
unfoldable pub discard_chunk : ClientCtx → ℕ → ClientCtx
unfolding note_seqno prune_missing_packets
discard_chunk ctx this_seqno = record (note_seqno ctx this_seqno) {
  missing_packets = prune_missing_packets ctx.missing_packets this_seqno;
}

unfoldable pub intercom_handle_audio :
    Decoder → (ℕ → ℕ) → Timespec → Timespec → ClientCtx → List ℕ → Option (ClientCtx × Bool)
intercom_handle_audio opus_decode rate_near now later ctx packet =
    let (serverbufferms, received) = parse_audio packet in
    let this_seqno = (parse_header packet).nonce in
    let served : ClientCtx = record ctx {
      missing_packets = (remove_request ctx.missing_packets this_seqno).0;
    } in
    (do
      ready ← ensure_buffer opus_decode served serverbufferms received
      let play_at = chunk_get_play_at (some ready.1)
      if is_pos (timespec_cmp play_at now)
          then (do
            stored ← store_chunk rate_near later ready.0 ready.1 this_seqno
            some (stored, true))
          else some (discard_chunk ready.0 this_seqno, false))
