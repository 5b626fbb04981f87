-- ===== src/Server/Resend.antt =====
-- src/intercom_srv.c: chunks that were sent are kept for clients that ask for them again, and go when
-- they are old.
use snapcastc.Packet.RoundTrip.{parse_audio-trimmed, trimmed}
use snapcastc.Packet.{audio_bytes, get_nonce, AudioPacket, parse_audio, parse_header}
use snapcastc.Server.Packets.{
  audio_packet_of, keep_packet, send_to_clients, intercom_send_audio, packet_play_at,
  remove_old_audiodata, answer_request,
}
use snapcastc.Base.{
  ◌/◌, ◌%◌, ℕ, ◌+◌, ◌≤◌, ◌<◌, ◌≡◌, ◌∙◌, sym, inl, inr, refl, ap, Bool, true, false, List, [], ◌∷◌,
  ◌++◌, some, arith, if◌then◌else◌, length, Bool-cases,
}
use snapcastc.Base.Int.{is_pos}
use snapcastc.Timespec.{Timespec, timespec_cmp}
use snapcastc.Pcmchunk.Laws.{IsWire}
use snapcastc.Intercom.{is_found, find_packet, cmp_audiopacket, is_zero}
use snapcastc.Server.{
  removal_posted, ClientRecord, StreamRecord, ServerCtx, get_client, is_client, find_client,
}
use snapcastc.Server.Clients.{send, buffer_of, new_client}

send_to_clients-streams :
    (srv : ServerCtx) (cs : List ClientRecord) (packet : List ℕ)
    → (send_to_clients srv cs packet).streams ≡ srv.streams
unfolding send_to_clients
send_to_clients-streams srv [] packet = refl
send_to_clients-streams srv (c ∷ cs) packet = elim (Bool-cases c.muted) [
  | inl e ↦ rw (send_to_clients, e) (send_to_clients-streams srv cs packet)
  | inr e ↦ rw (send_to_clients, e) (send_to_clients-streams srv cs packet)
]

buffer_of-here :
    (before : List StreamRecord) (s : StreamRecord) (after : List StreamRecord) (id : ℕ)
    → is_client (find_client before id) ≡ false
    → is_client (get_client s.clients id) ≡ true
    → buffer_of (before ++ s ∷ after) id ≡ s.packet_buffer
unfolding buffer_of find_client
buffer_of-here [] s after id absent here = rw (buffer_of, here) refl
buffer_of-here (b ∷ before) s after id absent here =
    elim (Bool-cases (is_client (get_client b.clients id))) [
      | inl e ↦ let no : true ≡ false = sym e ∙ (rw (find_client, e) at absent) in cc
      | inr e ↦
          rw (buffer_of, e) (buffer_of-here before s after id (rw (find_client, e) at absent) here)
    ]

find-last :
    (n : ℕ) (aps : List AudioPacket) (x : AudioPacket)
    → is_found (find_packet n aps) ≡ false
    → x.nonce ≡ n
    → find_packet n (aps ++ x ∷ []) ≡ some x
unfolding find_packet cmp_audiopacket is_zero
find-last n [] x h e = rw e (ground arith)
find-last n (a ∷ aps) x h e = ground (arith, find-last n aps x)

answer_found :
    (srv : ServerCtx) (id ip port n : ℕ) (p : AudioPacket)
    → find_packet n (buffer_of srv.streams id) ≡ some p
    → answer_request srv id ip port n ≡ send srv (new_client id ip port) p.bytes
unfolding answer_request
answer_found srv id ip port n p e = rw (answer_request, e) refl

sent-streams :
    (srv : ServerCtx) (before : List StreamRecord) (s : StreamRecord) (after : List StreamRecord)
    → (intercom_send_audio srv before s after).streams
      ≡ before ++ keep_packet srv.bufferms s ∷ after
unfolding intercom_send_audio
sent-streams srv before s after =
    send_to_clients-streams
      (record srv {
        streams = before ++ keep_packet srv.bufferms s ∷ after;
        tasks = srv.tasks ++ removal_posted (srv.bufferms / 1000) (srv.bufferms % 1000) ∷ [];
      })
      s.clients (audio_packet_of srv.bufferms s).bytes

pub audio_packet_of-number :
    (bufferms : ℕ) (s : StreamRecord)
    → s.seqno < 4294967295
    → audio_packet_of bufferms s
      ≡ record { bytes = audio_bytes s.seqno bufferms s.inputpipe.chunk; nonce = s.seqno }
unfolding audio_packet_of get_nonce
audio_packet_of-number bufferms s low =
    let number : s.seqno % 4294967295 ≡ s.seqno = omega arith in
    ap (λ n. record { bytes = audio_bytes n bufferms s.inputpipe.chunk; nonce = n }) number

keep_packet_lem :
    (bufferms : ℕ) (s : StreamRecord)
    → ((keep_packet bufferms s).clients ≡ s.clients)
      × ((keep_packet bufferms s).packet_buffer
          ≡ s.packet_buffer ++ audio_packet_of bufferms s ∷ [])
unfolding keep_packet
keep_packet_lem bufferms s = (refl, refl)

abbrev nonce_of : AudioPacket → ℕ
nonce_of p = p.nonce

-- The packet is found in the stream's buffer.
kept_found :
    (srv : ServerCtx) (before : List StreamRecord) (s : StreamRecord) (after : List StreamRecord)
    (id : ℕ)
    → is_client (find_client before id) ≡ false
    → is_client (get_client s.clients id) ≡ true
    → s.seqno < 4294967295
    → is_found (find_packet s.seqno s.packet_buffer) ≡ false
    → find_packet s.seqno (buffer_of (intercom_send_audio srv before s after).streams id)
      ≡ some (audio_packet_of srv.bufferms s)
kept_found srv before s after id absent here low fresh =
    let k = keep_packet srv.bufferms s in
    let fields = keep_packet_lem srv.bufferms s in
    let there : is_client (get_client k.clients id) ≡ true =
      ap (λ cs. is_client (get_client cs id)) fields.0 ∙ here in
    ap (λ ss. find_packet s.seqno (buffer_of ss id)) (sent-streams srv before s after)
    ∙ ap (find_packet s.seqno) (buffer_of-here before k after id absent there ∙ fields.1)
    ∙ find-last s.seqno s.packet_buffer (audio_packet_of srv.bufferms s) fresh
        (ap nonce_of (audio_packet_of-number srv.bufferms s low))

-- A chunk whose fields fit their widths, and that has at least as much data as its size says, has
-- been sent, under a number below the last one that the stream does not keep yet, with a buffer
-- length of 16 bits. When a client of this stream, and of none before it, asks for that
-- number, the server sends a packet to where the request came from; what the client then
-- reads out of it is the chunk with as much data as its size says, its number and the server's buffer length.
pub resend_correct :
    (srv : ServerCtx) (before : List StreamRecord) (s : StreamRecord) (after : List StreamRecord)
    (id ip port : ℕ)
    → is_client (find_client before id) ≡ false
    → is_client (get_client s.clients id) ≡ true
    → s.seqno < 4294967295
    → is_found (find_packet s.seqno s.packet_buffer) ≡ false
    → srv.bufferms < 65536
    → IsWire s.inputpipe.chunk
    → s.inputpipe.chunk.size ≤ length s.inputpipe.chunk.samples_data
    → let srv' = intercom_send_audio srv before s after in
      (bytes : List ℕ) × (answer_request srv' id ip port s.seqno
        ≡ send srv' (new_client id ip port) bytes)
      × (parse_audio bytes ≡ (srv.bufferms, trimmed s.inputpipe.chunk))
      × (parse_header bytes
          ≡ record { version = 1; packet_type = 1; clientid = 0; nonce = s.seqno })
resend_correct srv before s after id ip port absent here low fresh small wire full =
    let round =
      parse_audio-trimmed s.seqno srv.bufferms s.inputpipe.chunk (omega arith) small wire full in
    let packet = audio_packet_of-number srv.bufferms s low in
    (
      audio_bytes s.seqno srv.bufferms s.inputpipe.chunk,
      answer_found (intercom_send_audio srv before s after) id ip port s.seqno
          (record { bytes = audio_bytes s.seqno srv.bufferms s.inputpipe.chunk; nonce = s.seqno })
          (kept_found srv before s after id absent here low fresh ∙ ap (λ p. some p) packet),
      round.0,
      round.1,
    )

-- The packet plays before this time.
abbrev is_old : Timespec → AudioPacket → Bool
is_old age p = is_pos (timespec_cmp age (packet_play_at p))

abbrev pub old : Timespec → List AudioPacket → ℕ
old age [] = 0
old age (p ∷ aps) = (if is_pos (timespec_cmp age (packet_play_at p)) then 1 else 0) + old age aps

abbrev pub PlaysBefore : AudioPacket → List AudioPacket → Type 0
PlaysBefore p [] = Unit
PlaysBefore p (q ∷ aps) =
    (is_pos (timespec_cmp (packet_play_at p) (packet_play_at q)) ≡ false) × PlaysBefore p aps

-- The packets are in the order in which they play.
abbrev pub IsAscending : List AudioPacket → Type 0
IsAscending [] = Unit
IsAscending (p ∷ aps) = PlaysBefore p aps × IsAscending aps

not_older :
    (age t u : Timespec)
    → is_pos (timespec_cmp age t) ≡ false
    → is_pos (timespec_cmp t u) ≡ false
    → is_pos (timespec_cmp age u) ≡ false
unfolding timespec_cmp
not_older age t u h k = ground arith

none_old :
    (age : Timespec) (p : AudioPacket) (aps : List AudioPacket)
    → is_pos (timespec_cmp age (packet_play_at p)) ≡ false
    → PlaysBefore p aps
    → old age aps ≡ 0
none_old age p [] h b = refl
none_old age p (q ∷ aps) h b =
    let first = not_older age (packet_play_at p) (packet_play_at q) h b.0 in
    let rest = none_old age p aps h b.1 in ground arith

-- Of packets that are in the order in which they play, all old ones go, and at most one that is not old,
-- the one that ends the loop.
pub remove_old_audiodata_correct :
    (age : Timespec) (aps : List AudioPacket)
    → IsAscending aps
    → let kept = remove_old_audiodata age aps in
      (old age kept ≡ 0)
      × (length kept + old age aps ≤ length aps)
      × (length aps ≤ length kept + old age aps + 1)
unfolding remove_old_audiodata
remove_old_audiodata_correct age [] h = (refl, omega arith, omega arith)
remove_old_audiodata_correct age (p ∷ aps) h =
    let rest = remove_old_audiodata_correct age aps h.1 in
    elim (Bool-cases (is_pos (timespec_cmp age (packet_play_at p)))) [
      | inl e ↦ rw (remove_old_audiodata, e) (rest.0, omega (arith, rest.1), omega (arith, rest.2))
      | inr e ↦
          let young = none_old age p aps e h.0 in
          rw (remove_old_audiodata, e) (young, omega arith, omega arith)
    ]
