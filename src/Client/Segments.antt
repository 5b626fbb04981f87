-- ===== src/Client/Segments.antt =====
-- src/intercom_client.c: `intercom_handle_server_operation`, against packets as the server writes them.
use snapcastc.Packet.Bytes.{byte-append, all_done}
use mathlib.Core.List.{append_assoc}
use snapcastc.Base.{
  ℕ, zero, suc, ◌+◌, ◌≤◌, ◌<◌, ◌≡◌, refl, sym, ◌∙◌, true, List, [], ◌∷◌, ◌++◌, none, some, arith,
  ltb, length, length-append,
}
use snapcastc.Packet.{byte, header_bytes, assemble_volume, assemble_stop, server_operation}
use snapcastc.Player.{adjust_volume}
use snapcastc.Client.{ClientCtx}
use snapcastc.Client.Receive.{
  client_stopped, server_segment, server_segments, intercom_handle_server_operation,
}

-- What the server can tell a client to do.
pub data ServerOp : Type 0 where
  stop : ServerOp
  volume : ℕ → ServerOp

abbrev pub encode : ServerOp → List ℕ
encode stop = assemble_stop
encode (volume v) = assemble_volume v

abbrev pub encode_all : List ServerOp → List ℕ
encode_all [] = []
encode_all (op ∷ ops) = encode op ++ encode_all ops

abbrev pub perform : ServerOp → ClientCtx → ClientCtx
perform stop ctx = client_stopped ctx
perform (volume v) ctx = record ctx { player = adjust_volume ctx.player v }

abbrev pub perform_all : List ServerOp → ClientCtx → ClientCtx
perform_all [] ctx = ctx
perform_all (op ∷ ops) ctx = perform_all ops (perform op ctx)

segment-encode :
    (ctx : ClientCtx) (done : List ℕ) (op : ServerOp) (rest : List ℕ)
    → server_segment ctx (done ++ (encode op ++ rest)) (length done)
      ≡ (perform op ctx, length (encode op))
unfolding server_segment adjust_volume assemble_stop assemble_volume
segment-encode ctx done stop rest =
    let packet = encode stop ++ rest in
    rw
      (
        byte-append done packet 0 (length done) (omega arith),
        byte-append done packet 1 (length done + 1) (omega arith),
      )
      refl
segment-encode ctx done (volume v) rest =
    let packet = encode (volume v) ++ rest in
    rw
      (
        byte-append done packet 0 (length done) (omega arith),
        byte-append done packet 1 (length done + 1) (omega arith),
        byte-append done packet 2 (length done + 2) (omega arith),
      )
      refl

encode_long : (op : ServerOp) → 0 < length (encode op)
unfolding assemble_stop assemble_volume
encode_long stop = omega arith
encode_long (volume v) = omega arith

-- Where all of a packet up to the offset is done, the loop performs the rest.
segments-encode :
    (fuel : ℕ) (ctx : ClientCtx) (done : List ℕ) (ops : List ServerOp) (packet : List ℕ)
    (offset : ℕ)
    → packet ≡ done ++ encode_all ops
    → offset ≡ length done
    → length (encode_all ops) ≤ fuel
    → server_segments fuel ctx packet offset ≡ some (perform_all ops ctx)
unfolding server_segments
segments-encode zero ctx done [] packet offset e o h = rw (all_done done packet offset e o) refl
segments-encode (suc fuel) ctx done [] packet offset e o h =
    rw (all_done done packet offset e o) refl
segments-encode zero ctx done (op ∷ ops) packet offset e o h =
    let long = encode_long op in
    let parts = length-append (encode op) (encode_all ops) in ground arith
segments-encode (suc fuel) ctx done (op ∷ ops) packet offset e o h =
    let long = encode_long op in
    let parts = length-append (encode op) (encode_all ops) in
    let step : server_segment ctx packet offset ≡ (perform op ctx, length (encode op)) =
      rw (e, o) (segment-encode ctx done op (encode_all ops)) in
    let inside : ltb offset (length packet) ≡ true =
      rw (e, o) (ground (arith, length-append done (encode op ++ encode_all ops))) in
    let rest =
      segments-encode fuel (perform op ctx) (done ++ encode op) ops packet
        (offset + length (encode op)) (e ∙ sym (append_assoc done (encode op) (encode_all ops)))
        (omega (arith, length-append done (encode op))) (omega arith) in
    rw (step, inside) rest

-- A packet that the server puts together from any list of operations has the effect of
-- these operations, in their order, and nothing else: the loop reads back what was written, and ends.
pub server_operation_correct :
    (ctx : ClientCtx) (clientid nonce : ℕ) (ops : List ServerOp)
    → intercom_handle_server_operation ctx
        (header_bytes server_operation clientid nonce ++ encode_all ops)
      ≡ some (perform_all ops ctx)
unfolding intercom_handle_server_operation header_bytes
server_operation_correct ctx clientid nonce ops =
    let hdr = header_bytes server_operation clientid nonce in
    segments-encode (length (hdr ++ encode_all ops)) ctx hdr ops (hdr ++ encode_all ops) 8 refl refl
      (omega (arith, length-append hdr (encode_all ops)))

-- A segment with both bytes zero from which a length is read does not move the offset on.
stuck_step :
    (ctx : ClientCtx) (packet : List ℕ) (offset : ℕ)
    → byte packet (offset + 1) ≡ 0
    → byte packet (offset + 2) ≡ 0
    → (server_segment ctx packet offset).1 ≡ 0
unfolding server_segment
stuck_step ctx packet offset e f = ground (arith, e, f)

-- At a segment whose second and third byte are 0, which no operation's segment has, the loop stays for
-- ever: no number of rounds is enough.
pub server_segments_stuck :
    (fuel : ℕ) (ctx : ClientCtx) (packet : List ℕ) (offset : ℕ)
    → offset < length packet
    → byte packet (offset + 1) ≡ 0
    → byte packet (offset + 2) ≡ 0
    → server_segments fuel ctx packet offset ≡ none
unfolding server_segments
server_segments_stuck zero ctx packet offset h e f = ground arith
server_segments_stuck (suc fuel) ctx packet offset h e f =
    let ctx' = (server_segment ctx packet offset).0 in
    let rest = server_segments_stuck fuel ctx' packet offset h e f in
    let stays : offset + 0 ≡ offset = omega arith in
    rw (stuck_step ctx packet offset e f, stays) (ground (arith, rest))
