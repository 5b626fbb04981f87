-- ===== src/Server/Operations.antt =====
-- src/intercom_srv.c: `intercom_handle_client_operation`, against packets as the clients write them.
use snapcastc.Base.{
  bind_assoc, bind_same, true, ◌∙◌, sym, zero, suc, some, ap, length-append, ◌≤◌, ltb, ℕ, ◌+◌, ◌<◌,
  ◌≡◌, refl, List, [], ◌∷◌, ◌++◌, Option, arith, length, ◌>>=◌,
}
use mathlib.Core.List.{append_assoc}
use snapcastc.Packet.RoundTrip.{parse_header-header_bytes}
use snapcastc.Server.Packets.{
  client_segments, intercom_handle_client_operation, client_segment, answer_request, client_of,
}
use snapcastc.Timespec.{Timespec}
use snapcastc.Packet.{
  parse_header, client_operation, assemble32, assemble16, header_bytes, Hello, byte, read16, read32,
  parse_hello, parse_request, assemble_hello, assemble_request, hello_tlv, request_tlv,
}
use snapcastc.Packet.Numbers.{high_low16, high_low32}
use snapcastc.Packet.Bytes.{byte-append, all_done}
use snapcastc.Server.{ServerCtx}
use snapcastc.Server.Clients.{clientmgr_refresh_client}

-- What a client can tell the server.
pub data ClientOp : Type 0 where
  hello : Hello → ClientOp
  request : ℕ → ClientOp

abbrev pub encode : ClientOp → List ℕ
encode (hello h) = assemble_hello h.id h.latency h.volume_percent
encode (request n) = assemble_request n

abbrev pub encode_all : List ClientOp → List ℕ
encode_all [] = []
encode_all (op ∷ ops) = encode op ++ encode_all ops

-- The numbers fit their fields.
abbrev pub Fits : ClientOp → Type 0
Fits (hello h) = (h.id < 65536) × (h.latency < 4294967296)
Fits (request n) = n < 4294967296

abbrev pub AllFit : List ClientOp → Type 0
AllFit [] = Unit
AllFit (op ∷ ops) = Fits op × AllFit ops

-- What an operation of the client with this id, address and port does.
abbrev pub perform : Timespec → ℕ → ℕ → ℕ → ClientOp → ServerCtx → Option ServerCtx
perform ctime clientid ip port (hello h) srv =
    clientmgr_refresh_client ctime srv (client_of h ip port)
perform ctime clientid ip port (request n) srv = some (answer_request srv clientid ip port n)

abbrev pub perform_all : Timespec → ℕ → ℕ → ℕ → List ClientOp → ServerCtx → Option ServerCtx
perform_all ctime clientid ip port [] srv = some srv
perform_all ctime clientid ip port (op ∷ ops) srv =
    perform ctime clientid ip port op srv >>= λ srv'. perform_all ctime clientid ip port ops srv'

parse_hello-encode :
    (done : List ℕ) (h : Hello) (rest : List ℕ)
    → Fits (hello h)
    → parse_hello (done ++ (encode (hello h) ++ rest)) (length done) ≡ (h, 9)
unfolding parse_hello read16 read32 assemble_hello
parse_hello-encode done h rest fits =
    let packet = encode (hello h) ++ rest in
    let n = length done in
    rw
      (
        byte-append done packet 1 (n + 1) (omega arith),
        byte-append done packet 2 (n + 2) (omega arith),
        byte-append done packet 3 (n + 2 + 1) (omega arith),
        byte-append done packet 4 (n + 4) (omega arith),
        byte-append done packet 5 (n + 4 + 1) (omega arith),
        byte-append done packet 6 (n + 4 + 2) (omega arith),
        byte-append done packet 7 (n + 4 + 3) (omega arith),
        byte-append done packet 8 (n + 8) (omega arith),
        high_low16 h.id fits.0,
        high_low32 h.latency fits.1,
      )
      refl

parse_request-encode :
    (done : List ℕ) (m : ℕ) (rest : List ℕ)
    → m < 4294967296
    → parse_request (done ++ (encode (request m) ++ rest)) (length done) ≡ (m, 6)
unfolding parse_request read32 assemble_request
parse_request-encode done m rest fits =
    let packet = encode (request m) ++ rest in
    let n = length done in
    rw
      (
        byte-append done packet 1 (n + 1) (omega arith),
        byte-append done packet 2 (n + 2) (omega arith),
        byte-append done packet 3 (n + 2 + 1) (omega arith),
        byte-append done packet 4 (n + 2 + 2) (omega arith),
        byte-append done packet 5 (n + 2 + 3) (omega arith),
        high_low32 m fits,
      )
      refl

type-encode :
    (done : List ℕ) (op : ClientOp) (rest : List ℕ)
    → byte (done ++ (encode op ++ rest)) (length done)
      ≡ (elim op [ hello _ ↦ hello_tlv | request _ ↦ request_tlv ])
unfolding byte assemble_hello assemble_request
type-encode done (hello h) rest =
    byte-append done (encode (hello h) ++ rest) 0 (length done) (omega arith)
type-encode done (request m) rest =
    byte-append done (encode (request m) ++ rest) 0 (length done) (omega arith)

-- One round of the loop performs the operation at the offset.
segment-encode :
    (ctime : Timespec) (srv : ServerCtx) (clientid ip port : ℕ) (done : List ℕ) (op : ClientOp)
    (rest : List ℕ)
    → Fits op
    → (parse_header (done ++ (encode op ++ rest))).clientid ≡ clientid
    → client_segment ctime srv (done ++ (encode op ++ rest)) ip port (length done)
      ≡ (perform ctime clientid ip port op srv >>= λ srv'. some (srv', length (encode op)))
unfolding client_segment assemble_hello assemble_request assemble16 assemble32
segment-encode ctime srv clientid ip port done (hello h) rest fits c =
    rw (parse_hello-encode done h rest fits, type-encode done (hello h) rest) refl
segment-encode ctime srv clientid ip port done (request m) rest fits c =
    rw (parse_request-encode done m rest fits, type-encode done (request m) rest, c) refl

encode_long : (op : ClientOp) → 0 < length (encode op)
unfolding assemble_hello assemble_request
encode_long (hello h) = omega arith
encode_long (request n) = omega arith

segments-encode :
    (fuel : ℕ) (ctime : Timespec) (srv : ServerCtx) (clientid ip port : ℕ) (done : List ℕ)
    (ops : List ClientOp) (packet : List ℕ) (offset : ℕ)
    → packet ≡ done ++ encode_all ops
    → offset ≡ length done
    → length (encode_all ops) ≤ fuel
    → AllFit ops
    → (parse_header packet).clientid ≡ clientid
    → client_segments fuel ctime srv packet ip port offset
      ≡ perform_all ctime clientid ip port ops srv
unfolding client_segments
segments-encode zero ctime srv clientid ip port done [] packet offset e o h fits c =
    rw (all_done done packet offset e o) refl
segments-encode (suc fuel) ctime srv clientid ip port done [] packet offset e o h fits c =
    rw (all_done done packet offset e o) refl
segments-encode zero ctime srv clientid ip port done (op ∷ ops) packet offset e o h fits c =
    let long = encode_long op in
    let parts = length-append (encode op) (encode_all ops) in ground arith
segments-encode (suc fuel) ctime srv clientid ip port done (op ∷ ops) packet offset e o h fits c =
    let long = encode_long op in
    let parts = length-append (encode op) (encode_all ops) in
    let header : (parse_header (done ++ (encode op ++ encode_all ops))).clientid ≡ clientid =
      ap (λ p. (parse_header p).clientid) (sym e) ∙ c in
    let step : client_segment ctime srv packet ip port offset
        ≡ (perform ctime clientid ip port op srv >>= λ srv'. some (srv', length (encode op))) =
      rw (e, o)
        (segment-encode ctime srv clientid ip port done op (encode_all ops) fits.0 header) in
    let inside : ltb offset (length packet) ≡ true =
      rw (e, o) (ground (arith, length-append done (encode op ++ encode_all ops))) in
    let next : ServerCtx × ℕ → Option ServerCtx =
      λ r. client_segments fuel ctime r.0 packet ip port (offset + r.1) in
    rw inside (
      ap (λ s. s >>= next) step
      ∙ (bind_assoc (perform ctime clientid ip port op srv)
            (λ srv'. some (srv', length (encode op))) next
          ∙ bind_same (perform ctime clientid ip port op srv)
              (λ srv'. next (srv', length (encode op)))
              (λ srv'. perform_all ctime clientid ip port ops srv')
              (λ srv'.
                segments-encode fuel ctime srv' clientid ip port (done ++ encode op) ops packet
                  (offset + length (encode op))
                  (e ∙ sym (append_assoc done (encode op) (encode_all ops)))
                  (omega (arith, length-append done (encode op))) (omega arith) fits.1 c)))

-- A packet that a client puts together from any list of hellos and requests whose numbers fit
-- their fields has the effect of these, in their order, for the client that its header names and
-- the address that it came from; where a hello fails, the rest is not done.
pub client_operation_correct :
    (ctime : Timespec) (srv : ServerCtx) (clientid nonce ip port : ℕ) (ops : List ClientOp)
    → clientid < 65536
    → nonce < 4294967296
    → AllFit ops
    → intercom_handle_client_operation ctime srv
        (header_bytes client_operation clientid nonce ++ encode_all ops)
        ip
        port
      ≡ perform_all ctime clientid ip port ops srv
unfolding intercom_handle_client_operation header_bytes
client_operation_correct ctime srv clientid nonce ip port ops small low fits =
    let hdr = header_bytes client_operation clientid nonce in
    let packet = hdr ++ encode_all ops in
    segments-encode (length packet) ctime srv clientid ip port hdr ops packet 8 refl refl
      (omega (arith, length-append hdr (encode_all ops))) fits
      (ap (λ h. h.clientid)
        (parse_header-header_bytes client_operation clientid nonce (encode_all ops) small low))
