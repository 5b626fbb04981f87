-- ===== src/Control/Streams.antt =====
-- src/socket.c: `handle_client_setstream` on requests with a client and the name of a stream.
use snapcastc.Base.{
  Bool-cases, inl, inr, true, subst, ap, ◌∙◌, ==_self, ◌==◌, false, arith, ℕ, ◌+◌, ◌≡◌, ◌⊎◌, refl,
  List, [], ◌∷◌, ◌++◌, none, some, Option-cases, get_elem?,
}
use snapcastc.Control.Told.{
  Answers, TellsStream, buildresult-Answers, result-TellsStream, stop_packet,
}
use snapcastc.Control.Described.{JsonLaws}
use snapcastc.Server.Loop.Sent.{to}
use snapcastc.Server.{
  get_client, is_client, client_cmp, ClientRecord, StreamRecord, ServerCtx, find_client,
  find_stream, stream_find_name,
}
use snapcastc.Intercom.{is_zero}
use snapcastc.Base.Int.{ℤ}
use mathlib.Core.List.{reverse}
use snapcastc.Text.{Text, codes, same_prefix}
use snapcastc.Jsonrpc.{JsonC, json_string, Value, string, Parameter, Request}
use snapcastc.Server.Clients.{intercom_stop_client}
use snapcastc.Server.Registry.{clients_with}
use snapcastc.Control.{ControlCtx, known_client, u16_of, jsonrpc_buildresult, print_and_put}
use snapcastc.Control.Volumes.{id_parameter, known-found}
use snapcastc.Control.Moved.{set_stream_correct}
use snapcastc.Control.Stream.{
  StreamScan, no_stream, scan_stream_parameter, scan_stream, id_in_place, is_changed,
  set_stream_found, stream_result, answer_stream, handle_client_setstream,
}

abbrev pub name_parameter : Text → Parameter
name_parameter name = record { type = json_string; name = codes "stream_id"; value = string name }

-- The two of them, in either order.
abbrev pub AreIdAndName : ℤ → Text → List Parameter → Type 0
AreIdAndName n name ps =
    (ps ≡ id_parameter n ∷ name_parameter name ∷ [])
    ⊎ (ps ≡ name_parameter name ∷ id_parameter n ∷ [])

-- The id of the client right behind this one, or its own id where there is none.
abbrev pub id_behind : ClientRecord → List ClientRecord → ℕ
id_behind c [] = c.id
id_behind c (d ∷ behind) = d.id

not_first :
    (x : ClientRecord) (rest : List ClientRecord) (id : ℕ)
    → is_client (get_client (x ∷ rest) id) ≡ false
    → is_client (get_client rest id) ≡ false
unfolding get_client
not_first x rest id h = elim (Bool-cases (is_zero (client_cmp id x.id))) [
  | inl e ↦ let no : true ≡ false = rw (get_client, e) at h in cc
  | inr e ↦ rw (get_client, e) at h
]

id_in_place-behind :
    (front : List ClientRecord) (c : ClientRecord) (behind : List ClientRecord)
    → is_client (get_client front c.id) ≡ false
    → id_in_place (front ++ c ∷ behind) c.id ≡ id_behind c behind
unfolding id_in_place get_client client_cmp is_zero
id_in_place-behind [] c [] h = refl
id_in_place-behind [] c (d ∷ behind) h = rw (==_self c.id) refl
id_in_place-behind (x ∷ []) c behind h =
    let other : (x.id == c.id) ≡ false = ground arith in
    rw other (id_in_place-behind [] c behind refl)
id_in_place-behind (x ∷ y ∷ front) c behind h =
    let other : (x.id == c.id) ≡ false = ground arith in
    rw other (id_in_place-behind (y ∷ front) c behind (not_first x (y ∷ front) c.id h))

module _ (J : JsonC) (low_bits : Value → ℤ) where
  scan-both :
      (srv : ServerCtx) (n : ℤ) (name : Text) (ps : List Parameter) (id j : ℕ)
      → AreIdAndName n name ps
      → known_client srv (u16_of n) ≡ some id
      → stream_find_name srv.streams name ≡ some j
      → scan_stream low_bits srv (reverse ps) no_stream
        ≡ some (record { client = some id; newstream = some j })
  unfolding scan_stream scan_stream_parameter same_prefix
  scan-both srv n name ps id j (inl e) known named = rw (e, named, known) refl
  scan-both srv n name ps id j (inr e) known named = rw (e, known, named) refl

  -- A request with an id and a stream's name, in either order, where both are known and the old
  -- stream's name is no beginning of the new one's: the new stream has one client more with this id, the
  -- old one has one less, the client is told to stop, and one reply goes out, which has the request's id,
  -- the new stream's name, and the id of the client that stood right behind the one that has moved, the
  -- first of the old stream with its id, or this id where it was the last.
  pub setstream_correct :
      (laws : JsonLaws J) (request : Request) (fd : ℕ) (ctx : ControlCtx J) (n : ℤ) (name : Text)
      (i j : ℕ) (front behind : List ClientRecord) {current new : StreamRecord} {c : ClientRecord}
      → AreIdAndName n name request.parameters
      → find_client ctx.server.streams (u16_of n) ≡ some c
      → find_stream ctx.server.streams (u16_of n) ≡ some i
      → stream_find_name ctx.server.streams name ≡ some j
      → get_elem? ctx.server.streams i ≡ some current
      → get_elem? ctx.server.streams j ≡ some new
      → is_changed current new ≡ true
      → current.clients ≡ front ++ c ∷ behind
      → is_client (get_client front c.id) ≡ false
      → (ctx' : ControlCtx J) × (old' : StreamRecord) × (new' : StreamRecord) × (reply
          result : J.Json)
        × (handle_client_setstream J low_bits request fd ctx ≡ some ctx')
        × (get_elem? ctx'.server.streams i ≡ some old')
        × (get_elem? ctx'.server.streams j ≡ some new')
        × (clients_with (u16_of n) old'.clients + 1 ≡ clients_with (u16_of n) current.clients)
        × (clients_with (u16_of n) new'.clients ≡ clients_with (u16_of n) new.clients + 1)
        × (ctx'.server.sent ≡ ctx.server.sent ++ to c stop_packet ∷ [])
        × (ctx'.replies ≡ ctx.replies ++ (fd, reply) ∷ [])
        × Answers J laws reply request.id result
        × TellsStream J laws result new.name (id_behind c behind)
  unfolding handle_client_setstream set_stream_found answer_stream intercom_stop_client
  setstream_correct laws request fd ctx n name i j front behind {current = current} {new = new}
        {c = c} ps e found named ec en changed split first =
      let id = u16_of n in
      let scanned =
        scan-both ctx.server n name request.parameters id j ps (known-found ctx.server id e)
          named in
      let (srv', old', new', set, at_i, at_j, less, more, sent) =
        set_stream_correct ctx.server id i j found ec en e changed in
      let told = id_in_place current.clients c.id in
      let shown : told ≡ id_behind c behind =
        ap (λ cs. id_in_place cs c.id) split ∙ id_in_place-behind front c behind first in
      let result = stream_result J (some (new.name, told)) in
      (
        answer_stream J request fd ctx (srv', some (new.name, told)),
        old',
        new',
        jsonrpc_buildresult J J.new_object request.id result,
        result,
        rw (scanned, set) refl,
        at_i,
        at_j,
        less,
        more,
        sent,
        refl,
        buildresult-Answers J laws request.id result,
        subst (TellsStream J laws result new.name) shown (result-TellsStream J laws new.name told),
      )

  -- What makes a request fail: the client or the stream is not known.
  abbrev pub IsLost : ServerCtx → ℤ → Text → Type 0
  IsLost srv n name =
      (known_client srv (u16_of n) ≡ none) ⊎ (stream_find_name srv.streams name ≡ none)

  scan-lost :
      (srv : ServerCtx) (n : ℤ) (name : Text) (ps : List Parameter)
      → AreIdAndName n name ps
      → IsLost srv n name
      → (st : StreamScan) × (scan_stream low_bits srv (reverse ps) no_stream ≡ some st)
        × (set_stream_found srv st ≡ some (srv, none))
  unfolding scan_stream scan_stream_parameter same_prefix set_stream_found
  scan-lost srv n name ps (inr e) (inl unknown) = (no_stream, rw (e, unknown) refl, refl)
  scan-lost srv n name ps (inl e) (inr unnamed) = (no_stream, rw (e, unnamed) refl, refl)
  scan-lost srv n name ps (inl e) (inl unknown) =
      elim (Option-cases (stream_find_name srv.streams name)) [
        | inl unnamed ↦ (no_stream, rw (e, unnamed) refl, refl)
        | inr (j, named) ↦
            (record { client = none; newstream = some j }, rw (e, named, unknown) refl, refl)
      ]
  scan-lost srv n name ps (inr e) (inr unnamed) =
      elim (Option-cases (known_client srv (u16_of n))) [
        | inl unknown ↦ (no_stream, rw (e, unknown) refl, refl)
        | inr (id, known) ↦
            (record { client = some id; newstream = none }, rw (e, known, unnamed) refl, refl)
      ]

  -- A request with an id and a stream's name, in either order, of which one is not known, changes
  -- nothing on the server and is answered with an empty result.
  pub setstream_refused :
      (request : Request) (fd : ℕ) (ctx : ControlCtx J) (n : ℤ) (name : Text)
      → AreIdAndName n name request.parameters
      → IsLost ctx.server n name
      → handle_client_setstream J low_bits request fd ctx
        ≡ some (print_and_put J ctx fd (jsonrpc_buildresult J J.new_object request.id J.new_object))
  unfolding handle_client_setstream answer_stream stream_result
  setstream_refused request fd ctx n name ps lost =
      let (st, scanned, same) = scan-lost ctx.server n name request.parameters ps lost in
      rw (scanned, same) refl
