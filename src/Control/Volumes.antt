-- ===== src/Control/Volumes.antt =====
-- src/socket.c: `handle_client_setvolume` on requests with a client and a volume.
use snapcastc.Control.Volume.{
  read_percent, read_mute, scan_percent, Round, goes_on, breaks, scan_volume, setmute, apply_volume,
  apply_percent, apply_mute, refreshvolume, handle_client_setvolume, answer_volume, finish_volume,
  volume_result, VolumeScan, no_volume, scan_object, scan_volume_parameter,
}
use snapcastc.Jsonrpc.{
  is_null, Request, JsonC, json_int, json_object, Value, number, json_text, Parameter,
}
use snapcastc.Base.{
  subst, sym, false, ◌∷◌, inl, inr, Bool, ap, ◌∙◌, ◌++◌, ℕ, ◌≡◌, ◌⊎◌, refl, List, [], none, some,
}
use snapcastc.Control.Told.{
  Answers, TellsVolume, buildresult-Answers, result-TellsVolume, told_mute, setmute-sent,
}
use snapcastc.Control.Described.{JsonLaws}
use snapcastc.Server.Loop.Sent.{to}
use snapcastc.Packet.{header_bytes, server_operation, assemble_volume}
use snapcastc.Control.Kept.{setmute_streams}
use snapcastc.Server.Moves.{find_client-id}
use snapcastc.Server.Clients.{clientmgr_client_setmute, intercom_set_volume, write_client}
use snapcastc.Control.{ControlCtx, jsonrpc_buildresult, u8_of, known_client, u16_of}
use snapcastc.Server.{ClientRecord, find_client, ServerCtx}
use snapcastc.Server.Found.{written, find_client-write_client}
use snapcastc.Base.Int.{ℤ}
use mathlib.Core.List.{reverse}
use snapcastc.Text.{Text, codes, same_prefix}

-- The parameters of the protocol: `id` and `volume`, which is an object.
abbrev pub id_parameter : ℤ → Parameter
id_parameter n = record { type = json_int; name = codes "id"; value = number n }

abbrev pub volume_parameter : Text → Parameter
volume_parameter text = record { type = json_object; name = codes "volume"; value = json_text text }

-- The two of them, in either order.
abbrev pub AreIdAndVolume : ℤ → Text → List Parameter → Type 0
AreIdAndVolume n text ps =
    (ps ≡ id_parameter n ∷ volume_parameter text ∷ [])
    ⊎ (ps ≡ volume_parameter text ∷ id_parameter n ∷ [])

pub known-found :
    (srv : ServerCtx) (id : ℕ) {c : ClientRecord}
    → find_client srv.streams id ≡ some c
    → known_client srv id ≡ some id
unfolding known_client
known-found srv id e = rw e refl

module _ (J : JsonC) (low_bits : Value → ℤ) where
  -- What the scan of the two finds, if the client is known and the object has a member to go by.
  scan-known :
      (srv : ServerCtx) (n : ℤ) (text : Text) (ps : List Parameter) (root : J.Json) (id : ℕ)
      (found : VolumeScan)
      → AreIdAndVolume n text ps
      → J.tokener_parse text ≡ some root
      → known_client srv (u16_of n) ≡ some id
      → ((st : VolumeScan)
          → st.percent ≡ none
          → st.mute ≡ none
          → scan_object J root st ≡ some (goes_on (record found { client = st.client })))
      → scan_volume J low_bits srv (reverse ps) no_volume
        ≡ some (breaks (record found { client = some id }))
  unfolding scan_volume scan_volume_parameter same_prefix
  scan-known srv n text ps root id found (inl e) parse known object =
      rw (e, parse, object no_volume refl refl, known) refl
  scan-known srv n text ps root id found (inr e) parse known object =
      rw (e, known, parse, object (record no_volume { client = some id }) refl refl) refl

  pub scan_object-quiet :
      (root p : J.Json) (st : VolumeScan)
      → J.object_get root (codes "percent") ≡ some p
      → st.mute ≡ none
      → scan_object J root st
        ≡ some (goes_on (record { client = st.client; percent = read_percent J p; mute = none }))
  unfolding scan_object scan_percent
  scan_object-quiet root p st e quiet =
      let at : VolumeScan → Type 0 = λ st'.
        scan_object J root st'
        ≡ some
            (goes_on (record { client = st'.client; percent = read_percent J p; mute = none })) in
      let same : record { client = st.client; percent = st.percent; mute = none } ≡ st =
        λ i. record { client = st.client; percent = st.percent; mute = sym quiet i } in
      subst at same (rw (scan_object, e) refl)

  scan_object-percent :
      (root p : J.Json) (st : VolumeScan)
      → J.object_get root (codes "percent") ≡ some p
      → is_null (J.get_type p) ≡ false
      → st.mute ≡ none
      → scan_object J root st
        ≡ some (goes_on (record { client = st.client; percent = some (J.get_int p); mute = none }))
  unfolding read_percent
  scan_object-percent root p st e real m =
      let read : read_percent J p ≡ some (J.get_int p) = rw (read_percent, real) refl in
      scan_object-quiet root p st e m
      ∙ ap (λ v. some (goes_on (record { client = st.client; percent = v; mute = none }))) read

  apply-percent :
      (srv : ServerCtx) (id : ℕ) (v : ℤ) {c : ClientRecord}
      → find_client srv.streams id ≡ some c
      → let srv' = apply_volume srv (record { client = some id; percent = some v; mute = none }) in
        (find_client srv'.streams id ≡ some (record c { volume_percent = u8_of v }))
        × (srv'.sent
            ≡ srv.sent
              ++ to c (header_bytes server_operation 0 0 ++ assemble_volume (u8_of v)) ∷ [])
  unfolding apply_volume apply_percent apply_mute refreshvolume write_client intercom_set_volume
  apply-percent srv id v {c = c} e =
      let f : ClientRecord → ClientRecord = λ c. record c { volume_percent = u8_of v } in
      let told = intercom_set_volume srv c (u8_of v) in
      rw e (find_client-write_client f id (λ c. refl) told ∙ ap (written f) e, refl)

  -- What the handler's answer leads to, once its round and the client's new record are known.
  answered :
      (laws : JsonLaws J) (request : Request) (fd : ℕ) (ctx : ControlCtx J) (c : ClientRecord)
      (round : Round)
      → (finish_volume J ctx.server round).1 ≡ some c
      → (reply result : J.Json) × ((answer_volume J request fd ctx round).replies
          ≡ ctx.replies ++ (fd, reply) ∷ [])
        × Answers J laws reply request.id result
        × TellsVolume J laws result c
  unfolding answer_volume
  answered laws request fd ctx c round found = (
    jsonrpc_buildresult J J.new_object request.id (volume_result J (some c)),
    volume_result J (some c),
    ap
        (λ o.
          ctx.replies
          ++ (fd, jsonrpc_buildresult J J.new_object request.id (volume_result J o)) ∷ [])
        found,
    buildresult-Answers J laws request.id (volume_result J (some c)),
    result-TellsVolume J laws c,
  )

  -- A request with an id and a volume object, in either order, where the client is known and the
  -- object has a percentage that is not null: the client's record takes the percentage, as 8 bits, and
  -- keeps whether it is muted, whatever the object says of this; the client is told its volume, and one
  -- reply goes out, which has the request's id and the record's new values.
  pub setvolume_percent :
      (laws : JsonLaws J) (request : Request) (fd : ℕ) (ctx : ControlCtx J) (n : ℤ) (text : Text)
      (root p : J.Json) {c : ClientRecord}
      → AreIdAndVolume n text request.parameters
      → J.tokener_parse text ≡ some root
      → J.object_get root (codes "percent") ≡ some p
      → is_null (J.get_type p) ≡ false
      → find_client ctx.server.streams (u16_of n) ≡ some c
      → let c' : ClientRecord = record c { volume_percent = u8_of (J.get_int p) } in
        (ctx' : ControlCtx J) × (reply result : J.Json) × (handle_client_setvolume J low_bits
            request fd ctx
          ≡ some ctx')
        × (find_client ctx'.server.streams (u16_of n) ≡ some c')
        × (ctx'.server.sent
            ≡ ctx.server.sent
              ++ to c (header_bytes server_operation 0 0 ++ assemble_volume c'.volume_percent) ∷ [])
        × (ctx'.replies ≡ ctx.replies ++ (fd, reply) ∷ [])
        × Answers J laws reply request.id result
        × TellsVolume J laws result c'
  unfolding handle_client_setvolume answer_volume finish_volume
  setvolume_percent laws request fd ctx n text root p {c = c} ps parse percent real e =
      let id = u16_of n in
      let st : VolumeScan = record {
        client = some id;
        percent = some (J.get_int p);
        mute = none;
      } in
      let scanned =
        scan-known ctx.server n text request.parameters root id st ps parse
          (known-found ctx.server id e)
          (λ st' _ m. scan_object-percent root p st' percent real m) in
      let done = apply-percent ctx.server id (J.get_int p) e in
      let c' : ClientRecord = record c { volume_percent = u8_of (J.get_int p) } in
      let (reply, result, sent, answers, tells) =
        answered laws request fd ctx c' (breaks st) done.0 in
      (
        answer_volume J request fd ctx (breaks st),
        reply,
        result,
        rw scanned refl,
        done.0,
        done.1,
        sent,
        answers,
        tells,
      )

  scan_object-muted :
      (root b : J.Json) (st : VolumeScan)
      → J.object_get root (codes "percent") ≡ none
      → J.object_get root (codes "muted") ≡ some b
      → is_null (J.get_type b) ≡ false
      → scan_object J root st
        ≡ some
            (goes_on (record { client = st.client; percent = none; mute = some (J.get_boolean b) }))
  unfolding scan_object read_mute
  scan_object-muted root b st e m real = rw (scan_object, e, m, real) refl

  apply-mute :
      (srv : ServerCtx) (id : ℕ) (mute : Bool) {c : ClientRecord}
      → find_client srv.streams id ≡ some c
      → let srv' =
          apply_volume srv (record { client = some id; percent = none; mute = some mute }) in
        (find_client srv'.streams id ≡ some (record c { muted = mute }))
        × (srv'.sent ≡ srv.sent ++ told_mute srv.streams c mute)
  unfolding apply_volume apply_percent apply_mute setmute write_client
  apply-mute srv id mute {c = c} e =
      let f : ClientRecord → ClientRecord = λ c. record c { muted = mute } in
      let muted = clientmgr_client_setmute srv c mute in
      let there : find_client muted.streams id ≡ some (f c) =
        ap (λ ss. find_client ss id) (setmute_streams srv c mute)
        ∙ (ap (λ k. find_client (write_client f srv k).streams id) (find_client-id srv.streams id e)
            ∙ (find_client-write_client f id (λ c. refl) srv ∙ ap (written f) e)) in
      rw e (
        find_client-write_client f id (λ c. refl) muted ∙ ap (written f) there,
        setmute-sent srv c mute,
      )

  -- A request with an id and a volume object, in either order, where the client is known and the
  -- object has no percentage, but a member `muted` that is not null: the client's record takes this and
  -- keeps its volume; a client that is to be muted is told to stop, another one gets the packets that
  -- its stream keeps if it was muted before, and nothing else goes out to clients; one reply goes out,
  -- which has the request's id and the record's new values.
  pub setvolume_muted :
      (laws : JsonLaws J) (request : Request) (fd : ℕ) (ctx : ControlCtx J) (n : ℤ) (text : Text)
      (root b : J.Json) {c : ClientRecord}
      → AreIdAndVolume n text request.parameters
      → J.tokener_parse text ≡ some root
      → J.object_get root (codes "percent") ≡ none
      → J.object_get root (codes "muted") ≡ some b
      → is_null (J.get_type b) ≡ false
      → find_client ctx.server.streams (u16_of n) ≡ some c
      → let c' : ClientRecord = record c { muted = J.get_boolean b } in
        (ctx' : ControlCtx J) × (reply result : J.Json) × (handle_client_setvolume J low_bits
            request fd ctx
          ≡ some ctx')
        × (find_client ctx'.server.streams (u16_of n) ≡ some c')
        × (ctx'.server.sent ≡ ctx.server.sent ++ told_mute ctx.server.streams c (J.get_boolean b))
        × (ctx'.replies ≡ ctx.replies ++ (fd, reply) ∷ [])
        × Answers J laws reply request.id result
        × TellsVolume J laws result c'
  unfolding handle_client_setvolume answer_volume finish_volume
  setvolume_muted laws request fd ctx n text root b {c = c} ps parse percent muted real e =
      let id = u16_of n in
      let st : VolumeScan = record {
        client = some id;
        percent = none;
        mute = some (J.get_boolean b);
      } in
      let scanned =
        scan-known ctx.server n text request.parameters root id st ps parse
          (known-found ctx.server id e)
          (λ st' _ _. scan_object-muted root b st' percent muted real) in
      let done = apply-mute ctx.server id (J.get_boolean b) e in
      let c' : ClientRecord = record c { muted = J.get_boolean b } in
      let (reply, result, sent, answers, tells) =
        answered laws request fd ctx c' (breaks st) done.0 in
      (
        answer_volume J request fd ctx (breaks st),
        reply,
        result,
        rw scanned refl,
        done.0,
        done.1,
        sent,
        answers,
        tells,
      )
