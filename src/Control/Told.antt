-- ===== src/Control/Told.antt =====
-- src/socket.c and clientmgr.c: what a client of the control socket, and a muted client, are told.
use mathlib.Core.List.{append_assoc, append-nil}
use snapcastc.Base.{
  ℕ, ◌≡◌, refl, sym, ap, ◌∙◌, inl, inr, Bool, true, false, List, [], ◌∷◌, ◌++◌, map, some,
  Bool-cases, if◌then◌else◌,
}
use snapcastc.Base.Int.{ℤ, pos}
use snapcastc.Text.{codes, same_text}
use snapcastc.Jsonrpc.{JsonC}
use snapcastc.Packet.{AudioPacket, header_bytes, server_operation, assemble_stop}
use snapcastc.Control.{jsonrpc_buildresult}
use snapcastc.Control.Described.{JsonLaws}
use snapcastc.Control.Volume.{volume_result}
use snapcastc.Control.Stream.{stream_result}
use snapcastc.Text.{Text}
use snapcastc.Server.{
  ClientRecord, StreamRecord, ServerCtx, Datagram, get_client, is_client, change_client,
  change_stream_of,
}
use snapcastc.Server.Found.{get_client-change_client, is_client-written}
use snapcastc.Server.Clients.{
  send, send_all, buffer_of, write_client, intercom_stop_client,
  clientmgr_send_audio_buffer_to_client, clientmgr_client_setmute,
}
use snapcastc.Server.Loop.Sent.{to}

module _ (J : JsonC) (laws : JsonLaws J) where
  -- A reply to the request with this id, with a result.
  abbrev pub Answers : J.Json → ℤ → J.Json → Type 0
  Answers reply id result =
      (J.object_get reply (codes "id") ≡ some (J.new_int id))
      × (J.object_get reply (codes "jsonrpc") ≡ some (J.new_string (codes "2.0")))
      × (J.object_get reply (codes "result") ≡ some result)

  -- A result that tells the volume of a client and whether it is muted.
  abbrev pub TellsVolume : J.Json → ClientRecord → Type 0
  TellsVolume result c =
      (volume : J.Json) × (J.object_get result (codes "volume") ≡ some volume)
      × (J.object_get volume (codes "muted") ≡ some (J.new_boolean c.muted))
      × (J.object_get volume (codes "percent") ≡ some (J.new_int (pos c.volume_percent)))

  -- A result that tells a client and its stream.
  abbrev pub TellsStream : J.Json → Text → ℕ → Type 0
  TellsStream result name id =
      (J.object_get result (codes "stream") ≡ some (J.new_string name))
      × (J.object_get result (codes "client") ≡ some (J.new_int (pos id)))

  pub buildresult-Answers :
      (id : ℤ) (result : J.Json) → Answers (jsonrpc_buildresult J J.new_object id result) id result
  unfolding jsonrpc_buildresult same_text
  buildresult-Answers id result =
      let with_id = J.object_add J.new_object (codes "id") (J.new_int id) in
      let version = J.new_string (codes "2.0") in
      let with_version = J.object_add with_id (codes "jsonrpc") version in
      (
        laws.get_other with_version (codes "result") (codes "id") result refl
            ∙ (laws.get_other with_id (codes "jsonrpc") (codes "id") version refl
                ∙ laws.get_same J.new_object (codes "id") (J.new_int id)),
        laws.get_other with_version (codes "result") (codes "jsonrpc") result refl
            ∙ laws.get_same with_id (codes "jsonrpc") version,
        laws.get_same with_version (codes "result") result,
      )

  pub result-TellsVolume : (c : ClientRecord) → TellsVolume (volume_result J (some c)) c
  unfolding volume_result same_text
  result-TellsVolume c =
      let muted = J.object_add J.new_object (codes "muted") (J.new_boolean c.muted) in
      let percent = J.new_int (pos c.volume_percent) in
      let volume = J.object_add muted (codes "percent") percent in
      (
        volume,
        laws.get_same J.new_object (codes "volume") volume,
        laws.get_other muted (codes "percent") (codes "muted") percent refl
            ∙ laws.get_same J.new_object (codes "muted") (J.new_boolean c.muted),
        laws.get_same muted (codes "percent") percent,
      )

  pub result-TellsStream :
      (name : Text) (id : ℕ) → TellsStream (stream_result J (some (name, id))) name id
  unfolding stream_result same_text
  result-TellsStream name id =
      let named = J.object_add J.new_object (codes "stream") (J.new_string name) in
      let number = J.new_int (pos id) in
      (
        laws.get_other named (codes "client") (codes "stream") number refl
            ∙ laws.get_same J.new_object (codes "stream") (J.new_string name),
        laws.get_same named (codes "client") number,
      )

send_all-sent :
    (srv : ServerCtx) (c : ClientRecord) (aps : List AudioPacket)
    → (send_all srv c aps).sent ≡ srv.sent ++ map (λ ap. to c ap.bytes) aps
unfolding send_all
send_all-sent srv c [] = sym (append-nil srv.sent)
send_all-sent srv c (p ∷ aps) =
    send_all-sent (send srv c p.bytes) c aps
    ∙ append_assoc srv.sent (to c p.bytes ∷ []) (map (λ ap. to c ap.bytes) aps)

-- A write to a client leaves what is kept for it.
buffer_of-changed :
    (f : ClientRecord → ClientRecord) (id : ℕ) (same : (c : ClientRecord) → (f c).id ≡ c.id)
    (ss : List StreamRecord)
    → buffer_of
        (change_stream_of (λ s. record s { clients = change_client f s.clients id }) ss id)
        id
      ≡ buffer_of ss id
unfolding buffer_of change_stream_of
buffer_of-changed f id same [] = refl
buffer_of-changed f id same (s ∷ ss) = elim (Bool-cases (is_client (get_client s.clients id))) [
  | inl e ↦
      let still : is_client (get_client (change_client f s.clients id) id) ≡ true =
        ap is_client (get_client-change_client f id same s.clients)
        ∙ (is_client-written f id same (get_client s.clients id) ∙ e) in
      rw (change_stream_of, e, buffer_of, still) refl
  | inr e ↦ rw (change_stream_of, e, buffer_of, e) (buffer_of-changed f id same ss)
]

abbrev pub stop_packet : List ℕ
stop_packet = header_bytes server_operation 0 0 ++ assemble_stop

-- A client that is to be muted is told to stop; one that was muted, and is not to be, gets the packets
-- that its stream keeps.
abbrev pub told_mute : List StreamRecord → ClientRecord → Bool → List Datagram
told_mute streams c true = to c stop_packet ∷ []
told_mute streams c false =
    if c.muted then map (λ ap. to c ap.bytes) (buffer_of streams c.id) else []

picked :
    (b : Bool) (sent new : List Datagram) (then_srv else_srv : ServerCtx)
    → then_srv.sent ≡ sent ++ new
    → else_srv.sent ≡ sent
    → (if b then then_srv else else_srv).sent ≡ sent ++ (if b then new else [])
picked true sent new then_srv else_srv h k = h
picked false sent new then_srv else_srv h k = k ∙ sym (append-nil sent)

pub setmute-sent :
    (srv : ServerCtx) (c : ClientRecord) (mute : Bool)
    → (clientmgr_client_setmute srv c mute).sent ≡ srv.sent ++ told_mute srv.streams c mute
unfolding clientmgr_client_setmute intercom_stop_client clientmgr_send_audio_buffer_to_client
    write_client
setmute-sent srv c true = refl
setmute-sent srv c false =
    let f : ClientRecord → ClientRecord = λ c. record c { muted = false } in
    let marked = write_client f srv c.id in
    picked c.muted srv.sent (map (λ ap. to c ap.bytes) (buffer_of srv.streams c.id))
      (send_all marked c (buffer_of marked.streams c.id)) marked
      (send_all-sent marked c (buffer_of marked.streams c.id)
        ∙ ap (λ aps. srv.sent ++ map (λ ap. to c ap.bytes) aps)
            (buffer_of-changed f c.id (λ c. refl) srv.streams))
      refl
