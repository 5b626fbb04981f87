-- ===== src/Examples/Controls.antt =====
-- src/socket.c and jsonrpc.c: a connection, and requests to a server of two streams.
use snapcastc.Base.{
  ℕ, ◌+◌, ◌≡◌, ◌↔◌, inl, inr, refl, arith, true, List, [], ◌∷◌, ◌++◌, some, length,
}
use snapcastc.Base.Int.{ℤ, pos}
use snapcastc.Text.{codes, same_prefix, same_text}
use snapcastc.Jsonrpc.{is_null, Value, Parameter, Request, parsed, jsonrpc_parse_string}
use snapcastc.Jsonrpc.Requests.{IsRequest, jsonrpc_parse_string_correct}
use snapcastc.Server.{
  ClientRecord, StreamRecord, ServerCtx, find_client, find_stream, get_client, client_cmp,
  stream_find_name,
}
use snapcastc.Intercom.{is_zero}
use snapcastc.Base.{get_elem?, replicate, ◌>>=◌}
use snapcastc.Server.Registry.{clients_with, total}
use snapcastc.Control.{ControlCtx, u16_of, u8_of}
use snapcastc.Control.Stream.{handle_client_setstream, is_changed}
use snapcastc.Control.Volume.{handle_client_setvolume}
use snapcastc.Control.Status.{json_build_serverstatus}
use snapcastc.Control.Socket.{
  is_line_complete, handle_bytes, SocketClient, accepted, bytes, socket_handle_client, read_into,
  terminate, handle_line, has_newline,
}
use snapcastc.Control.Told.{Answers, TellsVolume, TellsStream, stop_packet, told_mute}
use snapcastc.Server.Loop.Sent.{to}
use snapcastc.Packet.{header_bytes, server_operation, assemble_volume}
use snapcastc.Control.Streams.{id_behind}
use snapcastc.Control.Served.{join, serve, handle_text, serve_correct, handle_early}
use snapcastc.Control.Conserved.{serve-total}
use snapcastc.Control.Streams.{name_parameter, setstream_correct}
use snapcastc.Control.Volumes.{id_parameter, volume_parameter, setvolume_percent, setvolume_muted}
use snapcastc.Control.Refused.{setvolume_refused}
use snapcastc.Control.Described.{AreGroups, serverstatus_correct}
use snapcastc.Examples.Json.{int_node, boolean_node, json, json_laws, system, loud, silent}
use snapcastc.Examples.Servers.{server, stream, listener}

abbrev garbage : Value → ℤ
garbage v = pos 0

abbrev radio : StreamRecord
radio = record stream { clients = []; name = codes "radio" }

abbrev two_streams : ServerCtx
two_streams = record server { streams = stream ∷ radio ∷ [] }

abbrev control : ControlCtx json
control = record { server = two_streams; replies = [] }

abbrev asks : List Parameter → Request
asks ps = record { id = pos 5; method = codes "Client.SetVolume"; parameters = ps }

abbrev served : ControlCtx json × (SocketClient × ℤ)
served = (control, (record { fd = 9; line = 0 ∷ 10 ∷ replicate 1022 0; line_offset = 0 }, pos 0))

abbrev begun : ControlCtx json × (SocketClient × ℤ)
begun = (control, (record { fd = 9; line = 115 ∷ replicate 1023 0; line_offset = 1 }, pos 0))

-- A line that an earlier line has left its end in.
abbrev stale : SocketClient
stale = record { fd = 9; line = 0 ∷ 50 ∷ 10 ∷ replicate 1021 0; line_offset = 0 }

jsonrpc_parse_string_correct_example :
    (jsonrpc_parse_string json (b's' ∷ (codes "tatus\n"))
      ≡ some
          (parsed (record { id = pos 5; method = codes "Server.GetRPCVersion"; parameters = [] })))
    ↔ ((root : json.Json) × (json.tokener_parse (b's' ∷ (codes "tatus\n")) ≡ some root)
        × IsRequest json root
            (record { id = pos 5; method = codes "Server.GetRPCVersion"; parameters = [] }))
jsonrpc_parse_string_correct_example =
    jsonrpc_parse_string_correct json b's' (codes "tatus\n")
      (record { id = pos 5; method = codes "Server.GetRPCVersion"; parameters = [] })

serve_correct_example :
    (serve json system garbage
        (accepted 9)
        (((115 ∷ 116 ∷ []) ∷ (97 ∷ []) ∷ []) ++ (116 ∷ 117 ∷ 115 ∷ 10 ∷ []) ∷ [])
        control
      >>= λ r. some r.0)
    ≡ (handle_text json system garbage 9
          (join ((115 ∷ 116 ∷ []) ∷ (97 ∷ []) ∷ []) ++ (116 ∷ 117 ∷ 115 ∷ 10 ∷ []))
          control
        >>= λ r. some r.0)
unfolding has_newline
serve_correct_example =
    serve_correct json system garbage 9 ((115 ∷ 116 ∷ []) ∷ (97 ∷ []) ∷ [])
      (116 ∷ 117 ∷ 115 ∷ 10 ∷ []) control (refl, (refl, tt)) refl
      (refl, (refl, (refl, (refl, (refl, (refl, (refl, tt))))))) (omega arith)

handle_early_example :
    (socket_handle_client json system garbage stale (bytes (55 ∷ [])) control >>= λ r. some r.0) ≡ (
      handle_line json system garbage
        (terminate (read_into stale (55 ∷ [])) (length {A = ℕ} (55 ∷ [])))
        control
      >>= λ r. some r.0)
unfolding has_newline
handle_early_example =
    handle_early json system garbage stale 55 [] control
      (record { size = refl; room = omega arith }) (omega arith) refl

setstream_correct_example :
    (ctx' : ControlCtx json) × (old' : StreamRecord) × (new' : StreamRecord) × (reply
      result : json.Json)
    × (handle_client_setstream json garbage
          (asks (id_parameter (pos 7) ∷ name_parameter (codes "radio") ∷ []))
          9
          control
        ≡ some ctx')
    × (get_elem? ctx'.server.streams 0 ≡ some old')
    × (get_elem? ctx'.server.streams 1 ≡ some new')
    × (clients_with (u16_of (pos 7)) old'.clients + 1
        ≡ clients_with (u16_of (pos 7)) stream.clients)
    × (clients_with (u16_of (pos 7)) new'.clients ≡ clients_with (u16_of (pos 7)) radio.clients + 1)
    × (ctx'.server.sent ≡ control.server.sent ++ to (listener 7) stop_packet ∷ [])
    × (ctx'.replies ≡ control.replies ++ (9, reply) ∷ [])
    × Answers json json_laws reply
        (asks (id_parameter (pos 7) ∷ name_parameter (codes "radio") ∷ [])).id
        result
    × TellsStream json json_laws result radio.name (id_behind (listener 7) (listener 8 ∷ []))
unfolding u16_of find_client find_stream get_client client_cmp is_zero stream_find_name same_prefix
    is_changed
setstream_correct_example =
    setstream_correct json garbage json_laws
      (asks (id_parameter (pos 7) ∷ name_parameter (codes "radio") ∷ [])) 9 control (pos 7)
      (codes "radio") 0 1 [] (listener 8 ∷ []) (inl refl) refl refl refl refl refl refl refl refl

setvolume_percent_example :
    let c' : ClientRecord = record (listener 7) {
      volume_percent = u8_of (json.get_int (int_node (pos 30)));
    } in
    (ctx' : ControlCtx json) × (reply result : json.Json) × (handle_client_setvolume json garbage
        (asks (id_parameter (pos 7) ∷ volume_parameter (codes "loud") ∷ []))
        9
        control
      ≡ some ctx')
    × (find_client ctx'.server.streams (u16_of (pos 7)) ≡ some c')
    × (ctx'.server.sent
        ≡ control.server.sent
          ++ to
              (listener 7)
              (header_bytes server_operation 0 0 ++ assemble_volume c'.volume_percent)
            ∷ [])
    × (ctx'.replies ≡ control.replies ++ (9, reply) ∷ [])
    × Answers json json_laws reply
        (asks (id_parameter (pos 7) ∷ volume_parameter (codes "loud") ∷ [])).id
        result
    × TellsVolume json json_laws result c'
unfolding is_null u16_of find_client get_client client_cmp is_zero same_text
setvolume_percent_example =
    setvolume_percent json garbage json_laws
      (asks (id_parameter (pos 7) ∷ volume_parameter (codes "loud") ∷ [])) 9 control (pos 7)
      (codes "loud") loud (int_node (pos 30)) (inl refl) refl refl refl refl

setvolume_muted_example :
    let c' : ClientRecord = record (listener 7) { muted = json.get_boolean (boolean_node true) } in
    (ctx' : ControlCtx json) × (reply result : json.Json) × (handle_client_setvolume json garbage
        (asks (volume_parameter (codes "silent") ∷ id_parameter (pos 7) ∷ []))
        9
        control
      ≡ some ctx')
    × (find_client ctx'.server.streams (u16_of (pos 7)) ≡ some c')
    × (ctx'.server.sent
        ≡ control.server.sent
          ++ told_mute control.server.streams (listener 7) (json.get_boolean (boolean_node true)))
    × (ctx'.replies ≡ control.replies ++ (9, reply) ∷ [])
    × Answers json json_laws reply
        (asks (volume_parameter (codes "silent") ∷ id_parameter (pos 7) ∷ [])).id
        result
    × TellsVolume json json_laws result c'
unfolding is_null u16_of find_client get_client client_cmp is_zero same_text
setvolume_muted_example =
    setvolume_muted json garbage json_laws
      (asks (volume_parameter (codes "silent") ∷ id_parameter (pos 7) ∷ [])) 9 control (pos 7)
      (codes "silent") silent (boolean_node true) (inr refl) refl refl refl refl refl

setvolume_refused_example :
    (ctx' : ControlCtx json) × (handle_client_setvolume json garbage
        (asks (volume_parameter (codes "what") ∷ id_parameter (pos 7) ∷ []))
        9
        control
      ≡ some ctx')
    × (ctx'.server ≡ control.server)
    × (length ctx'.replies ≡ length control.replies + 1)
unfolding same_text
setvolume_refused_example =
    setvolume_refused json garbage
      (asks (volume_parameter (codes "what") ∷ id_parameter (pos 7) ∷ [])) 9 control (pos 7)
      (codes "what") (inr refl) (inr (inl refl))

serverstatus_correct_example :
    (server groups : json.Json) × (json.object_get
        (json_build_serverstatus json system two_streams)
        (codes "server")
      ≡ some server)
    × (json.object_get server (codes "groups") ≡ some groups)
    × AreGroups json json_laws system (json_laws.items groups) two_streams.streams
serverstatus_correct_example = serverstatus_correct json json_laws system two_streams

serve-total_example : total 7 begun.0.server.streams ≡ total 7 control.server.streams
unfolding serve socket_handle_client handle_bytes read_into is_line_complete has_newline
serve-total_example = serve-total json system garbage 7 (accepted 9) ((115 ∷ []) ∷ []) control refl
