-- ===== src/Control/Conserved.antt =====
-- src/socket.c: the bytes that are read from a connection, and the clients that the streams have.
use snapcastc.Server.Registry.{total}
use snapcastc.Base.{
  ℕ, ◌≡◌, sym, ap, ◌∙◌, inl, inr, List, [], ◌∷◌, ◌==◌, length, some, Option-cases, Bool-cases, ltb,
  some_inj, bind-eq-some,
}
use snapcastc.Base.Int.{ℤ, pos}
use snapcastc.Text.{codes, same_prefix, c_string}
use snapcastc.Jsonrpc.{JsonC, Value, Request, Parse, refused, parsed, jsonrpc_parse_string}
use snapcastc.Control.{ControlCtx}
use snapcastc.Control.Status.{System, handle_server_getstatus, handle_getrpcversion}
use snapcastc.Control.Socket.{
  SocketClient, SocketRead, again, failed, bytes, dispatch, handle_request, handle_parsed,
  handle_line, handle_bytes, handle_read, socket_handle_client, after_line, read_into, terminate,
  is_line_complete, linebuffer_size, is_negative,
}
use snapcastc.Control.Served.{serve, after_line-state}
use snapcastc.Control.Kept.{clients_of, setstream-total, setvolume-total}

module _ (J : JsonC) (sys : System) (low_bits : Value → ℤ) (m : ℕ) where
  abbrev count : ControlCtx J → ℕ
  count = clients_of J sys low_bits m

  dispatch-total :
      (request : Request) (fd : ℕ) (ctx : ControlCtx J) {ctx' : ControlCtx J}
      → dispatch J sys low_bits request fd ctx ≡ some ctx'
      → count ctx' ≡ count ctx
  unfolding dispatch handle_getrpcversion handle_server_getstatus
  dispatch-total request fd ctx h =
      elim (Bool-cases (same_prefix request.method (codes "Server.GetRPCVersion") 20)) [
        | inl v ↦ ap count (sym (some_inj (rw (dispatch, v) at h)))
        | inr v ↦ elim (Bool-cases (same_prefix request.method (codes "Client.SetStream") 16)) [
          | inl s ↦ setstream-total J sys low_bits m request fd ctx (rw (dispatch, v, s) at h)
          | inr s ↦ elim (Bool-cases (same_prefix request.method (codes "Client.SetVolume") 16)) [
            | inl w ↦ setvolume-total J sys low_bits m request fd ctx (rw (dispatch, v, s, w) at h)
            | inr w ↦ elim (Bool-cases (same_prefix request.method (codes "Server.GetStatus") 16)) [
              | inl g ↦ ap count (sym (some_inj (rw (dispatch, v, s, w, g) at h)))
              | inr g ↦ ap count (sym (some_inj (rw (dispatch, v, s, w, g) at h)))
            ]
          ]
        ]
      ]

  request-total :
      (request : Request) (fd : ℕ) (ctx : ControlCtx J) {r : ControlCtx J × ℤ}
      → handle_request J sys low_bits request fd ctx ≡ some r
      → count r.0 ≡ count ctx
  unfolding handle_request
  request-total request fd ctx h =
      let (ctx', done, last) =
        bind-eq-some (dispatch J sys low_bits request fd ctx) (λ ctx'. some (ctx', pos 1)) h in
      ap (λ r. count r.0) (sym (some_inj last)) ∙ dispatch-total request fd ctx done

  parsed-total :
      (parse : Parse) (fd : ℕ) (ctx : ControlCtx J) {r : ControlCtx J × ℤ}
      → handle_parsed J sys low_bits parse fd ctx ≡ some r
      → count r.0 ≡ count ctx
  parsed-total refused fd ctx h = ap (λ r. count r.0) (sym (some_inj h))
  parsed-total (parsed request) fd ctx h = request-total request fd ctx h

  line-total :
      (sc : SocketClient) (ctx : ControlCtx J) {r : ControlCtx J × ℤ}
      → handle_line J sys low_bits sc ctx ≡ some r
      → count r.0 ≡ count ctx
  unfolding handle_line
  line-total sc ctx h = elim (Bool-cases (length (c_string sc.line) == 0)) [
    | inl e ↦ ap (λ r. count r.0) (sym (some_inj (rw (handle_line, e) at h)))
    | inr e ↦
        let (parse, _, last) =
          bind-eq-some (jsonrpc_parse_string J (c_string sc.line))
            (λ parse. handle_parsed J sys low_bits parse sc.fd ctx) (rw (handle_line, e) at h) in
        parsed-total parse sc.fd ctx last
  ]

  bytes-total :
      (sc : SocketClient) (new : List ℕ) (ctx : ControlCtx J)
      {r : ControlCtx J × (SocketClient × ℤ)}
      → handle_bytes J sys low_bits sc new ctx ≡ some r
      → count r.0 ≡ count ctx
  unfolding handle_bytes
  bytes-total sc new ctx h = elim (Bool-cases (is_line_complete (read_into sc new))) [
    | inl full ↦
        let complete = terminate (read_into sc new) (length new) in
        let (a, handled, last) =
          bind-eq-some (handle_line J sys low_bits complete ctx)
            (λ a. some (after_line J sys low_bits complete a)) (rw (handle_bytes, full) at h) in
        ap (λ r. count r.0) (sym (some_inj last))
        ∙ (ap count (after_line-state J sys low_bits complete a) ∙ line-total complete ctx handled)
    | inr partial ↦ ap (λ r. count r.0) (sym (some_inj (rw (handle_bytes, partial) at h)))
  ]

  read-total :
      (sc : SocketClient) (reading : SocketRead) (ctx : ControlCtx J)
      {r : ControlCtx J × (SocketClient × ℤ)}
      → handle_read J sys low_bits sc reading ctx ≡ some r
      → count r.0 ≡ count ctx
  read-total sc again ctx h = ap (λ r. count r.0) (sym (some_inj h))
  read-total sc failed ctx h = ap (λ r. count r.0) (sym (some_inj h))
  read-total sc (bytes []) ctx h = ap (λ r. count r.0) (sym (some_inj h))
  read-total sc (bytes (b ∷ new)) ctx h = bytes-total sc (b ∷ new) ctx h

  client-total :
      (sc : SocketClient) (reading : SocketRead) (ctx : ControlCtx J)
      {r : ControlCtx J × (SocketClient × ℤ)}
      → socket_handle_client J sys low_bits sc reading ctx ≡ some r
      → count r.0 ≡ count ctx
  unfolding socket_handle_client
  client-total sc reading ctx h = elim (Bool-cases (ltb sc.line_offset linebuffer_size)) [
    | inl e ↦ read-total sc reading ctx (rw (socket_handle_client, e) at h)
    | inr e ↦ ap (λ r. count r.0) (sym (some_inj (rw (socket_handle_client, e) at h)))
  ]

  -- Whatever bytes arrive on a connection of the control socket, in whatever pieces, the streams have
  -- as many clients of each id after it as before.
  pub serve-total :
      (sc : SocketClient) (pieces : List (List ℕ)) (ctx : ControlCtx J)
      {r : ControlCtx J × (SocketClient × ℤ)}
      → serve J sys low_bits sc pieces ctx ≡ some r
      → total m r.0.server.streams ≡ total m ctx.server.streams
  unfolding serve
  serve-total sc [] ctx h = ap (λ r. count r.0) (sym (some_inj h))
  serve-total sc (piece ∷ pieces) ctx h =
      elim (Option-cases (socket_handle_client J sys low_bits sc (bytes piece) ctx)) [
        | inl e ↦ cc (rw (serve, e) at h)
        | inr (r, e) ↦ elim (Bool-cases (is_negative r.1.1)) [
          | inl n ↦
              ap (λ r. count r.0) (sym (some_inj (rw (serve, e, n) at h)))
              ∙ client-total sc (bytes piece) ctx e
          | inr n ↦
              serve-total r.1.0 pieces r.0 (rw (serve, e, n) at h)
              ∙ client-total sc (bytes piece) ctx e
        ]
      ]
