-- ===== src/Control/Socket.antt =====
-- src/socket.c and socket.h: the connections of the control socket, from the bytes that are read to the handlers.
-- What `read` gives is an argument. The loop reads on from one call to the next, so a connection
-- keeps its line and how far it has been filled.
use snapcastc.Base.{
  ℕ, ◌+◌, ◌-◌, ◌==◌, Bool, true, false, ◌||◌, List, [], ◌∷◌, ◌++◌, Option, none, some, ltb,
  if◌then◌else◌, length, take, drop, replicate, set, ◌>>=◌,
}
use snapcastc.Base.Int.{ℤ, pos, negsuc}
use snapcastc.Text.{codes, same_prefix, c_string}
use snapcastc.Jsonrpc.{JsonC, Value, Request, Parse, refused, parsed, jsonrpc_parse_string}
use snapcastc.Control.{ControlCtx}
use snapcastc.Control.Stream.{handle_client_setstream}
use snapcastc.Control.Volume.{handle_client_setvolume}
use snapcastc.Control.Status.{System, handle_server_getstatus, handle_getrpcversion}

abbrev pub linebuffer_size : ℕ
linebuffer_size = 1024

pub record SocketClient : Type 0 where
  pub fd : ℕ
  pub line : List ℕ
  pub line_offset : ℕ

-- What one `read` gives: nothing to read now, an error, or bytes; no bytes are the end.
pub data SocketRead : Type 0 where
  again : SocketRead
  failed : SocketRead
  bytes : List ℕ → SocketRead

-- A connection that has been accepted.
abbrev pub accepted : ℕ → SocketClient
accepted fd = record { fd = fd; line = replicate linebuffer_size 0; line_offset = 0 }

pub socket_handle_in : List SocketClient → ℕ → List SocketClient
socket_handle_in clients fd = clients ++ accepted fd ∷ []

-- From the last connection to the first.
unfoldable pub socket_get_client : List SocketClient → ℕ → Option SocketClient
socket_get_client [] fd = none
socket_get_client (sc ∷ clients) fd = elim (socket_get_client clients fd) [
  | none ↦ if fd == sc.fd then some sc else none
  | some found ↦ some found
]

abbrev pub is_connection : Option SocketClient → Bool
is_connection none = false
is_connection (some sc) = true

-- The connection that `socket_get_client` finds is deleted.
unfoldable pub socket_client_remove : List SocketClient → ℕ → List SocketClient
socket_client_remove [] fd = []
socket_client_remove (sc ∷ clients) fd =
    let rest = socket_client_remove clients fd in
    if is_connection (socket_get_client clients fd)
    then sc ∷ rest
    else if fd == sc.fd
    then clients
    else sc ∷ rest

-- The bytes go into the line behind those that have been read.
unfoldable pub read_into : SocketClient → List ℕ → SocketClient
read_into sc new = record sc {
  line = take sc.line_offset sc.line ++ (new ++ drop (sc.line_offset + length new) sc.line);
}

unfoldable pub has_newline : List ℕ → Bool
has_newline [] = false
has_newline (b ∷ bs) = (b == 10 || b == 13) || has_newline bs

-- The loop looks for the end of a line from the offset on, through the whole buffer.
unfoldable pub is_line_complete : SocketClient → Bool
is_line_complete sc = has_newline (drop sc.line_offset (take (linebuffer_size - 1) sc.line))

-- The line ends behind the bytes that have been read last.
unfoldable pub terminate : SocketClient → ℕ → SocketClient
terminate sc len = record sc { line = set sc.line (sc.line_offset + len) 0 }

unfoldable pub reset_line : SocketClient → SocketClient
reset_line sc = record sc { line = set sc.line 0 0; line_offset = 0 }

abbrev pub is_negative : ℤ → Bool
is_negative (pos n) = false
is_negative (negsuc n) = true

module _ (J : JsonC) (sys : System) (low_bits : Value → ℤ) where
  -- A method that is not known is left without an answer.
  unfoldable pub dispatch : Request → ℕ → ControlCtx J → Option (ControlCtx J)
  dispatch request fd ctx =
      if same_prefix request.method (codes "Server.GetRPCVersion") 20
      then some (handle_getrpcversion J sys request fd ctx)
      else if same_prefix request.method (codes "Client.SetStream") 16
      then handle_client_setstream J low_bits request fd ctx
      else if same_prefix request.method (codes "Client.SetVolume") 16
      then handle_client_setvolume J low_bits request fd ctx
      else if same_prefix request.method (codes "Server.GetStatus") 16
      then some (handle_server_getstatus J sys request fd ctx)
      else some ctx

  unfoldable pub handle_request : Request → ℕ → ControlCtx J → Option (ControlCtx J × ℤ)
  handle_request request fd ctx = do ctx' ← dispatch request fd ctx; some (ctx', pos 1)

  -- A request that is refused gives false, which is 0.
  abbrev pub handle_parsed : Parse → ℕ → ControlCtx J → Option (ControlCtx J × ℤ)
  handle_parsed refused fd ctx = some (ctx, pos 0)
  handle_parsed (parsed request) fd ctx = handle_request request fd ctx

  unfoldable pub handle_line : SocketClient → ControlCtx J → Option (ControlCtx J × ℤ)
  handle_line sc ctx =
      if length (c_string sc.line) == 0
      then some (ctx, pos 0)
      else (do parse ← jsonrpc_parse_string J (c_string sc.line); handle_parsed parse sc.fd ctx)

  -- A negative answer leaves the line as it is.
  unfoldable pub after_line : SocketClient → ControlCtx J × ℤ → ControlCtx J × (SocketClient × ℤ)
  after_line sc r = if is_negative r.1 then (r.0, (sc, negsuc 0)) else (r.0, (reset_line sc, pos 0))

  -- At least one byte has been read.
  unfoldable pub handle_bytes :
      SocketClient → List ℕ → ControlCtx J → Option (ControlCtx J × (SocketClient × ℤ))
  handle_bytes sc new ctx =
      let filled = read_into sc new in
      let complete = terminate filled (length new) in
      if is_line_complete filled
      then (do r ← handle_line complete ctx; some (after_line complete r))
      else some (ctx, (record filled { line_offset = filled.line_offset + length new }, pos 0))

  abbrev pub handle_read :
      SocketClient → SocketRead → ControlCtx J → Option (ControlCtx J × (SocketClient × ℤ))
  handle_read sc again ctx = some (ctx, (sc, pos 0))
  handle_read sc failed ctx = some (ctx, (sc, negsuc 0))
  handle_read sc (bytes []) ctx = some (ctx, (sc, negsuc 0))
  handle_read sc (bytes (b ∷ new)) ctx = handle_bytes sc (b ∷ new) ctx

  unfoldable pub socket_handle_client :
      SocketClient → SocketRead → ControlCtx J → Option (ControlCtx J × (SocketClient × ℤ))
  socket_handle_client sc reading ctx =
      if ltb sc.line_offset linebuffer_size
      then handle_read sc reading ctx
      else some (ctx, (sc, negsuc 0))
