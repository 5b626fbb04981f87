-- ===== src/Control/Stream.antt =====
-- src/socket.c: `handle_client_setstream`.
-- Pointers to a client and to a stream are the client's id and the stream's index.
use snapcastc.Base.{
  ℕ, ◌==◌, Bool, true, false, not, List, [], ◌∷◌, Option, none, some, if◌then◌else◌, length,
  get_elem?, ◌>>=◌,
}
use snapcastc.Base.Int.{ℤ, pos}
use mathlib.Core.List.{reverse}
use snapcastc.Text.{Text, codes, same_prefix}
use snapcastc.Jsonrpc.{JsonC, Value, Parameter, Request}
use snapcastc.Server.{
  ClientRecord, StreamRecord, ServerCtx, find_client, find_stream, stream_find_name,
  change_stream_at, stream_client_add, stream_client_remove,
}
use snapcastc.Server.Clients.{intercom_stop_client}
use snapcastc.Control.{
  ControlCtx, number_of, text_of, u16_of, known_client, jsonrpc_buildresult, print_and_put,
}

-- The loop's variables.
pub record StreamScan : Type 0 where
  pub client : Option ℕ
  pub newstream : Option ℕ

abbrev pub no_stream : StreamScan
no_stream = record { client = none; newstream = none }

abbrev pub is_set {ℓ} : {A : Type ℓ} → Option A → Bool
is_set none = false
is_set (some a) = true

-- One round of the loop, and whether it goes on. `none` is a read through a wild pointer.
unfoldable pub scan_stream_parameter :
    (Value → ℤ) → ServerCtx → Parameter → StreamScan → Option (StreamScan × Bool)
scan_stream_parameter low_bits srv p st =
    if same_prefix p.name (codes "id") 2
    then (let client = known_client srv (u16_of (number_of low_bits p.value)) in
        some (record st { client = client }, is_set client))
    else if same_prefix p.name (codes "stream_id") 9
    then (do
      name ← text_of p.value
      let newstream = stream_find_name srv.streams name
      some (record st { newstream = newstream }, is_set newstream))
    else some (st, true)

unfoldable pub scan_stream :
    (Value → ℤ) → ServerCtx → List Parameter → StreamScan → Option StreamScan
scan_stream low_bits srv [] st = some st
scan_stream low_bits srv (p ∷ ps) st = scan_stream_parameter low_bits srv p st >>= λ r. elim r.1 [
  | true ↦ scan_stream low_bits srv ps r.0
  | false ↦ some r.0
]

-- What `client->id` reads once the client has been deleted from the vector: the client behind it
-- has moved to its place, and the last one's memory is as it was.
unfoldable pub id_in_place : List ClientRecord → ℕ → ℕ
id_in_place [] id = id
id_in_place (c ∷ []) id = id
id_in_place (c ∷ d ∷ clients) id = if c.id == id then d.id else id_in_place (d ∷ clients) id

-- The move of a client from the stream `i` to the stream `j`.
unfoldable pub move_client : ServerCtx → ClientRecord → ℕ → ℕ → ServerCtx
move_client srv client i j =
    let stopped = intercom_stop_client srv client in
    record stopped {
      streams =
          change_stream_at (λ s. stream_client_remove s client.id)
            (change_stream_at (λ s. stream_client_add s client) stopped.streams j) i;
    }

-- `!!strncmp(current->name, new->name, strlen(current->name))`
unfoldable pub is_changed : StreamRecord → StreamRecord → Bool
is_changed current new = not (same_prefix current.name new.name (length current.name))

-- The new state, and the `stream` and `client` of the reply.
unfoldable pub place_client :
    ServerCtx → ClientRecord → ℕ → ℕ → StreamRecord → StreamRecord → ServerCtx × (Text × ℕ)
place_client srv client i j current new =
    if is_changed current new
    then (move_client srv client i j, (new.name, id_in_place current.clients client.id))
    else (srv, (new.name, client.id))

-- The client is looked up in all streams, its own stream by its id. `none` is a read through the NULL pointer.
unfoldable pub set_stream : ServerCtx → ℕ → ℕ → Option (ServerCtx × (Text × ℕ))
set_stream srv id j = do
  i ← find_stream srv.streams id
  current ← get_elem? srv.streams i
  new ← get_elem? srv.streams j
  client ← find_client srv.streams id
  some (place_client srv client i j current new)

unfoldable pub set_stream_found : ServerCtx → StreamScan → Option (ServerCtx × Option (Text × ℕ))
set_stream_found srv st = elim st.client [
  | none ↦ some (srv, none)
  | some id ↦ elim st.newstream [
    | none ↦ some (srv, none)
    | some j ↦ set_stream srv id j >>= λ r. some (r.0, some r.1)
  ]
]

module _ (J : JsonC) where
  unfoldable pub stream_result : Option (Text × ℕ) → J.Json
  stream_result none = J.new_object
  stream_result (some (name, id)) =
      J.object_add (J.object_add J.new_object (codes "stream") (J.new_string name)) (codes "client")
        (J.new_int (pos id))

  unfoldable pub answer_stream :
      Request → ℕ → ControlCtx J → ServerCtx × Option (Text × ℕ) → ControlCtx J
  answer_stream request fd ctx r =
      print_and_put J (record ctx { server = r.0 }) fd
        (jsonrpc_buildresult J J.new_object request.id (stream_result r.1))

  -- The loop goes from the last parameter to the first.
  unfoldable pub handle_client_setstream :
      (Value → ℤ) → Request → ℕ → ControlCtx J → Option (ControlCtx J)
  handle_client_setstream low_bits request fd ctx = do
    st ← scan_stream low_bits ctx.server (reverse request.parameters) no_stream
    r ← set_stream_found ctx.server st
    some (answer_stream request fd ctx r)
