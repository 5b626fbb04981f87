-- ===== src/Server/Clients.antt =====
-- src/clientmgr.c: clients come, are refreshed, muted, and go, with the operations that
-- src/intercom_srv.c sends them.
use snapcastc.Base.{
  ◌>>=◌, ℕ, ◌-◌, ◌==◌, Bool, true, false, ◌&&◌, ◌||◌, List, [], ◌∷◌, ◌++◌, Option, none, some, ltb,
  if◌then◌else◌,
}
use snapcastc.Timespec.{Timespec}
use snapcastc.Packet.{AudioPacket, header_bytes, assemble_volume, assemble_stop, server_operation}
use snapcastc.Server.{
  ClientRecord, StreamRecord, purge_posted, purge_moved, purge_dropped, ServerCtx, get_client,
  find_client, change_client, change_stream_of, is_client, stream_client_add, stream_client_remove,
  stream_init,
}

-- `intercom_send_packet_unicast`
abbrev pub send : ServerCtx → ClientRecord → List ℕ → ServerCtx
send srv client packet = record srv {
  sent = srv.sent ++ record { ip = client.ip; port = client.port; payload = packet } ∷ [];
}

unfoldable pub intercom_set_volume : ServerCtx → ClientRecord → ℕ → ServerCtx
unfolding header_bytes assemble_volume
intercom_set_volume srv client volume =
    send srv client (header_bytes server_operation 0 0 ++ assemble_volume volume)

unfoldable pub intercom_stop_client : ServerCtx → ClientRecord → ServerCtx
unfolding header_bytes assemble_stop
intercom_stop_client srv client =
    send srv client (header_bytes server_operation 0 0 ++ assemble_stop)

-- The packets of the buffer, from the first on.
unfoldable pub send_all : ServerCtx → ClientRecord → List AudioPacket → ServerCtx
send_all srv client [] = srv
send_all srv client (ap ∷ aps) = send_all (send srv client ap.bytes) client aps

-- The packets that the stream of a client keeps.
unfoldable pub buffer_of : List StreamRecord → ℕ → List AudioPacket
unfolding get_client
buffer_of [] id = []
buffer_of (s ∷ streams) id =
    if is_client (get_client s.clients id) then s.packet_buffer else buffer_of streams id

unfoldable pub clientmgr_send_audio_buffer_to_client : ServerCtx → ClientRecord → ServerCtx
unfolding send_all buffer_of
clientmgr_send_audio_buffer_to_client srv client =
    send_all srv client (buffer_of srv.streams client.id)

-- The client in its stream is changed.
unfoldable pub write_client : (ClientRecord → ClientRecord) → ServerCtx → ℕ → ServerCtx
unfolding change_stream_of change_client
write_client f srv id = record srv {
  streams =
      change_stream_of (λ s. record s { clients = change_client f s.clients id }) srv.streams id;
}

unfoldable pub clientmgr_client_setmute : ServerCtx → ClientRecord → Bool → ServerCtx
unfolding write_client intercom_stop_client clientmgr_send_audio_buffer_to_client
clientmgr_client_setmute srv client mute =
    let marked = write_client (λ c. record c { muted = mute }) srv client.id in
    if mute
    then intercom_stop_client marked client
    else if client.muted
    then clientmgr_send_audio_buffer_to_client marked client
    else marked

-- From the last client to the first.
unfoldable pub clientmgr_stop_clients : ServerCtx → List ClientRecord → ServerCtx
unfolding intercom_stop_client
clientmgr_stop_clients srv [] = srv
clientmgr_stop_clients srv (c ∷ clients) =
    intercom_stop_client (clientmgr_stop_clients srv clients) c

-- A client that is not known is left alone.
unfoldable pub clientmgr_delete_client : ServerCtx → ℕ → ServerCtx
unfolding find_client change_stream_of stream_client_remove
clientmgr_delete_client srv id =
    if is_client (find_client srv.streams id)
    then record srv {
      streams = change_stream_of (λ s. stream_client_remove s id) srv.streams id;
      tasks = srv.tasks ++ purge_dropped id ∷ [];
    }
    else srv

unfoldable pub new_client : ℕ → ℕ → ℕ → ClientRecord
new_client id ip port = record {
  id = id;
  ip = ip;
  port = port;
  connected = false;
  lastseen = record { tv_sec = 0; tv_nsec = 0 };
  latency = 0;
  volume_percent = 0;
  muted = false;
}

unfoldable pub is_roughly : ℕ → ℕ → Bool
is_roughly a b = a == b || (ltb (a - b) 2 && ltb (b - a) 2)

-- The client is added to the first stream. `none` is a read behind the end of the streams.
unfoldable pub create_in : ServerCtx → ClientRecord → List StreamRecord → Option ServerCtx
create_in srv client [] = none
create_in srv client (s ∷ streams) =
    let ready = if s.initialized then s else stream_init s in
    let added = new_client client.id client.ip client.port in
    let grown = stream_client_add ready added in
    let listed : StreamRecord = record grown {
      clients =
          change_client (λ c. record c { volume_percent = client.volume_percent }) grown.clients
            client.id;
    } in
    some (
      clientmgr_send_audio_buffer_to_client
        (record srv {
          streams = listed ∷ streams;
          tasks = srv.tasks ++ purge_posted client.id ∷ [];
        })
        added)

unfoldable pub create_client : ServerCtx → ClientRecord → Option ServerCtx
unfolding create_in
create_client srv client = create_in srv client srv.streams

-- A client whose own volume is another than the recorded one is told the recorded one.
unfoldable pub tell_volume : ServerCtx → ℕ → Option ClientRecord → ServerCtx
unfolding is_roughly intercom_set_volume
tell_volume srv volume none = srv
tell_volume srv volume (some c) =
    if is_roughly volume c.volume_percent then srv else intercom_set_volume srv c c.volume_percent

-- What is written into the client's record at the end, and the volume that it is told.
unfoldable pub greet_client : Timespec → ServerCtx → ClientRecord → ServerCtx
unfolding write_client find_client tell_volume
greet_client ctime srv client =
    let seen =
      write_client (λ c. record c { connected = true; lastseen = ctime; latency = client.latency })
        srv client.id in
    tell_volume seen client.volume_percent (find_client seen.streams client.id)

-- A client that is not known, or known with another port: the old record goes, a new one comes.
unfoldable pub replace_client : Timespec → ServerCtx → ClientRecord → Option ServerCtx
replace_client ctime srv client = do
  new ← create_client srv client
  some (greet_client ctime new client)

unfoldable pub refresh_known :
    Timespec → ServerCtx → ClientRecord → Option ClientRecord → Option ServerCtx
refresh_known ctime srv client none = replace_client ctime srv client
refresh_known ctime srv client (some c) =
    if c.port == client.port
    then some
        (greet_client ctime (record srv { tasks = srv.tasks ++ purge_moved client.id ∷ [] }) client)
    else replace_client ctime (clientmgr_delete_client srv client.id) client

-- `client` is what a hello told. A client with another port is a new instance.
unfoldable pub clientmgr_refresh_client : Timespec → ServerCtx → ClientRecord → Option ServerCtx
clientmgr_refresh_client ctime srv client =
    refresh_known ctime srv client (find_client srv.streams client.id)
