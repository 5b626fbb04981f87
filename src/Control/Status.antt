-- ===== src/Control/Status.antt =====
-- src/socket.c and util.c: the status of the server as a JSON object.
-- An object that is filled after it has been added to another is filled before here. What the system tells of clients and
-- of the host is a parameter.
use snapcastc.Base.{take, ℕ, ◌*◌, ◌/◌, ◌==◌, Bool, false, List, [], ◌∷◌, ◌++◌, if◌then◌else◌}
use snapcastc.Base.Int.{pos}
use snapcastc.Packet.{packet_format_version}
use snapcastc.Client.Audio.{int_of}
use snapcastc.Text.{Text, codes}
use snapcastc.Timespec.{Timespec}
use snapcastc.Inputpipe.{PipeState, idle, playing, throttle}
use snapcastc.Server.{ClientRecord, StreamRecord, ServerCtx}
use snapcastc.Jsonrpc.{JsonC, Request}
use snapcastc.Control.{ControlCtx, jsonrpc_buildresult, print_and_put}

-- `print_ip`, `print_mac`, the name of a client's host and the protocol it speaks; `gethostname`; the
-- versions that the build sets; a decimal number as `printf` writes it.
pub record System : Type 0 where
  pub print_ip : ℕ → Text
  pub print_mac : ClientRecord → Text
  pub name : ClientRecord → Text
  pub protoversion : ClientRecord → ℕ
  pub hostname : Text
  pub source_version : Text
  pub major : Text
  pub minor : Text
  pub patch : Text
  pub decimal : ℕ → Text

pub print_codec : ℕ → Text
print_codec codec =
    if codec == 1 then codes "pcm" else if codec == 2 then codes "opus" else codes "unknown"

pub print_stream_protocol : ℕ → Text
print_stream_protocol protocol = if protocol == 1 then codes "pipe" else codes "unknown"

pub print_inputpipe_status : PipeState → Text
print_inputpipe_status idle = codes "idle"
print_inputpipe_status playing = codes "playing"
print_inputpipe_status throttle = codes "throttle"

pub group_get_muted : StreamRecord → Bool
group_get_muted s = false

pub group_get_id : StreamRecord → Text
group_get_id s = codes "2427bc26-e219-8d33-901c-20493f46eb42"

unfoldable pub group_get_name : StreamRecord → Text
group_get_name s = s.name

pub group_get_stream_id : StreamRecord → Text
unfolding group_get_name
group_get_stream_id s = group_get_name s

module _ (J : JsonC) (sys : System) where
  -- An object with these members, in this order.
  unfoldable pub object_of : List (Text × J.Json) → J.Json → J.Json
  object_of [] obj = obj
  object_of ((key, val) ∷ members) obj = object_of members (J.object_add obj key val)

  unfoldable pub json_build_host : Text → Text → Text → Text → Text → J.Json
  json_build_host arch ip mac name os =
      object_of
        ((codes "arch", J.new_string arch)
          ∷ (codes "ip", J.new_string ip)
          ∷ (codes "mac", J.new_string mac)
          ∷ (codes "name", J.new_string name)
          ∷ (codes "os", J.new_string os)
          ∷ [])
        J.new_object

  unfoldable pub json_add_time : Timespec → J.Json
  json_add_time t =
      object_of
        ((codes "sec", J.new_int (int_of t.tv_sec))
          ∷ (codes "usec", J.new_int (int_of (t.tv_nsec / 1000)))
          ∷ [])
        J.new_object

  unfoldable pub json_volume : ClientRecord → J.Json
  json_volume c =
      object_of
        ((codes "muted", J.new_boolean c.muted)
          ∷ (codes "percent", J.new_int (pos c.volume_percent))
          ∷ [])
        J.new_object

  unfoldable pub json_client_config : ClientRecord → J.Json
  json_client_config c =
      object_of
        ((codes "instance", J.new_int (pos 1))
          ∷ (codes "latency", J.new_int (int_of c.latency))
          ∷ (codes "name", J.new_string [])
          ∷ (codes "volume", json_volume c)
          ∷ [])
        J.new_object

  unfoldable pub json_snapclient : ClientRecord → J.Json
  json_snapclient c =
      object_of
        ((codes "name", J.new_string (codes "Snapclient"))
          ∷ (codes "protocolVersion", J.new_int (pos (sys.protoversion c)))
          ∷ (codes "version", J.new_string (codes "unknown"))
          ∷ [])
        J.new_object

  -- One round of the loop over the clients.
  unfoldable pub json_client : ClientRecord → J.Json
  json_client c =
      object_of
        ((codes "config", json_client_config c)
          ∷ (codes "connected", J.new_boolean c.connected)
          ∷ (
            codes "host",
            json_build_host (codes "unknown") (sys.print_ip c.ip) (sys.print_mac c) (sys.name c)
                (codes "unknown"),
          )
          ∷ (codes "id", J.new_int (pos c.id))
          ∷ (codes "lastSeen", json_add_time c.lastseen)
          ∷ (codes "snapclient", json_snapclient c)
          ∷ [])
        J.new_object

  -- From the last client to the first.
  unfoldable pub json_clients : List ClientRecord → J.Json
  json_clients [] = J.new_array
  json_clients (c ∷ clients) = J.array_add (json_clients clients) (json_client c)

  unfoldable pub json_add_group : StreamRecord → J.Json
  json_add_group s =
      object_of
        ((codes "clients", json_clients s.clients)
          ∷ (codes "id", J.new_string (group_get_id s))
          ∷ (codes "muted", J.new_boolean (group_get_muted s))
          ∷ (codes "name", J.new_string (group_get_name s))
          ∷ (codes "stream_id", J.new_string (group_get_stream_id s))
          ∷ [])
        J.new_object

  -- From the first stream to the last, added to `groups`.
  unfoldable pub json_groups : J.Json → List StreamRecord → J.Json
  json_groups groups [] = groups
  json_groups groups (s ∷ streams) = json_groups (J.array_add groups (json_add_group s)) streams

  -- `%zd:%d:%d` into 20 bytes
  unfoldable pub streamformat : StreamRecord → Text
  streamformat s = take 19 (
      sys.decimal s.inputpipe.samples
      ++ (codes ":"
          ++ (sys.decimal (s.inputpipe.samplesize * 8)
              ++ (codes ":" ++ sys.decimal s.inputpipe.channels))))

  unfoldable pub json_query : StreamRecord → J.Json
  json_query s =
      object_of
        ((codes "buffer_ms", J.new_int (int_of s.inputpipe.read_ms))
          ∷ (codes "codec", J.new_string (print_codec s.codec))
          ∷ (codes "name", J.new_string s.name)
          ∷ (codes "sampleformat", J.new_string (streamformat s))
          ∷ [])
        J.new_object

  unfoldable pub json_stream : StreamRecord → J.Json
  json_stream s =
      object_of
        ((codes "id", J.new_string s.name)
          ∷ (codes "meta", object_of ((codes "STREAM", J.new_string s.name) ∷ []) J.new_object)
          ∷ (codes "status", J.new_string (print_inputpipe_status s.inputpipe.state))
          ∷ (
            codes "uri",
            object_of
                ((codes "fragment", J.new_string [])
                  ∷ (codes "host", J.new_string [])
                  ∷ (codes "path", J.new_string s.inputpipe.fname)
                  ∷ (codes "query", json_query s)
                  ∷ (codes "raw", J.new_string s.raw)
                  ∷ (codes "scheme", J.new_string (print_stream_protocol s.protocol))
                  ∷ [])
                J.new_object,
          )
          ∷ [])
        J.new_object

  -- From the last stream to the first.
  unfoldable pub json_build_serverstatus_streams : List StreamRecord → J.Json
  json_build_serverstatus_streams [] = J.new_array
  json_build_serverstatus_streams (s ∷ streams) =
      J.array_add (json_build_serverstatus_streams streams) (json_stream s)

  unfoldable pub json_build_serverstatus_server : J.Json
  json_build_serverstatus_server =
      object_of
        ((codes "host", json_build_host (codes "unknown_arch") [] [] sys.hostname (codes "Linux"))
          ∷ (
            codes "snapserver",
            object_of
                ((codes "controlProtocolVersion", J.new_int (pos 1))
                  ∷ (codes "name", J.new_string (codes "Snapserver"))
                  ∷ (codes "protocolVersion", J.new_int (pos packet_format_version))
                  ∷ (codes "version", J.new_string sys.source_version)
                  ∷ [])
                J.new_object,
          )
          ∷ [])
        J.new_object

  unfoldable pub json_build_serverstatus : ServerCtx → J.Json
  json_build_serverstatus srv =
      object_of
        ((
          codes "server",
          object_of
              ((codes "groups", json_groups J.new_array srv.streams)
                ∷ (codes "server", json_build_serverstatus_server)
                ∷ (codes "streams", json_build_serverstatus_streams srv.streams)
                ∷ [])
              J.new_object,
        )
          ∷ [])
        J.new_object

  unfoldable pub handle_server_getstatus : Request → ℕ → ControlCtx J → ControlCtx J
  handle_server_getstatus request fd ctx =
      print_and_put J ctx fd
        (jsonrpc_buildresult J J.new_object request.id (json_build_serverstatus ctx.server))

  unfoldable pub handle_getrpcversion : Request → ℕ → ControlCtx J → ControlCtx J
  handle_getrpcversion request fd ctx = print_and_put J ctx fd (
      jsonrpc_buildresult J J.new_object request.id (
        object_of
          ((codes "major", J.new_string sys.major)
            ∷ (codes "minor", J.new_string sys.minor)
            ∷ (codes "patch", J.new_string sys.patch)
            ∷ [])
          J.new_object))
