-- ===== src/Server.antt =====
-- src/client.h, stream.c and stream.h, clientmgr.c: the server's streams and their clients.
-- A pointer to a client is its id: `get_client` finds the first client with the id, and a write through
-- the pointer changes this one. A pointer to a stream is its index. Names and MAC addresses of clients
-- are left out. `sent` lists the datagrams with the address and the port that
-- they go to, `tasks` what has been asked of the task queue, both oldest first.
pub mod Clients
pub mod Packets
pub mod Registry
pub mod Refresh
pub mod Resend
pub mod Operations
pub mod Moves
pub mod Found
pub mod Loop
pub mod Parse
use snapcastc.Base.{
  ℕ, zero, suc, ◌+◌, ◌-◌, ◌==◌, Bool, true, false, not, ◌&&◌, ◌||◌, List, [], ◌∷◌, ◌++◌, Option,
  none, some, ltb, if◌then◌else◌, length,
}
use snapcastc.Base.Int.{ℤ, pos, negsuc}
use snapcastc.Text.{Text, same_prefix}
use snapcastc.Timespec.{Timespec}
use snapcastc.Packet.{AudioPacket, PacketHdr}
use snapcastc.Intercom.{is_zero}
use snapcastc.Inputpipe.{
  InputPipe, PipeState, idle, playing, throttle, inputpipe_hold, inputpipe_resume_read,
}

pub record ClientRecord : Type 0 where
  pub id : ℕ
  pub ip : ℕ
  pub port : ℕ
  pub connected : Bool
  pub lastseen : Timespec
  pub latency : ℕ
  pub volume_percent : ℕ
  pub muted : Bool

pub record StreamRecord : Type 0 where
  pub clients : List ClientRecord
  pub packet_buffer : List AudioPacket
  pub seqno : ℕ
  pub initialized : Bool
  pub inputpipe : InputPipe
  pub name : Text
  pub raw : Text
  pub codec : ℕ
  pub protocol : ℕ

pub record Datagram : Type 0 where
  pub ip : ℕ
  pub port : ℕ
  pub payload : List ℕ

-- What is asked of the task queue: the purge task of a client is named by the client's id, the task
-- that removes a packet, and the one that lets a pipe be read again, by the seconds and milliseconds.
pub data TaskCall : Type 0 where
  purge_posted : ℕ → TaskCall
  purge_moved : ℕ → TaskCall
  purge_dropped : ℕ → TaskCall
  removal_posted : ℕ → ℕ → TaskCall
  resume_posted : ℕ → ℕ → TaskCall

pub record ServerCtx : Type 0 where
  pub streams : List StreamRecord
  pub bufferms : ℕ
  pub recent_packets : List PacketHdr
  pub sent : List Datagram
  pub tasks : List TaskCall

unfoldable pub client_cmp : ℕ → ℕ → ℤ
client_cmp id1 id2 = if ltb id2 id1 then pos 1 else if ltb id1 id2 then negsuc 0 else pos 0

unfoldable pub get_client : List ClientRecord → ℕ → Option ClientRecord
unfolding client_cmp is_zero
get_client [] id = none
get_client (c ∷ clients) id = if is_zero (client_cmp id c.id) then some c else get_client clients id

abbrev pub is_client : Option ClientRecord → Bool
is_client none = false
is_client (some c) = true

-- The stream of a client, by its index: the first that has a client with this id. `find_client` and
-- `stream_find` search in the same way.
unfoldable pub find_stream : List StreamRecord → ℕ → Option ℕ
unfolding get_client
find_stream [] id = none
find_stream (s ∷ streams) id =
    if is_client (get_client s.clients id)
    then some 0
    else (elim (find_stream streams id) [ none ↦ none | some i ↦ some (suc i) ])

unfoldable pub find_client : List StreamRecord → ℕ → Option ClientRecord
unfolding get_client
find_client [] id = none
find_client (s ∷ streams) id =
    if is_client (get_client s.clients id) then get_client s.clients id else find_client streams id

-- A write through a pointer to a client, and to a stream.
unfoldable pub change_client :
    (ClientRecord → ClientRecord) → List ClientRecord → ℕ → List ClientRecord
unfolding client_cmp is_zero
change_client f [] id = []
change_client f (c ∷ clients) id =
    if is_zero (client_cmp id c.id) then f c ∷ clients else c ∷ change_client f clients id

-- `VECTOR_DELETE` of the client with this id.
unfoldable pub remove_client : List ClientRecord → ℕ → List ClientRecord
unfolding client_cmp is_zero
remove_client [] id = []
remove_client (c ∷ clients) id =
    if is_zero (client_cmp id c.id) then clients else c ∷ remove_client clients id

-- The stream of a client is changed.
unfoldable pub change_stream_of :
    (StreamRecord → StreamRecord) → List StreamRecord → ℕ → List StreamRecord
unfolding get_client
change_stream_of f [] id = []
change_stream_of f (s ∷ streams) id =
    if is_client (get_client s.clients id) then f s ∷ streams else s ∷ change_stream_of f streams id

abbrev pub is_idle : PipeState → Bool
is_idle idle = true
is_idle playing = false
is_idle throttle = false

-- The first client of a stream whose pipe is idle lets the pipe be read again.
unfoldable pub stream_client_add : StreamRecord → ClientRecord → StreamRecord
unfolding inputpipe_resume_read
stream_client_add s c =
    let clients = s.clients ++ c ∷ [] in
    let free : InputPipe = record s.inputpipe { resume_task = false } in
    if length clients == 1 && is_idle s.inputpipe.state
    then record s { clients = clients; inputpipe = inputpipe_resume_read (length clients) free }
    else record s { clients = clients }

-- When the last client is gone, the pipe is not read any more.
unfoldable pub stream_client_remove : StreamRecord → ℕ → StreamRecord
unfolding remove_client inputpipe_hold
stream_client_remove s id =
    let clients = remove_client s.clients id in
    if length clients == 0
    then record s { clients = clients; inputpipe = inputpipe_hold s.inputpipe }
    else record s { clients = clients }

unfoldable pub stream_init : StreamRecord → StreamRecord
stream_init s = record s { clients = []; packet_buffer = []; seqno = 0; initialized = true }

-- `for (int i = len - 1; i >= 0; --i)`: the last stream with this file descriptor.
pub stream_find_fd : List (ℕ × StreamRecord) → ℕ → Option StreamRecord
stream_find_fd [] fd = none
stream_find_fd ((fd', s) ∷ streams) fd = elim (stream_find_fd streams fd) [
  | none ↦ if fd == fd' then some s else none
  | some s' ↦ some s'
]

-- The last stream whose name the wanted name begins with.
unfoldable pub stream_find_name : List StreamRecord → Text → Option ℕ
stream_find_name [] name = none
stream_find_name (s ∷ streams) name = elim (stream_find_name streams name) [
  | none ↦ if same_prefix s.name name (length s.name) then some 0 else none
  | some i ↦ some (suc i)
]

-- A write through a pointer to a stream.
unfoldable pub change_stream_at :
    (StreamRecord → StreamRecord) → List StreamRecord → ℕ → List StreamRecord
change_stream_at f [] i = []
change_stream_at f (s ∷ streams) zero = f s ∷ streams
change_stream_at f (s ∷ streams) (suc i) = s ∷ change_stream_at f streams i
