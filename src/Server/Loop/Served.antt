-- ===== src/Server/Loop/Served.antt =====
-- src/server.c, stream.c and inputpipe.c: a stream that has clients is read, now or when a task runs.
use snapcastc.Server.Loop.Fed.{IsFed}
use snapcastc.Base.{Bool, length}
use snapcastc.Timespec.{Timespec}
use snapcastc.Server.{StreamRecord}
use snapcastc.Server.Loop.Reach.{Reach}

-- The state of a stream that reaches its clients.
abbrev pub Fed : StreamRecord → Bool → Type 0
Fed s pending = IsFed s.inputpipe.state s.inputpipe.watched pending (length s.clients)
