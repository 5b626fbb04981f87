-- ===== src/Lib.antt =====
-- snapcastc: synchronous audio playback on many clients.
--
-- The server reads audio from pipes, cuts it into chunks that say when they are to be played, and
-- sends each chunk as a numbered packet to its clients. A client keeps the chunks in a priority
-- queue by their time, asks again for packets that it misses, and hands the chunks to the sound
-- card. Both sides schedule their work in a queue of timed tasks.
--
-- Timespec   src/timespec.c: points in time, their sum, difference and order (timeAdd is time_add).
-- Vector     src/vector.c, vector.h: the growing arrays; an operation returns the new vector.
-- Pqueue     src/pqueue.c: the bounded priority queue, an array heap under a comparator.
-- Taskqueue  src/taskqueue.c: a pairing heap of tasks, the timer, and the loop that runs what is due.
-- Pcmchunk   src/pcmchunk.c, and the decoding in src/opuscodec.c: chunks of audio.
-- Packet     src/intercom_common.h and the packet routines of src/intercom.c, intercom_srv.c and
--            intercom_client.c: packets as bytes.
-- Intercom   src/intercom.c: packets seen recently, and searches by packet number.
-- Player     src/alsaplayer.c: the state of the sound output, and its volume.
-- Client     src/intercom_client.c: the client's state (Client), the handling of audio packets
--            (Client/Audio), the dispatch of packets and the operations of the server (Client/Receive),
--            and getchunk and alsaplayer_handle of src/alsaplayer.c (Client/Playing);
--            the other modules of Client prove what these do.
-- Inputpipe  src/inputpipe.c: the pipe of a stream, as a state machine (inputpipe_handle is one call).
-- Server     src/stream.c and client.h (Server), src/clientmgr.c (Server/Clients) and src/intercom_srv.c
--            (Server/Packets): streams, their clients, what is sent to them and kept for them;
--            src/server.c and src/opuscodec.c (Server/Loop): a pipe that can be read, up to the packets
--            that go out, and as a step relation what can happen to it (Server/Loop/Reach);
--            stream_parse of src/stream.c (Server/Parse), with strtok_r and atol; the
--            other modules of Server prove what these do.
-- Text       the texts of the programming language, and comparisons of them.
-- Jsonrpc    src/jsonrpc.c: requests of the control protocol, parsed from a line.
-- Control    src/socket.c: the control socket. Control/Socket has a connection's line and the dispatch of
--            requests, Control/Stream and Control/Volume the two requests that change something, and
--            Control/Status the replies that tell of the server; the other modules of Control prove
--            what these do.
-- Recovery   the client and the server together: a lost packet is asked for and sent again.
-- Examples   concrete inputs, at which the theorems are applied.
--
-- How code becomes definitions. A structure is a record, and a routine that changes one returns
-- the new record. Out-of-line effects are lists in the state: datagrams sent, tasks posted. Where
-- the program stops, uses a NULL pointer or memory that it has freed, or divides by zero, the
-- result is none. Arithmetic of a fixed width writes its wrap-around out. A pointer to a client of
-- the server is its id, and a write through it changes the first client with this id. Clocks are
-- arguments, once for each call of obtainsystime.
--
-- Fuel. carry of time_add has one round per second in the nanoseconds; sift_up and pqueue_heapify
-- have as many as there are elements, and remove_old too; server_segments has as many as the
-- packet has bytes, and client_segments too, which is enough for segments of positive length, and
-- a segment of length 0 keeps the loop in place for every fuel; parse_options has as many rounds
-- as the text has bytes, and one more than the options is enough; taskqueue_run takes its fuel as
-- an argument, and one more than the tasks that are due is enough where the tasks behave. getchunk
-- takes the rounds of its loop as an argument; one is enough for the chunk that its caller passes.
--
-- Parameters. json-c (JsonC), with what it documents (JsonLaws) where a theorem needs it; what the
-- system tells of hosts and the versions that the build sets (System); what a member of a union
-- reads when another has been written (low_bits); libopus (Decoder, Encoder), the rate that the
-- sound card makes of a wanted one, the functions of the tasks, adjust_speed (Speed). What they
-- must satisfy stands in the theorems.
--
-- Not modelled: printing, memory, sockets, epoll, name resolution, the timer's file descriptor, the
-- sound library, option parsing and start-up.
pub mod Base
pub mod Timespec
pub mod Vector
pub mod Pqueue
pub mod Taskqueue
pub mod Pcmchunk
pub mod Packet
pub mod Intercom
pub mod Player
pub mod Client
pub mod Inputpipe
pub mod Server
pub mod Text
pub mod Jsonrpc
pub mod Control
pub mod Recovery
pub mod Examples
