-- ===== src/Server/Loop/Sent.antt =====
-- src/server.c and intercom_srv.c: what goes out to a stream's clients when a chunk is complete.
use snapcastc.Base.{
  ℕ, ◌/◌, ◌%◌, ◌∷◌, ◌++◌, List, [], if◌then◌else◌, ◌≡◌, refl, ap, sym, ◌∙◌, Bool-cases, inl, inr,
}
use mathlib.Core.List.{append_assoc, append-nil}
use snapcastc.Packet.{header_bytes, server_operation, assemble_stop}
use snapcastc.Server.{removal_posted, StreamRecord, ClientRecord, Datagram, ServerCtx}
use snapcastc.Server.Clients.{intercom_stop_client, clientmgr_stop_clients}
use snapcastc.Server.Packets.{send_to_clients, intercom_send_audio, audio_packet_of, keep_packet}

abbrev pub to : ClientRecord → List ℕ → Datagram
to c packet = record { ip = c.ip; port = c.port; payload = packet }

-- One datagram for each client that is not muted, from the last client to the first.
abbrev pub datagrams : List ClientRecord → List ℕ → List Datagram
datagrams [] packet = []
datagrams (c ∷ clients) packet =
    datagrams clients packet ++ (if c.muted then [] else to c packet ∷ [])

-- A stop for each client.
abbrev pub stops : List ClientRecord → List Datagram
stops [] = []
stops (c ∷ clients) =
    stops clients ++ to c (header_bytes server_operation 0 0 ++ assemble_stop) ∷ []

pub send_to_clients-sent :
    (srv : ServerCtx) (clients : List ClientRecord) (packet : List ℕ)
    → (send_to_clients srv clients packet).sent ≡ srv.sent ++ datagrams clients packet
unfolding send_to_clients
send_to_clients-sent srv [] packet = sym (append-nil srv.sent)
send_to_clients-sent srv (c ∷ clients) packet =
    let rest = send_to_clients-sent srv clients packet in
    elim (Bool-cases c.muted) [
      | inl e ↦
          rw (send_to_clients, e)
            (rest ∙ ap (λ t. srv.sent ++ t) (sym (append-nil (datagrams clients packet))))
      | inr e ↦
          rw (send_to_clients, e)
            (ap (λ t. t ++ to c packet ∷ []) rest
              ∙ append_assoc srv.sent (datagrams clients packet) (to c packet ∷ []))
    ]

pub stop_clients-sent :
    (srv : ServerCtx) (clients : List ClientRecord)
    → (clientmgr_stop_clients srv clients).sent ≡ srv.sent ++ stops clients
unfolding clientmgr_stop_clients intercom_stop_client
stop_clients-sent srv [] = sym (append-nil srv.sent)
stop_clients-sent srv (c ∷ clients) =
    let stop = to c (header_bytes server_operation 0 0 ++ assemble_stop) ∷ [] in
    ap (λ t. t ++ stop) (stop_clients-sent srv clients) ∙ append_assoc srv.sent (stops clients) stop

pub stop_clients-bufferms :
    (srv : ServerCtx) (clients : List ClientRecord)
    → (clientmgr_stop_clients srv clients).bufferms ≡ srv.bufferms
unfolding clientmgr_stop_clients intercom_stop_client
stop_clients-bufferms srv [] = refl
stop_clients-bufferms srv (c ∷ clients) = stop_clients-bufferms srv clients

pub send_audio-sent :
    (srv : ServerCtx) (before : List StreamRecord) (s : StreamRecord) (after : List StreamRecord)
    → (intercom_send_audio srv before s after).sent
      ≡ srv.sent ++ datagrams s.clients (audio_packet_of srv.bufferms s).bytes
unfolding intercom_send_audio
send_audio-sent srv before s after =
    send_to_clients-sent
      (record srv {
        streams = before ++ keep_packet srv.bufferms s ∷ after;
        tasks = srv.tasks ++ removal_posted (srv.bufferms / 1000) (srv.bufferms % 1000) ∷ [];
      })
      s.clients (audio_packet_of srv.bufferms s).bytes
