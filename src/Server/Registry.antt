-- ===== src/Server/Registry.antt =====
-- src/clientmgr.c: how many clients of an id the streams have.
use snapcastc.Base.{
  ◌≤◌, ℕ, ◌+◌, ◌-◌, ◌==◌, ◌≡◌, ◌∙◌, inl, inr, refl, ap, true, false, List, [], ◌∷◌, arith,
  if◌then◌else◌, length, Bool-cases,
}
use snapcastc.Packet.{AudioPacket}
use snapcastc.Server.{
  ClientRecord, StreamRecord, ServerCtx, get_client, is_client, find_client, change_client,
  remove_client, change_stream_of, stream_client_remove, client_cmp,
}
use snapcastc.Intercom.{is_zero}
use snapcastc.Server.Clients.{send, send_all, clientmgr_delete_client}

-- How many clients of a stream, and of all streams, have this id.
abbrev pub clients_with : ℕ → List ClientRecord → ℕ
clients_with id [] = 0
clients_with id (c ∷ clients) = (if c.id == id then 1 else 0) + clients_with id clients

abbrev pub total : ℕ → List StreamRecord → ℕ
total id [] = 0
total id (s ∷ streams) = clients_with id s.clients + total id streams

-- There is a stream for new clients, and it is set up.
abbrev pub IsStarted : List StreamRecord → Type 0
IsStarted [] = ⊥
IsStarted (s ∷ streams) = s.initialized ≡ true

get-absent :
    (id : ℕ) (cs : List ClientRecord)
    → is_client (get_client cs id) ≡ false
    → clients_with id cs ≡ 0
unfolding get_client
get-absent id [] h = refl
get-absent id (c ∷ cs) h = ground (arith, get-absent id cs)

-- A client that is found is removed, and no other.
remove_client-count :
    (id m : ℕ) (cs : List ClientRecord)
    → is_client (get_client cs id) ≡ true
    → clients_with m (remove_client cs id) + (if id == m then 1 else 0) ≡ clients_with m cs
unfolding remove_client get_client
remove_client-count id m [] h = ground arith
remove_client-count id m (c ∷ cs) h = ground (arith, remove_client-count id m cs)

pub change_client-count :
    (f : ClientRecord → ClientRecord) (id m : ℕ) (cs : List ClientRecord)
    → ((c : ClientRecord) → (f c).id ≡ c.id)
    → clients_with m (change_client f cs id) ≡ clients_with m cs
unfolding change_client
change_client-count f id m [] h = refl
change_client-count f id m (c ∷ cs) h =
    let same : (f c).id ≡ c.id = h c in
    let rest = change_client-count f id m cs h in
    let one : clients_with m (f c ∷ cs) ≡ clients_with m (c ∷ cs) =
      ap (λ k. (if k == m then 1 else 0) + clients_with m cs) same in
    elim (Bool-cases (is_zero (client_cmp id c.id))) [
      | inl e ↦ rw (change_client, e) one
      | inr e ↦ rw (change_client, e) (omega (arith, rest))
    ]

pub find-absent :
    (id : ℕ) (ss : List StreamRecord) → is_client (find_client ss id) ≡ false → total id ss ≡ 0
unfolding find_client
find-absent id [] h = refl
find-absent id (s ∷ ss) h = ground (arith, find-absent id ss, get-absent id s.clients)

get-present :
    (id : ℕ) (cs : List ClientRecord) → is_client (get_client cs id) ≡ true → 1 ≤ clients_with id cs
unfolding get_client
get-present id [] h = ground arith
get-present id (c ∷ cs) h = ground (arith, get-present id cs)

pub find-present :
    (id : ℕ) (ss : List StreamRecord) → is_client (find_client ss id) ≡ true → 1 ≤ total id ss
unfolding find_client
find-present id [] h = ground arith
find-present id (s ∷ ss) h = ground (arith, find-present id ss, get-present id s.clients)

-- A change of the stream that has the client, by which `less` clients go.
pub change_stream_of-total :
    (f : StreamRecord → StreamRecord) (id m less : ℕ) (ss : List StreamRecord)
    → ((s : StreamRecord)
        → is_client (get_client s.clients id) ≡ true
        → clients_with m (f s).clients + less ≡ clients_with m s.clients)
    → is_client (find_client ss id) ≡ true
    → total m (change_stream_of f ss id) + less ≡ total m ss
unfolding find_client change_stream_of
change_stream_of-total f id m less [] h found = ground arith
change_stream_of-total f id m less (s ∷ ss) h found =
    elim (Bool-cases (is_client (get_client s.clients id))) [
      | inl e ↦ rw (change_stream_of, e) (omega (arith, h s e))
      | inr e ↦
          let further : is_client (find_client ss id) ≡ true = rw (find_client, e) at found in
          rw (change_stream_of, e) (omega (arith, change_stream_of-total f id m less ss h further))
    ]

change_stream_of-IsStarted :
    (f : StreamRecord → StreamRecord) (id : ℕ) (ss : List StreamRecord)
    → ((s : StreamRecord) → (f s).initialized ≡ s.initialized)
    → IsStarted ss
    → IsStarted (change_stream_of f ss id)
unfolding change_stream_of
change_stream_of-IsStarted f id [] h started = started
change_stream_of-IsStarted f id (s ∷ ss) h started =
    elim (Bool-cases (is_client (get_client s.clients id))) [
      | inl e ↦ rw (change_stream_of, e) (h s ∙ started)
      | inr e ↦ rw (change_stream_of, e) started
    ]

pub send_all-streams :
    (srv : ServerCtx) (c : ClientRecord) (aps : List AudioPacket)
    → (send_all srv c aps).streams ≡ srv.streams
unfolding send_all
send_all-streams srv c [] = refl
send_all-streams srv c (ap ∷ aps) = send_all-streams (send srv c ap.bytes) c aps

stream_client_remove-clients :
    (s : StreamRecord) (id : ℕ)
    → ((stream_client_remove s id).clients ≡ remove_client s.clients id)
      × ((stream_client_remove s id).initialized ≡ s.initialized)
unfolding stream_client_remove
stream_client_remove-clients s id = elim (Bool-cases (length (remove_client s.clients id) == 0)) [
  | inl e ↦ rw (stream_client_remove, e) (refl, refl)
  | inr e ↦ rw (stream_client_remove, e) (refl, refl)
]

pub removed-total :
    (s : StreamRecord) (id m : ℕ)
    → is_client (get_client s.clients id) ≡ true
    → clients_with m (stream_client_remove s id).clients + (if id == m then 1 else 0)
      ≡ clients_with m s.clients
removed-total s id m found =
    ap (λ cs. clients_with m cs + (if id == m then 1 else 0)) (stream_client_remove-clients s id).0
    ∙ remove_client-count id m s.clients found

-- Deleting a client takes one client with the id out of all streams, if there is one, and no
-- other; the first stream stays set up.
pub delete_client_correct :
    (srv : ServerCtx) (id m : ℕ)
    → (total m (clientmgr_delete_client srv id).streams
        ≡ total m srv.streams - (if id == m then 1 else 0))
      × (IsStarted srv.streams → IsStarted (clientmgr_delete_client srv id).streams)
unfolding clientmgr_delete_client
delete_client_correct srv id m = elim (Bool-cases (is_client (find_client srv.streams id))) [
  | inl e ↦
      let gone =
        change_stream_of-total (λ s. stream_client_remove s id) id m (if id == m then 1 else 0)
          srv.streams (λ s found. removed-total s id m found) e in
      rw (clientmgr_delete_client, e)
        (
          omega (arith, gone),
          change_stream_of-IsStarted (λ s. stream_client_remove s id) id srv.streams
              (λ s. (stream_client_remove-clients s id).1),
        )
  | inr e ↦ rw (clientmgr_delete_client, e) (ground (arith, find-absent id srv.streams e), λ s. s)
]
