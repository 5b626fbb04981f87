-- ===== src/Server/Refresh.antt =====
-- src/clientmgr.c: `clientmgr_refresh_client`.
use snapcastc.Base.{
  ◌⊎◌, ap, ◌∙◌, refl, Option, none, some, ◌≤◌, true, ℕ, ◌+◌, ◌-◌, ◌==◌, ◌≡◌, sym, inl, inr, false,
  List, [], ◌∷◌, ◌++◌, arith, if◌then◌else◌, length, ◌&&◌, Bool-cases,
}
use snapcastc.Timespec.{Timespec}
use snapcastc.Server.{
  find_client, change_client, change_stream_of, purge_moved, purge_posted, is_client, get_client,
  stream_init, ClientRecord, StreamRecord, ServerCtx, is_idle, stream_client_add,
}
use snapcastc.Server.Clients.{
  write_client, new_client, create_client, greet_client, clientmgr_refresh_client, is_roughly,
  buffer_of, clientmgr_delete_client, create_in, tell_volume, replace_client, refresh_known,
  clientmgr_send_audio_buffer_to_client,
}
use snapcastc.Server.Registry.{
  find-absent, delete_client_correct, change_client-count, clients_with, total, IsStarted,
  find-present, send_all-streams,
}

pub append-count :
    (m : ℕ) (cs : List ClientRecord) (c : ClientRecord)
    → clients_with m (cs ++ c ∷ []) ≡ clients_with m cs + (if c.id == m then 1 else 0)
append-count m [] c = omega arith
append-count m (x ∷ cs) c = omega (arith, append-count m cs c)

pub stream_client_add-clients :
    (s : StreamRecord) (c : ClientRecord) → (stream_client_add s c).clients ≡ s.clients ++ c ∷ []
unfolding stream_client_add
stream_client_add-clients s c =
    elim (Bool-cases (length (s.clients ++ c ∷ []) == 1 && is_idle s.inputpipe.state)) [
      | inl e ↦ rw (stream_client_add, e) refl
      | inr e ↦ rw (stream_client_add, e) refl
    ]

pub send_buffer-streams :
    (srv : ServerCtx) (c : ClientRecord)
    → (clientmgr_send_audio_buffer_to_client srv c).streams ≡ srv.streams
unfolding clientmgr_send_audio_buffer_to_client
send_buffer-streams srv c = send_all-streams srv c (buffer_of srv.streams c.id)

stream_init-clients :
    (s : StreamRecord) → s.initialized ≡ true → (if s.initialized then s else stream_init s) ≡ s
stream_init-clients s h = rw h refl

swap_sum : (a b c : ℕ) → a + b + c ≡ a + c + b
swap_sum a b c = omega arith

create_in_lem :
    (srv : ServerCtx) (client : ClientRecord) (ss : List StreamRecord)
    → IsStarted ss
    → (srv' : ServerCtx) × (create_in srv client ss ≡ some srv')
      × ((m : ℕ) → total m srv'.streams ≡ total m ss + (if client.id == m then 1 else 0))
unfolding create_in new_client
create_in_lem srv client [] started = absurd started
create_in_lem srv client (s ∷ ss) started =
    let ready = if s.initialized then s else stream_init s in
    let added = new_client client.id client.ip client.port in
    let grown = stream_client_add ready added in
    let name : ClientRecord → ClientRecord =
      λ c. record c { volume_percent = client.volume_percent } in
    let listed : StreamRecord = record grown {
      clients = change_client name grown.clients client.id;
    } in
    let before : ServerCtx = record srv {
      streams = listed ∷ ss;
      tasks = srv.tasks ++ purge_posted client.id ∷ [];
    } in
    (
      clientmgr_send_audio_buffer_to_client before added,
      refl,
      λ m.
          let streams : total m (clientmgr_send_audio_buffer_to_client before added).streams
              ≡ clients_with m listed.clients + total m ss =
            ap (total m) (send_buffer-streams before added) in
          let renamed : clients_with m listed.clients ≡ clients_with m grown.clients =
            change_client-count name client.id m grown.clients (λ c. refl) in
          let more : clients_with m grown.clients ≡ clients_with m (ready.clients ++ added ∷ []) =
            ap (clients_with m) (stream_client_add-clients ready added) in
          let one : clients_with m (ready.clients ++ added ∷ [])
              ≡ clients_with m ready.clients + (if client.id == m then 1 else 0) =
            append-count m ready.clients added in
          let same : clients_with m ready.clients ≡ clients_with m s.clients =
            ap (λ x. clients_with m x.clients) (stream_init-clients s started) in
          streams
          ∙ ap (λ k. k + total m ss)
              (renamed ∙ (more ∙ (one ∙ ap (λ k. k + (if client.id == m then 1 else 0)) same)))
          ∙ swap_sum (clients_with m s.clients) (if client.id == m then 1 else 0) (total m ss),
    )

-- A new client is one more with its id, and nothing else changes.
create_client_lem :
    (srv : ServerCtx) (client : ClientRecord)
    → IsStarted srv.streams
    → (srv' : ServerCtx) × (create_client srv client ≡ some srv')
      × ((m : ℕ) → total m srv'.streams ≡ total m srv.streams + (if client.id == m then 1 else 0))
unfolding create_client
create_client_lem srv client started = create_in_lem srv client srv.streams started

change_stream_of-same :
    (f : StreamRecord → StreamRecord) (id m : ℕ) (ss : List StreamRecord)
    → ((s : StreamRecord) → clients_with m (f s).clients ≡ clients_with m s.clients)
    → total m (change_stream_of f ss id) ≡ total m ss
unfolding change_stream_of
change_stream_of-same f id m [] h = refl
change_stream_of-same f id m (s ∷ ss) h = elim (Bool-cases (is_client (get_client s.clients id))) [
  | inl e ↦ rw (change_stream_of, e) (omega (arith, h s))
  | inr e ↦ rw (change_stream_of, e) (omega (arith, change_stream_of-same f id m ss h))
]

pub write_client-total :
    (f : ClientRecord → ClientRecord) (srv : ServerCtx) (id m : ℕ)
    → ((c : ClientRecord) → (f c).id ≡ c.id)
    → total m (write_client f srv id).streams ≡ total m srv.streams
unfolding write_client
write_client-total f srv id m h =
    change_stream_of-same (λ s. record s { clients = change_client f s.clients id }) id m
      srv.streams (λ s. change_client-count f id m s.clients h)

tell_volume-streams :
    (srv : ServerCtx) (volume : ℕ) (c : Option ClientRecord)
    → (tell_volume srv volume c).streams ≡ srv.streams
unfolding tell_volume
tell_volume-streams srv volume none = refl
tell_volume-streams srv volume (some c) = elim (Bool-cases (is_roughly volume c.volume_percent)) [
  | inl e ↦ rw (tell_volume, e) refl
  | inr e ↦ rw (tell_volume, e) refl
]

greet_client-total :
    (ctime : Timespec) (srv : ServerCtx) (client : ClientRecord) (m : ℕ)
    → total m (greet_client ctime srv client).streams ≡ total m srv.streams
unfolding greet_client
greet_client-total ctime srv client m =
    let f : ClientRecord → ClientRecord =
      λ c. record c { connected = true; lastseen = ctime; latency = client.latency } in
    let seen = write_client f srv client.id in
    ap (total m)
      (tell_volume-streams seen client.volume_percent (find_client seen.streams client.id))
    ∙ write_client-total f srv client.id m (λ c. refl)

replace_client_lem :
    (ctime : Timespec) (srv : ServerCtx) (client : ClientRecord)
    → IsStarted srv.streams
    → (srv' : ServerCtx) × (replace_client ctime srv client ≡ some srv')
      × ((m : ℕ) → total m srv'.streams ≡ total m srv.streams + (if client.id == m then 1 else 0))
unfolding replace_client
replace_client_lem ctime srv client started =
    let (new, e, t) = create_client_lem srv client started in
    (greet_client ctime new client, rw e refl, λ m. greet_client-total ctime new client m ∙ t m)

id_cases : (a b : ℕ) → (a ≡ b) ⊎ ((a == b) ≡ false)
id_cases a b = ground arith

-- One more with an id that was not there, and one fewer and one more with an id that was there once.
settle_new :
    (t : ℕ → ℕ) (id m : ℕ)
    → t id ≡ 0
    → t m + (if id == m then 1 else 0) ≡ (if id == m then 1 else t m)
settle_new t id m h = elim (id_cases id m) [
  | inl e ↦ let here : t m ≡ 0 = ap t (sym e) ∙ h in ground arith
  | inr e ↦ rw e (omega arith)
]

settle_kept : (t : ℕ → ℕ) (id m : ℕ) → 1 ≤ t id → t m ≤ 1 → t m ≡ (if id == m then 1 else t m)
settle_kept t id m h once = elim (id_cases id m) [
  | inl e ↦ let here : t m ≡ t id = ap t (sym e) in ground arith
  | inr e ↦ rw e refl
]

settle_replaced :
    (t : ℕ → ℕ) (id m : ℕ)
    → 1 ≤ t id
    → t m ≤ 1
    → t m - (if id == m then 1 else 0) + (if id == m then 1 else 0) ≡ (if id == m then 1 else t m)
settle_replaced t id m h once = elim (id_cases id m) [
  | inl e ↦ let here : t m ≡ t id = ap t (sym e) in ground arith
  | inr e ↦ rw e (omega arith)
]

refresh_known_lem :
    (ctime : Timespec) (srv : ServerCtx) (client : ClientRecord) (known : Option ClientRecord)
    → find_client srv.streams client.id ≡ known
    → IsStarted srv.streams
    → ((m : ℕ) → total m srv.streams ≤ 1)
    → (srv' : ServerCtx) × (refresh_known ctime srv client known ≡ some srv')
      × ((m : ℕ) → total m srv'.streams ≡ (if client.id == m then 1 else total m srv.streams))
unfolding refresh_known
refresh_known_lem ctime srv client none e started once =
    let (srv', made, t) = replace_client_lem ctime srv client started in
    let absent = find-absent client.id srv.streams (ap is_client e) in
    (srv', made, λ m. t m ∙ settle_new (λ k. total k srv.streams) client.id m absent)
refresh_known_lem ctime srv client (some c) e started once =
    let moved : ServerCtx = record srv { tasks = srv.tasks ++ purge_moved client.id ∷ [] } in
    let present = find-present client.id srv.streams (ap is_client e) in
    elim (Bool-cases (c.port == client.port)) [
      | inl same ↦ (
        greet_client ctime moved client,
        rw (refresh_known, same) refl,
        λ m.
            greet_client-total ctime moved client m
            ∙ settle_kept (λ k. total k srv.streams) client.id m present (once m),
      )
      | inr other ↦
          let gone = clientmgr_delete_client srv client.id in
          let (srv', made, t) =
            replace_client_lem ctime gone client
              ((delete_client_correct srv client.id 0).1 started) in
          (
            srv',
            rw (refresh_known, other) made,
            λ m.
                t m
                ∙ (ap (λ k. k + (if client.id == m then 1 else 0))
                      (delete_client_correct srv client.id m).0
                    ∙ settle_replaced (λ k. total k srv.streams) client.id m present (once m)),
          )
    ]

-- A hello of a client, known or not, on a server whose first stream is set up and on which no id
-- stands twice: the call returns, the client then stands in the streams exactly once, and of all
-- other ids there are as many as before.
pub refresh_client_correct :
    (ctime : Timespec) (srv : ServerCtx) (client : ClientRecord)
    → IsStarted srv.streams
    → ((m : ℕ) → total m srv.streams ≤ 1)
    → (srv' : ServerCtx) × (clientmgr_refresh_client ctime srv client ≡ some srv')
      × ((m : ℕ) → total m srv'.streams ≡ (if client.id == m then 1 else total m srv.streams))
unfolding clientmgr_refresh_client
refresh_client_correct ctime srv client started once =
    refresh_known_lem ctime srv client (find_client srv.streams client.id) refl started once
