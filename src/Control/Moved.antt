-- ===== src/Control/Moved.antt =====
-- src/socket.c: `handle_client_setstream`, and where the client is then.
use snapcastc.Control.Stream.{place_client, set_stream, id_in_place, move_client, is_changed}
use snapcastc.Text.{Text, same_prefix, same_prefix_self}
use snapcastc.Base.{
  inr, inl, Bool-cases, Option-cases, if◌then◌else◌, ℕ, ◌+◌, ◌≡◌, ◌≢◌, ◌==◌, refl, sym, ap, ◌∙◌,
  true, List, some, arith, get_elem?, some_inj, length,
}
use snapcastc.Server.{
  find_stream, find_client, ClientRecord, StreamRecord, ServerCtx, get_client, is_client,
  change_stream_at, stream_client_add, stream_client_remove,
}
use snapcastc.Server.Moves.{
  find_stream-get, find_client-id, get_elem?-changed, get_elem?-change_stream_at,
  change_stream_at-total,
}
use snapcastc.Server.Clients.{intercom_stop_client}
use snapcastc.Server.Registry.{clients_with, total, removed-total}
use snapcastc.Server.Refresh.{append-count, stream_client_add-clients}

stop-streams :
    (srv : ServerCtx) (c : ClientRecord) → (intercom_stop_client srv c).streams ≡ srv.streams
unfolding intercom_stop_client
stop-streams srv c = refl

-- Streams of which one is changed to have the other's clients are not the same.
is_changed-ne :
    (ss : List StreamRecord) (i j : ℕ) {current new : StreamRecord}
    → get_elem? ss i ≡ some current
    → get_elem? ss j ≡ some new
    → is_changed current new ≡ true
    → i ≢ j
unfolding is_changed
is_changed-ne ss i j {current = current} {new = new} ei ej h same =
    let one : current ≡ new = some_inj (sym ei ∙ (ap (get_elem? ss) same ∙ ej)) in
    let self = same_prefix_self current.name (length current.name) in
    let other : same_prefix current.name new.name (length current.name) ≡ true =
      ap (λ s. same_prefix current.name s.name (length current.name)) (sym one) ∙ self in
    cc (rw other at h)

added-count :
    (s : StreamRecord) (c : ClientRecord) (m : ℕ)
    → clients_with m (stream_client_add s c).clients
      ≡ clients_with m s.clients + (if c.id == m then 1 else 0)
added-count s c m = ap (clients_with m) (stream_client_add-clients s c) ∙ append-count m s.clients c

-- The move takes the client out of one stream and adds it to the other.
move_client-total :
    (srv : ServerCtx) (c : ClientRecord) (i j m : ℕ) {current new : StreamRecord}
    → i ≢ j
    → get_elem? srv.streams i ≡ some current
    → get_elem? srv.streams j ≡ some new
    → is_client (get_client current.clients c.id) ≡ true
    → total m (move_client srv c i j).streams ≡ total m srv.streams
unfolding move_client
move_client-total srv c i j m {current = current} {new = new} ne ei ej found =
    let add : StreamRecord → StreamRecord = λ s. stream_client_add s c in
    let remove : StreamRecord → StreamRecord = λ s. stream_client_remove s c.id in
    let kept = stop-streams srv c in
    let grown = change_stream_at add srv.streams j in
    let still = get_elem?-change_stream_at add srv.streams i j ne ∙ ei in
    let more = change_stream_at-total add m srv.streams j ej in
    let less = change_stream_at-total remove m grown i still in
    let one = added-count new c m in
    let gone = removed-total current c.id m found in
    ap (λ ss. total m (change_stream_at remove (change_stream_at add ss j) i)) kept ∙ omega arith

-- What `set_stream` does once everything has been looked up.
set_stream-found :
    (srv : ServerCtx) (id i j : ℕ) {current new : StreamRecord} {c : ClientRecord}
    → find_stream srv.streams id ≡ some i
    → get_elem? srv.streams i ≡ some current
    → get_elem? srv.streams j ≡ some new
    → find_client srv.streams id ≡ some c
    → set_stream srv id j ≡ some (place_client srv c i j current new)
unfolding set_stream
set_stream-found srv id i j ei ec en e = rw (ei, ec, en, e) refl

-- The client is where it was, or it has moved.
placed-total :
    (srv : ServerCtx) (c : ClientRecord) (i j m : ℕ) {id : ℕ} {current new : StreamRecord}
    → c.id ≡ id
    → find_stream srv.streams id ≡ some i
    → get_elem? srv.streams i ≡ some current
    → get_elem? srv.streams j ≡ some new
    → total m (place_client srv c i j current new).0.streams ≡ total m srv.streams
unfolding place_client
placed-total srv c i j m {id = id} {current = current} {new = new} same ei ec en =
    elim (Bool-cases (is_changed current new)) [
      | inl changed ↦
          let found = find_stream-get srv.streams id i ei ec in
          rw (place_client, changed)
            (move_client-total srv c i j m (is_changed-ne srv.streams i j ec en changed) ec en
              (rw same found))
      | inr stays ↦ rw (place_client, stays) refl
    ]

-- Whatever stream a client is asked to go to, no client comes or goes.
pub set_stream-total :
    (srv : ServerCtx) (id j m : ℕ) {r : ServerCtx × (Text × ℕ)}
    → set_stream srv id j ≡ some r
    → total m r.0.streams ≡ total m srv.streams
unfolding set_stream
set_stream-total srv id j m {r = r} h = elim (Option-cases (find_stream srv.streams id)) [
  | inl e ↦ cc (rw (set_stream, e) at h)
  | inr (i, ei) ↦ elim (Option-cases (get_elem? srv.streams i)) [
    | inl e ↦ cc (rw (set_stream, ei, e) at h)
    | inr (current, ec) ↦ elim (Option-cases (get_elem? srv.streams j)) [
      | inl e ↦ cc (rw (set_stream, ei, ec, e) at h)
      | inr (new, en) ↦ elim (Option-cases (find_client srv.streams id)) [
        | inl e ↦ cc (rw (set_stream, ei, ec, en, e) at h)
        | inr (c, e) ↦
            let done = some_inj (sym h ∙ set_stream-found srv id i j ei ec en e) in
            rw done (placed-total srv c i j m (find_client-id srv.streams id e) ei ec en)
      ]
    ]
  ]
]

-- A client of the first stream in which it is found goes to a stream whose name the old name is no
-- beginning of: the new stream has one client more with its id, the old one has one less, and it is
-- told to stop first.
pub set_stream_correct :
    (srv : ServerCtx) (id i j : ℕ) {current new : StreamRecord} {c : ClientRecord}
    → find_stream srv.streams id ≡ some i
    → get_elem? srv.streams i ≡ some current
    → get_elem? srv.streams j ≡ some new
    → find_client srv.streams id ≡ some c
    → is_changed current new ≡ true
    → (srv' : ServerCtx) × (old' : StreamRecord) × (new' : StreamRecord) × (set_stream srv id j
        ≡ some (srv', (new.name, id_in_place current.clients c.id)))
      × (get_elem? srv'.streams i ≡ some old')
      × (get_elem? srv'.streams j ≡ some new')
      × (clients_with id old'.clients + 1 ≡ clients_with id current.clients)
      × (clients_with id new'.clients ≡ clients_with id new.clients + 1)
      × (srv'.sent ≡ (intercom_stop_client srv c).sent)
unfolding move_client intercom_stop_client place_client
set_stream_correct srv id i j {current = current} {new = new} {c = c} ei ec en e changed =
    let add : StreamRecord → StreamRecord = λ s. stream_client_add s c in
    let remove : StreamRecord → StreamRecord = λ s. stream_client_remove s c.id in
    let grown = change_stream_at add srv.streams j in
    let ne = is_changed-ne srv.streams i j ec en changed in
    let same = find_client-id srv.streams id e in
    let one : (if c.id == id then 1 else 0) ≡ 1 = ground arith in
    let found : is_client (get_client current.clients c.id) ≡ true =
      rw same (find_stream-get srv.streams id i ei ec) in
    (
      move_client srv c i j,
      remove current,
      add new,
      set_stream-found srv id i j ei ec en e ∙ ap some (rw (place_client, changed) refl),
      get_elem?-changed remove grown i (get_elem?-change_stream_at add srv.streams i j ne ∙ ec),
      get_elem?-change_stream_at remove grown j i (λ x. ne (sym x))
          ∙ get_elem?-changed add srv.streams j en,
      ap (λ k. clients_with id (remove current).clients + k) (sym one)
          ∙ removed-total current c.id id found,
      added-count new c id ∙ ap (λ k. clients_with id new.clients + k) one,
      refl,
    )
