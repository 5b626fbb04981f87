-- ===== src/Server/Found.antt =====
-- src/clientmgr.c: what `find_client` finds after a write through the pointer to a client.
use snapcastc.Base.{
  ℕ, ◌≡◌, refl, ap, ◌∙◌, inl, inr, true, List, [], ◌∷◌, Option, none, some, Bool-cases,
}
use snapcastc.Intercom.{is_zero}
use snapcastc.Server.{
  ClientRecord, StreamRecord, ServerCtx, get_client, is_client, find_client, client_cmp,
  change_client, change_stream_of,
}
use snapcastc.Server.Clients.{write_client}

abbrev pub written : (ClientRecord → ClientRecord) → Option ClientRecord → Option ClientRecord
written f none = none
written f (some c) = some (f c)

module _ (f : ClientRecord → ClientRecord) (id : ℕ)
    (same : (c : ClientRecord) → (f c).id ≡ c.id) where
  pub get_client-change_client :
      (cs : List ClientRecord)
      → get_client (change_client f cs id) id ≡ written f (get_client cs id)
  unfolding get_client change_client
  get_client-change_client [] = refl
  get_client-change_client (c ∷ cs) = elim (Bool-cases (is_zero (client_cmp id c.id))) [
    | inl e ↦
        let still : is_zero (client_cmp id (f c).id) ≡ true =
          ap (λ k. is_zero (client_cmp id k)) (same c) ∙ e in
        rw (change_client, e, get_client, still) refl
    | inr e ↦ rw (change_client, e, get_client, e) (get_client-change_client cs)
  ]

  pub is_client-written : (o : Option ClientRecord) → is_client (written f o) ≡ is_client o
  is_client-written none = refl
  is_client-written (some c) = refl

  find_client-change_stream_of :
      (ss : List StreamRecord)
      → find_client
          (change_stream_of (λ s. record s { clients = change_client f s.clients id }) ss id)
          id
        ≡ written f (find_client ss id)
  unfolding find_client change_stream_of
  find_client-change_stream_of [] = refl
  find_client-change_stream_of (s ∷ ss) = elim (Bool-cases (is_client (get_client s.clients id))) [
    | inl e ↦
        let new = get_client-change_client s.clients in
        let still : is_client (get_client (change_client f s.clients id) id) ≡ true =
          ap is_client new ∙ (is_client-written (get_client s.clients id) ∙ e) in
        rw (change_stream_of, e, find_client, still) new
    | inr e ↦ rw (change_stream_of, e, find_client, e) (find_client-change_stream_of ss)
  ]

  -- The client that is found is the one that has been written to.
  pub find_client-write_client :
      (srv : ServerCtx)
      → find_client (write_client f srv id).streams id ≡ written f (find_client srv.streams id)
  unfolding write_client
  find_client-write_client srv = find_client-change_stream_of srv.streams
