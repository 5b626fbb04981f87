-- ===== src/Server/Moves.antt =====
-- src/stream.c and clientmgr.c: a change of the stream at an index, and how many clients of an id there are then.
use snapcastc.Server.{
  client_cmp, ClientRecord, StreamRecord, get_client, is_client, find_client, find_stream,
  change_stream_at,
}
use snapcastc.Intercom.{is_zero}
use snapcastc.Base.{
  ℕ, zero, suc, ◌+◌, ◌≡◌, ◌≢◌, refl, sym, ap, ◌∙◌, inl, inr, true, List, [], ◌∷◌, some, arith,
  get_elem?, Bool-cases, Option-cases, some_inj,
}
use snapcastc.Server.Registry.{clients_with, total}

pub get_elem?-change_stream_at :
    (f : StreamRecord → StreamRecord) (ss : List StreamRecord) (i j : ℕ)
    → i ≢ j
    → get_elem? (change_stream_at f ss j) i ≡ get_elem? ss i
unfolding change_stream_at
get_elem?-change_stream_at f [] i j ne = refl
get_elem?-change_stream_at f (s ∷ ss) zero zero ne = absurd (ne refl)
get_elem?-change_stream_at f (s ∷ ss) zero (suc j) ne = refl
get_elem?-change_stream_at f (s ∷ ss) (suc i) zero ne = refl
get_elem?-change_stream_at f (s ∷ ss) (suc i) (suc j) ne =
    get_elem?-change_stream_at f ss i j (λ e. ne (ap suc e))

pub get_elem?-changed :
    (f : StreamRecord → StreamRecord) (ss : List StreamRecord) (i : ℕ) {s : StreamRecord}
    → get_elem? ss i ≡ some s
    → get_elem? (change_stream_at f ss i) i ≡ some (f s)
unfolding change_stream_at
get_elem?-changed f [] i e = cc
get_elem?-changed f (s ∷ ss) zero e = ap (λ s. some (f s)) (some_inj e)
get_elem?-changed f (s ∷ ss) (suc i) e = get_elem?-changed f ss i e

pub change_stream_at-total :
    (f : StreamRecord → StreamRecord) (m : ℕ) (ss : List StreamRecord) (i : ℕ) {s : StreamRecord}
    → get_elem? ss i ≡ some s
    → total m (change_stream_at f ss i) + clients_with m s.clients
      ≡ total m ss + clients_with m (f s).clients
unfolding change_stream_at
change_stream_at-total f m [] i e = cc
change_stream_at-total f m (x ∷ ss) zero {s = s} e =
    let same : x ≡ s = some_inj e in
    let old = ap (λ s. clients_with m s.clients) same in
    let new = ap (λ s. clients_with m (f s).clients) same in omega arith
change_stream_at-total f m (x ∷ ss) (suc i) e =
    let rest = change_stream_at-total f m ss i e in omega arith

-- The stream that `find_stream` finds has the client.
pub find_stream-get :
    (ss : List StreamRecord) (id i : ℕ) {s : StreamRecord}
    → find_stream ss id ≡ some i
    → get_elem? ss i ≡ some s
    → is_client (get_client s.clients id) ≡ true
unfolding find_stream
find_stream-get [] id i f g = cc
find_stream-get (x ∷ ss) id i {s = s} f g =
    elim (Bool-cases (is_client (get_client x.clients id))) [
      | inl e ↦
          let first : 0 ≡ i = some_inj (rw (find_stream, e) at f) in
          let same : x ≡ s = some_inj (rw (sym first) at g) in
          ap (λ s. is_client (get_client s.clients id)) (sym same) ∙ e
      | inr e ↦ elim (Option-cases (find_stream ss id)) [
        | inl n ↦ cc (rw (find_stream, e, n) at f)
        | inr (k, n) ↦
            let later : suc k ≡ i = some_inj (rw (find_stream, e, n) at f) in
            find_stream-get ss id k n (rw (sym later) at g)
      ]
    ]

client_cmp-zero : (a b : ℕ) → is_zero (client_cmp a b) ≡ true → a ≡ b
unfolding client_cmp is_zero
client_cmp-zero a b h = ground arith

get_client-id :
    (cs : List ClientRecord) (id : ℕ) {c : ClientRecord} → get_client cs id ≡ some c → c.id ≡ id
unfolding get_client
get_client-id [] id e = cc
get_client-id (x ∷ cs) id {c = c} e = elim (Bool-cases (is_zero (client_cmp id x.id))) [
  | inl h ↦
      let found : x ≡ c = some_inj (rw (get_client, h) at e) in
      ap (λ c. c.id) (sym found) ∙ sym (client_cmp-zero id x.id h)
  | inr h ↦ get_client-id cs id (rw (get_client, h) at e)
]

pub find_client-id :
    (ss : List StreamRecord) (id : ℕ) {c : ClientRecord} → find_client ss id ≡ some c → c.id ≡ id
unfolding find_client
find_client-id [] id e = cc
find_client-id (s ∷ ss) id {c = c} e = elim (Bool-cases (is_client (get_client s.clients id))) [
  | inl h ↦ get_client-id s.clients id (rw (find_client, h) at e)
  | inr h ↦ find_client-id ss id (rw (find_client, h) at e)
]
