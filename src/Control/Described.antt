-- ===== src/Control/Described.antt =====
-- src/socket.c: what `json_build_serverstatus` tells, for a json-c whose objects and arrays keep what is added.
use snapcastc.Base.{
  map, ◌++◌, sym, ap, Option-cases, Bool-cases, inl, inr, if◌then◌else◌, ◌>>=◌, ◌∙◌, refl, ◌≡◌,
  false, List, [], ◌∷◌, Option, none, some,
}
use mathlib.Core.List.{append_assoc, append-nil}
use snapcastc.Server.{StreamRecord, ServerCtx, ClientRecord}
use snapcastc.Control.Status.{
  json_clients, json_add_group, json_groups, json_build_serverstatus, group_get_name, json_volume,
  object_of, json_client_config, json_client, System,
}
use snapcastc.Text.{same_text_eq, same_text, codes, Text}
use snapcastc.Base.Int.{pos}
use snapcastc.Jsonrpc.{JsonC}

module _ (J : JsonC) where
  -- What the library documents of the objects and arrays that have been built.
  pub record JsonLaws : Type 0 where
    pub items : J.Json → List J.Json
    pub get_same :
        (obj : J.Json) (key : Text) (val : J.Json)
        → J.object_get (J.object_add obj key val) key ≡ some val
    pub get_other :
        (obj : J.Json) (key other : Text) (val : J.Json)
        → same_text key other ≡ false
        → J.object_get (J.object_add obj key val) other ≡ J.object_get obj other
    pub items_new : items J.new_array ≡ []
    pub items_add : (arr val : J.Json) → items (J.array_add arr val) ≡ items arr ++ val ∷ []

module _ (J : JsonC) (laws : JsonLaws J) (sys : System) where
  -- The last member with a key.
  abbrev pub last_member : List (Text × J.Json) → Text → Option J.Json
  last_member [] key = none
  last_member ((k, val) ∷ members) key = elim (last_member members key) [
    | none ↦ if same_text k key then some val else none
    | some v ↦ some v
  ]

  abbrev pub or_else : Option J.Json → Option J.Json → Option J.Json
  or_else none o = o
  or_else (some v) o = some v

  get-object_of :
      (members : List (Text × J.Json)) (obj : J.Json) (key : Text)
      → J.object_get (object_of J sys members obj) key
        ≡ or_else (last_member members key) (J.object_get obj key)
  unfolding object_of
  get-object_of [] obj key = refl
  get-object_of ((k, val) ∷ members) obj key =
      let rest = get-object_of members (J.object_add obj k val) key in
      elim (Option-cases (last_member members key)) [
        | inr (v, e) ↦ rw e (rest ∙ rw e refl)
        | inl e ↦ elim (Bool-cases (same_text k key)) [
          | inl same ↦
              rw (e, same)
                (rest
                  ∙ rw e (
                      ap (λ k'. J.object_get (J.object_add obj k val) k')
                        (sym (same_text_eq k key same))
                      ∙ laws.get_same obj k val))
          | inr other ↦ rw (e, other) (rest ∙ rw e (laws.get_other obj k key val other))
        ]
      ]

  -- What a reader of the status learns of a client: whether it is muted, and its volume, of its
  -- configuration; its id, and whether it is connected.
  abbrev pub volume_of : J.Json → Option J.Json
  volume_of j = J.object_get j (codes "config") >>= λ config. J.object_get config (codes "volume")

  pub record IsEntry (j : J.Json) (c : ClientRecord) : Type 0 where
    pub id : J.object_get j (codes "id") ≡ some (J.new_int (pos c.id))
    pub connected : J.object_get j (codes "connected") ≡ some (J.new_boolean c.connected)
    pub muted :
        (volume_of j >>= λ volume. J.object_get volume (codes "muted"))
        ≡ some (J.new_boolean c.muted)
    pub percent :
        (volume_of j >>= λ volume. J.object_get volume (codes "percent"))
        ≡ some (J.new_int (pos c.volume_percent))

  volume_of-json_client :
      (c : ClientRecord) → volume_of (json_client J sys c) ≡ some (json_volume J sys c)
  unfolding json_client json_client_config json_volume same_text
  volume_of-json_client c =
      rw (get-object_of _ J.new_object (codes "config"))
        (get-object_of _ J.new_object (codes "volume"))

  json_client-IsEntry : (c : ClientRecord) → IsEntry (json_client J sys c) c
  unfolding json_client json_volume same_text
  json_client-IsEntry c = record {
    id = get-object_of _ J.new_object (codes "id");
    connected = get-object_of _ J.new_object (codes "connected");
    muted = rw (volume_of-json_client c) (get-object_of _ J.new_object (codes "muted"));
    percent = rw (volume_of-json_client c) (get-object_of _ J.new_object (codes "percent"));
  }

  -- The clients of a group, against the clients of a stream in the other order.
  abbrev pub AreEntries : List J.Json → List ClientRecord → Type 0
  AreEntries [] [] = Unit
  AreEntries [] (c ∷ cs) = ⊥
  AreEntries (j ∷ js) [] = ⊥
  AreEntries (j ∷ js) (c ∷ cs) = IsEntry j c × AreEntries js cs

  AreEntries-concat :
      (js : List J.Json) (cs : List ClientRecord) (j : J.Json) (c : ClientRecord)
      → AreEntries js cs
      → IsEntry j c
      → AreEntries (js ++ j ∷ []) (cs ++ c ∷ [])
  AreEntries-concat [] [] j c h e = (e, tt)
  AreEntries-concat [] (d ∷ cs) j c h e = absurd h
  AreEntries-concat (k ∷ js) [] j c h e = absurd h
  AreEntries-concat (k ∷ js) (d ∷ cs) j c h e = (h.0, AreEntries-concat js cs j c h.1 e)

  abbrev pub backwards : List ClientRecord → List ClientRecord
  backwards [] = []
  backwards (c ∷ cs) = backwards cs ++ c ∷ []

  json_clients-AreEntries :
      (cs : List ClientRecord) → AreEntries (laws.items (json_clients J sys cs)) (backwards cs)
  unfolding json_clients
  json_clients-AreEntries [] = rw laws.items_new tt
  json_clients-AreEntries (c ∷ cs) =
      rw (laws.items_add (json_clients J sys cs) (json_client J sys c)) (
        AreEntries-concat (laws.items (json_clients J sys cs)) (backwards cs) (json_client J sys c)
          c (json_clients-AreEntries cs) (json_client-IsEntry c))

  -- A group tells of a stream: its name and its clients, the last one first.
  pub record IsGroup (j : J.Json) (s : StreamRecord) : Type 0 where
    pub name : J.object_get j (codes "name") ≡ some (J.new_string s.name)
    pub clients : J.Json
    pub has_clients : J.object_get j (codes "clients") ≡ some clients
    pub are_entries : AreEntries (laws.items clients) (backwards s.clients)

  json_add_group-IsGroup : (s : StreamRecord) → IsGroup (json_add_group J sys s) s
  unfolding json_add_group same_text group_get_name
  json_add_group-IsGroup s = record {
    name = get-object_of _ J.new_object (codes "name");
    clients = json_clients J sys s.clients;
    has_clients = get-object_of _ J.new_object (codes "clients");
    are_entries = json_clients-AreEntries s.clients;
  }

  abbrev pub AreGroups : List J.Json → List StreamRecord → Type 0
  AreGroups [] [] = Unit
  AreGroups [] (s ∷ ss) = ⊥
  AreGroups (j ∷ js) [] = ⊥
  AreGroups (j ∷ js) (s ∷ ss) = IsGroup j s × AreGroups js ss

  json_groups-items :
      (groups : J.Json) (ss : List StreamRecord)
      → laws.items (json_groups J sys groups ss)
        ≡ laws.items groups ++ map (json_add_group J sys) ss
  unfolding json_groups
  json_groups-items groups [] = sym (append-nil (laws.items groups))
  json_groups-items groups (s ∷ ss) =
      json_groups-items (J.array_add groups (json_add_group J sys s)) ss
      ∙ (ap (λ js. js ++ map (json_add_group J sys) ss)
            (laws.items_add groups (json_add_group J sys s))
          ∙ append_assoc (laws.items groups) (json_add_group J sys s ∷ [])
              (map (json_add_group J sys) ss))

  map-AreGroups : (ss : List StreamRecord) → AreGroups (map (json_add_group J sys) ss) ss
  map-AreGroups [] = tt
  map-AreGroups (s ∷ ss) = (json_add_group-IsGroup s, map-AreGroups ss)

  -- The status of the server has a group for each stream, in their order, with the stream's name
  -- and its clients, the last one first; of each client it tells the id, whether it is connected and
  -- muted, and its volume.
  pub serverstatus_correct :
      (srv : ServerCtx)
      → (server groups : J.Json) × (J.object_get
            (json_build_serverstatus J sys srv)
            (codes "server")
          ≡ some server)
        × (J.object_get server (codes "groups") ≡ some groups)
        × AreGroups (laws.items groups) srv.streams
  unfolding json_build_serverstatus same_text
  serverstatus_correct srv = (
    _,
    json_groups J sys J.new_array srv.streams,
    get-object_of _ J.new_object (codes "server"),
    get-object_of _ J.new_object (codes "groups"),
    rw (json_groups-items J.new_array srv.streams, laws.items_new) (map-AreGroups srv.streams),
  )
