-- ===== src/Control/Volume.antt =====
-- src/socket.c: `handle_client_setvolume`. What it returns is not used by its caller.
use snapcastc.Jsonrpc.{is_null, JsonC, Value, Parameter, Request}
use snapcastc.Base.{if◌then◌else◌, ℕ, Bool, List, [], ◌∷◌, Option, none, some, ◌>>=◌}
use snapcastc.Base.Int.{ℤ, pos}
use mathlib.Core.List.{reverse}
use snapcastc.Text.{codes, same_prefix}
use snapcastc.Server.{ClientRecord, ServerCtx, find_client}
use snapcastc.Server.Clients.{write_client, intercom_set_volume, clientmgr_client_setmute}
use snapcastc.Control.{
  ControlCtx, number_of, text_of, u16_of, u8_of, known_client, jsonrpc_buildresult, print_and_put,
}

-- The loop's variables; `percent` and `mute` are what has been found in the object, read as a number and
-- as a Boolean.
pub record VolumeScan : Type 0 where
  pub client : Option ℕ
  pub percent : Option ℤ
  pub mute : Option Bool

abbrev pub no_volume : VolumeScan
no_volume = record { client = none; percent = none; mute = none }

-- How a round of the loop ends: it goes on, breaks, or jumps to the reply.
pub data Round : Type 0 where
  goes_on : VolumeScan → Round
  breaks : VolumeScan → Round
  replies : VolumeScan → Round

abbrev pub found_client : VolumeScan → Option ℕ → Round
found_client st none = breaks (record st { client = none })
found_client st (some id) = goes_on (record st { client = some id })

-- The client with this id is at the pointer.
unfoldable pub refreshvolume : ServerCtx → ℕ → ℤ → Option ClientRecord → ServerCtx
refreshvolume srv id volume none = srv
refreshvolume srv id volume (some c) =
    write_client (λ c. record c { volume_percent = u8_of volume })
      (intercom_set_volume srv c (u8_of volume)) id

unfoldable pub setmute : ServerCtx → ℕ → Bool → Option ClientRecord → ServerCtx
setmute srv id mute none = srv
setmute srv id mute (some c) =
    write_client (λ c. record c { muted = mute }) (clientmgr_client_setmute srv c mute) id

-- What has been found is applied: the volume first.
unfoldable pub apply_percent : ServerCtx → ℕ → Option ℤ → ServerCtx
apply_percent srv id none = srv
apply_percent srv id (some volume) = refreshvolume srv id volume (find_client srv.streams id)

unfoldable pub apply_mute : ServerCtx → ℕ → Option Bool → ServerCtx
apply_mute srv id none = srv
apply_mute srv id (some mute) = setmute srv id mute (find_client srv.streams id)

unfoldable pub apply_volume : ServerCtx → VolumeScan → ServerCtx
apply_volume srv st = elim st.client [
  | none ↦ srv
  | some id ↦ apply_mute (apply_percent srv id st.percent) id st.mute
]

-- The client of the reply.
abbrev pub client_at : ServerCtx → Option ℕ → Option ClientRecord
client_at srv none = none
client_at srv (some id) = find_client srv.streams id

module _ (J : JsonC) where
  -- What is read from a member that is there; null is a NULL pointer.
  unfoldable pub read_percent : J.Json → Option ℤ
  unfolding is_null
  read_percent p = if is_null (J.get_type p) then none else some (J.get_int p)

  unfoldable pub read_mute : J.Json → Option Bool
  unfolding is_null
  read_mute m = if is_null (J.get_type m) then none else some (J.get_boolean m)

  -- `percent` is there, so that `muted` is not looked up and the pointer stays what it was. `none` is
  -- the use of a member that an earlier volume has left behind the pointer, with its object freed.
  unfoldable pub scan_percent : J.Json → VolumeScan → Option Round
  unfolding read_percent
  scan_percent p st = elim st.mute [
    | none ↦ some (goes_on (record st { percent = read_percent p }))
    | some _ ↦ none
  ]

  -- `muted` is looked up only where there is no `percent`, whose pointer is NULL then.
  unfoldable pub scan_object : J.Json → VolumeScan → Option Round
  unfolding scan_percent read_mute
  scan_object jobj st = elim (J.object_get jobj (codes "percent")) [
    | some p ↦ scan_percent p st
    | none ↦ elim (J.object_get jobj (codes "muted")) [
      | some m ↦ some (goes_on (record st { percent = none; mute = read_mute m }))
      | none ↦ some (replies (record st { percent = none; mute = none }))
    ]
  ]

  abbrev pub scan_parsed : Option J.Json → VolumeScan → Option Round
  scan_parsed none st = some (replies st)
  scan_parsed (some jobj) st = scan_object jobj st

  unfoldable pub scan_volume_parameter :
      (Value → ℤ) → ServerCtx → Parameter → VolumeScan → Option Round
  scan_volume_parameter low_bits srv p st =
      if same_prefix p.name (codes "id") 2
      then some (found_client st (known_client srv (u16_of (number_of low_bits p.value))))
      else if same_prefix p.name (codes "volume") 6
      then (do text ← text_of p.value; scan_parsed (J.tokener_parse text) st)
      else some (goes_on st)

  -- At its end the loop goes to what follows it, as a break does.
  unfoldable pub scan_volume : (Value → ℤ) → ServerCtx → List Parameter → VolumeScan → Option Round
  scan_volume low_bits srv [] st = some (breaks st)
  scan_volume low_bits srv (p ∷ ps) st = scan_volume_parameter low_bits srv p st >>= λ r. elim r [
    | goes_on st' ↦ scan_volume low_bits srv ps st'
    | breaks st' ↦ some (breaks st')
    | replies st' ↦ some (replies st')
  ]

  -- After the loop, or at once at the reply: the new state and the client of the reply.
  unfoldable pub finish_volume : ServerCtx → Round → ServerCtx × Option ClientRecord
  finish_volume srv (goes_on st) = (apply_volume srv st, client_at (apply_volume srv st) st.client)
  finish_volume srv (breaks st) = (apply_volume srv st, client_at (apply_volume srv st) st.client)
  finish_volume srv (replies st) = (srv, client_at srv st.client)

  unfoldable pub volume_result : Option ClientRecord → J.Json
  volume_result none = J.object_add J.new_object (codes "volume") J.new_object
  volume_result (some c) = J.object_add J.new_object (codes "volume") (
      J.object_add (J.object_add J.new_object (codes "muted") (J.new_boolean c.muted))
        (codes "percent") (J.new_int (pos c.volume_percent)))

  unfoldable pub answer_volume : Request → ℕ → ControlCtx J → Round → ControlCtx J
  answer_volume request fd ctx round =
      let done = finish_volume ctx.server round in
      print_and_put J (record ctx { server = done.0 }) fd
        (jsonrpc_buildresult J J.new_object request.id (volume_result done.1))

  -- The loop goes from the last parameter to the first.
  unfoldable pub handle_client_setvolume :
      (Value → ℤ) → Request → ℕ → ControlCtx J → Option (ControlCtx J)
  handle_client_setvolume low_bits request fd ctx = do
    round ← scan_volume low_bits ctx.server (reverse request.parameters) no_volume
    some (answer_volume request fd ctx round)
