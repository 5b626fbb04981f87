-- ===== src/Control/Kept.antt =====
-- src/socket.c: what no request on the control socket changes.
use snapcastc.Control.Stream.{
  answer_stream, no_stream, scan_stream, handle_client_setstream, StreamScan, set_stream,
  set_stream_found,
}
use snapcastc.Control.Volume.{
  answer_volume, no_volume, scan_volume, finish_volume, handle_client_setvolume, VolumeScan, Round,
  goes_on, breaks, replies, refreshvolume, setmute, apply_percent, apply_mute, apply_volume,
}
use mathlib.Core.List.{reverse}
use snapcastc.Base.{
  ◌>>=◌, bind-eq-some, if◌then◌else◌, ℕ, ◌≡◌, refl, sym, ap, ◌∙◌, inl, inr, Bool, true, false,
  Option, none, some, Option-cases, some_inj,
}
use snapcastc.Jsonrpc.{JsonC, Request, Value}
use snapcastc.Text.{Text}
use snapcastc.Base.Int.{ℤ}
use snapcastc.Control.{u8_of, ControlCtx}
use snapcastc.Control.Status.{System}
use snapcastc.Server.{ClientRecord, ServerCtx, find_client}
use snapcastc.Server.Clients.{
  write_client, intercom_set_volume, intercom_stop_client, clientmgr_client_setmute,
  clientmgr_send_audio_buffer_to_client,
}
use snapcastc.Server.Registry.{total}
use snapcastc.Server.Refresh.{write_client-total, send_buffer-streams}
use snapcastc.Control.Moved.{set_stream-total}

set_stream_found-total :
    (srv : ServerCtx) (st : StreamScan) (m : ℕ) {r : ServerCtx × Option (Text × ℕ)}
    → set_stream_found srv st ≡ some r
    → total m r.0.streams ≡ total m srv.streams
unfolding set_stream_found
set_stream_found-total srv st m h = elim (Option-cases st.client) [
  | inl e ↦ ap (λ r. total m r.0.streams) (sym (some_inj (rw (set_stream_found, e) at h)))
  | inr (id, e) ↦ elim (Option-cases st.newstream) [
    | inl n ↦ ap (λ r. total m r.0.streams) (sym (some_inj (rw (set_stream_found, e, n) at h)))
    | inr (j, n) ↦ elim (Option-cases (set_stream srv id j)) [
      | inl f ↦ cc (rw (set_stream_found, e, n, f) at h)
      | inr (r, f) ↦
          ap (λ r. total m r.0.streams) (sym (some_inj (rw (set_stream_found, e, n, f) at h)))
          ∙ set_stream-total srv id j m f
    ]
  ]
]

resend-streams :
    (b : Bool) (srv : ServerCtx) (c : ClientRecord)
    → (if b then clientmgr_send_audio_buffer_to_client srv c else srv).streams ≡ srv.streams
resend-streams true srv c = send_buffer-streams srv c
resend-streams false srv c = refl

pub setmute_streams :
    (srv : ServerCtx) (c : ClientRecord) (mute : Bool)
    → (clientmgr_client_setmute srv c mute).streams
      ≡ (write_client (λ c. record c { muted = mute }) srv c.id).streams
unfolding clientmgr_client_setmute intercom_stop_client
setmute_streams srv c true = refl
setmute_streams srv c false =
    resend-streams c.muted (write_client (λ c. record c { muted = false }) srv c.id) c

refreshvolume-total :
    (srv : ServerCtx) (id : ℕ) (volume : ℤ) (c : Option ClientRecord) (m : ℕ)
    → total m (refreshvolume srv id volume c).streams ≡ total m srv.streams
unfolding refreshvolume intercom_set_volume
refreshvolume-total srv id volume none m = refl
refreshvolume-total srv id volume (some c) m =
    write_client-total (λ c. record c { volume_percent = u8_of volume })
      (intercom_set_volume srv c (u8_of volume)) id m (λ c. refl)

setmute-total :
    (srv : ServerCtx) (id : ℕ) (mute : Bool) (c : Option ClientRecord) (m : ℕ)
    → total m (setmute srv id mute c).streams ≡ total m srv.streams
unfolding setmute
setmute-total srv id mute none m = refl
setmute-total srv id mute (some c) m =
    let f : ClientRecord → ClientRecord = λ c. record c { muted = mute } in
    write_client-total f (clientmgr_client_setmute srv c mute) id m (λ c. refl)
    ∙ (ap (total m) (setmute_streams srv c mute) ∙ write_client-total f srv c.id m (λ c. refl))

percent-total :
    (srv : ServerCtx) (id : ℕ) (percent : Option ℤ) (m : ℕ)
    → total m (apply_percent srv id percent).streams ≡ total m srv.streams
unfolding apply_percent
percent-total srv id none m = refl
percent-total srv id (some v) m = refreshvolume-total srv id v (find_client srv.streams id) m

mute-total :
    (srv : ServerCtx) (id : ℕ) (mute : Option Bool) (m : ℕ)
    → total m (apply_mute srv id mute).streams ≡ total m srv.streams
unfolding apply_mute
mute-total srv id none m = refl
mute-total srv id (some b) m = setmute-total srv id b (find_client srv.streams id) m

apply_volume-total :
    (srv : ServerCtx) (st : VolumeScan) (m : ℕ)
    → total m (apply_volume srv st).streams ≡ total m srv.streams
unfolding apply_volume
apply_volume-total srv st m = elim (Option-cases st.client) [
  | inl e ↦ rw (apply_volume, e) refl
  | inr (id, e) ↦
      rw (apply_volume, e)
        (mute-total (apply_percent srv id st.percent) id st.mute m
          ∙ percent-total srv id st.percent m)
]

module _ (J : JsonC) (sys : System) (low_bits : Value → ℤ) (m : ℕ) where
  abbrev pub clients_of : ControlCtx J → ℕ
  clients_of ctx = total m ctx.server.streams

  pub setstream-total :
      (request : Request) (fd : ℕ) (ctx : ControlCtx J) {ctx' : ControlCtx J}
      → handle_client_setstream J low_bits request fd ctx ≡ some ctx'
      → clients_of ctx' ≡ clients_of ctx
  unfolding handle_client_setstream answer_stream
  setstream-total request fd ctx h =
      let finish : ServerCtx × Option (Text × ℕ) → Option (ControlCtx J) =
        λ r. some (answer_stream J request fd ctx r) in
      let (st, _, rest) =
        bind-eq-some (scan_stream low_bits ctx.server (reverse request.parameters) no_stream)
          (λ st. set_stream_found ctx.server st >>= finish) h in
      let (r, found, last) = bind-eq-some (set_stream_found ctx.server st) finish rest in
      ap clients_of (sym (some_inj last)) ∙ set_stream_found-total ctx.server st m found

  finish-total :
      (srv : ServerCtx) (round : Round)
      → total m (finish_volume J srv round).0.streams ≡ total m srv.streams
  unfolding finish_volume
  finish-total srv (goes_on st) = apply_volume-total srv st m
  finish-total srv (breaks st) = apply_volume-total srv st m
  finish-total srv (replies st) = refl

  pub setvolume-total :
      (request : Request) (fd : ℕ) (ctx : ControlCtx J) {ctx' : ControlCtx J}
      → handle_client_setvolume J low_bits request fd ctx ≡ some ctx'
      → clients_of ctx' ≡ clients_of ctx
  unfolding handle_client_setvolume answer_volume
  setvolume-total request fd ctx h =
      let (round, _, last) =
        bind-eq-some (scan_volume J low_bits ctx.server (reverse request.parameters) no_volume)
          (λ round. some (answer_volume J request fd ctx round)) h in
      ap clients_of (sym (some_inj last)) ∙ finish-total ctx.server round
