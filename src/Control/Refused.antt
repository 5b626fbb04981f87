-- ===== src/Control/Refused.antt =====
-- src/socket.c: `handle_client_setvolume` on requests that fail.
use snapcastc.Control.Volumes.{scan_object-quiet, id_parameter, volume_parameter, AreIdAndVolume}
use snapcastc.Control.Volume.{
  scan_percent, read_percent, read_mute, goes_on, breaks, replies, scan_parsed, scan_volume, Round,
  apply_volume, handle_client_setvolume, answer_volume, finish_volume, volume_result, VolumeScan,
  no_volume, scan_object, scan_volume_parameter,
}
use snapcastc.Base.{
  Option, Option-cases, inl, inr, length, length-append, ◌+◌, ℕ, ◌≡◌, ◌⊎◌, refl, List, [], ◌∷◌,
  none, some,
}
use snapcastc.Control.{ControlCtx, jsonrpc_buildresult, known_client, u16_of}
use snapcastc.Server.{ServerCtx}
use snapcastc.Jsonrpc.{Request, JsonC, Value, Parameter}
use snapcastc.Base.Int.{ℤ}
use mathlib.Core.List.{reverse}
use snapcastc.Text.{Text, codes, same_prefix}

module _ (J : JsonC) (low_bits : Value → ℤ) where
  -- What makes a request fail: the client is not known, or json-c reads nothing from the volume, or
  -- the object has neither member.
  abbrev pub IsRefused : ServerCtx → ℤ → Text → Type 0
  IsRefused srv n text =
      (known_client srv (u16_of n) ≡ none)
      ⊎ ((J.tokener_parse text ≡ none)
          ⊎ ((root : J.Json) × (J.tokener_parse text ≡ some root)
              × (J.object_get root (codes "percent") ≡ none)
              × (J.object_get root (codes "muted") ≡ none)))

  scan_object-neither :
      (root : J.Json) (st : VolumeScan)
      → J.object_get root (codes "percent") ≡ none
      → J.object_get root (codes "muted") ≡ none
      → scan_object J root st ≡ some (replies (record st { percent = none; mute = none }))
  unfolding scan_object
  scan_object-neither root st e m = rw (scan_object, e, m) refl

  -- A round on a volume does not break the loop.
  abbrev GoesOn : Round → Type 0
  GoesOn (goes_on st) = Unit
  GoesOn (breaks st) = ⊥
  GoesOn (replies st) = Unit

  scan_parsed-GoesOn :
      (o : Option J.Json) (st : VolumeScan)
      → st.mute ≡ none
      → (round : Round) × (scan_parsed J o st ≡ some round) × GoesOn round
  unfolding scan_object scan_percent
  scan_parsed-GoesOn none st m = (replies st, refl, tt)
  scan_parsed-GoesOn (some root) st quiet =
      elim (Option-cases (J.object_get root (codes "percent"))) [
        | inr (p, e) ↦ (
          goes_on (record { client = st.client; percent = read_percent J p; mute = none }),
          scan_object-quiet J low_bits root p st e quiet,
          tt,
        )
        | inl e ↦ elim (Option-cases (J.object_get root (codes "muted"))) [
          | inr (b, m) ↦ (
            goes_on (record st { percent = none; mute = read_mute J b }),
            rw (scan_object, e, m) refl,
            tt,
          )
          | inl m ↦
              (replies (record st { percent = none; mute = none }), rw (scan_object, e, m) refl, tt)
        ]
      ]

  id_last :
      (srv : ServerCtx) (n : ℤ) (text : Text) (round : Round)
      → known_client srv (u16_of n) ≡ none
      → GoesOn round
      → scan_parsed J (J.tokener_parse text) no_volume ≡ some round
      → (r : Round) × (scan_volume J low_bits srv
            (volume_parameter text ∷ id_parameter n ∷ [])
            no_volume
          ≡ some r)
        × ((finish_volume J srv r).0 ≡ srv)
  unfolding scan_volume scan_volume_parameter same_prefix finish_volume apply_volume
  id_last srv n text (goes_on st) unknown g e =
      (breaks (record st { client = none }), rw (e, unknown) refl, refl)
  id_last srv n text (breaks st) unknown g e = absurd g
  id_last srv n text (replies st) unknown g e = (replies st, rw e refl, refl)

  unknown-refused :
      (srv : ServerCtx) (n : ℤ) (text : Text) (ps : List Parameter)
      → AreIdAndVolume n text ps
      → known_client srv (u16_of n) ≡ none
      → (round : Round) × (scan_volume J low_bits srv (reverse ps) no_volume ≡ some round)
        × ((finish_volume J srv round).0 ≡ srv)
  unfolding scan_volume scan_volume_parameter same_prefix finish_volume apply_volume
  unknown-refused srv n text ps (inl e) unknown =
      let (round, scanned, g) = scan_parsed-GoesOn (J.tokener_parse text) no_volume refl in
      rw e (id_last srv n text round unknown g scanned)
  unknown-refused srv n text ps (inr e) unknown = (breaks no_volume, rw (e, unknown) refl, refl)

  known-refused :
      (srv : ServerCtx) (n : ℤ) (text : Text) (ps : List Parameter) (id : ℕ) (st st' : VolumeScan)
      → AreIdAndVolume n text ps
      → known_client srv (u16_of n) ≡ some id
      → scan_parsed J (J.tokener_parse text) no_volume ≡ some (replies st)
      → scan_parsed J (J.tokener_parse text) (record no_volume { client = some id })
        ≡ some (replies st')
      → (round : Round) × (scan_volume J low_bits srv (reverse ps) no_volume ≡ some round)
        × ((finish_volume J srv round).0 ≡ srv)
  unfolding scan_volume scan_volume_parameter same_prefix finish_volume
  known-refused srv n text ps id st st' (inl e) known first second =
      (replies st, rw (e, first) refl, refl)
  known-refused srv n text ps id st st' (inr e) known first second =
      (replies st', rw (e, known, second) refl, refl)

  scan-refused :
      (srv : ServerCtx) (n : ℤ) (text : Text) (ps : List Parameter)
      → AreIdAndVolume n text ps
      → IsRefused srv n text
      → (round : Round) × (scan_volume J low_bits srv (reverse ps) no_volume ≡ some round)
        × ((finish_volume J srv round).0 ≡ srv)
  unfolding scan_volume scan_volume_parameter same_prefix finish_volume apply_volume
  scan-refused srv n text ps order (inl unknown) = unknown-refused srv n text ps order unknown
  scan-refused srv n text ps order (inr (inl parse)) =
      elim (Option-cases (known_client srv (u16_of n))) [
        | inl unknown ↦ unknown-refused srv n text ps order unknown
        | inr (id, known) ↦
            known-refused srv n text ps id no_volume (record no_volume { client = some id }) order
              known (rw parse refl) (rw parse refl)
      ]
  scan-refused srv n text ps order (inr (inr (root, parse, percent, muted))) =
      elim (Option-cases (known_client srv (u16_of n))) [
        | inl unknown ↦ unknown-refused srv n text ps order unknown
        | inr (id, known) ↦
            let st : VolumeScan = record no_volume { client = some id } in
            known-refused srv n text ps id no_volume st order known
              (rw parse (scan_object-neither root no_volume percent muted))
              (rw parse (scan_object-neither root st percent muted))
      ]

  -- A request with an id and a volume, in either order, whose client is not known or whose volume has
  -- nothing to go by, changes nothing on the server and is answered.
  pub setvolume_refused :
      (request : Request) (fd : ℕ) (ctx : ControlCtx J) (n : ℤ) (text : Text)
      → AreIdAndVolume n text request.parameters
      → IsRefused ctx.server n text
      → (ctx' : ControlCtx J) × (handle_client_setvolume J low_bits request fd ctx ≡ some ctx')
        × (ctx'.server ≡ ctx.server)
        × (length ctx'.replies ≡ length ctx.replies + 1)
  unfolding handle_client_setvolume answer_volume
  setvolume_refused request fd ctx n text ps bad =
      let (round, scanned, same) = scan-refused ctx.server n text request.parameters ps bad in
      (
        answer_volume J request fd ctx round,
        rw scanned refl,
        same,
        length-append ctx.replies (
            (
              fd,
              jsonrpc_buildresult J J.new_object request.id
                  (volume_result J (finish_volume J ctx.server round).1),
            )
            ∷ []),
      )
