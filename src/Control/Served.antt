-- ===== src/Control/Served.antt =====
-- src/socket.c: `socket_handle_client` over several reads, and the lines that it handles.
use snapcastc.Control.Socket.{
  accepted, after_line, handle_line, is_negative, bytes, socket_handle_client, handle_bytes,
  handle_parsed, is_line_complete, terminate, linebuffer_size, SocketClient, read_into, has_newline,
}
use snapcastc.Control.Pieces.{behind, is_line_complete-read_into}
use snapcastc.Base.{
  Bool-cases, ◌-◌, ◌≤◌, if◌then◌else◌, subst, Option-cases, bind_assoc, bind_same, inl, inr, ◌==◌,
  true, Option, some, ◌>>=◌, lt→ltb, ltb, ℕ, ◌+◌, ◌<◌, ◌≡◌, refl, sym, ap, ◌∙◌, false, List, [],
  ◌∷◌, ◌++◌, arith, length, length-append,
}
use mathlib.Core.List.{append_assoc}
use snapcastc.Base.Int.{ℤ, pos}
use snapcastc.Jsonrpc.{JsonC, Value, jsonrpc_parse_string}
use snapcastc.Control.Status.{System}
use snapcastc.Control.LineBuffer.{IsLineBuffer}
use snapcastc.Control.{ControlCtx}
use snapcastc.Text.{c_string}
use snapcastc.Control.Lines.{
  holding, NoZero, read_into-holding, is_line_complete-holding, terminate-holding, c_string-padded,
}

-- Pieces of a line: at least one byte, and no newline.
abbrev pub IsPartial : List ℕ → Type 0
IsPartial [] = ⊥
IsPartial (b ∷ bs) = has_newline (b ∷ bs) ≡ false

abbrev pub AllPartial : List (List ℕ) → Type 0
AllPartial [] = Unit
AllPartial (p ∷ ps) = IsPartial p × AllPartial ps

abbrev pub join : List (List ℕ) → List ℕ
join [] = []
join (p ∷ ps) = p ++ join ps

module _ (J : JsonC) (sys : System) (low_bits : Value → ℤ) where
  -- The reads of a connection, one after the other; it is served as long as it is kept.
  unfoldable pub serve :
      SocketClient → List (List ℕ) → ControlCtx J → Option (ControlCtx J × (SocketClient × ℤ))
  serve sc [] ctx = some (ctx, (sc, pos 0))
  serve sc (piece ∷ pieces) ctx = socket_handle_client J sys low_bits sc (bytes piece) ctx >>= λ r.
      let rest = serve r.1.0 pieces r.0 in if is_negative r.1.1 then some r else rest

  -- A whole line: it is parsed and handled.
  abbrev pub handle_text : ℕ → List ℕ → ControlCtx J → Option (ControlCtx J × ℤ)
  handle_text fd text ctx = do
    parse ← jsonrpc_parse_string J text
    handle_parsed J sys low_bits parse fd ctx

  keep_piece :
      (fd : ℕ) (text : List ℕ) (b : ℕ) (new : List ℕ) (ctx : ControlCtx J)
      → length text + length (b ∷ new) < linebuffer_size
      → has_newline (b ∷ new) ≡ false
      → socket_handle_client J sys low_bits (holding fd text) (bytes (b ∷ new)) ctx
        ≡ some (ctx, (holding fd (text ++ b ∷ new), pos 0))
  unfolding socket_handle_client handle_bytes read_into
  keep_piece fd text b new ctx fits none_yet =
      let inside : ltb (length text) linebuffer_size ≡ true = lt→ltb _ _ (omega arith) in
      let partial = is_line_complete-holding fd text (b ∷ new) fits ∙ none_yet in
      let line = read_into-holding fd text (b ∷ new) in
      let offset : length text + length (b ∷ new) ≡ length (text ++ b ∷ new) =
        omega (arith, length-append text (b ∷ new)) in
      rw (inside, handle_bytes, partial)
        (λ i. some (ctx, (record { fd = fd; line = line i; line_offset = offset i }, pos 0)))

  handle_line-text :
      (sc : SocketClient) (text : List ℕ) (ctx : ControlCtx J)
      → c_string sc.line ≡ text
      → 0 < length text
      → handle_line J sys low_bits sc ctx ≡ handle_text sc.fd text ctx
  unfolding handle_line
  handle_line-text sc text ctx e long =
      let some_text : (length text == 0) ≡ false = ground arith in
      rw (handle_line, e, some_text) refl

  pub after_line-state :
      (sc : SocketClient) (r : ControlCtx J × ℤ) → (after_line J sys low_bits sc r).0 ≡ r.0
  unfolding after_line
  after_line-state sc r = elim (Bool-cases (is_negative r.1)) [
    | inl e ↦ rw (after_line, e) refl
    | inr e ↦ rw (after_line, e) refl
  ]

  handle_bytes_complete :
      (sc : SocketClient) (new : List ℕ) (ctx : ControlCtx J)
      → is_line_complete (read_into sc new) ≡ true
      → (handle_bytes J sys low_bits sc new ctx >>= λ r. some r.0) ≡ (
          handle_line J sys low_bits (terminate (read_into sc new) (length new)) ctx >>= λ r.
          some r.0)
  unfolding handle_bytes
  handle_bytes_complete sc new ctx full =
      let complete = terminate (read_into sc new) (length new) in
      rw (handle_bytes, full)
        (bind_assoc (handle_line J sys low_bits complete ctx)
            (λ r. some (after_line J sys low_bits complete r)) (λ r. some r.0)
          ∙ bind_same (handle_line J sys low_bits complete ctx)
              (λ r. some (after_line J sys low_bits complete r).0) (λ r. some r.0)
              (λ r. ap some (after_line-state complete r)))

  take_line :
      (fd : ℕ) (text : List ℕ) (b : ℕ) (new : List ℕ) (ctx : ControlCtx J)
      → length text + length (b ∷ new) < linebuffer_size
      → has_newline (b ∷ new) ≡ true
      → NoZero (text ++ b ∷ new)
      → (socket_handle_client J sys low_bits (holding fd text) (bytes (b ∷ new)) ctx >>= λ r.
          some r.0)
        ≡ (handle_text fd (text ++ b ∷ new) ctx >>= λ r. some r.0)
  unfolding socket_handle_client terminate read_into
  take_line fd text b new ctx fits newline clean =
      let inside : ltb (length text) linebuffer_size ≡ true = lt→ltb _ _ (omega arith) in
      rw inside (
        handle_bytes_complete (holding fd text) (b ∷ new) ctx
          (is_line_complete-holding fd text (b ∷ new) fits ∙ newline)
        ∙ ap (λ o. o >>= λ r. some r.0)
            (handle_line-text (terminate (read_into (holding fd text) (b ∷ new)) (length (b ∷ new)))
              (text ++ b ∷ new) ctx
              (ap c_string (terminate-holding fd text (b ∷ new))
                ∙ c_string-padded (text ++ b ∷ new) (linebuffer_size - length (text ++ b ∷ new))
                    clean (omega (arith, length-append text (b ∷ new))))
              (omega (arith, length-append text (b ∷ new)))))

  serve-last :
      (sc : SocketClient) (piece : List ℕ) (ctx : ControlCtx J)
      → (serve sc (piece ∷ []) ctx >>= λ r. some r.0)
        ≡ (socket_handle_client J sys low_bits sc (bytes piece) ctx >>= λ r. some r.0)
  unfolding serve
  serve-last sc piece ctx =
      elim (Option-cases (socket_handle_client J sys low_bits sc (bytes piece) ctx)) [
        | inl e ↦ rw (serve, e) refl
        | inr (r, e) ↦ elim (Bool-cases (is_negative r.1.1)) [
          | inl n ↦ rw (serve, e, n) refl
          | inr n ↦ rw (serve, e, n) refl
        ]
      ]

  serve-pieces :
      (fd : ℕ) (text : List ℕ) (pieces : List (List ℕ)) (last : List ℕ) (ctx : ControlCtx J)
      → AllPartial pieces
      → has_newline last ≡ true
      → NoZero (text ++ (join pieces ++ last))
      → length text + length (join pieces ++ last) < linebuffer_size
      → (serve (holding fd text) (pieces ++ last ∷ []) ctx >>= λ r. some r.0)
        ≡ (handle_text fd (text ++ (join pieces ++ last)) ctx >>= λ r. some r.0)
  unfolding serve has_newline
  serve-pieces fd text [] [] ctx partial newline clean fits = cc
  serve-pieces fd text [] (b ∷ last) ctx partial newline clean fits =
      serve-last (holding fd text) (b ∷ last) ctx ∙ take_line fd text b last ctx fits newline clean
  serve-pieces fd text ([] ∷ pieces) last ctx partial newline clean fits = absurd partial.0
  serve-pieces fd text ((b ∷ new) ∷ pieces) last ctx partial newline clean fits =
      let same : (text ++ b ∷ new) ++ (join pieces ++ last)
          ≡ text ++ ((b ∷ new ++ join pieces) ++ last) =
        append_assoc text (b ∷ new) (join pieces ++ last)
        ∙ ap (λ t. text ++ t) (sym (append_assoc (b ∷ new) (join pieces) last)) in
      let shorter = ap length same ∙ length-append text ((b ∷ new ++ join pieces) ++ last) in
      let parts = length-append (text ++ b ∷ new) (join pieces ++ last) in
      let front = length-append text (b ∷ new) in
      let back = length-append (join pieces) last in
      let kept : socket_handle_client J sys low_bits (holding fd text) (bytes (b ∷ new)) ctx
          ≡ some (ctx, (holding fd (text ++ b ∷ new), pos 0)) =
        keep_piece fd text b new ctx (omega arith) partial.0 in
      rw (serve, kept)
        (serve-pieces fd (text ++ b ∷ new) pieces last ctx partial.1 newline
            (subst NoZero (sym same) clean) (omega arith)
          ∙ ap (λ t. handle_text fd t ctx >>= λ r. some r.0) same)

  -- A line that arrives in any number of pieces, the last of which ends it, on a connection that
  -- has just been accepted, is parsed and handled once and as a whole, where it fits the buffer with
  -- its end and has no zero byte.
  pub serve_correct :
      (fd : ℕ) (pieces : List (List ℕ)) (last : List ℕ) (ctx : ControlCtx J)
      → AllPartial pieces
      → has_newline last ≡ true
      → NoZero (join pieces ++ last)
      → length (join pieces ++ last) < linebuffer_size
      → (serve (accepted fd) (pieces ++ last ∷ []) ctx >>= λ r. some r.0)
        ≡ (handle_text fd (join pieces ++ last) ctx >>= λ r. some r.0)
  serve_correct fd pieces last ctx partial newline clean fits =
      serve-pieces fd [] pieces last ctx partial newline clean (omega arith)

  -- Where an earlier line has left a newline in the buffer behind the bytes that are read now, these are
  -- handled at once as a line, whether or not they have a newline.
  pub handle_early :
      (sc : SocketClient) (b : ℕ) (new : List ℕ) (ctx : ControlCtx J)
      → IsLineBuffer sc
      → length (b ∷ new) ≤ linebuffer_size - sc.line_offset - 1
      → has_newline (behind sc (length (b ∷ new))) ≡ true
      → (socket_handle_client J sys low_bits sc (bytes (b ∷ new)) ctx >>= λ r. some r.0) ≡ (
          handle_line J sys low_bits (terminate (read_into sc (b ∷ new)) (length (b ∷ new))) ctx
          >>= λ r. some r.0)
  unfolding socket_handle_client
  handle_early sc b new ctx h fits old =
      let inside : ltb sc.line_offset linebuffer_size ≡ true = lt→ltb _ _ h.room in
      let full : is_line_complete (read_into sc (b ∷ new)) ≡ true =
        is_line_complete-read_into sc (b ∷ new) h fits
        ∙ rw old
            (elim (Bool-cases (has_newline (b ∷ new))) [ inl e ↦ rw e refl | inr e ↦ rw e refl ]) in
      rw inside (handle_bytes_complete sc (b ∷ new) ctx full)
