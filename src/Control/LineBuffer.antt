-- ===== src/Control/LineBuffer.antt =====
-- src/socket.c: `socket_handle_client`, the line buffer of a connection.
use snapcastc.Base.{
  none, ◌<◌, inl, inr, true, ◌-◌, some_inj, bind-eq-some, ◌==◌, ℕ, ◌≤◌, ◌≡◌, sym, ap, false, [],
  ◌∷◌, some, length, Bool-cases,
}
use snapcastc.Base.Int.{ℤ, pos, negsuc}
use snapcastc.Text.{c_string}
use snapcastc.Jsonrpc.{JsonC, Value, Parse, Request, refused, parsed, jsonrpc_parse_string}
use snapcastc.Control.{ControlCtx}
use snapcastc.Control.Status.{System}
use snapcastc.Control.Socket.{
  is_line_complete, terminate, linebuffer_size, SocketClient, SocketRead, again, failed, bytes,
  read_into, is_negative, handle_request, handle_line, handle_parsed,
}

-- The buffer has its size, and there is room for a zero at the end.
pub record IsLineBuffer (sc : SocketClient) : Type 0 where
  pub size : length sc.line ≡ linebuffer_size
  pub room : sc.line_offset < linebuffer_size

-- What `read` promises: not more bytes than it has been asked for.
abbrev pub FitsLine : SocketClient → SocketRead → Type 0
FitsLine sc again = Unit
FitsLine sc failed = Unit
FitsLine sc (bytes new) = length new ≤ linebuffer_size - sc.line_offset - 1

-- What the caller is told: to close the connection after an error and at the end, else to keep it.
abbrev pub answer : SocketRead → ℤ
answer again = pos 0
answer failed = negsuc 0
answer (bytes []) = negsuc 0
answer (bytes (b ∷ new)) = pos 0

module _ (J : JsonC) (sys : System) (low_bits : Value → ℤ) where
  handle_request-answer :
      (request : Request) (fd : ℕ) (ctx : ControlCtx J) {r : ControlCtx J × ℤ}
      → handle_request J sys low_bits request fd ctx ≡ some r
      → is_negative r.1 ≡ false
  unfolding handle_request
  handle_request-answer request fd ctx h =
      let (ctx', _, last) = bind-eq-some _ (λ c. some (c, pos 1)) h in
      ap (λ r. is_negative r.1) (sym (some_inj last))

  handle_parsed-answer :
      (parse : Parse) (fd : ℕ) (ctx : ControlCtx J) {r : ControlCtx J × ℤ}
      → handle_parsed J sys low_bits parse fd ctx ≡ some r
      → is_negative r.1 ≡ false
  handle_parsed-answer refused fd ctx h = ap (λ r. is_negative r.1) (sym (some_inj h))
  handle_parsed-answer (parsed request) fd ctx h = handle_request-answer request fd ctx h

  -- No line makes the handler give a negative answer.
  pub handle_line-answer :
      (sc : SocketClient) (ctx : ControlCtx J) {r : ControlCtx J × ℤ}
      → handle_line J sys low_bits sc ctx ≡ some r
      → is_negative r.1 ≡ false
  unfolding handle_line
  handle_line-answer sc ctx h = elim (Bool-cases (length (c_string sc.line) == 0)) [
    | inl e ↦ ap (λ r. is_negative r.1) (sym (some_inj (rw (handle_line, e) at h)))
    | inr e ↦
        let (parse, _, last) =
          bind-eq-some (jsonrpc_parse_string J (c_string sc.line))
            (λ parse. handle_parsed J sys low_bits parse sc.fd ctx) (rw (handle_line, e) at h) in
        handle_parsed-answer parse sc.fd ctx last
  ]

  -- The read completes a line, and the handling of this line does not return.
  abbrev pub Crashes : SocketClient → SocketRead → ControlCtx J → Type 0
  Crashes sc again ctx = ⊥
  Crashes sc failed ctx = ⊥
  Crashes sc (bytes new) ctx =
      (0 < length new)
      × (is_line_complete (read_into sc new) ≡ true)
      × (handle_line J sys low_bits (terminate (read_into sc new) (length new)) ctx ≡ none)
