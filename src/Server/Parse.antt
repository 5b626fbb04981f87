-- ===== src/Server/Parse.antt =====
-- src/stream.c: the text that describes a stream, as in "pipe:///tmp/fifo?name=default&buffer_ms=20".
-- A pointer to a text that may be NULL is an Option. `none` as a result is a use of NULL, a negative
-- number, or a loop that does not end. The encoder, which the last statement opens, is left out.
pub mod Tokens
pub mod Options
pub mod Streams
use snapcastc.Base.{
  ◌>>=◌, ℕ, zero, suc, ◌+◌, ◌-◌, ◌*◌, ◌/◌, ◌==◌, Bool, true, false, ◌&&◌, ◌||◌, List, [], ◌∷◌, ◌++◌,
  take, Option, none, some, ltb, if◌then◌else◌, length,
}
use snapcastc.Text.{Text, codes, same_text, same_prefix}
use snapcastc.Server.{StreamRecord}

-- The text behind the bytes `d` at its beginning.
unfoldable pub skip : ℕ → Text → Text
skip d [] = []
skip d (x ∷ s) = if x == d then skip d s else x ∷ s

-- The text before the first `d`, and behind it.
unfoldable pub before : ℕ → Text → Text
before d [] = []
before d (x ∷ s) = if x == d then [] else x ∷ before d s

unfoldable pub behind : ℕ → Text → Text
behind d [] = []
behind d (x ∷ s) = if x == d then s else behind d s

-- The next token, and the text behind it.
unfoldable pub token_of : ℕ → Text → Option Text × Option Text
token_of d [] = (none, some [])
token_of d (x ∷ s) = (some (before d (x ∷ s)), some (behind d (x ∷ s)))

-- `strtok_r` with one delimiter: the token, and what the context points to after the call.
unfoldable pub strtok_r : ℕ → Option Text → Option Text → Option (Option Text × Option Text)
unfolding token_of skip
strtok_r d none none = none
strtok_r d none (some context) = some (token_of d (skip d context))
strtok_r d (some text) context = some (token_of d (skip d text))

-- What stands at the beginning of a text after `strtok_r` has cut it.
unfoldable pub cut : ℕ → Text → Text
unfolding before
cut d [] = []
cut d (x ∷ s) = if x == d then x ∷ cut d s else before d (x ∷ s)

-- The number that the digits at the beginning of a text are.
unfoldable pub digits : ℕ → Text → ℕ
digits n [] = n
digits n (x ∷ s) = if ltb x 48 || ltb 57 x then n else digits (n * 10 + (x - 48)) s

unfoldable pub signed : Text → Option ℕ
unfolding digits
signed [] = some 0
signed (x ∷ s) =
    if x == 45 then none else if x == 43 then some (digits 0 s) else some (digits 0 (x ∷ s))

abbrev pub is_space : ℕ → Bool
is_space x = x == 32 || (ltb 8 x && ltb x 14)

-- `atol`
unfoldable pub atol : Text → Option ℕ
unfolding signed
atol [] = some 0
atol (x ∷ s) = if is_space x then atol s else signed (x ∷ s)

unfoldable pub parse_codec : Text → ℕ
parse_codec codec =
    if same_text codec (codes "opus") then 2 else if same_text codec (codes "pcm") then 1 else 3

-- The branch for "sampleformat", from its end: the channels, the bits of a sample, and the rate.
unfoldable pub set_channels :
    StreamRecord → ℕ → ℕ → Option Text → Option (Option Text × StreamRecord)
unfolding strtok_r atol
set_channels s samples size context = do
  last ← strtok_r 58 none context
  channels ← last.0 >>= atol
  some (
    last.1,
    record s {
      inputpipe = record s.inputpipe {
        samples = samples;
        samplesize = size / 8;
        channels = channels;
      };
    },
  )

unfoldable pub set_samplesize : StreamRecord → ℕ → Option Text → Option (Option Text × StreamRecord)
unfolding strtok_r atol set_channels
set_samplesize s samples context = do
  bits ← strtok_r 58 none context
  size ← bits.0 >>= atol
  set_channels s samples size bits.1

unfoldable pub set_sampleformat : StreamRecord → Option Text → Option (Option Text × StreamRecord)
unfolding strtok_r atol set_samplesize
set_sampleformat s value = do
  rate ← strtok_r 58 value none
  samples ← rate.0 >>= atol
  set_samplesize s samples rate.1

-- One option: whether it is known, the context of the values, and the stream.
unfoldable pub set_option :
    StreamRecord → Text → Option Text → Option Text → Option (Bool × Option Text × StreamRecord)
unfolding set_sampleformat atol parse_codec
set_option s token value context =
    if same_text token (codes "buffer_ms")
    then (value >>= atol >>= λ n.
        some (true, context, record s { inputpipe = record s.inputpipe { read_ms = n } }))
    else if same_text token (codes "codec")
    then (value >>= λ v. some (true, context, record s { codec = parse_codec v }))
    else if same_text token (codes "name")
    then (value >>= λ v. some (true, context, record s { name = v }))
    else if same_text token (codes "sampleformat")
    then (set_sampleformat s value >>= λ r. some (true, r.0, r.1))
    else some (false, context, s)

-- The loop, with the contexts of the options and of the values: whether all options are known, and
-- the stream.
unfoldable pub parse_options :
    ℕ → StreamRecord → Option Text → Option Text → Option (Bool × StreamRecord)
unfolding strtok_r set_option cut
parse_options zero s options values = none
parse_options (suc fuel) s options values = strtok_r 38 none options >>= λ option.
    strtok_r 61 option.0 values >>= λ key. strtok_r 61 none key.1 >>= λ value. elim option.0 [
      | none ↦ some (true, s)
      | some token ↦ set_option s (cut 61 token) value.0 value.1 >>= λ r.
          if r.0 then parse_options fuel r.2 option.1 r.1 else some (false, r.2)
    ]

-- `strstr` with "://", and the three bytes behind it.
unfoldable pub behind_protocol : Text → Option Text
behind_protocol [] = none
behind_protocol (x ∷ s) =
    if same_prefix (x ∷ s) (codes "://") 3
    then (elim s [ [] ↦ none | _ ∷ s' ↦ elim s' [ [] ↦ none | _ ∷ rest ↦ some rest ] ])
    else behind_protocol s

-- The text that is left of the copy, in which `strtok_r` has put an end behind the name of the file.
unfoldable pub raw_left : Text → Text → Text
unfolding cut
raw_left raw rest = take (length raw - length rest) raw ++ cut 63 rest

-- Once all options are understood the copy is whole again.
unfoldable pub restore_raw : Text → Bool × StreamRecord → Bool × StreamRecord
restore_raw raw (true, s) = (true, record s { raw = raw })
restore_raw raw (false, s) = (false, s)

unfoldable pub parse_file :
    StreamRecord → Text → Text → Option Text × Option Text → Option (Bool × StreamRecord)
unfolding parse_options
parse_file s raw rest (none, context) = none
parse_file s raw rest (some fname, context) =
    parse_options (length raw)
      (record s {
        raw = raw_left raw rest;
        protocol = 1;
        inputpipe = record s.inputpipe { fname = fname };
      })
      context none

-- The text names a pipe.
unfoldable pub parse_pipe : StreamRecord → Text → Option (Bool × StreamRecord)
unfolding behind_protocol parse_file restore_raw strtok_r
parse_pipe s raw = do
  rest ← behind_protocol raw
  file ← strtok_r 63 (some rest) none
  parsed ← parse_file s raw rest file
  some (restore_raw raw parsed)

-- The result of the call, and the stream: `true` when the text has been understood.
unfoldable pub stream_parse : StreamRecord → Text → Option (Bool × StreamRecord)
unfolding parse_pipe
stream_parse s raw =
    if same_prefix raw (codes "pipe") 4
    then parse_pipe s raw
    else some (false, record s { raw = raw })
