-- ===== src/Server/Parse/Streams.antt =====
-- src/stream.c: what `stream_parse` makes of a text.
use snapcastc.Base.{
  if◌then◌else◌, true, false, Bool, refl, ◌-◌, ◌<◌, ◌>>=◌, List, ◌∷◌, ◌++◌, none, some, ◌≡◌, ap,
  ◌∙◌, arith, length, length-append,
}
use snapcastc.Text.{Text, codes, same_prefix}
use snapcastc.Server.{StreamRecord}
use snapcastc.Server.Parse.{
  stream_parse, parse_pipe, parse_file, raw_left, restore_raw, behind_protocol, parse_options,
  strtok_r,
}
use snapcastc.Server.Parse.Tokens.{Lacks, next_word, last_word}
use snapcastc.Server.Parse.Options.{
  Setting, AreWords, written, set_all, parse_options-written, length-written,
}

-- The stream once the name of the file is known, while the options are set.
abbrev pub with_file : StreamRecord → Text → StreamRecord
with_file s fname = record s {
  raw = codes "pipe://" ++ fname;
  protocol = 1;
  inputpipe = record s.inputpipe { fname = fname };
}

raw_left-file :
    (fname options : Text)
    → 0 < length fname
    → Lacks 63 fname
    → raw_left (codes "pipe://" ++ (fname ++ 63 ∷ options)) (fname ++ 63 ∷ options)
      ≡ codes "pipe://" ++ fname
unfolding raw_left
raw_left-file fname options some_byte h =
    let rest = fname ++ 63 ∷ options in
    let seven : length (codes "pipe://" ++ rest) - length rest ≡ 7 = omega arith in
    rw (seven, (next_word 63 fname options some_byte h).1) refl

restore_raw-kept :
    (raw : Text) (r : Bool × StreamRecord)
    → restore_raw raw r ≡ (if r.0 then (true, record r.1 { raw = raw }) else (false, r.1))
unfolding restore_raw
restore_raw-kept raw (true, s) = refl
restore_raw-kept raw (false, s) = refl

-- A text "pipe://", a file name without "?", "?" and at least one option, with "&" between the options
-- and words without "&" and "=" on both sides of each "=": the call does what setting the protocol,
-- the name of the file, and then the options in their order up to the first unknown one does, and
-- fails where one of these fails. If all options are known the stream has the whole text in the end;
-- while they are set it has the text up to the end of the file name.
pub stream_parse_correct :
    (s : StreamRecord) (fname : Text) (o : Setting) (settings : List Setting)
    → 0 < length fname
    → Lacks 63 fname
    → AreWords (o ∷ settings)
    → let raw = codes "pipe://" ++ (fname ++ 63 ∷ written (o ∷ settings)) in
      stream_parse s raw ≡ (
        set_all (o ∷ settings) (with_file s fname) >>= λ r.
        some (if r.0 then (true, record r.1 { raw = raw }) else (false, r.1)))
unfolding stream_parse parse_pipe parse_file behind_protocol same_prefix strtok_r
stream_parse_correct s fname o settings some_byte h w =
    let options = written (o ∷ settings) in
    let rest = fname ++ 63 ∷ options in
    let raw = codes "pipe://" ++ rest in
    let enough : length settings < length (codes "ipe://" ++ rest) =
      omega (arith, length-written (o ∷ settings), length-append fname (63 ∷ options)) in
    ap (λ file. parse_file s raw rest file >>= λ r. some (restore_raw raw r))
      (next_word 63 fname options some_byte h).0
    ∙ ap
        (λ t.
          parse_options (length raw) (record (with_file s fname) { raw = t }) (some options) none
          >>= λ r. some (restore_raw raw r))
        (raw_left-file fname options some_byte h)
    ∙ ap (λ p. p >>= λ r. some (restore_raw raw r))
        (parse_options-written o settings (length (codes "ipe://" ++ rest)) (with_file s fname) none
          w enough)
    ∙ ap (λ f. set_all (o ∷ settings) (with_file s fname) >>= f)
        (λ i r. some (restore_raw-kept raw r i))

-- A text "pipe://" and a file name, without options, makes the program use a NULL pointer.
pub stream_parse_alone :
    (s : StreamRecord) (fname : Text)
    → 0 < length fname
    → Lacks 63 fname
    → stream_parse s (codes "pipe://" ++ fname) ≡ none
unfolding stream_parse parse_pipe parse_file behind_protocol same_prefix strtok_r parse_options
stream_parse_alone s fname some_byte h =
    let raw = codes "pipe://" ++ fname in
    ap (λ file. parse_file s raw fname file >>= λ r. some (restore_raw raw r))
      (last_word 63 fname some_byte h)
