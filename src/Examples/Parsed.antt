-- ===== src/Examples/Parsed.antt =====
-- src/stream.c: the description of a stream.
use snapcastc.Base.{◌>>=◌, ◌≡◌, refl, arith, true, false, [], ◌∷◌, ◌++◌, none, some, if◌then◌else◌}
use snapcastc.Text.{codes, same_prefix, same_text}
use snapcastc.Server.{StreamRecord}
use snapcastc.Server.Parse.{
  stream_parse, restore_raw, set_option, set_sampleformat, set_samplesize, set_channels,
  parse_codec, strtok_r, token_of, skip, before, behind, cut, atol, signed, digits, parse_options,
  parse_pipe, parse_file, behind_protocol, raw_left,
}
use snapcastc.Server.Parse.Options.{Setting, AreWords, written, set_all}
use snapcastc.Server.Parse.Streams.{with_file, stream_parse_correct, stream_parse_alone}
use snapcastc.Examples.Servers.{stream}

abbrev named : Setting
named = record { key = codes "name"; value = codes "radio" }

abbrev timed : Setting
timed = record { key = codes "buffer_ms"; value = codes "20" }

two-AreWords : AreWords (named ∷ timed ∷ [])
two-AreWords = (
  ((refl, (refl, (refl, (refl, tt)))), (refl, (refl, (refl, (refl, tt))))),
  ((refl, (refl, (refl, (refl, (refl, tt))))), (refl, (refl, (refl, (refl, (refl, tt)))))),
  (
    (
      (refl, (refl, (refl, (refl, (refl, (refl, (refl, (refl, (refl, tt))))))))),
      (refl, (refl, (refl, (refl, (refl, (refl, (refl, (refl, (refl, tt))))))))),
    ),
    ((refl, (refl, tt)), (refl, (refl, tt))),
    tt,
  ),
)

abbrev described : StreamRecord
described = record stream {
  raw = codes "pipe:///f?buffer_ms=120&codec=opus&name=hall&sampleformat=48000:16:2";
  name = codes "hall";
  codec = 2;
  protocol = 1;
  inputpipe = record stream.inputpipe {
    fname = codes "/f";
    read_ms = 120;
    samples = 48000;
    samplesize = 2;
    channels = 2;
  };
}

-- All options that are known.
described_test :
    stream_parse stream
      (codes "pipe:///f?buffer_ms=120&codec=opus&name=hall&sampleformat=48000:16:2")
    ≡ some (true, described)
unfolding stream_parse parse_pipe parse_file behind_protocol raw_left restore_raw same_prefix
    same_text parse_options set_option set_sampleformat set_samplesize set_channels parse_codec
    strtok_r token_of skip before behind cut atol signed digits
described_test = refl

stream_parse_correct_example :
    let raw = codes "pipe://" ++ ((codes "/f") ++ 63 ∷ written (named ∷ (timed ∷ []))) in
    stream_parse stream raw ≡ (
      set_all (named ∷ (timed ∷ [])) (with_file stream (codes "/f")) >>= λ r.
      some (if r.0 then (true, record r.1 { raw = raw }) else (false, r.1)))
stream_parse_correct_example =
    stream_parse_correct stream (codes "/f") named (timed ∷ []) (omega arith) (refl, (refl, tt))
      two-AreWords

stream_parse_alone_example : stream_parse stream (codes "pipe://" ++ (codes "/f")) ≡ none
stream_parse_alone_example = stream_parse_alone stream (codes "/f") (omega arith) (refl, (refl, tt))
