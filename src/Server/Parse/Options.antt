-- ===== src/Server/Parse/Options.antt =====
-- src/stream.c: the loop of `stream_parse` sets the options one after the other.
use snapcastc.Base.{
  ◌≤◌, ℕ, zero, suc, ◌<◌, ◌>>=◌, Bool, true, false, List, [], ◌∷◌, ◌++◌, Option, none, some, ◌≡◌,
  refl, if◌then◌else◌, ap, ◌∙◌, sym, arith, length, length-append, bind-eq-some, some_inj,
  Bool-cases, Option-cases, inl, inr,
}
use snapcastc.Text.{Text, codes, same_text}
use snapcastc.Server.{StreamRecord}
use snapcastc.Server.Parse.{
  skip, token_of, strtok_r, cut, set_sampleformat, set_samplesize, set_channels, set_option,
  parse_codec, parse_options, atol,
}
use snapcastc.Server.Parse.Tokens.{Lacks, next_word, last_word, token_of-context, strtok_r-context}

pub record Setting : Type 0 where
  pub key : Text
  pub value : Text

-- A word is not empty, and has neither "&" nor "=".
abbrev pub IsWord : Text → Type 0
IsWord [] = ⊥
IsWord (x ∷ s) = Lacks 38 (x ∷ s) × Lacks 61 (x ∷ s)

abbrev pub AreWords : List Setting → Type 0
AreWords [] = Unit
AreWords (o ∷ settings) = IsWord o.key × IsWord o.value × AreWords settings

abbrev pub text_of : Setting → Text
text_of o = o.key ++ 61 ∷ o.value

-- The options as they are written, with "&" between them.
abbrev pub written : List Setting → Text
written [] = []
written (o ∷ []) = text_of o
written (o ∷ p ∷ settings) = text_of o ++ 38 ∷ written (p ∷ settings)

-- Each option is set, up to the first that is not known.
abbrev pub set_all : List Setting → StreamRecord → Option (Bool × StreamRecord)
set_all [] s = some (true, s)
set_all (o ∷ settings) s = set_option s o.key (some o.value) (some []) >>= λ r.
    if r.0 then set_all settings r.2 else some (false, r.2)

channels-context :
    (s : StreamRecord) (samples size : ℕ) (context : Option Text) (r : Option Text × StreamRecord)
    → set_channels s samples size context ≡ some r
    → (c : Text) × (r.0 ≡ some c)
unfolding set_channels
channels-context s samples size context r h = elim (Option-cases (strtok_r 58 none context)) [
  | inl e ↦ let no : none ≡ some r = rw (set_channels, e) at h in absurd cc
  | inr (last, e) ↦ elim (Option-cases (last.0 >>= atol)) [
    | inl e' ↦ let no : none ≡ some r = rw (set_channels, e, e') at h in absurd cc
    | inr (n, e') ↦
        let c = strtok_r-context 58 none context last e in
        (c.0, ap (λ p. p.0) (sym (some_inj (rw (set_channels, e, e') at h))) ∙ c.1)
  ]
]

samplesize-context :
    (s : StreamRecord) (samples : ℕ) (context : Option Text) (r : Option Text × StreamRecord)
    → set_samplesize s samples context ≡ some r
    → (c : Text) × (r.0 ≡ some c)
unfolding set_samplesize
samplesize-context s samples context r h = elim (Option-cases (strtok_r 58 none context)) [
  | inl e ↦ let no : none ≡ some r = rw (set_samplesize, e) at h in absurd cc
  | inr (bits, e) ↦ elim (Option-cases (bits.0 >>= atol)) [
    | inl e' ↦ let no : none ≡ some r = rw (set_samplesize, e, e') at h in absurd cc
    | inr (n, e') ↦ channels-context s samples n bits.1 r (rw (set_samplesize, e, e') at h)
  ]
]

sampleformat-context :
    (s : StreamRecord) (value : Option Text) (r : Option Text × StreamRecord)
    → set_sampleformat s value ≡ some r
    → (c : Text) × (r.0 ≡ some c)
unfolding set_sampleformat
sampleformat-context s value r h = elim (Option-cases (strtok_r 58 value none)) [
  | inl e ↦ let no : none ≡ some r = rw (set_sampleformat, e) at h in absurd cc
  | inr (rate, e) ↦ elim (Option-cases (rate.0 >>= atol)) [
    | inl e' ↦ let no : none ≡ some r = rw (set_sampleformat, e, e') at h in absurd cc
    | inr (n, e') ↦ samplesize-context s n rate.1 r (rw (set_sampleformat, e, e') at h)
  ]
]

Lacks-append : (d : ℕ) (a b : Text) → Lacks d a → Lacks d b → Lacks d (a ++ b)
Lacks-append d [] b h k = k
Lacks-append d (x ∷ a) b h k = (h.0, Lacks-append d a b h.1 k)

sampleformat-kept :
    (s : StreamRecord) (value : Option Text) (c : Text) (r : Bool × Option Text × StreamRecord)
    → (set_sampleformat s value >>= λ p. some (true, p.0, p.1)) ≡ some r
    → (c' : Text) × (r.1 ≡ some c')
sampleformat-kept s value c r h =
    let parts = bind-eq-some (set_sampleformat s value) (λ p. some (true, p.0, p.1)) h in
    let context = sampleformat-context s value parts.0 parts.1 in
    (context.0, ap (λ p. p.1) (sym (some_inj parts.2)) ∙ context.1)

-- An option that needs its value keeps the context.
context_kept :
    {A : Type 0} (o : Option A) (set : A → StreamRecord) (c : Text)
    (r : Bool × Option Text × StreamRecord)
    → (o >>= λ a. some (true, some c, set a)) ≡ some r
    → (c' : Text) × (r.1 ≡ some c')
context_kept none set c r h = absurd cc
context_kept (some a) set c r h = (c, ap (λ p. p.1) (sym (some_inj h)))

set_option-context :
    (s : StreamRecord) (key : Text) (value : Option Text) (c : Text)
    (r : Bool × Option Text × StreamRecord)
    → set_option s key value (some c) ≡ some r
    → (c' : Text) × (r.1 ≡ some c')
unfolding set_option
set_option-context s key value c r h = elim (Bool-cases (same_text key (codes "buffer_ms"))) [
  | inl e ↦
      context_kept (value >>= atol)
        (λ n. record s { inputpipe = record s.inputpipe { read_ms = n } }) c r
        (rw (set_option, e) at h)
  | inr e ↦ elim (Bool-cases (same_text key (codes "codec"))) [
    | inl e' ↦
        context_kept value (λ v. record s { codec = parse_codec v }) c r
          (rw (set_option, e, e') at h)
    | inr e' ↦ elim (Bool-cases (same_text key (codes "name"))) [
      | inl e'' ↦
          context_kept value (λ v. record s { name = v }) c r (rw (set_option, e, e', e'') at h)
      | inr e'' ↦ elim (Bool-cases (same_text key (codes "sampleformat"))) [
        | inl f ↦ sampleformat-kept s value c r (rw (set_option, e, e', e'', f) at h)
        | inr f ↦ (c, ap (λ p. p.1) (sym (some_inj (rw (set_option, e, e', e'', f) at h))))
      ]
    ]
  ]
]

word-parts : (t : Text) → IsWord t → (0 < length t) × Lacks 38 t × Lacks 61 t
word-parts [] h = elim h [ ]
word-parts (x ∷ t) h = (omega arith, h.0, h.1)

text_of-parts :
    (o : Setting) → IsWord o.key → IsWord o.value → (0 < length (text_of o)) × Lacks 38 (text_of o)
text_of-parts o k v =
    let key = word-parts o.key k in
    let value = word-parts o.value v in
    (
      omega (arith, length-append o.key (61 ∷ o.value)),
      Lacks-append 38 o.key (61 ∷ o.value) key.1 (refl, value.1),
    )

option_token :
    (o : Setting) (settings : List Setting)
    → IsWord o.key
    → IsWord o.value
    → token_of 38 (skip 38 (written (o ∷ settings))) ≡ (some (text_of o), some (written settings))
option_token o [] k v = let parts = text_of-parts o k v in last_word 38 (text_of o) parts.0 parts.1
option_token o (p ∷ settings) k v =
    let parts = text_of-parts o k v in
    (next_word 38 (text_of o) (written (p ∷ settings)) parts.0 parts.1).0

-- The parts of a round of the loop, from what each call of `strtok_r` gives on.
abbrev go_on : ℕ → Option Text → Bool × Option Text × StreamRecord → Option (Bool × StreamRecord)
go_on fuel rest r = if r.0 then parse_options fuel r.2 rest r.1 else some (false, r.2)

abbrev with_value :
    ℕ → StreamRecord → Option Text → Text → Option Text × Option Text → Option (Bool × StreamRecord)
with_value fuel s rest token value = set_option s token value.0 value.1 >>= go_on fuel rest

abbrev with_key :
    ℕ → StreamRecord → Option Text → Text → Option Text × Option Text → Option (Bool × StreamRecord)
with_key fuel s rest token key = strtok_r 61 none key.1 >>= with_value fuel s rest (cut 61 token)

abbrev with_option :
    ℕ → StreamRecord → Option Text → Option Text × Option Text → Option (Bool × StreamRecord)
with_option fuel s values option = strtok_r 61 option.0 values >>= λ key.
    strtok_r 61 none key.1 >>= λ value. elim option.0 [
      | none ↦ some (true, s)
      | some token ↦ with_value fuel s option.1 (cut 61 token) value
    ]

-- One round of the loop.
option_step :
    (fuel : ℕ) (s : StreamRecord) (o : Setting) (settings : List Setting) (values : Option Text)
    → IsWord o.key
    → IsWord o.value
    → parse_options (suc fuel) s (some (written (o ∷ settings))) values ≡ (
        set_option s o.key (some o.value) (some []) >>= λ r.
        if r.0 then parse_options fuel r.2 (some (written settings)) r.1 else some (false, r.2))
unfolding parse_options strtok_r
option_step fuel s o settings values k v =
    let key = word-parts o.key k in
    let value = word-parts o.value v in
    let pair = next_word 61 o.key o.value key.0 key.2 in
    let rest = some (written settings) in
    ap (with_option fuel s values) (option_token o settings k v)
    ∙ ap (with_key fuel s rest (text_of o)) pair.0
    ∙ ap (with_value fuel s rest (cut 61 (text_of o))) (last_word 61 o.value value.0 value.2)
    ∙ ap (λ t. with_value fuel s rest t (some o.value, some [])) pair.1

no_option :
    (fuel : ℕ) (s : StreamRecord) (c : Text)
    → parse_options (suc fuel) s (some []) (some c) ≡ some (true, s)
unfolding parse_options strtok_r
no_option fuel s c = let context = token_of-context 61 (skip 61 c) in rw (context.1) refl

-- After the round of one option the rest is done, where the loop does the rest for every stream.
after_step :
    (settings : List Setting) (fuel : ℕ) (s : StreamRecord) (o : Setting)
    → ((s' : StreamRecord) (c : Text)
        → parse_options fuel s' (some (written settings)) (some c) ≡ set_all settings s')
    → (set_option s o.key (some o.value) (some []) >>= go_on fuel (some (written settings)))
      ≡ set_all (o ∷ settings) s
after_step settings fuel s o rest =
    elim (Option-cases (set_option s o.key (some o.value) (some []))) [
      | inl e ↦ rw e refl
      | inr (r, e) ↦
          let context = set_option-context s o.key (some o.value) [] r e in
          rw e (
            ap
              (λ v.
                if r.0
                then parse_options fuel r.2 (some (written settings)) v
                else some (false, r.2))
              context.1
            ∙ ap (λ p. if r.0 then p else some (false, r.2)) (rest r.2 context.0))
    ]

options_set :
    (settings : List Setting) (fuel : ℕ) (s : StreamRecord) (c : Text)
    → AreWords settings
    → length settings < fuel
    → parse_options fuel s (some (written settings)) (some c) ≡ set_all settings s
options_set settings zero s c w enough = absurd (omega (arith, enough))
options_set [] (suc fuel) s c w enough = no_option fuel s c
options_set (o ∷ settings) (suc fuel) s c w enough =
    option_step fuel s o settings (some c) w.0 w.1
    ∙ after_step settings fuel s o
        (λ s' c'. options_set settings fuel s' c' w.2 (omega (arith, enough)))

-- With a round for each option and one more, the loop sets all options, whatever the context of the
-- values is at first.
pub parse_options-written :
    (o : Setting) (settings : List Setting) (fuel : ℕ) (s : StreamRecord) (values : Option Text)
    → AreWords (o ∷ settings)
    → length settings < fuel
    → parse_options (suc fuel) s (some (written (o ∷ settings))) values ≡ set_all (o ∷ settings) s
parse_options-written o settings fuel s values w enough =
    option_step fuel s o settings values w.0 w.1
    ∙ after_step settings fuel s o (λ s' c. options_set settings fuel s' c w.2 enough)

pub length-written : (settings : List Setting) → length settings ≤ length (written settings)
length-written [] = omega arith
length-written (o ∷ []) = omega (arith, length-append o.key (61 ∷ o.value))
length-written (o ∷ p ∷ settings) =
    omega (
      arith,
      length-append (text_of o) (38 ∷ written (p ∷ settings)),
      length-written (p ∷ settings),
    )
