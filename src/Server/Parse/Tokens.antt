-- ===== src/Server/Parse/Tokens.antt =====
-- src/stream.c: what `strtok_r` makes of texts whose parts are joined by a delimiter.
use snapcastc.Base.{
  arith, ℕ, ◌==◌, false, [], ◌∷◌, ◌++◌, Option, none, some, ◌≡◌, refl, length, ◌<◌, ==_self,
  some_inj, ap, ◌∙◌, sym,
}
use snapcastc.Text.{Text}
use snapcastc.Server.Parse.{skip, before, behind, token_of, strtok_r, cut}

-- No byte of the text is `d`.
abbrev pub Lacks : ℕ → Text → Type 0
Lacks d [] = Unit
Lacks d (x ∷ s) = ((x == d) ≡ false) × Lacks d s

before-append :
    (d : ℕ) (a b : Text) → Lacks d a → (before d (a ++ d ∷ b) ≡ a) × (behind d (a ++ d ∷ b) ≡ b)
unfolding before behind
before-append d [] b h = rw (==_self d) (refl, refl)
before-append d (x ∷ a) b h =
    let rest = before-append d a b h.1 in rw (h.0) (ap (λ t. x ∷ t) rest.0, rest.1)

before-all : (d : ℕ) (a : Text) → Lacks d a → (before d a ≡ a) × (behind d a ≡ [])
unfolding before behind
before-all d [] h = (refl, refl)
before-all d (x ∷ a) h = let rest = before-all d a h.1 in rw (h.0) (ap (λ t. x ∷ t) rest.0, rest.1)

-- A text that is not empty, and whose first byte is no delimiter, is a token up to the next one.
pub token_next :
    (d x : ℕ) (a b : Text)
    → Lacks d (x ∷ a)
    → token_of d (skip d (x ∷ a ++ d ∷ b)) ≡ (some (x ∷ a), some b)
unfolding token_of skip
token_next d x a b h =
    let parts = before-append d (x ∷ a) b h in rw (h.0, token_of, parts.0, parts.1) refl

pub token_last :
    (d x : ℕ) (a : Text) → Lacks d (x ∷ a) → token_of d (skip d (x ∷ a)) ≡ (some (x ∷ a), some [])
unfolding token_of skip
token_last d x a h = let parts = before-all d (x ∷ a) h in rw (h.0, token_of, parts.0, parts.1) refl

pub cut_next : (d x : ℕ) (a b : Text) → Lacks d (x ∷ a) → cut d (x ∷ a ++ d ∷ b) ≡ x ∷ a
unfolding cut before
cut_next d x a b h = rw (cut, h.0) (ap (λ t. x ∷ t) (before-append d a b h.1).0)

pub token_of-context : (d : ℕ) (s : Text) → (c : Text) × ((token_of d s).1 ≡ some c)
unfolding token_of
token_of-context d [] = ([], refl)
token_of-context d (x ∷ s) = (behind d (x ∷ s), refl)

-- After a call the context points to a text.
pub strtok_r-context :
    (d : ℕ) (text context : Option Text) (r : Option Text × Option Text)
    → strtok_r d text context ≡ some r
    → (c : Text) × (r.1 ≡ some c)
unfolding strtok_r
strtok_r-context d none none r h = absurd cc
strtok_r-context d none (some s) r h =
    let c = token_of-context d (skip d s) in (c.0, ap (λ p. p.1) (sym (some_inj h)) ∙ c.1)
strtok_r-context d (some s) context r h =
    let c = token_of-context d (skip d s) in (c.0, ap (λ p. p.1) (sym (some_inj h)) ∙ c.1)

pub next_word :
    (d : ℕ) (t b : Text)
    → 0 < length t
    → Lacks d t
    → (token_of d (skip d (t ++ d ∷ b)) ≡ (some t, some b)) × (cut d (t ++ d ∷ b) ≡ t)
next_word d [] b some_byte h = absurd (omega (arith, some_byte))
next_word d (x ∷ a) b some_byte h = (token_next d x a b h, cut_next d x a b h)

pub last_word :
    (d : ℕ) (t : Text) → 0 < length t → Lacks d t → token_of d (skip d t) ≡ (some t, some [])
last_word d [] some_byte h = absurd (omega (arith, some_byte))
last_word d (x ∷ a) some_byte h = token_last d x a h
