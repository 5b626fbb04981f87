-- ===== src/Jsonrpc/Members.antt =====
-- src/jsonrpc.c: what becomes of the members of a request, described without the code.
use snapcastc.Base.{
  length, length-append, take, drop, take-append, get_or, ltb, false, ◌-◌, ◌++◌, ◌∷◌, [], ==_self,
  if◌then◌else◌, arith, some_inj, ◌∙◌, sym, ap, true, refl, ℕ, ◌≡◌, List, Option, none, some,
}
use snapcastc.Base.Perms.{take-append_last}
use snapcastc.Base.Int.{pos, ℤ}
use snapcastc.Text.{same_prefix, Text, codes}
use snapcastc.Jsonrpc.{
  Value, unset, bvalue, dnumber, number, json_text, string, value_of, text_of_found, parameters_of,
  strcopy_from_json, parse_id, JsonC, JsonType, json_object, json_null, json_boolean, json_double,
  json_int, json_array, json_string, Parameter,
}

pub same_prefix-split :
    (a t : Text) → same_prefix a t (length a) ≡ true → (rest : Text) × (t ≡ a ++ rest)
unfolding same_prefix
same_prefix-split [] t h = (t, refl)
same_prefix-split (x ∷ a) [] h = absurd cc
same_prefix-split (x ∷ a) (y ∷ t) h =
    let same : y ≡ x = ground arith in
    let more : same_prefix a t (length a) ≡ true = ground arith in
    let (rest, e) = same_prefix-split a t more in (rest, λ i. same i ∷ e i)

pub same_prefix-append : (a rest : Text) → same_prefix a (a ++ rest) (length a) ≡ true
unfolding same_prefix
same_prefix-append [] rest = refl
same_prefix-append (x ∷ a) rest = rw (==_self x) (same_prefix-append a rest)

-- The text between the first byte and the last of a text.
inner :
    (text name : Text)
    → (if ltb (length text) 2 then none else some (take (length text - 2) (drop 1 text)))
      ≡ some name
    → (first last : ℕ) × (text ≡ first ∷ (name ++ last ∷ []))
inner [] name h = absurd cc
inner (x ∷ []) name h = absurd cc
inner (x ∷ y ∷ u) name h =
    let long : ltb (length (x ∷ y ∷ u)) 2 ≡ false = ground arith in
    let less : length (x ∷ y ∷ u) - 2 ≡ length u = omega arith in
    let e = ap (λ n. take n (y ∷ u)) (sym less) ∙ some_inj (rw long at h) in
    let last = get_or (y ∷ u) (length u) 0 in
    (
      x,
      last,
      ap (λ t. x ∷ t)
          (sym (take-append_last (length u) (y ∷ u) 0 refl) ∙ ap (λ t. t ++ last ∷ []) e),
    )

module _ (J : JsonC) where
  -- The text that the union of a parameter holds for an object: as json-c writes the member of this
  -- name, and "null" where there is none.
  abbrev pub IsWritten : Option J.Json → Text → Type 0
  IsWritten none text = text ≡ codes "null"
  IsWritten (some member) text = text ≡ J.spaced member

  -- What a member of each type becomes.
  abbrev pub HasValue : J.Json → Text → J.Json → JsonType → Value → Type 0
  HasValue params key val json_null v = v ≡ unset
  HasValue params key val json_boolean v = v ≡ bvalue (J.get_boolean val)
  HasValue params key val json_double v = v ≡ dnumber (J.get_double val)
  HasValue params key val json_int v = v ≡ number (J.get_int val)
  HasValue params key val json_object v =
      (text : Text) × (v ≡ json_text text) × IsWritten (J.object_get params key) text
  HasValue params key val json_array v = v ≡ unset
  HasValue params key val json_string v = v ≡ string (J.get_string val)

  -- One parameter for each member, in their order, with the member's name and type.
  abbrev pub AreMembers : J.Json → List (Text × J.Json) → List Parameter → Type 0
  AreMembers params [] [] = Unit
  AreMembers params [] (p ∷ ps) = ⊥
  AreMembers params (m ∷ members) [] = ⊥
  AreMembers params (m ∷ members) (p ∷ ps) =
      (p.name ≡ m.0)
      × (p.type ≡ J.get_type m.1)
      × HasValue params m.0 m.1 (J.get_type m.1) p.value
      × AreMembers params members ps

  abbrev pub IsId : Option J.Json → ℤ → Type 0
  IsId none id = id ≡ pos 0
  IsId (some v) id = id ≡ J.get_int v

  text_of_found-IsWritten : (o : Option J.Json) → IsWritten o (text_of_found J o)
  unfolding text_of_found
  text_of_found-IsWritten none = refl
  text_of_found-IsWritten (some v) = refl

  IsWritten-unique : (o : Option J.Json) (text : Text) → IsWritten o text → text ≡ text_of_found J o
  unfolding text_of_found
  IsWritten-unique none text h = h
  IsWritten-unique (some v) text h = h

  value_of-HasValue :
      (params val : J.Json) (key : Text) (t : JsonType)
      → HasValue params key val t (value_of J params key val t)
  unfolding value_of
  value_of-HasValue params val key json_null = refl
  value_of-HasValue params val key json_boolean = refl
  value_of-HasValue params val key json_double = refl
  value_of-HasValue params val key json_int = refl
  value_of-HasValue params val key json_object =
      let o = J.object_get params key in (text_of_found J o, refl, text_of_found-IsWritten o)
  value_of-HasValue params val key json_array = refl
  value_of-HasValue params val key json_string = refl

  HasValue-unique :
      (params val : J.Json) (key : Text) (t : JsonType) (v : Value)
      → HasValue params key val t v
      → v ≡ value_of J params key val t
  unfolding value_of
  HasValue-unique params val key json_null v h = h
  HasValue-unique params val key json_boolean v h = h
  HasValue-unique params val key json_double v h = h
  HasValue-unique params val key json_int v h = h
  HasValue-unique params val key json_object v h =
      h.1 ∙ ap json_text (IsWritten-unique (J.object_get params key) h.0 h.2)
  HasValue-unique params val key json_array v h = h
  HasValue-unique params val key json_string v h = h

  pub parameters_of-AreMembers :
      (params : J.Json) (members : List (Text × J.Json))
      → AreMembers params members (parameters_of J params members)
  unfolding parameters_of
  parameters_of-AreMembers params [] = tt
  parameters_of-AreMembers params ((key, val) ∷ members) = (
    refl,
    refl,
    value_of-HasValue params val key (J.get_type val),
    parameters_of-AreMembers params members,
  )

  pub AreMembers-unique :
      (params : J.Json) (members : List (Text × J.Json)) (ps : List Parameter)
      → AreMembers params members ps
      → ps ≡ parameters_of J params members
  unfolding parameters_of
  AreMembers-unique params [] [] h = refl
  AreMembers-unique params [] (p ∷ ps) h = absurd h
  AreMembers-unique params (m ∷ members) [] h = absurd h
  AreMembers-unique params ((key, val) ∷ members) (p ∷ ps) (name, type, value, rest) =
      let v = HasValue-unique params val key (J.get_type val) p.value value in
      let others = AreMembers-unique params members ps rest in
      λ i. record { type = type i; name = name i; value = v i } ∷ others i

  pub parse_id-IsId : (o : Option J.Json) → IsId o (parse_id J o)
  unfolding parse_id
  parse_id-IsId none = refl
  parse_id-IsId (some v) = refl

  pub IsId-unique : (o : Option J.Json) (id : ℤ) → IsId o id → id ≡ parse_id J o
  unfolding parse_id
  IsId-unique none id h = h
  IsId-unique (some v) id h = h

  pub strcopy_sound :
      (method : J.Json) (name : Text)
      → strcopy_from_json J method ≡ some name
      → (first last : ℕ) × (J.to_text method ≡ first ∷ (name ++ last ∷ []))
  unfolding strcopy_from_json
  strcopy_sound method name h = inner (J.to_text method) name h

  pub strcopy_complete :
      (method : J.Json) (name : Text) (first last : ℕ)
      → J.to_text method ≡ first ∷ (name ++ last ∷ [])
      → strcopy_from_json J method ≡ some name
  unfolding strcopy_from_json
  strcopy_complete method name first last e =
      let u = name ++ last ∷ [] in
      let longer = length-append name (last ∷ []) in
      let long : ltb (length (first ∷ u)) 2 ≡ false = ground (arith, longer) in
      let all : length (first ∷ u) - 2 ≡ length name = omega (arith, longer) in
      rw (e, long, all) (ap some (take-append name (last ∷ []) (length name) refl))
