-- ===== src/Jsonrpc/Requests.antt =====
-- src/jsonrpc.c: `jsonrpc_parse_string`, against a description of the requests it accepts.
use snapcastc.Jsonrpc.Members.{
  same_prefix-split, same_prefix-append, AreMembers, IsId, parameters_of-AreMembers,
  AreMembers-unique, parse_id-IsId, IsId-unique, strcopy_sound, strcopy_complete,
}
use snapcastc.Base.{
  subst, ◌++◌, ◌∷◌, [], some_inj, bind-eq-some, ◌∙◌, sym, ap, true, refl, ◌≢◌, Bool-cases, ℕ, ◌≡◌,
  ◌↔◌, inl, inr, List, Option, none, some, Option-cases,
}
use snapcastc.Base.Int.{ℤ}
use snapcastc.Text.{same_prefix, Text, codes}
use snapcastc.Jsonrpc.{
  put_again, is_null, is_object, parse_params, strcopy_from_json, parse_id, version_text, JsonC,
  JsonType, json_object, json_null, json_boolean, json_double, json_int, json_array, json_string,
  Parameter, Request, refused, parsed, parse_request, parse_tokens, jsonrpc_parse_string,
}

object_type : (t : JsonType) → is_object t ≡ true → t ≡ json_object
unfolding is_object
object_type json_object h = refl
object_type json_null h = cc
object_type json_boolean h = cc
object_type json_double h = cc
object_type json_int h = cc
object_type json_array h = cc
object_type json_string h = cc

parsed_inj : {a b : Request} → parsed a ≡ parsed b → a ≡ b
parsed_inj {a = a} h = ap (λ p. elim p [ refused ↦ a | parsed r ↦ r ]) h

module _ (J : JsonC) where
  -- Of the parameters: there are none, or they are the members of an object.
  abbrev pub AreParams : Option J.Json → List Parameter → Type 0
  AreParams none ps = ps ≡ []
  AreParams (some params) ps =
      (J.get_type params ≡ json_object) × AreMembers J params (J.entries params) ps

  -- What makes a JSON value the request `r`. The text of its version begins with "2.0" in quotes; the
  -- method is the text of the member without its first and last byte; a request without an id has
  -- the id 0.
  pub record IsRequest (root : J.Json) (r : Request) : Type 0 where
    pub version : J.Json
    pub has_version : J.object_get root (codes "jsonrpc") ≡ some version
    pub is_version : (rest : Text) × (J.to_text version ≡ 34 ∷ 50 ∷ 46 ∷ 48 ∷ 34 ∷ rest)
    pub method : J.Json
    pub has_method : J.object_get root (codes "method") ≡ some method
    pub is_method : (first last : ℕ) × (J.to_text method ≡ first ∷ (r.method ++ last ∷ []))
    pub is_id : IsId J (J.object_get root (codes "id")) r.id
    pub are_params : AreParams (J.object_get root (codes "params")) r.parameters

  put_again-ne-parsed : (member : J.Json) (r : Request) → put_again J member ≢ some (parsed r)
  unfolding put_again
  put_again-ne-parsed member r h = elim (Bool-cases (is_null (J.get_type member))) [
    | inl e ↦ let no = rw (put_again, e) at h in cc
    | inr e ↦ let no = rw (put_again, e) at h in cc
  ]

  params_sound :
      (id : ℤ) (method : Text) (params : Option J.Json) (r : Request)
      → parse_params J id method params ≡ some (parsed r)
      → (r.id ≡ id) × (r.method ≡ method) × AreParams params r.parameters
  unfolding parse_params is_object
  params_sound id method none r h =
      let e = parsed_inj (some_inj h) in
      (ap (λ r. r.id) (sym e), ap (λ r. r.method) (sym e), ap (λ r. r.parameters) (sym e))
  params_sound id method (some params) r h = elim (Bool-cases (is_object (J.get_type params))) [
    | inl o ↦
        let e = parsed_inj (some_inj (rw (parse_params, o) at h)) in
        let members = J.entries params in
        (
          ap (λ r. r.id) (sym e),
          ap (λ r. r.method) (sym e),
          (
            object_type (J.get_type params) o,
            subst (AreMembers J params members) (ap (λ r. r.parameters) e)
                (parameters_of-AreMembers J params members),
          ),
        )
    | inr o ↦ absurd (put_again-ne-parsed params r (rw (parse_params, o) at h))
  ]

  params_complete :
      (id : ℤ) (params : Option J.Json) (r : Request)
      → r.id ≡ id
      → AreParams params r.parameters
      → parse_params J id r.method params ≡ some (parsed r)
  unfolding parse_params is_object
  params_complete id none r i p =
      λ k. some (parsed (record { id = sym i k; method = r.method; parameters = sym p k }))
  params_complete id (some params) r i p =
      let same = AreMembers-unique J params (J.entries params) r.parameters p.1 in
      rw (parse_params, p.0)
        (λ k. some (parsed (record { id = sym i k; method = r.method; parameters = sym same k })))

  refused-ne-parsed : (r : Request) → some refused ≢ some (parsed r)
  refused-ne-parsed r h = cc

  request_sound :
      (root : J.Json) (r : Request)
      → parse_request J root
          (J.object_get root (codes "jsonrpc"))
          (J.object_get root (codes "method"))
        ≡ some (parsed r)
      → IsRequest root r
  unfolding parse_request
  request_sound root r h = elim (Option-cases (J.object_get root (codes "jsonrpc"))) [
    | inl e ↦ absurd (refused-ne-parsed r (rw (parse_request, e) at h))
    | inr (version, ev) ↦ elim (Option-cases (J.object_get root (codes "method"))) [
      | inl e ↦ absurd (put_again-ne-parsed version r (rw (parse_request, ev, e) at h))
      | inr (method, em) ↦ elim (Bool-cases (same_prefix version_text (J.to_text version) 5)) [
        | inl good ↦
            let id = J.object_get root (codes "id") in
            let params = J.object_get root (codes "params") in
            let (name, copied, last) =
              bind-eq-some (strcopy_from_json J method)
                (λ name. parse_params J (parse_id J id) name params)
                (rw (parse_request, ev, em, good) at h) in
            let found = params_sound (parse_id J id) name params r last in
            record {
              version = version;
              has_version = ev;
              is_version = same_prefix-split version_text (J.to_text version) good;
              method = method;
              has_method = em;
              is_method = strcopy_sound J method r.method (copied ∙ ap some (sym found.1));
              is_id = subst (IsId J id) (sym found.0) (parse_id-IsId J id);
              are_params = found.2;
            }
        | inr bad ↦ absurd (refused-ne-parsed r (rw (parse_request, ev, em, bad) at h))
      ]
    ]
  ]

  request_complete :
      (root : J.Json) (r : Request)
      → IsRequest root r
      → parse_request J root
          (J.object_get root (codes "jsonrpc"))
          (J.object_get root (codes "method"))
        ≡ some (parsed r)
  unfolding parse_request
  request_complete root r q =
      let (rest, begins) = q.is_version in
      let (first, last, named) = q.is_method in
      let version : same_prefix version_text (J.to_text q.version) 5 ≡ true =
        ap (λ t. same_prefix version_text t 5) begins ∙ same_prefix-append version_text rest in
      let id = J.object_get root (codes "id") in
      rw
        (
          q.has_version,
          q.has_method,
          parse_request,
          version,
          strcopy_complete J q.method r.method first last named,
        )
        (params_complete (parse_id J id) (J.object_get root (codes "params")) r
          (IsId-unique J id r.id q.is_id) q.are_params)

  -- A line that is not empty is parsed to a request exactly if json-c reads a value from it, and this
  -- value has a version that begins with "2.0" in quotes, a method, whose text is the request's between
  -- two more bytes, the request's id or, where this is 0, perhaps none, and as parameters none or an
  -- object, whose members are the request's parameters in their order, each with its name, its type and
  -- what json-c makes of it for this type.
  pub jsonrpc_parse_string_correct :
      (b : ℕ) (line : Text) (r : Request)
      → (jsonrpc_parse_string J (b ∷ line) ≡ some (parsed r))
        ↔ ((root : J.Json) × (J.tokener_parse (b ∷ line) ≡ some root) × IsRequest root r)
  unfolding jsonrpc_parse_string parse_tokens
  jsonrpc_parse_string_correct b line r = (
    λ h. elim (Option-cases (J.tokener_parse (b ∷ line))) [
      | inl e ↦ absurd (refused-ne-parsed r (rw (parse_tokens, e) at h))
      | inr (root, e) ↦ (root, e, request_sound root r (rw (parse_tokens, e) at h))
    ],
    λ (root, e, q). rw e (request_complete root r q),
  )
