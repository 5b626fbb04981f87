-- ===== src/Jsonrpc.antt =====
-- src/jsonrpc.c and jsonrpc.h: the requests of the control protocol.
-- The library json-c is a parameter: `JsonC` has the functions that the source calls. A value of it is
-- what a pointer to its objects leads to; a NULL pointer is a value of the type `json_null`. That objects
-- are counted and freed is left out, but `none` stands for a use of one that has been freed. The union of a parameter's value is
-- the member that has been written; `unset` is a union that no member has been written to.
pub mod Members
pub mod Requests
use snapcastc.Base.{
  ltb, ℕ, ◌-◌, Bool, true, false, List, [], ◌∷◌, ◌++◌, Option, none, some, if◌then◌else◌, length,
  take, drop, ◌>>=◌,
}
use snapcastc.Base.Int.{ℤ, pos}
use snapcastc.Text.{Text, codes, same_prefix}

-- `enum json_type`
pub data JsonType : Type 0 where
  json_null : JsonType
  json_boolean : JsonType
  json_double : JsonType
  json_int : JsonType
  json_object : JsonType
  json_array : JsonType
  json_string : JsonType

-- What the source calls: `to_text` is `json_object_to_json_string_ext` without flags, `spaced` is
-- `json_object_to_json_string`, `entries` what `json_object_object_foreach` walks through; a
-- double is its 64 bits.
pub record JsonC : Type 1 where
  pub Json : Type 0
  pub tokener_parse : Text → Option Json
  pub object_get : Json → Text → Option Json
  pub entries : Json → List (Text × Json)
  pub get_type : Json → JsonType
  pub get_int : Json → ℤ
  pub get_boolean : Json → Bool
  pub get_double : Json → ℕ
  pub get_string : Json → Text
  pub to_text : Json → Text
  pub spaced : Json → Text
  pub new_int : ℤ → Json
  pub new_boolean : Bool → Json
  pub new_string : Text → Json
  pub new_object : Json
  pub object_add : Json → Text → Json → Json
  pub new_array : Json
  pub array_add : Json → Json → Json

pub data Value : Type 0 where
  unset : Value
  bvalue : Bool → Value
  dnumber : ℕ → Value
  number : ℤ → Value
  json_text : Text → Value
  string : Text → Value

pub record Parameter : Type 0 where
  pub type : JsonType
  pub name : Text
  pub value : Value

pub record Request : Type 0 where
  pub id : ℤ
  pub method : Text
  pub parameters : List Parameter

-- What `jsonrpc_parse_string` returns: false, or true with the request.
pub data Parse : Type 0 where
  refused : Parse
  parsed : Request → Parse

-- `"2.0"` with its quotes
abbrev pub version_text : Text
version_text = 34 ∷ (codes "2.0" ++ 34 ∷ [])

pub is_object : JsonType → Bool
is_object json_object = true
is_object _ = false

unfoldable pub is_null : JsonType → Bool
is_null json_null = true
is_null _ = false

module _ (J : JsonC) where
  -- The JSON text without its first and last byte. `none` is a text of less than two bytes: the
  -- length to copy wraps around.
  unfoldable pub strcopy_from_json : J.Json → Option Text
  strcopy_from_json jobj =
      let text = J.to_text jobj in
      if ltb (length text) 2 then none else some (take (length text - 2) (drop 1 text))

  text_of_found : Option J.Json → Text
  text_of_found none = codes "null"
  text_of_found (some tmp) = J.spaced tmp

  -- What the union of a parameter holds.
  unfoldable pub value_of : J.Json → Text → J.Json → JsonType → Value
  unfolding text_of_found
  value_of params key val json_null = unset
  value_of params key val json_boolean = bvalue (J.get_boolean val)
  value_of params key val json_double = dnumber (J.get_double val)
  value_of params key val json_int = number (J.get_int val)
  value_of params key val json_object = json_text (text_of_found (J.object_get params key))
  value_of params key val json_array = unset
  value_of params key val json_string = string (J.get_string val)

  unfoldable pub parameters_of : J.Json → List (Text × J.Json) → List Parameter
  parameters_of params [] = []
  parameters_of params ((key, val) ∷ entries) =
      record { type = J.get_type val; name = key; value = value_of params key val (J.get_type val) }
      ∷ parameters_of params entries

  -- `json_object_put` of a member once its object is gone: a use of memory that has been freed, unless
  -- the member is null, which is a NULL pointer.
  unfoldable pub put_again : J.Json → Option Parse
  unfolding is_null
  put_again member = if is_null (J.get_type member) then some refused else none

  -- Parameters as an array are refused.
  pub parse_params : ℤ → Text → Option J.Json → Option Parse
  parse_params id method none = some (parsed (record { id = id; method = method; parameters = [] }))
  parse_params id method (some params) =
      if is_object (J.get_type params)
      then some (
          parsed (record {
            id = id;
            method = method;
            parameters = parameters_of params (J.entries params);
          }))
      else put_again params

  pub parse_id : Option J.Json → ℤ
  parse_id none = pos 0
  parse_id (some id) = J.get_int id

  -- The members that have to be there are there.
  pub parse_request : J.Json → Option J.Json → Option J.Json → Option Parse
  parse_request jobj none method = some refused
  parse_request jobj (some jsonrpc) none = put_again jsonrpc
  parse_request jobj (some jsonrpc) (some method) =
      if same_prefix version_text (J.to_text jsonrpc) 5
      then (do
        name ← strcopy_from_json method
        parse_params (parse_id (J.object_get jobj (codes "id"))) name
            (J.object_get jobj (codes "params")))
      else some refused

  unfoldable pub parse_tokens : Option J.Json → Option Parse
  parse_tokens none = some refused
  parse_tokens (some jobj) =
      parse_request jobj (J.object_get jobj (codes "jsonrpc")) (J.object_get jobj (codes "method"))

  -- `id` is 0 in the request that the caller passes.
  unfoldable pub jsonrpc_parse_string : Text → Option Parse
  jsonrpc_parse_string [] = some refused
  jsonrpc_parse_string (b ∷ line) = parse_tokens (J.tokener_parse (b ∷ line))
