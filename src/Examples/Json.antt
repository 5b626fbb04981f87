-- ===== src/Examples/Json.antt =====
-- A small json-c for the examples: objects and arrays are chains of members and of items.
use snapcastc.Control.Described.{JsonLaws}
use snapcastc.Control.Status.{System}
use snapcastc.Base.{
  ◌∙◌, ap, ◌≡◌, refl, inl, inr, Bool, true, false, List, [], ◌∷◌, ◌++◌, Option, none, some,
  Bool-cases, if◌then◌else◌, arith,
}
use snapcastc.Base.Int.{ℤ, pos}
use snapcastc.Text.{same_text_eq, Text, codes, same_text}
use snapcastc.Jsonrpc.{
  JsonC, JsonType, json_boolean, json_int, json_object, json_array, json_string,
}

pub data Node : Type 0 where
  int_node : ℤ → Node
  boolean_node : Bool → Node
  string_node : Text → Node
  object_end : Node
  member : Text → Node → Node → Node
  array_end : Node
  item : Node → Node → Node

abbrev get : Node → Text → Option Node
get (member k v rest) key = if same_text k key then some v else get rest key
get _ key = none

abbrev add : Node → Text → Node → Node
add (member k w rest) key v =
    let longer = add rest key v in if same_text k key then member key v rest else member k w longer
add _ key v = member key v object_end

abbrev entries : Node → List (Text × Node)
entries (member k v rest) = (k, v) ∷ entries rest
entries _ = []

abbrev items : Node → List Node
items (item v rest) = v ∷ items rest
items _ = []

abbrev append : Node → Node → Node
append (item w rest) v = item w (append rest v)
append _ v = item v array_end

abbrev type_of : Node → JsonType
type_of (int_node n) = json_int
type_of (boolean_node b) = json_boolean
type_of (string_node t) = json_string
type_of object_end = json_object
type_of (member k v rest) = json_object
type_of array_end = json_array
type_of (item v rest) = json_array

abbrev int_at : Node → ℤ
int_at (int_node n) = n
int_at _ = pos 0

abbrev boolean_at : Node → Bool
boolean_at (boolean_node b) = b
boolean_at _ = false

abbrev string_at : Node → Text
string_at (string_node t) = t
string_at _ = []

abbrev text_at : Node → Text
text_at (string_node t) = 34 ∷ (t ++ 34 ∷ [])
text_at _ = codes "{}"

abbrev pub loud : Node
loud =
    member (codes "percent") (int_node (pos 30))
      (member (codes "muted") (boolean_node true) object_end)

abbrev pub silent : Node
silent = member (codes "muted") (boolean_node true) object_end

abbrev pub status_request : Node
status_request = member (codes "id") (int_node (pos 5)) (
    member (codes "jsonrpc") (string_node (codes "2.0"))
      (member (codes "method") (string_node (codes "Server.GetRPCVersion")) object_end))

-- The texts that are read in the examples.
abbrev parse : Text → Option Node
parse text =
    if same_text text (codes "loud")
    then some loud
    else if same_text text (codes "silent")
    then some silent
    else if same_text text (codes "status\n")
    then some status_request
    else none

abbrev pub json : JsonC
json = record {
  Json = Node;
  tokener_parse = parse;
  object_get = get;
  entries = entries;
  get_type = type_of;
  get_int = int_at;
  get_boolean = boolean_at;
  get_double = λ j. 0;
  get_string = string_at;
  to_text = text_at;
  spaced = text_at;
  new_int = int_node;
  new_boolean = boolean_node;
  new_string = string_node;
  new_object = object_end;
  object_add = add;
  new_array = array_end;
  array_add = append;
}

same_text_self : (t : Text) → same_text t t ≡ true
unfolding same_text
same_text_self [] = refl
same_text_self (x ∷ t) = ground (arith, same_text_self t)

pub get-add_same : (j : Node) (key : Text) (v : Node) → get (add j key v) key ≡ some v
get-add_same (member k w rest) key v = elim (Bool-cases (same_text k key)) [
  | inl e ↦ rw (e, same_text_self key) refl
  | inr e ↦ rw (e, e) (get-add_same rest key v)
]
get-add_same (int_node n) key v = rw (same_text_self key) refl
get-add_same (boolean_node b) key v = rw (same_text_self key) refl
get-add_same (string_node t) key v = rw (same_text_self key) refl
get-add_same object_end key v = rw (same_text_self key) refl
get-add_same array_end key v = rw (same_text_self key) refl
get-add_same (item w rest) key v = rw (same_text_self key) refl

pub get-add_other :
    (j : Node) (key other : Text) (v : Node)
    → same_text key other ≡ false
    → get (add j key v) other ≡ get j other
get-add_other (member k w rest) key other v h = elim (Bool-cases (same_text k key)) [
  | inl e ↦
      let same : same_text k other ≡ false =
        ap (λ t. same_text t other) (same_text_eq k key e) ∙ h in
      rw (e, h, same) refl
  | inr e ↦ rw e (elim (Bool-cases (same_text k other)) [
    | inl f ↦ rw f refl
    | inr f ↦ rw f (get-add_other rest key other v h)
  ])
]
get-add_other (int_node n) key other v h = rw h refl
get-add_other (boolean_node b) key other v h = rw h refl
get-add_other (string_node t) key other v h = rw h refl
get-add_other object_end key other v h = rw h refl
get-add_other array_end key other v h = rw h refl
get-add_other (item w rest) key other v h = rw h refl

pub items-append : (j v : Node) → items (append j v) ≡ items j ++ v ∷ []
items-append (item w rest) v = ap (◌∷◌ w) (items-append rest v)
items-append (int_node n) v = refl
items-append (boolean_node b) v = refl
items-append (string_node t) v = refl
items-append object_end v = refl
items-append (member k w rest) v = refl
items-append array_end v = refl

abbrev pub json_laws : JsonLaws json
json_laws = record {
  items = items;
  get_same = get-add_same;
  get_other = get-add_other;
  items_new = refl;
  items_add = items-append;
}

abbrev pub system : System
system = record {
  print_ip = λ ip. codes "fe80::1";
  print_mac = λ c. codes "ff:ff:00:00:00:00";
  name = λ c. codes "kitchen";
  protoversion = λ c. 2;
  hostname = codes "host";
  source_version = codes "1";
  major = codes "1";
  minor = codes "0";
  patch = codes "0";
  decimal = λ n. codes "0";
}
