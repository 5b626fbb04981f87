-- ===== src/Control.antt =====
-- src/socket.c: the state of the control socket, and what its handlers share.
-- The replies are the objects that are printed, with the file descriptor, oldest first.
pub mod Stream
pub mod Volume
pub mod Status
pub mod Socket
pub mod LineBuffer
pub mod Pieces
pub mod Lines
pub mod Served
pub mod Moved
pub mod Kept
pub mod Conserved
pub mod Volumes
pub mod Told
pub mod Refused
pub mod Described
pub mod Streams
use snapcastc.Base.{
  ℕ, ◌-◌, ◌%◌, Bool, true, false, List, [], ◌∷◌, ◌++◌, Option, none, some, if◌then◌else◌,
}
use snapcastc.Base.Int.{ℤ, pos, negsuc}
use snapcastc.Text.{Text, codes}
use snapcastc.Jsonrpc.{JsonC, Value, unset, bvalue, dnumber, number, json_text, string}
use snapcastc.Server.{ServerCtx, find_client, is_client}

-- An `int` as a `uint16_t` and as a `uint8_t`.
unfoldable pub u16_of : ℤ → ℕ
u16_of (pos n) = n % 65536
u16_of (negsuc n) = 65535 - n % 65536

unfoldable pub u8_of : ℤ → ℕ
u8_of (pos n) = n % 256
u8_of (negsuc n) = 255 - n % 256

-- The member `number` of the union; of another member it reads the first bytes, which `low_bits` gives.
abbrev pub number_of : (Value → ℤ) → Value → ℤ
number_of low_bits (number n) = n
number_of low_bits unset = low_bits unset
number_of low_bits (bvalue b) = low_bits (bvalue b)
number_of low_bits (dnumber d) = low_bits (dnumber d)
number_of low_bits (json_text t) = low_bits (json_text t)
number_of low_bits (string t) = low_bits (string t)

-- The members `string` and `json_string` are both a pointer to a text; `none` is a pointer that
-- another member's bytes make.
abbrev pub text_of : Value → Option Text
text_of unset = none
text_of (bvalue b) = none
text_of (dnumber d) = none
text_of (number n) = none
text_of (json_text t) = some t
text_of (string t) = some t

-- The pointer that `find_client` gives: the id, if a client has it.
unfoldable pub known_client : ServerCtx → ℕ → Option ℕ
known_client srv id = if is_client (find_client srv.streams id) then some id else none

module _ (J : JsonC) where
  pub record ControlCtx : Type 0 where
    pub server : ServerCtx
    pub replies : List (ℕ × J.Json)

  unfoldable pub jsonrpc_buildresult : J.Json → ℤ → J.Json → J.Json
  jsonrpc_buildresult obj id result =
      J.object_add
        (J.object_add (J.object_add obj (codes "id") (J.new_int id)) (codes "jsonrpc")
          (J.new_string (codes "2.0")))
        (codes "result") result

  -- `json_object_print_and_put`
  abbrev pub print_and_put : ControlCtx → ℕ → J.Json → ControlCtx
  print_and_put ctx fd obj = record ctx { replies = ctx.replies ++ (fd, obj) ∷ [] }
