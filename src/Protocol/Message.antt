-- ===== src/Protocol/Message.antt =====
-- include/protocol/Message.hpp and src/protocol/Message.cpp. A path is the list of the bytes of its
-- file name.
use exchange_engine.Base.{
  ℕ, Bool, not, ◌||◌, Option, none, some, List, [], ◌∷◌, bytes, same_text, if◌then◌else◌,
}
use exchange_engine.Base.Result.{Result, returns, raises, ◌>>=◌, raise_if}
use exchange_engine.Core.Level.{is_nil}
use exchange_engine.Protocol.Json.{JsonValue, is_object, as_string, find}
use exchange_engine.Protocol.Parser.Lexer.{JsonError, Parsing, ok, fail, out_of_fuel}
use exchange_engine.Protocol.Parser.{parse_json}

pub data MessageClass : Type 0 where
  input reply event : MessageClass

pub record ProtocolMessage : Type 0 where
  pub kind : List ℕ
  pub payload : JsonValue

-- What `parse_protocol_message` throws; `no_outcome` is the model's own.
pub data ProtocolError : Type 0 where
  not_json : JsonError → ProtocolError
  no_outcome root_not_object type_not_string type_empty payload_not_object : ProtocolError

abbrev pub root_of : Parsing JsonValue → Result ProtocolError JsonValue
root_of (ok v) = returns v
root_of (fail e) = raises (not_json e)
root_of out_of_fuel = raises no_outcome

-- The string of a field.
abbrev pub string_field : Option JsonValue → Option (List ℕ)
string_field none = none
string_field (some v) = as_string v

abbrev pub object_field : Option JsonValue → Option JsonValue
object_field none = none
object_field (some v) = if is_object v then some v else none

abbrev pub or_raise {ℓ κ} : {E : Type ℓ} {A : Type κ} → E → Option A → Result E A
or_raise e none = raises e
or_raise e (some a) = returns a

-- The message of a root value.
unfoldable pub message_of : JsonValue → Result ProtocolError ProtocolMessage
message_of root = do
  u ← raise_if (not (is_object root)) root_not_object
  kind ← or_raise type_not_string (string_field (find root (bytes "type")))
  w ← raise_if (is_nil kind) type_empty
  payload ← or_raise payload_not_object (object_field (find root (bytes "payload")))
  returns (record { kind = kind; payload = payload })

unfoldable pub parse_protocol_message : List ℕ → Result ProtocolError ProtocolMessage
unfolding parse_json message_of
parse_protocol_message text = root_of (parse_json text) >>= message_of

-- `filename.ends_with(suffix)`
unfoldable pub ends_with : List ℕ → List ℕ → Bool
ends_with [] suffix = is_nil suffix
ends_with (c ∷ cs) suffix = same_text (c ∷ cs) suffix || ends_with cs suffix

unfoldable pub classify_engine_fixture_path : List ℕ → Option MessageClass
unfolding ends_with
classify_engine_fixture_path filename =
    if ends_with filename (bytes ".command.json") || ends_with filename (bytes ".input.json")
    then some input
    else (if ends_with filename (bytes ".reply.json")
        then some reply
        else (if ends_with filename (bytes ".event.json") then some event else none))
