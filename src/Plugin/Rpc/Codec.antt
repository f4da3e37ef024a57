-- ===== src/Plugin/Rpc/Codec.antt =====
-- crates/go-plugin/src/rpc_codec.rs: the headers of calls and replies, and their coding.
-- rmp_serde is an argument, a `Format` for each type that is written or read: `write` gives nothing
-- where it fails, `parse` an error's text, or the value and the bytes behind it.
use pixi_ai.Common.{
  ℕ, ◌+◌, ◌*◌, ◌/◌, ◌%◌, ◌<◌, ◌≡◌, List, [], ◌∷◌, ◌++◌, Option, some, ◌⊎◌, Text, codes, u32_mod,
  arith,
}
use pixi_ai.Common.Options.{◌>>=◌}

pub record RpcRequest : Type 0 where
  pub service_method : Text
  pub seq : ℕ

pub record RpcResponse : Type 0 where
  pub service_method : Text
  pub seq : ℕ
  pub error : Text

pub record Format (A : Type 0) : Type 0 where
  pub write : A → Option (List ℕ)
  pub parse : List ℕ → Text ⊎ (A × List ℕ)

pub record Msgpack : Type 0 where
  pub request : Format RpcRequest
  pub response : Format RpcResponse
  pub unit : Format (Unit {0})
  pub id : Format ℕ
  pub name : Format Text
  pub bytes : Format (List ℕ)

unfoldable pub encode_request : {T : Type 0} → Msgpack → Format T → RpcRequest → T → Option (List ℕ)
encode_request m f req body = do
  header ← m.request.write req
  rest ← f.write body
  some (header ++ rest)

unfoldable pub encode_response :
    {T : Type 0} → Msgpack → Format T → RpcResponse → T → Option (List ℕ)
encode_response m f resp body = do
  header ← m.response.write resp
  rest ← f.write body
  some (header ++ rest)

abbrev pub decode_request_header : Msgpack → List ℕ → Text ⊎ (RpcRequest × List ℕ)
decode_request_header m = m.request.parse

abbrev pub decode_response_header : Msgpack → List ℕ → Text ⊎ (RpcResponse × List ℕ)
decode_response_header m = m.response.parse

abbrev pub decode_body : {T : Type 0} → Format T → List ℕ → Text ⊎ (T × List ℕ)
decode_body f = f.parse

abbrev pub control_ping : Text
control_ping = codes "Control.Ping"

abbrev pub control_quit : Text
control_quit = codes "Control.Quit"

abbrev pub dispenser_dispense : Text
dispenser_dispense = codes "Dispenser.Dispense"

-- `u32::to_be_bytes` and `u32::from_be_bytes`.
unfoldable pub to_be_bytes : ℕ → List ℕ
to_be_bytes n = n / 16777216 % 256 ∷ n / 65536 % 256 ∷ n / 256 % 256 ∷ n % 256 ∷ []

unfoldable pub from_be : ℕ → List ℕ → ℕ
from_be acc [] = acc
from_be acc (b ∷ bytes) = from_be (acc * 256 + b) bytes

-- A message of more than 10 MiB is refused.
abbrev pub max_message : ℕ
max_message = 10 * 1024 * 1024

digits_lem :
    (n : ℕ)
    → n < u32_mod
    → (((0 * 256 + n / 16777216 % 256) * 256 + n / 65536 % 256) * 256 + n / 256 % 256) * 256
        + n % 256
      ≡ n
digits_lem n h = omega arith

pub from_be-to_be_bytes : (n : ℕ) → n < u32_mod → from_be 0 (to_be_bytes n) ≡ n
unfolding from_be to_be_bytes
from_be-to_be_bytes n h = digits_lem n h
