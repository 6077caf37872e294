-- ===== src/Cli/Arguments.antt =====
-- cli/src/stellar.rs: the argument vectors of the stellar CLI and the values in them.
pub mod Injective
pub mod DeployedId
use Prim.Native.String
use Prim.Native.String.{◌++◌ as ◌<>◌, len}
use text.Mathlib.Text.{starts_with}
use safeguard_hooks.Prelude.{
  String, Bool, true, false, ◌&&◌, ◌||◌, Option, none, some, List, [], ◌∷◌, ◌++◌, ◌==◌, find,
  if◌then◌else◌,
}
use safeguard_hooks.Cli.Text.{all_chars, is_ascii_uppercase, is_ascii_digit, last_lines}

-- The loop that pushes `--<name>` and the value of each parameter.
abbrev pub flags : List (String × String) → List String
flags [] = []
flags ((name, value) ∷ params) = ("--" <> name) ∷ value ∷ flags params

unfoldable pub view_args :
    (source_account contract_id network func : String) → List (String × String) → List String
view_args source_account contract_id network func params =
    "contract"
    ∷ "invoke"
    ∷ "--id"
    ∷ contract_id
    ∷ "--source-account"
    ∷ source_account
    ∷ "--send=no"
    ∷ "--network"
    ∷ network
    ∷ "--"
    ∷ func
    ∷ flags params

-- `if let Some(source) = source { … }`
abbrev pub source_flag : Option String → List String
source_flag none = []
source_flag (some source) = "--source" ∷ source ∷ []

unfoldable pub invoke_args :
    Option String → (hooks_id network func : String) → List (String × String) → List String
invoke_args source hooks_id network func params =
    ("contract" ∷ "invoke" ∷ "--id" ∷ hooks_id ∷ [])
    ++ source_flag source
    ++ "--network" ∷ network ∷ "--" ∷ func ∷ flags params

-- `if !constructor.is_empty() { … }`
abbrev pub constructor_flags : List (String × String) → List String
constructor_flags [] = []
constructor_flags (p ∷ ps) = "--" ∷ flags (p ∷ ps)

unfoldable pub deploy_args : (wasm source network : String) → List (String × String) → List String
deploy_args wasm source network constructor =
    ("contract" ∷ "deploy" ∷ "--wasm" ∷ wasm ∷ "--source" ∷ source ∷ "--network" ∷ network ∷ [])
    ++ constructor_flags constructor

unfoldable pub network_add_args : (network rpc_url passphrase : String) → List String
network_add_args network rpc_url passphrase =
    "network" ∷ "add" ∷ network ∷ "--rpc-url" ∷ rpc_url ∷ "--network-passphrase" ∷ passphrase ∷ []

unfoldable pub network_list_args : List String
network_list_args = "network" ∷ "ls" ∷ []

unfoldable pub address : String → String
address addr = addr

unfoldable pub opt_address : Option String → String
opt_address (some a) = "\"" <> a <> "\""
opt_address none = "null"

unfoldable pub boolean : Bool → String
boolean true = "true"
boolean false = "false"

unfoldable pub is_stellar_address : String → Bool
is_stellar_address value =
    (len value == 56)
    && (starts_with value "G" || starts_with value "C")
    && all_chars (λ c. is_ascii_uppercase c || is_ascii_digit c) value

-- the test of `parse_deployed_id`
abbrev pub is_contract_id : String → Bool
is_contract_id l =
    (len l == 56)
    && starts_with l "C"
    && all_chars (λ c. is_ascii_uppercase c || is_ascii_digit c) l

unfoldable pub parse_deployed_id : String → Option String
parse_deployed_id stdout = find is_contract_id (last_lines stdout)
