-- ===== src/Cli/Revert.antt =====
-- cli/src/stellar.rs: decoding `Error(Contract, #N)` into the contract's own errors.
pub mod Meaning
pub mod RoundTrip
use Prim.Native.String.{◌++◌ as ◌<>◌}
use safeguard_hooks.Prelude.{
  ℕ, String, ◌==◌, Bool, true, false, Option, none, some, List, [], ◌∷◌, if◌then◌else◌,
}
use safeguard_hooks.HookCore.Reason
use safeguard_hooks.HookCore.Reason.{RejectionReason, code}
use safeguard_hooks.Cli.Decimal.{display}
use safeguard_hooks.Cli.Text.{lines, after, take_while, is_ascii_digit, is_empty, read_u32}

pub data ContractRevert : Type 0 where
  rejection : RejectionReason → ContractRevert
  already_initialized : ContractRevert
  unknown : ℕ → ContractRevert

-- the guards of the match on `None`
abbrev revert_of : ℕ → Option RejectionReason → ContractRevert
revert_of c (some reason) = rejection reason
revert_of c none = if c == 12 then already_initialized else unknown c

unfoldable pub from_code : ℕ → ContractRevert
from_code c = revert_of c (Reason.from_code c)

pub describe : ContractRevert → String
describe (rejection r) =
    "contract error #" <> display (code r) <> ": " <> Reason.name r <> " — see docs/errors.md"
describe already_initialized =
    "contract error #12: already_initialized — initialize runs once; re-init is an admin-rotation attempt"
describe (unknown c) = "contract error #" <> display c <> ": undocumented code"

abbrev pub marker : String
marker = "Error(Contract, #"

-- the `for` loop of `decode_contract_error`, one line at a time: a line without the marker, or
-- without a digit behind it, is passed over
unfoldable pub decode_lines : List String → Option ContractRevert
unfolding from_code after
decode_lines [] = none
decode_lines (l ∷ ls) =
    let later = decode_lines ls in
    elim (after marker l) [
      | none ↦ later
      | some rest ↦
          let digits = take_while is_ascii_digit rest in
          if is_empty digits
          then later
          else elim (read_u32 0 digits) [ none ↦ none | some c ↦ some (from_code c) ]
    ]

unfoldable pub decode_contract_error : String → Option ContractRevert
unfolding lines decode_lines
decode_contract_error combined = decode_lines (lines combined)
