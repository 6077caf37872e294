-- ===== src/HookCore/Reason.antt =====
-- crates/hook-core/src/reason.rs: the machine-readable reasons of a denial.
use text.Mathlib.Text.{◌==◌ as str_eq}
use safeguard_hooks.Prelude.{ℕ, String, Option, List, [], ◌∷◌, ◌==◌, find}

pub data RejectionReason : Type 0 where
  unbound_token policy_denied account_frozen spender_not_authorized sac_authorization_failed :
      RejectionReason
  invalid_configuration policy_unavailable : RejectionReason

-- `RejectionReason::ALL`
abbrev pub all : List RejectionReason
all =
    unbound_token ∷ policy_denied ∷ account_frozen ∷ spender_not_authorized
    ∷ sac_authorization_failed ∷ invalid_configuration ∷ policy_unavailable ∷ []

unfoldable pub name : RejectionReason → String
name unbound_token = "unbound_token"
name policy_denied = "policy_denied"
name account_frozen = "account_frozen"
name spender_not_authorized = "spender_not_authorized"
name sac_authorization_failed = "sac_authorization_failed"
name invalid_configuration = "invalid_configuration"
name policy_unavailable = "policy_unavailable"

unfoldable pub code : RejectionReason → ℕ
code unbound_token = 2
code policy_denied = 3
code account_frozen = 4
code spender_not_authorized = 5
code sac_authorization_failed = 8
code invalid_configuration = 9
code policy_unavailable = 10

unfoldable pub from_name : String → Option RejectionReason
unfolding name
from_name s = find (λ reason. str_eq (name reason) s) all

unfoldable pub from_code : ℕ → Option RejectionReason
unfolding code
from_code c = find (λ reason. code reason == c) all
