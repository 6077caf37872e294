-- ===== src/Cli/Revert/Meaning.antt =====
-- The command line reads back every error of the contract.
use safeguard_hooks.Prelude.{
  ℕ, ◌≡◌, ◌⊎◌, inl, inr, refl, sym, ◌∙◌, Bool, true, false, Option, none, some, ◌==◌, if◌then◌else◌,
  arith,
}
use safeguard_hooks.HookCore.Reason
use safeguard_hooks.HookCore.Reason.{RejectionReason, code}
use safeguard_hooks.HookCore.Codes.{from_code_iff}
use safeguard_hooks.ComplianceHooks.{ContractError, error_code}
use safeguard_hooks.Cli.Revert.{
  ContractRevert, rejection, already_initialized, unknown, from_code, revert_of,
}

-- What the decoder makes of each error that the contract returns.
abbrev pub meaning : ContractError → ContractRevert
meaning ContractError.unbound_token = rejection RejectionReason.unbound_token
meaning ContractError.policy_denied = rejection RejectionReason.policy_denied
meaning ContractError.account_frozen = rejection RejectionReason.account_frozen
meaning ContractError.spender_not_authorized = rejection RejectionReason.spender_not_authorized
meaning ContractError.sac_authorization_failed = rejection RejectionReason.sac_authorization_failed
meaning ContractError.invalid_configuration = rejection RejectionReason.invalid_configuration
meaning ContractError.policy_unavailable = rejection RejectionReason.policy_unavailable
meaning ContractError.already_initialized = already_initialized

known : (x : ContractError) → from_code (error_code x) ≡ meaning x
unfolding from_code error_code Reason.from_code
known ContractError.unbound_token = refl
known _ = refl

error_of : (r : RejectionReason) → (x : ContractError) × (meaning x ≡ rejection r)
error_of RejectionReason.unbound_token = (ContractError.unbound_token, refl)
error_of RejectionReason.policy_denied = (ContractError.policy_denied, refl)
error_of RejectionReason.account_frozen = (ContractError.account_frozen, refl)
error_of RejectionReason.spender_not_authorized = (ContractError.spender_not_authorized, refl)
error_of RejectionReason.sac_authorization_failed = (ContractError.sac_authorization_failed, refl)
error_of RejectionReason.invalid_configuration = (ContractError.invalid_configuration, refl)
error_of RejectionReason.policy_unavailable = (ContractError.policy_unavailable, refl)

code_of_meaning :
    (x : ContractError) (r : RejectionReason) → meaning x ≡ rejection r → code r ≡ error_code x
unfolding code error_code
code_of_meaning x r h = ground arith

twelve : (c : ℕ) → (c == 12) ≡ true → c ≡ 12
twelve c h = ground arith

-- Each error that the contract returns decodes to its own meaning, and a code decodes to a known
-- meaning only if it is the code of an error of the contract with that meaning.
pub from_code_lem :
    ((x : ContractError) → from_code (error_code x) ≡ meaning x)
    × ((c : ℕ)
        → (from_code c ≡ unknown c)
          ⊎ ((x : ContractError) × (error_code x ≡ c) × (from_code c ≡ meaning x)))
unfolding from_code error_code
from_code_lem = (known, λ c. by_reason c (Reason.from_code c) refl)
  where
    by_code :
        (c : ℕ) (b : Bool)
        → (c == 12) ≡ b
        → ((if b then already_initialized else unknown c) ≡ unknown c)
          ⊎ ((x : ContractError) × (error_code x ≡ c)
              × ((if b then already_initialized else unknown c) ≡ meaning x))
    by_code c true e = inr (ContractError.already_initialized, sym (twelve c e), refl)
    by_code c false e = inl refl

    by_reason :
        (c : ℕ) (o : Option RejectionReason)
        → Reason.from_code c ≡ o
        → (revert_of c o ≡ unknown c)
          ⊎ ((x : ContractError) × (error_code x ≡ c) × (revert_of c o ≡ meaning x))
    by_reason c (some r) e =
        let (x, h) = error_of r in
        inr (x, sym (code_of_meaning x r h) ∙ (from_code_iff c r).0 e, sym h)
    by_reason c none e = by_code c (c == 12) refl
