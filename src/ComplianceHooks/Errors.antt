-- ===== src/ComplianceHooks/Errors.antt =====
-- contracts/compliance-hooks/src/lib.rs: the errors of the contract beside the reasons of
-- crates/hook-core/src/reason.rs.
use safeguard_hooks.Prelude.{ℕ, ◌≡◌, ◌↔◌, refl, sym, ◌∙◌, ap, some, err}
use safeguard_hooks.HookCore.Reason.{
  RejectionReason, unbound_token, policy_denied, account_frozen, spender_not_authorized,
  sac_authorization_failed, invalid_configuration, policy_unavailable, code, from_code,
}
use safeguard_hooks.HookCore.Codes.{from_code_iff}
use safeguard_hooks.HookCore.Decision.{ComplianceDecision, allow, deny}
use safeguard_hooks.ComplianceHooks.{ContractError, error_code, from_reason, enforce}

error_code-from_reason : (why : RejectionReason) → error_code (from_reason why) ≡ code why
unfolding error_code from_reason code
error_code-from_reason unbound_token = refl
error_code-from_reason policy_denied = refl
error_code-from_reason account_frozen = refl
error_code-from_reason spender_not_authorized = refl
error_code-from_reason sac_authorization_failed = refl
error_code-from_reason invalid_configuration = refl
error_code-from_reason policy_unavailable = refl

refused :
    (d : ComplianceDecision) (x : ContractError)
    → enforce d ≡ err x
    → (why : RejectionReason) × (d ≡ deny why) × (from_reason why ≡ x)
unfolding enforce
refused allow x h = cc
refused (deny why) x h = (why, refl, cc)

-- A hook fails with the error code `c` exactly when its decision is a denial for the reason that
-- `RejectionReason::from_code` reads from `c`.
pub enforce_code_iff :
    (d : ComplianceDecision) (c : ℕ)
    → ((x : ContractError) × (enforce d ≡ err x) × (error_code x ≡ c))
      ↔ ((why : RejectionReason) × (d ≡ deny why) × (from_code c ≡ some why))
unfolding enforce
enforce_code_iff d c = (
  λ (x, h, k).
      let (why, denied, same_error) = refused d x h in
      (
        why,
        denied,
        (from_code_iff c why).1 (sym (error_code-from_reason why) ∙ ap error_code same_error ∙ k),
      ),
  λ (why, denied, h).
      (from_reason why, ap enforce denied, error_code-from_reason why ∙ (from_code_iff c why).0 h),
)
