-- ===== src/ComplianceHooks.antt =====
-- contracts/compliance-hooks/src/lib.rs: the entry points of the contract.
pub mod Transition
pub mod Invoke
pub mod Refines
pub mod Effects
pub mod Authority
pub mod Redundant
pub mod Audit
pub mod Errors
pub mod Returns
pub mod Frozen
pub mod Setup
use mathlib.Core.Option
use safeguard_hooks.Prelude.{
  ℕ, Bool, true, false, not, Option, none, some, is_some, unwrap_or, same, option_eq, Result, ok,
  err, map_err, if◌then◌else◌,
}
use safeguard_hooks.HookCore.Reason.{RejectionReason}
use safeguard_hooks.HookCore.Reason
use safeguard_hooks.HookCore.Decision.{ComplianceDecision, allow, deny}
use safeguard_hooks.Host.{Host}
use safeguard_hooks.Host.Run.{M, pure, or_return, ◌>>=◌, ◌>>◌}
use safeguard_hooks.Host.Calls.{require_auth}
use safeguard_hooks.Storage.Keys.{ComplianceConfig, config_eq}
use safeguard_hooks.Storage.Entries
use safeguard_hooks.Storage.Entries.{
  token_binding, is_token_bound, compliance_config, set_admin, set_version, set_compliance_config,
  bump_config_version, freeze_account, unfreeze_account, current_version,
}
use safeguard_hooks.Events.Emit.{
  emit_initialized, emit_account_frozen, emit_account_unfrozen, emit_token_bound,
  emit_token_unbound, emit_compliance_config_changed,
}
use safeguard_hooks.Authorization.{is_initialized, require_admin}
use safeguard_hooks.Compliance.Evaluator.{
  evaluate_register, evaluate_deposit, evaluate_transfer, evaluate_withdraw, evaluate_merge,
  evaluate_transfer_from,
}

pub data ContractError : Type 0 where
  unbound_token policy_denied account_frozen spender_not_authorized : ContractError
  sac_authorization_failed invalid_configuration policy_unavailable : ContractError
  already_initialized : ContractError

-- The discriminants of `ContractError`.
unfoldable pub error_code : ContractError → ℕ
error_code unbound_token = 2
error_code policy_denied = 3
error_code account_frozen = 4
error_code spender_not_authorized = 5
error_code sac_authorization_failed = 8
error_code invalid_configuration = 9
error_code policy_unavailable = 10
error_code already_initialized = 12

-- `impl From<RejectionReason> for ContractError`
unfoldable pub from_reason : RejectionReason → ContractError
from_reason RejectionReason.unbound_token = unbound_token
from_reason RejectionReason.policy_denied = policy_denied
from_reason RejectionReason.account_frozen = account_frozen
from_reason RejectionReason.spender_not_authorized = spender_not_authorized
from_reason RejectionReason.sac_authorization_failed = sac_authorization_failed
from_reason RejectionReason.invalid_configuration = invalid_configuration
from_reason RejectionReason.policy_unavailable = policy_unavailable

-- What an entry point returns.
abbrev pub Reply : Type 0
Reply = Result ContractError (Unit {0})

unfoldable pub enforce : ComplianceDecision → Reply
unfolding from_reason
enforce allow = ok tt
enforce (deny reason) = err (from_reason reason)

module _ ⦃H : Host⦄ where
  open H use {Address, Address-discrete}

  pub admin_gate : M Reply
  unfolding from_reason
  admin_gate = do pure (map_err from_reason (← require_admin))

  pub scope_gate : Address → M Reply
  scope_gate token = do
    config ← compliance_config
    if not (is_some config) then pure (err invalid_configuration) else do
      bound ← is_token_bound token
      if not bound then pure (err unbound_token) else pure (ok tt)

  pub initialize : Address → M Reply
  initialize admin = do
    initialized ← is_initialized
    if initialized then pure (err already_initialized) else do
      require_auth admin
      set_admin admin
      set_version current_version
      emit_initialized admin
      pure (ok tt)

  pub set_config : Option Address → Bool → M Reply
  unfolding admin_gate
  set_config policy sac_passthrough = do
    gate ← admin_gate
    or_return gate λ _. do
      let next : ComplianceConfig Address = record {
        policy = policy;
        sac_passthrough = sac_passthrough;
      }
      stored ← compliance_config
      if option_eq (config_eq Address-discrete) stored (some next) then pure (ok tt) else do
        set_compliance_config next
        bump_config_version
        emit_compliance_config_changed next.policy next.sac_passthrough
        pure (ok tt)

  pub bind_token : Address → Option Address → M Reply
  unfolding admin_gate
  bind_token token sac = do
    gate ← admin_gate
    or_return gate λ _. do
      binding ← token_binding token
      let unchanged =
          unwrap_or (Option.map (λ b. option_eq (same Address-discrete) b.sac sac) binding) false
      if unchanged
          then pure (ok tt)
          else do Entries.bind_token token sac; emit_token_bound token; pure (ok tt)

  pub unbind_token : Address → M Reply
  unfolding admin_gate
  unbind_token token = do
    gate ← admin_gate
    or_return gate λ _. do
      bound ← is_token_bound token
      if not bound
          then pure (ok tt)
          else do Entries.unbind_token token; emit_token_unbound token; pure (ok tt)

  pub freeze : Address → Address → M Reply
  unfolding admin_gate scope_gate
  freeze token account = do
    gate ← admin_gate
    or_return gate λ _. do
      scope ← scope_gate token
      or_return scope λ _. do
        frozen ← Entries.is_frozen token account
        if not frozen
            then (do freeze_account token account; emit_account_frozen token account; pure (ok tt))
            else pure (ok tt)

  pub unfreeze : Address → Address → M Reply
  unfolding admin_gate scope_gate
  unfreeze token account = do
    gate ← admin_gate
    or_return gate λ _. do
      scope ← scope_gate token
      or_return scope λ _. do
        frozen ← Entries.is_frozen token account
        if frozen
            then (do
              unfreeze_account token account
              emit_account_unfrozen token account
              pure (ok tt))
            else pure (ok tt)

  pub before_register : (token account : Address) → M Reply
  unfolding enforce
  before_register token account = do pure (enforce (← evaluate_register token account))

  pub before_deposit : (token from to : Address) → M Reply
  unfolding enforce
  before_deposit token from to = do pure (enforce (← evaluate_deposit token from to))

  pub before_transfer : (token from to : Address) → M Reply
  unfolding enforce
  before_transfer token from to = do pure (enforce (← evaluate_transfer token from to))

  pub before_withdraw : (token account : Address) → M Reply
  unfolding enforce
  before_withdraw token account = do pure (enforce (← evaluate_withdraw token account))

  pub before_merge : (token account : Address) → M Reply
  unfolding enforce
  before_merge token account = do pure (enforce (← evaluate_merge token account))

  pub before_transfer_from : (token spender from to : Address) → M Reply
  unfolding enforce
  before_transfer_from token spender from to = do
    pure (enforce (← evaluate_transfer_from token spender from to))

  -- The public reads.
  pub admin : M (Option Address)
  admin = Entries.admin

  pub token_is_bound : Address → M Bool
  token_is_bound token = is_token_bound token

  pub initialized : M Bool
  initialized = is_initialized

  pub state_version : M ℕ
  state_version = do pure (unwrap_or (← Entries.version) 0)

  pub config : M (Option (ComplianceConfig Address))
  config = compliance_config

  pub config_version : M ℕ
  config_version = do pure (unwrap_or (← Entries.config_version) 0)

  pub is_frozen : Address → Address → M Bool
  is_frozen token account = Entries.is_frozen token account
