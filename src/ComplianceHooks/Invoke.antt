-- ===== src/ComplianceHooks/Invoke.antt =====
-- contracts/compliance-hooks/src/lib.rs as one function: the host runs the entry point that a call
-- names.
use safeguard_hooks.Host.{Host}
use safeguard_hooks.Host.Run.{M}
use safeguard_hooks.ComplianceHooks
use safeguard_hooks.ComplianceHooks.{Reply}
use safeguard_hooks.ComplianceHooks.Transition.{
  Call, initialize, set_config, bind_token, unbind_token, freeze, unfreeze, before_register,
  before_withdraw, before_merge, before_deposit, before_transfer, before_transfer_from,
}

module _ ⦃H : Host⦄ where
  unfoldable pub invoke : Call H.Address → M Reply
  invoke (initialize a) = ComplianceHooks.initialize a
  invoke (set_config policy sac_passthrough) = ComplianceHooks.set_config policy sac_passthrough
  invoke (bind_token token sac) = ComplianceHooks.bind_token token sac
  invoke (unbind_token token) = ComplianceHooks.unbind_token token
  invoke (freeze token account) = ComplianceHooks.freeze token account
  invoke (unfreeze token account) = ComplianceHooks.unfreeze token account
  invoke (before_register token account) = ComplianceHooks.before_register token account
  invoke (before_deposit token source target) = ComplianceHooks.before_deposit token source target
  invoke (before_transfer token source target) = ComplianceHooks.before_transfer token source target
  invoke (before_withdraw token account) = ComplianceHooks.before_withdraw token account
  invoke (before_merge token account) = ComplianceHooks.before_merge token account
  invoke (before_transfer_from token delegate source target) =
      ComplianceHooks.before_transfer_from token delegate source target
