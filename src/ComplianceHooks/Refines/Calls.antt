-- ===== src/ComplianceHooks/Refines/Calls.antt =====
-- The whole of contracts/compliance-hooks/src/lib.rs implements the state machine.
use safeguard_hooks.Prelude.{unwrap_or, is_some}
use safeguard_hooks.Host.{Host}
use safeguard_hooks.Storage.Registry.{Does, Does-pure, Does-bind}
use safeguard_hooks.Storage.Entries.Reads.{
  admin-Does, version-Does, compliance_config-Does, config_version-Does, is_token_bound-Does,
  is_frozen-Does,
}
use safeguard_hooks.Authorization.Gates.{is_initialized-Does}
use safeguard_hooks.ComplianceHooks.{
  admin, token_is_bound, initialized, state_version, config, config_version, is_frozen,
}
use safeguard_hooks.ComplianceHooks.Invoke.{invoke}
use safeguard_hooks.ComplianceHooks.Transition.{
  State, Call, initialize, set_config, bind_token, unbind_token, freeze, unfreeze, before_register,
  before_withdraw, before_merge, before_deposit, before_transfer, before_transfer_from, transition,
}
use safeguard_hooks.ComplianceHooks.Refines.{Meets}
use safeguard_hooks.ComplianceHooks.Refines.Admin.{
  initialize-Meets, set_config-Meets, bind_token-Meets, unbind_token-Meets, freeze-Meets,
  unfreeze-Meets,
}
use safeguard_hooks.ComplianceHooks.Refines.Hooks.{
  before_register-Meets, before_deposit-Meets, before_transfer-Meets, before_withdraw-Meets,
  before_merge-Meets, before_transfer_from-Meets,
}

module _ ⦃H : Host⦄ where
  -- Every call of the contract ends as the state machine says: from each environment that shows a
  -- registry it returns the reply of the transition and shows the new registry, or it panics where
  -- the transition aborts.
  pub invoke-Meets : (r : State) (c : Call H.Address) → Meets (invoke c) r (transition r c)
  unfolding invoke transition
  invoke-Meets r (initialize a) = initialize-Meets r a
  invoke-Meets r (set_config policy sac_passthrough) = set_config-Meets r policy sac_passthrough
  invoke-Meets r (bind_token token sac) = bind_token-Meets r token sac
  invoke-Meets r (unbind_token token) = unbind_token-Meets r token
  invoke-Meets r (freeze token account) = freeze-Meets r token account
  invoke-Meets r (unfreeze token account) = unfreeze-Meets r token account
  invoke-Meets r (before_register token account) = before_register-Meets r token account
  invoke-Meets r (before_deposit token source target) = before_deposit-Meets r token source target
  invoke-Meets r (before_transfer token source target) = before_transfer-Meets r token source target
  invoke-Meets r (before_withdraw token account) = before_withdraw-Meets r token account
  invoke-Meets r (before_merge token account) = before_merge-Meets r token account
  invoke-Meets r (before_transfer_from token delegate source target) =
      before_transfer_from-Meets r token delegate source target

  -- Every public read returns what the registry holds, in every environment that shows one, and
  -- changes nothing of it; no read panics, and a version that is not
  -- set reads as 0.
  pub reads_tell :
      (r : State) (token account : H.Address)
      → Does admin r r.admin r
        × Does (token_is_bound token) r (is_some (r.binding token)) r
        × Does initialized r (is_some r.admin) r
        × Does state_version r (unwrap_or r.version 0) r
        × Does config r r.config r
        × Does config_version r (unwrap_or r.config_version 0) r
        × Does (is_frozen token account) r (r.frozen token account) r
  unfolding admin token_is_bound initialized state_version config config_version is_frozen
  reads_tell r token account = (
    admin-Does r,
    is_token_bound-Does r token,
    is_initialized-Does r,
    Does-bind _ (version-Does r) (Does-pure _ r),
    compliance_config-Does r,
    Does-bind _ (config_version-Does r) (Does-pure _ r),
    is_frozen-Does r token account,
  )
