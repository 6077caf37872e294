-- ===== src/Compliance/Evaluator.antt =====
-- crates/compliance/src/evaluator.rs: the gates of one operation, in order, up to the first denial.
pub mod Checks
pub mod Gates
pub mod Refines
pub mod Agreement
pub mod Clearance
pub mod Allows
pub mod Failures
pub mod Denials
pub mod Questions
pub mod Asking
pub mod Budget
use mathlib.Core.Option
use safeguard_hooks.Prelude.{
  Bool, true, false, ◌&&◌, Option, none, some, List, [], ◌∷◌, ok, err, Result, length, zip, ◌==◌,
  if◌then◌else◌,
}
use safeguard_hooks.HookCore.Party.{PartyRole, holds_funds, is_spender}
use safeguard_hooks.HookCore.Operation.{
  Operation, register, deposit, merge, transfer, transfer_from, withdraw, parties,
}
use safeguard_hooks.HookCore.Reason.{
  RejectionReason, account_frozen, policy_denied, spender_not_authorized, sac_authorization_failed,
  invalid_configuration,
}
use safeguard_hooks.HookCore.Decision.{ComplianceDecision, allow, deny, is_allowed}
use safeguard_hooks.Host.{Host}
use safeguard_hooks.Host.Run.{M, pure, ◌>>=◌}
use safeguard_hooks.Storage.Keys.{ComplianceConfig}
use safeguard_hooks.Storage.Entries.{compliance_config, token_binding, is_frozen}
use safeguard_hooks.Authorization.{require_token_bound}
use safeguard_hooks.PolicyClient
use safeguard_hooks.Compliance.Sac

module _ ⦃H : Host⦄ where
  open H use {Address}

  -- `holds_funds && is_frozen(…)`: the flag of a party that holds no funds is not read.
  pub freeze_gate : Address → PartyRole → Address → M Bool
  unfolding holds_funds
  freeze_gate token role account = if holds_funds role then is_frozen token account else pure false

  -- the policy's answer for one party, as a decision
  abbrev policy_verdict : PartyRole → Result RejectionReason Bool → ComplianceDecision
  policy_verdict role (ok true) = allow
  policy_verdict role (ok false) =
      if is_spender role then deny spender_not_authorized else deny policy_denied
  policy_verdict role (err reason) = deny reason

  pub policy_gate : Address → PartyRole → Address → Option Address → M ComplianceDecision
  unfolding is_spender
  policy_gate token role account none = pure allow
  policy_gate token role account (some policy) = do
    answer ← PolicyClient.is_authorized policy account token
    pure (policy_verdict role answer)

  abbrev sac_verdict : Result RejectionReason Bool → ComplianceDecision
  sac_verdict (ok true) = allow
  sac_verdict (ok false) = deny sac_authorization_failed
  sac_verdict (err _) = deny sac_authorization_failed

  pub sac_gate : Address → Option Address → M ComplianceDecision
  sac_gate account none = pure allow
  sac_gate account (some sac) = do answer ← Sac.is_authorized sac account; pure (sac_verdict answer)

  -- an early `return` of a denial
  abbrev unless_denied : ComplianceDecision → M ComplianceDecision → M ComplianceDecision
  unless_denied allow later = later
  unless_denied (deny reason) later = pure (deny reason)

  pub screen_party :
      (token : Address) (role : PartyRole) (account : Address) (config : ComplianceConfig Address)
      (sac : Option Address)
      → M ComplianceDecision
  unfolding freeze_gate policy_gate sac_gate
  screen_party token role account config sac = do
    frozen ← freeze_gate token role account
    if frozen then pure (deny account_frozen) else do
      screened ← policy_gate token role account config.policy
      unless_denied screened
          (if holds_funds role && config.sac_passthrough then sac_gate account sac else pure allow)

  -- the `for` loop of `evaluate`, from the decision so far
  screen_parties :
      (token : Address) (config : ComplianceConfig Address) (sac : Option Address)
      → List (PartyRole × Address)
      → ComplianceDecision
      → M ComplianceDecision
  screen_parties token config sac [] decision = pure decision
  screen_parties token config sac ((role, account) ∷ rest) decision =
      if is_allowed decision
      then (screen_party token role account config sac >>= λ next.
          screen_parties token config sac rest next)
      else pure decision

  -- `evaluate` once the scope gate has answered, and once the configuration is read
  evaluate_scoped :
      (token : Address)
      → Operation
      → List Address
      → ComplianceConfig Address
      → Result RejectionReason (Unit {0})
      → M ComplianceDecision
  unfolding screen_parties parties zip Option.bind
  evaluate_scoped token operation accounts config (err reason) = pure (deny reason)
  evaluate_scoped token operation accounts config (ok _) = do
    binding ← token_binding token
    let sac = Option.bind binding (λ b. b.sac)
    let roles = parties operation
    if length roles == length accounts
        then screen_parties token config sac (zip roles accounts) allow
        else pure (deny invalid_configuration)

  evaluate_configured :
      (token : Address)
      → Operation
      → List Address
      → Option (ComplianceConfig Address)
      → M ComplianceDecision
  unfolding evaluate_scoped
  evaluate_configured token operation accounts none = pure (deny invalid_configuration)
  evaluate_configured token operation accounts (some config) = do
    scope ← require_token_bound token
    evaluate_scoped token operation accounts config scope

  pub evaluate : (token : Address) → Operation → List Address → M ComplianceDecision
  unfolding evaluate_configured
  evaluate token operation accounts = do
    stored ← compliance_config
    evaluate_configured token operation accounts stored

  unfoldable pub evaluate_register : (token account : Address) → M ComplianceDecision
  evaluate_register token account = evaluate token register (account ∷ [])

  unfoldable pub evaluate_deposit : (token from to : Address) → M ComplianceDecision
  evaluate_deposit token from to = evaluate token deposit (from ∷ to ∷ [])

  unfoldable pub evaluate_transfer : (token from to : Address) → M ComplianceDecision
  evaluate_transfer token from to = evaluate token transfer (from ∷ to ∷ [])

  unfoldable pub evaluate_withdraw : (token account : Address) → M ComplianceDecision
  evaluate_withdraw token account = evaluate token withdraw (account ∷ account ∷ [])

  unfoldable pub evaluate_merge : (token account : Address) → M ComplianceDecision
  evaluate_merge token account = evaluate token merge (account ∷ [])

  unfoldable pub evaluate_transfer_from : (token spender from to : Address) → M ComplianceDecision
  evaluate_transfer_from token spender from to =
      evaluate token transfer_from (spender ∷ from ∷ to ∷ [])
