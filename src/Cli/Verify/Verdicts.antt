-- ===== src/Cli/Verify/Verdicts.antt =====
-- What the two enforcement checks of `verify` accept.
use safeguard_hooks.Prelude.{String, ◌≡◌, ◌≢◌, ◌⊎◌, ◌↔◌, inl, inr, refl, Option, Result, ok, err}
use safeguard_hooks.HookCore.Reason
use safeguard_hooks.HookCore.Reason.{
  RejectionReason, unbound_token, policy_denied, account_frozen, spender_not_authorized,
  sac_authorization_failed, invalid_configuration, policy_unavailable,
}
use safeguard_hooks.Cli.Revert.{rejection, already_initialized, unknown}
use safeguard_hooks.Cli.Outcome.{GateOutcome, allowed, denied}
use safeguard_hooks.Cli.Checks.{Status, pass, probe_check, sample_check}

module _ (debug : String → String) (json_policy : String → Option String) where
  abbrev probed : (probe : String) → Result String GateOutcome → Status
  probed probe outcome = (probe_check debug json_policy probe outcome).status

  -- The fail-closed probe passes exactly when the contract refused the unbound token as unbound.
  pub probe_check_iff :
      (probe : String) (outcome : Result String GateOutcome)
      → (probed probe outcome ≡ pass) ↔ (outcome ≡ ok (denied (rejection unbound_token)))
  unfolding Reason.name
  probe_check_iff probe (err why) = (λ h. cc, λ h. cc)
  probe_check_iff probe (ok allowed) = (λ h. cc, λ h. cc)
  probe_check_iff probe (ok (denied already_initialized)) = (λ h. cc, λ h. cc)
  probe_check_iff probe (ok (denied (unknown c))) = (λ h. cc, λ h. cc)
  probe_check_iff probe (ok (denied (rejection unbound_token))) = (λ h. refl, λ h. refl)
  probe_check_iff probe (ok (denied (rejection policy_denied))) = (λ h. cc, λ h. cc)
  probe_check_iff probe (ok (denied (rejection account_frozen))) = (λ h. cc, λ h. cc)
  probe_check_iff probe (ok (denied (rejection spender_not_authorized))) = (λ h. cc, λ h. cc)
  probe_check_iff probe (ok (denied (rejection sac_authorization_failed))) = (λ h. cc, λ h. cc)
  probe_check_iff probe (ok (denied (rejection invalid_configuration))) = (λ h. cc, λ h. cc)
  probe_check_iff probe (ok (denied (rejection policy_unavailable))) = (λ h. cc, λ h. cc)

  abbrev sampled : (account alias : String) → Result String GateOutcome → Status
  sampled account alias outcome = (sample_check debug json_policy account alias outcome).status

  -- A decision was reached: the operation was allowed, or refused for another reason than that the
  -- gate could not evaluate.
  abbrev pub Decided : Result String GateOutcome → Type 0
  Decided outcome =
      (outcome ≡ ok allowed)
      ⊎ ((reason : RejectionReason) × (outcome ≡ ok (denied (rejection reason)))
          × (reason ≢ invalid_configuration)
          × (reason ≢ policy_unavailable))

  -- The sample of a gate passes exactly when the contract reached a decision.
  pub sample_check_iff :
      (account alias : String) (outcome : Result String GateOutcome)
      → (sampled account alias outcome ≡ pass) ↔ Decided outcome
  sample_check_iff account alias (err why) =
      (λ h. cc, λ h. elim h [ inl p ↦ cc | inr (r, p, x, y) ↦ cc (p) ])
  sample_check_iff account alias (ok allowed) = (λ h. inl refl, λ h. refl)
  sample_check_iff account alias (ok (denied already_initialized)) =
      (λ h. cc, λ h. elim h [ inl p ↦ cc | inr (r, p, x, y) ↦ cc (p) ])
  sample_check_iff account alias (ok (denied (unknown c))) =
      (λ h. cc, λ h. elim h [ inl p ↦ cc | inr (r, p, x, y) ↦ cc (p) ])
  sample_check_iff account alias (ok (denied (rejection invalid_configuration))) =
      (λ h. cc, λ h. elim h [ inl p ↦ cc | inr (r, p, x, y) ↦ absurd (x cc) ])
  sample_check_iff account alias (ok (denied (rejection policy_unavailable))) =
      (λ h. cc, λ h. elim h [ inl p ↦ cc | inr (r, p, x, y) ↦ absurd (y cc) ])
  sample_check_iff account alias (ok (denied (rejection reason))) =
      (λ h. inr (reason, refl, (λ p. cc), (λ p. cc)), λ h. refl)
